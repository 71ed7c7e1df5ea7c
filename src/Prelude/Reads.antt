-- ===== src/Prelude/Reads.antt =====
-- Statements that read one row: the first row that a statement returns, an inner join with a table
-- on its key, and what both come to when the condition fixes a unique key.
use Prim.Native.String.{String}
use mathlib.Core.Path.{◌≡◌, refl, subst}
use mathlib.Core.Logic.{◌≢◌, inl, inr}
use mathlib.Core.Bool.{Bool, true, false}
use mathlib.Core.Option.{Option, none, some}
use mathlib.Core.List.{List, [], ◌∷◌}
use native.Mathlib.Omega.{arith}
use text.Mathlib.Text.{◌==◌ as str_eq}
use text.Mathlib.TextEquality.{eq_iff}
use tabela_pubg.Prelude.Tests.{if◌then◌else◌, Bool-cases}
use tabela_pubg.Prelude.Lists.{All}
use tabela_pubg.Prelude.Table.{returning}
use tabela_pubg.Prelude.Keyed.{find_by, HasDistinctKeys}

module _ {ℓ} {A : Type ℓ} where
  -- `const [row] = …`
  abbrev pub first : List A → Option A
  first [] = none
  first (r ∷ rs) = some r

  abbrev pub map_some {κ} : {B : Type κ} → (A → B) → Option A → Option B
  map_some f none = none
  map_some f (some a) = some (f a)

  abbrev pub bind_some {κ} : {B : Type κ} → Option A → (A → Option B) → Option B
  bind_some none f = none
  bind_some (some a) f = f a

  abbrev pub is_some : Option A → Bool
  is_some none = false
  is_some (some a) = true

  -- the row, if it fits
  abbrev pub only : (A → Bool) → Option A → Option A
  only p none = none
  only p (some r) = if p r then some r else none

  abbrev pub joined {κ} : {B : Type κ} → A → Option B → Option (A × B) → Option (A × B)
  joined r none rest = rest
  joined r (some b) rest = some (r, b)

  -- `select … inner join … on a unique key where p limit 1`; `partner` reads that key.
  abbrev pub join_one {κ} : {B : Type κ} → (A → Option B) → (A → Bool) → List A → Option (A × B)
  join_one partner p [] = none
  join_one partner p (r ∷ rs) =
      let rest = join_one partner p rs in if p r then joined r (partner r) rest else rest

module _ {ℓ} {A : Type ℓ} (key : A → String) (p : A → Bool) (k : String)
    (one_key : (r : A) → p r ≡ true → key r ≡ k) where
  returning_none : (f : A → A) (rs : List A) → All (λ s. key s ≢ k) rs → returning p f rs ≡ []
  returning_none f [] h = refl
  returning_none f (r ∷ rs) h = elim (Bool-cases (p r)) [
    | inl e ↦ absurd (h.0 (one_key r e))
    | inr e ↦ rw e (returning_none f rs h.1)
  ]

  join_none {κ} :
      {B : Type κ} (partner : A → Option B) (rs : List A)
      → All (λ s. key s ≢ k) rs
      → join_one partner p rs ≡ none
  join_none partner [] h = refl
  join_none partner (r ∷ rs) h = elim (Bool-cases (p r)) [
    | inl e ↦ absurd (h.0 (one_key r e))
    | inr e ↦ rw e (join_none partner rs h.1)
  ]

  -- The first row an update returns is the row with the key, if it fits.
  pub first-returning :
      (f : A → A) (rs : List A)
      → HasDistinctKeys key rs
      → first (returning p f rs) ≡ map_some f (only p (find_by key k rs))
  first-returning f [] h = refl
  first-returning f (r ∷ rs) h = elim (Bool-cases (str_eq (key r) k)) [
    | inl e ↦
        let absent = subst (λ x. All (λ s. key s ≢ x) rs) ((eq_iff (key r) k).0 e) h.0 in
        ground (arith, returning_none f rs absent)
    | inr e ↦ ground (arith, one_key r, eq_iff (key r) k, first-returning f rs h.1)
  ]

  -- So is the row that a join reads, when its partner is there.
  pub join_one_lem {κ} :
      {B : Type κ} (partner : A → Option B) (rs : List A)
      → HasDistinctKeys key rs
      → join_one partner p rs
        ≡ bind_some (only p (find_by key k rs)) (λ r. map_some (λ b. (r, b)) (partner r))
  join_one_lem partner [] h = refl
  join_one_lem {B = B} partner (r ∷ rs) h = elim (Bool-cases (str_eq (key r) k)) [
    | inl e ↦
        let absent = subst (λ x. All (λ s. key s ≢ x) rs) ((eq_iff (key r) k).0 e) h.0 in
        rw e (hit (p r) refl (join_none partner rs absent))
    | inr e ↦
        let misses : (p r ≡ false) = ground (arith, one_key r, eq_iff (key r) k) in
        rw (misses, e) (join_one_lem partner rs h.1)
  ]
    where
      hit :
          (b : Bool)
          → p r ≡ b
          → join_one partner p rs ≡ none
          → (if b then joined r (partner r) (join_one partner p rs) else join_one partner p rs)
            ≡ bind_some (if b then some r else none) (λ r. map_some (λ b. (r, b)) (partner r))
      hit false e n = n
      hit true e n = rw n (met (partner r))
        where
          met : (o : Option B) → joined r o none ≡ map_some (λ b. (r, b)) o
          met none = refl
          met (some b) = refl
