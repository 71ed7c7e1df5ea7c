-- ===== src/Prelude/Returned.antt =====
-- The rows that an update returns, and how many it takes.
use Prim.Native.Nat.{ℕ, ◌+◌, ◌≤◌}
use Prim.Native.String.{String}
use mathlib.Core.Path.{◌≡◌, refl, sym, subst}
use mathlib.Core.Logic.{◌≢◌, inl, inr}
use mathlib.Core.Bool.{Bool, true, false, ◌||◌}
use mathlib.Core.Option.{Option, none, some}
use mathlib.Core.List.{List, [], ◌∷◌, Memᴰ}
use native.Mathlib.Omega.{arith}
use text.Mathlib.Text.{◌==◌ as str_eq}
use text.Mathlib.TextEquality.{eq_iff}
use tabela_pubg.Prelude.Tests.{if◌then◌else◌, Bool-cases}
use tabela_pubg.Prelude.Lists.{All, length, any}
use tabela_pubg.Prelude.Table.{returning, count}
use tabela_pubg.Prelude.Keyed.{find_by, HasDistinctKeys}

module _ {ℓ} {A : Type ℓ} where
  pub Memᴰ-returning :
      (p : A → Bool) (f : A → A) (rs : List A) (q : A)
      → Memᴰ q (returning p f rs)
      → (r : A) × Memᴰ r rs × (p r ≡ true) × (q ≡ f r)
  Memᴰ-returning p f [] q m = elim m [ ]
  Memᴰ-returning p f (s ∷ rs) q m = split (Memᴰ-returning p f rs q) (p s) refl m
    where
      later :
          ((r : A) × Memᴰ r rs × (p r ≡ true) × (q ≡ f r))
          → (r : A) × Memᴰ r (s ∷ rs) × (p r ≡ true) × (q ≡ f r)
      later (r, m', e, same) = (r, Memᴰ.tail m', e, same)

      split :
          (Memᴰ q (returning p f rs) → (r : A) × Memᴰ r rs × (p r ≡ true) × (q ≡ f r))
          → (b : Bool) → p s ≡ b
          → Memᴰ q (if b then f s ∷ returning p f rs else returning p f rs)
          → (r : A) × Memᴰ r (s ∷ rs) × (p r ≡ true) × (q ≡ f r)
      split ih true e (Memᴰ.head same) = (s, Memᴰ.head refl, e, same)
      split ih true e (Memᴰ.tail t) = later (ih t)
      split ih false e t = later (ih t)

  pub length-returning :
      (p : A → Bool) (f : A → A) (rs : List A) → length (returning p f rs) ≡ count p rs
  length-returning p f [] = refl
  length-returning p f (r ∷ rs) = ground (arith, length-returning p f rs)

  pub count-or-le :
      (p q : A → Bool) (rs : List A) → count (λ r. p r || q r) rs ≤ count p rs + count q rs
  count-or-le p q [] = omega arith
  count-or-le p q (r ∷ rs) = ground (arith, count-or-le p q rs)

module _ {ℓ} {A : Type ℓ} (key : A → String) where
  count_of_absent :
      (k : String) (rs : List A) → All (λ s. key s ≢ k) rs → count (λ r. str_eq k (key r)) rs ≡ 0
  count_of_absent k [] h = refl
  count_of_absent k (r ∷ rs) h = ground (arith, eq_iff k (key r), count_of_absent k rs h.1)

  count_of_key :
      (k : String) (rs : List A) → HasDistinctKeys key rs → count (λ r. str_eq k (key r)) rs ≤ 1
  count_of_key k [] h = omega arith
  count_of_key k (r ∷ rs) h = elim (Bool-cases (str_eq k (key r))) [
    | inl e ↦
        let absent = subst (λ x. All (λ s. key s ≢ x) rs) (sym ((eq_iff k (key r)).0 e)) h.0 in
        ground (arith, count_of_absent k rs absent)
    | inr e ↦ rw e (count_of_key k rs h.1)
  ]

  -- No more rows have a key among `ks` than there are keys.
  pub count_of_keys-le :
      (ks : List String) (rs : List A)
      → HasDistinctKeys key rs
      → count (λ r. any (λ i. str_eq i (key r)) ks) rs ≤ length ks
  count_of_keys-le [] rs h = none_counted rs
    where
      none_counted : (ss : List A) → count (λ r. false) ss ≤ 0
      none_counted [] = omega arith
      none_counted (s ∷ ss) = none_counted ss
  count_of_keys-le (k ∷ ks) rs h = omega (
    arith,
    count-or-le (λ r. str_eq k (key r)) (λ r. any (λ i. str_eq i (key r)) ks) rs,
    count_of_key k rs h,
    count_of_keys-le ks rs h,
  )

-- one if the row is there and fits
abbrev pub hit {ℓ} : {A : Type ℓ} → (A → Bool) → Option A → ℕ
hit p none = 0
hit p (some r) = if p r then 1 else 0

module _ {ℓ} {A : Type ℓ} (key : A → String) (p : A → Bool) (k : String)
    (one_key : (r : A) → p r ≡ true → key r ≡ k) where
  count_none : (rs : List A) → All (λ s. key s ≢ k) rs → count p rs ≡ 0
  count_none [] h = refl
  count_none (r ∷ rs) h = elim (Bool-cases (p r)) [
    | inl e ↦ absurd (h.0 (one_key r e))
    | inr e ↦ rw e (count_none rs h.1)
  ]

  -- A condition on one key counts at most the row that the key finds.
  pub count_of_one : (rs : List A) → HasDistinctKeys key rs → count p rs ≡ hit p (find_by key k rs)
  count_of_one [] h = refl
  count_of_one (r ∷ rs) h = elim (Bool-cases (str_eq (key r) k)) [
    | inl e ↦
        let absent = subst (λ x. All (λ s. key s ≢ x) rs) ((eq_iff (key r) k).0 e) h.0 in
        ground (arith, count_none rs absent)
    | inr e ↦ ground (arith, one_key r, eq_iff (key r) k, count_of_one rs h.1)
  ]
