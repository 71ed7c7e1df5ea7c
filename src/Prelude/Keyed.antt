-- ===== src/Prelude/Keyed.antt =====
-- Tables whose rows carry a key of their own: reads by the key, and writes that keep it.
use Prim.Native.Nat.{ℕ, zero, suc}
use Prim.Native.String.{String}
use mathlib.Core.Path.{◌≡◌, refl, subst}
use mathlib.Core.Logic.{◌≢◌, inl, inr}
use mathlib.Core.Bool.{Bool, true, false}
use mathlib.Core.Option.{Option, none, some}
use mathlib.Core.List.{List, [], ◌∷◌, ◌++◌, Memᴰ, map}
use native.Mathlib.Omega.{arith}
use text.Mathlib.Text.{◌==◌ as str_eq}
use text.Mathlib.TextEquality.{eq_iff}
use tabela_pubg.Prelude.Tests.{if◌then◌else◌, Bool-cases}
use tabela_pubg.Prelude.Lists.{All, All-Memᴰ, any, take}
use tabela_pubg.Prelude.Table.{find, update, select, returning}

module _ {ℓ} {A : Type ℓ} (key : A → String) where
  -- the row with the key
  abbrev pub find_by : String → List A → Option A
  find_by k = find (λ r. str_eq (key r) k)

  -- `primary key (key)`
  abbrev pub HasDistinctKeys : List A → Type 0
  HasDistinctKeys [] = Unit {0}
  HasDistinctKeys (r ∷ rs) = All (λ s. key s ≢ key r) rs × HasDistinctKeys rs

  -- A write leaves the keys alone.
  abbrev pub KeepsKey : (A → A) → Type ℓ
  KeepsKey f = (r : A) → key (f r) ≡ key r

-- what an update makes of a row
abbrev pub touch {ℓ} : {A : Type ℓ} → (A → Bool) → (A → A) → A → A
touch p f r = if p r then f r else r

abbrev pub touch? {ℓ} : {A : Type ℓ} → (A → Bool) → (A → A) → Option A → Option A
touch? p f none = none
touch? p f (some r) = some (touch p f r)

module _ {ℓ} {A : Type ℓ} (key : A → String) (p : A → Bool) (f : A → A)
    (keeps : KeepsKey key f) where
  -- Reading by the key after an update gives the row as the update leaves it.
  pub find_by-update :
      (k : String) (rs : List A) → find_by key k (update p f rs) ≡ touch? p f (find_by key k rs)
  find_by-update k [] = refl
  find_by-update k (r ∷ rs) = ground (arith, keeps r, find_by-update k rs)

  All-update :
      (k : String) (rs : List A) → All (λ s. key s ≢ k) rs → All (λ s. key s ≢ k) (update p f rs)
  All-update k [] h = tt
  All-update k (r ∷ rs) h = ground (arith, keeps r, All-update k rs h.1)

  pub HasDistinctKeys-update :
      (rs : List A) → HasDistinctKeys key rs → HasDistinctKeys key (update p f rs)
  HasDistinctKeys-update [] h = tt
  HasDistinctKeys-update (r ∷ rs) h = (
    subst (λ k. All (λ s. key s ≢ k) (update p f rs)) (key-touch r) (All-update (key r) rs h.0),
    HasDistinctKeys-update rs h.1,
  )
    where
      key-touch : (s : A) → key s ≡ key (touch p f s)
      key-touch s = ground (arith, keeps s)

module _ {ℓ} {A : Type ℓ} (key : A → String) where
  -- With distinct keys, a row is what its key finds.
  pub find_by-Memᴰ :
      (r : A) (rs : List A) → HasDistinctKeys key rs → Memᴰ r rs → find_by key (key r) rs ≡ some r
  find_by-Memᴰ r [] h m = elim m [ ]
  find_by-Memᴰ r (s ∷ rs) h (Memᴰ.head e) = ground (arith, eq_iff (key s) (key r))
  find_by-Memᴰ r (s ∷ rs) h (Memᴰ.tail m) =
      ground (
        arith,
        eq_iff (key s) (key r),
        All-Memᴰ (λ t. key t ≢ key s) m h.0,
        find_by-Memᴰ r rs h.1 m,
      )

  pub key_of_find_by : (k : String) (rs : List A) (r : A) → find_by key k rs ≡ some r → key r ≡ k
  key_of_find_by k [] r h = absurd (cc)
  key_of_find_by k (s ∷ rs) r h = ground (arith, eq_iff (key s) k, key_of_find_by k rs r)

module _ {ℓ} {A : Type ℓ} where
  pub Memᴰ-find : (p : A → Bool) (rs : List A) (r : A) → find p rs ≡ some r → Memᴰ r rs
  Memᴰ-find p [] r h = absurd (cc)
  Memᴰ-find p (s ∷ rs) r h = elim (Bool-cases (p s)) [
    | inl e ↦ Memᴰ.head (ground arith)
    | inr e ↦ Memᴰ.tail (Memᴰ-find p rs r (ground arith))
  ]

  pub find-true : (p : A → Bool) (rs : List A) (r : A) → find p rs ≡ some r → p r ≡ true
  find-true p [] r h = absurd (cc)
  find-true p (s ∷ rs) r h = ground (arith, find-true p rs r)

-- What every row keeps under an update holds of the table after it.
pub All-update_of {ℓ κ} :
    {A : Type ℓ} (P : A → Type κ) (p : A → Bool) (f : A → A) (rs : List A)
    → ((r : A) → p r ≡ true → P r → P (f r))
    → All P rs
    → All P (update p f rs)
All-update_of P p f [] keep h = tt
All-update_of P p f (r ∷ rs) keep h = (
  elim (Bool-cases (p r)) [
    | inl e ↦ subst P (kept true e) (keep r e h.0)
    | inr e ↦ subst P (kept false e) h.0
  ],
  All-update_of P p f rs keep h.1,
)
  where
    kept : (b : Bool) → p r ≡ b → (if b then f r else r) ≡ touch p f r
    kept b e = rw e

pub All-append_of {ℓ κ} :
    {A : Type ℓ} (P : A → Type κ) (rs ss : List A) → All P rs → All P ss → All P (rs ++ ss)
All-append_of P [] ss h k = k
All-append_of P (r ∷ rs) ss h k = (h.0, All-append_of P rs ss h.1 k)

module _ {ℓ} {A : Type ℓ} (key : A → String) where
  pub find_by-append :
      (k : String) (rs ss : List A)
      → find_by key k rs ≢ none
      → find_by key k (rs ++ ss) ≡ find_by key k rs
  find_by-append k [] ss h = absurd (h refl)
  find_by-append k (r ∷ rs) ss h = ground (arith, find_by-append k rs ss)

  All-ne-append :
      (k : String) (rs : List A) (s : A)
      → All (λ t. key t ≢ k) rs
      → key s ≢ k
      → All (λ t. key t ≢ k) (rs ++ s ∷ [])
  All-ne-append k rs s h e = All-append_of (λ t. key t ≢ k) rs (s ∷ []) h (e, tt)

  -- An insert whose key is new keeps the keys distinct.
  pub HasDistinctKeys-append :
      (rs : List A) (s : A)
      → HasDistinctKeys key rs
      → any (λ r. str_eq (key r) (key s)) rs ≡ false
      → HasDistinctKeys key (rs ++ s ∷ [])
  HasDistinctKeys-append [] s h e = (tt, tt)
  HasDistinctKeys-append (r ∷ rs) s h e = (
    All-ne-append (key r) rs s h.0 (λ same. ground (arith, eq_iff (key r) (key s))),
    HasDistinctKeys-append rs s h.1 (ground arith),
  )

module _ {ℓ} {A : Type ℓ} where
  pub All-of_Memᴰ {κ} : (P : A → Type κ) (rs : List A) → ((r : A) → Memᴰ r rs → P r) → All P rs
  All-of_Memᴰ P [] h = tt
  All-of_Memᴰ P (r ∷ rs) h = (h r (Memᴰ.head refl), All-of_Memᴰ P rs (λ s m. h s (Memᴰ.tail m)))

  -- Two conditions that agree on the rows make the same update.
  pub update-congr :
      (p q : A → Bool) (f : A → A) (rs : List A)
      → All (λ r. p r ≡ q r) rs
      → update p f rs ≡ update q f rs
  update-congr p q f [] h = refl
  update-congr p q f (r ∷ rs) h = ground (arith, update-congr p q f rs h.1)

  pub returning-congr :
      (p q : A → Bool) (f : A → A) (rs : List A)
      → All (λ r. p r ≡ q r) rs
      → returning p f rs ≡ returning q f rs
  returning-congr p q f [] h = refl
  returning-congr p q f (r ∷ rs) h = ground (arith, returning-congr p q f rs h.1)

  pub Memᴰ-select :
      (p : A → Bool) (rs : List A) (r : A) → Memᴰ r (select p rs) → (p r ≡ true) × Memᴰ r rs
  Memᴰ-select p [] r m = elim m [ ]
  Memᴰ-select p (s ∷ rs) r m = split (Memᴰ-select p rs r) (p s) refl m
    where
      split :
          (Memᴰ r (select p rs) → (p r ≡ true) × Memᴰ r rs)
          → (b : Bool) → p s ≡ b
          → Memᴰ r (if b then s ∷ select p rs else select p rs)
          → (p r ≡ true) × Memᴰ r (s ∷ rs)
      split ih true e (Memᴰ.head same) = (rw same e, Memᴰ.head same)
      split ih true e (Memᴰ.tail t) = let (holds, m') = ih t in (holds, Memᴰ.tail m')
      split ih false e t = let (holds, m') = ih t in (holds, Memᴰ.tail m')

  pub Memᴰ-take : (n : ℕ) (rs : List A) (r : A) → Memᴰ r (take n rs) → Memᴰ r rs
  Memᴰ-take zero rs r m = elim m [ ]
  Memᴰ-take (suc n) [] r m = elim m [ ]
  Memᴰ-take (suc n) (s ∷ rs) r (Memᴰ.head e) = Memᴰ.head e
  Memᴰ-take (suc n) (s ∷ rs) r (Memᴰ.tail m) = Memᴰ.tail (Memᴰ-take n rs r m)

  -- A key among those of some rows is the key of one of them.
  pub Memᴰ_of_key :
      (key : A → String) (k : String) (rs : List A)
      → any (λ i. str_eq i k) (map key rs) ≡ true
      → (r : A) × Memᴰ r rs × (key r ≡ k)
  Memᴰ_of_key key k [] h = absurd (cc)
  Memᴰ_of_key key k (r ∷ rs) h = elim (Bool-cases (str_eq (key r) k)) [
    | inl e ↦ (r, Memᴰ.head refl, (eq_iff (key r) k).0 e)
    | inr e ↦ let (s, m, same) = Memᴰ_of_key key k rs (ground arith) in (s, Memᴰ.tail m, same)
  ]

  pub eq_of_key :
      (key : A → String) (r s : A) (rs : List A)
      → HasDistinctKeys key rs
      → Memᴰ r rs
      → Memᴰ s rs
      → key r ≡ key s
      → r ≡ s
  eq_of_key key r s rs h mr ms e =
      ground (arith, find_by-Memᴰ key r rs h mr, find_by-Memᴰ key s rs h ms)
