-- ===== src/Prelude/Counts.antt =====
-- What an update of one row does to counts and selections of others.
use Prim.Native.Nat.{◌+◌, ◌≤◌}
use Prim.Native.String.{String}
use mathlib.Core.Path.{◌≡◌, refl, ap, subst}
use mathlib.Core.Logic.{◌≢◌, inl, inr}
use mathlib.Core.Bool.{Bool, true, false}
use mathlib.Core.Option.{some}
use mathlib.Core.List.{List, [], ◌∷◌, ◌++◌, Memᴰ}
use native.Mathlib.Omega.{arith}
use tabela_pubg.Prelude.Tests.{Bool-cases}
use tabela_pubg.Prelude.Lists.{All, any}
use tabela_pubg.Prelude.Table.{select, update, count, find}
use tabela_pubg.Prelude.Keyed.{HasDistinctKeys, Memᴰ-find, find-true}

module _ {ℓ} {A : Type ℓ} (q : A → Bool) (f : A → A) where
  -- Rows that the update does not count among those selected, before or after, leave the selection.
  pub select-update :
      (p : A → Bool) (rs : List A)
      → ((r : A) → q r ≡ true → p r ≡ false)
      → ((r : A) → q r ≡ true → p (f r) ≡ false)
      → select p (update q f rs) ≡ select p rs
  select-update p [] before after = refl
  select-update p (r ∷ rs) before after = elim (Bool-cases (q r)) [
    | inl e ↦ rw (e, before r e, after r e) (select-update p rs before after)
    | inr e ↦ rw (e, select-update p rs before after) refl
  ]

  -- An update of rows that do not fit loses none that fits.
  pub count-update-le :
      (p : A → Bool) (rs : List A)
      → ((r : A) → Memᴰ r rs → q r ≡ true → p r ≡ false)
      → count p rs ≤ count p (update q f rs)
  count-update-le p [] h = omega arith
  count-update-le p (r ∷ rs) h = elim (Bool-cases (q r)) [
    | inl e ↦
        ground (arith, h r (Memᴰ.head refl) e, count-update-le p rs (λ s m. h s (Memᴰ.tail m)))
    | inr e ↦ ground (arith, count-update-le p rs (λ s m. h s (Memᴰ.tail m)))
  ]

module _ {ℓ} {A : Type ℓ} (key : A → String) (q : A → Bool) (f : A → A) (k : String)
    (one_key : (r : A) → q r ≡ true → key r ≡ k) where
  pub update_absent : (rs : List A) → All (λ s. key s ≢ k) rs → update q f rs ≡ rs
  update_absent [] h = refl
  update_absent (r ∷ rs) h = elim (Bool-cases (q r)) [
    | inl e ↦ absurd (h.0 (one_key r e))
    | inr e ↦ rw (e, update_absent rs h.1) refl
  ]

  -- An update of one key loses at most one row.
  pub count-update-drop :
      (p : A → Bool) (rs : List A)
      → HasDistinctKeys key rs
      → count p rs ≤ count p (update q f rs) + 1
  count-update-drop p [] h = omega arith
  count-update-drop p (r ∷ rs) h = elim (Bool-cases (q r)) [
    | inl e ↦
        let others = subst (λ x. All (λ s. key s ≢ x) rs) (one_key r e) h.0 in
        rw (e, update_absent rs others) (ground arith)
    | inr e ↦ ground (arith, count-update-drop p rs h.1)
  ]

pub count-pos {ℓ} :
    {A : Type ℓ} (p : A → Bool) (rs : List A) (r : A) → Memᴰ r rs → p r ≡ true → 1 ≤ count p rs
count-pos p [] r m e = elim m [ ]
count-pos p (s ∷ rs) r (Memᴰ.head same) e = ground arith
count-pos p (s ∷ rs) r (Memᴰ.tail m) e = ground (arith, count-pos p rs r m e)

module _ {ℓ} {A : Type ℓ} where
  -- An update that makes no row fit adds none that fits.
  pub count-update-ge :
      (p q : A → Bool) (f : A → A) (rs : List A)
      → ((r : A) → p (f r) ≡ true → p r ≡ true)
      → count p (update q f rs) ≤ count p rs
  count-update-ge p q f [] h = omega arith
  count-update-ge p q f (r ∷ rs) h = elim (Bool-cases (q r)) [
    | inl e ↦ rw e (elim (Bool-cases (p (f r))) [
      | inl k ↦ rw (k, h r k) (ground (arith, count-update-ge p q f rs h))
      | inr k ↦ rw k (ground (arith, count-update-ge p q f rs h))
    ])
    | inr e ↦ ground (arith, count-update-ge p q f rs h)
  ]

  pub any-false :
      (p q : A → Bool) (rs : List A)
      → ((r : A) → p r ≡ true → q r ≡ true)
      → any q rs ≡ false
      → any p rs ≡ false
  any-false p q [] h e = refl
  any-false p q (r ∷ rs) h e = elim (Bool-cases (p r)) [
    | inl k ↦ absurd (ground (arith, h r k))
    | inr k ↦ rw k (any-false p q rs h (ground arith))
  ]

  pub count-append-le :
      (p : A → Bool) (rs : List A) (s : A) → count p (rs ++ s ∷ []) ≤ count p rs + 1
  count-append-le p [] s = ground arith
  count-append-le p (r ∷ rs) s = ground (arith, count-append-le p rs s)

  pub count-append :
      (p : A → Bool) (rs : List A) (s : A) → p s ≡ false → count p (rs ++ s ∷ []) ≡ count p rs
  count-append p [] s e = rw e refl
  count-append p (r ∷ rs) s e = ground (arith, count-append p rs s e)

-- A test that some row passes.
pub Memᴰ-any {ℓ} :
    {A : Type ℓ} (p : A → Bool) (rows : List A)
    → any p rows ≡ true
    → (r : A) × Memᴰ r rows × (p r ≡ true)
Memᴰ-any p [] e = absurd (cc)
Memᴰ-any p (r ∷ rows) e = elim (Bool-cases (p r)) [
  | inl y ↦ (r, Memᴰ.head refl, y)
  | inr n ↦ let (s, m, k) = Memᴰ-any p rows (ground arith) in (s, Memᴰ.tail m, k)
]

pub any-false_at {ℓ} :
    {A : Type ℓ} (p : A → Bool) (rows : List A) (r : A)
    → Memᴰ r rows
    → any p rows ≡ false
    → p r ≡ false
any-false_at p [] r m e = elim m [ ]
any-false_at p (s ∷ rows) r (Memᴰ.head same) e = rw same (ground arith)
any-false_at p (s ∷ rows) r (Memᴰ.tail m) e = any-false_at p rows r m (ground arith)

pub any-append_one {ℓ} :
    {A : Type ℓ} (p : A → Bool) (rows : List A) (r : A) → p r ≡ true → any p (rows ++ r ∷ []) ≡ true
any-append_one p [] r e = ground (arith, e)
any-append_one p (s ∷ rows) r e = ground (arith, any-append_one p rows r e)

pub any-append {ℓ} :
    {A : Type ℓ} (p : A → Bool) (rows more : List A)
    → any p rows ≡ true
    → any p (rows ++ more) ≡ true
any-append p [] more e = absurd (cc)
any-append p (s ∷ rows) more e = ground (arith, any-append p rows more)

pub find-append_one {ℓ} :
    {A : Type ℓ} (p : A → Bool) (rows : List A) (r : A)
    → any p rows ≡ false
    → p r ≡ true
    → find p (rows ++ r ∷ []) ≡ some r
find-append_one p [] r e h = ground (arith, h)
find-append_one p (s ∷ rows) r e h = ground (arith, find-append_one p rows r)

-- At most one row is among `q`, where both tests look: the row that one of them finds is the row that
-- the other one finds, when it passes it.
pub find-append_unique {ℓ} :
    {A : Type ℓ} (p p' q : A → Bool) (rows more : List A) (r : A)
    → ((s : A) → p s ≡ true → q s ≡ true)
    → ((s : A) → p' s ≡ true → q s ≡ true)
    → count q rows ≤ 1
    → find p rows ≡ some r
    → p' r ≡ true
    → find p' (rows ++ more) ≡ some r
find-append_unique p p' q [] more r a b c f h = absurd (cc)
find-append_unique p p' q (s ∷ rows) more r a b c f h = elim (Bool-cases (p s)) [
  | inl y ↦
      let same : s ≡ r = cc (rw y at f) in
      let passed : p' s ≡ true = rw same h in rw passed (ap some same)
  | inr n ↦
      let found : find p rows ≡ some r = rw n at f in
      let counted =
        count-pos q rows r (Memᴰ-find p rows r found) (a r (find-true p rows r found)) in
      let least : count q rows ≤ 1 = ground (arith, c) in
      elim (Bool-cases (p' s)) [
        | inl z ↦ absurd (ground (arith, b s z, counted, c))
        | inr z ↦ rw z (find-append_unique p p' q rows more r a b least found h)
      ]
]
