-- ===== src/Prelude/Table.antt =====
-- Tables as lists of rows: `select`, `update … set … where` and `returning`.
-- `limit 1` takes the first row that fits; the queries that use it name a unique key.
use Prim.Native.Nat.{ℕ}
use mathlib.Core.Path.{◌≡◌, refl}
use mathlib.Core.Logic.{◌↔◌}
use mathlib.Core.Bool.{Bool, false}
use native.Mathlib.Omega.{arith}
use mathlib.Core.Option.{Option, none, some}
use mathlib.Core.List.{List, [], ◌∷◌}
use tabela_pubg.Prelude.Tests.{if◌then◌else◌}
use tabela_pubg.Prelude.Lists.{length, any}

module _ {ℓ} {A : Type ℓ} where
  -- `select … where p`
  abbrev pub select : (A → Bool) → List A → List A
  select p [] = []
  select p (r ∷ rs) = if p r then r ∷ select p rs else select p rs

  -- `select … where p limit 1`
  abbrev pub find : (A → Bool) → List A → Option A
  find p [] = none
  find p (r ∷ rs) = if p r then some r else find p rs

  -- `update … set f where p`
  abbrev pub update : (A → Bool) → (A → A) → List A → List A
  update p f [] = []
  update p f (r ∷ rs) = (if p r then f r else r) ∷ update p f rs

  -- the rows that the same statement returns
  abbrev pub returning : (A → Bool) → (A → A) → List A → List A
  returning p f [] = []
  returning p f (r ∷ rs) = if p r then f r ∷ returning p f rs else returning p f rs

  -- `select count(*) … where p`
  abbrev pub count : (A → Bool) → List A → ℕ
  count p rs = length (select p rs)

  pub any-eq_false_iff : (p : A → Bool) (rs : List A) → (any p rs ≡ false) ↔ (count p rs ≡ 0)
  any-eq_false_iff p [] = (λ _. refl, λ _. refl)
  any-eq_false_iff p (r ∷ rs) =
      let ih = any-eq_false_iff p rs in (λ h. ground (arith, ih.0), λ h. ground (arith, ih.1))
