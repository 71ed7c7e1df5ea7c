-- ===== src/Prelude/Results.antt =====
-- Operations that may throw: the value they return, or the message of the error.
use Prim.Native.String.{String}
use mathlib.Core.Bool.{Bool, true, false}
use mathlib.Core.Path.{◌≡◌, refl}

pub data Result {κ} (A : Type κ) : Type κ where
  err : (message : String) → Result A
  ok : (value : A) → Result A

-- An error ends the chain.
infixl 5 ◌>>=◌ ◌>>◌
abbrev pub ◌>>=◌ {κ ι} : {A : Type κ} {B : Type ι} → Result A → (A → Result B) → Result B
err message >>= next = err message
ok value >>= next = next value

-- A statement that is run for its checks only.
abbrev pub ◌>>◌ {ι} : {B : Type ι} → Result (Unit {0}) → Result B → Result B
err message >> rest = err message
ok checked >> rest = rest

-- `if (!test) throw new Error(message)`
abbrev pub require : Bool → String → Result (Unit {0})
require test message = elim test [ true ↦ ok tt | false ↦ err message ]

-- A chain that returns has passed its first step.
pub bound :
    {A B : Type 0} (step : Result A) (rest : A → Result B) (b : B)
    → step >>= rest ≡ ok b
    → (a : A) × (step ≡ ok a) × (rest a ≡ ok b)
bound (err message) rest b e = absurd (cc)
bound (ok a) rest b e = (a, refl, e)

pub required :
    {B : Type 0} (test : Bool) (message : String) (rest : Result B) (b : B)
    → require test message >> rest ≡ ok b
    → (test ≡ true) × (rest ≡ ok b)
required true message rest b e = (refl, e)
required false message rest b e = absurd (cc)

pub passed :
    {B : Type 0} (check : Result (Unit {0})) (rest : Result B) (b : B)
    → check >> rest ≡ ok b
    → (check ≡ ok tt) × (rest ≡ ok b)
passed (err message) rest b e = absurd (cc)
passed (ok checked) rest b e = (refl, e)
