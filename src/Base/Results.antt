-- ===== src/Base/Results.antt =====
-- Calls that may raise and change no state.
use mathlib.Core.Path.{◌≡◌, refl}
use mathlib.Core.Bool.{Bool, true, false}
use polara_quant.Base.Effects.{Result, ok, err, Error}
use polara_quant.Base.Tests.{if◌then◌else◌}

-- `if test: raise ...`
abbrev pub reject_if : Bool → Error → Result (Unit {0})
reject_if test e = if test then err e else ok tt

module _ {A B : Type 0} where
  infixl 5 ◌>>=◌ ◌>>◌
  abbrev pub ◌>>=◌ : Result A → (A → Result B) → Result B
  ◌>>=◌ (err raised) next = err raised
  ◌>>=◌ (ok value) next = next value

  abbrev pub ◌>>◌ : Result A → Result B → Result B
  ◌>>◌ (err raised) after = err raised
  ◌>>◌ (ok value) after = after

  -- Inversion of a sequence that succeeded.
  pub bind-eq-ok :
      {b : B} (first : Result A) (next : A → Result B)
      → (first >>= next) ≡ ok b
      → (value : A) × (first ≡ ok value) × (next value ≡ ok b)
  bind-eq-ok (err raised) next h = cc
  bind-eq-ok (ok value) next h = (value, refl, h)

-- Inversion of a check that passed.
pub reject_if-eq-ok :
    {B : Type 0} {b : B} (test : Bool) (e : Error) (after : Result B)
    → (reject_if test e >> after) ≡ ok b
    → (test ≡ false) × (after ≡ ok b)
reject_if-eq-ok true e after h = cc
reject_if-eq-ok false e after h = (refl, h)
