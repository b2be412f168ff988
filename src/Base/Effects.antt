-- ===== src/Base/Effects.antt =====
-- A call that mutates a state and may raise. What was written stays written after a raise.
use mathlib.Core.Path.{◌≡◌, refl}
use polara_quant.Base.Tests.{if◌then◌else◌}
use mathlib.Core.Logic.{◌⊎◌, inl, inr}
use mathlib.Core.Bool.{Bool}

-- The exceptions that the modelled code raises itself, and `gateway` and `database` for those of the
-- calls that it makes.
pub data Error : Type 0 where
  risk_violation broker_disconnected value_error key_error promotion gateway database arithmetic
        index_error assertion cp_auth :
      Error

pub data Result (A : Type 0) : Type 0 where
  ok : A → Result A
  err : Error → Result A

abbrev pub Action : Type 0 → Type 0 → Type 0
Action S A = S → Result A × S

module _ {S A : Type 0} where
  abbrev pub pure : A → Action S A
  pure a s = (ok a, s)

  abbrev pub raise : Error → Action S A
  raise e s = (err e, s)

  abbrev pub gets : (S → A) → Action S A
  gets f s = (ok (f s), s)

  -- The answer of a call that leaves the state alone.
  abbrev pub lift : Result A → Action S A
  lift r s = (r, s)

abbrev pub modify : {S : Type 0} → (S → S) → Action S (Unit {0})
modify f s = (ok tt, f s)

abbrev pub raise_if : {S : Type 0} → Bool → Error → Action S (Unit {0})
raise_if c e s = (if c then err e else ok tt, s)

module _ {S A B : Type 0} where
  abbrev pub and_then : Result A → (A → Action S B) → Action S B
  and_then (ok a) f s = f a s
  and_then (err e) f s = (err e, s)

  infixl 5 ◌>>=◌ ◌>>◌
  abbrev pub ◌>>=◌ : Action S A → (A → Action S B) → Action S B
  ◌>>=◌ m f s = let (r, t) = m s in and_then r f t

  abbrev pub ◌>>◌ : Action S A → Action S B → Action S B
  ◌>>◌ m k s = let (r, t) = m s in and_then r (λ _. k) t

  -- Inversion of a sequence that succeeded.
  pub >>-eq-ok :
      (m : Action S A) (k : Action S B) (s : S) (b : B) (u : S)
      → ◌>>◌ m k s ≡ (ok b, u)
      → (a : A) × (t : S) × (m s ≡ (ok a, t)) × (k t ≡ (ok b, u))
  >>-eq-ok m k s b u e = go (m s) refl e
    where
      go :
          (r : Result A × S)
          → m s ≡ r
          → and_then r.0 (λ _. k) r.1 ≡ (ok b, u)
          → (a : A) × (t : S) × (m s ≡ (ok a, t)) × (k t ≡ (ok b, u))
      go (ok a, t) q h = (a, t, q, h)
      go (err x, t) q h = cc

pub Result-cases :
    {A : Type 0} (r : Result A) → ((e : Error) × (r ≡ err e)) ⊎ ((a : A) × (r ≡ ok a))
Result-cases (ok a) = inr (a, refl)
Result-cases (err e) = inl (e, refl)

-- A call on a part of the state.
abbrev pub zoom : {S T A : Type 0} → (S → T) → (T → S → S) → Action T A → Action S A
zoom get put act s = let (r, t) = act (get s) in (r, put t s)
