-- ===== src/Strategies/Emitting.antt =====
-- The end of `on_bars` answers with nothing or with the strategy's own signal, and raises nothing.
use polara_quant.Base.{
  ℕ, ◌≤◌, List, ltb, length, if◌then◌else◌, Bool-cases, ◌≡◌, inl, inr, refl, Option, none, some,
  Bool, true, false, arith,
}
use polara_quant.Base.Effects.{ok}
use polara_quant.Decimal.{Decimal, IsDecimal, minus_one-le-one}
use polara_quant.Schemas.{strength_in_range, Bar}
use polara_quant.Strategies.{Stamp}
use polara_quant.Strategies.Signalling.{
  Sleeve, ExitPcts, buy_strength, sell_strength, strength_of, emit, Answers, silent, signals,
}

module _ {D : Type 0} ⦃d : Decimal D⦄ where
  -- No strength, or a full one.
  pub data IsUnit : Option D → Type 0 where
    idle : IsUnit none
    buys : IsUnit (some buy_strength)
    sells : IsUnit (some sell_strength)

  pub strength_of-IsUnit : (up down : Bool) → IsUnit (strength_of up down)
  strength_of-IsUnit true down = buys
  strength_of-IsUnit false true = sells
  strength_of-IsUnit false false = idle

  pub unless-IsUnit : (test : Bool) (o : Option D) → IsUnit o → IsUnit (if test then none else o)
  unless-IsUnit true o u = idle
  unless-IsUnit false o u = u

module _ {D : Type 0} ⦃d : Decimal D⦄ (laws : IsDecimal D) where
  -- Both strengths pass the validator.
  pub buy-in_range : strength_in_range {D = D} buy_strength ≡ true
  buy-in_range = ground (
    arith,
    laws.lt-eq-not-le (d.lit 1 0) (d.neg (d.lit 1 0)),
    laws.lt-eq-not-le (d.lit 1 0) (d.lit 1 0),
    laws.le_refl (d.lit 1 0),
    minus_one-le-one laws,
  )

  pub sell-in_range : strength_in_range {D = D} sell_strength ≡ true
  sell-in_range = ground (
    arith,
    laws.lt-eq-not-le (d.neg (d.lit 1 0)) (d.neg (d.lit 1 0)),
    laws.lt-eq-not-le (d.lit 1 0) (d.neg (d.lit 1 0)),
    laws.le_refl (d.neg (d.lit 1 0)),
    minus_one-le-one laws,
  )

  module _ (sleeve : Sleeve) (stamp : Stamp) (price : D) (exits : ExitPcts D) (needed : ℕ)
      (bars : List (Bar D)) where
    emit-Answers :
        needed ≤ length bars
        → (o : Option D) → IsUnit o
        → Answers sleeve stamp price needed (length bars) (emit sleeve stamp price exits o)
    unfolding emit
    emit-Answers h _ idle = silent
    emit-Answers h _ buys = rw buy-in_range (signals _ h (refl, refl, refl, refl, refl, inl refl))
    emit-Answers h _ sells = rw sell-in_range (signals _ h (refl, refl, refl, refl, refl, inr refl))

    -- `if len(bars) < self.bars_needed: return None`
    pub guarded-Answers :
        (o : Option D)
        → IsUnit o
        → Answers sleeve stamp price needed
            (length bars)
            (if ltb (length bars) needed then ok none else emit sleeve stamp price exits o)
    guarded-Answers o u = elim (Bool-cases (ltb (length bars) needed)) [
      | inl short ↦ rw short silent
      | inr enough ↦ rw enough (emit-Answers (ground arith) o u)
    ]
