-- ===== src/Strategies/MaCrossover.antt =====
-- src/polara/research_engine/strategies/ma_crossover.py: a fast average crosses a slow one.
-- `on_bars` does not use the quantity and the calibration grid, which are left out.
use polara_quant.Base.{ℕ, ◌+◌, Option, none, List, ltb, length, if◌then◌else◌}
use polara_quant.Base.Effects.{Result, ok}
use polara_quant.Decimal.{Decimal}
use polara_quant.Schemas.{Signal, Bar}
use polara_quant.Strategies.{Stamp}
use polara_quant.Strategies.Indicators.{closes_of, sma}
use polara_quant.Strategies.Signalling.{
  Sleeve, ExitPcts, strength_of, emit, close_now, crosses_above, crosses_below,
}

pub record MaCrossover (D : Type 0) : Type 0 where
  pub sleeve : Sleeve
  pub fast_period : ℕ
  pub slow_period : ℕ
  pub exits : ExitPcts D

module _ {D : Type 0} ⦃d : Decimal D⦄ where
  abbrev pub bars_needed : MaCrossover D → ℕ
  bars_needed c = c.slow_period + 1

  abbrev pub strength : MaCrossover D → List D → Option D
  strength c closes =
      let fast_now = sma closes c.fast_period 0 in
      let slow_now = sma closes c.slow_period 0 in
      let fast_prev = sma closes c.fast_period 1 in
      let slow_prev = sma closes c.slow_period 1 in
      strength_of (crosses_above fast_prev slow_prev fast_now slow_now)
        (crosses_below fast_prev slow_prev fast_now slow_now)

  unfoldable pub on_bars : MaCrossover D → Stamp → List (Bar D) → Result (Option (Signal D))
  unfolding sma emit
  on_bars c stamp bars =
      if ltb (length bars) (bars_needed c)
      then ok none
      else emit c.sleeve stamp (close_now bars) c.exits (strength c (closes_of bars))
