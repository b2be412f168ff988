-- ===== src/Strategies/RsiMeanReversion.antt =====
-- src/polara/research_engine/strategies/rsi_mean_reversion.py: the relative strength comes back from an extreme.
-- `on_bars` does not use the quantity and the calibration grid, which are left out.
use polara_quant.Base.{ℕ, ◌+◌, ◌&&◌, Option, none, List, ltb, length, if◌then◌else◌}
use polara_quant.Base.Effects.{Result, ok}
use polara_quant.Decimal.{Decimal}
use polara_quant.Schemas.{Signal, Bar}
use polara_quant.Strategies.{Stamp}
use polara_quant.Strategies.Indicators.{compute_rsi}
use polara_quant.Strategies.Signalling.{
  Sleeve, ExitPcts, strength_of, emit, without_last, close_now,
}

pub record RsiMeanReversion (D : Type 0) : Type 0 where
  pub sleeve : Sleeve
  pub period : ℕ
  pub oversold : D
  pub overbought : D
  pub exits : ExitPcts D

module _ {D : Type 0} ⦃d : Decimal D⦄ where
  abbrev pub bars_needed : RsiMeanReversion D → ℕ
  bars_needed c = c.period + 2

  abbrev pub strength : RsiMeanReversion D → List (Bar D) → Option D
  strength c bars =
      let now = compute_rsi bars c.period in
      let prev = compute_rsi (without_last bars) c.period in
      strength_of (d.lt prev c.oversold && d.le c.oversold now)
        (d.lt c.overbought prev && d.le now c.overbought)

  unfoldable pub on_bars : RsiMeanReversion D → Stamp → List (Bar D) → Result (Option (Signal D))
  unfolding compute_rsi emit
  on_bars c stamp bars =
      if ltb (length bars) (bars_needed c)
      then ok none
      else emit c.sleeve stamp (close_now bars) c.exits (strength c bars)
