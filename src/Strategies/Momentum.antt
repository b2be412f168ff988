-- ===== src/Strategies/Momentum.antt =====
-- src/polara/research_engine/strategies/momentum.py: the rate of change crosses a threshold.
-- `on_bars` does not use the quantity and the calibration grid, which are left out.
use polara_quant.Base.{ℕ, ◌+◌, Option, none, List, ltb, length, if◌then◌else◌}
use polara_quant.Base.Effects.{Result, ok}
use polara_quant.Decimal.{Decimal}
use polara_quant.Schemas.{Signal, Bar}
use polara_quant.Strategies.{Stamp}
use polara_quant.Strategies.Indicators.{closes_of, roc}
use polara_quant.Strategies.Signalling.{
  Sleeve, ExitPcts, strength_of, atr_stop, emit, max_nat, close_now, crosses_above, crosses_below,
}

pub record Momentum (D : Type 0) : Type 0 where
  pub sleeve : Sleeve
  pub period : ℕ
  pub threshold : D
  pub exits : ExitPcts D
  pub atr_period : ℕ
  pub atr_stop_multiplier : Option D

module _ {D : Type 0} ⦃d : Decimal D⦄ where
  abbrev pub bars_needed : Momentum D → ℕ
  bars_needed c = max_nat (c.period + 2) (c.atr_period + 2)

  abbrev pub strength : Momentum D → List D → Option D
  strength c closes =
      let now = roc closes c.period 0 in
      let prev = roc closes c.period 1 in
      strength_of (crosses_above prev c.threshold now c.threshold)
        (crosses_below prev (d.neg c.threshold) now (d.neg c.threshold))

  unfoldable pub on_bars : Momentum D → Stamp → List (Bar D) → Result (Option (Signal D))
  unfolding roc atr_stop emit
  on_bars c stamp bars =
      let exits = record c.exits {
        stop_loss_pct =
            atr_stop c.atr_stop_multiplier c.exits.stop_loss_pct c.atr_period bars (close_now bars);
      } in
      if ltb (length bars) (bars_needed c)
      then ok none
      else emit c.sleeve stamp (close_now bars) exits (strength c (closes_of bars))
