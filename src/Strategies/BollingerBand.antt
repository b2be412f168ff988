-- ===== src/Strategies/BollingerBand.antt =====
-- src/polara/research_engine/strategies/bollinger_bands.py: the close leaves a band around its average.
-- `on_bars` does not use the quantity and the calibration grid, which are left out.
use polara_quant.Base.{ℕ, ◌+◌, Option, none, List, ltb, length, last_or, if◌then◌else◌}
use polara_quant.Base.Effects.{Result, ok}
use polara_quant.Decimal.{Decimal, zero_d}
use polara_quant.Schemas.{Signal, Bar}
use polara_quant.Strategies.{Stamp}
use polara_quant.Strategies.Indicators.{closes_of, bollinger}
use polara_quant.Strategies.Signalling.{
  Sleeve, ExitPcts, strength_of, atr_stop, emit, max_nat, without_last, second_last, close_now,
  crosses_above, crosses_below,
}

pub record BollingerBand (D : Type 0) : Type 0 where
  pub sleeve : Sleeve
  pub period : ℕ
  pub num_std : D
  pub exits : ExitPcts D
  pub atr_period : ℕ
  pub atr_stop_multiplier : Option D

abbrev pub bars_needed : {D : Type 0} → BollingerBand D → ℕ
bars_needed c = max_nat (c.period + 1) (c.atr_period + 2)

-- `root` is `math.sqrt`.
module _ {D : Type 0} ⦃d : Decimal D⦄ (root : D → D) where
  abbrev pub strength : BollingerBand D → List D → Option D
  strength c closes =
      let (_, upper_now, lower_now) = bollinger root closes c.period c.num_std in
      let (_, upper_prev, lower_prev) = bollinger root (without_last closes) c.period c.num_std in
      let close_prev = second_last zero_d closes in
      let close = last_or zero_d closes in
      strength_of (crosses_below close_prev lower_prev close lower_now)
        (crosses_above close_prev upper_prev close upper_now)

  unfoldable pub on_bars : BollingerBand D → Stamp → List (Bar D) → Result (Option (Signal D))
  unfolding bollinger atr_stop emit
  on_bars c stamp bars =
      let exits = record c.exits {
        stop_loss_pct =
            atr_stop c.atr_stop_multiplier c.exits.stop_loss_pct c.atr_period bars (close_now bars);
      } in
      if ltb (length bars) (bars_needed c)
      then ok none
      else emit c.sleeve stamp (close_now bars) exits (strength c (closes_of bars))
