-- ===== src/Strategies/Macd.antt =====
-- src/polara/research_engine/strategies/macd.py: the difference of two averages crosses its own average.
-- `on_bars` does not use the quantity and the calibration grid, which are left out.
use polara_quant.Base.{
  ℕ, ◌+◌, ◌-◌, ◌||◌, Option, none, List, [], ◌∷◌, ltb, length, drop, last_or, if◌then◌else◌,
}
use polara_quant.Base.Effects.{Result, ok}
use polara_quant.Decimal.{Decimal, zero_d}
use polara_quant.Schemas.{Signal, Bar}
use polara_quant.Strategies.{Stamp}
use polara_quant.Strategies.Indicators.{closes_of, compute_ema}
use polara_quant.Strategies.Signalling.{
  Sleeve, ExitPcts, strength_of, emit, second_last, close_now, crosses_above, crosses_below,
}

pub record Macd (D : Type 0) : Type 0 where
  pub sleeve : Sleeve
  pub fast_period : ℕ
  pub slow_period : ℕ
  pub signal_period : ℕ
  pub exits : ExitPcts D

module _ {D : Type 0} ⦃d : Decimal D⦄ where
  abbrev pub bars_needed : Macd D → ℕ
  bars_needed c = c.slow_period + c.signal_period + 1

  -- `[fast[i + offset] - slow[i] for i in range(len(slow))]`
  abbrev pub differences : List D → List D → List D
  differences (f ∷ fast) (s ∷ slow) = d.sub f s ∷ differences fast slow
  differences _ _ = []

  unfoldable pub macd_line : List D → List D → List D
  macd_line fast slow = differences (drop (length fast - length slow) fast) slow

  -- What the last two points of the line and of its average say.
  abbrev pub crossing : List D → List D → Option D
  crossing line signal_line =
      let macd_now = last_or zero_d line in
      let macd_prev = second_last zero_d line in
      let sig_now = last_or zero_d signal_line in
      let sig_prev = second_last zero_d signal_line in
      strength_of (crosses_above macd_prev sig_prev macd_now sig_now)
        (crosses_below macd_prev sig_prev macd_now sig_now)

  -- `none` where one of the series is too short.
  abbrev pub strength : Macd D → List D → Option D
  strength c closes =
      let fast = compute_ema closes c.fast_period in
      let slow = compute_ema closes c.slow_period in
      let line = macd_line fast slow in
      let signal_line = compute_ema line c.signal_period in
      if ltb (length fast) 1 || ltb (length slow) 1
      then none
      else if ltb (length signal_line) 2
      then none
      else crossing line signal_line

  unfoldable pub on_bars : Macd D → Stamp → List (Bar D) → Result (Option (Signal D))
  unfolding compute_ema macd_line emit
  on_bars c stamp bars =
      if ltb (length bars) (bars_needed c)
      then ok none
      else emit c.sleeve stamp (close_now bars) c.exits (strength c (closes_of bars))
