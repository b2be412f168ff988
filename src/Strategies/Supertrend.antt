-- ===== src/Strategies/Supertrend.antt =====
-- src/polara/research_engine/strategies/supertrend.py: the trend flips between the last two bars.
-- `on_bars` does not use the calibration grid, which are left out.
use polara_quant.Base.{
  ℕ, ◌+◌, ◌-◌, Option, none, some, List, [], ◌∷◌, ltb, length, drop, if◌then◌else◌,
}
use polara_quant.Base.Effects.{Result, ok}
use polara_quant.Decimal.{Decimal, zero_d, min_d, max_d}
use polara_quant.Schemas.{Signal, Bar}
use polara_quant.Strategies.{Stamp}
use polara_quant.Strategies.Indicators.{compute_atr}
use polara_quant.Strategies.Signalling.{
  Sleeve, ExitPcts, emit, close_now, buy_strength, sell_strength,
}

pub record Supertrend (D : Type 0) : Type 0 where
  pub sleeve : Sleeve
  pub atr_period : ℕ
  pub multiplier : D
  pub exits : ExitPcts D

-- The upper and the lower band at a bar.
pub record Bands (D : Type 0) : Type 0 where
  pub upper : D
  pub lower : D

-- `(xs[-2], xs[-1])`
abbrev pub last_two : {A : Type 0} → List A → Option (A × A)
last_two [] = none
last_two (x ∷ []) = none
last_two (x ∷ y ∷ []) = some (x, y)
last_two (x ∷ y ∷ z ∷ xs) = last_two (y ∷ z ∷ xs)

pub data Direction : Type 0 where
  up down : Direction

module _ {D : Type 0} ⦃d : Decimal D⦄ where
  abbrev pub bars_needed : Supertrend D → ℕ
  bars_needed c = c.atr_period + 2

  abbrev pub basic_bands : Supertrend D → D → Bar D → Bands D
  basic_bands c atr b =
      let mid = d.div (d.add b.high b.low) (d.lit 2 0) in
      let offset = d.mul c.multiplier atr in
      record { upper = d.add mid offset; lower = d.sub mid offset }

  -- The bands at the last bar only narrow while the close before was inside.
  unfoldable pub ratchet : (prev_close : D) → (prev curr : Bands D) → Bands D
  ratchet prev_close prev curr = record {
    upper = if d.le prev_close prev.upper then min_d curr.upper prev.upper else curr.upper;
    lower = if d.le prev.lower prev_close then max_d curr.lower prev.lower else curr.lower;
  }

  unfoldable pub direction : Bands D → D → Option Direction
  direction b close =
      if d.lt b.upper close then some up else if d.lt close b.lower then some down else none

  -- The signal for the directions at the last two bars, if the first one is determined and the second
  -- one is the other; inside the bands the direction stays.
  unfoldable pub flip : Option Direction → Option Direction → Option D
  flip (some up) (some down) = some sell_strength
  flip (some down) (some up) = some buy_strength
  flip _ _ = none

  abbrev pub flip_between : Supertrend D → (atr : D) → Option (Bar D × Bar D) → Option D
  flip_between c atr none = none
  flip_between c atr (some (prev, curr)) =
      let bands_prev = basic_bands c atr prev in
      flip (direction bands_prev prev.close)
        (direction (ratchet prev.close bands_prev (basic_bands c atr curr)) curr.close)

  abbrev pub strength : Supertrend D → List (Bar D) → Option D
  strength c bars =
      let window = drop (length bars - (c.atr_period + 2)) bars in
      let atr = compute_atr window c.atr_period in
      if d.eq atr zero_d then none else flip_between c atr (last_two window)

  unfoldable pub on_bars : Supertrend D → Stamp → List (Bar D) → Result (Option (Signal D))
  unfolding compute_atr ratchet direction flip emit
  on_bars c stamp bars =
      if ltb (length bars) (bars_needed c)
      then ok none
      else emit c.sleeve stamp (close_now bars) c.exits (strength c bars)
