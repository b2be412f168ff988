-- ===== src/Strategies/EmaBounce.antt =====
-- src/polara/research_engine/strategies/ema_bounce.py: the close comes back to a slow average and turns with the trend.
-- `on_bars` does not use the quantity and the calibration grid, which are left out.
use polara_quant.Base.{
  ℕ, ◌+◌, Bool, ◌&&◌, ◌||◌, Option, none, List, ltb, length, last_or, if◌then◌else◌,
}
use polara_quant.Base.Effects.{Result, ok}
use polara_quant.Decimal.{Decimal, zero_d, abs}
use polara_quant.Schemas.{Signal, Bar}
use polara_quant.Strategies.{Stamp}
use polara_quant.Strategies.Indicators.{closes_of, compute_ema, average}
use polara_quant.Strategies.Signalling.{
  Sleeve, ExitPcts, strength_of, emit, second_last, close_now, volumes_of,
}

pub record EmaBounce (D : Type 0) : Type 0 where
  pub sleeve : Sleeve
  pub ema_fast : ℕ
  pub ema_slow : ℕ
  pub touch_pct : D
  pub volume_factor : D
  pub exits : ExitPcts D

module _ {D : Type 0} ⦃d : Decimal D⦄ where
  abbrev pub bars_needed : EmaBounce D → ℕ
  bars_needed c = c.ema_slow + 1

  -- The close is near the slow average.
  abbrev pub in_touch_zone : EmaBounce D → (slow_now close : D) → Bool
  in_touch_zone c slow_now close = d.le (d.div (abs (d.sub close slow_now)) slow_now) c.touch_pct

  -- The last volume is above the average.
  abbrev pub volume_ok : EmaBounce D → List D → Bool
  volume_ok c volumes =
      let avg = average volumes (length volumes) in
      d.lt zero_d avg && d.lt (d.mul avg c.volume_factor) (last_or zero_d volumes)

  -- `none` where one of the series is too short.
  abbrev pub strength : EmaBounce D → List (Bar D) → Option D
  strength c bars =
      let closes = closes_of bars in
      let fast = compute_ema closes c.ema_fast in
      let slow = compute_ema closes c.ema_slow in
      let fast_now = last_or zero_d fast in
      let slow_now = last_or zero_d slow in
      let close_prev = second_last zero_d closes in
      let close = last_or zero_d closes in
      let confirmed = in_touch_zone c slow_now close && volume_ok c (volumes_of bars) in
      if ltb (length fast) 1 || ltb (length slow) 1
      then none
      else if d.eq slow_now zero_d
      then none
      else strength_of (d.lt slow_now fast_now && (confirmed && d.lt close_prev close))
          (d.lt fast_now slow_now && (confirmed && d.lt close close_prev))

  unfoldable pub on_bars : EmaBounce D → Stamp → List (Bar D) → Result (Option (Signal D))
  unfolding compute_ema emit
  on_bars c stamp bars =
      if ltb (length bars) (bars_needed c)
      then ok none
      else emit c.sleeve stamp (close_now bars) c.exits (strength c bars)
