-- ===== src/Strategies/OpeningRangeBreakout.antt =====
-- src/polara/research_engine/strategies/opening_range_breakout.py: the close leaves the range of the first bars.
-- `on_bars` does not use the calibration grid, which is left out.
use polara_quant.Base.{
  ℕ, ◌+◌, Bool, true, not, ◌&&◌, ◌||◌, Option, none, some, List, [], ◌∷◌, keep, ltb, length,
  last_or, if◌then◌else◌,
}
use polara_quant.Base.Effects.{Result, ok, err, value_error}
use polara_quant.Base.Results.{◌>>=◌}
use polara_quant.Decimal.{Decimal, zero_d, of_int}
use polara_quant.Schemas.{Signal, Bar}
use polara_quant.MarketData.Sessions.{Zone, date_of_bar, get_session_bars, opening_range_end_utc}
use polara_quant.Strategies.{Stamp}
use polara_quant.Strategies.Indicators.{average, closes_of}
use polara_quant.Strategies.Signalling.{
  Sleeve, ExitPcts, emit, second_last, buy_strength, sell_strength, highest_of, lowest_of,
  volumes_of,
}

pub record OpeningRangeBreakout (D : Type 0) : Type 0 where
  pub sleeve : Sleeve
  pub opening_bars : ℕ
  pub stop_buffer_pct : D
  pub volume_factor : D
  pub min_range_pct : D

abbrev pub bars_needed : {D : Type 0} → OpeningRangeBreakout D → ℕ
bars_needed c = c.opening_bars + 1

module _ {D : Type 0} ⦃d : Decimal D⦄ where
  -- The range is too tight, for a close that is positive.
  abbrev pub is_choppy : OpeningRangeBreakout D → (high low close : D) → Bool
  is_choppy c high low close =
      d.lt zero_d close && d.lt (d.div (d.sub high low) close) c.min_range_pct

  abbrev pub volume_ok : OpeningRangeBreakout D → List (Bar D) → Bar D → Bool
  volume_ok c opening_range last_bar =
      let avg = average (volumes_of opening_range) (length opening_range) in
      if d.lt zero_d avg then d.le (d.mul avg c.volume_factor) (of_int last_bar.volume) else true

  -- The signal of a breakout by a distance, if its stop is positive.
  abbrev pub breakout :
      OpeningRangeBreakout D → Stamp → (close distance strength : D) → Result (Option (Signal D))
  breakout c stamp close distance strength =
      let stop_loss_pct = d.add (d.div distance close) c.stop_buffer_pct in
      let exits : ExitPcts D = record {
        stop_loss_pct = some stop_loss_pct;
        take_profit_pct = none;
      } in
      emit c.sleeve stamp close exits (if d.le stop_loss_pct zero_d then none else some strength)

  -- The close of the bar before and the last bar, against the opening range. `max()` raises where there is
  -- no bar in it.
  unfoldable pub on_range :
      OpeningRangeBreakout D
      → Stamp
      → (opening_range : List (Bar D)) → (prev_close : D) → Bar D
      → Result (Option (Signal D))
  unfolding emit
  on_range c stamp [] prev_close last_bar = err value_error
  on_range c stamp (b ∷ bars) prev_close last_bar =
      let opening_range = b ∷ bars in
      let high = highest_of opening_range in
      let low = lowest_of opening_range in
      let close = last_bar.close in
      if is_choppy c high low close || not (volume_ok c opening_range last_bar)
      then ok none
      else if d.lt high close && d.le prev_close high
      then breakout c stamp close (d.sub close low) buy_strength
      else if d.lt close low && d.le low prev_close
      then breakout c stamp close (d.sub high close) sell_strength
      else ok none

module _ {D : Type 0} ⦃d : Decimal D⦄ (et : Zone) where
  unfoldable pub on_session :
      OpeningRangeBreakout D → Stamp → (today : ℕ) → List (Bar D) → Result (Option (Signal D))
  unfolding on_range opening_range_end_utc
  on_session c stamp today [] = ok none
  on_session c stamp today (first ∷ rest) =
      let session_bars = first ∷ rest in
      if ltb (length session_bars) (c.opening_bars + 1)
      then ok none
      else (opening_range_end_utc et today c.sleeve.bar_size c.opening_bars >>= λ or_end.
          let opening_range = keep (λ b. ltb b.timestamp.instant or_end) session_bars in
          if ltb (length opening_range) c.opening_bars
          then ok none
          else on_range c stamp opening_range (second_last zero_d (closes_of session_bars))
              (last_or first rest))

  unfoldable pub on_bars :
      OpeningRangeBreakout D → Stamp → List (Bar D) → Result (Option (Signal D))
  unfolding on_session get_session_bars
  on_bars c stamp [] = ok none
  on_bars c stamp (first ∷ rest) =
      let today = date_of_bar et (last_or first rest) in
      on_session c stamp today (get_session_bars et (first ∷ rest) today)
