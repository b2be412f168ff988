-- ===== src/Strategies/PrevDayBreakout.antt =====
-- src/polara/research_engine/strategies/prev_day_breakout.py: the close leaves the range of the session before.
-- `on_bars` does not use the calibration grid, which is left out.
use polara_quant.Base.{
  ℕ, ◌+◌, Bool, not, ◌&&◌, Option, none, some, List, [], ◌∷◌, ltb, length, last_or, if◌then◌else◌,
}
use polara_quant.Base.Effects.{Result, ok}
use polara_quant.Decimal.{Decimal, zero_d, of_int}
use polara_quant.Schemas.{Signal, Bar}
use polara_quant.MarketData.Sessions.{Zone, date_of_bar, get_session_bars, get_prev_session_bars}
use polara_quant.Strategies.{Stamp}
use polara_quant.Strategies.Indicators.{average}
use polara_quant.Strategies.Signalling.{
  Sleeve, ExitPcts, strength_of, atr_stop, emit, max_nat, highest_of, lowest_of, volumes_of,
}

pub record PrevDayBreakout (D : Type 0) : Type 0 where
  pub sleeve : Sleeve
  pub volume_factor : D
  pub atr_period : ℕ
  pub atr_stop_multiplier : Option D

module _ {D : Type 0} ⦃d : Decimal D⦄ where
  abbrev pub fixed_stop : D
  fixed_stop = d.lit 1 2

  abbrev pub volume_ok : PrevDayBreakout D → List (Bar D) → Bar D → Bool
  volume_ok c prev_bars last_bar =
      let avg = average (volumes_of prev_bars) (length prev_bars) in
      not (d.eq avg zero_d) && d.lt (d.mul avg c.volume_factor) (of_int last_bar.volume)

  abbrev pub strength : PrevDayBreakout D → List (Bar D) → Bar D → Option D
  strength c prev_bars last_bar =
      strength_of (d.lt (highest_of prev_bars) last_bar.close && volume_ok c prev_bars last_bar)
        (d.lt last_bar.close (lowest_of prev_bars) && volume_ok c prev_bars last_bar)

  -- With the bars of today's session and of the one before.
  unfoldable pub on_sessions :
      PrevDayBreakout D
      → Stamp
      → (bars today_bars prev_bars : List (Bar D)) → Result (Option (Signal D))
  unfolding atr_stop emit
  on_sessions c stamp bars [] prev_bars = ok none
  on_sessions c stamp bars (b ∷ today_bars) [] = ok none
  on_sessions c stamp bars (b ∷ today_bars) (p ∷ prev_bars) =
      let last_bar = last_or b today_bars in
      let exits : ExitPcts D = record {
        stop_loss_pct =
            atr_stop c.atr_stop_multiplier (some fixed_stop) c.atr_period bars last_bar.close;
        take_profit_pct = none;
      } in
      emit c.sleeve stamp last_bar.close exits (strength c (p ∷ prev_bars) last_bar)

abbrev pub bars_needed : {D : Type 0} → PrevDayBreakout D → ℕ
bars_needed c = max_nat 40 (c.atr_period + 2)

module _ {D : Type 0} ⦃d : Decimal D⦄ (et : Zone) where
  unfoldable pub on_bars : PrevDayBreakout D → Stamp → List (Bar D) → Result (Option (Signal D))
  unfolding on_sessions get_session_bars get_prev_session_bars
  on_bars c stamp [] = ok none
  on_bars c stamp (first ∷ rest) =
      let bars = first ∷ rest in
      let today = date_of_bar et (last_or first rest) in
      if ltb (length bars) (bars_needed c)
      then ok none
      else on_sessions c stamp bars (get_session_bars et bars today)
          (get_prev_session_bars et bars today)
