-- ===== src/Strategies/GapFill.antt =====
-- src/polara/research_engine/strategies/gap_fill.py: the open of a session is away from the close before it.
-- `on_bars` does not use the calibration grid, which is left out.
use polara_quant.Base.{
  ℕ, Bool, true, not, ◌&&◌, Option, none, some, List, [], ◌∷◌, ltb, length, last_or, if◌then◌else◌,
}
use polara_quant.Base.Effects.{Result, ok}
use polara_quant.Decimal.{Decimal, zero_d, abs}
use polara_quant.Schemas.{Signal, Bar}
use polara_quant.MarketData.Sessions.{Zone, date_of_bar, get_session_bars, get_prev_session_bars}
use polara_quant.Strategies.{Stamp}
use polara_quant.Strategies.Signalling.{Sleeve, ExitPcts, emit, buy_strength, sell_strength}

pub record GapFill (D : Type 0) : Type 0 where
  pub sleeve : Sleeve
  pub min_gap_pct : D
  pub max_gap_pct : Option D

abbrev pub bars_needed : ℕ
bars_needed = 20

module _ {D : Type 0} ⦃d : Decimal D⦄ where
  -- The gap is wide enough, and not too wide.
  abbrev pub is_tradable : GapFill D → D → Bool
  is_tradable c abs_gap =
      not (d.le abs_gap c.min_gap_pct)
      && elim c.max_gap_pct [ none ↦ true | some widest ↦ not (d.lt widest abs_gap) ]

  -- The only bar of today's session against the last one of the session before.
  abbrev pub on_gap :
      GapFill D → Stamp → (first : Bar D) → (prev_close : D) → Result (Option (Signal D))
  on_gap c stamp first prev_close =
      let gap = d.div (d.sub first.open_price prev_close) prev_close in
      let exits : ExitPcts D = record {
        stop_loss_pct = some c.min_gap_pct;
        take_profit_pct = some (d.sub (abs gap) c.min_gap_pct);
      } in
      emit c.sleeve stamp first.open_price exits (
        if is_tradable c (abs gap)
        then some (if d.lt zero_d gap then sell_strength else buy_strength)
        else none)

  unfoldable pub on_sessions :
      GapFill D → Stamp → (today_bars prev_bars : List (Bar D)) → Result (Option (Signal D))
  unfolding emit
  on_sessions c stamp (first ∷ []) (p ∷ prev_bars) =
      on_gap c stamp first (last_or p prev_bars).close
  on_sessions c stamp today_bars prev_bars = ok none

module _ {D : Type 0} ⦃d : Decimal D⦄ (et : Zone) where
  unfoldable pub on_bars : GapFill D → Stamp → List (Bar D) → Result (Option (Signal D))
  unfolding on_sessions get_session_bars get_prev_session_bars
  on_bars c stamp [] = ok none
  on_bars c stamp (first ∷ rest) =
      let bars = first ∷ rest in
      let today = date_of_bar et (last_or first rest) in
      if ltb (length bars) bars_needed
      then ok none
      else on_sessions c stamp (get_session_bars et bars today)
          (get_prev_session_bars et bars today)
