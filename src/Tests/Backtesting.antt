-- ===== src/Tests/Backtesting.antt =====
-- The strategies, the backtester and the schedulers at concrete inputs.
use polara_quant.Base.{
  ◌⊎◌, ◌++◌, replicate, All, Option, ◌≤◌, some, true, ℕ, ◌+◌, ◌-◌, ◌*◌, ◌/◌, ◌≡◌, refl, length,
  none, List, [], ◌∷◌, arith,
}
use polara_quant.Base.Int.{ℤ, pos, ◌+ℤ◌, ◌-ℤ◌}
use polara_quant.Base.Effects.{Result, ok, err}
use polara_quant.Decimal.{fixed, fixed_lit, fixed_mul, fixed_div, Fixed-IsDecimal, ◌≼◌, zero_d}
use polara_quant.Schemas.{Signal, Bar, utc, day, second}
use polara_quant.MarketData.Sessions.{Zone, get_prev_session_bars}
use polara_quant.MarketData.PrevSession.{IsPrevSession, get_prev_session_bars-IsPrevSession}
use polara_quant.Strategies.{Stamp, Strategy}
use polara_quant.Strategies.Signalling.{IsOwnSignal, close_now}
use polara_quant.Strategies.Indicators.{compute_atr, compute_rsi}
use polara_quant.Strategies.Indicators.Ranges.{indicators_bounds}
use polara_quant.Strategies.MaCrossover.{MaCrossover}
use polara_quant.Strategies.Rules
use polara_quant.Strategies.Rules.{Rule, on_bars-IsOwnSignal}
use polara_quant.Strategies.SessionRules
use polara_quant.Strategies.SessionRules.{SessionRule, on_bars-HasStop}
use polara_quant.Backtester.Metrics.{compute_max_drawdown}
use polara_quant.Backtester.Replay.{
  Backtester, Replay, replay_from, initial, close_remaining, starting_capital,
}
use polara_quant.Backtester.Fills.{IsFilled}
use polara_quant.Backtester.Chronology.{InOrder, trades-InOrder}
use polara_quant.Backtester.Accounts.{settle, final_cash-eq-settle}
use polara_quant.Backtester.Drawdown.{compute_max_drawdown-bounds, IsHighest, IsFall}
use polara_quant.Schedulers.{Registry, Turn}
use polara_quant.Schedulers.Confluence
use polara_quant.Schedulers.Confluence.{ConfluentScheduler, compute_bias}
use polara_quant.Schedulers.Orders.{Adds}
use polara_quant.Schedulers.Cycles.{OnSide, run_once-OnSide}
use polara_quant.Tests.Fixtures.{signal, manager, surroundings}

abbrev pub bar_at : ℕ → ℕ → Bar ℤ
bar_at time price = record {
  symbol = "AAPL";
  timestamp = utc time;
  open_price = pos (price * 1_000_000);
  high = pos (price * 1_000_000);
  low = pos (price * 1_000_000);
  close = pos (price * 1_000_000);
  volume = pos 100;
}

-- The fast average crosses the slow one upwards at the fourth bar, and downwards at the sixth.
abbrev pub bars : List (Bar ℤ)
bars =
    bar_at 1 10 ∷ bar_at 2 9 ∷ bar_at 3 8 ∷ bar_at 4 11 ∷ bar_at 5 12 ∷ bar_at 6 8 ∷ bar_at 7 7 ∷ []

abbrev pub crossover : MaCrossover ℤ
crossover = record {
  sleeve = record { strategy_id = "momentum"; symbol = "AAPL"; bar_size = "30 mins" };
  fast_period = 1;
  slow_period = 2;
  exits = record { stop_loss_pct = none; take_profit_pct = none };
}

-- A stand-in for `math.sqrt`.
abbrev pub same : ℤ → ℤ
same x = x

abbrev rule : Rule ℤ
rule = Rule.ma_crossover crossover

abbrev stamp : Stamp
stamp = record { fresh_id = 1; clock = 8 }

abbrev pub stamps : ℕ → Stamp
stamps i = record { fresh_id = i; clock = 8 }

abbrev backtester : Backtester ℤ
backtester = record {
  strategy = Rules.strategy same rule (pos 1_000_000);
  min_sharpe = pos 1_000_000;
  max_drawdown_limit = pos 20_000_000;
  commission_per_side = pos 1_000_000;
  position_size_usd = none;
}

abbrev ended : Replay ℤ
ended = elim (replay_from backtester stamps backtester.strategy.bars_needed [] bars) [
  | ok st ↦ st
  | err e ↦ initial
]

abbrev answer_of : Result (Option (Signal ℤ)) → Signal ℤ
answer_of (ok (some s)) = s
answer_of _ = signal

-- The fast average crosses the slow one at the fourth bar.
abbrev crossing : List (Bar ℤ)
crossing = bar_at 1 10 ∷ bar_at 2 9 ∷ bar_at 3 8 ∷ bar_at 4 11 ∷ []

on_bars-IsOwnSignal_example :
    (3 ≤ 4)
    × IsOwnSignal crossover.sleeve stamp
        (close_now crossing)
        (answer_of (Rules.on_bars same rule stamp crossing))
unfolding Rules.on_bars fixed_lit fixed_mul fixed_div ◌+ℤ◌ ◌-ℤ◌
on_bars-IsOwnSignal_example =
    on_bars-IsOwnSignal Fixed-IsDecimal same stamp crossing rule
      (answer_of (Rules.on_bars same rule stamp crossing)) refl

trades-InOrder_example :
    InOrder 3 (close_remaining backtester bars ended).trades 6
    × All (IsFilled backtester stamps bars) (close_remaining backtester bars ended).trades
unfolding replay_from Rules.on_bars fixed_lit fixed_mul fixed_div ◌+ℤ◌ ◌-ℤ◌
trades-InOrder_example = trades-InOrder backtester stamps bars ended (omega arith) refl

-- The run has a trade.
one_trade : length (close_remaining backtester bars ended).trades ≡ 1
unfolding replay_from close_remaining Rules.on_bars fixed_lit fixed_mul fixed_div ◌+ℤ◌ ◌-ℤ◌
one_trade = refl

final_cash-eq-settle_example :
    ((close_remaining backtester bars ended).position ≡ none)
    × ((close_remaining backtester bars ended).cash
        ≡ settle backtester starting_capital (close_remaining backtester bars ended).trades)
unfolding replay_from Rules.on_bars fixed_lit fixed_mul fixed_div ◌+ℤ◌ ◌-ℤ◌
final_cash-eq-settle_example = final_cash-eq-settle backtester stamps bars ended refl

-- A strategy that buys on every bar.
abbrev eager : Strategy ℤ
eager = record backtester.strategy { on_bars = λ _ _. ok (some signal) }

compute_max_drawdown-bounds_example :
    let curve = pos 10_000_000 ∷ pos 12_000_000 ∷ pos 9_000_000 ∷ pos 11_000_000 ∷ [] in
    ((peak : ℤ) × IsHighest peak (pos 10_000_000 ∷ pos 12_000_000 ∷ pos 9_000_000 ∷ [])
      × (fixed.lt zero_d peak ≡ true
          → fixed.mul (fixed.div (fixed.sub peak (pos 9_000_000)) peak) (fixed.lit 100 0)
            ≼ compute_max_drawdown curve))
    × ((compute_max_drawdown curve ≡ zero_d) ⊎ IsFall (compute_max_drawdown curve) curve)
compute_max_drawdown-bounds_example =
    compute_max_drawdown-bounds Fixed-IsDecimal (pos 10_000_000) (pos 12_000_000 ∷ [])
      (pos 9_000_000) (pos 11_000_000 ∷ [])

indicators_bounds_example :
    (zero_d ≼ compute_atr bars 2)
    × (zero_d ≼ compute_rsi bars 2)
    × (compute_rsi bars 2 ≼ fixed.lit 100 0)
indicators_bounds_example = indicators_bounds Fixed-IsDecimal bars 2 (omega arith)

-- Days of the clock, four hours behind.
abbrev eastern : Zone
eastern = record {
  date_of = λ t. (t - 4 * 3_600 * second) / day;
  at = λ date hour minute. date * day + ((hour + 4) * 3_600 + minute * 60) * second;
}

-- Fourteen hours after midnight, on a day.
abbrev afternoon : ℕ → ℕ
afternoon d = d * day + 14 * 3_600 * second

abbrev days : List (Bar ℤ)
days = bar_at (afternoon 1) 10 ∷ bar_at (afternoon 2) 11 ∷ bar_at (afternoon 5) 12 ∷ []

get_prev_session_bars-IsPrevSession_example :
    IsPrevSession eastern days 5 (get_prev_session_bars eastern days 5)
get_prev_session_bars-IsPrevSession_example = get_prev_session_bars-IsPrevSession eastern days 5

abbrev gap_fill : SessionRule ℤ
gap_fill = SessionRule.gap_fill (record {
  sleeve = record { strategy_id = "gap"; symbol = "AAPL"; bar_size = "30 mins" };
  min_gap_pct = pos 5_000;
  max_gap_pct = none;
})

-- A session of nineteen bars, and the first bar of the next one.
abbrev before_gap : Bar ℤ
before_gap = bar_at (afternoon 2) 11

abbrev gap_up : List (Bar ℤ)
gap_up = replicate 18 before_gap ++ (bar_at (afternoon 5) 12 ∷ [])

on_bars-HasStop_example :
    let s = answer_of (SessionRules.on_bars same eastern gap_fill stamp (before_gap ∷ gap_up)) in
    (price : ℤ) × (stop : ℤ) × IsOwnSignal (SessionRules.sleeve_of gap_fill) stamp price s
    × (s.stop_loss_pct ≡ some stop)
unfolding SessionRules.on_bars fixed_lit fixed_mul fixed_div ◌+ℤ◌ ◌-ℤ◌
on_bars-HasStop_example =
    on_bars-HasStop Fixed-IsDecimal same eastern stamp before_gap gap_up gap_fill
      (answer_of (SessionRules.on_bars same eastern gap_fill stamp (before_gap ∷ gap_up))) refl

abbrev registry : Registry ℤ
registry = ("momentum", Rules.strategy same rule (pos 1_000_000)) ∷ []

-- The market data has the first four bars, on which the strategy signals.
abbrev turns : ℕ → Turn ℤ
turns i = record {
  get_bars = λ _ _ _. ok (bar_at 1 10 ∷ bar_at 2 9 ∷ bar_at 3 8 ∷ bar_at 4 11 ∷ []);
  stamp = stamps i;
  around = surroundings;
}

abbrev confluent : ConfluentScheduler ℤ
confluent = record {
  registry = registry;
  long_term_ids = "momentum" ∷ [];
  intraday_ids = "momentum" ∷ [];
  min_bias_strength = pos 0;
}

run_once-OnSide_example :
    Adds
      (λ row. OnSide (compute_bias confluent 9 turns) row.side)
      1
      manager.broker.orders
      (Confluence.run_once confluent 9 turns 9 turns manager).broker.orders
run_once-OnSide_example = run_once-OnSide Fixed-IsDecimal confluent 9 turns 9 turns manager
