-- ===== src/Tests/Viewing.antt =====
-- The dashboard at concrete inputs. Floats are thousandths that are not negative.
use native.Mathlib.Nat.{le-div_iff_mul-le}
use polara_quant.Base.{
  ℕ, Bool-cases, inl, inr, ◌⊎◌, Any, true, false, Option, ◌*◌, ◌/◌, ◌^◌, ◌-◌, ◌<◌, ◌+◌, ◌≤◌, ◌≡◌,
  refl, String, Bool, none, some, List, [], ◌∷◌, map, All, length, keep, ltb, nat_eq, nat_beq,
  arith,
}
use polara_quant.Base.Int.{ℤ, pos, pos_part}
use polara_quant.Base.Effects.{ok, err, arithmetic}
use polara_quant.Base.Ascending.{IsAscending}
use polara_quant.Decimal.{fixed}
use polara_quant.Schemas.{buy, utc}
use polara_quant.Strategies.{Strategy}
use polara_quant.Promotion.{StrategyStatus}
use polara_quant.Calibration.{CalibrationResult}
use polara_quant.Trades.{Trade, DaySummary, TradeTables, TradeState, is_closed, is_open}
use polara_quant.Dashboard
use polara_quant.Dashboard.{Real, pnls, performance}
use polara_quant.Dashboard.Queries.{trades_of, performance_counts}
use polara_quant.Dashboard.Histogram.{pnl_distribution}
use polara_quant.Dashboard.Histogram.Counts.{IsReal, Counts, pnl_distribution-Counts}
use polara_quant.Dashboard.Curves.{SharpePoint, last_days, has_start_nav, rolling_sharpe}
use polara_quant.Dashboard.Curves.Windows.{StartsAtZero, Divides, rolling_sharpe_outcome}
use polara_quant.Dashboard.Overview
use polara_quant.Dashboard.Overview.{strategy_overview, strategy_overview-Shows, IsLatestOf}
use polara_quant.Tests.Fixtures.{strategies}

abbrev sum_of : List ℕ → ℕ
sum_of [] = 0
sum_of (x ∷ xs) = x + sum_of xs

abbrev thousandths : Real ℕ
thousandths = record {
  lit = λ n k. n * 1_000 / 10 ^ k;
  add = λ a b. a + b;
  sub = λ a b. a - b;
  mul = λ a b. a * b / 1_000;
  div = λ a b. (a * 1_000 + (b - 1)) / b;
  lt = ltb;
  eq = nat_beq;
  round = λ k a. a;
  root = λ a. a;
  trunc = λ a. pos (a / 1_000);
  total = sum_of;
  sum_sql = sum_of;
  avg_sql = λ xs. sum_of xs / length xs;
}

abbrev real : ℤ → ℕ
real x = pos_part x / 1_000

-- A quotient is rounded up, so that it is not zero.
wide :
    (spread n : ℕ)
    → 0 < n
    → 0 < spread
    → nat_beq (thousandths.div spread (thousandths.lit n 0)) (thousandths.lit 0 0) ≡ false
wide spread n some_bins apart =
    let at_least : 1 ≤ (spread * 1_000 + (n * 1_000 / 1 - 1)) / (n * 1_000 / 1) =
      (le-div_iff_mul-le {k = n * 1_000 / 1} {x = 1} {y = spread * 1_000 + (n * 1_000 / 1 - 1)}
          (omega arith)).1
        (omega arith) in
    ground (arith, at_least)

thousandths-IsReal : IsReal thousandths
thousandths-IsReal = record {
  lt_asymm = λ a b h. ground arith;
  lt_cases = λ a b c h. elim (Bool-cases (ltb a b)) [ inl p ↦ inl p | inr p ↦ inr (ground arith) ];
  index_nonneg = λ v low high n p m q r. (wide (high - low) n m (ground arith), _, refl);
}

abbrev trade : String → ℕ → TradeState → ℤ → Trade ℤ
trade strategy_id entry_at status pnl = record {
  strategy_id = strategy_id;
  symbol = "AAPL";
  side = buy;
  quantity = pos 1_000_000;
  entry_price = pos 100_000_000;
  exit_price = none;
  entry_at = entry_at;
  exit_at = none;
  realised_pnl = some pnl;
  commission = pos 0;
  status = status;
  trade_date = 0;
  entry_order_id = entry_at;
  exit_order_id = none;
}

abbrev tables : TradeTables ℤ
tables = record {
  trades =
      trade "momentum" 1 is_closed (pos 3_000_000)
      ∷ trade "macd" 2 is_closed (pos 0)
      ∷ trade "momentum" 3 is_closed (pos 7_000_000)
      ∷ trade "macd" 4 is_open (pos 0)
      ∷ [];
  daily_summary = [];
}

performance_counts_example :
    (trades_of (performance thousandths real (λ t. t.strategy_id) tables) ≡ 3)
    × All
        (λ row. row.win_count ≤ row.trade_count)
        (performance thousandths real (λ t. t.strategy_id) tables)
performance_counts_example = performance_counts thousandths real (λ t. t.strategy_id) tables

pnl_distribution-Counts_example :
    Counts
      (pnls thousandths real (keep Dashboard.is_closed tables.trades))
      (pnl_distribution thousandths real tables)
pnl_distribution-Counts_example = pnl_distribution-Counts thousandths thousandths-IsReal real tables

abbrev strategy : String → String → Strategy ℤ
strategy strategy_id bar_size = record {
  strategy_id = strategy_id;
  symbol = "AAPL";
  bars_needed = 1;
  bar_size = bar_size;
  size_multiplier = pos 1_000_000;
  on_bars = λ stamp bars. ok none;
}

abbrev result : ℕ → CalibrationResult ℤ ℕ
result time = record {
  strategy_id = "momentum";
  calibrated_at = utc time;
  bar_size = "1 day";
  lookback_bars = 1;
  rolling_sharpe = pos 0;
  size_multiplier = pos 1_000_000;
  prev_params = [];
  best_params = [];
  param_sharpe_improvement = pos 0;
}

abbrev listed : List (Strategy ℤ)
listed = strategy "momentum" "1 day" ∷ strategy "orb" "15 mins" ∷ []

abbrev results : List (CalibrationResult ℤ ℕ)
results = result 5 ∷ result 9 ∷ result 7 ∷ []

strategy_overview-Shows_example :
    IsAscending Overview.before (strategy_overview listed (strategies StrategyStatus.live) results)
    × ((q : Overview.Overview ℤ ℕ → Bool)
        → length (keep q (strategy_overview listed (strategies StrategyStatus.live) results))
          ≡ length (keep q (map (Overview.row_of (strategies StrategyStatus.live) results) listed)))
    × All
        (λ row. IsLatestOf row.strategy_id results row.calibration)
        (strategy_overview listed (strategies StrategyStatus.live) results)
strategy_overview-Shows_example =
    strategy_overview-Shows listed (strategies StrategyStatus.live) results

abbrev day : Option ℤ → Option ℤ → DaySummary ℤ
day start_nav end_nav = record {
  net_pnl = pos 1_000_000;
  trade_count = 1;
  win_count = 1;
  gross_win = pos 1_000_000;
  gross_loss = pos 0;
  start_nav = start_nav;
  end_nav = end_nav;
  updated_at = 0;
}

-- The second day shows the top, the third one no value.
abbrev days_seen : TradeTables ℤ
days_seen = record {
  trades = [];
  daily_summary =
      (2, day (some (pos 0)) (some (pos 9_000_000)))
      ∷ (3, day (some (pos 9_000_000)) none)
      ∷ (1, day none (some (pos 8_000_000)))
      ∷ (4, day (some (pos 9_000_000)) (some (pos 6_000_000)))
      ∷ [];
}

-- A text such as "0.00" is above zero.
rolling_sharpe_outcome_example :
    (rolling_sharpe thousandths real (λ x. true) 30 2 days_seen ≡ err arithmetic)
      × Any
          (StartsAtZero thousandths real)
          (last_days (has_start_nav thousandths real (λ x. true)) 30 days_seen)
    ⊎ ((points : List (SharpePoint ℕ)) × (rolling_sharpe thousandths real (λ x. true) 30 2 days_seen
          ≡ ok points)
        × All
            (Divides thousandths real)
            (last_days (has_start_nav thousandths real (λ x. true)) 30 days_seen)
        × (length points
            ≡ length (last_days (has_start_nav thousandths real (λ x. true)) 30 days_seen) + 1 - 2))
rolling_sharpe_outcome_example =
    rolling_sharpe_outcome thousandths real (λ x. true) 30 2 days_seen (omega arith)
