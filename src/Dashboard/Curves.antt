-- ===== src/Dashboard/Curves.antt =====
-- `performance_metrics`, `equity_curve` and `rolling_sharpe` of src/polara/dashboard/dashboard_service.py.
pub mod Days
pub mod Windows
use polara_quant.Base.{
  ℕ, ◌-◌, Bool, true, false, ◌&&◌, Option, none, some, List, [], ◌∷◌, map, keep, take, length, ltb,
  leb, reverse_onto, if◌then◌else◌,
}
use polara_quant.Base.Effects.{Result, ok, err, arithmetic}
use polara_quant.Base.Results.{◌>>=◌}
use polara_quant.Base.Pages.{page}
use polara_quant.Decimal.{Decimal}
use polara_quant.Trades.{DaySummary, TradeTables}
use polara_quant.Dashboard.{Real, is_closed, pnls, gains, losses, or_zero, abs_f}

pub record EquityPoint (F : Type 0) : Type 0 where
  pub date : ℕ
  pub nav : F
  pub net_pnl : F
  pub drawdown_pct : F

pub record SharpePoint (F : Type 0) : Type 0 where
  pub date : ℕ
  pub sharpe : F

pub record PerformanceMetrics (F : Type 0) : Type 0 where
  pub trade_count : ℕ
  pub win_count : ℕ
  pub win_rate : F
  pub net_pnl : F
  pub avg_win : F
  pub avg_loss : F
  pub gross_win : F
  pub gross_loss : F
  pub profit_factor : Option F
  pub recovery_factor : Option F
  pub win_loss_ratio : Option F
  pub expectancy : F
  pub max_drawdown_pct : F
  pub max_drawdown_abs : F

abbrev pub is_some : {A : Type 0} → Option A → Bool
is_some none = false
is_some (some x) = true

module _ {D : Type 0} where
  abbrev pub date_of_row : ℕ × DaySummary D → ℕ
  date_of_row row = row.0

  abbrev pub has_end_nav : ℕ × DaySummary D → Bool
  has_end_nav row = is_some row.1.end_nav

  -- `SELECT ... FROM (SELECT ... ORDER BY trade_date DESC LIMIT :limit) ORDER BY trade_date ASC`; the dates are
  -- different, since they are the primary key.
  unfoldable pub last_days :
      (ℕ × DaySummary D → Bool) → (limit : ℕ) → TradeTables D → List (ℕ × DaySummary D)
  last_days p limit tables = reverse_onto [] (page date_of_row p limit tables.daily_summary)

module _ {D F : Type 0} ⦃d : Decimal D⦄ (f : Real F) (real : D → F) where
  -- `float(...)` of a column that the WHERE clause has found not null.
  abbrev pub float_of : Option D → F
  float_of none = f.lit 0 0
  float_of (some x) = real x

  abbrev pub new_peak : F → F → F
  new_peak peak nav = if f.lt peak nav then nav else peak

  abbrev pub drawdown_pct : (peak nav : F) → F
  drawdown_pct peak nav =
      if f.lt (f.lit 0 0) peak
      then f.round 2 (f.mul (f.div (f.sub peak nav) peak) (f.lit 100 0))
      else f.lit 0 0

  -- The loop of `equity_curve`.
  unfoldable pub equity_points : (peak : F) → List (ℕ × DaySummary D) → List (EquityPoint F)
  equity_points peak [] = []
  equity_points peak ((date, row) ∷ rows) =
      let nav = float_of row.end_nav in
      record {
        date = date;
        nav = nav;
        net_pnl = real row.net_pnl;
        drawdown_pct = drawdown_pct (new_peak peak nav) nav;
      }
      ∷ equity_points (new_peak peak nav) rows

  unfoldable pub equity_curve : (days : ℕ) → TradeTables D → List (EquityPoint F)
  unfolding last_days equity_points
  equity_curve days tables = equity_points (f.lit 0 0) (last_days has_end_nav days tables)

  -- A day of the loop of `performance_metrics` over the net asset values: the share of the peak that is lost and the
  -- amount, each the greatest so far.
  abbrev pub new_fall : (peak nav : F) → F × F → F × F
  new_fall peak nav fall =
      if f.lt (f.lit 0 0) peak && f.lt fall.0 (f.div (f.sub peak nav) peak)
      then (f.div (f.sub peak nav) peak, f.sub peak nav)
      else fall

  unfoldable pub max_fall : (peak : F) → F × F → List F → F × F
  max_fall peak fall [] = fall
  max_fall peak fall (nav ∷ navs) =
      max_fall (new_peak peak nav) (new_fall (new_peak peak nav) nav fall) navs

  -- `round(a / b, 3) if b else None`
  abbrev pub quotient : F → F → Option F
  quotient a b = if f.eq b (f.lit 0 0) then none else some (f.round 3 (f.div a b))

  abbrev pub metrics_of : (closed : ℕ) → (values navs : List F) → PerformanceMetrics F
  metrics_of closed values navs =
      let wins = length (gains f real values) in
      let gross_win = or_zero f real f.sum_sql (gains f real values) in
      let gross_loss = abs_f f real (or_zero f real f.sum_sql (losses f real values)) in
      let avg_win = or_zero f real f.avg_sql (gains f real values) in
      let avg_loss = or_zero f real f.avg_sql (losses f real values) in
      let net_pnl = or_zero f real f.sum_sql values in
      let win_rate = if ltb 0 closed then f.div (f.lit wins 0) (f.lit closed 0) else f.lit 0 0 in
      let loss_rate = f.sub (f.lit 1 0) win_rate in
      let fall = max_fall (f.lit 0 0) (f.lit 0 0, f.lit 0 0) navs in
      record {
        trade_count = closed;
        win_count = wins;
        win_rate = f.round 1 (f.mul win_rate (f.lit 100 0));
        net_pnl = f.round 2 net_pnl;
        avg_win = f.round 2 avg_win;
        avg_loss = f.round 2 avg_loss;
        gross_win = f.round 2 gross_win;
        gross_loss = f.round 2 gross_loss;
        profit_factor = quotient gross_win gross_loss;
        recovery_factor =
            if f.lt (f.lit 0 0) fall.1 then some (f.round 3 (f.div net_pnl fall.1)) else none;
        win_loss_ratio =
            if f.eq avg_loss (f.lit 0 0)
            then none
            else some (f.round 3 (abs_f f real (f.div avg_win avg_loss)));
        expectancy =
            if ltb 0 closed
            then f.round 2 (f.add (f.mul win_rate avg_win) (f.mul loss_rate avg_loss))
            else f.lit 0 0;
        max_drawdown_pct = f.round 2 (f.mul fall.0 (f.lit 100 0));
        max_drawdown_abs = f.round 2 fall.1;
      }

  unfoldable pub performance_metrics : TradeTables D → PerformanceMetrics F
  unfolding last_days max_fall
  performance_metrics tables =
      let closed = keep is_closed tables.trades in
      metrics_of (length closed) (pnls f real closed) (
        map (λ row. float_of row.1.end_nav)
          (last_days has_end_nav (length tables.daily_summary) tables))

  -- A daily return, which fails on an asset value that is zero.
  abbrev pub daily_return : ℕ × DaySummary D → Result (ℕ × F)
  daily_return (date, row) =
      if f.eq (float_of row.start_nav) (f.lit 0 0)
      then err arithmetic
      else ok (date, f.div (real row.net_pnl) (float_of row.start_nav))

  unfoldable pub daily_returns : List (ℕ × DaySummary D) → Result (List (ℕ × F))
  daily_returns [] = ok []
  daily_returns (row ∷ rows) = do r ← daily_return row; rest ← daily_returns rows; ok (r ∷ rest)

  abbrev pub last_date : ℕ → List (ℕ × F) → ℕ
  last_date date [] = date
  last_date date (r ∷ rs) = last_date r.0 rs

  abbrev pub sharpe_of : List F → F
  sharpe_of rets =
      let mean = f.div (f.total rets) (f.lit (length rets) 0) in
      let var =
        if ltb 1 (length rets)
        then f.div (f.total (map (λ r. f.mul (f.sub r mean) (f.sub r mean)) rets))
            (f.lit (length rets - 1) 0)
        else f.lit 0 0 in
      if f.lt (f.lit 0 0) (f.root var)
      then f.round 2 (f.mul (f.div mean (f.root var)) (f.root (f.lit 252 0)))
      else f.lit 0 0

  -- The loop over the windows, from the oldest one on. The route gives windows of 5 to 90.
  unfoldable pub sharpe_points : (window : ℕ) → List (ℕ × F) → List (SharpePoint F)
  sharpe_points window [] = []
  sharpe_points window (r ∷ rs) =
      let rest = sharpe_points window rs in
      if leb window (length (r ∷ rs))
      then record {
        date = last_date r.0 (take window (r ∷ rs));
        sharpe = sharpe_of (map (λ x. x.1) (take window (r ∷ rs)));
      }
        ∷ rest
      else []

  -- `start_nav IS NOT NULL AND start_nav > 0`, with the database's comparison of a text with a number.
  abbrev pub has_start_nav : (above_zero : D → Bool) → ℕ × DaySummary D → Bool
  has_start_nav above_zero row = elim row.1.start_nav [ none ↦ false | some x ↦ above_zero x ]

  unfoldable pub rolling_sharpe :
      (above_zero : D → Bool) → (days window : ℕ) → TradeTables D → Result (List (SharpePoint F))
  unfolding last_days daily_returns sharpe_points
  rolling_sharpe above_zero days window tables = do
    returns ← daily_returns (last_days (has_start_nav above_zero) days tables)
    ok (sharpe_points window returns)
