-- ===== src/Dashboard.antt =====
-- src/polara/dashboard/dashboard_service.py: the queries behind the dashboard, over the tables of trades and
-- daily summaries. A float is a value of `F`; `real` is CAST(... AS REAL) and `float(...)`.
pub mod Queries
pub mod Histogram
pub mod Overview
pub mod Curves
use polara_quant.Base.{
  ℕ, ◌+◌, ◌*◌, String, Bool, true, false, not, ◌&&◌, Option, none, some, List, [], ◌∷◌, map, ltb,
  length, keep, take, ◌==◌, nat_eq, string_eq, reverse_onto, if◌then◌else◌,
}
use polara_quant.Base.Int.{ℤ}
use polara_quant.Base.Dict.{Dict, lookup}
use polara_quant.Base.Pages.{page}
use polara_quant.Decimal.{Decimal, zero_d}
use polara_quant.Schemas.{date_of}
use polara_quant.Trades.{Trade, DaySummary, TradeTables, is_open_state}

-- Floats with the functions that are applied to them. `total` is Python's `sum`, `sum_sql` and `avg_sql` are
-- those of the database, `root` is `x ** 0.5`, and `lit n k` is the literal n / 10^k.
pub record Real (F : Type 0) : Type 0 where
  pub lit : ℕ → ℕ → F
  pub add : F → F → F
  pub sub : F → F → F
  pub mul : F → F → F
  pub div : F → F → F
  pub lt : F → F → Bool
  pub eq : F → F → Bool
  pub round : ℕ → F → F
  pub root : F → F
  pub trunc : F → ℤ
  pub total : List F → F
  pub sum_sql : List F → F
  pub avg_sql : List F → F

pub record TodaySummary (D F : Type 0) : Type 0 where
  pub date : ℕ
  pub net_pnl : D
  pub trade_count : ℕ
  pub win_count : ℕ
  pub win_rate : F
  pub end_nav : Option D
  pub trades : List (Trade D)

pub record DayRow (D F : Type 0) : Type 0 where
  pub date : ℕ
  pub net_pnl : D
  pub trade_count : ℕ
  pub win_count : ℕ
  pub win_rate : F
  pub end_nav : Option D

-- A row of the performance by strategy or by symbol, in which `name` is that of the group.
pub record Performance (F : Type 0) : Type 0 where
  pub name : String
  pub trade_count : ℕ
  pub win_count : ℕ
  pub win_rate : F
  pub net_pnl : F
  pub avg_win : F
  pub avg_loss : F
  pub profit_factor : Option F

-- The arguments of `trades_filtered`; an empty text is no filter, as `none` is.
pub record Filter : Type 0 where
  pub date : Option ℕ
  pub strategy_id : Option String
  pub symbol : Option String

abbrev pub fits : Option String → String → Bool
fits none value = true
fits (some wanted) value = if wanted == "" then true else value == wanted

abbrev pub fits_date : Option ℕ → ℕ → Bool
fits_date none date = true
fits_date (some wanted) date = date == wanted

module _ {D : Type 0} where
  abbrev pub matches : Filter → Trade D → Bool
  matches f t =
      fits_date f.date t.trade_date && (fits f.strategy_id t.strategy_id && fits f.symbol t.symbol)

  -- `ORDER BY entry_at DESC`. The rows are given whole, with the columns that a query leaves out.
  abbrev pub by_entry : Trade D → ℕ
  by_entry t = t.entry_at

  unfoldable pub trades_filtered : Filter → (limit : ℕ) → TradeTables D → List (Trade D)
  trades_filtered f limit tables = page by_entry (matches f) limit tables.trades

  -- Without a LIMIT: as many as there are.
  unfoldable pub trades_for_date : (date : ℕ) → TradeTables D → List (Trade D)
  trades_for_date date tables =
      page by_entry (λ t. t.trade_date == date) (length tables.trades) tables.trades

  unfoldable pub active_positions : TradeTables D → List (Trade D)
  active_positions tables =
      page by_entry (λ t. is_open_state t.status) (length tables.trades) tables.trades

  abbrev pub is_closed : Trade D → Bool
  is_closed t = not (is_open_state t.status)

  -- `GROUP BY`, and the members of each group.
  abbrev pub add_member :
      String → Trade D → Dict String (List (Trade D)) → Dict String (List (Trade D))
  add_member k t [] = (k, t ∷ []) ∷ []
  add_member k t ((j, ts) ∷ groups) =
      if j == k then (j, t ∷ ts) ∷ groups else (j, ts) ∷ add_member k t groups

  unfoldable pub group_by : (Trade D → String) → List (Trade D) → Dict String (List (Trade D))
  group_by name [] = []
  group_by name (t ∷ ts) = add_member (name t) t (group_by name ts)

module _ {D F : Type 0} ⦃d : Decimal D⦄ (f : Real F) (real : D → F) where
  -- `round((wins / trades * 100) if trades else 0, 1)`
  abbrev pub win_rate : (wins trades : ℕ) → F
  win_rate wins trades = f.round 1 (
      if ltb 0 trades
      then f.mul (f.div (f.lit wins 0) (f.lit trades 0)) (f.lit 100 0)
      else f.lit 0 0)

  abbrev pub summary_of : Option (DaySummary D) → (today : ℕ) → List (Trade D) → TodaySummary D F
  summary_of none today trades = record {
    date = today;
    net_pnl = zero_d;
    trade_count = 0;
    win_count = 0;
    win_rate = f.lit 0 0;
    end_nav = none;
    trades = trades;
  }
  summary_of (some row) today trades = record {
    date = today;
    net_pnl = row.net_pnl;
    trade_count = row.trade_count;
    win_count = row.win_count;
    win_rate = win_rate row.win_count row.trade_count;
    end_nav = row.end_nav;
    trades = trades;
  }

  unfoldable pub today_summary : (now : ℕ) → TradeTables D → TodaySummary D F
  unfolding trades_for_date
  today_summary now tables =
      summary_of (lookup (date_of now) tables.daily_summary) (date_of now)
        (trades_for_date (date_of now) tables)

  abbrev pub day_row : ℕ × DaySummary D → DayRow D F
  day_row (date, row) = record {
    date = date;
    net_pnl = row.net_pnl;
    trade_count = row.trade_count;
    win_count = row.win_count;
    win_rate = win_rate row.win_count row.trade_count;
    end_nav = row.end_nav;
  }

  unfoldable pub pnl_history : (days : ℕ) → TradeTables D → List (DayRow D F)
  pnl_history days tables =
      map day_row (page (λ row. row.0) (λ row. true) days tables.daily_summary)

  -- The values of `CAST(realised_pnl AS REAL)` that are not null.
  abbrev pub pnls : List (Trade D) → List F
  pnls [] = []
  pnls (t ∷ ts) = elim t.realised_pnl [ none ↦ pnls ts | some x ↦ real x ∷ pnls ts ]

  abbrev pub gains : List F → List F
  gains = keep (λ x. f.lt (f.lit 0 0) x)

  abbrev pub losses : List F → List F
  losses = keep (λ x. f.lt x (f.lit 0 0))

  abbrev pub abs_f : F → F
  abs_f x = if f.lt x (f.lit 0 0) then f.sub (f.lit 0 0) x else x

  -- An aggregate of no rows is null, which `or 0` makes zero.
  abbrev pub or_zero : (List F → F) → List F → F
  or_zero aggregate [] = f.lit 0 0
  or_zero aggregate (x ∷ xs) = aggregate (x ∷ xs)

  abbrev pub ratio : F → F → Option F
  ratio gross_win gross_loss =
      if f.eq gross_loss (f.lit 0 0) then none else some (f.round 2 (f.div gross_win gross_loss))

  -- `_strategy_row` on the aggregates of a group.
  abbrev pub strategy_row : String × List (Trade D) → Performance F
  strategy_row (name, trades) =
      let values = pnls trades in
      let wins = length (gains values) in
      record {
        name = name;
        trade_count = length trades;
        win_count = wins;
        win_rate = win_rate wins (length trades);
        net_pnl = f.round 2 (or_zero f.sum_sql values);
        avg_win = f.round 2 (or_zero f.avg_sql (gains values));
        avg_loss = f.round 2 (or_zero f.avg_sql (losses values));
        profit_factor =
            ratio (or_zero f.sum_sql (gains values)) (abs_f (or_zero f.sum_sql (losses values)));
      }

  -- `ORDER BY net_pnl DESC`, on the sums of the groups.
  abbrev pub insert_group :
      String × List (Trade D) → Dict String (List (Trade D)) → Dict String (List (Trade D))
  insert_group g [] = g ∷ []
  insert_group g (h ∷ groups) =
      if f.lt (or_zero f.sum_sql (pnls g.1)) (or_zero f.sum_sql (pnls h.1))
      then h ∷ insert_group g groups
      else g ∷ h ∷ groups

  unfoldable pub order_groups : Dict String (List (Trade D)) → Dict String (List (Trade D))
  order_groups [] = []
  order_groups (g ∷ groups) = insert_group g (order_groups groups)

  unfoldable pub performance : (Trade D → String) → TradeTables D → List (Performance F)
  performance name tables =
      map strategy_row (order_groups (group_by name (keep is_closed tables.trades)))

  unfoldable pub strategy_performance : TradeTables D → List (Performance F)
  unfolding performance
  strategy_performance = performance (λ t. t.strategy_id)

  unfoldable pub symbol_performance : TradeTables D → List (Performance F)
  unfolding performance
  symbol_performance = performance (λ t. t.symbol)
