-- ===== src/Trades.antt =====
-- src/polara/dashboard/trade_service.py: the trades and the daily summaries. The random primary key of
-- a trade is left out: it is never read, and no other column of the table is unique.
pub mod Closing
pub mod Summary
use polara_quant.Base.{
  ℕ, ◌<◌, String, Bool, true, false, Option, none, some, not, ◌&&◌, List, [], ◌∷◌, ◌++◌, map, ◌==◌,
  nat_eq, length, find_first, keep, update_where, if◌then◌else◌,
}
use polara_quant.Base.Effects.{Result, ok, err, Action, modify, ◌>>◌, database}
use polara_quant.Base.Dict.{Dict, lookup, insert}
use polara_quant.Decimal.{Decimal, zero_d, abs}
use polara_quant.Schemas.{OrderSide, buy, sell, date_of}

pub data TradeState : Type 0 where
  is_open is_closed : TradeState

-- A row of the trades table.
pub record Trade (D : Type 0) : Type 0 where
  pub strategy_id : String
  pub symbol : String
  pub side : OrderSide
  pub quantity : D
  pub entry_price : D
  pub exit_price : Option D
  pub entry_at : ℕ
  pub exit_at : Option ℕ
  pub realised_pnl : Option D
  pub commission : D
  pub status : TradeState
  pub trade_date : ℕ
  pub entry_order_id : ℕ
  pub exit_order_id : Option ℕ

-- A row of the daily_summary table, under its primary key trade_date.
pub record DaySummary (D : Type 0) : Type 0 where
  pub net_pnl : D
  pub trade_count : ℕ
  pub win_count : ℕ
  pub gross_win : D
  pub gross_loss : D
  pub start_nav : Option D
  pub end_nav : Option D
  pub updated_at : ℕ

pub record TradeTables (D : Type 0) : Type 0 where
  pub trades : List (Trade D)
  pub daily_summary : Dict ℕ (DaySummary D)

abbrev pub is_open_state : TradeState → Bool
is_open_state is_open = true
is_open_state is_closed = false

-- `WHERE entry_order_id = :entry_order_id AND status = 'open'`
abbrev pub is_open_entry : {D : Type 0} → ℕ → Trade D → Bool
is_open_entry entry_order_id t = t.entry_order_id == entry_order_id && is_open_state t.status

-- `WHERE trade_date = :trade_date AND status = 'closed'`
abbrev pub is_closed_on : {D : Type 0} → ℕ → Trade D → Bool
is_closed_on trade_date t = t.trade_date == trade_date && not (is_open_state t.status)

module _ {D : Type 0} ⦃d : Decimal D⦄ where
  abbrev pub new_trade :
      (entry_order_id : ℕ) (strategy_id symbol : String) (side : OrderSide)
      (quantity entry_price commission : D) (entry_at : ℕ)
      → Trade D
  new_trade entry_order_id strategy_id symbol side quantity entry_price commission entry_at =
      record {
        strategy_id = strategy_id;
        symbol = symbol;
        side = side;
        quantity = quantity;
        entry_price = entry_price;
        exit_price = none;
        entry_at = entry_at;
        exit_at = none;
        realised_pnl = none;
        commission = commission;
        status = is_open;
        trade_date = date_of entry_at;
        entry_order_id = entry_order_id;
        exit_order_id = none;
      }

  unfoldable pub open_trade :
      (entry_order_id : ℕ) (strategy_id symbol : String) (side : OrderSide)
      (quantity entry_price commission : D) (entry_at : ℕ)
      → Action (TradeTables D) (Unit {0})
  open_trade entry_order_id strategy_id symbol side quantity entry_price commission entry_at =
      let row =
        new_trade entry_order_id strategy_id symbol side quantity entry_price commission entry_at in
      modify (λ t. record t { trades = t.trades ++ (row ∷ []) })

  abbrev pub multiplier : OrderSide → D
  multiplier buy = d.lit 1 0
  multiplier sell = d.neg (d.lit 1 0)

  -- The profit of a trade that is closed at `exit_price`, after all of its commissions.
  unfoldable pub trade_pnl : Trade D → (exit_price total_commission : D) → D
  trade_pnl row exit_price total_commission =
      d.sub (d.mul (d.mul (multiplier row.side) (d.sub exit_price row.entry_price)) row.quantity)
        total_commission

  -- `_CLOSE_TRADE`
  unfoldable pub set_closed :
      (entry_order_id exit_order_id : ℕ) (exit_price pnl commission : D) (exit_at : ℕ)
      → List (Trade D)
      → List (Trade D)
  set_closed entry_order_id exit_order_id exit_price pnl commission exit_at =
      update_where (is_open_entry entry_order_id) (λ r. record r {
        exit_price = some exit_price;
        exit_at = some exit_at;
        realised_pnl = some pnl;
        commission = commission;
        status = is_closed;
        exit_order_id = some exit_order_id;
      })

  -- `CAST(realised_pnl AS REAL)` of the rows that have one: SUM passes over a NULL.
  abbrev pub pnls : List (Trade D) → List D
  pnls [] = []
  pnls (t ∷ ts) = elim t.realised_pnl [ none ↦ pnls ts | some p ↦ p ∷ pnls ts ]

  abbrev pub is_win : D → Bool
  is_win p = d.lt zero_d p

  abbrev pub is_loss : D → Bool
  is_loss p = d.lt p zero_d

  -- `CASE WHEN CAST(realised_pnl AS REAL) > 0 THEN ... ELSE 0 END`, and the same for `< 0`
  abbrev pub case_pnl : (D → Bool) → Trade D → D
  case_pnl test t = elim t.realised_pnl [ none ↦ zero_d | some p ↦ if test p then p else zero_d ]

  abbrev pub pnl_is : (D → Bool) → Trade D → Bool
  pnl_is test t = elim t.realised_pnl [ none ↦ false | some p ↦ test p ]

  -- Its ON CONFLICT clause leaves the two columns with net asset values alone.
  abbrev pub with_navs : DaySummary D → Option (DaySummary D) → DaySummary D
  with_navs new none = new
  with_navs new (some old) = record new { start_nav = old.start_nav; end_nav = old.end_nav }

  -- The session is rolled back when a statement in it raises.
  abbrev pub rollback :
      TradeTables D → Result (Unit {0}) × TradeTables D → Result (Unit {0}) × TradeTables D
  rollback before (ok a, after) = (ok a, after)
  rollback before (err e, after) = (err e, before)

  abbrev pub ensured : (nav : D) (updated_at : ℕ) → Option (DaySummary D) → DaySummary D
  ensured nav updated_at none = record {
    net_pnl = zero_d;
    trade_count = 0;
    win_count = 0;
    gross_win = zero_d;
    gross_loss = zero_d;
    start_nav = some nav;
    end_nav = none;
    updated_at = updated_at;
  }
  ensured nav updated_at (some old) = record old {
    start_nav = elim old.start_nav [ none ↦ some nav | some s ↦ some s ];
    updated_at = updated_at;
  }

  -- `_ENSURE_DAILY_SUMMARY`
  unfoldable pub ensure_daily_summary :
      (trade_date : ℕ) (nav : D) (updated_at : ℕ) → Action (TradeTables D) (Unit {0})
  ensure_daily_summary trade_date nav updated_at = modify (λ t. record t {
    daily_summary =
        insert trade_date (ensured nav updated_at (lookup trade_date t.daily_summary))
          t.daily_summary;
  })

  -- `_UPDATE_DAILY_NAV`
  unfoldable pub update_daily_nav :
      (trade_date : ℕ) (nav : D) (updated_at : ℕ) → Action (TradeTables D) (Unit {0})
  update_daily_nav trade_date nav updated_at = modify (λ t.
      elim (lookup trade_date t.daily_summary) [
        | none ↦ t
        | some old ↦ record t {
          daily_summary =
              insert trade_date (record old { end_nav = some nav; updated_at = updated_at })
                t.daily_summary;
        }
      ])

  unfoldable pub record_nav : (nav : D) (as_of : ℕ) → Action (TradeTables D) (Unit {0})
  unfolding ensure_daily_summary update_daily_nav
  record_nav nav as_of = do
    ensure_daily_summary (date_of as_of) nav as_of
    update_daily_nav (date_of as_of) nav as_of

-- `total` is the database's SUM(CAST(... AS REAL)), a sum of floats.
module _ {D : Type 0} ⦃d : Decimal D⦄ (total : List D → D) where
  -- The SELECT of `_UPSERT_DAILY_SUMMARY`, over the rows of the day.
  unfoldable pub summarise : ℕ → List (Trade D) → DaySummary D
  summarise updated_at rows = record {
    net_pnl = total (pnls rows);
    trade_count = length rows;
    win_count = length (keep (pnl_is is_win) rows);
    gross_win = total (map (case_pnl is_win) rows);
    gross_loss = abs (total (map (case_pnl is_loss) rows));
    start_nav = none;
    end_nav = none;
    updated_at = updated_at;
  }

  -- `_UPSERT_DAILY_SUMMARY`. With no row of that date the aggregate's trade_date is NULL, which the
  -- primary key refuses.
  unfoldable pub upsert_daily_summary :
      (trade_date updated_at : ℕ) → Action (TradeTables D) (Unit {0})
  unfolding summarise
  upsert_daily_summary trade_date updated_at t = elim (keep (is_closed_on trade_date) t.trades) [
    | [] ↦ (err database, t)
    | r ∷ rs ↦ (
      ok tt,
      record t {
        daily_summary =
            insert trade_date
              (with_navs (summarise updated_at (r ∷ rs)) (lookup trade_date t.daily_summary))
              t.daily_summary;
      },
    )
  ]

  unfoldable pub close_trade :
      (entry_order_id exit_order_id : ℕ) (exit_price commission : D) (exit_at now : ℕ)
      → Action (TradeTables D) (Unit {0})
  unfolding trade_pnl set_closed upsert_daily_summary
  close_trade entry_order_id exit_order_id exit_price commission exit_at now t =
      elim (find_first (is_open_entry entry_order_id) t.trades) [
        | none ↦ (ok tt, t)
        | some row ↦
            let total_commission = d.add row.commission commission in
            let pnl = trade_pnl row exit_price total_commission in
            let closed =
              set_closed entry_order_id exit_order_id exit_price pnl total_commission exit_at
                t.trades in
            rollback t (upsert_daily_summary (date_of exit_at) now (record t { trades = closed }))
      ]
