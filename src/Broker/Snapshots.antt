-- ===== src/Broker/Snapshots.antt =====
-- Snapshots and listings of src/polara/broker/adapter.py: one turn of the loop that records the account,
-- and the queries of the history and of the orders.
pub mod History
use polara_quant.Base.{
  ℕ, String, Bool, true, false, Option, none, some, not, ◌&&◌, List, [], ◌∷◌, ◌++◌, map, ltb,
  if◌then◌else◌,
}
use polara_quant.Base.Sorting.{order_desc}
use polara_quant.Base.Effects.{Result, ok, err}
use polara_quant.Decimal.{Decimal}
use polara_quant.Schemas.{PnlSnapshot, OrderStatus, BrokerStatus, utc}
use polara_quant.Trades.{record_nav}
use polara_quant.Broker.State.{Broker, Gateway, Order}
use polara_quant.Broker.Account.{get_pnl_snapshot}
use polara_quant.Broker.Polling.{with_trades}

-- `get_broker_status`: `auth` is the `authenticated` entry of the gateway's answer.
unfoldable pub get_broker_status : Result Bool → Option String → ℕ → BrokerStatus
get_broker_status (ok auth) account_id now = record {
  connected = auth;
  ib_server_time = some (utc now);
  account_id = account_id;
}
get_broker_status (err e) account_id now = record {
  connected = false;
  ib_server_time = none;
  account_id = none;
}

module _ {D : Type 0} ⦃d : Decimal D⦄ where
  -- Recording the net asset value, unless its session fails.
  unfoldable pub snapshot_nav : (fails : Bool) → PnlSnapshot D → Broker D → Broker D
  snapshot_nav fails snapshot s =
      if s.has_trade_service && not fails
      then with_trades (record_nav snapshot.net_liquidation snapshot.snapshot_at.instant s.trades).1
          s
      else s

  abbrev pub insert_snapshot : PnlSnapshot D → Broker D → Broker D
  insert_snapshot snapshot s = record s {
    account_snapshots = s.account_snapshots ++ (snapshot ∷ []);
  }

  -- What follows the call of `get_pnl_snapshot`, of which an exception is logged.
  abbrev pub save_snapshot :
      (insert_fails nav_fails : Bool) → Result (PnlSnapshot D) × Broker D → Broker D
  save_snapshot insert_fails nav_fails (err e, s) = s
  save_snapshot true nav_fails (ok snapshot, s) = s
  save_snapshot false nav_fails (ok snapshot, s) =
      snapshot_nav nav_fails snapshot (insert_snapshot snapshot s)

  -- The body of `pnl_snapshot_loop`. The two tests say whether the session of the insertion and that of
  -- the trade service fail.
  unfoldable pub snapshot_tick :
      Gateway D → (now : ℕ) → (insert_fails nav_fails : Bool) → Broker D → Broker D
  unfolding snapshot_nav
  snapshot_tick gw now insert_fails nav_fails s =
      if gw.connected then save_snapshot insert_fails nav_fails (get_pnl_snapshot gw now s) else s

  unfoldable pub list_pnl_history : Broker D → List (PnlSnapshot D)
  list_pnl_history s = order_desc (λ p. p.snapshot_at.instant) s.account_snapshots

  abbrev pub order_status : Order D → OrderStatus
  order_status row = record {
    order_id = row.order_id;
    ib_order_id = row.ib_order_id;
    status = row.status;
    submitted_at = utc row.submitted_at;
    filled_at = elim row.filled_at [ none ↦ none | some t ↦ some (utc t) ];
  }

  unfoldable pub list_orders : Broker D → List OrderStatus
  list_orders s = map order_status (order_desc (λ row. row.submitted_at) s.orders)
