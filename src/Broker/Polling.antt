-- ===== src/Broker/Polling.antt =====
-- The polling of orders in src/polara/broker/adapter.py: statuses, and the trades that fills open and
-- close.
pub mod Fills
pub mod Exits
pub mod Numbers
use polara_quant.Base.{
  ℕ, String, Bool, true, false, Option, none, some, not, ◌&&◌, ◌||◌, List, [], ◌∷◌, ◌++◌, nat_eq,
  ◌==◌, string_eq, nat_beq, find_first, update_where, if◌then◌else◌,
}
use polara_quant.Base.Effects.{Action, Result, ok, err, lift, modify, ◌>>=◌, ◌>>◌, database}
use polara_quant.Decimal.{Decimal, zero_d, truthy?}
use polara_quant.Schemas.{OrderState, submitted, filled, cancelled, error}
use polara_quant.Trades.{TradeTables, open_trade, close_trade}
use polara_quant.Broker.State.{Broker, Gateway, RawOrder, Order, Bracket}
use polara_quant.Broker.Account.{or_zero}

-- `_STATUS_MAP.get(raw_status)`
unfoldable pub status_map : String → Option OrderState
status_map raw =
    if raw == "Submitted"
    then some submitted
    else if raw == "PreSubmitted"
    then some submitted
    else if raw == "Filled"
    then some filled
    else if raw == "Cancelled"
    then some cancelled
    else if raw == "Inactive"
    then some error
    else none

-- `o.get("status", "")`
abbrev pub raw_status : Option String → String
raw_status none = ""
raw_status (some s) = s

abbrev pub is_filled : OrderState → Bool
is_filled filled = true
is_filled _ = false

-- `i in known`
abbrev pub contains : ℕ → List ℕ → Bool
contains i [] = false
contains i (j ∷ js) = nat_beq j i || contains i js

abbrev pub has_id : ℕ → Option ℕ → Bool
has_id ib_id none = false
has_id ib_id (some i) = nat_beq i ib_id

module _ {D : Type 0} ⦃d : Decimal D⦄ where
  abbrev pub is_order_of : ℕ → Order D → Bool
  is_order_of ib_id row = has_id ib_id row.ib_order_id

  -- `WHERE stop_ib_id = :ib OR take_profit_ib_id = :ib`
  abbrev pub is_exit_of : ℕ → Bracket D → Bool
  is_exit_of ib_id b = has_id ib_id b.stop_ib_id || has_id ib_id b.take_profit_ib_id

  -- `order_data.get(a) or order_data.get(b, "0")`
  abbrev pub first_truthy : Option D → Option D → D
  first_truthy a b = if truthy? a then or_zero a else or_zero b

  abbrev pub with_trades : TradeTables D → Broker D → Broker D
  with_trades t s = record s { trades = t }

  abbrev pub set_status : ℕ → OrderState → Broker D → Broker D
  set_status ib_id status s = record s {
    orders = update_where (is_order_of ib_id) (λ row. record row { status = status }) s.orders;
  }

  -- The `try` around `_record_fill`: the order is remembered only after it has succeeded.
  abbrev pub remember : ℕ → Result (Unit {0}) × Broker D → Broker D
  remember ib_id (ok _, s) = record s { known_filled = ib_id ∷ s.known_filled }
  remember ib_id (err _, s) = s

-- `locked ib_id` says that the trade service's own session for the fill of that order fails, as it
-- does when the database is locked. `total` is the database's sum of floats.
module _ {D : Type 0} ⦃d : Decimal D⦄ (total : List D → D) (locked : ℕ → Bool) where
  -- A call of the trade service, in a session of its own.
  unfoldable pub on_trades : ℕ → Action (TradeTables D) (Unit {0}) → Action (Broker D) (Unit {0})
  on_trades ib_id act s =
      if locked ib_id then (err database, s) else ((act s.trades).0, with_trades (act s.trades).1 s)

  -- The end of `_record_fill`: a child of a bracket closes the trade of its parent, and any other
  -- order opens one.
  unfoldable pub record_trade :
      (ib_id now : ℕ) (price quantity : D)
      → Order D
      → Option (Bracket D)
      → Action (Broker D) (Unit {0})
  unfolding on_trades
  record_trade ib_id now price quantity row (some bracket) =
      on_trades ib_id (close_trade total bracket.order_id row.order_id price (d.lit 1 0) now now)
  record_trade ib_id now price quantity row none =
      on_trades ib_id
        (open_trade row.order_id row.strategy_id row.symbol row.side quantity price (d.lit 1 0) now)

  unfoldable pub record_fill : (ib_id now : ℕ) → RawOrder D → Action (Broker D) (Unit {0})
  unfolding record_trade
  record_fill ib_id now o s =
      let price = first_truthy o.avg_price o.price in
      let quantity = first_truthy o.filled_quantity o.quantity in
      if d.le price zero_d || d.le quantity zero_d
      then (ok tt, s)
      else elim (find_first (is_order_of ib_id) s.orders) [
        | none ↦ (ok tt, s)
        | some row ↦
            record_trade ib_id now price quantity row
              (find_first (is_exit_of ib_id) s.bracket_orders) s
      ]

  unfoldable pub sync_status : (ib_id now : ℕ) → OrderState → RawOrder D → Broker D → Broker D
  sync_status ib_id now status o s =
      let updated = set_status ib_id status s in
      if is_filled status && (not (contains ib_id s.known_filled) && s.has_trade_service)
      then remember ib_id (record_fill ib_id now o updated)
      else updated

  -- The body of the loop of `_sync_open_orders`.
  unfoldable pub sync_order : (now : ℕ) → RawOrder D → Broker D → Broker D
  unfolding sync_status
  sync_order now o s = elim o.order_id [
    | none ↦ s
    | some ib_id ↦ elim (status_map (raw_status o.status)) [
      | none ↦ s
      | some status ↦ if nat_beq ib_id 0 then s else sync_status ib_id now status o s
    ]
  ]

  unfoldable pub sync_orders : (now : ℕ) → List (RawOrder D) → Broker D → Broker D
  sync_orders now [] s = s
  sync_orders now (o ∷ os) s = sync_orders now os (sync_order now o s)

  unfoldable pub sync_open_orders : Gateway D → (now : ℕ) → Action (Broker D) (Unit {0})
  unfolding sync_orders
  sync_open_orders gw now = do orders ← lift gw.list_orders; modify (sync_orders now orders)
