-- ===== src/Broker/Orders/Cancelling.antt =====
-- What a cancellation does to the orders, in src/polara/broker/adapter.py.
use polara_quant.Base.{
  ℕ, ◌≡◌, ◌≢◌, refl, Bool, true, false, Option, none, some, List, [], ◌∷◌, ◌==◌, nat_eq, arith,
  find_first, update_where, not, if◌then◌else◌,
}
use polara_quant.Base.Effects.{
  Result, ok, err, value_error, and_then, gets, raise_if, modify, pure, ◌>>=◌, ◌>>◌,
  broker_disconnected,
}
use polara_quant.Decimal.{Decimal}
use polara_quant.Schemas.{OrderStatus, OrderState, cancelled, utc}
use polara_quant.Broker.State.{Broker, Gateway, Order, require_connected}
use polara_quant.Broker.Orders.{
  has_order_id, is_final, set_cancelled, send_cancel, cancel_row, cancel_order,
}

module _ {D : Type 0} ⦃d : Decimal D⦄ where
  state_of : Option (Order D) → Option OrderState
  state_of none = none
  state_of (some row) = some row.status

  -- The status of the order with an id.
  unfoldable pub status_of : ℕ → Broker D → Option OrderState
  unfolding state_of
  status_of id s = state_of (find_first (has_order_id id) s.orders)

  find-cancelled :
      (id other : ℕ) (rows : List (Order D))
      → state_of (
          find_first
            (has_order_id other)
            (update_where (has_order_id id) (λ row. record row { status = cancelled }) rows))
        ≡ (if id == other
            then elim (find_first (has_order_id other) rows) [
              | none ↦ none
              | some _ ↦ some cancelled
            ]
            else state_of (find_first (has_order_id other) rows))
  unfolding state_of
  find-cancelled id other [] = ground arith
  find-cancelled id other (row ∷ rows) = ground (arith, find-cancelled id other rows)

  abbrev pub Cancels : ℕ → Broker D → Result OrderStatus × Broker D → Type 0
  Cancels id s (ok answer, t) =
      (answer.order_id ≡ id)
      × ((before : OrderState) × (status_of id s ≡ some before) × (is_final before ≡ false))
      × (status_of id t ≡ some cancelled)
      × ((other : ℕ) → other ≢ id → status_of other t ≡ status_of other s)
  Cancels id s (err e, t) = t.orders ≡ s.orders

  status_of-set_cancelled :
      (id other : ℕ) (s : Broker D)
      → status_of other (set_cancelled id s) ≡ (
          if id == other
          then elim (status_of other s) [ none ↦ none | some _ ↦ some cancelled ]
          else status_of other s)
  unfolding status_of
  status_of-set_cancelled id other s = ground (arith, find-cancelled id other s.orders)

  status_of_same : (id : ℕ) (s t : Broker D) → t.orders ≡ s.orders → status_of id t ≡ status_of id s
  unfolding status_of
  status_of_same id s t e = rw e

  sent-orders :
      (gw : Gateway D) (o : Option ℕ) (s : Broker D) → (send_cancel gw o s).1.orders ≡ s.orders
  unfolding send_cancel
  sent-orders gw none s = refl
  sent-orders gw (some id) s = refl

  marked-Cancels :
      (id : ℕ) (row : Order D) (s t : Broker D) (answer : OrderStatus)
      → status_of id s ≡ some row.status
      → is_final row.status ≡ false
      → t.orders ≡ s.orders
      → answer.order_id ≡ id
      → Cancels id s (ok answer, set_cancelled id t)
  marked-Cancels id row s t answer found open_ same named = (
    named,
    (row.status, found, open_),
    ground (arith, status_of-set_cancelled id id t, status_of_same id s t same),
    λ other ne. ground (arith, status_of-set_cancelled id other t, status_of_same other s t same),
  )

  cancelled_found :
      (gw : Gateway D) (id : ℕ) (row : Order D) (s : Broker D)
      → status_of id s ≡ some row.status
      → Cancels id s (cancel_row gw id (some row) s)
  unfolding cancel_row
  cancelled_found gw id row s found = go (is_final row.status) refl
    where
      answer : OrderStatus
      answer = record {
        order_id = id;
        ib_order_id = row.ib_order_id;
        status = cancelled;
        submitted_at = utc row.submitted_at;
        filled_at = none;
      }

      sent :
          (m : Result (Unit {0}) × Broker D)
          → m.1.orders ≡ s.orders
          → is_final row.status ≡ false
          → Cancels id s (and_then m.0 (λ _. (do modify (set_cancelled id); pure answer)) m.1)
      sent (err e, t) same open_ = same
      sent (ok tt', t) same open_ = marked-Cancels id row s t answer found open_ same refl

      go :
          (final : Bool)
          → is_final row.status ≡ final
          → Cancels id s (
              (do
                raise_if final value_error
                send_cancel gw row.ib_order_id
                modify (set_cancelled id)
                pure answer)
                s)
      go true final = refl
      go false open_ =
          sent (send_cancel gw row.ib_order_id s) (sent-orders gw row.ib_order_id s) open_

  none_found : (gw : Gateway D) (id : ℕ) (s : Broker D) → Cancels id s (cancel_row gw id none s)
  unfolding cancel_row
  none_found gw id s = refl

  status_of_found :
      (id : ℕ) (row : Order D) (s : Broker D)
      → find_first (has_order_id id) s.orders ≡ some row
      → status_of id s ≡ some row.status
  unfolding status_of
  status_of_found id row s e = rw e

  -- A cancellation that succeeds was of an order that was still open, makes it `cancelled`, and leaves
  -- the status of every other order alone; one that raises changes no order.
  pub cancel_order-Cancels :
      (gw : Gateway D) (id : ℕ) (s : Broker D) → Cancels id s (cancel_order gw id s)
  unfolding cancel_order
  cancel_order-Cancels gw id s = go gw.connected
    where
      looked_up :
          (o : Option (Order D))
          → find_first (has_order_id id) s.orders ≡ o
          → Cancels id s (cancel_row gw id o s)
      looked_up none found = none_found gw id s
      looked_up (some row) found = cancelled_found gw id row s (status_of_found id row s found)

      go :
          (connected : Bool)
          → Cancels id s (
              (do
                raise_if (not connected) broker_disconnected
                row ← gets (λ t. find_first (has_order_id id) t.orders)
                cancel_row gw id row)
                s)
      go false = refl
      go true = looked_up (find_first (has_order_id id) s.orders) refl

  -- With a connected gateway, an order that is filled, cancelled or in error cannot be
  -- cancelled: the call raises, and the gateway is not asked.
  pub cancel_final :
      (gw : Gateway D) (id : ℕ) (status : OrderState) (s : Broker D)
      → gw.connected ≡ true
      → status_of id s ≡ some status
      → is_final status ≡ true
      → cancel_order gw id s ≡ (err value_error, s)
  unfolding cancel_order cancel_row require_connected status_of
  cancel_final gw id status s up found final = ground arith
