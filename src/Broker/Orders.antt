-- ===== src/Broker/Orders.antt =====
-- Placing and cancelling orders in src/polara/broker/adapter.py.
pub mod Brackets
pub mod Cancelling
use polara_quant.Base.{
  ℕ, ◌<◌, String, Bool, true, false, Option, none, some, not, List, [], ◌∷◌, ◌++◌, nat_eq, ◌==◌,
  get_elem?, find_first, update_where, if◌then◌else◌,
}
use polara_quant.Base.Effects.{
  Action, Result, ok, err, pure, lift, gets, modify, raise_if, ◌>>=◌, ◌>>◌, value_error, database,
}
use polara_quant.Decimal.{Decimal, truthy}
use polara_quant.Schemas.{
  OrderRequest, OrderSide, buy, sell, OrderState, submitted, cancelled, filled, error, OrderStatus,
  utc,
}
use polara_quant.Broker.State.{
  Broker, Gateway, Payload, Reply, OrderType, mkt, lmt, stp, day, gtc, Order, Bracket,
  require_connected,
}

-- `opposite`
abbrev pub opposite : OrderSide → OrderSide
opposite buy = sell
opposite sell = buy

-- `int(results[i]["order_id"])` where there are so many results and this one has the key.
abbrev pub reply_id : List Reply → ℕ → Option ℕ
reply_id results i = elim (get_elem? results i) [ none ↦ none | some r ↦ r.order_id ]

-- `row.status in ("filled", "cancelled", "error")`
abbrev pub is_final : OrderState → Bool
is_final filled = true
is_final cancelled = true
is_final error = true
is_final _ = false

module _ {D : Type 0} ⦃d : Decimal D⦄ where
  -- The call of the gateway, recorded whatever its answer is.
  unfoldable pub send_orders : Gateway D → List (Payload D) → Action (Broker D) (List Reply)
  send_orders gw payloads s =
      (gw.place_orders payloads, record s { placed = s.placed ++ (payloads ∷ []) })

  abbrev pub has_order_id : ℕ → Order D → Bool
  has_order_id order_id row = row.order_id == order_id

  -- `_INSERT_ORDER`: the column order_id is UNIQUE.
  unfoldable pub insert_order : Order D → Action (Broker D) (Unit {0})
  insert_order row s = elim (find_first (has_order_id row.order_id) s.orders) [
    | some _ ↦ (err database, s)
    | none ↦ (ok tt, record s { orders = s.orders ++ (row ∷ []) })
  ]

  abbrev pub insert_bracket : Bracket D → Broker D → Broker D
  insert_bracket row s = record s { bracket_orders = s.bracket_orders ++ (row ∷ []) }

  -- The row that both functions insert, with the limit price that they store.
  abbrev pub order_row : OrderRequest D → Option D → Option ℕ → ℕ → Order D
  order_row req limit_price ib_order_id now = record {
    order_id = req.order_id;
    symbol = req.symbol;
    side = req.side;
    quantity = req.quantity;
    limit_price = limit_price;
    status = submitted;
    ib_order_id = ib_order_id;
    strategy_id = req.strategy_id;
    submitted_at = now;
    filled_at = none;
  }

  abbrev pub plain_payload : OrderRequest D → ℕ → String → Payload D
  plain_payload req conid account = record {
    coid = none;
    parent_id = none;
    conid = conid;
    order_type = elim req.limit_price [ some _ ↦ lmt | none ↦ mkt ];
    side = req.side;
    price = req.limit_price;
    aux_price = none;
    quantity = req.quantity;
    tif = day;
    acct_id = account;
  }

  -- `str(req.limit_price) if req.limit_price else None`
  abbrev pub stored_limit : Option D → Option D
  stored_limit none = none
  stored_limit (some p) = if truthy p then some p else none

  unfoldable pub place_order : Gateway D → (now : ℕ) → OrderRequest D → Action (Broker D) ℕ
  unfolding require_connected send_orders insert_order
  place_order gw now req = do
    require_connected gw
    conid ← lift (gw.get_conid req.symbol)
    account ← lift gw.account_id
    results ← send_orders gw (plain_payload req conid account ∷ [])
    insert_order (order_row req (stored_limit req.limit_price) (reply_id results 0) now)
    pure req.order_id

  abbrev pub parent_leg : OrderRequest D → ℕ → String → ℕ → Payload D
  parent_leg req conid account coid = record {
    coid = some coid;
    parent_id = none;
    conid = conid;
    order_type = mkt;
    side = req.side;
    price = none;
    aux_price = none;
    quantity = req.quantity;
    tif = day;
    acct_id = account;
  }

  abbrev pub child_leg :
      OrderRequest D → ℕ → String → ℕ → OrderType → Option D → Option D → Payload D
  child_leg req conid account coid order_type price aux_price = record {
    coid = none;
    parent_id = some coid;
    conid = conid;
    order_type = order_type;
    side = opposite req.side;
    price = price;
    aux_price = aux_price;
    quantity = req.quantity;
    tif = gtc;
    acct_id = account;
  }

  abbrev pub stop_leg : OrderRequest D → ℕ → String → ℕ → Option D → List (Payload D)
  stop_leg req conid account coid none = []
  stop_leg req conid account coid (some p) = child_leg req conid account coid stp none (some p) ∷ []

  abbrev pub profit_leg : OrderRequest D → ℕ → String → ℕ → Option D → List (Payload D)
  profit_leg req conid account coid none = []
  profit_leg req conid account coid (some p) =
      child_leg req conid account coid lmt (some p) none ∷ []

  unfoldable pub bracket_legs :
      OrderRequest D → ℕ → String → ℕ → (stop_price take_profit_price : Option D) → List (Payload D)
  bracket_legs req conid account coid stop_price take_profit_price =
      parent_leg req conid account coid
      ∷ (stop_leg req conid account coid stop_price
          ++ profit_leg req conid account coid take_profit_price)

  abbrev pub stop_reply : Option D → List Reply → Option ℕ
  stop_reply none results = none
  stop_reply (some _) results = reply_id results 1

  abbrev pub profit_reply : (stop_price take_profit_price : Option D) → List Reply → Option ℕ
  profit_reply stop_price none results = none
  profit_reply none (some _) results = reply_id results 1
  profit_reply (some _) (some _) results = reply_id results 2

  abbrev pub bracket_row :
      OrderRequest D → (stop_price take_profit_price : Option D) → List Reply → ℕ → Bracket D
  bracket_row req stop_price take_profit_price results now = record {
    order_id = req.order_id;
    stop_ib_id = stop_reply stop_price results;
    take_profit_ib_id = profit_reply stop_price take_profit_price results;
    stop_price = stop_price;
    take_profit_price = take_profit_price;
    created_at = now;
  }

  -- `coid` is the fresh identifier that links the children to their parent.
  unfoldable pub place_bracket_order :
      Gateway D
      → (now coid : ℕ) → OrderRequest D
      → (stop_price take_profit_price : Option D) → Action (Broker D) ℕ
  unfolding require_connected send_orders bracket_legs insert_order
  place_bracket_order gw now coid req stop_price take_profit_price = do
    require_connected gw
    conid ← lift (gw.get_conid req.symbol)
    account ← lift gw.account_id
    results ← send_orders gw (bracket_legs req conid account coid stop_price take_profit_price)
    insert_order (order_row req none (reply_id results 0) now)
    modify (insert_bracket (bracket_row req stop_price take_profit_price results now))
    pure req.order_id

  abbrev pub set_cancelled : ℕ → Broker D → Broker D
  set_cancelled order_id s = record s {
    orders =
        update_where (has_order_id order_id) (λ row. record row { status = cancelled }) s.orders;
  }

  -- The request to the gateway, for an order that has a number there.
  unfoldable pub send_cancel : Gateway D → Option ℕ → Action (Broker D) (Unit {0})
  send_cancel gw none s = (ok tt, s)
  send_cancel gw (some ib_id) s =
      (gw.cancel_order ib_id, record s { cancels = s.cancels ++ (ib_id ∷ []) })

  unfoldable pub cancel_row : Gateway D → ℕ → Option (Order D) → Action (Broker D) OrderStatus
  unfolding send_cancel
  cancel_row gw order_id none s = (err value_error, s)
  cancel_row gw order_id (some row) s =
      (do
        raise_if (is_final row.status) value_error
        send_cancel gw row.ib_order_id
        modify (set_cancelled order_id)
        pure (record {
          order_id = order_id;
          ib_order_id = row.ib_order_id;
          status = cancelled;
          submitted_at = utc row.submitted_at;
          filled_at = none;
        }))
        s

  unfoldable pub cancel_order : Gateway D → (order_id : ℕ) → Action (Broker D) OrderStatus
  unfolding require_connected cancel_row
  cancel_order gw order_id = do
    require_connected gw
    row ← gets (λ s. find_first (has_order_id order_id) s.orders)
    cancel_row gw order_id row
