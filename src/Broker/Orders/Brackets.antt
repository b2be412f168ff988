-- ===== src/Broker/Orders/Brackets.antt =====
-- What a call that places an order leaves behind, in src/polara/broker/adapter.py.
use polara_quant.Base.{
  ℕ, ◌≡◌, ◌≢◌, refl, inl, inr, String, Bool, true, false, Option, none, some, List, [], ◌∷◌, ◌++◌,
  arith, find_first, length, ◌+◌, All, not, ◌⊎◌,
}
use polara_quant.Base.Effects.{
  Result, ok, err, database, and_then, lift, raise_if, pure, ◌>>=◌, ◌>>◌, broker_disconnected,
  Result-cases, modify,
}
use polara_quant.Decimal.{Decimal}
use polara_quant.Schemas.{OrderRequest, submitted}
use polara_quant.Broker.State.{Broker, Gateway, Payload, Reply, OrderType, mkt, lmt, stp, Order}
use polara_quant.Broker.Orders.{
  opposite, has_order_id, reply_id, bracket_legs, bracket_row, order_row, place_order,
  place_bracket_order, insert_bracket, send_orders, insert_order, plain_payload, stored_limit,
}

abbrev pub count_some : {A : Type 0} → Option A → ℕ
count_some none = 0
count_some (some _) = 1

abbrev pub same_type : OrderType → OrderType → Bool
same_type mkt mkt = true
same_type lmt lmt = true
same_type stp stp = true
same_type _ _ = false

-- The number that the gateway gave to the child order of a type, if it answers a request with one
-- result for each order, in their order.
abbrev pub id_of_child : {D : Type 0} → OrderType → List (Payload D × Reply) → Option ℕ
id_of_child kind [] = none
id_of_child kind ((p, r) ∷ rest) = elim p.parent_id [
  | none ↦ id_of_child kind rest
  | some _ ↦ elim (same_type p.order_type kind) [
    | true ↦ r.order_id
    | false ↦ id_of_child kind rest
  ]
]

-- The orders of a request beside the results of the answer.
abbrev pub answered : {D : Type 0} → List (Payload D) → List Reply → List (Payload D × Reply)
answered [] rs = []
answered (p ∷ ps) [] = []
answered (p ∷ ps) (r ∷ rs) = (p, r) ∷ answered ps rs

abbrev pub Linked : {D : Type 0} → Payload D → Payload D → Type 0
Linked parent child =
    (child.parent_id ≡ parent.coid)
    × (child.side ≡ opposite parent.side)
    × (child.quantity ≡ parent.quantity)
    × (child.conid ≡ parent.conid)

module _ {D : Type 0} ⦃d : Decimal D⦄ where
  -- The first leg is a market order for the request; every further leg names it as its parent, and
  -- trades the same quantity of the same contract the other way. There is one for each price.
  pub bracket_legs-Linked :
      (req : OrderRequest D) (conid : ℕ) (account : String) (coid : ℕ) (stop profit : Option D)
      → (parent : Payload D) × (children : List (Payload D)) × (bracket_legs req conid account coid
            stop profit
          ≡ parent ∷ children)
        × ((parent.coid ≡ some coid)
            × (parent.order_type ≡ mkt)
            × (parent.side ≡ req.side)
            × (parent.quantity ≡ req.quantity))
        × All (Linked parent) children
        × (length children ≡ count_some stop + count_some profit)
  unfolding bracket_legs
  bracket_legs-Linked req conid account coid none none =
      (_, [], refl, (refl, refl, refl, refl), tt, refl)
  bracket_legs-Linked req conid account coid (some s) none =
      (_, _ ∷ [], refl, (refl, refl, refl, refl), ((refl, refl, refl, refl), tt), refl)
  bracket_legs-Linked req conid account coid none (some p) =
      (_, _ ∷ [], refl, (refl, refl, refl, refl), ((refl, refl, refl, refl), tt), refl)
  bracket_legs-Linked req conid account coid (some s) (some p) = (
    _,
    _ ∷ (_ ∷ []),
    refl,
    (refl, refl, refl, refl),
    ((refl, refl, refl, refl), ((refl, refl, refl, refl), tt)),
    refl,
  )

  -- If the gateway answers a bracket with one result for each leg, in their order, the row that is
  -- stored has the number of the stop order as its stop and that of the limit order as its profit
  -- target, whichever of the two there are; without a leg of the kind it has none.
  pub bracket_row_ids :
      (req : OrderRequest D) (conid : ℕ) (account : String) (coid : ℕ) (stop profit : Option D)
      (results : List Reply) (now : ℕ)
      → let legs = bracket_legs req conid account coid stop profit in
        let row = bracket_row req stop profit results now in
        length results ≡ length legs
        → (row.stop_ib_id ≡ id_of_child stp (answered legs results))
          × (row.take_profit_ib_id ≡ id_of_child lmt (answered legs results))
  unfolding bracket_legs
  bracket_row_ids req conid account coid none none [] now h = (refl, refl)
  bracket_row_ids req conid account coid none none (r ∷ rs) now h = (refl, refl)
  bracket_row_ids req conid account coid (some s) none [] now h = (refl, refl)
  bracket_row_ids req conid account coid (some s) none (r ∷ []) now h = absurd (omega arith)
  bracket_row_ids req conid account coid (some s) none (r ∷ a ∷ rs) now h = (refl, refl)
  bracket_row_ids req conid account coid none (some p) [] now h = (refl, refl)
  bracket_row_ids req conid account coid none (some p) (r ∷ []) now h = absurd (omega arith)
  bracket_row_ids req conid account coid none (some p) (r ∷ a ∷ rs) now h = (refl, refl)
  bracket_row_ids req conid account coid (some s) (some p) [] now h = (refl, refl)
  bracket_row_ids req conid account coid (some s) (some p) (r ∷ []) now h = absurd (omega arith)
  bracket_row_ids req conid account coid (some s) (some p) (r ∷ a ∷ []) now h = absurd (omega arith)
  bracket_row_ids req conid account coid (some s) (some p) (r ∷ a ∷ b ∷ rs) now h = (refl, refl)

  -- Where a call that places orders ends without an exception it has stored exactly one order, as
  -- `submitted`, for the request, and where it raises, the orders and the brackets are as before;
  -- in either case at most one request has gone to the gateway.
  abbrev pub Stores : OrderRequest D → Broker D → Result ℕ × Broker D → Type 0
  Stores req s (ok id, t) =
      (id ≡ req.order_id)
      × ((row : Order D) × (t.orders ≡ s.orders ++ (row ∷ []))
          × (row.order_id ≡ req.order_id)
          × (row.symbol ≡ req.symbol)
          × (row.side ≡ req.side)
          × (row.quantity ≡ req.quantity)
          × (row.status ≡ submitted))
      × ((payloads : List (Payload D)) × (t.placed ≡ s.placed ++ (payloads ∷ [])))
  Stores req s (err e, t) =
      (t.orders ≡ s.orders)
      × (t.bracket_orders ≡ s.bracket_orders)
      × ((t.placed ≡ s.placed)
          ⊎ ((payloads : List (Payload D)) × (t.placed ≡ s.placed ++ (payloads ∷ []))))

  pub insert_order-cases :
      (row : Order D) (s : Broker D)
      → ((find_first (has_order_id row.order_id) s.orders ≢ none)
          × (insert_order row s ≡ (err database, s)))
        ⊎ (insert_order row s ≡ (ok tt, record s { orders = s.orders ++ (row ∷ []) }))
  unfolding insert_order
  insert_order-cases row s = ground arith

  -- The insertion of the one row, after a request has gone out.
  inserted :
      (req : OrderRequest D) (limit : Option D) (ib_id : Option ℕ) (now : ℕ)
      (payloads : List (Payload D)) (s : Broker D) (k : Broker D → Broker D)
      → ((t : Broker D) → ((k t).orders ≡ t.orders) × ((k t).placed ≡ t.placed))
      → let sent = record s { placed = s.placed ++ (payloads ∷ []) } in
        let m = insert_order (order_row req limit ib_id now) sent in
        Stores req s (and_then m.0 (λ _ t. (ok req.order_id, k t)) m.1)
  inserted req limit ib_id now payloads s k h =
      let row = order_row req limit ib_id now in
      elim (insert_order-cases row (record s { placed = s.placed ++ (payloads ∷ []) })) [
        | inl (_, taken) ↦ rw taken (refl, refl, inr (payloads, refl))
        | inr fresh ↦
            rw fresh (refl, (row, (h _).0, refl, refl, refl, refl, refl), (payloads, (h _).1))
      ]

  -- A plain order, with or without a limit: where the call answers, it answers the id of the
  -- request, exactly one order was stored, as `submitted`, for the request, and one request went
  -- to the gateway; where it raises, the orders and the brackets are as before, and at most one
  -- request went out.
  pub place_order-Stores :
      (gw : Gateway D) (now : ℕ) (req : OrderRequest D) (s : Broker D)
      → Stores req s (place_order gw now req s)
  unfolding place_order
  place_order-Stores gw now req s = go gw.connected (gw.get_conid req.symbol) gw.account_id
    where
      go :
          (connected : Bool) (conid : Result ℕ) (account : Result String)
          → Stores req s (
              (do
                raise_if (not connected) broker_disconnected
                c ← lift conid
                a ← lift account
                results ← send_orders gw (plain_payload req c a ∷ [])
                insert_order (order_row req (stored_limit req.limit_price) (reply_id results 0) now)
                pure req.order_id)
                s)
      go false conid account = (refl, refl, inl refl)
      go true (err e) account = (refl, refl, inl refl)
      go true (ok c) (err e) = (refl, refl, inl refl)
      go true (ok c) (ok a) = elim (Result-cases (gw.place_orders (plain_payload req c a ∷ []))) [
        | inl (e, failed) ↦ rw failed (refl, refl, inr (plain_payload req c a ∷ [], refl))
        | inr (results, answer) ↦ rw answer (
            inserted req (stored_limit req.limit_price) (reply_id results 0) now
              (plain_payload req c a ∷ []) s (λ t. t) (λ t. (refl, refl)))
      ]

  -- A bracket order, with any of its prices: where the call answers, it answers the id of the
  -- request, exactly one order was stored, as `submitted`, for the request, and one request went
  -- to the gateway; where it raises, the orders and the brackets are as before, and at most one
  -- request went out.
  pub place_bracket_order-Stores :
      (gw : Gateway D) (now coid : ℕ) (req : OrderRequest D) (stop profit : Option D) (s : Broker D)
      → Stores req s (place_bracket_order gw now coid req stop profit s)
  unfolding place_bracket_order
  place_bracket_order-Stores gw now coid req stop profit s =
      go gw.connected (gw.get_conid req.symbol) gw.account_id
    where
      go :
          (connected : Bool) (conid : Result ℕ) (account : Result String)
          → Stores req s (
              (do
                raise_if (not connected) broker_disconnected
                c ← lift conid
                a ← lift account
                results ← send_orders gw (bracket_legs req c a coid stop profit)
                insert_order (order_row req none (reply_id results 0) now)
                modify (insert_bracket (bracket_row req stop profit results now))
                pure req.order_id)
                s)
      go false conid account = (refl, refl, inl refl)
      go true (err e) account = (refl, refl, inl refl)
      go true (ok c) (err e) = (refl, refl, inl refl)
      go true (ok c) (ok a) =
          let legs = bracket_legs req c a coid stop profit in
          elim (Result-cases (gw.place_orders legs)) [
            | inl (e, failed) ↦ rw failed (refl, refl, inr (legs, refl))
            | inr (results, answer) ↦ rw answer (
                inserted req none (reply_id results 0) now legs s
                  (insert_bracket (bracket_row req stop profit results now)) (λ t. (refl, refl)))
          ]

  -- With a connected gateway that knows the symbol and accepts the order, an order whose id the
  -- table already has is sent and then refused by the database: the gateway has the order, and
  -- no row records it.
  pub duplicate_order_sent :
      (gw : Gateway D) (now : ℕ) (req : OrderRequest D) (s : Broker D) (conid : ℕ)
      (account : String) (results : List Reply)
      → gw.connected ≡ true
      → gw.get_conid req.symbol ≡ ok conid
      → gw.account_id ≡ ok account
      → gw.place_orders (plain_payload req conid account ∷ []) ≡ ok results
      → find_first (has_order_id req.order_id) s.orders ≢ none
      → place_order gw now req s ≡ (
        err database,
        record s { placed = s.placed ++ ((plain_payload req conid account ∷ []) ∷ []) },
      )
  unfolding place_order
  duplicate_order_sent gw now req s conid account results up known named answer taken = ground arith
