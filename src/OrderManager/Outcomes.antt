-- ===== src/OrderManager/Outcomes.antt =====
-- src/polara/order_manager/manager.py: what one call of `process_signal` has done, by its answer.
use polara_quant.Base.{
  ◌≡◌, refl, Bool, true, false, List, [], ◌∷◌, ◌++◌, Option, none, some, ℕ, if◌then◌else◌, inl, inr,
  ap, sym, ◌⊎◌,
}
use polara_quant.Base.Effects.{
  Error, Result, ok, err, risk_violation, broker_disconnected, value_error, key_error, promotion,
  gateway, database, arithmetic, index_error, assertion, cp_auth, and_then, pure, modify, ◌>>◌,
  Result-cases,
}
use polara_quant.Decimal.{Decimal, zero_d}
use polara_quant.Schemas.{
  Signal, AccountInfo, Position, OrderRequest, order_request, order_request-eq-ok, submitted, buy,
  sell,
}
use polara_quant.Promotion.{get_status, is_live}
use polara_quant.Broker.{Order, Payload}
use polara_quant.Broker.Orders.Brackets.{Stores, place_order-Stores, place_bracket_order-Stores}
use polara_quant.OrderManager.{
  OrderManager, Surroundings, SignalOrder, run_checks, submit, place, size_and_place,
  process_signal, after_checks, order_for, log_order, log_row, add_pending, compute_exit_prices,
  compute_delta, compute_quantity,
}
use polara_quant.OrderManager.Process.{
  KeepsOrders, IsQuiet, OnOk, IsUnhalted, Ensures, run_checks-Ensures,
}

module _ {D : Type 0} ⦃d : Decimal D⦄ where
  -- One order for the signal, of a quantity that is not below the smallest one, and one request.
  abbrev pub HasOrdered : Signal D → ℕ → OrderManager D → OrderManager D → Type 0
  HasOrdered signal id m t =
      (row : Order D) × (t.broker.orders ≡ m.broker.orders ++ (row ∷ []))
      × ((row.order_id ≡ id)
          × (row.symbol ≡ signal.symbol)
          × (row.side ≡ (if d.lt zero_d signal.strength then buy else sell))
          × (row.status ≡ submitted)
          × (d.lt row.quantity m.min_order_quantity ≡ false))
      × ((payloads : List (Payload D)) × (t.broker.placed ≡ m.broker.placed ++ (payloads ∷ [])))

  -- One row for the signal and the order.
  abbrev pub HasLogged : Signal D → ℕ → OrderManager D → OrderManager D → Type 0
  HasLogged signal id m t =
      (log : SignalOrder D) × (t.signal_orders ≡ m.signal_orders ++ (log ∷ []))
      × (log.order_id ≡ id)
      × (log.signal_id ≡ signal.signal_id)

  abbrev pub KeepsTables : OrderManager D → OrderManager D → Type 0
  KeepsTables m t =
      (t.broker.orders ≡ m.broker.orders)
      × (t.broker.bracket_orders ≡ m.broker.bracket_orders)
      × (t.signal_orders ≡ m.signal_orders)

  -- The order is at the broker, and the log does not have it.
  abbrev pub Unlogged : Surroundings D → Signal D → Error → OrderManager D → OrderManager D → Type 0
  Unlogged w signal e m t =
      (w.log_answer ≡ err e)
      × HasOrdered signal w.order_id m t
      × (t.signal_orders ≡ m.signal_orders)

  abbrev pub Sized :
      Surroundings D → Signal D → OrderManager D → Result (Option ℕ) × OrderManager D → Type 0
  Sized w signal m (ok (some id), t) =
      (t.guard ≡ m.guard) × HasOrdered signal id m t × HasLogged signal id m t
  Sized w signal m (ok none, t) = t ≡ m
  Sized w signal m (err e, t) = KeepsTables m t ⊎ Unlogged w signal e m t

  submit-Stores :
      (w : Surroundings D) (req : OrderRequest D) (prices : Option D × Option D)
      (m : OrderManager D)
      → let (r, t) = submit w req prices m in
        Stores req m.broker (r, t.broker) × (t ≡ record m { broker = t.broker })
  unfolding submit
  submit-Stores w req (none, none) m = (place_order-Stores w.gateway w.placed_at req m.broker, refl)
  submit-Stores w req (none, some b) m =
      (place_bracket_order-Stores w.gateway w.placed_at w.coid req none (some b) m.broker, refl)
  submit-Stores w req (some a, none) m =
      (place_bracket_order-Stores w.gateway w.placed_at w.coid req (some a) none m.broker, refl)
  submit-Stores w req (some a, some b) m =
      (place_bracket_order-Stores w.gateway w.placed_at w.coid req (some a) (some b) m.broker, refl)

  -- The part of `place` after the order was submitted.
  logged :
      (w : Surroundings D) (signal : Signal D) (delta : D) (m : OrderManager D)
      → d.lt delta m.min_order_quantity ≡ false
      → (req : OrderRequest D) → req ≡ order_for w signal delta
      → (rt : Result ℕ × OrderManager D)
      → Stores req m.broker (rt.0, rt.1.broker) × (rt.1 ≡ record m { broker = rt.1.broker })
      → Sized w signal m (
          and_then rt.0
            (λ id. (do
              log_order w.log_answer (log_row w signal req (compute_exit_prices signal req.side))
              modify (add_pending signal.symbol delta)
              pure (some id)))
            rt.1)
  logged w signal delta m big req q (err e, t) ((a, b, c), same) = inl (a, b, cc)
  logged w signal delta m big req q (ok id, t) ((x, (row, stored, i, s, v, n, u), sent), same) =
      let symbol : req.symbol ≡ signal.symbol = ap (λ r. r.symbol) q in
      let side : req.side ≡ (if d.lt zero_d signal.strength then buy else sell) =
        ap (λ r. r.side) q in
      let quantity : req.quantity ≡ delta = ap (λ r. r.quantity) q in
      let number : req.order_id ≡ w.order_id = ap (λ r. r.order_id) q in
      let logs : t.signal_orders ≡ m.signal_orders = ap (λ m. m.signal_orders) same in
      elim (Result-cases w.log_answer) [
        | inl (e, fails) ↦ rw fails (inr (refl, (row, stored, (cc, cc, cc, u, cc), sent), logs))
        | inr (done, answers) ↦ rw answers (
          ap (λ m. m.guard) same,
          (row, stored, (cc, cc, cc, u, cc), sent),
          (
            log_row w signal req (compute_exit_prices signal req.side),
            ap (λ rows. rows ++ (log_row w signal req (compute_exit_prices signal req.side) ∷ []))
                logs,
            sym x,
            refl,
          ),
        )
      ]

  place-Sized :
      (w : Surroundings D) (signal : Signal D) (delta : D) (m : OrderManager D)
      → d.lt delta m.min_order_quantity ≡ false
      → Sized w signal m (place w signal delta m)
  unfolding place
  place-Sized w signal delta m big =
      elim (Result-cases (order_request (order_for w signal delta))) [
        | inl (e, refused) ↦ rw refused (inl (refl, refl, refl))
        | inr (req, valid) ↦ rw valid (
            logged w signal delta m big req
              (order_request-eq-ok (order_for w signal delta) req valid)
              (submit w req (compute_exit_prices signal req.side) m)
              (submit-Stores w req (compute_exit_prices signal req.side) m))
      ]

  size_and_place-Sized :
      (w : Surroundings D) (signal : Signal D) (checked : AccountInfo D × List (Position D))
      (m : OrderManager D)
      → Sized w signal m (size_and_place w signal checked m)
  unfolding size_and_place
  size_and_place-Sized w signal (account, positions) m = go (compute_quantity m signal account)
    where
      sized :
          (delta : D) (small : Bool)
          → d.lt delta m.min_order_quantity ≡ small
          → Sized w signal m (if small then (ok none, m) else place w signal delta m)
      sized delta true q = refl
      sized delta false q = place-Sized w signal delta m q

      go :
          (quantity : Option D)
          → Sized w signal m (elim quantity [
            | none ↦ (ok none, m)
            | some target ↦
                let delta = compute_delta m.pending signal.symbol target positions in
                if d.lt delta m.min_order_quantity then (ok none, m) else place w signal delta m
          ])
      go none = refl
      go (some target) =
          sized (compute_delta m.pending signal.symbol target positions)
            (d.lt (compute_delta m.pending signal.symbol target positions) m.min_order_quantity)
            refl

  -- What is claimed of the answers of `process_signal`.
  abbrev pub HasOutcome :
      Surroundings D → Signal D → OrderManager D → Result (Option ℕ) × OrderManager D → Type 0
  HasOutcome w signal m (ok (some id), t) =
      (is_live (get_status signal.strategy_id m.strategies) ≡ true)
      × (t.guard.halted ≡ false)
      × HasOrdered signal id m t
      × HasLogged signal id m t
  HasOutcome w signal m (ok none, t) =
      KeepsOrders m.broker t.broker × (t.signal_orders ≡ m.signal_orders)
  HasOutcome w signal m (err e, t) = KeepsTables m t ⊎ Unlogged w signal e m t

  -- What was ordered since the checks was ordered since the call.
  HasOrdered-quiet :
      (signal : Signal D) (id : ℕ) (m t u : OrderManager D)
      → IsQuiet m t
      → HasOrdered signal id t u
      → HasOrdered signal id m u
  HasOrdered-quiet signal id m t u ((o, b, p), l, st, mn)
        (row, stored, (i, y, v, a, big), (ps, sent)) =
      (row, cc, (i, y, v, a, cc), (ps, cc))

  after_sizing :
      (w : Surroundings D) (signal : Signal D) (m t : OrderManager D)
      → is_live (get_status signal.strategy_id m.strategies) ≡ true
      → IsQuiet m t
      → t.guard.halted ≡ false
      → (ru : Result (Option ℕ) × OrderManager D) → Sized w signal t ru
      → HasOutcome w signal m ru
  after_sizing w signal m t live quiet free (ok (some id), u) (g, ordered, (log, added, i, n)) =
      let (_, l, _, _) = quiet in
      (live, cc, HasOrdered-quiet signal id m t u quiet ordered, (log, cc, i, n))
  after_sizing w signal m t live ((o, b, p), l, st, mn) free (ok none, u) same = ((cc, cc, cc), cc)
  after_sizing w signal m t live ((o, b, p), l, st, mn) free (err e, u) (inl (a, c, k)) =
      inl (cc, cc, cc)
  after_sizing w signal m t live quiet free (err e, u) (inr (fails, ordered, k)) =
      let (_, l, _, _) = quiet in
      inr (fails, HasOrdered-quiet signal w.order_id m t u quiet ordered, cc)

  after_checks-HasOutcome :
      (w : Surroundings D) (signal : Signal D) (m : OrderManager D)
      → is_live (get_status signal.strategy_id m.strategies) ≡ true
      → (rt : Result (AccountInfo D × List (Position D)) × OrderManager D) → IsQuiet m rt.1
      → OnOk IsUnhalted rt
      → HasOutcome w signal m (after_checks w signal rt)
  after_checks-HasOutcome w signal m live (ok checked, t) quiet free =
      after_sizing w signal m t live quiet free (size_and_place w signal checked t)
        (size_and_place-Sized w signal checked t)
  after_checks-HasOutcome w signal m live (err risk_violation, t) ((o, b, p), l, _, _) _ =
      ((o, b, p), l)
  after_checks-HasOutcome w signal m live (err broker_disconnected, t) ((o, b, p), l, _, _) _ =
      inl (o, b, l)
  after_checks-HasOutcome w signal m live (err value_error, t) ((o, b, p), l, _, _) _ =
      inl (o, b, l)
  after_checks-HasOutcome w signal m live (err key_error, t) ((o, b, p), l, _, _) _ = inl (o, b, l)
  after_checks-HasOutcome w signal m live (err promotion, t) ((o, b, p), l, _, _) _ = inl (o, b, l)
  after_checks-HasOutcome w signal m live (err gateway, t) ((o, b, p), l, _, _) _ = inl (o, b, l)
  after_checks-HasOutcome w signal m live (err database, t) ((o, b, p), l, _, _) _ = inl (o, b, l)
  after_checks-HasOutcome w signal m live (err arithmetic, t) ((o, b, p), l, _, _) _ = inl (o, b, l)
  after_checks-HasOutcome w signal m live (err index_error, t) ((o, b, p), l, _, _) _ =
      inl (o, b, l)
  after_checks-HasOutcome w signal m live (err assertion, t) ((o, b, p), l, _, _) _ = inl (o, b, l)
  after_checks-HasOutcome w signal m live (err cp_auth, t) ((o, b, p), l, _, _) _ = inl (o, b, l)

  -- For every signal, manager and surroundings: where `process_signal` answers with an order id, the
  -- strategy was live, the guard is not halted, and exactly one order was added, under that id, as
  -- `submitted`, for the signal's symbol, on the side of its strength and of a quantity that is not below
  -- the minimum, with one row in the log of signals for it, and one request went to the gateway. Where it
  -- answers none, nothing was sent and neither the orders nor the log changed. Where it raises, either
  -- the orders, the brackets and the log are unchanged, or it raises what the insertion into the log
  -- has raised: then one such order is at the broker, and the log, which is unchanged, does not have it.
  pub process_signal-HasOutcome :
      (w : Surroundings D) (signal : Signal D) (m : OrderManager D)
      → HasOutcome w signal m (process_signal w signal m)
  unfolding process_signal Ensures
  process_signal-HasOutcome w signal m =
      go (is_live (get_status signal.strategy_id m.strategies)) refl
    where
      go :
          (live : Bool)
          → is_live (get_status signal.strategy_id m.strategies) ≡ live
          → HasOutcome w signal m
              (if live then after_checks w signal (run_checks w signal m) else (ok none, m))
      go false q = ((refl, refl, refl), refl)
      go true q =
          let checks = run_checks-Ensures w signal m in
          after_checks-HasOutcome w signal m q (run_checks w signal m) checks.0 checks.1
