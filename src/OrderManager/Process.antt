-- ===== src/OrderManager/Process.antt =====
-- src/polara/order_manager/manager.py, the `try` block of `process_signal`: what the checks leave
-- alone, and what they have established when none raised.
use polara_quant.Base.{
  String, ◌≡◌, refl, Bool, true, false, List, Option, none, some, arith, not, ℕ, ◌∙◌,
}
use polara_quant.Base.Effects.{
  Action, Result, ok, err, and_then, pure, lift, modify, raise_if, ◌>>=◌, ◌>>◌, broker_disconnected,
}
use polara_quant.Decimal.{Decimal}
use polara_quant.Schemas.{Signal, AccountInfo, Position}
use polara_quant.RiskGuard.{RiskGuard, check_daily_loss, check_position_size, raise_if_halted}
use polara_quant.Broker.{Broker, Gateway, RawPosition}
use polara_quant.Broker.Account.{
  get_account, get_positions, fetch_account, store_account, account_info, held_positions, cached,
}
use polara_quant.OrderManager.{
  OrderManager, Surroundings, run_checks, on_broker, on_guard, reconcile_pending,
}

module _ {D : Type 0} ⦃d : Decimal D⦄ where
  -- The broker's orders, and what it sent to the gateway.
  abbrev pub KeepsOrders : Broker D → Broker D → Type 0
  KeepsOrders s t =
      (t.orders ≡ s.orders) × (t.bracket_orders ≡ s.bracket_orders) × (t.placed ≡ s.placed)

  abbrev pub IsQuiet : OrderManager D → OrderManager D → Type 0
  IsQuiet m t =
      KeepsOrders m.broker t.broker
      × (t.signal_orders ≡ m.signal_orders)
      × (t.strategies ≡ m.strategies)
      × (t.min_order_quantity ≡ m.min_order_quantity)

  IsQuiet-trans : (m t u : OrderManager D) → IsQuiet m t → IsQuiet t u → IsQuiet m u
  IsQuiet-trans m t u ((a, b, c), e, f, g) ((a1, b1, c1), e1, f1, g1) =
      ((a1 ∙ a, b1 ∙ b, c1 ∙ c), e1 ∙ e, f1 ∙ f, g1 ∙ g)

  -- A call that is quiet, and that establishes `Q` when it does not raise.
  abbrev pub OnOk : {A : Type 0} → (OrderManager D → Type 0) → Result A × OrderManager D → Type 0
  OnOk Q (ok a, t) = Q t
  OnOk Q (err e, t) = Unit {0}

  unfoldable pub Ensures :
      {A : Type 0} → (OrderManager D → Type 0) → Action (OrderManager D) A → Type 0
  Ensures Q act = (m : OrderManager D) → IsQuiet m (act m).1 × OnOk Q (act m)

  abbrev Anything : OrderManager D → Type 0
  Anything _ = Unit {0}

  anything : {A : Type 0} (rt : Result A × OrderManager D) → OnOk Anything rt
  anything (ok a, t) = tt
  anything (err e, t) = tt

  Ensures->>= :
      {A B : Type 0} (Q : OrderManager D → Type 0) (act : Action (OrderManager D) A)
      (k : A → Action (OrderManager D) B)
      → Ensures Anything act
      → ((a : A) → Ensures Q (k a))
      → Ensures Q (act >>= k)
  unfolding Ensures
  Ensures->>= {A = A} Q act k p q m = go (act m) (p m).0
    where
      go :
          (rt : Result A × OrderManager D)
          → IsQuiet m rt.1
          → IsQuiet m (and_then rt.0 k rt.1).1 × OnOk Q (and_then rt.0 k rt.1)
      go (ok a, t) h = (IsQuiet-trans m t (k a t).1 h (q a t).0, (q a t).1)
      go (err e, t) h = (h, tt)

  Ensures->> :
      {A B : Type 0} (Q : OrderManager D → Type 0) (act : Action (OrderManager D) A)
      (k : Action (OrderManager D) B)
      → Ensures Anything act
      → Ensures Q k
      → Ensures Q (act >> k)
  Ensures->> Q act k p q = Ensures->>= Q act (λ _. k) p (λ _. q)

  Ensures->>-pure :
      {A B : Type 0} (Q : OrderManager D → Type 0) (act : Action (OrderManager D) A) (b : B)
      → Ensures Q act
      → Ensures Q (act >> pure b)
  unfolding Ensures
  Ensures->>-pure {A = A} Q act b p m = go (act m) (p m)
    where
      go :
          (rt : Result A × OrderManager D)
          → IsQuiet m rt.1 × OnOk Q rt
          → IsQuiet m (and_then rt.0 (λ _. pure b) rt.1).1
            × OnOk Q (and_then rt.0 (λ _. pure b) rt.1)
      go (ok a, t) h = h
      go (err e, t) h = h

  get_account-KeepsOrders :
      (gw : Gateway D) (now : ℕ) (force : Bool) (s : Broker D)
      → KeepsOrders s (get_account gw now force s).1
  unfolding get_account fetch_account
  get_account-KeepsOrders gw now force s =
      go gw.connected gw.account_summary (cached force now s.account_cache)
    where
      go :
          (connected : Bool) (summary : Result (String → Option D)) (found : Option (AccountInfo D))
          → KeepsOrders s
              (and_then
                (ok found)
                (λ f. elim f [
                  | some account ↦ pure account
                  | none ↦ do
                    raise_if (not connected) broker_disconnected
                    a ← lift summary
                    modify (store_account now (account_info now a))
                    pure (account_info now a)
                ])
                s).1
      go connected summary (some account) = (refl, refl, refl)
      go false summary none = (refl, refl, refl)
      go true (err e) none = (refl, refl, refl)
      go true (ok a) none = (refl, refl, refl)

  get_positions-KeepsOrders :
      (gw : Gateway D) (now : ℕ) (s : Broker D) → KeepsOrders s (get_positions gw now false s).1
  unfolding get_positions
  get_positions-KeepsOrders gw now s = go gw.connected gw.positions
    where
      go :
          (connected : Bool) (rows : Result (List (RawPosition D)))
          → KeepsOrders s
              ((do
                raise_if (not connected) broker_disconnected
                ps ← lift rows
                modify (λ s. s)
                pure (held_positions now ps))
                s).1
      go false rows = (refl, refl, refl)
      go true (err e) = (refl, refl, refl)
      go true (ok ps) = (refl, refl, refl)

  on_broker-Ensures :
      {A : Type 0} (act : Action (Broker D) A)
      → ((s : Broker D) → KeepsOrders s (act s).1)
      → Ensures Anything (on_broker act)
  unfolding Ensures
  on_broker-Ensures act h m = ((h m.broker, refl, refl, refl), anything (on_broker act m))

  on_guard-Ensures : {A : Type 0} (act : Action (RiskGuard D) A) → Ensures Anything (on_guard act)
  unfolding Ensures
  on_guard-Ensures act m = (((refl, refl, refl), refl, refl, refl), anything (on_guard act m))

  -- A position size that passes was checked by a guard that is not halted.
  passes_open :
      (now : ℕ) (signal : Signal D) (positions : List (Position D)) (account : AccountInfo D)
      (g : RiskGuard D)
      → let (r, t) = check_position_size now signal positions account g in
        (r ≡ ok tt) → t.halted ≡ false
  unfolding check_position_size raise_if_halted
  passes_open now signal positions account g h = ground arith

  check_position_size-opens :
      (now : ℕ) (signal : Signal D) (positions : List (Position D)) (account : AccountInfo D)
      → Ensures
          (λ m. m.guard.halted ≡ false)
          (on_guard (check_position_size now signal positions account))
  unfolding Ensures
  check_position_size-opens now signal positions account m = (
    ((refl, refl, refl), refl, refl, refl),
    go (check_position_size now signal positions account m.guard)
        (passes_open now signal positions account m.guard),
  )
    where
      go :
          (rt : Result (Unit {0}) × RiskGuard D)
          → (rt.0 ≡ ok tt → rt.1.halted ≡ false)
          → OnOk (λ m. m.guard.halted ≡ false) (rt.0, record m { guard = rt.1 })
      go (ok tt, t) h = h refl
      go (err e, t) h = tt

  abbrev two_checks :
      Surroundings D
      → Signal D
      → AccountInfo D
      → List (Position D)
      → Action (OrderManager D) (AccountInfo D × List (Position D))
  two_checks w signal account positions = do
    on_guard (check_daily_loss w.loss_at w.breach_at account)
    on_guard (check_position_size w.size_at signal positions account)
    pure (account, positions)

  abbrev after_positions :
      Surroundings D
      → Signal D
      → AccountInfo D
      → List (Position D)
      → Action (OrderManager D) (AccountInfo D × List (Position D))
  after_positions w signal account positions = do
    modify (λ m. record m { pending = reconcile_pending positions m.pending })
    two_checks w signal account positions

  abbrev after_account :
      Surroundings D
      → Signal D
      → AccountInfo D
      → Action (OrderManager D) (AccountInfo D × List (Position D))
  after_account w signal account = do
    positions ← on_broker (get_positions w.gateway w.positions_at false)
    after_positions w signal account positions

  abbrev pub IsUnhalted : OrderManager D → Type 0
  IsUnhalted m = m.guard.halted ≡ false

  two_checks-Ensures :
      (w : Surroundings D) (signal : Signal D) (account : AccountInfo D)
      (positions : List (Position D))
      → Ensures IsUnhalted (two_checks w signal account positions)
  two_checks-Ensures w signal account positions =
      Ensures->> IsUnhalted (on_guard (check_daily_loss w.loss_at w.breach_at account))
        (◌>>◌ (on_guard (check_position_size w.size_at signal positions account))
          (pure (account, positions)))
        (on_guard-Ensures (check_daily_loss w.loss_at w.breach_at account))
        (Ensures->>-pure IsUnhalted
          (on_guard (check_position_size w.size_at signal positions account)) (account, positions)
          (check_position_size-opens w.size_at signal positions account))

  reconcile-Ensures :
      (positions : List (Position D))
      → Ensures Anything
          (modify (λ m. record m { pending = reconcile_pending positions m.pending }))
  unfolding Ensures
  reconcile-Ensures positions m = (((refl, refl, refl), refl, refl, refl), tt)

  after_positions-Ensures :
      (w : Surroundings D) (signal : Signal D) (account : AccountInfo D)
      (positions : List (Position D))
      → Ensures IsUnhalted (after_positions w signal account positions)
  after_positions-Ensures w signal account positions =
      Ensures->> IsUnhalted
        (modify (λ m. record m { pending = reconcile_pending positions m.pending }))
        (two_checks w signal account positions) (reconcile-Ensures positions)
        (two_checks-Ensures w signal account positions)

  after_account-Ensures :
      (w : Surroundings D) (signal : Signal D) (account : AccountInfo D)
      → Ensures IsUnhalted (after_account w signal account)
  after_account-Ensures w signal account =
      Ensures->>= IsUnhalted (on_broker (get_positions w.gateway w.positions_at false))
        (after_positions w signal account)
        (on_broker-Ensures (get_positions w.gateway w.positions_at false)
          (get_positions-KeepsOrders w.gateway w.positions_at))
        (after_positions-Ensures w signal account)

  -- The checks send nothing and store no order, and when they pass the guard is not halted.
  pub run_checks-Ensures :
      (w : Surroundings D) (signal : Signal D) → Ensures IsUnhalted (run_checks w signal)
  unfolding run_checks
  run_checks-Ensures w signal =
      Ensures->>= IsUnhalted (on_broker (get_account w.gateway w.account_at false))
        (after_account w signal)
        (on_broker-Ensures (get_account w.gateway w.account_at false)
          (get_account-KeepsOrders w.gateway w.account_at false))
        (after_account-Ensures w signal)
