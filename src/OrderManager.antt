-- ===== src/OrderManager.antt =====
-- src/polara/order_manager/manager.py: from a signal to an order, through the risk checks.
pub mod Pending
pub mod Exits
pub mod Process
pub mod Outcomes
use polara_quant.Base.{
  ℕ, String, Bool, true, false, Option, none, some, not, ◌&&◌, ◌||◌, List, [], ◌∷◌, ◌++◌, ◌==◌,
  string_eq, keep, if◌then◌else◌,
}
use polara_quant.Base.Dict.{Dict, get_or, insert}
use polara_quant.Base.Effects.{
  Action, Result, ok, err, Error, risk_violation, pure, lift, gets, modify, zoom, ◌>>=◌, ◌>>◌,
}
use polara_quant.Decimal.{Decimal, zero_d, abs, max_d, truthy, truthy?}
use polara_quant.Schemas.{
  Signal, AccountInfo, Position, OrderRequest, order_request, OrderSide, buy, sell, utc,
}
use polara_quant.RiskGuard
use polara_quant.RiskGuard.{RiskGuard, check_daily_loss, check_position_size}
use polara_quant.Promotion.{Tables, get_status, is_live}
use polara_quant.Broker.{Broker, Gateway}
use polara_quant.Broker.Account.{get_account, get_positions}
use polara_quant.Broker.Orders.{place_order, place_bracket_order}

-- A row of the signal_orders table.
pub record SignalOrder (D : Type 0) : Type 0 where
  pub signal_id : ℕ
  pub order_id : ℕ
  pub strategy_id : String
  pub symbol : String
  pub signal_strength : D
  pub stop_price : Option D
  pub take_profit_price : Option D
  pub created_at : ℕ

-- The manager with the components that it is given.
pub record OrderManager (D : Type 0) : Type 0 where
  pub broker : Broker D
  pub guard : RiskGuard D
  pub strategies : Tables
  pub signal_orders : List (SignalOrder D)
  pub min_order_quantity : D
  pub position_size_usd : Option D
  pub pending : Dict String D

-- What one call of `process_signal` finds outside: the gateway, the clock at each reading, and the
-- fresh identifiers. `log_answer` is what the insertion into signal_orders and its commit answer.
pub record Surroundings (D : Type 0) : Type 0 where
  pub gateway : Gateway D
  pub account_at : ℕ
  pub positions_at : ℕ
  pub loss_at : ℕ
  pub breach_at : ℕ
  pub size_at : ℕ
  pub requested_at : ℕ
  pub placed_at : ℕ
  pub logged_at : ℕ
  pub log_answer : Result (Unit {0})
  pub order_id : ℕ
  pub coid : ℕ

module _ {D : Type 0} ⦃d : Decimal D⦄ where
  abbrev pub on_broker : {A : Type 0} → Action (Broker D) A → Action (OrderManager D) A
  on_broker = zoom (λ m. m.broker) (λ b m. record m { broker = b })

  abbrev pub on_guard : {A : Type 0} → Action (RiskGuard D) A → Action (OrderManager D) A
  on_guard = zoom (λ m. m.guard) (λ g m. record m { guard = g })

  -- The value that an order is to have, at a reference price.
  unfoldable pub target_notional : OrderManager D → Signal D → AccountInfo D → D
  unfolding RiskGuard.max_position_pct
  target_notional m signal account = elim (truthy? m.position_size_usd) [
    | true ↦ elim m.position_size_usd [ none ↦ zero_d | some usd ↦ usd ]
    | false ↦
        d.mul
          (d.mul account.net_liquidation (d.div (RiskGuard.max_position_pct m.guard) (d.lit 100 0)))
          (abs signal.strength)
  ]

  abbrev pub quantity_at : OrderManager D → Signal D → AccountInfo D → Option D → D
  quantity_at m signal account none = d.lit 1 0
  quantity_at m signal account (some price) =
      if truthy price && d.lt zero_d price
      then d.round_down 2 (d.div (target_notional m signal account) price)
      else d.lit 1 0

  unfoldable pub compute_quantity : OrderManager D → Signal D → AccountInfo D → Option D
  unfolding target_notional
  compute_quantity m signal account =
      let quantity = quantity_at m signal account signal.reference_price in
      if d.lt quantity m.min_order_quantity then none else some quantity

  -- `{p.symbol: p.quantity for p in positions}`
  unfoldable pub held_by_symbol : List (Position D) → Dict String D → Dict String D
  held_by_symbol [] held = held
  held_by_symbol (p ∷ ps) held = held_by_symbol ps (insert p.symbol p.quantity held)

  -- The quantity held of a symbol.
  abbrev pub held_of : List (Position D) → String → D
  held_of positions symbol = get_or symbol zero_d (held_by_symbol positions [])

  unfoldable pub reconcile_pending : List (Position D) → Dict String D → Dict String D
  reconcile_pending positions = keep (λ entry. not (d.le entry.1 (held_of positions entry.0)))

  unfoldable pub compute_delta : Dict String D → String → D → List (Position D) → D
  compute_delta pending symbol quantity_target positions =
      max_d zero_d
        (d.sub (d.sub quantity_target (held_of positions symbol)) (get_or symbol zero_d pending))

  -- price × (1 - pct/100), rounded down, and price × (1 + pct/100), rounded up; none for a percentage
  -- that is not set or zero
  unfoldable pub price_below : D → Option D → Option D
  price_below price none = none
  price_below price (some pct) =
      if truthy pct
      then some (d.round_down 2 (d.mul price (d.sub (d.lit 1 0) (d.div pct (d.lit 100 0)))))
      else none

  unfoldable pub price_above : D → Option D → Option D
  price_above price none = none
  price_above price (some pct) =
      if truthy pct
      then some (d.round_up 2 (d.mul price (d.add (d.lit 1 0) (d.div pct (d.lit 100 0)))))
      else none

  abbrev pub exit_prices_at : Signal D → OrderSide → D → Option D × Option D
  exit_prices_at signal buy price =
      (price_below price signal.stop_loss_pct, price_above price signal.take_profit_pct)
  exit_prices_at signal sell price =
      (price_above price signal.stop_loss_pct, price_below price signal.take_profit_pct)

  unfoldable pub compute_exit_prices : Signal D → OrderSide → Option D × Option D
  unfolding price_below price_above
  compute_exit_prices signal side = elim signal.reference_price [
    | none ↦ (none, none)
    | some price ↦ exit_prices_at signal side price
  ]

  -- The `try` block: the account and the positions, if no risk check raises.
  unfoldable pub run_checks :
      Surroundings D → Signal D → Action (OrderManager D) (AccountInfo D × List (Position D))
  run_checks w signal = do
    account ← on_broker (get_account w.gateway w.account_at false)
    positions ← on_broker (get_positions w.gateway w.positions_at false)
    modify (λ m. record m { pending = reconcile_pending positions m.pending })
    on_guard (check_daily_loss w.loss_at w.breach_at account)
    on_guard (check_position_size w.size_at signal positions account)
    pure (account, positions)

  abbrev pub order_for : Surroundings D → Signal D → D → OrderRequest D
  order_for w signal delta = record {
    order_id = w.order_id;
    symbol = signal.symbol;
    side = if d.lt zero_d signal.strength then buy else sell;
    quantity = delta;
    limit_price = none;
    requested_at = utc w.requested_at;
    strategy_id = signal.strategy_id;
  }

  unfoldable pub submit :
      Surroundings D → OrderRequest D → Option D × Option D → Action (OrderManager D) ℕ
  submit w req (none, none) = on_broker (place_order w.gateway w.placed_at req)
  submit w req (stop, profit) =
      on_broker (place_bracket_order w.gateway w.placed_at w.coid req stop profit)

  abbrev pub log_row :
      Surroundings D → Signal D → OrderRequest D → Option D × Option D → SignalOrder D
  log_row w signal req prices = record {
    signal_id = signal.signal_id;
    order_id = req.order_id;
    strategy_id = signal.strategy_id;
    symbol = signal.symbol;
    signal_strength = signal.strength;
    stop_price = prices.0;
    take_profit_price = prices.1;
    created_at = w.logged_at;
  }

  -- `_INSERT_SIGNAL_ORDER` with its commit, after those of `place_order`. A failure leaves no row.
  abbrev pub log_order : Result (Unit {0}) → SignalOrder D → Action (OrderManager D) (Unit {0})
  log_order (ok done) row m = (ok tt, record m { signal_orders = m.signal_orders ++ (row ∷ []) })
  log_order (err e) row m = (err e, m)

  abbrev pub add_pending : String → D → OrderManager D → OrderManager D
  add_pending symbol delta m = record m {
    pending = insert symbol (d.add (get_or symbol zero_d m.pending) delta) m.pending;
  }

  -- The part of `process_signal` that places the order of a quantity.
  unfoldable pub place : Surroundings D → Signal D → D → Action (OrderManager D) (Option ℕ)
  unfolding submit
  place w signal delta = do
    req ← lift (order_request (order_for w signal delta))
    id ← submit w req (compute_exit_prices signal req.side)
    log_order w.log_answer (log_row w signal req (compute_exit_prices signal req.side))
    modify (add_pending signal.symbol delta)
    pure (some id)

  -- The part after the risk checks.
  unfoldable pub size_and_place :
      Surroundings D
      → Signal D
      → AccountInfo D × List (Position D)
      → Action (OrderManager D) (Option ℕ)
  size_and_place w signal (account, positions) m = elim (compute_quantity m signal account) [
    | none ↦ (ok none, m)
    | some target ↦
        let delta = compute_delta m.pending signal.symbol target positions in
        if d.lt delta m.min_order_quantity then (ok none, m) else place w signal delta m
  ]

  -- `except RiskViolationError: return None`
  abbrev pub after_checks :
      Surroundings D
      → Signal D
      → Result (AccountInfo D × List (Position D)) × OrderManager D
      → Result (Option ℕ) × OrderManager D
  after_checks w signal (ok checked, m) = size_and_place w signal checked m
  after_checks w signal (err risk_violation, m) = (ok none, m)
  after_checks w signal (err e, m) = (err e, m)

  unfoldable pub process_signal : Surroundings D → Signal D → Action (OrderManager D) (Option ℕ)
  process_signal w signal m =
      if is_live (get_status signal.strategy_id m.strategies)
      then after_checks w signal (run_checks w signal m)
      else (ok none, m)
