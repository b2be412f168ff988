-- ===== src/Schedulers/Cycles.antt =====
-- What a cycle of each scheduler does to the orders.
use polara_quant.Base.{
  ℕ, ◌≡◌, inl, inr, ◌∙◌, sym, true, Option, List, [], ◌∷◌, length, All, All-map, Any, if◌then◌else◌,
  arith,
}
use mathlib.Core.Path.{subst}
use polara_quant.Base.Effects.{Result, ok}
use polara_quant.Decimal.{Decimal, IsDecimal, zero_d}
use polara_quant.Schemas.{Signal, OrderSide, buy, sell}
use polara_quant.Broker.{Order}
use polara_quant.OrderManager.{OrderManager}
use polara_quant.Schedulers.{Registry, Turn, get_all, run_once, is_intraday, run_once_intraday}
use polara_quant.Schedulers.Confluence
use polara_quant.Schedulers.Confluence.{
  Bias, bullish, bearish, neutral, ConfluentScheduler, apply_bias_filter, filtered, compute_bias,
  evaluate_id, run_ids,
}
use polara_quant.Schedulers.Orders.{Adds, Submits-Adds}
use polara_quant.Schedulers.Submitting.{
  OnSignal, SpeaksForItself, OnSignal-map, Gives-Any, run_all-Submits, run_intraday-Submits,
  run_ids-Submits,
}
use polara_quant.Strategies.Signalling.{Answers, silent, signals}
use polara_quant.Strategies.Rules
use polara_quant.Strategies.Rules.{Rule, on_bars-Answers}

-- A strategy with the symbol of an order, and a strategy like that among those that are evaluated within
-- the day.
abbrev pub HasStrategy : {D : Type 0} → Registry D → Order D → Type 0
HasStrategy registry row = Any (λ s. row.symbol ≡ s.symbol) (get_all registry)

abbrev pub HasIntradayStrategy : {D : Type 0} → Registry D → Order D → Type 0
HasIntradayStrategy registry row =
    Any (λ s. (row.symbol ≡ s.symbol) × (is_intraday s ≡ true)) (get_all registry)

Any-map :
    {A : Type 0} (P Q : A → Type 0) (xs : List A) → ((x : A) → P x → Q x) → Any P xs → Any Q xs
Any-map P Q (x ∷ xs) f (inl p) = inl (f x p)
Any-map P Q (x ∷ xs) f (inr h) = inr (Any-map P Q xs f h)
Any-map P Q [] f h = elim h [ ]

-- The side that a bias allows.
abbrev pub OnSide : Bias → OrderSide → Type 0
OnSide bullish side = side ≡ buy
OnSide bearish side = side ≡ sell
OnSide neutral side = Unit

Adds-weaken :
    {D : Type 0} ⦃d : Decimal D⦄ (P Q : Order D → Type 0) (n : ℕ) (a b : List (Order D))
    → ((row : Order D) → P row → Q row)
    → Adds P n a b
    → Adds Q n a b
Adds-weaken P Q n a b f (rows, p, l, ps) = (rows, p, l, All-map f rows ps)

module _ {D : Type 0} ⦃d : Decimal D⦄ (now : ℕ) (turns : ℕ → Turn D) (m : OrderManager D) where
  -- Where every registered strategy signals for its own symbol only, a cycle of the scheduler leaves the
  -- stored orders as they are and adds at most one for each registered strategy, each for the symbol of
  -- one of them, whatever the market data, the broker and the strategies raise.
  pub run_once-Adds :
      (registry : Registry D)
      → All SpeaksForItself (get_all registry)
      → Adds
          (HasStrategy registry)
          (length (get_all registry))
          m.broker.orders
          (run_once now turns registry m).broker.orders
  unfolding run_once
  run_once-Adds registry own =
      let strategies = get_all registry in
      let gives =
        Gives-Any (λ _. Unit {0}) (λ s signal. signal.symbol ≡ s.symbol) strategies
          (All-map (λ s h _. h) strategies own) in
      Adds-weaken _ _ _ _ _
        (λ row o. let (signal, a, y, side) = o in Any-map _ _ strategies (λ s e. y ∙ e) a)
        (Submits-Adds _
          (run_all-Submits _ now turns 0 strategies m (All-map (λ s h. h tt) strategies gives)))

  -- A cycle of the intraday scheduler, likewise: at most one order for each registered strategy, and each
  -- one for the symbol of a strategy whose bars are of 15 or 30 minutes.
  pub run_once_intraday-Adds :
      (registry : Registry D)
      → All SpeaksForItself (get_all registry)
      → Adds
          (HasIntradayStrategy registry)
          (length (get_all registry))
          m.broker.orders
          (run_once_intraday now turns registry m).broker.orders
  unfolding run_once_intraday
  run_once_intraday-Adds registry own =
      let strategies = get_all registry in
      let gives =
        Gives-Any (λ s. is_intraday s ≡ true)
          (λ s signal. (signal.symbol ≡ s.symbol) × (is_intraday s ≡ true)) strategies
          (All-map
            (λ s h k stamp bars.
              OnSignal-map (λ signal. signal.symbol ≡ s.symbol)
                (λ signal. (signal.symbol ≡ s.symbol) × (is_intraday s ≡ true))
                (s.on_bars stamp bars) (λ signal e. (e, k)) (h stamp bars))
            strategies own) in
      Adds-weaken _ _ _ _ _
        (λ row o. let (signal, a, y, side) = o in Any-map _ _ strategies (λ s e. (y ∙ e.0, e.1)) a)
        (Submits-Adds _ (run_intraday-Submits _ now turns 0 strategies m gives))

module _ {D : Type 0} ⦃d : Decimal D⦄ (laws : IsDecimal D) where
  abbrev side_of : Signal D → OrderSide
  side_of signal = if d.lt zero_d signal.strength then buy else sell

  filter-OnSide :
      (signal : Signal D) (bias : Bias)
      → OnSignal (λ s. OnSide bias (side_of s)) (ok (apply_bias_filter signal bias))
  unfolding apply_bias_filter
  filter-OnSide signal bullish = ground (arith, laws.lt-eq-not-le zero_d signal.strength)
  filter-OnSide signal bearish =
      ground (arith, laws.lt-eq-not-le zero_d signal.strength, laws.le_total zero_d signal.strength)
  filter-OnSide signal neutral = tt

  -- A cycle of the confluent scheduler adds at most one order for each intraday id, and leaves the
  -- others as they are: only orders to buy where the long-term bias is bullish, and only orders to sell
  -- where it is bearish.
  pub run_once-OnSide :
      (c : ConfluentScheduler D) (bias_now : ℕ) (bias_turns : ℕ → Turn D) (now : ℕ)
      (turns : ℕ → Turn D) (m : OrderManager D)
      → Adds
          (λ row. OnSide (compute_bias c bias_now bias_turns) row.side)
          (length c.intraday_ids)
          m.broker.orders
          (Confluence.run_once c bias_now bias_turns now turns m).broker.orders
  unfolding Confluence.run_once
  run_once-OnSide c bias_now bias_turns now turns m =
      let bias = compute_bias c bias_now bias_turns in
      Adds-weaken _ _ _ _ _
        (λ row o. let (signal, a, y, side) = o in subst (OnSide bias) (sym side) a)
        (Submits-Adds _ (
          run_ids-Submits _ c.registry bias now turns 0 c.intraday_ids m
            (λ signal. filter-OnSide signal bias)))

  -- The strategies of the package that do not look at the sessions do signal for their own symbol only.
  pub Rule-SpeaksForItself :
      (root : D → D) (r : Rule D) (size_multiplier : D)
      → SpeaksForItself (Rules.strategy root r size_multiplier)
  Rule-SpeaksForItself root r size_multiplier stamp bars =
      go (on_bars-Answers laws root stamp bars r)
    where
      go :
          {price : D} {needed have : ℕ} {answer : Result (Option (Signal D))}
          → Answers (Rules.sleeve_of r) stamp price needed have answer
          → OnSignal (λ signal. signal.symbol ≡ (Rules.sleeve_of r).symbol) answer
      go silent = tt
      go (signals s enough (i, n, symbol, t, p, u)) = symbol
