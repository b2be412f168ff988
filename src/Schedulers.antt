-- ===== src/Schedulers.antt =====
-- src/polara/research_engine/registry.py, scheduler.py, intraday_scheduler.py and constants.py: one cycle of
-- a scheduler over the registered strategies. The loop around it only sleeps.
pub mod Confluence
pub mod Orders
pub mod Submitting
pub mod Cycles
use polara_quant.Base.{
  ℕ, suc, ◌+◌, ◌*◌, String, Bool, ◌||◌, Option, none, some, List, [], ◌∷◌, map, ltb, last_or,
  string_eq, ◌==◌, if◌then◌else◌,
}
use polara_quant.Base.Dict.{Dict, lookup, insert}
use polara_quant.Base.Effects.{Result, ok, err, value_error, key_error}
use polara_quant.Base.Results.{◌>>=◌}
use polara_quant.Decimal.{Decimal}
use polara_quant.Schemas.{Signal, Bar, second}
use polara_quant.Strategies.{Stamp, Strategy}
use polara_quant.OrderManager.{OrderManager, Surroundings, process_signal}

abbrev pub Registry : Type 0 → Type 0
Registry D = Dict String (Strategy D)

module _ {D : Type 0} where
  unfoldable pub register : Strategy D → Registry D → Result (Registry D)
  register s registry = elim (lookup s.strategy_id registry) [
    | some _ ↦ err value_error
    | none ↦ ok (insert s.strategy_id s registry)
  ]

  unfoldable pub get : String → Registry D → Result (Strategy D)
  get strategy_id registry = elim (lookup strategy_id registry) [
    | some s ↦ ok s
    | none ↦ err key_error
  ]

  unfoldable pub get_all : Registry D → List (Strategy D)
  get_all registry = map (λ entry. entry.1) registry

-- What the calls made for one strategy meet: the market data's answers, what `on_bars` draws, and what
-- `process_signal` meets.
pub record Turn (D : Type 0) : Type 0 where
  pub get_bars : (symbol : String) → (n : ℕ) → (bar_size : String) → Result (List (Bar D))
  pub stamp : Stamp
  pub around : Surroundings D

abbrev pub max_bar_age : ℕ
max_bar_age = 7_200 * second

module _ {D : Type 0} where
  abbrev pub is_intraday : Strategy D → Bool
  is_intraday s = s.bar_size == "15 mins" || s.bar_size == "30 mins"

  abbrev pub is_stale : ℕ → Bar D → Bool
  is_stale now b = ltb (b.timestamp.instant + max_bar_age) now

  unfoldable pub on_fresh : ℕ → Strategy D → Stamp → List (Bar D) → Result (Option (Signal D))
  on_fresh now strategy stamp [] = ok none
  on_fresh now strategy stamp (b ∷ bars) =
      if is_stale now (last_or b bars) then ok none else strategy.on_bars stamp (b ∷ bars)

  -- The signal of a strategy on the bars that it needs, if there are any and the last one is recent.
  unfoldable pub evaluate : ℕ → Strategy D → Turn D → Result (Option (Signal D))
  unfolding on_fresh
  evaluate now strategy turn =
      turn.get_bars strategy.symbol strategy.bars_needed strategy.bar_size
      >>= on_fresh now strategy turn.stamp

module _ {D : Type 0} ⦃d : Decimal D⦄ where
  -- The end of the `try` block. What it raises is logged, and the next strategy follows.
  unfoldable pub submit : Turn D → Result (Option (Signal D)) → OrderManager D → OrderManager D
  submit turn (ok (some signal)) m = (process_signal turn.around signal m).1
  submit turn (ok none) m = m
  submit turn (err e) m = m

  abbrev pub visit : ℕ → Strategy D → Turn D → OrderManager D → OrderManager D
  visit now strategy turn = submit turn (evaluate now strategy turn)

  -- `StrategyScheduler._run_once`, from the strategy with an index on.
  unfoldable pub run_all :
      ℕ → (ℕ → Turn D) → ℕ → List (Strategy D) → OrderManager D → OrderManager D
  unfolding submit evaluate
  run_all now turns i [] m = m
  run_all now turns i (s ∷ strategies) m =
      run_all now turns (suc i) strategies (visit now s (turns i) m)

  unfoldable pub run_once : ℕ → (ℕ → Turn D) → Registry D → OrderManager D → OrderManager D
  unfolding run_all get_all
  run_once now turns registry = run_all now turns 0 (get_all registry)

  -- `IntradayScheduler._run_once`
  unfoldable pub run_intraday :
      ℕ → (ℕ → Turn D) → ℕ → List (Strategy D) → OrderManager D → OrderManager D
  unfolding submit evaluate
  run_intraday now turns i [] m = m
  run_intraday now turns i (s ∷ strategies) m =
      run_intraday now turns (suc i) strategies
        (if is_intraday s then visit now s (turns i) m else m)

  unfoldable pub run_once_intraday : ℕ → (ℕ → Turn D) → Registry D → OrderManager D → OrderManager D
  unfolding run_intraday get_all
  run_once_intraday now turns registry = run_intraday now turns 0 (get_all registry)
