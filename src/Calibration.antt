-- ===== src/Calibration.antt =====
-- src/polara/calibration/engine.py and schemas.py: the search through a grid of parameters, by backtests, and
-- the size multiplier.
pub mod Tuning
pub mod Results
pub mod Cycle
use polara_quant.Base.{
  ℕ, zero, String, Bool, Option, none, some, List, [], ◌∷◌, ◌++◌, map, length, ltb, if◌then◌else◌,
  string_eq,
}
use polara_quant.Base.Dict.{Dict, lookup, insert}
use polara_quant.Base.Effects.{Result, ok, err, value_error, Action}
use polara_quant.Base.Results.{◌>>=◌}
use polara_quant.Decimal.{Decimal, zero_d}
use polara_quant.Schemas.{Bar, DateTime, utc}
use polara_quant.Strategies.{Stamp, Strategy}
use polara_quant.Backtester.Metrics.{commission}
use polara_quant.Backtester.Replay.{Backtester, BacktestResult, run}

pub record CalibrationResult (D V : Type 0) : Type 0 where
  pub strategy_id : String
  pub calibrated_at : DateTime
  pub bar_size : String
  pub lookback_bars : ℕ
  pub rolling_sharpe : D
  pub size_multiplier : D
  pub prev_params : List (String × V)
  pub best_params : List (String × V)
  pub param_sharpe_improvement : D

-- A strategy object, as the engine sees it: its fields by name, which it reads, replaces in a copy, and
-- sets in the object, and the values that its grid has for some of them, as they are after the conversion to the field's type.
pub record Tunable (D V S : Type 0) : Type 0 where
  pub strategy_of : S → Strategy D
  pub param_grid : S → List (String × List V)
  pub current_params : S → List (String × V)
  pub replace : List (String × V) → S → S
  pub set_params : List (String × V) → S → S
  pub set_size_multiplier : D → S → S

pub record CalibrationEngine (D : Type 0) : Type 0 where
  pub query : (symbol : String) → (n : ℕ) → (bar_size : String) → List (Bar D)
  pub lookback_bars : ℕ
  pub position_size_usd : Option D

-- `itertools.product`, with the name of the field at each value.
abbrev pub with_each :
    {V : Type 0} → String → List V → List (List (String × V)) → List (List (String × V))
with_each name [] combos = []
with_each name (v ∷ values) combos =
    map (λ combo. (name, v) ∷ combo) combos ++ with_each name values combos

unfoldable pub product : {V : Type 0} → List (String × List V) → List (List (String × V))
product [] = [] ∷ []
product ((name, values) ∷ grid) = with_each name values (product grid)

-- `except ValueError: return None`
abbrev pub none_on_value_error : {A : Type 0} → Result A → Result (Option A)
none_on_value_error (ok a) = ok (some a)
none_on_value_error (err value_error) = ok none
none_on_value_error (err e) = err e

module _ {D : Type 0} ⦃d : Decimal D⦄ where
  unfoldable pub size_multiplier : D → D
  size_multiplier sharpe =
      if d.le (d.lit 15 1) sharpe
      then d.lit 20 1
      else if d.le (d.lit 10 1) sharpe
      then d.lit 15 1
      else if d.le (d.lit 5 1) sharpe
      then d.lit 10 1
      else d.lit 5 1

  -- A `Backtester` with the defaults of its constructor.
  abbrev pub backtester_for : CalibrationEngine D → Strategy D → Backtester D
  backtester_for engine strategy = record {
    strategy = strategy;
    min_sharpe = d.lit 5 1;
    max_drawdown_limit = d.lit 20 0;
    commission_per_side = d.lit 100 2;
    position_size_usd = engine.position_size_usd;
  }

-- `root` is `math.sqrt`, `stamps` what a strategy draws in its backtest, and `now` the clock.
module _ {D V S : Type 0} ⦃d : Decimal D⦄ (root : D → D) (tunable : Tunable D V S)
    (stamps : S → ℕ → Stamp) (now : ℕ) (engine : CalibrationEngine D) where
  unfoldable pub run_backtest : S → (symbol : String) → Result (Option (BacktestResult D))
  run_backtest s symbol =
      let strategy = tunable.strategy_of s in
      none_on_value_error (
        run root (backtester_for engine strategy) (stamps s) now strategy.bar_size
          (engine.query symbol engine.lookback_bars strategy.bar_size))

  -- A better result becomes the best one.
  abbrev pub better :
      List (String × V) → Option (BacktestResult D) → D × List (String × V) → D × List (String × V)
  better combo none best = best
  better combo (some result) best =
      if d.lt best.0 result.sharpe_ratio then (result.sharpe_ratio, combo) else best

  -- The loop over the grid.
  unfoldable pub search_grid :
      S → String → List (List (String × V)) → D × List (String × V) → Result (D × List (String × V))
  unfolding run_backtest
  search_grid s symbol [] best = ok best
  search_grid s symbol (combo ∷ combos) best =
      run_backtest (tunable.replace combo s) symbol >>= λ result.
      search_grid s symbol combos (better combo result best)

  -- With the result of the strategy as it is.
  abbrev pub tune_from : S → String → Option (BacktestResult D) → Result (List (String × V) × D)
  tune_from s symbol none = ok ([], zero_d)
  tune_from s symbol (some baseline) =
      search_grid s symbol (product (tunable.param_grid s))
        (baseline.sharpe_ratio, tunable.current_params s)
      >>= λ best. ok (best.1, d.sub best.0 baseline.sharpe_ratio)

  unfoldable pub tune_parameters : S → String → Result (List (String × V) × D)
  unfolding run_backtest search_grid product
  tune_parameters s symbol =
      if ltb (length (tunable.param_grid s)) 1
      then ok ([], zero_d)
      else run_backtest s symbol >>= tune_from s symbol

  -- What is set on the strategy: the multiplier, and the best parameters if there are any.
  abbrev pub retuned : D → List (String × V) → S → S
  retuned size best_params s =
      let sized = tunable.set_size_multiplier size s in
      if ltb 0 (length best_params) then tunable.set_params best_params sized else sized

  abbrev pub report : String → S → D → List (String × V) × D → CalibrationResult D V
  report id s sharpe (best_params, improvement) = record {
    strategy_id = id;
    calibrated_at = utc now;
    bar_size = (tunable.strategy_of (retuned (size_multiplier sharpe) best_params s)).bar_size;
    lookback_bars = engine.lookback_bars;
    rolling_sharpe = sharpe;
    size_multiplier = size_multiplier sharpe;
    prev_params = tunable.current_params s;
    best_params = best_params;
    param_sharpe_improvement = improvement;
  }

  -- After the tuning. The object in the registry is the one that is set.
  abbrev pub set_tuned :
      String
      → S
      → D
      → Result (List (String × V) × D)
      → Action (Dict String S) (Option (CalibrationResult D V))
  set_tuned id s sharpe (err e) registry = (err e, registry)
  set_tuned id s sharpe (ok tuned) registry = (
    ok (some (report id s sharpe tuned)),
    insert id (retuned (size_multiplier sharpe) tuned.0 s) registry,
  )

  -- After the first backtest.
  abbrev pub calibrate_from :
      String
      → String
      → S
      → Result (Option (BacktestResult D))
      → Action (Dict String S) (Option (CalibrationResult D V))
  calibrate_from id symbol s (err e) registry = (err e, registry)
  calibrate_from id symbol s (ok none) registry = (ok none, registry)
  calibrate_from id symbol s (ok (some result)) registry =
      set_tuned id s result.sharpe_ratio (tune_parameters s symbol) registry

  abbrev pub calibrate_found :
      String → String → Option S → Action (Dict String S) (Option (CalibrationResult D V))
  calibrate_found id symbol none registry = (ok none, registry)
  calibrate_found id symbol (some s) registry =
      calibrate_from id symbol s (run_backtest s symbol) registry

  unfoldable pub calibrate_one :
      (strategy_id symbol : String) → Action (Dict String S) (Option (CalibrationResult D V))
  unfolding run_backtest tune_parameters size_multiplier
  calibrate_one id symbol registry = calibrate_found id symbol (lookup id registry) registry
