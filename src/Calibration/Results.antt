-- ===== src/Calibration/Results.antt =====
-- What a calibration of one strategy changes.
use polara_quant.Base.{
  ℕ, ◌≡◌, ◌≢◌, ◌⊎◌, refl, String, Option, none, some, string_eq, true, false, [], ◌∷◌, ltb, length,
  if◌then◌else◌, arith,
}
use polara_quant.Base.Dict.{Dict, lookup, insert, lookup-insert_self, lookup-insert_ne}
use polara_quant.Base.Effects.{Result, ok, err}
use polara_quant.Base.{List}
use polara_quant.Decimal.{Decimal}
use polara_quant.Strategies.{Stamp}
use polara_quant.Backtester.Replay.{BacktestResult}
use polara_quant.Calibration.{
  Tunable, CalibrationEngine, CalibrationResult, run_backtest, tune_parameters, size_multiplier,
  set_tuned, calibrate_from, calibrate_found, calibrate_one,
}

module _ {D V S : Type 0} ⦃d : Decimal D⦄ (root : D → D) (tunable : Tunable D V S)
    (stamps : S → ℕ → Stamp) (now : ℕ) (engine : CalibrationEngine D) (id symbol : String)
    (registry : Dict String S) where
  -- The multiplier by the ratio: 2 from 1.5 on, 1.5 from 1 on, 1 from 0.5 on, and else 0.5.
  abbrev pub IsMultiplier : D → D → Type 0
  IsMultiplier sharpe size =
      (d.le (d.lit 15 1) sharpe ≡ true) × (size ≡ d.lit 20 1)
      ⊎ (d.le (d.lit 15 1) sharpe ≡ false) × (d.le (d.lit 10 1) sharpe ≡ true) × (size ≡ d.lit 15 1)
      ⊎ (d.le (d.lit 10 1) sharpe ≡ false) × (d.le (d.lit 5 1) sharpe ≡ true) × (size ≡ d.lit 10 1)
      ⊎ (d.le (d.lit 5 1) sharpe ≡ false) × (size ≡ d.lit 5 1)

  -- The strategy `s` with a multiplier and parameters, if there are any.
  abbrev pub HasSettings : S → D → List (String × V) → Option S → Type 0
  HasSettings s size [] found = found ≡ some (tunable.set_size_multiplier size s)
  HasSettings s size (p ∷ params) found =
      found ≡ some (tunable.set_params (p ∷ params) (tunable.set_size_multiplier size s))

  -- By its answer.
  abbrev pub Calibrates : Result (Option (CalibrationResult D V)) × Dict String S → Type 0
  Calibrates (err e, after) = after ≡ registry
  Calibrates (ok none, after) = after ≡ registry
  Calibrates (ok (some r), after) =
      (s : S) × (lookup id registry ≡ some s)
      × ((baseline : BacktestResult D) × (run_backtest root tunable stamps now engine s symbol
            ≡ ok (some baseline))
          × (r.rolling_sharpe ≡ baseline.sharpe_ratio))
      × (tune_parameters root tunable stamps now engine s symbol
          ≡ ok (r.best_params, r.param_sharpe_improvement))
      × (r.strategy_id ≡ id)
      × (r.prev_params ≡ tunable.current_params s)
      × IsMultiplier r.rolling_sharpe r.size_multiplier
      × HasSettings s r.size_multiplier r.best_params (lookup id after)
      × ((other : String) → id ≢ other → lookup other after ≡ lookup other registry)
      × ((new : S) × (after ≡ insert id new registry))

  size_multiplier-IsMultiplier : (sharpe : D) → IsMultiplier sharpe (size_multiplier sharpe)
  unfolding size_multiplier
  size_multiplier-IsMultiplier sharpe = ground arith

  insert-HasSettings :
      (s : S) (size : D) (params : List (String × V))
      → HasSettings s size params (
          lookup id (
            insert id
              (if ltb 0 (length params)
                then tunable.set_params params (tunable.set_size_multiplier size s)
                else tunable.set_size_multiplier size s)
              registry))
  insert-HasSettings s size [] = lookup-insert_self id _ registry
  insert-HasSettings s size (p ∷ params) =
      let some_ : ltb 0 (length (p ∷ params)) ≡ true = ground arith in
      rw some_ (lookup-insert_self id _ registry)

  calibrate_from-Calibrates :
      (s : S)
      → lookup id registry ≡ some s
      → (r : Result (Option (BacktestResult D)))
      → run_backtest root tunable stamps now engine s symbol ≡ r
      → Calibrates (calibrate_from root tunable stamps now engine id symbol s r registry)
  calibrate_from-Calibrates s known (err e) h = refl
  calibrate_from-Calibrates s known (ok none) h = refl
  calibrate_from-Calibrates s known (ok (some result)) h =
      go (tune_parameters root tunable stamps now engine s symbol) refl
    where
      go :
          (r : Result (List (String × V) × D))
          → tune_parameters root tunable stamps now engine s symbol ≡ r
          → Calibrates
              (set_tuned root tunable stamps now engine id s result.sharpe_ratio r registry)
      go (err e) failed = refl
      go (ok (params, gained)) answer = (
        s,
        known,
        (result, h, refl),
        answer,
        refl,
        refl,
        size_multiplier-IsMultiplier result.sharpe_ratio,
        insert-HasSettings s (size_multiplier result.sharpe_ratio) params,
        λ other ne. lookup-insert_ne id other _ registry ne,
        (_, refl),
      )

  -- Where the calibration has a result, the id is registered, the ratio is that of the backtest of its
  -- strategy, and the parameters are those that the tuning has found. The multiplier is 2 for a ratio of
  -- at least 1.5, 1.5 from 1 on, 1 from 0.5 on, and 0.5 below. The registry has changed only at the id,
  -- where the strategy is set to that multiplier and then to the parameters, if there are any. Where
  -- the calibration has no result, or raises, the registry is as before.
  pub calibrate_one-Calibrates :
      Calibrates (calibrate_one root tunable stamps now engine id symbol registry)
  unfolding calibrate_one
  calibrate_one-Calibrates = go (lookup id registry) refl
    where
      go :
          (o : Option S)
          → lookup id registry ≡ o
          → Calibrates (calibrate_found root tunable stamps now engine id symbol o registry)
      go none unknown = refl
      go (some s) known = calibrate_from-Calibrates s known _ refl
