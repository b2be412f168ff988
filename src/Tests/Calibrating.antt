-- ===== src/Tests/Calibrating.antt =====
-- The calibration (src/polara/calibration/engine.py) at concrete inputs.
use polara_quant.Base.{◌≡◌, ◌++◌, ℕ, String, some, List, [], ◌∷◌, ◌==◌, string_eq, if◌then◌else◌}
use polara_quant.Base.Int.{ℤ, pos}
use polara_quant.Base.Dict.{Dict}
use polara_quant.Decimal.{fixed, Fixed-IsDecimal}
use polara_quant.Strategies.MaCrossover.{MaCrossover}
use polara_quant.Strategies.Rules
use polara_quant.Strategies.Rules.{Rule}
use polara_quant.Calibration.{
  Tunable, CalibrationEngine, tune_parameters, calibrate_one, CalibrationResult,
}
use polara_quant.Calibration.Tuning.{Tuned, tune_parameters-Tuned}
use polara_quant.Calibration.Cycle.{run_once, ids_of, IsReportOf, run_once-IsReportOf}
use polara_quant.Calibration.Results.{Calibrates, calibrate_one-Calibrates}
use polara_quant.Tests.Backtesting.{bars, crossover, same, stamps}

-- A strategy object: its settings and its multiplier.
abbrev Sleeved : Type 0
Sleeved = MaCrossover ℤ × ℤ

abbrev set_param : String × ℕ → MaCrossover ℤ → MaCrossover ℤ
set_param (name, v) c =
    if name == "fast_period" then record c { fast_period = v } else record c { slow_period = v }

abbrev set_params : List (String × ℕ) → Sleeved → Sleeved
set_params [] s = s
set_params (p ∷ ps) (c, size) = set_params ps (set_param p c, size)

abbrev tunable : Tunable ℤ ℕ Sleeved
tunable = record {
  strategy_of = λ s. Rules.strategy same (Rule.ma_crossover s.0) s.1;
  param_grid = λ _. ("fast_period", 1 ∷ 2 ∷ []) ∷ ("slow_period", 3 ∷ []) ∷ [];
  current_params = λ s. ("fast_period", s.0.fast_period) ∷ ("slow_period", s.0.slow_period) ∷ [];
  replace = set_params;
  set_params = set_params;
  set_size_multiplier = λ size s. (s.0, size);
}

abbrev engine : CalibrationEngine ℤ
engine = record {
  query = λ _ _ _. bars;
  lookback_bars = 200;
  position_size_usd = some (pos 1_000_000_000);
}

abbrev sleeve : Sleeved
sleeve = (crossover, pos 1_000_000)

tune_parameters-Tuned_example :
    Tuned Fixed-IsDecimal same tunable
      (λ _. stamps)
      9
      engine
      sleeve
      "AAPL"
      (tune_parameters same tunable (λ _. stamps) 9 engine sleeve "AAPL")
tune_parameters-Tuned_example =
    tune_parameters-Tuned Fixed-IsDecimal same tunable (λ _. stamps) 9 engine sleeve "AAPL"

abbrev sleeves : Dict String Sleeved
sleeves = ("momentum", sleeve) ∷ []

calibrate_one-Calibrates_example :
    Calibrates same tunable
      (λ _. stamps)
      9
      engine
      "momentum"
      "AAPL"
      sleeves
      (calibrate_one same tunable (λ _. stamps) 9 engine "momentum" "AAPL" sleeves)
calibrate_one-Calibrates_example =
    calibrate_one-Calibrates same tunable (λ _. stamps) 9 engine "momentum" "AAPL" sleeves

run_once-IsReportOf_example :
    let (after, rows) = run_once same tunable (λ _. stamps) 9 engine (sleeves, []) in
    (ids_of after ≡ ids_of sleeves)
    × ((new : List (CalibrationResult ℤ ℕ)) × (rows ≡ [] ++ new)
        × IsReportOf same tunable (λ _. stamps) 9 engine (sleeve ∷ []) new)
run_once-IsReportOf_example = run_once-IsReportOf same tunable (λ _. stamps) 9 engine sleeves []
