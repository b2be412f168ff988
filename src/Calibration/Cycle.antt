-- ===== src/Calibration/Cycle.antt =====
-- `calibrate_all` of src/polara/calibration/engine.py, and one cycle of calibration/scheduler.py, which saves
-- what it answers by calibration/service.py.
use polara_quant.Base.{
  ℕ, ◌≡◌, ◌∙◌, refl, ap, sym, inl, inr, String, Option, none, some, List, [], ◌∷◌, ◌++◌, map, All,
  ◌⊎◌, string_eq, Bool-cases, ◌==◌,
}
use mathlib.Core.List.{append-nil}
use polara_quant.Base.Dict.{Dict, lookup, insert}
use polara_quant.Base.Effects.{Action, Result, ok, err, pure, ◌>>=◌, and_then}
use polara_quant.Decimal.{Decimal}
use polara_quant.Strategies.{Stamp}
use polara_quant.Calibration.{Tunable, CalibrationEngine, CalibrationResult, calibrate_one}
use polara_quant.Calibration.Results.{Calibrates, calibrate_one-Calibrates}

-- `save` of src/polara/calibration/service.py for each result.
abbrev pub saved :
    {D V : Type 0}
    → Result (List (CalibrationResult D V))
    → List (CalibrationResult D V)
    → List (CalibrationResult D V)
saved (ok results) table = table ++ results
saved (err e) table = table

abbrev pub ids_of : {S : Type 0} → Dict String S → List String
ids_of = map (λ entry. entry.0)

module _ {D V S : Type 0} ⦃d : Decimal D⦄ (root : D → D) (tunable : Tunable D V S)
    (stamps : S → ℕ → Stamp) (now : ℕ) (engine : CalibrationEngine D) where
  -- `if result is not None: results.append(result)`, from the end.
  abbrev pub add_result :
      Option (CalibrationResult D V) → List (CalibrationResult D V) → List (CalibrationResult D V)
  add_result none results = results
  add_result (some r) results = r ∷ results

  -- The loop of `calibrate_all`. What a call raises ends it.
  unfoldable pub calibrate_each : List S → Action (Dict String S) (List (CalibrationResult D V))
  calibrate_each [] = pure []
  calibrate_each (s ∷ strategies) = do
    result ←
        calibrate_one root tunable stamps now engine (tunable.strategy_of s).strategy_id
          (tunable.strategy_of s).symbol
    results ← calibrate_each strategies
    pure (add_result result results)

  unfoldable pub calibrate_all : Action (Dict String S) (List (CalibrationResult D V))
  unfolding calibrate_each
  calibrate_all registry = calibrate_each (map (λ entry. entry.1) registry) registry

  -- `CalibrationScheduler._run_once`: the registry and the table of results. What is raised is logged.
  unfoldable pub run_once :
      Dict String S × List (CalibrationResult D V) → Dict String S × List (CalibrationResult D V)
  unfolding calibrate_all
  run_once (registry, table) =
      let (answer, after) = calibrate_all registry in (after, saved answer table)

  ids-insert :
      (id : String) (s new : S) (registry : Dict String S)
      → lookup id registry ≡ some s
      → ids_of (insert id new registry) ≡ ids_of registry
  ids-insert id s new [] h = cc
  ids-insert id s new ((j, v) ∷ registry) h = elim (Bool-cases (j == id)) [
    | inl same ↦ rw same refl
    | inr other ↦ rw other (ap (λ ids. j ∷ ids) (ids-insert id s new registry (rw other at h)))
  ]

  calibrated_ids :
      (id symbol : String) (registry : Dict String S)
      (rt : Result (Option (CalibrationResult D V)) × Dict String S)
      → Calibrates root tunable stamps now engine id symbol registry rt
      → ids_of rt.1 ≡ ids_of registry
  calibrated_ids id symbol registry (err e, t) same = ap ids_of same
  calibrated_ids id symbol registry (ok none, t) same = ap ids_of same
  calibrated_ids id symbol registry (ok (some r), t)
        (s, known, base, tune, i, p, m, set, others, (new, after)) =
      ap ids_of after ∙ ids-insert id s new registry known

  -- The results of a calibration of strategies, in their order: for each one, either none or one under
  -- its id.
  abbrev pub IsReportOf : List S → List (CalibrationResult D V) → Type 0
  IsReportOf [] results = results ≡ []
  IsReportOf (s ∷ strategies) results =
      IsReportOf strategies results
      ⊎ ((r : CalibrationResult D V) × (rest : List (CalibrationResult D V)) × (results ≡ r ∷ rest)
          × (r.strategy_id ≡ (tunable.strategy_of s).strategy_id)
          × IsReportOf strategies rest)

  -- An empty report is one of any strategies.
  IsReportOf-empty : (strategies : List S) → IsReportOf strategies []
  IsReportOf-empty [] = refl
  IsReportOf-empty (s ∷ strategies) = inl (IsReportOf-empty strategies)

  abbrev pub Reports : List S → Result (List (CalibrationResult D V)) → Type 0
  Reports strategies (ok results) = IsReportOf strategies results
  Reports strategies (err e) = Unit

  IsReportOf-add :
      (s : S) (strategies : List S) (o : Option (CalibrationResult D V))
      (results : List (CalibrationResult D V))
      → All (λ r. r.strategy_id ≡ (tunable.strategy_of s).strategy_id) (add_result o [])
      → IsReportOf strategies results
      → IsReportOf (s ∷ strategies) (add_result o results)
  IsReportOf-add s strategies none results h report = inl report
  IsReportOf-add s strategies (some r) results (e, _) report = inr (r, results, refl, e, report)

  own_id :
      (id symbol : String) (registry : Dict String S) (o : Option (CalibrationResult D V))
      (t : Dict String S)
      → Calibrates root tunable stamps now engine id symbol registry (ok o, t)
      → All (λ r. r.strategy_id ≡ id) (add_result o [])
  own_id id symbol registry none t c = tt
  own_id id symbol registry (some r) t (s, known, base, tune, i, p, m, set, others, after) = (i, tt)

  abbrev Keeps :
      List S → Dict String S → Result (List (CalibrationResult D V)) × Dict String S → Type 0
  Keeps strategies registry at = (ids_of at.1 ≡ ids_of registry) × Reports strategies at.0

  after_rest :
      (s : S) (strategies : List S) (registry t : Dict String S)
      (o : Option (CalibrationResult D V))
      → ids_of t ≡ ids_of registry
      → All (λ r. r.strategy_id ≡ (tunable.strategy_of s).strategy_id) (add_result o [])
      → (rest : Result (List (CalibrationResult D V)) × Dict String S) → Keeps strategies t rest
      → Keeps
          (s ∷ strategies)
          registry
          (and_then rest.0 (λ results. pure (add_result o results)) rest.1)
  after_rest s strategies registry t o same own (err e, u) (ids, _) = (ids ∙ same, tt)
  after_rest s strategies registry t o same own (ok results, u) (ids, report) =
      (ids ∙ same, IsReportOf-add s strategies o results own report)

  after_one :
      (s : S) (strategies : List S) (registry : Dict String S)
      → ((t : Dict String S) → Keeps strategies t (calibrate_each strategies t))
      → (one : Result (Option (CalibrationResult D V)) × Dict String S)
      → Calibrates root tunable stamps now engine
          (tunable.strategy_of s).strategy_id
          (tunable.strategy_of s).symbol
          registry
          one
      → Keeps (s ∷ strategies) registry (
          and_then one.0
            (λ o. calibrate_each strategies >>= λ results. pure (add_result o results))
            one.1)
  after_one s strategies registry ih (err e, t) c = (
    calibrated_ids (tunable.strategy_of s).strategy_id (tunable.strategy_of s).symbol registry
        (err e, t) c,
    tt,
  )
  after_one s strategies registry ih (ok o, t) c =
      after_rest s strategies registry t o
        (calibrated_ids (tunable.strategy_of s).strategy_id (tunable.strategy_of s).symbol registry
          (ok o, t) c)
        (own_id (tunable.strategy_of s).strategy_id (tunable.strategy_of s).symbol registry o t c)
        (calibrate_each strategies t) (ih t)

  calibrate_each-Keeps :
      (strategies : List S) (registry : Dict String S)
      → Keeps strategies registry (calibrate_each strategies registry)
  unfolding calibrate_each
  calibrate_each-Keeps [] registry = (refl, refl)
  calibrate_each-Keeps (s ∷ strategies) registry =
      after_one s strategies registry (calibrate_each-Keeps strategies)
        (calibrate_one root tunable stamps now engine (tunable.strategy_of s).strategy_id
          (tunable.strategy_of s).symbol registry)
        (calibrate_one-Calibrates root tunable stamps now engine (tunable.strategy_of s).strategy_id
          (tunable.strategy_of s).symbol registry)

  -- A cycle of the calibration keeps the registered ids and their order, and keeps the stored results. It
  -- adds new ones in the order of the registered strategies: for each strategy one under its id, or none.
  pub run_once-IsReportOf :
      (registry : Dict String S) (table : List (CalibrationResult D V))
      → let (after, rows) = run_once (registry, table) in
        (ids_of after ≡ ids_of registry)
        × ((new : List (CalibrationResult D V)) × (rows ≡ table ++ new)
            × IsReportOf (map (λ entry. entry.1) registry) new)
  unfolding run_once calibrate_all
  run_once-IsReportOf registry table =
      go (calibrate_each (map (λ entry. entry.1) registry) registry)
        (calibrate_each-Keeps (map (λ entry. entry.1) registry) registry)
    where
      go :
          (at : Result (List (CalibrationResult D V)) × Dict String S)
          → Keeps (map (λ entry. entry.1) registry) registry at
          → (ids_of at.1 ≡ ids_of registry)
            × ((new : List (CalibrationResult D V)) × (saved at.0 table ≡ table ++ new)
                × IsReportOf (map (λ entry. entry.1) registry) new)
      go (err e, t) (ids, _) =
          (ids, ([], sym (append-nil table), IsReportOf-empty (map (λ entry. entry.1) registry)))
      go (ok results, t) (ids, report) = (ids, (results, refl, report))
