-- ===== src/Dashboard/Overview.antt =====
-- `strategy_overview` of src/polara/dashboard/dashboard_service.py: each registered strategy with its status
-- and its latest calibration.
use polara_quant.Base.{
  ℕ, ◌≤◌, ◌≡◌, String, Bool, true, false, Option, none, some, List, [], ◌∷◌, ◌||◌, map, ltb, ◌==◌,
  string_eq, arith, All, All-map, ltb→lt, length, keep, if◌then◌else◌, Bool-cases, inl, inr,
  All-of_map,
}
use polara_quant.Base.Texts.{codes}
use polara_quant.Base.Ascending.{
  codes_lt, codes_lt_asymm, not_codes_lt_trans, sort_by, IsAscending, sort_by-IsAscending,
  length-keep-sort_by, All-sort_by,
}
use polara_quant.Strategies.{Strategy}
use polara_quant.Calibration.{CalibrationResult}
use polara_quant.Promotion.{StrategyStatus, inactive, Tables, get_status}

pub record Overview (D V : Type 0) : Type 0 where
  pub strategy_id : String
  pub symbol : String
  pub bar_size : String
  pub intraday : Bool
  pub status : StrategyStatus
  pub size_multiplier : D
  pub calibration : Option (CalibrationResult D V)

abbrev pub is_intraday : String → Bool
is_intraday bar_size = bar_size == "15 mins" || bar_size == "30 mins"

-- `status_map.get(strategy_id, "inactive")`
abbrev pub status_or : Option StrategyStatus → StrategyStatus
status_or none = inactive
status_or (some status) = status

module _ {D V : Type 0} where
  abbrev pub time_of : CalibrationResult D V → ℕ
  time_of r = r.calibrated_at.instant

  abbrev pub newer :
      CalibrationResult D V → Option (CalibrationResult D V) → Option (CalibrationResult D V)
  newer r none = some r
  newer r (some q) = if ltb (time_of q) (time_of r) then some r else some q

  -- `cal_map.get(strategy_id)`: of the rows with the maximal time of their strategy the last one.
  unfoldable pub latest_result :
      String → List (CalibrationResult D V) → Option (CalibrationResult D V)
  latest_result strategy_id [] = none
  latest_result strategy_id (r ∷ rows) =
      let rest = latest_result strategy_id rows in
      if r.strategy_id == strategy_id then newer r rest else rest

  abbrev pub before : Overview D V → Overview D V → Bool
  before a b =
      let by_id = codes_lt (codes a.strategy_id) (codes b.strategy_id) in
      if a.intraday
      then (if b.intraday then by_id else true)
      else if b.intraday
      then false
      else by_id

  -- `results` is empty where the table is not there yet.
  abbrev pub row_of : Tables → List (CalibrationResult D V) → Strategy D → Overview D V
  row_of tables results s = record {
    strategy_id = s.strategy_id;
    symbol = s.symbol;
    bar_size = s.bar_size;
    intraday = is_intraday s.bar_size;
    status = status_or (get_status s.strategy_id tables);
    size_multiplier = s.size_multiplier;
    calibration = latest_result s.strategy_id results;
  }

  unfoldable pub strategy_overview :
      List (Strategy D) → Tables → List (CalibrationResult D V) → List (Overview D V)
  strategy_overview strategies tables results =
      sort_by before (map (row_of tables results) strategies)

  before_asymm : (a b : Overview D V) → before a b ≡ true → before b a ≡ false
  before_asymm a b h = ground (arith, codes_lt_asymm (codes a.strategy_id) (codes b.strategy_id))

  not_before_trans :
      (a b c : Overview D V) → before a b ≡ false → before b c ≡ false → before a c ≡ false
  not_before_trans a b c p q =
      ground (
        arith,
        not_codes_lt_trans (codes a.strategy_id) (codes b.strategy_id) (codes c.strategy_id),
      )

  -- The calibration shown is one of the strategy, and none of the strategy's is newer.
  abbrev pub IsLatestOf :
      String → List (CalibrationResult D V) → Option (CalibrationResult D V) → Type 0
  IsLatestOf strategy_id results none = All (λ r. (r.strategy_id == strategy_id) ≡ false) results
  IsLatestOf strategy_id results (some q) =
      ((q.strategy_id == strategy_id) ≡ true)
      × All (λ r. (r.strategy_id == strategy_id) ≡ true → time_of r ≤ time_of q) results

  newer-IsLatestOf :
      (strategy_id : String) (r : CalibrationResult D V) (rows : List (CalibrationResult D V))
      (rest : Option (CalibrationResult D V))
      → (r.strategy_id == strategy_id) ≡ true
      → IsLatestOf strategy_id rows rest
      → IsLatestOf strategy_id (r ∷ rows) (newer r rest)
  newer-IsLatestOf strategy_id r rows none own h =
      (own, ((λ own'. omega arith), All-map (λ x other mine. cc (other, mine)) rows h))
  newer-IsLatestOf strategy_id r rows (some q) own (mine, h) =
      elim (Bool-cases (ltb (time_of q) (time_of r))) [
        | inl later ↦ rw later (
          own,
          (
            (λ own'. omega arith),
            All-map (λ x bound m. omega (arith, bound m, ltb→lt (time_of q) (time_of r) later)) rows
                h,
          ),
        )
        | inr earlier ↦ rw earlier (mine, ((λ own'. ground arith), h))
      ]

  latest_result-IsLatestOf :
      (strategy_id : String) (results : List (CalibrationResult D V))
      → IsLatestOf strategy_id results (latest_result strategy_id results)
  unfolding latest_result
  latest_result-IsLatestOf strategy_id [] = tt
  latest_result-IsLatestOf strategy_id (r ∷ rows) =
      elim (Bool-cases (r.strategy_id == strategy_id)) [
        | inl own ↦ rw own (
            newer-IsLatestOf strategy_id r rows (latest_result strategy_id rows) own
              (latest_result-IsLatestOf strategy_id rows))
        | inr other ↦ rw other (
            skip (latest_result strategy_id rows) other (latest_result-IsLatestOf strategy_id rows))
      ]
    where
      skip :
          (rest : Option (CalibrationResult D V))
          → (r.strategy_id == strategy_id) ≡ false
          → IsLatestOf strategy_id rows rest
          → IsLatestOf strategy_id (r ∷ rows) rest
      skip none other h = (other, h)
      skip (some q) other (mine, h) = (mine, ((λ own. cc (own, other)), h))

  -- The overview lists the strategies on short bars first and each part in the order of the ids. Every test
  -- holds of as many of its rows as of those of the strategies: each one has its row, once. The
  -- calibration of a row is one of that strategy, and none of the strategy's is newer; a row
  -- without one is of a strategy that has none.
  pub strategy_overview-Shows :
      (strategies : List (Strategy D)) (tables : Tables) (results : List (CalibrationResult D V))
      → IsAscending before (strategy_overview strategies tables results)
        × ((q : Overview D V → Bool)
            → length (keep q (strategy_overview strategies tables results))
              ≡ length (keep q (map (row_of tables results) strategies)))
        × All
            (λ row. IsLatestOf row.strategy_id results row.calibration)
            (strategy_overview strategies tables results)
  unfolding strategy_overview
  strategy_overview-Shows strategies tables results =
      let rows = map (row_of tables results) strategies in
      (
        sort_by-IsAscending before before_asymm not_before_trans rows,
        λ q. length-keep-sort_by before q rows,
        All-sort_by before _ rows
            (All-of_map (row_of tables results) _ strategies (latest strategies)),
      )
    where
      latest :
          (ss : List (Strategy D))
          → All (λ s. IsLatestOf s.strategy_id results (latest_result s.strategy_id results)) ss
      latest [] = tt
      latest (s ∷ ss) = (latest_result-IsLatestOf s.strategy_id results, latest ss)
