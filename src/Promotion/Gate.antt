-- ===== src/Promotion/Gate.antt =====
-- What one call of the promotion gate does to the tables of strategies and results.
use polara_quant.Base.{
  ◌≡◌, ◌≢◌, refl, ◌↔◌, ◌⊎◌, inl, inr, String, true, Option, none, some, List, [], ◌∷◌, arith, ◌==◌,
  string_eq, ltb, length, find_first, keep, update_where, if◌then◌else◌, Bool-cases,
}
use polara_quant.Base.Effects.{ok, err, promotion}
use polara_quant.Promotion.{
  Strategy, StrategyStatus, paper, live, Tables, has_id, get_status, set_status, promote, demote,
  is_live,
}
use text.Mathlib.TextEquality.{eq_iff}

pub status_of : Option Strategy → Option StrategyStatus
status_of none = none
status_of (some s) = some s.status

-- The rows that an UPDATE by id leaves for a later SELECT by id.
find-update_where :
    (k j : String) (status : StrategyStatus) (xs : List Strategy)
    → status_of
        (find_first (has_id j) (update_where (has_id k) (λ s. record s { status = status }) xs))
      ≡ (if k == j
          then (elim (find_first (has_id j) xs) [ none ↦ none | some _ ↦ some status ])
          else status_of (find_first (has_id j) xs))
unfolding status_of
find-update_where k j status [] = ground arith
find-update_where k j status (x ∷ xs) =
    ground (arith, eq_iff x.id k, eq_iff x.id j, eq_iff k j, find-update_where k j status xs)

get_status-eq-status_of :
    (j : String) (t : Tables) → get_status j t ≡ status_of (find_first (has_id j) t.strategies)
unfolding get_status status_of
get_status-eq-status_of j t = ground arith

-- A status that is set is read back, and no other strategy's status changes.
pub get_status-set_status :
    (k j : String) (status : StrategyStatus) (t : Tables)
    → get_status j (set_status k status t).1 ≡ (
        if k == j
        then (elim (get_status j t) [ none ↦ none | some _ ↦ some status ])
        else get_status j t)
unfolding get_status set_status status_of
get_status-set_status k j status t = ground (arith, find-update_where k j status t.strategies)

keep_found :
    (j : String) (xs : List Strategy)
    → (find_first (has_id j) xs ≡ none) ⊎ (ltb 0 (length (keep (has_id j) xs)) ≡ true)
keep_found j [] = inl refl
keep_found j (x ∷ xs) = ground (arith, keep_found j xs)

pub set_status_found :
    (j : String) (status : StrategyStatus) (t : Tables)
    → get_status j t ≢ none
    → (set_status j status t).0 ≡ ok tt
unfolding get_status set_status
set_status_found j status t h = ground (arith, keep_found j t.strategies)

pub results-set_status :
    (k : String) (status : StrategyStatus) (t : Tables)
    → (set_status k status t).1.backtest_results ≡ t.backtest_results
unfolding set_status
results-set_status k status t = ground arith

pub promote-eq-set_status :
    (id : String) (t : Tables)
    → (promote id t).0 ≡ ok tt
    → (promote id t ≡ set_status id live t) × (get_status id t ≢ none)
unfolding promote
promote-eq-set_status id t h = (ground arith, ground arith)

-- After a successful `promote` the strategy is live, every other strategy has the status that it had,
-- and the backtest results are the same.
pub promote_effect :
    (id : String) (t : Tables)
    → (promote id t).0 ≡ ok tt
    → (get_status id (promote id t).1 ≡ some live)
      × ((other : String) → other ≢ id → get_status other (promote id t).1 ≡ get_status other t)
      × ((promote id t).1.backtest_results ≡ t.backtest_results)
promote_effect id t h =
    let (done, known) = promote-eq-set_status id t h in
    rw done (
      ground (arith, get_status-set_status id id live t, eq_iff id id),
      λ other ne. ground (arith, get_status-set_status id other live t, eq_iff id other),
      results-set_status id live t,
    )

-- `demote` succeeds exactly when the strategy is live, and then makes it a paper strategy and leaves
-- every other status alone; in every other case it raises `PromotionError` and changes nothing.
pub demote_iff :
    (id : String) (t : Tables)
    → (((demote id t).0 ≡ ok tt) ↔ (get_status id t ≡ some live))
      × ((demote id t).0 ≡ ok tt → get_status id (demote id t).1 ≡ some paper)
      × ((other : String) → other ≢ id → get_status other (demote id t).1 ≡ get_status other t)
      × ((demote id t).0 ≢ ok tt → demote id t ≡ (err promotion, t))
unfolding demote
demote_iff id t =
    let found = set_status_found id paper t in
    elim (Bool-cases (is_live (get_status id t))) [
      | inl yes_ ↦ (
        ground (arith, found (ground arith)),
        ground (arith, get_status-set_status id id paper t, eq_iff id id),
        λ other ne. ground (arith, get_status-set_status id other paper t, eq_iff id other),
        ground (arith, found (ground arith)),
      )
      | inr not_ ↦ (ground arith, ground arith, λ other ne. ground arith, ground arith)
    ]
