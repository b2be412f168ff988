-- ===== src/Promotion/Reach.antt =====
-- Requests to the promotion gate that overlap: each `await` of promote and demote in
-- src/polara/research_engine/promotion.py is a step, and other requests run between the steps.
use polara_quant.Base.{
  ℕ, ◌≡◌, refl, ◌⊎◌, inl, inr, String, true, none, some, List, [], ◌∷◌, ◌++◌, arith, string_eq,
  nat_beq, ltb, length, find_first, keep, if◌then◌else◌, Bool-cases,
}
use mathlib.Core.Path.{subst}
use polara_quant.Promotion.{
  Strategy, StrategyStatus, paper, live, SavedResult, Tables, has_id, new_row, get_status,
  set_status, ensure_registered, save, is_passing, has_passing_result, promote, may_promote,
  is_live,
}
use polara_quant.Promotion.Gate.{get_status-set_status, results-set_status}
use text.Mathlib.TextEquality.{eq_iff}

-- Where a request stands: `checked` has found a passing result, `allowed` has also read a status from
-- which promotion is allowed, `demoting` has read that the strategy is live.
pub data Task : Type 0 where
  idle : Task
  checked allowed demoting : String → Task

pub record System : Type 0 where
  pub tables : Tables
  pub task : ℕ → Task

pub data Event : Type 0 where
  begin_promote begin_demote : ℕ → String → Event
  resume : ℕ → Event
  -- a backtest is saved, and a strategy is seeded at start-up
  saved : SavedResult → Event
  registered : String → String → ℕ → Event

abbrev set_task : ℕ → Task → (ℕ → Task) → ℕ → Task
set_task i k tasks j = if nat_beq j i then k else tasks j

abbrev begin : ℕ → Task → System → System
begin i k s = record s { task = set_task i k s.task }

-- The step of a request that has reached the given point.
unfoldable pub resume_task : ℕ → Task → System → System
resume_task i idle s = s
resume_task i (checked id) s =
    begin i (if may_promote (get_status id s.tables) then allowed id else idle) s
resume_task i (allowed id) s = record {
  tables = (set_status id live s.tables).1;
  task = set_task i idle s.task;
}
resume_task i (demoting id) s = record {
  tables = (set_status id paper s.tables).1;
  task = set_task i idle s.task;
}

unfoldable pub handle : Event → System → System
unfolding resume_task
handle (begin_promote i id) s =
    begin i (if has_passing_result id s.tables then checked id else idle) s
handle (begin_demote i id) s =
    begin i (if is_live (get_status id s.tables) then demoting id else idle) s
handle (resume i) s = resume_task i (s.task i) s
handle (saved r) s = record s { tables = (save r s.tables).1 }
handle (registered id name now) s = record s {
  tables = (ensure_registered id name paper now s.tables).1;
}

unfoldable pub run : List Event → System → System
run [] s = s
run (e ∷ es) s = run es (handle e s)

-- A request that is on its way to make a strategy live has seen a passing result.
abbrev pub IsBackedTask : Tables → Task → Type 0
IsBackedTask t (checked id) = has_passing_result id t ≡ true
IsBackedTask t (allowed id) = has_passing_result id t ≡ true
IsBackedTask t _ = Unit

pub record IsBacked (s : System) : Type 0 where
  pub live_backed :
      (id : String) → get_status id s.tables ≡ some live → has_passing_result id s.tables ≡ true
  pub task_backed : (i : ℕ) → IsBackedTask s.tables (s.task i)

abbrev Grows : Tables → Tables → Type 0
Grows t t' = (id : String) → has_passing_result id t ≡ true → has_passing_result id t' ≡ true

IsBackedTask-Grows : (t t' : Tables) (k : Task) → Grows t t' → IsBackedTask t k → IsBackedTask t' k
IsBackedTask-Grows t t' idle g h = tt
IsBackedTask-Grows t t' (checked id) g h = g id h
IsBackedTask-Grows t t' (allowed id) g h = g id h
IsBackedTask-Grows t t' (demoting id) g h = tt

keep-append :
    (id : String) (r : SavedResult) (xs : List SavedResult)
    → ltb 0 (length (keep (is_passing id) xs)) ≡ true
    → ltb 0 (length (keep (is_passing id) (xs ++ (r ∷ [])))) ≡ true
keep-append id r [] h = ground arith
keep-append id r (x ∷ xs) h = ground (arith, keep-append id r xs)

save-Grows : (r : SavedResult) (t : Tables) → Grows t (save r t).1
unfolding has_passing_result save
save-Grows r t id h = keep-append id r t.backtest_results h

set_status-Grows :
    (k : String) (status : StrategyStatus) (t : Tables) → Grows t (set_status k status t).1
unfolding has_passing_result
set_status-Grows k status t id h = rw (results-set_status k status t) h

registered-Grows :
    (k name : String) (now : ℕ) (t : Tables) → Grows t (ensure_registered k name paper now t).1
unfolding has_passing_result ensure_registered
registered-Grows k name now t id h = ground arith

get_status-save :
    (id : String) (r : SavedResult) (t : Tables) → get_status id (save r t).1 ≡ get_status id t
unfolding get_status save
get_status-save id r t = refl

live_of_appended :
    (id : String) (x : Strategy) (xs : List Strategy)
    → x.status ≡ paper
    → (elim (find_first (has_id id) (xs ++ (x ∷ []))) [ none ↦ none | some s ↦ some s.status ])
      ≡ some live
    → (elim (find_first (has_id id) xs) [ none ↦ none | some s ↦ some s.status ]) ≡ some live
live_of_appended id x [] p h = ground arith
live_of_appended id x (y ∷ ys) p h = ground (arith, live_of_appended id x ys p)

live_of_registered :
    (id k name : String) (now : ℕ) (t : Tables)
    → get_status id (ensure_registered k name paper now t).1 ≡ some live
    → get_status id t ≡ some live
unfolding get_status ensure_registered
live_of_registered id k name now t h =
    ground (arith, live_of_appended id (new_row k name paper now) t.strategies refl)

live_of_set :
    (id k : String) (status : StrategyStatus) (t : Tables)
    → get_status id (set_status k status t).1 ≡ some live
    → (get_status id t ≡ some live) ⊎ ((k ≡ id) × (status ≡ live))
live_of_set id k status t h = ground (arith, get_status-set_status k id status t, eq_iff k id)

-- A step that changes the tables to `t` and one request to `k`.
stepped :
    (s : System) (t : Tables) (i : ℕ) (k : Task)
    → IsBacked s
    → Grows s.tables t
    → ((id : String) → get_status id t ≡ some live → has_passing_result id t ≡ true)
    → IsBackedTask t k
    → IsBacked (record { tables = t; task = set_task i k s.task })
stepped s t i k b g l h = record {
  live_backed = l;
  task_backed = λ j. elim (Bool-cases (nat_beq j i)) [
    | inl this ↦ rw this h
    | inr other ↦ rw other (IsBackedTask-Grows s.tables t (s.task j) g (b.task_backed j))
  ];
}

-- A step that changes only the tables, without making a strategy live.
grown :
    (s : System) (t : Tables)
    → IsBacked s
    → Grows s.tables t
    → ((id : String) → get_status id t ≡ some live → get_status id s.tables ≡ some live)
    → IsBacked (record s { tables = t })
grown s t b g l = record {
  live_backed = λ id h. g id (b.live_backed id (l id h));
  task_backed = λ j. IsBackedTask-Grows s.tables t (s.task j) g (b.task_backed j);
}

begun :
    (s : System) (i : ℕ) (k : Task) → IsBacked s → IsBackedTask s.tables k → IsBacked (begin i k s)
begun s i k b h = stepped s s.tables i k b (λ id p. p) b.live_backed h

wrote :
    (s : System) (i : ℕ) (id : String) (status : StrategyStatus)
    → IsBacked s
    → (status ≡ live → has_passing_result id s.tables ≡ true)
    → IsBacked
        (record { tables = (set_status id status s.tables).1; task = set_task i idle s.task })
wrote s i id status b h =
    let t = (set_status id status s.tables).1 in
    let g = set_status-Grows id status s.tables in
    stepped s t i idle b g
      (λ other l. elim (live_of_set other id status s.tables l) [
        | inl before ↦ g other (b.live_backed other before)
        | inr (same, is) ↦ subst (λ x. has_passing_result x t ≡ true) same (g id (h is))
      ])
      tt

resume-IsBacked :
    (i : ℕ) (k : Task) (s : System)
    → IsBacked s
    → IsBackedTask s.tables k
    → IsBacked (resume_task i k s)
unfolding resume_task
resume-IsBacked i idle s b h = b
resume-IsBacked i (checked id) s b h = elim (Bool-cases (may_promote (get_status id s.tables))) [
  | inl yes_ ↦ rw yes_ (begun s i (allowed id) b h)
  | inr no_ ↦ rw no_ (begun s i idle b tt)
]
resume-IsBacked i (allowed id) s b h = wrote s i id live b (λ _. h)
resume-IsBacked i (demoting id) s b h = wrote s i id paper b (λ e. cc)

handle-IsBacked : (e : Event) (s : System) → IsBacked s → IsBacked (handle e s)
unfolding handle
handle-IsBacked (begin_promote i id) s b = elim (Bool-cases (has_passing_result id s.tables)) [
  | inl yes_ ↦ rw yes_ (begun s i (checked id) b yes_)
  | inr no_ ↦ rw no_ (begun s i idle b tt)
]
handle-IsBacked (begin_demote i id) s b = elim (Bool-cases (is_live (get_status id s.tables))) [
  | inl yes_ ↦ rw yes_ (begun s i (demoting id) b tt)
  | inr no_ ↦ rw no_ (begun s i idle b tt)
]
handle-IsBacked (resume i) s b = resume-IsBacked i (s.task i) s b (b.task_backed i)
handle-IsBacked (saved r) s b =
    grown s (save r s.tables).1 b (save-Grows r s.tables)
      (λ id h. rw (get_status-save id r s.tables) at h)
handle-IsBacked (registered id name now) s b =
    grown s (ensure_registered id name paper now s.tables).1 b
      (registered-Grows id name now s.tables)
      (λ other. live_of_registered other id name now s.tables)

-- However promotions, demotions, saved backtests and registrations overlap, every live strategy has a
-- passing backtest on record, and so has every strategy that a request under way has found one for,
-- if both held at the start.
pub run-IsBacked : (es : List Event) (s : System) → IsBacked s → IsBacked (run es s)
unfolding run
run-IsBacked [] s b = b
run-IsBacked (e ∷ es) s b = run-IsBacked es (handle e s) (handle-IsBacked e s b)

-- The three steps of a promotion that nothing interrupts change the tables as one call of `promote`
-- does.
pub run-promote :
    (i : ℕ) (id : String) (s : System)
    → (run (begin_promote i id ∷ resume i ∷ resume i ∷ []) s).tables ≡ (promote id s.tables).1
unfolding run handle resume_task promote
run-promote i id s = ground arith
