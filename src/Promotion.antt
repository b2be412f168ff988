-- ===== src/Promotion.antt =====
-- src/polara/research_engine/status_service.py and promotion.py, with `has_passing_result` and
-- `save` of src/polara/backtester/service.py: the tables of strategies and of backtest results, and
-- the gate between paper and live trading.
pub mod Gate
pub mod Reach
use polara_quant.Base.{
  ℕ, ◌<◌, String, Bool, true, false, Option, none, some, not, ◌&&◌, List, [], ◌∷◌, ◌++◌, ◌==◌,
  string_eq, ltb, length, find_first, keep, update_where, if◌then◌else◌,
}
use polara_quant.Base.Effects.{
  Action, pure, raise, raise_if, gets, modify, ◌>>=◌, ◌>>◌, promotion, value_error, ok, err,
  database,
}

pub data StrategyStatus : Type 0 where
  inactive paper paused live : StrategyStatus

-- A row of the strategies table. The id is its primary key.
pub record Strategy : Type 0 where
  pub id : String
  pub name : String
  pub status : StrategyStatus
  pub created_at : ℕ

-- A row of the backtest_results table, as far as the gate reads it.
pub record SavedResult : Type 0 where
  pub strategy_id : String
  pub run_at : ℕ
  pub passed : Bool

pub record Tables : Type 0 where
  pub strategies : List Strategy
  pub backtest_results : List SavedResult

abbrev pub has_id : String → Strategy → Bool
has_id strategy_id s = s.id == strategy_id

abbrev new_row : String → String → StrategyStatus → ℕ → Strategy
new_row strategy_id name status now = record {
  id = strategy_id;
  name = name;
  status = status;
  created_at = now;
}

-- `StrategyStatusService.get_status`
unfoldable pub get_status : String → Tables → Option StrategyStatus
get_status strategy_id t = elim (find_first (has_id strategy_id) t.strategies) [
  | none ↦ none
  | some s ↦ some s.status
]

-- `StrategyStatusService.set_status`: the UPDATE, and its row count.
unfoldable pub set_status : String → StrategyStatus → Action Tables (Unit {0})
set_status strategy_id status t =
    let matched = keep (has_id strategy_id) t.strategies in
    let updated =
      update_where (has_id strategy_id) (λ s. record s { status = status }) t.strategies in
    raise_if (not (ltb 0 (length matched))) value_error (record t { strategies = updated })

-- `StrategyStatusService.ensure_registered`: ON CONFLICT (id) DO NOTHING. The names are unique too
-- (index uq_strategies_name), so a new id under a name that is taken is an error of the database.
unfoldable pub ensure_registered : String → String → StrategyStatus → ℕ → Action Tables (Unit {0})
ensure_registered strategy_id name status now t =
    elim (find_first (has_id strategy_id) t.strategies) [
      | some _ ↦ (ok tt, t)
      | none ↦ elim (find_first (λ s. s.name == name) t.strategies) [
        | some _ ↦ (err database, t)
        | none ↦ (
          ok tt,
          record t { strategies = t.strategies ++ (new_row strategy_id name status now ∷ []) },
        )
      ]
    ]

-- `BacktestService.save`
unfoldable pub save : SavedResult → Action Tables (Unit {0})
save result = modify (λ t. record t { backtest_results = t.backtest_results ++ (result ∷ []) })

-- `SELECT COUNT(*) ... WHERE strategy_id = :strategy_id AND passed = 1`
abbrev pub is_passing : String → SavedResult → Bool
is_passing strategy_id r = r.strategy_id == strategy_id && r.passed

-- `BacktestService.has_passing_result`
unfoldable pub has_passing_result : String → Tables → Bool
has_passing_result strategy_id t = ltb 0 (length (keep (is_passing strategy_id) t.backtest_results))

-- `current in ("paper", "paused")`
abbrev pub may_promote : Option StrategyStatus → Bool
may_promote (some StrategyStatus.paper) = true
may_promote (some StrategyStatus.paused) = true
may_promote _ = false

abbrev pub is_live : Option StrategyStatus → Bool
is_live (some StrategyStatus.live) = true
is_live _ = false

-- `PromotionGate.promote`
unfoldable pub promote : String → Action Tables (Unit {0})
promote strategy_id = do
  passing ← gets (has_passing_result strategy_id)
  raise_if (not passing) promotion
  current ← gets (get_status strategy_id)
  raise_if (not (may_promote current)) promotion
  set_status strategy_id live

-- `PromotionGate.demote`
unfoldable pub demote : String → Action Tables (Unit {0})
demote strategy_id = do
  current ← gets (get_status strategy_id)
  raise_if (not (is_live current)) promotion
  set_status strategy_id paper
