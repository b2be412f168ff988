-- ===== src/Schedulers/Confluence.antt =====
-- src/polara/research_engine/confluent_scheduler.py: the long-term strategies give a bias, and the signals of
-- the intraday strategies that do not agree with it are dropped.
use polara_quant.Base.{
  ℕ, suc, String, Option, none, some, List, [], ◌∷◌, map, length, if◌then◌else◌,
}
use polara_quant.Base.Effects.{Result, ok, err}
use polara_quant.Base.Results.{◌>>=◌}
use polara_quant.Decimal.{Decimal, zero_d, of_nat, sum_from}
use polara_quant.Schemas.{Signal}
use polara_quant.OrderManager.{OrderManager}
use polara_quant.Schedulers.{Registry, Turn, get, evaluate, submit}

pub data Bias : Type 0 where
  bullish bearish neutral : Bias

pub record ConfluentScheduler (D : Type 0) : Type 0 where
  pub registry : Registry D
  pub long_term_ids : List String
  pub intraday_ids : List String
  pub min_bias_strength : D

module _ {D : Type 0} where
  -- The evaluation of the strategy with an id, which may not be registered.
  abbrev pub evaluate_id : Registry D → ℕ → String → Turn D → Result (Option (Signal D))
  evaluate_id registry now id turn = get id registry >>= λ strategy. evaluate now strategy turn

  -- The signals of `_compute_bias`: what raises is logged and left out.
  abbrev pub prepend : Result (Option (Signal D)) → List (Signal D) → List (Signal D)
  prepend (ok (some s)) signals = s ∷ signals
  prepend (ok none) signals = signals
  prepend (err e) signals = signals

  unfoldable pub long_term_signals :
      Registry D → ℕ → (ℕ → Turn D) → ℕ → List String → List (Signal D)
  unfolding get evaluate
  long_term_signals registry now turns i [] = []
  long_term_signals registry now turns i (id ∷ ids) =
      prepend (evaluate_id registry now id (turns i))
        (long_term_signals registry now turns (suc i) ids)

module _ {D : Type 0} ⦃d : Decimal D⦄ where
  unfoldable pub bias_of : (min_bias_strength : D) → List (Signal D) → Bias
  bias_of threshold [] = neutral
  bias_of threshold (s ∷ signals) =
      let net = sum_from zero_d (map (λ x. x.strength) (s ∷ signals)) in
      let avg = d.div net (of_nat (length (s ∷ signals))) in
      if d.lt threshold avg
      then bullish
      else if d.lt avg (d.neg threshold)
      then bearish
      else neutral

  unfoldable pub compute_bias : ConfluentScheduler D → ℕ → (ℕ → Turn D) → Bias
  unfolding long_term_signals bias_of
  compute_bias c now turns =
      bias_of c.min_bias_strength (long_term_signals c.registry now turns 0 c.long_term_ids)

  unfoldable pub apply_bias_filter : Signal D → Bias → Option (Signal D)
  apply_bias_filter signal bullish = if d.le signal.strength zero_d then none else some signal
  apply_bias_filter signal bearish = if d.le zero_d signal.strength then none else some signal
  apply_bias_filter signal neutral = some signal

  abbrev pub filtered : Bias → Option (Signal D) → Option (Signal D)
  filtered bias none = none
  filtered bias (some signal) = apply_bias_filter signal bias

  -- The loop of `_run_once`, from the id with an index on.
  unfoldable pub run_ids :
      Registry D → Bias → ℕ → (ℕ → Turn D) → ℕ → List String → OrderManager D → OrderManager D
  unfolding get evaluate submit apply_bias_filter
  run_ids registry bias now turns i [] m = m
  run_ids registry bias now turns i (id ∷ ids) m = run_ids registry bias now turns (suc i) ids (
      submit (turns i)
        (evaluate_id registry now id (turns i) >>= λ signal. ok (filtered bias signal)) m)

  -- `_run_once`: the instants and the answers that the bias is computed with are others.
  unfoldable pub run_once :
      ConfluentScheduler D
      → (bias_now : ℕ) → (bias_turns : ℕ → Turn D) → (now : ℕ) → (turns : ℕ → Turn D)
      → OrderManager D
      → OrderManager D
  unfolding compute_bias run_ids
  run_once c bias_now bias_turns now turns =
      run_ids c.registry (compute_bias c bias_now bias_turns) now turns 0 c.intraday_ids
