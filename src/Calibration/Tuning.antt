-- ===== src/Calibration/Tuning.antt =====
-- The search through the grid finds the best parameters.
use polara_quant.Base.{
  ℕ, ◌≡◌, ◌⊎◌, inl, inr, refl, sym, ◌∙◌, ap, String, Option, none, some, List, [], ◌∷◌, length, ltb,
  All, Any, Bool-cases, arith,
}
use mathlib.Core.Path.{subst}
use polara_quant.Base.Effects.{Result, Error, ok, err, Result-cases}
use polara_quant.Base.Results.{◌>>=◌}
use polara_quant.Decimal.{Decimal, IsDecimal, ◌≼◌, zero_d, le_of_lt, le_of_not_lt}
use polara_quant.Strategies.{Stamp}
use polara_quant.Backtester.Replay.{BacktestResult}
use polara_quant.Calibration.{
  Tunable, CalibrationEngine, run_backtest, better, search_grid, tune_from, tune_parameters,
  product,
}

module _ {D V S : Type 0} ⦃d : Decimal D⦄ (laws : IsDecimal D) (root : D → D)
    (tunable : Tunable D V S) (stamps : S → ℕ → Stamp) (now : ℕ) (engine : CalibrationEngine D)
    (s : S) (symbol : String) where
  abbrev tried : List (String × V) → Result (Option (BacktestResult D))
  tried combo = run_backtest root tunable stamps now engine (tunable.replace combo s) symbol

  -- A backtest has no higher ratio than another one.
  abbrev pub NotBetter : D → Result (Option (BacktestResult D)) → Type 0
  NotBetter best (ok (some result)) = result.sharpe_ratio ≼ best
  NotBetter best (ok none) = Unit
  NotBetter best (err e) = Unit

  -- The parameters of a grid with which the backtest has a ratio.
  abbrev pub Reached : D × List (String × V) → List (String × V) → Type 0
  Reached best combo =
      (best.1 ≡ combo)
      × ((result : BacktestResult D) × (tried combo ≡ ok (some result))
          × (best.0 ≡ result.sharpe_ratio))

  -- What a search that starts from a best result ends with.
  pub data Searched (combos : List (List (String × V))) (start : D × List (String × V))
      : Result (D × List (String × V)) → Type 0 where
    raised : (e : Error) → Any (λ combo. tried combo ≡ err e) combos → Searched combos start (err e)
    found :
        (best : D × List (String × V))
        → start.0 ≼ best.0
        → All (λ combo. NotBetter best.0 (tried combo)) combos
        → (best ≡ start) ⊎ Any (Reached best) combos
        → Searched combos start (ok best)

  NotBetter-weaken :
      (a b : D) (r : Result (Option (BacktestResult D))) → a ≼ b → NotBetter a r → NotBetter b r
  NotBetter-weaken a b (ok (some result)) h n = laws.le_trans _ a b n h
  NotBetter-weaken a b (ok none) h n = tt
  NotBetter-weaken a b (err e) h n = tt

  -- One turn: the best ratio does not fall, and the new result is not better.
  better-bounds :
      (combo : List (String × V)) (o : Option (BacktestResult D)) (best : D × List (String × V))
      → let next = better root tunable stamps now engine combo o best in
        (best.0 ≼ next.0)
        × NotBetter next.0 (ok o)
        × ((next ≡ best)
            ⊎ ((result : BacktestResult D) × (o ≡ some result)
                × (next ≡ (result.sharpe_ratio, combo))))
  better-bounds combo none best = (laws.le_refl best.0, tt, inl refl)
  better-bounds combo (some result) best = elim (Bool-cases (d.lt best.0 result.sharpe_ratio)) [
    | inl up ↦ rw up (
      le_of_lt laws best.0 result.sharpe_ratio up,
      laws.le_refl result.sharpe_ratio,
      inr (result, refl, refl),
    )
    | inr flat ↦
        rw flat (laws.le_refl best.0, le_of_not_lt laws best.0 result.sharpe_ratio flat, inl refl)
  ]

  Searched-step :
      (combo : List (String × V)) (combos : List (List (String × V)))
      (start : D × List (String × V)) (o : Option (BacktestResult D))
      (r : Result (D × List (String × V)))
      → tried combo ≡ ok o
      → Searched combos (better root tunable stamps now engine combo o start) r
      → Searched (combo ∷ combos) start r
  Searched-step combo combos start o _ answer (raised e a) = raised e (inr a)
  Searched-step combo combos start o _ answer (found best up all which) =
      let (le, not_better, kept) = better-bounds combo o start in
      found best (laws.le_trans _ _ _ le up)
        (
          subst (NotBetter best.0) (sym answer) (NotBetter-weaken _ best.0 (ok o) up not_better),
          all,
        )
        (elim which [
          | inr later ↦ inr (inr later)
          | inl same ↦ elim kept [
            | inl old ↦ inl (same ∙ old)
            | inr (result, is, new) ↦ inr (
                inl (
                  ap (λ b. b.1) (same ∙ new),
                  (result, answer ∙ ap ok is, ap (λ b. b.0) (same ∙ new)),
                ))
          ]
        ])

  search_grid-Searched :
      (combos : List (List (String × V))) (start : D × List (String × V))
      → Searched combos start (search_grid root tunable stamps now engine s symbol combos start)
  unfolding search_grid
  search_grid-Searched [] start = found start (laws.le_refl start.0) tt (inl refl)
  search_grid-Searched (combo ∷ combos) start = elim (Result-cases (tried combo)) [
    | inl (e, failed) ↦ rw failed (raised e (inl failed))
    | inr (o, answer) ↦ rw answer (
        Searched-step combo combos start o _ answer
          (search_grid-Searched combos (better root tunable stamps now engine combo o start)))
  ]

  -- What a call of the tuning answers.
  pub data Tuned : Result (List (String × V) × D) → Type 0 where
    no_grid : length (tunable.param_grid s) ≡ 0 → Tuned (ok ([], zero_d))
    no_baseline :
        run_backtest root tunable stamps now engine s symbol ≡ ok none → Tuned (ok ([], zero_d))
    fails :
        (e : Error)
        → (run_backtest root tunable stamps now engine s symbol ≡ err e)
          ⊎ Any (λ combo. tried combo ≡ err e) (product (tunable.param_grid s))
        → Tuned (err e)
    tuned :
        (baseline : BacktestResult D) (best : D × List (String × V))
        → run_backtest root tunable stamps now engine s symbol ≡ ok (some baseline)
        → baseline.sharpe_ratio ≼ best.0
        → All (λ combo. NotBetter best.0 (tried combo)) (product (tunable.param_grid s))
        → (best ≡ (baseline.sharpe_ratio, tunable.current_params s))
          ⊎ Any (Reached best) (product (tunable.param_grid s))
        → Tuned (ok (best.1, d.sub best.0 baseline.sharpe_ratio))

  from_search :
      (baseline : BacktestResult D) (r : Result (D × List (String × V)))
      → run_backtest root tunable stamps now engine s symbol ≡ ok (some baseline)
      → Searched
          (product (tunable.param_grid s))
          (baseline.sharpe_ratio, tunable.current_params s)
          r
      → Tuned (r >>= λ best. ok (best.1, d.sub best.0 baseline.sharpe_ratio))
  from_search baseline _ h (raised e a) = fails e (inr a)
  from_search baseline _ h (found best up all which) = tuned baseline best h up all which

  -- Where the strategy has a grid and a backtest with a result, the tuning answers with the parameters of
  -- a backtest that has the highest ratio of all those on the grid and of the strategy as it is, which
  -- keeps its own parameters if none is higher; and with the difference to its own ratio. Without a grid
  -- or a result it answers with no parameters and no difference, and it raises only what a backtest does.
  pub tune_parameters-Tuned : Tuned (tune_parameters root tunable stamps now engine s symbol)
  unfolding tune_parameters
  tune_parameters-Tuned = elim (Bool-cases (ltb (length (tunable.param_grid s)) 1)) [
    | inl empty ↦ rw empty (no_grid (ground arith))
    | inr grid ↦
        rw grid (elim (Result-cases (run_backtest root tunable stamps now engine s symbol)) [
          | inl (e, failed) ↦ rw failed (fails e (inl failed))
          | inr (o, answer) ↦ rw answer (from_baseline o answer)
        ])
  ]
    where
      from_baseline :
          (o : Option (BacktestResult D))
          → run_backtest root tunable stamps now engine s symbol ≡ ok o
          → Tuned (tune_from root tunable stamps now engine s symbol o)
      from_baseline none h = no_baseline h
      from_baseline (some baseline) h =
          from_search baseline _ h (search_grid-Searched (product (tunable.param_grid s)) _)
