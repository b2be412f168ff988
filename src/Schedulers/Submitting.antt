-- ===== src/Schedulers/Submitting.antt =====
-- What the loops of the schedulers send to the order manager.
use polara_quant.Base.{
  ℕ, suc, ◌≡◌, inl, inr, String, Bool, true, false, Option, none, some, List, [], ◌∷◌, length,
  last_or, All, All-map, Any, Bool-cases, if◌then◌else◌,
}
use polara_quant.Base.Effects.{Result, ok, err}
use polara_quant.Base.Results.{◌>>=◌}
use polara_quant.Decimal.{Decimal}
use polara_quant.Schemas.{Signal, Bar}
use polara_quant.Strategies.{Strategy, Stamp}
use polara_quant.OrderManager.{OrderManager}
use polara_quant.Schedulers.{
  Registry, Turn, evaluate, on_fresh, is_stale, submit, run_all, is_intraday, run_intraday,
}
use polara_quant.Schedulers.Confluence.{Bias, apply_bias_filter, filtered, evaluate_id, run_ids}
use polara_quant.Schedulers.Orders.{Submits, done, pass, next}

module _ {D : Type 0} where
  -- A property of the signal, if there is one.
  abbrev pub OnSignal : (Signal D → Type 0) → Result (Option (Signal D)) → Type 0
  OnSignal P (ok (some s)) = P s
  OnSignal P (ok none) = Unit
  OnSignal P (err e) = Unit

  abbrev pub Gives : (Signal D → Type 0) → Strategy D → Type 0
  Gives P s = (stamp : Stamp) (bars : List (Bar D)) → OnSignal P (s.on_bars stamp bars)

  -- Whatever the bars, the signal of a strategy is for the strategy's own symbol.
  abbrev pub SpeaksForItself : Strategy D → Type 0
  SpeaksForItself s = Gives (λ signal. signal.symbol ≡ s.symbol) s

  pub OnSignal-map :
      (P Q : Signal D → Type 0) (r : Result (Option (Signal D)))
      → ((s : Signal D) → P s → Q s)
      → OnSignal P r
      → OnSignal Q r
  OnSignal-map P Q (ok (some s)) f h = f s h
  OnSignal-map P Q (ok none) f h = tt
  OnSignal-map P Q (err e) f h = tt

  OnSignal-unless :
      (P : Signal D → Type 0) (test : Bool) (r : Result (Option (Signal D)))
      → OnSignal P r
      → OnSignal P (if test then ok none else r)
  OnSignal-unless P true r h = tt
  OnSignal-unless P false r h = h

  on_fresh-OnSignal :
      (P : Signal D → Type 0) (now : ℕ) (s : Strategy D) (stamp : Stamp) (bars : List (Bar D))
      → Gives P s
      → OnSignal P (on_fresh now s stamp bars)
  unfolding on_fresh
  on_fresh-OnSignal P now s stamp [] g = tt
  on_fresh-OnSignal P now s stamp (b ∷ bars) g =
      OnSignal-unless P (is_stale now (last_or b bars)) _ (g stamp (b ∷ bars))

  OnSignal-bind :
      {A : Type 0} (P : Signal D → Type 0) (m : Result A) (f : A → Result (Option (Signal D)))
      → ((a : A) → OnSignal P (f a))
      → OnSignal P (m >>= f)
  OnSignal-bind P (ok a) f h = h a
  OnSignal-bind P (err e) f h = tt

  evaluate-OnSignal :
      (P : Signal D → Type 0) (now : ℕ) (s : Strategy D) (turn : Turn D)
      → Gives P s
      → OnSignal P (evaluate now s turn)
  unfolding evaluate
  evaluate-OnSignal P now s turn g =
      OnSignal-bind P (turn.get_bars s.symbol s.bars_needed s.bar_size) _
        (λ bars. on_fresh-OnSignal P now s turn.stamp bars g)

  -- If each strategy of a kind gives signals of its own, then each gives signals that are some one's.
  pub Gives-Any :
      (Kind : Strategy D → Type 0) (Own : Strategy D → Signal D → Type 0)
      (strategies : List (Strategy D))
      → All (λ s. Kind s → Gives (Own s) s) strategies
      → All (λ s. Kind s → Gives (λ signal. Any (λ x. Own x signal) strategies) s) strategies
  Gives-Any Kind Own [] a = tt
  Gives-Any Kind Own (s ∷ ss) (g, gs) = (
    λ k stamp bars. OnSignal-map _ _ (s.on_bars stamp bars) (λ signal e. inl e) (g k stamp bars),
    All-map
        (λ x h k stamp bars.
          OnSignal-map _ _ (x.on_bars stamp bars) (λ signal e. inr e) (h k stamp bars))
        ss (Gives-Any Kind Own ss gs),
  )

module _ {D : Type 0} ⦃d : Decimal D⦄ (Allowed : Signal D → Type 0) where
  submit-Submits :
      (turn : Turn D) (r : Result (Option (Signal D))) {n : ℕ} {m t : OrderManager D}
      → OnSignal Allowed r
      → Submits Allowed n (submit turn r m) t
      → Submits Allowed (suc n) m t
  unfolding submit
  submit-Submits turn (ok (some s)) h rest = next turn.around s h rest
  submit-Submits turn (ok none) h rest = pass rest
  submit-Submits turn (err e) h rest = pass rest

  pub run_all-Submits :
      (now : ℕ) (turns : ℕ → Turn D) (i : ℕ) (strategies : List (Strategy D)) (m : OrderManager D)
      → All (Gives Allowed) strategies
      → Submits Allowed (length strategies) m (run_all now turns i strategies m)
  unfolding run_all
  run_all-Submits now turns i [] m g = done
  run_all-Submits now turns i (s ∷ ss) m (g, gs) =
      submit-Submits (turns i) (evaluate now s (turns i))
        (evaluate-OnSignal Allowed now s (turns i) g) (run_all-Submits now turns (suc i) ss _ gs)

  pub run_intraday-Submits :
      (now : ℕ) (turns : ℕ → Turn D) (i : ℕ) (strategies : List (Strategy D)) (m : OrderManager D)
      → All (λ s. (is_intraday s ≡ true) → Gives Allowed s) strategies
      → Submits Allowed (length strategies) m (run_intraday now turns i strategies m)
  unfolding run_intraday
  run_intraday-Submits now turns i [] m g = done
  run_intraday-Submits now turns i (s ∷ ss) m (g, gs) = elim (Bool-cases (is_intraday s)) [
    | inl yes_it ↦ rw yes_it (
        submit-Submits (turns i) (evaluate now s (turns i))
          (evaluate-OnSignal Allowed now s (turns i) (g yes_it))
          (run_intraday-Submits now turns (suc i) ss _ gs))
    | inr other ↦ rw other (pass (run_intraday-Submits now turns (suc i) ss m gs))
  ]

  pub run_ids-Submits :
      (registry : Registry D) (bias : Bias) (now : ℕ) (turns : ℕ → Turn D) (i : ℕ)
      (ids : List String) (m : OrderManager D)
      → ((signal : Signal D) → OnSignal Allowed (ok (apply_bias_filter signal bias)))
      → Submits Allowed (length ids) m (run_ids registry bias now turns i ids m)
  unfolding run_ids
  run_ids-Submits registry bias now turns i [] m f = done
  run_ids-Submits registry bias now turns i (id ∷ ids) m f =
      submit-Submits (turns i)
        (evaluate_id registry now id (turns i) >>= λ signal. ok (filtered bias signal))
        (OnSignal-bind Allowed (evaluate_id registry now id (turns i)) _ (λ o. filtered-OnSignal o))
        (run_ids-Submits registry bias now turns (suc i) ids _ f)
    where
      filtered-OnSignal : (o : Option (Signal D)) → OnSignal Allowed (ok (filtered bias o))
      filtered-OnSignal none = tt
      filtered-OnSignal (some signal) = f signal
