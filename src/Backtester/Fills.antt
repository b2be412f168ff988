-- ===== src/Backtester/Fills.antt =====
-- Where the prices of the trades that `Backtester.run` of src/polara/backtester/engine.py makes are from.
use polara_quant.Base.{
  ℕ, zero, suc, ◌+◌, ◌-◌, ◌≡◌, refl, sym, ap, ◌∙◌, Bool, true, Option, none, some, List, [], ◌∷◌,
  ◌++◌, arith, length, length-append, All, All-append, ◌⊎◌, inl, inr, Bool-cases,
}
use mathlib.Core.List.{append_assoc}
use polara_quant.Base.Effects.{ok, arithmetic}
use polara_quant.Base.Results.{bind-eq-ok, reject_if-eq-ok}
use polara_quant.Decimal.{Decimal, zero_d}
use polara_quant.Schemas.{Bar, Signal}
use polara_quant.Strategies.{Stamp}
use polara_quant.Backtester.Replay.{
  Backtester, BacktestTrade, Held, Replay, apply_signal, fill_raises, mark, replay, replay_from,
  close_remaining, initial, last_close,
}

module _ {D : Type 0} ⦃d : Decimal D⦄ (b : Backtester D) (stamps : ℕ → Stamp)
    (bars : List (Bar D)) where
  -- The bar at an index is the one right after a window of bars on which the strategy gave a signal
  -- whose strength passes a test, and its open is the price.
  abbrev pub Follows : (D → Bool) → ℕ → D → Type 0
  Follows test index price =
      (window : List (Bar D)) × (fill : Bar D) × (after : List (Bar D)) × (signal : Signal D)
      × (bars ≡ window ++ (fill ∷ after))
      × (length window ≡ index)
      × (b.strategy.on_bars (stamps (index - 1)) window ≡ ok (some signal))
      × (test signal.strength ≡ true)
      × (price ≡ fill.open_price)

  abbrev pub IsEntry : ℕ → D → Type 0
  IsEntry = Follows (λ x. d.lt zero_d x)

  abbrev pub IsExit : ℕ → D → Type 0
  IsExit = Follows (λ x. d.lt x zero_d)

  -- Entered after a signal to buy, and left after one to sell or at the last close.
  abbrev pub IsFilled : BacktestTrade D → Type 0
  IsFilled t =
      IsEntry t.entry_bar_index t.entry_price
      × (IsExit t.exit_bar_index t.exit_price
          ⊎ (t.exit_bar_index ≡ length bars - 1) × (t.exit_price ≡ last_close zero_d bars))

  abbrev IsOpened : Option (Held D) → Type 0
  IsOpened none = Unit {0}
  IsOpened (some p) = IsEntry p.entry_idx p.entry_price

  abbrev AreFilled : Replay D → Type 0
  AreFilled st = IsOpened st.position × All IsFilled st.trades

  -- One fill, from a state with its fields apart.
  fill-AreFilled :
      (i : ℕ) (window : List (Bar D)) (fill : Bar D) (after : List (Bar D)) (cash : D)
      (signal : Option (Signal D)) (position : Option (Held D)) (equity : List D)
      (ts : List (BacktestTrade D))
      → bars ≡ window ++ (fill ∷ after)
      → length window ≡ i + 1
      → b.strategy.on_bars (stamps i) window ≡ ok signal
      → IsOpened position × All IsFilled ts
      → AreFilled (
          apply_signal b
            (i + 1)
            fill.open_price
            signal
            (record { cash = cash; position = position; equity_curve = equity; trades = ts }))
  unfolding apply_signal
  fill-AreFilled i window fill after cash none position equity ts e n s h = h
  fill-AreFilled i window fill after cash (some signal) none equity ts e n s (_, h) =
      elim (Bool-cases (d.lt zero_d signal.strength)) [
        | inl buys ↦
            let before : i + 1 - 1 ≡ i = omega arith in
            rw buys (
              (
                window,
                fill,
                after,
                signal,
                e,
                n,
                ap (λ j. b.strategy.on_bars (stamps j) window) before ∙ s,
                buys,
                refl,
              ),
              h,
            )
        | inr passes ↦ rw passes (tt, h)
      ]
  fill-AreFilled i window fill after cash (some signal) (some p) equity ts e n s (o, h) =
      elim (Bool-cases (d.lt signal.strength zero_d)) [
        | inl sells ↦
            let before : i + 1 - 1 ≡ i = omega arith in
            rw sells (
              tt,
              All-append IsFilled ts _ h (
                (
                  o,
                  inl (
                    window,
                    fill,
                    after,
                    signal,
                    e,
                    n,
                    ap (λ j. b.strategy.on_bars (stamps j) window) before ∙ s,
                    sells,
                    refl,
                  ),
                ),
                tt,
              ),
            )
        | inr passes ↦ rw passes (o, h)
      ]

  replay-AreFilled :
      (i : ℕ) (window : List (Bar D)) (current : Bar D) (rest : List (Bar D)) (st t : Replay D)
      → bars ≡ window ++ rest
      → length window ≡ i + 1
      → AreFilled st
      → replay b stamps i window current rest st ≡ ok t
      → AreFilled t
  unfolding replay mark
  replay-AreFilled i window current [] st t all n h e = let same : t ≡ st = cc in rw same h
  replay-AreFilled i window current (fill ∷ rest) st t all n h e =
      let (signal, given, checked) = bind-eq-ok (b.strategy.on_bars (stamps i) window) _ e in
      let (_, more) =
        reject_if-eq-ok (fill_raises b fill.open_price signal st) arithmetic _ checked in
      let next : Replay D = apply_signal b (i + 1) fill.open_price signal st in
      replay-AreFilled (i + 1) (window ++ (fill ∷ [])) fill rest (mark current.close next) t
        (all ∙ sym (append_assoc window (fill ∷ []) rest))
        (omega (arith, length-append window (fill ∷ [])))
        (fill-AreFilled i window fill rest st.cash signal st.position st.equity_curve st.trades all
          n given h)
        more

  replay_from-AreFilled :
      (i : ℕ) (before rest : List (Bar D)) (t : Replay D)
      → bars ≡ before ++ rest
      → length before + i ≡ b.strategy.bars_needed
      → replay_from b stamps i before rest ≡ ok t
      → AreFilled t
  unfolding replay_from
  replay_from-AreFilled i before [] t all n e = let same : t ≡ initial = cc in rw same (tt, tt)
  replay_from-AreFilled zero before (bar ∷ rest) t all n e =
      replay-AreFilled b.strategy.bars_needed (before ++ (bar ∷ [])) bar rest initial t
        (all ∙ sym (append_assoc before (bar ∷ []) rest))
        (omega (arith, length-append before (bar ∷ []))) (tt, tt) e
  replay_from-AreFilled (suc i) before (bar ∷ rest) t all n e =
      replay_from-AreFilled i (before ++ (bar ∷ [])) rest t
        (all ∙ sym (append_assoc before (bar ∷ []) rest))
        (omega (arith, length-append before (bar ∷ []))) e

  -- The position that is left is closed at the last close.
  remaining-AreFilled :
      (cash : D) (position : Option (Held D)) (equity : List D) (ts : List (BacktestTrade D))
      → IsOpened position × All IsFilled ts
      → All IsFilled
          (close_remaining b bars (record {
            cash = cash;
            position = position;
            equity_curve = equity;
            trades = ts;
          })).trades
  unfolding close_remaining
  remaining-AreFilled cash none equity ts (o, h) = h
  remaining-AreFilled cash (some p) equity ts (o, h) =
      All-append IsFilled ts _ h ((o, inr (refl, refl)), tt)

  pub trades-AreFilled :
      (st : Replay D)
      → replay_from b stamps b.strategy.bars_needed [] bars ≡ ok st
      → All IsFilled (close_remaining b bars st).trades
  trades-AreFilled st e =
      remaining-AreFilled st.cash st.position st.equity_curve st.trades
        (replay_from-AreFilled b.strategy.bars_needed [] bars st refl (omega arith) e)
