-- ===== src/Backtester/Accounts.antt =====
-- The cash that `Backtester.run` of src/polara/backtester/engine.py ends with, and its trades.
use polara_quant.Base.{
  ℕ, zero, suc, ◌+◌, ◌-◌, ◌≡◌, refl, Option, none, some, List, [], ◌∷◌, ◌++◌, length, Bool-cases,
  inl, inr, sym,
}
use polara_quant.Base.Effects.{ok, arithmetic}
use polara_quant.Base.Results.{bind-eq-ok, reject_if-eq-ok}
use polara_quant.Decimal.{Decimal, zero_d}
use polara_quant.Schemas.{Bar, Signal}
use polara_quant.Strategies.{Stamp}
use polara_quant.Backtester.Replay.{
  Backtester, BacktestTrade, Held, Replay, apply_signal, fill_raises, mark, replay, replay_from,
  close_remaining, initial, starting_capital, get_commission, shares_for, close_position,
}

module _ {D : Type 0} ⦃d : Decimal D⦄ where
  -- The commission of a trade's entry.
  abbrev pub entry_cost : Backtester D → D → D
  entry_cost b price = get_commission b (shares_for b price)

  -- The cash after a trade: the commission of the entry is paid, and the profit is added.
  abbrev pub settle : Backtester D → D → List (BacktestTrade D) → D
  settle b cash [] = cash
  settle b cash (t ∷ ts) = settle b (d.add (d.sub cash (entry_cost b t.entry_price)) t.pnl) ts

  settle-append :
      (b : Backtester D) (cash : D) (ts : List (BacktestTrade D)) (t : BacktestTrade D)
      → settle b cash (ts ++ (t ∷ []))
        ≡ d.add (d.sub (settle b cash ts) (entry_cost b t.entry_price)) t.pnl
  settle-append b cash [] t = refl
  settle-append b cash (x ∷ ts) t =
      settle-append b (d.add (d.sub cash (entry_cost b x.entry_price)) x.pnl) ts t

  -- The cash of a state without a position is that of its trades; with one, its commission is paid too.
  abbrev BalancedAs : Backtester D → D → Option (Held D) → List (BacktestTrade D) → Type 0
  BalancedAs b cash none ts = cash ≡ settle b starting_capital ts
  BalancedAs b cash (some p) ts =
      (cash ≡ d.sub (settle b starting_capital ts) (entry_cost b p.entry_price))
      × (p.shares ≡ shares_for b p.entry_price)

  abbrev IsBalanced : Backtester D → Replay D → Type 0
  IsBalanced b st = BalancedAs b st.cash st.position st.trades

  close-IsBalanced :
      (b : Backtester D) (j : ℕ) (price cash : D) (p : Held D) (equity : List D)
      (ts : List (BacktestTrade D))
      → BalancedAs b cash (some p) ts
      → IsBalanced b (
          close_position b j price p
            (record { cash = cash; position = some p; equity_curve = equity; trades = ts }))
  unfolding close_position
  close-IsBalanced b j price cash p equity ts (paid, shares) =
      rw (paid, shares) (sym (settle-append b starting_capital ts _))

  fill-IsBalanced :
      (b : Backtester D) (i : ℕ) (price cash : D) (signal : Option (Signal D))
      (position : Option (Held D)) (equity : List D) (ts : List (BacktestTrade D))
      → BalancedAs b cash position ts
      → IsBalanced b (
          apply_signal b i price signal
            (record { cash = cash; position = position; equity_curve = equity; trades = ts }))
  unfolding apply_signal
  fill-IsBalanced b i price cash none position equity ts h = h
  fill-IsBalanced b i price cash (some signal) none equity ts h =
      elim (Bool-cases (d.lt zero_d signal.strength)) [
        | inl buys ↦ rw (buys, h) (refl, refl)
        | inr passes ↦ rw passes h
      ]
  fill-IsBalanced b i price cash (some signal) (some p) equity ts h =
      elim (Bool-cases (d.lt signal.strength zero_d)) [
        | inl sells ↦ rw sells (close-IsBalanced b i price cash p equity ts h)
        | inr passes ↦ rw passes h
      ]

  replay-IsBalanced :
      (b : Backtester D) (stamps : ℕ → Stamp) (i : ℕ) (window : List (Bar D)) (current : Bar D)
      (rest : List (Bar D)) (st t : Replay D)
      → IsBalanced b st
      → replay b stamps i window current rest st ≡ ok t
      → IsBalanced b t
  unfolding replay mark
  replay-IsBalanced b stamps i window current [] st t h e = let same : t ≡ st = cc in rw same h
  replay-IsBalanced b stamps i window current (fill ∷ rest) st t h e =
      let (signal, _, checked) = bind-eq-ok (b.strategy.on_bars (stamps i) window) _ e in
      let (_, more) =
        reject_if-eq-ok (fill_raises b fill.open_price signal st) arithmetic _ checked in
      let next : Replay D = apply_signal b (i + 1) fill.open_price signal st in
      replay-IsBalanced b stamps (i + 1) (window ++ (fill ∷ [])) fill rest (mark current.close next)
        t
        (fill-IsBalanced b (i + 1) fill.open_price st.cash signal st.position st.equity_curve
          st.trades h)
        more

  replay_from-IsBalanced :
      (b : Backtester D) (stamps : ℕ → Stamp) (i : ℕ) (before bars : List (Bar D)) (t : Replay D)
      → replay_from b stamps i before bars ≡ ok t
      → IsBalanced b t
  unfolding replay_from
  replay_from-IsBalanced b stamps i before [] t e = let same : t ≡ initial = cc in rw same refl
  replay_from-IsBalanced b stamps zero before (bar ∷ bars) t e =
      replay-IsBalanced b stamps b.strategy.bars_needed (before ++ (bar ∷ [])) bar bars initial t
        refl e
  replay_from-IsBalanced b stamps (suc i) before (bar ∷ bars) t e =
      replay_from-IsBalanced b stamps i (before ++ (bar ∷ [])) bars t e

  remaining-IsBalanced :
      (b : Backtester D) (bars : List (Bar D)) (cash : D) (position : Option (Held D))
      (equity : List D) (ts : List (BacktestTrade D))
      → BalancedAs b cash position ts
      → let st =
          close_remaining b bars
            (record { cash = cash; position = position; equity_curve = equity; trades = ts }) in
        (st.position ≡ none) × (st.cash ≡ settle b starting_capital st.trades)
  unfolding close_remaining close_position
  remaining-IsBalanced b bars cash none equity ts h = (refl, h)
  remaining-IsBalanced b bars cash (some p) equity ts h =
      (refl, close-IsBalanced b (length bars - 1) _ cash p equity ts h)

  -- If no call of the strategy and no fill raises, a run ends with no position, and with the cash that its trades
  -- leave of the starting capital: each takes the commission of its entry, which is no part of its
  -- profit, and then adds the profit that the result's statistics are made of.
  pub final_cash-eq-settle :
      (b : Backtester D) (stamps : ℕ → Stamp) (bars : List (Bar D)) (st : Replay D)
      → replay_from b stamps b.strategy.bars_needed [] bars ≡ ok st
      → ((close_remaining b bars st).position ≡ none)
        × ((close_remaining b bars st).cash
            ≡ settle b starting_capital (close_remaining b bars st).trades)
  final_cash-eq-settle b stamps bars st e =
      remaining-IsBalanced b bars st.cash st.position st.equity_curve st.trades
        (replay_from-IsBalanced b stamps b.strategy.bars_needed [] bars st e)
