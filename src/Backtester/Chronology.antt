-- ===== src/Backtester/Chronology.antt =====
-- The order of the trades that `Backtester.run` of src/polara/backtester/engine.py makes.
use polara_quant.Base.{
  ℕ, zero, suc, ◌+◌, ◌-◌, ◌≤◌, ◌<◌, ◌≡◌, Option, none, some, List, [], ◌∷◌, ◌++◌, arith, length,
  All, Bool-cases, inl, inr,
}
use polara_quant.Base.Effects.{ok, arithmetic}
use polara_quant.Base.Results.{bind-eq-ok, reject_if-eq-ok}
use polara_quant.Decimal.{Decimal, zero_d}
use polara_quant.Schemas.{Bar, Signal}
use polara_quant.Strategies.{Stamp}
use polara_quant.Backtester.Fills.{IsFilled, trades-AreFilled}
use polara_quant.Backtester.Replay.{
  Backtester, BacktestTrade, Held, Replay, apply_signal, fill_raises, mark, replay, replay_from,
  close_remaining, initial,
}

-- Each trade is entered after `lo` and after the exit of the one before it, is not left before it is
-- entered, and is left by `hi`.
abbrev pub InOrder : {D : Type 0} → ℕ → List (BacktestTrade D) → ℕ → Type 0
InOrder lo [] hi = lo ≤ hi
InOrder lo (t ∷ ts) hi =
    (lo < t.entry_bar_index)
    × (t.entry_bar_index ≤ t.exit_bar_index)
    × InOrder t.exit_bar_index ts hi

module _ {D : Type 0} where
  InOrder-append :
      (lo m hi : ℕ) (ts : List (BacktestTrade D)) (t : BacktestTrade D)
      → InOrder lo ts m
      → m < t.entry_bar_index
      → t.entry_bar_index ≤ t.exit_bar_index
      → t.exit_bar_index ≤ hi
      → InOrder lo (ts ++ (t ∷ [])) hi
  InOrder-append lo m hi [] t h a b c = (omega arith, b, c)
  InOrder-append lo m hi (x ∷ ts) t (p, q, r) a b c =
      (p, q, InOrder-append x.exit_bar_index m hi ts t r a b c)

  InOrder-weaken :
      (lo m hi : ℕ) (ts : List (BacktestTrade D)) → m ≤ hi → InOrder lo ts m → InOrder lo ts hi
  InOrder-weaken lo m hi [] h a = omega arith
  InOrder-weaken lo m hi (x ∷ ts) h (p, q, r) = (p, q, InOrder-weaken x.exit_bar_index m hi ts h r)

  -- What holds of the position and the trades after the fills up to index i.
  abbrev OrderedAt : ℕ → ℕ → Option (Held D) → List (BacktestTrade D) → Type 0
  OrderedAt lo i none ts = InOrder lo ts i
  OrderedAt lo i (some p) ts = (m : ℕ) × InOrder lo ts m × (m < p.entry_idx) × (p.entry_idx ≤ i)

  abbrev IsOrdered : ℕ → ℕ → Replay D → Type 0
  IsOrdered lo i st = OrderedAt lo i st.position st.trades

module _ {D : Type 0} ⦃d : Decimal D⦄ where
  -- One fill, at the next index, from a state with its fields apart.
  fill-IsOrdered :
      (b : Backtester D) (lo i : ℕ) (price cash : D) (signal : Option (Signal D))
      (position : Option (Held D)) (equity : List D) (ts : List (BacktestTrade D))
      → OrderedAt lo i position ts
      → IsOrdered lo (i + 1) (
          apply_signal b
            (i + 1)
            price
            signal
            (record { cash = cash; position = position; equity_curve = equity; trades = ts }))
  unfolding apply_signal
  fill-IsOrdered b lo i price cash none none equity ts h =
      InOrder-weaken lo i (i + 1) ts (omega arith) h
  fill-IsOrdered b lo i price cash none (some p) equity ts (m, h, k, l) = (m, h, k, omega arith)
  fill-IsOrdered b lo i price cash (some signal) none equity ts h =
      elim (Bool-cases (d.lt zero_d signal.strength)) [
        | inl buys ↦ rw buys (i, h, omega arith, omega arith)
        | inr passes ↦ rw passes (InOrder-weaken lo i (i + 1) ts (omega arith) h)
      ]
  fill-IsOrdered b lo i price cash (some signal) (some p) equity ts (m, h, k, l) =
      elim (Bool-cases (d.lt signal.strength zero_d)) [
        | inl sells ↦ rw sells (InOrder-append lo m (i + 1) ts _ h k (omega arith) (omega arith))
        | inr passes ↦ rw passes (m, h, k, omega arith)
      ]

  apply_signal-IsOrdered :
      (b : Backtester D) (lo i : ℕ) (price : D) (signal : Option (Signal D)) (st : Replay D)
      → IsOrdered lo i st
      → IsOrdered lo (i + 1) (apply_signal b (i + 1) price signal st)
  apply_signal-IsOrdered b lo i price signal st h =
      fill-IsOrdered b lo i price st.cash signal st.position st.equity_curve st.trades h

  mark-IsOrdered :
      (lo i : ℕ) (close : D) (st : Replay D) → IsOrdered lo i st → IsOrdered lo i (mark close st)
  unfolding mark
  mark-IsOrdered lo i close st h = h

  replay-IsOrdered :
      (b : Backtester D) (stamps : ℕ → Stamp) (lo i : ℕ) (window : List (Bar D)) (current : Bar D)
      (rest : List (Bar D)) (st t : Replay D)
      → IsOrdered lo i st
      → replay b stamps i window current rest st ≡ ok t
      → IsOrdered lo (i + length rest) t
  unfolding replay
  replay-IsOrdered b stamps lo i window current [] st t h e =
      let same : t ≡ st = cc in let end : i + 0 ≡ i = omega arith in rw (same, end) h
  replay-IsOrdered b stamps lo i window current (fill ∷ rest) st t h e =
      let (signal, _, checked) = bind-eq-ok (b.strategy.on_bars (stamps i) window) _ e in
      let (_, more) =
        reject_if-eq-ok (fill_raises b fill.open_price signal st) arithmetic _ checked in
      let next : Replay D = mark current.close (apply_signal b (i + 1) fill.open_price signal st) in
      let end : i + suc (length rest) ≡ i + 1 + length rest = omega arith in
      rw end (
        replay-IsOrdered b stamps lo (i + 1) (window ++ (fill ∷ [])) fill rest next t
          (mark-IsOrdered lo (i + 1) current.close
            (apply_signal b (i + 1) fill.open_price signal st)
            (apply_signal-IsOrdered b lo i fill.open_price signal st h))
          more)

  replay_from-IsOrdered :
      (b : Backtester D) (stamps : ℕ → Stamp) (i hi : ℕ) (before bars : List (Bar D)) (t : Replay D)
      → i < length bars
      → b.strategy.bars_needed + length bars ≡ hi + i + 1
      → replay_from b stamps i before bars ≡ ok t
      → IsOrdered b.strategy.bars_needed hi t
  unfolding replay_from
  replay_from-IsOrdered b stamps i hi before [] t h n e = absurd (omega arith)
  replay_from-IsOrdered b stamps zero hi before (bar ∷ bars) t h n e =
      let lo : ℕ = b.strategy.bars_needed in
      let end : hi ≡ lo + length bars = omega arith in
      rw end
        (replay-IsOrdered b stamps lo lo (before ++ (bar ∷ [])) bar bars initial t (omega arith) e)
  replay_from-IsOrdered b stamps (suc i) hi before (bar ∷ bars) t h n e =
      replay_from-IsOrdered b stamps i hi (before ++ (bar ∷ [])) bars t (omega arith) (omega arith)
        e

  -- The position that is left is closed at an index that is not before its entry.
  close_last-IsOrdered :
      (b : Backtester D) (lo : ℕ) (bars : List (Bar D)) (cash : D) (position : Option (Held D))
      (equity : List D) (ts : List (BacktestTrade D))
      → OrderedAt lo (length bars - 1) position ts
      → InOrder lo
          (close_remaining b bars (record {
            cash = cash;
            position = position;
            equity_curve = equity;
            trades = ts;
          })).trades
          (length bars - 1)
  unfolding close_remaining
  close_last-IsOrdered b lo bars cash none equity ts h = h
  close_last-IsOrdered b lo bars cash (some p) equity ts (m, h, k, l) =
      InOrder-append lo m (length bars - 1) ts _ h k l (omega arith)

  -- If there are enough bars, and no call of the strategy and no fill raises: the trades of a run are in
  -- the order of the bars and do not overlap. Each is entered after the first window's last bar and after the exit of
  -- the trade before it, is left no earlier than it is entered, and the last one by the last bar. Each
  -- is entered at the open of the bar right after the bars on which the strategy gave a signal to buy,
  -- and left at the open of the bar right after those of a signal to sell, or at the last close.
  pub trades-InOrder :
      (b : Backtester D) (stamps : ℕ → Stamp) (bars : List (Bar D)) (st : Replay D)
      → b.strategy.bars_needed + 2 ≤ length bars
      → replay_from b stamps b.strategy.bars_needed [] bars ≡ ok st
      → InOrder b.strategy.bars_needed (close_remaining b bars st).trades (length bars - 1)
        × All (IsFilled b stamps bars) (close_remaining b bars st).trades
  trades-InOrder b stamps bars st enough e = (
    close_last-IsOrdered b b.strategy.bars_needed bars st.cash st.position st.equity_curve st.trades
        (replay_from-IsOrdered b stamps b.strategy.bars_needed (length bars - 1) [] bars st
          (omega arith) (omega arith) e),
    trades-AreFilled b stamps bars st e,
  )
