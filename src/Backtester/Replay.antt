-- ===== src/Backtester/Replay.antt =====
-- `Backtester.run` of src/polara/backtester/engine.py: the loop over the bars, the closing of what is
-- still open, and the result.
use polara_quant.Base.{
  ℕ, zero, suc, ◌+◌, ◌-◌, String, Bool, false, Option, none, some, List, [], ◌∷◌, ◌++◌, map, ◌&&◌,
  ltb, length, keep, if◌then◌else◌,
}
use polara_quant.Base.Int.{ℤ, pos, negsuc}
use polara_quant.Base.Effects.{Result, ok, value_error, arithmetic}
use polara_quant.Base.Results.{◌>>=◌, ◌>>◌, reject_if}
use polara_quant.Decimal.{Decimal, zero_d, of_nat, abs, sum_from}
use polara_quant.Schemas.{Bar, Signal, OrderSide, buy, DateTime, utc}
use polara_quant.Strategies.{Strategy, Stamp}
use polara_quant.Backtester.BarSizes.{periods_per_year}
use polara_quant.Backtester.Metrics.{
  commission, compute_max_drawdown, compute_sharpe, compute_sortino,
}

pub record BacktestTrade (D : Type 0) : Type 0 where
  pub entry_bar_index : ℕ
  pub exit_bar_index : ℕ
  pub side : OrderSide
  pub entry_price : D
  pub exit_price : D
  pub pnl : D

pub record BacktestResult (D : Type 0) : Type 0 where
  pub strategy_id : String
  pub run_at : DateTime
  pub bar_size : String
  pub num_bars : ℕ
  pub sharpe_ratio : D
  pub max_drawdown_pct : D
  pub win_rate_pct : D
  pub total_return_pct : D
  pub num_trades : ℕ
  pub passed : Bool
  pub sortino_ratio : D
  pub calmar_ratio : D
  pub profit_factor : D
  pub avg_trade_pnl : D
  pub reward_risk_ratio : D

-- The settings of the constructor.
pub record Backtester (D : Type 0) : Type 0 where
  pub strategy : Strategy D
  pub min_sharpe : D
  pub max_drawdown_limit : D
  pub commission_per_side : D
  pub position_size_usd : Option D

-- The position that is held. Its side is always `buy`.
pub record Held (D : Type 0) : Type 0 where
  pub entry_price : D
  pub entry_idx : ℕ
  pub shares : ℕ

-- The variables of the loop.
pub record Replay (D : Type 0) : Type 0 where
  pub cash : D
  pub position : Option (Held D)
  pub equity_curve : List D
  pub trades : List (BacktestTrade D)

-- `max(1, n)`
abbrev pub at_least_one : ℤ → ℕ
at_least_one (pos zero) = 1
at_least_one (pos (suc n)) = suc n
at_least_one (negsuc n) = 1

module _ {D : Type 0} ⦃d : Decimal D⦄ where
  abbrev pub starting_capital : D
  starting_capital = d.lit 10_000 0

  unfoldable pub get_commission : Backtester D → ℕ → D
  unfolding commission
  get_commission b shares = elim b.position_size_usd [
    | some _ ↦ commission shares
    | none ↦ b.commission_per_side
  ]

  abbrev pub shares_for : Backtester D → D → ℕ
  shares_for b fill_price = elim b.position_size_usd [
    | some usd ↦ at_least_one (d.trunc (d.div usd fill_price))
    | none ↦ 1
  ]

  abbrev pub gross : Held D → D → D
  gross p price = d.mul (d.sub price p.entry_price) (of_nat p.shares)

  abbrev pub trade_of : Backtester D → Held D → ℕ → D → BacktestTrade D
  trade_of b p exit_index price = record {
    entry_bar_index = p.entry_idx;
    exit_bar_index = exit_index;
    side = buy;
    entry_price = p.entry_price;
    exit_price = price;
    pnl = d.sub (gross p price) (get_commission b p.shares);
  }

  unfoldable pub open_position : Backtester D → ℕ → D → Replay D → Replay D
  unfolding get_commission
  open_position b fill_index fill_price st = record st {
    cash = d.sub st.cash (get_commission b (shares_for b fill_price));
    position = some (record {
      entry_price = fill_price;
      entry_idx = fill_index;
      shares = shares_for b fill_price;
    });
  }

  unfoldable pub close_position : Backtester D → ℕ → D → Held D → Replay D → Replay D
  unfolding get_commission
  close_position b exit_index price p st = record st {
    cash = d.add st.cash (d.sub (gross p price) (get_commission b p.shares));
    position = none;
    trades = st.trades ++ (trade_of b p exit_index price ∷ []);
  }

  -- The fill at the open of the bar after the signal.
  unfoldable pub apply_signal : Backtester D → ℕ → D → Option (Signal D) → Replay D → Replay D
  unfolding open_position close_position
  apply_signal b fill_index fill_price none st = st
  apply_signal b fill_index fill_price (some signal) st = elim st.position [
    | none ↦ if d.lt zero_d signal.strength then open_position b fill_index fill_price st else st
    | some p ↦
        if d.lt signal.strength zero_d then close_position b fill_index fill_price p st else st
  ]

  -- Whether the fill divides the size of a position by a price of zero.
  unfoldable pub fill_raises : Backtester D → D → Option (Signal D) → Replay D → Bool
  fill_raises b fill_price none st = false
  fill_raises b fill_price (some signal) st = elim st.position [
    | some p ↦ false
    | none ↦ elim b.position_size_usd [
      | none ↦ false
      | some usd ↦ d.lt zero_d signal.strength && d.eq fill_price zero_d
    ]
  ]

  -- Mark to market at the close of the signal's bar.
  unfoldable pub mark : D → Replay D → Replay D
  mark close st = record st {
    equity_curve =
        st.equity_curve
        ++ (elim st.position [ none ↦ st.cash | some p ↦ d.add st.cash (gross p close) ] ∷ []);
  }

  -- The loop from index i: `window` is `bars[: i + 1]`, `current` its last bar, `rest` the bars after it.
  unfoldable pub replay :
      Backtester D
      → (ℕ → Stamp)
      → ℕ
      → (window : List (Bar D)) → (current : Bar D) → (rest : List (Bar D)) → Replay D
      → Result (Replay D)
  unfolding apply_signal mark fill_raises
  replay b stamps i window current [] st = ok st
  replay b stamps i window current (fill ∷ rest) st = do
    signal ← b.strategy.on_bars (stamps i) window
    reject_if (fill_raises b fill.open_price signal st) arithmetic
    replay b stamps (i + 1) (window ++ (fill ∷ [])) fill rest
        (mark current.close (apply_signal b (i + 1) fill.open_price signal st))

  abbrev pub initial : Replay D
  initial = record {
    cash = starting_capital;
    position = none;
    equity_curve = starting_capital ∷ [];
    trades = [];
  }

  -- The loop from the first index: `before` are the bars up to the one that is looked for.
  unfoldable pub replay_from :
      Backtester D → (ℕ → Stamp) → ℕ → List (Bar D) → List (Bar D) → Result (Replay D)
  unfolding replay
  replay_from b stamps i before [] = ok initial
  replay_from b stamps zero before (bar ∷ bars) =
      replay b stamps b.strategy.bars_needed (before ++ (bar ∷ [])) bar bars initial
  replay_from b stamps (suc i) before (bar ∷ bars) =
      replay_from b stamps i (before ++ (bar ∷ [])) bars

  abbrev pub last_close : D → List (Bar D) → D
  last_close price [] = price
  last_close price (bar ∷ bars) = last_close bar.close bars

  -- The position that is left is closed at the last close, and the final cash ends the curve.
  unfoldable pub close_remaining : Backtester D → List (Bar D) → Replay D → Replay D
  unfolding close_position
  close_remaining b bars st = elim st.position [
    | none ↦ st
    | some p ↦ close_position b (length bars - 1) (last_close zero_d bars) p st
  ]

  unfoldable pub final_equity : Replay D → List D
  final_equity st = st.equity_curve ++ (st.cash ∷ [])

  abbrev pub sum_pnl : List (BacktestTrade D) → D
  sum_pnl trades = sum_from zero_d (map (λ t. t.pnl) trades)

  abbrev pub per : D → ℕ → D
  per total count = if ltb 0 count then d.div total (of_nat count) else zero_d

  abbrev pub ratio : D → D → D
  ratio a b = if d.lt zero_d b then d.div a b else zero_d

  abbrev pub winners : List (BacktestTrade D) → List (BacktestTrade D)
  winners = keep (λ t. d.lt zero_d t.pnl)

  abbrev pub losers : List (BacktestTrade D) → List (BacktestTrade D)
  losers = keep (λ t. d.lt t.pnl zero_d)

  abbrev pub gross_loss_of : List (BacktestTrade D) → D
  gross_loss_of trades = sum_from zero_d (map (λ t. abs t.pnl) (losers trades))

  abbrev pub total_return : D → D
  total_return final = d.mul (d.div (d.sub final starting_capital) starting_capital) (d.lit 100 0)

  -- The annualised return over the maximal drawdown.
  abbrev pub calmar : ℕ → ℕ → D → D → D
  calmar periods points return_pct max_dd =
      let factor = d.div (of_nat periods) (of_nat (if ltb 1 (points - 1) then points - 1 else 1)) in
      ratio (d.mul (d.mul (d.div return_pct (d.lit 100 0)) factor) (d.lit 100 0)) max_dd

  abbrev pub win_rate : List (BacktestTrade D) → D
  win_rate trades =
      if ltb 0 (length trades)
      then d.mul (d.div (of_nat (length (winners trades))) (of_nat (length trades))) (d.lit 100 0)
      else zero_d

module _ {D : Type 0} ⦃d : Decimal D⦄ (root : D → D) where
  unfoldable pub result_of :
      Backtester D
      → (now : ℕ) → (bar_size : String) → List (Bar D)
      → Replay D
      → Result (BacktestResult D)
  unfolding final_equity
  result_of b now bar_size bars st = do
    let equity = final_equity st
    let max_dd = compute_max_drawdown equity
    sharpe ← compute_sharpe root equity bar_size
    sortino ← compute_sortino root equity bar_size
    periods ← periods_per_year bar_size
    ok (record {
      strategy_id = b.strategy.strategy_id;
      run_at = utc now;
      bar_size = bar_size;
      num_bars = length bars;
      sharpe_ratio = sharpe;
      max_drawdown_pct = max_dd;
      win_rate_pct = win_rate st.trades;
      total_return_pct = total_return st.cash;
      num_trades = length st.trades;
      passed = d.le b.min_sharpe sharpe && d.le max_dd b.max_drawdown_limit;
      sortino_ratio = sortino;
      calmar_ratio = calmar periods (length equity) (total_return st.cash) max_dd;
      profit_factor = ratio (sum_pnl (winners st.trades)) (gross_loss_of st.trades);
      avg_trade_pnl = per (sum_pnl st.trades) (length st.trades);
      reward_risk_ratio =
          ratio (per (sum_pnl (winners st.trades)) (length (winners st.trades)))
            (per (gross_loss_of st.trades) (length (losers st.trades)));
    })

  -- `Backtester.run`, on the bars that the store's query gives.
  unfoldable pub run :
      Backtester D
      → (ℕ → Stamp)
      → (now : ℕ) → (bar_size : String) → List (Bar D)
      → Result (BacktestResult D)
  unfolding replay_from close_remaining result_of
  run b stamps now bar_size bars = do
    reject_if (ltb (length bars) (b.strategy.bars_needed + 2)) value_error
    st ← replay_from b stamps b.strategy.bars_needed [] bars
    result_of b now bar_size bars (close_remaining b bars st)
