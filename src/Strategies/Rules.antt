-- ===== src/Strategies/Rules.antt =====
-- The strategies together, as a caller sees them.
use mathlib.Core.Path.{subst}
use polara_quant.Base.{ℕ, ◌≤◌, ◌≡◌, Option, none, some, List, length}
use polara_quant.Base.Effects.{Result, ok}
use polara_quant.Decimal.{Decimal, IsDecimal}
use polara_quant.Schemas.{Signal, Bar}
use polara_quant.Strategies.{Stamp, Strategy}
use polara_quant.Strategies.Indicators.{closes_of}
use polara_quant.Strategies.Signalling.{Sleeve, close_now, IsOwnSignal, Answers, silent, signals}
use polara_quant.Strategies.Emitting.{
  IsUnit, idle, buys, sells, strength_of-IsUnit, unless-IsUnit, guarded-Answers,
}
use polara_quant.Strategies.Momentum
use polara_quant.Strategies.MaCrossover
use polara_quant.Strategies.Macd
use polara_quant.Strategies.RsiMeanReversion
use polara_quant.Strategies.BollingerBand
use polara_quant.Strategies.EmaBounce
use polara_quant.Strategies.Supertrend
use polara_quant.Strategies.Supertrend.{up, down}

-- The strategies that look at the bars alone, and not at the trading sessions.
pub data Rule (D : Type 0) : Type 0 where
  momentum : Momentum.Momentum D → Rule D
  ma_crossover : MaCrossover.MaCrossover D → Rule D
  macd : Macd.Macd D → Rule D
  rsi_mean_reversion : RsiMeanReversion.RsiMeanReversion D → Rule D
  bollinger_band : BollingerBand.BollingerBand D → Rule D
  ema_bounce : EmaBounce.EmaBounce D → Rule D
  supertrend : Supertrend.Supertrend D → Rule D

module _ {D : Type 0} where
  abbrev pub sleeve_of : Rule D → Sleeve
  sleeve_of (momentum c) = c.sleeve
  sleeve_of (ma_crossover c) = c.sleeve
  sleeve_of (macd c) = c.sleeve
  sleeve_of (rsi_mean_reversion c) = c.sleeve
  sleeve_of (bollinger_band c) = c.sleeve
  sleeve_of (ema_bounce c) = c.sleeve
  sleeve_of (supertrend c) = c.sleeve

module _ {D : Type 0} ⦃d : Decimal D⦄ (root : D → D) where
  abbrev pub bars_needed : Rule D → ℕ
  bars_needed (momentum c) = Momentum.bars_needed c
  bars_needed (ma_crossover c) = MaCrossover.bars_needed c
  bars_needed (macd c) = Macd.bars_needed c
  bars_needed (rsi_mean_reversion c) = RsiMeanReversion.bars_needed c
  bars_needed (bollinger_band c) = BollingerBand.bars_needed c
  bars_needed (ema_bounce c) = EmaBounce.bars_needed c
  bars_needed (supertrend c) = Supertrend.bars_needed c

  unfoldable pub on_bars : Rule D → Stamp → List (Bar D) → Result (Option (Signal D))
  unfolding Momentum.on_bars MaCrossover.on_bars Macd.on_bars RsiMeanReversion.on_bars
      BollingerBand.on_bars EmaBounce.on_bars Supertrend.on_bars
  on_bars (momentum c) = Momentum.on_bars c
  on_bars (ma_crossover c) = MaCrossover.on_bars c
  on_bars (macd c) = Macd.on_bars c
  on_bars (rsi_mean_reversion c) = RsiMeanReversion.on_bars c
  on_bars (bollinger_band c) = BollingerBand.on_bars root c
  on_bars (ema_bounce c) = EmaBounce.on_bars c
  on_bars (supertrend c) = Supertrend.on_bars c

  -- The strategy as the schedulers and the backtester hold it, with the multiplier of a calibration.
  abbrev pub strategy : Rule D → D → Strategy D
  strategy r size_multiplier = record {
    strategy_id = (sleeve_of r).strategy_id;
    symbol = (sleeve_of r).symbol;
    bars_needed = bars_needed r;
    bar_size = (sleeve_of r).bar_size;
    size_multiplier = size_multiplier;
    on_bars = on_bars r;
  }

module _ {D : Type 0} ⦃d : Decimal D⦄ where
  macd-IsUnit : (c : Macd.Macd D) (closes : List D) → IsUnit (Macd.strength c closes)
  macd-IsUnit c closes = search (unless-IsUnit, strength_of-IsUnit)

  ema_bounce-IsUnit :
      (c : EmaBounce.EmaBounce D) (bars : List (Bar D)) → IsUnit (EmaBounce.strength c bars)
  ema_bounce-IsUnit c bars = search (unless-IsUnit, strength_of-IsUnit)

  flip-IsUnit :
      (before after : Option Supertrend.Direction) → IsUnit {D = D} (Supertrend.flip before after)
  unfolding Supertrend.flip
  flip-IsUnit none after = idle
  flip-IsUnit (some up) none = idle
  flip-IsUnit (some up) (some up) = idle
  flip-IsUnit (some up) (some down) = sells
  flip-IsUnit (some down) none = idle
  flip-IsUnit (some down) (some up) = buys
  flip-IsUnit (some down) (some down) = idle

  between-IsUnit :
      (c : Supertrend.Supertrend D) (atr : D) (pair : Option (Bar D × Bar D))
      → IsUnit (Supertrend.flip_between c atr pair)
  between-IsUnit c atr none = idle
  between-IsUnit c atr (some (prev, curr)) = flip-IsUnit _ _

  supertrend-IsUnit :
      (c : Supertrend.Supertrend D) (bars : List (Bar D)) → IsUnit (Supertrend.strength c bars)
  supertrend-IsUnit c bars = search (unless-IsUnit, between-IsUnit)

module _ {D : Type 0} ⦃d : Decimal D⦄ (laws : IsDecimal D) (root : D → D) (stamp : Stamp)
    (bars : List (Bar D)) where
  pub on_bars-Answers :
      (r : Rule D)
      → Answers
          (sleeve_of r)
          stamp
          (close_now bars)
          (bars_needed root r)
          (length bars)
          (on_bars root r stamp bars)
  unfolding on_bars
  on_bars-Answers (momentum c) =
      guarded-Answers laws c.sleeve stamp _ _ (Momentum.bars_needed c) bars _
        (strength_of-IsUnit _ _)
  on_bars-Answers (ma_crossover c) =
      guarded-Answers laws c.sleeve stamp _ c.exits (MaCrossover.bars_needed c) bars _
        (strength_of-IsUnit _ _)
  on_bars-Answers (macd c) =
      guarded-Answers laws c.sleeve stamp _ c.exits (Macd.bars_needed c) bars _
        (macd-IsUnit c (closes_of bars))
  on_bars-Answers (rsi_mean_reversion c) =
      guarded-Answers laws c.sleeve stamp _ c.exits (RsiMeanReversion.bars_needed c) bars _
        (strength_of-IsUnit _ _)
  on_bars-Answers (bollinger_band c) =
      guarded-Answers laws c.sleeve stamp _ _ (BollingerBand.bars_needed c) bars _
        (strength_of-IsUnit _ _)
  on_bars-Answers (ema_bounce c) =
      guarded-Answers laws c.sleeve stamp _ c.exits (EmaBounce.bars_needed c) bars _
        (ema_bounce-IsUnit c bars)
  on_bars-Answers (supertrend c) =
      guarded-Answers laws c.sleeve stamp _ c.exits (Supertrend.bars_needed c) bars _
        (supertrend-IsUnit c bars)

  -- Where a strategy that looks at the bars alone answers with a signal, there are as many bars as it needs,
  -- and the signal is a fresh one in its own name and for its own symbol, of strength 1 or -1, at the
  -- close of the last bar.
  pub on_bars-IsOwnSignal :
      (r : Rule D) (s : Signal D)
      → on_bars root r stamp bars ≡ ok (some s)
      → (bars_needed root r ≤ length bars) × IsOwnSignal (sleeve_of r) stamp (close_now bars) s
  on_bars-IsOwnSignal r s e = go (on_bars-Answers r) e
    where
      go :
          {needed have : ℕ} {price : D} {result : Result (Option (Signal D))}
          → Answers (sleeve_of r) stamp price needed have result
          → result ≡ ok (some s)
          → (needed ≤ have) × IsOwnSignal (sleeve_of r) stamp price s
      go silent e = cc
      go (signals s' enough own) e =
          let same : s' ≡ s = cc in (enough, subst (IsOwnSignal (sleeve_of r) stamp _) same own)
