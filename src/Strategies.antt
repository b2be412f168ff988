-- ===== src/Strategies.antt =====
-- src/polara/research_engine/base.py: what a strategy is to the backtester, the schedulers and the
-- calibration. The strategies of research_engine/strategies are in the modules below.
pub mod Indicators
pub mod Signalling
pub mod Emitting
pub mod Momentum
pub mod MaCrossover
pub mod Macd
pub mod RsiMeanReversion
pub mod BollingerBand
pub mod EmaBounce
pub mod Supertrend
pub mod PrevDayBreakout
pub mod GapFill
pub mod OpeningRangeBreakout
pub mod VwapMeanReversion
pub mod Rules
pub mod SessionRules
use polara_quant.Base.{ℕ, String, Option, List}
use polara_quant.Base.Effects.{Result}
use polara_quant.Schemas.{Signal, Bar}

-- What a call of `on_bars` draws for the signal: `uuid4()` and `datetime.now(UTC)`.
pub record Stamp : Type 0 where
  pub fresh_id : ℕ
  pub clock : ℕ

pub record Strategy (D : Type 0) : Type 0 where
  pub strategy_id : String
  pub symbol : String
  pub bars_needed : ℕ
  pub bar_size : String
  pub size_multiplier : D
  pub on_bars : Stamp → List (Bar D) → Result (Option (Signal D))
