-- ===== src/Backtester.antt =====
-- src/polara/backtester/engine.py and schemas.py: the replay of a strategy on historical bars, and the
-- metrics of the result.
pub mod BarSizes
pub mod Metrics
pub mod Replay
pub mod Fills
pub mod Chronology
pub mod Accounts
pub mod Drawdown
pub mod Completion
