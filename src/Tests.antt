-- ===== src/Tests.antt =====
-- The theorems at concrete inputs, over signed multiples of 10^-6.
mod Fixtures
mod Risk
mod Promoting
mod Trading
mod Brokering
mod Managing
mod Backtesting
mod Calibrating
mod Fetching
mod Viewing
