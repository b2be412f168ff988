-- ===== src/MarketData.antt =====
-- The market data of src/polara/market_data.
pub mod Sessions
pub mod PrevSession
pub mod Periods
pub mod Fetcher
pub mod Store
pub mod Service
