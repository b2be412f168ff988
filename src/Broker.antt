-- ===== src/Broker.antt =====
-- src/polara/broker/adapter.py: the broker adapter over the gateway and the database.
mod State
pub mod Account
pub mod Orders
pub mod Polling
pub mod Snapshots
pub use State.*
