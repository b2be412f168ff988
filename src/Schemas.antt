-- ===== src/Schemas.antt =====
-- The value types that the components exchange (src/polara/schemas, src/polara/broker/schemas.py,
-- src/polara/constants.py), with the checks that their field validators make on construction.
mod Time
mod Orders
mod Signals
mod Market
mod Account
pub use Time.*
pub use Orders.*
unfoldable pub use Signals.*
unfoldable pub use Market.*
pub use Account.*
