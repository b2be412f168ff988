-- ===== src/Decimal.antt =====
-- What the program does with Python's `decimal.Decimal`: an abstract type with the operations the
-- source calls. Every definition takes such a type, so none depends on a precision or a rounding mode.
mod Ops
mod Laws
mod Fixed
pub use Ops.*
pub use Laws.*
unfoldable pub use Fixed.*
