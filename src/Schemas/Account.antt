-- ===== src/Schemas/Account.antt =====
-- src/polara/broker/schemas.py: what the broker adapter returns.
use polara_quant.Base.{ℕ, String, Bool, Option}
use polara_quant.Schemas.Time.{DateTime}

pub record AccountInfo (D : Type 0) : Type 0 where
  pub net_liquidation : D
  pub cash : D
  pub unrealised_pnl : D
  pub realised_pnl : D
  pub currency : String
  pub timestamp : DateTime

pub record Position (D : Type 0) : Type 0 where
  pub symbol : String
  pub quantity : D
  pub avg_cost : D
  pub unrealised_pnl : D
  pub updated_at : DateTime

pub record PnlSnapshot (D : Type 0) : Type 0 where
  pub net_liquidation : D
  pub cash : D
  pub unrealised_pnl : D
  pub realised_pnl : D
  pub snapshot_at : DateTime

pub record BrokerStatus : Type 0 where
  pub connected : Bool
  pub ib_server_time : Option DateTime
  pub account_id : Option String

-- The CHECK constraint of the orders table.
pub data OrderState : Type 0 where
  pending submitted filled cancelled error : OrderState

pub record OrderStatus : Type 0 where
  pub order_id : ℕ
  pub ib_order_id : Option ℕ
  pub status : OrderState
  pub submitted_at : DateTime
  pub filled_at : Option DateTime
