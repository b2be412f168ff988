-- ===== src/Broker/State.antt =====
-- The state of the broker adapter (src/polara/broker/adapter.py): its caches, the tables that it
-- writes, and what it has sent. The random primary keys of the rows are left out.
use polara_quant.Base.{ℕ, String, Bool, Option, List}
use polara_quant.Base.Dict.{Dict}
use polara_quant.Base.Effects.{Result, Action, broker_disconnected, raise_if}
use polara_quant.Schemas.{AccountInfo, OrderSide, OrderState, Position, PnlSnapshot}
use polara_quant.Trades.{TradeTables}
use mathlib.Core.Bool.{not}

pub data OrderType : Type 0 where
  mkt lmt stp : OrderType

pub data TimeInForce : Type 0 where
  day gtc : TimeInForce

-- One order of a request to the gateway. Prices and quantities are those before `float(...)`.
pub record Payload (D : Type 0) : Type 0 where
  pub coid : Option ℕ
  pub parent_id : Option ℕ
  pub conid : ℕ
  pub order_type : OrderType
  pub side : OrderSide
  pub price : Option D
  pub aux_price : Option D
  pub quantity : D
  pub tif : TimeInForce
  pub acct_id : String

-- One element of the gateway's answer: `order_id` if the answer has that key.
pub record Reply : Type 0 where
  pub order_id : Option ℕ

-- A position and an order as the gateway lists them; `none` stands for a missing key.
pub record RawPosition (D : Type 0) : Type 0 where
  pub contract_desc : Option String
  pub ticker : Option String
  pub position : Option D
  pub avg_cost : Option D
  pub unreal_pnl : Option D

pub record RawOrder (D : Type 0) : Type 0 where
  pub order_id : Option ℕ
  pub status : Option String
  pub avg_price : Option D
  pub price : Option D
  pub filled_quantity : Option D
  pub quantity : Option D

-- What the gateway client answers to the calls that the adapter makes: the client's code and the
-- gateway behind it are a parameter. `amount` is the entry of the account summary under a key.
pub record Gateway (D : Type 0) : Type 0 where
  pub connected : Bool
  pub account_id : Result String
  pub account_summary : Result (String → Option D)
  pub positions : Result (List (RawPosition D))
  pub get_conid : String → Result ℕ
  pub place_orders : List (Payload D) → Result (List Reply)
  pub cancel_order : ℕ → Result (Unit {0})
  pub list_orders : Result (List (RawOrder D))

-- A row of the orders table.
pub record Order (D : Type 0) : Type 0 where
  pub order_id : ℕ
  pub symbol : String
  pub side : OrderSide
  pub quantity : D
  pub limit_price : Option D
  pub status : OrderState
  pub ib_order_id : Option ℕ
  pub strategy_id : String
  pub submitted_at : ℕ
  pub filled_at : Option ℕ

-- A row of the bracket_orders table.
pub record Bracket (D : Type 0) : Type 0 where
  pub order_id : ℕ
  pub stop_ib_id : Option ℕ
  pub take_profit_ib_id : Option ℕ
  pub stop_price : Option D
  pub take_profit_price : Option D
  pub created_at : ℕ

pub record Broker (D : Type 0) : Type 0 where
  pub account_cache : Option (ℕ × AccountInfo D)
  pub known_filled : List ℕ
  -- whether a trade service was given to the adapter
  pub has_trade_service : Bool
  pub orders : List (Order D)
  pub bracket_orders : List (Bracket D)
  pub positions : Dict String (Position D)
  pub account_snapshots : List (PnlSnapshot D)
  pub trades : TradeTables D
  -- every request that went to the gateway, oldest first
  pub placed : List (List (Payload D))
  pub cancels : List ℕ

-- `_require_connected`
unfoldable pub require_connected : {D : Type 0} → Gateway D → Action (Broker D) (Unit {0})
require_connected gw = raise_if (not gw.connected) broker_disconnected
