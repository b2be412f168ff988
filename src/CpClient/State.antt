-- ===== src/CpClient/State.antt =====
-- The state of the client, its requests and what the gateway answers to them.
use polara_quant.Base.{ℕ, String, Bool, Option, List}
use polara_quant.Base.Int.{ℤ}
use polara_quant.Base.Dict.{Dict}
use polara_quant.Base.Effects.{Result}
use polara_quant.Broker.{Payload, RawPosition, RawOrder}
use polara_quant.MarketData.Periods.{Period}

pub data Request : Type 0 where
  get_accounts get_auth_status post_tickle post_reauthenticate get_orders : Request
  post_secdef_search : String → Request
  get_summary get_positions : String → Request
  post_orders : String → Request
  post_reply : String → Request
  delete_order : String → ℕ → Request
  get_history : ℕ → Period → String → Request
  get_snapshot : List ℕ → Request

-- One element of an answer to an order or to a confirmation. `none` stands for a missing key.
pub record Item : Type 0 where
  pub id : Option String
  pub message : Bool
  pub order_id : Option ℕ

-- A JSON list of items, or one object.
pub data Answer : Type 0 where
  listed : List Item → Answer
  single : Item → Answer

-- A bar of the history: milliseconds, prices and a volume.
pub record RawBar (D : Type 0) : Type 0 where
  pub t : Option ℕ
  pub o : Option D
  pub h : Option D
  pub l : Option D
  pub c : Option D
  pub v : Option ℤ

-- The fields 84, 86, 88 and 85 of a snapshot.
pub record RawQuote (D : Type 0) : Type 0 where
  pub bid : Option D
  pub ask : Option D
  pub bid_size : Option ℤ
  pub ask_size : Option ℤ

-- An `err` stands for a failed request, an HTTP status that `raise_for_status` refuses, and an answer
-- that is no JSON; only for `reauthenticate` neither status nor answer is looked at.
pub record Wire (D : Type 0) : Type 0 where
  pub tickle : Result (Unit {0})
  pub auth_status : Result (Option Bool)
  pub reauthenticate : Result (Unit {0})
  pub accounts : Result (List (Option String))
  pub secdef_search : String → Result (List (Result ℕ))
  pub summary : String → Result (String → Option D)
  pub positions : String → Result (List (RawPosition D))
  pub orders : String → List (Payload D) → Result Answer
  pub reply : String → Result Answer
  pub delete : String → ℕ → Result (Unit {0})
  pub list_orders : Result (List (RawOrder D))
  pub history : ℕ → Period → String → Result (Option (List (RawBar D)))
  pub snapshot : List ℕ → Result (List (RawQuote D))

-- `http` and `tickle_task` say whether `_http` and `_tickle_task` are set.
pub record CpClient : Type 0 where
  pub http : Bool
  pub account_id : Option String
  pub conid_cache : Dict String ℕ
  pub tickle_task : Bool
  pub sent : List Request
