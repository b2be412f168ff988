-- ===== src/Schemas/Orders.antt =====
-- src/polara/schemas/orders.py: order requests and fills.
use polara_quant.Base.{
  ℕ, String, Bool, true, Option, none, some, not, ◌&&◌, if◌then◌else◌, ◌≡◌, arith,
}
use polara_quant.Base.Effects.{Result, ok, err, value_error}
use polara_quant.Decimal.{Decimal, zero_d}
use polara_quant.Schemas.Time.{DateTime, is_utc}

pub data OrderSide : Type 0 where
  buy sell : OrderSide

pub record OrderRequest (D : Type 0) : Type 0 where
  pub order_id : ℕ
  pub symbol : String
  pub side : OrderSide
  pub quantity : D
  pub limit_price : Option D
  pub requested_at : DateTime
  pub strategy_id : String

pub record Fill (D : Type 0) : Type 0 where
  pub fill_id : ℕ
  pub order_id : ℕ
  pub symbol : String
  pub side : OrderSide
  pub filled_quantity : D
  pub fill_price : D
  pub commission : D
  pub filled_at : DateTime

module _ {D : Type 0} ⦃d : Decimal D⦄ where
  abbrev pub quantity_must_be_positive : D → Bool
  quantity_must_be_positive v = not (d.le v zero_d)

  abbrev pub limit_price_must_be_positive : Option D → Bool
  limit_price_must_be_positive none = true
  limit_price_must_be_positive (some v) = not (d.le v zero_d)

  -- `OrderRequest(...)` on fields of the right types: it raises if a validator of a field does.
  unfoldable pub order_request : OrderRequest D → Result (OrderRequest D)
  order_request r =
      if quantity_must_be_positive r.quantity
        && (limit_price_must_be_positive r.limit_price && is_utc r.requested_at)
      then ok r
      else err value_error

  abbrev pub must_be_positive : D → Bool
  must_be_positive v = not (d.le v zero_d)

  abbrev pub commission_must_be_non_negative : D → Bool
  commission_must_be_non_negative v = not (d.lt v zero_d)

  -- `Fill(...)`
  unfoldable pub fill : Fill D → Result (Fill D)
  fill f =
      if must_be_positive f.filled_quantity
        && (must_be_positive f.fill_price
            && (commission_must_be_non_negative f.commission && is_utc f.filled_at))
      then ok f
      else err value_error

  -- An accepted request is the given one.
  pub order_request-eq-ok : (r q : OrderRequest D) → order_request r ≡ ok q → q ≡ r
  unfolding order_request
  order_request-eq-ok r q h = ground arith
