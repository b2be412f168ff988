-- ===== src/Schemas/Signals.antt =====
-- src/polara/schemas/signals.py: signals and target positions.
use polara_quant.Base.{ℕ, String, Bool, Option, not, ◌&&◌, ◌||◌, if◌then◌else◌}
use polara_quant.Base.Effects.{Result, ok, err, value_error}
use polara_quant.Decimal.{Decimal, zero_d}
use polara_quant.Schemas.Time.{DateTime, is_utc}

pub record Signal (D : Type 0) : Type 0 where
  pub signal_id : ℕ
  pub strategy_id : String
  pub symbol : String
  pub strength : D
  pub generated_at : DateTime
  pub reference_price : Option D
  pub stop_loss_pct : Option D
  pub take_profit_pct : Option D

pub record TargetPosition (D : Type 0) : Type 0 where
  pub position_id : ℕ
  pub strategy_id : String
  pub symbol : String
  pub target_weight : D
  pub rationale : String
  pub computed_at : DateTime

module _ {D : Type 0} ⦃d : Decimal D⦄ where
  abbrev pub strength_in_range : D → Bool
  strength_in_range v = not (d.lt v (d.neg (d.lit 1 0)) || d.lt (d.lit 1 0) v)

  -- `Signal(...)`
  unfoldable pub signal : Signal D → Result (Signal D)
  signal s = if strength_in_range s.strength && is_utc s.generated_at then ok s else err value_error

  abbrev pub target_weight_in_range : D → Bool
  target_weight_in_range v = not (d.lt v zero_d || d.lt (d.lit 1 0) v)

  -- `TargetPosition(...)`
  unfoldable pub target_position : TargetPosition D → Result (TargetPosition D)
  target_position p =
      if target_weight_in_range p.target_weight && is_utc p.computed_at
      then ok p
      else err value_error
