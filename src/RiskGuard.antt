-- ===== src/RiskGuard.antt =====
-- src/polara/risk_guard/guard.py: the pre-trade checks, and the halt after a daily loss. Each
-- `datetime.now(UTC)` of the source is an argument.
pub mod Halting
pub mod Limits
use polara_quant.Base.{
  ℕ, String, Bool, true, false, Option, none, some, List, ◌&&◌, ◌==◌, string_eq, ltb, find_first,
  if◌then◌else◌,
}
use polara_quant.Base.Effects.{
  Action, Result, ok, err, pure, raise, raise_if, gets, modify, ◌>>=◌, ◌>>◌, risk_violation,
}
use polara_quant.Decimal.{Decimal, zero_d, abs}
use polara_quant.Schemas.{Signal, Position, AccountInfo, date_of}

pub record RiskGuard (D : Type 0) : Type 0 where
  pub max_position : D
  pub max_daily_loss : D
  pub halted : Bool
  pub halt_date : Option ℕ

module _ {D : Type 0} ⦃d : Decimal D⦄ where
  -- `RiskGuard(max_position_pct, max_daily_loss_pct)`
  unfoldable pub new : D → D → RiskGuard D
  new max_position_pct max_daily_loss_pct = record {
    max_position = d.div max_position_pct (d.lit 100 0);
    max_daily_loss = d.div max_daily_loss_pct (d.lit 100 0);
    halted = false;
    halt_date = none;
  }

  unfoldable pub max_position_pct : RiskGuard D → D
  max_position_pct g = d.mul g.max_position (d.lit 100 0)

  -- The halt is lifted if today is after its date.
  unfoldable pub reset_if_new_day : ℕ → RiskGuard D → RiskGuard D
  reset_if_new_day now g = elim g.halt_date [
    | none ↦ g
    | some halt_date ↦
        if g.halted && ltb halt_date (date_of now)
        then record g { halted = false; halt_date = none }
        else g
  ]

  unfoldable pub raise_if_halted : ℕ → Action (RiskGuard D) (Unit {0})
  raise_if_halted now = do
    modify (reset_if_new_day now)
    halted ← gets (λ g. g.halted)
    raise_if halted risk_violation

  -- The position that the check looks at is the first one with the signal's symbol.
  abbrev pub existing_position : Signal D → List (Position D) → Option (Position D)
  existing_position signal = find_first (λ p. p.symbol == signal.symbol)

  -- Whether the position takes more of the account than `limit`.
  unfoldable pub exceeds_limit : D → AccountInfo D → Option (Position D) → Bool
  exceeds_limit limit account none = false
  exceeds_limit limit account (some p) =
      d.lt limit (d.div (d.mul (abs p.quantity) p.avg_cost) account.net_liquidation)

  unfoldable pub check_position_size :
      ℕ → Signal D → List (Position D) → AccountInfo D → Action (RiskGuard D) (Unit {0})
  check_position_size now signal positions account = do
    raise_if_halted now
    limit ← gets (λ g. g.max_position)
    if d.eq account.net_liquidation zero_d
        then pure tt
        else raise_if (exceeds_limit limit account (existing_position signal positions))
            risk_violation

  abbrev pub total_pnl : AccountInfo D → D
  total_pnl account = d.add account.unrealised_pnl account.realised_pnl

  abbrev pub loss_pct : AccountInfo D → D
  loss_pct account = d.div (abs (total_pnl account)) account.net_liquidation

  -- `breached_at` is the clock when the breach is recorded.
  unfoldable pub check_daily_loss : ℕ → ℕ → AccountInfo D → Action (RiskGuard D) (Unit {0})
  check_daily_loss now breached_at account = do
    raise_if_halted now
    limit ← gets (λ g. g.max_daily_loss)
    if d.eq account.net_liquidation zero_d
        then pure tt
        else if d.le zero_d (total_pnl account)
        then pure tt
        else if d.lt limit (loss_pct account)
        then (λ g. (
          err risk_violation,
          record g { halted = true; halt_date = some (date_of breached_at) },
        ))
        else pure tt
