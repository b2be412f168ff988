-- ===== src/RiskGuard/Limits.antt =====
-- What an account satisfies when the checks of src/polara/risk_guard/guard.py have let it through,
-- and the accounts that they always let through.
use polara_quant.Base.{ℕ, ◌≡◌, refl, ◌↔◌, true, false, Option, none, some, List, arith, string_eq}
use polara_quant.Base.Effects.{ok, ◌>>◌, >>-eq-ok}
use polara_quant.Decimal.{
  Decimal, IsDecimal, ◌≼◌, zero_d, abs, abs_nonneg, le_of_not_lt, not_lt_of_le,
}
use polara_quant.Schemas.{Signal, Position, AccountInfo}
use polara_quant.RiskGuard.{
  RiskGuard, reset_if_new_day, raise_if_halted, exceeds_limit, existing_position,
  check_position_size, check_daily_loss, total_pnl, loss_pct,
}

module _ {D : Type 0} ⦃d : Decimal D⦄ (laws : IsDecimal D) where
  open laws use {
    le_refl, le_trans, le_total, lt-eq-not-le, eq-eq-le, neg_nonneg, mul_nonneg, div_nonpos,
  }

  daily_loss_passed :
      (now at : ℕ) (account : AccountInfo D) (g g' : RiskGuard D)
      → d.lt zero_d account.net_liquidation ≡ true
      → check_daily_loss now at account g ≡ (ok tt, g')
      → (g' ≡ reset_if_new_day now g)
        × (g'.max_position ≡ g.max_position)
        × ((reset_if_new_day now g).halted ≡ false)
        × (d.lt (d.add account.unrealised_pnl account.realised_pnl) zero_d ≡ true
            → d.div
                (d.neg (d.add account.unrealised_pnl account.realised_pnl))
                account.net_liquidation
              ≼ g.max_daily_loss)
  unfolding check_daily_loss raise_if_halted reset_if_new_day
  daily_loss_passed now at account g g' pos e = ground (
    arith,
    lt-eq-not-le zero_d account.net_liquidation,
    eq-eq-le account.net_liquidation zero_d,
    lt-eq-not-le (total_pnl account) zero_d,
    lt-eq-not-le g.max_daily_loss (loss_pct account),
  )

  within_limit :
      (limit : D) (account : AccountInfo D) (p : Position D)
      → exceeds_limit limit account (some p) ≡ false
      → d.div (d.mul (abs p.quantity) p.avg_cost) account.net_liquidation ≼ limit
  unfolding exceeds_limit
  within_limit limit account p e = le_of_not_lt laws limit _ e

  position_size_passed :
      (now : ℕ) (signal : Signal D) (positions : List (Position D)) (account : AccountInfo D)
      (g g' : RiskGuard D)
      → d.lt zero_d account.net_liquidation ≡ true
      → check_position_size now signal positions account g ≡ (ok tt, g')
      → (g'.halted ≡ false)
        × (exceeds_limit g.max_position account (existing_position signal positions) ≡ false)
  unfolding check_position_size raise_if_halted reset_if_new_day
  position_size_passed now signal positions account g g' pos e =
      ground (
        arith,
        lt-eq-not-le zero_d account.net_liquidation,
        eq-eq-le account.net_liquidation zero_d,
      )

  -- What an account is to satisfy for a signal: trading is not halted, or the halt ends today; a loss is
  -- within the daily limit, and the first position in the symbol is within the position limit.
  abbrev pub IsAdmitted : ℕ → Signal D → List (Position D) → AccountInfo D → RiskGuard D → Type 0
  IsAdmitted now signal positions account g =
      ((reset_if_new_day now g).halted ≡ false)
      × (d.lt (d.add account.unrealised_pnl account.realised_pnl) zero_d ≡ true
          → d.div (d.neg (d.add account.unrealised_pnl account.realised_pnl))
              account.net_liquidation
            ≼ g.max_daily_loss)
      × ((p : Position D)
          → existing_position signal positions ≡ some p
          → d.div (d.mul (abs p.quantity) p.avg_cost) account.net_liquidation ≼ g.max_position)

  admitted_daily_loss :
      (now at : ℕ) (account : AccountInfo D) (g : RiskGuard D)
      → d.lt zero_d account.net_liquidation ≡ true
      → (reset_if_new_day now g).halted ≡ false
      → (d.lt (d.add account.unrealised_pnl account.realised_pnl) zero_d ≡ true
          → d.div
              (d.neg (d.add account.unrealised_pnl account.realised_pnl))
              account.net_liquidation
            ≼ g.max_daily_loss)
      → (check_daily_loss now at account g ≡ (ok tt, reset_if_new_day now g))
        × ((reset_if_new_day now g).max_position ≡ g.max_position)
  unfolding check_daily_loss raise_if_halted reset_if_new_day
  admitted_daily_loss now at account g pos open_ loss = ground (
    arith,
    lt-eq-not-le zero_d account.net_liquidation,
    eq-eq-le account.net_liquidation zero_d,
    lt-eq-not-le (total_pnl account) zero_d,
    lt-eq-not-le g.max_daily_loss (loss_pct account),
  )

  admitted_within :
      (limit : D) (account : AccountInfo D) (o : Option (Position D))
      → ((p : Position D)
          → o ≡ some p
          → d.div (d.mul (abs p.quantity) p.avg_cost) account.net_liquidation ≼ limit)
      → exceeds_limit limit account o ≡ false
  unfolding exceeds_limit
  admitted_within limit account none small = refl
  admitted_within limit account (some p) small = not_lt_of_le laws _ limit (small p refl)

  admitted_position_size :
      (later : ℕ) (signal : Signal D) (positions : List (Position D)) (account : AccountInfo D)
      (g : RiskGuard D)
      → g.halted ≡ false
      → exceeds_limit g.max_position account (existing_position signal positions) ≡ false
      → check_position_size later signal positions account g ≡ (ok tt, g)
  unfolding check_position_size raise_if_halted reset_if_new_day
  admitted_position_size later signal positions account g open_ within = ground arith

  -- For an account with a positive net liquidation, the two checks, in the order in which
  -- `process_signal` makes them, let a signal through exactly if trading is not halted or the halt ends
  -- today, the loss of the account, if its realised and unrealised profits add up to one, is within the
  -- daily limit, and the first position in the signal's symbol is within the position limit.
  pub checked_limits :
      (now at later : ℕ) (signal : Signal D) (positions : List (Position D))
      (account : AccountInfo D) (g : RiskGuard D)
      → d.lt zero_d account.net_liquidation ≡ true
      → ((g' : RiskGuard D) × ((check_daily_loss now at account
                >> check_position_size later signal positions account)
              g
            ≡ (ok tt, g')))
        ↔ IsAdmitted now signal positions account g
  checked_limits now at later signal positions account g pos = (forward, backward)
    where
      forward :
          ((g' : RiskGuard D) × ((check_daily_loss now at account
                  >> check_position_size later signal positions account)
                g
              ≡ (ok tt, g')))
          → IsAdmitted now signal positions account g
      forward (g', e) =
          let (_, h, first, second) = >>-eq-ok (check_daily_loss now at account) _ g tt g' e in
          let (same, kept, open_, loss) = daily_loss_passed now at account g h pos first in
          let (_, size) = position_size_passed later signal positions account h g' pos second in
          (
            open_,
            loss,
            λ p found. within_limit g.max_position account p (rw (← found, ← kept) size),
          )

      backward :
          IsAdmitted now signal positions account g
          → (g' : RiskGuard D) × ((check_daily_loss now at account
                  >> check_position_size later signal positions account)
                g
              ≡ (ok tt, g'))
      backward (open_, loss, size) =
          let (passes, kept) = admitted_daily_loss now at account g pos open_ loss in
          (
            reset_if_new_day now g,
            rw (
              passes,
              admitted_position_size later signal positions account (reset_if_new_day now g) open_ (
                  rw kept (
                    admitted_within g.max_position account (existing_position signal positions)
                      size)),
            ),
          )

  insolvent_daily_loss :
      (now at : ℕ) (account : AccountInfo D) (g : RiskGuard D)
      → d.lt account.net_liquidation zero_d ≡ true
      → zero_d ≼ g.max_daily_loss
      → g.halted ≡ false
      → check_daily_loss now at account g ≡ (ok tt, g)
  unfolding check_daily_loss raise_if_halted reset_if_new_day
  insolvent_daily_loss now at account g neg l run = ground (
    arith,
    abs_nonneg laws (total_pnl account),
    div_nonpos (abs (total_pnl account)) account.net_liquidation,
    le_trans (loss_pct account) zero_d g.max_daily_loss,
    not_lt_of_le laws (loss_pct account) g.max_daily_loss,
  )

  insolvent_within :
      (limit : D) (account : AccountInfo D)
      → d.lt account.net_liquidation zero_d ≡ true
      → zero_d ≼ limit
      → (o : Option (Position D)) → ((p : Position D) → o ≡ some p → zero_d ≼ p.avg_cost)
      → exceeds_limit limit account o ≡ false
  unfolding exceeds_limit
  insolvent_within limit account neg m none costs = refl
  insolvent_within limit account neg m (some p) costs =
      let notional = d.mul (abs p.quantity) p.avg_cost in
      let fits : d.div notional account.net_liquidation ≼ zero_d =
        div_nonpos notional account.net_liquidation
          (mul_nonneg (abs p.quantity) p.avg_cost (abs_nonneg laws p.quantity) (costs p refl))
          neg in
      not_lt_of_le laws _ limit (le_trans _ zero_d limit fits m)

  insolvent_position_size :
      (now : ℕ) (signal : Signal D) (positions : List (Position D)) (account : AccountInfo D)
      (g : RiskGuard D)
      → d.lt account.net_liquidation zero_d ≡ true
      → g.halted ≡ false
      → exceeds_limit g.max_position account (existing_position signal positions) ≡ false
      → check_position_size now signal positions account g ≡ (ok tt, g)
  unfolding check_position_size raise_if_halted reset_if_new_day
  insolvent_position_size now signal positions account g neg run within = ground arith

  -- With a negative net liquidation no loss and no position is too large: if trading is not
  -- halted, the limits are not negative, and neither is the cost of the first position in the
  -- symbol of the signal, both checks succeed and change nothing.
  pub insolvent_account_passes :
      (now at later : ℕ) (signal : Signal D) (positions : List (Position D))
      (account : AccountInfo D) (g : RiskGuard D)
      → d.lt account.net_liquidation zero_d ≡ true
      → zero_d ≼ g.max_daily_loss
      → zero_d ≼ g.max_position
      → g.halted ≡ false
      → ((p : Position D) → existing_position signal positions ≡ some p → zero_d ≼ p.avg_cost)
      → (check_daily_loss now at account >> check_position_size later signal positions account) g
        ≡ (ok tt, g)
  insolvent_account_passes now at later signal positions account g neg l m run costs = rw (
    insolvent_daily_loss now at account g neg l run,
    insolvent_position_size later signal positions account g neg run
        (insolvent_within g.max_position account neg m (existing_position signal positions) costs),
  )
