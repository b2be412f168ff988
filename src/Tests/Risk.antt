-- ===== src/Tests/Risk.antt =====
-- The risk guard (src/polara/risk_guard/guard.py) at concrete inputs.
use polara_quant.Base.{◌↔◌, ◌≡◌, refl, List, [], ◌∷◌, All, arith}
use polara_quant.Base.Int.{ℤ, ◌+ℤ◌, ◌-ℤ◌, pos, negsuc, ℤ, ◌+ℤ◌, ◌-ℤ◌}
use polara_quant.Base.Effects.{ok, ◌>>◌}
use polara_quant.Decimal.{fixed, fixed_lit, fixed_div, Fixed-IsDecimal, fixed_lit, fixed_div}
use polara_quant.Schemas.{AccountInfo}
use polara_quant.RiskGuard.{
  RiskGuard, check_daily_loss, check_position_size, raise_if_halted, reset_if_new_day,
  raise_if_halted, reset_if_new_day,
}
use polara_quant.RiskGuard.Halting
use polara_quant.RiskGuard.Halting.{
  Check, position_size, daily_loss, IsRefused, IsConsistent, breach_halts_day, run-IsConsistent,
  check_resumes, check, Check,
}
use polara_quant.RiskGuard.Limits.{IsAdmitted, checked_limits, insolvent_account_passes}
use polara_quant.Tests.Fixtures.{signal, account_with, guard, holding}

-- A loss of 5 percent, against a limit of 2.
abbrev losing : AccountInfo ℤ
losing = account_with (pos 100_000_000_000) (negsuc 4_999_999_999)

abbrev later_checks : List (Check ℤ)
later_checks = position_size 5 signal [] losing ∷ (daily_loss 9 9 losing ∷ [])

breach_halts_day_example :
    All IsRefused (Halting.run later_checks (check_daily_loss 1 2 losing guard).1).0
unfolding check_daily_loss raise_if_halted reset_if_new_day fixed_lit fixed_div ◌+ℤ◌ ◌-ℤ◌
breach_halts_day_example =
    breach_halts_day 1 2 losing guard later_checks refl refl refl (omega arith, (omega arith, tt))

-- A small profit, and 4 percent of the account in the symbol.
abbrev winning : AccountInfo ℤ
winning = account_with (pos 100_000_000_000) (negsuc 999_999_999)

checked_limits_example :
    ((g' : RiskGuard ℤ) × ((check_daily_loss 1 2 winning
            >> check_position_size 3 signal (holding (pos 40_000_000) ∷ []) winning)
          guard
        ≡ (ok tt, g')))
    ↔ IsAdmitted Fixed-IsDecimal 1 signal (holding (pos 40_000_000) ∷ []) winning guard
unfolding fixed_lit
checked_limits_example =
    checked_limits Fixed-IsDecimal 1 2 3 signal (holding (pos 40_000_000) ∷ []) winning guard refl

-- 100000 of debts, and a hundred thousand shares.
abbrev insolvent : AccountInfo ℤ
insolvent = account_with (negsuc 99_999_999_999) (negsuc 4_999_999_999)

insolvent_account_passes_example :
    (check_daily_loss 1 2 insolvent
        >> check_position_size 3 signal (holding (pos 100_000_000_000) ∷ []) insolvent)
      guard
    ≡ (ok tt, guard)
unfolding fixed_lit
insolvent_account_passes_example =
    insolvent_account_passes Fixed-IsDecimal 1 2 3 signal (holding (pos 100_000_000_000) ∷ [])
      insolvent guard refl refl refl refl (λ p found. ground arith)
