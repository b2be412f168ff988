-- ===== src/Tests/Managing.antt =====
-- The order manager (src/polara/order_manager/manager.py) at concrete inputs.
use polara_quant.Base.{◌≡◌, refl, none, [], ◌∷◌}
use polara_quant.Base.Effects.{ok}
use polara_quant.Base.Int.{pos, negsuc, ℤ}
use polara_quant.Decimal.{fixed, fixed_lit, fixed_mul, fixed_div, fixed_round_down, Fixed-IsDecimal}
use polara_quant.Schemas.{Signal}
use polara_quant.OrderManager.{
  process_signal, size_and_place, compute_quantity, target_notional, held_by_symbol,
}
use polara_quant.OrderManager.Outcomes.{HasOutcome, process_signal-HasOutcome}
use polara_quant.OrderManager.Pending.{held_symbol_skipped}
use polara_quant.Tests.Fixtures.{signal, manager, surroundings, account_with, holding}

process_signal-HasOutcome_example :
    HasOutcome surroundings signal manager (process_signal surroundings signal manager)
process_signal-HasOutcome_example = process_signal-HasOutcome surroundings signal manager

-- A signal to sell what is held: ten shares are the target, and ten are held.
abbrev selling : Signal ℤ
selling = record signal { strength = negsuc 499_999 }

held_symbol_skipped_example :
    size_and_place surroundings selling
      (account_with (pos 100_000_000_000) (pos 0), holding (pos 10_000_000) ∷ [])
      manager
    ≡ (ok none, manager)
unfolding fixed_lit fixed_mul fixed_div fixed_round_down compute_quantity target_notional
    held_by_symbol
held_symbol_skipped_example =
    held_symbol_skipped Fixed-IsDecimal surroundings selling
      (account_with (pos 100_000_000_000) (pos 0)) (holding (pos 10_000_000) ∷ []) manager
      (pos 10_000_000) refl refl refl refl
