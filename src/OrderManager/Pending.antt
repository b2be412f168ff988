-- ===== src/OrderManager/Pending.antt =====
-- src/polara/order_manager/manager.py: the quantities in flight, and what `_compute_delta` makes of a
-- symbol that is already held.
use polara_quant.Base.{◌≡◌, true, List, none, some, arith, String, string_eq}
use polara_quant.Base.Dict.{Dict, get_or}
use polara_quant.Base.Effects.{ok}
use polara_quant.Decimal.{Decimal, zero_d, IsDecimal, ◌≼◌, not_lt_of_le}
use polara_quant.Schemas.{Signal, AccountInfo, Position}
use polara_quant.OrderManager.{
  OrderManager, Surroundings, compute_delta, held_of, size_and_place, compute_quantity,
}

module _ {D : Type 0} ⦃d : Decimal D⦄ (laws : IsDecimal D) where
  delta_of_held :
      (pending : Dict String D) (symbol : String) (target : D) (positions : List (Position D))
      → target ≼ held_of positions symbol
      → zero_d ≼ get_or symbol zero_d pending
      → compute_delta pending symbol target positions ≡ zero_d
  unfolding compute_delta
  delta_of_held pending symbol target positions h p =
      let held : D = held_of positions symbol in
      let rest : D = d.sub (d.sub target held) (get_or symbol zero_d pending) in
      let below : rest ≼ zero_d =
        laws.le_trans rest (d.sub target held) zero_d
          (laws.sub-le (d.sub target held) (get_or symbol zero_d pending) p)
          (laws.sub_nonpos target held h) in
      ground (arith, not_lt_of_le laws rest zero_d below)

  -- For a signal of any strength, so also for one to sell: if the symbol is held in at least the
  -- quantity that is computed for the signal, the quantity in flight is not negative and the
  -- smallest order is above zero, the part of `process_signal` after the risk checks answers
  -- none and changes nothing.
  pub held_symbol_skipped :
      (w : Surroundings D) (signal : Signal D) (account : AccountInfo D)
      (positions : List (Position D)) (m : OrderManager D) (target : D)
      → compute_quantity m signal account ≡ some target
      → target ≼ held_of positions signal.symbol
      → zero_d ≼ get_or signal.symbol zero_d m.pending
      → d.lt zero_d m.min_order_quantity ≡ true
      → size_and_place w signal (account, positions) m ≡ (ok none, m)
  unfolding size_and_place
  held_symbol_skipped w signal account positions m target sized held flight positive =
      ground (arith, delta_of_held m.pending signal.symbol target positions held flight)
