-- ===== src/Tests/Brokering.antt =====
-- The broker adapter (src/polara/broker/adapter.py) at concrete inputs.
use polara_quant.Base.{◌≡◌, refl, true, false, none, some, List, [], ◌∷◌, arith, ℕ, Option, Bool}
use polara_quant.Base.Int.{ℤ, pos}
use polara_quant.Decimal.{fixed}
use polara_quant.Broker.{Broker, Reply, stp, lmt}
use polara_quant.Broker.Account.{get_account}
use polara_quant.Broker.Account.Caching.{IsStamped, IsFresh, get_account-IsFresh}
use polara_quant.Broker.Orders.{place_bracket_order, cancel_order, bracket_legs, bracket_row}
use polara_quant.Broker.Orders.Brackets.{
  Stores, place_bracket_order-Stores, bracket_row_ids, id_of_child, answered,
}
use polara_quant.Broker.Orders.Cancelling.{Cancels, cancel_order-Cancels}
use polara_quant.Broker.Polling.{status_map, sync_orders, sync_order, contains}
use polara_quant.Broker.Polling.Fills.{IsDisjoint, poll_twice}
use polara_quant.Broker.Polling.Exits.{exit_fill_ignored, failed_fill_retried}
use polara_quant.Base.{nat_eq}
use polara_quant.Tests.Fixtures.{
  account_with, gateway, request, empty_broker, busy_broker, filled_report, never, sum_all,
}

abbrev cached_broker : Broker ℤ
cached_broker = record empty_broker {
  account_cache = some (0, account_with (pos 1_000_000) (pos 0));
}

get_account-IsFresh_example :
    IsFresh 299_999_999 false (get_account gateway 299_999_999 false cached_broker).0
    × IsStamped (get_account gateway 299_999_999 false cached_broker).1
get_account-IsFresh_example = get_account-IsFresh gateway 299_999_999 false cached_broker refl

abbrev stop : Option ℤ
stop = some (pos 98_000_000)

abbrev profit : Option ℤ
profit = some (pos 104_000_000)

place_bracket_order-Stores_example :
    Stores request empty_broker (place_bracket_order gateway 1 70 request stop profit empty_broker)
place_bracket_order-Stores_example =
    place_bracket_order-Stores gateway 1 70 request stop profit empty_broker

abbrev replies : List Reply
replies = record { order_id = some 31 } ∷ (record { order_id = some 32 } ∷ [])

-- Only a profit target: its number is the second of the answer.
bracket_row_ids_example :
    let legs = bracket_legs request 265_598 "U1" 70 none profit in
    let row = bracket_row request none profit replies 1 in
    (row.stop_ib_id ≡ id_of_child stp (answered legs replies))
    × (row.take_profit_ib_id ≡ id_of_child lmt (answered legs replies))
unfolding bracket_legs
bracket_row_ids_example = bracket_row_ids request 265_598 "U1" 70 none profit replies 1 refl

cancel_order-Cancels_example : Cancels 7 busy_broker (cancel_order gateway 7 busy_broker)
cancel_order-Cancels_example = cancel_order-Cancels gateway 7 busy_broker

busy-IsDisjoint : IsDisjoint busy_broker
busy-IsDisjoint i = ground arith

-- The parent and one of its children are reported as filled.
poll_twice_example :
    let os = filled_report 31 ∷ (filled_report 33 ∷ []) in
    let once = sync_orders sum_all never 5 os busy_broker in
    (sync_orders sum_all never 6 os once).trades ≡ once.trades
poll_twice_example =
    poll_twice sum_all never 5 6 (filled_report 31 ∷ (filled_report 33 ∷ [])) busy_broker
      busy-IsDisjoint refl (λ i. refl)

exit_fill_ignored_example :
    ((sync_order sum_all never 5 (filled_report 33) busy_broker).trades ≡ busy_broker.trades)
    × (contains 33 (sync_order sum_all never 5 (filled_report 33) busy_broker).known_filled ≡ true)
unfolding status_map
exit_fill_ignored_example =
    exit_fill_ignored sum_all never 5 (filled_report 33) busy_broker 33 busy-IsDisjoint refl
      (λ e. cc) refl

abbrev always : ℕ → Bool
always _ = true

failed_fill_retried_example :
    (sync_order sum_all never 6
      (filled_report 31)
      (sync_order sum_all always 5 (filled_report 31) busy_broker)).trades
    ≡ (sync_order sum_all never 6 (filled_report 31) busy_broker).trades
unfolding status_map
failed_fill_retried_example =
    failed_fill_retried sum_all always never 5 6 (filled_report 31) busy_broker 31 refl refl
