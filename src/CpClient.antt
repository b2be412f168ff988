-- ===== src/CpClient.antt =====
-- src/polara/broker/cp_client.py: the client of the gateway's web interface. `Wire` is what the gateway
-- answers to each request, decoded; the requests that were sent are kept in the state.
mod State
pub mod Keepalive
pub mod Contracts
pub mod Confirming
pub mod Starting
pub use State.*
use polara_quant.Base.{
  ℕ, zero, suc, ◌*◌, String, Bool, true, false, Option, none, some, List, [], ◌∷◌, ◌++◌, ◌&&◌, ◌==◌,
  string_eq, ltb, if◌then◌else◌,
}
use polara_quant.Base.Int.{ℤ}
use polara_quant.Base.Dict.{Dict, lookup, insert}
use polara_quant.Base.Effects.{
  Result, ok, err, Action, pure, raise, gets, lift, modify, ◌>>=◌, ◌>>◌, value_error, key_error,
  assertion, cp_auth,
}
use polara_quant.Broker.{Payload, RawPosition, RawOrder}
use polara_quant.MarketData.Periods.{Period}
use polara_quant.CpClient.State.{
  Request, Item, Answer, RawBar, RawQuote, Wire, CpClient, get_accounts, get_auth_status,
  post_tickle, post_reauthenticate, get_orders, post_secdef_search, get_summary, get_positions,
  post_orders, post_reply, delete_order, get_history, get_snapshot, listed, single,
}

abbrev pub init : CpClient
init = record { http = false; account_id = none; conid_cache = []; tickle_task = false; sent = [] }

-- `_get`, `_post` and `_delete`, with the assertion that they begin with.
unfoldable pub request : {A : Type 0} → Request → Result A → Action CpClient A
request r answer s =
    if s.http then (answer, record s { sent = s.sent ++ (r ∷ []) }) else (err assertion, s)

abbrev pub connected : CpClient → Bool
connected s = elim s.account_id [ none ↦ false | some a ↦ true ]

-- The property `account_id`; an empty text is refused as well.
unfoldable pub account_id_of : Option String → Result String
account_id_of none = err cp_auth
account_id_of (some a) = if a == "" then err cp_auth else ok a

abbrev pub require_account : Action CpClient String
require_account s = (account_id_of s.account_id, s)

abbrev pub first_account : List (Option String) → Result String
first_account [] = err cp_auth
first_account (none ∷ rows) = err key_error
first_account (some a ∷ rows) = ok a

abbrev pub first_conid : List (Result ℕ) → Result ℕ
first_conid [] = err value_error
first_conid (conid ∷ results) = conid

-- The id of the question that an answer begins with.
abbrev pub question : Answer → Option String
question (listed (item ∷ items)) = if item.message then item.id else none
question _ = none

abbrev pub as_list : Answer → List Item
as_list (listed items) = items
as_list (single item) = item ∷ []

abbrev pub authenticated : Option Bool → Bool
authenticated none = false
authenticated (some b) = b

-- `_tickle_task` stays set.
unfoldable pub stop : Action CpClient (Unit {0})
stop = modify (λ s. record s { http = false; account_id = none })

-- `IBClient.disconnect`
unfoldable pub disconnect : Action CpClient (Unit {0})
unfolding stop
disconnect = stop

-- `if symbol in self._conid_cache: return self._conid_cache[symbol]`
abbrev pub known_or : Option ℕ → Action CpClient ℕ → Action CpClient ℕ
known_or (some conid) searched = pure conid
known_or none searched = searched

module _ {D : Type 0} (w : Wire D) where
  unfoldable pub fetch_account_id : Action CpClient (Unit {0})
  unfolding request
  fetch_account_id = do
    rows ← request get_accounts w.accounts
    a ← lift (first_account rows)
    modify (λ s. record s { account_id = some a })

  unfoldable pub start : Action CpClient (Unit {0})
  unfolding fetch_account_id
  start = do
    modify (λ s. record s { http = true })
    fetch_account_id
    modify (λ s. record s { tickle_task = true })

  -- `IBClient.connect`, which logs what `start` raises.
  unfoldable pub connect : Action CpClient (Unit {0})
  unfolding start
  connect s = let (answer, t) = start s in (ok tt, t)

  unfoldable pub search_conid : String → Action CpClient ℕ
  unfolding request
  search_conid symbol = do
    results ← request (post_secdef_search symbol) (w.secdef_search symbol)
    conid ← lift (first_conid results)
    modify (λ s. record s { conid_cache = insert symbol conid s.conid_cache })
    pure conid

  unfoldable pub get_conid : String → Action CpClient ℕ
  unfolding search_conid
  get_conid symbol s = known_or (lookup symbol s.conid_cache) (search_conid symbol) s

  unfoldable pub account_summary : Action CpClient (String → Option D)
  unfolding request account_id_of
  account_summary = do a ← require_account; request (get_summary a) (w.summary a)

  unfoldable pub positions : Action CpClient (List (RawPosition D))
  unfolding request account_id_of
  positions = do a ← require_account; request (get_positions a) (w.positions a)

  unfoldable pub confirm : Answer → Action CpClient Answer
  unfolding request
  confirm answer = elim (question answer) [
    | none ↦ pure answer
    | some confirm_id ↦ request (post_reply confirm_id) (w.reply confirm_id)
  ]

  unfoldable pub place_orders : List (Payload D) → Action CpClient (List Item)
  unfolding request account_id_of confirm
  place_orders payloads = do
    a ← require_account
    answer ← request (post_orders a) (w.orders a payloads)
    final ← confirm answer
    pure (as_list final)

  unfoldable pub cancel_order : ℕ → Action CpClient (Unit {0})
  unfolding request account_id_of
  cancel_order ib_order_id = do
    a ← require_account
    request (delete_order a ib_order_id) (w.delete a ib_order_id)

  unfoldable pub list_orders : Action CpClient (List (RawOrder D))
  unfolding request
  list_orders = request get_orders w.list_orders

  unfoldable pub historical_bars : ℕ → Period → String → Action CpClient (Option (List (RawBar D)))
  unfolding request
  historical_bars conid period size =
      request (get_history conid period size) (w.history conid period size)

  unfoldable pub market_snapshot : List ℕ → Action CpClient (List (RawQuote D))
  unfolding request
  market_snapshot conids = request (get_snapshot conids) (w.snapshot conids)

  -- What `_reconnect_loop` tries once in a turn, and `_tickle_loop` once it finds the session lost.
  unfoldable pub restore : Action CpClient (Unit {0})
  unfolding request fetch_account_id
  restore = do request post_reauthenticate w.reauthenticate; fetch_account_id

  -- The body of the `try` of `_tickle_loop`.
  unfoldable pub keep_alive : Action CpClient (Unit {0})
  unfolding request restore
  keep_alive = do
    request post_tickle w.tickle
    auth ← request get_auth_status w.auth_status
    elim (authenticated auth) [ true ↦ pure tt | false ↦ restore ]

-- `delay = min(delay * 2, 120)`
abbrev pub next_delay : ℕ → ℕ
next_delay delay = if ltb 120 (delay * 2) then 120 else delay * 2

-- `_reconnect_loop`, with the gateway at the first attempt, the second and so on: the seconds that it slept before each
-- attempt and the state that it leaves, or `none` if it still tries when the fuel ends.
unfoldable pub reconnect_loop :
    {D : Type 0} → (fuel : ℕ) → (ℕ → Wire D) → (delay : ℕ) → CpClient → Option (List ℕ × CpClient)
unfolding restore
reconnect_loop zero wires delay s = none
reconnect_loop (suc fuel) wires delay s =
    let (answer, t) = restore (wires zero) s in
    let rest = reconnect_loop fuel (λ j. wires (suc j)) (next_delay delay) t in
    elim answer [
      | ok done ↦ some (delay ∷ [], t)
      | err e ↦ elim rest [ none ↦ none | some (delays, u) ↦ some (delay ∷ delays, u) ]
    ]

-- One turn of `_tickle_loop`.
unfoldable pub tickle_turn :
    {D : Type 0} → (fuel : ℕ) → Wire D → (ℕ → Wire D) → CpClient → Option (List ℕ × CpClient)
unfolding keep_alive reconnect_loop
tickle_turn fuel w wires s =
    let (answer, t) = keep_alive w s in
    elim answer [
      | ok done ↦ some ([], t)
      | err e ↦ reconnect_loop fuel wires 15 (record t { account_id = none })
    ]
