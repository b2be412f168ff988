-- ===== src/Tests/Fetching.antt =====
-- The client of the gateway and the market data at concrete inputs.
use polara_quant.Base.{
  ℕ, zero, suc, ap, ◌*◌, ◌<◌, ◌≡◌, refl, Bool, true, false, Option, none, some, List, [], ◌∷◌, ◌⊎◌,
  inl, All, Any, arith, length, String, string_eq,
}
use polara_quant.Base.Int.{ℤ, pos}
use polara_quant.Base.Effects.{ok, err, gateway, cp_auth}
use polara_quant.Decimal.{fixed, fixed_lit}
use polara_quant.Schemas.{Bar, bar, utc}
use polara_quant.CpClient
use polara_quant.CpClient.{
  CpClient, Wire, Item, RawBar, listed, single, init, start, connect, connected, fetch_account_id,
  request, get_conid, place_orders, account_id_of, confirm, search_conid, tickle_turn,
  historical_bars,
}
use polara_quant.CpClient.Keepalive.{Away, Turned, tickle_turn-Turned}
use polara_quant.CpClient.Contracts.{Call, run, get_conid_once}
use polara_quant.CpClient.Starting.{failed_connect_lasts}
use polara_quant.CpClient.Confirming.{Placed, place_orders-Placed}
use polara_quant.MarketData.Fetcher.{fetch_bars, read_bars, read_bar, last_n}
use polara_quant.MarketData.Store.{Key, BarTable, upsert, eq_of_keys}
use polara_quant.MarketData.Store.Latest.{time_of_bar}
use polara_quant.MarketData.Service.{MarketDataService, get_bars}
use polara_quant.MarketData.Service.Refreshing.{Serves, IsStore, get_bars-Serves}
use polara_quant.MarketData.Service.Fetched.{get_bars-fetched}

abbrev item : Option String → Bool → Item
item id message = record { id = id; message = message; order_id = none }

abbrev raw_bar : ℕ → ℕ → RawBar ℤ
raw_bar t price = record {
  t = some t;
  o = some (pos (price * 1_000_000));
  h = some (pos (price * 1_000_000));
  l = some (pos (price * 1_000_000));
  c = some (pos (price * 1_000_000));
  v = none;
}

-- A gateway that answers each request, and asks for a confirmation of orders.
abbrev up : Wire ℤ
up = record {
  tickle = ok tt;
  auth_status = ok (some false);
  reauthenticate = ok tt;
  accounts = ok (some "DU1" ∷ []);
  secdef_search = λ symbol. ok (ok 265_598 ∷ []);
  summary = λ account. err gateway;
  positions = λ account. ok [];
  orders = λ account payloads. ok (listed (item (some "q1") true ∷ []));
  reply = λ id. ok (listed (item none false ∷ []));
  delete = λ account number. ok tt;
  list_orders = ok [];
  history = λ conid period size. ok (some (raw_bar 1 10 ∷ raw_bar 2 11 ∷ []));
  snapshot = λ conids. ok [];
}

-- The same one, while it does not answer.
abbrev down : Wire ℤ
down = record up { tickle = err gateway; reauthenticate = err gateway; accounts = ok [] }

-- Down at the first two attempts.
abbrev wires : ℕ → Wire ℤ
wires j = elim j [ zero ↦ down | suc k ↦ elim k [ zero ↦ down | suc l ↦ up ] ]

abbrev logged_in : CpClient
logged_in = record init { http = true; account_id = some "DU1" }

down_is_Away : Away down
down_is_Away a l = cc l.taken

wires_down : (j : ℕ) → j < 2 → Away (wires j)
wires_down zero h = down_is_Away
wires_down (suc zero) h = down_is_Away
wires_down (suc (suc j)) h = absurd (omega arith)

tickle_turn-Turned_example : Turned 2 "DU1" down logged_in (tickle_turn 3 down wires logged_in)
tickle_turn-Turned_example =
    tickle_turn-Turned 2 3 down wires logged_in "DU1" refl wires_down
      (record { others = []; taken = refl; listed = refl }) (omega arith)

abbrev knows_apple : CpClient
knows_apple = record logged_in {
  conid_cache = ("AAPL", 265_598) ∷ [];
  sent = CpClient.post_secdef_search "AAPL" ∷ [];
}

get_conid_once_example :
    let s = run (Call.stops ∷ Call.asks down "MSFT" ∷ []) knows_apple in
    get_conid down "AAPL" s ≡ (ok 265_598, s)
get_conid_once_example =
    get_conid_once up down (Call.stops ∷ Call.asks down "MSFT" ∷ []) "AAPL" 265_598 logged_in
      knows_apple (unfold get_conid search_conid request in refl)

place_orders-Placed_example :
    Placed up [] logged_in
      (item none false ∷ [])
      (record logged_in { sent = CpClient.post_orders "DU1" ∷ CpClient.post_reply "q1" ∷ [] })
place_orders-Placed_example =
    place_orders-Placed up [] logged_in _ _
      (unfold place_orders request account_id_of confirm in refl)

-- A column that keeps each number.
abbrev same : ℤ → ℤ
same x = x

abbrev bar_of_ms : ℕ → ℕ → Bar ℤ
bar_of_ms t price = record {
  symbol = "AAPL";
  timestamp = utc (t * 1_000);
  open_price = pos (price * 1_000_000);
  high = pos (price * 1_000_000);
  low = pos (price * 1_000_000);
  close = pos (price * 1_000_000);
  volume = pos 0;
}

abbrev fetched : List (Bar ℤ)
fetched = bar_of_ms 1 10 ∷ bar_of_ms 2 11 ∷ []

-- A table with an older bar.
abbrev table : BarTable ℤ
table = upsert same (bar_of_ms 0 9 ∷ bar_of_ms 1 8 ∷ []) "5 mins" []

abbrev service : MarketDataService ℤ
service = record { client = logged_in; rows = table }

table-IsStore : IsStore table
unfolding upsert bar fixed_lit
table-IsStore = record {
  keyed = ((λ e. omega (arith, ap (λ (k : Key). k.timestamp) e), tt), (tt, tt));
  valid = (refl, (refl, tt));
}

get_bars-Serves_example :
    Serves same
      (λ x h. h)
      "5 mins"
      (fetch_bars up "AAPL" 2 "5 mins" logged_in).0
      "AAPL"
      2
      table
      (get_bars same up "AAPL" 2 "5 mins" service)
get_bars-Serves_example = get_bars-Serves same (λ x h. h) "5 mins" up "AAPL" 2 service table-IsStore

get_bars-fetched_example :
    (bars : List (Bar ℤ)) × ((get_bars same up "AAPL" 2 "5 mins" service).0 ≡ ok bars)
    × (Any (λ a. a ≡ bar_of_ms 1 10) bars
        ⊎ (length bars ≡ 2) × All (λ a. 1_000 < time_of_bar a) bars)
get_bars-fetched_example =
    get_bars-fetched same "5 mins" (λ x h. h) up "AAPL" 2 service fetched (bar_of_ms 1 10)
      table-IsStore
      (unfold fetch_bars get_conid search_conid request historical_bars read_bars read_bar bar
          last_n fixed_lit in
        refl)
      ((omega arith, tt), (tt, tt)) (inl refl)
      (record { open_price = refl; high = refl; low = refl; close = refl })

-- The gateway comes back, and the client does not.
failed_connect_lasts_example :
    let s = run (Call.asks up "AAPL" ∷ Call.places up [] ∷ []) (connect down init).1 in
    ((connect down init).0 ≡ ok tt) × (connected s ≡ false) × (s.tickle_task ≡ false)
failed_connect_lasts_example =
    failed_connect_lasts down cp_auth (Call.asks up "AAPL" ∷ Call.places up [] ∷ [])
      (unfold start fetch_account_id request in refl) (refl, (refl, tt))
