-- ===== src/MarketData/Fetcher.antt =====
-- `IBFetcher` of src/polara/market_data/fetcher.py: bars and quotes through the client of the gateway.
pub mod Answers
use polara_quant.Base.{
  ℕ, zero, suc, ◌-◌, ◌*◌, String, Option, none, some, List, [], ◌∷◌, ltb, ◌==◌, string_eq, length,
  drop, if◌then◌else◌,
}
use polara_quant.Base.Int.{ℤ, pos}
use polara_quant.Base.Effects.{Result, ok, err, Action, lift, pure, ◌>>=◌, value_error, key_error}
use polara_quant.Base.Results
use polara_quant.Decimal.{Decimal}
use polara_quant.Schemas.{Bar, bar, Quote, quote, utc}
use polara_quant.CpClient.{
  CpClient, Wire, RawBar, RawQuote, get_conid, historical_bars, market_snapshot,
}
use polara_quant.MarketData.Periods.{cp_period}

-- `_BAR_SIZE_MAP.get(bar_size, "5mins")`
unfoldable pub cp_bar : String → String
cp_bar bar_size =
    if bar_size == "1 min"
    then "1min"
    else if bar_size == "5 mins"
    then "5mins"
    else if bar_size == "15 mins"
    then "15mins"
    else if bar_size == "30 mins"
    then "30mins"
    else if bar_size == "1 hour"
    then "1h"
    else if bar_size == "1 day"
    then "1d"
    else "5mins"

-- `d[key]`
abbrev pub item_of : {A : Type 0} → Option A → Result A
item_of none = err key_error
item_of (some a) = ok a

-- `bars[-n:] if len(bars) > n else bars`, where `bars[-0:]` is the whole list.
unfoldable pub last_n : {A : Type 0} → ℕ → List A → List A
last_n zero bars = bars
last_n (suc n) bars = if ltb (suc n) (length bars) then drop (length bars - suc n) bars else bars

abbrev pub or_none : {A : Type 0} → Option (List A) → List A
or_none none = []
or_none (some rows) = rows

abbrev pub or_zero : Option ℤ → ℤ
or_zero none = pos 0
or_zero (some v) = v

module _ {D : Type 0} ⦃d : Decimal D⦄ where
  -- One element of the list of bars. The time is in milliseconds.
  unfoldable pub read_bar : String → RawBar D → Result (Bar D)
  read_bar symbol row = Results.◌>>=◌ (item_of row.t) λ t. Results.◌>>=◌ (item_of row.o) λ o.
      Results.◌>>=◌ (item_of row.h) λ h. Results.◌>>=◌ (item_of row.l) λ l.
        Results.◌>>=◌ (item_of row.c) λ c. bar (record {
          symbol = symbol;
          timestamp = utc (t * 1_000);
          open_price = o;
          high = h;
          low = l;
          close = c;
          volume = or_zero row.v;
        })

  unfoldable pub read_bars : String → List (RawBar D) → Result (List (Bar D))
  read_bars symbol [] = ok []
  read_bars symbol (row ∷ rows) =
      Results.◌>>=◌ (read_bar symbol row)
        λ b. Results.◌>>=◌ (read_bars symbol rows) λ bars. ok (b ∷ bars)

  unfoldable pub fetch_bars :
      Wire D → String → (n : ℕ) → (bar_size : String) → Action CpClient (List (Bar D))
  fetch_bars w symbol n bar_size = do
    conid ← get_conid w symbol
    rows ← historical_bars w conid (cp_period n bar_size) (cp_bar bar_size)
    bars ← lift (read_bars symbol (or_none rows))
    pure (last_n n bars)

  unfoldable pub read_quote : String → ℕ → List (RawQuote D) → Result (Quote D)
  read_quote symbol now [] = err value_error
  read_quote symbol now (snap ∷ snapshots) = elim snap.bid [
    | none ↦ err value_error
    | some bid ↦ elim snap.ask [
      | none ↦ err value_error
      | some ask ↦ quote (record {
        symbol = symbol;
        timestamp = utc now;
        bid = bid;
        ask = ask;
        bid_size = or_zero snap.bid_size;
        ask_size = or_zero snap.ask_size;
      })
    ]
  ]

  unfoldable pub fetch_quote : Wire D → String → (now : ℕ) → Action CpClient (Quote D)
  fetch_quote w symbol now = do
    conid ← get_conid w symbol
    snapshots ← market_snapshot w (conid ∷ [])
    lift (read_quote symbol now snapshots)
