-- ===== src/MarketData/Store.antt =====
-- `BarStore` of src/polara/market_data/store.py: the table of bars under the key of symbol, time and bar
-- size. The time is stored as the ISO text of a time in UTC, which has the order of the instants.
pub mod Table
pub mod Latest
use text.Mathlib.TextEquality.{eq_iff}
use polara_quant.Base.{
  Eq, nat_beq_iff, ◌≡◌, ◌↔◌, true, arith, ℕ, String, Bool, Option, none, some, List, [], ◌∷◌, ◌&&◌,
  ◌==◌, string_eq, nat_eq, keep, take, reverse_onto, if◌then◌else◌,
}
use polara_quant.Base.Sorting.{order_desc}
use polara_quant.Base.Int.{ℤ}
use polara_quant.Base.Dict.{Dict, insert}
use polara_quant.Base.Effects.{Result, ok}
use polara_quant.Base.Results.{◌>>=◌}
use polara_quant.Decimal.{Decimal}
use polara_quant.Schemas.{Bar, bar, utc}

-- The primary key of the table.
pub record Key : Type 0 where
  pub symbol : String
  pub timestamp : ℕ
  pub bar_size : String

abbrev pub key_eq : Key → Key → Bool
key_eq j k = j.symbol == k.symbol && (j.timestamp == k.timestamp && j.bar_size == k.bar_size)

-- A row, without its key.
pub record Columns (D : Type 0) : Type 0 where
  pub open_price : D
  pub high : D
  pub low : D
  pub close : D
  pub volume : ℤ

pub key_eq_iff : (j k : Key) → (key_eq j k ≡ true) ↔ (j ≡ k)
key_eq_iff j k = ground (
  arith,
  eq_iff j.symbol k.symbol,
  nat_beq_iff j.timestamp k.timestamp,
  eq_iff j.bar_size k.bar_size,
)

instance abbrev pub eq_of_keys : Eq Key
eq_of_keys = record { beq = key_eq; beq_iff = key_eq_iff }

-- The bars table, under its primary key: INSERT ... ON CONFLICT DO UPDATE is `insert`.
abbrev pub BarTable : Type 0 → Type 0
BarTable D = Dict Key (Columns D)

abbrev pub key_of : {D : Type 0} → String → Bar D → Key
key_of bar_size b = record {
  symbol = b.symbol;
  timestamp = b.timestamp.instant;
  bar_size = bar_size;
}

-- `WHERE symbol = ? AND bar_size = ?`
abbrev pub is_series : {D : Type 0} → String → String → Key × Columns D → Bool
is_series symbol bar_size (k, c) = k.symbol == symbol && k.bar_size == bar_size

abbrev pub time_of : {D : Type 0} → Key × Columns D → ℕ
time_of (k, c) = k.timestamp

-- `_QUERY_BARS`
unfoldable pub select : {D : Type 0} → String → (n : ℕ) → String → BarTable D → BarTable D
select symbol n bar_size rows = take n (order_desc time_of (keep (is_series symbol bar_size) rows))

module _ {D : Type 0} ⦃d : Decimal D⦄ where
  -- `column` is the database's conversion of a text to a DECIMAL(20, 10), for numbers that it can hold.
  unfoldable pub columns_of : (column : D → D) → Bar D → Columns D
  columns_of column b = record {
    open_price = column b.open_price;
    high = column b.high;
    low = column b.low;
    close = column b.close;
    volume = b.volume;
  }

  unfoldable pub upsert : (column : D → D) → List (Bar D) → String → BarTable D → BarTable D
  unfolding columns_of
  upsert column [] bar_size rows = rows
  upsert column (b ∷ bars) bar_size rows =
      upsert column bars bar_size (insert (key_of bar_size b) (columns_of column b) rows)

  abbrev pub bar_of : Key × Columns D → Bar D
  bar_of (k, c) = record {
    symbol = k.symbol;
    timestamp = utc k.timestamp;
    open_price = c.open_price;
    high = c.high;
    low = c.low;
    close = c.close;
    volume = c.volume;
  }

  -- `Bar(...)` for each row; the constructor validates.
  unfoldable pub read_rows : BarTable D → Result (List (Bar D))
  read_rows [] = ok []
  read_rows (row ∷ rows) = do b ← bar (bar_of row); bars ← read_rows rows; ok (b ∷ bars)

  unfoldable pub query : String → (n : ℕ) → String → BarTable D → Result (List (Bar D))
  query symbol n bar_size rows = do
    bars ← read_rows (select symbol n bar_size rows)
    ok (reverse_onto [] bars)
