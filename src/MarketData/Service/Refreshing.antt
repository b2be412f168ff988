-- ===== src/MarketData/Service/Refreshing.antt =====
-- What src/polara/market_data/service.py answers with, from the gateway through the table.
use mathlib.Core.Path.{subst}
use polara_quant.Base.{ℕ, ◌≡◌, refl, sym, String, true, List, [], ◌∷◌, All}
use polara_quant.Base.Dict.{lookup, insert, HasDistinctKeys, All-insert}
use polara_quant.Base.Effects.{Result, ok, err}
use polara_quant.Decimal.{Decimal}
use polara_quant.Schemas.{Bar, bar, bar_again, price_must_be_positive}
use polara_quant.CpClient.{CpClient, Wire}
use polara_quant.MarketData.Fetcher.{fetch_bars}
use polara_quant.MarketData.Fetcher.Answers.{IsFetched, FetchedBy, fetch_bars-FetchedBy}
use polara_quant.MarketData.Store.{Key, eq_of_keys, BarTable, bar_of, key_of, columns_of, upsert}
use polara_quant.MarketData.Store.Table.{last_or, lookup-upsert, upsert-HasDistinctKeys}
use polara_quant.MarketData.Store.Latest.{IsLatest, AreBars, query-IsLatest}
use polara_quant.MarketData.Service.{MarketDataService, get_bars, stored}

module _ {D : Type 0} ⦃d : Decimal D⦄ where
  -- A table with its primary key, of rows that are valid bars.
  pub record IsStore (rows : BarTable D) : Type 0 where
    pub keyed : HasDistinctKeys rows
    pub valid : AreBars rows

  -- No positive price becomes zero in the column of the database.
  abbrev pub KeepsPositive : (D → D) → Type 0
  KeepsPositive column =
      (x : D) → price_must_be_positive x ≡ true → price_must_be_positive (column x) ≡ true

  module _ (column : D → D) (positive : KeepsPositive column) (bar_size : String) where
    row-valid :
        (symbol : String) (b : Bar D)
        → IsFetched symbol b
        → bar (bar_of (key_of bar_size b, columns_of column b))
          ≡ ok (bar_of (key_of bar_size b, columns_of column b))
    unfolding columns_of
    row-valid symbol b f =
        bar_again b (bar_of (key_of bar_size b, columns_of column b)) f.valid refl
          (positive b.open_price) (positive b.high) (positive b.low) (positive b.close) refl

    upsert-AreBars :
        (symbol : String) (bars : List (Bar D)) (rows : BarTable D)
        → All (IsFetched symbol) bars
        → AreBars rows
        → AreBars (upsert column bars bar_size rows)
    unfolding upsert
    upsert-AreBars symbol [] rows f v = v
    upsert-AreBars symbol (b ∷ bars) rows (f, fs) v =
        upsert-AreBars symbol bars (insert (key_of bar_size b) (columns_of column b) rows) fs (
          All-insert (λ row. bar (bar_of row) ≡ ok (bar_of row)) (key_of bar_size b)
            (columns_of column b) rows
            (λ j e.
              subst
                (λ k. bar (bar_of (k, columns_of column b)) ≡ ok (bar_of (k, columns_of column b)))
                (sym e) (row-valid symbol b f))
            v)

    -- What is left of the answer of the fetcher in the table.
    abbrev pub Refreshed : Result (List (Bar D)) → (before after : BarTable D) → Type 0
    Refreshed (ok bars) before after =
        (k : Key) → lookup k after ≡ last_or (columns_of column) bar_size bars k (lookup k before)
    Refreshed (err e) before after = after ≡ before

    stored-IsStore :
        (symbol : String) (n : ℕ) (r : Result (List (Bar D)) × CpClient) (rows : BarTable D)
        → FetchedBy symbol n r
        → IsStore rows
        → IsStore (stored column bar_size r.0 rows)
          × Refreshed r.0 rows (stored column bar_size r.0 rows)
    stored-IsStore symbol n (ok bars, t) rows (fetched, few) s = (
      record {
        keyed = upsert-HasDistinctKeys column bar_size bars rows s.keyed;
        valid = upsert-AreBars symbol bars rows fetched s.valid;
      },
      lookup-upsert column bar_size bars rows,
    )
    stored-IsStore symbol n (err e, t) rows f s = (s, refl)

    -- The answer `bars` and the service after it, where the fetcher answered with `fetched`.
    pub record Serves (fetched : Result (List (Bar D))) (symbol : String) (n : ℕ)
        (before : BarTable D) (r : Result (List (Bar D)) × MarketDataService D) : Type 0 where
      pub bars : List (Bar D)
      pub answered : r.0 ≡ ok bars
      pub latest : IsLatest r.1.rows symbol n bar_size bars
      pub consistent : IsStore r.1.rows
      pub refreshed : Refreshed fetched before r.1.rows

    -- For columns in which no positive price becomes zero, and a table with its primary key whose rows are
    -- valid bars: `get_bars` raises nothing, whatever the gateway answers. It leaves such a table again:
    -- what the fetcher answered is merged into it, and nothing else is changed, in particular if
    -- the fetcher raised. Its answer is the latest `n` bars of the series in that table.
    pub get_bars-Serves :
        (w : Wire D) (symbol : String) (n : ℕ) (m : MarketDataService D)
        → IsStore m.rows
        → Serves
            (fetch_bars w symbol n bar_size m.client).0
            symbol
            n
            m.rows
            (get_bars column w symbol n bar_size m)
    unfolding get_bars
    get_bars-Serves w symbol n m s =
        let r = fetch_bars w symbol n bar_size m.client in
        let (after, refreshed) =
          stored-IsStore symbol n r m.rows (fetch_bars-FetchedBy w symbol n bar_size m.client) s in
        let (bars, answered, latest) =
          query-IsLatest symbol bar_size n (stored column bar_size r.0 m.rows) after.keyed
            after.valid in
        record {
          bars = bars;
          answered = answered;
          latest = latest;
          consistent = after;
          refreshed = refreshed;
        }
