-- ===== src/MarketData/Service/Fetched.antt =====
-- A bar that src/polara/market_data/service.py has fetched comes back from the table as it was.
use mathlib.Core.Path.{subst}
use polara_quant.Base.{
  ℕ, ◌≡◌, ◌≢◌, ◌<◌, refl, sym, ap, ◌∙◌, String, Option, some, List, [], ◌∷◌, ◌⊎◌, inl, inr, All,
  Any, Any-map, ◌==◌, Bool-cases, length,
}
use polara_quant.Base.Dict.{lookup}
use polara_quant.Base.Sorting.{AreApart}
use polara_quant.Base.Effects.{Result, ok, err}
use polara_quant.Decimal.{Decimal}
use polara_quant.Schemas.{Bar}
use polara_quant.CpClient.{CpClient, Wire}
use polara_quant.MarketData.Fetcher.{fetch_bars}
use polara_quant.MarketData.Fetcher.Answers.{IsFetched, FetchedBy, fetch_bars-FetchedBy}
use polara_quant.MarketData.Store.{Key, key_eq_iff, eq_of_keys, Columns, bar_of, key_of, columns_of}
use polara_quant.MarketData.Store.Table.{last_or}
use polara_quant.MarketData.Store.Latest.{time_of_bar, key}
use polara_quant.MarketData.Service.{MarketDataService, get_bars}
use polara_quant.MarketData.Service.Refreshing.{IsStore, KeepsPositive, Refreshed, get_bars-Serves}

module _ {D : Type 0} ⦃d : Decimal D⦄ (column : D → D) (bar_size : String) where
  last_or-absent :
      (b : Bar D) (bars : List (Bar D)) (before : Option (Columns D))
      → All (λ a. time_of_bar a ≢ time_of_bar b) bars
      → last_or (columns_of column) bar_size bars (key_of bar_size b) before ≡ before
  last_or-absent b [] before ne = refl
  last_or-absent b (a ∷ bars) before (n, ne) =
      elim (Bool-cases (key_of bar_size a == key_of bar_size b)) [
        | inl same ↦ absurd (n (ap (λ (k : Key). k.timestamp) ((key_eq_iff _ _).0 same)))
        | inr other ↦ rw other (last_or-absent b bars before ne)
      ]

  last_or-present :
      (b : Bar D) (bars : List (Bar D)) (before : Option (Columns D))
      → AreApart time_of_bar bars
      → Any (λ a. a ≡ b) bars
      → last_or (columns_of column) bar_size bars (key_of bar_size b) before
        ≡ some (columns_of column b)
  last_or-present b [] before apart h = absurd h
  last_or-present b (a ∷ bars) before (ne, apart) (inl e) =
      rw ((key_eq_iff (key_of bar_size a) (key_of bar_size b)).1 (ap (key_of bar_size) e)) (
        subst
          (λ c.
            last_or (columns_of column) bar_size bars (key_of bar_size c)
              (some (columns_of column a))
            ≡ some (columns_of column c))
          e (last_or-absent a bars (some (columns_of column a)) ne))
  last_or-present b (a ∷ bars) before (ne, apart) (inr r) = last_or-present b bars _ apart r

  -- The prices of a bar fit in the columns.
  pub record Fits (b : Bar D) : Type 0 where
    pub open_price : column b.open_price ≡ b.open_price
    pub high : column b.high ≡ b.high
    pub low : column b.low ≡ b.low
    pub close : column b.close ≡ b.close

  bar_of-Fits :
      (symbol : String) (b : Bar D)
      → IsFetched symbol b
      → Fits b
      → bar_of (key symbol (time_of_bar b) bar_size, columns_of column b) ≡ b
  unfolding columns_of
  bar_of-Fits symbol b f fits =
      cc (f.named, f.timed, fits.open_price, fits.high, fits.low, fits.close)

  IsFetched-bars :
      (symbol : String) (n : ℕ) (fetched : List (Bar D)) (r : Result (List (Bar D)) × CpClient)
      → FetchedBy symbol n r
      → r.0 ≡ ok fetched
      → All (IsFetched symbol) fetched
  IsFetched-bars symbol n fetched (ok bars, t) (f, few) e = subst all_of e f
    where
      all_of : Result (List (Bar D)) → Type 0
      all_of (ok bars') = All (IsFetched symbol) bars'
      all_of (err x) = Unit {0}
  IsFetched-bars symbol n fetched (err x, t) f e = cc

  IsFetched-bar :
      (symbol : String) (bars : List (Bar D)) (b : Bar D)
      → Any (λ a. a ≡ b) bars
      → All (IsFetched symbol) bars
      → IsFetched symbol b
  IsFetched-bar symbol (a ∷ bars) b (inl e) (f, fs) = subst (IsFetched symbol) e f
  IsFetched-bar symbol (a ∷ bars) b (inr r) (f, fs) = IsFetched-bar symbol bars b r fs
  IsFetched-bar symbol [] b h f = absurd h

  -- For columns in which no positive price becomes zero, a table with its primary key whose rows are
  -- valid bars, and bars that are fetched with different times: a fetched bar whose prices fit in the
  -- columns is one of the bars that `get_bars` answers with, in all its fields, unless the answer is `n`
  -- bars that are all later.
  pub get_bars-fetched :
      (positive : KeepsPositive column) (w : Wire D) (symbol : String) (n : ℕ)
      (m : MarketDataService D) (fetched : List (Bar D)) (b : Bar D)
      → IsStore m.rows
      → (fetch_bars w symbol n bar_size m.client).0 ≡ ok fetched
      → AreApart time_of_bar fetched
      → Any (λ a. a ≡ b) fetched
      → Fits b
      → (bars : List (Bar D)) × ((get_bars column w symbol n bar_size m).0 ≡ ok bars)
        × (Any (λ a. a ≡ b) bars
            ⊎ (length bars ≡ n) × All (λ a. time_of_bar b < time_of_bar a) bars)
  get_bars-fetched positive w symbol n m fetched b s e apart h fits =
      let v = get_bars-Serves column positive bar_size w symbol n m s in
      let rows = (get_bars column w symbol n bar_size m).1.rows in
      let refreshed =
        subst (λ r. Refreshed column positive bar_size r m.rows rows) e v.refreshed
          (key_of bar_size b) in
      let f =
        IsFetched-bar symbol fetched b h (
          IsFetched-bars symbol n fetched _ (fetch_bars-FetchedBy w symbol n bar_size m.client)
            e) in
      let at = ap (λ (x : String). key x (time_of_bar b) bar_size) f.named in
      let covered =
        v.latest.covered (time_of_bar b) (columns_of column b)
          (ap (λ k. lookup k rows) (sym at) ∙ (refreshed ∙ last_or-present b fetched _ apart h)) in
      (
        v.bars,
        v.answered,
        elim covered [
          | inl found ↦ inl (Any-map (λ a q. q ∙ bar_of-Fits symbol b f fits) _ found)
          | inr later ↦ inr later
        ],
      )
