-- ===== src/MarketData/Service.antt =====
-- `MarketDataService` of src/polara/market_data/service.py: the fetcher, with the store behind it.
pub mod Refreshing
pub mod Fetched
use polara_quant.Base.{ℕ, String, List}
use polara_quant.Base.Effects.{Result, ok, err, Action}
use polara_quant.Decimal.{Decimal}
use polara_quant.Schemas.{Bar, Quote}
use polara_quant.CpClient.{CpClient, Wire}
use polara_quant.MarketData.Fetcher.{fetch_bars, fetch_quote}
use polara_quant.MarketData.Store.{BarTable, upsert, query}

pub record MarketDataService (D : Type 0) : Type 0 where
  pub client : CpClient
  pub rows : BarTable D

module _ {D : Type 0} ⦃d : Decimal D⦄ where
  -- What is stored of the answer of the fetcher; an exception is logged.
  abbrev pub stored : (column : D → D) → String → Result (List (Bar D)) → BarTable D → BarTable D
  stored column bar_size (ok bars) rows = upsert column bars bar_size rows
  stored column bar_size (err e) rows = rows

  unfoldable pub get_bars :
      (column : D → D)
      → Wire D
      → String
      → (n : ℕ) → (bar_size : String) → Action (MarketDataService D) (List (Bar D))
  get_bars column w symbol n bar_size m =
      let (fetched, client) = fetch_bars w symbol n bar_size m.client in
      let rows = stored column bar_size fetched m.rows in
      (query symbol n bar_size rows, record { client = client; rows = rows })

  unfoldable pub get_latest_quote :
      Wire D → String → (now : ℕ) → Action (MarketDataService D) (Quote D)
  get_latest_quote w symbol now m =
      let (answer, client) = fetch_quote w symbol now m.client in
      (answer, record m { client = client })
