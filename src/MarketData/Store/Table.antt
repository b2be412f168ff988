-- ===== src/MarketData/Store/Table.antt =====
-- The upsert of src/polara/market_data/store.py, against a map from keys to rows.
use polara_quant.Base.{◌≡◌, refl, ap, ◌∙◌, String, Option, some, List, [], ◌∷◌, ◌==◌, if◌then◌else◌}
use polara_quant.Base.Dict.{lookup, insert, lookup-insert, HasDistinctKeys, insert-HasDistinctKeys}
use polara_quant.Decimal.{Decimal}
use polara_quant.Schemas.{Bar}
use polara_quant.MarketData.Store.{Key, eq_of_keys, Columns, BarTable, key_of, columns_of, upsert}

-- The content of the last bar with a key, or what was there before.
abbrev pub last_or :
    {D : Type 0}
    → (Bar D → Columns D)
    → String
    → List (Bar D)
    → Key
    → Option (Columns D)
    → Option (Columns D)
last_or content bar_size [] k before = before
last_or content bar_size (b ∷ bars) k before =
    last_or content bar_size bars k (if key_of bar_size b == k then some (content b) else before)

module _ {D : Type 0} ⦃d : Decimal D⦄ (column : D → D) (bar_size : String) where
  -- The table after an upsert, read as a map: under each key it has the content of the last of the bars
  -- with that key, and where no bar has the key, what it had.
  pub lookup-upsert :
      (bars : List (Bar D)) (rows : BarTable D) (k : Key)
      → lookup k (upsert column bars bar_size rows)
        ≡ last_or (columns_of column) bar_size bars k (lookup k rows)
  unfolding upsert
  lookup-upsert [] rows k = refl
  lookup-upsert (b ∷ bars) rows k =
      lookup-upsert bars (insert (key_of bar_size b) (columns_of column b) rows) k
      ∙ ap (last_or (columns_of column) bar_size bars k)
          (lookup-insert (key_of bar_size b) k (columns_of column b) rows)

  -- The primary key.
  pub upsert-HasDistinctKeys :
      (bars : List (Bar D)) (rows : BarTable D)
      → HasDistinctKeys rows
      → HasDistinctKeys (upsert column bars bar_size rows)
  unfolding upsert
  upsert-HasDistinctKeys [] rows h = h
  upsert-HasDistinctKeys (b ∷ bars) rows h =
      upsert-HasDistinctKeys bars (insert (key_of bar_size b) (columns_of column b) rows)
        (insert-HasDistinctKeys (key_of bar_size b) (columns_of column b) rows h)
