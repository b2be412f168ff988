-- ===== src/MarketData/Store/Latest.antt =====
-- What the query of src/polara/market_data/store.py answers.
use text.Mathlib.TextEquality.{eq_iff}
use polara_quant.Base.{
  sym, Bool-cases, ℕ, ◌≡◌, ◌≢◌, ◌≤◌, ◌<◌, refl, String, true, some, List, [], ◌∷◌, ◌⊎◌, inl, inr,
  arith, map, All, Any, All-map, All-take, All-keep, Any-keep, Any-map, Any-reverse_onto,
  All-reverse_onto, keep, length, length-take-le, reverse_onto, All-of_map, Any-of_map, length-map,
  length-reverse_onto, ap, ◌∙◌, nat_eq, string_eq,
}
use polara_quant.Base.Dict.{lookup, HasDistinctKeys, Any-of_lookup, lookup_of_entries}
use polara_quant.Base.Sorting.{
  AreApart, IsFalling, IsRising, All-order_desc, Any-order_desc, order_desc-IsFalling,
  take-IsFalling, take-covers, reverse_onto-IsRising,
}
use polara_quant.Base.Effects.{ok}
use polara_quant.Decimal.{Decimal}
use polara_quant.Schemas.{Bar, bar}
use polara_quant.MarketData.Store.{
  Key, eq_of_keys, Columns, BarTable, bar_of, read_rows, query, select, is_series, time_of,
}

abbrev pub key : String → ℕ → String → Key
key symbol timestamp bar_size = record {
  symbol = symbol;
  timestamp = timestamp;
  bar_size = bar_size;
}

abbrev pub time_of_bar : {D : Type 0} → Bar D → ℕ
time_of_bar b = b.timestamp.instant

module _ {D : Type 0} ⦃d : Decimal D⦄ where
  -- The bars of a series in a table, at most `n`: in the order of time, each one stored, and each stored
  -- one among them unless they are `n` that are all later.
  pub record IsLatest (rows : BarTable D) (symbol : String) (n : ℕ) (bar_size : String)
      (bars : List (Bar D)) : Type 0 where
    pub rising : IsRising time_of_bar bars
    pub stored :
        All
          (λ b.
            (c : Columns D) × (lookup (key symbol (time_of_bar b) bar_size) rows ≡ some c)
            × (b ≡ bar_of (key symbol (time_of_bar b) bar_size, c)))
          bars
    pub bounded : length bars ≤ n
    pub covered :
        (t : ℕ) (c : Columns D)
        → lookup (key symbol t bar_size) rows ≡ some c
        → Any (λ b. b ≡ bar_of (key symbol t bar_size, c)) bars
          ⊎ (length bars ≡ n) × All (λ b. t < time_of_bar b) bars

  -- Each row passes the validators of a bar.
  abbrev pub AreBars : BarTable D → Type 0
  AreBars rows = All (λ row. bar (bar_of row) ≡ ok (bar_of row)) rows

  read_rows_lem : (rows : BarTable D) → AreBars rows → read_rows rows ≡ ok (map bar_of rows)
  unfolding read_rows
  read_rows_lem [] h = refl
  read_rows_lem (row ∷ rows) (v, vs) = rw (v, read_rows_lem rows vs)

  module _ (symbol bar_size : String) where
    in_series :
        (t : ℕ) (c : Columns D) → is_series symbol bar_size (key symbol t bar_size, c) ≡ true
    in_series t c = ground (arith, eq_iff symbol symbol, eq_iff bar_size bar_size)

    series_key :
        (k : Key) (c : Columns D)
        → is_series symbol bar_size (k, c) ≡ true
        → k ≡ key symbol k.timestamp bar_size
    series_key k c h = ground (arith, eq_iff k.symbol symbol, eq_iff k.bar_size bar_size)

    apart_times :
        (j k : Key) (b c : Columns D)
        → is_series symbol bar_size (j, b) ≡ true
        → is_series symbol bar_size (k, c) ≡ true
        → k ≢ j
        → k.timestamp ≢ j.timestamp
    apart_times j k b c p q ne e =
        ne (series_key k c q ∙ (ap (λ t. key symbol t bar_size) e ∙ sym (series_key j b p)))

    keep-apart :
        (j : Key) (b : Columns D) (rows : BarTable D)
        → is_series symbol bar_size (j, b) ≡ true
        → All (λ row. row.0 ≢ j) rows
        → All (λ row. time_of row ≢ j.timestamp) (keep (is_series symbol bar_size) rows)
    keep-apart j b rows p ne =
        All-map (λ (k, c) h. apart_times j k b c p h.1 h.0) _
          (All-keep (λ row. row.0 ≢ j) (is_series symbol bar_size) rows ne)

    series-AreApart :
        (rows : BarTable D)
        → HasDistinctKeys rows
        → AreApart time_of (keep (is_series symbol bar_size) rows)
    series-AreApart [] h = tt
    series-AreApart ((k, c) ∷ rows) (ne, h) = elim (Bool-cases (is_series symbol bar_size (k, c))) [
      | inl yields ↦ rw yields (keep-apart k c rows yields ne, series-AreApart rows h)
      | inr drops ↦ rw drops (series-AreApart rows h)
    ]

    module _ (n : ℕ) (rows : BarTable D) (distinct : HasDistinctKeys rows) where
      select-IsFalling : IsFalling time_of (select symbol n bar_size rows)
      unfolding select
      select-IsFalling =
          take-IsFalling time_of n _
            (order_desc-IsFalling time_of _ (series-AreApart rows distinct))

      select-All :
          (P : Key × Columns D → Type 0)
          → All P rows
          → All
              (λ row. P row × (is_series symbol bar_size row ≡ true))
              (select symbol n bar_size rows)
      unfolding select
      select-All P a =
          All-take _ n _
            (All-order_desc time_of _ _ (All-keep P (is_series symbol bar_size) rows a))

      Covers : ℕ → Columns D → List (Key × Columns D) → Type 0
      Covers t c found =
          Any (λ row. row ≡ (key symbol t bar_size, c)) found
          ⊎ (length found ≡ n) × All (λ row. t < time_of row) found

      select-Covers :
          (t : ℕ) (c : Columns D)
          → lookup (key symbol t bar_size) rows ≡ some c
          → Covers t c (select symbol n bar_size rows)
      unfolding select Covers
      select-Covers t c h =
          elim (take-covers time_of (λ row. row ≡ (key symbol t bar_size, c)) n _
            (order_desc-IsFalling time_of _ (series-AreApart rows distinct))
            (Any-order_desc time_of _ _ (
              Any-keep (λ row. row ≡ (key symbol t bar_size, c)) (is_series symbol bar_size) rows
                (λ row e. ap (is_series symbol bar_size) e ∙ in_series t c)
                (Any-of_lookup (key symbol t bar_size) c rows h)))) [
                  | inl found ↦ inl found
                  | inr (len, (row, e, later)) ↦
                      let at : time_of row ≡ t = ap time_of e in
                      inr (len, All-map (λ x l. omega arith) _ later)
                ]

      latest : List (Bar D)
      latest = reverse_onto [] (map bar_of (select symbol n bar_size rows))

      length-latest : length latest ≡ length (select symbol n bar_size rows)
      unfolding latest
      length-latest = omega (
        arith,
        length-reverse_onto [] (map bar_of (select symbol n bar_size rows)),
        length-map bar_of (select symbol n bar_size rows),
      )

      length-select-le : length (select symbol n bar_size rows) ≤ n
      unfolding select
      length-select-le = length-take-le n _

      stored_row :
          (row : Key × Columns D)
          → (lookup row.0 rows ≡ some row.1) × (is_series symbol bar_size row ≡ true)
          → (c : Columns D) × (lookup (key symbol (time_of row) bar_size) rows ≡ some c)
            × (bar_of row ≡ bar_of (key symbol (time_of row) bar_size, c))
      stored_row (k, c) (found, series) =
          let e : k ≡ key symbol k.timestamp bar_size = series_key k c series in
          (c, ap (λ j. lookup j rows) (sym e) ∙ found, ap (λ j. bar_of (j, c)) e)

      latest-IsLatest : IsLatest rows symbol n bar_size latest
      unfolding latest Covers
      latest-IsLatest = record {
        rising =
            reverse_onto-IsRising time_of_bar [] _ tt
              (falling (select symbol n bar_size rows) select-IsFalling) tt;
        stored = All-reverse_onto _ [] _ tt (
            All-of_map bar_of _ _
              (All-map stored_row _ (select-All _ (lookup_of_entries rows distinct))));
        bounded = omega (arith, length-latest, length-select-le);
        covered = λ t c h. elim (select-Covers t c h) [
          | inl found ↦ inl (
              Any-reverse_onto _ [] _
                (inr (Any-of_map bar_of _ _ (Any-map (λ row e. ap bar_of e) _ found))))
          | inr (len, later) ↦
              inr (length-latest ∙ len, All-reverse_onto _ [] _ tt (All-of_map bar_of _ _ later))
        ];
      }
        where
          falling :
              (sel : List (Key × Columns D))
              → IsFalling time_of sel
              → IsFalling time_of_bar (map bar_of sel)
          falling [] h = tt
          falling (row ∷ sel) (below, h) = (All-of_map bar_of _ sel below, falling sel h)

      -- The query of a table of valid bars succeeds, and answers with the latest `n` of the series in the
      -- order of time: each one as it is stored, and each stored one among them unless they are `n`
      -- that are all later.
      pub query-IsLatest :
          AreBars rows
          → (bars : List (Bar D)) × (query symbol n bar_size rows ≡ ok bars)
            × IsLatest rows symbol n bar_size bars
      unfolding query latest
      query-IsLatest valid = (
        latest,
        rw (
            read_rows_lem (select symbol n bar_size rows)
              (All-map (λ row h. h.0) _ (select-All _ valid))),
        latest-IsLatest,
      )
