-- ===== src/Dashboard/Curves/Days.antt =====
-- The equity curve of src/polara/dashboard/dashboard_service.py against the table of daily summaries.
use Prim.Native.Nat.{min}
use polara_quant.Base.{
  ℕ, ◌≡◌, ◌≢◌, Bool, false, some, List, [], ◌∷◌, ◌⊎◌, inl, inr, arith, length, keep, All, All-map,
  All-keep, Any, Bool-cases, length-reverse_onto, nat_eq,
}
use polara_quant.Base.Dict.{lookup, HasDistinctKeys}
use polara_quant.Base.Pages.{page, page-IsPage}
use polara_quant.Base.Sorting.{
  AreApart, IsRising, order_desc-IsFalling, take-IsFalling, reverse_onto-IsRising,
}
use polara_quant.Decimal.{Decimal}
use polara_quant.Trades.{DaySummary, TradeTables}
use polara_quant.Dashboard.{Real}
use polara_quant.Dashboard.Curves.{EquityPoint, date_of_row, has_end_nav, last_days, drawdown_pct}

module _ {D : Type 0} where
  keep-AreApart :
      (p : ℕ × DaySummary D → Bool) (rows : List (ℕ × DaySummary D))
      → HasDistinctKeys rows
      → AreApart date_of_row (keep p rows)
  keep-AreApart p [] h = tt
  keep-AreApart p (row ∷ rows) (ne, h) = elim (Bool-cases (p row)) [
    | inl yields ↦
        rw yields
          (All-map (λ x t. t.0) _ (All-keep (λ x. x.0 ≢ row.0) p rows ne), keep-AreApart p rows h)
    | inr drops ↦ rw drops (keep-AreApart p rows h)
  ]

  pub last_days-IsRising :
      (p : ℕ × DaySummary D → Bool) (limit : ℕ) (tables : TradeTables D)
      → HasDistinctKeys tables.daily_summary
      → IsRising date_of_row (last_days p limit tables)
  unfolding last_days
  last_days-IsRising p limit tables h =
      reverse_onto-IsRising date_of_row [] _ tt
        (take-IsFalling date_of_row limit _
          (order_desc-IsFalling date_of_row _ (keep-AreApart p tables.daily_summary h)))
        tt

  pub length-last_days :
      (p : ℕ × DaySummary D → Bool) (limit : ℕ) (tables : TradeTables D)
      → length (last_days p limit tables) ≡ min limit (length (keep p tables.daily_summary))
  unfolding last_days
  length-last_days p limit tables = omega (
    arith,
    length-reverse_onto [] (page date_of_row p limit tables.daily_summary),
    (page-IsPage date_of_row p limit tables.daily_summary).filled,
  )

module _ {F : Type 0} (f : Real F) where
  -- The highest of the values, from zero on.
  abbrev pub IsHighest : List F → F → Type 0
  IsHighest seen peak =
      All (λ nav. f.lt peak nav ≡ false) seen × ((peak ≡ f.lit 0 0) ⊎ Any (λ nav. nav ≡ peak) seen)

module _ {D F : Type 0} ⦃d : Decimal D⦄ (f : Real F) (real : D → F) where
  -- Each drawdown is the fall from the highest value up to its day.
  abbrev pub AreFalls : (seen : List F) → List (EquityPoint F) → Type 0
  AreFalls seen [] = Unit {0}
  AreFalls seen (point ∷ points) =
      ((peak : F) × IsHighest f (point.nav ∷ seen) peak
        × (point.drawdown_pct ≡ drawdown_pct f real peak point.nav))
      × AreFalls (point.nav ∷ seen) points

  -- A point of the curve shows a day of the table.
  abbrev pub IsDay : TradeTables D → EquityPoint F → Type 0
  IsDay tables point =
      (row : DaySummary D) × (lookup point.date tables.daily_summary ≡ some row)
      × ((x : D) × (row.end_nav ≡ some x) × (point.nav ≡ real x))
      × (point.net_pnl ≡ real row.net_pnl)

  pub record IsCurve (days : ℕ) (tables : TradeTables D) (points : List (EquityPoint F))
      : Type 0 where
    pub rising : IsRising (λ point. point.date) points
    pub filled : length points ≡ min days (length (keep has_end_nav tables.daily_summary))
    pub drawn : All (IsDay tables) points
    pub falls : AreFalls [] points
