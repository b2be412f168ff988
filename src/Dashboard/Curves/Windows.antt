-- ===== src/Dashboard/Curves/Windows.antt =====
-- The rolling ratio of src/polara/dashboard/dashboard_service.py, and the day that it fails on.
use polara_quant.Base.{
  ℕ, ◌+◌, ◌-◌, ◌<◌, ◌≡◌, refl, Bool, true, false, List, [], ◌∷◌, ◌⊎◌, inl, inr, arith, length, All,
  Any, Bool-cases,
}
use polara_quant.Base.Effects.{Result, ok, err, arithmetic}
use polara_quant.Decimal.{Decimal}
use polara_quant.Trades.{DaySummary, TradeTables}
use polara_quant.Dashboard.{Real}
use polara_quant.Dashboard.Curves.{
  SharpePoint, last_days, float_of, daily_returns, has_start_nav, sharpe_points, rolling_sharpe,
}

module _ {D F : Type 0} ⦃d : Decimal D⦄ (f : Real F) (real : D → F) where
  -- The value at the start of the day is the float zero, or it is not.
  abbrev pub StartsAtZero : ℕ × DaySummary D → Type 0
  StartsAtZero row = f.eq (float_of f real row.1.start_nav) (f.lit 0 0) ≡ true

  abbrev pub Divides : ℕ × DaySummary D → Type 0
  Divides row = f.eq (float_of f real row.1.start_nav) (f.lit 0 0) ≡ false

  abbrev Returned : List (ℕ × DaySummary D) → Result (List (ℕ × F)) → Type 0
  Returned rows r =
      (r ≡ err arithmetic) × Any StartsAtZero rows
      ⊎ ((returns : List (ℕ × F)) × (r ≡ ok returns)
          × All Divides rows
          × (length returns ≡ length rows))

  daily_returns-Returned :
      (rows : List (ℕ × DaySummary D)) → Returned rows (daily_returns f real rows)
  unfolding daily_returns
  daily_returns-Returned [] = inr ([], refl, tt, refl)
  daily_returns-Returned ((date, row) ∷ rows) =
      elim (Bool-cases (f.eq (float_of f real row.start_nav) (f.lit 0 0))) [
        | inl fails ↦ rw fails (inl (refl, inl refl))
        | inr divides ↦ elim (daily_returns-Returned rows) [
          | inl (e, found) ↦ rw (divides, e) (inl (refl, inr found))
          | inr (returns, e, all, len) ↦
              rw (divides, e) (inr (_, refl, (refl, all), omega (arith, len)))
        ]
      ]

  length-sharpe_points :
      (window : ℕ) (returns : List (ℕ × F))
      → 0 < window
      → length (sharpe_points f real window returns) ≡ length returns + 1 - window
  unfolding sharpe_points
  length-sharpe_points window [] h = omega arith
  length-sharpe_points window (r ∷ rs) h = ground (arith, length-sharpe_points window rs h)

  -- For windows of at least one day: `rolling_sharpe` fails with a division by zero where one of the days
  -- that the query has found starts with a value that is the float zero. Where none does, it answers
  -- with one point for each full window of consecutive days among them, so with none if they are
  -- fewer than a window.
  pub rolling_sharpe_outcome :
      (above_zero : D → Bool) (days window : ℕ) (tables : TradeTables D)
      → 0 < window
      → (rolling_sharpe f real above_zero days window tables ≡ err arithmetic)
          × Any StartsAtZero (last_days (has_start_nav f real above_zero) days tables)
        ⊎ ((points : List (SharpePoint F)) × (rolling_sharpe f real above_zero days window tables
              ≡ ok points)
            × All Divides (last_days (has_start_nav f real above_zero) days tables)
            × (length points
                ≡ length (last_days (has_start_nav f real above_zero) days tables) + 1 - window))
  unfolding rolling_sharpe
  rolling_sharpe_outcome above_zero days window tables h =
      elim (daily_returns-Returned (last_days (has_start_nav f real above_zero) days tables)) [
        | inl (e, found) ↦ rw e (inl (refl, found))
        | inr (returns, e, all, len) ↦
            rw e (inr (_, refl, all, omega (arith, len, length-sharpe_points window returns h)))
      ]
