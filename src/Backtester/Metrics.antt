-- ===== src/Backtester/Metrics.antt =====
-- The metrics of src/polara/backtester/engine.py on an equity curve. `root` is `math.sqrt` on the float
-- of a number, put back into a `Decimal`.
use polara_quant.Base.{ℕ, ◌-◌, String, List, [], ◌∷◌, map, ◌&&◌, ltb, length, keep, if◌then◌else◌}
use polara_quant.Base.Effects.{Result, ok, err, arithmetic, value_error}
use polara_quant.Base.Results.{◌>>=◌}
use polara_quant.Decimal.{Decimal, zero_d, of_nat, max_d, sum_from}
use polara_quant.Backtester.BarSizes.{periods_per_year}

module _ {D : Type 0} ⦃d : Decimal D⦄ where
  -- `_commission`: 0.005 for a share, and at least 1.00.
  unfoldable pub commission : ℕ → D
  commission shares = max_d (d.lit 100 2) (d.mul (d.lit 5 3) (of_nat shares))

  -- How far a value is below the peak, in percent.
  abbrev pub drawdown : D → D → D
  drawdown peak val = d.mul (d.div (d.sub peak val) peak) (d.lit 100 0)

  abbrev pub new_peak : D → D → D
  new_peak peak val = if d.lt peak val then val else peak

  abbrev pub new_drawdown : D → D → D → D
  new_drawdown peak max_dd val =
      if d.lt zero_d peak && d.lt max_dd (drawdown peak val) then drawdown peak val else max_dd

  -- The loop of `_compute_max_drawdown`.
  unfoldable pub drawdown_loop : D → D → List D → D
  drawdown_loop peak max_dd [] = max_dd
  drawdown_loop peak max_dd (val ∷ vals) =
      drawdown_loop (new_peak peak val) (new_drawdown (new_peak peak val) max_dd val) vals

  unfoldable pub compute_max_drawdown : List D → D
  unfolding drawdown_loop
  compute_max_drawdown [] = zero_d
  compute_max_drawdown (first ∷ []) = zero_d
  compute_max_drawdown (first ∷ vals) = drawdown_loop first zero_d vals

  -- A quotient of two numbers; `Decimal` raises where the divisor is zero.
  abbrev pub divide : D → D → Result D
  divide a b = if d.eq b zero_d then err arithmetic else ok (d.div a b)

  -- The relative changes between neighbours, where the earlier one is not zero.
  abbrev pub returns_after : D → List D → Result (List D)
  returns_after prev [] = ok []
  returns_after prev (val ∷ vals) = do
    rest ← returns_after val vals
    if d.eq prev zero_d then ok rest else (do r ← divide (d.sub val prev) prev; ok (r ∷ rest))

  unfoldable pub returns_of : List D → Result (List D)
  returns_of [] = ok []
  returns_of (first ∷ vals) = returns_after first vals

  -- `sum(values, Decimal("0")) / Decimal(len(values))`
  abbrev pub mean : List D → Result D
  mean values = divide (sum_from zero_d values) (of_nat (length values))

  abbrev pub square : D → D
  square x = d.mul x x

module _ {D : Type 0} ⦃d : Decimal D⦄ (root : D → D) where
  -- `Decimal(str(math.sqrt(float(x))))`, which refuses a negative number.
  abbrev pub sqrt : D → Result D
  sqrt x = if d.lt x zero_d then err value_error else ok (root x)

  -- `mean_r / deviation * ann_factor`
  abbrev pub annualised : String → D → D → Result D
  annualised bar_size mean_r deviation = do
    periods ← periods_per_year bar_size
    quotient ← divide mean_r deviation
    ok (d.mul quotient (root (of_nat periods)))

  -- The part of each ratio after the returns.
  abbrev pub sortino_of : String → List D → Result D
  sortino_of bar_size returns =
      let downside = keep (λ r. d.lt r zero_d) returns in
      if ltb (length returns) 2 then ok zero_d else (do
        mean_r ← mean returns
        if ltb (length downside) 1 then ok zero_d else (do
          variance ← mean (map square downside)
          if d.le variance zero_d
              then ok zero_d
              else (do deviation ← sqrt variance; annualised bar_size mean_r deviation)))

  unfoldable pub compute_sortino : List D → String → Result D
  unfolding returns_of
  compute_sortino equity bar_size =
      if ltb (length equity) 3
      then ok zero_d
      else (do returns ← returns_of equity; sortino_of bar_size returns)

  abbrev pub sharpe_of : String → List D → Result D
  sharpe_of bar_size returns = if ltb (length returns) 2 then ok zero_d else (do
    mean_r ← mean returns
    variance ←
        divide (sum_from zero_d (map (λ r. square (d.sub r mean_r)) returns))
          (of_nat (length returns - 1))
    if d.le variance zero_d then ok zero_d else (do
      deviation ← sqrt variance
      if d.eq deviation zero_d then ok zero_d else annualised bar_size mean_r deviation))

  unfoldable pub compute_sharpe : List D → String → Result D
  unfolding returns_of
  compute_sharpe equity bar_size =
      if ltb (length equity) 3
      then ok zero_d
      else (do returns ← returns_of equity; sharpe_of bar_size returns)
