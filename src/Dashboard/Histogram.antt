-- ===== src/Dashboard/Histogram.antt =====
-- `pnl_distribution` of src/polara/dashboard/dashboard_service.py: the histogram of the profits.
pub mod Counts
use Prim.Native.Nat.{min, max}
use polara_quant.Base.{
  ℕ, zero, suc, ◌+◌, ◌-◌, ◌/◌, ◌≤◌, ◌<◌, ◌≡◌, refl, ap, ◌∙◌, Bool, true, false, List, [], ◌∷◌,
  arith, map, length, keep, All, replicate, Bool-cases, inl, inr, ltb, leb, if◌then◌else◌,
  length-map, length-replicate,
}
use polara_quant.Base.Int.{ℤ, pos, negsuc}
use polara_quant.Base.Effects.{Result, ok, err, index_error, arithmetic}
use polara_quant.Base.Results.{◌>>=◌}
use polara_quant.Decimal.{Decimal}
use polara_quant.Trades.{TradeTables}
use polara_quant.Dashboard.{Real, is_closed, pnls}

pub record Distribution (F : Type 0) : Type 0 where
  pub bins : List F
  pub counts : List ℕ
  pub mean : F
  pub std : F

-- `counts[idx] += 1`, for an index from the front and for a negative one.
abbrev pub bump : ℕ → List ℕ → Result (List ℕ)
bump i [] = err index_error
bump zero (c ∷ counts) = ok ((c + 1) ∷ counts)
bump (suc i) (c ∷ counts) = do rest ← bump i counts; ok (c ∷ rest)

unfoldable pub bump_at : ℤ → List ℕ → Result (List ℕ)
bump_at (pos i) counts = bump (min i (length counts - 1)) counts
bump_at (negsuc i) counts =
    if ltb i (length counts) then bump (length counts - 1 - i) counts else err index_error

-- The numbers below `n`.
abbrev pub range_from : (start n : ℕ) → List ℕ
range_from start zero = []
range_from start (suc n) = start ∷ range_from (suc start) n

abbrev pub n_bins : ℕ → ℕ
n_bins n = min 20 (max 5 (n / 3))

module _ {F : Type 0} (f : Real F) where
  -- `min(values)` and `max(values)`, which keep the first of equal values.
  abbrev pub min_from : F → List F → F
  min_from best [] = best
  min_from best (x ∷ xs) = min_from (if f.lt x best then x else best) xs

  abbrev pub max_from : F → List F → F
  max_from best [] = best
  max_from best (x ∷ xs) = max_from (if f.lt best x then x else best) xs

  -- `int((v - min_v) / bin_size)`, which fails for a width of zero.
  abbrev pub index_of : (min_v bin_size : F) → F → Result ℤ
  index_of min_v bin_size v =
      if f.eq bin_size (f.lit 0 0)
      then err arithmetic
      else ok (f.trunc (f.div (f.sub v min_v) bin_size))

  -- The loop over the values.
  unfoldable pub count_values : (min_v bin_size : F) → List F → List ℕ → Result (List ℕ)
  unfolding bump_at
  count_values min_v bin_size [] counts = ok counts
  count_values min_v bin_size (v ∷ vs) counts = do
    i ← index_of min_v bin_size v
    counts' ← bump_at i counts
    count_values min_v bin_size vs counts'

  abbrev pub mean_of : List F → F
  mean_of values = f.div (f.total values) (f.lit (length values) 0)

  abbrev pub std_of : List F → F
  std_of values = f.root (
      if ltb 1 (length values)
      then f.div
          (f.total (map (λ v. f.mul (f.sub v (mean_of values)) (f.sub v (mean_of values))) values))
          (f.lit (length values) 0)
      else f.lit 0 0)

  abbrev pub center : (min_v bin_size : F) → ℕ → F
  center min_v bin_size i = f.round 2 (f.add min_v (f.mul (f.add (f.lit i 0) (f.lit 5 1)) bin_size))

  abbrev pub with_bins : (values bins : List F) (counts : List ℕ) → Distribution F
  with_bins values bins counts = record {
    bins = bins;
    counts = counts;
    mean = f.round 2 (mean_of values);
    std = f.round 2 (std_of values);
  }

  unfoldable pub histogram : F → List F → Result (Distribution F)
  histogram first rest =
      let values = first ∷ rest in
      let min_v = min_from first rest in
      let max_v = max_from first rest in
      let n = n_bins (length values) in
      let bin_size = f.div (f.sub max_v min_v) (f.lit n 0) in
      if f.eq max_v min_v
      then ok (with_bins values (f.round 2 min_v ∷ []) (length values ∷ []))
      else (do
        counts ← count_values min_v bin_size values (replicate n 0)
        ok (with_bins values (map (center min_v bin_size) (range_from 0 n)) counts))

  unfoldable pub distribution_of : List F → Result (Distribution F)
  unfolding histogram
  distribution_of [] = ok (record { bins = []; counts = []; mean = f.lit 0 0; std = f.lit 0 0 })
  distribution_of (first ∷ rest) = histogram first rest

-- The closed trades that have a profit.
unfoldable pub pnl_distribution :
    {D F : Type 0} ⦃d : Decimal D⦄ → Real F → (D → F) → TradeTables D → Result (Distribution F)
unfolding distribution_of
pnl_distribution f real tables = distribution_of f (pnls f real (keep is_closed tables.trades))
