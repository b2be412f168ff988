-- ===== src/Dashboard/Histogram/Counts.antt =====
-- The counts of the histogram of src/polara/dashboard/dashboard_service.py.
use Prim.Native.Nat.{min}
use mathlib.Core.Path.{subst}
use polara_quant.Base.{
  ℕ, zero, suc, ◌+◌, ◌-◌, ◌≤◌, ◌<◌, ◌≡◌, refl, sym, ap, ◌∙◌, true, false, List, [], ◌∷◌, ◌⊎◌, arith,
  map, length, keep, All, replicate, Bool-cases, inl, inr, if◌then◌else◌, length-map,
  length-replicate, All-map,
}
use polara_quant.Base.Int.{pos}
use polara_quant.Base.Effects.{Result, ok}
use polara_quant.Decimal.{Decimal}
use polara_quant.Trades.{TradeTables}
use polara_quant.Dashboard.{Real, is_closed, pnls}
use polara_quant.Dashboard.Histogram.{
  Distribution, bump, range_from, min_from, max_from, index_of, count_values, n_bins, center,
  with_bins, histogram, distribution_of, pnl_distribution,
}

-- What the histogram relies on of finite floats of ordinary size: `<` is a weak order, and for two
-- different values the width of a bin is not zero, and the quotient of a distance that is not negative
-- by it is not negative.
pub record IsReal {F : Type 0} (f : Real F) : Type 0 where
  pub lt_asymm : (a b : F) → f.lt a b ≡ true → f.lt b a ≡ false
  pub lt_cases : (a b c : F) → f.lt a c ≡ true → (f.lt a b ≡ true) ⊎ (f.lt b c ≡ true)
  pub index_nonneg :
      (v low high : F) (n : ℕ)
      → f.lt v low ≡ false
      → 0 < n
      → f.lt high low ≡ false
      → f.eq high low ≡ false
      → (f.eq (f.div (f.sub high low) (f.lit n 0)) (f.lit 0 0) ≡ false)
        × (i : ℕ) × (f.trunc (f.div (f.sub v low) (f.div (f.sub high low) (f.lit n 0))) ≡ pos i)

abbrev pub sum : List ℕ → ℕ
sum [] = 0
sum (c ∷ counts) = c + sum counts

-- The counts after one more value.
record Bumped (counts : List ℕ) (r : Result (List ℕ)) (more : ℕ) : Type 0 where
  after : List ℕ
  counted : r ≡ ok after
  same_length : length after ≡ length counts
  summed : sum after ≡ sum counts + more

bump-Bumped : (i : ℕ) (counts : List ℕ) → i < length counts → Bumped counts (bump i counts) 1
bump-Bumped i [] h = absurd (omega arith)
bump-Bumped zero (c ∷ counts) h = record {
  after = (c + 1) ∷ counts;
  counted = refl;
  same_length = refl;
  summed = omega arith;
}
bump-Bumped (suc i) (c ∷ counts) h =
    let b = bump-Bumped i counts (omega arith) in
    record {
      after = c ∷ b.after;
      counted = rw b.counted;
      same_length = ap suc b.same_length;
      summed = omega (arith, b.summed);
    }

sum-replicate : (n : ℕ) → sum (replicate n 0) ≡ 0
sum-replicate zero = refl
sum-replicate (suc n) = omega (arith, sum-replicate n)

length-range_from : (start n : ℕ) → length (range_from start n) ≡ n
length-range_from start zero = refl
length-range_from start (suc n) = ap suc (length-range_from (suc start) n)

-- The distribution of a list of values.
pub record Counts {F : Type 0} (values : List F) (r : Result (Distribution F)) : Type 0 where
  pub shown : Distribution F
  pub answered : r ≡ ok shown
  pub paired : length shown.bins ≡ length shown.counts
  pub summed : sum shown.counts ≡ length values
  pub few : length shown.bins ≤ 20

module _ {F : Type 0} (f : Real F) (laws : IsReal f) where
  not_lt_self : (a : F) → f.lt a a ≡ false
  not_lt_self a = ground (arith, laws.lt_asymm a a)

  not_lt_trans : (a b c : F) → f.lt a b ≡ false → f.lt b c ≡ false → f.lt a c ≡ false
  not_lt_trans a b c p q = ground (arith, laws.lt_cases a b c)

  min_from_bound :
      (best : F) (xs : List F) → All (λ x. f.lt x (min_from f best xs) ≡ false) (best ∷ xs)
  min_from_bound best [] = (not_lt_self best, tt)
  min_from_bound best (x ∷ xs) = elim (Bool-cases (f.lt x best)) [
    | inl less ↦
        let (h, hs) = min_from_bound x xs in
        onto (rw less refl) (not_lt_trans best x _ (laws.lt_asymm x best less) h, (h, hs))
    | inr no_less ↦
        let (h, hs) = min_from_bound best xs in
        onto (rw no_less refl) (h, (not_lt_trans x best _ no_less h, hs))
  ]
    where
      onto :
          {c : F}
          → (if f.lt x best then x else best) ≡ c
          → All (λ y. f.lt y (min_from f c xs) ≡ false) (best ∷ x ∷ xs)
          → All (λ y. f.lt y (min_from f best (x ∷ xs)) ≡ false) (best ∷ x ∷ xs)
      onto e a = subst (λ c. All (λ y. f.lt y (min_from f c xs) ≡ false) (best ∷ x ∷ xs)) (sym e) a

  max_from_bound :
      (low best : F) (xs : List F) → f.lt best low ≡ false → f.lt (max_from f best xs) low ≡ false
  max_from_bound low best [] h = h
  max_from_bound low best (x ∷ xs) h = elim (Bool-cases (f.lt best x)) [
    | inl more ↦
        rw more (max_from_bound low x xs (not_lt_trans x best low (laws.lt_asymm best x more) h))
    | inr no_more ↦ rw no_more (max_from_bound low best xs h)
  ]

  count_values-Bumped :
      (low bin_size : F) (vs : List F) (counts : List ℕ)
      → 0 < length counts
      → All (λ v. (i : ℕ) × (index_of f low bin_size v ≡ ok (pos i))) vs
      → Bumped counts (count_values f low bin_size vs counts) (length vs)
  unfolding count_values
  count_values-Bumped low bin_size [] counts h a = record {
    after = counts;
    counted = refl;
    same_length = refl;
    summed = omega arith;
  }
  count_values-Bumped low bin_size (v ∷ vs) counts h ((i, e), a) =
      let b = bump-Bumped (min i (length counts - 1)) counts (omega arith) in
      let c = count_values-Bumped low bin_size vs b.after (omega (arith, b.same_length)) a in
      record {
        after = c.after;
        counted = rw (e, b.counted) c.counted;
        same_length = c.same_length ∙ b.same_length;
        summed = omega (arith, c.summed, b.summed);
      }

  spread-Bumped :
      (first : F) (rest : List F)
      → let low = min_from f first rest in
        let high = max_from f first rest in
        let n = n_bins (length (first ∷ rest)) in
        f.eq high low ≡ false
        → Bumped
            (replicate n 0)
            (count_values f low (f.div (f.sub high low) (f.lit n 0)) (first ∷ rest) (replicate n 0))
            (length (first ∷ rest))
  spread-Bumped first rest spreads =
      let low = min_from f first rest in
      let high = max_from f first rest in
      let n = n_bins (length (first ∷ rest)) in
      let bounds = min_from_bound first rest in
      count_values-Bumped low (f.div (f.sub high low) (f.lit n 0)) (first ∷ rest) (replicate n 0)
        (omega (arith, length-replicate {A = ℕ} n 0))
        (All-map
          (λ v h.
            let (wide, i, e) =
              laws.index_nonneg v low high n h (omega arith)
                (max_from_bound low first rest bounds.0) spreads in
            (i, rw (wide, e) refl))
          (first ∷ rest) bounds)

  histogram-Counts : (first : F) (rest : List F) → Counts (first ∷ rest) (histogram f first rest)
  unfolding histogram
  histogram-Counts first rest =
      let low = min_from f first rest in
      let high = max_from f first rest in
      let n = n_bins (length (first ∷ rest)) in
      elim (Bool-cases (f.eq high low)) [
        | inl flat ↦ rw flat (record {
          shown = with_bins f (first ∷ rest) (f.round 2 low ∷ []) (length (first ∷ rest) ∷ []);
          answered = refl;
          paired = refl;
          summed = omega arith;
          few = omega arith;
        })
        | inr spreads ↦
            let b = spread-Bumped first rest spreads in
            rw (spreads, b.counted)
              (record {
                shown =
                    with_bins f (first ∷ rest)
                      (map (center f low (f.div (f.sub high low) (f.lit n 0))) (range_from 0 n))
                      b.after;
                answered = refl;
                paired =
                    omega
                      (arith, same n (center f low _), b.same_length, length-replicate {A = ℕ} n 0);
                summed = omega (arith, b.summed, sum-replicate n);
                few = omega (arith, same n (center f low _));
              })
      ]
    where
      same : (n : ℕ) (g : ℕ → F) → length (map g (range_from 0 n)) ≡ n
      same n g = length-map g (range_from 0 n) ∙ length-range_from 0 n

  -- For floats whose `<` is a weak order, and where for two different values the width of a bin is not
  -- zero and a distance that is not negative is not negative in such widths: `pnl_distribution` answers,
  -- with no division by zero, each closed trade that has a profit is counted in exactly one bin, there is a count for each bin, and there are at most 20 bins.
  pub pnl_distribution-Counts :
      {D : Type 0} ⦃d : Decimal D⦄ (real : D → F) (tables : TradeTables D)
      → Counts (pnls f real (keep is_closed tables.trades)) (pnl_distribution f real tables)
  unfolding pnl_distribution
  pnl_distribution-Counts real tables = of_values (pnls f real (keep is_closed tables.trades))
    where
      of_values : (values : List F) → Counts values (distribution_of f values)
      of_values [] = record {
        shown = record { bins = []; counts = []; mean = f.lit 0 0; std = f.lit 0 0 };
        answered = refl;
        paired = refl;
        summed = refl;
        few = omega arith;
      }
      of_values (first ∷ rest) = histogram-Counts first rest
