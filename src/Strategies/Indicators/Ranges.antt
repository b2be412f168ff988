-- ===== src/Strategies/Indicators/Ranges.antt =====
-- What the indicators of src/polara/research_engine/strategies range over.
use polara_quant.Base.{
  ℕ, zero, suc, ◌+◌, ◌-◌, ◌<◌, ◌≡◌, refl, true, List, [], ◌∷◌, map, arith, ltb, length, take, drop,
  replicate, length-append, length-drop, length-replicate, All, Bool-cases, inl, inr, if◌then◌else◌,
}
use polara_quant.Decimal.{
  Decimal, zero_d, of_nat, abs, max_d, sum_from, IsDecimal, ◌≼◌, abs_nonneg, le_of_lt, le_of_not_lt,
}
use polara_quant.Schemas.{Bar}
use polara_quant.Strategies.Indicators.{
  average, true_range, true_ranges, ranges_of, wilder, smooth, compute_atr, ema_after, compute_ema,
  gain, loss, smoothed, rsi_of, compute_rsi, deltas_of, closes_of,
}

module _ {D : Type 0} ⦃d : Decimal D⦄ where
  length-ema_after : (k prev : D) (vs : List D) → length (ema_after k prev vs) ≡ length vs
  length-ema_after k prev [] = refl
  length-ema_after k prev (v ∷ vs) =
      omega (arith, length-ema_after k (d.add prev (d.mul k (d.sub v prev))) vs)

  -- The series has the length of the values, or is empty if there are fewer than the period.
  pub length-compute_ema :
      (values : List D) (period : ℕ)
      → length (compute_ema values period)
        ≡ (if ltb (length values) period then 0 else length values)
  unfolding compute_ema
  length-compute_ema values period =
      let seed : D = average (take period values) period in
      let k : D = d.div (of_nat 2) (of_nat (period + 1)) in
      let tail : List D = ema_after k seed (drop period values) in
      ground (
        arith,
        length-append (replicate period seed) tail,
        length-replicate period seed,
        length-ema_after k seed (drop period values),
        length-drop period values,
      )

  abbrev pub AreNonneg : List D → Type 0
  AreNonneg = All (λ x. zero_d ≼ x)

  module _ (laws : IsDecimal D) where
    sum_from_nonneg :
        (start : D) (xs : List D) → zero_d ≼ start → AreNonneg xs → zero_d ≼ sum_from start xs
    sum_from_nonneg start [] h a = h
    sum_from_nonneg start (x ∷ xs) h (p, ps) =
        sum_from_nonneg (d.add start x) xs
          (laws.le_trans zero_d start (d.add start x) h (laws.le-add start x p)) ps

    take-AreNonneg : (n : ℕ) (xs : List D) → AreNonneg xs → AreNonneg (take n xs)
    take-AreNonneg zero xs a = tt
    take-AreNonneg (suc n) [] a = tt
    take-AreNonneg (suc n) (x ∷ xs) (p, ps) = (p, take-AreNonneg n xs ps)

    drop-AreNonneg : (n : ℕ) (xs : List D) → AreNonneg xs → AreNonneg (drop n xs)
    drop-AreNonneg zero xs a = a
    drop-AreNonneg (suc n) [] a = tt
    drop-AreNonneg (suc n) (x ∷ xs) (p, ps) = drop-AreNonneg n xs ps

    wilder_nonneg : (n : ℕ) (avg x : D) → zero_d ≼ avg → zero_d ≼ x → zero_d ≼ wilder (suc n) avg x
    wilder_nonneg n avg x p q =
        let part : zero_d ≼ d.mul avg (of_nat (suc n - 1)) =
          laws.mul_nonneg avg (of_nat (suc n - 1)) p (laws.lit_nonneg (suc n - 1) 0) in
        laws.div_nonneg _ (of_nat (suc n))
          (laws.le_trans zero_d (d.mul avg (of_nat (suc n - 1))) _ part
            (laws.le-add (d.mul avg (of_nat (suc n - 1))) x q))
          (laws.lit_pos n)

    smooth_nonneg :
        (n : ℕ) (avg : D) (xs : List D)
        → zero_d ≼ avg
        → AreNonneg xs
        → zero_d ≼ smooth (suc n) avg xs
    unfolding smooth
    smooth_nonneg n avg [] h a = h
    smooth_nonneg n avg (x ∷ xs) h (p, ps) =
        smooth_nonneg n (wilder (suc n) avg x) xs (wilder_nonneg n avg x h p) ps

    smoothed_nonneg : (n : ℕ) (xs : List D) → AreNonneg xs → zero_d ≼ smoothed (suc n) xs
    smoothed_nonneg n xs a =
        smooth_nonneg n (average (take (suc n) xs) (suc n)) (drop (suc n) xs)
          (laws.div_nonneg _ (of_nat (suc n))
            (sum_from_nonneg zero_d (take (suc n) xs) (laws.le_refl zero_d)
              (take-AreNonneg (suc n) xs a))
            (laws.lit_pos n))
          (drop-AreNonneg (suc n) xs a)

    le-max_right : (a b : D) → b ≼ max_d a b
    le-max_right a b = ground (arith, laws.le_refl b, le_of_not_lt laws a b)

    ranges_nonneg : (prev : D) (bars : List (Bar D)) → AreNonneg (true_ranges prev bars)
    ranges_nonneg prev [] = tt
    ranges_nonneg prev (b ∷ bars) = (
      laws.le_trans zero_d (abs (d.sub b.low prev)) (true_range prev b)
          (abs_nonneg laws (d.sub b.low prev))
          (le-max_right (max_d (d.sub b.high b.low) (abs (d.sub b.high prev)))
            (abs (d.sub b.low prev))),
      ranges_nonneg b.close bars,
    )

    ranges_of_nonneg : (bars : List (Bar D)) → AreNonneg (ranges_of bars)
    ranges_of_nonneg [] = tt
    ranges_of_nonneg (b ∷ bars) = ranges_nonneg b.close bars

    gains_nonneg : (xs : List D) → AreNonneg (map gain xs)
    gains_nonneg [] = tt
    gains_nonneg (x ∷ xs) =
        (ground (arith, laws.le_refl zero_d, le_of_lt laws zero_d x), gains_nonneg xs)

    losses_nonneg : (xs : List D) → AreNonneg (map loss xs)
    losses_nonneg [] = tt
    losses_nonneg (x ∷ xs) =
        (ground (arith, laws.le_refl zero_d, abs_nonneg laws x), losses_nonneg xs)

    rsi_of_bounds :
        (g l : D) → zero_d ≼ g → zero_d ≼ l → (zero_d ≼ rsi_of g l) × (rsi_of g l ≼ d.lit 100 0)
    rsi_of_bounds g l p q = elim (Bool-cases (d.eq l zero_d)) [
      | inl flat ↦ rw flat (laws.lit_nonneg 100 0, laws.le_refl (d.lit 100 0))
      | inr some_loss ↦
          let hundred : D = d.lit 100 0 in
          let one : D = d.lit 1 0 in
          let total : D = d.add one (d.div g l) in
          let loses : d.lt zero_d l ≡ true =
            ground (arith, laws.lt-eq-not-le zero_d l, laws.eq-eq-le l zero_d) in
          let one_le : one ≼ total = laws.le-add one (d.div g l) (laws.div_nonneg g l p loses) in
          let positive : d.lt zero_d total ≡ true = ground (
            arith,
            laws.lt-eq-not-le zero_d one,
            laws.lt-eq-not-le zero_d total,
            laws.lit_pos 0,
            laws.le_trans one total zero_d,
          ) in
          rw some_loss (
            laws.sub_nonneg hundred _ (laws.div-le hundred _ (laws.lit_nonneg 100 0) one_le),
            laws.sub-le hundred _ (laws.div_nonneg hundred _ (laws.lit_nonneg 100 0) positive),
          )
    ]

    -- For a positive period, the average true range is not negative, and the relative strength index is
    -- between 0 and 100.
    pub indicators_bounds :
        (bars : List (Bar D)) (period : ℕ)
        → 0 < period
        → (zero_d ≼ compute_atr bars period)
          × (zero_d ≼ compute_rsi bars period)
          × (compute_rsi bars period ≼ d.lit 100 0)
    unfolding compute_atr compute_rsi
    indicators_bounds bars zero h = absurd (omega arith)
    indicators_bounds bars (suc n) h =
        let deltas : List D = deltas_of (closes_of bars) in
        let rsi =
          rsi_of_bounds (smoothed (suc n) (map gain deltas)) (smoothed (suc n) (map loss deltas))
            (smoothed_nonneg n (map gain deltas) (gains_nonneg deltas))
            (smoothed_nonneg n (map loss deltas) (losses_nonneg deltas)) in
        let atr : zero_d ≼ smoothed (suc n) (ranges_of bars) =
          smoothed_nonneg n (ranges_of bars) (ranges_of_nonneg bars) in
        (
          elim (Bool-cases (ltb (length bars) (suc n + 1))) [
            | inl few ↦ rw few (laws.le_refl zero_d)
            | inr enough ↦ rw enough atr
          ],
          rsi.0,
          rsi.1,
        )
