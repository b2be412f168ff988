-- ===== src/Strategies/Indicators.antt =====
-- The indicators of src/polara/research_engine/strategies: indicators.py, and the functions of the modules
-- of the moving average, the rate of change, the relative strength and the Bollinger bands. The periods
-- are positive: a period of zero divides by zero.
pub mod Ranges
use polara_quant.Base.{
  ℕ, zero, suc, ◌+◌, ◌-◌, Bool, true, false, List, [], ◌∷◌, ◌++◌, map, ltb, leb, length, take, drop,
  replicate, slice, nth_or, if◌then◌else◌,
}
use polara_quant.Decimal.{Decimal, zero_d, of_nat, abs, max_d, sum_from}
use polara_quant.Schemas.{Bar}

-- The start of `values[end - period : end]`: a negative start counts from the end of the list.
abbrev pub window_start : ℕ → ℕ → ℕ → ℕ
window_start size end period = if leb period end then end - period else size + end - period

module _ {D : Type 0} ⦃d : Decimal D⦄ where
  abbrev pub closes_of : List (Bar D) → List D
  closes_of = map (λ b. b.close)

  abbrev pub average : List D → ℕ → D
  average values period = d.div (sum_from zero_d values) (of_nat period)

  -- `_compute_atr`: the true ranges of each bar after the first one.
  abbrev pub true_range : D → Bar D → D
  true_range prev_close b =
      max_d (max_d (d.sub b.high b.low) (abs (d.sub b.high prev_close)))
        (abs (d.sub b.low prev_close))

  abbrev pub true_ranges : D → List (Bar D) → List D
  true_ranges prev_close [] = []
  true_ranges prev_close (b ∷ bars) = true_range prev_close b ∷ true_ranges b.close bars

  abbrev pub ranges_of : List (Bar D) → List D
  ranges_of [] = []
  ranges_of (b ∷ bars) = true_ranges b.close bars

  -- Wilder's smoothing.
  abbrev pub wilder : ℕ → D → D → D
  wilder period avg x = d.div (d.add (d.mul avg (of_nat (period - 1))) x) (of_nat period)

  unfoldable pub smooth : ℕ → D → List D → D
  smooth period avg [] = avg
  smooth period avg (x ∷ xs) = smooth period (wilder period avg x) xs

  unfoldable pub compute_atr : List (Bar D) → ℕ → D
  unfolding smooth
  compute_atr bars period =
      if ltb (length bars) (period + 1)
      then zero_d
      else smooth period (average (take period (ranges_of bars)) period)
          (drop period (ranges_of bars))

  -- `_compute_ema`, which `_ema` of macd.py repeats.
  abbrev pub ema_after : D → D → List D → List D
  ema_after k prev [] = []
  ema_after k prev (v ∷ vs) =
      let next = d.add prev (d.mul k (d.sub v prev)) in next ∷ ema_after k next vs

  unfoldable pub compute_ema : List D → ℕ → List D
  compute_ema values period =
      let seed = average (take period values) period in
      let k = d.div (of_nat 2) (of_nat (period + 1)) in
      if ltb (length values) period
      then []
      else replicate period seed ++ ema_after k seed (drop period values)

  -- `_sma`
  unfoldable pub sma : List D → ℕ → ℕ → D
  sma values period offset =
      let end = length values - offset in
      average (slice (window_start (length values) end period) end values) period

  -- `_roc`, for a list of more than `period + offset` elements.
  unfoldable pub roc : List D → ℕ → ℕ → D
  roc closes period offset =
      let end = length closes - offset in
      let current = nth_or zero_d closes (end - 1) in
      let prior = nth_or zero_d closes (end - 1 - period) in
      if d.eq prior zero_d then zero_d else d.mul (d.div (d.sub current prior) prior) (d.lit 100 0)

  -- `_compute_rsi`
  abbrev pub deltas_after : D → List D → List D
  deltas_after prev [] = []
  deltas_after prev (v ∷ vs) = d.sub v prev ∷ deltas_after v vs

  abbrev pub deltas_of : List D → List D
  deltas_of [] = []
  deltas_of (v ∷ vs) = deltas_after v vs

  abbrev pub gain : D → D
  gain delta = if d.lt zero_d delta then delta else zero_d

  abbrev pub loss : D → D
  loss delta = if d.lt delta zero_d then abs delta else zero_d

  abbrev pub smoothed : ℕ → List D → D
  smoothed period xs = smooth period (average (take period xs) period) (drop period xs)

  abbrev pub rsi_of : D → D → D
  rsi_of avg_gain avg_loss =
      if d.eq avg_loss zero_d
      then d.lit 100 0
      else d.sub (d.lit 100 0) (d.div (d.lit 100 0) (d.add (d.lit 1 0) (d.div avg_gain avg_loss)))

  unfoldable pub compute_rsi : List (Bar D) → ℕ → D
  unfolding smooth
  compute_rsi bars period =
      let deltas = deltas_of (closes_of bars) in
      rsi_of (smoothed period (map gain deltas)) (smoothed period (map loss deltas))

  abbrev pub variance_about : D → List D → ℕ → D
  variance_about middle window period =
      average (map (λ c. d.mul (d.sub c middle) (d.sub c middle)) window) period

  -- `_bollinger`, with `root` for `math.sqrt`: the middle, upper and lower band. `closes[-period:]` is
  -- the whole list if there are fewer.
  unfoldable pub bollinger : (D → D) → List D → ℕ → D → D × D × D
  bollinger root closes period num_std =
      let window = drop (length closes - period) closes in
      let middle = average window period in
      let band = d.mul num_std (root (variance_about middle window period)) in
      (middle, d.add middle band, d.sub middle band)
