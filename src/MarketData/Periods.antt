-- ===== src/MarketData/Periods.antt =====
-- The period that src/polara/market_data/fetcher.py asks the gateway for.
use polara_quant.Base.{
  ℕ, ◌+◌, ◌*◌, ◌/◌, ◌≤◌, ◌<◌, ◌≡◌, String, ltb, leb, ◌==◌, string_eq, if◌then◌else◌, arith,
}

-- `f"{n}d"`, `f"{n}m"` and `f"{n}y"`
pub data Period : Type 0 where
  days months years : ℕ → Period

-- `_MINUTES_PER_BAR.get(bar_size, 5)`
unfoldable pub minutes_per_bar : String → ℕ
minutes_per_bar bar_size =
    if bar_size == "1 min"
    then 1
    else if bar_size == "5 mins"
    then 5
    else if bar_size == "15 mins"
    then 15
    else if bar_size == "30 mins"
    then 30
    else if bar_size == "1 hour"
    then 60
    else if bar_size == "1 day"
    then 1_440
    else 5

abbrev larger_nat : ℕ → ℕ → ℕ
larger_nat a b = if ltb a b then b else a

-- For a number of minutes.
unfoldable pub period_of : ℕ → Period
period_of total_minutes =
    let n_days = total_minutes / 1_440 + 1 in
    let n_months = n_days / 30 + 1 in
    if leb total_minutes 1_440
    then days (larger_nat 1 (total_minutes / 60 + 1))
    else if leb n_days 30
    then days n_days
    else if leb n_months 12
    then months n_months
    else years (n_months / 12 + 1)

unfoldable pub cp_period : ℕ → String → Period
unfolding minutes_per_bar period_of
cp_period n bar_size = period_of (n * minutes_per_bar bar_size * 2)

-- The minutes of a period of that text, with 30 days to a month and 360 to a year.
abbrev span : Period → ℕ
span (days n) = n * 1_440
span (months n) = n * 43_200
span (years n) = n * 518_400

period_of-span : (total : ℕ) → total ≤ span (period_of total)
unfolding period_of
period_of-span total = ground arith

thirty_minutes-days :
    (n : ℕ)
    → 27 ≤ n
    → n < 720
    → (period_of (n * 30 * 2) ≡ days (n * 30 * 2 / 1_440 + 1)) × ((n * 30 * 2 / 1_440 + 1) * 13 < n)
unfolding period_of
thirty_minutes-days n h k = ground arith

-- The period asked for lasts at least twice as long as the bars, counted around the clock.
cp_period-covers :
    (n : ℕ) (bar_size : String) → n * minutes_per_bar bar_size * 2 ≤ span (cp_period n bar_size)
unfolding cp_period
cp_period-covers n bar_size = period_of-span (n * minutes_per_bar bar_size * 2)

-- For 27 to 719 bars of 30 minutes, the period asked for is a number of days on which, with the 13 bars
-- of a session on each, there are fewer bars than are asked for.
cp_period-short :
    (n : ℕ) → 27 ≤ n → n < 720 → (q : ℕ) × (cp_period n "30 mins" ≡ days q) × (q * 13 < n)
unfolding cp_period minutes_per_bar
cp_period-short n h k = let (e, l) = thirty_minutes-days n h k in (n * 30 * 2 / 1_440 + 1, e, l)
