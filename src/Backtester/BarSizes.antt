-- ===== src/Backtester/BarSizes.antt =====
-- `_periods_per_year` of src/polara/backtester/engine.py.
use polara_quant.Base.{ℕ, ◌/◌, String, map, nat_beq, if◌then◌else◌}
use polara_quant.Base.Effects.{Result, ok, err, arithmetic}
use polara_quant.Base.Results.{◌>>=◌}
use polara_quant.Base.Texts.{codes, to_lower, contains_word, first_word, int_of}

-- `int(total / count)`
abbrev pub quotient : ℕ → ℕ → Result ℕ
quotient total count = if nat_beq count 0 then err arithmetic else ok (total / count)

-- 252 trading days of six and a half hours: 98280 minutes, 1638 hours.
unfoldable pub periods_per_year : String → Result ℕ
unfolding to_lower int_of
periods_per_year bar_size =
    let text = map to_lower (codes bar_size) in
    if contains_word (codes "min") text
    then (int_of (first_word text) >>= quotient 98_280)
    else if contains_word (codes "hour") text
    then (int_of (first_word text) >>= quotient 1_638)
    else ok 252
