-- ===== src/Schemas/Time.antt =====
-- Datetimes, and the check of src/polara/constants.py. An instant is a number of microseconds.
use polara_quant.Base.{ℕ, ◌*◌, ◌/◌, Bool, false, Option, none, some, nat_beq, if◌then◌else◌}
use polara_quant.Base.Int.{ℤ, pos, size}
use polara_quant.Base.Effects.{Result, ok, err, value_error}

-- `utcoffset` is `none` for a naive datetime, and else the offset in microseconds.
pub record DateTime : Type 0 where
  pub instant : ℕ
  pub utcoffset : Option ℤ

-- `datetime.now(UTC)` at an instant.
abbrev pub utc : ℕ → DateTime
utc t = record { instant = t; utcoffset = some (pos 0) }

abbrev pub is_utc : DateTime → Bool
is_utc v = elim v.utcoffset [ none ↦ false | some offset ↦ nat_beq (size offset) 0 ]

unfoldable pub validate_utc_datetime : DateTime → Result DateTime
validate_utc_datetime v = if is_utc v then ok v else err value_error

abbrev pub second : ℕ
second = 1_000_000

abbrev pub day : ℕ
day = 86_400 * second

-- `.date()` of a UTC datetime, as the number of the day.
abbrev pub date_of : ℕ → ℕ
date_of t = t / day
