-- ===== src/Schemas/Market.antt =====
-- src/polara/schemas/market.py: bars and quotes.
use polara_quant.Base.{String, Bool, true, ◌≡◌, arith, not, ◌&&◌, if◌then◌else◌}
use polara_quant.Base.Int.{ℤ, pos, ltb_ℤ}
use polara_quant.Base.Effects.{Result, ok, err, value_error}
use polara_quant.Decimal.{Decimal, zero_d}
use polara_quant.Schemas.Time.{DateTime, is_utc}

pub record Bar (D : Type 0) : Type 0 where
  pub symbol : String
  pub timestamp : DateTime
  pub open_price : D
  pub high : D
  pub low : D
  pub close : D
  pub volume : ℤ

pub record Quote (D : Type 0) : Type 0 where
  pub symbol : String
  pub timestamp : DateTime
  pub bid : D
  pub ask : D
  pub bid_size : ℤ
  pub ask_size : ℤ

abbrev pub size_must_be_non_negative : ℤ → Bool
size_must_be_non_negative v = not (ltb_ℤ v (pos 0))

module _ {D : Type 0} ⦃d : Decimal D⦄ where
  abbrev pub price_must_be_positive : D → Bool
  price_must_be_positive v = not (d.le v zero_d)

  -- `Bar(...)`
  unfoldable pub bar : Bar D → Result (Bar D)
  bar b =
      if is_utc b.timestamp
        && (price_must_be_positive b.open_price
            && (price_must_be_positive b.high
                && (price_must_be_positive b.low
                    && (price_must_be_positive b.close && size_must_be_non_negative b.volume))))
      then ok b
      else err value_error

  -- An accepted bar is the given one.
  pub bar-eq-ok : (b a : Bar D) → bar b ≡ ok a → a ≡ b
  unfolding bar
  bar-eq-ok b a h = ground arith

  -- Prices that are positive where those of an accepted bar are make an accepted bar.
  pub bar_again :
      (b a : Bar D)
      → bar b ≡ ok b
      → is_utc a.timestamp ≡ true
      → (price_must_be_positive b.open_price ≡ true → price_must_be_positive a.open_price ≡ true)
      → (price_must_be_positive b.high ≡ true → price_must_be_positive a.high ≡ true)
      → (price_must_be_positive b.low ≡ true → price_must_be_positive a.low ≡ true)
      → (price_must_be_positive b.close ≡ true → price_must_be_positive a.close ≡ true)
      → a.volume ≡ b.volume
      → bar a ≡ ok a
  unfolding bar
  bar_again b a h t o g l c v = ground arith

  -- `Quote(...)`: `ask` is compared with `bid` only if `bid` has passed its own validator, and the
  -- whole fails anyway if it has not.
  unfoldable pub quote : Quote D → Result (Quote D)
  quote q =
      if is_utc q.timestamp
        && (price_must_be_positive q.bid
            && (price_must_be_positive q.ask
                && (not (d.lt q.ask q.bid)
                    && (size_must_be_non_negative q.bid_size
                        && size_must_be_non_negative q.ask_size))))
      then ok q
      else err value_error
