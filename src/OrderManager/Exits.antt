-- ===== src/OrderManager/Exits.antt =====
-- src/polara/order_manager/manager.py, `_compute_exit_prices`: on which side of the reference price
-- the bracket's prices are.
use polara_quant.Base.{◌≡◌, refl, Option, none, some, true, false, if◌then◌else◌}
use polara_quant.Decimal.{Decimal, zero_d, IsDecimal, ◌≼◌, truthy}
use polara_quant.Schemas.{Signal, OrderSide, buy, sell}
use polara_quant.OrderManager.{compute_exit_prices, price_below, price_above, exit_prices_at}

module _ {D : Type 0} ⦃d : Decimal D⦄ where
  -- A price, where there is one, is at most another, or at least it.
  abbrev pub IsAtMost : Option D → D → Type 0
  IsAtMost none bound = Unit {0}
  IsAtMost (some x) bound = x ≼ bound

  abbrev pub IsAtLeast : Option D → D → Type 0
  IsAtLeast none bound = Unit {0}
  IsAtLeast (some x) bound = bound ≼ x

  -- A percentage, where it is set, is not negative.
  abbrev pub IsNonneg : Option D → Type 0
  IsNonneg pct = IsAtLeast pct zero_d

  -- The loss is cut on the losing side of the price, and the profit taken on the winning side.
  abbrev pub AreAround : D → OrderSide → Option D × Option D → Type 0
  AreAround price buy (stop, profit) = IsAtMost stop price × IsAtLeast profit price
  AreAround price sell (stop, profit) = IsAtLeast stop price × IsAtMost profit price

  -- There are prices only where there is a reference price, and they are around it.
  abbrev pub IsBracket : Option D → OrderSide → Option D × Option D → Type 0
  IsBracket none side prices = prices ≡ (none, none)
  IsBracket (some price) side prices = AreAround price side prices

  module _ (laws : IsDecimal D) where
    percent_nonneg : (pct : D) → zero_d ≼ pct → zero_d ≼ d.div pct (d.lit 100 0)
    percent_nonneg pct h = laws.div_nonneg pct (d.lit 100 0) h laws.hundred_pos

    cut-below :
        (price pct : D)
        → zero_d ≼ price
        → zero_d ≼ pct
        → d.round_down 2 (d.mul price (d.sub (d.lit 1 0) (d.div pct (d.lit 100 0)))) ≼ price
    cut-below price pct p h =
        laws.round_down-le 2 (d.mul price (d.sub (d.lit 1 0) (d.div pct (d.lit 100 0)))) price
          (laws.mul-le price (d.sub (d.lit 1 0) (d.div pct (d.lit 100 0))) p
            (laws.sub-le (d.lit 1 0) (d.div pct (d.lit 100 0)) (percent_nonneg pct h)))
          p

    raise-above :
        (price pct : D)
        → zero_d ≼ price
        → zero_d ≼ pct
        → price ≼ d.round_up 2 (d.mul price (d.add (d.lit 1 0) (d.div pct (d.lit 100 0))))
    raise-above price pct p h =
        let factor : D = d.add (d.lit 1 0) (d.div pct (d.lit 100 0)) in
        let up : price ≼ d.mul price factor =
          laws.le-mul price factor p
            (laws.le-add (d.lit 1 0) (d.div pct (d.lit 100 0)) (percent_nonneg pct h)) in
        laws.le_trans price (d.mul price factor) (d.round_up 2 (d.mul price factor)) up (
          laws.le-round_up 2 (d.mul price factor)
            (laws.le_trans zero_d price (d.mul price factor) p up))

    price_below-IsAtMost :
        (price : D) (pct : Option D)
        → zero_d ≼ price
        → IsNonneg pct
        → IsAtMost (price_below price pct) price
    unfolding price_below
    price_below-IsAtMost price none p h = tt
    price_below-IsAtMost price (some pct) p h =
        elim (truthy pct)
          as (λ set.
            IsAtMost
              (if set
                then some
                    (d.round_down 2 (d.mul price (d.sub (d.lit 1 0) (d.div pct (d.lit 100 0)))))
                else none)
              price) [ true ↦ cut-below price pct p h | false ↦ tt ]

    price_above-IsAtLeast :
        (price : D) (pct : Option D)
        → zero_d ≼ price
        → IsNonneg pct
        → IsAtLeast (price_above price pct) price
    unfolding price_above
    price_above-IsAtLeast price none p h = tt
    price_above-IsAtLeast price (some pct) p h =
        elim (truthy pct)
          as (λ set.
            IsAtLeast
              (if set
                then some (d.round_up 2 (d.mul price (d.add (d.lit 1 0) (d.div pct (d.lit 100 0)))))
                else none)
              price) [ true ↦ raise-above price pct p h | false ↦ tt ]

    bracket_at :
        (signal : Signal D) (side : OrderSide) (price : D)
        → zero_d ≼ price
        → IsNonneg signal.stop_loss_pct
        → IsNonneg signal.take_profit_pct
        → AreAround price side (exit_prices_at signal side price)
    bracket_at signal buy price p h k = (
      price_below-IsAtMost price signal.stop_loss_pct p h,
      price_above-IsAtLeast price signal.take_profit_pct p k,
    )
    bracket_at signal sell price p h k = (
      price_above-IsAtLeast price signal.stop_loss_pct p h,
      price_below-IsAtMost price signal.take_profit_pct p k,
    )

    exits_around :
        (signal : Signal D) (side : OrderSide) (reference : Option D)
        → IsNonneg reference
        → IsNonneg signal.stop_loss_pct
        → IsNonneg signal.take_profit_pct
        → IsBracket reference side
            (elim reference [ none ↦ (none, none) | some price ↦ exit_prices_at signal side price ])
    exits_around signal side none p h k = refl
    exits_around signal side (some price) p h k = bracket_at signal side price p h k

    -- For a signal whose reference price and percentages, where they are given, are not negative: with
    -- a reference price, the stop-loss of a buy is at most that price and its take-profit at least, and
    -- the reverse for a sell, after rounding to cents and for each one that is computed; without a
    -- reference price there is neither.
    pub exit_prices-IsBracket :
        (signal : Signal D) (side : OrderSide)
        → IsNonneg signal.reference_price
        → IsNonneg signal.stop_loss_pct
        → IsNonneg signal.take_profit_pct
        → IsBracket signal.reference_price side (compute_exit_prices signal side)
    unfolding compute_exit_prices
    exit_prices-IsBracket signal side p h k = exits_around signal side signal.reference_price p h k
