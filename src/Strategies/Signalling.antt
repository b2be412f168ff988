-- ===== src/Strategies/Signalling.antt =====
-- What the strategies of src/polara/research_engine/strategies have in common: the fields of every one, and
-- the end of their `on_bars`, from the strength on.
use polara_quant.Base.{
  ℕ, ◌≤◌, ◌≡◌, ◌⊎◌, [], ◌∷◌, map, String, Bool, Option, none, some, List, ◌-◌, ◌&&◌, ltb, length,
  take, nth_or, last_or, if◌then◌else◌,
}
use polara_quant.Base.Effects.{Result, ok}
use polara_quant.Base.Results.{◌>>=◌}
use polara_quant.Decimal.{Decimal, zero_d, max_d, min_d, of_int}
use polara_quant.Schemas.{Signal, Bar, signal, utc}
use polara_quant.Strategies.Indicators.{closes_of, compute_atr}
use polara_quant.Strategies.{Stamp}

pub record Sleeve : Type 0 where
  pub strategy_id : String
  pub symbol : String
  pub bar_size : String

-- The stop loss and the take profit of a signal.
pub record ExitPcts (D : Type 0) : Type 0 where
  pub stop_loss_pct : Option D
  pub take_profit_pct : Option D

-- `max(a, b)` of two numbers.
abbrev pub max_nat : ℕ → ℕ → ℕ
max_nat a b = if ltb a b then b else a

-- `xs[:-1]`
abbrev pub without_last : {A : Type 0} → List A → List A
without_last xs = take (length xs - 1) xs

-- `xs[-2]`, of a list of two elements or more.
abbrev pub second_last : {A : Type 0} → A → List A → A
second_last default xs = nth_or default xs (length xs - 2)

module _ {D : Type 0} ⦃d : Decimal D⦄ where
  -- `bars[-1].close`
  abbrev pub close_now : List (Bar D) → D
  close_now bars = last_or zero_d (closes_of bars)

  -- `max(b.high for b in bars)` and `min(b.low for b in bars)`, of bars that follow a first one.
  abbrev pub highest_from : D → List (Bar D) → D
  highest_from high [] = high
  highest_from high (b ∷ bars) = highest_from (max_d high b.high) bars

  abbrev pub highest_of : List (Bar D) → D
  highest_of [] = zero_d
  highest_of (b ∷ bars) = highest_from b.high bars

  abbrev pub lowest_from : D → List (Bar D) → D
  lowest_from low [] = low
  lowest_from low (b ∷ bars) = lowest_from (min_d low b.low) bars

  abbrev pub lowest_of : List (Bar D) → D
  lowest_of [] = zero_d
  lowest_of (b ∷ bars) = lowest_from b.low bars

  -- `[Decimal(b.volume) for b in bars]`
  abbrev pub volumes_of : List (Bar D) → List D
  volumes_of = map (λ b. of_int b.volume)

  -- A line comes from at most another one to above it, and the other way round.
  abbrev pub crosses_above : D → D → D → D → Bool
  crosses_above prev other_prev now other_now = d.le prev other_prev && d.lt other_now now

  abbrev pub crosses_below : D → D → D → D → Bool
  crosses_below prev other_prev now other_now = d.le other_prev prev && d.lt now other_now

  abbrev pub buy_strength : D
  buy_strength = d.lit 1 0

  abbrev pub sell_strength : D
  sell_strength = d.neg (d.lit 1 0)

  -- `if up: 1 elif down: -1 else: return None`
  abbrev pub strength_of : Bool → Bool → Option D
  strength_of up down = if up then some buy_strength else if down then some sell_strength else none

  -- The stop from the average true range, in the strategies that have the choice.
  unfoldable pub atr_stop : Option D → Option D → ℕ → List (Bar D) → D → Option D
  unfolding compute_atr
  atr_stop none stop_loss_pct period bars close = stop_loss_pct
  atr_stop (some multiplier) stop_loss_pct period bars close =
      let atr = compute_atr bars period in
      if d.lt zero_d atr
      then if d.lt zero_d close then some (d.div (d.mul atr multiplier) close) else stop_loss_pct
      else stop_loss_pct

  -- `Signal(...)`, if there is a strength.
  unfoldable pub emit : Sleeve → Stamp → D → ExitPcts D → Option D → Result (Option (Signal D))
  unfolding signal
  emit sleeve stamp price exits none = ok none
  emit sleeve stamp price exits (some strength) = do
    s ← signal (record {
      signal_id = stamp.fresh_id;
      strategy_id = sleeve.strategy_id;
      symbol = sleeve.symbol;
      strength = strength;
      generated_at = utc stamp.clock;
      reference_price = some price;
      stop_loss_pct = exits.stop_loss_pct;
      take_profit_pct = exits.take_profit_pct;
    })
    ok (some s)

  -- The strategy's own fresh signal, a full buy or a full sell at a price.
  abbrev pub IsOwnSignal : Sleeve → Stamp → D → Signal D → Type 0
  IsOwnSignal sleeve stamp price s =
      (s.signal_id ≡ stamp.fresh_id)
      × (s.strategy_id ≡ sleeve.strategy_id)
      × (s.symbol ≡ sleeve.symbol)
      × (s.generated_at ≡ utc stamp.clock)
      × (s.reference_price ≡ some price)
      × ((s.strength ≡ buy_strength) ⊎ (s.strength ≡ sell_strength))

  -- `on_bars` with so many bars: nothing, or the strategy's own signal if the bars are enough.
  pub data Answers (sleeve : Sleeve) (stamp : Stamp) (price : D) (needed have : ℕ)
      : Result (Option (Signal D)) → Type 0 where
    silent : Answers sleeve stamp price needed have (ok none)
    signals :
        (s : Signal D)
        → needed ≤ have
        → IsOwnSignal sleeve stamp price s
        → Answers sleeve stamp price needed have (ok (some s))
