-- ===== src/Strategies/SessionRules.antt =====
-- The strategies that look at the trading sessions, together.
use mathlib.Core.Path.{subst}
use polara_quant.Base.{
  ℕ, ◌≡◌, ◌⊎◌, refl, inl, inr, Bool, true, false, Option, none, some, List, [], ◌∷◌, last_or,
  if◌then◌else◌,
}
use polara_quant.Base.Effects.{Result, Error, ok, err, value_error}
use polara_quant.Base.Results.{◌>>=◌}
use polara_quant.Decimal.{Decimal, IsDecimal, zero_d}
use polara_quant.Schemas.{Signal, Bar}
use polara_quant.MarketData.Sessions.{Zone, date_of_bar, opening_range_end_utc}
use polara_quant.Strategies.{Stamp}
use polara_quant.Strategies.Indicators.{compute_atr}
use polara_quant.Strategies.Signalling.{
  Sleeve, ExitPcts, emit, atr_stop, buy_strength, sell_strength, IsOwnSignal,
}
use polara_quant.Strategies.Emitting.{
  IsUnit, idle, buys, sells, buy-in_range, sell-in_range, strength_of-IsUnit, unless-IsUnit,
}
use polara_quant.Strategies.PrevDayBreakout
use polara_quant.Strategies.GapFill
use polara_quant.Strategies.OpeningRangeBreakout
use polara_quant.Strategies.VwapMeanReversion

pub data SessionRule (D : Type 0) : Type 0 where
  prev_day_breakout : PrevDayBreakout.PrevDayBreakout D → SessionRule D
  gap_fill : GapFill.GapFill D → SessionRule D
  opening_range_breakout : OpeningRangeBreakout.OpeningRangeBreakout D → SessionRule D
  vwap_mean_reversion : VwapMeanReversion.VwapMeanReversion D → SessionRule D

abbrev pub sleeve_of : {D : Type 0} → SessionRule D → Sleeve
sleeve_of (prev_day_breakout c) = c.sleeve
sleeve_of (gap_fill c) = c.sleeve
sleeve_of (opening_range_breakout c) = c.sleeve
sleeve_of (vwap_mean_reversion c) = c.sleeve

module _ {D : Type 0} ⦃d : Decimal D⦄ (root : D → D) (et : Zone) where
  unfoldable pub on_bars : SessionRule D → Stamp → List (Bar D) → Result (Option (Signal D))
  unfolding PrevDayBreakout.on_bars GapFill.on_bars OpeningRangeBreakout.on_bars
      VwapMeanReversion.on_bars
  on_bars (prev_day_breakout c) = PrevDayBreakout.on_bars et c
  on_bars (gap_fill c) = GapFill.on_bars et c
  on_bars (opening_range_breakout c) = OpeningRangeBreakout.on_bars et c
  on_bars (vwap_mean_reversion c) = VwapMeanReversion.on_bars root et c

-- What a rule may fail on, on a day: only the opening range has something to parse.
abbrev pub to_parse : {D : Type 0} → Zone → ℕ → SessionRule D → Result ℕ
to_parse et today (opening_range_breakout c) =
    opening_range_end_utc et today c.sleeve.bar_size c.opening_bars
to_parse et today rule = ok 0

module _ {D : Type 0} ⦃d : Decimal D⦄ (sleeve : Sleeve) (stamp : Stamp) (parsed : Result ℕ) where
  -- Nothing, the error of the parse or of an empty range, or the strategy's own signal, with a stop.
  pub data Protected : Result (Option (Signal D)) → Type 0 where
    silent : Protected (ok none)
    raises : (e : Error) → (parsed ≡ err e) ⊎ (e ≡ value_error) → Protected (err e)
    signals :
        (s : Signal D) (price stop : D)
        → IsOwnSignal sleeve stamp price s
        → s.stop_loss_pct ≡ some stop
        → Protected (ok (some s))

  Protected-unless :
      (test : Bool) (r : Result (Option (Signal D)))
      → Protected r
      → Protected (if test then ok none else r)
  Protected-unless true r p = silent
  Protected-unless false r p = p

  Protected-if :
      (test : Bool) (r s : Result (Option (Signal D)))
      → Protected r
      → Protected s
      → Protected (if test then r else s)
  Protected-if true r s p q = p
  Protected-if false r s p q = q

  -- After the parse.
  Protected-bind :
      (m : Result ℕ) (f : ℕ → Result (Option (Signal D)))
      → parsed ≡ m
      → ((n : ℕ) → Protected (f n))
      → Protected (m >>= f)
  Protected-bind (ok n) f h p = p n
  Protected-bind (err e) f h p = raises e (inl h)

  module _ (laws : IsDecimal D) where
    emit-Protected :
        (price stop : D) (exits : ExitPcts D) (o : Option D)
        → exits.stop_loss_pct ≡ some stop
        → IsUnit o
        → Protected (emit sleeve stamp price exits o)
    unfolding emit
    emit-Protected price stop exits _ h idle = silent
    emit-Protected price stop exits _ h buys =
        rw (buy-in_range laws) (signals _ price stop (refl, refl, refl, refl, refl, inl refl) h)
    emit-Protected price stop exits _ h sells =
        rw (sell-in_range laws) (signals _ price stop (refl, refl, refl, refl, refl, inr refl) h)

module _ {D : Type 0} ⦃d : Decimal D⦄ where
  either :
      (p q : Bool) (a b : D)
      → (x : D) × ((if p then if q then some a else some b else some b) ≡ some x)
  either true true a b = (a, refl)
  either true false a b = (b, refl)
  either false q a b = (b, refl)

  atr_stop-some :
      (mult : Option D) (stop : D) (period : ℕ) (bars : List (Bar D)) (close : D)
      → (x : D) × (atr_stop mult (some stop) period bars close ≡ some x)
  unfolding atr_stop
  atr_stop-some none stop period bars close = (stop, refl)
  atr_stop-some (some m) stop period bars close =
      either (d.lt zero_d (compute_atr bars period)) (d.lt zero_d close)
        (d.div (d.mul (compute_atr bars period) m) close) stop

module _ {D : Type 0} ⦃d : Decimal D⦄ (laws : IsDecimal D) (stamp : Stamp) (parsed : Result ℕ) where
  prev_day-Protected :
      (c : PrevDayBreakout.PrevDayBreakout D) (bars today prev : List (Bar D))
      → Protected c.sleeve stamp parsed (PrevDayBreakout.on_sessions c stamp bars today prev)
  unfolding PrevDayBreakout.on_sessions
  prev_day-Protected c bars [] prev = silent
  prev_day-Protected c bars (b ∷ today) [] = silent
  prev_day-Protected c bars (b ∷ today) (p ∷ prev) =
      let (stop, h) =
        atr_stop-some c.atr_stop_multiplier PrevDayBreakout.fixed_stop c.atr_period bars
          (last_or b today).close in
      emit-Protected c.sleeve stamp parsed laws _ stop _ _ h (strength_of-IsUnit _ _)

  gap-IsUnit :
      (tradable : Bool) (falls : Bool)
      → IsUnit {D = D}
          (if tradable then some (if falls then sell_strength else buy_strength) else none)
  gap-IsUnit true true = sells
  gap-IsUnit true false = buys
  gap-IsUnit false falls = idle

  gap_fill-Protected :
      (c : GapFill.GapFill D) (today prev : List (Bar D))
      → Protected c.sleeve stamp parsed (GapFill.on_sessions c stamp today prev)
  unfolding GapFill.on_sessions
  gap_fill-Protected c [] prev = silent
  gap_fill-Protected c (b ∷ []) [] = silent
  gap_fill-Protected c (b ∷ []) (p ∷ prev) =
      emit-Protected c.sleeve stamp parsed laws _ c.min_gap_pct _ _ refl (search gap-IsUnit)
  gap_fill-Protected c (b ∷ e ∷ today) prev = silent

  breakout-Protected :
      (c : OpeningRangeBreakout.OpeningRangeBreakout D) (close distance strength : D)
      → IsUnit (some strength)
      → Protected c.sleeve stamp parsed
          (OpeningRangeBreakout.breakout c stamp close distance strength)
  breakout-Protected c close distance strength u =
      emit-Protected c.sleeve stamp parsed laws _ _ _ _ refl (unless-IsUnit _ _ u)

  on_range-Protected :
      (c : OpeningRangeBreakout.OpeningRangeBreakout D) (opening : List (Bar D)) (prev_close : D)
      (last_bar : Bar D)
      → Protected c.sleeve stamp parsed
          (OpeningRangeBreakout.on_range c stamp opening prev_close last_bar)
  unfolding OpeningRangeBreakout.on_range
  on_range-Protected c [] prev_close last_bar = raises value_error (inr refl)
  on_range-Protected c (b ∷ bars) prev_close last_bar =
      search (Protected-unless, Protected-if, breakout-Protected, buys, sells, silent)

module _ {D : Type 0} ⦃d : Decimal D⦄ where
  -- An entry, if there is one, is of full strength.
  data IsFull : Option (VwapMeanReversion.Entry D) → Type 0 where
    no_entry : IsFull none
    full : (e : VwapMeanReversion.Entry D) → IsUnit (some e.strength) → IsFull (some e)

  IsFull-if :
      (p q : Bool) (a b : VwapMeanReversion.Entry D)
      → IsUnit (some a.strength)
      → IsUnit (some b.strength)
      → IsFull (if p then some a else if q then some b else none)
  IsFull-if true q a b u v = full a u
  IsFull-if false true a b u v = full b v
  IsFull-if false false a b u v = no_entry

  IsFull-unless :
      (p : Bool) (o : Option (VwapMeanReversion.Entry D))
      → IsFull o
      → IsFull (if p then none else o)
  IsFull-unless true o h = no_entry
  IsFull-unless false o h = h

  band_entry-IsFull :
      (c : VwapMeanReversion.VwapMeanReversion D) (close vwap band : D)
      → IsFull (VwapMeanReversion.band_entry c close vwap band)
  unfolding VwapMeanReversion.band_entry
  band_entry-IsFull c close vwap band = IsFull-if _ _ _ _ buys sells

  deviation_entry-IsFull :
      (c : VwapMeanReversion.VwapMeanReversion D) (close vwap : D)
      → IsFull (VwapMeanReversion.deviation_entry c close vwap)
  unfolding VwapMeanReversion.deviation_entry
  deviation_entry-IsFull c close vwap = IsFull-if _ _ _ _ buys sells

  entry-IsFull :
      (root : D → D) (c : VwapMeanReversion.VwapMeanReversion D) (bars : List (Bar D)) (close : D)
      → IsFull (VwapMeanReversion.entry root c bars close)
  entry-IsFull root c bars close =
      elim c.std_mult
        as (λ mult. IsFull (elim mult [
          | none ↦ VwapMeanReversion.deviation_entry c close (VwapMeanReversion.session_vwap bars)
          | some mult ↦
              let std =
                VwapMeanReversion.session_vwap_std root bars
                  (VwapMeanReversion.session_vwap bars) in
              if d.eq std zero_d
              then none
              else VwapMeanReversion.band_entry c close (VwapMeanReversion.session_vwap bars)
                  (d.mul mult std)
        ])) [
          | none ↦ deviation_entry-IsFull c close _
          | some mult ↦ IsFull-unless _ _ (band_entry-IsFull c close _ _)
        ]

module _ {D : Type 0} ⦃d : Decimal D⦄ (laws : IsDecimal D) (root : D → D) (et : Zone)
    (stamp : Stamp) (first : Bar D) (rest : List (Bar D)) where
  submit-Protected :
      (c : VwapMeanReversion.VwapMeanReversion D) (parsed : Result ℕ) (close : D)
      (o : Option (VwapMeanReversion.Entry D))
      → IsFull o
      → Protected c.sleeve stamp parsed (VwapMeanReversion.submit c stamp close o)
  submit-Protected c parsed close _ no_entry = silent
  submit-Protected c parsed close _ (full e u) =
      emit-Protected c.sleeve stamp parsed laws close e.stop_loss_pct _ _ refl u

  on_session-Protected :
      (c : OpeningRangeBreakout.OpeningRangeBreakout D) (today : ℕ) (bars : List (Bar D))
      → Protected c.sleeve stamp
          (opening_range_end_utc et today c.sleeve.bar_size c.opening_bars)
          (OpeningRangeBreakout.on_session et c stamp today bars)
  unfolding OpeningRangeBreakout.on_session
  on_session-Protected c today [] = silent
  on_session-Protected c today (b ∷ bars) = Protected-unless c.sleeve stamp _ _ _ (
      Protected-bind c.sleeve stamp _ _ _ refl (λ n. search (Protected-unless, on_range-Protected)))

  on_bars-Protected :
      (r : SessionRule D)
      → Protected
          (sleeve_of r)
          stamp
          (to_parse et (date_of_bar et (last_or first rest)) r)
          (on_bars root et r stamp (first ∷ rest))
  unfolding on_bars
  on_bars-Protected (prev_day_breakout c) =
      Protected-unless c.sleeve stamp _ _ _ (prev_day-Protected laws stamp _ c _ _ _)
  on_bars-Protected (gap_fill c) =
      Protected-unless c.sleeve stamp _ _ _ (gap_fill-Protected laws stamp _ c _ _)
  on_bars-Protected (opening_range_breakout c) = on_session-Protected c _ _
  on_bars-Protected (vwap_mean_reversion c) =
      search (Protected-unless, submit-Protected, entry-IsFull)

  -- On bars that are not empty, a signal that a strategy of the sessions answers with is a fresh one in
  -- its own name and for its own symbol, of strength 1 or -1, and has a reference price and a stop loss.
  pub on_bars-HasStop :
      (r : SessionRule D) (s : Signal D)
      → on_bars root et r stamp (first ∷ rest) ≡ ok (some s)
      → (price : D) × (stop : D) × IsOwnSignal (sleeve_of r) stamp price s
        × (s.stop_loss_pct ≡ some stop)
  on_bars-HasStop r s e = go (on_bars-Protected r) e
    where
      go :
          {parsed : Result ℕ} {result : Result (Option (Signal D))}
          → Protected (sleeve_of r) stamp parsed result
          → result ≡ ok (some s)
          → (price : D) × (stop : D) × IsOwnSignal (sleeve_of r) stamp price s
            × (s.stop_loss_pct ≡ some stop)
      go silent e = cc
      go (raises x h) e = cc
      go (signals s' price stop own h) e =
          let same : s' ≡ s = cc in
          subst
            (λ x.
              (price : D) × (stop : D) × IsOwnSignal (sleeve_of r) stamp price x
              × (x.stop_loss_pct ≡ some stop))
            same (price, stop, own, h)
