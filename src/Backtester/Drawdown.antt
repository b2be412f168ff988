-- ===== src/Backtester/Drawdown.antt =====
-- `_compute_max_drawdown` of src/polara/backtester/engine.py against its description: the largest fall
-- from a running peak.
use mathlib.Core.Path.{subst}
use polara_quant.Base.{
  ◌≡◌, refl, sym, All, Any, true, List, [], ◌∷◌, ◌++◌, arith, Bool-cases, inl, inr, ◌⊎◌, ◌&&◌, ap,
  ◌∙◌,
}
use polara_quant.Decimal.{Decimal, zero_d, IsDecimal, ◌≼◌, le_of_lt, le_of_not_lt}
use polara_quant.Backtester.Metrics.{
  drawdown, new_peak, new_drawdown, drawdown_loop, compute_max_drawdown,
}

module _ {D : Type 0} ⦃d : Decimal D⦄ where
  -- The running peak of the loop.
  abbrev highest : D → List D → D
  highest peak [] = peak
  highest peak (val ∷ vals) = highest (new_peak peak val) vals

  module _ (laws : IsDecimal D) where
    le-new_drawdown : (peak m val : D) → m ≼ new_drawdown peak m val
    le-new_drawdown peak m val = ground (arith, laws.le_refl m, le_of_lt laws m (drawdown peak val))

    drawdown-le-new_drawdown :
        (peak m val : D) → d.lt zero_d peak ≡ true → drawdown peak val ≼ new_drawdown peak m val
    drawdown-le-new_drawdown peak m val h =
        ground (arith, laws.le_refl (drawdown peak val), le_of_not_lt laws m (drawdown peak val))

    le-drawdown_loop : (peak m : D) (vals : List D) → m ≼ drawdown_loop peak m vals
    unfolding drawdown_loop
    le-drawdown_loop peak m [] = laws.le_refl m
    le-drawdown_loop peak m (val ∷ vals) =
        laws.le_trans m (new_drawdown (new_peak peak val) m val) _
          (le-new_drawdown (new_peak peak val) m val)
          (le-drawdown_loop (new_peak peak val) (new_drawdown (new_peak peak val) m val) vals)

    drawdown-le-loop :
        (peak m : D) (before : List D) (val : D) (after : List D)
        → d.lt zero_d (highest peak (before ++ (val ∷ []))) ≡ true
        → drawdown (highest peak (before ++ (val ∷ []))) val
          ≼ drawdown_loop peak m (before ++ (val ∷ after))
    unfolding drawdown_loop
    drawdown-le-loop peak m [] val after h =
        laws.le_trans (drawdown (new_peak peak val) val) (new_drawdown (new_peak peak val) m val) _
          (drawdown-le-new_drawdown (new_peak peak val) m val h)
          (le-drawdown_loop (new_peak peak val) (new_drawdown (new_peak peak val) m val) after)
    drawdown-le-loop peak m (x ∷ before) val after h =
        drawdown-le-loop (new_peak peak x) (new_drawdown (new_peak peak x) m x) before val after h

  -- A value that is one of some values, and that none of them exceeds.
  abbrev pub IsHighest : D → List D → Type 0
  IsHighest peak vals = Any (λ v. v ≡ peak) vals × All (λ v. v ≼ peak) vals

  highest-IsHighest :
      (laws : IsDecimal D) (first : D) (vals : List D)
      → IsHighest (highest first vals) (first ∷ vals)
  highest-IsHighest laws first [] = (inl refl, (laws.le_refl first, tt))
  highest-IsHighest laws first (val ∷ vals) = elim (Bool-cases (d.lt first val)) [
    | inl more ↦
        let e : new_peak first val ≡ val = rw more refl in
        let (found, (top, tops)) = highest-IsHighest laws val vals in
        subst (λ p. IsHighest (highest p vals) (first ∷ val ∷ vals)) (sym e)
          (inr found, (laws.le_trans first val _ (le_of_lt laws first val more) top, (top, tops)))
    | inr less ↦
        let e : new_peak first val ≡ first = rw less refl in
        let (found, (top, tops)) = highest-IsHighest laws first vals in
        subst (λ p. IsHighest (highest p vals) (first ∷ val ∷ vals)) (sym e)
          (
            elim found [ inl here ↦ inl here | inr later ↦ inr (inr later) ],
            (top, (laws.le_trans val first _ (le_of_not_lt laws first val less) top, tops)),
          )
  ]

  -- A fall that the curve shows at one of its values.
  abbrev IsShown : D → D → List D → Type 0
  IsShown result peak vals =
      (before : List D) × (val : D) × (after : List D) × (vals ≡ before ++ (val ∷ after))
      × (d.lt zero_d (highest peak (before ++ (val ∷ []))) ≡ true)
      × (result ≡ drawdown (highest peak (before ++ (val ∷ []))) val)

  loop-IsShown :
      (peak m : D) (vals : List D)
      → (drawdown_loop peak m vals ≡ m) ⊎ IsShown (drawdown_loop peak m vals) peak vals
  unfolding drawdown_loop
  loop-IsShown peak m [] = inl refl
  loop-IsShown peak m (val ∷ vals) =
      let peak' : D = new_peak peak val in
      elim (loop-IsShown peak' (new_drawdown peak' m val) vals) [
        | inr (before, v, after, e, pos, shown) ↦
            inr (val ∷ before, v, after, ap (λ vs. val ∷ vs) e, pos, shown)
        | inl kept ↦ elim (Bool-cases (d.lt zero_d peak' && d.lt m (drawdown peak' val))) [
          | inr stays ↦ inl (kept ∙ ground arith)
          | inl falls ↦ inr ([], val, vals, refl, ground arith, kept ∙ ground arith)
        ]
      ]

  -- A fall that the curve shows: at one of its values, from the highest of those up to it.
  abbrev pub IsFall : D → List D → Type 0
  IsFall result curve =
      (before : List D) × (val : D) × (after : List D) × (curve ≡ before ++ (val ∷ after))
      × ((peak : D) × IsHighest peak (before ++ (val ∷ []))
          × (d.lt zero_d peak ≡ true)
          × (result ≡ d.mul (d.div (d.sub peak val) peak) (d.lit 100 0)))

  IsShown-IsFall :
      (laws : IsDecimal D) (result first : D) (vals : List D)
      → IsShown result first vals
      → IsFall result (first ∷ vals)
  IsShown-IsFall laws result first vals (before, val, after, e, pos, shown) = (
    first ∷ before,
    val,
    after,
    ap (λ vs. first ∷ vs) e,
    (
      highest first (before ++ (val ∷ [])),
      highest-IsHighest laws first (before ++ (val ∷ [])),
      pos,
      shown,
    ),
  )

  -- For each value of the curve after the first: there is a highest of the values up to it, and if that
  -- is above zero, the result is at least the fall from it to the value, in percent of it. The result
  -- is zero or one of these falls.
  pub compute_max_drawdown-bounds :
      (laws : IsDecimal D) (first : D) (before : List D) (val : D) (after : List D)
      → let result = compute_max_drawdown (first ∷ (before ++ (val ∷ after))) in
        ((peak : D) × IsHighest peak (first ∷ (before ++ (val ∷ [])))
          × (d.lt zero_d peak ≡ true → d.mul (d.div (d.sub peak val) peak) (d.lit 100 0) ≼ result))
        × ((result ≡ zero_d) ⊎ IsFall result (first ∷ (before ++ (val ∷ after))))
  unfolding compute_max_drawdown
  compute_max_drawdown-bounds laws first [] val after = (
    (
      highest first (val ∷ []),
      highest-IsHighest laws first (val ∷ []),
      drawdown-le-loop laws first zero_d [] val after,
    ),
    elim (loop-IsShown first zero_d (val ∷ after)) [
      | inl none ↦ inl none
      | inr shown ↦ inr (IsShown-IsFall laws _ first (val ∷ after) shown)
    ],
  )
  compute_max_drawdown-bounds laws first (x ∷ before) val after = (
    (
      highest first (x ∷ (before ++ (val ∷ []))),
      highest-IsHighest laws first (x ∷ (before ++ (val ∷ []))),
      drawdown-le-loop laws first zero_d (x ∷ before) val after,
    ),
    elim (loop-IsShown first zero_d (x ∷ (before ++ (val ∷ after)))) [
      | inl none ↦ inl none
      | inr shown ↦ inr (IsShown-IsFall laws _ first (x ∷ (before ++ (val ∷ after))) shown)
    ],
  )
