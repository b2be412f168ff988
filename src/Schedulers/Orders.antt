-- ===== src/Schedulers/Orders.antt =====
-- What signals do to the orders, one after another.
use polara_quant.Base.{
  ℕ, suc, inl, inr, ◌+◌, ◌≤◌, ◌≡◌, ◌∙◌, ap, sym, Option, none, some, List, [], ◌∷◌, ◌++◌, length,
  All, length-append, All-append, if◌then◌else◌, arith,
}
use mathlib.Core.Path.{subst}
use mathlib.Core.List.{append_assoc, append-nil}
use polara_quant.Base.Effects.{Result, ok, err}
use polara_quant.Decimal.{Decimal, zero_d}
use polara_quant.Schemas.{Signal, buy, sell}
use polara_quant.Broker.{Order}
use polara_quant.OrderManager.{OrderManager, Surroundings, process_signal}
use polara_quant.OrderManager.Outcomes.{HasOutcome, process_signal-HasOutcome}

module _ {D : Type 0} ⦃d : Decimal D⦄ where
  -- At most so many signals with a property go to the manager, in any surroundings.
  pub data Submits (Allowed : Signal D → Type 0)
      : ℕ → OrderManager D → OrderManager D → Type 0 where
    done : {m : OrderManager D} → Submits Allowed 0 m m
    pass : {n : ℕ} {m t : OrderManager D} → Submits Allowed n m t → Submits Allowed (suc n) m t
    next :
        {n : ℕ} {m t : OrderManager D} (w : Surroundings D) (signal : Signal D)
        → Allowed signal
        → Submits Allowed n (process_signal w signal m).1 t
        → Submits Allowed (suc n) m t

  -- An order for a signal with a property, on the side of its strength.
  abbrev pub OrderedFor : (Signal D → Type 0) → Order D → Type 0
  OrderedFor Allowed row =
      (signal : Signal D) × Allowed signal
      × (row.symbol ≡ signal.symbol)
      × (row.side ≡ (if d.lt zero_d signal.strength then buy else sell))

  -- At most so many orders are new, and each is for a signal with the property.
  abbrev pub Adds : (Order D → Type 0) → ℕ → List (Order D) → List (Order D) → Type 0
  Adds P n before after =
      (rows : List (Order D)) × (after ≡ before ++ rows) × (length rows ≤ n) × All P rows

  Adds-one :
      (Allowed : Signal D → Type 0) (signal : Signal D) (m : OrderManager D)
      → Allowed signal
      → (w : Surroundings D) (rt : Result (Option ℕ) × OrderManager D) → HasOutcome w signal m rt
      → Adds (OrderedFor Allowed) 1 m.broker.orders rt.1.broker.orders
  Adds-one Allowed signal m a w (ok (some id), t)
        (live, free, (row, stored, (i, y, side, s, big), sent), logged) =
      (row ∷ [], stored, omega arith, ((signal, a, y, side), tt))
  Adds-one Allowed signal m a w (ok none, t) ((o, b, p), l) =
      ([], o ∙ sym (append-nil m.broker.orders), omega arith, tt)
  Adds-one Allowed signal m a w (err e, t) (inl (o, b, l)) =
      ([], o ∙ sym (append-nil m.broker.orders), omega arith, tt)
  Adds-one Allowed signal m a w (err e, t)
        (inr (fails, (row, stored, (i, y, side, s, big), sent), kept)) =
      (row ∷ [], stored, omega arith, ((signal, a, y, side), tt))

  Adds-zero : (P : Order D → Type 0) (n : ℕ) (orders : List (Order D)) → Adds P n orders orders
  Adds-zero P n orders = ([], sym (append-nil orders), omega arith, tt)

  Adds-trans :
      (P : Order D → Type 0) (k n : ℕ) (a b c : List (Order D))
      → Adds P k a b
      → Adds P n b c
      → Adds P (k + n) a c
  Adds-trans P k n a b c (xs, p, l, ps) (ys, q, h, qs) = (
    xs ++ ys,
    q ∙ ap (λ z. z ++ ys) p ∙ append_assoc a xs ys,
    omega (arith, length-append xs ys),
    All-append P xs ys ps qs,
  )

  -- Such a sequence adds at most one order for each signal, and no other.
  pub Submits-Adds :
      (Allowed : Signal D → Type 0) {n : ℕ} {m t : OrderManager D}
      → Submits Allowed n m t
      → Adds (OrderedFor Allowed) n m.broker.orders t.broker.orders
  Submits-Adds Allowed {m} done = Adds-zero (OrderedFor Allowed) 0 m.broker.orders
  Submits-Adds Allowed (pass rest) =
      let (rows, p, l, ps) = Submits-Adds Allowed rest in (rows, p, omega arith, ps)
  Submits-Adds Allowed {m} {t} (next {n} w signal a rest) =
      subst (λ k. Adds (OrderedFor Allowed) k m.broker.orders t.broker.orders) (omega arith)
        (Adds-trans (OrderedFor Allowed) 1 n _ _ _
          (Adds-one Allowed signal m a w (process_signal w signal m)
            (process_signal-HasOutcome w signal m))
          (Submits-Adds Allowed rest))
