-- ===== src/Decimal/Ops.antt =====
-- The operations of `Decimal`, and the small functions of Python's built-ins over them.
use polara_quant.Base.{ℕ, suc, Bool, not, Option, none, some, List, [], ◌∷◌, if◌then◌else◌}
use polara_quant.Base.Int.{ℤ, pos, negsuc}

pub record Decimal (D : Type 0) : Type 0 where
  -- `lit n k` is the literal n / 10^k: `Decimal("0.01")` is `lit 1 2`.
  pub lit : ℕ → ℕ → D
  pub add : D → D → D
  pub sub : D → D → D
  pub mul : D → D → D
  pub div : D → D → D
  pub neg : D → D
  pub lt : D → D → Bool
  pub le : D → D → Bool
  pub eq : D → D → Bool
  -- `quantize(Decimal("0.01"), rounding=ROUND_DOWN)` is `round_down 2`.
  pub round_down : ℕ → D → D
  pub round_up : ℕ → D → D
  -- `int(x)`
  pub trunc : D → ℤ

module _ {D : Type 0} ⦃d : Decimal D⦄ where
  abbrev pub zero_d : D
  zero_d = d.lit 0 0

  -- `Decimal(n)` for an `int` that is not negative.
  abbrev pub of_nat : ℕ → D
  of_nat n = d.lit n 0

  -- `abs(x)`
  abbrev pub abs : D → D
  abs x = if d.lt x zero_d then d.neg x else x

  -- `max(a, b)`: Python keeps the first of two equal arguments.
  abbrev pub max_d : D → D → D
  max_d a b = if d.lt a b then b else a

  -- `bool(x)` of a `Decimal`, and of an optional one.
  abbrev pub truthy : D → Bool
  truthy x = not (d.eq x zero_d)

  abbrev pub truthy? : Option D → Bool
  truthy? none = Bool.false
  truthy? (some x) = truthy x

  -- `sum(xs, start)`
  abbrev pub sum_from : D → List D → D
  sum_from start [] = start
  sum_from start (x ∷ xs) = sum_from (d.add start x) xs

  -- `Decimal(n)` for any `int`.
  abbrev pub of_int : ℤ → D
  of_int (pos n) = of_nat n
  of_int (negsuc n) = d.neg (of_nat (suc n))

  -- `min(a, b)`, which keeps the first of two equal arguments.
  abbrev pub min_d : D → D → D
  min_d a b = if d.lt b a then b else a
