-- ===== src/Decimal/Laws.antt =====
-- What the theorems rely on of `Decimal`, for finite values of an ordinary size: the comparisons are
-- a total order, and the rounded operations respect it.
use polara_quant.Base.{ℕ, suc, ◌≡◌, ◌⊎◌, true, not, ◌&&◌, arith, false}
use polara_quant.Decimal.Ops.{Decimal, zero_d, abs}

infix 4 ◌≼◌
abbrev pub ◌≼◌ : {D : Type 0} ⦃d : Decimal D⦄ → D → D → Type 0
◌≼◌ ⦃d⦄ a b = d.le a b ≡ true

pub record IsDecimal (D : Type 0) ⦃d : Decimal D⦄ : Type 0 where
  pub le_refl : (a : D) → a ≼ a
  pub le_trans : (a b c : D) → a ≼ b → b ≼ c → a ≼ c
  pub le_total : (a b : D) → (a ≼ b) ⊎ (b ≼ a)
  pub lt-eq-not-le : (a b : D) → d.lt a b ≡ not (d.le b a)
  pub eq-eq-le : (a b : D) → d.eq a b ≡ (d.le a b && d.le b a)
  pub one_nonneg : zero_d ≼ d.lit 1 0
  pub hundred_pos : d.lt zero_d (d.lit 100 0) ≡ true
  pub lit_nonneg : (n k : ℕ) → zero_d ≼ d.lit n k
  pub lit_pos : (n : ℕ) → d.lt zero_d (d.lit (suc n) 0) ≡ true
  -- A sum or difference is on the side of its exact value.
  pub neg_nonneg : (a : D) → a ≼ zero_d → zero_d ≼ d.neg a
  pub neg_nonpos : (a : D) → zero_d ≼ a → d.neg a ≼ zero_d
  pub sub_nonpos : (a b : D) → a ≼ b → d.sub a b ≼ zero_d
  pub sub-le : (a b : D) → zero_d ≼ b → d.sub a b ≼ a
  pub sub_nonneg : (a b : D) → b ≼ a → zero_d ≼ d.sub a b
  pub le-add : (a b : D) → zero_d ≼ b → a ≼ d.add a b
  -- A product with a factor of at most one does not exceed the other factor, and so on.
  pub mul-le : (a b : D) → zero_d ≼ a → b ≼ d.lit 1 0 → d.mul a b ≼ a
  pub le-mul : (a b : D) → zero_d ≼ a → d.lit 1 0 ≼ b → a ≼ d.mul a b
  pub mul_nonneg : (a b : D) → zero_d ≼ a → zero_d ≼ b → zero_d ≼ d.mul a b
  pub div_nonneg : (a b : D) → zero_d ≼ a → d.lt zero_d b ≡ true → zero_d ≼ d.div a b
  pub div-le : (a b : D) → zero_d ≼ a → d.lit 1 0 ≼ b → d.div a b ≼ a
  pub div_nonpos : (a b : D) → zero_d ≼ a → d.lt b zero_d ≡ true → d.div a b ≼ zero_d
  -- ROUND_DOWN goes towards zero and ROUND_UP away from it.
  pub round_down-le : (k : ℕ) (x a : D) → x ≼ a → zero_d ≼ a → d.round_down k x ≼ a
  pub round_down_nonneg : (k : ℕ) (x : D) → zero_d ≼ x → zero_d ≼ d.round_down k x
  pub le-round_up : (k : ℕ) (x : D) → zero_d ≼ x → x ≼ d.round_up k x

-- Consequences.
module _ {D : Type 0} ⦃d : Decimal D⦄ (laws : IsDecimal D) where
  pub le_of_not_lt : (a b : D) → d.lt a b ≡ false → b ≼ a
  le_of_not_lt a b h = ground (arith, laws.lt-eq-not-le a b)

  pub le_of_lt : (a b : D) → d.lt a b ≡ true → a ≼ b
  le_of_lt a b h = ground (arith, laws.lt-eq-not-le a b, laws.le_total a b)

  pub not_lt_of_le : (a b : D) → a ≼ b → d.lt b a ≡ false
  not_lt_of_le a b h = ground (arith, laws.lt-eq-not-le b a)

  pub abs_nonneg : (x : D) → zero_d ≼ abs x
  abs_nonneg x =
      ground (arith, laws.lt-eq-not-le x zero_d, laws.le_total x zero_d, laws.neg_nonneg x)

  pub minus_one-le-one : d.neg (d.lit 1 0) ≼ d.lit 1 0
  minus_one-le-one =
      laws.le_trans _ zero_d _ (laws.neg_nonpos (d.lit 1 0) laws.one_nonneg) laws.one_nonneg
