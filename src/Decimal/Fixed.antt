-- ===== src/Decimal/Fixed.antt =====
-- A concrete `Decimal`: signed multiples of 10^-6, with products, quotients and excess digits cut
-- off towards zero.
use native.Mathlib.Nat.{one-le-pow}
use polara_quant.Base.{
  ℕ, suc, ◌+◌, ◌-◌, ◌*◌, ◌/◌, ◌%◌, ◌^◌, ◌≤◌, ◌≡◌, refl, true, arith, nat_beq, if◌then◌else◌,
}
use polara_quant.Base.Int.{
  ℤ, pos, negsuc, pos_part, neg_part, sub_ℕ, size, ◌+ℤ◌, ◌-ℤ◌, leb_ℤ, ltb_ℤ,
}
use polara_quant.Decimal.Ops.{Decimal}
use polara_quant.Decimal.Laws.{IsDecimal}

abbrev pub Fixed : Type 0
Fixed = ℤ

-- `n` with the sign that a product or quotient of `a` and `b` has.
unfoldable pub signed : ℤ → ℤ → ℕ → ℤ
signed (pos _) (pos _) n = pos n
signed (pos _) (negsuc _) n = sub_ℕ 0 n
signed (negsuc _) (pos _) n = sub_ℕ 0 n
signed (negsuc _) (negsuc _) n = pos n

unfoldable pub fixed_lit : ℕ → ℕ → ℤ
fixed_lit n k = pos (n * 1_000_000 / 10 ^ k)

unfoldable pub fixed_mul : ℤ → ℤ → ℤ
unfolding signed
fixed_mul a b = signed a b (size a * size b / 1_000_000)

unfoldable pub fixed_div : ℤ → ℤ → ℤ
unfolding signed
fixed_div a b = signed a b (size a * 1_000_000 / size b)

-- The number of units in one step of k digits.
unfoldable pub step : ℕ → ℕ
step k = 10 ^ (6 - k)

unfoldable pub fixed_round_down : ℕ → ℤ → ℤ
unfolding signed step
fixed_round_down k a = signed a (pos 0) (size a - size a % step k)

unfoldable pub fixed_round_up : ℕ → ℤ → ℤ
unfolding signed step
fixed_round_up k a =
    signed a (pos 0)
      (if nat_beq (size a % step k) 0 then size a else size a - size a % step k + step k)

unfoldable pub fixed_trunc : ℤ → ℤ
unfolding signed
fixed_trunc a = signed a (pos 0) (size a / 1_000_000)

instance abbrev pub fixed : Decimal ℤ
fixed = record {
  lit = fixed_lit;
  add = ◌+ℤ◌;
  sub = ◌-ℤ◌;
  mul = fixed_mul;
  div = fixed_div;
  neg = λ a. pos 0 -ℤ a;
  lt = ltb_ℤ;
  le = leb_ℤ;
  eq = λ a b. nat_beq (pos_part a + neg_part b) (pos_part b + neg_part a);
  round_down = fixed_round_down;
  round_up = fixed_round_up;
  trunc = fixed_trunc;
}

fixed_le_refl : (a : ℤ) → leb_ℤ a a ≡ true
fixed_le_refl a = ground arith

fixed_le_trans : (a b c : ℤ) → leb_ℤ a b ≡ true → leb_ℤ b c ≡ true → leb_ℤ a c ≡ true
fixed_le_trans a b c p q = ground arith

fixed_sub-le : (a b : ℤ) → leb_ℤ (pos 0) b ≡ true → leb_ℤ (a -ℤ b) a ≡ true
unfolding ◌-ℤ◌
fixed_sub-le a b h = ground arith

fixed_le-add : (a b : ℤ) → leb_ℤ (pos 0) b ≡ true → leb_ℤ a (a +ℤ b) ≡ true
unfolding ◌+ℤ◌
fixed_le-add a b h = ground arith

fixed_sub_nonpos : (a b : ℤ) → leb_ℤ a b ≡ true → leb_ℤ (a -ℤ b) (pos 0) ≡ true
unfolding ◌-ℤ◌
fixed_sub_nonpos a b h = ground arith

fixed_neg_nonneg : (a : ℤ) → leb_ℤ a (pos 0) ≡ true → leb_ℤ (pos 0) (pos 0 -ℤ a) ≡ true
unfolding ◌-ℤ◌
fixed_neg_nonneg a h = ground arith

fixed_neg_nonpos : (a : ℤ) → leb_ℤ (pos 0) a ≡ true → leb_ℤ (pos 0 -ℤ a) (pos 0) ≡ true
unfolding ◌-ℤ◌
fixed_neg_nonpos a h = ground arith

scaled-le : (m n : ℕ) → n ≤ 1_000_000 → m * n / 1_000_000 ≤ m
scaled-le m n h = let k : m * n ≤ m * 1_000_000 = grind arith in omega arith

le-scaled : (m n : ℕ) → 1_000_000 ≤ n → m ≤ m * n / 1_000_000
le-scaled m n h = let k : m * 1_000_000 ≤ m * n = grind arith in omega arith

divided-le : (m n : ℕ) → 1_000_000 ≤ n → m * 1_000_000 / n ≤ m
divided-le m n h = let k : m * 1_000_000 ≤ m * n = grind arith in grind arith

fixed_mul-le :
    (a b : ℤ)
    → leb_ℤ (pos 0) a ≡ true
    → leb_ℤ b (pos 1_000_000) ≡ true
    → leb_ℤ (fixed_mul a b) a ≡ true
unfolding fixed_mul
fixed_mul-le (pos a) (pos b) p q = ground (arith, scaled-le a b)
fixed_mul-le (pos a) (negsuc b) p q = ground arith
fixed_mul-le (negsuc a) b p q = ground arith

fixed_le-mul :
    (a b : ℤ)
    → leb_ℤ (pos 0) a ≡ true
    → leb_ℤ (pos 1_000_000) b ≡ true
    → leb_ℤ a (fixed_mul a b) ≡ true
unfolding fixed_mul
fixed_le-mul (pos a) (pos b) p q = ground (arith, le-scaled a b)
fixed_le-mul (pos a) (negsuc b) p q = ground arith
fixed_le-mul (negsuc a) b p q = ground arith

fixed_round_down-le :
    (k : ℕ) (x a : ℤ)
    → leb_ℤ x a ≡ true
    → leb_ℤ (pos 0) a ≡ true
    → leb_ℤ (fixed_round_down k x) a ≡ true
unfolding fixed_round_down
fixed_round_down-le k (pos x) a p q = ground arith
fixed_round_down-le k (negsuc x) a p q = ground arith

fixed_le-round_up : (k : ℕ) (x : ℤ) → leb_ℤ (pos 0) x ≡ true → leb_ℤ x (fixed_round_up k x) ≡ true
unfolding fixed_round_up
fixed_le-round_up k (pos x) p = ground (arith, one-le-pow (6 - k) 10)
fixed_le-round_up k (negsuc x) p = ground arith

fixed_mul_nonneg :
    (a b : ℤ)
    → leb_ℤ (pos 0) a ≡ true
    → leb_ℤ (pos 0) b ≡ true
    → leb_ℤ (pos 0) (fixed_mul a b) ≡ true
unfolding fixed_mul
fixed_mul_nonneg (pos a) (pos b) p q = ground arith
fixed_mul_nonneg (pos a) (negsuc b) p q = ground arith
fixed_mul_nonneg (negsuc a) b p q = ground arith

fixed_div_nonneg :
    (a b : ℤ)
    → leb_ℤ (pos 0) a ≡ true
    → ltb_ℤ (pos 0) b ≡ true
    → leb_ℤ (pos 0) (fixed_div a b) ≡ true
unfolding fixed_div
fixed_div_nonneg (pos a) (pos b) p q = ground arith
fixed_div_nonneg (pos a) (negsuc b) p q = ground arith
fixed_div_nonneg (negsuc a) b p q = ground arith

fixed_div_nonpos :
    (a b : ℤ)
    → leb_ℤ (pos 0) a ≡ true
    → ltb_ℤ b (pos 0) ≡ true
    → leb_ℤ (fixed_div a b) (pos 0) ≡ true
unfolding fixed_div
fixed_div_nonpos (pos a) (pos b) p q = ground arith
fixed_div_nonpos (pos a) (negsuc b) p q = ground arith
fixed_div_nonpos (negsuc a) b p q = ground arith

fixed_round_down_nonneg :
    (k : ℕ) (x : ℤ) → leb_ℤ (pos 0) x ≡ true → leb_ℤ (pos 0) (fixed_round_down k x) ≡ true
unfolding fixed_round_down
fixed_round_down_nonneg k (pos x) p = ground arith
fixed_round_down_nonneg k (negsuc x) p = ground arith

fixed_lit_nonneg : (n k : ℕ) → leb_ℤ (pos 0) (fixed_lit n k) ≡ true
unfolding fixed_lit
fixed_lit_nonneg n k = ground arith

fixed_lit_pos : (n : ℕ) → ltb_ℤ (pos 0) (fixed_lit (suc n) 0) ≡ true
unfolding fixed_lit
fixed_lit_pos n = ground arith

fixed_sub_nonneg : (a b : ℤ) → leb_ℤ b a ≡ true → leb_ℤ (pos 0) (a -ℤ b) ≡ true
unfolding ◌-ℤ◌
fixed_sub_nonneg a b h = ground arith

fixed_div-le :
    (a b : ℤ)
    → leb_ℤ (pos 0) a ≡ true
    → leb_ℤ (pos 1_000_000) b ≡ true
    → leb_ℤ (fixed_div a b) a ≡ true
unfolding fixed_div
fixed_div-le (pos a) (pos b) p q = ground (arith, divided-le a b)
fixed_div-le (pos a) (negsuc b) p q = ground arith
fixed_div-le (negsuc a) b p q = ground arith

-- The laws can hold.
pub Fixed-IsDecimal : IsDecimal ℤ
unfolding fixed_lit
Fixed-IsDecimal = record {
  le_refl = fixed_le_refl;
  le_trans = fixed_le_trans;
  le_total = λ a b. ground arith;
  lt-eq-not-le = λ a b. ground arith;
  eq-eq-le = λ a b. ground arith;
  one_nonneg = refl;
  hundred_pos = refl;
  lit_nonneg = fixed_lit_nonneg;
  lit_pos = fixed_lit_pos;
  neg_nonneg = fixed_neg_nonneg;
  neg_nonpos = fixed_neg_nonpos;
  sub_nonpos = fixed_sub_nonpos;
  sub-le = fixed_sub-le;
  sub_nonneg = fixed_sub_nonneg;
  le-add = fixed_le-add;
  mul-le = fixed_mul-le;
  le-mul = fixed_le-mul;
  mul_nonneg = fixed_mul_nonneg;
  div_nonneg = fixed_div_nonneg;
  div-le = fixed_div-le;
  div_nonpos = fixed_div_nonpos;
  round_down-le = fixed_round_down-le;
  round_down_nonneg = fixed_round_down_nonneg;
  le-round_up = fixed_le-round_up;
}
