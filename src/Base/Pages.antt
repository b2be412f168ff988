-- ===== src/Base/Pages.antt =====
-- SELECT ... WHERE ... ORDER BY ... DESC LIMIT ..., and what it answers.
use Prim.Native.Nat.{ℕ, zero, suc, ◌≤◌, min}
use mathlib.Core.Path.{◌≡◌, refl, sym, ap, ◌∙◌}
use mathlib.Core.Logic.{◌⊎◌, inl, inr}
use mathlib.Core.Bool.{Bool, true}
use mathlib.Core.List.{List, [], ◌∷◌}
use native.Mathlib.Omega.{arith}
use polara_quant.Base.Lists.{
  All, All-map, All-take, All-keep, Any, Any-map, Any-All, Any-witness, Any-keep, length, keep,
  take,
}
use polara_quant.Base.Sorting.{
  order_desc, IsDescending, order_desc-IsDescending, length-keep-order_desc, All-order_desc,
  Any-order_desc,
}

module _ {A : Type 0} (key : A → ℕ) (p : A → Bool) where
  abbrev pub page : ℕ → List A → List A
  page limit table = take limit (order_desc key (keep p table))

-- The answer to a query for the rows with `p`, at most `limit` and those of the largest keys first.
pub record IsPage {A : Type 0} (key : A → ℕ) (p : A → Bool) (limit : ℕ) (table answer : List A)
    : Type 1 where
  -- It is in order, its rows have the test, and there are as many as there can be.
  pub ordered : IsDescending key answer
  pub matching : All (λ x. p x ≡ true) answer
  pub filled : length answer ≡ min limit (length (keep p table))
  -- No row of the table is repeated, and none is made up.
  pub drawn : (q : A → Bool) → length (keep q answer) ≤ length (keep q table)
  -- A matching row that is left out has no larger key than those of the answer.
  pub covered :
      (P : A → Type 0)
      → ((x : A) → P x → p x ≡ true)
      → Any P table
      → Any P answer ⊎ ((x : A) × P x × All (λ y. key x ≤ key y) answer)

module _ {A : Type 0} where
  length-take-eq-min : (n : ℕ) (xs : List A) → length (take n xs) ≡ min n (length xs)
  length-take-eq-min zero xs = omega arith
  length-take-eq-min (suc n) [] = omega arith
  length-take-eq-min (suc n) (x ∷ xs) = omega (arith, length-take-eq-min n xs)

  length-keep-take-le :
      (q : A → Bool) (n : ℕ) (xs : List A) → length (keep q (take n xs)) ≤ length (keep q xs)
  length-keep-take-le q zero xs = omega arith
  length-keep-take-le q (suc n) [] = omega arith
  length-keep-take-le q (suc n) (x ∷ xs) = ground (arith, length-keep-take-le q n xs)

  length-keep-keep-le :
      (p q : A → Bool) (xs : List A) → length (keep q (keep p xs)) ≤ length (keep q xs)
  length-keep-keep-le p q [] = omega arith
  length-keep-keep-le p q (x ∷ xs) = ground (arith, length-keep-keep-le p q xs)

  keep_all : (xs : List A) → keep (λ x. true) xs ≡ xs
  keep_all [] = refl
  keep_all (x ∷ xs) = ap (◌∷◌ x) (keep_all xs)

module _ {A : Type 0} (key : A → ℕ) where
  take-IsDescending : (n : ℕ) (xs : List A) → IsDescending key xs → IsDescending key (take n xs)
  take-IsDescending zero xs h = tt
  take-IsDescending (suc n) [] h = tt
  take-IsDescending (suc n) (x ∷ xs) (below, h) =
      (All-take (λ y. key y ≤ key x) n xs below, take-IsDescending n xs h)

  take-covers_le :
      (P : A → Type 0) (n : ℕ) (xs : List A)
      → IsDescending key xs
      → Any P xs
      → Any P (take n xs) ⊎ ((x : A) × P x × All (λ y. key x ≤ key y) (take n xs))
  take-covers_le P n [] h p = absurd p
  take-covers_le P zero (x ∷ xs) h p = let (y, q) = Any-witness P (x ∷ xs) p in inr (y, q, tt)
  take-covers_le P (suc n) (x ∷ xs) (below, h) (inl p) = inl (inl p)
  take-covers_le P (suc n) (x ∷ xs) (below, h) (inr r) =
      elim (take-covers_le (λ y. P y × (key y ≤ key x)) n xs h
        (Any-All P (λ y. key y ≤ key x) xs r below)) [
          | inl found ↦ inl (inr (Any-map (λ y t. t.0) (take n xs) found))
          | inr (y, q, all) ↦ inr (y, q.0, (q.1, all))
        ]

module _ {A : Type 0} (key : A → ℕ) (p : A → Bool) (limit : ℕ) (table : List A) where
  length-ordered : length (order_desc key (keep p table)) ≡ length (keep p table)
  length-ordered =
      ap length (sym (keep_all (order_desc key (keep p table))))
      ∙ (length-keep-order_desc key (λ x. true) (keep p table)
          ∙ ap length (keep_all (keep p table)))

  pub page-IsPage : IsPage key p limit table (page key p limit table)
  page-IsPage = record {
    ordered = take-IsDescending key limit _ (order_desc-IsDescending key (keep p table));
    matching = All-take _ limit _ (
        All-order_desc key _ _
          (All-map (λ x t. t.1) _ (All-keep (λ x. Unit {0}) p table (all_units table))));
    filled =
        length-take-eq-min limit (order_desc key (keep p table)) ∙ ap (min limit) length-ordered;
    drawn = λ q. omega (
      arith,
      length-keep-take-le q limit (order_desc key (keep p table)),
      length-keep-order_desc key q (keep p table),
      length-keep-keep-le p q table,
    );
    covered = λ P passes h.
        take-covers_le key P limit _ (order_desc-IsDescending key (keep p table))
          (Any-order_desc key P _ (Any-keep P p table passes h));
  }
    where
      all_units : (xs : List A) → All (λ x. Unit {0}) xs
      all_units [] = tt
      all_units (x ∷ xs) = (tt, all_units xs)
