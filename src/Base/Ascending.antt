-- ===== src/Base/Ascending.antt =====
-- `xs.sort(key=...)`: a stable sort by a strict order on keys, and the order of texts.
use Prim.Native.Nat.{ℕ}
use mathlib.Core.Path.{◌≡◌, refl}
use mathlib.Core.Logic.{inl, inr}
use mathlib.Core.Bool.{Bool, true, false}
use mathlib.Core.List.{List, [], ◌∷◌}
use native.Mathlib.Omega.{arith}
use polara_quant.Base.Tests.{ltb, nat_beq, if◌then◌else◌, Bool-cases}
use polara_quant.Base.Lists.{All, All-map, length, keep}

-- Texts are compared by their code points.
abbrev pub codes_lt : List ℕ → List ℕ → Bool
codes_lt [] [] = false
codes_lt [] (e ∷ es) = true
codes_lt (c ∷ cs) [] = false
codes_lt (c ∷ cs) (e ∷ es) =
    let rest = codes_lt cs es in if ltb c e then true else if nat_beq c e then rest else false

pub codes_lt_asymm : (a b : List ℕ) → codes_lt a b ≡ true → codes_lt b a ≡ false
codes_lt_asymm [] [] h = refl
codes_lt_asymm [] (e ∷ es) h = refl
codes_lt_asymm (c ∷ cs) [] h = cc
codes_lt_asymm (c ∷ cs) (e ∷ es) h = ground (arith, codes_lt_asymm cs es)

pub not_codes_lt_trans :
    (a b c : List ℕ) → codes_lt a b ≡ false → codes_lt b c ≡ false → codes_lt a c ≡ false
not_codes_lt_trans [] [] c p q = q
not_codes_lt_trans [] (b ∷ bs) c p q = cc
not_codes_lt_trans (a ∷ as') [] [] p q = refl
not_codes_lt_trans (a ∷ as') [] (c ∷ cs) p q = cc
not_codes_lt_trans (a ∷ as') (b ∷ bs) [] p q = refl
not_codes_lt_trans (a ∷ as') (b ∷ bs) (c ∷ cs) p q = ground (arith, not_codes_lt_trans as' bs cs)

module _ {A : Type 0} (before : A → A → Bool) where
  abbrev pub insert_asc : A → List A → List A
  insert_asc x [] = x ∷ []
  insert_asc x (y ∷ ys) = if before y x then y ∷ insert_asc x ys else x ∷ (y ∷ ys)

  abbrev pub sort_by : List A → List A
  sort_by [] = []
  sort_by (x ∷ xs) = insert_asc x (sort_by xs)

  -- No element comes after one that it is before.
  abbrev pub IsAscending : List A → Type 0
  IsAscending [] = Unit {0}
  IsAscending (x ∷ xs) = All (λ y. before y x ≡ false) xs × IsAscending xs

  All-insert_asc : (P : A → Type 0) (x : A) (xs : List A) → P x → All P xs → All P (insert_asc x xs)
  All-insert_asc P x [] p ps = (p, tt)
  All-insert_asc P x (y ∷ ys) p (q, qs) = elim (Bool-cases (before y x)) [
    | inl later ↦ rw later (q, All-insert_asc P x ys p qs)
    | inr first ↦ rw first (p, (q, qs))
  ]

  pub length-keep-insert_asc :
      (q : A → Bool) (x : A) (xs : List A)
      → length (keep q (insert_asc x xs)) ≡ length (keep q (x ∷ xs))
  length-keep-insert_asc q x [] = refl
  length-keep-insert_asc q x (y ∷ ys) = ground (arith, length-keep-insert_asc q x ys)

  pub length-keep-sort_by :
      (q : A → Bool) (xs : List A) → length (keep q (sort_by xs)) ≡ length (keep q xs)
  length-keep-sort_by q [] = refl
  length-keep-sort_by q (x ∷ xs) =
      ground (arith, length-keep-insert_asc q x (sort_by xs), length-keep-sort_by q xs)

  pub All-sort_by : (P : A → Type 0) (xs : List A) → All P xs → All P (sort_by xs)
  All-sort_by P [] a = tt
  All-sort_by P (x ∷ xs) (p, ps) = All-insert_asc P x (sort_by xs) p (All-sort_by P xs ps)

  module _ (asymm : (a b : A) → before a b ≡ true → before b a ≡ false)
      (trans : (a b c : A) → before a b ≡ false → before b c ≡ false → before a c ≡ false) where
    insert_asc-IsAscending : (x : A) (xs : List A) → IsAscending xs → IsAscending (insert_asc x xs)
    insert_asc-IsAscending x [] h = (tt, tt)
    insert_asc-IsAscending x (y ∷ ys) (above, h) = elim (Bool-cases (before y x)) [
      | inl later ↦ rw later (
        All-insert_asc (λ z. before z y ≡ false) x ys (asymm y x later) above,
        insert_asc-IsAscending x ys h,
      )
      | inr first ↦ rw first ((first, All-map (λ z p. trans z y x p first) ys above), (above, h))
    ]

    pub sort_by-IsAscending : (xs : List A) → IsAscending (sort_by xs)
    sort_by-IsAscending [] = tt
    sort_by-IsAscending (x ∷ xs) = insert_asc-IsAscending x (sort_by xs) (sort_by-IsAscending xs)
