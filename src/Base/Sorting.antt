-- ===== src/Base/Sorting.antt =====
-- ORDER BY ... DESC and LIMIT of the database.
use Prim.Native.Nat.{ℕ, zero, suc, ◌≤◌, ◌<◌}
use mathlib.Core.Path.{◌≡◌, refl, ap}
use mathlib.Core.Logic.{◌≢◌, ◌⊎◌, inl, inr}
use mathlib.Core.Bool.{Bool}
use mathlib.Core.List.{List, [], ◌∷◌}
use native.Mathlib.Omega.{arith}
use polara_quant.Base.Tests.{ltb, if◌then◌else◌, Bool-cases}
use polara_quant.Base.Lists.{
  All, All-map, Any, reverse_onto, length, keep, take, All-take, Any-map, Any-All, Any-witness,
}

-- ORDER BY a key DESC; among equal keys the order is that of the table.
abbrev pub insert_desc : {A : Type 0} → (A → ℕ) → A → List A → List A
insert_desc key x [] = x ∷ []
insert_desc key x (y ∷ ys) = if ltb (key x) (key y) then y ∷ insert_desc key x ys else x ∷ (y ∷ ys)

abbrev pub order_desc : {A : Type 0} → (A → ℕ) → List A → List A
order_desc key [] = []
order_desc key (x ∷ xs) = insert_desc key x (order_desc key xs)

-- No later element has a larger key.
abbrev pub IsDescending : {A : Type 0} → (A → ℕ) → List A → Type 0
IsDescending key [] = Unit {0}
IsDescending key (x ∷ xs) = All (λ y. key y ≤ key x) xs × IsDescending key xs

module _ {A : Type 0} (key : A → ℕ) where
  All-insert_desc :
      (P : A → Type 0) (x : A) (xs : List A) → P x → All P xs → All P (insert_desc key x xs)
  All-insert_desc P x [] p ps = (p, tt)
  All-insert_desc P x (y ∷ ys) p (q, qs) = elim (Bool-cases (ltb (key x) (key y))) [
    | inl later ↦ rw later (q, All-insert_desc P x ys p qs)
    | inr first ↦ rw first (p, (q, qs))
  ]

  All-weaken : (m n : ℕ) (xs : List A) → m ≤ n → All (λ y. key y ≤ m) xs → All (λ y. key y ≤ n) xs
  All-weaken m n [] h a = tt
  All-weaken m n (x ∷ xs) h (p, ps) = (omega arith, All-weaken m n xs h ps)

  insert_desc-IsDescending :
      (x : A) (xs : List A) → IsDescending key xs → IsDescending key (insert_desc key x xs)
  insert_desc-IsDescending x [] h = (tt, tt)
  insert_desc-IsDescending x (y ∷ ys) (below, h) = elim (Bool-cases (ltb (key x) (key y))) [
    | inl later ↦ rw later (
      All-insert_desc (λ z. key z ≤ key y) x ys (ground arith) below,
      insert_desc-IsDescending x ys h,
    )
    | inr first ↦
        let top : key y ≤ key x = ground arith in
        rw first ((top, All-weaken (key y) (key x) ys top below), (below, h))
  ]

  pub order_desc-IsDescending : (xs : List A) → IsDescending key (order_desc key xs)
  order_desc-IsDescending [] = tt
  order_desc-IsDescending (x ∷ xs) =
      insert_desc-IsDescending x (order_desc key xs) (order_desc-IsDescending xs)

  length-keep-insert_desc :
      (p : A → Bool) (x : A) (xs : List A)
      → length (keep p (insert_desc key x xs)) ≡ length (keep p (x ∷ xs))
  length-keep-insert_desc p x [] = refl
  length-keep-insert_desc p x (y ∷ ys) = ground (arith, length-keep-insert_desc p x ys)

  pub length-keep-order_desc :
      (p : A → Bool) (xs : List A) → length (keep p (order_desc key xs)) ≡ length (keep p xs)
  length-keep-order_desc p [] = refl
  length-keep-order_desc p (x ∷ xs) =
      ground (arith, length-keep-insert_desc p x (order_desc key xs), length-keep-order_desc p xs)

  -- No two elements have the same key, and each key is smaller than the one before.
  abbrev pub AreApart : List A → Type 0
  AreApart [] = Unit {0}
  AreApart (x ∷ xs) = All (λ y. key y ≢ key x) xs × AreApart xs

  abbrev pub IsFalling : List A → Type 0
  IsFalling [] = Unit {0}
  IsFalling (x ∷ xs) = All (λ y. key y < key x) xs × IsFalling xs

  pub All-order_desc : (P : A → Type 0) (xs : List A) → All P xs → All P (order_desc key xs)
  All-order_desc P [] p = tt
  All-order_desc P (x ∷ xs) (p, ps) =
      All-insert_desc P x (order_desc key xs) p (All-order_desc P xs ps)

  Any-insert_desc :
      (P : A → Type 0) (x : A) (xs : List A) → P x ⊎ Any P xs → Any P (insert_desc key x xs)
  Any-insert_desc P x [] h = h
  Any-insert_desc P x (y ∷ ys) h = elim (Bool-cases (ltb (key x) (key y))) [
    | inl later ↦ rw later (elim h [
      | inl p ↦ inr (Any-insert_desc P x ys (inl p))
      | inr t ↦ elim t [ inl q ↦ inl q | inr r ↦ inr (Any-insert_desc P x ys (inr r)) ]
    ])
    | inr first ↦ rw first h
  ]

  pub Any-order_desc : (P : A → Type 0) (xs : List A) → Any P xs → Any P (order_desc key xs)
  Any-order_desc P [] h = h
  Any-order_desc P (x ∷ xs) (inl p) = Any-insert_desc P x (order_desc key xs) (inl p)
  Any-order_desc P (x ∷ xs) (inr r) =
      Any-insert_desc P x (order_desc key xs) (inr (Any-order_desc P xs r))

  All-lt : (m n : ℕ) (xs : List A) → m < n → All (λ y. key y < m) xs → All (λ y. key y < n) xs
  All-lt m n [] h a = tt
  All-lt m n (x ∷ xs) h (p, ps) = (omega arith, All-lt m n xs h ps)

  insert_desc-IsFalling :
      (x : A) (xs : List A)
      → All (λ y. key y ≢ key x) xs
      → IsFalling xs
      → IsFalling (insert_desc key x xs)
  insert_desc-IsFalling x [] ne h = (tt, tt)
  insert_desc-IsFalling x (y ∷ ys) (n, ne) (below, h) = elim (Bool-cases (ltb (key x) (key y))) [
    | inl later ↦ rw later (
      All-insert_desc (λ z. key z < key y) x ys (ground arith) below,
      insert_desc-IsFalling x ys ne h,
    )
    | inr first ↦
        let top : key y < key x = ground arith in
        rw first ((top, All-lt (key y) (key x) ys top below), (below, h))
  ]

  pub order_desc-IsFalling : (xs : List A) → AreApart xs → IsFalling (order_desc key xs)
  order_desc-IsFalling [] h = tt
  order_desc-IsFalling (x ∷ xs) (ne, h) =
      insert_desc-IsFalling x (order_desc key xs) (All-order_desc (λ y. key y ≢ key x) xs ne)
        (order_desc-IsFalling xs h)

  pub take-IsFalling : (n : ℕ) (xs : List A) → IsFalling xs → IsFalling (take n xs)
  take-IsFalling zero xs h = tt
  take-IsFalling (suc n) [] h = tt
  take-IsFalling (suc n) (x ∷ xs) (below, h) =
      (All-take (λ y. key y < key x) n xs below, take-IsFalling n xs h)

  -- What LIMIT leaves out has a smaller key than all that it takes, which are then as many as it says.
  pub take-covers :
      (P : A → Type 0) (n : ℕ) (xs : List A)
      → IsFalling xs
      → Any P xs
      → Any P (take n xs)
        ⊎ ((length (take n xs) ≡ n) × ((x : A) × P x × All (λ y. key x < key y) (take n xs)))
  take-covers P n [] h p = absurd p
  take-covers P zero (x ∷ xs) h p = let (y, q) = Any-witness P (x ∷ xs) p in inr (refl, (y, q, tt))
  take-covers P (suc n) (x ∷ xs) (below, h) (inl p) = inl (inl p)
  take-covers P (suc n) (x ∷ xs) (below, h) (inr r) =
      elim (take-covers (λ y. P y × (key y < key x)) n xs h
        (Any-All P (λ y. key y < key x) xs r below)) [
          | inl found ↦ inl (inr (Any-map (λ y t. t.0) (take n xs) found))
          | inr (len, (y, q, all)) ↦ inr (ap suc len, (y, q.0, (q.1, all)))
        ]

  -- The reverse order.
  abbrev pub IsRising : List A → Type 0
  IsRising [] = Unit {0}
  IsRising (x ∷ xs) = All (λ y. key x < key y) xs × IsRising xs

  pub reverse_onto-IsRising :
      (acc xs : List A)
      → IsRising acc
      → IsFalling xs
      → All (λ a. All (λ x. key x < key a) xs) acc
      → IsRising (reverse_onto acc xs)
  reverse_onto-IsRising acc [] r h a = r
  reverse_onto-IsRising acc (x ∷ xs) r (below, h) a =
      reverse_onto-IsRising (x ∷ acc) xs (All-map (λ y t. t.0) acc a, r) h
        (below, All-map (λ y t. t.1) acc a)
