-- ===== src/Base/Lists.antt =====
-- List functions over the native numbers, and predicates on all elements.
use Prim.Native.Nat.{ℕ, zero, suc, ◌+◌, ◌-◌, ◌≤◌}
use mathlib.Core.Path.{◌≡◌, refl}
use mathlib.Core.Logic.{◌⊎◌, inl, inr}
use mathlib.Core.Bool.{Bool, true}
use mathlib.Core.Option.{Option, none, some}
use mathlib.Core.List.{List, [], ◌∷◌, ◌++◌, map}
use native.Mathlib.Omega.{arith}
use polara_quant.Base.Tests.{if◌then◌else◌, Bool-cases}

module _ {ℓ} {A : Type ℓ} where
  abbrev pub length : List A → ℕ
  length [] = 0
  length (x ∷ xs) = suc (length xs)

  abbrev pub get_elem? : List A → ℕ → Option A
  get_elem? [] i = none
  get_elem? (x ∷ xs) zero = some x
  get_elem? (x ∷ xs) (suc i) = get_elem? xs i

  abbrev pub take : ℕ → List A → List A
  take zero xs = []
  take (suc n) [] = []
  take (suc n) (x ∷ xs) = x ∷ take n xs

  abbrev pub drop : ℕ → List A → List A
  drop zero xs = xs
  drop (suc n) [] = []
  drop (suc n) (x ∷ xs) = drop n xs

  abbrev pub replicate : ℕ → A → List A
  replicate zero x = []
  replicate (suc n) x = x ∷ replicate n x

  -- `xs[start:stop]`, for a start and a stop that are not negative.
  abbrev pub slice : ℕ → ℕ → List A → List A
  slice start stop xs = take (stop - start) (drop start xs)

  -- The element at an index, and the last one, of a list that has them.
  abbrev pub nth_or : A → List A → ℕ → A
  nth_or default [] i = default
  nth_or default (x ∷ xs) zero = x
  nth_or default (x ∷ xs) (suc i) = nth_or default xs i

  abbrev pub last_or : A → List A → A
  last_or default [] = default
  last_or default (x ∷ xs) = last_or x xs

  -- `next((x for x in xs if p(x)), None)`
  abbrev pub find_first : (A → Bool) → List A → Option A
  find_first p [] = none
  find_first p (x ∷ xs) = if p x then some x else find_first p xs

  -- `[x for x in xs if p(x)]`
  abbrev pub keep : (A → Bool) → List A → List A
  keep p [] = []
  keep p (x ∷ xs) = if p x then x ∷ keep p xs else keep p xs

  -- `[f(x) if p(x) else x for x in xs]`, the effect of an UPDATE with a WHERE clause.
  abbrev pub update_where : (A → Bool) → (A → A) → List A → List A
  update_where p f [] = []
  update_where p f (x ∷ xs) = (if p x then f x else x) ∷ update_where p f xs

  abbrev pub All {κ} : (A → Type κ) → List A → Type κ
  All P [] = Unit
  All P (x ∷ xs) = P x × All P xs

  pub length-append : (xs ys : List A) → length (xs ++ ys) ≡ length xs + length ys
  length-append [] ys = omega arith
  length-append (x ∷ xs) ys = omega (arith, length-append xs ys)

  pub length-update_where :
      (p : A → Bool) (f : A → A) (xs : List A) → length (update_where p f xs) ≡ length xs
  length-update_where p f [] = omega arith
  length-update_where p f (x ∷ xs) = omega (arith, length-update_where p f xs)

  pub All-map {κ μ} :
      {P : A → Type κ} {Q : A → Type μ}
      → ((x : A) → P x → Q x)
      → (xs : List A) → All P xs
      → All Q xs
  All-map f [] a = tt
  All-map f (x ∷ xs) (p, ps) = (f x p, All-map f xs ps)

  pub length-drop : (n : ℕ) (xs : List A) → length (drop n xs) ≡ length xs - n
  length-drop zero xs = omega arith
  length-drop (suc n) [] = omega arith
  length-drop (suc n) (x ∷ xs) = omega (arith, length-drop n xs)

  pub length-take_of_le : (n : ℕ) (xs : List A) → n ≤ length xs → length (take n xs) ≡ n
  length-take_of_le zero xs h = omega arith
  length-take_of_le (suc n) [] h = absurd (omega arith)
  length-take_of_le (suc n) (x ∷ xs) h = omega (arith, length-take_of_le n xs)

  pub length-take-le : (n : ℕ) (xs : List A) → length (take n xs) ≤ n
  length-take-le zero xs = omega arith
  length-take-le (suc n) [] = omega arith
  length-take-le (suc n) (x ∷ xs) = omega (arith, length-take-le n xs)

  pub length-replicate : (n : ℕ) (x : A) → length (replicate n x) ≡ n
  length-replicate zero x = omega arith
  length-replicate (suc n) x = omega (arith, length-replicate n x)

  pub All-append {κ} : (P : A → Type κ) (xs ys : List A) → All P xs → All P ys → All P (xs ++ ys)
  All-append P [] ys ps qs = qs
  All-append P (x ∷ xs) ys (p, ps) qs = (p, All-append P xs ys ps qs)

  abbrev pub Any : (A → Type 0) → List A → Type 0
  Any P [] = ⊥
  Any P (x ∷ xs) = P x ⊎ Any P xs

  pub Any-map : {P Q : A → Type 0} → ((x : A) → P x → Q x) → (xs : List A) → Any P xs → Any Q xs
  Any-map f [] h = h
  Any-map f (x ∷ xs) (inl p) = inl (f x p)
  Any-map f (x ∷ xs) (inr r) = inr (Any-map f xs r)

  pub Any-All : (P Q : A → Type 0) (xs : List A) → Any P xs → All Q xs → Any (λ x. P x × Q x) xs
  Any-All P Q [] h a = h
  Any-All P Q (x ∷ xs) (inl p) (q, qs) = inl (p, q)
  Any-All P Q (x ∷ xs) (inr r) (q, qs) = inr (Any-All P Q xs r qs)

  pub Any-witness : (P : A → Type 0) (xs : List A) → Any P xs → (x : A) × P x
  Any-witness P [] h = absurd h
  Any-witness P (x ∷ xs) (inl p) = (x, p)
  Any-witness P (x ∷ xs) (inr r) = Any-witness P xs r

  pub All-drop {κ} : (P : A → Type κ) (n : ℕ) (xs : List A) → All P xs → All P (drop n xs)
  All-drop P zero xs a = a
  All-drop P (suc n) [] a = tt
  All-drop P (suc n) (x ∷ xs) (p, ps) = All-drop P n xs ps

  pub All-take {κ} : (P : A → Type κ) (n : ℕ) (xs : List A) → All P xs → All P (take n xs)
  All-take P zero xs a = tt
  All-take P (suc n) [] a = tt
  All-take P (suc n) (x ∷ xs) (p, ps) = (p, All-take P n xs ps)

  pub length-keep-le : (p : A → Bool) (xs : List A) → length (keep p xs) ≤ length xs
  length-keep-le p [] = omega arith
  length-keep-le p (x ∷ xs) = ground (arith, length-keep-le p xs)

  pub All-both {κ μ} :
      (P : A → Type κ) (Q : A → Type μ) (xs : List A)
      → All P xs
      → All Q xs
      → All (λ x. P x × Q x) xs
  All-both P Q [] a b = tt
  All-both P Q (x ∷ xs) (p, ps) (q, qs) = ((p, q), All-both P Q xs ps qs)

  pub All-keep :
      (P : A → Type 0) (p : A → Bool) (xs : List A)
      → All P xs
      → All (λ x. P x × (p x ≡ true)) (keep p xs)
  All-keep P p [] a = tt
  All-keep P p (x ∷ xs) (q, qs) = elim (Bool-cases (p x)) [
    | inl yields ↦ rw yields ((q, yields), All-keep P p xs qs)
    | inr drops ↦ rw drops (All-keep P p xs qs)
  ]

  pub Any-keep :
      (P : A → Type 0) (p : A → Bool) (xs : List A)
      → ((x : A) → P x → p x ≡ true)
      → Any P xs
      → Any P (keep p xs)
  Any-keep P p [] passes h = h
  Any-keep P p (x ∷ xs) passes (inl q) = rw (passes x q) (inl q)
  Any-keep P p (x ∷ xs) passes (inr r) = elim (Bool-cases (p x)) [
    | inl yields ↦ rw yields (inr (Any-keep P p xs passes r))
    | inr drops ↦ rw drops (Any-keep P p xs passes r)
  ]

  -- `list(reversed(xs))`, in front of what is reversed already.
  abbrev pub reverse_onto : List A → List A → List A
  reverse_onto acc [] = acc
  reverse_onto acc (x ∷ xs) = reverse_onto (x ∷ acc) xs

  pub length-reverse_onto :
      (acc xs : List A) → length (reverse_onto acc xs) ≡ length acc + length xs
  length-reverse_onto acc [] = omega arith
  length-reverse_onto acc (x ∷ xs) = omega (arith, length-reverse_onto (x ∷ acc) xs)

  pub All-reverse_onto :
      (P : A → Type 0) (acc xs : List A) → All P acc → All P xs → All P (reverse_onto acc xs)
  All-reverse_onto P acc [] a b = a
  All-reverse_onto P acc (x ∷ xs) a (p, ps) = All-reverse_onto P (x ∷ acc) xs (p, a) ps

  pub Any-reverse_onto :
      (P : A → Type 0) (acc xs : List A) → Any P acc ⊎ Any P xs → Any P (reverse_onto acc xs)
  Any-reverse_onto P acc [] (inl a) = a
  Any-reverse_onto P acc [] (inr b) = absurd b
  Any-reverse_onto P acc (x ∷ xs) (inl a) = Any-reverse_onto P (x ∷ acc) xs (inl (inr a))
  Any-reverse_onto P acc (x ∷ xs) (inr (inl p)) = Any-reverse_onto P (x ∷ acc) xs (inl (inl p))
  Any-reverse_onto P acc (x ∷ xs) (inr (inr r)) = Any-reverse_onto P (x ∷ acc) xs (inr r)

module _ {ℓ κ} {A : Type ℓ} {B : Type κ} (f : A → B) where
  pub All-of_map : (P : B → Type 0) (xs : List A) → All (λ x. P (f x)) xs → All P (map f xs)
  All-of_map P [] a = tt
  All-of_map P (x ∷ xs) (p, ps) = (p, All-of_map P xs ps)

  pub Any-of_map : (P : B → Type 0) (xs : List A) → Any (λ x. P (f x)) xs → Any P (map f xs)
  Any-of_map P [] h = h
  Any-of_map P (x ∷ xs) (inl p) = inl p
  Any-of_map P (x ∷ xs) (inr r) = inr (Any-of_map P xs r)

  pub length-map : (xs : List A) → length (map f xs) ≡ length xs
  length-map [] = refl
  length-map (x ∷ xs) = omega (arith, length-map xs)
