-- ===== src/Base/Dict.antt =====
-- A Python dict in insertion order, over any key type with equality.
use mathlib.Core.Path.{◌≡◌, refl}
use mathlib.Core.Logic.{◌≢◌, inl, inr}
use mathlib.Core.Option.{Option, none, some}
use mathlib.Core.List.{List, [], ◌∷◌}
use native.Mathlib.Omega.{arith}
use polara_quant.Base.Tests.{Eq, ◌==◌, if◌then◌else◌, Bool-cases}
use polara_quant.Base.Lists.{All, Any, All-map, All-both}

abbrev pub Dict : Type 0 → Type 0 → Type 0
Dict K V = List (K × V)

module _ {K V : Type 0} ⦃e : Eq K⦄ where
  -- `d.get(k)`
  abbrev pub lookup : K → Dict K V → Option V
  lookup k [] = none
  lookup k ((j, v) ∷ d) = if j == k then some v else lookup k d

  -- `d.get(k, v)`
  abbrev pub get_or : K → V → Dict K V → V
  get_or k v d = elim (lookup k d) [ none ↦ v | some w ↦ w ]

  -- `d[k] = v`
  abbrev pub insert : K → V → Dict K V → Dict K V
  insert k v [] = (k, v) ∷ []
  insert k v ((j, w) ∷ d) = if j == k then (j, v) ∷ d else (j, w) ∷ insert k v d

  pub lookup-insert :
      (k j : K) (v : V) (d : Dict K V)
      → lookup j (insert k v d) ≡ (if k == j then some v else lookup j d)
  lookup-insert k j v [] = refl
  lookup-insert k j v ((i, w) ∷ d) =
      ground (arith, e.beq_iff k j, e.beq_iff i k, e.beq_iff i j, lookup-insert k j v d)

  pub lookup-insert_self : (k : K) (v : V) (d : Dict K V) → lookup k (insert k v d) ≡ some v
  lookup-insert_self k v d = ground (arith, lookup-insert k k v d, e.beq_iff k k)

  pub lookup-insert_ne :
      (k j : K) (v : V) (d : Dict K V) → k ≢ j → lookup j (insert k v d) ≡ lookup j d
  lookup-insert_ne k j v d h = ground (arith, lookup-insert k j v d, e.beq_iff k j)

  -- No key stands twice, as in every dict.
  abbrev pub HasDistinctKeys : Dict K V → Type 0
  HasDistinctKeys [] = Unit {0}
  HasDistinctKeys ((k, v) ∷ d) = All (λ entry. entry.0 ≢ k) d × HasDistinctKeys d

  pub All-insert :
      (P : K × V → Type 0) (k : K) (v : V) (d : Dict K V)
      → ((j : K) → (j ≡ k) → P (j, v))
      → All P d
      → All P (insert k v d)
  All-insert P k v [] new a = (new k refl, tt)
  All-insert P k v ((j, w) ∷ d) new (p, ps) = elim (Bool-cases (j == k)) [
    | inl same ↦ rw same (new j ((e.beq_iff j k).0 same), ps)
    | inr other ↦ rw other (p, All-insert P k v d new ps)
  ]

  pub insert-HasDistinctKeys :
      (k : K) (v : V) (d : Dict K V) → HasDistinctKeys d → HasDistinctKeys (insert k v d)
  insert-HasDistinctKeys k v [] h = (tt, tt)
  insert-HasDistinctKeys k v ((j, w) ∷ d) (ne, h) = elim (Bool-cases (j == k)) [
    | inl same ↦ rw same (ne, h)
    | inr other ↦ rw other (
      All-insert (λ entry. entry.0 ≢ j) k v d (λ i q p. ground (arith, e.beq_iff j k)) ne,
      insert-HasDistinctKeys k v d h,
    )
  ]

  -- What a dict has under a key is one of its entries, and each entry is what it has under its key.
  pub Any-of_lookup :
      (k : K) (v : V) (d : Dict K V) → lookup k d ≡ some v → Any (λ entry. entry ≡ (k, v)) d
  Any-of_lookup k v [] h = cc
  Any-of_lookup k v ((j, w) ∷ d) h = elim (Bool-cases (j == k)) [
    | inl same ↦ let q : some w ≡ some v = rw same at h in inl (cc ((e.beq_iff j k).0 same, q))
    | inr other ↦ inr (Any-of_lookup k v d (rw other at h))
  ]

  pub lookup_of_entries :
      (d : Dict K V) → HasDistinctKeys d → All (λ entry. lookup entry.0 d ≡ some entry.1) d
  lookup_of_entries [] h = tt
  lookup_of_entries ((k, v) ∷ d) (ne, h) = (
    rw ((e.beq_iff k k).1 refl),
    All-map (λ entry (found, n). ground (arith, e.beq_iff k entry.0)) d
        (All-both (λ entry. lookup entry.0 d ≡ some entry.1) (λ entry. entry.0 ≢ k) d
          (lookup_of_entries d h) ne),
  )
