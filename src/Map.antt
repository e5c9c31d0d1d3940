-- ===== src/Map.antt =====
-- `HashMap` as an association list. The order of a `HashMap` is not specified: no statement
-- depends on the order of the list.
use beeper.Prelude.{
  ◌≡◌, refl, Option, none, some, List, [], ◌∷◌, arith, Eq, ◌==◌, if◌then◌else◌, Bool-cases, ap,
  ==_refl, inl, inr, length, ◌+◌, All,
}
use mathlib.Core.Path.{subst}
use mathlib.Core.List.{Memᴰ}
use mathlib.Core.List.Memᴰ

abbrev pub Map {ℓ κ} : Type ℓ → Type κ → Type (ℓ ⊔ κ)
Map K V = List (K × V)

module _ {ℓ κ} {K : Type ℓ} {V : Type κ} ⦃e : Eq K⦄ where
  -- `get`
  unfoldable pub lookup : K → Map K V → Option V
  lookup k [] = none
  lookup k ((key, v) ∷ rest) = if key == k then some v else lookup k rest

  -- `insert`, and the write through `get_mut`
  unfoldable pub insert : K → V → Map K V → Map K V
  insert k v [] = (k, v) ∷ []
  insert k v ((key, old) ∷ rest) = if key == k then (k, v) ∷ rest else (key, old) ∷ insert k v rest

  pub lookup-insert :
      (written read : K) (v : V) (m : Map K V)
      → lookup read (insert written v m) ≡ (if written == read then some v else lookup read m)
  unfolding insert lookup
  lookup-insert written read v [] = refl
  lookup-insert written read v ((key, old) ∷ rest) = ground (
    arith,
    e.beq_iff written read,
    e.beq_iff key written,
    e.beq_iff key read,
    lookup-insert written read v rest,
  )

-- No key stands twice, as in a `HashMap`. All at level 0, where the program's maps are.
module _ {K V : Type 0} ⦃e : Eq K⦄ where
  abbrev pub IsUnique : Map K V → Type 0
  IsUnique [] = Unit
  IsUnique ((k, v) ∷ m) = (lookup k m ≡ none) × IsUnique m

  pub insert-IsUnique : (k : K) (v : V) (m : Map K V) → IsUnique m → IsUnique (insert k v m)
  unfolding insert lookup
  insert-IsUnique k v [] u = (refl, tt)
  insert-IsUnique k v ((j, w) ∷ m) u = elim (Bool-cases (j == k)) [
    | inl same ↦ let p : j ≡ k = (e.beq_iff j k).0 same in rw same (rw p at u.0, u.1)
    | inr other ↦ rw other (
      rw lookup-insert (ground (arith, u.0, e.beq_iff k j, e.beq_iff j k)),
      insert-IsUnique k v m u.1,
    )
  ]

  -- A new key makes the map longer by one.
  pub length-insert :
      (k : K) (v : V) (m : Map K V) → lookup k m ≡ none → length (insert k v m) ≡ length m + 1
  unfolding insert lookup
  length-insert k v [] h = omega arith
  length-insert k v ((j, w) ∷ m) h = ground (arith, length-insert k v m)

  -- A property of all the values survives an insertion of a value that has it.
  pub insert-All {κ} :
      (P : V → Type κ) (k : K) (v : V) (m : Map K V)
      → P v
      → All (λ (x : K × V). P x.1) m
      → All (λ (x : K × V). P x.1) (insert k v m)
  unfolding insert
  insert-All P k v [] pv h = (pv, tt)
  insert-All P k v ((j, w) ∷ m) pv h = elim (Bool-cases (j == k)) [
    | inl same ↦ rw same (pv, h.1)
    | inr other ↦ rw other (h.0, insert-All P k v m pv h.1)
  ]

  pub lookup-All {κ} :
      (P : V → Type κ) (k : K) (v : V) (m : Map K V)
      → All (λ (x : K × V). P x.1) m
      → lookup k m ≡ some v
      → P v
  unfolding lookup
  lookup-All P k v [] h e' = absurd (cc e')
  lookup-All P k v ((j, w) ∷ m) h e' = elim (Bool-cases (j == k)) [
    | inl same ↦ let q : some w ≡ some v = rw same at e' in subst P (cc) h.0
    | inr other ↦ lookup-All P k v m h.1 (rw other at e')
  ]

  pub lookup-Memᴰ : (k : K) (v : V) (m : Map K V) → lookup k m ≡ some v → Memᴰ (k, v) m
  unfolding lookup
  lookup-Memᴰ k v [] h = absurd (cc h)
  lookup-Memᴰ k v ((j, w) ∷ m) h = elim (Bool-cases (j == k)) [
    | inl same ↦
        let p : j ≡ k = (e.beq_iff j k).0 same in
        let q : some w ≡ some v = rw same at h in let r : w ≡ v = cc in Memᴰ.head (rw (p, r) refl)
    | inr other ↦ Memᴰ.tail (lookup-Memᴰ k v m (rw other at h))
  ]

  pub Memᴰ-lookup : (k : K) (v : V) (m : Map K V) → IsUnique m → Memᴰ (k, v) m → lookup k m ≡ some v
  unfolding lookup
  Memᴰ-lookup k v [] u h = absurd (Memᴰ.not-nil h)
  Memᴰ-lookup k v ((j, w) ∷ m) u h = elim (Memᴰ.cases_cons h) [
    | inl first ↦
        let p : k ≡ j = ap (λ (x : K × V). x.0) first in
        let q : v ≡ w = ap (λ (x : K × V). x.1) first in rw (p, q, ==_refl j) refl
    | inr rest ↦
        let later : lookup k m ≡ some v = Memᴰ-lookup k v m u.1 rest in
        elim (Bool-cases (j == k)) [
          | inr other ↦ rw other later
          | inl same ↦ let p : j ≡ k = (e.beq_iff j k).0 same in absurd (cc (rw p at u.0))
        ]
  ]
