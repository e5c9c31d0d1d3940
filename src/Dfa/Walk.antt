-- ===== src/Dfa/Walk.antt =====
-- Following the edges of the DFA byte by byte, as `matches_input` of the tests in
-- beeper/src/dfa.rs does, and how the walk fares when the DFA grows.
use beeper.Prelude.{
  ℕ, ◌≡◌, refl, Option, none, some, List, [], ◌∷◌, ◌++◌, arith, Option-cases, inl, inr,
}
use beeper.Dfa.{StateId, Dfa, edge_at}
use beeper.Dfa.Extends.{Extends, Leads, Leads-Extends}

module _ {A : Type 0} where
  unfoldable pub walk : Dfa A → StateId → List ℕ → Option StateId
  walk d s [] = some s
  walk d s (c ∷ cs) = elim (edge_at d s c) [ none ↦ none | some e ↦ walk d e.to cs ]

  pub walk-cons :
      (d : Dfa A) (s : StateId) (c : ℕ) (cs : List ℕ) (t : StateId)
      → Leads d s c t
      → walk d s (c ∷ cs) ≡ walk d t cs
  unfolding walk
  walk-cons d s c cs t (e, at, to) = rw (at, walk) (rw to)

  pub walk-cons_inv :
      (d : Dfa A) (s : StateId) (c : ℕ) (cs : List ℕ) (u : StateId)
      → walk d s (c ∷ cs) ≡ some u
      → (t : StateId) × Leads d s c t × (walk d t cs ≡ some u)
  unfolding walk
  walk-cons_inv d s c cs u h = elim (Option-cases (edge_at d s c)) [
    | inl absent ↦ absurd (cc (rw (absent, walk) at h))
    | inr (e, found) ↦ (e.to, (e, found, refl), rw (found, walk) at h)
  ]

  -- A walk through a DFA is the same walk in every extension of it.
  pub walk-Extends :
      (d d' : Dfa A) (s : StateId) (cs : List ℕ) (t : StateId)
      → Extends d d'
      → walk d s cs ≡ some t
      → walk d' s cs ≡ some t
  unfolding walk
  walk-Extends d d' s [] t x h = h
  walk-Extends d d' s (c ∷ cs) t x h =
      let (u, leads, rest) = walk-cons_inv d s c cs t h in
      rw (walk-cons d' s c cs u (Leads-Extends s c u x leads)) (walk-Extends d d' u cs t x rest)

  pub walk-append :
      (d : Dfa A) (s : StateId) (xs ys : List ℕ) (t u : StateId)
      → walk d s xs ≡ some t
      → walk d t ys ≡ some u
      → walk d s (xs ++ ys) ≡ some u
  unfolding walk
  walk-append d s [] ys t u h k = ground arith
  walk-append d s (c ∷ cs) ys t u h k =
      let (v, leads, rest) = walk-cons_inv d s c cs t h in
      rw (walk-cons d s c (cs ++ ys) v leads) (walk-append d v cs ys t u rest k)
