-- ===== src/Dfa/Listing.antt =====
-- `iter_transitions` of beeper/src/dfa.rs yields the edges of the DFA, all of them and no others.
use mathlib.Core.List.{Memᴰ}
use mathlib.Core.List.Memᴰ
use beeper.Prelude.{
  ◌≡◌, refl, sym, ◌∙◌, inl, inr, some, List, [], ◌∷◌, arith, nat_eq, nat_beq_iff, ◌==◌, All,
  All-append, All-mono, Bool-cases, Option-cases,
}
use beeper.Map.{Map, IsUnique, lookup}
use beeper.Dfa.{
  StateId, Input, Edge, Row, Dfa, Transition, edge_at, row_transitions, edge_transitions,
  iter_transitions,
}
use beeper.Dfa.Edges.{edge_at-row, edge_at-no_row}
use beeper.Dfa.Extends.{IsValid}

module _ {A : Type 0} where
  abbrev pub transition : StateId → Input → Edge A → Transition A
  transition f i e = record { from = f; input = i; to = e.to; action = e.action }

  abbrev pub edge_of : Transition A → Edge A
  edge_of t = record { to = t.to; action = t.action }

  -- The transition is an edge of the DFA.
  abbrev pub IsEdge : Dfa A → Transition A → Type 0
  IsEdge d t = edge_at d t.from t.input ≡ some (edge_of t)

  -- The transitions are the edges of the DFA, in some order.
  pub record Lists (d : Dfa A) (ts : List (Transition A)) : Type 0 where
    pub sound : All (IsEdge d) ts
    pub complete :
        (f : StateId) (i : Input) (e : Edge A) → edge_at d f i ≡ some e → Memᴰ (transition f i e) ts

  abbrev InRow : StateId → Row A → Transition A → Type 0
  InRow f row t = (t.from ≡ f) × (lookup t.input row ≡ some (edge_of t))

  abbrev InEdges : Map StateId (Row A) → Transition A → Type 0
  InEdges edges t =
      (row : Row A) × (lookup t.from edges ≡ some row) × (lookup t.input row ≡ some (edge_of t))

  row_transitions-InRow :
      (f : StateId) (row : Row A) → IsUnique row → All (InRow f row) (row_transitions f row)
  unfolding row_transitions lookup
  row_transitions-InRow f [] u = tt
  row_transitions-InRow f ((i, e) ∷ row) u = (
    (refl, ground arith),
    All-mono (InRow f row) (InRow f ((i, e) ∷ row)) (λ t h. (h.0, ground (arith, h.1, u.0)))
        (row_transitions f row) (row_transitions-InRow f row u.1),
  )

  edge_transitions-InEdges :
      (edges : Map StateId (Row A))
      → IsUnique edges
      → All (λ (x : StateId × Row A). IsUnique x.1) edges
      → All (InEdges edges) (edge_transitions edges)
  unfolding edge_transitions lookup
  edge_transitions-InEdges [] u us = tt
  edge_transitions-InEdges ((f, row) ∷ edges) u us =
      All-append (InEdges ((f, row) ∷ edges)) (row_transitions f row) (edge_transitions edges)
        (All-mono (InRow f row) (InEdges ((f, row) ∷ edges))
          (λ t h. (row, ground (arith, h.0), h.1)) (row_transitions f row)
          (row_transitions-InRow f row us.0))
        (All-mono (InEdges edges) (InEdges ((f, row) ∷ edges))
          (λ t h. (h.0, ground (arith, h.1, u.0), h.2)) (edge_transitions edges)
          (edge_transitions-InEdges edges u.1 us.1))

  row_transitions-complete :
      (f : StateId) (row : Row A) (i : Input) (e : Edge A)
      → lookup i row ≡ some e
      → Memᴰ (transition f i e) (row_transitions f row)
  unfolding row_transitions lookup
  row_transitions-complete f [] i e h = absurd (cc h)
  row_transitions-complete f ((j, e') ∷ row) i e h = elim (Bool-cases (j == i)) [
    | inl same ↦
        let p : j ≡ i = (nat_beq_iff j i).0 same in
        let q : some e' ≡ some e = rw same at h in let r : e' ≡ e = cc in Memᴰ.head (rw (p, r) refl)
    | inr other ↦ Memᴰ.tail (row_transitions-complete f row i e (rw other at h))
  ]

  edge_transitions-complete :
      (edges : Map StateId (Row A)) (f : StateId) (row : Row A) (i : Input) (e : Edge A)
      → lookup f edges ≡ some row
      → lookup i row ≡ some e
      → Memᴰ (transition f i e) (edge_transitions edges)
  unfolding edge_transitions lookup
  edge_transitions-complete [] f row i e h k = absurd (cc h)
  edge_transitions-complete ((g, row') ∷ edges) f row i e h k = elim (Bool-cases (g == f)) [
    | inl same ↦
        let p : g ≡ f = (nat_beq_iff g f).0 same in
        let q : some row' ≡ some row = rw same at h in
        let r : row' ≡ row = cc in
        Memᴰ.append_left (edge_transitions edges) (rw (p, r) (row_transitions-complete f row i e k))
    | inr other ↦
        Memᴰ.append_right (row_transitions g row')
          (edge_transitions-complete edges f row i e (rw other at h) k)
  ]

  -- The transitions of a valid DFA are its edges, each of them and no others.
  pub iter_transitions-Lists : (d : Dfa A) → IsValid d → Lists d (iter_transitions d)
  unfolding iter_transitions
  iter_transitions-Lists d v = record {
    sound =
        All-mono (InEdges d.edges) (IsEdge d) (λ t h. edge_at-row d t.from t.input h.1 ∙ h.2)
          (edge_transitions d.edges) (edge_transitions-InEdges d.edges v.unique.0 v.unique.1);
    complete = λ f i e at. elim (Option-cases (lookup f d.edges)) [
      | inl absent ↦ absurd (cc (edge_at-no_row d f i absent))
      | inr (row, there) ↦
          edge_transitions-complete d.edges f row i e there (sym (edge_at-row d f i there) ∙ at)
    ];
  }
