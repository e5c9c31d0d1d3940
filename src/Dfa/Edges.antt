-- ===== src/Dfa/Edges.antt =====
-- How `impl Dfa` (beeper/src/dfa.rs) reads and writes single edges.
use beeper.Prelude.{
  ◌≡◌, refl, ◌&&◌, none, some, [], arith, nat_eq, ◌==◌, unwrap_or, if◌then◌else◌, inl, inr, ◌⊎◌,
  Bool-cases,
}
use beeper.Map.{lookup, lookup-insert}
use beeper.Dfa.{StateId, Input, Edge, Row, Dfa, row_at, edge_at, put_edge}

module _ {A : Type 0} where
  pub edge_at-put_edge :
      (d : Dfa A) (f : StateId) (i : Input) (e : Edge A) (g : StateId) (j : Input)
      → edge_at (put_edge d f i e) g j ≡ (if f == g && i == j then some e else edge_at d g j)
  unfolding edge_at put_edge row_at
  edge_at-put_edge d f i e g j =
      simp lookup-insert (ground (arith, lookup-insert i j e (unwrap_or (lookup f d.edges) [])))

  pub num_states-put_edge :
      (d : Dfa A) (f : StateId) (i : Input) (e : Edge A)
      → (put_edge d f i e).num_states ≡ d.num_states
  unfolding put_edge
  num_states-put_edge d f i e = refl

  -- The row that `add_action` finds is the row that `edge_at` reads.
  pub edge_at-row :
      (d : Dfa A) (f : StateId) (i : Input) {row : Row A}
      → lookup f d.edges ≡ some row
      → edge_at d f i ≡ lookup i row
  unfolding edge_at row_at
  edge_at-row d f i h = rw h

  pub edge_at-no_row :
      (d : Dfa A) (f : StateId) (i : Input) → lookup f d.edges ≡ none → edge_at d f i ≡ none
  unfolding edge_at row_at lookup
  edge_at-no_row d f i h = rw h

  -- A lookup after a write is of another edge, or of the one that was written.
  pub put_edge-cases :
      (d : Dfa A) (f : StateId) (i : Input) (e : Edge A) (g : StateId) (j : Input)
      → (edge_at (put_edge d f i e) g j ≡ edge_at d g j)
        ⊎ ((f ≡ g) × (i ≡ j) × (edge_at (put_edge d f i e) g j ≡ some e))
  put_edge-cases d f i e g j = elim (Bool-cases (f == g && i == j)) [
    | inl same ↦ inr (ground arith, ground arith, ground (arith, edge_at-put_edge d f i e g j))
    | inr other ↦ inl (ground (arith, edge_at-put_edge d f i e g j))
  ]

  pub put_edge_self :
      (d : Dfa A) (f : StateId) (i : Input) (e : Edge A) → edge_at (put_edge d f i e) f i ≡ some e
  put_edge_self d f i e = ground (arith, edge_at-put_edge d f i e f i)
