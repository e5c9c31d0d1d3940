-- ===== src/Dfa.antt =====
-- The DFA that the patterns are compiled into (beeper/src/dfa.rs): states, edges, and the
-- operations of `impl Dfa`. The debug traces are left out.
pub mod Conflicts
pub mod Edges
pub mod Extends
pub mod Growth
pub mod Listing
pub mod Walk
use beeper.Prelude.{
  ℕ, ◌+◌, ◌^◌, nat_eq, Option, none, some, List, [], ◌∷◌, ◌++◌, Eq, ◌==◌, ltb, unwrap_or,
  if◌then◌else◌,
}
use beeper.Run.{
  Run, returns, panics, ◌>>=◌, state_overflow, conflicting_transition, conflicting_action,
  state_not_found, edge_not_found,
}
use beeper.Map.{Map, lookup, insert}

-- `u16` in the source; `new_state` writes the checked addition out.
abbrev pub StateId : Type 0
StateId = ℕ

-- A byte, or `any_input`.
abbrev pub Input : Type 0
Input = ℕ

abbrev pub init_state : StateId
init_state = 0

abbrev pub any_state : StateId
any_state = 1

abbrev pub any_input : Input
any_input = 0x100

pub record Edge (A : Type 0) : Type 0 where
  pub to : StateId
  pub action : Option A

abbrev pub Row : Type 0 → Type 0
Row A = Map Input (Edge A)

pub record Dfa (A : Type 0) : Type 0 where
  pub num_states : ℕ
  pub edges : Map StateId (Row A)

-- `u16::strict_add`
abbrev pub u16_mod : ℕ
u16_mod = 2 ^ 16

unfoldable pub with_reserved_states : {A : Type 0} → ℕ → Dfa A
with_reserved_states reserved = record {
  num_states = if ltb reserved 2 then 2 else reserved;
  edges = [];
}

unfoldable pub new : {A : Type 0} → Dfa A
unfolding with_reserved_states
new = with_reserved_states 2

module _ {A : Type 0} where
  -- `self.edges.entry(from).or_default()`
  unfoldable pub row_at : Dfa A → StateId → Row A
  row_at d from = unwrap_or (lookup from d.edges) []

  unfoldable pub edge_at : Dfa A → StateId → Input → Option (Edge A)
  edge_at d from input = lookup input (row_at d from)

  unfoldable pub put_edge : Dfa A → StateId → Input → Edge A → Dfa A
  put_edge d from input e = record d {
    edges = insert from (insert input e (row_at d from)) d.edges;
  }

  unfoldable pub new_state : Dfa A → Run (StateId × Dfa A)
  new_state d =
      if ltb (d.num_states + 1) u16_mod
      then returns (d.num_states, record d { num_states = d.num_states + 1 })
      else panics state_overflow

  unfoldable pub next_state : Dfa A → StateId → Input → Run (StateId × Dfa A)
  next_state d from input = elim (edge_at d from input) [
    | some e ↦ returns (e.to, d)
    | none ↦ new_state d
  ]

  module _ ⦃eq : Eq A⦄ where
    -- the `match (old.action, action)` of `insert_edge`
    unfoldable pub merge_action : Option A → Option A → Run (Option A)
    merge_action old none = returns old
    merge_action none (some action) = returns (some action)
    merge_action (some old) (some action) =
        if old == action then returns (some old) else panics conflicting_action

    unfoldable pub insert_edge : Dfa A → StateId → Input → StateId → Option A → Run (Dfa A)
    insert_edge d from input to action = elim (edge_at d from input) [
      | none ↦ returns (put_edge d from input (record { to = to; action = action }))
      | some old ↦
          if old.to == to
          then (do
            kept ← merge_action old.action action
            returns (put_edge d from input (record { to = old.to; action = kept })))
          else panics conflicting_transition
    ]

    -- the check of `add_action`, and the write that follows it
    unfoldable pub overwrite_action : Option A → A → Run (Option A)
    overwrite_action none action = returns (some action)
    overwrite_action (some old) action =
        if old == action then returns (some action) else panics conflicting_action

    unfoldable pub add_action_in : Dfa A → StateId → Input → A → Option (Edge A) → Run (Dfa A)
    add_action_in d from input action none = panics edge_not_found
    add_action_in d from input action (some old) = do
      kept ← overwrite_action old.action action
      returns (put_edge d from input (record { to = old.to; action = kept }))

    unfoldable pub add_action : Dfa A → StateId → Input → A → Run (Dfa A)
    unfolding add_action_in
    add_action d from input action = elim (lookup from d.edges) [
      | none ↦ panics state_not_found
      | some row ↦ add_action_in d from input action (lookup input row)
    ]

-- What `iter_transitions` yields for one edge.
pub record Transition (A : Type 0) : Type 0 where
  pub from : StateId
  pub input : Input
  pub to : StateId
  pub action : Option A

module _ {A : Type 0} where
  unfoldable pub row_transitions : StateId → Row A → List (Transition A)
  row_transitions from [] = []
  row_transitions from ((input, e) ∷ row) =
      record { from = from; input = input; to = e.to; action = e.action } ∷ row_transitions from row

  unfoldable pub edge_transitions : Map StateId (Row A) → List (Transition A)
  unfolding row_transitions
  edge_transitions [] = []
  edge_transitions ((from, row) ∷ edges) = row_transitions from row ++ edge_transitions edges

  unfoldable pub iter_transitions : Dfa A → List (Transition A)
  unfolding edge_transitions
  iter_transitions d = edge_transitions d.edges
