-- ===== src/Dfa/Growth.antt =====
-- An operation of `impl Dfa` (beeper/src/dfa.rs) never removes or redirects an edge, never takes an
-- action away, and keeps every state id in range.
use beeper.Prelude.{
  ◌+◌, ◌≤◌, ◌<◌, ◌≡◌, refl, sym, ap, ◌∙◌, Option, none, some, arith, Eq, nat_eq, ◌==◌, Option-cases,
  inl, inr, Bool-cases, ltb, ltb→lt, nat_beq_iff,
}
use beeper.Run.{
  Ensures, Ensures-returns, Ensures-panics, Ensures-bind, conflicting_transition,
  conflicting_action, state_overflow,
}
use beeper.Map.{lookup}
use beeper.Dfa.{
  StateId, Input, Edge, Dfa, any_input, u16_mod, row_at, edge_at, put_edge, new_state, next_state,
  merge_action, insert_edge, add_action, overwrite_action,
}
use beeper.Dfa.Edges.{num_states-put_edge, edge_at-row, edge_at-no_row, put_edge_self}
use beeper.Dfa.Extends.{
  ActionLe, ActionLe-refl, EdgeLe, EdgeLe-refl, IsValid, Extends, Extends-refl, Leads, Carries,
  put_edge-Extends,
}

module _ {A : Type 0} where
  -- What a call leaves of the DFA it was given.
  abbrev pub Fresh : Dfa A → StateId × Dfa A → Type 0
  Fresh d r =
      Extends d r.1
      × (r.0 < r.1.num_states)
      × ((f : StateId) (i : Input) → edge_at r.1 f i ≡ edge_at d f i)

  pub new_state-Fresh : (d : Dfa A) → Ensures (Fresh d) (new_state d)
  unfolding new_state edge_at row_at
  new_state-Fresh d = elim (Bool-cases (ltb (d.num_states + 1) u16_mod)) [
    | inr full ↦ rw full (Ensures-panics (Fresh d) state_overflow tt)
    | inl room ↦ rw room (
        Ensures-returns (Fresh d) (d.num_states, record d { num_states = _ })
          (
            record {
              states = omega arith;
              edges = λ f i. EdgeLe-refl (edge_at d f i);
              valid = λ v. record {
                reserved = omega (arith, v.reserved);
                fits = ltb→lt (d.num_states + 1) u16_mod room;
                bounded = λ f i e h. omega (arith, v.bounded f i e h);
                unique = v.unique;
              };
            },
            omega arith,
            λ f i. refl,
          ))
  ]

  -- In a valid DFA: if `next_state` returns, the state is below the number of states of an
  -- extension of the DFA with the same edges. If it panics, it is not for a missing state or edge,
  -- an unsupported name or an index out of bounds.
  pub next_state-Fresh :
      (d : Dfa A) (f : StateId) (i : Input) → IsValid d → Ensures (Fresh d) (next_state d f i)
  unfolding next_state
  next_state-Fresh d f i v = elim (Option-cases (edge_at d f i)) [
    | inl absent ↦ rw (absent, next_state) (new_state-Fresh d)
    | inr (e, found) ↦
        rw (found, next_state)
          (Ensures-returns (Fresh d) (e.to, d)
            (Extends-refl d, (v.bounded f i e found).1, λ g j. refl))
  ]

  abbrev pub Inserted : Dfa A → StateId → Input → StateId → Dfa A → Type 0
  Inserted d f i t d' = Extends d d' × Leads d' f i t × (d'.num_states ≡ d.num_states)

  abbrev pub Added : Dfa A → StateId → Input → StateId → A → Dfa A → Type 0
  Added d f i t a d' = Inserted d f i t d' × Carries d' f i a

  put_edge-Inserted :
      (d : Dfa A) (f : StateId) (i : Input) (e : Edge A)
      → EdgeLe (edge_at d f i) (some e)
      → f < d.num_states
      → e.to < d.num_states
      → i ≤ any_input
      → Inserted d f i e.to (put_edge d f i e)
  put_edge-Inserted d f i e le hf ht hi = (
    put_edge-Extends d f i e le hf ht hi,
    (e, put_edge_self d f i e, refl),
    num_states-put_edge d f i e,
  )

  module _ ⦃eq : Eq A⦄ where
    merge_action-ActionLe : (old new : Option A) → Ensures (ActionLe old) (merge_action old new)
    unfolding merge_action
    merge_action-ActionLe old none = Ensures-returns (ActionLe old) old (ActionLe-refl old)
    merge_action-ActionLe none (some a) = Ensures-returns (ActionLe none) (some a) tt
    merge_action-ActionLe (some o) (some a) = elim (Bool-cases (o == a)) [
      | inl same ↦ rw same (Ensures-returns (ActionLe (some o)) (some o) refl)
      | inr other ↦ rw other (Ensures-panics (ActionLe (some o)) conflicting_action tt)
    ]

    abbrev Overwritten : Option A → A → Option A → Type 0
    Overwritten old a kept = ActionLe old kept × (kept ≡ some a)

    overwrite_action-Overwritten :
        (old : Option A) (a : A) → Ensures (Overwritten old a) (overwrite_action old a)
    unfolding overwrite_action
    overwrite_action-Overwritten none a = Ensures-returns (Overwritten none a) (some a) (tt, refl)
    overwrite_action-Overwritten (some o) a = elim (Bool-cases (o == a)) [
      | inl same ↦ rw same (
          Ensures-returns (Overwritten (some o) a) (some a)
            (ap some (sym ((eq.beq_iff o a).0 same)), refl))
      | inr other ↦ rw other (Ensures-panics (Overwritten (some o) a) conflicting_action tt)
    ]

    module _ (d : Dfa A) (f : StateId) (i : Input) (hf : f < d.num_states)
        (hi : i ≤ any_input) where
      pub insert_edge-Inserted :
          (t : StateId) (a : Option A)
          → t < d.num_states
          → Ensures (Inserted d f i t) (insert_edge d f i t a)
      unfolding insert_edge
      insert_edge-Inserted t a ht = elim (Option-cases (edge_at d f i)) [
        | inl absent ↦
            rw (absent, insert_edge)
              (Ensures-returns (Inserted d f i t) _
                (put_edge-Inserted d f i (record { to = t; action = a }) (rw absent tt) hf ht hi))
        | inr (old, found) ↦ elim (Bool-cases (old.to == t)) [
          | inr other ↦
              rw (found, insert_edge)
                (rw other (Ensures-panics (Inserted d f i t) conflicting_transition tt))
          | inl same ↦
              let to : old.to ≡ t = (nat_beq_iff old.to t).0 same in
              rw (found, insert_edge)
                (rw same (
                  Ensures-bind (ActionLe old.action) (Inserted d f i t) (merge_action old.action a)
                    _ (merge_action-ActionLe old.action a)
                    (λ kept le. Ensures-returns (Inserted d f i t) _ (
                      rw (← to) (
                        put_edge-Inserted d f i (record { to = old.to; action = kept })
                          (rw found (refl, le)) hf (rw to ht) hi)))))
        ]
      ]

      -- Where an edge leads from a state in range to a target in range for an input in range, if
      -- adding an action returns, the result is an extension of the DFA with as many states, in
      -- which that edge leads to the same target and carries the action. If it panics, it is not
      -- for a missing state or edge, an unsupported name or an index out of bounds.
      pub add_action-Added :
          (t : StateId) (a : A)
          → Leads d f i t
          → t < d.num_states
          → Ensures (Added d f i t a) (add_action d f i a)
      unfolding add_action
      add_action-Added t a (old, found, to) ht = elim (Option-cases (lookup f d.edges)) [
        | inl absent ↦ absurd (cc (edge_at-no_row d f i absent))
        | inr (row, there) ↦
            let at : lookup i row ≡ some old = sym (edge_at-row d f i there) ∙ found in
            rw (there, add_action)
              (rw at (
                Ensures-bind (Overwritten old.action a) (Added d f i t a)
                  (overwrite_action old.action a) _ (overwrite_action-Overwritten old.action a)
                  (λ kept le.
                    let e : Edge A = record { to = old.to; action = kept } in
                    Ensures-returns (Added d f i t a) _ (
                      rw (← to)
                          (put_edge-Inserted d f i e (rw found (refl, le.0)) hf (rw to ht) hi),
                      (e, put_edge_self d f i e, le.1),
                    ))))
      ]
