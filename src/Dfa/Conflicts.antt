-- ===== src/Dfa/Conflicts.antt =====
-- When `insert_edge` and `add_action` of beeper/src/dfa.rs panic: on a conflict, and only then.
use beeper.Prelude.{
  ◌≡◌, refl, ◌⊎◌, inl, inr, Option, none, some, Eq, ◌==◌, nat_eq, nat_beq_iff, ==_iff, Bool-cases,
  Option-cases, arith,
}
use beeper.Run.{returns, panics, conflicting_transition, conflicting_action}
use beeper.Dfa.{StateId, Input, Edge, Dfa, edge_at, put_edge, merge_action, insert_edge}

module _ {A : Type 0} where
  -- Two actions for one edge agree if they are equal, or one is missing.
  abbrev pub Agree : Option A → Option A → Type 0
  Agree (some a) (some b) = a ≡ b
  Agree _ _ = Unit

  pub Agree-none : (a : Option A) → Agree a none
  Agree-none none = tt
  Agree-none (some a) = tt

  -- An edge to `t` with action `a` can be added to what stands at `f` for `i`.
  abbrev pub Accepts : Option (Edge A) → StateId → Option A → Type 0
  Accepts none t a = Unit
  Accepts (some e) t a = (e.to ≡ t) × Agree e.action a

  module _ ⦃eq : Eq A⦄ where
    abbrev pub merged : Option A → Option A → Option A
    merged none a = a
    merged (some old) a = some old

    merge_action-Agree :
        (old a : Option A)
        → (Agree old a × (merge_action old a ≡ returns (merged old a)))
          ⊎ ((Agree old a → ⊥) × (merge_action old a ≡ panics conflicting_action))
    unfolding merge_action
    merge_action-Agree none none = inl (tt, refl)
    merge_action-Agree none (some a) = inl (tt, refl)
    merge_action-Agree (some o) none = inl (tt, refl)
    merge_action-Agree (some o) (some a) = elim (Bool-cases (o == a)) [
      | inl same ↦ inl ((==_iff o a).0 same, rw same refl)
      | inr other ↦ inr ((λ e. absurd (cc ((==_iff o a).1 e))), rw other refl)
    ]

    -- what `insert_edge` writes where it does not panic
    abbrev pub joined : Option (Edge A) → StateId → Option A → Edge A
    joined none t a = record { to = t; action = a }
    joined (some e) t a = record { to = t; action = merged e.action a }

    -- Inserting an edge returns the DFA with that edge, joined with the one that was there, where the
    -- two agree on the target and on the action; and panics where they do not.
    pub insert_edge-Accepts :
        (d : Dfa A) (f : StateId) (i : Input) (t : StateId) (a : Option A)
        → (Accepts (edge_at d f i) t a
            × (insert_edge d f i t a ≡ returns (put_edge d f i (joined (edge_at d f i) t a))))
          ⊎ ((Accepts (edge_at d f i) t a → ⊥)
              × ((insert_edge d f i t a ≡ panics conflicting_transition)
                  ⊎ (insert_edge d f i t a ≡ panics conflicting_action)))
    unfolding insert_edge
    insert_edge-Accepts d f i t a = elim (Option-cases (edge_at d f i)) [
      | inl absent ↦ rw (absent, insert_edge) (inl (tt, refl))
      | inr (e, found) ↦ elim (Bool-cases (e.to == t)) [
        | inr other ↦
            rw (found, insert_edge) (rw other (inr (λ h. absurd (ground (arith, h.0)), inl refl)))
        | inl same ↦
            let p : e.to ≡ t = (nat_beq_iff e.to t).0 same in
            elim (merge_action-Agree e.action a) [
              | inl (agree, run) ↦
                  rw (found, insert_edge) (rw (same, run) (inl ((p, agree), rw p refl)))
              | inr (differ, run) ↦
                  rw (found, insert_edge) (rw (same, run) (inr (λ h. differ h.1, inr refl)))
            ]
      ]
    ]
