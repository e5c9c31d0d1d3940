-- ===== src/Builder/Total.antt =====
-- When a pattern can be pushed at all (beeper/src/dfa.rs): a plain string always, as long as the state
-- ids last.
use beeper.Prelude.{
  ℕ, ◌+◌, ◌≤◌, ◌<◌, ◌≡◌, refl, inl, inr, none, List, [], ◌∷◌, Eq, nat_eq, Option-cases, length,
  arith, true, lt→ltb,
}
use beeper.Run.{Returns, Returns-returns, Returns-bind, Returns-mono}
use beeper.Dfa.{StateId, Input, Dfa, u16_mod, edge_at, row_at, new_state, next_state}
use beeper.Dfa.Edges.{num_states-put_edge}
use beeper.Dfa.Conflicts.{Accepts, Agree-none, insert_edge-Accepts}
use beeper.Builder.{
  DfaBuilder, insert_other, push_edge_from, push_prefixes, push_optional_prefixes, follow_optional,
  push_edge, push_inner, push,
}
use beeper.Builder.Sound.{AreInputs, IsSound}
use beeper.Builder.Walks.{Spelled, push_inner-Spelled}

module _ {A : Type 0} where
  -- The next state that an edge can lead to without a conflict, in a DFA with at most one more state.
  record Open (d : Dfa A) (f : StateId) (i : Input) (r : StateId × Dfa A) : Type 0 where
    accepts : Accepts (edge_at r.1 f i) r.0 none
    grown : r.1.num_states ≤ d.num_states + 1

  next_state-Open :
      (d : Dfa A) (f : StateId) (i : Input)
      → d.num_states + 1 < u16_mod
      → Returns (Open d f i) (next_state d f i)
  unfolding next_state new_state edge_at row_at
  next_state-Open d f i room = elim (Option-cases (edge_at d f i)) [
    | inl absent ↦
        rw (absent, next_state)
          (rw (lt→ltb (d.num_states + 1) u16_mod room) (
            Returns-returns (Open d f i) _
              (record { accepts = rw absent tt; grown = omega arith })))
    | inr (e, found) ↦
        rw (found, next_state)
          (Returns-returns (Open d f i) (e.to, d)
            (record { accepts = rw found (refl, Agree-none e.action); grown = omega arith }))
  ]

  -- Nothing optional is pending.
  pub record IsPlain (b : DfaBuilder A) : Type 0 where
    pub prefixes : b.optional_prefixes ≡ []
    pub states : b.optional_states ≡ []

  -- One more edge at most takes one more state.
  abbrev Steps : DfaBuilder A → DfaBuilder A → Type 0
  Steps b b' = IsPlain b' × (b'.dfa.num_states ≤ b.dfa.num_states + 1)

  module _ ⦃eq : Eq A⦄ where
    push_edge_from-Returns :
        (d : Dfa A) (f : StateId) (i : Input)
        → d.num_states + 1 < u16_mod
        → Returns
            (λ (r : StateId × Dfa A). r.1.num_states ≤ d.num_states + 1)
            (push_edge_from d f i none true)
    unfolding push_edge_from insert_other
    push_edge_from-Returns d f i room =
        Returns-bind (Open d f i) _ _ _ (next_state-Open d f i room) λ r h.
          elim (insert_edge-Accepts r.1 f i r.0 none) [
            | inl (_, run) ↦ rw run (Returns-returns _ _ (rw num_states-put_edge h.grown))
            | inr (refused, _) ↦ absurd (refused h.accepts)
          ]

    push_edge-Steps :
        (b : DfaBuilder A) (i : Input)
        → IsPlain b
        → b.dfa.num_states + 1 < u16_mod
        → Returns (Steps b) (push_edge b i none true)
    unfolding push_edge push_optional_prefixes push_prefixes follow_optional
    push_edge-Steps b i plain room =
        rw (plain.prefixes, plain.states)
          (Returns-bind _ (Steps b) _ _ (push_edge_from-Returns b.dfa b.state i room) (λ r small.
            Returns-returns (Steps b) _ (record { prefixes = refl; states = refl }, small)))

    push_inner-Returns :
        (b : DfaBuilder A) (cs : List ℕ)
        → IsPlain b
        → b.dfa.num_states + length cs < u16_mod
        → Returns (λ b'. b'.dfa.num_states ≤ b.dfa.num_states + length cs) (push_inner b cs true)
    unfolding push_inner
    push_inner-Returns b [] plain room = Returns-returns _ b (omega arith)
    push_inner-Returns b (c ∷ cs) plain room =
        Returns-bind (Steps b) _ _ _ (push_edge-Steps b c plain (omega arith)) λ b₁ h.
          Returns-mono (λ b'. b'.dfa.num_states ≤ b₁.dfa.num_states + length cs) _ _
            (push_inner-Returns b₁ cs h.0 (omega (arith, h.1))) (λ b' k. omega (arith, h.1, k))

    -- Pushing a string onto a builder with nothing optional pending returns, as long as the state ids
    -- last, whatever the DFA holds; it takes one new state for a byte at most; and the DFA then walks
    -- the string from the state that the builder was in to the state that it ends in.
    pub push-Returns :
        (b : DfaBuilder A) (cs : List ℕ)
        → IsSound b
        → AreInputs cs
        → IsPlain b
        → b.dfa.num_states + length cs < u16_mod
        → Returns
            (λ b'. Spelled b cs true b' × (b'.dfa.num_states ≤ b.dfa.num_states + length cs))
            (push b cs)
    unfolding push
    push-Returns b cs s hi plain room =
        let r = push_inner-Returns b cs plain room in
        record {
          value = r.value;
          run = r.run;
          post = ((push_inner-Spelled b cs true s hi).post r.value r.run, r.post);
        }
