-- ===== src/Builder/Options.antt =====
-- `push_options_inner` of beeper/src/dfa.rs: every alternative leads to the one final state.
use mathlib.Core.Path.{subst}
use beeper.Prelude.{
  ℕ, ◌<◌, ◌≡◌, refl, sym, Bool, List, [], ◌∷◌, ◌++◌, Eq, bytes_eq, bytes_beq_iff, ◌==◌, arith, All,
  All-append, Bool-cases, inl, inr,
}
use beeper.Run.{Ensures, Ensures-returns, Ensures-panics, Ensures-bind, Ensures-mono, empty_option}
use beeper.Dfa.{StateId}
use beeper.Dfa.Extends.{Extends-refl, Extends-trans}
use beeper.Builder.{LastEdge, DfaBuilder}
use beeper.Prelude.{ltb, length}
use beeper.Builder.Patterns.{longest_from}
use beeper.Builder.Patterns.{push_option, push_other_options, push_options_from, push_options_inner}
use beeper.Builder.Sound.{AreInputs, LastLeads, LastLeads-All, IsSound, Builds, Builds-refl}
use beeper.Builder.Walks.{Walks, Walks-Extends, Spelled, push_inner-Spelled, push_into-Spelled}

module _ {A : Type 0} where
  -- Every option walks from `start` to `final`, where the builder stands.
  pub record Offered (b : DfaBuilder A) (start final : StateId) (options : List (List ℕ))
      (sens : Bool) (b' : DfaBuilder A) : Type 0 where
    pub builds : Builds b b'
    pub state : b'.state ≡ final
    pub walks : All (λ cs. Walks b'.dfa start sens cs final) options

  relast :
      (b : DfaBuilder A) (edges : List LastEdge)
      → IsSound b
      → All (LastLeads b.dfa) edges
      → IsSound (record b { last_edges = edges })
  relast b edges s h = record {
    valid = s.valid;
    state = s.state;
    optional = s.optional;
    prefixes = s.prefixes;
    last = h;
  }

  module _ ⦃eq : Eq A⦄ (start final : StateId) (longest : List ℕ) (sens : Bool) where
    push_option-Spelled :
        (b : DfaBuilder A) (cs : List ℕ)
        → IsSound b
        → AreInputs cs
        → start < b.dfa.num_states
        → final < b.dfa.num_states
        → Ensures
            (λ b'. Builds b b' × (b'.state ≡ final) × Walks b'.dfa start sens cs final)
            (push_option b start final cs sens)
    unfolding push_option
    push_option-Spelled b [] s hi hs hf = Ensures-panics _ empty_option tt
    push_option-Spelled b (c ∷ cs) s hi hs hf =
        let b₀ : DfaBuilder A = record b { state = start } in
        Ensures-mono _ _ _
          (push_into-Spelled b₀ (c ∷ cs) final sens
            (record {
              valid = s.valid;
              state = hs;
              optional = s.optional;
              prefixes = s.prefixes;
              last = s.last;
            })
            hi (λ e. cc) hf)
          λ b' k. (
            record { extends = k.0.builds.extends; sound = k.0.builds.sound },
            k.1,
            subst (λ t. Walks b'.dfa start sens (c ∷ cs) t) k.1 k.0.walks,
          )

    push_other_options-Offered :
        (b : DfaBuilder A) (inputs : List (List ℕ)) (edges : List LastEdge)
        → IsSound b
        → All AreInputs inputs
        → start < b.dfa.num_states
        → b.state ≡ final
        → Walks b.dfa start sens longest final
        → All (LastLeads b.dfa) edges
        → Ensures
            (Offered b start final inputs sens)
            (push_other_options b start final longest inputs sens edges)
    unfolding push_other_options
    push_other_options-Offered b [] edges s hi hs e w last =
        Ensures-returns (Offered b start final [] sens) _ (record {
          builds = record { extends = Extends-refl b.dfa; sound = relast b edges s last };
          state = e;
          walks = tt;
        })
    push_other_options-Offered b (cs ∷ inputs) edges s hi hs e w last =
        elim (Bool-cases (cs == longest)) [
          | inl same ↦
              rw (same, push_other_options)
                (Ensures-mono (Offered b start final inputs sens) _ _
                  (push_other_options-Offered b inputs edges s hi.1 hs e w last)
                  λ b' k. record {
                    builds = k.builds;
                    state = k.state;
                    walks = (
                      rw ((bytes_beq_iff cs longest).0 same)
                          (Walks-Extends start sens longest final k.builds.extends w),
                      k.walks,
                    );
                  })
          | inr other ↦
              rw (other, push_other_options)
                (Ensures-bind
                  (λ b'. Builds b b' × (b'.state ≡ final) × Walks b'.dfa start sens cs final)
                  (Offered b start final (cs ∷ inputs) sens) _ _
                  (push_option-Spelled b cs s hi.0 hs (rw (← e) s.state))
                  λ b₁ h.
                    Ensures-mono (Offered (record b₁ { last_edges = [] }) start final inputs sens) _
                      _
                      (push_other_options-Offered (record b₁ { last_edges = [] }) inputs
                        (edges ++ b₁.last_edges) (relast b₁ [] h.0.sound tt) hi.1
                        (omega (arith, hs, h.0.extends.states)) h.1
                        (Walks-Extends start sens longest final h.0.extends w)
                        (All-append (LastLeads b₁.dfa) edges b₁.last_edges
                          (LastLeads-All edges h.0.extends last) h.0.sound.last))
                      λ b' k. record {
                        builds = record {
                          extends = Extends-trans h.0.extends k.builds.extends;
                          sound = k.builds.sound;
                        };
                        state = k.state;
                        walks = (Walks-Extends start sens cs final k.builds.extends h.2, k.walks);
                      })
        ]

longest_from-AreInputs :
    (best : List ℕ) (xs : List (List ℕ))
    → AreInputs best
    → All AreInputs xs
    → AreInputs (longest_from best xs)
unfolding longest_from
longest_from-AreInputs best [] hb hx = hb
longest_from-AreInputs best (x ∷ xs) hb hx = elim (Bool-cases (ltb (length x) (length best))) [
  | inl shorter ↦ rw (shorter, longest_from) (longest_from-AreInputs best xs hb hx.1)
  | inr longer ↦ rw (longer, longest_from) (longest_from-AreInputs x xs hx.0 hx.1)
]

module _ {A : Type 0} where
  -- Every option walks from the builder's state to the state that it ends in.
  pub record Alternatives (b : DfaBuilder A) (options : List (List ℕ)) (sens : Bool)
      (b' : DfaBuilder A) : Type 0 where
    pub builds : Builds b b'
    pub walks : All (λ cs. Walks b'.dfa b.state sens cs b'.state) options

  module _ ⦃eq : Eq A⦄ where
    -- For a sound builder and options made of inputs: if pushing the options returns, the builder
    -- is sound over an extension of the DFA, and every spelling of every option leads from the
    -- state that the builder was in to the one state that it ends in. If it panics, it is not for a
    -- missing state or edge, an unsupported name or an index out of bounds.
    pub push_options_inner-Alternatives :
        (b : DfaBuilder A) (options : List (List ℕ)) (sens : Bool)
        → IsSound b
        → All AreInputs options
        → Ensures (Alternatives b options sens) (push_options_inner b options sens)
    unfolding push_options_inner push_options_from
    push_options_inner-Alternatives b [] sens s hi =
        Ensures-returns (Alternatives b [] sens) b (record { builds = Builds-refl b s; walks = tt })
    push_options_inner-Alternatives b (x ∷ xs) sens s hi =
        let longest : List ℕ = longest_from x xs in
        Ensures-bind (Spelled b longest sens) (Alternatives b (x ∷ xs) sens) _ _
          (push_inner-Spelled b longest sens s (longest_from-AreInputs x xs hi.0 hi.1))
          λ b₁ h.
            let b₂ : DfaBuilder A = record b₁ { last_edges = [] } in
            Ensures-mono (Offered b₂ b.state b₁.state (x ∷ xs) sens) _ _
              (push_other_options-Offered b.state b₁.state longest sens b₂ (x ∷ xs) b₁.last_edges
                (relast b₁ [] h.builds.sound tt) hi
                (omega (arith, s.state, h.builds.extends.states)) refl h.walks h.builds.sound.last)
              λ b' k. record {
                builds = record {
                  extends = Extends-trans h.builds.extends k.builds.extends;
                  sound = k.builds.sound;
                };
                walks =
                    subst (λ t. All (λ cs. Walks b'.dfa b.state sens cs t) (x ∷ xs)) (sym k.state)
                      k.walks;
              }
