-- ===== src/Builder/Repeats.antt =====
-- `push_any` and `push_optional` of beeper/src/dfa.rs.
use beeper.Prelude.{
  ℕ, zero, suc, ◌-◌, ◌≡◌, refl, sym, Bool, true, some, List, [], ◌∷◌, ◌++◌, Eq, arith, All,
  All-append, Bool-cases, inl, inr, leb,
}
use mathlib.Core.Path.{subst, fun_ext}
use beeper.Run.{Ensures, Ensures-returns, Ensures-panics, Ensures-bind, Ensures-mono, empty_range}
use beeper.Dfa.{StateId, Dfa, any_input}
use beeper.Dfa.Extends.{Extends-refl, Extends-trans, Leads}
use beeper.Dfa.Walk.{walk, walk-cons}
use beeper.Builder.{OptionalPrefix, DfaBuilder, push_inner, push_optional}
use beeper.Builder.Growth.{Pushed, push_edge_from-Pushed}
use beeper.Builder.Patterns.{
  Bound, unbounded, excluded, included, min_len, max_len, any_prefixes, push_any_edges,
  push_any_loop, push_any,
}
use beeper.Builder.Sound.{
  AreInputs, LastLeads, LastLeads-All, IsBelow-All, IsSound, Builds, Builds-refl,
}
use beeper.Builder.Walks.{Spells-refl, Walks-Extends, Spelled, push_inner-Spelled}

-- A run of `n` wildcards.
abbrev pub wildcards : ℕ → List ℕ
wildcards zero = []
wildcards (suc n) = any_input ∷ wildcards n

wildcards-AreInputs : (n : ℕ) → AreInputs (wildcards n)
wildcards-AreInputs zero = tt
wildcards-AreInputs (suc n) = (omega arith, wildcards-AreInputs n)

any_prefixes-AreInputs : (n : ℕ) → All (λ (p : OptionalPrefix). AreInputs p.inputs) (any_prefixes n)
unfolding any_prefixes
any_prefixes-AreInputs zero = tt
any_prefixes-AreInputs (suc n) = ((omega arith, tt), any_prefixes-AreInputs n)

module _ {A : Type 0} where
  add_prefixes-IsSound :
      (b : DfaBuilder A) (ps : List OptionalPrefix)
      → IsSound b
      → All (λ (p : OptionalPrefix). AreInputs p.inputs) ps
      → IsSound (record b { optional_prefixes = b.optional_prefixes ++ ps })
  add_prefixes-IsSound b ps s h = record {
    valid = s.valid;
    state = s.state;
    optional = s.optional;
    prefixes =
        All-append (λ (p : OptionalPrefix). AreInputs p.inputs) b.optional_prefixes ps s.prefixes h;
    last = s.last;
  }

  pub push_optional-Builds :
      (b : DfaBuilder A) (cs : List ℕ) (repeat : Bool)
      → IsSound b
      → AreInputs cs
      → Builds b (push_optional b cs repeat)
  unfolding push_optional
  push_optional-Builds b cs repeat s h = record {
    extends = Extends-refl b.dfa;
    sound = add_prefixes-IsSound b _ s (h, tt);
  }

  -- A loop on a wildcard takes any number of further wildcards.
  walk-loop :
      (d : Dfa A) (s : StateId) (n : ℕ) → Leads d s any_input s → walk d s (wildcards n) ≡ some s
  unfolding walk
  walk-loop d s zero h = refl
  walk-loop d s (suc n) h = rw (walk-cons d s any_input (wildcards n) s h) (walk-loop d s n h)

  -- The shortest run leads to the state that the range ends in, which an open range loops in.
  pub record AnyPushed (b : DfaBuilder A) (start end : Bound) (b' : DfaBuilder A) : Type 0 where
    pub builds : Builds b b'
    pub shortest : walk b'.dfa b.state (wildcards (min_len start)) ≡ some b'.state
    pub loop : end ≡ unbounded → Leads b'.dfa b'.state any_input b'.state

  module _ ⦃eq : Eq A⦄ where
    push_any_edges-push_inner :
        (b : DfaBuilder A) (n : ℕ) → push_any_edges b n ≡ push_inner b (wildcards n) true
    unfolding push_any_edges push_inner
    push_any_edges-push_inner b zero = refl
    push_any_edges-push_inner b (suc n) = rw (fun_ext (λ b'. push_any_edges-push_inner b' n))

    push_any_loop-Loops :
        (b : DfaBuilder A) (end : Bound)
        → IsSound b
        → Ensures
            (λ b'.
              Builds b b'
              × (b'.state ≡ b.state)
              × (end ≡ unbounded → Leads b'.dfa b'.state any_input b'.state))
            (push_any_loop b end)
    unfolding push_any_loop
    push_any_loop-Loops b unbounded s =
        Ensures-bind (Pushed b.dfa b.state any_input (some b.state) true) _ _ _
          (push_edge_from-Pushed b.dfa b.state any_input (some b.state) true s.valid s.state
            (omega arith) (λ t e. ground (arith, s.state)))
          λ r w. Ensures-returns _ _ (
            record {
              extends = w.extends;
              sound = record {
                valid = w.extends.valid s.valid;
                state = omega (arith, s.state, w.extends.states);
                optional = IsBelow-All b.optional_states w.extends s.optional;
                prefixes = s.prefixes;
                last =
                    All-append (LastLeads r.1) b.last_edges _
                      (LastLeads-All b.last_edges w.extends s.last) ((r.0, w.leads), tt);
              };
            },
            refl,
            λ e. subst (λ t. Leads r.1 b.state any_input t) (w.asked b.state refl) w.leads.exact,
          )
    push_any_loop-Loops b (excluded n) s =
        Ensures-returns _ b (Builds-refl b s, refl, λ e. absurd (cc e))
    push_any_loop-Loops b (included n) s =
        Ensures-returns _ b (Builds-refl b s, refl, λ e. absurd (cc e))

    -- For a sound builder: if pushing a range of wildcards returns, the builder is sound over an
    -- extension of the DFA, the least number of wildcards leads from the state that the builder was
    -- in to the state that it ends in, and an unbounded range has a wildcard loop there. If it
    -- panics, it is not for a missing state or edge, an unsupported name or an index out of bounds.
    pub push_any-AnyPushed :
        (b : DfaBuilder A) (start end : Bound)
        → IsSound b
        → Ensures (AnyPushed b start end) (push_any b start end)
    unfolding push_any
    push_any-AnyPushed b start end s =
        let min : ℕ = min_len start in
        let max : ℕ = max_len end min in
        elim (Bool-cases (leb min max)) [
          | inr empty ↦ rw empty (Ensures-panics (AnyPushed b start end) empty_range tt)
          | inl fits ↦
              rw (fits, push_any_edges-push_inner)
                (Ensures-bind (Spelled b (wildcards min) true) (AnyPushed b start end) _ _
                  (push_inner-Spelled b (wildcards min) true s (wildcards-AreInputs min))
                  λ b₁ h.
                    let b₂ : DfaBuilder A = record b₁ {
                      optional_prefixes = b₁.optional_prefixes ++ any_prefixes (max - min);
                    } in
                    Ensures-mono _ (AnyPushed b start end) _
                      (push_any_loop-Loops b₂ end (
                        add_prefixes-IsSound b₁ _ h.builds.sound
                          (any_prefixes-AreInputs (max - min))))
                      λ b' k. record {
                        builds = record {
                          extends = Extends-trans h.builds.extends k.0.extends;
                          sound = k.0.sound;
                        };
                        shortest =
                            subst (λ t. walk b'.dfa b.state (wildcards min) ≡ some t) (sym k.1)
                              (Walks-Extends b.state true (wildcards min) b₁.state k.0.extends
                                h.walks (wildcards min) (Spells-refl true (wildcards min)));
                        loop = k.2;
                      })
        ]
