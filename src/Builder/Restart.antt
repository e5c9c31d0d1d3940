-- ===== src/Builder/Restart.antt =====
-- `restart_with` of beeper/src/dfa.rs: the pattern ends where the walk from the fallback state ends.
use mathlib.Core.Path.{subst}
use beeper.Prelude.{ℕ, ◌<◌, ◌≡◌, ◌≢◌, refl, sym, false, some, List, [], ◌∷◌, Eq, arith}
use beeper.Run.{Ensures, Ensures-returns, Ensures-bind, Ensures-mono}
use beeper.Dfa.{StateId, Dfa, any_state}
use beeper.Dfa.Extends.{IsValid, Extends, Extends-refl, Extends-trans}
use beeper.Dfa.Growth.{Fresh, next_state-Fresh}
use beeper.Builder.{DfaBuilder}
use beeper.Builder.Growth.{LeadsBoth, Pushed, push_edge_from-Pushed}
use beeper.Builder.Patterns.{restart_fold, restart_with}
use beeper.Builder.Sound.{AreInputs, IsBelow-All, LastLeads-All, IsSound, Builds}
use beeper.Builder.Walks.{Walks, Walks-nil, Walks-cons, Walks-Extends, push_into-Spelled}

module _ {A : Type 0} where
  -- `d` grown to hold a walk of `cs` from `s`
  record Folded (d : Dfa A) (s : StateId) (cs : List ℕ) (r : StateId × Dfa A) : Type 0 where
    extends : Extends d r.1
    below : r.0 < r.1.num_states
    walks : Walks r.1 s false cs r.0

  -- Both the builder's state and the fallback state walk the input to the state that is left.
  pub record Restarted (b : DfaBuilder A) (cs : List ℕ) (b' : DfaBuilder A) : Type 0 where
    pub builds : Builds b b'
    pub walks : Walks b'.dfa b.state false cs b'.state
    pub any : Walks b'.dfa any_state false cs b'.state

  -- The invariant of a builder does not look at more of the DFA than its growth keeps.
  pub IsSound-dfa :
      (b : DfaBuilder A) (d : Dfa A) → IsSound b → Extends b.dfa d → IsSound (record b { dfa = d })
  IsSound-dfa b d s x = record {
    valid = x.valid s.valid;
    state = omega (arith, s.state, x.states);
    optional = IsBelow-All b.optional_states x s.optional;
    prefixes = s.prefixes;
    last = LastLeads-All b.last_edges x s.last;
  }

  module _ ⦃eq : Eq A⦄ where
    restart_fold-Folded :
        (d : Dfa A) (s : StateId) (cs : List ℕ)
        → IsValid d
        → s < d.num_states
        → AreInputs cs
        → Ensures (Folded d s cs) (restart_fold d s cs)
    unfolding restart_fold
    restart_fold-Folded d s [] v hs hi =
        Ensures-returns (Folded d s []) (s, d)
          (record { extends = Extends-refl d; below = hs; walks = Walks-nil d s false })
    restart_fold-Folded d s (c ∷ cs) v hs hi =
        Ensures-bind (Fresh d) (Folded d s (c ∷ cs)) _ _ (next_state-Fresh d s c v) λ r fr.
          Ensures-bind (Pushed r.1 s c (some r.0) false) (Folded d s (c ∷ cs)) _ _
            (push_edge_from-Pushed r.1 s c (some r.0) false (fr.0.valid v)
              (omega (arith, fr.0.states)) hi.0 (λ t e. ground (arith, fr.1)))
            λ q w.
              let same : q.0 ≡ r.0 = w.asked r.0 refl in
              let leads : LeadsBoth q.1 s c false r.0 =
                subst (λ t. LeadsBoth q.1 s c false t) same w.leads in
              Ensures-mono (Folded q.1 r.0 cs) (Folded d s (c ∷ cs)) _
                (restart_fold-Folded q.1 r.0 cs (w.extends.valid (fr.0.valid v)) leads.target hi.1)
                λ z k. record {
                  extends = Extends-trans fr.0 (Extends-trans w.extends k.extends);
                  below = k.below;
                  walks = Walks-cons q.1 z.1 s c cs false r.0 z.0 leads k.extends k.walks;
                }

    -- For a sound builder and a non-empty string of inputs: if `restart_with` returns, the builder
    -- is sound over an extension of the DFA and ends in a state that every spelling of the string,
    -- in any case, leads to, both from the state that the builder was in and from the fallback
    -- state. If it panics, it is not for a missing state or edge, an unsupported name or an index
    -- out of bounds.
    pub restart_with-Restarted :
        (b : DfaBuilder A) (cs : List ℕ)
        → IsSound b
        → AreInputs cs
        → cs ≢ []
        → Ensures (Restarted b cs) (restart_with b cs)
    unfolding restart_with
    restart_with-Restarted b cs s hi ne =
        Ensures-bind (Folded b.dfa any_state cs) (Restarted b cs) _ _
          (restart_fold-Folded b.dfa any_state cs s.valid (omega (arith, s.valid.reserved)) hi)
          λ r w.
            Ensures-mono _ (Restarted b cs) _
              (push_into-Spelled (record b { dfa = r.1 }) cs r.0 false
                (IsSound-dfa b r.1 s w.extends) hi ne w.below)
              λ b' k. record {
                builds = record {
                  extends = Extends-trans w.extends k.0.builds.extends;
                  sound = k.0.builds.sound;
                };
                walks = k.0.walks;
                any =
                    subst (λ t. Walks b'.dfa any_state false cs t) (sym k.1)
                      (Walks-Extends any_state false cs r.0 k.0.builds.extends w.walks);
              }
