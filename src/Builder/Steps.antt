-- ===== src/Builder/Steps.antt =====
-- One step of a pattern: `push_edge` of beeper/src/dfa.rs.
use beeper.Prelude.{
  ◌≤◌, ◌<◌, ◌≡◌, refl, ◌∙◌, Bool, Option, some, List, [], ◌∷◌, ◌++◌, Eq, arith, All, All-append,
  All-mono,
}
use mathlib.Core.List.{append-nil, append_assoc}
use beeper.Run.{Ensures, Ensures-returns, Ensures-bind, Ensures-mono}
use beeper.Dfa.{StateId, Input, Dfa, any_input}
use beeper.Dfa.Extends.{IsValid, Extends, Extends-refl, Extends-trans}
use beeper.Builder.{LastEdge, DfaBuilder, follow_optional, push_edge}
use beeper.Builder.Growth.{IsBelow, LeadsBoth, LeadsBoth-Extends, Pushed, push_edge_from-Pushed}
use beeper.Builder.Prefixes.{PrefixesBuilt, push_optional_prefixes-Flushed}
use beeper.Builder.Sound.{LastLeads, IsBelow-All, IsSound, Builds}

module _ {A : Type 0} where
  -- A last edge that leads to `t`.
  abbrev pub Routes : Dfa A → StateId → LastEdge → Type 0
  Routes d t e = LeadsBoth d e.from e.input e.case_sensitive t

  pub Routes-All :
      {d d' : Dfa A} (t : StateId) (xs : List LastEdge)
      → Extends d d'
      → All (Routes d t) xs
      → All (Routes d' t) xs
  Routes-All {d} {d'} t xs x h =
      All-mono (Routes d t) (Routes d' t)
        (λ e k. LeadsBoth-Extends e.from e.input e.case_sensitive t x k) xs h

  Routes-LastLeads :
      (d : Dfa A) (t : StateId) (xs : List LastEdge) → All (Routes d t) xs → All (LastLeads d) xs
  Routes-LastLeads d t xs h = All-mono (Routes d t) (LastLeads d) (λ e k. (t, k)) xs h

  record Followed (d : Dfa A) (to : StateId) (edges : List LastEdge) (r : Dfa A × List LastEdge)
      : Type 0 where
    extends : Extends d r.0
    routes : All (Routes r.0 to) r.1
    more : (es : List LastEdge) × (r.1 ≡ edges ++ es)

  -- `push_edge`: the edge leads from the old state to the new one, as all the last edges do.
  pub record Stepped (b : DfaBuilder A) (i : Input) (to : Option StateId) (cs : Bool)
      (b' : DfaBuilder A) : Type 0 where
    pub builds : Builds b b'
    pub leads : LeadsBoth b'.dfa b.state i cs b'.state
    pub asked : (t : StateId) → to ≡ some t → b'.state ≡ t
    pub cleared : b'.optional_states ≡ []
    pub pending : b'.optional_prefixes ≡ []
    pub routes : All (Routes b'.dfa b'.state) b'.last_edges
    pub first :
        (es : List LastEdge) × (b'.last_edges
          ≡ record { from = b.state; input = i; case_sensitive = cs } ∷ es)

  module _ ⦃eq : Eq A⦄ where
    follow_optional-Followed :
        (d : Dfa A) (states : List StateId) (i : Input) (to : StateId) (cs : Bool)
        (edges : List LastEdge)
        → IsValid d
        → All (IsBelow d) states
        → i ≤ any_input
        → to < d.num_states
        → All (Routes d to) edges
        → Ensures (Followed d to edges) (follow_optional d states i to cs edges)
    unfolding follow_optional
    follow_optional-Followed d [] i to cs edges v hs hi ht routes =
        Ensures-returns (Followed d to edges) (d, edges)
          (record { extends = Extends-refl d; routes = routes; more = ([], rw append-nil) })
    follow_optional-Followed d (f ∷ fs) i to cs edges v hs hi ht routes =
        let e : LastEdge = record { from = f; input = i; case_sensitive = cs } in
        Ensures-bind (Pushed d f i (some to) cs) (Followed d to edges) _ _
          (push_edge_from-Pushed d f i (some to) cs v hs.0 hi (λ t q. ground arith))
          λ r w.
            Ensures-mono (Followed r.1 to (edges ++ e ∷ [])) (Followed d to edges) _
              (follow_optional-Followed r.1 fs i to cs (edges ++ e ∷ []) (w.extends.valid v)
                (IsBelow-All fs w.extends hs.1) hi (omega (arith, w.extends.states))
                (All-append (Routes r.1 to) edges (e ∷ []) (Routes-All to edges w.extends routes)
                  (rw (w.asked to refl) at w.leads, tt)))
              λ q k. record {
                extends = Extends-trans w.extends k.extends;
                routes = k.routes;
                more = (e ∷ k.more.0, k.more.1 ∙ append_assoc edges (e ∷ []) k.more.0);
              }

    -- For a sound builder, an input in range and a target below the number of states where one is
    -- given: if pushing an edge returns, the builder is sound over an extension of the DFA; the
    -- input, and its other case where case does not count, leads from the state that the builder
    -- was in to its new state, the given one if there is one; nothing optional is left; and every
    -- last edge leads to the new state, the first being the pushed one. If it panics, it is not for
    -- a missing state or edge, an unsupported name or an index out of bounds.
    pub push_edge-Stepped :
        (b : DfaBuilder A) (i : Input) (to : Option StateId) (cs : Bool)
        → IsSound b
        → i ≤ any_input
        → ((t : StateId) → to ≡ some t → t < b.dfa.num_states)
        → Ensures (Stepped b i to cs) (push_edge b i to cs)
    unfolding push_edge
    push_edge-Stepped b i to cs s hi ht =
        Ensures-bind (PrefixesBuilt b) (Stepped b i to cs) _ _ (push_optional_prefixes-Flushed b s)
          λ b₁ h₁.
            let s₁ : IsSound b₁ = h₁.0.sound in
            Ensures-bind (Pushed b₁.dfa b₁.state i to cs) (Stepped b i to cs) _ _
              (push_edge_from-Pushed b₁.dfa b₁.state i to cs s₁.valid s₁.state hi
                (λ t e. omega (arith, ht t e, h₁.0.extends.states)))
              λ r w.
                let e : LastEdge = record { from = b₁.state; input = i; case_sensitive = cs } in
                Ensures-bind (Followed r.1 r.0 (e ∷ [])) (Stepped b i to cs) _ _
                  (follow_optional-Followed r.1 b₁.optional_states i r.0 cs (e ∷ [])
                    (w.extends.valid s₁.valid)
                    (IsBelow-All b₁.optional_states w.extends s₁.optional) hi w.leads.target
                    (w.leads, tt))
                  λ q k.
                    let x : Extends b₁.dfa q.0 = Extends-trans w.extends k.extends in
                    Ensures-returns (Stepped b i to cs) _ (record {
                      builds = record {
                        extends = Extends-trans h₁.0.extends x;
                        sound = record {
                          valid = x.valid s₁.valid;
                          state = omega (arith, w.leads.target, k.extends.states);
                          optional = tt;
                          prefixes = s₁.prefixes;
                          last = Routes-LastLeads q.0 r.0 q.1 k.routes;
                        };
                      };
                      leads = rw (← h₁.1) (LeadsBoth-Extends b₁.state i cs r.0 k.extends w.leads);
                      asked = w.asked;
                      cleared = refl;
                      pending = h₁.2;
                      routes = k.routes;
                      first = rw (← h₁.1) k.more;
                    })
