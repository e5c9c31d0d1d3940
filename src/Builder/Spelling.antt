-- ===== src/Builder/Spelling.antt =====
-- The inner loop of `push_optional_prefixes` of beeper/src/dfa.rs, over the inputs of one prefix.
use beeper.Prelude.{
  ◌<◌, ◌≡◌, refl, Bool, true, false, Option, none, some, List, [], ◌∷◌, Eq, nat_eq, arith, All,
  All-append, if◌then◌else◌,
}
use beeper.Run.{Ensures, Ensures-returns, Ensures-bind, Ensures-mono}
use beeper.Dfa.{StateId, Input, Dfa}
use beeper.Dfa.Extends.{IsValid, Extends, Extends-refl, Extends-trans}
use beeper.Builder.{OptionalPrefix, LastEdge, push_prefix_inputs}
use beeper.Builder.Branches.{Closes, asked-IsBack, Chain}
use beeper.Builder.Growth.{LeadsBoth-Extends, Pushed, push_edge_from-Pushed}
use beeper.Builder.Sound.{AreInputs, More, More-refl, LastLeads, LastLeads-All}

module _ {A : Type 0} ⦃eq : Eq A⦄ where
  -- what the inner loop guarantees of the state, the DFA and the last edges that it returns
  pub record PrefixPushed (d : Dfa A) (p : OptionalPrefix) (source from : StateId)
      (inputs : List Input) (edges : List LastEdge) (r : StateId × Dfa A × List LastEdge)
      : Type 0 where
    pub chain : Chain r.1 from inputs p.case_sensitive r.0
    pub closes : Closes p.repeat source inputs r.0
    pub extends : Extends d r.1
    pub below : r.0 < r.1.num_states
    pub last : All (LastLeads r.1) r.2
    pub more : More edges r.2

  asked-below :
      (d : Dfa A) (r : Bool) (s : StateId)
      → s < d.num_states
      → (t : StateId) → (if r then some s else none) ≡ some t
      → t < d.num_states
  asked-below d true s h t e = ground arith
  asked-below d false s h t e = cc

  pub push_prefix_inputs-PrefixPushed :
      (d : Dfa A) (p : OptionalPrefix) (source from : StateId) (inputs : List Input)
      (edges : List LastEdge)
      → IsValid d
      → source < d.num_states
      → from < d.num_states
      → AreInputs inputs
      → All (LastLeads d) edges
      → Ensures
          (PrefixPushed d p source from inputs edges)
          (push_prefix_inputs d p source from inputs edges)
  unfolding push_prefix_inputs
  push_prefix_inputs-PrefixPushed d p source from [] edges v hs hf hi last =
      Ensures-returns (PrefixPushed d p source from [] edges) (from, d, edges)
        (record {
          chain = refl;
          closes = tt;
          extends = Extends-refl d;
          below = hf;
          last = last;
          more = More-refl edges;
        })
  push_prefix_inputs-PrefixPushed d p source from (i ∷ []) edges v hs hf hi last =
      let to : Option StateId = if p.repeat then some source else none in
      Ensures-bind (Pushed d from i to p.case_sensitive)
        (PrefixPushed d p source from (i ∷ []) edges) _ _
        (push_edge_from-Pushed d from i to p.case_sensitive v hf hi.0
          (asked-below d p.repeat source hs))
        λ r w. Ensures-returns (PrefixPushed d p source from (i ∷ []) edges) _ (record {
          chain = (r.0, w.leads, refl);
          closes = asked-IsBack p.repeat source r.0 w.asked;
          extends = w.extends;
          below = w.leads.target;
          last =
              All-append (LastLeads r.1) edges _ (LastLeads-All edges w.extends last)
                ((r.0, w.leads), tt);
          more = (_, refl);
        })
  push_prefix_inputs-PrefixPushed d p source from (i ∷ j ∷ rest) edges v hs hf hi last =
      Ensures-bind (Pushed d from i none p.case_sensitive)
        (PrefixPushed d p source from (i ∷ j ∷ rest) edges) _ _
        (push_edge_from-Pushed d from i none p.case_sensitive v hf hi.0 (λ t e. cc))
        λ r w.
          Ensures-mono (PrefixPushed r.1 p source r.0 (j ∷ rest) edges)
            (PrefixPushed d p source from (i ∷ j ∷ rest) edges) _
            (push_prefix_inputs-PrefixPushed r.1 p source r.0 (j ∷ rest) edges (w.extends.valid v)
              (omega (arith, hs, w.extends.states)) w.leads.target hi.1
              (LastLeads-All edges w.extends last))
            λ q k. record {
              chain =
                  (r.0, LeadsBoth-Extends from i p.case_sensitive r.0 k.extends w.leads, k.chain);
              closes = k.closes;
              extends = Extends-trans w.extends k.extends;
              below = k.below;
              last = k.last;
              more = k.more;
            }
