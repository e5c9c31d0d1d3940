-- ===== src/Builder/Growth.antt =====
-- Every method of `DfaBuilder` (beeper/src/dfa.rs) extends the DFA, keeps the builder's states and
-- last edges in it, and never looks for an edge that is not there.
use mathlib.Core.Path.{subst}
use beeper.Prelude.{
  ℕ, ◌+◌, ◌∙◌, Option-cases, inl, inr, ltb, Bool-cases, ◌≤◌, ◌<◌, ◌≡◌, refl, sym, ap, Bool, true,
  false, Option, none, some, Eq, nat_eq, arith, unwrap_or, if◌then◌else◌,
}
use beeper.Run.{returns, returns-eq, Ensures, Ensures-returns, Ensures-bind, Ensures-mono}
use beeper.Dfa.{StateId, Input, Edge, edge_at, new_state, Dfa, u16_mod, any_input, next_state}
use beeper.Dfa.Extends.{IsValid, Extends, Extends-refl, Extends-trans, Leads, Leads-Extends}
use beeper.Dfa.Growth.{Fresh, next_state-Fresh, Inserted, insert_edge-Inserted}
use beeper.Builder.{other_case, insert_other, push_edge_from}

abbrev pub other_input : Input → Bool → Option Input
other_input i cs = if cs then none else other_case i

pub other_case-le : (i o : Input) → other_case i ≡ some o → o ≤ any_input
unfolding other_case
other_case-le i o h = ground arith

pub other_input_inv :
    (i : Input) (cs : Bool) (o : Input)
    → other_input i cs ≡ some o
    → (cs ≡ false) × (other_case i ≡ some o)
other_input_inv i true o h = absurd (cc h)
other_input_inv i false o h = (refl, h)

pub other_input-le : (i : Input) (cs : Bool) (o : Input) → other_input i cs ≡ some o → o ≤ any_input
other_input-le i true o h = cc
other_input-le i false o h = other_case-le i o h

module _ {A : Type 0} where
  abbrev pub IsBelow : Dfa A → StateId → Type 0
  IsBelow d s = s < d.num_states

  -- The edges for the input, and for its other case where case does not count, lead to `t`.
  pub record LeadsBoth (d : Dfa A) (f : StateId) (i : Input) (cs : Bool) (t : StateId)
      : Type 0 where
    pub below : f < d.num_states
    pub target : t < d.num_states
    pub byte : i ≤ any_input
    pub exact : Leads d f i t
    pub other : (o : Input) → cs ≡ false → other_case i ≡ some o → Leads d f o t

  pub LeadsBoth-Extends :
      {d d' : Dfa A} (f : StateId) (i : Input) (cs : Bool) (t : StateId)
      → Extends d d'
      → LeadsBoth d f i cs t
      → LeadsBoth d' f i cs t
  LeadsBoth-Extends f i cs t x h = record {
    below = omega (arith, x.states, h.below);
    target = omega (arith, x.states, h.target);
    byte = h.byte;
    exact = Leads-Extends f i t x h.exact;
    other = λ o c e. Leads-Extends f o t x (h.other o c e);
  }

  -- The state ids that `next_state` hands out, by the edge that is there.
  abbrev pub new_ids : Option (Edge A) → ℕ
  new_ids none = 1
  new_ids (some e) = 0

  -- The state that an edge leads to if no target is asked for.
  abbrev pub next_of : Dfa A → Option (Edge A) → StateId
  next_of d none = d.num_states
  next_of d (some e) = e.to

  abbrev IsNext : Dfa A → Option (Edge A) → StateId × Dfa A → Type 0
  IsNext d o r = (r.0 ≡ next_of d o) × (r.1.num_states ≡ d.num_states + new_ids o)

  next_state-IsNext :
      (d : Dfa A) (f : StateId) (i : Input) (r : StateId × Dfa A)
      → next_state d f i ≡ returns r
      → IsNext d (edge_at d f i) r
  unfolding next_state new_state
  next_state-IsNext d f i r run = elim (Option-cases (edge_at d f i)) [
    | inl absent ↦ elim (Bool-cases (ltb (d.num_states + 1) u16_mod)) [
      | inl room ↦
          let e = returns-eq (rw (absent, next_state, room) at run) in
          rw absent (
            sym (ap (λ (x : StateId × Dfa A). x.0) e),
            sym (ap (λ (x : StateId × Dfa A). x.1.num_states) e),
          )
      | inr full ↦ absurd (cc (rw (absent, next_state, full) at run))
    ]
    | inr (e, found) ↦
        let same = returns-eq (rw (found, next_state) at run) in
        rw found (subst (IsNext d (some e)) same (refl, omega arith))
  ]

  -- What `push_edge_from` guarantees: the edges are there, and lead to the target that was asked for,
  -- and an id is handed out where no edge was there, whether or not a target was asked for.
  pub record Pushed (d : Dfa A) (f : StateId) (i : Input) (to : Option StateId) (cs : Bool)
      (r : StateId × Dfa A) : Type 0 where
    pub extends : Extends d r.1
    pub leads : LeadsBoth r.1 f i cs r.0
    pub asked : (t : StateId) → to ≡ some t → r.0 ≡ t
    pub chosen : to ≡ none → r.0 ≡ next_of d (edge_at d f i)
    pub count : r.1.num_states ≡ d.num_states + new_ids (edge_at d f i)

  module _ ⦃eq : Eq A⦄ where
    insert_other-Extends :
        (d : Dfa A) (f : StateId) (o : Option Input) (t : StateId)
        → f < d.num_states
        → t < d.num_states
        → ((i : Input) → o ≡ some i → i ≤ any_input)
        → Ensures
            (λ d'.
              Extends d d'
              × ((i : Input) → o ≡ some i → Leads d' f i t)
              × (d'.num_states ≡ d.num_states))
            (insert_other d f o t)
    unfolding insert_other
    insert_other-Extends d f none t hf ht hi =
        Ensures-returns _ d (Extends-refl d, λ i e. absurd (cc e), refl)
    insert_other-Extends d f (some o) t hf ht hi =
        Ensures-mono _ _ _ (insert_edge-Inserted d f o hf (hi o refl) t none ht)
          (λ d' ins. (ins.0, λ i e. subst (λ j. Leads d' f j t) (cc) ins.1, ins.2))

    unwrap_or-below :
        (d : Dfa A) (to : Option StateId) (next : StateId)
        → ((t : StateId) → to ≡ some t → t < d.num_states)
        → next < d.num_states
        → unwrap_or to next < d.num_states
    unwrap_or-below d none next ht hn = hn
    unwrap_or-below d (some t) next ht hn = ht t refl

    -- In a valid DFA, from a state and with an input in range and a target below the number of
    -- states where one is given: if `push_edge_from` returns, the DFA has been extended, and the
    -- input, and its other case where case does not count, leads to the returned state: the given
    -- one, or if none is given the one that the edge for the input already led to, or else a new
    -- one. Whether or not one is given, the DFA has one more state just if it had no edge for the
    -- input: the argument of `unwrap_or` is evaluated either way. If it panics, it is not for a
    -- missing state or edge, an unsupported name or an index out of bounds.
    pub push_edge_from-Pushed :
        (d : Dfa A) (f : StateId) (i : Input) (to : Option StateId) (cs : Bool)
        → IsValid d
        → f < d.num_states
        → i ≤ any_input
        → ((t : StateId) → to ≡ some t → t < d.num_states)
        → Ensures (Pushed d f i to cs) (push_edge_from d f i to cs)
    unfolding push_edge_from
    push_edge_from-Pushed d f i to cs v hf hi ht =
        let next = next_state-Fresh d f i v in
        Ensures-bind (λ r. Fresh d r × IsNext d (edge_at d f i) r) (Pushed d f i to cs)
          (next_state d f i) _
          (record {
            post = λ r run. (next.post r run, next_state-IsNext d f i r run);
            fault = next.fault;
          })
          λ r (fr, counted).
            let target : StateId = unwrap_or to r.0 in
            let f₁ : f < r.1.num_states = omega (arith, fr.0.states) in
            let t₁ : target < r.1.num_states =
              unwrap_or-below r.1 to r.0 (λ t e. omega (arith, ht t e, fr.0.states)) fr.1 in
            Ensures-bind (Inserted r.1 f i target) (Pushed d f i to cs) _ _
              (insert_edge-Inserted r.1 f i f₁ hi target none t₁)
              λ d₂ ins.
                Ensures-bind
                  (λ d₃.
                    Extends d₂ d₃
                    × ((o : Input) → other_input i cs ≡ some o → Leads d₃ f o target)
                    × (d₃.num_states ≡ d₂.num_states))
                  (Pushed d f i to cs) _ _
                  (insert_other-Extends d₂ f (other_input i cs) target (omega (arith, ins.2))
                    (omega (arith, ins.2)) (other_input-le i cs))
                  λ d₃ ext.
                    Ensures-returns (Pushed d f i to cs) (target, d₃)
                      (record {
                        extends = Extends-trans fr.0 (Extends-trans ins.0 ext.0);
                        leads = record {
                          below = omega (arith, ins.2, ext.0.states);
                          target = omega (arith, ins.2, ext.0.states);
                          byte = hi;
                          exact = Leads-Extends f i target ext.0 ins.1;
                          other = λ o c e. ext.1 o (rw c e);
                        };
                        asked = λ t e. rw e;
                        count = ext.2 ∙ ins.2 ∙ counted.1;
                        chosen = λ e. rw e counted.0;
                      })
