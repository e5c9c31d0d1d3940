-- ===== src/Builder/Actions.antt =====
-- `with` of beeper/src/dfa.rs: the action comes to stand on every edge into the state.
use mathlib.Core.Path.{subst}
use beeper.Prelude.{◌≤◌, ◌<◌, ◌≡◌, refl, false, Option, none, some, List, [], ◌∷◌, Eq, arith, All}
use beeper.Run.{Ensures, Ensures-returns, Ensures-bind, Ensures-mono}
use beeper.Dfa.{StateId, Input, Dfa, any_input}
use beeper.Dfa.Extends.{
  Extends, Extends-refl, Extends-trans, Leads, Leads-Extends, Carries, Carries-Extends,
}
use beeper.Dfa.Growth.{Added, add_action-Added}
use beeper.Builder.{LastEdge, DfaBuilder, add_other, add_actions, with_action, other_case}
use beeper.Builder.Growth.{other_input, other_input_inv, other_case-le}
use beeper.Builder.Prefixes.{PrefixesBuilt, push_optional_prefixes-Flushed}
use beeper.Builder.Sound.{LastLeads, LastLeads-All, IsBelow-All, IsSound, Builds, More}

module _ {A : Type 0} where
  -- The edge carries the action, and so does the one for its other case.
  abbrev pub CarriesBoth : Dfa A → A → LastEdge → Type 0
  CarriesBoth d a e =
      Carries d e.from e.input a
      × ((o : Input)
          → e.case_sensitive ≡ false
          → other_case e.input ≡ some o
          → Carries d e.from o a)

  pub CarriesBoth-Extends :
      {d d' : Dfa A} (a : A) (e : LastEdge) → Extends d d' → CarriesBoth d a e → CarriesBoth d' a e
  CarriesBoth-Extends a e x h =
      (Carries-Extends e.from e.input a x h.0, λ o c k. Carries-Extends e.from o a x (h.1 o c k))

  -- `with`: every edge into the state carries the action.
  pub record Acted (b : DfaBuilder A) (a : A) (b' : DfaBuilder A) : Type 0 where
    pub builds : Builds b b'
    pub state : b'.state ≡ b.state
    pub pending : b'.optional_prefixes ≡ []
    pub more : More b.last_edges b'.last_edges
    pub carries : All (CarriesBoth b'.dfa a) b'.last_edges

  module _ ⦃eq : Eq A⦄ where
    add_other-Carries :
        (d : Dfa A) (f : StateId) (o : Option Input) (t : StateId) (a : A)
        → f < d.num_states
        → t < d.num_states
        → ((i : Input) → o ≡ some i → (i ≤ any_input) × Leads d f i t)
        → Ensures
            (λ d'. Extends d d' × ((i : Input) → o ≡ some i → Carries d' f i a))
            (add_other d f o a)
    unfolding add_other
    add_other-Carries d f none t a hf ht hi =
        Ensures-returns _ d (Extends-refl d, λ i e. absurd (cc e))
    add_other-Carries d f (some o) t a hf ht hi =
        Ensures-mono (Added d f o t a) _ _
          (add_action-Added d f o hf (hi o refl).0 t a (hi o refl).1 ht)
          (λ d' h. (h.0.0, λ i e. subst (λ j. Carries d' f j a) (cc) h.1))

    -- the loop of `with`
    add_actions-CarriesBoth :
        (d : Dfa A) (edges : List LastEdge) (a : A)
        → All (LastLeads d) edges
        → Ensures (λ d'. Extends d d' × All (CarriesBoth d' a) edges) (add_actions d edges a)
    unfolding add_actions
    add_actions-CarriesBoth d [] a h = Ensures-returns _ d (Extends-refl d, tt)
    add_actions-CarriesBoth d (e ∷ edges) a ((t, l), rest) =
        Ensures-bind (Added d e.from e.input t a) _ _ _
          (add_action-Added d e.from e.input l.below l.byte t a l.exact l.target)
          λ d₁ h₁.
            Ensures-bind
              (λ d₂.
                Extends d₁ d₂
                × ((o : Input)
                    → other_input e.input e.case_sensitive ≡ some o
                    → Carries d₂ e.from o a))
              _ _ _
              (add_other-Carries d₁ e.from (other_input e.input e.case_sensitive) t a
                (omega (arith, l.below, h₁.0.2)) (omega (arith, l.target, h₁.0.2))
                (λ i q.
                  let (c, k) = other_input_inv e.input e.case_sensitive i q in
                  (other_case-le e.input i k, Leads-Extends e.from i t h₁.0.0 (l.other i c k))))
              λ d₂ h₂.
                let x : Extends d d₂ = Extends-trans h₁.0.0 h₂.0 in
                Ensures-mono (λ d₃. Extends d₂ d₃ × All (CarriesBoth d₃ a) edges) _ _
                  (add_actions-CarriesBoth d₂ edges a (LastLeads-All edges x rest))
                  λ d₃ k. (
                    Extends-trans x k.0,
                    (
                      CarriesBoth-Extends a e k.0
                          (Carries-Extends e.from e.input a h₂.0 h₁.1, λ o c q. h₂.1 o (rw (c, q))),
                      k.1,
                    ),
                  )

    -- For a sound builder: if `with` returns, the builder is sound over an extension of the DFA, in
    -- the same state, with nothing optional pending, and every last edge, those that were there
    -- before included, carries the action, for both cases where case does not count. If it panics,
    -- it is not for a missing state or edge, an unsupported name or an index out of bounds.
    pub with_action-Acted :
        (b : DfaBuilder A) (a : A) → IsSound b → Ensures (Acted b a) (with_action b a)
    unfolding with_action
    with_action-Acted b a s =
        Ensures-bind (PrefixesBuilt b) (Acted b a) _ _ (push_optional_prefixes-Flushed b s) λ b₁ h₁.
          let s₁ : IsSound b₁ = h₁.0.sound in
          Ensures-bind (λ d. Extends b₁.dfa d × All (CarriesBoth d a) b₁.last_edges) (Acted b a) _ _
            (add_actions-CarriesBoth b₁.dfa b₁.last_edges a s₁.last)
            λ d k. Ensures-returns (Acted b a) _ (record {
              builds = record {
                extends = Extends-trans h₁.0.extends k.0;
                sound = record {
                  valid = k.0.valid s₁.valid;
                  state = omega (arith, s₁.state, k.0.states);
                  optional = IsBelow-All b₁.optional_states k.0 s₁.optional;
                  prefixes = s₁.prefixes;
                  last = LastLeads-All b₁.last_edges k.0 s₁.last;
                };
              };
              state = h₁.1;
              pending = h₁.2;
              more = h₁.3;
              carries = k.1;
            })
