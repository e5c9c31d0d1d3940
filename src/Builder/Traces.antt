-- ===== src/Builder/Traces.antt =====
-- Where `with` puts an action after a pushed string (beeper/src/dfa.rs): on the last edge of its walk.
use mathlib.Core.Path.{subst}
use beeper.Prelude.{ℕ, ◌≢◌, refl, List, [], ◌∷◌, ◌++◌, Eq, All, none, true}
use beeper.Run.{◌>>=◌, Ensures, Ensures-returns, Ensures-bind, Ensures-mono}
use beeper.Dfa.{StateId, Dfa}
use beeper.Dfa.Extends.{Extends, Extends-trans, Leads, Leads-Extends, Carries, Carries-Extends}
use beeper.Builder.{DfaBuilder, push_inner, push, with_action}
use beeper.Builder.Sound.{AreInputs, IsSound, Builds, Builds-trans}
use beeper.Builder.Steps.{Stepped, push_edge-Stepped}
use beeper.Builder.Actions.{CarriesBoth, Acted, with_action-Acted}

All-prefix {ℓ κ} : {B : Type ℓ} (P : B → Type κ) (xs ys : List B) → All P (xs ++ ys) → All P xs
All-prefix P [] ys h = tt
All-prefix P (x ∷ xs) ys h = (h.0, All-prefix P xs ys h.1)

module _ {A : Type 0} where
  -- The string leads somewhere, and its last edge carries the action.
  abbrev pub Ends : Dfa A → StateId → List ℕ → A → Type 0
  Ends d s [] a = ⊥
  Ends d s (c ∷ []) a = Carries d s c a
  Ends d s (c ∷ c' ∷ cs) a = (t : StateId) × Leads d s c t × Ends d t (c' ∷ cs) a

  pub Ends-Extends :
      {d d' : Dfa A} (s : StateId) (cs : List ℕ) (a : A)
      → Extends d d'
      → Ends d s cs a
      → Ends d' s cs a
  Ends-Extends s [] a x h = absurd h
  Ends-Extends s (c ∷ []) a x h = Carries-Extends s c a x h
  Ends-Extends s (c ∷ c' ∷ cs) a x (t, leads, rest) =
      (t, Leads-Extends s c t x leads, Ends-Extends t (c' ∷ cs) a x rest)

  -- An action on the last edges is an action at the end of the string.
  record Traced (b : DfaBuilder A) (cs : List ℕ) (b' : DfaBuilder A) : Type 0 where
    builds : Builds b b'
    trace :
        (d : Dfa A) (a : A)
        → Extends b'.dfa d
        → All (CarriesBoth d a) b'.last_edges
        → Ends d b.state cs a

  module _ ⦃eq : Eq A⦄ where
    push_inner-Traced :
        (b : DfaBuilder A) (c : ℕ) (cs : List ℕ)
        → IsSound b
        → AreInputs (c ∷ cs)
        → Ensures (Traced b (c ∷ cs)) (push_inner b (c ∷ cs) true)
    unfolding push_inner
    push_inner-Traced b c [] s hi =
        Ensures-bind (Stepped b c none true) (Traced b (c ∷ [])) _ _
          (push_edge-Stepped b c none true s hi.0 (λ t e. cc))
          λ b₁ h. Ensures-returns (Traced b (c ∷ [])) b₁ (record {
            builds = h.builds;
            trace = λ d a x k. (subst (All (CarriesBoth d a)) h.first.1 k).0.0;
          })
    push_inner-Traced b c (c' ∷ cs) s hi =
        Ensures-bind (Stepped b c none true) (Traced b (c ∷ c' ∷ cs)) _ _
          (push_edge-Stepped b c none true s hi.0 (λ t e. cc))
          λ b₁ h.
            Ensures-mono (Traced b₁ (c' ∷ cs)) (Traced b (c ∷ c' ∷ cs)) _
              (push_inner-Traced b₁ c' cs h.builds.sound hi.1)
              λ b₂ k. record {
                builds = Builds-trans h.builds k.builds;
                trace = λ d a x carried. (
                  b₁.state,
                  Leads-Extends b.state c b₁.state (Extends-trans k.builds.extends x) h.leads.exact,
                  k.trace d a x carried,
                );
              }

    -- For a sound builder and a string of inputs that is not empty: if pushing it and then attaching an
    -- action returns, the builder is sound over an extension of the DFA, and the string leads from
    -- the state that the builder was in along edges the last of which carries the action. If it
    -- panics, it is not for a missing state or edge, an unsupported name or an index out of bounds.
    pub with_action-push :
        (b : DfaBuilder A) (cs : List ℕ) (a : A)
        → IsSound b
        → AreInputs cs
        → cs ≢ []
        → Ensures
            (λ b'. Builds b b' × Ends b'.dfa b.state cs a)
            (push b cs >>= (λ b₁. with_action b₁ a))
    unfolding push
    with_action-push b [] a s hi ne = absurd (ne refl)
    with_action-push b (c ∷ cs) a s hi ne =
        Ensures-bind (Traced b (c ∷ cs)) _ _ _ (push_inner-Traced b c cs s hi) λ b₁ h.
          Ensures-mono (Acted b₁ a) _ _ (with_action-Acted b₁ a h.builds.sound) λ b₂ k. (
            Builds-trans h.builds k.builds,
            h.trace b₂.dfa a k.builds.extends (
                All-prefix (CarriesBoth b₂.dfa a) b₁.last_edges k.more.0
                  (subst (All (CarriesBoth b₂.dfa a)) k.more.1 k.carries)),
          )
