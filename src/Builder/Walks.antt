-- ===== src/Builder/Walks.antt =====
-- What a pushed string means: the DFA walks it, in any case where case does not count, from the
-- state that the builder was in to the state that it ends in (beeper/src/dfa.rs).
use beeper.Prelude.{
  ℕ, ◌<◌, ◌≡◌, ◌≢◌, refl, ◌⊎◌, inl, inr, Bool, false, none, some, List, [], ◌∷◌, Eq, arith, All,
}
use mathlib.Core.Path.{subst}
use beeper.Run.{Ensures, Ensures-returns, Ensures-bind, Ensures-mono}
use beeper.Dfa.{StateId, Dfa}
use beeper.Dfa.Extends.{Extends, Extends-refl, Leads, Leads-Extends}
use beeper.Dfa.Walk.{walk, walk-cons, walk-Extends}
use beeper.Builder.{DfaBuilder, push_inner, push_into, other_case}
use beeper.Builder.Growth.{LeadsBoth}
use beeper.Builder.Sound.{AreInputs, IsSound, Builds, Builds-refl, Builds-trans}
use beeper.Builder.Steps.{Routes, Stepped, push_edge-Stepped}

-- `xs` is `cs`, up to the case of letters where the pattern is not case sensitive.
abbrev pub Spells : Bool → List ℕ → List ℕ → Type 0
Spells sens [] [] = Unit
Spells sens [] (x ∷ xs) = ⊥
Spells sens (c ∷ cs) [] = ⊥
Spells sens (c ∷ cs) (x ∷ xs) =
    ((x ≡ c) ⊎ ((sens ≡ false) × (other_case c ≡ some x))) × Spells sens cs xs

pub Spells-refl : (sens : Bool) (cs : List ℕ) → Spells sens cs cs
Spells-refl sens [] = tt
Spells-refl sens (c ∷ cs) = (inl refl, Spells-refl sens cs)

module _ {A : Type 0} where
  pub LeadsBoth-Spells :
      (d : Dfa A) (f : StateId) (c x : ℕ) (sens : Bool) (t : StateId)
      → LeadsBoth d f c sens t
      → (x ≡ c) ⊎ ((sens ≡ false) × (other_case c ≡ some x))
      → Leads d f x t
  LeadsBoth-Spells d f c x sens t h (inl e) = rw e h.exact
  LeadsBoth-Spells d f c x sens t h (inr (p, q)) = h.other x p q

  -- Every spelling of `cs` leads from `s` to `t`.
  abbrev pub Walks : Dfa A → StateId → Bool → List ℕ → StateId → Type 0
  Walks d s sens cs t = (xs : List ℕ) → Spells sens cs xs → walk d s xs ≡ some t

  pub Walks-Extends :
      {d d' : Dfa A} (s : StateId) (sens : Bool) (cs : List ℕ) (t : StateId)
      → Extends d d'
      → Walks d s sens cs t
      → Walks d' s sens cs t
  Walks-Extends {d} {d'} s sens cs t x h xs sp = walk-Extends d d' s xs t x (h xs sp)

  pub Walks-nil : (d : Dfa A) (s : StateId) (sens : Bool) → Walks d s sens [] s
  unfolding walk
  Walks-nil d s sens [] sp = refl
  Walks-nil d s sens (x ∷ xs) sp = absurd sp

  pub Walks-cons :
      (d d' : Dfa A) (f : StateId) (c : ℕ) (cs : List ℕ) (sens : Bool) (t u : StateId)
      → LeadsBoth d f c sens t
      → Extends d d'
      → Walks d' t sens cs u
      → Walks d' f sens (c ∷ cs) u
  Walks-cons d d' f c cs sens t u h x w [] sp = absurd sp
  Walks-cons d d' f c cs sens t u h x w (y ∷ ys) sp =
      rw (walk-cons d' f y ys t (Leads-Extends f y t x (LeadsBoth-Spells d f c y sens t h sp.0)))
        (w ys sp.1)

  pub record Spelled (b : DfaBuilder A) (cs : List ℕ) (sens : Bool) (b' : DfaBuilder A)
      : Type 0 where
    pub builds : Builds b b'
    pub walks : Walks b'.dfa b.state sens cs b'.state

  module _ ⦃eq : Eq A⦄ where
    -- For a sound builder and inputs that are bytes or the wildcard: if pushing a string returns,
    -- the builder is sound again over an extension of the DFA, and every spelling of the string
    -- (any case of its letters where case does not count) leads from the state that the builder was
    -- in to the state that it ends in. If it panics, it is not for a missing state or edge, an
    -- unsupported name or an index out of bounds.
    pub push_inner-Spelled :
        (b : DfaBuilder A) (cs : List ℕ) (sens : Bool)
        → IsSound b
        → AreInputs cs
        → Ensures (Spelled b cs sens) (push_inner b cs sens)
    unfolding push_inner
    push_inner-Spelled b [] sens s hi =
        Ensures-returns (Spelled b [] sens) b
          (record { builds = Builds-refl b s; walks = Walks-nil b.dfa b.state sens })
    push_inner-Spelled b (c ∷ cs) sens s hi =
        Ensures-bind (Stepped b c none sens) (Spelled b (c ∷ cs) sens) _ _
          (push_edge-Stepped b c none sens s hi.0 (λ t e. cc))
          λ b₁ h.
            Ensures-mono (Spelled b₁ cs sens) (Spelled b (c ∷ cs) sens) _
              (push_inner-Spelled b₁ cs sens h.builds.sound hi.1)
              λ b₂ k. record {
                builds = Builds-trans h.builds k.builds;
                walks =
                    Walks-cons b₁.dfa b₂.dfa b.state c cs sens b₁.state b₂.state h.leads
                      k.builds.extends k.walks;
              }

    -- `push_into` ends in the state that it is told to end in.
    pub push_into-Spelled :
        (b : DfaBuilder A) (cs : List ℕ) (final : StateId) (sens : Bool)
        → IsSound b
        → AreInputs cs
        → cs ≢ []
        → final < b.dfa.num_states
        → Ensures
            (λ b'.
              Spelled b cs sens b' × (b'.state ≡ final) × All (Routes b'.dfa final) b'.last_edges)
            (push_into b cs final sens)
    unfolding push_into
    push_into-Spelled b [] final sens s hi ne hf = absurd (ne refl)
    push_into-Spelled b (c ∷ []) final sens s hi ne hf =
        Ensures-mono (Stepped b c (some final) sens) _ _
          (push_edge-Stepped b c (some final) sens s hi.0 (λ t e. ground arith))
          λ b₁ h.
            let e : b₁.state ≡ final = h.asked final refl in
            (
              record {
                builds = h.builds;
                walks =
                    Walks-cons b₁.dfa b₁.dfa b.state c [] sens b₁.state b₁.state h.leads
                      (Extends-refl b₁.dfa) (Walks-nil b₁.dfa b₁.state sens);
              },
              e,
              subst (λ t. All (Routes b₁.dfa t) b₁.last_edges) e h.routes,
            )
    push_into-Spelled b (c ∷ c' ∷ cs) final sens s hi ne hf =
        Ensures-bind (Stepped b c none sens) _ _ _
          (push_edge-Stepped b c none sens s hi.0 (λ t e. cc))
          λ b₁ h.
            Ensures-mono
              (λ b'.
                Spelled b₁ (c' ∷ cs) sens b'
                × (b'.state ≡ final)
                × All (Routes b'.dfa final) b'.last_edges)
              _ _
              (push_into-Spelled b₁ (c' ∷ cs) final sens h.builds.sound hi.1 (λ e. cc)
                (omega (arith, hf, h.builds.extends.states)))
              λ b₂ k. (
                record {
                  builds = Builds-trans h.builds k.0.builds;
                  walks =
                      Walks-cons b₁.dfa b₂.dfa b.state c (c' ∷ cs) sens b₁.state b₂.state h.leads
                        k.0.builds.extends k.0.walks;
                },
                k.1,
                k.2,
              )
