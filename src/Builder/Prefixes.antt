-- ===== src/Builder/Prefixes.antt =====
-- `push_optional_prefixes` of beeper/src/dfa.rs: what it builds, loop by loop.
use beeper.Prelude.{
  ◌<◌, ◌≡◌, refl, ◌∙◌, Bool, true, false, List, [], ◌∷◌, ◌++◌, Eq, nat_eq, arith, All, All-append,
  All-mono, All-intro, inl, inr, if◌then◌else◌,
}
use mathlib.Core.List.Memᴰ
use mathlib.Core.List.{Memᴰ}
use beeper.Run.{Ensures, Ensures-returns, Ensures-bind, Ensures-mono}
use beeper.Dfa.{StateId, Dfa}
use beeper.Dfa.Extends.{Extends, Extends-refl, Extends-trans}
use beeper.Builder.{
  OptionalPrefix, DfaBuilder, push_prefix_from, push_prefix_sources, push_prefixes,
  push_optional_prefixes,
}
use beeper.Builder.Branches.{
  IsBack, Passes, Passes-Extends, Closes-IsBack, Branches, ends_of, Ends, kept-Memᴰ, end-Memᴰ,
}
use beeper.Builder.Growth.{IsBelow}
use beeper.Builder.Sound.{AreInputs, More, More-refl, More-trans, IsBelow-All, IsSound, Builds}
use beeper.Builder.Spelling.{PrefixPushed, push_prefix_inputs-PrefixPushed}

module _ {A : Type 0} where
  -- What the loops over the prefixes leave as it was.
  record Flushed (b b' : DfaBuilder A) : Type 0 where
    ends : (s : StateId) → Memᴰ s (ends_of b) → Memᴰ s (ends_of b')
    extends : Extends b.dfa b'.dfa
    sound : IsSound b'
    state : b'.state ≡ b.state
    pending : b'.optional_prefixes ≡ b.optional_prefixes
    more : More b.last_edges b'.last_edges

  Flushed-trans : {a b c : DfaBuilder A} → Flushed a b → Flushed b c → Flushed a c
  Flushed-trans {a} {b} {c} h k = record {
    ends = λ s there. k.ends s (h.ends s there);
    extends = Extends-trans h.extends k.extends;
    sound = k.sound;
    state = k.state ∙ h.state;
    pending = k.pending ∙ h.pending;
    more = More-trans a.last_edges b.last_edges c.last_edges h.more k.more;
  }

  Flushed-refl : (b : DfaBuilder A) → IsSound b → Flushed b b
  Flushed-refl b s = record {
    ends = λ t there. there;
    extends = Extends-refl b.dfa;
    sound = s;
    state = refl;
    pending = refl;
    more = More-refl b.last_edges;
  }

  -- The pending prefixes of `b` are built in `b'`.
  abbrev pub PrefixesBuilt : DfaBuilder A → DfaBuilder A → Type 0
  PrefixesBuilt b b' =
      Builds b b'
      × (b'.state ≡ b.state)
      × (b'.optional_prefixes ≡ [])
      × More b.last_edges b'.last_edges
      × ((s : StateId) → Memᴰ s (ends_of b) → Branches b'.dfa (ends_of b') s b.optional_prefixes)

  module _ ⦃eq : Eq A⦄ where
    optional-snoc :
        (d : Dfa A) (c : Bool) (xs : List StateId) (s : StateId)
        → All (IsBelow d) xs
        → s < d.num_states
        → All (IsBelow d) (if c then xs ++ s ∷ [] else xs)
    optional-snoc d true xs s h k = All-append (IsBelow d) xs _ h (k, tt)
    optional-snoc d false xs s h k = h

    push_prefix_from-Flushed :
        (b : DfaBuilder A) (p : OptionalPrefix) (source : StateId)
        → IsSound b
        → AreInputs p.inputs
        → source < b.dfa.num_states
        → Memᴰ source (ends_of b)
        → Ensures
            (λ b'. Flushed b b' × ((t : StateId) × Passes b'.dfa source p t × Memᴰ t (ends_of b')))
            (push_prefix_from b p source)
    unfolding push_prefix_from
    push_prefix_from-Flushed b p source s hi hs there =
        Ensures-bind (PrefixPushed b.dfa p source source p.inputs b.last_edges) _ _ _
          (push_prefix_inputs-PrefixPushed b.dfa p source source p.inputs b.last_edges s.valid hs hs
            hi s.last)
          λ r w.
            let back : IsBack p.repeat source r.0 =
              Closes-IsBack r.1 p.repeat p.case_sensitive source p.inputs r.0 w.chain w.closes in
            Ensures-returns _ _ (
              record {
                ends = λ t old. kept-Memᴰ _ t b.state r.0 b.optional_states old;
                extends = w.extends;
                state = refl;
                pending = refl;
                more = w.more;
                sound = record {
                  valid = w.extends.valid s.valid;
                  state = omega (arith, s.state, w.extends.states);
                  optional =
                      optional-snoc r.1 _ b.optional_states r.0
                        (IsBelow-All b.optional_states w.extends s.optional) w.below;
                  prefixes = s.prefixes;
                  last = w.last;
                };
              },
              (
                r.0,
                (w.chain, back),
                end-Memᴰ p.repeat source b.state r.0 b.optional_states back there,
              ),
            )

    push_prefix_sources-Flushed :
        (b : DfaBuilder A) (p : OptionalPrefix) (sources : List StateId)
        → IsSound b
        → AreInputs p.inputs
        → All (IsBelow b.dfa) sources
        → All (λ s. Memᴰ s (ends_of b)) sources
        → Ensures
            (λ b'. Flushed b b' × Ends b'.dfa (ends_of b') p sources)
            (push_prefix_sources b p sources)
    unfolding push_prefix_sources
    push_prefix_sources-Flushed b p [] s hi hs there =
        Ensures-returns _ b (Flushed-refl b s, λ x none_there. absurd (Memᴰ.not-nil none_there))
    push_prefix_sources-Flushed b p (x ∷ xs) s hi hs there =
        Ensures-bind _ _ _ _ (push_prefix_from-Flushed b p x s hi hs.0 there.0) λ b' w.
          Ensures-mono _ _ _
            (push_prefix_sources-Flushed b' p xs w.0.sound hi (IsBelow-All xs w.0.extends hs.1)
              (All-mono _ _ (λ y old. w.0.ends y old) xs there.1))
            (λ c k. (
              Flushed-trans w.0 k.0,
              λ y among. elim (Memᴰ.cases_cons among) [
                | inl first ↦ (
                  w.1.0,
                  (rw first (Passes-Extends x p w.1.0 k.0.extends w.1.1)),
                  k.0.ends w.1.0 w.1.2,
                )
                | inr later ↦ k.1 y later
              ],
            ))

    push_prefixes-Flushed :
        (b : DfaBuilder A) (ps : List OptionalPrefix)
        → IsSound b
        → All (λ (p : OptionalPrefix). AreInputs p.inputs) ps
        → Ensures
            (λ b'.
              Flushed b b'
              × ((s : StateId) → Memᴰ s (ends_of b) → Branches b'.dfa (ends_of b') s ps))
            (push_prefixes b ps)
    unfolding push_prefixes
    push_prefixes-Flushed b [] s hp = Ensures-returns _ b (Flushed-refl b s, λ x there. there)
    push_prefixes-Flushed b (p ∷ ps) s hp =
        Ensures-bind _ _ _ _
          (push_prefix_sources-Flushed b p (ends_of b) s hp.0 (s.state, s.optional)
            (All-intro _ (ends_of b) (λ x there. there)))
          λ b' w. Ensures-mono _ _ _ (push_prefixes-Flushed b' ps w.0.sound hp.1) (λ c k. (
            Flushed-trans w.0 k.0,
            λ x there.
                let (t, passes, ends) = w.1 x there in
                (
                  k.1 x (w.0.ends x there),
                  (t, Passes-Extends x p t k.0.extends passes, k.1 t ends),
                ),
          ))

    -- For a sound builder: if the pending optional prefixes are built, the builder is sound over an
    -- extension of the DFA, in the same state, with none pending, and its last edges are those it
    -- had, with more behind them. From each state that the next input was going to follow, every
    -- prefix in turn can be skipped, and can be passed along edges for every spelling of it, which
    -- lead back to where it started if it repeats; and all of these ways end in states that the next
    -- input is going to follow. If it panics, it is not for a missing state or edge, an
    -- unsupported name or an index out of bounds.
    pub push_optional_prefixes-Flushed :
        (b : DfaBuilder A) → IsSound b → Ensures (PrefixesBuilt b) (push_optional_prefixes b)
    unfolding push_optional_prefixes
    push_optional_prefixes-Flushed b s =
        let b₀ : DfaBuilder A = record b { optional_prefixes = [] } in
        Ensures-mono _ (PrefixesBuilt b) _
          (push_prefixes-Flushed b₀ b.optional_prefixes
            (record {
              valid = s.valid;
              state = s.state;
              optional = s.optional;
              prefixes = tt;
              last = s.last;
            })
            s.prefixes)
          (λ c (k, branches).
            (record { extends = k.extends; sound = k.sound }, k.state, k.pending, k.more, branches))
