-- ===== src/Builder/Chains.antt =====
-- Rules for a chain of builder calls (beeper/src/dfa.rs): the DFA grows and the builder stays sound.
use beeper.Prelude.{ℕ, ◌≤◌, ◌<◌, ◌≢◌, Bool, true, false, List, [], Eq, arith, All, All-mono}
use beeper.Run.{Run, ◌>>=◌, Ensures, Ensures-bind, Ensures-mono}
use beeper.Dfa.{StateId, Dfa, any_input}
use beeper.Dfa.Extends.{IsValid, Extends, Extends-refl, Extends-trans}
use beeper.Builder.{DfaBuilder, start_pattern, with_action, push, push_ci, push_optional}
use beeper.Builder.Actions.{Acted, with_action-Acted}
use beeper.Builder.Options.{Alternatives, push_options_inner-Alternatives}
use beeper.Builder.Patterns.{Bound, push_any, push_options_ci, restart_with}
use beeper.Builder.Repeats.{AnyPushed, push_any-AnyPushed, push_optional-Builds}
use beeper.Builder.Restart.{Restarted, restart_with-Restarted}
use beeper.Builder.Sound.{AreInputs, IsSound, Builds}
use beeper.Builder.Walks.{Spelled, push_inner-Spelled}

-- A text is a list of bytes, and every byte is an input.
abbrev pub AreBytes : List ℕ → Type 0
AreBytes = All (λ c. c < 256)

pub AreBytes-AreInputs : (cs : List ℕ) → AreBytes cs → AreInputs cs
AreBytes-AreInputs cs h = All-mono (λ c. c < 256) (λ i. i ≤ any_input) (λ c k. omega arith) cs h

module _ {A : Type 0} where
  -- A pattern under construction over what the DFA was at first.
  pub record Pattern (d : Dfa A) (b : DfaBuilder A) : Type 0 where
    pub extends : Extends d b.dfa
    pub sound : IsSound b

  pub record Grown (d d' : Dfa A) : Type 0 where
    pub extends : Extends d d'
    pub valid : IsValid d'

  pub Grown-refl : (d : Dfa A) → IsValid d → Grown d d
  Grown-refl d v = record { extends = Extends-refl d; valid = v }

  pub Grown-trans : {a b c : Dfa A} → Grown a b → Grown b c → Grown a c
  Grown-trans h k = record { extends = Extends-trans h.extends k.extends; valid = k.valid }

  pub Pattern-start :
      (d : Dfa A) (s : StateId) → IsValid d → s < d.num_states → Pattern d (start_pattern d s)
  unfolding start_pattern
  Pattern-start d s v h = record {
    extends = Extends-refl d;
    sound = record { valid = v; state = h; optional = tt; prefixes = tt; last = tt };
  }

  Pattern-Builds : {d : Dfa A} {b b' : DfaBuilder A} → Pattern d b → Builds b b' → Pattern d b'
  Pattern-Builds h k = record { extends = Extends-trans h.extends k.extends; sound = k.sound }

  -- A second pattern, anchored at a state that the DFA had at first.
  pub Pattern-restart :
      {d : Dfa A} {b : DfaBuilder A} (s : StateId)
      → Pattern d b
      → s < d.num_states
      → Pattern d (start_pattern b.dfa s)
  unfolding start_pattern
  Pattern-restart s h below = record {
    extends = h.extends;
    sound = record {
      valid = h.sound.valid;
      state = omega (arith, below, h.extends.states);
      optional = tt;
      prefixes = tt;
      last = tt;
    };
  }

  pub Pattern-Grown : {d : Dfa A} {b : DfaBuilder A} → Pattern d b → Grown d b.dfa
  Pattern-Grown h = record { extends = h.extends; valid = h.sound.valid }

  pub Pattern-optional :
      {d : Dfa A} {b : DfaBuilder A} (cs : List ℕ) (repeat : Bool)
      → Pattern d b
      → AreInputs cs
      → Pattern d (push_optional b cs repeat)
  Pattern-optional {b = b} cs repeat h hi =
      Pattern-Builds h (push_optional-Builds b cs repeat h.sound hi)

  -- What a call returns continues a pattern, and `f` builds the rest.
  abbrev pub Continues : {B : Type 0} → Dfa A → (B → Type 0) → (DfaBuilder A → Run B) → Type 0
  Continues d Q f = (b' : DfaBuilder A) → Pattern d b' → Ensures Q (f b')

  module _ ⦃eq : Eq A⦄ {d : Dfa A} {B : Type 0} {Q : B → Type 0} {b : DfaBuilder A}
      (h : Pattern d b) where
    pub push-chain :
        (cs : List ℕ) {f : DfaBuilder A → Run B}
        → AreInputs cs
        → Continues d Q f
        → Ensures Q (push b cs >>= f)
    unfolding push
    push-chain cs hi next =
        Ensures-bind (Spelled b cs true) Q _ _ (push_inner-Spelled b cs true h.sound hi)
          (λ b' k. next b' (Pattern-Builds h k.builds))

    pub push_ci-chain :
        (cs : List ℕ) {f : DfaBuilder A → Run B}
        → AreInputs cs
        → Continues d Q f
        → Ensures Q (push_ci b cs >>= f)
    unfolding push_ci
    push_ci-chain cs hi next =
        Ensures-bind (Spelled b cs false) Q _ _ (push_inner-Spelled b cs false h.sound hi)
          (λ b' k. next b' (Pattern-Builds h k.builds))

    pub with_action-chain :
        (a : A) {f : DfaBuilder A → Run B} → Continues d Q f → Ensures Q (with_action b a >>= f)
    with_action-chain a next =
        Ensures-bind (Acted b a) Q _ _ (with_action-Acted b a h.sound)
          (λ b' k. next b' (Pattern-Builds h k.builds))

    pub push_any-chain :
        (start end : Bound) {f : DfaBuilder A → Run B}
        → Continues d Q f
        → Ensures Q (push_any b start end >>= f)
    push_any-chain start end next =
        Ensures-bind (AnyPushed b start end) Q _ _ (push_any-AnyPushed b start end h.sound)
          (λ b' k. next b' (Pattern-Builds h k.builds))

    pub push_options_ci-chain :
        (options : List (List ℕ)) {f : DfaBuilder A → Run B}
        → All AreInputs options
        → Continues d Q f
        → Ensures Q (push_options_ci b options >>= f)
    unfolding push_options_ci
    push_options_ci-chain options hi next =
        Ensures-bind (Alternatives b options false) Q _ _
          (push_options_inner-Alternatives b options false h.sound hi)
          (λ b' k. next b' (Pattern-Builds h k.builds))

    pub restart_with-chain :
        (cs : List ℕ) {f : DfaBuilder A → Run B}
        → AreInputs cs
        → cs ≢ []
        → Continues d Q f
        → Ensures Q (restart_with b cs >>= f)
    restart_with-chain cs hi ne next =
        Ensures-bind (Restarted b cs) Q _ _ (restart_with-Restarted b cs h.sound hi ne)
          (λ b' k. next b' (Pattern-Builds h k.builds))

  module _ ⦃eq : Eq A⦄ {d : Dfa A} {b : DfaBuilder A} (h : Pattern d b) where
    pub with_action-last : (a : A) → Ensures (Pattern d) (with_action b a)
    with_action-last a =
        Ensures-mono (Acted b a) (Pattern d) _ (with_action-Acted b a h.sound)
          (λ b' k. Pattern-Builds h k.builds)
