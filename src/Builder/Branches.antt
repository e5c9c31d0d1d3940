-- ===== src/Builder/Branches.antt =====
-- What optional prefixes add to a pattern: where each of them is skipped or passed (beeper/src/dfa.rs).
use beeper.Prelude.{
  ◌≡◌, refl, sym, Bool, true, false, not, ◌&&◌, none, some, List, [], ◌∷◌, ◌++◌, nat_eq, ◌==◌,
  nat_beq_iff, Bool-cases, inl, inr, if◌then◌else◌,
}
use mathlib.Core.Path.{subst}
use mathlib.Core.List.{Memᴰ}
use mathlib.Core.List.Memᴰ
use beeper.Dfa.{StateId, Input, Dfa}
use beeper.Dfa.Extends.{Extends}
use beeper.Builder.{OptionalPrefix, DfaBuilder, contains}
use beeper.Builder.Growth.{LeadsBoth, LeadsBoth-Extends}

-- Whether a state that was reached is the one to go back to.
abbrev pub IsBack : Bool → StateId → StateId → Type 0
IsBack true s t = t ≡ s
IsBack false s t = Unit

-- The same of the inputs of a prefix, which go back with the last of them.
abbrev pub Closes : Bool → StateId → List Input → StateId → Type 0
Closes repeat source [] t = Unit
Closes repeat source (i ∷ inputs) t = IsBack repeat source t

pub asked-IsBack :
    (repeat : Bool) (source r : StateId)
    → ((t : StateId) → (if repeat then some source else none) ≡ some t → r ≡ t)
    → IsBack repeat source r
asked-IsBack true source r asked = asked source refl
asked-IsBack false source r asked = tt

contains-Memᴰ : (xs : List StateId) (s : StateId) → contains xs s ≡ true → Memᴰ s xs
unfolding contains
contains-Memᴰ [] s h = absurd (cc h)
contains-Memᴰ (x ∷ xs) s h = elim (Bool-cases (x == s)) [
  | inl same ↦ Memᴰ.head (sym ((nat_beq_iff x s).0 same))
  | inr other ↦ Memᴰ.tail (contains-Memᴰ xs s (rw other at h))
]

module _ {A : Type 0} where
  -- Every spelling of the inputs leads along edges from `s` to `t`.
  abbrev pub Chain : Dfa A → StateId → List Input → Bool → StateId → Type 0
  Chain d s [] case_sensitive t = s ≡ t
  Chain d s (i ∷ inputs) case_sensitive t =
      (u : StateId) × LeadsBoth d s i case_sensitive u × Chain d u inputs case_sensitive t

  pub Chain-Extends :
      {d d' : Dfa A} (s : StateId) (inputs : List Input) (case_sensitive : Bool) (t : StateId)
      → Extends d d'
      → Chain d s inputs case_sensitive t
      → Chain d' s inputs case_sensitive t
  Chain-Extends s [] case_sensitive t x h = h
  Chain-Extends s (i ∷ inputs) case_sensitive t x (u, first, rest) = (
    u,
    LeadsBoth-Extends s i case_sensitive u x first,
    Chain-Extends u inputs case_sensitive t x rest,
  )

  -- A prefix leads from `s` to `t`, and back to `s` if it repeats.
  abbrev pub Passes : Dfa A → StateId → OptionalPrefix → StateId → Type 0
  Passes d s p t = Chain d s p.inputs p.case_sensitive t × IsBack p.repeat s t

  pub Passes-Extends :
      {d d' : Dfa A} (s : StateId) (p : OptionalPrefix) (t : StateId)
      → Extends d d'
      → Passes d s p t
      → Passes d' s p t
  Passes-Extends s p t x h = (Chain-Extends s p.inputs p.case_sensitive t x h.0, h.1)

  pub Closes-IsBack :
      (d : Dfa A) (repeat case_sensitive : Bool) (s : StateId) (inputs : List Input) (t : StateId)
      → Chain d s inputs case_sensitive t
      → Closes repeat s inputs t
      → IsBack repeat s t
  Closes-IsBack d true case_sensitive s [] t h k = sym h
  Closes-IsBack d false case_sensitive s [] t h k = tt
  Closes-IsBack d repeat case_sensitive s (i ∷ inputs) t h k = k

  -- From `s`, each prefix in turn can be skipped and can be passed, and always ends in one of `ends`.
  abbrev pub Branches : Dfa A → List StateId → StateId → List OptionalPrefix → Type 0
  Branches d ends s [] = Memᴰ s ends
  Branches d ends s (p ∷ ps) =
      Branches d ends s ps × ((t : StateId) × Passes d s p t × Branches d ends t ps)

  -- The states that the next input is going to follow.
  abbrev pub ends_of : DfaBuilder A → List StateId
  ends_of b = b.state ∷ b.optional_states

  -- The prefix leads from each of the sources to one of `ends`.
  abbrev pub Ends : Dfa A → List StateId → OptionalPrefix → List StateId → Type 0
  Ends d ends p sources =
      (s : StateId) → Memᴰ s sources → (t : StateId) × Passes d s p t × Memᴰ t ends

pub kept-Memᴰ :
    (c : Bool) (s x t : StateId) (xs : List StateId)
    → Memᴰ s (x ∷ xs)
    → Memᴰ s (x ∷ (if c then xs ++ t ∷ [] else xs))
kept-Memᴰ true s x t xs h = Memᴰ.append_left (t ∷ []) h
kept-Memᴰ false s x t xs h = h

-- The state that a prefix ends in is one that the next input is going to follow.
pub end-Memᴰ :
    (repeat : Bool) (source x t : StateId) (xs : List StateId)
    → IsBack repeat source t
    → Memᴰ source (x ∷ xs)
    → Memᴰ t (x ∷ (if not repeat && not (t == x) && not (contains xs t) then xs ++ t ∷ [] else xs))
end-Memᴰ true source x t xs back there = subst (λ (s : StateId). Memᴰ s (x ∷ xs)) (sym back) there
end-Memᴰ false source x t xs back there = elim (Bool-cases (t == x)) [
  | inl same ↦ rw same (Memᴰ.head ((nat_beq_iff t x).0 same))
  | inr other ↦ elim (Bool-cases (contains xs t)) [
    | inl old ↦ rw (other, old) (Memᴰ.tail (contains-Memᴰ xs t old))
    | inr new ↦ rw (other, new) (Memᴰ.append_right (x ∷ xs) (Memᴰ.head refl))
  ]
]
