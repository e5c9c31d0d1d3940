-- ===== src/Builder/Sound.antt =====
-- The invariant of `DfaBuilder` (beeper/src/dfa.rs) between two calls.
use beeper.Prelude.{◌≤◌, ◌<◌, ◌≡◌, List, [], ◌++◌, nat_eq, arith, All, All-mono}
use mathlib.Core.List.{append-nil, append_assoc}
use beeper.Dfa.{StateId, Input, Dfa, any_input}
use beeper.Dfa.Extends.{IsValid, Extends, Extends-refl, Extends-trans}
use beeper.Builder.{OptionalPrefix, LastEdge, DfaBuilder}
use beeper.Builder.Growth.{IsBelow, LeadsBoth, LeadsBoth-Extends}

abbrev pub AreInputs : List Input → Type 0
AreInputs = All (λ i. i ≤ any_input)

-- A list to which more has been appended.
abbrev pub More {ℓ} : {B : Type ℓ} → List B → List B → Type ℓ
More {B} xs ys = (zs : List B) × (ys ≡ xs ++ zs)

pub More-refl {ℓ} : {B : Type ℓ} (xs : List B) → More xs xs
More-refl xs = ([], rw append-nil)

pub More-trans {ℓ} : {B : Type ℓ} (xs ys zs : List B) → More xs ys → More ys zs → More xs zs
More-trans xs ys zs (u, p) (v, q) = (u ++ v, rw (q, p) (append_assoc xs u v))

module _ {A : Type 0} where
  abbrev pub LastLeads : Dfa A → LastEdge → Type 0
  LastLeads d e = (t : StateId) × LeadsBoth d e.from e.input e.case_sensitive t

  pub IsBelow-All :
      {d d' : Dfa A} (xs : List StateId) → Extends d d' → All (IsBelow d) xs → All (IsBelow d') xs
  IsBelow-All {d} {d'} xs x h =
      All-mono (IsBelow d) (IsBelow d') (λ s k. omega (arith, x.states)) xs h

  pub LastLeads-All :
      {d d' : Dfa A} (xs : List LastEdge)
      → Extends d d'
      → All (LastLeads d) xs
      → All (LastLeads d') xs
  LastLeads-All {d} {d'} xs x h =
      All-mono (LastLeads d) (LastLeads d')
        (λ e k. (k.0, LeadsBoth-Extends e.from e.input e.case_sensitive k.0 x k.1)) xs h

  -- What holds of a builder between two calls.
  pub record IsSound (b : DfaBuilder A) : Type 0 where
    pub valid : IsValid b.dfa
    pub state : b.state < b.dfa.num_states
    pub optional : All (IsBelow b.dfa) b.optional_states
    pub prefixes : All (λ (p : OptionalPrefix). AreInputs p.inputs) b.optional_prefixes
    pub last : All (LastLeads b.dfa) b.last_edges

  pub record Builds (b b' : DfaBuilder A) : Type 0 where
    pub extends : Extends b.dfa b'.dfa
    pub sound : IsSound b'

  pub Builds-trans : {a b c : DfaBuilder A} → Builds a b → Builds b c → Builds a c
  Builds-trans h k = record { extends = Extends-trans h.extends k.extends; sound = k.sound }

  pub Builds-refl : (b : DfaBuilder A) → IsSound b → Builds b b
  Builds-refl b s = record { extends = Extends-refl b.dfa; sound = s }
