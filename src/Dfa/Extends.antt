-- ===== src/Dfa/Extends.antt =====
-- What `impl Dfa` (beeper/src/dfa.rs) keeps: the DFA only grows, edges keep their targets and actions,
-- and every state id stays in range.
use mathlib.Core.Path.{subst}
use beeper.Prelude.{◌≤◌, ◌<◌, ◌≡◌, refl, ◌∙◌, Option, none, some, arith, nat_eq, inl, inr}
use beeper.Prelude.{unwrap_or, [], All}
use beeper.Dfa.{Row}
use beeper.Map.{IsUnique, insert-IsUnique, insert-All, lookup-All}
use beeper.Map.{lookup}
use beeper.Dfa.{StateId, Input, Edge, Dfa, new, any_input, u16_mod, row_at, edge_at, put_edge}
use beeper.Dfa.Edges.{num_states-put_edge, put_edge-cases}

module _ {A : Type 0} where
  abbrev pub ActionLe : Option A → Option A → Type 0
  ActionLe none b = Unit
  ActionLe (some a) b = b ≡ some a

  abbrev pub EdgeLe : Option (Edge A) → Option (Edge A) → Type 0
  EdgeLe none b = Unit
  EdgeLe (some e) none = ⊥
  EdgeLe (some e) (some e') = (e'.to ≡ e.to) × ActionLe e.action e'.action

  pub ActionLe-refl : (a : Option A) → ActionLe a a
  ActionLe-refl none = tt
  ActionLe-refl (some a) = refl

  ActionLe-trans : (a b c : Option A) → ActionLe a b → ActionLe b c → ActionLe a c
  ActionLe-trans none b c h k = tt
  ActionLe-trans (some a) none c h k = cc
  ActionLe-trans (some a) (some b) c h k = cc

  pub EdgeLe-refl : (e : Option (Edge A)) → EdgeLe e e
  EdgeLe-refl none = tt
  EdgeLe-refl (some e) = (refl, ActionLe-refl e.action)

  pub EdgeLe-trans : (a b c : Option (Edge A)) → EdgeLe a b → EdgeLe b c → EdgeLe a c
  EdgeLe-trans none b c h k = tt
  EdgeLe-trans (some a) none c h k = absurd h
  EdgeLe-trans (some a) (some b) none h k = absurd k
  EdgeLe-trans (some a) (some b) (some c) h k =
      (k.0 ∙ h.0, ActionLe-trans a.action b.action c.action h.1 k.1)

  abbrev pub HasUniqueKeys : Dfa A → Type 0
  HasUniqueKeys d = IsUnique d.edges × All (λ (x : StateId × Row A). IsUnique x.1) d.edges

  unwrap_or-IsUnique :
      (d : Dfa A) (f : StateId) (o : Option (Row A))
      → HasUniqueKeys d
      → lookup f d.edges ≡ o
      → IsUnique (unwrap_or o [])
  unwrap_or-IsUnique d f none u e = tt
  unwrap_or-IsUnique d f (some row) u e = lookup-All IsUnique f row d.edges u.1 e

  put_edge-HasUniqueKeys :
      (d : Dfa A) (f : StateId) (i : Input) (e : Edge A)
      → HasUniqueKeys d
      → HasUniqueKeys (put_edge d f i e)
  unfolding put_edge row_at
  put_edge-HasUniqueKeys d f i e u = (
    insert-IsUnique f _ d.edges u.0,
    insert-All IsUnique f _ d.edges
        (insert-IsUnique i e _ (unwrap_or-IsUnique d f (lookup f d.edges) u refl)) u.1,
  )

  -- What holds of every DFA that the builder can produce.
  pub record IsValid (d : Dfa A) : Type 0 where
    pub reserved : 2 ≤ d.num_states
    pub fits : d.num_states < u16_mod
    pub bounded :
        (f : StateId) (i : Input) (e : Edge A)
        → edge_at d f i ≡ some e
        → (f < d.num_states) × (e.to < d.num_states) × (i ≤ any_input)
    pub unique : HasUniqueKeys d

  pub new-IsValid : IsValid (new {A = A})
  unfolding new edge_at row_at lookup
  new-IsValid = record {
    reserved = omega arith;
    fits = omega arith;
    bounded = λ f i e h. absurd (cc h);
    unique = (tt, tt);
  }

  pub record Extends (d d' : Dfa A) : Type 0 where
    pub states : d.num_states ≤ d'.num_states
    pub edges : (f : StateId) (i : Input) → EdgeLe (edge_at d f i) (edge_at d' f i)
    pub valid : IsValid d → IsValid d'

  pub Extends-refl : (d : Dfa A) → Extends d d
  Extends-refl d = record {
    states = omega arith;
    edges = λ f i. EdgeLe-refl (edge_at d f i);
    valid = λ v. v;
  }

  pub Extends-trans : {a b c : Dfa A} → Extends a b → Extends b c → Extends a c
  Extends-trans {a} {b} {c} h k = record {
    states = omega (arith, h.states, k.states);
    edges = λ f i.
        EdgeLe-trans (edge_at a f i) (edge_at b f i) (edge_at c f i) (h.edges f i) (k.edges f i);
    valid = λ v. k.valid (h.valid v);
  }

  pub put_edge-Extends :
      (d : Dfa A) (f : StateId) (i : Input) (e : Edge A)
      → EdgeLe (edge_at d f i) (some e)
      → f < d.num_states
      → e.to < d.num_states
      → i ≤ any_input
      → Extends d (put_edge d f i e)
  put_edge-Extends d f i e le hf ht hi = record {
    states = rw num_states-put_edge (omega arith);
    edges = λ g j. elim (put_edge-cases d f i e g j) [
      | inl same ↦ rw same (EdgeLe-refl (edge_at d g j))
      | inr (p, q, written) ↦ rw written (rw (p, q) at le)
    ];
    valid = λ v. record {
      reserved = rw num_states-put_edge v.reserved;
      fits = rw num_states-put_edge v.fits;
      bounded = λ g j e' h. rw num_states-put_edge (elim (put_edge-cases d f i e g j) [
        | inl same ↦ v.bounded g j e' (cc)
        | inr (p, q, written) ↦ ground arith
      ]);
      unique = put_edge-HasUniqueKeys d f i e v.unique;
    };
  }

  -- A lookup that found an edge still finds it, with its target.
  abbrev pub Leads : Dfa A → StateId → Input → StateId → Type 0
  Leads d f i t = (e : Edge A) × (edge_at d f i ≡ some e) × (e.to ≡ t)

  pub edge_at-Extends :
      {d d' : Dfa A} (f : StateId) (i : Input) (e : Edge A)
      → Extends d d'
      → edge_at d f i ≡ some e
      → (e' : Edge A) × (edge_at d' f i ≡ some e') × (e'.to ≡ e.to) × ActionLe e.action e'.action
  edge_at-Extends {d} {d'} f i e h at = found (edge_at d' f i) refl (rw at at (h.edges f i))
    where
      found :
          (o : Option (Edge A))
          → edge_at d' f i ≡ o
          → EdgeLe (some e) o
          → (e' : Edge A) × (edge_at d' f i ≡ some e')
            × (e'.to ≡ e.to)
            × ActionLe e.action e'.action
      found none q le = absurd le
      found (some e') q le = (e', q, le.0, le.1)

  pub Leads-Extends :
      {d d' : Dfa A} (f : StateId) (i : Input) (t : StateId)
      → Extends d d'
      → Leads d f i t
      → Leads d' f i t
  Leads-Extends f i t h (e, at, to) =
      let (e', at', to', _) = edge_at-Extends f i e h at in (e', at', to' ∙ to)

  -- An edge that carries an action.
  abbrev pub Carries : Dfa A → StateId → Input → A → Type 0
  Carries d f i a = (e : Edge A) × (edge_at d f i ≡ some e) × (e.action ≡ some a)

  pub Carries-Extends :
      {d d' : Dfa A} (f : StateId) (i : Input) (a : A)
      → Extends d d'
      → Carries d f i a
      → Carries d' f i a
  Carries-Extends f i a h (e, at, carried) =
      let (e', at', _, kept) = edge_at-Extends f i e h at in
      (e', at', subst (λ (o : Option A). ActionLe o e'.action) carried kept)
