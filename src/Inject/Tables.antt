-- ===== src/Inject/Tables.antt =====
-- `inject` (beeper/src/http1/parser.rs, beeper/src/http2/parser.rs): the tables that the eBPF program
-- reads are the DFA.
use mathlib.Core.List.{Memᴰ}
use mathlib.Core.List.Memᴰ
use beeper.Prelude.{
  ℕ, ◌+◌, ◌≤◌, ◌<◌, ◌≡◌, refl, sym, ap, ◌∙◌, ◌⊎◌, inl, inr, Option, none, some, List, [], ◌∷◌,
  Bool-cases, Eq, ◌==◌, ==_refl, All-intro, All-Memᴰ, nat_eq, nat_beq_iff, length, arith, All,
  All-mono, leb, ltb, false,
}
use beeper.Run.{Returns, Returns-returns, Returns-bind, Returns-mono}
use beeper.Map.{Map, lookup, lookup-Memᴰ, Memᴰ-lookup}
use beeper.Error.{parser_exceeds_state_limit, Result, ok, err}
use beeper.Dfa.{StateId, Input, Edge, Dfa, Transition, edge_at}
use beeper.Dfa.Extends.{IsValid}
use beeper.Dfa.Listing.{Lists, IsEdge, transition}
use beeper.Inject.{
  Limits, Rodata, no_trans, Trans, Progress, option_eq, write_action, inject_actions,
  first_progress, finish_inject, inject,
}
use beeper.Inject.Loop.{
  AreUsable, Stored, Wrote, StoredAll, first-Wrote, inject_transitions-StoredAll,
}

module _ {A C : Type 0} (encode : A → C) (zeros : C) where
  -- What stands in the action table for what stands on an edge.
  abbrev pub encoded : Option A → C
  encoded none = zeros
  encoded (some a) = encode a

  abbrev Entry : Type 0
  Entry = Option A × ℕ

  -- The action table after the loop over a part of the index.
  record WroteActions (actions : ℕ → C) (idx : Map (Option A) ℕ) (actions' : ℕ → C) : Type 0 where
    cells :
        (k : ℕ)
        → (actions' k ≡ actions k) ⊎ ((a : A) × Memᴰ (some a, k) idx × (actions' k ≡ encode a))
    written :
        (a : A) (k : ℕ)
        → Memᴰ (some a, k) idx
        → (b : A) × Memᴰ (some b, k) idx × (actions' k ≡ encode b)

  module _ (limits : Limits) where
    write-WroteActions :
        (a : A) (i : ℕ) (actions : ℕ → C) (idx : Map (Option A) ℕ) (actions' : ℕ → C)
        → WroteActions (write_action actions i (encode a)) idx actions'
        → WroteActions actions ((some a, i) ∷ idx) actions'
    unfolding write_action
    write-WroteActions a i actions idx actions' h = record {
      cells = λ k. elim (h.cells k) [
        | inr (b, among, new) ↦ inr (b, Memᴰ.tail among, new)
        | inl same ↦ elim (Bool-cases (i == k)) [
          | inl here ↦ inr (
            a,
            Memᴰ.head (ap (λ n. (some a, n)) (sym ((nat_beq_iff i k).0 here))),
            same ∙ rw here refl,
          )
          | inr other ↦ inl (same ∙ rw other refl)
        ]
      ];
      written = λ b k among. elim (Memᴰ.cases_cons among) [
        | inr rest ↦ let (c, there, new) = h.written b k rest in (c, Memᴰ.tail there, new)
        | inl first ↦
            let e : k ≡ i = ap (λ (x : Entry). x.1) first in
            elim (h.cells k) [
              | inr (c, there, new) ↦ (c, Memᴰ.tail there, new)
              | inl same ↦ (a, Memᴰ.head (ap (λ n. (some a, n)) e), same ∙ rw (e, ==_refl i) refl)
            ]
      ];
    }

    inject_actions-WroteActions :
        (actions : ℕ → C) (idx : Map (Option A) ℕ)
        → All (λ (x : Entry). x.1 < limits.actions) idx
        → Returns (WroteActions actions idx) (inject_actions limits encode actions idx)
    unfolding inject_actions
    inject_actions-WroteActions actions [] h =
        Returns-returns (WroteActions actions []) actions
          (record { cells = λ k. inl refl; written = λ a k m. absurd (Memᴰ.not-nil m) })
    inject_actions-WroteActions actions ((none, i) ∷ idx) h =
        Returns-mono (WroteActions actions idx) (WroteActions actions ((none, i) ∷ idx)) _
          (inject_actions-WroteActions actions idx h.1)
          (λ actions' k. record {
            cells = λ j. elim (k.cells j) [
              | inl same ↦ inl same
              | inr (b, among, new) ↦ inr (b, Memᴰ.tail among, new)
            ];
            written = λ b j among. elim (Memᴰ.cases_cons among) [
              | inl first ↦ absurd (cc (ap (λ (x : Entry). x.0) first))
              | inr rest ↦ let (c, there, new) = k.written b j rest in (c, Memᴰ.tail there, new)
            ];
          })
    inject_actions-WroteActions actions ((some a, i) ∷ idx) h =
        let inside : leb limits.actions i ≡ false = ground (arith, h.0) in
        rw inside (
          Returns-mono (WroteActions (write_action actions i (encode a)) idx)
            (WroteActions actions ((some a, i) ∷ idx)) _
            (inject_actions-WroteActions (write_action actions i (encode a)) idx h.1)
            (λ actions' k. write-WroteActions a i actions idx actions' k))

-- Every cell of the state table is the edge of the DFA there, and is empty where there is none.
pub record Represents {A C : Type 0} (encode : A → C) (zeros : C) (limits : Limits) (d : Dfa A)
    (tables : Rodata C) : Type 0 where
  pub noop : tables.actions 0 ≡ zeros
  pub no_edge : (f : StateId) (i : Input) → edge_at d f i ≡ none → tables.states f i ≡ no_trans
  pub edge :
      (f : StateId) (i : Input) (e : Edge A)
      → edge_at d f i ≡ some e
      → ((tables.states f i).state ≡ e.to)
        × (tables.actions (tables.states f i).action ≡ encoded encode zeros e.action)
  pub small : (f : StateId) (i : Input) → (tables.states f i).action < limits.actions

module _ {A C : Type 0} ⦃eq : Eq A⦄ (encode : A → C) (zeros : C) (limits : Limits) (d : Dfa A)
    (v : IsValid d) (ts : List (Transition A)) (lists : Lists d ts) (u : AreUsable limits) where
  -- Why the tables cannot take the DFA.
  pub data IsTooLarge : Type 0 where
    too_many_states : limits.states < d.num_states → IsTooLarge
    too_many_actions : limits.actions ≤ length ts → IsTooLarge
    too_wide : (t : Transition A) → IsEdge d t → limits.edges ≤ t.input → IsTooLarge

  abbrev pub Injected : Result (Rodata C) → Type 0
  Injected (err e) = (e ≡ parser_exceeds_state_limit) × IsTooLarge
  Injected (ok tables) = Represents encode zeros limits d tables

  module _ (st : Progress A) (w : Wrote d limits (0 + length ts) st) where
    index-bounded : All (λ (x : Option A × ℕ). x.1 < limits.actions) st.index
    index-bounded = All-intro _ st.index (λ x among.
        omega (
          arith,
          w.room,
          w.index.below x.0 x.1 (Memᴰ-lookup x.0 x.1 st.index w.index.unique among),
        ))

    module _ (actions : ℕ → C)
        (wrote : WroteActions encode zeros (λ k. zeros) st.index actions) where
      index-encoded :
          (a : Option A) (k : ℕ) → lookup a st.index ≡ some k → actions k ≡ encoded encode zeros a
      index-encoded none k found = elim (wrote.cells k) [
        | inl same ↦ same
        | inr (b, among, new) ↦
            let there : lookup (some b) st.index ≡ some k =
              Memᴰ-lookup (some b) k st.index w.index.unique among in
            absurd (cc (w.index.injective none (some b) k found there))
      ]
      index-encoded (some a) k found =
          let (b, among, new) = wrote.written a k (lookup-Memᴰ (some a) k st.index found) in
          let there : lookup (some b) st.index ≡ some k =
            Memᴰ-lookup (some b) k st.index w.index.unique among in
          let same : some a ≡ some b = w.index.injective (some a) (some b) k found there in
          new ∙ ap (encoded encode zeros) (sym same)

      tables-Represents :
          All (Stored d limits st) ts
          → Represents encode zeros limits d (record { states = st.states; actions = actions })
      tables-Represents stored = record {
        noop = index-encoded none 0 w.index.noop;
        no_edge =
            λ f i absent. elim (w.cells f i) [ inl empty ↦ empty | inr (e, at, _) ↦ absurd (cc) ];
        small = λ f i. elim (w.cells f i) [
          | inl empty ↦ rw empty (omega (arith, u.some_action))
          | inr (e, at, (k, found, cell)) ↦
              rw cell (omega (arith, w.index.below e.action k found, w.room))
        ];
        edge = λ f i e at.
            let (k, found, cell) =
              All-Memᴰ (Stored d limits st) ts stored (transition f i e)
                (lists.complete f i e at) in
            (ap (λ (x : Trans). x.state) cell, rw cell (index-encoded e.action k found));
      }

  StoredAll-Injected :
      (r : Result (Progress A))
      → StoredAll d limits 0 first_progress ts r
      → Returns Injected (finish_inject limits encode zeros r)
  unfolding finish_inject
  StoredAll-Injected (err e) (limit, why) = Returns-returns Injected (err e) (
    limit,
    elim why [
      | inl full ↦ too_many_actions (omega arith)
      | inr (t, among, wide) ↦ too_wide t (All-Memᴰ (IsEdge d) ts lists.sound t among) wide
    ],
  )
  StoredAll-Injected (ok st) (w, _, stored) =
      Returns-bind (WroteActions encode zeros (λ k. zeros) st.index) Injected _ _
        (inject_actions-WroteActions encode zeros limits (λ k. zeros) st.index (index-bounded st w))
        (λ actions wrote.
          Returns-returns Injected (ok (record { states = st.states; actions = actions }))
            (tables-Represents st w actions wrote stored))

  -- Injecting a valid DFA into tables with an action cell at least and no more than an index of 16
  -- bits reaches, from its transitions in whatever order, returns: either tables in which each cell
  -- of the state table is the edge of the DFA there, with the encoding of its action, and is empty
  -- where the DFA has no edge; or the limit error, only for a DFA with more states than rows, with
  -- at least as many transitions as action cells, or with an input beyond the columns.
  pub inject-Injected : Returns Injected (inject limits encode zeros d.num_states ts)
  unfolding inject
  inject-Injected = elim (Bool-cases (ltb limits.states d.num_states)) [
    | inl over ↦ rw over (
        Returns-returns Injected (err parser_exceeds_state_limit)
          (refl, too_many_states (ground arith)))
    | inr fits ↦ rw fits (
        Returns-bind (StoredAll d limits 0 first_progress ts) Injected _ _
          (inject_transitions-StoredAll d limits u (ground arith) 0 first_progress ts
            (first-Wrote d limits u) lists.sound
            (All-mono (IsEdge d) (λ (t : Transition A). t.from < d.num_states)
              (λ t edge. (v.bounded t.from t.input _ edge).0) ts lists.sound))
          StoredAll-Injected)
  ]
