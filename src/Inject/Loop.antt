-- ===== src/Inject/Loop.antt =====
-- The loop of `inject` (beeper/src/http1/parser.rs, beeper/src/http2/parser.rs) over the transitions:
-- what the state table holds after it.
use mathlib.Core.Path.{subst}
use mathlib.Core.List.{Memᴰ}
use mathlib.Core.List.Memᴰ
use beeper.Prelude.{
  ℕ, ◌+◌, ◌≤◌, ◌<◌, ◌≡◌, refl, ◌∙◌, ◌⊎◌, inl, inr, Option, some, List, [], ◌∷◌, Bool-cases, false,
  Eq, ◌==◌, nat_eq, length, arith, All, ap, ◌%◌, ==_refl, ◌&&◌, leb,
}
use beeper.Run.{returns, Returns, Returns-returns, Returns-bind, Returns-mono}
use beeper.Map.{Map, lookup}
use beeper.Error.{Error, parser_exceeds_state_limit, Result, ok, err}
use beeper.Dfa.{StateId, Input, Edge, Dfa, Transition, u16_mod, edge_at}
use beeper.Dfa.Listing.{IsEdge, transition}
use beeper.Inject.{
  Limits, Trans, no_trans, Progress, option_eq, write_state, index_of, store_transition,
  first_progress, inject_transition, inject_transitions,
}
use beeper.Inject.Index.{IsIndex, Numbered, index_of-Numbered, first-IsIndex}

-- What the eBPF program was built for: an index fits in its `u16`.
pub record AreUsable (l : Limits) : Type 0 where
  pub some_action : 1 ≤ l.actions
  pub index_fits : l.actions ≤ u16_mod

module _ {A : Type 0} ⦃eq : Eq A⦄ (d : Dfa A) (limits : Limits) where
  -- The cell of the transition holds its target and the number of its action.
  abbrev pub Stored : Progress A → Transition A → Type 0
  Stored st t =
      (k : ℕ) × (lookup t.action st.index ≡ some k)
      × (st.states t.from t.input ≡ record { state = t.to; action = k })

  -- Every cell is still empty, or holds the edge of the DFA there. `n` transitions have been read.
  pub record Wrote (n : ℕ) (st : Progress A) : Type 0 where
    pub index : IsIndex st.index
    pub room : length st.index ≤ limits.actions
    pub count : length st.index ≤ n + 1
    pub cells :
        (f : StateId) (i : Input)
        → (st.states f i ≡ no_trans)
          ⊎ ((e : Edge A) × (edge_at d f i ≡ some e) × Stored st (transition f i e))

  -- A transition stored before a step stays stored.
  abbrev pub Keeps : Progress A → Progress A → Type 0
  Keeps st st' = (t : Transition A) → IsEdge d t → Stored st t → Stored st' t

  -- Why a loop that has `n` transitions to read gives up.
  abbrev pub GivesUp : ℕ → List (Transition A) → Error → Type 0
  GivesUp n ts e =
      (e ≡ parser_exceeds_state_limit)
      × ((limits.actions ≤ n) ⊎ ((t : Transition A) × Memᴰ t ts × (limits.edges ≤ t.input)))

  abbrev pub StoredAll : ℕ → Progress A → List (Transition A) → Result (Progress A) → Type 0
  StoredAll n st ts (err e) = GivesUp (n + length ts) ts e
  StoredAll n st ts (ok st') = Wrote (n + length ts) st' × Keeps st st' × All (Stored st') ts

  pub first-Wrote : AreUsable limits → Wrote 0 first_progress
  first-Wrote u = record {
    index = first-IsIndex;
    room = omega (arith, u.some_action);
    count = omega arith;
    cells = λ f i. inl refl;
  }

  module _ (u : AreUsable limits) (fits : d.num_states ≤ limits.states) where
    module _ (n : ℕ) (st : Progress A) (t : Transition A) (w : Wrote n st) (edge : IsEdge d t)
        (below : t.from < d.num_states) where
      write_state-cases :
          (x : Trans) (f : StateId) (i : Input)
          → (write_state st.states t.from t.input x f i ≡ st.states f i)
            ⊎ ((t.from ≡ f) × (t.input ≡ i) × (write_state st.states t.from t.input x f i ≡ x))
      unfolding write_state
      write_state-cases x f i = elim (Bool-cases (t.from == f && t.input == i)) [
        | inl same ↦ inr (ground arith, ground arith, ground arith)
        | inr other ↦ inl (ground arith)
      ]

      written : (r : ℕ × Map (Option A) ℕ) → Progress A
      written r = record {
        index = r.1;
        states =
            write_state st.states t.from t.input (record { state = t.to; action = r.0 % u16_mod });
      }

      module _ (r : ℕ × Map (Option A) ℕ) (num : Numbered st.index t.action r)
          (room : r.0 < limits.actions) where
        in_cell : Trans
        in_cell = record { state = t.to; action = r.0 }

        not_cut : record { state = t.to; action = r.0 % u16_mod } ≡ in_cell
        unfolding in_cell
        not_cut = ap (λ k. record { state = t.to; action = k }) (omega (arith, u.index_fits))

        written-cases :
            (f : StateId) (i : Input)
            → ((written r).states f i ≡ st.states f i)
              ⊎ ((t.from ≡ f) × (t.input ≡ i) × ((written r).states f i ≡ in_cell))
        unfolding written
        written-cases f i = elim (write_state-cases _ f i) [
          | inl same ↦ inl same
          | inr (p, q, new) ↦ inr (p, q, new ∙ not_cut)
        ]

        written-Stored : Stored (written r) t
        unfolding written write_state in_cell
        written-Stored = (r.0, num.found, rw (==_refl t.from, ==_refl t.input) not_cut)

        -- The cell of an edge that `t` reads is that of `t`.
        written-same :
            (f : StateId) (i : Input) (e : Edge A)
            → t.from ≡ f
            → t.input ≡ i
            → edge_at d f i ≡ some e
            → Stored (written r) (transition f i e)
        written-same f i e p q at =
            let same : e ≡ record { to = t.to; action = t.action } = cc (rw (p, q) at edge) in
            rw (same, ← p, ← q) written-Stored

        written-Keeps : Keeps st (written r)
        unfolding written in_cell
        written-Keeps t₀ at (k, found, cell) = elim (written-cases t₀.from t₀.input) [
          | inl same ↦ (k, num.kept t₀.action k found, same ∙ cell)
          | inr (p, q, new) ↦
              written-same t₀.from t₀.input (record { to = t₀.to; action = t₀.action }) p q at
        ]

        written-Wrote : Wrote (n + 1) (written r)
        unfolding written
        written-Wrote = record {
          index = num.index;
          room = elim num.size [ inl same ↦ rw same w.room | inr (more, last) ↦ omega arith ];
          count = elim num.size [
            | inl same ↦ omega (arith, w.count)
            | inr (more, last) ↦ omega (arith, w.count)
          ];
          cells = λ f i. elim (written-cases f i) [
            | inl same ↦ elim (w.cells f i) [
              | inl empty ↦ inl (same ∙ empty)
              | inr (e, at, stored) ↦ inr (e, at, written-Keeps (transition f i e) at stored)
            ]
            | inr (p, q, new) ↦
                let e : Edge A = record { to = t.to; action = t.action } in
                let at : edge_at d f i ≡ some e = rw (← p, ← q) edge in
                inr (e, at, written-same f i e p q at)
          ];
        }

      store_transition-StoredAll :
          (r : ℕ × Map (Option A) ℕ)
          → Numbered st.index t.action r
          → Returns (StoredAll n st (t ∷ [])) (store_transition limits st t r)
      unfolding store_transition written
      store_transition-StoredAll r num = elim (Bool-cases (leb limits.actions r.0)) [
        | inl full ↦ rw full (
            Returns-returns (StoredAll n st (t ∷ [])) _
              (refl, inl (ground (arith, num.number, w.count))))
        | inr room ↦ elim (Bool-cases (leb limits.edges t.input)) [
          | inl wide ↦
              rw (room, wide)
                (Returns-returns (StoredAll n st (t ∷ [])) _
                  (refl, inr (t, Memᴰ.head refl, ground arith)))
          | inr narrow ↦
              let inside : leb limits.states t.from ≡ false = ground arith in
              let small : r.0 < limits.actions = ground arith in
              rw (room, narrow, inside)
                (Returns-returns (StoredAll n st (t ∷ [])) (ok (written r)) (
                  written-Wrote r num small,
                  written-Keeps r num small,
                  (written-Stored r num small, tt),
                ))
        ]
      ]

    inject_transition-StoredAll :
        (n : ℕ) (st : Progress A) (t : Transition A)
        → Wrote n st
        → IsEdge d t
        → t.from < d.num_states
        → Returns (StoredAll n st (t ∷ [])) (inject_transition limits st t)
    unfolding inject_transition
    inject_transition-StoredAll n st t w edge below =
        store_transition-StoredAll n st t w edge below (index_of st.index t.action)
          (index_of-Numbered st.index t.action w.index)

    -- the part of the loop after a first step
    rest-StoredAll :
        (n : ℕ) (st : Progress A) (t : Transition A) (ts : List (Transition A)) (st' : Progress A)
        → StoredAll n st (t ∷ []) (ok st')
        → All (IsEdge d) (t ∷ ts)
        → (r : Result (Progress A)) → StoredAll (n + 1) st' ts r
        → StoredAll n st (t ∷ ts) r
    rest-StoredAll n st t ts st' h edges (err e) k = (k.0, why k.1)
      where
        why :
            (limits.actions ≤ n + 1 + length ts)
              ⊎ ((t : Transition A) × Memᴰ t ts × (limits.edges ≤ t.input))
            → (limits.actions ≤ n + length (t ∷ ts))
              ⊎ ((x : Transition A) × Memᴰ x (t ∷ ts) × (limits.edges ≤ x.input))
        why (inl full) = inl (omega arith)
        why (inr (x, among, wide)) = inr (x, Memᴰ.tail among, wide)
    rest-StoredAll n st t ts st' h edges (ok st'') k = (
      subst (λ m. Wrote m st'') (omega arith) k.0,
      λ x at s. k.1 x at (h.1 x at s),
      (k.1 t edges.0 h.2.0, k.2),
    )

    next-StoredAll :
        (n : ℕ) (st : Progress A) (t : Transition A) (ts : List (Transition A))
        → All (IsEdge d) (t ∷ ts)
        → ((st' : Progress A)
            → Wrote (n + 1) st'
            → Returns (StoredAll (n + 1) st' ts) (inject_transitions limits st' ts))
        → (r : Result (Progress A)) → StoredAll n st (t ∷ []) r
        → Returns
            (StoredAll n st (t ∷ ts))
            (elim r [ err e ↦ returns (err e) | ok st' ↦ inject_transitions limits st' ts ])
    next-StoredAll n st t ts edges next (err e) h =
        Returns-returns (StoredAll n st (t ∷ ts)) (err e) (
          h.0,
          elim h.1 [
            | inl full ↦ inl (omega arith)
            | inr (x, among, wide) ↦ inr (x, Memᴰ.append_left ts among, wide)
          ],
        )
    next-StoredAll n st t ts edges next (ok st') h =
        Returns-mono (StoredAll (n + 1) st' ts) (StoredAll n st (t ∷ ts)) _ (next st' h.0)
          (rest-StoredAll n st t ts st' h edges)

    pub inject_transitions-StoredAll :
        (n : ℕ) (st : Progress A) (ts : List (Transition A))
        → Wrote n st
        → All (IsEdge d) ts
        → All (λ (t : Transition A). t.from < d.num_states) ts
        → Returns (StoredAll n st ts) (inject_transitions limits st ts)
    unfolding inject_transitions
    inject_transitions-StoredAll n st [] w edges below =
        Returns-returns (StoredAll n st []) (ok st)
          (subst (λ m. Wrote m st) (omega arith) w, λ t e s. s, tt)
    inject_transitions-StoredAll n st (t ∷ ts) w edges below =
        Returns-bind (StoredAll n st (t ∷ [])) (StoredAll n st (t ∷ ts)) _ _
          (inject_transition-StoredAll n st t w edges.0 below.0)
          (next-StoredAll n st t ts edges
            (λ st' w'. inject_transitions-StoredAll (n + 1) st' ts w' edges.1 below.1))
