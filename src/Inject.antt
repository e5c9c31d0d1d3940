-- ===== src/Inject.antt =====
-- `inject` of the parsers (beeper/src/http1/parser.rs, beeper/src/http2/parser.rs): the DFA is
-- written into the tables that the eBPF program reads. A `HashMap` is visited in any order, so the
-- transitions come as a list. The read-only data of the program, without which `inject` panics, is
-- taken to be there: the build generates the skeleton that holds it.
pub mod Index
pub mod Loop
pub mod Tables
use beeper.Prelude.{
  ℕ, ◌%◌, ◌&&◌, ◌≡◌, ◌↔◌, Bool, true, false, Option, none, some, List, [], ◌∷◌, nat_eq, Eq, ◌==◌,
  leb, ltb, length, arith, if◌then◌else◌,
}
use beeper.Run.{Run, returns, panics, ◌>>=◌, out_of_bounds}
use beeper.Map.{Map, lookup, insert}
use beeper.Error.{Error, parser_exceeds_state_limit, Result, ok, err}
use beeper.Dfa.{StateId, Input, Dfa, Transition, u16_mod}

-- The lengths of the two tables, and of a row of the first: `data.states.len()`,
-- `data.states[0].len()` and `data.actions.len()`.
pub record Limits : Type 0 where
  pub states : ℕ
  pub edges : ℕ
  pub actions : ℕ

-- `struct trans`
pub record Trans : Type 0 where
  pub state : ℕ
  pub action : ℕ

abbrev pub no_trans : Trans
no_trans = record { state = 0; action = 0 }

-- The tables, by index, all zeros at first. `C` is the form of an action in the program.
pub record Rodata (C : Type 0) : Type 0 where
  pub states : StateId → Input → Trans
  pub actions : ℕ → C

abbrev pub option_beq : {A : Type 0} ⦃e : Eq A⦄ → Option A → Option A → Bool
option_beq none none = true
option_beq none (some b) = false
option_beq (some a) none = false
option_beq (some a) (some b) = a == b

pub option_beq_iff : {A : Type 0} ⦃e : Eq A⦄ (a b : Option A) → (option_beq a b ≡ true) ↔ (a ≡ b)
option_beq_iff none none = ground arith
option_beq_iff none (some b) = ground arith
option_beq_iff (some a) none = ground arith
option_beq_iff ⦃e⦄ (some a) (some b) = ground (arith, e.beq_iff a b)

instance abbrev pub option_eq : {A : Type 0} ⦃e : Eq A⦄ → Eq (Option A)
option_eq = record { beq = option_beq; beq_iff = option_beq_iff }

-- What the loop over the transitions has written so far.
pub record Progress (A : Type 0) : Type 0 where
  pub index : Map (Option A) ℕ
  pub states : StateId → Input → Trans

unfoldable pub write_state :
    (StateId → Input → Trans) → StateId → Input → Trans → StateId → Input → Trans
write_state states from input t f i = if from == f && input == i then t else states f i

-- `data.actions[i] = action.into()`, for the action of the index at `i`
unfoldable pub write_action : {C : Type 0} → (ℕ → C) → ℕ → C → ℕ → C
write_action actions i c k = if i == k then c else actions k

module _ {A : Type 0} ⦃eq : Eq A⦄ where
  -- `action_idx.entry(action).or_insert(new_action_idx)`
  unfoldable pub index_of : Map (Option A) ℕ → Option A → ℕ × Map (Option A) ℕ
  index_of idx action = elim (lookup action idx) [
    | some i ↦ (i, idx)
    | none ↦ (length idx, insert action (length idx) idx)
  ]

  -- the writes for one transition, at the index that its action has
  unfoldable pub store_transition :
      Limits → Progress A → Transition A → ℕ × Map (Option A) ℕ → Run (Result (Progress A))
  unfolding write_state
  store_transition limits st t (action, idx) =
      if leb limits.actions action
      then returns (err parser_exceeds_state_limit)
      else if leb limits.edges t.input
      then returns (err parser_exceeds_state_limit)
      else if leb limits.states t.from
      then panics out_of_bounds
      else returns (
          ok (record {
            index = idx;
            states =
                write_state st.states t.from t.input
                  (record { state = t.to; action = action % u16_mod });
          }))

  unfoldable pub inject_transition : Limits → Progress A → Transition A → Run (Result (Progress A))
  unfolding index_of store_transition
  inject_transition limits st t = store_transition limits st t (index_of st.index t.action)

  unfoldable pub inject_transitions :
      Limits → Progress A → List (Transition A) → Run (Result (Progress A))
  unfolding inject_transition
  inject_transitions limits st [] = returns (ok st)
  inject_transitions limits st (t ∷ ts) =
      inject_transition limits st t
      >>= elim [ err e ↦ returns (err e) | ok st' ↦ inject_transitions limits st' ts ]

-- the loop over the entries of the index
unfoldable pub inject_actions :
    {A C : Type 0} → Limits → (A → C) → (ℕ → C) → Map (Option A) ℕ → Run (ℕ → C)
unfolding write_action
inject_actions limits encode actions [] = returns actions
inject_actions limits encode actions ((none, i) ∷ idx) = inject_actions limits encode actions idx
inject_actions limits encode actions ((some a, i) ∷ idx) =
    if leb limits.actions i
    then panics out_of_bounds
    else inject_actions limits encode (write_action actions i (encode a)) idx

-- Index 0 is for the no-op.
abbrev pub first_progress : {A : Type 0} → Progress A
first_progress = record { index = (none, 0) ∷ []; states = λ f i. no_trans }

module _ {A C : Type 0} ⦃eq : Eq A⦄ where
  unfoldable pub finish_inject :
      Limits → (A → C) → C → Result (Progress A) → Run (Result (Rodata C))
  unfolding inject_actions
  finish_inject limits encode zeros (err e) = returns (err e)
  finish_inject limits encode zeros (ok st) = do
    actions ← inject_actions limits encode (λ k. zeros) st.index
    returns (ok (record { states = st.states; actions = actions }))

  -- `inject` of a DFA with `num_states` states and these transitions
  unfoldable pub inject : Limits → (A → C) → C → ℕ → List (Transition A) → Run (Result (Rodata C))
  unfolding inject_transitions finish_inject
  inject limits encode zeros num_states ts =
      if ltb limits.states num_states
      then returns (err parser_exceeds_state_limit)
      else (do r ← inject_transitions limits first_progress ts; finish_inject limits encode zeros r)
