-- ===== src/Builder.antt =====
-- `DfaBuilder` (beeper/src/dfa.rs): compiles one pattern into the DFA. The builder owns the DFA that
-- the source borrows mutably; a method returns the new builder. The debug traces are left out.
pub mod Patterns
pub mod Growth
pub mod Branches
pub mod Sound
pub mod Spelling
pub mod Prefixes
pub mod Steps
pub mod Actions
pub mod Walks
pub mod Options
pub mod Restart
pub mod Repeats
pub mod Chains
pub mod Total
pub mod Traces
use beeper.Prelude.{
  ℕ, ◌+◌, ◌-◌, Bool, true, false, not, ◌&&◌, Option, none, some, List, [], ◌∷◌, ◌++◌, Eq, nat_eq,
  bytes_eq, ◌==◌, ltb, leb, unwrap_or, if◌then◌else◌,
}
use beeper.Run.{Run, returns, ◌>>=◌}
use beeper.Dfa.{StateId, Input, Dfa, next_state, insert_edge, add_action}

pub record OptionalPrefix : Type 0 where
  pub inputs : List Input
  pub case_sensitive : Bool
  pub repeat : Bool

-- An item of `last_edges`.
pub record LastEdge : Type 0 where
  pub from : StateId
  pub input : Input
  pub case_sensitive : Bool

pub record DfaBuilder (A : Type 0) : Type 0 where
  pub dfa : Dfa A
  pub state : StateId
  pub optional_prefixes : List OptionalPrefix
  pub optional_states : List StateId
  pub last_edges : List LastEdge

abbrev pub is_ascii_lowercase : ℕ → Bool
is_ascii_lowercase c = leb b'a' c && leb c b'z'

abbrev pub is_ascii_uppercase : ℕ → Bool
is_ascii_uppercase c = leb b'A' c && leb c b'Z'

unfoldable pub to_ascii_uppercase : ℕ → ℕ
to_ascii_uppercase c = if is_ascii_lowercase c then c - 32 else c

unfoldable pub to_ascii_lowercase : ℕ → ℕ
to_ascii_lowercase c = if is_ascii_uppercase c then c + 32 else c

-- `u8::try_from(input).ok()?` gives up on an input that is no byte.
unfoldable pub other_case : Input → Option Input
unfolding to_ascii_uppercase to_ascii_lowercase
other_case input =
    if ltb input 256
    then (let other =
          if is_ascii_lowercase input then to_ascii_uppercase input else to_ascii_lowercase input in
        if other == input then none else some other)
    else none

pub contains : List StateId → StateId → Bool
contains [] s = false
contains (x ∷ xs) s = if x == s then true else contains xs s

module _ {A : Type 0} where
  -- `DfaBuilder::new`, which `Dfa::start_pattern` calls
  unfoldable pub start_pattern : Dfa A → StateId → DfaBuilder A
  start_pattern d state = record {
    dfa = d;
    state = state;
    optional_prefixes = [];
    optional_states = [];
    last_edges = [];
  }

  module _ ⦃eq : Eq A⦄ where
    -- the `if let Some(other) = other_case(input)` of `push_edge_from`
    unfoldable pub insert_other : Dfa A → StateId → Option Input → StateId → Run (Dfa A)
    insert_other d from none to = returns d
    insert_other d from (some other) to = insert_edge d from other to none

    -- The argument of `unwrap_or` is evaluated whether or not `to` is there.
    unfoldable pub push_edge_from :
        Dfa A → StateId → Input → Option StateId → Bool → Run (StateId × Dfa A)
    unfolding insert_other
    push_edge_from d from input to case_sensitive = do
      (next, d₁) ← next_state d from input
      let target = unwrap_or to next
      d₂ ← insert_edge d₁ from input target none
      d₃ ← insert_other d₂ from (if case_sensitive then none else other_case input) target
      returns (target, d₃)

    -- the inner loop of `push_optional_prefixes`, over the inputs of one prefix
    unfoldable pub push_prefix_inputs :
        Dfa A
        → OptionalPrefix
        → StateId
        → StateId
        → List Input
        → List LastEdge
        → Run (StateId × Dfa A × List LastEdge)
    push_prefix_inputs d p source from [] edges = returns (from, d, edges)
    push_prefix_inputs d p source from (input ∷ []) edges = do
      (to, d') ←
          push_edge_from d from input (if p.repeat then some source else none) p.case_sensitive
      returns (
        to,
        d',
        edges ++ record { from = from; input = input; case_sensitive = p.case_sensitive } ∷ [],
      )
    push_prefix_inputs d p source from (input ∷ next ∷ rest) edges = do
      (to, d') ← push_edge_from d from input none p.case_sensitive
      push_prefix_inputs d' p source to (next ∷ rest) edges

    -- the body of the loop over the sources
    unfoldable pub push_prefix_from : DfaBuilder A → OptionalPrefix → StateId → Run (DfaBuilder A)
    unfolding push_prefix_inputs contains
    push_prefix_from b p source = do
      (from, d, edges) ← push_prefix_inputs b.dfa p source source p.inputs b.last_edges
      returns (record b {
        dfa = d;
        last_edges = edges;
        optional_states =
            if not p.repeat && not (from == b.state) && not (contains b.optional_states from)
            then b.optional_states ++ from ∷ []
            else b.optional_states;
      })

    unfoldable pub push_prefix_sources :
        DfaBuilder A → OptionalPrefix → List StateId → Run (DfaBuilder A)
    unfolding push_prefix_from
    push_prefix_sources b p [] = returns b
    push_prefix_sources b p (source ∷ sources) = do
      b' ← push_prefix_from b p source
      push_prefix_sources b' p sources

    unfoldable pub push_prefixes : DfaBuilder A → List OptionalPrefix → Run (DfaBuilder A)
    unfolding push_prefix_sources
    push_prefixes b [] = returns b
    push_prefixes b (p ∷ ps) = do
      b' ← push_prefix_sources b p (b.state ∷ b.optional_states)
      push_prefixes b' ps

    unfoldable pub push_optional_prefixes : DfaBuilder A → Run (DfaBuilder A)
    unfolding push_prefixes
    push_optional_prefixes b =
        push_prefixes (record b { optional_prefixes = [] }) b.optional_prefixes

    -- the loop of `push_edge` over the optional states
    unfoldable pub follow_optional :
        Dfa A → List StateId → Input → StateId → Bool → List LastEdge → Run (Dfa A × List LastEdge)
    follow_optional d [] input to case_sensitive edges = returns (d, edges)
    follow_optional d (from ∷ rest) input to case_sensitive edges = do
      (_, d') ← push_edge_from d from input (some to) case_sensitive
      follow_optional d' rest input to case_sensitive
          (edges ++ record { from = from; input = input; case_sensitive = case_sensitive } ∷ [])

    unfoldable pub push_edge : DfaBuilder A → Input → Option StateId → Bool → Run (DfaBuilder A)
    unfolding follow_optional
    push_edge b input to case_sensitive = do
      b₁ ← push_optional_prefixes b
      (target, d) ← push_edge_from b₁.dfa b₁.state input to case_sensitive
      (d', edges) ←
          follow_optional d b₁.optional_states input target case_sensitive
            (record { from = b₁.state; input = input; case_sensitive = case_sensitive } ∷ [])
      returns (record b₁ { dfa = d'; state = target; optional_states = []; last_edges = edges })

    -- the second write of `with`, to the other case
    unfoldable pub add_other : Dfa A → StateId → Option Input → A → Run (Dfa A)
    add_other d from none action = returns d
    add_other d from (some other) action = add_action d from other action

    -- the loop of `with`
    unfoldable pub add_actions : Dfa A → List LastEdge → A → Run (Dfa A)
    unfolding add_other
    add_actions d [] action = returns d
    add_actions d (e ∷ edges) action = do
      d₁ ← add_action d e.from e.input action
      d₂ ← add_other d₁ e.from (if e.case_sensitive then none else other_case e.input) action
      add_actions d₂ edges action

    -- `with`
    unfoldable pub with_action : DfaBuilder A → A → Run (DfaBuilder A)
    unfolding add_actions
    with_action b action = do
      b₁ ← push_optional_prefixes b
      d ← add_actions b₁.dfa b₁.last_edges action
      returns (record b₁ { dfa = d })

    unfoldable pub push_inner : DfaBuilder A → List ℕ → Bool → Run (DfaBuilder A)
    push_inner b [] case_sensitive = returns b
    push_inner b (c ∷ cs) case_sensitive = do
      b' ← push_edge b c none case_sensitive
      push_inner b' cs case_sensitive

    -- `push` and `push_bytes`
    unfoldable pub push : DfaBuilder A → List ℕ → Run (DfaBuilder A)
    push b input = push_inner b input true

    unfoldable pub push_ci : DfaBuilder A → List ℕ → Run (DfaBuilder A)
    push_ci b input = push_inner b input false

    -- the loops of `push_options_inner` and `restart_with`: the last byte leads to `final`
    unfoldable pub push_into : DfaBuilder A → List ℕ → StateId → Bool → Run (DfaBuilder A)
    push_into b [] final case_sensitive = returns b
    push_into b (c ∷ []) final case_sensitive = push_edge b c (some final) case_sensitive
    push_into b (c ∷ c' ∷ cs) final case_sensitive = do
      b' ← push_edge b c none case_sensitive
      push_into b' (c' ∷ cs) final case_sensitive

  unfoldable pub push_optional : DfaBuilder A → List ℕ → Bool → DfaBuilder A
  push_optional b input repeat = record b {
    optional_prefixes =
        b.optional_prefixes
        ++ record { inputs = input; case_sensitive = true; repeat = repeat } ∷ [];
  }
