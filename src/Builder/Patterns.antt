-- ===== src/Builder/Patterns.antt =====
-- The methods of `DfaBuilder` (beeper/src/dfa.rs) that build repetitions, alternatives and the
-- return to the start of a line.
use beeper.Prelude.{
  ℕ, zero, suc, ◌+◌, ◌-◌, ◌^◌, Bool, true, false, Option, none, some, List, [], ◌∷◌, ◌++◌, Eq,
  bytes_eq, ◌==◌, ltb, leb, length, if◌then◌else◌,
}
use beeper.Run.{Run, returns, panics, ◌>>=◌, empty_range, empty_option}
use beeper.Dfa.{StateId, Dfa, any_state, any_input, next_state}
use beeper.Builder.{
  OptionalPrefix, LastEdge, DfaBuilder, push_edge_from, push_edge, push_inner, push_into,
}

-- `std::ops::Bound<usize>`
pub data Bound : Type 0 where
  excluded included : ℕ → Bound
  unbounded : Bound

abbrev usize_max : ℕ
usize_max = 2 ^ 64 - 1

-- `n.saturating_add(1)` and `n.saturating_sub(1)`
unfoldable pub min_len : Bound → ℕ
min_len (excluded n) = if ltb n usize_max then n + 1 else usize_max
min_len (included n) = n
min_len unbounded = 0

unfoldable pub max_len : Bound → ℕ → ℕ
max_len (excluded n) min = n - 1
max_len (included n) min = n
max_len unbounded min = min

unfoldable pub any_prefixes : ℕ → List OptionalPrefix
any_prefixes zero = []
any_prefixes (suc n) =
    record { inputs = any_input ∷ []; case_sensitive = true; repeat = false } ∷ any_prefixes n

unfoldable pub longest_from : List ℕ → List (List ℕ) → List ℕ
longest_from best [] = best
longest_from best (x ∷ xs) = longest_from (if ltb (length x) (length best) then best else x) xs

-- `max_by_key` returns the last of several longest items.
unfoldable pub longest_option : List (List ℕ) → Option (List ℕ)
unfolding longest_from
longest_option [] = none
longest_option (x ∷ xs) = some (longest_from x xs)

module _ {A : Type 0} ⦃eq : Eq A⦄ where
  unfoldable pub push_any_edges : DfaBuilder A → ℕ → Run (DfaBuilder A)
  push_any_edges b zero = returns b
  push_any_edges b (suc n) = do b' ← push_edge b any_input none true; push_any_edges b' n

  -- the loop of an unbounded range, back into the state that the range ends in
  unfoldable pub push_any_loop : DfaBuilder A → Bound → Run (DfaBuilder A)
  push_any_loop b unbounded = do
    (_, d) ← push_edge_from b.dfa b.state any_input (some b.state) true
    returns (record b {
      dfa = d;
      last_edges =
          b.last_edges ++ record { from = b.state; input = any_input; case_sensitive = true } ∷ [];
    })
  push_any_loop b _ = returns b

  unfoldable pub push_any : DfaBuilder A → Bound → Bound → Run (DfaBuilder A)
  unfolding min_len max_len any_prefixes push_any_edges push_any_loop
  push_any b start end =
      let min = min_len start in
      let max = max_len end min in
      if leb min max
      then (do
        b₁ ← push_any_edges b min
        push_any_loop
            (record b₁ { optional_prefixes = b₁.optional_prefixes ++ any_prefixes (max - min) })
            end)
      else panics empty_range

  unfoldable pub push_option : DfaBuilder A → StateId → StateId → List ℕ → Bool → Run (DfaBuilder A)
  push_option b start final [] case_sensitive = panics empty_option
  push_option b start final (c ∷ cs) case_sensitive =
      push_into (record b { state = start }) (c ∷ cs) final case_sensitive

  -- the loop over the other options, which collects the routes into the final state
  unfoldable pub push_other_options :
      DfaBuilder A
      → StateId
      → StateId
      → List ℕ
      → List (List ℕ)
      → Bool
      → List LastEdge
      → Run (DfaBuilder A)
  unfolding push_option
  push_other_options b start final longest [] case_sensitive edges =
      returns (record b { last_edges = edges })
  push_other_options b start final longest (input ∷ inputs) case_sensitive edges =
      elim (input == longest) [
        | true ↦ push_other_options b start final longest inputs case_sensitive edges
        | false ↦ do
          b' ← push_option b start final input case_sensitive
          push_other_options (record b' { last_edges = [] }) start final longest inputs
              case_sensitive (edges ++ b'.last_edges)
      ]

  unfoldable pub push_options_from :
      DfaBuilder A → List (List ℕ) → Bool → Option (List ℕ) → Run (DfaBuilder A)
  unfolding push_other_options
  push_options_from b inputs case_sensitive none = returns b
  push_options_from b inputs case_sensitive (some longest) = do
    b₁ ← push_inner b longest case_sensitive
    push_other_options (record b₁ { last_edges = [] }) b.state b₁.state longest inputs
        case_sensitive b₁.last_edges

  unfoldable pub push_options_inner : DfaBuilder A → List (List ℕ) → Bool → Run (DfaBuilder A)
  unfolding push_options_from longest_option
  push_options_inner b inputs case_sensitive =
      push_options_from b inputs case_sensitive (longest_option inputs)

  unfoldable pub push_options_ci : DfaBuilder A → List (List ℕ) → Run (DfaBuilder A)
  push_options_ci b inputs = push_options_inner b inputs false

  -- the `fold` of `restart_with`
  unfoldable pub restart_fold : Dfa A → StateId → List ℕ → Run (StateId × Dfa A)
  restart_fold d state [] = returns (state, d)
  restart_fold d state (c ∷ cs) = do
    (next, d₁) ← next_state d state c
    (_, d₂) ← push_edge_from d₁ state c (some next) false
    restart_fold d₂ next cs

  unfoldable pub restart_with : DfaBuilder A → List ℕ → Run (DfaBuilder A)
  unfolding restart_fold
  restart_with b input = do
    (final, d) ← restart_fold b.dfa any_state input
    push_into (record b { dfa = d }) input final false
