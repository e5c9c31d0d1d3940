-- ===== src/Http2.antt =====
-- The HTTP/2 parser as it is configured (beeper/src/http2/parser.rs). `attach` is kernel I/O but for
-- `inject`. `huffman` stands for `huffman::encode` of the crate httlib_huffman.
pub mod Actions
pub mod Hpack
pub mod Representations
pub mod Captures
pub mod StaticTable
pub mod AppendixA
pub mod Connections
pub mod Forgetting
pub mod Addresses
pub mod Populate
pub mod Start
use beeper.Prelude.{ℕ, ◌+◌, Option, none, some, List, [], ◌∷◌, bytes_eq, leb, if◌then◌else◌}
use beeper.Run.{Run, returns, panics, ◌>>=◌}
use beeper.Map.{Map, lookup, insert}
use beeper.Error.{
  MessageBuffer, buffer_eq, Error, match_limit_exceeded, invalid_encoding, Result, ok, err, MatchId,
  max_matches,
}
use beeper.Dfa.{Dfa, StateId, iter_transitions}
use beeper.Builder.{DfaBuilder, start_pattern, push, with_action}
use beeper.Inject.{Limits, Rodata}
use beeper.Inject as Inject
use Actions.{Action, action_eq, capture_action, s_name, s_name_plain, Http2Action, noop, encode}
use Hpack.{hpack_dfa}

-- what `DYNAMIC_TABLE_BASE` is loaded with
abbrev pub dynamic_table_base : ℕ
dynamic_table_base = 62

pub record Parser : Type 0 where
  pub dfa : Dfa Action
  pub num_matches : ℕ
  pub parse_fns : Map MessageBuffer (List ℕ)
  pub matched_fn : Option (List ℕ)
  pub get_fns : Map MessageBuffer (List ℕ)
  pub get_dynamic_table_entry_fn : Option (List ℕ)
  pub captures : Map (List ℕ) MatchId

unfoldable pub new : Run Parser
new = do
  d ← hpack_dfa
  returns (record {
    dfa = d;
    num_matches = 0;
    parse_fns = [];
    matched_fn = none;
    get_fns = [];
    get_dynamic_table_entry_fn = none;
    captures = [];
  })

unfoldable pub parse_fn : Parser → List ℕ → MessageBuffer → Parser
parse_fn p name msg_buf = record p { parse_fns = insert msg_buf name p.parse_fns }

unfoldable pub matched_fn : Parser → List ℕ → Parser
matched_fn p name = record p { matched_fn = some name }

unfoldable pub get_fn : Parser → List ℕ → MessageBuffer → Parser
get_fn p name msg_buf = record p { get_fns = insert msg_buf name p.get_fns }

unfoldable pub get_dynamic_table_entry : Parser → List ℕ → Parser
get_dynamic_table_entry p name = record p { get_dynamic_table_entry_fn = some name }

unfoldable pub new_match : Parser → Result MatchId × Parser
new_match p =
    if leb max_matches p.num_matches
    then (err (match_limit_exceeded max_matches), p)
    else (ok p.num_matches, record p { num_matches = p.num_matches + 1 })

-- a name under a root of the trie, with the capture on its last edge
unfoldable pub build_name : Dfa Action → StateId → List ℕ → MatchId → Run (Dfa Action)
build_name d root name mid = do
  b₁ ← push (start_pattern d root) name
  b₂ ← with_action b₁ (capture_action mid)
  returns b₂.dfa

-- the patterns and the new entry of a header, once it has an id
unfoldable pub capture_as :
    List ℕ → List ℕ → Result MatchId × Parser → Run (Result MatchId × Parser)
unfolding build_name
capture_as name name_encoded (err e, p) = returns (err e, p)
capture_as name name_encoded (ok mid, p) = do
  d₁ ← build_name p.dfa s_name name_encoded mid
  d₂ ← build_name d₁ s_name_plain name mid
  returns (ok mid, record p { dfa = d₂; captures = insert name mid p.captures })

unfoldable pub capture_encoded : Parser → List ℕ → Option (List ℕ) → Run (Result MatchId × Parser)
unfolding capture_as new_match
capture_encoded p name none = returns (err invalid_encoding, p)
capture_encoded p name (some name_encoded) = capture_as name name_encoded (new_match p)

unfoldable pub capture_found :
    (List ℕ → Option (List ℕ)) → Parser → List ℕ → Option MatchId → Run (Result MatchId × Parser)
unfolding capture_encoded
capture_found huffman p name (some mid) = returns (ok mid, p)
capture_found huffman p name none = capture_encoded p name (huffman name)

unfoldable pub capture_hdr :
    (List ℕ → Option (List ℕ)) → Parser → List ℕ → Run (Result MatchId × Parser)
unfolding capture_found
capture_hdr huffman p name = capture_found huffman p name (lookup name p.captures)

-- `MAX_STATES`, `MAX_EDGES` and `MAX_ACTIONS` of http2/parser.bpf.c
abbrev pub limits : Limits
limits = record { states = 1024; edges = 256; actions = 1024 }

-- `inject` from the check of the number of states on
unfoldable pub inject : Parser → Run (Result (Rodata Http2Action))
inject p = Inject.inject limits encode noop p.dfa.num_states (iter_transitions p.dfa)
