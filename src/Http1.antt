-- ===== src/Http1.antt =====
-- The HTTP/1.1 parser as it is configured (beeper/src/http1/parser.rs): match ids, captured headers,
-- and the patterns that each request compiles into the DFA. `attach` is in
-- Attach. A name is its bytes: a header name is ASCII, so `to_lowercase` is that of ASCII.
pub mod Actions
pub mod Growth
pub mod Captures
pub mod Runtime
pub mod Parsing
pub mod Running
pub mod Messages
use beeper.Prelude.{
  ℕ, ◌+◌, Bool, true, false, ◌||◌, Option, none, some, List, [], ◌∷◌, ◌++◌, map, nat_eq, bytes_eq,
  ◌==◌, ltb, leb, codes, if◌then◌else◌,
}
use beeper.Run.{Run, returns, panics, ◌>>=◌, unsupported_name}
use beeper.Map.{Map, lookup, insert}
use beeper.Error.{
  MessageBuffer, buffer_eq, Error, match_limit_exceeded, Result, ok, err, MatchId, max_matches,
  method, path, status,
}
use beeper.Dfa
use beeper.Dfa.{Dfa, init_state, any_state}
use beeper.Builder.{
  DfaBuilder, start_pattern, with_action, push, push_ci, push_optional, to_ascii_lowercase,
}
use beeper.Builder.Patterns.{included, unbounded, push_any, push_options_ci, restart_with}
use Actions.{Action, start_capture, end_capture, done, end_capture_and_done, action_eq}

abbrev pub cr : List ℕ
cr = 13 ∷ []

abbrev pub lf : List ℕ
lf = 10 ∷ []

abbrev pub tab : List ℕ
tab = 9 ∷ []

abbrev pub space : List ℕ
space = codes " "

pub record Parser : Type 0 where
  pub dfa : Dfa Action
  pub num_matches : ℕ
  pub parse_fns : Map MessageBuffer (List ℕ)
  pub matched_fn : Option (List ℕ)
  pub get_fns : Map MessageBuffer (List ℕ)
  pub captures : Map (List ℕ) MatchId

unfoldable pub new : Parser
new = record {
  dfa = Dfa.new;
  num_matches = 0;
  parse_fns = [];
  matched_fn = none;
  get_fns = [];
  captures = [];
}

unfoldable pub parse_fn : Parser → List ℕ → MessageBuffer → Parser
parse_fn p name msg_buf = record p { parse_fns = insert msg_buf name p.parse_fns }

unfoldable pub matched_fn : Parser → List ℕ → Parser
matched_fn p name = record p { matched_fn = some name }

unfoldable pub get_fn : Parser → List ℕ → MessageBuffer → Parser
get_fn p name msg_buf = record p { get_fns = insert msg_buf name p.get_fns }

-- A method that fails returns its error beside the parser, as the source leaves it.
unfoldable pub new_match : Parser → Result MatchId × Parser
new_match p =
    if leb max_matches p.num_matches
    then (err (match_limit_exceeded max_matches), p)
    else (ok p.num_matches, record p { num_matches = p.num_matches + 1 })

-- `let mid = self.new_match()?; …; Ok(mid)`, where the dots build patterns for `mid`
unfoldable pub build_with :
    (Dfa Action → MatchId → Run (Dfa Action))
    → Result MatchId × Parser
    → Run (Result MatchId × Parser)
build_with build (err e, p) = returns (err e, p)
build_with build (ok mid, p) = do d ← build p.dfa mid; returns (ok mid, record p { dfa = d })

-- `pattern`, the first part of `capture_new_hdr`: it ends where the value begins.
unfoldable pub header_start : Dfa Action → List ℕ → MatchId → Run (DfaBuilder Action)
header_start d name mid = do
  b₁ ← push (start_pattern d any_state) lf
  b₂ ← push_ci b₁ name
  b₃ ← push_ci (push_optional (push_optional b₂ tab true) space true) (codes ":")
  with_action (push_optional (push_optional b₃ tab true) space true) (start_capture mid)

unfoldable pub header_value : DfaBuilder Action → MatchId → Run (Dfa Action)
header_value b mid = do
  b₁ ← push_any b (included 1) unbounded
  b₂ ← with_action b₁ (end_capture mid)
  b₃ ← restart_with (push_optional b₂ cr false) lf
  b₄ ← restart_with (push_optional (start_pattern b₃.dfa b.state) cr false) lf
  returns b₄.dfa

unfoldable pub build_header : List ℕ → Dfa Action → MatchId → Run (Dfa Action)
unfolding header_start header_value
build_header name d mid = do b ← header_start d name mid; header_value b mid

abbrev pub methods : List (List ℕ)
methods =
    codes "POST"
    ∷ codes "GET"
    ∷ codes "PUT"
    ∷ codes "PATCH"
    ∷ codes "DELETE"
    ∷ codes "HEAD"
    ∷ codes "OPTIONS"
    ∷ codes "TRACE"
    ∷ []

-- the end of a request line that `capture_status_line` shares
unfoldable pub request_line_end : DfaBuilder Action → Run (Dfa Action)
request_line_end b = do
  b₁ ← push_ci b (codes " HTTP/1.1")
  b₂ ← restart_with (push_optional b₁ cr false) lf
  returns b₂.dfa

unfoldable pub build_method : Dfa Action → MatchId → Run (Dfa Action)
unfolding request_line_end
build_method d mid = do
  b₁ ← with_action (start_pattern d init_state) (start_capture mid)
  b₂ ← push_options_ci b₁ methods
  b₃ ← with_action b₂ (end_capture mid)
  b₄ ← push b₃ space
  b₅ ← push_any b₄ (included 1) unbounded
  request_line_end b₅

unfoldable pub build_path : Dfa Action → MatchId → Run (Dfa Action)
unfolding request_line_end
build_path d mid = do
  b₁ ← push_options_ci (start_pattern d init_state) methods
  b₂ ← push b₁ space
  b₃ ← with_action b₂ (start_capture mid)
  b₄ ← push_any b₃ (included 1) unbounded
  b₅ ← with_action b₄ (end_capture mid)
  request_line_end b₅

unfoldable pub build_status_line : List ℕ → Dfa Action → MatchId → Run (Dfa Action)
unfolding build_method build_path
build_status_line name d mid =
    if name == method
    then build_method d mid
    else if name == path
    then build_path d mid
    else panics unsupported_name

unfoldable pub capture_status_line : Parser → List ℕ → Run (Result MatchId × Parser)
unfolding build_status_line build_with new_match
capture_status_line p name = build_with (build_status_line name) (new_match p)

unfoldable pub build_status_code : Dfa Action → MatchId → Run (Dfa Action)
build_status_code d mid = do
  b₁ ← push_ci (start_pattern d init_state) (codes "HTTP/1.1 ")
  b₂ ← with_action b₁ (start_capture mid)
  b₃ ← push_any b₂ (included 3) (included 3)
  b₄ ← with_action b₃ (end_capture mid)
  b₅ ← push_any b₄ (included 1) unbounded
  b₆ ← restart_with (push_optional b₅ cr false) lf
  returns b₆.dfa

unfoldable pub capture_status_code : Parser → Run (Result MatchId × Parser)
unfolding build_status_code build_with new_match
capture_status_code p = build_with build_status_code (new_match p)

unfoldable pub capture_new_hdr : Parser → List ℕ → Run (Result MatchId × Parser)
unfolding capture_status_line capture_status_code build_header build_with new_match
capture_new_hdr p name =
    if name == method || name == path
    then capture_status_line p name
    else if name == status
    then capture_status_code p
    else build_with (build_header name) (new_match p)

-- the `?` on the result of `capture_new_hdr`, and the insertion that follows it
unfoldable pub remember : List ℕ → Result MatchId × Parser → Result MatchId × Parser
remember name (err e, p) = (err e, p)
remember name (ok mid, p) = (ok mid, record p { captures = insert name mid p.captures })

-- `str::to_lowercase` of an ASCII text
unfoldable pub to_lowercase : List ℕ → List ℕ
unfolding to_ascii_lowercase
to_lowercase = map to_ascii_lowercase

unfoldable pub capture_lowercased : Parser → List ℕ → Option MatchId → Run (Result MatchId × Parser)
unfolding capture_new_hdr remember
capture_lowercased p name (some mid) = returns (ok mid, p)
capture_lowercased p name none = do r ← capture_new_hdr p name; returns (remember name r)

unfoldable pub capture_hdr : Parser → List ℕ → Run (Result MatchId × Parser)
unfolding capture_lowercased to_lowercase
capture_hdr p name =
    let lowered = to_lowercase name in capture_lowercased p lowered (lookup lowered p.captures)

abbrev pub preface : List ℕ
preface = codes "PRI * HTTP/2.0" ++ cr ++ lf ++ cr ++ lf ++ codes "SM" ++ cr ++ lf ++ cr ++ lf

unfoldable pub build_preface : Dfa Action → MatchId → Run (Dfa Action)
build_preface d mid = do
  b₁ ← with_action (start_pattern d init_state) (start_capture mid)
  b₂ ← push b₁ preface
  b₃ ← with_action b₂ (end_capture_and_done mid)
  returns b₃.dfa

unfoldable pub match_http2_preface : Parser → Run (Result MatchId × Parser)
unfolding build_preface build_with new_match
match_http2_preface p = build_with build_preface (new_match p)

unfoldable pub done_on_hdr_end : Parser → Run Parser
done_on_hdr_end p = do
  b₁ ← push (push_optional (start_pattern p.dfa any_state) cr false) lf
  b₂ ← push (push_optional b₁ cr false) lf
  b₃ ← with_action b₂ done
  returns (record p { dfa = b₃.dfa })
