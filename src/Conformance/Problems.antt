-- ===== src/Conformance/Problems.antt =====
-- What `check` of the conformance harness does not accept, and the check of the request blocks
-- (`check_requests` in utils/src/bin/conformance/main.rs). A problem stands for its text. `eproto` is
-- `-libc::EPROTO`.
use beeper.Prelude.{
  ℕ, ◌+◌, not, Option, none, some, List, [], ◌∷◌, ◌++◌, map, nat_eq, ◌==◌, length, if◌then◌else◌,
}
use beeper.Run.{Run, returns, ◌>>=◌}
use beeper.Utils.{ℤ, Frame, int_eq}
use beeper.Conformance.{ParsedBlock}
use beeper.Conformance.Fields.{Field, expected_fields}
use beeper.Conformance.Checking.{check}

-- A header block as it is sent.
pub data Block : Type 0 where
  fields : List Field → Block
  malformed rejected : Block

pub data Problem : Type 0 where
  other_frame : Frame → Problem
  request_count : ℕ → ℕ → Problem
  lists_rejected : ℕ → Problem
  not_failed : ℕ → Option ℤ → Problem
  failed : ℕ → Option ℤ → Problem
  request_field : ℕ → List ℕ → Problem
  frame_count : ℕ → ℕ → ℕ → Problem
  not_rejected : ℕ → ℤ → Problem
  lists_malformed : ℕ → Problem
  frame_failed : ℕ → ℤ → Problem
  frame_field : ℕ → List ℕ → Problem
  response_failed : ℕ → ℤ → Problem
  unanswered : ℕ → Problem
  response_field : ℕ → List ℕ → Problem

module _ (huffman : List ℕ → Option (List ℕ)) (eproto : ℤ) (names : List (List ℕ))
    (authority : List ℕ) where
  -- the body of the loop of `check_requests`
  unfoldable pub check_request : ℕ → ParsedBlock → Block → Option ℤ → Run (List Problem)
  check_request i parsed rejected error = returns (lists_rejected i ∷ [])
  check_request i parsed malformed none = returns (not_failed i none ∷ [])
  check_request i parsed malformed (some e) =
      returns (if not (e == eproto) then [] else not_failed i (some e) ∷ [])
  check_request i parsed (fields sent) (some e) = returns (failed i (some e) ∷ [])
  check_request i parsed (fields sent) none = do
    mismatches ← check huffman parsed (expected_fields sent authority) names
    returns (map (request_field i) mismatches)

  unfoldable pub check_request_pairs : ℕ → List ParsedBlock → List Block → Run (List Problem)
  unfolding check_request
  check_request_pairs i [] sent = returns []
  check_request_pairs i (p ∷ parsed) [] = returns []
  check_request_pairs i (p ∷ parsed) (b ∷ sent) = do
    here ← check_request i p b p.error
    rest ← check_request_pairs (i + 1) parsed sent
    returns (here ++ rest)

  -- the problems that `check_requests` adds
  unfoldable pub check_requests : List Block → List ParsedBlock → Run (List Problem)
  unfolding check_request_pairs
  check_requests sent parsed = do
    pairs ← check_request_pairs 0 parsed sent
    returns (
        (if length parsed == length sent
          then []
          else request_count (length parsed) (length sent) ∷ [])
        ++ pairs)
