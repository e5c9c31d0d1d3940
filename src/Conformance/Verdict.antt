-- ===== src/Conformance/Verdict.antt =====
-- The verdict of the conformance harness on a case: `check` in
-- utils/src/bin/conformance/main.rs.
use beeper.Prelude.{
  ℕ, ◌+◌, Bool, false, Option, none, some, List, [], ◌∷◌, ◌++◌, map, nat_eq, ◌==◌, ltb, ◌||◌,
  length, if◌then◌else◌,
}
use beeper.Run.{Run, returns, ◌>>=◌}
use beeper.Utils.{ℤ, Frame, int_eq}
use beeper.Conformance.{ParsedBlock, blocks}
use beeper.Conformance.Fields.{Field, Fields, response_fields}
use beeper.Conformance.Checking.{check}
use beeper.Conformance.Problems.{
  Block, fields, malformed, rejected, Problem, other_frame, response_failed, unanswered,
  response_field, check_requests,
}
use beeper.Conformance.Violations.{check_violation}

pub data Expect : Type 0 where
  blocks_sent violation : List Block → Expect

pub record Case : Type 0 where
  pub ids : List (List ℕ)
  pub expect : Expect

unfoldable pub sent_blocks : Expect → List Block
sent_blocks (blocks_sent sent) = sent
sent_blocks (violation sent) = sent

-- `Block::sent`
unfoldable pub sent : Block → Option (List Field)
sent (fields block) = some block
sent malformed = none
sent rejected = none

-- the answers to the blocks that carry fields
unfoldable pub answers_of : List Block → List ℕ → List Fields
unfolding sent
answers_of [] authority = []
answers_of (b ∷ blocks) authority =
    let rest = answers_of blocks authority in
    elim (sent b) [
      | none ↦ rest
      | some block ↦ elim (response_fields block authority) [ none ↦ rest | some f ↦ f ∷ rest ]
    ]

-- `min_by_key(Vec::len)`, the first of the shortest
unfoldable pub closest_from : List (List ℕ) → List (List (List ℕ)) → List (List ℕ)
closest_from best [] = best
closest_from best (m ∷ ms) = closest_from (if ltb (length m) (length best) then m else best) ms

unfoldable pub closest : List (List (List ℕ)) → Option (List (List ℕ))
unfolding closest_from
closest [] = none
closest (m ∷ ms) = some (closest_from m ms)

unfoldable pub response_problems : ℕ → Option (List (List ℕ)) → List Problem
response_problems i none = unanswered i ∷ []
response_problems i (some mismatches) = map (response_field i) mismatches

-- the ports in a `BTreeSet`, in any order
unfoldable pub has_port : ℕ → List ℕ → Bool
has_port port [] = false
has_port port (p ∷ ports) = p == port || has_port port ports

unfoldable pub connections : List ParsedBlock → List ℕ
unfolding has_port
connections [] = []
connections (b ∷ blocks) =
    let rest = connections blocks in
    if has_port b.client_port rest then rest else b.client_port ∷ rest

-- The numbers that the summary names.
pub record Summary : Type 0 where
  pub requests : ℕ
  pub responses : ℕ
  pub conns : ℕ

module _ (huffman : List ℕ → Option (List ℕ)) (eproto : ℤ) (names : List (List ℕ))
    (authority : List ℕ) where
  unfoldable pub check_answers : ParsedBlock → List Fields → Run (List (List (List ℕ)))
  check_answers parsed [] = returns []
  check_answers parsed (f ∷ answers) = do
    mismatches ← check huffman parsed f names
    rest ← check_answers parsed answers
    returns (mismatches ∷ rest)

  unfoldable pub check_response : ℕ → ParsedBlock → Option ℤ → List Fields → Run (List Problem)
  unfolding check_answers closest response_problems
  check_response i parsed (some e) answers = returns (response_failed i e ∷ [])
  check_response i parsed none answers = do
    mismatches ← check_answers parsed answers
    returns (response_problems i (closest mismatches))

  unfoldable pub check_responses : ℕ → List ParsedBlock → List Fields → Run (List Problem)
  unfolding check_response
  check_responses i [] answers = returns []
  check_responses i (p ∷ responses) answers = do
    here ← check_response i p p.error answers
    rest ← check_responses (i + 1) responses answers
    returns (here ++ rest)

  unfoldable pub check_sent : Expect → List ParsedBlock → List Frame → Run (List Problem)
  check_sent (blocks_sent sent) requests frames =
      check_requests huffman eproto names authority sent requests
  check_sent (violation sent) requests frames =
      check_violation huffman eproto names authority sent frames

  -- `check`
  unfoldable pub check_case : Case → List Frame → Run (List Problem × Summary)
  unfolding check_sent check_responses answers_of sent_blocks connections
  check_case c frames = do
    let sorted = blocks frames
    of_requests ← check_sent c.expect sorted.requests frames
    of_responses ← check_responses 0 sorted.responses (answers_of (sent_blocks c.expect) authority)
    returns (
      map other_frame sorted.problems ++ (of_requests ++ of_responses),
      record {
        requests = length sorted.requests;
        responses = length sorted.responses;
        conns = length (connections sorted.requests);
      },
    )
