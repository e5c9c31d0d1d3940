-- ===== src/Conformance/Violations.antt =====
-- The check of the frames of a case that violates the rules for header blocks (`check_violation` in
-- utils/src/bin/conformance/main.rs).
use beeper.Prelude.{
  ℕ, ◌+◌, Bool, true, false, not, ◌&&◌, ◌||◌, Option, none, some, List, [], ◌∷◌, ◌++◌, map, nat_eq,
  ◌==◌, ltb, length, if◌then◌else◌,
}
use beeper.Run.{Run, returns, ◌>>=◌}
use beeper.Utils.{ℤ, pos, negsuc, Frame, int_eq}
use beeper.Conformance.{ParsedBlock, headers, continuation}
use beeper.Conformance.Fields.{expected_fields}
use beeper.Conformance.Checking.{check}
use beeper.Conformance.Problems.{
  Block, fields, malformed, rejected, Problem, frame_count, not_rejected, lists_malformed,
  frame_failed, frame_field,
}

abbrev pub is_negative : ℤ → Bool
is_negative (pos n) = false
is_negative (negsuc n) = true

abbrev pub is_seen : Frame → Bool
is_seen f =
    not f.upstream && (is_negative f.ret || f.frame_type == headers || f.frame_type == continuation)

unfoldable pub seen_of : List Frame → List Frame
seen_of [] = []
seen_of (f ∷ frames) = let rest = seen_of frames in if is_seen f then f ∷ rest else rest

-- `position(|b| matches!(b, Block::Rejected))`
unfoldable pub first_rejected : List Block → Option ℕ
first_rejected [] = none
first_rejected (rejected ∷ sent) = some 0
first_rejected (malformed ∷ sent) = elim (first_rejected sent) [
  | none ↦ none
  | some i ↦ some (i + 1)
]
first_rejected (fields block ∷ sent) = elim (first_rejected sent) [
  | none ↦ none
  | some i ↦ some (i + 1)
]

abbrev map_or : Option ℕ → ℕ → ℕ
map_or none len = len
map_or (some i) len = i + 1

unfoldable pub up_to_violation : List Block → ℕ
unfolding first_rejected
up_to_violation sent = map_or (first_rejected sent) (length sent)

-- the block of a frame that the parser read
unfoldable pub read_block : Frame → ParsedBlock
read_block f = record {
  client_port = f.client_port;
  sid = f.sid;
  error = none;
  captures = f.captures;
}

module _ (huffman : List ℕ → Option (List ℕ)) (eproto : ℤ) (names : List (List ℕ))
    (authority : List ℕ) where
  -- the body of the loop of `check_violation`
  unfoldable pub check_frame : ℕ → Frame → Block → Run (List Problem)
  unfolding read_block
  check_frame i f rejected = returns (if f.ret == eproto then [] else not_rejected i f.ret ∷ [])
  check_frame i f malformed = returns (lists_malformed i ∷ [])
  check_frame i f (fields sent) =
      if is_negative f.ret
      then returns (frame_failed i f.ret ∷ [])
      else check huffman (read_block f) (expected_fields sent authority) names
        >>= (λ mismatches. returns (map (frame_field i) mismatches))

  unfoldable pub check_frames : ℕ → List Frame → List Block → Run (List Problem)
  unfolding check_frame
  check_frames i [] sent = returns []
  check_frames i (f ∷ frames) [] = returns []
  check_frames i (f ∷ frames) (b ∷ sent) = do
    here ← check_frame i f b
    rest ← check_frames (i + 1) frames sent
    returns (here ++ rest)

  -- the problems that `check_violation` adds
  unfoldable pub check_violation : List Block → List Frame → Run (List Problem)
  unfolding check_frames seen_of up_to_violation
  check_violation sent frames = do
    let seen = seen_of frames
    pairs ← check_frames 0 seen sent
    returns (
        (if ltb (length seen) (up_to_violation sent) || ltb (length sent) (length seen)
          then frame_count (length seen) (length sent) (up_to_violation sent) ∷ []
          else [])
        ++ pairs)
