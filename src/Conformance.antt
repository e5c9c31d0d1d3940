-- ===== src/Conformance.antt =====
-- How the conformance harness judges what the parser captured
-- (utils/src/bin/conformance/main.rs). `huffman` stands for `huffman::encode` of the crate
-- httlib_huffman. Texts of problems are left out: a problem is what it is about.
pub mod Checking
pub mod Judging
pub mod Problems
pub mod Violations
pub mod Verdict
pub mod Session
pub mod Commands
pub mod Closing
pub mod Attaching
pub mod Storing
pub mod Indexing
pub mod Following
pub mod Handling
pub mod Waiting
pub mod Cases
pub mod Counting
pub mod Fitting
pub mod Passing
pub mod Fields
use beeper.Prelude.{
  ℕ, zero, suc, ◌&&◌, ◌||◌, Bool, true, false, not, Option, none, some, List, [], ◌∷◌, ◌++◌, nat_eq,
  bytes_eq, ◌==◌, ltb, length, if◌then◌else◌,
}
use beeper.Run.{Run, returns, panics, ◌>>=◌, unencodable}
use beeper.Utils.{ℤ, pos, negsuc, Capture, Frame, result_val_len}

abbrev pub headers : ℕ
headers = 1

abbrev pub continuation : ℕ
continuation = 9

pub record ParsedBlock : Type 0 where
  pub client_port : ℕ
  pub sid : ℕ
  pub error : Option ℤ
  pub captures : List (Option Capture)

unfoldable pub error_of : ℤ → Option ℤ
error_of (pos n) = none
error_of (negsuc n) = some (negsuc n)

-- `ParsedBlock::new`
unfoldable pub parsed_block : Frame → ParsedBlock
unfolding error_of
parsed_block f = record {
  client_port = f.client_port;
  sid = f.sid;
  error = error_of f.ret;
  captures = f.captures;
}

-- The requests, the responses and the frames that are a problem.
pub record Blocks : Type 0 where
  pub requests : List ParsedBlock
  pub responses : List ParsedBlock
  pub problems : List Frame

-- the body of the loop of `blocks`
unfoldable pub sort_frame : Frame → Blocks → Blocks
unfolding parsed_block
sort_frame f b =
    if not (f.frame_type == headers) && not (f.frame_type == continuation)
    then record b { problems = b.problems ++ f ∷ [] }
    else if f.upstream
    then record b { responses = b.responses ++ parsed_block f ∷ [] }
    else record b { requests = b.requests ++ parsed_block f ∷ [] }

unfoldable pub blocks_from : Blocks → List Frame → Blocks
unfolding sort_frame
blocks_from b [] = b
blocks_from b (f ∷ fs) = blocks_from (sort_frame f b) fs

unfoldable pub blocks : List Frame → Blocks
unfolding blocks_from
blocks = blocks_from (record { requests = []; responses = []; problems = [] })

pub data Value : Type 0 where
  str raw_bytes : List ℕ → Value
  authority dummy : Value

pub data Expected : Type 0 where
  absent : Expected
  value raw : List ℕ → Expected

-- `DUMMY_LEN` times `x`
unfoldable pub dummy_bytes : ℕ → List ℕ
dummy_bytes zero = []
dummy_bytes (suc n) = b'x' ∷ dummy_bytes n

abbrev pub dummy_len : ℕ
dummy_len = 4000

-- `Expected::new`
unfoldable pub expected : Value → List ℕ → Expected
unfolding dummy_bytes
expected (str s) addr = value s
expected authority addr = value addr
expected dummy addr = value (dummy_bytes dummy_len)
expected (raw_bytes bytes) addr = raw bytes

unfoldable pub starts_with : List ℕ → List ℕ → Bool
starts_with xs [] = true
starts_with [] (y ∷ ys) = false
starts_with (x ∷ xs) (y ∷ ys) = x == y && starts_with xs ys

-- the test of `matches` on one form of the value
unfoldable pub matches_sent : Capture → List ℕ → Bool
unfolding starts_with
matches_sent c sent =
    let cut = c.len == result_val_len && ltb c.len (length sent) in
    (c.len == length sent || cut) && starts_with sent c.head

-- the two forms of a value, of which the second `expect`s to be there
unfoldable pub matches_value : List ℕ → Option (List ℕ) → Capture → Run Bool
unfolding matches_sent
matches_value v none c = panics unencodable
matches_value v (some coded) c = returns (matches_sent c v || matches_sent c coded)

module _ (huffman : List ℕ → Option (List ℕ)) where
  -- `Expected::matches`
  unfoldable pub matches : Expected → Option Capture → Run Bool
  unfolding matches_value
  matches absent none = returns true
  matches absent (some c) = returns false
  matches (value v) none = returns false
  matches (raw r) none = returns false
  matches (raw r) (some c) = returns (c.len == length r && c.head == r)
  matches (value v) (some c) = matches_value v (huffman v) c
