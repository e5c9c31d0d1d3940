-- ===== src/Utils.antt =====
-- How the test utilities read what the eBPF test program reports (utils/src/test.rs). Numbers are
-- little-endian, as on the machines that the programs run on.
pub mod Reading
use beeper.Prelude.{
  ℕ, zero, suc, ◌+◌, ◌-◌, ◌*◌, ◌/◌, ◌%◌, ◌^◌, Bool, true, false, not, Option, none, some, List, [],
  ◌∷◌, nat_eq, ◌==◌, ltb, length, unwrap_or, if◌then◌else◌, ◌≡◌, ◌↔◌, Eq, arith,
}

abbrev pub result_val_len : ℕ
result_val_len = 128

abbrev pub result_matches : ℕ
result_matches = 32

-- `size_of::<RawParseResult>()`: eight words, a length and a value for each match
abbrev pub raw_size : ℕ
raw_size = 32 + 4 * 32 + 128 * 32

unfoldable pub drop : ℕ → List ℕ → List ℕ
drop zero xs = xs
drop (suc n) [] = []
drop (suc n) (x ∷ xs) = drop n xs

unfoldable pub take : ℕ → List ℕ → List ℕ
take zero xs = []
take (suc n) [] = []
take (suc n) (x ∷ xs) = x ∷ take n xs

unfoldable pub little_endian : List ℕ → ℕ
little_endian [] = 0
little_endian (x ∷ xs) = x + 256 * little_endian xs

-- a field of `RawParseResult` of four bytes
unfoldable pub u32_at : List ℕ → ℕ → ℕ
unfolding little_endian take drop
u32_at bytes offset = little_endian (take 4 (drop offset bytes))

-- an `i32` of two's complement, by its sign and distance
pub data ℤ : Type 0 where
  pos negsuc : ℕ → ℤ

abbrev pub int_beq : ℤ → ℤ → Bool
int_beq (pos m) (pos n) = m == n
int_beq (negsuc m) (negsuc n) = m == n
int_beq _ _ = false

pub int_beq_iff : (a b : ℤ) → (int_beq a b ≡ true) ↔ (a ≡ b)
int_beq_iff a b = ground arith

instance abbrev pub int_eq : Eq ℤ
int_eq = record { beq = int_beq; beq_iff = int_beq_iff }

unfoldable pub to_i32 : ℕ → ℤ
to_i32 n = if ltb n (2 ^ 31) then pos n else negsuc (2 ^ 32 - 1 - n)

pub record Capture : Type 0 where
  pub len : ℕ
  pub head : List ℕ

pub record Frame : Type 0 where
  pub client_port : ℕ
  pub upstream : Bool
  pub ret : ℤ
  pub sid : ℕ
  pub frame_type : ℕ
  pub flags : ℕ
  pub captures : List (Option Capture)

pub data ParseResult : Type 0 where
  open_end close_end : ℕ → Bool → ParseResult
  frame : Frame → ParseResult
  mark : ParseResult

-- the value of match `i`, of which `captured` tells whether it was written
unfoldable pub capture_at : List ℕ → ℕ → Option Capture
unfolding u32_at take drop
capture_at bytes i =
    if (u32_at bytes 28 / 2 ^ i) % 2 == 1
    then (let len = u32_at bytes (32 + 4 * i) in
        some (record {
          len = len;
          head =
              take (if ltb len result_val_len then len else result_val_len)
                (take result_val_len (drop (160 + 128 * i) bytes));
        }))
    else none

-- `(0..MAX_MATCHES).map(…).collect()`, from match `i`
unfoldable pub captures_from : List ℕ → ℕ → ℕ → List (Option Capture)
unfolding capture_at
captures_from bytes i zero = []
captures_from bytes i (suc n) = capture_at bytes i ∷ captures_from bytes (i + 1) n

unfoldable pub read_frame : List ℕ → Frame
unfolding captures_from to_i32
read_frame bytes = record {
  client_port = u32_at bytes 4 % 2 ^ 16;
  upstream = not (u32_at bytes 8 == 0);
  ret = to_i32 (u32_at bytes 12);
  sid = u32_at bytes 16;
  frame_type = u32_at bytes 20 % 256;
  flags = u32_at bytes 24 % 256;
  captures = captures_from bytes 0 result_matches;
}

unfoldable pub read_kind : List ℕ → ℕ → Option ParseResult
unfolding read_frame
read_kind bytes kind =
    let client_port = u32_at bytes 4 % 2 ^ 16 in
    let server = not (u32_at bytes 8 == 0) in
    if kind == 0
    then some (open_end client_port server)
    else if kind == 1
    then some (close_end client_port server)
    else if kind == 3
    then some mark
    else if kind == 2
    then some (frame (read_frame bytes))
    else none

-- `ParseResult::read`
unfoldable pub read : List ℕ → Option ParseResult
unfolding read_kind u32_at
read bytes = if ltb (length bytes) raw_size then none else read_kind bytes (u32_at bytes 0)
