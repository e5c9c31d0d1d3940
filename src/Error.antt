-- ===== src/Error.antt =====
-- The types that the parsers share (beeper/src/lib.rs). The payloads that come from other crates are
-- left out of `Error`, and so are its texts.
use beeper.Prelude.{ℕ, ◌≡◌, ◌↔◌, Bool, true, false, List, arith, Eq, codes}

pub data MessageBuffer : Type 0 where
  skb msg : MessageBuffer

abbrev buffer_beq : MessageBuffer → MessageBuffer → Bool
buffer_beq skb skb = true
buffer_beq msg msg = true
buffer_beq _ _ = false

pub buffer_beq_iff : (a b : MessageBuffer) → (buffer_beq a b ≡ true) ↔ (a ≡ b)
buffer_beq_iff a b = ground arith

instance abbrev pub buffer_eq : Eq MessageBuffer
buffer_eq = record { beq = buffer_beq; beq_iff = buffer_beq_iff }

pub data Error : Type 0 where
  match_limit_exceeded : ℕ → Error
  invalid_encoding parser_exceeds_state_limit bpf malformed_table_entry : Error

-- `Result<A, Error>`
pub data Result {ℓ} (A : Type ℓ) : Type ℓ where
  ok : A → Result A
  err : Error → Result A

-- Identifies a captured range.
abbrev pub MatchId : Type 0
MatchId = ℕ

-- `MAX_MATCHES` of the three parsers
abbrev pub max_matches : ℕ
max_matches = 32

-- The constants of `pub mod pseudo_header`.
abbrev pub method : List ℕ
method = codes ":method"

abbrev pub path : List ℕ
path = codes ":path"

abbrev pub status : List ℕ
status = codes ":status"

abbrev pub authority : List ℕ
authority = codes ":authority"

abbrev pub scheme : List ℕ
scheme = codes ":scheme"
