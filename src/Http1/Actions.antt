-- ===== src/Http1/Actions.antt =====
-- The actions of an HTTP/1.1 edge, and the form the eBPF runtime reads (beeper/src/http1/action.rs).
use beeper.Prelude.{ℕ, ◌≡◌, ◌↔◌, Bool, true, false, arith, Eq, nat_eq, nat_beq}
use beeper.Error.{MatchId}

abbrev pub http1a_none : ℕ
http1a_none = 0

abbrev pub http1a_start_capture : ℕ
http1a_start_capture = 1

abbrev pub http1a_end_capture : ℕ
http1a_end_capture = 2

abbrev pub http1f_done : ℕ
http1f_done = 1

pub data Action : Type 0 where
  start_capture end_capture : MatchId → Action
  done : Action
  end_capture_and_done : MatchId → Action

abbrev action_beq : Action → Action → Bool
action_beq (start_capture m) (start_capture n) = nat_beq m n
action_beq (end_capture m) (end_capture n) = nat_beq m n
action_beq done done = true
action_beq (end_capture_and_done m) (end_capture_and_done n) = nat_beq m n
action_beq _ _ = false

pub action_beq_iff : (a b : Action) → (action_beq a b ≡ true) ↔ (a ≡ b)
action_beq_iff a b = ground arith

instance abbrev pub action_eq : Eq Action
action_eq = record { beq = action_beq; beq_iff = action_beq_iff }

-- `struct http1_action` of http1/parser.bpf.c; the no-op is all zeros.
pub record Http1Action : Type 0 where
  pub kind : ℕ
  pub flags : ℕ
  pub mid : ℕ

abbrev pub noop : Http1Action
noop = record { kind = 0; flags = 0; mid = 0 }

-- `From<Action> for http1_action`
unfoldable pub encode : Action → Http1Action
encode done = record { kind = http1a_none; flags = http1f_done; mid = 0 }
encode (start_capture mid) = record { kind = http1a_start_capture; flags = 0; mid = mid }
encode (end_capture mid) = record { kind = http1a_end_capture; flags = 0; mid = mid }
encode (end_capture_and_done mid) = record {
  kind = http1a_end_capture;
  flags = http1f_done;
  mid = mid;
}

-- Two actions with the same encoding are the same action.
encode-injective : (a b : Action) → encode a ≡ encode b → a ≡ b
unfolding encode
encode-injective a b h = ground arith
