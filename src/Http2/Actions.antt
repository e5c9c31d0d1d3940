-- ===== src/Http2/Actions.antt =====
-- The reserved states, the actions of an HTTP/2 edge, and the form the eBPF runtime reads
-- (beeper/src/http2/action.rs).
use beeper.Prelude.{ℕ, ◌≡◌, ◌↔◌, Bool, true, ◌&&◌, arith, Eq, nat_beq}
use beeper.Error.{MatchId}
use beeper.Dfa.{StateId}

abbrev pub s_dead : StateId
s_dead = 2

abbrev pub s_field : StateId
s_field = 3

abbrev pub s_key_len : StateId
s_key_len = 4

abbrev pub s_val_len : StateId
s_val_len = 5

abbrev pub s_name : StateId
s_name = 6

abbrev pub s_idx7_cont : StateId
s_idx7_cont = 7

abbrev pub s_idx6_cont : StateId
s_idx6_cont = 8

abbrev pub s_idx4_cont : StateId
s_idx4_cont = 9

abbrev pub s_stg_cont : StateId
s_stg_cont = 10

abbrev pub s_key_len_cont : StateId
s_key_len_cont = 11

abbrev pub s_key_len_cont_huff : StateId
s_key_len_cont_huff = 12

abbrev pub s_val_len_cont : StateId
s_val_len_cont = 13

abbrev pub s_val_len_cont_huff : StateId
s_val_len_cont_huff = 14

abbrev pub s_name_plain : StateId
s_name_plain = 15

abbrev pub s_reserved : ℕ
s_reserved = 16

abbrev pub f_huff : ℕ
f_huff = 1

abbrev pub f_add_dt : ℕ
f_add_dt = 2

abbrev pub f_cont : ℕ
f_cont = 4

pub data Kind : Type 0 where
  indexed idx_name lit_name key_len val_len table_size int_start int_cont capture malformed : Kind

-- `kind as u8`, by the discriminants of `repr(u8)`
unfoldable pub kind_code : Kind → ℕ
kind_code indexed = 1
kind_code idx_name = 2
kind_code lit_name = 3
kind_code key_len = 4
kind_code val_len = 5
kind_code table_size = 6
kind_code int_start = 7
kind_code int_cont = 8
kind_code capture = 9
kind_code malformed = 10

pub record Action : Type 0 where
  pub kind : Kind
  pub val : ℕ
  pub flags : ℕ

-- `Action::new`
abbrev pub action : Kind → ℕ → ℕ → Action
action kind val flags = record { kind = kind; val = val; flags = flags }

-- `Action::capture`
abbrev pub capture_action : MatchId → Action
capture_action mid = record { kind = capture; val = mid; flags = 0 }

pub kind_code-injective : (a b : Kind) → kind_code a ≡ kind_code b → a ≡ b
unfolding kind_code
kind_code-injective a b h = ground arith

-- `PartialEq` of a field-less enum compares the discriminants.
abbrev pub kind_beq : Kind → Kind → Bool
kind_beq a b = nat_beq (kind_code a) (kind_code b)

abbrev pub action_beq : Action → Action → Bool
action_beq a b = kind_beq a.kind b.kind && nat_beq a.val b.val && nat_beq a.flags b.flags

pub action_beq_iff : (a b : Action) → (action_beq a b ≡ true) ↔ (a ≡ b)
action_beq_iff a b = ground (arith, kind_code-injective a.kind b.kind)

instance abbrev pub action_eq : Eq Action
action_eq = record { beq = action_beq; beq_iff = action_beq_iff }

-- `struct http2_action` of http2/parser.bpf.c
pub record Http2Action : Type 0 where
  pub val : ℕ
  pub kind : ℕ
  pub flags : ℕ

abbrev pub noop : Http2Action
noop = record { val = 0; kind = 0; flags = 0 }

-- `From<Action> for http2_action`
unfoldable pub encode : Action → Http2Action
unfolding kind_code
encode a = record { val = a.val; kind = kind_code a.kind; flags = a.flags }
