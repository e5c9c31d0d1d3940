-- ===== src/Http2/Representations.antt =====
-- What the rows of beeper/src/http2/hpack.rs have to say, by sections 5 and 6 of RFC 7541: the first
-- bits of a byte tell the representation, the rest is a prefix of its integer.
use beeper.Prelude.{
  ℕ, zero, suc, ◌+◌, ◌-◌, ◌%◌, ◌<◌, ◌≡◌, ◌↔◌, refl, Bool, true, ◌&&◌, Option, none, some, arith, Eq,
  ◌==◌, ==_iff, nat_eq, leb, if◌then◌else◌,
}
use beeper.Run.{Returns, returns, panics}
use beeper.Dfa.{StateId, Edge, Dfa, edge_at}
use beeper.Dfa as Dfa
use beeper.Map.{lookup, insert}
use beeper.Inject.{option_eq}
use beeper.Http2.Actions.{
  Kind, indexed, idx_name, lit_name, key_len, val_len, table_size, int_start, int_cont, malformed,
  Action, action, action_eq, s_dead, s_field, s_key_len, s_val_len, s_name, s_idx7_cont,
  s_idx6_cont, s_idx4_cont, s_stg_cont, s_key_len_cont, s_key_len_cont_huff, s_val_len_cont,
  s_val_len_cont_huff, s_name_plain, f_huff, f_add_dt, f_cont, kind_code,
}
use beeper.Http2.Hpack.{
  HpackDfa, hpack_dfa, for_range, for_each, field_edge, insert_field_row, insert_lengths,
  insert_length_rows, insert_continuation_rows,
}

abbrev pub to : StateId → Kind → ℕ → ℕ → Edge Action
to state kind val flags = record { to = state; action = some (action kind val flags) }

-- A prefix of all ones goes on in the next bytes.
abbrev pub prefixed : ℕ → ℕ → StateId → Edge Action → Edge Action → Edge Action
prefixed n max cont first rest =
    if n == 0 then first else if n == max then to cont int_start max 0 else rest

-- the first byte of a field
abbrev pub field_edge_of : ℕ → Edge Action
field_edge_of c =
    if leb 128 c
    then prefixed (c - 128) 127 s_idx7_cont (to s_dead malformed 0 0)
        (to s_field indexed (c - 128) 0)
    else if leb 64 c
    then prefixed (c - 64) 63 s_idx6_cont (to s_key_len lit_name 0 f_add_dt)
        (to s_val_len idx_name (c - 64) f_add_dt)
    else if leb 32 c
    then prefixed (c - 32) 31 s_stg_cont (to s_field table_size 0 0)
        (to s_field table_size (c - 32) 0)
    else prefixed (c % 16) 15 s_idx4_cont (to s_key_len lit_name 0 0)
        (to s_val_len idx_name (c % 16) 0)

-- the byte with the length of a string, and the flag that tells whether it is Huffman coded
abbrev string_edge_of : Kind → StateId → StateId → StateId → StateId → ℕ → Edge Action
string_edge_of kind plain huff cont cont_huff c =
    if leb 128 c
    then if c == 255 then to cont_huff int_start 127 0 else to huff kind (c - 128) f_huff
    else if c == 127
    then to cont int_start 127 0
    else to plain kind c 0

-- a byte that continues an integer; its highest bit tells whether another one follows
abbrev continuation_of : StateId → Kind → StateId → ℕ → ℕ → Edge Action
continuation_of from kind end flags c =
    if leb 128 c then to from int_cont 0 0 else to end kind 0 (flags + f_cont)

abbrev field_state : StateId → ℕ → Option (Edge Action)
field_state s c =
    if s == s_field
    then some (field_edge_of c)
    else if s == s_key_len
    then some (string_edge_of key_len s_name_plain s_name s_key_len_cont s_key_len_cont_huff c)
    else if s == s_val_len
    then some (string_edge_of val_len s_field s_field s_val_len_cont s_val_len_cont_huff c)
    else none

abbrev index_state : StateId → ℕ → Option (Edge Action)
index_state s c =
    if s == s_idx7_cont
    then some (continuation_of s indexed s_field 0 c)
    else if s == s_idx6_cont
    then some (continuation_of s idx_name s_val_len f_add_dt c)
    else if s == s_idx4_cont
    then some (continuation_of s idx_name s_val_len 0 c)
    else if s == s_stg_cont
    then some (continuation_of s table_size s_field 0 c)
    else none

abbrev length_state : StateId → ℕ → Option (Edge Action)
length_state s c =
    if s == s_key_len_cont
    then some (continuation_of s key_len s_name_plain 0 c)
    else if s == s_key_len_cont_huff
    then some (continuation_of s key_len s_name f_huff c)
    else if s == s_val_len_cont
    then some (continuation_of s val_len s_field 0 c)
    else if s == s_val_len_cont_huff
    then some (continuation_of s val_len s_field f_huff c)
    else none

abbrev or_else : Option (Edge Action) → Option (Edge Action) → Option (Edge Action)
or_else (some e) o = some e
or_else none o = o

-- The edge for a byte in a reserved state, if the state reads bytes at all.
abbrev pub representation : StateId → ℕ → Option (Edge Action)
representation s c =
    if leb 256 c
    then none
    else or_else (field_state s c) (or_else (index_state s c) (length_state s c))

abbrev pub edge_beq : Edge Action → Edge Action → Bool
edge_beq e e' = e.to == e'.to && e.action == e'.action

pub edge_beq_iff : (e e' : Edge Action) → (edge_beq e e' ≡ true) ↔ (e ≡ e')
edge_beq_iff e e' = ground (arith, ==_iff e.action e'.action)

instance abbrev edge_eq : Eq (Edge Action)
edge_eq = record { beq = edge_beq; beq_iff = edge_beq_iff }

-- A test of all the numbers below a bound.
unfoldable pub all_below : ℕ → (ℕ → Bool) → Bool
all_below zero p = true
all_below (suc n) p = p n && all_below n p

pub all_below-true : (n : ℕ) (p : ℕ → Bool) (x : ℕ) → all_below n p ≡ true → x < n → p x ≡ true
unfolding all_below
all_below-true zero p x h lt = absurd (omega arith)
all_below-true (suc n) p x h lt = ground (arith, all_below-true n p x)

abbrev pub rows : HpackDfa
rows = elim hpack_dfa [ returns d ↦ d | panics e ↦ Dfa.new ]

rows_table : all_below 16 (λ s. all_below 257 (λ c. edge_at rows s c == representation s c)) ≡ true
unfolding hpack_dfa all_below edge_at Dfa.row_at lookup insert Dfa.put_edge Dfa.insert_edge
    for_range for_each field_edge insert_field_row insert_lengths insert_length_rows
    insert_continuation_rows Dfa.with_reserved_states Dfa.new Dfa.merge_action kind_code
rows_table = refl

pub rows_run : hpack_dfa ≡ returns rows
unfolding hpack_dfa Dfa.put_edge Dfa.insert_edge for_range for_each field_edge insert_field_row
    insert_lengths insert_length_rows insert_continuation_rows Dfa.with_reserved_states Dfa.new
    Dfa.merge_action kind_code Dfa.row_at edge_at lookup insert
rows_run = refl

-- Building the DFA of the field representations returns; and in each of its reserved states, for
-- each byte and for the wildcard, it then has the edge that RFC 7541 asks for, or no edge where
-- the state reads no representation.
pub hpack_dfa-Representation :
    (s c : ℕ)
    → s < 16
    → c < 257
    → Returns (λ (d : HpackDfa). edge_at d s c ≡ representation s c) hpack_dfa
hpack_dfa-Representation s c hs hc = record {
  value = rows;
  run = rows_run;
  post =
      (==_iff (edge_at rows s c) (representation s c)).0
        (all_below-true 257 _ c (all_below-true 16 _ s rows_table hs) hc);
}
