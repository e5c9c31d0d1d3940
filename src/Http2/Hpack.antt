-- ===== src/Http2/Hpack.antt =====
-- The rows of the field representations of RFC 7541 (beeper/src/http2/hpack.rs). A byte is built with
-- `|` from a pattern and a number below it.
use Prim.Native.Nat.{bit_or}
use beeper.Prelude.{ℕ, zero, suc, ◌+◌, some, List, [], ◌∷◌}
use beeper.Run.{Run, returns, ◌>>=◌}
use beeper.Dfa.{StateId, Dfa, with_reserved_states, insert_edge}
use beeper.Http2.Actions.{
  Kind, indexed, idx_name, lit_name, key_len, val_len, table_size, int_start, int_cont, malformed,
  Action, action, action_eq, s_dead, s_field, s_key_len, s_val_len, s_name, s_idx7_cont,
  s_idx6_cont, s_idx4_cont, s_stg_cont, s_key_len_cont, s_key_len_cont_huff, s_val_len_cont,
  s_val_len_cont_huff, s_name_plain, s_reserved, f_huff, f_add_dt, f_cont,
}

abbrev pub HpackDfa : Type 0
HpackDfa = Dfa Action

-- `for i in first..first + count { body }`
unfoldable pub for_range : ℕ → ℕ → (ℕ → HpackDfa → Run HpackDfa) → HpackDfa → Run HpackDfa
for_range first zero body d = returns d
for_range first (suc count) body d = do d' ← body first d; for_range (first + 1) count body d'

unfoldable pub for_each {ℓ} :
    {B : Type ℓ} → List B → (B → HpackDfa → Run HpackDfa) → HpackDfa → Run HpackDfa
for_each [] body d = returns d
for_each (x ∷ xs) body d = do d' ← body x d; for_each xs body d'

-- the closure of `insert_field_row`
unfoldable pub field_edge : ℕ → StateId → Action → HpackDfa → Run HpackDfa
field_edge input to act d = insert_edge d s_field input to (some act)

unfoldable pub insert_field_row : HpackDfa → Run HpackDfa
unfolding for_range for_each field_edge
insert_field_row d = do
  d₁ ← field_edge 0x80 s_dead (action malformed 0 0) d
  d₂ ← for_range 1 0x7E (λ idx. field_edge (bit_or 0x80 idx) s_field (action indexed idx 0)) d₁
  d₃ ← field_edge 0xFF s_idx7_cont (action int_start 0x7F 0) d₂
  d₄ ← field_edge 0x40 s_key_len (action lit_name 0 f_add_dt) d₃
  d₅ ←
      for_range 1 0x3E
        (λ idx. field_edge (bit_or 0x40 idx) s_val_len (action idx_name idx f_add_dt)) d₄
  d₆ ← field_edge 0x7F s_idx6_cont (action int_start 0x3F 0) d₅
  d₇ ←
      for_range 0 0x1F (λ size. field_edge (bit_or 0x20 size) s_field (action table_size size 0)) d₆
  d₈ ← field_edge 0x3F s_stg_cont (action int_start 0x1F 0) d₇
  for_each (0x00 ∷ 0x10 ∷ [])
      (λ base d₉. do
        e₁ ← field_edge base s_key_len (action lit_name 0 0) d₉
        e₂ ←
            for_range 1 0x0E (λ idx. field_edge (bit_or base idx) s_val_len (action idx_name idx 0))
              e₁
        field_edge (bit_or base 0x0F) s_idx4_cont (action int_start 0x0F 0) e₂)
      d₈

-- a row of `insert_length_rows`
pub record LengthRow : Type 0 where
  pub from : StateId
  pub kind : Kind
  pub to_plain : StateId
  pub to_huff : StateId
  pub cont : StateId
  pub cont_huff : StateId

abbrev pub length_rows : List LengthRow
length_rows =
    record {
      from = s_key_len;
      kind = key_len;
      to_plain = s_name_plain;
      to_huff = s_name;
      cont = s_key_len_cont;
      cont_huff = s_key_len_cont_huff;
    }
    ∷ record {
      from = s_val_len;
      kind = val_len;
      to_plain = s_field;
      to_huff = s_field;
      cont = s_val_len_cont;
      cont_huff = s_val_len_cont_huff;
    }
    ∷ []

-- the inner loop, for one of the two forms of a string
unfoldable pub insert_lengths : LengthRow → ℕ → ℕ → StateId → StateId → HpackDfa → Run HpackDfa
unfolding for_range
insert_lengths row base flags to cont d = do
  d' ←
      for_range 0 0x7F
        (λ len d'. insert_edge d' row.from (bit_or base len) to (some (action row.kind len flags)))
        d
  insert_edge d' row.from (bit_or base 0x7F) cont (some (action int_start 0x7F 0))

unfoldable pub insert_length_rows : HpackDfa → Run HpackDfa
unfolding insert_lengths for_each
insert_length_rows = for_each length_rows (λ row d. do
  d' ← insert_lengths row 0x00 0 row.to_plain row.cont d
  insert_lengths row 0x80 f_huff row.to_huff row.cont_huff d')

-- a row of `insert_continuation_rows`
pub record ContinuationRow : Type 0 where
  pub from : StateId
  pub kind : Kind
  pub to : StateId
  pub flags : ℕ

abbrev continuation_row : StateId → Kind → StateId → ℕ → ContinuationRow
continuation_row from kind to flags = record { from = from; kind = kind; to = to; flags = flags }

abbrev pub continuation_rows : List ContinuationRow
continuation_rows =
    continuation_row s_idx7_cont indexed s_field 0
    ∷ continuation_row s_idx6_cont idx_name s_val_len f_add_dt
    ∷ continuation_row s_idx4_cont idx_name s_val_len 0
    ∷ continuation_row s_stg_cont table_size s_field 0
    ∷ continuation_row s_key_len_cont key_len s_name_plain 0
    ∷ continuation_row s_key_len_cont_huff key_len s_name f_huff
    ∷ continuation_row s_val_len_cont val_len s_field 0
    ∷ continuation_row s_val_len_cont_huff val_len s_field f_huff
    ∷ []

unfoldable pub insert_continuation_rows : HpackDfa → Run HpackDfa
unfolding for_each for_range
insert_continuation_rows = for_each continuation_rows (λ row. for_range 0 0x80 (λ input d. do
  d' ← insert_edge d row.from input row.to (some (action row.kind 0 (bit_or row.flags f_cont)))
  insert_edge d' row.from (bit_or 0x80 input) row.from (some (action int_cont 0 0))))

-- `dfa`
unfoldable pub hpack_dfa : Run HpackDfa
unfolding insert_field_row insert_length_rows insert_continuation_rows
hpack_dfa = do
  d₁ ← insert_field_row (with_reserved_states s_reserved)
  d₂ ← insert_length_rows d₁
  insert_continuation_rows d₂
