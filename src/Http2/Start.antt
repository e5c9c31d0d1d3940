-- ===== src/Http2/Start.antt =====
-- The parser that `Parser::new` returns is one to configure (beeper/src/http2/parser.rs).
use beeper.Prelude.{
  ℕ, ◌≤◌, ◌<◌, ◌≡◌, refl, Bool, true, not, ◌&&◌, Option, none, some, List, [], ◌∷◌, arith, nat_eq,
  ltb, leb, All, Option-cases, inl, inr, nat_beq,
}
use beeper.Run.{returns}
use beeper.Map.{Map, lookup, insert, IsUnique}
use beeper.Dfa.{Dfa, Row, Edge, StateId, Input, edge_at, any_input, u16_mod}
use beeper.Dfa as Dfa
use beeper.Dfa.Extends.{IsValid}
use beeper.Http2.{Parser, new}
use beeper.Http2.Actions.{action_eq, kind_code, s_reserved}
use beeper.Http2.Hpack.{
  hpack_dfa, for_range, for_each, field_edge, insert_field_row, insert_lengths, insert_length_rows,
  insert_continuation_rows,
}
use beeper.Http2.Representations.{rows, rows_run}
use beeper.Http2.Captures.{IsConfigured}

module _ {V : Type 0} where
  abbrev is_absent : ℕ → Map ℕ V → Bool
  is_absent k [] = true
  is_absent k ((j, v) ∷ m) = not (nat_beq j k) && is_absent k m

  abbrev is_unique : Map ℕ V → Bool
  is_unique [] = true
  is_unique ((k, v) ∷ m) = is_absent k m && is_unique m

  is_absent-none : (k : ℕ) (m : Map ℕ V) → is_absent k m ≡ true → lookup k m ≡ none
  unfolding lookup
  is_absent-none k [] h = refl
  is_absent-none k ((j, v) ∷ m) h = ground (arith, is_absent-none k m)

  is_unique-IsUnique : (m : Map ℕ V) → is_unique m ≡ true → IsUnique m
  is_unique-IsUnique [] h = tt
  is_unique-IsUnique ((k, v) ∷ m) h =
      (is_absent-none k m (ground arith), is_unique-IsUnique m (ground arith))

module _ {A : Type 0} where
  abbrev are_bounded : ℕ → Row A → Bool
  are_bounded states [] = true
  are_bounded states ((i, e) ∷ row) = ltb e.to states && leb i any_input && are_bounded states row

  abbrev rows_valid : ℕ → Map StateId (Row A) → Bool
  rows_valid states [] = true
  rows_valid states ((f, row) ∷ rows) =
      ltb f states && are_bounded states row && is_unique row && rows_valid states rows

  are_bounded-at :
      (states : ℕ) (row : Row A) (i : Input) (e : Edge A)
      → are_bounded states row ≡ true
      → lookup i row ≡ some e
      → (e.to < states) × (i ≤ any_input)
  unfolding lookup
  are_bounded-at states [] i e h at = absurd (cc at)
  are_bounded-at states ((j, x) ∷ row) i e h at = ground (arith, are_bounded-at states row i e)

  rows_valid-IsUnique :
      (states : ℕ) (rows : Map StateId (Row A))
      → rows_valid states rows ≡ true
      → All (λ (x : StateId × Row A). IsUnique x.1) rows
  rows_valid-IsUnique states [] h = tt
  rows_valid-IsUnique states ((f, row) ∷ rows) h =
      (is_unique-IsUnique row (ground arith), rows_valid-IsUnique states rows (ground arith))

  rows_valid-at :
      (states : ℕ) (rows : Map StateId (Row A)) (f : StateId) (row : Row A)
      → rows_valid states rows ≡ true
      → lookup f rows ≡ some row
      → (f < states) × (are_bounded states row ≡ true)
  unfolding lookup
  rows_valid-at states [] f row h at = absurd (cc at)
  rows_valid-at states ((g, x) ∷ rows) f row h at = ground (arith, rows_valid-at states rows f row)

  rows_valid-IsValid :
      (d : Dfa A)
      → 2 ≤ d.num_states
      → d.num_states < u16_mod
      → rows_valid d.num_states d.edges ≡ true
      → is_unique d.edges ≡ true
      → IsValid d
  unfolding edge_at Dfa.row_at lookup
  rows_valid-IsValid d reserved fits valid unique = record {
    reserved = reserved;
    fits = fits;
    bounded = λ f i e at. elim (Option-cases (lookup f d.edges)) [
      | inl absent ↦ let none_at : none ≡ some e = rw absent at at in absurd (cc none_at)
      | inr (row, there) ↦
          let (low, bounded) = rows_valid-at d.num_states d.edges f row valid there in
          let (to, input) = are_bounded-at d.num_states row i e bounded (rw there at at) in
          (low, to, input)
    ];
    unique = (is_unique-IsUnique d.edges unique, rows_valid-IsUnique d.num_states d.edges valid);
  }

rows_states_test : rows.num_states ≡ s_reserved
unfolding hpack_dfa Dfa.put_edge Dfa.insert_edge for_range for_each field_edge insert_field_row
    insert_lengths insert_length_rows insert_continuation_rows Dfa.with_reserved_states Dfa.new
    Dfa.merge_action kind_code Dfa.row_at edge_at lookup insert
rows_states_test = refl

rows_valid_test : rows_valid s_reserved rows.edges ≡ true
unfolding hpack_dfa Dfa.put_edge Dfa.insert_edge for_range for_each field_edge insert_field_row
    insert_lengths insert_length_rows insert_continuation_rows Dfa.with_reserved_states Dfa.new
    Dfa.merge_action kind_code Dfa.row_at edge_at lookup insert
rows_valid_test = refl

rows_unique_test : is_unique rows.edges ≡ true
unfolding hpack_dfa Dfa.put_edge Dfa.insert_edge for_range for_each field_edge insert_field_row
    insert_lengths insert_length_rows insert_continuation_rows Dfa.with_reserved_states Dfa.new
    Dfa.merge_action kind_code Dfa.row_at edge_at lookup insert
rows_unique_test = refl

-- The parser that `new` returns.
abbrev pub start : Parser
start = record {
  dfa = rows;
  num_matches = 0;
  parse_fns = [];
  matched_fn = none;
  get_fns = [];
  get_dynamic_table_entry_fn = none;
  captures = [];
}

pub new-start : new ≡ returns start
unfolding new
new-start = rw rows_run refl

rows-IsValid : IsValid rows
rows-IsValid =
    rows_valid-IsValid rows (rw rows_states_test (omega arith)) (rw rows_states_test (omega arith))
      (rw rows_states_test rows_valid_test) rows_unique_test

pub start-IsConfigured : (huffman : List ℕ → Option (List ℕ)) → IsConfigured huffman start
unfolding lookup
start-IsConfigured huffman = record {
  dfa = rows-IsValid;
  reserved = rw rows_states_test (omega arith);
  limit = omega arith;
  captured = record { ids = λ n mid h. absurd (cc h); distinct = λ m n mid h k. absurd (cc h) };
  matched = λ n mid h. absurd (cc h);
}
