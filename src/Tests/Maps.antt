-- ===== src/Tests/Maps.antt =====
-- The theorems on the kernel maps of the HTTP/2 parser (beeper/src/http2/parser.rs), at maps that are
-- functions.
use mathlib.Core.Path.{subst}
use mathlib.Core.List.{Memᴰ}
use beeper.Prelude.{
  ℕ, Bool, true, false, ◌&&◌, ◌≢◌, ◌≡◌, ◌↔◌, refl, arith, Option, none, some, List, codes, length,
  nat_eq, ◌==◌, ==_refl, if◌then◌else◌, bytes_eq, Bool-cases, inl, inr,
}
use beeper.Map.{insert}
use beeper.Error.{Result, ok, err}
use beeper.Http2.Addresses.{Octets, ip4_addr_of-injective}
use beeper.Http2.Connections.{
  Ip4Conn, DynamicTableInfo, gone, Maps, AreMaps, forget_conn, forget_found, forget_table,
  forget_entries, delete_if_present, and_then, forget_conn-Forgets,
}
use beeper.Http2.Forgetting.{conn_beq, conn_beq_iff}
use beeper.Http2.StaticTable.{
  StaticEntry, static_entries, collect, headers_without_values, headers_with_values, value_entries,
  field_entries, key_entries,
}
use beeper.Http2.AppendixA.{appendix_a, numbered, static_entries-AppendixA}
use beeper.Http2.Populate.{
  HdrField, resize, encoded, encoded_val, static_field, insert_entries, populate_static_table,
  IsTable, Holds, populate_static_table-Holds,
}

abbrev authority_row : StaticEntry
authority_row = record { idx = 1; key = codes ":authority"; val = none }

static_entries-AppendixA_example :
    (Memᴰ authority_row static_entries ↔ Memᴰ authority_row (numbered 1 appendix_a))
    × (length static_entries ≡ 61)
static_entries-AppendixA_example = static_entries-AppendixA authority_row

abbrev pub Table : Type 0
Table = ℕ → Option HdrField

abbrev pub plain : List ℕ → Option (List ℕ)
plain n = some n

abbrev pub update : ℕ → HdrField → Table → Result Table
update i f s = ok (λ j. if i == j then some f else s j)

abbrev pub freeze : Table → Result Table
freeze s = ok s

abbrev pub read : Table → ℕ → Option HdrField
read s j = s j

abbrev pub nothing : Table
nothing j = none

abbrev after : Result Table → Table
after (ok s) = s
after (err e) = nothing

abbrev pub filled : Table
filled = after (populate_static_table plain update freeze nothing)

ok-table : {s s' : Table} → ok s ≡ ok s' → s ≡ s'
ok-table h = cc

pub read-IsTable : IsTable plain update freeze read
read-IsTable = record {
  written = λ i f s s' h. subst (λ (t : Table). t i ≡ some f) (ok-table h) (rw ==_refl refl);
  kept = λ i j f s s' d h. subst (λ (t : Table). t j ≡ s j) (ok-table h) (rw d refl);
  frozen = λ s s' j h. subst (λ (t : Table). t j ≡ s j) (ok-table h) refl;
}

pub filled_run : populate_static_table plain update freeze nothing ≡ ok filled
unfolding populate_static_table insert_entries static_field encoded encoded_val resize and_then
    static_entries field_entries key_entries value_entries headers_with_values
    headers_without_values collect insert
filled_run = refl

authority_there : Memᴰ authority_row (numbered 1 appendix_a)
unfolding numbered
authority_there = Memᴰ.head refl

populate_static_table-Holds_example : Holds plain read filled authority_row
populate_static_table-Holds_example =
    populate_static_table-Holds plain update freeze read read-IsTable nothing filled authority_row
      filled_run authority_there

-- The tables of connections, and their entries.
abbrev pub State : Type 0
State = (Ip4Conn → Option DynamicTableInfo) × (Ip4Conn → ℕ → Option DynamicTableInfo)

abbrev is_entry : Ip4Conn → ℕ → Ip4Conn → ℕ → Bool
is_entry c i d j = conn_beq c d && i == j

abbrev pub maps : Maps State DynamicTableInfo
maps = record {
  lookup_info = λ c s. ok (s.0 c);
  from_bytes = λ v. ok v;
  delete_info = λ c s. gone (λ d. if conn_beq c d then none else s.0 d, s.1);
  delete_entry = λ c i s. gone (s.0, λ d j. if is_entry c i d j then none else s.1 d j);
}

abbrev pub entry : Ip4Conn → ℕ → State → Option DynamicTableInfo
entry c i s = s.1 c i

abbrev pub info : Ip4Conn → State → Option DynamicTableInfo
info c s = s.0 c

gone-state : {s s' : State} → gone s ≡ gone s' → s ≡ s'
gone-state h = cc

conn_beq_refl : (c : Ip4Conn) → conn_beq c c ≡ true
conn_beq_refl c = (conn_beq_iff c c).1 refl

entry-erased : (c : Ip4Conn) (i : ℕ) → is_entry c i c i ≡ true
entry-erased c i = rw (conn_beq_refl c, ==_refl i) refl

if-none : (b : Bool) (o : Option DynamicTableInfo) → o ≡ none → (if b then none else o) ≡ none
if-none true o h = refl
if-none false o h = h

conn_beq-other : (c d : Ip4Conn) → c ≢ d → conn_beq c d ≡ false
conn_beq-other c d n = elim (Bool-cases (conn_beq c d)) [
  | inl same ↦ absurd (n ((conn_beq_iff c d).0 same))
  | inr other ↦ other
]

ok-if-other :
    (b : Bool) (o : Option DynamicTableInfo) → b ≡ false → ok (if b then none else o) ≡ ok o
ok-if-other true o h = absurd (cc h)
ok-if-other false o h = refl

pub maps-AreMaps : AreMaps maps entry info
maps-AreMaps = record {
  entry_gone = λ c i s s' h.
      subst (λ (t : State). t.1 c i ≡ none) (gone-state h) (rw (entry-erased c i) refl);
  entry_not_found = λ c i s h. absurd (cc h);
  entry_kept = λ c d i j s s' h k.
      subst (λ (t : State). t.1 d j ≡ none) (gone-state h) (if-none (is_entry c i d j) (s.1 d j) k);
  info_gone =
      λ c s s' h. subst (λ (t : State). t.0 c ≡ none) (gone-state h) (rw (conn_beq_refl c) refl);
  info_not_found = λ c s h. absurd (cc h);
  info_kept = λ c d j s s' h k. subst (λ (t : State). t.1 d j ≡ none) (gone-state h) k;
  entry_other = λ c d i s s' h. (
    subst (λ (t : State). maps.lookup_info d t ≡ maps.lookup_info d s) (gone-state h) refl,
    λ k. subst (λ (t : State). t.0 d ≡ none) (gone-state h) k,
  );
  info_other = λ c d s s' h. (
    λ n.
        subst (λ (t : State). maps.lookup_info d t ≡ maps.lookup_info d s) (gone-state h)
          (ok-if-other (conn_beq c d) (s.0 d) (conn_beq-other c d n)),
    λ k. subst (λ (t : State). t.0 d ≡ none) (gone-state h) (if-none (conn_beq c d) (s.0 d) k),
  );
  read = λ c s o h. cc;
}

abbrev pub conn : Ip4Conn
conn = record {
  local = record { ip4 = 16777343; port = 8080 };
  remote = record { ip4 = 16777343; port = 54321 };
}

abbrev pub two_entries : DynamicTableInfo
two_entries = record { count = 2; size = 80; max_size = 4096; deleted = 1; dirty = 0 }

abbrev pub mirrored : State
mirrored = (λ c. some two_entries, λ c j. some two_entries)

abbrev forgotten : State
forgotten = elim (forget_conn maps conn mirrored) [ ok s ↦ s | err e ↦ mirrored ]

forgotten_run : forget_conn maps conn mirrored ≡ ok forgotten
unfolding forget_conn forget_found forget_table forget_entries delete_if_present and_then
forgotten_run = refl

forget_conn-Forgets_example : (info conn forgotten ≡ none) × (entry conn 64 forgotten ≡ none)
forget_conn-Forgets_example =
    forget_conn-Forgets maps entry info maps-AreMaps conn mirrored forgotten two_entries two_entries
      64 refl refl (omega arith) forgotten_run (omega arith) (omega arith)

abbrev port : ℕ
port = 8080

abbrev pub loopback : Octets
loopback = record { a = 127; b = 0; c = 0; d = 1 }

ip4_addr_of-injective_example : (loopback ≡ loopback) × (port ≡ port)
ip4_addr_of-injective_example =
    ip4_addr_of-injective loopback loopback port port
      (omega arith, omega arith, omega arith, omega arith)
      (omega arith, omega arith, omega arith, omega arith) refl
