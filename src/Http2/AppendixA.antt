-- ===== src/Http2/AppendixA.antt =====
-- The static table of appendix A of RFC 7541, and that the entries of beeper/src/http2/parser.rs are
-- that table.
use mathlib.Core.List.{Memᴰ}
use mathlib.Core.List.Memᴰ
use beeper.Prelude.{
  ℕ, ◌+◌, ◌≡◌, ◌↔◌, refl, Bool, true, false, ◌&&◌, Option, none, some, List, [], ◌∷◌, String, codes,
  bytes_eq, nat_eq, ◌==◌, ==_iff, arith, length, if◌then◌else◌, Bool-cases, inl, inr,
}
use beeper.Map.{insert}
use beeper.Inject.{option_eq}
use beeper.Http2.StaticTable.{
  StaticEntry, collect, headers_without_values, headers_with_values, value_entries, field_entries,
  key_entries, static_entries,
}

-- The names in the order of the table, with their values.
abbrev pub appendix_a : List (String × Option String)
appendix_a =
    (":authority", none)
    ∷ (":method", some "GET")
    ∷ (":method", some "POST")
    ∷ (":path", some "/")
    ∷ (":path", some "/index.html")
    ∷ (":scheme", some "http")
    ∷ (":scheme", some "https")
    ∷ (":status", some "200")
    ∷ (":status", some "204")
    ∷ (":status", some "206")
    ∷ (":status", some "304")
    ∷ (":status", some "400")
    ∷ (":status", some "404")
    ∷ (":status", some "500")
    ∷ ("accept-charset", none)
    ∷ ("accept-encoding", some "gzip, deflate")
    ∷ ("accept-language", none)
    ∷ ("accept-ranges", none)
    ∷ ("accept", none)
    ∷ ("access-control-allow-origin", none)
    ∷ ("age", none)
    ∷ ("allow", none)
    ∷ ("authorization", none)
    ∷ ("cache-control", none)
    ∷ ("content-disposition", none)
    ∷ ("content-encoding", none)
    ∷ ("content-language", none)
    ∷ ("content-length", none)
    ∷ ("content-location", none)
    ∷ ("content-range", none)
    ∷ ("content-type", none)
    ∷ ("cookie", none)
    ∷ ("date", none)
    ∷ ("etag", none)
    ∷ ("expect", none)
    ∷ ("expires", none)
    ∷ ("from", none)
    ∷ ("host", none)
    ∷ ("if-match", none)
    ∷ ("if-modified-since", none)
    ∷ ("if-none-match", none)
    ∷ ("if-range", none)
    ∷ ("if-unmodified-since", none)
    ∷ ("last-modified", none)
    ∷ ("link", none)
    ∷ ("location", none)
    ∷ ("max-forwards", none)
    ∷ ("proxy-authenticate", none)
    ∷ ("proxy-authorization", none)
    ∷ ("range", none)
    ∷ ("referer", none)
    ∷ ("refresh", none)
    ∷ ("retry-after", none)
    ∷ ("server", none)
    ∷ ("set-cookie", none)
    ∷ ("strict-transport-security", none)
    ∷ ("transfer-encoding", none)
    ∷ ("user-agent", none)
    ∷ ("vary", none)
    ∷ ("via", none)
    ∷ ("www-authenticate", none)
    ∷ []

abbrev optional_codes : Option String → Option (List ℕ)
optional_codes none = none
optional_codes (some s) = some (codes s)

-- The rows as entries, counted from `idx`.
unfoldable pub numbered : ℕ → List (String × Option String) → List StaticEntry
numbered idx [] = []
numbered idx ((key, val) ∷ rest) =
    record { idx = idx; key = codes key; val = optional_codes val } ∷ numbered (idx + 1) rest

abbrev entry_beq : StaticEntry → StaticEntry → Bool
entry_beq a b = a.idx == b.idx && a.key == b.key && a.val == b.val

entry_beq_iff : (a b : StaticEntry) → (entry_beq a b ≡ true) ↔ (a ≡ b)
entry_beq_iff a b = ground (arith, ==_iff a.key b.key, ==_iff a.val b.val)

-- Whether an entry is among the others.
unfoldable is_among : List StaticEntry → StaticEntry → Bool
is_among [] a = false
is_among (b ∷ rest) a = if entry_beq a b then true else is_among rest a

unfoldable all_among : List StaticEntry → List StaticEntry → Bool
unfolding is_among
all_among xs [] = true
all_among xs (a ∷ rest) = is_among xs a && all_among xs rest

is_among-Memᴰ : (xs : List StaticEntry) (a : StaticEntry) → is_among xs a ≡ true → Memᴰ a xs
unfolding is_among
is_among-Memᴰ [] a h = absurd (cc h)
is_among-Memᴰ (b ∷ rest) a h = elim (Bool-cases (entry_beq a b)) [
  | inl same ↦ Memᴰ.head ((entry_beq_iff a b).0 same)
  | inr other ↦ Memᴰ.tail (is_among-Memᴰ rest a (rw other at h))
]

all_among-Memᴰ :
    (xs ys : List StaticEntry) (a : StaticEntry) → all_among xs ys ≡ true → Memᴰ a ys → Memᴰ a xs
unfolding all_among
all_among-Memᴰ xs [] a h m = absurd (Memᴰ.not-nil m)
all_among-Memᴰ xs (b ∷ rest) a h m = elim (Memᴰ.cases_cons m) [
  | inl first ↦ rw first (is_among-Memᴰ xs b (ground arith))
  | inr later ↦ all_among-Memᴰ xs rest a (ground arith) later
]

table_there : all_among static_entries (numbered 1 appendix_a) ≡ true
unfolding all_among static_entries numbered is_among field_entries key_entries value_entries
    headers_with_values headers_without_values collect insert
table_there = refl

no_other : all_among (numbered 1 appendix_a) static_entries ≡ true
unfolding all_among static_entries numbered is_among field_entries key_entries value_entries
    headers_with_values headers_without_values collect insert
no_other = refl

-- The entries that are written into the static table are the rows of appendix A of RFC 7541 under
-- their numbers, all of them and no others, and there is one call for each of the 61 rows.
pub static_entries-AppendixA :
    (a : StaticEntry)
    → (Memᴰ a static_entries ↔ Memᴰ a (numbered 1 appendix_a)) × (length static_entries ≡ 61)
unfolding static_entries field_entries key_entries value_entries headers_with_values
    headers_without_values collect insert
static_entries-AppendixA a = (
  (
    all_among-Memᴰ (numbered 1 appendix_a) static_entries a no_other,
    all_among-Memᴰ static_entries (numbered 1 appendix_a) a table_there,
  ),
  refl,
)
