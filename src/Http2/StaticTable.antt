-- ===== src/Http2/StaticTable.antt =====
-- The HPACK static table: `create_header_maps` of beeper/src/http2/hpack.rs, and the entries that
-- `populate_static_table` of beeper/src/http2/parser.rs writes from it. A name or value is its bytes.
use beeper.Prelude.{ℕ, Option, none, some, List, [], ◌∷◌, ◌++◌, String, codes, bytes_eq}
use beeper.Map.{Map, insert}

-- `insert` of each pair in turn
unfoldable pub collect : {V : Type 0} → List (String × V) → Map (List ℕ) V → Map (List ℕ) V
collect [] m = m
collect ((name, v) ∷ rest) m = collect rest (insert (codes name) v m)

unfoldable pub headers_without_values : Map (List ℕ) ℕ
unfolding collect
headers_without_values =
    collect
      ((":authority", 1)
        ∷ ("accept-charset", 15)
        ∷ ("accept-language", 17)
        ∷ ("accept-ranges", 18)
        ∷ ("accept", 19)
        ∷ ("access-control-allow-origin", 20)
        ∷ ("age", 21)
        ∷ ("allow", 22)
        ∷ ("authorization", 23)
        ∷ ("cache-control", 24)
        ∷ ("content-disposition", 25)
        ∷ ("content-encoding", 26)
        ∷ ("content-language", 27)
        ∷ ("content-length", 28)
        ∷ ("content-location", 29)
        ∷ ("content-range", 30)
        ∷ ("content-type", 31)
        ∷ ("cookie", 32)
        ∷ ("date", 33)
        ∷ ("etag", 34)
        ∷ ("expect", 35)
        ∷ ("expires", 36)
        ∷ ("from", 37)
        ∷ ("host", 38)
        ∷ ("if-match", 39)
        ∷ ("if-modified-since", 40)
        ∷ ("if-none-match", 41)
        ∷ ("if-range", 42)
        ∷ ("if-unmodified-since", 43)
        ∷ ("last-modified", 44)
        ∷ ("link", 45)
        ∷ ("location", 46)
        ∷ ("max-forwards", 47)
        ∷ ("proxy-authenticate", 48)
        ∷ ("proxy-authorization", 49)
        ∷ ("range", 50)
        ∷ ("referer", 51)
        ∷ ("refresh", 52)
        ∷ ("retry-after", 53)
        ∷ ("server", 54)
        ∷ ("set-cookie", 55)
        ∷ ("strict-transport-security", 56)
        ∷ ("transfer-encoding", 57)
        ∷ ("user-agent", 58)
        ∷ ("vary", 59)
        ∷ ("via", 60)
        ∷ ("www-authenticate", 61)
        ∷ [])
      []

unfoldable pub headers_with_values : Map (List ℕ) (Map (List ℕ) ℕ)
unfolding collect
headers_with_values =
    collect
      ((":method", collect (("GET", 2) ∷ ("POST", 3) ∷ []) [])
        ∷ (":path", collect (("/", 4) ∷ ("/index.html", 5) ∷ []) [])
        ∷ (":scheme", collect (("http", 6) ∷ ("https", 7) ∷ []) [])
        ∷ (
          ":status",
          collect
              (("200", 8)
                ∷ ("204", 9)
                ∷ ("206", 10)
                ∷ ("304", 11)
                ∷ ("400", 12)
                ∷ ("404", 13)
                ∷ ("500", 14)
                ∷ [])
              [],
        )
        ∷ ("accept-encoding", collect (("gzip, deflate", 16) ∷ []) [])
        ∷ [])
      []

-- The arguments of one call of `insert` in `populate_static_table`.
pub record StaticEntry : Type 0 where
  pub idx : ℕ
  pub key : List ℕ
  pub val : Option (List ℕ)

unfoldable pub value_entries : List ℕ → Map (List ℕ) ℕ → List StaticEntry
value_entries key [] = []
value_entries key ((val, idx) ∷ vals) =
    record { idx = idx; key = key; val = some val } ∷ value_entries key vals

unfoldable pub field_entries : Map (List ℕ) (Map (List ℕ) ℕ) → List StaticEntry
unfolding value_entries
field_entries [] = []
field_entries ((key, vals) ∷ rest) = value_entries key vals ++ field_entries rest

unfoldable pub key_entries : Map (List ℕ) ℕ → List StaticEntry
key_entries [] = []
key_entries ((key, idx) ∷ rest) = record { idx = idx; key = key; val = none } ∷ key_entries rest

-- the calls of `insert`, in the order of the two loops
unfoldable pub static_entries : List StaticEntry
unfolding field_entries key_entries headers_with_values headers_without_values
static_entries = field_entries headers_with_values ++ key_entries headers_without_values
