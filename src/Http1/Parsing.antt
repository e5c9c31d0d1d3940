-- ===== src/Http1/Parsing.antt =====
-- The eBPF program of the HTTP/1.1 parser (beeper/src/http1/parser.bpf.c): `_parse_from`, `parse_msg`
-- and the reading of a match. A `u16` or `u32` keeps its wrap-around.
use beeper.Prelude.{
  ℕ, ◌+◌, ◌-◌, ◌%◌, ◌^◌, Bool, false, ◌&&◌, Option, none, some, List, [], ◌∷◌, nat_eq, ◌==◌, leb,
  ltb, length, if◌then◌else◌,
}
use beeper.Utils.{take, drop}
use beeper.Http1.Actions.{Http1Action, http1a_start_capture, http1a_end_capture}
use beeper.Http1.Runtime.{Tables, step, action_of}

-- `MAX_BYTES`
abbrev pub max_bytes : ℕ
max_bytes = 0x7FFF

-- `struct http_match`, less its source
pub record Match : Type 0 where
  pub idx : ℕ
  pub len : ℕ

-- What the walk keeps: the captures so far, the starts of the open ones, the state, and the length of
-- the run of null bytes, if there may be one.
pub record Walk : Type 0 where
  pub ms : ℕ → Match
  pub cidx : ℕ → ℕ
  pub state : ℕ
  pub null_prefix : Option ℕ

-- A write to an array.
abbrev pub put {ℓ} : {A : Type ℓ} → (ℕ → A) → ℕ → A → ℕ → A
put f k a j = if j == k then a else f j

abbrev pub is_null : ℕ → ℕ → Option ℕ → Bool
is_null c i none = false
is_null c i (some len) = c == 0 && i == len

-- the range of the match from where its capture started to here
abbrev pub range : ℕ → ℕ → Match
range start i = record { idx = start % 2 ^ 16; len = (i + 2 ^ 32 - start + 1) % 2 ^ 32 % 2 ^ 16 }

unfoldable pub act_on : Http1Action → ℕ → Walk → Walk
act_on act i w =
    let mid = act.mid % 32 in
    if act.kind == http1a_start_capture
    then record w { cidx = put w.cidx mid (i + 1) }
    else if act.kind == http1a_end_capture
    then record w { ms = put w.ms mid (range (w.cidx mid) i) }
    else w

-- the body of the loop, and whether it returns
unfoldable pub read_byte : Tables → ℕ → ℕ → Walk → Walk × Bool
unfolding act_on
read_byte tables i c w =
    if is_null c i w.null_prefix
    then (record w { null_prefix = some (i + 1) }, false)
    else (let next = step tables w.state c in
        let act = action_of tables next.1 in
        (act_on act i (record w { state = next.0 }), act.flags % 2 == 1))

-- the loop, from index `i`
unfoldable pub read_bytes : Tables → ℕ → List ℕ → Walk → Option ℕ × Walk
unfolding read_byte
read_bytes tables i [] w = (none, w)
read_bytes tables i (c ∷ bytes) w =
    let r = read_byte tables i c w in
    let rest = read_bytes tables (i + 1) bytes r.0 in if r.1 then (some (i + 1), r.0) else rest

pub data Progress : Type 0 where
  at_end : Progress
  finished ran_out : ℕ → Progress

abbrev pub progress_of : ℕ → Option ℕ → Progress
progress_of len (some n) = finished n
progress_of len none = ran_out len

abbrev pub clamp : ℕ → ℕ
clamp len = if leb max_bytes len then max_bytes else len

-- `_parse_from`
unfoldable pub parse_from : Tables → List ℕ → ℕ → Walk → Progress × Walk
unfolding read_bytes take drop
parse_from tables bytes start w =
    let len = clamp (length bytes) in
    if leb len start
    then (at_end, w)
    else (let r = read_bytes tables start (drop start (take (len + 1) bytes)) w in
        (progress_of len r.0, r.1))

pub data Outcome : Type 0 where
  header_len : ℕ → Outcome
  too_big again fault : Outcome

abbrev pub outcome_of : ℕ → Progress → Outcome
outcome_of size (finished n) = header_len n
outcome_of size at_end = if leb max_bytes size then too_big else again
outcome_of size (ran_out len) = if leb max_bytes size then too_big else again

-- `cidx`, `s` and `pres` as the program starts with them
abbrev pub init_walk : (ℕ → Match) → Option ℕ → Walk
init_walk ms null_prefix = record { ms = ms; cidx = λ i. 0; state = 0; null_prefix = null_prefix }

-- the second half of `parse_msg`, which pulls in the whole message
unfoldable pub parse_rest : Tables → Bool → List ℕ → Progress × Walk → Outcome × Walk
unfolding parse_from
parse_rest tables can_pull whole (finished n, w) = (header_len n, w)
parse_rest tables can_pull whole (at_end, w) = (outcome_of (length whole) at_end, w)
parse_rest tables can_pull whole (ran_out len, w) =
    if ltb len (length whole)
    then if can_pull
      then (let r = parse_from tables whole len w in (outcome_of (length whole) r.0, r.1))
      else (fault, w)
    else (outcome_of (length whole) (ran_out len), w)

-- `parse_msg`, on the linear part of a message and the whole of it
unfoldable pub parse_msg : Tables → Bool → List ℕ → List ℕ → (ℕ → Match) → Outcome × Walk
unfolding parse_rest
parse_msg tables can_pull linear whole ms =
    parse_rest tables can_pull whole (parse_from tables linear 0 (init_walk ms none))
