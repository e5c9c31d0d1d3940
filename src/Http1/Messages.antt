-- ===== src/Http1/Messages.antt =====
-- A message that is parsed in two parts comes out as if it were parsed in one: `parse_msg` of
-- beeper/src/http1/parser.bpf.c.
use beeper.Prelude.{
  ℕ, ◌+◌, ◌≤◌, ◌<◌, ◌≡◌, refl, true, false, Option, none, some, List, [], ◌∷◌, ◌++◌, ltb, leb,
  length, length-append, if◌then◌else◌, arith, Bool-cases, inl, inr, ltb→lt, ltb-false,
}
use beeper.Utils.{drop}
use beeper.Dfa.{Dfa}
use beeper.Dfa.Extends.{IsValid}
use beeper.Inject.Tables.{Represents}
use beeper.Http1.Actions.{Action, noop, encode}
use beeper.Http1.Runtime.{limits, Tables, NeverResets}
use beeper.Http1.Parsing.{
  Match, Walk, progress_of, clamp, parse_from, Outcome, header_len, too_big, again, outcome_of,
  init_walk, parse_rest, parse_msg, max_bytes,
}
use beeper.Http1.Running.{
  dfa_read, dfa_walk, HasLowIds, dfa_read-state, read_bytes-walk, resume, dfa_walk-append, take-all,
  drop-append, clamp-small,
}

-- What the program returns after a walk over a message of that size.
abbrev pub verdict : ℕ → Option ℕ × Walk → Outcome × Walk
verdict size (some n, w) = (header_len n, w)
verdict size (none, w) = (if leb max_bytes size then too_big else again, w)

outcome-verdict :
    (size : ℕ) (o : Option ℕ) (w : Walk)
    → ◌≡◌ {A = Outcome × Walk} (outcome_of size (progress_of size o), w) (verdict size (o, w))
outcome-verdict size none w = refl
outcome-verdict size (some n) w = refl

module _ (d : Dfa Action) (v : IsValid d) (low : HasLowIds d) (tables : Tables)
    (rep : Represents encode noop limits d tables) (never : NeverResets d)
    (fits : d.num_states ≤ 512) where
  dfa_walk-state :
      (i : ℕ) (bytes : List ℕ) (w : Walk)
      → w.state < d.num_states
      → (dfa_walk d i bytes w).1.state < d.num_states
  unfolding dfa_walk
  dfa_walk-state i [] w h = h
  dfa_walk-state i (c ∷ bytes) w h =
      let here : (dfa_read d i c w).0.state < d.num_states = dfa_read-state d v low i c w h in
      elim (Bool-cases (dfa_read d i c w).1) [
        | inl stop ↦ rw stop here
        | inr on ↦ rw on (dfa_walk-state (i + 1) bytes (dfa_read d i c w).0 here)
      ]

  -- A parse of the bytes from `start` on, which are `rest`.
  parse_from-walk :
      (bytes rest : List ℕ) (start : ℕ) (w : Walk)
      → w.state < d.num_states
      → length bytes ≤ max_bytes
      → start < length bytes
      → drop start bytes ≡ rest
      → parse_from tables bytes start w
        ≡ (progress_of (length bytes) (dfa_walk d start rest w).0, (dfa_walk d start rest w).1)
  unfolding parse_from
  parse_from-walk bytes rest start w h small inside left =
      let same : clamp (length bytes) ≡ length bytes = clamp-small (length bytes) small in
      let on : leb (length bytes) start ≡ false = ground arith in
      rw (same, on, take-all (length bytes + 1) bytes (omega arith), left)
        (rw (read_bytes-walk d v low tables rep never fits start rest w h) refl)

  empty-rest : (xs ys : List ℕ) → length (xs ++ ys) ≤ length xs → ys ≡ []
  empty-rest xs [] h = refl
  empty-rest xs (y ∷ ys) h = absurd (omega (arith, length-append xs (y ∷ ys)))

  walk-empty :
      (i : ℕ) (rest : List ℕ) (w : Walk)
      → rest ≡ []
      → ◌≡◌ {A = Option ℕ × Walk} (dfa_walk d i rest w) (none, w)
  unfolding dfa_walk
  walk-empty i [] w e = refl
  walk-empty i (c ∷ rest) w e = absurd (cc e)

  parse_rest-join :
      (linear rest : List ℕ) (o : Option ℕ) (w : Walk)
      → w.state < d.num_states
      → length (linear ++ rest) ≤ max_bytes
      → parse_rest tables true (linear ++ rest) (progress_of (length linear) o, w)
        ≡ verdict (length (linear ++ rest)) (resume d (length linear) rest (o, w))
  unfolding parse_rest
  parse_rest-join linear rest (some n) w h small = refl
  parse_rest-join linear rest none w h small =
      elim (Bool-cases (ltb (length linear) (length (linear ++ rest)))) [
        | inl more ↦
            let q : Option ℕ × Walk = dfa_walk d (length linear) rest w in
            rw
              (
                more,
                parse_from-walk (linear ++ rest) rest (length linear) w h small (ltb→lt _ _ more)
                    (drop-append linear rest),
              )
              (outcome-verdict (length (linear ++ rest)) q.0 q.1)
        | inr no_more ↦
            let e : rest ≡ [] = empty-rest linear rest (ltb-false _ _ no_more) in
            rw (no_more, walk-empty (length linear) rest w e) refl
      ]

  -- The tables represent a valid DFA of at most 512 states and match ids below 32, no edge of which
  -- leads back to the start without an action, and a message of at most 32767 bytes is linear in its
  -- first part, which is not empty, and can be pulled in. Then the program returns what a walk through
  -- the DFA comes to over the whole message, byte by byte from the start, and captures the same ranges:
  -- the length of the header up to the byte whose action is to stop, or that the message is too
  -- big or incomplete.
  pub parse_msg-Walks :
      (linear rest : List ℕ) (ms : ℕ → Match)
      → 0 < length linear
      → length (linear ++ rest) ≤ max_bytes
      → parse_msg tables true linear (linear ++ rest) ms
        ≡ verdict (length (linear ++ rest)) (dfa_walk d 0 (linear ++ rest) (init_walk ms none))
  unfolding parse_msg
  parse_msg-Walks linear rest ms some_byte small =
      let w : Walk = init_walk ms none in
      let first : 0 < d.num_states = omega (arith, v.reserved) in
      let r : Option ℕ × Walk = dfa_walk d 0 linear w in
      let z : 0 + length linear ≡ length linear = omega arith in
      let there : drop 0 linear ≡ linear = unfold drop in refl in
      let fits_in : length linear ≤ max_bytes = omega (arith, length-append linear rest) in
      rw
        (
          parse_from-walk linear linear 0 w first fits_in some_byte there,
          dfa_walk-append d 0 linear rest w,
          z,
        )
        (parse_rest-join linear rest r.0 r.1 (dfa_walk-state 0 linear w first) small)
