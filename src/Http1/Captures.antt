-- ===== src/Http1/Captures.antt =====
-- Match ids and captured headers of the HTTP/1.1 parser (beeper/src/http1/parser.rs).
use beeper.Prelude.{
  ℕ, ◌+◌, ◌≤◌, ◌<◌, ◌≡◌, ◌≢◌, refl, ◌⊎◌, inl, inr, true, ◌||◌, none, some, List, [], ◌∷◌,
  Bool-cases, Option-cases, ◌==◌, nat_eq, bytes_eq, bytes_beq_iff, arith, leb,
}
use beeper.Run.{Run, returns, Ensures, Ensures-returns, Ensures-bind, Ensures-mono}
use beeper.Map.{lookup}
use beeper.Matches.{AreDistinct, lookup-insert_self, lookup-insert_kept, insert-AreDistinct}
use beeper.Error.{match_limit_exceeded, Result, ok, err, MatchId, max_matches, method, path, status}
use beeper.Dfa.{Dfa}
use beeper.Dfa.Extends.{IsValid, new-IsValid, Extends, Extends-refl}
use beeper.Builder.{to_ascii_lowercase}
use beeper.Builder.Chains.{AreBytes, Grown}
use beeper.Http1.{
  Parser, new, new_match, build_with, build_header, build_status_line, build_status_code,
  capture_status_line, capture_status_code, capture_new_hdr, remember, to_lowercase,
  capture_lowercased, capture_hdr, build_preface, match_http2_preface,
}
use beeper.Http1.Actions.{Action}
use beeper.Http1.Growth.{
  Builds, build_header-Builds, build_status_line-Builds, build_status_code-Builds,
  build_preface-Builds,
}

-- What holds of a parser between two calls: ids are handed out in order, one to a header.
pub record IsConfigured (p : Parser) : Type 0 where
  pub dfa : IsValid p.dfa
  pub limit : p.num_matches ≤ max_matches
  pub captured : AreDistinct p.captures p.num_matches

-- A new id that was built into the DFA, or the limit that leaves the parser as it was.
abbrev pub Matched : Parser → Result MatchId × Parser → Type 0
Matched p (ok mid, q) =
    (mid ≡ p.num_matches)
    × (p.num_matches < max_matches)
    × (q.num_matches ≡ p.num_matches + 1)
    × (q.captures ≡ p.captures)
    × Grown p.dfa q.dfa
Matched p (err e, q) =
    (e ≡ match_limit_exceeded max_matches) × (q ≡ p) × (max_matches ≤ p.num_matches)

build_with-Matched :
    (build : Dfa Action → MatchId → Run (Dfa Action)) (p : Parser)
    → Builds build
    → IsValid p.dfa
    → Ensures (Matched p) (build_with build (new_match p))
unfolding build_with new_match
build_with-Matched build p h v = elim (Bool-cases (leb max_matches p.num_matches)) [
  | inl full ↦
      rw (full, build_with)
        (Ensures-returns (Matched p) (err (match_limit_exceeded max_matches), p)
          (refl, refl, ground arith))
  | inr room ↦
      rw (room, build_with)
        (Ensures-bind (Grown p.dfa) (Matched p) _ _ (h p.dfa p.num_matches v)
          λ d g. Ensures-returns (Matched p) _ (refl, ground arith, refl, refl, g))
]

either : (name : List ℕ) → (name == method || name == path) ≡ true → (name ≡ method) ⊎ (name ≡ path)
either name h = elim (Bool-cases (name == method)) [
  | inl e ↦ inl ((bytes_beq_iff name method).0 e)
  | inr e ↦ inr ((bytes_beq_iff name path).0 (rw e at h))
]

capture_new_hdr-Matched :
    (p : Parser) (name : List ℕ)
    → IsValid p.dfa
    → AreBytes name
    → Ensures (Matched p) (capture_new_hdr p name)
unfolding capture_new_hdr capture_status_line capture_status_code
capture_new_hdr-Matched p name v hn = elim (Bool-cases (name == method || name == path)) [
  | inl line ↦
      rw (line, capture_new_hdr)
        (build_with-Matched (build_status_line name) p
          (build_status_line-Builds name (either name line)) v)
  | inr field ↦ elim (Bool-cases (name == status)) [
    | inl code ↦
        rw (field, capture_new_hdr)
          (rw code (build_with-Matched build_status_code p build_status_code-Builds v))
    | inr header ↦
        rw (field, capture_new_hdr)
          (rw header (build_with-Matched (build_header name) p (build_header-Builds name hn) v))
  ]
]

-- What `capture_hdr` answers for the lowercase name `n`.
abbrev pub Captured : Parser → List ℕ → Result MatchId × Parser → Type 0
Captured p n (ok mid, q) =
    (lookup n q.captures ≡ some mid)
    × (mid < max_matches)
    × ((m : List ℕ) (i : MatchId) → lookup m p.captures ≡ some i → lookup m q.captures ≡ some i)
    × IsConfigured q
    × Extends p.dfa q.dfa
Captured p n (err e, q) =
    (e ≡ match_limit_exceeded max_matches)
    × (q ≡ p)
    × (p.num_matches ≡ max_matches)
    × (lookup n p.captures ≡ none)

pub new-IsConfigured : IsConfigured new
unfolding new lookup
new-IsConfigured = record {
  dfa = new-IsValid;
  limit = omega arith;
  captured = record { ids = λ n mid h. absurd (cc h); distinct = λ m n mid h k. absurd (cc h) };
}

module _ (p : Parser) (c : IsConfigured p) (n : List ℕ) where
  remember-Captured :
      lookup n p.captures ≡ none
      → (r : Result MatchId × Parser) → Matched p r
      → Captured p n (remember n r)
  unfolding remember
  remember-Captured absent (err e, q) (limit, same, full) =
      (limit, same, omega (arith, c.limit, full), absent)
  remember-Captured absent (ok mid, q) (id, room, next, same, grown) = (
    lookup-insert_self n mid q.captures,
    omega arith,
    rw same (lookup-insert_kept n mid p.captures absent),
    record {
      dfa = grown.valid;
      limit = omega arith;
      captured = rw (same, next, id) (insert-AreDistinct n p.num_matches p.captures c.captured);
    },
    grown.extends,
  )

  found-Captured : (mid : MatchId) → lookup n p.captures ≡ some mid → Captured p n (ok mid, p)
  found-Captured mid found =
      (found, omega (arith, c.limit, c.captured.ids n mid found), λ m i h. h, c, Extends-refl p.dfa)

  capture_lowercased-Captured :
      AreBytes n → Ensures (Captured p n) (capture_lowercased p n (lookup n p.captures))
  unfolding capture_lowercased
  capture_lowercased-Captured hn = elim (Option-cases (lookup n p.captures)) [
    | inr (mid, found) ↦
        rw (found, capture_lowercased)
          (Ensures-returns (Captured p n) (ok mid, p) (found-Captured mid found))
    | inl absent ↦
        rw (absent, capture_lowercased)
          (Ensures-bind (Matched p) (Captured p n) _ _ (capture_new_hdr-Matched p n c.dfa hn)
            (λ r m. Ensures-returns (Captured p n) (remember n r) (remember-Captured absent r m)))
  ]

to_ascii_lowercase-lt : (c : ℕ) → c < 256 → to_ascii_lowercase c < 256
unfolding to_ascii_lowercase
to_ascii_lowercase-lt c h = ground arith

to_lowercase-AreBytes : (name : List ℕ) → AreBytes name → AreBytes (to_lowercase name)
unfolding to_lowercase
to_lowercase-AreBytes [] h = tt
to_lowercase-AreBytes (c ∷ cs) h = (to_ascii_lowercase-lt c h.0, to_lowercase-AreBytes cs h.1)

-- For a configured parser and a name of bytes: if capturing a header returns, then either it
-- returns the id that its lowercase name then has, below the limit, in a configured parser that
-- kept every other captured header and only extended the DFA; or it fails with the limit, only when
-- all ids are handed out and the name has none, and leaves the parser as it was. If it panics, it
-- is not for a missing state or edge, an unsupported name or an index out of bounds.
pub capture_hdr-Captured :
    (p : Parser) (name : List ℕ)
    → IsConfigured p
    → AreBytes name
    → Ensures (Captured p (to_lowercase name)) (capture_hdr p name)
unfolding capture_hdr
capture_hdr-Captured p name c hn =
    capture_lowercased-Captured p c (to_lowercase name) (to_lowercase-AreBytes name hn)

-- In a configured parser and for a name of bytes: once capturing it has returned an id, capturing
-- any name with the same lowercase returns the same id and changes nothing.
pub capture_hdr-again :
    (p q : Parser) (name other : List ℕ) (mid : MatchId)
    → IsConfigured p
    → AreBytes name
    → capture_hdr p name ≡ returns (ok mid, q)
    → to_lowercase other ≡ to_lowercase name
    → capture_hdr q other ≡ returns (ok mid, q)
capture_hdr-again p q name other mid c hn run same =
    let done = (capture_hdr-Captured p name c hn).post (ok mid, q) run in
    unfold capture_hdr capture_lowercased in rw (same, done.0, capture_lowercased)

-- What `match_http2_preface` answers: an id that no header has, or the limit.
abbrev pub Opened : Parser → Result MatchId × Parser → Type 0
Opened p (ok mid, q) =
    ((n : List ℕ) → lookup n q.captures ≢ some mid)
    × (q.captures ≡ p.captures)
    × (mid < max_matches)
    × IsConfigured q
    × Extends p.dfa q.dfa
Opened p (err e, q) =
    (e ≡ match_limit_exceeded max_matches) × (q ≡ p) × (p.num_matches ≡ max_matches)

Matched-Opened :
    (p : Parser) → IsConfigured p → (r : Result MatchId × Parser) → Matched p r → Opened p r
Matched-Opened p c (err e, q) (limit, same, full) = (limit, same, omega (arith, c.limit))
Matched-Opened p c (ok mid, q) (id, room, next, same, grown) = (
  λ n found.
      let there : lookup n p.captures ≡ some p.num_matches = rw (← same, ← id) found in
      absurd (omega (arith, c.captured.ids n p.num_matches there)),
  same,
  omega arith,
  record {
    dfa = grown.valid;
    limit = omega arith;
    captured = record {
      ids = λ n i h. omega (arith, c.captured.ids n i (rw same at h));
      distinct = λ m n i h k. c.captured.distinct m n i (rw same at h) (rw same at k);
    };
  },
  grown.extends,
)

-- For a configured parser: if matching the HTTP/2 preface returns, then either it returns an id
-- below the limit that no captured header has, in a configured parser with the same captured
-- headers and an extended DFA; or it fails with the limit, only when all ids are handed out, and
-- leaves the parser as it was. If it panics, it is not for a missing state or edge, an unsupported
-- name or an index out of bounds.
pub match_http2_preface-Opened :
    (p : Parser) → IsConfigured p → Ensures (Opened p) (match_http2_preface p)
unfolding match_http2_preface
match_http2_preface-Opened p c =
    Ensures-mono (Matched p) (Opened p) _
      (build_with-Matched build_preface p build_preface-Builds c.dfa) (Matched-Opened p c)
