-- ===== src/Http2/Captures.antt =====
-- Match ids, captured headers and their names in the trie of the HTTP/2 parser
-- (beeper/src/http2/parser.rs).
use beeper.Prelude.{
  ℕ, ◌+◌, ◌≤◌, ◌<◌, ◌≡◌, ◌≢◌, refl, ◌⊎◌, inl, inr, Option, none, some, List, [], Bool-cases,
  Option-cases, leb, arith, bytes_eq,
}
use beeper.Run.{returns, >>=-assoc, Ensures, Ensures-returns, Ensures-bind}
use beeper.Map.{lookup, insert}
use beeper.Matches.{
  AreDistinct, lookup-insert_self, lookup-insert_kept, lookup-insert_cases, insert-AreDistinct,
}
use beeper.Error.{match_limit_exceeded, invalid_encoding, Result, ok, err, MatchId, max_matches}
use beeper.Dfa.{Dfa, StateId}
use beeper.Dfa.Extends.{IsValid, Extends, Extends-refl}
use beeper.Builder.{start_pattern, push, with_action}
use beeper.Builder.Sound.{Builds}
use beeper.Builder.Chains.{AreBytes, AreBytes-AreInputs, Grown, Grown-trans, Pattern, Pattern-start}
use beeper.Builder.Traces.{Ends, Ends-Extends, with_action-push}
use beeper.Http2.{
  Parser, new_match, build_name, capture_as, capture_encoded, capture_found, capture_hdr,
}
use beeper.Http2.Actions.{Action, action_eq, capture_action, s_name, s_name_plain, s_reserved}

-- The Huffman code of bytes is bytes, and that of a name that is not empty is not empty.
pub record EncodesBytes (huffman : List ℕ → Option (List ℕ)) : Type 0 where
  pub bytes : (n coded : List ℕ) → AreBytes n → huffman n ≡ some coded → AreBytes coded
  pub some_byte : (n coded : List ℕ) → n ≢ [] → huffman n ≡ some coded → coded ≢ []

-- A name leads to its capture from both roots of the trie, as it is and Huffman coded.
pub record IsMatched (huffman : List ℕ → Option (List ℕ)) (d : Dfa Action) (n : List ℕ)
    (mid : MatchId) : Type 0 where
  pub plain : Ends d s_name_plain n (capture_action mid)
  pub coded : (coded : List ℕ) × (huffman n ≡ some coded) × Ends d s_name coded (capture_action mid)

-- What holds of a parser between two calls.
pub record IsConfigured (huffman : List ℕ → Option (List ℕ)) (p : Parser) : Type 0 where
  pub dfa : IsValid p.dfa
  pub reserved : s_reserved ≤ p.dfa.num_states
  pub limit : p.num_matches ≤ max_matches
  pub captured : AreDistinct p.captures p.num_matches
  pub matched :
      (n : List ℕ) (mid : MatchId) → lookup n p.captures ≡ some mid → IsMatched huffman p.dfa n mid

module _ (huffman : List ℕ → Option (List ℕ)) where
  -- What `capture_hdr` answers for the name `n`.
  abbrev pub Captured : Parser → List ℕ → Result MatchId × Parser → Type 0
  Captured p n (ok mid, q) =
      (lookup n q.captures ≡ some mid)
      × (mid < max_matches)
      × ((m : List ℕ) (i : MatchId) → lookup m p.captures ≡ some i → lookup m q.captures ≡ some i)
      × IsConfigured huffman q
      × Extends p.dfa q.dfa
  Captured p n (err e, q) =
      (q ≡ p)
      × (lookup n p.captures ≡ none)
      × (((e ≡ invalid_encoding) × (huffman n ≡ none))
          ⊎ ((e ≡ match_limit_exceeded max_matches) × (p.num_matches ≡ max_matches)))

  IsMatched-Extends :
      {d d' : Dfa Action} (n : List ℕ) (mid : MatchId)
      → Extends d d'
      → IsMatched huffman d n mid
      → IsMatched huffman d' n mid
  IsMatched-Extends n mid x h = record {
    plain = Ends-Extends s_name_plain n (capture_action mid) x h.plain;
    coded = (h.coded.0, h.coded.1, Ends-Extends s_name h.coded.0 (capture_action mid) x h.coded.2);
  }

  build_name-Ends :
      (d : Dfa Action) (root : StateId) (name : List ℕ) (mid : MatchId)
      → IsValid d
      → root < d.num_states
      → AreBytes name
      → name ≢ []
      → Ensures
          (λ d'. Grown d d' × Ends d' root name (capture_action mid))
          (build_name d root name mid)
  unfolding build_name start_pattern
  build_name-Ends d root name mid v hr hn ne =
      let a : Action = capture_action mid in
      let start : Pattern d (start_pattern d root) = Pattern-start d root v hr in
      rw
        (>>=-assoc (push (start_pattern d root) name) (λ b₁. with_action b₁ a)
          (λ b₂. returns b₂.dfa))
        (Ensures-bind (λ b'. Builds (start_pattern d root) b' × Ends b'.dfa root name a)
          (λ d'. Grown d d' × Ends d' root name a) _ _
          (with_action-push (start_pattern d root) name a start.sound (AreBytes-AreInputs name hn)
            ne)
          (λ b' h.
            Ensures-returns (λ d'. Grown d d' × Ends d' root name a) b'.dfa
              (record { extends = h.0.extends; valid = h.0.sound.valid }, h.1)))

  module _ (h : EncodesBytes huffman) (p : Parser) (c : IsConfigured huffman p) (n : List ℕ)
      (hn : AreBytes n) (ne : n ≢ []) (absent : lookup n p.captures ≡ none) where
    -- the parser after a header has been captured as the next id
    next_parser : Dfa Action → Parser
    next_parser d = record p {
      dfa = d;
      num_matches = p.num_matches + 1;
      captures = insert n p.num_matches p.captures;
    }

    next_parser-Captured :
        (d : Dfa Action)
        → p.num_matches < max_matches
        → Grown p.dfa d
        → IsMatched huffman d n p.num_matches
        → Captured p n (ok p.num_matches, next_parser d)
    unfolding next_parser
    next_parser-Captured d room grown new = (
      lookup-insert_self n p.num_matches p.captures,
      room,
      lookup-insert_kept n p.num_matches p.captures absent,
      record {
        dfa = grown.valid;
        reserved = omega (arith, c.reserved, grown.extends.states);
        limit = omega arith;
        captured = insert-AreDistinct n p.num_matches p.captures c.captured;
        matched = λ m i found. elim (lookup-insert_cases n p.num_matches p.captures m i found) [
          | inl (same, id) ↦ rw (← same, ← id) new
          | inr old ↦ IsMatched-Extends m i grown.extends (c.matched m i old)
        ];
      },
      grown.extends,
    )

    capture_as-Captured :
        (coded : List ℕ)
        → huffman n ≡ some coded
        → Ensures (Captured p n) (capture_as n coded (new_match p))
    unfolding capture_as new_match next_parser
    capture_as-Captured coded code = elim (Bool-cases (leb max_matches p.num_matches)) [
      | inl full ↦ rw full (
          Ensures-returns (Captured p n) (err (match_limit_exceeded max_matches), p)
            (refl, absent, inr (refl, ground (arith, c.limit))))
      | inr room ↦ rw room (
          Ensures-bind (λ d₁. Grown p.dfa d₁ × Ends d₁ s_name coded (capture_action p.num_matches))
            (Captured p n) _ _
            (build_name-Ends p.dfa s_name coded p.num_matches c.dfa (omega (arith, c.reserved))
              (h.bytes n coded hn code) (h.some_byte n coded ne code))
            λ d₁ g₁.
              Ensures-bind
                (λ d₂. Grown d₁ d₂ × Ends d₂ s_name_plain n (capture_action p.num_matches))
                (Captured p n) _ _
                (build_name-Ends d₁ s_name_plain n p.num_matches g₁.0.valid
                  (omega (arith, c.reserved, g₁.0.extends.states)) hn ne)
                λ d₂ g₂.
                  Ensures-returns (Captured p n) (ok p.num_matches, next_parser d₂)
                    (next_parser-Captured d₂ (ground arith) (Grown-trans g₁.0 g₂.0) (record {
                      plain = g₂.1;
                      coded = (
                        coded,
                        code,
                        Ends-Extends s_name coded (capture_action p.num_matches) g₂.0.extends g₁.1,
                      );
                    })))
    ]

    capture_encoded-Captured :
        (o : Option (List ℕ)) → huffman n ≡ o → Ensures (Captured p n) (capture_encoded p n o)
    unfolding capture_encoded
    capture_encoded-Captured none code =
        Ensures-returns (Captured p n) (err invalid_encoding, p) (refl, absent, inl (refl, code))
    capture_encoded-Captured (some coded) code = capture_as-Captured coded code

-- For a Huffman coder of bytes, a configured parser and a name of bytes that is not empty: if capturing
-- a header returns, then either it returns the id that the name then has, below the limit, in a
-- configured parser that kept every other captured header and only extended the DFA, so that every
-- captured name, as it is and Huffman coded, leads from its root of the trie along edges the last
-- of which carries its capture; or the parser is as it was and the name has no id, and it fails
-- because the name cannot be coded, or with the limit, only when all ids are handed out. If it
-- panics, it is not for a missing state or edge, an unsupported name or an index out of bounds.
pub capture_hdr-IsMatched :
    (huffman : List ℕ → Option (List ℕ)) (p : Parser) (n : List ℕ)
    → EncodesBytes huffman
    → IsConfigured huffman p
    → AreBytes n
    → n ≢ []
    → Ensures (Captured huffman p n) (capture_hdr huffman p n)
unfolding capture_hdr capture_found
capture_hdr-IsMatched huffman p n h c hn ne = elim (Option-cases (lookup n p.captures)) [
  | inr (mid, found) ↦
      rw (found, capture_found)
        (Ensures-returns (Captured huffman p n) (ok mid, p)
          (
            found,
            omega (arith, c.limit, c.captured.ids n mid found),
            λ m i e. e,
            c,
            Extends-refl p.dfa,
          ))
  | inl absent ↦
      rw (absent, capture_found)
        (capture_encoded-Captured huffman h p c n hn ne absent (huffman n) refl)
]
