-- ===== src/Conformance/Indexing.antt =====
-- The parser of a case captures every field under the id that the harness looks it up by
-- (`CaseParser::attach` in utils/src/bin/conformance/main.rs).
use mathlib.Core.List.{Memᴰ}
use mathlib.Core.List.Memᴰ
use beeper.Conformance.Storing.{set-name_of, length-blanks, capture_hdr-count}
use beeper.Prelude.{
  ℕ, ◌+◌, ◌≤◌, ◌<◌, ◌≡◌, ◌≢◌, refl, ◌⊎◌, inl, inr, Option, none, some, List, [], ◌∷◌, All, codes,
  Bool-cases, nat_eq, bytes_eq, ◌==◌, arith, length, nat_beq_iff,
}
use beeper.Run.{Run, returns, Ensures, Ensures-returns, Ensures-bind, Ensures-mono}
use beeper.Map.{lookup, lookup-insert}
use beeper.Error.{
  msg, buffer_eq, match_limit_exceeded, invalid_encoding, Result, ok, err, MatchId, max_matches,
}
use beeper.Builder.Chains.{AreBytes}
use beeper.Http2.{Parser, capture_hdr, matched_fn, parse_fn, get_fn}
use beeper.Http2.Captures.{EncodesBytes, IsConfigured, IsMatched, Captured, capture_hdr-IsMatched}
use beeper.Http2.Start.{start, new-start, start-IsConfigured}
use beeper.Conformance.Checking.{name_of}
use beeper.Conformance.Verdict.{Case}
use beeper.Conformance.Attaching.{
  case_names, blanks, CaseParser, Named, store_name, capture_names, replaces, finish, attach_named,
  attach,
}

module _ (huffman : List ℕ → Option (List ℕ)) where
  -- Every name that was captured so far stands under its id.
  record Indexed (seen : List (List ℕ)) (total : ℕ) (by_mid : List (List ℕ)) (p : Parser)
      : Type 0 where
    configured : IsConfigured huffman p
    count : p.num_matches ≤ length seen
    size : length by_mid ≡ total
    index :
        (n : List ℕ)
        → Memᴰ n seen
        → (mid : MatchId) × (lookup n p.captures ≡ some mid) × (name_of by_mid mid ≡ some n)

  module _ (h : EncodesBytes huffman) (total : ℕ) where
    step-Indexed :
        (seen : List (List ℕ)) (n : List ℕ) (by_mid by_mid' : List (List ℕ)) (p q : Parser)
        (mid : MatchId)
        → Indexed seen total by_mid p
        → Captured huffman p n (ok mid, q)
        → q.num_matches ≤ p.num_matches + 1
        → (length by_mid' ≡ length by_mid)
          × (name_of by_mid' mid ≡ some n)
          × ((j : ℕ) → j ≢ mid → name_of by_mid' j ≡ name_of by_mid j)
        → Indexed (n ∷ seen) total by_mid' q
    step-Indexed seen n by_mid by_mid' p q mid inv (found, low, kept, configured, _) more
          (len, here, others) =
        record {
          configured = configured;
          count = omega (arith, inv.count);
          size = omega (arith, inv.size);
          index = λ m mem. elim (Memᴰ.cases_cons mem) [
            | inl e ↦ (mid, rw e found, rw e here)
            | inr rest ↦
                let (i, at, stands) = inv.index m rest in
                let at_q : lookup m q.captures ≡ some i = kept m i at in
                elim (Bool-cases (i == mid)) [
                  | inl same ↦
                      let e : i ≡ mid = (nat_beq_iff i mid).0 same in
                      let f : m ≡ n = configured.captured.distinct m n mid (rw e at at_q) found in
                      (mid, rw f found, rw f here)
                  | inr differ ↦
                      let ne : i ≢ mid = λ e. ground (arith, nat_beq_iff i mid) in
                      (i, at_q, rw (others i ne) stands)
                ]
          ];
        }

    -- What the loop comes to, with these names behind it and ahead of it.
    abbrev Done : List (List ℕ) → List (List ℕ) → Result Named → Type 0
    Done seen names (ok (by_mid, p)) =
        IsConfigured huffman p
        × (length by_mid ≡ total)
        × ((n : List ℕ)
            → Memᴰ n seen ⊎ Memᴰ n names
            → (mid : MatchId) × (lookup n p.captures ≡ some mid) × (name_of by_mid mid ≡ some n))
    Done seen names (err e) =
        ((e ≡ invalid_encoding) × ((n : List ℕ) × Memᴰ n names × (huffman n ≡ none)))
        ⊎ ((e ≡ match_limit_exceeded max_matches) × (max_matches < total))

    Done-next :
        (seen names : List (List ℕ)) (n : List ℕ) (r : Result Named)
        → Done (n ∷ seen) names r
        → Done seen (n ∷ names) r
    Done-next seen names n (ok c) (configured, len, index) = (
      configured,
      len,
      λ m mem. elim mem [
        | inl old ↦ index m (inl (Memᴰ.tail old))
        | inr ahead ↦ elim (Memᴰ.cases_cons ahead) [
          | inl e ↦ index m (inl (Memᴰ.head e))
          | inr later ↦ index m (inr later)
        ]
      ],
    )
    Done-next seen names n (err e) (inl (x, (m, mem, code))) = inl (x, (m, Memᴰ.tail mem, code))
    Done-next seen names n (err e) (inr over) = inr over

    store_name-Done :
        (seen names : List (List ℕ)) (n : List ℕ) (by_mid : List (List ℕ)) (p : Parser)
        (rest : List (List ℕ) → Parser → Run (Result Named)) (r : Result MatchId × Parser)
        → ((by_mid' : List (List ℕ)) (q : Parser)
            → Indexed (n ∷ seen) total by_mid' q
            → Ensures (Done (n ∷ seen) names) (rest by_mid' q))
        → Indexed seen total by_mid p
        → length seen < total
        → Captured huffman p n r × (r.1.num_matches ≤ p.num_matches + 1)
        → Ensures (Done seen (n ∷ names)) (store_name huffman rest by_mid n r)
    unfolding store_name
    store_name-Done seen names n by_mid p rest (err e, q) go inv room
          ((_, _, inl (x, code)), more) =
        Ensures-returns (Done seen (n ∷ names)) (err e) (inl (x, (n, Memᴰ.head refl, code)))
    store_name-Done seen names n by_mid p rest (err e, q) go inv room
          ((_, _, inr (x, full)), more) =
        Ensures-returns (Done seen (n ∷ names)) (err e) (inr (x, omega (arith, inv.count)))
    store_name-Done seen names n by_mid p rest (ok mid, q) go inv room (c, more) =
        let below : mid < q.num_matches = c.3.captured.ids n mid c.0 in
        let (by_mid', run, len, here, others) =
          set-name_of by_mid mid n (omega (arith, inv.count, inv.size)) in
        rw run (
          Ensures-mono (Done (n ∷ seen) names) (Done seen (n ∷ names)) (rest by_mid' q)
            (go by_mid' q
              (step-Indexed seen n by_mid by_mid' p q mid inv c more (len, here, others)))
            (Done-next seen names n))

    capture_names-Done :
        (seen names by_mid : List (List ℕ)) (p : Parser)
        → Indexed seen total by_mid p
        → length seen + length names ≡ total
        → All (λ (n : List ℕ). AreBytes n × (n ≢ [])) names
        → Ensures (Done seen names) (capture_names huffman names by_mid p)
    unfolding capture_names store_name
    capture_names-Done seen [] by_mid p inv fit fine =
        Ensures-returns (Done seen []) (ok (by_mid, p)) (
          inv.configured,
          inv.size,
          λ n mem. elim mem [
            | inl old ↦ inv.index n old
            | inr no_more ↦ absurd (Memᴰ.not-nil no_more)
          ],
        )
    capture_names-Done seen (n ∷ names) by_mid p inv fit (good, fine) =
        let captured : Ensures (Captured huffman p n) (capture_hdr huffman p n) =
          capture_hdr-IsMatched huffman p n h inv.configured good.0 good.1 in
        Ensures-bind
          (λ (r : Result MatchId × Parser).
            Captured huffman p n r × (r.1.num_matches ≤ p.num_matches + 1))
          (Done seen (n ∷ names)) _ _
          (record {
            post = λ r run. (captured.post r run, capture_hdr-count huffman p n r run);
            fault = captured.fault;
          })
          (λ r c.
            store_name-Done seen names n by_mid p (capture_names huffman names) r
              (λ by_mid' q next.
                capture_names-Done (n ∷ seen) names by_mid' q next (omega arith) fine)
              inv (omega arith) c)

  -- Some call of `load` answered so, with a parser that has the names under the ids of the table and
  -- replaces the three functions.
  abbrev pub Loaded :
      {P : Type 0} → (Parser → Run (Result P)) → List (List ℕ) → List (List ℕ) → Result P → Type 0
  Loaded load names by_mid a =
      (p : Parser) × (load p ≡ returns a)
      × IsConfigured huffman p
      × (p.matched_fn ≡ some (codes "matched_http2"))
      × (lookup msg p.parse_fns ≡ some (codes "parse_http2_msg"))
      × (lookup msg p.get_fns ≡ some (codes "get_http2_match_msg"))
      × (length by_mid ≡ length names)
      × ((n : List ℕ)
          → Memᴰ n names
          → (mid : MatchId) × (lookup n p.captures ≡ some mid)
            × (name_of by_mid mid ≡ some n)
            × IsMatched huffman p.dfa n mid)

  -- What `attach` promises of the names of a case.
  abbrev pub Attached :
      {P : Type 0} → (Parser → Run (Result P)) → List (List ℕ) → Result (CaseParser P) → Type 0
  Attached load names (ok c) = Loaded load names c.names (ok c.parser)
  Attached load names (err e) =
      ((e ≡ invalid_encoding) × ((n : List ℕ) × Memᴰ n names × (huffman n ≡ none)))
      ⊎ (((e ≡ match_limit_exceeded max_matches) × (max_matches < length names))
          ⊎ ((by_mid : List (List ℕ)) × Loaded load names by_mid (err e)))

  replaces-IsConfigured : (p : Parser) → IsConfigured huffman p → IsConfigured huffman (replaces p)
  unfolding replaces matched_fn parse_fn get_fn
  replaces-IsConfigured p configured = record {
    dfa = configured.dfa;
    reserved = configured.reserved;
    limit = configured.limit;
    captured = configured.captured;
    matched = configured.matched;
  }

  module _ {P : Type 0} (load : Parser → Run (Result P)) where
    loads-Loaded :
        (h : EncodesBytes huffman) (names by_mid : List (List ℕ)) (p : Parser) (a : Result P)
        → Done h (length names) [] names (ok (by_mid, p))
        → load (replaces p) ≡ returns a
        → Loaded load names by_mid a
    unfolding replaces matched_fn parse_fn get_fn
    loads-Loaded h names by_mid p a (configured, len, index) run = (
      replaces p,
      run,
      replaces-IsConfigured p configured,
      refl,
      (rw lookup-insert refl),
      (rw lookup-insert refl),
      len,
      λ n mem.
          let (mid, at, stands) = index n (inr mem) in
          (mid, at, stands, configured.matched n mid at),
    )

    finish-Attached :
        (names by_mid : List (List ℕ)) (a : Result P)
        → Loaded load names by_mid a
        → Attached load names (finish by_mid a)
    unfolding finish
    finish-Attached names by_mid (ok x) l = l
    finish-Attached names by_mid (err e) l = inr (inr (by_mid, l))

    attach_named-Attached :
        (h : EncodesBytes huffman) (names : List (List ℕ)) (r : Result Named)
        → ((p : Parser) → IsConfigured huffman p → Ensures (λ (a : Result P). Unit {0}) (load p))
        → Done h (length names) [] names r
        → Ensures (Attached load names) (attach_named load huffman r)
    unfolding attach_named
    attach_named-Attached h names (err e) fine (inl bad) =
        Ensures-returns (Attached load names) (err e) (inl bad)
    attach_named-Attached h names (err e) fine (inr full) =
        Ensures-returns (Attached load names) (err e) (inr (inl full))
    attach_named-Attached h names (ok (by_mid, p)) fine d =
        let loaded = fine (replaces p) (replaces-IsConfigured p d.0) in
        Ensures-bind (λ (a : Result P). load (replaces p) ≡ returns a) (Attached load names) _ _
          (record { post = λ a run. run; fault = loaded.fault })
          (λ a run.
            Ensures-returns (Attached load names) (finish by_mid a)
              (finish-Attached names by_mid a (loads-Loaded h names by_mid p a d run)))

-- For a Huffman coder of bytes, a case whose names are bytes and not empty, and an `attach` of the HTTP/2
-- parser, `load`, that panics for a configured parser at most if its caller brings it about. If attaching
-- the parser of the case returns, then either `load` has attached a configured parser that replaces the
-- three functions, and every name that the case sends, or that every response carries,
-- has an id under which that parser captures it, as it is and Huffman coded, and the harness finds
-- the same name under that id, in a table of as many names as there are; or it fails because
-- one of the names cannot be coded, because there are more than 32 of them, or because `load` failed
-- for such a parser, with the same error. If it panics, it is not for an index out of bounds
-- nor for a missing state or edge.
pub attach-Attached :
    {P : Type 0} (load : Parser → Run (Result P)) (huffman : List ℕ → Option (List ℕ)) (c : Case)
    → EncodesBytes huffman
    → ((p : Parser) → IsConfigured huffman p → Ensures (λ (a : Result P). Unit {0}) (load p))
    → All (λ (n : List ℕ). AreBytes n × (n ≢ [])) (case_names c)
    → Ensures (Attached huffman load (case_names c)) (attach load huffman c)
unfolding attach
attach-Attached load huffman c h loads fine =
    let names : List (List ℕ) = case_names c in
    let first : Indexed huffman [] (length names) (blanks (length names)) start = record {
      configured = start-IsConfigured huffman;
      count = omega arith;
      size = length-blanks (length names);
      index = λ n mem. absurd (Memᴰ.not-nil mem);
    } in
    rw new-start (
      Ensures-bind (Done huffman h (length names) [] names) (Attached huffman load names) _ _
        (capture_names-Done huffman h (length names) [] names (blanks (length names)) start first
          (omega arith) fine)
        (λ r d. attach_named-Attached huffman load h names r loads d))
