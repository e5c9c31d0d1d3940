-- ===== src/Conformance/Attaching.antt =====
-- The parser of a case: `CaseParser::attach` in utils/src/bin/conformance/main.rs. `load` is `attach`
-- of the HTTP/2 parser to the test program, and `P` the attached parser that it returns; `huffman`
-- stands for `huffman::encode` of the crate httlib_huffman.
use beeper.Prelude.{
  ℕ, zero, suc, Bool, true, false, ◌&&◌, ◌||◌, Option, none, some, List, [], ◌∷◌, nat_eq, bytes_eq,
  ◌==◌, ltb, length, if◌then◌else◌, codes,
}
use beeper.Run.{Run, returns, panics, ◌>>=◌, out_of_bounds}
use beeper.Error.{Result, ok, err, MatchId, msg}
use beeper.Http2.{Parser, new, capture_hdr, matched_fn, parse_fn, get_fn}
use beeper.Conformance.Fields.{Field}
use beeper.Conformance.Problems.{Block}
use beeper.Conformance.Verdict.{Case, sent, sent_blocks}

-- The order of `str`.
unfoldable pub name_lt : List ℕ → List ℕ → Bool
name_lt xs [] = false
name_lt [] (y ∷ ys) = true
name_lt (x ∷ xs) (y ∷ ys) = ltb x y || (x == y && name_lt xs ys)

-- An insertion into a `BTreeSet`, as a list in order.
unfoldable pub insert_name : List ℕ → List (List ℕ) → List (List ℕ)
unfolding name_lt
insert_name n [] = n ∷ []
insert_name n (m ∷ names) =
    let rest = insert_name n names in
    if n == m then m ∷ names else if name_lt n m then n ∷ m ∷ names else m ∷ rest

unfoldable pub field_names : List Field → List (List ℕ) → List (List ℕ)
unfolding insert_name
field_names [] names = names
field_names ((n, v) ∷ block) names = field_names block (insert_name n names)

unfoldable pub block_names : List Block → List (List ℕ) → List (List ℕ)
unfolding field_names sent
block_names [] names = names
block_names (b ∷ blocks) names =
    block_names blocks (elim (sent b) [ none ↦ names | some block ↦ field_names block names ])

-- `RESPONSE_FIELDS`
abbrev pub response_names : List (List ℕ)
response_names =
    codes ":status" ∷ codes "content-type" ∷ codes "content-length" ∷ codes "allow" ∷ []

unfoldable pub insert_names : List (List ℕ) → List (List ℕ) → List (List ℕ)
unfolding insert_name
insert_names [] names = names
insert_names (n ∷ more) names = insert_names more (insert_name n names)

-- the names of the fields that the case sends, and of those of every response
unfoldable pub case_names : Case → List (List ℕ)
unfolding block_names insert_names sent_blocks
case_names c = insert_names response_names (block_names (sent_blocks c.expect) [])

-- `by_mid[i] = name`
unfoldable pub set : List (List ℕ) → ℕ → List ℕ → Run (List (List ℕ))
set [] i name = panics out_of_bounds
set (n ∷ names) zero name = returns (name ∷ names)
set (n ∷ names) (suc i) name = do rest ← set names i name; returns (n ∷ rest)

-- `vec![""; n]`
unfoldable pub blanks : ℕ → List (List ℕ)
blanks zero = []
blanks (suc n) = [] ∷ blanks n

pub record CaseParser (P : Type 0) : Type 0 where
  pub names : List (List ℕ)
  pub parser : P

-- what the loop over the names leaves: `by_mid` and the parser
abbrev pub Named : Type 0
Named = List (List ℕ) × Parser

-- the functions that the parser replaces
unfoldable pub replaces : Parser → Parser
replaces p =
    get_fn (parse_fn (matched_fn p (codes "matched_http2")) (codes "parse_http2_msg") msg)
      (codes "get_http2_match_msg") msg

module _ (huffman : List ℕ → Option (List ℕ)) where
  -- what follows a call of `capture_hdr`: the rest of the loop, or the error
  unfoldable pub store_name :
      (List (List ℕ) → Parser → Run (Result Named))
      → List (List ℕ)
      → List ℕ
      → Result MatchId × Parser
      → Run (Result Named)
  unfolding set
  store_name rest by_mid name (err e, q) = returns (err e)
  store_name rest by_mid name (ok mid, q) = do by_mid' ← set by_mid mid name; rest by_mid' q

  unfoldable pub capture_names : List (List ℕ) → List (List ℕ) → Parser → Run (Result Named)
  unfolding store_name
  capture_names [] by_mid p = returns (ok (by_mid, p))
  capture_names (name ∷ names) by_mid p = do
    r ← capture_hdr huffman p name
    store_name (capture_names names) by_mid name r

-- `Ok(Self { names: by_mid, parser })`, or the error of the call
unfoldable pub finish : {P : Type 0} → List (List ℕ) → Result P → Result (CaseParser P)
finish by_mid (err e) = err e
finish by_mid (ok a) = ok (record { names = by_mid; parser = a })

module _ {P : Type 0} (load : Parser → Run (Result P)) (huffman : List ℕ → Option (List ℕ)) where
  -- what follows the loop
  unfoldable pub attach_named : Result Named → Run (Result (CaseParser P))
  unfolding replaces finish
  attach_named (err e) = returns (err e)
  attach_named (ok (by_mid, p)) = do a ← load (replaces p); returns (finish by_mid a)

  -- `CaseParser::attach`
  unfoldable pub attach : Case → Run (Result (CaseParser P))
  unfolding capture_names attach_named case_names blanks
  attach c = do
    p ← new
    r ← capture_names huffman (case_names c) (blanks (length (case_names c))) p
    attach_named r
