-- ===== src/Conformance/Storing.antt =====
-- The table of names by match id, and how many ids a call of `capture_hdr` hands out
-- (`CaseParser::attach` in utils/src/bin/conformance/main.rs).
use mathlib.Core.Path.{subst}
use beeper.Prelude.{
  ℕ, zero, suc, ◌+◌, ◌≤◌, ◌<◌, ◌≡◌, ◌≢◌, refl, inl, inr, Option, some, List, [], ◌∷◌, Bool-cases,
  Option-cases, nat_eq, bytes_eq, arith, length, leb,
}
use beeper.Run.{returns, >>=-eq-returns}
use beeper.Map.{lookup, insert}
use beeper.Error.{match_limit_exceeded, invalid_encoding, Result, ok, err, MatchId, max_matches}
use beeper.Http2.{
  Parser, new_match, capture_as, capture_encoded, capture_found, capture_hdr, build_name,
}
use beeper.Http2.Actions.{s_name, s_name_plain}
use beeper.Conformance.Checking.{name_of}
use beeper.Conformance.Attaching.{set, blanks}

-- A write in bounds: the name stands there, and the others stand where they stood.
pub set-name_of :
    (names : List (List ℕ)) (i : ℕ) (n : List ℕ)
    → i < length names
    → (names' : List (List ℕ)) × (set names i n ≡ returns names')
      × (length names' ≡ length names)
      × (name_of names' i ≡ some n)
      × ((j : ℕ) → j ≢ i → name_of names' j ≡ name_of names j)
unfolding set name_of
set-name_of [] i n h = absurd (omega arith)
set-name_of (m ∷ names) zero n h = (n ∷ names, refl, refl, refl, elsewhere)
  where
    elsewhere : (j : ℕ) → j ≢ 0 → name_of (n ∷ names) j ≡ name_of (m ∷ names) j
    elsewhere zero ne = absurd (ne refl)
    elsewhere (suc j) ne = refl
set-name_of (m ∷ names) (suc i) n h =
    let (names', run, len, here, others) = set-name_of names i n (omega arith) in
    (m ∷ names', rw run refl, omega (arith, len), here, elsewhere names' others)
  where
    elsewhere :
        (names' : List (List ℕ))
        → ((j : ℕ) → j ≢ i → name_of names' j ≡ name_of names j)
        → (j : ℕ) → j ≢ suc i
        → name_of (m ∷ names') j ≡ name_of (m ∷ names) j
    elsewhere names' others zero ne = refl
    elsewhere names' others (suc j) ne = others j (λ e. ne (omega arith))

pub length-blanks : (n : ℕ) → length (blanks n) ≡ n
unfolding blanks
length-blanks zero = refl
length-blanks (suc n) = omega (arith, length-blanks n)

module _ (huffman : List ℕ → Option (List ℕ)) where
  returned :
      (k : ℕ) (x r : Result MatchId × Parser)
      → returns x ≡ returns r
      → x.1.num_matches ≤ k
      → r.1.num_matches ≤ k
  returned k x r same h =
      let e : x ≡ r = cc in subst (λ (y : Result MatchId × Parser). y.1.num_matches ≤ k) e h

  capture_as-count :
      (p : Parser) (n coded : List ℕ) (r : Result MatchId × Parser)
      → capture_as n coded (new_match p) ≡ returns r
      → r.1.num_matches ≤ p.num_matches + 1
  unfolding capture_as new_match
  capture_as-count p n coded r run = elim (Bool-cases (leb max_matches p.num_matches)) [
    | inl full ↦
        returned (p.num_matches + 1) (err (match_limit_exceeded max_matches), p) r (rw full at run)
          (omega arith)
    | inr room ↦
        let p' : Parser = record p { num_matches = p.num_matches + 1 } in
        let run' : capture_as n coded (ok p.num_matches, p') ≡ returns r = rw room at run in
        let (d₁, _, run₁) = >>=-eq-returns (build_name p.dfa s_name coded p.num_matches) _ run' in
        let (d₂, _, run₂) = >>=-eq-returns (build_name d₁ s_name_plain n p.num_matches) _ run₁ in
        let q : Parser = record p {
          num_matches = p.num_matches + 1;
          dfa = d₂;
          captures = insert n p.num_matches p.captures;
        } in
        returned (p.num_matches + 1) (ok p.num_matches, q) r run₂ (omega arith)
  ]

  pub capture_hdr-count :
      (p : Parser) (n : List ℕ) (r : Result MatchId × Parser)
      → capture_hdr huffman p n ≡ returns r
      → r.1.num_matches ≤ p.num_matches + 1
  unfolding capture_hdr capture_found capture_encoded
  capture_hdr-count p n r run = elim (Option-cases (lookup n p.captures)) [
    | inr (mid, found) ↦ returned (p.num_matches + 1) (ok mid, p) r (rw found at run) (omega arith)
    | inl absent ↦ elim (Option-cases (huffman n)) [
      | inl none_there ↦
          returned (p.num_matches + 1) (err invalid_encoding, p) r
            (rw none_there at (rw absent at run)) (omega arith)
      | inr (coded, code) ↦ capture_as-count p n coded r (rw code at (rw absent at run))
    ]
  ]
