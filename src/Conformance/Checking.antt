-- ===== src/Conformance/Checking.antt =====
-- The check of a header block against the fields expected of it: `CaseParser::check` in
-- utils/src/bin/conformance/main.rs. A mismatch is reported by the name of the field.
use beeper.Prelude.{
  ℕ, zero, suc, ◌+◌, ◌≡◌, ◌↔◌, refl, Bool, true, false, Option, none, some, List, [], ◌∷◌, nat_eq,
  bytes_eq, if◌then◌else◌, arith, sym,
}
use beeper.Run.{Run, returns, ◌>>=◌, >>=-eq-returns}
use beeper.Map.{lookup}
use beeper.Utils.{Capture}
use beeper.Conformance.{ParsedBlock, Expected, absent, matches}
use beeper.Conformance.Fields.{Fields}

-- `unwrap_or(Expected::Absent)`
unfoldable pub or_absent : Option Expected → Expected
or_absent none = absent
or_absent (some e) = e

-- `captures.get(mid).and_then(Option::as_ref)`
unfoldable pub capture_of : List (Option Capture) → ℕ → Option Capture
capture_of [] mid = none
capture_of (c ∷ cs) zero = c
capture_of (c ∷ cs) (suc mid) = capture_of cs mid

unfoldable pub name_of : List (List ℕ) → ℕ → Option (List ℕ)
name_of [] mid = none
name_of (name ∷ names) zero = some name
name_of (name ∷ names) (suc mid) = name_of names mid

no-problem :
    (name : List ℕ) (fine : Bool) (problems : List (List ℕ))
    → returns (if fine then problems else name ∷ problems) ≡ returns []
    → (fine ≡ true) × (problems ≡ [])
no-problem name true problems h = (refl, cc)
no-problem name false problems h = absurd (cc h)

module _ (huffman : List ℕ → Option (List ℕ)) (block : ParsedBlock) (fields : Fields) where
  -- the test of `check` on one field
  unfoldable pub is_expected : ℕ → List ℕ → Run Bool
  unfolding matches or_absent capture_of
  is_expected mid name =
      matches huffman (or_absent (lookup name fields)) (capture_of block.captures mid)

  unfoldable pub check_from : ℕ → List (List ℕ) → Run (List (List ℕ))
  unfolding is_expected
  check_from mid [] = returns []
  check_from mid (name ∷ names) = do
    fine ← is_expected mid name
    problems ← check_from (mid + 1) names
    returns (if fine then problems else name ∷ problems)

  unfoldable pub check : List (List ℕ) → Run (List (List ℕ))
  unfolding check_from
  check names = check_from 0 names

  check_from-clean :
      (mid : ℕ) (names : List (List ℕ))
      → ((i : ℕ) (name : List ℕ)
          → name_of names i ≡ some name
          → is_expected (mid + i) name ≡ returns true)
      → check_from mid names ≡ returns []
  unfolding check_from name_of
  check_from-clean mid [] h = refl
  check_from-clean mid (name ∷ names) h =
      let z : mid + 0 ≡ mid = omega arith in
      let now : is_expected mid name ≡ returns true = rw z at (h 0 name refl) in
      let later : check_from (mid + 1) names ≡ returns [] =
        check_from-clean (mid + 1) names (λ i other e.
          let p : mid + suc i ≡ mid + 1 + i = omega arith in rw p at (h (suc i) other e)) in
      rw (now, later) refl

  clean-cons :
      (mid : ℕ) (first : List ℕ) (names : List (List ℕ))
      → check_from mid (first ∷ names) ≡ returns []
      → (is_expected mid first ≡ returns true) × (check_from (mid + 1) names ≡ returns [])
  unfolding check_from
  clean-cons mid first names run =
      let (fine, test, rest) = >>=-eq-returns (is_expected mid first) _ run in
      let (problems, later, out) = >>=-eq-returns (check_from (mid + 1) names) _ rest in
      let (good, none_left) = no-problem first fine problems out in
      (rw good at test, rw none_left at later)

  clean-check_from :
      (mid : ℕ) (names : List (List ℕ))
      → check_from mid names ≡ returns []
      → (i : ℕ) (name : List ℕ) → name_of names i ≡ some name
      → is_expected (mid + i) name ≡ returns true
  unfolding check_from name_of
  clean-check_from mid [] run i name e = absurd (cc e)
  clean-check_from mid (first ∷ names) run zero name e =
      let (now, later) = clean-cons mid first names run in
      let z : mid + 0 ≡ mid = omega arith in let p : first ≡ name = cc in rw (z, sym p) now
  clean-check_from mid (first ∷ names) run (suc i) name e =
      let (now, later) = clean-cons mid first names run in
      let p : mid + suc i ≡ mid + 1 + i = omega arith in
      rw p (clean-check_from (mid + 1) names later i name e)

-- The check returns no problem just when, for each of the names by its match id, what was captured is
-- what is expected: the value that the block is to carry, or nothing for a field that it does not send.
pub check-Clean :
    (huffman : List ℕ → Option (List ℕ)) (block : ParsedBlock) (fields : Fields)
    (names : List (List ℕ))
    → (check huffman block fields names ≡ returns []) ↔ (
        (mid : ℕ) (name : List ℕ)
        → name_of names mid ≡ some name
        → matches huffman (or_absent (lookup name fields)) (capture_of block.captures mid)
          ≡ returns true)
unfolding check is_expected
check-Clean huffman block fields names = (
  λ run mid name e.
      let z : 0 + mid ≡ mid = omega arith in
      rw z at (clean-check_from huffman block fields 0 names run mid name e),
  λ h.
      check_from-clean huffman block fields 0 names
        (λ i name e. let z : i ≡ 0 + i = omega arith in rw z at (h i name e)),
)
