-- ===== src/Conformance/Cases.antt =====
-- The cases of h2spec (`cases` in utils/src/bin/conformance/cases.rs), and how the harness finds one by
-- its id.
pub mod Blocks
pub mod Rejections
pub mod Headers
pub mod Finding
use beeper.Prelude.{
  Bool, true, false, ◌||◌, Option, none, some, ℕ, List, [], ◌∷◌, ◌++◌, bytes_eq, ◌==◌,
  if◌then◌else◌,
}
use beeper.Conformance.Verdict.{Case}
use Rejections.{violation_cases, plain_cases}
use Headers.{header_cases, field_cases}

unfoldable pub cases : List Case
unfolding violation_cases plain_cases header_cases field_cases
cases = violation_cases ++ (plain_cases ++ (header_cases ++ field_cases))

-- `slice::contains`
unfoldable pub contains : List (List ℕ) → List ℕ → Bool
contains [] id = false
contains (x ∷ xs) id = x == id || contains xs id

-- the `find` of the command `case`
unfoldable pub find_case : List ℕ → List Case → Option Case
unfolding contains
find_case id [] = none
find_case id (c ∷ cs) = let rest = find_case id cs in if contains c.ids id then some c else rest
