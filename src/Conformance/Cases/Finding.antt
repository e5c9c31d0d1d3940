-- ===== src/Conformance/Cases/Finding.antt =====
-- Every case is listed once (utils/src/bin/conformance/cases.rs).
use mathlib.Core.List.{Memᴰ}
use mathlib.Core.List.Memᴰ
use beeper.Prelude.{
  ℕ, ◌≡◌, refl, Bool, true, false, not, ◌&&◌, ◌||◌, inl, inr, some, List, [], ◌∷◌, ◌++◌, bytes_eq,
  length, arith,
}
use beeper.Conformance.Problems.{Block, fields, malformed, rejected}
use beeper.Conformance.Verdict.{Case, Expect, blocks_sent, violation}
use beeper.Conformance.Cases.{cases, contains, find_case}
use beeper.Conformance.Cases.Blocks.{get, head, post, replicate}

abbrev pub all_ids : List Case → List (List ℕ)
all_ids [] = []
all_ids (c ∷ cs) = c.ids ++ all_ids cs

abbrev are_distinct : List (List ℕ) → Bool
are_distinct [] = true
are_distinct (x ∷ xs) = not (contains xs x) && are_distinct xs

ids-distinct : are_distinct (all_ids cases) ≡ true
unfolding cases contains
ids-distinct = refl

length-ids : length (all_ids cases) ≡ 146
unfolding cases
length-ids = refl

contains-append :
    (xs ys : List (List ℕ)) (x : List ℕ) → contains (xs ++ ys) x ≡ (contains xs x || contains ys x)
unfolding contains
contains-append [] ys x = refl
contains-append (z ∷ xs) ys x = ground (arith, contains-append xs ys x)

contains-Memᴰ : (xs : List (List ℕ)) (x : List ℕ) → Memᴰ x xs → contains xs x ≡ true
unfolding contains
contains-Memᴰ [] x m = absurd (Memᴰ.not-nil m)
contains-Memᴰ (z ∷ xs) x m = elim (Memᴰ.cases_cons m) [
  | inl e ↦ ground (arith, bytes_eq.beq_iff z x, e)
  | inr rest ↦ ground (arith, contains-Memᴰ xs x rest)
]

-- What stands in the first part of a list without repetitions does not stand in the second.
distinct-append :
    (xs ys : List (List ℕ)) (x : List ℕ)
    → are_distinct (xs ++ ys) ≡ true
    → contains ys x ≡ true
    → contains xs x ≡ false
unfolding contains
distinct-append [] ys x h m = refl
distinct-append (z ∷ xs) ys x h m = ground (
  arith,
  bytes_eq.beq_iff z x,
  contains-append xs ys z,
  contains-append xs ys x,
  distinct-append xs ys x,
)

distinct-rest : (xs ys : List (List ℕ)) → are_distinct (xs ++ ys) ≡ true → are_distinct ys ≡ true
distinct-rest [] ys h = h
distinct-rest (z ∷ xs) ys h = ground (arith, distinct-rest xs ys)

contains-all_ids :
    (cs : List Case) (c : Case) (id : List ℕ)
    → Memᴰ c cs
    → contains c.ids id ≡ true
    → contains (all_ids cs) id ≡ true
contains-all_ids [] c id m h = absurd (Memᴰ.not-nil m)
contains-all_ids (d ∷ cs) c id m h = elim (Memᴰ.cases_cons m) [
  | inl e ↦
      let here : contains d.ids id ≡ true = rw e at h in
      ground (arith, contains-append d.ids (all_ids cs) id)
  | inr rest ↦
      ground (arith, contains-append d.ids (all_ids cs) id, contains-all_ids cs c id rest h)
]

distinct-find_case :
    (cs : List Case) (c : Case) (id : List ℕ)
    → are_distinct (all_ids cs) ≡ true
    → Memᴰ c cs
    → contains c.ids id ≡ true
    → find_case id cs ≡ some c
unfolding find_case
distinct-find_case [] c id h m listed = absurd (Memᴰ.not-nil m)
distinct-find_case (d ∷ cs) c id h m listed = elim (Memᴰ.cases_cons m) [
  | inl e ↦ let here : contains d.ids id ≡ true = rw e at listed in rw (here, e) refl
  | inr rest ↦
      let elsewhere : contains d.ids id ≡ false =
        distinct-append d.ids (all_ids cs) id h (contains-all_ids cs c id rest listed) in
      rw elsewhere (distinct-find_case cs c id (distinct-rest d.ids (all_ids cs) h) rest listed)
]

abbrev pub any_rejected : List Block → Bool
any_rejected [] = false
any_rejected (rejected ∷ bs) = true
any_rejected (malformed ∷ bs) = any_rejected bs
any_rejected (fields block ∷ bs) = any_rejected bs

abbrev pub any_malformed : List Block → Bool
any_malformed [] = false
any_malformed (malformed ∷ bs) = true
any_malformed (rejected ∷ bs) = any_malformed bs
any_malformed (fields block ∷ bs) = any_malformed bs

-- A violation rejects a frame and lists no malformed block, another case rejects none.
abbrev pub is_consistent : Expect → Bool
is_consistent (violation sent) = any_rejected sent && not (any_malformed sent)
is_consistent (blocks_sent sent) = not (any_rejected sent)

abbrev are_consistent : List Case → Bool
are_consistent [] = true
are_consistent (c ∷ cs) = is_consistent c.expect && are_consistent cs

are_consistent-cases : are_consistent cases ≡ true
unfolding cases get head post replicate
are_consistent-cases = refl

are_consistent-Memᴰ :
    (cs : List Case) (c : Case)
    → are_consistent cs ≡ true
    → Memᴰ c cs
    → is_consistent c.expect ≡ true
are_consistent-Memᴰ [] c h m = absurd (Memᴰ.not-nil m)
are_consistent-Memᴰ (d ∷ cs) c h m = elim (Memᴰ.cases_cons m) [
  | inl e ↦ rw e (ground arith)
  | inr rest ↦ are_consistent-Memᴰ cs c (ground arith) rest
]

-- Whatever id of whatever case the harness is given, it finds that case and no other that lists the
-- same id; there are 146 ids. A case that is listed as a violation has a frame to be rejected and no malformed block, and
-- any other case has no frame to be rejected.
pub cases-Find :
    (c : Case) (id : List ℕ)
    → Memᴰ c cases
    → Memᴰ id c.ids
    → (find_case id cases ≡ some c)
      × (is_consistent c.expect ≡ true)
      × (length (all_ids cases) ≡ 146)
cases-Find c id m listed = (
  distinct-find_case cases c id ids-distinct m (contains-Memᴰ c.ids id listed),
  are_consistent-Memᴰ cases c are_consistent-cases m,
  length-ids,
)
