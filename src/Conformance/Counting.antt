-- ===== src/Conformance/Counting.antt =====
-- Lemmas on the counts of frames and on the closest answer, in `check_violation` and `check` of
-- utils/src/bin/conformance/main.rs.
use beeper.Prelude.{
  ℕ, suc, ◌+◌, ◌≤◌, ◌≡◌, ◌↔◌, ◌⊎◌, inl, inr, refl, Bool, true, false, ◌||◌, List, [], ◌∷◌, nat_eq,
  ltb, length, if◌then◌else◌, arith,
}
use beeper.Utils.{int_eq}
use beeper.Conformance.Problems.{Block, fields, malformed, rejected, response_field}
use beeper.Conformance.Violations.{up_to_violation}
use beeper.Conformance.Verdict.{closest_from, closest, response_problems}
use beeper.Conformance.Fitting.{map-nil}

abbrev pub is_rejected : Block → Bool
is_rejected rejected = true
is_rejected _ = false

-- How many frames there are to be at least: none once a frame was rejected.
unfoldable pub limit : Bool → List Block → ℕ
unfolding up_to_violation
limit true sent = 0
limit false sent = up_to_violation sent

up_to_violation-cons :
    (b : Block) (sent : List Block)
    → is_rejected b ≡ false
    → up_to_violation (b ∷ sent) ≡ up_to_violation sent + 1
unfolding up_to_violation
up_to_violation-cons rejected sent h = absurd (cc h)
up_to_violation-cons malformed sent h = ground arith
up_to_violation-cons (fields block) sent h = ground arith

pub limit-cons :
    (passed : Bool) (b : Block) (sent : List Block) (n : ℕ)
    → (limit passed (b ∷ sent) ≤ suc n) ↔ (limit (passed || is_rejected b) sent ≤ n)
unfolding limit
limit-cons true b sent n = (λ h. omega arith, λ h. omega arith)
limit-cons false rejected sent n = (λ h. omega arith, λ h. omega arith)
limit-cons false malformed sent n =
    let e = up_to_violation-cons malformed sent refl in
    (λ h. omega (arith, e), λ h. omega (arith, e))
limit-cons false (fields block) sent n =
    let e = up_to_violation-cons (fields block) sent refl in
    (λ h. omega (arith, e), λ h. omega (arith, e))

pub limit-empty :
    (passed : Bool) (b : Block) (sent : List Block)
    → (limit passed (b ∷ sent) ≤ 0) ↔ (passed ≡ true)
unfolding limit
limit-empty true b sent = (λ h. refl, λ h. omega arith)
limit-empty false b sent = (λ h. absurd (not_none b h), λ h. absurd (cc h))
  where
    not_none : (b : Block) → up_to_violation (b ∷ sent) ≤ 0 → ⊥
    not_none rejected h = omega (arith, h)
    not_none malformed h = omega (arith, up_to_violation-cons malformed sent refl)
    not_none (fields block) h = omega (arith, up_to_violation-cons (fields block) sent refl)

pub limit-nil : (passed : Bool) → limit passed [] ≤ 0
unfolding limit up_to_violation
limit-nil true = omega arith
limit-nil false = omega arith

pub count_test :
    (low seen high : ℕ) → ((ltb seen low || ltb high seen) ≡ false) ↔ ((low ≤ seen) × (seen ≤ high))
count_test low seen high = ground arith

shorter-nil :
    {A : Type 0} (best m : List A)
    → ((if ltb (length m) (length best) then m else best) ≡ []) ↔ ((best ≡ []) ⊎ (m ≡ []))
shorter-nil [] [] = (λ h. inl refl, λ h. refl)
shorter-nil [] (x ∷ m) = (λ h. inl refl, λ h. ground arith)
shorter-nil (y ∷ best) [] = (λ h. inr refl, λ h. ground arith)
shorter-nil (y ∷ best) (x ∷ m) = ground arith

abbrev pub HasEmpty : List (List (List ℕ)) → Type 0
HasEmpty [] = ⊥
HasEmpty (m ∷ ms) = (m ≡ []) ⊎ HasEmpty ms

closest_from-nil :
    (best : List (List ℕ)) (ms : List (List (List ℕ)))
    → (closest_from best ms ≡ []) ↔ ((best ≡ []) ⊎ HasEmpty ms)
unfolding closest_from
closest_from-nil best [] = (λ h. inl h, λ h. elim h [ inl e ↦ e | inr no_more ↦ absurd no_more ])
closest_from-nil best (m ∷ ms) =
    let better : List (List ℕ) = if ltb (length m) (length best) then m else best in
    let ih = closest_from-nil better ms in
    let shorter = shorter-nil best m in
    (
      λ h. elim (ih.0 h) [
        | inl e ↦ elim (shorter.0 e) [ inl b ↦ inl b | inr n ↦ inr (inl n) ]
        | inr later ↦ inr (inr later)
      ],
      λ h. elim h [
        | inl b ↦ ih.1 (inl (shorter.1 (inl b)))
        | inr rest ↦ elim rest [
          | inl n ↦ ih.1 (inl (shorter.1 (inr n)))
          | inr later ↦ ih.1 (inr later)
        ]
      ],
    )

pub response_problems-nil :
    (i : ℕ) (ms : List (List (List ℕ))) → (response_problems i (closest ms) ≡ []) ↔ HasEmpty ms
unfolding response_problems closest
response_problems-nil i [] = (λ h. absurd (cc h), λ h. absurd h)
response_problems-nil i (m ∷ ms) =
    let c = closest_from-nil m ms in
    let n = map-nil (response_field i) (closest_from m ms) in (λ h. c.0 (n.0 h), λ h. n.1 (c.1 h))
