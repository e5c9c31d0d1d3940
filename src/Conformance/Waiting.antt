-- ===== src/Conformance/Waiting.antt =====
-- What a wait for the end of all connections comes to: `wait_closed` of the conformance harness
-- (utils/src/bin/conformance/main.rs).
use mathlib.Core.List.{append_assoc}
use beeper.Conformance.Handling.{
  handle_all, has_mark, frames_of, closes, handle_all-append, handle_all-frames, handle_all-closes,
}
use beeper.Prelude.{
  ℕ, zero, suc, Bool, true, false, ◌||◌, ◌≡◌, refl, sym, ap, ◌∙◌, Bool-cases, inl, inr, none, List,
  [], ◌∷◌, ◌++◌, nat_eq, arith, if◌then◌else◌,
}
use beeper.Utils.{ParseResult, open_end, close_end, frame, mark}
use beeper.Conformance.Following.{
  End, Results, handle, Ending, timeout, Waited, until_marked, sync, is_empty, until_closed, drain,
  then_wait, wait_closed,
}

if-false : (b : Bool) (x y : Waited) → b ≡ false → (if b then x else y) ≡ y
if-false true x y h = absurd (cc h)
if-false false x y h = refl

if-true : (b : Bool) (x y : Waited) → b ≡ true → (if b then x else y) ≡ x
if-true true x y h = refl
if-true false x y h = absurd (cc h)

-- A wait that did not fail.
abbrev pub done : Results → List ParseResult → Waited
done r coming = record { failure = none; results = r; coming = coming }

until_marked-done :
    (ending : Ending) (r : Results) (coming : List ParseResult)
    → r.marked ≡ true
    → until_marked ending r coming ≡ done r coming
unfolding until_marked
until_marked-done ending r [] h = if-true _ _ _ h
until_marked-done ending r (x ∷ coming) h = if-true _ _ _ h

abbrev is_mark : ParseResult → Bool
is_mark mark = true
is_mark (open_end p s) = false
is_mark (close_end p s) = false
is_mark (frame f) = false

mark-next :
    (r : Results) (x : ParseResult) (xs : List ParseResult)
    → (r.marked || has_mark (x ∷ xs)) ≡ true
    → ((handle r x).marked || has_mark xs) ≡ true
unfolding handle
mark-next r mark xs h = refl
mark-next r (open_end p s) xs h = h
mark-next r (close_end p s) xs h = h
mark-next r (frame f) xs h = h

-- The wait for the mark takes the reports up to it.
until_marked-takes :
    (ending : Ending) (r : Results) (xs ys : List ParseResult)
    → (r.marked || has_mark xs) ≡ true
    → (used rest : List ParseResult) × (xs ≡ used ++ rest)
      × (until_marked ending r (xs ++ ys) ≡ done (handle_all r used) (rest ++ ys))
unfolding until_marked handle_all
until_marked-takes ending r [] ys h =
    let now : r.marked ≡ true = ground arith in ([], [], refl, until_marked-done ending r ys now)
until_marked-takes ending r (x ∷ xs) ys h = elim (Bool-cases r.marked) [
  | inl now ↦ ([], x ∷ xs, refl, if-true _ _ _ now)
  | inr on ↦
      let (used, rest, split, run) =
        until_marked-takes ending (handle r x) xs ys (mark-next r x xs h) in
      (x ∷ used, rest, ap (λ (t : List ParseResult). x ∷ t) split, if-false _ _ _ on ∙ run)
]

empty-nil : (ends : List End) → is_empty ends ≡ true → ends ≡ []
empty-nil [] h = refl
empty-nil (e ∷ ends) h = absurd (cc h)

until_closed-done :
    (ending : Ending) (r : Results) (coming : List ParseResult)
    → is_empty r.open_ends ≡ true
    → until_closed ending r coming ≡ done r coming
unfolding until_closed
until_closed-done ending r [] h = if-true _ _ _ h
until_closed-done ending r (x ∷ coming) h = if-true _ _ _ h

-- The wait for the ends to close takes reports until none is open.
until_closed-takes :
    (ending : Ending) (r : Results) (xs ys : List ParseResult)
    → (handle_all r xs).open_ends ≡ []
    → (used rest : List ParseResult) × (xs ≡ used ++ rest)
      × ((handle_all r used).open_ends ≡ [])
      × (until_closed ending r (xs ++ ys) ≡ done (handle_all r used) (rest ++ ys))
unfolding until_closed handle_all
until_closed-takes ending r [] ys h = ([], [], refl, h, until_closed-done ending r ys (rw h refl))
until_closed-takes ending r (x ∷ xs) ys h = elim (Bool-cases (is_empty r.open_ends)) [
  | inl now ↦ ([], x ∷ xs, refl, empty-nil r.open_ends now, if-true _ _ _ now)
  | inr on ↦
      let (used, rest, split, closed, run) = until_closed-takes ending (handle r x) xs ys h in
      (x ∷ used, rest, ap (λ (t : List ParseResult). x ∷ t) split, closed, rw on run)
]

-- The rest is taken without waiting.
drain-takes :
    (ready : ℕ) (r : Results) (coming : List ParseResult)
    → (used rest : List ParseResult) × (coming ≡ used ++ rest)
      × (drain ready timeout r coming ≡ done (handle_all r used) rest)
unfolding drain handle_all
drain-takes ready r [] = ([], [], refl, refl)
drain-takes zero r (x ∷ coming) = ([], x ∷ coming, refl, refl)
drain-takes (suc ready) r (x ∷ coming) =
    let (used, rest, split, run) = drain-takes ready (handle r x) coming in
    (x ∷ used, rest, ap (λ (t : List ParseResult). x ∷ t) split, run)

has_mark-append : (xs ys : List ParseResult) → has_mark xs ≡ true → has_mark (xs ++ ys) ≡ true
has_mark-append [] ys h = absurd (cc h)
has_mark-append (mark ∷ xs) ys h = refl
has_mark-append (open_end p s ∷ xs) ys h = has_mark-append xs ys h
has_mark-append (close_end p s ∷ xs) ys h = has_mark-append xs ys h
has_mark-append (frame f ∷ xs) ys h = has_mark-append xs ys h

regroup :
    {A : Type 0} (before after used rest used' rest' drained left : List A)
    → before ≡ used ++ rest
    → rest ≡ used' ++ rest'
    → rest' ++ after ≡ drained ++ left
    → before ++ after ≡ (used ++ used') ++ (drained ++ left)
regroup before after used rest used' rest' drained left h h' h'' =
    rw
      (
        h,
        h',
        append_assoc used (used' ++ rest') after,
        append_assoc used' rest' after,
        h'',
        append_assoc used used' (drained ++ left),
      )
      refl

-- The mark is written and comes back among reports after which no end is open, and the program goes on.
-- Then the wait succeeds, whatever reports follow and however many of them are there already. It
-- handles a number of the reports in order, keeping all of their frames in order; the first of these
-- leave no end open: each end that they report opened they report closed after that.
pub wait_closed-Complete :
    (r : Results) (before after : List ParseResult) (ready : ℕ)
    → has_mark before ≡ true
    → (handle_all (record r { marked = false }) before).open_ends ≡ []
    → (waited drained left : List ParseResult) × (final : Results) × (wait_closed true ready timeout
          r
          (before ++ after)
        ≡ done final left)
      × (before ++ after ≡ waited ++ (drained ++ left))
      × (final ≡ handle_all (record r { marked = false }) (waited ++ drained))
      × (final.frames ≡ r.frames ++ frames_of (waited ++ drained))
      × ((e : End) (xs ys : List ParseResult)
          → waited ≡ xs ++ open_end e.0 e.1 ∷ ys
          → closes e ys ≡ true)
unfolding wait_closed sync then_wait
wait_closed-Complete r before after ready marks settles =
    let r₀ : Results = record r { marked = false } in
    let (used, rest, split, run) = until_marked-takes timeout r₀ before after marks in
    let r₁ : Results = handle_all r₀ used in
    let left_closed : (handle_all r₁ rest).open_ends ≡ [] =
      rw (handle_all-append r₀ used rest) at (rw split at settles) in
    let (used', rest', split', closed, run') =
      until_closed-takes timeout r₁ rest after left_closed in
    let r₂ : Results = handle_all r₁ used' in
    let (drained, left, split'', run'') = drain-takes ready r₂ (rest' ++ after) in
    let waited : List ParseResult = used ++ used' in
    let at_close : handle_all r₀ waited ≡ r₂ = handle_all-append r₀ used used' in
    let final : handle_all r₂ drained ≡ handle_all r₀ (waited ++ drained) =
      sym (
        handle_all-append r₀ waited drained
        ∙ ap (λ (t : Results). handle_all t drained) at_close) in
    (
      waited,
      drained,
      left,
      handle_all r₀ (waited ++ drained),
      rw (run, run', run'', final) refl,
      regroup before after used rest used' rest' drained left split split' split'',
      refl,
      handle_all-frames r₀ (waited ++ drained),
      λ e xs ys. handle_all-closes r₀ waited e xs ys (rw at_close closed),
    )
