-- ===== src/Conformance/Following.antt =====
-- How the conformance harness follows what the program reports: `Results` in
-- utils/src/bin/conformance/main.rs. What the channel yields before the deadline is a list, and
-- `Ending` says what a wait for more than that comes to. A `BTreeSet` is a list without repetitions.
use beeper.Prelude.{
  ℕ, zero, suc, Bool, true, false, not, ◌&&◌, ◌||◌, Option, none, some, List, [], ◌∷◌, ◌++◌, nat_eq,
  ◌==◌, if◌then◌else◌,
}
use beeper.Utils.{Frame, ParseResult, open_end, close_end, frame, mark}

-- An end of a connection, by the port of its client and whether it is the server's.
abbrev pub End : Type 0
End = ℕ × Bool

abbrev bool_beq : Bool → Bool → Bool
bool_beq true b = b
bool_beq false b = not b

abbrev pub end_beq : End → End → Bool
end_beq (p, s) (q, t) = p == q && bool_beq s t

unfoldable pub has_end : End → List End → Bool
has_end e [] = false
has_end e (x ∷ xs) = end_beq x e || has_end e xs

-- `BTreeSet::insert`
unfoldable pub insert_end : End → List End → List End
unfolding has_end
insert_end e xs = if has_end e xs then xs else e ∷ xs

-- `BTreeSet::remove`
unfoldable pub remove_end : End → List End → List End
remove_end e [] = []
remove_end e (x ∷ xs) = let rest = remove_end e xs in if end_beq x e then rest else x ∷ rest

pub record Results : Type 0 where
  pub open_ends : List End
  pub frames : List Frame
  pub marked : Bool
  pub closed : List End

-- `Results::handle`
unfoldable pub handle : Results → ParseResult → Results
unfolding insert_end remove_end
handle r (open_end port server) = record r { open_ends = insert_end (port, server) r.open_ends }
handle r (close_end port server) = record r {
  open_ends = remove_end (port, server) r.open_ends;
  closed = r.closed ++ (port, server) ∷ [];
}
handle r (frame f) = record r { frames = r.frames ++ f ∷ [] }
handle r mark = record r { marked = true }

pub data Ending : Type 0 where
  timeout disconnected : Ending

pub data Failure : Type 0 where
  mark_failed lost : Failure
  still_open : List End → Failure

-- What a wait leaves: how it failed, if it did, the state, and what is still to come.
pub record Waited : Type 0 where
  pub failure : Option Failure
  pub results : Results
  pub coming : List ParseResult

abbrev pub failed_at : Results → Ending → Failure
failed_at r timeout = still_open r.open_ends
failed_at r disconnected = lost

-- `recv` on a channel that yields nothing more
unfoldable pub give_up : Results → Ending → Waited
give_up r ending = record { failure = some (failed_at r ending); results = r; coming = [] }

-- the loop of `sync`
unfoldable pub until_marked : Ending → Results → List ParseResult → Waited
unfolding handle give_up
until_marked ending r [] =
    if r.marked then record { failure = none; results = r; coming = [] } else give_up r ending
until_marked ending r (x ∷ coming) =
    let rest = until_marked ending (handle r x) coming in
    if r.marked then record { failure = none; results = r; coming = x ∷ coming } else rest

-- `sync`; the mark is written, or cannot be
unfoldable pub sync : Bool → Ending → Results → List ParseResult → Waited
unfolding until_marked
sync can_mark ending r coming =
    let unmarked = record r { marked = false } in
    if can_mark
    then until_marked ending unmarked coming
    else record { failure = some mark_failed; results = unmarked; coming = coming }

abbrev pub is_empty : List End → Bool
is_empty [] = true
is_empty (e ∷ ends) = false

-- the loop of `wait_closed`
unfoldable pub until_closed : Ending → Results → List ParseResult → Waited
unfolding handle give_up
until_closed ending r [] =
    if is_empty r.open_ends
    then record { failure = none; results = r; coming = [] }
    else give_up r ending
until_closed ending r (x ∷ coming) =
    let rest = until_closed ending (handle r x) coming in
    if is_empty r.open_ends
    then record { failure = none; results = r; coming = x ∷ coming }
    else rest

abbrev pub drained_all : Ending → Option Failure
drained_all timeout = none
drained_all disconnected = some lost

-- `drain`, when that many reports are there
unfoldable pub drain : ℕ → Ending → Results → List ParseResult → Waited
unfolding handle
drain ready ending r [] = record { failure = drained_all ending; results = r; coming = [] }
drain zero ending r (x ∷ coming) = record { failure = none; results = r; coming = x ∷ coming }
drain (suc ready) ending r (x ∷ coming) = drain ready ending (handle r x) coming

-- A step that is taken if the one before did not fail.
unfoldable pub then_wait : Waited → (Results → List ParseResult → Waited) → Waited
then_wait w next = elim w.failure [
  | none ↦ next w.results w.coming
  | some f ↦ record { failure = some f; results = w.results; coming = w.coming }
]

unfoldable pub wait_closed : Bool → ℕ → Ending → Results → List ParseResult → Waited
unfolding sync until_closed drain then_wait
wait_closed can_mark ready ending r coming =
    then_wait (sync can_mark ending r coming) (λ r₁ coming₁.
      then_wait (until_closed ending r₁ coming₁) (λ r₂ coming₂. drain ready ending r₂ coming₂))

-- `take_frames`
unfoldable pub take_frames : Results → List Frame × Results
take_frames r = (r.frames, record r { frames = [] })
