-- ===== src/Conformance/Handling.antt =====
-- What the handling of a sequence of reports comes to: `Results::handle` of
-- utils/src/bin/conformance/main.rs.
use mathlib.Core.List.{append-nil, append_assoc}
use beeper.Prelude.{
  Bool, true, false, ◌||◌, ◌≡◌, refl, sym, ◌∙◌, Bool-cases, inl, inr, List, [], ◌∷◌, ◌++◌, nat_eq,
  arith,
}
use beeper.Utils.{Frame, ParseResult, open_end, close_end, frame, mark}
use beeper.Conformance.Following.{End, end_beq, has_end, insert_end, remove_end, Results, handle}

unfoldable pub handle_all : Results → List ParseResult → Results
unfolding handle
handle_all r [] = r
handle_all r (x ∷ xs) = handle_all (handle r x) xs

abbrev pub has_mark : List ParseResult → Bool
has_mark [] = false
has_mark (mark ∷ xs) = true
has_mark (open_end p s ∷ xs) = has_mark xs
has_mark (close_end p s ∷ xs) = has_mark xs
has_mark (frame f ∷ xs) = has_mark xs

abbrev pub frames_of : List ParseResult → List Frame
frames_of [] = []
frames_of (frame f ∷ xs) = f ∷ frames_of xs
frames_of (mark ∷ xs) = frames_of xs
frames_of (open_end p s ∷ xs) = frames_of xs
frames_of (close_end p s ∷ xs) = frames_of xs

-- The end is reported closed.
abbrev pub closes : End → List ParseResult → Bool
closes e [] = false
closes e (close_end p s ∷ xs) = end_beq (p, s) e || closes e xs
closes e (open_end p s ∷ xs) = closes e xs
closes e (frame f ∷ xs) = closes e xs
closes e (mark ∷ xs) = closes e xs

pub handle_all-append :
    (r : Results) (xs ys : List ParseResult)
    → handle_all r (xs ++ ys) ≡ handle_all (handle_all r xs) ys
unfolding handle_all
handle_all-append r [] ys = refl
handle_all-append r (x ∷ xs) ys = handle_all-append (handle r x) xs ys

pub handle_all-frames :
    (r : Results) (xs : List ParseResult) → (handle_all r xs).frames ≡ r.frames ++ frames_of xs
unfolding handle_all
handle_all-frames r [] = sym (append-nil r.frames)
handle_all-frames r (frame f ∷ xs) =
    handle_all-frames (handle r (frame f)) xs ∙ append_assoc r.frames (f ∷ []) (frames_of xs)
handle_all-frames r (mark ∷ xs) = handle_all-frames (handle r mark) xs
handle_all-frames r (open_end p s ∷ xs) = handle_all-frames (handle r (open_end p s)) xs
handle_all-frames r (close_end p s ∷ xs) = handle_all-frames (handle r (close_end p s)) xs

end_beq_iff : (e f : End) → end_beq e f ≡ true → e ≡ f
end_beq_iff (p, true) (q, true) h = ground arith
end_beq_iff (p, true) (q, false) h = ground arith
end_beq_iff (p, false) (q, true) h = ground arith
end_beq_iff (p, false) (q, false) h = ground arith

end_beq_refl : (e : End) → end_beq e e ≡ true
end_beq_refl (p, true) = ground arith
end_beq_refl (p, false) = ground arith

has_end-insert :
    (e f : End) (xs : List End) → has_end e xs ≡ true → has_end e (insert_end f xs) ≡ true
unfolding insert_end
has_end-insert e f xs h = ground arith

has_end-insert_self : (e : End) (xs : List End) → has_end e (insert_end e xs) ≡ true
unfolding insert_end
has_end-insert_self e xs = ground (arith, end_beq_refl e)

has_end-remove :
    (e f : End) (xs : List End)
    → end_beq f e ≡ false
    → has_end e xs ≡ true
    → has_end e (remove_end f xs) ≡ true
unfolding has_end remove_end
has_end-remove e f [] other h = cc
has_end-remove e f (x ∷ xs) other h = elim (Bool-cases (end_beq x f)) [
  | inl same ↦
      let p : x ≡ f = end_beq_iff x f same in
      let later : has_end e xs ≡ true = rw other at (rw p at h) in
      rw same (has_end-remove e f xs other later)
  | inr differ ↦ rw differ (elim (Bool-cases (end_beq x e)) [
    | inl here ↦ rw here refl
    | inr there ↦ rw there (has_end-remove e f xs other (rw there at h))
  ])
]

-- An end that is open stays so until it is reported closed.
handle_all-has_end :
    (e : End) (r : Results) (xs : List ParseResult)
    → has_end e r.open_ends ≡ true
    → closes e xs ≡ false
    → has_end e (handle_all r xs).open_ends ≡ true
unfolding handle_all
handle_all-has_end e r [] h no_close = h
handle_all-has_end e r (frame f ∷ xs) h no_close =
    handle_all-has_end e (handle r (frame f)) xs h no_close
handle_all-has_end e r (mark ∷ xs) h no_close = handle_all-has_end e (handle r mark) xs h no_close
handle_all-has_end e r (open_end p s ∷ xs) h no_close =
    handle_all-has_end e (handle r (open_end p s)) xs (has_end-insert e (p, s) r.open_ends h)
      no_close
handle_all-has_end e r (close_end p s ∷ xs) h no_close =
    let (other, later) = or-false (end_beq (p, s) e) (closes e xs) no_close in
    handle_all-has_end e (handle r (close_end p s)) xs (has_end-remove e (p, s) r.open_ends other h)
      later
  where
    or-false : (a b : Bool) → (a || b) ≡ false → (a ≡ false) × (b ≡ false)
    or-false false b h = (refl, h)
    or-false true b h = absurd (cc h)

-- Where no end is open, each that was reported open was reported closed after that.
pub handle_all-closes :
    (r : Results) (xs : List ParseResult) (e : End) (before after : List ParseResult)
    → (handle_all r xs).open_ends ≡ []
    → xs ≡ before ++ open_end e.0 e.1 ∷ after
    → closes e after ≡ true
unfolding handle_all has_end
handle_all-closes r xs e before after none_open split = elim (Bool-cases (closes e after)) [
  | inl closed ↦ closed
  | inr not_closed ↦
      let opened : Results = handle (handle_all r before) (open_end e.0 e.1) in
      let stays : has_end e (handle_all opened after).open_ends ≡ true =
        handle_all-has_end e opened after (has_end-insert_self e (handle_all r before).open_ends)
          not_closed in
      let whole : handle_all r xs ≡ handle_all opened after =
        rw split (handle_all-append r before (open_end e.0 e.1 ∷ after)) in
      let ends : (handle_all opened after).open_ends ≡ [] = rw whole at none_open in
      let gone : has_end e [] ≡ true = rw ends at stays in cc
]
