-- ===== src/Conformance/Judging.antt =====
-- What the conformance harness accepts (utils/src/bin/conformance/main.rs).
use mathlib.Core.List.{append-nil, append_assoc}
use beeper.Prelude.{
  ℕ, ◌+◌, zero, suc, ◌<◌, ◌≡◌, refl, ap, sym, ◌⊎◌, inl, inr, Option, some, List, [], ◌∷◌, ◌++◌,
  Bool, true, not, ◌&&◌, ◌||◌, Bool-cases, arith, nat_eq, ◌==◌, length, if◌then◌else◌,
}
use beeper.Run.{returns}
use beeper.Utils.{Capture, Frame, take, result_val_len}
use beeper.Conformance.{
  headers, continuation, ParsedBlock, parsed_block, Blocks, sort_frame, blocks_from, blocks, value,
  starts_with, matches_sent, matches_value, matches,
}

starts_with-take : (n : ℕ) (xs : List ℕ) → starts_with xs (take n xs) ≡ true
unfolding starts_with take
starts_with-take zero xs = refl
starts_with-take (suc n) [] = refl
starts_with-take (suc n) (x ∷ xs) = ground (arith, starts_with-take n xs)

-- What the parser reports of a value that was sent: its length and its first bytes; or, of one that
-- it kept in the dynamic table, those bytes only.
abbrev pub reported : List ℕ → Capture
reported sent = record { len = length sent; head = take result_val_len sent }

abbrev pub reported_cut : List ℕ → Capture
reported_cut sent = record { len = result_val_len; head = take result_val_len sent }

matches_sent-reported : (sent : List ℕ) → matches_sent (reported sent) sent ≡ true
unfolding matches_sent
matches_sent-reported sent = ground (arith, starts_with-take result_val_len sent)

matches_sent-cut :
    (sent : List ℕ) → result_val_len < length sent → matches_sent (reported_cut sent) sent ≡ true
unfolding matches_sent
matches_sent-cut sent h = ground (arith, h, starts_with-take result_val_len sent)

or_true : (b : Bool) → (b || true) ≡ true
or_true b = ground arith

-- A value that can be Huffman coded is recognised in whichever form it was sent, reported in full or,
-- if that form is longer than 128 bytes, cut to them.
pub matches-reported :
    (huffman : List ℕ → Option (List ℕ)) (v coded sent : List ℕ) (c : Capture)
    → huffman v ≡ some coded
    → (sent ≡ v) ⊎ (sent ≡ coded)
    → (c ≡ reported sent) ⊎ ((result_val_len < length sent) × (c ≡ reported_cut sent))
    → matches huffman (value v) (some c) ≡ returns true
unfolding matches matches_value
matches-reported huffman v coded sent c code form report =
    let hit : matches_sent c sent ≡ true = elim report [
      | inl full ↦ rw full (matches_sent-reported sent)
      | inr (long, short) ↦ rw short (matches_sent-cut sent long)
    ] in
    elim form [
      | inl e ↦ let plain : matches_sent c v ≡ true = rw e at hit in rw (code, plain) refl
      | inr e ↦
          let second : matches_sent c coded ≡ true = rw e at hit in
          rw (code, second) (ap returns (or_true (matches_sent c v)))
    ]

-- The frames of one kind, in order.
abbrev is_problem : Frame → Bool
is_problem f = not (f.frame_type == headers) && not (f.frame_type == continuation)

unfoldable pub requests_of : List Frame → List ParsedBlock
requests_of [] = []
requests_of (f ∷ fs) =
    let rest = requests_of fs in
    if is_problem f then rest else if f.upstream then rest else parsed_block f ∷ rest

unfoldable pub responses_of : List Frame → List ParsedBlock
responses_of [] = []
responses_of (f ∷ fs) =
    let rest = responses_of fs in
    if is_problem f then rest else if f.upstream then parsed_block f ∷ rest else rest

unfoldable pub problems_of : List Frame → List Frame
problems_of [] = []
problems_of (f ∷ fs) = let rest = problems_of fs in if is_problem f then f ∷ rest else rest

length-kinds :
    (fs : List Frame)
    → length (requests_of fs) + length (responses_of fs) + length (problems_of fs) ≡ length fs
unfolding requests_of responses_of problems_of
length-kinds [] = refl
length-kinds (f ∷ fs) = elim (Bool-cases (is_problem f)) [
  | inl bad ↦ rw bad (omega (arith, length-kinds fs))
  | inr good ↦ elim (Bool-cases f.upstream) [
    | inl up ↦ rw (good, up) (omega (arith, length-kinds fs))
    | inr down ↦ rw (good, down) (omega (arith, length-kinds fs))
  ]
]

-- Two appends in a row, as one.
appended :
    {A : Type 0} (zs us vs : List A) {xs ys ws : List A}
    → xs ≡ ys ++ zs
    → ys ≡ us ++ vs
    → ws ≡ vs ++ zs
    → xs ≡ us ++ ws
appended zs us vs h k l = rw (h, k, l) (append_assoc us vs zs)

-- The three lists so far, with those of more frames behind them.
abbrev Sorted : Blocks → List Frame → Blocks → Type 0
Sorted b fs b' =
    (b'.requests ≡ b.requests ++ requests_of fs)
    × (b'.responses ≡ b.responses ++ responses_of fs)
    × (b'.problems ≡ b.problems ++ problems_of fs)

sort_frame-Sorted : (b : Blocks) (f : Frame) → Sorted b (f ∷ []) (sort_frame f b)
unfolding sort_frame requests_of responses_of problems_of
sort_frame-Sorted b f = elim (Bool-cases (is_problem f)) [
  | inl bad ↦ rw bad (sym (append-nil b.requests), sym (append-nil b.responses), refl)
  | inr good ↦ elim (Bool-cases f.upstream) [
    | inl up ↦ rw (good, up) (sym (append-nil b.requests), refl, sym (append-nil b.problems))
    | inr down ↦ rw (good, down) (refl, sym (append-nil b.responses), sym (append-nil b.problems))
  ]
]

kinds-cons :
    (f : Frame) (fs : List Frame)
    → (requests_of (f ∷ fs) ≡ requests_of (f ∷ []) ++ requests_of fs)
      × (responses_of (f ∷ fs) ≡ responses_of (f ∷ []) ++ responses_of fs)
      × (problems_of (f ∷ fs) ≡ problems_of (f ∷ []) ++ problems_of fs)
unfolding requests_of responses_of problems_of
kinds-cons f fs = elim (Bool-cases (is_problem f)) [
  | inl bad ↦ rw bad (refl, refl, refl)
  | inr good ↦ elim (Bool-cases f.upstream) [
    | inl up ↦ rw (good, up) (refl, refl, refl)
    | inr down ↦ rw (good, down) (refl, refl, refl)
  ]
]

blocks_from-Sorted : (b : Blocks) (fs : List Frame) → Sorted b fs (blocks_from b fs)
unfolding blocks_from requests_of responses_of problems_of
blocks_from-Sorted b [] =
    (sym (append-nil b.requests), sym (append-nil b.responses), sym (append-nil b.problems))
blocks_from-Sorted b (f ∷ fs) =
    let (q, r, p) = blocks_from-Sorted (sort_frame f b) fs in
    let (q', r', p') = sort_frame-Sorted b f in
    let (q'', r'', p'') = kinds-cons f fs in
    (appended _ _ _ q q' q'', appended _ _ _ r r' r'', appended _ _ _ p p' p'')

-- Sorting the frames gives the blocks of the requests, those of the responses and the frames that are no
-- part of a header block, each in the order in which the frames came; every frame is in one of them.
pub blocks-Sorted :
    (fs : List Frame)
    → ((blocks fs).requests ≡ requests_of fs)
      × ((blocks fs).responses ≡ responses_of fs)
      × ((blocks fs).problems ≡ problems_of fs)
      × (length (blocks fs).requests + length (blocks fs).responses + length (blocks fs).problems
          ≡ length fs)
unfolding blocks
blocks-Sorted fs =
    let (q, r, p) =
      blocks_from-Sorted (record { requests = []; responses = []; problems = [] }) fs in
    (q, r, p, rw (q, r, p) (length-kinds fs))
