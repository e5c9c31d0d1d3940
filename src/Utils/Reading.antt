-- ===== src/Utils/Reading.antt =====
-- What `ParseResult::read` of utils/src/test.rs yields.
use mathlib.Core.Path.{subst}
use beeper.Prelude.{
  ℕ, zero, suc, ◌+◌, ◌*◌, ◌/◌, ◌%◌, ◌^◌, ◌≤◌, ◌<◌, ◌≡◌, refl, Option, none, some, List, [], ◌∷◌,
  All, Bool-cases, inl, inr, length, ltb, ltb-false, nat_beq_iff, arith, nat_eq, ◌==◌,
  if◌then◌else◌,
}
use beeper.Utils.{
  result_val_len, result_matches, raw_size, take, drop, u32_at, Capture, ParseResult, open_end,
  close_end, frame, mark, capture_at, captures_from, read_frame, read_kind, read,
}

-- A captured value is as long as it was sent, cut at the size of its buffer.
abbrev pub IsWhole : Option Capture → Type 0
IsWhole none = Unit
IsWhole (some c) = length c.head ≡ (if ltb c.len result_val_len then c.len else result_val_len)

-- One capture for each match id, each of them whole, and numbers that fit their types.
abbrev pub HasCaptures : ParseResult → Type 0
HasCaptures (frame f) =
    (f.client_port < 2 ^ 16)
    × (f.frame_type < 256)
    × (f.flags < 256)
    × (length f.captures ≡ result_matches)
    × All IsWhole f.captures
HasCaptures (open_end client_port server) = client_port < 2 ^ 16
HasCaptures (close_end client_port server) = client_port < 2 ^ 16
HasCaptures mark = Unit

low-port : (n : ℕ) → n % 2 ^ 16 < 2 ^ 16
low-port n = omega arith

low-byte : (n : ℕ) → n % 256 < 256
low-byte n = omega arith

length-take : (n : ℕ) (xs : List ℕ) → n ≤ length xs → length (take n xs) ≡ n
unfolding take
length-take zero xs h = refl
length-take (suc n) [] h = absurd (omega arith)
length-take (suc n) (x ∷ xs) h = omega (arith, length-take n xs (omega arith))

length-drop : (n : ℕ) (xs : List ℕ) → n ≤ length xs → length (drop n xs) + n ≡ length xs
unfolding drop
length-drop zero xs h = omega arith
length-drop (suc n) [] h = absurd (omega arith)
length-drop (suc n) (x ∷ xs) h = omega (arith, length-drop n xs (omega arith))

abbrev capped : ℕ → ℕ
capped len = if ltb len result_val_len then len else result_val_len

capped-le : (len : ℕ) → capped len ≤ result_val_len
capped-le len = ground arith

module _ (bytes : List ℕ) (room : raw_size ≤ length bytes) where
  capture_at-IsWhole : (i : ℕ) → i < result_matches → IsWhole (capture_at bytes i)
  unfolding capture_at
  capture_at-IsWhole i hi = elim (Bool-cases ((u32_at bytes 28 / 2 ^ i) % 2 == 1)) [
    | inr absent ↦ rw absent tt
    | inl there ↦
        let rest : List ℕ = drop (160 + 128 * i) bytes in
        let long : length rest + (160 + 128 * i) ≡ length bytes =
          length-drop (160 + 128 * i) bytes (omega (arith, hi, room)) in
        let whole : length (take result_val_len rest) ≡ result_val_len =
          length-take result_val_len rest (omega (arith, hi, room)) in
        rw there (
          length-take (capped (u32_at bytes (32 + 4 * i))) (take result_val_len rest)
            (omega (arith, capped-le (u32_at bytes (32 + 4 * i)), whole)))
  ]

  captures_from-All :
      (i n : ℕ)
      → i + n ≤ result_matches
      → (length (captures_from bytes i n) ≡ n) × All IsWhole (captures_from bytes i n)
  unfolding captures_from
  captures_from-All i zero h = (refl, tt)
  captures_from-All i (suc n) h =
      let (size, rest) = captures_from-All (i + 1) n (omega arith) in
      (omega (arith, size), (capture_at-IsWhole i (omega arith), rest))

some-injective : {a b : ParseResult} → some a ≡ some b → a ≡ b
some-injective h = cc

read_kind-HasCaptures :
    (bytes : List ℕ) (kind : ℕ) (r : ParseResult)
    → raw_size ≤ length bytes
    → read_kind bytes kind ≡ some r
    → (kind ≤ 3) × HasCaptures r
unfolding read_kind read_frame
read_kind-HasCaptures bytes kind r room h = elim (Bool-cases (kind == 0)) [
  | inl is ↦
      let e : kind ≡ 0 = (nat_beq_iff kind 0).0 is in
      let same : some (open_end _ _) ≡ some r = rw e at h in
      (omega (arith, e), subst HasCaptures (some-injective same) (low-port (u32_at bytes 4)))
  | inr not_open ↦ elim (Bool-cases (kind == 1)) [
    | inl is ↦
        let e : kind ≡ 1 = (nat_beq_iff kind 1).0 is in
        let same : some (close_end _ _) ≡ some r = rw e at h in
        (omega (arith, e), subst HasCaptures (some-injective same) (low-port (u32_at bytes 4)))
    | inr not_close ↦ elim (Bool-cases (kind == 3)) [
      | inl is ↦
          let e : kind ≡ 3 = (nat_beq_iff kind 3).0 is in
          let same : some mark ≡ some r = rw e at h in
          (omega (arith, e), subst HasCaptures (some-injective same) tt)
      | inr not_mark ↦ elim (Bool-cases (kind == 2)) [
        | inl is ↦
            let e : kind ≡ 2 = (nat_beq_iff kind 2).0 is in
            let same : some (frame (read_frame bytes)) ≡ some r = rw e at h in
            (
              omega (arith, e),
              subst HasCaptures (some-injective same) (
                low-port (u32_at bytes 4),
                low-byte (u32_at bytes 20),
                low-byte (u32_at bytes 24),
                (captures_from-All bytes room 0 result_matches (omega arith)).0,
                (captures_from-All bytes room 0 result_matches (omega arith)).1,
              ),
            )
        | inr other ↦ absurd (cc (rw (not_open, not_close, not_mark, other) at h))
      ]
    ]
  ]
]

-- A result is only read off data that is as long as one, and of a known kind; a port that is read is
-- below 65536; and a frame that is read has a type and flags below 256, a capture or none for each of
-- the 32 match ids, and each captured value has the length it was sent with, or 128 bytes if it was
-- longer.
pub read-HasCaptures :
    (bytes : List ℕ) (r : ParseResult)
    → read bytes ≡ some r
    → (raw_size ≤ length bytes) × (u32_at bytes 0 ≤ 3) × HasCaptures r
unfolding read
read-HasCaptures bytes r h = elim (Bool-cases (ltb (length bytes) raw_size)) [
  | inl short ↦ absurd (cc (rw short at h))
  | inr long ↦
      let room : raw_size ≤ length bytes = ltb-false (length bytes) raw_size long in
      let (known, whole) = read_kind-HasCaptures bytes (u32_at bytes 0) r room (rw long at h) in
      (room, known, whole)
]
