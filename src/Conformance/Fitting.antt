-- ===== src/Conformance/Fitting.antt =====
-- What the parts of a passing case look like, and that the checks of the conformance harness
-- (utils/src/bin/conformance/main.rs) find a problem just where they do not look so. `Judges P m` says
-- that `m` returns, and with no problem just if `P`.
use beeper.Prelude.{
  ℕ, ◌+◌, ◌≡◌, ◌≢◌, ◌↔◌, inl, inr, refl, Bool, true, false, not, ◌||◌, Bool-cases, Option, none,
  some, List, [], ◌∷◌, ◌++◌, map, nat_eq, bytes_eq, ◌==◌, if◌then◌else◌, arith,
}
use beeper.Run.{Run, returns, ◌>>=◌}
use beeper.Map.{lookup}
use beeper.Utils.{ℤ, Capture, Frame, int_eq}
use beeper.Conformance.{
  ParsedBlock, Expected, absent, value, raw, matches, matches_value, matches_sent,
}
use beeper.Conformance.Fields.{Fields, expected_fields}
use beeper.Conformance.Checking.{
  or_absent, capture_of, name_of, is_expected, check_from, check, check-Clean,
}
use beeper.Conformance.Problems.{Block, fields, malformed, rejected, check_request}
use beeper.Conformance.Violations.{is_negative, read_block, check_frame}

abbrev pub Judges {ℓ} : {A : Type 0} → Type ℓ → Run (List A) → Type ℓ
Judges {A = A} P m = (problems : List A) × (m ≡ returns problems) × ((problems ≡ []) ↔ P)

pub ++-nil : {A : Type 0} (xs ys : List A) → (xs ++ ys ≡ []) ↔ ((xs ≡ []) × (ys ≡ []))
++-nil [] ys = (λ h. (refl, h), λ h. h.1)
++-nil (x ∷ xs) ys = (λ h. absurd (cc h), λ h. absurd (cc (h.0)))

pub map-nil : {A B : Type 0} (f : A → B) (xs : List A) → (map f xs ≡ []) ↔ (xs ≡ [])
map-nil f [] = (λ h. refl, λ h. refl)
map-nil f (x ∷ xs) = (λ h. absurd (cc h), λ h. absurd (cc h))

pub Judges-none : {A : Type 0} {P : Type 0} → P → Judges {A = A} P (returns [])
Judges-none p = ([], refl, (λ h. p, λ h. refl))

pub Judges-one : {A : Type 0} {P : Type 0} (a : A) → (P → ⊥) → Judges {A = A} P (returns (a ∷ []))
Judges-one a no_p = (a ∷ [], refl, (λ h. absurd (cc h), λ p. absurd (no_p p)))

pub Judges-test :
    {A : Type 0} {P : Type 0} (b : Bool) (a : A)
    → ((b ≡ true) ↔ P)
    → Judges {A = A} P (returns (if b then [] else a ∷ []))
Judges-test true a h = Judges-none (h.0 refl)
Judges-test false a h = Judges-one a (λ p. cc (h.1 p))

pub Judges-fault :
    {A : Type 0} {P : Type 0} (b : Bool) (a : A)
    → ((b ≡ false) ↔ P)
    → Judges {A = A} P (returns (if b then a ∷ [] else []))
Judges-fault true a h = Judges-one a (λ p. cc (h.1 p))
Judges-fault false a h = Judges-none (h.0 refl)

pub Judges-append :
    {A : Type 0} {P Q : Type 0} (m n : Run (List A))
    → Judges P m
    → Judges Q n
    → Judges (P × Q) (m >>= (λ xs. n >>= (λ ys. returns (xs ++ ys))))
Judges-append m n (xs, hm, p) (ys, hn, q) = (
  xs ++ ys,
  rw (hm, hn) refl,
  (
    λ h. let (hx, hy) = (++-nil xs ys).0 h in (p.0 hx, q.0 hy),
    λ h. (++-nil xs ys).1 (p.1 h.0, q.1 h.1),
  ),
)

pub Judges-map :
    {A B : Type 0} {P : Type 0} (f : A → B) (m : Run (List A))
    → Judges P m
    → Judges P (m >>= (λ xs. returns (map f xs)))
Judges-map f m (xs, hm, p) =
    (map f xs, rw hm refl, (λ h. p.0 ((map-nil f xs).0 h), λ h. (map-nil f xs).1 (p.1 h)))

pub Judges-iff : {A : Type 0} {P Q : Type 0} (m : Run (List A)) → (P ↔ Q) → Judges P m → Judges Q m
Judges-iff m h (xs, hm, p) = (xs, hm, (λ e. h.0 (p.0 e), λ q. p.1 (h.1 q)))

module _ (huffman : List ℕ → Option (List ℕ)) (names : List (List ℕ)) where
  -- The block carries these of the captured fields with these values, and none of the others.
  abbrev pub Carries : ParsedBlock → Fields → Type 0
  Carries block fs =
      (mid : ℕ) (name : List ℕ)
      → name_of names mid ≡ some name
      → matches huffman (or_absent (lookup name fs)) (capture_of block.captures mid) ≡ returns true

module _ (huffman : List ℕ → Option (List ℕ)) (eproto : ℤ) (names : List (List ℕ))
    (authority : List ℕ) where
  -- A request block, of which the parser reports this error, is what a block that was sent is to be.
  abbrev pub RequestFits : ParsedBlock → Block → Option ℤ → Type 0
  RequestFits parsed rejected error = ⊥
  RequestFits parsed malformed none = ⊥
  RequestFits parsed malformed (some e) = e ≢ eproto
  RequestFits parsed (fields sent) (some e) = ⊥
  RequestFits parsed (fields sent) none =
      Carries huffman names parsed (expected_fields sent authority)

  -- A request frame is what a block or a rejected frame of a violation is to be.
  abbrev pub FrameFits : Frame → Block → Type 0
  FrameFits f rejected = f.ret ≡ eproto
  FrameFits f malformed = ⊥
  FrameFits f (fields sent) =
      (is_negative f.ret ≡ false)
      × Carries huffman names (read_block f) (expected_fields sent authority)

-- Every value has a Huffman code.
abbrev pub AlwaysCodes : (List ℕ → Option (List ℕ)) → Type 0
AlwaysCodes huffman = (v : List ℕ) → (coded : List ℕ) × (huffman v ≡ some coded)

module _ (huffman : List ℕ → Option (List ℕ)) (codes_all : AlwaysCodes huffman)
    (names : List (List ℕ)) where
  matches_total :
      (e : Expected) (c : Option Capture) → (b : Bool) × (matches huffman e c ≡ returns b)
  unfolding matches matches_value
  matches_total absent none = (true, refl)
  matches_total absent (some c) = (false, refl)
  matches_total (value v) none = (false, refl)
  matches_total (raw r) none = (false, refl)
  matches_total (raw r) (some c) = (_, refl)
  matches_total (value v) (some c) =
      let (coded, h) = codes_all v in (matches_sent c v || matches_sent c coded, rw h refl)

  check_from_total :
      (block : ParsedBlock) (fs : Fields) (mid : ℕ) (rest : List (List ℕ))
      → (problems : List (List ℕ)) × (check_from huffman block fs mid rest ≡ returns problems)
  unfolding check_from is_expected
  check_from_total block fs mid [] = ([], refl)
  check_from_total block fs mid (name ∷ rest) =
      let (fine, test) =
        matches_total (or_absent (lookup name fs)) (capture_of block.captures mid) in
      let (problems, later) = check_from_total block fs (mid + 1) rest in
      (if fine then problems else name ∷ problems, rw (test, later) refl)

  check_total :
      (block : ParsedBlock) (fs : Fields)
      → (problems : List (List ℕ)) × (check huffman block fs names ≡ returns problems)
  unfolding check
  check_total block fs = check_from_total block fs 0 names

  pub check-Judges :
      (block : ParsedBlock) (fs : Fields)
      → Judges (Carries huffman names block fs) (check huffman block fs names)
  check-Judges block fs =
      let (problems, whole) = check_total block fs in
      let clean = check-Clean huffman block fs names in
      (
        problems,
        whole,
        (
          λ none_left. clean.0 (rw none_left at whole),
          λ carries. let e : returns problems ≡ returns [] = rw whole at (clean.1 carries) in cc,
        ),
      )

module _ (huffman : List ℕ → Option (List ℕ)) (codes_all : AlwaysCodes huffman) (eproto : ℤ)
    (names : List (List ℕ)) (authority : List ℕ) where
  not_eproto : (e : ℤ) → (not (e == eproto) ≡ true) ↔ (e ≢ eproto)
  not_eproto e = ground (arith, int_eq.beq_iff e eproto)

  pub check_request-Judges :
      (i : ℕ) (parsed : ParsedBlock) (b : Block) (error : Option ℤ)
      → Judges
          (RequestFits huffman eproto names authority parsed b error)
          (check_request huffman eproto names authority i parsed b error)
  unfolding check_request
  check_request-Judges i parsed rejected error = Judges-one _ (λ h. h)
  check_request-Judges i parsed malformed none = Judges-one _ (λ h. h)
  check_request-Judges i parsed malformed (some e) =
      Judges-test (not (e == eproto)) _ (not_eproto e)
  check_request-Judges i parsed (fields sent) (some e) = Judges-one _ (λ h. h)
  check_request-Judges i parsed (fields sent) none =
      Judges-map _ _ (check-Judges huffman codes_all names parsed (expected_fields sent authority))

  pub check_frame-Judges :
      (i : ℕ) (f : Frame) (b : Block)
      → Judges
          (FrameFits huffman eproto names authority f b)
          (check_frame huffman eproto names authority i f b)
  unfolding check_frame
  check_frame-Judges i f rejected = Judges-test (f.ret == eproto) _ (int_eq.beq_iff f.ret eproto)
  check_frame-Judges i f malformed = Judges-one _ (λ h. h)
  check_frame-Judges i f (fields sent) = elim (Bool-cases (is_negative f.ret)) [
    | inl failed ↦ rw failed (Judges-one _ (λ h. cc (h.0)))
    | inr parsed ↦ rw parsed (
        Judges-iff _ (λ c. (refl, c), λ h. h.1)
          (Judges-map _ _
            (check-Judges huffman codes_all names (read_block f) (expected_fields sent authority))))
  ]
