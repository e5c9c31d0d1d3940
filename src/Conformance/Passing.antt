-- ===== src/Conformance/Passing.antt =====
-- A case passes just if what the parser reports is what the case sends, frame by frame and block by
-- block: `check` of utils/src/bin/conformance/main.rs against a description without counters,
-- indices and lists of problems.
use beeper.Prelude.{
  ℕ, suc, ◌+◌, ◌≤◌, ◌≡◌, ◌↔◌, ◌⊎◌, inl, inr, refl, ap, Bool, true, false, ◌||◌, Option, none, some,
  List, [], ◌∷◌, ◌++◌, map, nat_eq, ◌==◌, ltb, length, arith, All,
}
use beeper.Run.{returns}
use beeper.Utils.{ℤ, Frame, int_eq}
use beeper.Conformance.{ParsedBlock}
use beeper.Conformance.Fields.{Fields}
use beeper.Conformance.Judging.{requests_of, responses_of, problems_of, blocks-Sorted}
use beeper.Conformance.Problems.{
  Block, Problem, other_frame, request_count, check_request_pairs, check_requests, frame_count,
}
use beeper.Conformance.Violations.{seen_of, up_to_violation, check_frames, check_violation}
use beeper.Conformance.Verdict.{
  Case, Expect, blocks_sent, violation, sent_blocks, answers_of, closest, response_problems,
  connections, Summary, check_answers, check_response, check_responses, check_sent, check_case,
}
use beeper.Conformance.Counting.{
  is_rejected, limit, limit-cons, limit-empty, limit-nil, count_test, HasEmpty,
  response_problems-nil,
}
use beeper.Conformance.Fitting.{
  Judges, Judges-none, Judges-one, Judges-test, Judges-append, Judges-iff, Judges-fault, map-nil,
  ++-nil, AlwaysCodes, Carries, check-Judges, RequestFits, check_request-Judges, FrameFits,
  check_frame-Judges,
}

module _ (huffman : List ℕ → Option (List ℕ)) (eproto : ℤ) (names : List (List ℕ))
    (authority : List ℕ) where
  -- As many request blocks as were sent, each what it is to be.
  abbrev pub RequestsFit : List ParsedBlock → List Block → Type 0
  RequestsFit [] [] = Unit
  RequestsFit [] (b ∷ sent) = ⊥
  RequestsFit (p ∷ parsed) [] = ⊥
  RequestsFit (p ∷ parsed) (b ∷ sent) =
      RequestFits huffman eproto names authority p b p.error × RequestsFit parsed sent

  abbrev PairsFit : List ParsedBlock → List Block → Type 0
  PairsFit [] sent = Unit
  PairsFit (p ∷ parsed) [] = Unit
  PairsFit (p ∷ parsed) (b ∷ sent) =
      RequestFits huffman eproto names authority p b p.error × PairsFit parsed sent

  -- The frames that were seen are the first of those that were sent, up to a rejected one at least,
  -- and each is what it is to be.
  abbrev pub FramesFit : List Frame → List Block → Bool → Type 0
  FramesFit [] [] passed = Unit
  FramesFit [] (b ∷ sent) passed = passed ≡ true
  FramesFit (f ∷ seen) [] passed = ⊥
  FramesFit (f ∷ seen) (b ∷ sent) passed =
      FrameFits huffman eproto names authority f b × FramesFit seen sent (passed || is_rejected b)

  abbrev FramePairsFit : List Frame → List Block → Type 0
  FramePairsFit [] sent = Unit
  FramePairsFit (f ∷ seen) [] = Unit
  FramePairsFit (f ∷ seen) (b ∷ sent) =
      FrameFits huffman eproto names authority f b × FramePairsFit seen sent

  -- The block is one of the answers.
  abbrev pub AnswersFit : ParsedBlock → List Fields → Type 0
  AnswersFit parsed [] = ⊥
  AnswersFit parsed (f ∷ answers) = Carries huffman names parsed f ⊎ AnswersFit parsed answers

  abbrev pub ResponseFits : ParsedBlock → Option ℤ → List Fields → Type 0
  ResponseFits parsed (some e) answers = ⊥
  ResponseFits parsed none answers = AnswersFit parsed answers

  abbrev pub SentFits : Expect → List Frame → Type 0
  SentFits (blocks_sent sent) frames = RequestsFit (requests_of frames) sent
  SentFits (violation sent) frames = FramesFit (seen_of frames) sent false

  -- What the parser reports of a passing case.
  pub record Passes (c : Case) (frames : List Frame) : Type 0 where
    pub header_frames : problems_of frames ≡ []
    pub requests : SentFits c.expect frames
    pub responses :
        All
          (λ (p : ParsedBlock).
            ResponseFits p p.error (answers_of (sent_blocks c.expect) authority))
          (responses_of frames)

module _ (huffman : List ℕ → Option (List ℕ)) (codes_all : AlwaysCodes huffman) (eproto : ℤ)
    (names : List (List ℕ)) (authority : List ℕ) where
  check_request_pairs-Judges :
      (i : ℕ) (parsed : List ParsedBlock) (sent : List Block)
      → Judges
          (PairsFit huffman eproto names authority parsed sent)
          (check_request_pairs huffman eproto names authority i parsed sent)
  unfolding check_request_pairs
  check_request_pairs-Judges i [] sent = Judges-none tt
  check_request_pairs-Judges i (p ∷ parsed) [] = Judges-none tt
  check_request_pairs-Judges i (p ∷ parsed) (b ∷ sent) =
      Judges-append _ _
        (check_request-Judges huffman codes_all eproto names authority i p b p.error)
        (check_request_pairs-Judges (i + 1) parsed sent)

  pairs-RequestsFit :
      (parsed : List ParsedBlock) (sent : List Block)
      → ((length parsed ≡ length sent) × PairsFit huffman eproto names authority parsed sent)
        ↔ RequestsFit huffman eproto names authority parsed sent
  pairs-RequestsFit [] [] = (λ h. tt, λ h. (refl, tt))
  pairs-RequestsFit [] (b ∷ sent) = (λ h. omega (arith, h.0), λ h. absurd h)
  pairs-RequestsFit (p ∷ parsed) [] = (λ h. omega (arith, h.0), λ h. absurd h)
  pairs-RequestsFit (p ∷ parsed) (b ∷ sent) =
      let ih = pairs-RequestsFit parsed sent in
      (
        λ h. (h.1.0, ih.0 (omega (arith, h.0), h.1.1)),
        λ h. let r = ih.1 h.1 in (ap suc r.0, (h.0, r.1)),
      )

  check_requests-Judges :
      (sent : List Block) (parsed : List ParsedBlock)
      → Judges
          (RequestsFit huffman eproto names authority parsed sent)
          (check_requests huffman eproto names authority sent parsed)
  unfolding check_requests
  check_requests-Judges sent parsed = Judges-iff _ (pairs-RequestsFit parsed sent) (
      Judges-append _ (check_request_pairs huffman eproto names authority 0 parsed sent)
        (Judges-test (length parsed == length sent) (request_count (length parsed) (length sent))
          (nat_eq.beq_iff (length parsed) (length sent)))
        (check_request_pairs-Judges 0 parsed sent))

  check_frames-Judges :
      (i : ℕ) (seen : List Frame) (sent : List Block)
      → Judges
          (FramePairsFit huffman eproto names authority seen sent)
          (check_frames huffman eproto names authority i seen sent)
  unfolding check_frames
  check_frames-Judges i [] sent = Judges-none tt
  check_frames-Judges i (f ∷ seen) [] = Judges-none tt
  check_frames-Judges i (f ∷ seen) (b ∷ sent) =
      Judges-append _ _ (check_frame-Judges huffman codes_all eproto names authority i f b)
        (check_frames-Judges (i + 1) seen sent)

  pairs-FramesFit :
      (seen : List Frame) (sent : List Block) (passed : Bool)
      → (((limit passed sent ≤ length seen) × (length seen ≤ length sent))
          × FramePairsFit huffman eproto names authority seen sent)
        ↔ FramesFit huffman eproto names authority seen sent passed
  pairs-FramesFit [] [] passed = (λ h. tt, λ h. ((limit-nil passed, omega arith), tt))
  pairs-FramesFit [] (b ∷ sent) passed =
      let e = limit-empty passed b sent in (λ h. e.0 h.0.0, λ h. ((e.1 h, omega arith), tt))
  pairs-FramesFit (f ∷ seen) [] passed = (λ h. omega (arith, h.0), λ h. absurd h)
  pairs-FramesFit (f ∷ seen) (b ∷ sent) passed =
      let ih = pairs-FramesFit seen sent (passed || is_rejected b) in
      let e = limit-cons passed b sent (length seen) in
      (
        λ h. (h.1.0, ih.0 ((e.0 h.0.0, omega (arith, h.0)), h.1.1)),
        λ h. let r = ih.1 h.1 in ((e.1 r.0.0, omega (arith, r.0)), (h.0, r.1)),
      )

  check_violation-Judges :
      (sent : List Block) (frames : List Frame)
      → Judges
          (FramesFit huffman eproto names authority (seen_of frames) sent false)
          (check_violation huffman eproto names authority sent frames)
  unfolding check_violation limit
  check_violation-Judges sent frames =
      let seen : List Frame = seen_of frames in
      Judges-iff _ (pairs-FramesFit seen sent false) (
        Judges-append _ (check_frames huffman eproto names authority 0 seen sent)
          (Judges-fault
            (ltb (length seen) (up_to_violation sent) || ltb (length sent) (length seen))
            (frame_count (length seen) (length sent) (up_to_violation sent))
            (count_test (up_to_violation sent) (length seen) (length sent)))
          (check_frames-Judges 0 seen sent))

  check_answers-HasEmpty :
      (parsed : ParsedBlock) (answers : List Fields)
      → (ms : List (List (List ℕ))) × (check_answers huffman eproto names authority parsed answers
          ≡ returns ms)
        × (HasEmpty ms ↔ AnswersFit huffman eproto names authority parsed answers)
  unfolding check_answers
  check_answers-HasEmpty parsed [] = ([], refl, (λ h. h, λ h. h))
  check_answers-HasEmpty parsed (f ∷ answers) =
      let (m, run, clean) = check-Judges huffman codes_all names parsed f in
      let (ms, later, some_clean) = check_answers-HasEmpty parsed answers in
      (
        m ∷ ms,
        rw (run, later) refl,
        (
          λ h. elim h [ inl e ↦ inl (clean.0 e) | inr r ↦ inr (some_clean.0 r) ],
          λ h. elim h [ inl c ↦ inl (clean.1 c) | inr r ↦ inr (some_clean.1 r) ],
        ),
      )

  check_response-Judges :
      (i : ℕ) (parsed : ParsedBlock) (error : Option ℤ) (answers : List Fields)
      → Judges
          (ResponseFits huffman eproto names authority parsed error answers)
          (check_response huffman eproto names authority i parsed error answers)
  unfolding check_response
  check_response-Judges i parsed (some e) answers = Judges-one _ (λ h. h)
  check_response-Judges i parsed none answers =
      let (ms, run, has) = check_answers-HasEmpty parsed answers in
      let n = response_problems-nil i ms in
      (response_problems i (closest ms), rw run refl, (λ h. has.0 (n.0 h), λ h. n.1 (has.1 h)))

  check_responses-Judges :
      (i : ℕ) (responses : List ParsedBlock) (answers : List Fields)
      → Judges
          (All
            (λ (p : ParsedBlock). ResponseFits huffman eproto names authority p p.error answers)
            responses)
          (check_responses huffman eproto names authority i responses answers)
  unfolding check_responses
  check_responses-Judges i [] answers = Judges-none tt
  check_responses-Judges i (p ∷ responses) answers =
      Judges-append _ _ (check_response-Judges i p p.error answers)
        (check_responses-Judges (i + 1) responses answers)

  check_sent-Judges :
      (e : Expect) (frames : List Frame)
      → Judges
          (SentFits huffman eproto names authority e frames)
          (check_sent huffman eproto names authority e (requests_of frames) frames)
  unfolding check_sent
  check_sent-Judges (blocks_sent sent) frames = check_requests-Judges sent (requests_of frames)
  check_sent-Judges (violation sent) frames = check_violation-Judges sent frames

-- If every value can be Huffman coded, the harness judges every case, and it finds no problem just if
-- the case passes: no frame but HEADERS and CONTINUATION frames is reported; the request blocks are as
-- many as were sent, and each that was sent with fields is parsed and captured with these and with no
-- others, and each that was sent malformed makes the parser fail, not with `-EPROTO`; or, of a case
-- with a violation, the client's frames are the first of the listed ones, up to the first rejected one
-- at least, and each is captured with its fields or, if it is to be rejected, returned `-EPROTO`; and
-- each response block is parsed and carries what the server answers to one of the blocks sent.
pub check_case-Passes :
    (huffman : List ℕ → Option (List ℕ)) (codes_all : AlwaysCodes huffman) (eproto : ℤ)
    (names : List (List ℕ)) (authority : List ℕ) (c : Case) (frames : List Frame)
    → (problems : List Problem) × (summary : Summary) × (check_case huffman eproto names authority c
          frames
        ≡ returns (problems, summary))
      × ((problems ≡ []) ↔ Passes huffman eproto names authority c frames)
unfolding check_case
check_case-Passes huffman codes_all eproto names authority c frames =
    let (requests, responses, others, count) = blocks-Sorted frames in
    let (ps, run, fit) =
      check_sent-Judges huffman codes_all eproto names authority c.expect frames in
    let (qs, run', fit') =
      check_responses-Judges huffman codes_all eproto names authority 0 (responses_of frames)
        (answers_of (sent_blocks c.expect) authority) in
    let outer = ++-nil (map other_frame (problems_of frames)) (ps ++ qs) in
    let inner = ++-nil ps qs in
    let other = map-nil other_frame (problems_of frames) in
    (
      map other_frame (problems_of frames) ++ (ps ++ qs),
      record {
        requests = length (requests_of frames);
        responses = length (responses_of frames);
        conns = length (connections (requests_of frames));
      },
      rw (requests, responses, others, run, run') refl,
      (
        λ h.
            let (h₁, h₂) = outer.0 h in
            let (h₃, h₄) = inner.0 h₂ in
            record { header_frames = other.0 h₁; requests = fit.0 h₃; responses = fit'.0 h₄ },
        λ p. outer.1 (other.1 p.header_frames, inner.1 (fit.1 p.requests, fit'.1 p.responses)),
      ),
    )
