-- ===== src/Conformance/Commands.antt =====
-- A `check` after a `case` judges what was reported in between: the commands of the conformance harness
-- (`main` in utils/src/bin/conformance/main.rs).
use beeper.Prelude.{
  ℕ, ◌≡◌, ◌↔◌, refl, sym, ap, ◌∙◌, Bool, true, false, Option, none, some, List, [], ◌∷◌, ◌++◌, map,
  bytes_eq,
}
use beeper.Http2.{Parser}
use beeper.Run.{Run, returns, >>=-eq-returns}
use beeper.Utils.{ℤ, Frame, ParseResult, open_end}
use beeper.Conformance.Problems.{Problem}
use beeper.Conformance.Verdict.{Case}
use beeper.Conformance.Fitting.{AlwaysCodes}
use beeper.Conformance.Passing.{Passes, check_case-Passes}
use beeper.Conformance.Attaching.{CaseParser, attach}
use beeper.Conformance.Following.{End, Results, Ending, timeout, Failure, sync, Waited, take_frames}
use beeper.Conformance.Handling.{handle_all, has_mark, frames_of, closes}
use beeper.Conformance.Waiting.{done, wait_closed-Complete}
use beeper.Conformance.Cases.{cases, find_case}
use beeper.Error.{Result, ok, err}
use beeper.Conformance.Session.{
  Session, go_on, start_case, start_found, start_attached, start_synced, problem, Judged, passes,
  judge_waited, judge,
}

passes-map : (problems : List Problem) → (passes (map problem problems) ≡ true) ↔ (problems ≡ [])
passes-map [] = (λ h. refl, λ h. refl)
passes-map (p ∷ problems) = (λ h. absurd (cc h), λ h. absurd (cc h))

judge_done :
    {P : Type 0} (huffman : List ℕ → Option (List ℕ)) (codes_all : AlwaysCodes huffman) (eproto : ℤ)
    (authority : List ℕ) (c : Case) (p : CaseParser P) (final : Results) (left : List ParseResult)
    → (j : Judged) × (judge_waited huffman eproto authority c p (done final left) none ≡ returns j)
      × ((passes j.reports ≡ true) ↔ Passes huffman eproto p.names authority c final.frames)
      × (j.results.frames ≡ [])
      × (j.coming ≡ left)
unfolding judge_waited take_frames
judge_done huffman codes_all eproto authority c p final left =
    let (problems, summary, run, clean) =
      check_case-Passes huffman codes_all eproto p.names authority c final.frames in
    let shown = passes-map problems in
    (
      record {
        reports = map problem problems;
        summary = some summary;
        results = (take_frames final).1;
        coming = left;
      },
      rw run refl,
      (λ h. clean.0 (shown.0 h), λ h. shown.1 (clean.1 h)),
      refl,
      refl,
    )

-- Every value can be Huffman coded, a parser is attached for a case, and no frame is left from before; the
-- mark comes back among reports after which no end is open, and the program goes on. Then the
-- harness gives a verdict: it reads a first part of the reports, in which each end that opens also
-- closes, and some of the reports behind it, and it passes the case just if the frames in what it read are those of a passing
-- case. It keeps no frame, and leaves the other reports.
pub judge-Passes :
    {P : Type 0} (huffman : List ℕ → Option (List ℕ)) (codes_all : AlwaysCodes huffman) (eproto : ℤ)
    (authority : List ℕ) (c : Case) (p : CaseParser P) (r : Results)
    (before after : List ParseResult) (ready : ℕ)
    → r.frames ≡ []
    → has_mark before ≡ true
    → (handle_all (record r { marked = false }) before).open_ends ≡ []
    → (j : Judged) × (waited drained : List ParseResult) × (judge huffman eproto authority c p true
          ready timeout r
          (before ++ after)
        ≡ returns j)
      × (before ++ after ≡ waited ++ (drained ++ j.coming))
      × ((e : End) (xs ys : List ParseResult)
          → waited ≡ xs ++ open_end e.0 e.1 ∷ ys
          → closes e ys ≡ true)
      × ((passes j.reports ≡ true)
          ↔ Passes huffman eproto p.names authority c (frames_of (waited ++ drained)))
      × (j.results.frames ≡ [])
unfolding judge
judge-Passes huffman codes_all eproto authority c p r before after ready nothing_left marks
      settles =
    let (waited, drained, left, final, wait, split, handled, frames, closed) =
      wait_closed-Complete r before after ready marks settles in
    let (j, run, fit, empty, coming) =
      judge_done huffman codes_all eproto authority c p final left in
    let read : final.frames ≡ frames_of (waited ++ drained) =
      frames ∙ ap (λ (t : List Frame). t ++ frames_of (waited ++ drained)) nothing_left in
    (j, waited, drained, rw wait run, rw coming split, closed, rw read at fit, empty)

start_synced-Fresh :
    {P : Type 0} (c : Case) (p : CaseParser P) (w : Waited) (o : Option Failure) (s' : Session P)
    (coming' : List ParseResult)
    → start_synced c p w o ≡ go_on tt s' coming'
    → (s'.current ≡ some (c, p)) × (s'.results.frames ≡ []) × (s'.results.closed ≡ [])
unfolding start_synced take_frames
start_synced-Fresh {P} c p w (some f) s' coming' run = absurd (cc run)
start_synced-Fresh {P} c p w none s' coming' run =
    let fresh : Session P = record {
      current = some (c, p);
      results = record (take_frames w.results).1 { closed = [] };
    } in
    let e : fresh ≡ s' = cc in
    (
      sym (ap (λ (t : Session P). t.current) e),
      sym (ap (λ (t : Session P). t.results.frames) e),
      sym (ap (λ (t : Session P). t.results.closed) e),
    )

attached-Fresh :
    {P : Type 0} (c : Case) (can_mark : Bool) (ending : Ending) (r : Results)
    (coming : List ParseResult) (a : Result (CaseParser P)) (s' : Session P)
    (coming' : List ParseResult)
    → start_attached c can_mark ending r coming a ≡ go_on tt s' coming'
    → (p : CaseParser P) × (a ≡ ok p)
      × (s'.current ≡ some (c, p))
      × (s'.results.frames ≡ [])
      × (s'.results.closed ≡ [])
unfolding start_attached
attached-Fresh c can_mark ending r coming (err e) s' coming' run = absurd (cc run)
attached-Fresh c can_mark ending r coming (ok p) s' coming' run =
    let w : Waited = sync can_mark ending r coming in
    let (current, frames, closed) = start_synced-Fresh c p w w.failure s' coming' run in
    (p, refl, current, frames, closed)

found-Fresh :
    {P : Type 0} (load : Parser → Run (Result P)) (huffman : List ℕ → Option (List ℕ))
    (can_mark : Bool) (ending : Ending) (r : Results) (coming : List ParseResult) (o : Option Case)
    (s' : Session P) (coming' : List ParseResult)
    → start_found load huffman can_mark ending r coming o ≡ returns (go_on tt s' coming')
    → (c : Case) × (p : CaseParser P) × (o ≡ some c)
      × (attach load huffman c ≡ returns (ok p))
      × (s'.current ≡ some (c, p))
      × (s'.results.frames ≡ [])
      × (s'.results.closed ≡ [])
unfolding start_found
found-Fresh load huffman can_mark ending r coming none s' coming' run = absurd (cc run)
found-Fresh load huffman can_mark ending r coming (some c) s' coming' run =
    let (a, attached, rest) = >>=-eq-returns (attach load huffman c) _ run in
    let (p, same, current, frames, closed) =
      attached-Fresh c can_mark ending r coming a s' coming' (cc) in
    (c, p, refl, rw same at attached, current, frames, closed)

-- If the command `case` goes on, the parser of the case that is listed under the id is attached, and
-- no frame and no closed end is left from the case before, whatever was still to come of it.
pub start_case-Fresh :
    {P : Type 0} (load : Parser → Run (Result P)) (huffman : List ℕ → Option (List ℕ)) (id : List ℕ)
    (can_mark : Bool) (ending : Ending) (s s' : Session P) (coming coming' : List ParseResult)
    → start_case load huffman id can_mark ending s coming ≡ returns (go_on tt s' coming')
    → (c : Case) × (p : CaseParser P) × (find_case id cases ≡ some c)
      × (attach load huffman c ≡ returns (ok p))
      × (s'.current ≡ some (c, p))
      × (s'.results.frames ≡ [])
      × (s'.results.closed ≡ [])
unfolding start_case
start_case-Fresh load huffman id can_mark ending s s' coming coming' run =
    found-Fresh load huffman can_mark ending s.results coming (find_case id cases) s' coming' run
