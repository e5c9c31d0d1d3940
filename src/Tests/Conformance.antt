-- ===== src/Tests/Conformance.antt =====
-- The theorems on the conformance harness (utils/src/bin/conformance) at concrete inputs.
use mathlib.Core.List.{Memᴰ}
use beeper.Prelude.{
  ℕ, ◌≡◌, ◌≢◌, arith, ◌↔◌, refl, true, false, some, List, [], ◌∷◌, ◌++◌, All, codes, length,
}
use beeper.Run.{Run, returns, Ensures}
use beeper.Error.{Result, ok}
use beeper.Inject.{Rodata}
use beeper.Http2.{Parser}
use beeper.Http2.Actions.{Http2Action}
use beeper.Http2.Captures.{IsConfigured}
use beeper.Attach.{Program}
use beeper.Attach.Parsers.{attach_http2}
use beeper.Attach.Returning.{attach_http2-IsFine}
use beeper.Tests.Objects.{Object, remembering}
use beeper.Tests.Maps.{Table, update, freeze, nothing}
use beeper.Tests.Http2Loading.{programs_http2, opened_http2}
use beeper.Utils.{Frame, ParseResult, negsuc, open_end, close_end, frame, mark}
use beeper.Builder.Chains.{AreBytes}
use beeper.Conformance.Problems.{Problem, rejected}
use beeper.Conformance.Verdict.{Case, violation, Summary, check_case}
use beeper.Conformance.Fitting.{AlwaysCodes}
use beeper.Conformance.Passing.{Passes, check_case-Passes}
use beeper.Conformance.Cases.{cases, find_case}
use beeper.Conformance.Cases.Rejections.{violation_cases}
use beeper.Conformance.Cases.Finding.{all_ids, is_consistent, cases-Find}
use beeper.Conformance.Following.{End, Results, timeout, wait_closed}
use beeper.Conformance.Handling.{handle_all, frames_of, closes}
use beeper.Conformance.Waiting.{done, wait_closed-Complete}
use beeper.Conformance.Attaching.{CaseParser, case_names, attach}
use beeper.Conformance.Indexing.{Attached, attach-Attached}
use beeper.Conformance.Session.{Judged, passes, judge}
use beeper.Conformance.Commands.{judge-Passes}
use beeper.Tests.Names.{bare, plain, plain-EncodesBytes}

plain-AlwaysCodes : AlwaysCodes plain
plain-AlwaysCodes v = (v, refl)

-- two frames to be rejected, and what the program reports of them
abbrev broken : Case
broken = record { ids = codes "http2/6.2/1" ∷ []; expect = violation (rejected ∷ rejected ∷ []) }

abbrev rejected_frame : Frame
rejected_frame = record {
  client_port = 40000;
  upstream = false;
  ret = negsuc 70;
  sid = 1;
  frame_type = 1;
  flags = 0;
  captures = [];
}

abbrev broken_frames : List Frame
broken_frames = rejected_frame ∷ rejected_frame ∷ []

check_case-Passes_example :
    (problems : List Problem) × (summary : Summary) × (check_case plain
        (negsuc 70)
        (codes ":method" ∷ [])
        (codes "host")
        broken
        broken_frames
      ≡ returns (problems, summary))
    × ((problems ≡ [])
        ↔ Passes plain (negsuc 70) (codes ":method" ∷ []) (codes "host") broken broken_frames)
check_case-Passes_example =
    check_case-Passes plain plain-AlwaysCodes (negsuc 70) (codes ":method" ∷ []) (codes "host")
      broken broken_frames

abbrev first_case : Case
first_case = record {
  ids =
      codes "http2/4.3/2" ∷ codes "http2/6.2/1" ∷ codes "http2/6.10/2" ∷ codes "http2/6.10/3" ∷ [];
  expect = violation (rejected ∷ rejected ∷ []);
}

first_case-listed : Memᴰ first_case cases
unfolding cases violation_cases
first_case-listed = Memᴰ.head refl

cases-Find_example :
    (find_case (codes "http2/6.2/1") cases ≡ some first_case)
    × (is_consistent first_case.expect ≡ true)
    × (length (all_ids cases) ≡ 146)
cases-Find_example =
    cases-Find first_case (codes "http2/6.2/1") first_case-listed (Memᴰ.tail (Memᴰ.head refl))

abbrev idle : Results
idle = record { open_ends = []; frames = []; marked = false; closed = [] }

-- both ends of a connection open, a frame travels, the mark comes, and they close
abbrev reports : List ParseResult
reports =
    open_end 40000 true
    ∷ open_end 40000 false
    ∷ frame rejected_frame
    ∷ mark
    ∷ close_end 40000 false
    ∷ close_end 40000 true
    ∷ []

reports_settle : (handle_all (record idle { marked = false }) reports).open_ends ≡ []
unfolding handle_all
reports_settle = refl

wait_closed-Complete_example :
    (waited drained left : List ParseResult) × (final : Results) × (wait_closed true 1 timeout idle
        (reports ++ mark ∷ [])
      ≡ done final left)
    × (reports ++ mark ∷ [] ≡ waited ++ (drained ++ left))
    × (final ≡ handle_all (record idle { marked = false }) (waited ++ drained))
    × (final.frames ≡ idle.frames ++ frames_of (waited ++ drained))
    × ((e : End) (xs ys : List ParseResult)
        → waited ≡ xs ++ open_end e.0 e.1 ∷ ys
        → closes e ys ≡ true)
wait_closed-Complete_example = wait_closed-Complete idle reports (mark ∷ []) 1 refl reports_settle

broken_names : All (λ (n : List ℕ). AreBytes n × (n ≢ [])) (case_names broken)
unfolding case_names
broken_names = (
  (omega arith, λ e. cc),
  ((omega arith, λ e. cc), ((omega arith, λ e. cc), ((omega arith, λ e. cc), tt))),
)

-- the HTTP/2 parser, attached to the second program of an object that remembers what it is told
abbrev Attachment : Type 0
Attachment = Object (Rodata Http2Action) × List Program × Table × Unit {0}

abbrev load : Parser → Run (Result Attachment)
load p =
    attach_http2 (remembering (Rodata Http2Action)) (λ l. ok nothing) (λ l. ok tt) plain update
      freeze 7 programs_http2 p opened_http2

load-IsFine :
    (p : Parser) → IsConfigured plain p → Ensures (λ (a : Result Attachment). Unit {0}) (load p)
load-IsFine p configured =
    attach_http2-IsFine (remembering (Rodata Http2Action)) (λ l. ok nothing) (λ l. ok tt) plain
      update freeze 7 programs_http2 p opened_http2 configured.dfa

attach-Attached_example :
    Ensures (Attached plain load (case_names broken)) (attach load plain broken)
attach-Attached_example =
    attach-Attached load plain broken plain-EncodesBytes load-IsFine broken_names

abbrev some_parser : CaseParser Parser
some_parser = record { names = codes ":method" ∷ []; parser = bare }

judge-Passes_example :
    (j : Judged) × (waited drained : List ParseResult) × (judge plain
        (negsuc 70)
        (codes "host")
        broken
        some_parser
        true
        1
        timeout
        idle
        (reports ++ mark ∷ [])
      ≡ returns j)
    × (reports ++ mark ∷ [] ≡ waited ++ (drained ++ j.coming))
    × ((e : End) (xs ys : List ParseResult)
        → waited ≡ xs ++ open_end e.0 e.1 ∷ ys
        → closes e ys ≡ true)
    × ((passes j.reports ≡ true)
        ↔ Passes plain
            (negsuc 70)
            some_parser.names
            (codes "host")
            broken
            (frames_of (waited ++ drained)))
    × (j.results.frames ≡ [])
judge-Passes_example =
    judge-Passes plain plain-AlwaysCodes (negsuc 70) (codes "host") broken some_parser idle reports
      (mark ∷ []) 1 refl refl reports_settle
