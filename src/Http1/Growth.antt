-- ===== src/Http1/Growth.antt =====
-- Every pattern of the HTTP/1.1 parser (beeper/src/http1/parser.rs) only adds to the DFA.
use beeper.Prelude.{ℕ, ◌≡◌, List, ◌⊎◌, inl, inr, true, false, bytes_eq, arith, codes, All}
use beeper.Run.{Run, returns, ◌>>=◌, Ensures, Ensures-returns, Ensures-bind, Ensures-mono}
use beeper.Error.{MatchId, method, path}
use beeper.Dfa.{Dfa, init_state, any_state}
use beeper.Dfa.Extends.{IsValid, Extends-refl, Extends-trans}
use beeper.Builder.{DfaBuilder, start_pattern, push_optional}
use beeper.Builder.Patterns.{included, unbounded, restart_with}
use beeper.Builder.Sound.{AreInputs}
use beeper.Builder.Chains.{
  AreBytes, AreBytes-AreInputs, Pattern, Grown, Pattern-start, Pattern-restart, Pattern-Grown,
  Pattern-optional, push-chain, push_ci-chain, with_action-chain, push_any-chain,
  push_options_ci-chain, with_action-last, restart_with-chain,
}
use beeper.Http1.{
  cr, lf, tab, space, methods, header_start, header_value, build_header, request_line_end,
  build_method, build_path, build_status_line, build_status_code, build_preface, preface, Parser,
  done_on_hdr_end,
}
use beeper.Http1.Actions.{Action, done, start_capture, end_capture, end_capture_and_done, action_eq}

lf_inputs : AreInputs lf
lf_inputs = omega arith

restart_end :
    {d : Dfa Action} {b : DfaBuilder Action}
    → Pattern d b
    → Ensures (Grown d) (restart_with (push_optional b cr false) lf >>= (λ b'. returns b'.dfa))
restart_end {d} h =
    restart_with-chain (Pattern-optional cr false h (omega arith)) lf lf_inputs (λ e. cc)
      (λ b k. Ensures-returns (Grown d) b.dfa (Pattern-Grown k))

request_line_end-Grown :
    {d : Dfa Action} {b : DfaBuilder Action} → Pattern d b → Ensures (Grown d) (request_line_end b)
unfolding request_line_end
request_line_end-Grown h = push_ci-chain h (codes " HTTP/1.1") (omega arith) (λ b k. restart_end k)

methods_inputs : All AreInputs methods
methods_inputs = omega arith

-- What a pattern does to a valid DFA, for any match id.
abbrev pub Builds : (Dfa Action → MatchId → Run (Dfa Action)) → Type 0
Builds build = (d : Dfa Action) (mid : MatchId) → IsValid d → Ensures (Grown d) (build d mid)

at_init : (d : Dfa Action) → IsValid d → Pattern d (start_pattern d init_state)
at_init d v = Pattern-start d init_state v (omega (arith, v.reserved))

at_any : (d : Dfa Action) → IsValid d → Pattern d (start_pattern d any_state)
at_any d v = Pattern-start d any_state v (omega (arith, v.reserved))

pub build_method-Builds : Builds build_method
unfolding build_method
build_method-Builds d mid v = with_action-chain (at_init d v) (start_capture mid) λ b₁ h₁.
    push_options_ci-chain h₁ methods methods_inputs λ b₂ h₂.
      with_action-chain h₂ (end_capture mid) λ b₃ h₃.
        push-chain h₃ space (omega arith)
          λ b₄ h₄. push_any-chain h₄ (included 1) unbounded λ b₅ h₅. request_line_end-Grown h₅

pub build_path-Builds : Builds build_path
unfolding build_path
build_path-Builds d mid v = push_options_ci-chain (at_init d v) methods methods_inputs λ b₁ h₁.
    push-chain h₁ space (omega arith) λ b₂ h₂. with_action-chain h₂ (start_capture mid) λ b₃ h₃.
      push_any-chain h₃ (included 1) unbounded
        λ b₄ h₄. with_action-chain h₄ (end_capture mid) λ b₅ h₅. request_line_end-Grown h₅

pub build_status_code-Builds : Builds build_status_code
unfolding build_status_code
build_status_code-Builds d mid v =
    push_ci-chain (at_init d v) (codes "HTTP/1.1 ") (omega arith) λ b₁ h₁.
      with_action-chain h₁ (start_capture mid) λ b₂ h₂.
        push_any-chain h₂ (included 3) (included 3) λ b₃ h₃.
          with_action-chain h₃ (end_capture mid)
            λ b₄ h₄. push_any-chain h₄ (included 1) unbounded λ b₅ h₅. restart_end h₅

pub build_preface-Builds : Builds build_preface
unfolding build_preface
build_preface-Builds d mid v = with_action-chain (at_init d v) (start_capture mid) λ b₁ h₁.
    push-chain h₁ preface (omega arith) λ b₂ h₂.
      with_action-chain h₂ (end_capture_and_done mid)
        λ b₃ h₃. Ensures-returns (Grown d) b₃.dfa (Pattern-Grown h₃)

with_blanks :
    {d : Dfa Action} {b : DfaBuilder Action}
    → Pattern d b
    → Pattern d (push_optional (push_optional b tab true) space true)
with_blanks h =
    Pattern-optional space true (Pattern-optional tab true h (omega arith)) (omega arith)

header_start-Pattern :
    (d : Dfa Action) (name : List ℕ) (mid : MatchId)
    → IsValid d
    → AreBytes name
    → Ensures (Pattern d) (header_start d name mid)
unfolding header_start
header_start-Pattern d name mid v hn = push-chain (at_any d v) lf lf_inputs λ b₁ h₁.
    push_ci-chain h₁ name (AreBytes-AreInputs name hn) λ b₂ h₂.
      push_ci-chain (with_blanks h₂) (codes ":") (omega arith)
        λ b₃ h₃. with_action-last (with_blanks h₃) (start_capture mid)

header_value-Grown :
    (b : DfaBuilder Action) (mid : MatchId) (d : Dfa Action)
    → Pattern d b
    → Ensures (Grown d) (header_value b mid)
unfolding header_value
header_value-Grown b mid d h =
    Ensures-mono (Grown b.dfa) (Grown d) _
      (push_any-chain here (included 1) unbounded λ b₁ h₁.
        with_action-chain h₁ (end_capture mid) λ b₂ h₂.
          restart_with-chain (Pattern-optional cr false h₂ (omega arith)) lf lf_inputs (λ e. cc)
            λ b₃ h₃. restart_end (Pattern-restart b.state h₃ h.sound.state))
      λ d' k. record { extends = Extends-trans h.extends k.extends; valid = k.valid }
  where
    here : Pattern b.dfa b
    here = record { extends = Extends-refl b.dfa; sound = h.sound }

pub build_header-Builds : (name : List ℕ) → AreBytes name → Builds (build_header name)
unfolding build_header
build_header-Builds name hn d mid v =
    Ensures-bind (Pattern d) (Grown d) _ _ (header_start-Pattern d name mid v hn)
      (λ b h. header_value-Grown b mid d h)

pub build_status_line-Builds :
    (name : List ℕ) → (name ≡ method) ⊎ (name ≡ path) → Builds (build_status_line name)
unfolding build_status_line
build_status_line-Builds name (inl e) d mid v =
    rw (e, build_status_line) (build_method-Builds d mid v)
build_status_line-Builds name (inr e) d mid v =
    rw (e, build_status_line) (build_path-Builds d mid v)

-- For a parser with a valid DFA: if the pattern for the end of the header block is built, the DFA
-- has been extended and is valid. If it panics, it is not for a missing state or edge, an
-- unsupported name or an index out of bounds.
pub done_on_hdr_end-Grown :
    (p : Parser) → IsValid p.dfa → Ensures (λ (q : Parser). Grown p.dfa q.dfa) (done_on_hdr_end p)
unfolding done_on_hdr_end
done_on_hdr_end-Grown p v =
    push-chain (Pattern-optional cr false (at_any p.dfa v) (omega arith)) lf lf_inputs λ b₁ h₁.
      push-chain (Pattern-optional cr false h₁ (omega arith)) lf lf_inputs λ b₂ h₂.
        with_action-chain h₂ done λ b₃ h₃.
          Ensures-returns (λ (q : Parser). Grown p.dfa q.dfa) (record p { dfa = b₃.dfa })
            (Pattern-Grown h₃)
