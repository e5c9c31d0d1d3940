-- ===== src/Tests/Parsers.antt =====
-- The theorems on the HTTP/1.1 parser (beeper/src/http1) at concrete inputs.
use beeper.Prelude.{
  ℕ, ◌≡◌, ◌⊎◌, refl, sym, ap, ◌∙◌, arith, none, some, inl, inr, codes, if◌then◌else◌, ◌==◌, nat_eq,
  ◌&&◌, Bool-cases,
}
use beeper.Run.{returns, panics, Ensures, Returns}
use beeper.Error.{ok}
use beeper.Map.{lookup, insert}
use beeper.Builder.{
  push, push_inner, push_edge, push_optional_prefixes, start_pattern, push_edge_from, push_ci,
  add_actions, add_other, follow_optional, insert_other, other_case, push_into, push_optional,
  push_prefix_from, push_prefix_inputs, push_prefix_sources, push_prefixes, to_ascii_lowercase,
  to_ascii_uppercase, with_action,
}
use beeper.Builder.Patterns.{
  any_prefixes, max_len, min_len, push_any, push_any_edges, push_any_loop, restart_fold,
  restart_with,
}
use beeper.Dfa.{Dfa, Edge, any_state, any_input, edge_at, iter_transitions}
use beeper.Dfa as Dfa
use beeper.Dfa.Edges.{put_edge-cases, edge_at-put_edge}
use beeper.Dfa.Listing.{iter_transitions-Lists}
use beeper.Inject.{no_trans, inject}
use beeper.Inject.Loop.{AreUsable}
use beeper.Inject.Tables.{Represents, Injected, encoded, inject-Injected}
use beeper.Http1.{Parser, capture_hdr, match_http2_preface, done_on_hdr_end, to_lowercase}
use beeper.Http1 as Http1
use beeper.Http1.Actions.{Action, done, action_eq, noop, encode}
use beeper.Http1.Captures.{
  new-IsConfigured, Captured, Opened, capture_hdr-Captured, capture_hdr-again,
  match_http2_preface-Opened,
}
use beeper.Http1.Runtime.{limits, Tables, action_of, step, dfa_step, NeverResets, step-Reads}
use beeper.Tests.Samples.{empty, loop, looping, looping-IsValid}

capture_hdr-Captured_example :
    Ensures
      (Captured Http1.new (to_lowercase (codes "User-Agent")))
      (capture_hdr Http1.new (codes "User-Agent"))
capture_hdr-Captured_example =
    capture_hdr-Captured Http1.new (codes "User-Agent") new-IsConfigured (omega arith)

abbrev captured : Parser
captured = elim (capture_hdr Http1.new (codes "A")) [ returns r ↦ r.1 | panics e ↦ Http1.new ]

captured_run : capture_hdr Http1.new (codes "A") ≡ returns (ok 0, captured)
unfolding capture_hdr lookup Http1.new push push_inner push_edge push_optional_prefixes
    start_pattern push_edge_from Dfa.next_state edge_at Dfa.row_at Dfa.new Dfa.new_state
    Dfa.insert_edge push_ci Dfa.put_edge insert any_prefixes max_len min_len push_any push_any_edges
    push_any_loop restart_fold restart_with add_actions add_other follow_optional insert_other
    other_case push_into push_optional push_prefix_from push_prefix_inputs push_prefix_sources
    push_prefixes to_ascii_lowercase to_ascii_uppercase with_action Dfa.add_action Dfa.add_action_in
    Dfa.merge_action Dfa.overwrite_action Dfa.with_reserved_states Http1.build_header
    Http1.build_with Http1.capture_lowercased Http1.capture_new_hdr Http1.header_start
    Http1.header_value Http1.new_match Http1.remember to_lowercase Http1.capture_status_line
    Http1.capture_status_code
captured_run = refl

match_http2_preface-Opened_example : Ensures (Opened Http1.new) (match_http2_preface Http1.new)
match_http2_preface-Opened_example = match_http2_preface-Opened Http1.new new-IsConfigured

usable : AreUsable limits
usable = record { some_action = omega arith; index_fits = omega arith }

inject-Injected_example :
    Returns
      (Injected encode noop limits looping looping-IsValid
        (iter_transitions looping)
        (iter_transitions-Lists looping looping-IsValid)
        usable)
      (inject limits encode noop looping.num_states (iter_transitions looping))
inject-Injected_example =
    inject-Injected encode noop limits looping looping-IsValid (iter_transitions looping)
      (iter_transitions-Lists looping looping-IsValid) usable

abbrev pub tables : Tables
tables = record {
  states = λ f i. if any_state == f && 65 == i then record { state = 1; action = 1 } else no_trans;
  actions = λ k. if 1 == k then encode done else noop;
}

nothing_there : (f i : ℕ) → edge_at empty f i ≡ none
unfolding Dfa.new Dfa.with_reserved_states edge_at Dfa.row_at lookup
nothing_there f i = refl

-- the edges of `looping`
pub looping-cases :
    (f i : ℕ) (e : Edge Action)
    → edge_at looping f i ≡ some e
    → (any_state ≡ f) × (65 ≡ i) × (loop ≡ e)
looping-cases f i e at = elim (put_edge-cases empty any_state 65 loop f i) [
  | inl same ↦ absurd (cc (sym (nothing_there f i) ∙ sym same ∙ at))
  | inr (p, q, new) ↦ (p, q, cc)
]

pub looping-NeverResets : NeverResets looping
looping-NeverResets f i e at reset =
    absurd (cc (ap (λ (x : Edge Action). x.to) (looping-cases f i e at).2 ∙ reset))

cell-cases :
    (f i : ℕ)
    → ((any_state ≡ f) × (65 ≡ i) × (edge_at looping f i ≡ some loop))
      ⊎ ((edge_at looping f i ≡ none) × (tables.states f i ≡ no_trans))
cell-cases f i = elim (Bool-cases (any_state == f && 65 == i)) [
  | inl same ↦
      inl (ground arith, ground arith, edge_at-put_edge empty any_state 65 loop f i ∙ rw same refl)
  | inr other ↦
      inr
        (edge_at-put_edge empty any_state 65 loop f i ∙ rw other (nothing_there f i), rw other refl)
]

pub looping-Represents : Represents encode noop limits looping tables
looping-Represents = record {
  noop = refl;
  no_edge = λ f i absent. elim (cell-cases f i) [
    | inl (_, _, there) ↦ absurd (cc (sym there ∙ absent))
    | inr (_, empty_cell) ↦ empty_cell
  ];
  edge =
      λ f i e at. let (p, q, same) = looping-cases f i e at in rw (← p, ← q, ← same) (refl, refl);
  small = λ f i. elim (cell-cases f i) [
    | inl (p, q, _) ↦ rw (← p, ← q) (omega arith)
    | inr (_, empty_cell) ↦ rw empty_cell (omega arith)
  ];
}

step-Reads_example :
    ((step tables any_state 65).0 ≡ (dfa_step looping any_state 65).0)
    × (action_of tables (step tables any_state 65).1
        ≡ encoded encode noop (dfa_step looping any_state 65).1)
step-Reads_example =
    step-Reads looping tables looping-Represents looping-NeverResets any_state 65 (omega arith)

capture_hdr-again_example : capture_hdr captured (codes "a") ≡ returns (ok 0, captured)
capture_hdr-again_example =
    capture_hdr-again Http1.new captured (codes "A") (codes "a") 0 new-IsConfigured (omega arith)
      captured_run (unfold to_lowercase to_ascii_lowercase in refl)
