-- ===== src/Tests/Loading.antt =====
-- The theorems on `attach` of the HTTP/1.1 parser (beeper/src/http1/parser.rs) at concrete inputs.
use beeper.Prelude.{ℕ, ◌++◌, length, ◌≡◌, refl, true, not, none, List, [], ◌∷◌, codes, ◌==◌, arith}
use mathlib.Core.List.{Memᴰ}
use beeper.Run.{Run, returns, panics}
use beeper.Error.{msg, buffer_eq, Result, ok}
use beeper.Map.{IsUnique, lookup, insert}
use beeper.Dfa as Dfa
use beeper.Dfa.Extends.{IsValid, new-IsValid}
use beeper.Inject.{Rodata}
use beeper.Http1 as Http1
use beeper.Http1.{done_on_hdr_end}
use beeper.Http1.Actions as Http1Actions
use beeper.Http1.Runtime as Runtime
use beeper.Http1.Runtime.{Tables}
use beeper.Builder as Builder
use beeper.Inject as Inject
use beeper.Inject.Tables.{Represents}
use beeper.Http2.Connections.{and_then}
use beeper.Attach as Attach
use beeper.Tests.Objects.{Object, remembering, autoload, target_of, remembering-IsObject}
use beeper.Attach.{
  Program, program_eq, parse_msg, parse_skb, matched, get_match_msg, get_match_skb, get_dt_entry,
  Skel, Config,
}
use beeper.Attach.Loading.{IsLoaded}
use beeper.Attach.Parsers.{http1_config, attach_http1}
use beeper.Attach.Messages.{IsRunnable, attach_http1-Walks}
use beeper.Http1.Parsing as Parsing
use beeper.Http1.Parsing.{Match, init_walk}
use beeper.Http1.Running.{dfa_walk}
use beeper.Http1.Messages.{verdict}
use beeper.Attach.Failing.{Obliges}
use beeper.Attach.Outcomes.{Outcome, attach_http1-Outcome}
use beeper.Attach.Contents.{attach_http1-Represents}

-- The object of HTTP/1.1 as it is opened: each of its programs would be loaded.
abbrev opened : Object Tables
opened = record { on = λ q. not (q == get_dt_entry); to = λ q. none; tables = none }

abbrev pub programs : List Program
programs = parse_msg ∷ parse_skb ∷ matched ∷ get_match_msg ∷ get_match_skb ∷ []

pub programs_listed : (q : Program) → autoload q opened ≡ true → Memᴰ q programs
programs_listed parse_msg h = Memᴰ.head refl
programs_listed parse_skb h = Memᴰ.tail (Memᴰ.head refl)
programs_listed matched h = Memᴰ.tail (Memᴰ.tail (Memᴰ.head refl))
programs_listed get_match_msg h = Memᴰ.tail (Memᴰ.tail (Memᴰ.tail (Memᴰ.head refl)))
programs_listed get_match_skb h = Memᴰ.tail (Memᴰ.tail (Memᴰ.tail (Memᴰ.tail (Memᴰ.head refl))))
programs_listed get_dt_entry h = absurd (cc h)

-- The parser of the documentation of `attach`, less its capture.
abbrev parser : Http1.Parser
parser =
    Http1.get_fn (Http1.parse_fn Http1.new (codes "parse_http1") msg) (codes "get_http1_match") msg

abbrev attached : Run (Result (Object Tables × List Program))
attached = attach_http1 (remembering Tables) 7 programs parser opened

abbrev pub object_of : {A : Type 0} → Object A → Run (Result (Object A × List Program)) → Object A
object_of s (returns (ok x)) = x.0
object_of s _ = s

attached_run : attached ≡ returns (ok (object_of opened attached, parse_msg ∷ get_match_msg ∷ []))
unfolding attach_http1 done_on_hdr_end Http1.new Http1.parse_fn Http1.get_fn insert Dfa.new
    Builder.push Builder.push_inner Builder.push_edge Builder.push_optional_prefixes
    Builder.push_optional Builder.start_pattern Builder.push_edge_from Dfa.next_state Dfa.edge_at
    lookup Dfa.row_at Dfa.new_state Dfa.insert_edge Dfa.put_edge Builder.with_action Dfa.add_action
    Dfa.overwrite_action Attach.attach Attach.configure Attach.disable Attach.get_programs
    Attach.injected Attach.link_all Attach.link_each Attach.load_linked Attach.option_program
    Attach.parse_programs Attach.replace Attach.replace_each Builder.add_actions Builder.add_other
    Builder.follow_optional Builder.insert_other Builder.other_case Builder.push_prefix_from
    Builder.push_prefix_inputs Builder.push_prefix_sources Builder.push_prefixes
    Builder.to_ascii_lowercase Builder.to_ascii_uppercase Dfa.add_action_in Dfa.edge_transitions
    Dfa.iter_transitions Dfa.merge_action Dfa.row_transitions Dfa.with_reserved_states
    Http1Actions.encode Runtime.inject and_then Inject.finish_inject Inject.index_of Inject.inject
    Inject.inject_actions Inject.inject_transition Inject.inject_transitions Inject.store_transition
    Inject.write_action Inject.write_state
attached_run = refl

parser-IsValid : IsValid parser.dfa
unfolding Http1.get_fn Http1.parse_fn Http1.new
parser-IsValid = new-IsValid

parser-parse_fns : IsUnique parser.parse_fns
unfolding Http1.get_fn Http1.parse_fn Http1.new insert lookup
parser-parse_fns = (refl, tt)

parser-get_fns : IsUnique parser.get_fns
unfolding Http1.get_fn Http1.parse_fn Http1.new insert lookup
parser-get_fns = (refl, tt)

attach_http1-Represents_example :
    (done : Http1.Parser) × (t : Tables) × (done_on_hdr_end parser ≡ returns done)
    × Represents Http1Actions.encode Http1Actions.noop Runtime.limits done.dfa t
    × IsLoaded
        (remembering Tables)
        autoload
        target_of
        7
        (http1_config parser)
        t
        (object_of opened attached)
        (parse_msg ∷ get_match_msg ∷ [])
attach_http1-Represents_example =
    attach_http1-Represents (remembering Tables) autoload target_of (remembering-IsObject Tables) 7
      programs parser opened (object_of opened attached) (parse_msg ∷ get_match_msg ∷ [])
      parser-IsValid parser-parse_fns parser-get_fns programs_listed attached_run

abbrev obliging : Skel (Object Tables) (Object Tables) Program Tables
obliging = record (remembering Tables) { link = λ prog l. ok prog }

obliging-Obliges : Obliges obliging
obliging-Obliges = record {
  aims = λ prog target func s. (_, refl);
  loads = λ s. (s, refl);
  links = λ prog l. (prog, refl);
}

abbrev with_end : Http1.Parser
with_end = elim (done_on_hdr_end parser) [ returns q ↦ q | panics e ↦ parser ]

with_end_run : done_on_hdr_end parser ≡ returns with_end
unfolding done_on_hdr_end Http1.new Http1.parse_fn Http1.get_fn insert Dfa.new Builder.push
    Builder.push_inner Builder.push_edge Builder.push_optional_prefixes Builder.push_optional
    Builder.start_pattern Builder.push_edge_from Dfa.next_state Dfa.edge_at lookup Dfa.row_at
    Dfa.new_state Dfa.insert_edge Dfa.put_edge Builder.with_action Dfa.add_action
    Dfa.overwrite_action Builder.add_actions Builder.add_other Builder.follow_optional
    Builder.insert_other Builder.other_case Builder.push_prefix_from Builder.push_prefix_inputs
    Builder.push_prefix_sources Builder.push_prefixes Builder.to_ascii_lowercase
    Builder.to_ascii_uppercase Dfa.add_action_in Dfa.merge_action Dfa.with_reserved_states
with_end_run = refl

attach_http1-Outcome_example :
    (v : IsValid with_end.dfa) × (x : Result (Object Tables × List Program)) × (attach_http1
        obliging 7 programs parser opened
      ≡ returns x)
    × Outcome with_end v x
attach_http1-Outcome_example =
    attach_http1-Outcome obliging obliging-Obliges 7 programs parser with_end opened parser-IsValid
      with_end_run

with_end-IsRunnable : IsRunnable with_end.dfa
unfolding done_on_hdr_end Http1.new Http1.parse_fn Http1.get_fn insert Dfa.new Builder.push
    Builder.push_inner Builder.push_edge Builder.push_optional_prefixes Builder.push_optional
    Builder.start_pattern Builder.push_edge_from Dfa.next_state Dfa.edge_at lookup Dfa.row_at
    Dfa.new_state Dfa.insert_edge Dfa.put_edge Builder.with_action Dfa.add_action
    Dfa.overwrite_action Builder.add_actions Builder.add_other Builder.follow_optional
    Builder.insert_other Builder.other_case Builder.push_prefix_from Builder.push_prefix_inputs
    Builder.push_prefix_sources Builder.push_prefixes Builder.to_ascii_lowercase
    Builder.to_ascii_uppercase Dfa.add_action_in Dfa.merge_action Dfa.with_reserved_states
    Dfa.iter_transitions Dfa.edge_transitions Dfa.row_transitions
with_end-IsRunnable = (
  (λ h k. absurd (omega (arith, h)), tt),
  (
    (λ h k. absurd (omega (arith, h)), tt),
    (
      (λ h k. absurd (omega (arith, h)), tt),
      (
        (λ h k. absurd (omega (arith, h)), tt),
        ((λ h k. absurd (omega (arith, h)), tt), ((λ h k. absurd (omega (arith, h)), tt), tt)),
      ),
    ),
  ),
)

abbrev unmatched : ℕ → Match
unmatched i = record { idx = 0; len = 0 }

attach_http1-Walks_example :
    (t : Tables) × IsLoaded
      (remembering Tables)
      autoload
      target_of
      7
      (http1_config parser)
      t
      (object_of opened attached)
      (parse_msg ∷ get_match_msg ∷ [])
    × (Parsing.parse_msg t true (codes "A: b") (codes "A: b" ++ (13 ∷ 10 ∷ 13 ∷ 10 ∷ [])) unmatched
        ≡ verdict (length (codes "A: b" ++ (13 ∷ 10 ∷ 13 ∷ 10 ∷ []))) (
            dfa_walk with_end.dfa 0
              (codes "A: b" ++ (13 ∷ 10 ∷ 13 ∷ 10 ∷ []))
              (init_walk unmatched none)))
attach_http1-Walks_example =
    attach_http1-Walks (remembering Tables) autoload target_of (remembering-IsObject Tables) 7
      programs parser with_end opened (object_of opened attached) (parse_msg ∷ get_match_msg ∷ [])
      (codes "A: b") (13 ∷ 10 ∷ 13 ∷ 10 ∷ []) unmatched parser-IsValid parser-parse_fns
      parser-get_fns programs_listed attached_run with_end_run with_end-IsRunnable (omega arith)
      (omega arith)
