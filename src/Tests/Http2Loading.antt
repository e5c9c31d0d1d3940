-- ===== src/Tests/Http2Loading.antt =====
-- The theorem on `attach` of the HTTP/2 parser (beeper/src/http2/parser.rs) at a concrete input.
use beeper.Prelude.{◌<◌, ◌≡◌, refl, true, none, some, List, [], ◌∷◌, codes, arith}
use mathlib.Core.List.{Memᴰ}
use beeper.Run.{Run, returns}
use beeper.Error.{skb, buffer_eq, Result, ok}
use beeper.Map.{lookup, insert}
use beeper.Dfa as Dfa
use beeper.Dfa.Extends.{put_edge-Extends, IsValid, new-IsValid}
use beeper.Inject.{Rodata}
use beeper.Http2 as Http2
use beeper.Http2.Actions as Http2Actions
use beeper.Http2.Actions.{Http2Action}
use beeper.Http2.AppendixA.{appendix_a, numbered}
use beeper.Http2.StaticTable.{StaticEntry}
use beeper.Http2.Populate.{Holds}
use beeper.Builder as Builder
use beeper.Inject as Inject
use beeper.Inject.Tables.{Represents}
use beeper.Http2.Connections.{and_then}
use beeper.Attach as Attach
use beeper.Tests.Objects.{Object, remembering, autoload, target_of, remembering-IsObject}
use beeper.Tests.Maps.{plain, update, freeze, read, nothing, filled, filled_run, read-IsTable}
use beeper.Attach.{
  Program, program_eq, parse_msg, parse_skb, matched, get_match_msg, get_match_skb, get_dt_entry,
  Skel, Config,
}
use beeper.Attach.Loading.{IsLoaded}
use beeper.Attach.Parsers.{http2_config, attach_http2, populated}
use beeper.Attach.Contents.{attach_http2-Represents}
use beeper.Tests.Loading.{programs, programs_listed, object_of}

-- The object of HTTP/2.
abbrev pub opened_http2 : Object (Rodata Http2Action)
opened_http2 = record { on = λ q. true; to = λ q. none; tables = none }

abbrev pub programs_http2 : List Program
programs_http2 = get_dt_entry ∷ programs

programs_http2_listed : (q : Program) → autoload q opened_http2 ≡ true → Memᴰ q programs_http2
programs_http2_listed parse_msg h = Memᴰ.tail (programs_listed parse_msg refl)
programs_http2_listed parse_skb h = Memᴰ.tail (programs_listed parse_skb refl)
programs_http2_listed matched h = Memᴰ.tail (programs_listed matched refl)
programs_http2_listed get_match_msg h = Memᴰ.tail (programs_listed get_match_msg refl)
programs_http2_listed get_match_skb h = Memᴰ.tail (programs_listed get_match_skb refl)
programs_http2_listed get_dt_entry h = Memᴰ.head refl

-- One edge in place of the rows of HPACK.
abbrev row : Dfa.Edge Http2Actions.Action
row = record { to = Dfa.any_state; action = some (Http2Actions.capture_action 3) }

abbrev rows : Dfa.Dfa Http2Actions.Action
rows = Dfa.put_edge Dfa.new Dfa.any_state 65 row

two : 1 < (Dfa.new {A = Http2Actions.Action}).num_states
unfolding Dfa.new Dfa.with_reserved_states
two = omega arith

rows-IsValid : IsValid rows
rows-IsValid =
    (put_edge-Extends Dfa.new Dfa.any_state 65 row
        (unfold Dfa.new Dfa.with_reserved_states Dfa.edge_at Dfa.row_at lookup in tt) two two
        (omega arith)).valid
      new-IsValid

abbrev parser_http2 : Http2.Parser
parser_http2 = record {
  dfa = rows;
  num_matches = 0;
  parse_fns = (skb, codes "parse_http2") ∷ [];
  matched_fn = some (codes "matched");
  get_fns = (skb, codes "get_match") ∷ [];
  get_dynamic_table_entry_fn = some (codes "get_dt_entry");
  captures = [];
}

abbrev links_http2 : List Program
links_http2 = parse_skb ∷ matched ∷ get_match_skb ∷ get_dt_entry ∷ []

abbrev shared_http2 : Run (Result (Object (Rodata Http2Action) × List Program))
shared_http2 =
    Attach.attach (remembering (Rodata Http2Action)) 7 (http2_config parser_http2) programs_http2
      (Http2.inject parser_http2) opened_http2

shared_http2_run : shared_http2 ≡ returns (ok (object_of opened_http2 shared_http2, links_http2))
unfolding insert Dfa.new Builder.push Builder.push_inner Builder.push_edge
    Builder.push_optional_prefixes Builder.push_optional Builder.start_pattern
    Builder.push_edge_from Dfa.next_state Dfa.edge_at lookup Dfa.row_at Dfa.new_state
    Dfa.insert_edge Dfa.put_edge Builder.with_action Dfa.add_action Dfa.overwrite_action
    Attach.attach Attach.configure Attach.disable Attach.get_programs Attach.injected
    Attach.link_all Attach.link_each Attach.load_linked Attach.option_program Attach.parse_programs
    Attach.replace Attach.replace_each Builder.add_actions Builder.add_other Builder.follow_optional
    Builder.insert_other Builder.other_case Builder.push_prefix_from Builder.push_prefix_inputs
    Builder.push_prefix_sources Builder.push_prefixes Builder.to_ascii_lowercase
    Builder.to_ascii_uppercase Dfa.add_action_in Dfa.edge_transitions Dfa.iter_transitions
    Dfa.merge_action Dfa.row_transitions Dfa.with_reserved_states Http2Actions.encode Http2.inject
    and_then Inject.finish_inject Inject.index_of Inject.inject Inject.inject_actions
    Inject.inject_transition Inject.inject_transitions Inject.store_transition Inject.write_action
    Inject.write_state
shared_http2_run = refl

attached_http2_run :
    attach_http2
      (remembering (Rodata Http2Action))
      (λ l. ok nothing)
      (λ l. ok tt)
      plain
      update
      freeze
      7
      programs_http2
      parser_http2
      opened_http2
    ≡ returns (ok (object_of opened_http2 shared_http2, links_http2, filled, tt))
unfolding attach_http2 populated and_then
attached_http2_run = rw (shared_http2_run, filled_run) refl

attach_http2-Represents_example :
    (t : Rodata Http2Action) × Represents Http2Actions.encode Http2Actions.noop Http2.limits rows t
    × IsLoaded
        (remembering (Rodata Http2Action))
        autoload
        target_of
        7
        (http2_config parser_http2)
        t
        (object_of opened_http2 shared_http2)
        links_http2
    × ((a : StaticEntry) → Memᴰ a (numbered 1 appendix_a) → Holds plain read filled a)
attach_http2-Represents_example =
    attach_http2-Represents (remembering (Rodata Http2Action)) autoload target_of (λ l. ok nothing)
      (λ l. ok tt) plain update freeze read (remembering-IsObject (Rodata Http2Action)) read-IsTable
      7 programs_http2 parser_http2 opened_http2 (object_of opened_http2 shared_http2) links_http2
      filled tt rows-IsValid (unfold lookup in (refl, tt)) (unfold lookup in (refl, tt))
      programs_http2_listed attached_http2_run
