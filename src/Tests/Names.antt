-- ===== src/Tests/Names.antt =====
-- The theorems on the HTTP/2 parser (beeper/src/http2) at concrete inputs.
use mathlib.Core.Path.{subst}
use beeper.Prelude.{ℕ, ◌≡◌, ◌≢◌, arith, Option, none, some, List, [], codes}
use beeper.Run.{Returns, Ensures, ◌>>=◌}
use beeper.Map.{lookup}
use beeper.Dfa.{Dfa, edge_at, any_state}
use beeper.Dfa as Dfa
use beeper.Builder.{DfaBuilder, push, with_action}
use beeper.Builder.Sound.{Builds}
use beeper.Builder.Traces.{Ends, with_action-push}
use beeper.Http1.Actions as Http1
use beeper.Http1.Actions.{action_eq as http1_eq}
use beeper.Builder.Chains.{AreBytes}
use beeper.Http2.{Parser, capture_hdr}
use beeper.Http2.Actions.{s_field, s_reserved, action_eq}
use beeper.Http2.Hpack.{HpackDfa, hpack_dfa}
use beeper.Http2.Representations.{representation, hpack_dfa-Representation}
use beeper.Http2.Captures.{EncodesBytes, IsConfigured, Captured, capture_hdr-IsMatched}
use beeper.Tests.Samples.{fresh, fresh-IsSound}

hpack_dfa-Representation_example :
    Returns (λ (d : HpackDfa). edge_at d s_field 0x82 ≡ representation s_field 0x82) hpack_dfa
hpack_dfa-Representation_example = hpack_dfa-Representation s_field 0x82 (omega arith) (omega arith)

with_action-push_example :
    Ensures
      (λ (b' : DfaBuilder Http1.Action).
        Builds fresh b' × Ends b'.dfa fresh.state (codes "SM") Http1.done)
      (push fresh (codes "SM") >>= (λ b₁. with_action b₁ Http1.done))
with_action-push_example =
    with_action-push fresh (codes "SM") Http1.done fresh-IsSound (omega arith) (λ e. cc)

-- A coder that keeps a name as it is, and an HTTP/2 parser without representations.
abbrev pub plain : List ℕ → Option (List ℕ)
plain n = some n

some-injective : {a b : List ℕ} → some a ≡ some b → a ≡ b
some-injective h = cc

pub plain-EncodesBytes : EncodesBytes plain
plain-EncodesBytes = record {
  bytes = λ n coded h code. subst AreBytes (some-injective code) h;
  some_byte = λ n coded ne code. subst (λ m. m ≢ []) (some-injective code) ne;
}

abbrev pub bare : Parser
bare = record {
  dfa = Dfa.with_reserved_states s_reserved;
  num_matches = 0;
  parse_fns = [];
  matched_fn = none;
  get_fns = [];
  get_dynamic_table_entry_fn = none;
  captures = [];
}

bare-IsConfigured : IsConfigured plain bare
unfolding Dfa.with_reserved_states edge_at Dfa.row_at lookup
bare-IsConfigured = record {
  dfa = record {
    reserved = omega arith;
    fits = omega arith;
    bounded = λ f i e h. absurd (cc h);
    unique = (tt, tt);
  };
  reserved = omega arith;
  limit = omega arith;
  captured = record { ids = λ n mid h. absurd (cc h); distinct = λ m n mid h k. absurd (cc h) };
  matched = λ n mid h. absurd (cc h);
}

capture_hdr-IsMatched_example :
    Ensures (Captured plain bare (codes "te")) (capture_hdr plain bare (codes "te"))
capture_hdr-IsMatched_example =
    capture_hdr-IsMatched plain bare (codes "te") plain-EncodesBytes bare-IsConfigured (omega arith)
      (λ e. cc)
