-- ===== src/Attach/Parsers.antt =====
-- `attach` of the two parsers: beeper/src/http1/parser.rs and beeper/src/http2/parser.rs.
use beeper.Prelude.{ℕ, Option, none, List}
use beeper.Run.{Run, returns, ◌>>=◌}
use beeper.Error.{buffer_eq, Result, ok}
use beeper.Inject.{Rodata}
use beeper.Http1 as Http1
use beeper.Http1.{done_on_hdr_end}
use beeper.Http1.Runtime as Runtime
use beeper.Http1.Runtime.{Tables}
use beeper.Http2 as Http2
use beeper.Http2.Actions.{Http2Action}
use beeper.Http2.Connections.{and_then}
use beeper.Http2.Populate.{HdrField, populate_static_table}
use beeper.Attach as Attach
use beeper.Attach.{Program, Skel, Config}

abbrev pub http1_config : Http1.Parser → Config
http1_config p = record {
  parse_fns = p.parse_fns;
  matched_fn = p.matched_fn;
  get_fns = p.get_fns;
  get_dynamic_table_entry_fn = none;
}

abbrev pub http2_config : Http2.Parser → Config
http2_config p = record {
  parse_fns = p.parse_fns;
  matched_fn = p.matched_fn;
  get_fns = p.get_fns;
  get_dynamic_table_entry_fn = p.get_dynamic_table_entry_fn;
}

module _ {S L K : Type 0} (skel : Skel S L K Tables) where
  -- `attach` of HTTP/1.1
  unfoldable pub attach_http1 : ℕ → List Program → Http1.Parser → S → Run (Result (L × List K))
  attach_http1 target progs p s = do
    q ← done_on_hdr_end p
    Attach.attach skel target (http1_config q) progs (Runtime.inject q) s

module _ {S L K M D : Type 0} (skel : Skel S L K (Rodata Http2Action)) (static_table : L → Result M)
    (dynamic_tables : L → Result D) (huffman : List ℕ → Option (List ℕ))
    (update : ℕ → HdrField → M → Result M) (freeze : M → Result M) where
  -- what follows the links: the static table, and the handles of the dynamic tables
  unfoldable pub populated : Result (L × List K) → Result (L × List K × M × D)
  unfolding and_then
  populated r = and_then r (λ (l, ks). and_then (static_table l) (λ table.
      and_then (populate_static_table huffman update freeze table)
        (λ table'. and_then (dynamic_tables l) (λ d. ok (l, ks, table', d)))))

  -- `attach` of HTTP/2
  unfoldable pub attach_http2 :
      ℕ → List Program → Http2.Parser → S → Run (Result (L × List K × M × D))
  unfolding populated
  attach_http2 target progs p s =
      Attach.attach skel target (http2_config p) progs (Http2.inject p) s
      >>= (λ r. returns (populated r))
