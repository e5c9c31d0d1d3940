-- ===== src/Attach/Contents.antt =====
-- What the kernel runs for an attached parser: the two methods `attach`, of
-- beeper/src/http1/parser.rs and of beeper/src/http2/parser.rs, with what they call.
use beeper.Prelude.{ℕ, ◌≡◌, sym, ap, ◌∙◌, Bool, true, false, Option, List, arith, Eq}
use mathlib.Core.List.{Memᴰ}
use beeper.Run.{returns, >>=-eq-returns}
use beeper.Map.{IsUnique}
use beeper.Error.{buffer_eq, Result, ok, err}
use beeper.Inject as Inject
use beeper.Inject.{Rodata, Limits}
use beeper.Inject.Tables.{Represents, Injected, inject-Injected}
use mathlib.Core.Path.{subst}
use beeper.Builder.{push, push_optional, start_pattern, with_action}
use beeper.Inject.Loop.{AreUsable}
use beeper.Dfa.{any_state, Dfa, iter_transitions}
use beeper.Dfa.Extends.{IsValid}
use beeper.Dfa.Listing.{iter_transitions-Lists}
use beeper.Http1 as Http1
use beeper.Http1.{done_on_hdr_end, cr, lf}
use beeper.Http1.Actions as Http1Actions
use beeper.Http1.Growth.{done_on_hdr_end-Grown}
use beeper.Http1.Runtime as Runtime
use beeper.Http1.Runtime.{Tables, inject-Tables}
use beeper.Http2 as Http2
use beeper.Http2.Actions.{Http2Action, action_eq, encode, noop}
use beeper.Http2.Connections.{and_then-ok}
use beeper.Http2.AppendixA.{appendix_a, numbered}
use beeper.Http2.StaticTable.{StaticEntry}
use beeper.Http2.Populate.{
  HdrField, populate_static_table, IsTable, Holds, populate_static_table-Holds,
}
use beeper.Attach as Attach
use beeper.Attach.{Program, Skel, Config}
use beeper.Attach.Objects.{IsObject}
use beeper.Attach.Loading.{IsLoaded, attach-IsLoaded}
use beeper.Attach.Parsers.{http1_config, http2_config, attach_http1, attach_http2, populated}

done_on_hdr_end_keeps :
    (p q : Http1.Parser) → done_on_hdr_end p ≡ returns q → http1_config p ≡ http1_config q
unfolding done_on_hdr_end
done_on_hdr_end_keeps p q run =
    let (b₁, _, run₁) =
      >>=-eq-returns
        (push ⦃eq = Http1Actions.action_eq⦄ (push_optional (start_pattern p.dfa any_state) cr false)
          lf)
        _ run in
    let (b₂, _, run₂) =
      >>=-eq-returns (push ⦃eq = Http1Actions.action_eq⦄ (push_optional b₁ cr false) lf) _ run₁ in
    let (b₃, _, run₃) =
      >>=-eq-returns (with_action ⦃eq = Http1Actions.action_eq⦄ b₂ Http1Actions.done) _ run₂ in
    let e : record p { dfa = b₃.dfa } ≡ q = cc in ap http1_config e

pub inject-Represents :
    {A C : Type 0} ⦃eq : Eq A⦄ (encode : A → C) (zeros : C) (limits : Limits) (d : Dfa A)
    (v : IsValid d) (u : AreUsable limits) (t : Rodata C)
    → Inject.inject limits encode zeros d.num_states (iter_transitions d) ≡ returns (ok t)
    → Represents encode zeros limits d t
inject-Represents encode zeros limits d v u t run =
    let ts = iter_transitions d in
    let lists = iter_transitions-Lists d v in
    let injected = inject-Injected encode zeros limits d v ts lists u in
    let e : injected.value ≡ ok t = cc in
    subst (Injected encode zeros limits d v ts lists u) e injected.post

module _ {S L K : Type 0} (skel : Skel S L K Tables) (autoload : Program → S → Bool)
    (target_of : Program → S → Option (ℕ × List ℕ)) where
  pub attach_http1-Injects :
      (laws : IsObject skel autoload target_of) (target : ℕ) (progs : List Program)
      (p : Http1.Parser) (s : S) (l : L) (ks : List K)
      → IsUnique p.parse_fns
      → IsUnique p.get_fns
      → ((q : Program) → autoload q s ≡ true → Memᴰ q progs)
      → attach_http1 skel target progs p s ≡ returns (ok (l, ks))
      → (done : Http1.Parser) × (t : Tables) × (done_on_hdr_end p ≡ returns done)
        × (Runtime.inject done ≡ returns (ok t))
        × IsLoaded skel autoload target_of target (http1_config p) t l ks
  unfolding attach_http1
  attach_http1-Injects laws target progs p s l ks u w listed run =
      let (q, ran, rest) = >>=-eq-returns (done_on_hdr_end p) _ run in
      let same : http1_config p ≡ http1_config q = done_on_hdr_end_keeps p q ran in
      let (t, injects, loaded) =
        attach-IsLoaded skel autoload target_of laws target (http1_config q) progs
          (Runtime.inject q) s l ks (subst (λ (c : Config). IsUnique c.parse_fns) same u)
          (subst (λ (c : Config). IsUnique c.get_fns) same w) listed rest in
      (
        q,
        t,
        ran,
        injects,
        subst (λ (c : Config). IsLoaded skel autoload target_of target c t l ks) (sym same) loaded,
      )

  -- For a libbpf whose calls on the opened object change what they are called for and nothing else, and
  -- an object that lists the programs it would load: if `attach` of an HTTP/1.1 parser with a valid
  -- DFA, which has one function at most for each message buffer, succeeds, then the loaded object has
  -- been loaded with tables that represent the DFA of the parser with the end of the headers marked
  -- as done; with just those programs that the parser was given a function for, each set to replace
  -- that function of the target; and each of them has been linked.
  pub attach_http1-Represents :
      (laws : IsObject skel autoload target_of) (target : ℕ) (progs : List Program)
      (p : Http1.Parser) (s : S) (l : L) (ks : List K)
      → IsValid p.dfa
      → IsUnique p.parse_fns
      → IsUnique p.get_fns
      → ((q : Program) → autoload q s ≡ true → Memᴰ q progs)
      → attach_http1 skel target progs p s ≡ returns (ok (l, ks))
      → (done : Http1.Parser) × (t : Tables) × (done_on_hdr_end p ≡ returns done)
        × Represents Http1Actions.encode Http1Actions.noop Runtime.limits done.dfa t
        × IsLoaded skel autoload target_of target (http1_config p) t l ks
  unfolding Runtime.inject
  attach_http1-Represents laws target progs p s l ks v u w listed run =
      let (q, t, ran, injects, loaded) =
        attach_http1-Injects laws target progs p s l ks u w listed run in
      (
        q,
        t,
        ran,
        inject-Represents ⦃eq = Http1Actions.action_eq⦄ Http1Actions.encode Http1Actions.noop
            Runtime.limits q.dfa ((done_on_hdr_end-Grown p v).post q ran).valid
            (record { some_action = omega arith; index_fits = omega arith }) t injects,
        loaded,
      )

module _ {S L K M D : Type 0} (skel : Skel S L K (Rodata Http2Action))
    (autoload : Program → S → Bool) (target_of : Program → S → Option (ℕ × List ℕ))
    (static_table : L → Result M) (dynamic_tables : L → Result D)
    (huffman : List ℕ → Option (List ℕ)) (update : ℕ → HdrField → M → Result M)
    (freeze : M → Result M) (read : M → ℕ → Option HdrField) where
  populated-ok :
      (r : Result (L × List K)) (l : L) (ks : List K) (table : M) (d : D)
      → populated skel static_table dynamic_tables huffman update freeze r ≡ ok (l, ks, table, d)
      → (empty : M) × (r ≡ ok (l, ks))
        × (populate_static_table huffman update freeze empty ≡ ok table)
  unfolding populated
  populated-ok (err e) l ks table d run = absurd (cc run)
  populated-ok (ok (l', ks')) l ks table d run =
      let (empty, found, rest) = and_then-ok (static_table l') _ (l, ks, table, d) run in
      let (full, filled, same) =
        and_then-ok (populate_static_table huffman update freeze empty) _ (l, ks, table, d) rest in
      let (d', handles, same') = and_then-ok (dynamic_tables l') _ (l, ks, table, d) same in
      let e : (l', ks', full, d') ≡ (l, ks, table, d) = cc in
      (
        empty,
        ap (λ (x : L × List K × M × D). ok (x.0, x.1)) e,
        filled ∙ ap (λ (x : L × List K × M × D). ok x.2) e,
      )

  -- For a libbpf whose calls on the opened object change what they are called for and nothing else, a
  -- kernel map that keeps what it is told to write, and an object that lists the programs it would
  -- load: if `attach` of an HTTP/2 parser with a valid DFA, which has one function at most for each
  -- message buffer, succeeds, then the loaded object has been loaded with tables that represent the DFA
  -- of the parser; with just those programs that the parser was given a function for, each set to
  -- replace that function of the target; each of them has been linked; and the static table holds
  -- every row of appendix A of RFC 7541, Huffman coded.
  pub attach_http2-Represents :
      (laws : IsObject skel autoload target_of) (table_laws : IsTable huffman update freeze read)
      (target : ℕ) (progs : List Program) (p : Http2.Parser) (s : S) (l : L) (ks : List K)
      (table : M) (d : D)
      → IsValid p.dfa
      → IsUnique p.parse_fns
      → IsUnique p.get_fns
      → ((q : Program) → autoload q s ≡ true → Memᴰ q progs)
      → attach_http2 skel static_table dynamic_tables huffman update freeze target progs p s
        ≡ returns (ok (l, ks, table, d))
      → (t : Rodata Http2Action) × Represents encode noop Http2.limits p.dfa t
        × IsLoaded skel autoload target_of target (http2_config p) t l ks
        × ((a : StaticEntry) → Memᴰ a (numbered 1 appendix_a) → Holds huffman read table a)
  unfolding attach_http2 Http2.inject
  attach_http2-Represents laws table_laws target progs p s l ks table d v u w listed run =
      let (r, ran, rest) =
        >>=-eq-returns (Attach.attach skel target (http2_config p) progs (Http2.inject p) s) _
          run in
      let (empty, same, filled) = populated-ok r l ks table d (cc) in
      let (t, injects, loaded) =
        attach-IsLoaded skel autoload target_of laws target (http2_config p) progs (Http2.inject p)
          s l ks u w listed (rw same at ran) in
      (
        t,
        inject-Represents encode noop Http2.limits p.dfa v
            (record { some_action = omega arith; index_fits = omega arith }) t injects,
        loaded,
        λ a row.
            populate_static_table-Holds huffman update freeze read table_laws empty table a filled
              row,
      )
