-- ===== src/Attach/Returning.antt =====
-- That `attach` of the HTTP/2 parser returns, whatever libbpf answers (beeper/src/http2/parser.rs).
use beeper.Prelude.{ℕ, Option, List, arith}
use beeper.Run.{Run, Ensures, Ensures-returns, Ensures-bind}
use beeper.Error.{Result, ok, err}
use beeper.Inject.{Rodata}
use beeper.Inject.Tables.{inject-Injected}
use beeper.Dfa.{iter_transitions}
use beeper.Dfa.Extends.{IsValid}
use beeper.Dfa.Listing.{iter_transitions-Lists}
use beeper.Http2 as Http2
use beeper.Http2.Actions.{Http2Action, action_eq, encode, noop}
use beeper.Http2.Populate.{HdrField}
use beeper.Attach.{Program, Skel, Config, disable, configure, load_linked, injected, attach}
use beeper.Attach.Parsers.{http2_config, attach_http2, populated}

-- A computation that does not panic but if its caller brings it about.
abbrev pub IsFine : {A : Type 0} → Run A → Type 0
IsFine {A} m = Ensures (λ (a : A). Unit {0}) m

module _ {S L K T : Type 0} (skel : Skel S L K T) where
  injected-IsFine :
      (c : Config) (inject : Run (Result T)) (r : Result S)
      → IsFine inject
      → IsFine (injected skel c inject r)
  unfolding injected
  injected-IsFine c inject (err e) fine = Ensures-returns _ _ tt
  injected-IsFine c inject (ok s) fine =
      Ensures-bind (λ (t : Result T). Unit {0}) (λ (x : Result (L × List K)). Unit {0}) inject _
        fine (λ t u. Ensures-returns _ (load_linked skel c s t) tt)

  attach-IsFine :
      (target : ℕ) (c : Config) (progs : List Program) (inject : Run (Result T)) (s : S)
      → IsFine inject
      → IsFine (attach skel target c progs inject s)
  unfolding attach
  attach-IsFine target c progs inject s fine =
      injected-IsFine c inject (configure skel target c (disable skel progs s)) fine

inject-IsFine : (p : Http2.Parser) → IsValid p.dfa → IsFine (Http2.inject p)
unfolding Http2.inject
inject-IsFine p v =
    let injected =
      inject-Injected encode noop Http2.limits p.dfa v (iter_transitions p.dfa)
        (iter_transitions-Lists p.dfa v)
        (record { some_action = omega arith; index_fits = omega arith }) in
    rw injected.run (Ensures-returns _ injected.value tt)

module _ {S L K M D : Type 0} (skel : Skel S L K (Rodata Http2Action)) (static_table : L → Result M)
    (dynamic_tables : L → Result D) (huffman : List ℕ → Option (List ℕ))
    (update : ℕ → HdrField → M → Result M) (freeze : M → Result M) where
  pub attach_http2-IsFine :
      (target : ℕ) (progs : List Program) (p : Http2.Parser) (s : S)
      → IsValid p.dfa
      → IsFine
          (attach_http2 skel static_table dynamic_tables huffman update freeze target progs p s)
  unfolding attach_http2
  attach_http2-IsFine target progs p s v =
      Ensures-bind (λ (x : Result (L × List K)). Unit {0})
        (λ (x : Result (L × List K × M × D)). Unit {0}) _ _
        (attach-IsFine skel target (http2_config p) progs (Http2.inject p) s (inject-IsFine p v))
        (λ r u.
          Ensures-returns _ (populated skel static_table dynamic_tables huffman update freeze r) tt)
