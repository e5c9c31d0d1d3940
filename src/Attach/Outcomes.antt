-- ===== src/Attach/Outcomes.antt =====
-- How `attach` of the HTTP/1.1 parser ends (beeper/src/http1/parser.rs).
use beeper.Prelude.{ℕ, ◌≡◌, List, arith}
use beeper.Run.{returns}
use beeper.Error.{parser_exceeds_state_limit, Result, ok, err}
use beeper.Dfa.{iter_transitions}
use beeper.Dfa.Extends.{IsValid}
use beeper.Dfa.Listing.{iter_transitions-Lists}
use beeper.Inject.Tables.{Represents, Injected, IsTooLarge}
use beeper.Http1.{Parser, done_on_hdr_end}
use beeper.Http1.Actions.{action_eq, encode, noop}
use beeper.Http1.Growth.{done_on_hdr_end-Grown}
use beeper.Http1.Runtime as Runtime
use beeper.Http1.Runtime.{Tables, limits, inject-Tables}
use beeper.Attach.{Program, Skel}
use beeper.Attach.Parsers.{http1_config, attach_http1}
use beeper.Attach.Failing.{Obliges, Follows, attach-Follows}

-- Why the tables of the HTTP/1.1 program cannot take the DFA of a parser.
abbrev pub IsTooLargeFor : (q : Parser) → IsValid q.dfa → Type 0
IsTooLargeFor q v =
    IsTooLarge encode noop limits q.dfa v (iter_transitions q.dfa) (iter_transitions-Lists q.dfa v)
      (record { some_action = omega arith; index_fits = omega arith })

module _ {L K : Type 0} where
  -- A parser whose DFA the tables can represent, or the limit error with the reason.
  abbrev pub Outcome : (q : Parser) → IsValid q.dfa → Result (L × List K) → Type 0
  Outcome q v (ok attached) = (t : Tables) × Represents encode noop limits q.dfa t
  Outcome q v (err e) = (e ≡ parser_exceeds_state_limit) × IsTooLargeFor q v

  follow-Outcome :
      (q : Parser) (v : IsValid q.dfa) (r : Result Tables) (x : Result (L × List K))
      → Injected encode noop limits q.dfa v
          (iter_transitions q.dfa)
          (iter_transitions-Lists q.dfa v)
          (record { some_action = omega arith; index_fits = omega arith })
          r
      → Follows r x
      → Outcome q v x
  follow-Outcome q v (ok t) (ok attached) injected follows = (t, injected)
  follow-Outcome q v (ok t) (err e) injected follows = absurd follows
  follow-Outcome q v (err e) (ok attached) injected follows = absurd follows
  follow-Outcome q v (err e) (err f) injected follows = rw follows at injected

module _ {S L K : Type 0} (skel : Skel S L K Tables) (o : Obliges skel) where
  -- If every call of libbpf succeeds, `attach` of an HTTP/1.1 parser with a valid DFA returns, unless the pattern for
  -- the end of the headers panics. It returns an attached parser only if there are tables that represent
  -- the DFA with that pattern, and otherwise the limit error, and then the DFA has more than 512
  -- states, or 256 transitions or more, or an input beyond the wildcard.
  pub attach_http1-Outcome :
      (target : ℕ) (progs : List Program) (p q : Parser) (s : S)
      → IsValid p.dfa
      → done_on_hdr_end p ≡ returns q
      → (v : IsValid q.dfa) × (x : Result (L × List K)) × (attach_http1 skel target progs p s
          ≡ returns x)
        × Outcome q v x
  unfolding attach_http1
  attach_http1-Outcome target progs p q s valid run =
      let v : IsValid q.dfa = ((done_on_hdr_end-Grown p valid).post q run).valid in
      let tables = inject-Tables q v in
      let (x, ran, follows) =
        attach-Follows skel o target (http1_config q) progs (Runtime.inject q) tables.value s
          tables.run in
      (v, x, rw run ran, follow-Outcome q v tables.value x tables.post follows)
