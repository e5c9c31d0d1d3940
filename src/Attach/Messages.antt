-- ===== src/Attach/Messages.antt =====
-- From `attach` of the HTTP/1.1 parser (beeper/src/http1/parser.rs) to what its program makes of a message
-- (beeper/src/http1/parser.bpf.c).
use beeper.Prelude.{
  ℕ, ◌≤◌, ◌<◌, ◌≡◌, ◌≢◌, sym, ◌∙◌, Bool, true, Bool-cases, inl, inr, ltb, ltb-false, Option, none,
  some, List, ◌++◌, length, arith, All, All-Memᴰ, Eq,
}
use mathlib.Core.List.{Memᴰ}
use beeper.Run.{returns, returns-eq}
use beeper.Map.{IsUnique}
use beeper.Error.{buffer_eq, ok}
use beeper.Dfa.{Dfa, Edge, StateId, Input, edge_at, Transition, iter_transitions}
use beeper.Dfa.Extends.{IsValid}
use beeper.Dfa.Listing.{iter_transitions-Lists}
use beeper.Inject as Inject
use beeper.Inject.{Limits, Rodata}
use beeper.Http1.{Parser, done_on_hdr_end}
use beeper.Http1.Actions.{Action, action_eq, encode, noop}
use beeper.Http1.Growth.{done_on_hdr_end-Grown}
use beeper.Http1.Runtime.{inject, Tables, limits}
use beeper.Http1.Parsing.{Match, max_bytes, init_walk, parse_msg}
use beeper.Http1.Running.{IsLow, dfa_walk}
use beeper.Http1.Messages.{verdict, parse_msg-Walks}
use beeper.Attach.{Program, Skel}
use beeper.Attach.Objects.{IsObject}
use beeper.Attach.Loading.{IsLoaded}
use beeper.Attach.Parsers.{http1_config, attach_http1}
use beeper.Attach.Contents.{inject-Represents, attach_http1-Injects}

-- A transition that leads back to the start has an action, and a match id of an action is below 32.
abbrev pub IsRunnable : Dfa Action → Type 0
IsRunnable d =
    All (λ (t : Transition Action). (t.to ≡ 0 → t.action ≢ none) × IsLow t.action)
      (iter_transitions d)

edge-runs :
    (d : Dfa Action) (v : IsValid d)
    → IsRunnable d
    → (f : StateId) (i : Input) (e : Edge Action) → edge_at d f i ≡ some e
    → (e.to ≡ 0 → e.action ≢ none) × IsLow e.action
edge-runs d v runs f i e at =
    All-Memᴰ (λ (t : Transition Action). (t.to ≡ 0 → t.action ≢ none) × IsLow t.action)
      (iter_transitions d) runs _ ((iter_transitions-Lists d v).complete f i e at)

inject-fits :
    {A C : Type 0} ⦃eq : Eq A⦄ (encode : A → C) (zeros : C) (limits : Limits) (n : ℕ)
    (ts : List (Transition A)) (t : Rodata C)
    → Inject.inject limits encode zeros n ts ≡ returns (ok t)
    → n ≤ limits.states
unfolding Inject.inject
inject-fits encode zeros limits n ts t run = elim (Bool-cases (ltb limits.states n)) [
  | inl over ↦ absurd (cc (rw over at run))
  | inr fits ↦ ltb-false _ _ fits
]

module _ {S L K : Type 0} (skel : Skel S L K Tables) (autoload : Program → S → Bool)
    (target_of : Program → S → Option (ℕ × List ℕ)) where
  -- For a libbpf whose calls on the opened object change what they are called for and nothing else, and
  -- an object that lists the programs it would load: `attach` of an HTTP/1.1 parser with a valid DFA,
  -- which has one function at most for each message buffer, succeeds, and in its DFA with the pattern
  -- for the end of the headers, the match ids are below 32 and a transition back to the start has an
  -- action. Then what is loaded has just the programs that the parser was given a function for, linked
  -- and set to replace it, and tables through which `parse_msg` makes of a message of at most 32767
  -- bytes, which is linear in its first part, which is not empty, and can be pulled in, what a walk
  -- through that DFA makes of it, byte by byte from the start: the same captured ranges, and the length
  -- of the header, or that the message is too big or incomplete.
  pub attach_http1-Walks :
      (laws : IsObject skel autoload target_of) (target : ℕ) (progs : List Program) (p q : Parser)
      (s : S) (l : L) (ks : List K) (linear rest : List ℕ) (ms : ℕ → Match)
      → IsValid p.dfa
      → IsUnique p.parse_fns
      → IsUnique p.get_fns
      → ((r : Program) → autoload r s ≡ true → Memᴰ r progs)
      → attach_http1 skel target progs p s ≡ returns (ok (l, ks))
      → done_on_hdr_end p ≡ returns q
      → IsRunnable q.dfa
      → 0 < length linear
      → length (linear ++ rest) ≤ max_bytes
      → (t : Tables) × IsLoaded skel autoload target_of target (http1_config p) t l ks
        × (parse_msg t true linear (linear ++ rest) ms
            ≡ verdict
                (length (linear ++ rest))
                (dfa_walk q.dfa 0 (linear ++ rest) (init_walk ms none)))
  unfolding inject
  attach_http1-Walks laws target progs p q s l ks linear rest ms valid u w listed run end runs
        some_byte small =
      let (done, t, ran, injects', loaded) =
        attach_http1-Injects skel autoload target_of laws target progs p s l ks u w listed run in
      let same : done ≡ q = returns-eq (sym ran ∙ end) in
      let injects : inject q ≡ returns (ok t) = rw same at injects' in
      let v : IsValid q.dfa = ((done_on_hdr_end-Grown p valid).post q end).valid in
      let edges = edge-runs q.dfa v runs in
      (
        t,
        loaded,
        parse_msg-Walks q.dfa v (λ f i e at. (edges f i e at).1) t
            (inject-Represents ⦃eq = action_eq⦄ encode noop limits q.dfa v
              (record { some_action = omega arith; index_fits = omega arith }) t injects)
            (λ f i e at. (edges f i e at).0)
            (inject-fits ⦃eq = action_eq⦄ encode noop limits q.dfa.num_states
              (iter_transitions q.dfa) t injects)
            linear rest ms some_byte small,
      )
