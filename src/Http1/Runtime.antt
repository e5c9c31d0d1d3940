-- ===== src/Http1/Runtime.antt =====
-- The tables of the HTTP/1.1 parser: `inject` with the limits of the eBPF program
-- (beeper/src/http1/parser.rs), and one step of the program through the tables (`_next` and
-- `_parse_from` of beeper/src/http1/parser.bpf.c).
use beeper.Prelude.{
  ℕ, ◌%◌, ◌<◌, ◌≡◌, ◌≢◌, refl, sym, ap, ◌∙◌, Option, none, some, Option-cases, Bool-cases, inl, inr,
  arith, ◌==◌, nat_eq, ◌&&◌, if◌then◌else◌, true, false, Bool,
}
use beeper.Run.{Run, Returns}
use beeper.Error.{Result}
use beeper.Dfa.{StateId, Input, Edge, Dfa, edge_at, any_state, any_input, iter_transitions}
use beeper.Dfa.Extends.{IsValid}
use beeper.Dfa.Listing.{iter_transitions-Lists}
use beeper.Inject.{Limits, Trans, Rodata}
use beeper.Inject as Inject
use beeper.Inject.Tables.{Represents, Injected, encoded, inject-Injected}
use beeper.Http1.{Parser}
use beeper.Http1.Actions.{Action, action_eq, Http1Action, noop, encode}

-- `MAX_STATES`, `MAX_EDGES` and `MAX_ACTIONS` of http1/parser.bpf.c
abbrev pub limits : Limits
limits = record { states = 512; edges = 257; actions = 256 }

abbrev pub Tables : Type 0
Tables = Rodata Http1Action

-- `inject` from the check of the number of states on
unfoldable pub inject : Parser → Run (Result Tables)
inject p = Inject.inject limits encode noop p.dfa.num_states (iter_transitions p.dfa)

abbrev is_empty : Trans → Bool
is_empty t = t.state == 0 && t.action == 0

-- the tests of `_next` on the cell for the byte and the cell for any byte
unfoldable choose : Trans → Trans → ℕ × ℕ
choose t any =
    if is_empty t
    then if is_empty any then (any_state, 0) else (any.state, any.action)
    else (t.state, t.action)

-- `_next`
unfoldable pub next : Tables → ℕ → ℕ → ℕ × ℕ
unfolding choose
next tables state input =
    let s = state % 512 in choose (tables.states s input) (tables.states s any_input)

-- `_action`
unfoldable pub action_of : Tables → ℕ → Http1Action
action_of tables id = tables.actions (id % 256)

-- the state and the action that the loop of `_parse_from` goes on with after a byte
unfoldable pub step : Tables → ℕ → ℕ → ℕ × ℕ
unfolding next
step tables state input =
    let (s, a) = next tables state input in
    if s == any_state then next tables any_state input else (s, a)

-- The same on the DFA: an edge for the byte, else a wildcard, else the fallback state.
unfoldable pub choose_edge : Option (Edge Action) → Option (Edge Action) → StateId × Option Action
choose_edge (some e) any = (e.to, e.action)
choose_edge none (some e) = (e.to, e.action)
choose_edge none none = (any_state, none)

unfoldable pub dfa_next : Dfa Action → StateId → Input → StateId × Option Action
unfolding choose_edge
dfa_next d s c = choose_edge (edge_at d s c) (edge_at d s any_input)

unfoldable pub dfa_step : Dfa Action → StateId → Input → StateId × Option Action
unfolding dfa_next
dfa_step d s c = let r = dfa_next d s c in if r.0 == any_state then dfa_next d any_state c else r

-- An empty cell stands for no edge, so no edge may lead back to the start without an action.
abbrev pub NeverResets : Dfa Action → Type 0
NeverResets d =
    (f : StateId) (i : Input) (e : Edge Action)
    → edge_at d f i ≡ some e
    → e.to ≡ 0
    → e.action ≢ none

encode-noop : (a : Action) → encode a ≢ noop
unfolding encode
encode-noop a h = ground arith

-- Injecting the DFA of a parser fills the tables with it, or finds it too large for them.
pub inject-Tables :
    (p : Parser) (v : IsValid p.dfa)
    → Returns
        (Injected encode noop limits p.dfa v
          (iter_transitions p.dfa)
          (iter_transitions-Lists p.dfa v)
          (record { some_action = omega arith; index_fits = omega arith }))
        (inject p)
unfolding inject
inject-Tables p v =
    inject-Injected encode noop limits p.dfa v (iter_transitions p.dfa)
      (iter_transitions-Lists p.dfa v)
      (record { some_action = omega arith; index_fits = omega arith })

module _ (d : Dfa Action) (tables : Tables) (rep : Represents encode noop limits d tables)
    (never : NeverResets d) where
  -- An edge as the program reads it.
  abbrev Reads : StateId × Option Action → ℕ × ℕ → Type 0
  Reads r x = (x.0 ≡ r.0) × (action_of tables x.1 ≡ encoded encode noop r.1)

  no_edge-is_empty :
      (s : StateId) (i : Input) → edge_at d s i ≡ none → is_empty (tables.states s i) ≡ true
  no_edge-is_empty s i absent = rw (rep.no_edge s i absent) refl

  edge-Reads :
      (s : StateId) (i : Input) (e : Edge Action)
      → edge_at d s i ≡ some e
      → Reads (e.to, e.action) ((tables.states s i).state, (tables.states s i).action)
  unfolding action_of
  edge-Reads s i e at =
      let (to, act) = rep.edge s i e at in
      let small : (tables.states s i).action % 256 ≡ (tables.states s i).action =
        omega (arith, rep.small s i) in
      (to, rw (action_of, small) act)

  edge-not_empty :
      (s : StateId) (i : Input) (e : Edge Action)
      → edge_at d s i ≡ some e
      → is_empty (tables.states s i) ≡ false
  edge-not_empty s i e at = elim (Bool-cases (is_empty (tables.states s i))) [
    | inr full ↦ full
    | inl empty ↦
        let (to, act) = rep.edge s i e at in
        let reset : e.to ≡ 0 = sym to ∙ ground arith in
        let first : (tables.states s i).action ≡ 0 = ground arith in
        let idle : encoded encode noop e.action ≡ noop =
          sym act ∙ ap tables.actions first ∙ rep.noop in
        elim (Option-cases e.action) [
          | inl none_there ↦ absurd (never s i e at reset none_there)
          | inr (a, there) ↦ absurd (encode-noop a (rw there at idle))
        ]
  ]

  choose-Reads :
      (s : StateId) (c : Input) (o any : Option (Edge Action))
      → edge_at d s c ≡ o
      → edge_at d s any_input ≡ any
      → Reads (choose_edge o any) (choose (tables.states s c) (tables.states s any_input))
  unfolding choose choose_edge
  choose-Reads s c (some e) any at h = rw (edge-not_empty s c e at) (edge-Reads s c e at)
  choose-Reads s c none (some e) absent at =
      rw (no_edge-is_empty s c absent, edge-not_empty s any_input e at)
        (edge-Reads s any_input e at)
  choose-Reads s c none none absent absent' =
      rw (no_edge-is_empty s c absent, no_edge-is_empty s any_input absent')
        (refl, unfold action_of in rep.noop)

  next-Reads : (s : StateId) (c : Input) → s < 512 → Reads (dfa_next d s c) (next tables s c)
  unfolding next dfa_next
  next-Reads s c fits =
      let inside : s % 512 ≡ s = omega arith in
      rw inside (choose-Reads s c (edge_at d s c) (edge_at d s any_input) refl refl)

  -- One step of the program, from a state below 512 and through tables that represent a DFA in
  -- which no edge leads back to the start without an action, is one step through that DFA: it takes
  -- the edge for the byte, else the wildcard, else falls back; from the fallback state it tries the
  -- byte again; and the action that the program looks up is the encoded action of the edge that was
  -- taken.
  pub step-Reads : (s : StateId) (c : Input) → s < 512 → Reads (dfa_step d s c) (step tables s c)
  unfolding step dfa_step
  step-Reads s c fits =
      let h : Reads (dfa_next d s c) (next tables s c) = next-Reads s c fits in
      elim (Bool-cases ((dfa_next d s c).0 == any_state)) [
        | inl back ↦
            let back' : ((next tables s c).0 == any_state) ≡ true = rw h.0 back in
            rw (back, back') (next-Reads any_state c (omega arith))
        | inr on ↦
            let on' : ((next tables s c).0 == any_state) ≡ false = rw h.0 on in rw (on, on') h
      ]
