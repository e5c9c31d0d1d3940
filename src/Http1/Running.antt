-- ===== src/Http1/Running.antt =====
-- A run of the eBPF program of the HTTP/1.1 parser (beeper/src/http1/parser.bpf.c) is a walk through
-- the DFA that its tables were filled with.
use beeper.Prelude.{
  ℕ, zero, suc, ◌+◌, ◌%◌, ◌≤◌, ◌<◌, ◌≡◌, refl, ap, Bool, true, false, Option, none, some, List, [],
  ◌∷◌, ◌++◌, nat_eq, ◌==◌, length, if◌then◌else◌, arith, Bool-cases, inl, inr,
}
use beeper.Utils.{take, drop}
use beeper.Dfa.{Dfa, Edge, StateId, Input, edge_at, any_state, any_input}
use beeper.Dfa.Extends.{IsValid}
use beeper.Inject.Tables.{Represents, encoded}
use beeper.Http1.Actions.{
  Action, start_capture, end_capture, done, end_capture_and_done, noop, encode,
}
use beeper.Http1.Runtime.{limits, Tables, choose_edge, dfa_next, dfa_step, NeverResets, step-Reads}
use beeper.Http1.Parsing.{
  Walk, put, is_null, range, act_on, read_byte, read_bytes, clamp, max_bytes,
}

-- The actions as they are meant: a capture starts behind the byte that starts it, and ends with the
-- byte that ends it.
unfoldable pub perform : Option Action → ℕ → Walk → Walk
perform none i w = w
perform (some done) i w = w
perform (some (start_capture mid)) i w = record w { cidx = put w.cidx mid (i + 1) }
perform (some (end_capture mid)) i w = record w { ms = put w.ms mid (range (w.cidx mid) i) }
perform (some (end_capture_and_done mid)) i w = record w {
  ms = put w.ms mid (range (w.cidx mid) i);
}

abbrev pub stops : Option Action → Bool
stops none = false
stops (some done) = true
stops (some (start_capture mid)) = false
stops (some (end_capture mid)) = false
stops (some (end_capture_and_done mid)) = true

-- One byte, and all of them, through the DFA.
unfoldable pub dfa_read : Dfa Action → ℕ → ℕ → Walk → Walk × Bool
unfolding perform
dfa_read d i c w =
    if is_null c i w.null_prefix
    then (record w { null_prefix = some (i + 1) }, false)
    else (let next = dfa_step d w.state c in
        (perform next.1 i (record w { state = next.0 }), stops next.1))

unfoldable pub dfa_walk : Dfa Action → ℕ → List ℕ → Walk → Option ℕ × Walk
unfolding dfa_read
dfa_walk d i [] w = (none, w)
dfa_walk d i (c ∷ bytes) w =
    let r = dfa_read d i c w in
    let rest = dfa_walk d (i + 1) bytes r.0 in if r.1 then (some (i + 1), r.0) else rest

abbrev pub IsLow : Option Action → Type 0
IsLow none = Unit
IsLow (some done) = Unit
IsLow (some (start_capture mid)) = mid < 32
IsLow (some (end_capture mid)) = mid < 32
IsLow (some (end_capture_and_done mid)) = mid < 32

-- Every match id is below 32.
abbrev pub HasLowIds : Dfa Action → Type 0
HasLowIds d = (f : StateId) (i : Input) (e : Edge Action) → edge_at d f i ≡ some e → IsLow e.action

act_on-perform :
    (a : Option Action) (i : ℕ) (w : Walk)
    → IsLow a
    → (act_on (encoded encode noop a) i w ≡ perform a i w)
      × (((encoded encode noop a).flags % 2 == 1) ≡ stops a)
unfolding act_on perform encode
act_on-perform none i w low = (refl, refl)
act_on-perform (some done) i w low = (refl, refl)
act_on-perform (some (start_capture mid)) i w low =
    let same : mid % 32 ≡ mid = omega arith in (rw same refl, refl)
act_on-perform (some (end_capture mid)) i w low =
    let same : mid % 32 ≡ mid = omega arith in (rw same refl, refl)
act_on-perform (some (end_capture_and_done mid)) i w low =
    let same : mid % 32 ≡ mid = omega arith in (rw same refl, refl)

same-pair : {w w' : Walk} {b b' : Bool} → w ≡ w' → b ≡ b' → ◌≡◌ {A = Walk × Bool} (w, b) (w', b')
same-pair p q = rw (p, q) refl

module _ (d : Dfa Action) (v : IsValid d) (low : HasLowIds d) where
  -- A step leads to a state that there is, along an edge that there is.
  abbrev IsStep : StateId × Option Action → Type 0
  IsStep r = (r.0 < d.num_states) × IsLow r.1

  choose_edge-IsStep :
      (s : StateId) (c c' : Input) (o any : Option (Edge Action))
      → edge_at d s c ≡ o
      → edge_at d s c' ≡ any
      → IsStep (choose_edge o any)
  unfolding choose_edge
  choose_edge-IsStep s c c' (some e) any at _ = ((v.bounded s c e at).1, low s c e at)
  choose_edge-IsStep s c c' none (some e) _ at = ((v.bounded s c' e at).1, low s c' e at)
  choose_edge-IsStep s c c' none none _ _ = (omega (arith, v.reserved), tt)

  dfa_step-IsStep : (s : StateId) (c : Input) → IsStep (dfa_step d s c)
  unfolding dfa_step dfa_next
  dfa_step-IsStep s c = elim (Bool-cases ((dfa_next d s c).0 == any_state)) [
    | inl back ↦ rw back (choose_edge-IsStep any_state c any_input _ _ refl refl)
    | inr on ↦ rw on (choose_edge-IsStep s c any_input _ _ refl refl)
  ]

  perform-state : (a : Option Action) (i : ℕ) (w : Walk) → (perform a i w).state ≡ w.state
  unfolding perform
  perform-state none i w = refl
  perform-state (some done) i w = refl
  perform-state (some (start_capture mid)) i w = refl
  perform-state (some (end_capture mid)) i w = refl
  perform-state (some (end_capture_and_done mid)) i w = refl

  pub dfa_read-state :
      (i c : ℕ) (w : Walk) → w.state < d.num_states → (dfa_read d i c w).0.state < d.num_states
  unfolding dfa_read
  dfa_read-state i c w h = elim (Bool-cases (is_null c i w.null_prefix)) [
    | inl skip ↦ rw skip h
    | inr on ↦
        let next : StateId × Option Action = dfa_step d w.state c in
        rw on
          (rw (perform-state next.1 i (record w { state = next.0 })) (dfa_step-IsStep w.state c).0)
  ]

  module _ (tables : Tables) (rep : Represents encode noop limits d tables) (never : NeverResets d)
      (fits : d.num_states ≤ 512) where
    read_byte-Reads :
        (i c : ℕ) (w : Walk) → w.state < d.num_states → read_byte tables i c w ≡ dfa_read d i c w
    unfolding read_byte dfa_read
    read_byte-Reads i c w h = elim (Bool-cases (is_null c i w.null_prefix)) [
      | inl skip ↦ rw skip refl
      | inr on ↦
          let (state, act) = step-Reads d tables rep never w.state c (omega arith) in
          let next : StateId × Option Action = dfa_step d w.state c in
          let (performed, stop) =
            act_on-perform next.1 i (record w { state = next.0 }) (dfa_step-IsStep w.state c).1 in
          rw on (rw (act, state) (same-pair performed stop))
    ]

    pub read_bytes-walk :
        (i : ℕ) (bytes : List ℕ) (w : Walk)
        → w.state < d.num_states
        → read_bytes tables i bytes w ≡ dfa_walk d i bytes w
    unfolding read_bytes dfa_walk
    read_bytes-walk i [] w h = refl
    read_bytes-walk i (c ∷ bytes) w h =
        rw (read_byte-Reads i c w h)
          (rw (read_bytes-walk (i + 1) bytes (dfa_read d i c w).0 (dfa_read-state i c w h)) refl)

-- A walk over two parts of a message.
abbrev pub resume : Dfa Action → ℕ → List ℕ → Option ℕ × Walk → Option ℕ × Walk
resume d i bytes (some n, w) = (some n, w)
resume d i bytes (none, w) = dfa_walk d i bytes w

pub dfa_walk-append :
    (d : Dfa Action) (i : ℕ) (xs ys : List ℕ) (w : Walk)
    → dfa_walk d i (xs ++ ys) w ≡ resume d (i + length xs) ys (dfa_walk d i xs w)
unfolding dfa_walk
dfa_walk-append d i [] ys w = let z : i + 0 ≡ i = omega arith in rw z refl
dfa_walk-append d i (x ∷ xs) ys w = elim (Bool-cases (dfa_read d i x w).1) [
  | inl stop ↦ rw stop refl
  | inr on ↦
      let p : i + suc (length xs) ≡ i + 1 + length xs = omega arith in
      rw on (rw p (dfa_walk-append d (i + 1) xs ys (dfa_read d i x w).0))
]

pub take-all : (n : ℕ) (xs : List ℕ) → length xs ≤ n → take n xs ≡ xs
unfolding take
take-all zero [] h = refl
take-all zero (x ∷ xs) h = absurd (omega arith)
take-all (suc n) [] h = refl
take-all (suc n) (x ∷ xs) h = ap (λ (t : List ℕ). x ∷ t) (take-all n xs (omega arith))

pub drop-append : (xs ys : List ℕ) → drop (length xs) (xs ++ ys) ≡ ys
unfolding drop
drop-append [] ys = refl
drop-append (x ∷ xs) ys = drop-append xs ys

pub clamp-small : (n : ℕ) → n ≤ max_bytes → clamp n ≡ n
clamp-small n h = ground arith
