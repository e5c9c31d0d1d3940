-- ===== src/Tests/Samples.antt =====
-- Small DFAs and builders for the tests.
use beeper.Prelude.{◌<◌, true, arith, some, codes, nat_eq}
use beeper.Dfa.{Dfa, Edge, any_state, init_state, edge_at, put_edge}
use beeper.Dfa as Dfa
use beeper.Dfa.Extends.{IsValid, new-IsValid, Extends, put_edge-Extends}
use beeper.Builder.{DfaBuilder, start_pattern, push_optional}
use beeper.Builder.Sound.{IsSound}
use beeper.Builder.Chains.{Pattern, Pattern-start, Pattern-optional}
use beeper.Http1.Actions.{Action, done, action_eq}

abbrev pub empty : Dfa Action
empty = Dfa.new

-- a loop on `A` in the fallback state
abbrev pub loop : Edge Action
loop = record { to = any_state; action = some done }

abbrev pub looping : Dfa Action
looping = put_edge empty any_state 65 loop

pub empty-two : 1 < empty.num_states
unfolding Dfa.new Dfa.with_reserved_states
empty-two = omega arith

pub looping-Extends : Extends empty looping
looping-Extends =
    put_edge-Extends empty any_state 65 loop
      (unfold Dfa.new Dfa.with_reserved_states edge_at Dfa.row_at beeper.Map.lookup in tt) empty-two
      empty-two (omega arith)

pub looping-IsValid : IsValid looping
looping-IsValid = looping-Extends.valid new-IsValid

-- one more edge, from the start
abbrev pub longer : Dfa Action
longer = put_edge looping init_state 66 loop

pub longer-Extends : Extends looping longer
longer-Extends =
    put_edge-Extends looping init_state 66 loop
      (unfold Dfa.new Dfa.with_reserved_states put_edge edge_at Dfa.row_at beeper.Map.lookup
          beeper.Map.insert in
        tt)
      (omega (arith, empty-two, looping-Extends.states))
      (omega (arith, empty-two, looping-Extends.states)) (omega arith)

-- a fresh pattern at the start, and one with an optional prefix pending
abbrev pub fresh : DfaBuilder Action
fresh = start_pattern empty init_state

fresh-Pattern : Pattern empty fresh
fresh-Pattern = Pattern-start empty init_state new-IsValid (omega (arith, empty-two))

pub fresh-IsSound : IsSound fresh
fresh-IsSound = fresh-Pattern.sound

abbrev pub with_blank : DfaBuilder Action
with_blank = push_optional fresh (codes " ") true

pub with_blank-IsSound : IsSound with_blank
with_blank-IsSound = (Pattern-optional (codes " ") true fresh-Pattern (omega arith)).sound
