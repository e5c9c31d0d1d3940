-- ===== src/Tests/Patterns.antt =====
-- The theorems on `Dfa` and `DfaBuilder` (beeper/src/dfa.rs) at concrete inputs.
use beeper.Prelude.{
  ◌+◌, ◌≤◌, ◌<◌, ◌≡◌, ◌⊎◌, refl, arith, Option, none, some, [], ◌∷◌, codes, true, false, length,
}
use beeper.Run.{returns, panics, Ensures, Returns, conflicting_transition, conflicting_action}
use beeper.Dfa.{
  StateId, Dfa, Edge, init_state, any_state, any_input, u16_mod, edge_at, put_edge, next_state,
  insert_edge, add_action, iter_transitions,
}
use beeper.Dfa as Dfa
use beeper.Dfa.Extends.{Leads}
use beeper.Dfa.Growth.{Added, add_action-Added}
use beeper.Dfa.Conflicts.{Accepts, joined, insert_edge-Accepts}
use beeper.Dfa.Edges.{put_edge_self}
use beeper.Dfa.Listing.{Lists, iter_transitions-Lists}
use beeper.Dfa.Walk.{walk, walk-cons}
use beeper.Builder.{
  start_pattern, DfaBuilder, push_optional_prefixes, push_edge_from, push_edge, with_action,
  push_inner, push,
}
use beeper.Builder.Patterns.{included, unbounded, push_any, push_options_inner, restart_with}
use beeper.Builder.Growth.{Pushed, push_edge_from-Pushed}
use mathlib.Core.Path.{subst}
use beeper.Dfa.{StateId}
use beeper.Builder.Prefixes.{PrefixesBuilt, push_optional_prefixes-Flushed}
use beeper.Builder.Steps.{Stepped, push_edge-Stepped}
use beeper.Builder.Actions.{Acted, with_action-Acted}
use beeper.Builder.Walks.{Spelled, push_inner-Spelled}
use beeper.Builder.Options.{Alternatives, push_options_inner-Alternatives}
use beeper.Builder.Restart.{Restarted, restart_with-Restarted}
use beeper.Builder.Repeats.{AnyPushed, push_any-AnyPushed}
use beeper.Builder.Total.{push-Returns}
use beeper.Http1.Actions.{Action, done, action_eq}
use beeper.Tests.Samples.{
  empty, loop, looping, looping-IsValid, fresh, fresh-IsSound, with_blank, with_blank-IsSound,
}

looping-Leads : Leads looping any_state 65 any_state
looping-Leads = (loop, put_edge_self empty any_state 65 loop, refl)

looping-two : 1 < looping.num_states
unfolding put_edge Dfa.new Dfa.with_reserved_states
looping-two = omega arith

add_action-Added_example :
    Ensures (Added looping any_state 65 any_state done) (add_action looping any_state 65 done)
add_action-Added_example =
    add_action-Added looping any_state 65 looping-two (omega arith) any_state done looping-Leads
      looping-two

abbrev no_action : Option Action
no_action = none

insert_edge-Accepts_example :
    (Accepts (edge_at looping any_state 65) any_state no_action
      × (insert_edge looping any_state 65 any_state none
          ≡ returns (
              put_edge looping any_state 65
                (joined (edge_at looping any_state 65) any_state no_action))))
    ⊎ ((Accepts (edge_at looping any_state 65) any_state no_action → ⊥)
        × ((insert_edge looping any_state 65 any_state no_action ≡ panics conflicting_transition)
            ⊎ (insert_edge looping any_state 65 any_state no_action ≡ panics conflicting_action)))
insert_edge-Accepts_example = insert_edge-Accepts looping any_state 65 any_state no_action

iter_transitions-Lists_example : Lists looping (iter_transitions looping)
iter_transitions-Lists_example = iter_transitions-Lists looping looping-IsValid

looping-walk : walk looping any_state (65 ∷ []) ≡ some any_state
unfolding walk
looping-walk = walk-cons looping any_state 65 [] any_state looping-Leads

push_optional_prefixes-Flushed_example :
    Ensures (PrefixesBuilt with_blank) (push_optional_prefixes with_blank)
push_optional_prefixes-Flushed_example =
    push_optional_prefixes-Flushed with_blank with_blank-IsSound

push_edge_from-Pushed_example :
    Ensures
      (Pushed looping any_state 66 (some any_state) true)
      (push_edge_from looping any_state 66 (some any_state) true)
push_edge_from-Pushed_example =
    push_edge_from-Pushed looping any_state 66 (some any_state) true looping-IsValid looping-two
      (omega arith) (λ t e. subst (λ (s : StateId). s < looping.num_states) (cc) looping-two)

push_edge-Stepped_example :
    Ensures (Stepped with_blank 97 none false) (push_edge with_blank 97 none false)
push_edge-Stepped_example =
    push_edge-Stepped with_blank 97 none false with_blank-IsSound (omega arith) (λ t e. cc)

with_action-Acted_example : Ensures (Acted with_blank done) (with_action with_blank done)
with_action-Acted_example = with_action-Acted with_blank done with_blank-IsSound

push_inner-Spelled_example :
    Ensures (Spelled with_blank (codes "GET") false) (push_inner with_blank (codes "GET") false)
push_inner-Spelled_example =
    push_inner-Spelled with_blank (codes "GET") false with_blank-IsSound (omega arith)

push_options_inner-Alternatives_example :
    Ensures
      (Alternatives fresh (codes "GET" ∷ codes "POST" ∷ []) false)
      (push_options_inner fresh (codes "GET" ∷ codes "POST" ∷ []) false)
push_options_inner-Alternatives_example =
    push_options_inner-Alternatives fresh (codes "GET" ∷ codes "POST" ∷ []) false fresh-IsSound
      (omega arith)

restart_with-Restarted_example :
    Ensures (Restarted with_blank (codes "\n")) (restart_with with_blank (codes "\n"))
restart_with-Restarted_example =
    restart_with-Restarted with_blank (codes "\n") with_blank-IsSound (omega arith) (λ e. cc)

push_any-AnyPushed_example :
    Ensures (AnyPushed fresh (included 1) unbounded) (push_any fresh (included 1) unbounded)
push_any-AnyPushed_example = push_any-AnyPushed fresh (included 1) unbounded fresh-IsSound

push-Returns_example :
    Returns
      (λ (b' : DfaBuilder Action).
        Spelled fresh (codes "SM") true b'
        × (b'.dfa.num_states ≤ fresh.dfa.num_states + length (codes "SM")))
      (push fresh (codes "SM"))
unfolding start_pattern
push-Returns_example =
    push-Returns fresh (codes "SM") fresh-IsSound (omega arith)
      (record { prefixes = refl; states = refl })
      (unfold Dfa.new Dfa.with_reserved_states in omega arith)
