-- ===== src/Experience/Lifecycle.antt =====
-- internal/experience/lifecycle.go and `ValidLifecycleTransition` of validate.go: the states of an
-- approved experience and the actions that move it.
pub mod Transitions
use belay_engine.Prelude.{Text, Bool, true, false, [], ◌==◌}
use belay_engine.Experience.Enums.{LifecycleState, lifecycle_state_eq, LifecycleState-discrete}

pub data LifecycleAction : Type 0 where
  activate pause supersede expire : LifecycleAction
  other : Text → LifecycleAction

abbrev pub action_valid : LifecycleAction → Bool
action_valid (LifecycleAction.other _) = false
action_valid _ = true

-- `ValidLifecycleTransition`: the outer switch is the first argument.
unfoldable pub valid_lifecycle_transition : LifecycleState → LifecycleState → Bool
valid_lifecycle_transition LifecycleState.approved LifecycleState.active = true
valid_lifecycle_transition LifecycleState.approved LifecycleState.paused = true
valid_lifecycle_transition LifecycleState.approved LifecycleState.superseded = true
valid_lifecycle_transition LifecycleState.approved LifecycleState.expired = true
valid_lifecycle_transition LifecycleState.active LifecycleState.paused = true
valid_lifecycle_transition LifecycleState.active LifecycleState.contradicted = true
valid_lifecycle_transition LifecycleState.active LifecycleState.superseded = true
valid_lifecycle_transition LifecycleState.active LifecycleState.expired = true
valid_lifecycle_transition LifecycleState.paused LifecycleState.active = true
valid_lifecycle_transition LifecycleState.paused LifecycleState.contradicted = true
valid_lifecycle_transition LifecycleState.paused LifecycleState.superseded = true
valid_lifecycle_transition LifecycleState.paused LifecycleState.expired = true
valid_lifecycle_transition LifecycleState.contradicted LifecycleState.active = true
valid_lifecycle_transition LifecycleState.contradicted LifecycleState.paused = true
valid_lifecycle_transition LifecycleState.contradicted LifecycleState.superseded = true
valid_lifecycle_transition _ _ = false

abbrev no_state : LifecycleState
no_state = LifecycleState.other []

-- `States`: the one state that the action starts from, and its target.
unfoldable pub states : LifecycleAction → LifecycleState × LifecycleState × Bool
states LifecycleAction.activate = (LifecycleState.approved, LifecycleState.active, true)
states LifecycleAction.pause = (LifecycleState.active, LifecycleState.paused, true)
states _ = (no_state, no_state, false)

-- `TransitionFrom`
unfoldable pub transition_from : LifecycleAction → LifecycleState → LifecycleState × Bool
unfolding valid_lifecycle_transition LifecycleState-discrete
transition_from LifecycleAction.activate current =
    (LifecycleState.active, current == LifecycleState.approved)
transition_from LifecycleAction.pause current =
    (LifecycleState.paused, current == LifecycleState.active)
transition_from LifecycleAction.supersede current =
    (LifecycleState.superseded, valid_lifecycle_transition current LifecycleState.superseded)
transition_from LifecycleAction.expire current =
    (LifecycleState.expired, valid_lifecycle_transition current LifecycleState.expired)
transition_from (LifecycleAction.other _) current = (no_state, false)
