-- ===== src/Experience/Lifecycle/Transitions.antt =====
-- What the transition table and the lifecycle actions allow over any sequence of moves.
use belay_engine.Prelude.{ℕ, suc, true, false, ◌≡◌, ◌≢◌, refl, ◌↔◌, ◌⊎◌, inl, inr, arith}
use belay_engine.Experience.Lifecycle.{
  LifecycleAction, action_valid, valid_lifecycle_transition, states, transition_from,
}
use belay_engine.Experience.Enums.{LifecycleState, lifecycle_state_eq}
use belay_engine.Experience.Validate.Evidence.{governed_state}

-- A sequence of moves that `ValidLifecycleTransition` admits.
pub data Reach (s : LifecycleState) : LifecycleState → Type 0 where
  here : Reach s s
  next : {t u : LifecycleState} → Reach s t → valid_lifecycle_transition t u ≡ true → Reach s u

step_governed :
    (t u : LifecycleState) → valid_lifecycle_transition t u ≡ true → governed_state u ≡ true
unfolding valid_lifecycle_transition
step_governed t u h = ground arith

step_not_approved :
    (t u : LifecycleState) → valid_lifecycle_transition t u ≡ true → u ≢ LifecycleState.approved
unfolding valid_lifecycle_transition
step_not_approved t u h = ground arith

-- How many transitions a sequence makes.
abbrev pub transitions : {s t : LifecycleState} → Reach s t → ℕ
transitions here = 0
transitions (next r h) = suc (transitions r)

-- From any state that `Governance.Validate` admits, every sequence of valid transitions ends in such
-- a state; either it makes no transition and ends where it starts, or it does not end in `approved`.
pub Reach-governed_state :
    (s t : LifecycleState) (r : Reach s t)
    → governed_state s ≡ true
    → (governed_state t ≡ true) × (((transitions r ≡ 0) × (s ≡ t)) ⊎ (t ≢ LifecycleState.approved))
Reach-governed_state s _ here g = (g, inl (refl, refl))
Reach-governed_state s _ (next {t} {u} r h) g = (step_governed t u h, inr (step_not_approved t u h))

pub data IsFinal : LifecycleState → Type 0 where
  superseded : IsFinal LifecycleState.superseded
  expired : IsFinal LifecycleState.expired

final_stuck : (s u : LifecycleState) → IsFinal s → valid_lifecycle_transition s u ≡ false
unfolding valid_lifecycle_transition
final_stuck _ u superseded = refl
final_stuck _ u expired = refl

-- A governed state either is final, and no transition leaves it, or one transition takes it to
-- `superseded`.
pub governed_state-superseded :
    (s : LifecycleState)
    → governed_state s ≡ true
    → (valid_lifecycle_transition s LifecycleState.superseded ≡ true)
      ⊎ (IsFinal s × ((u : LifecycleState) → valid_lifecycle_transition s u ≡ false))
unfolding valid_lifecycle_transition
governed_state-superseded LifecycleState.approved g = inl refl
governed_state-superseded LifecycleState.active g = inl refl
governed_state-superseded LifecycleState.paused g = inl refl
governed_state-superseded LifecycleState.contradicted g = inl refl
governed_state-superseded LifecycleState.superseded g =
    inr (superseded, λ u. final_stuck LifecycleState.superseded u superseded)
governed_state-superseded LifecycleState.expired g =
    inr (expired, λ u. final_stuck LifecycleState.expired u expired)
governed_state-superseded LifecycleState.candidate g = cc
governed_state-superseded LifecycleState.rejected g = cc
governed_state-superseded (LifecycleState.other t) g = cc

-- An action that `TransitionFrom` accepts is valid, and makes a transition of the table to the state
-- that it names.
pub transition_from-valid :
    (a : LifecycleAction) (s : LifecycleState)
    → (transition_from a s).1 ≡ true
    → (action_valid a ≡ true) × (valid_lifecycle_transition s (transition_from a s).0 ≡ true)
unfolding transition_from valid_lifecycle_transition
transition_from-valid LifecycleAction.activate s h =
    let e = (lifecycle_state_eq.beq_iff s LifecycleState.approved).0 h in (refl, rw e refl)
transition_from-valid LifecycleAction.pause s h =
    let e = (lifecycle_state_eq.beq_iff s LifecycleState.active).0 h in (refl, rw e refl)
transition_from-valid LifecycleAction.supersede s h = (refl, h)
transition_from-valid LifecycleAction.expire s h = (refl, h)
transition_from-valid (LifecycleAction.other t) s h = cc

-- Where `States` answers, `TransitionFrom` accepts the action in exactly the first state that it gives,
-- and has the second one as its target.
pub states-transition_from :
    (a : LifecycleAction) (s : LifecycleState)
    → (states a).2 ≡ true
    → ((transition_from a s).0 ≡ (states a).1)
      × (((transition_from a s).1 ≡ true) ↔ (s ≡ (states a).0))
unfolding transition_from states
states-transition_from LifecycleAction.activate s h =
    (refl, lifecycle_state_eq.beq_iff s LifecycleState.approved)
states-transition_from LifecycleAction.pause s h =
    (refl, lifecycle_state_eq.beq_iff s LifecycleState.active)
states-transition_from LifecycleAction.supersede s h = cc
states-transition_from LifecycleAction.expire s h = cc
states-transition_from (LifecycleAction.other t) s h = cc
