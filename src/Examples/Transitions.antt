-- ===== src/Examples/Transitions.antt =====
-- Lifecycle moves.
use belay_engine.Prelude.{
  text, true, false, pos, ok, ◌≡◌, ◌≢◌, refl, ◌↔◌, ◌⊎◌, ◌<◌, List, [], ◌∷◌, String, Text, In, inl,
  inr,
}
use belay_engine.Experience.Approval.Token.{ApprovalTokenClaims, validate_approval_token}
use belay_engine.Experience.Approval.Token.Accepted.{IsApprovalToken, validate_approval_token_iff}
use belay_engine.Experience.Enums.{LifecycleState}
use belay_engine.Experience.Validate.Evidence.{governed_state}
use belay_engine.Experience.Lifecycle.{
  LifecycleAction, action_valid, valid_lifecycle_transition, states, transition_from,
}
use belay_engine.Experience.Lifecycle.Transitions.{
  Reach, Reach-governed_state, transitions, IsFinal, governed_state-superseded,
  transition_from-valid, states-transition_from,
}
use belay_engine.Experience.Validate.Tracking.{LifecycleActionTokenClaims, validate_lifecycle_token}
use belay_engine.Experience.Validate.Tracking.Tokens.{validate_lifecycle_token-valid}
use belay_engine.Examples.Data.{digest}

abbrev two_moves : Reach LifecycleState.approved LifecycleState.paused
unfolding valid_lifecycle_transition
two_moves =
    Reach.next {t = LifecycleState.active}
      (Reach.next {t = LifecycleState.approved} Reach.here refl) refl

Reach-governed_state_example :
    (governed_state LifecycleState.paused ≡ true)
    × (((transitions two_moves ≡ 0) × (LifecycleState.approved ≡ LifecycleState.paused))
        ⊎ (LifecycleState.paused ≢ LifecycleState.approved))
Reach-governed_state_example =
    Reach-governed_state LifecycleState.approved LifecycleState.paused two_moves refl

governed_state-superseded_example :
    (valid_lifecycle_transition LifecycleState.contradicted LifecycleState.superseded ≡ true)
    ⊎ (IsFinal LifecycleState.contradicted
        × ((u : LifecycleState) → valid_lifecycle_transition LifecycleState.contradicted u ≡ false))
governed_state-superseded_example = governed_state-superseded LifecycleState.contradicted refl

transition_from-valid_example :
    (action_valid LifecycleAction.expire ≡ true)
    × (valid_lifecycle_transition LifecycleState.paused LifecycleState.expired ≡ true)
unfolding transition_from valid_lifecycle_transition
transition_from-valid_example =
    transition_from-valid LifecycleAction.expire LifecycleState.paused refl

states-transition_from_example :
    ((transition_from LifecycleAction.pause LifecycleState.active).0 ≡ LifecycleState.paused)
    × (((transition_from LifecycleAction.pause LifecycleState.active).1 ≡ true)
        ↔ (LifecycleState.active ≡ LifecycleState.active))
unfolding states
states-transition_from_example =
    states-transition_from LifecycleAction.pause LifecycleState.active refl

abbrev expire_token : LifecycleActionTokenClaims
expire_token = record {
  version = text "belay.experience-lifecycle-token.v1";
  action = LifecycleAction.expire;
  experience = record { experience_id = text "e"; version = pos 1 };
  project_identity = text "p";
  current_lifecycle = LifecycleState.paused;
  content_hash = digest;
  issued_at = 1;
  expires_at = 2;
}

expire_token_valid : validate_lifecycle_token expire_token ≡ ok tt
unfolding validate_lifecycle_token
expire_token_valid = refl

validate_lifecycle_token-valid_example :
    (valid_lifecycle_transition LifecycleState.paused
        (transition_from LifecycleAction.expire LifecycleState.paused).0
      ≡ true)
    × (1 < 2)
validate_lifecycle_token-valid_example =
    validate_lifecycle_token-valid expire_token expire_token_valid

abbrev approval_token : ApprovalTokenClaims
approval_token = record {
  version = text "belay.experience-approval-token.v1";
  candidate_id = text "c";
  proposal_id = text "q";
  project_identity = text "p";
  semantic_input_hash = digest;
  proposed_content_hash = digest;
  evidence_generation = digest;
  issued_at = 1;
  expires_at = 2;
}

-- A run that visits the second entry of the map first.
abbrev second_first : List (String × Text) → List (String × Text)
second_first [] = []
second_first (d ∷ []) = d ∷ []
second_first (d ∷ e ∷ es) = e ∷ d ∷ es

second_first_same :
    (es : List (String × Text)) (e : String × Text) → In e (second_first es) ↔ In e es
second_first_same [] e = (λ m. m, λ m. m)
second_first_same (d ∷ []) e = (λ m. m, λ m. m)
second_first_same (c ∷ d ∷ es) e = (
  λ m. elim m [ inl p ↦ inr (inl p) | inr (inl p) ↦ inl p | inr (inr k) ↦ inr (inr k) ],
  λ m. elim m [ inl p ↦ inr (inl p) | inr (inl p) ↦ inl p | inr (inr k) ↦ inr (inr k) ],
)

validate_approval_token_iff_example :
    (validate_approval_token second_first approval_token ≡ ok tt) ↔ IsApprovalToken approval_token
validate_approval_token_iff_example =
    validate_approval_token_iff second_first second_first_same approval_token
