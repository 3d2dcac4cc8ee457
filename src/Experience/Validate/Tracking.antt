-- ===== src/Experience/Validate/Tracking.antt =====
-- Measurements, lifecycle transitions, evaluations and lifecycle tokens: internal/experience/model.go,
-- validate.go and lifecycle.go. The identifiers are digests and stand for parameters.
pub mod Tokens
use belay_engine.Prelude.{
  Text, text, Bool, true, false, ◌&&◌, ◌||◌, not, List, [], Option, ◌==◌, ◌!=◌, ℤ, pos, ltb_ℤ,
  is_empty, Check, fail_if, each, nat_eq, list_eq, ◌>>◌,
}
use belay_engine.Experience.Enums.{
  LifecycleState, OpportunityState, opportunity_valid, ApplicabilityState,
  applicability_state_valid, VerifierState, verifier_state_valid, TaskOutcomeState,
  task_outcome_valid,
}
use belay_engine.Experience.Model.{Time, is_zero, after, ExperienceRef, EvidenceRef}
use belay_engine.Experience.Verifier.{CoverageRequirement, coverage_valid}
use belay_engine.Experience.Validate.Fields.{validate_identifier, valid_sha256}
use belay_engine.Experience.Validate.Records.{too_many, zero_time, validate_ref}
use belay_engine.Experience.Validate.Evidence.{validate_evidence_ref}
use belay_engine.Experience.Lifecycle.{
  LifecycleAction, action_valid, valid_lifecycle_transition, transition_from,
}

pub data TransitionActorKind : Type 0 where
  user deterministic_worker : TransitionActorKind
  other : Text → TransitionActorKind

abbrev pub actor_valid : TransitionActorKind → Bool
actor_valid (TransitionActorKind.other _) = false
actor_valid _ = true

pub record ExperienceMeasurement : Type 0 where
  pub experience : ExperienceRef
  pub opportunities : ℤ
  pub deliveries : ℤ
  pub satisfied : ℤ
  pub violated : ℤ
  pub unknown : ℤ
  pub explicit_corrections : ℤ
  pub last_applied_at : Option Time
  pub last_validated_at : Option Time

pub record LifecycleTransition : Type 0 where
  pub transition_id : Text
  pub experience : ExperienceRef
  pub from_state : LifecycleState
  pub to_state : LifecycleState
  pub reason_code : Text
  pub actor_kind : TransitionActorKind
  pub actor_id : Text
  pub occurred_at : Time
  pub source_evidence : List EvidenceRef

pub record Evaluation : Type 0 where
  pub schema_version : Text
  pub evaluation_id : Text
  pub application_id : Text
  pub experience : ExperienceRef
  pub evaluated_at : Time
  pub opportunity_state : OpportunityState
  pub applicability_state : ApplicabilityState
  pub verifier_state : VerifierState
  pub task_outcome_state : TaskOutcomeState
  pub coverage : List CoverageRequirement
  pub source_evidence : List EvidenceRef
  pub derivation_version : Text

pub record LifecycleActionTokenClaims : Type 0 where
  pub version : Text
  pub action : LifecycleAction
  pub experience : ExperienceRef
  pub project_identity : Text
  pub current_lifecycle : LifecycleState
  pub content_hash : Text
  pub issued_at : Time
  pub expires_at : Time

-- `ExperienceMeasurement.Validate`
unfoldable pub validate_measurement : ExperienceMeasurement → Check
unfolding validate_ref
validate_measurement v = do
  validate_ref v.experience
  fail_if
      (ltb_ℤ v.opportunities (pos 0)
        || ltb_ℤ v.deliveries (pos 0)
        || ltb_ℤ v.satisfied (pos 0)
        || ltb_ℤ v.violated (pos 0)
        || ltb_ℤ v.unknown (pos 0)
        || ltb_ℤ v.explicit_corrections (pos 0))
      "experience measurements cannot be negative"
  fail_if (zero_time v.last_applied_at) "measurement last_applied_at cannot be zero"
  fail_if (zero_time v.last_validated_at) "measurement last_validated_at cannot be zero"

-- `LifecycleTransition.Validate`; the message leaves the two states out.
unfoldable pub validate_transition : (LifecycleTransition → Text) → LifecycleTransition → Check
unfolding validate_ref valid_lifecycle_transition validate_identifier validate_evidence_ref
validate_transition transition_id v = do
  validate_ref v.experience
  fail_if (not (valid_lifecycle_transition v.from_state v.to_state))
      "lifecycle transition is invalid"
  validate_identifier "transition reason code" v.reason_code
  fail_if (not (actor_valid v.actor_kind)) "transition actor kind is invalid"
  validate_identifier "transition actor ID" v.actor_id
  fail_if (is_zero v.occurred_at) "transition occurred_at is required"
  each validate_evidence_ref v.source_evidence
  fail_if (v.transition_id == [] || v.transition_id != transition_id v)
      "transition ID does not match deterministic content"

abbrev verifier_unknown : VerifierState → Bool
verifier_unknown VerifierState.unknown = true
verifier_unknown _ = false

-- `Evaluation.Validate`
unfoldable pub validate_evaluation : (Evaluation → Text) → Evaluation → Check
unfolding validate_ref validate_identifier validate_evidence_ref
validate_evaluation evaluation_id v = do
  fail_if (v.schema_version != text "belay.experience-evaluation.v1")
      "evaluation schema version is invalid"
  validate_identifier "evaluation application ID" v.application_id
  validate_ref v.experience
  fail_if (is_zero v.evaluated_at) "evaluation evaluated_at is required"
  fail_if
      (not (opportunity_valid v.opportunity_state)
        || not (applicability_state_valid v.applicability_state)
        || not (verifier_state_valid v.verifier_state)
        || not (task_outcome_valid v.task_outcome_state))
      "evaluation state is invalid"
  fail_if (too_many v.coverage || is_empty v.coverage && not (verifier_unknown v.verifier_state))
      "evaluation coverage is required unless verifier state is unknown, and is bounded"
  each
      (λ requirement.
        fail_if (not (coverage_valid requirement)) "evaluation coverage requirement is invalid")
      v.coverage
  fail_if (is_empty v.source_evidence || too_many v.source_evidence)
      "evaluation source evidence is required and bounded"
  each validate_evidence_ref v.source_evidence
  validate_identifier "evaluation derivation version" v.derivation_version
  fail_if (v.evaluation_id == [] || v.evaluation_id != evaluation_id v)
      "evaluation ID does not match deterministic content"

-- `LifecycleActionTokenClaims.Validate`
unfoldable pub validate_lifecycle_token : LifecycleActionTokenClaims → Check
unfolding validate_ref validate_identifier valid_sha256 transition_from
validate_lifecycle_token v = do
  fail_if (v.version != text "belay.experience-lifecycle-token.v1")
      "experience lifecycle token version is invalid"
  validate_ref v.experience
  validate_identifier "experience lifecycle project identity" v.project_identity
  fail_if (not (action_valid v.action)) "experience lifecycle action is invalid"
  fail_if (not (transition_from v.action v.current_lifecycle).1)
      "experience lifecycle action does not match current state"
  fail_if (not (valid_sha256 v.content_hash)) "experience lifecycle content hash must be sha256"
  fail_if (is_zero v.issued_at || is_zero v.expires_at || not (after v.expires_at v.issued_at))
      "experience lifecycle token time window is invalid"
