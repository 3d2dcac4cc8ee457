-- ===== src/Experience/Model.antt =====
-- internal/experience/model.go: the records of the contracts. A `time.Time` is the count of
-- nanoseconds since Go's zero time, an `int` or `int64` the integer that it holds.
use Prim.Native.Nat.{ℕ}
use native.Mathlib.Decide.{ℕ_discrete}
use belay_engine.Prelude.{Text, ℤ, Eq, eq_of_discrete, Bool, Option, List, nat_beq, ltb}
use belay_engine.Experience.Enums.{
  ExperienceType, EvidenceTurnRole, LifecycleState, InterventionStrength, InstructionAuthority,
  ScopeKind, Harness, DeterministicConditionKind, EvidenceSourceKind, EvidenceAvailability,
  ApprovalMode, DeliveryKind, DeliveryState, OpportunityState, ApplicabilityState, VerifierState,
  TaskOutcomeState,
}
use belay_engine.Experience.Verifier.{Verifier}

abbrev pub Time : Type 0
Time = ℕ

-- `IsZero`, `Before` and `After` of `time.Time`.
abbrev pub is_zero : Time → Bool
is_zero t = nat_beq t 0

abbrev pub before : Time → Time → Bool
before t u = ltb t u

abbrev pub after : Time → Time → Bool
after t u = ltb u t

-- A `float64`: `finite n e` is n / 2 ^ e, which every finite value of the format is.
pub data Float : Type 0 where
  nan inf minus_inf : Float
  finite : ℤ → ℕ → Float

pub record ExperienceRef : Type 0 where
  pub experience_id : Text
  pub version : ℤ

pub ℤ-discrete : Discrete ℤ
ℤ-discrete = hlevel ℕ_discrete

unfoldable pub ExperienceRef-discrete : Discrete ExperienceRef
ExperienceRef-discrete = hlevel ℕ_discrete

instance abbrev pub experience_ref_eq : Eq ExperienceRef
experience_ref_eq = eq_of_discrete ExperienceRef-discrete

pub record Scope : Type 0 where
  pub kind : ScopeKind
  pub project_identity : Text
  pub session_key : Text
  pub repository_paths : List Text
  pub task_families : List Text
  pub harnesses : List Harness
  pub models : List Text

pub record DeterministicCondition : Type 0 where
  pub kind : DeterministicConditionKind
  pub values : List Text

pub record Applicability : Type 0 where
  pub semantic_description : Text
  pub deterministic_conditions : List DeterministicCondition
  pub exclusions : List Text
  pub expires_at : Option Time

pub record Guidance : Type 0 where
  pub instruction : Text
  pub rationale : Text
  pub exceptions : List Text
  pub intervention_strength : InterventionStrength

pub record EvidenceRef : Type 0 where
  pub kind : EvidenceSourceKind
  pub session_key : Text
  pub turn_index : Option ℤ
  pub turn_role : EvidenceTurnRole
  pub tool_name : Text
  pub event_id : Text
  pub outcome_id : Text
  pub path : Text
  pub sha256 : Text
  pub recorded_by : Text
  pub occurred_at : Option Time
  pub excerpt : Text

pub record EvidenceSet : Type 0 where
  pub evidence_set_id : Text
  pub availability : EvidenceAvailability
  pub refs : List EvidenceRef

pub record Provenance : Type 0 where
  pub extractor_version : Text
  pub harness : Harness
  pub model : Text
  pub prompt_version : Text
  pub input_hash : Text
  pub source_candidate_id : Text
  pub generated_at : Time

pub record ApprovalProvenance : Type 0 where
  pub approved_by : Text
  pub approved_at : Time
  pub mode : ApprovalMode
  pub candidate_id : Text
  pub proposed_content_hash : Text
  pub approved_content_hash : Text

pub record Governance : Type 0 where
  pub lifecycle_state : LifecycleState
  pub authority : InstructionAuthority
  pub approval : Option ApprovalProvenance
  pub state_reason : Text

pub record EvidenceSupport : Type 0 where
  pub guidance_refs : List Text
  pub exception_refs : List (List Text)
  pub verifier_refs : List Text

pub record ExperienceProposal : Type 0 where
  pub type : ExperienceType
  pub scope : Scope
  pub applicability : Applicability
  pub guidance : Guidance
  pub verifier : Verifier
  pub evidence_support : Option EvidenceSupport
  pub confidence : Option Float
  pub semantic_compilation_pending : Bool

pub record SemanticProposalProvenance : Type 0 where
  pub harness : Harness
  pub model : Text
  pub prompt_version : Text
  pub input_hash : Text
  pub output_hash : Text
  pub generated_at : Time

pub record SemanticProposal : Type 0 where
  pub schema_version : Text
  pub proposal_id : Text
  pub candidate_id : Text
  pub project_identity : Text
  pub proposal : ExperienceProposal
  pub provenance : SemanticProposalProvenance
  pub authority : InstructionAuthority

pub record Experience : Type 0 where
  pub schema_version : Text
  pub experience_id : Text
  pub origin_candidate_id : Text
  pub version : ℤ
  pub type : ExperienceType
  pub scope : Scope
  pub applicability : Applicability
  pub guidance : Guidance
  pub verifier : Verifier
  pub evidence : EvidenceSet
  pub provenance : Provenance
  pub governance : Governance
  pub content_hash : Text
  pub previous_version : Option ExperienceRef
  pub created_at : Time

pub record Application : Type 0 where
  pub schema_version : Text
  pub application_id : Text
  pub experience : ExperienceRef
  pub project_identity : Text
  pub session_key : Text
  pub delivery_kind : DeliveryKind
  pub delivery_state : DeliveryState
  pub delivered_at : Option Time
  pub opportunity_state : OpportunityState
  pub applicability_state : ApplicabilityState
  pub verifier_state : VerifierState
  pub task_outcome_state : TaskOutcomeState
  pub source_evidence : List EvidenceRef
