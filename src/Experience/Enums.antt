-- ===== src/Experience/Enums.antt =====
-- internal/experience/enums.go: each string type of the source is a data type with its constants,
-- and `other` for a string that is none of them (the empty one included). `…_valid` is `Valid`.
use mathlib.Core.Bool.{Bool, true, false}
use native.Mathlib.Decide.{ℕ_discrete}
use belay_engine.Prelude.{Text, Eq, eq_of_discrete}

pub data ExperienceType : Type 0 where
  preference procedure warning constraint fact : ExperienceType
  other : Text → ExperienceType

unfoldable pub ExperienceType-discrete : Discrete ExperienceType
ExperienceType-discrete = hlevel ℕ_discrete

instance abbrev pub experience_type_eq : Eq ExperienceType
experience_type_eq = eq_of_discrete ExperienceType-discrete

abbrev pub experience_type_valid : ExperienceType → Bool
experience_type_valid (ExperienceType.other _) = false
experience_type_valid _ = true

pub data CandidateFamily : Type 0 where
  correction successful_procedure failed_approach : CandidateFamily
  other : Text → CandidateFamily

unfoldable pub CandidateFamily-discrete : Discrete CandidateFamily
CandidateFamily-discrete = hlevel ℕ_discrete

instance abbrev pub candidate_family_eq : Eq CandidateFamily
candidate_family_eq = eq_of_discrete CandidateFamily-discrete

abbrev pub candidate_family_valid : CandidateFamily → Bool
candidate_family_valid (CandidateFamily.other _) = false
candidate_family_valid _ = true

pub data EvidenceTurnRole : Type 0 where
  user assistant tool_call tool_result system compaction_summary : EvidenceTurnRole
  other : Text → EvidenceTurnRole

unfoldable pub EvidenceTurnRole-discrete : Discrete EvidenceTurnRole
EvidenceTurnRole-discrete = hlevel ℕ_discrete

instance abbrev pub turn_role_eq : Eq EvidenceTurnRole
turn_role_eq = eq_of_discrete EvidenceTurnRole-discrete

abbrev pub turn_role_valid : EvidenceTurnRole → Bool
turn_role_valid (EvidenceTurnRole.other _) = false
turn_role_valid _ = true

pub data LifecycleState : Type 0 where
  candidate approved active paused contradicted superseded expired rejected : LifecycleState
  other : Text → LifecycleState

unfoldable pub LifecycleState-discrete : Discrete LifecycleState
LifecycleState-discrete = hlevel ℕ_discrete

instance abbrev pub lifecycle_state_eq : Eq LifecycleState
lifecycle_state_eq = eq_of_discrete LifecycleState-discrete

abbrev pub lifecycle_state_valid : LifecycleState → Bool
lifecycle_state_valid (LifecycleState.other _) = false
lifecycle_state_valid _ = true

pub data InterventionStrength : Type 0 where
  observe advise clarify require_verification deny : InterventionStrength
  other : Text → InterventionStrength

unfoldable pub InterventionStrength-discrete : Discrete InterventionStrength
InterventionStrength-discrete = hlevel ℕ_discrete

instance abbrev pub strength_eq : Eq InterventionStrength
strength_eq = eq_of_discrete InterventionStrength-discrete

abbrev pub strength_valid : InterventionStrength → Bool
strength_valid (InterventionStrength.other _) = false
strength_valid _ = true

pub data InstructionAuthority : Type 0 where
  none user_approved : InstructionAuthority
  other : Text → InstructionAuthority

unfoldable pub InstructionAuthority-discrete : Discrete InstructionAuthority
InstructionAuthority-discrete = hlevel ℕ_discrete

instance abbrev pub authority_eq : Eq InstructionAuthority
authority_eq = eq_of_discrete InstructionAuthority-discrete

abbrev pub authority_valid : InstructionAuthority → Bool
authority_valid (InstructionAuthority.other _) = false
authority_valid _ = true

pub data ScopeKind : Type 0 where
  project session : ScopeKind
  other : Text → ScopeKind

unfoldable pub ScopeKind-discrete : Discrete ScopeKind
ScopeKind-discrete = hlevel ℕ_discrete

instance abbrev pub scope_kind_eq : Eq ScopeKind
scope_kind_eq = eq_of_discrete ScopeKind-discrete

abbrev pub scope_kind_valid : ScopeKind → Bool
scope_kind_valid (ScopeKind.other _) = false
scope_kind_valid _ = true

pub data Harness : Type 0 where
  claude codex : Harness
  other : Text → Harness

unfoldable pub Harness-discrete : Discrete Harness
Harness-discrete = hlevel ℕ_discrete

instance abbrev pub harness_eq : Eq Harness
harness_eq = eq_of_discrete Harness-discrete

abbrev pub harness_valid : Harness → Bool
harness_valid (Harness.other _) = false
harness_valid _ = true

pub data DeterministicConditionKind : Type 0 where
  event_type tool_name command_class path_pattern lifecycle_phase prior_event_sequence :
      DeterministicConditionKind
  other : Text → DeterministicConditionKind

unfoldable pub DeterministicConditionKind-discrete : Discrete DeterministicConditionKind
DeterministicConditionKind-discrete = hlevel ℕ_discrete

instance abbrev pub condition_kind_eq : Eq DeterministicConditionKind
condition_kind_eq = eq_of_discrete DeterministicConditionKind-discrete

abbrev pub condition_kind_valid : DeterministicConditionKind → Bool
condition_kind_valid (DeterministicConditionKind.other _) = false
condition_kind_valid _ = true

pub data EvidenceSourceKind : Type 0 where
  transcript_turn canonical_event outcome_observation workspace_hash user_recorded :
      EvidenceSourceKind
  other : Text → EvidenceSourceKind

unfoldable pub EvidenceSourceKind-discrete : Discrete EvidenceSourceKind
EvidenceSourceKind-discrete = hlevel ℕ_discrete

instance abbrev pub source_kind_eq : Eq EvidenceSourceKind
source_kind_eq = eq_of_discrete EvidenceSourceKind-discrete

abbrev pub source_kind_valid : EvidenceSourceKind → Bool
source_kind_valid (EvidenceSourceKind.other _) = false
source_kind_valid _ = true

pub data EvidenceAvailability : Type 0 where
  available partial pruned retained_snapshot : EvidenceAvailability
  other : Text → EvidenceAvailability

unfoldable pub EvidenceAvailability-discrete : Discrete EvidenceAvailability
EvidenceAvailability-discrete = hlevel ℕ_discrete

instance abbrev pub availability_eq : Eq EvidenceAvailability
availability_eq = eq_of_discrete EvidenceAvailability-discrete

abbrev pub availability_valid : EvidenceAvailability → Bool
availability_valid (EvidenceAvailability.other _) = false
availability_valid _ = true

pub data ApprovalMode : Type 0 where
  as_proposed narrowed user_edited : ApprovalMode
  other : Text → ApprovalMode

unfoldable pub ApprovalMode-discrete : Discrete ApprovalMode
ApprovalMode-discrete = hlevel ℕ_discrete

instance abbrev pub approval_mode_eq : Eq ApprovalMode
approval_mode_eq = eq_of_discrete ApprovalMode-discrete

abbrev pub approval_mode_valid : ApprovalMode → Bool
approval_mode_valid (ApprovalMode.other _) = false
approval_mode_valid _ = true

pub data DeliveryKind : Type 0 where
  mission_pack hook : DeliveryKind
  other : Text → DeliveryKind

unfoldable pub DeliveryKind-discrete : Discrete DeliveryKind
DeliveryKind-discrete = hlevel ℕ_discrete

instance abbrev pub delivery_kind_eq : Eq DeliveryKind
delivery_kind_eq = eq_of_discrete DeliveryKind-discrete

abbrev pub delivery_kind_valid : DeliveryKind → Bool
delivery_kind_valid (DeliveryKind.other _) = false
delivery_kind_valid _ = true

pub data DeliveryState : Type 0 where
  pending delivered not_delivered unknown : DeliveryState
  other : Text → DeliveryState

unfoldable pub DeliveryState-discrete : Discrete DeliveryState
DeliveryState-discrete = hlevel ℕ_discrete

instance abbrev pub delivery_state_eq : Eq DeliveryState
delivery_state_eq = eq_of_discrete DeliveryState-discrete

abbrev pub delivery_state_valid : DeliveryState → Bool
delivery_state_valid (DeliveryState.other _) = false
delivery_state_valid _ = true

pub data OpportunityState : Type 0 where
  observed not_observed unknown : OpportunityState
  other : Text → OpportunityState

unfoldable pub OpportunityState-discrete : Discrete OpportunityState
OpportunityState-discrete = hlevel ℕ_discrete

instance abbrev pub opportunity_eq : Eq OpportunityState
opportunity_eq = eq_of_discrete OpportunityState-discrete

abbrev pub opportunity_valid : OpportunityState → Bool
opportunity_valid (OpportunityState.other _) = false
opportunity_valid _ = true

pub data ApplicabilityState : Type 0 where
  applicable not_applicable unknown : ApplicabilityState
  other : Text → ApplicabilityState

unfoldable pub ApplicabilityState-discrete : Discrete ApplicabilityState
ApplicabilityState-discrete = hlevel ℕ_discrete

instance abbrev pub applicability_state_eq : Eq ApplicabilityState
applicability_state_eq = eq_of_discrete ApplicabilityState-discrete

abbrev pub applicability_state_valid : ApplicabilityState → Bool
applicability_state_valid (ApplicabilityState.other _) = false
applicability_state_valid _ = true

pub data VerifierState : Type 0 where
  not_evaluated satisfied violated unknown : VerifierState
  other : Text → VerifierState

unfoldable pub VerifierState-discrete : Discrete VerifierState
VerifierState-discrete = hlevel ℕ_discrete

instance abbrev pub verifier_state_eq : Eq VerifierState
verifier_state_eq = eq_of_discrete VerifierState-discrete

abbrev pub verifier_state_valid : VerifierState → Bool
verifier_state_valid (VerifierState.other _) = false
verifier_state_valid _ = true

pub data TaskOutcomeState : Type 0 where
  not_observed succeeded failed unknown : TaskOutcomeState
  other : Text → TaskOutcomeState

unfoldable pub TaskOutcomeState-discrete : Discrete TaskOutcomeState
TaskOutcomeState-discrete = hlevel ℕ_discrete

instance abbrev pub task_outcome_eq : Eq TaskOutcomeState
task_outcome_eq = eq_of_discrete TaskOutcomeState-discrete

abbrev pub task_outcome_valid : TaskOutcomeState → Bool
task_outcome_valid (TaskOutcomeState.other _) = false
task_outcome_valid _ = true
