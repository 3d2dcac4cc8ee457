-- ===== src/Experience/Validate/Semantic.antt =====
-- `SemanticDecision` and `SemanticResult` of internal/experience/model.go and validate.go, with their
-- enums of enums.go. The identifier of a decision is a digest, `decision_id`.
pub mod Results
use native.Mathlib.Decide.{ℕ_discrete}
use belay_engine.Prelude.{
  zero, Text, text, Bool, true, false, ◌||◌, not, [], ◌∷◌, Option, some, none, ◌==◌, ◌!=◌, Check,
  ok, err, fail_if, wrap, Eq, eq_of_discrete, ◌-◌, nat_eq, list_eq, ◌>>◌, ◌>>=◌,
}
use belay_engine.Experience.Enums.{
  ExperienceType-discrete, CandidateFamily-discrete, EvidenceTurnRole-discrete,
  LifecycleState-discrete, InterventionStrength-discrete, InstructionAuthority-discrete,
  ScopeKind-discrete, Harness-discrete, DeterministicConditionKind-discrete,
  EvidenceSourceKind-discrete, EvidenceAvailability-discrete, ApprovalMode-discrete,
  DeliveryKind-discrete, DeliveryState-discrete, OpportunityState-discrete,
  ApplicabilityState-discrete, VerifierState-discrete, TaskOutcomeState-discrete,
}
use belay_engine.Experience.Model.{
  Float, ℤ-discrete, ExperienceRef-discrete, SemanticProposalProvenance, SemanticProposal,
}
use belay_engine.Experience.Validate.Fields.{
  max_decision_bytes, validate_identifier, validate_one_line,
}
use belay_engine.Experience.Validate.Records.{Digests, is_none, valid_unit_interval}
use belay_engine.Experience.Validate.Contracts.{
  validate_semantic_provenance, validate_semantic_proposal,
}

pub data SemanticDisposition : Type 0 where
  propose reject defer : SemanticDisposition
  other : Text → SemanticDisposition

abbrev pub disposition_valid : SemanticDisposition → Bool
disposition_valid (SemanticDisposition.other _) = false
disposition_valid _ = true

pub data SemanticDecisionReasonCode : Type 0 where
  reusable_supported temporary_or_task_specific insufficient_context : SemanticDecisionReasonCode
  unsafe_or_overbroad not_reusable : SemanticDecisionReasonCode
  other : Text → SemanticDecisionReasonCode

abbrev pub reason_code_valid : SemanticDecisionReasonCode → Bool
reason_code_valid (SemanticDecisionReasonCode.other _) = false
reason_code_valid _ = true

pub record SemanticDecision : Type 0 where
  pub schema_version : Text
  pub decision_id : Text
  pub candidate_id : Text
  pub project_identity : Text
  pub disposition : SemanticDisposition
  pub reason_code : SemanticDecisionReasonCode
  pub explanation : Text
  pub confidence : Float
  pub proposal_id : Text
  pub provenance : SemanticProposalProvenance

pub record SemanticResult : Type 0 where
  pub proposal : Option SemanticProposal
  pub decision : SemanticDecision

unfoldable pub SemanticProposalProvenance-discrete : Discrete SemanticProposalProvenance
SemanticProposalProvenance-discrete = hlevel ℕ_discrete

instance abbrev pub provenance_eq : Eq SemanticProposalProvenance
provenance_eq = eq_of_discrete SemanticProposalProvenance-discrete

abbrev supports_proposal : SemanticDecisionReasonCode → Bool
supports_proposal SemanticDecisionReasonCode.reusable_supported = true
supports_proposal _ = false

abbrev supports_rejection : SemanticDecisionReasonCode → Bool
supports_rejection SemanticDecisionReasonCode.temporary_or_task_specific = true
supports_rejection SemanticDecisionReasonCode.unsafe_or_overbroad = true
supports_rejection SemanticDecisionReasonCode.not_reusable = true
supports_rejection _ = false

abbrev supports_deferral : SemanticDecisionReasonCode → Bool
supports_deferral SemanticDecisionReasonCode.insufficient_context = true
supports_deferral _ = false

-- The `switch` on the disposition.
validate_disposition : SemanticDecision → SemanticDisposition → Check
unfolding validate_identifier
validate_disposition v SemanticDisposition.propose = do
  fail_if (not (supports_proposal v.reason_code))
      "propose decision requires reusable-supported reason"
  validate_identifier "semantic decision proposal ID" v.proposal_id
validate_disposition v SemanticDisposition.reject = do
  fail_if (v.proposal_id != []) "reject decision cannot reference a proposal"
  fail_if (not (supports_rejection v.reason_code)) "reject decision reason is incompatible"
validate_disposition v SemanticDisposition.defer = do
  fail_if (v.proposal_id != []) "defer decision cannot reference a proposal"
  fail_if (not (supports_deferral v.reason_code))
      "defer decision requires insufficient-context reason"
validate_disposition v (SemanticDisposition.other _) = ok tt

-- `SemanticDecision.Validate`
unfoldable pub validate_decision : (SemanticDecision → Text) → SemanticDecision → Check
unfolding validate_identifier validate_one_line validate_disposition validate_semantic_provenance
validate_decision decision_id v = do
  fail_if (v.schema_version != text "belay.experience-semantic-decision.v1")
      "semantic decision schema version is invalid"
  validate_identifier "semantic decision candidate ID" v.candidate_id
  validate_identifier "semantic decision project identity" v.project_identity
  fail_if (not (disposition_valid v.disposition)) "semantic decision disposition is invalid"
  fail_if (not (reason_code_valid v.reason_code)) "semantic decision reason code is invalid"
  validate_one_line "semantic decision explanation" v.explanation max_decision_bytes true
  fail_if (not (valid_unit_interval v.confidence))
      "semantic decision confidence must be between zero and one"
  validate_disposition v v.disposition
  wrap "semantic decision provenance: " (validate_semantic_provenance v.provenance)
  fail_if (v.decision_id == [] || v.decision_id != decision_id v)
      "semantic decision ID does not match deterministic content"

abbrev proposes : SemanticDisposition → Bool
proposes SemanticDisposition.propose = true
proposes _ = false

-- The end of `SemanticResult.Validate`, for a decision that proposes.
abbrev validate_proposed : Digests → SemanticDecision → Option SemanticProposal → Check
validate_proposed d decision none = err ("propose semantic result requires a proposal" ∷ [])
validate_proposed d decision (some p) = do
  validate_semantic_proposal d p
  fail_if
      (p.candidate_id != decision.candidate_id
        || p.project_identity != decision.project_identity
        || p.proposal_id != decision.proposal_id
        || p.provenance != decision.provenance)
      "semantic result proposal does not match decision"

abbrev validate_outcome : Digests → SemanticResult → Bool → Check
validate_outcome d v true = validate_proposed d v.decision v.proposal
validate_outcome d v false =
    fail_if (not (is_none v.proposal)) "non-propose semantic result cannot contain a proposal"

-- `SemanticResult.Validate`
unfoldable pub validate_semantic_result :
    Digests → (SemanticDecision → Text) → SemanticResult → Check
unfolding validate_decision validate_semantic_proposal SemanticProposalProvenance-discrete
validate_semantic_result d decision_id v = do
  validate_decision decision_id v.decision
  validate_outcome d v (proposes v.decision.disposition)
