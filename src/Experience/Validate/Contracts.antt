-- ===== src/Experience/Validate/Contracts.antt =====
-- `ExperienceProposal`, `SemanticProposal`, `Experience` and `Application` of
-- internal/experience/validate.go.
use belay_engine.Prelude.{
  String, Text, text, Bool, true, false, ◌&&◌, ◌||◌, not, List, [], ◌∷◌, Option, some, none, ◌==◌,
  ◌!=◌, pos, ltb_ℤ, contains, is_blank, Check, ok, err, fail_if, wrap, when, each, length, ◌-ℤ◌,
  map, nat_eq, list_eq, int_eq, ◌>>◌,
}
use belay_engine.Experience.Enums.{
  experience_type_valid, InstructionAuthority, InstructionAuthority-discrete, authority_eq,
  harness_valid, delivery_kind_valid, DeliveryState, delivery_state_valid, opportunity_valid,
  applicability_state_valid, verifier_state_valid, task_outcome_valid,
}
use belay_engine.Experience.Model.{
  Time, is_zero, Float, ExperienceRef, ApprovalProvenance, EvidenceSupport, ExperienceProposal,
  SemanticProposalProvenance, SemanticProposal, Experience, Application,
}
use belay_engine.Experience.Validate.Fields.{validate_identifier, valid_sha256}
use belay_engine.Experience.Validate.Records.{
  Digests, is_none, valid_unit_interval, validate_ref, validate_scope, validate_applicability,
  validate_guidance,
}
use belay_engine.Experience.Validate.Evidence.{
  validate_evidence_ref, validate_evidence_set, validate_support, validate_provenance,
  validate_governance,
}
use belay_engine.Experience.Validate.Verifiers.{validate_verifier}

validate_support_of : ExperienceProposal → Option EvidenceSupport → Check
unfolding validate_support
validate_support_of p none = ok tt
validate_support_of p (some support) = validate_support support (length p.guidance.exceptions)

abbrev bad_confidence : Option Float → Bool
bad_confidence none = false
bad_confidence (some value) = not (valid_unit_interval value)

-- `ExperienceProposal.Validate`
unfoldable pub validate_proposal : ExperienceProposal → Check
unfolding validate_scope validate_applicability validate_guidance validate_verifier
    validate_support_of
validate_proposal p = do
  fail_if (not (experience_type_valid p.type)) "experience type is invalid"
  validate_scope p.scope
  validate_applicability p.applicability
  validate_guidance p.guidance
  validate_verifier p.verifier
  validate_support_of p p.evidence_support
  fail_if (bad_confidence p.confidence) "proposal confidence must be between zero and one"

-- The twelve versions that the `switch` names.
abbrev prompt_versions : List Text
prompt_versions =
    map (λ (s : String). text s)
      ("belay.experience-prompt.v1" ∷ "belay.experience-prompt.v2" ∷ "belay.experience-prompt.v3"
        ∷ "belay.experience-prompt.v4" ∷ "belay.experience-prompt.v5" ∷ "belay.experience-prompt.v6"
        ∷ "belay.experience-prompt.v7" ∷ "belay.experience-prompt.v8" ∷ "belay.experience-prompt.v9"
        ∷ "belay.experience-prompt.v10" ∷ "belay.experience-prompt.v11"
        ∷ "belay.experience-prompt.v12" ∷ [])

-- `SemanticProposalProvenance.Validate`
unfoldable pub validate_semantic_provenance : SemanticProposalProvenance → Check
unfolding validate_identifier valid_sha256
validate_semantic_provenance v = do
  fail_if (not (harness_valid v.harness)) "semantic proposal harness is invalid"
  validate_identifier "semantic proposal model" v.model
  validate_identifier "semantic proposal prompt version" v.prompt_version
  fail_if (not (contains prompt_versions v.prompt_version))
      "semantic proposal prompt version is unsupported"
  fail_if (not (valid_sha256 v.input_hash) || not (valid_sha256 v.output_hash))
      "semantic proposal input and output hashes must be sha256"
  fail_if (is_zero v.generated_at) "semantic proposal generated_at is required"

-- `SemanticProposal.Validate`
unfoldable pub validate_semantic_proposal : Digests → SemanticProposal → Check
unfolding validate_proposal validate_semantic_provenance validate_identifier
    InstructionAuthority-discrete
validate_semantic_proposal d v = do
  fail_if (v.schema_version != text "belay.experience-semantic-proposal.v1")
      "semantic proposal schema version is invalid"
  validate_identifier "semantic proposal candidate ID" v.candidate_id
  validate_identifier "semantic proposal project identity" v.project_identity
  fail_if (v.authority != InstructionAuthority.none)
      "semantic proposal instruction authority must be none"
  wrap "semantic proposal content: " (validate_proposal v.proposal)
  fail_if v.proposal.semantic_compilation_pending
      "semantic proposal cannot remain pending compilation"
  fail_if (is_none v.proposal.confidence) "semantic proposal confidence is required"
  fail_if (v.proposal.scope.project_identity != v.project_identity)
      "semantic proposal scope must match proposal project"
  wrap "semantic proposal provenance: " (validate_semantic_provenance v.provenance)
  fail_if (v.proposal_id == [] || v.proposal_id != d.semantic_proposal_id v)
      "semantic proposal ID does not match deterministic content"

-- The checks on the previous version when `version > 1`.
validate_previous : Experience → Option ExperienceRef → Check
unfolding validate_ref ◌-ℤ◌
validate_previous x none =
    err ("later experience version requires a previous version reference" ∷ [])
validate_previous x (some previous) = do
  wrap "experience previous version: " (validate_ref previous)
  fail_if (previous.experience_id != x.experience_id)
      "previous version reference must use the same experience ID"
  fail_if (previous.version != x.version -ℤ pos 1)
      "previous version reference must identify exactly version-1"

abbrev approval_candidate : Option ApprovalProvenance → Text
approval_candidate none = []
approval_candidate (some approval) = approval.candidate_id

-- `Experience.Validate`. `Governance.Validate` has ruled out a missing approval before the last
-- test reads it.
unfoldable pub validate_experience : Digests → Experience → Check
unfolding validate_identifier validate_scope validate_applicability validate_guidance
    validate_verifier validate_evidence_set validate_provenance validate_governance
    validate_previous
validate_experience d x = do
  fail_if (x.schema_version != text "belay.experience.v1") "experience schema version is invalid"
  validate_identifier "experience ID" x.experience_id
  validate_identifier "experience origin candidate ID" x.origin_candidate_id
  fail_if (ltb_ℤ x.version (pos 1)) "experience version must be positive"
  fail_if (not (experience_type_valid x.type)) "experience type is invalid"
  validate_scope x.scope
  validate_applicability x.applicability
  validate_guidance x.guidance
  validate_verifier x.verifier
  wrap "experience evidence: " (validate_evidence_set d x.evidence)
  wrap "experience provenance: " (validate_provenance x.provenance)
  validate_governance x.governance x.content_hash
  fail_if (is_zero x.created_at) "experience created_at is required"
  fail_if (x.version == pos 1 && not (is_none x.previous_version))
      "experience version one cannot have a previous version reference"
  when (ltb_ℤ (pos 1) x.version) (validate_previous x x.previous_version)
  fail_if (x.content_hash == [] || x.content_hash != d.experience_content_hash x)
      "experience content hash does not match canonical content"
  fail_if (is_blank x.provenance.source_candidate_id)
      "experience provenance requires a source candidate ID"
  fail_if (x.version == pos 1 && x.provenance.source_candidate_id != x.origin_candidate_id)
      "experience version one source candidate must match origin candidate"
  fail_if (x.experience_id != d.derive_experience_id x.scope.project_identity x.origin_candidate_id)
      "experience ID does not match origin candidate"
  fail_if (approval_candidate x.governance.approval != x.provenance.source_candidate_id)
      "approval candidate must match version provenance source candidate"

abbrev missing_time : Option Time → Bool
missing_time none = true
missing_time (some t) = is_zero t

abbrev validate_delivery : Application → DeliveryState → Check
validate_delivery a DeliveryState.delivered = do
  fail_if (missing_time a.delivered_at) "delivered application requires delivered_at"
  validate_identifier "application session key" a.session_key
validate_delivery a _ =
    fail_if (not (is_none a.delivered_at)) "non-delivered application cannot include delivered_at"

-- `Application.Validate`
unfoldable pub validate_application : Digests → Application → Check
unfolding validate_ref validate_identifier validate_evidence_ref
validate_application d a = do
  fail_if (a.schema_version != text "belay.experience-application.v1")
      "application schema version is invalid"
  validate_ref a.experience
  validate_identifier "application project identity" a.project_identity
  fail_if (not (delivery_kind_valid a.delivery_kind) || not (delivery_state_valid a.delivery_state))
      "application delivery kind or state is invalid"
  fail_if
      (not (opportunity_valid a.opportunity_state)
        || not (applicability_state_valid a.applicability_state)
        || not (verifier_state_valid a.verifier_state)
        || not (task_outcome_valid a.task_outcome_state))
      "application evaluation state is invalid"
  validate_delivery a a.delivery_state
  each validate_evidence_ref a.source_evidence
  fail_if (a.application_id == [] || a.application_id != d.application_id a)
      "application ID does not match deterministic content"
