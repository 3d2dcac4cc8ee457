-- ===== src/Experience/Validate/Candidates.antt =====
-- `Candidate` of internal/experience/model.go and validate.go. Its identifier is a digest.
use belay_engine.Prelude.{
  Text, text, Bool, true, false, ◌&&◌, ◌||◌, not, List, [], ◌==◌, ◌!=◌, is_blank, Check, fail_if,
  wrap, each, trim_space, nat_eq, list_eq, ◌>>◌,
}
use belay_engine.Experience.Enums.{
  CandidateFamily, candidate_family_valid, LifecycleState, LifecycleState-discrete,
  lifecycle_state_eq, InterventionStrength, InterventionStrength-discrete, strength_eq,
  InstructionAuthority, InstructionAuthority-discrete, authority_eq, Harness, Harness-discrete,
  harness_eq, harness_valid,
}
use belay_engine.Experience.Model.{
  Time, is_zero, ExperienceRef, EvidenceSet, Provenance, ExperienceProposal,
}
use belay_engine.Experience.Validate.Fields.{
  max_rationale_bytes, max_excerpt_bytes, validate_identifier, validate_text,
}
use belay_engine.Experience.Validate.Records.{Digests, is_none, validate_ref}
use belay_engine.Experience.Validate.Evidence.{validate_evidence_set, validate_provenance}
use belay_engine.Experience.Validate.Contracts.{validate_proposal}

pub record Candidate : Type 0 where
  pub schema_version : Text
  pub candidate_id : Text
  pub family : CandidateFamily
  pub project_identity : Text
  pub observed_behavior : Text
  pub user_feedback : Text
  pub evidence : EvidenceSet
  pub outcome_refs : List Text
  pub existing_refs : List ExperienceRef
  pub proposal : ExperienceProposal
  pub provenance : Provenance
  pub authority : InstructionAuthority
  pub lifecycle_state : LifecycleState
  pub created_at : Time

abbrev is_correction : CandidateFamily → Bool
is_correction CandidateFamily.correction = true
is_correction _ = false

abbrev unset_harness : Harness
unset_harness = Harness.other []

-- The last branch: a proposal that still waits for its compilation, and one that does not.
validate_pending : Candidate → Bool → Check
unfolding InterventionStrength-discrete Harness-discrete trim_space
validate_pending v true = do
  fail_if (not (is_none v.proposal.confidence))
      "semantic-pending candidate cannot claim proposal confidence"
  fail_if (v.proposal.guidance.intervention_strength != InterventionStrength.observe)
      "semantic-pending candidate must remain observe-only"
  fail_if
      (v.provenance.harness != unset_harness
        || not (is_blank v.provenance.model)
        || not (is_blank v.provenance.prompt_version))
      "semantic-pending candidate cannot claim harness or prompt provenance"
validate_pending v false =
    fail_if (not (harness_valid v.provenance.harness) || is_blank v.provenance.prompt_version)
      "candidate proposal requires harness and prompt provenance"

-- `Candidate.Validate` up to the branch on the pending compilation.
validate_content : Digests → Candidate → Check
unfolding validate_identifier validate_text validate_evidence_set validate_ref validate_proposal
    validate_provenance InstructionAuthority-discrete LifecycleState-discrete trim_space
validate_content d v = do
  fail_if (v.schema_version != text "belay.experience-candidate.v1")
      "candidate schema version is invalid"
  fail_if (not (candidate_family_valid v.family)) "candidate family is invalid"
  validate_identifier "candidate project identity" v.project_identity
  fail_if (v.authority != InstructionAuthority.none) "candidate instruction authority must be none"
  fail_if (v.lifecycle_state != LifecycleState.candidate)
      "candidate lifecycle state must be candidate"
  fail_if (is_zero v.created_at) "candidate created_at is required"
  validate_text "candidate observed behavior" v.observed_behavior max_rationale_bytes true
  fail_if (is_correction v.family && is_blank v.user_feedback)
      "correction candidate user feedback is required"
  validate_text "candidate user feedback" v.user_feedback max_excerpt_bytes false
  wrap "candidate evidence: " (validate_evidence_set d v.evidence)
  each (validate_identifier "candidate outcome reference") v.outcome_refs
  each (λ ref. wrap "candidate existing experience reference: " (validate_ref ref)) v.existing_refs
  wrap "candidate proposal: " (validate_proposal v.proposal)
  fail_if (v.proposal.scope.project_identity != v.project_identity)
      "candidate proposal scope must match candidate project"
  wrap "candidate provenance: " (validate_provenance v.provenance)

-- `Candidate.Validate`
unfoldable pub validate_candidate : Digests → (Candidate → Text) → Candidate → Check
unfolding validate_content validate_pending
validate_candidate d candidate_id v = do
  validate_content d v
  validate_pending v v.proposal.semantic_compilation_pending
  fail_if (v.candidate_id == [] || v.candidate_id != candidate_id v)
      "candidate ID does not match deterministic content"
