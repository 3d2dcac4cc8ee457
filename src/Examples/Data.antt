-- ===== src/Examples/Data.antt =====
-- Concrete contracts: a proposal not to edit a file, and an active experience that asks to edit it.
use belay_engine.Prelude.{Text, text, false, [], ◌∷◌, some, none, pos}
use belay_engine.Experience.Enums.{
  ExperienceType, EvidenceTurnRole, LifecycleState, InterventionStrength, InstructionAuthority,
  ScopeKind, Harness, EvidenceSourceKind, EvidenceAvailability, ApprovalMode,
}
use belay_engine.Experience.Verifier.{VerifierKind, CoverageRequirement, Verifier}
use belay_engine.Experience.Model.{
  Float, Scope, Applicability, Guidance, EvidenceRef, ExperienceProposal, SemanticProposal,
  Experience,
}
use belay_engine.Experience.Validate.Records.{Digests}

abbrev pub project_scope : Scope
project_scope = record {
  kind = ScopeKind.project;
  project_identity = text "p";
  session_key = [];
  repository_paths = [];
  task_families = [];
  harnesses = [];
  models = text "m" ∷ [];
}

abbrev pub wide_scope : Scope
wide_scope = record project_scope { models = [] }

abbrev pub file_verifier : VerifierKind → Verifier
file_verifier kind = record {
  kind = kind;
  coverage_requirements = CoverageRequirement.workspace_captured ∷ [];
  command = none;
  file = some (record { path = text "a" });
  path_pattern = none;
  verification_after_last_edit = none;
  no_repeat_failure = none;
  user_correction_absent = none;
  observation_only = none;
}

abbrev pub plain_applicability : Applicability
plain_applicability = record {
  semantic_description = text "d";
  deterministic_conditions = [];
  exclusions = [];
  expires_at = none;
}

abbrev pub plain_guidance : Guidance
plain_guidance = record {
  instruction = text "i";
  rationale = text "r";
  exceptions = [];
  intervention_strength = InterventionStrength.advise;
}

abbrev pub file_proposal : ExperienceProposal
file_proposal = record {
  type = ExperienceType.constraint;
  scope = wide_scope;
  applicability = plain_applicability;
  guidance = plain_guidance;
  verifier = file_verifier VerifierKind.file_not_modified;
  evidence_support = none;
  confidence = some (Float.finite (pos 1) 1);
  semantic_compilation_pending = false;
}

abbrev pub digest : Text
digest = text "sha256:0000000000000000000000000000000000000000000000000000000000000000"

abbrev pub semantic_proposal : SemanticProposal
semantic_proposal = record {
  schema_version = text "belay.experience-semantic-proposal.v1";
  proposal_id = text "s";
  candidate_id = text "c";
  project_identity = text "p";
  proposal = file_proposal;
  provenance = record {
    harness = Harness.codex;
    model = text "m";
    prompt_version = text "belay.experience-prompt.v1";
    input_hash = digest;
    output_hash = digest;
    generated_at = 1;
  };
  authority = InstructionAuthority.none;
}

abbrev pub turn_evidence : EvidenceRef
turn_evidence = record {
  kind = EvidenceSourceKind.user_recorded;
  session_key = [];
  turn_index = none;
  turn_role = EvidenceTurnRole.other [];
  tool_name = [];
  event_id = [];
  outcome_id = [];
  path = [];
  sha256 = [];
  recorded_by = text "u";
  occurred_at = none;
  excerpt = [];
}

abbrev pub active_experience : Experience
active_experience = record {
  schema_version = text "belay.experience.v1";
  experience_id = text "e";
  origin_candidate_id = text "c";
  version = pos 1;
  type = ExperienceType.constraint;
  scope = project_scope;
  applicability = plain_applicability;
  guidance = plain_guidance;
  verifier = file_verifier VerifierKind.file_modified;
  evidence = record {
    evidence_set_id = text "v";
    availability = EvidenceAvailability.available;
    refs = turn_evidence ∷ [];
  };
  provenance = record {
    extractor_version = text "x";
    harness = Harness.codex;
    model = [];
    prompt_version = [];
    input_hash = digest;
    source_candidate_id = text "c";
    generated_at = 1;
  };
  governance = record {
    lifecycle_state = LifecycleState.active;
    authority = InstructionAuthority.user_approved;
    approval = some (record {
      approved_by = text "u";
      approved_at = 1;
      mode = ApprovalMode.as_proposed;
      candidate_id = text "c";
      proposed_content_hash = digest;
      approved_content_hash = digest;
    });
    state_reason = [];
  };
  content_hash = digest;
  previous_version = none;
  created_at = 1;
}

abbrev pub digests : Digests
digests = record {
  evidence_set_id = λ s. text "v";
  semantic_proposal_id = λ s. text "s";
  experience_content_hash = λ x. digest;
  derive_experience_id = λ p c. text "e";
  application_id = λ a. text "a";
}
