-- ===== src/Experience/Validate/Evidence.antt =====
-- `EvidenceRef`, `EvidenceSet`, `EvidenceSupport` and the provenance records of
-- internal/experience/validate.go.
use belay_engine.Prelude.{
  ℕ, Text, Bool, true, false, ◌&&◌, ◌||◌, not, List, [], ◌∷◌, Option, some, none, ◌==◌, ◌!=◌, ℤ,
  pos, ltb_ℤ, contains, is_empty, Check, ok, err, fail_if, wrap, when, each, length, nat_eq,
  list_eq, ◌>>◌,
}
use belay_engine.Experience.Enums.{
  EvidenceTurnRole, EvidenceTurnRole-discrete, turn_role_eq, turn_role_valid, LifecycleState,
  InstructionAuthority, InstructionAuthority-discrete, authority_eq, Harness, Harness-discrete,
  harness_eq, harness_valid, EvidenceSourceKind, source_kind_valid, availability_valid,
  approval_mode_valid,
}
use belay_engine.Experience.Model.{
  is_zero, EvidenceRef, EvidenceSet, Provenance, ApprovalProvenance, Governance, EvidenceSupport,
}
use belay_engine.Experience.Validate.Fields.{
  max_excerpt_bytes, validate_identifier, validate_text, validate_relative_path, valid_sha256,
}
use belay_engine.Experience.Validate.Records.{Digests, too_many, is_none, zero_time}

abbrev negative : Option ℤ → Bool
negative none = true
negative (some index) = ltb_ℤ index (pos 0)

abbrev no_role : EvidenceTurnRole
no_role = EvidenceTurnRole.other []

-- The fields that only another source kind carries, by the source kinds that may fill them.
abbrev has_turn : EvidenceRef → Bool
has_turn r =
    r.session_key != [] || not (is_none r.turn_index) || r.turn_role != no_role || r.tool_name != []

abbrev has_file : EvidenceRef → Bool
has_file r = r.path != [] || r.sha256 != []

-- The `switch` on the kind; `Valid` has ruled out any other kind.
validate_ref_kind : EvidenceRef → EvidenceSourceKind → Check
unfolding validate_identifier validate_text validate_relative_path valid_sha256
    EvidenceTurnRole-discrete
validate_ref_kind r EvidenceSourceKind.transcript_turn = do
  validate_identifier "evidence session key" r.session_key
  fail_if (negative r.turn_index) "transcript evidence requires a non-negative turn index"
  fail_if (r.turn_role != no_role && not (turn_role_valid r.turn_role))
      "transcript evidence turn role is invalid"
  when (r.tool_name != []) (do
    fail_if
        (r.turn_role != EvidenceTurnRole.tool_call && r.turn_role != EvidenceTurnRole.tool_result)
        "evidence tool name requires a tool turn role"
    validate_text "evidence tool name" r.tool_name 256 false)
  fail_if (r.event_id != [] || r.outcome_id != [] || has_file r || r.recorded_by != [])
      "transcript evidence contains fields for another source kind"
validate_ref_kind r EvidenceSourceKind.canonical_event = do
  validate_identifier "evidence event ID" r.event_id
  fail_if (has_turn r || r.outcome_id != [] || has_file r || r.recorded_by != [])
      "canonical event evidence contains fields for another source kind"
validate_ref_kind r EvidenceSourceKind.outcome_observation = do
  validate_identifier "evidence outcome ID" r.outcome_id
  fail_if (has_turn r || r.event_id != [] || has_file r || r.recorded_by != [])
      "outcome evidence contains fields for another source kind"
validate_ref_kind r EvidenceSourceKind.workspace_hash = do
  wrap "workspace evidence path: " (validate_relative_path r.path)
  fail_if (not (valid_sha256 r.sha256)) "workspace evidence requires a sha256 digest"
  fail_if (has_turn r || r.event_id != [] || r.outcome_id != [] || r.recorded_by != [])
      "workspace evidence contains fields for another source kind"
validate_ref_kind r EvidenceSourceKind.user_recorded = do
  validate_identifier "user-recorded evidence actor" r.recorded_by
  fail_if (has_turn r || r.event_id != [] || r.outcome_id != [] || has_file r)
      "user-recorded evidence contains fields for another source kind"
validate_ref_kind r (EvidenceSourceKind.other _) = ok tt

-- `EvidenceRef.Validate`
unfoldable pub validate_evidence_ref : EvidenceRef → Check
unfolding validate_ref_kind validate_text
validate_evidence_ref r = do
  fail_if (not (source_kind_valid r.kind)) "evidence source kind is invalid"
  when (r.excerpt != []) (validate_text "evidence excerpt" r.excerpt max_excerpt_bytes false)
  fail_if (zero_time r.occurred_at) "evidence occurred_at cannot be zero"
  validate_ref_kind r r.kind

-- `EvidenceSet.Validate`
unfoldable pub validate_evidence_set : Digests → EvidenceSet → Check
unfolding validate_evidence_ref
validate_evidence_set d value = do
  fail_if (not (availability_valid value.availability)) "evidence availability is invalid"
  fail_if (is_empty value.refs || too_many value.refs)
      "evidence references are required and bounded"
  each validate_evidence_ref value.refs
  fail_if (value.evidence_set_id == [] || value.evidence_set_id != d.evidence_set_id value)
      "evidence set ID does not match deterministic references"

-- The loop over the references of one group; `seen` holds those already met.
support_refs : List Text → List Text → Check
unfolding validate_identifier
support_refs seen [] = ok tt
support_refs seen (ref ∷ refs) = do
  validate_identifier "proposal evidence support reference" ref
  fail_if (contains seen ref) "proposal evidence support contains duplicate references"
  support_refs (ref ∷ seen) refs

support_group : List Text → Check
unfolding support_refs
support_group refs = do
  fail_if (is_empty refs || too_many refs)
      "proposal evidence support group is empty or exceeds limit"
  support_refs [] refs

-- `EvidenceSupport.Validate`
unfoldable pub validate_support : EvidenceSupport → ℕ → Check
unfolding support_group
validate_support value exception_count = do
  fail_if
      (is_empty value.guidance_refs
        || too_many value.guidance_refs
        || is_empty value.verifier_refs
        || too_many value.verifier_refs
        || length value.exception_refs != exception_count)
      "proposal evidence support is incomplete or exceeds limit"
  each support_group (value.guidance_refs ∷ value.verifier_refs ∷ value.exception_refs)

abbrev no_harness : Harness
no_harness = Harness.other []

-- `Provenance.Validate`
unfoldable pub validate_provenance : Provenance → Check
unfolding validate_identifier valid_sha256 Harness-discrete
validate_provenance value = do
  validate_identifier "provenance extractor version" value.extractor_version
  fail_if (not (valid_sha256 value.input_hash)) "provenance input hash must be sha256"
  fail_if (is_zero value.generated_at) "provenance generated_at is required"
  fail_if (value.harness != no_harness && not (harness_valid value.harness))
      "provenance harness is invalid"
  fail_if ((value.model != [] || value.prompt_version != []) && not (harness_valid value.harness))
      "model or prompt provenance requires a supported harness"
  when (value.prompt_version != [])
      (validate_identifier "provenance prompt version" value.prompt_version)
  when (value.model != []) (validate_identifier "provenance model" value.model)
  when (value.source_candidate_id != [])
      (validate_identifier "provenance source candidate ID" value.source_candidate_id)

-- `ApprovalProvenance.Validate`
unfoldable pub validate_approval : ApprovalProvenance → Text → Check
unfolding validate_identifier valid_sha256
validate_approval value content_hash = do
  validate_identifier "approval actor" value.approved_by
  fail_if (is_zero value.approved_at) "approval timestamp is required"
  fail_if (not (approval_mode_valid value.mode)) "approval mode is invalid"
  validate_identifier "approval candidate ID" value.candidate_id
  fail_if
      (not (valid_sha256 value.proposed_content_hash)
        || not (valid_sha256 value.approved_content_hash))
      "approval content hashes must be sha256"
  fail_if (value.approved_content_hash != content_hash)
      "approval hash does not match experience content"

-- The lifecycle states that `Governance.Validate` admits for an immutable experience.
abbrev pub governed_state : LifecycleState → Bool
governed_state LifecycleState.approved = true
governed_state LifecycleState.active = true
governed_state LifecycleState.paused = true
governed_state LifecycleState.contradicted = true
governed_state LifecycleState.superseded = true
governed_state LifecycleState.expired = true
governed_state _ = false

abbrev validate_present_approval : Option ApprovalProvenance → Text → Check
validate_present_approval none content_hash =
    err ("immutable experience requires approval provenance" ∷ [])
validate_present_approval (some approval) content_hash = validate_approval approval content_hash

-- `Governance.Validate`
unfoldable pub validate_governance : Governance → Text → Check
unfolding validate_approval InstructionAuthority-discrete
validate_governance value content_hash = do
  fail_if (not (governed_state value.lifecycle_state))
      "lifecycle state is invalid for immutable experience"
  fail_if (value.authority != InstructionAuthority.user_approved)
      "immutable experience requires user-approved authority"
  validate_present_approval value.approval content_hash
