-- ===== src/Experience/Approval.antt =====
-- internal/experience/approval.go: the content contract of an edited approval.
pub mod Narrowing
pub mod Token
use belay_engine.Prelude.{
  Text, Bool, true, false, ◌&&◌, ◌||◌, not, List, Option, some, none, ltb, ◌==◌, ◌!=◌, contains,
  is_empty, if◌then◌else◌, Check, fail_if, length, all, Eq, ◌-◌, nat_eq, list_eq, ◌>>◌, ◌>>=◌,
}
use belay_engine.Experience.Enums.{
  ExperienceType-discrete, experience_type_eq, CandidateFamily-discrete, EvidenceTurnRole-discrete,
  LifecycleState-discrete, InterventionStrength-discrete, InstructionAuthority-discrete,
  ScopeKind-discrete, scope_kind_eq, Harness-discrete, harness_eq,
  DeterministicConditionKind-discrete, EvidenceSourceKind-discrete, EvidenceAvailability-discrete,
  ApprovalMode, ApprovalMode-discrete, approval_mode_eq, DeliveryKind-discrete,
  DeliveryState-discrete, OpportunityState-discrete, ApplicabilityState-discrete,
  VerifierState-discrete, TaskOutcomeState-discrete,
}
use belay_engine.Experience.Verifier.{VerifierKind-discrete, CoverageRequirement-discrete}
use belay_engine.Experience.Model.{
  Time, after, ℤ-discrete, ExperienceRef-discrete, DeterministicCondition, ExperienceProposal,
  Experience,
}
use belay_engine.Experience.Validate.Contracts.{validate_proposal}
use belay_engine.Experience.Normalize.{
  Guidance-discrete, guidance_eq, Verifier-discrete, verifier_eq, DeterministicCondition-discrete,
  condition_eq, normalized_scope, normalized_applicability, normalized_guidance,
  normalized_verifier,
}

-- `narrowedComparableSet`: whether the approved list restricts the original, and strictly so.
unfoldable pub narrowed_comparable_set : {A : Type 0} ⦃e : Eq A⦄ → List A → List A → Bool × Bool
narrowed_comparable_set original approved =
    if is_empty original
    then (true, not (is_empty approved))
    else if is_empty approved
    then (false, false)
    else if all (λ value. contains original value) approved
    then (true, ltb (length approved) (length original))
    else (false, false)

-- `narrowedExpiry`
unfoldable pub narrowed_expiry : Option Time → Option Time → Bool
narrowed_expiry none approved = true
narrowed_expiry (some original) none = false
narrowed_expiry (some original) (some approved) = not (after approved original)

-- The first test of `validateNarrowedProposal`: everything but the scope lists and the expiration.
abbrev non_scope_edit :
    (DeterministicCondition → Text) → ExperienceProposal → ExperienceProposal → Bool
non_scope_edit marshal original approved =
    let os = normalized_scope original.scope in
    let as_ = normalized_scope approved.scope in
    let oa = normalized_applicability marshal original.applicability in
    let aa = normalized_applicability marshal approved.applicability in
    approved.type != original.type
    || as_.kind != os.kind
    || as_.project_identity != os.project_identity
    || as_.session_key != os.session_key
    || normalized_guidance approved.guidance != normalized_guidance original.guidance
    || normalized_verifier approved.verifier != normalized_verifier original.verifier
    || aa.semantic_description != oa.semantic_description
    || aa.deterministic_conditions != oa.deterministic_conditions
    || aa.exclusions != oa.exclusions

-- `validateNarrowedProposal`
unfoldable pub validate_narrowed :
    (DeterministicCondition → Text) → ExperienceProposal → ExperienceProposal → Check
validate_narrowed marshal original approved = do
  fail_if (non_scope_edit marshal original approved) "narrowed approval contains a non-scope edit"
  let os = normalized_scope original.scope
  let as_ = normalized_scope approved.scope
  let paths = narrowed_comparable_set os.repository_paths as_.repository_paths
  fail_if (not paths.0) "narrowed approval broadens a scope list"
  let families = narrowed_comparable_set os.task_families as_.task_families
  fail_if (not families.0) "narrowed approval broadens a scope list"
  let models = narrowed_comparable_set os.models as_.models
  fail_if (not models.0) "narrowed approval broadens a scope list"
  let harnesses = narrowed_comparable_set os.harnesses as_.harnesses
  fail_if (not harnesses.0) "narrowed approval broadens a scope list"
  fail_if
      (not (narrowed_expiry original.applicability.expires_at approved.applicability.expires_at))
      "narrowed approval broadens applicability expiration"
  fail_if (not (paths.1 || families.1 || models.1 || harnesses.1))
      "narrowed approval must restrict at least one scope list"

-- The end of `ValidateApprovedProposal`, by the mode; `content_hash` is `CanonicalContentHash`.
validate_mode :
    (DeterministicCondition → Text)
    → (ExperienceProposal → Text)
    → ExperienceProposal
    → ExperienceProposal
    → ApprovalMode
    → Check
validate_mode marshal content_hash original approved ApprovalMode.user_edited =
    fail_if (content_hash approved == content_hash original)
      "user-edited approval must change experience content"
validate_mode marshal content_hash original approved _ = validate_narrowed marshal original approved

-- `ValidateApprovedProposal`
unfoldable pub validate_approved_proposal :
    (DeterministicCondition → Text)
    → (ExperienceProposal → Text)
    → ExperienceProposal
    → ExperienceProposal
    → ApprovalMode
    → Check
unfolding validate_mode ApprovalMode-discrete
validate_approved_proposal marshal content_hash original approved mode = do
  fail_if (mode != ApprovalMode.narrowed && mode != ApprovalMode.user_edited)
      "edited experience approval mode is invalid"
  validate_proposal approved
  fail_if approved.semantic_compilation_pending
      "approved experience cannot remain pending compilation"
  fail_if (approved.scope.project_identity != original.scope.project_identity)
      "approved experience project identity must remain unchanged"
  validate_mode marshal content_hash original approved mode
