-- ===== src/Experience/Validate/Records.antt =====
-- The `Validate` methods of internal/experience/validate.go that guard what the other parts read.
-- The digests of hash.go are the functions of `Digests`.
use Prim.Native.Nat.{◌^◌}
use belay_engine.Prelude.{
  Text, Bool, true, false, ◌||◌, not, List, [], Option, some, none, ltb, leb, ◌==◌, ◌!=◌, nat_eq,
  list_eq, pos, ltb_ℤ, is_empty, Check, fail_if, ◌>>◌, wrap, each, length,
}
use belay_engine.Experience.Enums.{
  ScopeKind, scope_kind_valid, harness_valid, condition_kind_valid, DeterministicConditionKind,
  InterventionStrength, strength_valid, strength_eq, InterventionStrength-discrete,
}
use belay_engine.Experience.Model.{
  Time, is_zero, Float, ExperienceRef, Scope, DeterministicCondition, Applicability, Guidance,
  EvidenceSet, SemanticProposal, Experience, Application,
}
use belay_engine.Experience.Validate.Fields.{
  validate_identifier, validate_text, validate_one_line, validate_relative_pattern,
  max_guidance_bytes, max_rationale_bytes, max_list_items,
}

-- hash.go: digests of canonical JSON.
pub record Digests : Type 0 where
  pub evidence_set_id : EvidenceSet → Text
  pub semantic_proposal_id : SemanticProposal → Text
  pub experience_content_hash : Experience → Text
  pub derive_experience_id : Text → Text → Text
  pub application_id : Application → Text

-- `len(values) > maxListItems`
abbrev pub too_many {ℓ} : {A : Type ℓ} → List A → Bool
too_many values = ltb max_list_items (length values)

abbrev pub is_none {ℓ} : {A : Type ℓ} → Option A → Bool
is_none none = true
is_none (some _) = false

abbrev pub zero_time : Option Time → Bool
zero_time none = false
zero_time (some t) = is_zero t

-- `validUnitInterval`
abbrev pub valid_unit_interval : Float → Bool
valid_unit_interval (Float.finite (pos n) e) = leb n (2 ^ e)
valid_unit_interval _ = false

unfoldable pub validate_ref : ExperienceRef → Check
unfolding validate_identifier
validate_ref value = do
  validate_identifier "experience reference ID" value.experience_id
  fail_if (ltb_ℤ value.version (pos 1)) "experience reference version must be positive"

abbrev validate_session_key : Scope → ScopeKind → Check
validate_session_key value ScopeKind.session =
    validate_identifier "session scope key" value.session_key
validate_session_key value _ =
    fail_if (value.session_key != []) "project scope cannot include a session key"

unfoldable pub validate_scope : Scope → Check
unfolding validate_identifier validate_relative_pattern
validate_scope value = do
  fail_if (not (scope_kind_valid value.kind)) "scope kind is invalid"
  validate_identifier "scope project identity" value.project_identity
  validate_session_key value value.kind
  fail_if
      (too_many value.repository_paths
        || too_many value.task_families
        || too_many value.harnesses
        || too_many value.models)
      "scope list exceeds item limit"
  each (λ item. wrap "scope repository path: " (validate_relative_pattern item))
      value.repository_paths
  each (validate_identifier "scope task family") value.task_families
  each (λ item. fail_if (not (harness_valid item)) "scope harness is invalid") value.harnesses
  each (validate_identifier "scope model") value.models

abbrev validate_condition_value : DeterministicConditionKind → Text → Check
validate_condition_value DeterministicConditionKind.path_pattern item =
    wrap "deterministic path condition: " (validate_relative_pattern item)
validate_condition_value _ item = validate_identifier "deterministic condition value" item

unfoldable pub validate_condition : DeterministicCondition → Check
unfolding validate_identifier validate_relative_pattern
validate_condition value = do
  fail_if (not (condition_kind_valid value.kind)) "deterministic condition kind is invalid"
  fail_if (is_empty value.values || too_many value.values)
      "deterministic condition values are required and bounded"
  each (validate_condition_value value.kind) value.values

unfoldable pub validate_applicability : Applicability → Check
unfolding validate_condition validate_text
validate_applicability value = do
  validate_text "applicability semantic description" value.semantic_description max_rationale_bytes
      true
  fail_if (too_many value.deterministic_conditions || too_many value.exclusions)
      "applicability list exceeds item limit"
  each validate_condition value.deterministic_conditions
  each (λ item. validate_text "applicability exclusion" item max_rationale_bytes true)
      value.exclusions
  fail_if (zero_time value.expires_at) "applicability expiration cannot be zero"

unfoldable pub validate_guidance : Guidance → Check
unfolding validate_one_line validate_text InterventionStrength-discrete
validate_guidance value = do
  validate_one_line "guidance instruction" value.instruction max_guidance_bytes true
  validate_text "guidance rationale" value.rationale max_rationale_bytes true
  fail_if (not (strength_valid value.intervention_strength)) "intervention strength is invalid"
  fail_if (value.intervention_strength == InterventionStrength.deny)
      "learned experience cannot use deny intervention"
  fail_if (too_many value.exceptions) "guidance exceptions exceed item limit"
  each (λ item. validate_one_line "guidance exception" item max_guidance_bytes true)
      value.exceptions
