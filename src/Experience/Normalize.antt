-- ===== src/Experience/Normalize.antt =====
-- The normal forms of internal/experience/hash.go, on which approvals are compared.
use native.Mathlib.Decide.{ℕ_discrete}
use belay_engine.Prelude.{
  Text, text, List, [], ◌∷◌, Option, some, none, ◌!=◌, if◌then◌else◌, filterb, trim_space, text_ltb,
  sort, compact, Eq, eq_of_discrete, ◌↔◌, In, map, In-sort, In-compact, nat_eq, list_eq,
}
use belay_engine.Experience.Model.{Scope, DeterministicCondition, Applicability, Guidance}
use belay_engine.Experience.Verifier.{
  CoverageRequirement, CoverageRequirement-discrete, coverage_eq, PathPatternVerifierSpec,
  VerificationAfterLastEditSpec, UserCorrectionAbsentSpec, Verifier,
}
use belay_engine.Experience.Enums.{Harness, Harness-discrete, harness_eq}

unfoldable pub Guidance-discrete : Discrete Guidance
Guidance-discrete = hlevel ℕ_discrete

instance abbrev pub guidance_eq : Eq Guidance
guidance_eq = eq_of_discrete Guidance-discrete

unfoldable pub Verifier-discrete : Discrete Verifier
Verifier-discrete = hlevel ℕ_discrete

instance abbrev pub verifier_eq : Eq Verifier
verifier_eq = eq_of_discrete Verifier-discrete

unfoldable pub DeterministicCondition-discrete : Discrete DeterministicCondition
DeterministicCondition-discrete = hlevel ℕ_discrete

instance abbrev pub condition_eq : Eq DeterministicCondition
condition_eq = eq_of_discrete DeterministicCondition-discrete

-- `normalizedStrings`: trimmed, not empty, sorted, with no equal neighbours.
unfoldable pub normalized_strings : List Text → List Text
unfolding sort text_ltb compact trim_space
normalized_strings values =
    compact (sort text_ltb (filterb (λ v. v != []) (map (λ v. trim_space v) values)))

abbrev harness_string : Harness → Text
harness_string Harness.claude = text "claude"
harness_string Harness.codex = text "codex"
harness_string (Harness.other s) = s

-- `normalizedScope`
unfoldable pub normalized_scope : Scope → Scope
unfolding normalized_strings sort text_ltb compact Harness-discrete trim_space
normalized_scope s = record s {
  project_identity = trim_space s.project_identity;
  session_key = trim_space s.session_key;
  repository_paths = normalized_strings s.repository_paths;
  task_families = normalized_strings s.task_families;
  models = normalized_strings s.models;
  harnesses = compact (sort (λ a b. text_ltb (harness_string a) (harness_string b)) s.harnesses);
}

-- `compactConditions` on a sorted list; `marshal` is `json.Marshal`.
compact_conditions_after :
    (DeterministicCondition → Text)
    → DeterministicCondition
    → List DeterministicCondition
    → List DeterministicCondition
compact_conditions_after marshal last [] = []
compact_conditions_after marshal last (c ∷ cs) =
    let kept = c ∷ compact_conditions_after marshal c cs in
    let dropped = compact_conditions_after marshal last cs in
    if marshal last != marshal c then kept else dropped

compact_conditions :
    (DeterministicCondition → Text) → List DeterministicCondition → List DeterministicCondition
unfolding compact_conditions_after
compact_conditions marshal [] = []
compact_conditions marshal (c ∷ cs) = c ∷ compact_conditions_after marshal c cs

-- `normalizedApplicability`; `utcTime` changes the zone of a time, and not the instant.
unfoldable pub normalized_applicability :
    (DeterministicCondition → Text) → Applicability → Applicability
unfolding normalized_strings compact_conditions sort text_ltb trim_space
normalized_applicability marshal a = record a {
  semantic_description = trim_space a.semantic_description;
  exclusions = normalized_strings a.exclusions;
  deterministic_conditions = compact_conditions marshal (
      sort (λ c d. text_ltb (marshal c) (marshal d))
        (map (λ (c : DeterministicCondition). record c { values = normalized_strings c.values })
          a.deterministic_conditions));
}

-- `normalizedGuidance`
unfoldable pub normalized_guidance : Guidance → Guidance
unfolding normalized_strings trim_space
normalized_guidance g = record g {
  instruction = trim_space g.instruction;
  rationale = trim_space g.rationale;
  exceptions = normalized_strings g.exceptions;
}

abbrev coverage_string : CoverageRequirement → Text
coverage_string CoverageRequirement.transcript_complete = text "transcript_complete"
coverage_string CoverageRequirement.canonical_complete = text "canonical_events_complete"
coverage_string CoverageRequirement.workspace_captured = text "workspace_state_captured"
coverage_string CoverageRequirement.outcomes_complete = text "outcome_observations_complete"
coverage_string (CoverageRequirement.other s) = s

-- `normalizedCoverage`, and `normalizedCoverageRequirements` of the evaluator.
unfoldable pub normalized_coverage : List CoverageRequirement → List CoverageRequirement
unfolding sort text_ltb compact CoverageRequirement-discrete
normalized_coverage values =
    compact (sort (λ a b. text_ltb (coverage_string a) (coverage_string b)) values)

abbrev normalized_patterns : Option PathPatternVerifierSpec → Option PathPatternVerifierSpec
normalized_patterns none = none
normalized_patterns (some spec) = some (record spec { patterns = normalized_strings spec.patterns })

abbrev normalized_after_edit :
    Option VerificationAfterLastEditSpec → Option VerificationAfterLastEditSpec
normalized_after_edit none = none
normalized_after_edit (some spec) =
    some (record spec { command_classes = normalized_strings spec.command_classes })

abbrev normalized_absent : Option UserCorrectionAbsentSpec → Option UserCorrectionAbsentSpec
normalized_absent none = none
normalized_absent (some spec) =
    some (record spec { marker_families = normalized_strings spec.marker_families })

-- `normalizedVerifier`
unfoldable pub normalized_verifier : Verifier → Verifier
unfolding normalized_coverage normalized_strings
normalized_verifier v = record v {
  coverage_requirements = normalized_coverage v.coverage_requirements;
  path_pattern = normalized_patterns v.path_pattern;
  verification_after_last_edit = normalized_after_edit v.verification_after_last_edit;
  user_correction_absent = normalized_absent v.user_correction_absent;
}

-- The normal form keeps the requirements.
pub normalized_coverage-In :
    (rs : List CoverageRequirement) (r : CoverageRequirement)
    → In r (normalized_coverage rs) ↔ In r rs
unfolding normalized_coverage
normalized_coverage-In rs r =
    let less = λ (a b : CoverageRequirement). text_ltb (coverage_string a) (coverage_string b) in
    let sorted = sort less rs in
    let one = In-compact sorted r in
    let two = In-sort less rs r in (λ m. two.0 (one.0 m), λ m. one.1 (two.1 m))
