-- ===== src/Evaluate/Matching.antt =====
-- The matching helpers at the end of internal/experience/evaluate/evaluate.go.
use belay_engine.Prelude.{
  Text, Bool, true, false, ◌&&◌, ◌||◌, not, List, [], ◌∷◌, ◌++◌, Option, some, none, ◌==◌, contains,
  if◌then◌else◌, any, flat_map, succeeds, Eq, nat_eq, list_eq,
}
use belay_engine.Experience.Verifier.{
  CoverageRequirement, CoverageRequirement-discrete, coverage_eq, Verifier,
}
use belay_engine.Experience.Model.{EvidenceRef}
use belay_engine.Experience.Validate.Fields.{clean_path}
use belay_engine.Experience.Validate.Verifiers.{validate_file, validate_path_pattern}
use belay_engine.Experience.PathMatch.{relative_path_pattern_matches}
use belay_engine.Experience.Normalize.{normalized_coverage}
use belay_engine.Evaluate.Types.{CoverageEvidence, Coverage}

-- `overlap`
unfoldable pub overlap : {A : Type 0} ⦃e : Eq A⦄ → List A → List A → Bool
overlap left right = any (λ value. contains right value) left

unfoldable pub safe_relative_path : Text → Bool
unfolding validate_file
safe_relative_path value = succeeds (validate_file (record { path = value }))

unfoldable pub safe_pattern : Text → Bool
unfolding validate_path_pattern clean_path
safe_pattern value =
    succeeds (validate_path_pattern (record { patterns = value ∷ [] })) && clean_path value == value

-- The inner loop of `matchAnyPath`: `some` is what the function returns from there.
match_paths : Text → List Text → Option Bool
unfolding safe_relative_path relative_path_pattern_matches
match_paths pattern [] = none
match_paths pattern (value ∷ rest) =
    if not (safe_relative_path value)
    then some false
    else if relative_path_pattern_matches pattern value
    then some true
    else match_paths pattern rest

-- `matchAnyPath`
unfoldable pub match_any_path : List Text → List Text → Bool
unfolding safe_pattern match_paths
match_any_path [] paths = false
match_any_path (pattern ∷ rest) paths =
    let others = match_any_path rest paths in
    if not (safe_pattern pattern)
    then false
    else elim (match_paths pattern paths) [ none ↦ others | some answer ↦ answer ]

-- `declaredCoverage`
unfoldable pub declared_coverage : Verifier → CoverageRequirement → Bool
unfolding CoverageRequirement-discrete
declared_coverage v requirement = contains v.coverage_requirements requirement

find_coverage : List CoverageEvidence → CoverageRequirement → List EvidenceRef
unfolding CoverageRequirement-discrete
find_coverage [] requirement = []
find_coverage (item ∷ rest) requirement =
    if item.requirement == requirement then item.evidence else find_coverage rest requirement

-- `coverageEvidence`
unfoldable pub coverage_evidence : Coverage → CoverageRequirement → List EvidenceRef
unfolding find_coverage
coverage_evidence c requirement = find_coverage c.evidence requirement

-- `fileAbsenceCoverageDeclared`
unfoldable pub file_absence_declared : Verifier → Bool
unfolding declared_coverage
file_absence_declared v =
    declared_coverage v CoverageRequirement.workspace_captured
    || declared_coverage v CoverageRequirement.canonical_complete

abbrev pub declared_evidence : Verifier → Coverage → CoverageRequirement → List EvidenceRef
declared_evidence v c requirement =
    if declared_coverage v requirement then coverage_evidence c requirement else []

-- `fileAbsenceEvidence`
unfoldable pub file_absence_evidence : Verifier → Coverage → List EvidenceRef
unfolding declared_coverage coverage_evidence
file_absence_evidence v c =
    declared_evidence v c CoverageRequirement.workspace_captured
    ++ declared_evidence v c CoverageRequirement.canonical_complete

-- `verifierCoverageEvidence`
unfoldable pub verifier_coverage_evidence : Verifier → Coverage → List EvidenceRef
unfolding normalized_coverage coverage_evidence
verifier_coverage_evidence v c =
    flat_map (coverage_evidence c) (normalized_coverage v.coverage_requirements)
