-- ===== src/Experience/Conflict.antt =====
-- internal/experience/conflict.go: whether an inactive proposal conflicts with the active
-- experiences.
pub mod Preflight
pub mod Scopes
pub mod Verdicts
use native.Mathlib.Decide.{ℕ_discrete}
use belay_engine.Prelude.{
  ℕ, Text, text, Bool, true, false, ◌&&◌, ◌||◌, not, List, [], Option, some, none, ◌==◌, ◌!=◌,
  contains, is_empty, if◌then◌else◌, all, text_ltb, Eq, eq_of_discrete, nat_eq, list_eq,
}
use belay_engine.Experience.Enums.{ScopeKind, Harness-discrete, harness_eq}
use belay_engine.Experience.Verifier.{
  VerifierKind, FileVerifierSpec, PathPatternVerifierSpec, Verifier,
}
use belay_engine.Experience.Model.{ExperienceRef, Scope}
use belay_engine.Experience.PathMatch.{file_matches_any_pattern}

pub data ConflictState : Type 0 where
  no_conflict possible_overlap possible_contradiction : ConflictState
  other : Text → ConflictState

abbrev pub conflict_state_valid : ConflictState → Bool
conflict_state_valid (ConflictState.other _) = false
conflict_state_valid _ = true

pub data ConflictReasonCode : Type 0 where
  no_active_experiences different_project disjoint_session : ConflictReasonCode
  disjoint_harnesses disjoint_models disjoint_task_families : ConflictReasonCode
  overlapping_scope file_verifier_opposition pattern_verifier_opposition : ConflictReasonCode
  experience_refs_truncated active_query_cap_reached : ConflictReasonCode
  other : Text → ConflictReasonCode

unfoldable pub ConflictReasonCode-discrete : Discrete ConflictReasonCode
ConflictReasonCode-discrete = hlevel ℕ_discrete

instance abbrev pub reason_eq : Eq ConflictReasonCode
reason_eq = eq_of_discrete ConflictReasonCode-discrete

abbrev pub reason_valid : ConflictReasonCode → Bool
reason_valid (ConflictReasonCode.other _) = false
reason_valid _ = true

-- The string of a reason code, by which the codes are sorted.
abbrev reason_string : ConflictReasonCode → Text
reason_string ConflictReasonCode.no_active_experiences = text "no_active_experiences"
reason_string ConflictReasonCode.different_project = text "different_project"
reason_string ConflictReasonCode.disjoint_session = text "disjoint_session"
reason_string ConflictReasonCode.disjoint_harnesses = text "disjoint_harnesses"
reason_string ConflictReasonCode.disjoint_models = text "disjoint_models"
reason_string ConflictReasonCode.disjoint_task_families = text "disjoint_task_families"
reason_string ConflictReasonCode.overlapping_scope = text "overlapping_scope"
reason_string ConflictReasonCode.file_verifier_opposition = text "file_verifier_opposition"
reason_string ConflictReasonCode.pattern_verifier_opposition =
    text "path_pattern_verifier_opposition"
reason_string ConflictReasonCode.experience_refs_truncated = text "experience_refs_truncated"
reason_string ConflictReasonCode.active_query_cap_reached =
    text "active_experience_query_cap_reached"
reason_string (ConflictReasonCode.other s) = s

pub record ConflictAdvisory : Type 0 where
  pub proposal_id : Text
  pub state : ConflictState
  pub refs : List ExperienceRef
  pub reasons : List ConflictReasonCode

abbrev pub max_conflict_refs : ℕ
max_conflict_refs = 64

abbrev pub max_conflict_reasons : ℕ
max_conflict_reasons = 16

unfoldable pub reason_ltb : ConflictReasonCode → ConflictReasonCode → Bool
reason_ltb a b = text_ltb (reason_string a) (reason_string b)

-- `exactSetsDisjoint`
unfoldable pub exact_sets_disjoint : {A : Type 0} ⦃e : Eq A⦄ → List A → List A → Bool
exact_sets_disjoint left right =
    if is_empty left || is_empty right
    then false
    else all (λ value. not (contains left value)) right

abbrev pub both_sessions : ScopeKind → ScopeKind → Bool
both_sessions ScopeKind.session ScopeKind.session = true
both_sessions _ _ = false

-- `scopesProvenDisjoint`: the reason, where the scopes are disjoint.
unfoldable pub scopes_proven_disjoint : Scope → Scope → Option ConflictReasonCode
unfolding exact_sets_disjoint Harness-discrete
scopes_proven_disjoint left right =
    if left.project_identity != right.project_identity
    then some ConflictReasonCode.different_project
    else if both_sessions left.kind right.kind && left.session_key != right.session_key
    then some ConflictReasonCode.disjoint_session
    else if exact_sets_disjoint left.harnesses right.harnesses
    then some ConflictReasonCode.disjoint_harnesses
    else if exact_sets_disjoint left.models right.models
    then some ConflictReasonCode.disjoint_models
    else if exact_sets_disjoint left.task_families right.task_families
    then some ConflictReasonCode.disjoint_task_families
    else none

-- `File.Path` and `PathPattern.Patterns` behind the kinds that require them; both verifiers have
-- been validated, so the pointers are not nil.
abbrev pub file_path : Option FileVerifierSpec → Text
file_path none = []
file_path (some spec) = spec.path

abbrev pub pattern_list : Option PathPatternVerifierSpec → List Text
pattern_list none = []
pattern_list (some spec) = spec.patterns

opposed_kinds : Verifier → Verifier → VerifierKind → VerifierKind → Option ConflictReasonCode
unfolding file_matches_any_pattern
opposed_kinds left right VerifierKind.file_modified VerifierKind.file_not_modified =
    if file_path left.file == file_path right.file
    then some ConflictReasonCode.file_verifier_opposition
    else none
opposed_kinds left right VerifierKind.file_not_modified VerifierKind.file_modified =
    if file_path right.file == file_path left.file
    then some ConflictReasonCode.file_verifier_opposition
    else none
opposed_kinds left right VerifierKind.file_modified VerifierKind.path_pattern_not_modified =
    if file_matches_any_pattern (file_path left.file) (pattern_list right.path_pattern)
    then some ConflictReasonCode.pattern_verifier_opposition
    else none
opposed_kinds left right VerifierKind.path_pattern_not_modified VerifierKind.file_modified =
    if file_matches_any_pattern (file_path right.file) (pattern_list left.path_pattern)
    then some ConflictReasonCode.pattern_verifier_opposition
    else none
opposed_kinds left right _ _ = none

-- `verifierOpposition`: the reason, where the verifiers are opposed.
unfoldable pub verifier_opposition : Verifier → Verifier → Option ConflictReasonCode
unfolding opposed_kinds
verifier_opposition left right = opposed_kinds left right left.kind right.kind
