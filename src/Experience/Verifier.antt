-- ===== src/Experience/Verifier.antt =====
-- internal/experience/verifier.go: what an experience asks of a session, and the coverage that the
-- answer needs.
use native.Mathlib.Decide.{ℕ_discrete}
use belay_engine.Prelude.{Text, ℤ, Eq, eq_of_discrete, Bool, true, false, Option, List}

pub data VerifierKind : Type 0 where
  command_observed command_succeeded file_not_modified file_modified path_pattern_not_modified
        verification_after_last_edit no_repeat_failure user_correction_absent observation_only :
      VerifierKind
  other : Text → VerifierKind

unfoldable pub VerifierKind-discrete : Discrete VerifierKind
VerifierKind-discrete = hlevel ℕ_discrete

instance abbrev pub verifier_kind_eq : Eq VerifierKind
verifier_kind_eq = eq_of_discrete VerifierKind-discrete

abbrev pub verifier_kind_valid : VerifierKind → Bool
verifier_kind_valid (VerifierKind.other _) = false
verifier_kind_valid _ = true

pub data CoverageRequirement : Type 0 where
  transcript_complete canonical_complete workspace_captured outcomes_complete : CoverageRequirement
  other : Text → CoverageRequirement

unfoldable pub CoverageRequirement-discrete : Discrete CoverageRequirement
CoverageRequirement-discrete = hlevel ℕ_discrete

instance abbrev pub coverage_eq : Eq CoverageRequirement
coverage_eq = eq_of_discrete CoverageRequirement-discrete

abbrev pub coverage_valid : CoverageRequirement → Bool
coverage_valid (CoverageRequirement.other _) = false
coverage_valid _ = true

pub record CommandVerifierSpec : Type 0 where
  pub command : Text
  pub command_class : Text
  pub scrubbing_version : Text

pub record FileVerifierSpec : Type 0 where
  pub path : Text

pub record PathPatternVerifierSpec : Type 0 where
  pub patterns : List Text

pub record VerificationAfterLastEditSpec : Type 0 where
  pub command_classes : List Text
  pub require_success : Bool

pub record NoRepeatFailureSpec : Type 0 where
  pub command_class : Text
  pub normalized_pattern : Text
  pub window_turns : ℤ

pub record UserCorrectionAbsentSpec : Type 0 where
  pub marker_families : List Text

pub record ObservationOnlySpec : Type 0 where
  pub explanation : Text

pub record Verifier : Type 0 where
  pub kind : VerifierKind
  pub coverage_requirements : List CoverageRequirement
  pub command : Option CommandVerifierSpec
  pub file : Option FileVerifierSpec
  pub path_pattern : Option PathPatternVerifierSpec
  pub verification_after_last_edit : Option VerificationAfterLastEditSpec
  pub no_repeat_failure : Option NoRepeatFailureSpec
  pub user_correction_absent : Option UserCorrectionAbsentSpec
  pub observation_only : Option ObservationOnlySpec

abbrev absence_kind : VerifierKind → Bool
absence_kind VerifierKind.file_not_modified = true
absence_kind VerifierKind.path_pattern_not_modified = true
absence_kind VerifierKind.no_repeat_failure = true
absence_kind VerifierKind.user_correction_absent = true
absence_kind _ = false

-- `absenceBased`: the verdict rests on what was not seen.
abbrev pub absence_based : Verifier → Bool
absence_based v = absence_kind v.kind
