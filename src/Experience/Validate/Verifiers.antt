-- ===== src/Experience/Validate/Verifiers.antt =====
-- `Verifier.Validate` and the typed specifications of internal/experience/validate.go.
use belay_engine.Prelude.{
  ℕ, String, true, ◌&&◌, ◌||◌, not, [], ◌∷◌, Option, some, none, ◌!=◌, pos, ltb_ℤ, is_empty, Check,
  err, fail_if, when, each, ◌+◌, nat_eq, list_eq, ◌>>◌,
}
use belay_engine.Experience.Verifier.{
  VerifierKind, verifier_kind_valid, coverage_valid, CommandVerifierSpec, FileVerifierSpec,
  PathPatternVerifierSpec, VerificationAfterLastEditSpec, NoRepeatFailureSpec,
  UserCorrectionAbsentSpec, ObservationOnlySpec, Verifier, absence_based,
}
use belay_engine.Experience.Validate.Fields.{
  max_command_bytes, max_guidance_bytes, max_rationale_bytes, validate_identifier, validate_text,
  validate_one_line, validate_relative_path, validate_relative_pattern,
}
use belay_engine.Experience.Validate.Records.{too_many}

validate_command : CommandVerifierSpec → Check
unfolding validate_one_line validate_identifier
validate_command value = do
  validate_one_line "verifier command" value.command max_command_bytes true
  validate_identifier "verifier command scrubbing version" value.scrubbing_version
  when (value.command_class != [])
      (validate_identifier "verifier command class" value.command_class)

unfoldable pub validate_file : FileVerifierSpec → Check
unfolding validate_relative_path
validate_file value = validate_relative_path value.path

unfoldable pub validate_path_pattern : PathPatternVerifierSpec → Check
unfolding validate_relative_pattern
validate_path_pattern value = do
  fail_if (is_empty value.patterns || too_many value.patterns)
      "path-pattern verifier patterns are required and bounded"
  each validate_relative_pattern value.patterns

validate_after_last_edit : VerificationAfterLastEditSpec → Check
unfolding validate_identifier
validate_after_last_edit value = do
  fail_if (too_many value.command_classes) "verification command classes exceed item limit"
  each (validate_identifier "verification command class") value.command_classes

validate_no_repeat : NoRepeatFailureSpec → Check
unfolding validate_identifier validate_one_line
validate_no_repeat value = do
  validate_identifier "failure command class" value.command_class
  validate_one_line "normalized failure pattern" value.normalized_pattern max_guidance_bytes true
  fail_if (ltb_ℤ value.window_turns (pos 1) || ltb_ℤ (pos 1000) value.window_turns)
      "failure window turns must be between one and 1000"

validate_correction_absent : UserCorrectionAbsentSpec → Check
unfolding validate_identifier
validate_correction_absent value = do
  fail_if (too_many value.marker_families) "correction marker families exceed item limit"
  each (validate_identifier "correction marker family") value.marker_families

validate_observation_only : ObservationOnlySpec → Check
unfolding validate_text
validate_observation_only value =
    validate_text "observation-only explanation" value.explanation max_rationale_bytes true

abbrev present {ℓ} : {A : Type ℓ} → Option A → ℕ
present none = 0
present (some _) = 1

-- How many typed specifications the verifier carries.
abbrev pub spec_count : Verifier → ℕ
spec_count v =
    present v.command
    + present v.file
    + present v.path_pattern
    + present v.verification_after_last_edit
    + present v.no_repeat_failure
    + present v.user_correction_absent
    + present v.observation_only

-- `if spec == nil { return errors.New(message) }; return spec.Validate()`
abbrev required {ℓ} : {A : Type ℓ} → Option A → String → (A → Check) → Check
required none message f = err (message ∷ [])
required (some spec) message f = f spec

-- The `switch` on the kind.
validate_spec : Verifier → VerifierKind → Check
unfolding validate_command validate_file validate_path_pattern validate_after_last_edit
    validate_no_repeat validate_correction_absent validate_observation_only
validate_spec v VerifierKind.command_observed =
    required v.command "command verifier requires command specification" validate_command
validate_spec v VerifierKind.command_succeeded =
    required v.command "command verifier requires command specification" validate_command
validate_spec v VerifierKind.file_not_modified =
    required v.file "file verifier requires file specification" validate_file
validate_spec v VerifierKind.file_modified =
    required v.file "file verifier requires file specification" validate_file
validate_spec v VerifierKind.path_pattern_not_modified =
    required v.path_pattern "path-pattern verifier requires path-pattern specification"
      validate_path_pattern
validate_spec v VerifierKind.verification_after_last_edit =
    required v.verification_after_last_edit
      "verification-after-edit verifier requires its typed specification" validate_after_last_edit
validate_spec v VerifierKind.no_repeat_failure =
    required v.no_repeat_failure "no-repeat-failure verifier requires its typed specification"
      validate_no_repeat
validate_spec v VerifierKind.user_correction_absent =
    required v.user_correction_absent
      "user-correction-absent verifier requires its typed specification" validate_correction_absent
validate_spec v VerifierKind.observation_only =
    required v.observation_only "observation-only verifier requires its typed specification"
      validate_observation_only
validate_spec v (VerifierKind.other _) = err ("verifier kind is invalid" ∷ [])

-- `Verifier.Validate`
unfoldable pub validate_verifier : Verifier → Check
unfolding validate_spec
validate_verifier v = do
  fail_if (not (verifier_kind_valid v.kind)) "verifier kind is invalid"
  fail_if (too_many v.coverage_requirements) "verifier coverage requirements exceed item limit"
  each
      (λ requirement.
        fail_if (not (coverage_valid requirement)) "verifier coverage requirement is invalid")
      v.coverage_requirements
  fail_if (absence_based v && is_empty v.coverage_requirements)
      "absence-based verifier requires explicit coverage requirements"
  fail_if (spec_count v != 1) "verifier must declare exactly one typed specification"
  validate_spec v v.kind
