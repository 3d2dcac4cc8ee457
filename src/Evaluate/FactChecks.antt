-- ===== src/Evaluate/FactChecks.antt =====
-- The checks on facts and their evidence, in internal/experience/evaluate/evaluate.go.
use belay_engine.Prelude.{
  ℕ, String, Text, Bool, true, false, ◌&&◌, ◌||◌, not, List, [], ◌∷◌, Option, some, none, ltb, ◌!=◌,
  ℤ, pos, ltb_ℤ, contains, is_empty, if◌then◌else◌, Check, ok, fail_if, fail_named, wrap, when,
  each, length, trim_space, to_lower, byte_len, valid_string, nat_eq, list_eq, ◌>>◌,
}
use belay_engine.Experience.Enums.{
  DeterministicConditionKind, condition_kind_valid, EvidenceSourceKind, opportunity_valid,
  task_outcome_valid,
}
use belay_engine.Experience.Verifier.{
  VerifierKind, CoverageRequirement, CoverageRequirement-discrete, coverage_eq, coverage_valid,
  CommandVerifierSpec, Verifier,
}
use belay_engine.Experience.Model.{EvidenceRef}
use belay_engine.Experience.Validate.Fields.{has_control}
use belay_engine.Experience.Validate.Evidence.{validate_evidence_ref}
use belay_engine.Experience.Validate.Verifiers.{validate_file}
use belay_engine.Evaluate.Types.{
  CoverageEvidence, Context, NormalizedVerifier, fact_result_valid, FactMeta, OpportunityFact,
  ConditionFact, CommandFact, FileChangeFact, VerificationFact, FailureFact, CorrectionFact,
  TaskOutcomeFact,
}

abbrev pub max_facts : ℕ
max_facts = 4096

abbrev max_evidence_per_fact : ℕ
max_evidence_per_fact = 8

-- `validateNormalizedString`
unfoldable pub validate_normalized : String → Text → Bool → Check
unfolding has_control valid_string trim_space byte_len
validate_normalized name value required = do
  fail_named (required && is_empty value) name " is required"
  when (not (is_empty value)) (do
    fail_named (value != trim_space value || ltb 16384 (byte_len value) || not (valid_string value))
        name " is not normalized"
    fail_named (has_control value) name " contains control characters")

abbrev is_transcript : EvidenceSourceKind → Bool
is_transcript EvidenceSourceKind.transcript_turn = true
is_transcript _ = false

-- `validateEvidence`
unfoldable pub validate_evidence : Context → List EvidenceRef → Bool → Check
unfolding validate_evidence_ref
validate_evidence c values required = do
  fail_if ((required && is_empty values) || ltb max_evidence_per_fact (length values))
      "evidence is required and bounded"
  each
      (λ ref. (do
        wrap "evidence reference: " (validate_evidence_ref ref)
        fail_if (is_transcript ref.kind && ref.session_key != c.session_key)
            "transcript evidence is outside the bound session"))
      values

abbrev pub beyond : Option ℤ → ℤ → Bool
beyond none order = false
beyond (some last) order = ltb_ℤ last order

-- `validateFactMeta`
unfoldable pub validate_fact_meta : Context → FactMeta → Check
unfolding validate_evidence
validate_fact_meta c m = do
  fail_if (ltb_ℤ m.order (pos 0) || beyond c.last_turn_index m.order)
      "fact order is outside the bounded session"
  validate_evidence c m.evidence true

-- The loop over the coverage evidence; `seen` holds the requirements met so far.
unfoldable pub validate_coverage :
    Context → List CoverageRequirement → List CoverageEvidence → Check
unfolding validate_evidence CoverageRequirement-discrete
validate_coverage c seen [] = ok tt
validate_coverage c seen (item ∷ rest) = do
  fail_if (not (coverage_valid item.requirement) || contains seen item.requirement)
      "coverage evidence requirement is invalid or duplicated"
  wrap "coverage evidence: " (validate_evidence c item.evidence true)
  validate_coverage c (item.requirement ∷ seen) rest

abbrev command_kind : VerifierKind → Bool
command_kind VerifierKind.command_observed = true
command_kind VerifierKind.command_succeeded = true
command_kind _ = false

abbrev declared_text : Option CommandVerifierSpec → Text
declared_text none = []
declared_text (some spec) = spec.command

abbrev no_matcher : NormalizedVerifier → Bool
no_matcher n =
    is_empty n.declared_command
    && is_empty n.command_signature
    && is_empty n.command_scrubbing_version

-- `validateNormalizedVerifier`
unfoldable pub validate_matcher : Verifier → NormalizedVerifier → Check
unfolding validate_normalized to_lower
validate_matcher v n =
    if not (command_kind v.kind)
    then fail_if (not (no_matcher n)) "non-command verifier has command matcher"
    else when (not (no_matcher n)) (do
      fail_if (n.declared_command != declared_text v.command)
          "normalized command matcher is not bound to declared command"
      validate_normalized "declared command" n.declared_command true
      validate_normalized "normalized command signature" n.command_signature true
      fail_if (to_lower n.command_signature != n.command_signature)
          "normalized command signature must be lowercase"
      validate_normalized "command scrubbing version" n.command_scrubbing_version true)

fact_value : DeterministicConditionKind → Text → Check
unfolding validate_file validate_normalized
fact_value DeterministicConditionKind.path_pattern value =
    wrap "condition path fact: " (validate_file (record { path = value }))
fact_value _ value = validate_normalized "condition fact value" value true

unfoldable pub condition_fact : Context → ConditionFact → Check
unfolding fact_value validate_fact_meta
condition_fact c f = do
  fail_if (not (condition_kind_valid f.kind) || is_empty f.values) "condition fact is invalid"
  validate_fact_meta c f.meta
  each (fact_value f.kind) f.values

unfoldable pub command_fact : Context → CommandFact → Check
unfolding validate_fact_meta validate_normalized to_lower
command_fact c f = do
  validate_fact_meta c f.meta
  validate_normalized "command signature" f.signature true
  fail_if (to_lower f.signature != f.signature) "command signature must be lowercase"
  validate_normalized "command class" f.class false
  fail_if (not (fact_result_valid f.result)) "command fact result is invalid"

unfoldable pub opportunity_fact : Context → OpportunityFact → Check
unfolding validate_fact_meta
opportunity_fact c f = do
  fail_if (not (opportunity_valid f.state)) "opportunity fact state is invalid"
  validate_fact_meta c f.meta

unfoldable pub file_change_fact : Context → FileChangeFact → Check
unfolding validate_fact_meta validate_file
file_change_fact c f = do
  validate_fact_meta c f.meta
  wrap "file change path: " (validate_file (record { path = f.path }))

unfoldable pub verification_fact : Context → VerificationFact → Check
unfolding validate_fact_meta validate_normalized
verification_fact c f = do
  validate_fact_meta c f.meta
  validate_normalized "verification command class" f.command_class true
  fail_if (not (fact_result_valid f.result)) "verification fact result is invalid"

unfoldable pub failure_fact : Context → FailureFact → Check
unfolding validate_fact_meta validate_normalized
failure_fact c f = do
  validate_fact_meta c f.meta
  validate_normalized "failure command class" f.command_class true
  validate_normalized "normalized failure pattern" f.normalized_pattern true

unfoldable pub correction_fact : Context → CorrectionFact → Check
unfolding validate_fact_meta validate_normalized
correction_fact c f = do
  validate_fact_meta c f.meta
  validate_normalized "correction marker family" f.marker_family true

unfoldable pub task_outcome_fact : Context → TaskOutcomeFact → Check
unfolding validate_fact_meta
task_outcome_fact c f = do
  fail_if (not (task_outcome_valid f.state)) "task outcome fact state is invalid"
  validate_fact_meta c f.meta
