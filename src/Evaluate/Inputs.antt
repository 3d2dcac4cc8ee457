-- ===== src/Evaluate/Inputs.antt =====
-- `validateInput` and the checks on facts of internal/experience/evaluate/evaluate.go.
pub mod Evidenced
use belay_engine.Prelude.{
  ℕ, ◌/◌, Bool, true, false, ◌&&◌, ◌||◌, not, List, [], ◌∷◌, Option, some, none, ltb, ◌!=◌, ℤ, pos,
  ltb_ℤ, contains, Check, ok, fail_if, ◌>>◌, wrap, each, length, ◌+◌, ◌-◌, nat_eq, list_eq, int_eq,
  ◌>>=◌,
}
use belay_engine.Experience.Enums.{
  ExperienceType-discrete, CandidateFamily-discrete, EvidenceTurnRole-discrete,
  LifecycleState-discrete, InterventionStrength-discrete, InstructionAuthority-discrete, ScopeKind,
  ScopeKind-discrete, Harness, Harness-discrete, harness_eq, harness_valid,
  DeterministicConditionKind, DeterministicConditionKind-discrete, condition_kind_eq,
  condition_kind_valid, EvidenceSourceKind-discrete, EvidenceAvailability-discrete,
  ApprovalMode-discrete, DeliveryKind-discrete, DeliveryState, DeliveryState-discrete,
  OpportunityState-discrete, ApplicabilityState-discrete, VerifierState-discrete,
  TaskOutcomeState-discrete,
}
use belay_engine.Experience.Verifier.{VerifierKind-discrete, CoverageRequirement-discrete, Verifier}
use belay_engine.Experience.Model.{
  Time, is_zero, before, ℤ-discrete, ExperienceRef-discrete, Experience,
}
use belay_engine.Experience.Validate.Records.{Digests}
use belay_engine.Experience.Validate.Verifiers.{validate_file}
use belay_engine.Experience.Validate.Contracts.{validate_experience, validate_application}
use belay_engine.Evaluate.Types.{
  Component-discrete, complete, Context, FactResult-discrete, Facts, Input,
}
use belay_engine.Evaluate.FactChecks.{
  max_facts, validate_normalized, validate_evidence, validate_coverage, validate_matcher,
  condition_fact, command_fact, opportunity_fact, file_change_fact, verification_fact, failure_fact,
  correction_fact, task_outcome_fact,
}

total : Facts → ℕ
total f =
    length f.opportunities
    + length f.conditions
    + length f.commands
    + length f.file_changes
    + length f.verifications
    + length f.failures
    + length f.corrections
    + length f.task_outcomes

-- `validateFacts`
unfoldable pub validate_facts : Context → Facts → Check
unfolding total opportunity_fact condition_fact command_fact file_change_fact verification_fact
    failure_fact correction_fact task_outcome_fact
validate_facts c f = do
  fail_if (ltb max_facts (total f)) "fact count exceeds bound"
  each (opportunity_fact c) f.opportunities
  each (condition_fact c) f.conditions
  each (command_fact c) f.commands
  each (file_change_fact c) f.file_changes
  each (verification_fact c) f.verifications
  each (failure_fact c) f.failures
  each (correction_fact c) f.corrections
  each (task_outcome_fact c) f.task_outcomes

valid_kinds : List DeterministicConditionKind → List DeterministicConditionKind → Check
unfolding DeterministicConditionKind-discrete
valid_kinds seen [] = ok tt
valid_kinds seen (kind ∷ rest) = do
  fail_if (not (condition_kind_valid kind) || contains seen kind)
      "complete condition kinds are invalid or duplicated"
  valid_kinds (kind ∷ seen) rest

abbrev is_session : ScopeKind → Bool
is_session ScopeKind.session = true
is_session _ = false

abbrev is_delivered : DeliveryState → Bool
is_delivered DeliveryState.delivered = true
is_delivered _ = false

-- The delivery time of a delivered application, which its validation requires.
abbrev delivered_time : Option Time → Time
delivered_time none = 0
delivered_time (some t) = t

abbrev negative_turn : Option ℤ → Bool
negative_turn none = false
negative_turn (some last) = ltb_ℤ last (pos 0)

abbrev unset_harness : Harness
unset_harness = Harness.other []

-- `validateInput` up to the facts.
unfoldable pub validate_binding : Digests → Input → Check
unfolding validate_normalized valid_kinds validate_evidence validate_coverage validate_matcher
    Harness-discrete
validate_binding d i = do
  wrap "application: " (validate_application d i.application)
  wrap "experience: " (validate_experience d i.experience)
  fail_if (not (is_delivered i.application.delivery_state)) "application is not delivered"
  fail_if
      (i.application.experience.experience_id != i.experience.experience_id
        || i.application.experience.version != i.experience.version)
      "application experience version is not exact"
  fail_if
      (i.application.project_identity != i.experience.scope.project_identity
        || i.context.project_identity != i.application.project_identity)
      "project binding does not match"
  fail_if (i.context.session_key != i.application.session_key) "session binding does not match"
  fail_if
      (is_session i.experience.scope.kind
        && i.experience.scope.session_key != i.application.session_key)
      "session-scoped experience does not match application"
  fail_if
      (is_zero i.context.as_of
        || before i.context.as_of (delivered_time i.application.delivered_at))
      "evaluation time is invalid"
  fail_if (i.context.harness != unset_harness && not (harness_valid i.context.harness))
      "context harness is invalid"
  validate_normalized "context model" i.context.model false
  each (λ v. validate_normalized "context task family" v true) i.context.task_families
  each (λ v. wrap "context repository path: " (validate_file (record { path = v })))
      i.context.repository_paths
  valid_kinds [] i.context.complete_condition_kinds
  fail_if (negative_turn i.context.last_turn_index) "last turn index is invalid"
  wrap "context evidence: " (validate_evidence i.context i.context.evidence false)
  validate_coverage i.context [] i.coverage.evidence
  validate_matcher i.experience.verifier i.normalized_verifier

-- `validateInput`
unfoldable pub validate_input : Digests → Input → Check
unfolding validate_binding validate_facts
validate_input d i = validate_binding d i >> validate_facts i.context i.facts
