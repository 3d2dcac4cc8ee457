-- ===== src/Examples/Evaluations.antt =====
-- An evaluation of the active experience in a session that edited the file and ran the tests.
use belay_engine.Prelude.{
  ◌⊎◌, ℕ, text, true, false, ◌&&◌, not, List, [], ◌∷◌, some, ◌==◌, ℤ, pos, is_empty, ok, length,
  all, ◌≡◌, refl, ◌↔◌, inl, inr, arith, ◌≤◌, In, Subset,
}
use belay_engine.Experience.Enums.{
  Harness, DeliveryKind, DeliveryState, OpportunityState, opportunity_eq, ApplicabilityState,
  VerifierState, TaskOutcomeState,
}
use belay_engine.Experience.Verifier.{
  CoverageRequirement, VerificationAfterLastEditSpec, NoRepeatFailureSpec,
}
use belay_engine.Experience.Model.{Application}
use belay_engine.Examples.Data.{turn_evidence, active_experience, digests}
use belay_engine.Evaluate.Types.{
  Component, Gap, Coverage, Context, FactResult, FactMeta, OpportunityFact, Facts, Input,
  CitedEvidence, Builder, cite, Outcome,
}
use belay_engine.Evaluate.Applicability.{evaluate_applicability}
use belay_engine.Evaluate.Applicability.Decides.{admitted, evaluate_applicability-applicable_iff}
use belay_engine.Evaluate.Verdicts.{
  evaluate_file, evaluate_after_last_edit, evaluate_no_repeat_failure,
}
use belay_engine.Evaluate.Verdicts.Edits.{Verifies, evaluate_after_last_edit-satisfied}
use belay_engine.Evaluate.Verdicts.Failures.{close_pair, evaluate_no_repeat_failure-violated_iff}
use belay_engine.Evaluate.Verdicts.Changes.{
  IsChanged, IsUnambiguous, ShowsAbsence, evaluate_file-decides,
}
use belay_engine.Evaluate.States.{evaluate_opportunity}
use belay_engine.Evaluate.States.Agreement.{evaluate_opportunity-decides}
use belay_engine.Evaluate.Finish.{
  Marshal, max_result_evidence, max_result_gaps, States, required, bounded_evidence, finish,
}
use belay_engine.Evaluate.Finish.Anchors.{Cites, bounded_evidence-keeps}
use belay_engine.Evaluate.Finish.Bounds.{finish-keeps}
use belay_engine.Evaluate.Inputs.{validate_facts, validate_input}
use belay_engine.Evaluate.Evaluator.{draft, outcome_of, evaluate}
use belay_engine.Evaluate.Evaluator.Requirements.{evaluate-incomplete}
use belay_engine.Evaluate.Evaluator.Grounds.{states_of, evaluate-cites}
use belay_engine.Experience.Validate.Contracts.{validate_experience, validate_application}

abbrev meta_at : ℤ → FactMeta
meta_at order = record { order = order; ambiguous = false; evidence = turn_evidence ∷ [] }

abbrev delivered_application : Application
delivered_application = record {
  schema_version = text "belay.experience-application.v1";
  application_id = text "a";
  experience = record { experience_id = text "e"; version = pos 1 };
  project_identity = text "p";
  session_key = text "k";
  delivery_kind = DeliveryKind.hook;
  delivery_state = DeliveryState.delivered;
  delivered_at = some 1;
  opportunity_state = OpportunityState.unknown;
  applicability_state = ApplicabilityState.unknown;
  verifier_state = VerifierState.unknown;
  task_outcome_state = TaskOutcomeState.unknown;
  source_evidence = turn_evidence ∷ [];
}

abbrev session_context : Context
session_context = record {
  project_identity = text "p";
  session_key = text "k";
  harness = Harness.codex;
  model = text "m";
  task_families = [];
  repository_paths = [];
  complete_condition_kinds = [];
  last_turn_index = some (pos 9);
  as_of = 2;
  evidence = turn_evidence ∷ [];
}

abbrev nothing_covered : Coverage
nothing_covered = record {
  transcript_complete = false;
  canonical_events_complete = false;
  workspace_state_captured = false;
  outcome_observations_complete = false;
  evidence = [];
}

abbrev present_fact : OpportunityFact
present_fact = record { meta = meta_at (pos 1); state = OpportunityState.observed }

abbrev session_facts : Facts
session_facts = record {
  opportunities = present_fact ∷ [];
  conditions = [];
  commands = [];
  file_changes = record { meta = meta_at (pos 3); path = text "a" } ∷ [];
  verifications =
      record { meta = meta_at (pos 5); command_class = text "test"; result = FactResult.succeeded }
      ∷ [];
  failures =
      record { meta = meta_at (pos 6); command_class = text "test"; normalized_pattern = text "f" }
      ∷ record {
        meta = meta_at (pos 4);
        command_class = text "test";
        normalized_pattern = text "f";
      }
      ∷ [];
  corrections = [];
  task_outcomes = [];
}

abbrev session_input : Input
session_input = record {
  application = delivered_application;
  experience = active_experience;
  context = session_context;
  coverage = nothing_covered;
  normalized_verifier = record {
    declared_command = [];
    command_signature = [];
    command_scrubbing_version = [];
  };
  facts = session_facts;
}

abbrev empty : Builder
empty = record { gaps = []; evidence = [] }

abbrev code : Component → ℕ
code Component.opportunity = 0
code Component.applicability = 1
code Component.verifier = 2
code Component.task_outcome = 3

code-injective : (a b : Component) → code a ≡ code b → a ≡ b
code-injective a b h = ground (arith, h)

abbrev marshal : Marshal
marshal = record {
  gap_json = λ (g : Gap). code g.component ∷ [];
  evidence_json = λ (c : CitedEvidence). code c.component ∷ [];
}

encodes :
    (x y : CitedEvidence)
    → marshal.evidence_json x ≡ marshal.evidence_json y
    → x.component ≡ y.component
encodes x y h = code-injective x.component y.component (cc h)

evaluate_applicability-applicable_iff_example :
    ((evaluate_applicability session_input empty).0 ≡ ApplicabilityState.applicable)
    ↔ (((true && admitted session_input) && not (is_empty (turn_evidence ∷ []))) ≡ true)
evaluate_applicability-applicable_iff_example =
    evaluate_applicability-applicable_iff session_input empty

abbrev tests_after_edit : VerificationAfterLastEditSpec
tests_after_edit = record { command_classes = text "test" ∷ []; require_success = true }

after_edit_satisfied :
    (evaluate_after_last_edit session_input tests_after_edit empty).0 ≡ VerifierState.satisfied
unfolding evaluate_after_last_edit
after_edit_satisfied = refl

evaluate_after_last_edit-satisfied_example :
    (is_empty session_facts.file_changes ≡ false) × Verifies session_input tests_after_edit
evaluate_after_last_edit-satisfied_example =
    evaluate_after_last_edit-satisfied session_input tests_after_edit empty refl
      after_edit_satisfied

abbrev test_failure : NoRepeatFailureSpec
test_failure = record {
  command_class = text "test";
  normalized_pattern = text "f";
  window_turns = pos 2;
}

evaluate_no_repeat_failure-violated_iff_example :
    ((evaluate_no_repeat_failure session_input test_failure empty).0 ≡ VerifierState.violated)
    ↔ ((false ≡ false) × (false ≡ false) × (close_pair (pos 2) (pos 6 ∷ pos 4 ∷ []) ≡ true))
evaluate_no_repeat_failure-violated_iff_example =
    evaluate_no_repeat_failure-violated_iff session_input test_failure empty

evaluate_file-decides_example :
    (IsUnambiguous session_facts (text "a")
      × IsChanged session_facts (text "a")
      × ((evaluate_file session_input (record { path = text "a" }) false empty).0
          ≡ VerifierState.violated))
    ⊎ (IsUnambiguous session_facts (text "a")
        × (¬ IsChanged session_facts (text "a"))
        × ShowsAbsence session_input.experience.verifier session_input.coverage
        × ((evaluate_file session_input (record { path = text "a" }) false empty).0
            ≡ VerifierState.satisfied))
    ⊎ ((IsUnambiguous session_facts (text "a")
          → (¬ IsChanged session_facts (text "a"))
            × ¬ ShowsAbsence session_input.experience.verifier session_input.coverage)
        × ((evaluate_file session_input (record { path = text "a" }) false empty).0
            ≡ VerifierState.unknown))
evaluate_file-decides_example =
    evaluate_file-decides session_input (record { path = text "a" }) false empty

evaluate_opportunity-decides_example :
    ((evaluate_opportunity (present_fact ∷ []) empty).0 ≡ OpportunityState.observed) ↔ (
      (false ≡ false)
      × (all
            (λ (f : OpportunityFact). not f.meta.ambiguous && f.state == OpportunityState.observed)
            (present_fact ∷ [])
          ≡ true))
evaluate_opportunity-decides_example =
    evaluate_opportunity-decides (present_fact ∷ []) empty OpportunityState.observed (λ h. cc h)

abbrev decided_states : States
decided_states = record {
  opportunity = OpportunityState.observed;
  applicability = ApplicabilityState.applicable;
  verifier = VerifierState.unknown;
  task_outcome = TaskOutcomeState.unknown;
}

abbrev cited : List CitedEvidence
cited = cite Component.opportunity turn_evidence ∷ cite Component.applicability turn_evidence ∷ []

bounded_evidence-keeps_example :
    Subset (bounded_evidence decided_states 4 cited) cited
    × (length (bounded_evidence decided_states 4 cited) ≤ 4)
    × Cites Component.applicability (bounded_evidence decided_states 4 cited)
bounded_evidence-keeps_example =
    bounded_evidence-keeps decided_states 4 cited Component.applicability (omega arith) refl
      (cite Component.applicability turn_evidence, inr (inl refl), refl)

finish-keeps_example :
    (length (finish marshal decided_states (record { gaps = []; evidence = cited })).gaps
      ≤ max_result_gaps)
    × (length (finish marshal decided_states (record { gaps = []; evidence = cited })).evidence
        ≤ max_result_evidence)
    × Cites Component.applicability
        (finish marshal decided_states (record { gaps = []; evidence = cited })).evidence
finish-keeps_example =
    finish-keeps marshal decided_states (record { gaps = []; evidence = cited })
      Component.applicability encodes refl
      (cite Component.applicability turn_evidence, inr (inl refl), refl)

abbrev session_outcome : Outcome
session_outcome = outcome_of marshal (draft session_input)

session_evaluates : evaluate digests marshal session_input ≡ ok session_outcome
unfolding evaluate validate_input validate_application validate_experience validate_facts
session_evaluates = refl

evaluate-incomplete_example :
    (session_outcome.verifier_state ≡ VerifierState.unknown)
    × In
        (record { requirement = CoverageRequirement.workspace_captured; complete = false })
        session_outcome.coverage
evaluate-incomplete_example =
    evaluate-incomplete digests marshal session_input session_outcome
      CoverageRequirement.workspace_captured session_evaluates (inl refl) refl

session_observed : required (states_of session_outcome) Component.opportunity ≡ true
unfolding outcome_of draft evaluate_opportunity
session_observed = refl

evaluate-cites_example :
    (length session_outcome.gaps ≤ max_result_gaps)
    × (length session_outcome.evidence ≤ max_result_evidence)
    × Cites Component.opportunity session_outcome.evidence
evaluate-cites_example =
    evaluate-cites digests marshal session_input session_outcome Component.opportunity encodes
      session_evaluates session_observed
