-- ===== src/Evaluate/Evaluator.antt =====
-- `Evaluate` of internal/experience/evaluate/evaluate.go.
pub mod Requirements
pub mod Grounds
use belay_engine.Prelude.{
  text, Bool, true, false, ◌||◌, not, List, [], ◌∷◌, if◌then◌else◌, Result, ok, wrap, ◌>>◌,
}
use belay_engine.Experience.Enums.{VerifierState}
use belay_engine.Experience.Verifier.{CoverageRequirement}
use belay_engine.Experience.Validate.Records.{Digests}
use belay_engine.Experience.Normalize.{normalized_coverage}
use belay_engine.Evaluate.Types.{
  Component, GapCode, coverage_gap, Coverage, complete, CoverageStatus, Input, Builder, add_gap,
  add_evidence, Outcome,
}
use belay_engine.Evaluate.Matching.{verifier_coverage_evidence}
use belay_engine.Evaluate.States.{evaluate_opportunity, evaluate_task_outcome}
use belay_engine.Evaluate.Applicability.{evaluate_applicability}
use belay_engine.Evaluate.Commands.{Verdict}
use belay_engine.Evaluate.Verdicts.{evaluate_verifier}
use belay_engine.Evaluate.Finish.{Marshal, States, finish}
use belay_engine.Evaluate.Inputs.{validate_input}

-- The loop over the coverage requirements: the statuses, whether one is missing, and the gaps.
check_coverage :
    Coverage → List CoverageRequirement → Builder → List CoverageStatus × Bool × Builder
check_coverage c [] b = ([], false, b)
check_coverage c (requirement ∷ rest) b =
    let done = complete c requirement in
    let b' =
      if done
      then b
      else add_gap (coverage_gap Component.verifier GapCode.coverage_missing requirement) b in
    let (statuses, missing, b'') = check_coverage c rest b' in
    (record { requirement = requirement; complete = done } ∷ statuses, not done || missing, b'')

abbrev is_unknown_verdict : VerifierState → Bool
is_unknown_verdict VerifierState.unknown = true
is_unknown_verdict _ = false

-- The verifier's state, and the coverage cited beside an unknown one.
verdict : Input → Bool → Builder → Verdict
unfolding evaluate_verifier verifier_coverage_evidence
verdict i missing b =
    let (state, b') = if missing then (VerifierState.unknown, b) else evaluate_verifier i b in
    let cited =
      add_evidence Component.verifier (verifier_coverage_evidence i.experience.verifier i.coverage)
        b' in
    (state, if is_unknown_verdict state then cited else b')

abbrev empty_builder : Builder
empty_builder = record { gaps = []; evidence = [] }

-- What is decided and collected before `finish`.
pub record Draft : Type 0 where
  pub states : States
  pub coverage : List CoverageStatus
  pub builder : Builder

unfoldable pub draft : Input → Draft
unfolding check_coverage verdict evaluate_opportunity evaluate_applicability evaluate_task_outcome
    normalized_coverage
draft i =
    let (opportunity, b1) = evaluate_opportunity i.facts.opportunities empty_builder in
    let (applicability, b2) = evaluate_applicability i b1 in
    let (task_outcome, b3) = evaluate_task_outcome i.facts.task_outcomes b2 in
    let (statuses, missing, b4) =
      check_coverage i.coverage (normalized_coverage i.experience.verifier.coverage_requirements)
        b3 in
    let (verifier, b5) = verdict i missing b4 in
    record {
      states = record {
        opportunity = opportunity;
        applicability = applicability;
        verifier = verifier;
        task_outcome = task_outcome;
      };
      coverage = statuses;
      builder = b5;
    }

unfoldable pub outcome_of : Marshal → Draft → Outcome
unfolding finish
outcome_of m d =
    let b = finish m d.states d.builder in
    record {
      derivation_version = text "belay.experience-evaluate.v1";
      opportunity_state = d.states.opportunity;
      applicability_state = d.states.applicability;
      verifier_state = d.states.verifier;
      task_outcome_state = d.states.task_outcome;
      coverage = d.coverage;
      gaps = b.gaps;
      evidence = b.evidence;
    }

-- `Evaluate`
unfoldable pub evaluate : Digests → Marshal → Input → Result Outcome
evaluate d m i = do
  wrap "invalid deterministic evaluation input: " (validate_input d i)
  ok (outcome_of m (draft i))
