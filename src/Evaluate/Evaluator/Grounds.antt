-- ===== src/Evaluate/Evaluator/Grounds.antt =====
-- Every decided state in the result of an evaluation is cited.
use mathlib.Core.Path.{subst}
use belay_engine.Prelude.{
  Bool, true, false, List, [], ◌∷◌, ok, wrap, length, ◌≡◌, sym, inl, inr, ◌≤◌, Subset, Bool-cases,
  In-append_left, >>-eq_ok, wrap-eq_ok, ok-injective,
}
use belay_engine.Evaluate.Types.{
  Component, GapCode, coverage_gap, Coverage, complete, CoverageStatus, Input, CitedEvidence,
  Builder, add_gap, Outcome,
}
use belay_engine.Evaluate.Evaluator.{
  draft, outcome_of, evaluate, check_coverage, is_unknown_verdict, verdict, empty_builder,
}
use belay_engine.Evaluate.Verdicts.{evaluate_verifier}
use belay_engine.Evaluate.Verdicts.Citations.{IsEvidenced, evaluate_verifier-Grounded}
use belay_engine.Evaluate.Verdicts.Branches.{Grounded}
use belay_engine.Evaluate.States.{evaluate_opportunity, evaluate_task_outcome}
use belay_engine.Evaluate.States.Citations.{
  evaluate_opportunity-IsGrounded, evaluate_task_outcome-IsGrounded,
}
use belay_engine.Evaluate.Applicability.{evaluate_applicability}
use belay_engine.Evaluate.Applicability.Citations.{evaluate_applicability-IsGrounded}
use belay_engine.Evaluate.Finish.{Marshal, max_result_evidence, max_result_gaps, States, required}
use belay_engine.Evaluate.Finish.Anchors.{Cites}
use belay_engine.Evaluate.Finish.Bounds.{finish-keeps}
use belay_engine.Evaluate.Inputs.{validate_input}
use belay_engine.Evaluate.Inputs.Evidenced.{IsFilled, validate_input-IsFilled}
use belay_engine.Evaluate.Matching.{verifier_coverage_evidence}
use belay_engine.Experience.Verifier.{CoverageRequirement}
use belay_engine.Experience.Validate.Records.{Digests}
use belay_engine.Experience.Normalize.{normalized_coverage}

check_coverage-grows :
    (c : Coverage) (rs : List CoverageRequirement) (b : Builder)
    → Subset b.evidence (check_coverage c rs b).2.evidence
unfolding check_coverage
check_coverage-grows c [] b x m = m
check_coverage-grows c (r ∷ rs) b x m = elim (Bool-cases (complete c r)) [
  | inl t ↦ rw t (check_coverage-grows c rs b x m)
  | inr f ↦ rw f (
      check_coverage-grows c rs
        (add_gap (coverage_gap Component.verifier GapCode.coverage_missing r) b) x m)
]

-- The verifier's step, with the coverage cited beside an unknown verdict.
verdict-IsGrounded :
    (i : Input) (missing : Bool) (b : Builder)
    → IsEvidenced i.facts
    → Grounded b (verdict i missing b)
unfolding verdict
verdict-IsGrounded i true b h = record {
  grows = λ x m. In-append_left x b.evidence _ m;
  cited = λ e. cc e;
}
verdict-IsGrounded i false b h =
    let g = evaluate_verifier-Grounded i b h in
    let coverage = verifier_coverage_evidence i.experience.verifier i.coverage in
    elim (Bool-cases (is_unknown_verdict (evaluate_verifier i b).0)) [
      | inl t ↦ rw t record {
        grows = λ x m. In-append_left x (evaluate_verifier i b).1.evidence _ (g.grows x m);
        cited = λ e.
            let (c, m, k) = g.cited e in
            (c, In-append_left c (evaluate_verifier i b).1.evidence _ m, k);
      }
      | inr f ↦ rw f g
    ]

Cites-grows :
    (k : Component) (b c : Builder)
    → Subset b.evidence c.evidence
    → Cites k b.evidence
    → Cites k c.evidence
Cites-grows k b c s (x, m, e) = (x, s x m, e)

-- The builders between the steps of `draft`.
abbrev after_opportunity : Input → Builder
after_opportunity i = (evaluate_opportunity i.facts.opportunities empty_builder).1

abbrev after_applicability : Input → Builder
after_applicability i = (evaluate_applicability i (after_opportunity i)).1

abbrev after_outcome : Input → Builder
after_outcome i = (evaluate_task_outcome i.facts.task_outcomes (after_applicability i)).1

abbrev checked : Input → List CoverageStatus × Bool × Builder
checked i =
    check_coverage i.coverage (normalized_coverage i.experience.verifier.coverage_requirements)
      (after_outcome i)

-- What the last two steps keep.
last_grow :
    (i : Input) → IsFilled i.facts → Subset (after_outcome i).evidence (draft i).builder.evidence
unfolding draft
last_grow i h x m = (verdict-IsGrounded i (checked i).1 (checked i).2 h.verifier_facts).grows x (
    check_coverage-grows i.coverage
      (normalized_coverage i.experience.verifier.coverage_requirements) (after_outcome i) x m)

-- Each decided state of the draft is cited in its builder.
draft-cites :
    (i : Input) (k : Component)
    → IsFilled i.facts
    → required (draft i).states k ≡ true
    → Cites k (draft i).builder.evidence
unfolding draft
draft-cites i Component.opportunity h n =
    let one = evaluate_opportunity-IsGrounded i.facts.opportunities empty_builder h.opportunities in
    let two = evaluate_applicability-IsGrounded i (after_opportunity i) in
    let three =
      evaluate_task_outcome-IsGrounded i.facts.task_outcomes (after_applicability i)
        h.task_outcomes in
    Cites-grows Component.opportunity (after_opportunity i) (draft i).builder
      (λ x m. last_grow i h x (three.grows x (two.grows x m))) (one.cited n)
draft-cites i Component.applicability h n =
    let two = evaluate_applicability-IsGrounded i (after_opportunity i) in
    let three =
      evaluate_task_outcome-IsGrounded i.facts.task_outcomes (after_applicability i)
        h.task_outcomes in
    Cites-grows Component.applicability (after_applicability i) (draft i).builder
      (λ x m. last_grow i h x (three.grows x m)) (two.cited n)
draft-cites i Component.task_outcome h n =
    let three =
      evaluate_task_outcome-IsGrounded i.facts.task_outcomes (after_applicability i)
        h.task_outcomes in
    Cites-grows Component.task_outcome (after_outcome i) (draft i).builder (last_grow i h)
      (three.cited n)
draft-cites i Component.verifier h n =
    (verdict-IsGrounded i (checked i).1 (checked i).2 h.verifier_facts).cited n

-- The states that an outcome reports.
abbrev pub states_of : Outcome → States
states_of o = record {
  opportunity = o.opportunity_state;
  applicability = o.applicability_state;
  verifier = o.verifier_state;
  task_outcome = o.task_outcome_state;
}

-- When the evaluation succeeds, each of its four states that is decided (an opportunity,
-- applicability or task outcome other than `unknown`, a verifier satisfied or violated) has a citation
-- in the result, which holds at most 64 citations and 32 gaps. The encoding of a citation is assumed
-- to tell components apart.
pub evaluate-cites :
    (d : Digests) (m : Marshal) (i : Input) (o : Outcome) (k : Component)
    → ((x y : CitedEvidence) → m.evidence_json x ≡ m.evidence_json y → x.component ≡ y.component)
    → evaluate d m i ≡ ok o
    → required (states_of o) k ≡ true
    → (length o.gaps ≤ max_result_gaps)
      × (length o.evidence ≤ max_result_evidence)
      × Cites k o.evidence
unfolding evaluate outcome_of
evaluate-cites d m i o k encodes h n =
    let (valid, done) =
      >>-eq_ok (wrap "invalid deterministic evaluation input: " (validate_input d i))
        (ok (outcome_of m (draft i))) h in
    let e = ok-injective (outcome_of m (draft i)) o done in
    let filled =
      validate_input-IsFilled d i
        (wrap-eq_ok "invalid deterministic evaluation input: " (validate_input d i) valid) in
    let n' : required (draft i).states k ≡ true =
      subst (λ o'. required (states_of o') k ≡ true) (sym e) n in
    subst
      (λ (o' : Outcome).
        (length o'.gaps ≤ max_result_gaps)
        × (length o'.evidence ≤ max_result_evidence)
        × Cites k o'.evidence)
      e (finish-keeps m (draft i).states (draft i).builder k encodes n' (draft-cites i k filled n'))
