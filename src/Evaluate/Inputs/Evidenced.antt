-- ===== src/Evaluate/Inputs/Evidenced.antt =====
-- The facts of a validated input have evidence.
use belay_engine.Prelude.{
  Bool, true, ◌||◌, not, List, [], ◌∷◌, ltb, pos, ltb_ℤ, is_empty, Check, ok, fail_if, each, all,
  ◌≡◌, refl, arith, >>-eq_ok,
}
use belay_engine.Evaluate.Types.{
  Context, FactMeta, OpportunityFact, CommandFact, VerificationFact, FailureFact, TaskOutcomeFact,
  Facts, Input,
}
use belay_engine.Evaluate.FactChecks.{
  validate_fact_meta, max_facts, validate_evidence, beyond, condition_fact, command_fact,
  opportunity_fact, file_change_fact, verification_fact, failure_fact, correction_fact,
  task_outcome_fact,
}
use belay_engine.Evaluate.Inputs.{validate_facts, validate_binding, validate_input, total}
use belay_engine.Evaluate.Grounded.{HasEvidence}
use belay_engine.Evaluate.Verdicts.Citations.{IsEvidenced}
use belay_engine.Experience.Enums.{opportunity_valid, task_outcome_valid}
use belay_engine.Experience.Model.{EvidenceRef}
use belay_engine.Experience.Validate.Records.{Digests}

-- A list that passes a check passes it at each element.
each-all :
    {A : Type 0} (f : A → Check) (p : A → Bool) (xs : List A)
    → ((x : A) → f x ≡ ok tt → p x ≡ true)
    → each f xs ≡ ok tt
    → all p xs ≡ true
each-all f p [] h e = refl
each-all f p (x ∷ xs) h e =
    let (one, rest) = >>-eq_ok (f x) (each f xs) e in
    ground (arith, h x one, each-all f p xs h rest)

validate_evidence-filled :
    (c : Context) (refs : List EvidenceRef)
    → validate_evidence c refs true ≡ ok tt
    → not (is_empty refs) ≡ true
unfolding validate_evidence
validate_evidence-filled c [] h = cc h
validate_evidence-filled c (r ∷ rs) h = refl

-- The validation of a fact asks for evidence.
validate_fact_meta-filled :
    (c : Context) (meta : FactMeta)
    → validate_fact_meta c meta ≡ ok tt
    → not (is_empty meta.evidence) ≡ true
unfolding validate_fact_meta
validate_fact_meta-filled c meta h =
    let (_, rest) =
      >>-eq_ok
        (fail_if (ltb_ℤ meta.order (pos 0) || beyond c.last_turn_index meta.order)
          "fact order is outside the bounded session")
        (validate_evidence c meta.evidence true) h in
    validate_evidence-filled c meta.evidence rest

opportunity_fact-filled :
    (c : Context) (f : OpportunityFact)
    → opportunity_fact c f ≡ ok tt
    → not (is_empty f.meta.evidence) ≡ true
unfolding opportunity_fact
opportunity_fact-filled c f h =
    validate_fact_meta-filled c f.meta
      (>>-eq_ok (fail_if (not (opportunity_valid f.state)) "opportunity fact state is invalid") _
        h).1

command_fact-filled :
    (c : Context) (f : CommandFact)
    → command_fact c f ≡ ok tt
    → not (is_empty f.meta.evidence) ≡ true
unfolding command_fact
command_fact-filled c f h =
    validate_fact_meta-filled c f.meta (>>-eq_ok (validate_fact_meta c f.meta) _ h).0

verification_fact-filled :
    (c : Context) (f : VerificationFact)
    → verification_fact c f ≡ ok tt
    → not (is_empty f.meta.evidence) ≡ true
unfolding verification_fact
verification_fact-filled c f h =
    validate_fact_meta-filled c f.meta (>>-eq_ok (validate_fact_meta c f.meta) _ h).0

failure_fact-filled :
    (c : Context) (f : FailureFact)
    → failure_fact c f ≡ ok tt
    → not (is_empty f.meta.evidence) ≡ true
unfolding failure_fact
failure_fact-filled c f h =
    validate_fact_meta-filled c f.meta (>>-eq_ok (validate_fact_meta c f.meta) _ h).0

task_outcome_fact-filled :
    (c : Context) (f : TaskOutcomeFact)
    → task_outcome_fact c f ≡ ok tt
    → not (is_empty f.meta.evidence) ≡ true
unfolding task_outcome_fact
task_outcome_fact-filled c f h =
    validate_fact_meta-filled c f.meta
      (>>-eq_ok (fail_if (not (task_outcome_valid f.state)) "task outcome fact state is invalid") _
        h).1

-- The facts that can decide a state have evidence.
pub record IsFilled (facts : Facts) : Type 0 where
  pub opportunities : HasEvidence (λ (f : OpportunityFact). f.meta) facts.opportunities
  pub verifier_facts : IsEvidenced facts
  pub task_outcomes : HasEvidence (λ (f : TaskOutcomeFact). f.meta) facts.task_outcomes

pub validate_facts-IsFilled : (c : Context) (f : Facts) → validate_facts c f ≡ ok tt → IsFilled f
unfolding validate_facts
validate_facts-IsFilled c f h0 =
    let (_, h1) = >>-eq_ok (fail_if (ltb max_facts (total f)) "fact count exceeds bound") _ h0 in
    let (opportunities, h2) = >>-eq_ok (each (opportunity_fact c) f.opportunities) _ h1 in
    let (_, h3) = >>-eq_ok (each (condition_fact c) f.conditions) _ h2 in
    let (commands, h4) = >>-eq_ok (each (command_fact c) f.commands) _ h3 in
    let (_, h5) = >>-eq_ok (each (file_change_fact c) f.file_changes) _ h4 in
    let (verifications, h6) = >>-eq_ok (each (verification_fact c) f.verifications) _ h5 in
    let (failures, h7) = >>-eq_ok (each (failure_fact c) f.failures) _ h6 in
    let (_, outcomes) = >>-eq_ok (each (correction_fact c) f.corrections) _ h7 in
    record {
      opportunities =
          each-all (opportunity_fact c) _ f.opportunities (opportunity_fact-filled c) opportunities;
      verifier_facts = record {
        commands = each-all (command_fact c) _ f.commands (command_fact-filled c) commands;
        verifications =
            each-all (verification_fact c) _ f.verifications (verification_fact-filled c)
              verifications;
        failures = each-all (failure_fact c) _ f.failures (failure_fact-filled c) failures;
      };
      task_outcomes =
          each-all (task_outcome_fact c) _ f.task_outcomes (task_outcome_fact-filled c) outcomes;
    }

pub validate_input-IsFilled :
    (d : Digests) (i : Input) → validate_input d i ≡ ok tt → IsFilled i.facts
unfolding validate_input
validate_input-IsFilled d i h =
    validate_facts-IsFilled i.context i.facts
      (>>-eq_ok (validate_binding d i) (validate_facts i.context i.facts) h).1
