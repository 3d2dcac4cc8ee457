-- ===== src/Evaluate/Commands.antt =====
-- `evaluateCommand` of internal/experience/evaluate/evaluate.go, and the branches that it shares with the other evaluators.
use belay_engine.Prelude.{
  Bool, true, false, ◌&&◌, ◌||◌, not, List, [], ◌∷◌, ◌++◌, ◌==◌, ◌!=◌, is_empty, if◌then◌else◌, any,
  filterb, flat_map, map, nat_eq, list_eq, int_eq,
}
use belay_engine.Experience.Enums.{VerifierState}
use belay_engine.Experience.Verifier.{CoverageRequirement, CommandVerifierSpec}
use belay_engine.Experience.Model.{EvidenceRef}
use belay_engine.Evaluate.Types.{
  Component, GapCode, gap, coverage_gap, FactResult, FactResult-discrete, fact_result_eq,
  CommandFact, VerificationFact, Input, Builder, add_gap, add_evidence,
}
use belay_engine.Evaluate.Matching.{declared_coverage, coverage_evidence}

abbrev pub Verdict : Type 0
Verdict = VerifierState × Builder

-- `builder.addGap(Gap{ComponentVerifier, code}); return VerifierUnknown`
abbrev pub undecided : GapCode → Builder → Verdict
undecided code b = (VerifierState.unknown, add_gap (gap Component.verifier code) b)

abbrev pub undeclared : CoverageRequirement → Builder → Verdict
undeclared requirement b = (
  VerifierState.unknown,
  add_gap (coverage_gap Component.verifier GapCode.coverage_not_declared requirement) b,
)

-- `builder.addEvidence(ComponentVerifier, evidence...); return state`
abbrev pub decided : VerifierState → List EvidenceRef → Builder → Verdict
decided state evidence b = (state, add_evidence Component.verifier evidence b)

abbrev pub no_spec : Builder → Verdict
no_spec b = (VerifierState.unknown, b)

-- Nothing was observed: the state follows if there is evidence of the coverage; `front` is cited
-- before it.
unfoldable pub by_absence : VerifierState → List EvidenceRef → List EvidenceRef → Builder → Verdict
by_absence state front [] b = undecided GapCode.facts_incomplete b
by_absence state front (e ∷ es) b = decided state (front ++ e ∷ es) b

-- The branch that every transcript verifier takes when nothing matched.
unfoldable pub by_transcript : Input → VerifierState → List EvidenceRef → Builder → Verdict
unfolding declared_coverage by_absence coverage_evidence
by_transcript input state front b =
    if declared_coverage input.experience.verifier CoverageRequirement.transcript_complete
    then by_absence state front
        (coverage_evidence input.coverage CoverageRequirement.transcript_complete) b
    else undeclared CoverageRequirement.transcript_complete b

abbrev pub succeeded : FactResult → Bool
succeeded FactResult.succeeded = true
succeeded _ = false

abbrev pub failed : FactResult → Bool
failed FactResult.failed = true
failed _ = false

-- The loop over the results when success is required.
unfoldable pub by_results : List FactResult → List EvidenceRef → Builder → Verdict
by_results results evidence b =
    if any succeeded results
    then decided VerifierState.satisfied evidence b
    else if any (λ r. not (failed r)) results
    then undecided GapCode.facts_incomplete b
    else if any failed results
    then decided VerifierState.violated evidence b
    else no_spec b

-- The two loops of `…FactsConflict`: a later element that clashes with an earlier one.
abbrev conflict : {A : Type 0} → (A → A → Bool) → List A → Bool
conflict clashes [] = false
conflict clashes (x ∷ xs) = any (clashes x) xs || conflict clashes xs

-- `commandFactsConflict`
unfoldable pub command_facts_conflict : List CommandFact → Bool
unfolding FactResult-discrete
command_facts_conflict facts =
    conflict (λ (f g : CommandFact). f.meta.order == g.meta.order && f.result != g.result) facts

-- `verificationFactsConflict`
unfoldable pub verification_facts_conflict : List VerificationFact → Bool
unfolding FactResult-discrete
verification_facts_conflict facts =
    conflict
      (λ (f g : VerificationFact).
        f.meta.order == g.meta.order && f.command_class == g.command_class && f.result != g.result)
      facts

abbrev pub other_class : CommandVerifierSpec → CommandFact → Bool
other_class spec f = spec.command_class != [] && f.class != spec.command_class

-- The matches, once they are known to be unambiguous.
unfoldable pub judge_commands : Input → Bool → List CommandFact → Builder → Verdict
unfolding by_transcript by_results
judge_commands input require_success [] b = by_transcript input VerifierState.violated [] b
judge_commands input require_success (f ∷ fs) b =
    let evidence = flat_map (λ (g : CommandFact). g.meta.evidence) (f ∷ fs) in
    if require_success
    then by_results (map (λ (g : CommandFact). g.result) (f ∷ fs)) evidence b
    else decided VerifierState.satisfied evidence b

-- `evaluateCommand`
unfoldable pub evaluate_command : Input → CommandVerifierSpec → Bool → Builder → Verdict
unfolding judge_commands command_facts_conflict
evaluate_command input spec require_success b =
    let normalized = input.normalized_verifier in
    let same = filterb (λ f. f.signature == normalized.command_signature) input.facts.commands in
    let dubious = any (λ f. other_class spec f || f.meta.ambiguous) same in
    let matches = filterb (λ f. not (other_class spec f || f.meta.ambiguous)) same in
    if is_empty normalized.command_signature
      || normalized.command_scrubbing_version != spec.scrubbing_version
    then undecided GapCode.unsupported_match b
    else if dubious || command_facts_conflict matches
    then undecided GapCode.ambiguous_match b
    else judge_commands input require_success matches b
