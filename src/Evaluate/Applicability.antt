-- ===== src/Evaluate/Applicability.antt =====
-- `evaluateApplicability` of internal/experience/evaluate/evaluate.go.
pub mod Decides
pub mod Citations
use belay_engine.Prelude.{
  Text, Bool, true, false, ◌&&◌, ◌||◌, not, List, [], ◌∷◌, Option, some, none, ◌==◌, contains,
  is_empty, if◌then◌else◌, any, filterb, flat_map, nat_eq, list_eq,
}
use belay_engine.Experience.Enums.{
  Harness, Harness-discrete, harness_eq, DeterministicConditionKind,
  DeterministicConditionKind-discrete, condition_kind_eq, ApplicabilityState,
}
use belay_engine.Experience.Model.{Time, before, Scope, DeterministicCondition, EvidenceRef}
use belay_engine.Evaluate.Types.{
  Component, GapCode, gap, condition_gap, Context, ConditionFact, Input, Builder, add_gap,
  add_evidence,
}
use belay_engine.Evaluate.Matching.{overlap, match_any_path}

-- `applicabilityDecision`
unfoldable pub applicability_decision :
    ApplicabilityState → List EvidenceRef → Builder → ApplicabilityState × Builder
applicability_decision state [] b =
    (ApplicabilityState.unknown, add_gap (gap Component.applicability GapCode.facts_incomplete) b)
applicability_decision state (e ∷ es) b = (state, add_evidence Component.applicability (e ∷ es) b)

-- Where the function stands: it has returned `not applicable`, or goes on with the flag `unknown`.
pub data Stage : Type 0 where
  stop : Builder → Stage
  go : Bool → Builder → Stage

abbrev then_stage : Stage → (Bool → Builder → Stage) → Stage
then_stage (Stage.stop b) f = Stage.stop b
then_stage (Stage.go unknown b) f = f unknown b

-- One scope list: unrestricted, not known of the context, or decided by a test.
restrict : Bool → Bool → Bool → Bool → Builder → Stage
restrict unrestricted missing fits unknown b =
    if unrestricted
    then Stage.go unknown b
    else if missing
    then Stage.go true b
    else if fits
    then Stage.go unknown b
    else Stage.stop b

abbrev no_harness : Harness
no_harness = Harness.other []

-- `conditionKindComplete`
abbrev kind_complete : Context → DeterministicConditionKind → Bool
kind_complete c kind = contains c.complete_condition_kinds kind

restrict_paths : Scope → Context → Bool → Builder → Stage
unfolding match_any_path DeterministicConditionKind-discrete
restrict_paths s c unknown b =
    if is_empty s.repository_paths || match_any_path s.repository_paths c.repository_paths
    then Stage.go unknown b
    else if kind_complete c DeterministicConditionKind.path_pattern
    then Stage.stop b
    else Stage.go true (
        add_gap
          (condition_gap Component.applicability GapCode.facts_incomplete
            DeterministicConditionKind.path_pattern)
          b)

-- `conditionValuesMatch`
condition_values_match : DeterministicConditionKind → List Text → List Text → Bool
unfolding match_any_path overlap
condition_values_match DeterministicConditionKind.path_pattern values facts =
    match_any_path values facts
condition_values_match DeterministicConditionKind.prior_event_sequence values facts =
    values == facts
condition_values_match _ values facts = overlap values facts

abbrev relevant : DeterministicCondition → ConditionFact → Bool
relevant condition fact =
    fact.kind == condition.kind
    && condition_values_match condition.kind condition.values fact.values

-- `matchCondition`: whether a fact with evidence matched, whether one was ambiguous, the evidence.
unfoldable pub match_condition :
    DeterministicCondition → List ConditionFact → Bool × Bool × List EvidenceRef
unfolding condition_values_match DeterministicConditionKind-discrete
match_condition condition facts =
    let found = filterb (relevant condition) facts in
    let clear = filterb (λ f. not f.meta.ambiguous) found in
    let evidence = flat_map (λ (f : ConditionFact). f.meta.evidence) clear in
    (not (is_empty evidence), any (λ f. f.meta.ambiguous) found, evidence)

-- One round of the loop over the deterministic conditions.
check_condition : Context → List ConditionFact → DeterministicCondition → Bool → Builder → Stage
unfolding match_condition DeterministicConditionKind-discrete
check_condition c facts condition unknown b =
    let (matched, ambiguous, evidence) = match_condition condition facts in
    if ambiguous
    then Stage.go true
        (add_gap (condition_gap Component.applicability GapCode.ambiguous_match condition.kind) b)
    else if matched
    then Stage.go unknown (add_evidence Component.applicability evidence b)
    else if kind_complete c condition.kind
    then Stage.stop b
    else Stage.go true
        (add_gap (condition_gap Component.applicability GapCode.facts_incomplete condition.kind) b)

check_conditions :
    Context → List ConditionFact → List DeterministicCondition → Bool → Builder → Stage
unfolding check_condition
check_conditions c facts [] unknown b = Stage.go unknown b
check_conditions c facts (condition ∷ rest) unknown b =
    then_stage (check_condition c facts condition unknown b) (check_conditions c facts rest)

exclusions : List Text → Bool → Builder → Stage
exclusions [] unknown b = Stage.go unknown b
exclusions (x ∷ xs) unknown b =
    Stage.go true (add_gap (gap Component.applicability GapCode.semantic_exclusion) b)

abbrev has_expired : Option Time → Time → Bool
has_expired none as_of = false
has_expired (some expires) as_of = not (before as_of expires)

-- The stages in the order of the source.
stages : Input → Builder → Stage
unfolding restrict restrict_paths check_conditions exclusions overlap Harness-discrete
stages input b =
    let scope = input.experience.scope in
    let c = input.context in
    let conditions = input.experience.applicability in
    if has_expired conditions.expires_at c.as_of
    then Stage.stop b
    else then_stage
        (restrict (is_empty scope.harnesses) (c.harness == no_harness)
          (contains scope.harnesses c.harness) false b)
        λ u1 b1.
          then_stage
            (restrict (is_empty scope.models) (is_empty c.model) (contains scope.models c.model) u1
              b1)
            λ u2 b2.
              then_stage
                (restrict (is_empty scope.task_families) (is_empty c.task_families)
                  (overlap scope.task_families c.task_families) u2 b2)
                λ u3 b3. then_stage (restrict_paths scope c u3 b3) λ u4 b4.
                  then_stage
                    (check_conditions c input.facts.conditions conditions.deterministic_conditions
                      u4 b4)
                    λ u5 b5. exclusions conditions.exclusions u5 b5

-- `contextEvidence`
abbrev pub context_evidence : Input → List EvidenceRef
context_evidence input =
    if is_empty input.context.evidence
    then input.application.source_evidence
    else input.context.evidence

conclude : List EvidenceRef → Stage → ApplicabilityState × Builder
unfolding applicability_decision
conclude evidence (Stage.stop b) =
    applicability_decision ApplicabilityState.not_applicable evidence b
conclude evidence (Stage.go true b) = (
  ApplicabilityState.unknown,
  add_gap (gap Component.applicability GapCode.no_applicable_observation) b,
)
conclude evidence (Stage.go false b) =
    applicability_decision ApplicabilityState.applicable evidence b

-- `evaluateApplicability`
unfoldable pub evaluate_applicability : Input → Builder → ApplicabilityState × Builder
unfolding stages conclude
evaluate_applicability input b = conclude (context_evidence input) (stages input b)
