-- ===== src/Evaluate/States.antt =====
-- `evaluateOpportunity` and `evaluateTaskOutcome` of internal/experience/evaluate/evaluate.go. The
-- two loops are the same code at two types.
pub mod Agreement
pub mod Citations
use belay_engine.Prelude.{
  Bool, false, List, [], ◌∷◌, contains, if◌then◌else◌, any, flat_map, Eq, map,
}
use belay_engine.Experience.Enums.{
  OpportunityState, OpportunityState-discrete, opportunity_eq, TaskOutcomeState,
  TaskOutcomeState-discrete, task_outcome_eq,
}
use belay_engine.Experience.Model.{EvidenceRef}
use belay_engine.Evaluate.Types.{
  Component, GapCode, gap, FactMeta, OpportunityFact, TaskOutcomeFact, Builder, add_gap,
  add_evidence,
}

-- The keys of the map `states`.
abbrev distinct_states : {S : Type 0} ⦃e : Eq S⦄ → List (FactMeta × S) → List S
distinct_states [] = []
distinct_states ((meta, state) ∷ facts) =
    let rest = distinct_states facts in if contains rest state then rest else state ∷ rest

abbrev any_ambiguous : {S : Type 0} → List (FactMeta × S) → Bool
any_ambiguous facts = any (λ f. f.0.ambiguous) facts

abbrev all_evidence : {S : Type 0} → List (FactMeta × S) → List EvidenceRef
all_evidence facts = flat_map (λ f. f.0.evidence) facts

-- The end of both functions, by the keys: one state and no ambiguity decide.
abbrev settle :
    {S : Type 0} → Component → S → List EvidenceRef → Bool → List S → Builder → S × Builder
settle component unknown evidence false (state ∷ []) b = (state, add_evidence component evidence b)
settle component unknown evidence _ _ b =
    (unknown, add_gap (gap component GapCode.ambiguous_match) b)

unfoldable pub evaluate_states :
    {S : Type 0} ⦃e : Eq S⦄ → Component → GapCode → S → List (FactMeta × S) → Builder → S × Builder
evaluate_states component missing unknown [] b = (unknown, add_gap (gap component missing) b)
evaluate_states component missing unknown (f ∷ facts) b =
    settle component unknown (all_evidence (f ∷ facts)) (any_ambiguous (f ∷ facts))
      (distinct_states (f ∷ facts)) b

-- `evaluateOpportunity`
unfoldable pub evaluate_opportunity : List OpportunityFact → Builder → OpportunityState × Builder
unfolding evaluate_states OpportunityState-discrete
evaluate_opportunity facts b =
    evaluate_states Component.opportunity GapCode.no_opportunity_observation
      OpportunityState.unknown (map (λ (f : OpportunityFact). (f.meta, f.state)) facts) b

-- `evaluateTaskOutcome`
unfoldable pub evaluate_task_outcome : List TaskOutcomeFact → Builder → TaskOutcomeState × Builder
unfolding evaluate_states TaskOutcomeState-discrete
evaluate_task_outcome facts b =
    evaluate_states Component.task_outcome GapCode.no_task_outcome_observation
      TaskOutcomeState.unknown (map (λ (f : TaskOutcomeFact). (f.meta, f.state)) facts) b
