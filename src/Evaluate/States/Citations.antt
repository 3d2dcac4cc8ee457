-- ===== src/Evaluate/States/Citations.antt =====
-- A decided opportunity or task outcome is cited.
use belay_engine.Prelude.{
  Bool, true, false, not, List, [], ◌∷◌, is_empty, Eq, ◌≡◌, refl, ◌∙◌, map, all-map,
}
use belay_engine.Evaluate.Types.{
  Component, GapCode, gap, FactMeta, OpportunityFact, TaskOutcomeFact, Builder,
}
use belay_engine.Evaluate.States.{
  evaluate_states, evaluate_opportunity, evaluate_task_outcome, distinct_states, any_ambiguous,
  all_evidence, settle,
}
use belay_engine.Experience.Enums.{
  OpportunityState, opportunity_eq, TaskOutcomeState, task_outcome_eq,
}
use belay_engine.Experience.Model.{EvidenceRef}
use belay_engine.Evaluate.Finish.{is_unknown_opportunity, is_unknown_outcome}
use belay_engine.Evaluate.Grounded.{
  IsGrounded, IsGrounded-add_gap, IsGrounded-add_evidence, HasEvidence, flat_map-filled,
}

module _ {S : Type 0} ⦃e : Eq S⦄ (component : Component) (decided_state : S → Bool) (unknown : S)
    (open_ : decided_state unknown ≡ false) where
  settle-IsGrounded :
      (es : List EvidenceRef) (ambiguous : Bool) (ds : List S) (b : Builder)
      → is_empty es ≡ false
      → IsGrounded component decided_state b (settle component unknown es ambiguous ds b)
  settle-IsGrounded es true [] b n =
      IsGrounded-add_gap component decided_state unknown (gap component GapCode.ambiguous_match) b
        open_
  settle-IsGrounded es true (d ∷ ds) b n =
      IsGrounded-add_gap component decided_state unknown (gap component GapCode.ambiguous_match) b
        open_
  settle-IsGrounded es false [] b n =
      IsGrounded-add_gap component decided_state unknown (gap component GapCode.ambiguous_match) b
        open_
  settle-IsGrounded es false (d ∷ []) b n = IsGrounded-add_evidence component decided_state d es b n
  settle-IsGrounded es false (d ∷ d' ∷ ds) b n =
      IsGrounded-add_gap component decided_state unknown (gap component GapCode.ambiguous_match) b
        open_

  evaluate_states-IsGrounded :
      (missing : GapCode) (facts : List (FactMeta × S)) (b : Builder)
      → HasEvidence (λ (f : FactMeta × S). f.0) facts
      → IsGrounded component decided_state b (evaluate_states component missing unknown facts b)
  unfolding evaluate_states
  evaluate_states-IsGrounded missing [] b h =
      IsGrounded-add_gap component decided_state unknown (gap component missing) b open_
  evaluate_states-IsGrounded missing (f ∷ facts) b h =
      settle-IsGrounded (all_evidence (f ∷ facts)) (any_ambiguous (f ∷ facts))
        (distinct_states (f ∷ facts)) b (flat_map-filled (λ (g : FactMeta × S). g.0) f facts h)

pub evaluate_opportunity-IsGrounded :
    (facts : List OpportunityFact) (b : Builder)
    → HasEvidence (λ (f : OpportunityFact). f.meta) facts
    → IsGrounded Component.opportunity
        (λ s. not (is_unknown_opportunity s))
        b
        (evaluate_opportunity facts b)
unfolding evaluate_opportunity
evaluate_opportunity-IsGrounded facts b h =
    let pair : OpportunityFact → FactMeta × OpportunityState = λ f. (f.meta, f.state) in
    evaluate_states-IsGrounded Component.opportunity (λ s. not (is_unknown_opportunity s))
      OpportunityState.unknown refl GapCode.no_opportunity_observation (map pair facts) b
      (all-map (λ (g : FactMeta × OpportunityState). not (is_empty g.0.evidence)) pair facts ∙ h)

pub evaluate_task_outcome-IsGrounded :
    (facts : List TaskOutcomeFact) (b : Builder)
    → HasEvidence (λ (f : TaskOutcomeFact). f.meta) facts
    → IsGrounded Component.task_outcome
        (λ s. not (is_unknown_outcome s))
        b
        (evaluate_task_outcome facts b)
unfolding evaluate_task_outcome
evaluate_task_outcome-IsGrounded facts b h =
    let pair : TaskOutcomeFact → FactMeta × TaskOutcomeState = λ f. (f.meta, f.state) in
    evaluate_states-IsGrounded Component.task_outcome (λ s. not (is_unknown_outcome s))
      TaskOutcomeState.unknown refl GapCode.no_task_outcome_observation (map pair facts) b
      (all-map (λ (g : FactMeta × TaskOutcomeState). not (is_empty g.0.evidence)) pair facts ∙ h)
