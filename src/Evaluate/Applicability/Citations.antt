-- ===== src/Evaluate/Applicability/Citations.antt =====
-- An applicability that is decided is cited, and no citation is lost.
use belay_engine.Prelude.{
  Text, Bool, true, false, ◌||◌, not, List, [], ◌∷◌, ◌==◌, contains, is_empty, refl, inl, inr,
  Subset, Bool-cases, In-append_left, nat_eq, list_eq,
}
use belay_engine.Evaluate.Types.{Component, GapCode, gap, Context, ConditionFact, Input, Builder}
use belay_engine.Evaluate.Applicability.{
  applicability_decision, Stage, match_condition, context_evidence, evaluate_applicability,
  then_stage, restrict, no_harness, kind_complete, restrict_paths, check_condition,
  check_conditions, exclusions, has_expired, stages, conclude,
}
use belay_engine.Evaluate.Matching.{overlap, match_any_path}
use belay_engine.Experience.Enums.{harness_eq, DeterministicConditionKind, ApplicabilityState}
use belay_engine.Experience.Model.{Scope, DeterministicCondition, EvidenceRef}
use belay_engine.Evaluate.Finish.{is_unknown_applicability}
use belay_engine.Evaluate.Grounded.{
  IsGrounded, IsGrounded-add_gap, IsGrounded-add_evidence, IsGrounded-after,
}

abbrev decided_applicability : ApplicabilityState → Bool
decided_applicability s = not (is_unknown_applicability s)

abbrev builder_of : Stage → Builder
builder_of (Stage.stop b) = b
builder_of (Stage.go unknown b) = b

-- A stage keeps the citations.
abbrev Keeps : Builder → Stage → Type 0
Keeps b s = Subset b.evidence (builder_of s).evidence

Keeps-then :
    (b : Builder) (s : Stage) (f : Bool → Builder → Stage)
    → Keeps b s
    → ((u : Bool) (c : Builder) → Keeps c (f u c))
    → Keeps b (then_stage s f)
Keeps-then b (Stage.stop c) f k h = k
Keeps-then b (Stage.go u c) f k h = λ x m. h u c x (k x m)

restrict-Keeps :
    (unrestricted missing fits unknown : Bool) (b : Builder)
    → Keeps b (restrict unrestricted missing fits unknown b)
unfolding restrict
restrict-Keeps true missing fits unknown b = λ x m. m
restrict-Keeps false true fits unknown b = λ x m. m
restrict-Keeps false false true unknown b = λ x m. m
restrict-Keeps false false false unknown b = λ x m. m

restrict_paths-Keeps :
    (s : Scope) (c : Context) (unknown : Bool) (b : Builder)
    → Keeps b (restrict_paths s c unknown b)
unfolding restrict_paths
restrict_paths-Keeps s c unknown b =
    elim (Bool-cases
      (is_empty s.repository_paths || match_any_path s.repository_paths c.repository_paths)) [
        | inl t ↦ rw t (λ x m. m)
        | inr f ↦ elim (Bool-cases (kind_complete c DeterministicConditionKind.path_pattern)) [
          | inl t ↦ rw f (rw t (λ x m. m))
          | inr g ↦ rw f (rw g (λ x m. m))
        ]
      ]

check_condition-Keeps :
    (c : Context) (facts : List ConditionFact) (condition : DeterministicCondition) (unknown : Bool)
    (b : Builder)
    → Keeps b (check_condition c facts condition unknown b)
unfolding check_condition
check_condition-Keeps c facts condition unknown b =
    let (matched, ambiguous, evidence) = match_condition condition facts in
    elim (Bool-cases ambiguous) [
      | inl t ↦ rw t (λ x m. m)
      | inr f ↦ elim (Bool-cases matched) [
        | inl t ↦ rw f (rw t (λ x m. In-append_left x b.evidence _ m))
        | inr g ↦ elim (Bool-cases (kind_complete c condition.kind)) [
          | inl t ↦ rw f (rw g (rw t (λ x m. m)))
          | inr h ↦ rw f (rw g (rw h (λ x m. m)))
        ]
      ]
    ]

check_conditions-Keeps :
    (c : Context) (facts : List ConditionFact) (conditions : List DeterministicCondition)
    (unknown : Bool) (b : Builder)
    → Keeps b (check_conditions c facts conditions unknown b)
unfolding check_conditions
check_conditions-Keeps c facts [] unknown b = λ x m. m
check_conditions-Keeps c facts (condition ∷ rest) unknown b =
    Keeps-then b (check_condition c facts condition unknown b) (check_conditions c facts rest)
      (check_condition-Keeps c facts condition unknown b) (check_conditions-Keeps c facts rest)

exclusions-Keeps :
    (xs : List Text) (unknown : Bool) (b : Builder) → Keeps b (exclusions xs unknown b)
unfolding exclusions
exclusions-Keeps [] unknown b = λ x m. m
exclusions-Keeps (y ∷ ys) unknown b = λ x m. m

-- A stage that keeps the citations from every builder, whatever was unknown before.
record IsKeeping (f : Bool → Builder → Stage) : Type 0 where
  law : (u : Bool) (b : Builder) → Keeps b (f u b)

IsKeeping-then :
    (s f : Bool → Builder → Stage)
    → IsKeeping s
    → IsKeeping f
    → IsKeeping (λ u b. then_stage (s u b) f)
IsKeeping-then s f k h = record { law = λ u b. Keeps-then b (s u b) f (k.law u b) h.law }

restrict-IsKeeping :
    (unrestricted missing fits : Bool) → IsKeeping (restrict unrestricted missing fits)
restrict-IsKeeping unrestricted missing fits = record {
  law = restrict-Keeps unrestricted missing fits;
}

stages-Keeps : (i : Input) (b : Builder) → Keeps b (stages i b)
unfolding stages
stages-Keeps i b =
    let s = i.experience.scope in
    let c = i.context in
    let a = i.experience.applicability in
    let last : IsKeeping (exclusions a.exclusions) = record {
      law = exclusions-Keeps a.exclusions;
    } in
    let checked : IsKeeping (check_conditions c i.facts.conditions a.deterministic_conditions) =
      record { law = check_conditions-Keeps c i.facts.conditions a.deterministic_conditions } in
    let paths : IsKeeping (restrict_paths s c) = record { law = restrict_paths-Keeps s c } in
    let families =
      restrict-IsKeeping (is_empty s.task_families) (is_empty c.task_families)
        (overlap s.task_families c.task_families) in
    let models =
      restrict-IsKeeping (is_empty s.models) (is_empty c.model) (contains s.models c.model) in
    let harnesses =
      restrict-IsKeeping (is_empty s.harnesses) (c.harness == no_harness)
        (contains s.harnesses c.harness) in
    let all_stages = IsKeeping-then _ _ harnesses (
      IsKeeping-then _ _ models (
        IsKeeping-then _ _ families
          (IsKeeping-then _ _ paths (IsKeeping-then _ _ checked last)))) in
    elim (Bool-cases (has_expired a.expires_at c.as_of)) [
      | inl t ↦ rw t (λ x m. m)
      | inr f ↦ rw f (all_stages.law false b)
    ]

applicability_decision-Grounded :
    (s : ApplicabilityState) (es : List EvidenceRef) (b : Builder)
    → IsGrounded Component.applicability decided_applicability b (applicability_decision s es b)
unfolding applicability_decision
applicability_decision-Grounded s [] b =
    IsGrounded-add_gap Component.applicability decided_applicability ApplicabilityState.unknown
      (gap Component.applicability GapCode.facts_incomplete) b refl
applicability_decision-Grounded s (e ∷ es) b =
    IsGrounded-add_evidence Component.applicability decided_applicability s (e ∷ es) b refl

conclude-Grounded :
    (es : List EvidenceRef) (s : Stage)
    → IsGrounded Component.applicability decided_applicability (builder_of s) (conclude es s)
unfolding conclude
conclude-Grounded es (Stage.stop b) =
    applicability_decision-Grounded ApplicabilityState.not_applicable es b
conclude-Grounded es (Stage.go true b) =
    IsGrounded-add_gap Component.applicability decided_applicability ApplicabilityState.unknown
      (gap Component.applicability GapCode.no_applicable_observation) b refl
conclude-Grounded es (Stage.go false b) =
    applicability_decision-Grounded ApplicabilityState.applicable es b

pub evaluate_applicability-IsGrounded :
    (i : Input) (b : Builder)
    → IsGrounded Component.applicability
        (λ s. not (is_unknown_applicability s))
        b
        (evaluate_applicability i b)
unfolding evaluate_applicability
evaluate_applicability-IsGrounded i b =
    IsGrounded-after Component.applicability decided_applicability b (builder_of (stages i b)) _
      (stages-Keeps i b) (conclude-Grounded (context_evidence i) (stages i b))
