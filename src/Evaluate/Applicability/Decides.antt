-- ===== src/Evaluate/Applicability/Decides.antt =====
-- When `evaluateApplicability` decides that an experience applies.
use belay_engine.Prelude.{
  Text, Bool, true, false, ◌&&◌, ◌||◌, not, List, [], ◌∷◌, ◌==◌, contains, is_empty, all, ◌≡◌, refl,
  ◌∙◌, ◌↔◌, inl, inr, arith, Bool-cases, nat_eq, list_eq,
}
use belay_engine.Evaluate.Types.{Context, ConditionFact, Input, Builder}
use belay_engine.Evaluate.Applicability.{
  applicability_decision, Stage, match_condition, context_evidence, evaluate_applicability,
  then_stage, restrict, no_harness, kind_complete, restrict_paths, check_condition,
  check_conditions, exclusions, has_expired, stages, conclude,
}
use belay_engine.Evaluate.Matching.{overlap, match_any_path}
use belay_engine.Experience.Enums.{harness_eq, DeterministicConditionKind, ApplicabilityState}
use belay_engine.Experience.Model.{Scope, DeterministicCondition, EvidenceRef}

abbrev reaches : Stage → Bool
reaches (Stage.stop b) = false
reaches (Stage.go unknown b) = not unknown

-- From this stage on, the function finds the experience applicable exactly if nothing has been
-- unknown so far and the test holds.
record Leads (f : Bool → Builder → Stage) (test : Bool) : Type 0 where
  law : (u : Bool) (b : Builder) → reaches (f u b) ≡ (not u && test)

-- A scope list names the value of the context, or is empty.
abbrev fits_list : Bool → Bool → Bool → Bool
fits_list unrestricted missing fits = unrestricted || not missing && fits

restrict-reaches :
    (unrestricted missing fits unknown : Bool) (b : Builder) (f : Bool → Builder → Stage)
    (ok_rest : Bool)
    → ((u : Bool) (b' : Builder) → reaches (f u b') ≡ (not u && ok_rest))
    → reaches (then_stage (restrict unrestricted missing fits unknown b) f)
      ≡ (not unknown && (fits_list unrestricted missing fits && ok_rest))
unfolding restrict
restrict-reaches true missing fits unknown b f ok_rest rest = rest unknown b
restrict-reaches false true fits unknown b f ok_rest rest = ground (arith, rest true b)
restrict-reaches false false true unknown b f ok_rest rest = rest unknown b
restrict-reaches false false false unknown b f ok_rest rest = ground arith

abbrev fits_paths : Scope → Context → Bool
fits_paths s c = is_empty s.repository_paths || match_any_path s.repository_paths c.repository_paths

restrict_paths-reaches :
    (s : Scope) (c : Context) (unknown : Bool) (b : Builder) (f : Bool → Builder → Stage)
    (ok_rest : Bool)
    → ((u : Bool) (b' : Builder) → reaches (f u b') ≡ (not u && ok_rest))
    → reaches (then_stage (restrict_paths s c unknown b) f)
      ≡ (not unknown && (fits_paths s c && ok_rest))
unfolding restrict_paths
restrict_paths-reaches s c unknown b f ok_rest rest = elim (Bool-cases (fits_paths s c)) [
  | inl t ↦ rw t (rest unknown b)
  | inr n ↦ elim (Bool-cases (kind_complete c DeterministicConditionKind.path_pattern)) [
    | inl k ↦ rw n (rw k (ground arith))
    | inr k ↦ rw n (rw k (rest true _ ∙ ground arith))
  ]
]

-- The condition matched a fact, and no fact that bears on it is ambiguous.
abbrev condition_met : List ConditionFact → DeterministicCondition → Bool
condition_met facts condition =
    let (matched, ambiguous, _) = match_condition condition facts in matched && not ambiguous

check_conditions-reaches :
    (c : Context) (facts : List ConditionFact) (conditions : List DeterministicCondition)
    (unknown : Bool) (b : Builder) (f : Bool → Builder → Stage) (ok_rest : Bool)
    → ((u : Bool) (b' : Builder) → reaches (f u b') ≡ (not u && ok_rest))
    → reaches (then_stage (check_conditions c facts conditions unknown b) f)
      ≡ (not unknown && (all (condition_met facts) conditions && ok_rest))
unfolding check_conditions check_condition
check_conditions-reaches c facts [] unknown b f ok_rest rest = rest unknown b
check_conditions-reaches c facts (x ∷ xs) unknown b f ok_rest rest =
    let (matched, ambiguous, evidence) = match_condition x facts in
    let next : (u : Bool) (b' : Builder)
        → reaches (then_stage (check_conditions c facts xs u b') f)
          ≡ (not u && (all (condition_met facts) xs && ok_rest)) =
      λ u b'. check_conditions-reaches c facts xs u b' f ok_rest rest in
    elim (Bool-cases ambiguous) [
      | inl a ↦ rw a (next true _ ∙ ground arith)
      | inr a ↦ elim (Bool-cases matched) [
        | inl m ↦ rw a (rw m (next unknown _))
        | inr m ↦ elim (Bool-cases (kind_complete c x.kind)) [
          | inl k ↦ rw a (rw m (rw k (ground arith)))
          | inr k ↦ rw a (rw m (rw k (next true _ ∙ ground arith)))
        ]
      ]
    ]

module _ {f : Bool → Builder → Stage} {test : Bool} (rest : Leads f test) where
  restrict-Leads :
      (unrestricted missing fits : Bool)
      → Leads
          (λ u b. then_stage (restrict unrestricted missing fits u b) f)
          (fits_list unrestricted missing fits && test)
  restrict-Leads unrestricted missing fits = record {
    law = λ u b. restrict-reaches unrestricted missing fits u b f test rest.law;
  }

  restrict_paths-Leads :
      (s : Scope) (c : Context)
      → Leads (λ u b. then_stage (restrict_paths s c u b) f) (fits_paths s c && test)
  restrict_paths-Leads s c = record { law = λ u b. restrict_paths-reaches s c u b f test rest.law }

  check_conditions-Leads :
      (c : Context) (facts : List ConditionFact) (conditions : List DeterministicCondition)
      → Leads
          (λ u b. then_stage (check_conditions c facts conditions u b) f)
          (all (condition_met facts) conditions && test)
  check_conditions-Leads c facts conditions = record {
    law = λ u b. check_conditions-reaches c facts conditions u b f test rest.law;
  }

exclusions-Leads : (xs : List Text) → Leads (exclusions xs) (is_empty xs)
unfolding exclusions
exclusions-Leads [] = record { law = λ u b. ground arith }
exclusions-Leads (x ∷ xs) = record { law = λ u b. ground arith }

abbrev pub fits_harness : Input → Bool
fits_harness i =
    fits_list (is_empty i.experience.scope.harnesses) (i.context.harness == no_harness)
      (contains i.experience.scope.harnesses i.context.harness)

abbrev pub fits_model : Input → Bool
fits_model i =
    fits_list (is_empty i.experience.scope.models) (is_empty i.context.model)
      (contains i.experience.scope.models i.context.model)

abbrev pub fits_task_family : Input → Bool
fits_task_family i =
    fits_list (is_empty i.experience.scope.task_families) (is_empty i.context.task_families)
      (overlap i.experience.scope.task_families i.context.task_families)

-- The scope, the conditions and the exclusions of the experience admit the context.
abbrev pub admitted : Input → Bool
admitted i =
    fits_harness i
    && (fits_model i
        && (fits_task_family i
            && (fits_paths i.experience.scope i.context
                && (all (condition_met i.facts.conditions)
                      i.experience.applicability.deterministic_conditions
                    && is_empty i.experience.applicability.exclusions))))

stages-reaches :
    (i : Input) (b : Builder)
    → reaches (stages i b)
      ≡ (not (has_expired i.experience.applicability.expires_at i.context.as_of) && admitted i)
unfolding stages
stages-reaches i b =
    let scope = i.experience.scope in
    let c = i.context in
    let conditions = i.experience.applicability in
    let last = exclusions-Leads conditions.exclusions in
    let checked =
      check_conditions-Leads last c i.facts.conditions conditions.deterministic_conditions in
    let paths = restrict_paths-Leads checked scope c in
    let families =
      restrict-Leads paths (is_empty scope.task_families) (is_empty c.task_families)
        (overlap scope.task_families c.task_families) in
    let models =
      restrict-Leads families (is_empty scope.models) (is_empty c.model)
        (contains scope.models c.model) in
    let harnesses =
      restrict-Leads models (is_empty scope.harnesses) (c.harness == no_harness)
        (contains scope.harnesses c.harness) in
    elim (Bool-cases (has_expired conditions.expires_at c.as_of)) [
      | inl t ↦ rw t refl
      | inr f ↦ rw f (harnesses.law false b)
    ]

conclude-applicable :
    (es : List EvidenceRef) (s : Stage)
    → ((conclude es s).0 ≡ ApplicabilityState.applicable)
      ↔ ((reaches s && not (is_empty es)) ≡ true)
unfolding conclude applicability_decision
conclude-applicable [] (Stage.stop b) = (λ h. cc h, λ h. cc h)
conclude-applicable (e ∷ es) (Stage.stop b) = (λ h. cc h, λ h. cc h)
conclude-applicable es (Stage.go true b) = (λ h. cc h, λ h. cc h)
conclude-applicable [] (Stage.go false b) = (λ h. cc h, λ h. cc h)
conclude-applicable (e ∷ es) (Stage.go false b) = (λ h. refl, λ h. refl)

-- An experience is found applicable exactly if it has not expired at the time of the context, each
-- scope list is empty or names a value that the context is known to have, each deterministic
-- condition has a matching fact with evidence and no ambiguous one, it has no exclusions, and there
-- is evidence of the context to cite.
pub evaluate_applicability-applicable_iff :
    (i : Input) (b : Builder)
    → ((evaluate_applicability i b).0 ≡ ApplicabilityState.applicable) ↔ (
        ((not (has_expired i.experience.applicability.expires_at i.context.as_of) && admitted i)
          && not (is_empty (context_evidence i)))
        ≡ true)
unfolding evaluate_applicability
evaluate_applicability-applicable_iff i b =
    rw (← stages-reaches i b) (conclude-applicable (context_evidence i) (stages i b))
