-- ===== src/Evaluate/Evaluator/Requirements.antt =====
-- A verdict stands only on complete coverage.
use mathlib.Core.Path.{subst}
use belay_engine.Prelude.{
  Bool, true, false, not, List, [], ◌∷◌, if◌then◌else◌, ok, wrap, all, ◌≡◌, refl, sym, ap, ◌∙◌, inl,
  inr, arith, In, map, >>-eq_ok, ok-injective,
}
use belay_engine.Evaluate.Types.{
  Component, GapCode, coverage_gap, Coverage, complete, CoverageStatus, Input, Builder, add_gap,
  Outcome,
}
use belay_engine.Evaluate.Evaluator.{draft, outcome_of, evaluate, check_coverage, verdict}
use belay_engine.Evaluate.Finish.{Marshal}
use belay_engine.Evaluate.Inputs.{validate_input}
use belay_engine.Experience.Verifier.{CoverageRequirement}
use belay_engine.Experience.Enums.{VerifierState}
use belay_engine.Experience.Validate.Records.{Digests}
use belay_engine.Experience.Normalize.{normalized_coverage, normalized_coverage-In}

-- The loop over the requirements reports each with its completeness, and whether one is missing.
check_coverage-statuses :
    (c : Coverage) (rs : List CoverageRequirement) (b : Builder)
    → let (statuses, missing, _) = check_coverage c rs b in
      (statuses ≡ map (λ r. record { requirement = r; complete = complete c r }) rs)
      × (missing ≡ not (all (complete c) rs))
unfolding check_coverage
check_coverage-statuses c [] b = (refl, refl)
check_coverage-statuses c (r ∷ rs) b =
    let b' =
      if complete c r
      then b
      else add_gap (coverage_gap Component.verifier GapCode.coverage_missing r) b in
    let (statuses, missing) = check_coverage-statuses c rs b' in
    (
      ap (λ ss. record { requirement = r; complete = complete c r } ∷ ss) statuses,
      rw missing (ground arith),
    )

all_incomplete :
    (c : Coverage) (rs : List CoverageRequirement) (r : CoverageRequirement)
    → In r rs
    → complete c r ≡ false
    → all (complete c) rs ≡ false
all_incomplete c [] r m f = absurd m
all_incomplete c (x ∷ rs) r (inl e) f = rw (← e) (rw f refl)
all_incomplete c (x ∷ rs) r (inr m) f = ground (arith, all_incomplete c rs r m f)

In-map : {A B : Type 0} (f : A → B) (xs : List A) (a : A) → In a xs → In (f a) (map f xs)
In-map f [] a m = absurd m
In-map f (x ∷ xs) a (inl e) = inl (ap f e)
In-map f (x ∷ xs) a (inr m) = inr (In-map f xs a m)

verdict-missing :
    (i : Input) (missing : Bool) (b : Builder)
    → missing ≡ true
    → (verdict i missing b).0 ≡ VerifierState.unknown
unfolding verdict
verdict-missing i missing b e = rw e refl

-- The status that the result reports of a requirement.
abbrev pub status : Input → CoverageRequirement → CoverageStatus
status i r = record { requirement = r; complete = complete i.coverage r }

draft-incomplete :
    (i : Input) (r : CoverageRequirement)
    → In r i.experience.verifier.coverage_requirements
    → complete i.coverage r ≡ false
    → ((draft i).states.verifier ≡ VerifierState.unknown) × In (status i r) (draft i).coverage
unfolding draft
draft-incomplete i r m f =
    let required_ = normalized_coverage i.experience.verifier.coverage_requirements in
    let listed = (normalized_coverage-In i.experience.verifier.coverage_requirements r).1 m in
    let (statuses, missing) = check_coverage-statuses i.coverage required_ _ in
    (
      verdict-missing i _ _ (missing ∙ ap not (all_incomplete i.coverage required_ r listed f)),
      subst (In (status i r)) (sym statuses) (In-map (status i) required_ r listed),
    )

-- When the evaluation succeeds and a coverage requirement of the verifier is not complete, the
-- verifier's state in the result is `unknown`, and the result lists the requirement as incomplete.
pub evaluate-incomplete :
    (d : Digests) (m : Marshal) (i : Input) (o : Outcome) (r : CoverageRequirement)
    → evaluate d m i ≡ ok o
    → In r i.experience.verifier.coverage_requirements
    → complete i.coverage r ≡ false
    → (o.verifier_state ≡ VerifierState.unknown)
      × In (record { requirement = r; complete = false }) o.coverage
unfolding evaluate outcome_of
evaluate-incomplete d m i o r h listed f =
    let (_, done) =
      >>-eq_ok (wrap "invalid deterministic evaluation input: " (validate_input d i)) _ h in
    let e = ok-injective _ o done in
    let (state, reported) = draft-incomplete i r listed f in
    (
      subst (λ (o : Outcome). o.verifier_state ≡ VerifierState.unknown) e state,
      subst (λ (o : Outcome). In (record { requirement = r; complete = false }) o.coverage) e
          (subst (λ c. In (record { requirement = r; complete = c }) (draft i).coverage) f
            reported),
    )
