-- ===== src/Evaluate/Verdicts/Failures.antt =====
-- Repeated failures: the loop over the sorted turns against the pairs of failures.
use belay_engine.Prelude.{
  Bool, true, false, ◌&&◌, ◌||◌, not, List, [], ◌∷◌, ℤ, ltb_ℤ, ◌-ℤ◌, any, filterb, flat_map, sort,
  ◌≡◌, refl, ◌∙◌, ◌↔◌, inl, inr, arith, Bool-cases, map, sort-IsSorted, IsSorted, IsOrder, Below,
  -ℤ_parts, insert_sorted, sort_onto,
}
use belay_engine.Experience.Verifier.{CoverageRequirement, NoRepeatFailureSpec}
use belay_engine.Evaluate.Types.{Component, complete, FailureFact, Input, Builder, add_evidence}
use belay_engine.Evaluate.Commands.{by_absence}
use belay_engine.Evaluate.Verdicts.{
  evaluate_no_repeat_failure, same_failure, repeats_within, order_ltb, no_repeat_by_absence,
  missing_turn,
}
use belay_engine.Evaluate.Matching.{declared_coverage, coverage_evidence}
use belay_engine.Experience.Enums.{VerifierState}
use belay_engine.Experience.Model.{EvidenceRef}

-- The two turns are at most the window apart.
abbrev near : ℤ → ℤ → ℤ → Bool
near window x y = not (ltb_ℤ window (y -ℤ x)) && not (ltb_ℤ window (x -ℤ y))

-- Two entries of the list are at most the window apart.
abbrev pub close_pair : ℤ → List ℤ → Bool
close_pair window [] = false
close_pair window (x ∷ xs) = any (near window x) xs || close_pair window xs

near_comm : (window x y : ℤ) → near window x y ≡ near window y x
near_comm window x y = ground arith

any-insert_sorted :
    (p : ℤ → Bool) (x : ℤ) (ys : List ℤ) → any p (insert_sorted order_ltb x ys) ≡ (p x || any p ys)
unfolding insert_sorted
any-insert_sorted p x [] = refl
any-insert_sorted p x (y ∷ ys) = ground (arith, any-insert_sorted p x ys)

close_pair-insert_sorted :
    (window x : ℤ) (ys : List ℤ)
    → close_pair window (insert_sorted order_ltb x ys) ≡ close_pair window (x ∷ ys)
unfolding insert_sorted
close_pair-insert_sorted window x [] = refl
close_pair-insert_sorted window x (y ∷ ys) = ground (
  arith,
  close_pair-insert_sorted window x ys,
  any-insert_sorted (near window y) x ys,
  near_comm window x y,
)

-- One entry of the first list is near one of the second.
abbrev crossing : ℤ → List ℤ → List ℤ → Bool
crossing window xs ys = any (λ x. any (near window x) ys) xs

crossing-insert_sorted :
    (window x : ℤ) (xs ys : List ℤ)
    → crossing window xs (insert_sorted order_ltb x ys)
      ≡ (any (near window x) xs || crossing window xs ys)
crossing-insert_sorted window x [] ys = refl
crossing-insert_sorted window x (z ∷ xs) ys = ground (
  arith,
  crossing-insert_sorted window x xs ys,
  any-insert_sorted (near window z) x ys,
  near_comm window x z,
)

crossing-nil : (window : ℤ) (xs : List ℤ) → crossing window xs [] ≡ false
crossing-nil window [] = refl
crossing-nil window (x ∷ xs) = crossing-nil window xs

close_pair-sort_onto :
    (window : ℤ) (xs ys : List ℤ)
    → close_pair window (sort_onto order_ltb xs ys)
      ≡ (close_pair window xs || (crossing window xs ys || close_pair window ys))
unfolding sort_onto
close_pair-sort_onto window [] ys = refl
close_pair-sort_onto window (x ∷ xs) ys = ground (
  arith,
  close_pair-sort_onto window xs (insert_sorted order_ltb x ys),
  close_pair-insert_sorted window x ys,
  crossing-insert_sorted window x xs ys,
)

close_pair-sort :
    (window : ℤ) (xs : List ℤ) → close_pair window (sort order_ltb xs) ≡ close_pair window xs
unfolding sort
close_pair-sort window xs =
    ground (arith, close_pair-sort_onto window xs [], crossing-nil window xs)

order_ltb-IsOrder : IsOrder order_ltb
order_ltb-IsOrder = record {
  irrefl = λ a. ground arith;
  asym = λ a b h. ground arith;
  trans_not = λ a b c h k. ground arith;
}

far-Below :
    (window x y : ℤ) (rest : List ℤ)
    → ltb_ℤ window (y -ℤ x) ≡ true
    → Below order_ltb y rest
    → any (near window x) rest ≡ false
far-Below window x y [] far below = refl
far-Below window x y (z ∷ rest) far below = ground (
  arith,
  far-Below window x y rest far (λ w m. below w (inr m)),
  far_one window x y z far (below z (inl refl)),
)
  where
    far_one :
        (window x y z : ℤ)
        → ltb_ℤ window (y -ℤ x) ≡ true
        → order_ltb z y ≡ false
        → near window x z ≡ false
    far_one window x y z far below = ground (arith, -ℤ_parts y x, -ℤ_parts z x)

near_sorted :
    (window x y : ℤ)
    → order_ltb y x ≡ false
    → ltb_ℤ window (y -ℤ x) ≡ false
    → near window x y ≡ true
near_sorted window x y ordered close = ground (arith, -ℤ_parts y x, -ℤ_parts x y)

-- On a sorted list the neighbours are enough.
repeats_within-close_pair :
    (window : ℤ) (xs : List ℤ)
    → IsSorted order_ltb xs
    → repeats_within window xs ≡ close_pair window xs
unfolding repeats_within
repeats_within-close_pair window [] s = refl
repeats_within-close_pair window (x ∷ []) s = refl
repeats_within-close_pair window (x ∷ y ∷ rest) s =
    let rec = repeats_within-close_pair window (y ∷ rest) s.1 in
    let ordered = s.0 y (inl refl) in
    elim (Bool-cases (ltb_ℤ window (y -ℤ x))) [
      | inl far ↦ ground (arith, rec, far, far-Below window x y rest far s.1.0)
      | inr close ↦ ground (arith, close, near_sorted window x y ordered close)
    ]

-- The failures that the specification is about.
abbrev pub same_failures : Input → NoRepeatFailureSpec → List FailureFact
same_failures input spec = filterb (same_failure spec) input.facts.failures

no_repeat_by_absence_lem :
    (input : Input) (b : Builder) → ¬ ((no_repeat_by_absence input b).0 ≡ VerifierState.violated)
unfolding no_repeat_by_absence by_absence
no_repeat_by_absence_lem input b h =
    elim (Bool-cases
      (declared_coverage input.experience.verifier CoverageRequirement.transcript_complete)) [
        | inr f ↦ cc (rw f at h)
        | inl t ↦
            elim (Bool-cases (complete input.coverage CoverageRequirement.transcript_complete)) [
              | inr f ↦ cc (rw f at (rw t at h))
              | inl c ↦
                  by_absence_lem
                    (coverage_evidence input.coverage CoverageRequirement.transcript_complete) b
                    (rw c at (rw t at h))
            ]
      ]
  where
    by_absence_lem :
        (es : List EvidenceRef) (b : Builder)
        → ¬ ((by_absence VerifierState.satisfied [] es b).0 ≡ VerifierState.violated)
    by_absence_lem [] b h = cc h
    by_absence_lem (e ∷ es) b h = cc h

-- The verifier against repeated failures reports a violation exactly if the last turn is known, no
-- failure of the command class and the pattern is ambiguous, and two of these failures, in any order
-- of the facts, are at most the window apart.
pub evaluate_no_repeat_failure-violated_iff :
    (input : Input) (spec : NoRepeatFailureSpec) (b : Builder)
    → ((evaluate_no_repeat_failure input spec b).0 ≡ VerifierState.violated) ↔ (
        (missing_turn input.context.last_turn_index ≡ false)
        × (any (λ (f : FailureFact). f.meta.ambiguous) (same_failures input spec) ≡ false)
        × (close_pair spec.window_turns
              (map (λ (f : FailureFact). f.meta.order) (same_failures input spec))
            ≡ true))
unfolding evaluate_no_repeat_failure no_repeat_by_absence by_absence
evaluate_no_repeat_failure-violated_iff input spec b =
    let found = same_failures input spec in
    let orders = map (λ (f : FailureFact). f.meta.order) found in
    let reached : repeats_within spec.window_turns (sort order_ltb orders)
        ≡ close_pair spec.window_turns orders =
      repeats_within-close_pair spec.window_turns (sort order_ltb orders)
        (sort-IsSorted order_ltb-IsOrder orders)
      ∙ close_pair-sort spec.window_turns orders in
    let absent =
      no_repeat_by_absence_lem input (
        add_evidence Component.verifier (flat_map (λ (f : FailureFact). f.meta.evidence) found)
          b) in
    elim (Bool-cases (missing_turn input.context.last_turn_index)) [
      | inl t ↦ rw t (λ h. cc h, λ (q, _, _). cc q)
      | inr known ↦ elim (Bool-cases (any (λ (f : FailureFact). f.meta.ambiguous) found)) [
        | inl t ↦ rw known (rw t (λ h. cc h, λ (_, q, _). cc q))
        | inr clear ↦ elim (Bool-cases (close_pair spec.window_turns orders)) [
          | inl t ↦ rw known (rw clear (rw reached (rw t (λ h. (refl, refl, refl), λ h. refl))))
          | inr f ↦
              rw known (rw clear (rw reached (rw f (λ h. absurd (absent h), λ (_, _, q). cc q))))
        ]
      ]
    ]
