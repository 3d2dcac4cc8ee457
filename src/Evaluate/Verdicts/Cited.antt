-- ===== src/Evaluate/Verdicts/Cited.antt =====
-- The judgements that the evaluators of changes, repeats and corrections share are cited.
use belay_engine.Prelude.{
  Bool, true, false, ◌||◌, not, List, [], ◌∷◌, Option, some, none, ℤ, pos, ltb_ℤ, contains,
  is_empty, any, filterb, flat_map, sort, ◌≡◌, refl, inl, inr, Subset, Bool-cases, map,
  In-append_left, sort_onto, nat_eq, list_eq,
}
use belay_engine.Evaluate.Finish.{is_verdict}
use belay_engine.Evaluate.Grounded.{
  IsGrounded-after, is_empty-append_right, HasEvidence, HasEvidence-filterb, flat_map-filled,
}
use belay_engine.Evaluate.Matching.{
  declared_coverage, coverage_evidence, file_absence_declared, file_absence_evidence,
}
use belay_engine.Evaluate.Types.{
  Component, GapCode, complete, VerificationFact, FailureFact, CorrectionFact, Input, Builder,
  add_evidence,
}
use belay_engine.Evaluate.Commands.{Verdict, verification_facts_conflict}
use belay_engine.Evaluate.Verdicts.{
  evaluate_no_repeat_failure, evaluate_user_correction_absent, judge_changes, counts,
  judge_verifications, after_edit, same_failure, repeats_within, order_ltb, no_repeat_by_absence,
  missing_turn, with_spec,
}
use belay_engine.Evaluate.Verdicts.Branches.{
  Grounded, Grounded-undecided, Grounded-undeclared, Grounded-decided, Grounded-no_spec,
  by_absence-Grounded, by_transcript-Grounded, by_results-Grounded,
}
use belay_engine.Experience.Enums.{VerifierState}
use belay_engine.Experience.Model.{EvidenceRef}
use belay_engine.Experience.Verifier.{
  CoverageRequirement, VerificationAfterLastEditSpec, NoRepeatFailureSpec, UserCorrectionAbsentSpec,
}
use belay_engine.Evaluate.Finish.{is_verdict}
use belay_engine.Evaluate.Grounded.{
  IsGrounded-after, is_empty-append_right, HasEvidence, HasEvidence-filterb, flat_map-filled,
}
use belay_engine.Evaluate.Matching.{
  declared_coverage, coverage_evidence, file_absence_declared, file_absence_evidence,
}
use belay_engine.Evaluate.Types.{
  Component, GapCode, complete, VerificationFact, FailureFact, CorrectionFact, Input, Builder,
  add_evidence,
}
use belay_engine.Evaluate.Verdicts.{
  Verdict, verification_facts_conflict, evaluate_no_repeat_failure, evaluate_user_correction_absent,
  judge_changes, counts, judge_verifications, after_edit, same_failure, repeats_within, order_ltb,
  no_repeat_by_absence, missing_turn, with_spec,
}
use belay_engine.Experience.Enums.{VerifierState}
use belay_engine.Experience.Model.{EvidenceRef}
use belay_engine.Experience.Verifier.{
  CoverageRequirement, VerificationAfterLastEditSpec, NoRepeatFailureSpec, UserCorrectionAbsentSpec,
}
use belay_engine.Evaluate.Verdicts.Branches.{
  Grounded, Grounded-undecided, Grounded-undeclared, Grounded-decided, Grounded-no_spec,
  by_absence-Grounded, by_transcript-Grounded, by_results-Grounded,
}

pub judge_changes-Grounded :
    (i : Input) (changed unchanged : VerifierState) (ambiguous : Bool) (es : List EvidenceRef)
    (b : Builder)
    → Grounded b (judge_changes i changed unchanged ambiguous es b)
unfolding judge_changes
judge_changes-Grounded i changed unchanged true es b = Grounded-undecided GapCode.ambiguous_match b
judge_changes-Grounded i changed unchanged false (e ∷ es) b =
    Grounded-decided changed (e ∷ es) b refl
judge_changes-Grounded i changed unchanged false [] b =
    elim (Bool-cases (file_absence_declared i.experience.verifier)) [
      | inl t ↦ rw t (
          by_absence-Grounded unchanged [] (file_absence_evidence i.experience.verifier i.coverage)
            b)
      | inr f ↦ rw f (Grounded-undecided GapCode.coverage_not_declared b)
    ]

judge_verifications-Grounded :
    (i : Input) (spec : VerificationAfterLastEditSpec) (front : List EvidenceRef)
    (fs : List VerificationFact) (b : Builder)
    → HasEvidence (λ (f : VerificationFact). f.meta) fs
    → Grounded b (judge_verifications i spec front fs b)
unfolding judge_verifications
judge_verifications-Grounded i spec front [] b h =
    by_transcript-Grounded i VerifierState.violated front b
judge_verifications-Grounded i spec front (f ∷ fs) b h =
    let n =
      is_empty-append_right front _ (flat_map-filled (λ (g : VerificationFact). g.meta) f fs h) in
    elim (Bool-cases spec.require_success) [
      | inl t ↦ rw t (by_results-Grounded (map (λ (g : VerificationFact). g.result) (f ∷ fs)) _ b n)
      | inr g ↦ rw g (Grounded-decided VerifierState.satisfied _ b n)
    ]

pub after_edit-Grounded :
    (i : Input) (spec : VerificationAfterLastEditSpec) (found : Option (ℤ × List EvidenceRef))
    (b : Builder)
    → HasEvidence (λ (f : VerificationFact). f.meta) i.facts.verifications
    → Grounded b (after_edit i spec found b)
unfolding after_edit
after_edit-Grounded i spec none b h = Grounded-undecided GapCode.ambiguous_match b
after_edit-Grounded i spec (some (latest, es)) b h =
    let later = filterb (counts spec latest) i.facts.verifications in
    elim (Bool-cases (ltb_ℤ latest (pos 0))) [
      | inl t ↦ rw t (Grounded-undecided GapCode.no_edit_observed b)
      | inr f ↦
          elim (Bool-cases
            (any (λ f. f.meta.ambiguous) later || verification_facts_conflict later)) [
              | inl t ↦ rw f (rw t (Grounded-undecided GapCode.ambiguous_match b))
              | inr g ↦ rw f (
                  rw g (
                    judge_verifications-Grounded i spec es later b (
                      HasEvidence-filterb (λ (f : VerificationFact). f.meta) (counts spec latest)
                        i.facts.verifications h)))
            ]
    ]

no_repeat_by_absence-Grounded : (i : Input) (b : Builder) → Grounded b (no_repeat_by_absence i b)
unfolding no_repeat_by_absence
no_repeat_by_absence-Grounded i b =
    elim (Bool-cases
      (declared_coverage i.experience.verifier CoverageRequirement.transcript_complete)) [
        | inr f ↦ rw f (Grounded-undeclared CoverageRequirement.transcript_complete b)
        | inl t ↦ elim (Bool-cases (complete i.coverage CoverageRequirement.transcript_complete)) [
          | inr f ↦ rw t (rw f (Grounded-undecided GapCode.facts_incomplete b))
          | inl c ↦ rw t (
              rw c (
                by_absence-Grounded VerifierState.satisfied []
                  (coverage_evidence i.coverage CoverageRequirement.transcript_complete) b))
        ]
      ]

-- Only facts that are there repeat.
repeated_filled :
    (window : ℤ) (facts : List FailureFact)
    → HasEvidence (λ (f : FailureFact). f.meta) facts
    → repeats_within window (sort order_ltb (map (λ (f : FailureFact). f.meta.order) facts)) ≡ true
    → is_empty (flat_map (λ (f : FailureFact). f.meta.evidence) facts) ≡ false
unfolding repeats_within sort sort_onto
repeated_filled window [] h r = cc r
repeated_filled window (f ∷ fs) h r = flat_map-filled (λ (g : FailureFact). g.meta) f fs h

grows-add_evidence :
    (refs : List EvidenceRef) (b : Builder)
    → Subset b.evidence (add_evidence Component.verifier refs b).evidence
grows-add_evidence refs b c m = In-append_left c b.evidence _ m

pub evaluate_no_repeat_failure-Grounded :
    (i : Input) (spec : NoRepeatFailureSpec) (b : Builder)
    → HasEvidence (λ (f : FailureFact). f.meta) i.facts.failures
    → Grounded b (evaluate_no_repeat_failure i spec b)
unfolding evaluate_no_repeat_failure
evaluate_no_repeat_failure-Grounded i spec b h =
    let found = filterb (same_failure spec) i.facts.failures in
    let refs = flat_map (λ (f : FailureFact). f.meta.evidence) found in
    let more = add_evidence Component.verifier refs b in
    let filled =
      HasEvidence-filterb (λ (f : FailureFact). f.meta) (same_failure spec) i.facts.failures h in
    elim (Bool-cases (missing_turn i.context.last_turn_index)) [
      | inl t ↦ rw t (Grounded-undecided GapCode.facts_incomplete b)
      | inr f ↦ elim (Bool-cases (any (λ (f : FailureFact). f.meta.ambiguous) found)) [
        | inl t ↦ rw f (
            rw t (
              IsGrounded-after Component.verifier is_verdict b more _ (grows-add_evidence refs b)
                (Grounded-undecided GapCode.ambiguous_match more)))
        | inr g ↦
            elim (Bool-cases (
              repeats_within spec.window_turns
                (sort order_ltb (map (λ (f : FailureFact). f.meta.order) found)))) [
                  | inl t ↦ rw f (
                      rw g (
                        rw t (
                          Grounded-decided VerifierState.violated refs b
                            (repeated_filled spec.window_turns found filled t))))
                  | inr n ↦ rw f (
                      rw g (
                        rw n (
                          IsGrounded-after Component.verifier is_verdict b more _
                            (grows-add_evidence refs b) (no_repeat_by_absence-Grounded i more))))
                ]
      ]
    ]

pub evaluate_user_correction_absent-Grounded :
    (i : Input) (spec : UserCorrectionAbsentSpec) (b : Builder)
    → Grounded b (evaluate_user_correction_absent i spec b)
unfolding evaluate_user_correction_absent
evaluate_user_correction_absent-Grounded i spec b =
    let found =
      filterb (λ f. is_empty spec.marker_families || contains spec.marker_families f.marker_family)
        i.facts.corrections in
    let refs =
      flat_map (λ (f : CorrectionFact). f.meta.evidence)
        (filterb (λ f. not f.meta.ambiguous) found) in
    elim (Bool-cases (any (λ (f : CorrectionFact). f.meta.ambiguous) found)) [
      | inl t ↦ rw t (Grounded-undecided GapCode.ambiguous_match b)
      | inr f ↦ elim (Bool-cases (is_empty refs)) [
        | inl t ↦ rw f (rw t (by_transcript-Grounded i VerifierState.satisfied [] b))
        | inr n ↦ rw f (rw n (Grounded-decided VerifierState.violated refs b n))
      ]
    ]

pub with_spec-Grounded :
    {A : Type 0} (spec : Option A) (f : A → Builder → Verdict) (b : Builder)
    → ((a : A) → Grounded b (f a b))
    → Grounded b (with_spec spec f b)
with_spec-Grounded none f b h = Grounded-no_spec b
with_spec-Grounded (some a) f b h = h a
