-- ===== src/Evaluate/Verdicts/Branches.antt =====
-- The evidence behind the branches of the evaluators, internal/experience/evaluate/evaluate.go.
use belay_engine.Prelude.{
  Bool, true, false, ◌||◌, not, List, [], ◌∷◌, ◌++◌, ◌==◌, ◌!=◌, is_empty, any, filterb, ◌≡◌, refl,
  inl, inr, Bool-cases, map, nat_eq, list_eq,
}
use belay_engine.Evaluate.Finish.{is_verdict}
use belay_engine.Evaluate.Grounded.{
  IsGrounded, IsGrounded-add_gap, IsGrounded-same, IsGrounded-add_evidence, is_empty-append_right,
  HasEvidence, HasEvidence-filterb, flat_map-filled,
}
use belay_engine.Evaluate.Matching.{declared_coverage, coverage_evidence}
use belay_engine.Evaluate.Types.{
  Component, GapCode, gap, coverage_gap, FactResult, CommandFact, Input, Builder,
}
use belay_engine.Evaluate.Commands.{
  Verdict, undecided, decided, by_absence, by_transcript, by_results, command_facts_conflict,
  evaluate_command, undeclared, no_spec, succeeded, failed, other_class, judge_commands,
}
use belay_engine.Experience.Enums.{VerifierState}
use belay_engine.Experience.Model.{EvidenceRef}
use belay_engine.Experience.Verifier.{CoverageRequirement, CommandVerifierSpec}

abbrev pub Grounded : Builder → Verdict → Type 0
Grounded b r = IsGrounded Component.verifier is_verdict b r

pub Grounded-undecided : (code : GapCode) (b : Builder) → Grounded b (undecided code b)
Grounded-undecided code b =
    IsGrounded-add_gap Component.verifier is_verdict VerifierState.unknown
      (gap Component.verifier code) b refl

pub Grounded-undeclared : (r : CoverageRequirement) (b : Builder) → Grounded b (undeclared r b)
Grounded-undeclared r b =
    IsGrounded-add_gap Component.verifier is_verdict VerifierState.unknown
      (coverage_gap Component.verifier GapCode.coverage_not_declared r) b refl

pub Grounded-decided :
    (s : VerifierState) (refs : List EvidenceRef) (b : Builder)
    → is_empty refs ≡ false
    → Grounded b (decided s refs b)
Grounded-decided s refs b n = IsGrounded-add_evidence Component.verifier is_verdict s refs b n

pub Grounded-no_spec : (b : Builder) → Grounded b (no_spec b)
Grounded-no_spec b = IsGrounded-same Component.verifier is_verdict VerifierState.unknown b refl

pub by_absence-Grounded :
    (s : VerifierState) (front es : List EvidenceRef) (b : Builder)
    → Grounded b (by_absence s front es b)
unfolding by_absence
by_absence-Grounded s front [] b = Grounded-undecided GapCode.facts_incomplete b
by_absence-Grounded s front (e ∷ es) b =
    Grounded-decided s (front ++ e ∷ es) b (is_empty-append_right front (e ∷ es) refl)

pub by_transcript-Grounded :
    (i : Input) (s : VerifierState) (front : List EvidenceRef) (b : Builder)
    → Grounded b (by_transcript i s front b)
unfolding by_transcript
by_transcript-Grounded i s front b =
    elim (Bool-cases
      (declared_coverage i.experience.verifier CoverageRequirement.transcript_complete)) [
        | inl t ↦ rw t (
            by_absence-Grounded s front
              (coverage_evidence i.coverage CoverageRequirement.transcript_complete) b)
        | inr f ↦ rw f (Grounded-undeclared CoverageRequirement.transcript_complete b)
      ]

pub by_results-Grounded :
    (results : List FactResult) (refs : List EvidenceRef) (b : Builder)
    → is_empty refs ≡ false
    → Grounded b (by_results results refs b)
unfolding by_results
by_results-Grounded results refs b n = elim (Bool-cases (any succeeded results)) [
  | inl t ↦ rw t (Grounded-decided VerifierState.satisfied refs b n)
  | inr f ↦ elim (Bool-cases (any (λ r. not (failed r)) results)) [
    | inl t ↦ rw f (rw t (Grounded-undecided GapCode.facts_incomplete b))
    | inr g ↦ elim (Bool-cases (any failed results)) [
      | inl t ↦ rw f (rw g (rw t (Grounded-decided VerifierState.violated refs b n)))
      | inr h ↦ rw f (rw g (rw h (Grounded-no_spec b)))
    ]
  ]
]

judge_commands-Grounded :
    (i : Input) (require_success : Bool) (fs : List CommandFact) (b : Builder)
    → HasEvidence (λ (f : CommandFact). f.meta) fs
    → Grounded b (judge_commands i require_success fs b)
unfolding judge_commands
judge_commands-Grounded i require_success [] b h =
    by_transcript-Grounded i VerifierState.violated [] b
judge_commands-Grounded i true (f ∷ fs) b h =
    by_results-Grounded (map (λ (g : CommandFact). g.result) (f ∷ fs)) _ b
      (flat_map-filled (λ (g : CommandFact). g.meta) f fs h)
judge_commands-Grounded i false (f ∷ fs) b h =
    Grounded-decided VerifierState.satisfied _ b
      (flat_map-filled (λ (g : CommandFact). g.meta) f fs h)

pub evaluate_command-Grounded :
    (i : Input) (spec : CommandVerifierSpec) (require_success : Bool) (b : Builder)
    → HasEvidence (λ (f : CommandFact). f.meta) i.facts.commands
    → Grounded b (evaluate_command i spec require_success b)
unfolding evaluate_command
evaluate_command-Grounded i spec require_success b h =
    let n = i.normalized_verifier in
    let same = filterb (λ f. f.signature == n.command_signature) i.facts.commands in
    let matches = filterb (λ f. not (other_class spec f || f.meta.ambiguous)) same in
    let filled =
      HasEvidence-filterb (λ (f : CommandFact). f.meta)
        (λ f. not (other_class spec f || f.meta.ambiguous)) same
        (HasEvidence-filterb (λ (f : CommandFact). f.meta) (λ f. f.signature == n.command_signature)
          i.facts.commands h) in
    elim (Bool-cases
      (is_empty n.command_signature || n.command_scrubbing_version != spec.scrubbing_version)) [
        | inl t ↦ rw t (Grounded-undecided GapCode.unsupported_match b)
        | inr f ↦
            elim (Bool-cases (
              any (λ f. other_class spec f || f.meta.ambiguous) same
              || command_facts_conflict matches)) [
                | inl t ↦ rw f (rw t (Grounded-undecided GapCode.ambiguous_match b))
                | inr g ↦ rw f (rw g (judge_commands-Grounded i require_success matches b filled))
              ]
      ]
