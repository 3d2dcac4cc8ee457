-- ===== src/Evaluate/Verdicts.antt =====
-- `evaluateVerifier` and the evaluators of the kinds, in internal/experience/evaluate/evaluate.go.
-- The typed specification of a kind is there, since the verifier has been validated; `no_spec` stands
-- for the nil pointer.
pub mod Changes
pub mod Branches
pub mod Cited
pub mod Citations
pub mod Edits
pub mod Failures
use belay_engine.Prelude.{
  ◌/◌, Bool, true, false, ◌&&◌, ◌||◌, not, List, [], ◌∷◌, ◌++◌, Option, some, none, ◌==◌, ℤ, pos,
  negsuc, ltb_ℤ, leb_ℤ, contains, is_empty, if◌then◌else◌, ◌+◌, ◌-ℤ◌, any, filterb, flat_map, sort,
  ◌-◌, map, nat_eq, list_eq, int_eq,
}
use belay_engine.Experience.Enums.{
  ExperienceType-discrete, CandidateFamily-discrete, EvidenceTurnRole-discrete,
  LifecycleState-discrete, InterventionStrength-discrete, InstructionAuthority-discrete,
  ScopeKind-discrete, Harness-discrete, DeterministicConditionKind-discrete,
  EvidenceSourceKind-discrete, EvidenceAvailability-discrete, ApprovalMode-discrete,
  DeliveryKind-discrete, DeliveryState-discrete, OpportunityState-discrete,
  ApplicabilityState-discrete, VerifierState, VerifierState-discrete, TaskOutcomeState-discrete,
}
use belay_engine.Experience.Verifier.{
  VerifierKind, VerifierKind-discrete, CoverageRequirement, CoverageRequirement-discrete,
  FileVerifierSpec, PathPatternVerifierSpec, VerificationAfterLastEditSpec, NoRepeatFailureSpec,
  UserCorrectionAbsentSpec, Verifier,
}
use belay_engine.Experience.Model.{ℤ-discrete, ExperienceRef-discrete, EvidenceRef, Experience}
use belay_engine.Evaluate.Types.{
  Component, Component-discrete, GapCode, complete, FactResult-discrete, FileChangeFact,
  VerificationFact, FailureFact, CorrectionFact, Input, Builder, add_evidence,
}
use belay_engine.Evaluate.Matching.{
  match_any_path, declared_coverage, coverage_evidence, file_absence_declared,
  file_absence_evidence,
}
use belay_engine.Evaluate.Commands.{
  Verdict, undecided, undeclared, decided, no_spec, by_absence, by_transcript, by_results,
  verification_facts_conflict, evaluate_command,
}

-- The end of `evaluateFile` and `evaluatePathPattern`: the state if the evidence of a change is
-- there, and the state if the coverage shows that there was none.
pub judge_changes :
    Input → VerifierState → VerifierState → Bool → List EvidenceRef → Builder → Verdict
unfolding file_absence_declared file_absence_evidence by_absence
judge_changes input changed unchanged true evidence b = undecided GapCode.ambiguous_match b
judge_changes input changed unchanged false (e ∷ es) b = decided changed (e ∷ es) b
judge_changes input changed unchanged false [] b =
    if file_absence_declared input.experience.verifier
    then by_absence unchanged [] (file_absence_evidence input.experience.verifier input.coverage) b
    else undecided GapCode.coverage_not_declared b

-- The loop over the file changes that a test selects.
abbrev changes : (FileChangeFact → Bool) → Input → Bool × List EvidenceRef
changes selects input =
    let found = filterb selects input.facts.file_changes in
    (
      any (λ f. f.meta.ambiguous) found,
      flat_map (λ (f : FileChangeFact). f.meta.evidence)
          (filterb (λ f. not f.meta.ambiguous) found),
    )

-- `evaluateFile`
unfoldable pub evaluate_file : Input → FileVerifierSpec → Bool → Builder → Verdict
unfolding judge_changes
evaluate_file input spec want_modified b =
    let found = changes (λ f. f.path == spec.path) input in
    judge_changes input (if want_modified then VerifierState.satisfied else VerifierState.violated)
      (if want_modified then VerifierState.violated else VerifierState.satisfied) found.0 found.1 b

-- `evaluatePathPattern`
unfoldable pub evaluate_path_pattern : Input → PathPatternVerifierSpec → Builder → Verdict
unfolding judge_changes match_any_path
evaluate_path_pattern input spec b =
    let found = changes (λ f. match_any_path spec.patterns (f.path ∷ [])) input in
    judge_changes input VerifierState.violated VerifierState.satisfied found.0 found.1 b

-- The first loop of `evaluateVerificationAfterLastEdit`: the last order and the evidence at it, or
-- `none` at an ambiguous change.
latest_edit : List FileChangeFact → ℤ → List EvidenceRef → Option (ℤ × List EvidenceRef)
latest_edit [] latest evidence = some (latest, evidence)
latest_edit (f ∷ fs) latest evidence =
    let newer = latest_edit fs f.meta.order f.meta.evidence in
    let level = latest_edit fs latest (evidence ++ f.meta.evidence) in
    let older = latest_edit fs latest evidence in
    if f.meta.ambiguous
    then none
    else if ltb_ℤ latest f.meta.order
    then newer
    else if f.meta.order == latest
    then level
    else older

abbrev counts : VerificationAfterLastEditSpec → ℤ → VerificationFact → Bool
counts spec latest f = not (
    leb_ℤ f.meta.order latest
    || (not (is_empty spec.command_classes) && not (contains spec.command_classes f.command_class)))

pub judge_verifications :
    Input
    → VerificationAfterLastEditSpec
    → List EvidenceRef
    → List VerificationFact
    → Builder
    → Verdict
unfolding by_transcript by_results
judge_verifications input spec edit_evidence [] b =
    by_transcript input VerifierState.violated edit_evidence b
judge_verifications input spec edit_evidence (f ∷ fs) b =
    let evidence = edit_evidence ++ flat_map (λ (g : VerificationFact). g.meta.evidence) (f ∷ fs) in
    if spec.require_success
    then by_results (map (λ (g : VerificationFact). g.result) (f ∷ fs)) evidence b
    else decided VerifierState.satisfied evidence b

-- The rest of the function, behind the last edit.
pub after_edit :
    Input → VerificationAfterLastEditSpec → Option (ℤ × List EvidenceRef) → Builder → Verdict
unfolding judge_verifications verification_facts_conflict
after_edit input spec none b = undecided GapCode.ambiguous_match b
after_edit input spec (some (latest, edit_evidence)) b =
    let later = filterb (counts spec latest) input.facts.verifications in
    if ltb_ℤ latest (pos 0)
    then undecided GapCode.no_edit_observed b
    else if any (λ f. f.meta.ambiguous) later || verification_facts_conflict later
    then undecided GapCode.ambiguous_match b
    else judge_verifications input spec edit_evidence later b

-- `evaluateVerificationAfterLastEdit`
unfoldable pub evaluate_after_last_edit : Input → VerificationAfterLastEditSpec → Builder → Verdict
unfolding after_edit latest_edit
evaluate_after_last_edit input spec b =
    after_edit input spec (latest_edit input.facts.file_changes (negsuc 0) []) b

abbrev same_failure : NoRepeatFailureSpec → FailureFact → Bool
same_failure spec f =
    f.command_class == spec.command_class && f.normalized_pattern == spec.normalized_pattern

-- The loop over the sorted failures: two neighbours within the window.
repeats_within : ℤ → List ℤ → Bool
unfolding ◌-ℤ◌
repeats_within window [] = false
repeats_within window (x ∷ []) = false
repeats_within window (x ∷ y ∷ rest) =
    let others = repeats_within window (y ∷ rest) in if ltb_ℤ window (y -ℤ x) then others else true

abbrev order_ltb : ℤ → ℤ → Bool
order_ltb a b = ltb_ℤ a b

-- The coverage branch of `evaluateNoRepeatFailure`, which asks for complete coverage too.
no_repeat_by_absence : Input → Builder → Verdict
unfolding declared_coverage coverage_evidence by_absence
no_repeat_by_absence input b =
    if not (declared_coverage input.experience.verifier CoverageRequirement.transcript_complete)
    then undeclared CoverageRequirement.transcript_complete b
    else if not (complete input.coverage CoverageRequirement.transcript_complete)
    then undecided GapCode.facts_incomplete b
    else by_absence VerifierState.satisfied []
        (coverage_evidence input.coverage CoverageRequirement.transcript_complete) b

abbrev missing_turn : Option ℤ → Bool
missing_turn none = true
missing_turn (some _) = false

-- `evaluateNoRepeatFailure`
unfoldable pub evaluate_no_repeat_failure : Input → NoRepeatFailureSpec → Builder → Verdict
unfolding repeats_within no_repeat_by_absence sort
evaluate_no_repeat_failure input spec b =
    let found = filterb (same_failure spec) input.facts.failures in
    let evidence = flat_map (λ (f : FailureFact). f.meta.evidence) found in
    let cited = add_evidence Component.verifier evidence b in
    let orders = map (λ (f : FailureFact). f.meta.order) found in
    if missing_turn input.context.last_turn_index
    then undecided GapCode.facts_incomplete b
    else if any (λ f. f.meta.ambiguous) found
    then undecided GapCode.ambiguous_match cited
    else if repeats_within spec.window_turns (sort order_ltb orders)
    then (VerifierState.violated, cited)
    else no_repeat_by_absence input cited

-- `evaluateUserCorrectionAbsent`
unfoldable pub evaluate_user_correction_absent :
    Input → UserCorrectionAbsentSpec → Builder → Verdict
unfolding by_transcript
evaluate_user_correction_absent input spec b =
    let found =
      filterb (λ f. is_empty spec.marker_families || contains spec.marker_families f.marker_family)
        input.facts.corrections in
    let evidence =
      flat_map (λ (f : CorrectionFact). f.meta.evidence)
        (filterb (λ f. not f.meta.ambiguous) found) in
    if any (λ f. f.meta.ambiguous) found
    then undecided GapCode.ambiguous_match b
    else if is_empty evidence
    then by_transcript input VerifierState.satisfied [] b
    else decided VerifierState.violated evidence b

abbrev with_spec : {A : Type 0} → Option A → (A → Builder → Verdict) → Builder → Verdict
with_spec none f b = no_spec b
with_spec (some spec) f b = f spec b

verifier_by_kind : Input → Verifier → VerifierKind → Builder → Verdict
unfolding evaluate_command evaluate_file evaluate_path_pattern evaluate_after_last_edit
    evaluate_no_repeat_failure evaluate_user_correction_absent
verifier_by_kind input v VerifierKind.command_observed b =
    with_spec v.command (λ spec. evaluate_command input spec false) b
verifier_by_kind input v VerifierKind.command_succeeded b =
    with_spec v.command (λ spec. evaluate_command input spec true) b
verifier_by_kind input v VerifierKind.file_not_modified b =
    with_spec v.file (λ spec. evaluate_file input spec false) b
verifier_by_kind input v VerifierKind.file_modified b =
    with_spec v.file (λ spec. evaluate_file input spec true) b
verifier_by_kind input v VerifierKind.path_pattern_not_modified b =
    with_spec v.path_pattern (evaluate_path_pattern input) b
verifier_by_kind input v VerifierKind.verification_after_last_edit b =
    with_spec v.verification_after_last_edit (evaluate_after_last_edit input) b
verifier_by_kind input v VerifierKind.no_repeat_failure b =
    with_spec v.no_repeat_failure (evaluate_no_repeat_failure input) b
verifier_by_kind input v VerifierKind.user_correction_absent b =
    with_spec v.user_correction_absent (evaluate_user_correction_absent input) b
verifier_by_kind input v VerifierKind.observation_only b = undecided GapCode.observation_only b
verifier_by_kind input v (VerifierKind.other _) b = undecided GapCode.unsupported_match b

-- `evaluateVerifier`
unfoldable pub evaluate_verifier : Input → Builder → Verdict
unfolding verifier_by_kind
evaluate_verifier input b =
    verifier_by_kind input input.experience.verifier input.experience.verifier.kind b
