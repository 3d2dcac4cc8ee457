-- ===== src/Evaluate/Verdicts/Citations.antt =====
-- A verdict, satisfied or violated, is cited by the evaluator that gives it.
use belay_engine.Prelude.{Bool, true, false, [], ◌∷◌, ◌==◌, negsuc, if◌then◌else◌, nat_eq, list_eq}
use belay_engine.Evaluate.Grounded.{HasEvidence}
use belay_engine.Evaluate.Matching.{match_any_path}
use belay_engine.Evaluate.Types.{
  GapCode, CommandFact, VerificationFact, FailureFact, Facts, Input, Builder,
}
use belay_engine.Evaluate.Commands.{evaluate_command}
use belay_engine.Evaluate.Verdicts.{
  evaluate_file, evaluate_path_pattern, evaluate_after_last_edit, evaluate_no_repeat_failure,
  evaluate_user_correction_absent, evaluate_verifier, changes, latest_edit, verifier_by_kind,
}
use belay_engine.Evaluate.Verdicts.Branches.{
  Grounded, Grounded-undecided, evaluate_command-Grounded,
}
use belay_engine.Experience.Enums.{VerifierState}
use belay_engine.Experience.Verifier.{
  VerifierKind, FileVerifierSpec, PathPatternVerifierSpec, VerificationAfterLastEditSpec, Verifier,
}
use belay_engine.Evaluate.Grounded.{HasEvidence}
use belay_engine.Evaluate.Matching.{match_any_path}
use belay_engine.Evaluate.Types.{
  GapCode, CommandFact, VerificationFact, FailureFact, Facts, Input, Builder,
}
use belay_engine.Evaluate.Verdicts.{
  evaluate_command, evaluate_file, evaluate_path_pattern, evaluate_after_last_edit,
  evaluate_no_repeat_failure, evaluate_user_correction_absent, evaluate_verifier, changes,
  latest_edit, verifier_by_kind,
}
use belay_engine.Experience.Enums.{VerifierState}
use belay_engine.Experience.Verifier.{
  VerifierKind, FileVerifierSpec, PathPatternVerifierSpec, VerificationAfterLastEditSpec, Verifier,
}
use belay_engine.Evaluate.Verdicts.Branches.{
  Grounded, Grounded-undecided, evaluate_command-Grounded,
}
use belay_engine.Evaluate.Verdicts.Cited.{
  judge_changes-Grounded, after_edit-Grounded, evaluate_no_repeat_failure-Grounded,
  evaluate_user_correction_absent-Grounded, with_spec-Grounded,
}

-- The facts that verifiers read have evidence.
pub record IsEvidenced (facts : Facts) : Type 0 where
  pub commands : HasEvidence (λ (f : CommandFact). f.meta) facts.commands
  pub verifications : HasEvidence (λ (f : VerificationFact). f.meta) facts.verifications
  pub failures : HasEvidence (λ (f : FailureFact). f.meta) facts.failures

evaluate_file-Grounded :
    (i : Input) (spec : FileVerifierSpec) (want_modified : Bool) (b : Builder)
    → Grounded b (evaluate_file i spec want_modified b)
unfolding evaluate_file
evaluate_file-Grounded i spec want_modified b =
    let found = changes (λ f. f.path == spec.path) i in
    judge_changes-Grounded i
      (if want_modified then VerifierState.satisfied else VerifierState.violated)
      (if want_modified then VerifierState.violated else VerifierState.satisfied) found.0 found.1 b

evaluate_path_pattern-Grounded :
    (i : Input) (spec : PathPatternVerifierSpec) (b : Builder)
    → Grounded b (evaluate_path_pattern i spec b)
unfolding evaluate_path_pattern
evaluate_path_pattern-Grounded i spec b =
    let found = changes (λ f. match_any_path spec.patterns (f.path ∷ [])) i in
    judge_changes-Grounded i VerifierState.violated VerifierState.satisfied found.0 found.1 b

evaluate_after_last_edit-Grounded :
    (i : Input) (spec : VerificationAfterLastEditSpec) (b : Builder)
    → HasEvidence (λ (f : VerificationFact). f.meta) i.facts.verifications
    → Grounded b (evaluate_after_last_edit i spec b)
unfolding evaluate_after_last_edit
evaluate_after_last_edit-Grounded i spec b h =
    after_edit-Grounded i spec (latest_edit i.facts.file_changes (negsuc 0) []) b h

verifier_by_kind-Grounded :
    (i : Input) (v : Verifier) (k : VerifierKind) (b : Builder)
    → IsEvidenced i.facts
    → Grounded b (verifier_by_kind i v k b)
unfolding verifier_by_kind
verifier_by_kind-Grounded i v VerifierKind.command_observed b h =
    with_spec-Grounded v.command (λ spec. evaluate_command i spec false) b
      (λ spec. evaluate_command-Grounded i spec false b h.commands)
verifier_by_kind-Grounded i v VerifierKind.command_succeeded b h =
    with_spec-Grounded v.command (λ spec. evaluate_command i spec true) b
      (λ spec. evaluate_command-Grounded i spec true b h.commands)
verifier_by_kind-Grounded i v VerifierKind.file_not_modified b h =
    with_spec-Grounded v.file (λ spec. evaluate_file i spec false) b
      (λ spec. evaluate_file-Grounded i spec false b)
verifier_by_kind-Grounded i v VerifierKind.file_modified b h =
    with_spec-Grounded v.file (λ spec. evaluate_file i spec true) b
      (λ spec. evaluate_file-Grounded i spec true b)
verifier_by_kind-Grounded i v VerifierKind.path_pattern_not_modified b h =
    with_spec-Grounded v.path_pattern (evaluate_path_pattern i) b
      (λ spec. evaluate_path_pattern-Grounded i spec b)
verifier_by_kind-Grounded i v VerifierKind.verification_after_last_edit b h =
    with_spec-Grounded v.verification_after_last_edit (evaluate_after_last_edit i) b
      (λ spec. evaluate_after_last_edit-Grounded i spec b h.verifications)
verifier_by_kind-Grounded i v VerifierKind.no_repeat_failure b h =
    with_spec-Grounded v.no_repeat_failure (evaluate_no_repeat_failure i) b
      (λ spec. evaluate_no_repeat_failure-Grounded i spec b h.failures)
verifier_by_kind-Grounded i v VerifierKind.user_correction_absent b h =
    with_spec-Grounded v.user_correction_absent (evaluate_user_correction_absent i) b
      (λ spec. evaluate_user_correction_absent-Grounded i spec b)
verifier_by_kind-Grounded i v VerifierKind.observation_only b h =
    Grounded-undecided GapCode.observation_only b
verifier_by_kind-Grounded i v (VerifierKind.other _) b h =
    Grounded-undecided GapCode.unsupported_match b

pub evaluate_verifier-Grounded :
    (i : Input) (b : Builder) → IsEvidenced i.facts → Grounded b (evaluate_verifier i b)
unfolding evaluate_verifier
evaluate_verifier-Grounded i b h =
    verifier_by_kind-Grounded i i.experience.verifier i.experience.verifier.kind b h
