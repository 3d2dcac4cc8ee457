-- ===== src/Examples/Detections.antt =====
-- Detectors on a session.
use belay_engine.Prelude.{
  Text, text, true, false, ◌&&◌, List, [], ◌∷◌, some, length, ◌+◌, text_ltb, sort, compact, ◌≡◌,
  refl, ◌↔◌, ◌⊎◌, inl, arith, ◌≤◌, ◌<◌, In, map,
}
use belay_engine.Detection.Types.{AnalysisStatus}
use belay_engine.Detection.Try.{background}
use belay_engine.Detection.Groups.{members, sorted_keys, group_onto}
use belay_engine.Detection.Durations.{second, max_duration, within}
use belay_engine.Detection.Events.{PreparedEvent}
use belay_engine.Detection.Attempts.{ExplicitOutcome, CommandAttempt}
use belay_engine.Detection.Pairing.{is_command, command_attempts}
use belay_engine.Detection.Absence.{retained_verification_gap_absence_capability}
use belay_engine.Detection.Reports.{
  evidence_of, command_failure, verification_gap, unresolved_failure,
}
use belay_engine.Detection.Detectors.{
  report_each, detect_explicit_command_failures, last_index, verified_after,
  retained_verification_confidence, report_gap, retained_gap, detect_retained_verification_gap,
  unresolved, verification_attempt, report_unresolved, detect_unresolved_verification,
}
use belay_engine.Detection.Groups.Laws.{Ascending}
use belay_engine.Detection.Detectors.Confidence.{HasConfidence}
use belay_engine.Detection.Registry.{default_catalog}
use belay_engine.Detection.Validation.{validate_match, duplicate_match}
use belay_engine.Detection.Catalog.{run}
use belay_engine.Detection.Pairing.Outcomes.{disagree, settled, command_attempts-settled}
use belay_engine.Detection.Pairing.Evidence.{count, command_attempts-cited}
use belay_engine.Detection.Detectors.Failures.{failures_of, detect_explicit_command_failures-exact}
use belay_engine.Detection.Detectors.Unresolved.{
  Unresolved, verifications, detect_unresolved_verification-exact,
}
use belay_engine.Detection.Detectors.Gap.{GapBetween, retained_gap_iff}
use belay_engine.Detection.Merge.{coalesce_events}
use belay_engine.Detection.Merge.Evidence.{coalesce_events-evidence}
use belay_engine.Detection.Validation.Keys.{Repeats, duplicate_match_iff}
use belay_engine.Detection.Validation.Checked.{IsChecked, validate_match-IsChecked}
use belay_engine.Detection.Events.Cited.{evidence_ids_of}
use belay_engine.Detection.Durations.Window.{within_iff}
use belay_engine.Detection.Catalog.Reported.{prepared_input, IsRunOutcome}
use belay_engine.Detection.Catalog.Outcome.{run-IsOutcome}
use belay_engine.Detection.Detectors.Confidence.{HasConfidence}
use belay_engine.Detection.Registry.{default_catalog}
use belay_engine.Examples.Sessions.{
  started, ended, session, attempt, attempts, recorded, prompt_timing, input, gap, gap_detector,
}

command_attempts-settled_example :
    (attempt.outcome ≡ settled attempt.events) × (attempt.conflict ≡ disagree attempt.events)
unfolding command_attempts attempts
command_attempts-settled_example =
    command_attempts-settled background session attempts refl attempt (inl refl)

command_attempts-cited_example :
    count (λ item. item.live) (evidence_of attempts)
    ≤ count (λ item. is_command item && item.live) session.events
unfolding command_attempts attempts
command_attempts-cited_example =
    command_attempts-cited (λ item. item.live) background session attempts refl

detect_explicit_command_failures-exact_example :
    (signatures : List Text) × Ascending signatures
    × ((s : Text)
        → In s signatures ↔ (
            (a : CommandAttempt) × In a attempts
            × (a.outcome ≡ ExplicitOutcome.failed)
            × (a.signature ≡ s)))
    × (command_failure session (text "sig") attempts ∷ []
        ≡ map (λ s. command_failure session s (failures_of s attempts)) signatures)
unfolding detect_explicit_command_failures command_attempts group_onto members sorted_keys
    report_each sort attempts
detect_explicit_command_failures-exact_example =
    detect_explicit_command_failures-exact background session attempts
      (command_failure session (text "sig") attempts ∷ []) refl refl

detect_unresolved_verification-exact_example :
    In
      (unresolved_failure session (text "sig") ended attempt)
      (unresolved_failure session (text "sig") ended attempt ∷ [])
    ↔ ((s : Text) × (a : CommandAttempt) × Unresolved a (verifications 3 s attempts)
        × (unresolved_failure session (text "sig") ended attempt
            ≡ unresolved_failure session s ended a))
unfolding detect_unresolved_verification report_unresolved command_attempts group_onto members
    sorted_keys report_each last_index verification_attempt unresolved sort attempts
detect_unresolved_verification-exact_example =
    detect_unresolved_verification-exact background session attempts
      (unresolved_failure session (text "sig") ended attempt ∷ []) 3 ended refl refl refl refl
      (unresolved_failure session (text "sig") ended attempt)

retained_gap_iff_example : In gap (retained_gap session) ↔ (
    (mutation : PreparedEvent) × (terminal : PreparedEvent) × (confidence : Text) × GapBetween
      session.events mutation terminal
    × HasConfidence session confidence
    × (gap ≡ verification_gap session confidence mutation terminal))
retained_gap_iff_example = retained_gap_iff session gap

-- The detector reports the gap of the session.
gap_reported : retained_gap session ≡ gap ∷ []
unfolding retained_gap last_index report_gap verified_after retained_verification_confidence gap
gap_reported = refl

coalesce_events-evidence_example :
    In (text "h1") (evidence_ids_of (coalesce_events background (recorded ∷ started ∷ [])))
    ↔ In (text "h1") (evidence_ids_of (recorded ∷ started ∷ []))
coalesce_events-evidence_example =
    coalesce_events-evidence background (recorded ∷ started ∷ []) (text "h1")

-- The two records of the event become one.
coalesced_once : length (coalesce_events background (recorded ∷ started ∷ [])) ≡ 1
unfolding coalesce_events sort
coalesced_once = refl

duplicate_match_iff_example : (duplicate_match (gap ∷ gap ∷ []) ≡ true) ↔ Repeats (gap ∷ gap ∷ [])
unfolding gap
duplicate_match_iff_example = duplicate_match_iff (gap ∷ gap ∷ []) refl

validate_match-IsChecked_example : IsChecked gap_detector gap gap
unfolding validate_match gap gap_detector sort text_ltb compact
validate_match-IsChecked_example = validate_match-IsChecked gap_detector gap gap refl

within_iff_example :
    (within second 1000 2000 ≡ true)
    ↔ (((1000 ≤ 2000 + second) × (2000 ≤ 1000 + second)) ⊎ (1000 + max_duration < 2000))
within_iff_example = within_iff second 1000 2000 (omega arith)

-- A zero time counts as close to any time that is more than 292 years later.
zero_time_close : within second 0 63000000000000000000 ≡ true
unfolding within
zero_time_close = refl

run-IsOutcome_example :
    IsRunOutcome
      (λ _. prompt_timing)
      default_catalog.slots
      (prepared_input (some background) input)
      (run (λ _. prompt_timing) default_catalog (some background) input).0
run-IsOutcome_example = run-IsOutcome (λ _. prompt_timing) default_catalog (some background) input

-- The run over the session is current, with a match.
run_current :
    (run
      (λ _. prompt_timing)
      (record default_catalog { slots = record { detector = gap_detector; running = false } ∷ [] })
      (some background)
      input).0.status
    ≡ AnalysisStatus.current
unfolding run gap_detector detect_retained_verification_gap last_index report_gap verified_after
    verification_gap sort retained_verification_gap_absence_capability
    retained_verification_confidence text_ltb
run_current = refl
