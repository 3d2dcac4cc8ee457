-- ===== src/Detection/Detectors.antt =====
-- internal/detection/detectors.go: the detectors over a prepared session.
pub mod LastIndex
pub mod Confidence
pub mod Gap
pub mod Unresolved
pub mod Failures
use belay_engine.Prelude.{
  ℕ, ◌/◌, suc, Text, text, Bool, false, ◌&&◌, ◌||◌, List, [], ◌∷◌, Option, some, none, ltb, ◌==◌,
  ◌!=◌, if◌then◌else◌, each, filterb, take, trim_space, get_elem?, ◌-◌, map, nat_eq, list_eq,
}
use belay_engine.Canonical.Event.{Event}
use belay_engine.Detection.Types.{Match}
use belay_engine.Detection.Try.{Try, ◌>>◌, Poll, Context, context_check, ok, ◌>>=◌}
use belay_engine.Detection.Groups.{append_to, members, sorted_keys, group_onto}
use belay_engine.Detection.Events.{
  PreparedEvent, PreparedSession, event_type, is_verification_class,
}
use belay_engine.Experience.Model.{before, ℤ-discrete, ExperienceRef-discrete}
use belay_engine.Detection.Attempts.{
  ExplicitOutcome, outcome_eq, is_paired, CommandAttempt, explicit_event_outcome_details,
  event_outcome, normalized_command_class,
}
use belay_engine.Detection.Pairing.{Pairing, is_command, command_attempts}
use belay_engine.Detection.Absence.{
  is_mutation, is_session_end, Absence, session_has_historical_evidence,
  retained_verification_live_compatible,
}
use belay_engine.Detection.Reports.{
  command_failure, tool_failure, repeated_attempts, permission_denial, verification_gap,
  unresolved_failure,
}
use belay_engine.Detection.ToolIdentity.{safe_tool_identity}

abbrev pub Evaluate : Type 0
Evaluate = Context → PreparedSession → Try (List Match)

abbrev pub maybe : Option Match → List Match → List Match
maybe none matches = matches
maybe (some found) matches = found ∷ matches

-- The loop over the sorted keys.
unfoldable pub report_each : Context → ℕ → (Text → Option Match) → List Text → Try (List Match)
unfolding context_check
report_each ctx index report [] = ok []
report_each ctx index report (key ∷ keys) = do
  context_check ctx Poll.reporting index
  rest ← report_each ctx (suc index) report keys
  ok (maybe (report key) rest)

unfoldable pub detect_explicit_command_failures : Evaluate
detect_explicit_command_failures ctx session = do
  attempts ← command_attempts ctx session
  let by_signature =
      group_onto (λ attempt. attempt.signature) []
        (filterb (λ attempt. attempt.outcome == ExplicitOutcome.failed) attempts)
  report_each ctx 0
      (λ signature. some (command_failure session signature (members signature by_signature)))
      (sorted_keys by_signature)

-- The loop over the events, each under its key if it has one.
unfoldable pub group_events_by :
    Context
    → (PreparedEvent → Option Text)
    → ℕ
    → List (Text × List PreparedEvent)
    → List PreparedEvent
    → Try (List (Text × List PreparedEvent))
unfolding context_check append_to
group_events_by ctx key_of index groups [] = ok groups
group_events_by ctx key_of index groups (item ∷ items) =
    context_check ctx Poll.scanning index
    >> group_events_by ctx key_of (suc index)
        (elim (key_of item) [ none ↦ groups | some key ↦ append_to key item groups ]) items

unfoldable pub tool_failure_key : PreparedEvent → Option Text
unfolding explicit_event_outcome_details safe_tool_identity
tool_failure_key item =
    let identity = safe_tool_identity item.event in
    if event_type item != text "tool.result"
      || (event_outcome item).0 != ExplicitOutcome.failed
      || identity == []
    then none
    else some identity

unfoldable pub detect_explicit_tool_failures : Evaluate
detect_explicit_tool_failures ctx session = do
  by_identity ← group_events_by ctx tool_failure_key 0 [] session.events
  report_each ctx 0
      (λ identity. some (tool_failure session identity (members identity by_identity)))
      (sorted_keys by_identity)

unfoldable pub detect_repeated_command_attempts : Evaluate
detect_repeated_command_attempts ctx session = do
  attempts ← command_attempts ctx session
  let by_signature =
      group_onto (λ attempt. attempt.signature) []
        (filterb (λ attempt. attempt.repetition_eligible) attempts)
  report_each ctx 0
      (λ signature. repeated_attempts session signature (members signature by_signature))
      (sorted_keys by_signature)

unfoldable pub permission_key : PreparedEvent → Option Text
unfolding trim_space
permission_key item =
    let class = trim_space item.enrichment.permission_class in
    if event_type item != text "permission.denied"
    then none
    else some (if class == [] then text "permission.unknown" else class)

unfoldable pub detect_permission_denials : Evaluate
detect_permission_denials ctx session = do
  by_class ← group_events_by ctx permission_key 0 [] session.events
  ok (
      map (λ class. permission_denial session class (members class by_class))
        (sorted_keys by_class))

-- The first loop of `detectRetainedVerificationGap` asks whether the context is done.
unfoldable pub scan : Context → ℕ → List PreparedEvent → Try (Unit {0})
unfolding context_check
scan ctx index [] = ok tt
scan ctx index (item ∷ items) = context_check ctx Poll.scanning index >> scan ctx (suc index) items

-- The last index, from `index` on, with the property.
unfoldable pub last_index : (PreparedEvent → Bool) → Option ℕ → ℕ → List PreparedEvent → Option ℕ
last_index p found index [] = found
last_index p found index (item ∷ items) =
    last_index p (if p item then some index else found) (suc index) items

abbrev pub is_verification : PreparedEvent → Bool
unfolding is_verification_class normalized_command_class
is_verification item =
    is_command item
    && is_verification_class (normalized_command_class item.enrichment.command_class)

-- Whether a verification stands behind the last change.
unfoldable pub verified_after : ℕ → ℕ → List PreparedEvent → Bool
verified_after change index [] = false
verified_after change index (item ∷ items) =
    ltb change index && is_verification item || verified_after change (suc index) items

unfoldable pub retained_verification_confidence : PreparedSession → Option Text
unfolding retained_verification_live_compatible
retained_verification_confidence session =
    if session_has_historical_evidence session
    then some (text "low")
    else if retained_verification_live_compatible session
    then some (text "medium")
    else none

abbrev pub gap_report : PreparedSession → PreparedEvent → PreparedEvent → Option Text → List Match
gap_report session mutation terminal none = []
gap_report session mutation terminal (some confidence) =
    verification_gap session confidence mutation terminal ∷ []

-- The report, once the change and the end are found: `before` holds the events before the end.
unfoldable pub report_gap :
    PreparedSession
    → List PreparedEvent
    → ℕ
    → Option PreparedEvent
    → Option PreparedEvent
    → List Match
report_gap session before change (some mutation) (some terminal) =
    if verified_after change 0 before
    then []
    else gap_report session mutation terminal (retained_verification_confidence session)
report_gap session before change _ _ = []

-- The last change before the end, if there is one.
abbrev pub gap_before : PreparedSession → ℕ → Option ℕ → List Match
gap_before session terminal none = []
gap_before session terminal (some change) =
    report_gap session (take terminal session.events) change (get_elem? session.events change)
      (get_elem? session.events terminal)

abbrev pub gap_at : PreparedSession → Option ℕ → List Match
gap_at session none = []
gap_at session (some terminal) =
    gap_before session terminal (last_index is_mutation none 0 (take terminal session.events))

unfoldable pub retained_gap : PreparedSession → List Match
retained_gap session = gap_at session (last_index is_session_end none 0 session.events)

unfoldable pub detect_retained_verification_gap : Evaluate
unfolding scan retained_gap
detect_retained_verification_gap ctx session =
    scan ctx 0 session.events >> ok (retained_gap session)

-- The loop over the attempts of one signature: the failure that no success follows.
unfoldable pub unresolved : Option CommandAttempt → List CommandAttempt → Option CommandAttempt
unresolved found [] = found
unresolved found (attempt ∷ attempts) =
    unresolved
      (if attempt.outcome == ExplicitOutcome.failed
        then some attempt
        else if attempt.outcome == ExplicitOutcome.succeeded
        then none
        else found)
      attempts

unfoldable pub verification_attempt : ℕ → CommandAttempt → Bool
unfolding is_verification_class
verification_attempt terminal attempt =
    ltb attempt.last_pos terminal && is_paired attempt.trust && is_verification_class attempt.class

abbrev pub open_report :
    PreparedSession → Text → PreparedEvent → Option CommandAttempt → Option Match
open_report session signature end_event none = none
open_report session signature end_event (some attempt) =
    some (unresolved_failure session signature end_event attempt)

unfoldable pub report_unresolved :
    Context → PreparedSession → List CommandAttempt → ℕ → Option PreparedEvent → Try (List Match)
report_unresolved ctx session attempts terminal none = ok []
report_unresolved ctx session attempts terminal (some end_event) =
    let by_signature =
      group_onto (λ attempt. attempt.signature) []
        (filterb (verification_attempt terminal) attempts) in
    report_each ctx 0
      (λ signature.
        open_report session signature end_event (unresolved none (members signature by_signature)))
      (sorted_keys by_signature)

unfoldable pub detect_unresolved_verification : Evaluate
detect_unresolved_verification ctx session = do
  attempts ← command_attempts ctx session
  elim (last_index is_session_end none 0 session.events) [
    | none ↦ ok []
    | some terminal ↦
        report_unresolved ctx session attempts terminal (get_elem? session.events terminal)
  ]
