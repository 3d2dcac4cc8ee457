-- ===== src/Detection/Absence.antt =====
-- internal/detection/detectors.go: what a detector that reports nothing says about absence.
pub mod Agents
pub mod Loop
pub mod Covered
use belay_engine.Prelude.{
  String, Text, text, Bool, false, ◌&&◌, ◌||◌, not, List, [], ◌∷◌, ◌==◌, ◌!=◌, if◌then◌else◌, any,
  nat_eq, list_eq,
}
use belay_engine.Detection.Types.{AbsenceCapability}
use belay_engine.Detection.Events.{PreparedEvent, PreparedSession, event_type}

abbrev pub from_hook : PreparedEvent → Bool
from_hook item = item.event.source.kind == text "hook"

abbrev pub has_depth : String → PreparedEvent → Bool
has_depth depth item = item.event.coverage.depth == text depth

abbrev pub known_harness : Text → Bool
known_harness agent = agent == text "codex" || agent == text "claude-code"

abbrev pub is_mutation : PreparedEvent → Bool
is_mutation item = event_type item == text "file.write" || event_type item == text "file.delete"

abbrev pub is_session_end : PreparedEvent → Bool
is_session_end item = event_type item == text "session.end"

abbrev pub Absence : Type 0
Absence = PreparedSession → AbsenceCapability × Text

unfoldable pub not_applicable_absence : Absence
not_applicable_absence session = (AbsenceCapability.not_applicable, text "experimental_detector")

unfoldable pub command_absence_capability : Absence
command_absence_capability session =
    if any
      (λ item.
        not item.historical
        && (event_type item == text "command.exec" || event_type item == text "command.result")
        && from_hook item
        && has_depth "tool_call" item)
      session.events
    then (AbsenceCapability.supported, [])
    else (AbsenceCapability.not_applicable, text "command_coverage_unavailable")

unfoldable pub tool_failure_absence_capability : Absence
tool_failure_absence_capability session =
    (AbsenceCapability.incomplete, text "tool_failure_absence_unsupported")

unfoldable pub permission_absence_capability : Absence
permission_absence_capability session =
    if any (λ item. not item.historical && from_hook item && known_harness item.event.source.agent)
      session.events
    then (AbsenceCapability.supported, [])
    else (AbsenceCapability.not_applicable, text "permission_coverage_unavailable")

abbrev pub session_has_historical_evidence : PreparedSession → Bool
session_has_historical_evidence session = any (λ item. item.historical) session.events

-- The variables of `retainedVerificationLiveCompatible`.
pub record Live : Type 0 where
  pub harness : Text
  pub mutation : Bool
  pub terminal : Bool

abbrev pub is_compatible : Live → Bool
is_compatible v = known_harness v.harness && v.mutation && v.terminal

-- The `switch` on the type of an event from a hook.
unfoldable pub observe : Live → PreparedEvent → Live
observe v item =
    if not (from_hook item)
    then v
    else if is_mutation item
    then record v { mutation = v.mutation || has_depth "tool_call" item }
    else if is_session_end item
    then record v { terminal = v.terminal || has_depth "lifecycle" item }
    else v

abbrev pub with_harness : Live → Text → Live
with_harness v agent = if v.harness == [] then record v { harness = agent } else v

unfoldable pub live_compatible : Live → List PreparedEvent → Bool
unfolding observe
live_compatible v [] = is_compatible v
live_compatible v (item ∷ items) =
    let agent = item.event.source.agent in
    let known = with_harness v agent in
    let rest = live_compatible (observe known item) items in
    if item.historical
    then false
    else if agent != [] && v.harness != [] && v.harness != agent
    then false
    else rest

unfoldable pub retained_verification_live_compatible : PreparedSession → Bool
unfolding live_compatible
retained_verification_live_compatible session =
    live_compatible (record { harness = []; mutation = false; terminal = false }) session.events

unfoldable pub retained_verification_gap_absence_capability : Absence
unfolding retained_verification_live_compatible
retained_verification_gap_absence_capability session =
    if session_has_historical_evidence session
    then (AbsenceCapability.incomplete, text "historical_verification_absence_unsupported")
    else if retained_verification_live_compatible session
    then (AbsenceCapability.supported, [])
    else (AbsenceCapability.not_applicable, text "verification_coverage_unavailable")

unfoldable pub unresolved_verification_absence_capability : Absence
unresolved_verification_absence_capability session =
    if any
      (λ item.
        not item.historical && is_session_end item && from_hook item && has_depth "lifecycle" item)
      session.events
    then (AbsenceCapability.supported, [])
    else (AbsenceCapability.incomplete, text "session_completion_unavailable")
