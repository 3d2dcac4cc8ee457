-- ===== src/Examples/Sessions.antt =====
-- Sessions of canonical events: a failed test, a change and the end.
use belay_engine.Prelude.{ℕ, String, text, true, false, List, [], ◌∷◌, some, none, pos}
use belay_engine.Canonical.Event.{Event}
use belay_engine.Detection.Types.{SessionInput, Match}
use belay_engine.Detection.Try.{background}
use belay_engine.Detection.Events.{PreparedEvent, PreparedSession}
use belay_engine.Detection.Attempts.{
  CommandAttemptTrust, CommandAttempt, new_attempt, merge_attempt,
}
use belay_engine.Detection.Absence.{retained_verification_gap_absence_capability}
use belay_engine.Detection.Reports.{verification_gap_entry, verification_gap}
use belay_engine.Detection.Detectors.{detect_retained_verification_gap}
use belay_engine.Detection.Registry.{new_builtin}
use belay_engine.Detection.Validation.{Detector}
use belay_engine.Detection.Catalog.{Timing}
use belay_engine.Detection.Registry.{new_builtin}

abbrev event : String → String → ℕ → ℕ → Event
event id type sequence at = record {
  schema_version = text "v1";
  event_id = text id;
  installation_id = [];
  occurred_at = at;
  observed_at = at;
  source = record {
    engine = [];
    engine_version = [];
    schema_version = [];
    record_type = [];
    run_id = [];
    record_id = [];
    kind = text "hook";
    agent = text "codex";
    adapter_version = [];
    deduplication_key = [];
    sequence = pos sequence;
  };
  session = record { key = text "s" };
  observation = record {
    type = text type;
    actor = text "agent";
    action = [];
    outcome = [];
    exit_code = none;
    duration_ms = none;
    summary = [];
    resource = none;
    details = none;
  };
  coverage = record { depth = text "tool_call"; confidence = text "high" };
  redaction = record { policy_version = []; fields_removed = pos 0; secrets_removed = pos 0 };
  historical = record { is_historical = false; reconstruction_source = [] };
}

abbrev prepared_as : String → Event → PreparedEvent
prepared_as signature e = record {
  event = e;
  enrichment = record {
    command_signature_id = text signature;
    command_class = text "test";
    permission_class = [];
    version = [];
  };
  evidence_ids = e.event_id ∷ [];
  historical = false;
  live = true;
}

abbrev with_exit : ℕ → Event → Event
with_exit code e = record e { observation = record (e.observation) { exit_code = some (pos code) } }

abbrev pub started : PreparedEvent
started = prepared_as "sig" (event "e1" "command.exec" 1 1000)

abbrev pub failing : PreparedEvent
failing = prepared_as "sig" (with_exit 1 (event "e2" "command.result" 2 2000))

abbrev pub changed : PreparedEvent
changed = prepared_as "" (event "e3" "file.write" 3 3000)

abbrev pub ended : PreparedEvent
ended = prepared_as "" (record (event "e4" "session.end" 4 4000) {
  coverage = record { depth = text "lifecycle"; confidence = text "high" };
})

abbrev pub session : PreparedSession
session = record {
  session_id = text "s";
  project_scope = [];
  scope_quality = text "unscoped";
  events = started ∷ failing ∷ changed ∷ ended ∷ [];
}

-- The test that failed.
unfoldable pub attempt : CommandAttempt
unfolding merge_attempt new_attempt
attempt = merge_attempt failing 1 CommandAttemptTrust.adjacent_pair (new_attempt started 0)

unfoldable pub attempts : List CommandAttempt
unfolding attempt
attempts = attempt ∷ []

-- The historical record of the first event.
abbrev pub recorded : PreparedEvent
recorded = record started {
  event = record (started.event) {
    event_id = text "h1";
    source = record (started.event.source) { kind = text "artifact" };
  };
  evidence_ids = text "h1" ∷ [];
  historical = true;
  live = false;
}

abbrev pub prompt_timing : Timing
prompt_timing = record { context = background; expired = false; parent = none; finished = true }

abbrev pub input : SessionInput
input = record {
  session_id = text "s";
  project_scope = [];
  scope_quality = [];
  events = started.event ∷ failing.event ∷ changed.event ∷ ended.event ∷ [];
  enrichments = [];
}

unfoldable pub gap : Match
unfolding verification_gap
gap = verification_gap session (text "medium") changed ended

unfoldable pub gap_detector : Detector
unfolding new_builtin
gap_detector =
    new_builtin verification_gap_entry detect_retained_verification_gap
      retained_verification_gap_absence_capability
