-- ===== src/Detection/Reports.antt =====
-- internal/detection/detectors.go: the matches that the detectors build.
use belay_engine.Prelude.{
  ℕ, String, Text, text, Bool, true, false, List, [], ◌∷◌, ◌++◌, Option, some, none, ltb, leb, ◌==◌,
  ◌!=◌, if◌then◌else◌, length, any, all, filterb, flat_map, nat_beq, nat_eq, list_eq,
}
use belay_engine.Detection.Types.{FingerprintDimension, Match, CatalogEntry}
use belay_engine.Detection.Events.{
  PreparedEvent, PreparedSession, earlier, later, event_time_bounds, dimensions, citation_ids,
}
use belay_engine.Experience.Model.{Time}
use belay_engine.Detection.Attempts.{is_paired, failure_confidence, CommandAttempt}

abbrev builtin_version : Text
builtin_version = text "1.0.0"

-- The entry that `newBuiltin` makes.
abbrev entry : String → String → String → String → Bool → CatalogEntry
entry id category title_code action experimental = record {
  detector_id = text id;
  detector_version = builtin_version;
  fingerprint_version = text "1";
  category = text category;
  title_code = text title_code;
  suggested_action_type = text action;
  experimental = experimental;
}

abbrev pub command_failure_entry : CatalogEntry
command_failure_entry =
    entry "explicit_command_failure" "command_failure" "issue.explicit_command_failure"
      "inspect_command_failure" false

abbrev pub tool_failure_entry : CatalogEntry
tool_failure_entry =
    entry "explicit_tool_failure" "tool_failure" "issue.explicit_tool_failure"
      "inspect_cited_events" false

abbrev pub repeated_attempts_entry : CatalogEntry
repeated_attempts_entry =
    entry "repeated_command_attempts" "attention" "issue.repeated_command_attempts"
      "inspect_repeated_attempts" true

abbrev pub permission_denial_entry : CatalogEntry
permission_denial_entry =
    entry "explicit_permission_denial" "permission" "issue.explicit_permission_denial"
      "review_permission_boundary" false

abbrev pub verification_gap_entry : CatalogEntry
verification_gap_entry =
    entry "retained_verification_gap_after_changes" "evidence_gap"
      "issue.retained_verification_gap_after_changes" "inspect_cited_events" false

abbrev pub unresolved_entry : CatalogEntry
unresolved_entry =
    entry "unresolved_verification_failure_at_completion" "unresolved_verification"
      "issue.unresolved_verification_failure_at_completion" "rerun_verification" false

-- `builtinMatch`, for the entry that `builtinEntry` finds under the detector's identifier.
unfoldable pub builtin_match :
    PreparedSession
    → CatalogEntry
    → String
    → Text
    → Time × Time
    → List PreparedEvent
    → List FingerprintDimension
    → Match
unfolding citation_ids dimensions
builtin_match session e severity confidence (first, last) evidence fingerprint =
    let (citations, complete) = citation_ids evidence in
    record {
      detector_id = e.detector_id;
      detector_version = e.detector_version;
      fingerprint_version = e.fingerprint_version;
      category = e.category;
      title_code = e.title_code;
      suggested_action_type = e.suggested_action_type;
      severity = text severity;
      confidence = confidence;
      experimental = e.experimental;
      first_observed_at = first;
      last_observed_at = last;
      cited_event_ids = citations;
      evidence_complete = complete;
      fingerprint = dimensions session fingerprint;
    }

-- The loop of `attemptBounds`.
attempt_bounds_onto : Time → Time → List CommandAttempt → Time × Time
attempt_bounds_onto first last [] = (first, last)
attempt_bounds_onto first last (attempt ∷ attempts) =
    attempt_bounds_onto (earlier first attempt.first) (later last attempt.last) attempts

unfoldable pub attempt_bounds : List CommandAttempt → Time × Time
unfolding attempt_bounds_onto
attempt_bounds [] = (0, 0)
attempt_bounds (attempt ∷ attempts) = attempt_bounds_onto attempt.first attempt.last attempts

abbrev pub dimension : String → Text → FingerprintDimension
dimension name value = record { name = text name; value = value }

-- The events of all attempts.
abbrev pub evidence_of : List CommandAttempt → List PreparedEvent
evidence_of attempts = flat_map (λ attempt. attempt.events) attempts

-- `failedCount`, which is at least one.
unfoldable pub failed_count : List CommandAttempt → ℕ
failed_count failed =
    let count = length (filterb (λ attempt. attempt.repetition_eligible) failed) in
    if nat_beq count 0 then 1 else count

-- The match for the failed attempts of one signature.
unfoldable pub command_failure : PreparedSession → Text → List CommandAttempt → Match
unfolding builtin_match attempt_bounds failed_count
command_failure session signature failed =
    builtin_match session command_failure_entry
      (if leb 3 (failed_count failed) then "medium" else "low")
      (if any (λ attempt. failure_confidence attempt.trust != text "high") failed
        then text "low"
        else text "high")
      (attempt_bounds failed) (evidence_of failed) (dimension "command_signature_id" signature ∷ [])

-- The match for the failed results of one tool.
unfoldable pub tool_failure : PreparedSession → Text → List PreparedEvent → Match
unfolding builtin_match event_time_bounds
tool_failure session identity evidence =
    builtin_match session tool_failure_entry (if leb 3 (length evidence) then "medium" else "low")
      (text "high") (event_time_bounds evidence) evidence (dimension "tool_identity" identity ∷ [])

-- The match for four attempts of one signature, or more.
unfoldable pub repeated_attempts : PreparedSession → Text → List CommandAttempt → Option Match
unfolding builtin_match attempt_bounds
repeated_attempts session signature repeated =
    if ltb (length repeated) 4
    then none
    else some (
        builtin_match session repeated_attempts_entry "info"
          (if all (λ attempt. is_paired attempt.trust) repeated then text "medium" else text "low")
          (attempt_bounds repeated) (evidence_of repeated)
          (dimension "command_signature_id" signature ∷ []))

-- The match for the denials of one class.
unfoldable pub permission_denial : PreparedSession → Text → List PreparedEvent → Match
unfolding builtin_match event_time_bounds
permission_denial session class evidence =
    builtin_match session permission_denial_entry "low"
      (if class == text "permission.unknown" then text "medium" else text "high")
      (event_time_bounds evidence) evidence (dimension "permission_class" class ∷ [])

-- The match for a last change and the end of the session.
unfoldable pub verification_gap : PreparedSession → Text → PreparedEvent → PreparedEvent → Match
unfolding builtin_match
verification_gap session confidence mutation terminal =
    builtin_match session verification_gap_entry "info" confidence
      (mutation.event.occurred_at, terminal.event.occurred_at) (mutation ∷ terminal ∷ [])
      (dimension "verification_gap" (text "retained_after_final_change") ∷ [])

-- The match for a failed verification that nothing resolved.
unfoldable pub unresolved_failure : PreparedSession → Text → PreparedEvent → CommandAttempt → Match
unfolding builtin_match
unresolved_failure session signature terminal attempt =
    builtin_match session unresolved_entry "high" (text "high")
      (attempt.first, terminal.event.occurred_at) (attempt.events ++ terminal ∷ [])
      (dimension "command_class" attempt.class ∷ dimension "command_signature_id" signature ∷ [])
