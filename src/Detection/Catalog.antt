-- ===== src/Detection/Catalog.antt =====
-- internal/detection/catalog.go: the run of a catalog over a session.
pub mod Reported
pub mod Outcome
use belay_engine.Prelude.{
  ℕ, ◌/◌, suc, Text, text, Bool, true, false, not, List, [], ◌∷◌, ◌++◌, Option, some, none, ltb,
  is_empty, if◌then◌else◌, when, each, length, ◌+◌, ◌-◌, map,
}
use belay_engine.Canonical.Event.{Event}
use belay_engine.Detection.Types.{
  AnalysisStatus, SessionInput, Match, AbsenceCapability, DetectorResult, DetectorFailure,
  DetectorApplicability, CatalogResult, max_matches,
}
use belay_engine.Detection.Try.{ContextError, DetectionError, Try, Context, ok, err}
use belay_engine.Detection.Events.{PreparedSession}
use belay_engine.Experience.Model.{before, ℤ-discrete, ExperienceRef-discrete, Experience}
use belay_engine.Detection.Pairing.{Pairing}
use belay_engine.Detection.Absence.{Absence}
use belay_engine.Detection.Validation.{
  Response, Evaluator, Detector, validate_match, duplicate_match, sort_matches,
}
use belay_engine.Detection.Prepare.{prepare_session, public_input}
use belay_engine.Detection.Registry.{DetectorSlot, Catalog}

-- What the clock and the scheduler decide while one detector runs: what its loops see of the
-- context, whether the context is done before the response, the error of the parent context, and
-- whether the goroutine has ended when the context is done.
pub record Timing : Type 0 where
  pub context : Context
  pub expired : Bool
  pub parent : Option ContextError
  pub finished : Bool

abbrev pub context_code : ContextError → Text
context_code ContextError.canceled = text "detector_canceled"
context_code ContextError.deadline_exceeded = text "detector_timeout"

unfoldable pub failure_code : DetectionError → Text
failure_code (DetectionError.context e) = context_code e
failure_code _ = text "detector_error"

-- The code for a detector that gives no response.
abbrev pub expiry_code : Option ContextError → Text
expiry_code none = text "detector_timeout"
expiry_code (some e) = context_code e

pub data Ran : Type 0 where
  completed : DetectorResult → Ran
  stopped : Text → Ran

abbrev pub is_capability : AbsenceCapability → Bool
is_capability (AbsenceCapability.other _) = false
is_capability _ = true

unfoldable pub respond : Response → Ran
unfolding failure_code
respond Response.panicked = Ran.stopped (text "detector_panic")
respond (Response.returned (err e)) = Ran.stopped (failure_code e)
respond (Response.returned (ok result)) =
    if is_capability result.absence_capability
    then Ran.completed result
    else Ran.stopped (text "detector_invalid_output")

unfoldable pub call : Evaluator → Context → PreparedSession → Response
unfolding public_input
call (Evaluator.prepared f) ctx session = f ctx session
call (Evaluator.public f) ctx session = f ctx (public_input session)

-- `runDetector`, with `tryStart` and `finish`: what it returns, and the slot behind it.
unfoldable pub run_detector : Timing → DetectorSlot → PreparedSession → Ran × DetectorSlot
unfolding respond call
run_detector t slot session =
    if slot.running
    then (Ran.stopped (expiry_code t.parent), slot)
    else if t.expired
    then (Ran.stopped (expiry_code t.parent), record slot { running = not t.finished })
    else (respond (call slot.detector.evaluate t.context session), slot)

abbrev pub empty_result : AnalysisStatus → CatalogResult
empty_result status = record { status = status; matches = []; failures = []; applicability = [] }

abbrev pub failure : Text → Text → DetectorFailure
failure id code = record { detector_id = id; code = code }

abbrev pub applicability_of : Detector → AbsenceCapability → Text → DetectorApplicability
applicability_of d capability reason = record {
  detector_id = d.id;
  detector_version = d.version;
  fingerprint_version = d.fingerprint_version;
  absence_capability = capability;
  unavailable_reason = reason;
}

abbrev pub without_absence : DetectorApplicability → DetectorApplicability
without_absence a = record a {
  absence_capability = AbsenceCapability.incomplete;
  unavailable_reason = text "catalog_truncated";
}

-- The result for more matches than a catalog may return.
unfoldable pub truncate : CatalogResult → CatalogResult
truncate r = record {
  status = AnalysisStatus.truncated;
  matches = [];
  failures = [];
  applicability = map without_absence r.applicability;
}

-- What the loop does with a match that was checked; `rest` is the loop over those that follow.
unfoldable pub add_checked :
    Detector
    → CatalogResult
    → (CatalogResult → CatalogResult × Bool)
    → Option Match
    → CatalogResult × Bool
unfolding truncate
add_checked d r rest none = (
  record r { failures = r.failures ++ failure d.id (text "detector_invalid_output") ∷ [] },
  false,
)
add_checked d r rest (some valid) =
    let added = record r { matches = r.matches ++ valid ∷ [] } in
    if ltb max_matches (length added.matches) then (truncate added, true) else rest added

-- The loop over the matches of one detector, and whether the run ends there.
unfoldable pub add_matches : Detector → CatalogResult → List Match → CatalogResult × Bool
unfolding validate_match add_checked
add_matches d r [] = (r, false)
add_matches d r (m ∷ ms) = add_checked d r (λ added. add_matches d added ms) (validate_match d m)

-- One round of the loop over the slots.
unfoldable pub record_run : Detector → CatalogResult → Ran → CatalogResult × Bool
unfolding add_matches
record_run d r (Ran.stopped code) = (
  record r {
    failures = r.failures ++ failure d.id code ∷ [];
    applicability = r.applicability ++ applicability_of d AbsenceCapability.incomplete code ∷ [];
  },
  false,
)
record_run d r (Ran.completed result) =
    add_matches d
      (record r {
        applicability =
            r.applicability
            ++ applicability_of d result.absence_capability result.unavailable_reason ∷ [];
      })
      result.matches

-- The rest of the run, unless it ended with this slot.
abbrev pub proceed :
    CatalogResult × Bool
    → DetectorSlot
    → List DetectorSlot
    → (CatalogResult → (CatalogResult × Bool) × List DetectorSlot)
    → (CatalogResult × Bool) × List DetectorSlot
proceed (r, true) slot slots rest = ((r, true), slot ∷ slots)
proceed (r, false) slot slots rest = ((rest r).0, slot ∷ (rest r).1)

-- The loop over the slots, and the slots behind it.
unfoldable pub run_slots :
    (ℕ → Timing)
    → PreparedSession
    → ℕ
    → CatalogResult
    → List DetectorSlot
    → (CatalogResult × Bool) × List DetectorSlot
unfolding run_detector record_run
run_slots timing session index r [] = ((r, false), [])
run_slots timing session index r (slot ∷ slots) =
    let (ran, slot') = run_detector (timing index) slot session in
    proceed (record_run slot.detector r ran) slot' slots
      (λ recorded. run_slots timing session (suc index) recorded slots)

-- What stands behind the loop.
unfoldable pub close_run : CatalogResult → CatalogResult
unfolding duplicate_match sort_matches
close_run r =
    if not (is_empty r.failures)
    then record r { status = AnalysisStatus.failed; matches = [] }
    else if duplicate_match r.matches
    then record r {
      status = AnalysisStatus.failed;
      matches = [];
      failures = failure [] (text "detector_invalid_output") ∷ [];
    }
    else record r { matches = sort_matches r.matches }

unfoldable pub finished : CatalogResult × Bool → CatalogResult
unfolding close_run
finished (r, ended) = if ended then r else close_run r

unfoldable pub refused : DetectionError → CatalogResult
unfolding failure_code
refused DetectionError.session_limit = empty_result AnalysisStatus.truncated
refused e = record (empty_result AnalysisStatus.failed) {
  failures = failure [] (failure_code e) ∷ [];
}

-- The run over a session, if it could be prepared.
unfoldable pub run_prepared : (ℕ → Timing) → Catalog → Try PreparedSession → CatalogResult × Catalog
unfolding refused run_slots finished
run_prepared timing c (err e) = (refused e, c)
run_prepared timing c (ok session) =
    let (r, slots) = run_slots timing session 0 (empty_result AnalysisStatus.current) c.slots in
    (finished r, record c { slots = slots })

-- `Catalog.Run`: a nil context is `none`; `timing` gives the timing of each slot.
unfoldable pub run :
    (ℕ → Timing) → Catalog → Option Context → SessionInput → CatalogResult × Catalog
unfolding prepare_session run_prepared
run timing c none input = (
  record (empty_result AnalysisStatus.failed) {
    failures = failure [] (text "detector_canceled") ∷ [];
  },
  c,
)
run timing c (some ctx) input = run_prepared timing c (prepare_session ctx input)
