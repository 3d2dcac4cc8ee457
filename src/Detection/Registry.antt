-- ===== src/Detection/Registry.antt =====
-- internal/detection/catalog.go and detectors.go: the catalog and the built-in detectors.
use belay_engine.Prelude.{
  Text, Bool, false, List, [], ◌∷◌, Option, some, none, ℤ, pos, ltb_ℤ, contains, is_blank,
  if◌then◌else◌, trim_space, ◌⊎◌, inl, inr, map, nat_eq, list_eq,
}
use belay_engine.Detection.Types.{CatalogEntry}
use belay_engine.Detection.Try.{Context, ok, err}
use belay_engine.Detection.Durations.{second}
use belay_engine.Detection.Events.{PreparedSession}
use belay_engine.Detection.Absence.{
  Absence, not_applicable_absence, command_absence_capability, tool_failure_absence_capability,
  permission_absence_capability, retained_verification_gap_absence_capability,
  unresolved_verification_absence_capability,
}
use belay_engine.Detection.Reports.{
  command_failure_entry, tool_failure_entry, repeated_attempts_entry, permission_denial_entry,
  verification_gap_entry, unresolved_entry,
}
use belay_engine.Detection.Detectors.{
  Evaluate, detect_explicit_command_failures, detect_explicit_tool_failures,
  detect_repeated_command_attempts, detect_permission_denials, detect_retained_verification_gap,
  detect_unresolved_verification,
}
use belay_engine.Detection.Validation.{Response, Evaluator, Detector}

pub record DetectorSlot : Type 0 where
  pub detector : Detector
  pub running : Bool

-- The timeout is in nanoseconds.
pub record Catalog : Type 0 where
  pub slots : List DetectorSlot
  pub timeout : ℤ

unfoldable pub catalog_from_detectors : List Detector → Catalog
catalog_from_detectors detectors = record {
  slots = map (λ d. record { detector = d; running = false }) detectors;
  timeout = pos second;
}

pub data CatalogError : Type 0 where
  invalid_detector duplicate_detector_id : CatalogError

abbrev pub with_detector : Detector → CatalogError ⊎ List Detector → CatalogError ⊎ List Detector
with_detector d (inl e) = inl e
with_detector d (inr ds) = inr (d ∷ ds)

-- The loop of `NewCatalog`; `none` is a nil detector.
unfoldable pub admit : List Text → List (Option Detector) → CatalogError ⊎ List Detector
unfolding trim_space
admit seen [] = inr []
admit seen (none ∷ rest) = inl CatalogError.invalid_detector
admit seen (some d ∷ rest) =
    let more = with_detector d (admit (d.id ∷ seen) rest) in
    if is_blank d.id
    then inl CatalogError.invalid_detector
    else if contains seen d.id
    then inl CatalogError.duplicate_detector_id
    else more

unfoldable pub new_catalog : List (Option Detector) → CatalogError ⊎ Catalog
unfolding admit catalog_from_detectors
new_catalog detectors = elim (admit [] detectors) [
  | inl e ↦ inl e
  | inr ds ↦ inr (catalog_from_detectors ds)
]

unfoldable pub with_detector_timeout : Catalog → ℤ → Catalog
with_detector_timeout c timeout =
    if ltb_ℤ (pos 0) timeout then record c { timeout = timeout } else c

abbrev pub entry_of : Detector → Option CatalogEntry → CatalogEntry
entry_of d (some builtin) = builtin
entry_of d none = record {
  detector_id = d.id;
  detector_version = d.version;
  fingerprint_version = d.fingerprint_version;
  category = [];
  title_code = [];
  suggested_action_type = [];
  experimental = false;
}

unfoldable pub entries : Catalog → List CatalogEntry
entries c = map (λ slot. entry_of slot.detector slot.detector.builtin) c.slots

-- `evaluatePrepared` of a built-in detector.
unfoldable pub evaluate_prepared : Evaluate → Absence → Context → PreparedSession → Response
evaluate_prepared evaluate absence ctx session = elim (evaluate ctx session) [
  | err e ↦ Response.returned (err e)
  | ok matches ↦ Response.returned (
      ok (record {
        matches = matches;
        absence_capability = (absence session).0;
        unavailable_reason = (absence session).1;
      }))
]

unfoldable pub new_builtin : CatalogEntry → Evaluate → Absence → Detector
unfolding evaluate_prepared
new_builtin e evaluate absence = record {
  id = e.detector_id;
  version = e.detector_version;
  fingerprint_version = e.fingerprint_version;
  builtin = some e;
  evaluate = Evaluator.prepared (evaluate_prepared evaluate absence);
}

unfoldable pub builtin_detectors : List Detector
unfolding new_builtin
builtin_detectors =
    new_builtin command_failure_entry detect_explicit_command_failures command_absence_capability
    ∷ new_builtin tool_failure_entry detect_explicit_tool_failures tool_failure_absence_capability
    ∷ new_builtin repeated_attempts_entry detect_repeated_command_attempts not_applicable_absence
    ∷ new_builtin permission_denial_entry detect_permission_denials permission_absence_capability
    ∷ new_builtin verification_gap_entry detect_retained_verification_gap
        retained_verification_gap_absence_capability
    ∷ new_builtin unresolved_entry detect_unresolved_verification
        unresolved_verification_absence_capability
    ∷ []

unfoldable pub default_catalog : Catalog
unfolding catalog_from_detectors builtin_detectors
default_catalog = catalog_from_detectors builtin_detectors
