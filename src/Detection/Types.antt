-- ===== src/Detection/Types.antt =====
-- internal/detection/types.go. The map of enrichments is an association list.
use belay_engine.Prelude.{ℕ, Text, Bool, List}
use belay_engine.Canonical.Event.{Event}
use belay_engine.Experience.Model.{Time}

pub data AnalysisStatus : Type 0 where
  current failed truncated : AnalysisStatus

pub record EventEnrichment : Type 0 where
  pub command_signature_id : Text
  pub command_class : Text
  pub permission_class : Text
  pub version : Text

pub record SessionInput : Type 0 where
  pub session_id : Text
  pub project_scope : Text
  pub scope_quality : Text
  pub events : List Event
  pub enrichments : List (Text × EventEnrichment)

pub record FingerprintDimension : Type 0 where
  pub name : Text
  pub value : Text

pub record Match : Type 0 where
  pub detector_id : Text
  pub detector_version : Text
  pub fingerprint_version : Text
  pub category : Text
  pub title_code : Text
  pub suggested_action_type : Text
  pub severity : Text
  pub confidence : Text
  pub experimental : Bool
  pub first_observed_at : Time
  pub last_observed_at : Time
  pub cited_event_ids : List Text
  pub evidence_complete : Bool
  pub fingerprint : List FingerprintDimension

pub data AbsenceCapability : Type 0 where
  supported not_applicable incomplete : AbsenceCapability
  other : Text → AbsenceCapability

pub record DetectorResult : Type 0 where
  pub matches : List Match
  pub absence_capability : AbsenceCapability
  pub unavailable_reason : Text

pub record DetectorFailure : Type 0 where
  pub detector_id : Text
  pub code : Text

pub record DetectorApplicability : Type 0 where
  pub detector_id : Text
  pub detector_version : Text
  pub fingerprint_version : Text
  pub absence_capability : AbsenceCapability
  pub unavailable_reason : Text

pub record CatalogResult : Type 0 where
  pub status : AnalysisStatus
  pub matches : List Match
  pub failures : List DetectorFailure
  pub applicability : List DetectorApplicability

pub record CatalogEntry : Type 0 where
  pub detector_id : Text
  pub detector_version : Text
  pub fingerprint_version : Text
  pub category : Text
  pub title_code : Text
  pub suggested_action_type : Text
  pub experimental : Bool

abbrev pub max_session_events : ℕ
max_session_events = 10000

abbrev pub max_matches : ℕ
max_matches = 100

abbrev pub max_citations : ℕ
max_citations = 50
