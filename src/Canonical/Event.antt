-- ===== src/Canonical/Event.antt =====
-- internal/canonical/model/event.go: the canonical event. A pointer is an `Option`.
use belay_engine.Prelude.{Text, Bool, List, Option, ℤ}
use belay_engine.Experience.Model.{Time}

pub record Source : Type 0 where
  pub engine : Text
  pub engine_version : Text
  pub schema_version : Text
  pub record_type : Text
  pub run_id : Text
  pub record_id : Text
  pub kind : Text
  pub agent : Text
  pub adapter_version : Text
  pub deduplication_key : Text
  pub sequence : ℤ

pub record SessionRef : Type 0 where
  pub key : Text

pub record Resource : Type 0 where
  pub kind : Text
  pub name : Text

pub record Details : Type 0 where
  pub tool_call_id : Text
  pub decision : Text
  pub approval_required : Option Bool
  pub approval_decision : Text
  pub mcp_server : Text
  pub mcp_tool : Text
  pub model : Text
  pub model_provider : Text
  pub cli_version : Text
  pub sub_agent : Text
  pub diff_sha256 : Text
  pub diff_bytes : ℤ
  pub tags : List Text

pub record Observation : Type 0 where
  pub type : Text
  pub actor : Text
  pub action : Text
  pub outcome : Text
  pub exit_code : Option ℤ
  pub duration_ms : Option ℤ
  pub summary : Text
  pub resource : Option Resource
  pub details : Option Details

pub record Coverage : Type 0 where
  pub depth : Text
  pub confidence : Text

pub record Redaction : Type 0 where
  pub policy_version : Text
  pub fields_removed : ℤ
  pub secrets_removed : ℤ

pub record Historical : Type 0 where
  pub is_historical : Bool
  pub reconstruction_source : Text

pub record Event : Type 0 where
  pub schema_version : Text
  pub event_id : Text
  pub installation_id : Text
  pub occurred_at : Time
  pub observed_at : Time
  pub source : Source
  pub session : SessionRef
  pub observation : Observation
  pub coverage : Coverage
  pub redaction : Redaction
  pub historical : Historical
