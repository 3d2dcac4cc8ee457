-- ===== src/Detection/Events.antt =====
-- internal/detection/prepare.go: prepared events, their order, and what is read off them.
pub mod Cited
use belay_engine.Prelude.{
  Text, text, Bool, true, false, ◌&&◌, ◌||◌, List, [], ◌∷◌, ◌++◌, Option, some, none, ◌==◌, ◌!=◌,
  ltb_ℤ, contains, if◌then◌else◌, length, trim_space, text_ltb, sort, nat_beq, nat_eq, list_eq,
  int_eq,
}
use belay_engine.Canonical.Event.{Details, Event}
use belay_engine.Detection.Types.{EventEnrichment, FingerprintDimension, max_citations}
use belay_engine.Experience.Model.{Time, before, after}

pub record PreparedEvent : Type 0 where
  pub event : Event
  pub enrichment : EventEnrichment
  pub evidence_ids : List Text
  pub historical : Bool
  pub live : Bool

pub record PreparedSession : Type 0 where
  pub session_id : Text
  pub project_scope : Text
  pub scope_quality : Text
  pub events : List PreparedEvent

-- The order of `sortPreparedEvents`.
unfoldable pub event_ltb : PreparedEvent → PreparedEvent → Bool
event_ltb l r =
    let left = l.event in
    let right = r.event in
    if left.source.sequence != right.source.sequence
    then ltb_ℤ left.source.sequence right.source.sequence
    else if left.occurred_at != right.occurred_at
    then before left.occurred_at right.occurred_at
    else text_ltb left.event_id right.event_id

unfoldable pub sort_prepared_events : List PreparedEvent → List PreparedEvent
unfolding event_ltb
sort_prepared_events events = sort event_ltb events

abbrev pub event_type : PreparedEvent → Text
event_type item = item.event.observation.type

-- `eventToolCallID`
abbrev pub tool_call_id_of : Option Details → Text
unfolding trim_space
tool_call_id_of none = []
tool_call_id_of (some details) = trim_space details.tool_call_id

unfoldable pub event_tool_call_id : Event → Text
event_tool_call_id event = tool_call_id_of event.observation.details

abbrev pub earlier : Time → Time → Time
earlier t u = if before u t then u else t

abbrev pub later : Time → Time → Time
later t u = if after u t then u else t

-- The loop of `eventTimeBounds`.
bounds_onto : Time → Time → List PreparedEvent → Time × Time
bounds_onto first last [] = (first, last)
bounds_onto first last (item ∷ items) =
    bounds_onto (earlier first item.event.occurred_at) (later last item.event.occurred_at) items

unfoldable pub event_time_bounds : List PreparedEvent → Time × Time
unfolding bounds_onto
event_time_bounds [] = (0, 0)
event_time_bounds (item ∷ items) = bounds_onto item.event.occurred_at item.event.occurred_at items

unfoldable pub scope_dimensions : PreparedSession → List FingerprintDimension
scope_dimensions session =
    if session.project_scope != []
      && session.scope_quality != text "unscoped"
      && session.scope_quality != text "conflict"
    then record { name = text "project_scope_id"; value = session.project_scope } ∷ []
    else record { name = text "session_id"; value = session.session_id } ∷ []

unfoldable pub dimension_ltb : FingerprintDimension → FingerprintDimension → Bool
dimension_ltb left right =
    if left.name != right.name
    then text_ltb left.name right.name
    else text_ltb left.value right.value

unfoldable pub dimensions : PreparedSession → List FingerprintDimension → List FingerprintDimension
unfolding scope_dimensions dimension_ltb
dimensions session values = sort dimension_ltb (scope_dimensions session ++ values)

-- The variables of `citationIDs`; `seen` holds the keys of the map.
pub record Citations : Type 0 where
  pub seen : List Text
  pub result : List Text
  pub complete : Bool

unfoldable pub cite_id : Citations → Text → Citations
cite_id c event_id =
    if event_id == [] || contains c.seen event_id
    then c
    else if nat_beq (length c.result) max_citations
    then record c { seen = event_id ∷ c.seen; complete = false }
    else record c { seen = event_id ∷ c.seen; result = c.result ++ event_id ∷ [] }

unfoldable pub cite_all : Citations → List Text → Citations
unfolding cite_id
cite_all c [] = c
cite_all c (event_id ∷ ids) = cite_all (cite_id c event_id) ids

unfoldable pub cite_events : Citations → List PreparedEvent → Citations
unfolding cite_all
cite_events c [] = c
cite_events c (item ∷ items) = cite_events (cite_all c (sort text_ltb item.evidence_ids)) items

unfoldable pub citation_ids : List PreparedEvent → List Text × Bool
unfolding cite_events
citation_ids events =
    let c = cite_events (record { seen = []; result = []; complete = true }) events in
    (c.result, c.complete)

unfoldable pub is_verification_class : Text → Bool
is_verification_class value =
    contains
      (text "test" ∷ text "build" ∷ text "typecheck" ∷ text "lint" ∷ text "format_check" ∷ []) value
