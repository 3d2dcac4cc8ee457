-- ===== src/Detection/Prepare.antt =====
-- internal/detection/prepare.go: `prepareSession` and `publicInput`. That a context is nil stands in
-- the caller.
use belay_engine.Prelude.{
  ℕ, suc, Text, text, ◌&&◌, ◌||◌, not, List, [], ◌∷◌, Option, some, none, ltb, ◌==◌, ◌!=◌, is_blank,
  length, trim_space, to_lower, map, nat_eq, list_eq,
}
use belay_engine.Canonical.Event.{Event}
use belay_engine.Detection.Types.{EventEnrichment, SessionInput, max_session_events}
use belay_engine.Detection.Try.{
  DetectionError, Try, fail_if, Poll, Context, context_check, ok, ◌>>◌, ◌>>=◌,
}
use belay_engine.Detection.Groups.{lookup}
use belay_engine.Detection.Events.{PreparedEvent, PreparedSession, sort_prepared_events}
use belay_engine.Detection.Merge.{coalesce_events}

abbrev pub no_enrichment : EventEnrichment
no_enrichment = record {
  command_signature_id = [];
  command_class = [];
  permission_class = [];
  version = [];
}

abbrev pub or_no_enrichment : Option EventEnrichment → EventEnrichment
or_no_enrichment none = no_enrichment
or_no_enrichment (some enrichment) = enrichment

unfoldable pub prepared_event : SessionInput → Event → PreparedEvent
unfolding lookup
prepared_event input event = record {
  event = event;
  enrichment = or_no_enrichment (lookup event.event_id input.enrichments);
  evidence_ids = event.event_id ∷ [];
  historical = event.historical.is_historical || event.source.kind == text "artifact";
  live = not event.historical.is_historical && event.source.kind == text "hook";
}

-- The loop over the events.
unfoldable pub prepare_events : Context → SessionInput → ℕ → List Event → Try (List PreparedEvent)
unfolding context_check prepared_event
prepare_events ctx input index [] = ok []
prepare_events ctx input index (event ∷ events) = do
  context_check ctx Poll.preparing index
  fail_if (event.session.key != [] && event.session.key != input.session_id)
      DetectionError.invalid_session
  rest ← prepare_events ctx input (suc index) events
  ok (prepared_event input event ∷ rest)

unfoldable pub prepare_session : Context → SessionInput → Try PreparedSession
unfolding prepare_events sort_prepared_events coalesce_events trim_space to_lower
prepare_session ctx input = do
  fail_if (is_blank input.session_id) DetectionError.invalid_session
  fail_if (ltb max_session_events (length input.events)) DetectionError.session_limit
  events ← prepare_events ctx input 0 input.events
  ok (record {
    session_id = input.session_id;
    project_scope = trim_space input.project_scope;
    scope_quality = to_lower (trim_space input.scope_quality);
    events = coalesce_events ctx (sort_prepared_events events);
  })

-- The map that `publicInput` builds: the last event with an identifier decides.
unfoldable pub public_enrichments :
    List (Text × EventEnrichment) → List PreparedEvent → List (Text × EventEnrichment)
public_enrichments written [] = written
public_enrichments written (item ∷ items) =
    public_enrichments ((item.event.event_id, item.enrichment) ∷ written) items

unfoldable pub public_input : PreparedSession → SessionInput
unfolding public_enrichments
public_input session = record {
  session_id = session.session_id;
  project_scope = session.project_scope;
  scope_quality = session.scope_quality;
  events = map (λ item. item.event) session.events;
  enrichments = public_enrichments [] session.events;
}
