-- ===== src/Detection/Merge.antt =====
-- internal/detection/coalesce.go: the merge of two records, and `coalesceEvents`.
pub mod Merged
pub mod Evidence
use belay_engine.Prelude.{
  ℕ, ◌/◌, suc, Text, text, ◌||◌, List, [], ◌∷◌, ◌++◌, Option, some, none, ltb, ◌==◌, contains,
  if◌then◌else◌, ◌+◌, text_ltb, sort, compact, get_elem?, ◌-◌, nat_eq, list_eq,
}
use belay_engine.Canonical.Event.{Event}
use belay_engine.Detection.Types.{EventEnrichment}
use belay_engine.Detection.Try.{Try, ◌>>◌, Poll, Context, context_check, ok, err}
use belay_engine.Detection.Groups.{append_to}
use belay_engine.Detection.Durations.{second}
use belay_engine.Detection.Events.{PreparedEvent, sort_prepared_events, event_tool_call_id}
use belay_engine.Detection.Coalesce.{
  SourceKind, CoalesceCandidate, coalesce_source, coalesce_identity, Paired, partner, pair_groups,
}
use belay_engine.Experience.Model.{ℤ-discrete, ExperienceRef-discrete}

unfoldable pub coverage_rank : PreparedEvent → ℕ
coverage_rank item =
    let depth = item.event.coverage.depth in
    let confidence = item.event.coverage.confidence in
    (if depth == text "full"
      then 50
      else if depth == text "tool_call"
      then 40
      else if depth == text "lifecycle"
      then 30
      else if depth == text "otlp"
      then 20
      else if depth == text "artifact"
      then 10
      else 0)
    + (if confidence == text "high"
        then 3
        else if confidence == text "medium"
        then 2
        else if confidence == text "low"
        then 1
        else 0)

-- `if primary == "" { primary = secondary }`
abbrev pub or_else : Text → Text → Text
or_else primary secondary = if primary == [] then secondary else primary

unfoldable pub merge_enrichment : EventEnrichment → EventEnrichment → EventEnrichment
merge_enrichment primary secondary = record {
  command_signature_id = or_else primary.command_signature_id secondary.command_signature_id;
  command_class = or_else primary.command_class secondary.command_class;
  permission_class = or_else primary.permission_class secondary.permission_class;
  version = or_else primary.version secondary.version;
}

-- `mergeCoalesced`, once it is known which of the two is retained.
unfoldable pub merge_into : PreparedEvent → PreparedEvent → PreparedEvent
unfolding merge_enrichment
merge_into retained other = record retained {
  evidence_ids = compact (sort text_ltb (retained.evidence_ids ++ other.evidence_ids));
  enrichment = merge_enrichment retained.enrichment other.enrichment;
  historical = retained.historical || other.historical;
  live = retained.live || other.live;
}

unfoldable pub merge_coalesced : PreparedEvent → PreparedEvent → PreparedEvent
unfolding merge_into coverage_rank
merge_coalesced left right =
    if ltb (coverage_rank left) (coverage_rank right)
    then merge_into right left
    else merge_into left right

unfoldable pub candidate_of : ℕ → PreparedEvent → SourceKind → CoalesceCandidate
unfolding event_tool_call_id
candidate_of index item source_kind = record {
  index = index;
  source_kind = source_kind;
  tool_call_id = event_tool_call_id item.event;
  command_signature = item.enrichment.command_signature_id;
  at = item.event.occurred_at;
}

abbrev pub Groups : Type 0
Groups = List (Text × List CoalesceCandidate)

-- One round of the first loop.
unfoldable pub group_one : ℕ → PreparedEvent → Groups → Groups
unfolding coalesce_identity coalesce_source candidate_of append_to
group_one index item groups = elim (coalesce_source item) [
  | none ↦ groups
  | some source_kind ↦
      if coalesce_identity item == []
      then groups
      else append_to (coalesce_identity item) (candidate_of index item source_kind) groups
]

unfoldable pub group_events : Context → ℕ → Groups → List PreparedEvent → Try Groups
unfolding group_one context_check
group_events ctx index groups [] = ok groups
group_events ctx index groups (item ∷ items) =
    context_check ctx Poll.coalescing index
    >> group_events ctx (suc index) (group_one index item groups) items

-- `result = append(result, mergeCoalesced(item, events[opposite]))`; the index is in range.
unfoldable pub merge_with : Option PreparedEvent → PreparedEvent → PreparedEvent
unfolding merge_coalesced
merge_with none item = item
merge_with (some opposite) item = merge_coalesced item opposite

-- The second loop, over the events from `index` on.
unfoldable pub emit :
    List PreparedEvent → Paired → List ℕ → ℕ → List PreparedEvent → List PreparedEvent
unfolding merge_with
emit events paired consumed index [] = []
emit events paired consumed index (item ∷ items) =
    let skip = emit events paired consumed (suc index) items in
    if contains consumed index then skip else elim (partner index paired) [
      | none ↦ item ∷ emit events paired consumed (suc index) items
      | some opposite ↦
          merge_with (get_elem? events opposite) item
          ∷ emit events paired (opposite ∷ index ∷ consumed) (suc index) items
    ]

-- A context that is done leaves the events as they are.
unfoldable pub coalesced : List PreparedEvent → Try Groups → List PreparedEvent
unfolding pair_groups emit sort_prepared_events
coalesced events (err _) = events
coalesced events (ok groups) =
    sort_prepared_events (emit events (pair_groups [] groups) [] 0 events)

unfoldable pub coalesce_events : Context → List PreparedEvent → List PreparedEvent
unfolding coalesced group_events
coalesce_events ctx events = coalesced events (group_events ctx 0 [] events)
