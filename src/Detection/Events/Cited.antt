-- ===== src/Detection/Events/Cited.antt =====
-- The identifiers that `citationIDs` collects.
use mathlib.Core.Path.{subst}
use mathlib.Core.Path.{subst}
use belay_engine.Prelude.{
  Text, true, false, List, [], length, flat_map, ◌≡◌, ◌≢◌, ◌⊎◌, ◌≤◌, In, Distinct, nat_eq, list_eq,
}
use belay_engine.Detection.Events.{PreparedEvent, Citations}
use belay_engine.Detection.Types.{max_citations}

-- The variables after the identifiers in `Done`.
record IsCited (Done : Text → Type 0) (c : Citations) : Type 0 where
  distinct : Distinct c.result
  bounded : length c.result ≤ max_citations
  sound : (id : Text) → In id c.result → In id c.seen
  seen_sound : (id : Text) → In id c.seen → Done id × (id ≢ [])
  seen_complete : (id : Text) → Done id → id ≢ [] → In id c.seen
  all_cited : c.complete ≡ true → (id : Text) → In id c.seen → In id c.result
  full : c.complete ≡ false → length c.result ≡ max_citations

module _ (Done : Text → Type 0) (c : Citations) (id : Text) (v : IsCited Done c) where
  abbrev DoneWith : Text → Type 0
  DoneWith x = Done x ⊎ (x ≡ id)

abbrev pub evidence_ids_of : List PreparedEvent → List Text
evidence_ids_of items = flat_map (λ item. item.evidence_ids) items
