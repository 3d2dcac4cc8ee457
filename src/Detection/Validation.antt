-- ===== src/Detection/Validation.antt =====
-- internal/detection/catalog.go: the checks and the normal form of a detector's matches.
pub mod Checked
pub mod Keys
use belay_engine.Prelude.{
  Text, Bool, false, ◌||◌, List, [], ◌∷◌, ◌++◌, Option, some, none, ltb, ◌==◌, ◌!=◌, contains,
  is_empty, if◌then◌else◌, length, any, take, byte_len, text_ltb, sort, compact, nat_eq, list_eq,
}
use belay_engine.Detection.Types.{
  SessionInput, FingerprintDimension, Match, DetectorResult, CatalogEntry, max_citations,
}
use belay_engine.Detection.Try.{Try, Context}
use belay_engine.Detection.Events.{PreparedSession, dimension_ltb}
use belay_engine.Experience.Model.{is_zero, before}
use belay_engine.Detection.Decimal.{decimal}

pub data Response : Type 0 where
  panicked : Response
  returned : Try DetectorResult → Response

-- A detector sees the prepared session if it is a `preparedEvaluator`, else the public input.
pub data Evaluator : Type 0 where
  prepared : (Context → PreparedSession → Response) → Evaluator
  public : (Context → SessionInput → Response) → Evaluator

-- The interface `Detector`; a `builtinDetector` carries its entry.
pub record Detector : Type 0 where
  pub id : Text
  pub version : Text
  pub fingerprint_version : Text
  pub builtin : Option CatalogEntry
  pub evaluate : Evaluator

-- `fmt.Fprintf(&builder, "%d:%s", len(value), value)`
unfoldable pub frame : Text → Text
unfolding decimal byte_len
frame value = decimal (byte_len value) ++ b':' ∷ value

unfoldable pub dimension_key : List FingerprintDimension → Text
unfolding frame
dimension_key [] = []
dimension_key (dimension ∷ rest) =
    frame dimension.name ++ (frame dimension.value ++ dimension_key rest)

unfoldable pub sorted_distinct : List Text → List Text
sorted_distinct values = compact (sort text_ltb values)

-- The first test of `validateMatch`.
abbrev pub is_malformed : Detector → Match → Bool
is_malformed d m =
    m.detector_id != d.id
    || m.detector_version != d.version
    || m.fingerprint_version != d.fingerprint_version
    || m.category == []
    || m.title_code == []
    || m.severity == []
    || m.confidence == []
    || is_zero m.first_observed_at
    || before m.last_observed_at m.first_observed_at
    || is_empty m.fingerprint

-- The bound on the citations.
abbrev pub bound_citations : Match → Match
bound_citations m =
    if ltb max_citations (length m.cited_event_ids)
    then record m {
      cited_event_ids = take max_citations m.cited_event_ids;
      evidence_complete = false;
    }
    else m

-- `validateMatch`: the match as it leaves it, if it is valid.
unfoldable pub validate_match : Detector → Match → Option Match
unfolding sorted_distinct dimension_ltb
validate_match d m =
    if is_malformed d m
    then none
    else if any (λ dimension. dimension.name == [] || dimension.value == []) m.fingerprint
    then none
    else let bounded = bound_citations m in
      some (record bounded {
        fingerprint = sort dimension_ltb m.fingerprint;
        cited_event_ids = sorted_distinct bounded.cited_event_ids;
      })

abbrev pub match_key : Match → Text
unfolding dimension_key
match_key m = m.detector_id ++ 0 ∷ dimension_key m.fingerprint

-- The loop of `duplicateMatch`, with the keys of its map.
unfoldable pub duplicate_after : List Text → List Match → Bool
duplicate_after seen [] = false
duplicate_after seen (m ∷ ms) =
    contains seen (match_key m) || duplicate_after (match_key m ∷ seen) ms

unfoldable pub duplicate_match : List Match → Bool
unfolding duplicate_after
duplicate_match matches = duplicate_after [] matches

unfoldable pub match_ltb : Match → Match → Bool
unfolding dimension_key
match_ltb a b =
    let left = dimension_key a.fingerprint in
    let right = dimension_key b.fingerprint in
    if a.detector_id != b.detector_id
    then text_ltb a.detector_id b.detector_id
    else if left != right
    then text_ltb left right
    else if a.first_observed_at != b.first_observed_at
    then before a.first_observed_at b.first_observed_at
    else before a.last_observed_at b.last_observed_at

unfoldable pub sort_matches : List Match → List Match
unfolding match_ltb
sort_matches matches = sort match_ltb matches
