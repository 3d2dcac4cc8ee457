-- ===== src/Detection/Catalog/Reported.antt =====
-- What a run of the catalog is to return, out of what its detectors return, and what one of them adds.
use mathlib.Core.List.{append-nil, append_assoc}
use mathlib.Core.Path.{subst}
use belay_engine.Prelude.{
  ℕ, suc, Bool, true, false, ◌&&◌, not, List, [], ◌∷◌, ◌++◌, Option, some, none, ltb, is_empty,
  if◌then◌else◌, length, all, flat_map, ◌≡◌, ◌≢◌, refl, sym, ◌∙◌, ◌⊎◌, arith, ◌≤◌, ◌<◌, map,
  length-append, ltb→lt, ltb_false→le,
}
use belay_engine.Detection.Types.{AnalysisStatus, SessionInput, Match, CatalogResult, max_matches}
use belay_engine.Detection.Try.{ContextError, DetectionError, Try, Context, ok, err}
use belay_engine.Detection.Events.{PreparedSession}
use belay_engine.Detection.Registry.{DetectorSlot}
use belay_engine.Detection.Validation.{Detector, validate_match, duplicate_match, sort_matches}
use belay_engine.Detection.Prepare.{prepare_session}
use belay_engine.Detection.Catalog.{
  Timing, failure_code, Ran, run_detector, empty_result, failure, truncate, add_checked,
  add_matches,
}

-- The matches of a detector that the checks left, up to the first that is invalid.
abbrev pub keep : Option Match → List Match → List Match
keep none ms = []
keep (some valid) ms = valid ∷ ms

abbrev pub accepted : Detector → List Match → List Match
accepted d [] = []
accepted d (m ∷ ms) = keep (validate_match d m) (accepted d ms)

abbrev pub is_valid : Option Match → Bool
is_valid none = false
is_valid (some _) = true

-- What one detector adds to the result of the catalog.
abbrev pub reported : Detector × Ran → List Match
reported (d, Ran.stopped code) = []
reported (d, Ran.completed result) = accepted d result.matches

-- The detector returned, and every match of its result is valid.
abbrev pub is_sound : Detector × Ran → Bool
is_sound (d, Ran.stopped code) = false
is_sound (d, Ran.completed result) = all (λ m. is_valid (validate_match d m)) result.matches

-- What `runDetector` returns for each slot.
abbrev pub runs : (ℕ → Timing) → PreparedSession → ℕ → List DetectorSlot → List (Detector × Ran)
runs timing session index [] = []
runs timing session index (slot ∷ slots) =
    (slot.detector, (run_detector (timing index) slot session).0)
    ∷ runs timing session (suc index) slots

module _ (all_runs : List (Detector × Ran)) (r : CatalogResult) where
  -- No detector failed, no match is invalid, and no two are duplicates.
  pub record IsCurrent : Type 0 where
    pub status : r.status ≡ AnalysisStatus.current
    pub few : length (flat_map reported all_runs) ≤ max_matches
    pub sound : all is_sound all_runs ≡ true
    pub distinct : duplicate_match (flat_map reported all_runs) ≡ false
    pub matches : r.matches ≡ sort_matches (flat_map reported all_runs)
    pub failures : r.failures ≡ []
    pub listed : map (λ a. a.detector_id) r.applicability ≡ map (λ run. run.0.id) all_runs

  -- A detector failed, a match is invalid, or two are duplicates.
  pub record IsFailed : Type 0 where
    pub status : r.status ≡ AnalysisStatus.failed
    pub few : length (flat_map reported all_runs) ≤ max_matches
    pub faulty :
        (all is_sound all_runs ≡ false) ⊎ (duplicate_match (flat_map reported all_runs) ≡ true)
    pub matches : r.matches ≡ []
    pub failures : r.failures ≢ []

  pub record IsTruncated : Type 0 where
    pub status : r.status ≡ AnalysisStatus.truncated
    pub many : max_matches < length (flat_map reported all_runs)
    pub matches : r.matches ≡ []
    pub failures : r.failures ≡ []

  abbrev pub IsOutcome : Type 0
  IsOutcome = IsCurrent ⊎ IsFailed ⊎ IsTruncated

-- The session that `Catalog.Run` prepares; a nil context counts as canceled.
abbrev pub prepared_input : Option Context → SessionInput → Try PreparedSession
prepared_input none input = err (DetectionError.context ContextError.canceled)
prepared_input (some ctx) input = prepare_session ctx input

abbrev pub IsRunOutcome :
    (ℕ → Timing) → List DetectorSlot → Try PreparedSession → CatalogResult → Type 0
IsRunOutcome timing slots (err DetectionError.session_limit) r =
    r ≡ empty_result AnalysisStatus.truncated
IsRunOutcome timing slots (err e) r =
    r ≡ record (empty_result AnalysisStatus.failed) { failures = failure [] (failure_code e) ∷ [] }
IsRunOutcome timing slots (ok session) r = IsOutcome (runs timing session 0 slots) r

abbrev pub Overflows : List Match → CatalogResult → Type 0
Overflows ms r =
    (max_matches < length ms)
    × (r.status ≡ AnalysisStatus.truncated)
    × (r.matches ≡ [])
    × (r.failures ≡ [])

-- The result behind the matches of one detector.
pub record Extends (r : CatalogResult) (ms : List Match) (clean : Bool) (q : CatalogResult)
    : Type 0 where
  pub status : q.status ≡ r.status
  pub few : length q.matches ≤ max_matches
  pub gathered : q.matches ≡ r.matches ++ ms
  pub failed : is_empty q.failures ≡ (is_empty r.failures && clean)
  pub applicability : q.applicability ≡ r.applicability

abbrev pub Added : CatalogResult → List Match → Bool → CatalogResult × Bool → Type 0
Added r ms clean (q, true) = Overflows (r.matches ++ ms) q
Added r ms clean (q, false) = Extends r ms clean q

pub if_property :
    {R : Type 0} (P : R → Type 0) (b : Bool) (x y : R)
    → (b ≡ true → P x)
    → (b ≡ false → P y)
    → P (if b then x else y)
if_property P true x y p q = p refl
if_property P false x y p q = q refl

pub not-true : (b : Bool) → not b ≡ true → b ≡ false
not-true true h = cc h
not-true false h = refl

pub and_false : (b : Bool) → (b && false) ≡ false
and_false true = refl
and_false false = refl

pub and_true : (b : Bool) → (b && true) ≡ b
and_true true = refl
and_true false = refl

pub is_empty-append : {A : Type 0} (xs : List A) (x : A) → is_empty (xs ++ x ∷ []) ≡ false
is_empty-append [] x = refl
is_empty-append (y ∷ xs) x = refl

Added-cons :
    (r : CatalogResult) (valid : Match) (ms : List Match) (clean : Bool) (p : CatalogResult × Bool)
    → Added (record r { matches = r.matches ++ valid ∷ [] }) ms clean p
    → Added r (valid ∷ ms) clean p
Added-cons r valid ms clean (q, true) h =
    subst (λ xs. Overflows xs q) (append_assoc r.matches (valid ∷ []) ms) h
Added-cons r valid ms clean (q, false) h = record {
  status = h.status;
  few = h.few;
  gathered = h.gathered ∙ append_assoc r.matches (valid ∷ []) ms;
  failed = h.failed;
  applicability = h.applicability;
}

add_checked-Added :
    (d : Detector) (r : CatalogResult) (rest : CatalogResult → CatalogResult × Bool)
    (found : Option Match) (ms : List Match) (clean : Bool)
    → length r.matches ≤ max_matches
    → ((q : CatalogResult) → length q.matches ≤ max_matches → Added q ms clean (rest q))
    → Added r (keep found ms) (is_valid found && clean) (add_checked d r rest found)
unfolding add_checked truncate
add_checked-Added d r rest none ms clean few k = record {
  status = refl;
  few = few;
  gathered = sym (append-nil r.matches);
  failed = is_empty-append r.failures _ ∙ sym (and_false (is_empty r.failures));
  applicability = refl;
}
add_checked-Added d r rest (some valid) ms clean few k =
    if_property (Added r (valid ∷ ms) clean) (ltb max_matches (length (r.matches ++ valid ∷ []))) _
      _
      (λ many. (
        omega (
          arith,
          ltb→lt _ _ many,
          length-append r.matches (valid ∷ []),
          length-append r.matches (valid ∷ ms),
        ),
        refl,
        refl,
        refl,
      ))
      (λ room.
        Added-cons r valid ms clean _
          (k (record r { matches = r.matches ++ valid ∷ [] }) (ltb_false→le max_matches _ room)))

pub add_matches-Added :
    (d : Detector) (ms : List Match) (r : CatalogResult)
    → length r.matches ≤ max_matches
    → Added r (accepted d ms) (all (λ m. is_valid (validate_match d m)) ms) (add_matches d r ms)
unfolding add_matches
add_matches-Added d [] r few = record {
  status = refl;
  few = few;
  gathered = sym (append-nil r.matches);
  failed = sym (and_true (is_empty r.failures));
  applicability = refl;
}
add_matches-Added d (m ∷ ms) r few =
    add_checked-Added d r (λ added. add_matches d added ms) (validate_match d m) (accepted d ms) _
      few (λ q h. add_matches-Added d ms q h)
