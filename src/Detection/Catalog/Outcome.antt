-- ===== src/Detection/Catalog/Outcome.antt =====
-- What a run of the catalog returns, out of what its detectors returned.
use mathlib.Core.List.{append-nil, append_assoc, map-append}
use mathlib.Core.Path.{subst}
use belay_engine.Prelude.{
  ℕ, suc, Text, Bool, true, false, ◌&&◌, not, List, [], ◌∷◌, ◌++◌, Option, some, none, is_empty,
  length, all, flat_map, ◌≡◌, refl, sym, ap, ◌∙◌, inl, inr, arith, ◌≤◌, Bool-cases, map,
  length-append, not-false,
}
use belay_engine.Detection.Types.{
  AnalysisStatus, SessionInput, AbsenceCapability, DetectorResult, DetectorFailure,
  DetectorApplicability, CatalogResult, max_matches,
}
use belay_engine.Detection.Try.{DetectionError, Try, Context, ok, err}
use belay_engine.Detection.Events.{PreparedSession}
use belay_engine.Detection.Registry.{DetectorSlot, Catalog}
use belay_engine.Detection.Validation.{Detector, duplicate_match, sort_matches}
use belay_engine.Detection.Prepare.{prepare_session}
use belay_engine.Detection.Catalog.{
  Timing, failure_code, Ran, run_detector, empty_result, applicability_of, record_run, proceed,
  run_slots, close_run, finished, refused, run_prepared, run,
}
use belay_engine.Detection.Catalog.Reported.{
  accepted, reported, is_sound, runs, IsOutcome, prepared_input, IsRunOutcome, Overflows, Added,
  if_property, not-true, and_false, and_true, is_empty-append, add_matches-Added,
}

-- The result while the loop over the detectors runs, behind the runs that are done.
record Good (done : List (Detector × Ran)) (r : CatalogResult) : Type 0 where
  current_status : r.status ≡ AnalysisStatus.current
  few : length r.matches ≤ max_matches
  gathered : r.matches ≡ flat_map reported done
  failed : is_empty r.failures ≡ all is_sound done
  listed : map (λ a. a.detector_id) r.applicability ≡ map (λ run. run.0.id) done

flat_map-append :
    {A B : Type 0} (f : A → List B) (xs ys : List A)
    → flat_map f (xs ++ ys) ≡ flat_map f xs ++ flat_map f ys
flat_map-append f [] ys = refl
flat_map-append f (x ∷ xs) ys =
    ap (λ zs. f x ++ zs) (flat_map-append f xs ys)
    ∙ sym (append_assoc (f x) (flat_map f xs) (flat_map f ys))

all-append :
    {A : Type 0} (p : A → Bool) (xs ys : List A) → all p (xs ++ ys) ≡ (all p xs && all p ys)
all-append p [] ys = refl
all-append p (x ∷ xs) ys = elim (Bool-cases (p x)) [
  | inl t ↦ rw t (all-append p xs ys)
  | inr f ↦ rw f refl
]

-- The loop over the detectors, where `all_runs` are those of the whole loop and `done` those so far.
abbrev Progress : List (Detector × Ran) → List (Detector × Ran) → CatalogResult × Bool → Type 0
Progress all_runs done (q, true) = Overflows (flat_map reported all_runs) q
Progress all_runs done (q, false) = Good done q

listed_next :
    (done : List (Detector × Ran)) (d : Detector) (ran : Ran) (r : CatalogResult)
    (capability : AbsenceCapability) (reason : Text)
    → Good done r
    → map (λ a. a.detector_id) (r.applicability ++ applicability_of d capability reason ∷ [])
      ≡ map (λ run. run.0.id) (done ++ (d, ran) ∷ [])
listed_next done d ran r capability reason g =
    map-append (λ a. a.detector_id) r.applicability (applicability_of d capability reason ∷ [])
    ∙ ap (λ xs. xs ++ d.id ∷ []) g.listed
    ∙ sym (map-append (λ (run : Detector × Ran). run.0.id) done ((d, ran) ∷ []))

-- What a completed run adds, seen from the whole loop.
Added-Progress :
    (all_runs done more : List (Detector × Ran)) (d : Detector) (result : DetectorResult)
    (r : CatalogResult) (applicability : List DetectorApplicability) (p : CatalogResult × Bool)
    → all_runs ≡ done ++ (d, Ran.completed result) ∷ more
    → Good done r
    → map (λ a. a.detector_id) applicability
      ≡ map (λ run. run.0.id) (done ++ (d, Ran.completed result) ∷ [])
    → Added
        (record r { applicability = applicability })
        (accepted d result.matches)
        (is_sound (d, Ran.completed result))
        p
    → Progress all_runs (done ++ (d, Ran.completed result) ∷ []) p
Added-Progress all_runs done more d result r applicability (q, true) whole g listed
      (many, status, matches, failures) =
    let so_far = ap (λ xs. length (xs ++ accepted d result.matches)) g.gathered in
    let total = ap length (
      ap (flat_map reported) whole
      ∙ flat_map-append reported done ((d, Ran.completed result) ∷ more)) in
    (
      omega (
        arith,
        many,
        so_far,
        total,
        length-append (flat_map reported done) (accepted d result.matches),
        length-append (flat_map reported done)
            (accepted d result.matches ++ flat_map reported more),
        length-append (accepted d result.matches) (flat_map reported more),
      ),
      status,
      matches,
      failures,
    )
Added-Progress all_runs done more d result r applicability (q, false) whole g listed h =
    let run : Detector × Ran = (d, Ran.completed result) in
    record {
      current_status = h.status ∙ g.current_status;
      few = h.few;
      gathered =
          h.gathered
          ∙ ap (λ xs. xs ++ accepted d result.matches) g.gathered
          ∙ ap (λ xs. flat_map reported done ++ xs) (sym (append-nil (accepted d result.matches)))
          ∙ sym (flat_map-append reported done (run ∷ []));
      failed =
          h.failed
          ∙ ap (λ b. b && is_sound run) g.failed
          ∙ ap (λ b. all is_sound done && b) (sym (and_true (is_sound run)))
          ∙ sym (all-append is_sound done (run ∷ []));
      listed = ap (map (λ a. a.detector_id)) h.applicability ∙ listed;
    }

record_run-Progress :
    (all_runs done more : List (Detector × Ran)) (d : Detector) (ran : Ran) (r : CatalogResult)
    → all_runs ≡ done ++ (d, ran) ∷ more
    → Good done r
    → Progress all_runs (done ++ (d, ran) ∷ []) (record_run d r ran)
unfolding record_run
record_run-Progress all_runs done more d (Ran.stopped code) r whole g = record {
  current_status = g.current_status;
  few = g.few;
  gathered =
      g.gathered
      ∙ sym (append-nil (flat_map reported done))
      ∙ sym (flat_map-append reported done ((d, Ran.stopped code) ∷ []));
  failed =
      is_empty-append r.failures _
      ∙ sym (and_false (all is_sound done))
      ∙ sym (all-append is_sound done ((d, Ran.stopped code) ∷ []));
  listed = listed_next done d (Ran.stopped code) r AbsenceCapability.incomplete code g;
}
record_run-Progress all_runs done more d (Ran.completed result) r whole g =
    Added-Progress all_runs done more d result r _ _ whole g
      (listed_next done d (Ran.completed result) r result.absence_capability
        result.unavailable_reason g)
      (add_matches-Added d result.matches _ g.few)

proceed-Progress :
    (all_runs done : List (Detector × Ran)) (p : CatalogResult × Bool) (slot : DetectorSlot)
    (slots : List DetectorSlot) (rest : CatalogResult → (CatalogResult × Bool) × List DetectorSlot)
    → Progress all_runs done p
    → ((r : CatalogResult) → Good done r → Progress all_runs all_runs (rest r).0)
    → Progress all_runs all_runs (proceed p slot slots rest).0
proceed-Progress all_runs done (r, true) slot slots rest h k = h
proceed-Progress all_runs done (r, false) slot slots rest h k = k r h

run_slots-Progress :
    (timing : ℕ → Timing) (session : PreparedSession) (all_runs done : List (Detector × Ran))
    (slots : List DetectorSlot) (index : ℕ) (r : CatalogResult)
    → all_runs ≡ done ++ runs timing session index slots
    → Good done r
    → Progress all_runs all_runs (run_slots timing session index r slots).0
unfolding run_slots
run_slots-Progress timing session all_runs done [] index r whole g =
    subst (λ xs. Good xs r) (sym (whole ∙ append-nil done)) g
run_slots-Progress timing session all_runs done (slot ∷ slots) index r whole g =
    let (ran, slot') = run_detector (timing index) slot session in
    let d = slot.detector in
    let more = runs timing session (suc index) slots in
    proceed-Progress all_runs (done ++ (d, ran) ∷ []) (record_run d r ran) slot' slots
      (λ recorded. run_slots timing session (suc index) recorded slots)
      (record_run-Progress all_runs done more d ran r whole g)
      (λ recorded h.
        run_slots-Progress timing session all_runs (done ++ (d, ran) ∷ []) slots (suc index)
          recorded (whole ∙ sym (append_assoc done ((d, ran) ∷ []) more)) h)

is_empty-nil : (fs : List DetectorFailure) → is_empty fs ≡ true → fs ≡ []
is_empty-nil [] h = refl
is_empty-nil (f ∷ fs) h = cc h

close_run-IsOutcome :
    (all_runs : List (Detector × Ran)) (r : CatalogResult)
    → Good all_runs r
    → IsOutcome all_runs (close_run r)
unfolding close_run
close_run-IsOutcome all_runs r g =
    let few = subst (λ xs. length xs ≤ max_matches) g.gathered g.few in
    if_property (IsOutcome all_runs) (not (is_empty r.failures)) _ _
      (λ failing. inr (
        inl (record {
          status = refl;
          few = few;
          faulty = inl (sym g.failed ∙ not-true (is_empty r.failures) failing);
          matches = refl;
          failures = λ nothing. cc (sym failing ∙ ap (λ fs. not (is_empty fs)) nothing);
        })))
      (λ fine.
        if_property (IsOutcome all_runs) (duplicate_match r.matches) _ _
          (λ duplicate. inr (
            inl (record {
              status = refl;
              few = few;
              faulty = inr (ap duplicate_match (sym g.gathered) ∙ duplicate);
              matches = refl;
              failures = λ nothing. cc nothing;
            })))
          (λ fresh. inl (record {
            status = g.current_status;
            few = few;
            sound = sym g.failed ∙ not-false (is_empty r.failures) fine;
            distinct = ap duplicate_match (sym g.gathered) ∙ fresh;
            matches = ap sort_matches g.gathered;
            failures = is_empty-nil r.failures (not-false _ fine);
            listed = g.listed;
          })))

finished-IsOutcome :
    (all_runs : List (Detector × Ran)) (p : CatalogResult × Bool)
    → Progress all_runs all_runs p
    → IsOutcome all_runs (finished p)
unfolding finished
finished-IsOutcome all_runs (r, true) (many, status, matches, failures) =
    inr (inr (record { status = status; many = many; matches = matches; failures = failures }))
finished-IsOutcome all_runs (r, false) g = close_run-IsOutcome all_runs r g

prepared_run-IsRunOutcome :
    (timing : ℕ → Timing) (c : Catalog) (prepared_session : Try PreparedSession)
    → IsRunOutcome timing c.slots prepared_session (run_prepared timing c prepared_session).0
unfolding run_prepared refused
prepared_run-IsRunOutcome timing c (err DetectionError.session_limit) = refl
prepared_run-IsRunOutcome timing c (err DetectionError.invalid_session) = refl
prepared_run-IsRunOutcome timing c (err DetectionError.foreign) = refl
prepared_run-IsRunOutcome timing c (err (DetectionError.context e)) = refl
prepared_run-IsRunOutcome timing c (ok session) = finished-IsOutcome _ _ (
    run_slots-Progress timing session (runs timing session 0 c.slots) [] c.slots 0
      (empty_result AnalysisStatus.current) refl
      (record {
        current_status = refl;
        few = omega arith;
        gathered = refl;
        failed = refl;
        listed = refl;
      }))

-- A run of the catalog is fixed by what `runDetector` returns for each slot. A session that could not
-- be prepared gives a truncated result if it is over the limit, and else a failed one with that error
-- as its only failure. Otherwise, count for each detector that returned its matches up to the first
-- invalid one. If they are more than a hundred, the result is truncated, with no match and no failure,
-- whatever failed. If they are not, and a detector gave no result, a match is invalid or two matches
-- are duplicates, the status is failed, with a failure and no match. Else it is current, with no
-- failure, all these matches in order, and every detector listed.
pub run-IsOutcome :
    (timing : ℕ → Timing) (c : Catalog) (ctx : Option Context) (input : SessionInput)
    → IsRunOutcome timing c.slots (prepared_input ctx input) (run timing c ctx input).0
unfolding run failure_code
run-IsOutcome timing c none input = refl
run-IsOutcome timing c (some ctx) input =
    prepared_run-IsRunOutcome timing c (prepare_session ctx input)
