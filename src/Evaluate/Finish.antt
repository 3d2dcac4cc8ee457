-- ===== src/Evaluate/Finish.antt =====
-- `finish` and `boundedEvidence` of internal/experience/evaluate/evaluate.go: the collected lists are
-- sorted, freed of duplicates and bounded. `Marshal` is `json.Marshal` on the two records.
pub mod Anchors
pub mod Bounds
use belay_engine.Prelude.{
  ℕ, suc, Text, Bool, true, false, ◌||◌, not, List, [], ◌∷◌, ◌++◌, ltb, ◌==◌, contains,
  if◌then◌else◌, length, ◌+◌, take, text_ltb, sort, nat_beq, nat_eq, list_eq,
}
use belay_engine.Experience.Enums.{
  OpportunityState, ApplicabilityState, VerifierState, TaskOutcomeState,
}
use belay_engine.Evaluate.Types.{
  Component, Component-discrete, component_eq, GapCode, Gap, gap, CitedEvidence, Builder,
}

pub record Marshal : Type 0 where
  pub gap_json : Gap → Text
  pub evidence_json : CitedEvidence → Text

abbrev pub max_result_evidence : ℕ
max_result_evidence = 64

abbrev pub max_result_gaps : ℕ
max_result_gaps = 32

-- `compactGaps` and `compactEvidence`: of neighbours with the same encoding the first is kept.
compact_by_after : {A : Type 0} → (A → Text) → Text → List A → List A
compact_by_after json previous [] = []
compact_by_after json previous (x ∷ xs) =
    let kept = x ∷ compact_by_after json (json x) xs in
    let dropped = compact_by_after json previous xs in if json x == previous then dropped else kept

unfoldable pub compact_by : {A : Type 0} → (A → Text) → List A → List A
unfolding compact_by_after
compact_by json [] = []
compact_by json (x ∷ xs) = x ∷ compact_by_after json (json x) xs

-- Sorted by the encoding, and compacted.
unfoldable pub canonical : {A : Type 0} → (A → Text) → List A → List A
unfolding compact_by sort text_ltb
canonical json xs = compact_by json (sort (λ a b. text_ltb (json a) (json b)) xs)

abbrev pub is_unknown_opportunity : OpportunityState → Bool
is_unknown_opportunity OpportunityState.unknown = true
is_unknown_opportunity _ = false

abbrev pub is_unknown_applicability : ApplicabilityState → Bool
is_unknown_applicability ApplicabilityState.unknown = true
is_unknown_applicability _ = false

abbrev pub is_unknown_outcome : TaskOutcomeState → Bool
is_unknown_outcome TaskOutcomeState.unknown = true
is_unknown_outcome _ = false

abbrev pub is_verdict : VerifierState → Bool
is_verdict VerifierState.satisfied = true
is_verdict VerifierState.violated = true
is_verdict _ = false

-- The states that the function has decided.
pub record States : Type 0 where
  pub opportunity : OpportunityState
  pub applicability : ApplicabilityState
  pub verifier : VerifierState
  pub task_outcome : TaskOutcomeState

-- The map `required` of `boundedEvidence`.
abbrev pub required : States → Component → Bool
required s Component.opportunity = not (is_unknown_opportunity s.opportunity)
required s Component.applicability = not (is_unknown_applicability s.applicability)
required s Component.verifier = is_verdict s.verifier
required s Component.task_outcome = not (is_unknown_outcome s.task_outcome)

-- The first loop: the first citation of each required component is kept. The element of `keep`
-- stands beside its citation.
unfoldable pub anchor :
    (Component → Bool) → List Component → List CitedEvidence → List (Bool × CitedEvidence)
unfolding Component-discrete
anchor needs anchored [] = []
anchor needs anchored (c ∷ cs) =
    let skipped = (false, c) ∷ anchor needs anchored cs in
    let kept = (true, c) ∷ anchor needs (c.component ∷ anchored) cs in
    if not (needs c.component) || contains anchored c.component then skipped else kept

-- `kept` after the first loop.
abbrev count_kept : List (Bool × CitedEvidence) → ℕ
count_kept [] = 0
count_kept ((true, c) ∷ rest) = suc (count_kept rest)
count_kept ((false, c) ∷ rest) = count_kept rest

-- The second and the third loop: further citations are kept until `kept` is the limit.
unfoldable pub fill : ℕ → ℕ → List (Bool × CitedEvidence) → List CitedEvidence
fill limit kept [] = []
fill limit kept ((true, c) ∷ rest) = c ∷ fill limit kept rest
fill limit kept ((false, c) ∷ rest) =
    let closed = fill limit kept rest in
    let open_ = c ∷ fill limit (kept + 1) rest in if nat_beq kept limit then closed else open_

-- `boundedEvidence`
unfoldable pub bounded_evidence : States → ℕ → List CitedEvidence → List CitedEvidence
unfolding anchor fill
bounded_evidence s limit evidence =
    let marked = anchor (required s) [] evidence in fill limit (count_kept marked) marked

-- `if len(values) > n { values = values[:n] }`
abbrev at_most : {A : Type 0} → ℕ → List A → List A
at_most n xs = if ltb n (length xs) then take n xs else xs

-- The gaps sorted, compacted and bounded.
abbrev finish_gaps : Marshal → List Gap → List Gap
finish_gaps m gaps = at_most max_result_gaps (canonical m.gap_json gaps)

-- `finish`, on the states and the builder's lists.
unfoldable pub finish : Marshal → States → Builder → Builder
unfolding canonical bounded_evidence
finish m s b =
    let gaps = finish_gaps m b.gaps in
    let evidence = canonical m.evidence_json b.evidence in
    let truncated : Builder = record {
      gaps = finish_gaps m (gaps ++ gap Component.verifier GapCode.evidence_truncated ∷ []);
      evidence = bounded_evidence s max_result_evidence evidence;
    } in
    let whole : Builder = record { gaps = gaps; evidence = evidence } in
    if ltb max_result_evidence (length evidence) then truncated else whole
