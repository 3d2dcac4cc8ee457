-- ===== src/Experience/Conflict/Preflight/Outcome.antt =====
-- What the preflight reports, in terms of the active experiences.
use mathlib.Core.Path.{subst}
use mathlib.Core.Path.{subst}
use belay_engine.Prelude.{
  Text, Bool, true, false, List, [], ◌∷◌, ltb, contains, is_empty, if◌then◌else◌, ok, ◌>>=◌, wrap,
  length, take, ◌≡◌, ◌≢◌, refl, ◌↔◌, ◌⊎◌, inl, inr, arith, ◌≤◌, ◌<◌, In, Subset, Bool-cases,
  contains_iff, length-take, length-take_full, take-Subset, In-sort, ltb→lt, ltb_false→le, >>-eq_ok,
  >>=-eq_ok, ok-injective,
}
use belay_engine.Experience.Model.{
  ExperienceRef, experience_ref_eq, ExperienceProposal, SemanticProposal, Experience,
}
use belay_engine.Experience.Validate.Records.{Digests}
use belay_engine.Experience.Validate.Contracts.{validate_semantic_proposal}
use belay_engine.Experience.Conflict.{ConflictState, ConflictAdvisory, max_conflict_refs}
use belay_engine.Experience.Conflict.Preflight.{
  validate_advisory, Scan, no_scan, ref_of, scan_all, ref_ltb, sorted_refs, advisory_of, preflight,
  validated, nothing_active,
}
use belay_engine.Experience.Conflict.Preflight.Gathering.{
  Overlaps, Contradicts, Found, Gathered, scan_all-Gathered,
}

abbrev Reports : ExperienceProposal → List Experience → ConflictAdvisory → Type 0
Reports p xs v =
    ((v.state ≡ ConflictState.no_conflict) ↔ ((x : Experience) → In x xs → ¬ Overlaps p x))
    × ((v.state ≡ ConflictState.possible_contradiction)
        ↔ ((x : Experience) × In x xs × Overlaps p x × Contradicts p x))
    × ((ref : ExperienceRef) → In ref v.refs → Found p xs ref)
    × (length v.refs < max_conflict_refs → (ref : ExperienceRef) → Found p xs ref → In ref v.refs)
    × (length v.refs ≤ max_conflict_refs)

empty_refs : (refs : List ExperienceRef) → is_empty refs ≡ true → refs ≡ []
empty_refs [] h = refl
empty_refs (r ∷ rs) h = cc

filled_refs : (refs : List ExperienceRef) → is_empty refs ≡ false → (r : ExperienceRef) × In r refs
filled_refs [] h = cc
filled_refs (r ∷ rs) h = (r, inl refl)

bounded_refs :
    (refs : List ExperienceRef)
    → let shown =
        if ltb max_conflict_refs (length refs) then take max_conflict_refs refs else refs in
      Subset shown refs
      × (length shown < max_conflict_refs → Subset refs shown)
      × (length shown ≤ max_conflict_refs)
bounded_refs refs = elim (Bool-cases (ltb max_conflict_refs (length refs))) [
  | inl t ↦ rw t (
    take-Subset max_conflict_refs refs,
    λ few. absurd (omega (arith, ltb→lt _ _ t, length-take_full max_conflict_refs refs)),
    length-take max_conflict_refs refs,
  )
  | inr f ↦ rw f (λ a m. m, λ few a m. m, ltb_false→le _ _ f)
]

sorted_refs-In :
    (refs : List ExperienceRef) (r : ExperienceRef) → In r (sorted_refs refs) ↔ In r refs
unfolding sorted_refs
sorted_refs-In refs r = In-sort ref_ltb refs r

abbrev verdict : Bool → ConflictState
verdict c = if c then ConflictState.possible_contradiction else ConflictState.possible_overlap

verdict-ne_no_conflict : (c : Bool) → verdict c ≢ ConflictState.no_conflict
verdict-ne_no_conflict true h = cc
verdict-ne_no_conflict false h = cc

verdict_iff : (c : Bool) → (verdict c ≡ ConflictState.possible_contradiction) ↔ (c ≡ true)
verdict_iff true = (λ h. refl, λ h. refl)
verdict_iff false = (λ h. cc, λ h. cc)

advisory_of-Reports :
    (p : ExperienceProposal) (xs : List Experience) (id : Text) (s : Scan)
    → Gathered p xs no_scan s
    → Reports p xs (advisory_of id s)
unfolding advisory_of
advisory_of-Reports p xs id s (refs, flag) = elim (Bool-cases (is_empty s.refs)) [
  | inl none_found ↦
      let nothing : (r : ExperienceRef) → In r s.refs → ⊥ =
        λ r m. subst (λ l. In r l) (empty_refs s.refs none_found) m in
      let clear : (x : Experience) → In x xs → ¬ Overlaps p x =
        λ x m o. nothing (ref_of x) ((refs (ref_of x)).1 (inr (x, m, o, refl))) in
      rw none_found (
        (λ h. clear, λ h. refl),
        (λ h. cc, λ (x, m, o, c). absurd (clear x m o)),
        λ r m. absurd m,
        λ few r (x, m, o, e). absurd (clear x m o),
        omega arith,
      )
  | inr some_found ↦
      let (r, m) = filled_refs s.refs some_found in
      let found : Found p xs r = elim ((refs r).0 m) [ inl b ↦ absurd b | inr f ↦ f ] in
      let (within, complete, bounded) = bounded_refs (sorted_refs s.refs) in
      rw some_found (
        (
          λ h. absurd (verdict-ne_no_conflict s.contradiction h),
          λ clear. absurd (clear found.0 found.1 found.2),
        ),
        (
          λ h. elim (flag.0 ((verdict_iff s.contradiction).0 h)) [ inl c ↦ cc | inr f ↦ f ],
          λ f. (verdict_iff s.contradiction).1 (flag.1 (inr f)),
        ),
        λ q i. elim ((refs q).0 ((sorted_refs-In s.refs q).0 (within q i))) [
          | inl b ↦ absurd b
          | inr f ↦ f
        ],
        λ few q f. complete few q ((sorted_refs-In s.refs q).1 ((refs q).1 (inr f))),
        bounded,
      )
]

preflight-Reports :
    (d : Digests) (proposal : SemanticProposal) (xs : List Experience) (v : ConflictAdvisory)
    → preflight d proposal xs ≡ ok v
    → Reports proposal.proposal xs v
unfolding preflight
preflight-Reports d proposal [] v h =
    let (valid, rest) =
      >>-eq_ok
        (wrap "validate semantic proposal for conflict preflight: "
          (validate_semantic_proposal d proposal))
        (validated (nothing_active proposal.proposal_id)) h in
    let (checked, same) =
      >>-eq_ok (validate_advisory (nothing_active proposal.proposal_id)) _ rest in
    subst (λ t. Reports proposal.proposal [] t) (ok-injective _ _ same)
      (
        (λ h x m. absurd m, λ h. refl),
        (λ h. cc, λ (x, m, o, c). absurd m),
        λ r m. absurd m,
        λ few r (x, m, o, e). absurd m,
        omega arith,
      )
preflight-Reports d proposal (x ∷ xs) v h =
    let (valid, rest) =
      >>-eq_ok
        (wrap "validate semantic proposal for conflict preflight: "
          (validate_semantic_proposal d proposal))
        (scan_all d proposal.proposal (x ∷ xs) no_scan >>= λ s.
          validated (advisory_of proposal.proposal_id s))
        h in
    let (s, scanned, last) =
      >>=-eq_ok (scan_all d proposal.proposal (x ∷ xs) no_scan)
        (λ s. validated (advisory_of proposal.proposal_id s)) rest in
    let (checked, same) =
      >>-eq_ok (validate_advisory (advisory_of proposal.proposal_id s)) _ last in
    subst (λ t. Reports proposal.proposal (x ∷ xs) t) (ok-injective _ _ same)
      (advisory_of-Reports proposal.proposal (x ∷ xs) proposal.proposal_id s
        (scan_all-Gathered d proposal.proposal (x ∷ xs) no_scan s scanned))

-- An advisory that the preflight returns is exact about the active experiences: it is `no_conflict`
-- exactly when none overlaps the proposal's scope, and a possible contradiction exactly when one that
-- overlaps has an opposed verifier; it cites at most 64 experiences, and a reference is cited exactly
-- when it is that of an overlapping experience, or it is left out because 64 others are cited.
pub preflight-reports :
    (d : Digests) (proposal : SemanticProposal) (xs : List Experience) (v : ConflictAdvisory)
    (ref : ExperienceRef)
    → preflight d proposal xs ≡ ok v
    → ((v.state ≡ ConflictState.no_conflict)
        ↔ (¬ ((x : Experience) × In x xs × Overlaps proposal.proposal x)))
      × ((v.state ≡ ConflictState.possible_contradiction) ↔ (
          (x : Experience) × In x xs
          × Overlaps proposal.proposal x
          × Contradicts proposal.proposal x))
      × (length v.refs ≤ max_conflict_refs)
      × ((In ref v.refs ↔ Found proposal.proposal xs ref)
          ⊎ ((¬ In ref v.refs) × (length v.refs ≡ max_conflict_refs)))
preflight-reports d proposal xs v ref h =
    let (clear, opposed, sound, complete, bounded) = preflight-Reports d proposal xs v h in
    (
      (λ e (x, m, o). clear.0 e x m o, λ n. clear.1 (λ x m o. n (x, m, o))),
      opposed,
      bounded,
      elim (Bool-cases (ltb (length v.refs) max_conflict_refs)) [
        | inl few ↦ inl (sound ref, complete (ltb→lt _ _ few) ref)
        | inr full ↦ elim (Bool-cases (contains v.refs ref)) [
          | inl cited ↦ let m = (contains_iff v.refs ref).0 cited in inl (sound ref, λ f. m)
          | inr absent ↦ inr (
            λ m. cc (absent, (contains_iff v.refs ref).1 m),
            omega (arith, ltb_false→le _ _ full, bounded),
          )
        ]
      ],
    )
