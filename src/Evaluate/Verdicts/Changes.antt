-- ===== src/Evaluate/Verdicts/Changes.antt =====
-- When the evaluator of a file decides.
use mathlib.Core.Path.{subst}
use belay_engine.Prelude.{
  Text, Bool, true, false, not, List, [], ◌∷◌, ◌==◌, if◌then◌else◌, filterb, flat_map, ◌≡◌, refl,
  sym, ◌∙◌, ◌↔◌, ◌⊎◌, inl, inr, arith, In, Bool-cases, any_sound, any_complete, In-append,
  In-append_left, In-append_right, In-filterb, filterb_complete, In-flat_map, text_eq→eq,
  list_beq_iff, nat_eq, list_eq, int_eq,
}
use belay_engine.Experience.Enums.{VerifierState}
use belay_engine.Experience.Model.{EvidenceRef}
use belay_engine.Experience.Verifier.{CoverageRequirement, FileVerifierSpec, Verifier}
use belay_engine.Evaluate.Types.{Coverage, FileChangeFact, Facts, Input, Builder}
use belay_engine.Evaluate.Commands.{by_absence}
use belay_engine.Evaluate.Matching.{
  declared_coverage, coverage_evidence, file_absence_declared, declared_evidence,
  file_absence_evidence,
}
use belay_engine.Evaluate.Verdicts.{judge_changes, evaluate_file, changes}

module _ (facts : Facts) (path : Text) where
  -- A change of the file that is not ambiguous has a citation.
  abbrev pub IsChanged : Type 0
  IsChanged =
      (f : FileChangeFact) × (e : EvidenceRef) × In f facts.file_changes
      × (f.path ≡ path)
      × (f.meta.ambiguous ≡ false)
      × In e f.meta.evidence

  -- No change of the file is ambiguous.
  abbrev pub IsUnambiguous : Type 0
  IsUnambiguous =
      (f : FileChangeFact) → In f facts.file_changes → f.path ≡ path → f.meta.ambiguous ≡ false

-- The verifier declares one of the two coverage requirements by which an absence shows, and the input
-- has a citation for it.
pub data ShowsAbsence (v : Verifier) (c : Coverage) : Type 0 where
  shows :
      (requirement : CoverageRequirement) (e : EvidenceRef)
      → (requirement ≡ CoverageRequirement.workspace_captured)
        ⊎ (requirement ≡ CoverageRequirement.canonical_complete)
      → declared_coverage v requirement ≡ true
      → In e (coverage_evidence c requirement)
      → ShowsAbsence v c

-- What a file that was changed means to the verifier.
abbrev pub changed_state : Bool → VerifierState
changed_state want_modified =
    if want_modified then VerifierState.satisfied else VerifierState.violated

In-flat_map_intro :
    {A B : Type 0} (f : A → List B) (xs : List A) (a : A) (b : B)
    → In a xs
    → In b (f a)
    → In b (flat_map f xs)
In-flat_map_intro f [] a b m i = absurd m
In-flat_map_intro f (x ∷ xs) a b (inl p) i =
    In-append_left b (f x) (flat_map f xs) (subst (λ y. In b (f y)) p i)
In-flat_map_intro f (x ∷ xs) a b (inr m) i =
    In-append_right b (f x) (flat_map f xs) (In-flat_map_intro f xs a b m i)

nil_or_cons : {A : Type 0} (xs : List A) → (xs ≡ []) ⊎ ((a : A) × (rest : List A) × (xs ≡ a ∷ rest))
nil_or_cons [] = inl refl
nil_or_cons (a ∷ xs) = inr (a, xs, refl)

swapped :
    (want : Bool)
    → (if want then VerifierState.violated else VerifierState.satisfied) ≡ changed_state (not want)
swapped true = refl
swapped false = refl

module _ (input : Input) (path : Text) where
  abbrev at_path : FileChangeFact → Bool
  at_path f = f.path == path

  changes-IsChanged :
      ((e : EvidenceRef) × In e (changes at_path input).1) ↔ IsChanged input.facts path
  changes-IsChanged =
      let found = filterb at_path input.facts.file_changes in
      (
        λ (e, m).
            let (f, in_clear, i) =
              In-flat_map (λ (f : FileChangeFact). f.meta.evidence)
                (filterb (λ (f : FileChangeFact). not f.meta.ambiguous) found) e m in
            let (in_found, clear) =
              In-filterb (λ (f : FileChangeFact). not f.meta.ambiguous) found f in_clear in
            let (listed, same) = In-filterb at_path input.facts.file_changes f in_found in
            (f, e, listed, text_eq→eq f.path path same, ground (arith, clear), i),
        λ (f, e, listed, same, clear, i). (
          e,
          In-flat_map_intro (λ (f : FileChangeFact). f.meta.evidence) _ f e
              (filterb_complete (λ (f : FileChangeFact). not f.meta.ambiguous) found f
                (filterb_complete at_path input.facts.file_changes f listed
                  ((list_beq_iff f.path path).1 same))
                (ground (arith, clear)))
              i,
        ),
      )

  changes-IsUnambiguous : ((changes at_path input).0 ≡ false) ↔ IsUnambiguous input.facts path
  changes-IsUnambiguous =
      let found = filterb at_path input.facts.file_changes in
      (
        λ h f listed same. elim (Bool-cases f.meta.ambiguous) [
          | inl dubious ↦ cc (
              sym (
                any_complete (λ (f : FileChangeFact). f.meta.ambiguous) found f
                  (filterb_complete at_path input.facts.file_changes f listed
                    ((list_beq_iff f.path path).1 same))
                  dubious)
              ∙ h)
          | inr clear ↦ clear
        ],
        λ u. elim (Bool-cases (changes at_path input).0) [
          | inl dubious ↦
              let (f, in_found, t) =
                any_sound (λ (f : FileChangeFact). f.meta.ambiguous) found dubious in
              let (listed, same) = In-filterb at_path input.facts.file_changes f in_found in
              cc (sym t ∙ u f listed (text_eq→eq f.path path same))
          | inr clear ↦ clear
        ],
      )

module _ (v : Verifier) (c : Coverage) where
  declared_evidence-In :
      (requirement : CoverageRequirement) (e : EvidenceRef)
      → In e (declared_evidence v c requirement)
        ↔ ((declared_coverage v requirement ≡ true) × In e (coverage_evidence c requirement))
  declared_evidence-In requirement e = elim (Bool-cases (declared_coverage v requirement)) [
    | inl d ↦ (λ m. (d, rw d at m), λ h. rw d h.1)
    | inr n ↦ (λ m. absurd (rw n at m), λ h. cc (sym h.0 ∙ n))
  ]

  declared_shows :
      (requirement : CoverageRequirement) (e : EvidenceRef)
      → (requirement ≡ CoverageRequirement.workspace_captured)
        ⊎ (requirement ≡ CoverageRequirement.canonical_complete)
      → In e (declared_evidence v c requirement)
      → ShowsAbsence v c
  declared_shows requirement e which m =
      let (d, i) = (declared_evidence-In requirement e).0 m in shows requirement e which d i

  file_absence_sound : (e : EvidenceRef) → In e (file_absence_evidence v c) → ShowsAbsence v c
  unfolding file_absence_evidence
  file_absence_sound e m =
      elim (In-append e (declared_evidence v c CoverageRequirement.workspace_captured)
        (declared_evidence v c CoverageRequirement.canonical_complete) m) [
          | inl w ↦ declared_shows CoverageRequirement.workspace_captured e (inl refl) w
          | inr k ↦ declared_shows CoverageRequirement.canonical_complete e (inr refl) k
        ]

  file_absence_complete :
      ShowsAbsence v c
      → (file_absence_declared v ≡ true) × ((e : EvidenceRef) × In e (file_absence_evidence v c))
  unfolding file_absence_declared file_absence_evidence
  file_absence_complete (shows r e (inl w) d i) =
      let declared = subst (λ x. declared_coverage v x ≡ true) w d in
      let there =
        (declared_evidence-In CoverageRequirement.workspace_captured e).1
          (declared, subst (λ x. In e (coverage_evidence c x)) w i) in
      (ground (arith, declared), (e, In-append_left e _ _ there))
  file_absence_complete (shows r e (inr k) d i) =
      let declared = subst (λ x. declared_coverage v x ≡ true) k d in
      let there =
        (declared_evidence-In CoverageRequirement.canonical_complete e).1
          (declared, subst (λ x. In e (coverage_evidence c x)) k i) in
      (ground (arith, declared), (e, In-append_right e _ _ there))

-- The states that the end of the evaluator of a file gives.
judge_changes-state :
    (input : Input) (changed unchanged : VerifierState) (ambiguous : Bool) (es : List EvidenceRef)
    (b : Builder)
    → ((ambiguous ≡ false)
        × ((e : EvidenceRef) × In e es)
        × ((judge_changes input changed unchanged ambiguous es b).0 ≡ changed))
      ⊎ ((ambiguous ≡ false)
          × (es ≡ [])
          × ShowsAbsence input.experience.verifier input.coverage
          × ((judge_changes input changed unchanged ambiguous es b).0 ≡ unchanged))
      ⊎ ((ambiguous ≡ false → (es ≡ []) × ¬ ShowsAbsence input.experience.verifier input.coverage)
          × ((judge_changes input changed unchanged ambiguous es b).0 ≡ VerifierState.unknown))
unfolding judge_changes by_absence
judge_changes-state input changed unchanged true es b = inr (inr (λ h. cc h, refl))
judge_changes-state input changed unchanged false (e ∷ es) b = inl (refl, (e, inl refl), refl)
judge_changes-state input changed unchanged false [] b =
    let v = input.experience.verifier in
    elim (Bool-cases (file_absence_declared v)) [
      | inr n ↦ inr (
          inr (
            λ h. (refl, λ s. cc (sym (file_absence_complete v input.coverage s).0 ∙ n)),
            rw n refl,
          ))
      | inl d ↦ elim (nil_or_cons (file_absence_evidence v input.coverage)) [
        | inl nothing ↦ inr (
            inr (
              λ h. (
                refl,
                λ s.
                    let (e, m) = (file_absence_complete v input.coverage s).1 in
                    subst (In e) nothing m,
              ),
              rw d (rw nothing refl),
            ))
        | inr (e, es, there) ↦ inr (
            inl (
              refl,
              refl,
              file_absence_sound v input.coverage e (subst (In e) (sym there) (inl refl)),
              rw d (rw there refl),
            ))
      ]
    ]

-- A verifier on a file decides exactly as follows. If no change of the file is ambiguous and one has
-- a citation, the file counts as changed: satisfied if it wants the file modified, and violated if
-- not. If none is ambiguous, none has a citation, and the absence of changes shows by a coverage
-- requirement that the verifier declares and the input cites, it is the other way round. Else the
-- state is unknown.
pub evaluate_file-decides :
    (input : Input) (spec : FileVerifierSpec) (want_modified : Bool) (b : Builder)
    → (IsUnambiguous input.facts spec.path
        × IsChanged input.facts spec.path
        × ((evaluate_file input spec want_modified b).0 ≡ changed_state want_modified))
      ⊎ (IsUnambiguous input.facts spec.path
          × (¬ IsChanged input.facts spec.path)
          × ShowsAbsence input.experience.verifier input.coverage
          × ((evaluate_file input spec want_modified b).0 ≡ changed_state (not want_modified)))
      ⊎ ((IsUnambiguous input.facts spec.path
            → (¬ IsChanged input.facts spec.path)
              × ¬ ShowsAbsence input.experience.verifier input.coverage)
          × ((evaluate_file input spec want_modified b).0 ≡ VerifierState.unknown))
unfolding evaluate_file
evaluate_file-decides input spec want_modified b =
    let found = changes (at_path input spec.path) input in
    let clear = changes-IsUnambiguous input spec.path in
    let cited = changes-IsChanged input spec.path in
    let uncited : (found.1 ≡ []) → ¬ IsChanged input.facts spec.path =
      λ nothing changed. let (e, m) = cited.1 changed in subst (In e) nothing m in
    elim (judge_changes-state input (changed_state want_modified)
      (if want_modified then VerifierState.violated else VerifierState.satisfied) found.0 found.1
      b) [
        | inl (u, there, s) ↦ inl (clear.0 u, cited.0 there, s)
        | inr (inl (u, nothing, shown, s)) ↦
            inr (inl (clear.0 u, uncited nothing, shown, s ∙ swapped want_modified))
        | inr (inr (k, s)) ↦
            inr (inr (λ u. let (nothing, hidden) = k (clear.1 u) in (uncited nothing, hidden), s))
      ]
