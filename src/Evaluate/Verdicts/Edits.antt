-- ===== src/Evaluate/Verdicts/Edits.antt =====
-- A verification that has to come after the last edit.
use belay_engine.Prelude.{
  Bool, true, false, ◌&&◌, ◌||◌, not, List, [], ◌∷◌, ◌++◌, Option, some, none, ℤ, pos, negsuc,
  ltb_ℤ, leb_ℤ, contains, is_empty, any, all, filterb, ◌≡◌, refl, sym, ◌∙◌, inl, inr, arith, In,
  Bool-cases, map, any_sound, In-filterb, any-map, nat_eq, list_eq,
}
use belay_engine.Experience.Verifier.{CoverageRequirement, VerificationAfterLastEditSpec}
use belay_engine.Evaluate.Types.{FactResult, FileChangeFact, VerificationFact, Input, Builder}
use belay_engine.Evaluate.Commands.{
  verification_facts_conflict, by_absence, by_transcript, succeeded, by_results,
}
use belay_engine.Evaluate.Verdicts.{
  evaluate_after_last_edit, latest_edit, counts, judge_verifications, after_edit,
}
use belay_engine.Evaluate.Matching.{declared_coverage, coverage_evidence}
use belay_engine.Experience.Enums.{VerifierState}
use belay_engine.Experience.Model.{EvidenceRef}

abbrev Latest : List FileChangeFact → ℤ → Type 0
Latest fs l = all (λ (f : FileChangeFact). not f.meta.ambiguous && leb_ℤ f.meta.order l) fs ≡ true

-- The turn that the loop returns is no earlier than the one it starts from and than each change.
latest_edit-Latest :
    (fs : List FileChangeFact) (start : ℤ) (es : List EvidenceRef) (l : ℤ) (out : List EvidenceRef)
    → latest_edit fs start es ≡ some (l, out)
    → (leb_ℤ start l ≡ true) × Latest fs l
unfolding latest_edit
latest_edit-Latest [] start es l out h = (ground (arith, h), refl)
latest_edit-Latest (f ∷ fs) start es l out h = ground (
  arith,
  latest_edit-Latest fs f.meta.order f.meta.evidence l out,
  latest_edit-Latest fs start (es ++ f.meta.evidence) l out,
  latest_edit-Latest fs start es l out,
  h,
)

by_results-satisfied :
    (results : List FactResult) (es : List EvidenceRef) (b : Builder)
    → (by_results results es b).0 ≡ VerifierState.satisfied
    → any succeeded results ≡ true
unfolding by_results
by_results-satisfied results es b h = ground (arith, h)

by_absence-violated :
    (front es : List EvidenceRef) (b : Builder)
    → ¬ ((by_absence VerifierState.violated front es b).0 ≡ VerifierState.satisfied)
unfolding by_absence
by_absence-violated front [] b h = cc h
by_absence-violated front (e ∷ es) b h = cc h

by_transcript-violated :
    (input : Input) (es : List EvidenceRef) (b : Builder)
    → ¬ ((by_transcript input VerifierState.violated es b).0 ≡ VerifierState.satisfied)
unfolding by_transcript
by_transcript-violated input es b h =
    elim (Bool-cases
      (declared_coverage input.experience.verifier CoverageRequirement.transcript_complete)) [
        | inl t ↦
            by_absence-violated es
              (coverage_evidence input.coverage CoverageRequirement.transcript_complete) b
              (rw t at h)
        | inr f ↦ cc (rw f at h)
      ]

judge_verifications-satisfied :
    (input : Input) (spec : VerificationAfterLastEditSpec) (es : List EvidenceRef)
    (fs : List VerificationFact) (b : Builder)
    → spec.require_success ≡ true
    → (judge_verifications input spec es fs b).0 ≡ VerifierState.satisfied
    → any (λ (g : VerificationFact). succeeded g.result) fs ≡ true
unfolding judge_verifications
judge_verifications-satisfied input spec es [] b r h = absurd (by_transcript-violated input es b h)
judge_verifications-satisfied input spec es (f ∷ fs) b r h =
    sym (any-map succeeded (λ (g : VerificationFact). g.result) (f ∷ fs))
    ∙ by_results-satisfied (map (λ (g : VerificationFact). g.result) (f ∷ fs)) _ b (rw r at h)

-- The verification is later than each change, and no change is ambiguous.
abbrev pub after_all : List FileChangeFact → VerificationFact → Bool
after_all fs g =
    all (λ (f : FileChangeFact). not f.meta.ambiguous && ltb_ℤ f.meta.order g.meta.order) fs

abbrev pub allowed_class : VerificationAfterLastEditSpec → VerificationFact → Bool
allowed_class spec g =
    is_empty spec.command_classes || contains spec.command_classes g.command_class

after_all-Latest :
    (fs : List FileChangeFact) (l : ℤ) (g : VerificationFact)
    → Latest fs l
    → ltb_ℤ l g.meta.order ≡ true
    → after_all fs g ≡ true
after_all-Latest [] l g h k = refl
after_all-Latest (f ∷ fs) l g h k = ground (arith, after_all-Latest fs l g, h, k)

-- What the theorem below states of the verification that it finds.
abbrev pub Verifies : Input → VerificationAfterLastEditSpec → Type 0
Verifies input spec =
    (g : VerificationFact) × In g input.facts.verifications
    × (succeeded g.result ≡ true)
    × (allowed_class spec g ≡ true)
    × (after_all input.facts.file_changes g ≡ true)

edit_seen :
    (fs : List FileChangeFact) (latest : ℤ) (es : List EvidenceRef)
    → latest_edit fs (negsuc 0) [] ≡ some (latest, es)
    → ltb_ℤ latest (pos 0) ≡ false
    → is_empty fs ≡ false
unfolding latest_edit
edit_seen [] latest es e n = absurd (ground (arith, e, n))
edit_seen (f ∷ fs) latest es e n = refl

-- A verification that counts and succeeded.
counted-Verifies :
    (input : Input) (spec : VerificationAfterLastEditSpec) (latest : ℤ)
    → Latest input.facts.file_changes latest
    → any
        (λ (g : VerificationFact). succeeded g.result)
        (filterb (counts spec latest) input.facts.verifications)
      ≡ true
    → Verifies input spec
counted-Verifies input spec latest known h =
    let (g, m, s) =
      any_sound (λ (g : VerificationFact). succeeded g.result)
        (filterb (counts spec latest) input.facts.verifications) h in
    let (i, c) = In-filterb (counts spec latest) input.facts.verifications g m in
    (
      g,
      i,
      s,
      ground (arith, c),
      after_all-Latest input.facts.file_changes latest g known (ground (arith, c)),
    )

after_edit-satisfied :
    (input : Input) (spec : VerificationAfterLastEditSpec) (found : Option (ℤ × List EvidenceRef))
    (b : Builder)
    → spec.require_success ≡ true
    → latest_edit input.facts.file_changes (negsuc 0) [] ≡ found
    → (after_edit input spec found b).0 ≡ VerifierState.satisfied
    → (is_empty input.facts.file_changes ≡ false) × Verifies input spec
unfolding after_edit
after_edit-satisfied input spec none b r e h = cc h
after_edit-satisfied input spec (some (latest, es)) b r e h =
    let later = filterb (counts spec latest) input.facts.verifications in
    elim (Bool-cases (ltb_ℤ latest (pos 0))) [
      | inl t ↦ cc (rw t at h)
      | inr n ↦
          elim (Bool-cases (
            any (λ (f : VerificationFact). f.meta.ambiguous) later
            || verification_facts_conflict later)) [
              | inl t ↦ cc (rw t at (rw n at h))
              | inr f ↦ (
                edit_seen input.facts.file_changes latest es e n,
                counted-Verifies input spec latest
                    (latest_edit-Latest input.facts.file_changes (negsuc 0) [] latest es e).1
                    (judge_verifications-satisfied input spec es later b r (rw f at (rw n at h))),
              )
            ]
    ]

-- If the verifier after the last edit asks for success and is satisfied, an edit was observed, no
-- edit is ambiguous, and there is a successful verification, of a class that the specification
-- allows, on a later turn than each edit.
pub evaluate_after_last_edit-satisfied :
    (input : Input) (spec : VerificationAfterLastEditSpec) (b : Builder)
    → spec.require_success ≡ true
    → (evaluate_after_last_edit input spec b).0 ≡ VerifierState.satisfied
    → (is_empty input.facts.file_changes ≡ false) × Verifies input spec
unfolding evaluate_after_last_edit
evaluate_after_last_edit-satisfied input spec b r h = after_edit-satisfied input spec _ b r refl h
