-- ===== src/Detection/Detectors/Confidence.antt =====
-- The confidence of the detector of a verification gap.
use belay_engine.Prelude.{
  some-injective, Text, text, true, false, some, any, ◌≡◌, sym, ap, ◌∙◌, ◌↔◌, ◌⊎◌, inl, inr, In,
  Bool-cases, any_sound, any_complete,
}
use belay_engine.Detection.Events.{PreparedEvent, PreparedSession}
use belay_engine.Detection.Absence.{retained_verification_live_compatible}
use belay_engine.Detection.Absence.Covered.{IsCoveredLive, live_compatible-IsCoveredLive}
use belay_engine.Detection.Detectors.{retained_verification_confidence}

-- Low if an event is historical; medium if the session is covered live by a known harness.
abbrev pub HasConfidence : PreparedSession → Text → Type 0
HasConfidence session confidence =
    ((confidence ≡ text "low")
      × ((item : PreparedEvent) × In item session.events × (item.historical ≡ true)))
    ⊎ ((confidence ≡ text "medium") × ((harness : Text) × IsCoveredLive harness session.events))

low_if_historical :
    (session : PreparedSession) (confidence : Text)
    → any (λ (item : PreparedEvent). item.historical) session.events ≡ true
    → HasConfidence session confidence
    → confidence ≡ text "low"
low_if_historical session confidence old (inl (low, _)) = low
low_if_historical session confidence old (inr (_, (harness, covered))) =
    let (item, is, historical) =
      any_sound (λ (item : PreparedEvent). item.historical) session.events old in
    cc (sym historical ∙ covered.live item is)

covered_if_live :
    (session : PreparedSession) (confidence : Text)
    → any (λ (item : PreparedEvent). item.historical) session.events ≡ false
    → HasConfidence session confidence
    → (confidence ≡ text "medium") × (retained_verification_live_compatible session ≡ true)
covered_if_live session confidence live (inl (_, (item, is, historical))) = cc (
    sym (any_complete (λ (item : PreparedEvent). item.historical) session.events item is historical)
    ∙ live)
covered_if_live session confidence live (inr (medium, covered)) =
    (medium, (live_compatible-IsCoveredLive session).1 covered)

pub retained_verification_confidence-HasConfidence :
    (session : PreparedSession) (confidence : Text)
    → (retained_verification_confidence session ≡ some confidence)
      ↔ HasConfidence session confidence
unfolding retained_verification_confidence
retained_verification_confidence-HasConfidence session confidence =
    elim (Bool-cases (any (λ (item : PreparedEvent). item.historical) session.events)) [
      | inl old ↦ (
        λ h. inl (
          sym (some-injective (text "low") confidence (rw old at h)),
          any_sound (λ (item : PreparedEvent). item.historical) session.events old,
        ),
        λ k. rw old (ap some (sym (low_if_historical session confidence old k))),
      )
      | inr live ↦ elim (Bool-cases (retained_verification_live_compatible session)) [
        | inl covered ↦ (
          λ h. inr (
            sym (some-injective (text "medium") confidence (rw covered at (rw live at h))),
            (live_compatible-IsCoveredLive session).0 covered,
          ),
          λ k. rw live (rw covered (ap some (sym (covered_if_live session confidence live k).0))),
        )
        | inr bare ↦ (
          λ h. cc (rw bare at (rw live at h)),
          λ k. cc (sym (covered_if_live session confidence live k).1 ∙ bare),
        )
      ]
    ]
