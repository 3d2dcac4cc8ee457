-- ===== src/Detection/Detectors/Gap.antt =====
-- What the detector of a verification gap reports.
use mathlib.Core.List.{append_assoc}
use mathlib.Core.Path.{subst}
use belay_engine.Prelude.{
  some-injective, Text, true, false, List, [], ◌∷◌, ◌++◌, Option, some, none, if◌then◌else◌, length,
  any, take, ◌≡◌, refl, sym, ap, ◌∙◌, ◌↔◌, inl, inr, arith, In, get_elem?, Bool-cases,
  found_or_none,
}
use belay_engine.Detection.Absence.{is_mutation, is_session_end}
use belay_engine.Detection.Detectors.{
  last_index, is_verification, verified_after, retained_verification_confidence, gap_report,
  report_gap, gap_before, gap_at, retained_gap,
}
use belay_engine.Detection.Detectors.LastIndex.{
  last_index_complete, last_index_sound, take-append, get_elem?-append, verified_after-split,
}
use belay_engine.Detection.Events.{PreparedEvent, PreparedSession}
use belay_engine.Detection.Reports.{verification_gap}
use belay_engine.Detection.Types.{Match}
use belay_engine.Detection.Detectors.Confidence.{
  HasConfidence, retained_verification_confidence-HasConfidence,
}

-- A last change before the last end of the session, with no verification between them.
abbrev pub GapBetween : List PreparedEvent → PreparedEvent → PreparedEvent → Type 0
GapBetween events mutation terminal =
    (pre : List PreparedEvent) × (mid : List PreparedEvent) × (post : List PreparedEvent) × (events
      ≡ (pre ++ mutation ∷ mid) ++ terminal ∷ post)
    × (is_mutation mutation ≡ true)
    × (any is_mutation mid ≡ false)
    × (any is_verification mid ≡ false)
    × (is_session_end terminal ≡ true)
    × (any is_session_end post ≡ false)

-- The report where the change and the end are known.
report-split :
    (session : PreparedSession) (pre mid post : List PreparedEvent)
    (mutation terminal : PreparedEvent)
    → session.events ≡ (pre ++ mutation ∷ mid) ++ terminal ∷ post
    → report_gap session
        (take (length (pre ++ mutation ∷ mid)) session.events)
        (length pre)
        (get_elem? session.events (length pre))
        (get_elem? session.events (length (pre ++ mutation ∷ mid)))
      ≡ (if any is_verification mid
          then []
          else gap_report session mutation terminal (retained_verification_confidence session))
unfolding report_gap
report-split session pre mid post mutation terminal e =
    let whole : session.events ≡ pre ++ mutation ∷ (mid ++ terminal ∷ post) =
      e ∙ append_assoc pre (mutation ∷ mid) (terminal ∷ post) in
    let taken =
      ap (take (length (pre ++ mutation ∷ mid))) e
      ∙ take-append (pre ++ mutation ∷ mid) (terminal ∷ post) in
    let changed =
      ap (λ xs. get_elem? xs (length pre)) whole
      ∙ get_elem?-append pre (mid ++ terminal ∷ post) mutation in
    let ended =
      ap (λ xs. get_elem? xs (length (pre ++ mutation ∷ mid))) e
      ∙ get_elem?-append (pre ++ mutation ∷ mid) post terminal in
    (λ i. report_gap session (taken i) (length pre) (changed i) (ended i))
    ∙ ap
        (λ b.
          if b
          then []
          else gap_report session mutation terminal (retained_verification_confidence session))
        (ap (λ n. verified_after n 0 (pre ++ mutation ∷ mid)) (omega arith)
          ∙ verified_after-split 0 pre mid mutation)

retained_gap-split :
    (session : PreparedSession) (pre mid post : List PreparedEvent)
    (mutation terminal : PreparedEvent)
    → session.events ≡ (pre ++ mutation ∷ mid) ++ terminal ∷ post
    → is_mutation mutation ≡ true
    → any is_mutation mid ≡ false
    → is_session_end terminal ≡ true
    → any is_session_end post ≡ false
    → retained_gap session ≡ (
        if any is_verification mid
        then []
        else gap_report session mutation terminal (retained_verification_confidence session))
unfolding retained_gap
retained_gap-split session pre mid post mutation terminal e c n t o =
    let before_end = pre ++ mutation ∷ mid in
    let ended : last_index is_session_end none 0 session.events ≡ some (length before_end) =
      ap (last_index is_session_end none 0) e
      ∙ last_index_complete is_session_end before_end post terminal none 0 t o
      ∙ ap some (omega arith) in
    let changed : last_index is_mutation none 0 (take (length before_end) session.events)
        ≡ some (length pre) =
      ap (λ xs. last_index is_mutation none 0 (take (length before_end) xs)) e
      ∙ ap (last_index is_mutation none 0) (take-append before_end (terminal ∷ post))
      ∙ last_index_complete is_mutation pre mid mutation none 0 c n
      ∙ ap some (omega arith) in
    ap (gap_at session) ended
    ∙ ap (gap_before session (length before_end)) changed
    ∙ report-split session pre mid post mutation terminal e

gap_report-In :
    (session : PreparedSession) (mutation terminal : PreparedEvent) (found : Option Text)
    (m : Match)
    → In m (gap_report session mutation terminal found) ↔ (
        (confidence : Text) × (found ≡ some confidence)
        × (m ≡ verification_gap session confidence mutation terminal))
gap_report-In session mutation terminal none m = (λ h. absurd h, λ (c, e, _). cc e)
gap_report-In session mutation terminal (some x) m = (
  λ h. elim h [ inl e ↦ (x, refl, e) | inr nothing ↦ absurd nothing ],
  λ (c, e, f).
      inl (f ∙ ap (λ y. verification_gap session y mutation terminal) (sym (some-injective x c e))),
)

-- Where the detector looks, if it finds an end and a change.
retained_gap-found :
    (session : PreparedSession) (m : Match)
    → In m (retained_gap session)
    → (mutation : PreparedEvent) × (terminal : PreparedEvent) × (pre : List PreparedEvent)
      × (mid : List PreparedEvent) × (post : List PreparedEvent) × (session.events
          ≡ (pre ++ mutation ∷ mid) ++ terminal ∷ post)
      × (is_mutation mutation ≡ true)
      × (any is_mutation mid ≡ false)
      × (is_session_end terminal ≡ true)
      × (any is_session_end post ≡ false)
unfolding retained_gap
retained_gap-found session m is =
    elim (found_or_none (last_index is_session_end none 0 session.events)) [
      | inl nothing ↦ absurd (subst (λ f. In m (gap_at session f)) nothing is)
      | inr (t, ended) ↦ elim (last_index_sound is_session_end none 0 session.events t ended) [
        | inl (e, _) ↦ cc e
        | inr (before_end, terminal, post, e, l, u, o) ↦
            let taken : take t session.events ≡ before_end =
              ap (take t) e
              ∙ ap (λ n. take n (before_end ++ terminal ∷ post)) (omega (arith, l))
              ∙ take-append before_end (terminal ∷ post) in
            elim (found_or_none (last_index is_mutation none 0 (take t session.events))) [
              | inl nothing ↦ absurd (
                  subst (λ f. In m (gap_before session t f)) nothing
                    (subst (λ f. In m (gap_at session f)) ended is))
              | inr (c, changed) ↦
                  elim (last_index_sound is_mutation none 0 (take t session.events) c changed) [
                    | inl (e2, _) ↦ cc e2
                    | inr (pre, mutation, mid, e2, _, v, n) ↦ (
                      mutation,
                      terminal,
                      pre,
                      mid,
                      post,
                      e ∙ ap (λ xs. xs ++ terminal ∷ post) (sym taken ∙ e2),
                      v,
                      n,
                      u,
                      o,
                    )
                  ]
            ]
      ]
    ]

-- The detector reports exactly a last change before the last end of the session with no verification
-- command between the two. The confidence is low if an event of the session is historical. It is
-- medium if all were seen live, those that name an agent name one known harness and one does, a hook
-- saw a change of a file at the depth of tool calls, and a hook saw an end of the session at the depth
-- of its lifecycle. Else there is no report.
pub retained_gap_iff :
    (session : PreparedSession) (m : Match)
    → In m (retained_gap session) ↔ (
        (mutation : PreparedEvent) × (terminal : PreparedEvent) × (confidence : Text) × GapBetween
          session.events mutation terminal
        × HasConfidence session confidence
        × (m ≡ verification_gap session confidence mutation terminal))
retained_gap_iff session m = (
  λ is.
      let (mutation, terminal, pre, mid, post, e, v, n, u, o) = retained_gap-found session m is in
      let computed =
        subst (In m) (retained_gap-split session pre mid post mutation terminal e v n u o) is in
      elim (Bool-cases (any is_verification mid)) [
        | inl verified ↦ absurd (rw verified at computed)
        | inr unverified ↦
            let (confidence, c, same) =
              (gap_report-In session mutation terminal _ m).0 (rw unverified at computed) in
            (
              mutation,
              terminal,
              confidence,
              (pre, mid, post, e, v, n, unverified, u, o),
              (retained_verification_confidence-HasConfidence session confidence).0 c,
              same,
            )
      ],
  λ (mutation, terminal, confidence, (pre, mid, post, e, v, n, unverified, u, o), c, same).
      subst (In m) (sym (retained_gap-split session pre mid post mutation terminal e v n u o)) (
        rw unverified (
          (gap_report-In session mutation terminal _ m).1 (
            confidence,
            (retained_verification_confidence-HasConfidence session confidence).1 c,
            same,
          ))),
)
