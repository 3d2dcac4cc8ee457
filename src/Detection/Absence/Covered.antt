-- ===== src/Detection/Absence/Covered.antt =====
-- When the session is covered live, for the detector of a verification gap.
use belay_engine.Prelude.{
  Text, text, Bool, true, false, ◌||◌, List, [], ◌==◌, any, ◌≡◌, ◌≢◌, refl, sym, ◌∙◌, ◌↔◌, ◌⊎◌, inl,
  inr, arith, In, Bool-cases, any_sound, any_complete, all_sound, all_complete, text_eq→eq, nat_eq,
  list_eq,
}
use belay_engine.Detection.Events.{PreparedEvent, PreparedSession, later}
use belay_engine.Detection.Absence.{Live, retained_verification_live_compatible}
use belay_engine.Detection.Absence.Agents.{Starts, beq_of}
use belay_engine.Detection.Absence.Loop.{
  covers_mutation, covers_end, from_harness, known_harness-nonempty, live_compatible_iff,
}

-- Every event was seen live; those that name an agent name the one known harness, and one does; and
-- hooks saw a change of a file and an end of the session, each at its depth.
pub record IsCoveredLive (harness : Text) (events : List PreparedEvent) : Type 0 where
  pub known : (harness ≡ text "codex") ⊎ (harness ≡ text "claude-code")
  pub live : (item : PreparedEvent) → In item events → item.historical ≡ false
  pub agents :
      (item : PreparedEvent)
      → In item events
      → (item.event.source.agent ≡ []) ⊎ (item.event.source.agent ≡ harness)
  pub named : (item : PreparedEvent) × In item events × (item.event.source.agent ≡ harness)
  pub mutation : (item : PreparedEvent) × In item events × (covers_mutation item ≡ true)
  pub terminal : (item : PreparedEvent) × In item events × (covers_end item ≡ true)

either_text : (s t u : Text) → ((s == t || s == u) ≡ true) ↔ ((s ≡ t) ⊎ (s ≡ u))
either_text s t u = (
  λ h. elim (Bool-cases (s == t)) [
    | inl y ↦ inl (text_eq→eq s t y)
    | inr n ↦ inr (text_eq→eq s u (rw n at h))
  ],
  λ k. elim k [ inl p ↦ ground (arith, beq_of s t p) | inr p ↦ ground (arith, beq_of s u p) ],
)

any_none :
    {A : Type 0} (p : A → Bool) (xs : List A)
    → (any p xs ≡ false) ↔ ((a : A) → In a xs → p a ≡ false)
any_none p xs = (
  λ h a m. elim (Bool-cases (p a)) [ inl t ↦ cc (sym (any_complete p xs a m t) ∙ h) | inr f ↦ f ],
  λ k. elim (Bool-cases (any p xs)) [
    | inl t ↦ let (a, m, y) = any_sound p xs t in cc (sym y ∙ k a m)
    | inr f ↦ f
  ],
)

Starts-nil : (harness : Text) (later : Bool) → harness ≢ [] → Starts [] harness later → later ≡ true
Starts-nil harness later some_harness (inl p) = absurd (some_harness (sym p))
Starts-nil harness later some_harness (inr (_, l)) = l

pub live_compatible-IsCoveredLive :
    (session : PreparedSession)
    → (retained_verification_live_compatible session ≡ true)
      ↔ ((harness : Text) × IsCoveredLive harness session.events)
unfolding retained_verification_live_compatible
live_compatible-IsCoveredLive session =
    let events = session.events in
    let start : Live = record { harness = []; mutation = false; terminal = false } in
    (
      λ c.
          let (harness, k, g) = (live_compatible_iff start events).0 c in
          let (i, m, named) =
            any_sound (λ item. item.event.source.agent == harness) events
              (Starts-nil harness (from_harness harness events) (known_harness-nonempty harness k)
                g.starts) in
          (
            harness,
            record {
              known = (either_text harness _ _).0 k;
              live = (any_none (λ item. item.historical) events).0 g.live;
              agents = λ item is.
                  (either_text item.event.source.agent [] harness).0
                    (all_sound _ events g.agents item is);
              named = (i, m, text_eq→eq _ _ named);
              mutation = any_sound covers_mutation events g.mutation;
              terminal = any_sound covers_end events g.terminal;
            },
          ),
      λ (harness, l).
          let (i, m, named) = l.named in
          let (c, cm, changed) = l.mutation in
          let (e, em, ended) = l.terminal in
          (live_compatible_iff start events).1 (
            harness,
            (either_text harness _ _).1 l.known,
            record {
              live = (any_none (λ item. item.historical) events).1 l.live;
              agents = all_complete _ events (λ item is.
                  (either_text item.event.source.agent [] harness).1 (l.agents item is));
              starts = inr (
                refl,
                any_complete (λ item. item.event.source.agent == harness) events i m
                    (beq_of _ harness named),
              );
              mutation = any_complete covers_mutation events c cm changed;
              terminal = any_complete covers_end events e em ended;
            },
          ),
    )
