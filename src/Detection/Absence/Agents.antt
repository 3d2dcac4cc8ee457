-- ===== src/Detection/Absence/Agents.antt =====
-- The harness of a session, as it is found out event by event.
use belay_engine.Prelude.{
  Text, Bool, true, false, ◌&&◌, ◌||◌, not, [], ◌∷◌, ◌==◌, ◌!=◌, if◌then◌else◌, ◌≡◌, ◌≢◌, refl, sym,
  ap, ◌∙◌, ◌⊎◌, inl, inr, arith, Bool-cases, text_eq→eq, not-false, list_beq_iff, nat_eq, list_eq,
}
use belay_engine.Detection.Events.{later}

-- The harness that is known, from `v` on: it is the one of `v`, or `v` has none and a later event has
-- it.
abbrev pub Starts : Text → Text → Bool → Type 0
Starts known harness later = (known ≡ harness) ⊎ ((known ≡ []) × (later ≡ true))

abbrev pub clashes : Text → Text → Bool
clashes known agent = agent != [] && known != [] && known != agent

pub beq_of : (s t : Text) → s ≡ t → (s == t) ≡ true
beq_of s t p = (list_beq_iff s t).1 p

pub Starts-agent :
    (known agent harness : Text) (later : Bool)
    → harness ≢ []
    → clashes known agent ≡ false
    → Starts (if known == [] then agent else known) harness later
    → ((agent == [] || agent == harness) ≡ true) × Starts known harness (agent == harness || later)
Starts-agent [] [] harness later some_harness clear (inl p) = absurd (some_harness (sym p))
Starts-agent [] [] harness later some_harness clear (inr (_, l)) =
    (refl, inr (refl, ground (arith, l)))
Starts-agent [] (d ∷ ds) harness later some_harness clear (inl p) =
    (beq_of (d ∷ ds) harness p, inr (refl, ground (arith, beq_of (d ∷ ds) harness p)))
Starts-agent [] (d ∷ ds) harness later some_harness clear (inr (p, _)) = cc p
Starts-agent (c ∷ cs) [] harness later some_harness clear (inl p) = (refl, inl p)
Starts-agent (c ∷ cs) [] harness later some_harness clear (inr (p, _)) = cc p
Starts-agent (c ∷ cs) (d ∷ ds) harness later some_harness clear (inl p) =
    let same = text_eq→eq (c ∷ cs) (d ∷ ds) (not-false _ clear) in
    (beq_of (d ∷ ds) harness (sym same ∙ p), inl p)
Starts-agent (c ∷ cs) (d ∷ ds) harness later some_harness clear (inr (p, _)) = cc p

pub agent-Starts :
    (known agent harness : Text) (later : Bool)
    → harness ≢ []
    → (agent == [] || agent == harness) ≡ true
    → Starts known harness (agent == harness || later)
    → (clashes known agent ≡ false) × Starts (if known == [] then agent else known) harness later
agent-Starts [] [] harness later some_harness agrees (inl p) = absurd (some_harness (sym p))
agent-Starts [] [] harness later some_harness agrees (inr (p, l)) =
    elim (Bool-cases ([] == harness)) [
      | inl t ↦ absurd (some_harness (sym (text_eq→eq [] harness t)))
      | inr f ↦ (refl, inr (refl, rw f at l))
    ]
agent-Starts [] (d ∷ ds) harness later some_harness agrees s =
    (refl, inl (text_eq→eq (d ∷ ds) harness agrees))
agent-Starts (c ∷ cs) [] harness later some_harness agrees (inl p) = (refl, inl p)
agent-Starts (c ∷ cs) [] harness later some_harness agrees (inr (p, _)) = cc p
agent-Starts (c ∷ cs) (d ∷ ds) harness later some_harness agrees (inl p) =
    let same = p ∙ sym (text_eq→eq (d ∷ ds) harness agrees) in
    (ap not (beq_of (c ∷ cs) (d ∷ ds) same), inl p)
agent-Starts (c ∷ cs) (d ∷ ds) harness later some_harness agrees (inr (p, _)) = cc p
