-- ===== src/Detection/Pairing/Induction.antt =====
-- Induction over the loop of `commandAttempts`.
use mathlib.Core.Path.{subst}
use belay_engine.Prelude.{
  ℕ, zero, suc, Bool, List, [], ◌∷◌, Option, some, none, ◌==◌, ◌≡◌, refl, sym, ◌⊎◌, inl, inr, In,
  Bool-cases, In-append, found_or_none, nat_eq, list_eq,
}
use belay_engine.Detection.Try.{>>=-eq_ok, Poll, Context, context_check, ok-injective, ok}
use belay_engine.Detection.Events.{PreparedEvent, PreparedSession}
use belay_engine.Detection.Attempts.{
  CommandAttemptTrust, CommandAttempt, Multiplicity, command_tool_call_multiplicity, new_attempt,
  merge_attempt,
}
use belay_engine.Detection.Pairing.{
  Pairing, modify, merge_target, eligible, append_attempt, is_command, merge_at, pair_step,
  pair_events, command_attempts,
}

pub In-modify :
    (index : ℕ) (f : CommandAttempt → CommandAttempt) (attempts : List CommandAttempt)
    (a : CommandAttempt)
    → In a (modify index f attempts)
    → In a attempts ⊎ ((b : CommandAttempt) × In b attempts × (a ≡ f b))
unfolding modify
In-modify index f [] a h = absurd h
In-modify zero f (x ∷ xs) a (inl e) = inr (x, inl refl, e)
In-modify zero f (x ∷ xs) a (inr h) = inl (inr h)
In-modify (suc index) f (x ∷ xs) a (inl e) = inl (inl e)
In-modify (suc index) f (x ∷ xs) a (inr h) = elim (In-modify index f xs a h) [
  | inl old ↦ inl (inr old)
  | inr (b, m, e) ↦ inr (b, inr m, e)
]

module _ (P : CommandAttempt → Type 0)
    (made : (item : PreparedEvent) (position : ℕ) (b : Bool)
      → P (record (new_attempt item position) { repetition_eligible = b }))
    (merged : (item : PreparedEvent) (position : ℕ) (trust : CommandAttemptTrust)
        (a : CommandAttempt)
      → P a
      → P (merge_attempt item position trust a)) where
  abbrev Holds : Pairing → Type 0
  Holds st = (a : CommandAttempt) → In a st.attempts → P a

  append_attempt-Holds :
      (m : Multiplicity) (previous : Option PreparedEvent) (position : ℕ) (item : PreparedEvent)
      (st : Pairing)
      → Holds st
      → Holds (append_attempt m previous position item st)
  unfolding append_attempt
  append_attempt-Holds m previous position item st h a is = elim (In-append a st.attempts _ is) [
    | inl old ↦ h a old
    | inr (inl e) ↦ subst P (sym e) (made item position (eligible m previous item))
    | inr (inr nothing) ↦ absurd nothing
  ]

  merge_at-Holds :
      (item : PreparedEvent) (position : ℕ) (st : Pairing) (index : ℕ) (trust : CommandAttemptTrust)
      → Holds st
      → Holds (merge_at item position st index trust)
  unfolding merge_at
  merge_at-Holds item position st index trust h a is =
      elim (In-modify index (merge_attempt item position trust) st.attempts a is) [
        | inl old ↦ h a old
        | inr (b, m, e) ↦ subst P (sym e) (merged item position trust b (h b m))
      ]

  pair_step-Holds :
      (m : Multiplicity) (previous : Option PreparedEvent) (position : ℕ) (item : PreparedEvent)
      (st : Pairing)
      → Holds st
      → Holds (pair_step m previous position item st)
  unfolding pair_step
  pair_step-Holds m previous position item st h = elim (Bool-cases (is_command item)) [
    | inr other ↦ rw other h
    | inl command ↦ rw command (elim (found_or_none (merge_target m previous st position item)) [
      | inr ((index, trust), found) ↦ rw found (merge_at-Holds item position st index trust h)
      | inl none_found ↦
          rw none_found (elim (Bool-cases (item.enrichment.command_signature_id == [])) [
            | inl blank ↦ rw blank h
            | inr signed ↦ rw signed (append_attempt-Holds m previous position item st h)
          ])
    ])
  ]

  pair_events-Holds :
      (ctx : Context) (m : Multiplicity) (previous : Option PreparedEvent) (position : ℕ)
      (items : List PreparedEvent) (st final : Pairing)
      → Holds st
      → pair_events ctx m previous position items st ≡ ok final
      → Holds final
  unfolding pair_events
  pair_events-Holds ctx m previous position [] st final h e =
      subst Holds (ok-injective st final e) h
  pair_events-Holds ctx m previous position (item ∷ items) st final h e =
      let (_, _, rest) = >>=-eq_ok (context_check ctx Poll.attempting position) _ e in
      pair_events-Holds ctx m (some item) (suc position) items
        (pair_step m previous position item st) final
        (pair_step-Holds m previous position item st h) rest

  -- What holds of every new attempt, and is kept by a merge, holds of all attempts.
  pub command_attempts-Holds :
      (ctx : Context) (session : PreparedSession) (attempts : List CommandAttempt)
      → command_attempts ctx session ≡ ok attempts
      → (a : CommandAttempt) → In a attempts
      → P a
  unfolding command_attempts
  command_attempts-Holds ctx session attempts e =
      let (m, _, e1) = >>=-eq_ok (command_tool_call_multiplicity ctx 0 [] session.events) _ e in
      let (final, paired, same) = >>=-eq_ok (pair_events ctx m none 0 session.events _) _ e1 in
      subst (λ found. (a : CommandAttempt) → In a found → P a)
        (ok-injective final.attempts attempts same)
        (pair_events-Holds ctx m none 0 session.events (record { attempts = []; pending = [] })
          final (λ a is. absurd is) paired)
