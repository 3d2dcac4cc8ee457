-- ===== src/Detection/Pairing/Evidence.antt =====
-- The events of the attempts against the events of the session.
use belay_engine.Prelude.{
  ℕ, zero, suc, Bool, true, ◌&&◌, List, [], ◌∷◌, ◌++◌, Option, some, none, ◌==◌, length, ◌+◌,
  filterb, ◌≡◌, refl, ap, inl, inr, arith, ◌≤◌, Bool-cases, found_or_none, nat_eq, list_eq,
}
use belay_engine.Detection.Try.{>>=-eq_ok, Poll, Context, context_check, ok-injective, ok}
use belay_engine.Detection.Events.{PreparedEvent, PreparedSession}
use belay_engine.Detection.Attempts.{
  CommandAttemptTrust, CommandAttempt, Multiplicity, command_tool_call_multiplicity, new_attempt,
  merge_attempt,
}
use belay_engine.Detection.Pairing.{
  Pairing, modify, merge_target, eligible, append_attempt, is_command, merge_at, pair_step,
  pair_events, command_attempts,
}
use belay_engine.Detection.Reports.{evidence_of}

abbrev pub count : (PreparedEvent → Bool) → List PreparedEvent → ℕ
count p events = length (filterb p events)

module _ (p : PreparedEvent → Bool) where
  count-append : (xs ys : List PreparedEvent) → count p (xs ++ ys) ≡ count p xs + count p ys
  count-append [] ys = omega arith
  count-append (x ∷ xs) ys = ground (arith, count-append xs ys)

  abbrev cited : List CommandAttempt → ℕ
  cited attempts = count p (evidence_of attempts)

  cited-append :
      (xs : List CommandAttempt) (a : CommandAttempt)
      → cited (xs ++ a ∷ []) ≡ cited xs + count p a.events
  cited-append [] a = omega (arith, count-append a.events [])
  cited-append (x ∷ xs) a = omega (
    arith,
    count-append x.events (evidence_of (xs ++ a ∷ [])),
    count-append x.events (evidence_of xs),
    cited-append xs a,
  )

  cited-modify :
      (index : ℕ) (item : PreparedEvent) (position : ℕ) (trust : CommandAttemptTrust)
      (attempts : List CommandAttempt)
      → cited (modify index (merge_attempt item position trust) attempts)
        ≤ cited attempts + count p (item ∷ [])
  unfolding modify merge_attempt
  cited-modify index item position trust [] = omega arith
  cited-modify zero item position trust (x ∷ xs) = omega (
    arith,
    count-append (x.events ++ item ∷ []) (evidence_of xs),
    count-append x.events (item ∷ []),
    count-append x.events (evidence_of xs),
  )
  cited-modify (suc index) item position trust (x ∷ xs) = omega (
    arith,
    count-append x.events (evidence_of (modify index (merge_attempt item position trust) xs)),
    count-append x.events (evidence_of xs),
    cited-modify index item position trust xs,
  )

  cited-append_attempt :
      (m : Multiplicity) (previous : Option PreparedEvent) (position : ℕ) (item : PreparedEvent)
      (st : Pairing)
      → cited (append_attempt m previous position item st).attempts
        ≡ cited st.attempts + count p (item ∷ [])
  unfolding append_attempt new_attempt
  cited-append_attempt m previous position item st =
      cited-append st.attempts
        (record (new_attempt item position) { repetition_eligible = eligible m previous item })

  abbrev command_event : PreparedEvent → Bool
  command_event item = is_command item && p item

  count-command :
      (item : PreparedEvent)
      → is_command item ≡ true
      → count command_event (item ∷ []) ≡ count p (item ∷ [])
  count-command item h = rw h refl

  cited-pair_step :
      (m : Multiplicity) (previous : Option PreparedEvent) (position : ℕ) (item : PreparedEvent)
      (st : Pairing)
      → cited (pair_step m previous position item st).attempts
        ≤ cited st.attempts + count command_event (item ∷ [])
  unfolding pair_step merge_at
  cited-pair_step m previous position item st = elim (Bool-cases (is_command item)) [
    | inr other ↦ rw other (omega arith)
    | inl command ↦ rw (count-command item command) (
        rw command (elim (found_or_none (merge_target m previous st position item)) [
          | inr ((index, trust), found) ↦
              rw found (cited-modify index item position trust st.attempts)
          | inl none_found ↦
              rw none_found (elim (Bool-cases (item.enrichment.command_signature_id == [])) [
                | inl blank ↦ rw blank (omega arith)
                | inr signed ↦
                    rw signed (omega (arith, cited-append_attempt m previous position item st))
              ])
        ]))
  ]

  count-cons :
      (q : PreparedEvent → Bool) (x : PreparedEvent) (xs : List PreparedEvent)
      → count q (x ∷ xs) ≡ count q (x ∷ []) + count q xs
  count-cons q x xs = ground arith

  cited-pair_events :
      (ctx : Context) (m : Multiplicity) (previous : Option PreparedEvent) (position : ℕ)
      (items : List PreparedEvent) (st final : Pairing)
      → pair_events ctx m previous position items st ≡ ok final
      → cited final.attempts ≤ cited st.attempts + count command_event items
  unfolding pair_events
  cited-pair_events ctx m previous position [] st final e =
      omega (arith, ap (λ (s : Pairing). cited s.attempts) (ok-injective st final e))
  cited-pair_events ctx m previous position (item ∷ items) st final e =
      let (_, _, rest) = >>=-eq_ok (context_check ctx Poll.attempting position) _ e in
      omega (
        arith,
        cited-pair_events ctx m (some item) (suc position) items
            (pair_step m previous position item st) final rest,
        cited-pair_step m previous position item st,
        count-cons command_event item items,
      )

  -- The attempts invent no evidence and use none twice: whatever kind of event is counted, the
  -- attempts together hold at most as many of that kind as there are commands of it in the session.
  pub command_attempts-cited :
      (ctx : Context) (session : PreparedSession) (attempts : List CommandAttempt)
      → command_attempts ctx session ≡ ok attempts
      → count p (evidence_of attempts) ≤ count (λ item. is_command item && p item) session.events
  unfolding command_attempts
  command_attempts-cited ctx session attempts e =
      let (m, _, e1) = >>=-eq_ok (command_tool_call_multiplicity ctx 0 [] session.events) _ e in
      let (final, paired, same) = >>=-eq_ok (pair_events ctx m none 0 session.events _) _ e1 in
      omega (
        arith,
        cited-pair_events ctx m none 0 session.events (record { attempts = []; pending = [] }) final
            paired,
        ap cited (ok-injective final.attempts attempts same),
      )
