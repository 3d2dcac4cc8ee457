-- ===== src/Detection/Pairing/Outcomes.antt =====
-- The outcome of an attempt against the outcomes of its events.
use belay_engine.Prelude.{
  ℕ, Bool, true, false, ◌&&◌, ◌||◌, List, [], ◌∷◌, ◌++◌, ◌==◌, if◌then◌else◌, any, ◌≡◌, refl, sym,
  ap, ◌∙◌, arith, In,
}
use belay_engine.Detection.Try.{Context, ok}
use belay_engine.Detection.Events.{PreparedEvent, PreparedSession}
use belay_engine.Detection.Attempts.{
  ExplicitOutcome, outcome_eq, CommandAttemptTrust, CommandAttempt, from_code, from_value, combine,
  explicit_event_outcome_details, event_outcome, new_attempt, merge_outcome, merge_attempt,
}
use belay_engine.Detection.Pairing.{command_attempts}
use belay_engine.Detection.Pairing.Induction.{command_attempts-Holds}

abbrev reports : ExplicitOutcome → PreparedEvent → Bool
reports outcome item = (event_outcome item).0 == outcome

abbrev contradicts : PreparedEvent → Bool
contradicts item = (event_outcome item).1

-- Whether the events disagree, or one of them contradicts itself.
abbrev pub disagree : List PreparedEvent → Bool
disagree events =
    any contradicts events
    || (any (reports ExplicitOutcome.succeeded) events
        && any (reports ExplicitOutcome.failed) events)

-- The outcome that events of one attempt stand for, in whatever order they come.
abbrev pub settled : List PreparedEvent → ExplicitOutcome
settled events =
    if disagree events
    then ExplicitOutcome.unknown
    else if any (reports ExplicitOutcome.failed) events
    then ExplicitOutcome.failed
    else if any (reports ExplicitOutcome.succeeded) events
    then ExplicitOutcome.succeeded
    else ExplicitOutcome.unknown

any-append :
    {A : Type 0} (p : A → Bool) (xs ys : List A) → any p (xs ++ ys) ≡ (any p xs || any p ys)
any-append p [] ys = refl
any-append p (x ∷ xs) ys = ground (arith, any-append p xs ys)

-- An event that contradicts itself has no outcome.
contradicts-unknown :
    (o v : ExplicitOutcome) → (combine o v).1 ≡ true → (combine o v).0 ≡ ExplicitOutcome.unknown
contradicts-unknown o v h = ground arith

weigh : Bool → Bool → Bool → ExplicitOutcome × Bool
weigh c s f =
    let bad = c || (s && f) in
    (
      if bad
          then ExplicitOutcome.unknown
          else if f
          then ExplicitOutcome.failed
          else if s
          then ExplicitOutcome.succeeded
          else ExplicitOutcome.unknown,
      bad,
    )

merge_outcome-weigh :
    (c s f : Bool) (o : ExplicitOutcome) (k : Bool)
    → (k ≡ true → o ≡ ExplicitOutcome.unknown)
    → merge_outcome (weigh c s f) (o, k)
      ≡ weigh
          (c || (k || false))
          (s || ((o == ExplicitOutcome.succeeded) || false))
          (f || ((o == ExplicitOutcome.failed) || false))
unfolding weigh
merge_outcome-weigh c s f o k h = ground (arith, h)

combine-weigh :
    (o v : ExplicitOutcome)
    → combine o v
      ≡ weigh
          ((combine o v).1 || false)
          (((combine o v).0 == ExplicitOutcome.succeeded) || false)
          (((combine o v).0 == ExplicitOutcome.failed) || false)
unfolding weigh
combine-weigh o v = ground arith

abbrev IsSettled : CommandAttempt → Type 0
IsSettled a =
    ◌≡◌ {A = ExplicitOutcome × Bool} (a.outcome, a.conflict) (settled a.events, disagree a.events)

new-IsSettled :
    (item : PreparedEvent) (position : ℕ) (b : Bool)
    → IsSettled (record (new_attempt item position) { repetition_eligible = b })
unfolding new_attempt weigh explicit_event_outcome_details
new-IsSettled item position b =
    combine-weigh (from_code item.event.observation.exit_code)
      (from_value item.event.observation.outcome)

merge-IsSettled :
    (item : PreparedEvent) (position : ℕ) (trust : CommandAttemptTrust) (a : CommandAttempt)
    → IsSettled a
    → IsSettled (merge_attempt item position trust a)
unfolding merge_attempt weigh explicit_event_outcome_details
merge-IsSettled item position trust a h =
    let x = from_code item.event.observation.exit_code in
    let y = from_value item.event.observation.outcome in
    let c = any contradicts a.events in
    let s = any (reports ExplicitOutcome.succeeded) a.events in
    let f = any (reports ExplicitOutcome.failed) a.events in
    ap (λ p. merge_outcome p (combine x y)) h
    ∙ merge_outcome-weigh c s f (combine x y).0 (combine x y).1 (contradicts-unknown x y)
    ∙ λ i.
        weigh (sym (any-append contradicts a.events (item ∷ [])) i)
          (sym (any-append (reports ExplicitOutcome.succeeded) a.events (item ∷ [])) i)
          (sym (any-append (reports ExplicitOutcome.failed) a.events (item ∷ [])) i)

-- Every attempt has the outcome that its events agree on: failed, if some event failed and none
-- succeeded or contradicts itself, succeeded in the same way, and otherwise unknown. It is marked as
-- in conflict exactly if the events disagree. The order of the events does not matter.
pub command_attempts-settled :
    (ctx : Context) (session : PreparedSession) (attempts : List CommandAttempt)
    → command_attempts ctx session ≡ ok attempts
    → (a : CommandAttempt) → In a attempts
    → (a.outcome ≡ settled a.events) × (a.conflict ≡ disagree a.events)
command_attempts-settled ctx session attempts e a is =
    let h =
      command_attempts-Holds IsSettled new-IsSettled merge-IsSettled ctx session attempts e a is in
    (ap (λ p. p.0) h, ap (λ p. p.1) h)
