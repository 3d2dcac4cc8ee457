-- ===== src/Detection/Detectors/Unresolved.antt =====
-- What the detector of unresolved verification failures reports.
use mathlib.Core.Path.{subst}
use mathlib.Core.Path.{subst}
use belay_engine.Prelude.{
  ℕ, some-injective, Text, Bool, true, List, [], ◌∷◌, ◌++◌, Option, some, none, ◌==◌, if◌then◌else◌,
  all, filterb, ◌≡◌, refl, sym, ap, ◌∙◌, ◌↔◌, ◌⊎◌, inl, inr, arith, In, get_elem?, In-append_right,
  In-filterb, found_or_none, text_eq→eq, nat_eq, list_eq,
}
use belay_engine.Detection.Types.{Match}
use belay_engine.Detection.Try.{Context, ok}
use belay_engine.Detection.Groups.{sorted_keys, group_onto}
use belay_engine.Detection.Events.{PreparedEvent, PreparedSession}
use belay_engine.Experience.Model.{before, after}
use belay_engine.Detection.Attempts.{ExplicitOutcome, outcome_eq, CommandAttempt}
use belay_engine.Detection.Pairing.{command_attempts}
use belay_engine.Detection.Absence.{is_session_end}
use belay_engine.Detection.Reports.{unresolved_failure}
use belay_engine.Detection.Detectors.{
  last_index, unresolved, verification_attempt, open_report, report_unresolved,
  detect_unresolved_verification,
}
use belay_engine.Detection.Groups.Laws.{In-sorted_keys, members-group}
use belay_engine.Detection.Detectors.Failures.{collect, report_each-collect}

In-collect :
    (report : Text → Option Match) (ks : List Text) (m : Match)
    → In m (collect report ks) ↔ ((k : Text) × In k ks × (report k ≡ some m))
In-collect report [] m = (λ h. absurd h, λ (k, b, _). absurd b)
In-collect report (k ∷ ks) m = elim (found_or_none (report k)) [
  | inl e ↦ rw e (
    λ h. let (j, is, r) = (In-collect report ks m).0 h in (j, inr is, r),
    λ (j, is, r). elim is [
      | inl p ↦ absurd (let h : none ≡ some m = sym e ∙ sym (ap report p) ∙ r in cc h)
      | inr n ↦ (In-collect report ks m).1 (j, n, r)
    ],
  )
  | inr (x, e) ↦ rw e (
    λ h. elim h [
      | inl p ↦ (k, inl refl, e ∙ ap some (sym p))
      | inr n ↦ let (j, is, r) = (In-collect report ks m).0 n in (j, inr is, r)
    ],
    λ (j, is, r). elim is [
      | inl p ↦ inl (some-injective m x (sym r ∙ ap report p ∙ e))
      | inr n ↦ inr ((In-collect report ks m).1 (j, n, r))
    ],
  )
]

-- No outcome is known after the attempt.
abbrev pub open_after : List CommandAttempt → Bool
open_after attempts = all (λ b. b.outcome == ExplicitOutcome.unknown) attempts

abbrev pub Unresolved : CommandAttempt → List CommandAttempt → Type 0
Unresolved a series =
    (earlier_ones : List CommandAttempt) × (later_ones : List CommandAttempt) × (series
      ≡ earlier_ones ++ a ∷ later_ones)
    × (a.outcome ≡ ExplicitOutcome.failed)
    × (open_after later_ones ≡ true)

abbrev after_one : Option CommandAttempt → CommandAttempt → ExplicitOutcome → Option CommandAttempt
after_one found x outcome =
    if outcome == ExplicitOutcome.failed
    then some x
    else if outcome == ExplicitOutcome.succeeded
    then none
    else found

after_one-some :
    (found : Option CommandAttempt) (x a : CommandAttempt) (outcome : ExplicitOutcome)
    → after_one found x outcome ≡ some a
    → ((found ≡ some a) × (outcome ≡ ExplicitOutcome.unknown))
      ⊎ ((x ≡ a) × (outcome ≡ ExplicitOutcome.failed))
after_one-some found x a ExplicitOutcome.unknown h = inl (h, refl)
after_one-some found x a ExplicitOutcome.succeeded h = cc
after_one-some found x a ExplicitOutcome.failed h = inr (some-injective x a h, refl)

unresolved_sound :
    (found : Option CommandAttempt) (series : List CommandAttempt) (a : CommandAttempt)
    → unresolved found series ≡ some a
    → ((found ≡ some a) × (open_after series ≡ true)) ⊎ Unresolved a series
unfolding unresolved
unresolved_sound found [] a h = inl (h, refl)
unresolved_sound found (x ∷ xs) a h = elim (unresolved_sound (after_one found x x.outcome) xs a h) [
  | inr (before, after, e, f, o) ↦ inr (x ∷ before, after, ap (◌∷◌ x) e, f, o)
  | inl (e, o) ↦ elim (after_one-some found x a x.outcome e) [
    | inl (old, u) ↦ inl (old, rw u o)
    | inr (same, f) ↦ inr ([], xs, ap (λ y. y ∷ xs) same, ap (λ y. y.outcome) (sym same) ∙ f, o)
  ]
]

unresolved-open :
    (found : Option CommandAttempt) (series : List CommandAttempt)
    → open_after series ≡ true
    → unresolved found series ≡ found
unfolding unresolved
unresolved-open found [] o = refl
unresolved-open found (x ∷ xs) o =
    let u : x.outcome ≡ ExplicitOutcome.unknown = ground (arith, o) in
    rw u (unresolved-open found xs (ground (arith, o)))

unresolved_complete :
    (found : Option CommandAttempt) (before after : List CommandAttempt) (a : CommandAttempt)
    → a.outcome ≡ ExplicitOutcome.failed
    → open_after after ≡ true
    → unresolved found (before ++ a ∷ after) ≡ some a
unfolding unresolved
unresolved_complete found [] rest a f o =
    ap (λ outcome. unresolved (after_one found a outcome) rest) f ∙ unresolved-open (some a) rest o
unresolved_complete found (x ∷ xs) rest a f o =
    unresolved_complete (after_one found x x.outcome) xs rest a f o

-- The attempts of one signature leave a failure unresolved exactly if one of them failed and the
-- outcomes of all later ones are unknown; the failure is that one.
unresolved_iff :
    (series : List CommandAttempt) (a : CommandAttempt)
    → (unresolved none series ≡ some a) ↔ Unresolved a series
unresolved_iff series a = (
  λ h. elim (unresolved_sound none series a h) [ inl (e, _) ↦ cc e | inr u ↦ u ],
  λ (before, after, e, f, o). ap (unresolved none) e ∙ unresolved_complete none before after a f o,
)

-- The verifications of one signature that ended before the session did.
abbrev pub verifications : ℕ → Text → List CommandAttempt → List CommandAttempt
verifications terminal signature attempts =
    filterb (λ attempt. attempt.signature == signature)
      (filterb (verification_attempt terminal) attempts)

report-some :
    (session : PreparedSession) (s : Text) (end_event : PreparedEvent)
    (found : Option CommandAttempt) (m : Match)
    → (open_report session s end_event found ≡ some m)
      ↔ ((a : CommandAttempt) × (found ≡ some a) × (m ≡ unresolved_failure session s end_event a))
report-some session s end_event none m = (λ h. cc h, λ (a, e, _). cc e)
report-some session s end_event (some x) m = (
  λ h. (x, refl, sym (some-injective _ m h)),
  λ (a, e, f).
      ap (λ y. some (unresolved_failure session s end_event y)) (some-injective x a e)
      ∙ ap some (sym f),
)

Unresolved-In :
    (s : Text) (attempts : List CommandAttempt) (a : CommandAttempt)
    → Unresolved a (filterb (λ attempt. attempt.signature == s) attempts)
    → In a attempts × (a.signature ≡ s)
Unresolved-In s attempts a (before_it, after_it, e, _, _) =
    let (is, same) =
      In-filterb (λ attempt. attempt.signature == s) attempts a
        (subst (In a) (sym e) (In-append_right a before_it (a ∷ after_it) (inl refl))) in
    (is, text_eq→eq a.signature s same)

-- Behind a last session end, the detector reports a signature exactly if one of its verifications
-- failed, ended before the session, and is followed by verifications of unknown outcome alone: each
-- such failure is reported, and nothing else is.
pub detect_unresolved_verification-exact :
    (ctx : Context) (session : PreparedSession) (attempts : List CommandAttempt)
    (matches : List Match) (terminal : ℕ) (end_event : PreparedEvent)
    → command_attempts ctx session ≡ ok attempts
    → last_index is_session_end none 0 session.events ≡ some terminal
    → get_elem? session.events terminal ≡ some end_event
    → detect_unresolved_verification ctx session ≡ ok matches
    → (m : Match)
    → In m matches ↔ (
        (s : Text) × (a : CommandAttempt) × Unresolved a (verifications terminal s attempts)
        × (m ≡ unresolved_failure session s end_event a))
unfolding detect_unresolved_verification report_unresolved
detect_unresolved_verification-exact ctx session attempts matches terminal end_event e l g d m =
    let d1 = rw e at d in
    let d2 = rw l at d1 in
    let d3 = rw g at d2 in
    let listed = report_each-collect ctx 0 _ _ matches d3 in
    let failed = filterb (verification_attempt terminal) attempts in
    let key_of : CommandAttempt → Text = λ attempt. attempt.signature in
    let ks = sorted_keys (group_onto key_of [] failed) in
    (
      λ is.
          let (s, k, r) = (In-collect _ ks m).0 (subst (In m) listed is) in
          let (a, u, same) = (report-some session s end_event _ m).0 r in
          (
            s,
            a,
            (unresolved_iff _ a).0 (sym (ap (unresolved none) (members-group key_of s failed)) ∙ u),
            same,
          ),
      λ (s, a, u, same). subst (In m) (sym listed) (
          (In-collect _ ks m).1 (
            s,
            (In-sorted_keys key_of s failed).1
                (a, (Unresolved-In s failed a u).0, (Unresolved-In s failed a u).1),
            (report-some session s end_event _ m).1 (
              a,
              ap (unresolved none) (members-group key_of s failed) ∙ (unresolved_iff _ a).1 u,
              same,
            ),
          )),
    )
