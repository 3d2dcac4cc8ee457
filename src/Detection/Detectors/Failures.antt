-- ===== src/Detection/Detectors/Failures.antt =====
-- What the detectors of failed and of repeated commands report.
use belay_engine.Prelude.{
  ℕ, suc, Text, Bool, List, [], ◌∷◌, Option, some, ◌==◌, filterb, ◌≡◌, refl, sym, ap, ◌∙◌, ◌↔◌, In,
  map, In-filterb, filterb_complete, nat_eq, list_eq,
}
use belay_engine.Detection.Types.{Match}
use belay_engine.Detection.Try.{>>=-eq_ok, Poll, Context, context_check, ok-injective, ok}
use belay_engine.Detection.Groups.{members, sorted_keys, group_onto}
use belay_engine.Detection.Events.{PreparedSession}
use belay_engine.Detection.Attempts.{ExplicitOutcome, outcome_beq_iff, outcome_eq, CommandAttempt}
use belay_engine.Detection.Pairing.{command_attempts}
use belay_engine.Detection.Reports.{command_failure}
use belay_engine.Detection.Detectors.{maybe, report_each, detect_explicit_command_failures}
use belay_engine.Detection.Groups.Laws.{
  keys, Ascending, In-sorted_keys, sorted_keys-Ascending, members-group,
}

-- The matches that the loop over the keys collects.
abbrev pub collect : (Text → Option Match) → List Text → List Match
collect report [] = []
collect report (key ∷ keys) = maybe (report key) (collect report keys)

pub report_each-collect :
    (ctx : Context) (index : ℕ) (report : Text → Option Match) (ks : List Text)
    (matches : List Match)
    → report_each ctx index report ks ≡ ok matches
    → matches ≡ collect report ks
unfolding report_each
report_each-collect ctx index report [] matches e = sym (ok-injective [] matches e)
report_each-collect ctx index report (k ∷ ks) matches e =
    let (_, _, e1) = >>=-eq_ok (context_check ctx Poll.reporting index) _ e in
    let (rest, found, e2) = >>=-eq_ok (report_each ctx (suc index) report ks) _ e1 in
    sym (ok-injective _ matches e2)
    ∙ ap (maybe (report k)) (report_each-collect ctx (suc index) report ks rest found)

collect-some :
    (report report' : Text → Match) (ks : List Text)
    → ((k : Text) → report k ≡ report' k)
    → collect (λ k. some (report k)) ks ≡ map report' ks
collect-some report report' [] h = refl
collect-some report report' (k ∷ ks) h =
    ap (λ m. m ∷ collect (λ j. some (report j)) ks) (h k)
    ∙ ap (◌∷◌ (report' k)) (collect-some report report' ks h)

abbrev has_failed : CommandAttempt → Bool
has_failed attempt = attempt.outcome == ExplicitOutcome.failed

-- The failed attempts with the signature.
abbrev pub failures_of : Text → List CommandAttempt → List CommandAttempt
failures_of signature attempts =
    filterb (λ attempt. attempt.signature == signature) (filterb has_failed attempts)

-- The detector of failed commands makes one match for each signature that a failed attempt has, in
-- ascending order of the signatures, and none besides; the match is made of all failed attempts with
-- that signature.
pub detect_explicit_command_failures-exact :
    (ctx : Context) (session : PreparedSession) (attempts : List CommandAttempt)
    (matches : List Match)
    → command_attempts ctx session ≡ ok attempts
    → detect_explicit_command_failures ctx session ≡ ok matches
    → (signatures : List Text) × Ascending signatures
      × ((s : Text)
          → In s signatures ↔ (
              (a : CommandAttempt) × In a attempts
              × (a.outcome ≡ ExplicitOutcome.failed)
              × (a.signature ≡ s)))
      × (matches ≡ map (λ s. command_failure session s (failures_of s attempts)) signatures)
unfolding detect_explicit_command_failures
detect_explicit_command_failures-exact ctx session attempts matches e d =
    let failed = filterb has_failed attempts in
    let groups = group_onto (λ attempt. attempt.signature) [] failed in
    let reported : report_each ctx 0 (λ s. some (command_failure session s (members s groups)))
          (sorted_keys groups)
        ≡ ok matches =
      rw e at d in
    (
      sorted_keys groups,
      sorted_keys-Ascending (λ attempt. attempt.signature) failed,
      λ s. (
        λ m.
            let (a, is, same) = (In-sorted_keys (λ attempt. attempt.signature) s failed).0 m in
            let (here, f) = In-filterb has_failed attempts a is in
            (a, here, (outcome_beq_iff a.outcome ExplicitOutcome.failed).0 f, same),
        λ (a, here, f, same). (In-sorted_keys (λ attempt. attempt.signature) s failed).1 (
          a,
          filterb_complete has_failed attempts a here
              ((outcome_beq_iff a.outcome ExplicitOutcome.failed).1 f),
          same,
        ),
      ),
      report_each-collect ctx 0 _ (sorted_keys groups) matches reported
          ∙ collect-some (λ s. command_failure session s (members s groups))
              (λ s. command_failure session s (failures_of s attempts)) (sorted_keys groups)
              (λ s.
                ap (command_failure session s)
                  (members-group (λ attempt. attempt.signature) s failed)),
    )
