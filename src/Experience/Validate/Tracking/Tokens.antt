-- ===== src/Experience/Validate/Tracking/Tokens.antt =====
-- What a validated lifecycle token allows.
use belay_engine.Prelude.{
  text, true, not, ◌!=◌, ok, fail_if, ◌≡◌, arith, ◌<◌, >>-eq_ok, not-false, fail_if-eq_ok, nat_eq,
  list_eq,
}
use belay_engine.Experience.Validate.Fields.{validate_identifier, valid_sha256}
use belay_engine.Experience.Validate.Records.{validate_ref}
use belay_engine.Experience.Lifecycle.{action_valid, valid_lifecycle_transition, transition_from}
use belay_engine.Experience.Lifecycle.Transitions.{transition_from-valid}
use belay_engine.Experience.Validate.Tracking.{LifecycleActionTokenClaims, validate_lifecycle_token}

-- A validated lifecycle token has an action that makes a transition of the table from the state that
-- the token names, and it expires after it was issued.
pub validate_lifecycle_token-valid :
    (v : LifecycleActionTokenClaims)
    → validate_lifecycle_token v ≡ ok tt
    → (valid_lifecycle_transition v.current_lifecycle
          (transition_from v.action v.current_lifecycle).0
        ≡ true)
      × (v.issued_at < v.expires_at)
unfolding validate_lifecycle_token
validate_lifecycle_token-valid v h =
    let (_, h1) =
      >>-eq_ok
        (fail_if (v.version != text "belay.experience-lifecycle-token.v1")
          "experience lifecycle token version is invalid")
        _ h in
    let (_, h2) = >>-eq_ok (validate_ref v.experience) _ h1 in
    let (_, h3) =
      >>-eq_ok (validate_identifier "experience lifecycle project identity" v.project_identity) _
        h2 in
    let (_, h4) =
      >>-eq_ok (fail_if (not (action_valid v.action)) "experience lifecycle action is invalid") _
        h3 in
    let (accepted, h5) =
      >>-eq_ok
        (fail_if (not (transition_from v.action v.current_lifecycle).1)
          "experience lifecycle action does not match current state")
        _ h4 in
    let (_, h6) =
      >>-eq_ok
        (fail_if (not (valid_sha256 v.content_hash))
          "experience lifecycle content hash must be sha256")
        _ h5 in
    let window = fail_if-eq_ok _ "experience lifecycle token time window is invalid" h6 in
    (
      (transition_from-valid v.action v.current_lifecycle (
          not-false (transition_from v.action v.current_lifecycle).1 (
            fail_if-eq_ok _ "experience lifecycle action does not match current state"
              accepted))).1,
      ground (arith, window),
    )
