-- ===== src/Experience/Approval/Token.antt =====
-- The approval token of internal/experience/approval.go. `validate_approval_token` ranges over a map
-- of identifiers, whose order Go leaves open: `visit` gives the order of that run.
pub mod Accepted
use belay_engine.Prelude.{
  ◌/◌, String, Text, text, ◌||◌, not, List, [], ◌∷◌, ◌!=◌, Check, fail_if, each, ◌+◌, ◌-◌, map,
  nat_eq, list_eq, ◌>>◌, ◌>>=◌,
}
use belay_engine.Experience.Model.{Time, is_zero, after, ℤ-discrete, ExperienceRef-discrete}
use belay_engine.Experience.Validate.Fields.{validate_identifier, valid_sha256}

pub record ApprovalTokenClaims : Type 0 where
  pub version : Text
  pub candidate_id : Text
  pub proposal_id : Text
  pub project_identity : Text
  pub semantic_input_hash : Text
  pub proposed_content_hash : Text
  pub evidence_generation : Text
  pub issued_at : Time
  pub expires_at : Time

-- The entries of the map literal, each under its `"experience approval "+name`.
abbrev pub token_identifiers : ApprovalTokenClaims → List (String × Text)
token_identifiers v =
    ("experience approval candidate ID", v.candidate_id)
    ∷ ("experience approval proposal ID", v.proposal_id)
    ∷ ("experience approval project identity", v.project_identity)
    ∷ []

-- `ApprovalTokenClaims.Validate`
unfoldable pub validate_approval_token :
    (List (String × Text) → List (String × Text)) → ApprovalTokenClaims → Check
unfolding validate_identifier valid_sha256
validate_approval_token visit v = do
  fail_if (v.version != text "belay.experience-approval-token.v1")
      "experience approval token version is invalid"
  each (λ (e : String × Text). validate_identifier e.0 e.1) (visit (token_identifiers v))
  fail_if
      (not (valid_sha256 v.semantic_input_hash)
        || not (valid_sha256 v.proposed_content_hash)
        || not (valid_sha256 v.evidence_generation))
      "experience approval token hashes must be sha256"
  fail_if (is_zero v.issued_at || is_zero v.expires_at || not (after v.expires_at v.issued_at))
      "experience approval token time window is invalid"
