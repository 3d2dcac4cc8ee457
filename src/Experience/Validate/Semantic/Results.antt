-- ===== src/Experience/Validate/Semantic/Results.antt =====
-- A validated semantic result holds a proposal exactly if its decision proposes.
use mathlib.Core.Path.{subst}
use belay_engine.Prelude.{
  Text, text, Bool, true, false, ◌||◌, not, [], Option, some, none, ◌!=◌, ok, fail_if, ◌≡◌, ◌≢◌,
  refl, ◌↔◌, ◌⊎◌, inl, inr, arith, >>-eq_ok, not-false, text_ne-nil, fail_if-eq_ok, list_beq_iff,
  nat_eq, list_eq,
}
use belay_engine.Experience.Model.{SemanticProposal}
use belay_engine.Experience.Validate.Fields.{
  max_decision_bytes, validate_identifier, validate_one_line,
}
use belay_engine.Experience.Validate.Records.{Digests, is_none, valid_unit_interval}
use belay_engine.Experience.Validate.Contracts.{validate_semantic_proposal}
use belay_engine.Experience.Validate.Semantic.{
  SemanticDisposition, disposition_valid, SemanticDecisionReasonCode, reason_code_valid,
  SemanticDecision, SemanticResult, provenance_eq, validate_decision, validate_semantic_result,
  supports_proposal, validate_disposition, proposes, validate_proposed, validate_outcome,
}

-- The proposal carries what the decision names.
abbrev pub Matches : SemanticDecision → SemanticProposal → Type 0
Matches decision p =
    (p.candidate_id ≡ decision.candidate_id)
    × (p.project_identity ≡ decision.project_identity)
    × (p.proposal_id ≡ decision.proposal_id)
    × (p.provenance ≡ decision.provenance)

validate_disposition-propose :
    (v : SemanticDecision)
    → validate_disposition v SemanticDisposition.propose ≡ ok tt
    → v.reason_code ≡ SemanticDecisionReasonCode.reusable_supported
unfolding validate_disposition
validate_disposition-propose v h =
    let (e, _) =
      >>-eq_ok
        (fail_if (not (supports_proposal v.reason_code))
          "propose decision requires reusable-supported reason")
        _ h in
    supported v.reason_code
      (fail_if-eq_ok _ "propose decision requires reusable-supported reason" e)
  where
    supported :
        (r : SemanticDecisionReasonCode)
        → not (supports_proposal r) ≡ false
        → r ≡ SemanticDecisionReasonCode.reusable_supported
    supported r h = ground (arith, h)

validate_disposition-others :
    (v : SemanticDecision) (s : SemanticDisposition)
    → disposition_valid s ≡ true
    → proposes s ≡ false
    → validate_disposition v s ≡ ok tt
    → v.proposal_id ≡ []
unfolding validate_disposition
validate_disposition-others v SemanticDisposition.propose valid n h = cc n
validate_disposition-others v SemanticDisposition.reject valid n h = text_ne-nil v.proposal_id (
    fail_if-eq_ok _ "reject decision cannot reference a proposal"
      (>>-eq_ok (fail_if (v.proposal_id != []) "reject decision cannot reference a proposal") _
        h).0)
validate_disposition-others v SemanticDisposition.defer valid n h = text_ne-nil v.proposal_id (
    fail_if-eq_ok _ "defer decision cannot reference a proposal"
      (>>-eq_ok (fail_if (v.proposal_id != []) "defer decision cannot reference a proposal") _ h).0)
validate_disposition-others v (SemanticDisposition.other t) valid n h = cc valid

-- What the tests of a decision leave for its disposition.
validate_decision-disposition :
    (decision_id : SemanticDecision → Text) (v : SemanticDecision)
    → validate_decision decision_id v ≡ ok tt
    → (disposition_valid v.disposition ≡ true) × (validate_disposition v v.disposition ≡ ok tt)
unfolding validate_decision
validate_decision-disposition decision_id v h =
    let (_, h1) =
      >>-eq_ok
        (fail_if (v.schema_version != text "belay.experience-semantic-decision.v1")
          "semantic decision schema version is invalid")
        _ h in
    let (_, h2) =
      >>-eq_ok (validate_identifier "semantic decision candidate ID" v.candidate_id) _ h1 in
    let (_, h3) =
      >>-eq_ok (validate_identifier "semantic decision project identity" v.project_identity) _ h2 in
    let (valid, h4) =
      >>-eq_ok
        (fail_if (not (disposition_valid v.disposition)) "semantic decision disposition is invalid")
        _ h3 in
    let (_, h5) =
      >>-eq_ok
        (fail_if (not (reason_code_valid v.reason_code)) "semantic decision reason code is invalid")
        _ h4 in
    let (_, h6) =
      >>-eq_ok
        (validate_one_line "semantic decision explanation" v.explanation max_decision_bytes true) _
        h5 in
    let (_, h7) =
      >>-eq_ok
        (fail_if (not (valid_unit_interval v.confidence))
          "semantic decision confidence must be between zero and one")
        _ h6 in
    let (checked, _) = >>-eq_ok (validate_disposition v v.disposition) _ h7 in
    (
      not-false (disposition_valid v.disposition)
          (fail_if-eq_ok _ "semantic decision disposition is invalid" valid),
      checked,
    )

validate_proposed-Matches :
    (d : Digests) (decision : SemanticDecision) (m : Option SemanticProposal)
    → validate_proposed d decision m ≡ ok tt
    → (p : SemanticProposal) × (m ≡ some p)
      × (validate_semantic_proposal d p ≡ ok tt)
      × Matches decision p
validate_proposed-Matches d decision none h = cc h
validate_proposed-Matches d decision (some p) h =
    let (valid, rest) = >>-eq_ok (validate_semantic_proposal d p) _ h in
    let same = fail_if-eq_ok _ "semantic result proposal does not match decision" rest in
    (p, refl, valid, matches same)
  where
    matches :
        (p.candidate_id != decision.candidate_id
            || p.project_identity != decision.project_identity
            || p.proposal_id != decision.proposal_id
            || p.provenance != decision.provenance)
          ≡ false
        → Matches decision p
    matches h = (
      ground (arith, list_beq_iff p.candidate_id decision.candidate_id),
      ground (arith, list_beq_iff p.project_identity decision.project_identity),
      ground (arith, list_beq_iff p.proposal_id decision.proposal_id),
      ground (arith, provenance_eq.beq_iff p.provenance decision.provenance),
    )

validate_outcome-cases :
    (d : Digests) (v : SemanticResult) (b : Bool)
    → validate_outcome d v b ≡ ok tt
    → ((b ≡ false) × (v.proposal ≡ none))
      ⊎ ((b ≡ true)
          × ((p : SemanticProposal) × (v.proposal ≡ some p)
              × (validate_semantic_proposal d p ≡ ok tt)
              × Matches v.decision p))
validate_outcome-cases d v true h = inr (refl, validate_proposed-Matches d v.decision v.proposal h)
validate_outcome-cases d v false h = inl (
  refl,
  absent v.proposal (fail_if-eq_ok _ "non-propose semantic result cannot contain a proposal" h),
)
  where
    absent : (m : Option SemanticProposal) → not (is_none m) ≡ false → m ≡ none
    absent none h = refl
    absent (some p) h = cc h

proposes_iff : (s : SemanticDisposition) → (proposes s ≡ true) ↔ (s ≡ SemanticDisposition.propose)
proposes_iff SemanticDisposition.propose = (λ h. refl, λ h. refl)
proposes_iff SemanticDisposition.reject = (λ h. cc h, λ h. cc h)
proposes_iff SemanticDisposition.defer = (λ h. cc h, λ h. cc h)
proposes_iff (SemanticDisposition.other t) = (λ h. cc h, λ h. cc h)

-- A validated semantic result is of one of two kinds: its decision does not propose, names no
-- proposal, and the result holds none; or it proposes, for the reason `reusable_supported`, and the
-- result holds a valid proposal with the candidate, project, identifier and provenance of the decision.
pub validate_semantic_result-Matches :
    (d : Digests) (decision_id : SemanticDecision → Text) (v : SemanticResult)
    → validate_semantic_result d decision_id v ≡ ok tt
    → ((v.decision.disposition ≢ SemanticDisposition.propose)
        × (v.decision.proposal_id ≡ [])
        × (v.proposal ≡ none))
      ⊎ ((v.decision.disposition ≡ SemanticDisposition.propose)
          × (v.decision.reason_code ≡ SemanticDecisionReasonCode.reusable_supported)
          × ((p : SemanticProposal) × (v.proposal ≡ some p)
              × (validate_semantic_proposal d p ≡ ok tt)
              × Matches v.decision p))
unfolding validate_semantic_result
validate_semantic_result-Matches d decision_id v h =
    let (decision, rest) =
      >>-eq_ok (validate_decision decision_id v.decision)
        (validate_outcome d v (proposes v.decision.disposition)) h in
    let (valid, checked) = validate_decision-disposition decision_id v.decision decision in
    elim (validate_outcome-cases d v (proposes v.decision.disposition) rest) [
      | inl (n, absent) ↦ inl (
        λ e. cc (n, (proposes_iff v.decision.disposition).1 e),
        validate_disposition-others v.decision v.decision.disposition valid n checked,
        absent,
      )
      | inr (y, found) ↦
          let e = (proposes_iff v.decision.disposition).0 y in
          inr (
            e,
            validate_disposition-propose v.decision
                (subst (λ s. validate_disposition v.decision s ≡ ok tt) e checked),
            found,
          )
    ]
