-- ===== src/Examples/Proposals.antt =====
-- Proposals against active experiences, and approvals of proposals.
use native.Mathlib.Decide.{ℕ_discrete}
use belay_engine.Prelude.{
  Text, text, true, all, List, [], ◌∷◌, some, none, pos, ok, length, split, text_ltb, ◌≡◌, ◌≢◌,
  refl, ◌↔◌, ◌⊎◌, inl, inr, ◌≤◌, In,
}
use belay_engine.Experience.Enums.{
  ExperienceType-discrete, ScopeKind-discrete, Harness, ApprovalMode,
}
use belay_engine.Experience.Verifier.{VerifierKind}
use belay_engine.Experience.Model.{
  Float, ExperienceRef, DeterministicCondition, ExperienceProposal, SemanticProposal, Experience,
}
use belay_engine.Experience.Conflict.Preflight.{
  validate_advisory, scan_one, scan_all, sorted_reasons, advisory_of, preflight,
  mark_query_cap_reached,
}
use belay_engine.Experience.Conflict.{
  ConflictState, ConflictReasonCode, ConflictAdvisory, max_conflict_refs, scopes_proven_disjoint,
  verifier_opposition,
}
use belay_engine.Examples.Data.{
  project_scope, wide_scope, file_verifier, plain_guidance, file_proposal, digest,
  semantic_proposal, active_experience, digests,
}
use belay_engine.Experience.Conflict.Preflight.Outcome.{preflight-reports}
use belay_engine.Experience.Conflict.Preflight.Gathering.{Overlaps, Contradicts, Found}
use belay_engine.Experience.Conflict.Scopes.{Setting, IsInScope, scopes_proven_disjoint_exact}
use belay_engine.Experience.Conflict.Verdicts.{verifier_opposition_exact}
use belay_engine.Experience.Validate.Contracts.{
  validate_proposal, validate_semantic_proposal, validate_experience,
}
use belay_engine.Experience.Conflict.Preflight.Cap.{Capped, mark_query_cap_reached-Capped}
use belay_engine.Experience.Validate.Fields.{validate_relative_path}
use belay_engine.Experience.Validate.Fields.Paths.{stays_below, validate_relative_path-stays_below}
use belay_engine.Experience.PathMatch.{relative_path_pattern_matches}
use belay_engine.Experience.PathMatch.Relation.{SegmentsMatch, relative_path_pattern_matches_iff}
use belay_engine.Experience.Approval.{
  narrowed_comparable_set, narrowed_expiry, validate_narrowed, validate_approved_proposal,
}
use belay_engine.Experience.Approval.Narrowing.{
  IsUnexpired, SameConditions, Covers, validate_approved_proposal-narrowed,
}
use belay_engine.Experience.Normalize.{
  Guidance-discrete, Verifier-discrete, normalized_scope, normalized_applicability,
  normalized_guidance, normalized_verifier,
}
use belay_engine.Experience.Validate.Semantic.{
  SemanticDisposition, SemanticDecisionReasonCode, SemanticDecision, SemanticResult,
  SemanticProposalProvenance-discrete, validate_decision, validate_semantic_result,
}
use belay_engine.Experience.Validate.Semantic.Results.{Matches, validate_semantic_result-Matches}

abbrev active_ref : ExperienceRef
active_ref = record { experience_id = text "e"; version = pos 1 }

abbrev contradiction : ConflictAdvisory
contradiction = record {
  proposal_id = text "s";
  state = ConflictState.possible_contradiction;
  refs = active_ref ∷ [];
  reasons = ConflictReasonCode.file_verifier_opposition ∷ [];
}

preflight_contradiction :
    preflight digests semantic_proposal (active_experience ∷ []) ≡ ok contradiction
unfolding preflight validate_semantic_proposal scan_all validate_experience validate_advisory
    advisory_of scan_one
preflight_contradiction = refl

preflight-reports_example :
    ((contradiction.state ≡ ConflictState.no_conflict)
      ↔ (¬ ((x : Experience) × In x (active_experience ∷ []) × Overlaps file_proposal x)))
    × ((contradiction.state ≡ ConflictState.possible_contradiction) ↔ (
        (x : Experience) × In x (active_experience ∷ [])
        × Overlaps file_proposal x
        × Contradicts file_proposal x))
    × (length contradiction.refs ≤ max_conflict_refs)
    × ((In active_ref contradiction.refs ↔ Found file_proposal (active_experience ∷ []) active_ref)
        ⊎ ((¬ In active_ref contradiction.refs) × (length contradiction.refs ≡ max_conflict_refs)))
preflight-reports_example =
    preflight-reports digests semantic_proposal (active_experience ∷ []) contradiction active_ref
      preflight_contradiction

scopes_proven_disjoint_exact_example :
    (scopes_proven_disjoint wide_scope project_scope ≡ none)
    ↔ ((c : Setting) × IsInScope wide_scope c × IsInScope project_scope c)
scopes_proven_disjoint_exact_example = scopes_proven_disjoint_exact wide_scope project_scope

verifier_opposition_exact_example :
    (verifier_opposition
        (file_verifier VerifierKind.file_modified)
        (file_verifier VerifierKind.file_not_modified)
      ≡ none)
    ↔ ((files : List Text) × In (text "a") files × (¬ In (text "a") files))
verifier_opposition_exact_example =
    verifier_opposition_exact (file_verifier VerifierKind.file_modified)
      (file_verifier VerifierKind.file_not_modified)

abbrev clear_advisory : ConflictAdvisory
clear_advisory = record {
  proposal_id = text "s";
  state = ConflictState.no_conflict;
  refs = [];
  reasons = ConflictReasonCode.no_active_experiences ∷ [];
}

abbrev capped_advisory : ConflictAdvisory
capped_advisory = record clear_advisory {
  state = ConflictState.possible_overlap;
  reasons =
      ConflictReasonCode.active_query_cap_reached ∷ ConflictReasonCode.no_active_experiences ∷ [];
}

mark_clear : mark_query_cap_reached clear_advisory ≡ ok capped_advisory
unfolding mark_query_cap_reached validate_advisory sorted_reasons text_ltb
mark_clear = refl

mark_query_cap_reached-Capped_example :
    Capped clear_advisory capped_advisory
    × (mark_query_cap_reached capped_advisory ≡ ok capped_advisory)
mark_query_cap_reached-Capped_example =
    mark_query_cap_reached-Capped clear_advisory capped_advisory mark_clear

relative_path_pattern_matches_iff_example :
    (relative_path_pattern_matches (text "a/**/b") (text "a/x/b") ≡ true)
    ↔ SegmentsMatch (split b'/' (text "a/**/b")) (split b'/' (text "a/x/b"))
relative_path_pattern_matches_iff_example =
    relative_path_pattern_matches_iff (text "a/**/b") (text "a/x/b")

abbrev narrow_proposal : ExperienceProposal
narrow_proposal = record file_proposal { scope = project_scope }

abbrev json_of : DeterministicCondition → Text
json_of c = []

abbrev hash_of : ExperienceProposal → Text
hash_of p = digest

narrow_accepted :
    validate_approved_proposal json_of hash_of file_proposal narrow_proposal ApprovalMode.narrowed
    ≡ ok tt
unfolding validate_approved_proposal validate_proposal validate_narrowed ExperienceType-discrete
    ScopeKind-discrete normalized_scope Guidance-discrete normalized_guidance ℕ_discrete
    Verifier-discrete normalized_verifier normalized_applicability narrowed_comparable_set
    narrowed_expiry
narrow_accepted = refl

abbrev inside : Setting
inside = record {
  project = text "p";
  session = [];
  harness = Harness.codex;
  model = text "m";
  task_family = [];
}

inside_covered : Covers (normalized_scope project_scope) inside (text "a")
unfolding normalized_scope
inside_covered = (
  record {
    project = refl;
    session = λ k. cc k;
    harness = inl refl;
    model = inr (inl refl);
    task_family = inl refl;
  },
  inl refl,
)

validate_approved_proposal-narrowed_example :
    (file_proposal.scope.project_identity ≡ text "p")
    × (normalized_guidance plain_guidance ≡ normalized_guidance plain_guidance)
    × (normalized_verifier narrow_proposal.verifier ≡ normalized_verifier file_proposal.verifier)
    × SameConditions json_of file_proposal narrow_proposal
    × Covers (normalized_scope wide_scope) inside (text "a")
    × IsUnexpired none 5
validate_approved_proposal-narrowed_example =
    validate_approved_proposal-narrowed json_of hash_of file_proposal narrow_proposal inside
      (text "a") 5 narrow_accepted inside_covered tt

abbrev proposing : SemanticDecision
proposing = record {
  schema_version = text "belay.experience-semantic-decision.v1";
  decision_id = text "d";
  candidate_id = text "c";
  project_identity = text "p";
  disposition = SemanticDisposition.propose;
  reason_code = SemanticDecisionReasonCode.reusable_supported;
  explanation = text "x";
  confidence = Float.finite (pos 1) 0;
  proposal_id = text "s";
  provenance = semantic_proposal.provenance;
}

abbrev decision_id_of : SemanticDecision → Text
decision_id_of v = text "d"

abbrev proposed_result : SemanticResult
proposed_result = record { proposal = some semantic_proposal; decision = proposing }

proposed_result_valid : validate_semantic_result digests decision_id_of proposed_result ≡ ok tt
unfolding validate_semantic_result validate_decision validate_semantic_proposal
    SemanticProposalProvenance-discrete ℕ_discrete
proposed_result_valid = refl

validate_semantic_result-Matches_example :
    ((proposing.disposition ≢ SemanticDisposition.propose)
      × (proposing.proposal_id ≡ [])
      × (proposed_result.proposal ≡ none))
    ⊎ ((proposing.disposition ≡ SemanticDisposition.propose)
        × (proposing.reason_code ≡ SemanticDecisionReasonCode.reusable_supported)
        × ((p : SemanticProposal) × (proposed_result.proposal ≡ some p)
            × (validate_semantic_proposal digests p ≡ ok tt)
            × Matches proposing p))
validate_semantic_result-Matches_example =
    validate_semantic_result-Matches digests decision_id_of proposed_result proposed_result_valid

validate_relative_path-stays_below_example :
    all stays_below (split b'/' (text "src/a..b/.env")) ≡ true
unfolding validate_relative_path
validate_relative_path-stays_below_example =
    validate_relative_path-stays_below (text "src/a..b/.env") refl
