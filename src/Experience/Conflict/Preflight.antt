-- ===== src/Experience/Conflict/Preflight.antt =====
-- `ConflictAdvisory.Validate`, `PreflightSemanticProposalConflict` and
-- `MarkConflictActiveQueryCapReached` of internal/experience/conflict.go. A Go map to `true` is the
-- list of its keys.
pub mod Gathering
pub mod Outcome
pub mod Cap
use belay_engine.Prelude.{
  Text, Bool, true, false, ◌&&◌, ◌||◌, not, List, [], ◌∷◌, ◌++◌, Option, some, none, ltb, ◌!=◌,
  ltb_ℤ, contains, is_empty, if◌then◌else◌, Result, Check, ok, fail_if, ◌>>◌, wrap, length, take,
  text_ltb, sort, Eq, nat_eq, list_eq, ◌>>=◌,
}
use belay_engine.Experience.Model.{
  ExperienceRef, ExperienceRef-discrete, experience_ref_eq, ExperienceProposal, SemanticProposal,
  Experience,
}
use belay_engine.Experience.Validate.Fields.{validate_identifier}
use belay_engine.Experience.Validate.Records.{Digests, validate_ref}
use belay_engine.Experience.Validate.Contracts.{validate_semantic_proposal, validate_experience}
use belay_engine.Experience.Conflict.{
  ConflictState, conflict_state_valid, ConflictReasonCode, ConflictReasonCode-discrete, reason_eq,
  reason_valid, ConflictAdvisory, max_conflict_refs, max_conflict_reasons, reason_ltb,
  scopes_proven_disjoint, verifier_opposition,
}

-- `set[key] = true`
abbrev insert_key : {A : Type 0} ⦃e : Eq A⦄ → A → List A → List A
insert_key key keys = if contains keys key then keys else key ∷ keys

-- The loop over the references: valid and not seen before.
validate_refs : List ExperienceRef → List ExperienceRef → Check
unfolding validate_ref ExperienceRef-discrete
validate_refs seen [] = ok tt
validate_refs seen (ref ∷ refs) = do
  validate_ref ref
  fail_if (contains seen ref) "conflicting experience references must be unique"
  validate_refs (ref ∷ seen) refs

-- The loop over the reason codes: valid and not seen before.
validate_reasons : List ConflictReasonCode → List ConflictReasonCode → Check
unfolding ConflictReasonCode-discrete
validate_reasons seen [] = ok tt
validate_reasons seen (reason ∷ reasons) = do
  fail_if (not (reason_valid reason)) "conflict reason code is invalid"
  fail_if (contains seen reason) "conflict reason codes must be unique"
  validate_reasons (reason ∷ seen) reasons

-- `hasQueryCapReason`
abbrev capped : ConflictAdvisory → Bool
capped v = contains v.reasons ConflictReasonCode.active_query_cap_reached

-- The tests on the state, after the loops.
abbrev validate_state : ConflictAdvisory → ConflictState → Check
validate_state v ConflictState.no_conflict =
    fail_if (capped v) "query-capped advisory cannot claim no conflict"
validate_state v ConflictState.possible_overlap =
    fail_if (is_empty v.refs && not (capped v))
      "reference-free possible overlap requires query-cap uncertainty"
validate_state v ConflictState.possible_contradiction =
    fail_if (is_empty v.refs) "possible contradiction requires a conflicting experience reference"
validate_state v (ConflictState.other _) = ok tt

abbrev is_no_conflict : ConflictState → Bool
is_no_conflict ConflictState.no_conflict = true
is_no_conflict _ = false

-- `ConflictAdvisory.Validate`
unfoldable pub validate_advisory : ConflictAdvisory → Check
unfolding validate_refs validate_reasons validate_identifier ConflictReasonCode-discrete
validate_advisory v = do
  validate_identifier "conflict proposal ID" v.proposal_id
  fail_if (not (conflict_state_valid v.state)) "conflict state is invalid"
  fail_if (ltb max_conflict_refs (length v.refs))
      "conflicting experience references exceed item limit"
  fail_if (is_empty v.reasons || ltb max_conflict_reasons (length v.reasons))
      "conflict reason codes are required and bounded"
  fail_if (is_no_conflict v.state && not (is_empty v.refs))
      "no-conflict advisory cannot cite conflicting experiences"
  validate_refs [] v.refs
  validate_reasons [] v.reasons
  validate_state v v.state

-- What the loop over the active experiences gathers.
pub record Scan : Type 0 where
  pub disjoint_reasons : List ConflictReasonCode
  pub conflict_reasons : List ConflictReasonCode
  pub refs : List ExperienceRef
  pub contradiction : Bool

abbrev pub no_scan : Scan
no_scan = record { disjoint_reasons = []; conflict_reasons = []; refs = []; contradiction = false }

abbrev pub ref_of : Experience → ExperienceRef
ref_of x = record { experience_id = x.experience_id; version = x.version }

scan_opposed : Scan → Option ConflictReasonCode → Scan
unfolding ConflictReasonCode-discrete
scan_opposed s none = record s {
  conflict_reasons = insert_key ConflictReasonCode.overlapping_scope s.conflict_reasons;
}
scan_opposed s (some reason) = record s {
  conflict_reasons = insert_key reason s.conflict_reasons;
  contradiction = true;
}

scan_scopes : ExperienceProposal → Experience → Scan → Option ConflictReasonCode → Scan
unfolding scan_opposed verifier_opposition ExperienceRef-discrete ConflictReasonCode-discrete
scan_scopes p x s (some reason) = record s {
  disjoint_reasons = insert_key reason s.disjoint_reasons;
}
scan_scopes p x s none =
    scan_opposed (record s { refs = insert_key (ref_of x) s.refs })
      (verifier_opposition p.verifier x.verifier)

-- One round of the loop.
unfoldable pub scan_one : ExperienceProposal → Experience → Scan → Scan
unfolding scan_scopes scopes_proven_disjoint
scan_one p x s = scan_scopes p x s (scopes_proven_disjoint p.scope x.scope)

unfoldable pub scan_all : Digests → ExperienceProposal → List Experience → Scan → Result Scan
scan_all d p [] s = ok s
scan_all d p (x ∷ xs) s = do
  wrap "validate active experience for conflict preflight: " (validate_experience d x)
  scan_all d p xs (scan_one p x s)

-- `sortedConflictReasons`
unfoldable pub sorted_reasons : List ConflictReasonCode → List ConflictReasonCode
unfolding sort reason_ltb
sorted_reasons values = sort reason_ltb values

unfoldable pub ref_ltb : ExperienceRef → ExperienceRef → Bool
unfolding text_ltb
ref_ltb a b =
    if a.experience_id != b.experience_id
    then text_ltb a.experience_id b.experience_id
    else ltb_ℤ a.version b.version

-- `sortedConflictRefs`
unfoldable pub sorted_refs : List ExperienceRef → List ExperienceRef
unfolding sort ref_ltb
sorted_refs values = sort ref_ltb values

-- The result once the loop is done, before its validation.
unfoldable pub advisory_of : Text → Scan → ConflictAdvisory
unfolding sorted_reasons sorted_refs ConflictReasonCode-discrete
advisory_of proposal_id s =
    let truncated = ltb max_conflict_refs (length (sorted_refs s.refs)) in
    let conflicts : ConflictAdvisory = record {
      proposal_id = proposal_id;
      state =
          if s.contradiction
          then ConflictState.possible_contradiction
          else ConflictState.possible_overlap;
      refs = if truncated then take max_conflict_refs (sorted_refs s.refs) else sorted_refs s.refs;
      reasons = sorted_reasons (
          if truncated
          then insert_key ConflictReasonCode.experience_refs_truncated s.conflict_reasons
          else s.conflict_reasons);
    } in
    if is_empty s.refs
    then record {
      proposal_id = proposal_id;
      state = ConflictState.no_conflict;
      refs = [];
      reasons = sorted_reasons s.disjoint_reasons;
    }
    else conflicts

-- `return result, result.Validate()`
abbrev validated : ConflictAdvisory → Result ConflictAdvisory
validated v = validate_advisory v >> ok v

nothing_active : Text → ConflictAdvisory
nothing_active proposal_id = record {
  proposal_id = proposal_id;
  state = ConflictState.no_conflict;
  refs = [];
  reasons = ConflictReasonCode.no_active_experiences ∷ [];
}

-- `PreflightSemanticProposalConflict`
unfoldable pub preflight : Digests → SemanticProposal → List Experience → Result ConflictAdvisory
unfolding nothing_active
preflight d proposal [] = do
  wrap "validate semantic proposal for conflict preflight: " (validate_semantic_proposal d proposal)
  validated (nothing_active proposal.proposal_id)
preflight d proposal (x ∷ xs) = do
  wrap "validate semantic proposal for conflict preflight: " (validate_semantic_proposal d proposal)
  s ← scan_all d proposal.proposal (x ∷ xs) no_scan
  validated (advisory_of proposal.proposal_id s)

abbrev raise_no_conflict : ConflictState → ConflictState
raise_no_conflict ConflictState.no_conflict = ConflictState.possible_overlap
raise_no_conflict s = s

abbrev mark_capped : ConflictAdvisory → ConflictAdvisory
mark_capped v = record v {
  state = raise_no_conflict v.state;
  reasons =
      if capped v
      then v.reasons
      else sorted_reasons (v.reasons ++ ConflictReasonCode.active_query_cap_reached ∷ []);
}

-- `MarkConflictActiveQueryCapReached`
unfoldable pub mark_query_cap_reached : ConflictAdvisory → Result ConflictAdvisory
mark_query_cap_reached v = do validate_advisory v; validated (mark_capped v)
