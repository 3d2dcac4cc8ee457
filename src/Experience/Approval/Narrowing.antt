-- ===== src/Experience/Approval/Narrowing.antt =====
-- A narrowed approval applies only where the original proposal applies.
use belay_engine.Prelude.{
  Text, Bool, true, false, ◌||◌, List, [], ◌∷◌, Option, some, none, ◌!=◌, contains, ok, all, Eq,
  ◌≡◌, refl, sym, ◌∙◌, inl, inr, arith, ◌<◌, Bool-cases, contains_iff, all_sound, >>-eq_ok,
  not-false, guard-eq_ok, list_beq_iff, nat_eq, list_eq,
}
use belay_engine.Experience.Normalize.{
  condition_eq, normalized_applicability, guidance_eq, verifier_eq, normalized_scope,
  normalized_guidance, normalized_verifier,
}
use belay_engine.Experience.Model.{Time, Scope, DeterministicCondition, ExperienceProposal}
use belay_engine.Experience.Validate.Contracts.{validate_proposal}
use belay_engine.Experience.Enums.{experience_type_eq, scope_kind_eq, harness_eq, ApprovalMode}
use belay_engine.Experience.Conflict.Scopes.{Setting, Admits, IsInScope}
use belay_engine.Experience.Approval.{
  narrowed_comparable_set, narrowed_expiry, validate_narrowed, validate_approved_proposal,
  non_scope_edit, validate_mode,
}

-- An accepted list restricts: what it admits, the original admits too.
narrowed_set-Admits :
    {A : Type 0} ⦃e : Eq A⦄ (original approved : List A) (a : A)
    → (narrowed_comparable_set original approved).0 ≡ true
    → Admits approved a
    → Admits original a
unfolding narrowed_comparable_set
narrowed_set-Admits [] approved a h m = inl refl
narrowed_set-Admits (x ∷ xs) [] a h m = cc
narrowed_set-Admits (x ∷ xs) (y ∷ ys) a h (inl p) = cc
narrowed_set-Admits (x ∷ xs) (y ∷ ys) a h (inr m) =
    elim (Bool-cases (all (λ value. contains (x ∷ xs) value) (y ∷ ys))) [
      | inl t ↦ inr (
          (contains_iff (x ∷ xs) a).0 (all_sound (λ value. contains (x ∷ xs) value) (y ∷ ys) t a m))
      | inr f ↦ absurd (ground (arith, f, h))
    ]

-- At time t the content has not expired: `!t.Before(expires)` ends it.
abbrev pub IsUnexpired : Option Time → Time → Type 0
IsUnexpired none t = Unit
IsUnexpired (some expires) t = t < expires

narrowed_expiry-IsUnexpired :
    (original approved : Option Time) (t : Time)
    → narrowed_expiry original approved ≡ true
    → IsUnexpired approved t
    → IsUnexpired original t
unfolding narrowed_expiry
narrowed_expiry-IsUnexpired none approved t h u = tt
narrowed_expiry-IsUnexpired (some o) none t h u = cc
narrowed_expiry-IsUnexpired (some o) (some a) t h u = ground arith

-- A scope's settings and the repository paths that it is restricted to.
abbrev pub Covers : Scope → Setting → Text → Type 0
Covers s c path = IsInScope s c × Admits s.repository_paths path

-- What the validation of a narrowed proposal has tested.
record Tested (marshal : DeterministicCondition → Text) (o a : ExperienceProposal) : Type 0 where
  same : non_scope_edit marshal o a ≡ false
  paths :
      (narrowed_comparable_set
        (normalized_scope o.scope).repository_paths
        (normalized_scope a.scope).repository_paths).0
      ≡ true
  families :
      (narrowed_comparable_set
        (normalized_scope o.scope).task_families
        (normalized_scope a.scope).task_families).0
      ≡ true
  models :
      (narrowed_comparable_set
        (normalized_scope o.scope).models
        (normalized_scope a.scope).models).0
      ≡ true
  harnesses :
      (narrowed_comparable_set
        (normalized_scope o.scope).harnesses
        (normalized_scope a.scope).harnesses).0
      ≡ true
  expiry : narrowed_expiry o.applicability.expires_at a.applicability.expires_at ≡ true

validate_narrowed-Tested :
    (marshal : DeterministicCondition → Text) (o a : ExperienceProposal)
    → validate_narrowed marshal o a ≡ ok tt
    → Tested marshal o a
unfolding validate_narrowed
validate_narrowed-Tested marshal o a h =
    let (e1, r1) = guard-eq_ok _ _ _ h in
    let (e2, r2) = guard-eq_ok _ _ _ r1 in
    let (e3, r3) = guard-eq_ok _ _ _ r2 in
    let (e4, r4) = guard-eq_ok _ _ _ r3 in
    let (e5, r5) = guard-eq_ok _ _ _ r4 in
    let (e6, r6) = guard-eq_ok _ _ _ r5 in
    record {
      same = e1;
      paths = not-false _ e2;
      families = not-false _ e3;
      models = not-false _ e4;
      harnesses = not-false _ e5;
      expiry = not-false _ e6;
    }

-- Where a proposal applies but for its scope lists and expiry: the type, and in normal form the
-- description, the conditions and the exclusions.
pub record SameConditions (marshal : DeterministicCondition → Text) (o a : ExperienceProposal)
    : Type 0 where
  pub type : a.type ≡ o.type
  pub description :
      (normalized_applicability marshal a.applicability).semantic_description
      ≡ (normalized_applicability marshal o.applicability).semantic_description
  pub conditions :
      (normalized_applicability marshal a.applicability).deterministic_conditions
      ≡ (normalized_applicability marshal o.applicability).deterministic_conditions
  pub exclusions :
      (normalized_applicability marshal a.applicability).exclusions
      ≡ (normalized_applicability marshal o.applicability).exclusions

-- The parts of the proposal that a narrowed approval leaves as they are.
record Unedited (marshal : DeterministicCondition → Text) (o a : ExperienceProposal) : Type 0 where
  kind : (normalized_scope a.scope).kind ≡ (normalized_scope o.scope).kind
  project :
      (normalized_scope a.scope).project_identity ≡ (normalized_scope o.scope).project_identity
  session : (normalized_scope a.scope).session_key ≡ (normalized_scope o.scope).session_key
  guidance : normalized_guidance a.guidance ≡ normalized_guidance o.guidance
  verifier : normalized_verifier a.verifier ≡ normalized_verifier o.verifier
  same_conditions : SameConditions marshal o a

or_false : (b c : Bool) → (b || c) ≡ false → (b ≡ false) × (c ≡ false)
or_false true c h = cc
or_false false c h = (refl, h)

same_of : {A : Type 0} ⦃e : Eq A⦄ (x y : A) → (x != y) ≡ false → x ≡ y
same_of ⦃e⦄ x y h = (e.beq_iff x y).0 (not-false _ h)

non_scope_edit-Unedited :
    (marshal : DeterministicCondition → Text) (o a : ExperienceProposal)
    → non_scope_edit marshal o a ≡ false
    → Unedited marshal o a
non_scope_edit-Unedited marshal o a h =
    let (h8, exclusions) = or_false _ _ h in
    let (h7, conditions) = or_false _ _ h8 in
    let (h6, description) = or_false _ _ h7 in
    let (h5, verifiers) = or_false _ _ h6 in
    let (h4, guidances) = or_false _ _ h5 in
    let (h3, sessions) = or_false _ _ h4 in
    let (h2, projects) = or_false _ _ h3 in
    let (types, kinds) = or_false _ _ h2 in
    record {
      kind = same_of _ _ kinds;
      project = same_of _ _ projects;
      session = same_of _ _ sessions;
      guidance = same_of _ _ guidances;
      verifier = same_of _ _ verifiers;
      same_conditions = record {
        type = same_of _ _ types;
        description = same_of _ _ description;
        conditions = same_of _ _ conditions;
        exclusions = same_of _ _ exclusions;
      };
    }

-- Every setting and path that the narrowed scope covers, the original scope covers.
Tested-Covers :
    (marshal : DeterministicCondition → Text) (o a : ExperienceProposal) (c : Setting) (path : Text)
    → Tested marshal o a
    → Covers (normalized_scope a.scope) c path
    → Covers (normalized_scope o.scope) c path
Tested-Covers marshal o a c path t (i, p) =
    let u = non_scope_edit-Unedited marshal o a t.same in
    let ns = normalized_scope o.scope in
    let na = normalized_scope a.scope in
    (
      record {
        project = i.project ∙ u.project;
        session = λ k. i.session (u.kind ∙ k) ∙ u.session;
        harness = narrowed_set-Admits ns.harnesses na.harnesses c.harness t.harnesses i.harness;
        model = narrowed_set-Admits ns.models na.models c.model t.models i.model;
        task_family =
            narrowed_set-Admits ns.task_families na.task_families c.task_family t.families
              i.task_family;
      },
      narrowed_set-Admits ns.repository_paths na.repository_paths path t.paths p,
    )

-- What every accepted approval has passed before its mode is looked at.
accepted_mode :
    (marshal : DeterministicCondition → Text) (content_hash : ExperienceProposal → Text)
    (o a : ExperienceProposal) (mode : ApprovalMode)
    → validate_approved_proposal marshal content_hash o a mode ≡ ok tt
    → (o.scope.project_identity ≡ a.scope.project_identity)
      × (validate_mode marshal content_hash o a mode ≡ ok tt)
unfolding validate_approved_proposal
accepted_mode marshal content_hash o a mode h =
    let (e1, r1) = guard-eq_ok _ _ _ h in
    let (e2, r2) = >>-eq_ok (validate_proposal a) _ r1 in
    let (e3, r3) =
      guard-eq_ok a.semantic_compilation_pending
        "approved experience cannot remain pending compilation" _ r2 in
    let (e4, r4) =
      guard-eq_ok (a.scope.project_identity != o.scope.project_identity)
        "approved experience project identity must remain unchanged" _ r3 in
    (sym (same a.scope.project_identity o.scope.project_identity e4), r4)
  where
    same : (s t : Text) → (s != t) ≡ false → s ≡ t
    same s t h = ground (arith, list_beq_iff s t)

-- An approval accepted as `narrowed` changes neither the project nor the type, nor, in normal form,
-- guidance, verifier, description, conditions and exclusions; a setting and repository path that it
-- covers is covered by the original, and at a time at which it has not expired neither has the
-- original.
pub validate_approved_proposal-narrowed :
    (marshal : DeterministicCondition → Text) (content_hash : ExperienceProposal → Text)
    (o a : ExperienceProposal) (c : Setting) (path : Text) (t : Time)
    → validate_approved_proposal marshal content_hash o a ApprovalMode.narrowed ≡ ok tt
    → Covers (normalized_scope a.scope) c path
    → IsUnexpired a.applicability.expires_at t
    → (o.scope.project_identity ≡ a.scope.project_identity)
      × (normalized_guidance a.guidance ≡ normalized_guidance o.guidance)
      × (normalized_verifier a.verifier ≡ normalized_verifier o.verifier)
      × SameConditions marshal o a
      × Covers (normalized_scope o.scope) c path
      × IsUnexpired o.applicability.expires_at t
unfolding validate_narrowed validate_mode
validate_approved_proposal-narrowed marshal content_hash o a c path t h covers unexpired =
    let (project, mode) = accepted_mode marshal content_hash o a ApprovalMode.narrowed h in
    let tested = validate_narrowed-Tested marshal o a mode in
    let u = non_scope_edit-Unedited marshal o a tested.same in
    (
      project,
      u.guidance,
      u.verifier,
      u.same_conditions,
      Tested-Covers marshal o a c path tested covers,
      narrowed_expiry-IsUnexpired o.applicability.expires_at a.applicability.expires_at t
          tested.expiry unexpired,
    )
