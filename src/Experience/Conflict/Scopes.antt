-- ===== src/Experience/Conflict/Scopes.antt =====
-- What a scope covers, and that `scopesProvenDisjoint` decides whether two scopes share a setting.
use belay_engine.Prelude.{
  Text, true, false, ◌&&◌, not, List, [], ◌∷◌, some, none, ◌!=◌, contains, Eq, ◌≡◌, refl, ◌↔◌, ◌⊎◌,
  inl, inr, arith, In, contains_iff, all_sound, all-false, found_or_none, list_beq_iff, nat_eq,
  list_eq,
}
use belay_engine.Experience.Model.{Scope}
use belay_engine.Experience.Conflict.{
  ConflictReasonCode, exact_sets_disjoint, both_sessions, scopes_proven_disjoint,
}
use belay_engine.Experience.Enums.{ScopeKind, Harness, harness_eq}

-- Where a task runs.
pub record Setting : Type 0 where
  pub project : Text
  pub session : Text
  pub harness : Harness
  pub model : Text
  pub task_family : Text

-- A list restricts a setting unless it is empty.
abbrev pub Admits : {A : Type 0} → List A → A → Type 0
Admits values a = (values ≡ []) ⊎ In a values

pub record IsInScope (s : Scope) (c : Setting) : Type 0 where
  pub project : c.project ≡ s.project_identity
  pub session : s.kind ≡ ScopeKind.session → c.session ≡ s.session_key
  pub harness : Admits s.harnesses c.harness
  pub model : Admits s.models c.model
  pub task_family : Admits s.task_families c.task_family

module _ {A : Type 0} ⦃e : Eq A⦄ where
  exact_sets_disjoint_sound :
      (left right : List A) (a : A)
      → exact_sets_disjoint left right ≡ true
      → Admits left a
      → Admits right a
      → ⊥
  unfolding exact_sets_disjoint
  exact_sets_disjoint_sound [] right a h l r = cc
  exact_sets_disjoint_sound (x ∷ xs) [] a h l r = cc
  exact_sets_disjoint_sound (x ∷ xs) (y ∷ ys) a h (inl p) r = cc
  exact_sets_disjoint_sound (x ∷ xs) (y ∷ ys) a h (inr l) (inl q) = cc
  exact_sets_disjoint_sound (x ∷ xs) (y ∷ ys) a h (inr l) (inr r) =
      let free = all_sound (λ value. not (contains (x ∷ xs) value)) (y ∷ ys) h a r in
      ground (arith, free, (contains_iff (x ∷ xs) a).1 l)

  -- A value in both lists, or a default where neither restricts.
  exact_sets_common :
      (left right : List A) (default : A)
      → exact_sets_disjoint left right ≡ false
      → (a : A) × Admits left a × Admits right a
  unfolding exact_sets_disjoint
  exact_sets_common [] [] default h = (default, inl refl, inl refl)
  exact_sets_common [] (y ∷ ys) default h = (y, inl refl, inr (inl refl))
  exact_sets_common (x ∷ xs) [] default h = (x, inr (inl refl), inl refl)
  exact_sets_common (x ∷ xs) (y ∷ ys) default h =
      let (a, m, f) = all-false (λ value. not (contains (x ∷ xs) value)) (y ∷ ys) h in
      (a, inr ((contains_iff (x ∷ xs) a).0 (ground arith)), inr m)

-- Scopes are found disjoint only if no setting lies in both.
scopes_disjoint_sound :
    (l r : Scope) (reason : ConflictReasonCode) (c : Setting)
    → scopes_proven_disjoint l r ≡ some reason
    → IsInScope l c
    → IsInScope r c
    → ⊥
unfolding scopes_proven_disjoint
scopes_disjoint_sound l r reason c h a b = ground (
  arith,
  list_beq_iff l.project_identity r.project_identity,
  list_beq_iff l.session_key r.session_key,
  exact_sets_disjoint_sound l.harnesses r.harnesses c.harness,
  exact_sets_disjoint_sound l.models r.models c.model,
  exact_sets_disjoint_sound l.task_families r.task_families c.task_family,
)

-- The session that two scopes share: that of a session scope, if one of them is.
shared_session : Scope → Scope → ScopeKind → Text
shared_session l r ScopeKind.session = l.session_key
shared_session l r _ = r.session_key

shared_session_fits :
    (l r : Scope)
    → (both_sessions l.kind r.kind && l.session_key != r.session_key) ≡ false
    → (l.kind ≡ ScopeKind.session → shared_session l r l.kind ≡ l.session_key)
      × (r.kind ≡ ScopeKind.session → shared_session l r l.kind ≡ r.session_key)
unfolding shared_session
shared_session_fits l r h =
    (λ p. rw p, λ q. ground (arith, list_beq_iff l.session_key r.session_key))

scopes_share :
    (l r : Scope)
    → scopes_proven_disjoint l r ≡ none
    → (c : Setting) × IsInScope l c × IsInScope r c
unfolding scopes_proven_disjoint
scopes_share l r h =
    let same : l.project_identity ≡ r.project_identity =
      ground (arith, list_beq_iff l.project_identity r.project_identity) in
    let sessions : (both_sessions l.kind r.kind && l.session_key != r.session_key) ≡ false =
      ground arith in
    let (hn, hl, hr) = exact_sets_common l.harnesses r.harnesses Harness.claude (ground arith) in
    let (mo, ml, mr) = exact_sets_common l.models r.models [] (ground arith) in
    let (tf, tl, tr) = exact_sets_common l.task_families r.task_families [] (ground arith) in
    let (fl, fr) = shared_session_fits l r sessions in
    (
      record {
        project = l.project_identity;
        session = shared_session l r l.kind;
        harness = hn;
        model = mo;
        task_family = tf;
      },
      record { project = refl; session = fl; harness = hl; model = ml; task_family = tl },
      record { project = same; session = fr; harness = hr; model = mr; task_family = tr },
    )

-- Two scopes are not found disjoint exactly when some setting (project, session, harness, model and
-- one task family) lies in both.
pub scopes_proven_disjoint_exact :
    (l r : Scope)
    → (scopes_proven_disjoint l r ≡ none) ↔ ((c : Setting) × IsInScope l c × IsInScope r c)
scopes_proven_disjoint_exact l r = (
  scopes_share l r,
  λ (c, a, b). elim (found_or_none (scopes_proven_disjoint l r)) [
    | inl e ↦ e
    | inr (reason, e) ↦ absurd (scopes_disjoint_sound l r reason c e a b)
  ],
)
