-- ===== src/Experience/Conflict/Verdicts.antt =====
-- What verifiers ask of the modified files, and when two of them cannot both be met.
use belay_engine.Prelude.{
  Text, false, List, [], ◌∷◌, ◌++◌, some, none, ◌≡◌, refl, ◌↔◌, inl, inr, arith, In, found_or_none,
  text_eq→eq, text_ne→ne,
}
use belay_engine.Experience.Conflict.{
  ConflictReasonCode, file_path, pattern_list, verifier_opposition, opposed_kinds,
}
use belay_engine.Experience.Verifier.{VerifierKind, Verifier}
use belay_engine.Experience.PathMatch.{file_matches_any_pattern}

-- What a verifier on files asks of the list of files that a session modified. The other kinds ask
-- nothing of it.
abbrev pub Asks : Verifier → VerifierKind → List Text → Type 0
Asks v VerifierKind.file_modified files = In (file_path v.file) files
Asks v VerifierKind.file_not_modified files = ¬ In (file_path v.file) files
Asks v VerifierKind.path_pattern_not_modified files =
    (f : Text) → In f files → file_matches_any_pattern f (pattern_list v.path_pattern) ≡ false
Asks v _ files = Unit

opposed_sound :
    (l r : Verifier) (j k : VerifierKind) (reason : ConflictReasonCode) (files : List Text)
    → opposed_kinds l r j k ≡ some reason
    → Asks l j files
    → Asks r k files
    → ⊥
unfolding opposed_kinds
opposed_sound l r VerifierKind.file_modified VerifierKind.file_not_modified reason files h a b =
    b (rw (← text_eq→eq (file_path l.file) (file_path r.file) (ground arith)) a)
opposed_sound l r VerifierKind.file_not_modified VerifierKind.file_modified reason files h a b =
    a (rw (← text_eq→eq (file_path r.file) (file_path l.file) (ground arith)) b)
opposed_sound l r VerifierKind.file_modified VerifierKind.path_pattern_not_modified reason files h a
      b =
    ground (arith, b (file_path l.file) a)
opposed_sound l r VerifierKind.path_pattern_not_modified VerifierKind.file_modified reason files h a
      b =
    ground (arith, a (file_path r.file) b)
opposed_sound l r _ _ reason files h a b = ground arith

-- The files that the verifiers of kind `file_modified` ask for.
wanted : Verifier → VerifierKind → List Text
wanted v VerifierKind.file_modified = file_path v.file ∷ []
wanted v _ = []

-- A verifier alone is met by the files that it asks for.
wanted-Asks : (v : Verifier) (k : VerifierKind) → Asks v k (wanted v k)
unfolding wanted
wanted-Asks v VerifierKind.file_modified = inl refl
wanted-Asks v VerifierKind.file_not_modified = λ m. m
wanted-Asks v VerifierKind.path_pattern_not_modified = λ f m. absurd m
wanted-Asks v _ = tt

opposed_complete :
    (l r : Verifier) (j k : VerifierKind)
    → opposed_kinds l r j k ≡ none
    → Asks l j (wanted l j ++ wanted r k) × Asks r k (wanted l j ++ wanted r k)
unfolding opposed_kinds wanted
opposed_complete l r VerifierKind.file_modified VerifierKind.file_modified h =
    (inl refl, inr (inl refl))
opposed_complete l r VerifierKind.file_modified VerifierKind.file_not_modified h =
    (inl refl, ground (arith, text_ne→ne (file_path l.file) (file_path r.file)))
opposed_complete l r VerifierKind.file_modified VerifierKind.path_pattern_not_modified h =
    (inl refl, λ f m. elim m [ inl e ↦ rw e (ground arith) | inr b ↦ absurd b ])
opposed_complete l r VerifierKind.file_modified _ h = (inl refl, tt)
opposed_complete l r VerifierKind.file_not_modified VerifierKind.file_modified h =
    (ground (arith, text_ne→ne (file_path r.file) (file_path l.file)), inl refl)
opposed_complete l r VerifierKind.file_not_modified VerifierKind.file_not_modified h =
    (λ m. m, λ m. m)
opposed_complete l r VerifierKind.file_not_modified VerifierKind.path_pattern_not_modified h =
    (λ m. m, λ f m. absurd m)
opposed_complete l r VerifierKind.file_not_modified _ h = (λ m. m, tt)
opposed_complete l r VerifierKind.path_pattern_not_modified VerifierKind.file_modified h =
    (λ f m. elim m [ inl e ↦ rw e (ground arith) | inr b ↦ absurd b ], inl refl)
opposed_complete l r VerifierKind.path_pattern_not_modified VerifierKind.file_not_modified h =
    (λ f m. absurd m, λ m. m)
opposed_complete l r VerifierKind.path_pattern_not_modified VerifierKind.path_pattern_not_modified
      h =
    (λ f m. absurd m, λ f m. absurd m)
opposed_complete l r VerifierKind.path_pattern_not_modified _ h = (λ f m. absurd m, tt)
opposed_complete l r _ k h = (tt, wanted-Asks r k)

-- Two verifiers are not found opposed exactly when some set of modified files satisfies what both
-- ask of the modified files.
pub verifier_opposition_exact :
    (l r : Verifier)
    → (verifier_opposition l r ≡ none)
      ↔ ((files : List Text) × Asks l l.kind files × Asks r r.kind files)
unfolding verifier_opposition
verifier_opposition_exact l r = (
  λ h.
      let (a, b) = opposed_complete l r l.kind r.kind h in
      (wanted l l.kind ++ wanted r r.kind, a, b),
  λ (files, a, b). elim (found_or_none (verifier_opposition l r)) [
    | inl e ↦ e
    | inr (reason, e) ↦ absurd (opposed_sound l r l.kind r.kind reason files e a b)
  ],
)
