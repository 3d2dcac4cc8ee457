-- ===== src/Experience/Conflict/Preflight/Gathering.antt =====
-- What the loop of PreflightSemanticProposalConflict gathers, internal/experience/conflict.go.
use mathlib.Core.Path.{subst}
use mathlib.Core.Path.{subst}
use belay_engine.Prelude.{
  true, List, [], ◌∷◌, Option, some, none, contains, ok, wrap, Eq, ◌≡◌, refl, ◌↔◌, ◌⊎◌, inl, inr,
  In, Bool-cases, contains_iff, >>-eq_ok, ok-injective,
}
use belay_engine.Experience.Model.{ExperienceRef, experience_ref_eq, ExperienceProposal, Experience}
use belay_engine.Experience.Validate.Records.{Digests}
use belay_engine.Experience.Validate.Contracts.{validate_experience}
use belay_engine.Experience.Conflict.{
  ConflictReasonCode, scopes_proven_disjoint, verifier_opposition,
}
use belay_engine.Experience.Conflict.Preflight.{
  Scan, ref_of, scan_one, scan_all, insert_key, scan_opposed, scan_scopes,
}

-- What the loop has found, over the active experiences that it has read.
abbrev pub Overlaps : ExperienceProposal → Experience → Type 0
Overlaps p x = scopes_proven_disjoint p.scope x.scope ≡ none

abbrev pub Contradicts : ExperienceProposal → Experience → Type 0
Contradicts p x =
    (reason : ConflictReasonCode) × (verifier_opposition p.verifier x.verifier ≡ some reason)

abbrev pub Found : ExperienceProposal → List Experience → ExperienceRef → Type 0
Found p xs ref = (x : Experience) × In x xs × Overlaps p x × (ref ≡ ref_of x)

-- One round: the references gain that of an overlapping experience, the flag rises with a
-- contradiction.
insert_key-In :
    {A : Type 0} ⦃e : Eq A⦄ (key : A) (keys : List A) (a : A)
    → In a (insert_key key keys) ↔ (In a keys ⊎ (a ≡ key))
insert_key-In key keys a = elim (Bool-cases (contains keys key)) [
  | inl t ↦ rw t (inl, λ h. elim h [ inl m ↦ m | inr q ↦ rw q ((contains_iff keys key).0 t) ])
  | inr f ↦
      rw f (
        λ h. elim h [ inl q ↦ inr q | inr m ↦ inl m ],
        λ h. elim h [ inl m ↦ inr m | inr q ↦ inl q ],
      )
]

scan_opposed-refs : (s : Scan) (o : Option ConflictReasonCode) → (scan_opposed s o).refs ≡ s.refs
unfolding scan_opposed
scan_opposed-refs s none = refl
scan_opposed-refs s (some reason) = refl

scan_opposed-contradiction :
    (s : Scan) (o : Option ConflictReasonCode)
    → ((scan_opposed s o).contradiction ≡ true)
      ↔ ((s.contradiction ≡ true) ⊎ ((reason : ConflictReasonCode) × (o ≡ some reason)))
unfolding scan_opposed
scan_opposed-contradiction s none = (inl, λ h. elim h [ inl t ↦ t | inr (r, e) ↦ cc ])
scan_opposed-contradiction s (some reason) = (λ h. inr (reason, refl), λ h. refl)

scan_scopes-refs :
    (p : ExperienceProposal) (x : Experience) (s : Scan) (ref : ExperienceRef)
    (o : Option ConflictReasonCode)
    → In ref (scan_scopes p x s o).refs ↔ (In ref s.refs ⊎ ((o ≡ none) × (ref ≡ ref_of x)))
unfolding scan_scopes
scan_scopes-refs p x s ref none =
    let t : Scan = record s { refs = insert_key (ref_of x) s.refs } in
    rw (scan_opposed-refs t (verifier_opposition p.verifier x.verifier)) (
      λ h. elim ((insert_key-In (ref_of x) s.refs ref).0 h) [
        | inl m ↦ inl m
        | inr e ↦ inr (refl, e)
      ],
      λ h. (insert_key-In (ref_of x) s.refs ref).1 (elim h [ inl m ↦ inl m | inr (n, e) ↦ inr e ]),
    )
scan_scopes-refs p x s ref (some reason) = (inl, λ h. elim h [ inl m ↦ m | inr (n, e) ↦ cc ])

scan_scopes-contradiction :
    (p : ExperienceProposal) (x : Experience) (s : Scan) (o : Option ConflictReasonCode)
    → ((scan_scopes p x s o).contradiction ≡ true)
      ↔ ((s.contradiction ≡ true) ⊎ ((o ≡ none) × Contradicts p x))
unfolding scan_scopes
scan_scopes-contradiction p x s none =
    let t : Scan = record s { refs = insert_key (ref_of x) s.refs } in
    let step = scan_opposed-contradiction t (verifier_opposition p.verifier x.verifier) in
    (
      λ h. elim (step.0 h) [ inl c ↦ inl c | inr r ↦ inr (refl, r) ],
      λ h. step.1 (elim h [ inl c ↦ inl c | inr (n, r) ↦ inr r ]),
    )
scan_scopes-contradiction p x s (some reason) = (inl, λ h. elim h [ inl c ↦ c | inr (n, r) ↦ cc ])

-- The references and the flag at the end of the loop.
abbrev pub Gathered : ExperienceProposal → List Experience → Scan → Scan → Type 0
Gathered p xs s s' =
    ((ref : ExperienceRef) → In ref s'.refs ↔ (In ref s.refs ⊎ Found p xs ref))
    × ((s'.contradiction ≡ true) ↔ (
        (s.contradiction ≡ true) ⊎ ((x : Experience) × In x xs × Overlaps p x × Contradicts p x)))

Gathered-nil : (p : ExperienceProposal) (s : Scan) → Gathered p [] s s
Gathered-nil p s = (
  λ ref. (inl, λ h. elim h [ inl m ↦ m | inr (x, m, o, e) ↦ absurd m ]),
  (inl, λ h. elim h [ inl c ↦ c | inr (x, m, o, e) ↦ absurd m ]),
)

Gathered-cons :
    (p : ExperienceProposal) (x : Experience) (xs : List Experience) (s s' : Scan)
    → Gathered p xs (scan_one p x s) s'
    → Gathered p (x ∷ xs) s s'
unfolding scan_one
Gathered-cons p x xs s s' (refs, flag) =
    let o = scopes_proven_disjoint p.scope x.scope in
    (
      λ ref.
          let step = scan_scopes-refs p x s ref o in
          (
            λ h. elim ((refs ref).0 h) [
              | inl m ↦ elim (step.0 m) [ inl old ↦ inl old | inr (n, e) ↦ inr (x, inl refl, n, e) ]
              | inr (y, m, n, e) ↦ inr (y, inr m, n, e)
            ],
            λ h. (refs ref).1 (elim h [
              | inl m ↦ inl (step.1 (inl m))
              | inr (y, inl q, n, e) ↦
                  inl
                    (step.1 (inr (subst (λ z. Overlaps p z) q n, subst (λ z. ref ≡ ref_of z) q e)))
              | inr (y, inr m, n, e) ↦ inr (y, m, n, e)
            ]),
          ),
      let step = scan_scopes-contradiction p x s o in
          (
            λ h. elim (flag.0 h) [
              | inl c ↦ elim (step.0 c) [ inl old ↦ inl old | inr (n, e) ↦ inr (x, inl refl, n, e) ]
              | inr (y, m, n, e) ↦ inr (y, inr m, n, e)
            ],
            λ h. flag.1 (elim h [
              | inl c ↦ inl (step.1 (inl c))
              | inr (y, inl q, n, e) ↦
                  inl
                    (step.1 (inr (subst (λ z. Overlaps p z) q n, subst (λ z. Contradicts p z) q e)))
              | inr (y, inr m, n, e) ↦ inr (y, m, n, e)
            ]),
          ),
    )

pub scan_all-Gathered :
    (d : Digests) (p : ExperienceProposal) (xs : List Experience) (s s' : Scan)
    → scan_all d p xs s ≡ ok s'
    → Gathered p xs s s'
unfolding scan_all
scan_all-Gathered d p [] s s' h =
    subst (λ t. Gathered p [] s t) (ok-injective s s' h) (Gathered-nil p s)
scan_all-Gathered d p (x ∷ xs) s s' h =
    let (valid, rest) =
      >>-eq_ok
        (wrap "validate active experience for conflict preflight: " (validate_experience d x))
        (scan_all d p xs (scan_one p x s)) h in
    Gathered-cons p x xs s s' (scan_all-Gathered d p xs (scan_one p x s) s' rest)

-- What an advisory says of the active experiences.
