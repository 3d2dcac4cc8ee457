-- ===== src/Evaluate/Finish/Bounds.antt =====
-- The finished lists are bounded and keep the citations that decide a state.
use belay_engine.Prelude.{
  ℕ, Text, true, List, [], ◌∷◌, ◌++◌, ltb, ◌==◌, length, text_ltb, sort, ◌≡◌, refl, sym, ap, ◌∙◌,
  ◌⊎◌, inl, inr, arith, ◌≤◌, In, Bool-cases, length-take, In-sort, ltb_false→le, list_beq_iff,
  nat_eq, list_eq,
}
use belay_engine.Evaluate.Types.{Component, GapCode, Gap, gap, CitedEvidence, Builder}
use belay_engine.Evaluate.Finish.{
  Marshal, max_result_evidence, max_result_gaps, compact_by, canonical, States, required, finish,
  compact_by_after, at_most, finish_gaps,
}
use belay_engine.Evaluate.Finish.Anchors.{Cites, bounded_evidence-keeps}

module _ {A : Type 0} (json : A → Text) where
  -- Of each encoding an element is kept.
  -- What is kept behind a citation with the encoding `previous`.
  abbrev Kept : Text → List A → A → Type 0
  Kept previous xs x =
      (json x ≡ previous) ⊎ ((y : A) × In y (compact_by_after json previous xs) × (json y ≡ json x))

  Kept-keep :
      (z : A) (xs : List A) (x : A) (previous : Text)
      → Kept (json z) xs x
      → (json x ≡ previous)
        ⊎ ((y : A) × In y (z ∷ compact_by_after json (json z) xs) × (json y ≡ json x))
  Kept-keep z xs x previous (inl q) = inr (z, inl refl, sym q)
  Kept-keep z xs x previous (inr (y, i, q)) = inr (y, inr i, q)

  compact_by_after-keeps : (previous : Text) (xs : List A) (x : A) → In x xs → Kept previous xs x
  unfolding compact_by_after
  compact_by_after-keeps previous [] x m = absurd m
  compact_by_after-keeps previous (z ∷ xs) x m = elim (Bool-cases (json z == previous)) [
    | inl t ↦ rw t (elim m [
      | inl e ↦ inl (ap json e ∙ (list_beq_iff (json z) previous).0 t)
      | inr n ↦ compact_by_after-keeps previous xs x n
    ])
    | inr f ↦ rw f (
        Kept-keep z xs x previous
          (elim m [ inl e ↦ inl (ap json e) | inr n ↦ compact_by_after-keeps (json z) xs x n ]))
  ]

  compact_by-keeps :
      (xs : List A) (x : A) → In x xs → (y : A) × In y (compact_by json xs) × (json y ≡ json x)
  unfolding compact_by
  compact_by-keeps [] x m = absurd m
  compact_by-keeps (z ∷ xs) x (inl e) = (z, inl refl, sym (ap json e))
  compact_by-keeps (z ∷ xs) x (inr m) = elim (compact_by_after-keeps (json z) xs x m) [
    | inl q ↦ (z, inl refl, sym q)
    | inr (y, i, q) ↦ (y, inr i, q)
  ]

  canonical-keeps :
      (xs : List A) (x : A) → In x xs → (y : A) × In y (canonical json xs) × (json y ≡ json x)
  unfolding canonical
  canonical-keeps xs x m =
      let less = λ (a b : A). text_ltb (json a) (json b) in
      compact_by-keeps (sort less xs) x ((In-sort less xs x).1 m)

at_most-length : {A : Type 0} (n : ℕ) (xs : List A) → length (at_most n xs) ≤ n
at_most-length n xs = elim (Bool-cases (ltb n (length xs))) [
  | inl t ↦ rw t (length-take n xs)
  | inr f ↦ rw f (ltb_false→le _ _ f)
]

finish_gaps-length : (m : Marshal) (gaps : List Gap) → length (finish_gaps m gaps) ≤ max_result_gaps
finish_gaps-length m gaps = at_most-length max_result_gaps (canonical m.gap_json gaps)

-- `finish` returns at most 32 gaps and 64 citations; if equal encodings mean equal components, then a
-- component whose state has been decided and that has a citation still has one.
pub finish-keeps :
    (m : Marshal) (s : States) (b : Builder) (k : Component)
    → ((x y : CitedEvidence) → m.evidence_json x ≡ m.evidence_json y → x.component ≡ y.component)
    → required s k ≡ true
    → Cites k b.evidence
    → (length (finish m s b).gaps ≤ max_result_gaps)
      × (length (finish m s b).evidence ≤ max_result_evidence)
      × Cites k (finish m s b).evidence
unfolding finish
finish-keeps m s b k encodes n (c, i, e) =
    let whole = canonical m.evidence_json b.evidence in
    let (y, j, q) = canonical-keeps m.evidence_json b.evidence c i in
    let cited : Cites k whole = (y, j, encodes y c q ∙ e) in
    elim (Bool-cases (ltb max_result_evidence (length whole))) [
      | inl t ↦
          let (_, short, kept) =
            bounded_evidence-keeps s max_result_evidence whole k (omega arith) n cited in
          rw t (
            finish_gaps-length m
                (finish_gaps m b.gaps ++ gap Component.verifier GapCode.evidence_truncated ∷ []),
            short,
            kept,
          )
      | inr f ↦ rw f (finish_gaps-length m b.gaps, ltb_false→le _ _ f, cited)
    ]
