-- ===== src/Evaluate/Grounded.antt =====
-- What every evaluator does to the result builder: citations stay, and a decided state is cited.
use belay_engine.Prelude.{
  Bool, true, false, not, List, [], ◌∷◌, ◌++◌, is_empty, all, filterb, flat_map, ◌≡◌, refl, inl,
  arith, Subset, In-append_left, In-append_right,
}
use belay_engine.Evaluate.Types.{Component, Gap, FactMeta, Builder, cite, add_gap, add_evidence}
use belay_engine.Evaluate.Finish.Anchors.{Cites}
use belay_engine.Experience.Model.{EvidenceRef}

-- From the builder `b` an evaluator has come to the state and the builder `r`; `decided` says which
-- states need a citation of the component.
pub record IsGrounded {S : Type 0} (k : Component) (decided : S → Bool) (b : Builder)
    (r : S × Builder) : Type 0 where
  pub grows : Subset b.evidence r.1.evidence
  pub cited : decided r.0 ≡ true → Cites k r.1.evidence

module _ {S : Type 0} (k : Component) (decided : S → Bool) where
  -- A gap is no citation, and none is needed.
  pub IsGrounded-add_gap :
      (s : S) (g : Gap) (b : Builder) → decided s ≡ false → IsGrounded k decided b (s, add_gap g b)
  IsGrounded-add_gap s g b n = record { grows = λ c m. m; cited = λ h. cc (h, n) }

  pub IsGrounded-same : (s : S) (b : Builder) → decided s ≡ false → IsGrounded k decided b (s, b)
  IsGrounded-same s b n = record { grows = λ c m. m; cited = λ h. cc (h, n) }

  pub IsGrounded-add_evidence :
      (s : S) (refs : List EvidenceRef) (b : Builder)
      → is_empty refs ≡ false
      → IsGrounded k decided b (s, add_evidence k refs b)
  IsGrounded-add_evidence s [] b n = absurd (cc n)
  IsGrounded-add_evidence s (r ∷ rs) b n = record {
    grows = λ c m. In-append_left c b.evidence _ m;
    cited = λ h. (cite k r, In-append_right (cite k r) b.evidence _ (inl refl), refl);
  }

  -- Evidence cited before does not hurt.
  pub IsGrounded-after :
      (b : Builder) (c : Builder) (r : S × Builder)
      → Subset b.evidence c.evidence
      → IsGrounded k decided c r
      → IsGrounded k decided b r
  IsGrounded-after b c r sub g = record { grows = λ x m. g.grows x (sub x m); cited = g.cited }

pub is_empty-append_right :
    {A : Type 0} (xs ys : List A) → is_empty ys ≡ false → is_empty (xs ++ ys) ≡ false
is_empty-append_right [] ys h = h
is_empty-append_right (x ∷ xs) ys h = refl

pub is_empty-append_left :
    {A : Type 0} (xs ys : List A) → is_empty xs ≡ false → is_empty (xs ++ ys) ≡ false
is_empty-append_left [] ys h = absurd (cc h)
is_empty-append_left (x ∷ xs) ys h = refl

-- Every fact of the list has evidence.
abbrev pub HasEvidence : {A : Type 0} → (A → FactMeta) → List A → Type 0
HasEvidence meta facts = all (λ f. not (is_empty (meta f).evidence)) facts ≡ true

pub HasEvidence-filterb :
    {A : Type 0} (meta : A → FactMeta) (p : A → Bool) (facts : List A)
    → HasEvidence meta facts
    → HasEvidence meta (filterb p facts)
HasEvidence-filterb meta p [] h = refl
HasEvidence-filterb meta p (f ∷ facts) h = ground (arith, HasEvidence-filterb meta p facts, h)

-- The evidence of a list of facts that is not empty.
pub flat_map-filled :
    {A : Type 0} (meta : A → FactMeta) (f : A) (facts : List A)
    → HasEvidence meta (f ∷ facts)
    → is_empty (flat_map (λ g. (meta g).evidence) (f ∷ facts)) ≡ false
flat_map-filled meta f facts h = is_empty-append_left (meta f).evidence _ (ground (arith, h))
