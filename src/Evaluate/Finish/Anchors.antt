-- ===== src/Evaluate/Finish/Anchors.antt =====
-- What survives the bound on the evidence.
use mathlib.Core.Path.{subst}
use belay_engine.Prelude.{
  ℕ, Bool, true, false, List, [], ◌∷◌, contains, if◌then◌else◌, length, ◌+◌, nat_beq, ◌≡◌, refl,
  sym, ap, ◌∙◌, inl, inr, arith, ◌≤◌, In, Subset, Bool-cases, map,
}
use belay_engine.Evaluate.Types.{Component, Component-discrete, component_eq, CitedEvidence}
use belay_engine.Evaluate.Finish.{States, required, anchor, fill, bounded_evidence, count_kept}

-- A citation of the component.
abbrev pub Cites : Component → List CitedEvidence → Type 0
Cites k cs = (c : CitedEvidence) × In c cs × (c.component ≡ k)

fill-Subset :
    (limit kept : ℕ) (marked : List (Bool × CitedEvidence)) (c : CitedEvidence)
    → In c (fill limit kept marked)
    → In c (map (λ m. m.1) marked)
unfolding fill
fill-Subset limit kept [] c h = h
fill-Subset limit kept ((true, x) ∷ rest) c (inl e) = inl e
fill-Subset limit kept ((true, x) ∷ rest) c (inr h) = inr (fill-Subset limit kept rest c h)
fill-Subset limit kept ((false, x) ∷ rest) c h = elim (Bool-cases (nat_beq kept limit)) [
  | inl t ↦ inr (fill-Subset limit kept rest c (rw t at h))
  | inr f ↦ elim (let g : In c (x ∷ fill limit (kept + 1) rest) = rw f at h in g) [
    | inl e ↦ inl e
    | inr m ↦ inr (fill-Subset limit (kept + 1) rest c m)
  ]
]

-- Kept citations stay.
fill-keeps :
    (limit kept : ℕ) (marked : List (Bool × CitedEvidence)) (c : CitedEvidence)
    → In (true, c) marked
    → In c (fill limit kept marked)
unfolding fill
fill-keeps limit kept [] c h = absurd h
fill-keeps limit kept ((true, x) ∷ rest) c (inl e) = inl (ap (λ (m : Bool × CitedEvidence). m.1) e)
fill-keeps limit kept ((true, x) ∷ rest) c (inr h) = inr (fill-keeps limit kept rest c h)
fill-keeps limit kept ((false, x) ∷ rest) c (inl e) = cc (ap (λ (m : Bool × CitedEvidence). m.0) e)
fill-keeps limit kept ((false, x) ∷ rest) c (inr h) = elim (Bool-cases (nat_beq kept limit)) [
  | inl t ↦ rw t (fill-keeps limit kept rest c h)
  | inr f ↦ rw f (inr (fill-keeps limit (kept + 1) rest c h))
]

-- The bound: the citations kept at the start and those that are added come to at most the limit.
length-fill :
    (limit kept : ℕ) (marked : List (Bool × CitedEvidence))
    → kept ≤ limit
    → length (fill limit kept marked) + kept ≤ limit + count_kept marked
unfolding fill
length-fill limit kept [] h = omega arith
length-fill limit kept ((true, x) ∷ rest) h = omega (arith, length-fill limit kept rest)
length-fill limit kept ((false, x) ∷ rest) h =
    ground (arith, length-fill limit kept rest, length-fill limit (kept + 1) rest)

abbrev Marks : Component → List (Bool × CitedEvidence) → Type 0
Marks k ms = (c : CitedEvidence) × In (true, c) ms × (c.component ≡ k)

Cites-tail :
    (k : Component) (x : CitedEvidence) (xs : List CitedEvidence)
    → ¬ (x.component ≡ k)
    → Cites k (x ∷ xs)
    → Cites k xs
Cites-tail k x xs other (c, inl e, s) =
    absurd (other (sym (ap (λ (y : CitedEvidence). y.component) e) ∙ s))
Cites-tail k x xs other (c, inr m, s) = (c, m, s)

Marks-cons :
    (k : Component) (m : Bool × CitedEvidence) (ms : List (Bool × CitedEvidence))
    → Marks k ms
    → Marks k (m ∷ ms)
Marks-cons k m ms (c, i, s) = (c, inr i, s)

-- The citation of a component that is not anchored yet is kept, so that either it is the marked one
-- or the rest has to be searched.
kept-Marks :
    (needs : Component → Bool) (anchored : List Component) (x : CitedEvidence)
    (xs : List CitedEvidence) (k : Component)
    → needs k ≡ true
    → contains anchored k ≡ false
    → Cites k (x ∷ xs)
    → (contains (x.component ∷ anchored) k ≡ false
        → Cites k xs
        → Marks k (anchor needs (x.component ∷ anchored) xs))
    → Marks k ((true, x) ∷ anchor needs (x.component ∷ anchored) xs)
kept-Marks needs anchored x xs k n a h rec = elim (Bool-cases (component_eq.beq x.component k)) [
  | inl s ↦ (x, inl refl, (component_eq.beq_iff x.component k).0 s)
  | inr d ↦
      Marks-cons k (true, x) _
        (rec (ground (arith))
          (Cites-tail k x xs (λ e. cc (d, (component_eq.beq_iff x.component k).1 e)) h))
]

-- A required component that is not anchored yet gets its first citation marked.
anchor-Marks :
    (needs : Component → Bool) (anchored : List Component) (cs : List CitedEvidence) (k : Component)
    → needs k ≡ true
    → contains anchored k ≡ false
    → Cites k cs
    → Marks k (anchor needs anchored cs)
unfolding anchor
anchor-Marks needs anchored [] k n a (c, m, e) = absurd m
anchor-Marks needs anchored (x ∷ xs) k n a h = elim (Bool-cases (needs x.component)) [
  | inr f ↦ rw f (
      Marks-cons k (false, x) _
        (anchor-Marks needs anchored xs k n a (Cites-tail k x xs (λ e. cc (f, ap needs e, n)) h)))
  | inl t ↦ elim (Bool-cases (contains anchored x.component)) [
    | inl c ↦ rw t (
        rw c (
          Marks-cons k (false, x) _
            (anchor-Marks needs anchored xs k n a
              (Cites-tail k x xs (λ e. cc (c, ap (contains anchored) e, a)) h))))
    | inr c ↦ rw t (
        rw c (
          kept-Marks needs anchored x xs k n a h
            (anchor-Marks needs (x.component ∷ anchored) xs k n)))
  ]
]

map-anchor :
    (needs : Component → Bool) (anchored : List Component) (cs : List CitedEvidence)
    → map (λ m. m.1) (anchor needs anchored cs) ≡ cs
unfolding anchor
map-anchor needs anchored [] = refl
map-anchor needs anchored (x ∷ xs) =
    ground (arith, map-anchor needs anchored xs, map-anchor needs (x.component ∷ anchored) xs)

abbrev absent : List Component → Component → ℕ
absent anchored k = if contains anchored k then 0 else 1

-- The components that are not anchored yet.
abbrev open_components : List Component → ℕ
open_components anchored =
    absent anchored Component.opportunity
    + absent anchored Component.applicability
    + absent anchored Component.verifier
    + absent anchored Component.task_outcome

open_components-cons :
    (k : Component) (anchored : List Component)
    → contains anchored k ≡ false
    → open_components (k ∷ anchored) + 1 ≤ open_components anchored
unfolding Component-discrete
open_components-cons Component.opportunity anchored a = ground arith
open_components-cons Component.applicability anchored a = ground arith
open_components-cons Component.verifier anchored a = ground arith
open_components-cons Component.task_outcome anchored a = ground arith

-- Each component is anchored at most once.
count_kept-anchor :
    (needs : Component → Bool) (anchored : List Component) (cs : List CitedEvidence)
    → count_kept (anchor needs anchored cs) ≤ open_components anchored
unfolding anchor
count_kept-anchor needs anchored [] = omega arith
count_kept-anchor needs anchored (x ∷ xs) = ground (
  arith,
  count_kept-anchor needs anchored xs,
  count_kept-anchor needs (x.component ∷ anchored) xs,
  open_components-cons x.component anchored,
)

cited-bound :
    (s : States) (limit : ℕ) (evidence : List CitedEvidence) (k : Component)
    → Marks k (anchor (required s) [] evidence)
    → Cites k (bounded_evidence s limit evidence)
unfolding bounded_evidence
cited-bound s limit evidence k (c, m, e) = (c, fill-keeps limit _ _ c m, e)

-- The bound on the evidence keeps what decides a state: for a limit of four or more and a component
-- whose state has been decided and that has a citation, the result is a part of the collected
-- evidence, no longer than the limit, and still has a citation of the component.
pub bounded_evidence-keeps :
    (s : States) (limit : ℕ) (evidence : List CitedEvidence) (k : Component)
    → 4 ≤ limit
    → required s k ≡ true
    → Cites k evidence
    → Subset (bounded_evidence s limit evidence) evidence
      × (length (bounded_evidence s limit evidence) ≤ limit)
      × Cites k (bounded_evidence s limit evidence)
unfolding bounded_evidence
bounded_evidence-keeps s limit evidence k room n h =
    let marked = anchor (required s) [] evidence in
    let few = count_kept-anchor (required s) [] evidence in
    let bound = length-fill limit (count_kept marked) marked in
    (
      λ c i. subst (In c) (map-anchor (required s) [] evidence) (fill-Subset limit _ marked c i),
      ground (arith, few, bound),
      cited-bound s limit evidence k (anchor-Marks (required s) [] evidence k n refl h),
    )
