-- ===== src/Detection/Validation/Checked.antt =====
-- What `validateMatch` leaves of a match.
use mathlib.Core.Path.{subst}
use mathlib.Core.Path.{subst}
use belay_engine.Prelude.{
  compact_after, some-injective, Text, Bool, true, false, ◌||◌, List, [], ◌∷◌, some, ltb, ◌==◌,
  is_empty, length, any, text_ltb, sort, compact, ◌≡◌, ◌≢◌, refl, sym, ap, ◌∙◌, ◌↔◌, inl, inr,
  arith, ◌≤◌, In, Subset, Bool-cases, length-take, take-Subset, length-sort, In-sort, sort-IsSorted,
  IsSorted, In-compact, text_ltb-IsOrder, text_ltb_total, text_eq→eq, text_ne→ne, ltb_false→le,
  compact_after, nat_eq, list_eq,
}
use belay_engine.Detection.Validation.{
  Detector, sorted_distinct, is_malformed, bound_citations, validate_match,
}
use belay_engine.Detection.Types.{FingerprintDimension, Match, max_citations}
use belay_engine.Detection.Groups.Laws.{Ascending}
use belay_engine.Detection.Events.{dimension_ltb}

length-compact_after : (last : Text) (xs : List Text) → length (compact_after last xs) ≤ length xs
unfolding compact_after
length-compact_after last [] = omega arith
length-compact_after last (x ∷ xs) = elim (Bool-cases (x == last)) [
  | inl t ↦ rw t (omega (arith, length-compact_after last xs))
  | inr f ↦ rw f (omega (arith, length-compact_after x xs))
]

length-compact : (xs : List Text) → length (compact xs) ≤ length xs
unfolding compact
length-compact [] = omega arith
length-compact (x ∷ xs) = omega (arith, length-compact_after x xs)

compact_after-In :
    (last : Text) (xs : List Text) (a : Text) → In a (compact_after last xs) → In a xs
unfolding compact_after
compact_after-In last [] a h = h
compact_after-In last (x ∷ xs) a h = elim (Bool-cases (x == last)) [
  | inl t ↦ inr (compact_after-In last xs a (rw t at h))
  | inr f ↦ elim (rw f at h) [ inl e ↦ inl e | inr m ↦ inr (compact_after-In x xs a m) ]
]

text_ltb-join : (a b c : Text) → text_ltb a b ≡ true → text_ltb c b ≡ false → text_ltb a c ≡ true
text_ltb-join a b c h k = elim (Bool-cases (text_ltb a c)) [
  | inl t ↦ t
  | inr f ↦ let back = text_ltb-IsOrder.trans_not b c a k f in cc (h, back)
]

compact_after-Ascending :
    (last : Text) (xs : List Text)
    → IsSorted text_ltb (last ∷ xs)
    → Ascending (last ∷ compact_after last xs)
unfolding compact_after
compact_after-Ascending last [] s = (λ j h. absurd h, tt)
compact_after-Ascending last (x ∷ xs) s = elim (Bool-cases (x == last)) [
  | inl t ↦ rw t (compact_after-Ascending last xs (λ y h. s.0 y (inr h), s.1.1))
  | inr f ↦
      let below : text_ltb last x ≡ true = (elim (Bool-cases (text_ltb last x)) [
        | inl t ↦ t
        | inr n ↦ absurd (text_ne→ne x last f (text_ltb_total x last (s.0 x (inl refl)) n))
      ]) in
      rw f (
        λ j h. elim h [
          | inl e ↦ rw e below
          | inr m ↦ text_ltb-join last x j below (s.1.0 j (compact_after-In x xs j m))
        ],
        compact_after-Ascending x xs s.1,
      )
]

compact-Ascending : (xs : List Text) → IsSorted text_ltb xs → Ascending (compact xs)
unfolding compact
compact-Ascending [] s = tt
compact-Ascending (x ∷ xs) s = compact_after-Ascending x xs s

sorted_distinct-Ascending : (xs : List Text) → Ascending (sorted_distinct xs)
unfolding sorted_distinct
sorted_distinct-Ascending xs =
    compact-Ascending (sort text_ltb xs) (sort-IsSorted text_ltb-IsOrder xs)

In-sorted_distinct : (xs : List Text) (a : Text) → In a (sorted_distinct xs) ↔ In a xs
unfolding sorted_distinct
In-sorted_distinct xs a = (
  λ h. (In-sort text_ltb xs a).0 ((In-compact _ a).0 h),
  λ h. (In-compact _ a).1 ((In-sort text_ltb xs a).1 h),
)

length-sorted_distinct : (xs : List Text) → length (sorted_distinct xs) ≤ length xs
unfolding sorted_distinct
length-sorted_distinct xs =
    omega (arith, length-compact (sort text_ltb xs), length-sort text_ltb xs)

bounded-length : (m : Match) → length (bound_citations m).cited_event_ids ≤ max_citations
bounded-length m = elim (Bool-cases (ltb max_citations (length m.cited_event_ids))) [
  | inl t ↦ rw t (length-take max_citations m.cited_event_ids)
  | inr f ↦ rw f (ltb_false→le max_citations (length m.cited_event_ids) f)
]

bounded-kept :
    (m : Match)
    → ((bound_citations m).detector_id ≡ m.detector_id)
      × ((bound_citations m).first_observed_at ≡ m.first_observed_at)
      × ((bound_citations m).last_observed_at ≡ m.last_observed_at)
bounded-kept m = elim (Bool-cases (ltb max_citations (length m.cited_event_ids))) [
  | inl t ↦ rw t (refl, refl, refl)
  | inr f ↦ rw f (refl, refl, refl)
]

bounded-Subset : (m : Match) → Subset (bound_citations m).cited_event_ids m.cited_event_ids
bounded-Subset m = elim (Bool-cases (ltb max_citations (length m.cited_event_ids))) [
  | inl t ↦ rw t (take-Subset max_citations m.cited_event_ids)
  | inr f ↦ rw f (λ a h. h)
]

bounded_complete :
    (m : Match)
    → (bound_citations m).evidence_complete ≡ true
    → Subset m.cited_event_ids (bound_citations m).cited_event_ids
bounded_complete m = elim (Bool-cases (ltb max_citations (length m.cited_event_ids))) [
  | inl t ↦ rw t (λ h. cc h)
  | inr f ↦ rw f (λ h a is. is)
]

-- What the checks establish of a match `m` that a detector returned as `raw`.
pub record IsChecked (d : Detector) (raw m : Match) : Type 0 where
  pub own : m.detector_id ≡ d.id
  pub ascending : Ascending m.cited_event_ids
  pub bounded : length m.cited_event_ids ≤ max_citations
  pub cited : (id : Text) → In id m.cited_event_ids → In id raw.cited_event_ids
  pub complete :
      m.evidence_complete ≡ true → (id : Text) → In id raw.cited_event_ids → In id m.cited_event_ids
  pub scoped : m.fingerprint ≢ []
  pub named : (x : FingerprintDimension) → In x m.fingerprint → (x.name ≢ []) × (x.value ≢ [])
  pub ordered : m.first_observed_at ≤ m.last_observed_at

abbrev has_blank : FingerprintDimension → Bool
has_blank dimension = dimension.name == [] || dimension.value == []

abbrev normal_form : Match → Match
unfolding sorted_distinct dimension_ltb
normal_form m = record (bound_citations m) {
  fingerprint = sort dimension_ltb m.fingerprint;
  cited_event_ids = sorted_distinct (bound_citations m).cited_event_ids;
}

own_detector : (d : Detector) (raw : Match) → is_malformed d raw ≡ false → raw.detector_id ≡ d.id
own_detector d raw h = text_eq→eq raw.detector_id d.id (ground (arith, h))

times_ordered :
    (d : Detector) (raw : Match)
    → is_malformed d raw ≡ false
    → raw.first_observed_at ≤ raw.last_observed_at
times_ordered d raw h = ground (arith, h)

scoped_match :
    (d : Detector) (raw : Match) → is_malformed d raw ≡ false → is_empty raw.fingerprint ≡ false
scoped_match d raw h = ground (arith, h)

sort-ne_nil : (xs : List FingerprintDimension) → is_empty xs ≡ false → sort dimension_ltb xs ≢ []
sort-ne_nil [] e h = cc e
sort-ne_nil (x ∷ xs) e h = subst (In x) h ((In-sort dimension_ltb (x ∷ xs) x).1 (inl refl))

named_dimension :
    (xs : List FingerprintDimension) (x : FingerprintDimension)
    → any has_blank xs ≡ false
    → In x xs
    → (x.name ≢ []) × (x.value ≢ [])
named_dimension [] x h is = absurd is
named_dimension (y ∷ ys) x h (inl e) =
    let n : (y.name == []) ≡ false = ground (arith, h) in
    let v : (y.value == []) ≡ false = ground (arith, h) in
    (
      λ b. text_ne→ne y.name [] n (ap (λ z. z.name) (sym e) ∙ b),
      λ b. text_ne→ne y.value [] v (ap (λ z. z.value) (sym e) ∙ b),
    )
named_dimension (y ∷ ys) x h (inr is) = named_dimension ys x (ground (arith, h)) is

normal_form-IsChecked :
    (d : Detector) (raw : Match)
    → is_malformed d raw ≡ false
    → any has_blank raw.fingerprint ≡ false
    → IsChecked d raw (normal_form raw)
unfolding normal_form
normal_form-IsChecked d raw fine named =
    let (ids, first, last) = bounded-kept raw in
    let own_ids = (bound_citations raw).cited_event_ids in
    record {
      own = ids ∙ own_detector d raw fine;
      ascending = sorted_distinct-Ascending own_ids;
      bounded = omega (arith, length-sorted_distinct own_ids, bounded-length raw);
      cited = λ id h. bounded-Subset raw id ((In-sorted_distinct own_ids id).0 h);
      complete = λ c id h. (In-sorted_distinct own_ids id).1 (bounded_complete raw c id h);
      scoped = sort-ne_nil raw.fingerprint (scoped_match d raw fine);
      named = λ x h.
          named_dimension raw.fingerprint x named ((In-sort dimension_ltb raw.fingerprint x).0 h);
      ordered = omega (arith, times_ordered d raw fine, first, last);
    }

-- A match that passes the checks is the detector's own, has a fingerprint of named dimensions with
-- values, times in order, and at most fifty citations in strictly ascending order, all of them cited
-- by the detector; it stays marked as complete only if no citation was cut off.
pub validate_match-IsChecked :
    (d : Detector) (raw m : Match) → validate_match d raw ≡ some m → IsChecked d raw m
unfolding validate_match
validate_match-IsChecked d raw m h = elim (Bool-cases (is_malformed d raw)) [
  | inl bad ↦ cc (rw bad at h)
  | inr fine ↦ elim (Bool-cases (any has_blank raw.fingerprint)) [
    | inl bad ↦ cc (rw bad at (rw fine at h))
    | inr named ↦
        subst (IsChecked d raw) (some-injective (normal_form raw) m (rw named at (rw fine at h)))
          (normal_form-IsChecked d raw fine named)
  ]
]
