-- ===== src/Detection/Merge/Merged.antt =====
-- The evidence of two merged events, internal/detection/coalesce.go.
use mathlib.Core.Path.{subst}
use mathlib.Core.Path.{subst}
use mathlib.Core.Path.{subst}
use mathlib.Core.Path.{subst}
use mathlib.Core.Path.{subst}
use mathlib.Core.Path.{subst}
use belay_engine.Prelude.{
  ℕ, some-injective, zero, suc, Text, List, [], ◌∷◌, some, ltb, text_ltb, ◌≡◌, sym, ◌↔◌, ◌⊎◌, inl,
  inr, In, get_elem?, Bool-cases, In-append, In-append_left, In-append_right, In-sort, In-compact,
  nat_eq, list_eq,
}
use belay_engine.Detection.Events.{PreparedEvent}
use belay_engine.Detection.Merge.{coverage_rank, merge_into, merge_coalesced}
use belay_engine.Detection.Events.Cited.{evidence_ids_of}

pub In-evidence :
    (items : List PreparedEvent) (item : PreparedEvent) (id : Text)
    → In item items
    → In id item.evidence_ids
    → In id (evidence_ids_of items)
In-evidence [] item id h m = absurd h
In-evidence (x ∷ xs) item id (inl e) m =
    In-append_left id x.evidence_ids (evidence_ids_of xs) (subst (λ y. In id y.evidence_ids) e m)
In-evidence (x ∷ xs) item id (inr h) m =
    In-append_right id x.evidence_ids (evidence_ids_of xs) (In-evidence xs item id h m)

pub In-get_elem? :
    (items : List PreparedEvent) (i : ℕ) (item : PreparedEvent)
    → get_elem? items i ≡ some item
    → In item items
In-get_elem? [] i item h = cc h
In-get_elem? (x ∷ xs) zero item h = inl (sym (some-injective x item h))
In-get_elem? (x ∷ xs) (suc i) item h = inr (In-get_elem? xs i item h)

merge_into-evidence :
    (a b : PreparedEvent) (id : Text)
    → In id (merge_into a b).evidence_ids ↔ (In id a.evidence_ids ⊎ In id b.evidence_ids)
unfolding merge_into
merge_into-evidence a b id = (
  λ h.
      In-append id a.evidence_ids b.evidence_ids
        ((In-sort text_ltb _ id).0 ((In-compact _ id).0 h)),
  λ h. (In-compact _ id).1 (
      (In-sort text_ltb _ id).1 (elim h [
        | inl m ↦ In-append_left id a.evidence_ids b.evidence_ids m
        | inr m ↦ In-append_right id a.evidence_ids b.evidence_ids m
      ])),
)

swap : {A B : Type 0} → A ⊎ B → B ⊎ A
swap (inl a) = inr a
swap (inr b) = inl b

pub merge_coalesced-evidence :
    (a b : PreparedEvent) (id : Text)
    → In id (merge_coalesced a b).evidence_ids ↔ (In id a.evidence_ids ⊎ In id b.evidence_ids)
unfolding merge_coalesced
merge_coalesced-evidence a b id = elim (Bool-cases (ltb (coverage_rank a) (coverage_rank b))) [
  | inl t ↦
      rw t
        (λ h. swap ((merge_into-evidence b a id).0 h), λ h. (merge_into-evidence b a id).1 (swap h))
  | inr f ↦ rw f (merge_into-evidence a b id)
]
