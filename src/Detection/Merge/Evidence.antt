-- ===== src/Detection/Merge/Evidence.antt =====
-- The evidence identifiers of coalesced events.
use mathlib.Core.Path.{subst}
use mathlib.Core.Path.{subst}
use mathlib.Core.Path.{subst}
use mathlib.Core.Path.{subst}
use mathlib.Core.Path.{subst}
use mathlib.Core.Path.{subst}
use belay_engine.Prelude.{
  ℕ, some-injective, suc, Text, List, [], ◌∷◌, Option, some, none, contains, ◌+◌, ◌≡◌, refl, sym,
  ap, ◌∙◌, ◌↔◌, ◌⊎◌, inl, inr, arith, In, get_elem?, Bool-cases, contains_iff, In-append,
  In-append_left, In-append_right, In-flat_map, found_or_none, In-sort, nat_eq,
}
use belay_engine.Detection.Try.{Try, Context, ok, err}
use belay_engine.Detection.Events.{PreparedEvent, event_ltb, sort_prepared_events}
use belay_engine.Detection.Coalesce.{Paired, partner, pair_groups}
use belay_engine.Detection.Merge.{
  Groups, group_events, merge_with, emit, coalesced, coalesce_events,
}
use belay_engine.Detection.Events.Cited.{evidence_ids_of}
use belay_engine.Detection.Merge.Merged.{In-evidence, In-get_elem?, merge_coalesced-evidence}

either : {A B C : Type 0} → A ⊎ B → (A → C) → (B → C) → C
either (inl a) f g = f a
either (inr b) f g = g b

module _ (events : List PreparedEvent) (paired : Paired) (id : Text) where
  -- The items are those of the events from the index on.
  abbrev Suffix : ℕ → List PreparedEvent → Type 0
  Suffix index items =
      (i : ℕ) (x : PreparedEvent)
      → get_elem? items i ≡ some x
      → get_elem? events (index + i) ≡ some x

  tail_suffix :
      (index : ℕ) (x : PreparedEvent) (items : List PreparedEvent)
      → Suffix index (x ∷ items)
      → Suffix (suc index) items
  tail_suffix index x items s i y h = ap (get_elem? events) (omega arith) ∙ s (suc i) y h

  head_suffix :
      (index : ℕ) (x : PreparedEvent) (items : List PreparedEvent)
      → Suffix index (x ∷ items)
      → get_elem? events index ≡ some x
  head_suffix index x items s = ap (get_elem? events) (omega arith) ∙ s 0 x refl

  -- The identifier stands in what was written for a consumed event that has it.
  abbrev Written : Type 0 → List ℕ → Type 0
  Written out consumed =
      (j : ℕ) (x : PreparedEvent)
      → In j consumed
      → get_elem? events j ≡ some x
      → In id x.evidence_ids
      → out

  abbrev Emitted : List ℕ → ℕ → List PreparedEvent → Type 0
  Emitted consumed index items = In id (evidence_ids_of (emit events paired consumed index items))

  merge_with-evidence :
      (other : Option PreparedEvent) (item : PreparedEvent)
      → In id item.evidence_ids ⊎ ((x : PreparedEvent) × (other ≡ some x) × In id x.evidence_ids)
      → In id (merge_with other item).evidence_ids
  unfolding merge_with
  merge_with-evidence none item (inl m) = m
  merge_with-evidence none item (inr (x, e, m)) = cc e
  merge_with-evidence (some o) item (inl m) = (merge_coalesced-evidence item o id).1 (inl m)
  merge_with-evidence (some o) item (inr (x, e, m)) =
      (merge_coalesced-evidence item o id).1
        (inr (subst (λ y. In id y.evidence_ids) (sym (some-injective o x e)) m))

  merge_with-invents_none :
      (other : Option PreparedEvent) (item : PreparedEvent)
      → ((x : PreparedEvent)
          → other ≡ some x
          → In id x.evidence_ids
          → In id (evidence_ids_of events))
      → (In id item.evidence_ids → In id (evidence_ids_of events))
      → In id (merge_with other item).evidence_ids
      → In id (evidence_ids_of events)
  unfolding merge_with
  merge_with-invents_none none item o own m = own m
  merge_with-invents_none (some x) item o own m =
      either ((merge_coalesced-evidence item x id).0 m) own (o x refl)

  abbrev merged_at : ℕ → PreparedEvent → PreparedEvent
  unfolding merge_with
  merged_at opposite x = merge_with (get_elem? events opposite) x

  Written-merged :
      (out : Type 0) (consumed : List ℕ) (index opposite : ℕ) (x : PreparedEvent)
      → get_elem? events index ≡ some x
      → Written out consumed
      → Written (out ⊎ In id (merged_at opposite x).evidence_ids) (opposite ∷ index ∷ consumed)
  unfolding merge_with
  Written-merged out consumed index opposite x here w j y (inl e) at_j m = inr (
      merge_with-evidence (get_elem? events opposite) x
        (inr (y, subst (λ k. get_elem? events k ≡ some y) e at_j, m)))
  Written-merged out consumed index opposite x here w j y (inr (inl e)) at_j m =
      let same : y ≡ x =
        some-injective y x (sym (subst (λ k. get_elem? events k ≡ some y) e at_j) ∙ here) in
      inr (
        merge_with-evidence (get_elem? events opposite) x
          (inl (subst (λ z. In id z.evidence_ids) same m)))
  Written-merged out consumed index opposite x here w j y (inr (inr is)) at_j m =
      inl (w j y is at_j m)

  emit-keeps :
      (out : Type 0) (consumed : List ℕ) (index : ℕ) (items : List PreparedEvent)
      → Suffix index items
      → Written out consumed
      → In id (evidence_ids_of items)
      → out ⊎ Emitted consumed index items
  unfolding emit merged_at merge_with
  emit-keeps out consumed index [] s w h = absurd h
  emit-keeps out consumed index (x ∷ items) s w h =
      let next = tail_suffix index x items s in
      let here = head_suffix index x items s in
      let split_h = In-append id x.evidence_ids (evidence_ids_of items) h in
      elim (Bool-cases (contains consumed index)) [
        | inl t ↦ rw t (elim split_h [
          | inl m ↦ inl (w index x ((contains_iff consumed index).0 t) here m)
          | inr n ↦ emit-keeps out consumed (suc index) items next w n
        ])
        | inr f ↦ rw f (elim (found_or_none (partner index paired)) [
          | inl e ↦ rw e (elim split_h [
            | inl m ↦ inr (In-append_left id x.evidence_ids _ m)
            | inr n ↦ elim (emit-keeps out consumed (suc index) items next w n) [
              | inl o ↦ inl o
              | inr r ↦ inr (In-append_right id x.evidence_ids _ r)
            ]
          ])
          | inr (opposite, e) ↦ rw e (
              let ids = (merged_at opposite x).evidence_ids in
              let w' = Written-merged out consumed index opposite x here w in
              elim (either split_h
                (λ m. inl (inr (merge_with-evidence (get_elem? events opposite) x (inl m))))
                (emit-keeps (out ⊎ In id ids) (opposite ∷ index ∷ consumed) (suc index) items next
                  w')) [
                    | inl (inl o) ↦ inl o
                    | inl (inr m) ↦ inr (In-append_left id ids _ m)
                    | inr r ↦ inr (In-append_right id ids _ r)
                  ])
        ])
      ]

  emit-invents_none :
      (consumed : List ℕ) (index : ℕ) (items : List PreparedEvent)
      → ((x : PreparedEvent) → In x items → In x events)
      → Emitted consumed index items
      → In id (evidence_ids_of events)
  unfolding emit merged_at merge_with
  emit-invents_none consumed index [] s h = absurd h
  emit-invents_none consumed index (x ∷ items) s h =
      let rest = λ (y : PreparedEvent) (m : In y items). s y (inr m) in
      let own = In-evidence events x id (s x (inl refl)) in
      elim (Bool-cases (contains consumed index)) [
        | inl t ↦ emit-invents_none consumed (suc index) items rest (rw t at h)
        | inr f ↦ elim (found_or_none (partner index paired)) [
          | inl e ↦ elim (In-append id x.evidence_ids _ (rw e at (rw f at h))) [
            | inl m ↦ own m
            | inr n ↦ emit-invents_none consumed (suc index) items rest n
          ]
          | inr (opposite, e) ↦
              elim (In-append id (merged_at opposite x).evidence_ids _ (rw e at (rw f at h))) [
                | inl m ↦
                    merge_with-invents_none (get_elem? events opposite) x
                      (λ y is k. In-evidence events y id (In-get_elem? events opposite y is) k) own
                      m
                | inr n ↦ emit-invents_none (opposite ∷ index ∷ consumed) (suc index) items rest n
              ]
        ]
      ]

sort-evidence :
    (items : List PreparedEvent) (id : Text)
    → In id (evidence_ids_of (sort_prepared_events items)) ↔ In id (evidence_ids_of items)
unfolding sort_prepared_events
sort-evidence items id = (
  λ h.
      let (x, is, m) = In-flat_map (λ item. item.evidence_ids) _ id h in
      In-evidence items x id ((In-sort event_ltb items x).0 is) m,
  λ h.
      let (x, is, m) = In-flat_map (λ item. item.evidence_ids) items id h in
      In-evidence _ x id ((In-sort event_ltb items x).1 is) m,
)

emit-evidence :
    (events : List PreparedEvent) (paired : Paired) (id : Text)
    → In id (evidence_ids_of (emit events paired [] 0 events)) ↔ In id (evidence_ids_of events)
emit-evidence events paired id = (
  emit-invents_none events paired id [] 0 events (λ x m. m),
  λ h.
      elim (emit-keeps events paired id ⊥ [] 0 events
        (λ i x e. ap (get_elem? events) (omega arith) ∙ e) (λ j x is. absurd is) h) [
          | inl none_written ↦ absurd none_written
          | inr m ↦ m
        ],
)

coalesced-evidence :
    (events : List PreparedEvent) (id : Text) (groups : Try Groups)
    → In id (evidence_ids_of (coalesced events groups)) ↔ In id (evidence_ids_of events)
unfolding coalesced
coalesced-evidence events id (err e) = (λ h. h, λ h. h)
coalesced-evidence events id (ok groups) =
    let sorted = sort-evidence (emit events (pair_groups [] groups) [] 0 events) id in
    let all_emitted = emit-evidence events (pair_groups [] groups) id in
    (λ h. all_emitted.0 (sorted.0 h), λ h. sorted.1 (all_emitted.1 h))

-- Coalescing loses no evidence and invents none: whatever pairs of events it merges, the events it
-- returns cite_id exactly the identifiers that the given events cite_id.
pub coalesce_events-evidence :
    (ctx : Context) (events : List PreparedEvent) (id : Text)
    → In id (evidence_ids_of (coalesce_events ctx events)) ↔ In id (evidence_ids_of events)
unfolding coalesce_events
coalesce_events-evidence ctx events id = coalesced-evidence events id (group_events ctx 0 [] events)
