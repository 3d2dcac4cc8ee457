-- ===== src/Detection/Groups/Laws.antt =====
-- What a map that groups values by a key holds.
use mathlib.Core.List.{append-nil, append_assoc}
use mathlib.Core.Path.{subst}
use mathlib.Core.Path.{subst}
use belay_engine.Prelude.{
  Text, Bool, true, false, List, [], ◌∷◌, ◌++◌, ◌==◌, if◌then◌else◌, filterb, text_ltb, ◌≡◌, refl,
  sym, ap, ◌∙◌, ◌↔◌, ◌⊎◌, inl, inr, arith, In, Bool-cases, map, In-sort, sort-IsSorted, Distinct,
  sort-Distinct, IsSorted, text_ltb-IsOrder, text_ltb_total, text_eq→eq, text_ne→ne, list_beq_iff,
  nat_eq, list_eq,
}
use belay_engine.Detection.Groups.{append_to, members, sorted_keys, group_onto}

abbrev pub keys : {V : Type 0} → List (Text × V) → List Text
keys m = map (λ entry. entry.0) m

-- Every key is before those that follow.
abbrev pub Ascending : List Text → Type 0
Ascending [] = Unit
Ascending (k ∷ ks) = ((j : Text) → In j ks → text_ltb k j ≡ true) × Ascending ks

sorted-Ascending : (ks : List Text) → IsSorted text_ltb ks → Distinct ks → Ascending ks
sorted-Ascending [] s d = tt
sorted-Ascending (k ∷ ks) s d = (
  λ j m. elim (Bool-cases (text_ltb k j)) [
    | inl t ↦ t
    | inr f ↦ absurd (d.0 (subst (λ x. In x ks) (text_ltb_total j k (s.0 j m) f) m))
  ],
  sorted-Ascending ks s.1 d.1,
)

module _ {V : Type 0} where
  members-append_to :
      (key j : Text) (value : V) (m : List (Text × List V))
      → members j (append_to key value m)
        ≡ (if key == j then members j m ++ value ∷ [] else members j m)
  unfolding members append_to
  members-append_to key j value [] = refl
  members-append_to key j value ((k, vs) ∷ rest) = ground (
    arith,
    list_beq_iff key j,
    list_beq_iff k key,
    list_beq_iff k j,
    members-append_to key j value rest,
  )

  In-append_to :
      (key j : Text) (value : V) (m : List (Text × List V))
      → In j (keys (append_to key value m)) ↔ ((j ≡ key) ⊎ In j (keys m))
  unfolding append_to
  In-append_to key j value [] = (λ h. h, λ h. h)
  In-append_to key j value ((k, vs) ∷ rest) = elim (Bool-cases (k == key)) [
    | inl same ↦
        rw same
          (λ h. inr h, λ h. elim h [ inl p ↦ inl (p ∙ sym (text_eq→eq k key same)) | inr m ↦ m ])
    | inr other ↦ rw other (
      λ h. elim h [
        | inl p ↦ inr (inl p)
        | inr m ↦ elim ((In-append_to key j value rest).0 m) [ inl q ↦ inl q | inr n ↦ inr (inr n) ]
      ],
      λ h. elim h [
        | inl p ↦ inr ((In-append_to key j value rest).1 (inl p))
        | inr (inl p) ↦ inl p
        | inr (inr m) ↦ inr ((In-append_to key j value rest).1 (inr m))
      ],
    )
  ]

  append_to-Distinct :
      (key : Text) (value : V) (m : List (Text × List V))
      → Distinct (keys m)
      → Distinct (keys (append_to key value m))
  unfolding append_to
  append_to-Distinct key value [] d = (λ h. h, tt)
  append_to-Distinct key value ((k, vs) ∷ rest) d = elim (Bool-cases (k == key)) [
    | inl same ↦ rw same d
    | inr other ↦ rw other (
      λ h. elim ((In-append_to key k value rest).0 h) [
        | inl p ↦ text_ne→ne k key other p
        | inr m ↦ d.0 m
      ],
      append_to-Distinct key value rest d.1,
    )
  ]

  members-append_if :
      (b : Bool) (vs : List V) (v : V) (rest : List V)
      → (if b then vs ++ v ∷ [] else vs) ++ rest ≡ vs ++ (if b then v ∷ rest else rest)
  members-append_if true vs v rest = append_assoc vs (v ∷ []) rest
  members-append_if false vs v rest = refl

  module _ (key_of : V → Text) where
    members-group_onto :
        (j : Text) (m : List (Text × List V)) (values : List V)
        → members j (group_onto key_of m values)
          ≡ members j m ++ filterb (λ value. key_of value == j) values
    unfolding group_onto
    members-group_onto j m [] = sym (append-nil (members j m))
    members-group_onto j m (value ∷ values) =
        members-group_onto j (append_to (key_of value) value m) values
        ∙ ap (λ vs. vs ++ filterb (λ v. key_of v == j) values)
            (members-append_to (key_of value) j value m)
        ∙ members-append_if (key_of value == j) (members j m) value
            (filterb (λ v. key_of v == j) values)

    In-group_onto :
        (j : Text) (m : List (Text × List V)) (values : List V)
        → In j (keys (group_onto key_of m values))
          ↔ (In j (keys m) ⊎ ((v : V) × In v values × (key_of v ≡ j)))
    unfolding group_onto
    In-group_onto j m [] = (inl, λ h. elim h [ inl k ↦ k | inr (v, b, _) ↦ absurd b ])
    In-group_onto j m (value ∷ values) =
        let ih = In-group_onto j (append_to (key_of value) value m) values in
        let one = In-append_to (key_of value) j value m in
        (
          λ h. elim (ih.0 h) [
            | inl k ↦ elim (one.0 k) [ inl p ↦ inr (value, inl refl, sym p) | inr n ↦ inl n ]
            | inr (v, b, q) ↦ inr (v, inr b, q)
          ],
          λ h. elim h [
            | inl k ↦ ih.1 (inl (one.1 (inr k)))
            | inr (v, inl b, q) ↦ ih.1 (inl (one.1 (inl (sym q ∙ ap key_of b))))
            | inr (v, inr b, q) ↦ ih.1 (inr (v, b, q))
          ],
        )

    group_onto-Distinct :
        (m : List (Text × List V)) (values : List V)
        → Distinct (keys m)
        → Distinct (keys (group_onto key_of m values))
    unfolding group_onto
    group_onto-Distinct m [] d = d
    group_onto-Distinct m (value ∷ values) d =
        group_onto-Distinct (append_to (key_of value) value m) values
          (append_to-Distinct (key_of value) value m d)

    -- The sorted keys are those of the values.
    pub In-sorted_keys :
        (j : Text) (values : List V)
        → In j (sorted_keys (group_onto key_of [] values))
          ↔ ((v : V) × In v values × (key_of v ≡ j))
    unfolding sorted_keys
    In-sorted_keys j values = (
      λ h. elim ((In-group_onto j [] values).0 ((In-sort text_ltb _ j).0 h)) [
        | inl nothing ↦ absurd nothing
        | inr found ↦ found
      ],
      λ found. (In-sort text_ltb _ j).1 ((In-group_onto j [] values).1 (inr found)),
    )

    pub sorted_keys-Ascending :
        (values : List V) → Ascending (sorted_keys (group_onto key_of [] values))
    unfolding sorted_keys
    sorted_keys-Ascending values =
        sorted-Ascending _ (sort-IsSorted text_ltb-IsOrder _)
          (sort-Distinct text_ltb _ (group_onto-Distinct [] values tt))

    -- The members of a key are the values with it, in their order.
    pub members-group :
        (j : Text) (values : List V)
        → members j (group_onto key_of [] values) ≡ filterb (λ v. key_of v == j) values
    unfolding members
    members-group j values = members-group_onto j [] values
