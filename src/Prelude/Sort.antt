-- ===== src/Prelude/Sort.antt =====
-- `sort.Slice` and `sort.Strings` as a stable insertion sort, and the removal of equal neighbours.
use Prim.Native.Nat.{suc, ◌+◌}
use mathlib.Core.Path.{◌≡◌, refl, sym, subst, ◌∙◌}
use mathlib.Core.Logic.{◌↔◌, ◌⊎◌, inl, inr}
use mathlib.Core.Bool.{Bool, true, false}
use mathlib.Core.List.{List, [], ◌∷◌}
use native.Mathlib.Omega.{arith}
use belay_engine.Prelude.Tests.{if◌then◌else◌, Bool-cases}
use belay_engine.Prelude.Equality.{Eq}
use belay_engine.Prelude.Lists.{In, length}

module _ {A : Type 0} where
  -- `x` goes before the first element that is strictly after it; `less` is Go's comparison.
  unfoldable pub insert_sorted : (A → A → Bool) → A → List A → List A
  insert_sorted less x [] = x ∷ []
  insert_sorted less x (y ∷ ys) =
      let rest = insert_sorted less x ys in if less x y then x ∷ y ∷ ys else y ∷ rest

  -- Elements are inserted from the first on, each behind those that it is not less than.
  unfoldable pub sort_onto : (A → A → Bool) → List A → List A → List A
  sort_onto less [] sorted = sorted
  sort_onto less (x ∷ xs) sorted = sort_onto less xs (insert_sorted less x sorted)

  unfoldable pub sort : (A → A → Bool) → List A → List A
  unfolding insert_sorted sort_onto
  sort less xs = sort_onto less xs []

  pub length-insert_sorted :
      (less : A → A → Bool) (x : A) (ys : List A)
      → length (insert_sorted less x ys) ≡ suc (length ys)
  unfolding insert_sorted
  length-insert_sorted less x [] = refl
  length-insert_sorted less x (y ∷ ys) = ground (arith, length-insert_sorted less x ys)

  length-sort_onto :
      (less : A → A → Bool) (xs ys : List A) → length (sort_onto less xs ys) ≡ length xs + length ys
  unfolding sort_onto
  length-sort_onto less [] ys = omega arith
  length-sort_onto less (x ∷ xs) ys =
      omega
        (arith, length-sort_onto less xs (insert_sorted less x ys), length-insert_sorted less x ys)

  pub length-sort : (less : A → A → Bool) (xs : List A) → length (sort less xs) ≡ length xs
  unfolding sort
  length-sort less xs = omega (arith, length-sort_onto less xs [])

  In-insert_sorted :
      (less : A → A → Bool) (x : A) (ys : List A) (a : A)
      → In a (insert_sorted less x ys) ↔ In a (x ∷ ys)
  unfolding insert_sorted
  In-insert_sorted less x [] a = (λ h. h, λ h. h)
  In-insert_sorted less x (y ∷ ys) a = elim (Bool-cases (less x y)) [
    | inl t ↦ rw t (λ h. h, λ h. h)
    | inr f ↦ rw f (
      λ h. elim h [
        | inl p ↦ inr (inl p)
        | inr m ↦ elim ((In-insert_sorted less x ys a).0 m) [ inl q ↦ inl q | inr n ↦ inr (inr n) ]
      ],
      λ h. elim h [
        | inl p ↦ inr ((In-insert_sorted less x ys a).1 (inl p))
        | inr (inl q) ↦ inl q
        | inr (inr n) ↦ inr ((In-insert_sorted less x ys a).1 (inr n))
      ],
    )
  ]

  In-sort_onto :
      (less : A → A → Bool) (xs ys : List A) (a : A)
      → In a (sort_onto less xs ys) ↔ (In a xs ⊎ In a ys)
  unfolding sort_onto
  In-sort_onto less [] ys a = (inr, λ h. elim h [ inl b ↦ absurd b | inr m ↦ m ])
  In-sort_onto less (x ∷ xs) ys a =
      let ih = In-sort_onto less xs (insert_sorted less x ys) a in
      let one = In-insert_sorted less x ys a in
      (
        λ h. elim (ih.0 h) [
          | inl m ↦ inl (inr m)
          | inr m ↦ elim (one.0 m) [ inl p ↦ inl (inl p) | inr n ↦ inr n ]
        ],
        λ h. elim h [
          | inl (inl p) ↦ ih.1 (inr (one.1 (inl p)))
          | inl (inr m) ↦ ih.1 (inl m)
          | inr n ↦ ih.1 (inr (one.1 (inr n)))
        ],
      )

  -- Sorting keeps the members.
  pub In-sort : (less : A → A → Bool) (xs : List A) (a : A) → In a (sort less xs) ↔ In a xs
  unfolding sort
  In-sort less xs a = (
    λ h. elim ((In-sort_onto less xs [] a).0 h) [ inl m ↦ m | inr b ↦ absurd b ],
    λ m. (In-sort_onto less xs [] a).1 (inl m),
  )

  -- No element stands twice.
  abbrev pub Distinct : List A → Type 0
  Distinct [] = Unit
  Distinct (x ∷ xs) = ¬ In x xs × Distinct xs

  insert_sorted-Distinct :
      (less : A → A → Bool) (x : A) (ys : List A)
      → ¬ In x ys
      → Distinct ys
      → Distinct (insert_sorted less x ys)
  unfolding insert_sorted
  insert_sorted-Distinct less x [] new d = (λ h. h, tt)
  insert_sorted-Distinct less x (y ∷ ys) new d = elim (Bool-cases (less x y)) [
    | inl t ↦ rw t (new, d)
    | inr f ↦ rw f (
      λ h. elim ((In-insert_sorted less x ys y).0 h) [ inl p ↦ new (inl (sym p)) | inr m ↦ d.0 m ],
      insert_sorted-Distinct less x ys (λ h. new (inr h)) d.1,
    )
  ]

  sort_onto-Distinct :
      (less : A → A → Bool) (xs ys : List A)
      → Distinct xs
      → Distinct ys
      → ((a : A) → In a xs → ¬ In a ys)
      → Distinct (sort_onto less xs ys)
  unfolding sort_onto
  sort_onto-Distinct less [] ys d e apart = e
  sort_onto-Distinct less (x ∷ xs) ys d e apart =
      sort_onto-Distinct less xs (insert_sorted less x ys) d.1
        (insert_sorted-Distinct less x ys (apart x (inl refl)) e)
        (λ a m h. elim ((In-insert_sorted less x ys a).0 h) [
          | inl p ↦ d.0 (subst (λ b. In b xs) p m)
          | inr n ↦ apart a (inr m) n
        ])

  pub sort-Distinct : (less : A → A → Bool) (xs : List A) → Distinct xs → Distinct (sort less xs)
  unfolding sort
  sort-Distinct less xs d = sort_onto-Distinct less xs [] d tt (λ a m h. h)

  -- No element of the list is less than `x`.
  abbrev pub Below : (A → A → Bool) → A → List A → Type 0
  Below less x ys = (y : A) → In y ys → less y x ≡ false

  abbrev pub IsSorted : (A → A → Bool) → List A → Type 0
  IsSorted less [] = Unit
  IsSorted less (x ∷ xs) = Below less x xs × IsSorted less xs

  -- A strict order whose incomparability is transitive enough to sort by.
  pub record IsOrder (less : A → A → Bool) : Type 0 where
    pub irrefl : (a : A) → less a a ≡ false
    pub asym : (a b : A) → less a b ≡ true → less b a ≡ false
    pub trans_not : (a b c : A) → less b a ≡ false → less c b ≡ false → less c a ≡ false

module _ {A : Type 0} {less : A → A → Bool} (o : IsOrder less) where
  insert_sorted-IsSorted :
      (x : A) (ys : List A) → IsSorted less ys → IsSorted less (insert_sorted less x ys)
  unfolding insert_sorted
  insert_sorted-IsSorted x [] s = (λ y h. absurd h, tt)
  insert_sorted-IsSorted x (y ∷ ys) s = elim (Bool-cases (less x y)) [
    | inl t ↦ rw t (
        (
          λ z h. elim h [
            | inl p ↦ rw p (o.asym x y t)
            | inr m ↦ o.trans_not x y z (o.asym x y t) (s.0 z m)
          ],
          s,
        ))
    | inr f ↦ rw f (
        (
          λ z h. elim ((In-insert_sorted less x ys z).0 h) [ inl p ↦ rw p f | inr m ↦ s.0 z m ],
          insert_sorted-IsSorted x ys s.1,
        ))
  ]

  sort_onto-IsSorted : (xs ys : List A) → IsSorted less ys → IsSorted less (sort_onto less xs ys)
  unfolding sort_onto
  sort_onto-IsSorted [] ys s = s
  sort_onto-IsSorted (x ∷ xs) ys s =
      sort_onto-IsSorted xs (insert_sorted less x ys) (insert_sorted-IsSorted x ys s)

  pub sort-IsSorted : (xs : List A) → IsSorted less (sort less xs)
  unfolding sort
  sort-IsSorted xs = sort_onto-IsSorted xs [] tt

module _ {A : Type 0} ⦃e : Eq A⦄ where
  -- The loop of `compactComparable`: `last` is the last value that was kept.
  unfoldable pub compact_after : A → List A → List A
  compact_after last [] = []
  compact_after last (x ∷ xs) =
      let rest = compact_after x xs in if e.beq x last then compact_after last xs else x ∷ rest

  unfoldable pub compact : List A → List A
  unfolding compact_after
  compact [] = []
  compact (x ∷ xs) = x ∷ compact_after x xs

  In-compact_after :
      (last : A) (xs : List A) (a : A) → In a (last ∷ compact_after last xs) ↔ In a (last ∷ xs)
  unfolding compact_after
  In-compact_after last [] a = (λ h. h, λ h. h)
  In-compact_after last (x ∷ xs) a = elim (Bool-cases (e.beq x last)) [
    | inl t ↦
        let same = (e.beq_iff x last).0 t in
        let ih = In-compact_after last xs a in
        rw t (
          λ h. elim (ih.0 h) [ inl p ↦ inl p | inr m ↦ inr (inr m) ],
          λ h. elim h [ inl p ↦ inl p | inr (inl q) ↦ inl (q ∙ same) | inr (inr m) ↦ ih.1 (inr m) ],
        )
    | inr f ↦
        let ih = In-compact_after x xs a in
        rw f (
          λ h. elim h [ inl p ↦ inl p | inr m ↦ inr (ih.0 m) ],
          λ h. elim h [ inl p ↦ inl p | inr m ↦ inr (ih.1 m) ],
        )
  ]

  -- Compaction keeps the members.
  pub In-compact : (xs : List A) (a : A) → In a (compact xs) ↔ In a xs
  unfolding compact
  In-compact [] a = (λ h. h, λ h. h)
  In-compact (x ∷ xs) a = In-compact_after x xs a
