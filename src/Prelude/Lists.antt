-- ===== src/Prelude/Lists.antt =====
-- Lists measured by native numbers, membership by recursion, and the searches that Go writes as
-- loops with an early return.
use Prim.Native.Nat.{ℕ, zero, suc, ◌+◌, ◌≤◌}
use mathlib.Core.Path.{◌≡◌, refl, sym, ap}
use mathlib.Core.Logic.{◌↔◌, ◌⊎◌, inl, inr}
use mathlib.Core.Bool.{Bool, true, false, ◌&&◌, ◌||◌}
use mathlib.Core.Option.{Option, none, some}
use mathlib.Core.List.{List, [], ◌∷◌, ◌++◌, map}
use native.Mathlib.Omega.{arith}
use belay_engine.Prelude.Tests.{if◌then◌else◌, Bool-cases}
use belay_engine.Prelude.Equality.{Eq}

module _ {ℓ} {A : Type ℓ} where
  pub found_or_none : (m : Option A) → (m ≡ none) ⊎ ((a : A) × (m ≡ some a))
  found_or_none none = inl refl
  found_or_none (some a) = inr (a, refl)

  pub some-injective : (a b : A) → some a ≡ some b → a ≡ b
  some-injective a b h = cc

  abbrev pub length : List A → ℕ
  length [] = 0
  length (x ∷ xs) = suc (length xs)

  abbrev pub get_elem? : List A → ℕ → Option A
  get_elem? [] i = none
  get_elem? (x ∷ xs) zero = some x
  get_elem? (x ∷ xs) (suc i) = get_elem? xs i

  abbrev pub take : ℕ → List A → List A
  take zero xs = []
  take (suc n) [] = []
  take (suc n) (x ∷ xs) = x ∷ take n xs

  abbrev pub is_empty : List A → Bool
  is_empty [] = true
  is_empty (x ∷ xs) = false

  -- `for … { if p x { return true } } return false`
  abbrev pub any : (A → Bool) → List A → Bool
  any p [] = false
  any p (x ∷ xs) = p x || any p xs

  abbrev pub all : (A → Bool) → List A → Bool
  all p [] = true
  all p (x ∷ xs) = p x && all p xs

  abbrev pub filterb : (A → Bool) → List A → List A
  filterb p [] = []
  filterb p (x ∷ xs) = if p x then x ∷ filterb p xs else filterb p xs

  pub length-append : (xs ys : List A) → length (xs ++ ys) ≡ length xs + length ys
  length-append [] ys = omega arith
  length-append (x ∷ xs) ys = omega (arith, length-append xs ys)

  pub length-take : (n : ℕ) (xs : List A) → length (take n xs) ≤ n
  length-take zero xs = omega arith
  length-take (suc n) [] = omega arith
  length-take (suc n) (x ∷ xs) = omega (arith, length-take n xs)

  pub length-take_full : (n : ℕ) (xs : List A) → n ≤ length xs → length (take n xs) ≡ n
  length-take_full zero xs h = refl
  length-take_full (suc n) [] h = absurd (omega arith)
  length-take_full (suc n) (x ∷ xs) h = omega (arith, length-take_full n xs)

  pub length-take_le : (n : ℕ) (xs : List A) → length (take n xs) ≤ length xs
  length-take_le zero xs = omega arith
  length-take_le (suc n) [] = omega arith
  length-take_le (suc n) (x ∷ xs) = omega (arith, length-take_le n xs)

-- Membership, for the data of the program, which stands in `Type 0`.
module _ {A : Type 0} where
  abbrev pub In : A → List A → Type 0
  In a [] = ⊥
  In a (x ∷ xs) = (a ≡ x) ⊎ In a xs

  abbrev pub Subset : List A → List A → Type 0
  Subset xs ys = (a : A) → In a xs → In a ys

  pub take-Subset : (n : ℕ) (xs : List A) → Subset (take n xs) xs
  take-Subset zero xs a h = absurd h
  take-Subset (suc n) [] a h = absurd h
  take-Subset (suc n) (x ∷ xs) a (inl p) = inl p
  take-Subset (suc n) (x ∷ xs) a (inr h) = inr (take-Subset n xs a h)

  pub In-append : (a : A) (xs ys : List A) → In a (xs ++ ys) → In a xs ⊎ In a ys
  In-append a [] ys h = inr h
  In-append a (x ∷ xs) ys (inl p) = inl (inl p)
  In-append a (x ∷ xs) ys (inr h) = elim (In-append a xs ys h) [
    | inl l ↦ inl (inr l)
    | inr r ↦ inr r
  ]

  pub In-append_left : (a : A) (xs ys : List A) → In a xs → In a (xs ++ ys)
  In-append_left a [] ys h = absurd h
  In-append_left a (x ∷ xs) ys (inl p) = inl p
  In-append_left a (x ∷ xs) ys (inr h) = inr (In-append_left a xs ys h)

  pub In-append_right : (a : A) (xs ys : List A) → In a ys → In a (xs ++ ys)
  In-append_right a [] ys h = h
  In-append_right a (x ∷ xs) ys h = inr (In-append_right a xs ys h)

  pub any_sound : (p : A → Bool) (xs : List A) → any p xs ≡ true → (a : A) × In a xs × (p a ≡ true)
  any_sound p [] h = cc
  any_sound p (x ∷ xs) h = elim (Bool-cases (p x)) [
    | inl t ↦ (x, inl refl, t)
    | inr f ↦ let (a, m, t) = any_sound p xs (rw f at h) in (a, inr m, t)
  ]

  pub any_complete : (p : A → Bool) (xs : List A) (a : A) → In a xs → p a ≡ true → any p xs ≡ true
  any_complete p [] a h t = absurd h
  any_complete p (x ∷ xs) a (inl e) t = ground arith
  any_complete p (x ∷ xs) a (inr h) t = ground (arith, any_complete p xs a h t)

  pub all_sound : (p : A → Bool) (xs : List A) → all p xs ≡ true → (a : A) → In a xs → p a ≡ true
  all_sound p [] h a m = absurd m
  all_sound p (x ∷ xs) h a (inl e) = ground arith
  all_sound p (x ∷ xs) h a (inr m) = all_sound p xs (ground arith) a m

  pub all_complete :
      (p : A → Bool) (xs : List A) → ((a : A) → In a xs → p a ≡ true) → all p xs ≡ true
  all_complete p [] h = refl
  all_complete p (x ∷ xs) h = ground (arith, h x (inl refl), all_complete p xs (λ a m. h a (inr m)))

  -- A list that fails `all` has a member that fails the test.
  pub all-false :
      (p : A → Bool) (xs : List A) → all p xs ≡ false → (a : A) × In a xs × (p a ≡ false)
  all-false p [] h = cc
  all-false p (x ∷ xs) h = elim (Bool-cases (p x)) [
    | inl t ↦ let (a, m, f) = all-false p xs (rw t at h) in (a, inr m, f)
    | inr f ↦ (x, inl refl, f)
  ]

  pub In-filterb :
      (p : A → Bool) (xs : List A) (a : A) → In a (filterb p xs) → In a xs × (p a ≡ true)
  In-filterb p [] a h = absurd h
  In-filterb p (x ∷ xs) a h = elim (Bool-cases (p x)) [
    | inl t ↦ elim (let g : In a (x ∷ filterb p xs) = rw t at h in g) [
      | inl e ↦ (inl e, rw e t)
      | inr m ↦ let (i, q) = In-filterb p xs a m in (inr i, q)
    ]
    | inr f ↦ let (i, q) = In-filterb p xs a (rw f at h) in (inr i, q)
  ]

  pub filterb_complete :
      (p : A → Bool) (xs : List A) (a : A) → In a xs → p a ≡ true → In a (filterb p xs)
  filterb_complete p [] a h t = absurd h
  filterb_complete p (x ∷ xs) a (inl e) t = rw (← e) (rw t (inl refl))
  filterb_complete p (x ∷ xs) a (inr m) t = elim (Bool-cases (p x)) [
    | inl y ↦ rw y (inr (filterb_complete p xs a m t))
    | inr n ↦ rw n (filterb_complete p xs a m t)
  ]

module _ {A B : Type 0} where
  -- `for … { result = append(result, f(x)...) }`
  abbrev pub flat_map : (A → List B) → List A → List B
  flat_map f [] = []
  flat_map f (x ∷ xs) = f x ++ flat_map f xs

  pub In-flat_map :
      (f : A → List B) (xs : List A) (b : B) → In b (flat_map f xs) → (a : A) × In a xs × In b (f a)
  In-flat_map f [] b h = absurd h
  In-flat_map f (x ∷ xs) b h = elim (In-append b (f x) (flat_map f xs) h) [
    | inl l ↦ (x, inl refl, l)
    | inr r ↦ let (a, m, i) = In-flat_map f xs b r in (a, inr m, i)
  ]

  pub any-map : (p : B → Bool) (f : A → B) (xs : List A) → any p (map f xs) ≡ any (λ x. p (f x)) xs
  any-map p f [] = refl
  any-map p f (x ∷ xs) = ap (◌||◌ (p (f x))) (any-map p f xs)

  pub all-map : (p : B → Bool) (f : A → B) (xs : List A) → all p (map f xs) ≡ all (λ x. p (f x)) xs
  all-map p f [] = refl
  all-map p f (x ∷ xs) = ap (◌&&◌ (p (f x))) (all-map p f xs)

  pub is_empty-map : (f : A → B) (xs : List A) → is_empty (map f xs) ≡ is_empty xs
  is_empty-map f [] = refl
  is_empty-map f (x ∷ xs) = refl

module _ {A : Type 0} ⦃e : Eq A⦄ where
  abbrev pub contains : List A → A → Bool
  contains xs want = any (λ x. e.beq x want) xs

  pub contains_iff : (xs : List A) (a : A) → (contains xs a ≡ true) ↔ In a xs
  contains_iff [] a = (λ h. cc, λ h. absurd h)
  contains_iff (x ∷ xs) a = (
    λ h. elim (Bool-cases (e.beq x a)) [
      | inl t ↦ inl (sym ((e.beq_iff x a).0 t))
      | inr f ↦ inr ((contains_iff xs a).0 (rw f at h))
    ],
    λ h. elim h [
      | inl p ↦ ground (arith, (e.beq_iff x a).1 (sym p))
      | inr m ↦ ground (arith, (contains_iff xs a).1 m)
    ],
  )
