-- ===== src/Detection/Detectors/LastIndex.antt =====
-- The last index with a property, and the events before it.
use belay_engine.Prelude.{
  ℕ, le→ltb_false, lt→ltb, some-injective, suc, Bool, true, false, ◌&&◌, ◌||◌, List, [], ◌∷◌, ◌++◌,
  Option, some, if◌then◌else◌, length, ◌+◌, any, take, ◌≡◌, refl, ap, ◌∙◌, ◌⊎◌, inl, inr, arith,
  ◌<◌, get_elem?, Bool-cases, lt→ltb, le→ltb_false,
}
use belay_engine.Detection.Detectors.{last_index, is_verification, verified_after}
use belay_engine.Detection.Events.{PreparedEvent}

module _ (p : PreparedEvent → Bool) where
  last_index-kept :
      (found : Option ℕ) (k : ℕ) (xs : List PreparedEvent)
      → any p xs ≡ false
      → last_index p found k xs ≡ found
  unfolding last_index
  last_index-kept found k [] h = refl
  last_index-kept found k (x ∷ xs) h =
      let n : p x ≡ false = ground (arith, h) in
      rw n (last_index-kept found (suc k) xs (ground (arith, h)))

  pub last_index_complete :
      (pre post : List PreparedEvent) (x : PreparedEvent) (found : Option ℕ) (k : ℕ)
      → p x ≡ true
      → any p post ≡ false
      → last_index p found k (pre ++ x ∷ post) ≡ some (k + length pre)
  unfolding last_index
  last_index_complete [] post x found k t n =
      ap (λ b. last_index p (if b then some k else found) (suc k) post) t
      ∙ last_index-kept (some k) (suc k) post n
      ∙ ap some (omega arith)
  last_index_complete (y ∷ pre) post x found k t n =
      last_index_complete pre post x (if p y then some k else found) (suc k) t n
      ∙ ap some (omega arith)

  pub last_index_sound :
      (found : Option ℕ) (k : ℕ) (xs : List PreparedEvent) (i : ℕ)
      → last_index p found k xs ≡ some i
      → ((found ≡ some i) × (any p xs ≡ false))
        ⊎ ((pre : List PreparedEvent) × (x : PreparedEvent) × (post : List PreparedEvent) × (xs
              ≡ pre ++ x ∷ post)
            × (k + length pre ≡ i)
            × (p x ≡ true)
            × (any p post ≡ false))
  unfolding last_index
  last_index_sound found k [] i h = inl (h, refl)
  last_index_sound found k (x ∷ xs) i h = elim (Bool-cases (p x)) [
    | inl t ↦ elim (last_index_sound (some k) (suc k) xs i (rw t at h)) [
      | inl (e, n) ↦ inr ([], x, xs, refl, omega (arith, some-injective k i e), t, n)
      | inr (pre, y, post, e, l, u, n) ↦
          inr (x ∷ pre, y, post, ap (◌∷◌ x) e, omega (arith, l), u, n)
    ]
    | inr f ↦ elim (last_index_sound found (suc k) xs i (rw f at h)) [
      | inl (e, n) ↦ inl (e, rw f n)
      | inr (pre, y, post, e, l, u, n) ↦
          inr (x ∷ pre, y, post, ap (◌∷◌ x) e, omega (arith, l), u, n)
    ]
  ]

pub take-append : (pre post : List PreparedEvent) → take (length pre) (pre ++ post) ≡ pre
take-append [] [] = refl
take-append [] (x ∷ post) = refl
take-append (x ∷ pre) post = ap (◌∷◌ x) (take-append pre post)

pub get_elem?-append :
    (pre post : List PreparedEvent) (x : PreparedEvent)
    → get_elem? (pre ++ x ∷ post) (length pre) ≡ some x
get_elem?-append [] post x = refl
get_elem?-append (y ∷ pre) post x = get_elem?-append pre post x

verified_after-all :
    (change index : ℕ) (xs : List PreparedEvent)
    → change < index
    → verified_after change index xs ≡ any is_verification xs
unfolding verified_after
verified_after-all change index [] h = refl
verified_after-all change index (x ∷ xs) h =
    rw (lt→ltb change index h)
      (ap (◌||◌ (is_verification x)) (verified_after-all change (suc index) xs (omega arith)))

pub verified_after-split :
    (index : ℕ) (pre mid : List PreparedEvent) (x : PreparedEvent)
    → verified_after (index + length pre) index (pre ++ x ∷ mid) ≡ any is_verification mid
unfolding verified_after
verified_after-split index [] mid x =
    ap (λ b. b && is_verification x || verified_after (index + 0) (suc index) mid)
      (le→ltb_false (index + 0) index (omega arith))
    ∙ verified_after-all (index + 0) (suc index) mid (omega arith)
verified_after-split index (y ∷ pre) mid x =
    ap
      (λ b.
        b && is_verification y
        || verified_after (index + suc (length pre)) (suc index) (pre ++ x ∷ mid))
      (le→ltb_false (index + suc (length pre)) index (omega arith))
    ∙ ap (λ n. verified_after n (suc index) (pre ++ x ∷ mid)) (omega arith)
    ∙ verified_after-split (suc index) pre mid x
