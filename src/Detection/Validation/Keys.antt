-- ===== src/Detection/Validation/Keys.antt =====
-- The keys that tell matches apart.
use mathlib.Core.List.{append_assoc}
use mathlib.Core.Path.{subst}
use belay_engine.Prelude.{
  ℕ, Text, Bool, true, not, List, [], ◌∷◌, ◌++◌, contains, all, byte_len, nat_beq, ◌≡◌, ◌≢◌, refl,
  sym, ap, ◌∙◌, ◌↔◌, ◌⊎◌, inl, inr, arith, In, Bool-cases, contains_iff, all_sound, byte_width,
  nat_eq, list_eq,
}
use belay_engine.Detection.Decimal.{decimal}
use belay_engine.Detection.Decimal.Reading.{split_mark, decimal-colon}
use belay_engine.Detection.Validation.{
  frame, dimension_key, match_key, duplicate_after, duplicate_match,
}
use belay_engine.Detection.Types.{FingerprintDimension, Match}

-- Texts of the same number of bytes that begin two equal texts are equal.
prefix_bytes : (x y a b : Text) → byte_len x ≡ byte_len y → x ++ a ≡ y ++ b → (x ≡ y) × (a ≡ b)
unfolding byte_len
prefix_bytes [] [] a b l h = (refl, h)
prefix_bytes [] (d ∷ ds) a b l h = absurd (ground (arith, l))
prefix_bytes (c ∷ cs) [] a b l h = absurd (ground (arith, l))
prefix_bytes (c ∷ cs) (d ∷ ds) a b l h =
    let same : c ≡ d = cc h in
    let (tails, rest) = prefix_bytes cs ds a b (omega (arith, l, ap byte_width same)) (cc h) in
    (cc (same, tails), rest)

frame-injective : (x y a b : Text) → frame x ++ a ≡ frame y ++ b → (x ≡ y) × (a ≡ b)
unfolding frame
frame-injective x y a b h =
    let joined =
      sym (append_assoc (decimal (byte_len x)) (b':' ∷ x) a)
      ∙ h
      ∙ append_assoc (decimal (byte_len y)) (b':' ∷ y) b in
    let (lengths, rest) = decimal-colon (byte_len x) (byte_len y) (x ++ a) (y ++ b) joined in
    prefix_bytes x y a b lengths rest

append-ne_nil : (xs : Text) (c : ℕ) (ys zs : Text) → (xs ++ c ∷ ys) ++ zs ≢ []
append-ne_nil [] c ys zs h = cc h
append-ne_nil (x ∷ xs) c ys zs h = cc h

frame-ne_nil : (x a : Text) → frame x ++ a ≢ []
unfolding frame
frame-ne_nil x a h = append-ne_nil (decimal (byte_len x)) b':' x a h

-- The key of a fingerprint determines the fingerprint.
pub dimension_key-injective :
    (xs ys : List FingerprintDimension) → dimension_key xs ≡ dimension_key ys → xs ≡ ys
unfolding dimension_key
dimension_key-injective [] [] h = refl
dimension_key-injective [] (y ∷ ys) h = absurd (frame-ne_nil y.name _ (sym h))
dimension_key-injective (x ∷ xs) [] h = absurd (frame-ne_nil x.name _ h)
dimension_key-injective (x ∷ xs) (y ∷ ys) h =
    let (names, rest) = frame-injective x.name y.name _ _ h in
    let (values, keys) = frame-injective x.value y.value _ _ rest in
    let tails = dimension_key-injective xs ys keys in cc (names, values, tails)

abbrev pub nul_free : Text → Bool
nul_free s = all (λ c. not (nat_beq c 0)) s

match_key-injective :
    (m n : Match)
    → nul_free m.detector_id ≡ true
    → nul_free n.detector_id ≡ true
    → match_key m ≡ match_key n
    → (m.detector_id ≡ n.detector_id) × (m.fingerprint ≡ n.fingerprint)
unfolding match_key
match_key-injective m n f g h =
    let (ids, keys) =
      split_mark (λ c. not (nat_beq c 0)) 0 m.detector_id n.detector_id _ _ refl f g h in
    (ids, dimension_key-injective m.fingerprint n.fingerprint keys)

-- Some match has the detector and the fingerprint of one before it.
abbrev pub Repeats : List Match → Type 0
Repeats [] = ⊥
Repeats (m ∷ ms) =
    ((n : Match) × In n ms × (m.detector_id ≡ n.detector_id) × (m.fingerprint ≡ n.fingerprint))
    ⊎ Repeats ms

-- Some match has a key that was seen.
abbrev Seen : List Text → List Match → Type 0
Seen seen ms = (n : Match) × In n ms × In (match_key n) seen

duplicate_after_sound :
    (seen : List Text) (ms : List Match)
    → all (λ m. nul_free m.detector_id) ms ≡ true
    → duplicate_after seen ms ≡ true
    → Seen seen ms ⊎ Repeats ms
unfolding duplicate_after match_key
duplicate_after_sound seen [] f h = cc h
duplicate_after_sound seen (m ∷ ms) f h = elim (Bool-cases (contains seen (match_key m))) [
  | inl t ↦ inl (m, inl refl, (contains_iff seen (match_key m)).0 t)
  | inr n ↦ elim (duplicate_after_sound (match_key m ∷ seen) ms (ground (arith, f)) (rw n at h)) [
    | inr r ↦ inr (inr r)
    | inl (k, is, inr s) ↦ inl (k, inr is, s)
    | inl (k, is, inl e) ↦
        let free = all_sound (λ m. nul_free m.detector_id) (m ∷ ms) f in
        let (ids, prints) = match_key-injective m k (free m (inl refl)) (free k (inr is)) (sym e) in
        inr (inl (k, is, ids, prints))
  ]
]

duplicate_after_complete :
    (seen : List Text) (ms : List Match)
    → Seen seen ms ⊎ Repeats ms
    → duplicate_after seen ms ≡ true
unfolding duplicate_after match_key
duplicate_after_complete seen [] h = elim h [ inl (n, is, _) ↦ absurd is | inr r ↦ absurd r ]
duplicate_after_complete seen (m ∷ ms) h = elim (Bool-cases (contains seen (match_key m))) [
  | inl t ↦ rw t refl
  | inr f ↦ rw f (
      duplicate_after_complete (match_key m ∷ seen) ms (elim h [
        | inl (n, inl e, s) ↦ absurd (
            cc (
              sym f ∙ (contains_iff seen (match_key m)).1 (subst (λ k. In (match_key k) seen) e s)))
        | inl (n, inr is, s) ↦ inl (n, is, inr s)
        | inr (inl (n, is, ids, prints)) ↦
            inl (n, is, inl (λ i. sym ids i ++ 0 ∷ dimension_key (sym prints i)))
        | inr (inr r) ↦ inr r
      ]))
]

-- Where no detector identifier holds a NUL, matches count as duplicates exactly if two of them have
-- the same detector and the same fingerprint, dimension by dimension: the keys, which are one text
-- each, confuse no two fingerprints.
pub duplicate_match_iff :
    (ms : List Match)
    → all (λ m. nul_free m.detector_id) ms ≡ true
    → (duplicate_match ms ≡ true) ↔ Repeats ms
unfolding duplicate_match
duplicate_match_iff ms f = (
  λ h. elim (duplicate_after_sound [] ms f h) [ inl (n, is, s) ↦ absurd s | inr r ↦ r ],
  λ r. duplicate_after_complete [] ms (inr r),
)
