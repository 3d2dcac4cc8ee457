-- ===== src/Experience/Validate/Fields/Segments.antt =====
-- The segments that `path.Clean` keeps, internal/experience/validate.go.
use mathlib.Core.List.{reverse}
use mathlib.Core.List.{reverse}
use mathlib.Core.List.{reverse}
use belay_engine.Prelude.{
  ℕ, Text, text, Bool, true, false, ◌&&◌, ◌||◌, not, List, [], ◌∷◌, ◌++◌, ◌==◌, ◌!=◌, if◌then◌else◌,
  all, split, nat_beq, ◌≡◌, refl, ap, ◌∙◌, inl, inr, arith, Bool-cases, on_first, text_eq→eq,
  nat_eq, list_eq,
}
use belay_engine.Experience.Validate.Fields.{clean_segments, join_path, climb, clean_segment}

-- The text has no slash.
abbrev pub slash_free : Text → Bool
slash_free s = all (λ c. not (nat_beq c b'/')) s

-- Reversed lists of kept segments: `..` stands only where everything before it is `..` too.
abbrev pub climbs : List Text → Bool
climbs [] = true
climbs (s ∷ kept) = if s == text ".." then all (λ t. t == text "..") kept else climbs kept

abbrev pub plain : Text → Bool
plain s = s != [] && (s != text "." && slash_free s)

pub climbs-all : (kept : List Text) → all (λ t. t == text "..") kept ≡ true → climbs kept ≡ true
climbs-all [] h = refl
climbs-all (s ∷ kept) h = ground (arith, climbs-all kept)

climb-climbs :
    (s : Text) (kept : List Text)
    → s ≡ text ".."
    → climbs kept ≡ true
    → climbs (climb false s kept) ≡ true
unfolding climb
climb-climbs s [] e h = rw e refl
climb-climbs s (t ∷ kept) e h = elim (Bool-cases (t == text "..")) [
  | inl y ↦ rw y (rw e (ground (arith, h, y)))
  | inr n ↦ rw n (ground (arith, h, n))
]

clean_segment-climbs :
    (s : Text) (kept : List Text) → climbs kept ≡ true → climbs (clean_segment false s kept) ≡ true
unfolding clean_segment
clean_segment-climbs s kept h = elim (Bool-cases (s == [] || s == text ".")) [
  | inl t ↦ rw t h
  | inr f ↦ elim (Bool-cases (s == text "..")) [
    | inl y ↦ rw f (rw y (climb-climbs s kept (text_eq→eq s (text "..") y) h))
    | inr n ↦ rw f (rw n (rw n h))
  ]
]

clean_segment-plain :
    (s : Text) (kept : List Text)
    → slash_free s ≡ true
    → all plain kept ≡ true
    → all plain (clean_segment false s kept) ≡ true
unfolding clean_segment climb
clean_segment-plain s [] f h = ground (arith, f)
clean_segment-plain s (t ∷ kept) f h = ground (arith, f, h)

-- What the loop over the segments ends with.
pub clean_segments-shape :
    (segments kept : List Text)
    → all slash_free segments ≡ true
    → climbs kept ≡ true
    → all plain kept ≡ true
    → (ks : List Text) × (clean_segments false segments kept ≡ reverse ks)
      × (climbs ks ≡ true)
      × (all plain ks ≡ true)
unfolding clean_segments
clean_segments-shape [] kept f c p = (kept, refl, c, p)
clean_segments-shape (s ∷ segments) kept f c p =
    clean_segments-shape segments (clean_segment false s kept) (ground (arith, f))
      (clean_segment-climbs s kept c) (clean_segment-plain s kept (ground (arith, f)) p)

split-slash_free :
    (s t : Text) → slash_free s ≡ true → split b'/' (s ++ (b'/' ∷ t)) ≡ s ∷ split b'/' t
unfolding split
split-slash_free [] t h = refl
split-slash_free (c ∷ s) t h = elim (Bool-cases (nat_beq c b'/')) [
  | inl y ↦ absurd (ground (arith, h, y))
  | inr n ↦ rw n (rw (split-slash_free s t (ground (arith, h))) refl)
]

split-one : (s : Text) → slash_free s ≡ true → split b'/' s ≡ s ∷ []
unfolding split
split-one [] h = refl
split-one (c ∷ s) h = elim (Bool-cases (nat_beq c b'/')) [
  | inl y ↦ absurd (ground (arith, h, y))
  | inr n ↦ rw n (rw (split-one s (ground (arith, h))) refl)
]

pub split-join_path :
    (s : Text) (ks : List Text)
    → all slash_free (s ∷ ks) ≡ true
    → split b'/' (join_path (s ∷ ks)) ≡ s ∷ ks
unfolding join_path
split-join_path s [] h = split-one s (ground (arith, h))
split-join_path s (t ∷ ks) h =
    split-slash_free s (join_path (t ∷ ks)) (ground (arith, h))
    ∙ ap (λ xs. s ∷ xs) (split-join_path t ks (ground (arith, h)))

on_first-slash_free :
    (c : ℕ) (ss : List Text)
    → nat_beq c b'/' ≡ false
    → all slash_free ss ≡ true
    → all slash_free (on_first c ss) ≡ true
on_first-slash_free c [] n h = ground (arith, n)
on_first-slash_free c (s ∷ ss) n h = ground (arith, n, h)

pub split-slashes : (s : Text) → all slash_free (split b'/' s) ≡ true
unfolding split
split-slashes [] = refl
split-slashes (c ∷ s) = elim (Bool-cases (nat_beq c b'/')) [
  | inl y ↦ rw y (split-slashes s)
  | inr n ↦ rw n (on_first-slash_free c (split b'/' s) n (split-slashes s))
]
