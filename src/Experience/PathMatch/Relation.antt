-- ===== src/Experience/PathMatch/Relation.antt =====
-- The meaning of a path pattern, as a relation between segments, and that the matcher decides it.
use belay_engine.Prelude.{
  Text, text, true, false, List, [], ◌∷◌, ◌==◌, split, ◌≡◌, ◌≢◌, refl, ◌↔◌, inl, inr, arith,
  Bool-cases, list_beq_iff, nat_eq, list_eq,
}
use belay_engine.Experience.PathMatch.{path_match, match_segments, relative_path_pattern_matches}

-- `**` stands for any number of whole segments, any other segment for one that it matches.
pub data SegmentsMatch : List Text → List Text → Type 0 where
  done : SegmentsMatch [] []
  skip :
      {p : Text} {ps fs : List Text}
      → p ≡ text "**"
      → SegmentsMatch ps fs
      → SegmentsMatch (p ∷ ps) fs
  more :
      {p f : Text} {ps fs : List Text}
      → p ≡ text "**"
      → SegmentsMatch (p ∷ ps) fs
      → SegmentsMatch (p ∷ ps) (f ∷ fs)
  segment :
      {p f : Text} {ps fs : List Text}
      → p ≢ text "**"
      → path_match p f ≡ true
      → SegmentsMatch ps fs
      → SegmentsMatch (p ∷ ps) (f ∷ fs)

is_double : (p : Text) → ((p == text "**") ≡ true) ↔ (p ≡ text "**")
is_double p = list_beq_iff p (text "**")

not_double : (p : Text) → (p == text "**") ≡ false → p ≢ text "**"
not_double p h e = ground (arith, (is_double p).1 e)

match_segments_sound : (ps fs : List Text) → match_segments ps fs ≡ true → SegmentsMatch ps fs
unfolding match_segments
match_segments_sound [] [] h = done
match_segments_sound [] (f ∷ fs) h = cc
match_segments_sound (p ∷ ps) [] h = elim (Bool-cases (p == text "**")) [
  | inl t ↦ skip ((is_double p).0 t) (match_segments_sound ps [] (rw t at h))
  | inr n ↦ cc (n, h)
]
match_segments_sound (p ∷ ps) (f ∷ fs) h = elim (Bool-cases (p == text "**")) [
  | inl t ↦ elim (Bool-cases (match_segments ps (f ∷ fs))) [
    | inl now ↦ skip ((is_double p).0 t) (match_segments_sound ps (f ∷ fs) now)
    | inr later ↦
        more ((is_double p).0 t) (match_segments_sound (p ∷ ps) fs (ground (arith, t, later, h)))
  ]
  | inr n ↦ elim (Bool-cases (match_segments ps fs)) [
    | inl rest ↦
        segment (not_double p n) (ground (arith, n, rest, h)) (match_segments_sound ps fs rest)
    | inr failed ↦ absurd (ground (arith, n, failed, h))
  ]
]

match_segments_complete : (ps fs : List Text) → SegmentsMatch ps fs → match_segments ps fs ≡ true
unfolding match_segments
match_segments_complete _ _ done = refl
match_segments_complete (p ∷ ps) [] (skip e d) =
    rw ((is_double p).1 e) (match_segments_complete ps [] d)
match_segments_complete (p ∷ ps) (f ∷ fs) (skip e d) =
    ground (arith, (is_double p).1 e, match_segments_complete ps (f ∷ fs) d)
match_segments_complete (p ∷ ps) (f ∷ fs) (more e d) =
    ground (arith, (is_double p).1 e, match_segments_complete (p ∷ ps) fs d)
match_segments_complete (p ∷ ps) (f ∷ fs) (segment e m d) =
    ground (arith, (is_double p).0, e, m, match_segments_complete ps fs d)

-- A pattern matches a file exactly when its segments stand in `SegmentsMatch` to those of the file:
-- `**` takes any number of whole segments, and each other segment one that `path.Match` accepts.
pub relative_path_pattern_matches_iff :
    (pattern file : Text)
    → (relative_path_pattern_matches pattern file ≡ true)
      ↔ SegmentsMatch (split b'/' pattern) (split b'/' file)
unfolding relative_path_pattern_matches
relative_path_pattern_matches_iff pattern file = (
  match_segments_sound (split b'/' pattern) (split b'/' file),
  match_segments_complete (split b'/' pattern) (split b'/' file),
)
