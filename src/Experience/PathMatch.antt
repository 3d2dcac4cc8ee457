-- ===== src/Experience/PathMatch.antt =====
-- internal/experience/pathmatch.go, with `path.Match` of the standard library.
pub mod Relation
use belay_engine.Prelude.{
  ℕ, Text, text, Bool, true, false, ◌&&◌, ◌||◌, not, List, [], ◌∷◌, ◌++◌, Option, some, none, leb,
  ◌==◌, is_empty, if◌then◌else◌, err, each, ◌+◌, any, take, split, nat_beq, ◌-◌, ◌*◌, nat_eq,
  list_eq,
}

-- One element of a `path.Match` pattern: a class is negated or not, and lists its ranges.
pub data Glob : Type 0 where
  star any_one : Glob
  literal : ℕ → Glob
  class : Bool → List (ℕ × ℕ) → Glob

-- Where the reader of a pattern stands. Within a class it has the negation and the ranges so far;
-- `low` waits for the lower end of a range, or for `]` behind the first range, `dash` has it.
pub data Mode : Type 0 where
  plain escape first : Mode
  low low_escape : Bool → List (ℕ × ℕ) → Mode
  dash high high_escape : Bool → List (ℕ × ℕ) → ℕ → Mode

-- A byte that is no UTF-8 is refused in a class.
abbrev bad_rune : ℕ → Bool
bad_rune c = leb 0x110000 c

-- The mode after a character, and the element that it completes; `none` is `ErrBadPattern`.
abbrev Read : Type 0
Read = Option (Mode × List Glob)

read_low : Bool → List (ℕ × ℕ) → ℕ → Read
read_low negated ranges c =
    if nat_beq c b']' && not (is_empty ranges)
    then some (Mode.plain, Glob.class negated ranges ∷ [])
    else if nat_beq c b'-' || nat_beq c b']' || bad_rune c
    then none
    else if nat_beq c 92
    then some (Mode.low_escape negated ranges, [])
    else some (Mode.dash negated ranges c, [])

read : Mode → ℕ → Read
unfolding read_low
read Mode.plain c =
    if nat_beq c b'*'
    then some (Mode.plain, Glob.star ∷ [])
    else if nat_beq c b'?'
    then some (Mode.plain, Glob.any_one ∷ [])
    else if nat_beq c 92
    then some (Mode.escape, [])
    else if nat_beq c b'['
    then some (Mode.first, [])
    else some (Mode.plain, Glob.literal c ∷ [])
read Mode.escape c = some (Mode.plain, Glob.literal c ∷ [])
read Mode.first c = if nat_beq c b'^' then some (Mode.low true [], []) else read_low false [] c
read (Mode.low negated ranges) c = read_low negated ranges c
read (Mode.low_escape negated ranges) c =
    if bad_rune c then none else some (Mode.dash negated ranges c, [])
read (Mode.dash negated ranges lo) c =
    if nat_beq c b'-'
    then some (Mode.high negated ranges lo, [])
    else read_low negated (ranges ++ (lo, lo) ∷ []) c
read (Mode.high negated ranges lo) c =
    if nat_beq c b'-' || nat_beq c b']' || bad_rune c
    then none
    else if nat_beq c 92
    then some (Mode.high_escape negated ranges lo, [])
    else some (Mode.low negated (ranges ++ (lo, c) ∷ []), [])
read (Mode.high_escape negated ranges lo) c =
    if bad_rune c then none else some (Mode.low negated (ranges ++ (lo, c) ∷ []), [])

abbrev prepend : List Glob → Option (List Glob) → Option (List Glob)
prepend front none = none
prepend front (some rest) = some (front ++ rest)

-- The whole pattern, or `none` where `path.Match` reports `ErrBadPattern`.
read_globs : Mode → Text → Option (List Glob)
unfolding read
read_globs Mode.plain [] = some []
read_globs _ [] = none
read_globs mode (c ∷ cs) = elim (read mode c) [
  | none ↦ none
  | some (next, front) ↦ prepend front (read_globs next cs)
]

in_ranges : List (ℕ × ℕ) → ℕ → Bool
in_ranges ranges c = any (λ r. leb r.0 c && leb c r.1) ranges

-- Whether an element other than `star` takes the character.
accepts : Glob → ℕ → Bool
unfolding in_ranges
accepts Glob.star c = false
accepts Glob.any_one c = not (nat_beq c b'/')
accepts (Glob.literal d) c = nat_beq c d
accepts (Glob.class negated ranges) c =
    if negated then not (in_ranges ranges c) else in_ranges ranges c

-- A star takes any characters but `/`; the other elements take one character each.
unfoldable pub match_globs : List Glob → Text → Bool
unfolding accepts
match_globs [] [] = true
match_globs [] (c ∷ cs) = false
match_globs (Glob.star ∷ gs) [] = match_globs gs []
match_globs (Glob.star ∷ gs) (c ∷ cs) =
    let longer = match_globs (Glob.star ∷ gs) cs in
    match_globs gs (c ∷ cs) || (not (nat_beq c b'/') && longer)
match_globs (g ∷ gs) [] = false
match_globs (g ∷ gs) (c ∷ cs) = accepts g c && match_globs gs cs

-- `matched, err := path.Match(…)`, as the caller uses it: `err == nil && matched`. A star is tried at
-- every code point, and in Go at every byte: the two differ only on a name beyond ASCII, against a
-- pattern with a `?` or a class behind a star.
unfoldable pub path_match : Text → Text → Bool
unfolding read_globs match_globs
path_match pattern name = elim (read_globs Mode.plain pattern) [
  | none ↦ false
  | some globs ↦ match_globs globs name
]

-- The closure `match` of `RelativePathPatternMatches`, on the segments from the two indices on.
unfoldable pub match_segments : List Text → List Text → Bool
unfolding path_match
match_segments [] [] = true
match_segments [] (f ∷ fs) = false
match_segments (p ∷ ps) [] = if p == text "**" then match_segments ps [] else false
match_segments (p ∷ ps) (f ∷ fs) =
    let skip = match_segments ps (f ∷ fs) in
    let more = match_segments (p ∷ ps) fs in
    let next = match_segments ps fs in
    if p == text "**" then skip || more else path_match p f && next

-- `RelativePathPatternMatches`
unfoldable pub relative_path_pattern_matches : Text → Text → Bool
unfolding match_segments split
relative_path_pattern_matches pattern file = match_segments (split b'/' pattern) (split b'/' file)

-- `fileMatchesAnyRelativePathPattern`
unfoldable pub file_matches_any_pattern : Text → List Text → Bool
file_matches_any_pattern file patterns =
    any (λ pattern. relative_path_pattern_matches pattern file) patterns
