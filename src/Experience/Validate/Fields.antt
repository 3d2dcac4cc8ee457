-- ===== src/Experience/Validate/Fields.antt =====
-- The string checks at the end of internal/experience/validate.go, with `path.Clean`.
pub mod Segments
pub mod Paths
use Prim.Native.Nat.{◌+◌, ◌%◌}
use mathlib.Core.List.{reverse}
use belay_engine.Prelude.{
  ℕ, String, Text, text, Bool, false, ◌&&◌, ◌||◌, not, List, [], ◌∷◌, ◌++◌, ltb, leb, ◌==◌, ◌!=◌,
  nat_eq, list_eq, byte_len, valid_string, trim_space, is_blank, has_prefix, drop, contains_any,
  contains, split, any, all, to_lower, if◌then◌else◌, nat_beq, Check, ok, fail_if, fail_named, when,
  ◌>>◌, length,
}

abbrev pub max_identifier_bytes : ℕ
max_identifier_bytes = 256

abbrev pub max_path_bytes : ℕ
max_path_bytes = 512

abbrev pub max_command_bytes : ℕ
max_command_bytes = 16384

abbrev pub max_guidance_bytes : ℕ
max_guidance_bytes = 2048

abbrev pub max_rationale_bytes : ℕ
max_rationale_bytes = 8192

abbrev pub max_decision_bytes : ℕ
max_decision_bytes = 1024

abbrev pub max_excerpt_bytes : ℕ
max_excerpt_bytes = 16384

abbrev pub max_list_items : ℕ
max_list_items = 128

-- `hasControl`
unfoldable pub has_control : Text → Bool
has_control value = any (λ c. ltb c 0x20 || nat_beq c 0x7f) value

-- `hasDisallowedControl`
unfoldable pub has_disallowed_control : Text → Bool
has_disallowed_control value =
    any (λ c. (ltb c 0x20 && not (nat_beq c 10) && not (nat_beq c 9)) || nat_beq c 0x7f) value

-- `validateIdentifier`
unfoldable pub validate_identifier : String → Text → Check
unfolding has_control valid_string trim_space byte_len
validate_identifier name value = do
  fail_named (is_blank value) name " is required"
  fail_named
      (value != trim_space value
        || ltb max_identifier_bytes (byte_len value)
        || not (valid_string value)
        || has_control value)
      name " is invalid"

-- `validateText`
unfoldable pub validate_text : String → Text → ℕ → Bool → Check
unfolding has_disallowed_control valid_string trim_space byte_len
validate_text name value limit required = do
  fail_named (required && is_blank value) name " is required"
  when (value != []) (
      fail_named
        (value != trim_space value
          || ltb limit (byte_len value)
          || not (valid_string value)
          || has_disallowed_control value)
        name " is invalid or exceeds its byte limit")

-- `validateOneLine`
unfoldable pub validate_one_line : String → Text → ℕ → Bool → Check
unfolding validate_text contains_any
validate_one_line name value limit required = do
  validate_text name value limit required
  fail_named (contains_any value (13 ∷ 10 ∷ [])) name " must be one line"

-- `..` in `path.Clean`: it takes the last kept segment away unless that is `..` itself.
climb : Bool → Text → List Text → List Text
climb rooted segment [] = if rooted then [] else segment ∷ []
climb rooted segment (last ∷ rest) = if last == text ".." then segment ∷ last ∷ rest else rest

-- One segment of `path.Clean`: `kept` holds the segments kept so far, the last one first.
clean_segment : Bool → Text → List Text → List Text
unfolding climb
clean_segment rooted segment kept =
    if segment == [] || segment == text "."
    then kept
    else if segment == text ".."
    then climb rooted segment kept
    else segment ∷ kept

pub clean_segments : Bool → List Text → List Text → List Text
unfolding clean_segment
clean_segments rooted [] kept = reverse kept
clean_segments rooted (segment ∷ rest) kept =
    clean_segments rooted rest (clean_segment rooted segment kept)

pub join_path : List Text → Text
join_path [] = []
join_path (segment ∷ []) = segment
join_path (segment ∷ rest) = segment ++ (b'/' ∷ join_path rest)

-- `path.Clean`
unfoldable pub clean_path : Text → Text
unfolding clean_segments join_path has_prefix split
clean_path value =
    let rooted = has_prefix value (text "/") in
    let joined = join_path (clean_segments rooted (split b'/' value) []) in
    if rooted then b'/' ∷ joined else if joined == [] then text "." else joined

-- `validateRelativePath`
unfoldable pub validate_relative_path : Text → Check
unfolding clean_path has_control contains_any has_prefix trim_space byte_len
validate_relative_path value = do
  fail_if (is_blank value || value != trim_space value || ltb max_path_bytes (byte_len value))
      "relative path is required and bounded"
  fail_if (contains value 92 || has_prefix value (text "/") || contains value 0)
      "path must use relative slash-separated form"
  let cleaned = clean_path value
  fail_if
      (cleaned == text "."
        || cleaned != value
        || cleaned == text ".."
        || has_prefix cleaned (text "../"))
      "path must be clean and cannot traverse parents"
  fail_if (contains_any value (text "*?[]{}") || has_control value)
      "file path cannot contain glob or control characters"

pattern_character : ℕ → Bool
pattern_character c =
    (leb b'a' c && leb c b'z')
    || (leb b'A' c && leb c b'Z')
    || (leb b'0' c && leb c b'9')
    || contains (text "_-.@+*?") c

-- The loop of `validateRelativePattern` over the segments, and its inner loop over a segment.
abbrev validate_segments : List Text → Check
validate_segments [] = ok tt
validate_segments (segment ∷ rest) = do
  fail_if (segment == [] || segment == text "." || segment == text "..")
      "path pattern contains an invalid segment"
  fail_if (not (all pattern_character segment)) "path pattern contains unsupported characters"
  validate_segments rest

-- `validateRelativePattern`
unfoldable pub validate_relative_pattern : Text → Check
unfolding pattern_character split has_prefix trim_space byte_len
validate_relative_pattern value = do
  fail_if (is_blank value || value != trim_space value || ltb max_path_bytes (byte_len value))
      "relative path pattern is required and bounded"
  fail_if (contains value 92 || has_prefix value (text "/") || contains value 0)
      "path pattern must use relative slash-separated form"
  validate_segments (split b'/' value)

-- `hex.DecodeString` succeeds.
abbrev hex_decodes : Text → Bool
hex_decodes s =
    nat_beq (length s % 2) 0
    && all
        (λ c.
          (leb b'0' c && leb c b'9') || (leb b'a' c && leb c b'f') || (leb b'A' c && leb c b'F'))
        s

-- `validSHA256`
unfoldable pub valid_sha256 : Text → Bool
unfolding has_prefix byte_len to_lower
valid_sha256 value =
    if not (has_prefix value (text "sha256:")) || byte_len value != 7 + 64
    then false
    else hex_decodes (drop 7 value) && to_lower value == value
