-- ===== src/Experience/Validate/Fields/Paths.antt =====
-- Relative paths, as `validateRelativePath` of internal/experience/validate.go checks them.
use mathlib.Core.List.{reverse, reverse-cons}
use mathlib.Core.Path.{subst}
use mathlib.Core.Path.{subst}
use mathlib.Core.List.{reverse, reverse-cons}
use mathlib.Core.Path.{subst}
use mathlib.Core.List.{reverse, reverse-cons}
use belay_engine.Prelude.{
  Text, text, Bool, true, false, ◌&&◌, ◌||◌, List, [], ◌∷◌, ◌++◌, ltb, ◌==◌, ◌!=◌, contains,
  is_blank, if◌then◌else◌, ok, fail_if, any, all, trim_space, has_prefix, split, byte_len, ◌≡◌,
  refl, sym, ap, ◌∙◌, ◌⊎◌, inl, inr, arith, Bool-cases, text_eq→eq, >>-eq_ok, not-false,
  fail_if-eq_ok, list_beq_iff, nat_eq, list_eq,
}
use belay_engine.Experience.Validate.Fields.{
  max_path_bytes, join_path, clean_path, validate_relative_path,
}
use belay_engine.Experience.Validate.Fields.Segments.{
  slash_free, climbs, plain, climbs-all, clean_segments-shape, split-join_path, split-slashes,
}
use belay_engine.Experience.Validate.Fields.{
  max_path_bytes, join_path, clean_path, validate_relative_path,
}
use belay_engine.Experience.Validate.Fields.Segments.{
  slash_free, climbs, plain, climbs-all, clean_segments-shape, split-join_path, split-slashes,
}

abbrev first : List Text → Text
first [] = []
first (s ∷ ss) = s

first-append : (xs ys : List Text) → first xs ≡ text ".." → first (xs ++ ys) ≡ text ".."
first-append [] ys h = cc h
first-append (x ∷ xs) ys h = h

abbrev climbing : List Text → Bool
climbing ks = any (λ t. t == text "..") ks

climbing-all :
    (t : Text) (kept : List Text)
    → all (λ u. u == text "..") (t ∷ kept) ≡ true
    → climbing (t ∷ kept) ≡ true
climbing-all t kept h = ground (arith, h)

-- If there is a `..` at all, the path starts with one.
first-reverse :
    (ks : List Text) → climbs ks ≡ true → climbing ks ≡ true → first (reverse ks) ≡ text ".."
first-reverse [] c h = cc h
first-reverse (s ∷ []) c h = text_eq→eq s (text "..") (ground (arith, h))
first-reverse (s ∷ t ∷ kept) c h = rw (reverse-cons s (t ∷ kept)) (
    first-append (reverse (t ∷ kept)) (s ∷ []) (elim (Bool-cases (s == text "..")) [
      | inl y ↦
          let rest : all (λ u. u == text "..") (t ∷ kept) ≡ true = rw y at c in
          first-reverse (t ∷ kept) (climbs-all (t ∷ kept) rest) (climbing-all t kept rest)
      | inr n ↦ first-reverse (t ∷ kept) (rw n at c) (rw n at h)
    ]))

-- Neither empty nor `.` nor `..`, and without a slash.
abbrev pub stays_below : Text → Bool
stays_below s = plain s && s != text ".."

all-stays_below :
    (ks : List Text) → all plain ks ≡ true → climbing ks ≡ false → all stays_below ks ≡ true
all-stays_below [] p n = refl
all-stays_below (s ∷ ks) p n = ground (arith, all-stays_below ks, p, n)

all-append : (p : Text → Bool) (xs ys : List Text) → all p (xs ++ ys) ≡ (all p xs && all p ys)
all-append p [] ys = refl
all-append p (x ∷ xs) ys = ground (arith, all-append p xs ys)

all-reverse : (p : Text → Bool) (xs : List Text) → all p (reverse xs) ≡ all p xs
all-reverse p [] = refl
all-reverse p (x ∷ xs) =
    rw (reverse-cons x xs) (ground (arith, all-append p (reverse xs) (x ∷ []), all-reverse p xs))

plain-slash_free : (ks : List Text) → all plain ks ≡ true → all slash_free ks ≡ true
plain-slash_free [] h = refl
plain-slash_free (s ∷ ks) h = ground (arith, plain-slash_free ks, h)

-- A path that starts with `..` is `..`, or has `../` in front.
starts_outside :
    (ks : List Text)
    → first ks ≡ text ".."
    → (join_path ks ≡ text "..") ⊎ (has_prefix (join_path ks) (text "../") ≡ true)
unfolding join_path has_prefix
starts_outside [] h = cc h
starts_outside (s ∷ []) h = inl h
starts_outside (s ∷ t ∷ ks) h =
    inr
      (subst (λ u. has_prefix (u ++ (b'/' ∷ join_path (t ∷ ks))) (text "../") ≡ true) (sym h) refl)

split-joined :
    (ks : List Text)
    → (join_path ks == []) ≡ false
    → all slash_free ks ≡ true
    → split b'/' (join_path ks) ≡ ks
unfolding join_path
split-joined [] n h = cc n
split-joined (s ∷ ks) n h = split-join_path s ks h

-- The segments of a clean path that does not start outside.
split-stays_below :
    (value : Text) (ks : List Text)
    → climbs ks ≡ true
    → all plain ks ≡ true
    → join_path (reverse ks) ≡ value
    → (join_path (reverse ks) == []) ≡ false
    → (value == text "..") ≡ false
    → has_prefix value (text "../") ≡ false
    → all stays_below (split b'/' value) ≡ true
split-stays_below value ks c p e n up prefix =
    let segments : split b'/' value ≡ reverse ks =
      ap (split b'/') (sym e)
      ∙ split-joined (reverse ks) n (all-reverse slash_free ks ∙ plain-slash_free ks p) in
    rw segments (
      all-reverse stays_below ks ∙ elim (Bool-cases (climbing ks)) [
        | inr f ↦ all-stays_below ks p f
        | inl t ↦ elim (starts_outside (reverse ks) (first-reverse ks c t)) [
          | inl is ↦ absurd (ground (arith, up, (list_beq_iff value (text "..")).1 (sym e ∙ is)))
          | inr has ↦
              let h : has_prefix value (text "../") ≡ true =
                subst (λ v. has_prefix v (text "../") ≡ true) e has in
              cc (h, prefix)
        ]
      ])

clean_path-relative :
    (value : Text)
    → has_prefix value (text "/") ≡ false
    → (ks : List Text) × (climbs ks ≡ true)
      × (all plain ks ≡ true)
      × (clean_path value
          ≡ (if join_path (reverse ks) == [] then text "." else join_path (reverse ks)))
unfolding clean_path
clean_path-relative value r =
    let (ks, e, c, p) =
      clean_segments-shape (split b'/' value) [] (split-slashes value) refl refl in
    (ks, c, p, rw r (rw e refl))

or_four-false :
    (a b c d : Bool)
    → (a || b || c || d) ≡ false
    → (a ≡ false) × (b ≡ false) × (c ≡ false) × (d ≡ false)
or_four-false a b c d h =
    (ground (arith, h), ground (arith, h), ground (arith, h), ground (arith, h))

-- What a path equal to its clean form is, when it is not the root itself.
clean-joined :
    (value cleaned joined : Text)
    → cleaned ≡ (if joined == [] then text "." else joined)
    → (cleaned == text ".") ≡ false
    → cleaned ≡ value
    → (joined ≡ value) × ((joined == []) ≡ false)
clean-joined value cleaned joined e dot same = elim (Bool-cases (joined == [])) [
  | inl t ↦ absurd (ground (arith, dot, (list_beq_iff cleaned (text ".")).1 (e ∙ rw t refl)))
  | inr f ↦ (sym (e ∙ rw f refl) ∙ same, f)
]

-- A relative path that `validateRelativePath` accepts stays below its root: each of its segments
-- between slashes is not empty, and is neither `.` nor `..`.
pub validate_relative_path-stays_below :
    (value : Text)
    → validate_relative_path value ≡ ok tt
    → all stays_below (split b'/' value) ≡ true
unfolding validate_relative_path
validate_relative_path-stays_below value h =
    let (_, h1) =
      >>-eq_ok
        (fail_if
          (is_blank value || value != trim_space value || ltb max_path_bytes (byte_len value))
          "relative path is required and bounded")
        _ h in
    let (relative, h2) =
      >>-eq_ok
        (fail_if (contains value 92 || has_prefix value (text "/") || contains value 0)
          "path must use relative slash-separated form")
        _ h1 in
    let (clean, _) =
      >>-eq_ok
        (fail_if
          (clean_path value == text "."
            || clean_path value != value
            || clean_path value == text ".."
            || has_prefix (clean_path value) (text "../"))
          "path must be clean and cannot traverse parents")
        _ h2 in
    let r = fail_if-eq_ok _ "path must use relative slash-separated form" relative in
    let q = fail_if-eq_ok _ "path must be clean and cannot traverse parents" clean in
    let (ks, c, p, e) = clean_path-relative value (ground (arith, r)) in
    let (dot, changed, up, prefix) = or_four-false _ _ _ _ q in
    let same : clean_path value ≡ value =
      (list_beq_iff (clean_path value) value).0 (not-false _ changed) in
    let (joined, n) = clean-joined value (clean_path value) (join_path (reverse ks)) e dot same in
    split-stays_below value ks c p joined n (ap (λ v. v == text "..") (sym same) ∙ up)
      (ap (λ v. has_prefix v (text "../")) (sym same) ∙ prefix)
