-- ===== src/Prelude/Strings.antt =====
-- Go strings as lists of code points, with the functions of `strings`, `unicode/utf8`, `path` and
-- `encoding/hex` that the program calls. A byte b that is part of no UTF-8 sequence is the element
-- 0x110000 + b.
use Prim.Native.Nat.{ℕ, zero, suc, ◌+◌}
use Prim.Native.Char.{code}
use Prim.Native.String.{String}
use mathlib.Core.Path.{◌≡◌, refl}
use mathlib.Core.Logic.{◌≢◌}
use mathlib.Core.Bool.{Bool, true, false, ◌&&◌, ◌||◌}
use mathlib.Core.List.{List, [], ◌∷◌}
use native.Mathlib.Omega.{arith}
use belay_engine.Prelude.Tests.{ltb, leb, nat_beq, if◌then◌else◌}
use belay_engine.Prelude.Equality.{◌!=◌, list_beq_iff, ◌==◌, nat_eq, list_eq}
use belay_engine.Prelude.Lists.{any, all, contains, is_empty}
use belay_engine.Prelude.Sort.{IsOrder}

abbrev pub Text : Type 0
Text = List ℕ

-- A literal of the source.
abbrev pub text : String → Text
text String.[] = []
text (String.◌∷◌ c s) = code c ∷ text s

-- The bytes that UTF-8 spends on a code point.
abbrev pub byte_width : ℕ → ℕ
byte_width c =
    if ltb c 0x80
    then 1
    else if ltb c 0x800
    then 2
    else if ltb c 0x10000
    then 3
    else if ltb c 0x110000
    then 4
    else 1

-- `len` of a string.
unfoldable pub byte_len : Text → ℕ
byte_len [] = 0
byte_len (c ∷ cs) = byte_width c + byte_len cs

-- `utf8.ValidString`
unfoldable pub valid_string : Text → Bool
valid_string s = all (λ c. ltb c 0x110000) s

-- `unicode.IsSpace`
unfoldable pub is_space : ℕ → Bool
is_space c =
    (leb 9 c && leb c 13)
    || (leb 0x2000 c && leb c 0x200a)
    || contains (0x20 ∷ 0x85 ∷ 0xa0 ∷ 0x1680 ∷ 0x2028 ∷ 0x2029 ∷ 0x202f ∷ 0x205f ∷ 0x3000 ∷ []) c

unfoldable pub trim_left : Text → Text
unfolding is_space
trim_left [] = []
trim_left (c ∷ cs) = let rest = trim_left cs in if is_space c then rest else c ∷ cs

unfoldable pub trim_right : Text → Text
unfolding is_space
trim_right [] = []
trim_right (c ∷ cs) =
    let rest = trim_right cs in if is_empty rest && is_space c then [] else c ∷ rest

-- `strings.TrimSpace`
unfoldable pub trim_space : Text → Text
unfolding trim_left trim_right
trim_space s = trim_right (trim_left s)

-- `strings.TrimSpace(s) == ""`
abbrev pub is_blank : Text → Bool
is_blank s = trim_space s == []

-- `unicode.ToLower` on the letters of ASCII and on the two others, U+0130 and U+212A, whose lower
-- case is in ASCII. Other letters keep their case, so that a text with capitals beyond ASCII counts
-- as one in lower case, which it does not in Go.
abbrev lower : ℕ → ℕ
lower c =
    if leb b'A' c && leb c b'Z'
    then c + 32
    else if nat_beq c 0x130
    then b'i'
    else if nat_beq c 0x212a
    then b'k'
    else c

-- `strings.ToLower`
unfoldable pub to_lower : Text → Text
to_lower [] = []
to_lower (c ∷ cs) = lower c ∷ to_lower cs

-- `strings.HasPrefix`
unfoldable pub has_prefix : Text → Text → Bool
has_prefix s [] = true
has_prefix [] (p ∷ ps) = false
has_prefix (c ∷ cs) (p ∷ ps) = nat_beq c p && has_prefix cs ps

-- The text behind a prefix of the given length: `s[len(prefix):]`.
abbrev pub drop : ℕ → Text → Text
drop zero s = s
drop (suc n) [] = []
drop (suc n) (c ∷ cs) = drop n cs

-- `strings.ContainsAny`
unfoldable pub contains_any : Text → Text → Bool
contains_any s chars = any (λ c. contains chars c) s

abbrev pub on_first : ℕ → List Text → List Text
on_first c [] = (c ∷ []) ∷ []
on_first c (segment ∷ rest) = (c ∷ segment) ∷ rest

-- `strings.Split(s, string(separator))`
unfoldable pub split : ℕ → Text → List Text
split separator [] = [] ∷ []
split separator (c ∷ cs) =
    let rest = split separator cs in if nat_beq c separator then [] ∷ rest else on_first c rest

-- Go's `<` on strings, which for valid UTF-8 is the order of the code points.
unfoldable pub text_ltb : Text → Text → Bool
text_ltb [] [] = false
text_ltb [] (d ∷ ds) = true
text_ltb (c ∷ cs) [] = false
text_ltb (c ∷ cs) (d ∷ ds) = ltb c d || (nat_beq c d && text_ltb cs ds)

text_ltb_irrefl : (s : Text) → text_ltb s s ≡ false
unfolding text_ltb
text_ltb_irrefl [] = refl
text_ltb_irrefl (c ∷ cs) = ground (arith, text_ltb_irrefl cs)

text_ltb_asym : (s t : Text) → text_ltb s t ≡ true → text_ltb t s ≡ false
unfolding text_ltb
text_ltb_asym [] [] h = refl
text_ltb_asym [] (d ∷ ds) h = refl
text_ltb_asym (c ∷ cs) [] h = cc
text_ltb_asym (c ∷ cs) (d ∷ ds) h = ground (arith, text_ltb_asym cs ds)

text_ltb_trans_not :
    (s t u : Text) → text_ltb t s ≡ false → text_ltb u t ≡ false → text_ltb u s ≡ false
unfolding text_ltb
text_ltb_trans_not [] [] [] h k = refl
text_ltb_trans_not [] [] (e ∷ es) h k = refl
text_ltb_trans_not [] (d ∷ ds) [] h k = cc
text_ltb_trans_not [] (d ∷ ds) (e ∷ es) h k = refl
text_ltb_trans_not (c ∷ cs) [] [] h k = cc
text_ltb_trans_not (c ∷ cs) [] (e ∷ es) h k = cc
text_ltb_trans_not (c ∷ cs) (d ∷ ds) [] h k = cc
text_ltb_trans_not (c ∷ cs) (d ∷ ds) (e ∷ es) h k = ground (arith, text_ltb_trans_not cs ds es)

-- The order that `sort.Strings` sorts by.
pub text_ltb-IsOrder : IsOrder text_ltb
text_ltb-IsOrder = record {
  irrefl = text_ltb_irrefl;
  asym = text_ltb_asym;
  trans_not = text_ltb_trans_not;
}

pub text_ltb_total : (s t : Text) → text_ltb s t ≡ false → text_ltb t s ≡ false → s ≡ t
unfolding text_ltb
text_ltb_total [] [] h k = refl
text_ltb_total [] (d ∷ ds) h k = cc
text_ltb_total (c ∷ cs) [] h k = cc
text_ltb_total (c ∷ cs) (d ∷ ds) h k = ground (arith, text_ltb_total cs ds)

trim_example : trim_space (text "  a b\n") ≡ text "a b"
unfolding trim_space
trim_example = refl

split_example : split b'/' (text "a//b") ≡ text "a" ∷ [] ∷ text "b" ∷ []
unfolding split
split_example = refl

pub text_eq→eq : (s t : Text) → (s == t) ≡ true → s ≡ t
text_eq→eq s t h = (list_beq_iff s t).0 h

pub text_ne→ne : (s t : Text) → (s == t) ≡ false → s ≢ t
text_ne→ne s t h p = ground (arith, (list_beq_iff s t).1 p)

pub text_ne-nil : (t : Text) → (t != []) ≡ false → t ≡ []
text_ne-nil [] h = refl
text_ne-nil (c ∷ cs) h = cc h
