-- ===== src/Detection/Decimal/Reading.antt =====
-- A printed number can be read back, and is told apart from what follows it.
use belay_engine.Prelude.{
  ℕ, ◌/◌, ◌%◌, zero, suc, Text, Bool, true, false, ◌&&◌, [], ◌∷◌, ◌++◌, ltb, leb, ◌+◌, all, ◌≡◌,
  refl, sym, ap, ◌∙◌, inl, inr, arith, ◌<◌, ◌-◌, ◌*◌, Bool-cases, ltb_false→le,
}
use belay_engine.Detection.Decimal.{digits_onto, decimal}

abbrev is_digit : ℕ → Bool
is_digit c = leb b'0' c && leb c b'9'

-- The number that digits stand for, after those that were read.
abbrev read_onto : ℕ → Text → ℕ
read_onto acc [] = acc
read_onto acc (c ∷ cs) = read_onto (acc * 10 + (c - b'0')) cs

read-digits_onto :
    (fuel n : ℕ) (out : Text) → n < fuel → read_onto 0 (digits_onto fuel n out) ≡ read_onto n out
unfolding digits_onto
read-digits_onto zero n out h = absurd (omega arith)
read-digits_onto (suc fuel) n out h = elim (Bool-cases (ltb n 10)) [
  | inl small ↦ rw small (ap (λ v. read_onto v out) (omega arith))
  | inr large ↦ rw large (
      read-digits_onto fuel (n / 10) ((b'0' + n % 10) ∷ out)
        (omega (arith, ltb_false→le n 10 large))
      ∙ ap (λ v. read_onto v out) (omega arith))
]

read-decimal : (n : ℕ) → read_onto 0 (decimal n) ≡ n
unfolding decimal
read-decimal n = read-digits_onto (n + 1) n [] (omega arith)

digits_onto-digits :
    (fuel n : ℕ) (out : Text)
    → n < fuel
    → all is_digit out ≡ true
    → all is_digit (digits_onto fuel n out) ≡ true
unfolding digits_onto
digits_onto-digits zero n out h d = absurd (omega arith)
digits_onto-digits (suc fuel) n out h d = elim (Bool-cases (ltb n 10)) [
  | inl small ↦ rw small (ground (arith, d, small))
  | inr large ↦ rw large (
      digits_onto-digits fuel (n / 10) ((b'0' + n % 10) ∷ out)
        (omega (arith, ltb_false→le n 10 large)) (ground (arith, d)))
]

decimal-digits : (n : ℕ) → all is_digit (decimal n) ≡ true
unfolding decimal
decimal-digits n = digits_onto-digits (n + 1) n [] (omega arith) refl

-- A character that a text cannot hold ends the text.
pub split_mark :
    (p : ℕ → Bool) (mark : ℕ) (xs ys a b : Text)
    → p mark ≡ false
    → all p xs ≡ true
    → all p ys ≡ true
    → xs ++ mark ∷ a ≡ ys ++ mark ∷ b
    → (xs ≡ ys) × (a ≡ b)
split_mark p mark [] [] a b n d e h = (refl, cc h)
split_mark p mark [] (y ∷ ys) a b n d e h =
    let same : mark ≡ y = cc h in absurd (ground (arith, ap p same, n, e))
split_mark p mark (x ∷ xs) [] a b n d e h =
    let same : x ≡ mark = cc h in absurd (ground (arith, ap p same, n, d))
split_mark p mark (x ∷ xs) (y ∷ ys) a b n d e h =
    let (tails, rest) =
      split_mark p mark xs ys a b n (ground (arith, d)) (ground (arith, e)) (cc h) in
    let same : x ≡ y = cc h in (cc (tails, same), rest)

-- A number before a colon can be read back, with the rest.
pub decimal-colon :
    (n m : ℕ) (a b : Text) → decimal n ++ b':' ∷ a ≡ decimal m ++ b':' ∷ b → (n ≡ m) × (a ≡ b)
decimal-colon n m a b h =
    let (same, rest) =
      split_mark is_digit b':' (decimal n) (decimal m) a b refl (decimal-digits n)
        (decimal-digits m) h in
    (sym (read-decimal n) ∙ ap (read_onto 0) same ∙ read-decimal m, rest)
