-- ===== src/Detection/Decimal.antt =====
-- `strconv.Itoa` and the verb %d on a natural number.
pub mod Reading
use belay_engine.Prelude.{
  ℕ, ◌/◌, ◌%◌, zero, suc, Text, text, [], ◌∷◌, ltb, if◌then◌else◌, ◌+◌, ◌≡◌, refl,
}

-- The digits of a number before those given; `fuel` bounds the rounds: n + 1 are enough for n.
unfoldable pub digits_onto : ℕ → ℕ → Text → Text
digits_onto zero n out = out
digits_onto (suc fuel) n out =
    let more = digits_onto fuel (n / 10) ((b'0' + n % 10) ∷ out) in
    if ltb n 10 then (b'0' + n) ∷ out else more

unfoldable pub decimal : ℕ → Text
unfolding digits_onto
decimal n = digits_onto (n + 1) n []

decimal_example : decimal 1047 ≡ text "1047"
unfolding decimal
decimal_example = refl
