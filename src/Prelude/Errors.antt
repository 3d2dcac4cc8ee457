-- ===== src/Prelude/Errors.antt =====
-- Go's `error` results: a value, or the error's message as the pieces that `fmt.Errorf` joins.
use Prim.Native.String.{String}
use mathlib.Core.Path.{◌≡◌, refl}
use mathlib.Core.Bool.{Bool, true, false}
use mathlib.Core.List.{List, [], ◌∷◌}

pub data Result {ℓ} (T : Type ℓ) : Type ℓ where
  err : List String → Result T
  ok : T → Result T

-- A function that returns `error` alone.
abbrev pub Check : Type 0
Check = Result (Unit {0})

module _ {ℓ κ} {T : Type ℓ} {U : Type κ} where
  infixl 5 ◌>>=◌
  -- `value, err := m; if err != nil { return err }`, and the rest.
  abbrev pub ◌>>=◌ : Result T → (T → Result U) → Result U
  err message >>= rest = err message
  ok value >>= rest = rest value

  -- A chain that has succeeded has succeeded at both links.
  pub >>=-eq_ok :
      (m : Result T) (rest : T → Result U) {u : U}
      → (m >>= rest) ≡ ok u
      → (value : T) × (m ≡ ok value) × (rest value ≡ ok u)
  >>=-eq_ok (err message) rest h = cc
  >>=-eq_ok (ok value) rest h = (value, refl, h)

infixl 5 ◌>>◌
abbrev pub ◌>>◌ {ℓ} : {U : Type ℓ} → Check → Result U → Result U
err message >> rest = err message
ok _ >> rest = rest

-- `if bad { return errors.New(message) }`
abbrev pub fail_if : Bool → String → Check
fail_if true message = err (message ∷ [])
fail_if false message = ok tt

-- `if bad { return fmt.Errorf("%s …", name) }`
abbrev pub fail_named : Bool → String → String → Check
fail_named true name message = err (name ∷ message ∷ [])
fail_named false name message = ok tt

-- `if err != nil { return fmt.Errorf("context: %w", err) }`
abbrev pub wrap {ℓ} : {A : Type ℓ} → String → Result A → Result A
wrap prefix (ok a) = ok a
wrap prefix (err m) = err (prefix ∷ m)

-- `if err != nil { return errors.New(message) }`
abbrev pub replace {ℓ} : {A : Type ℓ} → String → Result A → Result A
replace message (ok a) = ok a
replace message (err m) = err (message ∷ [])

-- `if guard { if err := check; err != nil { return err } }`
abbrev pub when : Bool → Check → Check
when true check = check
when false check = ok tt

-- `for … { if err := f(x); err != nil { return err } }`
abbrev pub each {ℓ} : {A : Type ℓ} → (A → Check) → List A → Check
each f [] = ok tt
each f (x ∷ xs) = f x >> each f xs

-- `… == nil`
abbrev pub succeeds {ℓ} : {A : Type ℓ} → Result A → Bool
succeeds (ok _) = true
succeeds (err _) = false

pub >>-eq_ok {ℓ} :
    {U : Type ℓ} (m : Check) (rest : Result U) {u : U}
    → (m >> rest) ≡ ok u
    → (m ≡ ok tt) × (rest ≡ ok u)
>>-eq_ok (err message) rest h = cc
>>-eq_ok (ok tt) rest h = (refl, h)

pub fail_if-eq_ok : (b : Bool) (message : String) → fail_if b message ≡ ok tt → b ≡ false
fail_if-eq_ok true message h = cc
fail_if-eq_ok false message h = refl

pub ok-injective : {A : Type 0} (a b : A) → ok a ≡ ok b → a ≡ b
ok-injective a b h = cc

-- A guard that was passed, and the rest of the checks.
pub guard-eq_ok :
    (b : Bool) (message : String) (k : Check)
    → (fail_if b message >> k) ≡ ok tt
    → (b ≡ false) × (k ≡ ok tt)
guard-eq_ok true message k h = cc
guard-eq_ok false message k h = (refl, h)

pub wrap-eq_ok : (prefix : String) (m : Check) → wrap prefix m ≡ ok tt → m ≡ ok tt
wrap-eq_ok prefix (err message) h = cc
wrap-eq_ok prefix (ok tt) h = refl
