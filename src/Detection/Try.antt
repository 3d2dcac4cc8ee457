-- ===== src/Detection/Try.antt =====
-- The errors of internal/detection, and its context. A context may be done at any of the moments at
-- which a loop asks for it, so it is a function of the loop and of the index.
use belay_engine.Prelude.{
  ℕ, ◌%◌, Bool, true, false, Option, some, none, if◌then◌else◌, nat_beq, ◌≡◌, refl,
}

pub data ContextError : Type 0 where
  canceled deadline_exceeded : ContextError

pub data DetectionError : Type 0 where
  invalid_session session_limit foreign : DetectionError
  context : ContextError → DetectionError

pub data Try {ℓ} (A : Type ℓ) : Type ℓ where
  ok : A → Try A
  err : DetectionError → Try A

module _ {ℓ κ} {A : Type ℓ} {B : Type κ} where
  infixl 5 ◌>>=◌
  abbrev pub ◌>>=◌ : Try A → (A → Try B) → Try B
  ok value >>= rest = rest value
  err e >>= rest = err e

  pub >>=-eq_ok :
      (m : Try A) (rest : A → Try B) {b : B}
      → (m >>= rest) ≡ ok b
      → (a : A) × (m ≡ ok a) × (rest a ≡ ok b)
  >>=-eq_ok (ok value) rest h = (value, refl, h)
  >>=-eq_ok (err e) rest h = cc

infixl 5 ◌>>◌
abbrev pub ◌>>◌ {ℓ} : {B : Type ℓ} → Try (Unit {0}) → Try B → Try B
m >> rest = m >>= λ _. rest

-- `if bad { return …, e }`
abbrev pub fail_if : Bool → DetectionError → Try (Unit {0})
fail_if true e = err e
fail_if false e = ok tt

-- The loops that ask whether the context is done.
pub data Poll : Type 0 where
  preparing coalescing counting attempting scanning reporting : Poll

abbrev pub Context : Type 0
Context = Poll → ℕ → Option ContextError

-- `contextCheck`: only every 64th index asks.
unfoldable pub context_check : Context → Poll → ℕ → Try (Unit {0})
context_check ctx loop index =
    if nat_beq (index % 64) 0
    then elim (ctx loop index) [ none ↦ ok tt | some e ↦ err (DetectionError.context e) ]
    else ok tt

pub ok-injective : {A : Type 0} (a b : A) → ok a ≡ ok b → a ≡ b
ok-injective a b h = cc

-- A context that is never done lets every loop pass.
abbrev pub background : Context
background loop index = none
