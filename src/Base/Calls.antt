-- ===== src/Base/Calls.antt =====
-- What a C++ call comes to: it returns, it throws, or its behaviour is undefined.
use mathlib.Core.Path.{◌≡◌, refl}
use mathlib.Core.Logic.{◌⊎◌, inl, inr}

pub data Fault : Type 0 where
  -- `std::out_of_range`, `std::invalid_argument`, `std::bad_variant_access`,
  -- `std::bad_optional_access`: `value()` of an empty result
  out_of_range invalid_argument bad_variant_access bad_optional_access : Fault
  -- `std::runtime_error`
  runtime_error : Fault
  -- an access outside an array, or through `end()` or a null pointer
  undefined : Fault

pub data Run {ℓ} (A : Type ℓ) : Type ℓ where
  returns : A → Run A
  faults : Fault → Run A

pub Run-cases {ℓ} :
    {A : Type ℓ} (m : Run A) → ((a : A) × (m ≡ returns a)) ⊎ ((e : Fault) × (m ≡ faults e))
Run-cases (returns a) = inl (a, refl)
Run-cases (faults e) = inr (e, refl)

infixl 5 ◌>>=◌ ◌>>◌
abbrev pub ◌>>=◌ {ℓ κ} : {A : Type ℓ} {B : Type κ} → Run A → (A → Run B) → Run B
returns a >>= f = f a
faults e >>= f = faults e

abbrev pub ◌>>◌ {ℓ κ} : {A : Type ℓ} {B : Type κ} → Run A → Run B → Run B
m >> k = m >>= λ _. k

-- `std::expected`.
pub data Result {ℓ κ} (E : Type ℓ) (A : Type κ) : Type (ℓ ⊔ κ) where
  ok : A → Result E A
  err : E → Result E A
