-- ===== src/Interpolation.antt =====
-- src/interpolation.cpp. The floating point numbers are an argument: `Double` is what IEEE 754
-- promises of the operations that the code uses, each rounded monotonically.
pub mod Laws
pub mod Fixed
use pmx.Base.{ℕ, ◌-◌, ◌^◌, ◌≤◌, ◌<◌, ◌≡◌, ℤ, pos, ◌≤ℤ◌}
use pmx.Parameters.{Parameter}

pub record Double : Type 1 where
  pub Real : Type 0
  -- A literal, in millionths, and the conversion of an unsigned number.
  pub literal : ℤ → Real
  pub of_unsigned : ℕ → Real
  pub add : Real → Real → Real
  pub sub : Real → Real → Real
  pub mul : Real → Real → Real
  pub div : Real → Real → Real
  -- `static_cast<float>`.
  pub to_float : Real → Real
  pub le : Real → Real → Type 0
  pub literal_mono : (a b : ℤ) → a ≤ℤ b → le (literal a) (literal b)
  pub of_unsigned_mono : (m n : ℕ) → m ≤ n → le (of_unsigned m) (of_unsigned n)
  pub add_mono : (a x y : Real) → le x y → le (add a x) (add a y)
  pub sub_nonneg : (a b : Real) → le a b → le (of_unsigned 0) (sub b a)
  pub mul_mono : (d x y : Real) → le (of_unsigned 0) d → le x y → le (mul d x) (mul d y)
  pub div_mono :
      (x y : Real) (k : ℕ) → 0 < k → le x y → le (div x (of_unsigned k)) (div y (of_unsigned k))
  pub add-zero : (a : Real) → add a (of_unsigned 0) ≡ a
  pub mul-zero : (d : Real) → le (of_unsigned 0) d → mul d (of_unsigned 0) ≡ of_unsigned 0
  pub zero-div : (k : ℕ) → 0 < k → div (of_unsigned 0) (of_unsigned k) ≡ of_unsigned 0

abbrev pub max_u32 : ℕ
max_u32 = 2 ^ 32 - 1

module _ (D : Double) where
  open D use {Real, literal, of_unsigned, add, sub, mul, div}

  unfoldable pub interpolate : Parameter → ℕ → Real
  interpolate parameter control_value =
      let min = literal parameter.min in
      let max = literal parameter.max in
      add min (div (mul (sub max min) (of_unsigned control_value)) (of_unsigned max_u32))
