-- ===== src/Interpolation/Fixed.antt =====
-- Numbers that meet `Double`: integers of millionths, with the quotient rounded down. The tests and
-- the witnesses of the modules above use them.
use pmx.Base.{
  ℕ, ◌+◌, ◌*◌, ◌/◌, ◌≤◌, ◌<◌, ◌≡◌, arith, ℤ, pos, negsuc, pos_part, neg_part, ◌+ℤ◌, ◌-ℤ◌, ◌*ℤ◌,
  ◌≤ℤ◌,
}
use pmx.Interpolation.{Double}

unfoldable pub div_ℤ : ℤ → ℤ → ℤ
div_ℤ (pos a) (pos b) = pos (a / b)
div_ℤ (negsuc a) (pos b) = negsuc (a / b)
div_ℤ a (negsuc b) = pos 0

pub add_mono : (a x y : ℤ) → x ≤ℤ y → a +ℤ x ≤ℤ a +ℤ y
unfolding ◌+ℤ◌
add_mono a x y h = ground arith

pub sub_nonneg : (a b : ℤ) → a ≤ℤ b → pos 0 ≤ℤ b -ℤ a
unfolding ◌-ℤ◌
sub_nonneg a b h = ground arith

scale : (d a b : ℕ) → a ≤ b → d * a ≤ d * b
scale d a b h = grind arith

quotient_mono : (k a b : ℕ) → a ≤ b → a / k ≤ b / k
quotient_mono k a b h = grind arith

pub mul_mono : (d x y : ℤ) → pos 0 ≤ℤ d → x ≤ℤ y → d *ℤ x ≤ℤ d *ℤ y
unfolding ◌*ℤ◌
mul_mono (pos d) x y h k =
    ground (arith, scale d (pos_part x + neg_part y) (pos_part y + neg_part x) k)
mul_mono (negsuc d) x y h k = absurd (omega arith)

pub div_mono : (x y : ℤ) (k : ℕ) → 0 < k → x ≤ℤ y → div_ℤ x (pos k) ≤ℤ div_ℤ y (pos k)
unfolding div_ℤ
div_mono (pos a) (pos b) k h e = omega (arith, quotient_mono k a b (omega arith))
div_mono (pos a) (negsuc b) k h e = absurd (omega arith)
div_mono (negsuc a) (pos b) k h e = omega arith
div_mono (negsuc a) (negsuc b) k h e = omega (arith, quotient_mono k b a (omega arith))

pub add-zero : (a : ℤ) → a +ℤ pos 0 ≡ a
unfolding ◌+ℤ◌
add-zero a = ground arith

pub mul-zero : (d : ℤ) → pos 0 ≤ℤ d → d *ℤ pos 0 ≡ pos 0
unfolding ◌*ℤ◌
mul-zero d h = ground arith

pub zero-div : (k : ℕ) → 0 < k → div_ℤ (pos 0) (pos k) ≡ pos 0
unfolding div_ℤ
zero-div k h = ground arith

abbrev pub fixed : Double
fixed = record {
  Real = ℤ;
  literal = λ z. z;
  of_unsigned = pos;
  add = ◌+ℤ◌;
  sub = ◌-ℤ◌;
  mul = ◌*ℤ◌;
  div = div_ℤ;
  to_float = λ z. z;
  le = ◌≤ℤ◌;
  literal_mono = λ a b h. h;
  of_unsigned_mono = λ m n h. omega arith;
  add_mono = add_mono;
  sub_nonneg = sub_nonneg;
  mul_mono = mul_mono;
  div_mono = div_mono;
  add-zero = add-zero;
  mul-zero = mul-zero;
  zero-div = zero-div;
}
