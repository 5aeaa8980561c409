-- ===== src/Ump/Fields.antt =====
-- `|` of fields that do not overlap is their sum: the words of `pack`.
use Prim.Native.Nat.{bit_or, max, digits, bit_or-bitwise}
use pmx.Base.{ℕ, zero, suc, ◌+◌, ◌*◌, ◌/◌, ◌%◌, ◌^◌, ◌≤◌, ◌<◌, ◌≡◌, refl, arith}
use pmx.Ump.{pack}

abbrev or_digits : ℕ → ℕ → ℕ → ℕ
or_digits fuel a b = digits (λ y. y) max fuel a b

or_digits-enough : (n m a b : ℕ) → a ≤ n → a ≤ m → or_digits n a b ≡ or_digits m a b
or_digits-enough zero zero a b h k = refl
or_digits-enough zero (suc m) zero b h k = refl
or_digits-enough (suc n) zero zero b h k = refl
or_digits-enough (suc n) (suc m) zero b h k = refl
or_digits-enough zero m (suc a) b h k = absurd (omega arith)
or_digits-enough (suc n) zero (suc a) b h k = absurd (omega arith)
or_digits-enough (suc n) (suc m) (suc a) b h k =
    omega (arith, or_digits-enough n m (suc a / 2) (b / 2) (omega arith) (omega arith))

-- The lowest digit of `|`.
bit_or-low : (a b : ℕ) → bit_or a b ≡ bit_or (a / 2) (b / 2) * 2 + max (a % 2) (b % 2)
bit_or-low zero b = omega (arith, bit_or-bitwise 0 b, bit_or-bitwise 0 (b / 2))
bit_or-low (suc a) b = omega (
  arith,
  bit_or-bitwise (suc a) b,
  bit_or-bitwise (suc a / 2) (b / 2),
  or_digits-enough a (suc a / 2) (suc a / 2) (b / 2) (omega arith) (omega arith),
)

-- A number below 2 ^ k can be put below a multiple of 2 ^ k.
bit_or-zero : (fuel a : ℕ) → a ≤ fuel → bit_or a 0 ≡ a
bit_or-zero fuel zero h = refl
bit_or-zero zero (suc a) h = absurd (omega arith)
bit_or-zero (suc fuel) (suc a) h =
    omega (arith, bit_or-low (suc a) 0, bit_or-zero fuel (suc a / 2) (omega arith))

bit_or-below : (k a r : ℕ) → r < 2 ^ k → bit_or (a * 2 ^ k) r ≡ a * 2 ^ k + r
bit_or-below zero a r h = ground (arith, bit_or-zero a a (omega arith))
bit_or-below (suc k) a r h =
    ground (arith, bit_or-low (a * 2 ^ suc k) r, double a (2 ^ k), bit_or-below k a (r / 2))
  where
    double : (a n : ℕ) → a * (2 * n) ≡ a * n * 2
    double zero n = omega arith
    double (suc a) n = omega (arith, double a n)

-- The word that four numbers below 256 are packed into has the value that its bytes have as digits to the base 256.
pub pack-eq-sum :
    (a b c d : ℕ)
    → a < 256
    → b < 256
    → c < 256
    → d < 256
    → pack a b c d ≡ ((a * 256 + b) * 256 + c) * 256 + d
unfolding pack
pack-eq-sum a b c d ha hb hc hd =
    let e : a * 2 ^ 24 % 2 ^ 32 ≡ a * 2 ^ 24 = omega arith in
    let f : b * 2 ^ 16 % 2 ^ 32 ≡ b * 2 ^ 16 = omega arith in
    let g : c * 2 ^ 8 % 2 ^ 32 ≡ c * 2 ^ 8 = omega arith in
    let two : a * 2 ^ 24 + b * 2 ^ 16 ≡ (a * 256 + b) * 2 ^ 16 = omega arith in
    let three : (a * 256 + b) * 2 ^ 16 + c * 2 ^ 8 ≡ ((a * 256 + b) * 256 + c) * 2 ^ 8 =
      omega arith in
    rw
      (
        e,
        f,
        g,
        bit_or-below 24 a (b * 2 ^ 16) (omega arith),
        two,
        bit_or-below 16 (a * 256 + b) (c * 2 ^ 8) (omega arith),
        three,
        bit_or-below 8 ((a * 256 + b) * 256 + c) d (omega arith),
      )
      refl
