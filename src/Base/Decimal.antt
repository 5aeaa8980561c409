-- ===== src/Base/Decimal.antt =====
-- `std::to_string` and `{}` of `std::format` at an unsigned number, and `std::stoi`.
use Prim.Native.Nat.{ℕ, zero, suc, ◌+◌, ◌-◌, ◌*◌, ◌/◌, ◌%◌, ◌^◌, ◌≤◌, ◌<◌}
use mathlib.Core.Path.{◌≡◌, refl, ap, ◌∙◌}
use mathlib.Core.Logic.{inl, inr}
use mathlib.Core.Bool.{Bool, true, false, ◌&&◌, ◌||◌}
use mathlib.Core.List.{[], ◌∷◌}
use native.Mathlib.Omega.{arith}
use pmx.Base.Tests.{ltb, leb, ◌==◌, if◌then◌else◌, Bool-cases}
use pmx.Base.Bytes.{Text, codes, is_digit}
use pmx.Base.Int.{ℤ, pos, negsuc}
use pmx.Base.Calls.{Run, returns, faults, out_of_range, invalid_argument}

-- The digits of `n` before `out`; a number below the fuel has no more digits than that.
digits : ℕ → ℕ → Text → Text
digits zero n out = out
digits (suc f) n out =
    let more = digits f (n / 10) ((b'0' + n % 10) ∷ out) in
    if ltb n 10 then (b'0' + n) ∷ out else more

unfoldable pub to_string : ℕ → Text
unfolding digits
to_string n = digits (suc n) n []

-- The value of the leading digits, after a number already read.
scan : Text → ℕ → ℕ
scan [] n = n
scan (c ∷ s) n = let more = scan s (n * 10 + (c - b'0')) in if is_digit c then more else n

abbrev starts_digit : Text → Bool
starts_digit [] = false
starts_digit (c ∷ s) = is_digit c

unsigned_int : Text → Run ℤ
unfolding scan
unsigned_int s =
    if starts_digit s
    then if ltb (scan s 0) (2 ^ 31) then returns (pos (scan s 0)) else faults out_of_range
    else faults invalid_argument

-- -(2 ^ 31) is in the range of an `int`.
negative_int : Text → Run ℤ
unfolding scan
negative_int s =
    if starts_digit s
    then if scan s 0 == 0
      then returns (pos 0)
      else if leb (scan s 0) (2 ^ 31)
      then returns (negsuc (scan s 0 - 1))
      else faults out_of_range
    else faults invalid_argument

signed_int : Text → Run ℤ
unfolding unsigned_int negative_int
signed_int [] = faults invalid_argument
signed_int (c ∷ s) =
    if c == b'-' then negative_int s else if c == b'+' then unsigned_int s else unsigned_int (c ∷ s)

abbrev is_space : ℕ → Bool
is_space c = c == 32 || leb 9 c && leb c 13

skip_space : Text → Text
skip_space [] = []
skip_space (c ∷ s) = let rest = skip_space s in if is_space c then rest else c ∷ s

-- Leading white space and a sign are read, and what follows the digits is left alone.
unfoldable pub stoi : Text → Run ℤ
unfolding skip_space signed_int
stoi s = signed_int (skip_space s)

to_string_test : to_string 1032 ≡ codes "1032"
unfolding to_string
to_string_test = refl

stoi_test : stoi (codes " -42x") ≡ returns (negsuc 41)
unfolding stoi
stoi_test = refl

pub to_string_one : (n : ℕ) → n < 10 → to_string n ≡ (b'0' + n) ∷ []
unfolding to_string
to_string_one n h = ground arith

pub to_string_two :
    (n : ℕ) → 10 ≤ n → n < 100 → to_string n ≡ (b'0' + n / 10) ∷ (b'0' + n % 10) ∷ []
unfolding to_string
to_string_two (suc n) lo hi = ground arith
to_string_two zero lo hi = absurd (omega arith)

scan-digits : (f n : ℕ) (out : Text) → n < f → scan (digits f n out) 0 ≡ scan out n
unfolding scan digits
scan-digits zero n out h = absurd (omega arith)
scan-digits (suc f) n out h = elim (Bool-cases (ltb n 10)) [
  | inl small ↦ rw small (ground arith)
  | inr large ↦
      rw large (scan-digits f (n / 10) ((b'0' + n % 10) ∷ out) (ground arith) ∙ ground arith)
]

starts_digit-digits : (f n : ℕ) (out : Text) → n < f → starts_digit (digits f n out) ≡ true
unfolding digits
starts_digit-digits zero n out h = absurd (omega arith)
starts_digit-digits (suc f) n out h =
    ground (arith, starts_digit-digits f (n / 10) ((b'0' + n % 10) ∷ out))

stoi-of_digit :
    (s : Text) → starts_digit s ≡ true → scan s 0 < 2 ^ 31 → stoi s ≡ returns (pos (scan s 0))
unfolding stoi
stoi-of_digit [] h k = cc
stoi-of_digit (c ∷ s) h k = ground arith

-- Reading back what was printed.
pub stoi-to_string : (n : ℕ) → n < 2 ^ 31 → stoi (to_string n) ≡ returns (pos n)
unfolding to_string scan
stoi-to_string n h =
    let e : scan (to_string n) 0 ≡ n = scan-digits (suc n) n [] (omega arith) in
    stoi-of_digit (to_string n) (starts_digit-digits (suc n) n [] (omega arith)) (omega arith)
    ∙ ap (λ k. returns (pos k)) e

pub stoi_one : (a : ℕ) → is_digit a ≡ true → stoi (a ∷ []) ≡ returns (pos (a - b'0'))
unfolding stoi scan
stoi_one a h = ground arith

pub stoi_two :
    (a b : ℕ)
    → is_digit a ≡ true
    → is_digit b ≡ true
    → stoi (a ∷ b ∷ []) ≡ returns (pos ((a - b'0') * 10 + (b - b'0')))
unfolding stoi scan
stoi_two a b h k = ground arith
