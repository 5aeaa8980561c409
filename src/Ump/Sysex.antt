-- ===== src/Ump/Sysex.antt =====
-- What include/ump/create_ump_message.h puts into a message can be read back.
use Prim.Native.Nat.{bit_or}
use pmx.Base.{
  ℕ, ◌+◌, ◌*◌, ◌/◌, ◌%◌, ◌≤◌, ◌<◌, ◌==◌, ◌≡◌, refl, arith, List, [], ◌∷◌, length, take, Option,
  none, some, ok, err, if◌then◌else◌, All, all_below, all_below_sound, ==_iff, true, Bool, ◌⊎◌, inl,
  inr,
}
use pmx.Ump.{
  pack, MessageType, sysex_7bit_start, sysex_7bit_continue, sysex_7bit_end, invalid_argument,
  create_8_byte_message, status_nibble,
}
use pmx.Ump.Fields.{pack-eq-sum}

-- The layout of a 7-bit system exclusive message of 64 bits: type 3, the status, the number of bytes,
-- and six bytes.
abbrev pub status_of : ℕ → Option MessageType
status_of n =
    if n == 1
    then some sysex_7bit_start
    else if n == 2
    then some sysex_7bit_continue
    else if n == 3
    then some sysex_7bit_end
    else none

abbrev pub bytes_of : ℕ × ℕ → List ℕ
bytes_of (w, v) =
    take (w / 65536 % 16)
      (w / 256 % 256 ∷ w % 256 ∷ v / 16777216 ∷ v / 65536 % 256 ∷ v / 256 % 256 ∷ v % 256 ∷ [])

abbrev second_byte_table : MessageType → Bool
second_byte_table t = all_below 7 (λ n. bit_or (status_nibble t) n == status_nibble t + n)

second_byte : (t : MessageType) (n : ℕ) → n ≤ 6 → bit_or (status_nibble t) n ≡ status_nibble t + n
second_byte t n h = (==_iff _ _).0 (
    all_below_sound 7 (λ n. bit_or (status_nibble t) n == status_nibble t + n) n (table t)
      (omega arith))
  where
    table : (t : MessageType) → second_byte_table t ≡ true
    table sysex_7bit_start = refl
    table sysex_7bit_continue = refl
    table sysex_7bit_end = refl

-- What is read back from the message of n bytes, of which the last ones are 0.
abbrev message : MessageType → ℕ → ℕ → ℕ → ℕ → ℕ → ℕ → ℕ → ℕ × ℕ
message t n a b c d e f = (pack 0x30 (bit_or (status_nibble t) n) a b, pack c d e f)

abbrev pub ReadBack : MessageType → List ℕ → ℕ × ℕ → Type 0
ReadBack t bytes m =
    (m.0 / 268435456 ≡ 3) × (status_of (m.0 / 1048576 % 16) ≡ some t) × (bytes_of m ≡ bytes)

first_word :
    (t : MessageType) (n a b : ℕ)
    → n ≤ 6
    → a < 256
    → b < 256
    → pack 0x30 (bit_or (status_nibble t) n) a b
      ≡ ((0x30 * 256 + (status_nibble t + n)) * 256 + a) * 256 + b
first_word t n a b h ha hb =
    rw (second_byte t n h)
      (pack-eq-sum 0x30 (status_nibble t + n) a b (omega arith) (small t) ha hb)
  where
    small : (t : MessageType) → status_nibble t + n < 256
    small sysex_7bit_start = omega arith
    small sysex_7bit_continue = omega arith
    small sysex_7bit_end = omega arith

message-ReadBack :
    (t : MessageType) (n a b c d e f : ℕ)
    → n ≤ 6
    → a < 256
    → b < 256
    → c < 256
    → d < 256
    → e < 256
    → f < 256
    → ReadBack t (take n (a ∷ b ∷ c ∷ d ∷ e ∷ f ∷ [])) (message t n a b c d e f)
message-ReadBack t n a b c d e f h ha hb hc hd he hf =
    let w = first_word t n a b h ha hb in
    let v = pack-eq-sum c d e f hc hd he hf in
    let m = message t n a b c d e f in
    let w1 : m.0 / 65536 % 16 ≡ n = ground (arith, w) in
    let w2 : m.0 / 256 % 256 ≡ a = ground (arith, w) in
    let w3 : m.0 % 256 ≡ b = ground (arith, w) in
    let v1 : m.1 / 16777216 ≡ c = omega (arith, v) in
    let v2 : m.1 / 65536 % 256 ≡ d = omega (arith, v) in
    let v3 : m.1 / 256 % 256 ≡ e = omega (arith, v) in
    let v4 : m.1 % 256 ≡ f = omega (arith, v) in
    (ground (arith, w), ground (arith, w), rw (w1, w2, w3, v1, v2, v3, v4) refl)

-- From one to six bytes below 256 make a message, from which the type and the bytes can be read back.
pub bytes_of-create :
    (t : MessageType) (bytes : List ℕ)
    → 1 ≤ length bytes
    → length bytes ≤ 6
    → All (λ b. b < 256) bytes
    → (m : ℕ × ℕ) × (create_8_byte_message t bytes ≡ ok m) × ReadBack t bytes m
unfolding create_8_byte_message
bytes_of-create t [] h k small = absurd (omega arith)
bytes_of-create t (a ∷ []) h k (ha, _) = (
  message t 1 a 0 0 0 0 0,
  refl,
  message-ReadBack t 1 a 0 0 0 0 0 (omega arith) ha (omega arith) (omega arith) (omega arith)
      (omega arith) (omega arith),
)
bytes_of-create t (a ∷ b ∷ []) h k (ha, (hb, _)) = (
  message t 2 a b 0 0 0 0,
  refl,
  message-ReadBack t 2 a b 0 0 0 0 (omega arith) ha hb (omega arith) (omega arith) (omega arith)
      (omega arith),
)
bytes_of-create t (a ∷ b ∷ c ∷ []) h k (ha, (hb, (hc, _))) = (
  message t 3 a b c 0 0 0,
  refl,
  message-ReadBack t 3 a b c 0 0 0 (omega arith) ha hb hc (omega arith) (omega arith) (omega arith),
)
bytes_of-create t (a ∷ b ∷ c ∷ d ∷ []) h k (ha, (hb, (hc, (hd, _)))) = (
  message t 4 a b c d 0 0,
  refl,
  message-ReadBack t 4 a b c d 0 0 (omega arith) ha hb hc hd (omega arith) (omega arith),
)
bytes_of-create t (a ∷ b ∷ c ∷ d ∷ e ∷ []) h k (ha, (hb, (hc, (hd, (he, _))))) = (
  message t 5 a b c d e 0,
  refl,
  message-ReadBack t 5 a b c d e 0 (omega arith) ha hb hc hd he (omega arith),
)
bytes_of-create t (a ∷ b ∷ c ∷ d ∷ e ∷ f ∷ []) h k (ha, (hb, (hc, (hd, (he, (hf, _)))))) = (
  message t 6 a b c d e f,
  refl,
  message-ReadBack t 6 a b c d e f (omega arith) ha hb hc hd he hf,
)
bytes_of-create t (a ∷ b ∷ c ∷ d ∷ e ∷ f ∷ g ∷ bytes) h k small = absurd (omega arith)

-- No byte, or more than six, is refused.
pub create-refuses :
    (t : MessageType) (bytes : List ℕ)
    → (length bytes ≡ 0) ⊎ (6 < length bytes)
    → create_8_byte_message t bytes ≡ err invalid_argument
unfolding create_8_byte_message
create-refuses t bytes (inl h) = ground arith
create-refuses t bytes (inr h) = ground arith
