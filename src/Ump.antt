-- ===== src/Ump.antt =====
-- include/ump/create_ump_message.h, and the words that the filters put together with `|` and `<<`.
pub mod Fields
pub mod Sysex
use Prim.Native.Nat.{bit_or}
use pmx.Base.{
  ℕ, ◌+◌, ◌*◌, ◌%◌, ◌^◌, List, [], ◌∷◌, ltb, leb, ◌==◌, ◌||◌, if◌then◌else◌, length, get_elem?,
  Option, none, some, Result, ok, err,
}

-- `a << 24 | b << 16 | c << 8 | d`, as 32 bits.
unfoldable pub pack : ℕ → ℕ → ℕ → ℕ → ℕ
pack a b c d =
    bit_or (bit_or (bit_or (a * 2 ^ 24 % 2 ^ 32) (b * 2 ^ 16 % 2 ^ 32)) (c * 2 ^ 8 % 2 ^ 32)) d

pub data MessageType : Type 0 where
  sysex_7bit_start sysex_7bit_continue sysex_7bit_end : MessageType

-- `error::error::invalid_argument("data bytes must be between 1 and 6")`.
pub data UmpError : Type 0 where
  invalid_argument : UmpError

abbrev pub status_nibble : MessageType → ℕ
status_nibble sysex_7bit_start = 0x10
status_nibble sysex_7bit_continue = 0x20
status_nibble sysex_7bit_end = 0x30

-- `result[i]`, which is 0 behind the data.
abbrev pub byte_or_zero : List ℕ → ℕ → ℕ
byte_or_zero bytes i = elim (get_elem? bytes i) [ none ↦ 0 | some b ↦ b ]

unfoldable pub create_8_byte_message : MessageType → List ℕ → Result UmpError (ℕ × ℕ)
create_8_byte_message t data_bytes =
    if (length data_bytes == 0) || ltb 6 (length data_bytes)
    then err invalid_argument
    else (let second_byte = bit_or (status_nibble t) (length data_bytes) in
        ok (
          pack 0x30 second_byte (byte_or_zero data_bytes 0) (byte_or_zero data_bytes 1),
          pack (byte_or_zero data_bytes 2) (byte_or_zero data_bytes 3) (byte_or_zero data_bytes 4)
              (byte_or_zero data_bytes 5),
        ))
