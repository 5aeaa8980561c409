-- ===== src/Osc/Results.antt =====
-- What src/parse_osc_path.cpp returns and when it throws.
use pmx.Base.{
  ℕ, ◌+◌, ◌-◌, ◌*◌, ◌≤◌, ◌<◌, ◌≡◌, refl, arith, true, false, some, none, ◌∷◌, Text, is_digit,
  length, returns, faults, out_of_range, ok, err, stoi_one, stoi_two, All-find, take, drop, ◌⊎◌,
  ◌≢◌, Bool-cases, inl, inr, if◌then◌else◌,
}
use pmx.Parameters.{Parameter, all_parameters}
use pmx.Parameters.Laws.{IsKnown, named}
use pmx.Osc.{
  OscPath, find_parameter, parse_osc_path, parse_channel, parse_parameter, parse_layer,
  channel_type_of, byte_at, invalid_channel,
}

-- The conditions under which the code reads on behind the channel.
abbrev pub HasHead : Text → Type 0
HasHead path =
    (7 ≤ length path)
    × (channel_type_of (byte_at path 1) ≢ none)
    × ((byte_at path 3 ≡ b'A') ⊎ (byte_at path 3 ≡ b'B'))
    × (is_digit (byte_at path 5) ≡ true)

-- The place behind the channel and its slash.
abbrev pub consumed_at : Text → ℕ
consumed_at path = if is_digit (byte_at path 6) then 8 else 7

parse_channel_digits :
    (path : Text)
    → 7 ≤ length path
    → is_digit (byte_at path 5) ≡ true
    → (n : ℕ) × (parse_channel path ≡ returns (ok (n, consumed_at path))) × (n < 100)
unfolding parse_channel
parse_channel_digits (x0 ∷ x1 ∷ x2 ∷ x3 ∷ x4 ∷ x5 ∷ x6 ∷ rest) h d =
    elim (Bool-cases (is_digit x6)) [
      | inl two ↦ ((x5 - b'0') * 10 + (x6 - b'0'), ground (arith, stoi_two x5 x6), ground arith)
      | inr one ↦ (x5 - b'0', ground (arith, stoi_one x5), ground arith)
    ]
parse_channel_digits path h d = absurd (omega arith)

parse_channel_none :
    (path : Text)
    → is_digit (byte_at path 5) ≡ false
    → parse_channel path ≡ returns (err invalid_channel)
unfolding parse_channel
parse_channel_none path h = ground arith

-- A path with a valid head that ends before the parameter's name would begin makes the parser throw
-- `std::out_of_range`; no error is returned.
pub parse_cut_path :
    (path : Text)
    → HasHead path
    → length path < consumed_at path + 4
    → parse_osc_path path ≡ faults out_of_range
unfolding parse_osc_path parse_layer parse_parameter
parse_cut_path path h short = ground (arith, parse_channel_digits path h.0 h.3)

find_parameter-IsKnown : (s t : Text) {p : Parameter} → find_parameter s t ≡ some p → IsKnown p
unfolding find_parameter
find_parameter-IsKnown s t e =
    All-find IsKnown (named s t) all_parameters
      (
        refl,
        (
          refl,
          (
            refl,
            (
              refl,
              (
                refl,
                (
                  refl,
                  (
                    refl,
                    (
                      refl,
                      (
                        refl,
                        (refl, (refl, (refl, (refl, (refl, (refl, (refl, (refl, (refl, tt))))))))),
                      ),
                    ),
                  ),
                ),
              ),
            ),
          ),
        ),
      )
      e

-- Only a path with a valid head is parsed. The channel is then below 100, the parameter is one of
-- the table, and the path reaches to the place where the parameter's name begins.
pub parse_sound :
    (path : Text) (q : OscPath)
    → parse_osc_path path ≡ returns (ok q)
    → HasHead path
      × (q.channel_id < 100)
      × IsKnown q.parameter
      × (consumed_at path + 4 ≤ length path)
unfolding parse_osc_path parse_layer parse_parameter
parse_sound path q h = ground (
  arith,
  parse_channel_digits path,
  parse_channel_none path,
  find_parameter-IsKnown (take 3 (drop (consumed_at path) path)) (drop (consumed_at path + 4) path)
      {p = q.parameter},
)
