-- ===== src/Parameters.antt =====
-- include/parameters/parameters.h and src/parameters.cpp: the parameters of the channel strips, and
-- the tables that say which controller of a MIDI device moves which of them.
-- A `double` of the table is written as the integer number of millionths that its literal states.
-- The source's `none` is `none_parameter` here; `all` is `all_parameters`.
pub mod Find
pub mod Laws
use pmx.Base.{ℕ, ◌++◌, List, [], ◌∷◌, Text, codes, ℤ, pos, negsuc, Bool, ◌==◌}

pub record Parameter : Type 0 where
  pub id : ℕ
  pub name : Text
  pub device_name : Text
  pub min : ℤ
  pub max : ℤ
  pub full_name : Text
  pub device_short_name : Text

-- The constructor, which makes the full name.
abbrev pub make_parameter : ℕ → Text → Text → ℤ → ℤ → Text → Parameter
make_parameter id name device_name min max device_short_name = record {
  id = id;
  name = name;
  device_name = device_name;
  min = min;
  max = max;
  full_name = device_name ++ codes ":" ++ name;
  device_short_name = device_short_name;
}

-- `operator==`.
abbrev pub parameter_eq : Parameter → Parameter → Bool
parameter_eq p q = p.id == q.id

abbrev pub none_parameter : Parameter
none_parameter = make_parameter 0 (codes "none") (codes "none") (pos 0) (pos 0) (codes "NA")

abbrev pub saturator_level_in : Parameter
saturator_level_in =
    make_parameter 1 (codes "level_in") (codes "Saturator") (pos 15625) (pos 64000000) (codes "SAT")

abbrev pub saturator_drive : Parameter
saturator_drive =
    make_parameter 2 (codes "drive") (codes "Saturator") (pos 100000) (pos 10000000) (codes "SAT")

abbrev pub saturator_blend : Parameter
saturator_blend =
    make_parameter 3 (codes "blend") (codes "Saturator") (negsuc 9999999) (pos 1000000)
      (codes "SAT")

abbrev pub saturator_level_out : Parameter
saturator_level_out =
    make_parameter 4 (codes "level_out") (codes "Saturator") (pos 15625) (pos 64000000)
      (codes "SAT")

abbrev pub compressor_threshold : Parameter
compressor_threshold =
    make_parameter 5 (codes "threshold") (codes "Compressor") (pos 977) (pos 1000000) (codes "CMP")

abbrev pub compressor_ratio : Parameter
compressor_ratio =
    make_parameter 6 (codes "ratio") (codes "Compressor") (pos 1000000) (pos 20000000) (codes "CMP")

abbrev pub compressor_attack : Parameter
compressor_attack =
    make_parameter 7 (codes "attack") (codes "Compressor") (pos 10000) (pos 2000000000)
      (codes "CMP")

abbrev pub compressor_release : Parameter
compressor_release =
    make_parameter 8 (codes "release") (codes "Compressor") (pos 10000) (pos 2000000000)
      (codes "CMP")

abbrev pub compressor_makeup : Parameter
compressor_makeup =
    make_parameter 9 (codes "makeup") (codes "Compressor") (pos 1000000) (pos 64000000)
      (codes "CMP")

abbrev pub compressor_knee : Parameter
compressor_knee =
    make_parameter 10 (codes "knee") (codes "Compressor") (pos 1000000) (pos 8000000) (codes "CMP")

abbrev pub compressor_mix : Parameter
compressor_mix =
    make_parameter 11 (codes "mix") (codes "Compressor") (pos 0) (pos 1000000) (codes "CMP")

abbrev pub equalizer_low : Parameter
equalizer_low =
    make_parameter 12 (codes "low") (codes "Equalizer") (negsuc 23999999) (pos 24000000)
      (codes "EQU")

abbrev pub equalizer_mid : Parameter
equalizer_mid =
    make_parameter 13 (codes "mid") (codes "Equalizer") (negsuc 23999999) (pos 24000000)
      (codes "EQU")

abbrev pub equalizer_high : Parameter
equalizer_high =
    make_parameter 14 (codes "high") (codes "Equalizer") (negsuc 23999999) (pos 24000000)
      (codes "EQU")

abbrev pub equalizer_master : Parameter
equalizer_master =
    make_parameter 15 (codes "master") (codes "Equalizer") (negsuc 23999999) (pos 24000000)
      (codes "EQU")

abbrev pub equalizer_low_mid : Parameter
equalizer_low_mid =
    make_parameter 16 (codes "low_mid") (codes "Equalizer") (pos 0) (pos 1000000000) (codes "EQU")

abbrev pub equalizer_mid_high : Parameter
equalizer_mid_high =
    make_parameter 17 (codes "mid_high") (codes "Equalizer") (pos 1000000000) (pos 20000000000)
      (codes "EQU")

abbrev pub all_parameters : List Parameter
all_parameters =
    none_parameter ∷ saturator_level_in ∷ saturator_drive ∷ saturator_blend ∷ saturator_level_out
    ∷ compressor_threshold ∷ compressor_ratio ∷ compressor_attack ∷ compressor_release
    ∷ compressor_makeup ∷ compressor_knee ∷ compressor_mix ∷ equalizer_low ∷ equalizer_mid
    ∷ equalizer_high ∷ equalizer_master ∷ equalizer_low_mid ∷ equalizer_mid_high ∷ []
