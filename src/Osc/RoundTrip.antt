-- ===== src/Osc/RoundTrip.antt =====
-- src/parse_osc_path.cpp reads the paths that src/processing.cpp builds.
use pmx.Base.{
  ℕ, ◌+◌, ◌/◌, ◌%◌, ◌≤◌, ◌<◌, ◌≡◌, refl, ◌≢◌, inl, inr, arith, some, ◌∷◌, ◌++◌, Text, codes,
  to_string, returns, ok, err, none, to_string_one, to_string_two, stoi-to_string, ltb, Bool-cases,
  ltb→lt,
}
use pmx.Parameters.{none_parameter, Parameter}
use pmx.Parameters.Laws.{IsKnown, find-named}
use pmx.Osc.ShortNames.{IsKnown-IsShort}
use pmx.Osc.{
  unknown_parameter, no_channel, ChannelType, Layer, input, group, layer, a_layer, b_layer,
  find_parameter, parse_osc_path, parse_channel, parse_parameter, parse_layer,
  build_input_channel_osc_path, build_group_channel_osc_path,
}

abbrev pub layer_text : Layer → Text
layer_text a_layer = codes "A"
layer_text b_layer = codes "B"

abbrev pub type_byte : ChannelType → ℕ
type_byte input = b'I'
type_byte group = b'G'
type_byte layer = b'L'
type_byte _ = b'?'

-- A path as the builders write it.
abbrev pub path_text : ℕ → Layer → ℕ → Parameter → Text
path_text t l n p =
    b'/'
    ∷ t
    ∷ b'/'
    ∷ (layer_text l ++ b'/' ∷ (to_string n ++ b'/' ∷ (p.device_short_name ++ b'/' ∷ p.name)))

find_parameter-IsKnown :
    (p : Parameter) → IsKnown p → find_parameter p.device_short_name p.name ≡ some p
unfolding find_parameter
find_parameter-IsKnown = find-named

parse_channel_one :
    (x0 x1 x2 x3 x4 n : ℕ) (rest : Text)
    → n < 10
    → parse_channel (x0 ∷ x1 ∷ x2 ∷ x3 ∷ x4 ∷ (b'0' + n) ∷ b'/' ∷ rest) ≡ returns (ok (n, 7))
unfolding parse_channel
parse_channel_one x0 x1 x2 x3 x4 n rest h =
    ground (arith, to_string_one n h, stoi-to_string n (omega arith))

parse_channel_two :
    (x0 x1 x2 x3 x4 n : ℕ) (rest : Text)
    → 10 ≤ n
    → n < 100
    → parse_channel (x0 ∷ x1 ∷ x2 ∷ x3 ∷ x4 ∷ (b'0' + n / 10) ∷ (b'0' + n % 10) ∷ rest)
      ≡ returns (ok (n, 8))
unfolding parse_channel
parse_channel_two x0 x1 x2 x3 x4 n rest h k =
    ground (arith, to_string_two n h k, stoi-to_string n (omega arith))

module _ (p : Parameter) (known : IsKnown p) (mapped : 0 < p.id) where
  parse_parameter_one :
      (x0 x1 x2 x3 x4 x5 x6 : ℕ)
      → parse_parameter
          (x0 ∷ x1 ∷ x2 ∷ x3 ∷ x4 ∷ x5 ∷ x6 ∷ (p.device_short_name ++ b'/' ∷ p.name))
          7
        ≡ returns (ok p)
  unfolding parse_parameter
  parse_parameter_one x0 x1 x2 x3 x4 x5 x6 =
      let (a, b, c, short) = IsKnown-IsShort p known mapped in
      ground (arith, short, find_parameter-IsKnown p known)

  parse_parameter_two :
      (x0 x1 x2 x3 x4 x5 x6 x7 : ℕ)
      → parse_parameter
          (x0 ∷ x1 ∷ x2 ∷ x3 ∷ x4 ∷ x5 ∷ x6 ∷ x7 ∷ (p.device_short_name ++ b'/' ∷ p.name))
          8
        ≡ returns (ok p)
  unfolding parse_parameter
  parse_parameter_two x0 x1 x2 x3 x4 x5 x6 x7 =
      let (a, b, c, short) = IsKnown-IsShort p known mapped in
      ground (arith, short, find_parameter-IsKnown p known)

  module _ (t : ChannelType) (typed : t ≢ no_channel) (n : ℕ) where
    parsed_one :
        (l : Layer)
        → n < 10
        → parse_osc_path (path_text (type_byte t) l n p)
          ≡ returns (ok (record { channel_id = n; channel_type = t; layer = l; parameter = p }))
    unfolding parse_osc_path parse_layer
    parsed_one a_layer h = rw (to_string_one n h) (
        ground (
          arith,
          parse_channel_one b'/' (type_byte t) b'/' b'A' b'/' n
              (p.device_short_name ++ b'/' ∷ p.name) h,
          parse_parameter_one b'/' (type_byte t) b'/' b'A' b'/' (b'0' + n) b'/',
        ))
    parsed_one b_layer h = rw (to_string_one n h) (
        ground (
          arith,
          parse_channel_one b'/' (type_byte t) b'/' b'B' b'/' n
              (p.device_short_name ++ b'/' ∷ p.name) h,
          parse_parameter_one b'/' (type_byte t) b'/' b'B' b'/' (b'0' + n) b'/',
        ))

    parsed_two :
        (l : Layer)
        → 10 ≤ n
        → n < 100
        → parse_osc_path (path_text (type_byte t) l n p)
          ≡ returns (ok (record { channel_id = n; channel_type = t; layer = l; parameter = p }))
    unfolding parse_osc_path parse_layer
    parsed_two a_layer h k = rw (to_string_two n h k) (
        ground (
          arith,
          parse_channel_two b'/' (type_byte t) b'/' b'A' b'/' n
              (b'/' ∷ (p.device_short_name ++ b'/' ∷ p.name)) h k,
          parse_parameter_two b'/' (type_byte t) b'/' b'A' b'/' (b'0' + n / 10) (b'0' + n % 10)
              b'/',
        ))
    parsed_two b_layer h k = rw (to_string_two n h k) (
        ground (
          arith,
          parse_channel_two b'/' (type_byte t) b'/' b'B' b'/' n
              (b'/' ∷ (p.device_short_name ++ b'/' ∷ p.name)) h k,
          parse_parameter_two b'/' (type_byte t) b'/' b'B' b'/' (b'0' + n / 10) (b'0' + n % 10)
              b'/',
        ))

    parse-path_text :
        (l : Layer)
        → n < 100
        → parse_osc_path (path_text (type_byte t) l n p)
          ≡ returns (ok (record { channel_id = n; channel_type = t; layer = l; parameter = p }))
    parse-path_text l h = elim (Bool-cases (ltb n 10)) [
      | inl small ↦ parsed_one l (ltb→lt n 10 small)
      | inr large ↦ parsed_two l (ground arith) h
    ]

build_input-eq-path_text :
    (n : ℕ) (l : Layer) (p : Parameter)
    → build_input_channel_osc_path n p (layer_text l) ≡ path_text b'I' l n p
unfolding build_input_channel_osc_path
build_input-eq-path_text n a_layer p = refl
build_input-eq-path_text n b_layer p = refl

build_group-eq-path_text :
    (n : ℕ) (l : Layer) (p : Parameter)
    → build_group_channel_osc_path n p (layer_text l) ≡ path_text b'G' l n p
unfolding build_group_channel_osc_path
build_group-eq-path_text n a_layer p = refl
build_group-eq-path_text n b_layer p = refl

-- The path that is built for an input channel below 100, a layer and a parameter of the table other
-- than `none` is parsed back to that channel, layer and parameter.
pub parse-build_input :
    (n : ℕ) (l : Layer) (p : Parameter)
    → n < 100
    → IsKnown p
    → 0 < p.id
    → parse_osc_path (build_input_channel_osc_path n p (layer_text l))
      ≡ returns (ok (record { channel_id = n; channel_type = input; layer = l; parameter = p }))
parse-build_input n l p h known mapped =
    rw (build_input-eq-path_text n l p) (parse-path_text p known mapped input (λ e. cc) n l h)

-- The path that is built for a group below 100, a layer and a parameter of the table other than `none`
-- is parsed back to that group, layer and parameter.
pub parse-build_group :
    (n : ℕ) (l : Layer) (p : Parameter)
    → n < 100
    → IsKnown p
    → 0 < p.id
    → parse_osc_path (build_group_channel_osc_path n p (layer_text l))
      ≡ returns (ok (record { channel_id = n; channel_type = group; layer = l; parameter = p }))
parse-build_group n l p h known mapped =
    rw (build_group-eq-path_text n l p) (parse-path_text p known mapped group (λ e. cc) n l h)

not_a_parameter : find_parameter (codes "NA/") (codes "one") ≡ none
unfolding find_parameter
not_a_parameter = refl

module _ (n : ℕ) where
  none_one :
      (l : Layer)
      → n < 10
      → parse_osc_path (path_text b'I' l n none_parameter) ≡ returns (err unknown_parameter)
  unfolding parse_osc_path parse_layer parse_parameter
  none_one a_layer h = rw (to_string_one n h) (
      ground
        (arith, not_a_parameter, parse_channel_one b'/' b'I' b'/' b'A' b'/' n (codes "NA/none") h))
  none_one b_layer h = rw (to_string_one n h) (
      ground
        (arith, not_a_parameter, parse_channel_one b'/' b'I' b'/' b'B' b'/' n (codes "NA/none") h))

  none_two :
      (l : Layer)
      → 10 ≤ n
      → n < 100
      → parse_osc_path (path_text b'I' l n none_parameter) ≡ returns (err unknown_parameter)
  unfolding parse_osc_path parse_layer parse_parameter
  none_two a_layer h k = rw (to_string_two n h k) (
      ground (
        arith,
        not_a_parameter,
        parse_channel_two b'/' b'I' b'/' b'A' b'/' n (codes "/NA/none") h k,
      ))
  none_two b_layer h k = rw (to_string_two n h k) (
      ground (
        arith,
        not_a_parameter,
        parse_channel_two b'/' b'I' b'/' b'B' b'/' n (codes "/NA/none") h k,
      ))

-- The path that is built for `none` and an input channel below 100 is refused as an unknown
-- parameter: the short name of `none` has two bytes, and the parser takes three.
pub parse-build_none :
    (n : ℕ) (l : Layer)
    → n < 100
    → parse_osc_path (build_input_channel_osc_path n none_parameter (layer_text l))
      ≡ returns (err unknown_parameter)
parse-build_none n l h =
    rw (build_input-eq-path_text n l none_parameter) (elim (Bool-cases (ltb n 10)) [
      | inl small ↦ none_one n l (ltb→lt n 10 small)
      | inr large ↦ none_two n l (ground arith) h
    ])
