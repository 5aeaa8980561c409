-- ===== src/Osc.antt =====
-- include/osc/parse_osc_path.h and src/parse_osc_path.cpp: the paths of the mixer's OSC messages,
-- and src/processing.cpp and src/applications/midi_router.cpp, which build them.
-- An error is named for its message. Two of the messages, "invalid channel type " + path[1] and
-- "invalid layer " + path[3], add a number to a pointer in C++; what they read is not modelled.
pub mod ShortNames
pub mod RoundTrip
pub mod Results
use pmx.Base.{
  ℕ, ◌+◌, ◌-◌, ◌*◌, ◌%◌, ◌^◌, ◌<◌, ◌≡◌, refl, Bool, ◌&&◌, ◌||◌, not, Option, none, some, List, [],
  ◌∷◌, ◌++◌, Text, codes, text_eq, is_digit, to_string, stoi, ltb, ◌==◌, if◌then◌else◌, length,
  take, drop, find, get_elem?, ℤ, pos, negsuc, Run, returns, faults, out_of_range, Result, ok, err,
}
use pmx.Parameters.{Parameter, all_parameters, compressor_ratio, saturator_level_in}
use pmx.Parameters.Laws.{named}

pub data ChannelType : Type 0 where
  input group layer no_channel : ChannelType

pub data Layer : Type 0 where
  a_layer b_layer : Layer

-- `operator<<`.
abbrev pub channel_type_text : ChannelType → Text
channel_type_text input = codes "input"
channel_type_text group = codes "group"
channel_type_text layer = codes "layer"
channel_type_text no_channel = codes "unknown"

pub record OscPath : Type 0 where
  pub channel_id : ℕ
  pub channel_type : ChannelType
  pub layer : Layer
  pub parameter : Parameter

pub data PathError : Type 0 where
  too_short invalid_channel_type invalid_layer invalid_channel unknown_parameter : PathError

-- `path[i]` at an index below the size.
abbrev pub byte_at : Text → ℕ → ℕ
byte_at path i = elim (get_elem? path i) [ none ↦ 0 | some b ↦ b ]

-- `path.substr(pos, n)` and `path.substr(pos)`.
abbrev pub substr : Text → ℕ → ℕ → Run Text
substr path start n =
    if ltb (length path) start then faults out_of_range else returns (take n (drop start path))

abbrev pub substr_from : Text → ℕ → Run Text
substr_from path start =
    if ltb (length path) start then faults out_of_range else returns (drop start path)

abbrev pub channel_type_of : ℕ → Option ChannelType
channel_type_of c =
    if c == b'I'
    then some input
    else if c == b'G'
    then some group
    else if c == b'L'
    then some layer
    else none

-- An `int` as a `size_t`.
abbrev pub size_of_int : ℤ → ℕ
size_of_int (pos n) = n
size_of_int (negsuc n) = 2 ^ 64 - 1 - n

-- A call that may fault, and that returns a path error or a value.
abbrev pub Parse {ℓ} : Type ℓ → Type ℓ
Parse A = Run (Result PathError A)

infixl 5 ◌>>=◌
abbrev pub ◌>>=◌ {ℓ κ} : {A : Type ℓ} {B : Type κ} → Parse A → (A → Parse B) → Parse B
returns (ok a) >>= f = f a
returns (err e) >>= f = returns (err e)
faults e >>= f = faults e

abbrev pub pure {ℓ} : {A : Type ℓ} → A → Parse A
pure a = returns (ok a)

abbrev pub fail {ℓ} : {A : Type ℓ} → PathError → Parse A
fail e = returns (err e)

abbrev pub call {ℓ} : {A : Type ℓ} → Run A → Parse A
call (returns a) = returns (ok a)
call (faults e) = faults e

abbrev pub or_fail {ℓ} : {A : Type ℓ} → Option A → PathError → Parse A
or_fail none e = fail e
or_fail (some a) e = pure a

unfoldable pub parse_layer : Text → Parse Layer
parse_layer path =
    if not (byte_at path 3 == b'A') && not (byte_at path 3 == b'B')
    then fail invalid_layer
    else pure (if byte_at path 3 == b'A' then a_layer else b_layer)

-- The channel, and the place behind it and its slash.
unfoldable pub parse_channel : Text → Parse (ℕ × ℕ)
parse_channel path =
    if is_digit (byte_at path 5) && is_digit (byte_at path 6)
    then (do
      digits ← call (substr path 5 2)
      channel ← call (stoi digits)
      pure (size_of_int channel, 8))
    else if is_digit (byte_at path 5)
    then (do
      digits ← call (substr path 5 1)
      channel ← call (stoi digits)
      pure (size_of_int channel, 7))
    else fail invalid_channel

unfoldable pub find_parameter : Text → Text → Option Parameter
find_parameter device_short_name name = find (named device_short_name name) all_parameters

unfoldable pub parse_parameter : Text → ℕ → Parse Parameter
parse_parameter path consumed = do
  device_short_name ← call (substr path consumed 3)
  parameter_name ← call (substr_from path (consumed + 4))
  or_fail (find_parameter device_short_name parameter_name) unknown_parameter

unfoldable pub parse_osc_path : Text → Run (Result PathError OscPath)
parse_osc_path path = if ltb (length path) 7 then fail too_short else do
  channel_type ← or_fail (channel_type_of (byte_at path 1)) invalid_channel_type
  l ← parse_layer path
  (channel, consumed) ← parse_channel path
  parameter ← parse_parameter path consumed
  pure (record {
    channel_id = channel;
    channel_type = channel_type;
    layer = l;
    parameter = parameter;
  })

-- src/processing.cpp; the channel and the group are `uint8_t`.
unfoldable pub build_input_channel_osc_path : ℕ → Parameter → Text → Text
build_input_channel_osc_path channel parameter active_layer =
    codes "/I/"
    ++ (active_layer
        ++ (codes "/"
            ++ (to_string channel
                ++ (codes "/" ++ (parameter.device_short_name ++ (codes "/" ++ parameter.name))))))

unfoldable pub build_group_channel_osc_path : ℕ → Parameter → Text → Text
build_group_channel_osc_path group_id parameter active_layer =
    codes "/G/"
    ++ (active_layer
        ++ (codes "/"
            ++ (to_string group_id
                ++ (codes "/" ++ (parameter.device_short_name ++ (codes "/" ++ parameter.name))))))
