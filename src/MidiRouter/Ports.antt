-- ===== src/MidiRouter/Ports.antt =====
-- The three functions of include/midi/router/midi_router.h, each over the array of messages that
-- `get_midi_messages` fills. The channel numbers are `uint8_t`.
use pmx.Base.{
  ℕ, ◌+◌, ◌/◌, ◌%◌, ◌^◌, List, [], ◌∷◌, ◌++◌, Option, none, some, Text, codes, ltb, ◌==◌,
  if◌then◌else◌, values, length,
}
use pmx.Pod.{BuilderCall, packet, float_argument, osc_control, entry}
use pmx.Parameters.{Parameter}
use pmx.Parameters.Find.{
  RoutingTableTargetParameter, find_target_parameter_for_group_channels,
  find_target_parameter_for_input_mix_channels, find_target_parameter_for_input_channels,
}
use pmx.Osc.{build_input_channel_osc_path, build_group_channel_osc_path}
use pmx.Interpolation.{Double, interpolate, max_u32}
use pmx.MidiRouter.Message.{ControlChange, Message, control_change, note_off, other_message}

-- `uint32_t` max / 2.0, truncated.
abbrev pub mid_point : ℕ
mid_point = max_u32 / 2

-- The number of messages in the array.
abbrev pub count_messages : List (Option Message) → ℕ
count_messages messages = length (values messages)

-- What `process_input_channels_mix_port` changes.
pub record Channels : Type 0 where
  pub base_channel_id : ℕ
  pub selected_channel_id : ℕ

-- An `int` stored as a `uint8_t`.
abbrev pub uint8 : ℕ → ℕ
uint8 n = n % 2 ^ 8

-- The chain of tests on the note that was released.
unfoldable pub release_note : ℕ → Channels → Channels
release_note note c =
    if note == 25
    then record c { base_channel_id = 0 }
    else if note == 26
    then record c { base_channel_id = 8 }
    else if note == 3
    then record c { selected_channel_id = uint8 (c.base_channel_id + 1) }
    else if note == 6
    then record c { selected_channel_id = uint8 (c.base_channel_id + 2) }
    else if note == 9
    then record c { selected_channel_id = uint8 (c.base_channel_id + 3) }
    else if note == 12
    then record c { selected_channel_id = uint8 (c.base_channel_id + 4) }
    else if note == 15
    then record c { selected_channel_id = uint8 (c.base_channel_id + 5) }
    else if note == 18
    then record c { selected_channel_id = uint8 (c.base_channel_id + 6) }
    else if note == 21
    then record c { selected_channel_id = uint8 (c.base_channel_id + 7) }
    else if note == 24
    then record c { selected_channel_id = uint8 (c.base_channel_id + 8) }
    else c

module _ (D : Double) where
  open D use {Real, to_float}

  abbrev pub Calls : Type 0
  Calls = List (BuilderCall Real)

  -- The control, and the packet with its one float.
  abbrev pub write_message : Text → Parameter → ℕ → Calls
  write_message path parameter value = entry osc_control (
      packet (record {
        address = path;
        arguments = float_argument (to_float (interpolate D parameter value)) ∷ [];
      }))

  abbrev write_group_message : Option RoutingTableTargetParameter → ControlChange → Text → Calls
  write_group_message none change current_layer = []
  write_group_message (some target) change current_layer =
      write_message (build_group_channel_osc_path target.group_id target.parameter current_layer)
        target.parameter change.value

  -- The body of the loop for one message: the calls on the builder, and the layer from here on.
  unfoldable pub process_group_message : Message → Text → Calls × Text
  process_group_message (control_change change) current_layer =
      if change.cc_number == 64
      then ([], if ltb change.value mid_point then codes "A" else codes "B")
      else (
        write_group_message (find_target_parameter_for_group_channels change.cc_number) change
            current_layer,
        current_layer,
      )
  process_group_message (note_off note) current_layer = ([], current_layer)
  process_group_message other_message current_layer = ([], current_layer)

  unfoldable pub process_group_messages : List (Option Message) → Text → Calls × Text
  unfolding process_group_message
  process_group_messages [] current_layer = ([], current_layer)
  process_group_messages (none ∷ messages) current_layer =
      process_group_messages messages current_layer
  process_group_messages (some message ∷ messages) current_layer =
      let (calls, next_layer) = process_group_message message current_layer in
      let (rest, last_layer) = process_group_messages messages next_layer in
      (calls ++ rest, last_layer)

  unfoldable pub process_group_channels_port : List (Option Message) → Text → Calls × Text
  unfolding process_group_messages
  process_group_channels_port messages active_layer =
      if ltb 0 (count_messages messages)
      then process_group_messages messages active_layer
      else ([], active_layer)

  unfoldable pub process_input_message : Message → Text → ℕ → Calls
  process_input_message (control_change change) active_layer channel_id =
      let parameter = find_target_parameter_for_input_channels change.cc_number in
      write_message (build_input_channel_osc_path channel_id parameter active_layer) parameter
        change.value
  process_input_message (note_off note) active_layer channel_id = []
  process_input_message other_message active_layer channel_id = []

  unfoldable pub process_input_messages : List (Option Message) → Text → ℕ → Calls
  unfolding process_input_message
  process_input_messages [] active_layer channel_id = []
  process_input_messages (none ∷ messages) active_layer channel_id =
      process_input_messages messages active_layer channel_id
  process_input_messages (some message ∷ messages) active_layer channel_id =
      process_input_message message active_layer channel_id
      ++ process_input_messages messages active_layer channel_id

  unfoldable pub process_input_channels_port : List (Option Message) → Text → ℕ → Calls
  unfolding process_input_messages
  process_input_channels_port messages active_layer channel_id =
      if ltb 0 (count_messages messages)
      then process_input_messages messages active_layer channel_id
      else []

  unfoldable pub process_mix_message : Message → Text → Channels → Calls × Channels
  unfolding release_note
  process_mix_message (control_change change) active_layer c =
      let (strip, parameter) = find_target_parameter_for_input_mix_channels change.cc_number in
      (
        write_message
            (build_input_channel_osc_path (uint8 (c.base_channel_id + strip)) parameter
              active_layer)
            parameter change.value,
        c,
      )
  process_mix_message (note_off note) active_layer c = ([], release_note note c)
  process_mix_message other_message active_layer c = ([], c)

  unfoldable pub process_mix_messages : List (Option Message) → Text → Channels → Calls × Channels
  unfolding process_mix_message
  process_mix_messages [] active_layer c = ([], c)
  process_mix_messages (none ∷ messages) active_layer c =
      process_mix_messages messages active_layer c
  process_mix_messages (some message ∷ messages) active_layer c =
      let (calls, next) = process_mix_message message active_layer c in
      let (rest, last) = process_mix_messages messages active_layer next in (calls ++ rest, last)

  unfoldable pub process_input_channels_mix_port :
      List (Option Message) → Text → Channels → Calls × Channels
  unfolding process_mix_messages
  process_input_channels_mix_port messages active_layer c =
      if ltb 0 (count_messages messages)
      then process_mix_messages messages active_layer c
      else ([], c)
