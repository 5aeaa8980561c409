-- ===== src/MidiRouter/Processor.antt =====
-- The signal processor of src/applications/midi_router.cpp, and the thread beside it that stores the
-- router's choices in the filter's parameters.
-- `parameters_property->update` is a call of pwcpp, an argument here. What the thread then sends to
-- PipeWire is left out.
use pmx.Base.{
  Bool, ◌||◌, not, List, [], ◌∷◌, ◌++◌, Option, none, some, Text, codes, text_eq, ltb,
  if◌then◌else◌, length, ℤ, pos, eq_ℤ, uint8_of_int, Run, returns, ◌>>=◌,
}
use pmx.Pod.{BuilderCall}
use pmx.Properties.{
  Property, PropertyValue, int_value, string_value, as_int, as_string, get_from_collection,
}
use pmx.Interpolation.{Double}
use pmx.MidiRouter.Message.{Parsed, get_midi_messages}
use pmx.MidiRouter.Ports.{
  process_group_channels_port, process_input_channels_port, process_input_channels_mix_port,
}

pub record QueueMessage : Type 0 where
  pub base_channel_id : ℤ
  pub layer : Text
  pub selected_channel_id : ℤ

-- `boost::lockfree::capacity<2>`: a push into a full queue does nothing.
abbrev pub push : List QueueMessage → QueueMessage → List QueueMessage
push queue message = if ltb (length queue) 2 then queue ++ message ∷ [] else queue

-- The buffers of one cycle; `none` is a port without one.
pub record Buffers : Type 0 where
  pub out_buffer : Bool
  pub input_channels : Option Parsed
  pub group_channels : Option Parsed
  pub input_channels_mix : Option Parsed

pub record Router (R : Type 0) : Type 0 where
  pub parameters : List (Property R)
  pub queue : List QueueMessage

abbrev pub or_else {ℓ} : {A : Type ℓ} → Option A → A → A
or_else none a = a
or_else (some b) a = b

abbrev pub push_change : List QueueMessage → Option QueueMessage → List QueueMessage
push_change queue none = queue
push_change queue (some message) = push queue message

module _ (D : Double) where
  open D use {Real}

  abbrev Calls : Type 0
  Calls = List (BuilderCall Real)

  -- `if (buffer.has_value())` round each of the three functions.
  unfoldable pub group_step : Option Parsed → Text → Calls × Text
  group_step none active_layer = ([], active_layer)
  group_step (some buffer) active_layer =
      process_group_channels_port D (get_midi_messages buffer) active_layer

  unfoldable pub mix_step : Option Parsed → Text → ℤ → ℤ → Calls × ℤ × ℤ
  mix_step none active_layer base_channel_id selected_channel_id =
      ([], base_channel_id, selected_channel_id)
  mix_step (some buffer) active_layer base_channel_id selected_channel_id =
      let (calls, c) =
        process_input_channels_mix_port D (get_midi_messages buffer) active_layer (record {
          base_channel_id = uint8_of_int base_channel_id;
          selected_channel_id = uint8_of_int selected_channel_id;
        }) in
      (calls, pos c.base_channel_id, pos c.selected_channel_id)

  unfoldable pub input_step : Option Parsed → Text → ℤ → Calls
  input_step none active_layer selected_channel_id = []
  input_step (some buffer) active_layer selected_channel_id =
      process_input_channels_port D (get_midi_messages buffer) active_layer
        (uint8_of_int selected_channel_id)

  -- One cycle, from the layer and the channels that the parameters held: what is written, and the
  -- message that is queued if anything changed. Where nothing differs, storing the result is no
  -- change of the variable.
  unfoldable pub route : Buffers → Text → ℤ → ℤ → Calls × Option QueueMessage
  route b active_layer base_channel_id selected_channel_id =
      let (group_calls, layer) = group_step b.group_channels active_layer in
      let (mix_calls, base, selected) =
        mix_step b.input_channels_mix layer base_channel_id selected_channel_id in
      let input_calls = input_step b.input_channels layer selected in
      let changes =
        not (text_eq layer active_layer)
        || not (eq_ℤ base base_channel_id)
        || not (eq_ℤ selected selected_channel_id) in
      (
        group_calls ++ (mix_calls ++ input_calls),
        if changes
            then some
                (record { base_channel_id = base; layer = layer; selected_channel_id = selected })
            else none,
      )

  -- The whole callback: what is written, if there is an output buffer, and the state after it.
  unfoldable pub process_signal : Buffers → Router Real → Run (Option Calls × Router Real)
  process_signal b r = if not b.out_buffer then returns (none, r) else do
    active_layer ← get_from_collection as_string (codes "activeLayer") r.parameters
    base_channel_id ← get_from_collection as_int (codes "baseChannelId") r.parameters
    selected_channel_id ← get_from_collection as_int (codes "selectedChannelId") r.parameters
    let (calls, message) =
        route b (or_else active_layer (codes "A")) (or_else base_channel_id (pos 0))
          (or_else selected_channel_id (pos 1))
    returns (some calls, record r { queue = push_change r.queue message })

-- The inner loop of the thread pops every message and keeps the last one.
unfoldable pub last_message : QueueMessage → List QueueMessage → QueueMessage
last_message m [] = m
last_message m (next ∷ queue) = last_message next queue

module _ {R : Type 0}
    (update : Text → PropertyValue R → List (Property R) → List (Property R)) where
  abbrev pub store_message : QueueMessage → List (Property R) → List (Property R)
  store_message m parameters =
      update (codes "selectedChannelId") (int_value m.selected_channel_id) (
        update (codes "baseChannelId") (int_value m.base_channel_id)
          (update (codes "activeLayer") (string_value m.layer) parameters))

  abbrev pub store_queue : List QueueMessage → Router R → Router R
  store_queue [] r = r
  store_queue (m ∷ queue) r = record {
    parameters = store_message (last_message m queue) r.parameters;
    queue = [];
  }

  -- One round of the thread.
  unfoldable pub update_parameter_values : Router R → Router R
  unfolding last_message
  update_parameter_values r = store_queue r.queue r
