-- ===== src/Witnesses/Routing.antt =====
-- include/midi/router/midi_router.h and src/applications/midi_router.cpp at concrete inputs.
use pmx.Base.{
  ◌≡◌, refl, arith, true, List, [], ◌∷◌, Option, none, some, Text, codes, text_eq, text_eq_trans,
  text_eq_sym, inl, inr, ℤ, pos, returns, values, ok, if◌then◌else◌,
}
use pmx.Pod.{BuilderCall}
use pmx.Properties.{Property, PropertyValue, int_value, string_value, get_from_collection}
use pmx.Osc.{a_layer, b_layer}
use pmx.Interpolation.Fixed.{fixed}
use pmx.MidiRouter.Message.{
  Message, control_change, note_off, get_midi_messages, values-get_midi_messages,
}
use pmx.MidiRouter.Ports.{Channels}
use pmx.MidiRouter.Processor.{
  Buffers, Router, QueueMessage, process_signal, update_parameter_values,
}
use pmx.MidiRouter.Invariant.{
  IsRouter, IsConfigured, IsChoice, CycleOutcome, process_signal-outcome,
}
use pmx.MidiRouter.Updater.{IsUpdate, Holds, update_parameter_values-outcome}

abbrev layer_switch : Message
layer_switch = control_change (record { cc_number = 64; value = 4000000000 })

abbrev knob_turn : Message
knob_turn = control_change (record { cc_number = 16; value = 1000 })

abbrev played : List (Option Message)
played = some layer_switch ∷ none ∷ some knob_turn ∷ some (note_off 26) ∷ some (note_off 3) ∷ []

abbrev chosen : QueueMessage
chosen = record { base_channel_id = pos 8; layer = codes "B"; selected_channel_id = pos 9 }

abbrev configuration : List (Property ℤ)
configuration =
    (codes "activeLayer", string_value (codes "A"))
    ∷ (codes "baseChannelId", int_value (pos 0))
    ∷ (codes "selectedChannelId", int_value (pos 1))
    ∷ []

abbrev router : Router ℤ
router = record { parameters = configuration; queue = chosen ∷ [] }

chosen-IsChoice : IsChoice chosen
chosen-IsChoice = record {
  layer = (b_layer, refl);
  base = (8, refl, inr refl);
  selected = (9, refl, omega arith);
}

configuration-IsConfigured : IsConfigured configuration
unfolding get_from_collection
configuration-IsConfigured = record {
  layer = (a_layer, refl);
  base = (pos 0, refl, (0, refl, inl refl));
  selected = (pos 1, refl, (1, refl, omega arith));
}

router-IsRouter : IsRouter router
router-IsRouter = record {
  configured = configuration-IsConfigured;
  choices = (chosen-IsChoice, tt);
  bounded = omega arith;
}

abbrev buffers : Buffers
buffers = record {
  out_buffer = true;
  input_channels = some (ok played);
  group_channels = some (ok played);
  input_channels_mix = some (ok played);
}

process_signal-outcome_example :
    (o : Option (List (BuilderCall ℤ)) × Router ℤ) × (process_signal fixed buffers router
      ≡ returns o)
    × CycleOutcome fixed o
process_signal-outcome_example = process_signal-outcome fixed buffers router router-IsRouter

values-get_midi_messages_example : values (get_midi_messages (ok played)) ≡ values played
values-get_midi_messages_example = values-get_midi_messages played (omega arith)

abbrev first_channels : Channels
first_channels = record { base_channel_id = 0; selected_channel_id = 1 }

-- A collection that is updated in place.
abbrev update : Text → PropertyValue ℤ → List (Property ℤ) → List (Property ℤ)
update k v [] = []
update k v (p ∷ ps) = if text_eq p.0 k then (p.0, v) ∷ ps else p ∷ update k v ps

get_update :
    {A B : Type 0} (as_a : PropertyValue ℤ → Option A) (as_b : PropertyValue ℤ → Option B)
    (k j : Text) (v : PropertyValue ℤ) (ps : List (Property ℤ)) (a : Option A)
    → get_from_collection as_a k ps ≡ returns a
    → get_from_collection as_b j (update k v ps)
      ≡ (if text_eq k j then returns (as_b v) else get_from_collection as_b j ps)
unfolding get_from_collection
get_update as_a as_b k j v [] a h = cc
get_update as_a as_b k j v (p ∷ ps) a h = ground (
  arith,
  text_eq_trans p.0 k j,
  text_eq_trans p.0 j k,
  text_eq_sym j k,
  get_update as_a as_b k j v ps a,
)

update-IsUpdate : IsUpdate update
update-IsUpdate = record { get_update = get_update }

update_parameter_values-outcome_example :
    IsRouter (update_parameter_values update router)
    × ((update_parameter_values update router).queue ≡ [])
    × Holds chosen (update_parameter_values update router).parameters
update_parameter_values-outcome_example =
    update_parameter_values-outcome update-IsUpdate router [] chosen router-IsRouter refl
