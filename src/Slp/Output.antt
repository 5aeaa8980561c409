-- ===== src/Slp/Output.antt =====
-- What the signal processor of src/applications/slp_ctrl.cpp writes to its two output ports, and the
-- whole processor.
use pmx.Base.{
  ℕ, ◌+◌, ◌/◌, ◌%◌, ◌==◌, not, Bool, true, false, List, [], ◌∷◌, ◌++◌, Option, none, some, Text,
  codes, to_string, if◌then◌else◌, Run, returns, faults, undefined, ◌>>=◌, ok, err,
}
use pmx.Pod.{
  InputPod, untested_controls, Packet, float_argument, string_argument, BuilderCall, packet, words,
  osc_control, ump_control, entry,
}
use pmx.Ump.{
  pack, create_8_byte_message, MessageType, sysex_7bit_start, sysex_7bit_continue, sysex_7bit_end,
}
use pmx.Slp.{
  off, wait_start, recording, wait_stop, playing, Libraries, Controller, SooperLooperState,
}
use pmx.Slp.Input.{Control, Presses, read_osc, read_lp_mini, read_clock}

abbrev pub hit_path : ℕ → Text
hit_path loop_index = codes "/sl/" ++ (to_string loop_index ++ codes "/hit")

-- The lights of the eight bars, by `bar_to_cc_mapping`.
abbrev pub bar_to_cc_mapping : List ℕ
bar_to_cc_mapping = 89 ∷ 79 ∷ 69 ∷ 59 ∷ 49 ∷ 39 ∷ 29 ∷ 19 ∷ []

module _ {R : Type 0} where
  abbrev pub hit : ℕ → List (BuilderCall R)
  hit loop_index = entry osc_control (
      packet (record {
        address = hit_path loop_index;
        arguments = string_argument (codes "record") ∷ [];
      }))

  abbrev pub hits : List ℕ → List (BuilderCall R)
  hits [] = []
  hits (loop_index ∷ presses) = hit loop_index ++ hits presses

  abbrev pub ump : ℕ → List (BuilderCall R)
  ump word = entry ump_control (words (word ∷ []))

  -- The light of a looper's pad.
  unfoldable pub looper_light : SooperLooperState → List (BuilderCall R)
  unfolding pack
  looper_light looper = elim looper.state [
    | off ↦ ump (pack 0x20 0x90 (81 + looper.loop_index) 45)
    | wait_start ↦ ump (pack 0x20 0x92 (81 + looper.loop_index) 9)
    | recording ↦ ump (pack 0x20 0x90 (81 + looper.loop_index) 5)
    | wait_stop ↦ ump (pack 0x20 0x92 (81 + looper.loop_index) 7)
    | playing ↦ ump (pack 0x20 0x90 (81 + looper.loop_index) 23)
    | _ ↦ []
  ]

  abbrev pub looper_lights : List SooperLooperState → List (BuilderCall R)
  looper_lights [] = []
  looper_lights (looper ∷ loopers) = looper_light looper ++ looper_lights loopers

  unfoldable pub bar_lights : ℕ → ℕ → List ℕ → List (BuilderCall R)
  unfolding pack
  bar_lights ppm_count i [] = []
  bar_lights ppm_count i (cc ∷ ccs) =
      ump (pack 0x20 0xb0 cc (if ppm_count / 24 / 4 % 8 == i then 49 else 33))
      ++ bar_lights ppm_count (i + 1) ccs

  -- `create_8_byte_message(...)->data()`.
  abbrev pub sysex : MessageType → List ℕ → Run (List (BuilderCall R))
  sysex t data_bytes = elim (create_8_byte_message t data_bytes) [
    | ok (w, v) ↦ returns (entry ump_control (words (w ∷ v ∷ [])))
    | err e ↦ faults undefined
  ]

  abbrev pub sysex_all : List (MessageType × List ℕ) → Run (List (BuilderCall R))
  sysex_all [] = returns []
  sysex_all ((t, data_bytes) ∷ messages) = do
    calls ← sysex t data_bytes
    rest ← sysex_all messages
    returns (calls ++ rest)

-- The messages that set up and select the mixer mode.
abbrev pub mixer_messages : List (MessageType × List ℕ)
mixer_messages =
    (sysex_7bit_start, 0 ∷ 32 ∷ 41 ∷ 2 ∷ 13 ∷ 1 ∷ [])
    ∷ (sysex_7bit_continue, 0 ∷ 1 ∷ 0 ∷ 1 ∷ 1 ∷ 42 ∷ [])
    ∷ (sysex_7bit_continue, 1 ∷ 1 ∷ 2 ∷ 42 ∷ 2 ∷ [])
    ∷ (sysex_7bit_continue, 1 ∷ 3 ∷ 42 ∷ 3 ∷ 1 ∷ 4 ∷ [])
    ∷ (sysex_7bit_continue, 42 ∷ 4 ∷ 1 ∷ 5 ∷ 49 ∷ 5 ∷ [])
    ∷ (sysex_7bit_continue, 1 ∷ 9 ∷ 49 ∷ 6 ∷ 1 ∷ 7 ∷ [])
    ∷ (sysex_7bit_end, 49 ∷ 7 ∷ 1 ∷ 8 ∷ 49 ∷ [])
    ∷ (sysex_7bit_start, 0 ∷ 32 ∷ 41 ∷ 2 ∷ 13 ∷ 0 ∷ [])
    ∷ (sysex_7bit_end, 13 ∷ [])
    ∷ []

unfoldable pub write_mixer : {R : Type 0} → Bool → Run (List (BuilderCall R))
unfolding create_8_byte_message
write_mixer switch_to_mixer_mode =
    if switch_to_mixer_mode then sysex_all mixer_messages else returns []

unfoldable pub write_lp_mini :
    {R : Type 0} → List SooperLooperState → ℕ → Bool → Run (List (BuilderCall R))
unfolding looper_light bar_lights
write_lp_mini loopers ppm_count switch_to_mixer_mode = do
  mixer ← write_mixer switch_to_mixer_mode
  returns (looper_lights loopers ++ (bar_lights ppm_count 0 bar_to_cc_mapping ++ mixer))

module _ (N : Libraries) where
  open N use {Real, literal, real_eq}

  unfoldable pub write_osc : List ℕ → Real → List (BuilderCall Real)
  write_osc presses known =
      hits presses
      ++ (if not (real_eq known (literal 64))
          then entry osc_control (
              packet (record {
                address = codes "/set";
                arguments =
                    string_argument (codes "eighth_per_cycle") ∷ float_argument (literal 64) ∷ [];
              }))
          else [])

  -- The buffers of a cycle: for the inputs what was read, for the outputs whether there is one.
  pub record Buffers : Type 0 where
    pub sl_osc : Option (List (Option (Packet Real)))
    pub lp_mini : InputPod Control
    pub midi_clock : InputPod Control
    pub sl_osc_out : Bool
    pub lp_mini_out : Bool

  abbrev pub no_presses : Presses
  no_presses = record { registered_loop_ctrl_presses = []; switch_to_mixer_mode = false }

  abbrev Calls : Type 0
  Calls = List (BuilderCall Real)

  abbrev write_if : Bool → List SooperLooperState → ℕ → Bool → Run (Option Calls)
  write_if false loopers ppm_count switch_to_mixer_mode = returns none
  write_if true loopers ppm_count switch_to_mixer_mode = do
    calls ← write_lp_mini loopers ppm_count switch_to_mixer_mode
    returns (some calls)

  -- The whole callback: what is written to each output that has a buffer, and the variables after it.
  unfoldable pub process_signal :
      Buffers → Controller Real → Run (Option Calls × Option Calls × Controller Real)
  process_signal b before = do
    c ← read_osc N b.sl_osc before
    pads ← untested_controls b.lp_mini
    let presses = read_lp_mini pads no_presses
    clock ← untested_controls b.midi_clock
    let ppm_count = read_clock clock c.ppm_count
    lights ← write_if b.lp_mini_out c.group_channel_loopers ppm_count presses.switch_to_mixer_mode
    returns (
      if b.sl_osc_out
          then some (write_osc presses.registered_loop_ctrl_presses c.known_eighth_per_cycle)
          else none,
      lights,
      record c { ppm_count = ppm_count },
    )
