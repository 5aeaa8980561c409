-- ===== src/Witnesses/Devices.antt =====
-- src/applications/slp_ctrl.cpp, lp_mini_init.cpp and traktor_z1_router.cpp, and the headers that
-- belong to them, at concrete inputs.
use pmx.Base.{
  leb, ◌⊎◌, Fault, faults, ℕ, ◌≡◌, refl, arith, true, List, [], ◌∷◌, Option, none, some, codes, ℤ,
  pos, eq_ℤ, returns, ok, length, values, get_elem?,
}
use pmx.Pod.{
  is_sequence, sequence, Packet, float_argument, int_argument, string_argument, BuilderCall,
  ump_control, osc_control,
}
use pmx.Ump.{sysex_7bit_continue, create_8_byte_message}
use pmx.Ump.Sysex.{ReadBack, bytes_of-create}
use pmx.Slp.{SooperLooperState, Libraries, Controller, recording, playing, off, initial_loopers}
use pmx.Slp.Input.{Control, StateUpdate, apply_updates}
use pmx.Slp.Output.{Buffers, process_signal}
use pmx.Slp.Loopers.{osc_message, GroupLoopers, update_states}
use pmx.Slp.Safety.{Safe, update_states-Safe}
use pmx.Slp.Reports.{last_state, apply_updates-last_state, start, pulse}
use pmx.Slp.Lights.{InputFault, IsWritten, process_signal-IsWritten}
use pmx.Traktor.{write_changes, TraktorZ1Message, decode, changes}
use pmx.Traktor.Changes.{settings, receive, receive-changes, encode, decode-encode}
use pmx.LpMini
use pmx.Witnesses.Reader.{typed_reader}
use pmx.LpMini.{Cycle}
use pmx.LpMini.Phases.{Phase, shaking, setup_of, Moves, Fails, process_signal-Moves}

abbrev five_bytes : List ℕ
five_bytes = 1 ∷ 1 ∷ 2 ∷ 42 ∷ 2 ∷ []

bytes_of-create_example :
    (m : ℕ × ℕ) × (create_8_byte_message sysex_7bit_continue five_bytes ≡ ok m)
    × ReadBack sysex_7bit_continue five_bytes m
bytes_of-create_example =
    bytes_of-create sysex_7bit_continue five_bytes (omega arith) (omega arith)
      (omega arith, (omega arith, (omega arith, (omega arith, (omega arith, tt)))))

-- Whole numbers in place of floating point numbers.
abbrev whole : Libraries
whole = record { Real = ℤ; literal = pos; real_eq = eq_ℤ; reader = typed_reader ℤ }

abbrev controller : Controller ℤ
controller = record {
  ppm_count = 5;
  group_channel_loopers = initial_loopers;
  known_eighth_per_cycle = pos 32;
}

abbrev state_message : ℕ → Packet ℤ
state_message i = record {
  address = codes "/sl/loops";
  arguments = int_argument (pos i) ∷ string_argument (codes "state") ∷ float_argument (pos 4) ∷ [];
}

abbrev pads : List Control
pads =
    (ump_control, 1082151680 ∷ 0 ∷ [])
    ∷ (ump_control, 1082151168 ∷ 0 ∷ [])
    ∷ (ump_control, 1085298944 ∷ 0 ∷ [])
    ∷ []

abbrev buffers : Buffers whole
buffers = record {
  sl_osc = none;
  lp_mini = sequence pads;
  midi_clock = sequence (start ∷ pulse ∷ []);
  sl_osc_out = true;
  lp_mini_out = true;
}

process_signal-IsWritten_example :
    ((osc lights : Option (List (BuilderCall ℤ))) × (after : Controller ℤ) × (process_signal whole
          buffers controller
        ≡ returns (osc, lights, after))
      × (length after.group_channel_loopers ≡ 8)
      × IsWritten whole osc
      × IsWritten whole lights)
    ⊎ ((e : Fault) × (process_signal whole buffers controller ≡ faults e)
        × InputFault whole buffers controller e)
process_signal-IsWritten_example = process_signal-IsWritten whole buffers controller refl

abbrev updates : List StateUpdate
updates =
    record { loop_index = 2; state = recording }
    ∷ record { loop_index = 9; state = recording }
    ∷ record { loop_index = 2; state = playing }
    ∷ []

apply_updates-last_state_example :
    (after : List SooperLooperState) × (apply_updates updates initial_loopers ≡ returns after)
    × (length after ≡ 8)
    × (get_elem? after 2 ≡ some (record { state = last_state 2 updates off; loop_index = 2 }))
apply_updates-last_state_example =
    apply_updates-last_state 2 updates initial_loopers (record { state = off; loop_index = 2 }) refl
      refl

abbrev group_loopers : GroupLoopers ℤ
group_loopers = record { loopers = initial_loopers; known_eighth_per_cycle = pos 0 }

update_states-Safe_example :
    Safe whole
      (update_states whole ((osc_control, osc_message (state_message 3)) ∷ []) group_loopers)
update_states-Safe_example =
    update_states-Safe whole ((osc_control, osc_message (state_message 3)) ∷ []) group_loopers
      (omega arith, tt) refl

abbrev centred : TraktorZ1Message
centred = record {
  gain_l = 2048;
  hi_l = 2048;
  mid_l = 2048;
  low_l = 2048;
  filter_l = 2048;
  gain_r = 2048;
  hi_r = 2048;
  mid_r = 2048;
  low_r = 2048;
  filter_r = 2048;
  cue_mix = 0;
  fader_l = 4095;
  fader_r = 4095;
  cross_fader = 2048;
}

abbrev moved : TraktorZ1Message
moved = record centred { hi_l = 3000; fader_r = 0 }

receive-changes_example :
    (receive (settings centred) (values (changes centred moved)) ≡ settings moved)
    × (is_sequence (write_changes pos (values (changes centred moved)))
        ≡ leb (length (values (changes centred moved))) 1)
receive-changes_example = receive-changes pos centred moved

decode-encode_example : decode (encode moved) ≡ moved
decode-encode_example = decode-encode moved (omega arith)

abbrev first_cycle : Cycle
first_cycle = record {
  in_buffer = sequence ((ump_control, 806780416 ∷ 807807251 ∷ []) ∷ []);
  out_buffer = true;
  now = 10;
  sent = 11;
}

abbrev first_phase : Phase
first_phase = shaking 806780416 (807807251 ∷ 808649734 ∷ []) none

process_signal-Moves_example :
    ((q : Phase) × (calls : Option (List (BuilderCall ℤ))) × (LpMini.process_signal ℤ first_cycle
          (setup_of first_phase)
        ≡ returns (calls, setup_of q))
      × Moves ℤ first_cycle first_phase q calls)
    ⊎ ((e : Fault) × (LpMini.process_signal ℤ first_cycle (setup_of first_phase) ≡ faults e)
        × Fails first_cycle first_phase e)
process_signal-Moves_example = process_signal-Moves ℤ first_cycle first_phase
