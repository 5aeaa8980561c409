-- ===== src/Slp/Lights.antt =====
-- What a cycle of src/applications/slp_ctrl.cpp writes.
use pmx.Base.{
  length, ◌⊎◌, Fault, faults, Run-cases, get_elem?-within, ℕ, ◌+◌, ◌≡◌, refl, arith, Bool, true,
  false, not, List, [], ◌∷◌, ◌++◌, Option, none, some, if◌then◌else◌, Bool-cases, inl, inr, returns,
}
use pmx.Pod.{
  untested_controls, Packet, packet, entry, BuilderCall, is_sequence, is_sequence-append,
  osc_control,
}
use pmx.Slp.{SooperLooperState, Libraries, Controller}
use pmx.Slp.Reports.{apply_updates-last_state}
use pmx.Slp.Input.{read_messages, read_clock, Control, read_lp_mini, read_osc}
use pmx.Slp.Output.{
  hits, looper_light, looper_lights, bar_lights, bar_to_cc_mapping, write_lp_mini, write_osc,
  write_mixer, Buffers, process_signal, no_presses,
}

module _ (R : Type 0) where
  looper_light-is_sequence :
      (looper : SooperLooperState) → is_sequence (looper_light {R = R} looper) ≡ true
  unfolding looper_light
  looper_light-is_sequence looper = ground arith

  looper_lights-is_sequence :
      (loopers : List SooperLooperState) → is_sequence (looper_lights {R = R} loopers) ≡ true
  looper_lights-is_sequence [] = refl
  looper_lights-is_sequence (looper ∷ loopers) =
      is_sequence-append (looper_light looper) (looper_lights loopers)
        (looper_light-is_sequence looper) (looper_lights-is_sequence loopers)

  bar_lights-is_sequence :
      (n i : ℕ) (ccs : List ℕ) → is_sequence (bar_lights {R = R} n i ccs) ≡ true
  unfolding bar_lights
  bar_lights-is_sequence n i [] = refl
  bar_lights-is_sequence n i (c ∷ ccs) = bar_lights-is_sequence n (i + 1) ccs

  if_is_sequence :
      (b : Bool) (p : Packet R)
      → is_sequence (if b then entry osc_control (packet p) else []) ≡ true
  if_is_sequence true p = refl
  if_is_sequence false p = refl

  hits-is_sequence : (presses : List ℕ) → is_sequence (hits {R = R} presses) ≡ true
  hits-is_sequence [] = refl
  hits-is_sequence (i ∷ presses) = hits-is_sequence presses

  write_mixer-returns :
      (on : Bool)
      → (mixer : List (BuilderCall R)) × (write_mixer on ≡ returns mixer)
        × (is_sequence mixer ≡ true)
  unfolding write_mixer
  write_mixer-returns false = ([], refl, refl)
  write_mixer-returns true = (_, refl, refl)

  lights-is_sequence :
      (loopers : List SooperLooperState) (n : ℕ) (mixer : List (BuilderCall R))
      → is_sequence mixer ≡ true
      → is_sequence (looper_lights loopers ++ (bar_lights n 0 bar_to_cc_mapping ++ mixer)) ≡ true
  lights-is_sequence loopers n mixer h =
      is_sequence-append {R = R} (looper_lights loopers) (bar_lights n 0 bar_to_cc_mapping ++ mixer)
        (looper_lights-is_sequence loopers)
        (is_sequence-append {R = R} (bar_lights n 0 bar_to_cc_mapping) mixer
          (bar_lights-is_sequence n 0 bar_to_cc_mapping) h)

  -- The lights are written whatever the state: every array of bytes has between 1 and 6 of them.
  write_lp_mini-returns :
      (loopers : List SooperLooperState) (n : ℕ) (on : Bool)
      → (calls : List (BuilderCall R)) × (write_lp_mini loopers n on ≡ returns calls)
        × (is_sequence calls ≡ true)
  unfolding write_lp_mini
  write_lp_mini-returns loopers n on =
      let (mixer, e, h) = write_mixer-returns on in
      (
        looper_lights loopers ++ (bar_lights n 0 bar_to_cc_mapping ++ mixer),
        rw e refl,
        lights-is_sequence loopers n mixer h,
      )

module _ (N : Libraries) where
  open N use {Real}

  write_osc-is_sequence :
      (presses : List ℕ) (known : Real) → is_sequence (write_osc N presses known) ≡ true
  unfolding write_osc
  write_osc-is_sequence presses known =
      is_sequence-append (hits presses) _ (hits-is_sequence Real presses)
        (if_is_sequence Real (not (N.real_eq known (N.literal 64))) _)

  -- What is written to an output, if there is a buffer.
  abbrev pub IsWritten : Option (List (BuilderCall Real)) → Type 0
  IsWritten none = Unit
  IsWritten (some calls) = is_sequence calls ≡ true

  IsWritten-if :
      (there : Bool) (calls : List (BuilderCall Real))
      → is_sequence calls ≡ true
      → IsWritten (if there then some calls else none)
  IsWritten-if true calls h = h
  IsWritten-if false calls h = tt

  -- Reading the inputs throws: at the arguments of a message of SooperLooper, or at a buffer of the
  -- Launchpad or of the clock that holds no sequence.
  abbrev pub InputFault : Buffers N → Controller Real → Fault → Type 0
  InputFault b before e =
      ((packets : List (Option (Packet Real))) × (b.sl_osc ≡ some packets)
        × (read_messages N packets before.known_eighth_per_cycle ≡ faults e))
      ⊎ ((untested_controls b.lp_mini ≡ faults e) ⊎ (untested_controls b.midi_clock ≡ faults e))

  read_osc-outcome :
      (osc : Option (List (Option (Packet Real)))) (before : Controller Real)
      → length before.group_channel_loopers ≡ 8
      → ((c : Controller Real) × (read_osc N osc before ≡ returns c)
          × (length c.group_channel_loopers ≡ 8))
        ⊎ ((e : Fault) × (packets : List (Option (Packet Real))) × (osc ≡ some packets)
            × (read_messages N packets before.known_eighth_per_cycle ≡ faults e)
            × (read_osc N osc before ≡ faults e))
  unfolding read_osc
  read_osc-outcome none before eight = inl (before, refl, eight)
  read_osc-outcome (some packets) before eight =
      elim (Run-cases (read_messages N packets before.known_eighth_per_cycle)) [
        | inr (e, thrown) ↦ inr (e, packets, refl, thrown, rw thrown refl)
        | inl ((known, updates), read) ↦
            let (first, there) = get_elem?-within before.group_channel_loopers 0 (omega arith) in
            let (after, done, still, found) =
              apply_updates-last_state 0 updates before.group_channel_loopers first eight there in
            inl (
              record before { group_channel_loopers = after; known_eighth_per_cycle = known },
              rw (read, done) refl,
              still,
            )
      ]

  -- With eight loopers, a cycle returns, still has eight loopers, and what it writes to each of the
  -- two outputs is a well-formed sequence; or it throws what reading one of its inputs throws.
  pub process_signal-IsWritten :
      (b : Buffers N) (before : Controller Real)
      → length before.group_channel_loopers ≡ 8
      → ((osc lights : Option (List (BuilderCall Real))) × (after : Controller Real)
          × (process_signal N b before ≡ returns (osc, lights, after))
          × (length after.group_channel_loopers ≡ 8)
          × IsWritten osc
          × IsWritten lights)
        ⊎ ((e : Fault) × (process_signal N b before ≡ faults e) × InputFault b before e)
  unfolding process_signal
  process_signal-IsWritten b before eight = elim (read_osc-outcome b.sl_osc before eight) [
    | inr (e, packets, given, thrown, stops) ↦ inr (e, rw stops refl, inl (packets, given, thrown))
    | inl (c, h, still) ↦ elim (Run-cases (untested_controls b.lp_mini)) [
      | inr (e, thrown) ↦ inr (e, rw (h, thrown) refl, inr (inl thrown))
      | inl (pads, read) ↦ elim (Run-cases (untested_controls b.midi_clock)) [
        | inr (e, thrown) ↦ inr (e, rw (h, read, thrown) refl, inr (inr thrown))
        | inl (clock, heard) ↦ inl (written c pads clock h still read heard)
      ]
    ]
  ]
    where
      written :
          (c : Controller Real) (pads clock : List Control)
          → read_osc N b.sl_osc before ≡ returns c
          → length c.group_channel_loopers ≡ 8
          → untested_controls b.lp_mini ≡ returns pads
          → untested_controls b.midi_clock ≡ returns clock
          → (osc lights : Option (List (BuilderCall Real))) × (after : Controller Real)
            × (process_signal N b before ≡ returns (osc, lights, after))
            × (length after.group_channel_loopers ≡ 8)
            × IsWritten osc
            × IsWritten lights
      written c pads clock h still read heard =
          let presses = read_lp_mini pads (no_presses N) in
          let (calls, e, formed) =
            write_lp_mini-returns Real c.group_channel_loopers (read_clock clock c.ppm_count)
              presses.switch_to_mixer_mode in
          let o = write_osc N presses.registered_loop_ctrl_presses c.known_eighth_per_cycle in
          (
            if b.sl_osc_out then some o else none,
            if b.lp_mini_out then some calls else none,
            record c { ppm_count = read_clock clock c.ppm_count },
            elim (Bool-cases b.lp_mini_out) [
              | inl there ↦ rw (h, read, heard, there, e) refl
              | inr missing ↦ rw (h, read, heard, missing) refl
            ],
            still,
            IsWritten-if b.sl_osc_out o (
                write_osc-is_sequence presses.registered_loop_ctrl_presses
                  c.known_eighth_per_cycle),
            IsWritten-if b.lp_mini_out calls formed,
          )
