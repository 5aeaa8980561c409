-- ===== src/Slp/Input.antt =====
-- What the signal processor of src/applications/slp_ctrl.cpp reads from its three input ports.
use pmx.Base.{
  ℕ, zero, suc, ◌+◌, ◌%◌, ◌^◌, ◌==◌, ◌&&◌, Bool, true, List, [], ◌∷◌, ◌++◌, Option, none, some,
  codes, text_eq, ltb, if◌then◌else◌, uint32_of_int, Run, returns, faults, undefined, ◌>>=◌,
}
use pmx.Pod.{Packet, ControlType, ump_control}
use pmx.Slp.{State, Libraries, Controller, SooperLooperState, translate_state}

pub record StateUpdate : Type 0 where
  pub loop_index : ℕ
  pub state : State

-- `if (state_update.loop_index < 8) group_channel_loopers[...].state = ...`; a place outside the array
-- is undefined behaviour.
abbrev pub set_state : State → SooperLooperState → SooperLooperState
set_state state looper = record looper { state = state }

abbrev pub update_at : List SooperLooperState → ℕ → State → Run (List SooperLooperState)
update_at [] i state = faults undefined
update_at (looper ∷ loopers) zero state = returns (set_state state looper ∷ loopers)
update_at (looper ∷ loopers) (suc i) state = do
  rest ← update_at loopers i state
  returns (looper ∷ rest)

unfoldable pub apply_updates :
    List StateUpdate → List SooperLooperState → Run (List SooperLooperState)
apply_updates [] loopers = returns loopers
apply_updates (u ∷ updates) loopers = do
  next ← if ltb u.loop_index 8 then update_at loopers u.loop_index u.state else returns loopers
  apply_updates updates next

module _ (N : Libraries) where
  open N use {Real}

  -- One message: the new count, if it is one, and the state update, if it is one.
  unfoldable pub read_message : Packet Real → Run (Option Real × List StateUpdate)
  read_message message =
      if text_eq message.address (codes "/sl/global")
      then (do
        (huh, after_int) ← N.reader.int32 message.arguments
        (parameter_name, after_string) ← N.reader.string after_int
        (value, rest) ← N.reader.float32 after_string
        returns
            (if text_eq parameter_name (codes "eighth_per_cycle") then some value else none, []))
      else if text_eq message.address (codes "/sl/loops")
      then (do
        (loop_index, after_int) ← N.reader.int32 message.arguments
        (parameter_name, after_string) ← N.reader.string after_int
        (value, rest) ← N.reader.float32 after_string
        returns (
          none,
          if text_eq parameter_name (codes "state")
              then record { loop_index = uint32_of_int loop_index; state = translate_state N value }
                ∷ []
              else [],
        ))
      else returns (none, [])

  abbrev pub or_known : Option Real → Real → Real
  or_known none known = known
  or_known (some value) known = value

  unfoldable pub read_messages : List (Option (Packet Real)) → Real → Run (Real × List StateUpdate)
  unfolding read_message
  read_messages [] known = returns (known, [])
  read_messages (none ∷ packets) known = read_messages packets known
  read_messages (some message ∷ packets) known = do
    (count, update) ← read_message message
    (last, updates) ← read_messages packets (or_known count known)
    returns (last, update ++ updates)

  -- The first port; `none` is a buffer whose packets could not be read, or none at all.
  unfoldable pub read_osc :
      Option (List (Option (Packet Real))) → Controller Real → Run (Controller Real)
  unfolding read_messages apply_updates
  read_osc none c = returns c
  read_osc (some packets) c = do
    (known, updates) ← read_messages packets c.known_eighth_per_cycle
    loopers ← apply_updates updates c.group_channel_loopers
    returns (record c { group_channel_loopers = loopers; known_eighth_per_cycle = known })

-- A control of a sequence, with the words of its body.
abbrev pub Control : Type 0
Control = ControlType × List ℕ

-- `std::set<int>`: in order, each once.
unfoldable pub insert : ℕ → List ℕ → List ℕ
insert n [] = n ∷ []
insert n (m ∷ ms) = if ltb n m then n ∷ m ∷ ms else if n == m then m ∷ ms else m ∷ insert n ms

-- The presses that are registered, and whether to switch to the mixer mode.
pub record Presses : Type 0 where
  pub registered_loop_ctrl_presses : List ℕ
  pub switch_to_mixer_mode : Bool

abbrev pub press : ℕ → Presses → Presses
press n p = record p { registered_loop_ctrl_presses = insert n p.registered_loop_ctrl_presses }

-- A message of two words. The faders are only logged.
unfoldable pub read_pad : ℕ → ℕ → Presses → Presses
unfolding insert
read_pad w v p =
    if (w == 1082151168) && (v == 0)
    then press 0 p
    else if (w == 1082151424) && (v == 0)
    then press 1 p
    else if (w == 1082151680) && (v == 0)
    then press 2 p
    else if (w == 1082151936) && (v == 0)
    then press 3 p
    else if (w == 1082152192) && (v == 0)
    then press 4 p
    else if (w == 1082152448) && (v == 0)
    then press 5 p
    else if (w == 1082152704) && (v == 0)
    then press 6 p
    else if (w == 1082152960) && (v == 0)
    then press 7 p
    else if (w == 1085298944) && (v == 0)
    then record p { switch_to_mixer_mode = true }
    else p

unfoldable pub read_lp_mini : List Control → Presses → Presses
unfolding read_pad
read_lp_mini [] p = p
read_lp_mini ((ump_control, w ∷ v ∷ []) ∷ controls) p = read_lp_mini controls (read_pad w v p)
read_lp_mini (c ∷ controls) p = read_lp_mini controls p

-- The clock: a start resets the count, a pulse adds one to the `uint64_t`.
unfoldable pub read_clock : List Control → ℕ → ℕ
read_clock [] ppm_count = ppm_count
read_clock ((ump_control, w ∷ []) ∷ controls) ppm_count =
    read_clock controls
      (if w == 284884992 then 0 else if w == 284688384 then (ppm_count + 1) % 2 ^ 64 else ppm_count)
read_clock (c ∷ controls) ppm_count = read_clock controls ppm_count
