-- ===== src/Slp/Loopers.antt =====
-- include/slp_ctrl/GroupChannelSooperLoopers.h: the class that reads SooperLooper's messages into
-- eight loopers. Its `translate_state` is the text of the one in src/applications/slp_ctrl.cpp.
-- An index outside the array is undefined behaviour; a negative one becomes a large `size_t`.
use pmx.Base.{
  List, [], ◌∷◌, Option, none, some, codes, text_eq, if◌then◌else◌, get_elem?, set, ℤ, pos, negsuc,
  Run, returns, faults, undefined, runtime_error, ◌>>=◌,
}
use pmx.Pod.{Packet, ControlType, osc_control}
use pmx.Slp.{State, Libraries, SooperLooperState, translate_state}

pub record GroupLoopers (R : Type 0) : Type 0 where
  pub loopers : List SooperLooperState
  pub known_eighth_per_cycle : R

-- `_loopers[loop_index].set_state(state)`.
unfoldable pub set_state_at : List SooperLooperState → ℤ → State → Run (List SooperLooperState)
set_state_at loopers (negsuc n) state = faults undefined
set_state_at loopers (pos i) state = elim (get_elem? loopers i) [
  | none ↦ faults undefined
  | some looper ↦ returns (set loopers i (record looper { state = state }))
]

module _ (N : Libraries) where
  open N use {Real}

  -- The body of the loop for an OSC message.
  unfoldable pub update_state : Packet Real → GroupLoopers Real → Run (GroupLoopers Real)
  unfolding set_state_at
  update_state message g =
      if text_eq message.address (codes "/sl/global")
      then (do
        (huh, after_int) ← N.reader.int32 message.arguments
        (parameter_name, after_string) ← N.reader.string after_int
        (value, rest) ← N.reader.float32 after_string
        returns (
            if text_eq parameter_name (codes "eighth_per_cycle")
            then record g { known_eighth_per_cycle = value }
            else g))
      else if text_eq message.address (codes "/sl/loops")
      then (do
        (loop_index, after_int) ← N.reader.int32 message.arguments
        (parameter_name, after_string) ← N.reader.string after_int
        (value, rest) ← N.reader.float32 after_string
        if text_eq parameter_name (codes "state")
            then (do
              loopers ← set_state_at g.loopers loop_index (translate_state N value)
              returns (record g { loopers = loopers }))
            else returns g)
      else returns g

  -- The body of a control: a pod that is no bytes, bytes that the OSC library does not take as a
  -- message, or a message.
  pub data Body : Type 0 where
    not_bytes malformed : Body
    osc_message : Packet Real → Body

  -- The result of `spa_pod_get_bytes` is not looked at, and `length` has no value if it fails.
  abbrev pub message_of : Body → Run (Packet Real)
  message_of not_bytes = faults undefined
  message_of malformed = faults runtime_error
  message_of (osc_message message) = returns message

  -- The loop over the sequence's controls, of which only OSC messages are read.
  unfoldable pub update_states :
      List (ControlType × Body) → GroupLoopers Real → Run (GroupLoopers Real)
  unfolding update_state
  update_states [] g = returns g
  update_states ((osc_control, body) ∷ controls) g = do
    message ← message_of body
    next ← update_state message g
    update_states controls next
  update_states (c ∷ controls) g = update_states controls g

  -- The first pod of the buffer: there may be none, and it may be no sequence.
  unfoldable pub update_from :
      Option (Option (List (ControlType × Body))) → GroupLoopers Real → Run (GroupLoopers Real)
  unfolding update_states
  update_from none g = returns g
  update_from (some none) g = returns g
  update_from (some (some controls)) g = update_states controls g
