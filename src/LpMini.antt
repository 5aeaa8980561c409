-- ===== src/LpMini.antt =====
-- src/applications/lp_mini_init.cpp: the tasks that set up a Launchpad Mini, one at a time.
-- A time is a number of nanoseconds; the two readings of the clock in a cycle are arguments.
pub mod Phases
pub mod Ending
use pmx.Base.{
  ℕ, ◌+◌, ◌*◌, ◌==◌, ltb, not, ◌&&◌, ◌||◌, if◌then◌else◌, Bool, true, false, List, [], ◌∷◌, ◌++◌,
  Option, none, some, Run, returns, faults, undefined, ◌>>=◌,
}
use pmx.Pod.{InputPod, untested_controls, BuilderCall, ControlType, ump_control, words, entry}
use pmx.Ump.{pack}

pub data TaskType : Type 0 where
  hand_shake enable_session_mode setup_initial_session_state : TaskType

pub record Task : Type 0 where
  pub type : TaskType
  pub last_send_time : Option ℕ

pub record Setup : Type 0 where
  pub tasks : List Task
  pub handshake_response : List ℕ

abbrev pub timeout : ℕ
timeout = 5 * 1000000000

abbrev unsent : TaskType → Task
unsent t = record { type = t; last_send_time = none }

abbrev pub initial : Setup
initial = record {
  tasks = unsent hand_shake ∷ unsent enable_session_mode ∷ unsent setup_initial_session_state ∷ [];
  handshake_response = 806780416 ∷ 807807251 ∷ 808649734 ∷ [];
}

-- `if (!handshake_response.empty() && word == handshake_response.front()) handshake_response.pop()`.
abbrev pub accept : ℕ → List ℕ → List ℕ
accept word [] = []
accept word (r ∷ response) = if word == r then response else r ∷ response

-- The loop over the controls; only messages of two words count.
unfoldable pub read_response : List (ControlType × List ℕ) → List ℕ → List ℕ
read_response [] response = response
read_response ((ump_control, w ∷ v ∷ []) ∷ controls) response =
    read_response controls (accept v (accept w response))
read_response (c ∷ controls) response = read_response controls response

-- What a cycle gets: the input, whether there is an output buffer, and the readings of the clock.
pub record Cycle : Type 0 where
  pub in_buffer : InputPod (ControlType × List ℕ)
  pub out_buffer : Bool
  pub now : ℕ
  pub sent : ℕ

abbrev is_empty : List ℕ → Bool
is_empty [] = true
is_empty (r ∷ response) = false

abbrev pub is_due : Option ℕ → ℕ → Bool
is_due none now = true
is_due (some last) now = ltb (last + timeout) now

abbrev is_some : Option ℕ → Bool
is_some none = false
is_some (some t) = true

module _ (R : Type 0) where
  abbrev Calls : Type 0
  Calls = List (BuilderCall R)

  abbrev pub device_id_request : Calls
  device_id_request = entry ump_control (words (pack 0x30 4 126 127 ∷ pack 6 1 0 0 ∷ []))

  abbrev pub session_state : Calls
  session_state = entry ump_control (words (pack 0x20 0x81 81 144 ∷ []))

  -- `case TaskType::HandShake`.
  unfoldable pub hand_shake_step :
      Cycle → List (ControlType × List ℕ) → Task → List Task → List ℕ → Option Calls × Setup
  unfolding read_response
  hand_shake_step c controls task rest response =
      let after = read_response controls response in
      let send = not (is_empty after) && is_due task.last_send_time c.now in
      let calls = if c.out_buffer then some (if send then device_id_request else []) else none in
      let kept =
        if c.out_buffer && send then record task { last_send_time = some c.sent } else task in
      (
        calls,
        record { tasks = if is_empty after then rest else kept ∷ rest; handshake_response = after },
      )

  -- `case TaskType::EnableSessionMode`: the task is popped once there was a buffer. The second of its
  -- two writes takes 16 bytes from the third of four words, and so reads 8 bytes behind the array.
  unfoldable pub session_mode_step : Cycle → Task → List Task → List ℕ → Run (Option Calls × Setup)
  session_mode_step c task rest response =
      if not c.out_buffer
      then returns (none, record { tasks = task ∷ rest; handshake_response = response })
      else if is_some task.last_send_time
      then returns (some [], record { tasks = rest; handshake_response = response })
      else faults undefined

  -- `case TaskType::SetupInitialSessionState`: the task stays.
  unfoldable pub session_state_step : Cycle → Task → List Task → List ℕ → Option Calls × Setup
  session_state_step c task rest response =
      if not c.out_buffer
      then (none, record { tasks = task ∷ rest; handshake_response = response })
      else if is_some task.last_send_time
      then (some [], record { tasks = task ∷ rest; handshake_response = response })
      else (
        some session_state,
        record {
          tasks = record task { last_send_time = some c.sent } ∷ rest;
          handshake_response = response;
        },
      )

  -- One cycle; `front()` of an empty queue is undefined.
  unfoldable pub process_signal : Cycle → Setup → Run (Option Calls × Setup)
  unfolding hand_shake_step session_mode_step session_state_step
  process_signal c s = elim s.tasks [
    | [] ↦ faults undefined
    | task ∷ rest ↦ elim task.type [
      | hand_shake ↦ do
        controls ← untested_controls c.in_buffer
        returns (hand_shake_step c controls task rest s.handshake_response)
      | enable_session_mode ↦ session_mode_step c task rest s.handshake_response
      | setup_initial_session_state ↦ returns (session_state_step c task rest s.handshake_response)
    ]
  ]
