-- ===== src/Slp.antt =====
-- src/applications/slp_ctrl.cpp: the bridge between SooperLooper, a Launchpad Mini and a MIDI clock.
-- include/slp_ctrl/GroupChannelSooperLoopers.h and include/slp_ctrl/SooperLooper.h, a second version
-- of its states, are in Slp.Loopers. The floating point numbers, of which `literal n` is n and
-- `real_eq` the test `==`, and the OSC library's reader are arguments.
pub mod Input
pub mod Output
pub mod Loopers
pub mod Safety
pub mod Reports
pub mod Lights
use pmx.Base.{ℕ, List, [], ◌∷◌, Bool, if◌then◌else◌, ℤ, Run, returns, faults, runtime_error, Text}
use pmx.Pod.{ArgReader, Argument, float_argument, int_argument, string_argument}

pub data State : Type 0 where
  off wait_start recording wait_stop playing overdubbing multiplying inserting : State
  replacing delay muted scratching one_shot substitute paused unknown : State

pub record SooperLooperState : Type 0 where
  pub state : State
  pub loop_index : ℕ

-- The floating point numbers, and the OSC library's reader.
pub record Libraries : Type 1 where
  pub Real : Type 0
  pub literal : ℕ → Real
  pub real_eq : Real → Real → Bool
  pub reader : ArgReader Real

-- The variables of `main` that the signal processor keeps.
pub record Controller (R : Type 0) : Type 0 where
  pub ppm_count : ℕ
  pub group_channel_loopers : List SooperLooperState
  pub known_eighth_per_cycle : R

abbrev off_at : ℕ → SooperLooperState
off_at i = record { state = off; loop_index = i }

abbrev pub initial_loopers : List SooperLooperState
initial_loopers =
    off_at 0 ∷ off_at 1 ∷ off_at 2 ∷ off_at 3 ∷ off_at 4 ∷ off_at 5 ∷ off_at 6 ∷ off_at 7 ∷ []

module _ (N : Libraries) where
  open N use {Real, literal, real_eq}

  unfoldable pub translate_state : Real → State
  translate_state state =
      if real_eq state (literal 0)
      then off
      else if real_eq state (literal 1)
      then wait_start
      else if real_eq state (literal 2)
      then recording
      else if real_eq state (literal 3)
      then wait_stop
      else if real_eq state (literal 4)
      then playing
      else if real_eq state (literal 5)
      then overdubbing
      else if real_eq state (literal 6)
      then multiplying
      else if real_eq state (literal 7)
      then inserting
      else if real_eq state (literal 8)
      then replacing
      else if real_eq state (literal 9)
      then delay
      else if real_eq state (literal 10)
      then muted
      else if real_eq state (literal 11)
      then scratching
      else if real_eq state (literal 12)
      then one_shot
      else if real_eq state (literal 13)
      then substitute
      else if real_eq state (literal 14)
      then paused
      else unknown
