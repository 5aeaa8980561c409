-- ===== src/CtrlPipe.antt =====
-- src/applications/ctrl_pipe.cpp: the signal processor that passes controls on.
use pmx.Base.{ℕ, Bool, true, false, List, [], ◌∷◌}
use pmx.Pod.{ControlType}

abbrev pub Control : Type 0
Control = ControlType × List ℕ

pub data Input : Type 0 where
  no_pod other_pod : Input
  sequence : List Control → Input

-- What becomes of the output: there is no buffer, the buffer is taken and never given back, or it is
-- filled with a sequence.
pub data Output : Type 0 where
  no_buffer left_open : Output
  finished : List Control → Output

-- The loop over the controls: the offset of each becomes 0.
unfoldable pub copy_controls : List Control → List Control
copy_controls [] = []
copy_controls ((type, body) ∷ controls) = (type, body) ∷ copy_controls controls

unfoldable pub process_signal : Bool → Input → Output
unfolding copy_controls
process_signal false input = no_buffer
process_signal true no_pod = finished []
process_signal true other_pod = left_open
process_signal true (sequence controls) = finished (copy_controls controls)
