-- ===== src/Network/Receiver.antt =====
-- src/applications/osc_network_receiver.cpp: a thread pushes the datagrams, and the signal processor
-- empties the queue into the output. The bytes of `source_port` in a log message are left out.
use pmx.Base.{
  Bool, true, false, List, [], ◌∷◌, Option, none, some, Text, stoi, take, ℤ, Run, returns, ◌>>=◌,
}
use pmx.Pod.{ControlType, osc_control}
use pmx.Network.{Bytes, push}

pub record Arguments : Type 0 where
  pub filter_name : Text
  pub port_name : Text
  pub source_port : ℤ

-- `argv`, behind the name of the program.
unfoldable pub read_arguments : List Text → Run (Option Arguments)
read_arguments (filter_name ∷ port_name ∷ source_port ∷ rest) = do
  port ← stoi source_port
  returns (some (record { filter_name = filter_name; port_name = port_name; source_port = port }))
read_arguments _ = returns none

-- `receive_from` into 4096 bytes gives no more of a datagram than that.
unfoldable pub receive : List Bytes → Bytes → List Bytes
unfolding push
receive queue datagram = push queue (take 4096 datagram)

unfoldable pub receive_all : List Bytes → List Bytes → List Bytes
unfolding receive
receive_all queue [] = queue
receive_all queue (datagram ∷ datagrams) = receive_all (receive queue datagram) datagrams

-- `while (queue.pop(message))`: one control for each message.
unfoldable pub drain : List Bytes → List (ControlType × Bytes)
drain [] = []
drain (message ∷ queue) = (osc_control, message) ∷ drain queue

-- What is written, if there is a buffer, and the queue after it.
unfoldable pub process_signal : Bool → List Bytes → Option (List (ControlType × Bytes)) × List Bytes
unfolding drain
process_signal false queue = (none, queue)
process_signal true queue = (some (drain queue), [])
