-- ===== src/Network.antt =====
-- src/applications/osc_network_sender.cpp and src/applications/osc_network_receiver.cpp: OSC packets
-- from the graph go out by UDP, and datagrams come in as packets of the graph. The bytes of a packet
-- are all that these two programs see. Sockets, the filter and the parsing of the command line by
-- PipeWire are left out.
pub mod Sender
pub mod Receiver
pub mod Relay
use pmx.Base.{
  ℕ, ◌+◌, ltb, leb, Bool, true, false, List, [], ◌∷◌, ◌++◌, Option, none, some, Text, codes,
  text_eq, stoi, length, if◌then◌else◌, ℤ, pos, negsuc, Run, returns, faults, undefined,
  bad_variant_access, ◌>>=◌,
}
use pmx.Pod.{ControlType, osc_control, ump_control, other_control}

-- `queue_message`: the bytes up to `size`.
abbrev pub Bytes : Type 0
Bytes = List ℕ

-- `boost::lockfree::spsc_queue<queue_message> queue(128)`: a full queue takes nothing, and what
-- `push` returns is not looked at.
unfoldable pub push : List Bytes → Bytes → List Bytes
push queue message = if ltb (length queue) 128 then queue ++ message ∷ [] else queue

abbrev pub is_osc : ControlType → Bool
is_osc osc_control = true
is_osc ump_control = false
is_osc other_control = false

-- `std::copy_n` into the 4096 bytes of a message.
unfoldable pub copy_message : Bytes → Run Bytes
copy_message body = if leb (length body) 4096 then returns body else faults undefined
