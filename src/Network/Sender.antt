-- ===== src/Network/Sender.antt =====
-- src/applications/osc_network_sender.cpp.
use pmx.Base.{
  ◌≡◌, Bool, true, false, List, [], ◌∷◌, ◌++◌, Option, none, some, Text, codes, stoi, if◌then◌else◌,
  ℤ, Run, returns, faults, bad_variant_access, ◌>>=◌,
}
use pmx.Pod.{ControlType}
use pmx.Properties.{Property, find_property, as_string, as_int}
use pmx.Network.{Bytes, push, is_osc, copy_message}

-- The loop over the controls of the sequence: the queue, and whether the thread is notified.
unfoldable pub process_controls : List (ControlType × Bytes) → List Bytes → Run (List Bytes × Bool)
unfolding push copy_message
process_controls [] queue = returns (queue, false)
process_controls ((type, body) ∷ controls) queue =
    if is_osc type
    then (do
      message ← copy_message body
      (last, woken) ← process_controls controls (push queue message)
      returns (last, true))
    else process_controls controls queue

-- What the input port holds: no buffer or pod, a pod that is no sequence, or a sequence.
pub data Input : Type 0 where
  no_pod other_pod : Input
  sequence : List (ControlType × Bytes) → Input

unfoldable pub process_signal : Input → List Bytes → Run (List Bytes × Bool)
unfolding process_controls
process_signal no_pod queue = returns (queue, false)
process_signal other_pod queue = returns (queue, false)
process_signal (sequence controls) queue = process_controls controls queue

-- `argv`, behind the name of the program: fewer than four arguments are an error.
pub record Arguments : Type 0 where
  pub filter_name : Text
  pub port_name : Text
  pub target_address : Text
  pub target_port : ℤ

unfoldable pub read_arguments : List Text → Run (Option Arguments)
read_arguments (filter_name ∷ port_name ∷ target_address ∷ target_port ∷ rest) = do
  port ← stoi target_port
  returns (
      some (record {
        filter_name = filter_name;
        port_name = port_name;
        target_address = target_address;
        target_port = port;
      }))
read_arguments _ = returns none

-- The three parameters that the thread looks up before its loop; `none` is one that is missing. The
-- address and the port must be of their types.
pub record Target : Type 0 where
  pub ip_address : Text
  pub port : ℤ

abbrev or_throw : {A : Type 0} → Option A → Run A
or_throw none = faults bad_variant_access
or_throw (some a) = returns a

unfoldable pub find_target : {R : Type 0} → List (Property R) → Run (Option Target)
find_target parameters = elim (find_property (codes "target.ip_address") parameters) [
  | none ↦ returns none
  | some address ↦ elim (find_property (codes "target.port") parameters) [
    | none ↦ returns none
    | some port ↦ elim (find_property (codes "target.protocol") parameters) [
      | none ↦ returns none
      | some protocol ↦ do
        ip_address ← or_throw (as_string address.1)
        port_number ← or_throw (as_int port.1)
        returns (some (record { ip_address = ip_address; port = port_number }))
    ]
  ]
]

-- The thread: it pops, or it has found the queue empty and goes to sleep, or it sleeps.
pub data Phase : Type 0 where
  popping falling_asleep sleeping : Phase

pub record Sender : Type 0 where
  pub queue : List Bytes
  pub phase : Phase
  -- what has been given to the socket, in order
  pub sent : List Bytes

-- One round of the loop of the thread, up to the pop and what follows it. `udp` is whether the
-- protocol is the only one that is known; else the message is dropped.
unfoldable pub pop : Bool → Sender → Sender
pop udp s = elim s.queue [
  | [] ↦ record s { phase = falling_asleep }
  | message ∷ rest ↦ record s {
    queue = rest;
    sent = if udp then s.sent ++ message ∷ [] else s.sent;
  }
]

abbrev notified : Phase → Phase
notified popping = popping
notified falling_asleep = falling_asleep
notified sleeping = popping

-- `queue.push` and `notify_all`: only a thread that sleeps is woken.
unfoldable pub arrive : Bytes → Sender → Sender
unfolding push
arrive message s = record s { queue = push s.queue message; phase = notified s.phase }

-- The steps of the two threads. `wait` has no predicate.
pub data Step (udp : Bool) : Sender → Sender → Type 0 where
  arrives : (s : Sender) (message : Bytes) → Step udp s (arrive message s)
  pops : (s : Sender) → s.phase ≡ popping → Step udp s (pop udp s)
  sleeps : (s : Sender) → s.phase ≡ falling_asleep → Step udp s (record s { phase = sleeping })
  wakes : (s : Sender) → s.phase ≡ sleeping → Step udp s (record s { phase = popping })
