-- ===== src/FilterChain.antt =====
-- include/filter_chain_control/filter_chain_control.h and src/applications/filter_chain_ctrl.cpp:
-- OSC messages become requests in a queue, and a thread turns each into a parameter of a filter
-- chain's node.
-- `tools::set_props_param` is a call into PipeWire: an effect below. `pw_registry_bind` and the
-- OSC library's reader of the arguments are arguments.
pub mod Name
pub mod Requests
pub mod Delivery
pub mod Cycle
use pmx.Base.{
  ℕ, ◌+◌, ◌%◌, ◌^◌, ltb, if◌then◌else◌, Option, none, some, List, [], ◌∷◌, ◌++◌, Text, codes,
  length, ℤ, pos, negsuc, to_string, Run, returns, faults, runtime_error, ◌>>=◌, Result, ok, err,
  Bool, true, false, ◌==◌, ◌||◌, eq_ℤ, int32_of_long, uint32_of_int,
}
use pmx.Pod.{ArgReader, Packet, Argument, float_argument}
use pmx.Properties.{Property, as_int, as_long, get_from_collection}
use pmx.Parameters.{Parameter}
use pmx.Osc.{
  OscPath, ChannelType, input, group, layer, no_channel, a_layer, b_layer, Layer, parse_osc_path,
}
use pmx.ProxyWatcher.{Watcher, Proxy, get_proxy, client}

pub record Request (R : Type 0) : Type 0 where
  pub path : OscPath
  pub filter_chain_id : ℤ
  pub value : R

-- `boost::lockfree::capacity<128>`: a push into a full queue does nothing, and its result is not
-- looked at.
abbrev pub push : {R : Type 0} → List (Request R) → Request R → List (Request R)
push queue request = if ltb (length queue) 128 then queue ++ request ∷ [] else queue

-- The id of the node: the parameter as an `int`, or as a `long` cut to an `int`.
unfoldable pub find_filter_chain_id : {R : Type 0} → Text → List (Property R) → Run (Option ℤ)
find_filter_chain_id name parameters = do
  filter_chain_id ← get_from_collection as_int name parameters
  elim filter_chain_id [
    | some id ↦ returns (some id)
    | none ↦ do
      fc_long ← get_from_collection as_long name parameters
      elim fc_long [ none ↦ returns none | some long ↦ returns (some (int32_of_long long)) ]
  ]

-- The parameter that holds the node's id, by the type of the channel and the layer.
abbrev pub node_parameter_name : ChannelType → Layer → Option Text
node_parameter_name input l = some (codes "inputChannels")
node_parameter_name group a_layer = some (codes "groupChannelsA")
node_parameter_name group b_layer = some (codes "groupChannelsB")
node_parameter_name layer l = some (codes "layerChannels")
node_parameter_name no_channel l = none

module _ {R : Type 0} (reader : ArgReader R) where
  -- The queue, and what the function returns.
  unfoldable pub get_filter_chain_id_and_add_to_queue :
      Text
      → List (Property R)
      → OscPath
      → Packet R
      → List (Request R)
      → Run (List (Request R) × Bool)
  unfolding find_filter_chain_id
  get_filter_chain_id_and_add_to_queue name parameters osc_path message queue = do
    filter_chain_id ← find_filter_chain_id name parameters
    elim filter_chain_id [
      | none ↦ returns (queue, false)
      | some id ↦ do
        (value, rest) ← reader.float32 message.arguments
        returns (push queue (record { path = osc_path; filter_chain_id = id; value = value }), true)
    ]

  -- The body of the loop for a packet: the queue and `wakeup_consumer`.
  unfoldable pub process_message :
      List (Property R) → Packet R → List (Request R) → Run (List (Request R) × Bool)
  process_message parameters message queue = do
    parsed ← parse_osc_path message.address
    elim parsed [
      | err e ↦ returns (queue, false)
      | ok osc_path ↦ elim (node_parameter_name osc_path.channel_type osc_path.layer) [
        | none ↦ returns (queue, false)
        | some name ↦ get_filter_chain_id_and_add_to_queue name parameters osc_path message queue
      ]
    ]

  -- The loop; `none` is a packet that could not be read.
  unfoldable pub process_packets :
      List (Property R)
      → List (Option (Packet R))
      → List (Request R)
      → Run (List (Request R) × Bool)
  process_packets parameters [] queue = returns (queue, false)
  process_packets parameters (none ∷ packets) queue = process_packets parameters packets queue
  process_packets parameters (some message ∷ packets) queue = do
    (next, woken) ← process_message parameters message queue
    (last, later) ← process_packets parameters packets next
    returns (last, woken || later)

-- The thread's names for the parameters. `device_number` is a `std::uint8_t`.
abbrev pub device_number : Layer → ℕ → ℕ
device_number a_layer channel_id = channel_id % 2 ^ 8
device_number b_layer channel_id = (16 + channel_id) % 2 ^ 8

unfoldable pub parameter_name : OscPath → Option Text
parameter_name path = elim path.channel_type [
  | input ↦ some (
      path.parameter.device_name
      ++ (codes "-"
          ++ (to_string (device_number path.layer path.channel_id)
              ++ (codes ":" ++ path.parameter.name))))
  | group ↦ some (
      path.parameter.device_name
      ++ (codes "-G" ++ (to_string path.channel_id ++ (codes ":" ++ path.parameter.name))))
  | layer ↦ elim path.layer [
    | a_layer ↦ some (path.parameter.device_name ++ (codes "-A:" ++ path.parameter.name))
    | b_layer ↦ some (path.parameter.device_name ++ (codes "-B:" ++ path.parameter.name))
  ]
  | no_channel ↦ none
]

-- `tools::set_props_param(client, loop, parameter_name, value)`.
pub record SetPropsParam (R : Type 0) : Type 0 where
  pub client : ℕ
  pub parameter_name : Text
  pub value : R

-- The proxy that `get_proxy` hands out is shared: what `client` keeps is kept in the watcher.
abbrev pub set_proxy : {R : Type 0} → ℕ → Proxy R → List (Proxy R) → List (Proxy R)
set_proxy id p [] = []
set_proxy id p (q ∷ proxies) = if q.id == id then p ∷ proxies else q ∷ set_proxy id p proxies

abbrev pub set_for : {R : Type 0} → Option ℕ → Text → R → List (SetPropsParam R)
set_for none name value = []
set_for (some c) name value = record { client = c; parameter_name = name; value = value } ∷ []

module _ {R : Type 0} (bind : ℕ → Option ℕ) where
  -- The client of the node's proxy, if both are there.
  unfoldable pub find_client : ℤ → Watcher R → Option ℕ × Watcher R
  unfolding get_proxy client
  find_client filter_chain_id w = elim (get_proxy (uint32_of_int filter_chain_id) w) [
    | none ↦ (none, w)
    | some p ↦
        let (c, kept) = client bind p in
        (c, record w { proxies = set_proxy (uint32_of_int filter_chain_id) kept w.proxies })
  ]

  -- The `switch` of the thread for one request.
  unfoldable pub process_request : Request R → Watcher R → List (SetPropsParam R) × Watcher R
  unfolding find_client
  process_request request w = elim (parameter_name request.path) [
    | none ↦ ([], w)
    | some name ↦
        let (c, kept) = find_client request.filter_chain_id w in
        (set_for c name request.value, kept)
  ]

  -- The inner loop of the thread, which empties the queue.
  unfoldable pub process_queue : List (Request R) → Watcher R → List (SetPropsParam R) × Watcher R
  unfolding process_request
  process_queue [] w = ([], w)
  process_queue (request ∷ queue) w =
      let (calls, kept) = process_request request w in
      let (rest, last) = process_queue queue kept in (calls ++ rest, last)
