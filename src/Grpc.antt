-- ===== src/Grpc.antt =====
-- include/grpc/GrpcService.h: the four calls of the service. The metadata of WirePlumber are a list
-- of keys and values; `set_metadata_value` and `clear_metadata_value` of include/wpcpp/metadata.h are
-- effects, listed in their order. The numbers of a request are unsigned.
pub mod Keys
pub mod Listing
pub mod Items
pub mod Published
pub mod Setup
use pmx.Base.{
  ◌<◌, ◌≡◌, ℕ, ◌+◌, ◌-◌, ◌^◌, ◌==◌, ltb, Bool, true, false, ◌||◌, List, [], ◌∷◌, ◌++◌, Option, none,
  some, Text, codes, starts_with, drop, length, to_string, stoi, if◌then◌else◌, ℤ, pos, negsuc, Run,
  returns, faults, ◌>>=◌,
}
use pmx.Metadata.{port_prefix, group_prefix}
use pmx.Collections.{PipewirePort, Direction, in_port, out_port}

pub data MetadataCall : Type 0 where
  set_value : Text → Text → MetadataCall
  clear_value : Text → MetadataCall

pub record SetupInputPortRequest : Type 0 where
  pub channel_id : ℕ
  pub port : Option Text
  pub group_channel_id : Option ℕ

-- The calls, and `success` of the response.
unfoldable pub setup_input_port : SetupInputPortRequest → List MetadataCall × Bool
setup_input_port request = (
  elim request.port [
    | none ↦ []
    | some port ↦ set_value (port_prefix ++ to_string request.channel_id) port ∷ []
  ]
      ++ elim request.group_channel_id [
        | none ↦ []
        | some group ↦
            set_value (group_prefix ++ to_string request.channel_id) (to_string group) ∷ []
      ],
  true,
)

unfoldable pub clear_input_port : ℕ → List MetadataCall × Bool
clear_input_port channel_id = (clear_value (port_prefix ++ to_string channel_id) ∷ [], true)

-- `std::unordered_map<size_t, V>`.
abbrev pub insert : {V : Type 0} → ℕ → V → List (ℕ × V) → List (ℕ × V)
insert k v [] = (k, v) ∷ []
insert k v ((j, w) ∷ m) = if j == k then (k, v) ∷ m else (j, w) ∷ insert k v m

abbrev pub lookup : {V : Type 0} → ℕ → List (ℕ × V) → Option V
lookup k [] = none
lookup k ((j, v) ∷ m) = if j == k then some v else lookup k m

-- An `int` as a `size_t` of 64 bits.
abbrev pub size_of_int : ℤ → ℕ
size_of_int (pos n) = n
size_of_int (negsuc n) = 2 ^ 64 - (n + 1)

pub record Channels : Type 0 where
  pub ports : List (ℕ × Text)
  pub groups : List (ℕ × ℕ)

-- The body of the loop over the metadata, and the loop.
unfoldable pub read_item : Text × Text → Channels → Run Channels
read_item (key, value) channels =
    if starts_with key port_prefix
    then (do
      channel_id ← stoi (drop (length port_prefix) key)
      returns (record channels { ports = insert (size_of_int channel_id) value channels.ports }))
    else if starts_with key group_prefix
    then (do
      channel_id ← stoi (drop (length group_prefix) key)
      group ← stoi value
      returns (record channels {
        groups = insert (size_of_int channel_id) (size_of_int group) channels.groups;
      }))
    else returns channels

unfoldable pub read_items : List (Text × Text) → Channels → Run Channels
unfolding read_item
read_items [] channels = returns channels
read_items (item ∷ items) channels = do next ← read_item item channels; read_items items next

-- Into a sorted list of different numbers: the set of the keys and `std::sort` in one.
unfoldable pub insert_key : ℕ → List ℕ → List ℕ
insert_key k [] = k ∷ []
insert_key k (j ∷ keys) =
    let rest = insert_key k keys in
    if k == j then j ∷ keys else if ltb k j then k ∷ j ∷ keys else j ∷ rest

unfoldable pub insert_keys : {V : Type 0} → List (ℕ × V) → List ℕ → List ℕ
unfolding insert_key
insert_keys [] keys = keys
insert_keys ((k, v) ∷ m) keys = insert_key k (insert_keys m keys)

pub record InputPortSetup : Type 0 where
  pub channel_id : ℕ
  pub port : Option Text
  pub group_channel_id : Option ℕ

-- What the integer fields of the response keep of a `size_t`. Their width is set by the protocol
-- file, which is not in the repository; protobuf's integers have at least 32 bits.
pub record ResponseField : Type 0 where
  pub keep : ℕ → ℕ
  pub keep_small : (n : ℕ) → n < 2 ^ 31 → keep n ≡ n

abbrev pub keep_some : ResponseField → Option ℕ → Option ℕ
keep_some field none = none
keep_some field (some n) = some (field.keep n)

unfoldable pub setups_of : ResponseField → List ℕ → Channels → List InputPortSetup
setups_of field [] channels = []
setups_of field (key ∷ keys) channels =
    record {
      channel_id = field.keep key;
      port = lookup key channels.ports;
      group_channel_id = keep_some field (lookup key channels.groups);
    }
    ∷ setups_of field keys channels

abbrev pub no_channels : Channels
no_channels = record { ports = []; groups = [] }

unfoldable pub list_input_ports_setup :
    ResponseField → List (Text × Text) → Run (List InputPortSetup)
unfolding read_items insert_keys setups_of
list_input_ports_setup field metadata = do
  channels ← read_items metadata no_channels
  returns (setups_of field (insert_keys channels.groups (insert_keys channels.ports [])) channels)

pub data PortDirection : Type 0 where
  in_direction out_direction unknown_direction : PortDirection

pub record ResponsePort : Type 0 where
  pub id : ℤ
  pub node_id : ℤ
  pub object_serial : ℤ
  pub name : Text
  pub direction : PortDirection
  pub physical : Bool
  pub alias : Text
  pub group : Text
  pub path : Text
  pub dsp_format : Text
  pub is_monitor : Bool

abbrev pub response_direction : Direction → PortDirection
response_direction in_port = in_direction
response_direction out_port = out_direction

unfoldable pub list_ports : List PipewirePort → List ResponsePort
list_ports [] = []
list_ports (port ∷ ports) =
    record {
      id = port.id;
      node_id = port.node_id;
      object_serial = port.object_serial;
      name = port.name;
      direction = response_direction port.direction;
      physical = port.physical;
      alias = port.alias;
      group = port.group;
      path = port.path;
      dsp_format = port.dsp_format;
      is_monitor = port.is_monitor;
    }
    ∷ list_ports ports
