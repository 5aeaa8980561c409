-- ===== src/Collections.antt =====
-- src/port_collection.cpp, src/proxy_collection.cpp and src/link_collection.cpp with their headers
-- in include/wpcpp: what WirePlumber announces is read from its properties and appended to a list.
-- A property is looked up by its key, `PW_KEY_...`; a property that is missing is a null pointer.
-- A handler is one call of a collection's `push_back`, under its lock.
pub mod Results
use pmx.Base.{
  Bool, true, false, List, [], ◌∷◌, ◌++◌, Option, none, some, Text, codes, text_eq, stoi, ℤ, pos,
  if◌then◌else◌, Run, returns, faults, out_of_range, undefined, ◌>>=◌,
}

pub data PropertyKey : Type 0 where
  object_id_key object_path_key object_serial_key : PropertyKey
  node_id_key node_name_key : PropertyKey
  port_id_key port_name_key port_alias_key port_group_key : PropertyKey
  port_direction_key port_physical_key port_monitor_key format_dsp_key : PropertyKey
  link_output_port_key link_input_port_key link_output_node_key link_input_node_key : PropertyKey

-- `WpPipewireObject`: its class, and `wp_pipewire_object_get_property`.
pub record WpObject : Type 0 where
  pub is_node : Bool
  pub is_port : Bool
  pub get_property : PropertyKey → Option Text

-- A `std::string` of a pointer, also the one that `std::stoi` makes of its argument.
abbrev pub string_of : Option Text → Run Text
string_of none = faults undefined
string_of (some s) = returns s

-- `std::atoi`: nothing to read gives 0, and a value outside the range is undefined.
unfoldable pub atoi : Text → Run ℤ
atoi s = elim (stoi s) [
  | returns n ↦ returns n
  | faults out_of_range ↦ faults undefined
  | faults _ ↦ returns (pos 0)
]

-- `std::stoi(wp_pipewire_object_get_property(object, key))`.
unfoldable pub int_property : WpObject → PropertyKey → Run ℤ
int_property object key = do s ← string_of (object.get_property key); stoi s

pub record Link : Type 0 where
  pub object_id : ℤ
  pub output_port_id : ℤ
  pub input_port_id : ℤ
  pub output_node_id : ℤ
  pub input_node_id : ℤ

unfoldable pub link_added_callback : WpObject → List Link → Run (List Link)
unfolding int_property
link_added_callback object links = do
  id ← int_property object object_id_key
  output_port_id ← int_property object link_output_port_key
  input_port_id ← int_property object link_input_port_key
  output_node_id ← int_property object link_output_node_key
  input_node_id ← int_property object link_input_node_key
  returns (
      links
      ++ record {
        object_id = id;
        output_port_id = output_port_id;
        input_port_id = input_port_id;
        output_node_id = output_node_id;
        input_node_id = input_node_id;
      }
        ∷ [])

pub data ProxyType : Type 0 where
  port_proxy node_proxy unknown_proxy : ProxyType

pub record WpProxy : Type 0 where
  pub object_id : ℤ
  pub name : Text
  pub path : Text
  pub type : ProxyType
  pub node_id : Option ℤ

abbrev pub safe_string : Option Text → Text
safe_string none = []
safe_string (some s) = s

-- The name, the type and the node of an object; the test for a port comes last.
unfoldable pub kind_of_object : WpObject → Run (Text × ProxyType × Option ℤ)
unfolding int_property
kind_of_object object =
    if object.is_port
    then (do
      node_id ← int_property object node_id_key
      returns (safe_string (object.get_property port_name_key), port_proxy, some node_id))
    else if object.is_node
    then returns (safe_string (object.get_property node_name_key), node_proxy, none)
    else returns ([], unknown_proxy, none)

unfoldable pub proxy_added_callback : WpObject → List WpProxy → Run (List WpProxy)
unfolding kind_of_object atoi
proxy_added_callback object proxies = do
  id_string ← string_of (object.get_property object_id_key)
  object_id ← atoi id_string
  (name, type, node_id) ← kind_of_object object
  returns (
      proxies
      ++ record {
        object_id = object_id;
        name = name;
        path = safe_string (object.get_property object_path_key);
        type = type;
        node_id = node_id;
      }
        ∷ [])

pub data Direction : Type 0 where
  in_port out_port : Direction

pub record PipewirePort : Type 0 where
  pub id : ℤ
  pub name : Text
  pub alias : Text
  pub group : Text
  pub path : Text
  pub dsp_format : Text
  pub node_id : ℤ
  pub direction : Direction
  pub physical : Bool
  pub object_serial : ℤ
  pub is_monitor : Bool

abbrev pub or_unknown : Option Text → Text
or_unknown none = codes "unknown"
or_unknown (some s) = s

abbrev pub is_true : Option Text → Bool
is_true none = false
is_true (some s) = text_eq s (codes "true")

abbrev pub direction_of : Text → Direction
direction_of pw_direction = if text_eq pw_direction (codes "in") then in_port else out_port

unfoldable pub port_added_callback : WpObject → List PipewirePort → Run (List PipewirePort)
unfolding int_property
port_added_callback object ports = do
  id ← int_property object port_id_key
  name ← string_of (object.get_property port_name_key)
  alias ← string_of (object.get_property port_alias_key)
  path ← string_of (object.get_property object_path_key)
  node_id ← int_property object node_id_key
  pw_direction ← string_of (object.get_property port_direction_key)
  object_serial ← int_property object object_serial_key
  returns (
      ports
      ++ record {
        id = id;
        name = name;
        alias = alias;
        group = or_unknown (object.get_property port_group_key);
        path = path;
        dsp_format = or_unknown (object.get_property format_dsp_key);
        node_id = node_id;
        direction = direction_of pw_direction;
        physical = is_true (object.get_property port_physical_key);
        object_serial = object_serial;
        is_monitor = is_true (object.get_property port_monitor_key);
      }
        ∷ [])
