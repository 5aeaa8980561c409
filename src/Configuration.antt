-- ===== src/Configuration.antt =====
-- src/config.cpp: where the configuration of the channels is kept, and how it is read and written.
-- yaml-cpp, the file system and the environment are arguments. A file holds a document; a YAML node
-- is what yaml-cpp makes of one.
pub mod Keys
pub mod Nodes
pub mod RoundTrip
use pmx.Base.{
  ℕ, zero, suc, ◌+◌, ◌≡◌, Bool, true, false, List, [], ◌∷◌, ◌++◌, Option, none, some, Text, codes,
  text_eq, to_string, if◌then◌else◌, replicate, ℤ, pos, uint8_of_int, Run, returns, faults,
  runtime_error, ◌>>=◌,
}
use pmx.Metadata.{Config, port_prefix, group_prefix}

-- `YAML::Node`. A subscript throws on a node that is no map; `as` throws on a value of another type.
pub record Yaml : Type 1 where
  pub Node : Type 0
  pub Document : Type 0
  pub undefined_node : Node
  pub map_node : Node
  pub null_node : Node
  pub string_node : Text → Node
  pub int_node : ℤ → Node
  pub is_map : Node → Bool
  pub is_null : Node → Bool
  pub subscript : Node → Text → Run (Option Node)
  pub assign : Node → Text → Node → Node
  pub as_string : Node → Run Text
  pub as_int : Node → Run ℤ
  pub literal : Text → Document
  pub load : Document → Run Node
  pub emit : Node → Document
  pub is_map_of_map : is_map map_node ≡ true
  pub is_map-assign : (n : Node) (k : Text) (v : Node) → is_map (assign n k v) ≡ true
  pub subscript_of_map : (k : Text) → subscript map_node k ≡ returns none
  pub subscript-assign :
      (n : Node) (k j : Text) (v : Node)
      → is_map n ≡ true
      → subscript (assign n k v) j ≡ (if text_eq k j then returns (some v) else subscript n j)
  pub assign_to_undefined : (k : Text) (v : Node) → assign undefined_node k v ≡ assign map_node k v
  pub is_null_of_null : is_null null_node ≡ true
  pub is_null_of_string : (s : Text) → is_null (string_node s) ≡ false
  pub is_null_of_int : (n : ℤ) → is_null (int_node n) ≡ false
  pub as_string_of_string : (s : Text) → as_string (string_node s) ≡ returns s
  pub as_int_of_int : (n : ℤ) → as_int (int_node n) ≡ returns n
  pub load-emit : (n : Node) → is_map n ≡ true → load (emit n) ≡ returns n

-- `std::filesystem`, `YAML::LoadFile` up to the parse, and `std::ofstream`, which is opened, written
-- and closed in one call: `none` where it does not open.
pub record FileSystem (Document : Type 0) : Type 1 where
  pub State : Type 0
  pub exists : Text → State → Bool
  pub create_directory : Text → State → Run (Bool × State)
  pub read_file : Text → State → Run Document
  pub write_file : Text → Document → State → Option State
  pub exists-create_directory :
      (p : Text) (s t : State) (b : Bool)
      → create_directory p s ≡ returns (b, t)
      → exists p t ≡ true
  pub exists-write_file :
      (p : Text) (d : Document) (s t : State) → write_file p d s ≡ some t → exists p t ≡ true
  pub exists-write_file_kept :
      (p q : Text) (d : Document) (s t : State)
      → write_file p d s ≡ some t
      → exists q s ≡ true
      → exists q t ≡ true
  pub read_file-write_file :
      (p : Text) (d : Document) (s t : State)
      → write_file p d s ≡ some t
      → read_file p t ≡ returns d

-- The text of the first configuration: no ports, and every channel in group 1.
initial_lines : Text → Text → ℕ → ℕ → Text
initial_lines prefix value zero index = []
initial_lines prefix value (suc n) index =
    codes "  "
    ++ (prefix ++ (to_string index ++ (value ++ initial_lines prefix value n (index + 1))))

unfoldable pub initial_config : Text
unfolding initial_lines
initial_config =
    codes "\ninput_channels:\n"
    ++ (initial_lines port_prefix (codes ": null\n") 32 1
        ++ (codes "input_channel_groups:\n" ++ initial_lines group_prefix (codes ": 1\n") 32 1))

-- `getenv` is an argument.
unfoldable pub get_config_directory : (Text → Option Text) → Text → Run Text
get_config_directory getenv application_name = elim (getenv (codes "XDG_CONFIG_HOME")) [
  | some config_dir ↦ returns (config_dir ++ (codes "/" ++ application_name))
  | none ↦ elim (getenv (codes "HOME")) [
    | some home_dir ↦ returns (home_dir ++ (codes "/.config/" ++ application_name))
    | none ↦ faults runtime_error
  ]
]

abbrev pub input_channels_key : Text
input_channels_key = codes "input_channels"

abbrev pub groups_key : Text
groups_key = codes "input_channel_groups"

module _ (Y : Yaml) where
  open Y use {
    Node, undefined_node, map_node, null_node, string_node, int_node, is_null, subscript, assign,
    as_string, as_int,
  }

  -- `if (node && !node.IsNull())` in the two loops of `read_config`.
  unfoldable pub read_port : Option Node → Run (Option Text)
  read_port none = returns none
  read_port (some node) =
      if is_null node then returns none else (do port ← as_string node; returns (some port))

  unfoldable pub read_group : Option Node → Run ℕ
  read_group none = returns 1
  read_group (some node) =
      if is_null node then returns 1 else (do group ← as_int node; returns (uint8_of_int group))

  -- `n` channels from the number `index` on.
  unfoldable pub read_ports : Node → ℕ → ℕ → Run (List (Option Text))
  unfolding read_port
  read_ports channels zero index = returns []
  read_ports channels (suc n) index = do
    node ← subscript channels (port_prefix ++ to_string index)
    port ← read_port node
    rest ← read_ports channels n (index + 1)
    returns (port ∷ rest)

  unfoldable pub read_groups : Node → ℕ → ℕ → Run (List ℕ)
  unfolding read_group
  read_groups groups zero index = returns []
  read_groups groups (suc n) index = do
    node ← subscript groups (group_prefix ++ to_string index)
    group ← read_group node
    rest ← read_groups groups n (index + 1)
    returns (group ∷ rest)

  abbrev pub ports_or_default : Option Node → Run (List (Option Text))
  ports_or_default none = returns (replicate 32 none)
  ports_or_default (some channels) = read_ports channels 32 1

  abbrev pub groups_or_default : Option Node → Run (List ℕ)
  groups_or_default none = returns (replicate 32 1)
  groups_or_default (some groups) = read_groups groups 32 1

  -- `read_config` on the node that was loaded.
  unfoldable pub config_of_yaml : Node → Run Config
  unfolding read_ports read_groups
  config_of_yaml yaml = do
    channels ← subscript yaml input_channels_key
    input_channels ← ports_or_default channels
    groups ← subscript yaml groups_key
    input_channel_groups ← groups_or_default groups
    returns
        (record { input_channels = input_channels; input_channel_groups = input_channel_groups })

  abbrev pub port_node : Option Text → Node
  port_node none = null_node
  port_node (some port) = string_node port

  -- The loop of `write_config` fills two maps of the node, the second from its first assignment on.
  unfoldable pub fill : List (Option Text) → List ℕ → ℕ → Node → Node → Node × Node
  fill [] groups index ports group_map = (ports, group_map)
  fill (port ∷ channels) [] index ports group_map = (ports, group_map)
  fill (port ∷ channels) (group ∷ groups) index ports group_map =
      fill channels groups (index + 1)
        (assign ports (port_prefix ++ to_string index) (port_node port))
        (assign group_map (group_prefix ++ to_string index) (int_node (pos group)))

  unfoldable pub yaml_of_config : Config → Node
  unfolding fill
  yaml_of_config config =
      let (ports, groups) =
        fill config.input_channels config.input_channel_groups 1 map_node undefined_node in
      assign (assign undefined_node input_channels_key ports) groups_key groups

  module _ (F : FileSystem Y.Document) (getenv : Text → Option Text) where
    open F use {State, exists, create_directory, read_file, write_file}

    unfoldable pub create_directory_if_not_exists : Text → State → Run (Bool × State)
    create_directory_if_not_exists path s =
        if exists path s then returns (true, s) else create_directory path s

    unfoldable pub read_config_yaml_or_create_if_not_exists : Text → State → Run (Node × State)
    unfolding create_directory_if_not_exists
    read_config_yaml_or_create_if_not_exists application_name s = do
      directory ← get_config_directory getenv application_name
      (created, with_directory) ← create_directory_if_not_exists directory s
      if exists (directory ++ codes "/config.yaml") with_directory
          then (do
            document ← read_file (directory ++ codes "/config.yaml") with_directory
            node ← Y.load document
            returns (node, with_directory))
          else elim (write_file (directory ++ codes "/config.yaml") (Y.literal initial_config)
              with_directory) [
                | none ↦ faults runtime_error
                | some written ↦ do
                  node ← Y.load (Y.literal initial_config)
                  returns (node, written)
              ]

    unfoldable pub read_config : Text → State → Run (Config × State)
    unfolding read_config_yaml_or_create_if_not_exists
    read_config application_name s = do
      (yaml, t) ← read_config_yaml_or_create_if_not_exists application_name s
      config ← config_of_yaml yaml
      returns (config, t)

    unfoldable pub write_config : Text → Config → State → Run (Bool × State)
    unfolding create_directory_if_not_exists
    write_config application_name config s = do
      directory ← get_config_directory getenv application_name
      (created, with_directory) ← create_directory_if_not_exists directory s
      elim (write_file (directory ++ codes "/config.yaml") (Y.emit (yaml_of_config config))
          with_directory) [ none ↦ faults runtime_error | some written ↦ returns (true, written) ]
