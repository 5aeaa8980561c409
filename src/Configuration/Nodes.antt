-- ===== src/Configuration/Nodes.antt =====
-- src/config.cpp: the node that is made of a configuration is read as this configuration.
use pmx.Base.{
  ℕ, ◌+◌, ◌==◌, ◌%◌, ◌^◌, ◌<◌, ◌≡◌, refl, ap, ◌∙◌, arith, true, List, [], ◌∷◌, ◌++◌, Option, none,
  some, Text, to_string, if◌then◌else◌, length, All, pos, returns,
}
use pmx.Metadata.{Config, port_prefix, group_prefix}
use pmx.Configuration.Keys.{text_eq-to_string}
use pmx.Configuration

module _ (Y : Configuration.Yaml) where
  open Y use {Node, map_node, undefined_node, is_map, subscript, assign}

  abbrev KeyAfter : Text → ℕ → ℕ → Node → Node → Type 0
  KeyAfter prefix j index node n =
      subscript (assign n (prefix ++ to_string index) node) (prefix ++ to_string j)
      ≡ (if index == j then returns (some node) else subscript n (prefix ++ to_string j))

  subscript-key :
      (prefix : Text) (j index : ℕ) (node n : Node)
      → j < 2 ^ 31
      → index < 2 ^ 31
      → is_map n ≡ true
      → KeyAfter prefix j index node n
  subscript-key prefix j index node n small_j small_i m =
      Y.subscript-assign n (prefix ++ to_string index) (prefix ++ to_string j) node m
      ∙ ap (λ b. if b then returns (some node) else subscript n (prefix ++ to_string j))
          (text_eq-to_string prefix index j small_i small_j)

  -- The loop writes no key of an earlier channel.
  fill_ports_kept :
      (channels : List (Option Text)) (groups : List ℕ) (j index : ℕ) (ports group_map : Node)
      → j < index
      → index + length channels < 2 ^ 31
      → is_map ports ≡ true
      → subscript
          (Configuration.fill Y channels groups index ports group_map).0
          (port_prefix ++ to_string j)
        ≡ subscript ports (port_prefix ++ to_string j)
  unfolding Configuration.fill
  fill_ports_kept [] groups j index ports group_map lt small m = refl
  fill_ports_kept (port ∷ channels) [] j index ports group_map lt small m = refl
  fill_ports_kept (port ∷ channels) (group ∷ groups) j index ports group_map lt small m =
      fill_ports_kept channels groups j (index + 1) _ _ (omega arith) (omega arith)
        (Y.is_map-assign _ _ _)
      ∙ subscript-key port_prefix j index (Configuration.port_node Y port) ports (omega arith)
          (omega arith) m
      ∙ ground arith

  fill_groups_kept :
      (channels : List (Option Text)) (groups : List ℕ) (j index : ℕ) (ports group_map : Node)
      → j < index
      → index + length channels < 2 ^ 31
      → is_map group_map ≡ true
      → subscript
          (Configuration.fill Y channels groups index ports group_map).1
          (group_prefix ++ to_string j)
        ≡ subscript group_map (group_prefix ++ to_string j)
  unfolding Configuration.fill
  fill_groups_kept [] groups j index ports group_map lt small m = refl
  fill_groups_kept (port ∷ channels) [] j index ports group_map lt small m = refl
  fill_groups_kept (port ∷ channels) (group ∷ groups) j index ports group_map lt small m =
      fill_groups_kept channels groups j (index + 1) _ _ (omega arith) (omega arith)
        (Y.is_map-assign _ _ _)
      ∙ subscript-key group_prefix j index (Y.int_node (pos group)) group_map (omega arith)
          (omega arith) m
      ∙ ground arith

  -- The node of a channel is read back as its port, a number as the group.
  read_port-port_node :
      (port : Option Text)
      → Configuration.read_port Y (some (Configuration.port_node Y port)) ≡ returns port
  unfolding Configuration.read_port
  read_port-port_node none = rw Y.is_null_of_null refl
  read_port-port_node (some port) = rw (Y.is_null_of_string port, Y.as_string_of_string port) refl

  read_group-int_node :
      (group : ℕ)
      → group < 256
      → Configuration.read_group Y (some (Y.int_node (pos group))) ≡ returns group
  unfolding Configuration.read_group
  read_group-int_node group byte =
      let cut : group % 256 ≡ group = omega arith in
      rw (Y.is_null_of_int (pos group), Y.as_int_of_int (pos group), cut) refl

  subscript-assign_self :
      (prefix : Text) (index : ℕ) (node n : Node)
      → index < 2 ^ 31
      → is_map n ≡ true
      → subscript (assign n (prefix ++ to_string index) node) (prefix ++ to_string index)
        ≡ returns (some node)
  subscript-assign_self prefix index node n small m =
      subscript-key prefix index index node n small small m ∙ ground arith

  read_ports-fill :
      (channels : List (Option Text)) (groups : List ℕ) (index : ℕ) (ports group_map : Node)
      → length groups ≡ length channels
      → index + length channels < 2 ^ 31
      → is_map ports ≡ true
      → Configuration.read_ports Y
          (Configuration.fill Y channels groups index ports group_map).0
          (length channels)
          index
        ≡ returns channels
  unfolding Configuration.read_ports Configuration.fill
  read_ports-fill [] groups index ports group_map same small m = refl
  read_ports-fill (port ∷ channels) [] index ports group_map same small m = absurd (omega arith)
  read_ports-fill (port ∷ channels) (group ∷ groups) index ports group_map same small m =
      let node = Configuration.port_node Y port in
      let next = assign ports (port_prefix ++ to_string index) node in
      let groups_next =
        assign group_map (group_prefix ++ to_string index) (Y.int_node (pos group)) in
      rw
        (
          fill_ports_kept channels groups index (index + 1) next groups_next (omega arith)
              (omega arith) (Y.is_map-assign ports (port_prefix ++ to_string index) node),
          subscript-assign_self port_prefix index node ports (omega arith) m,
          read_port-port_node port,
          read_ports-fill channels groups (index + 1) next groups_next (omega arith) (omega arith)
              (Y.is_map-assign ports (port_prefix ++ to_string index) node),
        )
        refl

  read_groups-fill :
      (channels : List (Option Text)) (groups : List ℕ) (index : ℕ) (ports group_map : Node)
      → length groups ≡ length channels
      → index + length channels < 2 ^ 31
      → All (λ g. g < 256) groups
      → is_map group_map ≡ true
      → Configuration.read_groups Y
          (Configuration.fill Y channels groups index ports group_map).1
          (length groups)
          index
        ≡ returns groups
  unfolding Configuration.read_groups Configuration.fill
  read_groups-fill [] [] index ports group_map same small bytes m = refl
  read_groups-fill [] (group ∷ groups) index ports group_map same small bytes m =
      absurd (omega arith)
  read_groups-fill (port ∷ channels) [] index ports group_map same small bytes m =
      absurd (omega arith)
  read_groups-fill (port ∷ channels) (group ∷ groups) index ports group_map same small bytes m =
      let node = Y.int_node (pos group) in
      let next = assign group_map (group_prefix ++ to_string index) node in
      let ports_next =
        assign ports (port_prefix ++ to_string index) (Configuration.port_node Y port) in
      rw
        (
          fill_groups_kept channels groups index (index + 1) ports_next next (omega arith)
              (omega arith) (Y.is_map-assign group_map (group_prefix ++ to_string index) node),
          subscript-assign_self group_prefix index node group_map (omega arith) m,
          read_group-int_node group bytes.0,
          read_groups-fill channels groups (index + 1) ports_next next (omega arith) (omega arith)
              bytes.1 (Y.is_map-assign group_map (group_prefix ++ to_string index) node),
        )
        refl

  -- The second map starts as an undefined node and is a map from its first assignment on.
  fill-undefined_node :
      (port : Option Text) (channels : List (Option Text)) (group : ℕ) (groups : List ℕ)
      → Configuration.fill Y (port ∷ channels) (group ∷ groups) 1 map_node undefined_node
        ≡ Configuration.fill Y (port ∷ channels) (group ∷ groups) 1 map_node map_node
  unfolding Configuration.fill
  fill-undefined_node port channels group groups =
      rw (Y.assign_to_undefined (group_prefix ++ to_string 1) (Y.int_node (pos group))) refl

  fill-map_node :
      (channels : List (Option Text)) (groups : List ℕ)
      → length channels ≡ 32
      → length groups ≡ 32
      → Configuration.fill Y channels groups 1 map_node undefined_node
        ≡ Configuration.fill Y channels groups 1 map_node map_node
  fill-map_node [] groups ch gr = absurd (omega arith)
  fill-map_node (port ∷ channels) [] ch gr = absurd (omega arith)
  fill-map_node (port ∷ channels) (group ∷ groups) ch gr =
      fill-undefined_node port channels group groups

  top_ports :
      (ports groups : Node)
      → subscript
          (assign
            (assign undefined_node Configuration.input_channels_key ports)
            Configuration.groups_key
            groups)
          Configuration.input_channels_key
        ≡ returns (some ports)
  top_ports ports groups = rw (Y.assign_to_undefined Configuration.input_channels_key ports) (
      Y.subscript-assign _ Configuration.groups_key Configuration.input_channels_key groups
        (Y.is_map-assign _ _ _)
      ∙ Y.subscript-assign map_node Configuration.input_channels_key
          Configuration.input_channels_key ports Y.is_map_of_map)

  top_groups :
      (ports groups : Node)
      → subscript
          (assign
            (assign undefined_node Configuration.input_channels_key ports)
            Configuration.groups_key
            groups)
          Configuration.groups_key
        ≡ returns (some groups)
  top_groups ports groups = rw (Y.assign_to_undefined Configuration.input_channels_key ports) (
      Y.subscript-assign _ Configuration.groups_key Configuration.groups_key groups
        (Y.is_map-assign _ _ _))

  read_all_ports :
      (channels : List (Option Text)) (groups : List ℕ)
      → length channels ≡ 32
      → length groups ≡ 32
      → Configuration.read_ports Y (Configuration.fill Y channels groups 1 map_node map_node).0 32 1
        ≡ returns channels
  read_all_ports channels groups ch gr = rw (← ch) (
      read_ports-fill channels groups 1 map_node map_node (omega arith) (omega arith)
        Y.is_map_of_map)

  every_group_read :
      (channels : List (Option Text)) (groups : List ℕ)
      → length channels ≡ 32
      → length groups ≡ 32
      → All (λ g. g < 256) groups
      → Configuration.read_groups Y
          (Configuration.fill Y channels groups 1 map_node map_node).1
          32
          1
        ≡ returns groups
  every_group_read channels groups ch gr bytes = rw (← gr) (
      read_groups-fill channels groups 1 map_node map_node (omega arith) (omega arith) bytes
        Y.is_map_of_map)

  yaml_of_config-fill :
      (config : Config)
      → length config.input_channels ≡ 32
      → length config.input_channel_groups ≡ 32
      → (filled : Node × Node) × (Configuration.yaml_of_config Y config
          ≡ assign
              (assign undefined_node Configuration.input_channels_key filled.0)
              Configuration.groups_key
              filled.1)
        × (filled
            ≡ Configuration.fill Y config.input_channels config.input_channel_groups 1 map_node
                map_node)
  unfolding Configuration.yaml_of_config
  yaml_of_config-fill config ch gr = (
    Configuration.fill Y config.input_channels config.input_channel_groups 1 map_node
        undefined_node,
    refl,
    fill-map_node config.input_channels config.input_channel_groups ch gr,
  )

  pub is_map-yaml_of_config :
      (config : Config) → is_map (Configuration.yaml_of_config Y config) ≡ true
  unfolding Configuration.yaml_of_config
  is_map-yaml_of_config config = Y.is_map-assign _ _ _

  -- Reading the node of a configuration gives the configuration.
  pub config_of_yaml-yaml_of_config :
      (config : Config)
      → length config.input_channels ≡ 32
      → length config.input_channel_groups ≡ 32
      → All (λ g. g < 256) config.input_channel_groups
      → Configuration.config_of_yaml Y (Configuration.yaml_of_config Y config) ≡ returns config
  unfolding Configuration.config_of_yaml
  config_of_yaml-yaml_of_config config ch gr bytes =
      let (filled, made, same) = yaml_of_config-fill config ch gr in
      rw
        (
          made,
          top_ports filled.0 filled.1,
          top_groups filled.0 filled.1,
          same,
          read_all_ports config.input_channels config.input_channel_groups ch gr,
          every_group_read config.input_channels config.input_channel_groups ch gr bytes,
        )
        refl
