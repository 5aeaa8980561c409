-- ===== src/Configuration/RoundTrip.antt =====
-- src/config.cpp: what `write_config` writes is what `read_config` reads.
use pmx.Base.{
  ◌<◌, ◌≡◌, refl, ap, ◌∙◌, arith, Bool, true, inl, inr, ◌++◌, Option, some, Text, codes, length,
  Option-cases, Run-cases, All, returns,
}
use pmx.Metadata.{Config}
use pmx.Configuration
use pmx.Configuration.Nodes.{is_map-yaml_of_config, config_of_yaml-yaml_of_config}

module _ (Y : Configuration.Yaml) (F : Configuration.FileSystem Y.Document)
    (getenv : Text → Option Text) where
  open F use {State, exists, create_directory, read_file, write_file}

  create_directory_if_not_exists-exists :
      (path : Text) (s t : State) (b : Bool)
      → Configuration.create_directory_if_not_exists Y F getenv path s ≡ returns (b, t)
      → exists path t ≡ true
  unfolding Configuration.create_directory_if_not_exists
  create_directory_if_not_exists-exists path s t b h =
      ground (arith, F.exists-create_directory path s t b)

  -- What is there after `write_config`: the directory and the file, which holds the node.
  abbrev pub Written : Text → Config → State → Text → Type 0
  Written application_name config t directory =
      (Configuration.get_config_directory getenv application_name ≡ returns directory)
      × (exists directory t ≡ true)
      × (exists (directory ++ codes "/config.yaml") t ≡ true)
      × (read_file (directory ++ codes "/config.yaml") t
          ≡ returns (Y.emit (Configuration.yaml_of_config Y config)))

  write_file-Written :
      (application_name : Text) (config : Config) (s u t : State) (b c : Bool) (directory : Text)
      → Configuration.get_config_directory getenv application_name ≡ returns directory
      → Configuration.create_directory_if_not_exists Y F getenv directory s ≡ returns (c, u)
      → write_file
          (directory ++ codes "/config.yaml")
          (Y.emit (Configuration.yaml_of_config Y config))
          u
        ≡ some t
      → Written application_name config t directory
  write_file-Written application_name config s u t b c directory found made wrote = (
    found,
    F.exists-write_file_kept _ directory _ u t wrote
        (create_directory_if_not_exists-exists directory s u c made),
    F.exists-write_file _ _ u t wrote,
    F.read_file-write_file _ _ u t wrote,
  )

  write_config-Written :
      (application_name : Text) (config : Config) (s t : State) (b : Bool)
      → Configuration.write_config Y F getenv application_name config s ≡ returns (b, t)
      → (directory : Text) × Written application_name config t directory
  unfolding Configuration.write_config
  write_config-Written application_name config s t b h =
      elim (Run-cases (Configuration.get_config_directory getenv application_name)) [
        | inr (e, thrown) ↦ absurd (ground (arith, thrown))
        | inl (directory, found) ↦
            elim (Run-cases (Configuration.create_directory_if_not_exists Y F getenv directory s)) [
              | inr (e, thrown) ↦ absurd (ground (arith, found, thrown))
              | inl ((c, u), made) ↦
                  elim (Option-cases (
                    write_file (directory ++ codes "/config.yaml")
                      (Y.emit (Configuration.yaml_of_config Y config)) u)) [
                        | inl closed ↦ absurd (ground (arith, found, made, closed))
                        | inr (v, wrote) ↦
                            let same : v ≡ t = ground (arith, found, made, wrote) in
                            (
                              directory,
                              write_file-Written application_name config s u t b c directory found
                                  made (wrote ∙ ap some same),
                            )
                      ]
            ]
      ]

  -- After `write_config` has returned, `read_config` returns what was written, and changes
  -- nothing. The configuration has its 32 channels, and the groups are bytes.
  pub read_config-write_config :
      (application_name : Text) (config : Config) (s t : State) (b : Bool)
      → length config.input_channels ≡ 32
      → length config.input_channel_groups ≡ 32
      → All (λ g. g < 256) config.input_channel_groups
      → Configuration.write_config Y F getenv application_name config s ≡ returns (b, t)
      → Configuration.read_config Y F getenv application_name t ≡ returns (config, t)
  unfolding Configuration.read_config Configuration.create_directory_if_not_exists
  read_config-write_config application_name config s t b ch gr bytes h =
      let (directory, (found, there, file, holds)) =
        write_config-Written application_name config s t b h in
      rw
        (
          found,
          there,
          file,
          holds,
          Y.load-emit (Configuration.yaml_of_config Y config) (is_map-yaml_of_config Y config),
          config_of_yaml-yaml_of_config Y config ch gr bytes,
        )
        refl
