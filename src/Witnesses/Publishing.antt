-- ===== src/Witnesses/Publishing.antt =====
-- src/applications/metadata_manager.cpp at a concrete configuration.
use pmx.Base.{
  Option, ◌⊎◌, [], ℕ, zero, suc, ◌<◌, ◌≡◌, refl, arith, ◌∷◌, none, some, codes, replicate, returns,
  All,
}
use pmx.Metadata.{Config, publish, write_changes, set_initial_metadata}
use pmx.Metadata.Publish.{write_changes-set_initial_metadata}

abbrev pub two_ports : Config
two_ports = record {
  input_channels =
      some (codes "alsa:capture_1") ∷ none ∷ some (codes "alsa:capture_3") ∷ replicate 29 none;
  input_channel_groups = 2 ∷ 1 ∷ 4 ∷ replicate 29 1;
}

pub ones_below : (n : ℕ) → All (λ g. g < 256) (replicate n 1)
ones_below zero = tt
ones_below (suc n) = (omega arith, ones_below n)

write_changes-set_initial_metadata_example :
    (written : Option Config) × (write_changes
        (record { input_channels = replicate 32 none; input_channel_groups = replicate 32 1 })
        (publish (set_initial_metadata two_ports) [])
      ≡ returns (two_ports, written))
    × ((written ≡ none) ⊎ (written ≡ some two_ports))
write_changes-set_initial_metadata_example =
    write_changes-set_initial_metadata two_ports (replicate 32 1) refl refl
      (omega arith, (omega arith, (omega arith, ones_below 29))) refl
