-- ===== src/Metadata.antt =====
-- src/applications/metadata_manager.cpp and the configuration of include/config/config.h: the
-- channels' ports and groups are published as metadata, and changes of the metadata are taken over.
-- `set_metadata_value_async` is an effect: a list of keys and values. Reading and writing
-- the file is in Configuration.
pub mod Slots
pub mod Publish
pub mod Batches
pub mod Writer
pub mod Settling
use pmx.Base.{
  ℕ, zero, suc, ◌+◌, Bool, true, false, not, ◌||◌, List, [], ◌∷◌, ◌++◌, Option, none, some, Text,
  codes, text_eq, starts_with, to_string, stoi, if◌then◌else◌, ltb, length, get_elem?, set, drop, ℤ,
  pos, negsuc, uint8_of_int, Run, returns, faults, undefined, ◌>>=◌,
}

pub record Config : Type 0 where
  pub input_channels : List (Option Text)
  pub input_channel_groups : List ℕ

abbrev pub port_prefix : Text
port_prefix = codes "channel_port_"

abbrev pub group_prefix : Text
group_prefix = codes "channel_group_"

-- `metadata_deletion` and `metadata_update`.
pub data MetadataEvent : Type 0 where
  deletion : Text → MetadataEvent
  update : Text → Text → MetadataEvent

-- The loop over the ports, from the channel `index` on; a channel without a port is left out.
unfoldable pub initial_ports : ℕ → List (Option Text) → List (Text × Text)
initial_ports index [] = []
initial_ports index (none ∷ channels) = initial_ports (index + 1) channels
initial_ports index (some port ∷ channels) =
    (port_prefix ++ to_string index, port) ∷ initial_ports (index + 1) channels

unfoldable pub initial_groups : ℕ → List ℕ → List (Text × Text)
initial_groups index [] = []
initial_groups index (group_id ∷ groups) =
    (group_prefix ++ to_string index, to_string group_id) ∷ initial_groups (index + 1) groups

unfoldable pub set_initial_metadata : Config → List (Text × Text)
unfolding initial_ports initial_groups
set_initial_metadata config =
    initial_ports 1 config.input_channels ++ initial_groups 1 config.input_channel_groups

-- `array[channel_id - 1]`, which is undefined outside the array.
abbrev pub at_channel {ℓ} : {A : Type ℓ} → List A → ℤ → Run (ℕ × A)
at_channel xs (negsuc n) = faults undefined
at_channel xs (pos zero) = faults undefined
at_channel xs (pos (suc i)) = elim (get_elem? xs i) [
  | none ↦ faults undefined
  | some x ↦ returns (i, x)
]

abbrev pub same_port : Option Text → Text → Bool
same_port none value = false
same_port (some port) value = text_eq port value

-- The body of the loop over a batch: the configuration, and whether it has changed.
unfoldable pub handle_event : Config → MetadataEvent → Run (Config × Bool)
handle_event config (deletion key) =
    if starts_with key port_prefix
    then (do
      channel_id ← stoi (drop (length port_prefix) key)
      (i, port) ← at_channel config.input_channels channel_id
      returns (record config { input_channels = set config.input_channels i none }, true))
    else returns (config, false)
handle_event config (update key value) =
    if starts_with key port_prefix
    then (do
      channel_id ← stoi (drop (length port_prefix) key)
      (i, port) ← at_channel config.input_channels channel_id
      if same_port port value
          then returns (config, false)
          else returns
              (record config { input_channels = set config.input_channels i (some value) }, true))
    else if starts_with key group_prefix
    then (do
      channel_id ← stoi (drop (length group_prefix) key)
      group_id ← stoi value
      (i, group) ← at_channel config.input_channel_groups channel_id
      returns (
        record config {
          input_channel_groups = set config.input_channel_groups i (uint8_of_int group_id);
        },
        true,
      ))
    else returns (config, false)

-- A batch: the configuration after it, and whether it is written.
unfoldable pub handle_batch : Config → List MetadataEvent → Run (Config × Bool)
handle_batch config [] = returns (config, false)
handle_batch config (event ∷ batch) = do
  (next, now) ← handle_event config event
  (last, later) ← handle_batch next batch
  returns (last, now || later)

-- `metadata_changed_callback` of src/metadata_watcher.cpp: a key without a value is a deletion.
unfoldable pub metadata_changed : Text → Option Text → List MetadataEvent → List MetadataEvent
metadata_changed key none queue = queue ++ deletion key ∷ []
metadata_changed key (some value) queue = queue ++ update key value ∷ []

-- The signals of a list of values.
unfoldable pub publish : List (Text × Text) → List MetadataEvent → List MetadataEvent
unfolding metadata_changed
publish [] queue = queue
publish (p ∷ ps) queue = publish ps (metadata_changed p.0 (some p.1) queue)

-- The thread pops all updates into a batch and handles it; the second part is what is written to the
-- file, if anything has changed.
unfoldable pub write_changes : Config → List MetadataEvent → Run (Config × Option Config)
unfolding handle_batch
write_changes config queue = do
  (next, changed) ← handle_batch config queue
  returns (next, if changed then some next else none)
