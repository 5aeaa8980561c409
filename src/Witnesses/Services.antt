-- ===== src/Witnesses/Services.antt =====
-- The gRPC service, the writer of the configuration, the Launchpad and the watcher of parameters.
use pmx.Base.{
  map, ◌%◌, ◌^◌, faults, undefined, stoi, ℕ, ◌≡◌, refl, arith, Bool, true, List, [], ◌∷◌, ◌++◌,
  Option, none, some, Text, codes, replicate, if◌then◌else◌, ℤ, returns,
}
use pmx.Pod.{sequence, ControlType, ump_control}
use pmx.ProxyWatcher.{Proxy, get_proxy}
use pmx.ProxyWatcher.Events.{process_registry_event, watch_proxy_by_name}
use pmx.ParamsWatcher.{watch_nodes}
use pmx.ParamsWatcher.Watching.{
  no_proxies, announce_all, is_watched, process_registry_event-watch_nodes,
}
use pmx.Metadata
use pmx.Metadata.{Config, set_initial_metadata, handle_batch, metadata_changed}
use pmx.Metadata.Writer.{
  WriterState, start_of, Reach, here, next, changes, events, Reach-events, rounds,
}
use pmx.Grpc.{ResponseField, InputPortSetup, setup_input_port, list_input_ports_setup}
use pmx.Grpc.Listing.{IsSorted, ids_of, find_setup}
use pmx.Grpc.Items.{
  Item, port_item, group_item, other_item, text_of, last_port, last_group, entry_of,
  list_input_ports_setup-last_port,
}
use pmx.Grpc.Published.{setups_from, list_input_ports_setup-set_initial_metadata}
use pmx.Grpc.Setup.{events_of, with_port, with_group, handle_batch-setup_input_port}
use pmx.LpMini
use pmx.LpMini.{Setup, Cycle, initial}
use pmx.LpMini.Ending.{run, run-undefined}
use pmx.Metadata.Settling.{Settles, Reach_settled}

abbrev items : List Item
items =
    port_item 7 (codes "alsa:capture_7")
    ∷ group_item 2 3
    ∷ other_item (codes "title") (codes "x")
    ∷ port_item 2 (codes "alsa:capture_2")
    ∷ []

-- The fields of the response as they are at 32 bits.
abbrev field_32 : ResponseField
field_32 = record { keep = λ n. n % 2 ^ 32; keep_small = λ n h. omega arith }

list_input_ports_setup-last_port_example :
    (setups : List InputPortSetup) × (list_input_ports_setup field_32 (map text_of items)
      ≡ returns setups)
    × IsSorted (ids_of setups)
    × (find_setup 2 setups ≡ entry_of 2 (last_port 2 items none) (last_group 2 items none))
list_input_ports_setup-last_port_example =
    list_input_ports_setup-last_port field_32 items 2
      (omega arith, ((omega arith, omega arith), ((refl, refl), (omega arith, tt))))

abbrev plain : Config
plain = record { input_channels = replicate 32 none; input_channel_groups = replicate 32 1 }

abbrev two_channels : Config
two_channels = record {
  input_channels = none ∷ some (codes "alsa:capture_2") ∷ [];
  input_channel_groups = 1 ∷ 3 ∷ [];
}

list_input_ports_setup-set_initial_metadata_example :
    list_input_ports_setup field_32 (set_initial_metadata two_channels)
    ≡ returns (setups_from 1 (none ∷ some (codes "alsa:capture_2") ∷ []) (1 ∷ 3 ∷ []))
list_input_ports_setup-set_initial_metadata_example =
    list_input_ports_setup-set_initial_metadata field_32 two_channels refl (omega arith)
      (omega arith, (omega arith, tt))

handle_batch-setup_input_port_example :
    (changed : Bool) × (handle_batch plain (
        events_of
          (setup_input_port (record {
            channel_id = 5;
            port = some (codes "alsa:capture_5");
            group_channel_id = some 2;
          })).0)
      ≡ returns
          (with_group 4 (some 2) (with_port 4 (some (codes "alsa:capture_5")) plain), changed))
handle_batch-setup_input_port_example =
    handle_batch-setup_input_port plain 4 (some (codes "alsa:capture_5")) (some 2) refl refl
      (omega arith) (omega arith)

abbrev changed_once : WriterState
changed_once = record (start_of plain) {
  queue = metadata_changed (codes "channel_port_3") (some (codes "x")) [];
}

abbrev one_change : Reach (start_of plain) changed_once
one_change = next here (changes (start_of plain) (codes "channel_port_3") (some (codes "x")))

Reach-events_example :
    (done : List Metadata.MetadataEvent) × (changed : Bool) × (events one_change
      ≡ done ++ (changed_once.batch ++ changed_once.queue))
    × (handle_batch plain done ≡ returns (changed_once.config, changed))
    × (changed_once.file ≡ changed_once.config)
Reach-events_example = Reach-events plain one_change

handled : (last : Config) × (handle_batch plain (events one_change) ≡ returns (last, true))
unfolding handle_batch Metadata.handle_event stoi
handled = (_, refl)

Reach_settled_example : Settles (returns true) handled.0 (rounds (returns true) 2 changed_once)
unfolding metadata_changed
Reach_settled_example =
    Reach_settled plain handled.0 one_change true (returns true) 2 handled.1 (omega arith)

abbrev cycle_with : List (ControlType × List ℕ) → Cycle
cycle_with controls = record {
  in_buffer = sequence controls;
  out_buffer = true;
  now = 10;
  sent = 11;
}

abbrev response : Cycle
response =
    cycle_with ((ump_control, 806780416 ∷ 807807251 ∷ []) ∷ (ump_control, 808649734 ∷ 0 ∷ []) ∷ [])

run-undefined_example : run ℤ (response ∷ cycle_with [] ∷ []) initial ≡ faults undefined
unfolding LpMini.read_response
run-undefined_example = run-undefined ℤ (response ∷ []) (cycle_with [] ∷ []) (_, refl, refl) refl

no_client : ℕ → Option ℕ
no_client id = none

abbrev earlier : List (ℕ × Text × Option Text)
earlier =
    (40, codes "PipeWire:Interface:Node", some (codes "pmx-osc-network-sender"))
    ∷ (39, codes "PipeWire:Interface:Port", none)
    ∷ []

unknown_yet :
    get_proxy 41 (announce_all no_client earlier (watch_nodes 7 (no_proxies {R = ℤ}))) ≡ none
unfolding get_proxy process_registry_event watch_nodes watch_proxy_by_name
unknown_yet = refl

process_registry_event-watch_nodes_example :
    (p : Proxy ℤ) × (get_proxy 41
        (process_registry_event no_client 41
          (codes "PipeWire:Interface:Node")
          (some (codes "pmx-grpc-api"))
          (announce_all no_client earlier (watch_nodes 7 no_proxies))).0
      ≡ some p)
    × (p.watch_callbacks ≡ (if is_watched (codes "pmx-grpc-api") then 7 ∷ [] else []))
process_registry_event-watch_nodes_example =
    process_registry_event-watch_nodes no_client earlier 41 (codes "pmx-grpc-api") 7 unknown_yet
