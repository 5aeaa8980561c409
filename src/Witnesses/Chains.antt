-- ===== src/Witnesses/Chains.antt =====
-- src/applications/filter_chain_ctrl.cpp and src/proxy_watcher.cpp at concrete inputs.
use pmx.Base.{
  ℕ, ◌-◌, ◌≡◌, refl, arith, Bool, true, List, [], ◌∷◌, Option, none, some, Text, codes, ℤ, pos,
  returns, take, eq_ℤ, ◌>>=◌,
}
use pmx.Pod.{Packet, float_argument}
use pmx.Properties.{Property, int_value, long_value, find_property, get_from_collection}
use pmx.Parameters.{equalizer_low}
use pmx.Osc.{b_layer, build_input_channel_osc_path}
use pmx.Osc.RoundTrip.{layer_text}
use pmx.ProxyWatcher.{Watcher, get_proxy, update_all, client}
use pmx.ProxyWatcher.Events.{Field, int_field, other_field, string_field}
use pmx.ProxyWatcher.Update.{overlay, update_all-eq-overlay, update_all-changes}
use pmx.Witnesses.Reader.{typed_reader}
use pmx.FilterChain.{Request, find_filter_chain_id, process_packets, process_queue}
use pmx.FilterChain.Name.{input_path}
use pmx.FilterChain.Requests.{requests_of, is_some_request, process_packets-queue}
use pmx.FilterChain.Delivery.{client_of, deliveries, process_queue-eq-deliveries}
use pmx.FilterChain.Cycle.{input_setting, process_packets-build_input}

-- The node 40 of the input channels, under the client 7.
abbrev chain_parameters : List (Property ℤ)
chain_parameters = (codes "inputChannels", long_value (pos 40)) ∷ []

abbrev chain_watcher : Watcher ℤ
chain_watcher = record {
  proxies =
      record {
        id = 40;
        name = codes "input-chain";
        connected_client = none;
        parameters = [];
        watch_callbacks = [];
      }
      ∷ [];
  watched_names = (codes "router", 1) ∷ (codes "other", 2) ∷ (codes "router", 3) ∷ [];
}

abbrev bind_seven : ℕ → Option ℕ
bind_seven id = some 7

chain_id : find_filter_chain_id (codes "inputChannels") chain_parameters ≡ returns (some (pos 40))
unfolding find_filter_chain_id get_from_collection
chain_id = refl

chain_client : client_of bind_seven (pos 40) chain_watcher ≡ some 7
unfolding client_of client
chain_client = refl

abbrev low_message : Packet ℤ
low_message = record {
  address = build_input_channel_osc_path 3 equalizer_low (layer_text b_layer);
  arguments = float_argument (pos 5) ∷ [];
}

process_packets-build_input_example :
    (queue : List (Request ℤ)) × (process_packets
        (typed_reader ℤ)
        chain_parameters
        (some low_message ∷ [])
        []
      ≡ returns (queue, true))
    × ((process_queue bind_seven queue chain_watcher).0
        ≡ input_setting 7 b_layer 3 equalizer_low (pos 5) ∷ [])
process_packets-build_input_example =
    process_packets-build_input (typed_reader ℤ) bind_seven chain_parameters chain_watcher 3 b_layer
      equalizer_low (pos 5) (pos 40) 7 (omega arith) refl (omega arith) chain_id chain_client

abbrev low_request : Request ℤ
low_request = record {
  path = input_path b_layer 3 equalizer_low;
  filter_chain_id = pos 40;
  value = pos 5;
}

process_packets-queue_example :
    process_packets
      (typed_reader ℤ)
      chain_parameters
      (none ∷ some low_message ∷ [])
      (low_request ∷ [])
    ≡ (requests_of (typed_reader ℤ) chain_parameters (none ∷ some low_message ∷ []) >>= λ rs.
        returns (low_request ∷ take (128 - 1) rs, is_some_request rs))
process_packets-queue_example =
    process_packets-queue (typed_reader ℤ) chain_parameters (none ∷ some low_message ∷ [])
      (low_request ∷ []) (omega arith)

process_queue-eq-deliveries_example :
    (process_queue bind_seven (low_request ∷ low_request ∷ []) chain_watcher).0
    ≡ deliveries bind_seven chain_watcher (low_request ∷ low_request ∷ [])
process_queue-eq-deliveries_example =
    process_queue-eq-deliveries bind_seven (low_request ∷ low_request ∷ []) chain_watcher

abbrev int_eq : ℤ → ℤ → Bool
int_eq a b = eq_ℤ a b

abbrev known : List (Property ℤ)
known = (codes "a", int_value (pos 1)) ∷ (codes "b", int_value (pos 2)) ∷ []

abbrev update : List (Property ℤ)
update =
    (codes "b", int_value (pos 2))
    ∷ (codes "c", int_value (pos 3))
    ∷ (codes "a", int_value (pos 4))
    ∷ []

update_all-eq-overlay_example :
    find_property (codes "a") (update_all int_eq known update).0
    ≡ overlay int_eq (codes "a") (find_property (codes "a") known) update
update_all-eq-overlay_example = update_all-eq-overlay int_eq (codes "a") update known

update_all-changes_example :
    update_all int_eq known (update_all int_eq known update).1 ≡ update_all int_eq known update
update_all-changes_example = update_all-changes int_eq update known

nothing_new : (update_all int_eq known known).1 ≡ []
unfolding update_all
nothing_new = refl

not_yet : get_proxy 41 chain_watcher ≡ none
unfolding get_proxy
not_yet = refl

abbrev decoded : List (Text × Field ℤ)
decoded =
    (codes "a", int_field (pos 1)) ∷ (codes "b", other_field) ∷ (codes "c", string_field none) ∷ []
