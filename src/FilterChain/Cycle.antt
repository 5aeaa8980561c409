-- ===== src/FilterChain/Cycle.antt =====
-- From an OSC message of the router to the parameter that is set in a filter chain's node.
use pmx.Base.{
  ℕ, ◌<◌, ◌≡◌, refl, List, [], ◌∷◌, ◌++◌, Option, some, codes, to_string, ℤ, returns, true,
}
use pmx.Pod.{ArgReader, float_argument}
use pmx.Properties.{Property}
use pmx.Parameters.{Parameter}
use pmx.Parameters.Laws.{IsKnown}
use pmx.Osc.{OscPath, Layer, input, build_input_channel_osc_path}
use pmx.Osc.RoundTrip.{layer_text, parse-build_input}
use pmx.ProxyWatcher.{Watcher}
use pmx.FilterChain.{
  Request, SetPropsParam, parameter_name, process_packets, process_queue, process_message,
  get_filter_chain_id_and_add_to_queue, find_filter_chain_id, device_number,
}
use pmx.FilterChain.Delivery.{client_of, delivery, process_queue-eq-deliveries}

-- What is set in the node for a channel of a layer.
abbrev pub input_setting : {R : Type 0} → ℕ → Layer → ℕ → Parameter → R → SetPropsParam R
input_setting c l n p x = record {
  client = c;
  parameter_name =
      p.device_name ++ (codes "-" ++ (to_string (device_number l n) ++ (codes ":" ++ p.name)));
  value = x;
}

-- A message of the router for an input channel below 100, a layer and a parameter of the table other
-- than `none`, alone in a cycle with an empty queue, is turned into requests, and the thread sets just
-- the message's value in the node of the input channels, under the name of the channel's device, if
-- the node's id is known and has a client.
pub process_packets-build_input :
    {R : Type 0} (reader : ArgReader R) (bind : ℕ → Option ℕ) (ps : List (Property R))
    (w : Watcher R) (n : ℕ) (l : Layer) (p : Parameter) (x : R) (id : ℤ) (c : ℕ)
    → n < 100
    → IsKnown p
    → 0 < p.id
    → find_filter_chain_id (codes "inputChannels") ps ≡ returns (some id)
    → client_of bind id w ≡ some c
    → (queue : List (Request R)) × (process_packets reader ps
          (some (record {
            address = build_input_channel_osc_path n p (layer_text l);
            arguments = float_argument x ∷ [];
          })
            ∷ [])
          []
        ≡ returns (queue, true))
      × ((process_queue bind queue w).0 ≡ input_setting c l n p x ∷ [])
unfolding process_packets process_message get_filter_chain_id_and_add_to_queue delivery
    parameter_name
process_packets-build_input {R} reader bind ps w n l p x id c h known mapped e f =
    let path : OscPath = record {
      channel_id = n;
      channel_type = input;
      layer = l;
      parameter = p;
    } in
    let request : Request R = record { path = path; filter_chain_id = id; value = x } in
    (
      request ∷ [],
      rw (parse-build_input n l p h known mapped, e, reader.float32_at x []) refl,
      rw (process_queue-eq-deliveries bind (request ∷ []) w, f) refl,
    )
