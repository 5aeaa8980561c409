-- ===== src/ProxyWatcher/Events.antt =====
-- The two event handlers of src/proxy_watcher.cpp and `watch_proxy_by_name`.
use pmx.Base.{
  true, false, ℕ, suc, ◌%◌, ◌==◌, List, [], ◌∷◌, ◌++◌, Option, none, some, Text, codes, text_eq, ℤ,
  if◌then◌else◌, Run, returns, faults, undefined, ◌>>=◌,
}
use pmx.Properties.{
  Property, PropertyValue, int_value, long_value, float_value, double_value, string_value,
  null_value,
}
use pmx.ProxyWatcher.{Proxy, Watcher, client, watch_proxy_prop_params}

unfoldable pub watch_proxy_by_name : {R : Type 0} → Text → ℕ → Watcher R → Watcher R
watch_proxy_by_name name callback w = record w {
  watched_names = w.watched_names ++ (name, callback) ∷ [];
}

-- The callbacks that were registered for the name are added, in their order.
abbrev pub add_watchers : {R : Type 0} → Text → List (Text × ℕ) → Proxy R → Proxy R
add_watchers name [] p = p
add_watchers name ((n, callback) ∷ watched) p =
    add_watchers name watched (if text_eq n name then watch_proxy_prop_params callback p else p)

abbrev pub new_proxy : {R : Type 0} → ℕ → Text → Proxy R
new_proxy id name = record {
  id = id;
  name = name;
  connected_client = none;
  parameters = [];
  watch_callbacks = [];
}

-- A node with a name is kept, its client asked for, and, where there is one, listened to: the
-- second part of the result is the client that is subscribed.
unfoldable pub process_registry_event :
    {R : Type 0} → (ℕ → Option ℕ) → ℕ → Text → Option Text → Watcher R → Watcher R × Option ℕ
unfolding client
process_registry_event bind id c_type none w = (w, none)
process_registry_event bind id c_type (some name) w =
    if text_eq c_type (codes "PipeWire:Interface:Node")
    then (let (c, p) = client bind (add_watchers name w.watched_names (new_proxy id name)) in
        (record w { proxies = w.proxies ++ p ∷ [] }, c))
    else (w, none)

-- `keys.pop_back()`.
abbrev pub pop_back : List Text → List Text
pop_back [] = []
pop_back (k ∷ []) = []
pop_back (k ∷ l ∷ keys) = k ∷ pop_back (l ∷ keys)

-- The fields of the struct in a `Props` object.
pub data Field (R : Type 0) : Type 0 where
  int_field : ℤ → Field R
  long_field : ℤ → Field R
  float_field : R → Field R
  double_field : R → Field R
  string_field : Option Text → Field R
  other_field : Field R

module _ {R : Type 0} where
  -- The value that the `switch` stores, if any.
  abbrev pub field_value : Field R → Option (PropertyValue R)
  field_value (int_field n) = some (int_value n)
  field_value (long_field n) = some (long_value n)
  field_value (float_field x) = some (float_value x)
  field_value (double_field x) = some (double_value x)
  field_value (string_field none) = some null_value
  field_value (string_field (some s)) = some (string_value s)
  field_value other_field = none

  -- `spa_pod_get_string` on what is no string leaves the key unset.
  abbrev read_key : Field R → Run Text
  read_key (string_field (some s)) = returns s
  read_key _ = faults undefined

  -- The loop over the fields; `count` tells a key from a value.
  unfoldable pub read_fields :
      List (Field R)
      → ℕ
      → List Text
      → List (PropertyValue R)
      → Run (List Text × List (PropertyValue R))
  read_fields [] count keys values = returns (keys, values)
  read_fields (f ∷ fields) count keys values = elim (count % 2 == 0) [
    | true ↦ do key ← read_key f; read_fields fields (suc count) (keys ++ key ∷ []) values
    | false ↦ elim (field_value f) [
      | none ↦ read_fields fields (suc count) (pop_back keys) values
      | some v ↦ read_fields fields (suc count) keys (values ++ v ∷ [])
    ]
  ]

  -- `result.emplace_back(keys[i], values[i])` for each key.
  unfoldable pub pair_up : List Text → List (PropertyValue R) → Run (List (Property R))
  pair_up [] values = returns []
  pair_up (k ∷ keys) [] = faults undefined
  pair_up (k ∷ keys) (v ∷ values) = do rest ← pair_up keys values; returns ((k, v) ∷ rest)

  -- `process_node_params_event` up to the call of `update_parameters`; `none` is a pod without the
  -- property.
  unfoldable pub process_node_params : Option (List (Field R)) → Run (Option (List (Property R)))
  unfolding read_fields pair_up
  process_node_params none = returns none
  process_node_params (some fields) = do
    (keys, values) ← read_fields fields 0 [] []
    result ← pair_up keys values
    returns (some result)
