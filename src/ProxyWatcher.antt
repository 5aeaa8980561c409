-- ===== src/ProxyWatcher.antt =====
-- include/proxy/proxy_watcher.h and src/proxy_watcher.cpp: the nodes that PipeWire announces, with
-- the last known values of their parameters.
-- A callback is the number under which it was registered, a client the number of its handle.
-- `pw_registry_bind` and the comparison of floating point numbers are arguments. The locks are not
-- modelled: each function runs to its end before the next.
pub mod Events
pub mod Decode
pub mod Update
pub mod Watch
use pmx.Base.{
  ℕ, ◌==◌, Bool, true, false, ◌&&◌, List, [], ◌∷◌, ◌++◌, Option, none, some, Text, text_eq, find,
  if◌then◌else◌, eq_ℤ,
}
use pmx.Properties.{
  Property, PropertyValue, int_value, long_value, float_value, double_value, string_value,
  bool_value, null_value, find_property,
}

pub record Proxy (R : Type 0) : Type 0 where
  pub id : ℕ
  pub name : Text
  pub connected_client : Option ℕ
  pub parameters : List (Property R)
  pub watch_callbacks : List ℕ

pub record Watcher (R : Type 0) : Type 0 where
  pub proxies : List (Proxy R)
  pub watched_names : List (Text × ℕ)

-- `std::find_if` by the id.
abbrev pub find_proxy : {R : Type 0} → ℕ → List (Proxy R) → Option (Proxy R)
find_proxy id [] = none
find_proxy id (p ∷ proxies) = if p.id == id then some p else find_proxy id proxies

unfoldable pub get_proxy : {R : Type 0} → ℕ → Watcher R → Option (Proxy R)
get_proxy id w = find_proxy id w.proxies

-- `Proxy::client` asks the factory if no client is known, and keeps what it gets.
unfoldable pub client : {R : Type 0} → (ℕ → Option ℕ) → Proxy R → Option ℕ × Proxy R
client bind p = elim p.connected_client [
  | none ↦ (bind p.id, record p { connected_client = bind p.id })
  | some c ↦ (some c, p)
]

-- `watch_proxy_prop_params`.
abbrev pub watch_proxy_prop_params : {R : Type 0} → ℕ → Proxy R → Proxy R
watch_proxy_prop_params callback p = record p {
  watch_callbacks = p.watch_callbacks ++ callback ∷ [];
}

abbrev pub bool_eq : Bool → Bool → Bool
bool_eq true b = b
bool_eq false true = false
bool_eq false false = true

module _ {R : Type 0} (real_eq : R → R → Bool) where
  -- The comparison of two variants in `equal`.
  abbrev pub value_eq : PropertyValue R → PropertyValue R → Bool
  value_eq (int_value a) (int_value b) = eq_ℤ a b
  value_eq (long_value a) (long_value b) = eq_ℤ a b
  value_eq (float_value a) (float_value b) = real_eq a b
  value_eq (double_value a) (double_value b) = real_eq a b
  value_eq (string_value a) (string_value b) = text_eq a b
  value_eq (bool_value a) (bool_value b) = bool_eq a b
  value_eq null_value null_value = true
  value_eq _ _ = false

  unfoldable pub equal : Property R → Property R → Bool
  equal left right = if text_eq left.0 right.0 then value_eq left.1 right.1 else false

  -- `*existing_parameter = parameter`, at the first parameter of that name.
  unfoldable pub replace : Property R → List (Property R) → List (Property R)
  replace u [] = []
  replace u (p ∷ ps) = if text_eq p.0 u.0 then u ∷ ps else p ∷ replace u ps

  -- The loop of `update_parameters`: the parameters after it, and the changes.
  unfoldable pub update_all :
      List (Property R) → List (Property R) → List (Property R) × List (Property R)
  unfolding equal replace
  update_all ps [] = (ps, [])
  update_all ps (u ∷ us) = elim (find_property u.0 ps) [
    | none ↦ let (after, changes) = update_all (ps ++ u ∷ []) us in (after, u ∷ changes)
    | some existing ↦ elim (equal existing u) [
      | true ↦ update_all ps us
      | false ↦ let (after, changes) = update_all (replace u ps) us in (after, u ∷ changes)
    ]
  ]

  -- Every callback of the proxy is called with the changes, also if there are none.
  unfoldable pub update_parameters :
      List (Property R) → Proxy R → Proxy R × List (ℕ × List (Property R))
  unfolding update_all
  update_parameters parameters p =
      let (after, changes) = update_all p.parameters parameters in
      (record p { parameters = after }, notify changes p.watch_callbacks)
    where
      notify : List (Property R) → List ℕ → List (ℕ × List (Property R))
      notify changes [] = []
      notify changes (callback ∷ callbacks) = (callback, changes) ∷ notify changes callbacks
