-- ===== src/Collections/Results.antt =====
-- src/proxy_collection.cpp and src/port_collection.cpp: what a collection can hold.
use pmx.Base.{
  subst, ℕ, ◌<◌, ◌^◌, ◌≡◌, refl, arith, Bool, true, false, List, [], ◌∷◌, ◌++◌, Option, none, some,
  Text, to_string, stoi-to_string, ℤ, pos, All, inl, inr, Run-cases, Run, returns, faults,
  undefined, ◌>>=◌,
}
use pmx.Collections.{
  atoi, safe_string, PropertyKey, object_id_key, object_path_key, link_output_port_key,
  link_input_port_key, link_output_node_key, link_input_node_key, WpObject, string_of, Link,
  link_added_callback, WpProxy, ProxyType, port_proxy, node_proxy, unknown_proxy, kind_of_object,
  proxy_added_callback,
}

abbrev node_fits : ProxyType → Option ℤ → Bool
node_fits port_proxy (some n) = true
node_fits port_proxy none = false
node_fits node_proxy none = true
node_fits node_proxy (some n) = false
node_fits unknown_proxy none = true
node_fits unknown_proxy (some n) = false

-- Every port has a node, and nothing else has one.
abbrev pub NodeFits : WpProxy → Type 0
NodeFits p = node_fits p.type p.node_id ≡ true

-- What `proxy_added_callback` makes of the announcements, in their order.
unfoldable pub proxies_of : List WpObject → List WpProxy → Run (List WpProxy)
proxies_of [] proxies = returns proxies
proxies_of (object ∷ objects) proxies = do
  next ← proxy_added_callback object proxies
  proxies_of objects next

All-concat :
    {A : Type 0} (P : A → Type 0) (xs : List A) (x : A) → All P xs → P x → All P (xs ++ x ∷ [])
All-concat P [] x h k = (k, tt)
All-concat P (y ∷ xs) x h k = (h.0, All-concat P xs x h.1 k)

kind_of_object-node_fits :
    (object : WpObject) (name : Text) (type : ProxyType) (node_id : Option ℤ)
    → kind_of_object object ≡ returns (name, type, node_id)
    → node_fits type node_id ≡ true
unfolding kind_of_object
kind_of_object-node_fits object name type node_id h = ground arith

proxy_added_callback-NodeFits :
    (object : WpObject) (proxies next : List WpProxy)
    → All NodeFits proxies
    → proxy_added_callback object proxies ≡ returns next
    → All NodeFits next
unfolding proxy_added_callback
proxy_added_callback-NodeFits object proxies next h e =
    elim (Run-cases (string_of (object.get_property object_id_key))) [
      | inr (fault, thrown) ↦ absurd (ground (arith, thrown))
      | inl (id_string, found) ↦ elim (Run-cases (atoi id_string)) [
        | inr (fault, thrown) ↦ absurd (ground (arith, found, thrown))
        | inl (id, read) ↦ elim (Run-cases (kind_of_object object)) [
          | inr (fault, thrown) ↦ absurd (ground (arith, found, read, thrown))
          | inl ((name, type, node_id), kind) ↦
              let p : WpProxy = record {
                object_id = id;
                name = name;
                path = safe_string (object.get_property object_path_key);
                type = type;
                node_id = node_id;
              } in
              let same : proxies ++ p ∷ [] ≡ next = ground (arith, found, read, kind) in
              subst (All NodeFits) same (
                All-concat NodeFits proxies p h
                  (kind_of_object-node_fits object name type node_id kind))
        ]
      ]
    ]

-- Whatever is announced, the ports of the collection have a node and the rest have none.
pub proxies_of-NodeFits :
    (objects : List WpObject) (proxies after : List WpProxy)
    → All NodeFits proxies
    → proxies_of objects proxies ≡ returns after
    → All NodeFits after
unfolding proxies_of
proxies_of-NodeFits [] proxies after h e = ground (arith, h)
proxies_of-NodeFits (object ∷ objects) proxies after h e =
    elim (Run-cases (proxy_added_callback object proxies)) [
      | inl (next, added) ↦
          proxies_of-NodeFits objects next after
            (proxy_added_callback-NodeFits object proxies next h added) (rw added at e)
      | inr (fault, thrown) ↦ absurd (ground (arith, thrown))
    ]

-- What WirePlumber says of a link with these numbers.
abbrev pub link_properties : ℕ → ℕ → ℕ → ℕ → ℕ → PropertyKey → Option Text
link_properties id output_port input_port output_node input_node object_id_key = some (to_string id)
link_properties id output_port input_port output_node input_node link_output_port_key =
    some (to_string output_port)
link_properties id output_port input_port output_node input_node link_input_port_key =
    some (to_string input_port)
link_properties id output_port input_port output_node input_node link_output_node_key =
    some (to_string output_node)
link_properties id output_port input_port output_node input_node link_input_node_key =
    some (to_string input_node)
link_properties id output_port input_port output_node input_node _ = none

-- A link that is announced is appended with its five numbers.
pub link_added_callback-link_properties :
    (id output_port input_port output_node input_node : ℕ) (links : List Link)
    → id < 2 ^ 31
    → output_port < 2 ^ 31
    → input_port < 2 ^ 31
    → output_node < 2 ^ 31
    → input_node < 2 ^ 31
    → link_added_callback
        (record {
          is_node = false;
          is_port = false;
          get_property = link_properties id output_port input_port output_node input_node;
        })
        links
      ≡ returns (
          links
          ++ record {
            object_id = pos id;
            output_port_id = pos output_port;
            input_port_id = pos input_port;
            output_node_id = pos output_node;
            input_node_id = pos input_node;
          }
            ∷ [])
unfolding link_added_callback
link_added_callback-link_properties id output_port input_port output_node input_node links a b c d
      e =
    rw
      (
        stoi-to_string id a,
        stoi-to_string output_port b,
        stoi-to_string input_port c,
        stoi-to_string output_node d,
        stoi-to_string input_node e,
      )
      refl

-- A property that is missing is dereferenced all the same.
pub link_added_callback-undefined :
    (object : WpObject) (links : List Link)
    → object.get_property object_id_key ≡ none
    → link_added_callback object links ≡ faults undefined
unfolding link_added_callback
link_added_callback-undefined object links h = rw h refl
