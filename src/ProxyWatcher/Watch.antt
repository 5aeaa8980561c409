-- ===== src/ProxyWatcher/Watch.antt =====
-- Who is told of a node: the callbacks registered for its name before it was announced.
use mathlib.Core.List.{append-nil, append_assoc}
use pmx.Base.{
  sym, ℕ, ◌≡◌, refl, ◌∙◌, arith, List, [], ◌∷◌, ◌++◌, Option, none, some, Text, codes, text_eq,
  if◌then◌else◌,
}
use pmx.ProxyWatcher.{find_proxy, Proxy, Watcher, get_proxy, client, watch_proxy_prop_params}
use pmx.ProxyWatcher.Events.{process_registry_event, add_watchers, new_proxy}

-- The callbacks that were registered for a name, in their order.
abbrev pub callbacks_for : Text → List (Text × ℕ) → List ℕ
callbacks_for name [] = []
callbacks_for name ((n, callback) ∷ watched) =
    let rest = callbacks_for name watched in if text_eq n name then callback ∷ rest else rest

module _ {R : Type 0} where
  watch_callbacks-add_watchers :
      (name : Text) (watched : List (Text × ℕ)) (p : Proxy R)
      → (add_watchers name watched p).watch_callbacks
        ≡ p.watch_callbacks ++ callbacks_for name watched
  watch_callbacks-add_watchers name [] p = sym (append-nil p.watch_callbacks)
  watch_callbacks-add_watchers name ((n, callback) ∷ watched) p = ground (
    arith,
    watch_callbacks-add_watchers name watched p,
    watch_callbacks-add_watchers name watched (watch_proxy_prop_params callback p),
    append_assoc p.watch_callbacks (callback ∷ []) (callbacks_for name watched),
  )

  kept :
      (name : Text) (watched : List (Text × ℕ)) (p : Proxy R)
      → ((add_watchers name watched p).id ≡ p.id)
        × ((add_watchers name watched p).name ≡ p.name)
        × ((add_watchers name watched p).parameters ≡ p.parameters)
        × ((add_watchers name watched p).connected_client ≡ p.connected_client)
  kept name [] p = (refl, refl, refl, refl)
  kept name ((n, callback) ∷ watched) p =
      ground (arith, kept name watched p, kept name watched (watch_proxy_prop_params callback p))

  client_keeps :
      (bind : ℕ → Option ℕ) (p : Proxy R)
      → ((client bind p).1.id ≡ p.id)
        × ((client bind p).1.name ≡ p.name)
        × ((client bind p).1.parameters ≡ p.parameters)
        × ((client bind p).1.watch_callbacks ≡ p.watch_callbacks)
  unfolding client
  client_keeps bind p = ground arith

  find_proxy-append_fresh :
      (id : ℕ) (p : Proxy R) (proxies : List (Proxy R))
      → find_proxy id proxies ≡ none
      → p.id ≡ id
      → find_proxy id (proxies ++ p ∷ []) ≡ some p
  find_proxy-append_fresh id p [] h k = ground arith
  find_proxy-append_fresh id p (q ∷ proxies) h k =
      ground (arith, find_proxy-append_fresh id p proxies)

  -- A node with a name that is announced under a new id is found under that id. It has that name, no
  -- parameters, and just the callbacks that were registered for the name.
  pub process_registry_event-get_proxy :
      (bind : ℕ → Option ℕ) (id : ℕ) (name : Text) (w : Watcher R)
      → get_proxy id w ≡ none
      → (p : Proxy R) × (get_proxy id
            (process_registry_event bind id (codes "PipeWire:Interface:Node") (some name) w).0
          ≡ some p)
        × (p.name ≡ name)
        × (p.parameters ≡ [])
        × (p.watch_callbacks ≡ callbacks_for name w.watched_names)
  unfolding get_proxy process_registry_event
  process_registry_event-get_proxy bind id name w h =
      let p = add_watchers name w.watched_names (new_proxy id name) in
      let (same_id, same_name, same_parameters, _) =
        kept name w.watched_names (new_proxy id name) in
      let (c_id, c_name, c_parameters, c_callbacks) = client_keeps bind p in
      (
        (client bind p).1,
        find_proxy-append_fresh id (client bind p).1 w.proxies h (c_id ∙ same_id),
        c_name ∙ same_name,
        c_parameters ∙ same_parameters,
        c_callbacks ∙ watch_callbacks-add_watchers name w.watched_names (new_proxy id name),
      )
