-- ===== src/ParamsWatcher/Watching.antt =====
-- src/applications/params_watcher.cpp: just the filter chains and the services are watched.
use pmx.Base.{
  ◌||◌, text_eq_refl, Option, none, some, sym, not, text_eq_sound, ◌-◌, ◌≡◌, refl, ap, ◌∙◌, Bool,
  true, false, ◌&&◌, List, [], ◌∷◌, ◌++◌, Text, codes, length, take, text_eq, if◌then◌else◌, map, ℕ,
  arith, inl, inr, Bool-cases, length-append, drop-length_append,
}
use pmx.Constants.{all_services, filter_chain_node_names}
use mathlib.Core.List.{append-nil, append_assoc}
use pmx.ProxyWatcher.Watch.{callbacks_for, process_registry_event-get_proxy}
use pmx.ProxyWatcher.{Watcher, Proxy, get_proxy}
use pmx.ProxyWatcher.Events.{watch_proxy_by_name, process_registry_event}
use pmx.ParamsWatcher.{suffix, without_suffix, watch_all, watch_nodes}

take-length_append : (s t : Text) → take (length s) (s ++ t) ≡ s
take-length_append [] t = refl
take-length_append (c ∷ s) t = ap (◌∷◌ c) (take-length_append s t)

minus_suffix : (s : Text) → length (s ++ suffix) - length suffix ≡ length s
minus_suffix s = omega (arith, length-append s suffix)

without_suffix-append : (s : Text) → without_suffix (s ++ suffix) ≡ s
unfolding without_suffix
without_suffix-append s = rw (minus_suffix s) (
    ground
      (arith, length-append s suffix, drop-length_append s suffix, take-length_append s suffix))

watch_nodes_test :
    map without_suffix (codes "pmx-grpc-api.service" ∷ codes "pipewire" ∷ [])
    ≡ codes "pmx-grpc-api" ∷ codes "pipewire" ∷ []
unfolding without_suffix
watch_nodes_test = refl

abbrev pub no_proxies : {R : Type 0} → Watcher R
no_proxies = record { proxies = []; watched_names = [] }

-- The names that are watched.
abbrev pub watched_nodes : List Text
watched_nodes = filter_chain_node_names ++ map without_suffix all_services

abbrev pub is_among : Text → List Text → Bool
is_among name [] = false
is_among name (n ∷ names) = if text_eq n name then true else is_among name names

-- The names that should be watched: those of the filter chains, and those of the services without
-- their suffix.
abbrev pub is_watched : Text → Bool
is_watched name = is_among name filter_chain_node_names || is_among (name ++ suffix) all_services

append_suffix : Text → Text
append_suffix name = name ++ suffix

-- Every service has the suffix.
all_services-map : all_services ≡ map append_suffix (map without_suffix all_services)
unfolding without_suffix append_suffix
all_services-map = refl

text_eq-append_suffix : (s t : Text) → text_eq (s ++ suffix) (t ++ suffix) ≡ text_eq s t
text_eq-append_suffix s t = elim (Bool-cases (text_eq s t)) [
  | inl same ↦ rw (text_eq_sound s t same) (text_eq_refl (t ++ suffix) ∙ sym (text_eq_refl t))
  | inr other ↦ elim (Bool-cases (text_eq (s ++ suffix) (t ++ suffix))) [
    | inr distinct ↦ distinct ∙ sym other
    | inl same ↦
        let cut : s ≡ t =
          sym (without_suffix-append s)
          ∙ ap without_suffix (text_eq_sound (s ++ suffix) (t ++ suffix) same)
          ∙ without_suffix-append t in
        absurd (ground (arith, other, ap (text_eq s) (sym cut), text_eq_refl s))
  ]
]

is_among-append_suffix :
    (name : Text) (names : List Text)
    → is_among (name ++ suffix) (map append_suffix names) ≡ is_among name names
unfolding append_suffix
is_among-append_suffix name [] = refl
is_among-append_suffix name (n ∷ names) =
    rw (text_eq-append_suffix n name, is_among-append_suffix name names) refl

is_among-append :
    (name : Text) (xs ys : List Text)
    → is_among name (xs ++ ys) ≡ (is_among name xs || is_among name ys)
is_among-append name [] ys = refl
is_among-append name (x ∷ xs) ys = ground (arith, is_among-append name xs ys)

is_among-watched_nodes : (name : Text) → is_among name watched_nodes ≡ is_watched name
is_among-watched_nodes name =
    is_among-append name filter_chain_node_names (map without_suffix all_services)
    ∙ ap (◌||◌ (is_among name filter_chain_node_names)) (
        sym (is_among-append_suffix name (map without_suffix all_services))
        ∙ ap (is_among (name ++ suffix)) (sym all_services-map))

with_callback : ℕ → List Text → List (Text × ℕ)
with_callback callback [] = []
with_callback callback (n ∷ names) = (n, callback) ∷ with_callback callback names

watched_names-watch_all :
    {R : Type 0} (names : List Text) (callback : ℕ) (w : Watcher R)
    → (watch_all names callback w).watched_names ≡ w.watched_names ++ with_callback callback names
unfolding watch_all watch_proxy_by_name with_callback
watched_names-watch_all [] callback w = sym (append-nil w.watched_names)
watched_names-watch_all (n ∷ names) callback w =
    watched_names-watch_all names callback (watch_proxy_by_name n callback w)
    ∙ append_assoc w.watched_names ((n, callback) ∷ []) (with_callback callback names)

-- No name stands twice among those that are watched.
abbrev is_distinct : List Text → Bool
is_distinct [] = true
is_distinct (n ∷ names) = not (is_among n names) && is_distinct names

watched_nodes-is_distinct : is_distinct watched_nodes ≡ true
unfolding without_suffix
watched_nodes-is_distinct = refl

callbacks_for-absent :
    (name : Text) (names : List Text) (callback : ℕ)
    → is_among name names ≡ false
    → callbacks_for name (with_callback callback names) ≡ []
unfolding with_callback
callbacks_for-absent name [] callback h = refl
callbacks_for-absent name (n ∷ names) callback h =
    ground (arith, callbacks_for-absent name names callback)

callbacks_for-distinct :
    (name : Text) (names : List Text) (callback : ℕ)
    → is_distinct names ≡ true
    → is_among name names ≡ true
    → callbacks_for name (with_callback callback names) ≡ callback ∷ []
unfolding with_callback
callbacks_for-distinct name [] callback d h = cc
callbacks_for-distinct name (n ∷ names) callback d h = elim (Bool-cases (text_eq n name)) [
  | inl same ↦
      let e : is_among name names ≡ is_among n names =
        ap (λ t. is_among t names) (sym (text_eq_sound n name same)) in
      ground (arith, same, e, callbacks_for-absent name names callback)
  | inr other ↦ ground (arith, other, callbacks_for-distinct name names callback)
]

callbacks_for-is_among :
    (name : Text) (names : List Text) (callback : ℕ)
    → is_distinct names ≡ true
    → callbacks_for name (with_callback callback names)
      ≡ (if is_among name names then callback ∷ [] else [])
callbacks_for-is_among name names callback d = elim (Bool-cases (is_among name names)) [
  | inl there ↦ rw there (callbacks_for-distinct name names callback d there)
  | inr absent ↦ rw absent (callbacks_for-absent name names callback absent)
]

with_callback-append :
    (callback : ℕ) (xs ys : List Text)
    → with_callback callback (xs ++ ys) ≡ with_callback callback xs ++ with_callback callback ys
unfolding with_callback
with_callback-append callback [] ys = refl
with_callback-append callback (x ∷ xs) ys =
    ap (◌∷◌ (x, callback)) (with_callback-append callback xs ys)

watched_names-watch_nodes :
    (R : Type 0) (callback : ℕ)
    → (watch_nodes callback (no_proxies {R = R})).watched_names
      ≡ with_callback callback watched_nodes
unfolding watch_nodes
watched_names-watch_nodes R callback =
    watched_names-watch_all (map without_suffix all_services) callback
      (watch_all filter_chain_node_names callback (no_proxies {R = R}))
    ∙ ap (λ ws. ws ++ with_callback callback (map without_suffix all_services))
        (watched_names-watch_all filter_chain_node_names callback (no_proxies {R = R}))
    ∙ sym (with_callback-append callback filter_chain_node_names (map without_suffix all_services))

-- What the registry has announced: ids, types and names.
abbrev pub announce_all :
    {R : Type 0} → (ℕ → Option ℕ) → List (ℕ × Text × Option Text) → Watcher R → Watcher R
announce_all bind [] w = w
announce_all bind ((id, type, name) ∷ events) w =
    announce_all bind events (process_registry_event bind id type name w).0

process_registry_event-watched_names :
    {R : Type 0} (bind : ℕ → Option ℕ) (id : ℕ) (type : Text) (name : Option Text) (w : Watcher R)
    → (process_registry_event bind id type name w).0.watched_names ≡ w.watched_names
unfolding process_registry_event
process_registry_event-watched_names bind id type none w = refl
process_registry_event-watched_names bind id type (some name) w = ground arith

announce_all-watched_names :
    {R : Type 0} (bind : ℕ → Option ℕ) (events : List (ℕ × Text × Option Text)) (w : Watcher R)
    → (announce_all bind events w).watched_names ≡ w.watched_names
announce_all-watched_names bind [] w = refl
announce_all-watched_names bind ((id, type, name) ∷ events) w =
    announce_all-watched_names bind events (process_registry_event bind id type name w).0
    ∙ process_registry_event-watched_names bind id type name w

-- Whatever has been announced before, a node that is announced under a new id has the callback of
-- the program once, if it is a filter chain or if its name with the suffix is a service, and no
-- callback if it is neither.
pub process_registry_event-watch_nodes :
    {R : Type 0} (bind : ℕ → Option ℕ) (events : List (ℕ × Text × Option Text)) (id : ℕ)
    (name : Text) (callback : ℕ)
    → get_proxy id (announce_all bind events (watch_nodes callback (no_proxies {R = R}))) ≡ none
    → (p : Proxy R) × (get_proxy id
          (process_registry_event bind id
            (codes "PipeWire:Interface:Node")
            (some name)
            (announce_all bind events (watch_nodes callback no_proxies))).0
        ≡ some p)
      × (p.watch_callbacks ≡ (if is_watched name then callback ∷ [] else []))
process_registry_event-watch_nodes {R} bind events id name callback new =
    let w = announce_all bind events (watch_nodes callback (no_proxies {R = R})) in
    let (p, found, named, fresh, callbacks) = process_registry_event-get_proxy bind id name w new in
    let watching : w.watched_names ≡ with_callback callback watched_nodes =
      announce_all-watched_names bind events (watch_nodes callback (no_proxies {R = R}))
      ∙ watched_names-watch_nodes R callback in
    (
      p,
      found,
      callbacks
          ∙ ap (callbacks_for name) watching
          ∙ callbacks_for-is_among name watched_nodes callback watched_nodes-is_distinct
          ∙ ap (λ b. if b then callback ∷ [] else []) (is_among-watched_nodes name),
    )
