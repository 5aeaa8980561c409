-- ===== src/ParamsWatcher.antt =====
-- src/applications/params_watcher.cpp: which nodes are watched. PipeWire's loop is left out.
pub mod Watching
use pmx.Base.{
  ◌||◌, text_eq_refl, Option, none, some, sym, not, text_eq_sound, ◌-◌, ◌≡◌, refl, ap, ◌∙◌, Bool,
  true, false, ◌&&◌, List, [], ◌∷◌, ◌++◌, Text, codes, ends_with, length, take, text_eq,
  if◌then◌else◌, map, ℕ, arith, inl, inr, Bool-cases, length-append, drop-length_append,
}
use pmx.Constants.{all_services, filter_chain_node_names}
use mathlib.Core.List.{append-nil, append_assoc}
use pmx.ProxyWatcher.Watch.{callbacks_for, process_registry_event-get_proxy}
use pmx.ProxyWatcher.{Watcher, Proxy, get_proxy}
use pmx.ProxyWatcher.Events.{watch_proxy_by_name, process_registry_event}

abbrev pub suffix : Text
suffix = codes ".service"

-- `service.compare(size - 8, 8, suffix) == 0`, and the name in front of it.
unfoldable pub without_suffix : Text → Text
without_suffix service =
    if ends_with service suffix then take (length service - length suffix) service else service

unfoldable pub watch_all : {R : Type 0} → List Text → ℕ → Watcher R → Watcher R
watch_all [] callback w = w
watch_all (name ∷ names) callback w = watch_all names callback (watch_proxy_by_name name callback w)

-- The two loops of `main`.
unfoldable pub watch_nodes : {R : Type 0} → ℕ → Watcher R → Watcher R
unfolding watch_all without_suffix
watch_nodes callback w =
    watch_all (map without_suffix all_services) callback
      (watch_all filter_chain_node_names callback w)
