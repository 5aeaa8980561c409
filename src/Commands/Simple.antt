-- ===== src/Commands/Simple.antt =====
-- src/commands/meta.cpp, src/commands/list.cpp, src/commands/pmx.cpp and src/commands/watch.cpp.
use pmx.Base.{
  ◌==◌, ℕ, Bool, true, false, ◌&&◌, List, [], ◌∷◌, ◌++◌, map, none, some, Text, codes, text_eq,
  starts_with, stoi, uint32_of_int, if◌then◌else◌, Run, returns, Result, ok, err, ◌>>=◌,
}
use pmx.Tokens.{next_token, all_digits}
use pmx.Errors.{SdError, invalid_argument, systemd}
use pmx.Collections.{Link, WpProxy, ProxyType, port_proxy, node_proxy, unknown_proxy}
use pmx.ProxyWatcher.{Proxy, Watcher, get_proxy, watch_proxy_prop_params}
use pmx.Commands.{Outcome, fails, prints, link_text, proxy_line}

abbrev pub metadata_line : Text × Text → Text
metadata_line entry = entry.0 ++ (codes ": " ++ entry.1)

unfoldable pub meta_command : Text → List (Text × Text) → Outcome
meta_command stream metadata = elim (next_token stream) [
  | none ↦ fails (invalid_argument (codes "missing sub command"))
  | some (sub_command, rest) ↦
      if text_eq sub_command (codes "show")
      then prints (map metadata_line metadata)
      else fails (invalid_argument (codes "unknown sub command " ++ sub_command))
]

abbrev pub unit_file_line : Text × Text → Text
unit_file_line file = file.0 ++ (codes ": " ++ file.1)

-- The unit files are what `list_unit_files` returns.
unfoldable pub list_command :
    Text → List Link → List WpProxy → Result SdError (List (Text × Text)) → Outcome
list_command stream links proxies unit_files = elim (next_token stream) [
  | none ↦ fails (invalid_argument (codes "missing sub-command"))
  | some (sub_command, rest) ↦
      if text_eq sub_command (codes "proxy")
      then prints (map proxy_line proxies)
      else if text_eq sub_command (codes "link")
      then prints (map link_text links)
      else if text_eq sub_command (codes "unit_file")
      then elim unit_files [
        | ok files ↦ prints (map unit_file_line files)
        | err e ↦ fails (systemd e.message)
      ]
      else fails (invalid_argument (codes "unknown sub command " ++ sub_command))
]

abbrev is_node : ProxyType → Bool
is_node port_proxy = false
is_node node_proxy = true
is_node unknown_proxy = false

-- The loop over the proxies in `list node`.
unfoldable pub pmx_nodes : List WpProxy → List Text
pmx_nodes [] = []
pmx_nodes (p ∷ proxies) =
    let rest = pmx_nodes proxies in
    if starts_with p.name (codes "pmx-") && is_node p.type then proxy_line p ∷ rest else rest

pub record PmxOutcome : Type 0 where
  pub outcome : Outcome
  -- the calls of `set_metadata_value`
  pub metadata_writes : List (Text × Text)

abbrev no_writes : Outcome → PmxOutcome
no_writes outcome = record { outcome = outcome; metadata_writes = [] }

-- After `disable` the function runs on to its last statement.
unfoldable pub pmx_command : Text → List WpProxy → PmxOutcome
unfolding pmx_nodes
pmx_command stream proxies = elim (next_token stream) [
  | none ↦ no_writes (fails (invalid_argument (codes "missing sub command")))
  | some (sub_command, rest) ↦
      if text_eq sub_command (codes "enable")
      then record { outcome = prints []; metadata_writes = (codes "enabled", codes "true") ∷ [] }
      else if text_eq sub_command (codes "disable")
      then record {
        outcome = fails (invalid_argument (codes "missing sub command"));
        metadata_writes = (codes "enabled", codes "false") ∷ [];
      }
      else if text_eq sub_command (codes "list")
      then no_writes (elim (next_token rest) [
        | none ↦ fails (invalid_argument (codes "missing object"))
        | some (object, end) ↦
            if text_eq object (codes "node")
            then prints (pmx_nodes proxies)
            else fails (invalid_argument (codes "unknown or unimplemented object" ++ object))
      ])
      else no_writes (fails (invalid_argument (codes "unknown sub command " ++ sub_command)))
]

-- The proxy is shared: the callback is added to the one in the list.
abbrev pub watch_in : {R : Type 0} → ℕ → ℕ → List (Proxy R) → List (Proxy R)
watch_in id callback [] = []
watch_in id callback (p ∷ proxies) =
    if p.id == id
    then watch_proxy_prop_params callback p ∷ proxies
    else p ∷ watch_in id callback proxies

-- `callback` is the one that prints the updates. What is no number is passed over.
unfoldable pub watch_command : {R : Type 0} → Text → ℕ → Watcher R → Run (Outcome × Watcher R)
watch_command stream callback w = elim (next_token stream) [
  | none ↦ returns (prints [], w)
  | some (object, rest) ↦ elim (all_digits object) [
    | false ↦ returns (prints [], w)
    | true ↦ do
      id ← stoi object
      elim (get_proxy (uint32_of_int id) w) [
        | none ↦
            returns (fails (invalid_argument (codes "couldn't find proxy with id " ++ object)), w)
        | some p ↦ returns (
          prints ((codes "watching " ++ p.name) ∷ []),
          record w { proxies = watch_in (uint32_of_int id) callback w.proxies },
        )
      ]
  ]
]
