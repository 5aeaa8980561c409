-- ===== src/Commands/Status.antt =====
-- src/commands/status.cpp: a report on the services and on the links between the OSC nodes.
-- The colours of the terminal are arguments, as texts.
pub mod Wiring
pub mod Naming
pub mod Links
pub mod Safety
use pmx.Base.{
  ℕ, ◌==◌, Bool, true, false, ◌&&◌, List, [], ◌∷◌, ◌++◌, Option, none, some, Text, codes, text_eq,
  ends_with, if◌then◌else◌, ℤ, eq_ℤ, Run, returns, faults, bad_optional_access, Result, ok, err,
  ◌>>=◌,
}
use pmx.Errors.{SdError}
use pmx.Constants.{all_services, pmx_osc_producer_node_names, pmx_osc_consumer_node_names}
use pmx.Units.{SystemdUnit, UnitFile}
use pmx.Collections.{Link, WpProxy, ProxyType, port_proxy, node_proxy, unknown_proxy}

pub record Colors : Type 0 where
  pub reset : Text
  pub green : Text
  pub red : Text
  pub yellow : Text

abbrev pub find_unit : Text → List SystemdUnit → Option SystemdUnit
find_unit name [] = none
find_unit name (u ∷ units) = if text_eq u.name name then some u else find_unit name units

abbrev pub find_unit_file : Text → List UnitFile → Option UnitFile
find_unit_file name [] = none
find_unit_file name (f ∷ files) =
    if ends_with f.name name then some f else find_unit_file name files

module _ (colors : Colors) where
  abbrev pub state_color : Text → Text
  state_color active_state =
      if text_eq active_state (codes "active")
      then colors.green
      else if text_eq active_state (codes "failed")
      then colors.red
      else []

  -- The line for one service.
  unfoldable pub unit_line : List SystemdUnit → List UnitFile → Text → Text
  unit_line units unit_files unit_name = elim (find_unit unit_name units) [
    | some u ↦
        u.name ++ (codes " " ++ (state_color u.active_state ++ (u.active_state ++ colors.reset)))
    | none ↦ elim (find_unit_file unit_name unit_files) [
      | some f ↦
          unit_name
          ++ (codes " "
              ++ ((if text_eq f.status (codes "disabled") then colors.red else colors.yellow)
                  ++ (codes " " ++ (f.status ++ colors.reset))))
      | none ↦ unit_name ++ (codes " " ++ (colors.red ++ (codes "not found" ++ colors.reset)))
    ]
  ]

  unfoldable pub unit_lines : List SystemdUnit → List UnitFile → List Text → List Text
  unfolding unit_line
  unit_lines units unit_files [] = []
  unit_lines units unit_files (unit_name ∷ names) =
      unit_line units unit_files unit_name ∷ unit_lines units unit_files names

  -- The arguments are what `list_units` and `list_unit_files` return.
  unfoldable pub check_systemd_unit_status :
      Result SdError (List SystemdUnit)
      → Result SdError (List UnitFile)
      → List Text × Result SdError (Unit {0})
  unfolding unit_lines
  check_systemd_unit_status (ok units) (ok unit_files) =
      (unit_lines units unit_files all_services, ok tt)
  check_systemd_unit_status (err e) unit_files = ([], err e)
  check_systemd_unit_status (ok units) (err e) = ([], err e)

abbrev pub has_name : List Text → Text → Bool
has_name [] name = false
has_name (n ∷ names) name = if text_eq n name then true else has_name names name

abbrev pub is_node : ProxyType → Bool
is_node port_proxy = false
is_node node_proxy = true
is_node unknown_proxy = false

abbrev pub is_port : ProxyType → Bool
is_port port_proxy = true
is_port node_proxy = false
is_port unknown_proxy = false

-- The first loop: a node with a producer's name is no consumer.
unfoldable pub osc_nodes : List WpProxy → List WpProxy × List WpProxy
osc_nodes [] = ([], [])
osc_nodes (p ∷ proxies) =
    let (producers, consumers) = osc_nodes proxies in
    if has_name pmx_osc_producer_node_names p.name && is_node p.type
    then (p ∷ producers, consumers)
    else if has_name pmx_osc_consumer_node_names p.name && is_node p.type
    then (producers, p ∷ consumers)
    else (producers, consumers)

abbrev pub is_named : Text → List WpProxy → Bool
is_named name [] = false
is_named name (p ∷ proxies) = if text_eq p.name name then true else is_named name proxies

-- A line for each name that no node has.
unfoldable pub missing_lines : Text → List Text → List WpProxy → List Text
missing_lines kind [] nodes = []
missing_lines kind (name ∷ names) nodes =
    let rest = missing_lines kind names nodes in
    if is_named name nodes then rest else (codes "couldn't find " ++ (kind ++ name)) ∷ rest

-- The port of a node by `std::find_if`, which stops at the first one. `node_id.value()` throws
-- where there is none; it is read only of a port with the right name.
unfoldable pub find_osc_port : ℤ → List WpProxy → Run (Option WpProxy)
find_osc_port node_id [] = returns none
find_osc_port node_id (p ∷ proxies) =
    let rest = find_osc_port node_id proxies in
    if is_port p.type && text_eq p.name (codes "pmx-osc")
    then elim p.node_id [
      | none ↦ faults bad_optional_access
      | some n ↦ if eq_ℤ n node_id then returns (some p) else rest
    ]
    else rest

abbrev pub joins : ℤ → ℤ → Link → Bool
joins output_port_id input_port_id l =
    eq_ℤ l.output_port_id output_port_id && eq_ℤ l.input_port_id input_port_id

abbrev pub is_linked : ℤ → ℤ → List Link → Bool
is_linked output_port_id input_port_id [] = false
is_linked output_port_id input_port_id (l ∷ links) =
    if joins output_port_id input_port_id l
    then true
    else is_linked output_port_id input_port_id links

-- What is said of one expected link.
unfoldable pub link_lines_of : List WpProxy → List Link → WpProxy → WpProxy → Run (List Text)
unfolding find_osc_port
link_lines_of proxies links producer consumer = do
  output_port ← find_osc_port producer.object_id proxies
  elim output_port [
    | none ↦ returns ((codes "couldn't find output port for node " ++ producer.name) ∷ [])
    | some o ↦ do
      input_port ← find_osc_port consumer.object_id proxies
      elim input_port [
        | none ↦ returns ((codes "couldn't find input port for node " ++ consumer.name) ∷ [])
        | some i ↦
            if is_linked o.object_id i.object_id links
            then returns []
            else returns (
                (codes "couldn't find link between "
                  ++ (producer.name ++ (codes " and " ++ consumer.name)))
                ∷ [])
      ]
  ]

-- The expected links of one producer, and of all.
unfoldable pub consumer_lines : List WpProxy → List Link → WpProxy → List WpProxy → Run (List Text)
consumer_lines proxies links producer [] = returns []
consumer_lines proxies links producer (consumer ∷ consumers) = do
  lines ← link_lines_of proxies links producer consumer
  rest ← consumer_lines proxies links producer consumers
  returns (lines ++ rest)

unfoldable pub producer_lines :
    List WpProxy → List Link → List WpProxy → List WpProxy → Run (List Text)
producer_lines proxies links [] consumers = returns []
producer_lines proxies links (producer ∷ producers) consumers = do
  lines ← consumer_lines proxies links producer consumers
  rest ← producer_lines proxies links producers consumers
  returns (lines ++ rest)

unfoldable pub check_osc_connections : List WpProxy → List Link → Run (List Text)
check_osc_connections proxies links = do
  lines ← producer_lines proxies links (osc_nodes proxies).0 (osc_nodes proxies).1
  returns (
      missing_lines (codes "producer ") pmx_osc_producer_node_names (osc_nodes proxies).0
      ++ (missing_lines (codes "consumer ") pmx_osc_consumer_node_names (osc_nodes proxies).1
          ++ lines))

-- Both results are dropped.
unfoldable pub status_command :
    Colors
    → Result SdError (List SystemdUnit)
    → Result SdError (List UnitFile)
    → List WpProxy
    → List Link
    → Run (List Text × Result SdError (Unit {0}))
unfolding check_systemd_unit_status check_osc_connections
status_command colors units unit_files proxies links = do
  osc_lines ← check_osc_connections proxies links
  returns ((check_systemd_unit_status colors units unit_files).0 ++ osc_lines, ok tt)
