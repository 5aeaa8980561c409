-- ===== src/Witnesses/Commands.antt =====
-- The commands of the console, and the calls of systemd, at concrete inputs.
use pmx.Base.{
  stoi, ℕ, ◌<◌, ◌≡◌, ◌≢◌, ◌↔◌, refl, arith, Bool, true, false, List, [], ◌∷◌, ◌++◌, Option, none,
  some, Text, codes, text_eq, length, if◌then◌else◌, ℤ, pos, negsuc, Run, returns, ok,
}
use pmx.Tokens.{next_token}
use pmx.Pod.{Packet, float_argument}
use pmx.Units.{Reader, BusCall, BuildStep, is_positive, list_reply}
use pmx.Units.Reading.{list_reply-ne-none}
use pmx.Collections.{
  proxy_added_callback, PropertyKey, object_id_key, node_id_key, port_name_key, WpObject, WpProxy,
  node_proxy, port_proxy,
}
use pmx.Collections.Results.{proxies_of}
use pmx.ProxyWatcher.{get_proxy, Watcher}
use pmx.ProxyWatcher.Events.{process_node_params}
use pmx.PipewireTools.{SetParam}
use pmx.Commands.Order.{Calling, all_calls, start_command-Calling}
use pmx.Commands.Start.{start_command}
use pmx.Commands.Results.{send_command-outcome}
use pmx.Commands.SetupDelivery.{id_of, setup_command-process_node_params}
use pmx.Commands.Setup.{setup_command}
use pmx.Commands.Send.{RequestMessage, send_kind, osc_kind, send_command}
use pmx.Commands.Status.{check_osc_connections}
use pmx.Commands.Status.Links.{IsWired, check_osc_connections-IsWired}
use pmx.Commands.Status.Safety.{check_osc_connections-proxies_of}

no_bus : List BusCall → BusCall → ℤ
no_bus calls call = negsuc 4

all_built : BuildStep → ℤ
all_built step = pos 0

no_text : ℤ → Text
no_text n = codes "Interrupted system call"

start_command-Calling_example :
    Calling no_bus all_built no_text [] all_calls (start_command no_bus all_built no_text)
start_command-Calling_example = start_command-Calling no_bus all_built no_text

-- Messages that are lists of numbers in one array: a pair of whether the array has been entered.
abbrev enter : Bool × List ℕ → ℤ × (Bool × List ℕ)
enter (false, x ∷ xs) = (pos 1, (true, xs))
enter (false, []) = (pos 0, (false, []))
enter (true, xs) = (pos 0, (true, xs))

abbrev is_end : Bool × List ℕ → Bool
is_end (b, []) = true
is_end (b, x ∷ xs) = false

abbrev read : Bool × List ℕ → ℤ × ℕ × (Bool × List ℕ)
read (b, []) = (pos 0, 0, (b, []))
read (b, x ∷ xs) = (pos 1, x, (b, xs))

enter_forward :
    (m : Bool × List ℕ) → is_positive (enter m).0 ≡ true → length (enter m).1.1 < length m.1
enter_forward (false, x ∷ xs) h = omega arith
enter_forward (false, []) h = cc
enter_forward (true, xs) h = cc

read_forward :
    (m : Bool × List ℕ) → is_positive (read m).0 ≡ true → length (read m).2.1 < length m.1
read_forward (b, []) h = cc
read_forward (b, x ∷ xs) h = omega arith

abbrev numbers : Reader ℕ
numbers = record {
  Message = Bool × List ℕ;
  enter_array = enter;
  at_end = is_end;
  enter_struct = λ m. (pos 1, m);
  read_struct = read;
  exit_container = λ m. m;
  remaining = λ m. length m.1;
  enter_array_forward = enter_forward;
  enter_struct_forward = λ m. omega arith;
  read_struct_forward = read_forward;
  exit_container_forward = λ m. omega arith;
}

list_reply-ne-none_example : list_reply numbers no_text 4 (pos 1, (false, 9 ∷ 8 ∷ 7 ∷ [])) ≢ none
list_reply-ne-none_example =
    list_reply-ne-none numbers no_text 4 (pos 1) (false, 9 ∷ 8 ∷ 7 ∷ []) (omega arith)

abbrev node_named : Text → ℤ → WpProxy
node_named name id = record {
  object_id = id;
  name = name;
  path = [];
  type = node_proxy;
  node_id = none;
}

abbrev osc_port : ℤ → ℤ → WpProxy
osc_port id node = record {
  object_id = id;
  name = codes "pmx-osc";
  path = [];
  type = port_proxy;
  node_id = some node;
}

abbrev some_proxies : List WpProxy
some_proxies =
    node_named (codes "pmx-midi-router") (pos 30)
    ∷ node_named (codes "pmx-filter-chain-ctrl") (pos 40)
    ∷ node_named (codes "pmx-layer-channels-ins") (pos 50)
    ∷ osc_port (pos 31) (pos 30)
    ∷ osc_port (pos 41) (pos 40)
    ∷ []

check_osc_connections-IsWired_example :
    (check_osc_connections some_proxies [] ≡ returns []) ↔ IsWired some_proxies []
check_osc_connections-IsWired_example = check_osc_connections-IsWired some_proxies []

abbrev port_properties : PropertyKey → Option Text
port_properties object_id_key = some (codes "31")
port_properties port_name_key = some (codes "pmx-osc")
port_properties node_id_key = some (codes "30")
port_properties _ = none

abbrev announced : List WpObject
announced = record { is_node = false; is_port = true; get_property = port_properties } ∷ []

collected : (proxies : List WpProxy) × (proxies_of announced [] ≡ returns proxies)
unfolding proxies_of proxy_added_callback stoi
collected = (_, refl)

check_osc_connections-proxies_of_example :
    (lines : List Text) × (check_osc_connections collected.0 [] ≡ returns lines)
check_osc_connections-proxies_of_example =
    check_osc_connections-proxies_of announced collected.0 [] collected.1

abbrev ctrl_watcher : Watcher ℤ
ctrl_watcher = record {
  proxies =
      record {
        id = 40;
        name = codes "pmx-filter-chain-ctrl";
        connected_client = some 3;
        parameters = [];
        watch_callbacks = [];
      }
      ∷ [];
  watched_names = [];
}

no_client : ℕ → Option ℕ
no_client id = none

message :
    (sent : SetParam ℤ) × ((setup_command no_client some_proxies ctrl_watcher).sent ≡ some sent)
unfolding setup_command get_proxy
message = (_, refl)

setup_command-process_node_params_example :
    ((setup_command no_client some_proxies ctrl_watcher).outcome.result ≡ ok tt)
    × (process_node_params (some message.0.fields)
        ≡ returns (
            some (
              id_of (codes "layerChannels") (codes "pmx-layer-channels-ins") some_proxies
              ++ (id_of (codes "groupChannelsA") (codes "pmx-group-channels-a-ins") some_proxies
                  ++ (id_of (codes "groupChannelsB") (codes "pmx-group-channels-b-ins") some_proxies
                      ++ id_of
                          (codes "inputChannels")
                          (codes "pmx-input-channels-ins")
                          some_proxies)))))
setup_command-process_node_params_example =
    setup_command-process_node_params no_client some_proxies ctrl_watcher message.0 message.1

abbrev no_request : RequestMessage
no_request = record { command = send_kind; sub_command = osc_kind; bytes = [] }

abbrev zero_only : Text → Option ℤ
zero_only s = if text_eq s (codes "0") then some (pos 0) else none

abbrev address_only : Packet ℤ → Run (List ℕ)
address_only p = returns p.address

sent :
    (after : RequestMessage) × (send_command zero_only address_only
        (codes " osc /mix f 0")
        no_request
      ≡ returns (ok tt, after))
unfolding send_command next_token
sent = (_, refl)

send_command-outcome_example :
    (path : Text) × (value : ℤ) × (after_osc : Text) × (after_path : Text)
    × (after_descriptor : Text) × (rest : Text) × (number : Text) × (next_token
          (codes " osc /mix f 0")
        ≡ some (codes "osc", after_osc))
    × (next_token after_osc ≡ some (path, after_path))
    × (next_token after_path ≡ some (codes "f", after_descriptor))
    × (next_token after_descriptor ≡ some (number, rest))
    × (zero_only number ≡ some value)
    × (address_only (record { address = path; arguments = float_argument value ∷ [] })
        ≡ returns sent.0.bytes)
send_command-outcome_example =
    send_command-outcome zero_only address_only (codes " osc /mix f 0") no_request sent.0 sent.1
