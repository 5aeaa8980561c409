-- ===== src/Commands/Setup.antt =====
-- src/commands/setup.cpp: the filter chain controller is told the ids of the channels' nodes.
-- What `pw_registry_bind` gives is an argument, as in the proxy watcher.
use pmx.Base.{
  ◌==◌, if◌then◌else◌, ℕ, List, [], ◌∷◌, ◌++◌, Option, none, some, Text, codes, uint32_of_int, err,
  ok,
}
use pmx.Errors.{invalid_argument, pipewire}
use pmx.Collections.{WpProxy}
use pmx.ProxyWatcher.{Proxy, Watcher, client, get_proxy}
use pmx.PipewireTools.{ParamValue, int_param, null_param, SetParam, set_props_param}
use pmx.Commands.{Outcome, fails, int_text, find_named}

-- One of the four blocks: its name in the report, the parameter and the node.
unfoldable pub setup_parameter :
    {R : Type 0} → Text → Text → Text → List WpProxy → Text × Text × ParamValue R
setup_parameter title key name proxies = elim (find_named name proxies) [
  | none ↦ (codes "no " ++ (title ++ codes " proxy found, clearing"), key, null_param)
  | some p ↦ (title ++ (codes " proxy found, " ++ int_text p.object_id), key, int_param p.object_id)
]

unfoldable pub setup_parameters : {R : Type 0} → List WpProxy → List (Text × Text × ParamValue R)
setup_parameters proxies =
    setup_parameter (codes "layer") (codes "layerChannels") (codes "pmx-layer-channels-ins") proxies
    ∷ setup_parameter (codes "group a") (codes "groupChannelsA") (codes "pmx-group-channels-a-ins")
        proxies
    ∷ setup_parameter (codes "group b") (codes "groupChannelsB") (codes "pmx-group-channels-b-ins")
        proxies
    ∷ setup_parameter (codes "inputs") (codes "inputChannels") (codes "pmx-input-channels-ins")
        proxies
    ∷ []

abbrev pub report_of : {R : Type 0} → List (Text × Text × ParamValue R) → List Text
report_of [] = []
report_of ((line, key, value) ∷ ps) = line ∷ report_of ps

abbrev pub parameters_of :
    {R : Type 0} → List (Text × Text × ParamValue R) → List (Text × ParamValue R)
parameters_of [] = []
parameters_of ((line, key, value) ∷ ps) = (key, value) ∷ parameters_of ps

-- `Proxy::client` keeps the handle in the proxy, which the watcher shares.
abbrev pub keep_client : {R : Type 0} → Proxy R → List (Proxy R) → List (Proxy R)
keep_client p [] = []
keep_client p (q ∷ proxies) = if q.id == p.id then p ∷ proxies else q ∷ keep_client p proxies

pub record SetupOutcome (R : Type 0) : Type 0 where
  pub outcome : Outcome
  pub watcher : Watcher R
  pub sent : Option (SetParam R)

-- What is returned and printed, the watcher after it, and the message that is sent.
unfoldable pub setup_command :
    {R : Type 0} → (ℕ → Option ℕ) → List WpProxy → Watcher R → SetupOutcome R
unfolding setup_parameters client
setup_command {R} bind proxies w = elim (find_named (codes "pmx-filter-chain-ctrl") proxies) [
  | none ↦ record {
    outcome = fails (invalid_argument (codes "couldn't find filter chain ctrl"));
    watcher = w;
    sent = none;
  }
  | some ctrl ↦ elim (get_proxy (uint32_of_int ctrl.object_id) w) [
    | none ↦ record {
      outcome = fails (invalid_argument (codes "couldn't find filter chain ctrl pw proxy"));
      watcher = w;
      sent = none;
    }
    | some p ↦
        let (handle, kept) = client bind p in
        let after = record w { proxies = keep_client kept w.proxies } in
        let report = report_of (setup_parameters {R = R} proxies) in
        elim handle [
          | none ↦ record {
            outcome = record {
              printed = report;
              result = err (pipewire (codes "couldn't get client"));
            };
            watcher = after;
            sent = none;
          }
          | some c ↦ record {
            outcome = record { printed = report; result = ok tt };
            watcher = after;
            sent = some (set_props_param c (parameters_of (setup_parameters proxies)));
          }
        ]
  ]
]
