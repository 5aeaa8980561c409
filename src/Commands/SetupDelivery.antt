-- ===== src/Commands/SetupDelivery.antt =====
-- src/commands/setup.cpp with src/proxy_watcher.cpp: what `setup` sends and a watcher reads.
use mathlib.Core.List.{append-nil}
use pmx.Base.{
  ℕ, ◌≡◌, ap, ◌∙◌, arith, List, [], ◌∷◌, ◌++◌, Option, none, some, Text, codes, returns, ok,
}
use pmx.Properties.{Property, int_value}
use pmx.Collections.{WpProxy}
use pmx.PipewireTools.{
  ParamValue, SetParam, set_props_param, build_set_params_message, readable,
  process_node_params-build_set_params_message,
}
use pmx.ProxyWatcher.{Watcher}
use pmx.ProxyWatcher.Events.{process_node_params}
use pmx.Commands.{find_named}
use pmx.Commands.Setup.{setup_parameter, setup_parameters, parameters_of, setup_command}

-- What a node with one of the names that `setup` looks for is told of.
abbrev pub id_of : {R : Type 0} → Text → Text → List WpProxy → List (Property R)
id_of key name proxies = elim (find_named name proxies) [
  | none ↦ []
  | some p ↦ (key, int_value p.object_id) ∷ []
]

readable-setup_parameter :
    {R : Type 0} (title key name : Text) (proxies : List WpProxy)
    (rest : List (Text × Text × ParamValue R))
    → readable (parameters_of (setup_parameter title key name proxies ∷ rest))
      ≡ id_of key name proxies ++ readable (parameters_of rest)
unfolding setup_parameter
readable-setup_parameter title key name proxies rest = ground arith

readable-setup_parameters :
    {R : Type 0} (proxies : List WpProxy)
    → readable (parameters_of (setup_parameters {R = R} proxies))
      ≡ id_of (codes "layerChannels") (codes "pmx-layer-channels-ins") proxies
        ++ (id_of (codes "groupChannelsA") (codes "pmx-group-channels-a-ins") proxies
            ++ (id_of (codes "groupChannelsB") (codes "pmx-group-channels-b-ins") proxies
                ++ id_of (codes "inputChannels") (codes "pmx-input-channels-ins") proxies))
unfolding setup_parameters
readable-setup_parameters {R} proxies =
    let inputs : List (Text × Text × ParamValue R) =
      setup_parameter (codes "inputs") (codes "inputChannels") (codes "pmx-input-channels-ins")
        proxies
      ∷ [] in
    let group_b : List (Text × Text × ParamValue R) =
      setup_parameter (codes "group b") (codes "groupChannelsB") (codes "pmx-group-channels-b-ins")
        proxies
      ∷ inputs in
    let group_a : List (Text × Text × ParamValue R) =
      setup_parameter (codes "group a") (codes "groupChannelsA") (codes "pmx-group-channels-a-ins")
        proxies
      ∷ group_b in
    readable-setup_parameter (codes "layer") (codes "layerChannels")
      (codes "pmx-layer-channels-ins") proxies group_a
    ∙ ap (◌++◌ (id_of (codes "layerChannels") (codes "pmx-layer-channels-ins") proxies)) (
        readable-setup_parameter (codes "group a") (codes "groupChannelsA")
          (codes "pmx-group-channels-a-ins") proxies group_b
        ∙ ap (◌++◌ (id_of (codes "groupChannelsA") (codes "pmx-group-channels-a-ins") proxies)) (
            readable-setup_parameter (codes "group b") (codes "groupChannelsB")
              (codes "pmx-group-channels-b-ins") proxies inputs
            ∙ ap (◌++◌ (id_of (codes "groupChannelsB") (codes "pmx-group-channels-b-ins") proxies))
                (readable-setup_parameter (codes "inputs") (codes "inputChannels")
                    (codes "pmx-input-channels-ins") proxies []
                  ∙ append-nil
                      (id_of (codes "inputChannels") (codes "pmx-input-channels-ins") proxies))))

setup_command_sent :
    {R : Type 0} (bind : ℕ → Option ℕ) (proxies : List WpProxy) (w : Watcher R) (sent : SetParam R)
    → (setup_command bind proxies w).sent ≡ some sent
    → ((setup_command bind proxies w).outcome.result ≡ ok tt)
      × (sent.fields ≡ build_set_params_message (parameters_of (setup_parameters proxies)))
unfolding setup_command set_props_param
setup_command_sent bind proxies w sent h = ground arith

-- Where `setup` sends a message, it returns no error, and the watcher of a node decodes the message
-- to the ids of those of the four nodes that are there, in their order, each under its key.
pub setup_command-process_node_params :
    {R : Type 0} (bind : ℕ → Option ℕ) (proxies : List WpProxy) (w : Watcher R) (sent : SetParam R)
    → (setup_command bind proxies w).sent ≡ some sent
    → ((setup_command bind proxies w).outcome.result ≡ ok tt)
      × (process_node_params (some sent.fields)
          ≡ returns (
              some (
                id_of (codes "layerChannels") (codes "pmx-layer-channels-ins") proxies
                ++ (id_of (codes "groupChannelsA") (codes "pmx-group-channels-a-ins") proxies
                    ++ (id_of (codes "groupChannelsB") (codes "pmx-group-channels-b-ins") proxies
                        ++ id_of
                            (codes "inputChannels")
                            (codes "pmx-input-channels-ins")
                            proxies)))))
setup_command-process_node_params bind proxies w sent h =
    let (fine, fields) = setup_command_sent bind proxies w sent h in
    (
      fine,
      ap (λ f. process_node_params (some f)) fields
          ∙ process_node_params-build_set_params_message (parameters_of (setup_parameters proxies))
          ∙ ap (λ ps. returns (some ps)) (readable-setup_parameters proxies),
    )
