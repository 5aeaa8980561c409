-- ===== src/Constants.antt =====
-- src/constants.cpp: the names of the services and of the nodes. The last two arrays have eight
-- places and four names; the rest are empty texts.
use pmx.Base.{List, [], ◌∷◌, Text, codes}

abbrev pub service_dependencies : List Text
service_dependencies = codes "pipewire.service" ∷ codes "wireplumber.service" ∷ []

abbrev pub service_names : List Text
service_names =
    codes "pmx-filter-chain-ctrl.service"
    ∷ codes "pmx-grpc-api.service"
    ∷ codes "pmx-metadata-manager.service"
    ∷ codes "pmx-midi-router.service"
    ∷ codes "pmx-osc-network-receiver.service"
    ∷ codes "pmx-osc-network-sender.service"
    ∷ codes "pmx-traktor-z1-router.service"
    ∷ codes "pmx-filter-chains.service"
    ∷ codes "pmx-jack-midi-clock.service"
    ∷ codes "pmx-osc-sl-network-receiver.service"
    ∷ codes "pmx-osc-sl-network-sender.service"
    ∷ codes "pmx-slp-ctrl.service"
    ∷ codes "pmx-lp-mini-init.service"
    ∷ []

abbrev pub all_services : List Text
all_services =
    codes "pipewire.service"
    ∷ codes "wireplumber.service"
    ∷ codes "pmx-filter-chain-ctrl.service"
    ∷ codes "pmx-grpc-api.service"
    ∷ codes "pmx-metadata-manager.service"
    ∷ codes "pmx-midi-router.service"
    ∷ codes "pmx-osc-network-receiver.service"
    ∷ codes "pmx-osc-network-sender.service"
    ∷ codes "pmx-traktor-z1-router.service"
    ∷ codes "pmx-filter-chains.service"
    ∷ codes "pmx-jack-midi-clock.service"
    ∷ codes "pmx-osc-sl-network-receiver.service"
    ∷ codes "pmx-osc-sl-network-sender.service"
    ∷ codes "pmx-sooperlooper.service"
    ∷ codes "pmx-slp-ctrl.service"
    ∷ codes "pmx-lp-mini-init.service"
    ∷ []

abbrev pub pmx_osc_producer_node_names : List Text
pmx_osc_producer_node_names =
    codes "pmx-midi-router" ∷ codes "pmx-osc-network-receiver" ∷ codes "pmx-traktor-z1-router" ∷ []

abbrev pub pmx_osc_consumer_node_names : List Text
pmx_osc_consumer_node_names = codes "pmx-filter-chain-ctrl" ∷ codes "pmx-osc-network-sender" ∷ []

abbrev pub filter_chain_node_names : List Text
filter_chain_node_names =
    codes "pmx-layer-channels-ins"
    ∷ codes "pmx-layer-channels-outs"
    ∷ codes "pmx-group-channels-a-ins"
    ∷ codes "pmx-group-channels-b-ins"
    ∷ codes "pmx-group-channels-a-outs"
    ∷ codes "pmx-group-channels-b-outs"
    ∷ codes "pmx-input-channels-ins"
    ∷ codes "pmx-input-channels-outs"
    ∷ []

abbrev pub filter_chain_in_node_names : List Text
filter_chain_in_node_names =
    codes "pmx-layer-channels-ins"
    ∷ codes "pmx-group-channels-a-ins"
    ∷ codes "pmx-group-channels-b-ins"
    ∷ codes "pmx-input-channels-ins"
    ∷ []
    ∷ []
    ∷ []
    ∷ []
    ∷ []

abbrev pub filter_chain_out_node_names : List Text
filter_chain_out_node_names =
    codes "pmx-layer-channels-outs"
    ∷ codes "pmx-group-channels-a-outs"
    ∷ codes "pmx-group-channels-b-outs"
    ∷ codes "pmx-input-channels-outs"
    ∷ []
    ∷ []
    ∷ []
    ∷ []
    ∷ []
