-- ===== src/Tests/ReconnectionRuns.antt =====
-- src/use_cases/network_reconnection.py on small inputs.
use orchestrator_agent.Prelude.{◌≡◌, refl, String, true, false, none, some, [], ◌∷◌, any}
use orchestrator_agent.Prelude.Dict.{lookup}
use orchestrator_agent.SerialPorts.{written, holds}
use orchestrator_agent.Vnics.{VnicConfig}
use orchestrator_agent.Provision.{done, says}
use orchestrator_agent.Listener.{Change}
use orchestrator_agent.Reconnection.{
  World, container_with, disconnect, connect, Vnics, reconnect_containers,
}
use orchestrator_agent.Reconnection.Concerned.{is_for, reconnect_containers_concerned}
use orchestrator_agent.Tests.Samples.{blank}

abbrev vnic : String → VnicConfig
vnic parent = record blank {
  name = some "lan";
  parent_interface = some parent;
  network_mode = some "static";
  ip = some "10.0.0.9/24";
  mac_address = some "02:01";
}

-- A container on the interfaces eth1 and eth10; netmon fails.
abbrev host : World
host = record {
  interface_cache =
      (
        "wlan0",
        record { interface_kind = some "wifi"; interface_subnet = none; interface_gateway = none },
      )
      ∷ [];
  get_container =
      λ _. container_with ("macvlan_eth1_a" ∷ "macvlan_eth10_b" ∷ "plc_internal" ∷ []) 77;
  subnet_of = λ _. some "192.168.1.0/24";
  macvlan_network = λ _ _ _. done "macvlan_eth1_c";
  in_network = λ _ _. some true;
  setup_answer = says false;
}

abbrev file : Vnics
file = holds (("plc", vnic "eth1" ∷ []) ∷ ("radio", vnic "wlan0" ∷ []) ∷ [])

abbrev change : Change
change = record {
  interface = some "eth1";
  subnets = some "10.0.0.0/24" ∷ [];
  gateway = some "10.0.0.1";
  change_type = none;
}

-- A change of eth1 disconnects the container from the network of eth10 too.
takes_eth10_along :
    (reconnect_containers host written "eth1" change file).0
    ≡ ("plc", disconnect "macvlan_eth1_a")
      ∷ ("plc", disconnect "macvlan_eth10_b")
      ∷ ("plc", connect "macvlan_eth1_c" (some "10.0.0.9") (some "02:01"))
      ∷ []
unfolding reconnect_containers lookup
takes_eth10_along = refl

reconnect_containers_concerned_example :
    any (is_for "plc") (reconnect_containers host written "wlan0" change file).0 ≡ false
unfolding reconnect_containers
reconnect_containers_concerned_example =
    reconnect_containers_concerned "plc" host written "wlan0" change file refl
