-- ===== src/Tests/StatusRuns.antt =====
-- src/use_cases/docker_manager/get_device_status.py on small inputs.
use orchestrator_agent.Prelude.{
  ◌≡◌, refl, String, Bool, true, false, none, some, [], ◌∷◌, if◌then◌else◌,
}
use orchestrator_agent.Prelude.Dict.{lookup, insert}
use orchestrator_agent.Prelude.Value.{pos}
use orchestrator_agent.Prelude.Texts.{ends_with}
use orchestrator_agent.Operations.{init}
use orchestrator_agent.SerialPorts.{holds}
use orchestrator_agent.Vnics.{VnicConfig}
use orchestrator_agent.Provision.{Agent, World, remove_raises}
use orchestrator_agent.Provision.Delete.{delete_sync}
use orchestrator_agent.Provision.Status.{
  Network, Docker, there, failed, networks_of, get_device_status_data,
}
use orchestrator_agent.Provision.Visible.{
  shown_network, shown_message, get_device_status_data_hidden, get_device_status_data-delete_sync,
}
use orchestrator_agent.Tests.Samples.{blank, new_agent, works, env}

abbrev vnic : Bool → VnicConfig
vnic wifi = record blank {
  name = some "lan";
  parent_interface = some "eth1";
  dhcp_ip = if wifi then none else some "10.0.0.9";
  is_wifi = some wifi;
}

abbrev at_address : String → Network
at_address ip = record { ip_address = some ip; mac_address = none; gateway = none }

abbrev docker : Docker
docker = record {
  look = λ _. there (record {
    status_text = some "running";
    running = true;
    uptime = some (pos 60);
    networks =
        ("plc_internal", at_address "172.18.0.2")
        ∷ ("macvlan_eth10_a", at_address "192.168.1.7")
        ∷ [];
    restart_count = 0;
    exit_code = none;
    health = none;
  });
  has_null_ip = λ _. true;
  null_text = "'NoneType' object has no attribute 'split'";
}

abbrev agent : Bool → Agent
agent wifi = record new_agent { vnic_file = holds (("plc", vnic wifi ∷ []) ∷ []) }

get_device_status_data_hidden_example :
    shown_network "plc_internal" (get_device_status_data docker (agent false) "plc") ≡ none
unfolding get_device_status_data lookup ends_with
get_device_status_data_hidden_example =
    get_device_status_data_hidden "plc_internal" "plc" docker (agent false) refl refl

-- The network of eth10 is shown with the lease of eth1.
lease_of_eth1 :
    networks_of docker (vnic false ∷ []) (
      ("plc_internal", at_address "172.18.0.2")
      ∷ ("macvlan_eth10_a", at_address "192.168.1.7")
      ∷ [])
    ≡ some (("macvlan_eth10_a", at_address "10.0.0.9") ∷ [])
unfolding networks_of lookup insert ends_with
lease_of_eth1 = refl

-- A WiFi vNIC that waits for its lease, where the configuration has a null address.
null_address :
    get_device_status_data docker (agent true) "plc"
    ≡ failed "'NoneType' object has no attribute 'split'"
unfolding get_device_status_data lookup insert ends_with init
null_address = refl

abbrev stuck : World
stuck = record works { stop_and_remove = λ _. remove_raises "timed out" }

get_device_status_data-delete_sync_example :
    shown_message
      (get_device_status_data docker (delete_sync stuck env "plc" (agent false)).1 "plc")
    ≡ some "Operation failed: timed out"
unfolding get_device_status_data
get_device_status_data-delete_sync_example =
    get_device_status_data-delete_sync stuck env docker "plc" "timed out" (agent false) refl refl
      refl
