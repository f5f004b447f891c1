-- ===== src/Tests/SelfDestructRuns.antt =====
-- src/use_cases/docker_manager/selfdestruct.py on small inputs.
use orchestrator_agent.Prelude.{
  ◌≡◌, refl, true, false, none, some, [], ◌∷◌, any, if◌then◌else◌, str_eq,
}
use orchestrator_agent.Prelude.Dict.{keys, contains}
use orchestrator_agent.SerialPorts.{missing, holds}
use orchestrator_agent.Provision.{Agent, done}
use orchestrator_agent.SelfDestruct.{
  Reply, ok, not_found, raises, Handle, found, nowhere, World, return_nic, stop_container,
  remove_container, remove_network, cleanup_all_proxy_arp, remove_own,
}
use orchestrator_agent.SelfDestruct.Cleanup.{is_internal, is_macvlan}
use orchestrator_agent.SelfDestruct.Run.{start_self_destruct, self_destruct}
use orchestrator_agent.SelfDestruct.Quiet.{is_own}
use orchestrator_agent.SelfDestruct.Order.{AllGone, self_destruct-AllGone}
use orchestrator_agent.SelfDestruct.Again.{raised_something, self_destruct-start_self_destruct}
use orchestrator_agent.Tests.Samples.{new_agent, env}

abbrev handle : Reply → Handle
handle r = record { get = ok; stop = ok; remove = r }

-- Docker, where the removal of the runtime container replies as it is told.
abbrev docker : Reply → World
docker r = record {
  running_pid = λ _. done (some 77);
  containers = λ name. if str_eq name "plc" then handle r else handle ok;
  internal_network = λ _. none;
  list_networks = done (
      record { network_name = "macvlan_eth0_192.168.1.0_24"; network_reload = ok; connected = [] }
      ∷ []);
  get_volume = not_found "no such volume";
  hostname_variable = some "abc";
  get_hostname = done "abc";
  host_name = "orchestrator_agent";
  get_self = λ id. if str_eq id "orchestrator_agent" then found "orchestrator_agent" else nowhere;
  labelled = done [];
  remove_self = ok;
  write_raises = "disk full";
}

abbrev agent : Agent
agent = record new_agent {
  client_repo = record {
    clients = ("plc", record { ip = "172.18.0.9"; client_name = "plc" }) ∷ [];
    clients_file = missing;
  };
  nic_file = holds (("plc", record { raw_interface = some "eth1" }) ∷ []);
}

whole_run :
    (self_destruct (docker ok) env agent).acts
    ≡ return_nic "eth1" 77
      ∷ stop_container "plc"
      ∷ remove_container "plc" true
      ∷ remove_network "macvlan_eth0_192.168.1.0_24"
      ∷ cleanup_all_proxy_arp
      ∷ stop_container "autonomy_netmon"
      ∷ remove_container "autonomy_netmon" true
      ∷ remove_own "orchestrator_agent"
      ∷ []
unfolding self_destruct keys contains
whole_run = refl

own_removed : any is_own (self_destruct (docker ok) env agent).acts ≡ true
unfolding self_destruct keys contains
own_removed = refl

self_destruct-AllGone_example : AllGone (docker ok) env agent
self_destruct-AllGone_example = self_destruct-AllGone (docker ok) env agent own_removed

self_destruct-start_self_destruct_example :
    (start_self_destruct env
      (self_destruct (docker (raises "busy")) env (start_self_destruct env agent).1).agent).0
    ≡ raised_something
        (self_destruct (docker (raises "busy")) env (start_self_destruct env agent).1).exception
self_destruct-start_self_destruct_example =
    self_destruct-start_self_destruct (docker (raises "busy")) env env env agent

-- The removal of a runtime container that fails ends the uninstallation.
stopped_short :
    ((self_destruct (docker (raises "busy")) env agent).exception ≡ some "busy")
    × (any is_own (self_destruct (docker (raises "busy")) env agent).acts ≡ false)
unfolding self_destruct keys contains
stopped_short = (refl, refl)

-- The names of networks that the agent makes, and which of them are cleaned up.
pattern_tests :
    (is_internal "123e4567-E89b-12d3-a456-426614174000_internal" ≡ true)
    × (is_internal "plc_internal" ≡ false)
    × (is_macvlan "macvlan_eth0_192.168.1.0_24" ≡ true)
    × (is_macvlan "macvlan_eth0_unknown" ≡ false)
    × (is_macvlan "macvlan_br-lan_192.168.1.0_24" ≡ false)
unfolding is_internal is_macvlan
pattern_tests = (refl, refl, refl, refl, refl)
