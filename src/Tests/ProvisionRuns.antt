-- ===== src/Tests/ProvisionRuns.antt =====
-- src/use_cases/docker_manager on small inputs.
use orchestrator_agent.Prelude.{◌≡◌, refl, String, true, none, some, List, [], ◌∷◌, arith}
use orchestrator_agent.Prelude.Dict.{lookup, insert, contains}
use orchestrator_agent.Networks.{get_interface_type, get_macvlan_network_key}
use orchestrator_agent.Operations.{creating}
use orchestrator_agent.Operations.Exclusion.{busy}
use orchestrator_agent.Vnics.{VnicConfig}
use orchestrator_agent.Provision.{Agent, raised}
use orchestrator_agent.Provision.Checks.{valid, validate}
use orchestrator_agent.Provision.Create.{Order, Created, create_sync}
use orchestrator_agent.Provision.CreateLaws.{Ends, create_sync-Ends, create_sync_check_raises}
use orchestrator_agent.Provision.Delete.{delete_sync}
use orchestrator_agent.Provision.DeleteLaws.{DeleteEnds, delete_sync_outcome}
use orchestrator_agent.Tests.Samples.{blank, new_agent, works, env}

abbrev wired : String → String → VnicConfig
wired nic mask = record blank {
  name = some nic;
  parent_interface = some nic;
  subnet = some mask;
  gateway = some "192.168.1.1";
}

abbrev order : List VnicConfig → Order
order vs = record { container = "plc"; vnics = vs; serials = []; version = none; dedicated = none }

-- The creation of plc is under way.
abbrev started : Agent
started = record new_agent {
  operations = record {
    operations =
        (
          "plc",
          record {
            status = creating;
            operation = "create";
            step = none;
            error = none;
            started_at = 8;
            updated_at = 8;
          },
        )
        ∷ [];
  };
}

abbrev two_nics : List VnicConfig
two_nics = wired "eth0" "255.255.255.0" ∷ wired "eth1" "255.255.0.0" ∷ []

two_nics_valid : validate works started.nic_file none two_nics ≡ valid
unfolding validate get_interface_type lookup get_macvlan_network_key insert
two_nics_valid = refl

create_sync-Ends_example : Ends "plc" (create_sync works env (order two_nics) started)
create_sync-Ends_example =
    create_sync-Ends works env (order two_nics) started
      (λ e. absurd (ground (arith, two_nics_valid, e)))

abbrev bad_mask : List VnicConfig
bad_mask = wired "eth0" "255.255.255.x" ∷ []

create_sync_check_raises_example :
    ((message : String) × ((create_sync works env (order bad_mask) started).0 ≡ raised message))
    × (busy "plc" (create_sync works env (order bad_mask) started).1.1.operations ≡ true)
unfolding contains validate get_interface_type lookup get_macvlan_network_key
create_sync_check_raises_example =
    create_sync_check_raises works env (order bad_mask) started refl refl refl

delete_sync_outcome_example :
    DeleteEnds "plc" started (works.stop_and_remove "plc") (delete_sync works env "plc" started)
delete_sync_outcome_example = delete_sync_outcome works env "plc" started refl refl

abbrev made : Created
made = record {
  dhcp_vnics = [];
  wifi_vnics = two_nics;
  vnic_configs = two_nics;
  container_pid = 77;
}

abbrev cleared : Agent
cleared = record started { operations = record { operations = [] } }
