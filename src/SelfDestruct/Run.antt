-- ===== src/SelfDestruct/Run.antt =====
-- `start_self_destruct` and `self_destruct` of src/use_cases/docker_manager/selfdestruct.py. The
-- clock is read once.
use orchestrator_agent.Prelude.{String, Bool, true, false, Option, none, some, List, [], ◌∷◌}
use orchestrator_agent.Operations.{set_deleting, set_step, set_error}
use orchestrator_agent.Provision.{Agent}
use orchestrator_agent.Provision.Create.{Env}
use orchestrator_agent.SelfDestruct.{
  Reply, ok, not_found, raises, Found, found, nowhere, get_raises, World, Act,
  cleanup_all_proxy_arp, remove_volume, remove_own, get_self_container,
}
use orchestrator_agent.SelfDestruct.Cleanup.{
  Ran, then_do, return_all_dedicated_nics, removed_container, delete_all_runtime_containers,
  cleanup_orchestrator_networks,
}

abbrev pub orchestrator_status_id : String
orchestrator_status_id = "__orchestrator__"

abbrev pub netmon_container_name : String
netmon_container_name = "autonomy_netmon"

unfoldable pub start_self_destruct : Env → Agent → Bool × Agent
unfolding set_deleting set_step
start_self_destruct e a =
    let began = set_deleting e.now orchestrator_status_id a.operations in
    (
      began.0,
      record a {
        operations = elim began.0 [
          | true ↦ set_step e.now orchestrator_status_id "starting" began.1
          | false ↦ began.1
        ];
      },
    )

-- `operations_state.set_step(ORCHESTRATOR_STATUS_ID, step)`
unfoldable pub at_step : Env → String → Agent → Ran
unfolding set_step
at_step e step a = record {
  acts = [];
  exception = none;
  agent = record a { operations = set_step e.now orchestrator_status_id step a.operations };
}

-- A step of the uninstallation, named before it runs.
unfoldable pub named : Env → String → (Agent → Ran) → Agent → Ran
unfolding then_do at_step
named e step run = then_do (at_step e step) run

-- `_cleanup_proxy_arp_veths`
unfoldable pub cleanup_proxy_arp_veths : Agent → Ran
cleanup_proxy_arp_veths a = record {
  acts = cleanup_all_proxy_arp ∷ [];
  exception = none;
  agent = a;
}

abbrev pub volume_acts : Reply → List Act
volume_acts ok = remove_volume ∷ []
volume_acts (not_found m) = []
volume_acts (raises m) = []

-- `_delete_shared_volume`, which raises nothing.
unfoldable pub delete_shared_volume : World → Agent → Ran
delete_shared_volume w a = record { acts = volume_acts w.get_volume; exception = none; agent = a }

abbrev reply_exception : Reply → Option String
reply_exception ok = none
reply_exception (not_found m) = some m
reply_exception (raises m) = some m

abbrev pub own_removed : World → Found → Agent → Ran
own_removed w (found name) a = record {
  acts = remove_own name ∷ [];
  exception = reply_exception w.remove_self;
  agent = a;
}
own_removed w nowhere a = record {
  acts = [];
  exception = some "Could not detect orchestrator-agent container for self-destruct";
  agent = a;
}
own_removed w (get_raises m) a = record { acts = []; exception = some m; agent = a }

-- `_delete_orchestrator_container`
unfoldable pub delete_orchestrator_container : World → Agent → Ran
unfolding get_self_container
delete_orchestrator_container w a = own_removed w (get_self_container w) a

unfoldable pub in_order : List (Agent → Ran) → Agent → Ran
unfolding then_do
in_order [] a = record { acts = []; exception = none; agent = a }
in_order (step ∷ steps) a = then_do step (in_order steps) a

-- What comes before the removal of the agent's own container.
unfoldable pub cleanup_steps : World → Env → List (Agent → Ran)
unfolding named return_all_dedicated_nics delete_all_runtime_containers
    cleanup_orchestrator_networks cleanup_proxy_arp_veths removed_container delete_shared_volume
cleanup_steps w e =
    named e "returning_dedicated_nics" (return_all_dedicated_nics w e)
    ∷ named e "deleting_runtimes" (delete_all_runtime_containers w e)
    ∷ named e "cleaning_networks" (cleanup_orchestrator_networks w)
    ∷ named e "cleaning_proxy_arp" cleanup_proxy_arp_veths
    ∷ named e "deleting_netmon" (removed_container w netmon_container_name)
    ∷ named e "deleting_volume" (delete_shared_volume w)
    ∷ []

unfoldable pub all_steps : World → Env → Agent → Ran
unfolding then_do in_order cleanup_steps named delete_orchestrator_container
all_steps w e =
    then_do (in_order (cleanup_steps w e))
      (named e "removing_self" (delete_orchestrator_container w))

abbrev pub caught : Env → Option String → Ran → Ran
caught e none ran = ran
caught e (some m) ran = record ran {
  agent = record ran.agent {
    operations =
        set_error e.now orchestrator_status_id m (some "self_destruct") ran.agent.operations;
  };
}

unfoldable pub self_destruct : World → Env → Agent → Ran
unfolding all_steps set_error
self_destruct w e a = let ran = all_steps w e a in caught e ran.exception ran
