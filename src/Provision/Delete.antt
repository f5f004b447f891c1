-- ===== src/Provision/Delete.antt =====
-- src/use_cases/docker_manager/delete_runtime_container.py, and `stop_and_remove_container` of
-- src/use_cases/docker_manager/__init__.py. Removing the internal network, and what netmon is asked
-- for, catch whatever they meet and change nothing of the agent's state: netmon's calls are given
-- back, the network's removal is left out.
use orchestrator_agent.Prelude.{
  ℕ, String, Bool, not, ◌&&◌, Option, none, some, List, [], ◌∷◌, ◌++◌, if◌then◌else◌, str_eq, ◌==◌,
}
use orchestrator_agent.Prelude.Dict.{lookup}
use orchestrator_agent.Operations.{set_error, clear_state, begin_operation, BeginError, delete}
use orchestrator_agent.SerialPorts.{delete_configs}
use orchestrator_agent.Stores.{
  DedicatedNicConfig, remove_client, delete_vnics, delete_config, load_config, load_all_vnics,
  vnics_or_none,
}
use orchestrator_agent.Usage.{remove_device}
use orchestrator_agent.Vnics.{VnicConfig, ProxyArp}
use orchestrator_agent.Provision.{
  Agent, Try, done, raised, World, Removed, removed, absent, remove_raises,
}
use orchestrator_agent.Provision.Create.{Env, step_to}

-- A request to netmon.
pub data NetmonCall : Type 0 where
  return_nic : String → ℕ → NetmonCall
  cleanup_proxy_arp : String → String → String → NetmonCall

-- The end of `_delete_runtime_container_sync`, after the container is gone.
unfoldable pub forget : Env → String → Agent → Agent
unfolding remove_client remove_device delete_vnics delete_configs clear_state step_to
forget e container a =
    let b = record a {
      client_repo = remove_client e.client_write container a.client_repo;
      usage = remove_device container a.usage;
      vnic_file = delete_vnics e.vnic_write container a.vnic_file;
      serial_file = delete_configs e.serial_write container a.serial_file;
    } in
    let c = step_to e container "removing_networks" b in
    record c { operations = clear_state container c.operations }

unfoldable pub after_removal : Env → String → Removed → Agent → Try Unit × Agent
unfolding forget set_error
after_removal e container removed a = (done tt, forget e container a)
after_removal e container absent a = (done tt, forget e container a)
after_removal e container (remove_raises message) a = (
  raised message,
  record a { operations = set_error e.now container message (some "delete") a.operations },
)

-- `_delete_runtime_container_sync`
unfoldable pub delete_sync : World → Env → String → Agent → Try Unit × Agent
unfolding after_removal step_to
delete_sync w e container a =
    after_removal e container (w.stop_and_remove container)
      (step_to e container "stopping_container" a)

abbrev returned : String → Try (Option ℕ) → List NetmonCall
returned nic (raised _) = []
returned nic (done none) = []
returned nic (done (some pid)) = if pid == 0 then [] else return_nic nic pid ∷ []

-- The dedicated NIC goes back to the host, and its configuration is deleted whatever comes of that.
unfoldable return_dedicated :
    World → Env → String → Option DedicatedNicConfig → Agent → List NetmonCall × Agent
unfolding delete_config
return_dedicated w e container none a = ([], a)
return_dedicated w e container (some c) a = (
  returned c.host_interface (w.get_running_pid container),
  record a { nic_file = delete_config e.nic_write container a.nic_file },
)

abbrev nonempty : String → Bool
nonempty s = not (str_eq s "")

abbrev cleaned_up : Option String → Option String → Option String → List NetmonCall
cleaned_up (some ip) (some parent) (some veth) =
    if nonempty ip && (nonempty parent && nonempty veth)
    then cleanup_proxy_arp ip parent veth ∷ []
    else []
cleaned_up _ _ _ = []

abbrev cleaned_bridge : Option ProxyArp → List NetmonCall
cleaned_bridge none = []
cleaned_bridge (some p) = cleaned_up p.proxy_ip p.proxy_parent p.veth_host

unfoldable cleanup_bridges : List VnicConfig → List NetmonCall
cleanup_bridges [] = []
cleanup_bridges (v ∷ vs) = cleaned_bridge v.proxy_arp_config ++ cleanup_bridges vs

-- `delete_runtime_container`
unfoldable delete_container : World → Env → String → Agent → Try Unit × (List NetmonCall × Agent)
unfolding return_dedicated load_config cleanup_bridges load_all_vnics delete_sync
delete_container w e container a =
    let nic = return_dedicated w e container (load_config container a.nic_file) a in
    let bridges =
      cleanup_bridges (vnics_or_none (lookup container (load_all_vnics nic.1.vnic_file))) in
    let gone = delete_sync w e container nic.1 in (gone.0, (nic.0 ++ bridges, gone.1))

-- `start_deletion`
unfoldable start_deletion : Env → String → Agent → Option BeginError × Agent
unfolding begin_operation
start_deletion e container a =
    let begun = begin_operation delete e.now container a.operations in
    (begun.0, record a { operations = begun.1 })
