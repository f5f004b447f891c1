-- ===== src/Provision/DeleteLaws.antt =====
-- What a deletion of src/use_cases/docker_manager/delete_runtime_container.py leaves.
use orchestrator_agent.Prelude.{
  ◌≡◌, refl, ap, String, false, none, some, [], arith, eq_iff, str_eq, Bool-cases, inl, inr,
  if◌then◌else◌,
}
use orchestrator_agent.Prelude.Dict.{
  Dict, lookup, remove, contains, lookup-remove, contains-lookup, lookup-contains,
}
use orchestrator_agent.Operations.Exclusion.{busy}
use orchestrator_agent.SerialPorts.{
  written, read_json_file, load_configs, delete_configs, modify, write_json_file, ports_or_none,
}
use orchestrator_agent.Stores.{
  ClientRepo, get_client, remove_client, write_to_file, load_vnics, delete_vnics, delete_key,
  vnics_or_none,
}
use orchestrator_agent.Usage.{DevicesUsageBuffer, has_device, remove_device}
use orchestrator_agent.Provision.{
  Agent, Try, done, raised, World, Removed, removed, absent, remove_raises,
}
use orchestrator_agent.Provision.Create.{Env, step_to}
use orchestrator_agent.Provision.CreateLaws.{clear_state-busy, set_error-not_busy}
use orchestrator_agent.Provision.Delete.{forget, after_removal, delete_sync}

-- The table without a key, whether it was there or not.
lookup-delete_key :
    {V : Type 0} (k other : String) (m : Dict V)
    → lookup other (delete_key k m) ≡ (if str_eq k other then none else lookup other m)
unfolding delete_key
lookup-delete_key k other m = elim (Bool-cases (contains k m)) [
  | inl there ↦ rw there (lookup-remove k other m)
  | inr gone ↦ rw gone (ground (arith, contains-lookup k m gone, eq_iff k other))
]

deleted_key : {V : Type 0} (k : String) (m : Dict V) → lookup k (delete_key k m) ≡ none
deleted_key k m = ground (arith, lookup-delete_key k k m, eq_iff k k)

get_client-remove_client :
    (e : Env) (name other : String) (r : ClientRepo)
    → get_client other (remove_client e.client_write name r)
      ≡ (if str_eq name other then none else get_client other r)
unfolding get_client remove_client write_to_file
get_client-remove_client e name other r = elim (Bool-cases (contains name r.clients)) [
  | inl there ↦ rw there (lookup-remove name other r.clients)
  | inr gone ↦ rw gone (ground (arith, contains-lookup name r.clients gone, eq_iff name other))
]

has_device-remove_device :
    (name : String) (d : DevicesUsageBuffer) → has_device name (remove_device name d) ≡ false
unfolding has_device remove_device
has_device-remove_device name d = elim (Bool-cases (contains name d.buffers)) [
  | inl there ↦ rw there (
      lookup-contains name (remove name d.buffers)
        (ground (arith, lookup-remove name name d.buffers, eq_iff name name)))
  | inr gone ↦ rw gone gone
]

-- What is left of a container for the agent: a client, a usage buffer, vNICs and serial ports.
abbrev pub Forgotten : String → Agent → Type 0
Forgotten name a =
    (get_client name a.client_repo ≡ none)
    × (has_device name a.usage ≡ false)
    × (load_vnics name a.vnic_file ≡ [])
    × (load_configs name a.serial_file ≡ [])
    × (busy name a.operations ≡ false)

forget-Forgotten :
    (e : Env) (name : String) (a : Agent)
    → e.vnic_write ≡ written
    → e.serial_write ≡ written
    → Forgotten name (forget e name a)
unfolding forget step_to load_vnics delete_vnics load_configs delete_configs modify write_json_file
    read_json_file delete_key
forget-Forgotten e name a v s = (
  ground (arith, get_client-remove_client e name name a.client_repo, eq_iff name name),
  has_device-remove_device name a.usage,
  rw v (ap vnics_or_none (deleted_key name (read_json_file a.vnic_file))),
  rw s (ap ports_or_none (deleted_key name (read_json_file a.serial_file))),
  clear_state-busy name _,
)

-- How a deletion ends, by what Docker answers to the removal; `a` is the agent before.
unfoldable pub DeleteEnds : String → Agent → Removed → Try Unit × Agent → Type 0
DeleteEnds name a removed r = (r.0 ≡ done tt) × Forgotten name r.1
DeleteEnds name a absent r = (r.0 ≡ done tt) × Forgotten name r.1
DeleteEnds name a (remove_raises message) r =
    (r.0 ≡ raised message)
    × (r.1.client_repo ≡ a.client_repo)
    × (r.1.usage ≡ a.usage)
    × (r.1.vnic_file ≡ a.vnic_file)
    × (r.1.serial_file ≡ a.serial_file)
    × (busy name r.1.operations ≡ false)

after_removal-DeleteEnds :
    (e : Env) (name : String) (r : Removed) (a : Agent)
    → e.vnic_write ≡ written
    → e.serial_write ≡ written
    → DeleteEnds name a r (after_removal e name r a)
unfolding after_removal DeleteEnds
after_removal-DeleteEnds e name removed a v s = (refl, forget-Forgotten e name a v s)
after_removal-DeleteEnds e name absent a v s = (refl, forget-Forgotten e name a v s)
after_removal-DeleteEnds e name (remove_raises message) a v s =
    let idle = set_error-not_busy e.now name message (some "delete") a.operations in
    (refl, refl, refl, refl, refl, idle)

stepped-DeleteEnds :
    (e : Env) (name step : String) (r : Removed) (a : Agent) (x : Try Unit × Agent)
    → DeleteEnds name (step_to e name step a) r x
    → DeleteEnds name a r x
unfolding DeleteEnds step_to
stepped-DeleteEnds e name step removed a x h = h
stepped-DeleteEnds e name step absent a x h = h
stepped-DeleteEnds e name step (remove_raises message) a x h = h

-- How a deletion ends when the two files are written. If Docker removed the container, or did not have
-- it, the container is forgotten: its client, usage buffer, vNICs and serial ports. If the removal
-- raised, that is raised, with the clients, the usage buffers and both files kept. No operation is in
-- progress after either.
pub delete_sync_outcome :
    (w : World) (e : Env) (name : String) (a : Agent)
    → e.vnic_write ≡ written
    → e.serial_write ≡ written
    → DeleteEnds name a (w.stop_and_remove name) (delete_sync w e name a)
unfolding delete_sync
delete_sync_outcome w e name a v s =
    let after = step_to e name "stopping_container" a in
    stepped-DeleteEnds e name "stopping_container" (w.stop_and_remove name) a _
      (after_removal-DeleteEnds e name (w.stop_and_remove name) after v s)
