-- ===== src/Provision/Create.antt =====
-- `_create_runtime_container_sync` and `start_creation` of
-- src/use_cases/docker_manager/create_runtime_container.py. One reading of the clock serves the whole
-- operation. Connecting the orchestrator to the new network is left out: it catches whatever it meets
-- and changes nothing of the agent's state.
use orchestrator_agent.Prelude.{
  ℕ, String, Bool, true, false, Option, none, some, List, [], ◌∷◌, if◌then◌else◌, str_eq,
}
use orchestrator_agent.Prelude.Dict.{lookup, contains}
use orchestrator_agent.Prelude.Texts.{append}
use orchestrator_agent.Operations.{
  set_step, set_error, clear_state, begin_operation, BeginError, create,
}
use orchestrator_agent.SerialPorts.{Write, written, not_opened, cut_short, Config, save_configs}
use orchestrator_agent.Stores.{add_client, save_vnics}
use orchestrator_agent.Usage.{add_device}
use orchestrator_agent.Vnics.{VnicConfig}
use orchestrator_agent.Provision.{
  Agent, Try, done, raised, pulled, not_in_registry, pull_raises, image_found, no_image,
  image_raises, Started, NetInfo, World, DockerCall,
}
use orchestrator_agent.Provision.Checks.{
  Problem, same_network, mac_in_use, no_interface, wifi_interface, already_dedicated,
  is_vnic_parent, Check, valid, invalid, check_raises, validate,
}
use orchestrator_agent.Provision.Endpoints.{
  Assigned, Lease, assign_all, endpoints_from, use_networking_config, create_and_start_container,
  collect_info, collect_dhcp_vnics, configs_of, wifi_of,
}

-- A request for a container.
pub record Order : Type 0 where
  pub container : String
  pub vnics : List VnicConfig
  pub serials : List Config
  pub version : Option String
  pub dedicated : Option String

-- The clock, and what becomes of the writes to the four files.
pub record Env : Type 0 where
  pub now : ℕ
  pub client_write : Write
  pub vnic_write : Write
  pub serial_write : Write
  pub nic_write : Write

pub record Created : Type 0 where
  pub dhcp_vnics : List Lease
  pub wifi_vnics : List VnicConfig
  pub vnic_configs : List VnicConfig
  pub container_pid : ℕ

-- The result, the calls of Docker, and the agent after them.
abbrev pub Outcome : Type 0
Outcome = Try (Option Created) × (List DockerCall × Agent)

unfoldable pub step_to : Env → String → String → Agent → Agent
unfolding set_step
step_to e container text a = record a { operations = set_step e.now container text a.operations }

unfoldable pub failed_with : Env → String → String → Agent → Agent
unfolding set_error
failed_with e container message a = record a {
  operations = set_error e.now container message (some "create") a.operations;
}

-- The first words of each message of a failed check.
unfoldable problem_text : Problem → String
problem_text (same_network other vnic key) = append "Invalid vNIC configuration: vNICs '" (
    append other (
      append "' and '"
        (append vnic (append "' would connect to the same MACVLAN network (" (append key ").")))))
problem_text (mac_in_use mac) = append "MAC address " (append mac " is already in use.")
problem_text (no_interface nic) = append "Interface '" (append nic "' not found on host.")
problem_text (wifi_interface nic) = append "Interface '" (append nic "' is a WiFi interface.")
problem_text (already_dedicated nic owner) =
    append "Interface '"
      (append nic (append "' is already dedicated to container '" (append owner "'.")))
problem_text (is_vnic_parent nic) =
    append "Interface '" (append nic "' is configured as a vNIC parent.")

-- The `except` of the operation: the state says error, and there is no result.
unfoldable pub caught : Env → String → String → List DockerCall → Agent → Outcome
unfolding failed_with
caught e container message calls a = (done none, (calls, failed_with e container message a))

abbrev pub image_name : Option String → String
image_name version = append "ghcr.io/autonomy-logic/openplc-runtime:" (tag version)
  where
    tag : Option String → String
    tag none = "latest"
    tag (some v) = if str_eq v "" then "latest" else v

-- Whether `_pull_runtime_image` gives an image. What the lookup of the local image raises but
-- ImageNotFound goes on to the caller.
unfoldable pub pull_runtime_image : World → String → Try Bool
pull_runtime_image w image = elim (w.pull_image image) [
  | pulled ↦ done true
  | pull_raises message ↦ done true
  | not_in_registry ↦ elim (w.get_image image) [
    | image_found ↦ done true
    | no_image ↦ done false
    | image_raises message ↦ raised message
  ]
]

abbrev pub raises_on : Write → Try Unit
raises_on written = done tt
raises_on not_opened = raised "the clients' file cannot be written"
raises_on cut_short = raised "the clients' file cannot be written"

-- The end of the operation, from `_persist_and_register` on.
unfoldable pub persisted : Env → Order → Started → List Assigned → List DockerCall → Agent → Outcome
unfolding save_vnics save_configs add_device clear_state configs_of wifi_of collect_dhcp_vnics
persisted e o s l calls a = (
  done (
      some (record {
        dhcp_vnics = collect_dhcp_vnics s.settings s.started_pid l;
        wifi_vnics = wifi_of l;
        vnic_configs = configs_of l;
        container_pid = s.started_pid;
      })),
  (
    calls,
    record a {
      vnic_file = save_vnics e.vnic_write o.container (configs_of l) a.vnic_file;
      serial_file = elim o.serials [
        | [] ↦ a.serial_file
        | c ∷ cs ↦ save_configs e.serial_write o.container (c ∷ cs) a.serial_file
      ];
      usage = add_device o.container a.usage;
      operations = clear_state o.container a.operations;
    },
  ),
)

unfoldable pub client_added :
    Env → Order → Started → List Assigned → List DockerCall → Try Unit → Agent → Outcome
unfolding persisted caught
client_added e o s l calls (raised message) a = caught e o.container message calls a
client_added e o s l calls (done _) a = persisted e o s l calls a

unfoldable pub registered_as :
    Env → Order → Started → List Assigned → List DockerCall → Option NetInfo → Agent → Outcome
unfolding client_added persisted add_client
registered_as e o s l calls none a = persisted e o s l calls a
registered_as e o s l calls (some i) a =
    client_added e o s l calls (raises_on e.client_write)
      (record a { client_repo = add_client e.client_write o.container i.net_ip a.client_repo })

-- `_collect_network_info` and what follows.
unfoldable pub registered :
    Env → Order → String → Started → List Assigned → List DockerCall → Agent → Outcome
unfolding registered_as collect_info
registered e o internal s l calls a =
    registered_as e o s (collect_info s.settings l) calls (lookup internal s.settings) a

unfoldable pub reloaded :
    Env → Order → String → List Assigned → List DockerCall → Try Started → Agent → Outcome
unfolding registered caught
reloaded e o internal l calls (raised message) a = caught e o.container message calls a
reloaded e o internal l calls (done s) a = registered e o internal s l calls a

unfoldable pub after_start :
    World → Env → Order → String → List Assigned → Try Unit × List DockerCall → Agent → Outcome
unfolding reloaded caught
after_start w e o internal l (raised message, calls) a = caught e o.container message calls a
after_start w e o internal l (done _, calls) a = reloaded e o internal l calls w.reload a

unfoldable pub with_version :
    World → Env → Order → String → List Assigned → Try String → Agent → Outcome
unfolding after_start caught endpoints_from create_and_start_container use_networking_config
with_version w e o internal l (raised message) a = caught e o.container message [] a
with_version w e o internal l (done version) a =
    let ends = endpoints_from w 0 l in
    after_start w e o internal ends.1
      (create_and_start_container w o.container (use_networking_config version) ends.0) a

unfoldable pub assigned : World → Env → Order → String → Try (List Assigned) → Agent → Outcome
unfolding with_version caught step_to
assigned w e o internal (raised message) a = caught e o.container message [] a
assigned w e o internal (done l) a =
    with_version w e o internal l w.api_version (step_to e o.container "creating_container" a)

unfoldable pub networked : World → Env → Order → Try String → Agent → Outcome
unfolding assigned caught assign_all
networked w e o (raised message) a = caught e o.container message [] a
networked w e o (done internal) a = assigned w e o internal (assign_all w o.vnics) a

unfoldable pub with_image : World → Env → Order → Try Bool → Agent → Outcome
unfolding networked caught step_to
with_image w e o (raised message) a = caught e o.container message [] a
with_image w e o (done false) a = caught e o.container "Runtime version not found." [] a
with_image w e o (done true) a =
    networked w e o (w.create_internal_network o.container)
      (step_to e o.container "creating_networks" a)

unfoldable pub with_check : World → Env → Order → Check → Agent → Outcome
unfolding with_image caught step_to pull_runtime_image problem_text
with_check w e o check_raises a = (raised "invalid network configuration", ([], a))
with_check w e o (invalid p) a = caught e o.container (problem_text p) [] a
with_check w e o valid a =
    with_image w e o (pull_runtime_image w (image_name o.version))
      (step_to e o.container "pulling_image" a)

-- `_create_runtime_container_sync`. The checks stand before its `try`: an exception of theirs is the
-- result, and the operation's state stays.
unfoldable pub create_sync : World → Env → Order → Agent → Outcome
unfolding with_check caught step_to validate
create_sync w e o a =
    if contains o.container a.client_repo.clients
    then caught e o.container "Container name is already in use" [] a
    else with_check w e o (validate w a.nic_file o.dedicated o.vnics)
        (step_to e o.container "validating_config" a)

-- `start_creation`: the task that runs the creation is started when the operation is granted.
unfoldable start_creation : Env → Order → Agent → Option BeginError × Agent
unfolding begin_operation
start_creation e o a =
    let begun = begin_operation create e.now o.container a.operations in
    (begun.0, record a { operations = begun.1 })
