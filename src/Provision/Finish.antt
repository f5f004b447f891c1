-- ===== src/Provision/Finish.antt =====
-- `create_runtime_container` of src/use_cases/docker_manager/create_runtime_container.py after its
-- blocking part: DHCP, Wi-Fi bridges and the dedicated NIC, by netmon.
use Prim.Native.String.{◌∷◌ as char_then, [] as no_text}
use orchestrator_agent.Prelude.{
  ◌≡◌, refl, ap, ◌∙◌, ℕ, zero, suc, String, true, false, not, ◌&&◌, Option, none, some, List, [],
  ◌∷◌, arith, eq_iff, if◌then◌else◌, str_eq, ◌==◌, Bool-cases, inl, inr,
}
use orchestrator_agent.Prelude.Dict.{Dict, lookup, insert, lookup-insert}
use orchestrator_agent.Prelude.Texts.{append, before}
use orchestrator_agent.Operations.{OperationsStateTracker, set_step}
use orchestrator_agent.SerialPorts.{File, written, read_json_file, modify, write_json_file}
use orchestrator_agent.Stores.{
  RawNic, DedicatedNicConfig, save_config, delete_config, load_config, save_vnics, from_raw,
  from_dict,
}
use orchestrator_agent.Vnics.{VnicConfig, ProxyArp, mode_of}
use orchestrator_agent.Provision.{Agent, Try, done, raised, World, Answer, says, answer_raises}
use orchestrator_agent.Provision.Endpoints.{Lease}
use orchestrator_agent.Provision.Create.{Order, Env, Created, step_to}

-- The first code points of a text.
abbrev take_chars : ℕ → String → String
take_chars zero s = no_text
take_chars (suc n) no_text = no_text
take_chars (suc n) (char_then c s) = char_then c (take_chars n s)

-- The configuration of a bridge that netmon is asked to set up.
abbrev bridge : String → Option String → String → String → ProxyArp
bridge container parent ip gateway = record {
  proxy_ip = some ip;
  proxy_parent = parent;
  veth_host = some (append "veth-" (take_chars 8 container));
  veth_container = some "eth1";
  proxy_gateway = some gateway;
}

abbrev set_up : String → VnicConfig → String → String → Answer → VnicConfig
set_up container v ip gateway (says _) = record v {
  proxy_arp_config = some (bridge container v.parent_interface ip gateway);
}
set_up container v ip gateway (answer_raises _) = v

abbrev subnet_of : VnicConfig → String
subnet_of v = elim v.subnet [ none ↦ "255.255.255.0" | some s ↦ s ]

-- A static Wi-Fi vNIC needs an address and a gateway.
unfoldable configure_static :
    World → String → VnicConfig → Option String → Option String → VnicConfig
configure_static w container v none gateway = v
configure_static w container v (some ip) none = v
configure_static w container v (some ip) (some gateway) =
    if not (str_eq ip "") && not (str_eq gateway "")
    then set_up container v (before ip "/") gateway
        (w.setup_proxy_arp v.parent_interface (before ip "/") gateway (subnet_of v))
    else v

-- A Wi-Fi vNIC with DHCP is only asked for: its address comes later.
unfoldable configure_wifi : World → String → VnicConfig → VnicConfig
unfolding configure_static
configure_wifi w container v = elim v.is_wifi [
  | none ↦ v
  | some wifi ↦
      if wifi && str_eq (mode_of v) "static"
      then configure_static w container v v.ip v.gateway
      else v
]

unfoldable configure_all : World → String → List VnicConfig → List VnicConfig
unfolding configure_wifi
configure_all w container [] = []
configure_all w container (v ∷ vs) = configure_wifi w container v ∷ configure_all w container vs

-- Asking for DHCP changes nothing of the agent: a failure is logged.
unfoldable with_dhcp : Env → Order → Created → Agent → Agent
unfolding step_to
with_dhcp e o c a = elim c.dhcp_vnics [ [] ↦ a | _ ∷ _ ↦ step_to e o.container "starting_dhcp" a ]

unfoldable with_wifi : World → Env → Order → Created → Agent → Agent
unfolding step_to save_vnics configure_all
with_wifi w e o c a = elim c.wifi_vnics [
  | [] ↦ a
  | _ ∷ _ ↦
      let b = step_to e o.container "configuring_wifi_vnics" a in
      record b {
        vnic_file =
            save_vnics e.vnic_write o.container (configure_all w o.container c.vnic_configs)
              b.vnic_file;
      }
]

-- The configuration is stored before the move, and taken back when netmon says that it failed; an
-- exception goes to the task, the configuration being kept.
unfoldable nic_moved : Env → String → Answer → File (Dict RawNic) → Try Unit × File (Dict RawNic)
unfolding delete_config
nic_moved e container (says true) nics = (done tt, nics)
nic_moved e container (says false) nics = (done tt, delete_config e.nic_write container nics)
nic_moved e container (answer_raises message) nics = (raised message, nics)

unfoldable move_to : World → Env → Order → ℕ → String → Agent → Try Unit × Agent
unfolding nic_moved save_config step_to
move_to w e o pid nic a =
    let b = step_to e o.container "moving_dedicated_nic" a in
    let moved =
      nic_moved e o.container (w.move_nic nic pid)
        (save_config e.nic_write o.container (record { host_interface = nic }) b.nic_file) in
    (moved.0, record b { nic_file = moved.1 })

unfoldable with_nic : World → Env → Order → ℕ → Option String → Agent → Try Unit × Agent
unfolding move_to
with_nic w e o pid none a = (done tt, a)
with_nic w e o pid (some nic) a =
    if not (str_eq nic "") && not (pid == 0) then move_to w e o pid nic a else (done tt, a)

-- What follows a creation that gave a result. The resync of the serial devices that ends it changes
-- nothing of this state.
unfoldable pub finish_creation : World → Env → Order → Created → Agent → Try Unit × Agent
unfolding with_dhcp with_wifi with_nic
finish_creation w e o c a =
    with_nic w e o c.container_pid o.dedicated (with_wifi w e o c (with_dhcp e o c a))

set_step_absent :
    (now : ℕ) (name text : String) (s : OperationsStateTracker)
    → lookup name s.operations ≡ none
    → set_step now name text s ≡ s
unfolding set_step
set_step_absent now name text s h = rw (h, set_step) refl

step_to_absent :
    (e : Env) (name text : String) (a : Agent)
    → lookup name a.operations.operations ≡ none
    → step_to e name text a ≡ a
unfolding step_to
step_to_absent e name text a h =
    ap (λ s. record a { operations = s }) (set_step_absent e.now name text a.operations h)

with_nic-operations :
    (w : World) (e : Env) (o : Order) (pid : ℕ) (nic : Option String) (a : Agent)
    → lookup o.container a.operations.operations ≡ none
    → (with_nic w e o pid nic a).1.operations ≡ a.operations
unfolding with_nic move_to
with_nic-operations w e o pid none a h = refl
with_nic-operations w e o pid (some nic) a h =
    elim (Bool-cases (not (str_eq nic "") && not (pid == 0))) [
      | inl moves ↦
          rw moves
            (ap (λ b. b.operations) (step_to_absent e o.container "moving_dedicated_nic" a h))
      | inr stays ↦ rw stays refl
    ]

with_wifi-operations :
    (w : World) (e : Env) (o : Order) (l : List VnicConfig) (c : Created) (a : Agent)
    → c.wifi_vnics ≡ l
    → lookup o.container a.operations.operations ≡ none
    → (with_wifi w e o c a).operations ≡ a.operations
unfolding with_wifi
with_wifi-operations w e o [] c a shape h = rw shape refl
with_wifi-operations w e o (v ∷ vs) c a shape h =
    rw shape (ap (λ b. b.operations) (step_to_absent e o.container "configuring_wifi_vnics" a h))

with_dhcp-same :
    (e : Env) (o : Order) (l : List Lease) (c : Created) (a : Agent)
    → c.dhcp_vnics ≡ l
    → lookup o.container a.operations.operations ≡ none
    → with_dhcp e o c a ≡ a
unfolding with_dhcp
with_dhcp-same e o [] c a shape h = rw shape refl
with_dhcp-same e o (v ∷ vs) c a shape h =
    rw shape (step_to_absent e o.container "starting_dhcp" a h)

-- Once the blocking part has cleared the operation, nothing of the rest is tracked: the steps
-- "starting_dhcp", "configuring_wifi_vnics" and "moving_dedicated_nic" leave the tracker as it is.
pub finish_creation_untracked :
    (w : World) (e : Env) (o : Order) (c : Created) (a : Agent)
    → lookup o.container a.operations.operations ≡ none
    → (finish_creation w e o c a).1.operations ≡ a.operations
unfolding finish_creation
finish_creation_untracked w e o c a h =
    let dhcp : with_dhcp e o c a ≡ a = with_dhcp-same e o c.dhcp_vnics c a refl h in
    rw dhcp (
      let wifi = with_wifi-operations w e o c.wifi_vnics c a refl h in
      with_nic-operations w e o c.container_pid o.dedicated (with_wifi w e o c a)
        (ap (λ s. lookup o.container s.operations) wifi ∙ h)
      ∙ wifi)

abbrev kept_by : Answer → String → Option DedicatedNicConfig
kept_by (says true) nic = some (record { host_interface = nic })
kept_by (says false) nic = none
kept_by (answer_raises _) nic = some (record { host_interface = nic })

load_config-saved :
    (e : Env) (container nic : String) (nics : File (Dict RawNic))
    → str_eq nic "" ≡ false
    → e.nic_write ≡ written
    → load_config container
        (save_config e.nic_write container (record { host_interface = nic }) nics)
      ≡ some (record { host_interface = nic })
unfolding load_config save_config modify write_json_file read_json_file from_raw from_dict
load_config-saved e container nic nics full done_write =
    let raw : RawNic = record { raw_interface = some nic } in
    let found : lookup container (insert container raw (read_json_file nics)) ≡ some raw = ground (
      arith,
      lookup-insert container container raw (read_json_file nics),
      eq_iff container container,
    ) in
    rw done_write (ap from_raw found ∙ rw full refl)
