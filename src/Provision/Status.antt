-- ===== src/Provision/Status.antt =====
-- `get_device_status_data` of src/use_cases/docker_manager/get_device_status.py. `Docker` is what it
-- asks Docker and the clock; the rest is the agent's state.
use orchestrator_agent.Prelude.{
  ℕ, String, Bool, false, not, ◌&&◌, Option, none, some, List, [], ◌∷◌, map, if◌then◌else◌, str_eq,
}
use orchestrator_agent.Prelude.Dict.{Dict, lookup, insert}
use orchestrator_agent.Prelude.Value.{ℤ}
use orchestrator_agent.Prelude.Texts.{truthy, append, codes, before, starts_with, ends_with}
use orchestrator_agent.Contracts.{has_ink}
use orchestrator_agent.Operations.{Status, creating, deleting, error_status, Operation, get_state}
use orchestrator_agent.SerialPorts.{SerialPort, load_configs}
use orchestrator_agent.Stores.{Client, get_client, load_vnics}
use orchestrator_agent.Vnics.{VnicConfig, ProxyArp}
use orchestrator_agent.Provision.{Agent}

-- A network as it is shown, and as Docker's settings of a container have it.
pub record Network : Type 0 where
  pub ip_address : Option String
  pub mac_address : Option String
  pub gateway : Option String

-- The attributes of a container after a reload; `status_text`, `exit_code` and `health` may be
-- missing. `uptime` is the seconds since it was started, where that could be computed.
pub record Attrs : Type 0 where
  pub status_text : Option String
  pub running : Bool
  pub uptime : Option ℤ
  pub networks : Dict Network
  pub restart_count : ℕ
  pub exit_code : Option ℕ
  pub health : Option String

pub data Looked : Type 0 where
  there : Attrs → Looked
  not_found : Looked
  look_raises : String → Looked

-- `has_null_ip` tells a configuration whose `"ip"` is None from one without it: `None.split` raises,
-- with the text `null_text`.
pub record Docker : Type 0 where
  pub look : String → Looked
  pub has_null_ip : VnicConfig → Bool
  pub null_text : String

-- A serial port as it is shown.
pub record PortStatus : Type 0 where
  pub port_name : Option String
  pub port_device : Option (List ℕ)
  pub port_path : Option String
  pub port_status : String
  pub host_path : Option String

pub record Found : Type 0 where
  pub container_status : String
  pub is_running : Bool
  pub shown_networks : Dict Network
  pub restarts : ℕ
  pub internal_ip : Option String
  pub uptime_seconds : Option ℤ
  pub last_exit : Option ℕ
  pub health_status : Option String
  pub serial_ports : List PortStatus

-- The reply; a tracked operation has a message beside it.
pub data Reply : Type 0 where
  invalid_id no_container : Reply
  tracked : Operation → Option String → Reply
  success : Found → Reply
  failed : String → Reply

abbrev pub if_truthy : Option String → Option String
if_truthy o = if truthy o then o else none

-- `get_serial_port_status`
abbrev pub port_of : SerialPort → PortStatus
port_of p = record {
  port_name = p.name;
  port_device = p.device_id;
  port_path = p.container_path;
  port_status = p.status;
  host_path = if_truthy p.current_host_path;
}

abbrev state_message : String → Status → Option String
state_message id creating = some (append "Container " (append id " is being created"))
state_message id deleting = some (append "Container " (append id " is being deleted"))
state_message id error_status = none

abbrev pub message_of : String → Status → Option String → Option String
message_of id status none = state_message id status
message_of id status (some error) =
    if str_eq error "" then state_message id status else some (append "Operation failed: " error)

-- `{"ip": ..., "gateway": ...}` of a DHCP lease.
pub record Lease : Type 0 where
  pub lease_ip : String
  pub lease_gateway : Option String

abbrev put : Option String → Lease → Dict Lease → Dict Lease
put none l m = m
put (some k) l m = if str_eq k "" then m else insert k l m

abbrev add_lease :
    (VnicConfig → Option String) → VnicConfig → Option String → Dict Lease → Dict Lease
add_lease key v none m = m
add_lease key v (some ip) m =
    if str_eq ip ""
    then m
    else put (key v) (record { lease_ip = ip; lease_gateway = v.dhcp_gateway }) m

-- `dhcp_ips_by_network` and `dhcp_ips_by_parent`, by their keys.
unfoldable pub leases_by : (VnicConfig → Option String) → List VnicConfig → Dict Lease → Dict Lease
leases_by key [] m = m
leases_by key (v ∷ vs) m = leases_by key vs (add_lease key v v.dhcp_ip m)

-- The first interface whose MACVLAN networks' names the name begins with.
unfoldable pub by_parent : String → Dict Lease → Option Lease
by_parent name [] = none
by_parent name ((parent, l) ∷ m) =
    let rest = by_parent name m in
    if starts_with name (append "macvlan_" parent) then some l else rest

abbrev pub or_parent : Option Lease → Option Lease → Option Lease
or_parent (some l) other = some l
or_parent none other = other

abbrev or_else : Option String → Option String → Option String
or_else first next = if truthy first then first else next

abbrev pub with_lease : Option Lease → Network → Network
with_lease none n = n
with_lease (some l) n = record n {
  ip_address = some l.lease_ip;
  gateway = or_else l.lease_gateway n.gateway;
}

module _ (by_network parents : Dict Lease) where
  -- The container's networks in Docker but the internal ones.
  unfoldable pub docker_networks : Dict Network → Dict Network → Dict Network
  unfolding by_parent
  docker_networks [] shown = shown
  docker_networks ((name, n) ∷ ns) shown =
      let lease = or_parent (lookup name by_network) (by_parent name parents) in
      let skipped = docker_networks ns shown in
      let rest = docker_networks ns (insert name (with_lease lease n) shown) in
      if ends_with name "_internal" then skipped else rest

abbrev pub or_default : String → Option String → String
or_default d none = d
or_default d (some t) = t

abbrev proxy_field : (ProxyArp → Option String) → VnicConfig → Option String
proxy_field f v = elim v.proxy_arp_config [ none ↦ none | some p ↦ f p ]

abbrev pub wifi_key : VnicConfig → String
wifi_key v =
    append "wifi_"
      (append (or_default "wlan0" v.parent_interface) (append "_" (or_default "wifi" v.name)))

-- What a WiFi vNIC has as its address before its own `"ip"` is looked at.
abbrev leased_ip : VnicConfig → Option String
leased_ip v = or_else (proxy_field (λ p. p.proxy_ip) v) v.dhcp_ip

abbrev pub wifi_ip : VnicConfig → String
wifi_ip v = or_default (before (or_default "" v.ip) "/") (if_truthy (leased_ip v))

abbrev pub wifi_network : VnicConfig → Network
wifi_network v = record {
  ip_address = some (wifi_ip v);
  mac_address = none;
  gateway = or_else (or_else (proxy_field (λ p. p.proxy_gateway) v) v.dhcp_gateway) v.gateway;
}

abbrev pub is_wifi_vnic : VnicConfig → Bool
is_wifi_vnic v = elim v.is_wifi [ none ↦ false | some b ↦ b ]

abbrev pub raises_at : Docker → VnicConfig → Bool
raises_at d v = not (truthy (leased_ip v)) && d.has_null_ip v

-- The WiFi vNICs, which are no networks of Docker; `none` is an exception.
unfoldable pub wifi_networks : Docker → List VnicConfig → Dict Network → Option (Dict Network)
wifi_networks d [] shown = some shown
wifi_networks d (v ∷ vs) shown =
    let skipped = wifi_networks d vs shown in
    let rest = wifi_networks d vs (insert (wifi_key v) (wifi_network v) shown) in
    if is_wifi_vnic v
    then if raises_at d v then none else if str_eq (wifi_ip v) "" then skipped else rest
    else skipped

unfoldable pub networks_of : Docker → List VnicConfig → Dict Network → Option (Dict Network)
unfolding docker_networks wifi_networks leases_by
networks_of d vs ns =
    let by_network = leases_by (λ v. v.docker_network_name) vs [] in
    let parents = leases_by (λ v. v.parent_interface) vs [] in
    wifi_networks d vs (docker_networks by_network parents ns [])

abbrev pub ip_of : Option Client → Option String
ip_of none = none
ip_of (some c) = if_truthy (some c.ip)

unfoldable pub shown_as : String → Agent → Attrs → Dict Network → Found
unfolding get_client load_configs
shown_as id a attrs networks = record {
  container_status = or_default "unknown" attrs.status_text;
  is_running = attrs.running;
  shown_networks = networks;
  restarts = attrs.restart_count;
  internal_ip = ip_of (get_client id a.client_repo);
  uptime_seconds = if attrs.running then attrs.uptime else none;
  last_exit = if attrs.running then none else attrs.exit_code;
  health_status = attrs.health;
  serial_ports = map port_of (load_configs id a.serial_file);
}

abbrev pub with_networks : String → Docker → Agent → Attrs → Option (Dict Network) → Reply
with_networks id d a attrs none = failed d.null_text
with_networks id d a attrs (some networks) = success (shown_as id a attrs networks)

abbrev pub looked_at : String → Docker → Agent → Looked → Reply
looked_at id d a not_found = no_container
looked_at id d a (look_raises m) = failed m
looked_at id d a (there attrs) =
    with_networks id d a attrs (networks_of d (load_vnics id a.vnic_file) attrs.networks)

abbrev pub with_state : String → Docker → Agent → Option Operation → Reply
with_state id d a (some op) = tracked op (message_of id op.status op.error)
with_state id d a none = looked_at id d a (d.look id)

-- `get_device_status_data`
unfoldable pub get_device_status_data : Docker → Agent → String → Reply
unfolding has_ink get_state networks_of shown_as load_vnics
get_device_status_data d a id =
    if has_ink (codes id) then with_state id d a (get_state id a.operations) else invalid_id
