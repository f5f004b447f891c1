-- ===== src/Reconnection.antt =====
-- src/use_cases/network_reconnection.py: containers after a change of the host's network. Docker and
-- netmon are the functions of `World`; what is asked of them is given back, with the container. An
-- exception ends the work on one vNIC. One outcome of writing stands for all writes.
pub mod Wifi
pub mod Concerned
use Prim.Native.String.{slice}
use orchestrator_agent.Prelude.{
  ℕ, String, Bool, true, false, not, ◌&&◌, Option, none, some, List, [], ◌∷◌, ◌++◌, map, any,
  select, if◌then◌else◌, str_eq, ◌==◌,
}
use orchestrator_agent.Prelude.Dict.{Dict}
use orchestrator_agent.Prelude.Texts.{truthy, append, starts_with, before}
use orchestrator_agent.Networks.{Interface, get_interface_type}
use orchestrator_agent.SerialPorts.{File, Write}
use orchestrator_agent.Stores.{load_vnics, load_all_vnics, save_vnics}
use orchestrator_agent.Vnics.{VnicConfig, ProxyArp, mode_of, same_name}
use orchestrator_agent.Provision.{Try, done, raised, Answer, says, answer_raises}
use orchestrator_agent.Listener.{Change}

-- A container after a reload: its networks and its process; or an exception.
pub data Container : Type 0 where
  container_with : List String → ℕ → Container
  get_raises : Container

-- `in_network` is `parse_ip(ip) in ip_network(subnet, strict=False)`, or `none` for its ValueError.
pub record World : Type 0 where
  pub interface_cache : Dict Interface
  pub get_container : String → Container
  pub subnet_of : String → Option String
  pub macvlan_network : String → String → Option String → Try String
  pub in_network : String → String → Option Bool
  pub setup_answer : Answer

pub data Call : Type 0 where
  disconnect : String → Call
  connect : String → Option String → Option String → Call
  cleanup_bridge : String → String → Call
  setup_bridge : String → Option String → String → Call
  request_dhcp : Call

abbrev pub Vnics : Type 0
Vnics = File (Dict (List VnicConfig))

-- What one vNIC leads to: the calls for its container, and the stored configurations.
abbrev pub Done : Type 0
Done = List Call × Vnics

abbrev is_text : String → Option String → Bool
is_text t none = false
is_text t (some s) = str_eq s t

abbrev static_ip : String → Option String → Option String
static_ip mode none = none
static_ip mode (some ip) =
    if str_eq mode "static" && truthy (some ip) then some (before ip "/") else none

abbrev nonempty : Option String → Option String
nonempty o = if truthy o then o else none

abbrev connected : VnicConfig → Try String → List Call
connected v (raised m) = []
connected v (done network) =
    connect network (static_ip (mode_of v) v.ip) (nonempty v.mac_address) ∷ []

-- `_reconnect_macvlan_vnic`
unfoldable pub reconnect_macvlan_vnic :
    World → String → String → Option String → VnicConfig → List String → List Call
reconnect_macvlan_vnic w interface subnet gateway v networks =
    let mine = select (λ n. starts_with n (append "macvlan_" interface)) networks in
    if any (λ n. is_text subnet (w.subnet_of n)) mine
    then []
    else map disconnect mine ++ connected v (w.macvlan_network interface subnet gateway)

abbrev pub no_proxy : ProxyArp
no_proxy = record {
  proxy_ip = none;
  proxy_parent = none;
  veth_host = none;
  veth_container = none;
  proxy_gateway = none;
}

abbrev pub proxy_of : VnicConfig → ProxyArp
proxy_of v = elim v.proxy_arp_config [ none ↦ no_proxy | some p ↦ p ]

abbrev is_inside : Option Bool → Bool
is_inside none = false
is_inside (some b) = b

abbrev ip_inside : World → String → Option String → Bool
ip_inside w subnet none = false
ip_inside w subnet (some ip) = not (str_eq ip "") && is_inside (w.in_network ip subnet)

-- The interface and the gateway are as before, and the address lies in the subnet.
unfoldable pub is_unchanged : World → String → String → Option String → ProxyArp → Bool
is_unchanged w interface subnet gateway p =
    same_name p.proxy_parent (some interface)
    && (same_name p.proxy_gateway gateway && ip_inside w subnet p.proxy_ip)

abbrev cleanup : Option String → Option String → List Call
cleanup (some ip) (some veth) =
    if truthy (some ip) && truthy (some veth) then cleanup_bridge ip veth ∷ [] else []
cleanup (some ip) none = []
cleanup none veth = []

-- The first configuration with the name and the interface is replaced.
unfoldable pub replace_first : VnicConfig → List VnicConfig → List VnicConfig
replace_first v [] = []
replace_first v (c ∷ cs) =
    let rest = replace_first v cs in
    if same_name c.name v.name && same_name c.parent_interface v.parent_interface
    then v ∷ cs
    else c ∷ rest

abbrev pub bridged : String → String → Option String → String → ProxyArp
bridged container interface gateway ip = record {
  proxy_ip = some ip;
  proxy_parent = some interface;
  veth_host = some (append "veth-" (slice container 0 8));
  veth_container = some "eth1";
  proxy_gateway = gateway;
}

abbrev mask_or_default : Option String → String
mask_or_default none = "255.255.255.0"
mask_or_default (some mask) = mask

-- What netmon answers is not looked at.
abbrev pub stored : Write → String → VnicConfig → Answer → Vnics → Vnics
stored write container v (answer_raises m) file = file
stored write container v (says success) file =
    save_vnics write container (replace_first v (load_vnics container file)) file

abbrev pub with_bridge : String → String → Option String → VnicConfig → String → VnicConfig
with_bridge container interface gateway v ip = record v {
  proxy_arp_config = some (bridged container interface gateway (before ip "/"));
}

-- The part of `_reconnect_wifi_vnic` for a static address.
abbrev pub static_bridge :
    World → Write → String → String → Option String → VnicConfig → Option String → Vnics → Done
static_bridge w write container interface gateway v none file = ([], file)
static_bridge w write container interface gateway v (some ip) file =
    let set_up = setup_bridge (before ip "/") gateway (mask_or_default v.subnet) in
    if str_eq ip "" then ([], file) else (
      set_up ∷ [],
      stored write container (with_bridge container interface gateway v ip) w.setup_answer file,
    )

unfoldable pub rebuilt : World → Write → String → String → Option String → VnicConfig → Vnics → Done
unfolding replace_first load_vnics save_vnics
rebuilt w write container interface gateway v file =
    if str_eq (mode_of v) "static"
    then static_bridge w write container interface gateway v v.ip file
    else (request_dhcp ∷ [], file)

-- `_reconnect_wifi_vnic`
unfoldable pub reconnect_wifi_vnic :
    World → Write → String → String → String → Option String → VnicConfig → ℕ → Vnics → Done
unfolding is_unchanged rebuilt
reconnect_wifi_vnic w write container interface subnet gateway v pid file =
    let p = proxy_of v in
    let built = rebuilt w write container interface gateway v file in
    if is_unchanged w interface subnet gateway p
    then ([], file)
    else if pid == 0
    then ([], file)
    else (cleanup p.proxy_ip p.veth_host ++ built.0, built.1)

unfoldable pub reconnect_found :
    World → Write → String → String → String → Option String → VnicConfig → Container → Vnics → Done
unfolding reconnect_wifi_vnic reconnect_macvlan_vnic get_interface_type
reconnect_found w write container interface subnet gateway v get_raises file = ([], file)
reconnect_found w write container interface subnet gateway v (container_with networks pid) file =
    if str_eq (get_interface_type (some interface) w.interface_cache) "wifi"
    then reconnect_wifi_vnic w write container interface subnet gateway v pid file
    else (reconnect_macvlan_vnic w interface subnet gateway v networks, file)

-- The calls of all containers, each with its container.
abbrev pub AllDone : Type 0
AllDone = List (String × Call) × Vnics

abbrev pub tag : String → Call → String × Call
tag container c = (container, c)

module _ (w : World) (write : Write) (interface subnet : String) (gateway : Option String) where
  unfoldable pub reconnect_vnics : String → List VnicConfig → Vnics → AllDone
  unfolding reconnect_found
  reconnect_vnics container [] file = ([], file)
  reconnect_vnics container (v ∷ vs) file =
      let one =
        reconnect_found w write container interface subnet gateway v (w.get_container container)
          file in
      let rest = reconnect_vnics container vs one.1 in
      let skipped = reconnect_vnics container vs file in
      if same_name v.parent_interface (some interface)
      then (map (tag container) one.0 ++ rest.0, rest.1)
      else skipped

  unfoldable pub reconnect_each : Dict (List VnicConfig) → Vnics → AllDone
  unfolding reconnect_vnics
  reconnect_each [] file = ([], file)
  reconnect_each ((container, vs) ∷ all) file =
      let one = reconnect_vnics container vs file in
      let rest = reconnect_each all one.1 in (one.0 ++ rest.0, rest.1)

abbrev pub with_subnet :
    World → Write → String → List (Option String) → Option String → Vnics → AllDone
with_subnet w write interface [] gateway file = ([], file)
with_subnet w write interface (none ∷ _) gateway file = ([], file)
with_subnet w write interface (some subnet ∷ _) gateway file =
    if str_eq subnet ""
    then ([], file)
    else reconnect_each w write interface subnet gateway (load_all_vnics file) file

-- `reconnect_containers`
unfoldable pub reconnect_containers : World → Write → String → Change → Vnics → AllDone
unfolding reconnect_each load_all_vnics
reconnect_containers w write interface d file =
    with_subnet w write interface d.subnets d.gateway file
