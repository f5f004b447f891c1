-- ===== src/Dhcp/Resync.antt =====
-- `resync_dhcp_for_existing_containers` of src/use_cases/dhcp_manager.py with its helpers: DHCP is
-- asked for again for the virtual NICs of the containers that run.
use orchestrator_agent.Prelude.{
  ◌≡◌, refl, ℕ, ◌+◌, String, Bool, true, false, not, ◌&&◌, Option, none, some, List, [], ◌∷◌, arith,
  if◌then◌else◌, str_eq, eq_iff, ◌==◌, any,
}
use orchestrator_agent.Prelude.Dict.{Dict, lookup, insert, remove, lookup-insert, lookup-remove}
use orchestrator_agent.Prelude.Texts.{truthy, before, same_lower}
use orchestrator_agent.SerialPorts.{File, Write}
use orchestrator_agent.Stores.{save_vnics, load_all_vnics}
use orchestrator_agent.Vnics.{VnicConfig, mode_of, vnic_key}
use orchestrator_agent.Dhcp.{
  retry_backoff_base, Pending, DhcpManager, Container, found, not_found, lookup_raises, Found,
  Request, answered, request_raises, Reconnect, reconnect_raises, reconnected, World, macvlan_of,
}

-- The entry that a failed request leaves.
abbrev pub put_off : ℕ → String → VnicConfig → Bool → Pending
put_off now container v proxy_arp = record {
  container_name = container;
  vnic_name = v.name;
  parent_interface = v.parent_interface;
  is_proxy_arp = proxy_arp;
  next_retry_at = now + retry_backoff_base;
  retry_count = 0;
}

-- `if vnic_config.get("dhcp_ip")`: an address that is no longer sure is taken out.
unfoldable without_lease : VnicConfig → VnicConfig
without_lease v = if truthy v.dhcp_ip then record v { dhcp_ip = none; dhcp_gateway = none } else v

-- What follows a request: the entry is dropped, or put off and the old address dropped; an exception
-- goes to the caller's loop, which logs it.
unfoldable after_request :
    ℕ → String → Bool → Request → VnicConfig → DhcpManager → VnicConfig × DhcpManager
unfolding without_lease
after_request now container proxy_arp request_raises v m = (v, m)
after_request now container proxy_arp (answered true) v m = (
  v,
  record m { pending_dhcp_resyncs = remove (vnic_key container v.name) m.pending_dhcp_resyncs },
)
after_request now container proxy_arp (answered false) v m = (
  without_lease v,
  record m {
    pending_dhcp_resyncs =
        insert (vnic_key container v.name) (put_off now container v proxy_arp)
          m.pending_dhcp_resyncs;
  },
)

unfoldable resync_wifi :
    World → ℕ → String → ℕ → VnicConfig → DhcpManager → VnicConfig × DhcpManager
unfolding after_request
resync_wifi w now container pid v m =
    after_request now container true (w.request_wifi_dhcp container v.name v.parent_interface pid) v
      m

-- The address, the process and the configuration after `_enforce_mac_address`.
record Enforced : Type 0 where
  mac_now : String
  pid_now : ℕ
  config : VnicConfig

-- When no poll has reported the fixed address: the one reported last, if there is one.
abbrev fallback : String → ℕ → VnicConfig → Option String → Enforced
fallback persisted pid v none = record { mac_now = persisted; pid_now = pid; config = v }
fallback persisted pid v (some mac) =
    if str_eq mac ""
    then record { mac_now = persisted; pid_now = pid; config = v }
    else record { mac_now = mac; pid_now = pid; config = record v { mac_address = some mac } }

abbrev reports : String → Option String → Bool
reports persisted none = false
reports persisted (some mac) = not (str_eq mac "") && same_lower mac persisted

unfoldable enforced : String → String → ℕ → VnicConfig → Reconnect → Enforced
enforced persisted actual pid v reconnect_raises = record {
  mac_now = actual;
  pid_now = pid;
  config = v;
}
enforced persisted actual pid v (reconnected polls final pid_after) =
    if any (reports persisted) polls
    then record { mac_now = persisted; pid_now = pid_after; config = v }
    else fallback persisted pid_after v final

-- The address that is asked for with a static configuration.
abbrev static_ip : VnicConfig → Option String
static_ip v = elim v.ip [
  | none ↦ none
  | some ip ↦
      if str_eq (mode_of v) "static" && not (str_eq ip "") then some (before ip "/") else none
]

unfoldable enforce_mac_address :
    World → String → String → String → String → ℕ → VnicConfig → Enforced
unfolding enforced
enforce_mac_address w container net persisted actual pid v =
    enforced persisted actual pid v (w.reconnect container net (static_ip v))

-- The address to ask with: the persisted one is enforced when another is in use, and the one in use
-- is stored when none is persisted.
unfoldable settle_mac : World → String → String → String → ℕ → Option String → VnicConfig → Enforced
unfolding enforce_mac_address
settle_mac w container net actual pid none v = record {
  mac_now = actual;
  pid_now = pid;
  config = record v { mac_address = some actual };
}
settle_mac w container net actual pid (some persisted) v =
    if str_eq persisted ""
    then record { mac_now = actual; pid_now = pid; config = record v { mac_address = some actual } }
    else if same_lower persisted actual
    then record { mac_now = actual; pid_now = pid; config = v }
    else enforce_mac_address w container net persisted actual pid v

-- `if docker_network_name and not vnic_config.get("docker_network_name")`
abbrev on_network : String → VnicConfig → VnicConfig
on_network net v =
    if truthy v.docker_network_name then v else record v { docker_network_name = some net }

unfoldable start_on :
    World → ℕ → String → String → Enforced → DhcpManager → VnicConfig × DhcpManager
unfolding after_request
start_on w now container net e m =
    let v = on_network net e.config in
    after_request now container false (w.start_dhcp container v.name e.mac_now e.pid_now) v m

unfoldable resync_macvlan :
    World
    → ℕ
    → String
    → ℕ
    → Option (String × Option String)
    → VnicConfig
    → DhcpManager
    → VnicConfig × DhcpManager
unfolding settle_mac start_on
resync_macvlan w now container pid none v m = (v, m)
resync_macvlan w now container pid (some (net, none)) v m = (v, m)
resync_macvlan w now container pid (some (net, some actual)) v m =
    if str_eq actual ""
    then (v, m)
    else start_on w now container net (settle_mac w container net actual pid v.mac_address v) m

-- `vnic_config.get("_proxy_arp_config") or vnic_config.get("_network_method") == "proxy_arp"`
abbrev uses_proxy_arp : VnicConfig → Bool
uses_proxy_arp v = elim v.proxy_arp_config [
  | some _ ↦ true
  | none ↦ elim v.network_method [ none ↦ false | some method ↦ str_eq method "proxy_arp" ]
]

unfoldable resync_in :
    World → ℕ → String → VnicConfig → Found → DhcpManager → VnicConfig × DhcpManager
unfolding resync_wifi resync_macvlan macvlan_of
resync_in w now container v not_found m = (v, m)
resync_in w now container v lookup_raises m = (v, m)
resync_in w now container v (found c) m =
    if not c.is_running
    then (v, m)
    else if c.pid == 0
    then (v, m)
    else if uses_proxy_arp v
    then resync_wifi w now container c.pid v m
    else resync_macvlan w now container c.pid (macvlan_of v.parent_interface c.networks) v m

unfoldable pub resync_vnic :
    World → ℕ → String → VnicConfig → DhcpManager → VnicConfig × DhcpManager
unfolding resync_in
resync_vnic w now container v m =
    if str_eq (mode_of v) "dhcp"
    then resync_in w now container v (w.get_container container) m
    else (v, m)

unfoldable resync_list :
    World → ℕ → String → List VnicConfig → DhcpManager → List VnicConfig × DhcpManager
unfolding resync_vnic
resync_list w now container [] m = ([], m)
resync_list w now container (v ∷ vs) m =
    let one = resync_vnic w now container v m in
    let rest = resync_list w now container vs one.1 in (one.0 ∷ rest.0, rest.1)

unfoldable resync_dict :
    World → ℕ → Dict (List VnicConfig) → DhcpManager → Dict (List VnicConfig) × DhcpManager
unfolding resync_list
resync_dict w now [] m = ([], m)
resync_dict w now ((container, vs) ∷ d) m =
    let one = resync_list w now container vs m in
    let rest = resync_dict w now d one.1 in ((container, one.0) ∷ rest.0, rest.1)

-- `for container_name, vnic_configs in …: self.vnic_repo.save_configs(…)`
unfoldable save_each :
    Write → Dict (List VnicConfig) → File (Dict (List VnicConfig)) → File (Dict (List VnicConfig))
unfolding save_vnics
save_each write [] file = file
save_each write ((container, vs) ∷ d) file = save_each write d (save_vnics write container vs file)

unfoldable resync_dhcp_for_existing_containers :
    World
    → ℕ
    → Write
    → File (Dict (List VnicConfig))
    → DhcpManager
    → File (Dict (List VnicConfig)) × DhcpManager
unfolding resync_dict save_each load_all_vnics
resync_dhcp_for_existing_containers w now write file m =
    let done = resync_dict w now (load_all_vnics file) m in (save_each write done.0 file, done.1)

lookup-after_request :
    (now : ℕ) (container : String) (proxy_arp : Bool) (r : Request) (v : VnicConfig)
    (m : DhcpManager)
    → lookup
        (vnic_key container v.name)
        (after_request now container proxy_arp r v m).1.pending_dhcp_resyncs
      ≡ elim r [
        | request_raises ↦ lookup (vnic_key container v.name) m.pending_dhcp_resyncs
        | answered ok ↦ if ok then none else some (put_off now container v proxy_arp)
      ]
unfolding after_request
lookup-after_request now container proxy_arp request_raises v m = refl
lookup-after_request now container proxy_arp (answered true) v m = ground (
  arith,
  lookup-remove (vnic_key container v.name) (vnic_key container v.name) m.pending_dhcp_resyncs,
  eq_iff (vnic_key container v.name) (vnic_key container v.name),
)
lookup-after_request now container proxy_arp (answered false) v m = ground (
  arith,
  lookup-insert (vnic_key container v.name) (vnic_key container v.name)
      (put_off now container v proxy_arp) m.pending_dhcp_resyncs,
  eq_iff (vnic_key container v.name) (vnic_key container v.name),
)

-- A Wi-Fi NIC with DHCP, of a container that runs with a process: after its resync it is pending
-- exactly when its request was refused, with the first retry a second away and counted from 0; a
-- request that raises leaves what was pending.
resync_vnic_tracks :
    (w : World) (now : ℕ) (container : String) (v : VnicConfig) (c : Container) (m : DhcpManager)
    → str_eq (mode_of v) "dhcp" ≡ true
    → w.get_container container ≡ found c
    → c.is_running ≡ true
    → (c.pid == 0) ≡ false
    → uses_proxy_arp v ≡ true
    → lookup (vnic_key container v.name) (resync_vnic w now container v m).1.pending_dhcp_resyncs
      ≡ elim (w.request_wifi_dhcp container v.name v.parent_interface c.pid) [
        | request_raises ↦ lookup (vnic_key container v.name) m.pending_dhcp_resyncs
        | answered ok ↦ if ok then none else some (put_off now container v true)
      ]
unfolding resync_vnic resync_in resync_wifi
resync_vnic_tracks w now container v c m dhcp there on process wifi =
    rw (dhcp, there, on, process, wifi)
      (lookup-after_request now container true
        (w.request_wifi_dhcp container v.name v.parent_interface c.pid) v m)
