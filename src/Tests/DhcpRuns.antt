-- ===== src/Tests/DhcpRuns.antt =====
-- src/use_cases/dhcp_manager.py and src/tools/network_utils.py on small inputs.
use orchestrator_agent.Prelude.{◌≡◌, refl, true, false, none, some, [], ◌∷◌, arith, inl, inr}
use orchestrator_agent.Prelude.Dict.{contains, lookup}
use orchestrator_agent.Vnics.{VnicConfig}
use orchestrator_agent.SerialPorts.{holds}
use orchestrator_agent.Networks.{netmask_to_cidr}
use orchestrator_agent.Networks.Masks.{mask_text, netmask_to_cidr-mask_text}
use orchestrator_agent.Dhcp.{
  Pending, DhcpManager, Container, found, answered, reconnect_raises, World, Round, attempt,
  attempt_on, attempt_vnic, is_empty, retry_loop, completed, macvlan_of,
}
use orchestrator_agent.Dhcp.Loops.{retry_loop_completes}
use orchestrator_agent.Dhcp.Updates.{Lease, Leases}
use orchestrator_agent.Tests.Samples.{blank}

abbrev wifi : VnicConfig
wifi = record blank {
  name = some "eth1";
  parent_interface = some "wlan0";
  dhcp_ip = some "10.0.0.7";
  interface_type = some "wifi";
  is_wifi = some true;
  network_method = some "proxy_arp";
}

abbrev running_container : Container
running_container = record { is_running = true; pid = 41; networks = [] }

-- Netmon refuses every request.
abbrev refusing : World
refusing = record {
  get_container = λ _. found running_container;
  start_dhcp = λ _ _ _ _. answered false;
  request_wifi_dhcp = λ _ _ _ _. answered false;
  reconnect = λ _ _ _. reconnect_raises;
}

-- Netmon grants the requests for a WiFi vNIC.
abbrev granting : World
granting = record refusing { request_wifi_dhcp = λ _ _ _ _. answered true }

abbrev first_try : Pending
first_try = record {
  container_name = "plc";
  vnic_name = some "eth1";
  parent_interface = some "wlan0";
  is_proxy_arp = true;
  next_retry_at = 5;
  retry_count = 0;
}

abbrev waiting : Pending → DhcpManager
waiting p = record { running = true; pending_dhcp_resyncs = ("plc:eth1", p) ∷ [] }

abbrev round_in : World → Round
round_in w = record { world = w; vnics = ("plc", wifi ∷ []) ∷ []; clock = 9; draw = 0 }

retry_loop_completes_example :
    ((retry_loop (round_in refusing ∷ round_in granting ∷ []) (waiting first_try)).0 ≡ completed)
    × (is_empty
          (retry_loop
            (round_in refusing ∷ round_in granting ∷ [])
            (waiting first_try)).1.pending_dhcp_resyncs
        ≡ true)
unfolding contains attempt attempt_on attempt_vnic lookup
retry_loop_completes_example =
    retry_loop_completes 1 (round_in refusing ∷ round_in granting ∷ []) (waiting first_try) refl
      (refl, tt) (omega arith, tt) (omega arith) (inr (inl ((refl, tt), tt)))

abbrev last_try : Pending
last_try = record first_try { retry_count = 1023 }

abbrev lease : Lease
lease = record {
  lease_container = some "plc";
  lease_vnic = some "eth1";
  lease_ip = some "10.0.0.9";
  lease_mask = none;
  lease_prefix = some 24;
  lease_gateway = some "10.0.0.1";
  lease_dns = none;
  lease_mac = none;
  lease_proxy_arp = none;
}

abbrev leases : Leases
leases = record { dhcp_ip_cache = []; stored = holds (("other", []) ∷ ("plc", wifi ∷ []) ∷ []) }

netmask_to_cidr-mask_text_example : netmask_to_cidr (mask_text 24) ≡ some 24
netmask_to_cidr-mask_text_example = netmask_to_cidr-mask_text 24 (omega arith)

-- The network of another interface passes for that of eth1.
prefix_finding :
    macvlan_of (some "eth1") (("macvlan_eth10_10.0.0.0_24", some "02:00") ∷ [])
    ≡ some ("macvlan_eth10_10.0.0.0_24", some "02:00")
unfolding macvlan_of
prefix_finding = refl
