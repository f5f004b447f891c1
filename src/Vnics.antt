-- ===== src/Vnics.antt =====
-- The virtual NIC configurations that the use cases pass around: dicts from the cloud's message with
-- what the agent adds (src/entities/vnic_config.py names the same fields). A missing or None field is
-- `none`.
use orchestrator_agent.Prelude.{String, Bool, Option, none, some, List, str_eq}
use orchestrator_agent.Prelude.Texts.{append, shown}

pub record ProxyArp : Type 0 where
  pub proxy_ip : Option String
  pub proxy_parent : Option String
  pub veth_host : Option String
  pub veth_container : Option String
  pub proxy_gateway : Option String

-- `dns` is the list, if the value is one.
pub record VnicConfig : Type 0 where
  pub name : Option String
  pub parent_interface : Option String
  pub network_mode : Option String
  pub ip : Option String
  pub subnet : Option String
  pub gateway : Option String
  pub dns : Option (List String)
  pub mac : Option String
  pub mac_address : Option String
  pub docker_network_name : Option String
  pub dhcp_ip : Option String
  pub dhcp_gateway : Option String
  pub dhcp_dns : Option String
  pub interface_type : Option String
  pub is_wifi : Option Bool
  pub network_method : Option String
  pub proxy_arp_config : Option ProxyArp

-- `vnic_config.get("network_mode", "dhcp")`
abbrev pub mode_of : VnicConfig → String
mode_of v = elim v.network_mode [ none ↦ "dhcp" | some mode ↦ mode ]

-- `f"{container_name}:{vnic_name}"`
abbrev pub vnic_key : String → Option String → String
vnic_key container vnic = append container (append ":" (shown vnic))

-- The equality of two names, of which one or both may be None.
abbrev pub same_name : Option String → Option String → Bool
same_name none none = Bool.true
same_name none (some t) = Bool.false
same_name (some s) none = Bool.false
same_name (some s) (some t) = str_eq s t
