-- ===== src/Dhcp/Updates.antt =====
-- `handle_dhcp_update` of src/use_cases/dhcp_manager.py: a lease that netmon reports.
use mathlib.Core.Option
use orchestrator_agent.Prelude.{
  ◌≡◌, refl, ap, ◌∙◌, ◌≢◌, ℕ, String, true, ◌&&◌, Option, none, some, List, [], ◌∷◌, arith,
  if◌then◌else◌, eq_iff, Bool-cases, Option-cases, inl, inr,
}
use orchestrator_agent.Prelude.Dict.{Dict, lookup, insert, lookup-insert}
use orchestrator_agent.Prelude.Texts.{truthy, shown}
use orchestrator_agent.SerialPorts.{File, Write, written, read_json_file, modify, write_json_file}
use orchestrator_agent.Stores.{save_vnics, load_all_vnics, load_vnics, vnics_or_none}
use orchestrator_agent.Vnics.{VnicConfig, ProxyArp, vnic_key, same_name}
use orchestrator_agent.Dhcp.{vnic_named}

-- The event of netmon.
pub record Lease : Type 0 where
  pub lease_container : Option String
  pub lease_vnic : Option String
  pub lease_ip : Option String
  pub lease_mask : Option String
  pub lease_prefix : Option ℕ
  pub lease_gateway : Option String
  pub lease_dns : Option String
  pub lease_mac : Option String
  pub lease_proxy_arp : Option ProxyArp

-- What `dhcp_ip_cache` keeps of it.
pub record Cached : Type 0 where
  pub cached_ip : Option String
  pub cached_mask : Option String
  pub cached_prefix : Option ℕ
  pub cached_gateway : Option String
  pub cached_dns : Option String
  pub cached_mac : Option String

abbrev pub cached : Lease → Cached
cached l = record {
  cached_ip = l.lease_ip;
  cached_mask = l.lease_mask;
  cached_prefix = l.lease_prefix;
  cached_gateway = l.lease_gateway;
  cached_dns = l.lease_dns;
  cached_mac = l.lease_mac;
}

abbrev with_proxy : Option ProxyArp → VnicConfig → VnicConfig
with_proxy none v = v
with_proxy (some p) v = record v { proxy_arp_config = some p }

abbrev pub leased : Lease → VnicConfig → VnicConfig
leased l v =
    with_proxy l.lease_proxy_arp
      (record v { dhcp_ip = l.lease_ip; dhcp_gateway = l.lease_gateway; dhcp_dns = l.lease_dns })

-- The loop over the configurations, left at the first of the name.
unfoldable lease_first : Option String → Lease → List VnicConfig → List VnicConfig
lease_first n l [] = []
lease_first n l (v ∷ vs) =
    let rest = lease_first n l vs in if same_name v.name n then leased l v ∷ vs else v ∷ rest

-- The address cache and the stored configurations.
pub record Leases : Type 0 where
  pub dhcp_ip_cache : Dict Cached
  pub stored : File (Dict (List VnicConfig))

unfoldable store_lease :
    Write
    → String
    → Lease
    → Option (List VnicConfig)
    → File (Dict (List VnicConfig))
    → File (Dict (List VnicConfig))
unfolding lease_first save_vnics
store_lease write container l none file = file
store_lease write container l (some vs) file =
    save_vnics write container (lease_first l.lease_vnic l vs) file

unfoldable take_lease : Write → String → Lease → Leases → Leases
unfolding store_lease load_all_vnics
take_lease write container l s = record {
  dhcp_ip_cache = insert (vnic_key container l.lease_vnic) (cached l) s.dhcp_ip_cache;
  stored = store_lease write container l (lookup container (load_all_vnics s.stored)) s.stored;
}

-- The callbacks are told after this. An event without container, NIC or address changes nothing.
unfoldable pub handle_dhcp_update : Write → Lease → Leases → Leases
unfolding take_lease
handle_dhcp_update write l s =
    if truthy l.lease_container && (truthy l.lease_vnic && truthy l.lease_ip)
    then take_lease write (shown l.lease_container) l s
    else s

leased-name : (l : Lease) (v : VnicConfig) → (leased l v).name ≡ v.name
leased-name l v = elim (Option-cases l.lease_proxy_arp) [
  | inl absent ↦ rw absent refl
  | inr (p, there) ↦ rw there refl
]

vnic_named-lease_first :
    (n : Option String) (l : Lease) (vs : List VnicConfig) (v : VnicConfig)
    → vnic_named n vs ≡ some v
    → vnic_named n (lease_first n l vs) ≡ some (leased l v)
unfolding vnic_named lease_first
vnic_named-lease_first n l [] v h = absurd (ground arith)
vnic_named-lease_first n l (u ∷ vs) v h = elim (Bool-cases (same_name u.name n)) [
  | inl here ↦
      let first : some u ≡ some v = rw here at h in
      rw here (rw (leased-name l u, here) (ap (λ o. Option.map (leased l) o) first))
  | inr later ↦
      let rest : vnic_named n vs ≡ some v = rw later at h in
      rw later (rw later (vnic_named-lease_first n l vs v rest))
]

-- A complete lease for a NIC that is stored under the container, when the write is done: reading the
-- store back gives the NIC with the leased address, and every other container's NICs as they were.
pub handle_dhcp_update-load_vnics :
    (l : Lease) (other : String) (v : VnicConfig) (vs : List VnicConfig) (s : Leases)
    → (truthy l.lease_container && (truthy l.lease_vnic && truthy l.lease_ip)) ≡ true
    → lookup (shown l.lease_container) (load_all_vnics s.stored) ≡ some vs
    → vnic_named l.lease_vnic vs ≡ some v
    → shown l.lease_container ≢ other
    → (vnic_named l.lease_vnic
          (load_vnics (shown l.lease_container) (handle_dhcp_update written l s).stored)
        ≡ some (leased l v))
      × (load_vnics other (handle_dhcp_update written l s).stored ≡ load_vnics other s.stored)
unfolding handle_dhcp_update take_lease store_lease save_vnics load_all_vnics load_vnics modify
    write_json_file read_json_file
handle_dhcp_update-load_vnics l other v vs s complete there here apart =
    let container = shown l.lease_container in
    let before = load_all_vnics s.stored in
    let after = lease_first l.lease_vnic l vs in
    let own : lookup container (insert container after before) ≡ some after =
      ground (arith, lookup-insert container container after before, eq_iff container container) in
    let others : lookup other (insert container after before) ≡ lookup other before =
      ground (arith, lookup-insert container other after before, eq_iff container other) in
    rw (complete, there)
      (
        ap (λ o. vnic_named l.lease_vnic (vnics_or_none o)) own
            ∙ vnic_named-lease_first l.lease_vnic l vs v here,
        ap vnics_or_none others,
      )
