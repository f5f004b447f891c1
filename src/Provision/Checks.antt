-- ===== src/Provision/Checks.antt =====
-- The checks of src/use_cases/docker_manager/create_runtime_container.py before a container is made.
use orchestrator_agent.Prelude.{
  ℕ, ◌+◌, String, Bool, true, false, Option, none, some, List, [], ◌∷◌, if◌then◌else◌, str_eq,
}
use orchestrator_agent.Prelude.Decimal.{decimal}
use orchestrator_agent.Prelude.Dict.{Dict, lookup, insert}
use orchestrator_agent.Prelude.Texts.{append, same_lower}
use orchestrator_agent.Networks.{Interface, get_interface_type, get_macvlan_network_key}
use orchestrator_agent.SerialPorts.{File}
use orchestrator_agent.Stores.{RawNic, get_container_for_nic}
use orchestrator_agent.Vnics.{VnicConfig}
use orchestrator_agent.Provision.{World}

-- What is wrong with a request: the error texts, with the names that they show.
pub data Problem : Type 0 where
  same_network : String → String → String → Problem
  mac_in_use : String → Problem
  no_interface wifi_interface : String → Problem
  already_dedicated : String → String → Problem
  is_vnic_parent : String → Problem

-- The answer of a check: valid, a problem, or an exception.
pub data Check : Type 0 where
  valid : Check
  invalid : Problem → Check
  check_raises : Check

-- `vnic_config.get("name") or f"unnamed_vnic_{idx}"`
abbrev pub name_at : ℕ → Option String → String
name_at idx none = append "unnamed_vnic_" (decimal idx)
name_at idx (some n) = if str_eq n "" then append "unnamed_vnic_" (decimal idx) else n

abbrev pub network_key : World → VnicConfig → Option String
network_key w v =
    get_macvlan_network_key (w.polls v.parent_interface) v.parent_interface v.subnet v.gateway

abbrev pub is_on_wifi : World → VnicConfig → Bool
is_on_wifi w v = str_eq (get_interface_type v.parent_interface w.interfaces) "wifi"

-- What a vNIC's key does to the loop of `_validate_vnic_configs`: a duplicate ends it.
unfoldable pub clash_with : String → String → Option String → Option Check
clash_with vnic key none = none
clash_with vnic key (some other) = some (invalid (same_network other vnic key))

unfoldable pub key_clash : String → Option String → Dict String → Option Check
unfolding clash_with
key_clash vnic none seen = some check_raises
key_clash vnic (some key) seen = clash_with vnic key (lookup key seen)

unfoldable pub answer_or : Option Check → Check → Check
answer_or none rest = rest
answer_or (some answer) rest = answer

abbrev seen_after : String → Option String → Dict String → Dict String
seen_after vnic none seen = seen
seen_after vnic (some key) seen = insert key vnic seen

-- The dict of the Wi-Fi interfaces serves a log line only, and is left out.
unfoldable pub check_networks : World → ℕ → Dict String → List VnicConfig → Check
unfolding key_clash answer_or
check_networks w idx seen [] = valid
check_networks w idx seen (v ∷ vs) =
    let vnic = name_at idx v.name in
    let key = network_key w v in
    let rest = check_networks w (idx + 1) seen vs in
    let rest_seen = check_networks w (idx + 1) (seen_after vnic key seen) vs in
    if is_on_wifi w v then rest else answer_or (key_clash vnic key seen) rest_seen

unfoldable pub validate_vnic_configs : World → List VnicConfig → Check
unfolding check_networks
validate_vnic_configs w vs = check_networks w 0 [] vs

-- `mac_lower in existing_macs`; Docker's addresses are in lower case.
unfoldable mac_known : String → Dict String → Bool
unfolding same_lower
mac_known mac [] = false
mac_known mac ((known, _) ∷ m) =
    let rest = mac_known mac m in if same_lower mac known then true else rest

unfoldable validate_mac_addresses : World → List VnicConfig → Check
unfolding mac_known
validate_mac_addresses w [] = valid
validate_mac_addresses w (v ∷ vs) =
    let rest = validate_mac_addresses w vs in
    elim v.mac [
      | none ↦ rest
      | some mac ↦
          if str_eq mac ""
          then rest
          else if mac_known mac (w.existing_macs v.parent_interface)
          then invalid (mac_in_use mac)
          else rest
    ]

unfoldable is_parent : String → List VnicConfig → Bool
is_parent nic [] = false
is_parent nic (v ∷ vs) =
    let rest = is_parent nic vs in
    elim v.parent_interface [ none ↦ rest | some p ↦ if str_eq p nic then true else rest ]

abbrev is_wifi_kind : Option String → Bool
is_wifi_kind none = false
is_wifi_kind (some kind) = str_eq kind "wifi"

unfoldable check_owner : String → List VnicConfig → Option String → Check
unfolding is_parent
check_owner nic vs (some owner) =
    if str_eq owner ""
    then (if is_parent nic vs then invalid (is_vnic_parent nic) else valid)
    else invalid (already_dedicated nic owner)
check_owner nic vs none = if is_parent nic vs then invalid (is_vnic_parent nic) else valid

unfoldable check_interface :
    String → List VnicConfig → File (Dict RawNic) → Option Interface → Check
unfolding check_owner get_container_for_nic
check_interface nic vs nics none = invalid (no_interface nic)
check_interface nic vs nics (some i) =
    if is_wifi_kind i.interface_kind
    then invalid (wifi_interface nic)
    else check_owner nic vs (get_container_for_nic nic nics)

unfoldable validate_dedicated_interface :
    World → File (Dict RawNic) → String → List VnicConfig → Check
unfolding check_interface
validate_dedicated_interface w nics nic vs = check_interface nic vs nics (lookup nic w.interfaces)

-- `if dedicated_interface:`
unfoldable validate_dedicated : World → File (Dict RawNic) → Option String → List VnicConfig → Check
unfolding validate_dedicated_interface
validate_dedicated w nics none vs = valid
validate_dedicated w nics (some nic) vs =
    if str_eq nic "" then valid else validate_dedicated_interface w nics nic vs

abbrev and_then : Check → Check → Check
and_then valid next = next
and_then (invalid p) next = invalid p
and_then check_raises next = check_raises

-- The three checks in the order in which they are made.
unfoldable pub validate : World → File (Dict RawNic) → Option String → List VnicConfig → Check
unfolding validate_vnic_configs validate_mac_addresses validate_dedicated
validate w nics nic vs =
    and_then (validate_vnic_configs w vs)
      (and_then (validate_mac_addresses w vs) (validate_dedicated w nics nic vs))
