-- ===== src/Stores/Nics.antt =====
-- Which container a dedicated NIC belongs to.
use orchestrator_agent.Prelude.{
  ◌≡◌, ◌≢◌, String, true, false, some, [], ◌∷◌, arith, eq_iff, str_eq, Bool-cases, Option-cases,
  inl, inr,
}
use orchestrator_agent.Prelude.Dict.{Dict, lookup, contains, IsDistinct}
use orchestrator_agent.SerialPorts.{File, read_json_file}
use orchestrator_agent.Stores.{
  RawNic, DedicatedNicConfig, from_dict, from_raw, load_config, is_interface, first_container,
  get_container_for_nic,
}

abbrev pub dedicated : String → DedicatedNicConfig
dedicated nic = record { host_interface = nic }

from_dict-interface :
    (nic : String) (raw : RawNic)
    → is_interface nic raw.raw_interface ≡ true
    → nic ≢ ""
    → from_dict raw ≡ some (dedicated nic)
unfolding from_dict
from_dict-interface nic raw h ne = elim (Option-cases raw.raw_interface) [
  | inl missing ↦ absurd (ground arith)
  | inr (i, there) ↦ ground (arith, eq_iff i nic, eq_iff i "")
]

first_container-contains :
    (nic c : String) (m : Dict RawNic) → first_container nic m ≡ some c → contains c m ≡ true
unfolding first_container contains
first_container-contains nic c [] h = absurd (ground arith)
first_container-contains nic c ((j, raw) ∷ m) h =
    elim (Bool-cases (is_interface nic raw.raw_interface)) [
      | inl match_here ↦ let e : some j ≡ some c = rw match_here at h in ground (arith, eq_iff j c)
      | inr later ↦
          let e : first_container nic m ≡ some c = rw later at h in
          ground (arith, first_container-contains nic c m e)
    ]

first_container-lookup :
    (nic c : String) (m : Dict RawNic)
    → IsDistinct m
    → nic ≢ ""
    → first_container nic m ≡ some c
    → from_raw (lookup c m) ≡ some (dedicated nic)
unfolding first_container lookup from_raw
first_container-lookup nic c [] d ne h = absurd (ground arith)
first_container-lookup nic c ((j, raw) ∷ m) d ne h =
    elim (Bool-cases (is_interface nic raw.raw_interface)) [
      | inl match_here ↦
          let e : some j ≡ some c = rw match_here at h in
          let same : str_eq j c ≡ true = ground (arith, eq_iff j c) in
          rw same (from_dict-interface nic raw match_here ne)
      | inr later ↦
          let e : first_container nic m ≡ some c = rw later at h in
          let other : str_eq j c ≡ false =
            ground (arith, first_container-contains nic c m e, eq_iff j c, d.0) in
          rw other (first_container-lookup nic c m d.1 ne e)
    ]

-- The container that `get_container_for_nic` names for an interface is one whose configuration, as
-- `load_config` gives it, is that interface, in a file with each container once.
get_container_for_nic-load_config :
    (nic c : String) (file : File (Dict RawNic))
    → IsDistinct (read_json_file file)
    → nic ≢ ""
    → get_container_for_nic nic file ≡ some c
    → load_config c file ≡ some (dedicated nic)
unfolding get_container_for_nic load_config
get_container_for_nic-load_config nic c file d ne h =
    first_container-lookup nic c (read_json_file file) d ne h
