-- ===== src/Tests/StoreRuns.antt =====
-- src/repos/client_repo.py and src/repos/dedicated_nic_repo.py on small inputs.
use orchestrator_agent.Prelude.{◌≡◌, refl, some, [], ◌∷◌}
use orchestrator_agent.Prelude.Dict.{Dict}
use orchestrator_agent.SerialPorts.{File, holds}
use orchestrator_agent.Stores.{RawNic, get_container_for_nic}

abbrev nics : File (Dict RawNic)
nics = holds (
    ("plc", record { raw_interface = some "eth0" })
    ∷ ("drive", record { raw_interface = some "eth1" })
    ∷ [])

drive_found : get_container_for_nic "eth1" nics ≡ some "drive"
unfolding get_container_for_nic
drive_found = refl
