-- ===== src/SerialPorts/Store.antt =====
-- Reading back what was stored, and what a failed read or write costs.
use orchestrator_agent.Prelude.{
  ◌≡◌, ◌≢◌, String, List, [], map, arith, str_eq, eq_iff, if◌then◌else◌,
}
use orchestrator_agent.Prelude.Dict.{Dict, lookup, lookup-insert}
use orchestrator_agent.SerialPorts.{
  File, read_json_file, written, cut_short, write_json_file, modify, Config, initialized, Ports,
  save_configs, load_configs,
}

-- What `save_configs` writes for a container is what `load_configs` gives for it, and the other
-- containers' ports are as before, when the write is done.
load_configs-save_configs :
    (container other : String) (configs : List Config) (file : File (Dict Ports))
    → load_configs other (save_configs written container configs file)
      ≡ (if str_eq container other then map initialized configs else load_configs other file)
unfolding load_configs save_configs modify write_json_file read_json_file lookup
load_configs-save_configs container other configs file =
    ground (arith, lookup-insert container other (map initialized configs) (read_json_file file))

-- A save that breaks off once the file is open, and then a save for another container that is done:
-- every container but the last has lost its ports.
pub save_after_cut_short :
    (first container other : String) (old configs : List Config) (file : File (Dict Ports))
    → container ≢ other
    → load_configs other
        (save_configs written container configs (save_configs cut_short first old file))
      ≡ []
unfolding load_configs save_configs modify write_json_file read_json_file lookup
save_after_cut_short first container other old configs file ne =
    ground
      (arith, lookup-insert container other (map initialized configs) [], eq_iff container other)
