-- ===== src/Tests/SerialRuns.antt =====
-- src/repos/serial_repo.py on small inputs.
use orchestrator_agent.Prelude.{◌≡◌, ◌≢◌, refl, String, some, [], ◌∷◌, arith, eq_iff}
use orchestrator_agent.Prelude.Dict.{Dict}
use orchestrator_agent.SerialPorts.{
  File, holds, read_json_file, written, cut_short, Config, initialized, Ports, save_configs,
  load_configs, Attached,
}
use orchestrator_agent.SerialPorts.Status.{AllClear}
use orchestrator_agent.SerialPorts.Store.{save_after_cut_short}

abbrev config : Config
config = record {
  config_name = some "modbus";
  config_device_id = some (b'u' ∷ b's' ∷ b'b' ∷ []);
  config_container_path = some "/dev/modbus0";
}

abbrev stored : File (Dict Ports)
unfolding initialized
stored = holds (("plc", initialized config ∷ []) ∷ [])

stored-AllClear : AllClear stored
unfolding read_json_file stored
stored-AllClear = ((λ _. (refl, (refl, refl)), tt), tt)

abbrev plugged : Attached
plugged = record {
  new_host_path = some (some "/dev/ttyUSB0");
  new_major = some (some 188);
  new_minor = some (some 0);
}

apart : ◌≢◌ {A = String} "drive" "plc"
apart e = ground (arith, eq_iff "drive" "plc")

save_after_cut_short_example :
    load_configs "plc"
      (save_configs written "drive" (config ∷ []) (save_configs cut_short "plc" [] stored))
    ≡ []
save_after_cut_short_example =
    save_after_cut_short "plc" "drive" "plc" [] (config ∷ []) stored apart
