-- ===== src/Tests/SerialDeviceRuns.antt =====
-- src/use_cases/serial_device_manager.py on small inputs.
use orchestrator_agent.Prelude.{◌≡◌, refl, true, none, some, List, [], ◌∷◌}
use orchestrator_agent.Prelude.Dict.{lookup, insert}
use orchestrator_agent.SerialPorts.{holds, read_json_file, Write, written, SerialPort}
use orchestrator_agent.SerialPorts.Status.{AllClear}
use orchestrator_agent.SerialDevices.{Device, SerialDeviceManager, World, is_running}
use orchestrator_agent.SerialDevices.Keeps.{Event, change, discovery, react_all, react_all-AllClear}

abbrev stick : Device
stick = record {
  path = some "/dev/ttyUSB0";
  by_id = some "usb-FTDI";
  dev_major = some 188;
  dev_minor = some 0;
}

abbrev port : SerialPort
port = record {
  name = some "modbus";
  device_id = some (b'F' ∷ b'T' ∷ b'D' ∷ b'I' ∷ []);
  container_path = some "/dev/modbus0";
  status = "disconnected";
  current_host_path = none;
  major = none;
  minor = none;
}

abbrev manager : SerialDeviceManager
manager = record { device_cache = []; configs = holds (("plc", port ∷ []) ∷ []) }

manager-AllClear : AllClear manager.configs
unfolding read_json_file
manager-AllClear = ((λ _. (refl, (refl, refl)), tt), tt)

abbrev up : World
up = record { status_of = λ _. is_running; stat = λ _. none; mknod = λ _ _ _ _. true }

abbrev events : List (World × Write × Event)
events =
    (up, written, discovery (stick ∷ []))
    ∷ (up, written, change (some "remove") (some stick))
    ∷ (up, written, change (some "add") (some stick))
    ∷ []

react_all-AllClear_example : AllClear (react_all events manager).configs
react_all-AllClear_example = react_all-AllClear events manager manager-AllClear

-- The run connects the port, and its node is that of the device.
run_connects :
    (react_all events manager).configs
    ≡ holds (
        (
          "plc",
          record port {
            status = "connected";
            current_host_path = some "/dev/ttyUSB0";
            major = some 188;
            minor = some 0;
          }
              ∷ [],
        )
        ∷ [])
unfolding react_all insert lookup
run_connects = refl
