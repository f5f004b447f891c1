-- ===== src/Tests/Samples.antt =====
-- Values that the tests share: a blank vNIC, an agent that knows nothing, and a host where everything
-- works.
use orchestrator_agent.Prelude.{none, some, [], ◌∷◌, true}
use orchestrator_agent.SerialPorts.{written, missing}
use orchestrator_agent.Vnics.{VnicConfig}
use orchestrator_agent.Provision.{Agent, done, pulled, image_found, connected, World, removed, says}
use orchestrator_agent.Provision.Create.{Env}

abbrev pub blank : VnicConfig
blank = record {
  name = none;
  parent_interface = none;
  network_mode = none;
  ip = none;
  subnet = none;
  gateway = none;
  dns = none;
  mac = none;
  mac_address = none;
  docker_network_name = none;
  dhcp_ip = none;
  dhcp_gateway = none;
  dhcp_dns = none;
  interface_type = none;
  is_wifi = none;
  network_method = none;
  proxy_arp_config = none;
}

abbrev pub new_agent : Agent
new_agent = record {
  operations = record { operations = [] };
  client_repo = record { clients = []; clients_file = missing };
  usage = record { buffers = [] };
  vnic_file = missing;
  serial_file = missing;
  nic_file = missing;
}

abbrev pub works : World
works = record {
  interfaces = [];
  polls = λ _. [];
  existing_macs = λ _. [];
  pull_image = λ _. pulled;
  get_image = λ _. image_found;
  create_internal_network = λ _. done "plc_internal";
  macvlan_network = λ _ _ _. done "macvlan_eth0_192.168.1.0_24";
  api_version = done "1.44";
  octets_for = λ _. 3 ∷ 1 ∷ 2 ∷ 3 ∷ 4 ∷ 5 ∷ [];
  create_container = λ _. done tt;
  connect_network = λ _. connected;
  force_remove = done tt;
  start_container = done tt;
  reload = done (record {
    settings = ("plc_internal", record { net_ip = "172.18.0.2"; net_mac = "02:42" }) ∷ [];
    started_pid = 77;
  });
  stop_and_remove = λ _. removed;
  get_running_pid = λ _. done (some 77);
  start_dhcp = λ _ _ _. says true;
  request_wifi_dhcp = λ _ _ _. says true;
  setup_proxy_arp = λ _ _ _ _. says true;
  move_nic = λ _ _. says true;
}

abbrev pub env : Env
env = record {
  now = 9;
  client_write = written;
  vnic_write = written;
  serial_write = written;
  nic_write = written;
}
