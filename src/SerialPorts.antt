-- ===== src/SerialPorts.antt =====
-- src/tools/json_file.py, src/repos/serial_repo.py and `matches_device_id` of src/tools/utils.py:
-- the serial ports of the containers, kept in a JSON file. A device id is the list of its code
-- points. The file holds what this code writes; what may happen to a write is an argument.
pub mod Status
pub mod Store
use orchestrator_agent.Prelude.{
  ℕ, String, Bool, true, false, ◌&&◌, ◌||◌, Option, none, some, List, [], ◌∷◌, ◌++◌, map, select,
  if◌then◌else◌, str_eq, ◌==◌,
}
use orchestrator_agent.Prelude.Dict.{Dict, lookup, insert, remove, contains}

-- A file that `read_json_file` finds: none, one that is no JSON or cannot be read, or data.
pub data File (A : Type 0) : Type 0 where
  missing unreadable : File A
  holds : A → File A

unfoldable pub read_json_file : {V : Type 0} → File (Dict V) → Dict V
read_json_file missing = []
read_json_file unreadable = []
read_json_file (holds data') = data'

-- What becomes of `write_json_file`: done; an exception before the file is opened; or one after
-- `open(file_path, "w")` has emptied it, so that no whole JSON text stands in it.
pub data Write : Type 0 where
  written not_opened cut_short : Write

unfoldable pub write_json_file : {A : Type 0} → Write → A → File A → File A
write_json_file written data' file = holds data'
write_json_file not_opened data' file = file
write_json_file cut_short data' file = unreadable

-- `JsonConfigStore.modify`. The callers log what it raises and go on.
unfoldable pub modify : {V : Type 0} → Write → (Dict V → Dict V) → File (Dict V) → File (Dict V)
unfolding write_json_file read_json_file
modify w f file = write_json_file w (f (read_json_file file)) file

pub record SerialPort : Type 0 where
  pub name : Option String
  pub device_id : Option (List ℕ)
  pub container_path : Option String
  pub status : String
  pub current_host_path : Option String
  pub major : Option ℕ
  pub minor : Option ℕ

-- The fields that `save_configs` reads of a configuration; `config.get` gives `none` for a missing
-- one.
pub record Config : Type 0 where
  pub config_name : Option String
  pub config_device_id : Option (List ℕ)
  pub config_container_path : Option String

unfoldable pub initialized : Config → SerialPort
initialized c = record {
  name = c.config_name;
  device_id = c.config_device_id;
  container_path = c.config_container_path;
  status = "disconnected";
  current_host_path = none;
  major = none;
  minor = none;
}

-- The list under `"serial_ports"` of a container.
abbrev pub Ports : Type 0
Ports = List SerialPort

unfoldable pub save_configs : Write → String → List Config → File (Dict Ports) → File (Dict Ports)
unfolding modify initialized
save_configs w container configs =
    modify w (λ data'. insert container (map initialized configs) data')

abbrev pub ports_or_none : Option Ports → Ports
ports_or_none none = []
ports_or_none (some ports) = ports

unfoldable pub load_configs : String → File (Dict Ports) → Ports
unfolding read_json_file
load_configs container file = ports_or_none (lookup container (read_json_file file))

unfoldable pub delete_configs : Write → String → File (Dict Ports) → File (Dict Ports)
unfolding modify
delete_configs w container =
    modify w (λ data'. if contains container data' then remove container data' else data')

-- The keyword arguments of `update_status`; each may be absent, or None.
pub record Attached : Type 0 where
  pub new_host_path : Option (Option String)
  pub new_major : Option (Option ℕ)
  pub new_minor : Option (Option ℕ)

abbrev pub given : {A : Type 0} → Option A → A → A
given none old = old
given (some new) old = new

unfoldable pub cleared_if_disconnected : String → SerialPort → SerialPort
cleared_if_disconnected status p =
    if str_eq status "disconnected"
    then record p { current_host_path = none; major = none; minor = none }
    else p

unfoldable pub with_status : String → Attached → SerialPort → SerialPort
unfolding cleared_if_disconnected
with_status status a p = cleared_if_disconnected status (record p {
  status = status;
  current_host_path = given a.new_host_path p.current_host_path;
  major = given a.new_major p.major;
  minor = given a.new_minor p.minor;
})

-- `port_config.get("name") == port_name`, where either may be None.
abbrev pub is_named : Option String → Option String → Bool
is_named none none = true
is_named none (some m) = false
is_named (some n) none = false
is_named (some n) (some m) = str_eq m n

-- The loop of `update_status`: the first port of the name is changed, and the loop is left.
unfoldable pub update_first : Option String → (SerialPort → SerialPort) → Ports → Ports
update_first n f [] = []
update_first n f (p ∷ ps) =
    let rest = update_first n f ps in if is_named n p.name then f p ∷ ps else p ∷ rest

unfoldable pub update_found :
    String → Option String → (SerialPort → SerialPort) → Option Ports → Dict Ports → Dict Ports
unfolding update_first
update_found container n f none data' = data'
update_found container n f (some ports) data' = insert container (update_first n f ports) data'

unfoldable pub update_status :
    Write → String → Option String → String → Attached → File (Dict Ports) → File (Dict Ports)
unfolding modify update_found with_status
update_status w container n status a =
    modify w
      (λ data'. update_found container n (with_status status a) (lookup container data') data')

abbrev is_prefix : List ℕ → List ℕ → Bool
is_prefix [] t = true
is_prefix (a ∷ s) [] = false
is_prefix (a ∷ s) (b ∷ t) = (a == b) && is_prefix s t

-- `s in t`
abbrev pub is_in : List ℕ → List ℕ → Bool
is_in s [] = is_prefix s []
is_in s (b ∷ t) = is_prefix s (b ∷ t) || is_in s t

unfoldable pub matches_device_id : Option (List ℕ) → List ℕ → Bool
matches_device_id none by_id = false
matches_device_id (some []) by_id = false
matches_device_id (some (a ∷ s)) [] = false
matches_device_id (some (a ∷ s)) (b ∷ t) = is_in (a ∷ s) (b ∷ t) || is_in (b ∷ t) (a ∷ s)

abbrev pub tagged : String → Ports → List (String × SerialPort)
tagged container [] = []
tagged container (p ∷ ps) = (container, p) ∷ tagged container ps

-- The inner loop of `get_by_device_id`.
unfoldable pub matching : List ℕ → String → Ports → List (String × SerialPort)
unfolding matches_device_id
matching id container [] = []
matching id container (p ∷ ps) =
    let rest = matching id container ps in
    if matches_device_id p.device_id id then (container, p) ∷ rest else rest

unfoldable pub all_matching : List ℕ → Dict Ports → List (String × SerialPort)
unfolding matching
all_matching id [] = []
all_matching id ((container, ports) ∷ m) = matching id container ports ++ all_matching id m

unfoldable pub get_by_device_id : List ℕ → File (Dict Ports) → List (String × SerialPort)
unfolding all_matching read_json_file
get_by_device_id id file = all_matching id (read_json_file file)

unfoldable pub all_tagged : Dict Ports → List (String × SerialPort)
all_tagged [] = []
all_tagged ((container, ports) ∷ m) = tagged container ports ++ all_tagged m

unfoldable pub get_all_configured_ports : File (Dict Ports) → List (String × SerialPort)
unfolding all_tagged read_json_file
get_all_configured_ports file = all_tagged (read_json_file file)
