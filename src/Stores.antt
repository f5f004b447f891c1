-- ===== src/Stores.antt =====
-- src/repos/dedicated_nic_repo.py with src/entities/dedicated_nic_config.py, src/repos/vnic_repo.py
-- and src/repos/client_repo.py, over the JSON files of `SerialPorts`.
pub mod Clients
pub mod Nics
use orchestrator_agent.Prelude.{
  String, Bool, true, false, Option, none, some, List, [], ◌∷◌, if◌then◌else◌, str_eq,
}
use orchestrator_agent.Prelude.Dict.{Dict, lookup, insert, remove, contains}
use orchestrator_agent.SerialPorts.{File, read_json_file, Write, write_json_file, modify}

-- A NIC configuration in the file: its `"host_interface"`, if it has one.
pub record RawNic : Type 0 where
  pub raw_interface : Option String

pub record DedicatedNicConfig : Type 0 where
  pub host_interface : String

abbrev pub or_empty : Option String → String
or_empty none = ""
or_empty (some s) = s

-- `DedicatedNicConfig.from_dict`; `none` is its ValueError.
unfoldable pub from_dict : RawNic → Option DedicatedNicConfig
from_dict raw =
    if str_eq (or_empty raw.raw_interface) ""
    then none
    else some (record { host_interface = or_empty raw.raw_interface })

abbrev to_dict : DedicatedNicConfig → RawNic
to_dict c = record { raw_interface = some c.host_interface }

unfoldable pub save_config :
    Write → String → DedicatedNicConfig → File (Dict RawNic) → File (Dict RawNic)
unfolding modify
save_config w container c = modify w (λ data'. insert container (to_dict c) data')

unfoldable pub from_raw : Option RawNic → Option DedicatedNicConfig
unfolding from_dict
from_raw none = none
from_raw (some raw) = from_dict raw

unfoldable pub load_config : String → File (Dict RawNic) → Option DedicatedNicConfig
unfolding from_raw read_json_file
load_config container file = from_raw (lookup container (read_json_file file))

-- `del data[k]` if the key is there.
unfoldable pub delete_key : {V : Type 0} → String → Dict V → Dict V
delete_key k data' = if contains k data' then remove k data' else data'

unfoldable pub delete_config : Write → String → File (Dict RawNic) → File (Dict RawNic)
unfolding modify delete_key
delete_config w container = modify w (delete_key container)

abbrev pub is_interface : String → Option String → Bool
is_interface nic none = false
is_interface nic (some i) = str_eq i nic

unfoldable pub first_container : String → Dict RawNic → Option String
first_container nic [] = none
first_container nic ((container, raw) ∷ m) =
    let rest = first_container nic m in
    if is_interface nic raw.raw_interface then some container else rest

unfoldable pub get_container_for_nic : String → File (Dict RawNic) → Option String
unfolding first_container read_json_file
get_container_for_nic nic file = first_container nic (read_json_file file)

-- The virtual NICs of a container: a list of values that the store does not look into.
unfoldable pub save_vnics :
    {V : Type 0} → Write → String → List V → File (Dict (List V)) → File (Dict (List V))
unfolding modify
save_vnics w container vnics = modify w (λ data'. insert container vnics data')

abbrev pub vnics_or_none : {V : Type 0} → Option (List V) → List V
vnics_or_none none = []
vnics_or_none (some vnics) = vnics

unfoldable pub load_vnics : {V : Type 0} → String → File (Dict (List V)) → List V
unfolding read_json_file
load_vnics container file = vnics_or_none (lookup container (read_json_file file))

unfoldable pub load_all_vnics : {V : Type 0} → File (Dict (List V)) → Dict (List V)
unfolding read_json_file
load_all_vnics file = read_json_file file

unfoldable pub delete_vnics :
    {V : Type 0} → Write → String → File (Dict (List V)) → File (Dict (List V))
unfolding modify delete_key
delete_vnics w container = modify w (delete_key container)

pub record Client : Type 0 where
  pub ip : String
  pub client_name : String

-- The clients in memory, and the file beside them.
pub record ClientRepo : Type 0 where
  pub clients : Dict Client
  pub clients_file : File (Dict Client)

unfoldable pub open_repo : File (Dict Client) → ClientRepo
unfolding read_json_file
open_repo file = record { clients = read_json_file file; clients_file = file }

-- What a write raises goes on to the caller; the state is what it leaves behind.
unfoldable pub write_to_file : Write → ClientRepo → ClientRepo
unfolding write_json_file
write_to_file w r = record r { clients_file = write_json_file w r.clients r.clients_file }

unfoldable pub add_client : Write → String → String → ClientRepo → ClientRepo
unfolding write_to_file
add_client w name ip r =
    let client : Client = record { ip = ip; client_name = name } in
    write_to_file w (record r { clients = insert name client r.clients })

unfoldable pub remove_client : Write → String → ClientRepo → ClientRepo
unfolding write_to_file
remove_client w name r =
    let removed = write_to_file w (record r { clients = remove name r.clients }) in
    if contains name r.clients then removed else r

unfoldable pub get_client : String → ClientRepo → Option Client
get_client name r = lookup name r.clients
