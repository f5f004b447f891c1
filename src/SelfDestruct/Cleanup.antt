-- ===== src/SelfDestruct/Cleanup.antt =====
-- The parts of src/use_cases/docker_manager/selfdestruct.py: NICs, runtime containers and networks.
-- Names of networks are ASCII, as Docker's are.
use orchestrator_agent.Prelude.{
  ℕ, zero, suc, ◌+◌, String, Bool, true, false, ◌||◌, Option, none, some, List, [], ◌∷◌, ◌++◌,
  if◌then◌else◌, ◌==◌,
}
use orchestrator_agent.Prelude.Dict.{Dict, keys, contains}
use orchestrator_agent.Prelude.Texts.{codes, within, is_digit}
use orchestrator_agent.SerialPorts.{Write, written, not_opened, cut_short, read_json_file}
use orchestrator_agent.Stores.{
  RawNic, DedicatedNicConfig, from_dict, delete_config, delete_vnics, remove_client,
}
use orchestrator_agent.Usage.{remove_device}
use orchestrator_agent.Provision.{Agent, Try, done, raised}
use orchestrator_agent.Provision.Create.{Env}
use orchestrator_agent.SelfDestruct.{
  Reply, ok, not_found, raises, Network, World, Act, return_nic, remove_network,
  stop_and_remove_container, remove_internal_network, get_self_container,
}

-- What a step leaves: what it asked for, the text of an exception, and the agent's state.
pub record Ran : Type 0 where
  pub acts : List Act
  pub exception : Option String
  pub agent : Agent

abbrev pub after : Option String → Ran → Ran → Ran
after (some m) one two = one
after none one two = record two { acts = one.acts ++ two.acts }

-- One statement after another: the second is not reached where the first raises.
unfoldable pub then_do : (Agent → Ran) → (Agent → Ran) → Agent → Ran
then_do first second a = let one = first a in after one.exception one (second one.agent)

abbrev with_config :
    String
    → Option DedicatedNicConfig
    → Option (Dict DedicatedNicConfig)
    → Option (Dict DedicatedNicConfig)
with_config name (some c) (some rest) = some ((name, c) ∷ rest)
with_config name (some c) none = none
with_config name none rest = none

unfoldable pub all_from_dict : Dict RawNic → Option (Dict DedicatedNicConfig)
unfolding from_dict
all_from_dict [] = some []
all_from_dict ((name, raw) ∷ raws) = with_config name (from_dict raw) (all_from_dict raws)

abbrev pub or_no_configs : Option (Dict DedicatedNicConfig) → Dict DedicatedNicConfig
or_no_configs none = []
or_no_configs (some configs) = configs

-- `load_all_configs` of src/repos/dedicated_nic_repo.py: one entry that is no configuration, and there
-- are none.
unfoldable pub load_all_configs : Dict RawNic → Dict DedicatedNicConfig
unfolding all_from_dict
load_all_configs raws = or_no_configs (all_from_dict raws)

abbrev pub asked_return : String → Try (Option ℕ) → List Act
asked_return nic (raised m) = []
asked_return nic (done none) = []
asked_return nic (done (some pid)) = if pid == 0 then [] else return_nic nic pid ∷ []

unfoldable pub return_each : World → Env → Dict DedicatedNicConfig → Agent → Ran
unfolding delete_config
return_each w e [] a = record { acts = []; exception = none; agent = a }
return_each w e ((name, c) ∷ configs) a =
    let rest =
      return_each w e configs (record a { nic_file = delete_config e.nic_write name a.nic_file }) in
    record rest { acts = asked_return c.host_interface (w.running_pid name) ++ rest.acts }

-- `_return_all_dedicated_nics`
unfoldable pub return_all_dedicated_nics : World → Env → Agent → Ran
unfolding return_each load_all_configs read_json_file
return_all_dedicated_nics w e a = return_each w e (load_all_configs (read_json_file a.nic_file)) a

unfoldable pub forgotten : World → Env → String → Agent → Ran
unfolding remove_internal_network get_self_container remove_device delete_vnics
forgotten w e name a = record {
  acts = remove_internal_network true (get_self_container w) name (w.internal_network name);
  exception = none;
  agent = record a {
    usage = remove_device name a.usage;
    vnic_file = delete_vnics e.vnic_write name a.vnic_file;
  };
}

unfoldable pub removed_container : World → String → Agent → Ran
unfolding stop_and_remove_container
removed_container w name a =
    let did = stop_and_remove_container name (w.containers name) in
    record { acts = did.0; exception = did.1; agent = a }

-- `_delete_runtime_container_for_selfdestruct`
unfoldable pub delete_runtime_container_for_selfdestruct : World → Env → String → Agent → Ran
unfolding then_do removed_container forgotten
delete_runtime_container_for_selfdestruct w e name =
    then_do (removed_container w name) (forgotten w e name)

abbrev write_exception : World → Write → Option String
write_exception w written = none
write_exception w not_opened = some w.write_raises
write_exception w cut_short = some w.write_raises

-- `remove_client`, with what its write raises.
unfoldable pub unregistered : World → Env → String → Agent → Ran
unfolding remove_client
unregistered w e name a = record {
  acts = [];
  exception =
      if contains name a.client_repo.clients then write_exception w e.client_write else none;
  agent = record a { client_repo = remove_client e.client_write name a.client_repo };
}

unfoldable pub delete_each : World → Env → List String → Agent → Ran
unfolding then_do delete_runtime_container_for_selfdestruct unregistered
delete_each w e [] a = record { acts = []; exception = none; agent = a }
delete_each w e (name ∷ names) a =
    let one =
      then_do (delete_runtime_container_for_selfdestruct w e name) (unregistered w e name) a in
    after one.exception one (delete_each w e names one.agent)

-- `_delete_all_runtime_containers`
unfoldable pub delete_all_runtime_containers : World → Env → Agent → Ran
unfolding delete_each
delete_all_runtime_containers w e a = delete_each w e (keys a.client_repo.clients) a

-- A piece of a pattern gives what follows its match.
abbrev Piece : Type 0
Piece = List ℕ → Option (List ℕ)

abbrev then_match : Option (List ℕ) → Piece → Option (List ℕ)
then_match none p = none
then_match (some s) p = p s

unfoldable literal : List ℕ → Piece
literal [] s = some s
literal (c ∷ cs) [] = none
literal (c ∷ cs) (d ∷ s) = let rest = literal cs s in if c == d then rest else none

unfoldable exactly : ℕ → (ℕ → Bool) → Piece
exactly zero test s = some s
exactly (suc n) test [] = none
exactly (suc n) test (c ∷ s) = let rest = exactly n test s in if test c then rest else none

unfoldable many : (ℕ → Bool) → List ℕ → List ℕ
many test [] = []
many test (c ∷ s) = let rest = many test s in if test c then rest else c ∷ s

unfoldable at_least_one : (ℕ → Bool) → Piece
unfolding exactly many
at_least_one test s = elim (exactly 1 test s) [ none ↦ none | some rest ↦ some (many test rest) ]

unfoldable matches : List Piece → List ℕ → Bool
matches [] [] = true
matches [] (c ∷ s) = false
matches (p ∷ ps) s = elim (p s) [ none ↦ false | some rest ↦ matches ps rest ]

abbrev is_hex : ℕ → Bool
is_hex c = is_digit c || (within b'a' b'f' c || within b'A' b'F' c)

abbrev is_alphanumeric : ℕ → Bool
is_alphanumeric c = is_digit c || (within b'a' b'z' c || within b'A' b'Z' c)

abbrev is_letter_of : ℕ → ℕ → Bool
is_letter_of lower c = (c == lower) || (c + 32 == lower)

unfoldable letters : List ℕ → Piece
letters [] s = some s
letters (c ∷ cs) [] = none
letters (c ∷ cs) (d ∷ s) = let rest = letters cs s in if is_letter_of c d then rest else none

-- `INTERNAL_NETWORK_PATTERN`, in either case.
unfoldable pub is_internal : String → Bool
unfolding matches exactly literal letters
is_internal name =
    matches
      (exactly 8 is_hex
        ∷ literal (codes "-")
        ∷ exactly 4 is_hex
        ∷ literal (codes "-")
        ∷ exactly 4 is_hex
        ∷ literal (codes "-")
        ∷ exactly 4 is_hex
        ∷ literal (codes "-")
        ∷ exactly 12 is_hex
        ∷ literal (codes "_")
        ∷ letters (codes "internal")
        ∷ [])
      (codes name)

-- `MACVLAN_NETWORK_PATTERN`
unfoldable pub is_macvlan : String → Bool
unfolding matches at_least_one literal
is_macvlan name =
    matches
      (literal (codes "macvlan_")
        ∷ at_least_one is_alphanumeric
        ∷ literal (codes "_")
        ∷ at_least_one is_digit
        ∷ literal (codes ".")
        ∷ at_least_one is_digit
        ∷ literal (codes ".")
        ∷ at_least_one is_digit
        ∷ literal (codes ".")
        ∷ at_least_one is_digit
        ∷ literal (codes "_")
        ∷ at_least_one is_digit
        ∷ [])
      (codes name)

abbrev pub reloaded_cleanup : String → Reply → List String → List Act
reloaded_cleanup name ok [] = remove_network name ∷ []
reloaded_cleanup name ok (_ ∷ _) = []
reloaded_cleanup name (not_found m) connected = []
reloaded_cleanup name (raises m) connected = []

unfoldable pub cleanup_each : List Network → List Act
unfolding is_internal is_macvlan
cleanup_each [] = []
cleanup_each (n ∷ ns) =
    let rest = cleanup_each ns in
    if is_internal n.network_name || is_macvlan n.network_name
    then reloaded_cleanup n.network_name n.network_reload n.connected ++ rest
    else rest

abbrev pub cleanup_listed : Try (List Network) → List Act
cleanup_listed (raised m) = []
cleanup_listed (done ns) = cleanup_each ns

-- `_cleanup_orchestrator_networks`, which raises nothing.
unfoldable pub cleanup_orchestrator_networks : World → Agent → Ran
unfolding cleanup_each
cleanup_orchestrator_networks w a = record {
  acts = cleanup_listed w.list_networks;
  exception = none;
  agent = a;
}
