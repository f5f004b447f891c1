-- ===== src/SelfDestruct.antt =====
-- src/use_cases/docker_manager/selfdestruct.py: the removal of all that the agent manages, and of the
-- agent's own container. This file has what Docker answers (`World`), what is asked of Docker and
-- netmon (`Act`), and the helpers of src/use_cases/docker_manager/__init__.py.
pub mod Cleanup
pub mod Run
pub mod Again
pub mod Quiet
pub mod Order
use orchestrator_agent.Prelude.{
  ℕ, String, Bool, true, false, Option, none, some, List, [], ◌∷◌, ◌++◌, map, any, if◌then◌else◌,
  str_eq,
}
use orchestrator_agent.Prelude.Texts.{append}
use orchestrator_agent.Provision.{Try, done, raised}

-- What an object of Docker answers: done, its NotFoundError, or another exception, with their texts.
pub data Reply : Type 0 where
  ok : Reply
  not_found raises : String → Reply

-- Getting a container, stopping it and removing it.
pub record Handle : Type 0 where
  pub get : Reply
  pub stop : Reply
  pub remove : Reply

-- A network, and who is connected to it after a reload. What its removal raises is caught.
pub record Network : Type 0 where
  pub network_name : String
  pub network_reload : Reply
  pub connected : List String

-- A look for the agent's own container, which gives its name.
pub data Found : Type 0 where
  found : String → Found
  nowhere : Found
  get_raises : String → Found

pub record World : Type 0 where
  pub running_pid : String → Try (Option ℕ)
  pub containers : String → Handle
  pub internal_network : String → Option Network
  pub list_networks : Try (List Network)
  pub get_volume : Reply
  pub hostname_variable : Option String
  pub get_hostname : Try String
  pub host_name : String
  pub get_self : String → Found
  pub labelled : Try (List String)
  pub remove_self : Reply
  pub write_raises : String

-- A removal of a container is given with whether it succeeded.
pub data Act : Type 0 where
  return_nic : String → ℕ → Act
  stop_container : String → Act
  remove_container : String → Bool → Act
  disconnect : String → String → Act
  remove_network : String → Act
  cleanup_all_proxy_arp remove_volume : Act
  remove_own : String → Act

-- What was asked for, and the text of an exception.
abbrev pub Did : Type 0
Did = List Act × Option String

abbrev asked_remove : String → Reply → Did
asked_remove name ok = (remove_container name true ∷ [], none)
asked_remove name (not_found m) = (remove_container name false ∷ [], none)
asked_remove name (raises m) = (remove_container name false ∷ [], some m)

abbrev asked_stop : String → Reply → Reply → Did
asked_stop name ok then_remove =
    (stop_container name ∷ (asked_remove name then_remove).0, (asked_remove name then_remove).1)
asked_stop name (not_found m) then_remove = (stop_container name ∷ [], none)
asked_stop name (raises m) then_remove = (stop_container name ∷ [], some m)

abbrev asked_get : String → Reply → Reply → Reply → Did
asked_get name ok stop remove = asked_stop name stop remove
asked_get name (not_found m) stop remove = ([], none)
asked_get name (raises m) stop remove = ([], some m)

-- `stop_and_remove_container`, and `_delete_netmon_container`, which does the same.
unfoldable pub stop_and_remove_container : String → Handle → Did
stop_and_remove_container name h = asked_get name h.get h.stop h.remove

abbrev is_name : String → String → Bool
is_name name other = str_eq other name

-- Only the agent's own container is disconnected, if it was found and is connected.
abbrev own_disconnected : String → Found → List String → List Act
own_disconnected network (found own) connected =
    if any (is_name own) connected then disconnect network own ∷ [] else []
own_disconnected network nowhere connected = []
own_disconnected network (get_raises m) connected = []

unfoldable pub disconnected : Bool → Found → String → List String → List Act
disconnected disconnect_all own network connected =
    if disconnect_all
    then map (disconnect network) connected
    else own_disconnected network own connected

abbrev pub removed_network : Bool → Found → String → Reply → List String → List Act
removed_network disconnect_all own network ok connected =
    disconnected disconnect_all own network connected ++ remove_network network ∷ []
removed_network disconnect_all own network (not_found m) connected = []
removed_network disconnect_all own network (raises m) connected = []

-- `remove_internal_network`. Whatever it meets is caught; `none` is a network that cannot be had.
unfoldable pub remove_internal_network : Bool → Found → String → Option Network → List Act
unfolding disconnected
remove_internal_network disconnect_all own container none = []
remove_internal_network disconnect_all own container (some n) =
    removed_network disconnect_all own (append container "_internal") n.network_reload n.connected

abbrev first_labelled : Try (List String) → Found
first_labelled (raised m) = nowhere
first_labelled (done []) = nowhere
first_labelled (done (name ∷ _)) = found name

-- The next method follows where a container is not found; another exception is passed on.
abbrev or_next : Found → Found → Found
or_next (found name) next = found name
or_next nowhere next = next
or_next (get_raises m) next = get_raises m

-- The same, with every exception caught.
abbrev or_next_caught : Found → Found → Found
or_next_caught (found name) next = found name
or_next_caught nowhere next = next
or_next_caught (get_raises m) next = next

abbrev by_host_name : World → Found
by_host_name w =
    if str_eq w.host_name ""
    then first_labelled w.labelled
    else or_next (w.get_self w.host_name) (first_labelled w.labelled)

abbrev by_socket : World → Try String → Found
by_socket w (raised m) = by_host_name w
by_socket w (done hostname) = or_next_caught (w.get_self hostname) (by_host_name w)

abbrev by_variable : World → Option String → Found
by_variable w none = by_socket w w.get_hostname
by_variable w (some id) =
    if str_eq id ""
    then by_socket w w.get_hostname
    else or_next (w.get_self id) (by_socket w w.get_hostname)

unfoldable pub get_self_container : World → Found
get_self_container w = by_variable w w.hostname_variable
