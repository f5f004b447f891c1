-- ===== src/Provision.antt =====
-- src/use_cases/docker_manager: the creation and the deletion of runtime containers. This file has
-- the agent's state that they share, and what Docker and netmon answer (`World`); the children have
-- the checks, the networks and endpoints, and the operations.
use orchestrator_agent.Prelude.{
  ℕ, String, Bool, true, false, Option, none, some, List, [], ◌∷◌, ◌++◌,
}
use orchestrator_agent.Prelude.Dict.{Dict}
use orchestrator_agent.Networks.{Interface}
use orchestrator_agent.Operations.{OperationsStateTracker}
use orchestrator_agent.SerialPorts.{File, Write, Ports}
use orchestrator_agent.Stores.{ClientRepo, RawNic}
use orchestrator_agent.Usage.{DevicesUsageBuffer}
use orchestrator_agent.Vnics.{VnicConfig}
pub mod Checks
pub mod Endpoints
pub mod Create
pub mod Finish
pub mod Delete
pub mod CheckLaws
pub mod CreateLaws
pub mod DeleteLaws
pub mod Status
pub mod Visible

pub record Agent : Type 0 where
  pub operations : OperationsStateTracker
  pub client_repo : ClientRepo
  pub usage : DevicesUsageBuffer
  pub vnic_file : File (Dict (List VnicConfig))
  pub serial_file : File (Dict Ports)
  pub nic_file : File (Dict RawNic)

-- A result or the text of an exception.
pub data Try (A : Type 0) : Type 0 where
  done : A → Try A
  raised : String → Try A

-- What becomes of an image's pull, and of the lookup of a local image.
pub data Pull : Type 0 where
  pulled not_in_registry : Pull
  pull_raises : String → Pull

pub data Image : Type 0 where
  image_found no_image : Image
  image_raises : String → Image

-- Connecting a container to a network: done, Docker's APIError, or another exception.
pub data Connected : Type 0 where
  connected : Connected
  api_error connect_raises : String → Connected

-- Of a container that has been started: the address and the MAC in each network, and its process.
pub record NetInfo : Type 0 where
  pub net_ip : String
  pub net_mac : String

pub record Started : Type 0 where
  pub settings : Dict NetInfo
  pub started_pid : ℕ

-- Stopping and removing a container: done, not there, or another exception.
pub data Removed : Type 0 where
  removed absent : Removed
  remove_raises : String → Removed

-- An answer of netmon: whether it says success, or an exception.
pub data Answer : Type 0 where
  says : Bool → Answer
  answer_raises : String → Answer

pub record Endpoint : Type 0 where
  pub endpoint_network : String
  pub endpoint_ip : Option String
  pub endpoint_mac : String

-- Docker and netmon. `polls` are the subnets that the cache gives for an interface while
-- `detect_interface_network` waits; `octets_for` are the random numbers for a MAC address, for the
-- vNIC at a position.
pub record World : Type 0 where
  pub interfaces : Dict Interface
  pub polls : Option String → List (Option String)
  pub existing_macs : Option String → Dict String
  pub pull_image : String → Pull
  pub get_image : String → Image
  pub create_internal_network : String → Try String
  pub macvlan_network : Option String → Option String → Option String → Try String
  pub api_version : Try String
  pub octets_for : ℕ → List ℕ
  pub create_container : String → Try Unit
  pub connect_network : Endpoint → Connected
  pub force_remove : Try Unit
  pub start_container : Try Unit
  pub reload : Try Started
  pub stop_and_remove : String → Removed
  pub get_running_pid : String → Try (Option ℕ)
  pub start_dhcp : Option String → Option String → ℕ → Answer
  pub request_wifi_dhcp : Option String → Option String → ℕ → Answer
  pub setup_proxy_arp : Option String → String → String → String → Answer
  pub move_nic : String → ℕ → Answer

-- The calls of Docker that change containers.
pub data DockerCall : Type 0 where
  create_call remove_call start_call : String → DockerCall
