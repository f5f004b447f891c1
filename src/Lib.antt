-- ===== src/Lib.antt =====
-- A verification of the orchestrator agent: the Python service that runs on a device, talks to the
-- cloud over a WebSocket and to browsers over WebRTC, and manages runtime containers.
--
-- The parts and where they are modelled (paths from the repository's root):
--
-- - Prelude: shared names, lists over native numbers, `dict` as an association list in insertion
--   order (Prelude/Dict), sweeping stale keys (Prelude/Sweep), JSON values (Prelude/Value), the
--   text of an `int` (Prelude/Decimal).
-- - Chunking: src/tools/chunking.py. `split_into_chunks` with its parts; `ChunkReassembler` is a
--   record of transfers, `handle_chunk_message` its dispatch over `start`, `receive`, `finish`.
-- - Protocol: src/tools/debug_protocol.py. `bytes_to_hex`, `hex_to_bytes`, the `build_*` and the
--   `parse_*` functions; a text is its list of code points, a result dict a record of options.
-- - Operations: src/tools/operations_state.py. One function for each method of the tracker, and
--   `begin_operation`.
-- - Usage: src/tools/usage_buffer.py and src/tools/devices_usage_buffer.py.
-- - Sessions: src/controllers/webrtc_controller/session_manager.py and types.py. A method gives the
--   calls that it makes on handlers, peer connections and the callback, in order (`Effect`). The
--   methods that change one found session are `update`, with the change as data; `create_session` is
--   `take_existing` and then `put_new`, as it releases its lock between them.
-- - DebugCommand: src/use_cases/debug_client/run_debug_command.py and the method `_execute_command`.
-- - DebugSessions: src/controllers/websocket_controller/debug_session_manager.py, the debug sessions
--   of the HTTP path, over DebugCommand; `World` is what the manager calls.
-- - SerialPorts: src/repos/serial_repo.py over src/tools/json_file.py, with `matches_device_id` of
--   src/tools/utils.py.
-- - Stores: src/repos/client_repo.py, src/repos/vnic_repo.py, src/repos/dedicated_nic_repo.py and
--   src/entities/dedicated_nic_config.py, over the same JSON files.
-- - DebugChannel: src/controllers/webrtc_controller/data_channel/debug_channel_handler.py. Each
--   `await` ends a step, so that `steps` runs through any interleaving of the channel's tasks.
-- - DataChannel: src/controllers/webrtc_controller/data_channel/data_channel_handler.py over
--   Chunking, in the same way; what `execute_for_device` gives is a step's argument.
-- - Connection: src/tools/connection_state.py.
-- - Vnics: the fields of a virtual NIC's configuration (src/entities/vnic_config.py and what the use
--   cases add to it).
-- - Networks: src/tools/network_utils.py and src/repos/network_interface_cache_repo.py.
-- - Dhcp: src/use_cases/dhcp_manager.py. The retry loop and its back-off (Dhcp), the resync
--   (Dhcp/Resync) and the lease updates (Dhcp/Updates).
-- - Provision: src/use_cases/docker_manager/create_runtime_container.py and
--   delete_runtime_container.py, over Operations, Stores, SerialPorts, Usage and Networks: the
--   checks (Provision/Checks), MAC addresses, endpoints and the container (Provision/Endpoints), the
--   creation (Provision/Create), the steps after it (Provision/Finish), the deletion
--   (Provision/Delete), the status of a device (Provision/Status, of get_device_status.py). `Agent` is
--   the state that they share.
-- - SerialDevices: src/use_cases/serial_device_manager.py over SerialPorts.
-- - Lifecycle: src/use_cases/container_lifecycle_manager.py over Stores and Operations. A call of
--   `_handle_container_exit` is given what it meets (`Exit`); what is asked of Docker is given back.
-- - SelfDestruct: src/use_cases/docker_manager/selfdestruct.py and the helpers of
--   src/use_cases/docker_manager/__init__.py, over the `Agent` of Provision: the parts
--   (SelfDestruct/Cleanup), and their order with what they raise (SelfDestruct/Run).
-- - Contracts: src/tools/contract_validation.py, the contracts of the topics and `validate_message`
--   (Contracts/Topics). What a contract describes is said without the code's tests: the values
--   (Contracts/Conforms), the basic types (Contracts/Leaves), the keys (Contracts/Keys).
-- - Netmon: src/repos/netmon_client_repo.py, the commands to the network monitor and their answers.
-- - Listener: src/tools/network_event_listener.py, the routing of events, the debounce, and
--   its reading loop with the client of Netmon (Listener/Loop).
-- - Reconnection: src/use_cases/network_reconnection.py, the containers after a change of the host's
--   network, over Vnics and Stores.
-- - Tests: the theorems at concrete inputs, and runs of the models.
--
-- Conventions. A method returns its result beside the new state. A method that takes a lock for its
-- whole body is one step, so an interleaving of threads is a list of calls. An exception is a value.
-- The clock is an argument. Logging is left out. No model takes fuel but the decimal printer
-- and the count of one bits, whose fuel is the number itself (it has no more digits than its value).
-- The DHCP retry loop is given the list of what its rounds meet, and says when that list was too
-- short.
--
-- Parameters: the JSON encoder and decoder of the chunk protocol; `int(x)` of a float; the client
-- registry, the login, and the sockets of the debug sessions; Docker, the network monitor and the
-- ipaddress module (the `World` records); `datetime.fromisoformat`; random numbers; what becomes of a
-- write to a file. Ids in chunk messages are texts; the `indexes` of a debug command are an array;
-- objects of other code (peer connections, channels, sockets, tasks) are numbers. The network monitor
-- answers the commands of its socket in order (Netmon).
--
-- Not modelled: the manager of dedicated NICs, the signaling, the HTTP client and the commands to the
-- runtimes, the limits of a container as text, the registration of topics and the background tasks,
-- and the code that only reads the operating system; install/autonomy-netmon.py, which is a process of
-- its own.
pub mod Prelude
pub mod Chunking
pub mod Protocol
pub mod Operations
pub mod Usage
pub mod Sessions
pub mod DebugCommand
pub mod DebugSessions
pub mod DebugChannel
pub mod DataChannel
pub mod SerialPorts
pub mod Connection
pub mod Stores
pub mod Vnics
pub mod Networks
pub mod Provision
pub mod SerialDevices
pub mod Dhcp
pub mod Lifecycle
pub mod SelfDestruct
pub mod Contracts
pub mod Netmon
pub mod Listener
pub mod Reconnection
mod Tests
