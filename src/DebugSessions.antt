-- ===== src/DebugSessions.antt =====
-- src/controllers/websocket_controller/debug_session_manager.py: the debug sessions of the HTTP
-- path. A socket is named by a number; what `connect` and `disconnect` are called on is given back
-- beside the reply. Times are in microseconds. The lock that keeps the commands of one session apart
-- is left out: a command is one call here. A start has no lock while it logs in and connects:
-- `start_around` says what other threads do meanwhile, and `handle_debug_message` is a message with
-- nothing in between.
pub mod Lifecycle
pub mod Start
use orchestrator_agent.Prelude.{
  ℕ, ◌-◌, ◌*◌, String, Bool, true, false, Option, none, some, List, [], ◌∷◌, ◌++◌, if◌then◌else◌,
  str_eq, ltb,
}
use orchestrator_agent.Prelude.Dict.{Dict, lookup, insert, remove, keys}
use orchestrator_agent.Prelude.Sweep.{keys_where}
use orchestrator_agent.DebugCommand.{
  CommandType, get_md5, get_list, set, info, DebugMessage, Sent, CommandError, no_session,
  unknown_type, device_not_found, no_token, auth_failed, exception, or_default, Reply, debug_error,
  debug_connected, debug_disconnected, execute_command,
}

pub record DebugSession : Type 0 where
  pub debug_socket : ℕ
  pub connected : Bool
  pub last_activity : ℕ

pub record DebugSessionManager : Type 0 where
  pub sessions : Dict DebugSession
  pub cleanup_task : Bool

pub data SocketCall : Type 0 where
  connect disconnect : ℕ → SocketCall

-- What the login request comes to: an answer without `ok` with its status code, an answer with the
-- body's `access_token` if the body is a dict with one, or an exception.
pub data Login : Type 0 where
  rejected : Option ℕ → Login
  accepted : Option String → Login
  login_raises : String → Login

-- What the manager calls: the client registry (the address of a device), the HTTP client's login
-- (address, port, user, password), the socket's `connect` (socket, address, port, token; a raised
-- exception's text) and its `send_command`.
pub record World : Type 0 where
  pub get_client : String → Option String
  pub login : String → ℕ → String → String → Login
  pub connect_raises : ℕ → String → ℕ → String → Option String
  pub send_command : ℕ → List ℕ → Sent

pub record Message : Type 0 where
  pub type_name : String
  pub username : Option String
  pub password : Option String
  pub port : Option ℕ
  pub command : DebugMessage

unfoldable pub init : DebugSessionManager
init = record { sessions = []; cleanup_task = false }

unfoldable pub disconnect_found : Option DebugSession → List SocketCall
disconnect_found none = []
disconnect_found (some s) = disconnect s.debug_socket ∷ []

unfoldable pub disconnect_session :
    String → DebugSessionManager → List SocketCall × DebugSessionManager
unfolding disconnect_found
disconnect_session id m =
    (disconnect_found (lookup id m.sessions), record m { sessions = remove id m.sessions })

abbrev pub fresh : ℕ → ℕ → DebugSession
fresh now socket = record { debug_socket = socket; connected = true; last_activity = now }

abbrev pub Answered : Type 0
Answered = Reply × (List SocketCall × DebugSessionManager)

abbrev pub refused : CommandError → DebugSessionManager → Answered
refused e m = (debug_error e, ([], m))

-- `_handle_start` from `debug_socket.connect` on.
unfoldable pub connected_as : ℕ → ℕ → String → Option String → DebugSessionManager → Answered
connected_as now socket id (some message) m =
    (debug_error (exception message), (connect socket ∷ [], m))
connected_as now socket id none m = (
  debug_connected,
  (connect socket ∷ [], record m { sessions = insert id (fresh now socket) m.sessions }),
)

-- `_handle_start` from the login's answer on. An empty token counts as none.
unfoldable pub logged_in :
    World → ℕ → ℕ → String → String → ℕ → Login → DebugSessionManager → Answered
unfolding connected_as
logged_in w now socket id ip port (login_raises message) m = refused (exception message) m
logged_in w now socket id ip port (rejected code) m = refused (auth_failed code) m
logged_in w now socket id ip port (accepted none) m = refused no_token m
logged_in w now socket id ip port (accepted (some token)) m =
    if str_eq token ""
    then refused no_token m
    else connected_as now socket id (w.connect_raises socket ip port token) m

-- `_handle_start` from the registry's answer on.
unfoldable pub located :
    World → ℕ → ℕ → String → Message → Option String → DebugSessionManager → Answered
unfolding logged_in
located w now socket id msg none m = refused device_not_found m
located w now socket id msg (some ip) m =
    let port = or_default 8443 msg.port in
    let login = w.login ip port (or_default "dev" msg.username) (or_default "dev" msg.password) in
    logged_in w now socket id ip port login m

-- `_handle_start`; `others` is what other threads do to the sessions between the two times that it
-- holds the lock.
unfoldable pub start_around :
    (DebugSessionManager → DebugSessionManager)
    → World
    → ℕ
    → ℕ
    → String
    → Message
    → DebugSessionManager
    → Answered
unfolding disconnect_session located
start_around others w now socket id msg m =
    let dropped = disconnect_session id m in
    let rest = located w now socket id msg (w.get_client id) (others dropped.1) in
    (rest.0, (dropped.0 ++ rest.1.0, rest.1.1))

unfoldable pub handle_start : World → ℕ → ℕ → String → Message → DebugSessionManager → Answered
unfolding start_around
handle_start w now socket id msg m = start_around (λ before. before) w now socket id msg m

unfoldable pub command_on :
    World
    → ℕ
    → String
    → CommandType
    → DebugMessage
    → Option DebugSession
    → DebugSessionManager
    → Answered
command_on w now id c msg none m = refused no_session m
command_on w now id c msg (some s) m =
    if s.connected
    then (
      execute_command c msg (w.send_command s.debug_socket),
      ([], record m { sessions = insert id (record s { last_activity = now }) m.sessions }),
    )
    else refused no_session m

unfoldable pub handle_command :
    World → ℕ → String → CommandType → DebugMessage → DebugSessionManager → Answered
unfolding command_on
handle_command w now id c msg m = command_on w now id c msg (lookup id m.sessions) m

unfoldable pub handle_stop : String → DebugSessionManager → Answered
unfolding disconnect_session
handle_stop id m = (debug_disconnected, disconnect_session id m)

-- The message types: the routes of `handle_debug_message` and the `command_map`.
pub data Route : Type 0 where
  start_route stop_route : Route
  command_route : CommandType → Route
  unknown_route : String → Route

unfoldable pub route : String → Route
route t =
    if str_eq t "debug_start"
    then start_route
    else if str_eq t "debug_stop"
    then stop_route
    else if str_eq t "debug_get_md5"
    then command_route get_md5
    else if str_eq t "debug_get_list"
    then command_route get_list
    else if str_eq t "debug_set"
    then command_route set
    else if str_eq t "debug_info"
    then command_route info
    else unknown_route t

unfoldable pub handle_routed :
    World → ℕ → ℕ → String → Message → Route → DebugSessionManager → Answered
unfolding handle_start handle_command handle_stop
handle_routed w now socket id msg start_route m = handle_start w now socket id msg m
handle_routed w now socket id msg stop_route m = handle_stop id m
handle_routed w now socket id msg (command_route c) m = handle_command w now id c msg.command m
handle_routed w now socket id msg (unknown_route t) m = refused (unknown_type t) m

-- `socket` is the one that the socket factory makes if this message opens one.
unfoldable pub handle_debug_message :
    World → ℕ → ℕ → String → Message → DebugSessionManager → Answered
unfolding handle_routed route
handle_debug_message w now socket id msg m =
    handle_routed w now socket id msg (route msg.type_name) m

unfoldable pub disconnect_all :
    List String → DebugSessionManager → List SocketCall × DebugSessionManager
unfolding disconnect_session
disconnect_all [] m = ([], m)
disconnect_all (id ∷ ids) m =
    let one = disconnect_session id m in
    let rest = disconnect_all ids one.1 in (one.0 ++ rest.0, rest.1)

unfoldable pub is_idle : ℕ → DebugSession → Bool
is_idle now s = ltb (300 * 1000000) (now - s.last_activity)

-- One round of `_cleanup_loop`.
unfoldable pub cleanup_round : ℕ → DebugSessionManager → List SocketCall × DebugSessionManager
unfolding disconnect_all is_idle
cleanup_round now m = disconnect_all (keys_where (is_idle now) m.sessions) m

unfoldable pub start : DebugSessionManager → DebugSessionManager
start m = record m { cleanup_task = true }

unfoldable pub stop : DebugSessionManager → List SocketCall × DebugSessionManager
unfolding disconnect_all
stop m = let idle = record m { cleanup_task = false } in disconnect_all (keys idle.sessions) idle
