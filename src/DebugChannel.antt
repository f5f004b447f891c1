-- ===== src/DebugChannel.antt =====
-- src/controllers/webrtc_controller/data_channel/debug_channel_handler.py: the debug channel of a
-- WebRTC session. Every `await` ends a step: what another task may do in between is another step.
-- A socket is named by a number. A command that finds the lock of the commands taken waits in
-- `waiting`; whoever waits first is the next to have it.
pub mod Counts
pub mod Sockets
pub mod Closed
use orchestrator_agent.Prelude.{
  ℕ, String, Bool, true, false, not, ◌&&◌, Option, none, some, List, [], ◌∷◌, ◌++◌, if◌then◌else◌,
  str_eq,
}
use orchestrator_agent.DebugCommand.{
  CommandType, DebugMessage, Sent, no_session, unknown_type, device_not_found, no_token,
  auth_failed, CommandError, exception, or_default, Reply, debug_error, debug_connected,
  debug_disconnected, execute_command,
}
use orchestrator_agent.DebugSessions.{
  SocketCall, connect, disconnect, Login, rejected, accepted, login_raises, Message, Route,
  start_route, stop_route, command_route, unknown_route, route,
}

pub record DebugChannelHandler : Type 0 where
  pub closed : Bool
  pub connected : Bool
  pub debug_socket : Option ℕ
  pub locked : Bool
  pub waiting : List (CommandType × DebugMessage)

unfoldable pub init : DebugChannelHandler
init = record {
  closed = false;
  connected = false;
  debug_socket = none;
  locked = false;
  waiting = [];
}

-- What a step does to the outside: a text sent to the browser, a call of a socket, of the session
-- manager, of the HTTP client (address, port, user, password), of `run_debug_command` or of the
-- channel.
pub data Effect : Type 0 where
  send_ready touch_session close_channel : Effect
  send_invalid_json : String → Effect
  send : Reply → Effect
  socket : SocketCall → Effect
  request_login : String → ℕ → String → String → Effect
  run : CommandType → DebugMessage → ℕ → Effect

abbrev pub Stepped : Type 0
Stepped = List Effect × DebugChannelHandler

-- `_send_message`, for each effect that is a text: nothing once the handler is closed. `is_open` is
-- that the channel's state is "open" and its `send` does not raise.
unfoldable pub send_message : Bool → Effect → DebugChannelHandler → List Effect
send_message is_open text h = if not h.closed && is_open then text ∷ [] else []

unfoldable pub disconnect_held : Option ℕ → List Effect
disconnect_held none = []
disconnect_held (some s) = socket (disconnect s) ∷ []

-- What `disconnect` raises is swallowed.
unfoldable pub disconnect_debug_socket : DebugChannelHandler → Stepped
unfolding disconnect_held
disconnect_debug_socket h =
    (disconnect_held h.debug_socket, record h { connected = false; debug_socket = none })

unfoldable pub close : DebugChannelHandler → Stepped
unfolding disconnect_debug_socket
close h =
    let done = disconnect_debug_socket (record h { closed = true }) in
    if h.closed then ([], h) else (done.0 ++ close_channel ∷ [], done.1)

-- `_handle_start` up to its first `await`; `ip` is the registry's answer.
unfoldable pub ask_login : Bool → Message → Option String → DebugChannelHandler → Stepped
unfolding send_message
ask_login is_open msg none h = (send_message is_open (send (debug_error device_not_found)) h, h)
ask_login is_open msg (some ip) h = (
  request_login ip (or_default 8443 msg.port) (or_default "dev" msg.username)
        (or_default "dev" msg.password)
      ∷ [],
  h,
)

abbrev pub dropped_if : Bool → DebugChannelHandler → Stepped
dropped_if false h = ([], h)
dropped_if true h = disconnect_debug_socket h

unfoldable pub handle_start : Bool → Message → Option String → DebugChannelHandler → Stepped
unfolding ask_login disconnect_debug_socket
handle_start is_open msg ip h =
    let dropped = dropped_if h.connected h in
    let rest = ask_login is_open msg ip dropped.1 in (dropped.0 ++ rest.0, rest.1)

-- `_handle_start` from the login's answer up to the second `await`, with the socket of the factory.
unfoldable pub logged_in : Bool → ℕ → Login → DebugChannelHandler → Stepped
unfolding send_message
logged_in is_open s (login_raises e) h =
    (send_message is_open (send (debug_error (exception e))) h, h)
logged_in is_open s (rejected code) h =
    (send_message is_open (send (debug_error (auth_failed code))) h, h)
logged_in is_open s (accepted none) h = (send_message is_open (send (debug_error no_token)) h, h)
logged_in is_open s (accepted (some token)) h =
    if str_eq token ""
    then (send_message is_open (send (debug_error no_token)) h, h)
    else (socket (connect s) ∷ [], h)

-- `_handle_start` from the end of `connect` on: what it raised, if it did.
unfoldable pub connect_ended : Bool → ℕ → Option String → DebugChannelHandler → Stepped
unfolding send_message
connect_ended is_open s (some e) h = (send_message is_open (send (debug_error (exception e))) h, h)
connect_ended is_open s none h = (
  send_message is_open (send debug_connected) h,
  record h { connected = true; debug_socket = some s },
)

-- The inner handler up to its `await`, during which the lock is held; else it is given back at once.
unfoldable pub command_on :
    Bool → CommandType → DebugMessage → Option ℕ → DebugChannelHandler → Stepped
unfolding send_message
command_on is_open c msg none h = (send_message is_open (send (debug_error no_session)) h, h)
command_on is_open c msg (some s) h =
    if h.connected
    then (run c msg s ∷ [], record h { locked = true })
    else (send_message is_open (send (debug_error no_session)) h, h)

-- `_handle_command_inner` up to its `await`.
unfoldable pub handle_command_inner :
    Bool → CommandType → DebugMessage → DebugChannelHandler → Stepped
unfolding command_on
handle_command_inner is_open c msg h = command_on is_open c msg h.debug_socket h

abbrev pub none_waiting : List (CommandType × DebugMessage) → Bool
none_waiting [] = true
none_waiting (_ ∷ _) = false

-- `_handle_command`: the lock is had at once if it is free and nobody waits for it.
unfoldable pub handle_command : Bool → CommandType → DebugMessage → DebugChannelHandler → Stepped
unfolding handle_command_inner
handle_command is_open c msg h =
    let queued : Stepped = ([], record h { waiting = h.waiting ++ (c, msg) ∷ [] }) in
    let now = handle_command_inner is_open c msg h in
    if not h.locked && none_waiting h.waiting then now else queued

-- The first that waits has the lock and goes on.
abbrev pub resumed : Bool → List (CommandType × DebugMessage) → DebugChannelHandler → Stepped
resumed is_open [] h = ([], h)
resumed is_open ((c, msg) ∷ l) h = handle_command_inner is_open c msg (record h { waiting = l })

unfoldable pub resume : Bool → DebugChannelHandler → Stepped
unfolding handle_command_inner
resume is_open h = if h.locked then ([], h) else resumed is_open h.waiting h

unfoldable pub handle_stop : Bool → DebugChannelHandler → Stepped
unfolding disconnect_debug_socket send_message
handle_stop is_open h =
    let dropped = disconnect_debug_socket h in
    (dropped.0 ++ send_message is_open (send debug_disconnected) dropped.1, dropped.1)

unfoldable pub handle_routed :
    Bool → Message → Option String → Route → DebugChannelHandler → Stepped
unfolding handle_start handle_stop handle_command send_message
handle_routed is_open msg ip start_route h = handle_start is_open msg ip h
handle_routed is_open msg ip stop_route h = handle_stop is_open h
handle_routed is_open msg ip (command_route c) h = handle_command is_open c msg.command h
handle_routed is_open msg ip (unknown_route t) h =
    (send_message is_open (send (debug_error (unknown_type t))) h, h)

-- What `json.loads` makes of a message: an object, no JSON, or a value that has no `get` (or bytes
-- that are no UTF-8), with what is raised.
pub data Parsed : Type 0 where
  object : Message → Parsed
  no_json no_object : String → Parsed

unfoldable pub handle_parsed : Bool → Parsed → Option String → DebugChannelHandler → Stepped
unfolding handle_routed send_message route
handle_parsed is_open (no_json e) ip h = (send_message is_open (send_invalid_json e) h, h)
handle_parsed is_open (no_object e) ip h =
    (send_message is_open (send (debug_error (exception e))) h, h)
handle_parsed is_open (object msg) ip h =
    let rest = handle_routed is_open msg ip (route msg.type_name) h in
    (touch_session ∷ rest.0, rest.1)

unfoldable pub handle_message : Bool → Parsed → Option String → DebugChannelHandler → Stepped
unfolding handle_parsed
handle_message is_open p ip h = if h.closed then ([], h) else handle_parsed is_open p ip h

-- The steps: the channel's events, `close` from outside, and a task that goes on after an `await`.
pub data Step : Type 0 where
  opened closing : Step
  message : Parsed → Option String → Step
  login_answered : ℕ → Login → Step
  connect_answered : ℕ → Option String → Step
  command_answered : CommandType → DebugMessage → (List ℕ → Sent) → Step
  lock_had : Step

unfoldable pub step : Bool → Step → DebugChannelHandler → Stepped
unfolding send_message close handle_message logged_in connect_ended execute_command resume
step is_open opened h = (send_message is_open send_ready h, h)
step is_open closing h = close h
step is_open (message p ip) h = handle_message is_open p ip h
step is_open (login_answered s login) h = logged_in is_open s login h
step is_open (connect_answered s e) h = connect_ended is_open s e h
step is_open (command_answered c msg runtime) h =
    (send_message is_open (send (execute_command c msg runtime)) h, record h { locked = false })
step is_open lock_had h = resume is_open h

unfoldable pub steps : List (Bool × Step) → DebugChannelHandler → Stepped
unfolding step
steps [] h = ([], h)
steps ((is_open, s) ∷ ss) h =
    let one = step is_open s h in let rest = steps ss one.1 in (one.0 ++ rest.0, rest.1)
