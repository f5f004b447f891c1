-- ===== src/Sessions.antt =====
-- src/controllers/webrtc_controller/session_manager.py and types.py: the WebRTC sessions. Peer
-- connections, channels, handlers and callbacks are objects of other code: a number names each. A
-- method gives back the calls that it makes on them, in order, beside its result and the new state;
-- what such a call raises is swallowed by the source. Times are in microseconds, as in `datetime`.
pub mod Accounts
pub mod Conservation
pub mod Closing
pub mod Activity
use orchestrator_agent.Prelude.{
  ℕ, ◌-◌, ◌*◌, String, Bool, true, false, Option, none, some, List, [], ◌∷◌, ◌++◌, if◌then◌else◌,
  str_eq, ltb, length,
}
use orchestrator_agent.Prelude.Dict.{Dict, lookup, insert, remove, keys}
use orchestrator_agent.Prelude.Sweep.{keys_where}

pub data SessionState : Type 0 where
  created connecting connected disconnected closed : SessionState

abbrev pub session_timeout_seconds : ℕ
session_timeout_seconds = 300

pub record Session : Type 0 where
  pub pc : ℕ
  pub device_id : String
  pub data_channel : Option ℕ
  pub channel_handler : Option ℕ
  pub debug_channel : Option ℕ
  pub debug_channel_handler : Option ℕ
  pub state : SessionState
  pub created_at : ℕ
  pub last_activity : ℕ
  pub ice_connection_state : String
  pub connection_state : String

pub record WebRtcSessionManager : Type 0 where
  pub sessions : Dict Session
  pub cleanup_task : Bool
  pub on_session_closed : Option ℕ

-- A call on an object of other code.
pub data Effect : Type 0 where
  close_channel_handler close_debug_handler close_pc : ℕ → Effect
  notify : ℕ → String → String → Effect

unfoldable pub init : WebRtcSessionManager
init = record { sessions = []; cleanup_task = false; on_session_closed = none }

abbrev pub new_session : ℕ → ℕ → String → Session
new_session now pc device = record {
  pc = pc;
  device_id = device;
  data_channel = none;
  channel_handler = none;
  debug_channel = none;
  debug_channel_handler = none;
  state = created;
  created_at = now;
  last_activity = now;
  ice_connection_state = "new";
  connection_state = "new";
}

abbrev pub on_some : {A : Type 0} → (A → Effect) → Option A → List Effect
on_some f none = []
on_some f (some a) = f a ∷ []

-- The calls that shut a session's objects down: its handlers, then its peer connection.
unfoldable pub shut_down : Session → List Effect
shut_down s =
    on_some close_channel_handler s.channel_handler
    ++ (on_some close_debug_handler s.debug_channel_handler ++ (close_pc s.pc ∷ []))

unfoldable pub shut_existing : Option Session → List Effect
unfolding shut_down
shut_existing none = []
shut_existing (some s) = shut_down s

-- The two parts of `create_session`, each under the lock: another task may run between them.
unfoldable pub take_existing : String → WebRtcSessionManager → List Effect × WebRtcSessionManager
unfolding shut_existing
take_existing sid m =
    (shut_existing (lookup sid m.sessions), record m { sessions = remove sid m.sessions })

unfoldable pub put_new : ℕ → ℕ → String → String → WebRtcSessionManager → WebRtcSessionManager
put_new now pc sid device m = record m {
  sessions = insert sid (new_session now pc device) m.sessions;
}

unfoldable pub create_session :
    ℕ → ℕ → String → String → WebRtcSessionManager → List Effect × WebRtcSessionManager
unfolding take_existing put_new
create_session now pc sid device m =
    let taken = take_existing sid m in (taken.0, put_new now pc sid device taken.1)

-- `_close_session_unlocked` after the table's `pop`.
unfoldable pub close_found :
    String
    → String
    → Option Session
    → WebRtcSessionManager
    → Bool × (List Effect × WebRtcSessionManager)
unfolding shut_down
close_found sid reason none m = (false, ([], m))
close_found sid reason (some s) m = (
  true,
  (
    shut_down s ++ on_some (λ f. notify f sid reason) m.on_session_closed,
    record m { sessions = remove sid m.sessions },
  ),
)

unfoldable pub close_session :
    String → String → WebRtcSessionManager → Bool × (List Effect × WebRtcSessionManager)
unfolding close_found
close_session sid reason m = close_found sid reason (lookup sid m.sessions) m

-- `for session_id in ids: await self.close_session(session_id, reason)`
unfoldable pub close_each :
    List String → String → WebRtcSessionManager → List Effect × WebRtcSessionManager
unfolding close_session
close_each [] reason m = ([], m)
close_each (sid ∷ ids) reason m =
    let one = (close_session sid reason m).1 in
    let rest = close_each ids reason one.1 in (one.0 ++ rest.0, rest.1)

unfoldable pub is_stale : ℕ → Session → Bool
is_stale now s = ltb (session_timeout_seconds * 1000000) (now - s.last_activity)

unfoldable pub cleanup_stale_sessions :
    ℕ → WebRtcSessionManager → List Effect × WebRtcSessionManager
unfolding close_each is_stale
cleanup_stale_sessions now m = close_each (keys_where (is_stale now) m.sessions) "timeout" m

unfoldable pub close_all_sessions : WebRtcSessionManager → List Effect × WebRtcSessionManager
unfolding close_each
close_all_sessions m = close_each (keys m.sessions) "shutdown" m

unfoldable pub start : WebRtcSessionManager → WebRtcSessionManager
start m = record m { cleanup_task = true }

unfoldable pub stop : WebRtcSessionManager → List Effect × WebRtcSessionManager
unfolding close_all_sessions
stop m = close_all_sessions (record m { cleanup_task = false })

unfoldable pub register_callback : ℕ → WebRtcSessionManager → WebRtcSessionManager
register_callback f m = record m { on_session_closed = some f }

-- `session = self._sessions.get(session_id)`, then a change of the found session's fields.
unfoldable pub modify_found :
    String
    → (Session → Session)
    → Option Session
    → WebRtcSessionManager
    → Bool × WebRtcSessionManager
modify_found sid change none m = (false, m)
modify_found sid change (some s) m =
    (true, record m { sessions = insert sid (change s) m.sessions })

unfoldable pub modify :
    String → (Session → Session) → WebRtcSessionManager → Bool × WebRtcSessionManager
unfolding modify_found
modify sid change m = modify_found sid change (lookup sid m.sessions) m

abbrev with_state : ℕ → SessionState → Session → Session
with_state now state s = record s { state = state; last_activity = now }

-- `if ice_state:`
abbrev pub with_ice : Option String → Session → Session
with_ice none s = s
with_ice (some ice) s = if str_eq ice "" then s else record s { ice_connection_state = ice }

-- The session state that a connection state stands for; any other leaves it as it is.
unfoldable state_of : String → SessionState → SessionState
state_of connection old =
    if str_eq connection "connected"
    then connected
    else if str_eq connection "failed"
    then disconnected
    else if str_eq connection "disconnected"
    then disconnected
    else if str_eq connection "connecting"
    then connecting
    else old

abbrev with_connection : ℕ → String → Option String → Session → Session
with_connection now connection ice s = with_ice ice (record s {
  connection_state = connection;
  last_activity = now;
  state = state_of connection s.state;
})

-- Every method below changes one session and its clock: the change as data.
pub data Update : Type 0 where
  update_session_state : SessionState → Update
  update_connection_state : String → Option String → Update
  touch_session : Update
  set_data_channel set_channel_handler set_debug_channel set_debug_channel_handler :
      Option ℕ → Update

unfoldable pub changed : ℕ → Update → Session → Session
unfolding state_of
changed now (update_session_state state) s = with_state now state s
changed now (update_connection_state c ice) s = with_connection now c ice s
changed now touch_session s = record s { last_activity = now }
changed now (set_data_channel c) s = record s { data_channel = c; last_activity = now }
changed now (set_channel_handler h) s = record s { channel_handler = h; last_activity = now }
changed now (set_debug_channel c) s = record s { debug_channel = c; last_activity = now }
changed now (set_debug_channel_handler h) s = record s {
  debug_channel_handler = h;
  last_activity = now;
}

unfoldable pub update : ℕ → Update → String → WebRtcSessionManager → Bool × WebRtcSessionManager
unfolding modify changed
update now u sid m = modify sid (changed now u) m

unfoldable pub get_session : String → WebRtcSessionManager → Option Session
get_session sid m = lookup sid m.sessions

unfoldable pub get_session_count : WebRtcSessionManager → ℕ
get_session_count m = length m.sessions

abbrev from_found : {A : Type 0} → (Session → Option A) → Option Session → Option A
from_found f none = none
from_found f (some s) = f s

unfoldable get_peer_connection : String → WebRtcSessionManager → Option ℕ
get_peer_connection sid m = from_found (λ s. some s.pc) (lookup sid m.sessions)

unfoldable get_channel_handler : String → WebRtcSessionManager → Option ℕ
get_channel_handler sid m = from_found (λ s. s.channel_handler) (lookup sid m.sessions)

unfoldable get_debug_channel_handler : String → WebRtcSessionManager → Option ℕ
get_debug_channel_handler sid m = from_found (λ s. s.debug_channel_handler) (lookup sid m.sessions)

-- What `list_sessions` shows of a session.
pub record Info : Type 0 where
  pub info_device_id : String
  pub info_state : SessionState
  pub info_connection_state : String
  pub info_created_at : ℕ
  pub info_last_activity : ℕ

abbrev pub info : Session → Info
info s = record {
  info_device_id = s.device_id;
  info_state = s.state;
  info_connection_state = s.connection_state;
  info_created_at = s.created_at;
  info_last_activity = s.last_activity;
}

unfoldable list_infos : Dict Session → Dict Info
list_infos [] = []
list_infos ((sid, s) ∷ m) = (sid, info s) ∷ list_infos m

unfoldable list_sessions : WebRtcSessionManager → Dict Info
unfolding list_infos
list_sessions m = list_infos m.sessions
