-- ===== src/DebugSessions/Lifecycle.antt =====
-- How the debug sessions of the HTTP path begin, go on and end.
use orchestrator_agent.Prelude.{
  ◌≡◌, refl, ap, ◌∙◌, ◌≢◌, ◌⊎◌, inl, inr, ℕ, String, Option, none, some, List, [], ◌∷◌, arith,
  eq_iff, str_eq, Bool-cases,
}
use orchestrator_agent.Prelude.Dict.{
  Dict, lookup, insert, remove, IsDistinct, lookup-insert, lookup-remove,
}
use orchestrator_agent.Prelude.Sweep.{keys_where, remove_all, reject, lookup-sweep}
use orchestrator_agent.DebugCommand.{
  CommandType, CommandError, DebugMessage, no_session, Reply, debug_error, debug_connected,
  or_default,
}
use orchestrator_agent.DebugSessions.{
  DebugSession, DebugSessionManager, SocketCall, Login, rejected, accepted, login_raises, World,
  Message, disconnect_session, fresh, connected_as, logged_in, located, start_around, handle_start,
  command_on, handle_command, handle_stop, Route, start_route, stop_route, command_route,
  unknown_route, route, handle_routed, handle_debug_message, disconnect_all, is_idle, cleanup_round,
}

abbrev Answered : Type 0
Answered = Reply × (List SocketCall × DebugSessionManager)

-- The end of a start for device `id`: connected with a new session, or an error and the sessions
-- that there were.
StartsOr : ℕ → ℕ → String → DebugSessionManager → Answered → Type 0
StartsOr now socket id m r =
    ((r.0 ≡ debug_connected) × (r.1.1.sessions ≡ insert id (fresh now socket) m.sessions))
    ⊎ (((e : CommandError) × (r.0 ≡ debug_error e)) × (r.1.1.sessions ≡ m.sessions))

connected_as-StartsOr :
    (now socket : ℕ) (id : String) (o : Option String) (m : DebugSessionManager)
    → StartsOr now socket id m (connected_as now socket id o m)
unfolding StartsOr connected_as
connected_as-StartsOr now socket id none m = inl (refl, refl)
connected_as-StartsOr now socket id (some message) m = inr ((_, refl), refl)

logged_in-StartsOr :
    (w : World) (now socket : ℕ) (id ip : String) (port : ℕ) (l : Login) (m : DebugSessionManager)
    → StartsOr now socket id m (logged_in w now socket id ip port l m)
unfolding StartsOr logged_in
logged_in-StartsOr w now socket id ip port (login_raises message) m = inr ((_, refl), refl)
logged_in-StartsOr w now socket id ip port (rejected code) m = inr ((_, refl), refl)
logged_in-StartsOr w now socket id ip port (accepted none) m = inr ((_, refl), refl)
logged_in-StartsOr w now socket id ip port (accepted (some token)) m =
    elim (Bool-cases (str_eq token "")) [
      | inl empty ↦ rw empty (inr ((_, refl), refl))
      | inr full ↦
          rw full (connected_as-StartsOr now socket id (w.connect_raises socket ip port token) m)
    ]

located-StartsOr :
    (w : World) (now socket : ℕ) (id : String) (msg : Message) (o : Option String)
    (m : DebugSessionManager)
    → StartsOr now socket id m (located w now socket id msg o m)
unfolding StartsOr located
located-StartsOr w now socket id msg none m = inr ((_, refl), refl)
located-StartsOr w now socket id msg (some ip) m =
    (let port = or_default 8443 msg.port in
      logged_in-StartsOr w now socket id ip port
        (w.login ip port (or_default "dev" msg.username) (or_default "dev" msg.password)) m)

lookup-removed : {V : Type 0} (k : String) (m : Dict V) → lookup k (remove k m) ≡ none
lookup-removed k m = ground (arith, lookup-remove k k m, eq_iff k k)

-- The sessions after a message for device `id`: as they were, or `id` taken out, or `id` put in
-- after that.
SessionsChange : String → Dict DebugSession → Dict DebugSession → Type 0
SessionsChange id before after =
    (after ≡ before)
    ⊎ ((after ≡ remove id before)
        ⊎ (((s : DebugSession) × (after ≡ insert id s before))
            ⊎ ((s : DebugSession) × (after ≡ insert id s (remove id before)))))

command_on-SessionsChange :
    (w : World) (now : ℕ) (id : String) (c : CommandType) (msg : DebugMessage)
    (o : Option DebugSession) (m : DebugSessionManager)
    → SessionsChange id m.sessions (command_on w now id c msg o m).1.1.sessions
unfolding SessionsChange command_on
command_on-SessionsChange w now id c msg none m = inl refl
command_on-SessionsChange w now id c msg (some s) m = elim (Bool-cases s.connected) [
  | inl live ↦ rw live (inr (inr (inl (_, refl))))
  | inr dead ↦ rw dead (inl refl)
]

start-SessionsChange :
    (w : World) (now socket : ℕ) (id : String) (msg : Message) (m : DebugSessionManager)
    → SessionsChange id m.sessions (handle_start w now socket id msg m).1.1.sessions
unfolding SessionsChange handle_start start_around disconnect_session StartsOr
start-SessionsChange w now socket id msg m =
    elim (located-StartsOr w now socket id msg (w.get_client id) (disconnect_session id m).1) [
      | inl (replied, sessions) ↦ inr (inr (inr (_, sessions)))
      | inr (replied, sessions) ↦ inr (inl sessions)
    ]

routed-SessionsChange :
    (w : World) (now socket : ℕ) (id : String) (msg : Message) (r : Route) (m : DebugSessionManager)
    → SessionsChange id m.sessions (handle_routed w now socket id msg r m).1.1.sessions
unfolding SessionsChange handle_routed handle_stop disconnect_session handle_command
routed-SessionsChange w now socket id msg start_route m = start-SessionsChange w now socket id msg m
routed-SessionsChange w now socket id msg stop_route m = inr (inl refl)
routed-SessionsChange w now socket id msg (command_route c) m =
    command_on-SessionsChange w now id c msg.command (lookup id m.sessions) m
routed-SessionsChange w now socket id msg (unknown_route t) m = inl refl

change-lookup :
    (id other : String) (before after : Dict DebugSession)
    → SessionsChange id before after
    → id ≢ other
    → lookup other after ≡ lookup other before
unfolding SessionsChange
change-lookup id other before after (inl e) ne = ap (lookup other) e
change-lookup id other before after (inr (inl e)) ne =
    ap (lookup other) e ∙ ground (arith, lookup-remove id other before, eq_iff id other)
change-lookup id other before after (inr (inr (inl (s, e)))) ne =
    ap (lookup other) e ∙ ground (arith, lookup-insert id other s before, eq_iff id other)
change-lookup id other before after (inr (inr (inr (s, e)))) ne =
    ap (lookup other) e
    ∙ ground (
      arith,
      lookup-insert id other s (remove id before),
      lookup-remove id other before,
      eq_iff id other,
    )

-- A debug message for one device, of any type, leaves the session of every other device as it is.
message_other :
    (w : World) (now socket : ℕ) (id other : String) (msg : Message) (m : DebugSessionManager)
    → id ≢ other
    → lookup other (handle_debug_message w now socket id msg m).1.1.sessions
      ≡ lookup other m.sessions
unfolding handle_debug_message
message_other w now socket id other msg m ne =
    change-lookup id other m.sessions _
      (routed-SessionsChange w now socket id msg (route msg.type_name) m) ne

-- A run of messages for devices, with the clock and the socket that each is given.
unfoldable pub handle_all :
    World → List (ℕ × (ℕ × (String × Message))) → DebugSessionManager → DebugSessionManager
handle_all w [] m = m
handle_all w ((now, (socket, (id, msg))) ∷ l) m =
    handle_all w l (handle_debug_message w now socket id msg m).1.1

abbrev NoneFor : String → List (ℕ × (ℕ × (String × Message))) → Type 0
NoneFor id [] = Unit
NoneFor id ((_, (_, (other, _))) ∷ l) = (other ≢ id) × NoneFor id l

handle_all_other :
    (w : World) (id : String) (l : List (ℕ × (ℕ × (String × Message)))) (m : DebugSessionManager)
    → NoneFor id l
    → lookup id (handle_all w l m).sessions ≡ lookup id m.sessions
unfolding handle_all
handle_all_other w id [] m h = refl
handle_all_other w id ((now, (socket, (other, msg))) ∷ l) m h =
    handle_all_other w id l (handle_debug_message w now socket other msg m).1.1 h.1
    ∙ message_other w now socket other id msg m h.0

-- A route to a command leads to the same answer, with no session for the device.
refused_without_session :
    (w : World) (now socket : ℕ) (id : String) (msg : Message) (c : CommandType)
    (m : DebugSessionManager)
    → route msg.type_name ≡ command_route c
    → lookup id m.sessions ≡ none
    → handle_debug_message w now socket id msg m ≡ (debug_error no_session, ([], m))
unfolding handle_debug_message handle_routed handle_command command_on
refused_without_session w now socket id msg c m e h = rw (e, h) refl

-- After a device's session is stopped, and any messages for other devices, a command for it is
-- refused for want of a session: nothing is connected, disconnected or changed.
pub stopped_until_start :
    (w : World) (now socket : ℕ) (id : String) (l : List (ℕ × (ℕ × (String × Message))))
    (msg : Message) (c : CommandType) (m : DebugSessionManager)
    → NoneFor id l
    → route msg.type_name ≡ command_route c
    → let later = handle_all w l (handle_stop id m).1.1 in
      handle_debug_message w now socket id msg later ≡ (debug_error no_session, ([], later))
unfolding handle_stop disconnect_session
stopped_until_start w now socket id l msg c m h e =
    let stopped = (handle_stop id m).1.1 in
    refused_without_session w now socket id msg c (handle_all w l stopped) e
      (handle_all_other w id l stopped h ∙ lookup-removed id m.sessions)

disconnect_all-sessions :
    (ids : List String) (m : DebugSessionManager)
    → (disconnect_all ids m).1.sessions ≡ remove_all ids m.sessions
unfolding disconnect_all remove_all disconnect_session
disconnect_all-sessions [] m = refl
disconnect_all-sessions (id ∷ ids) m = disconnect_all-sessions ids (disconnect_session id m).1

-- A round of the cleanup loop ends exactly the sessions that were idle for more than 300 seconds,
-- of a table that has each device once.
lookup-cleanup_round :
    (now : ℕ) (id : String) (m : DebugSessionManager)
    → IsDistinct m.sessions
    → lookup id (cleanup_round now m).1.sessions ≡ reject (is_idle now) (lookup id m.sessions)
unfolding cleanup_round
lookup-cleanup_round now id m h =
    ap (lookup id) (disconnect_all-sessions (keys_where (is_idle now) m.sessions) m)
    ∙ lookup-sweep (is_idle now) id m.sessions h
