-- ===== src/DebugChannel/Sockets.antt =====
-- Which sockets the debug channel opens and closes, over any sequence of steps of
-- src/controllers/webrtc_controller/data_channel/debug_channel_handler.py.
use orchestrator_agent.Prelude.{
  ◌≡◌, refl, ℕ, ◌+◌, Bool, true, false, Option, none, some, List, [], ◌∷◌, ◌++◌, not, ◌&&◌, arith,
  Bool-cases, inl, inr, if◌then◌else◌, str_eq, String, either_branch,
}
use orchestrator_agent.DebugCommand.{
  CommandType, DebugMessage, debug_disconnected, debug_error, no_token, no_session, debug_connected,
  execute_command,
}
use orchestrator_agent.DebugSessions.{
  connect, Login, rejected, accepted, login_raises, Message, Route, start_route, stop_route,
  command_route, unknown_route, route,
}
use orchestrator_agent.DebugChannel.{
  DebugChannelHandler, init, Effect, close_channel, send, socket, run, send_message,
  disconnect_held, disconnect_debug_socket, close, ask_login, dropped_if, handle_start, logged_in,
  connect_ended, command_on, handle_command_inner, none_waiting, resumed, resume, handle_command,
  handle_stop, handle_routed, Parsed, object, no_json, no_object, handle_parsed, handle_message,
  Step, opened, closing, message, login_answered, connect_answered, command_answered, lock_had,
  step, steps,
}
use orchestrator_agent.DebugChannel.Counts.{
  one_if_held, is_disconnect, disconnects, opens, all_opens, is_free, in_order, InOrder,
  disconnects-append, disconnects-send_message,
}

-- A closed handler holds no socket.
abbrev IsClean : DebugChannelHandler → Type 0
IsClean h = h.closed ≡ true → one_if_held h.debug_socket ≡ 0

-- What a step owes: the sockets that it disconnects and leaves held are those that it found held
-- and those that were connected; and a clean handler stays clean.
abbrev Balances : ℕ → DebugChannelHandler → List Effect × DebugChannelHandler → Type 0
Balances connected h done =
    (disconnects done.0 + one_if_held done.1.debug_socket ≡ connected + one_if_held h.debug_socket)
    × (IsClean h → IsClean done.1)

-- A step that keeps the handler, and disconnects nothing.
kept-Balances :
    (l : List Effect) (h : DebugChannelHandler) → disconnects l ≡ 0 → Balances 0 h (l, h)
kept-Balances l h quiet = (omega (arith, quiet), λ c. c)

send-Balances :
    (is_open : Bool) (text : Effect) (h : DebugChannelHandler)
    → is_disconnect text ≡ 0
    → Balances 0 h (send_message is_open text h, h)
send-Balances is_open text h quiet =
    kept-Balances (send_message is_open text h) h (disconnects-send_message is_open text h quiet)

-- One step and then another.
follow-Balances :
    (h : DebugChannelHandler) (one rest : List Effect × DebugChannelHandler)
    → Balances 0 h one
    → Balances 0 one.1 rest
    → Balances 0 h (one.0 ++ rest.0, rest.1)
follow-Balances h one rest a b =
    (omega (arith, a.0, b.0, disconnects-append one.0 rest.0), λ c. b.1 (a.1 c))

disconnects-disconnect_held : (o : Option ℕ) → disconnects (disconnect_held o) ≡ one_if_held o
unfolding disconnect_held
disconnects-disconnect_held none = refl
disconnects-disconnect_held (some s) = omega arith

disconnect-Balances : (h : DebugChannelHandler) → Balances 0 h (disconnect_debug_socket h)
unfolding disconnect_debug_socket
disconnect-Balances h = (omega (arith, disconnects-disconnect_held h.debug_socket), λ _ _. refl)

close-Balances : (h : DebugChannelHandler) → Balances 0 h (close h)
unfolding close disconnect_debug_socket
close-Balances h = elim (Bool-cases h.closed) [
  | inl already ↦ rw already (omega arith, λ c. c)
  | inr first ↦ rw first (
    omega (
      arith,
      disconnects-append (disconnect_held h.debug_socket) (close_channel ∷ []),
      disconnects-disconnect_held h.debug_socket,
    ),
    λ _ _. refl,
  )
]

dropped_if-Balances : (b : Bool) (h : DebugChannelHandler) → Balances 0 h (dropped_if b h)
dropped_if-Balances false h = kept-Balances [] h refl
dropped_if-Balances true h = disconnect-Balances h

ask_login-Balances :
    (is_open : Bool) (msg : Message) (ip : Option String) (h : DebugChannelHandler)
    → Balances 0 h (ask_login is_open msg ip h)
unfolding ask_login
ask_login-Balances is_open msg none h = send-Balances is_open _ h refl
ask_login-Balances is_open msg (some ip) h = (omega arith, λ c. c)

logged_in-Balances :
    (is_open : Bool) (s : ℕ) (login : Login) (h : DebugChannelHandler)
    → Balances 0 h (logged_in is_open s login h)
unfolding logged_in
logged_in-Balances is_open s (login_raises e) h = send-Balances is_open _ h refl
logged_in-Balances is_open s (rejected code) h = send-Balances is_open _ h refl
logged_in-Balances is_open s (accepted none) h = send-Balances is_open _ h refl
logged_in-Balances is_open s (accepted (some token)) h =
    either_branch (Balances 0 h) (str_eq token "") _ (socket (connect s) ∷ [], h)
      (send-Balances is_open (send (debug_error no_token)) h refl) (omega arith, λ c. c)

command_on-Balances :
    (is_open : Bool) (c : CommandType) (msg : DebugMessage) (o : Option ℕ) (h : DebugChannelHandler)
    → Balances 0 h (command_on is_open c msg o h)
unfolding command_on
command_on-Balances is_open c msg none h = send-Balances is_open _ h refl
command_on-Balances is_open c msg (some s) h =
    either_branch (Balances 0 h) h.connected (run c msg s ∷ [], record h { locked = true }) _
      (omega arith, λ k. k) (send-Balances is_open (send (debug_error no_session)) h refl)

handle_command-Balances :
    (is_open : Bool) (c : CommandType) (msg : DebugMessage) (h : DebugChannelHandler)
    → Balances 0 h (handle_command is_open c msg h)
unfolding handle_command handle_command_inner
handle_command-Balances is_open c msg h =
    either_branch (Balances 0 h) (not h.locked && none_waiting h.waiting)
      (command_on is_open c msg h.debug_socket h)
      ([], record h { waiting = h.waiting ++ (c, msg) ∷ [] })
      (command_on-Balances is_open c msg h.debug_socket h) (omega arith, λ k. k)

resumed-Balances :
    (is_open : Bool) (l : List (CommandType × DebugMessage)) (h : DebugChannelHandler)
    → Balances 0 h (resumed is_open l h)
unfolding handle_command_inner
resumed-Balances is_open [] h = kept-Balances [] h refl
resumed-Balances is_open ((c, msg) ∷ l) h =
    command_on-Balances is_open c msg h.debug_socket (record h { waiting = l })

resume-Balances : (is_open : Bool) (h : DebugChannelHandler) → Balances 0 h (resume is_open h)
unfolding resume
resume-Balances is_open h =
    either_branch (Balances 0 h) h.locked ([], h) (resumed is_open h.waiting h)
      (kept-Balances [] h refl) (resumed-Balances is_open h.waiting h)

routed-Balances :
    (is_open : Bool) (msg : Message) (ip : Option String) (r : Route) (h : DebugChannelHandler)
    → Balances 0 h (handle_routed is_open msg ip r h)
unfolding handle_routed handle_start handle_stop handle_command
routed-Balances is_open msg ip start_route h =
    let dropped = dropped_if h.connected h in
    follow-Balances h dropped (ask_login is_open msg ip dropped.1)
      (dropped_if-Balances h.connected h) (ask_login-Balances is_open msg ip dropped.1)
routed-Balances is_open msg ip stop_route h =
    follow-Balances h (disconnect_debug_socket h)
      (
        send_message is_open (send debug_disconnected) (disconnect_debug_socket h).1,
        (disconnect_debug_socket h).1,
      )
      (disconnect-Balances h)
      (send-Balances is_open (send debug_disconnected) (disconnect_debug_socket h).1 refl)
routed-Balances is_open msg ip (command_route c) h = handle_command-Balances is_open c msg.command h
routed-Balances is_open msg ip (unknown_route t) h = send-Balances is_open _ h refl

parsed-Balances :
    (is_open : Bool) (p : Parsed) (ip : Option String) (h : DebugChannelHandler)
    → Balances 0 h (handle_parsed is_open p ip h)
unfolding handle_parsed
parsed-Balances is_open (no_json e) ip h = send-Balances is_open _ h refl
parsed-Balances is_open (no_object e) ip h = send-Balances is_open _ h refl
parsed-Balances is_open (object msg) ip h =
    let done = routed-Balances is_open msg ip (route msg.type_name) h in
    (omega (arith, done.0), done.1)

message-Balances :
    (is_open : Bool) (p : Parsed) (ip : Option String) (h : DebugChannelHandler)
    → Balances 0 h (handle_message is_open p ip h)
unfolding handle_message
message-Balances is_open p ip h =
    either_branch (Balances 0 h) h.closed ([], h) (handle_parsed is_open p ip h)
      (omega arith, λ c. c) (parsed-Balances is_open p ip h)

free-none :
    (o : Option ℕ) (closed : Bool)
    → is_free o closed ≡ true
    → (one_if_held o ≡ 0) × (closed ≡ false)
free-none none false e = (refl, refl)
free-none none true e = absurd (ground arith)
free-none (some s) closed e = absurd (ground arith)

connected-Balances :
    (is_open : Bool) (s : ℕ) (h : DebugChannelHandler)
    → is_free h.debug_socket h.closed ≡ true
    → Balances 1 h (connect_ended is_open s none h)
unfolding connect_ended
connected-Balances is_open s h free =
    let found = free-none h.debug_socket h.closed free in
    (
      omega (arith, disconnects-send_message is_open (send debug_connected) h refl, found.0),
      λ _ over. absurd (ground (arith, over, found.1)),
    )

step-Balances :
    (is_open : Bool) (s : Step) (h : DebugChannelHandler)
    → in_order s h ≡ true
    → Balances (opens s) h (step is_open s h)
unfolding step connect_ended
step-Balances is_open opened h o = send-Balances is_open _ h refl
step-Balances is_open closing h o = close-Balances h
step-Balances is_open (message p ip) h o = message-Balances is_open p ip h
step-Balances is_open (login_answered s login) h o = logged_in-Balances is_open s login h
step-Balances is_open (connect_answered s none) h o = connected-Balances is_open s h o
step-Balances is_open (connect_answered s (some e)) h o = send-Balances is_open _ h refl
step-Balances is_open (command_answered c msg runtime) h o =
    let quiet = send-Balances is_open (send (execute_command c msg runtime)) h refl in
    (quiet.0, quiet.1)
step-Balances is_open lock_had h o = resume-Balances is_open h

steps-Balances :
    (ss : List (Bool × Step)) (h : DebugChannelHandler)
    → InOrder ss h
    → Balances (all_opens ss) h (steps ss h)
unfolding steps
steps-Balances [] h o = (omega arith, λ c. c)
steps-Balances ((is_open, s) ∷ ss) h o =
    let one = step-Balances is_open s h o.0 in
    let rest = steps-Balances ss (step is_open s h).1 o.1 in
    (
      omega (
        arith,
        one.0,
        rest.0,
        disconnects-append (step is_open s h).0 (steps ss (step is_open s h).1).0,
      ),
      λ c. rest.1 (one.1 c),
    )

-- Over any sequence of steps from a new handler in which every connection that succeeds finds the
-- handler open and without a socket: there are as many disconnections as connections that succeeded,
-- less one if the handler still holds a socket, and a handler that is closed holds none.
pub steps-disconnects :
    (ss : List (Bool × Step))
    → InOrder ss init
    → let done = steps ss init in
      (disconnects done.0 + one_if_held done.1.debug_socket ≡ all_opens ss)
      × ((if done.1.closed then one_if_held done.1.debug_socket else 0) ≡ 0)
unfolding init
steps-disconnects ss o =
    let done = steps-Balances ss init o in
    let clean = done.1 (λ _. refl) in
    (
      omega (arith, done.0),
      elim (Bool-cases (steps ss init).1.closed) [
        | inl over ↦ rw over (clean over)
        | inr alive ↦ rw alive refl
      ],
    )
