-- ===== src/DebugChannel/Closed.antt =====
-- What a closed debug channel still does, in
-- src/controllers/webrtc_controller/data_channel/debug_channel_handler.py: tasks that were waiting
-- when it was closed go on.
use orchestrator_agent.Prelude.{
  ◌≡◌, refl, ℕ, ◌+◌, ◌≤◌, length, Option, Bool, true, false, none, some, List, [], ◌∷◌, ◌++◌, arith,
  All, if◌then◌else◌, str_eq, either_branch,
}
use orchestrator_agent.DebugCommand.{
  CommandType, DebugMessage, no_session, debug_error, debug_connected,
}
use orchestrator_agent.DebugSessions.{connect, disconnect, Login, rejected, accepted, login_raises}
use orchestrator_agent.DebugChannel.{
  DebugChannelHandler, Effect, send_ready, touch_session, close_channel, send_invalid_json, send,
  socket, request_login, run, send_message, close, logged_in, connect_ended, handle_message, Step,
  opened, closing, message, login_answered, connect_answered, command_answered, lock_had, step,
  command_on, handle_command_inner, resumed, resume, steps,
}

-- A socket's connection, or a command.
abbrev pub IsLate : Effect → Type 0
IsLate (socket (connect s)) = Unit
IsLate (socket (disconnect s)) = ⊥
IsLate send_ready = ⊥
IsLate touch_session = ⊥
IsLate close_channel = ⊥
IsLate (send_invalid_json e) = ⊥
IsLate (send r) = ⊥
IsLate (request_login ip port u p) = ⊥
IsLate (run c m s) = Unit

abbrev pub one_if_run : Effect → ℕ
one_if_run (run c m s) = 1
one_if_run (socket s) = 0
one_if_run send_ready = 0
one_if_run touch_session = 0
one_if_run close_channel = 0
one_if_run (send_invalid_json e) = 0
one_if_run (send r) = 0
one_if_run (request_login ip port u p) = 0

abbrev pub runs : List Effect → ℕ
runs [] = 0
runs (e ∷ l) = one_if_run e + runs l

-- Closed still, nothing done but opening sockets and running commands, and no command run or waiting
-- that was not among the `n` that waited.
abbrev IsQuiet : ℕ → List Effect × DebugChannelHandler → Type 0
IsQuiet n done =
    (done.1.closed ≡ true) × All IsLate done.0 × (runs done.0 + length done.1.waiting ≤ n)

send_message-IsQuiet :
    (is_open : Bool) (text : Effect) (h g : DebugChannelHandler)
    → h.closed ≡ true
    → g.closed ≡ true
    → IsQuiet (length g.waiting) (send_message is_open text h, g)
unfolding send_message
send_message-IsQuiet is_open text h g over still = (still, rw over tt, rw over (omega arith))

kept-IsQuiet :
    (b : Bool) (h : DebugChannelHandler) (y : List Effect × DebugChannelHandler)
    → b ≡ true
    → h.closed ≡ true
    → IsQuiet (length h.waiting) (if b then ([], h) else y)
kept-IsQuiet true h y e over = (over, tt, omega arith)
kept-IsQuiet false h y e over = absurd (ground arith)

logged_in-IsQuiet :
    (is_open : Bool) (s : ℕ) (login : Login) (h : DebugChannelHandler)
    → h.closed ≡ true
    → IsQuiet (length h.waiting) (logged_in is_open s login h)
unfolding logged_in
logged_in-IsQuiet is_open s (login_raises e) h over = send_message-IsQuiet is_open _ h h over over
logged_in-IsQuiet is_open s (rejected code) h over = send_message-IsQuiet is_open _ h h over over
logged_in-IsQuiet is_open s (accepted none) h over = send_message-IsQuiet is_open _ h h over over
logged_in-IsQuiet is_open s (accepted (some token)) h over =
    either_branch (IsQuiet (length h.waiting)) (str_eq token "") (_, h) (socket (connect s) ∷ [], h)
      (send_message-IsQuiet is_open _ h h over over) (over, (tt, tt), omega arith)

command_on-IsQuiet :
    (is_open : Bool) (c : CommandType) (msg : DebugMessage) (o : Option ℕ) (h : DebugChannelHandler)
    → h.closed ≡ true
    → IsQuiet (length h.waiting + 1) (command_on is_open c msg o h)
unfolding command_on
command_on-IsQuiet is_open c msg none h over =
    let quiet = send_message-IsQuiet is_open (send (debug_error no_session)) h h over over in
    (quiet.0, quiet.1, omega (arith, quiet.2))
command_on-IsQuiet is_open c msg (some s) h over =
    let quiet = send_message-IsQuiet is_open (send (debug_error no_session)) h h over over in
    either_branch (IsQuiet (length h.waiting + 1)) h.connected
      (run c msg s ∷ [], record h { locked = true }) _ (over, (tt, tt), omega arith)
      (quiet.0, quiet.1, omega (arith, quiet.2))

resumed-IsQuiet :
    (is_open : Bool) (l : List (CommandType × DebugMessage)) (h : DebugChannelHandler)
    → h.closed ≡ true
    → h.waiting ≡ l
    → IsQuiet (length l) (resumed is_open l h)
unfolding handle_command_inner
resumed-IsQuiet is_open [] h over e = (over, tt, rw e (omega arith))
resumed-IsQuiet is_open ((c, msg) ∷ l) h over e =
    let quiet = command_on-IsQuiet is_open c msg h.debug_socket (record h { waiting = l }) over in
    (quiet.0, quiet.1, omega (arith, quiet.2))

resume-IsQuiet :
    (is_open : Bool) (h : DebugChannelHandler)
    → h.closed ≡ true
    → IsQuiet (length h.waiting) (resume is_open h)
unfolding resume
resume-IsQuiet is_open h over =
    either_branch (IsQuiet (length h.waiting)) h.locked ([], h) (resumed is_open h.waiting h)
      (over, tt, omega arith) (resumed-IsQuiet is_open h.waiting h over refl)

step-IsQuiet :
    (is_open : Bool) (s : Step) (h : DebugChannelHandler)
    → h.closed ≡ true
    → IsQuiet (length h.waiting) (step is_open s h)
unfolding step close handle_message connect_ended
step-IsQuiet is_open opened h over = send_message-IsQuiet is_open send_ready h h over over
step-IsQuiet is_open closing h over = kept-IsQuiet h.closed h _ over over
step-IsQuiet is_open (message p ip) h over = kept-IsQuiet h.closed h _ over over
step-IsQuiet is_open (login_answered s login) h over = logged_in-IsQuiet is_open s login h over
step-IsQuiet is_open (connect_answered s none) h over =
    send_message-IsQuiet is_open (send debug_connected) h
      (record h { connected = true; debug_socket = some s }) over over
step-IsQuiet is_open (connect_answered s (some e)) h over =
    send_message-IsQuiet is_open _ h h over over
step-IsQuiet is_open (command_answered c msg runtime) h over =
    send_message-IsQuiet is_open _ h (record h { locked = false }) over over
step-IsQuiet is_open lock_had h over = resume-IsQuiet is_open h over

All-append : (xs ys : List Effect) → All IsLate xs → All IsLate ys → All IsLate (xs ++ ys)
All-append [] ys a b = b
All-append (x ∷ xs) ys a b = (a.0, All-append xs ys a.1 b)

runs-append : (xs ys : List Effect) → runs (xs ++ ys) ≡ runs xs + runs ys
runs-append [] ys = omega arith
runs-append (x ∷ xs) ys = omega (arith, runs-append xs ys)

steps-IsQuiet :
    (ss : List (Bool × Step)) (h : DebugChannelHandler)
    → h.closed ≡ true
    → IsQuiet (length h.waiting) (steps ss h)
unfolding steps
steps-IsQuiet [] h over = (over, tt, omega arith)
steps-IsQuiet ((is_open, s) ∷ ss) h over =
    let done = step is_open s h in
    let one = step-IsQuiet is_open s h over in
    let rest = steps-IsQuiet ss done.1 one.0 in
    (
      rest.0,
      All-append done.0 (steps ss done.1).0 one.1 rest.1,
      omega (arith, one.2, rest.2, runs-append done.0 (steps ss done.1).0),
    )

-- Once the handler is closed, nothing is sent to the browser, no login asked for and no socket
-- disconnected, whatever steps come. All that happens is that starts which were under way connect
-- their sockets, and that commands are run, at most as many as waited for the lock.
pub steps-closed :
    (ss : List (Bool × Step)) (h : DebugChannelHandler)
    → h.closed ≡ true
    → ((steps ss h).1.closed ≡ true)
      × All IsLate (steps ss h).0
      × (runs (steps ss h).0 ≤ length h.waiting)
steps-closed ss h over =
    let quiet = steps-IsQuiet ss h over in (quiet.0, quiet.1, omega (arith, quiet.2))
