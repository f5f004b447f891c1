-- ===== src/DataChannel/Closing.antt =====
-- How a data channel ends, over any sequence of steps of
-- src/controllers/webrtc_controller/data_channel/data_channel_handler.py.
use orchestrator_agent.Prelude.{
  ◌≡◌, refl, ℕ, ◌+◌, String, Bool, true, false, not, ◌&&◌, Option, none, some, List, [], ◌∷◌, ◌++◌,
  str_eq, arith, Bool-cases, inl, inr, either_branch,
}
use orchestrator_agent.Chunking.{Text, Outcome, returned, raised, handle_chunk_message}
use orchestrator_agent.DataChannel.{
  DataChannelHandler, init, Incoming, Parsed, object, no_object, Outgoing, ready_message,
  ping_message, pong_message, Effect, send_texts, touch_session, set_connected, start_ping,
  cancel_ping, close_channel, execute, Env, send_message, cancelled, close, dispatch_typed,
  dispatch_message, dispatch_text, assembled, is_chunk, handle_parsed, handle_message, ping_due,
  Step, opened, channel_closed, closing, ping_wakes, message, command_answered, response_to, step,
  steps,
}

abbrev is_close : Effect → ℕ
is_close close_channel = 1
is_close (send_texts l) = 0
is_close touch_session = 0
is_close set_connected = 0
is_close start_ping = 0
is_close cancel_ping = 0
is_close (execute msg) = 0

abbrev pub closes : List Effect → ℕ
closes [] = 0
closes (e ∷ l) = is_close e + closes l

abbrev pub one_if : Bool → ℕ
one_if true = 1
one_if false = 0

closes-append : (xs ys : List Effect) → closes (xs ++ ys) ≡ closes xs + closes ys
closes-append [] ys = omega arith
closes-append (x ∷ xs) ys = omega (arith, closes-append xs ys)

closes-cancelled : (b : Bool) → closes (cancelled b) ≡ 1
closes-cancelled true = omega arith
closes-cancelled false = omega arith

-- The channel is closed by the step that closes the handler, and by no other.
abbrev Closes : Bool → List Effect × DataChannelHandler → Type 0
Closes before done = closes done.0 + one_if before ≡ one_if done.1.closed

close-Closes : (h : DataChannelHandler) → Closes h.closed (close h)
unfolding close
close-Closes h = elim (Bool-cases h.closed) [
  | inl already ↦ rw already (omega arith)
  | inr first ↦ rw first (omega (arith, closes-cancelled h.ping_task))
]

module _ {A : Type 0} where
  closes-send_message :
      (e : Env A) (out : Outgoing A) (h : DataChannelHandler) → closes (send_message e out h) ≡ 0
  unfolding send_message
  closes-send_message e out h = elim (Bool-cases (not h.closed && e.is_open)) [
    | inl sent ↦ rw sent (omega arith)
    | inr kept ↦ rw kept refl
  ]

  send-Closes :
      (e : Env A) (out : Outgoing A) (h : DataChannelHandler)
      → Closes h.closed (send_message e out h, h)
  send-Closes e out h = omega (arith, closes-send_message e out h)

  typed-Closes :
      (e : Env A) (msg : Incoming) (o : Option String) (h : DataChannelHandler)
      → Closes h.closed (dispatch_typed e msg o h)
  unfolding dispatch_typed
  typed-Closes e msg none h = omega arith
  typed-Closes e msg (some t) h = elim (Bool-cases (str_eq t "ping")) [
    | inl ping ↦ rw ping (send-Closes e pong_message h)
    | inr a ↦ rw a (elim (Bool-cases (str_eq t "pong")) [
      | inl pong ↦ rw pong (omega arith)
      | inr b ↦ rw b (elim (Bool-cases (str_eq t "close")) [
        | inl over ↦ rw over (close-Closes h)
        | inr c ↦ rw c (
            either_branch (Closes h.closed) (str_eq t "run_command") (execute msg ∷ [], h) ([], h)
              (omega arith) (omega arith))
      ])
    ])
  ]

  dispatch-Closes :
      (e : Env A) (msg : Incoming) (h : DataChannelHandler)
      → Closes h.closed (dispatch_message e msg h)
  unfolding dispatch_message
  dispatch-Closes e msg h = typed-Closes e msg msg.chunk.msg_type h

  text-Closes :
      (e : Env A) (p : Parsed) (h : DataChannelHandler) → Closes h.closed (dispatch_text e p h)
  unfolding dispatch_text
  text-Closes e no_object h = omega arith
  text-Closes e (object msg) h = dispatch-Closes e msg h

  assembled-Closes :
      (e : Env A) (o : Outcome) (h : DataChannelHandler) → Closes h.closed (assembled e o h)
  unfolding assembled
  assembled-Closes e (raised error) h = omega arith
  assembled-Closes e (returned none) h = omega arith
  assembled-Closes e (returned (some [])) h = omega arith
  assembled-Closes e (returned (some (c ∷ s))) h = text-Closes e (e.loads (c ∷ s)) h

  parsed-Closes :
      (e : Env A) (p : Parsed) (h : DataChannelHandler) → Closes h.closed (handle_parsed e p h)
  unfolding handle_parsed
  parsed-Closes e no_object h = omega arith
  parsed-Closes e (object msg) h =
      let done = handle_chunk_message e.now msg.chunk h.chunk_reassembler in
      either_branch (Closes h.closed) (is_chunk msg.chunk.msg_type) _ _
        (omega (arith, assembled-Closes e done.0 (record h { chunk_reassembler = done.1 })))
        (omega (arith, dispatch-Closes e msg h))

  message-Closes :
      (e : Env A) (raw : Option Text) (h : DataChannelHandler)
      → Closes h.closed (handle_message e raw h)
  unfolding handle_message
  message-Closes e none h = omega arith
  message-Closes e (some raw) h =
      either_branch (Closes h.closed) h.closed ([], h) (handle_parsed e (e.loads raw) h)
        (omega arith) (parsed-Closes e (e.loads raw) h)

  ping-Closes : (e : Env A) (h : DataChannelHandler) → Closes h.closed (ping_due e h)
  unfolding ping_due
  ping-Closes e h = elim (Bool-cases (not h.closed && h.ready)) [
    | inl due ↦ rw due (omega (arith, closes-send_message e ping_message _))
    | inr idle ↦ rw idle (omega arith)
  ]

  step-Closes : (e : Env A) (s : Step A) (h : DataChannelHandler) → Closes h.closed (step e s h)
  unfolding step
  step-Closes e opened h =
      let up : DataChannelHandler = record h { ready = true } in
      omega (
        arith,
        closes-send_message e ready_message up,
        closes-append (send_message e ready_message up) (set_connected ∷ start_ping ∷ []),
      )
  step-Closes e channel_closed h = close-Closes (record h { ready = false })
  step-Closes e closing h = close-Closes h
  step-Closes e ping_wakes h = ping-Closes e h
  step-Closes e (message raw) h = message-Closes e raw h
  step-Closes e (command_answered id r) h = send-Closes e (response_to id r) h

  steps-Closes :
      (ss : List (Env A × Step A)) (h : DataChannelHandler) → Closes h.closed (steps ss h)
  unfolding steps
  steps-Closes [] h = omega arith
  steps-Closes ((e, s) ∷ ss) h = omega (
    arith,
    step-Closes e s h,
    steps-Closes ss (step e s h).1,
    closes-append (step e s h).0 (steps ss (step e s h).1).0,
  )

-- Over any sequence of steps from a new handler, messages, commands that end late, wake-ups of the
-- ping loop and closings from either side in any order: the channel is closed once if the handler is
-- closed at the end, and not at all if it is not.
pub steps-closes :
    {A : Type 0} (ss : List (Env A × Step A))
    → closes (steps ss init).0 ≡ one_if (steps ss init).1.closed
unfolding init
steps-closes ss = omega (arith, steps-Closes ss init)
