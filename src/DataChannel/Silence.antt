-- ===== src/DataChannel/Silence.antt =====
-- What a closed data channel still does, in
-- src/controllers/webrtc_controller/data_channel/data_channel_handler.py.
use orchestrator_agent.Prelude.{
  ◌≡◌, refl, Bool, true, false, Option, none, some, List, [], ◌∷◌, ◌++◌, if◌then◌else◌, arith, All,
}
use orchestrator_agent.Chunking.{Text}
use orchestrator_agent.DataChannel.{
  DataChannelHandler, Outgoing, ready_message, Effect, send_texts, touch_session, set_connected,
  start_ping, cancel_ping, close_channel, execute, Env, send_message, close, handle_message,
  ping_due, Step, opened, channel_closed, closing, ping_wakes, message, command_answered,
  response_to, step, steps,
}

-- What the event of an opened channel does beside sending.
abbrev pub IsOpening : Effect → Type 0
IsOpening set_connected = Unit
IsOpening start_ping = Unit
IsOpening (send_texts l) = ⊥
IsOpening touch_session = ⊥
IsOpening cancel_ping = ⊥
IsOpening close_channel = ⊥
IsOpening (execute msg) = ⊥

abbrev IsSilent : List Effect × DataChannelHandler → Type 0
IsSilent done = (done.1.closed ≡ true) × All IsOpening done.0

All-append : (xs ys : List Effect) → All IsOpening xs → All IsOpening ys → All IsOpening (xs ++ ys)
All-append [] ys a b = b
All-append (x ∷ xs) ys a b = (a.0, All-append xs ys a.1 b)

-- The branch that a closed handler takes.
kept-IsSilent :
    (b : Bool) (h : DataChannelHandler) (y : List Effect × DataChannelHandler)
    → b ≡ true
    → h.closed ≡ true
    → IsSilent (if b then ([], h) else y)
kept-IsSilent true h y e over = (over, tt)
kept-IsSilent false h y e over = absurd (ground arith)

close-IsSilent : (h : DataChannelHandler) → h.closed ≡ true → IsSilent (close h)
unfolding close
close-IsSilent h over = kept-IsSilent h.closed h _ over over

module _ {A : Type 0} where
  All-send_message :
      (e : Env A) (out : Outgoing A) (h : DataChannelHandler)
      → h.closed ≡ true
      → All IsOpening (send_message e out h)
  unfolding send_message
  All-send_message e out h over = rw over tt

  message-IsSilent :
      (e : Env A) (raw : Option Text) (h : DataChannelHandler)
      → h.closed ≡ true
      → IsSilent (handle_message e raw h)
  unfolding handle_message
  message-IsSilent e none h over = (over, tt)
  message-IsSilent e (some raw) h over = kept-IsSilent h.closed h _ over over

  ping-IsSilent : (e : Env A) (h : DataChannelHandler) → h.closed ≡ true → IsSilent (ping_due e h)
  unfolding ping_due
  ping-IsSilent e h over = rw over (refl, tt)

  step-IsSilent :
      (e : Env A) (s : Step A) (h : DataChannelHandler) → h.closed ≡ true → IsSilent (step e s h)
  unfolding step
  step-IsSilent e opened h over =
      let up : DataChannelHandler = record h { ready = true } in
      (
        over,
        All-append (send_message e ready_message up) (set_connected ∷ start_ping ∷ [])
            (All-send_message e ready_message up over) (tt, (tt, tt)),
      )
  step-IsSilent e channel_closed h over = close-IsSilent (record h { ready = false }) over
  step-IsSilent e closing h over = close-IsSilent h over
  step-IsSilent e ping_wakes h over = ping-IsSilent e h over
  step-IsSilent e (message raw) h over = message-IsSilent e raw h over
  step-IsSilent e (command_answered id r) h over =
      (over, All-send_message e (response_to id r) h over)

  -- Once the handler is closed, whatever steps come, it stays closed, nothing is sent, no command is
  -- run and the channel is not closed again; only an "open" event that comes late still reports the
  -- session as connected and starts a ping task.
  pub steps-IsOpening :
      (ss : List (Env A × Step A)) (h : DataChannelHandler)
      → h.closed ≡ true
      → ((steps ss h).1.closed ≡ true) × All IsOpening (steps ss h).0
  unfolding steps
  steps-IsOpening [] h over = (over, tt)
  steps-IsOpening ((e, s) ∷ ss) h over =
      let one = step-IsSilent e s h over in
      let rest = steps-IsOpening ss (step e s h).1 one.0 in
      (rest.0, All-append (step e s h).0 (steps ss (step e s h).1).0 one.1 rest.1)
