-- ===== src/DebugChannel/Counts.antt =====
-- The sockets that steps of
-- src/controllers/webrtc_controller/data_channel/debug_channel_handler.py connect and disconnect,
-- counted.
use orchestrator_agent.Prelude.{
  ◌≡◌, refl, ℕ, ◌+◌, Bool, true, false, Option, none, some, List, [], ◌∷◌, ◌++◌, not, ◌&&◌, arith,
  Bool-cases, inl, inr,
}
use orchestrator_agent.DebugSessions.{connect, disconnect}
use orchestrator_agent.DebugChannel.{
  DebugChannelHandler, Effect, send_ready, touch_session, close_channel, send_invalid_json, send,
  socket, request_login, run, send_message, Step, opened, closing, message, login_answered,
  connect_answered, command_answered, lock_had, step,
}

abbrev pub one_if_held : Option ℕ → ℕ
one_if_held none = 0
one_if_held (some s) = 1

abbrev pub is_disconnect : Effect → ℕ
is_disconnect (socket (disconnect s)) = 1
is_disconnect (socket (connect s)) = 0
is_disconnect send_ready = 0
is_disconnect touch_session = 0
is_disconnect close_channel = 0
is_disconnect (send_invalid_json e) = 0
is_disconnect (send r) = 0
is_disconnect (request_login ip port u p) = 0
is_disconnect (run c m s) = 0

abbrev pub disconnects : List Effect → ℕ
disconnects [] = 0
disconnects (e ∷ l) = is_disconnect e + disconnects l

-- The sockets that a step says were connected.
abbrev pub opens : Step → ℕ
opens (connect_answered s none) = 1
opens (connect_answered s (some e)) = 0
opens opened = 0
opens closing = 0
opens (message p ip) = 0
opens (login_answered s l) = 0
opens (command_answered c m r) = 0
opens lock_had = 0

abbrev pub all_opens : List (Bool × Step) → ℕ
all_opens [] = 0
all_opens ((is_open, s) ∷ ss) = opens s + all_opens ss

-- The handler that a connected socket finds is not closed and holds none.
abbrev pub is_free : Option ℕ → Bool → Bool
is_free none false = true
is_free none true = false
is_free (some s) closed = false

abbrev pub in_order : Step → DebugChannelHandler → Bool
in_order (connect_answered s none) h = is_free h.debug_socket h.closed
in_order (connect_answered s (some e)) h = true
in_order opened h = true
in_order closing h = true
in_order (message p ip) h = true
in_order (login_answered s l) h = true
in_order (command_answered c m r) h = true
in_order lock_had h = true

abbrev pub InOrder : List (Bool × Step) → DebugChannelHandler → Type 0
InOrder [] h = Unit
InOrder ((is_open, s) ∷ ss) h = (in_order s h ≡ true) × InOrder ss (step is_open s h).1

pub disconnects-append :
    (xs ys : List Effect) → disconnects (xs ++ ys) ≡ disconnects xs + disconnects ys
disconnects-append [] ys = omega arith
disconnects-append (x ∷ xs) ys = omega (arith, disconnects-append xs ys)

-- The send of a text changes no count.
pub disconnects-send_message :
    (is_open : Bool) (text : Effect) (h : DebugChannelHandler)
    → is_disconnect text ≡ 0
    → disconnects (send_message is_open text h) ≡ 0
unfolding send_message
disconnects-send_message is_open text h quiet = elim (Bool-cases (not h.closed && is_open)) [
  | inl sent ↦ rw sent (omega (arith, quiet))
  | inr kept ↦ rw kept refl
]
