-- ===== src/Tests/DebugChannelRuns.antt =====
-- src/controllers/webrtc_controller/data_channel/debug_channel_handler.py on small inputs.
use orchestrator_agent.Prelude.{
  ◌≡◌, refl, ◌+◌, ◌≤◌, Bool, true, false, none, if◌then◌else◌, some, List, [], ◌∷◌, All,
}
use orchestrator_agent.DebugCommand.{get_md5}
use orchestrator_agent.DebugSessions.{Message, accepted, connect}
use orchestrator_agent.DebugChannel.{
  DebugChannelHandler, init, socket, object, Step, opened, closing, message, login_answered,
  connect_answered, lock_had, run, steps, step,
}
use orchestrator_agent.DebugChannel.Closed.{IsLate, runs, steps-closed}
use orchestrator_agent.DebugChannel.Counts.{disconnects, one_if_held}
use orchestrator_agent.DebugChannel.Sockets.{steps-disconnects}

abbrev start_message : Message
start_message = record {
  type_name = "debug_start";
  username = none;
  password = none;
  port = none;
  command = record { indexes = none; index = none; force = none; value = none };
}

abbrev ask : Bool × Step
ask = (true, message (object start_message) (some "172.18.0.2"))

-- Two sessions one after the other, and the channel's end.
abbrev orderly : List (Bool × Step)
orderly =
    (true, opened)
    ∷ ask
    ∷ (true, login_answered 1 (accepted (some "token")))
    ∷ (true, connect_answered 1 none)
    ∷ ask
    ∷ (true, login_answered 2 (accepted (some "token")))
    ∷ (true, connect_answered 2 none)
    ∷ (true, closing)
    ∷ []

steps-disconnects_example :
    (disconnects (steps orderly init).0 + one_if_held (steps orderly init).1.debug_socket ≡ 2)
    × ((if (steps orderly init).1.closed
          then one_if_held (steps orderly init).1.debug_socket
          else 0)
        ≡ 0)
unfolding init step
steps-disconnects_example =
    steps-disconnects orderly (refl, (refl, (refl, (refl, (refl, (refl, (refl, (refl, tt))))))))

-- The channel is closed while a start waits for its connection, and a command for the lock: the socket
-- is never disconnected, and the command is run on it.
abbrev over : DebugChannelHandler
over = record {
  closed = true;
  connected = false;
  debug_socket = none;
  locked = false;
  waiting = (get_md5, start_message.command) ∷ [];
}

abbrev late : List (Bool × Step)
late =
    (true, login_answered 3 (accepted (some "token")))
    ∷ (true, connect_answered 3 none)
    ∷ (true, closing)
    ∷ (true, lock_had)
    ∷ []

steps-closed_example :
    ((steps late over).1.closed ≡ true)
    × All IsLate (steps late over).0
    × (runs (steps late over).0 ≤ 1)
steps-closed_example = steps-closed late over refl

leak :
    (steps late over ≡ (
      socket (connect 3) ∷ run get_md5 start_message.command 3 ∷ [],
      record over { connected = true; debug_socket = some 3; locked = true; waiting = [] },
    ))
unfolding steps
leak = refl
