-- ===== src/Tests/DebugRuns.antt =====
-- src/controllers/websocket_controller/debug_session_manager.py and
-- src/use_cases/debug_client/run_debug_command.py on small inputs.
use orchestrator_agent.Prelude.{
  ◌≡◌, refl, ℕ, String, true, none, some, List, [], ◌∷◌, ◌++◌, arith, str_eq, if◌then◌else◌,
}
use orchestrator_agent.Prelude.Dict.{lookup, contains, IsDistinct}
use orchestrator_agent.Prelude.Value.{Value, int, pos}
use orchestrator_agent.Chunking.{index_below}
use orchestrator_agent.Protocol.{bytes_to_hex, hex_to_bytes, fc_debug_get_list}
use orchestrator_agent.Protocol.Command.{packs, build_get_list}
use orchestrator_agent.Protocol.ResponseLaws.{list_response}
use orchestrator_agent.DebugCommand.{
  get_list, set, info, text, DebugMessage, Sent, answer, timed_out, build, execute_command,
  debug_values_response, debug_set_response, debug_connected,
}
use orchestrator_agent.DebugCommand.Replies.{get_list_end_to_end, set_confirmed_on_garbage}
use orchestrator_agent.DebugSessions.{
  Answered, handle_start, start_around, connect, disconnect_session, disconnect_found,
  DebugSessionManager, World, Message, accepted, fresh, command_route, route,
}
use orchestrator_agent.DebugSessions.Start.{Started, start_outcome, start_race, Reaches}

abbrev ask : List Value → DebugMessage
ask indexes = record {
  indexes = some indexes;
  index = some (int (pos 3));
  force = none;
  value = some (text (b'0' ∷ b'1' ∷ []));
}

abbrev frame : List ℕ
unfolding bytes_to_hex
frame = bytes_to_hex (fc_debug_get_list ∷ 0 ∷ 1 ∷ 0 ∷ 5 ∷ [])

abbrev runtime : List ℕ → Sent
runtime _ =
    answer true none (some (bytes_to_hex (list_response fc_debug_get_list 5 9 (1 ∷ 2 ∷ []))))

frame_built : build_get_list (int (pos 5) ∷ []) ≡ packs frame
unfolding build_get_list
frame_built = refl

get_list_end_to_end_example :
    execute_command get_list (ask (int (pos 5) ∷ [])) runtime
    ≡ debug_values_response 9 (bytes_to_hex (1 ∷ 2 ∷ []))
get_list_end_to_end_example =
    get_list_end_to_end (ask (int (pos 5) ∷ [])) (int (pos 5)) [] frame runtime none 5 9
      (1 ∷ 2 ∷ []) refl frame_built refl (omega arith) (omega arith) (omega arith)
      (omega arith, (omega arith, tt))

abbrev silent : List ℕ → Sent
silent _ = timed_out "no answer"

abbrev noise : List ℕ → Sent
noise _ = answer true none (some (b'z' ∷ b'z' ∷ []))

set_built : (build set (ask [])).0 ≡ none
unfolding build index_below hex_to_bytes
set_built = refl

noise_no_hex : hex_to_bytes (b'z' ∷ b'z' ∷ []) ≡ none
unfolding hex_to_bytes
noise_no_hex = refl

set_confirmed_on_garbage_example : execute_command set (ask []) noise ≡ debug_set_response
set_confirmed_on_garbage_example =
    set_confirmed_on_garbage (ask []) noise none (b'z' ∷ b'z' ∷ []) set_built refl noise_no_hex

abbrev world : World
world = record {
  get_client = λ id. if str_eq id "plc" then some "172.17.0.2" else none;
  login = λ ip port user password. accepted (some "token");
  connect_raises = λ socket ip port token. none;
  send_command = λ socket. runtime;
}

abbrev message : String → Message
message t = record {
  type_name = t;
  username = none;
  password = none;
  port = none;
  command = ask [];
}

abbrev one : DebugSessionManager
one = record {
  sessions = ("plc", fresh 1 4) ∷ ("drive", fresh 300000000 6) ∷ [];
  cleanup_task = true;
}

abbrev waits : DebugSessionManager → DebugSessionManager
waits before = before

start_outcome_example :
    Started waits world 9 5 "plc"
      (message "debug_start")
      one
      (start_around waits world 9 5 "plc" (message "debug_start") one)
start_outcome_example = start_outcome waits world 9 5 "plc" (message "debug_start") one

plc-Reaches : (socket : ℕ) → Reaches world socket "plc" (message "debug_start")
plc-Reaches socket = ("172.17.0.2", "token", refl, refl, refl, refl)

abbrev second : Answered
second = handle_start world 8 7 "plc" (message "debug_start") (disconnect_session "plc" one).1

abbrev first : Answered
first =
    start_around (λ before. (handle_start world 8 7 "plc" (message "debug_start") before).1.1) world
      9 5 "plc" (message "debug_start") one

start_race_example :
    (second.0 ≡ debug_connected)
    × (second.1.0 ≡ connect 7 ∷ [])
    × (first.0 ≡ debug_connected)
    × (first.1.0 ≡ disconnect_found (lookup "plc" one.sessions) ++ connect 5 ∷ [])
    × (lookup "plc" first.1.1.sessions ≡ some (fresh 9 5))
start_race_example =
    start_race world 9 5 8 7 "plc" (message "debug_start") one (plc-Reaches 5) (plc-Reaches 7)

info_routed : route "debug_info" ≡ command_route info
unfolding route
info_routed = refl

abbrev for_drive : List (ℕ × (ℕ × (String × Message)))
for_drive = (9, (5, ("drive", message "debug_start"))) ∷ []

one-IsDistinct : IsDistinct one.sessions
unfolding contains
one-IsDistinct = (refl, (refl, tt))
