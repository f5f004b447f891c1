-- ===== src/DebugCommand.antt =====
-- src/use_cases/debug_client/run_debug_command.py, and `_execute_command` of
-- src/controllers/websocket_controller/debug_session_manager.py, which calls it for the browser.
-- The runtime's socket is a function from the command sent to what `send_command` gives or raises.
pub mod Replies
use orchestrator_agent.Prelude.{
  ℕ, String, Bool, true, false, Option, none, some, List, [], ◌∷◌, if◌then◌else◌, length, ◌==◌,
}
use orchestrator_agent.Prelude.Value.{Value, pos}
use orchestrator_agent.Chunking.{index_below}
use orchestrator_agent.Protocol.{
  StatusName, success, error_out_of_bounds, error_out_of_memory, unknown_status, hex_to_bytes,
}
use orchestrator_agent.Protocol.Command.{
  BuildError, Packing, packs, raises, build_get_md5, build_get_info, build_get_list,
  build_set_variable,
}
use orchestrator_agent.Protocol.Response.{Response, parse_response}

-- The `command_type` of a message that is routed here.
pub data CommandType : Type 0 where
  get_md5 get_list set info : CommandType

-- `"value"` of a message: a text, as its code points, or a value of another type.
pub data HexValue : Type 0 where
  text : List ℕ → HexValue
  no_text : HexValue

-- The fields that a command reads; a missing one is `none`. `indexes` is an array; `force` is kept
-- by its truth, all that is used of it.
pub record DebugMessage : Type 0 where
  pub indexes : Option (List Value)
  pub index : Option Value
  pub force : Option Bool
  pub value : Option HexValue

-- What `send_command` does: the answer's `success`, `error` and `data`, or an exception.
pub data Sent : Type 0 where
  answer : Bool → Option String → Option (List ℕ) → Sent
  timed_out raised : String → Sent

-- The `"error"` of a result.
pub data CommandError : Type 0 where
  empty_indexes invalid_index invalid_value unknown_runtime_error : CommandError
  build_failed : BuildError → CommandError
  runtime_error timeout exception : String → CommandError
  bad_status : StatusName → CommandError
  no_session : CommandError
  unknown_type : String → CommandError
  device_not_found no_token : CommandError
  auth_failed : Option ℕ → CommandError

pub data Outcome : Type 0 where
  done : Response → Outcome
  failed : CommandError → Outcome

abbrev pub or_default : {A : Type 0} → A → Option A → A
or_default d none = d
or_default d (some a) = a

abbrev pub built : Packing (List ℕ) → Option CommandError × List ℕ
built (packs hex) = (none, hex)
built (raises e) = (some (build_failed e), [])

unfoldable pub build_list : List Value → Option CommandError × List ℕ
unfolding build_get_list
build_list [] = (some empty_indexes, [])
build_list (v ∷ vs) = built (build_get_list (v ∷ vs))

-- `index is None or not isinstance(index, int) or not (0 <= index <= 65535)`
abbrev valid_index : Option Value → Option ℕ
valid_index none = none
valid_index (some v) = index_below 65536 v

abbrev value_bytes : HexValue → Option (List ℕ)
value_bytes (text hex) = hex_to_bytes hex
value_bytes no_text = none

unfoldable build_set : Option ℕ → Bool → Option (List ℕ) → Option CommandError × List ℕ
unfolding build_set_variable
build_set none force bytes = (some invalid_index, [])
build_set (some i) force none = (some invalid_value, [])
build_set (some i) force (some bytes) = built (build_set_variable (pos i) force bytes)

-- The command for a message, or why there is none.
unfoldable pub build : CommandType → DebugMessage → Option CommandError × List ℕ
unfolding build_list build_set build_get_md5 build_get_info
build get_md5 msg = (none, build_get_md5)
build info msg = (none, build_get_info)
build get_list msg = build_list (or_default [] msg.indexes)
build set msg =
    build_set (valid_index msg.index) (or_default true msg.force)
      (value_bytes (or_default (text (b'0' ∷ b'0' ∷ [])) msg.value))

-- What the runtime's answer comes to.
unfoldable pub read_answer : Sent → Outcome
unfolding parse_response
read_answer (answer true error data') = done (parse_response (or_default [] data'))
read_answer (answer false none data') = failed unknown_runtime_error
read_answer (answer false (some error) data') = failed (runtime_error error)
read_answer (timed_out message) = failed (timeout message)
read_answer (raised message) = failed (exception message)

unfoldable pub send_built : (List ℕ → Sent) → Option CommandError × List ℕ → Outcome
unfolding read_answer
send_built send (some e, hex) = failed e
send_built send (none, hex) = read_answer (send hex)

unfoldable pub run_debug_command : CommandType → DebugMessage → (List ℕ → Sent) → Outcome
unfolding send_built build
run_debug_command c msg send = send_built send (build c msg)

-- The messages for the browser.
pub data Reply : Type 0 where
  debug_error : CommandError → Reply
  debug_md5_response : List ℕ → Reply
  debug_values_response : ℕ → List ℕ → Reply
  debug_set_response debug_connected debug_disconnected : Reply
  debug_info_response : ℕ → Reply

abbrev reply_data : CommandType → Response → Reply
reply_data get_md5 r = debug_md5_response (or_default [] r.md5)
reply_data get_list r =
    debug_values_response (or_default 0 r.tick) (or_default [] r.variable_data_hex)
reply_data set r = debug_set_response
reply_data info r = debug_info_response (or_default 0 r.variable_count)

-- `if sname and sname != "SUCCESS"`
unfoldable pub reply_status : CommandType → Response → Option StatusName → Reply
reply_status c r none = reply_data c r
reply_status c r (some success) = reply_data c r
reply_status c r (some bad) = debug_error (bad_status bad)

unfoldable pub reply_to : CommandType → Outcome → Reply
unfolding reply_status
reply_to c (failed e) = debug_error e
reply_to c (done r) = reply_status c r r.status_text

unfoldable pub execute_command : CommandType → DebugMessage → (List ℕ → Sent) → Reply
unfolding reply_to run_debug_command
execute_command c msg send = reply_to c (run_debug_command c msg send)
