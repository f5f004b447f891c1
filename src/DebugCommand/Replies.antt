-- ===== src/DebugCommand/Replies.antt =====
-- What a debug command comes to, from the browser's message over the runtime's answer to the reply.
use orchestrator_agent.Prelude.{
  ◌≡◌, refl, sym, ap, ◌∙◌, inr, ℕ, ◌^◌, ◌<◌, String, true, Option, none, some, List, ◌∷◌, All,
  length,
}
use orchestrator_agent.Prelude.Value.{Value}
use orchestrator_agent.Protocol.{IsByte, bytes_to_hex, hex_to_bytes, fc_debug_get_list, status_name}
use orchestrator_agent.Protocol.Command.{packs, build_get_list}
use orchestrator_agent.Protocol.Response.{parse_response, parse_bytes}
use orchestrator_agent.Protocol.ResponseLaws.{list_response, parse_list_response}
use orchestrator_agent.DebugCommand.{
  CommandType, get_list, set, DebugMessage, Sent, answer, CommandError, failed, run_debug_command,
  send_built, build, build_list, read_answer, reply_to, reply_status, execute_command, debug_error,
  debug_values_response, debug_set_response,
}

-- A list command whose indexes build a frame gives the browser the tick and the values' hex of any
-- well-formed answer that the runtime makes to that frame.
pub get_list_end_to_end :
    (msg : DebugMessage) (v : Value) (vs : List Value) (frame : List ℕ) (send : List ℕ → Sent)
    (error : Option String) (last_index tick : ℕ) (values : List ℕ)
    → msg.indexes ≡ some (v ∷ vs)
    → build_get_list (v ∷ vs) ≡ packs frame
    → send frame
      ≡ answer true error
          (some (bytes_to_hex (list_response fc_debug_get_list last_index tick values)))
    → last_index < 65536
    → tick < 2 ^ 32
    → length values < 65536
    → All IsByte values
    → execute_command get_list msg send ≡ debug_values_response tick (bytes_to_hex values)
unfolding execute_command run_debug_command build build_list send_built read_answer reply_to
    reply_status status_name
get_list_end_to_end msg v vs frame send error last_index tick values asked built answered a b c h =
    rw
      (
        asked,
        built,
        answered,
        parse_list_response fc_debug_get_list last_index tick values (inr refl) a b c h,
      )
      refl

send_failed :
    (send : List ℕ → Sent) (b : Option CommandError × List ℕ) (e : CommandError)
    → b.0 ≡ some e
    → send_built send b ≡ failed e
unfolding send_built
send_failed send (o, hex) e h = rw h refl

send_answered :
    (send : List ℕ → Sent) (b : Option CommandError × List ℕ)
    → b.0 ≡ none
    → send_built send b ≡ read_answer (send b.1)
unfolding send_built
send_answered send (o, hex) h = rw h refl

parse_garbage :
    (garbage : List ℕ) → hex_to_bytes garbage ≡ none → (parse_response garbage).status_text ≡ none
unfolding parse_response parse_bytes
parse_garbage garbage bad = rw bad refl

-- A command that is not built never reaches the socket: the result is the same whatever the socket
-- does, and it is an error.
unbuilt_not_sent :
    (c : CommandType) (msg : DebugMessage) (e : CommandError) (send other : List ℕ → Sent)
    → (build c msg).0 ≡ some e
    → (execute_command c msg send ≡ execute_command c msg other)
      × (execute_command c msg send ≡ debug_error e)
unfolding execute_command run_debug_command reply_to
unbuilt_not_sent c msg e send other h =
    let stopped = λ (s : List ℕ → Sent). send_failed s (build c msg) e h in
    (ap (reply_to c) (stopped send ∙ sym (stopped other)), ap (reply_to c) (stopped send))

-- A set command is confirmed as a success when the runtime's answer is not even hex: the parser's
-- error is not looked at, only its status, and there is none.
pub set_confirmed_on_garbage :
    (msg : DebugMessage) (send : List ℕ → Sent) (error : Option String) (garbage : List ℕ)
    → (build set msg).0 ≡ none
    → send (build set msg).1 ≡ answer true error (some garbage)
    → hex_to_bytes garbage ≡ none
    → execute_command set msg send ≡ debug_set_response
unfolding execute_command run_debug_command reply_to reply_status read_answer
set_confirmed_on_garbage msg send error garbage built answered bad =
    rw (send_answered send (build set msg) built, answered, parse_garbage garbage bad) refl
