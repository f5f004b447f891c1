-- ===== src/Tests/DataChannelRuns.antt =====
-- src/controllers/webrtc_controller/data_channel/data_channel_handler.py on small inputs.
use orchestrator_agent.Prelude.{
  ◌≡◌, refl, ap, ℕ, suc, true, false, Option, none, some, List, [], ◌∷◌, ◌++◌, All, arith, length,
  replicate,
}
use orchestrator_agent.Prelude.Dict.{remove}
use orchestrator_agent.Chunking.{
  Message, ChunkReassembler, is_chunk_message, split_into_chunks, chunk_messages, ceil_div,
  chunk_payload_size,
}
use orchestrator_agent.Chunking.RoundTrip.{Decodes}
use orchestrator_agent.DataChannel.{
  DataChannelHandler, init, Incoming, Parsed, object, send_texts, touch_session, set_connected,
  start_ping, cancel_ping, close_channel, execute, Env, Step, opened, channel_closed, closing,
  message, command_answered, result, steps, dispatch_message,
}
use orchestrator_agent.DataChannel.Closing.{closes, one_if, steps-closes}
use orchestrator_agent.DataChannel.Reassembly.{carrier, arrivals, Carries, split-arrives}
use orchestrator_agent.Tests.ChunkingRuns.{
  long_message, length_long, tid, dumps, loads, long-Decodes,
}

abbrev command : Incoming
command = record {
  chunk = record {
    msg_type = some "run_command";
    transfer_id = "";
    total_chunks = none;
    total_size = none;
    sequence = none;
    payload = none;
  };
  correlation_id = none;
}

abbrev env : Env ℕ
env = record {
  is_open = true;
  sendable = 9;
  now = 7;
  now_ms = 7000;
  counter = 0;
  loads = λ _. object command;
  dumps = λ _. b'm' ∷ [];
  dumps_chunk = λ _. [];
}

-- A command is answered after the channel is closed: the answer is not sent.
abbrev run : List (Env ℕ × Step ℕ)
run =
    (env, opened)
    ∷ (env, message (some (b'x' ∷ [])))
    ∷ (env, closing)
    ∷ (env, command_answered none (result 5))
    ∷ (env, channel_closed)
    ∷ []

run_effects :
    (steps run init).0
    ≡ send_texts ((b'm' ∷ []) ∷ [])
      ∷ set_connected
      ∷ start_ping
      ∷ touch_session
      ∷ execute command
      ∷ cancel_ping
      ∷ close_channel
      ∷ []
unfolding steps init is_chunk_message
run_effects = refl

steps-closes_example : closes (steps run init).0 ≡ one_if (steps run init).1.closed
steps-closes_example = steps-closes run

abbrev over : DataChannelHandler
over = record {
  closed = true;
  ready = false;
  ping_task = false;
  chunk_reassembler = record { transfers = [] };
}

abbrev wrapped : Option Message → Parsed
wrapped none = object command
wrapped (some m) = object (carrier m)

-- The chunks of the long message decode to themselves, and the message to the command.
abbrev long_env : Env ℕ
long_env = record env { loads = λ x. wrapped (loads x); dumps_chunk = dumps }

abbrev up : DataChannelHandler
up = record over { closed = false; ready = true }

All-Carries : (ms : List Message) → All (Decodes dumps loads) ms → All (Carries long_env) ms
All-Carries [] a = tt
All-Carries (m ∷ ms) a = (ap wrapped a.0, All-Carries ms a.1)

long-command : long_env.loads long_message ≡ object command
unfolding loads
long-command = refl

split-arrives_example :
    let left : ChunkReassembler = record {
      transfers = remove tid up.chunk_reassembler.transfers;
    } in
    let done = dispatch_message long_env command (record up { chunk_reassembler = left }) in
    steps (arrivals long_env (split_into_chunks dumps 5 0 long_message).0) up ≡ (
      replicate (suc (suc (ceil_div (length long_message) chunk_payload_size))) touch_session
          ++ done.0,
      done.1,
    )
split-arrives_example =
    split-arrives long_env 5 0 long_message command up refl (rw length_long (omega arith))
      (rw length_long (omega arith)) (All-Carries (chunk_messages tid long_message) long-Decodes)
      long-command
