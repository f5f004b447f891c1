-- ===== src/DataChannel.antt =====
-- src/controllers/webrtc_controller/data_channel/data_channel_handler.py: the data channel that
-- carries the browser's commands. Every `await` ends a step: what another task may do in between is
-- another step. `Result` is what `execute_for_device` gives.
pub mod Closing
pub mod Silence
pub mod Reassembly
use orchestrator_agent.Prelude.{
  ℕ, String, Bool, true, false, not, ◌&&◌, Option, none, some, List, [], ◌∷◌, ◌++◌, if◌then◌else◌,
  str_eq, take,
}
use orchestrator_agent.Prelude.Value.{Value}
use orchestrator_agent.Chunking.{
  Text, Message, ChunkReassembler, Outcome, returned, raised, is_chunk_message,
  handle_chunk_message, cleanup_stale, stale_transfer_timeout, split_into_chunks,
}

pub record DataChannelHandler : Type 0 where
  pub closed : Bool
  pub ready : Bool
  pub ping_task : Bool
  pub chunk_reassembler : ChunkReassembler

unfoldable pub init : DataChannelHandler
init = record {
  closed = false;
  ready = false;
  ping_task = false;
  chunk_reassembler = record { transfers = [] };
}

-- A decoded message: the fields of the chunk protocol with its type, and the id of a command.
pub record Incoming : Type 0 where
  pub chunk : Message
  pub correlation_id : Option Value

-- What `json.loads` makes of a text: an object, or no JSON or a value that has no `get`.
pub data Parsed : Type 0 where
  object : Incoming → Parsed
  no_object : Parsed

-- A message to the browser; `A` is what `execute_for_device` gives.
pub data Outgoing (A : Type 0) : Type 0 where
  ready_message ping_message pong_message : Outgoing A
  command_response : Option Value → A → Outgoing A
  command_failed : Option Value → String → Outgoing A

-- What a step does to the outside: texts sent on the channel, calls of the session manager, the
-- ping task, the channel, and `execute_for_device` in a thread of its own.
pub data Effect : Type 0 where
  send_texts : List Text → Effect
  touch_session set_connected start_ping cancel_ping close_channel : Effect
  execute : Incoming → Effect

-- What a step meets: whether the channel is open and how many texts it takes before its `send`
-- raises; the clock in seconds and in milliseconds, and the counter of the chunk protocol; the JSON
-- decoder and encoder.
pub record Env (A : Type 0) : Type 0 where
  pub is_open : Bool
  pub sendable : ℕ
  pub now : ℕ
  pub now_ms : ℕ
  pub counter : ℕ
  pub loads : Text → Parsed
  pub dumps : Outgoing A → Text
  pub dumps_chunk : Message → Text

abbrev pub Stepped : Type 0
Stepped = List Effect × DataChannelHandler

unfoldable pub send_message : {A : Type 0} → Env A → Outgoing A → DataChannelHandler → List Effect
unfolding split_into_chunks
send_message e out h =
    if not h.closed && e.is_open
    then send_texts
        (take e.sendable (split_into_chunks e.dumps_chunk e.now_ms e.counter (e.dumps out)).0)
      ∷ []
    else []

abbrev pub cancelled : Bool → List Effect
cancelled true = cancel_ping ∷ close_channel ∷ []
cancelled false = close_channel ∷ []

unfoldable pub close : DataChannelHandler → Stepped
close h =
    if h.closed
    then ([], h)
    else (cancelled h.ping_task, record h { closed = true; ready = false; ping_task = false })

unfoldable pub dispatch_typed :
    {A : Type 0} → Env A → Incoming → Option String → DataChannelHandler → Stepped
unfolding send_message close
dispatch_typed e msg none h = ([], h)
dispatch_typed e msg (some t) h =
    if str_eq t "ping"
    then (send_message e pong_message h, h)
    else if str_eq t "pong"
    then ([], h)
    else if str_eq t "close"
    then close h
    else if str_eq t "run_command"
    then (execute msg ∷ [], h)
    else ([], h)

-- `_dispatch_message`; a command goes on in the step `command_answered`.
unfoldable pub dispatch_message : {A : Type 0} → Env A → Incoming → DataChannelHandler → Stepped
unfolding dispatch_typed
dispatch_message e msg h = dispatch_typed e msg msg.chunk.msg_type h

-- A message that was put together from chunks. The test is `if assembled`.
unfoldable pub dispatch_text : {A : Type 0} → Env A → Parsed → DataChannelHandler → Stepped
unfolding dispatch_message
dispatch_text e no_object h = ([], h)
dispatch_text e (object msg) h = dispatch_message e msg h

unfoldable pub assembled : {A : Type 0} → Env A → Outcome → DataChannelHandler → Stepped
unfolding dispatch_text
assembled e (raised error) h = ([], h)
assembled e (returned none) h = ([], h)
assembled e (returned (some [])) h = ([], h)
assembled e (returned (some (c ∷ s))) h = dispatch_text e (e.loads (c ∷ s)) h

abbrev pub is_chunk : Option String → Bool
is_chunk none = false
is_chunk (some t) = is_chunk_message t

unfoldable pub handle_parsed : {A : Type 0} → Env A → Parsed → DataChannelHandler → Stepped
unfolding assembled dispatch_message handle_chunk_message
handle_parsed e no_object h = ([], h)
handle_parsed e (object msg) h =
    let done = handle_chunk_message e.now msg.chunk h.chunk_reassembler in
    let put = assembled e done.0 (record h { chunk_reassembler = done.1 }) in
    let whole = dispatch_message e msg h in
    if is_chunk msg.chunk.msg_type
    then (touch_session ∷ put.0, put.1)
    else (touch_session ∷ whole.0, whole.1)

-- `_handle_message`; bytes that are no UTF-8 are `none`. What is raised is logged.
unfoldable pub handle_message : {A : Type 0} → Env A → Option Text → DataChannelHandler → Stepped
unfolding handle_parsed
handle_message e none h = ([], h)
handle_message e (some raw) h = if h.closed then ([], h) else handle_parsed e (e.loads raw) h

-- The `ping_loop` after its sleep.
unfoldable pub ping_due : {A : Type 0} → Env A → DataChannelHandler → Stepped
unfolding send_message cleanup_stale
ping_due e h =
    let swept = record h {
      chunk_reassembler = cleanup_stale e.now stale_transfer_timeout h.chunk_reassembler;
    } in
    if not h.closed && h.ready then (send_message e ping_message swept, swept) else ([], swept)

-- What `execute_for_device` gave or raised.
pub data Executed (A : Type 0) : Type 0 where
  result : A → Executed A
  execute_raises : String → Executed A

pub data Step (A : Type 0) : Type 0 where
  opened channel_closed closing ping_wakes : Step A
  message : Option Text → Step A
  command_answered : Option Value → Executed A → Step A

abbrev pub response_to : {A : Type 0} → Option Value → Executed A → Outgoing A
response_to id (result r) = command_response id r
response_to id (execute_raises e) = command_failed id e

unfoldable pub step : {A : Type 0} → Env A → Step A → DataChannelHandler → Stepped
unfolding send_message close handle_message ping_due
step e opened h =
    let up = record h { ready = true } in
    let sent = send_message e ready_message up in
    (sent ++ set_connected ∷ start_ping ∷ [], record up { ping_task = true })
step e channel_closed h = close (record h { ready = false })
step e closing h = close h
step e ping_wakes h = ping_due e h
step e (message raw) h = handle_message e raw h
step e (command_answered id r) h = (send_message e (response_to id r) h, h)

unfoldable pub steps : {A : Type 0} → List (Env A × Step A) → DataChannelHandler → Stepped
unfolding step
steps [] h = ([], h)
steps ((e, s) ∷ ss) h =
    let one = step e s h in let rest = steps ss one.1 in (one.0 ++ rest.0, rest.1)
