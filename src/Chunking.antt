-- ===== src/Chunking.antt =====
-- src/tools/chunking.py: the chunk protocol's sender and receiver. A text is the list of its code
-- points. The JSON encoder is an argument, since the source only calls it.
pub mod Slots
pub mod Branches
pub mod Bounds
pub mod Accuracy
pub mod RoundTrip
pub mod Cleanup
use Prim.Native.String.{◌++◌ as join_text}
use mathlib.Core.Option
use orchestrator_agent.Prelude.{
  ℕ, zero, suc, ◌+◌, ◌-◌, ◌*◌, ◌/◌, ◌%◌, String, Bool, true, false, ◌||◌, Option, none, some, List,
  [], ◌∷◌, ◌++◌, ltb, leb, ◌==◌, if◌then◌else◌, length, get_elem?, set, take, drop, replicate,
  str_eq, select,
}
use orchestrator_agent.Prelude.Dict.{Dict, lookup, insert, remove}
use orchestrator_agent.Prelude.Decimal.{decimal}
use orchestrator_agent.Prelude.Sweep.{keys_where, remove_all}
use orchestrator_agent.Prelude.Value.{ℤ, pos, negsuc, Value, bool, int}

abbrev pub Text : Type 0
Text = List ℕ

abbrev pub chunk_threshold : ℕ
chunk_threshold = 15000

abbrev pub chunk_payload_size : ℕ
chunk_payload_size = 14000

abbrev pub stale_transfer_timeout : ℕ
stale_transfer_timeout = 60

abbrev pub max_total_chunks : ℕ
max_total_chunks = 10000

abbrev pub max_total_size : ℕ
max_total_size = 100000000

-- What a chunk's slot holds: `None`, a text, or a JSON value that is no text.
pub data Slot : Type 0 where
  empty : Slot
  text : Text → Slot
  other : Slot

-- A decoded message. `none` is a missing key; the `data` of a message is JSON's null as `empty`.
pub record Message : Type 0 where
  pub msg_type : Option String
  pub transfer_id : String
  pub total_chunks : Option Value
  pub total_size : Option Value
  pub sequence : Option Value
  pub payload : Option Slot

pub record Transfer : Type 0 where
  pub chunks : List Slot
  pub received : ℕ
  pub total_chunks : ℕ
  pub total_size : ℕ
  pub started_at : ℕ

pub record ChunkReassembler : Type 0 where
  pub transfers : Dict Transfer

unfoldable pub init : ChunkReassembler
init = record { transfers = [] }

pub data Error : Type 0 where
  key_error type_error : Error

-- What a call gives back: the assembled text or `None`, or an exception.
pub data Outcome : Type 0 where
  returned : Option Text → Outcome
  raised : Error → Outcome

-- The value of a number that `isinstance(v, int)` accepts: a bool is an `int` to Python.
unfoldable pub as_int : Value → Option ℤ
as_int (int n) = some n
as_int (bool true) = some (pos 1)
as_int (bool false) = some (pos 0)
as_int _ = none

-- `isinstance(v, int) and 0 < v <= limit`, the number kept.
unfoldable pub positive_at_most : ℕ → Value → Option ℕ
unfolding as_int
positive_at_most limit v = elim (as_int v) [
  | none ↦ none
  | some (negsuc n) ↦ none
  | some (pos n) ↦ if n == 0 || ltb limit n then none else some n
]

-- `isinstance(v, int) and 0 <= v < total`, the number kept.
unfoldable pub index_below : ℕ → Value → Option ℕ
unfolding as_int
index_below total v = elim (as_int v) [
  | none ↦ none
  | some (negsuc n) ↦ none
  | some (pos n) ↦ if ltb n total then some n else none
]

unfoldable pub is_chunk_message : String → Bool
is_chunk_message t = str_eq t "chunk_start" || (str_eq t "chunk_data" || str_eq t "chunk_end")

abbrev pub or_zero : Option Value → Value
or_zero none = int (pos 0)
or_zero (some v) = v

abbrev pub new_transfer : ℕ → ℕ → ℕ → Transfer
new_transfer now n size = record {
  chunks = replicate n empty;
  received = 0;
  total_chunks = n;
  total_size = size;
  started_at = now;
}

-- The branch of `chunk_start`, by what the two bounds tests keep.
unfoldable pub start_checked :
    ℕ → String → Option ℕ → Option ℕ → ChunkReassembler → Outcome × ChunkReassembler
start_checked now tid (some n) (some size) r =
    (returned none, record r { transfers = insert tid (new_transfer now n size) r.transfers })
start_checked now tid _ _ r = (returned none, r)

unfoldable pub start : ℕ → Message → ChunkReassembler → Outcome × ChunkReassembler
unfolding positive_at_most start_checked
start now m r =
    start_checked now m.transfer_id (positive_at_most max_total_chunks (or_zero m.total_chunks))
      (positive_at_most max_total_size (or_zero m.total_size)) r

abbrev pub is_empty : Option Slot → Bool
is_empty (some empty) = true
is_empty _ = false

-- `received` counts a slot that still holds `None`.
unfoldable pub count_chunk : Transfer → ℕ → Transfer
count_chunk t i = record t {
  received = if is_empty (get_elem? t.chunks i) then t.received + 1 else t.received;
}

unfoldable pub store_chunk : Transfer → ℕ → Slot → Transfer
unfolding count_chunk
store_chunk t i s = record (count_chunk t i) { chunks = set t.chunks i s }

-- The counter is raised before the data is read, so a message without data leaves it raised.
unfoldable pub put_chunk :
    String → Transfer → ℕ → Option Slot → ChunkReassembler → Outcome × ChunkReassembler
unfolding count_chunk store_chunk
put_chunk tid t i none r =
    (raised key_error, record r { transfers = insert tid (count_chunk t i) r.transfers })
put_chunk tid t i (some s) r =
    (returned none, record r { transfers = insert tid (store_chunk t i s) r.transfers })

unfoldable pub put_at :
    Message → Transfer → Option ℕ → ChunkReassembler → Outcome × ChunkReassembler
unfolding put_chunk
put_at m t none r = (returned none, r)
put_at m t (some i) r = put_chunk m.transfer_id t i m.payload r

abbrev pub optional_index : ℕ → Option Value → Option ℕ
optional_index total none = none
optional_index total (some v) = index_below total v

unfoldable pub receive_for :
    Message → Option Transfer → ChunkReassembler → Outcome × ChunkReassembler
unfolding put_at index_below
receive_for m none r = (returned none, r)
receive_for m (some t) r = put_at m t (optional_index t.total_chunks m.sequence) r

-- The branch of `chunk_data`.
unfoldable pub receive : Message → ChunkReassembler → Outcome × ChunkReassembler
unfolding receive_for
receive m r = receive_for m (lookup m.transfer_id r.transfers) r

-- `"".join(chunks)`, which raises on an item that is no text.
unfoldable pub join : List Slot → Option Text
join [] = some []
join (text s ∷ l) = Option.map (λ rest. s ++ rest) (join l)
join (_ ∷ l) = none

unfoldable pub assemble : Transfer → Outcome
unfolding join
assemble t =
    if t.received == t.total_chunks
    then elim (join t.chunks) [ none ↦ raised type_error | some s ↦ returned (some s) ]
    else returned none

unfoldable pub finish_for :
    Message → Option Transfer → ChunkReassembler → Outcome × ChunkReassembler
unfolding assemble
finish_for m none r = (returned none, r)
finish_for m (some t) r = (assemble t, record r { transfers = remove m.transfer_id r.transfers })

-- The branch of `chunk_end`: the transfer is taken out whatever comes of it.
unfoldable pub finish : Message → ChunkReassembler → Outcome × ChunkReassembler
unfolding finish_for
finish m r = finish_for m (lookup m.transfer_id r.transfers) r

unfoldable pub dispatch :
    Option String → ℕ → Message → ChunkReassembler → Outcome × ChunkReassembler
unfolding start receive finish
dispatch none now m r = (returned none, r)
dispatch (some t) now m r =
    if str_eq t "chunk_start"
    then start now m r
    else if str_eq t "chunk_data"
    then receive m r
    else if str_eq t "chunk_end"
    then finish m r
    else (returned none, r)

unfoldable pub handle_chunk_message : ℕ → Message → ChunkReassembler → Outcome × ChunkReassembler
unfolding dispatch
handle_chunk_message now m r = dispatch m.msg_type now m r

-- The age test is written so that a clock that went back makes no transfer stale.
abbrev pub is_stale : ℕ → ℕ → Transfer → Bool
is_stale now timeout t = ltb timeout (now - t.started_at)

unfoldable pub cleanup_stale : ℕ → ℕ → ChunkReassembler → ChunkReassembler
unfolding keys_where remove_all
cleanup_stale now timeout r = record r {
  transfers = remove_all (keys_where (is_stale now timeout) r.transfers) r.transfers;
}

-- The sender. `math.ceil(a / b)` is exact for lengths below 2 ^ 53.
abbrev pub ceil_div : ℕ → ℕ → ℕ
ceil_div a b = (a + b - 1) / b

unfoldable pub next_transfer_id : ℕ → ℕ → String × ℕ
next_transfer_id now_ms counter =
    let next = (counter + 1) % 1000000 in
    (join_text (decimal now_ms) (join_text "-" (decimal next)), next)

unfoldable pub start_message : String → ℕ → ℕ → Message
start_message tid n size = record {
  msg_type = some "chunk_start";
  transfer_id = tid;
  total_chunks = some (int (pos n));
  total_size = some (int (pos size));
  sequence = none;
  payload = none;
}

unfoldable pub data_message : String → ℕ → Text → Message
data_message tid seq s = record {
  msg_type = some "chunk_data";
  transfer_id = tid;
  total_chunks = none;
  total_size = none;
  sequence = some (int (pos seq));
  payload = some (text s);
}

unfoldable pub end_message : String → Message
end_message tid = record {
  msg_type = some "chunk_end";
  transfer_id = tid;
  total_chunks = none;
  total_size = none;
  sequence = none;
  payload = none;
}

-- The loop over `range(total_chunks)`: `n` rounds from `seq` on.
unfoldable pub data_messages : ℕ → String → Text → ℕ → ℕ → List Message
data_messages size tid message seq zero = []
data_messages size tid message seq (suc n) =
    data_message tid seq (take size (drop (seq * size) message))
    ∷ data_messages size tid message (suc seq) n

unfoldable pub chunk_messages : String → Text → List Message
unfolding data_messages start_message end_message
chunk_messages tid message =
    let n = ceil_div (length message) chunk_payload_size in
    start_message tid n (length message)
    ∷ (data_messages chunk_payload_size tid message 0 n ++ end_message tid ∷ [])

unfoldable pub encode : (Message → Text) → List Message → List Text
encode dumps [] = []
encode dumps (m ∷ ms) = dumps m ∷ encode dumps ms

-- The texts to send, and the module's counter afterwards.
unfoldable pub split_into_chunks : (Message → Text) → ℕ → ℕ → Text → List Text × ℕ
unfolding chunk_messages encode next_transfer_id
split_into_chunks dumps now_ms counter message =
    if ltb (length message) chunk_threshold
    then (message ∷ [], counter)
    else (let (tid, next) = next_transfer_id now_ms counter in
        (encode dumps (chunk_messages tid message), next))
