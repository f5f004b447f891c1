-- ===== src/Tests/ChunkingRuns.antt =====
-- src/tools/chunking.py on small inputs.
use orchestrator_agent.Prelude.{
  ℕ, ◌≡◌, refl, String, Option, none, some, [], ◌∷◌, ◌++◌, length, replicate, arith,
  length-replicate, if◌then◌else◌, Bool, false, str_eq, zero, suc, ◌-◌, All,
}
use orchestrator_agent.Prelude.Dict.{lookup, insert, remove, AllValues}
use orchestrator_agent.Prelude.Value.{pos, int, Value}
use orchestrator_agent.Chunking.{
  Text, Slot, empty, text, Message, Transfer, ChunkReassembler, returned, raised, key_error,
  type_error, handle_chunk_message, start_message, data_message, end_message, chunk_payload_size,
  ceil_div, next_transfer_id, split_into_chunks, optional_index, index_below, data_messages,
  chunk_messages,
}
use orchestrator_agent.Chunking.Bounds.{IsBounded, handle-IsBounded}
use orchestrator_agent.Chunking.Accuracy.{
  IsAccurate, handle-IsAccurate, missing_data_breaks_transfer,
}
use orchestrator_agent.Chunking.RoundTrip.{deliver, outcomes, Decodes, split-deliver}

-- A transfer of two chunks of which the first is here.
abbrev half : Transfer
half = record {
  chunks = text (104 ∷ []) ∷ empty ∷ [];
  received = 1;
  total_chunks = 2;
  total_size = 2;
  started_at = 100;
}

abbrev holding_half : ChunkReassembler
holding_half = record { transfers = ("t", half) ∷ [] }

half-IsAccurate : IsAccurate half
half-IsAccurate = record { slots = refl; counted = refl; textual = (tt, (tt, tt)) }

half-IsBounded : IsBounded half
half-IsBounded = record {
  slots = refl;
  some_chunks = omega arith;
  few_chunks = omega arith;
  some_size = omega arith;
  small_size = omega arith;
}

abbrev second : Message
second = record {
  msg_type = some "chunk_data";
  transfer_id = "t";
  total_chunks = none;
  total_size = none;
  sequence = some (int (pos 1));
  payload = some (text (105 ∷ []));
}

abbrev bare_second : Message
bare_second = record second { payload = none }

abbrev ender : Message
ender = record second { msg_type = some "chunk_end"; sequence = none; payload = none }

-- The second chunk, then the end: the text "hi".
completes :
    (handle_chunk_message 101 ender (handle_chunk_message 100 second holding_half).1).0
    ≡ returned (some (104 ∷ 105 ∷ []))
unfolding handle_chunk_message lookup insert remove
completes = refl

handle-IsBounded_example :
    AllValues IsBounded (handle_chunk_message 101 second holding_half).1.transfers
handle-IsBounded_example = handle-IsBounded 101 second holding_half (half-IsBounded, tt)

handle-IsAccurate_example :
    AllValues IsAccurate (handle_chunk_message 101 second holding_half).1.transfers
handle-IsAccurate_example =
    handle-IsAccurate 101 second holding_half (λ _. (105 ∷ [], refl)) (half-IsAccurate, tt)

half_found : lookup "t" holding_half.transfers ≡ some half
unfolding lookup
half_found = refl

second_in_range : optional_index 2 bare_second.sequence ≡ some 1
unfolding index_below
second_in_range = refl

missing_data_breaks_transfer_example :
    ((handle_chunk_message 101 bare_second holding_half).0 ≡ raised key_error)
    × ((handle_chunk_message 102 ender (handle_chunk_message 101 bare_second holding_half).1).0
        ≡ raised type_error)
missing_data_breaks_transfer_example =
    missing_data_breaks_transfer 101 102 bare_second ender holding_half half 1 refl refl refl refl
      half_found second_in_range half-IsAccurate refl refl

-- An encoder and a decoder of the messages of one transfer: two chunks of a text of 15,000 letters.
abbrev pub long_message : Text
long_message = replicate 15000 b'x'

contains_type : String → Message → Bool
contains_type t m = elim m.msg_type [ none ↦ false | some u ↦ str_eq u t ]

abbrev pub tid : String
tid = (next_transfer_id 5 0).0

dumps_data : Option Value → Option Slot → Text
dumps_data (some (int (pos seq))) (some (text s)) = 1 ∷ seq ∷ s
dumps_data _ _ = []

pub dumps : Message → Text
unfolding dumps_data contains_type
dumps m =
    if contains_type "chunk_start" m
    then 0 ∷ []
    else if contains_type "chunk_end" m
    then 2 ∷ []
    else dumps_data m.sequence m.payload

unfoldable pub loads : Text → Option Message
loads (zero ∷ _) = some (start_message tid 2 15000)
loads (suc zero ∷ seq ∷ s) = some (data_message tid seq s)
loads (suc (suc zero) ∷ _) = some (end_message tid)
loads _ = none

data-Decodes :
    (message : Text) (seq n : ℕ)
    → All
        (Decodes dumps loads)
        (data_messages chunk_payload_size tid message seq n ++ end_message tid ∷ [])
unfolding dumps loads data_messages data_message end_message
data-Decodes message seq zero = (refl, tt)
data-Decodes message seq (suc n) = (refl, data-Decodes message (suc seq) n)

pub length_long : length long_message ≡ 15000
length_long = length-replicate {A = ℕ} 15000 b'x'

pub long-Decodes : All (Decodes dumps loads) (chunk_messages tid long_message)
unfolding dumps loads start_message chunk_messages
long-Decodes = rw length_long (refl, data-Decodes long_message 0 2)

split-deliver_example :
    deliver loads (λ n. 100 - n) (split_into_chunks dumps 5 0 long_message).0 holding_half ≡ (
      returned none ∷ outcomes (ceil_div (length long_message) chunk_payload_size) long_message,
      record holding_half { transfers = remove tid holding_half.transfers },
    )
split-deliver_example =
    split-deliver dumps loads (λ n. 100 - n) 5 0 long_message holding_half
      (rw length_long (omega arith)) (rw length_long (omega arith)) long-Decodes
