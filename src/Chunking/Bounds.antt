-- ===== src/Chunking/Bounds.antt =====
-- The bounds on the receiver's memory, whatever it is sent.
use orchestrator_agent.Prelude.{ℕ, ◌≤◌, ◌<◌, ◌≡◌, length, arith, length-set, length-replicate}
use orchestrator_agent.Prelude.Dict.{AllValues}
use orchestrator_agent.Chunking.{
  Slot, empty, Message, Transfer, ChunkReassembler, max_total_chunks, max_total_size, count_chunk,
  store_chunk, handle_chunk_message,
}
use orchestrator_agent.Chunking.Branches.{handle-AllValues}

pub record IsBounded (t : Transfer) : Type 0 where
  pub slots : length t.chunks ≡ t.total_chunks
  pub some_chunks : 0 < t.total_chunks
  pub few_chunks : t.total_chunks ≤ max_total_chunks
  pub some_size : 0 < t.total_size
  pub small_size : t.total_size ≤ max_total_size

store_chunk-IsBounded :
    (t : Transfer) (i : ℕ) (s : Slot) → IsBounded t → IsBounded (store_chunk t i s)
unfolding store_chunk
store_chunk-IsBounded t i s h = record {
  slots = ground (arith, length-set t.chunks i s);
  some_chunks = h.some_chunks;
  few_chunks = h.few_chunks;
  some_size = h.some_size;
  small_size = h.small_size;
}

-- Whatever message comes in, at whatever time, if every transfer in flight has at most 10,000 slots
-- (as many as it announced, and at least one) and an announced size of 1 to 100,000,000, then so has
-- every transfer in flight afterwards.
pub handle-IsBounded :
    (now : ℕ) (m : Message) (r : ChunkReassembler)
    → AllValues IsBounded r.transfers
    → AllValues IsBounded (handle_chunk_message now m r).1.transfers
handle-IsBounded now m r h =
    handle-AllValues IsBounded now m r
      (λ n size a b c d. record {
        slots = length-replicate n empty;
        some_chunks = a;
        few_chunks = b;
        some_size = c;
        small_size = d;
      })
      (λ _ t i b _ _.
        unfold count_chunk in
        record {
          slots = b.slots;
          some_chunks = b.some_chunks;
          few_chunks = b.few_chunks;
          some_size = b.some_size;
          small_size = b.small_size;
        })
      (λ _ t i s b _ _. store_chunk-IsBounded t i s b) h
