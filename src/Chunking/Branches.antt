-- ===== src/Chunking/Branches.antt =====
-- The receiver's branches as rules: how to show that a message keeps a fact about every transfer.
use orchestrator_agent.Prelude.{
  ap, str_eq, Bool-cases, ℕ, ◌≤◌, ◌<◌, ◌≡◌, refl, String, inl, inr, Option, none, some, arith,
  eq_iff,
}
use orchestrator_agent.Prelude.Dict.{
  lookup, AllValues, AllValues-insert, AllValues-remove, AllValues-lookup,
}
use orchestrator_agent.Prelude.Value.{Value}
use orchestrator_agent.Chunking.{
  Slot, Message, Transfer, ChunkReassembler, Outcome, returned, positive_at_most, index_below,
  or_zero, optional_index, max_total_chunks, max_total_size, new_transfer, start_checked, start,
  count_chunk, put_at, receive_for, finish_for, store_chunk, put_chunk, receive, finish, dispatch,
  handle_chunk_message,
}

positive_at_most_bounds :
    (limit : ℕ) (v : Value) {n : ℕ} → positive_at_most limit v ≡ some n → (0 < n) × (n ≤ limit)
unfolding positive_at_most
positive_at_most_bounds limit v h = ground arith

index_below-lt : (n : ℕ) (v : Value) {i : ℕ} → index_below n v ≡ some i → i < n
unfolding index_below
index_below-lt n v h = ground arith

optional_index-lt : (n : ℕ) (o : Option Value) {i : ℕ} → optional_index n o ≡ some i → i < n
optional_index-lt n none e = ground arith
optional_index-lt n (some v) e = index_below-lt n v e

-- A message takes one of four branches.
pub dispatch_rule :
    (Q : Outcome × ChunkReassembler → Type 0) (now : ℕ) (m : Message) (r : ChunkReassembler)
    (o : Option String)
    → (o ≡ some "chunk_start" → Q (start now m r))
    → (o ≡ some "chunk_data" → Q (receive m r))
    → (o ≡ some "chunk_end" → Q (finish m r))
    → Q (returned none, r)
    → Q (dispatch o now m r)
unfolding dispatch
dispatch_rule Q now m r none starts datas ends ignored = ignored
dispatch_rule Q now m r (some t) starts datas ends ignored =
    elim (Bool-cases (str_eq t "chunk_start")) [
      | inl a ↦ rw a (starts (ap some ((eq_iff t "chunk_start").0 a)))
      | inr not_start ↦ elim (Bool-cases (str_eq t "chunk_data")) [
        | inl a ↦ rw (not_start, a) (datas (ap some ((eq_iff t "chunk_data").0 a)))
        | inr not_data ↦ elim (Bool-cases (str_eq t "chunk_end")) [
          | inl a ↦ rw (not_start, not_data, a) (ends (ap some ((eq_iff t "chunk_end").0 a)))
          | inr not_end ↦ rw (not_start, not_data, not_end) ignored
        ]
      ]
    ]

-- One rule for every message: what holds of each transfer holds after it, if it holds of a new
-- transfer and the writes that the message makes keep it.
module _ (P : Transfer → Type 0) (now : ℕ) (m : Message) where
  start_checked-AllValues :
      (o p : Option ℕ) (r : ChunkReassembler)
      → ((n size : ℕ) → o ≡ some n → p ≡ some size → P (new_transfer now n size))
      → AllValues P r.transfers
      → AllValues P (start_checked now m.transfer_id o p r).1.transfers
  unfolding start_checked
  start_checked-AllValues (some n) (some size) r fresh h =
      AllValues-insert P m.transfer_id (new_transfer now n size) r.transfers h
        (fresh n size refl refl)
  start_checked-AllValues (some n) none r fresh h = h
  start_checked-AllValues none _ r fresh h = h

  put_chunk-AllValues :
      (t : Transfer) (i : ℕ) (o : Option Slot) (r : ChunkReassembler)
      → (o ≡ none → P (count_chunk t i))
      → ((s : Slot) → o ≡ some s → P (store_chunk t i s))
      → AllValues P r.transfers
      → AllValues P (put_chunk m.transfer_id t i o r).1.transfers
  unfolding put_chunk
  put_chunk-AllValues t i none r counted stored h =
      AllValues-insert P m.transfer_id (count_chunk t i) r.transfers h (counted refl)
  put_chunk-AllValues t i (some s) r counted stored h =
      AllValues-insert P m.transfer_id (store_chunk t i s) r.transfers h (stored s refl)

  put_at-AllValues :
      (t : Transfer) (o : Option ℕ) (r : ChunkReassembler)
      → ((i : ℕ) → o ≡ some i → m.payload ≡ none → P (count_chunk t i))
      → ((i : ℕ) (s : Slot) → o ≡ some i → m.payload ≡ some s → P (store_chunk t i s))
      → AllValues P r.transfers
      → AllValues P (put_at m t o r).1.transfers
  unfolding put_at
  put_at-AllValues t none r counted stored h = h
  put_at-AllValues t (some i) r counted stored h =
      put_chunk-AllValues t i m.payload r (counted i refl) (λ s. stored i s refl) h

  finish_for-AllValues :
      (o : Option Transfer) (r : ChunkReassembler)
      → AllValues P r.transfers
      → AllValues P (finish_for m o r).1.transfers
  unfolding finish_for
  finish_for-AllValues none r h = h
  finish_for-AllValues (some t) r h = AllValues-remove P m.transfer_id r.transfers h

  receive_for-AllValues :
      (o : Option Transfer) (r : ChunkReassembler)
      → ((t : Transfer) → o ≡ some t → P t)
      → ((t : Transfer) (i : ℕ) → P t → i < t.total_chunks → m.payload ≡ none → P (count_chunk t i))
      → ((t : Transfer) (i : ℕ) (s : Slot)
          → P t
          → i < t.total_chunks
          → m.payload ≡ some s
          → P (store_chunk t i s))
      → AllValues P r.transfers
      → AllValues P (receive_for m o r).1.transfers
  unfolding receive_for
  receive_for-AllValues none r found counted stored h = h
  receive_for-AllValues (some t) r found counted stored h =
      put_at-AllValues t (optional_index t.total_chunks m.sequence) r
        (λ i e. counted t i (found t refl) (optional_index-lt t.total_chunks m.sequence e))
        (λ i s e. stored t i s (found t refl) (optional_index-lt t.total_chunks m.sequence e)) h

  receive-AllValues :
      (r : ChunkReassembler)
      → ((t : Transfer) (i : ℕ) → P t → i < t.total_chunks → m.payload ≡ none → P (count_chunk t i))
      → ((t : Transfer) (i : ℕ) (s : Slot)
          → P t
          → i < t.total_chunks
          → m.payload ≡ some s
          → P (store_chunk t i s))
      → AllValues P r.transfers
      → AllValues P (receive m r).1.transfers
  unfolding receive
  receive-AllValues r counted stored h =
      receive_for-AllValues (lookup m.transfer_id r.transfers) r
        (λ t e. AllValues-lookup P m.transfer_id r.transfers h e) counted stored h

  -- The four branches together.
  pub handle-AllValues :
      (r : ChunkReassembler)
      → ((n size : ℕ)
          → 0 < n
          → n ≤ max_total_chunks
          → 0 < size
          → size ≤ max_total_size
          → P (new_transfer now n size))
      → (m.msg_type ≡ some "chunk_data"
          → (t : Transfer) (i : ℕ) → P t
          → i < t.total_chunks
          → m.payload ≡ none
          → P (count_chunk t i))
      → (m.msg_type ≡ some "chunk_data"
          → (t : Transfer) (i : ℕ) (s : Slot) → P t
          → i < t.total_chunks
          → m.payload ≡ some s
          → P (store_chunk t i s))
      → AllValues P r.transfers
      → AllValues P (handle_chunk_message now m r).1.transfers
  unfolding handle_chunk_message
  handle-AllValues r fresh counted stored h =
      dispatch_rule (λ q. AllValues P q.1.transfers) now m r m.msg_type
        (λ _.
          unfold start in
          start_checked-AllValues _ _ r
            (λ n size a b.
              let (n_pos, n_max) = positive_at_most_bounds _ (or_zero m.total_chunks) a in
              let (size_pos, size_max) = positive_at_most_bounds _ (or_zero m.total_size) b in
              fresh n size n_pos n_max size_pos size_max)
            h)
        (λ is_data. receive-AllValues r (counted is_data) (stored is_data) h)
        (λ _. unfold finish in finish_for-AllValues _ r h) h
