-- ===== src/Chunking/RoundTrip.antt =====
-- The sender and the receiver of src/tools/chunking.py together.
use mathlib.Core.List.{append-nil, append_assoc}
use orchestrator_agent.Prelude.{
  All, true, take, drop, ℕ, zero, suc, ◌+◌, ◌*◌, ◌≤◌, ◌<◌, ◌≡◌, refl, ap, ◌∙◌, String, Option, none,
  some, List, [], ◌∷◌, ◌++◌, map, arith, eq_refl, length, get_elem?, set, replicate, length-append,
  lt→ltb, le→ltb_false, ◌==◌,
}
use orchestrator_agent.Prelude.Dict.{
  Dict, insert, remove, insert-insert, remove-insert, lookup-insert,
}
use orchestrator_agent.Chunking.{
  Text, Slot, empty, text, Message, Transfer, ChunkReassembler, Outcome, returned,
  chunk_payload_size, chunk_threshold, max_total_chunks, max_total_size, ceil_div, store_chunk,
  handle_chunk_message, start_message, data_message, data_messages, end_message, chunk_messages,
  encode, next_transfer_id, split_into_chunks,
}
use orchestrator_agent.Chunking.Slots.{flatten, join-map, slices, flatten-slices}

-- The receiving loop: each text is decoded and handled in turn, at a time that `clock` gives for
-- the number of texts still to come. A text that does not decode is passed over, as
-- `_handle_message` does.
deliver_decoded :
    Option Message
    → ℕ
    → (ChunkReassembler → List Outcome × ChunkReassembler)
    → ChunkReassembler
    → List Outcome × ChunkReassembler
deliver_decoded none now rest r = rest r
deliver_decoded (some m) now rest r =
    let (o, r') = handle_chunk_message now m r in let (os, r'') = rest r' in (o ∷ os, r'')

unfoldable pub deliver :
    (Text → Option Message)
    → (ℕ → ℕ)
    → List Text
    → ChunkReassembler
    → List Outcome × ChunkReassembler
unfolding deliver_decoded
deliver loads clock [] r = ([], r)
deliver loads clock (x ∷ xs) r =
    deliver_decoded (loads x) (clock (length xs)) (deliver loads clock xs) r

-- A transfer that holds `done` and waits for `n` more chunks.
abbrev partial : ℕ → ℕ → List Text → ℕ → ℕ → Transfer
partial started total done n size = record {
  chunks = map text done ++ replicate n empty;
  received = length done;
  total_chunks = total;
  total_size = size;
  started_at = started;
}

set-partial :
    (done : List Text) (s : Text) (l : List Slot)
    → set (map text done ++ empty ∷ l) (length done) (text s) ≡ map text (done ++ s ∷ []) ++ l
set-partial [] s l = refl
set-partial (x ∷ done) s l = ap (◌∷◌ (text x)) (set-partial done s l)

hole-partial :
    (done : List Text) (l : List Slot)
    → get_elem? (map text done ++ empty ∷ l) (length done) ≡ some empty
hole-partial [] l = refl
hole-partial (x ∷ done) l = hole-partial done l

store-partial :
    (started total : ℕ) (done : List Text) (n size : ℕ) (s : Text)
    → store_chunk (partial started total done (suc n) size) (length done) (text s)
      ≡ partial started total (done ++ s ∷ []) n size
unfolding store_chunk
store-partial started total done n size s = rw (
  hole-partial done (replicate n empty),
  set-partial done s (replicate n empty),
  length-append done (s ∷ []),
)

module _ (tid : String) (started total size : ℕ) (d : Dict Transfer) where
  abbrev holding : List Text → ℕ → ChunkReassembler
  holding done n = record { transfers = insert tid (partial started total done n size) d }

  handle-data :
      (now seq : ℕ) (done : List Text) (n : ℕ) (s : Text)
      → seq ≡ length done
      → length done + suc n ≡ total
      → handle_chunk_message now (data_message tid seq s) (holding done (suc n))
        ≡ (returned none, holding (done ++ s ∷ []) n)
  unfolding handle_chunk_message data_message
  handle-data now seq done n s here e =
      rw (here, lookup-insert, eq_refl, lt→ltb (length done) total (omega arith))
        (rw (insert-insert, store-partial started total done n size s))

  handle-end :
      (now : ℕ) (done : List Text)
      → length done ≡ total
      → handle_chunk_message now (end_message tid) (holding done 0)
        ≡ (returned (some (flatten done)), record { transfers = remove tid d })
  unfolding handle_chunk_message end_message
  handle-end now done e =
      let full : (length done == total) ≡ true = ground arith in
      rw (lookup-insert, eq_refl, full, append-nil, join-map done, remove-insert)

-- Nothing `n` times, and then the message.
abbrev pub outcomes : ℕ → Text → List Outcome
outcomes n message = replicate n (returned none) ++ returned (some message) ∷ []

module _ (dumps : Message → Text) (loads : Text → Option Message) where
  -- The decoder gives the message back that was encoded.
  abbrev pub Decodes : Message → Type 0
  Decodes m = loads (dumps m) ≡ some m

  pub deliver-cons :
      (clock : ℕ → ℕ) (m : Message) (xs : List Text) (r r' : ChunkReassembler) (o : Outcome)
      → Decodes m
      → handle_chunk_message (clock (length xs)) m r ≡ (o, r')
      → deliver loads clock (dumps m ∷ xs) r
        ≡ (o ∷ (deliver loads clock xs r').0, (deliver loads clock xs r').1)
  unfolding deliver
  deliver-cons clock m xs r r' o decodes e = rw (decodes, e)

  deliver-data :
      (clock : ℕ → ℕ) (tid : String) (message : Text) (started total size : ℕ) (d : Dict Transfer)
      (slice : ℕ) (done : List Text) (seq n : ℕ)
      → seq ≡ length done
      → length done + n ≡ total
      → All Decodes (data_messages slice tid message seq n ++ end_message tid ∷ [])
      → deliver loads clock
          (encode dumps (data_messages slice tid message seq n ++ end_message tid ∷ []))
          (holding tid started total size d done n)
        ≡ (
          outcomes n (flatten (done ++ slices slice message seq n)),
          record { transfers = remove tid d },
        )
  unfolding data_messages encode
  deliver-data clock tid message started total size d slice done seq zero here e h =
      let ended = handle-end tid started total size d (clock 0) done (omega arith) in
      deliver-cons clock (end_message tid) [] (holding tid started total size d done 0) _ _ h.0
        ended
      ∙ (unfold deliver in rw append-nil)
  deliver-data clock tid message started total size d slice done seq (suc n) here e h =
      let s = take slice (drop (seq * slice) message) in
      let ms = data_messages slice tid message (suc seq) n ++ end_message tid ∷ [] in
      let stored =
        handle-data tid started total size d (clock (length (encode dumps ms))) seq done n s here
          e in
      let first =
        deliver-cons clock (data_message tid seq s) (encode dumps ms)
          (holding tid started total size d done (suc n))
          (holding tid started total size d (done ++ s ∷ []) n) (returned none) h.0 stored in
      let rest =
        deliver-data clock tid message started total size d slice (done ++ s ∷ []) (suc seq) n
          (omega (arith, length-append {0} done (s ∷ [])))
          (omega (arith, length-append {0} done (s ∷ []))) h.1 in
      first ∙ rw rest (rw append_assoc)

  handle-start :
      (now : ℕ) (tid : String) (n size : ℕ) (r : ChunkReassembler)
      → 0 < n
      → n ≤ max_total_chunks
      → 0 < size
      → size ≤ max_total_size
      → handle_chunk_message now (start_message tid n size) r
        ≡ (returned none, holding tid now n size r.transfers [] n)
  unfolding handle_chunk_message start_message
  handle-start now tid n size r a b c e = ground arith

  -- A message of 15,000 to 100,000,000 code points, whatever its text: if the decoder undoes the
  -- encoder on the chunk messages made of it, then the texts that `split_into_chunks` makes of it, handled in order at any times,
  -- give nothing until the last, which gives the message; and the receiver's other transfers are
  -- as they were, with none left under the transfer's id.
  pub split-deliver :
      (clock : ℕ → ℕ) (now_ms counter : ℕ) (message : Text) (r : ChunkReassembler)
      → chunk_threshold ≤ length message
      → length message ≤ max_total_size
      → All Decodes (chunk_messages (next_transfer_id now_ms counter).0 message)
      → deliver loads clock (split_into_chunks dumps now_ms counter message).0 r ≡ (
        returned none ∷ outcomes (ceil_div (length message) chunk_payload_size) message,
        record r { transfers = remove (next_transfer_id now_ms counter).0 r.transfers },
      )
  unfolding split_into_chunks
  split-deliver clock now_ms counter message r long fits h =
      let tid = (next_transfer_id now_ms counter).0 in
      let n = ceil_div (length message) chunk_payload_size in
      let ms = data_messages chunk_payload_size tid message 0 n ++ end_message tid ∷ [] in
      let now = clock (length (encode dumps ms)) in
      let first =
        deliver-cons clock (start_message tid n (length message)) (encode dumps ms) r _ _ h.0 (
          handle-start now tid n (length message) r (omega arith) (omega arith) (omega arith)
            fits) in
      let rest =
        deliver-data clock tid message now n (length message) r.transfers chunk_payload_size [] 0 n
          refl (omega arith) h.1 in
      let whole = flatten-slices chunk_payload_size message 0 n (omega arith) in
      rw (le→ltb_false (length message) chunk_threshold long) (first ∙ rw rest (rw whole))
