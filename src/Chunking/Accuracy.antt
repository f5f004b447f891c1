-- ===== src/Chunking/Accuracy.antt =====
-- The receiver's counts, for senders whose chunks carry texts, and what a chunk without one does.
use mathlib.Core.Path.{subst}
use orchestrator_agent.Prelude.{
  true, ℕ, ◌+◌, ◌<◌, ◌≡◌, ◌≢◌, refl, sym, String, ◌⊎◌, inl, inr, Option, none, some, length,
  get_elem?, All, arith, eq_refl, Bool-cases, length-set, length-replicate, ◌==◌, ==_iff,
  Option-cases,
}
use orchestrator_agent.Prelude.Dict.{lookup, remove, AllValues, AllValues-lookup, lookup-insert}
use orchestrator_agent.Chunking.{
  Text, Slot, empty, text, Message, Transfer, ChunkReassembler, Error, key_error, type_error,
  returned, raised, max_total_chunks, max_total_size, optional_index, or_zero, positive_at_most,
  start_checked, start, count_chunk, store_chunk, receive_for, receive, join, assemble, finish_for,
  finish, handle_chunk_message,
}
use orchestrator_agent.Chunking.Slots.{
  filled, IsTextual, filled-le, filled-replicate, All-replicate, filled-set, All-set, join_full,
  join_short,
}
use orchestrator_agent.Chunking.Branches.{dispatch_rule, handle-AllValues}

-- The count is that of the filled slots, and no slot holds a value that is no text.
pub record IsAccurate (t : Transfer) : Type 0 where
  pub slots : length t.chunks ≡ t.total_chunks
  pub counted : t.received ≡ filled t.chunks
  pub textual : All IsTextual t.chunks

-- What the protocol's sender does: a `chunk_data` message carries a text.
abbrev CarriesText : Message → Type 0
CarriesText m = m.msg_type ≡ some "chunk_data" → (s : Text) × (m.payload ≡ some (text s))

store_chunk-IsAccurate :
    (t : Transfer) (i : ℕ) (s : Text)
    → IsAccurate t
    → i < t.total_chunks
    → IsAccurate (store_chunk t i (text s))
unfolding store_chunk
store_chunk-IsAccurate t i s h lt = record {
  slots = ground (arith, length-set t.chunks i (text s));
  counted = ground (arith, filled-set t.chunks i s);
  textual = All-set t.chunks i s h.textual;
}

-- Whatever message whose chunk data, if it is such a message, is a text: it keeps every transfer's
-- count equal to the number of its filled slots, and its slots free of what cannot be joined.
pub handle-IsAccurate :
    (now : ℕ) (m : Message) (r : ChunkReassembler)
    → CarriesText m
    → AllValues IsAccurate r.transfers
    → AllValues IsAccurate (handle_chunk_message now m r).1.transfers
handle-IsAccurate now m r carries h =
    handle-AllValues IsAccurate now m r
      (λ n size _ _ _ _. record {
        slots = length-replicate n empty;
        counted = sym (filled-replicate n);
        textual = All-replicate n;
      })
      (λ is_data t i _ _ missing. let (s, e) = carries is_data in absurd (ground arith))
      (λ is_data t i s acc lt stored.
        let (s', e) = carries is_data in
        let same : text s' ≡ s = ground arith in
        subst (λ v. IsAccurate (store_chunk t i v)) same (store_chunk-IsAccurate t i s' acc lt))
      h

-- `chunk_end` on an accurate transfer: incomplete it gives nothing, complete its slots' texts joined.
assemble-IsAccurate :
    (t : Transfer)
    → IsAccurate t
    → ((filled t.chunks < length t.chunks) × (assemble t ≡ returned none))
      ⊎ ((s : Text) × (filled t.chunks ≡ length t.chunks)
          × (join t.chunks ≡ some s)
          × (assemble t ≡ returned (some s)))
unfolding assemble
assemble-IsAccurate t h = elim (Bool-cases (t.received == t.total_chunks)) [
  | inl full ↦
      let all_filled : filled t.chunks ≡ length t.chunks =
        ground (arith, ==_iff t.received t.total_chunks) in
      let (s, e) = join_full t.chunks h.textual all_filled in inr (s, all_filled, e, rw (full, e))
  | inr short ↦ inl (ground (arith, filled-le t.chunks), rw short)
]

assemble-eq-join : (t : Transfer) → IsAccurate t → assemble t ≡ returned (join t.chunks)
assemble-eq-join t h = elim (assemble-IsAccurate t h) [
  | inl (short, e) ↦ rw (e, join_short t.chunks short)
  | inr (s, _, joined, e) ↦ rw (e, joined)
]

start_checked_quiet :
    (now : ℕ) (tid : String) (o p : Option ℕ) (r : ChunkReassembler)
    → (start_checked now tid o p r).0 ≡ returned none
unfolding start_checked
start_checked_quiet now tid (some n) (some size) r = refl
start_checked_quiet now tid (some n) none r = refl
start_checked_quiet now tid none _ r = refl

receive_for_quiet :
    (m : Message) (s : Slot) (o : Option Transfer) (r : ChunkReassembler)
    → m.payload ≡ some s
    → (receive_for m o r).0 ≡ returned none
unfolding receive_for
receive_for_quiet m s none r e = refl
receive_for_quiet m s (some t) r e =
    elim (Option-cases (optional_index t.total_chunks m.sequence)) [
      | inl out_of_range ↦ rw out_of_range
      | inr (i, in_range) ↦ rw (in_range, e)
    ]

finish_for_quiet :
    (m : Message) (o : Option Transfer) (r : ChunkReassembler)
    → ((t : Transfer) → o ≡ some t → IsAccurate t)
    → (u : Option Text) × ((finish_for m o r).0 ≡ returned u)
unfolding finish_for
finish_for_quiet m none r h = (none, refl)
finish_for_quiet m (some t) r h = (join t.chunks, assemble-eq-join t (h t refl))

-- Under the same condition on the message, and where every transfer's count is that of its filled
-- slots and its slots hold texts at most, handling the message raises no exception.
pub handle_never_raises :
    (now : ℕ) (m : Message) (r : ChunkReassembler)
    → CarriesText m
    → AllValues IsAccurate r.transfers
    → (e : Error) → (handle_chunk_message now m r).0 ≢ raised e
unfolding handle_chunk_message
handle_never_raises now m r carries h e =
    dispatch_rule (λ q. q.0 ≢ raised e) now m r m.msg_type
      (λ _.
        unfold start in
        λ p. cc (
          p,
          start_checked_quiet now m.transfer_id
              (positive_at_most max_total_chunks (or_zero m.total_chunks))
              (positive_at_most max_total_size (or_zero m.total_size)) r,
        ))
      (λ is_data.
        unfold receive in
        λ p.
          let (s, carried) = carries is_data in
          cc (p, receive_for_quiet m (text s) (lookup m.transfer_id r.transfers) r carried))
      (λ _.
        unfold finish in
        λ p.
          let (u, quiet) =
            finish_for_quiet m (lookup m.transfer_id r.transfers) r
              (λ t found. AllValues-lookup IsAccurate m.transfer_id r.transfers h found) in
          cc (p, quiet))
      (λ p. cc)

-- A `chunk_end` for a transfer in flight, its count accurate, gives back exactly the texts of its
-- slots joined in order, which is nothing while a slot is empty, and takes the transfer out either
-- way.
chunk_end-join :
    (now : ℕ) (m : Message) (r : ChunkReassembler) (t : Transfer)
    → m.msg_type ≡ some "chunk_end"
    → lookup m.transfer_id r.transfers ≡ some t
    → IsAccurate t
    → handle_chunk_message now m r
      ≡ (returned (join t.chunks), record r { transfers = remove m.transfer_id r.transfers })
unfolding handle_chunk_message
chunk_end-join now m r t ends found h = rw (ends, found, assemble-eq-join t h)

-- A chunk without data for the last empty slot of an accurate transfer raises a KeyError, and has
-- already been counted: the `chunk_end` that follows takes the transfer for complete, and raises a
-- TypeError instead of giving nothing.
pub missing_data_breaks_transfer :
    (now later : ℕ) (m ender : Message) (r : ChunkReassembler) (t : Transfer) (i : ℕ)
    → m.msg_type ≡ some "chunk_data"
    → m.payload ≡ none
    → ender.msg_type ≡ some "chunk_end"
    → ender.transfer_id ≡ m.transfer_id
    → lookup m.transfer_id r.transfers ≡ some t
    → optional_index t.total_chunks m.sequence ≡ some i
    → IsAccurate t
    → get_elem? t.chunks i ≡ some empty
    → filled t.chunks + 1 ≡ length t.chunks
    → ((handle_chunk_message now m r).0 ≡ raised key_error)
      × ((handle_chunk_message later ender (handle_chunk_message now m r).1).0 ≡ raised type_error)
unfolding handle_chunk_message count_chunk
missing_data_breaks_transfer now later m ender r t i datas missing ends same found at h hole last =
    let full : (t.received + 1 == t.total_chunks) ≡ true = ground (arith, h.counted, h.slots) in
    (
      rw (datas, found, at, missing),
      rw (
        datas,
        found,
        at,
        missing,
        ends,
        same,
        lookup-insert,
        eq_refl,
        hole,
        full,
        join_short t.chunks (omega arith),
      ),
    )
