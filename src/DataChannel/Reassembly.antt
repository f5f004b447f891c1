-- ===== src/DataChannel/Reassembly.antt =====
-- A long message that the browser's sender cuts in chunks, and the data channel that puts it together:
-- src/tools/chunking.py and
-- src/controllers/webrtc_controller/data_channel/data_channel_handler.py.
use mathlib.Core.List.{append-nil}
use orchestrator_agent.Prelude.{
  ◌≡◌, refl, sym, ap, ◌∙◌, ℕ, zero, suc, ◌≤◌, String, Bool, true, false, Option, none, some, List,
  [], ◌∷◌, ◌++◌, if◌then◌else◌, arith, All, length, replicate, le→ltb_false,
}
use orchestrator_agent.Prelude.Dict.{remove}
use orchestrator_agent.Chunking.{
  Text, Message, ChunkReassembler, Outcome, returned, is_chunk_message, handle_chunk_message,
  chunk_messages, data_messages, start_message, data_message, end_message, encode, next_transfer_id,
  split_into_chunks, chunk_threshold, max_total_size, ceil_div, chunk_payload_size,
}
use orchestrator_agent.Chunking.RoundTrip.{deliver, deliver-cons, outcomes, Decodes, split-deliver}
use orchestrator_agent.DataChannel.{
  DataChannelHandler, Incoming, Parsed, object, no_object, Effect, touch_session, Env, Step,
  message, assembled, is_chunk, handle_parsed, handle_message, dispatch_message, dispatch_text,
  step, steps,
}

-- A chunk message as it is decoded.
abbrev pub carrier : Message → Incoming
carrier m = record { chunk = m; correlation_id = none }

abbrev chunk_of : Parsed → Option Message
chunk_of (object msg) = some msg.chunk
chunk_of no_object = none

-- The texts arrive one after the other.
abbrev pub arrivals : {A : Type 0} → Env A → List Text → List (Env A × Step A)
arrivals e [] = []
arrivals e (x ∷ xs) = (e, message (some x)) ∷ arrivals e xs

else_branch : {B : Type 0} (b : Bool) (x y : B) → b ≡ false → (if b then x else y) ≡ y
else_branch true x y h = absurd (ground arith)
else_branch false x y h = refl

then_branch : {B : Type 0} (b : Bool) (x y : B) → b ≡ true → (if b then x else y) ≡ x
then_branch true x y h = refl
then_branch false x y h = absurd (ground arith)

abbrev rest_of : List Outcome → List Outcome
rest_of [] = []
rest_of (o ∷ os) = os

abbrev first_of : List Outcome → Outcome
first_of [] = returned none
first_of (o ∷ os) = o

module _ {A : Type 0} (e : Env A) where
  abbrev pub Carries : Message → Type 0
  Carries m = e.loads (e.dumps_chunk m) ≡ object (carrier m)

  -- What an outcome of the reassembler does to the handler that received the chunk.
  abbrev after : Outcome → ChunkReassembler → DataChannelHandler → List Effect × DataChannelHandler
  after o r h =
      let put = assembled e o (record h { chunk_reassembler = r }) in (touch_session ∷ put.0, put.1)

  step-chunk :
      (m : Message) (h : DataChannelHandler)
      → Carries m
      → is_chunk m.msg_type ≡ true
      → h.closed ≡ false
      → let done = handle_chunk_message e.now m h.chunk_reassembler in
        step e (message (some (e.dumps_chunk m))) h ≡ after done.0 done.1 h
  unfolding step handle_message handle_parsed
  step-chunk m h carries chunk alive =
      else_branch h.closed _ _ alive
      ∙ ap (λ p. handle_parsed e p h) carries
      ∙ then_branch (is_chunk m.msg_type) _ _ chunk

  abbrev decoder : Text → Option Message
  decoder x = chunk_of (e.loads x)

  -- The reassembler over the encoded messages, all at one time.
  abbrev received : List Message → ChunkReassembler → List Outcome × ChunkReassembler
  received ms r = deliver decoder (λ _. e.now) (encode e.dumps_chunk ms) r

  -- A chunk message, and its text decodes to it.
  abbrev IsArriving : Message → Type 0
  IsArriving m = Carries m × (is_chunk m.msg_type ≡ true)

  received-cons :
      (m : Message) (ms : List Message) (r : ChunkReassembler)
      → IsArriving m
      → let one = handle_chunk_message e.now m r in
        received (m ∷ ms) r ≡ (one.0 ∷ (received ms one.1).0, (received ms one.1).1)
  unfolding encode
  received-cons m ms r arriving =
      let one = handle_chunk_message e.now m r in
      deliver-cons e.dumps_chunk decoder (λ _. e.now) m (encode e.dumps_chunk ms) r one.1 one.0
        (ap chunk_of arriving.0) refl

  steps-last :
      (ms : List Message) (o : Outcome) (s : Text) (r r' : ChunkReassembler)
      → All IsArriving ms
      → ◌≡◌ {A = List Outcome × ChunkReassembler}
          (o ∷ (received ms r).0, (received ms r).1)
          (returned (some s) ∷ [], r')
      → (ms ≡ []) × (o ≡ returned (some s)) × (r ≡ r')
  unfolding encode deliver
  steps-last [] o s r r' a q = (refl, ground (arith, ap (λ x. x.0) q), ap (λ x. x.1) q)
  steps-last (m ∷ ms) o s r r' a q =
      absurd (ground (arith, ap (λ x. x.0) q, ap (λ x. x.0) (received-cons m ms r a.0)))

  abbrev then_steps :
      List Effect × DataChannelHandler → List Message → List Effect × DataChannelHandler
  then_steps one ms =
      let rest = steps (arrivals e (encode e.dumps_chunk ms)) one.1 in (one.0 ++ rest.0, rest.1)

  then_steps-nil : (one : List Effect × DataChannelHandler) → then_steps one [] ≡ one
  unfolding steps encode
  then_steps-nil one = ap (λ l. (l, one.1)) (append-nil one.0)

  -- The handler after a list of chunk messages whose outcomes are nothing `k` times and then a text.
  steps-outcomes :
      (ms : List Message) (k : ℕ) (s : Text) (r' : ChunkReassembler) (h : DataChannelHandler)
      → All IsArriving ms
      → h.closed ≡ false
      → received ms h.chunk_reassembler ≡ (outcomes k s, r')
      → let put = assembled e (returned (some s)) (record h { chunk_reassembler = r' }) in
        steps (arrivals e (encode e.dumps_chunk ms)) h
        ≡ (replicate (suc k) touch_session ++ put.0, put.1)
  unfolding steps encode deliver assembled
  steps-outcomes [] zero s r' h a alive q = absurd (ground (arith, ap (λ x. x.0) q))
  steps-outcomes [] (suc k) s r' h a alive q = absurd (ground (arith, ap (λ x. x.0) q))
  steps-outcomes (m ∷ ms) zero s r' h a alive q =
      let one = handle_chunk_message e.now m h.chunk_reassembler in
      let whole = sym (received-cons m ms h.chunk_reassembler a.0) ∙ q in
      let (ended, text, left) = steps-last ms one.0 s one.1 r' a.1 whole in
      ap (λ x. then_steps x ms) (step-chunk m h a.0.0 a.0.1 alive)
      ∙ ap (then_steps (after one.0 one.1 h)) ended
      ∙ then_steps-nil (after one.0 one.1 h)
      ∙ ap (λ o. after o one.1 h) text
      ∙ ap (λ r. after (returned (some s)) r h) left
  steps-outcomes (m ∷ ms) (suc k) s r' h a alive q =
      let one = handle_chunk_message e.now m h.chunk_reassembler in
      let whole = sym (received-cons m ms h.chunk_reassembler a.0) ∙ q in
      let rest = ap (λ x. (rest_of x.0, x.1)) whole in
      ap (λ x. then_steps x ms) (step-chunk m h a.0.0 a.0.1 alive)
      ∙ ap (λ o. then_steps (after o one.1 h) ms) (ap (λ x. first_of x.0) whole)
      ∙ ap (λ x. (touch_session ∷ x.0, x.1))
          (steps-outcomes ms k s r' (record h { chunk_reassembler = one.1 }) a.1 alive rest)

  All-Decodes : (ms : List Message) → All Carries ms → All (Decodes e.dumps_chunk decoder) ms
  All-Decodes [] a = tt
  All-Decodes (m ∷ ms) a = (ap chunk_of a.0, All-Decodes ms a.1)

  data-IsArriving :
      (size : ℕ) (tid : String) (text : Text) (seq n : ℕ)
      → All Carries (data_messages size tid text seq n ++ end_message tid ∷ [])
      → All IsArriving (data_messages size tid text seq n ++ end_message tid ∷ [])
  unfolding data_messages data_message end_message is_chunk_message
  data-IsArriving size tid text seq zero a = ((a.0, refl), tt)
  data-IsArriving size tid text seq (suc n) a =
      ((a.0, refl), data-IsArriving size tid text (suc seq) n a.1)

  chunks-IsArriving :
      (tid : String) (text : Text)
      → All Carries (chunk_messages tid text)
      → All IsArriving (chunk_messages tid text)
  unfolding chunk_messages start_message is_chunk_message
  chunks-IsArriving tid text a = ((a.0, refl), data-IsArriving chunk_payload_size tid text 0 _ a.1)

  split_long :
      (now_ms counter : ℕ) (text : Text)
      → chunk_threshold ≤ length text
      → (split_into_chunks e.dumps_chunk now_ms counter text).0
        ≡ encode e.dumps_chunk (chunk_messages (next_transfer_id now_ms counter).0 text)
  unfolding split_into_chunks
  split_long now_ms counter text long =
      ap (λ (x : List Text × ℕ). x.0)
        (else_branch _ _ _ (le→ltb_false (length text) chunk_threshold long))

  assembled_text :
      (text : Text) (msg : Incoming) (h : DataChannelHandler)
      → 1 ≤ length text
      → e.loads text ≡ object msg
      → assembled e (returned (some text)) h ≡ dispatch_message e msg h
  unfolding assembled dispatch_text
  assembled_text [] msg h full decodes = absurd (omega arith)
  assembled_text (c ∷ s) msg h full decodes = ap (λ p. dispatch_text e p h) decodes

  -- A message of 15,000 to 100,000,000 code points that the sender cuts in chunks arrives whole at a
  -- handler that is not closed, if the chunks' texts decode to what was encoded and the message to an
  -- object: the steps of its texts report activity once for each chunk and twice more, then do what
  -- the object itself makes the handler do, with no transfer of that id left in the reassembler.
  pub split-arrives :
      (now_ms counter : ℕ) (text : Text) (msg : Incoming) (h : DataChannelHandler)
      → h.closed ≡ false
      → chunk_threshold ≤ length text
      → length text ≤ max_total_size
      → All Carries (chunk_messages (next_transfer_id now_ms counter).0 text)
      → e.loads text ≡ object msg
      → let tid = (next_transfer_id now_ms counter).0 in
        let left : ChunkReassembler = record {
          transfers = remove tid h.chunk_reassembler.transfers;
        } in
        let done = dispatch_message e msg (record h { chunk_reassembler = left }) in
        steps (arrivals e (split_into_chunks e.dumps_chunk now_ms counter text).0) h ≡ (
          replicate (suc (suc (ceil_div (length text) chunk_payload_size))) touch_session ++ done.0,
          done.1,
        )
  split-arrives now_ms counter text msg h alive long fits carries decodes =
      let ms = chunk_messages (next_transfer_id now_ms counter).0 text in
      let n = ceil_div (length text) chunk_payload_size in
      let cut = split_long now_ms counter text long in
      let r = h.chunk_reassembler in
      let delivered =
        split-deliver e.dumps_chunk decoder (λ _. e.now) now_ms counter text r long fits
          (All-Decodes ms carries) in
      ap (λ xs. steps (arrivals e xs) h) cut
      ∙ steps-outcomes ms (suc n) text _ h (chunks-IsArriving _ text carries) alive
          (ap (λ xs. deliver decoder (λ _. e.now) xs r) (sym cut) ∙ delivered)
      ∙ ap (λ x. (replicate (suc (suc n)) touch_session ++ x.0, x.1))
          (assembled_text text msg _ (omega (arith, long)) decodes)
