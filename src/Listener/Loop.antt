-- ===== src/Listener/Loop.antt =====
-- `_listen_loop` of src/tools/network_event_listener.py with the netmon client: the loop connects, sets
-- up what depends on the network, and only then reads from the socket. Other tasks send commands at
-- any time.
use orchestrator_agent.Prelude.{
  ◌≡◌, refl, ℕ, Bool, true, false, Option, none, some, List, [], ◌∷◌, any, either_branch, arith,
}
use orchestrator_agent.Netmon.{
  Result, answered, not_connected, send_failed, timed_out, NetmonClient, init, returned, Sending,
  sent, raises_after, raises_before, written, send_command, got, expired, Event, arrive, send,
  receive, expire, connect, when_free, step,
}

-- Waiting for the socket, awaiting the set-up, and reading lines.
pub data Phase : Type 0 where
  waiting_for_socket setting_up reading : Phase

pub record Loop : Type 0 where
  pub phase : Phase
  pub client : NetmonClient

-- What the loop does, and the steps of a command. A line is one with an answer; those with an event
-- do not concern the client. An exception of the set-up starts the loop again, and keeps the writer.
pub data LoopEvent : Type 0 where
  connected set_up_done set_up_fails line closed : LoopEvent
  sends : Sending → ℕ → LoopEvent
  receives expires : LoopEvent

unfoldable pub start : Loop
unfolding init
start = record { phase = waiting_for_socket; client = record init { writer = false } }

abbrev with_client : Event → Loop → Loop
with_client ev l = record l { client = step ev l.client }

abbrev pub on_connected : Phase → Loop → Loop
on_connected waiting_for_socket l = record l {
  phase = setting_up;
  client = step (connect true) l.client;
}
on_connected setting_up l = l
on_connected reading l = l

abbrev pub on_set_up_done : Phase → Loop → Loop
on_set_up_done setting_up l = record l { phase = reading }
on_set_up_done waiting_for_socket l = l
on_set_up_done reading l = l

abbrev pub on_set_up_fails : Phase → Loop → Loop
on_set_up_fails setting_up l = record l { phase = waiting_for_socket }
on_set_up_fails waiting_for_socket l = l
on_set_up_fails reading l = l

-- `_handle_event` with an answer, for a line that was read.
abbrev pub on_line : Phase → Loop → Loop
on_line reading l = with_client arrive l
on_line waiting_for_socket l = l
on_line setting_up l = l

abbrev pub on_closed : Phase → Loop → Loop
on_closed reading l = record l {
  phase = waiting_for_socket;
  client = step (connect false) l.client;
}
on_closed waiting_for_socket l = l
on_closed setting_up l = l

unfoldable pub loop_step : LoopEvent → Loop → Loop
unfolding step
loop_step connected l = on_connected l.phase l
loop_step set_up_done l = on_set_up_done l.phase l
loop_step set_up_fails l = on_set_up_fails l.phase l
loop_step line l = on_line l.phase l
loop_step closed l = on_closed l.phase l
loop_step (sends how command) l = with_client (send how command) l
loop_step receives l = with_client receive l
loop_step expires l = with_client expire l

unfoldable pub loop_run : List LoopEvent → Loop → Loop
unfolding loop_step
loop_run [] l = l
loop_run (ev ∷ evs) l = loop_run evs (loop_step ev l)

abbrev pub is_set_up_done : LoopEvent → Bool
is_set_up_done set_up_done = true
is_set_up_done connected = false
is_set_up_done set_up_fails = false
is_set_up_done line = false
is_set_up_done closed = false
is_set_up_done (sends how command) = false
is_set_up_done receives = false
is_set_up_done expires = false

abbrev pub is_answer : ℕ × Result → Bool
is_answer (command, answered other) = true
is_answer (command, not_connected) = false
is_answer (command, send_failed) = false
is_answer (command, timed_out) = false

abbrev NotReading : Phase → Type 0
NotReading waiting_for_socket = Unit
NotReading setting_up = Unit
NotReading reading = ⊥

-- No answer is at hand, and none has been returned.
abbrev NoAnswers : NetmonClient → Type 0
NoAnswers c = (c.slot ≡ none) × (any is_answer c.results ≡ false)

abbrev Silent : Loop → Type 0
Silent l = NotReading l.phase × NoAnswers l.client

written-NoAnswers :
    (how : Sending) (command : ℕ) (c : NetmonClient)
    → NoAnswers c
    → NoAnswers (written how command c)
written-NoAnswers sent command c h = h
written-NoAnswers raises_after command c h = h
written-NoAnswers raises_before command c h = h

free-NoAnswers :
    (w : Option ℕ) (c next : NetmonClient)
    → NoAnswers c
    → NoAnswers next
    → NoAnswers (when_free w c next)
free-NoAnswers none c next h g = g
free-NoAnswers (some command) c next h g = h

got-NoAnswers : (w s : Option ℕ) (c : NetmonClient) → s ≡ none → NoAnswers c → NoAnswers (got w s c)
got-NoAnswers none s c e h = h
got-NoAnswers (some command) none c e h = h
got-NoAnswers (some command) (some answer) c e h = absurd cc

expired-NoAnswers : (w s : Option ℕ) (c : NetmonClient) → NoAnswers c → NoAnswers (expired w s c)
expired-NoAnswers none s c h = h
expired-NoAnswers (some command) none c h = h
expired-NoAnswers (some command) (some answer) c h = h

connected-Silent : (p : Phase) (l : Loop) → Silent l → Silent (on_connected p l)
unfolding step
connected-Silent waiting_for_socket l h = (tt, h.1)
connected-Silent setting_up l h = h
connected-Silent reading l h = h

fails-Silent : (p : Phase) (l : Loop) → Silent l → Silent (on_set_up_fails p l)
fails-Silent waiting_for_socket l h = h
fails-Silent setting_up l h = (tt, h.1)
fails-Silent reading l h = h

line-Silent : (p : Phase) (l : Loop) → NotReading p → Silent l → Silent (on_line p l)
line-Silent waiting_for_socket l n h = h
line-Silent setting_up l n h = h
line-Silent reading l n h = elim n [ ]

closed-Silent : (p : Phase) (l : Loop) → NotReading p → Silent l → Silent (on_closed p l)
closed-Silent waiting_for_socket l n h = h
closed-Silent setting_up l n h = h
closed-Silent reading l n h = elim n [ ]

step-Silent :
    (ev : LoopEvent) (l : Loop) → is_set_up_done ev ≡ false → Silent l → Silent (loop_step ev l)
unfolding loop_step step send_command
step-Silent connected l e h = connected-Silent l.phase l h
step-Silent set_up_done l e h = absurd cc
step-Silent set_up_fails l e h = fails-Silent l.phase l h
step-Silent line l e h = line-Silent l.phase l h.0 h
step-Silent closed l e h = closed-Silent l.phase l h.0 h
step-Silent (sends how command) l e h =
    let c = l.client in
    let drained = record c { slot = none } in
    (
      h.0,
      free-NoAnswers c.waiting c (send_command how command c) h.1 (
          either_branch NoAnswers c.writer (written how command drained)
            (returned command not_connected c) (written-NoAnswers how command drained (refl, h.1.1))
            h.1),
    )
step-Silent receives l e h = (h.0, got-NoAnswers l.client.waiting l.client.slot l.client h.1.0 h.1)
step-Silent expires l e h = (h.0, expired-NoAnswers l.client.waiting l.client.slot l.client h.1)

run-Silent :
    (evs : List LoopEvent) (l : Loop)
    → any is_set_up_done evs ≡ false
    → Silent l
    → Silent (loop_run evs l)
unfolding loop_run
run-Silent [] l e h = h
run-Silent (ev ∷ evs) l e h =
    let here : is_set_up_done ev ≡ false = ground (arith, e) in
    run-Silent evs (loop_step ev l) (ground (arith, e)) (step-Silent ev l here h)

-- As long as no set-up has ended, no command returns an answer, those of the set-up itself included,
-- whatever netmon sends and however often the set-up fails: nothing reads from the socket.
pub loop_run-is_answer :
    (evs : List LoopEvent)
    → any is_set_up_done evs ≡ false
    → any is_answer (loop_run evs start).client.results ≡ false
unfolding start init
loop_run-is_answer evs e = (run-Silent evs start e (tt, (refl, refl))).1.1
