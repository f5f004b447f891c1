-- ===== src/Netmon.antt =====
-- src/repos/netmon_client_repo.py: commands to netmon over one socket, and the answers that
-- src/tools/network_event_listener.py delivers. Netmon is the queue of the commands that it has been
-- sent and not answered yet, which it answers in order. A command is known by its number, and an
-- answer by the command that it answers. A command is sent once it has the lock, and looks at the writer
-- then; the look at it before the lock, which lets a command that would have to wait return at once, is
-- left out.
pub mod Answers
use orchestrator_agent.Prelude.{
  ℕ, Bool, true, false, Option, none, some, List, [], ◌∷◌, ◌++◌, if◌then◌else◌,
}

-- What `send_command` returns: an answer, or the texts of its three errors.
pub data Result : Type 0 where
  answered : ℕ → Result
  not_connected send_failed timed_out : Result

-- `slot` is the queue of size one, and `waiting` the command that holds the lock. `results` are the
-- commands that have returned, the last one first.
pub record NetmonClient : Type 0 where
  pub writer : Bool
  pub slot : Option ℕ
  pub waiting : Option ℕ
  pub in_flight : List ℕ
  pub results : List (ℕ × Result)

unfoldable pub init : NetmonClient
init = record { writer = true; slot = none; waiting = none; in_flight = []; results = [] }

-- `put_nowait` of a queue of size one; a full queue discards the answer.
abbrev put_nowait : ℕ → Option ℕ → Option ℕ
put_nowait answer none = some answer
put_nowait answer (some held) = some held

-- `deliver_response`
unfoldable pub deliver_response : ℕ → NetmonClient → NetmonClient
deliver_response answer c = record c { slot = put_nowait answer c.slot }

abbrev pub returned : ℕ → Result → NetmonClient → NetmonClient
returned command result c = record c { waiting = none; results = (command, result) ∷ c.results }

-- How the write of a command goes: it is sent; or it raises, when netmon may have got it or not.
pub data Sending : Type 0 where
  sent raises_after raises_before : Sending

abbrev pub written : Sending → ℕ → NetmonClient → NetmonClient
written sent command c = record c {
  waiting = some command;
  in_flight = c.in_flight ++ command ∷ [];
}
written raises_after command c =
    returned command send_failed (record c { in_flight = c.in_flight ++ command ∷ [] })
written raises_before command c = returned command send_failed c

-- `send_command` with the lock, up to its wait: the slot is drained, and the command is written.
unfoldable pub send_command : Sending → ℕ → NetmonClient → NetmonClient
send_command how command c =
    if c.writer
    then written how command (record c { slot = none })
    else returned command not_connected c

-- The end of the wait, where there is an answer.
abbrev pub got : Option ℕ → Option ℕ → NetmonClient → NetmonClient
got (some command) (some answer) c = returned command (answered answer) (record c { slot = none })
got none answer c = c
got (some command) none c = c

-- The end of the wait after fifteen seconds. An answer that is there is taken instead.
abbrev pub expired : Option ℕ → Option ℕ → NetmonClient → NetmonClient
expired (some command) none c = returned command timed_out c
expired none answer c = c
expired (some command) (some answer) c = c

-- The next answer of netmon arrives.
abbrev pub arrived : List ℕ → NetmonClient → NetmonClient
arrived [] c = c
arrived (command ∷ rest) c = record c { slot = put_nowait command c.slot; in_flight = rest }

pub data Event : Type 0 where
  send : Sending → ℕ → Event
  arrive receive expire : Event
  connect : Bool → Event

abbrev pub when_free : Option ℕ → NetmonClient → NetmonClient → NetmonClient
when_free none c next = next
when_free (some command) c next = c

-- One step. A command waits for the lock while another holds it.
unfoldable pub step : Event → NetmonClient → NetmonClient
unfolding send_command
step (send how command) c = when_free c.waiting c (send_command how command c)
step arrive c = arrived c.in_flight c
step receive c = got c.waiting c.slot c
step expire c = expired c.waiting c.slot c
step (connect on) c = record c { writer = on }

unfoldable pub run : List Event → NetmonClient → NetmonClient
unfolding step
run [] c = c
run (ev ∷ evs) c = run evs (step ev c)
