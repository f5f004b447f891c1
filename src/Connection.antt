-- ===== src/Connection.antt =====
-- src/tools/connection_state.py: what is known of the WebSocket connection over reconnections. Each
-- method holds the lock throughout. A heartbeat task is named by a number.
use orchestrator_agent.Prelude.{
  ◌≡◌, refl, ℕ, ◌+◌, Bool, true, false, Option, none, some, List, [], ◌∷◌, ◌++◌, arith,
}

pub record ConnectionStateTracker : Type 0 where
  pub has_ever_connected : Bool
  pub reconnect_attempt : ℕ
  pub heartbeat_task : Option ℕ

unfoldable pub init : ConnectionStateTracker
init = record { has_ever_connected = false; reconnect_attempt = 0; heartbeat_task = none }

unfoldable mark_connected : ConnectionStateTracker → ConnectionStateTracker
mark_connected s = record s { has_ever_connected = true; reconnect_attempt = 0 }

unfoldable increment_reconnect_attempt : ConnectionStateTracker → ConnectionStateTracker
increment_reconnect_attempt s = record s { reconnect_attempt = s.reconnect_attempt + 1 }

unfoldable set_heartbeat_task : Option ℕ → ConnectionStateTracker → ConnectionStateTracker
set_heartbeat_task task s = record s { heartbeat_task = task }

abbrev task_list : Option ℕ → List ℕ
task_list none = []
task_list (some t) = t ∷ []

-- The tasks that are cancelled, and the state after.
unfoldable cancel_heartbeat_task : ConnectionStateTracker → List ℕ × ConnectionStateTracker
cancel_heartbeat_task s = (task_list s.heartbeat_task, record s { heartbeat_task = none })

pub data Call : Type 0 where
  connected failed cancel : Call
  heartbeat : Option ℕ → Call

unfoldable pub perform : Call → ConnectionStateTracker → ConnectionStateTracker
unfolding mark_connected increment_reconnect_attempt set_heartbeat_task cancel_heartbeat_task
perform connected s = mark_connected s
perform failed s = increment_reconnect_attempt s
perform cancel s = (cancel_heartbeat_task s).1
perform (heartbeat t) s = set_heartbeat_task t s

unfoldable pub perform_all : List Call → ConnectionStateTracker → ConnectionStateTracker
unfolding perform
perform_all [] s = s
perform_all (c ∷ cs) s = perform_all cs (perform c s)

-- The number of failures, and whether there was a connection.
unfoldable failures : List Call → ℕ
failures [] = 0
failures (failed ∷ cs) = failures cs + 1
failures (_ ∷ cs) = failures cs

abbrev NoConnection : List Call → Type 0
NoConnection [] = Unit
NoConnection (connected ∷ cs) = ⊥
NoConnection (_ ∷ cs) = NoConnection cs

quiet :
    (cs : List Call) (s : ConnectionStateTracker)
    → NoConnection cs
    → ((perform_all cs s).reconnect_attempt ≡ failures cs + s.reconnect_attempt)
      × ((perform_all cs s).has_ever_connected ≡ s.has_ever_connected)
unfolding perform_all perform failures increment_reconnect_attempt cancel_heartbeat_task
    set_heartbeat_task
quiet [] s h = (omega arith, refl)
quiet (connected ∷ cs) s h = absurd h
quiet (failed ∷ cs) s h =
    let rest = quiet cs (increment_reconnect_attempt s) h in (omega (arith, rest.0), rest.1)
quiet (cancel ∷ cs) s h = quiet cs (cancel_heartbeat_task s).1 h
quiet (heartbeat t ∷ cs) s h = quiet cs (set_heartbeat_task t s) h

perform_all-append :
    (cs ds : List Call) (s : ConnectionStateTracker)
    → perform_all (cs ++ ds) s ≡ perform_all ds (perform_all cs s)
unfolding perform_all
perform_all-append [] ds s = refl
perform_all-append (c ∷ cs) ds s = perform_all-append cs ds (perform c s)

-- After any calls, a connection, and calls with no further connection: the attempt counter is the
-- number of failures since that connection, and the tracker knows that there was one.
attempts_since_connection :
    (before after : List Call) (s : ConnectionStateTracker)
    → NoConnection after
    → ((perform_all (before ++ (connected ∷ after)) s).reconnect_attempt ≡ failures after)
      × ((perform_all (before ++ (connected ∷ after)) s).has_ever_connected ≡ true)
unfolding perform_all perform mark_connected
attempts_since_connection before after s h =
    let rest = quiet after (mark_connected (perform_all before s)) h in
    rw (perform_all-append before (connected ∷ after) s) (omega (arith, rest.0), rest.1)
