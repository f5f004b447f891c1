-- ===== src/Tests/NetmonRuns.antt =====
-- src/repos/netmon_client_repo.py and src/tools/network_event_listener.py on small inputs.
use orchestrator_agent.Prelude.{◌≡◌, refl, false, none, some, String, List, [], ◌∷◌, All, any}
use orchestrator_agent.Netmon.{
  answered, timed_out, sent, raises_after, Event, send, arrive, receive, expire, init, run,
}
use orchestrator_agent.Netmon.Answers.{Own, AllPrompt, run-Own}
use orchestrator_agent.Listener.{
  Change, Listener, Event as Event', change, wake, noted, run as settle,
}
use orchestrator_agent.Listener.Loop.{
  LoopEvent, connected, set_up_fails, line, sends, receives, expires, start, loop_run, is_answer,
  loop_run-is_answer,
}
use orchestrator_agent.Listener.Debounce.{reconnections, run-reconnections}

-- The second command is sent after the late answer to the first.
abbrev patient : List Event
patient = send sent 1 ∷ expire ∷ arrive ∷ send sent 2 ∷ arrive ∷ receive ∷ send raises_after 3 ∷ []

patient-AllPrompt : AllPrompt patient init
unfolding init run
patient-AllPrompt = (refl, (tt, (tt, (refl, (tt, (tt, (refl, tt)))))))

run-Own_example : All Own (run patient init).results
run-Own_example = run-Own patient patient-AllPrompt

-- The second command is sent before the late answer to the first, which it takes for its own.
late_answer :
    (run (send sent 1 ∷ expire ∷ send sent 2 ∷ arrive ∷ receive ∷ []) init).results
    ≡ (2, answered 1) ∷ (1, timed_out) ∷ []
unfolding run init
late_answer = refl

abbrev change_to : String → Change
change_to subnet = record {
  interface = some "eth0";
  subnets = some subnet ∷ [];
  gateway = none;
  change_type = none;
}

abbrev idle : Listener
idle = record { interface_cache = []; pending_changes = []; last_event_time = []; reconnected = [] }

-- The sleep of an earlier change ends first, and too early.
abbrev sleeps : List Event'
sleeps =
    wake 2000000 "eth0"
    ∷ change 3000000 "eth1" (change_to "b")
    ∷ wake 4000000 "eth0"
    ∷ wake 5000000 "eth0"
    ∷ []

run-reconnections_example :
    reconnections "eth0" (settle sleeps (noted 1000000 "eth0" (change_to "a") idle)).reconnected
    ≡ change_to "a" ∷ []
run-reconnections_example = run-reconnections "eth0" (change_to "a") 1000000 sleeps idle refl refl

-- Netmon answers at once, but the answer is read only after the set-up.
abbrev set_up : List LoopEvent
set_up =
    connected
    ∷ sends sent 1
    ∷ line
    ∷ receives
    ∷ expires
    ∷ set_up_fails
    ∷ connected
    ∷ sends sent 2
    ∷ expires
    ∷ []

loop_run-is_answer_example : any is_answer (loop_run set_up start).client.results ≡ false
loop_run-is_answer_example = loop_run-is_answer set_up refl

both_time_out : (loop_run set_up start).client.results ≡ (2, timed_out) ∷ (1, timed_out) ∷ []
unfolding loop_run start
both_time_out = refl
