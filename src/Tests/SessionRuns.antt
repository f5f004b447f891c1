-- ===== src/Tests/SessionRuns.antt =====
-- src/controllers/webrtc_controller/session_manager.py and src/tools/connection_state.py on small
-- inputs.
use orchestrator_agent.Prelude.{
  ◌≡◌, ◌≢◌, refl, ℕ, ◌+◌, ◌++◌, String, true, none, some, List, [], ◌∷◌, arith, eq_iff,
}
use orchestrator_agent.Prelude.Dict.{IsDistinct, contains, lookup}
use orchestrator_agent.Sessions.{
  WebRtcSessionManager, init, new_session, touch_session, get_session, take_existing, put_new,
}
use orchestrator_agent.Sessions.Accounts.{
  Call, create, change, cleanup, run, times_open, times_closed, times_created,
}
use orchestrator_agent.Sessions.Conservation.{run-conserves}
use orchestrator_agent.Sessions.Activity.{create_session_race}

abbrev calls : List Call
calls =
    create 1 7 "s1" "plc"
    ∷ create 2 8 "s1" "plc"
    ∷ change 3 touch_session "s1"
    ∷ cleanup 400000000
    ∷ []

run-conserves_example :
    times_open 7 (run calls init).1.sessions + times_closed 7 (run calls init).0
    ≡ times_created 7 calls + times_open 7 init.sessions
unfolding init
run-conserves_example = run-conserves 7 calls init tt

abbrev two : WebRtcSessionManager
two = record {
  sessions = ("s1", new_session 1 7 "plc") ∷ ("s2", new_session 300000000 8 "plc") ∷ [];
  cleanup_task = true;
  on_session_closed = some 5;
}

two-IsDistinct : IsDistinct two.sessions
unfolding contains
two-IsDistinct = (refl, (refl, tt))

s1_found : get_session "s1" two ≡ some (new_session 1 7 "plc")
unfolding get_session lookup
s1_found = refl

apart : ◌≢◌ {A = String} "s1" "s2"
apart e = ground (arith, eq_iff "s1" "s2")

absent : get_session "s3" two ≡ none
unfolding get_session lookup
absent = refl

unused : times_open 9 two.sessions ≡ 0
unfolding times_open
unused = refl

different : ◌≢◌ {A = ℕ} 9 10
different e = omega arith

create_session_race_example :
    let a = take_existing "s3" two in
    let b = take_existing "s3" a.1 in
    let done = put_new 6 10 "s3" "plc" (put_new 5 9 "s3" "plc" b.1) in
    (times_open 9 done.sessions ≡ 0) × (times_closed 9 (a.0 ++ b.0) ≡ 0)
create_session_race_example = create_session_race 5 6 9 10 "s3" "plc" two absent different unused
