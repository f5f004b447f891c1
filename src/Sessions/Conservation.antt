-- ===== src/Sessions/Conservation.antt =====
-- The balance of the accounts after a call of the session manager, and after a sequence of calls.
use orchestrator_agent.Prelude.{
  ◌≡◌, refl, ℕ, ◌+◌, String, false, Option, none, some, List, [], ◌∷◌, arith, eq_iff, ◌==◌,
}
use orchestrator_agent.Prelude.Dict.{
  lookup, remove, keys, IsDistinct, insert-IsDistinct, remove-IsDistinct, lookup-remove,
}
use orchestrator_agent.Prelude.Sweep.{keys_where}
use orchestrator_agent.Sessions.{
  Session, WebRtcSessionManager, Effect, notify, on_some, shut_down, take_existing, put_new,
  create_session, close_found, close_session, close_each, is_stale, cleanup_stale_sessions,
  close_all_sessions, start, stop, register_callback, modify_found, modify, Update,
  update_session_state, update_connection_state, touch_session, set_data_channel,
  set_channel_handler, set_debug_channel, set_debug_channel_handler, changed, update, new_session,
  with_ice,
}
use orchestrator_agent.Sessions.Accounts.{
  Call, create, close, cleanup, close_all, start_manager, stop_manager, on_closed, change, perform,
  run, one_if, times_created, times_closed, times_open, uses, times_closed-append,
  times_open-remove, times_open-insert_new, times_open-insert_same, times_closed-on_some,
  times_closed-shut_down, times_closed-shut_existing,
}

-- The state's part and the effects' part of a step that makes `n` of peer connection `p`.
abbrev Balances : ℕ → ℕ → WebRtcSessionManager → List Effect × WebRtcSessionManager → Type 0
Balances p n m r =
    (IsDistinct r.1.sessions)
    × (times_open p r.1.sessions + times_closed p r.0 ≡ n + times_open p m.sessions)

close_found-Balances :
    (p : ℕ) (sid reason : String) (o : Option Session) (m : WebRtcSessionManager)
    → lookup sid m.sessions ≡ o
    → IsDistinct m.sessions
    → Balances p 0 m (close_found sid reason o m).1
unfolding close_found times_closed
close_found-Balances p sid reason none m e h = (h, omega arith)
close_found-Balances p sid reason (some s) m e h = (
  remove-IsDistinct sid m.sessions h,
  (let used : uses p (lookup sid m.sessions) ≡ one_if (s.pc == p) = rw e refl in
      omega (
        arith,
        used,
        times_open-remove p sid m.sessions h,
        times_closed-append p (shut_down s)
            (on_some (λ f. notify f sid reason) m.on_session_closed),
        times_closed-shut_down p s,
        times_closed-on_some p (λ f. notify f sid reason) m.on_session_closed (λ n. refl),
      )),
)

close_session-Balances :
    (p : ℕ) (sid reason : String) (m : WebRtcSessionManager)
    → IsDistinct m.sessions
    → Balances p 0 m (close_session sid reason m).1
unfolding close_session
close_session-Balances p sid reason m h =
    close_found-Balances p sid reason (lookup sid m.sessions) m refl h

close_each-Balances :
    (p : ℕ) (ids : List String) (reason : String) (m : WebRtcSessionManager)
    → IsDistinct m.sessions
    → Balances p 0 m (close_each ids reason m)
unfolding close_each times_closed
close_each-Balances p [] reason m h = (h, omega arith)
close_each-Balances p (sid ∷ ids) reason m h =
    let one = (close_session sid reason m).1 in
    let first = close_session-Balances p sid reason m h in
    let rest = close_each-Balances p ids reason one.1 first.0 in
    (
      rest.0,
      omega (arith, first.1, rest.1, times_closed-append p one.0 (close_each ids reason one.1).0),
    )

create_session-Balances :
    (p now pc : ℕ) (sid device : String) (m : WebRtcSessionManager)
    → IsDistinct m.sessions
    → Balances p (one_if (pc == p)) m (create_session now pc sid device m)
unfolding create_session take_existing put_new
create_session-Balances p now pc sid device m h =
    let gone : lookup sid (remove sid m.sessions) ≡ none =
      ground (arith, lookup-remove sid sid m.sessions, eq_iff sid sid) in
    (
      insert-IsDistinct sid (new_session now pc device) (remove sid m.sessions)
          (remove-IsDistinct sid m.sessions h),
      omega (
        arith,
        times_open-insert_new p sid (new_session now pc device) (remove sid m.sessions) gone,
        times_open-remove p sid m.sessions h,
        times_closed-shut_existing p (lookup sid m.sessions),
      ),
    )

with_ice-pc : (ice : Option String) (s : Session) → (with_ice ice s).pc ≡ s.pc
with_ice-pc none s = refl
with_ice-pc (some ice) s = ground arith

changed-pc : (now : ℕ) (u : Update) (s : Session) → (changed now u s).pc ≡ s.pc
unfolding changed
changed-pc now (update_session_state state) s = refl
changed-pc now (update_connection_state c ice) s = with_ice-pc ice _
changed-pc now touch_session s = refl
changed-pc now (set_data_channel c) s = refl
changed-pc now (set_channel_handler h) s = refl
changed-pc now (set_debug_channel c) s = refl
changed-pc now (set_debug_channel_handler h) s = refl

modify_found-Balances :
    (p now : ℕ) (u : Update) (sid : String) (o : Option Session) (m : WebRtcSessionManager)
    → lookup sid m.sessions ≡ o
    → IsDistinct m.sessions
    → Balances p 0 m ([], (modify_found sid (changed now u) o m).1)
unfolding modify_found times_closed
modify_found-Balances p now u sid none m e h = (h, omega arith)
modify_found-Balances p now u sid (some s) m e h = (
  insert-IsDistinct sid (changed now u s) m.sessions h,
  omega (arith, times_open-insert_same p sid (changed now u s) s m.sessions e (changed-pc now u s)),
)

abbrev made_by : ℕ → Call → ℕ
made_by p (create now pc sid device) = one_if (pc == p)
made_by p _ = 0

perform-Balances :
    (p : ℕ) (c : Call) (m : WebRtcSessionManager)
    → IsDistinct m.sessions
    → Balances p (made_by p c) m (perform c m)
unfolding perform cleanup_stale_sessions close_all_sessions start stop register_callback update
    modify times_closed
perform-Balances p (create now pc sid device) m h = create_session-Balances p now pc sid device m h
perform-Balances p (close sid reason) m h = close_session-Balances p sid reason m h
perform-Balances p (cleanup now) m h =
    close_each-Balances p (keys_where (is_stale now) m.sessions) "timeout" m h
perform-Balances p close_all m h = close_each-Balances p (keys m.sessions) "shutdown" m h
perform-Balances p start_manager m h = (h, omega arith)
perform-Balances p stop_manager m h =
    close_each-Balances p (keys m.sessions) "shutdown" (record m { cleanup_task = false }) h
perform-Balances p (on_closed f) m h = (h, omega arith)
perform-Balances p (change now u sid) m h =
    modify_found-Balances p now u sid (lookup sid m.sessions) m refl h

times_created-∷ :
    (p : ℕ) (c : Call) (cs : List Call)
    → times_created p (c ∷ cs) ≡ made_by p c + times_created p cs
unfolding times_created
times_created-∷ p (create now pc sid device) cs = refl
times_created-∷ p (close sid reason) cs = omega arith
times_created-∷ p (cleanup now) cs = omega arith
times_created-∷ p close_all cs = omega arith
times_created-∷ p start_manager cs = omega arith
times_created-∷ p stop_manager cs = omega arith
times_created-∷ p (on_closed f) cs = omega arith
times_created-∷ p (change now u sid) cs = omega arith

-- Over any sequence of calls, from a state whose table has each session id once: a peer connection
-- is open in the table or closed exactly as often as it was open before or given to a new session.
-- So none leaks and none is closed twice.
pub run-conserves :
    (p : ℕ) (cs : List Call) (m : WebRtcSessionManager)
    → IsDistinct m.sessions
    → times_open p (run cs m).1.sessions + times_closed p (run cs m).0
      ≡ times_created p cs + times_open p m.sessions
unfolding run times_closed times_created
run-conserves p [] m h = omega arith
run-conserves p (c ∷ cs) m h =
    let one = perform c m in
    let first = perform-Balances p c m h in
    omega (
      arith,
      first.1,
      run-conserves p cs one.1 first.0,
      times_created-∷ p c cs,
      times_closed-append p one.0 (run cs one.1).0,
    )
