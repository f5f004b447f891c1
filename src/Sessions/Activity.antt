-- ===== src/Sessions/Activity.antt =====
-- Updates of the sessions of src/controllers/webrtc_controller/session_manager.py and the cleanup,
-- and two tasks that create one session.
use orchestrator_agent.Prelude.{
  ◌≡◌, refl, ap, ◌∙◌, ◌≢◌, ℕ, ◌+◌, ◌*◌, ◌≤◌, String, false, Option, none, some, ◌++◌, if◌then◌else◌,
  arith, str_eq, eq_iff, Option-cases, inl, inr,
}
use orchestrator_agent.Prelude.Dict.{
  lookup, remove, IsDistinct, insert-IsDistinct, lookup-insert, insert-insert, lookup-contains,
}
use orchestrator_agent.Prelude.Sweep.{reject}
use orchestrator_agent.Sessions.{
  Session, WebRtcSessionManager, is_stale, cleanup_stale_sessions, modify_found, modify, Update,
  update_session_state, update_connection_state, touch_session, set_data_channel,
  set_channel_handler, set_debug_channel, set_debug_channel_handler, changed, update, new_session,
  get_session, with_ice, take_existing, put_new, shut_existing, session_timeout_seconds,
}
use orchestrator_agent.Sessions.Accounts.{
  times_open, times_closed, times_open-insert_new, remove_absent,
}
use orchestrator_agent.Sessions.Closing.{get_session-cleanup}

with_ice-last_activity :
    (ice : Option String) (s : Session) → (with_ice ice s).last_activity ≡ s.last_activity
with_ice-last_activity none s = refl
with_ice-last_activity (some ice) s = ground arith

changed-last_activity : (now : ℕ) (u : Update) (s : Session) → (changed now u s).last_activity ≡ now
unfolding changed
changed-last_activity now (update_session_state state) s = refl
changed-last_activity now (update_connection_state c ice) s = with_ice-last_activity ice _
changed-last_activity now touch_session s = refl
changed-last_activity now (set_data_channel c) s = refl
changed-last_activity now (set_channel_handler h) s = refl
changed-last_activity now (set_debug_channel c) s = refl
changed-last_activity now (set_debug_channel_handler h) s = refl

not_stale :
    (now later : ℕ) (s : Session)
    → s.last_activity ≡ now
    → later ≤ now + session_timeout_seconds * 1000000
    → is_stale later s ≡ false
unfolding is_stale
not_stale now later s e h = ground arith

modify_found-lookup :
    (sid other : String) (f : Session → Session) (s : Session) (m : WebRtcSessionManager)
    → lookup sid m.sessions ≡ some s
    → lookup other (modify sid f m).1.sessions
      ≡ (if str_eq sid other then some (f s) else lookup other m.sessions)
unfolding modify modify_found
modify_found-lookup sid other f s m e = rw e (lookup-insert sid other (f s) m.sessions)

update-IsDistinct :
    (now : ℕ) (u : Update) (sid : String) (s : Session) (m : WebRtcSessionManager)
    → lookup sid m.sessions ≡ some s
    → IsDistinct m.sessions
    → IsDistinct (update now u sid m).1.sessions
unfolding update modify modify_found
update-IsDistinct now u sid s m e h = rw e (insert-IsDistinct sid (changed now u s) m.sessions h)

-- Any update of a present session keeps it through every cleanup of the next 300 seconds, with the
-- update's values, in a table that has each session id once.
update_survives :
    (now later : ℕ) (u : Update) (sid : String) (s : Session) (m : WebRtcSessionManager)
    → IsDistinct m.sessions
    → get_session sid m ≡ some s
    → later ≤ now + session_timeout_seconds * 1000000
    → get_session sid (cleanup_stale_sessions later (update now u sid m).1).1
      ≡ some (changed now u s)
unfolding get_session update
update_survives now later u sid s m h e soon =
    let kept : lookup sid (update now u sid m).1.sessions ≡ some (changed now u s) =
      ground (arith, modify_found-lookup sid sid (changed now u) s m e, eq_iff sid sid) in
    let fresh : is_stale later (changed now u s) ≡ false =
      not_stale now later (changed now u s) (changed-last_activity now u s) soon in
    get_session-cleanup later sid (update now u sid m).1 (update-IsDistinct now u sid s m e h)
    ∙ (ap (reject (is_stale later)) kept ∙ ground (arith, fresh))

-- An update of one session leaves every other session as it is, whether the one is present or not.
update_other :
    (now : ℕ) (u : Update) (sid other : String) (m : WebRtcSessionManager)
    → sid ≢ other
    → get_session other (update now u sid m).1 ≡ get_session other m
unfolding get_session update modify modify_found
update_other now u sid other m ne = elim (Option-cases (lookup sid m.sessions)) [
  | inl absent ↦ rw absent refl
  | inr (s, present) ↦
      rw present
        (ground (arith, lookup-insert sid other (changed now u s) m.sessions, eq_iff sid other))
]

-- Two tasks create one session that is not in the table, and each passes the check before the other
-- inserts: then the first peer connection, new to the table, is neither in the table nor closed.
pub create_session_race :
    (now later first second : ℕ) (sid device : String) (m : WebRtcSessionManager)
    → get_session sid m ≡ none
    → first ≢ second
    → times_open first m.sessions ≡ 0
    → (let a = take_existing sid m in
        let b = take_existing sid a.1 in
        let done = put_new later second sid device (put_new now first sid device b.1) in
        (times_open first done.sessions ≡ 0) × (times_closed first (a.0 ++ b.0) ≡ 0))
unfolding get_session take_existing put_new shut_existing times_closed
create_session_race now later first second sid device m absent ne unused =
    let same : remove sid m.sessions ≡ m.sessions =
      remove_absent sid m.sessions (lookup-contains sid m.sessions absent) in
    (
      rw (same, same, insert-insert)
          (ground (
            arith,
            times_open-insert_new first sid (new_session later second device) m.sessions absent,
          )),
      rw (same, absent) refl,
    )
