-- ===== src/Sessions/Closing.antt =====
-- Which sessions a close, a cleanup, a shutdown and an update leave in the table.
use orchestrator_agent.Prelude.{
  ◌≡◌, refl, sym, ap, ◌∙◌, ℕ, String, Bool, true, false, Option, none, some, List, [], ◌∷◌,
  if◌then◌else◌, arith, str_eq, eq_iff, length,
}
use orchestrator_agent.Prelude.Dict.{
  Dict, lookup, remove, keys, IsDistinct, lookup-contains, lookup-remove,
}
use orchestrator_agent.Prelude.Sweep.{keys_where, remove_all, reject, lookup-sweep}
use orchestrator_agent.Sessions.{
  Session, WebRtcSessionManager, close_found, close_session, close_each, is_stale,
  cleanup_stale_sessions, close_all_sessions, stop, get_session, get_session_count,
}
use orchestrator_agent.Sessions.Accounts.{remove_absent}

close_found-sessions :
    (sid reason : String) (o : Option Session) (m : WebRtcSessionManager)
    → lookup sid m.sessions ≡ o
    → (close_found sid reason o m).1.1.sessions ≡ remove sid m.sessions
unfolding close_found
close_found-sessions sid reason none m e =
    sym (remove_absent sid m.sessions (lookup-contains sid m.sessions e))
close_found-sessions sid reason (some s) m e = refl

close_each-sessions :
    (ids : List String) (reason : String) (m : WebRtcSessionManager)
    → (close_each ids reason m).1.sessions ≡ remove_all ids m.sessions
unfolding close_each remove_all close_session
close_each-sessions [] reason m = refl
close_each-sessions (sid ∷ ids) reason m =
    close_each-sessions ids reason (close_session sid reason m).1.1
    ∙ ap (remove_all ids) (close_found-sessions sid reason (lookup sid m.sessions) m refl)

-- After `cleanup_stale_sessions` a session is gone exactly when it had been idle for more than 300
-- seconds, for each session id of a table that has each id once.
pub get_session-cleanup :
    (now : ℕ) (sid : String) (m : WebRtcSessionManager)
    → IsDistinct m.sessions
    → get_session sid (cleanup_stale_sessions now m).1 ≡ reject (is_stale now) (get_session sid m)
unfolding get_session cleanup_stale_sessions
get_session-cleanup now sid m h =
    ap (lookup sid) (close_each-sessions (keys_where (is_stale now) m.sessions) "timeout" m)
    ∙ lookup-sweep (is_stale now) sid m.sessions h

keys_where_all : (m : Dict Session) → keys_where (λ _. true) m ≡ keys m
unfolding keys_where keys
keys_where_all [] = refl
keys_where_all ((k, s) ∷ m) = ap (k ∷◌) (keys_where_all m)

empty_if_none : (m : Dict Session) → ((k : String) → lookup k m ≡ none) → m ≡ []
unfolding lookup
empty_if_none [] h = refl
empty_if_none ((j, s) ∷ m) h = absurd (ground (arith, h j, eq_iff j j))

reject_all : (o : Option Session) → reject (λ _. true) o ≡ none
reject_all none = refl
reject_all (some s) = refl

-- `stop` leaves no session, whatever the table was, and `get_session_count` is 0 then.
stop_empties :
    (m : WebRtcSessionManager)
    → IsDistinct m.sessions
    → ((stop m).1.sessions ≡ []) × (get_session_count (stop m).1 ≡ 0)
unfolding stop close_all_sessions get_session_count
stop_empties m h =
    let swept : (stop m).1.sessions ≡ remove_all (keys_where (λ _. true) m.sessions) m.sessions =
      close_each-sessions (keys m.sessions) "shutdown" (record m { cleanup_task = false })
      ∙ ap (λ ks. remove_all ks m.sessions) (sym (keys_where_all m.sessions)) in
    let empty : (stop m).1.sessions ≡ [] =
      swept
      ∙ empty_if_none _
          (λ k. lookup-sweep (λ _. true) k m.sessions h ∙ reject_all (lookup k m.sessions)) in
    (empty, ap length empty)

abbrev is_some : {A : Type 0} → Option A → Bool
is_some none = false
is_some (some _) = true

close_found-result :
    (sid reason : String) (o : Option Session) (m : WebRtcSessionManager)
    → (close_found sid reason o m).0 ≡ is_some o
unfolding close_found
close_found-result sid reason none m = refl
close_found-result sid reason (some s) m = refl

close_found_again :
    (sid reason : String) (o : Option Session) (m : WebRtcSessionManager)
    → o ≡ none
    → close_found sid reason o m ≡ (false, ([], m))
unfolding close_found
close_found_again sid reason o m e = rw e refl

-- `close_session` says whether the session was there; afterwards it is not, every other session is
-- as before, and closing it again answers false, makes no call and changes nothing.
close_session_once :
    (sid reason again other : String) (m : WebRtcSessionManager)
    → (close_session sid reason m).0 ≡ is_some (get_session sid m)
      × (get_session other (close_session sid reason m).1.1
            ≡ (if str_eq sid other then none else get_session other m)
          × (close_session sid again (close_session sid reason m).1.1
              ≡ (false, ([], (close_session sid reason m).1.1))))
unfolding close_session get_session
close_session_once sid reason again other m =
    let sessions = close_found-sessions sid reason (lookup sid m.sessions) m refl in
    let gone : lookup sid (close_session sid reason m).1.1.sessions ≡ none =
      ap (lookup sid) sessions ∙ ground (arith, lookup-remove sid sid m.sessions, eq_iff sid sid) in
    (
      close_found-result sid reason (lookup sid m.sessions) m,
      (
        ap (lookup other) sessions ∙ lookup-remove sid other m.sessions,
        close_found_again sid again _ (close_session sid reason m).1.1 gone,
      ),
    )
