-- ===== src/Sessions/Accounts.antt =====
-- Accounting for the peer connections of src/controllers/webrtc_controller/session_manager.py: the
-- calls as data, and how often a peer connection is made, open and closed.
use orchestrator_agent.Prelude.{
  ◌≡◌, refl, ℕ, ◌+◌, String, Bool, true, false, Option, none, some, List, [], ◌∷◌, ◌++◌, arith,
  str_eq, eq_iff, ◌==◌, Bool-cases, inl, inr,
}
use orchestrator_agent.Prelude.Dict.{Dict, lookup, insert, remove, contains, IsDistinct}
use orchestrator_agent.Sessions.{
  Session, WebRtcSessionManager, Effect, close_channel_handler, close_debug_handler, close_pc,
  notify, on_some, shut_down, shut_existing, create_session, close_session, cleanup_stale_sessions,
  close_all_sessions, start, stop, register_callback, Update, update,
}

-- A call of a method that changes the state. `create_session` is given the clock and the peer
-- connection that it makes.
pub data Call : Type 0 where
  create : ℕ → ℕ → String → String → Call
  close : String → String → Call
  cleanup : ℕ → Call
  close_all start_manager stop_manager : Call
  on_closed : ℕ → Call
  change : ℕ → Update → String → Call

unfoldable pub perform : Call → WebRtcSessionManager → List Effect × WebRtcSessionManager
unfolding create_session close_session cleanup_stale_sessions close_all_sessions start stop
    register_callback update
perform (create now pc sid device) m = create_session now pc sid device m
perform (close sid reason) m = (close_session sid reason m).1
perform (cleanup now) m = cleanup_stale_sessions now m
perform close_all m = close_all_sessions m
perform start_manager m = ([], start m)
perform stop_manager m = stop m
perform (on_closed f) m = ([], register_callback f m)
perform (change now u sid) m = ([], (update now u sid m).1)

unfoldable pub run : List Call → WebRtcSessionManager → List Effect × WebRtcSessionManager
unfolding perform
run [] m = ([], m)
run (c ∷ cs) m = let one = perform c m in let rest = run cs one.1 in (one.0 ++ rest.0, rest.1)

abbrev pub one_if : Bool → ℕ
one_if true = 1
one_if false = 0

-- How often peer connection `p` is given to a new session.
unfoldable pub times_created : ℕ → List Call → ℕ
times_created p [] = 0
times_created p (create now pc sid device ∷ cs) = one_if (pc == p) + times_created p cs
times_created p (_ ∷ cs) = times_created p cs

unfoldable pub times_closed : ℕ → List Effect → ℕ
times_closed p [] = 0
times_closed p (close_pc pc ∷ es) = one_if (pc == p) + times_closed p es
times_closed p (_ ∷ es) = times_closed p es

-- How many sessions of the table have peer connection `p`.
unfoldable pub times_open : ℕ → Dict Session → ℕ
times_open p [] = 0
times_open p ((k, s) ∷ m) = one_if (s.pc == p) + times_open p m

abbrev pub uses : ℕ → Option Session → ℕ
uses p none = 0
uses p (some s) = one_if (s.pc == p)

pub times_closed-append :
    (p : ℕ) (es fs : List Effect)
    → times_closed p (es ++ fs) ≡ times_closed p es + times_closed p fs
unfolding times_closed
times_closed-append p [] fs = omega arith
times_closed-append p (close_pc pc ∷ es) fs = omega (arith, times_closed-append p es fs)
times_closed-append p (close_channel_handler h ∷ es) fs = times_closed-append p es fs
times_closed-append p (close_debug_handler h ∷ es) fs = times_closed-append p es fs
times_closed-append p (notify f sid reason ∷ es) fs = times_closed-append p es fs

pub remove_absent : (k : String) (m : Dict Session) → contains k m ≡ false → remove k m ≡ m
unfolding contains remove
remove_absent k [] h = refl
remove_absent k ((j, s) ∷ m) h = ground (arith, remove_absent k m)

pub times_open-remove :
    (p : ℕ) (k : String) (m : Dict Session)
    → IsDistinct m
    → times_open p (remove k m) + uses p (lookup k m) ≡ times_open p m
unfolding times_open remove lookup
times_open-remove p k [] h = refl
times_open-remove p k ((j, s) ∷ m) h = elim (Bool-cases (str_eq j k)) [
  | inl same ↦ rw same (ground (arith, remove_absent k m, eq_iff j k))
  | inr different ↦ rw different (omega (arith, times_open-remove p k m h.1))
]

pub times_open-insert_new :
    (p : ℕ) (k : String) (s : Session) (m : Dict Session)
    → lookup k m ≡ none
    → times_open p (insert k s m) ≡ times_open p m + one_if (s.pc == p)
unfolding times_open insert lookup
times_open-insert_new p k s [] h = omega arith
times_open-insert_new p k s ((j, t) ∷ m) h = ground (arith, times_open-insert_new p k s m)

pub times_open-insert_same :
    (p : ℕ) (k : String) (s t : Session) (m : Dict Session)
    → lookup k m ≡ some t
    → s.pc ≡ t.pc
    → times_open p (insert k s m) ≡ times_open p m
unfolding times_open insert lookup
times_open-insert_same p k s t [] h e = absurd (ground arith)
times_open-insert_same p k s t ((j, u) ∷ m) h e = elim (Bool-cases (str_eq j k)) [
  | inl same ↦ rw same (ground arith)
  | inr different ↦ rw different (ground (arith, times_open-insert_same p k s t m))
]

pub times_closed-on_some :
    (p : ℕ) (f : ℕ → Effect) (o : Option ℕ)
    → ((n : ℕ) → times_closed p (f n ∷ []) ≡ 0)
    → times_closed p (on_some f o) ≡ 0
unfolding times_closed
times_closed-on_some p f none h = refl
times_closed-on_some p f (some n) h = h n

pub times_closed-shut_down :
    (p : ℕ) (s : Session) → times_closed p (shut_down s) ≡ one_if (s.pc == p)
unfolding times_closed shut_down
times_closed-shut_down p s = omega (
  arith,
  times_closed-append p (on_some close_channel_handler s.channel_handler)
      (on_some close_debug_handler s.debug_channel_handler ++ (close_pc s.pc ∷ [])),
  times_closed-append p (on_some close_debug_handler s.debug_channel_handler) (close_pc s.pc ∷ []),
  times_closed-on_some p close_channel_handler s.channel_handler (λ n. refl),
  times_closed-on_some p close_debug_handler s.debug_channel_handler (λ n. refl),
)

pub times_closed-shut_existing :
    (p : ℕ) (o : Option Session) → times_closed p (shut_existing o) ≡ uses p o
unfolding times_closed shut_existing
times_closed-shut_existing p none = refl
times_closed-shut_existing p (some s) = times_closed-shut_down p s
