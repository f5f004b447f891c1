-- ===== src/DebugSessions/Start.antt =====
-- How a start of src/controllers/websocket_controller/debug_session_manager.py ends, with other threads
-- at work while it logs in and connects.
use orchestrator_agent.Prelude.{
  ◌≡◌, refl, ap, ◌∙◌, ◌⊎◌, inl, inr, ℕ, String, Option, false, none, some, List, [], ◌∷◌, ◌++◌,
  arith, eq_iff, str_eq, Bool-cases,
}
use orchestrator_agent.Prelude.Dict.{lookup, insert, remove, lookup-insert, lookup-remove}
use orchestrator_agent.DebugCommand.{
  CommandError, exception, debug_error, debug_connected, or_default,
}
use orchestrator_agent.DebugSessions.{
  DebugSessionManager, SocketCall, connect, Login, rejected, accepted, login_raises, World, Message,
  Answered, disconnect_session, disconnect_found, fresh, connected_as, logged_in, located,
  start_around, handle_start,
}

abbrev login_of : World → String → Message → Login
login_of w ip msg =
    w.login ip (or_default 8443 msg.port) (or_default "dev" msg.username)
      (or_default "dev" msg.password)

-- The device is known, its runtime gives a token, and the socket connects.
abbrev pub Reaches : World → ℕ → String → Message → Type 0
Reaches w socket id msg =
    (ip : String) × (token : String) × (w.get_client id ≡ some ip)
    × (login_of w ip msg ≡ accepted (some token))
    × (str_eq token "" ≡ false)
    × (w.connect_raises socket ip (or_default 8443 msg.port) token ≡ none)

-- How a start ends that finds the sessions of `before` when it has the lock again.
abbrev EndsAs : Type 0 → ℕ → ℕ → String → DebugSessionManager → Answered → Type 0
EndsAs P now socket id before r =
    (P × (r.0 ≡ debug_connected) × (r.1.1.sessions ≡ insert id (fresh now socket) before.sessions))
    ⊎ ((¬ P) × ((e : CommandError) × (r.0 ≡ debug_error e)) × (r.1.1 ≡ before))

module _ (w : World) (now socket : ℕ) (id : String) (msg : Message) (m : DebugSessionManager) where
  connected_as-EndsAs :
      (ip token : String) (o : Option String)
      → w.get_client id ≡ some ip
      → login_of w ip msg ≡ accepted (some token)
      → str_eq token "" ≡ false
      → w.connect_raises socket ip (or_default 8443 msg.port) token ≡ o
      → EndsAs (Reaches w socket id msg) now socket id m (connected_as now socket id o m)
  unfolding connected_as
  connected_as-EndsAs ip token none known given full e =
      inl ((ip, token, known, given, full, e), refl, refl)
  connected_as-EndsAs ip token (some message) known given full e = inr (
    λ (ip', token', known', given', full', e').
        absurd (ground (arith, known, known', given, given', e, e')),
    (exception message, refl),
    refl,
  )

  no_token-Reaches :
      (ip : String) (l : Login)
      → w.get_client id ≡ some ip
      → login_of w ip msg ≡ l
      → ((token : String) → ¬ (l ≡ accepted (some token)))
      → ¬ Reaches w socket id msg
  no_token-Reaches ip l known given none_given (ip', token, known', given', full, opened) =
      none_given token (ground (arith, known, known', given, given'))

  logged_in-EndsAs :
      (ip : String) (l : Login)
      → w.get_client id ≡ some ip
      → login_of w ip msg ≡ l
      → EndsAs
          (Reaches w socket id msg)
          now
          socket
          id
          m
          (logged_in w now socket id ip (or_default 8443 msg.port) l m)
  unfolding logged_in
  logged_in-EndsAs ip (login_raises e) known given =
      inr (no_token-Reaches ip (login_raises e) known given (λ t h. absurd cc), (_, refl), refl)
  logged_in-EndsAs ip (rejected code) known given =
      inr (no_token-Reaches ip (rejected code) known given (λ t h. absurd cc), (_, refl), refl)
  logged_in-EndsAs ip (accepted none) known given =
      inr (no_token-Reaches ip (accepted none) known given (λ t h. absurd cc), (_, refl), refl)
  logged_in-EndsAs ip (accepted (some token)) known given = elim (Bool-cases (str_eq token "")) [
    | inl empty ↦ rw empty (
        inr (
          λ (ip', token', known', given', full, opened).
              absurd (ground (arith, empty, full, known, known', given, given')),
          (_, refl),
          refl,
        ))
    | inr full ↦ rw full (connected_as-EndsAs ip token _ known given full refl)
  ]

  located-EndsAs :
      (o : Option String)
      → w.get_client id ≡ o
      → EndsAs (Reaches w socket id msg) now socket id m (located w now socket id msg o m)
  unfolding located
  located-EndsAs none unknown = inr (
    λ (ip, token, known, given, full, opened). absurd (ground (arith, unknown, known)),
    (_, refl),
    refl,
  )
  located-EndsAs (some ip) known = logged_in-EndsAs ip (login_of w ip msg) known refl

  located-Reaches :
      Reaches w socket id msg
      → located w now socket id msg (w.get_client id) m ≡ (
        debug_connected,
        (connect socket ∷ [], record m { sessions = insert id (fresh now socket) m.sessions }),
      )
  unfolding located logged_in connected_as
  located-Reaches (ip, token, known, given, full, opened) = rw (known, given, full, opened) refl

-- What is said of a start that finds the sessions as `others` left them, and of the socket of the old
-- session.
unfoldable pub Started :
    (DebugSessionManager → DebugSessionManager)
    → World
    → ℕ
    → ℕ
    → String
    → Message
    → DebugSessionManager
    → Answered
    → Type 0
Started others w now socket id msg m r =
    EndsAs (Reaches w socket id msg) now socket id (others (disconnect_session id m).1) r
    × ((rest : List SocketCall) × (r.1.0 ≡ disconnect_found (lookup id m.sessions) ++ rest))

-- A start answers debug_connected exactly when the device is known, its runtime gives a token and the
-- socket connects, and then puts a new session on that socket in the place of whatever session the
-- device has by then; in every other case it answers an error and leaves the sessions as the other
-- threads left them. The socket of the session that it found at first is disconnected before all else.
pub start_outcome :
    (others : DebugSessionManager → DebugSessionManager) (w : World) (now socket : ℕ) (id : String)
    (msg : Message) (m : DebugSessionManager)
    → Started others w now socket id msg m (start_around others w now socket id msg m)
unfolding start_around Started disconnect_session
start_outcome others w now socket id msg m = (
  located-EndsAs w now socket id msg (others (disconnect_session id m).1) (w.get_client id) refl,
  (_, refl),
)

-- Of two starts for one device, the second made while the first logs in and connects, and both getting
-- through: the second answers debug_connected and only connects its socket; then the first only
-- disconnects the old session and connects its own socket, and leaves its own session in the place of
-- the second's. So nothing disconnects the second's socket, and no session holds it.
pub start_race :
    (w : World) (now socket later other : ℕ) (id : String) (msg : Message) (m : DebugSessionManager)
    → Reaches w socket id msg
    → Reaches w other id msg
    → let second = handle_start w later other id msg (disconnect_session id m).1 in
      let first =
        start_around
          (λ before. (handle_start w later other id msg before).1.1)
          w
          now
          socket
          id
          msg
          m in
      (second.0 ≡ debug_connected)
      × (second.1.0 ≡ connect other ∷ [])
      × (first.0 ≡ debug_connected)
      × (first.1.0 ≡ disconnect_found (lookup id m.sessions) ++ connect socket ∷ [])
      × (lookup id first.1.1.sessions ≡ some (fresh now socket))
unfolding start_around handle_start disconnect_session
start_race w now socket later other id msg m one two =
    let dropped = (disconnect_session id m).1 in
    let again = (disconnect_session id dropped).1 in
    let gone : lookup id (remove id m.sessions) ≡ none =
      ground (arith, lookup-remove id id m.sessions, eq_iff id id) in
    let ends = located-Reaches w later other id msg again two in
    let between = (handle_start w later other id msg dropped).1.1 in
    let last = located-Reaches w now socket id msg between one in
    (
      ap (λ r. r.0) ends,
      rw gone (ap (λ r. r.1.0) ends),
      ap (λ r. r.0) last,
      ap (λ r. disconnect_found (lookup id m.sessions) ++ r.1.0) last,
      ap (λ r. lookup id r.1.1.sessions) last
          ∙ ground (arith, lookup-insert id id (fresh now socket) between.sessions, eq_iff id id),
    )
