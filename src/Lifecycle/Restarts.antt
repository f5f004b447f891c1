-- ===== src/Lifecycle/Restarts.antt =====
-- How often src/use_cases/container_lifecycle_manager.py restarts one container, where its calls of
-- `_handle_container_exit` come one after the other.
use mathlib.Core.List.{append-nil, append_assoc}
use orchestrator_agent.Prelude.{
  ◌≡◌, refl, sym, ◌∙◌, ℕ, ◌≤◌, String, Bool, true, false, Option, none, some, List, [], ◌∷◌, ◌++◌,
  select, length, if◌then◌else◌, str_eq, eq_iff, leb, Bool-cases, inl, inr, arith, either_branch,
}
use orchestrator_agent.Prelude.Dict.{insert, lookup-insert}
use orchestrator_agent.Operations.{is_operation_in_progress}
use orchestrator_agent.SerialPorts.{Write}
use orchestrator_agent.Lifecycle.{
  max_rapid_restarts, Look, seen, absent, look_raises, World, ContainerLifecycleManager, Done,
  reconnected, refresh_client_ip, is_recent, history_of, is_crash_looping, record_restart,
  exit_checked, restarted, restart_seen, Exit, handle_container_exit,
}
use orchestrator_agent.Lifecycle.History.{
  restarts, restarts-append, Kept, Kept-select, Kept-append, later-Kept,
}

-- The clock goes on, between the calls and within them.
abbrev pub Ordered : ℕ → List (String × Exit) → Type 0
Ordered last [] = Unit
Ordered last ((name, e) ∷ es) =
    (last ≤ e.checked_at) × (e.checked_at ≤ e.acted_at) × Ordered e.acted_at es

abbrev pub last_time : ℕ → List (String × Exit) → ℕ
last_time last [] = last
last_time last ((name, e) ∷ es) = last_time e.acted_at es

unfoldable pub handle_all : List (String × Exit) → ContainerLifecycleManager → Done
unfolding handle_container_exit
handle_all [] m = ([], m)
handle_all ((name, e) ∷ es) m =
    let one = handle_container_exit e name m in
    let rest = handle_all es one.1 in (one.0 ++ rest.0, rest.1)

history-insert :
    (name other : String) (ts : List ℕ) (m : ContainerLifecycleManager)
    → history_of name (record m { restart_history = insert other ts m.restart_history })
      ≡ (if str_eq other name then ts else history_of name m)
history-insert name other ts m = ground (arith, lookup-insert other name ts m.restart_history)

module _ (name : String) where
  history-refresh :
      (write : Write) (other : String) (ip : Option String) (m : ContainerLifecycleManager)
      → history_of name (refresh_client_ip write other ip m) ≡ history_of name m
  unfolding refresh_client_ip
  history-refresh write other none m = refl
  history-refresh write other (some ip) m = elim (Bool-cases (str_eq ip "")) [
    | inl empty ↦ rw empty refl
    | inr full ↦ rw full refl
  ]

  history-record :
      (late : ℕ) (other : String) (m : ContainerLifecycleManager)
      → history_of name (record_restart late other m)
        ≡ (if str_eq other name then history_of name m ++ late ∷ [] else history_of name m)
  unfolding record_restart
  history-record late other m = elim (Bool-cases (str_eq other name)) [
    | inl same ↦
        let one : other ≡ name = (eq_iff other name).0 same in
        history-insert name other _ m ∙ rw (same, one) refl
    | inr different ↦ history-insert name other _ m ∙ rw different refl
  ]

  -- A start that counts: the container's own, with success.
  abbrev counts : World → String → Bool
  counts w other = if w.start_raises other then false else str_eq other name

  restarts-restarted :
      (w : World) (write : Write) (late : ℕ) (other : String) (m : ContainerLifecycleManager)
      → restarts name (restarted w write late other m).0
        ≡ (if counts w other then late ∷ [] else [])
  unfolding restarted reconnected
  restarts-restarted w write late other m = elim (Bool-cases (w.start_raises other)) [
    | inl bad ↦ rw bad refl
    | inr good ↦ rw good refl
  ]

  history-restarted :
      (w : World) (write : Write) (late : ℕ) (other : String) (m : ContainerLifecycleManager)
      → history_of name (restarted w write late other m).1
        ≡ (if counts w other then history_of name m ++ late ∷ [] else history_of name m)
  unfolding restarted reconnected
  history-restarted w write late other m = elim (Bool-cases (w.start_raises other)) [
    | inl bad ↦ rw bad refl
    | inr good ↦ rw good (
        history-refresh write other (w.ip_of other) (record_restart late other m)
        ∙ history-record late other m)
  ]

  -- After a step of which `done` is what it did.
  abbrev Follows : ℕ → List ℕ → Done → Type 0
  Follows last log done = Kept last (history_of name done.1) (log ++ restarts name done.0)

  -- The history as the check leaves it, which allows a restart of the container itself.
  abbrev Allowed : ℕ → List ℕ → String → ContainerLifecycleManager → Type 0
  Allowed early history other m =
      str_eq other name ≡ true
      → (history_of name m ≡ select (is_recent early) history)
        × (leb max_rapid_restarts (length (select (is_recent early) history)) ≡ false)

  counts-same : (w : World) (other : String) → counts w other ≡ true → str_eq other name ≡ true
  counts-same w other h = ground arith

  restarted-Follows :
      (w : World) (write : Write) (early late : ℕ) (other : String) (history log : List ℕ)
      (m : ContainerLifecycleManager)
      → early ≤ late
      → Kept early (history_of name m) log
      → Allowed early history other m
      → Follows late log (restarted w write late other m)
  restarted-Follows w write early late other history log m h k free =
      elim (Bool-cases (counts w other)) [
        | inl counted ↦
            let (kept, few) = free (counts-same w other counted) in
            rw
              (
                history-restarted w write late other m,
                restarts-restarted w write late other m,
                counted,
                kept,
              )
              (Kept-append early late history log h (rw kept at k) few)
        | inr free_of ↦
            rw
              (
                history-restarted w write late other m,
                restarts-restarted w write late other m,
                free_of,
                append-nil log,
              )
              (later-Kept early late (history_of name m) log h k)
      ]

  idle-Follows :
      (last late : ℕ) (log : List ℕ) (m : ContainerLifecycleManager)
      → last ≤ late
      → Kept last (history_of name m) log
      → Follows late log ([], m)
  idle-Follows last late log m h k =
      rw (append-nil log) (later-Kept last late (history_of name m) log h k)

  seen-Follows :
      (w : World) (write : Write) (early late : ℕ) (other : String) (l : Look)
      (history log : List ℕ) (m : ContainerLifecycleManager)
      → early ≤ late
      → Kept early (history_of name m) log
      → Allowed early history other m
      → Follows late log (restart_seen w write late other l m)
  unfolding restart_seen
  seen-Follows w write early late other absent history log m h k free =
      idle-Follows early late log m h k
  seen-Follows w write early late other look_raises history log m h k free =
      idle-Follows early late log m h k
  seen-Follows w write early late other (seen status policy) history log m h k free =
      either_branch (Follows late log) (str_eq status "running") ([], m)
        (restarted w write late other m) (idle-Follows early late log m h k)
        (restarted-Follows w write early late other history log m h k free)

  history-checked :
      (early : ℕ) (other : String) (m : ContainerLifecycleManager)
      → history_of name (is_crash_looping early other m).1 ≡ (
          if str_eq other name
          then select (is_recent early) (history_of name m)
          else history_of name m)
  unfolding is_crash_looping
  history-checked early other m = elim (Bool-cases (str_eq other name)) [
    | inl same ↦
        let one : other ≡ name = (eq_iff other name).0 same in
        history-insert name other _ m ∙ rw (same, one) refl
    | inr different ↦ history-insert name other _ m ∙ rw different refl
  ]

  checked-Kept :
      (last early : ℕ) (other : String) (log : List ℕ) (m : ContainerLifecycleManager)
      → last ≤ early
      → Kept last (history_of name m) log
      → Kept early (history_of name (is_crash_looping early other m).1) log
  checked-Kept last early other log m h k = elim (Bool-cases (str_eq other name)) [
    | inl same ↦
        rw (history-checked early other m, same)
          (Kept-select last early (history_of name m) log h k)
    | inr different ↦
        rw (history-checked early other m, different)
          (later-Kept last early (history_of name m) log h k)
  ]

  checked-Allowed :
      (early : ℕ) (other : String) (m : ContainerLifecycleManager)
      → (is_crash_looping early other m).0 ≡ false
      → Allowed early (history_of name m) other (is_crash_looping early other m).1
  unfolding is_crash_looping
  checked-Allowed early other m free same =
      let one : other ≡ name = (eq_iff other name).0 same in
      (history-checked early other m ∙ rw same refl, rw one at free)

  handle-Follows :
      (e : Exit) (last : ℕ) (other : String) (log : List ℕ) (m : ContainerLifecycleManager)
      → last ≤ e.checked_at
      → e.checked_at ≤ e.acted_at
      → Kept last (history_of name m) log
      → Follows e.acted_at log (handle_container_exit e other m)
  unfolding handle_container_exit exit_checked
  handle-Follows e last other log m h g k =
      let checked = is_crash_looping e.checked_at other m in
      let after = checked-Kept last e.checked_at other log m h k in
      elim (Bool-cases (is_operation_in_progress other e.operations).0) [
        | inl busy ↦ rw busy (idle-Follows last e.acted_at log m (omega (arith, h, g)) k)
        | inr free ↦ rw free (elim (Bool-cases checked.0) [
          | inl looping ↦ rw looping (idle-Follows e.checked_at e.acted_at log checked.1 g after)
          | inr calm ↦ rw calm (
              seen-Follows e.world e.write e.checked_at e.acted_at other (e.world.look other)
                (history_of name m) log checked.1 g after
                (checked-Allowed e.checked_at other m calm))
        ])
      ]

  all-Follows :
      (es : List (String × Exit)) (last : ℕ) (log : List ℕ) (m : ContainerLifecycleManager)
      → Ordered last es
      → Kept last (history_of name m) log
      → Follows (last_time last es) log (handle_all es m)
  unfolding handle_all
  all-Follows [] last log m o k = idle-Follows last last log m (omega arith) k
  all-Follows ((other, e) ∷ es) last log m o k =
      let one = handle_container_exit e other m in
      let here = handle-Follows e last other log m o.0 o.1 k in
      let rest = all-Follows es e.acted_at (log ++ restarts name one.0) one.1 o.2 here in
      rw
        (
          restarts-append name one.0 (handle_all es one.1).0,
          sym (append_assoc log (restarts name one.0) (restarts name (handle_all es one.1).0)),
        )
        rest

-- However often containers are found stopped, where the calls come one after the other and the clock
-- goes on: at any later time, at most five restarts of a container that succeeded lie within the last
-- ten minutes.
pub restarts_bounded :
    (name : String) (es : List (String × Exit)) (m : ContainerLifecycleManager) (now : ℕ)
    → history_of name m ≡ []
    → Ordered 0 es
    → last_time 0 es ≤ now
    → length (select (is_recent now) (restarts name (handle_all es m).0)) ≤ max_rapid_restarts
restarts_bounded name es m now empty o late =
    let none_yet : Kept 0 (history_of name m) [] = rw empty (λ later _. (refl, omega arith)) in
    (all-Follows name es 0 [] m o none_yet now late).1
