-- ===== src/Lifecycle.antt =====
-- src/use_cases/container_lifecycle_manager.py: the start of the containers after boot, and the
-- restart of those that stop. Docker is the functions of `World`; what is asked of it is given back
-- as effects. Times are in microseconds. One outcome of writing stands for all writes of a call.
pub mod History
pub mod Restarts
pub mod Boot
use orchestrator_agent.Prelude.{
  ℕ, ◌*◌, ◌-◌, String, Bool, true, false, Option, none, some, List, [], ◌∷◌, ◌++◌, select, length,
  if◌then◌else◌, str_eq, ltb, leb,
}
use orchestrator_agent.Prelude.Dict.{Dict, lookup, insert, contains, keys}
use orchestrator_agent.Prelude.Texts.{truthy}
use orchestrator_agent.Operations.{OperationsStateTracker, is_operation_in_progress}
use orchestrator_agent.SerialPorts.{Write}
use orchestrator_agent.Stores.{ClientRepo, add_client}

abbrev pub max_rapid_restarts : ℕ
max_rapid_restarts = 5

abbrev pub rapid_restart_window : ℕ
rapid_restart_window = 600 * 1000000

-- A container as Docker shows it after a reload: its status and its restart policy; or it is not
-- there, or an exception.
pub data Look : Type 0 where
  seen : String → String → Look
  absent look_raises : Look

-- `ip_of` is the address that a second look finds in the container's internal network.
pub record World : Type 0 where
  pub look : String → Look
  pub start_raises : String → Bool
  pub ip_of : String → Option String

-- A start is given with its time, and whether it succeeded; `connect_bridge` is the attempt to connect
-- the agent to the container's internal network.
pub data Effect : Type 0 where
  start_container : String → ℕ → Bool → Effect
  update_policy connect_bridge : String → Effect

pub record ContainerLifecycleManager : Type 0 where
  pub restart_history : Dict (List ℕ)
  pub client_repo : ClientRepo

abbrev pub Done : Type 0
Done = List Effect × ContainerLifecycleManager

-- `_refresh_client_ip`
unfoldable pub refresh_client_ip :
    Write → String → Option String → ContainerLifecycleManager → ContainerLifecycleManager
unfolding add_client
refresh_client_ip write name none m = m
refresh_client_ip write name (some ip) m =
    if str_eq ip "" then m else record m { client_repo = add_client write name ip m.client_repo }

-- `_reconnect_orchestrator_to_bridge` and then `_refresh_client_ip`.
unfoldable pub reconnected : World → Write → String → ContainerLifecycleManager → Done
unfolding refresh_client_ip
reconnected w write name m =
    (connect_bridge name ∷ [], refresh_client_ip write name (w.ip_of name) m)

-- `_migrate_restart_policy`
unfoldable pub migrate_restart_policy : String → String → List Effect
migrate_restart_policy name policy =
    if str_eq policy "no" then [] else if str_eq policy "" then [] else update_policy name ∷ []

-- The start of a stopped container at boot: what it raises ends the work on this container.
unfoldable pub boot_start : World → Write → ℕ → String → ContainerLifecycleManager → Done
unfolding reconnected
boot_start w write now name m =
    let rest = reconnected w write name m in
    if w.start_raises name
    then (start_container name now false ∷ [], m)
    else (start_container name now true ∷ rest.0, rest.1)

unfoldable pub by_status : World → Write → ℕ → String → String → ContainerLifecycleManager → Done
unfolding boot_start reconnected
by_status w write now name status m =
    if str_eq status "running"
    then reconnected w write name m
    else if str_eq status "exited"
    then boot_start w write now name m
    else if str_eq status "created"
    then boot_start w write now name m
    else ([], m)

unfoldable pub ensure_seen : World → Write → ℕ → String → Look → ContainerLifecycleManager → Done
unfolding by_status migrate_restart_policy
ensure_seen w write now name absent m = ([], m)
ensure_seen w write now name look_raises m = ([], m)
ensure_seen w write now name (seen status policy) m =
    let rest = by_status w write now name status m in
    (migrate_restart_policy name policy ++ rest.0, rest.1)

unfoldable pub ensure_container_running :
    World → Write → ℕ → String → ContainerLifecycleManager → Done
unfolding ensure_seen
ensure_container_running w write now name m = ensure_seen w write now name (w.look name) m

unfoldable pub ensure_each : World → Write → ℕ → List String → ContainerLifecycleManager → Done
unfolding ensure_container_running
ensure_each w write now [] m = ([], m)
ensure_each w write now (name ∷ names) m =
    let one = ensure_container_running w write now name m in
    let rest = ensure_each w write now names one.1 in (one.0 ++ rest.0, rest.1)

-- `_start_existing_containers`; what happens to one container is logged, and the others follow.
unfoldable pub start_existing_containers : World → Write → ℕ → ContainerLifecycleManager → Done
unfolding ensure_each
start_existing_containers w write now m = ensure_each w write now (keys m.client_repo.clients) m

abbrev pub or_no_times : Option (List ℕ) → List ℕ
or_no_times none = []
or_no_times (some ts) = ts

abbrev pub is_recent : ℕ → ℕ → Bool
is_recent now t = ltb (now - t) rapid_restart_window

abbrev pub history_of : String → ContainerLifecycleManager → List ℕ
history_of name m = or_no_times (lookup name m.restart_history)

-- `_is_crash_looping`, which also drops the old times.
unfoldable pub is_crash_looping :
    ℕ → String → ContainerLifecycleManager → Bool × ContainerLifecycleManager
is_crash_looping now name m =
    let history = select (is_recent now) (history_of name m) in
    (
      leb max_rapid_restarts (length history),
      record m { restart_history = insert name history m.restart_history },
    )

-- `_record_restart`
unfoldable pub record_restart : ℕ → String → ContainerLifecycleManager → ContainerLifecycleManager
record_restart now name m = record m {
  restart_history = insert name (history_of name m ++ now ∷ []) m.restart_history;
}

-- `_handle_container_exit` up to its sleep: whether it goes on.
unfoldable pub exit_checked :
    OperationsStateTracker
    → ℕ
    → String
    → ContainerLifecycleManager
    → Bool × ContainerLifecycleManager
unfolding is_operation_in_progress is_crash_looping
exit_checked ops now name m =
    let checked = is_crash_looping now name m in
    if (is_operation_in_progress name ops).0
    then (false, m)
    else if checked.0
    then (false, checked.1)
    else (true, checked.1)

unfoldable pub restarted : World → Write → ℕ → String → ContainerLifecycleManager → Done
unfolding reconnected record_restart
restarted w write now name m =
    let rest = reconnected w write name (record_restart now name m) in
    if w.start_raises name
    then (start_container name now false ∷ [], m)
    else (start_container name now true ∷ rest.0, rest.1)

-- `_handle_container_exit` after its sleep.
unfoldable pub restart_seen : World → Write → ℕ → String → Look → ContainerLifecycleManager → Done
unfolding restarted
restart_seen w write now name absent m = ([], m)
restart_seen w write now name look_raises m = ([], m)
restart_seen w write now name (seen status policy) m =
    let rest = restarted w write now name m in if str_eq status "running" then ([], m) else rest

-- What one call meets: the operations and the clock when it checks, and the clock and Docker when it
-- acts, after its sleep.
pub record Exit : Type 0 where
  pub operations : OperationsStateTracker
  pub checked_at : ℕ
  pub acted_at : ℕ
  pub world : World
  pub write : Write

-- `_handle_container_exit`
unfoldable pub handle_container_exit : Exit → String → ContainerLifecycleManager → Done
unfolding exit_checked restart_seen
handle_container_exit e name m =
    let checked = exit_checked e.operations e.checked_at name m in
    let rest = restart_seen e.world e.write e.acted_at name (e.world.look name) checked.1 in
    if checked.0 then rest else ([], checked.1)

-- A "die" event of Docker. A container that the agent does not manage is passed over.
unfoldable pub container_died : Exit → String → ContainerLifecycleManager → Done
unfolding handle_container_exit
container_died e name m =
    let rest = handle_container_exit e name m in
    if contains name m.client_repo.clients then rest else ([], m)

unfoldable pub polled : Exit → String → Look → ContainerLifecycleManager → Done
unfolding handle_container_exit is_operation_in_progress
polled e name absent m = ([], m)
polled e name look_raises m = ([], m)
polled e name (seen status policy) m =
    let rest = handle_container_exit e name m in
    if str_eq status "running"
    then ([], m)
    else if (is_operation_in_progress name e.operations).0
    then ([], m)
    else rest

-- One round of `_health_poll_loop`: `first` is Docker when a container is looked at, and the rest
-- what the call for it meets.
unfoldable pub poll_each :
    (String → Look) → (String → Exit) → List String → ContainerLifecycleManager → Done
unfolding polled
poll_each first exit [] m = ([], m)
poll_each first exit (name ∷ names) m =
    let one = polled (exit name) name (first name) m in
    let rest = poll_each first exit names one.1 in (one.0 ++ rest.0, rest.1)

unfoldable pub health_poll : (String → Look) → (String → Exit) → ContainerLifecycleManager → Done
unfolding poll_each
health_poll first exit m = poll_each first exit (keys m.client_repo.clients) m
