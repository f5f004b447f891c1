-- ===== src/Tests/LifecycleRuns.antt =====
-- src/use_cases/container_lifecycle_manager.py on small inputs.
use orchestrator_agent.Prelude.{
  ◌≡◌, refl, ℕ, ◌+◌, ◌*◌, ◌≤◌, String, true, false, some, List, [], ◌∷◌, select, length, any,
  if◌then◌else◌, str_eq, arith,
}
use orchestrator_agent.Prelude.Dict.{lookup, insert, keys}
use orchestrator_agent.SerialPorts.{written, missing}
use orchestrator_agent.Operations.{init}
use orchestrator_agent.Lifecycle.{
  seen, World, Exit, ContainerLifecycleManager, start_existing_containers, is_recent,
}
use orchestrator_agent.Lifecycle.Boot.{starts, start_existing_containers-running}
use orchestrator_agent.Lifecycle.History.{restarts}
use orchestrator_agent.Lifecycle.Restarts.{handle_all, restarts_bounded}

-- One container runs, the others have exited and start.
abbrev docker : World
docker = record {
  look = λ name. if str_eq name "up" then seen "running" "always" else seen "exited" "no";
  start_raises = λ _. false;
  ip_of = λ _. some "172.18.0.2";
}

abbrev manager : ContainerLifecycleManager
manager = record {
  restart_history = [];
  client_repo = record {
    clients =
        ("plc", record { ip = "172.18.0.9"; client_name = "plc" })
        ∷ ("up", record { ip = "172.18.0.3"; client_name = "up" })
        ∷ [];
    clients_file = missing;
  };
}

-- A container that stops every minute.
abbrev stop_at : ℕ → String × Exit
stop_at minute = (
  "plc",
  record {
    operations = init;
    checked_at = minute * 60000000;
    acted_at = minute * 60000000 + 2;
    world = docker;
    write = written;
  },
)

abbrev stops : List (String × Exit)
stops = stop_at 1 ∷ stop_at 2 ∷ stop_at 3 ∷ stop_at 4 ∷ stop_at 5 ∷ stop_at 6 ∷ stop_at 12 ∷ []

restarts_bounded_example :
    length (select (is_recent 720000002) (restarts "plc" (handle_all stops manager).0)) ≤ 5
unfolding lookup
restarts_bounded_example =
    restarts_bounded "plc" stops manager 720000002 refl (ground arith) (ground arith)

-- The sixth stop is not followed by a restart, the one after a pause is.
crash_loop :
    restarts "plc" (handle_all stops manager).0
    ≡ 60000002 ∷ 120000002 ∷ 180000002 ∷ 240000002 ∷ 300000002 ∷ 720000002 ∷ []
unfolding handle_all lookup insert init
crash_loop = refl

start_existing_containers-running_example :
    any (starts "up") (start_existing_containers docker written 7 manager).0 ≡ false
start_existing_containers-running_example =
    start_existing_containers-running docker written 7 "up" "always" manager refl

boot_starts_stopped :
    any (starts "plc") (start_existing_containers docker written 7 manager).0 ≡ true
unfolding start_existing_containers keys
boot_starts_stopped = refl
