-- ===== src/SelfDestruct/Again.antt =====
-- When `start_self_destruct` of src/use_cases/docker_manager/selfdestruct.py lets an uninstallation
-- start after one that has ended.
use orchestrator_agent.Prelude.{
  ◌≡◌, refl, sym, ap, ◌∙◌, ℕ, String, Bool, true, false, Option, none, some, List, [], ◌∷◌, All,
  Bool-cases, inl, inr, eq_iff,
}
use orchestrator_agent.Prelude.Dict.{Dict, keys, lookup, lookup-insert}
use orchestrator_agent.Operations.{
  set_deleting, set_step, OperationsStateTracker, is_busy, fresh, deleting,
}
use orchestrator_agent.Operations.Exclusion.{busy, set_step-busy}
use orchestrator_agent.SerialPorts.{read_json_file}
use orchestrator_agent.Stores.{DedicatedNicConfig}
use orchestrator_agent.Provision.{Agent}
use orchestrator_agent.Provision.Create.{Env}
use orchestrator_agent.Provision.CreateLaws.{set_error-not_busy}
use orchestrator_agent.SelfDestruct.{World, found, nowhere, get_raises, Found, get_self_container}
use orchestrator_agent.SelfDestruct.Cleanup.{
  Ran, after, then_do, return_each, load_all_configs, return_all_dedicated_nics, forgotten,
  removed_container, delete_runtime_container_for_selfdestruct, unregistered, delete_each,
  delete_all_runtime_containers, cleanup_orchestrator_networks,
}
use orchestrator_agent.SelfDestruct.Run.{
  orchestrator_status_id, netmon_container_name, start_self_destruct, at_step, named,
  cleanup_proxy_arp_veths, delete_shared_volume, own_removed, delete_orchestrator_container,
  in_order, cleanup_steps, all_steps, caught, self_destruct,
}

-- The uninstallation is under way for the tracker of operations.
abbrev Busy : Agent → Type 0
Busy a = busy orchestrator_status_id a.operations ≡ true

abbrev KeepsBusy : (Agent → Ran) → Type 0
KeepsBusy run = (a : Agent) → Busy a → Busy (run a).agent

after-Busy :
    (x : Option String) (one two : Ran)
    → Busy one.agent
    → Busy two.agent
    → Busy (after x one two).agent
after-Busy (some m) one two h g = h
after-Busy none one two h g = g

then_do-KeepsBusy :
    (first second : Agent → Ran)
    → KeepsBusy first
    → KeepsBusy second
    → KeepsBusy (then_do first second)
unfolding then_do
then_do-KeepsBusy first second h g a b =
    let one = first a in
    after-Busy one.exception one (second one.agent) (h a b) (g one.agent (h a b))

in_order-KeepsBusy : (steps : List (Agent → Ran)) → All KeepsBusy steps → KeepsBusy (in_order steps)
unfolding in_order
in_order-KeepsBusy [] h = λ a b. b
in_order-KeepsBusy (step ∷ steps) h =
    then_do-KeepsBusy step (in_order steps) h.0 (in_order-KeepsBusy steps h.1)

module _ (w : World) (e : Env) where
  named-KeepsBusy :
      (text : String) (run : Agent → Ran) → KeepsBusy run → KeepsBusy (named e text run)
  unfolding named at_step
  named-KeepsBusy text run h =
      then_do-KeepsBusy (at_step e text) run
        (λ a b.
          set_step-busy e.now orchestrator_status_id orchestrator_status_id text a.operations b)
        h

  return_each-KeepsBusy : (configs : Dict DedicatedNicConfig) → KeepsBusy (return_each w e configs)
  unfolding return_each
  return_each-KeepsBusy [] a b = b
  return_each-KeepsBusy ((name, c) ∷ configs) a b = return_each-KeepsBusy configs _ b

  deletion-KeepsBusy :
      (name : String) → KeepsBusy (delete_runtime_container_for_selfdestruct w e name)
  unfolding delete_runtime_container_for_selfdestruct removed_container forgotten
  deletion-KeepsBusy name =
      then_do-KeepsBusy (removed_container w name) (forgotten w e name) (λ a b. b) (λ a b. b)

  delete_each-KeepsBusy : (names : List String) → KeepsBusy (delete_each w e names)
  unfolding delete_each unregistered
  delete_each-KeepsBusy [] a b = b
  delete_each-KeepsBusy (name ∷ names) a b =
      let delete =
        then_do (delete_runtime_container_for_selfdestruct w e name) (unregistered w e name) in
      let here =
        then_do-KeepsBusy (delete_runtime_container_for_selfdestruct w e name)
          (unregistered w e name) (deletion-KeepsBusy name) (λ c k. k) a b in
      after-Busy (delete a).exception (delete a) (delete_each w e names (delete a).agent) here
        (delete_each-KeepsBusy names (delete a).agent here)

  cleanup-KeepsBusy : All KeepsBusy (cleanup_steps w e)
  unfolding cleanup_steps return_all_dedicated_nics delete_all_runtime_containers
      cleanup_orchestrator_networks cleanup_proxy_arp_veths removed_container delete_shared_volume
  cleanup-KeepsBusy = (
    named-KeepsBusy "returning_dedicated_nics" (return_all_dedicated_nics w e)
        (λ a. return_each-KeepsBusy (load_all_configs (read_json_file a.nic_file)) a),
    (
      named-KeepsBusy "deleting_runtimes" (delete_all_runtime_containers w e)
          (λ a. delete_each-KeepsBusy (keys a.client_repo.clients) a),
      (
        named-KeepsBusy "cleaning_networks" (cleanup_orchestrator_networks w) (λ a b. b),
        (
          named-KeepsBusy "cleaning_proxy_arp" cleanup_proxy_arp_veths (λ a b. b),
          (
            named-KeepsBusy "deleting_netmon" (removed_container w netmon_container_name)
                (λ a b. b),
            (named-KeepsBusy "deleting_volume" (delete_shared_volume w) (λ a b. b), tt),
          ),
        ),
      ),
    ),
  )

  own-KeepsBusy : (f : Found) (a : Agent) → Busy a → Busy (own_removed w f a).agent
  own-KeepsBusy (found name) a b = b
  own-KeepsBusy nowhere a b = b
  own-KeepsBusy (get_raises m) a b = b

  all_steps-KeepsBusy : KeepsBusy (all_steps w e)
  unfolding all_steps delete_orchestrator_container
  all_steps-KeepsBusy =
      then_do-KeepsBusy (in_order (cleanup_steps w e))
        (named e "removing_self" (delete_orchestrator_container w))
        (in_order-KeepsBusy (cleanup_steps w e) cleanup-KeepsBusy)
        (named-KeepsBusy "removing_self" (delete_orchestrator_container w)
          (own-KeepsBusy (get_self_container w)))

abbrev pub raised_something : Option String → Bool
raised_something none = false
raised_something (some m) = true

began-busy :
    (now : ℕ) (name : String) (s : OperationsStateTracker)
    → busy name (set_deleting now name s).1 ≡ true
unfolding set_deleting
began-busy now name s = elim (Bool-cases (is_busy (lookup name s.operations))) [
  | inl going ↦ rw going going
  | inr free ↦
      rw
        (
          free,
          lookup-insert name name (fresh deleting "delete" now) s.operations,
          (eq_iff name name).1 refl,
        )
        refl
]

stepped-busy :
    (b : Bool) (now : ℕ) (name : String) (s : OperationsStateTracker)
    → busy name s ≡ true
    → busy name (elim b [ true ↦ set_step now name "starting" s | false ↦ s ]) ≡ true
stepped-busy true now name s h = set_step-busy now name name "starting" s h
stepped-busy false now name s h = h

started-Busy : (e : Env) (a : Agent) → Busy (start_self_destruct e a).1
unfolding start_self_destruct
started-Busy e a =
    let began = set_deleting e.now orchestrator_status_id a.operations in
    stepped-busy began.0 e.now orchestrator_status_id began.1
      (began-busy e.now orchestrator_status_id a.operations)

caught_exception :
    (e : Env) (x : Option String) (ran : Ran) → (caught e x ran).exception ≡ ran.exception
caught_exception e none ran = refl
caught_exception e (some m) ran = refl

start_caught :
    (first again : Env) (x : Option String) (ran : Ran)
    → Busy ran.agent
    → (start_self_destruct again (caught first x ran).agent).0 ≡ raised_something x
unfolding start_self_destruct set_deleting
start_caught first again none ran b = rw b refl
start_caught first again (some m) ran b =
    rw
      (set_error-not_busy first.now orchestrator_status_id m (some "self_destruct")
        ran.agent.operations)
      refl

-- After an uninstallation that was started has ended, another can be started where it has raised an
-- exception, and not where it has come to its end.
pub self_destruct-start_self_destruct :
    (w : World) (first later again : Env) (a : Agent)
    → (start_self_destruct again (self_destruct w later (start_self_destruct first a).1).agent).0
      ≡ raised_something (self_destruct w later (start_self_destruct first a).1).exception
unfolding self_destruct
self_destruct-start_self_destruct w first later again a =
    let began = (start_self_destruct first a).1 in
    let ran = all_steps w later began in
    start_caught later again ran.exception ran
      (all_steps-KeepsBusy w later began (started-Busy first a))
    ∙ ap raised_something (sym (caught_exception later ran.exception ran))
