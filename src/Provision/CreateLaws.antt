-- ===== src/Provision/CreateLaws.antt =====
-- How a creation of src/use_cases/docker_manager/create_runtime_container.py ends.
use orchestrator_agent.Prelude.{
  ◌≡◌, refl, inl, inr, ℕ, String, Bool, true, false, Option, none, some, List, [], arith, eq_iff,
  Bool-cases, Option-cases,
}
use orchestrator_agent.Prelude.Dict.{
  lookup, insert, contains, lookup-insert, lookup-remove, contains-lookup,
}
use orchestrator_agent.Operations.{
  OperationsStateTracker, Operation, error_status, set_error, clear_state, failed,
}
use orchestrator_agent.Operations.Exclusion.{busy, set_step-busy}
use orchestrator_agent.Provision.{Agent, Try, done, raised, Started, NetInfo, World, DockerCall}
use orchestrator_agent.Provision.Checks.{Check, valid, invalid, check_raises, validate}
use orchestrator_agent.Provision.Endpoints.{
  Assigned, assign_all, endpoints_from, use_networking_config, create_and_start_container,
  collect_info,
}
use orchestrator_agent.Provision.Create.{
  Order, Env, Created, Outcome, caught, failed_with, step_to, persisted, client_added,
  registered_as, registered, reloaded, after_start, with_version, assigned, networked, with_image,
  with_check, create_sync, raises_on, pull_runtime_image, image_name,
}

pub clear_state-busy :
    (name : String) (s : OperationsStateTracker) → busy name (clear_state name s) ≡ false
unfolding clear_state
clear_state-busy name s = elim (Bool-cases (contains name s.operations)) [
  | inl there ↦ rw there (ground (arith, lookup-remove name name s.operations, eq_iff name name))
  | inr gone ↦ rw (gone, clear_state, contains-lookup name s.operations gone) refl
]

pub set_error-not_busy :
    (now : ℕ) (name message : String) (kind : Option String) (s : OperationsStateTracker)
    → busy name (set_error now name message kind s) ≡ false
unfolding set_error
set_error-not_busy now name message kind s = elim (Option-cases (lookup name s.operations)) [
  | inl missing ↦ rw missing (
      ground (
        arith,
        lookup-insert name name (failed now message kind none) s.operations,
        eq_iff name name,
      ))
  | inr (op, there) ↦ rw there (
      ground (
        arith,
        lookup-insert name name (failed now message kind (some op)) s.operations,
        eq_iff name name,
      ))
]

-- How the operation stands after a creation: cleared beside a result, and failed beside none.
abbrev OperationEnds : Option Created → Option Operation → Type 0
OperationEnds (some x) op = op ≡ none
OperationEnds none none = ⊥
OperationEnds none (some op) = (op.status ≡ error_status) × ((m : String) × (op.error ≡ some m))

-- A result, or none, and how the operation stands.
abbrev pub Ends : String → Outcome → Type 0
Ends name r =
    (x : Option Created) × (r.0 ≡ done x)
    × OperationEnds x (lookup name r.1.1.operations.operations)

failed-OperationEnds :
    (now : ℕ) (name message : String) (kind : Option String) (s : OperationsStateTracker)
    → OperationEnds none (lookup name (set_error now name message kind s).operations)
unfolding set_error
failed-OperationEnds now name message kind s =
    let o = lookup name s.operations in
    let there : lookup name (insert name (failed now message kind o) s.operations)
        ≡ some (failed now message kind o) =
      ground (
        arith,
        lookup-insert name name (failed now message kind o) s.operations,
        eq_iff name name,
      ) in
    rw there (failed_as o)
  where
    failed_as : (o : Option Operation) → OperationEnds none (some (failed now message kind o))
    failed_as none = (refl, (message, refl))
    failed_as (some op) = (refl, (message, refl))

clear_state-lookup :
    (name : String) (s : OperationsStateTracker)
    → lookup name (clear_state name s).operations ≡ none
unfolding clear_state
clear_state-lookup name s = elim (Bool-cases (contains name s.operations)) [
  | inl there ↦ rw there (ground (arith, lookup-remove name name s.operations, eq_iff name name))
  | inr gone ↦ rw gone (contains-lookup name s.operations gone)
]

caught-Ends :
    (e : Env) (name message : String) (calls : List DockerCall) (a : Agent)
    → Ends name (caught e name message calls a)
unfolding caught failed_with
caught-Ends e name message calls a =
    (none, refl, failed-OperationEnds e.now name message (some "create") a.operations)

persisted-Ends :
    (e : Env) (o : Order) (s : Started) (l : List Assigned) (calls : List DockerCall) (a : Agent)
    → Ends o.container (persisted e o s l calls a)
unfolding persisted
persisted-Ends e o s l calls a = (some _, refl, clear_state-lookup o.container a.operations)

client_added-Ends :
    (e : Env) (o : Order) (s : Started) (l : List Assigned) (calls : List DockerCall) (t : Try Unit)
    (a : Agent)
    → Ends o.container (client_added e o s l calls t a)
unfolding client_added
client_added-Ends e o s l calls (raised message) a = caught-Ends e o.container message calls a
client_added-Ends e o s l calls (done _) a = persisted-Ends e o s l calls a

registered-Ends :
    (e : Env) (o : Order) (s : Started) (l : List Assigned) (calls : List DockerCall)
    (i : Option NetInfo) (a : Agent)
    → Ends o.container (registered_as e o s l calls i a)
unfolding registered_as
registered-Ends e o s l calls none a = persisted-Ends e o s l calls a
registered-Ends e o s l calls (some i) a =
    client_added-Ends e o s l calls (raises_on e.client_write) _

reloaded-Ends :
    (e : Env) (o : Order) (internal : String) (l : List Assigned) (calls : List DockerCall)
    (t : Try Started) (a : Agent)
    → Ends o.container (reloaded e o internal l calls t a)
unfolding reloaded registered
reloaded-Ends e o internal l calls (raised message) a = caught-Ends e o.container message calls a
reloaded-Ends e o internal l calls (done s) a =
    registered-Ends e o s (collect_info s.settings l) calls (lookup internal s.settings) a

after_start-Ends :
    (w : World) (e : Env) (o : Order) (internal : String) (l : List Assigned)
    (r : Try Unit × List DockerCall) (a : Agent)
    → Ends o.container (after_start w e o internal l r a)
unfolding after_start
after_start-Ends w e o internal l (raised message, calls) a =
    caught-Ends e o.container message calls a
after_start-Ends w e o internal l (done _, calls) a = reloaded-Ends e o internal l calls w.reload a

with_version-Ends :
    (w : World) (e : Env) (o : Order) (internal : String) (l : List Assigned) (t : Try String)
    (a : Agent)
    → Ends o.container (with_version w e o internal l t a)
unfolding with_version
with_version-Ends w e o internal l (raised message) a = caught-Ends e o.container message [] a
with_version-Ends w e o internal l (done version) a =
    after_start-Ends w e o internal (endpoints_from w 0 l).1
      (create_and_start_container w o.container (use_networking_config version)
        (endpoints_from w 0 l).0)
      a

assigned-Ends :
    (w : World) (e : Env) (o : Order) (internal : String) (t : Try (List Assigned)) (a : Agent)
    → Ends o.container (assigned w e o internal t a)
unfolding assigned
assigned-Ends w e o internal (raised message) a = caught-Ends e o.container message [] a
assigned-Ends w e o internal (done l) a = with_version-Ends w e o internal l w.api_version _

networked-Ends :
    (w : World) (e : Env) (o : Order) (t : Try String) (a : Agent)
    → Ends o.container (networked w e o t a)
unfolding networked
networked-Ends w e o (raised message) a = caught-Ends e o.container message [] a
networked-Ends w e o (done internal) a = assigned-Ends w e o internal (assign_all w o.vnics) a

with_image-Ends :
    (w : World) (e : Env) (o : Order) (t : Try Bool) (a : Agent)
    → Ends o.container (with_image w e o t a)
unfolding with_image
with_image-Ends w e o (raised message) a = caught-Ends e o.container message [] a
with_image-Ends w e o (done false) a = caught-Ends e o.container "Runtime version not found." [] a
with_image-Ends w e o (done true) a = networked-Ends w e o (w.create_internal_network o.container) _

with_check-Ends :
    (w : World) (e : Env) (o : Order) (c : Check) (a : Agent)
    → ¬ (c ≡ check_raises)
    → Ends o.container (with_check w e o c a)
unfolding with_check
with_check-Ends w e o check_raises a h = absurd (h refl)
with_check-Ends w e o (invalid p) a h = caught-Ends e o.container _ [] a
with_check-Ends w e o valid a h =
    with_image-Ends w e o (pull_runtime_image w (image_name o.version)) _

-- A creation whose checks do not raise returns, whatever Docker, the files and the image registry do:
-- with a result, and then no operation is recorded for the container; or with none, and then its
-- operation is recorded as failed, with a message. So the next operation is not kept out by it.
pub create_sync-Ends :
    (w : World) (e : Env) (o : Order) (a : Agent)
    → ¬ (validate w a.nic_file o.dedicated o.vnics ≡ check_raises)
    → Ends o.container (create_sync w e o a)
unfolding create_sync
create_sync-Ends w e o a h = elim (Bool-cases (contains o.container a.client_repo.clients)) [
  | inl there ↦ rw there (caught-Ends e o.container "Container name is already in use" [] a)
  | inr new ↦ rw new (with_check-Ends w e o (validate w a.nic_file o.dedicated o.vnics) _ h)
]

-- When the checks raise, as they do on a netmask that is no dotted number, the creation of a container
-- that is new and whose operation was begun gives an exception in place of a result, and leaves the
-- operation in progress.
pub create_sync_check_raises :
    (w : World) (e : Env) (o : Order) (a : Agent)
    → contains o.container a.client_repo.clients ≡ false
    → validate w a.nic_file o.dedicated o.vnics ≡ check_raises
    → busy o.container a.operations ≡ true
    → ((message : String) × ((create_sync w e o a).0 ≡ raised message))
      × (busy o.container (create_sync w e o a).1.1.operations ≡ true)
unfolding create_sync with_check step_to
create_sync_check_raises w e o a new bad begun =
    rw (new, bad)
      (
        (_, refl),
        set_step-busy e.now o.container o.container "validating_config" a.operations begun,
      )
