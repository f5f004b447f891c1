-- ===== src/Operations/Exclusion.antt =====
-- Which operations src/tools/operations_state.py grants beside another one.
use orchestrator_agent.Prelude.{
  ℕ, ◌≡◌, ◌≢◌, ◌⊎◌, refl, String, Bool, true, false, Option, none, some, List, [], ◌∷◌, arith,
  eq_iff, All, Bool-cases, inl, inr, Option-cases,
}
use orchestrator_agent.Prelude.Dict.{lookup, lookup-insert, lookup-remove}
use orchestrator_agent.Operations.{
  OperationsStateTracker, Kind, create, delete, already_in_progress, failed_to_start, is_busy,
  set_kind, set_creating, set_deleting, set_step, set_error, clear_state, begin_operation, begun,
  is_operation_in_progress, fresh, failed, stepped, creating, deleting,
}

-- A call of one of the methods that write, with the clock that it reads.
pub data Action : Type 0 where
  begin : Kind → ℕ → String → Action
  step : ℕ → String → String → Action
  fail : ℕ → String → String → Option String → Action
  clear : String → Action

unfoldable pub perform : Action → OperationsStateTracker → OperationsStateTracker
perform (begin kind now name) s = (set_kind kind now name s).1
perform (step now name text) s = set_step now name text s
perform (fail now name message kind) s = set_error now name message kind s
perform (clear name) s = clear_state name s

-- The calls of all threads, in the order in which they get the lock.
unfoldable pub perform_all : List Action → OperationsStateTracker → OperationsStateTracker
perform_all [] s = s
perform_all (a ∷ l) s = perform_all l (perform a s)

-- The calls that end an operation on the container.
abbrev Releases : String → Action → Type 0
Releases name (fail now other message kind) = other ≡ name
Releases name (clear other) = other ≡ name
Releases name _ = ⊥

abbrev pub busy : String → OperationsStateTracker → Bool
busy name s = is_busy (lookup name s.operations)

set_kind-busy :
    (kind : Kind) (now : ℕ) (name other : String) (s : OperationsStateTracker)
    → busy name s ≡ true
    → busy name (set_kind kind now other s).1 ≡ true
unfolding set_creating set_deleting
set_kind-busy create now name other s h =
    ground (
      arith,
      lookup-insert other name (fresh creating "create" now) s.operations,
      eq_iff other name,
    )
set_kind-busy delete now name other s h =
    ground (
      arith,
      lookup-insert other name (fresh deleting "delete" now) s.operations,
      eq_iff other name,
    )

pub set_step-busy :
    (now : ℕ) (name other text : String) (s : OperationsStateTracker)
    → busy name s ≡ true
    → busy name (set_step now other text s) ≡ true
unfolding set_step
set_step-busy now name other text s h = elim (Option-cases (lookup other s.operations)) [
  | inl missing ↦ rw (missing, set_step) h
  | inr (op, found) ↦
      rw (found, set_step)
        (ground
          (arith, lookup-insert other name (stepped now text op) s.operations, eq_iff other name))
]

set_error-busy :
    (now : ℕ) (name other message : String) (kind : Option String) (s : OperationsStateTracker)
    → other ≢ name
    → busy name s ≡ true
    → busy name (set_error now other message kind s) ≡ true
unfolding set_error
set_error-busy now name other message kind s apart h = ground (
  arith,
  lookup-insert other name (failed now message kind (lookup other s.operations)) s.operations,
  eq_iff other name,
)

clear_state-busy :
    (name other : String) (s : OperationsStateTracker)
    → other ≢ name
    → busy name s ≡ true
    → busy name (clear_state other s) ≡ true
unfolding clear_state
clear_state-busy name other s apart h =
    ground (arith, lookup-remove other name s.operations, eq_iff other name)

perform-busy :
    (a : Action) (name : String) (s : OperationsStateTracker)
    → ¬ Releases name a
    → busy name s ≡ true
    → busy name (perform a s) ≡ true
unfolding perform
perform-busy (begin kind now other) name s keeps h = set_kind-busy kind now name other s h
perform-busy (step now other text) name s keeps h = set_step-busy now name other text s h
perform-busy (fail now other message kind) name s keeps h =
    set_error-busy now name other message kind s keeps h
perform-busy (clear other) name s keeps h = clear_state-busy name other s keeps h

perform_all-busy :
    (l : List Action) (name : String) (s : OperationsStateTracker)
    → All (λ a. ¬ Releases name a) l
    → busy name s ≡ true
    → busy name (perform_all l s) ≡ true
unfolding perform_all
perform_all-busy [] name s keeps h = h
perform_all-busy (a ∷ l) name s keeps h =
    perform_all-busy l name (perform a s) keeps.1 (perform-busy a name s keeps.0 h)

set_kind_granted :
    (kind : Kind) (now : ℕ) (name : String) (s : OperationsStateTracker)
    → (set_kind kind now name s).0 ≡ true
    → busy name (set_kind kind now name s).1 ≡ true
unfolding set_creating set_deleting
set_kind_granted create now name s h =
    ground
      (arith, lookup-insert name name (fresh creating "create" now) s.operations, eq_iff name name)
set_kind_granted delete now name s h =
    ground
      (arith, lookup-insert name name (fresh deleting "delete" now) s.operations, eq_iff name name)

set_kind_refused :
    (kind : Kind) (now : ℕ) (name : String) (s : OperationsStateTracker)
    → busy name s ≡ true
    → set_kind kind now name s ≡ (false, s)
unfolding set_creating set_deleting
set_kind_refused create now name s h = rw h
set_kind_refused delete now name s h = rw h

-- After `set_creating` or `set_deleting` has been granted for a container, whatever calls the
-- threads make in whatever order, if none of them is `set_error` or `clear_state` for that container,
-- then every further `set_creating` or `set_deleting` for it returns False and changes nothing.
pub operation_exclusive :
    (kind again : Kind) (now later : ℕ) (name : String) (l : List Action)
    (s : OperationsStateTracker)
    → (set_kind kind now name s).0 ≡ true
    → All (λ a. ¬ Releases name a) l
    → set_kind again later name (perform_all l (set_kind kind now name s).1)
      ≡ (false, perform_all l (set_kind kind now name s).1)
operation_exclusive kind again now later name l s granted keeps =
    set_kind_refused again later name (perform_all l (set_kind kind now name s).1) (
      perform_all-busy l name (set_kind kind now name s).1 keeps
        (set_kind_granted kind now name s granted))

in_progress-busy :
    (name : String) (s : OperationsStateTracker) → (is_operation_in_progress name s).0 ≡ busy name s
unfolding is_operation_in_progress
in_progress-busy name s = ground arith

set_kind_free :
    (kind : Kind) (now : ℕ) (name : String) (s : OperationsStateTracker)
    → busy name s ≡ false
    → (set_kind kind now name s).0 ≡ true
unfolding set_creating set_deleting
set_kind_free create now name s h = rw h
set_kind_free delete now name s h = rw h

begun_granted : (p : Bool × OperationsStateTracker) → p.0 ≡ true → begun p ≡ (none, p.1)
begun_granted (true, s) h = refl
begun_granted (false, s) h = absurd (ground arith)

begun_refused :
    (p : Bool × OperationsStateTracker) → p.0 ≡ false → begun p ≡ (some failed_to_start, p.1)
begun_refused (true, s) h = absurd (ground arith)
begun_refused (false, s) h = refl

-- `begin_operation` with no other thread in between: for a container that is busy it returns the
-- error that an operation is in progress, and changes nothing; for any other it returns no error,
-- and the container is busy afterwards.
begin_operation_outcome :
    (kind : Kind) (now : ℕ) (name : String) (s : OperationsStateTracker)
    → ((busy name s ≡ true)
        × ((t : Option String) × (begin_operation kind now name s
              ≡ (some (already_in_progress t), s))))
      ⊎ ((busy name s ≡ false)
          × ((begin_operation kind now name s).0 ≡ none)
          × (busy name (begin_operation kind now name s).1 ≡ true))
unfolding begin_operation
begin_operation_outcome kind now name s = elim (Bool-cases (busy name s)) [
  | inl held ↦ inl (held, ((is_operation_in_progress name s).1, rw (in_progress-busy name s, held)))
  | inr free ↦
      let granted = set_kind_free kind now name s free in
      inr (
        free,
        rw (in_progress-busy name s, free, begun_granted (set_kind kind now name s) granted),
        rw (in_progress-busy name s, free, begun_granted (set_kind kind now name s) granted)
            (set_kind_granted kind now name s granted),
      )
]

-- Two threads that begin an operation on one container, each of which has found none in progress: the
-- first to set the state gets its operation and the second the error that it could not be started,
-- if no call in between is `set_error` or `clear_state` for that container.
pub begin_operation_race :
    (kind again : Kind) (now later : ℕ) (name : String) (l : List Action)
    (s : OperationsStateTracker)
    → (is_operation_in_progress name s).0 ≡ false
    → All (λ a. ¬ Releases name a) l
    → ((begun (set_kind kind now name s)).0 ≡ none)
      × (begun (set_kind again later name (perform_all l (set_kind kind now name s).1))
          ≡ (some failed_to_start, perform_all l (set_kind kind now name s).1))
begin_operation_race kind again now later name l s free keeps =
    let granted = set_kind_free kind now name s (rw in_progress-busy at free) in
    (
      rw (begun_granted (set_kind kind now name s) granted),
      rw (operation_exclusive kind again now later name l s granted keeps),
    )
