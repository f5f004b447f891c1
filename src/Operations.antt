-- ===== src/Operations.antt =====
-- src/tools/operations_state.py: which container is being created or deleted. Each method holds the
-- lock from start to end, so a method is one step. `now` is the clock that the method reads.
pub mod Exclusion
pub mod Records
use orchestrator_agent.Prelude.{
  ℕ, String, Bool, true, false, Option, none, some, List, [], ◌∷◌, if◌then◌else◌, str_eq,
}
use orchestrator_agent.Prelude.Dict.{Dict, lookup, insert, remove, contains}

pub data Status : Type 0 where
  creating deleting error_status : Status

pub record Operation : Type 0 where
  pub status : Status
  pub operation : String
  pub step : Option String
  pub error : Option String
  pub started_at : ℕ
  pub updated_at : ℕ

pub record OperationsStateTracker : Type 0 where
  pub operations : Dict Operation

unfoldable pub init : OperationsStateTracker
init = record { operations = [] }

-- `status in ["creating", "deleting"]`
abbrev is_active : Status → Bool
is_active error_status = false
is_active _ = true

abbrev pub is_busy : Option Operation → Bool
is_busy none = false
is_busy (some op) = is_active op.status

abbrev pub fresh : Status → String → ℕ → Operation
fresh s kind now = record {
  status = s;
  operation = kind;
  step = none;
  error = none;
  started_at = now;
  updated_at = now;
}

unfoldable pub set_creating : ℕ → String → OperationsStateTracker → Bool × OperationsStateTracker
set_creating now name s =
    if is_busy (lookup name s.operations)
    then (false, s)
    else (true, record s { operations = insert name (fresh creating "create" now) s.operations })

unfoldable pub set_deleting : ℕ → String → OperationsStateTracker → Bool × OperationsStateTracker
set_deleting now name s =
    if is_busy (lookup name s.operations)
    then (false, s)
    else (true, record s { operations = insert name (fresh deleting "delete" now) s.operations })

abbrev pub stepped : ℕ → String → Operation → Operation
stepped now step op = record op { step = some step; updated_at = now }

unfoldable pub set_step : ℕ → String → String → OperationsStateTracker → OperationsStateTracker
set_step now name step s = elim (lookup name s.operations) [
  | none ↦ s
  | some op ↦ record s { operations = insert name (stepped now step op) s.operations }
]

-- `operation or "unknown"`
abbrev or_unknown : Option String → String
or_unknown none = "unknown"
or_unknown (some kind) = if str_eq kind "" then "unknown" else kind

abbrev pub failed : ℕ → String → Option String → Option Operation → Operation
failed now message kind none = record {
  status = error_status;
  operation = or_unknown kind;
  step = none;
  error = some message;
  started_at = now;
  updated_at = now;
}
failed now message kind (some op) = record op {
  status = error_status;
  error = some message;
  updated_at = now;
}

unfoldable pub set_error :
    ℕ → String → String → Option String → OperationsStateTracker → OperationsStateTracker
set_error now name message kind s = record s {
  operations = insert name (failed now message kind (lookup name s.operations)) s.operations;
}

-- Deleting a key that is absent changes nothing.
unfoldable pub clear_state : String → OperationsStateTracker → OperationsStateTracker
clear_state name s =
    if contains name s.operations then record s { operations = remove name s.operations } else s

unfoldable pub get_state : String → OperationsStateTracker → Option Operation
get_state name s = lookup name s.operations

unfoldable pub is_operation_in_progress : String → OperationsStateTracker → Bool × Option String
is_operation_in_progress name s = elim (lookup name s.operations) [
  | none ↦ (false, none)
  | some op ↦ if is_active op.status then (true, some op.operation) else (false, none)
]

-- The method that `begin_operation` is given.
pub data Kind : Type 0 where
  create delete : Kind

abbrev pub set_kind : Kind → ℕ → String → OperationsStateTracker → Bool × OperationsStateTracker
set_kind create = set_creating
set_kind delete = set_deleting

pub data BeginError : Type 0 where
  already_in_progress : Option String → BeginError
  failed_to_start : BeginError

-- The second half of `begin_operation`, after `set_fn` has run.
abbrev pub begun : Bool × OperationsStateTracker → Option BeginError × OperationsStateTracker
begun (true, s) = (none, s)
begun (false, s) = (some failed_to_start, s)

-- The pair that the source returns is the error with its negation as a flag; the flag is left out.
unfoldable pub begin_operation :
    Kind → ℕ → String → OperationsStateTracker → Option BeginError × OperationsStateTracker
unfolding is_operation_in_progress set_creating set_deleting
begin_operation kind now name s =
    let (in_progress, operation_type) = is_operation_in_progress name s in
    if in_progress
    then (some (already_in_progress operation_type), s)
    else begun (set_kind kind now name s)
