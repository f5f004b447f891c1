-- ===== src/Tests/OperationsRuns.antt =====
-- src/tools/operations_state.py on small inputs.
use orchestrator_agent.Prelude.{
  ◌≡◌, ◌≢◌, refl, String, true, false, none, List, [], ◌∷◌, arith, eq_iff,
}
use orchestrator_agent.Prelude.Dict.{lookup, AllValues}
use orchestrator_agent.Operations.{
  create, delete, init, set_kind, set_creating, is_operation_in_progress,
}
use orchestrator_agent.Operations.Exclusion.{
  Action, step, fail, clear, perform, perform_all, operation_exclusive,
}
use orchestrator_agent.Operations.Records.{IsConsistent, perform-IsConsistent}

abbrev others : List Action
others = step 2 "plc" "pulling_image" ∷ clear "other" ∷ []

apart : ◌≢◌ {A = String} "other" "plc"
apart e = ground (arith, eq_iff "other" "plc")

first_granted : (set_kind create 1 "plc" init).0 ≡ true
unfolding set_creating init lookup
first_granted = refl

operation_exclusive_example :
    set_kind delete 9 "plc" (perform_all others (set_kind create 1 "plc" init).1)
    ≡ (false, perform_all others (set_kind create 1 "plc" init).1)
operation_exclusive_example =
    operation_exclusive create delete 1 9 "plc" others init first_granted (λ e. e, (apart, tt))

none_in_progress : (is_operation_in_progress "plc" init).0 ≡ false
unfolding is_operation_in_progress init lookup
none_in_progress = refl

perform-IsConsistent_example :
    AllValues (IsConsistent 7) (perform (fail 5 "plc" "no image" none) init).operations
unfolding init
perform-IsConsistent_example =
    perform-IsConsistent 4 7 (fail 5 "plc" "no image" none) init (omega arith, omega arith) tt
