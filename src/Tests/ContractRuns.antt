-- ===== src/Tests/ContractRuns.antt =====
-- src/tools/contract_validation.py on small inputs.
use orchestrator_agent.Prelude.{◌≡◌, refl, ◌↔◌, String, Bool, true, false, map, [], ◌∷◌}
use orchestrator_agent.Prelude.Value.{
  Value, null, bool, int, pos, str, arr, obj, no_items, item, Fields, no_fields, field,
}
use orchestrator_agent.Contracts.{valid, wrong_type, validate_contract}
use orchestrator_agent.Contracts.Conforms.{Has, is_plain, is_plain_kind}
use orchestrator_agent.Contracts.Laws.{validate_message_iff}
use orchestrator_agent.Contracts.Topics.{
  create_new_runtime, run_command, get_host_interfaces, get_consumption_device,
  get_consumption_orchestrator, ice_candidate, offer, disconnect, handled, refused, given,
  validate_message,
}

abbrev any_date : String → Bool
any_date s = true

abbrev vnic : Value
vnic = obj (
    field "name" (str "lan") (
      field "parent_interface" (str "eth0")
        (field "network_mode" (str "dhcp") (field "dns" null no_fields))))

abbrev order : String → Fields
order nic = field "correlation_id" (int (pos 7)) (
    field "container_name" (str "plc") (
      field "vnic_configs" (arr (item vnic no_items))
        (field "dedicated_interface" (str nic) no_fields)))

validate_message_iff_example :
    (validate_message any_date "" create_new_runtime "create_new_runtime" true "2024-01-01"
        (order "eth1")
      ≡ handled (given true "create_new_runtime" "2024-01-01" (order "eth1")))
    ↔ Has any_date create_new_runtime
        (obj (given true "create_new_runtime" "2024-01-01" (order "eth1")))
unfolding is_plain is_plain_kind
validate_message_iff_example =
    validate_message_iff any_date "" create_new_runtime "create_new_runtime" true "2024-01-01"
      (order "eth1") refl

accepted :
    validate_message any_date "" create_new_runtime "create_new_runtime" true "2024-01-01"
      (order "eth1")
    ≡ handled (
        field "correlation_id" (int (pos 7)) (
          field "container_name" (str "plc") (
            field "vnic_configs" (arr (item vnic no_items)) (
              field "dedicated_interface" (str "eth1") (
                field "action"
                  (str "create_new_runtime")
                  (field "requested_at" (str "2024-01-01") no_fields))))))
unfolding validate_message
accepted = refl

-- A missing key, a name that is too long, a line feed at the end, and a Boolean for a number.
edge_tests :
    (validate_message any_date "" run_command "run_command" false "" (order "eth1")
      ≡ refused "Missing required field: 'Missing key: device_id'" "run_command" (int (pos 7)))
    × (validate_contract any_date create_new_runtime (obj (order "sixteen_letters_"))
        ≡ wrong_type
            "Value must be a valid Linux interface name (alphanumeric, dots, dashes, underscores, max 15 chars).")
    × (validate_contract any_date create_new_runtime (obj (order "eth1\n")) ≡ valid)
    × (validate_contract any_date create_new_runtime (
          obj (
            field "correlation_id"
              (bool true)
              (field "container_name" (str "plc") (field "vnic_configs" (arr no_items) no_fields))))
        ≡ valid)
unfolding validate_message
edge_tests = (refl, refl, refl, refl)

-- No contract of a topic has an `OptionalType` with a dict in it.
all_plain :
    map is_plain (
      create_new_runtime ∷ run_command ∷ get_host_interfaces ∷ get_consumption_device
      ∷ get_consumption_orchestrator ∷ ice_candidate ∷ offer ∷ disconnect ∷ [])
    ≡ true ∷ true ∷ true ∷ true ∷ true ∷ true ∷ true ∷ true ∷ []
unfolding is_plain is_plain_kind
all_plain = refl
