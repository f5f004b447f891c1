-- ===== src/Contracts/Topics.antt =====
-- The contracts of the topics under src/controllers/websocket_controller/topics/receivers and of the
-- signaling under src/controllers/webrtc_controller/signaling, and `validate_message`.
use orchestrator_agent.Prelude.{String, Bool, Option, none, some, if◌then◌else◌}
use orchestrator_agent.Prelude.Value.{Value, null, str, obj, Fields, no_fields, field}
use orchestrator_agent.Prelude.Texts.{append}
use orchestrator_agent.Contracts.{
  Kind, basic, list_type, optional_type, Contract, no_keys, key, number_type, string_type,
  non_empty_string_type, interface_name_type, date_type, boolean_type, Outcome, valid, missing_key,
  wrong_type, not_a_dict, no_validate, nested, Lookup, at_hand, not_there, no_dict, get_field,
  validate_contract,
}

-- `{**base, ...}` for keys that are not in `base`.
abbrev spread : Contract → Contract → Contract
spread no_keys more = more
spread (key k kind c) more = key k kind (spread c more)

abbrev string : Kind
string = basic string_type

abbrev number : Kind
number = basic number_type

abbrev non_empty : Kind
non_empty = basic non_empty_string_type

abbrev maybe_string : Kind
maybe_string = optional_type string

abbrev maybe_number : Kind
maybe_number = optional_type number

abbrev base_message : Contract
base_message =
    key "correlation_id" maybe_number
      (key "action" maybe_string (key "requested_at" (optional_type (basic date_type)) no_keys))

abbrev base_device : Contract
base_device = spread base_message (key "device_id" non_empty no_keys)

abbrev serial_config_type : Contract
serial_config_type =
    key "name" string
      (key "device_id" string (key "container_path" string (key "baud_rate" maybe_number no_keys)))

abbrev vnic_config_type : Contract
vnic_config_type = key "name" string (
    key "parent_interface" string (
      key "network_mode" string (
        key "ip" maybe_string (
          key "subnet" maybe_string (
            key "gateway" maybe_string
              (key "dns" (optional_type (list_type string)) (key "mac" maybe_string no_keys)))))))

abbrev pub create_new_runtime : Contract
create_new_runtime = spread base_message (
    key "container_name" non_empty (
      key "vnic_configs" (list_type (nested vnic_config_type)) (
        key "serial_configs" (optional_type (list_type (nested serial_config_type))) (
          key "runtime_version" maybe_string
            (key "dedicated_interface" (optional_type (basic interface_name_type)) no_keys)))))

abbrev pub run_command : Contract
run_command =
    spread base_device (key "method" string (key "api" string (key "port" maybe_number no_keys)))

abbrev pub get_host_interfaces : Contract
get_host_interfaces = spread base_message (
    key "include_virtual" (optional_type (basic boolean_type))
      (key "detailed" (optional_type (basic boolean_type)) no_keys))

abbrev pub get_consumption_device : Contract
get_consumption_device =
    spread base_device (key "cpuPeriod" string (key "memoryPeriod" string no_keys))

abbrev pub get_consumption_orchestrator : Contract
get_consumption_orchestrator =
    spread base_message (key "cpuPeriod" string (key "memoryPeriod" string no_keys))

abbrev pub ice_candidate : Contract
ice_candidate = spread base_message (
    key "session_id" string (
      key "candidate" maybe_string
        (key "sdp_mid" maybe_string (key "sdp_mline_index" maybe_number no_keys))))

abbrev pub offer : Contract
offer = spread base_message (
    key "session_id" string
      (key "device_id" string (key "sdp" string (key "sdp_type" string no_keys))))

abbrev pub disconnect : Contract
disconnect = spread base_message (key "session_id" string (key "reason" maybe_string no_keys))

-- The text under `"error"`; `shown` is that of an exception of Python's own.
unfoldable pub error_text : String → Outcome → Option String
error_text shown valid = none
error_text shown (missing_key m) = some (append "Missing required field: '" (append m "'"))
error_text shown (wrong_type m) = some (append "Invalid field type: " m)
error_text shown not_a_dict = some (append "Invalid field type: " shown)
error_text shown no_validate = some (append "Validation error: " shown)

-- Setting a key that is not there.
abbrev added : String → Value → Fields → Fields
added k v no_fields = field k v no_fields
added k v (field j w fs) = field j w (added k v fs)

abbrev default_to : Lookup → String → Value → Fields → Fields
default_to not_there k v fs = added k v fs
default_to (at_hand w) k v fs = fs
default_to no_dict k v fs = fs

unfoldable pub with_defaults : String → String → Fields → Fields
unfolding get_field
with_defaults name now fs =
    let with_action = default_to (get_field "action" fs) "action" (str name) fs in
    default_to (get_field "requested_at" with_action) "requested_at" (str now) with_action

abbrev value_of : Lookup → Value
value_of (at_hand v) = v
value_of not_there = null
value_of no_dict = null

-- The error reply, or the message that the handler is called with.
pub data Reply : Type 0 where
  refused : (error action : String) (correlation_id : Value) → Reply
  handled : Fields → Reply

abbrev pub replied : String → Value → Fields → Option String → Reply
replied name correlation_id fs none = handled fs
replied name correlation_id fs (some error) = refused error name correlation_id

abbrev pub given : Bool → String → String → Fields → Fields
given add_defaults name now fs = if add_defaults then with_defaults name now fs else fs

-- `validate_message`, with `validate_contract_with_error_response`; `now` is the current time as a
-- text.
unfoldable pub validate_message :
    (String → Bool) → String → Contract → String → Bool → String → Fields → Reply
unfolding validate_contract error_text with_defaults get_field
validate_message fromisoformat shown contract name add_defaults now fs =
    let message = given add_defaults name now fs in
    replied name (value_of (get_field "correlation_id" fs)) message
      (error_text shown (validate_contract fromisoformat contract (obj message)))
