-- ===== src/Contracts.antt =====
-- src/tools/contract_validation.py and `validate_message` of
-- src/controllers/websocket_controller/topics/receivers/__init__.py: the check of the messages that
-- the agent is sent. `fromisoformat` is Python's, as a test. What `KeyError` shows is the repr of its
-- text, for keys without quotes and backslashes.
pub mod Topics
pub mod Leaves
pub mod Keys
pub mod Conforms
pub mod Laws
use Prim.Native.Char.{code}
use Prim.Native.String.{◌∷◌ as char_then, [] as no_text}
use orchestrator_agent.Prelude.{
  ℕ, String, Bool, true, false, not, ◌&&◌, ◌||◌, Option, none, some, List, [], ◌∷◌, any, length,
  if◌then◌else◌, str_eq, leb, ◌==◌,
}
use orchestrator_agent.Prelude.Value.{
  Value, null, bool, int, float, str, arr, obj, Items, no_items, item, Fields, no_fields, field,
}
use orchestrator_agent.Prelude.Texts.{append, has_text, codes, replace_code, within}

-- The types without parameters.
pub data Basic : Type 0 where
  number_type string_type non_empty_string_type interface_name_type date_type boolean_type : Basic

-- A value of a contract: a basic type, `ListType`, `OptionalType`, or a contract in its place.
mutual
  pub data Kind : Type 0 where
    basic : Basic → Kind
    list_type optional_type : Kind → Kind
    nested : Contract → Kind

  pub data Contract : Type 0 where
    no_keys : Contract
    key : String → Kind → Contract → Contract

-- How a validation ends: no exception, the KeyError or a TypeError of the module, Python's own
-- TypeError (for data that is no dict), or its AttributeError (a dict has no `validate`).
pub data Outcome : Type 0 where
  valid : Outcome
  missing_key wrong_type : String → Outcome
  not_a_dict no_validate : Outcome

-- The characters that `str.strip` removes.
abbrev pub is_blank : ℕ → Bool
is_blank c =
    (leb 9 c && leb c 13)
    || ((leb 28 c && leb c 32)
        || any (◌==◌ c) (
            133 ∷ 160 ∷ 5760 ∷ 8192 ∷ 8193 ∷ 8194 ∷ 8195 ∷ 8196 ∷ 8197 ∷ 8198 ∷ 8199 ∷ 8200 ∷ 8201
            ∷ 8202 ∷ 8232 ∷ 8233 ∷ 8239 ∷ 8287 ∷ 12288 ∷ []))

unfoldable pub has_ink : List ℕ → Bool
has_ink [] = false
has_ink (c ∷ s) = not (is_blank c) || has_ink s

-- `[a-zA-Z0-9_.-]`
abbrev pub is_name_char : ℕ → Bool
is_name_char c =
    within b'a' b'z' c
    || (within b'A' b'Z' c || (within b'0' b'9' c || ((c == b'_') || ((c == b'.') || (c == b'-')))))

-- What may follow the first character: `$` also matches before a line feed at the end.
unfoldable pub rest_of_name : List ℕ → Bool
rest_of_name [] = true
rest_of_name (c ∷ []) = is_name_char c || (c == 10)
rest_of_name (c ∷ s) = is_name_char c && rest_of_name s

unfoldable pub is_interface_name : List ℕ → Bool
unfolding rest_of_name
is_interface_name [] = false
is_interface_name (c ∷ s) = is_name_char c && (rest_of_name s && leb (length (c ∷ s)) 15)

unfoldable pub ends_in_z : List ℕ → Bool
ends_in_z [] = false
ends_in_z (c ∷ []) = c == b'Z'
ends_in_z (c ∷ s) = ends_in_z s

unfoldable pub with_offset : String → String
unfolding ends_in_z replace_code
with_offset s = if ends_in_z (codes s) then replace_code b'Z' "+00:00" s else s

-- A lookup with `key in data` and `data[key]`: the value, no such key, or Python's TypeError.
pub data Lookup : Type 0 where
  at_hand : Value → Lookup
  not_there no_dict : Lookup

unfoldable pub get_field : String → Fields → Lookup
get_field k no_fields = not_there
get_field k (field j v fs) = let rest = get_field k fs in if str_eq j k then at_hand v else rest

unfoldable pub is_item : String → Items → Bool
is_item k no_items = false
is_item k (item (str s) vs) = str_eq s k || is_item k vs
is_item k (item _ vs) = is_item k vs

unfoldable pub look_up : String → Value → Lookup
unfolding get_field is_item
look_up k (obj fs) = get_field k fs
look_up k (str s) = if has_text s k then no_dict else not_there
look_up k (arr vs) = if is_item k vs then no_dict else not_there
look_up k null = no_dict
look_up k (bool b) = no_dict
look_up k (int n) = no_dict
look_up k (float t) = no_dict

abbrev pub first_of : Outcome → Outcome → Outcome
first_of valid next = next
first_of (missing_key m) next = missing_key m
first_of (wrong_type m) next = wrong_type m
first_of not_a_dict next = not_a_dict
first_of no_validate next = no_validate

abbrev pub is_optional : Kind → Bool
is_optional (optional_type k) = true
is_optional (basic b) = false
is_optional (list_type k) = false
is_optional (nested c) = false

abbrev pub is_nested : Kind → Bool
is_nested (nested c) = true
is_nested (basic b) = false
is_nested (list_type k) = false
is_nested (optional_type k) = false

abbrev pub absent : Kind → String → Outcome
absent kind k = if is_optional kind then valid else missing_key (append "Missing key: " k)

-- `isinstance(True, int)` is true.
abbrev is_number : Value → Bool
is_number (int n) = true
is_number (float t) = true
is_number (bool b) = true
is_number _ = false

abbrev pub on_text : (String → Bool) → Value → Bool
on_text test (str s) = test s
on_text test _ = false

abbrev is_bool : Value → Bool
is_bool (bool b) = true
is_bool _ = false

module _ (fromisoformat : String → Bool) where
  -- Whether a basic type takes a value.
  unfoldable pub passes : Basic → Value → Bool
  unfolding has_ink is_interface_name with_offset
  passes number_type v = is_number v
  passes string_type v = on_text (λ s. true) v
  passes non_empty_string_type v = on_text (λ s. has_ink (codes s)) v
  passes interface_name_type v = on_text (λ s. is_interface_name (codes s)) v
  passes date_type v = on_text (λ s. fromisoformat (with_offset s)) v
  passes boolean_type v = is_bool v

abbrev text_or : String → Value → String
text_or message (str s) = message
text_or message _ = "Value must be a string."

-- The text of the TypeError.
abbrev pub refusal : Basic → Value → String
refusal number_type v = "Value must be a number."
refusal string_type v = "Value must be a string."
refusal non_empty_string_type v = text_or "Value must be a non-empty string." v
refusal interface_name_type v =
    text_or
      "Value must be a valid Linux interface name (alphanumeric, dots, dashes, underscores, max 15 chars)."
      v
refusal date_type v = "Value must be a valid ISO datetime string."
refusal boolean_type v = "Value must be a boolean."

abbrev pub each_valid : (Value → Outcome) → Items → Outcome
each_valid check no_items = valid
each_valid check (item v vs) = first_of (check v) (each_valid check vs)

abbrev pub at_key : (Value → Outcome) → Kind → String → Lookup → Outcome
at_key check kind k (at_hand v) = check v
at_key check kind k not_there = absent kind k
at_key check kind k no_dict = not_a_dict

-- `self.item_type.validate(value)`, which a dict does not have.
abbrev pub unless_nested : Kind → Outcome → Outcome
unless_nested kind o = if is_nested kind then no_validate else o

module _ (fromisoformat : String → Bool) where
  unfoldable mutual
    unfolding passes look_up

    -- `validate` of the types, and `validate_contract` for a contract in a type's place.
    pub validate : Kind → Value → Outcome
    validate (basic b) v = if passes fromisoformat b v then valid else wrong_type (refusal b v)
    validate (list_type k) (arr vs) = each_valid (validate k) vs
    validate (list_type k) _ = wrong_type "Value must be a list."
    validate (optional_type k) null = valid
    validate (optional_type k) v = unless_nested k (validate k v)
    validate (nested c) v = validate_contract c v

    -- `validate_contract`
    pub validate_contract : Contract → Value → Outcome
    validate_contract no_keys v = valid
    validate_contract (key k kind c) v =
        first_of (at_key (validate kind) kind k (look_up k v)) (validate_contract c v)
