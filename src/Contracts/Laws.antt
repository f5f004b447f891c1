-- ===== src/Contracts/Laws.antt =====
-- What `validate_message` lets through to the handlers of the topics.
use orchestrator_agent.Prelude.{
  ◌≡◌, refl, ◌↔◌, arith, ◌&&◌, String, Bool, true, false, if◌then◌else◌,
}
use orchestrator_agent.Prelude.Value.{Value, null, arr, obj, Items, no_items, item, Fields}
use orchestrator_agent.Contracts.{
  Kind, basic, list_type, optional_type, nested, Contract, no_keys, key, Outcome, valid,
  missing_key, wrong_type, not_a_dict, no_validate, Lookup, at_hand, not_there, no_dict, look_up,
  first_of, passes, refusal, each_valid, at_key, unless_nested, validate, validate_contract,
}
use orchestrator_agent.Contracts.Leaves.{passes_sound, passes_complete}
use orchestrator_agent.Contracts.Keys.{Holds-sound, Holds-complete, Misses-sound, Misses-complete}
use orchestrator_agent.Contracts.Conforms.{
  Conforms, a_basic, a_list, no_value, a_value, a_dict, Each, done, more, Has, all_there, present,
  left_out, is_plain_kind, is_plain,
}
use orchestrator_agent.Contracts.Topics.{handled, replied, error_text, given, validate_message}

plain_both :
    (kind : Kind) (c : Contract)
    → (is_plain_kind kind && is_plain c) ≡ true
    → (is_plain_kind kind ≡ true) × (is_plain c ≡ true)
plain_both kind c p = (ground arith, ground arith)

first_of_valid : (x y : Outcome) → first_of x y ≡ valid → (x ≡ valid) × (y ≡ valid)
first_of_valid valid y h = (refl, h)
first_of_valid (missing_key m) y h = absurd cc
first_of_valid (wrong_type m) y h = absurd cc
first_of_valid not_a_dict y h = absurd cc
first_of_valid no_validate y h = absurd cc

chosen_valid : (b : Bool) (m : String) → (if b then valid else wrong_type m) ≡ valid → b ≡ true
chosen_valid true m h = refl
chosen_valid false m h = absurd cc

module _ (iso : String → Bool) where
  module _ {k : Kind} (ih : (v : Value) → validate iso k v ≡ valid → Conforms iso k v) where
    items_sound : (vs : Items) → each_valid (validate iso k) vs ≡ valid → Each iso k vs
    items_sound no_items h = done
    items_sound (item v vs) h =
        let both = first_of_valid (validate iso k v) (each_valid (validate iso k) vs) h in
        more (ih v both.0) (items_sound vs both.1)

  key_sound :
      (name : String) (kind : Kind) (c : Contract) (v : Value) (l : Lookup)
      → ((x : Value) → validate iso kind x ≡ valid → Conforms iso kind x)
      → look_up name v ≡ l
      → at_key (validate iso kind) kind name l ≡ valid
      → Has iso c v
      → Has iso (key name kind c) v
  key_sound name kind c v (at_hand x) ih e h later = present (Holds-sound name v x e) (ih x h) later
  key_sound name (optional_type kind) c v not_there ih e h later =
      left_out (Misses-sound name v e) later
  key_sound name (basic b) c v not_there ih e h later = absurd cc
  key_sound name (list_type k) c v not_there ih e h later = absurd cc
  key_sound name (nested d) c v not_there ih e h later = absurd cc
  key_sound name kind c v no_dict ih e h later = absurd cc

  optional_sound :
      (k : Kind) (v : Value)
      → ((x : Value) → validate iso k x ≡ valid → Conforms iso k x)
      → unless_nested k (validate iso k v) ≡ valid
      → Conforms iso (optional_type k) v
  optional_sound (basic b) v ih h = a_value (ih v h)
  optional_sound (list_type k) v ih h = a_value (ih v h)
  optional_sound (optional_type k) v ih h = a_value (ih v h)
  optional_sound (nested c) v ih h = absurd cc

  mutual
    unfolding validate

    validate_sound : (k : Kind) (v : Value) → validate iso k v ≡ valid → Conforms iso k v
    validate_sound (basic b) v h =
        a_basic (passes_sound iso b v (chosen_valid (passes iso b v) (refusal b v) h))
    validate_sound (list_type k) (arr vs) h = a_list (items_sound (validate_sound k) vs h)
    validate_sound (list_type k) _ h = absurd cc
    validate_sound (optional_type k) null h = no_value
    validate_sound (optional_type k) v h = optional_sound k v (validate_sound k) h
    validate_sound (nested c) v h = a_dict (contract_sound c v h)

    contract_sound : (c : Contract) (v : Value) → validate_contract iso c v ≡ valid → Has iso c v
    contract_sound no_keys v h = all_there
    contract_sound (key name kind c) v h =
        let both =
          first_of_valid (at_key (validate iso kind) kind name (look_up name v))
            (validate_contract iso c v) h in
        key_sound name kind c v (look_up name v) (validate_sound kind) refl both.0
          (contract_sound c v both.1)

  optional_valid :
      (k : Kind) (v : Value)
      → unless_nested k (validate iso k v) ≡ valid
      → validate iso (optional_type k) v ≡ valid
  unfolding validate
  optional_valid k null h = refl
  optional_valid k _ h = h

  plain_optional :
      (k : Kind) (o : Outcome)
      → is_plain_kind (optional_type k) ≡ true
      → o ≡ valid
      → unless_nested k o ≡ valid
  unfolding is_plain_kind
  plain_optional (basic b) o p h = h
  plain_optional (list_type k) o p h = h
  plain_optional (optional_type k) o p h = h
  plain_optional (nested c) o p h = absurd (ground arith)

  plain_inside : (k : Kind) → is_plain_kind (optional_type k) ≡ true → is_plain_kind k ≡ true
  unfolding is_plain_kind
  plain_inside k p = ground arith

  mutual
    unfolding validate is_plain_kind is_plain

    validate_complete :
        {k : Kind} {v : Value}
        → is_plain_kind k ≡ true
        → Conforms iso k v
        → validate iso k v ≡ valid
    validate_complete p (a_basic h) = rw (passes_complete iso h) refl
    validate_complete p (a_list e) = items_complete p e
    validate_complete p no_value = refl
    validate_complete p (a_value {k} {v} c) =
        optional_valid k v
          (plain_optional k (validate iso k v) p (validate_complete (plain_inside k p) c))
    validate_complete p (a_dict h) = contract_complete p h

    items_complete :
        {k : Kind} {vs : Items}
        → is_plain_kind k ≡ true
        → Each iso k vs
        → each_valid (validate iso k) vs ≡ valid
    items_complete p done = refl
    items_complete p (more c e) = rw (validate_complete p c) (items_complete p e)

    contract_complete :
        {c : Contract} {v : Value}
        → is_plain c ≡ true
        → Has iso c v
        → validate_contract iso c v ≡ valid
    contract_complete p all_there = refl
    contract_complete p (present {kind} {c} e d h) =
        let both = plain_both kind c p in
        rw (Holds-complete e, validate_complete both.0 d) (contract_complete both.1 h)
    contract_complete p (left_out {kind} {c} e h) =
        rw (Misses-complete e) (contract_complete (plain_both (optional_type kind) c p).1 h)

replied_handled :
    (shown name : String) (id : Value) (fs : Fields) (o : Outcome)
    → (replied name id fs (error_text shown o) ≡ handled fs) ↔ (o ≡ valid)
unfolding error_text
replied_handled shown name id fs valid = (λ h. refl, λ h. refl)
replied_handled shown name id fs (missing_key m) = (λ h. absurd cc, λ h. absurd cc)
replied_handled shown name id fs (wrong_type m) = (λ h. absurd cc, λ h. absurd cc)
replied_handled shown name id fs not_a_dict = (λ h. absurd cc, λ h. absurd cc)
replied_handled shown name id fs no_validate = (λ h. absurd cc, λ h. absurd cc)

-- For a contract in which no `OptionalType` has a dict in it: the handler of a topic is called with the
-- message, and the defaults where they are asked for, exactly when that message is one that the contract
-- describes. A number may be a Boolean, and an interface name may have a line feed at its end.
pub validate_message_iff :
    (iso : String → Bool) (shown : String) (c : Contract) (name : String) (defaults : Bool)
    (now : String) (fs : Fields)
    → is_plain c ≡ true
    → (validate_message iso shown c name defaults now fs ≡ handled (given defaults name now fs))
      ↔ Has iso c (obj (given defaults name now fs))
unfolding validate_message
validate_message_iff iso shown c name defaults now fs p =
    let message = given defaults name now fs in
    let o = validate_contract iso c (obj message) in
    let both = replied_handled shown name _ message o in
    (λ h. contract_sound iso c (obj message) (both.0 h), λ h. both.1 (contract_complete iso p h))
