-- ===== src/Contracts/Conforms.antt =====
-- When a value is one that a contract of src/tools/contract_validation.py describes, as a relation.
use orchestrator_agent.Prelude.{String, Bool, true, not, ◌&&◌}
use orchestrator_agent.Prelude.Value.{Value, null, arr, Items, no_items, item}
use orchestrator_agent.Contracts.{
  Basic, Kind, basic, list_type, optional_type, nested, Contract, no_keys, key, is_nested,
}
use orchestrator_agent.Contracts.Leaves.{Fits}
use orchestrator_agent.Contracts.Keys.{Holds, Misses}

mutual
  pub data Conforms (fromisoformat : String → Bool) : Kind → Value → Type 0 where
    a_basic : {b : Basic} {v : Value} → Fits fromisoformat b v → Conforms fromisoformat (basic b) v
    a_list :
        {k : Kind} {vs : Items}
        → Each fromisoformat k vs
        → Conforms fromisoformat (list_type k) (arr vs)
    no_value : {k : Kind} → Conforms fromisoformat (optional_type k) null
    a_value :
        {k : Kind} {v : Value}
        → Conforms fromisoformat k v
        → Conforms fromisoformat (optional_type k) v
    a_dict :
        {c : Contract} {v : Value} → Has fromisoformat c v → Conforms fromisoformat (nested c) v

  pub data Each (fromisoformat : String → Bool) : Kind → Items → Type 0 where
    done : {k : Kind} → Each fromisoformat k no_items
    more :
        {k : Kind} {v : Value} {vs : Items}
        → Conforms fromisoformat k v
        → Each fromisoformat k vs
        → Each fromisoformat k (item v vs)

  -- Each key is there with a value of its type, or it is not there and may be left out.
  pub data Has (fromisoformat : String → Bool) : Contract → Value → Type 0 where
    all_there : {v : Value} → Has fromisoformat no_keys v
    present :
        {k : String} {kind : Kind} {c : Contract} {v x : Value}
        → Holds k x v
        → Conforms fromisoformat kind x
        → Has fromisoformat c v
        → Has fromisoformat (key k kind c) v
    left_out :
        {k : String} {kind : Kind} {c : Contract} {v : Value}
        → Misses k v
        → Has fromisoformat c v
        → Has fromisoformat (key k (optional_type kind) c) v

-- No `OptionalType` has a dict in it, whose `validate` it would call.
unfoldable mutual
  pub is_plain_kind : Kind → Bool
  is_plain_kind (basic b) = true
  is_plain_kind (list_type k) = is_plain_kind k
  is_plain_kind (optional_type k) = not (is_nested k) && is_plain_kind k
  is_plain_kind (nested c) = is_plain c

  pub is_plain : Contract → Bool
  is_plain no_keys = true
  is_plain (key k kind c) = is_plain_kind kind && is_plain c
