-- ===== src/Contracts/Keys.antt =====
-- What it is for a key to be in a message, or not, said without the lookup of
-- src/tools/contract_validation.py.
use orchestrator_agent.Prelude.{
  ◌≡◌, ◌≢◌, refl, ap, inl, inr, if◌then◌else◌, Bool, String, true, false, arith, eq_iff, str_eq,
  Bool-cases,
}
use orchestrator_agent.Prelude.Value.{
  Value, null, bool, int, float, str, arr, obj, Items, no_items, item, Fields, no_fields, field,
}
use orchestrator_agent.Prelude.Texts.{has_text}
use orchestrator_agent.Contracts.{at_hand, not_there, no_dict, get_field, is_item, look_up}

-- The first field of the key has the value.
pub data At (k : String) (x : Value) : Fields → Type 0 where
  at_front : {fs : Fields} → At k x (field k x fs)
  further : {j : String} {y : Value} {fs : Fields} → j ≢ k → At k x fs → At k x (field j y fs)

abbrev Lacks : String → Fields → Type 0
Lacks k no_fields = Unit
Lacks k (field j y fs) = (j ≢ k) × Lacks k fs

abbrev IsNotAmong : String → Items → Type 0
IsNotAmong k no_items = Unit
IsNotAmong k (item v vs) = (v ≢ str k) × IsNotAmong k vs

pub data Holds (k : String) (x : Value) : Value → Type 0 where
  holds : {fs : Fields} → At k x fs → Holds k x (obj fs)

-- `k not in data`, which a text and a list can be asked as well.
pub data Misses (k : String) : Value → Type 0 where
  no_field : {fs : Fields} → Lacks k fs → Misses k (obj fs)
  not_in_text : {s : String} → has_text s k ≡ false → Misses k (str s)
  not_among : {vs : Items} → IsNotAmong k vs → Misses k (arr vs)

At-sound : (k : String) (fs : Fields) (x : Value) → get_field k fs ≡ at_hand x → At k x fs
unfolding get_field
At-sound k no_fields x h = absurd cc
At-sound k (field j y fs) x h = elim (Bool-cases (str_eq j k)) [
  | inl same ↦
      let key : j ≡ k = ground (arith, same, eq_iff j k) in
      let value : y ≡ x = cc (rw same at h) in rw (key, value) at_front
  | inr other ↦ further (λ e. ground (arith, other, eq_iff j k)) (At-sound k fs x (rw other at h))
]

At-complete : {k : String} {x : Value} {fs : Fields} → At k x fs → get_field k fs ≡ at_hand x
unfolding get_field
At-complete {k} at_front = ground (arith, eq_iff k k)
At-complete {k} (further {j} other h) = ground (arith, At-complete h, other, eq_iff j k)

Lacks-sound : (k : String) (fs : Fields) → get_field k fs ≡ not_there → Lacks k fs
unfolding get_field
Lacks-sound k no_fields h = tt
Lacks-sound k (field j y fs) h = elim (Bool-cases (str_eq j k)) [
  | inl same ↦ absurd cc
  | inr other ↦ (λ e. ground (arith, other, eq_iff j k), Lacks-sound k fs (rw other at h))
]

Lacks-complete : (k : String) (fs : Fields) → Lacks k fs → get_field k fs ≡ not_there
unfolding get_field
Lacks-complete k no_fields h = refl
Lacks-complete k (field j y fs) h = ground (arith, Lacks-complete k fs h.1, h.0, eq_iff j k)

IsNotAmong-sound : (k : String) (vs : Items) → is_item k vs ≡ false → IsNotAmong k vs
unfolding is_item
IsNotAmong-sound k no_items h = tt
IsNotAmong-sound k (item (str s) vs) h =
    (λ e. ground (arith, str_cc s e, eq_iff s k), IsNotAmong-sound k vs (ground arith))
  where
    str_cc : (s : String) → str s ≡ str k → s ≡ k
    str_cc s e = cc
IsNotAmong-sound k (item null vs) h = (λ e. absurd cc, IsNotAmong-sound k vs h)
IsNotAmong-sound k (item (bool b) vs) h = (λ e. absurd cc, IsNotAmong-sound k vs h)
IsNotAmong-sound k (item (int n) vs) h = (λ e. absurd cc, IsNotAmong-sound k vs h)
IsNotAmong-sound k (item (float t) vs) h = (λ e. absurd cc, IsNotAmong-sound k vs h)
IsNotAmong-sound k (item (arr us) vs) h = (λ e. absurd cc, IsNotAmong-sound k vs h)
IsNotAmong-sound k (item (obj fs) vs) h = (λ e. absurd cc, IsNotAmong-sound k vs h)

IsNotAmong-complete : (k : String) (vs : Items) → IsNotAmong k vs → is_item k vs ≡ false
unfolding is_item
IsNotAmong-complete k no_items h = refl
IsNotAmong-complete k (item (str s) vs) h = elim (Bool-cases (str_eq s k)) [
  | inl same ↦
      let text : s ≡ k = ground (arith, same, eq_iff s k) in absurd (h.0 (ap (λ t. str t) text))
  | inr other ↦ rw (other, IsNotAmong-complete k vs h.1) refl
]
IsNotAmong-complete k (item null vs) h = IsNotAmong-complete k vs h.1
IsNotAmong-complete k (item (bool b) vs) h = IsNotAmong-complete k vs h.1
IsNotAmong-complete k (item (int n) vs) h = IsNotAmong-complete k vs h.1
IsNotAmong-complete k (item (float t) vs) h = IsNotAmong-complete k vs h.1
IsNotAmong-complete k (item (arr us) vs) h = IsNotAmong-complete k vs h.1
IsNotAmong-complete k (item (obj fs) vs) h = IsNotAmong-complete k vs h.1

either_lookup : (b : Bool) (x : Value) → ¬ ((if b then no_dict else not_there) ≡ at_hand x)
either_lookup true x h = absurd cc
either_lookup false x h = absurd cc

not_found : (b : Bool) → (if b then no_dict else not_there) ≡ not_there → b ≡ false
not_found true h = absurd cc
not_found false h = refl

pub Holds-sound : (k : String) (v x : Value) → look_up k v ≡ at_hand x → Holds k x v
unfolding look_up
Holds-sound k (obj fs) x h = holds (At-sound k fs x h)
Holds-sound k (str s) x h = absurd (either_lookup (has_text s k) x h)
Holds-sound k (arr vs) x h = absurd (either_lookup (is_item k vs) x h)
Holds-sound k null x h = absurd cc
Holds-sound k (bool b) x h = absurd cc
Holds-sound k (int n) x h = absurd cc
Holds-sound k (float t) x h = absurd cc

pub Holds-complete : {k : String} {v x : Value} → Holds k x v → look_up k v ≡ at_hand x
unfolding look_up
Holds-complete (holds h) = At-complete h

pub Misses-sound : (k : String) (v : Value) → look_up k v ≡ not_there → Misses k v
unfolding look_up
Misses-sound k (obj fs) h = no_field (Lacks-sound k fs h)
Misses-sound k (str s) h = not_in_text (not_found (has_text s k) h)
Misses-sound k (arr vs) h = not_among (IsNotAmong-sound k vs (not_found (is_item k vs) h))
Misses-sound k null h = absurd cc
Misses-sound k (bool b) h = absurd cc
Misses-sound k (int n) h = absurd cc
Misses-sound k (float t) h = absurd cc

pub Misses-complete : {k : String} {v : Value} → Misses k v → look_up k v ≡ not_there
unfolding look_up
Misses-complete {k} (no_field {fs} h) = Lacks-complete k fs h
Misses-complete (not_in_text h) = rw h refl
Misses-complete {k} (not_among {vs} h) = rw (IsNotAmong-complete k vs h) refl
