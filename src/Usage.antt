-- ===== src/Usage.antt =====
-- src/tools/usage_buffer.py and src/tools/devices_usage_buffer.py. `int(x)` of a float is an
-- argument, `truncate`. Times are whole seconds since the epoch, and `now` is the clock read. The
-- window's ends are at least 0.
pub mod Retention
pub mod Devices
use orchestrator_agent.Prelude.{
  ℕ, ◌*◌, ◌/◌, ◌+◌, String, Bool, true, false, ◌&&◌, Option, none, some, List, [], ◌∷◌, ◌++◌, map,
  ltb, leb, if◌then◌else◌, length, drop, select,
}
use orchestrator_agent.Prelude.Dict.{Dict, lookup, insert, remove, contains, keys}
use orchestrator_agent.Prelude.Value.{ℤ}

pub record Sample : Type 0 where
  pub timestamp : ℕ
  pub cpu : ℤ
  pub memory : ℤ

abbrev pub max_samples : ℕ
max_samples = 48 * 3600 / 5

pub record BaseUsageBuffer : Type 0 where
  pub buffer : List Sample

abbrev pub empty_buffer : BaseUsageBuffer
empty_buffer = record { buffer = [] }

-- `deque(maxlen=limit).append(x)`: the oldest item makes room in a full deque.
unfoldable pub append_bounded {ℓ} : {A : Type ℓ} → ℕ → List A → A → List A
append_bounded limit l x = if ltb (length l) limit then l ++ x ∷ [] else drop 1 (l ++ x ∷ [])

module _ {F : Type 0} (truncate : F → ℤ) where
  abbrev pub sample : ℕ → F → F → Sample
  sample now cpu memory = record { timestamp = now; cpu = truncate cpu; memory = truncate memory }

  unfoldable pub add_sample : ℕ → F → F → BaseUsageBuffer → BaseUsageBuffer
  unfolding append_bounded
  add_sample now cpu memory b = record b {
    buffer = append_bounded max_samples b.buffer (sample now cpu memory);
  }

abbrev or_now : ℕ → Option ℕ → ℕ
or_now now none = now
or_now now (some t) = t

abbrev pub within : ℕ → Option ℕ → Option ℕ → Sample → Bool
within now none end_time s = leb s.timestamp (or_now now end_time)
within now (some start_time) end_time s =
    leb start_time s.timestamp && leb s.timestamp (or_now now end_time)

unfoldable pub get_samples : ℕ → Option ℕ → Option ℕ → BaseUsageBuffer → List Sample
get_samples now start_time end_time b = select (within now start_time end_time) b.buffer

abbrev cpu_of : Sample → ℕ × ℤ
cpu_of s = (s.timestamp, s.cpu)

abbrev memory_of : Sample → ℕ × ℤ
memory_of s = (s.timestamp, s.memory)

unfoldable get_cpu_usage : ℕ → Option ℕ → Option ℕ → BaseUsageBuffer → List (ℕ × ℤ)
unfolding get_samples
get_cpu_usage now start_time end_time b = map cpu_of (get_samples now start_time end_time b)

unfoldable get_memory_usage : ℕ → Option ℕ → Option ℕ → BaseUsageBuffer → List (ℕ × ℤ)
unfolding get_samples
get_memory_usage now start_time end_time b = map memory_of (get_samples now start_time end_time b)

unfoldable get_buffer_size : BaseUsageBuffer → ℕ
get_buffer_size b = length b.buffer

unfoldable pub clear : BaseUsageBuffer → BaseUsageBuffer
clear b = record b { buffer = [] }

-- The manager: one buffer for each registered device.
pub record DevicesUsageBuffer : Type 0 where
  pub buffers : Dict BaseUsageBuffer

unfoldable pub init : DevicesUsageBuffer
init = record { buffers = [] }

unfoldable pub add_device : String → DevicesUsageBuffer → DevicesUsageBuffer
add_device device_id d =
    if contains device_id d.buffers
    then d
    else record d { buffers = insert device_id empty_buffer d.buffers }

unfoldable pub remove_device : String → DevicesUsageBuffer → DevicesUsageBuffer
remove_device device_id d =
    if contains device_id d.buffers then record d { buffers = remove device_id d.buffers } else d

unfoldable pub has_device : String → DevicesUsageBuffer → Bool
has_device device_id d = contains device_id d.buffers

unfoldable get_device_ids : DevicesUsageBuffer → List String
get_device_ids d = keys d.buffers

-- A buffer is an object that the dict holds: changing it changes what the dict holds under the key.
abbrev pub change :
    (BaseUsageBuffer → BaseUsageBuffer) → String → DevicesUsageBuffer → DevicesUsageBuffer
change f device_id d = elim (lookup device_id d.buffers) [
  | none ↦ d
  | some b ↦ record d { buffers = insert device_id (f b) d.buffers }
]

unfoldable pub add_device_sample :
    {F : Type 0} → (F → ℤ) → ℕ → String → F → F → DevicesUsageBuffer → DevicesUsageBuffer
unfolding add_sample
add_device_sample truncate now device_id cpu memory =
    change (add_sample truncate now cpu memory) device_id

unfoldable pub get_device_samples :
    ℕ → String → Option ℕ → Option ℕ → DevicesUsageBuffer → List Sample
unfolding get_samples
get_device_samples now device_id start_time end_time d = elim (lookup device_id d.buffers) [
  | none ↦ []
  | some b ↦ get_samples now start_time end_time b
]

unfoldable get_device_cpu_usage :
    ℕ → String → Option ℕ → Option ℕ → DevicesUsageBuffer → List (ℕ × ℤ)
unfolding get_cpu_usage
get_device_cpu_usage now device_id start_time end_time d = elim (lookup device_id d.buffers) [
  | none ↦ []
  | some b ↦ get_cpu_usage now start_time end_time b
]

unfoldable get_device_memory_usage :
    ℕ → String → Option ℕ → Option ℕ → DevicesUsageBuffer → List (ℕ × ℤ)
unfolding get_memory_usage
get_device_memory_usage now device_id start_time end_time d = elim (lookup device_id d.buffers) [
  | none ↦ []
  | some b ↦ get_memory_usage now start_time end_time b
]

unfoldable get_device_buffer_size : String → DevicesUsageBuffer → ℕ
unfolding get_buffer_size
get_device_buffer_size device_id d = elim (lookup device_id d.buffers) [
  | none ↦ 0
  | some b ↦ get_buffer_size b
]

unfoldable pub clear_device : String → DevicesUsageBuffer → DevicesUsageBuffer
unfolding clear
clear_device = change clear

unfoldable pub clear_values : Dict BaseUsageBuffer → Dict BaseUsageBuffer
unfolding clear
clear_values [] = []
clear_values ((k, b) ∷ m) = (k, clear b) ∷ clear_values m

unfoldable pub clear_all : DevicesUsageBuffer → DevicesUsageBuffer
unfolding clear_values
clear_all d = record d { buffers = clear_values d.buffers }
