-- ===== src/Usage/Devices.antt =====
-- The manager against an ideal store that forgets nothing: one unbounded history for each registered
-- device.
use orchestrator_agent.Prelude.{
  ℕ, ◌≡◌, refl, String, true, Option, none, some, List, [], ◌∷◌, ◌++◌, arith, eq_iff, str_eq,
  if◌then◌else◌, Bool-cases, inl, inr, Option-cases, select,
}
use orchestrator_agent.Prelude.Dict.{
  Dict, lookup, contains, lookup-insert, lookup-remove, contains-lookup, lookup-contains,
}
use orchestrator_agent.Prelude.Value.{ℤ}
use orchestrator_agent.Usage.{
  Sample, BaseUsageBuffer, DevicesUsageBuffer, empty_buffer, max_samples, sample, add_sample,
  within, get_samples, clear, init, add_device, remove_device, change, add_device_sample,
  get_device_samples, clear_device, clear_values, clear_all,
}
use orchestrator_agent.Usage.Retention.{last, append_bounded-last}

pub data Call (F : Type 0) : Type 0 where
  register : String → Call F
  unregister : String → Call F
  record_usage : ℕ → String → F → F → Call F
  forget : String → Call F
  forget_all : Call F

abbrev over : (BaseUsageBuffer → BaseUsageBuffer) → Option BaseUsageBuffer → Option BaseUsageBuffer
over f none = none
over f (some b) = some (f b)

lookup-change :
    (f : BaseUsageBuffer → BaseUsageBuffer) (j k : String) (d : DevicesUsageBuffer)
    → lookup k (change f j d).buffers
      ≡ (if str_eq j k then over f (lookup k d.buffers) else lookup k d.buffers)
lookup-change f j k d = elim (Option-cases (lookup j d.buffers)) [
  | inl missing ↦ rw (missing, change) (ground (arith, eq_iff j k))
  | inr (b, found) ↦
      rw (found, change) (ground (arith, eq_iff j k, lookup-insert j k (f b) d.buffers))
]

abbrev or_empty : Option BaseUsageBuffer → BaseUsageBuffer
or_empty none = empty_buffer
or_empty (some b) = b

contains-some :
    {V : Type 0} (k : String) (m : Dict V) → contains k m ≡ true → (v : V) × (lookup k m ≡ some v)
contains-some k m h = elim (Option-cases (lookup k m)) [
  | inl missing ↦ absurd (ground (arith, lookup-contains k m missing))
  | inr found ↦ found
]

lookup-add_device :
    (j k : String) (d : DevicesUsageBuffer)
    → lookup k (add_device j d).buffers
      ≡ (if str_eq j k then some (or_empty (lookup k d.buffers)) else lookup k d.buffers)
unfolding add_device
lookup-add_device j k d = elim (Bool-cases (contains j d.buffers)) [
  | inl old ↦ let (b, found) = contains-some j d.buffers old in rw old (ground (arith, eq_iff j k))
  | inr new ↦
      let missing = contains-lookup j d.buffers new in
      rw new (ground (arith, eq_iff j k, lookup-insert j k empty_buffer d.buffers))
]

lookup-remove_device :
    (j k : String) (d : DevicesUsageBuffer)
    → lookup k (remove_device j d).buffers ≡ (if str_eq j k then none else lookup k d.buffers)
unfolding remove_device
lookup-remove_device j k d = elim (Bool-cases (contains j d.buffers)) [
  | inl old ↦ rw old (lookup-remove j k d.buffers)
  | inr new ↦ let missing = contains-lookup j d.buffers new in rw new (ground (arith, eq_iff j k))
]

lookup-clear_values :
    (k : String) (m : Dict BaseUsageBuffer) → lookup k (clear_values m) ≡ over clear (lookup k m)
unfolding clear_values lookup
lookup-clear_values k [] = refl
lookup-clear_values k ((j, b) ∷ m) = ground (arith, lookup-clear_values k m)

module _ {F : Type 0} (truncate : F → ℤ) where
  pub perform : Call F → DevicesUsageBuffer → DevicesUsageBuffer
  perform (register k) d = add_device k d
  perform (unregister k) d = remove_device k d
  perform (record_usage now k cpu memory) d = add_device_sample truncate now k cpu memory d
  perform (forget k) d = clear_device k d
  perform forget_all d = clear_all d

  pub perform_all : List (Call F) → DevicesUsageBuffer → DevicesUsageBuffer
  perform_all [] d = d
  perform_all (c ∷ l) d = perform_all l (perform c d)

  -- The ideal history of one device, `none` while it is not registered.
  note : String → Call F → Option (List Sample) → Option (List Sample)
  note k (register j) none = if str_eq j k then some [] else none
  note k (register j) (some h) = some h
  note k (unregister j) o = if str_eq j k then none else o
  note k (record_usage now j cpu memory) none = none
  note k (record_usage now j cpu memory) (some h) =
      some (if str_eq j k then h ++ sample truncate now cpu memory ∷ [] else h)
  note k (forget j) none = none
  note k (forget j) (some h) = some (if str_eq j k then [] else h)
  note k forget_all none = none
  note k forget_all (some h) = some []

  pub history : String → List (Call F) → Option (List Sample) → Option (List Sample)
  history k [] o = o
  history k (c ∷ l) o = history k l (note k c o)

  -- The buffer that keeps the newest samples of a history.
  abbrev pub window : Option (List Sample) → Option BaseUsageBuffer
  window none = none
  window (some h) = some (record { buffer = last max_samples h })

  perform-note :
      (k : String) (c : Call F) (d : DevicesUsageBuffer) (o : Option (List Sample))
      → lookup k d.buffers ≡ window o
      → lookup k (perform c d).buffers ≡ window (note k c o)
  unfolding perform note
  perform-note k (register j) d none h =
      rw (lookup-add_device j k d, h) (ground (arith, eq_iff j k))
  perform-note k (register j) d (some l) h =
      rw (lookup-add_device j k d, h) (ground (arith, eq_iff j k))
  perform-note k (unregister j) d o h =
      rw (lookup-remove_device j k d, h) (ground (arith, eq_iff j k))
  perform-note k (record_usage now j cpu memory) d none h =
      unfold add_device_sample in
      rw (lookup-change (add_sample truncate now cpu memory) j k d, h) (ground (arith, eq_iff j k))
  perform-note k (record_usage now j cpu memory) d (some l) h =
      unfold add_device_sample in
      rw (lookup-change (add_sample truncate now cpu memory) j k d, h)
        (ground
          (arith, append_bounded-last max_samples l (sample truncate now cpu memory) (omega arith)))
  perform-note k (forget j) d none h =
      unfold clear_device in rw (lookup-change clear j k d, h) (ground (arith, eq_iff j k))
  perform-note k (forget j) d (some l) h =
      unfold clear_device in rw (lookup-change clear j k d, h) (ground (arith, eq_iff j k))
  perform-note k forget_all d none h = unfold clear_all in rw (lookup-clear_values k d.buffers, h)
  perform-note k forget_all d (some l) h =
      unfold clear_all in rw (lookup-clear_values k d.buffers, h)

  perform_all-history :
      (k : String) (l : List (Call F)) (d : DevicesUsageBuffer) (o : Option (List Sample))
      → lookup k d.buffers ≡ window o
      → lookup k (perform_all l d).buffers ≡ window (history k l o)
  unfolding perform_all history
  perform_all-history k [] d o h = h
  perform_all-history k (c ∷ l) d o h =
      perform_all-history k l (perform c d) (note k c o) (perform-note k c d o h)

  abbrev pub in_window : ℕ → Option ℕ → Option ℕ → Option (List Sample) → List Sample
  in_window now start_time end_time none = []
  in_window now start_time end_time (some h) =
      select (within now start_time end_time) (last max_samples h)

  -- After any calls for any devices, what `get_samples` returns for a device is: nothing, if the
  -- device is not registered; otherwise the samples in the window, in order, among the last 34,560
  -- that were added for this device since it was registered or cleared.
  pub get_device_samples-history :
      (l : List (Call F)) (k : String) (now : ℕ) (start_time end_time : Option ℕ)
      → get_device_samples now k start_time end_time (perform_all l init)
        ≡ in_window now start_time end_time (history k l none)
  unfolding get_device_samples get_samples
  get_device_samples-history l k now start_time end_time =
      let state = perform_all-history k l init none (unfold init lookup in refl) in
      elim (Option-cases (history k l none)) [
        | inl none_noted ↦ rw (state, none_noted, get_device_samples)
        | inr (h, noted) ↦ rw (state, noted, get_device_samples)
      ]
