-- ===== src/Tests/UsageRuns.antt =====
-- src/tools/usage_buffer.py and src/tools/devices_usage_buffer.py on small inputs.
use orchestrator_agent.Prelude.{ℕ, ◌≡◌, none, some, List, [], ◌∷◌}
use orchestrator_agent.Prelude.Value.{pos}
use orchestrator_agent.Usage.{Sample, get_device_samples, init}
use orchestrator_agent.Usage.Devices.{
  Call, register, record_usage, perform_all, history, in_window, get_device_samples-history,
}

abbrev readings : List (ℕ × ℕ × ℕ)
readings = (10, 3, 400) ∷ (15, 4, 410) ∷ []

abbrev oldest : Sample
oldest = record { timestamp = 10; cpu = pos 3; memory = pos 400 }

abbrev newest : Sample
newest = record { timestamp = 15; cpu = pos 4; memory = pos 410 }

abbrev calls : List (Call ℕ)
calls = register "plc" ∷ record_usage 10 "plc" 3 400 ∷ record_usage 11 "other" 9 9 ∷ []

get_device_samples-history_example :
    get_device_samples 12 "plc" (some 10) none (perform_all pos calls init)
    ≡ in_window pos 12 (some 10) none (history pos "plc" calls none)
get_device_samples-history_example = get_device_samples-history pos calls "plc" 12 (some 10) none
