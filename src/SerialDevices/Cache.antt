-- ===== src/SerialDevices/Cache.antt =====
-- The cache of devices in src/use_cases/serial_device_manager.py after a device is gone.
use orchestrator_agent.Prelude.{
  ◌≡◌, refl, ap, ◌∙◌, Option, String, false, none, some, Bool-cases, inl, inr, if◌then◌else◌,
  str_eq, eq_iff, arith,
}
use orchestrator_agent.Prelude.Dict.{Dict, lookup, contains, contains-lookup, lookup-remove}
use orchestrator_agent.SerialPorts.{Write, Ports, File}
use orchestrator_agent.SerialDevices.{
  Device, SerialDeviceManager, forget_id, removed_device, unplugged, detached_from, Matches,
}

lookup-forget_id :
    (id other : String) (cache : Dict Device)
    → lookup other (forget_id id cache) ≡ (if str_eq id other then none else lookup other cache)
unfolding forget_id
lookup-forget_id id other cache = elim (Bool-cases (contains id cache)) [
  | inl there ↦ rw there (lookup-remove id other cache)
  | inr absent ↦ rw absent (ground (arith, contains-lookup id cache absent, eq_iff id other))
]

detached_from-cache :
    (write : Write) (found : Option Matches) (cache : Dict Device) (file : File (Dict Ports))
    → (detached_from write found cache file).1.device_cache ≡ cache
detached_from-cache write none cache file = refl
detached_from-cache write (some l) cache file = refl

-- After the removal of a device with a stable id, whatever becomes of the write, the cache has no
-- device of that id, and any other id has the device that it had.
unplugged-lookup :
    (write : Write) (d : Device) (id other : String) (m : SerialDeviceManager)
    → d.by_id ≡ some id
    → str_eq id "" ≡ false
    → lookup other (unplugged write d m).1.device_cache
      ≡ (if str_eq id other then none else lookup other m.device_cache)
unfolding unplugged removed_device
unplugged-lookup write d id other m e h =
    let kept = detached_from-cache write _ (removed_device d m.device_cache).1 m.configs in
    ap (lookup other) kept ∙ rw (e, h) (lookup-forget_id id other m.device_cache)
