-- ===== src/SerialDevices/Keeps.antt =====
-- What a round of events keeps true of the file of serial ports: `on_device_change`,
-- `on_device_discovery` and the resync of src/use_cases/serial_device_manager.py.
use orchestrator_agent.Prelude.{
  String, false, Option, none, some, List, [], ◌∷◌, Bool-cases, inl, inr, str_eq, either_branch,
}
use orchestrator_agent.Prelude.Dict.{Dict}
use orchestrator_agent.SerialPorts.{
  File, Write, Ports, SerialPort, Attached, update_status, get_all_configured_ports,
}
use orchestrator_agent.SerialPorts.Status.{AllClear, delete, status, perform, perform-AllClear}
use orchestrator_agent.SerialDevices.{
  Device, SerialDeviceManager, World, ContainerState, is_running, not_running, not_found,
  lookup_raises, attached_to, detached_from, create_device_node, attach_each, detach_each,
  plugged_in, unplugged, handle_device_change, sync_to, Sync, sync_port, sync_ports, delete_each,
  cleaned, resync_serial_devices, handle_device_discovery, Matches, attached, detached,
  is_incomplete, cache_all, match_device_to_configs, removed_device,
}

update_status-AllClear :
    (write : Write) (c : String) (port : Option String) (s : String) (a : Attached)
    (file : File (Dict Ports))
    → AllClear file
    → AllClear (update_status write c port s a file)
unfolding perform
update_status-AllClear write c n s a file h = perform-AllClear write (status c n s a) file h

attach_each-AllClear :
    (w : World) (write : Write) (d : Device) (l : Matches) (file : File (Dict Ports))
    → AllClear file
    → AllClear (attach_each w write d l file).1
unfolding attach_each
attach_each-AllClear w write d [] file h = h
attach_each-AllClear w write d ((c, p) ∷ l) file h =
    elim (Bool-cases (create_device_node w c d.path p.container_path d)) [
      | inr failed ↦ rw failed (attach_each-AllClear w write d l file h)
      | inl made ↦ rw made (
          attach_each-AllClear w write d l _
            (update_status-AllClear write c p.name "connected" (attached d) file h))
    ]

detach_each-AllClear :
    (write : Write) (l : Matches) (file : File (Dict Ports))
    → AllClear file
    → AllClear (detach_each write l file).1
unfolding detach_each
detach_each-AllClear write [] file h = h
detach_each-AllClear write ((c, p) ∷ l) file h =
    detach_each-AllClear write l _
      (update_status-AllClear write c p.name "disconnected" detached file h)

sync_to-AllClear :
    (w : World) (write : Write) (c : String) (p : SerialPort) (found : Option Device)
    (file : File (Dict Ports))
    → AllClear file
    → AllClear (sync_to w write c p found file)
unfolding sync_to
sync_to-AllClear w write c p none file h =
    update_status-AllClear write c p.name "disconnected" detached file h
sync_to-AllClear w write c p (some d) file h =
    either_branch AllClear (create_device_node w c d.path p.container_path d) _ _
      (update_status-AllClear write c p.name "connected" (attached d) file h)
      (update_status-AllClear write c p.name "error" detached file h)

sync_port-AllClear :
    (w : World) (write : Write) (cache : Dict Device) (c : String) (p : SerialPort)
    (state : ContainerState) (s : Sync)
    → AllClear s.synced
    → AllClear (sync_port w write cache c p state s).synced
unfolding sync_port
sync_port-AllClear w write cache c p not_running s h = h
sync_port-AllClear w write cache c p not_found s h = h
sync_port-AllClear w write cache c p lookup_raises s h = h
sync_port-AllClear w write cache c p is_running s h = sync_to-AllClear w write c p _ s.synced h

sync_ports-AllClear :
    (w : World) (write : Write) (cache : Dict Device) (l : Matches) (s : Sync)
    → AllClear s.synced
    → AllClear (sync_ports w write cache l s).synced
unfolding sync_ports
sync_ports-AllClear w write cache [] s h = h
sync_ports-AllClear w write cache ((c, p) ∷ l) s h =
    let next = sync_port w write cache c p (w.status_of c) s in
    let next_clear = sync_port-AllClear w write cache c p (w.status_of c) s h in
    elim (Bool-cases (is_incomplete p)) [
      | inl skip ↦ rw skip (sync_ports-AllClear w write cache l s h)
      | inr whole ↦ rw whole (elim (Bool-cases next.is_aborted) [
        | inl out ↦ rw out next_clear
        | inr on ↦ rw on (sync_ports-AllClear w write cache l next next_clear)
      ])
    ]

delete_each-AllClear :
    (write : Write) (cs : List String) (file : File (Dict Ports))
    → AllClear file
    → AllClear (delete_each write cs file)
unfolding delete_each perform
delete_each-AllClear write [] file h = h
delete_each-AllClear write (c ∷ cs) file h =
    delete_each-AllClear write cs _ (perform-AllClear write (delete c) file h)

cleaned-AllClear : (write : Write) (s : Sync) → AllClear s.synced → AllClear (cleaned write s)
unfolding cleaned
cleaned-AllClear write s h =
    either_branch AllClear s.is_aborted s.synced (delete_each write s.stale s.synced) h
      (delete_each-AllClear write s.stale s.synced h)

resync-AllClear :
    (w : World) (write : Write) (m : SerialDeviceManager)
    → AllClear m.configs
    → AllClear (resync_serial_devices w write m).configs
unfolding resync_serial_devices
resync-AllClear w write m h =
    let start : Sync = record { is_aborted = false; stale = []; synced = m.configs } in
    let l = get_all_configured_ports m.configs in
    cleaned-AllClear write (sync_ports w write m.device_cache l start)
      (sync_ports-AllClear w write m.device_cache l start h)

-- What the manager is told.
pub data Event : Type 0 where
  change : Option String → Option Device → Event
  discovery : List Device → Event

unfoldable react : World → Write → Event → SerialDeviceManager → SerialDeviceManager
unfolding handle_device_change handle_device_discovery
react w write (change action d) m = (handle_device_change w write action d m).1
react w write (discovery ds) m = handle_device_discovery w write ds m

unfoldable pub react_all : List (World × Write × Event) → SerialDeviceManager → SerialDeviceManager
unfolding react
react_all [] m = m
react_all ((w, write, e) ∷ es) m = react_all es (react w write e m)

attached_to-AllClear :
    (w : World) (write : Write) (d : Device) (found : Option Matches) (cache : Dict Device)
    (file : File (Dict Ports))
    → AllClear file
    → AllClear (attached_to w write d found cache file).1.configs
attached_to-AllClear w write d none cache file h = h
attached_to-AllClear w write d (some l) cache file h = attach_each-AllClear w write d l file h

detached_from-AllClear :
    (write : Write) (found : Option Matches) (cache : Dict Device) (file : File (Dict Ports))
    → AllClear file
    → AllClear (detached_from write found cache file).1.configs
detached_from-AllClear write none cache file h = h
detached_from-AllClear write (some l) cache file h = detach_each-AllClear write l file h

change-AllClear :
    (w : World) (write : Write) (action : String) (d : Device) (m : SerialDeviceManager)
    → AllClear m.configs
    → AllClear (handle_device_change w write (some action) (some d) m).1.configs
unfolding handle_device_change plugged_in unplugged
change-AllClear w write action d m h = elim (Bool-cases (str_eq action "add")) [
  | inl add ↦ rw add (attached_to-AllClear w write d _ _ m.configs h)
  | inr other ↦ rw other (elim (Bool-cases (str_eq action "remove")) [
    | inl away ↦ rw away (
        detached_from-AllClear write
          (match_device_to_configs (removed_device d m.device_cache).0 m.configs) _ m.configs h)
    | inr none_of_these ↦ rw none_of_these h
  ])
]

react-AllClear :
    (w : World) (write : Write) (e : Event) (m : SerialDeviceManager)
    → AllClear m.configs
    → AllClear (react w write e m).configs
unfolding react handle_device_discovery
react-AllClear w write (change none d) m h = h
react-AllClear w write (change (some action) none) m h = h
react-AllClear w write (change (some action) (some d)) m h = change-AllClear w write action d m h
react-AllClear w write (discovery ds) m h =
    resync-AllClear w write (record m { device_cache = cache_all ds [] }) h

-- Through any sequence of device events and discoveries, where each has its own answers of Docker, the
-- same whenever they are asked for in it, and one outcome for all its writes: a port in the file that is "disconnected" has no host path and no device
-- numbers, if it was so at the start.
pub react_all-AllClear :
    (es : List (World × Write × Event)) (m : SerialDeviceManager)
    → AllClear m.configs
    → AllClear (react_all es m).configs
unfolding react_all
react_all-AllClear [] m h = h
react_all-AllClear ((w, write, e) ∷ es) m h = react_all-AllClear es _ (react-AllClear w write e m h)
