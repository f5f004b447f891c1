-- ===== src/SerialDevices.antt =====
-- src/use_cases/serial_device_manager.py: the serial devices of the host, and their nodes in the
-- containers. Docker is the functions of `World`; the callbacks that are told are given back as
-- notices. One outcome of writing stands for all writes of a call.
use orchestrator_agent.Prelude.{
  ℕ, String, Bool, true, false, not, ◌&&◌, Option, none, some, List, [], ◌∷◌, ◌++◌, if◌then◌else◌,
  str_eq, ◌==◌,
}
use orchestrator_agent.Prelude.Dict.{Dict, lookup, insert, remove, contains}
use orchestrator_agent.Prelude.Texts.{truthy, codes}
use orchestrator_agent.SerialPorts.{
  File, Write, Ports, SerialPort, read_json_file, Attached, update_status, delete_configs,
  get_by_device_id, get_all_configured_ports, matches_device_id, is_in,
}
pub mod Cache
pub mod Keeps

pub record Device : Type 0 where
  pub path : Option String
  pub by_id : Option String
  pub dev_major : Option ℕ
  pub dev_minor : Option ℕ

pub record SerialDeviceManager : Type 0 where
  pub device_cache : Dict Device
  pub configs : File (Dict Ports)

-- What Docker says of a container: running, there but not running, not there, or an exception.
pub data ContainerState : Type 0 where
  is_running not_running not_found lookup_raises : ContainerState

-- `stat` is the device numbers of a host path; `mknod` whether the node could be made.
pub record World : Type 0 where
  pub status_of : String → ContainerState
  pub stat : Option String → Option (ℕ × ℕ)
  pub mknod : String → Option String → ℕ → ℕ → Bool

pub record Notice : Type 0 where
  pub told_container : String
  pub told_port : Option String
  pub told_status : String

unfoldable pub numbers : World → Option String → Option ℕ → Option ℕ → Option (ℕ × ℕ)
numbers w host (some major) (some minor) = some (major, minor)
numbers w host (some major) none = w.stat host
numbers w host none minor = w.stat host

unfoldable make_node : World → String → Option String → Option (ℕ × ℕ) → ContainerState → Bool
make_node w container target none state = false
make_node w container target (some (major, minor)) is_running = w.mknod container target major minor
make_node w container target (some _) not_running = false
make_node w container target (some _) not_found = false
make_node w container target (some _) lookup_raises = false

-- `_create_device_node`: the removal of an old node and the `chmod` are tried, and change nothing of
-- the answer.
unfoldable pub create_device_node : World → String → Option String → Option String → Device → Bool
unfolding make_node numbers
create_device_node w container host target d =
    make_node w container target (numbers w host d.dev_major d.dev_minor) (w.status_of container)

abbrev pub attached : Device → Attached
attached d = record {
  new_host_path = some d.path;
  new_major = some d.dev_major;
  new_minor = some d.dev_minor;
}

abbrev pub detached : Attached
detached = record { new_host_path = none; new_major = none; new_minor = none }

unfoldable basename_from : List ℕ → List ℕ → List ℕ
basename_from kept [] = kept
basename_from kept (c ∷ s) = if c == b'/' then basename_from s s else basename_from kept s

-- `os.path.basename`
unfoldable basename : List ℕ → List ℕ
unfolding basename_from
basename s = basename_from s s

abbrev id_or_empty : Option (List ℕ) → List ℕ
id_or_empty none = []
id_or_empty (some s) = s

abbrev pub Matches : Type 0
Matches = List (String × SerialPort)

-- `device_basename in config_device_id` for an entry, in front of the matches of the others.
abbrev with_match : List ℕ → String → SerialPort → Option (List ℕ) → Option Matches → Option Matches
with_match base container p none rest = none
with_match base container p (some id) none = none
with_match base container p (some id) (some l) =
    some (if is_in base id then (container, p) ∷ l else l)

-- The search by the path's last part, for a device without a stable id; `none` is the TypeError that a
-- device id that is None raises.
unfoldable by_basename : List ℕ → Matches → Option Matches
by_basename base [] = some []
by_basename base ((container, p) ∷ l) = with_match base container p p.device_id (by_basename base l)

unfoldable pub match_device_to_configs : Device → File (Dict Ports) → Option Matches
unfolding by_basename basename get_by_device_id get_all_configured_ports
match_device_to_configs d file =
    if truthy d.by_id
    then elim d.by_id [ none ↦ some [] | some id ↦ some (get_by_device_id (codes id) file) ]
    else elim d.path [
      | none ↦ some []
      | some path ↦
          if str_eq path ""
          then some []
          else by_basename (basename (codes path)) (get_all_configured_ports file)
    ]

abbrev notice : String → SerialPort → String → Notice
notice container p status = record {
  told_container = container;
  told_port = p.name;
  told_status = status;
}

-- The loop over the matches of a device that was plugged in.
unfoldable pub attach_each :
    World → Write → Device → Matches → File (Dict Ports) → List Notice × File (Dict Ports)
unfolding create_device_node update_status
attach_each w write d [] file = ([], file)
attach_each w write d ((container, p) ∷ l) file =
    let rest_attached =
      attach_each w write d l
        (update_status write container p.name "connected" (attached d) file) in
    let rest = attach_each w write d l file in
    if create_device_node w container d.path p.container_path d
    then (notice container p "connected" ∷ rest_attached.0, rest_attached.1)
    else rest

-- The loop over the matches of a device that was unplugged.
unfoldable pub detach_each : Write → Matches → File (Dict Ports) → List Notice × File (Dict Ports)
unfolding update_status
detach_each write [] file = ([], file)
detach_each write ((container, p) ∷ l) file =
    let rest =
      detach_each write l (update_status write container p.name "disconnected" detached file) in
    (notice container p "disconnected" ∷ rest.0, rest.1)

abbrev same_path : Option String → Option String → Bool
same_path none none = true
same_path none (some t) = false
same_path (some s) none = false
same_path (some s) (some t) = str_eq s t

-- The first cached device at a path, with its id.
unfoldable cached_at : Option String → Dict Device → Option (String × Device)
cached_at path [] = none
cached_at path ((id, d) ∷ m) =
    let rest = cached_at path m in if same_path d.path path then some (id, d) else rest

unfoldable pub forget_id : String → Dict Device → Dict Device
forget_id id cache = if contains id cache then remove id cache else cache

-- Which device a removal is about, and the cache without it.
unfoldable taken_out : Device → Option (String × Device) → Dict Device → Device × Dict Device
unfolding forget_id
taken_out d none cache = (d, cache)
taken_out d (some (id, known)) cache = (known, forget_id id cache)

unfoldable pub removed_device : Device → Dict Device → Device × Dict Device
unfolding taken_out cached_at forget_id
removed_device d cache =
    if truthy d.by_id
    then elim d.by_id [ none ↦ (d, cache) | some id ↦ (d, forget_id id cache) ]
    else taken_out d (cached_at d.path cache) cache

unfoldable cache_device : Device → Dict Device → Dict Device
cache_device d cache =
    if truthy d.by_id then elim d.by_id [ none ↦ cache | some id ↦ insert id d cache ] else cache

-- What an event ends with: the notices, or the TypeError.
abbrev pub Handled : Type 0
Handled = Option (List Notice) × SerialDeviceManager

abbrev pub attached_to :
    World → Write → Device → Option Matches → Dict Device → File (Dict Ports) → Handled
attached_to w write d none cache file = (none, record { device_cache = cache; configs = file })
attached_to w write d (some l) cache file =
    let done = attach_each w write d l file in
    (some done.0, record { device_cache = cache; configs = done.1 })

abbrev pub detached_from : Write → Option Matches → Dict Device → File (Dict Ports) → Handled
detached_from write none cache file = (none, record { device_cache = cache; configs = file })
detached_from write (some l) cache file =
    let done = detach_each write l file in
    (some done.0, record { device_cache = cache; configs = done.1 })

unfoldable pub plugged_in : World → Write → Device → SerialDeviceManager → Handled
unfolding cache_device attach_each match_device_to_configs
plugged_in w write d m =
    attached_to w write d (match_device_to_configs d m.configs) (cache_device d m.device_cache)
      m.configs

unfoldable pub unplugged : Write → Device → SerialDeviceManager → Handled
unfolding removed_device detach_each match_device_to_configs
unplugged write d m =
    let out = removed_device d m.device_cache in
    detached_from write (match_device_to_configs out.0 m.configs) out.1 m.configs

-- An event of netmon; an action or a device that is missing or empty is `none`.
unfoldable pub handle_device_change :
    World → Write → Option String → Option Device → SerialDeviceManager → Handled
unfolding plugged_in unplugged
handle_device_change w write none d m = (some [], m)
handle_device_change w write (some action) none m = (some [], m)
handle_device_change w write (some action) (some d) m =
    if str_eq action "add"
    then plugged_in w write d m
    else if str_eq action "remove"
    then unplugged write d m
    else (some [], m)

unfoldable first_match : List ℕ → Dict Device → Option Device
unfolding matches_device_id
first_match id [] = none
first_match id ((by_id, d) ∷ m) =
    let rest = first_match id m in
    if matches_device_id (some id) (codes by_id) then some d else rest

unfoldable pub sync_to :
    World → Write → String → SerialPort → Option Device → File (Dict Ports) → File (Dict Ports)
unfolding create_device_node update_status
sync_to w write container p none file =
    update_status write container p.name "disconnected" detached file
sync_to w write container p (some d) file =
    if create_device_node w container d.path p.container_path d
    then update_status write container p.name "connected" (attached d) file
    else update_status write container p.name "error" detached file

-- `not device_id or not container_path`
abbrev is_incomplete : SerialPort → Bool
is_incomplete p = elim p.device_id [
  | none ↦ true
  | some [] ↦ true
  | some (_ ∷ _) ↦ not (truthy p.container_path)
]

-- The state of the resync's loop: the containers that are gone, and the file; or it was left by an
-- exception.
pub record Sync : Type 0 where
  pub is_aborted : Bool
  pub stale : List String
  pub synced : File (Dict Ports)

unfoldable pub sync_port :
    World → Write → Dict Device → String → SerialPort → ContainerState → Sync → Sync
unfolding sync_to first_match
sync_port w write cache container p not_running s = s
sync_port w write cache container p not_found s = record s { stale = container ∷ s.stale }
sync_port w write cache container p lookup_raises s = record s { is_aborted = true }
sync_port w write cache container p is_running s = record s {
  synced = sync_to w write container p (first_match (id_or_empty p.device_id) cache) s.synced;
}

unfoldable pub sync_ports : World → Write → Dict Device → Matches → Sync → Sync
unfolding sync_port
sync_ports w write cache [] s = s
sync_ports w write cache ((container, p) ∷ l) s =
    let next = sync_port w write cache container p (w.status_of container) s in
    let skipped = sync_ports w write cache l s in
    let rest = sync_ports w write cache l next in
    if is_incomplete p then skipped else if next.is_aborted then next else rest

unfoldable pub delete_each : Write → List String → File (Dict Ports) → File (Dict Ports)
unfolding delete_configs
delete_each write [] file = file
delete_each write (c ∷ cs) file = delete_each write cs (delete_configs write c file)

unfoldable pub cleaned : Write → Sync → File (Dict Ports)
unfolding delete_each
cleaned write s = if s.is_aborted then s.synced else delete_each write s.stale s.synced

unfoldable pub resync_serial_devices : World → Write → SerialDeviceManager → SerialDeviceManager
unfolding sync_ports cleaned get_all_configured_ports
resync_serial_devices w write m = record m {
  configs = cleaned write (
      sync_ports w write m.device_cache (get_all_configured_ports m.configs)
        (record { is_aborted = false; stale = []; synced = m.configs }));
}

unfoldable pub cache_all : List Device → Dict Device → Dict Device
unfolding cache_device
cache_all [] cache = cache
cache_all (d ∷ ds) cache = cache_all ds (cache_device d cache)

unfoldable pub handle_device_discovery :
    World → Write → List Device → SerialDeviceManager → SerialDeviceManager
unfolding cache_all resync_serial_devices
handle_device_discovery w write ds m =
    resync_serial_devices w write (record m { device_cache = cache_all ds [] })

unfoldable get_device_by_id : List ℕ → SerialDeviceManager → Option Device
unfolding first_match
get_device_by_id id m = first_match id m.device_cache
