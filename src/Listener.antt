-- ===== src/Listener.antt =====
-- src/tools/network_event_listener.py: where an event of netmon goes, and the debounce of network
-- changes. Times are those of the event loop's clock, in microseconds.
pub mod Debounce
pub mod Loop
use orchestrator_agent.Prelude.{
  ℕ, ◌-◌, ◌*◌, String, Bool, true, false, Option, none, some, List, [], ◌∷◌, ◌++◌, if◌then◌else◌,
  str_eq, ltb,
}
use orchestrator_agent.Prelude.Dict.{Dict, lookup, insert, remove}
use orchestrator_agent.Networks.{Interface, set_interface}

abbrev pub debounce_seconds : ℕ
debounce_seconds = 3 * 1000000

-- The data of a change: the subnets are those of its addresses.
pub record Change : Type 0 where
  pub interface : Option String
  pub subnets : List (Option String)
  pub gateway : Option String
  pub change_type : Option String

-- `reconnected` are the calls of `reconnect_containers`, the first one first.
pub record Listener : Type 0 where
  pub interface_cache : Dict Interface
  pub pending_changes : Dict Change
  pub last_event_time : Dict ℕ
  pub reconnected : List (String × Change)

-- Where `_handle_event` sends an event by its type.
pub data Route : Type 0 where
  response discovery dhcp_update network_change device_discovery device_change ignored : Route

unfoldable route : Option String → Route
route none = response
route (some t) =
    if str_eq t "network_discovery"
    then discovery
    else if str_eq t "dhcp_update"
    then dhcp_update
    else if str_eq t "network_change"
    then network_change
    else if str_eq t "device_discovery"
    then device_discovery
    else if str_eq t "device_change"
    then device_change
    else ignored

abbrev first_subnet : List (Option String) → Option String
first_subnet [] = none
first_subnet (s ∷ _) = s

abbrev or_else : Option String → Option String → Option String
or_else (some t) next = some t
or_else none next = next

abbrev kind_in : Option Interface → Option String
kind_in none = some "ethernet"
kind_in (some i) = or_else i.interface_kind (some "ethernet")

abbrev entry : Change → Option String → Interface
entry d kind = record {
  interface_kind = or_else d.change_type kind;
  interface_subnet = first_subnet d.subnets;
  interface_gateway = d.gateway;
}

abbrev cached : String → Change → Option String → Listener → Listener
cached name d kind l = record l {
  interface_cache = set_interface name (entry d kind) l.interface_cache;
}

-- One interface of a "network_discovery" event.
abbrev discovered : Option String → Change → Listener → Listener
discovered none d l = l
discovered (some name) d l = if str_eq name "" then l else cached name d (some "ethernet") l

unfoldable network_discovery : List Change → Listener → Listener
unfolding set_interface
network_discovery [] l = l
network_discovery (d ∷ ds) l = network_discovery ds (discovered d.interface d l)

unfoldable pub noted : ℕ → String → Change → Listener → Listener
unfolding set_interface
noted now name d l =
    let kept = cached name d (kind_in (lookup name l.interface_cache)) l in
    record kept {
      pending_changes = insert name d kept.pending_changes;
      last_event_time = insert name now kept.last_event_time;
    }

abbrev noted_named : ℕ → Option String → Change → Listener → Listener
noted_named now none d l = l
noted_named now (some name) d l = if str_eq name "" then l else noted now name d l

-- A "network_change" event. The task that it starts runs `_process_pending_changes` later.
unfoldable pub network_changed : ℕ → Change → Listener → Listener
unfolding noted
network_changed now d l = noted_named now d.interface d l

abbrev pub is_early : ℕ → Option ℕ → Bool
is_early now none = false
is_early now (some last) = ltb (now - last) debounce_seconds

abbrev pub popped : String → Option Change → Listener → Listener
popped name none l = l
popped name (some d) l = record l {
  pending_changes = remove name l.pending_changes;
  reconnected = l.reconnected ++ (name, d) ∷ [];
}

-- `_process_pending_changes` after its sleep. What `reconnect_containers` then does or raises changes
-- nothing here.
unfoldable pub process_pending_changes : ℕ → String → Listener → Listener
process_pending_changes now name l =
    if is_early now (lookup name l.last_event_time)
    then l
    else popped name (lookup name l.pending_changes) l

pub data Event : Type 0 where
  change : ℕ → String → Change → Event
  wake : ℕ → String → Event

-- A change of an interface with a name, or the end of the sleep of the task for one.
unfoldable pub step : Event → Listener → Listener
unfolding noted process_pending_changes
step (change now name d) l = noted now name d l
step (wake now name) l = process_pending_changes now name l

unfoldable pub run : List Event → Listener → Listener
unfolding step
run [] l = l
run (ev ∷ evs) l = run evs (step ev l)
