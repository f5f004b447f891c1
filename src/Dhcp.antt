-- ===== src/Dhcp.antt =====
-- src/use_cases/dhcp_manager.py: DHCP requests for the virtual NICs, and their retries. Times are in
-- microseconds. Docker and netmon are the functions of `World`. The float arithmetic of the delays
-- is exact here, rounded down to a microsecond; `random.random()` is `draw / 2 ^ 53`.
use orchestrator_agent.Prelude.{
  ℕ, ◌+◌, ◌*◌, ◌/◌, ◌^◌, min, String, Bool, true, false, not, ◌&&◌, ◌||◌, Option, none, some, List,
  [], ◌∷◌, if◌then◌else◌, str_eq, ltb, leb, ◌==◌, any,
}
use orchestrator_agent.Prelude.Dict.{Dict, lookup, insert, remove, contains}
use orchestrator_agent.Prelude.Texts.{truthy, shown, append, starts_with, before, same_lower}
use orchestrator_agent.SerialPorts.{File, Write, read_json_file}
use orchestrator_agent.Stores.{save_vnics, load_all_vnics, vnics_or_none}
use orchestrator_agent.Vnics.{VnicConfig, ProxyArp, mode_of, vnic_key, same_name}
pub mod Backoff
pub mod Rounds
pub mod Loops
pub mod Resync
pub mod Updates

abbrev pub retry_backoff_base : ℕ
retry_backoff_base = 1000000

abbrev pub retry_backoff_max : ℕ
retry_backoff_max = 300000000

-- An entry of `pending_dhcp_resyncs`.
pub record Pending : Type 0 where
  pub container_name : String
  pub vnic_name : Option String
  pub parent_interface : Option String
  pub is_proxy_arp : Bool
  pub next_retry_at : ℕ
  pub retry_count : ℕ

pub record DhcpManager : Type 0 where
  pub running : Bool
  pub pending_dhcp_resyncs : Dict Pending

-- A container as Docker reports it: whether it runs, its process, and the networks with the MAC
-- address that each reports.
pub record Container : Type 0 where
  pub is_running : Bool
  pub pid : ℕ
  pub networks : List (String × Option String)

pub data Found : Type 0 where
  found : Container → Found
  not_found lookup_raises : Found

-- A request to netmon: whether its answer says success, or an exception.
pub data Request : Type 0 where
  answered : Bool → Request
  request_raises : Request

-- Reconnecting a container with a fixed MAC address: an exception, or the addresses that the polls
-- report until the time is up, the one reported then, and the process after that.
pub data Reconnect : Type 0 where
  reconnect_raises : Reconnect
  reconnected : List (Option String) → Option String → ℕ → Reconnect

pub record World : Type 0 where
  pub get_container : String → Found
  pub start_dhcp : String → Option String → String → ℕ → Request
  pub request_wifi_dhcp : String → Option String → Option String → ℕ → Request
  pub reconnect : String → String → Option String → Reconnect

-- The first network of a parent interface by its name's prefix.
unfoldable pub macvlan_of :
    Option String → List (String × Option String) → Option (String × Option String)
macvlan_of parent [] = none
macvlan_of parent ((net, mac) ∷ nets) =
    let rest = macvlan_of parent nets in
    if starts_with net (append "macvlan_" (shown parent)) then some (net, mac) else rest

-- The delay before a retry: `none` is the OverflowError of `1.0 * 2 ** n` for n from 1024.
unfoldable pub backoff : ℕ → Option ℕ
backoff n = if ltb n 1024 then some (min (retry_backoff_base * 2 ^ n) retry_backoff_max) else none

abbrev at_least_base : ℕ → ℕ
at_least_base d = if ltb d retry_backoff_base then retry_backoff_base else d

-- `delay + delay * 0.3 * (2 * random.random() - 1)`, at least the base.
unfoldable pub jittered : ℕ → ℕ → ℕ
jittered draw delay = at_least_base (delay * (7 * 2 ^ 53 + 6 * draw) / (10 * 2 ^ 53))

abbrev scheduled : ℕ → ℕ → Pending → Option ℕ → Option Pending
scheduled now draw p none = none
scheduled now draw p (some delay) =
    some (record p { retry_count = p.retry_count + 1; next_retry_at = now + jittered draw delay })

-- `_schedule_next_retry`; `none` is the exception that it raises.
unfoldable pub schedule_next_retry : ℕ → ℕ → Pending → Option Pending
unfolding backoff jittered
schedule_next_retry now draw p = scheduled now draw p (backoff (p.retry_count + 1))

-- What an attempt comes to: the entry is done with, or is to be tried again.
pub data Verdict : Type 0 where
  drop retry : Verdict

unfoldable pub of_request : Request → Verdict
of_request (answered true) = drop
of_request (answered false) = retry
of_request request_raises = retry

-- The first configuration of a name.
unfoldable pub vnic_named : Option String → List VnicConfig → Option VnicConfig
vnic_named n [] = none
vnic_named n (v ∷ vs) = let rest = vnic_named n vs in if same_name v.name n then some v else rest

-- `persisted_mac if persisted_mac else actual_mac`
abbrev chosen_mac : Option String → String → String
chosen_mac persisted actual = elim persisted [
  | none ↦ actual
  | some mac ↦ if str_eq mac "" then actual else mac
]

unfoldable pub attempt_macvlan :
    World → Pending → VnicConfig → ℕ → Option (String × Option String) → Verdict
unfolding of_request
attempt_macvlan w p v pid none = retry
attempt_macvlan w p v pid (some (net, none)) = retry
attempt_macvlan w p v pid (some (net, some mac)) =
    if str_eq mac ""
    then retry
    else of_request (w.start_dhcp p.container_name p.vnic_name (chosen_mac v.mac_address mac) pid)

unfoldable pub attempt_vnic : World → Pending → Container → Option VnicConfig → Verdict
unfolding attempt_macvlan of_request macvlan_of
attempt_vnic w p c none = drop
attempt_vnic w p c (some v) =
    if not (str_eq (mode_of v) "dhcp")
    then drop
    else if c.pid == 0
    then retry
    else if p.is_proxy_arp
    then of_request (w.request_wifi_dhcp p.container_name p.vnic_name p.parent_interface c.pid)
    else attempt_macvlan w p v c.pid (macvlan_of p.parent_interface c.networks)

unfoldable pub attempt_on : World → Dict (List VnicConfig) → Pending → Found → Verdict
unfolding attempt_vnic vnic_named
attempt_on w vnics p not_found = drop
attempt_on w vnics p lookup_raises = retry
attempt_on w vnics p (found c) =
    if c.is_running
    then attempt_vnic w p c (vnic_named p.vnic_name (vnics_or_none (lookup p.container_name vnics)))
    else drop

-- One attempt of the retry loop, from the lookup of the container on.
unfoldable pub attempt : World → Dict (List VnicConfig) → Pending → Verdict
unfolding attempt_on
attempt w vnics p = attempt_on w vnics p (w.get_container p.container_name)

-- The entry with the earliest time, the first of them on a tie.
unfoldable pub earliest_of : Option (String × Pending) → Dict Pending → Option (String × Pending)
earliest_of best [] = best
earliest_of none ((k, p) ∷ m) = earliest_of (some (k, p)) m
earliest_of (some (j, q)) ((k, p) ∷ m) =
    let sooner = earliest_of (some (k, p)) m in
    let same = earliest_of (some (j, q)) m in
    if ltb p.next_retry_at q.next_retry_at then sooner else same

-- What a round reads: Docker and netmon, the stored configurations, the clock after the attempt, and
-- the random number.
pub record Round : Type 0 where
  pub world : World
  pub vnics : Dict (List VnicConfig)
  pub clock : ℕ
  pub draw : ℕ

-- How a round leaves the loop: it goes on, or an exception has ended it.
pub data Loop : Type 0 where
  goes_on broken : Loop

unfoldable pub rescheduled : String → Option Pending → DhcpManager → Loop × DhcpManager
rescheduled k none m = (broken, m)
rescheduled k (some p) m =
    (goes_on, record m { pending_dhcp_resyncs = insert k p m.pending_dhcp_resyncs })

unfoldable pub settle : Round → String → Pending → Verdict → DhcpManager → Loop × DhcpManager
unfolding rescheduled schedule_next_retry
settle r k p drop m = (goes_on, record m { pending_dhcp_resyncs = remove k m.pending_dhcp_resyncs })
settle r k p retry m = rescheduled k (schedule_next_retry r.clock r.draw p) m

unfoldable pub round_for : Round → Option (String × Pending) → DhcpManager → Loop × DhcpManager
unfolding settle attempt
round_for r none m = (goes_on, m)
round_for r (some (k, p)) m = settle r k p (attempt r.world r.vnics p) m

-- One round of the loop's body.
unfoldable pub retry_round : Round → DhcpManager → Loop × DhcpManager
unfolding round_for earliest_of
retry_round r m = round_for r (earliest_of none m.pending_dhcp_resyncs) m

abbrev pub is_empty : Dict Pending → Bool
is_empty [] = true
is_empty (_ ∷ _) = false

-- How the loop stands after the rounds that it is given: ended, by its test or by an exception, or
-- still going.
pub data Ended : Type 0 where
  completed failed unfinished : Ended

unfoldable pub retry_loop : List Round → DhcpManager → Ended × DhcpManager
unfolding retry_round
retry_loop [] m =
    if m.running && not (is_empty m.pending_dhcp_resyncs) then (unfinished, m) else (completed, m)
retry_loop (r ∷ rs) m =
    let next = retry_round r m in
    let rest = retry_loop rs next.1 in
    if m.running && not (is_empty m.pending_dhcp_resyncs)
    then elim next.0 [ goes_on ↦ rest | broken ↦ (failed, next.1) ]
    else (completed, m)
