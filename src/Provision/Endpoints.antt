-- ===== src/Provision/Endpoints.antt =====
-- MAC addresses, networks and endpoints of src/use_cases/docker_manager/create_runtime_container.py.
-- A vNIC is paired with the MACVLAN network that it was given; one on Wi-Fi has none. The source
-- holds the same dict in both of its lists, so a change of one is a change of the other.
use Prim.Native.Nat.{bit_or}
use orchestrator_agent.Prelude.{
  ℕ, ◌+◌, ◌*◌, ◌/◌, ◌%◌, String, Bool, true, false, not, ◌&&◌, Option, none, some, List, [], ◌∷◌,
  ◌++◌, if◌then◌else◌, str_eq, ltb, ◌==◌,
}
use orchestrator_agent.Prelude.Dict.{Dict, lookup}
use orchestrator_agent.Prelude.Texts.{truthy, append, before, codes}
use orchestrator_agent.Networks.{split_on, get_interface_type}
use orchestrator_agent.Vnics.{VnicConfig, mode_of}
use orchestrator_agent.Provision.{
  World, Try, done, raised, Endpoint, NetInfo, connected, api_error, connect_raises, DockerCall,
  create_call, remove_call, start_call,
}

unfoldable hex_char : ℕ → String
hex_char d =
    if d == 0
    then "0"
    else if d == 1
    then "1"
    else if d == 2
    then "2"
    else if d == 3
    then "3"
    else if d == 4
    then "4"
    else if d == 5
    then "5"
    else if d == 6
    then "6"
    else if d == 7
    then "7"
    else if d == 8
    then "8"
    else if d == 9
    then "9"
    else if d == 10
    then "a"
    else if d == 11
    then "b"
    else if d == 12
    then "c"
    else if d == 13
    then "d"
    else if d == 14
    then "e"
    else "f"

-- `0x02 | (random.randint(0, 63) << 2)`
unfoldable first_octet : ℕ → ℕ
first_octet r = bit_or 0x02 (r * 4)

-- `":".join(f"{octet:02x}" for octet in octets)`
unfoldable mac_text : List ℕ → String
unfolding hex_char
mac_text [] = ""
mac_text (a ∷ []) = append (hex_char (a / 16)) (hex_char (a % 16))
mac_text (a ∷ b ∷ l) =
    append (hex_char (a / 16)) (append (hex_char (a % 16)) (append ":" (mac_text (b ∷ l))))

-- `_generate_mac_address` from its random numbers: one below 64 and five bytes.
unfoldable generate_mac_address : List ℕ → String
unfolding first_octet mac_text
generate_mac_address [] = ""
generate_mac_address (r ∷ l) = mac_text (first_octet r ∷ l)

-- A vNIC with the name of its MACVLAN network.
abbrev pub Assigned : Type 0
Assigned = Option String × VnicConfig

abbrev typed : String → Bool → String → VnicConfig → VnicConfig
typed kind wifi method v = record v {
  interface_type = some kind;
  is_wifi = some wifi;
  network_method = some method;
}

abbrev assigned_to : VnicConfig → Try String → Try Assigned
assigned_to v (raised e) = raised e
assigned_to v (done net) = done (some net, v)

-- The loop's body of `_create_networks`.
unfoldable assign : World → VnicConfig → Try Assigned
assign w v =
    let kind = get_interface_type v.parent_interface w.interfaces in
    if str_eq kind "wifi"
    then done (none, typed kind true "proxy_arp" v)
    else assigned_to (typed kind false "macvlan" v)
        (w.macvlan_network v.parent_interface v.subnet v.gateway)

unfoldable pub assign_all : World → List VnicConfig → Try (List Assigned)
unfolding assign
assign_all w [] = done []
assign_all w (v ∷ vs) = elim (assign w v) [
  | raised e ↦ raised e
  | done a ↦ elim (assign_all w vs) [ raised e ↦ raised e | done rest ↦ done (a ∷ rest) ]
]

abbrev or_none : Option (List String) → List String
or_none none = []
or_none (some l) = l

unfoldable dns_servers : List VnicConfig → List String
dns_servers [] = []
dns_servers (v ∷ vs) = or_none v.dns ++ dns_servers vs

abbrev static_address : VnicConfig → Option String
static_address v =
    if str_eq (mode_of v) "static"
    then elim v.ip [ none ↦ none | some ip ↦ if str_eq ip "" then none else some (before ip "/") ]
    else none

abbrev endpoint : String → VnicConfig → String → Endpoint
endpoint net v mac = record {
  endpoint_network = net;
  endpoint_ip = static_address v;
  endpoint_mac = mac;
}

-- The endpoint of a MACVLAN vNIC: its own MAC address, or a generated one that is stored with it.
unfoldable endpoint_of : World → ℕ → String → VnicConfig → Endpoint × VnicConfig
unfolding generate_mac_address
endpoint_of w i net v =
    let new = generate_mac_address (w.octets_for i) in
    if truthy v.mac
    then elim v.mac [ none ↦ (endpoint net v "", v) | some mac ↦ (endpoint net v mac, v) ]
    else (endpoint net v new, record v { mac_address = some new })

unfoldable pub endpoints_from : World → ℕ → List Assigned → List Endpoint × List Assigned
unfolding endpoint_of
endpoints_from w i [] = ([], [])
endpoints_from w i ((none, v) ∷ l) =
    let rest = endpoints_from w (i + 1) l in (rest.0, (none, v) ∷ rest.1)
endpoints_from w i ((some net, v) ∷ l) =
    let one = endpoint_of w i net v in
    let rest = endpoints_from w (i + 1) l in (one.0 ∷ rest.0, (some net, one.1) ∷ rest.1)

-- The order of two texts, and of two tuples of texts, as Python compares them.
unfoldable text_ge : List ℕ → List ℕ → Bool
text_ge s [] = true
text_ge [] (b ∷ t) = false
text_ge (a ∷ s) (b ∷ t) = let rest = text_ge s t in if a == b then rest else ltb b a

abbrev same_text : List ℕ → List ℕ → Bool
same_text s t = text_ge s t && text_ge t s

unfoldable tuple_ge : List (List ℕ) → List (List ℕ) → Bool
unfolding text_ge
tuple_ge s [] = true
tuple_ge [] (b ∷ t) = false
tuple_ge (a ∷ s) (b ∷ t) = let rest = tuple_ge s t in if same_text a b then rest else text_ge a b

-- `tuple(api_version.split(".")) >= ("1", "44")`
unfoldable pub use_networking_config : String → Bool
unfolding tuple_ge split_on
use_networking_config version =
    tuple_ge (split_on b'.' (codes version)) ((b'1' ∷ []) ∷ (b'4' ∷ b'4' ∷ []) ∷ [])

-- Connecting the networks one by one: an APIError has the container removed and is raised again, or
-- what the removal raises in its place; another exception leaves the container.
unfoldable connect_each : World → String → List Endpoint → Try Unit × List DockerCall
connect_each w container [] = (done tt, [])
connect_each w container (e ∷ es) =
    let rest = connect_each w container es in
    elim (w.connect_network e) [
      | connected ↦ rest
      | connect_raises message ↦ (raised message, [])
      | api_error message ↦ elim w.force_remove [
        | done _ ↦ (raised message, remove_call container ∷ [])
        | raised other ↦ (raised other, remove_call container ∷ [])
      ]
    ]

unfoldable start_made : World → String → Try Unit × List DockerCall → Try Unit × List DockerCall
start_made w container (raised e, calls) = (raised e, calls)
start_made w container (done _, calls) = (w.start_container, calls ++ (start_call container ∷ []))

-- Older Docker connects the networks after creation, newer with it.
unfoldable connect_made : World → String → Bool → List Endpoint → Try Unit × List DockerCall
unfolding connect_each start_made
connect_made w container at_once es =
    if at_once
    then start_made w container (done tt, [])
    else start_made w container (connect_each w container es)

unfoldable after_create :
    World → String → Bool → List Endpoint → Try Unit → Try Unit × List DockerCall
unfolding connect_made
after_create w container at_once es (raised e) = (raised e, create_call container ∷ [])
after_create w container at_once es (done _) =
    let made = connect_made w container at_once es in (made.0, create_call container ∷ made.1)

unfoldable pub create_and_start_container :
    World → String → Bool → List Endpoint → Try Unit × List DockerCall
unfolding after_create
create_and_start_container w container at_once es =
    after_create w container at_once es (w.create_container container)

unfoldable stored_info : Dict NetInfo → Option String → VnicConfig → VnicConfig
stored_info settings none v = v
stored_info settings (some net) v = elim (lookup net settings) [
  | none ↦ v
  | some i ↦ record v { mac_address = some i.net_mac; docker_network_name = some net }
]

-- The loop of `_collect_network_info`.
unfoldable pub collect_info : Dict NetInfo → List Assigned → List Assigned
unfolding stored_info
collect_info settings [] = []
collect_info settings ((net, v) ∷ l) = (net, stored_info settings net v) ∷ collect_info settings l

abbrev mac_of : Option NetInfo → Option String
mac_of none = none
mac_of (some i) = some i.net_mac

abbrev pub Lease : Type 0
Lease = Option String × (Option String × ℕ)

-- `_collect_dhcp_vnics`
unfoldable pub collect_dhcp_vnics : Dict NetInfo → ℕ → List Assigned → List Lease
collect_dhcp_vnics settings pid [] = []
collect_dhcp_vnics settings pid ((none, v) ∷ l) = collect_dhcp_vnics settings pid l
collect_dhcp_vnics settings pid ((some net, v) ∷ l) =
    let rest = collect_dhcp_vnics settings pid l in
    if str_eq (mode_of v) "dhcp" && not (pid == 0)
    then (v.name, (mac_of (lookup net settings), pid)) ∷ rest
    else rest

unfoldable pub configs_of : List Assigned → List VnicConfig
configs_of [] = []
configs_of ((net, v) ∷ l) = v ∷ configs_of l

-- The vNICs on Wi-Fi, which `wifi_vnics_to_configure` lists.
unfoldable pub wifi_of : List Assigned → List VnicConfig
wifi_of [] = []
wifi_of ((none, v) ∷ l) = v ∷ wifi_of l
wifi_of ((some net, v) ∷ l) = wifi_of l
