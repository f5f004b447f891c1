-- ===== src/Networks.antt =====
-- src/tools/network_utils.py and src/repos/network_interface_cache_repo.py: subnets, the names of
-- MACVLAN networks and the cache of the host's interfaces. `int` is that of plain decimal digits:
-- blanks, a sign and underscores, which Python's also takes, raise here.
use Prim.Native.Nat.{bit_and}
use Prim.Native.Char.{code}
use Prim.Native.String.{◌∷◌ as char_then, [] as no_text}
use orchestrator_agent.Prelude.{
  ℕ, zero, suc, ◌+◌, ◌-◌, ◌*◌, ◌/◌, ◌%◌, String, Bool, true, false, ◌&&◌, Option, none, some, List,
  [], ◌∷◌, if◌then◌else◌, str_eq, leb, ◌==◌,
}
use orchestrator_agent.Prelude.Dict.{Dict, lookup, insert, remove, contains}
use orchestrator_agent.Prelude.Decimal.{decimal}
use orchestrator_agent.Prelude.Texts.{
  truthy, shown, append, has_text, codes, replace_code, is_digit,
}
pub mod Masks

abbrev push_first : ℕ → List (List ℕ) → List (List ℕ)
push_first c [] = (c ∷ []) ∷ []
push_first c (w ∷ ws) = (c ∷ w) ∷ ws

-- `s.split(sep)` for one code point.
unfoldable pub split_on : ℕ → List ℕ → List (List ℕ)
split_on sep [] = [] ∷ []
split_on sep (c ∷ s) =
    let rest = split_on sep s in if c == sep then [] ∷ rest else push_first c rest

unfoldable int_from : ℕ → List ℕ → Option ℕ
int_from acc [] = some acc
int_from acc (c ∷ s) =
    let rest = int_from (acc * 10 + (c - b'0')) s in if is_digit c then rest else none

unfoldable int_of : List ℕ → Option ℕ
unfolding int_from
int_of [] = none
int_of (c ∷ s) = int_from 0 (c ∷ s)

unfoldable ints : List (List ℕ) → Option (List ℕ)
unfolding int_of
ints [] = some []
ints (w ∷ ws) = elim (int_of w) [
  | none ↦ none
  | some n ↦ elim (ints ws) [ none ↦ none | some ns ↦ some (n ∷ ns) ]
]

-- `[int(octet) for octet in s.split(".")]`; `none` is the ValueError.
unfoldable pub octets : String → Option (List ℕ)
unfolding split_on ints
octets s = ints (split_on b'.' (codes s))

-- `bin(n).count("1")`, the number itself being fuel enough.
unfoldable count_ones_in : ℕ → ℕ → ℕ
count_ones_in zero n = 0
count_ones_in (suc fuel) n = n % 2 + count_ones_in fuel (n / 2)

unfoldable count_ones : ℕ → ℕ
unfolding count_ones_in
count_ones n = count_ones_in n n

unfoldable sum_ones : List ℕ → ℕ
unfolding count_ones
sum_ones [] = 0
sum_ones (n ∷ ns) = count_ones n + sum_ones ns

unfoldable is_cidr_format : String → Bool
is_cidr_format subnet = has_text subnet "/"

abbrev map_some : {A B : Type 0} → (A → B) → Option A → Option B
map_some f none = none
map_some f (some a) = some (f a)

unfoldable pub netmask_to_cidr : String → Option ℕ
unfolding octets sum_ones
netmask_to_cidr netmask = map_some sum_ones (octets netmask)

abbrev dotted : ℕ → ℕ → ℕ → ℕ → String
dotted a b c d =
    append (decimal a)
      (append "." (append (decimal b) (append "." (append (decimal c) (append "." (decimal d))))))

-- The first four octets, masked; fewer of either are the IndexError.
unfoldable masked : List ℕ → List ℕ → Option String
unfolding decimal
masked (a ∷ b ∷ c ∷ d ∷ _) (m ∷ n ∷ o ∷ p ∷ _) =
    some (dotted (bit_and a m) (bit_and b n) (bit_and c o) (bit_and d p))
masked _ _ = none

unfoldable masked_octets : Option (List ℕ) → Option (List ℕ) → Option String
unfolding masked
masked_octets none _ = none
masked_octets (some a) none = none
masked_octets (some a) (some m) = masked a m

unfoldable calculate_network_base : String → String → Option String
unfolding octets masked_octets
calculate_network_base gateway netmask = masked_octets (octets gateway) (octets netmask)

abbrev with_prefix : Option ℕ → Option String → Option String
with_prefix none _ = none
with_prefix (some n) none = none
with_prefix (some n) (some base) = some (append base (append "/" (decimal n)))

unfoldable resolve_subnet : String → String → Option String
unfolding is_cidr_format netmask_to_cidr calculate_network_base
resolve_subnet subnet gateway =
    if is_cidr_format subnet
    then some subnet
    else with_prefix (netmask_to_cidr subnet) (calculate_network_base gateway subnet)

-- `detect_interface_network`: the cache is polled until it names a subnet or the time is up; `polls`
-- are the subnets that it gives.
unfoldable detect_interface_network : List (Option String) → Option String
detect_interface_network [] = none
detect_interface_network (subnet ∷ polls) =
    let rest = detect_interface_network polls in if truthy subnet then subnet else rest

abbrev named_key : Option String → String → String
named_key parent subnet = append "macvlan_" (append (shown parent) (append "_" subnet))

abbrev detected_key : Option String → Option String → String
detected_key parent none = named_key parent "unknown"
detected_key parent (some subnet) = named_key parent (replace_code b'/' "_" subnet)

abbrev resolved_key : Option String → Option String → Option String
resolved_key parent none = none
resolved_key parent (some subnet) = some (named_key parent (replace_code b'/' "_" subnet))

-- `get_macvlan_network_key` with an interface cache. `none` is an exception: a netmask or a gateway
-- that is no dotted number.
unfoldable pub get_macvlan_network_key :
    List (Option String) → Option String → Option String → Option String → Option String
unfolding resolve_subnet detect_interface_network replace_code
get_macvlan_network_key polls parent (some subnet) (some gateway) =
    if str_eq subnet ""
    then some (detected_key parent (detect_interface_network polls))
    else if str_eq gateway ""
    then some (detected_key parent (detect_interface_network polls))
    else resolved_key parent (resolve_subnet subnet gateway)
get_macvlan_network_key polls parent (some subnet) none =
    some (detected_key parent (detect_interface_network polls))
get_macvlan_network_key polls parent none gateway =
    some (detected_key parent (detect_interface_network polls))

-- An entry of the interface cache.
pub record Interface : Type 0 where
  pub interface_kind : Option String
  pub interface_subnet : Option String
  pub interface_gateway : Option String

abbrev kind_of : Option Interface → String
kind_of none = "ethernet"
kind_of (some i) = elim i.interface_kind [ none ↦ "ethernet" | some kind ↦ kind ]

unfoldable pub get_interface_type : Option String → Dict Interface → String
get_interface_type none cache = "ethernet"
get_interface_type (some n) cache = kind_of (lookup n cache)

abbrev network_of : Option Interface → Option String × Option String
network_of none = (none, none)
network_of (some i) = (i.interface_subnet, i.interface_gateway)

unfoldable get_interface_network : String → Dict Interface → Option String × Option String
get_interface_network n cache = network_of (lookup n cache)

unfoldable pub set_interface : String → Interface → Dict Interface → Dict Interface
set_interface n i cache = insert n i cache

unfoldable remove_interface : String → Dict Interface → Dict Interface
remove_interface n cache = if contains n cache then remove n cache else cache
