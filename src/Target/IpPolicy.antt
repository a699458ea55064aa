-- ===== src/Target/IpPolicy.antt =====
-- The destination policy on resolved addresses: apps/api/src/target/ip-policy.ts.
pub mod Ranges
pub mod FailClosed
pub mod Written
use outscan.Prelude.{
  ℕ, ◌+◌, ◌-◌, ◌*◌, ◌^◌, Bool, true, false, not, ◌&&◌, ◌||◌, Option, none, some, List, [], ◌∷◌,
  ◌++◌, String, ltb, leb, ◌==◌, if◌then◌else◌, length, any, ◌>>=◌,
}
use outscan.Js.{text_in, Text, codes, text_eq, Value, string, array, values}
use outscan.Target.IpText.{
  IpFamily, ipv4, ipv6, ParsedIp, CidrRange, bits, align, parse_ip, parse_cidr,
}

abbrev pub max_resolved_addresses : ℕ
max_resolved_addresses = 64

abbrev pub max_configured_internal_ranges : ℕ
max_configured_internal_ranges = 128

pub data ForbiddenAddressReason : Type 0 where
  this_network private shared loopback link_local metadata special_purpose documentation benchmark
        multicast reserved ipv4_mapped translation unique_local non_global_unicast
        configured_internal :
      ForbiddenAddressReason

pub record ValidatedIpAddress : Type 0 where
  pub address : Text
  pub family : IpFamily

pub record BlockedIpAddress : Type 0 where
  pub address : Text
  pub family : IpFamily
  pub reason : ForbiddenAddressReason

pub data ResolvedAddressSet : Type 0 where
  accepted : List ValidatedIpAddress → ResolvedAddressSet
  invalid_resolution empty_resolution too_many_addresses invalid_address invalid_internal_range :
      ResolvedAddressSet
  forbidden_address : List BlockedIpAddress → ResolvedAddressSet

abbrev pub built_in_cidrs : List (String × ForbiddenAddressReason)
built_in_cidrs =
    ("0.0.0.0/8", this_network)
    ∷ ("10.0.0.0/8", private)
    ∷ ("100.64.0.0/10", shared)
    ∷ ("127.0.0.0/8", loopback)
    ∷ ("168.63.129.16/32", metadata)
    ∷ ("169.254.0.0/16", link_local)
    ∷ ("172.16.0.0/12", private)
    ∷ ("192.0.0.0/24", special_purpose)
    ∷ ("192.0.2.0/24", documentation)
    ∷ ("192.31.196.0/24", special_purpose)
    ∷ ("192.52.193.0/24", special_purpose)
    ∷ ("192.88.99.0/24", special_purpose)
    ∷ ("192.168.0.0/16", private)
    ∷ ("192.175.48.0/24", special_purpose)
    ∷ ("198.18.0.0/15", benchmark)
    ∷ ("198.51.100.0/24", documentation)
    ∷ ("203.0.113.0/24", documentation)
    ∷ ("224.0.0.0/4", multicast)
    ∷ ("240.0.0.0/4", reserved)
    ∷ ("::/128", this_network)
    ∷ ("::1/128", loopback)
    ∷ ("::ffff:0:0/96", ipv4_mapped)
    ∷ ("64:ff9b::/96", translation)
    ∷ ("64:ff9b:1::/48", translation)
    ∷ ("100::/64", special_purpose)
    ∷ ("100:0:0:1::/64", special_purpose)
    ∷ ("2001::/23", special_purpose)
    ∷ ("2001:db8::/32", documentation)
    ∷ ("2002::/16", special_purpose)
    ∷ ("2620:4f:8000::/48", special_purpose)
    ∷ ("3ffe::/16", reserved)
    ∷ ("3fff::/20", documentation)
    ∷ ("5f00::/16", special_purpose)
    ∷ ("fc00::/7", unique_local)
    ∷ ("fe80::/10", link_local)
    ∷ ("ff00::/8", multicast)
    ∷ []

abbrev pub BuiltInRange : Type 0
BuiltInRange = CidrRange × ForbiddenAddressReason

-- The ranges of the texts, in order; the source throws at one that does not parse.
unfoldable pub load_ranges : List (String × ForbiddenAddressReason) → Option (List BuiltInRange)
unfolding parse_cidr
load_ranges [] = some []
load_ranges ((cidr, reason) ∷ rest) = do
  range ← parse_cidr (codes cidr)
  ranges ← load_ranges rest
  some ((range, reason) ∷ ranges)

abbrev loaded : Option (List BuiltInRange) → List BuiltInRange
loaded none = []
loaded (some ranges) = ranges

unfoldable pub built_in_ranges : List BuiltInRange
unfolding load_ranges
built_in_ranges = loaded (load_ranges built_in_cidrs)

abbrev pub same_family : IpFamily → IpFamily → Bool
same_family ipv4 ipv4 = true
same_family ipv6 ipv6 = true
same_family _ _ = false

-- `(value >> hostBits) << hostBits === network`.
unfoldable pub contains : CidrRange → ParsedIp → Bool
contains range address =
    same_family range.family address.family
    && align address.value (bits address.family - range.prefix) == range.network

unfoldable pub find_reason : List BuiltInRange → ParsedIp → Option ForbiddenAddressReason
find_reason [] address = none
find_reason ((range, reason) ∷ ranges) address =
    let rest = find_reason ranges address in if contains range address then some reason else rest

unfoldable pub in_any : List CidrRange → ParsedIp → Bool
in_any [] address = false
in_any (range ∷ ranges) address = contains range address || in_any ranges address

-- 2000::/3
abbrev pub global_unicast : CidrRange
global_unicast = record { family = ipv6; network = 0x2000 * 2 ^ 112; prefix = 3 }

abbrev pub is_ipv6_family : IpFamily → Bool
is_ipv6_family ipv4 = false
is_ipv6_family ipv6 = true

unfoldable pub block_reason : ParsedIp → List CidrRange → Option ForbiddenAddressReason
block_reason address configured_ranges = elim (find_reason built_in_ranges address) [
  | some reason ↦ some reason
  | none ↦
      if in_any configured_ranges address
      then some configured_internal
      else (if is_ipv6_family address.family && not (contains global_unicast address)
          then some non_global_unicast
          else none)
]

-- The loop of `snapshotConfiguredInternalCidrs`, with the ranges of the values pushed so far beside
-- them; `classifyResolvedAddressSet` parses the values a second time, to the same ranges.
unfoldable pub collect_cidrs : List Value → List Text → List CidrRange → Option (List CidrRange)
collect_cidrs [] seen ranges = some ranges
collect_cidrs (string v ∷ vs) seen ranges = elim (parse_cidr v) [
  | none ↦ none
  | some range ↦
      let rest = collect_cidrs vs (seen ++ v ∷ []) (ranges ++ range ∷ []) in
      if ltb 80 (length v) || text_in v seen then none else rest
]
collect_cidrs (_ ∷ vs) seen ranges = none

unfoldable pub configured_ranges : Value → Option (List CidrRange)
configured_ranges (array items) =
    if ltb max_configured_internal_ranges (length (values items))
    then none
    else collect_cidrs (values items) [] []
configured_ranges _ = none

-- The loop that parses the resolved addresses.
unfoldable pub parse_all : List Value → Option (List ParsedIp)
parse_all [] = some []
parse_all (string v ∷ vs) = do ip ← parse_ip v; ips ← parse_all vs; some (ip ∷ ips)
parse_all (_ ∷ vs) = none

abbrev pub same_key : ParsedIp → ParsedIp → Bool
same_key a b = same_family a.family b.family && a.value == b.value

-- `unique.set(key, address)`: a key that is there keeps its place.
unfoldable pub set_unique : ParsedIp → List ParsedIp → List ParsedIp
set_unique ip [] = ip ∷ []
set_unique ip (u ∷ us) = let rest = set_unique ip us in if same_key ip u then ip ∷ us else u ∷ rest

unfoldable pub unique_from : List ParsedIp → List ParsedIp → List ParsedIp
unique_from found [] = found
unique_from found (ip ∷ ips) = unique_from (set_unique ip found) ips

unfoldable pub blocked_addresses : List ParsedIp → List CidrRange → List BlockedIpAddress
blocked_addresses [] ranges = []
blocked_addresses (ip ∷ ips) ranges =
    let rest = blocked_addresses ips ranges in
    elim (block_reason ip ranges) [
      | none ↦ rest
      | some reason ↦ record { address = ip.address; family = ip.family; reason = reason } ∷ rest
    ]

unfoldable pub validated : List ParsedIp → List ValidatedIpAddress
validated [] = []
validated (ip ∷ ips) = record { address = ip.address; family = ip.family } ∷ validated ips

abbrev pub judge : List ParsedIp → List BlockedIpAddress → ResolvedAddressSet
judge unique [] = accepted (validated unique)
judge unique (b ∷ bs) = forbidden_address (b ∷ bs)

-- The part behind the tests on the sizes.
unfoldable pub classify_items : List Value → Value → ResolvedAddressSet
classify_items items configured = elim (configured_ranges configured) [
  | none ↦ invalid_internal_range
  | some ranges ↦ elim (parse_all items) [
    | none ↦ invalid_address
    | some parsed ↦
        let unique = unique_from [] parsed in judge unique (blocked_addresses unique ranges)
  ]
]

unfoldable pub classify_resolved_address_set : Value → Value → ResolvedAddressSet
classify_resolved_address_set (array items) configured =
    if length (values items) == 0
    then empty_resolution
    else (if ltb max_resolved_addresses (length (values items))
        then too_many_addresses
        else classify_items (values items) configured)
classify_resolved_address_set _ configured = invalid_resolution
