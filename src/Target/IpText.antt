-- ===== src/Target/IpText.antt =====
-- Addresses as texts: `parseIpv4`, `formatIpv6`, `parseIpv6`, `parseIp` and `parseCidr` of
-- apps/api/src/target/ip-policy.ts. `is_ipv4` and `is_ipv6` are what `isIP` of node:net documents:
-- four decimal octets without leading zeros, and hexadecimal groups of one to four digits, eight of
-- them or fewer around one "::", of which the last two may be a dotted IPv4 address. A zone is
-- refused before `isIP` is asked.
pub mod Bounds
pub mod Written
pub mod Joined
pub mod Runs
pub mod GroupText
pub mod Formatted
use outscan.Prelude.{
  ℕ, zero, suc, ◌+◌, ◌-◌, ◌*◌, ◌/◌, ◌%◌, ◌^◌, Bool, true, false, not, ◌&&◌, ◌||◌, Option, none,
  some, List, [], ◌∷◌, ◌++◌, map, ltb, leb, ◌==◌, if◌then◌else◌, length, take, drop, all, any,
  ◌>>=◌, ◌>>◌, guard,
}
use outscan.Js.{Text, codes}
use outscan.Js.Patterns.{is_digit, is_hex, is_upper}

pub data IpFamily : Type 0 where
  ipv4 ipv6 : IpFamily

pub record ParsedIp : Type 0 where
  pub address : Text
  pub family : IpFamily
  pub value : ℕ

pub record CidrRange : Type 0 where
  pub family : IpFamily
  pub network : ℕ
  pub prefix : ℕ

-- The field `bits` of a parsed address.
abbrev pub bits : IpFamily → ℕ
bits ipv4 = 32
bits ipv6 = 128

abbrev pub cons_head : ℕ → List Text → List Text
cons_head c [] = (c ∷ []) ∷ []
cons_head c (t ∷ ts) = (c ∷ t) ∷ ts

-- `text.split(separator)`, for a separator of one code unit.
unfoldable pub split : ℕ → Text → List Text
split s [] = [] ∷ []
split s (c ∷ cs) = let rest = split s cs in if c == s then [] ∷ rest else cons_head c rest

-- `text.split("::")`.
unfoldable pub split_double : Text → List Text
split_double [] = [] ∷ []
split_double (c ∷ []) = (c ∷ []) ∷ []
split_double (c ∷ d ∷ r) =
    let after = split_double r in
    let inside = split_double (d ∷ r) in
    if c == b':' && d == b':' then [] ∷ after else cons_head c inside

-- `texts.join(separator)`.
unfoldable pub join : ℕ → List Text → Text
join s [] = []
join s (t ∷ []) = t
join s (t ∷ u ∷ ts) = t ++ (s ∷ join s (u ∷ ts))

-- `Number(text)` of decimal digits.
unfoldable pub decimal_from : ℕ → Text → ℕ
decimal_from acc [] = acc
decimal_from acc (c ∷ cs) = decimal_from (acc * 10 + (c - b'0')) cs

abbrev pub decimal : Text → ℕ
decimal t = decimal_from 0 t

-- `String(number)`, for a number below 1000.
unfoldable pub to_decimal : ℕ → Text
to_decimal n =
    if ltb n 10
    then (b'0' + n) ∷ []
    else (if ltb n 100
        then (b'0' + n / 10) ∷ (b'0' + n % 10) ∷ []
        else (b'0' + n / 100) ∷ (b'0' + n / 10 % 10) ∷ (b'0' + n % 10) ∷ [])

abbrev pub no_leading_zero : Text → Bool
no_leading_zero [] = false
no_leading_zero (c ∷ []) = true
no_leading_zero (c ∷ d ∷ r) = not (c == b'0')

abbrev pub is_octet : Text → Bool
is_octet t = no_leading_zero t && leb (length t) 3 && all is_digit t && leb (decimal t) 255

-- `isIP(address) === 4`.
unfoldable pub is_ipv4 : Text → Bool
unfolding split decimal_from
is_ipv4 t = length (split b'.' t) == 4 && all is_octet (split b'.' t)

-- `reduce((current, octet) => (current << 8n) | BigInt(octet), 0n)` over octets below 256, and the
-- same over groups of 16 bits, with the base for the shift.
unfoldable pub digits_value : ℕ → ℕ → List ℕ → ℕ
digits_value base current [] = current
digits_value base current (d ∷ ds) = digits_value base (current * base + d) ds

unfoldable pub parse_ipv4 : Text → Option ParsedIp
unfolding is_ipv4 split decimal_from digits_value join to_decimal
parse_ipv4 t =
    if not (is_ipv4 t)
    then none
    else (let octets = map decimal (split b'.' t) in
        some (record {
          address = join b'.' (map to_decimal octets);
          family = ipv4;
          value = digits_value 256 0 octets;
        }))

abbrev pub hex_digit : ℕ → ℕ
hex_digit c = if is_digit c then c - b'0' else c - b'a' + 10

-- `Number.parseInt(group, 16)` of hexadecimal digits.
unfoldable pub hex_from : ℕ → Text → ℕ
hex_from acc [] = acc
hex_from acc (c ∷ cs) = hex_from (acc * 16 + hex_digit c) cs

abbrev pub hex : Text → ℕ
hex t = hex_from 0 t

abbrev pub to_hex_digit : ℕ → ℕ
to_hex_digit d = if ltb d 10 then b'0' + d else b'a' + (d - 10)

-- `group.toString(16)`, for a group below 65536.
unfoldable pub to_hex : ℕ → Text
to_hex n =
    if ltb n 16
    then to_hex_digit n ∷ []
    else (if ltb n 256
        then to_hex_digit (n / 16) ∷ to_hex_digit (n % 16) ∷ []
        else (if ltb n 4096
            then to_hex_digit (n / 256) ∷ to_hex_digit (n / 16 % 16) ∷ to_hex_digit (n % 16) ∷ []
            else to_hex_digit (n / 4096)
              ∷ to_hex_digit (n / 256 % 16)
              ∷ to_hex_digit (n / 16 % 16)
              ∷ to_hex_digit (n % 16)
              ∷ []))

unfoldable pub zero_run : List ℕ → ℕ
zero_run [] = 0
zero_run (g ∷ gs) = let rest = zero_run gs in if g == 0 then suc rest else 0

pub record Run : Type 0 where
  pub start : ℕ
  pub size : ℕ

-- The loop of `formatIpv6`; `skip` counts the groups up to the end of the run that was read. Where
-- no run was found the size is 0, and the start, -1 in the source, is not read.
unfoldable pub best_run : ℕ → ℕ → Run → List ℕ → Run
unfolding zero_run
best_run index skip best [] = best
best_run index (suc skip) best (g ∷ gs) = best_run (suc index) skip best gs
best_run index zero best (g ∷ gs) =
    let size = zero_run (g ∷ gs) in
    best_run (suc index) (size - 1)
      (if ltb best.size size then record { start = index; size = size } else best) gs

unfoldable pub format_ipv6 : List ℕ → Text
unfolding best_run join to_hex
format_ipv6 groups =
    let best = best_run 0 0 (record { start = 0; size = 0 }) groups in
    if ltb best.size 2
    then join b':' (map to_hex groups)
    else join b':' (map to_hex (take best.start groups))
      ++ codes "::"
      ++ join b':' (map to_hex (drop (best.start + best.size) groups))

abbrev pub to_lower : ℕ → ℕ
to_lower c = if is_upper c then c + 32 else c

-- The text before the last colon and the text after it.
unfoldable pub split_last_colon : Text → Option (Text × Text)
split_last_colon [] = none
split_last_colon (c ∷ cs) = elim (split_last_colon cs) [
  | some (left, right) ↦ some (c ∷ left, right)
  | none ↦ if c == b':' then some ([], cs) else none
]

-- A dotted part at the end is written as two groups.
unfoldable pub expand_dotted : Text → Option Text
unfolding split_last_colon parse_ipv4 to_hex
expand_dotted t =
    if any (λ c. c == b'.') t
    then (do
      parts ← split_last_colon t
      ip ← parse_ipv4 (parts.1)
      some (
          parts.0
          ++ (b':' ∷ to_hex (ip.value / 65536 % 65536))
          ++ (b':' ∷ to_hex (ip.value % 65536))))
    else some t

-- `half ? half.split(":") : []`.
abbrev pub half_groups : Text → List Text
half_groups [] = []
half_groups (c ∷ cs) = split b':' (c ∷ cs)

unfoldable pub replicate_zero : ℕ → List Text
replicate_zero zero = []
replicate_zero (suc n) = codes "0" ∷ replicate_zero n

-- The eight groups of the halves, if they leave room as they must.
unfoldable pub fill_groups : List Text → Option (List Text)
unfolding split replicate_zero
fill_groups (left ∷ []) = if length (half_groups left) == 8 then some (half_groups left) else none
fill_groups (left ∷ right ∷ []) =
    let used = length (half_groups left) + length (half_groups right) in
    if leb 8 used
    then none
    else some (half_groups left ++ replicate_zero (8 - used) ++ half_groups right)
fill_groups _ = none

abbrev pub is_group : Text → Bool
is_group t = leb 1 (length t) && leb (length t) 4 && all is_hex t

-- The groups of an IPv6 address; those that `isIP` does not accept are refused.
unfoldable pub ipv6_groups : Text → Option (List ℕ)
unfolding expand_dotted split_double fill_groups hex_from
ipv6_groups t = do
  expanded ← expand_dotted (map to_lower t)
  groups ← fill_groups (split_double expanded)
  guard (all is_group groups)
  some (map hex groups)

unfoldable pub parse_ipv6 : Text → Option ParsedIp
unfolding ipv6_groups format_ipv6 digits_value
parse_ipv6 t = if any (λ c. c == b'%') t then none else (do
  groups ← ipv6_groups t
  some
      (record { address = format_ipv6 groups; family = ipv6; value = digits_value 65536 0 groups }))

abbrev pub or_ipv6 : Option ParsedIp → Text → Option ParsedIp
or_ipv6 (some ip) t = some ip
or_ipv6 none t = parse_ipv6 t

unfoldable pub parse_ip : Text → Option ParsedIp
unfolding parse_ipv4 parse_ipv6
parse_ip t = if length t == 0 || ltb 64 (length t) then none else or_ipv6 (parse_ipv4 t) t

-- /^(0|[1-9][0-9]{0,2})$/u
abbrev is_prefix_text : Text → Bool
is_prefix_text t = no_leading_zero t && leb (length t) 3 && all is_digit t

abbrev pub align : ℕ → ℕ → ℕ
align value host_bits = value / 2 ^ host_bits * 2 ^ host_bits

-- The network of a prefix of 0 is 0, as is `align value bits`.
unfoldable pub parse_cidr_parts : Text → Text → Option CidrRange
unfolding decimal_from
parse_cidr_parts address_text prefix_text = do
  address ← parse_ip address_text
  guard (is_prefix_text prefix_text)
  let prefix = decimal prefix_text
  guard (leb prefix (bits address.family))
  let host_bits = bits address.family - prefix
  some (record {
    family = address.family;
    network = if host_bits == bits address.family then 0 else align address.value host_bits;
    prefix = prefix;
  })

abbrev pub two_parts : List Text → Option CidrRange
two_parts (a ∷ p ∷ []) = parse_cidr_parts a p
two_parts _ = none

unfoldable pub parse_cidr : Text → Option CidrRange
unfolding split parse_cidr_parts
parse_cidr value = two_parts (split b'/' value)
