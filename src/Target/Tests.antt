-- ===== src/Target/Tests.antt =====
-- Runs of apps/api/src/target, and the theorems at concrete inputs.
use outscan.Prelude.{String, ◌≤◌, ◌↔◌, length, ◌≡◌, refl, Option, none, some, List, [], ◌∷◌}
use outscan.Js.{text_in, Text, codes, Value, Values, string, array, cons, nil, values}
use outscan.Target.IpText.{ParsedIp, ipv4, ipv6, parse_ip, parse_cidr}
use outscan.Target.IpPolicy.{
  classify_items, collect_cidrs, parse_all, blocked_addresses, unique_from, set_unique,
  block_reason, find_reason, built_in_ranges, in_any, validated, contains,
  classify_resolved_address_set, configured_ranges, ValidatedIpAddress, forbidden_address,
  invalid_address, empty_resolution, accepted, ResolvedAddressSet, metadata, ipv4_mapped,
  non_global_unicast, configured_internal,
}
use outscan.Target.IpPolicy.FailClosed.{AllClear, IsAccepted, IsAccepted-iff}

abbrev shown : Text → Option Text
shown t = elim (parse_ip t) [ none ↦ none | some ip ↦ some ip.address ]

addresses :
    (shown (codes "127.0.0.1") ≡ some (codes "127.0.0.1"))
    × (shown (codes "127.0.0.01") ≡ none)
    × (shown (codes "256.0.0.1") ≡ none)
    × (shown (codes "2001:DB8:0:0:1:0:0:1") ≡ some (codes "2001:db8::1:0:0:1"))
    × (shown (codes "::ffff:10.1.2.3") ≡ some (codes "::ffff:a01:203"))
    × (shown (codes "1::2::3") ≡ none)
    × (shown (codes "::") ≡ some (codes "::"))
    × (shown (codes "1:2:3:4:5:6:7::") ≡ some (codes "1:2:3:4:5:6:7:0"))
    × (shown (codes "fe80::1%eth0") ≡ none)
    × (shown (codes "1:2:3:4:5:6:7:8:9") ≡ none)
unfolding parse_ip
addresses = (refl, refl, refl, refl, refl, refl, refl, refl, refl, refl)

abbrev mapped : ParsedIp
mapped = record { address = codes "::ffff:a01:203"; family = ipv6; value = 281470849581571 }

ranges :
    (parse_cidr (codes "10.1.2.3/8")
      ≡ some (record { family = ipv4; network = 167772160; prefix = 8 }))
    × (parse_cidr (codes "10.0.0.0/33") ≡ none)
unfolding parse_cidr parse_ip
ranges = (refl, refl)

abbrev texts : List String → Values
texts [] = nil
texts (s ∷ ss) = cons (string (codes s)) (texts ss)

abbrev internal : Value
internal = array (texts ("8.8.8.0/24" ∷ []))

abbrev classify : List String → ResolvedAddressSet
classify ss = classify_resolved_address_set (array (texts ss)) internal

abbrev public_addresses : List ValidatedIpAddress
public_addresses =
    record { address = codes "93.184.216.34"; family = ipv4 }
    ∷ record { address = codes "2606:2800:220:1::"; family = ipv6 }
    ∷ []

public_accepted :
    classify ("93.184.216.34" ∷ "2606:2800:220:1:0:0:0:0" ∷ "2606:2800:0220:1::" ∷ [])
    ≡ accepted public_addresses
unfolding classify_resolved_address_set parse_ip configured_ranges parse_cidr contains
    classify_items collect_cidrs text_in parse_all blocked_addresses unique_from set_unique
    block_reason find_reason built_in_ranges in_any validated
public_accepted = refl

refused :
    (classify [] ≡ empty_resolution)
    × (classify ("93.184.216.34" ∷ "localhost" ∷ []) ≡ invalid_address)
    × (classify
          ("93.184.216.34" ∷ "168.63.129.16" ∷ "::ffff:93.184.216.34" ∷ "4000::1" ∷ "8.8.8.8" ∷ [])
        ≡ forbidden_address (
            record { address = codes "168.63.129.16"; family = ipv4; reason = metadata }
            ∷ record { address = codes "::ffff:5db8:d822"; family = ipv6; reason = ipv4_mapped }
            ∷ record { address = codes "4000::1"; family = ipv6; reason = non_global_unicast }
            ∷ record { address = codes "8.8.8.8"; family = ipv4; reason = configured_internal }
            ∷ []))
unfolding classify_resolved_address_set parse_ip configured_ranges parse_cidr contains
    classify_items collect_cidrs text_in parse_all blocked_addresses unique_from set_unique
    block_reason find_reason built_in_ranges in_any validated
refused = (refl, refl, refl)

abbrev two_texts : Values
two_texts = texts ("93.184.216.34" ∷ "10.0.0.1" ∷ [])

IsAccepted-iff_example : IsAccepted (classify_resolved_address_set (array two_texts) internal) ↔ (
    (1 ≤ length (values two_texts))
    × (length (values two_texts) ≤ 64)
    × AllClear internal (values two_texts))
IsAccepted-iff_example = IsAccepted-iff two_texts internal

abbrev far : ParsedIp
far = record { address = codes "255.255.255.255"; family = ipv4; value = 4294967295 }

far_parsed : parse_ip (codes "255.255.255.255") ≡ some far
unfolding parse_ip
far_parsed = refl
