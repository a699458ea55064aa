-- ===== src/Target/IpPolicy/Written.antt =====
-- Which text each validated address was written from.
use outscan.Prelude.{
  ◌≡◌, refl, some, List, [], ◌∷◌, arith, All, All-map, Any, Any-map, Option-cases, inl, inr,
}
use outscan.Js.{Text, Value, Values, string, array, values}
use outscan.Target.IpText.{ParsedIp, CidrRange, parse_ip}
use outscan.Target.IpPolicy.{
  configured_ranges, parse_all, set_unique, unique_from, blocked_addresses, validated,
  BlockedIpAddress, judge, classify_items, classify_resolved_address_set, accepted,
  ValidatedIpAddress,
}
use outscan.Target.IpPolicy.FailClosed.{
  IsClear, configured_ranges-IsAligned, blocked_addresses-IsClear, parse_all-cons,
}

-- The item is a text, and this is the address that it is parsed to.
abbrev pub IsTextOf : ParsedIp → Value → Type 0
IsTextOf ip item = (t : Text) × (item ≡ string t) × (parse_ip t ≡ some ip)

parse_all-IsTextOf :
    (items : List Value) (ips : List ParsedIp)
    → parse_all items ≡ some ips
    → All (λ ip. Any (IsTextOf ip) items) ips
unfolding parse_all
parse_all-IsTextOf [] ips h = (let same : [] ≡ ips = cc in rw (← same) tt)
parse_all-IsTextOf (string t ∷ items) ips h =
    let (ip, rest, parsed, parsed_rest, same) = parse_all-cons t items ips h in
    let later = parse_all-IsTextOf items rest parsed_rest in
    rw same (
      inl (t, refl, parsed),
      All-map (λ ip. Any (IsTextOf ip) items) (λ ip. Any (IsTextOf ip) (string t ∷ items))
          (λ ip found. inr found) rest later,
    )
parse_all-IsTextOf (_ ∷ items) ips h = cc

module _ (P : ParsedIp → Type 0) where
  set_unique-keeps :
      (ip : ParsedIp) (us : List ParsedIp) → P ip → All P us → All P (set_unique ip us)
  unfolding set_unique
  set_unique-keeps ip [] p h = (p, tt)
  set_unique-keeps ip (u ∷ us) p h = ground (arith, p, h, set_unique-keeps ip us)

  unique_from-keeps :
      (found ips : List ParsedIp) → All P found → All P ips → All P (unique_from found ips)
  unfolding unique_from
  unique_from-keeps found [] h k = h
  unique_from-keeps found (ip ∷ ips) h (p, k) =
      unique_from-keeps (set_unique ip found) ips (set_unique-keeps ip found p h) k

-- The address is the one that the item's text is parsed to, and that one is clear.
abbrev pub WrittenFrom : List CidrRange → ValidatedIpAddress → Value → Type 0
WrittenFrom ranges v item =
    (ip : ParsedIp) × IsTextOf ip item
    × (v.address ≡ ip.address)
    × (v.family ≡ ip.family)
    × IsClear ranges ip

validated-WrittenFrom :
    (items : List Value) (ranges : List CidrRange) (ips : List ParsedIp)
    → All (λ ip. Any (IsTextOf ip) items) ips
    → All (IsClear ranges) ips
    → All (λ v. Any (WrittenFrom ranges v) items) (validated ips)
unfolding validated
validated-WrittenFrom items ranges [] h k = tt
validated-WrittenFrom items ranges (ip ∷ ips) (from, h) (clear, k) = (
  Any-map (IsTextOf ip) (WrittenFrom ranges (record { address = ip.address; family = ip.family }))
      (λ item text. (ip, text, refl, refl, clear)) items from,
  validated-WrittenFrom items ranges ips h k,
)

judge-accepted :
    (unique : List ParsedIp) (blocked : List BlockedIpAddress) (addresses : List ValidatedIpAddress)
    → judge unique blocked ≡ accepted addresses
    → (blocked ≡ []) × (validated unique ≡ addresses)
judge-accepted unique [] addresses h = (refl, cc)
judge-accepted unique (b ∷ bs) addresses h = cc

-- Every address that an accepted set hands on to the connection is written from one of the texts that
-- were resolved, and the address in that text is outside of all the built-in and configured intervals.
pub accepted-WrittenFrom :
    (items : Values) (configured : Value) (addresses : List ValidatedIpAddress)
    → classify_resolved_address_set (array items) configured ≡ accepted addresses
    → (ranges : List CidrRange) × (configured_ranges configured ≡ some ranges)
      × All (λ v. Any (WrittenFrom ranges v) (values items)) addresses
unfolding classify_resolved_address_set classify_items
accepted-WrittenFrom items configured addresses h =
    elim (Option-cases (configured_ranges configured)) [
      | inl e ↦ ground (arith, h, e)
      | inr (ranges, e) ↦ elim (Option-cases (parse_all (values items))) [
        | inl f ↦ ground (arith, h, e, f)
        | inr (parsed, f) ↦
            let aligned = configured_ranges-IsAligned configured ranges e in
            let unique = unique_from [] parsed in
            let (free, same) =
              judge-accepted unique (blocked_addresses unique ranges) addresses
                (ground (arith, h, e, f)) in
            let clear = (blocked_addresses-IsClear unique ranges aligned).0 free in
            let texts =
              unique_from-keeps (λ ip. Any (IsTextOf ip) (values items)) [] parsed tt
                (parse_all-IsTextOf (values items) parsed f) in
            (ranges, e, rw same at (validated-WrittenFrom (values items) ranges unique texts clear))
      ]
    ]
