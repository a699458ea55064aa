-- ===== src/Target/IpPolicy/FailClosed.antt =====
-- Which sets of resolved addresses are accepted.
use outscan.Prelude.{
  All-map, ◌∙◌, ◌≤◌, ◌≡◌, refl, ◌↔◌, true, false, none, some, List, [], ◌∷◌, ◌++◌, arith, All,
  All-append, Option-cases, inl, inr, and-eq-true, sym, ==_iff, length, >>=-eq-some,
}
use outscan.Js.{Text, Value, Values, string, array, values}
use outscan.Target.IpText.{IpFamily, ipv4, ipv6, ParsedIp, CidrRange, parse_ip, parse_cidr}
use outscan.Target.IpPolicy.{
  built_in_ranges, same_key, global_unicast, find_reason, in_any, block_reason, collect_cidrs,
  configured_ranges, parse_all, set_unique, unique_from, blocked_addresses, validated,
  BlockedIpAddress, judge, classify_items, classify_resolved_address_set, accepted,
  ResolvedAddressSet, ValidatedIpAddress,
}
use outscan.Target.IpPolicy.Ranges.{
  InRange, IsAligned, contains-InRange, parse_cidr-IsAligned, built_in-IsAligned, find_reason-none,
  in_any-false, same_family_sound,
}

-- An address that no rule of the policy forbids: outside of every built-in and configured interval
-- and, for IPv6, inside of 2000::/3.
pub record IsClear (configured : List CidrRange) (ip : ParsedIp) : Type 0 where
  pub not_built_in : All (λ r. ¬ InRange (r.0) ip) built_in_ranges
  pub not_configured : All (λ r. ¬ InRange r ip) configured
  pub unicast : ip.family ≡ ipv6 → InRange global_unicast ip

collect_cidrs-IsAligned :
    (vs : List Value) (seen : List Text) (ranges result : List CidrRange)
    → All IsAligned ranges
    → collect_cidrs vs seen ranges ≡ some result
    → All IsAligned result
unfolding collect_cidrs
collect_cidrs-IsAligned [] seen ranges result al h = (let e : ranges ≡ result = cc in rw (← e) al)
collect_cidrs-IsAligned (string v ∷ vs) seen ranges result al h =
    elim (Option-cases (parse_cidr v)) [
      | inl e ↦ ground (arith, e)
      | inr (range, e) ↦
          let aligned = parse_cidr-IsAligned v range e in
          let grown = All-append IsAligned ranges (range ∷ []) al (aligned, tt) in
          collect_cidrs-IsAligned vs (seen ++ v ∷ []) (ranges ++ range ∷ []) result grown
            (ground (arith, e))
    ]
collect_cidrs-IsAligned (_ ∷ vs) seen ranges result al h = cc

pub configured_ranges-IsAligned :
    (v : Value) (ranges : List CidrRange) → configured_ranges v ≡ some ranges → All IsAligned ranges
unfolding configured_ranges
configured_ranges-IsAligned (array items) ranges h =
    collect_cidrs-IsAligned (values items) [] [] ranges tt (ground arith)
configured_ranges-IsAligned _ ranges h = cc

family_cases {ℓ} : {A : Type ℓ} (f : IpFamily) → (f ≡ ipv4 → A) → (f ≡ ipv6 → A) → A
family_cases ipv4 four six = four refl
family_cases ipv6 four six = six refl

block_reason-IsClear :
    (ip : ParsedIp) (ranges : List CidrRange)
    → All IsAligned ranges
    → (block_reason ip ranges ≡ none) ↔ IsClear ranges ip
unfolding block_reason
block_reason-IsClear ip ranges al =
    let built_in = find_reason-none built_in_ranges ip built_in-IsAligned in
    let inside = contains-InRange global_unicast ip refl in
    let outside = in_any-false ranges ip al in
    (
      λ h. record {
        not_built_in = built_in.0 (ground (arith, h));
        not_configured = outside.0 (ground (arith, h));
        unicast = λ six. inside.0 (ground (arith, h, six));
      },
      λ c.
          let free : find_reason built_in_ranges ip ≡ none = built_in.1 (c.not_built_in) in
          let apart : in_any ranges ip ≡ false = outside.1 (c.not_configured) in
          family_cases (ip.family) (λ four. ground (arith, free, apart, four))
            (λ six. ground (arith, free, apart, six, inside.1 (c.unicast six))),
    )

pub blocked_addresses-IsClear :
    (ips : List ParsedIp) (ranges : List CidrRange)
    → All IsAligned ranges
    → (blocked_addresses ips ranges ≡ []) ↔ All (IsClear ranges) ips
unfolding blocked_addresses
blocked_addresses-IsClear [] ranges al = (λ h. tt, λ h. refl)
blocked_addresses-IsClear (ip ∷ ips) ranges al =
    ground (arith, block_reason-IsClear ip ranges al, blocked_addresses-IsClear ips ranges al)

same_key_fields :
    (a b : ParsedIp) → same_key a b ≡ true → (b.family ≡ a.family) × (a.value ≡ b.value)
same_key_fields a b h =
    let (fam, val) = and-eq-true _ _ h in (same_family_sound _ _ fam, (==_iff _ _).0 val)

InRange-same_key :
    (r : CidrRange) (a b : ParsedIp)
    → a.family ≡ b.family
    → a.value ≡ b.value
    → InRange r b
    → InRange r a
InRange-same_key r a b family value i = record {
  family = family ∙ i.family;
  from = rw value (i.from);
  below = rw value (i.below);
}

-- The texts, each parsed to an address that is clear.
abbrev pub ClearItem : List CidrRange → Value → Type 0
ClearItem ranges item =
    (t : Text) × (ip : ParsedIp) × (item ≡ string t) × (parse_ip t ≡ some ip) × IsClear ranges ip

IsClear-same_key :
    (ranges : List CidrRange) (a b : ParsedIp)
    → same_key a b ≡ true
    → IsClear ranges a
    → IsClear ranges b
IsClear-same_key ranges a b h c =
    let (family, value) = same_key_fields a b h in
    let back = λ (r : CidrRange). InRange-same_key r a b (sym family) value in
    record {
      not_built_in =
          All-map _ _ (λ r out inside. out (back (r.0) inside)) built_in_ranges (c.not_built_in);
      not_configured = All-map _ _ (λ r out inside. out (back r inside)) ranges (c.not_configured);
      unicast = λ six.
          InRange-same_key global_unicast b a family (sym value) (c.unicast (sym family ∙ six));
    }

module _ (P : ParsedIp → Type 0)
    (respects : (a b : ParsedIp) → same_key a b ≡ true → P a → P b) where
  set_unique-All :
      (ip : ParsedIp) (us : List ParsedIp) → All P (set_unique ip us) ↔ (P ip × All P us)
  unfolding set_unique
  set_unique-All ip [] = (λ h. h, λ h. h)
  set_unique-All ip (u ∷ us) = ground (arith, respects ip u, set_unique-All ip us)

  unique_from-All :
      (found ips : List ParsedIp) → All P (unique_from found ips) ↔ (All P found × All P ips)
  unfolding unique_from
  unique_from-All found [] = (λ h. (h, tt), λ h. h.0)
  unique_from-All found (ip ∷ ips) =
      ground (arith, unique_from-All (set_unique ip found) ips, set_unique-All ip found)

pub parse_all-cons :
    (t : Text) (items : List Value) (ips : List ParsedIp)
    → parse_all (string t ∷ items) ≡ some ips
    → (ip : ParsedIp) × (rest : List ParsedIp) × (parse_ip t ≡ some ip)
      × (parse_all items ≡ some rest)
      × (ips ≡ ip ∷ rest)
unfolding parse_all
parse_all-cons t items ips h =
    let (ip, parsed, k) = >>=-eq-some (parse_ip t) _ h in
    let (rest, parsed_rest, same) = >>=-eq-some (parse_all items) _ k in
    (ip, rest, parsed, parsed_rest, cc)

parse_all-ClearItem :
    (ranges : List CidrRange) (items : List Value)
    → ((ips : List ParsedIp) × (parse_all items ≡ some ips) × All (IsClear ranges) ips)
      ↔ All (ClearItem ranges) items
unfolding parse_all
parse_all-ClearItem ranges [] = (λ h. tt, λ h. ([], refl, tt))
parse_all-ClearItem ranges (string t ∷ items) = (
  λ (ips, e, clear).
      let (ip, rest, parsed, parsed_rest, same) = parse_all-cons t items ips e in
      let both : All (IsClear ranges) (ip ∷ rest) = rw same at clear in
      (
        (t, ip, refl, parsed, both.0),
        (parse_all-ClearItem ranges items).0 (rest, parsed_rest, both.1),
      ),
  λ ((u, ip, e, parsed, clear), later).
      let (rest, parsed_rest, all_clear) = (parse_all-ClearItem ranges items).1 later in
      (ip ∷ rest, ground (arith, e, parsed, parsed_rest), (clear, all_clear)),
)
parse_all-ClearItem ranges (_ ∷ items) = (λ (ips, e, _). cc, λ ((t, ip, e, _, _), _). cc)

-- The set is accepted, with some list of addresses.
abbrev pub IsAccepted : ResolvedAddressSet → Type 0
IsAccepted result = (addresses : List ValidatedIpAddress) × (result ≡ accepted addresses)

judge-IsAccepted :
    (unique : List ParsedIp) (blocked : List BlockedIpAddress)
    → IsAccepted (judge unique blocked) ↔ (blocked ≡ [])
judge-IsAccepted unique [] = (λ h. refl, λ h. (validated unique, refl))
judge-IsAccepted unique (b ∷ bs) = (λ (_, e). cc, λ h. cc)

-- What the loops on the parsed addresses come to.
unique_from-IsClear :
    (ranges : List CidrRange) (parsed : List ParsedIp)
    → All IsAligned ranges
    → (blocked_addresses (unique_from [] parsed) ranges ≡ []) ↔ All (IsClear ranges) parsed
unique_from-IsClear ranges parsed aligned = ground (
  arith,
  blocked_addresses-IsClear (unique_from [] parsed) ranges aligned,
  unique_from-All (IsClear ranges) (IsClear-same_key ranges) [] parsed,
)

abbrev pub AllClear : Value → List Value → Type 0
AllClear configured items =
    (ranges : List CidrRange) × (configured_ranges configured ≡ some ranges)
    × All (ClearItem ranges) items

classify_items-AllClear :
    (items : List Value) (configured : Value)
    → IsAccepted (classify_items items configured) ↔ AllClear configured items
unfolding classify_items
classify_items-AllClear items configured = (
  λ (addresses, h). elim (Option-cases (configured_ranges configured)) [
    | inl e ↦ ground (arith, h, e)
    | inr (ranges, e) ↦ elim (Option-cases (parse_all items)) [
      | inl f ↦ ground (arith, h, e, f)
      | inr (parsed, f) ↦
          let aligned = configured_ranges-IsAligned configured ranges e in
          let none_blocked =
            (judge-IsAccepted (unique_from [] parsed)
                (blocked_addresses (unique_from [] parsed) ranges)).0
              (addresses, ground (arith, e, f, h)) in
          let clear = (unique_from-IsClear ranges parsed aligned).0 none_blocked in
          (ranges, e, (parse_all-ClearItem ranges items).0 (parsed, f, clear))
    ]
  ],
  λ (ranges, e, clear).
      let aligned = configured_ranges-IsAligned configured ranges e in
      let (parsed, f, clear_ips) = (parse_all-ClearItem ranges items).1 clear in
      let none_blocked = (unique_from-IsClear ranges parsed aligned).1 clear_ips in
      let (addresses, g) = (judge-IsAccepted (unique_from [] parsed) _).1 none_blocked in
      (addresses, ground (arith, e, f, g)),
)

-- A set of addresses is accepted if and only if it is an array of 1 to 64 entries, the configured
-- ranges are well-formed, and every single entry is a text of an address that lies in none of the
-- built-in and none of the configured intervals and, for IPv6, lies in 2000::/3. One entry that is
-- forbidden or no address refuses the whole set.
pub IsAccepted-iff :
    (items : Values) (configured : Value)
    → IsAccepted (classify_resolved_address_set (array items) configured) ↔ (
        (1 ≤ length (values items))
        × (length (values items) ≤ 64)
        × AllClear configured (values items))
unfolding classify_resolved_address_set
IsAccepted-iff items configured = ground (arith, classify_items-AllClear (values items) configured)
