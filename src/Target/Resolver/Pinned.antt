-- ===== src/Target/Resolver/Pinned.antt =====
-- What a resolved target promises.
use outscan.Prelude.{
  ℕ, ◌≤◌, ◌+◌, ◌*◌, ◌≡◌, refl, Bool, true, false, Option, none, some, List, [], ◌∷◌, arith, All,
  All-map, Any, min, sym, ap, ◌∙◌, inl, inr, ◌⊎◌, ◌||◌, ◌++◌,
}
use mathlib.Core.Path.{subst}
use outscan.Js.{Text, Value, string, array, values, max_safe_integer, text_eq_sound}
use outscan.Target.IpText.{ipv4, ipv6, ParsedIp, CidrRange, parse_ip}
use outscan.Target.IpText.Written.{parse_ip-stable}
use outscan.Target.IpPolicy.{
  ValidatedIpAddress, ResolvedAddressSet, accepted, classify_resolved_address_set,
  configured_ranges,
}
use outscan.Target.IpPolicy.FailClosed.{IsClear}
use outscan.Target.IpPolicy.Written.{WrittenFrom, accepted-WrittenFrom}
use outscan.Target.Hostname.{
  CanonicalHostname, canonical, rejected, HostnameRejectionCode, canonicalize_hostname,
}
use outscan.Target.Hostname.Shape.{IsDnsName, canonicalize_hostname-IsDnsName}
use outscan.Target.Resolver.{
  DnsAnswers, DnsAddressRecord, ResolvedTarget, resolved, check_host, decide_addresses,
  classify_records, classify_families, resolve_answers, resolve_and_classify_hostname,
  address_values, minimum_ttl, records_of, query_state, is_not_found,
}

-- The record's text and the text of this address are those of one and the same address, and it is clear.
abbrev pub FromRecord : List CidrRange → ValidatedIpAddress → DnsAddressRecord → Type 0
FromRecord ranges v r =
    (ip : ParsedIp) × (parse_ip r.address ≡ some ip)
    × (parse_ip v.address ≡ some ip)
    × (v.family ≡ ip.family)
    × IsClear ranges ip

-- The target of a lookup: of the host that was asked for, whose name is a DNS name, at the time of
-- the lookup, for as long as the shortest time to live says, with addresses that are those of records
-- in these answers and clear of the forbidden ranges.
pub record IsPinned (host : Text) (answers : DnsAnswers) (configured : Value) (now : ℕ)
    (target : ResolvedTarget) : Type 0 where
  pub dns_name : IsDnsName host
  pub of_host : target.canonical_host ≡ host
  pub resolved_at : target.resolved_at_unix_ms ≡ now
  pub expires : target.expires_at_unix_ms ≡ now + target.minimum_ttl_seconds * 1000
  pub safe : target.expires_at_unix_ms ≤ max_safe_integer
  pub records4 : List DnsAddressRecord
  pub records6 : List DnsAddressRecord
  pub answered4 : records_of ipv4 answers.resolve4 ≡ some records4
  pub answered6 : records_of ipv6 answers.resolve6 ≡ some records6
  pub shortest : All (λ r. target.minimum_ttl_seconds ≤ r.ttl) (records4 ++ records6)
  pub reached : Any (λ r. r.ttl ≡ target.minimum_ttl_seconds) (records4 ++ records6)
  pub ranges : List CidrRange
  pub ranges_configured : configured_ranges configured ≡ some ranges
  pub clear : All (λ v. Any (FromRecord ranges v) (records4 ++ records6)) target.addresses

min_cases : (m n : ℕ) → (min m n ≡ m) ⊎ (min m n ≡ n)
min_cases m n = ground arith

minimum_ttl-shortest :
    (least : ℕ) (rs : List DnsAddressRecord)
    → (minimum_ttl least rs ≤ least) × All (λ r. minimum_ttl least rs ≤ r.ttl) rs
minimum_ttl-shortest least [] = (omega arith, tt)
minimum_ttl-shortest least (r ∷ rs) =
    let (below, rest) = minimum_ttl-shortest (min least r.ttl) rs in
    (omega (arith, below), (omega (arith, below), rest))

minimum_ttl-reached :
    (least : ℕ) (rs : List DnsAddressRecord)
    → (minimum_ttl least rs ≡ least) ⊎ Any (λ r. r.ttl ≡ minimum_ttl least rs) rs
minimum_ttl-reached least [] = inl refl
minimum_ttl-reached least (r ∷ rs) = elim (minimum_ttl-reached (min least r.ttl) rs) [
  | inr later ↦ inr (inr later)
  | inl same ↦ elim (min_cases least r.ttl) [
    | inl e ↦ inl (same ∙ e)
    | inr e ↦ inr (inl (sym (same ∙ e)))
  ]
]

IsTextOf-record :
    (ranges : List CidrRange) (v : ValidatedIpAddress) (records : List DnsAddressRecord)
    → Any (WrittenFrom ranges v) (values (address_values records))
    → Any (FromRecord ranges v) records
IsTextOf-record ranges v [] h = absurd h
IsTextOf-record ranges v (r ∷ rs) (inl (ip, (t, same, parsed), address, family, clear)) =
    let text : r.address ≡ t = cc in
    let read = ap parse_ip text ∙ parsed in
    inl (ip, read, ap parse_ip address ∙ parse_ip-stable r.address ip read, family, clear)
IsTextOf-record ranges v (r ∷ rs) (inr h) = inr (IsTextOf-record ranges v rs h)

WrittenFrom-records :
    (ranges : List CidrRange) (records : List DnsAddressRecord) (vs : List ValidatedIpAddress)
    → All (λ v. Any (WrittenFrom ranges v) (values (address_values records))) vs
    → All (λ v. Any (FromRecord ranges v) records) vs
WrittenFrom-records ranges records vs =
    All-map (λ v. Any (WrittenFrom ranges v) (values (address_values records)))
      (λ v. Any (FromRecord ranges v) records) (λ v. IsTextOf-record ranges v records) vs

-- What is said of a target, with the records and the set that was classified.
abbrev Classified :
    Text → Value → ℕ → ResolvedTarget → List DnsAddressRecord → ResolvedAddressSet → Type 0
Classified host configured now target records decision =
    (target.canonical_host ≡ host)
    × (target.resolved_at_unix_ms ≡ now)
    × (target.expires_at_unix_ms ≡ now + target.minimum_ttl_seconds * 1000)
    × (target.expires_at_unix_ms ≤ max_safe_integer)
    × All (λ r. target.minimum_ttl_seconds ≤ r.ttl) records
    × Any (λ r. r.ttl ≡ target.minimum_ttl_seconds) records
    × (decision ≡ accepted target.addresses)

decide_addresses-Classified :
    (host : Text) (configured : Value) (now ttl : ℕ) (records : List DnsAddressRecord)
    (decision : ResolvedAddressSet) (target : ResolvedTarget)
    → All (λ r. ttl ≤ r.ttl) records
    → Any (λ r. r.ttl ≡ ttl) records
    → decide_addresses host now ttl decision ≡ resolved target
    → Classified host configured now target records decision
decide_addresses-Classified host configured now ttl records (accepted addresses) target s m h =
    let same : ttl ≡ target.minimum_ttl_seconds = ground (arith, h) in
    (
      ground (arith, h),
      ground (arith, h),
      ground (arith, h),
      ground (arith, h),
      subst (λ n. All (λ r. n ≤ r.ttl) records) same s,
      subst (λ n. Any (λ r. r.ttl ≡ n) records) same m,
      ground (arith, h),
    )
decide_addresses-Classified host configured now ttl records _ target s m h = ground (arith, h)

classify_records-Classified :
    (host : Text) (configured : Value) (now : ℕ) (missing : Bool) (records : List DnsAddressRecord)
    (target : ResolvedTarget)
    → classify_records host configured now missing records ≡ resolved target
    → Classified host configured now target records
        (classify_resolved_address_set (array (address_values records)) configured)
unfolding classify_records
classify_records-Classified host configured now missing [] target h = ground (arith, h)
classify_records-Classified host configured now true (r ∷ rs) target h = ground (arith, h)
classify_records-Classified host configured now false (r ∷ rs) target h =
    decide_addresses-Classified host configured now (minimum_ttl r.ttl rs) (r ∷ rs)
      (classify_resolved_address_set (array (address_values (r ∷ rs))) configured) target
      (minimum_ttl-shortest r.ttl rs)
      (elim (minimum_ttl-reached r.ttl rs) [ inl e ↦ inl (sym e) | inr later ↦ inr later ]) h

classify_families-Classified :
    (host : Text) (configured : Value) (now : ℕ) (missing : Bool)
    (v4 v6 : Option (List DnsAddressRecord)) (target : ResolvedTarget)
    → classify_families host configured now missing v4 v6 ≡ resolved target
    → (r4 r6 : List DnsAddressRecord) × (v4 ≡ some r4)
      × (v6 ≡ some r6)
      × Classified host configured now target
          (r4 ++ r6)
          (classify_resolved_address_set (array (address_values (r4 ++ r6))) configured)
classify_families-Classified host configured now missing none v6 target h = ground (arith, h)
classify_families-Classified host configured now missing (some v4) none target h = ground (arith, h)
classify_families-Classified host configured now missing (some v4) (some v6) target h = (
  v4,
  v6,
  refl,
  refl,
  classify_records-Classified host configured now missing (v4 ++ v6) target h,
)

CanonicalHostname-cases :
    (r : CanonicalHostname)
    → ((name : Text) × (r ≡ canonical name))
      ⊎ ((code : HostnameRejectionCode) × (r ≡ rejected code))
CanonicalHostname-cases (canonical name) = inl (name, refl)
CanonicalHostname-cases (rejected code) = inr (code, refl)

check_host-IsDnsName :
    (domain_to_ascii : Text → Option Text) (host : Text)
    → check_host host (canonicalize_hostname domain_to_ascii (string host)) ≡ true
    → IsDnsName host
check_host-IsDnsName domain_to_ascii host h =
    elim (CanonicalHostname-cases (canonicalize_hostname domain_to_ascii (string host))) [
      | inl (name, e) ↦
          let same : name ≡ host = text_eq_sound name host (ground (arith, h, e)) in
          rw same at (canonicalize_hostname-IsDnsName domain_to_ascii (string host) name e)
      | inr (code, e) ↦ ground (arith, h, e)
    ]

-- Every target that a lookup yields is of the very host that was asked for, which is a DNS name. Each
-- of its addresses is a text of the same address as the text of a record in the answers, and that address
-- lies outside of the built-in and the configured ranges. The target expires when the shortest time to
-- live of all records does, counted from the time of the lookup. This holds whatever the DNS servers
-- answer.
pub resolve-IsPinned :
    (domain_to_ascii : Text → Option Text) (host : Text) (answers : DnsAnswers) (configured : Value)
    (now : ℕ) (target : ResolvedTarget)
    → resolve_and_classify_hostname domain_to_ascii host answers configured now ≡ resolved target
    → IsPinned host answers configured now target
unfolding resolve_and_classify_hostname resolve_answers
resolve-IsPinned domain_to_ascii host answers configured now target h =
    let name = check_host-IsDnsName domain_to_ascii host (ground (arith, h)) in
    let state4 = query_state answers.resolve4 in
    let state6 = query_state answers.resolve6 in
    let (r4, r6, is4, is6, (of_host, at, expires, safe, shortest, reached, e)) =
      classify_families-Classified host configured now (is_not_found state4 || is_not_found state6)
        (records_of ipv4 answers.resolve4) (records_of ipv6 answers.resolve6) target
        (ground (arith, h)) in
    let (ranges, r, clear) =
      accepted-WrittenFrom (address_values (r4 ++ r6)) configured target.addresses e in
    record {
      dns_name = name;
      of_host = of_host;
      resolved_at = at;
      expires = expires;
      safe = safe;
      records4 = r4;
      records6 = r6;
      answered4 = is4;
      answered6 = is6;
      shortest = shortest;
      reached = reached;
      ranges = ranges;
      ranges_configured = r;
      clear = WrittenFrom-records ranges (r4 ++ r6) target.addresses clear;
    }
