-- ===== src/Target/Resolver.antt =====
-- Resolution: apps/api/src/target/resolver.ts. What the two DNS queries settle with are arguments:
-- the records, or the error's code.
pub mod Pinned
use outscan.Prelude.{
  ℕ, ◌+◌, ◌*◌, Bool, true, false, not, ◌&&◌, ◌||◌, Option, none, some, List, [], ◌∷◌, ◌++◌, map,
  ltb, leb, ◌==◌, if◌then◌else◌, length, min, ◌>>=◌, ◌>>◌, guard, String,
}
use outscan.Js.{
  Text, Value, Values, string, array, cons, nil, values, Entries, exact_record, get, codes, text_eq,
  number, max_safe_integer,
}
use outscan.Target.IpText.{IpFamily, ipv4, ipv6, is_ipv4}
use outscan.Target.IpPolicy.{
  ValidatedIpAddress, ResolvedAddressSet, accepted, classify_resolved_address_set,
}
use outscan.Target.Hostname.{CanonicalHostname, canonical, canonicalize_hostname, is_ip}

abbrev pub max_records_per_family : ℕ
max_records_per_family = 64

abbrev pub max_dns_ttl_seconds : ℕ
max_dns_ttl_seconds = 4294967295

pub data QueryOutcome : Type 0 where
  fulfilled : Value → QueryOutcome
  failed_with : Option Text → QueryOutcome  -- the error's code, where it has one

pub record DnsAnswers : Type 0 where
  pub resolve4 : QueryOutcome
  pub resolve6 : QueryOutcome

pub record ResolvedTarget : Type 0 where
  pub canonical_host : Text
  pub minimum_ttl_seconds : ℕ
  pub resolved_at_unix_ms : ℕ
  pub expires_at_unix_ms : ℕ
  pub addresses : List ValidatedIpAddress

pub data ResolveFailure : Type 0 where
  invalid_canonical_host dns_lookup_failed host_not_found inconsistent_dns_response
        invalid_dns_response no_address_records invalid_resolution_time :
      ResolveFailure
  destination_policy_rejected : ResolvedAddressSet → ResolveFailure

pub data ResolveTargetResult : Type 0 where
  resolved : ResolvedTarget → ResolveTargetResult
  unresolved : ResolveFailure → ResolveTargetResult

pub record DnsAddressRecord : Type 0 where
  pub address : Text
  pub ttl : ℕ

abbrev record_keys : List String
record_keys = "address" ∷ "ttl" ∷ []

-- `isIP(address) === expectedFamily`.
abbrev pub has_family : IpFamily → Text → Bool
has_family ipv4 t = is_ipv4 t
has_family ipv6 t = is_ip t && not (is_ipv4 t)

abbrev pub as_ttl : Value → Option ℕ
as_ttl (number n) = if leb n max_dns_ttl_seconds then some n else none
as_ttl _ = none

abbrev pub as_address : IpFamily → Value → Option Text
as_address family (string t) =
    if not (length t == 0) && leb (length t) 64 && has_family family t then some t else none
as_address family _ = none

abbrev pub parse_record : IpFamily → Value → Option DnsAddressRecord
parse_record family value = do
  es ← exact_record record_keys value
  address ← as_address family (get "address" es)
  ttl ← as_ttl (get "ttl" es)
  some (record { address = address; ttl = ttl })

unfoldable pub parse_each : IpFamily → List Value → Option (List DnsAddressRecord)
parse_each family [] = some []
parse_each family (v ∷ vs) = do
  head ← parse_record family v
  rest ← parse_each family vs
  some (head ∷ rest)

unfoldable pub parse_records : IpFamily → Value → Option (List DnsAddressRecord)
unfolding parse_each
parse_records family (array items) =
    if ltb max_records_per_family (length (values items))
    then none
    else parse_each family (values items)
parse_records family _ = none

pub data QueryState : Type 0 where
  has_data no_data not_found broken : QueryState

abbrev pub query_state : QueryOutcome → QueryState
query_state (fulfilled v) = has_data
query_state (failed_with none) = broken
query_state (failed_with (some code)) =
    if text_eq code (codes "ENODATA")
    then no_data
    else (if text_eq code (codes "ENOTFOUND") then not_found else broken)

abbrev pub is_broken : QueryState → Bool
is_broken broken = true
is_broken _ = false

abbrev pub is_not_found : QueryState → Bool
is_not_found not_found = true
is_not_found _ = false

abbrev pub records_of : IpFamily → QueryOutcome → Option (List DnsAddressRecord)
records_of family (fulfilled v) = parse_records family v
records_of family (failed_with code) = some []

abbrev pub address_values : List DnsAddressRecord → Values
address_values [] = nil
address_values (r ∷ rs) = cons (string r.address) (address_values rs)

abbrev pub minimum_ttl : ℕ → List DnsAddressRecord → ℕ
minimum_ttl least [] = least
minimum_ttl least (r ∷ rs) = minimum_ttl (min least r.ttl) rs

abbrev pub pin_target : Text → ℕ → ℕ → List ValidatedIpAddress → ResolveTargetResult
pin_target host now ttl addresses =
    if ltb max_safe_integer (now + ttl * 1000)
    then unresolved invalid_resolution_time
    else resolved (record {
      canonical_host = host;
      minimum_ttl_seconds = ttl;
      resolved_at_unix_ms = now;
      expires_at_unix_ms = now + ttl * 1000;
      addresses = addresses;
    })

abbrev pub decide_addresses : Text → ℕ → ℕ → ResolvedAddressSet → ResolveTargetResult
decide_addresses host now ttl (accepted addresses) = pin_target host now ttl addresses
decide_addresses host now ttl refused = unresolved (destination_policy_rejected refused)

unfoldable pub classify_records :
    Text → Value → ℕ → Bool → List DnsAddressRecord → ResolveTargetResult
classify_records host configured now missing [] =
    if missing then unresolved host_not_found else unresolved no_address_records
classify_records host configured now missing (r ∷ rs) =
    if missing
    then unresolved inconsistent_dns_response
    else decide_addresses host now (minimum_ttl r.ttl rs)
        (classify_resolved_address_set (array (address_values (r ∷ rs))) configured)

abbrev pub classify_families :
    Text
    → Value
    → ℕ
    → Bool
    → Option (List DnsAddressRecord)
    → Option (List DnsAddressRecord)
    → ResolveTargetResult
classify_families host configured now missing none v6 = unresolved invalid_dns_response
classify_families host configured now missing (some v4) none = unresolved invalid_dns_response
classify_families host configured now missing (some v4) (some v6) =
    classify_records host configured now missing (v4 ++ v6)

unfoldable pub resolve_answers : Text → DnsAnswers → Value → ℕ → ResolveTargetResult
resolve_answers host answers configured now =
    let state4 = query_state answers.resolve4 in
    let state6 = query_state answers.resolve6 in
    if is_broken state4 || is_broken state6
    then unresolved dns_lookup_failed
    else classify_families host configured now (is_not_found state4 || is_not_found state6)
        (records_of ipv4 answers.resolve4) (records_of ipv6 answers.resolve6)

abbrev pub check_host : Text → CanonicalHostname → Bool
check_host host (canonical h) = text_eq h host
check_host host _ = false

-- The clock is a safe integer, as the callers read it.
unfoldable pub resolve_and_classify_hostname :
    (Text → Option Text) → Text → DnsAnswers → Value → ℕ → ResolveTargetResult
resolve_and_classify_hostname domain_to_ascii host answers configured now =
    if not (check_host host (canonicalize_hostname domain_to_ascii (string host)))
    then unresolved invalid_canonical_host
    else (if ltb max_safe_integer now
        then unresolved invalid_resolution_time
        else resolve_answers host answers configured now)
