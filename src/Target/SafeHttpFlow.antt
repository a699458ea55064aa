-- ===== src/Target/SafeHttpFlow.antt =====
-- Requests with retries and redirects: apps/api/src/target/safe-http-flow.ts, with
-- `parsePinnedTransportLimits` and `isValidOriginFormPath`. The DNS answers, the clock and the
-- transport are arguments, as they are dependencies of the source: functions of the turn of the
-- loop, so that each may answer differently every time. `new URL` is one too.
pub mod Redirect
pub mod Loop
pub mod Turns
pub mod Bounded
pub mod Requests
pub mod Safe
mod Tests
use outscan.Prelude.{
  ℕ, zero, suc, ◌+◌, ◌-◌, ◌*◌, ◌%◌, Bool, true, false, not, ◌&&◌, ◌||◌, Option, none, some, List,
  [], ◌∷◌, ltb, leb, ◌==◌, if◌then◌else◌, length, all, any, min, get_elem?, ◌>>=◌, ◌>>◌, guard,
  String,
}
use outscan.Js.{
  Text, Value, string, number, Entries, exact_record, get, codes, text_eq, max_safe_integer,
}
use outscan.Js.Patterns.{is_graphic, strip_prefix}
use outscan.Target.IpPolicy.{ValidatedIpAddress}
use outscan.Target.Hostname.{CanonicalHostname, canonical, canonicalize_hostname}
use outscan.Target.Resolver.{
  DnsAnswers, ResolvedTarget, ResolveFailure, dns_lookup_failed, ResolveTargetResult, resolved,
  unresolved, resolve_and_classify_hostname, check_host,
}

abbrev pub max_redirects_allowed : ℕ
max_redirects_allowed = 5

abbrev pub max_retries_allowed : ℕ
max_retries_allowed = 2

abbrev pub max_total_response_bytes_allowed : ℕ
max_total_response_bytes_allowed = 201326592

pub record PinnedTransportLimits : Type 0 where
  pub timeout_ms : ℕ
  pub max_response_bytes : ℕ
  pub max_header_pairs : ℕ
  pub max_header_bytes : ℕ

abbrev limit_keys : List String
limit_keys = "timeout_ms" ∷ "max_response_bytes" ∷ "max_header_pairs" ∷ "max_header_bytes" ∷ []

abbrev pub bounded_integer : ℕ → ℕ → Value → Option ℕ
bounded_integer minimum maximum (number n) =
    if leb minimum n && leb n maximum && leb n max_safe_integer then some n else none
bounded_integer minimum maximum _ = none

abbrev check_limits : Entries → Option PinnedTransportLimits
check_limits es = do
  timeout ← bounded_integer 100 30000 (get "timeout_ms" es)
  response ← bounded_integer 1 2097152 (get "max_response_bytes" es)
  pairs ← bounded_integer 1 100 (get "max_header_pairs" es)
  header_bytes ← bounded_integer 1 65536 (get "max_header_bytes" es)
  some (record {
    timeout_ms = timeout;
    max_response_bytes = response;
    max_header_pairs = pairs;
    max_header_bytes = header_bytes;
  })

unfoldable pub parse_pinned_transport_limits : Value → Option PinnedTransportLimits
parse_pinned_transport_limits v = exact_record limit_keys v >>= check_limits

pub data Protocol : Type 0 where
  http https : Protocol

pub data Method : Type 0 where
  get_method head_method : Method

pub record CurrentRequest : Type 0 where
  pub protocol : Protocol
  pub method : Method
  pub path : Text

pub record SafeHttpFlowInput : Type 0 where
  pub canonical_host : Text
  pub request : CurrentRequest
  pub deadline_unix_ms : ℕ
  pub max_redirects : ℕ
  pub max_retries : ℕ
  pub max_total_response_bytes : ℕ
  pub transport_limits : PinnedTransportLimits

abbrev starts_with : Text → Text → Bool
starts_with prefix t = elim (strip_prefix prefix t) [ none ↦ false | some rest ↦ true ]

unfoldable pub is_valid_origin_form_path : Text → Bool
unfolding strip_prefix
is_valid_origin_form_path t =
    leb 1 (length t)
    && leb (length t) 2048
    && starts_with (codes "/") t
    && not (starts_with (codes "//") t)
    && not (any (λ c. c == b'#' || c == b'\\') t)
    && all is_graphic t

abbrev pub as_protocol : Value → Option Protocol
as_protocol (string t) =
    if text_eq t (codes "http:")
    then some http
    else (if text_eq t (codes "https:") then some https else none)
as_protocol _ = none

abbrev pub as_method : Value → Option Method
as_method (string t) =
    if text_eq t (codes "GET")
    then some get_method
    else (if text_eq t (codes "HEAD") then some head_method else none)
as_method _ = none

abbrev pub as_path : Value → Option Text
as_path (string t) = if is_valid_origin_form_path t then some t else none
as_path _ = none

abbrev pub as_canonical_host : (Text → Option Text) → Value → Option Text
as_canonical_host domain_to_ascii (string t) =
    if check_host t (canonicalize_hostname domain_to_ascii (string t)) then some t else none
as_canonical_host domain_to_ascii _ = none

abbrev input_keys : List String
input_keys =
    "canonical_host" ∷ "protocol" ∷ "method" ∷ "path" ∷ "deadline_unix_ms" ∷ "max_redirects"
    ∷ "max_retries" ∷ "max_total_response_bytes" ∷ "transport_limits" ∷ []

abbrev pub check_input : (Text → Option Text) → Entries → Option SafeHttpFlowInput
check_input domain_to_ascii es = do
  host ← as_canonical_host domain_to_ascii (get "canonical_host" es)
  transport_limits ← parse_pinned_transport_limits (get "transport_limits" es)
  protocol ← as_protocol (get "protocol" es)
  method ← as_method (get "method" es)
  path ← as_path (get "path" es)
  deadline ← bounded_integer 0 max_safe_integer (get "deadline_unix_ms" es)
  redirects ← bounded_integer 0 max_redirects_allowed (get "max_redirects" es)
  retries ← bounded_integer 0 max_retries_allowed (get "max_retries" es)
  total ← bounded_integer 1 max_total_response_bytes_allowed (get "max_total_response_bytes" es)
  guard (leb transport_limits.max_response_bytes total)
  some (record {
    canonical_host = host;
    request = record { protocol = protocol; method = method; path = path };
    deadline_unix_ms = deadline;
    max_redirects = redirects;
    max_retries = retries;
    max_total_response_bytes = total;
    transport_limits = transport_limits;
  })

unfoldable pub parse_input : (Text → Option Text) → Value → Option SafeHttpFlowInput
parse_input domain_to_ascii v = exact_record input_keys v >>= check_input domain_to_ascii
