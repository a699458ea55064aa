-- ===== src/ScannerPolicy.antt =====
-- What a scanner may be asked to do: apps/api/src/scanner-policy. Profiles are a data type; a
-- capability stays the text that the request spells it with. A denial's message goes with its branch
-- and is left out.
pub mod Authorized
pub mod Complete
mod Tests
use outscan.Prelude.{
  ℕ, Bool, true, false, not, ◌&&◌, ◌||◌, Option, none, some, List, [], ◌∷◌, ◌++◌, map, leb, ◌==◌,
  if◌then◌else◌, all, ◌>>=◌, String,
}
use outscan.Js.{
  text_in, Text, Value, string, number, array, values, Entries, exact_record, get, codes, text_eq,
  as_safe_natural,
}

abbrev pub baseline_capabilities : List Text
baseline_capabilities = map codes (
    "DNS_READ" ∷ "RDAP_READ" ∷ "PASSIVE_CT_READ" ∷ "TLS_HANDSHAKE" ∷ "HTTP_GET_HEAD"
    ∷ "SAME_HOST_REDIRECT" ∷ "HTTP_HEADER_OBSERVE" ∷ "TECH_FINGERPRINT_SAFE" ∷ [])

abbrev pub verified_capabilities : List Text
verified_capabilities =
    baseline_capabilities ++ map codes ("NUCLEI_SAFE_HTTP" ∷ "BOUNDED_SAME_ORIGIN_CRAWL" ∷ [])

abbrev pub known_capabilities : List Text
known_capabilities =
    verified_capabilities
    ++ map codes (
        "HEADLESS_BROWSER" ∷ "HTTP_STATE_CHANGE" ∷ "AUTHENTICATED_REQUEST" ∷ "OOB_CALLBACK"
        ∷ "JAVASCRIPT_TEMPLATE" ∷ "CODE_EXECUTION" ∷ "FUZZING" ∷ "BRUTE_FORCE" ∷ "RAW_TCP"
        ∷ "PORT_ENUMERATION" ∷ "PAYLOAD_GENERATION" ∷ "DESTRUCTIVE" ∷ "UNKNOWN" ∷ [])

pub data Profile : Type 0 where
  guest_safe verified_baseline controlled_deep active : Profile

unfoldable pub allowed_capabilities : Profile → List Text
allowed_capabilities guest_safe = baseline_capabilities
allowed_capabilities verified_baseline = verified_capabilities
allowed_capabilities controlled_deep = verified_capabilities
allowed_capabilities active = []

pub record ScannerBudgets : Type 0 where
  pub hard_duration_seconds : ℕ
  pub max_requests : ℕ
  pub max_concurrency : ℕ
  pub max_redirects : ℕ
  pub max_response_bytes : ℕ
  pub max_total_response_bytes : ℕ
  pub max_output_bytes : ℕ
  pub max_crawl_urls : ℕ

-- BUDGET_CEILINGS, which has no entry for ACTIVE: that profile is denied before it is looked up.
unfoldable pub budget_ceiling : Profile → Option ScannerBudgets
budget_ceiling guest_safe = some (record {
  hard_duration_seconds = 30;
  max_requests = 40;
  max_concurrency = 4;
  max_redirects = 5;
  max_response_bytes = 1048576;
  max_total_response_bytes = 8388608;
  max_output_bytes = 2097152;
  max_crawl_urls = 0;
})
budget_ceiling verified_baseline = some (record {
  hard_duration_seconds = 120;
  max_requests = 300;
  max_concurrency = 8;
  max_redirects = 5;
  max_response_bytes = 2097152;
  max_total_response_bytes = 67108864;
  max_output_bytes = 12582912;
  max_crawl_urls = 100;
})
budget_ceiling controlled_deep = some (record {
  hard_duration_seconds = 300;
  max_requests = 1200;
  max_concurrency = 10;
  max_redirects = 5;
  max_response_bytes = 2097152;
  max_total_response_bytes = 201326592;
  max_output_bytes = 33554432;
  max_crawl_urls = 500;
})
budget_ceiling active = none

pub record ScannerExecutionRequest : Type 0 where
  pub profile : Profile
  pub requested_capabilities : List Text
  pub budgets : ScannerBudgets

pub data PolicyDenyCode : Type 0 where
  invalid_request policy_identity_mismatch profile_disabled unknown_capability capability_denied
        budget_exceeded :
      PolicyDenyCode

pub data PolicyDecision : Type 0 where
  authorized : ScannerExecutionRequest → PolicyDecision
  denied : PolicyDenyCode → PolicyDecision

abbrev pub as_profile : Value → Option Profile
as_profile (string t) =
    if text_eq t (codes "GUEST_SAFE")
    then some guest_safe
    else (if text_eq t (codes "VERIFIED_BASELINE")
        then some verified_baseline
        else (if text_eq t (codes "CONTROLLED_DEEP")
            then some controlled_deep
            else (if text_eq t (codes "ACTIVE") then some active else none)))
as_profile _ = none

unfoldable pub all_strings : List Value → Option (List Text)
all_strings [] = some []
all_strings (string t ∷ vs) = do ts ← all_strings vs; some (t ∷ ts)
all_strings (_ ∷ vs) = none

-- `new Set(snapshot).size === snapshot.length`.
unfoldable pub no_repeats : List Text → Bool
no_repeats [] = true
no_repeats (t ∷ ts) = not (text_in t ts) && no_repeats ts

pub data Capabilities : Type 0 where
  capabilities : List Text → Capabilities
  refused : PolicyDenyCode → Capabilities

abbrev pub check_names : Option (List Text) → Capabilities
check_names none = refused invalid_request
check_names (some ts) =
    if not (no_repeats ts)
    then refused invalid_request
    else (if not (all (λ t. text_in t known_capabilities) ts)
        then refused unknown_capability
        else capabilities ts)

unfoldable pub parse_capabilities : Value → Capabilities
unfolding all_strings no_repeats
parse_capabilities (array items) = check_names (all_strings (values items))
parse_capabilities _ = refused invalid_request

abbrev pub budget_keys : List String
budget_keys =
    "hard_duration_seconds" ∷ "max_requests" ∷ "max_concurrency" ∷ "max_redirects"
    ∷ "max_response_bytes" ∷ "max_total_response_bytes" ∷ "max_output_bytes" ∷ "max_crawl_urls" ∷ []

abbrev pub check_budgets : Entries → Option ScannerBudgets
check_budgets es = do
  duration ← as_safe_natural (get "hard_duration_seconds" es)
  requests ← as_safe_natural (get "max_requests" es)
  concurrency ← as_safe_natural (get "max_concurrency" es)
  redirects ← as_safe_natural (get "max_redirects" es)
  response ← as_safe_natural (get "max_response_bytes" es)
  total ← as_safe_natural (get "max_total_response_bytes" es)
  output ← as_safe_natural (get "max_output_bytes" es)
  crawl ← as_safe_natural (get "max_crawl_urls" es)
  some (record {
    hard_duration_seconds = duration;
    max_requests = requests;
    max_concurrency = concurrency;
    max_redirects = redirects;
    max_response_bytes = response;
    max_total_response_bytes = total;
    max_output_bytes = output;
    max_crawl_urls = crawl;
  })

unfoldable pub parse_budgets : Value → Option ScannerBudgets
parse_budgets v = exact_record budget_keys v >>= check_budgets

unfoldable pub is_capability_allowed : Profile → Text → Bool
is_capability_allowed profile capability =
    text_in capability known_capabilities && text_in capability (allowed_capabilities profile)

-- No budget is above its ceiling.
unfoldable pub within_budgets : ScannerBudgets → ScannerBudgets → Bool
within_budgets b ceiling =
    leb b.hard_duration_seconds ceiling.hard_duration_seconds
    && leb b.max_requests ceiling.max_requests
    && leb b.max_concurrency ceiling.max_concurrency
    && leb b.max_redirects ceiling.max_redirects
    && leb b.max_response_bytes ceiling.max_response_bytes
    && leb b.max_total_response_bytes ceiling.max_total_response_bytes
    && leb b.max_output_bytes ceiling.max_output_bytes
    && leb b.max_crawl_urls ceiling.max_crawl_urls

abbrev pub authorize_budgets :
    Profile → List Text → Option ScannerBudgets → Option ScannerBudgets → PolicyDecision
authorize_budgets profile names none ceiling = denied invalid_request
authorize_budgets profile names (some budgets) none = denied profile_disabled
authorize_budgets profile names (some budgets) (some ceiling) =
    if not (within_budgets budgets ceiling)
    then denied budget_exceeded
    else authorized
        (record { profile = profile; requested_capabilities = names; budgets = budgets })

abbrev pub authorize_capabilities : Entries → Profile → Capabilities → PolicyDecision
authorize_capabilities es profile (refused code) = denied code
authorize_capabilities es profile (capabilities names) =
    if not (all (is_capability_allowed profile) names)
    then denied capability_denied
    else authorize_budgets profile names (parse_budgets (get "budgets" es)) (budget_ceiling profile)

abbrev pub authorize_profile : Entries → Option Profile → PolicyDecision
authorize_profile es none = denied invalid_request
authorize_profile es (some active) = denied profile_disabled
authorize_profile es (some profile) =
    authorize_capabilities es profile (parse_capabilities (get "requested_capabilities" es))

abbrev is_text : String → Value → Bool
is_text expected (string t) = text_eq t (codes expected)
is_text expected _ = false

abbrev is_one : Value → Bool
is_one (number n) = n == 1
is_one _ = false

abbrev pub authorize_entries : Option Entries → PolicyDecision
authorize_entries none = denied invalid_request
authorize_entries (some es) =
    if not (is_one (get "schema_version" es))
      || not (is_text "outscan-v1" (get "policy_id" es))
      || not (is_text "1.0.0" (get "policy_version" es))
    then denied policy_identity_mismatch
    else authorize_profile es (as_profile (get "profile" es))

abbrev pub request_keys : List String
request_keys =
    "schema_version" ∷ "policy_id" ∷ "policy_version" ∷ "profile" ∷ "requested_capabilities"
    ∷ "budgets" ∷ []

unfoldable pub authorize_scanner_execution : Value → PolicyDecision
authorize_scanner_execution v = authorize_entries (exact_record request_keys v)
