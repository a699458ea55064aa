-- ===== src/ScannerPolicy/Tests.antt =====
-- Runs of apps/api/src/scanner-policy, and the theorems at concrete inputs.
use outscan.Prelude.{String, ℕ, ◌≡◌, refl, List, [], ◌∷◌}
use outscan.Js.{
  text_in, Value, Values, string, number, array, object, entry, end, cons, nil, codes, exact_record,
  get, text_eq,
}
use outscan.ScannerPolicy.{
  guest_safe, ScannerExecutionRequest, PolicyDecision, authorized, denied, invalid_request,
  capability_denied, unknown_capability, budget_exceeded, profile_disabled,
  policy_identity_mismatch, parse_capabilities, parse_budgets, is_capability_allowed,
  allowed_capabilities, within_budgets, budget_ceiling, authorize_scanner_execution,
}
use outscan.ScannerPolicy.Authorized.{authorize-IsGranted}
use outscan.ScannerPolicy.Complete.{request_value, IsGranted-authorized}

abbrev names : List String → Values
names [] = nil
names (s ∷ ss) = cons (string (codes s)) (names ss)

abbrev asked_budgets : ℕ → Value
asked_budgets requests = object (
    entry "hard_duration_seconds" (number 30) (
      entry "max_requests" (number requests) (
        entry "max_concurrency" (number 4) (
          entry "max_redirects" (number 5) (
            entry "max_response_bytes" (number 1000) (
              entry "max_total_response_bytes" (number 5000) (
                entry "max_output_bytes" (number 100) (entry "max_crawl_urls" (number 0) end))))))))

abbrev asked : String → String → List String → ℕ → Value
asked version profile wanted requests = object (
    entry "schema_version" (number 1) (
      entry "policy_id" (string (codes "outscan-v1")) (
        entry "policy_version" (string (codes version)) (
          entry "profile" (string (codes profile)) (
            entry "requested_capabilities" (array (names wanted))
              (entry "budgets" (asked_budgets requests) end))))))

abbrev decide : String → String → List String → ℕ → PolicyDecision
decide version profile wanted requests =
    authorize_scanner_execution (asked version profile wanted requests)

abbrev request : ScannerExecutionRequest
request = record {
  profile = guest_safe;
  requested_capabilities = codes "DNS_READ" ∷ codes "TLS_HANDSHAKE" ∷ [];
  budgets = record {
    hard_duration_seconds = 30;
    max_requests = 40;
    max_concurrency = 4;
    max_redirects = 5;
    max_response_bytes = 1000;
    max_total_response_bytes = 5000;
    max_output_bytes = 100;
    max_crawl_urls = 0;
  };
}

granted : decide "1.0.0" "GUEST_SAFE" ("DNS_READ" ∷ "TLS_HANDSHAKE" ∷ []) 40 ≡ authorized request
unfolding authorize_scanner_execution parse_capabilities parse_budgets is_capability_allowed
    allowed_capabilities within_budgets budget_ceiling exact_record get text_eq text_in
granted = refl

refusals :
    (decide "1.0.0" "GUEST_SAFE" ("NUCLEI_SAFE_HTTP" ∷ []) 40 ≡ denied capability_denied)
    × (decide "1.0.0" "GUEST_SAFE" ("EVERYTHING" ∷ []) 40 ≡ denied unknown_capability)
    × (decide "1.0.0" "GUEST_SAFE" ("DNS_READ" ∷ "DNS_READ" ∷ []) 40 ≡ denied invalid_request)
    × (decide "1.0.0" "GUEST_SAFE" [] 41 ≡ denied budget_exceeded)
    × (decide "1.0.0" "ACTIVE" [] 1 ≡ denied profile_disabled)
    × (decide "1.0.1" "GUEST_SAFE" [] 1 ≡ denied policy_identity_mismatch)
unfolding authorize_scanner_execution parse_capabilities parse_budgets is_capability_allowed
    allowed_capabilities within_budgets budget_ceiling exact_record get text_eq text_in
refusals = (refl, refl, refl, refl, refl, refl)

IsGranted-authorized_example :
    authorize_scanner_execution (request_value request) ≡ authorized request
IsGranted-authorized_example = IsGranted-authorized request (
    authorize-IsGranted (asked "1.0.0" "GUEST_SAFE" ("DNS_READ" ∷ "TLS_HANDSHAKE" ∷ []) 40) request
      granted)
