-- ===== src/ScannerPolicy/Complete.antt =====
-- That everything that is within the policy is authorised.
use outscan.Prelude.{◌≡◌, ◌≢◌, refl, true, some, List, [], ◌∷◌, ◌++◌, all, arith, All}
use outscan.Js.{
  text_in, Text, Value, Values, string, number, array, object, entry, end, cons, nil, values, codes,
  exact_record, get, text_eq,
}
use outscan.ScannerPolicy.{
  Profile, guest_safe, verified_baseline, controlled_deep, active, allowed_capabilities,
  baseline_capabilities, verified_capabilities, known_capabilities, ScannerBudgets, budget_ceiling,
  ScannerExecutionRequest, authorized, capabilities, parse_capabilities, all_strings, no_repeats,
  parse_budgets, is_capability_allowed, within_budgets, authorize_scanner_execution,
}
use outscan.ScannerPolicy.Authorized.{IsWithin, IsGranted}

abbrev pub names_value : List Text → Values
names_value [] = nil
names_value (t ∷ ts) = cons (string t) (names_value ts)

abbrev pub budgets_value : ScannerBudgets → Value
budgets_value b = object (
    entry "hard_duration_seconds" (number b.hard_duration_seconds) (
      entry "max_requests" (number b.max_requests) (
        entry "max_concurrency" (number b.max_concurrency) (
          entry "max_redirects" (number b.max_redirects) (
            entry "max_response_bytes" (number b.max_response_bytes) (
              entry "max_total_response_bytes" (number b.max_total_response_bytes) (
                entry "max_output_bytes" (number b.max_output_bytes)
                  (entry "max_crawl_urls" (number b.max_crawl_urls) end))))))))

abbrev pub profile_name : Profile → Text
profile_name guest_safe = codes "GUEST_SAFE"
profile_name verified_baseline = codes "VERIFIED_BASELINE"
profile_name controlled_deep = codes "CONTROLLED_DEEP"
profile_name active = codes "ACTIVE"

-- The request as the object that a caller sends.
abbrev pub request_value : ScannerExecutionRequest → Value
request_value r = object (
    entry "schema_version" (number 1) (
      entry "policy_id" (string (codes "outscan-v1")) (
        entry "policy_version" (string (codes "1.0.0")) (
          entry "profile" (string (profile_name r.profile)) (
            entry "requested_capabilities" (array (names_value r.requested_capabilities))
              (entry "budgets" (budgets_value r.budgets) end))))))

all_strings-names_value : (ts : List Text) → all_strings (values (names_value ts)) ≡ some ts
unfolding all_strings
all_strings-names_value [] = refl
all_strings-names_value (t ∷ ts) = ground (arith, all_strings-names_value ts)

text_in-weaken : (t : Text) (xs ys : List Text) → text_in t xs ≡ true → text_in t (xs ++ ys) ≡ true
unfolding text_in
text_in-weaken t [] ys h = cc
text_in-weaken t (x ∷ xs) ys h = ground (arith, h, text_in-weaken t xs ys)

abbrev later_capabilities : List Text
later_capabilities = codes "NUCLEI_SAFE_HTTP" ∷ codes "BOUNDED_SAME_ORIGIN_CRAWL" ∷ []

known-verified :
    (t : Text) → text_in t verified_capabilities ≡ true → text_in t known_capabilities ≡ true
known-verified t h = text_in-weaken t verified_capabilities _ h

known-allowed :
    (p : Profile) (t : Text)
    → text_in t (allowed_capabilities p) ≡ true
    → text_in t known_capabilities ≡ true
unfolding allowed_capabilities text_in
known-allowed guest_safe t h =
    known-verified t (text_in-weaken t baseline_capabilities later_capabilities h)
known-allowed verified_baseline t h = known-verified t h
known-allowed controlled_deep t h = known-verified t h
known-allowed active t h = cc

all_known :
    (p : Profile) (ts : List Text)
    → All (λ t. text_in t (allowed_capabilities p) ≡ true) ts
    → (all (λ t. text_in t known_capabilities) ts ≡ true)
      × (all (is_capability_allowed p) ts ≡ true)
unfolding is_capability_allowed
all_known p [] h = (refl, refl)
all_known p (t ∷ ts) (here, later) =
    let known = known-allowed p t here in
    let rest = all_known p ts later in
    (ground (arith, known, rest.0), ground (arith, known, here, rest.1))

within_budgets-true :
    (b ceiling : ScannerBudgets) → IsWithin b ceiling → within_budgets b ceiling ≡ true
unfolding within_budgets
within_budgets-true b ceiling w = ground (
  arith, w.duration, w.requests, w.concurrency, w.redirects, w.response_bytes, w.total_bytes,
  w.output_bytes, w.crawl_urls,
)

parse_capabilities-names_value :
    (p : Profile) (ts : List Text)
    → All (λ t. text_in t (allowed_capabilities p) ≡ true) ts
    → no_repeats ts ≡ true
    → parse_capabilities (array (names_value ts)) ≡ capabilities ts
unfolding parse_capabilities
parse_capabilities-names_value p ts h distinct =
    ground (arith, all_strings-names_value ts, distinct, (all_known p ts h).0)

-- A budget within a ceiling is a safe integer.
parse_budgets-budgets_value :
    (p : Profile) (b ceiling : ScannerBudgets)
    → budget_ceiling p ≡ some ceiling
    → IsWithin b ceiling
    → parse_budgets (budgets_value b) ≡ some b
unfolding parse_budgets exact_record get budget_ceiling
parse_budgets-budgets_value guest_safe b ceiling c w = ground (
  arith, c, w.duration, w.requests, w.concurrency, w.redirects, w.response_bytes, w.total_bytes,
  w.output_bytes, w.crawl_urls,
)
parse_budgets-budgets_value verified_baseline b ceiling c w = ground (
  arith, c, w.duration, w.requests, w.concurrency, w.redirects, w.response_bytes, w.total_bytes,
  w.output_bytes, w.crawl_urls,
)
parse_budgets-budgets_value controlled_deep b ceiling c w = ground (
  arith, c, w.duration, w.requests, w.concurrency, w.redirects, w.response_bytes, w.total_bytes,
  w.output_bytes, w.crawl_urls,
)
parse_budgets-budgets_value active b ceiling c w = cc

granted_authorized :
    (p : Profile) (names : List Text) (b ceiling : ScannerBudgets)
    → p ≢ active
    → parse_capabilities (array (names_value names)) ≡ capabilities names
    → all (is_capability_allowed p) names ≡ true
    → parse_budgets (budgets_value b) ≡ some b
    → budget_ceiling p ≡ some ceiling
    → within_budgets b ceiling ≡ true
    → authorize_scanner_execution
        (request_value (record { profile = p; requested_capabilities = names; budgets = b }))
      ≡ authorized (record { profile = p; requested_capabilities = names; budgets = b })
unfolding authorize_scanner_execution exact_record get text_eq
granted_authorized guest_safe names b ceiling enabled n a h c w = ground (arith, n, a, h, c, w)
granted_authorized verified_baseline names b ceiling enabled n a h c w =
    ground (arith, n, a, h, c, w)
granted_authorized controlled_deep names b ceiling enabled n a h c w = ground (arith, n, a, h, c, w)
granted_authorized active names b ceiling enabled n a h c w = ground (arith, enabled)

-- Every request within the policy, written as the object that a caller sends, is authorised and is
-- read as that very request: the policy refuses nothing that it means to grant.
pub IsGranted-authorized :
    (r : ScannerExecutionRequest)
    → IsGranted r
    → authorize_scanner_execution (request_value r) ≡ authorized r
IsGranted-authorized r g =
    granted_authorized r.profile r.requested_capabilities r.budgets g.ceiling g.enabled
      (parse_capabilities-names_value r.profile r.requested_capabilities g.of_profile g.distinct)
      (all_known r.profile r.requested_capabilities g.of_profile).1
      (parse_budgets-budgets_value r.profile r.budgets g.ceiling g.ceiling_of g.within) g.ceiling_of
      (within_budgets-true r.budgets g.ceiling g.within)
