-- ===== src/ScannerPolicy/Authorized.antt =====
-- What an authorised request may do.
use outscan.Prelude.{
  ◌≤◌, ◌≡◌, ◌≢◌, refl, true, Option, none, some, List, [], ◌∷◌, all, arith, All, Option-cases, inl,
  inr, ◌⊎◌, and-eq-true,
}
use outscan.Js.{text_in, Text, Value, Entries, array, values, exact_record, get}
use outscan.ScannerPolicy.{
  Profile, guest_safe, verified_baseline, controlled_deep, active, allowed_capabilities,
  ScannerBudgets, budget_ceiling, ScannerExecutionRequest, PolicyDenyCode, authorized, Capabilities,
  capabilities, refused, parse_capabilities, all_strings, no_repeats, parse_budgets,
  is_capability_allowed, within_budgets, authorize_capabilities, authorize_profile, as_profile,
  request_keys, authorize_scanner_execution,
}

-- No budget above the ceiling.
pub record IsWithin (b ceiling : ScannerBudgets) : Type 0 where
  pub duration : b.hard_duration_seconds ≤ ceiling.hard_duration_seconds
  pub requests : b.max_requests ≤ ceiling.max_requests
  pub concurrency : b.max_concurrency ≤ ceiling.max_concurrency
  pub redirects : b.max_redirects ≤ ceiling.max_redirects
  pub response_bytes : b.max_response_bytes ≤ ceiling.max_response_bytes
  pub total_bytes : b.max_total_response_bytes ≤ ceiling.max_total_response_bytes
  pub output_bytes : b.max_output_bytes ≤ ceiling.max_output_bytes
  pub crawl_urls : b.max_crawl_urls ≤ ceiling.max_crawl_urls

-- What is granted: a profile that is enabled, capabilities of that profile without repetition, and
-- budgets within its ceilings.
pub record IsGranted (r : ScannerExecutionRequest) : Type 0 where
  pub enabled : r.profile ≢ active
  pub of_profile :
      All (λ c. text_in c (allowed_capabilities r.profile) ≡ true) r.requested_capabilities
  pub distinct : no_repeats r.requested_capabilities ≡ true
  pub ceiling : ScannerBudgets
  pub ceiling_of : budget_ceiling r.profile ≡ some ceiling
  pub within : IsWithin r.budgets ceiling

within_budgets-IsWithin :
    (b ceiling : ScannerBudgets) → within_budgets b ceiling ≡ true → IsWithin b ceiling
unfolding within_budgets
within_budgets-IsWithin b ceiling h = record {
  duration = ground (arith, h);
  requests = ground (arith, h);
  concurrency = ground (arith, h);
  redirects = ground (arith, h);
  response_bytes = ground (arith, h);
  total_bytes = ground (arith, h);
  output_bytes = ground (arith, h);
  crawl_urls = ground (arith, h);
}

all_allowed :
    (profile : Profile) (names : List Text)
    → all (is_capability_allowed profile) names ≡ true
    → All (λ c. text_in c (allowed_capabilities profile) ≡ true) names
unfolding is_capability_allowed
all_allowed profile [] h = tt
all_allowed profile (c ∷ cs) h =
    let (here, later) =
      and-eq-true (is_capability_allowed profile c) (all (is_capability_allowed profile) cs) h in
    ((and-eq-true _ _ here).1, all_allowed profile cs later)

parse_capabilities-distinct :
    (v : Value) (names : List Text)
    → parse_capabilities v ≡ capabilities names
    → no_repeats names ≡ true
unfolding parse_capabilities
parse_capabilities-distinct (array items) names h =
    elim (Option-cases (all_strings (values items))) [
      | inl e ↦ ground (arith, h, e)
      | inr (ts, e) ↦ ground (arith, h, e)
    ]
parse_capabilities-distinct _ names h = cc

Capabilities-cases :
    (c : Capabilities)
    → ((names : List Text) × (c ≡ capabilities names))
      ⊎ ((code : PolicyDenyCode) × (c ≡ refused code))
Capabilities-cases (capabilities names) = inl (names, refl)
Capabilities-cases (refused code) = inr (code, refl)

authorize_capabilities-IsGranted :
    (es : Entries) (profile : Profile) (r : ScannerExecutionRequest)
    → profile ≢ active
    → authorize_capabilities es profile (parse_capabilities (get "requested_capabilities" es))
      ≡ authorized r
    → IsGranted r
authorize_capabilities-IsGranted es profile r enabled h =
    elim (Capabilities-cases (parse_capabilities (get "requested_capabilities" es))) [
      | inr (code, e) ↦ ground (arith, h, e)
      | inl (names, e) ↦ elim (Option-cases (parse_budgets (get "budgets" es))) [
        | inl f ↦ ground (arith, h, e, f)
        | inr (budgets, f) ↦ elim (Option-cases (budget_ceiling profile)) [
          | inl g ↦ ground (arith, h, e, f, g)
          | inr (ceiling, g) ↦
              let built : ScannerExecutionRequest = record {
                profile = profile;
                requested_capabilities = names;
                budgets = budgets;
              } in
              let same : built ≡ r = ground (arith, h, e, f, g) in
              let granted : IsGranted built = record {
                enabled = enabled;
                of_profile = all_allowed profile names (ground (arith, h, e));
                distinct = parse_capabilities-distinct (get "requested_capabilities" es) names e;
                ceiling = ceiling;
                ceiling_of = g;
                within = within_budgets-IsWithin budgets ceiling (ground (arith, h, e, f, g));
              } in
              rw same at granted
        ]
      ]
    ]

authorize_profile-IsGranted :
    (es : Entries) (p : Option Profile) (r : ScannerExecutionRequest)
    → authorize_profile es p ≡ authorized r
    → IsGranted r
authorize_profile-IsGranted es none r h = cc
authorize_profile-IsGranted es (some active) r h = cc
authorize_profile-IsGranted es (some guest_safe) r h =
    authorize_capabilities-IsGranted es guest_safe r (λ e. cc) h
authorize_profile-IsGranted es (some verified_baseline) r h =
    authorize_capabilities-IsGranted es verified_baseline r (λ e. cc) h
authorize_profile-IsGranted es (some controlled_deep) r h =
    authorize_capabilities-IsGranted es controlled_deep r (λ e. cc) h

-- Whatever is asked for, an authorised request has a profile that is enabled, only capabilities that
-- this profile allows, none of them twice, and no budget above the ceiling of the profile.
pub authorize-IsGranted :
    (input : Value) (r : ScannerExecutionRequest)
    → authorize_scanner_execution input ≡ authorized r
    → IsGranted r
unfolding authorize_scanner_execution
authorize-IsGranted input r h = elim (Option-cases (exact_record request_keys input)) [
  | inl e ↦ ground (arith, h, e)
  | inr (es, e) ↦
      authorize_profile-IsGranted es (as_profile (get "profile" es)) r (ground (arith, h, e))
]
