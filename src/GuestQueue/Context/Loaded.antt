-- ===== src/GuestQueue/Context/Loaded.antt =====
-- That the supervisor allows what the provider of contexts loads.
use outscan.Prelude.{
  ℕ, ◌≤◌, ◌<◌, ◌≡◌, refl, sym, ap, true, ◌&&◌, Option, some, leb, ltb, arith, >>=-eq-some, guard,
  guard-eq-some,
}
use mathlib.Core.Path.{subst}
use outscan.Js.{
  Value, get, exact_record, key_count, keys_among, key_mem, fields_of, as_string, as_safe_natural,
  max_safe_integer, text_eq, text_in, text_eq_refl,
}
use outscan.Js.Patterns.{is_identifier}
use outscan.ScannerPolicy.{
  guest_safe, allowed_capabilities, budget_ceiling, ScannerExecutionRequest, authorized,
  authorize_scanner_execution, ScannerBudgets, parse_capabilities, all_strings, no_repeats,
  parse_budgets, is_capability_allowed, within_budgets,
}
use outscan.ScannerPolicy.Complete.{request_value}
use outscan.Supervisor.{
  ScannerTemplateApproval, ApprovalStatus, approved, revoked, ExecutionEnvelope, SupervisorDecision,
  allowed, denied, approval_revoked,
}
use outscan.Supervisor.Artifact.{parse_artifact_identity}
use outscan.Supervisor.Artifact.Matching.{
  IsIdentity, parse-IsIdentity, parse-artifact_value, matches_approval_complete,
}
use outscan.Supervisor.Authorize.{
  is_bounded_string, check_envelope, parse_envelope, authorize_envelope,
  authorize_supervisor_execution,
}
use outscan.GuestQueue.{GuestAttemptLease}
use outscan.GuestQueue.Context.{
  is_for_guests, as_approval_status, check_approval, parse_approval, authorization_ref,
  guest_request, envelope_value, trusted_of, ExecutionContext, load,
}
use outscan.GuestQueue.Context.Reference.{reference-is_bounded}

-- What a lease is that the persistence gives out: identifiers, and safe positive numbers.
abbrev pub IsLease : GuestAttemptLease → Type 0
IsLease lease =
    (is_identifier lease.guest_scan_id ≡ true)
    × (is_identifier lease.attempt_id ≡ true)
    × (1 ≤ lease.monotonic_fence)
    × (lease.monotonic_fence ≤ max_safe_integer)
    × (is_bounded_string lease.canonical_target 253 ≡ true)
    × (lease.lease_expires_at_unix_seconds ≤ max_safe_integer)
    × (lease.hard_deadline_unix_seconds ≤ max_safe_integer)

-- The envelope as the supervisor reads it.
abbrev pub envelope_of : GuestAttemptLease → ScannerTemplateApproval → ExecutionEnvelope
envelope_of lease approval = record {
  job_id = lease.guest_scan_id;
  attempt_id = lease.attempt_id;
  fence = lease.monotonic_fence;
  canonical_target = lease.canonical_target;
  authorization_ref = authorization_ref lease;
  lease_expires_at_unix_seconds = lease.lease_expires_at_unix_seconds;
  hard_deadline_unix_seconds = lease.hard_deadline_unix_seconds;
  artifact_identity = approval.artifact_identity;
}

parse-envelope_value :
    (lease : GuestAttemptLease) (request : ScannerExecutionRequest)
    (approval : ScannerTemplateApproval)
    → IsLease lease
    → 1 ≤ lease.lease_expires_at_unix_seconds
    → 1 ≤ lease.hard_deadline_unix_seconds
    → IsIdentity approval.artifact_identity
    → parse_envelope (envelope_value lease request approval)
      ≡ some (envelope_of lease approval, request_value request)
unfolding parse_envelope check_envelope exact_record get key_count keys_among key_mem
parse-envelope_value lease request approval
      (scan, attempt, fence, fence_small, target, lease_small, deadline_small) leased dated
      identity =
    ground (
      arith,
      scan,
      attempt,
      fence,
      fence_small,
      target,
      lease_small,
      deadline_small,
      leased,
      dated,
      reference-is_bounded lease scan,
      parse-artifact_value approval.artifact_identity identity,
    )

abbrev pub guests_budgets : ScannerBudgets
guests_budgets = record {
  hard_duration_seconds = 30;
  max_requests = 40;
  max_concurrency = 4;
  max_redirects = 5;
  max_response_bytes = 1048576;
  max_total_response_bytes = 8388608;
  max_output_bytes = 2097152;
  max_crawl_urls = 0;
}

abbrev pub guests_request : ScannerExecutionRequest
guests_request = record {
  profile = guest_safe;
  requested_capabilities = allowed_capabilities guest_safe;
  budgets = guests_budgets;
}

guests_request-authorized :
    authorize_scanner_execution (request_value guests_request) ≡ authorized guests_request
unfolding authorize_scanner_execution exact_record get key_count keys_among key_mem text_eq text_in
    parse_capabilities all_strings no_repeats parse_budgets is_capability_allowed within_budgets
    allowed_capabilities budget_ceiling
guests_request-authorized = refl

guest_request-authorized :
    (request : ScannerExecutionRequest)
    → guest_request ≡ some request
    → (authorize_scanner_execution (request_value request) ≡ authorized request)
      × (request.profile ≡ guest_safe)
unfolding guest_request budget_ceiling
guest_request-authorized request h =
    let same : guests_request ≡ request = ground (arith, h) in
    (
      subst (λ r. authorize_scanner_execution (request_value r) ≡ authorized r) same
          guests_request-authorized,
      sym (ap (λ r. r.profile) same),
    )

-- What the supervisor decides on an approval for the guests.
abbrev pub decision_on :
    GuestAttemptLease
    → ScannerExecutionRequest
    → ScannerTemplateApproval
    → ApprovalStatus
    → SupervisorDecision
decision_on lease request approval approved = allowed (envelope_of lease approval) request
decision_on lease request approval revoked = denied approval_revoked

decide_status :
    (lease : GuestAttemptLease) (now : ℕ) (request : ScannerExecutionRequest)
    (approval : ScannerTemplateApproval) (status : ApprovalStatus)
    → approval.status ≡ status
    → now < lease.lease_expires_at_unix_seconds
    → now < lease.hard_deadline_unix_seconds
    → IsIdentity approval.artifact_identity
    → is_for_guests approval.artifact_identity ≡ true
    → authorize_scanner_execution (request_value request) ≡ authorized request
    → request.profile ≡ guest_safe
    → authorize_envelope
        (envelope_of lease approval)
        (request_value request)
        (trusted_of lease now approval)
      ≡ decision_on lease request approval status
unfolding authorize_envelope
decide_status lease now request approval approved status_is before_lease before_deadline identity
      guests granted profile =
    ground (
      arith,
      status_is,
      before_lease,
      before_deadline,
      guests,
      granted,
      profile,
      text_eq_refl lease.guest_scan_id,
      text_eq_refl lease.attempt_id,
      text_eq_refl lease.canonical_target,
      text_eq_refl (authorization_ref lease),
      matches_approval_complete approval identity,
    )
decide_status lease now request approval revoked status_is before_lease before_deadline identity
      guests granted profile =
    ground (
      arith,
      status_is,
      before_lease,
      before_deadline,
      guests,
      granted,
      profile,
      text_eq_refl lease.guest_scan_id,
      text_eq_refl lease.attempt_id,
      text_eq_refl lease.canonical_target,
      text_eq_refl (authorization_ref lease),
      matches_approval_complete approval identity,
    )

parse_approval_lem :
    (v : Value) {approval : ScannerTemplateApproval}
    → parse_approval v ≡ some approval
    → IsIdentity approval.artifact_identity × (is_for_guests approval.artifact_identity ≡ true)
unfolding parse_approval check_approval
parse_approval_lem v {approval} h =
    let (es, _, checked) = >>=-eq-some (fields_of _ v) check_approval h in
    let (text, _, h₁) = >>=-eq-some (as_string (get "approval_id" es)) _ checked in
    let (_, _, h₂) = >>=-eq-some (guard (is_identifier text)) _ h₁ in
    let (status, _, h₃) = >>=-eq-some (as_approval_status (get "status" es)) _ h₂ in
    let (artifact, parsed, h₄) =
      >>=-eq-some (parse_artifact_identity (get "artifact_identity" es)) _ h₃ in
    let (_, guests, h₅) = >>=-eq-some (guard (is_for_guests artifact)) _ h₄ in
    let same : artifact ≡ approval.artifact_identity = ground (arith, h₅) in
    (
      subst IsIdentity same (parse-IsIdentity (get "artifact_identity" es) parsed),
      subst (λ a. is_for_guests a ≡ true) same (guard-eq-some (is_for_guests artifact) guests),
    )

-- For every lease that the persistence gives out, a context that is loaded has an approval for the
-- guests, and the supervisor allows its envelope with the whole policy of the guests when this approval
-- stands, and denies it as revoked when it does not: no other refusal is possible.
pub load-authorized :
    (clock provider : Option Value) (lease : GuestAttemptLease) (context : ExecutionContext)
    → IsLease lease
    → load clock provider lease ≡ some context
    → (approval : ScannerTemplateApproval) × (request : ScannerExecutionRequest)
      × (context.trusted.approval ≡ some approval)
      × (guest_request ≡ some request)
      × (authorize_supervisor_execution context.envelope context.trusted
          ≡ decision_on lease request approval approval.status)
unfolding load authorize_supervisor_execution
load-authorized clock provider lease context is_lease h =
    let (now_value, _, h₁) = >>=-eq-some clock _ h in
    let (raw, _, h₂) = >>=-eq-some provider _ h₁ in
    let (approval, parsed, h₃) = >>=-eq-some (parse_approval raw) _ h₂ in
    let (now, _, h₄) = >>=-eq-some (as_safe_natural now_value) _ h₃ in
    let (_, positive, h₅) = >>=-eq-some (guard (leb 1 now)) _ h₄ in
    let (_, alive, h₆) =
      >>=-eq-some
        (guard
          (ltb now lease.lease_expires_at_unix_seconds && ltb now lease.hard_deadline_unix_seconds))
        _ h₅ in
    let (request, request_is, h₇) = >>=-eq-some guest_request _ h₆ in
    let (identity, guests) = parse_approval_lem raw parsed in
    let (granted, profile) = guest_request-authorized request request_is in
    let built : ExecutionContext = record {
      envelope = envelope_value lease request approval;
      trusted = trusted_of lease now approval;
    } in
    let same : built ≡ context = ground (arith, h₇) in
    let before_lease : now < lease.lease_expires_at_unix_seconds = ground (arith, alive) in
    let before_deadline : now < lease.hard_deadline_unix_seconds = ground (arith, alive) in
    let shape =
      parse-envelope_value lease request approval is_lease (omega arith) (omega arith) identity in
    let decided =
      decide_status lease now request approval approval.status refl before_lease before_deadline
        identity guests granted profile in
    let whole : authorize_supervisor_execution built.envelope built.trusted
        ≡ decision_on lease request approval approval.status =
      ground (arith, shape, decided) in
    (
      approval,
      request,
      sym (ap (λ c. c.trusted.approval) same),
      request_is,
      subst
          (λ c.
            authorize_supervisor_execution c.envelope c.trusted
            ≡ decision_on lease request approval approval.status)
          same whole,
    )
