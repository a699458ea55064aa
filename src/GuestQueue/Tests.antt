-- ===== src/GuestQueue/Tests.antt =====
-- An attempt from its lease to the commit, and the theorems on the queue and on the supervisor at
-- concrete inputs.
use outscan.Prelude.{
  ℕ, zero, suc, ◌≡◌, refl, ap, true, false, Option, none, some, List, [], ◌∷◌, ◌++◌, arith,
}
use outscan.Js.{
  Text, codes, Value, number, string, object, entry, end, get, exact_record, key_count, keys_among,
  key_mem, fields_of, text_eq, text_in,
}
use outscan.Js.Patterns.{is_identifier, is_digest, strip_prefix}
use outscan.ScannerPolicy.{
  allowed_capabilities, budget_ceiling, ScannerExecutionRequest, authorize_scanner_execution,
  authorized, parse_capabilities, all_strings, no_repeats, parse_budgets, is_capability_allowed,
  within_budgets,
}
use outscan.ScannerPolicy.Authorized.{IsGranted}
use outscan.Supervisor.{
  ScannerArtifactIdentity, ScannerTemplateApproval, approved, allowed, denied, lease_expired,
}
use outscan.Supervisor.Artifact.{
  is_version_text, text_leb, insert, sort, as_digests, check_artifact, without_symbols,
  keyed_record, parse_artifact_identity, texts_eq, matches, matches_approval, artifact_value,
}
use outscan.Supervisor.Authorize.{
  is_space, trim_start, trim_end, is_bounded_string, check_envelope, parse_envelope,
  authorize_envelope, authorize_supervisor_execution,
}
use outscan.Supervisor.Authorize.Allowed.{IsCurrent, IsApproved, authorize-IsApproved}
use outscan.GuestQueue.{
  GuestAttemptLease, GuestQueueMessage, committed, retry_heartbeat, check_message,
  parse_guest_queue_message, message_value,
}
use outscan.GuestQueue.Context.{
  check_approval, parse_approval, guest_request, envelope_value, trusted_of, ExecutionContext, load,
}
use outscan.GuestQueue.Context.Loaded.{
  IsLease, envelope_of, guests_request, decision_on, load-authorized,
}
use outscan.GuestQueue.Processor.Heartbeat.{
  Beat, ticks, answers, lease_renewed, renew_refused, RenewAnswer, lease_command, beat, beat_all,
  settle_renewals,
}
use outscan.GuestQueue.Processor.{
  Outside, lease_acquired, run_ok, primary_commit, rejection_recorded, acquires, starts, loads,
  runs, commits, records, acknowledged, retries, telemetry_threw, execution_context, process,
}
use outscan.GuestQueue.Processor.Reports.{commits_of, ProcessReports, process-Reports}
use outscan.GuestQueue.Processor.Ordered.{IsReady, commits-IsReady}

abbrev repeated : ℕ → ℕ → Text
repeated zero c = []
repeated (suc n) c = c ∷ repeated n c

abbrev digest_of : ℕ → Text
digest_of c = codes "sha256:" ++ repeated 64 c

abbrev the_artifact : ScannerArtifactIdentity
the_artifact = record {
  template_workflow_digest = digest_of b'a';
  transitive_dependency_digests = digest_of b'1' ∷ digest_of b'2' ∷ [];
  engine_version = codes "3.1.0";
  scanner_image_digest = digest_of b'b';
  config_version = codes "1";
  policy_id = codes "outscan-v1";
  policy_version = codes "1.0.0";
  profile = codes "GUEST_SAFE";
}

-- The provider has the digests in another order.
abbrev unsorted_artifact : ScannerArtifactIdentity
unsorted_artifact = record the_artifact {
  transitive_dependency_digests = digest_of b'2' ∷ digest_of b'1' ∷ [];
}

abbrev approval_value : Text → Value
approval_value status = object (
    entry "approval_id" (string (codes "approval-1")) (
      entry "status" (string status)
        (entry "artifact_identity" (artifact_value unsorted_artifact) end)))

abbrev the_approval : ScannerTemplateApproval
the_approval = record {
  approval_id = codes "approval-1";
  status = approved;
  artifact_identity = the_artifact;
}

abbrev the_lease : GuestAttemptLease
the_lease = record {
  guest_scan_id = codes "scan-1";
  attempt_id = codes "attempt-1";
  attempt_no = 1;
  monotonic_fence = 1;
  lease_version = 1;
  canonical_target = codes "example.com";
  lease_expires_at_unix_seconds = 115;
  hard_deadline_unix_seconds = 145;
}

abbrev the_context : ExecutionContext
the_context = record {
  envelope = envelope_value the_lease guests_request the_approval;
  trusted = trusted_of the_lease 100 the_approval;
}

request_is : guest_request ≡ some guests_request
unfolding guest_request budget_ceiling
request_is = refl

approval_is : parse_approval (approval_value (codes "APPROVED")) ≡ some the_approval
unfolding parse_approval check_approval parse_artifact_identity check_artifact without_symbols
    keyed_record as_digests all_strings no_repeats sort insert text_leb is_version_text
    is_identifier is_digest strip_prefix get exact_record key_count keys_among key_mem fields_of
    text_eq text_in
approval_is = refl

loaded :
    load (some (number 100)) (some (approval_value (codes "APPROVED"))) the_lease ≡ some the_context
unfolding load
loaded = rw (approval_is, request_is) refl

the_lease-IsLease : IsLease the_lease
unfolding is_identifier is_bounded_string is_space trim_start trim_end text_eq
the_lease-IsLease = (refl, refl, omega arith, omega arith, refl, omega arith, omega arith)

load-authorized_example :
    (approval : ScannerTemplateApproval) × (request : ScannerExecutionRequest)
    × (the_context.trusted.approval ≡ some approval)
    × (guest_request ≡ some request)
    × (authorize_supervisor_execution the_context.envelope the_context.trusted
        ≡ decision_on the_lease request approval approval.status)
load-authorized_example =
    load-authorized (some (number 100)) (some (approval_value (codes "APPROVED"))) the_lease
      the_context the_lease-IsLease loaded

-- Later than the lease, the supervisor refuses the envelope.
too_late :
    authorize_supervisor_execution the_context.envelope (trusted_of the_lease 115 the_approval)
    ≡ denied lease_expired
unfolding authorize_supervisor_execution parse_envelope check_envelope authorize_envelope
    parse_artifact_identity check_artifact without_symbols keyed_record as_digests all_strings
    no_repeats sort insert text_leb is_version_text is_identifier is_digest strip_prefix get
    exact_record key_count keys_among key_mem text_eq text_in is_bounded_string is_space trim_start
    trim_end
too_late = refl

in_time :
    authorize_supervisor_execution the_context.envelope the_context.trusted
    ≡ allowed (envelope_of the_lease the_approval) guests_request
unfolding authorize_supervisor_execution parse_envelope check_envelope authorize_envelope
    parse_artifact_identity check_artifact without_symbols keyed_record as_digests all_strings
    no_repeats sort insert text_leb is_version_text is_identifier is_digest strip_prefix get
    exact_record key_count keys_among key_mem text_eq text_in is_bounded_string is_space trim_start
    trim_end authorize_scanner_execution parse_capabilities parse_budgets is_capability_allowed
    within_budgets allowed_capabilities budget_ceiling matches_approval matches texts_eq
in_time = refl

authorize-IsApproved_example :
    (policy : Value) × (parse_envelope the_context.envelope
      ≡ some (envelope_of the_lease the_approval, policy))
    × IsCurrent (envelope_of the_lease the_approval) the_context.trusted
    × (authorize_scanner_execution policy ≡ authorized guests_request)
    × IsGranted guests_request
    × IsApproved (envelope_of the_lease the_approval) guests_request the_context.trusted
authorize-IsApproved_example =
    authorize-IsApproved the_context.envelope the_context.trusted
      (envelope_of the_lease the_approval) guests_request in_time

abbrev the_message : GuestQueueMessage
the_message = record { guest_scan_id = codes "scan-1" }

abbrev pair_value : Value
pair_value = object (entry "envelope" (object end) (entry "trusted" (object end) end))

-- The services, with the beats of the heartbeat and the answer to a renewal in flight.
abbrev services : List Beat → Option RenewAnswer → Outside
services beats last = record {
  acquire = λ scan. some (lease_acquired the_lease);
  start = λ command. some true;
  load = λ lease. some pair_value;
  run = λ envelope trusted. record {
    beats = beats;
    settles = some (run_ok (some (number 7)));
    last = last;
  };
  commit = λ submission. some primary_commit;
  reject = λ rejection. some (rejection_recorded false);
  record_outcome = λ outcome. true;
}

abbrev two_beats : List Beat
two_beats = ticks ∷ answers (some (lease_renewed 2 120)) ∷ ticks ∷ ticks ∷ []

message_is : parse_guest_queue_message (message_value the_message) ≡ some the_message
unfolding parse_guest_queue_message check_message is_identifier get key_count key_mem fields_of
message_is = refl

-- Two renewals, the second under the version that the first one brought.
good_run :
    process (services two_beats (some (lease_renewed 3 125))) (message_value the_message)
    ≡ (record {
      effects =
          acquires (codes "scan-1")
          ∷ starts (lease_command the_lease)
          ∷ loads the_lease
          ∷ runs (object end) (object end) (
              lease_command the_lease ∷ record (lease_command the_lease) { lease_version = 2 } ∷ [])
          ∷ commits (number 7)
          ∷ records committed
          ∷ [];
      ending = acknowledged committed;
    })
unfolding process parse_guest_queue_message check_message is_identifier get key_count key_mem
    fields_of execution_context beat beat_all settle_renewals
good_run = refl

lost_run :
    (process (services two_beats (some renew_refused)) (message_value the_message)).ending
    ≡ retries retry_heartbeat
unfolding process parse_guest_queue_message check_message is_identifier get key_count key_mem
    fields_of execution_context beat beat_all settle_renewals
lost_run = refl

-- The telemetry throws after the commit: the message is not acknowledged.
thrown_run :
    (process
      (record (services two_beats (some (lease_renewed 3 125))) { record_outcome = λ o. false })
      (message_value the_message)).ending
    ≡ telemetry_threw
unfolding process parse_guest_queue_message check_message is_identifier get key_count key_mem
    fields_of execution_context beat beat_all settle_renewals
thrown_run = refl

process-Reports_example :
    ProcessReports
      (services two_beats none)
      (parse_guest_queue_message (message_value the_message))
      (process (services two_beats none) (message_value the_message))
process-Reports_example = process-Reports (services two_beats none) (message_value the_message)

one_commit :
    commits_of
      (process
        (services two_beats (some (lease_renewed 3 125)))
        (message_value the_message)).effects
    ≡ number 7 ∷ []
one_commit = ap (λ r. commits_of r.effects) good_run

abbrev the_rest : List Value
the_rest = []

commits-IsReady_example :
    (the_rest ≡ [])
    × IsReady (services two_beats (some (lease_renewed 3 125))) the_message (number 7)
commits-IsReady_example =
    commits-IsReady (services two_beats (some (lease_renewed 3 125))) (message_value the_message)
      the_message (number 7) the_rest message_is one_commit
