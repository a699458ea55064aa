-- ===== src/GuestAbuse/Tests.antt =====
-- Runs of apps/api/src/guest-abuse, and the theorems at concrete inputs.
use outscan.GuestAbuse.Retention.Deadline.{keep_then_delete}
use outscan.Prelude.{
  ℕ, ◌+◌, ◌-◌, ◌≤◌, ◌<◌, ◌≡◌, refl, ◌↔◌, Option, none, some, List, [], ◌∷◌, ◌++◌, arith,
}
use outscan.Js.{
  Text, codes, text_eq, Value, string, bigint, number, null, object, entry, end, exact_record, get,
}
use outscan.Js.Patterns.{is_digest, is_identifier}
use outscan.GuestCrypto.Binary.{utf8, u64be, length_prefix, encode_base64url}
use outscan.GuestCrypto.ResultToken.{
  metadata_value, snapshot_metadata, encode_message, derive_token, GuestResultTokenMetadata,
}
use outscan.GuestIdempotency.{
  GuestIdempotencyLookup, GuestIdempotencyResult, guest_scan_endpoint_operation, parse_request,
  parse_record, decide_existing, replay_decision, decide_guest_scan_idempotency, CreateAction,
}
use outscan.GuestAbuse.Decide.{
  GuestAbuseRequest, GuestAbuseReservation, reservation_dimensions, session_burst_exceeded, deny,
  allow_new_scan, is_open, check_window, window_usage, check_usage, usage_snapshot, check_request,
  snapshot_request, decide_request, decide_guest_abuse_admission,
}
use outscan.GuestAbuse.Decide.Policy.{
  HasRoom, Reserves, allow_iff, Blocks, blocking, retry_after_exact,
}
use outscan.GuestAbuse.Retention.{
  keep, delete_now, check_retention, deadline_of, decide_by_deadline, decide_guest_retention,
}
use outscan.GuestAbuse.Admission.{AdmissionDecision, decide_guest_scan_admission}
use outscan.GuestAbuse.Admission.Composition.{IsFor, admitted_iff}

abbrev scope : Text
scope = codes "sha256:0123456789abcdef0123456789abcdef0123456789abcdef0123456789abcdef"

abbrev network : Text
network = codes "hmac-sha256:0123456789abcdef0123456789abcdef0123456789abcdef0123456789abcdef"

abbrev window_value : ℕ → ℕ → Value
window_value count reset_at =
    object (entry "count" (number count) (entry "reset_at_unix_seconds" (bigint reset_at) end))

-- A context at second 1000, with the given count in the session's burst window.
abbrev context_value : ℕ → Value
context_value count = object (
    entry "guest_session_scope" (string scope) (
      entry "network_signal_digest" (string network) (
        entry "now_unix_seconds" (bigint 1000) (
          entry "service_state" (string (codes "OPEN")) (
            entry "usage"
              (object (
                entry "session_burst" (window_value count 1200) (
                  entry "session_daily" (window_value 4 50000) (
                    entry "network_burst" (window_value 5 1600) (
                      entry "network_daily" (window_value 6 60000) (
                        entry "session_active" (number 0)
                          (entry "network_active" (number 3) end)))))))
              end)))))

abbrev context : ℕ → GuestAbuseRequest
context count = record {
  guest_session_scope = scope;
  network_signal_digest = network;
  now_unix_seconds = 1000;
  service_state = is_open;
  usage = record {
    session_burst = record { count = count; reset_at = 1200 };
    session_daily = record { count = 4; reset_at = 50000 };
    network_burst = record { count = 5; reset_at = 1600 };
    network_daily = record { count = 6; reset_at = 60000 };
    session_active = 0;
    network_active = 3;
  };
}

abbrev reservation : GuestAbuseReservation
reservation = record {
  guest_session_scope = scope;
  network_signal_digest = network;
  observed_at_unix_seconds = 1000;
  dimensions = reservation_dimensions;
}

contexts :
    (snapshot_request (context_value 2) ≡ some (context 2))
    × (snapshot_request (context_value 3) ≡ some (context 3))
unfolding snapshot_request check_request usage_snapshot check_usage window_usage check_window
    exact_record get is_digest text_eq
contexts = (refl, refl)

decisions :
    (decide_guest_abuse_admission (context_value 2) ≡ allow_new_scan reservation)
    × (decide_guest_abuse_admission (context_value 3) ≡ deny session_burst_exceeded (some 200))
unfolding decide_guest_abuse_admission decide_request snapshot_request check_request usage_snapshot
    check_usage window_usage check_window exact_record get is_digest text_eq
decisions = (refl, refl)

allow_iff_example :
    (decide_guest_abuse_admission (context_value 2) ≡ allow_new_scan reservation)
    ↔ (HasRoom (context 2) × Reserves (context 2) reservation)
allow_iff_example = allow_iff (context_value 2) (context 2) reservation contexts.0

retry_after_exact_example : Blocks 1000 200 (blocking (context 3) session_burst_exceeded)
retry_after_exact_example =
    retry_after_exact (context_value 3) (context 3) session_burst_exceeded 200 contexts.1
      decisions.1

abbrev scan_value : Value
scan_value = object (
    entry "guest_scan_id" (string (codes "scan-1")) (
      entry "created_at_unix_seconds" (bigint 1000) (
        entry "result_access_expires_at_unix_seconds" (bigint 2800)
          (entry "deletion_deadline_unix_seconds" (bigint 87400) end))))

retention_runs :
    (decide_guest_retention scan_value (bigint 1400) ≡ keep 86000)
    × (decide_guest_retention scan_value (bigint 87400) ≡ delete_now)
unfolding decide_guest_retention decide_by_deadline deadline_of check_retention exact_record get
    is_identifier
retention_runs = (refl, refl)

abbrev mac : List ℕ → List ℕ → List ℕ
mac key message =
    1 ∷ 2 ∷ 3 ∷ 4 ∷ 5 ∷ 6 ∷ 7 ∷ 8 ∷ 1 ∷ 2 ∷ 3 ∷ 4 ∷ 5 ∷ 6 ∷ 7 ∷ 8 ∷ 1 ∷ 2 ∷ 3 ∷ 4 ∷ 5 ∷ 6 ∷ 7 ∷ 8
    ∷ 1 ∷ 2 ∷ 3 ∷ 4 ∷ 5 ∷ 6 ∷ 7 ∷ 8 ∷ []

abbrev keyring : ℕ → Option (List ℕ)
keyring version = some (mac [] [])

abbrev request_value : Value
request_value = object (
    entry "guest_session_scope" (string scope) (
      entry "idempotency_key" (string (codes "key-1"))
        (entry "request_hash" (string scope) (entry "now_unix_seconds" (bigint 1000) end))))

abbrev lookup : GuestIdempotencyLookup
lookup = record {
  principal_scope = codes "GUEST_SESSION:" ++ scope;
  endpoint_operation = guest_scan_endpoint_operation;
  idempotency_key = codes "key-1";
}

admitted_iff_example :
    (decide_guest_scan_admission mac keyring request_value null (context_value 2)
      ≡ AdmissionDecision.admitted CreateAction.create lookup scope 2800 reservation)
    ↔ ((decide_guest_scan_idempotency mac keyring request_value null
          ≡ GuestIdempotencyResult.admitted CreateAction.create lookup scope 2800)
        × (decide_guest_abuse_admission (context_value 2) ≡ allow_new_scan reservation)
        × IsFor lookup 2800 reservation)
admitted_iff_example =
    admitted_iff mac keyring request_value null (context_value 2) CreateAction.create lookup scope
      2800 reservation

abbrev metadata : GuestResultTokenMetadata
metadata = record {
  guest_scan_id = codes "scan-1";
  token_version = 1;
  token_nonce = mac [] [];
  key_version = 3;
  result_access_expires_at_unix_seconds = 2700;
  result_access_revoked_at_unix_seconds = none;
}

abbrev stored_value : Value
stored_value = object (
    entry "principal_scope" (string (codes "GUEST_SESSION:" ++ scope)) (
      entry "endpoint_operation" (string guest_scan_endpoint_operation) (
        entry "idempotency_key" (string (codes "key-1")) (
          entry "request_hash" (string scope) (
            entry "created_at_unix_seconds" (bigint 900) (
              entry "idempotency_expires_at_unix_seconds" (bigint 2700)
                (entry "token_metadata" (metadata_value metadata) end)))))))

abbrev token : Text
token = codes "AQIDBAUGBwgBAgMEBQYHCAECAwQFBgcIAQIDBAUGBwg"

replays :
    decide_guest_scan_admission mac keyring request_value stored_value (context_value 3)
    ≡ AdmissionDecision.replay (codes "scan-1") token 2700 1700
unfolding decide_guest_scan_admission decide_guest_scan_idempotency parse_request parse_record
    decide_existing replay_decision derive_token encode_message snapshot_metadata utf8 length_prefix
    u64be exact_record get text_eq encode_base64url
replays = refl

keep_then_delete_example :
    (0 < 86000)
    × (86000 ≤ 86400)
    × (600 < 86000 → decide_guest_retention scan_value (bigint (1400 + 600)) ≡ keep (86000 - 600))
    × (86000 ≤ 600 → decide_guest_retention scan_value (bigint (1400 + 600)) ≡ delete_now)
keep_then_delete_example = keep_then_delete scan_value 1400 86000 600 retention_runs.0 (omega arith)
