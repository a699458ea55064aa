-- ===== src/GuestAbuse/Admission.antt =====
-- The admission of a guest scan, which joins the decision on a repeated request with the quota:
-- apps/api/src/guest-abuse/admission.ts.
pub mod Composition
use outscan.Prelude.{
  ℕ, ◌+◌, Bool, true, false, not, ◌||◌, Option, none, some, List, [], ◌∷◌, ◌++◌, ◌==◌,
  if◌then◌else◌,
}
use outscan.Js.{Text, Value, text_eq}
use outscan.GuestIdempotency.{
  CreateAction, GuestIdempotencyLookup, RejectionCode, GuestIdempotencyResult, session_prefix,
  guest_idempotency_window_seconds, decide_guest_scan_idempotency,
}
use outscan.GuestAbuse.Decide.{
  GuestAbuseReservation, DenyCode, GuestAbuseDecision, decide_guest_abuse_admission,
}

pub data AdmissionDecision : Type 0 where
  replay :
      (guest_scan_id result_token : Text)
      (result_access_expires_at_unix_seconds result_token_expires_in_seconds : ℕ)
      → AdmissionDecision
  admitted :
      CreateAction
      → (lookup : GuestIdempotencyLookup) (request_hash : Text)
        (idempotency_expires_at_unix_seconds : ℕ) (abuse_reservation : GuestAbuseReservation)
      → AdmissionDecision
  rejected : RejectionCode → AdmissionDecision
  invalid_abuse_context : AdmissionDecision
  abuse_limit_exceeded : DenyCode → (retry_after_seconds : Option ℕ) → AdmissionDecision

-- The subtraction of the source is on bigints; here the window is added on the other side.
unfoldable pub admit_new :
    CreateAction → GuestIdempotencyLookup → Text → ℕ → GuestAbuseDecision → AdmissionDecision
admit_new action lookup hash expires_at GuestAbuseDecision.invalid_abuse_context =
    invalid_abuse_context
admit_new action lookup hash expires_at (GuestAbuseDecision.deny code retry_after) =
    abuse_limit_exceeded code retry_after
admit_new action lookup hash expires_at (GuestAbuseDecision.allow_new_scan reservation) =
    if not (text_eq lookup.principal_scope (session_prefix ++ reservation.guest_session_scope))
      || not (expires_at == reservation.observed_at_unix_seconds + guest_idempotency_window_seconds)
    then invalid_abuse_context
    else admitted action lookup hash expires_at reservation

unfoldable pub admit : GuestIdempotencyResult → Value → AdmissionDecision
unfolding admit_new
admit (GuestIdempotencyResult.rejected code) abuse_context = rejected code
admit (GuestIdempotencyResult.replay id token expires_at expires_in) abuse_context =
    replay id token expires_at expires_in
admit (GuestIdempotencyResult.admitted action lookup hash expires_at) abuse_context =
    admit_new action lookup hash expires_at (decide_guest_abuse_admission abuse_context)

module _ (hmac : List ℕ → List ℕ → List ℕ) (token_keyring : ℕ → Option (List ℕ)) where
  unfoldable pub decide_guest_scan_admission : Value → Value → Value → AdmissionDecision
  unfolding admit
  decide_guest_scan_admission idempotency_request existing_record abuse_context =
      admit (decide_guest_scan_idempotency hmac token_keyring idempotency_request existing_record)
        abuse_context
