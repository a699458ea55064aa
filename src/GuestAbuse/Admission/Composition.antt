-- ===== src/GuestAbuse/Admission/Composition.antt =====
-- What an admission says of the two decisions that it joins.
use outscan.Prelude.{ℕ, ◌+◌, ◌≡◌, ◌↔◌, Option, List, ◌++◌, arith}
use outscan.Js.{Text, Value, text_eq_iff}
use outscan.GuestIdempotency.{
  CreateAction, GuestIdempotencyLookup, GuestIdempotencyResult, session_prefix,
  decide_guest_scan_idempotency,
}
use outscan.GuestAbuse.Decide.{
  GuestAbuseReservation, GuestAbuseDecision, decide_guest_abuse_admission,
}
use outscan.GuestAbuse.Admission.{admitted, replay, admit_new, admit, decide_guest_scan_admission}

-- The reservation is for the session of the request and for the time of its decision.
abbrev pub IsFor : GuestIdempotencyLookup → ℕ → GuestAbuseReservation → Type 0
IsFor lookup expires_at r =
    (lookup.principal_scope ≡ session_prefix ++ r.guest_session_scope)
    × (expires_at ≡ r.observed_at_unix_seconds + 1800)

admit_iff :
    (result : GuestIdempotencyResult) (va : Value) (a : CreateAction) (l : GuestIdempotencyLookup)
    (hash : Text) (e : ℕ) (r : GuestAbuseReservation)
    → (admit result va ≡ admitted a l hash e r) ↔ (
        (result ≡ GuestIdempotencyResult.admitted a l hash e)
        × (decide_guest_abuse_admission va ≡ GuestAbuseDecision.allow_new_scan r)
        × IsFor l e r)
unfolding admit
admit_iff result va a l hash e r =
    ground (arith, text_eq_iff l.principal_scope (session_prefix ++ r.guest_session_scope))

module _ (hmac : List ℕ → List ℕ → List ℕ) (keyring : ℕ → Option (List ℕ)) where
  -- A new scan is admitted with a reservation exactly when the decision on repeated requests admits
  -- it, the quota allows it with this reservation, and the reservation is for the same session and
  -- the same second.
  pub admitted_iff :
      (vq vr va : Value) (a : CreateAction) (l : GuestIdempotencyLookup) (hash : Text) (e : ℕ)
      (r : GuestAbuseReservation)
      → (decide_guest_scan_admission hmac keyring vq vr va ≡ admitted a l hash e r) ↔ (
          (decide_guest_scan_idempotency hmac keyring vq vr
            ≡ GuestIdempotencyResult.admitted a l hash e)
          × (decide_guest_abuse_admission va ≡ GuestAbuseDecision.allow_new_scan r)
          × IsFor l e r)
  unfolding decide_guest_scan_admission
  admitted_iff vq vr va a l hash e r =
      admit_iff (decide_guest_scan_idempotency hmac keyring vq vr) va a l hash e r

  admit_replay :
      (result : GuestIdempotencyResult) (va va' : Value) {id token : Text} {e left : ℕ}
      → admit result va ≡ replay id token e left
      → admit result va' ≡ replay id token e left
  unfolding admit admit_new
  admit_replay (GuestIdempotencyResult.replay id token e left) va va' h = h
  admit_replay (GuestIdempotencyResult.rejected code) va va' h = cc
  admit_replay (GuestIdempotencyResult.admitted a l hash e) va va' h = ground arith

  -- A replay consumes no quota: what is replayed is the same whatever the abuse context is, also
  -- for a session whose quota is used up or a service that is paused.
  pub replay_ignores_quota :
      (vq vr va va' : Value) {id token : Text} {e left : ℕ}
      → decide_guest_scan_admission hmac keyring vq vr va ≡ replay id token e left
      → decide_guest_scan_admission hmac keyring vq vr va' ≡ replay id token e left
  unfolding decide_guest_scan_admission
  replay_ignores_quota vq vr va va' h =
      admit_replay (decide_guest_scan_idempotency hmac keyring vq vr) va va' h
