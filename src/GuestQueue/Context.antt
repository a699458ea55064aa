-- ===== src/GuestQueue/Context.antt =====
-- The context that an attempt is run in: apps/api/src/guest-queue/context.ts.
mod Reference
pub mod Loaded
use outscan.Prelude.{
  ℕ, Bool, ◌&&◌, Option, none, some, List, [], ◌∷◌, ◌++◌, leb, ltb, ◌>>=◌, ◌>>◌, guard,
  if◌then◌else◌,
}
use outscan.Js.{
  Text, codes, Value, number, string, object, Entries, entry, end, get, fields_of, as_string,
  as_safe_natural, text_eq,
}
use outscan.Js.Patterns.{is_identifier}
use outscan.ScannerPolicy.{
  guest_safe, allowed_capabilities, budget_ceiling, ScannerExecutionRequest,
}
use outscan.ScannerPolicy.Complete.{request_value}
use outscan.Supervisor.{
  ScannerArtifactIdentity, ScannerTemplateApproval, ApprovalStatus, approved, revoked,
  TrustedExecutionState,
}
use outscan.Supervisor.Artifact.{parse_artifact_identity, artifact_value}
use outscan.GuestQueue.{GuestAttemptLease}

abbrev pub as_approval_status : Value → Option ApprovalStatus
as_approval_status v = do
  t ← as_string v
  if text_eq t (codes "APPROVED")
      then some approved
      else (if text_eq t (codes "REVOKED") then some revoked else none)

-- The artifact is the one of the scanner policy, for guests.
abbrev pub is_for_guests : ScannerArtifactIdentity → Bool
is_for_guests artifact =
    text_eq artifact.policy_id (codes "outscan-v1")
    && text_eq artifact.policy_version (codes "1.0.0")
    && text_eq artifact.profile (codes "GUEST_SAFE")

unfoldable pub check_approval : Entries → Option ScannerTemplateApproval
check_approval es = do
  approval ← as_string (get "approval_id" es)
  guard (is_identifier approval)
  status ← as_approval_status (get "status" es)
  artifact ← parse_artifact_identity (get "artifact_identity" es)
  guard (is_for_guests artifact)
  some (record { approval_id = approval; status = status; artifact_identity = artifact })

unfoldable pub parse_approval : Value → Option ScannerTemplateApproval
parse_approval value =
    fields_of ("approval_id" ∷ "status" ∷ "artifact_identity" ∷ []) value >>= check_approval

abbrev pub authorization_ref : GuestAttemptLease → Text
authorization_ref lease = codes "guest-scan:" ++ lease.guest_scan_id

-- The policy of the guests: all capabilities and the whole budgets of their profile, for which the
-- table has budgets.
unfoldable pub guest_request : Option ScannerExecutionRequest
guest_request = do
  budgets ← budget_ceiling guest_safe
  some (record {
    profile = guest_safe;
    requested_capabilities = allowed_capabilities guest_safe;
    budgets = budgets;
  })

-- The envelope as the object that the runner is given.
abbrev pub envelope_value :
    GuestAttemptLease → ScannerExecutionRequest → ScannerTemplateApproval → Value
envelope_value lease request approval = object (
    entry "schema_version" (number 1) (
      entry "job_id" (string lease.guest_scan_id) (
        entry "attempt_id" (string lease.attempt_id) (
          entry "fence" (number lease.monotonic_fence) (
            entry "canonical_target" (string lease.canonical_target) (
              entry "authorization_ref" (string (authorization_ref lease)) (
                entry "lease_expires_at_unix_seconds" (number lease.lease_expires_at_unix_seconds) (
                  entry "hard_deadline_unix_seconds" (number lease.hard_deadline_unix_seconds) (
                    entry "policy" (request_value request) (
                      entry "artifact_identity" (artifact_value approval.artifact_identity)
                        end))))))))))

abbrev pub trusted_of : GuestAttemptLease → ℕ → ScannerTemplateApproval → TrustedExecutionState
trusted_of lease now approval = record {
  now_unix_seconds = now;
  job_id = lease.guest_scan_id;
  attempt_id = lease.attempt_id;
  fence = lease.monotonic_fence;
  canonical_target = lease.canonical_target;
  authorization_ref = authorization_ref lease;
  lease_expires_at_unix_seconds = lease.lease_expires_at_unix_seconds;
  hard_deadline_unix_seconds = lease.hard_deadline_unix_seconds;
  approval = some approval;
}

pub record ExecutionContext : Type 0 where
  pub envelope : Value
  pub trusted : TrustedExecutionState

-- `load`, with the answers of the clock and of the provider of the approval, `none` where one throws.
unfoldable pub load : Option Value → Option Value → GuestAttemptLease → Option ExecutionContext
load clock provider lease = do
  now_value ← clock
  raw_approval ← provider
  approval ← parse_approval raw_approval
  now ← as_safe_natural now_value
  guard (leb 1 now)
  guard (ltb now lease.lease_expires_at_unix_seconds && ltb now lease.hard_deadline_unix_seconds)
  request ← guest_request
  some (record {
    envelope = envelope_value lease request approval;
    trusted = trusted_of lease now approval;
  })
