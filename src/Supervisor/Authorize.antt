-- ===== src/Supervisor/Authorize.antt =====
-- Whether an execution may start: apps/api/src/supervisor/authorize.ts.
pub mod Allowed
use outscan.Prelude.{
  ℕ, Bool, true, false, not, ◌&&◌, ◌||◌, Option, none, some, List, [], ◌∷◌, ◌++◌, String, leb, ◌==◌,
  if◌then◌else◌, length, ◌>>=◌, ◌>>◌, guard,
}
use outscan.Js.{
  Text, codes, Value, number, Entries, get, exact_record, as_string, as_safe_natural, text_eq,
}
use outscan.Js.Patterns.{is_identifier}
use outscan.ScannerPolicy.{
  Profile, ScannerExecutionRequest, PolicyDecision, authorized, authorize_scanner_execution,
}
use outscan.ScannerPolicy.Complete.{profile_name}
use outscan.Supervisor.{
  ExecutionEnvelope, TrustedExecutionState, ScannerTemplateApproval, approved, revoked,
  SupervisorDecision, allowed, denied, invalid_envelope, stale_attempt, authorization_mismatch,
  lease_expired, attempt_deadline_exceeded, policy_denied, approval_required, approval_revoked,
  artifact_not_approved,
}
use outscan.Supervisor.Artifact.{parse_artifact_identity, matches_approval}

abbrev pub envelope_keys : List String
envelope_keys =
    "schema_version" ∷ "job_id" ∷ "attempt_id" ∷ "fence" ∷ "canonical_target" ∷ "authorization_ref"
    ∷ "lease_expires_at_unix_seconds" ∷ "hard_deadline_unix_seconds" ∷ "policy"
    ∷ "artifact_identity" ∷ []

-- `isSafePositiveInteger`.
abbrev pub as_positive : Value → Option ℕ
as_positive v = do n ← as_safe_natural v; guard (leb 1 n); some n

-- White space and line terminators, which `trim` takes off.
unfoldable pub is_space : ℕ → Bool
is_space c =
    (leb 9 c && leb c 13)
    || c == 32
    || c == 0xa0
    || c == 0x1680
    || (leb 0x2000 c && leb c 0x200a)
    || c == 0x2028
    || c == 0x2029
    || c == 0x202f
    || c == 0x205f
    || c == 0x3000
    || c == 0xfeff

unfoldable pub trim_start : Text → Text
trim_start [] = []
trim_start (c ∷ cs) = let rest = trim_start cs in if is_space c then rest else c ∷ cs

abbrev pub keep_unless_blank : ℕ → Text → Text
keep_unless_blank c [] = if is_space c then [] else c ∷ []
keep_unless_blank c (d ∷ ds) = c ∷ d ∷ ds

unfoldable pub trim_end : Text → Text
trim_end [] = []
trim_end (c ∷ cs) = keep_unless_blank c (trim_end cs)

-- `isBoundedString`.
unfoldable pub is_bounded_string : Text → ℕ → Bool
unfolding trim_start trim_end
is_bounded_string t max_length =
    leb 1 (length t) && leb (length t) max_length && text_eq t (trim_end (trim_start t))

unfoldable pub check_envelope : Entries → Option ExecutionEnvelope
check_envelope input = do
  schema ← as_safe_natural (get "schema_version" input)
  guard (schema == 1)
  job ← as_string (get "job_id" input)
  guard (is_identifier job)
  attempt ← as_string (get "attempt_id" input)
  guard (is_identifier attempt)
  fence ← as_positive (get "fence" input)
  target ← as_string (get "canonical_target" input)
  guard (is_bounded_string target 253)
  reference ← as_string (get "authorization_ref" input)
  guard (is_bounded_string reference 256)
  lease ← as_positive (get "lease_expires_at_unix_seconds" input)
  deadline ← as_positive (get "hard_deadline_unix_seconds" input)
  artifact ← parse_artifact_identity (get "artifact_identity" input)
  some (record {
    job_id = job;
    attempt_id = attempt;
    fence = fence;
    canonical_target = target;
    authorization_ref = reference;
    lease_expires_at_unix_seconds = lease;
    hard_deadline_unix_seconds = deadline;
    artifact_identity = artifact;
  })

-- The envelope, and its policy as it arrived.
unfoldable pub parse_envelope : Value → Option (ExecutionEnvelope × Value)
parse_envelope input = do
  es ← exact_record envelope_keys input
  envelope ← check_envelope es
  some (envelope, get "policy" es)

abbrev pub approve :
    ExecutionEnvelope
    → ScannerExecutionRequest
    → Option ScannerTemplateApproval
    → SupervisorDecision
approve envelope request none = denied approval_required
approve envelope request (some approval) = elim approval.status [
  | revoked ↦ denied approval_revoked
  | approved ↦
      if not (matches_approval envelope.artifact_identity approval)
      then denied artifact_not_approved
      else allowed envelope request
]

-- The artifact is the one of the policy and of its profile.
abbrev pub of_policy : ExecutionEnvelope → ScannerExecutionRequest → Bool
of_policy envelope request =
    text_eq envelope.artifact_identity.policy_id (codes "outscan-v1")
    && text_eq envelope.artifact_identity.policy_version (codes "1.0.0")
    && text_eq envelope.artifact_identity.profile (profile_name request.profile)

abbrev pub authorize_policy :
    ExecutionEnvelope → TrustedExecutionState → PolicyDecision → SupervisorDecision
authorize_policy envelope trusted (PolicyDecision.denied code) = denied (policy_denied code)
authorize_policy envelope trusted (authorized request) =
    if not (of_policy envelope request)
    then denied artifact_not_approved
    else approve envelope request trusted.approval

-- The tests behind the one on the shape of the envelope, in their order.
unfoldable pub authorize_envelope :
    ExecutionEnvelope → Value → TrustedExecutionState → SupervisorDecision
authorize_envelope envelope policy trusted =
    if not (text_eq envelope.job_id trusted.job_id)
      || not (text_eq envelope.attempt_id trusted.attempt_id)
      || not (envelope.fence == trusted.fence)
    then denied stale_attempt
    else (if not (text_eq envelope.canonical_target trusted.canonical_target)
          || not (text_eq envelope.authorization_ref trusted.authorization_ref)
        then denied authorization_mismatch
        else (if not
                (envelope.lease_expires_at_unix_seconds == trusted.lease_expires_at_unix_seconds)
              || leb trusted.lease_expires_at_unix_seconds trusted.now_unix_seconds
            then denied lease_expired
            else (if not (envelope.hard_deadline_unix_seconds == trusted.hard_deadline_unix_seconds)
                  || leb trusted.hard_deadline_unix_seconds trusted.now_unix_seconds
                then denied attempt_deadline_exceeded
                else authorize_policy envelope trusted (authorize_scanner_execution policy))))

unfoldable pub authorize_supervisor_execution : Value → TrustedExecutionState → SupervisorDecision
authorize_supervisor_execution input trusted = elim (parse_envelope input) [
  | none ↦ denied invalid_envelope
  | some (envelope, policy) ↦ authorize_envelope envelope policy trusted
]
