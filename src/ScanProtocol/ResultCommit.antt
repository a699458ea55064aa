-- ===== src/ScanProtocol/ResultCommit.antt =====
-- The decision on a submitted scan result: apps/api/src/scan-protocol/result-commit.ts. Numbers
-- that are no positive integers are all refused by the first test; 0 stands for them.
pub mod Fencing
use outscan.Prelude.{
  ℕ, Bool, true, false, not, ◌&&◌, ◌||◌, Option, none, some, ltb, leb, ◌==◌, if◌then◌else◌,
}
use outscan.Js.{Text, codes, text_eq, max_safe_integer}
use outscan.Js.Patterns.{is_identifier, is_digest}
use outscan.ScanProtocol.Fsm.{JobState, AttemptState}

-- Also `AcceptedResultIdentity`, which has the same fields.
pub record ResultSubmissionIdentity : Type 0 where
  pub attempt_id : Text
  pub fence : ℕ
  pub payload_digest : Text

pub record ResultCommitSnapshot : Type 0 where
  pub job_state : JobState
  pub current_attempt_id : Text
  pub current_fence : ℕ
  pub attempt_state : AttemptState
  pub lease_expires_at_unix_seconds : ℕ
  pub hard_deadline_unix_seconds : ℕ
  pub accepted_result : Option ResultSubmissionIdentity

pub data ResultCommitDenyCode : Type 0 where
  invalid_state job_not_running attempt_not_running stale_attempt lease_expired
        attempt_deadline_exceeded result_digest_conflict :
      ResultCommitDenyCode

pub data ResultCommitDecision : Type 0 where
  primary_commit :
      (next_job_state : JobState) (next_attempt_state : AttemptState) → ResultCommitDecision
  already_committed : ResultCommitDecision
  denied : ResultCommitDenyCode → (emit_security_audit : Bool) → ResultCommitDecision

-- The field `write_payload_effects` of a decision.
abbrev pub write_payload_effects : ResultCommitDecision → Bool
write_payload_effects (primary_commit _ _) = true
write_payload_effects already_committed = false
write_payload_effects (denied _ _) = false

abbrev deny : ResultCommitDenyCode → ResultCommitDecision
deny code = denied code false

abbrev pub is_positive_safe_integer : ℕ → Bool
is_positive_safe_integer value = leb value max_safe_integer && ltb 0 value

unfoldable pub has_valid_identity : ResultSubmissionIdentity → Bool
has_valid_identity identity =
    is_identifier identity.attempt_id
    && is_positive_safe_integer identity.fence
    && is_digest (codes "sha256:") identity.payload_digest

abbrev valid_or_null : Option ResultSubmissionIdentity → Bool
valid_or_null none = true
valid_or_null (some accepted) = has_valid_identity accepted

unfoldable pub has_valid_snapshot : ResultCommitSnapshot → Bool
has_valid_snapshot snapshot =
    is_identifier snapshot.current_attempt_id
    && is_positive_safe_integer snapshot.current_fence
    && is_positive_safe_integer snapshot.lease_expires_at_unix_seconds
    && is_positive_safe_integer snapshot.hard_deadline_unix_seconds
    && valid_or_null snapshot.accepted_result

unfoldable pub same_attempt_and_fence : ResultSubmissionIdentity → ResultSubmissionIdentity → Bool
same_attempt_and_fence accepted submitted =
    text_eq accepted.attempt_id submitted.attempt_id && accepted.fence == submitted.fence

-- The branch of a job that has succeeded.
unfoldable pub decide_succeeded :
    Option ResultSubmissionIdentity → ResultSubmissionIdentity → ResultCommitDecision
unfolding same_attempt_and_fence
decide_succeeded none submission = denied ResultCommitDenyCode.invalid_state true
decide_succeeded (some accepted) submission =
    if not (same_attempt_and_fence accepted submission)
    then deny ResultCommitDenyCode.stale_attempt
    else (if not (text_eq accepted.payload_digest submission.payload_digest)
        then denied ResultCommitDenyCode.result_digest_conflict true
        else already_committed)

abbrev pub is_running : AttemptState → Bool
is_running AttemptState.running = true
is_running _ = false

-- The branch of a running job that has accepted nothing yet.
unfoldable pub decide_running :
    ResultCommitSnapshot → ResultSubmissionIdentity → ℕ → ResultCommitDecision
decide_running snapshot submission now =
    if not (text_eq submission.attempt_id snapshot.current_attempt_id)
      || not (submission.fence == snapshot.current_fence)
    then deny ResultCommitDenyCode.stale_attempt
    else (if not (is_running snapshot.attempt_state)
        then deny ResultCommitDenyCode.attempt_not_running
        else (if leb snapshot.lease_expires_at_unix_seconds now
            then deny ResultCommitDenyCode.lease_expired
            else (if leb snapshot.hard_deadline_unix_seconds now
                then deny ResultCommitDenyCode.attempt_deadline_exceeded
                else primary_commit JobState.succeeded AttemptState.succeeded)))

unfoldable pub decide_by_state :
    JobState
    → Option ResultSubmissionIdentity
    → ResultCommitSnapshot
    → ResultSubmissionIdentity
    → ℕ
    → ResultCommitDecision
unfolding decide_succeeded decide_running
decide_by_state JobState.succeeded accepted snapshot submission now =
    decide_succeeded accepted submission
decide_by_state JobState.running none snapshot submission now =
    decide_running snapshot submission now
decide_by_state JobState.running (some _) snapshot submission now =
    denied ResultCommitDenyCode.invalid_state true
decide_by_state _ _ snapshot submission now = deny ResultCommitDenyCode.job_not_running

unfoldable pub decide_result_commit :
    ResultCommitSnapshot → ResultSubmissionIdentity → ℕ → ResultCommitDecision
unfolding decide_by_state
decide_result_commit snapshot submission now =
    if not (has_valid_snapshot snapshot)
      || not (has_valid_identity submission)
      || not (is_positive_safe_integer now)
    then deny ResultCommitDenyCode.invalid_state
    else decide_by_state snapshot.job_state snapshot.accepted_result snapshot submission now
