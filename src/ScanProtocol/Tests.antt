-- ===== src/ScanProtocol/Tests.antt =====
-- Runs of apps/api/src/scan-protocol, and the theorems at concrete inputs.
use outscan.Prelude.{◌≤◌, ◌≡◌, refl, ◌↔◌, true, false, none, List, [], ◌∷◌, length, arith}
use outscan.Js.{Text, codes, text_eq}
use outscan.Js.Patterns.{is_identifier, is_digest}
use outscan.ScanProtocol.Fsm.{
  JobState, JobEvent, AttemptState, AttemptEvent, allowed, transition_job, transition_attempt,
}
use outscan.ScanProtocol.Fsm.Lifecycle.{
  JobTrace, AttemptTrace, lifetimes_bounded, succeeded_histories,
}
use outscan.ScanProtocol.ResultCommit.{
  ResultSubmissionIdentity, ResultCommitSnapshot, ResultCommitDenyCode, denied, primary_commit,
  write_payload_effects, has_valid_identity, has_valid_snapshot, decide_result_commit,
}
use outscan.ScanProtocol.ResultCommit.Fencing.{
  MayCommit, apply_decision, writes, writes_iff, writes_once, Resubmission, resubmission,
  commit_follows_fsm,
}

abbrev digest : Text
digest = codes "sha256:0123456789abcdef0123456789abcdef0123456789abcdef0123456789abcdef"

abbrev other_digest : Text
other_digest = codes "sha256:1123456789abcdef0123456789abcdef0123456789abcdef0123456789abcdef"

abbrev running_job : ResultCommitSnapshot
running_job = record {
  job_state = JobState.running;
  current_attempt_id = codes "attempt-1";
  current_fence = 4;
  attempt_state = AttemptState.running;
  lease_expires_at_unix_seconds = 1000;
  hard_deadline_unix_seconds = 2000;
  accepted_result = none;
}

abbrev submission : ResultSubmissionIdentity
submission = record { attempt_id = codes "attempt-1"; fence = 4; payload_digest = digest }

abbrev conflicting : ResultSubmissionIdentity
conflicting = record { attempt_id = codes "attempt-1"; fence = 4; payload_digest = other_digest }

commits :
    (decide_result_commit running_job submission 999
      ≡ primary_commit JobState.succeeded AttemptState.succeeded)
    × (decide_result_commit running_job submission 1000
        ≡ denied ResultCommitDenyCode.lease_expired false)
    × (has_valid_identity conflicting ≡ true)
unfolding decide_result_commit has_valid_snapshot has_valid_identity is_identifier is_digest text_eq
commits = (refl, refl, refl)

commit_writes : write_payload_effects (decide_result_commit running_job submission 999) ≡ true
commit_writes = rw (commits.0)

writes_iff_example :
    (write_payload_effects (decide_result_commit running_job submission 999) ≡ true)
    ↔ MayCommit running_job submission 999
writes_iff_example = writes_iff running_job submission 999

writes_once_example :
    writes running_job ((submission, 900) ∷ (conflicting, 901) ∷ (submission, 5000) ∷ []) ≤ 1
writes_once_example =
    writes_once running_job ((submission, 900) ∷ (conflicting, 901) ∷ (submission, 5000) ∷ [])

resubmission_example : Resubmission submission conflicting (
    decide_result_commit
      (apply_decision running_job submission (decide_result_commit running_job submission 999))
      conflicting
      1500)
resubmission_example =
    resubmission running_job submission conflicting 999 1500 commit_writes commits.2 (omega arith)
      (omega arith)

commit_follows_fsm_example :
    let t =
      apply_decision running_job submission (decide_result_commit running_job submission 999) in
    (transition_job JobState.running JobEvent.primary_result_committed ≡ allowed t.job_state)
    × (transition_attempt AttemptState.running AttemptEvent.primary_result_committed
        ≡ allowed t.attempt_state)
commit_follows_fsm_example = commit_follows_fsm running_job submission 999 commit_writes

abbrev job_events : List JobEvent
job_events = JobEvent.attempt_started ∷ JobEvent.primary_result_committed ∷ []

abbrev attempt_events : List AttemptEvent
attempt_events =
    AttemptEvent.lease_acquired ∷ AttemptEvent.scanner_started
    ∷ AttemptEvent.primary_result_committed ∷ []

job_history : JobTrace JobState.queued job_events JobState.succeeded
unfolding transition_job
job_history = JobTrace.step refl (JobTrace.step refl JobTrace.stay)

attempt_history : AttemptTrace AttemptState.created attempt_events AttemptState.succeeded
unfolding transition_attempt
attempt_history =
    AttemptTrace.step refl (AttemptTrace.step refl (AttemptTrace.step refl AttemptTrace.stay))

lifetimes_bounded_example : (length job_events ≤ 2) × (length attempt_events ≤ 3)
lifetimes_bounded_example = lifetimes_bounded job_history attempt_history

succeeded_histories_example : (job_events ≡ job_events) × (attempt_events ≡ attempt_events)
succeeded_histories_example = succeeded_histories job_history attempt_history
