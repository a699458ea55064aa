-- ===== src/ScanProtocol/ResultCommit/Fencing.antt =====
-- A result is written at most once, by the attempt that holds the fence, in time.
use outscan.Prelude.{
  ℕ, ◌≤◌, ◌<◌, ◌≡◌, refl, ◌≢◌, ◌↔◌, suc, inl, inr, Bool-cases, true, false, none, some, List, [],
  ◌∷◌, arith, if◌then◌else◌,
}
use outscan.Js.{max_safe_integer, text_eq_iff}
use outscan.ScanProtocol.Fsm.{
  JobState, JobEvent, AttemptState, AttemptEvent, allowed, transition_job, transition_attempt,
}
use outscan.ScanProtocol.ResultCommit.{
  ResultSubmissionIdentity, ResultCommitSnapshot, ResultCommitDenyCode, ResultCommitDecision,
  primary_commit, already_committed, denied, write_payload_effects, has_valid_identity,
  has_valid_snapshot, decide_succeeded, decide_result_commit,
}

-- What has to hold for a submission to be the first one that is accepted.
pub record MayCommit (s : ResultCommitSnapshot) (r : ResultSubmissionIdentity) (now : ℕ)
    : Type 0 where
  pub snapshot_valid : has_valid_snapshot s ≡ true
  pub identity_valid : has_valid_identity r ≡ true
  pub clock_positive : 0 < now
  pub clock_safe : now ≤ max_safe_integer
  pub job_running : s.job_state ≡ JobState.running
  pub attempt_running : s.attempt_state ≡ AttemptState.running
  pub nothing_accepted : s.accepted_result ≡ none
  pub same_attempt : r.attempt_id ≡ s.current_attempt_id
  pub same_fence : r.fence ≡ s.current_fence
  pub lease_live : now < s.lease_expires_at_unix_seconds
  pub before_deadline : now < s.hard_deadline_unix_seconds

-- A decision writes the payload exactly when the snapshot, the submission and the clock are valid,
-- job and attempt run, nothing was accepted before, the submission has the current attempt and
-- fence, and both the lease and the hard deadline lie in the future.
pub writes_iff :
    (s : ResultCommitSnapshot) (r : ResultSubmissionIdentity) (now : ℕ)
    → (write_payload_effects (decide_result_commit s r now) ≡ true) ↔ MayCommit s r now
unfolding decide_result_commit
writes_iff s r now = (
  λ h. ground (arith, text_eq_iff r.attempt_id s.current_attempt_id),
  λ h. ground (arith, text_eq_iff r.attempt_id s.current_attempt_id),
)

-- The stored state after a decision: a primary commit moves the job and the attempt to the states
-- that the decision names and records the submission; nothing else writes.
abbrev pub apply_decision :
    ResultCommitSnapshot → ResultSubmissionIdentity → ResultCommitDecision → ResultCommitSnapshot
apply_decision s r (primary_commit job attempt) = record s {
  job_state = job;
  attempt_state = attempt;
  accepted_result = some r;
}
apply_decision s r already_committed = s
apply_decision s r (denied _ _) = s

-- How often the payload is written while submissions arrive, each with the clock at its decision.
pub writes : ResultCommitSnapshot → List (ResultSubmissionIdentity × ℕ) → ℕ
writes s [] = 0
writes s ((r, now) ∷ rs) =
    let d = decide_result_commit s r now in
    let rest = writes (apply_decision s r d) rs in
    if write_payload_effects d then suc rest else rest

succeeded_stays :
    (s : ResultCommitSnapshot) (r : ResultSubmissionIdentity) (now : ℕ)
    → s.job_state ≡ JobState.succeeded
    → (apply_decision s r (decide_result_commit s r now) ≡ s)
      × (write_payload_effects (decide_result_commit s r now) ≡ false)
unfolding decide_result_commit
succeeded_stays s r now h = ground arith

writes_after_success :
    (s : ResultCommitSnapshot) (rs : List (ResultSubmissionIdentity × ℕ))
    → s.job_state ≡ JobState.succeeded
    → writes s rs ≡ 0
unfolding writes
writes_after_success s [] h = refl
writes_after_success s ((r, now) ∷ rs) h =
    let (same, quiet) = succeeded_stays s r now h in rw (same, quiet) (writes_after_success s rs h)

write_succeeds :
    (s : ResultCommitSnapshot) (r : ResultSubmissionIdentity) (now : ℕ)
    → (write_payload_effects (decide_result_commit s r now) ≡ true)
    → (apply_decision s r (decide_result_commit s r now)).job_state ≡ JobState.succeeded
unfolding decide_result_commit
write_succeeds s r now h = ground arith

no_write_stays :
    (s : ResultCommitSnapshot) (r : ResultSubmissionIdentity) (now : ℕ)
    → (write_payload_effects (decide_result_commit s r now) ≡ false)
    → apply_decision s r (decide_result_commit s r now) ≡ s
unfolding decide_result_commit
no_write_stays s r now h = ground arith

-- Whatever is submitted to a job, by whom, how often and when, its payload is written at most once.
pub writes_once :
    (s : ResultCommitSnapshot) (rs : List (ResultSubmissionIdentity × ℕ)) → writes s rs ≤ 1
unfolding writes
writes_once s [] = omega arith
writes_once s ((r, now) ∷ rs) =
    elim (Bool-cases (write_payload_effects (decide_result_commit s r now))) [
      | inl wrote ↦
          rw
            (
              wrote,
              writes_after_success (apply_decision s r (decide_result_commit s r now)) rs
                  (write_succeeds s r now wrote),
            )
            (omega arith)
      | inr quiet ↦ rw (quiet, no_write_stays s r now quiet) (writes_once s rs)
    ]

decide_after_write :
    (s : ResultCommitSnapshot) (r r' : ResultSubmissionIdentity) (now later : ℕ)
    → write_payload_effects (decide_result_commit s r now) ≡ true
    → has_valid_identity r' ≡ true
    → now ≤ later
    → later ≤ max_safe_integer
    → decide_result_commit (apply_decision s r (decide_result_commit s r now)) r' later
      ≡ decide_succeeded (some r) r'
unfolding decide_result_commit has_valid_snapshot
decide_after_write s r r' now later w v le safe = ground arith

-- What a later valid submission gets.
abbrev pub Resubmission :
    (accepted submitted : ResultSubmissionIdentity) → ResultCommitDecision → Type 0
Resubmission accepted submitted d =
    ((d ≡ already_committed) ↔ (submitted ≡ accepted))
    × ((d ≡ denied ResultCommitDenyCode.result_digest_conflict true) ↔ (
        (submitted.attempt_id ≡ accepted.attempt_id)
        × (submitted.fence ≡ accepted.fence)
        × (submitted.payload_digest ≢ accepted.payload_digest)))
    × ((d ≡ denied ResultCommitDenyCode.stale_attempt false)
        ↔ (¬ ((submitted.attempt_id ≡ accepted.attempt_id) × (submitted.fence ≡ accepted.fence))))

decide_succeeded_cases :
    (r r' : ResultSubmissionIdentity) → Resubmission r r' (decide_succeeded (some r) r')
unfolding decide_succeeded
decide_succeeded_cases r r' =
    ground (
      arith,
      text_eq_iff r.attempt_id r'.attempt_id,
      text_eq_iff r.payload_digest r'.payload_digest,
    )

-- After a submission was written, a later valid submission at a valid time is acknowledged exactly
-- if it is the same one, is a conflict for the security audit exactly if attempt and fence agree and
-- the digest differs, and is stale exactly if attempt or fence differs.
pub resubmission :
    (s : ResultCommitSnapshot) (r r' : ResultSubmissionIdentity) (now later : ℕ)
    → write_payload_effects (decide_result_commit s r now) ≡ true
    → has_valid_identity r' ≡ true
    → now ≤ later
    → later ≤ max_safe_integer
    → Resubmission r r'
        (decide_result_commit (apply_decision s r (decide_result_commit s r now)) r' later)
resubmission s r r' now later w v le safe =
    rw (decide_after_write s r r' now later w v le safe) (decide_succeeded_cases r r')

-- What a primary commit stores is what the transition tables allow: both machines accept the event
-- of a committed result in the states from which the decision was made, and the states stored are
-- those that they move to.
pub commit_follows_fsm :
    (s : ResultCommitSnapshot) (r : ResultSubmissionIdentity) (now : ℕ)
    → write_payload_effects (decide_result_commit s r now) ≡ true
    → let t = apply_decision s r (decide_result_commit s r now) in
      (transition_job s.job_state JobEvent.primary_result_committed ≡ allowed t.job_state)
      × (transition_attempt s.attempt_state AttemptEvent.primary_result_committed
          ≡ allowed t.attempt_state)
unfolding decide_result_commit transition_job transition_attempt
commit_follows_fsm s r now w = ground arith
