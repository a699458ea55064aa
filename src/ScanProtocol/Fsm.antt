-- ===== src/ScanProtocol/Fsm.antt =====
-- The transition tables of a scan job and of its attempts:
-- apps/api/src/scan-protocol/model.ts and fsm.ts. A pair that a table lacks is denied.
pub mod Lifecycle
use outscan.Prelude.{Option, none, some}

pub data JobState : Type 0 where
  queued running succeeded failed cancelled expired : JobState

pub data JobEvent : Type 0 where
  attempt_started cancel authorization_revoked deadline_exceeded primary_result_committed
        retry_budget_exhausted :
      JobEvent

pub data AttemptState : Type 0 where
  created leased running succeeded failed timed_out cancelled superseded : AttemptState

pub data AttemptEvent : Type 0 where
  lease_acquired job_cancelled_or_expired scanner_started lease_expired_or_invalidated
        primary_result_committed scanner_or_policy_failed hard_deadline_exceeded job_cancelled
        newer_attempt_fence :
      AttemptEvent

pub data TransitionDecision (State : Type 0) : Type 0 where
  allowed : State → TransitionDecision State
  invalid_transition : TransitionDecision State

unfoldable pub job_transitions : JobState → JobEvent → Option JobState
job_transitions JobState.queued JobEvent.attempt_started = some JobState.running
job_transitions JobState.queued JobEvent.cancel = some JobState.cancelled
job_transitions JobState.queued JobEvent.deadline_exceeded = some JobState.expired
job_transitions JobState.running JobEvent.primary_result_committed = some JobState.succeeded
job_transitions JobState.running JobEvent.retry_budget_exhausted = some JobState.failed
job_transitions JobState.running JobEvent.cancel = some JobState.cancelled
job_transitions JobState.running JobEvent.authorization_revoked = some JobState.cancelled
job_transitions JobState.running JobEvent.deadline_exceeded = some JobState.expired
job_transitions _ _ = none

unfoldable pub attempt_transitions : AttemptState → AttemptEvent → Option AttemptState
attempt_transitions AttemptState.created AttemptEvent.lease_acquired = some AttemptState.leased
attempt_transitions AttemptState.created AttemptEvent.job_cancelled_or_expired =
    some AttemptState.cancelled
attempt_transitions AttemptState.leased AttemptEvent.scanner_started = some AttemptState.running
attempt_transitions AttemptState.leased AttemptEvent.lease_expired_or_invalidated =
    some AttemptState.superseded
attempt_transitions AttemptState.running AttemptEvent.primary_result_committed =
    some AttemptState.succeeded
attempt_transitions AttemptState.running AttemptEvent.scanner_or_policy_failed =
    some AttemptState.failed
attempt_transitions AttemptState.running AttemptEvent.lease_expired_or_invalidated =
    some AttemptState.superseded
attempt_transitions AttemptState.running AttemptEvent.hard_deadline_exceeded =
    some AttemptState.timed_out
attempt_transitions AttemptState.running AttemptEvent.job_cancelled = some AttemptState.cancelled
attempt_transitions AttemptState.running AttemptEvent.newer_attempt_fence =
    some AttemptState.superseded
attempt_transitions _ _ = none

abbrev decision : {State : Type 0} → Option State → TransitionDecision State
decision none = invalid_transition
decision (some next) = allowed next

unfoldable pub transition_job : JobState → JobEvent → TransitionDecision JobState
unfolding job_transitions
transition_job current event = decision (job_transitions current event)

unfoldable pub transition_attempt : AttemptState → AttemptEvent → TransitionDecision AttemptState
unfolding attempt_transitions
transition_attempt current event = decision (attempt_transitions current event)
