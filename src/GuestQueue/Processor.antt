-- ===== src/GuestQueue/Processor.antt =====
-- The processor of the queue: apps/api/src/guest-queue/processor.ts. The leases, the contexts, the
-- runner, the committer and the sink of rejections are an argument, the answers that they give; `none`
-- is a call that throws or rejects. What the processor does is the list of its effects.
pub mod Heartbeat
pub mod Reports
pub mod Ordered
use outscan.Prelude.{
  ℕ, Bool, true, false, not, ◌&&◌, ◌||◌, Option, none, some, List, [], ◌∷◌, ◌++◌, leb, ◌==◌,
  if◌then◌else◌, ◌>>=◌, ◌>>◌, guard,
}
use outscan.Js.{Text, Value, undefined, object, Entries, get, fields_of, as_safe_natural}
use outscan.GuestQueue.{
  GuestAttemptLease, LeaseCommand, GuestQueueMessage, GuestQueueOutcome, committed,
  already_committed, terminal_acknowledged, not_acquirable_acknowledged, retry_lease_held,
  retry_persistence, retry_context, retry_start, retry_heartbeat, retry_supervisor,
  retry_rejection_sink, retry_commit, parse_guest_queue_message,
}
use outscan.GuestQueue.Processor.Heartbeat.{
  Beat, RenewAnswer, lease_command, Renewals, first_renewals, beat_all, settle_renewals,
}

pub data AcquireAnswer : Type 0 where
  lease_acquired : GuestAttemptLease → AcquireAnswer
  job_terminated : AcquireAnswer
  not_acquirable : AcquireAnswer
  lease_held : AcquireAnswer
  acquire_refused : AcquireAnswer

-- `run.result`: the submission that it reads, `none` where `read_submission` throws.
pub data RunAnswer : Type 0 where
  run_ok : Option Value → RunAnswer
  run_failed : RunAnswer

-- The code of a refused commit is a text here.
pub data CommitAnswer : Type 0 where
  primary_commit : CommitAnswer
  commit_repeated : CommitAnswer
  commit_refused : Text → Bool → CommitAnswer

pub data RecordAnswer : Type 0 where
  rejection_recorded : Bool → RecordAnswer
  record_refused : RecordAnswer

pub record GuestResultRejection : Type 0 where
  pub guest_scan_id : Text
  pub attempt_id : Text
  pub monotonic_fence : ℕ
  pub rejection_code : Text

-- The run of an attempt: what happens to the heartbeat before the runner settles, how it settles, and
-- the answer to a renewal that is then still in flight.
pub record RunTurns : Type 0 where
  pub beats : List Beat
  pub settles : Option RunAnswer
  pub last : Option RenewAnswer

pub record Outside : Type 0 where
  pub acquire : Text → Option AcquireAnswer
  pub start : LeaseCommand → Option Bool
  pub load : GuestAttemptLease → Option Value
  pub run : Value → Value → RunTurns
  pub commit : Value → Option CommitAnswer
  pub reject : GuestResultRejection → Option RecordAnswer
  pub record_outcome : GuestQueueOutcome → Bool  -- whether `telemetry.record` returns

pub data Effect : Type 0 where
  acquires : Text → Effect
  starts : LeaseCommand → Effect
  loads : GuestAttemptLease → Effect
  runs : Value → Value → List LeaseCommand → Effect
  commits : Value → Effect
  rejects : GuestResultRejection → Effect
  records : GuestQueueOutcome → Effect

-- How the processing of a message ends: it is acknowledged, it throws the error by which the queue tries
-- it again, it throws the error of the telemetry, or it throws at once.
pub data Ending : Type 0 where
  acknowledged : GuestQueueOutcome → Ending
  retries : GuestQueueOutcome → Ending
  telemetry_threw : Ending
  invalid_message : Ending

pub record Run : Type 0 where
  pub effects : List Effect
  pub ending : Ending

abbrev pub after : Effect → Run → Run
after e r = record { effects = e ∷ r.effects; ending = r.ending }

-- What follows a call of `telemetry.record`.
abbrev pub if_recorded : Bool → Ending → Ending
if_recorded true ending = ending
if_recorded false ending = telemetry_threw

abbrev pub retry : Outside → GuestQueueOutcome → Run
retry outside outcome = record {
  effects = records outcome ∷ [];
  ending = if_recorded (outside.record_outcome outcome) (retries outcome);
}

abbrev pub acknowledge : Outside → GuestQueueOutcome → Run
acknowledge outside outcome = record {
  effects = records outcome ∷ [];
  ending = if_recorded (outside.record_outcome outcome) (acknowledged outcome);
}

abbrev pub is_record : Value → Bool
is_record (object _) = true
is_record _ = false

-- `executionContext`: the envelope and the trusted state.
unfoldable pub execution_context : Value → Option (Value × Value)
execution_context value = do
  es ← fields_of ("envelope" ∷ "trusted" ∷ []) value
  guard (is_record (get "envelope" es) && is_record (get "trusted" es))
  some (get "envelope" es, get "trusted" es)

abbrev pub min_heartbeat_ms : ℕ
min_heartbeat_ms = 100

abbrev pub max_heartbeat_ms : ℕ
max_heartbeat_ms = 10000

-- `heartbeatInterval`.
unfoldable pub heartbeat_interval : Value → Option ℕ
heartbeat_interval undefined = some 5000
heartbeat_interval v = do
  n ← as_safe_natural v
  guard (leb min_heartbeat_ms n && leb n max_heartbeat_ms)
  some n

abbrev pub rejection_of : GuestAttemptLease → Text → GuestResultRejection
rejection_of lease code = record {
  guest_scan_id = lease.guest_scan_id;
  attempt_id = lease.attempt_id;
  monotonic_fence = lease.monotonic_fence;
  rejection_code = code;
}

abbrev pub rejected : Outside → Bool → Option RecordAnswer → Run
rejected outside emit_security_audit none = retry outside retry_rejection_sink
rejected outside emit_security_audit (some record_refused) = retry outside retry_rejection_sink
rejected outside true (some (rejection_recorded true)) = retry outside retry_commit
rejected outside false (some (rejection_recorded false)) = retry outside retry_commit
rejected outside true (some (rejection_recorded false)) = retry outside retry_rejection_sink
rejected outside false (some (rejection_recorded true)) = retry outside retry_rejection_sink

abbrev pub committing : Outside → GuestAttemptLease → Option CommitAnswer → Run
committing outside lease none = retry outside retry_commit
committing outside lease (some primary_commit) = acknowledge outside committed
committing outside lease (some commit_repeated) = acknowledge outside already_committed
committing outside lease (some (commit_refused code emit_security_audit)) =
    let rejection = rejection_of lease code in
    after (rejects rejection) (rejected outside emit_security_audit (outside.reject rejection))

abbrev pub submitting : Outside → GuestAttemptLease → Option Value → Run
submitting outside lease none = retry outside retry_commit
submitting outside lease (some submission) =
    after (commits submission) (committing outside lease (outside.commit submission))

-- The runner has settled, and the heartbeat was lost or not.
abbrev pub ran : Outside → GuestAttemptLease → Option RunAnswer → Bool → Run
ran outside lease none lost = retry outside retry_supervisor
ran outside lease (some answer) true = retry outside retry_heartbeat
ran outside lease (some run_failed) false = retry outside retry_supervisor
ran outside lease (some (run_ok submission)) false = submitting outside lease submission

-- `runWithHeartbeat`, and what follows.
abbrev pub running : Outside → GuestAttemptLease → Value → Value → Run
running outside lease envelope trusted =
    let turns = outside.run envelope trusted in
    let renewals = beat_all turns.beats (first_renewals lease) in
    after (runs envelope trusted renewals.sent)
      (ran outside lease turns.settles (settle_renewals turns.last renewals).lost)

abbrev pub contextual : Outside → GuestAttemptLease → Option (Value × Value) → Run
contextual outside lease none = retry outside retry_context
contextual outside lease (some (envelope, trusted)) = running outside lease envelope trusted

abbrev pub started : Outside → GuestAttemptLease → Option Bool → Run
started outside lease (some true) =
    after (loads lease) (contextual outside lease (outside.load lease >>= execution_context))
started outside lease _ = retry outside retry_start

abbrev pub acquired : Outside → Option AcquireAnswer → Run
acquired outside none = retry outside retry_persistence
acquired outside (some not_acquirable) = acknowledge outside not_acquirable_acknowledged
acquired outside (some lease_held) = retry outside retry_lease_held
acquired outside (some acquire_refused) = retry outside retry_persistence
acquired outside (some job_terminated) = acknowledge outside terminal_acknowledged
acquired outside (some (lease_acquired lease)) =
    let command = lease_command lease in
    after (starts command) (started outside lease (outside.start command))

abbrev pub processing : Outside → Option GuestQueueMessage → Run
processing outside none = record { effects = []; ending = invalid_message }
processing outside (some message) =
    after (acquires message.guest_scan_id)
      (acquired outside (outside.acquire message.guest_scan_id))

unfoldable pub process : Outside → Value → Run
process outside value = processing outside (parse_guest_queue_message value)
