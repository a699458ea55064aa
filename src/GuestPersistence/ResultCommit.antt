-- ===== src/GuestPersistence/ResultCommit.antt =====
-- Committing a result: apps/api/src/guest-persistence/postgres-result-commit.ts. The transaction runs
-- on the row of the scan, joined with its current attempt; the statements are functions on it that
-- say which rows they match.
pub mod Statements
pub mod Decided
pub mod Once
use outscan.Prelude.{
  ℕ, zero, suc, ◌+◌, ◌-◌, ◌*◌, Bool, true, false, not, ◌&&◌, ◌||◌, Option, none, some, List, [],
  ◌∷◌, ◌++◌, suc, leb, ltb, ◌==◌, if◌then◌else◌, length, all, ◌>>=◌, ◌>>◌, guard,
}
use outscan.Js.{Text, codes, Value, null, string, text_eq, max_safe_integer}
use outscan.Js.Patterns.{is_digit, is_hex}
use outscan.GuestCrypto.Binary.{encode_hex}
use outscan.ResultEnvelope.{digest_bytes}
use outscan.ScanProtocol.Fsm.{JobState, AttemptState}
use outscan.ScanProtocol.ResultCommit.{
  ResultSubmissionIdentity, ResultCommitSnapshot, ResultCommitDenyCode, ResultCommitDecision,
  primary_commit, already_committed, denied, is_running, decide_result_commit,
}
use outscan.GuestPersistence.ScanRow.{
  AcceptedColumns, StoredResult, ScanRow, LockedRow, decimal_from, is_positive_decimal,
  safe_positive_integer, nullable_digest, accepted_of, LockedResultState, map_locked_state,
  accepted_attempt_value, accepted_fence_value, accepted_digest_value, lock_row,
}

-- `lease_expires_at > to_timestamp(now)`, which null does not match.
abbrev pub is_leased : ℕ → Option ℕ → Bool
is_leased now none = false
is_leased now (some end) = ltb now end

-- SUCCEED_ATTEMPT_SQL: `none` where no row is matched.
unfoldable pub succeed_attempt : ResultSubmissionIdentity → ℕ → ScanRow → Option ScanRow
succeed_attempt submission now row =
    if text_eq row.current_attempt_id submission.attempt_id
      && row.current_fence == submission.fence
      && is_running row.attempt_state
      && is_leased now row.lease_expires_at
      && ltb now row.hard_deadline
    then some (record row { attempt_state = AttemptState.succeeded })
    else none

abbrev pub is_job_running : JobState → Bool
is_job_running JobState.running = true
is_job_running _ = false

abbrev pub is_none : Option AcceptedColumns → Bool
is_none none = true
is_none (some _) = false

abbrev pub columns_of : ResultSubmissionIdentity → AcceptedColumns
columns_of submission = record {
  attempt_id = submission.attempt_id;
  fence = submission.fence;
  payload_digest = digest_bytes submission.payload_digest;
}

-- SUCCEED_SCAN_SQL.
unfoldable pub succeed_scan : ResultSubmissionIdentity → ScanRow → Option ScanRow
succeed_scan submission row =
    if is_job_running row.job_state
      && text_eq row.current_attempt_id submission.attempt_id
      && row.current_fence == submission.fence
      && is_none row.accepted
    then some
        (record row { job_state = JobState.succeeded; accepted = some (columns_of submission) })
    else none

-- INSERT_RESULT_SQL, which violates the primary key where the scan has a result.
abbrev pub insert_result :
    ResultSubmissionIdentity → ℕ → Text → ScanRow → List StoredResult → Option ScanRow
insert_result submission now host row [] = some (record row {
  results =
      record { accepted = columns_of submission; completed_at = now; canonical_host = host } ∷ [];
})
insert_result submission now host row (_ ∷ _) = none

pub data CommitFailureCode : Type 0 where
  result_submission_rejected : CommitFailureCode
  commit_denied : ResultCommitDenyCode → CommitFailureCode
  guest_persistence_unavailable : CommitFailureCode

pub data CommitResult : Type 0 where
  stored_new : CommitResult
  committed_before : CommitResult
  failure : CommitFailureCode → Bool → CommitResult

-- How the body of a transaction ends: with the row and an answer, or by throwing an error, of which it
-- is known whether it is retryable.
pub data BodyResult : Type 0 where
  ended : ScanRow → CommitResult → BodyResult
  throws : Bool → BodyResult

-- The two updates, the insertion, and the release of the reservation, which answers or not.
abbrev pub released_or_throw : Bool → ScanRow → BodyResult
released_or_throw true row = ended row stored_new
released_or_throw false row = throws false

abbrev pub inserted : Option ScanRow → Bool → BodyResult
inserted none released = throws true
inserted (some row) released = released_or_throw released row

abbrev pub scan_succeeded : Option ScanRow → ResultSubmissionIdentity → ℕ → Text → Bool → BodyResult
scan_succeeded none submission now host released = throws false
scan_succeeded (some row) submission now host released =
    inserted (insert_result submission now host row row.results) released

abbrev pub attempt_succeeded :
    Option ScanRow → ResultSubmissionIdentity → ℕ → Text → Bool → BodyResult
attempt_succeeded none submission now host released = throws false
attempt_succeeded (some row) submission now host released =
    scan_succeeded (succeed_scan submission row) submission now host released

abbrev pub act_on :
    ResultCommitDecision
    → ScanRow
    → LockedResultState
    → ResultSubmissionIdentity
    → Text
    → Bool
    → BodyResult
act_on (denied code audit) row state submission host released =
    ended row (failure (commit_denied code) audit)
act_on already_committed row state submission host released = ended row committed_before
act_on (primary_commit _ _) row state submission host released =
    if not (text_eq host state.canonical_target)
    then ended row (failure result_submission_rejected true)
    else attempt_succeeded (succeed_attempt submission state.now row) submission state.now host
        released

-- What meets one try of the transaction: no connection; an error of a statement, the last one
-- included, that leaves the row as it was; a last statement that takes effect and whose answer is
-- lost; or no error.
pub data Fault : Type 0 where
  no_connection : Fault
  statement_fails : Bool → Fault  -- whether the error is retryable
  reply_lost : Fault
  no_fault : Fault

-- With the time of the transaction, and whether the reservation of the scan is released.
pub record Turn : Type 0 where
  pub fault : Fault
  pub now : ℕ
  pub released : Bool

pub data TurnOutcome : Type 0 where
  answers : Option ScanRow → CommitResult → TurnOutcome
  tries_again : TurnOutcome

abbrev pub max_transaction_attempts : ℕ
max_transaction_attempts = 3

abbrev pub tried_again : Bool → Option ScanRow → TurnOutcome
tried_again true db = tries_again
tried_again false db = answers db (failure guest_persistence_unavailable false)

abbrev pub of_body : Bool → Option ScanRow → BodyResult → TurnOutcome
of_body lost db (throws retryable) = tried_again retryable db
of_body true db (ended row result) =
    answers (some row) (failure guest_persistence_unavailable false)
of_body false db (ended row result) = answers (some row) result

-- The answer of a try, or that of the tries that remain.
abbrev pub settled : TurnOutcome → Option ScanRow × CommitResult → Option ScanRow × CommitResult
settled (answers after result) rest = (after, result)
settled tries_again rest = rest

module _ (print : ℕ → Text) where
  -- The body of the transaction.
  unfoldable pub commit_body : ScanRow → ℕ → Bool → ResultSubmissionIdentity → Text → BodyResult
  commit_body row now released submission host = elim (map_locked_state (lock_row print row now)) [
    | none ↦ ended row (failure (commit_denied ResultCommitDenyCode.invalid_state) true)
    | some state ↦
        act_on (decide_result_commit state.snapshot submission state.now) row state submission host
          released
  ]

  abbrev pub transact : Bool → Turn → Option ScanRow → ResultSubmissionIdentity → Text → TurnOutcome
  transact true turn none submission host =
      answers none (failure guest_persistence_unavailable false)
  transact false turn none submission host =
      answers none (failure (commit_denied ResultCommitDenyCode.invalid_state) true)
  transact lost turn (some row) submission host =
      of_body lost (some row) (commit_body row turn.now turn.released submission host)

  abbrev pub take_turn :
      Fault → Turn → Option ScanRow → ResultSubmissionIdentity → Text → TurnOutcome
  take_turn no_connection turn db submission host =
      answers db (failure guest_persistence_unavailable false)
  take_turn (statement_fails retryable) turn db submission host = tried_again retryable db
  take_turn reply_lost turn db submission host = transact true turn db submission host
  take_turn no_fault turn db submission host = transact false turn db submission host

  -- `persistResult`, with the tries that remain and the number of those that were made.
  unfoldable pub persist_result :
      ℕ
      → ℕ
      → (ℕ → Turn)
      → Option ScanRow
      → ResultSubmissionIdentity
      → Text
      → Option ScanRow × CommitResult
  persist_result zero made turns db submission host =
      (db, failure guest_persistence_unavailable false)
  persist_result (suc remaining) made turns db submission host =
      settled (take_turn (turns made).fault (turns made) db submission host)
        (persist_result remaining (suc made) turns db submission host)
