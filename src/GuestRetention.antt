-- ===== src/GuestRetention.antt =====
-- The record of a retention run and its validation: apps/api/src/guest-retention/model.ts and
-- validation.ts.
pub mod Cycle
pub mod Scheduler
mod Recorded
mod Tests
use outscan.Prelude.{
  ℕ, Bool, true, false, not, ◌&&◌, Option, none, some, List, [], ◌∷◌, String, leb, ◌==◌,
  if◌then◌else◌, length, all, ◌>>=◌, ◌>>◌, guard,
}
use outscan.Js.{
  fields_of, Text, codes, Value, null, number, bigint, string, boolean, object, Entries, entry, end,
  symbol, get, key_mem, key_count, as_string, as_safe_natural, text_eq,
}
use outscan.Js.Patterns.{is_identifier}

pub data RunStatus : Type 0 where
  succeeded : RunStatus
  partial : RunStatus
  failed : RunStatus

pub data FailureCode : Type 0 where
  retention_unavailable : FailureCode

pub data AlertCode : Type 0 where
  alert_inconsistency : AlertCode
  alert_unavailable : AlertCode

-- `none` is the source's null.
pub record RunRecord : Type 0 where
  pub run_id : Text
  pub started_at_unix_seconds : ℕ
  pub finished_at_unix_seconds : ℕ
  pub status : RunStatus
  pub observed_at_unix_seconds : Option ℕ
  pub batch_count : ℕ
  pub due_scans_selected : ℕ
  pub scans_deleted : ℕ
  pub active_counter_decrements : ℕ
  pub stale_windows_deleted : ℕ
  pub session_revocations_deleted : ℕ
  pub inconsistencies : ℕ
  pub more_work : Option Bool
  pub failure_code : Option FailureCode
  pub alert_code : Option AlertCode

abbrev pub max_batches_recorded : ℕ
max_batches_recorded = 100

abbrev pub max_count : ℕ
max_count = 200000

abbrev pub record_keys : List String
record_keys =
    "run_id" ∷ "started_at_unix_seconds" ∷ "finished_at_unix_seconds" ∷ "status"
    ∷ "observed_at_unix_seconds" ∷ "batch_count" ∷ "due_scans_selected" ∷ "scans_deleted"
    ∷ "active_counter_decrements" ∷ "stale_windows_deleted" ∷ "session_revocations_deleted"
    ∷ "inconsistencies" ∷ "more_work" ∷ "failure_code" ∷ "alert_code" ∷ []

-- `count(value, maximum)`.
abbrev pub as_count : ℕ → Value → Option ℕ
as_count maximum v = do n ← as_safe_natural v; guard (leb n maximum); some n

-- `second(value)`.
abbrev pub as_second : Value → Option ℕ
as_second (bigint n) = some n
as_second _ = none

abbrev pub as_status_text : Text → Option RunStatus
as_status_text t =
    if text_eq t (codes "FAILED")
    then some failed
    else (if text_eq t (codes "SUCCEEDED")
        then some succeeded
        else (if text_eq t (codes "PARTIAL") then some partial else none))

abbrev pub as_status : Value → Option RunStatus
as_status v = as_string v >>= as_status_text

-- `value === "<code>"`.
abbrev pub is_text : String → Value → Bool
is_text code (string t) = text_eq t (codes code)
is_text code _ = false

-- A second within the run.
abbrev pub as_second_within : ℕ → ℕ → Value → Option ℕ
as_second_within started finished v = do
  n ← as_second v
  guard (leb started n && leb n finished)
  some n

-- `null`, or a second within the run.
abbrev pub as_observation : ℕ → ℕ → Value → Option (Option ℕ)
as_observation started finished null = some none
as_observation started finished v = do n ← as_second_within started finished v; some (some n)

abbrev pub is_null : Value → Bool
is_null null = true
is_null _ = false

abbrev pub is_boolean : Bool → Value → Bool
is_boolean true (boolean b) = b
is_boolean false (boolean b) = not b
is_boolean _ _ = false

-- The alert that goes with a number of inconsistencies, when the run did not fail.
abbrev pub alert_for : ℕ → Option AlertCode
alert_for inconsistencies = if inconsistencies == 0 then none else some alert_inconsistency

abbrev pub is_alert : Option AlertCode → Value → Bool
is_alert none v = is_null v
is_alert (some alert_inconsistency) v = is_text "GUEST_RETENTION_INCONSISTENCY" v
is_alert (some alert_unavailable) v = is_text "GUEST_RETENTION_UNAVAILABLE" v

-- What the tests leave of the four fields that depend on the status: the observation, whether there
-- is more work, and the two codes.
pub record Ending : Type 0 where
  pub observed_at : Option ℕ
  pub more : Option Bool
  pub failure : Option FailureCode
  pub alert : Option AlertCode

unfoldable pub check_failed : ℕ → ℕ → Entries → Option Ending
check_failed started finished es = do
  observed ← as_observation started finished (get "observed_at_unix_seconds" es)
  guard (is_null (get "more_work" es))
  guard (is_text "GUEST_RETENTION_UNAVAILABLE" (get "failure_code" es))
  guard (is_text "GUEST_RETENTION_UNAVAILABLE" (get "alert_code" es))
  some (record {
    observed_at = observed;
    more = none;
    failure = some retention_unavailable;
    alert = some alert_unavailable;
  })

unfoldable pub check_done : ℕ → ℕ → Bool → ℕ → Entries → Option Ending
check_done started finished is_partial inconsistencies es = do
  observed ← as_second_within started finished (get "observed_at_unix_seconds" es)
  guard (is_boolean is_partial (get "more_work" es))
  guard (is_null (get "failure_code" es))
  guard (is_alert (alert_for inconsistencies) (get "alert_code" es))
  some (record {
    observed_at = some observed;
    more = some is_partial;
    failure = none;
    alert = alert_for inconsistencies;
  })

unfoldable pub check_ending : RunStatus → ℕ → ℕ → ℕ → Entries → Option Ending
check_ending failed started finished inconsistencies es = check_failed started finished es
check_ending succeeded started finished inconsistencies es =
    check_done started finished false inconsistencies es
check_ending partial started finished inconsistencies es =
    check_done started finished true inconsistencies es

unfoldable pub check_record : Entries → Option RunRecord
check_record es = do
  run ← as_string (get "run_id" es)
  guard (is_identifier run)
  started ← as_second (get "started_at_unix_seconds" es)
  finished ← as_second (get "finished_at_unix_seconds" es)
  guard (leb started finished)
  batches ← as_count max_batches_recorded (get "batch_count" es)
  guard (leb 1 batches)
  due ← as_count max_count (get "due_scans_selected" es)
  scans ← as_count max_count (get "scans_deleted" es)
  decrements ← as_count max_count (get "active_counter_decrements" es)
  windows ← as_count max_count (get "stale_windows_deleted" es)
  revocations ← as_count max_count (get "session_revocations_deleted" es)
  inconsistent ← as_count max_count (get "inconsistencies" es)
  status ← as_status (get "status" es)
  ending ← check_ending status started finished inconsistent es
  some (record {
    run_id = run;
    started_at_unix_seconds = started;
    finished_at_unix_seconds = finished;
    status = status;
    observed_at_unix_seconds = ending.observed_at;
    batch_count = batches;
    due_scans_selected = due;
    scans_deleted = scans;
    active_counter_decrements = decrements;
    stale_windows_deleted = windows;
    session_revocations_deleted = revocations;
    inconsistencies = inconsistent;
    more_work = ending.more;
    failure_code = ending.failure;
    alert_code = ending.alert;
  })

unfoldable pub validate_run_record : Value → Option RunRecord
validate_run_record value = fields_of record_keys value >>= check_record
