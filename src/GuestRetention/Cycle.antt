-- ===== src/GuestRetention/Cycle.antt =====
-- One cycle of the retention runtime: `runGuestRetentionCycle` of
-- apps/api/src/guest-retention/runtime.ts. What the worker, the pruner, the clock and the store
-- answer is an argument; `none` is a call that throws or rejects.
use outscan.Prelude.{
  ℕ, zero, suc, ◌+◌, ◌*◌, Bool, true, ◌&&◌, ◌||◌, Option, none, some, List, [], ◌∷◌, String, ltb,
  leb, if◌then◌else◌, ◌>>=◌, ◌>>◌, guard,
}
use outscan.Js.{fields_of, Text, Value, boolean, Entries, get, as_safe_natural, max_safe_integer}
use outscan.Js.Patterns.{is_identifier}
use outscan.GuestRetention.{
  succeeded, partial, failed, retention_unavailable, alert_inconsistency, alert_unavailable,
  RunRecord, as_second, is_boolean,
}

abbrev pub max_batch_size : ℕ
max_batch_size = 1000

abbrev pub max_batches_per_cycle : ℕ
max_batches_per_cycle = 100

-- `integer(value, minimum, maximum)`, for a minimum that is not below 0.
abbrev pub as_integer : ℕ → ℕ → Value → Option ℕ
as_integer minimum maximum v = do
  n ← as_safe_natural v
  guard (leb minimum n && leb n maximum)
  some n

-- `trustedSecond`: the answer of the clock.
abbrev pub trusted_second : Option Value → Option ℕ
trusted_second answer = answer >>= as_integer 0 max_safe_integer

abbrev pub as_boolean : Value → Option Bool
as_boolean (boolean b) = some b
as_boolean _ = none

abbrev pub result_keys : List String
result_keys =
    "ok" ∷ "observed_at_unix_seconds" ∷ "due_scans_selected" ∷ "scans_deleted"
    ∷ "active_counter_decrements" ∷ "stale_windows_deleted" ∷ "inconsistencies" ∷ "more_work"
    ∷ "alert_required" ∷ []

pub record BatchResult : Type 0 where
  pub observed_at_unix_seconds : ℕ
  pub due_scans_selected : ℕ
  pub scans_deleted : ℕ
  pub active_counter_decrements : ℕ
  pub stale_windows_deleted : ℕ
  pub inconsistencies : ℕ
  pub more_work : Bool

unfoldable pub check_success : ℕ → Entries → Option BatchResult
check_success batch_size es = do
  guard (is_boolean true (get "ok" es))
  observed ← as_second (get "observed_at_unix_seconds" es)
  due ← as_integer 0 (batch_size * 2) (get "due_scans_selected" es)
  scans ← as_integer 0 (batch_size * 2) (get "scans_deleted" es)
  decrements ← as_integer 0 (batch_size * 2) (get "active_counter_decrements" es)
  windows ← as_integer 0 (batch_size * 2) (get "stale_windows_deleted" es)
  inconsistent ← as_integer 0 (batch_size * 2) (get "inconsistencies" es)
  guard (leb due batch_size && leb scans due)
  guard (leb windows batch_size)
  guard (leb decrements (scans * 2) && leb inconsistent (scans * 2))
  more ← as_boolean (get "more_work" es)
  guard (is_boolean (ltb 0 inconsistent) (get "alert_required" es))
  some (record {
    observed_at_unix_seconds = observed;
    due_scans_selected = due;
    scans_deleted = scans;
    active_counter_decrements = decrements;
    stale_windows_deleted = windows;
    inconsistencies = inconsistent;
    more_work = more;
  })

-- `validSuccessResult`, on what the worker answered.
unfoldable pub valid_success_result : ℕ → Option Value → Option BatchResult
valid_success_result batch_size answer = do
  value ← answer
  es ← fields_of result_keys value
  check_success batch_size es

pub record PruneResult : Type 0 where
  pub deleted : ℕ
  pub more_work : Bool

unfoldable pub check_prune : ℕ → Entries → Option PruneResult
check_prune batch_size es = do
  guard (is_boolean true (get "ok" es))
  deleted ← as_integer 0 batch_size (get "deleted" es)
  more ← as_boolean (get "more_work" es)
  some (record { deleted = deleted; more_work = more })

-- `validPruneResult`, on what the pruner answered.
unfoldable pub valid_prune_result : ℕ → Option Value → Option PruneResult
valid_prune_result batch_size answer = do
  value ← answer
  es ← fields_of ("ok" ∷ "deleted" ∷ "more_work" ∷ []) value
  check_prune batch_size es

abbrev pub empty_record : Text → ℕ → RunRecord
empty_record run_id started_at = record {
  run_id = run_id;
  started_at_unix_seconds = started_at;
  finished_at_unix_seconds = started_at;
  status = failed;
  observed_at_unix_seconds = none;
  batch_count = 1;
  due_scans_selected = 0;
  scans_deleted = 0;
  active_counter_decrements = 0;
  stale_windows_deleted = 0;
  session_revocations_deleted = 0;
  inconsistencies = 0;
  more_work = none;
  failure_code = some retention_unavailable;
  alert_code = some alert_unavailable;
}

-- The fields that a failed batch sets.
abbrev pub fail_run : RunRecord → RunRecord
fail_run r = record r {
  status = failed;
  more_work = none;
  failure_code = some retention_unavailable;
  alert_code = some alert_unavailable;
}

-- The fields that a batch of the worker adds to.
abbrev pub add_batch : RunRecord → BatchResult → RunRecord
add_batch r result = record r {
  observed_at_unix_seconds = some result.observed_at_unix_seconds;
  due_scans_selected = r.due_scans_selected + result.due_scans_selected;
  scans_deleted = r.scans_deleted + result.scans_deleted;
  active_counter_decrements = r.active_counter_decrements + result.active_counter_decrements;
  stale_windows_deleted = r.stale_windows_deleted + result.stale_windows_deleted;
  inconsistencies = r.inconsistencies + result.inconsistencies;
}

-- The fields that the pruning sets, `more` being what either says of more work.
abbrev pub add_prune : RunRecord → ℕ → Bool → RunRecord
add_prune r deleted more = record r {
  session_revocations_deleted = r.session_revocations_deleted + deleted;
  more_work = some more;
  failure_code = none;
  alert_code = if ltb 0 r.inconsistencies then some alert_inconsistency else none;
  status = if more then partial else succeeded;
}

-- What the worker and the pruner answer in a batch.
pub record BatchAnswers : Type 0 where
  pub worker : Option Value
  pub pruner : Option Value

-- What a batch leaves: the record, and whether the loop goes on.
pub data BatchOutcome : Type 0 where
  stop : RunRecord → BatchOutcome
  again : RunRecord → BatchOutcome

abbrev pub pruned_batch : RunRecord → BatchResult → Option PruneResult → BatchOutcome
pruned_batch r result none = stop (fail_run r)
pruned_batch r result (some pruned) =
    let more = result.more_work || pruned.more_work in
    let next = add_prune r pruned.deleted more in if more then again next else stop next

abbrev pub checked_batch : RunRecord → Option BatchResult → Option PruneResult → BatchOutcome
checked_batch r none pruned = stop (fail_run r)
checked_batch r (some result) pruned = pruned_batch (add_batch r result) result pruned

-- The body of the loop in the batch of this number, from 1.
unfoldable pub run_batch : ℕ → ℕ → BatchAnswers → RunRecord → BatchOutcome
run_batch batch_size batch answers r =
    checked_batch (record r { batch_count = batch })
      (valid_success_result batch_size answers.worker)
      (valid_prune_result batch_size answers.pruner)

-- The loop: the batches that remain, and the number of those that have run.
unfoldable pub run_batches : ℕ → (ℕ → BatchAnswers) → ℕ → ℕ → RunRecord → RunRecord
run_batches batch_size answers zero batch r = r
run_batches batch_size answers (suc remaining) batch r =
    elim (run_batch batch_size (suc batch) (answers batch) r) [
      | stop done ↦ done
      | again next ↦ run_batches batch_size answers remaining (suc batch) next
    ]

pub data StoreAnswer : Type 0 where
  store_ok : Bool → StoreAnswer  -- whether the run was stored before
  store_refused : StoreAnswer

pub data CycleResult : Type 0 where
  cycle_recorded : RunRecord → Bool → CycleResult
  invalid_retention_runtime : CycleResult
  run_store_unavailable : CycleResult

-- The outside of a cycle.
pub record Outside : Type 0 where
  pub valid_dependencies : Bool
  pub started : Option Value
  pub create_run_id : Option Text
  pub answers : ℕ → BatchAnswers
  pub finished : Option Value

-- The record that the cycle hands to the store, or `none` where it ends before.
abbrev pub observed_within : ℕ → ℕ → Option ℕ → Bool
observed_within started finished none = true
observed_within started finished (some n) = leb started n && leb n finished

unfoldable pub finish_run : ℕ → RunRecord → Option Value → Option RunRecord
finish_run started r clock = do
  finished ← trusted_second clock
  guard (leb started finished)
  guard (observed_within started finished r.observed_at_unix_seconds)
  some (record r { finished_at_unix_seconds = finished })

unfoldable pub prepare_record : Outside → Value → Value → Option RunRecord
prepare_record outside batch_size max_batches = do
  guard outside.valid_dependencies
  size ← as_integer 1 max_batch_size batch_size
  batches ← as_integer 1 max_batches_per_cycle max_batches
  run_id ← outside.create_run_id
  started ← trusted_second outside.started
  guard (is_identifier run_id)
  finish_run started (run_batches size outside.answers batches 0 (empty_record run_id started))
      outside.finished

-- `none` where the store's promise rejects.
abbrev pub store_result : RunRecord → Option StoreAnswer → Option CycleResult
store_result r none = none
store_result r (some (store_ok duplicate)) = some (cycle_recorded r duplicate)
store_result r (some store_refused) = some run_store_unavailable

unfoldable pub run_guest_retention_cycle :
    Outside → (RunRecord → Option StoreAnswer) → Value → Value → Option CycleResult
run_guest_retention_cycle outside store batch_size max_batches =
    elim (prepare_record outside batch_size max_batches) [
      | none ↦ some invalid_retention_runtime
      | some r ↦ store_result r (store r)
    ]
