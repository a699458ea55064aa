-- ===== src/GuestRetention/Tests.antt =====
-- A cycle and a scheduler at concrete inputs.
use outscan.Prelude.{
  ℕ, zero, suc, ◌≡◌, refl, Bool, true, false, Option, none, some, [], ◌∷◌, length, ◌≤◌,
}
use outscan.Js.{
  fields_of, Value, number, bigint, boolean, object, entry, end, codes, get, key_count, key_mem,
}
use outscan.Js.Patterns.{is_identifier}
use outscan.GuestRetention.{
  RunRecord, succeeded, failed, retention_unavailable, alert_unavailable, alert_inconsistency,
  validate_run_record,
}
use outscan.GuestRetention.Cycle.{
  Outside, BatchAnswers, StoreAnswer, store_ok, cycle_recorded, invalid_retention_runtime,
  prepare_record, finish_run, run_batches, run_batch, valid_success_result, check_success,
  valid_prune_result, check_prune, run_guest_retention_cycle,
}
use outscan.GuestRetention.Recorded.{record_value, recorded-validate}
use outscan.GuestRetention.Scheduler.{
  SchedulerState, settles, fires, stops, start_scheduler, step, run_events,
}
use outscan.GuestRetention.Scheduler.Alive.{GoesOn, events-GoesOn, stops-cycles}

abbrev batch_answer : ℕ → ℕ → ℕ → Bool → Bool → Value
batch_answer due deleted inconsistent more alert = object (
    entry "ok" (boolean true) (
      entry "observed_at_unix_seconds" (bigint 50) (
        entry "due_scans_selected" (number due) (
          entry "scans_deleted" (number deleted) (
            entry "active_counter_decrements" (number deleted) (
              entry "stale_windows_deleted" (number 0) (
                entry "inconsistencies" (number inconsistent) (
                  entry "more_work" (boolean more)
                    (entry "alert_required" (boolean alert) end)))))))))

abbrev prune_answer : ℕ → Value
prune_answer n =
    object (
      entry "ok" (boolean true)
        (entry "deleted" (number n) (entry "more_work" (boolean false) end)))

-- Two full batches, and one that finds an inconsistency and no more work.
abbrev the_answers : ℕ → BatchAnswers
the_answers zero = record {
  worker = some (batch_answer 10 10 0 true false);
  pruner = some (prune_answer 3);
}
the_answers (suc zero) = record {
  worker = some (batch_answer 10 9 0 true false);
  pruner = some (prune_answer 0);
}
the_answers _ = record {
  worker = some (batch_answer 4 4 1 false true);
  pruner = some (prune_answer 1);
}

-- The worker rejects in the second batch.
abbrev broken_answers : ℕ → BatchAnswers
broken_answers zero = the_answers 0
broken_answers _ = record { worker = none; pruner = none }

abbrev around : (ℕ → BatchAnswers) → Outside
around answers = record {
  valid_dependencies = true;
  started = some (number 40);
  create_run_id = some (codes "run-1");
  answers = answers;
  finished = some (number 60);
}

abbrev the_record : RunRecord
the_record = record {
  run_id = codes "run-1";
  started_at_unix_seconds = 40;
  finished_at_unix_seconds = 60;
  status = succeeded;
  observed_at_unix_seconds = some 50;
  batch_count = 3;
  due_scans_selected = 24;
  scans_deleted = 23;
  active_counter_decrements = 23;
  stale_windows_deleted = 0;
  session_revocations_deleted = 4;
  inconsistencies = 1;
  more_work = some false;
  failure_code = none;
  alert_code = some alert_inconsistency;
}

abbrev the_broken_record : RunRecord
the_broken_record = record {
  run_id = codes "run-1";
  started_at_unix_seconds = 40;
  finished_at_unix_seconds = 60;
  status = failed;
  observed_at_unix_seconds = some 50;
  batch_count = 2;
  due_scans_selected = 10;
  scans_deleted = 10;
  active_counter_decrements = 10;
  stale_windows_deleted = 0;
  session_revocations_deleted = 3;
  inconsistencies = 0;
  more_work = none;
  failure_code = some retention_unavailable;
  alert_code = some alert_unavailable;
}

the_cycle : prepare_record (around the_answers) (number 10) (number 5) ≡ some the_record
unfolding prepare_record finish_run run_batches run_batch valid_success_result check_success
    valid_prune_result check_prune fields_of get key_count key_mem is_identifier
the_cycle = refl

broken_cycle :
    prepare_record (around broken_answers) (number 10) (number 5) ≡ some the_broken_record
unfolding prepare_record finish_run run_batches run_batch valid_success_result check_success
    valid_prune_result check_prune fields_of get key_count key_mem is_identifier
broken_cycle = refl

abbrev store_new : RunRecord → Option StoreAnswer
store_new r = some (store_ok false)

whole_cycle :
    run_guest_retention_cycle (around the_answers) store_new (number 10) (number 5)
    ≡ some (cycle_recorded the_record false)
unfolding run_guest_retention_cycle prepare_record finish_run run_batches run_batch
    valid_success_result check_success valid_prune_result check_prune fields_of get key_count
    key_mem is_identifier
whole_cycle = refl

too_large :
    run_guest_retention_cycle (around the_answers) store_new (number 1001) (number 5)
    ≡ some invalid_retention_runtime
unfolding run_guest_retention_cycle prepare_record
too_large = refl

recorded-validate_example :
    validate_run_record (record_value the_broken_record) ≡ some the_broken_record
recorded-validate_example =
    recorded-validate (around broken_answers) (number 10) (number 5) the_broken_record broken_cycle

abbrev scheduled : Bool → Bool → Bool → ℕ → SchedulerState
scheduled stopped timer busy cycles = record {
  stopped = stopped;
  timer = timer;
  in_flight = busy;
  cycles = cycles;
  outcomes = [];
}

first_is :
    start_scheduler true true (number 10) (number 5) (number 1000)
    ≡ some (scheduled false false true 1)
unfolding start_scheduler
first_is = refl

second_is :
    run_events (settles none ∷ fires ∷ []) (scheduled false false true 1)
    ≡ some (scheduled false false true 2)
unfolding run_events step
second_is = refl

stopped_is : step stops (scheduled false false true 2) ≡ some (scheduled true false true 2)
unfolding step
stopped_is = refl

last_is :
    run_events (settles none ∷ stops ∷ []) (scheduled true false true 2)
    ≡ some (scheduled true false false 2)
unfolding run_events step
last_is = refl

events-GoesOn_example :
    GoesOn (scheduled false false true 2) none
    × (length (scheduled false false true 2).outcomes ≤ (scheduled false false true 2).cycles)
events-GoesOn_example =
    events-GoesOn true true (number 10) (number 5) (number 1000) (settles none ∷ fires ∷ [])
      (scheduled false false true 1) (scheduled false false true 2) none first_is second_is refl

stops-cycles_example : (scheduled true false false 2).cycles ≡ (scheduled false false true 2).cycles
stops-cycles_example =
    stops-cycles true true (number 10) (number 5) (number 1000) (settles none ∷ fires ∷ [])
      (settles none ∷ stops ∷ []) (scheduled false false true 1) (scheduled false false true 2)
      (scheduled true false true 2) (scheduled true false false 2) first_is second_is stopped_is
      last_is
