-- ===== src/GuestRetention/Recorded.antt =====
-- That the store's validation accepts whatever a cycle hands to the store.
mod Counts
use outscan.Prelude.{
  ℕ, zero, suc, ◌+◌, ◌*◌, ◌≤◌, ◌≡◌, refl, sym, ap, ◌∙◌, Bool, true, false, Option, none, some, List,
  arith, inl, inr, Option-cases, leb, ◌==◌, if◌then◌else◌, >>=-eq-some, ◌>>=◌, guard, guard-eq-some,
}
use mathlib.Core.Path.{subst}
use native.Mathlib.Nat.{mul-le-mul}
use outscan.Js.{
  fields_of, Text, codes, Value, null, number, bigint, string, boolean, object, entry, end, get,
  key_count, key_mem, text_eq,
}
use outscan.Js.Patterns.{is_identifier}
use outscan.GuestRetention.{
  RunStatus, succeeded, partial, failed, FailureCode, retention_unavailable, AlertCode,
  alert_inconsistency, alert_unavailable, RunRecord, alert_for, validate_run_record, check_record,
  check_ending, check_failed, check_done,
}
use outscan.GuestRetention.Cycle.{
  Outside, run_batches, finish_run, prepare_record, trusted_second, as_integer, max_batch_size,
  max_batches_per_cycle, empty_record, observed_within,
}
use outscan.GuestRetention.Recorded.Counts.{IsCounted, HasEnded, IsKept, run_batches-IsKept}

abbrev pub status_value : RunStatus → Value
status_value succeeded = string (codes "SUCCEEDED")
status_value partial = string (codes "PARTIAL")
status_value failed = string (codes "FAILED")

abbrev pub second_value : Option ℕ → Value
second_value none = null
second_value (some n) = bigint n

abbrev pub boolean_value : Option Bool → Value
boolean_value none = null
boolean_value (some b) = boolean b

abbrev pub failure_value : Option FailureCode → Value
failure_value none = null
failure_value (some retention_unavailable) = string (codes "GUEST_RETENTION_UNAVAILABLE")

abbrev pub alert_value : Option AlertCode → Value
alert_value none = null
alert_value (some alert_inconsistency) = string (codes "GUEST_RETENTION_INCONSISTENCY")
alert_value (some alert_unavailable) = string (codes "GUEST_RETENTION_UNAVAILABLE")

-- The record as the object that the cycle passes to the store.
abbrev pub record_value : RunRecord → Value
record_value r = object (
    entry "run_id" (string r.run_id) (
      entry "started_at_unix_seconds" (bigint r.started_at_unix_seconds) (
        entry "finished_at_unix_seconds" (bigint r.finished_at_unix_seconds) (
          entry "status" (status_value r.status) (
            entry "observed_at_unix_seconds" (second_value r.observed_at_unix_seconds) (
              entry "batch_count" (number r.batch_count) (
                entry "due_scans_selected" (number r.due_scans_selected) (
                  entry "scans_deleted" (number r.scans_deleted) (
                    entry "active_counter_decrements" (number r.active_counter_decrements) (
                      entry "stale_windows_deleted" (number r.stale_windows_deleted) (
                        entry "session_revocations_deleted" (number r.session_revocations_deleted) (
                          entry "inconsistencies" (number r.inconsistencies) (
                            entry "more_work" (boolean_value r.more_work) (
                              entry "failure_code" (failure_value r.failure_code)
                                (entry "alert_code" (alert_value r.alert_code) end)))))))))))))))

as_integer-le :
    (minimum maximum : ℕ) (v : Value) {n : ℕ} → as_integer minimum maximum v ≡ some n → n ≤ maximum
as_integer-le minimum maximum (number n) h = ground arith
as_integer-le minimum maximum _ h = cc

-- A record with these bounds and an ending of its status is accepted.
bounded-validate :
    (r : RunRecord) (status : RunStatus) (total : ℕ)
    → is_identifier r.run_id ≡ true
    → r.started_at_unix_seconds ≤ r.finished_at_unix_seconds
    → 1 ≤ r.batch_count
    → r.batch_count ≤ 100
    → total ≤ 100000
    → IsCounted total r
    → observed_within r.started_at_unix_seconds r.finished_at_unix_seconds
        r.observed_at_unix_seconds
      ≡ true
    → r.status ≡ status
    → HasEnded status r
    → validate_run_record (record_value r) ≡ some r
unfolding validate_run_record fields_of check_record check_ending check_failed check_done get
    key_count key_mem text_eq
bounded-validate r failed total id ordered some_batch few small (a, b, c, d, e, f) seen status_is
      (more, failure, alert) =
    ground (
      arith, id, ordered, some_batch, few, small, a, b, c, d, e, f, seen, status_is, more, failure,
      alert,
    )
bounded-validate r succeeded total id ordered some_batch few small (a, b, c, d, e, f) seen status_is
      (more, failure, alert, (n, observed)) =
    ground (
      arith, id, ordered, some_batch, few, small, a, b, c, d, e, f, seen, status_is, more, failure,
      alert, observed,
    )
bounded-validate r partial total id ordered some_batch few small (a, b, c, d, e, f) seen status_is
      (more, failure, alert, (n, observed)) =
    ground (
      arith, id, ordered, some_batch, few, small, a, b, c, d, e, f, seen, status_is, more, failure,
      alert, observed,
    )

-- The end of the run plays no role in how it has ended.
HasEnded-finished :
    (status : RunStatus) (r : RunRecord) (finished : ℕ)
    → HasEnded status r
    → HasEnded status (record r { finished_at_unix_seconds = finished })
HasEnded-finished failed r finished h = h
HasEnded-finished succeeded r finished h = h
HasEnded-finished partial r finished h = h

kept-validate :
    (run_id : Text) (started total finished : ℕ) (r : RunRecord)
    → is_identifier run_id ≡ true
    → total ≤ 100000
    → IsKept run_id started total r
    → started ≤ finished
    → observed_within started finished r.observed_at_unix_seconds ≡ true
    → validate_run_record (record_value (record r { finished_at_unix_seconds = finished }))
      ≡ some (record r { finished_at_unix_seconds = finished })
kept-validate run_id started total finished r id small
      (same_id, same_start, some_batch, few, counted, ended) ordered seen =
    bounded-validate (record r { finished_at_unix_seconds = finished }) r.status total
      (rw same_id id) (rw same_start ordered) some_batch few small counted (rw same_start seen) refl
      (HasEnded-finished r.status r finished ended)

finish_run_lem :
    (started : ℕ) (r : RunRecord) (clock : Option Value) {done : RunRecord}
    → finish_run started r clock ≡ some done
    → (finished : ℕ) × (started ≤ finished)
      × (observed_within started finished r.observed_at_unix_seconds ≡ true)
      × (record r { finished_at_unix_seconds = finished } ≡ done)
unfolding finish_run
finish_run_lem started r clock h =
    let (finished, _, h₁) = >>=-eq-some (trusted_second clock) _ h in
    let (_, ordered, h₂) = >>=-eq-some (guard (leb started finished)) _ h₁ in
    let (_, seen, h₃) =
      >>=-eq-some (guard (observed_within started finished r.observed_at_unix_seconds)) _ h₂ in
    (finished, ground (arith, ordered), guard-eq-some _ seen, ground (arith, h₃))

-- What a cycle that gets as far as the store has run.
prepare_record_lem :
    (outside : Outside) (batch_size max_batches : Value) {done : RunRecord}
    → prepare_record outside batch_size max_batches ≡ some done
    → (size batches started : ℕ) × (run_id : Text) × (size ≤ 1000)
      × (batches ≤ 100)
      × (is_identifier run_id ≡ true)
      × (finish_run started
            (run_batches size outside.answers batches 0 (empty_record run_id started))
            outside.finished
          ≡ some done)
unfolding prepare_record
prepare_record_lem outside batch_size max_batches h =
    let (_, _, h₁) = >>=-eq-some (guard outside.valid_dependencies) _ h in
    let (size, size_is, h₂) = >>=-eq-some (as_integer 1 max_batch_size batch_size) _ h₁ in
    let (batches, batches_are, h₃) =
      >>=-eq-some (as_integer 1 max_batches_per_cycle max_batches) _ h₂ in
    let (run_id, _, h₄) = >>=-eq-some outside.create_run_id _ h₃ in
    let (started, _, h₅) = >>=-eq-some (trusted_second outside.started) _ h₄ in
    let (_, id, h₆) = >>=-eq-some (guard (is_identifier run_id)) _ h₅ in
    (
      size,
      batches,
      started,
      run_id,
      as_integer-le 1 1000 batch_size size_is,
      as_integer-le 1 100 max_batches batches_are,
      guard-eq-some _ id,
      h₆,
    )

-- Every record that a cycle hands to the store is accepted by the store's validation, which reads it
-- as that very record: whatever the worker, the pruner and the clock answer, the counters stay
-- within their bounds, and status, codes and times agree.
pub recorded-validate :
    (outside : Outside) (batch_size max_batches : Value) (done : RunRecord)
    → prepare_record outside batch_size max_batches ≡ some done
    → validate_run_record (record_value done) ≡ some done
recorded-validate outside batch_size max_batches done h =
    let (size, batches, started, run_id, small, few, id, finishing) =
      prepare_record_lem outside batch_size max_batches h in
    let first = empty_record run_id started in
    let (total, bounded, kept) =
      run_batches-IsKept run_id started 0 size outside.answers batches 0 first (omega arith) (
        refl,
        refl,
        omega arith,
        omega arith,
        (omega arith, omega arith, omega arith, omega arith, omega arith, omega arith),
        (refl, refl, refl),
      ) in
    let r = run_batches size outside.answers batches 0 first in
    let (finished, ordered, seen, same) = finish_run_lem started r outside.finished finishing in
    let at_most : batches * size ≤ 100 * 1000 = mul-le-mul {n₂ = 100} {m₂ = 1000} few small in
    subst (λ x. validate_run_record (record_value x) ≡ some x) same
      (kept-validate run_id started total finished r id (omega (arith, bounded, at_most)) kept
        ordered seen)
