-- ===== src/GuestRetention/Recorded/Counts.antt =====
-- The bounds on the counters of a run, and how its status goes with the other fields, from batch to
-- batch.
use outscan.Prelude.{
  ℕ, zero, suc, ◌+◌, ◌*◌, ◌≤◌, ◌≡◌, refl, Bool, true, false, Option, none, some, arith, ◌⊎◌, inl,
  inr, if◌then◌else◌, >>=-eq-some,
}
use mathlib.Core.Path.{subst}
use outscan.Js.{fields_of, Text, Value}
use outscan.GuestRetention.{
  RunStatus, succeeded, partial, failed, retention_unavailable, alert_unavailable, RunRecord,
  alert_for,
}
use outscan.GuestRetention.Cycle.{
  BatchResult, PruneResult, BatchAnswers, BatchOutcome, stop, again, result_keys, check_success,
  valid_success_result, check_prune, valid_prune_result, add_batch, add_prune, checked_batch,
  run_batch, run_batches,
}

-- No counter is above `limit`, or twice that where a scan counts twice.
abbrev pub IsCounted : ℕ → RunRecord → Type 0
IsCounted limit r =
    (r.due_scans_selected ≤ limit)
    × (r.scans_deleted ≤ limit)
    × (r.active_counter_decrements ≤ 2 * limit)
    × (r.stale_windows_deleted ≤ limit)
    × (r.session_revocations_deleted ≤ limit)
    × (r.inconsistencies ≤ 2 * limit)

-- What the other fields are for a status.
abbrev pub HasEnded : RunStatus → RunRecord → Type 0
HasEnded failed r =
    (r.more_work ≡ none)
    × (r.failure_code ≡ some retention_unavailable)
    × (r.alert_code ≡ some alert_unavailable)
HasEnded succeeded r =
    (r.more_work ≡ some false)
    × (r.failure_code ≡ none)
    × (r.alert_code ≡ alert_for r.inconsistencies)
    × ((n : ℕ) × (r.observed_at_unix_seconds ≡ some n))
HasEnded partial r =
    (r.more_work ≡ some true)
    × (r.failure_code ≡ none)
    × (r.alert_code ≡ alert_for r.inconsistencies)
    × ((n : ℕ) × (r.observed_at_unix_seconds ≡ some n))

abbrev pub IsKept : Text → ℕ → ℕ → RunRecord → Type 0
IsKept run_id started limit r =
    (r.run_id ≡ run_id)
    × (r.started_at_unix_seconds ≡ started)
    × (1 ≤ r.batch_count)
    × (r.batch_count ≤ 100)
    × IsCounted limit r
    × HasEnded r.status r

-- What an answer of the worker adds at most.
abbrev IsSmall : ℕ → BatchResult → Type 0
IsSmall size b =
    (b.due_scans_selected ≤ size)
    × (b.scans_deleted ≤ b.due_scans_selected)
    × (b.stale_windows_deleted ≤ size)
    × (b.active_counter_decrements ≤ 2 * b.scans_deleted)
    × (b.inconsistencies ≤ 2 * b.scans_deleted)

success-IsSmall :
    (size : ℕ) (answer : Option Value) {b : BatchResult}
    → valid_success_result size answer ≡ some b
    → IsSmall size b
unfolding valid_success_result check_success
success-IsSmall size none h = cc
success-IsSmall size (some value) h =
    let (es, _, checked) = >>=-eq-some (fields_of result_keys value) (check_success size) h in
    ground (arith, checked)

prune-le :
    (size : ℕ) (answer : Option Value) {p : PruneResult}
    → valid_prune_result size answer ≡ some p
    → p.deleted ≤ size
unfolding valid_prune_result check_prune
prune-le size none h = cc
prune-le size (some value) h =
    let (es, _, checked) = >>=-eq-some (fields_of _ value) (check_prune size) h in
    ground (arith, checked)

abbrev KeptBy : Text → ℕ → ℕ → BatchOutcome → Type 0
KeptBy run_id started limit (stop r) = IsKept run_id started limit r
KeptBy run_id started limit (again r) = IsKept run_id started limit r

-- The part of the invariant that the status plays no role in.
abbrev IsMidway : Text → ℕ → ℕ → RunRecord → Type 0
IsMidway run_id started limit r =
    (r.run_id ≡ run_id)
    × (r.started_at_unix_seconds ≡ started)
    × (1 ≤ r.batch_count)
    × (r.batch_count ≤ 100)
    × IsCounted limit r

after_prune :
    (run_id : Text) (started limit size : ℕ) (r : RunRecord) (n deleted : ℕ) (more : Bool)
    → IsMidway run_id started limit r
    → r.session_revocations_deleted + deleted ≤ limit
    → r.observed_at_unix_seconds ≡ some n
    → KeptBy run_id started limit
        (if more then again (add_prune r deleted more) else stop (add_prune r deleted more))
after_prune run_id started limit size r n deleted true
      (same_id, same_start, some_batch, few, (a, b, c, d, e, f)) fits seen =
    (
      same_id,
      same_start,
      some_batch,
      few,
      (a, b, c, d, fits, f),
      (refl, refl, ground arith, (n, seen)),
    )
after_prune run_id started limit size r n deleted false
      (same_id, same_start, some_batch, few, (a, b, c, d, e, f)) fits seen =
    (
      same_id,
      same_start,
      some_batch,
      few,
      (a, b, c, d, fits, f),
      (refl, refl, ground arith, (n, seen)),
    )

checked_batch_lem :
    (run_id : Text) (started limit size : ℕ) (r : RunRecord) (success : Option BatchResult)
    (pruned : Option PruneResult)
    → IsMidway run_id started limit r
    → ((b : BatchResult) → success ≡ some b → IsSmall size b)
    → ((p : PruneResult) → pruned ≡ some p → p.deleted ≤ size)
    → KeptBy run_id started (limit + size) (checked_batch r success pruned)
checked_batch_lem run_id started limit size r none pruned
      (same_id, same_start, some_batch, few, (a, b, c, d, e, f)) small few_pruned =
    (
      same_id,
      same_start,
      some_batch,
      few,
      (omega arith, omega arith, omega arith, omega arith, omega arith, omega arith),
      (refl, refl, refl),
    )
checked_batch_lem run_id started limit size r (some result) none
      (same_id, same_start, some_batch, few, (a, b, c, d, e, f)) small few_pruned =
    let (due, scans, windows, decrements, inconsistent) = small result refl in
    (
      same_id,
      same_start,
      some_batch,
      few,
      (omega arith, omega arith, omega arith, omega arith, omega arith, omega arith),
      (refl, refl, refl),
    )
checked_batch_lem run_id started limit size r (some result) (some pruned)
      (same_id, same_start, some_batch, few, (a, b, c, d, e, f)) small few_pruned =
    let (due, scans, windows, decrements, inconsistent) = small result refl in
    let few_deleted = few_pruned pruned refl in
    after_prune run_id started (limit + size) size (add_batch r result)
      result.observed_at_unix_seconds pruned.deleted _
      (
        same_id,
        same_start,
        some_batch,
        few,
        (omega arith, omega arith, omega arith, omega arith, omega arith, omega arith),
      )
      (omega arith) refl

run_batch-KeptBy :
    (run_id : Text) (started limit size batch : ℕ) (answers : BatchAnswers) (r : RunRecord)
    → 1 ≤ batch
    → batch ≤ 100
    → IsKept run_id started limit r
    → KeptBy run_id started (limit + size) (run_batch size batch answers r)
unfolding run_batch
run_batch-KeptBy run_id started limit size batch answers r first last
      (same_id, same_start, _, _, counted, _) =
    checked_batch_lem run_id started limit size (record r { batch_count = batch })
      (valid_success_result size answers.worker) (valid_prune_result size answers.pruner)
      (same_id, same_start, first, last, counted) (λ b h. success-IsSmall size answers.worker h)
      (λ p h. prune-le size answers.pruner h)

outcome-cases :
    (o : BatchOutcome) → ((r : RunRecord) × (o ≡ stop r)) ⊎ ((r : RunRecord) × (o ≡ again r))
outcome-cases (stop r) = inl (r, refl)
outcome-cases (again r) = inr (r, refl)

the_last :
    (size : ℕ) (answers : ℕ → BatchAnswers) (remaining batch : ℕ) (r : RunRecord) {done : RunRecord}
    → run_batch size (suc batch) (answers batch) r ≡ stop done
    → done ≡ run_batches size answers (suc remaining) batch r
unfolding run_batches
the_last size answers remaining batch r h = ground (arith, h)

one_more :
    (size : ℕ) (answers : ℕ → BatchAnswers) (remaining batch : ℕ) (r : RunRecord) {next : RunRecord}
    → run_batch size (suc batch) (answers batch) r ≡ again next
    → run_batches size answers remaining (suc batch) next
      ≡ run_batches size answers (suc remaining) batch r
unfolding run_batches
one_more size answers remaining batch r h = ground (arith, h)

-- A loop over `remaining` batches adds `remaining * size` to the limit.
pub run_batches-IsKept :
    (run_id : Text) (started limit size : ℕ) (answers : ℕ → BatchAnswers) (remaining batch : ℕ)
    (r : RunRecord)
    → batch + remaining ≤ 100
    → IsKept run_id started limit r
    → (total : ℕ) × (total ≤ limit + remaining * size)
      × IsKept run_id started total (run_batches size answers remaining batch r)
unfolding run_batches
run_batches-IsKept run_id started limit size answers zero batch r few kept =
    (limit, omega arith, kept)
run_batches-IsKept run_id started limit size answers (suc remaining) batch r few kept =
    let step =
      run_batch-KeptBy run_id started limit size (suc batch) (answers batch) r (omega arith)
        (omega arith) kept in
    elim (outcome-cases (run_batch size (suc batch) (answers batch) r)) [
      | inl (done, done_is) ↦ (
        limit + size,
        omega arith,
        subst (IsKept run_id started (limit + size))
            (the_last size answers remaining batch r done_is)
            (subst (KeptBy run_id started (limit + size)) done_is step),
      )
      | inr (next, next_is) ↦
          let (total, small, later) =
            run_batches-IsKept run_id started (limit + size) size answers remaining (suc batch) next
              (omega arith) (subst (KeptBy run_id started (limit + size)) next_is step) in
          (
            total,
            omega (arith, small),
            subst (IsKept run_id started total) (one_more size answers remaining batch r next_is)
                later,
          )
    ]
