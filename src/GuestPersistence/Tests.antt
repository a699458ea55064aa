-- ===== src/GuestPersistence/Tests.antt =====
-- Commits on the row of a scan, with integers written in decimal digits.
use outscan.Prelude.{
  ℕ, zero, suc, ◌+◌, ◌-◌, ◌*◌, ◌/◌, ◌%◌, ◌≤◌, ◌<◌, ◌≡◌, refl, ap, inl, inr, ◌⊎◌, true, Option, none,
  some, List, [], ◌∷◌, ◌++◌, length, all, ltb, arith, Bool-cases, if◌then◌else◌,
}
use outscan.Js.{
  get, exact_record, key_count, keys_among, key_mem, number, Text, Value, codes, string, text_eq,
  max_safe_integer,
}
use outscan.Js.Patterns.{is_principal, is_digit, is_identifier, is_digest, strip_prefix}
use outscan.GuestCrypto.Binary.{
  utf8, u32be, u64be, length_prefix, encode_base64url, decode_base64url, decode_canonical_base64url,
  encode_hex, decode_hex,
}
use outscan.ScanProtocol.Fsm.{JobState, AttemptState}
use outscan.ScanProtocol.ResultCommit.{
  ResultSubmissionIdentity, has_valid_identity, has_valid_snapshot, same_attempt_and_fence,
  decide_succeeded, decide_running, decide_by_state, decide_result_commit,
}
use outscan.ResultEnvelope.{encode_authentication_message}
use outscan.ResultEnvelope.Sign.{
  payload_digest_of, sign_result_envelope, sign_snapshots, snapshot_input, check_input,
  check_context,
}
use outscan.ResultEnvelope.Sign.{snapshot_context as sign_context}
use outscan.ResultEnvelope.Verify.{
  snapshot_context, verify_authenticated_result_envelope, snapshot_submission, check_submission,
  valid_header, valid_authentication, is_foreign, timing_safe_equal, verify_payload, verify_mac,
  verify_keyed, verify_submission,
}
use outscan.ResultEnvelope.Tests.{small_hash, small_hmac, small_hash_bytes, keyring_5, sent}
use outscan.GuestPersistence.Committer.{
  GuestResultCommitDependencies, CanonicalResult, IsUntouched, IsAuthentic, commit,
  commit-IsAccepted,
}
use outscan.GuestPersistence.ScanRow.{
  ScanRow, decimal_from, is_positive_decimal, safe_positive_integer, nullable_digest, accepted_of,
  map_locked_state,
}
use outscan.GuestPersistence.ResultCommit.{
  columns_of, succeed_attempt, succeed_scan, CommitResult, stored_new, committed_before, Fault,
  statement_fails, reply_lost, no_fault, Turn, commit_body, persist_result,
}
use outscan.GuestPersistence.ResultCommit.Statements.{IsRow}
use outscan.GuestPersistence.ResultCommit.Decided.{Refines, commit_body-Refines}
use outscan.GuestPersistence.ResultCommit.Once.{CommitCall, commit_all, commit_all-once}

-- The digits of a number, before others.
unfoldable digits : ℕ → ℕ → Text → Text
digits zero n later = later
digits (suc k) n later =
    let more = digits k (n / 10) ((b'0' + n % 10) ∷ later) in
    if ltb n 10 then (b'0' + n) ∷ later else more

abbrev power : ℕ → ℕ
power zero = 1
power (suc k) = 10 * power k

digits_lem :
    (k n : ℕ) (later : Text)
    → 1 ≤ n
    → n < power k
    → all is_digit later ≡ true
    → (is_positive_decimal (digits k n later) ≡ true)
      × (decimal_from 0 (digits k n later) ≡ decimal_from n later)
unfolding digits decimal_from
digits_lem zero n later low high h = ground arith
digits_lem (suc k) n later low high h = elim (Bool-cases (ltb n 10)) [
  | inl short ↦
      let digit : 0 * 10 + (b'0' + n - b'0') ≡ n = omega arith in
      (ground (arith, short, low, h), ground (arith, short, ap (λ x. decimal_from x later) digit))
  | inr long ↦
      let (valid, same) =
        digits_lem k (n / 10) ((b'0' + n % 10) ∷ later) (ground (arith, long)) (omega (arith, high))
          (ground (arith, h)) in
      let whole : n / 10 * 10 + (b'0' + n % 10 - b'0') ≡ n = omega arith in
      (
        ground (arith, long, valid),
        ground (arith, long, same, ap (λ x. decimal_from x later) whole),
      )
]

abbrev decimal : ℕ → Text
decimal n = digits 17 n []

decimal_read :
    (n : ℕ) → 1 ≤ n → n ≤ max_safe_integer → safe_positive_integer (string (decimal n)) ≡ some n
unfolding safe_positive_integer
decimal_read n low high =
    let (valid, same) = digits_lem 17 n [] low (omega arith) refl in
    ground (arith, valid, high, same, decimal_from_end n)
  where
    decimal_from_end : (m : ℕ) → decimal_from m [] ≡ m
    decimal_from_end m = refl

abbrev repeated : ℕ → ℕ → Text
repeated zero c = []
repeated (suc n) c = c ∷ repeated n c

abbrev the_row : ScanRow
the_row = record {
  job_state = JobState.running;
  current_attempt_id = codes "attempt-2";
  current_fence = 2;
  accepted = none;
  canonical_target = codes "example.com";
  attempt_state = AttemptState.running;
  lease_expires_at = some 115;
  hard_deadline = 145;
  results = [];
}

abbrev submission_by : Text → ℕ → ResultSubmissionIdentity
submission_by attempt fence = record {
  attempt_id = attempt;
  fence = fence;
  payload_digest = codes "sha256:" ++ repeated 64 b'a';
}

abbrev the_submission : ResultSubmissionIdentity
the_submission = submission_by (codes "attempt-2") 2

abbrev the_committed : ScanRow
the_committed = record the_row {
  job_state = JobState.succeeded;
  attempt_state = AttemptState.succeeded;
  accepted = some (columns_of the_submission);
  results =
      (record {
        accepted = columns_of the_submission;
        completed_at = 100;
        canonical_host = codes "example.com";
      })
      ∷ [];
}

abbrev turn : Fault → Turn
turn fault = record { fault = fault; now = 100; released = true }

-- The first try meets an error that is retryable, the second none.
abbrev second_try : ℕ → Turn
second_try zero = turn (statement_fails true)
second_try _ = turn no_fault

abbrev lost_reply : ℕ → Turn
lost_reply _ = turn reply_lost

abbrev commit_by : (ℕ → Turn) → Option ScanRow × CommitResult
commit_by turns =
    persist_result decimal 3 0 turns (some the_row) the_submission (codes "example.com")

committed_at_second : commit_by second_try ≡ (some the_committed, stored_new)
unfolding persist_result commit_body map_locked_state safe_positive_integer digits decimal_from
    nullable_digest accepted_of decide_result_commit decide_by_state decide_running
    has_valid_identity has_valid_snapshot is_identifier is_digest strip_prefix text_eq
    succeed_attempt succeed_scan
committed_at_second = refl

-- When the reply of the COMMIT is lost, the result is there, and submitting it again says so.
found_again :
    (persist_result decimal 3 0 second_try
      (commit_by lost_reply).0
      the_submission
      (codes "example.com")).1
    ≡ committed_before
unfolding persist_result commit_body map_locked_state safe_positive_integer digits decimal_from
    nullable_digest accepted_of decide_result_commit decide_by_state decide_running decide_succeeded
    same_attempt_and_fence has_valid_identity has_valid_snapshot is_identifier is_digest
    strip_prefix text_eq succeed_attempt succeed_scan encode_hex decode_hex
found_again = refl

the_row-IsRow : IsRow the_row
the_row-IsRow =
    ((omega arith, omega arith), (omega arith, omega arith), (omega arith, omega arith), tt, refl)

commit_body-Refines_example :
    Refines the_row the_submission 100
      (codes "example.com")
      true
      (commit_body decimal the_row 100 true the_submission (codes "example.com"))
commit_body-Refines_example =
    commit_body-Refines decimal decimal_read the_row 100 true the_submission (codes "example.com")
      the_row-IsRow (omega arith) (omega arith)

-- An attempt that was superseded, the current one, and the current one again.
abbrev the_calls : List CommitCall
the_calls =
    (record {
      submission = submission_by (codes "attempt-1") 1;
      host = codes "example.com";
      turns = second_try;
    })
    ∷ (record { submission = the_submission; host = codes "example.com"; turns = second_try })
    ∷ (record { submission = the_submission; host = codes "example.com"; turns = lost_reply })
    ∷ []

second_try_timely : (i : ℕ) → (1 ≤ (second_try i).now) × ((second_try i).now ≤ max_safe_integer)
second_try_timely zero = (omega arith, omega arith)
second_try_timely (suc i) = (omega arith, omega arith)

commit_all-once_example :
    (last : ScanRow) × ((commit_all decimal the_calls (some the_row)).0 ≡ some last)
    × ((commit_all decimal the_calls (some the_row)).1 + length the_row.results
        ≤ length last.results)
    × (length last.results ≤ 1)
    × ((the_row.results ≡ []) ⊎ (last ≡ the_row))
commit_all-once_example =
    commit_all-once decimal decimal_read the_calls the_row the_row-IsRow
      (second_try_timely, (second_try_timely, ((λ i. (omega arith, omega arith)), tt)))

abbrev the_dependencies : GuestResultCommitDependencies
the_dependencies = record {
  expected_workload_identity = codes "worker/a";
  expected_audience = codes "ingress:v1";
  max_payload_bytes = 3;
  result_keyring = keyring_5;
}

-- Every payload is its own canonical form, of one host.
abbrev as_it_is : List ℕ → ℕ → Option CanonicalResult
as_it_is payload limit = some (record {
  payload_digest = payload_digest_of small_hash payload;
  payload_size = length payload;
  canonical_host = codes "example.com";
})

abbrev job_row : ScanRow
job_row = record the_row {
  current_attempt_id = codes "attempt-1";
  current_fence = 3;
  lease_expires_at = some 1200;
  hard_deadline = 1300;
}

abbrev rows : Text → Option ScanRow
rows id = some job_row

abbrev on_time : ℕ → Turn
on_time _ = record { fault = no_fault; now = 1100; released = true }

abbrev sent_identity : ResultSubmissionIdentity
sent_identity = record {
  attempt_id = codes "attempt-1";
  fence = 3;
  payload_digest = payload_digest_of small_hash (1 ∷ 2 ∷ 3 ∷ []);
}

abbrev job_committed : ScanRow
job_committed = record job_row {
  job_state = JobState.succeeded;
  attempt_state = AttemptState.succeeded;
  accepted = some (columns_of sent_identity);
  results =
      (record {
        accepted = columns_of sent_identity;
        completed_at = 1100;
        canonical_host = codes "example.com";
      })
      ∷ [];
}

whole_commit :
    commit small_hash small_hmac as_it_is decimal the_dependencies
      (some (number 1100))
      on_time
      rows
      sent
    ≡ some (some job_committed, stored_new)
unfolding commit sign_result_envelope sign_snapshots snapshot_input sign_context check_input
    check_context get exact_record key_count keys_among key_mem text_eq is_identifier is_principal
    is_digest strip_prefix utf8 u32be u64be length_prefix encode_hex decode_hex encode_base64url
    decode_base64url decode_canonical_base64url encode_authentication_message
    verify_authenticated_result_envelope snapshot_context snapshot_submission check_submission
    valid_header valid_authentication is_foreign timing_safe_equal verify_payload verify_mac
    verify_keyed verify_submission persist_result commit_body map_locked_state safe_positive_integer
    digits decimal_from nullable_digest accepted_of decide_result_commit decide_by_state
    decide_running has_valid_identity has_valid_snapshot succeed_attempt succeed_scan
whole_commit = refl

commit-IsAccepted_example :
    IsUntouched rows (some job_committed) stored_new
    ⊎ ((now : Value) × (some (number 1100) ≡ some now)
        × IsAuthentic small_hash small_hmac as_it_is decimal the_dependencies now on_time rows sent
            (some job_committed)
            stored_new)
commit-IsAccepted_example =
    commit-IsAccepted small_hash small_hmac as_it_is decimal (λ k m. (small_hash_bytes (k ++ m)).1)
      the_dependencies (some (number 1100)) on_time rows sent (some job_committed) stored_new
      whole_commit
