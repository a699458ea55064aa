-- ===== src/GuestPersistence/ScanRow.antt =====
-- The row of a scan with its current attempt, how the transaction of a commit selects it, and what it
-- reads from it: apps/api/src/guest-persistence/postgres-result-commit.ts. `print` is the database's
-- way to write an integer as a text. The columns of the states hold no other texts than the states.
use outscan.Prelude.{
  ℕ, ◌+◌, ◌-◌, ◌*◌, Bool, false, ◌&&◌, Option, none, some, List, [], ◌∷◌, ◌++◌, leb, ◌==◌,
  if◌then◌else◌, length, all, ◌>>=◌, ◌>>◌, guard,
}
use outscan.Js.{Text, codes, Value, null, string, max_safe_integer}
use outscan.Js.Patterns.{is_digit, is_hex}
use outscan.GuestCrypto.Binary.{encode_hex}
use outscan.ScanProtocol.Fsm.{JobState, AttemptState}
use outscan.ScanProtocol.ResultCommit.{ResultSubmissionIdentity, ResultCommitSnapshot}

-- `accepted_attempt_id`, `accepted_fence` and `accepted_payload_digest`, all set or all null.
pub record AcceptedColumns : Type 0 where
  pub attempt_id : Text
  pub fence : ℕ
  pub payload_digest : List ℕ

-- A row of guest_results; `projection` by its host.
pub record StoredResult : Type 0 where
  pub accepted : AcceptedColumns
  pub completed_at : ℕ
  pub canonical_host : Text

-- A row of guest_scans with that of its current attempt, and its rows of guest_results.
pub record ScanRow : Type 0 where
  pub job_state : JobState
  pub current_attempt_id : Text
  pub current_fence : ℕ
  pub accepted : Option AcceptedColumns
  pub canonical_target : Text
  pub attempt_state : AttemptState
  pub lease_expires_at : Option ℕ  -- null before the first lease
  pub hard_deadline : ℕ
  pub results : List StoredResult

-- What LOCK_CURRENT_RESULT_STATE_SQL selects: the integers as texts, the digest in hexadecimal.
pub record LockedRow : Type 0 where
  pub job_state : JobState
  pub attempt_state : AttemptState
  pub current_attempt_id : Text
  pub canonical_target : Text
  pub current_fence : Value
  pub lease_expires_at_unix_seconds : Value
  pub hard_deadline_unix_seconds : Value
  pub transaction_now_unix_seconds : Value
  pub accepted_attempt_id : Value
  pub accepted_fence : Value
  pub accepted_payload_digest_hex : Value

-- The digits of a text, from the left.
unfoldable pub decimal_from : ℕ → Text → ℕ
decimal_from n [] = n
decimal_from n (c ∷ cs) = decimal_from (n * 10 + (c - b'0')) cs

-- /^[1-9][0-9]*$/u
abbrev pub is_positive_decimal : Text → Bool
is_positive_decimal [] = false
is_positive_decimal (c ∷ cs) = leb b'1' c && leb c b'9' && all is_digit cs

-- `safePositiveInteger`; `Number` is exact on the integers that are safe, and gives no safe integer
-- for one that is not.
unfoldable pub safe_positive_integer : Value → Option ℕ
unfolding decimal_from
safe_positive_integer (string t) = do
  guard (is_positive_decimal t)
  guard (leb (decimal_from 0 t) max_safe_integer)
  some (decimal_from 0 t)
safe_positive_integer _ = none

-- `nullableDigest`: `none` for undefined.
unfoldable pub nullable_digest : Value → Option (Option Text)
nullable_digest null = some none
nullable_digest (string t) =
    if length t == 64 && all is_hex t then some (some (codes "sha256:" ++ t)) else none
nullable_digest _ = none

-- The accepted result: the three columns are all null or all valid.
unfoldable pub accepted_of :
    Value → Value → Option (Option Text) → Option (Option ResultSubmissionIdentity)
accepted_of null null (some none) = some none
accepted_of (string attempt) fence (some (some digest)) = do
  n ← safe_positive_integer fence
  some (some (record { attempt_id = attempt; fence = n; payload_digest = digest }))
accepted_of _ _ _ = none

pub record LockedResultState : Type 0 where
  pub snapshot : ResultCommitSnapshot
  pub canonical_target : Text
  pub now : ℕ

unfoldable pub map_locked_state : LockedRow → Option LockedResultState
map_locked_state row = do
  fence ← safe_positive_integer row.current_fence
  lease ← safe_positive_integer row.lease_expires_at_unix_seconds
  deadline ← safe_positive_integer row.hard_deadline_unix_seconds
  now ← safe_positive_integer row.transaction_now_unix_seconds
  accepted ←
      accepted_of row.accepted_attempt_id row.accepted_fence
        (nullable_digest row.accepted_payload_digest_hex)
  some (record {
    snapshot = record {
      job_state = row.job_state;
      current_attempt_id = row.current_attempt_id;
      current_fence = fence;
      attempt_state = row.attempt_state;
      lease_expires_at_unix_seconds = lease;
      hard_deadline_unix_seconds = deadline;
      accepted_result = accepted;
    };
    canonical_target = row.canonical_target;
    now = now;
  })

module _ (print : ℕ → Text) where
  abbrev pub accepted_attempt_value : Option AcceptedColumns → Value
  accepted_attempt_value none = null
  accepted_attempt_value (some a) = string a.attempt_id

  abbrev pub accepted_fence_value : Option AcceptedColumns → Value
  accepted_fence_value none = null
  accepted_fence_value (some a) = string (print a.fence)

  abbrev pub accepted_digest_value : Option AcceptedColumns → Value
  accepted_digest_value none = null
  accepted_digest_value (some a) = string (encode_hex a.payload_digest)

  abbrev pub lease_value : Option ℕ → Value
  lease_value none = null
  lease_value (some n) = string (print n)

  -- LOCK_CURRENT_RESULT_STATE_SQL on the row of the scan, in a transaction of this time.
  abbrev pub lock_row : ScanRow → ℕ → LockedRow
  lock_row row now = record {
    job_state = row.job_state;
    attempt_state = row.attempt_state;
    current_attempt_id = row.current_attempt_id;
    canonical_target = row.canonical_target;
    current_fence = string (print row.current_fence);
    lease_expires_at_unix_seconds = lease_value row.lease_expires_at;
    hard_deadline_unix_seconds = string (print row.hard_deadline);
    transaction_now_unix_seconds = string (print now);
    accepted_attempt_id = accepted_attempt_value row.accepted;
    accepted_fence = accepted_fence_value row.accepted;
    accepted_payload_digest_hex = accepted_digest_value row.accepted;
  }
