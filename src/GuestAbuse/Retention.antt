-- ===== src/GuestAbuse/Retention.antt =====
-- The deletion deadline of a guest scan: apps/api/src/guest-abuse/retention.ts.
pub mod Deadline
use outscan.Prelude.{
  ℕ, ◌+◌, ◌-◌, Bool, true, false, ◌&&◌, Option, none, some, List, [], ◌∷◌, String, ltb, leb, ◌==◌,
  if◌then◌else◌, ◌>>=◌, ◌>>◌, guard,
}
use outscan.Js.{Text, Value, Entries, get, exact_record, as_string, as_u64, uint64_max}
use outscan.Js.Patterns.{is_identifier}
use outscan.GuestIdempotency.{guest_idempotency_window_seconds}

abbrev pub guest_retention_max_seconds : ℕ
guest_retention_max_seconds = 86_400

abbrev pub retention_keys : List String
retention_keys =
    "guest_scan_id" ∷ "created_at_unix_seconds" ∷ "result_access_expires_at_unix_seconds"
    ∷ "deletion_deadline_unix_seconds" ∷ []

pub data GuestRetentionDecision : Type 0 where
  keep : (delete_in_seconds : ℕ) → GuestRetentionDecision
  delete_now : GuestRetentionDecision
  invalid_retention_context : GuestRetentionDecision

-- The deadline of a record that passes the tests at the time `now`.
unfoldable pub check_retention : Entries → ℕ → Option ℕ
check_retention fields now = do
  id ← as_string (get "guest_scan_id" fields)
  guard (is_identifier id)
  created_at ← as_u64 (get "created_at_unix_seconds" fields)
  result_expires_at ← as_u64 (get "result_access_expires_at_unix_seconds" fields)
  deadline ← as_u64 (get "deletion_deadline_unix_seconds" fields)
  guard (leb created_at now)
  guard (leb created_at (uint64_max - guest_retention_max_seconds))
  guard (deadline == created_at + guest_retention_max_seconds)
  guard (result_expires_at == created_at + guest_idempotency_window_seconds)
  guard (leb result_expires_at deadline)
  some deadline

unfoldable pub decide_by_deadline : Option ℕ → ℕ → GuestRetentionDecision
decide_by_deadline none now = invalid_retention_context
decide_by_deadline (some deadline) now =
    if leb deadline now then delete_now else keep (deadline - now)

-- An object of the right shape, and its fields checked.
unfoldable pub deadline_of : Value → ℕ → Option ℕ
deadline_of value now = do fields ← exact_record retention_keys value; check_retention fields now

unfoldable pub decide_guest_retention : Value → Value → GuestRetentionDecision
decide_guest_retention value now_unix_seconds = elim (as_u64 now_unix_seconds) [
  | none ↦ invalid_retention_context
  | some now ↦ decide_by_deadline (deadline_of value now) now
]
