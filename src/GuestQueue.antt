-- ===== src/GuestQueue.antt =====
-- The queue of guest scans: apps/api/src/guest-queue/model.ts and message.ts, and the lease that a
-- processor works under (apps/api/src/guest-persistence/postgres-lease-support.ts).
pub mod Context
pub mod Processor
mod Tests
use outscan.Prelude.{ℕ, Option, none, some, List, [], ◌∷◌, ◌==◌, ◌>>=◌, ◌>>◌, guard}
use outscan.Js.{
  Text, Value, number, string, object, Entries, entry, end, get, fields_of, as_string,
  as_safe_natural,
}
use outscan.Js.Patterns.{is_identifier}

pub record GuestAttemptLease : Type 0 where
  pub guest_scan_id : Text
  pub attempt_id : Text
  pub attempt_no : ℕ
  pub monotonic_fence : ℕ
  pub lease_version : ℕ
  pub canonical_target : Text
  pub lease_expires_at_unix_seconds : ℕ
  pub hard_deadline_unix_seconds : ℕ

pub record LeaseCommand : Type 0 where
  pub guest_scan_id : Text
  pub attempt_id : Text
  pub monotonic_fence : ℕ
  pub lease_version : ℕ

-- `schema_version` has the literal type 1.
pub record GuestQueueMessage : Type 0 where
  pub guest_scan_id : Text

pub data GuestQueueOutcome : Type 0 where
  committed : GuestQueueOutcome
  already_committed : GuestQueueOutcome
  terminal_acknowledged : GuestQueueOutcome
  not_acquirable_acknowledged : GuestQueueOutcome
  retry_lease_held : GuestQueueOutcome
  retry_persistence : GuestQueueOutcome
  retry_context : GuestQueueOutcome
  retry_start : GuestQueueOutcome
  retry_heartbeat : GuestQueueOutcome
  retry_supervisor : GuestQueueOutcome
  retry_rejection_sink : GuestQueueOutcome
  retry_commit : GuestQueueOutcome

-- `validId`, with the text.
abbrev pub as_id : Value → Option Text
as_id v = do t ← as_string v; guard (is_identifier t); some t

unfoldable pub check_message : Entries → Option GuestQueueMessage
check_message es = do
  version ← as_safe_natural (get "schema_version" es)
  guard (version == 1)
  scan_id ← as_id (get "guest_scan_id" es)
  some (record { guest_scan_id = scan_id })

unfoldable pub parse_guest_queue_message : Value → Option GuestQueueMessage
parse_guest_queue_message value =
    fields_of ("schema_version" ∷ "guest_scan_id" ∷ []) value >>= check_message

abbrev pub message_value : GuestQueueMessage → Value
message_value m =
    object (entry "schema_version" (number 1) (entry "guest_scan_id" (string m.guest_scan_id) end))

-- `createGuestQueueMessage`; `none` where it throws.
unfoldable pub create_guest_queue_message : Value → Option GuestQueueMessage
create_guest_queue_message value = do
  scan_id ← as_id value
  some (record { guest_scan_id = scan_id })
