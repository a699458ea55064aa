-- ===== src/Notifications/DeliveryFsm.antt =====
-- The life of one delivery: apps/api/src/notifications/delivery-fsm.ts, with the statuses of model.ts
-- and the tests of validation.ts. A call that throws returns `none`.
pub mod Steps
pub mod Histories
use outscan.Prelude.{
  ℕ, suc, ◌+◌, Bool, true, false, not, ◌&&◌, ◌||◌, Option, none, some, List, [], ◌∷◌, ◌++◌, ltb,
  leb, if◌then◌else◌, length, ◌>>=◌, ◌>>◌, guard, String,
}
use outscan.Js.{
  text_in, Text, Value, string, number, array, values, Entries, exact_record, get, codes, text_eq,
}
use outscan.Js.Patterns.{is_identifier}

pub data DeliveryStatus : Type 0 where
  queued sending accepted delivered retry_scheduled unknown failed_permanent bounced complained
        suppressed :
      DeliveryStatus

pub record DeliverySnapshot : Type 0 where
  pub status : DeliveryStatus
  pub attempt_count : ℕ
  pub processed_provider_event_ids : List Text

pub data DeliveryTransitionDecision : Type 0 where
  apply : DeliverySnapshot → DeliveryTransitionDecision
  ack_replay ack_stale deny : DeliveryTransitionDecision

-- The table of the transitions that are allowed.
unfoldable pub allowed : DeliveryStatus → DeliveryStatus → Bool
allowed queued sending = true
allowed queued suppressed = true
allowed sending accepted = true
allowed sending unknown = true
allowed sending retry_scheduled = true
allowed sending failed_permanent = true
allowed accepted delivered = true
allowed accepted bounced = true
allowed accepted complained = true
allowed delivered complained = true
allowed retry_scheduled sending = true
allowed retry_scheduled suppressed = true
allowed unknown accepted = true
allowed unknown delivered = true
allowed unknown retry_scheduled = true
allowed unknown failed_permanent = true
allowed unknown bounced = true
allowed unknown complained = true
allowed _ _ = false

abbrev pub is_provider_status : DeliveryStatus → Bool
is_provider_status accepted = true
is_provider_status delivered = true
is_provider_status bounced = true
is_provider_status complained = true
is_provider_status failed_permanent = true
is_provider_status _ = false

abbrev statuses : List (String × DeliveryStatus)
statuses =
    ("QUEUED", queued)
    ∷ ("SENDING", sending)
    ∷ ("ACCEPTED", accepted)
    ∷ ("DELIVERED", delivered)
    ∷ ("RETRY_SCHEDULED", retry_scheduled)
    ∷ ("UNKNOWN", unknown)
    ∷ ("FAILED_PERMANENT", failed_permanent)
    ∷ ("BOUNCED", bounced)
    ∷ ("COMPLAINED", complained)
    ∷ ("SUPPRESSED", suppressed)
    ∷ []

unfoldable pub find_status : List (String × DeliveryStatus) → Text → Option DeliveryStatus
find_status [] t = none
find_status ((name, status) ∷ rest) t =
    let later = find_status rest t in if text_eq t (codes name) then some status else later

unfoldable pub as_status : Value → Option DeliveryStatus
unfolding find_status
as_status (string t) = find_status statuses t
as_status _ = none

abbrev pub max_attempts : ℕ
max_attempts = 100

abbrev pub max_processed_events : ℕ
max_processed_events = 1000

abbrev pub as_attempt_count : Value → Option ℕ
as_attempt_count (number n) = if leb n max_attempts then some n else none
as_attempt_count _ = none

abbrev pub as_identifier : Value → Option Text
as_identifier (string t) = if is_identifier t then some t else none
as_identifier _ = none

-- `every(isNotificationIdentifier)`, with the test of the set's size as one of no repetition.
unfoldable pub distinct_identifiers : List Value → Option (List Text)
distinct_identifiers [] = some []
distinct_identifiers (v ∷ vs) = do
  id ← as_identifier v
  ids ← distinct_identifiers vs
  guard (not (text_in id ids))
  some (id ∷ ids)

abbrev pub as_event_ids : Value → Option (List Text)
as_event_ids (array items) =
    if leb (length (values items)) max_processed_events
    then distinct_identifiers (values items)
    else none
as_event_ids _ = none

abbrev pub snapshot_keys : List String
snapshot_keys = "status" ∷ "attemptCount" ∷ "processedProviderEventIds" ∷ []

abbrev pub check_snapshot : Entries → Option DeliverySnapshot
check_snapshot es = do
  status ← as_status (get "status" es)
  attempts ← as_attempt_count (get "attemptCount" es)
  events ← as_event_ids (get "processedProviderEventIds" es)
  some (record { status = status; attempt_count = attempts; processed_provider_event_ids = events })

-- `validSnapshot`, with the snapshot that the value then is.
unfoldable pub valid_snapshot : Value → Option DeliverySnapshot
valid_snapshot v = exact_record snapshot_keys v >>= check_snapshot

abbrev pub starts_attempt : DeliveryStatus → Bool
starts_attempt sending = true
starts_attempt _ = false

unfoldable pub decide_internal : DeliverySnapshot → DeliveryStatus → DeliveryTransitionDecision
decide_internal current next =
    if not (allowed current.status next)
    then deny
    else (if starts_attempt next && leb max_attempts current.attempt_count
        then deny
        else apply (record {
          status = next;
          attempt_count =
              if starts_attempt next then current.attempt_count + 1 else current.attempt_count;
          processed_provider_event_ids = current.processed_provider_event_ids;
        }))

unfoldable pub decide_internal_delivery_transition :
    Value → Value → Option DeliveryTransitionDecision
decide_internal_delivery_transition current proposed = do
  snapshot ← valid_snapshot current
  next ← as_status proposed
  guard (not (is_provider_status next))
  some (decide_internal snapshot next)

unfoldable pub decide_provider :
    DeliverySnapshot → Text → DeliveryStatus → DeliveryTransitionDecision
decide_provider current event_id next =
    if text_in event_id current.processed_provider_event_ids
    then ack_replay
    else (if not (allowed current.status next)
        then ack_stale
        else (if leb max_processed_events (length current.processed_provider_event_ids)
            then deny
            else apply (record {
              status = next;
              attempt_count = current.attempt_count;
              processed_provider_event_ids = current.processed_provider_event_ids ++ event_id ∷ [];
            })))

unfoldable pub decide_provider_delivery_transition :
    Value → Value → Value → Option DeliveryTransitionDecision
decide_provider_delivery_transition current provider_event_id proposed = do
  snapshot ← valid_snapshot current
  event_id ← as_identifier provider_event_id
  next ← as_status proposed
  guard (is_provider_status next)
  some (decide_provider snapshot event_id next)
