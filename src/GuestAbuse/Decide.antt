-- ===== src/GuestAbuse/Decide.antt =====
-- The quota decision: apps/api/src/guest-abuse/{model,decide}.ts. A bigint below 0 fails the range
-- tests of the source, so `as_bigint` drops it.
pub mod Policy
use outscan.Prelude.{
  ℕ, ◌+◌, ◌-◌, Bool, true, false, ◌&&◌, Option, none, some, List, [], ◌∷◌, String, ltb, leb,
  if◌then◌else◌, ◌>>=◌, ◌>>◌, guard,
}
use outscan.Js.{
  Text, codes, Value, number, bigint, Entries, get, exact_record, as_string, as_u64, uint64_max,
  text_eq, string,
}
use outscan.Js.Patterns.{is_digest}

abbrev pub session_burst_window_seconds : ℕ
session_burst_window_seconds = 600

abbrev pub session_burst_limit : ℕ
session_burst_limit = 3

abbrev pub session_daily_window_seconds : ℕ
session_daily_window_seconds = 86400

abbrev pub session_daily_limit : ℕ
session_daily_limit = 10

abbrev pub network_burst_window_seconds : ℕ
network_burst_window_seconds = 600

abbrev pub network_burst_limit : ℕ
network_burst_limit = 20

abbrev pub network_daily_window_seconds : ℕ
network_daily_window_seconds = 86400

abbrev pub network_daily_limit : ℕ
network_daily_limit = 100

abbrev pub session_concurrency_limit : ℕ
session_concurrency_limit = 1

abbrev pub network_concurrency_limit : ℕ
network_concurrency_limit = 4

abbrev pub max_counter_value : ℕ
max_counter_value = 1_000_000

pub data ReservationDimension : Type 0 where
  session_burst session_daily network_burst network_daily session_active network_active :
      ReservationDimension

abbrev pub reservation_dimensions : List ReservationDimension
reservation_dimensions =
    session_burst ∷ session_daily ∷ network_burst ∷ network_daily ∷ session_active ∷ network_active
    ∷ []

pub record WindowUsage : Type 0 where
  pub count : ℕ
  pub reset_at : ℕ

pub record UsageSnapshot : Type 0 where
  pub session_burst : WindowUsage
  pub session_daily : WindowUsage
  pub network_burst : WindowUsage
  pub network_daily : WindowUsage
  pub session_active : ℕ
  pub network_active : ℕ

pub data ServiceState : Type 0 where
  is_open is_paused : ServiceState

pub record GuestAbuseRequest : Type 0 where
  pub guest_session_scope : Text
  pub network_signal_digest : Text
  pub now_unix_seconds : ℕ
  pub service_state : ServiceState
  pub usage : UsageSnapshot

-- The policy's id, a constant of the source, is left out.
pub record GuestAbuseReservation : Type 0 where
  pub guest_session_scope : Text
  pub network_signal_digest : Text
  pub observed_at_unix_seconds : ℕ
  pub dimensions : List ReservationDimension

pub data DenyCode : Type 0 where
  guest_scanning_paused session_concurrency session_burst_exceeded session_daily_exceeded
        network_concurrency network_burst_exceeded network_daily_exceeded :
      DenyCode

pub data GuestAbuseDecision : Type 0 where
  allow_new_scan : GuestAbuseReservation → GuestAbuseDecision
  invalid_abuse_context : GuestAbuseDecision
  deny : DenyCode → (retry_after_seconds : Option ℕ) → GuestAbuseDecision

abbrev pub as_counter : Value → Option ℕ
as_counter (number n) = if leb n max_counter_value then some n else none
as_counter _ = none

abbrev pub as_bigint : Value → Option ℕ
as_bigint (bigint n) = some n
as_bigint _ = none

abbrev pub as_service_state : Value → Option ServiceState
as_service_state (string s) =
    if text_eq s (codes "OPEN")
    then some is_open
    else (if text_eq s (codes "PAUSED") then some is_paused else none)
as_service_state _ = none

abbrev pub window_keys : List String
window_keys = "count" ∷ "reset_at_unix_seconds" ∷ []

abbrev pub usage_keys : List String
usage_keys =
    "session_burst" ∷ "session_daily" ∷ "network_burst" ∷ "network_daily" ∷ "session_active"
    ∷ "network_active" ∷ []

abbrev pub request_keys : List String
request_keys =
    "guest_session_scope" ∷ "network_signal_digest" ∷ "now_unix_seconds" ∷ "service_state" ∷ "usage"
    ∷ []

-- Each check is on the fields of an object of the right shape.
unfoldable pub check_window : Entries → (now maximum_window_seconds : ℕ) → Option WindowUsage
check_window fields now maximum_window_seconds = do
  count ← as_counter (get "count" fields)
  reset_at ← as_bigint (get "reset_at_unix_seconds" fields)
  guard (ltb now reset_at && leb reset_at uint64_max && leb reset_at (now + maximum_window_seconds))
  some (record { count = count; reset_at = reset_at })

unfoldable pub window_usage : Value → (now maximum_window_seconds : ℕ) → Option WindowUsage
window_usage value now maximum_window_seconds = do
  fields ← exact_record window_keys value
  check_window fields now maximum_window_seconds

unfoldable pub check_usage : Entries → ℕ → Option UsageSnapshot
check_usage fields now = do
  burst ← window_usage (get "session_burst" fields) now session_burst_window_seconds
  daily ← window_usage (get "session_daily" fields) now session_daily_window_seconds
  wide_burst ← window_usage (get "network_burst" fields) now network_burst_window_seconds
  wide_daily ← window_usage (get "network_daily" fields) now network_daily_window_seconds
  active ← as_counter (get "session_active" fields)
  wide_active ← as_counter (get "network_active" fields)
  some (record {
    session_burst = burst;
    session_daily = daily;
    network_burst = wide_burst;
    network_daily = wide_daily;
    session_active = active;
    network_active = wide_active;
  })

unfoldable pub usage_snapshot : Value → ℕ → Option UsageSnapshot
usage_snapshot value now = do fields ← exact_record usage_keys value; check_usage fields now

unfoldable pub check_request : Entries → Option GuestAbuseRequest
check_request fields = do
  scope ← as_string (get "guest_session_scope" fields)
  guard (is_digest (codes "sha256:") scope)
  digest ← as_string (get "network_signal_digest" fields)
  guard (is_digest (codes "hmac-sha256:") digest)
  now ← as_u64 (get "now_unix_seconds" fields)
  state ← as_service_state (get "service_state" fields)
  usage ← usage_snapshot (get "usage" fields) now
  some (record {
    guest_session_scope = scope;
    network_signal_digest = digest;
    now_unix_seconds = now;
    service_state = state;
    usage = usage;
  })

unfoldable pub snapshot_request : Value → Option GuestAbuseRequest
snapshot_request value = do fields ← exact_record request_keys value; check_request fields

-- `resetAt - now`, of a window that resets later than now.
abbrev pub retry_after : (now reset_at : ℕ) → ℕ
retry_after now reset_at = reset_at - now

abbrev pub is_paused_state : ServiceState → Bool
is_paused_state is_paused = true
is_paused_state is_open = false

-- The tests in the order of the source.
unfoldable pub decide_request : GuestAbuseRequest → GuestAbuseDecision
decide_request request =
    let usage = request.usage in
    let now = request.now_unix_seconds in
    if is_paused_state request.service_state
    then deny guest_scanning_paused none
    else (if leb session_concurrency_limit usage.session_active
        then deny session_concurrency none
        else (if leb session_burst_limit usage.session_burst.count
            then deny session_burst_exceeded (some (retry_after now usage.session_burst.reset_at))
            else (if leb session_daily_limit usage.session_daily.count
                then deny session_daily_exceeded
                    (some (retry_after now usage.session_daily.reset_at))
                else (if leb network_concurrency_limit usage.network_active
                    then deny network_concurrency none
                    else (if leb network_burst_limit usage.network_burst.count
                        then deny network_burst_exceeded
                            (some (retry_after now usage.network_burst.reset_at))
                        else (if leb network_daily_limit usage.network_daily.count
                            then deny network_daily_exceeded
                                (some (retry_after now usage.network_daily.reset_at))
                            else allow_new_scan (record {
                              guest_session_scope = request.guest_session_scope;
                              network_signal_digest = request.network_signal_digest;
                              observed_at_unix_seconds = now;
                              dimensions = reservation_dimensions;
                            })))))))

unfoldable pub decide_guest_abuse_admission : Value → GuestAbuseDecision
decide_guest_abuse_admission value = elim (snapshot_request value) [
  | none ↦ invalid_abuse_context
  | some request ↦ decide_request request
]
