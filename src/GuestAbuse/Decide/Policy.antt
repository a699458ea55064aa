-- ===== src/GuestAbuse/Decide/Policy.antt =====
-- What the decision guarantees: the limits, the waiting times and the reservation.
use outscan.Prelude.{ℕ, ◌+◌, ◌≤◌, ◌<◌, ◌≡◌, ◌↔◌, Option, none, some, arith, >>=-eq-some}
use outscan.Js.{Value, Entries, get, exact_record}
use outscan.GuestAbuse.Decide.{
  UsageSnapshot, WindowUsage, is_open, GuestAbuseRequest, GuestAbuseReservation, DenyCode,
  session_burst_exceeded, session_daily_exceeded, network_burst_exceeded, network_daily_exceeded,
  allow_new_scan, deny, check_window, check_usage, check_request, window_keys, usage_keys,
  request_keys, window_usage, usage_snapshot, snapshot_request, decide_request,
  decide_guest_abuse_admission, reservation_dimensions,
}

-- A window that is still open, and no longer than its length.
pub record IsWindow (now length : ℕ) (w : WindowUsage) : Type 0 where
  pub later : now < w.reset_at
  pub bounded : w.reset_at ≤ now + length
  pub counted : w.count ≤ 1_000_000

pub record IsValidRequest (q : GuestAbuseRequest) : Type 0 where
  pub session_burst : IsWindow q.now_unix_seconds 600 q.usage.session_burst
  pub session_daily : IsWindow q.now_unix_seconds 86400 q.usage.session_daily
  pub network_burst : IsWindow q.now_unix_seconds 600 q.usage.network_burst
  pub network_daily : IsWindow q.now_unix_seconds 86400 q.usage.network_daily

check_window-IsWindow :
    (fields : Entries) (now length : ℕ) {w : WindowUsage}
    → check_window fields now length ≡ some w
    → IsWindow now length w
unfolding check_window
check_window-IsWindow fields now length h = ground arith

window_usage-IsWindow :
    (v : Value) (now length : ℕ) {w : WindowUsage}
    → window_usage v now length ≡ some w
    → IsWindow now length w
unfolding window_usage
window_usage-IsWindow v now length h =
    let (fields, _, checked) =
      >>=-eq-some (exact_record window_keys v) (λ e. check_window e now length) h in
    check_window-IsWindow fields now length checked

abbrev AreWindows : ℕ → UsageSnapshot → Type 0
AreWindows now u =
    IsWindow now 600 u.session_burst
    × IsWindow now 86400 u.session_daily
    × IsWindow now 600 u.network_burst
    × IsWindow now 86400 u.network_daily

check_usage-windows :
    (fields : Entries) (now : ℕ) {u : UsageSnapshot}
    → check_usage fields now ≡ some u
    → (window_usage (get "session_burst" fields) now 600 ≡ some u.session_burst)
      × (window_usage (get "session_daily" fields) now 86400 ≡ some u.session_daily)
      × (window_usage (get "network_burst" fields) now 600 ≡ some u.network_burst)
      × (window_usage (get "network_daily" fields) now 86400 ≡ some u.network_daily)
unfolding check_usage
check_usage-windows fields now h = ground arith

check_usage-AreWindows :
    (fields : Entries) (now : ℕ) {u : UsageSnapshot}
    → check_usage fields now ≡ some u
    → AreWindows now u
check_usage-AreWindows fields now h =
    let (a, b, c, d) = check_usage-windows fields now h in
    (
      window_usage-IsWindow (get "session_burst" fields) now 600 a,
      window_usage-IsWindow (get "session_daily" fields) now 86400 b,
      window_usage-IsWindow (get "network_burst" fields) now 600 c,
      window_usage-IsWindow (get "network_daily" fields) now 86400 d,
    )

snapshot_request-usage :
    (fields : Entries) {q : GuestAbuseRequest}
    → check_request fields ≡ some q
    → usage_snapshot (get "usage" fields) q.now_unix_seconds ≡ some q.usage
unfolding check_request
snapshot_request-usage fields h = ground arith

pub snapshot_request-IsValid :
    (v : Value) {q : GuestAbuseRequest} → snapshot_request v ≡ some q → IsValidRequest q
unfolding snapshot_request usage_snapshot
snapshot_request-IsValid v {q} h =
    let (fields, _, checked) = >>=-eq-some (exact_record request_keys v) check_request h in
    let (usage_fields, _, windows) =
      >>=-eq-some (exact_record usage_keys (get "usage" fields))
        (λ e. check_usage e q.now_unix_seconds) (snapshot_request-usage fields checked) in
    let (a, b, c, d) = check_usage-AreWindows usage_fields q.now_unix_seconds windows in
    record { session_burst = a; session_daily = b; network_burst = c; network_daily = d }

-- Service open, and room for one more scan in every one of the six dimensions.
pub record HasRoom (q : GuestAbuseRequest) : Type 0 where
  pub service_open : q.service_state ≡ is_open
  pub session_active : q.usage.session_active + 1 ≤ 1
  pub session_burst : q.usage.session_burst.count + 1 ≤ 3
  pub session_daily : q.usage.session_daily.count + 1 ≤ 10
  pub network_active : q.usage.network_active + 1 ≤ 4
  pub network_burst : q.usage.network_burst.count + 1 ≤ 20
  pub network_daily : q.usage.network_daily.count + 1 ≤ 100

-- A reservation of one scan in all six dimensions for the request's session, network and time.
abbrev pub Reserves : GuestAbuseRequest → GuestAbuseReservation → Type 0
Reserves q r =
    (r.guest_session_scope ≡ q.guest_session_scope)
    × (r.network_signal_digest ≡ q.network_signal_digest)
    × (r.observed_at_unix_seconds ≡ q.now_unix_seconds)
    × (r.dimensions ≡ reservation_dimensions)

allow_request_iff :
    (q : GuestAbuseRequest) (r : GuestAbuseReservation)
    → (decide_request q ≡ allow_new_scan r) ↔ (HasRoom q × Reserves q r)
unfolding decide_request
allow_request_iff q r = (λ h. ground arith, λ h. ground arith)

-- For a valid context, a scan is admitted exactly when the service is open and each of the six
-- dimensions has room for one more scan under its limit, and then the reservation is for the
-- request's session, network and time, in all six dimensions.
pub allow_iff :
    (v : Value) (q : GuestAbuseRequest) (r : GuestAbuseReservation)
    → snapshot_request v ≡ some q
    → (decide_guest_abuse_admission v ≡ allow_new_scan r) ↔ (HasRoom q × Reserves q r)
unfolding decide_guest_abuse_admission
allow_iff v q r h = rw (h, decide_guest_abuse_admission) (allow_request_iff q r)

-- The window that a denial waits for, its length and its limit.
abbrev pub blocking : GuestAbuseRequest → DenyCode → Option (WindowUsage × ℕ × ℕ)
blocking q session_burst_exceeded = some (q.usage.session_burst, 600, 3)
blocking q session_daily_exceeded = some (q.usage.session_daily, 86400, 10)
blocking q network_burst_exceeded = some (q.usage.network_burst, 600, 20)
blocking q network_daily_exceeded = some (q.usage.network_daily, 86400, 100)
blocking q _ = none

-- The waiting time of a window: some seconds, at most its length, at whose end it resets; the window
-- is used up.
abbrev pub Blocks : ℕ → ℕ → Option (WindowUsage × ℕ × ℕ) → Type 0
Blocks now s none = ⊥
Blocks now s (some (w, length, limit)) =
    (limit ≤ w.count) × (now + s ≡ w.reset_at) × (0 < s) × (s ≤ length)

deny_waits :
    (q : GuestAbuseRequest) (code : DenyCode) (s : ℕ)
    → IsValidRequest q
    → decide_request q ≡ deny code (some s)
    → Blocks q.now_unix_seconds s (blocking q code)
unfolding decide_request
deny_waits q session_burst_exceeded s v h = ground arith
deny_waits q _ s v h = ground arith

-- A denial that names a waiting time is for a window that is used up, and the time is at least one
-- second, at most the window's length, and ends exactly when the window resets.
pub retry_after_exact :
    (v : Value) (q : GuestAbuseRequest) (code : DenyCode) (s : ℕ)
    → snapshot_request v ≡ some q
    → decide_guest_abuse_admission v ≡ deny code (some s)
    → Blocks q.now_unix_seconds s (blocking q code)
unfolding decide_guest_abuse_admission
retry_after_exact v q code s e h =
    deny_waits q code s (snapshot_request-IsValid v e) (rw (e, decide_guest_abuse_admission) at h)
