-- ===== src/GuestQueue/Processor/Heartbeat.antt =====
-- The heartbeat of a run: the timer of `runWithHeartbeat` in
-- apps/api/src/guest-queue/processor.ts, as steps on what happens to it.
use outscan.Prelude.{ℕ, Bool, true, false, ◌||◌, Option, some, List, [], ◌∷◌, ◌++◌, if◌then◌else◌}
use outscan.GuestQueue.{GuestAttemptLease, LeaseCommand}

pub data RenewAnswer : Type 0 where
  lease_renewed : ℕ → ℕ → RenewAnswer  -- the version and the end of the lease
  renew_refused : RenewAnswer

-- The timer ticks, or the renewal in flight is answered, `none` where it rejects.
pub data Beat : Type 0 where
  ticks : Beat
  answers : Option RenewAnswer → Beat

-- The current lease, whether a renewal is in flight, whether the heartbeat was lost, in which case the
-- signal is aborted, and the renewals sent so far.
pub record Renewals : Type 0 where
  pub lease : GuestAttemptLease
  pub in_flight : Bool
  pub lost : Bool
  pub sent : List LeaseCommand

abbrev pub lease_command : GuestAttemptLease → LeaseCommand
lease_command lease = record {
  guest_scan_id = lease.guest_scan_id;
  attempt_id = lease.attempt_id;
  monotonic_fence = lease.monotonic_fence;
  lease_version = lease.lease_version;
}

abbrev pub first_renewals : GuestAttemptLease → Renewals
first_renewals lease = record { lease = lease; in_flight = false; lost = false; sent = [] }

abbrev pub renewed : Option RenewAnswer → Renewals → Renewals
renewed (some (lease_renewed version expires_at)) r = record r {
  lease = record r.lease { lease_version = version; lease_expires_at_unix_seconds = expires_at };
  in_flight = false;
}
renewed _ r = record r { lost = true; in_flight = false }

-- An answer comes only to a renewal that is in flight.
unfoldable pub beat : Beat → Renewals → Renewals
beat ticks r =
    if r.in_flight || r.lost
    then r
    else record r { in_flight = true; sent = r.sent ++ lease_command r.lease ∷ [] }
beat (answers answer) r = if r.in_flight then renewed answer r else r

unfoldable pub beat_all : List Beat → Renewals → Renewals
beat_all [] r = r
beat_all (b ∷ bs) r = beat_all bs (beat b r)

-- Once the runner has settled, a renewal in flight is awaited.
unfoldable pub settle_renewals : Option RenewAnswer → Renewals → Renewals
settle_renewals last r = if r.in_flight then renewed last r else r
