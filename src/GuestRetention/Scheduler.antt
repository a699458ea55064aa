-- ===== src/GuestRetention/Scheduler.antt =====
-- The scheduler of the retention runtime: `startGuestRetentionScheduler` of
-- apps/api/src/guest-retention/runtime.ts, as a machine whose events are what the event loop does.
pub mod Alive
use outscan.Prelude.{
  ℕ, suc, ◌+◌, Bool, true, false, not, ◌&&◌, Option, none, some, List, [], ◌∷◌, leb, if◌then◌else◌,
  ◌>>=◌, ◌>>◌, guard,
}
use outscan.Js.{Value}
use outscan.GuestRetention.Cycle.{CycleResult, as_integer, max_batch_size, max_batches_per_cycle}

-- `timer` is whether a timeout is pending, `in_flight` whether the last cycle has not settled. The
-- cycles started and the outcomes reported are counted and listed.
pub record SchedulerState : Type 0 where
  pub stopped : Bool
  pub timer : Bool
  pub in_flight : Bool
  pub cycles : ℕ
  pub outcomes : List CycleResult

-- The cycle in flight settles, with its outcome or, where it rejects, with none; the timeout of the
-- timer is over; `stop` is called.
pub data SchedulerEvent : Type 0 where
  settles : Option CycleResult → SchedulerEvent
  fires : SchedulerEvent
  stops : SchedulerEvent

-- `run`.
abbrev pub run : SchedulerState → SchedulerState
run s = record s { timer = false; in_flight = true; cycles = suc s.cycles }

-- `none` where the source throws: one of its arguments is refused.
unfoldable pub start_scheduler : Bool → Bool → Value → Value → Value → Option SchedulerState
start_scheduler valid_dependencies is_function batch_size max_batches interval_ms = do
  guard valid_dependencies
  _ ← as_integer 1 max_batch_size batch_size
  _ ← as_integer 1 max_batches_per_cycle max_batches
  _ ← as_integer 1000 3600000 interval_ms
  guard is_function
  some (
      run (record { stopped = false; timer = false; in_flight = false; cycles = 0; outcomes = [] }))

abbrev pub report : Option CycleResult → List CycleResult → List CycleResult
report none outcomes = outcomes
report (some outcome) outcomes = outcome ∷ outcomes

-- `none` where the event cannot happen.
unfoldable pub step : SchedulerEvent → SchedulerState → Option SchedulerState
step (settles outcome) s =
    if s.in_flight
    then some (record s {
      in_flight = false;
      timer = not s.stopped;
      outcomes = report outcome s.outcomes;
    })
    else none
step fires s = if s.timer then some (run s) else none
step stops s = some (record s { stopped = true; timer = false })

unfoldable pub run_events : List SchedulerEvent → SchedulerState → Option SchedulerState
run_events [] s = some s
run_events (e ∷ es) s = do next ← step e s; run_events es next
