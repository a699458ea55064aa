-- ===== src/GuestRetention/Scheduler/Alive.antt =====
-- That the scheduler goes on until it is stopped, and not after.
use outscan.Prelude.{
  suc, ◌+◌, ◌≤◌, ◌≡◌, refl, Bool, true, false, not, Option, none, some, List, [], ◌∷◌, length,
  arith, >>=-eq-some, if◌then◌else◌, ◌⊎◌, inl, inr, sym, ap, ◌∙◌, Bool-cases, guard,
}
use outscan.GuestRetention.Cycle.{CycleResult, as_integer, max_batch_size, max_batches_per_cycle}
use outscan.Js.{Value}
use outscan.GuestRetention.Scheduler.{
  SchedulerState, SchedulerEvent, settles, fires, stops, start_scheduler, step, run_events, report,
  run,
}

-- A scheduler that is not stopped waits either for its cycle or for its timer, and not for both; one
-- that is stopped has no timer. Every cycle but the one in flight has settled.
abbrev pub IsScheduled : SchedulerState → Type 0
IsScheduled s =
    (s.timer ≡ (if s.stopped then false else not s.in_flight))
    × (length s.outcomes + (if s.in_flight then 1 else 0) ≤ s.cycles)

step-IsScheduled :
    (e : SchedulerEvent) (s : SchedulerState) {t : SchedulerState}
    → step e s ≡ some t
    → IsScheduled s
    → IsScheduled t
unfolding step
step-IsScheduled (settles none) s h (waits, counted) = ground (arith, h, waits, counted)
step-IsScheduled (settles (some outcome)) s h (waits, counted) = ground (arith, h, waits, counted)
step-IsScheduled fires s h (waits, counted) = ground (arith, h, waits, counted)
step-IsScheduled stops s h (waits, counted) = ground (arith, h, waits, counted)

events-IsScheduled :
    (es : List SchedulerEvent) (s : SchedulerState) {t : SchedulerState}
    → run_events es s ≡ some t
    → IsScheduled s
    → IsScheduled t
unfolding run_events
events-IsScheduled [] s h ok = ground (arith, h, ok.0, ok.1)
events-IsScheduled (e ∷ es) s h ok =
    let (next, stepped, later) = >>=-eq-some (step e s) (run_events es) h in
    events-IsScheduled es next later (step-IsScheduled e s stepped ok)

started-IsScheduled :
    (deps fn : Bool) (batch_size max_batches interval : Value) {s : SchedulerState}
    → start_scheduler deps fn batch_size max_batches interval ≡ some s
    → IsScheduled s
unfolding start_scheduler
started-IsScheduled deps fn batch_size max_batches interval h =
    let (_, _, h₁) = >>=-eq-some (guard deps) _ h in
    let (_, _, h₂) = >>=-eq-some (as_integer 1 max_batch_size batch_size) _ h₁ in
    let (_, _, h₃) = >>=-eq-some (as_integer 1 max_batches_per_cycle max_batches) _ h₂ in
    let (_, _, h₄) = >>=-eq-some (as_integer 1000 3600000 interval) _ h₃ in
    let (_, _, h₅) = >>=-eq-some (guard fn) _ h₄ in (ground (arith, h₅), ground (arith, h₅))

-- A stopped scheduler stays stopped and starts no cycle.
step_stopped :
    (e : SchedulerEvent) (s : SchedulerState) {t : SchedulerState}
    → step e s ≡ some t
    → IsScheduled s
    → s.stopped ≡ true
    → (t.stopped ≡ true) × (t.cycles ≡ s.cycles)
unfolding step
step_stopped (settles outcome) s h (waits, _) off =
    (ground (arith, h, waits, off), ground (arith, h, waits, off))
step_stopped fires s h (waits, _) off = ground (arith, h, waits, off)
step_stopped stops s h (waits, _) off = ground (arith, h, waits, off)

events_stopped :
    (es : List SchedulerEvent) (s : SchedulerState) {t : SchedulerState}
    → run_events es s ≡ some t
    → IsScheduled s
    → s.stopped ≡ true
    → t.cycles ≡ s.cycles
unfolding run_events
events_stopped [] s h ok off = ground (arith, h)
events_stopped (e ∷ es) s h ok off =
    let (next, stepped, later) = >>=-eq-some (step e s) (run_events es) h in
    let (still, same) = step_stopped e s stepped ok off in
    events_stopped es next later (step-IsScheduled e s stepped ok) still ∙ same

-- What can happen next in a scheduler that is at work: its timer fires and starts one more cycle, or
-- the cycle in flight settles, whatever its outcome, and the timer is set.
abbrev pub GoesOn : SchedulerState → Option CycleResult → Type 0
GoesOn s outcome =
    ((t : SchedulerState) × (step fires s ≡ some t)
      × (t.in_flight ≡ true)
      × (t.cycles ≡ suc s.cycles))
    ⊎ ((t : SchedulerState) × (step (settles outcome) s ≡ some t)
        × (t.timer ≡ true)
        × (t.cycles ≡ s.cycles))

scheduled-GoesOn :
    (s : SchedulerState) (outcome : Option CycleResult)
    → IsScheduled s
    → s.stopped ≡ false
    → GoesOn s outcome
unfolding step
scheduled-GoesOn s outcome (waits, _) at_work = elim (Bool-cases s.in_flight) [
  | inl busy ↦ inr (
    record s { in_flight = false; timer = not s.stopped; outcomes = report outcome s.outcomes },
    rw busy refl,
    rw at_work refl,
    refl,
  )
  | inr idle ↦
      let pending : s.timer ≡ true = ground (arith, waits, at_work, idle) in
      inl (run s, rw pending refl, refl, refl)
]

-- After any events, the scheduler has no more outcomes than cycles, and as long as `stop` was not
-- called it goes on, whatever the outcome of the cycle in flight is: it never comes to rest.
pub events-GoesOn :
    (deps fn : Bool) (batch_size max_batches interval : Value) (es : List SchedulerEvent)
    (first s : SchedulerState) (outcome : Option CycleResult)
    → start_scheduler deps fn batch_size max_batches interval ≡ some first
    → run_events es first ≡ some s
    → s.stopped ≡ false
    → GoesOn s outcome × (length s.outcomes ≤ s.cycles)
events-GoesOn deps fn batch_size max_batches interval es first s outcome started happened at_work =
    let (waits, counted) =
      events-IsScheduled es first happened
        (started-IsScheduled deps fn batch_size max_batches interval started) in
    (scheduled-GoesOn s outcome (waits, counted) at_work, omega (arith, counted))

-- Once `stop` is called, no further cycle is started, whatever happens before and after.
pub stops-cycles :
    (deps fn : Bool) (batch_size max_batches interval : Value) (es fs : List SchedulerEvent)
    (first s stopped last : SchedulerState)
    → start_scheduler deps fn batch_size max_batches interval ≡ some first
    → run_events es first ≡ some s
    → step stops s ≡ some stopped
    → run_events fs stopped ≡ some last
    → last.cycles ≡ s.cycles
unfolding step
stops-cycles deps fn batch_size max_batches interval es fs first s stopped last started happened
      stop_is later =
    let ok =
      events-IsScheduled es first happened
        (started-IsScheduled deps fn batch_size max_batches interval started) in
    let same : record s { stopped = true; timer = false } ≡ stopped = ground (arith, stop_is) in
    events_stopped fs stopped later (step-IsScheduled stops s stop_is ok)
      (sym (ap (λ x. x.stopped) same))
    ∙ sym (ap (λ x. x.cycles) same)
