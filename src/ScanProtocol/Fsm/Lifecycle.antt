-- ===== src/ScanProtocol/Fsm/Lifecycle.antt =====
-- The lives of a job and of an attempt, as sequences of accepted transitions.
use outscan.Prelude.{ℕ, ◌+◌, ◌≤◌, ◌<◌, ◌≡◌, refl, ◌↔◌, List, [], ◌∷◌, arith, length}
use outscan.ScanProtocol.Fsm.{
  JobState, JobEvent, AttemptState, AttemptEvent, allowed, invalid_transition, transition_job,
  transition_attempt,
}

-- The states that the protocol calls final.
pub data IsFinalJob : JobState → Type 0 where
  job_succeeded : IsFinalJob JobState.succeeded
  job_failed : IsFinalJob JobState.failed
  job_cancelled : IsFinalJob JobState.cancelled
  job_expired : IsFinalJob JobState.expired

-- The events that a job accepts, one after the other, from a first state to a last one.
pub data JobTrace : JobState → List JobEvent → JobState → Type 0 where
  stay : {s : JobState} → JobTrace s [] s
  step :
      {s t u : JobState} {e : JobEvent} {es : List JobEvent}
      → transition_job s e ≡ allowed t
      → JobTrace t es u
      → JobTrace s (e ∷ es) u

pub data AttemptTrace : AttemptState → List AttemptEvent → AttemptState → Type 0 where
  stay : {s : AttemptState} → AttemptTrace s [] s
  step :
      {s t u : AttemptState} {e : AttemptEvent} {es : List AttemptEvent}
      → transition_attempt s e ≡ allowed t
      → AttemptTrace t es u
      → AttemptTrace s (e ∷ es) u

abbrev job_height : JobState → ℕ
job_height JobState.queued = 2
job_height JobState.running = 1
job_height _ = 0

abbrev attempt_height : AttemptState → ℕ
attempt_height AttemptState.created = 3
attempt_height AttemptState.leased = 2
attempt_height AttemptState.running = 1
attempt_height _ = 0

job_height-transition :
    (s t : JobState) (e : JobEvent) → transition_job s e ≡ allowed t → job_height t < job_height s
unfolding transition_job
job_height-transition s t e h = ground arith

attempt_height-transition :
    (s t : AttemptState) (e : AttemptEvent)
    → transition_attempt s e ≡ allowed t
    → attempt_height t < attempt_height s
unfolding transition_attempt
attempt_height-transition s t e h = ground arith

JobTrace-height :
    {s u : JobState} {es : List JobEvent}
    → JobTrace s es u
    → length es + job_height u ≤ job_height s
JobTrace-height stay = omega arith
JobTrace-height (step {s} {t} {e = e} h r) =
    omega (arith, job_height-transition s t e h, JobTrace-height r)

AttemptTrace-height :
    {s u : AttemptState} {es : List AttemptEvent}
    → AttemptTrace s es u
    → length es + attempt_height u ≤ attempt_height s
AttemptTrace-height stay = omega arith
AttemptTrace-height (step {s} {t} {e = e} h r) =
    omega (arith, attempt_height-transition s t e h, AttemptTrace-height r)

height_of_IsFinalJob : {s : JobState} → IsFinalJob s → job_height s ≡ 0
height_of_IsFinalJob job_succeeded = refl
height_of_IsFinalJob job_failed = refl
height_of_IsFinalJob job_cancelled = refl
height_of_IsFinalJob job_expired = refl

-- A job is in a final state (succeeded, failed, cancelled or expired) exactly when it accepts no
-- event at all.
pub IsFinalJob-iff :
    (s : JobState) → IsFinalJob s ↔ ((e : JobEvent) → transition_job s e ≡ invalid_transition)
unfolding transition_job
IsFinalJob-iff JobState.queued =
    (λ h. absurd (omega (arith, height_of_IsFinalJob h)), λ h. cc (h JobEvent.cancel))
IsFinalJob-iff JobState.running =
    (λ h. absurd (omega (arith, height_of_IsFinalJob h)), λ h. cc (h JobEvent.cancel))
IsFinalJob-iff JobState.succeeded = (λ h e. refl, λ h. job_succeeded)
IsFinalJob-iff JobState.failed = (λ h e. refl, λ h. job_failed)
IsFinalJob-iff JobState.cancelled = (λ h e. refl, λ h. job_cancelled)
IsFinalJob-iff JobState.expired = (λ h e. refl, λ h. job_expired)

-- From any state a job accepts at most two events, and an attempt at most three: no sequence of
-- events keeps a job or an attempt alive for ever.
pub lifetimes_bounded :
    {s u : JobState} {es : List JobEvent} {a b : AttemptState} {fs : List AttemptEvent}
    → JobTrace s es u
    → AttemptTrace a fs b
    → (length es ≤ 2) × (length fs ≤ 3)
lifetimes_bounded {s = s} {a = a} j t = (
  omega (arith, JobTrace-height j, job_height_max s),
  omega (arith, AttemptTrace-height t, attempt_height_max a),
)
  where
    job_height_max : (s : JobState) → job_height s ≤ 2
    job_height_max s = ground arith

    attempt_height_max : (s : AttemptState) → attempt_height s ≤ 3
    attempt_height_max s = ground arith

attempt_final_stays :
    {a b : AttemptState} {es : List AttemptEvent}
    → attempt_height a ≡ 0
    → AttemptTrace a es b
    → (es ≡ []) × (a ≡ b)
attempt_final_stays h stay = (refl, refl)
attempt_final_stays h (step {s} {t} {e = e} g r) =
    absurd (omega (arith, attempt_height-transition s t e g))

job_final_stays :
    {s u : JobState} {es : List JobEvent} → job_height s ≡ 0 → JobTrace s es u → (es ≡ []) × (s ≡ u)
job_final_stays h stay = (refl, refl)
job_final_stays h (step {s} {t} {e = e} g r) = absurd (omega (arith, job_height-transition s t e g))

running_attempt_succeeds :
    {a b : AttemptState} {es : List AttemptEvent}
    → a ≡ AttemptState.running
    → b ≡ AttemptState.succeeded
    → AttemptTrace a es b
    → es ≡ AttemptEvent.primary_result_committed ∷ []
unfolding transition_attempt
running_attempt_succeeds p q stay = cc
running_attempt_succeeds p q (step {s} {t} {e = e} g r) =
    let (rest, same) = attempt_final_stays (ground (arith, attempt_height-transition s t e g)) r in
    ground arith

leased_attempt_succeeds :
    {a b : AttemptState} {es : List AttemptEvent}
    → a ≡ AttemptState.leased
    → b ≡ AttemptState.succeeded
    → AttemptTrace a es b
    → es ≡ AttemptEvent.scanner_started ∷ AttemptEvent.primary_result_committed ∷ []
unfolding transition_attempt
leased_attempt_succeeds p q stay = cc
leased_attempt_succeeds p q (step {s} {t} {u} {e} {es} g r) = ground (
  arith,
  λ (x : t ≡ AttemptState.running). running_attempt_succeeds x q r,
  λ (x : attempt_height t ≡ 0). attempt_final_stays x r,
)

running_job_succeeds :
    {s u : JobState} {es : List JobEvent}
    → s ≡ JobState.running
    → u ≡ JobState.succeeded
    → JobTrace s es u
    → es ≡ JobEvent.primary_result_committed ∷ []
unfolding transition_job
running_job_succeeds p q stay = cc
running_job_succeeds p q (step {s} {t} {e = e} g r) =
    let (rest, same) = job_final_stays (ground (arith, job_height-transition s t e g)) r in
    ground arith

created_attempt_succeeds :
    {a b : AttemptState} {es : List AttemptEvent}
    → a ≡ AttemptState.created
    → b ≡ AttemptState.succeeded
    → AttemptTrace a es b
    → es
      ≡ AttemptEvent.lease_acquired ∷ AttemptEvent.scanner_started
        ∷ AttemptEvent.primary_result_committed ∷ []
unfolding transition_attempt
created_attempt_succeeds p q stay = cc
created_attempt_succeeds p q (step {s} {t} {u} {e} {es} g r) = ground (
  arith,
  λ (x : t ≡ AttemptState.leased). leased_attempt_succeeds x q r,
  λ (x : attempt_height t ≡ 0). attempt_final_stays x r,
)

queued_job_succeeds :
    {s u : JobState} {es : List JobEvent}
    → s ≡ JobState.queued
    → u ≡ JobState.succeeded
    → JobTrace s es u
    → es ≡ JobEvent.attempt_started ∷ JobEvent.primary_result_committed ∷ []
unfolding transition_job
queued_job_succeeds p q stay = cc
queued_job_succeeds p q (step {s} {t} {u} {e} {es} g r) = ground (
  arith,
  λ (x : t ≡ JobState.running). running_job_succeeds x q r,
  λ (x : job_height t ≡ 0). job_final_stays x r,
)

-- A job that was queued and ends as succeeded was started and then committed, and an attempt that
-- was created and ends as succeeded was leased, then run, then committed, by these events in this
-- order and no other.
pub succeeded_histories :
    {es : List JobEvent} {fs : List AttemptEvent}
    → JobTrace JobState.queued es JobState.succeeded
    → AttemptTrace AttemptState.created fs AttemptState.succeeded
    → (es ≡ JobEvent.attempt_started ∷ JobEvent.primary_result_committed ∷ [])
      × (fs
          ≡ AttemptEvent.lease_acquired ∷ AttemptEvent.scanner_started
            ∷ AttemptEvent.primary_result_committed ∷ [])
succeeded_histories j t = (queued_job_succeeds refl refl j, created_attempt_succeeds refl refl t)
