-- ===== src/GuestQueue/Processor/Reports.antt =====
-- What the ending of a message says of the services: apps/api/src/guest-queue/processor.ts.
use outscan.Prelude.{◌≡◌, refl, Bool, true, false, Option, none, some, List, [], ◌∷◌, All}
use outscan.Js.{Value}
use outscan.GuestQueue.{
  GuestAttemptLease, GuestQueueMessage, GuestQueueOutcome, committed, already_committed,
  terminal_acknowledged, not_acquirable_acknowledged, parse_guest_queue_message,
}
use outscan.GuestQueue.Processor.{
  AcquireAnswer, lease_acquired, job_terminated, not_acquirable, lease_held, acquire_refused,
  RunAnswer, run_ok, run_failed, CommitAnswer, primary_commit, commit_repeated, commit_refused,
  RecordAnswer, rejection_recorded, record_refused, Outside, Effect, commits, records, Ending,
  acknowledged, retries, telemetry_threw, invalid_message, if_recorded, Run, retry, rejected,
  committing, ran, contextual, started, acquired, processing, process, rejection_of,
}

-- The outcomes that the telemetry is called with, and the submissions that the committer is.
abbrev pub outcomes_of : List Effect → List GuestQueueOutcome
outcomes_of [] = []
outcomes_of (records o ∷ es) = o ∷ outcomes_of es
outcomes_of (_ ∷ es) = outcomes_of es

abbrev pub commits_of : List Effect → List Value
commits_of [] = []
commits_of (commits s ∷ es) = s ∷ commits_of es
commits_of (_ ∷ es) = commits_of es

-- What entitles to the outcome of an acknowledged message, with the submissions that were committed.
abbrev pub IsSettled : Outside → GuestQueueMessage → List Value → GuestQueueOutcome → Type 0
IsSettled outside message submitted committed =
    (s : Value) × (submitted ≡ s ∷ []) × (outside.commit s ≡ some primary_commit)
IsSettled outside message submitted already_committed =
    (s : Value) × (submitted ≡ s ∷ []) × (outside.commit s ≡ some commit_repeated)
IsSettled outside message submitted terminal_acknowledged =
    (submitted ≡ []) × (outside.acquire message.guest_scan_id ≡ some job_terminated)
IsSettled outside message submitted not_acquirable_acknowledged =
    (submitted ≡ []) × (outside.acquire message.guest_scan_id ≡ some not_acquirable)
IsSettled outside message submitted _ = ⊥

-- The committer has not answered that the result is stored.
abbrev pub IsUnstored : Outside → Value → Type 0
IsUnstored outside s =
    (¬ (outside.commit s ≡ some primary_commit)) × (¬ (outside.commit s ≡ some commit_repeated))

-- The outcomes reported, the submissions committed and the ending, as they belong together.
abbrev pub Reports :
    Outside → GuestQueueMessage → List GuestQueueOutcome → List Value → Ending → Type 0
Reports outside message outcomes submitted (acknowledged o) =
    (outcomes ≡ o ∷ []) × (outside.record_outcome o ≡ true) × IsSettled outside message submitted o
Reports outside message outcomes submitted (retries o) =
    (outcomes ≡ o ∷ []) × (outside.record_outcome o ≡ true) × All (IsUnstored outside) submitted
Reports outside message outcomes submitted telemetry_threw =
    (o : GuestQueueOutcome) × (outcomes ≡ o ∷ []) × (outside.record_outcome o ≡ false)
Reports outside message outcomes submitted invalid_message = ⊥

abbrev HasReported : Outside → GuestQueueMessage → List Value → Run → Type 0
HasReported outside message submitted r =
    Reports outside message (outcomes_of r.effects) submitted r.ending

module _ (outside : Outside) (message : GuestQueueMessage) where
  acknowledged-Reports :
      (o : GuestQueueOutcome) (submitted : List Value) (b : Bool)
      → outside.record_outcome o ≡ b
      → IsSettled outside message submitted o
      → Reports outside message (o ∷ []) submitted (if_recorded b (acknowledged o))
  acknowledged-Reports o submitted true e settled = (refl, e, settled)
  acknowledged-Reports o submitted false e settled = (o, refl, e)

  retries-Reports :
      (o : GuestQueueOutcome) (submitted : List Value) (b : Bool)
      → outside.record_outcome o ≡ b
      → All (IsUnstored outside) submitted
      → Reports outside message (o ∷ []) submitted (if_recorded b (retries o))
  retries-Reports o submitted true e unstored = (refl, e, unstored)
  retries-Reports o submitted false e unstored = (o, refl, e)

  retry-Reports :
      (o : GuestQueueOutcome) (submitted : List Value)
      → All (IsUnstored outside) submitted
      → HasReported outside message submitted (retry outside o)
  retry-Reports o submitted = retries-Reports o submitted (outside.record_outcome o) refl

  rejected-Reports :
      (s : Value) (audit : Bool) (o : Option RecordAnswer)
      → IsUnstored outside s
      → HasReported outside message
          (s ∷ commits_of (rejected outside audit o).effects)
          (rejected outside audit o)
  rejected-Reports s audit none u = retry-Reports _ (s ∷ []) (u, tt)
  rejected-Reports s audit (some record_refused) u = retry-Reports _ (s ∷ []) (u, tt)
  rejected-Reports s true (some (rejection_recorded true)) u = retry-Reports _ (s ∷ []) (u, tt)
  rejected-Reports s true (some (rejection_recorded false)) u = retry-Reports _ (s ∷ []) (u, tt)
  rejected-Reports s false (some (rejection_recorded true)) u = retry-Reports _ (s ∷ []) (u, tt)
  rejected-Reports s false (some (rejection_recorded false)) u = retry-Reports _ (s ∷ []) (u, tt)

  committing-Reports :
      (lease : GuestAttemptLease) (s : Value) (o : Option CommitAnswer)
      → outside.commit s ≡ o
      → HasReported outside message
          (s ∷ commits_of (committing outside lease o).effects)
          (committing outside lease o)
  committing-Reports lease s none e = retry-Reports _ (s ∷ []) ((λ k. cc, λ k. cc), tt)
  committing-Reports lease s (some primary_commit) e =
      acknowledged-Reports committed (s ∷ []) (outside.record_outcome committed) refl (s, refl, e)
  committing-Reports lease s (some commit_repeated) e =
      acknowledged-Reports already_committed (s ∷ []) (outside.record_outcome already_committed)
        refl (s, refl, e)
  committing-Reports lease s (some (commit_refused code audit)) e =
      rejected-Reports s audit (outside.reject (rejection_of lease code)) (λ k. cc, λ k. cc)

  ran-Reports :
      (lease : GuestAttemptLease) (o : Option RunAnswer) (lost : Bool)
      → HasReported outside message
          (commits_of (ran outside lease o lost).effects)
          (ran outside lease o lost)
  ran-Reports lease none lost = retry-Reports _ [] tt
  ran-Reports lease (some answer) true = retry-Reports _ [] tt
  ran-Reports lease (some run_failed) false = retry-Reports _ [] tt
  ran-Reports lease (some (run_ok none)) false = retry-Reports _ [] tt
  ran-Reports lease (some (run_ok (some s))) false =
      committing-Reports lease s (outside.commit s) refl

  contextual-Reports :
      (lease : GuestAttemptLease) (o : Option (Value × Value))
      → HasReported outside message
          (commits_of (contextual outside lease o).effects)
          (contextual outside lease o)
  contextual-Reports lease none = retry-Reports _ [] tt
  contextual-Reports lease (some (envelope, trusted)) = ran-Reports lease _ _

  started-Reports :
      (lease : GuestAttemptLease) (o : Option Bool)
      → HasReported outside message
          (commits_of (started outside lease o).effects)
          (started outside lease o)
  started-Reports lease none = retry-Reports _ [] tt
  started-Reports lease (some false) = retry-Reports _ [] tt
  started-Reports lease (some true) = contextual-Reports lease _

  acquired-Reports :
      (o : Option AcquireAnswer)
      → outside.acquire message.guest_scan_id ≡ o
      → HasReported outside message (commits_of (acquired outside o).effects) (acquired outside o)
  acquired-Reports none e = retry-Reports _ [] tt
  acquired-Reports (some not_acquirable) e =
      acknowledged-Reports not_acquirable_acknowledged []
        (outside.record_outcome not_acquirable_acknowledged) refl (refl, e)
  acquired-Reports (some lease_held) e = retry-Reports _ [] tt
  acquired-Reports (some acquire_refused) e = retry-Reports _ [] tt
  acquired-Reports (some job_terminated) e =
      acknowledged-Reports terminal_acknowledged [] (outside.record_outcome terminal_acknowledged)
        refl (refl, e)
  acquired-Reports (some (lease_acquired lease)) e = started-Reports lease _

-- A value that is no message has no effect.
abbrev pub ProcessReports : Outside → Option GuestQueueMessage → Run → Type 0
ProcessReports outside none r = (r.effects ≡ []) × (r.ending ≡ invalid_message)
ProcessReports outside (some message) r =
    Reports outside message (outcomes_of r.effects) (commits_of r.effects) r.ending

processing-Reports :
    (outside : Outside) (o : Option GuestQueueMessage)
    → ProcessReports outside o (processing outside o)
processing-Reports outside none = (refl, refl)
processing-Reports outside (some message) = acquired-Reports outside message _ refl

-- The processing of a message calls the telemetry exactly once, with the outcome. If that call throws,
-- the message is neither acknowledged nor retried by the code's own error. If it returns, the message
-- is acknowledged as committed or already committed only where the one submission was answered so by
-- the committer, and as terminal or not acquirable only where the lease was; and a message that is
-- tried again has no submission of which the committer has answered that it is stored. A value that
-- is no message has no effect at all.
pub process-Reports :
    (outside : Outside) (value : Value)
    → ProcessReports outside (parse_guest_queue_message value) (process outside value)
unfolding process
process-Reports outside value = processing-Reports outside (parse_guest_queue_message value)
