-- ===== src/GuestQueue/Processor/Ordered.antt =====
-- What the processor does before it commits.
use outscan.Prelude.{ℕ, ◌≡◌, refl, Bool, true, false, Option, none, some, List, [], ◌∷◌, ◌>>=◌}
use mathlib.Core.Path.{subst}
use outscan.Js.{Value}
use outscan.GuestQueue.{
  GuestAttemptLease, LeaseCommand, GuestQueueMessage, parse_guest_queue_message,
}
use outscan.GuestQueue.Processor.Heartbeat.{
  RenewAnswer, lease_renewed, renew_refused, Beat, ticks, answers, Renewals, lease_command, beat,
  beat_all, settle_renewals,
}
use outscan.GuestQueue.Processor.{
  AcquireAnswer, lease_acquired, job_terminated, not_acquirable, lease_held, acquire_refused,
  RunAnswer, run_ok, run_failed, CommitAnswer, primary_commit, commit_repeated, commit_refused,
  RecordAnswer, rejection_recorded, record_refused, Outside, rejected, committing, ran,
  execution_context, contextual, started, acquired, processing, process, rejection_of,
}
use outscan.GuestQueue.Processor.Reports.{commits_of}

-- A renewal that is answered with a new lease.
abbrev pub IsRenewed : Option RenewAnswer → Type 0
IsRenewed answer = (version expires_at : ℕ) × (answer ≡ some (lease_renewed version expires_at))

-- The lease is kept: every answer that comes while a renewal is in flight brings a new lease, and so does
-- the one that is still awaited after the runner has settled.
abbrev pub IsKept : Bool → List Beat → Option RenewAnswer → Type 0
IsKept true [] last = IsRenewed last
IsKept false [] last = Unit
IsKept true (ticks ∷ beats) last = IsKept true beats last
IsKept false (ticks ∷ beats) last = IsKept true beats last
IsKept true (answers answer ∷ beats) last = IsRenewed answer × IsKept false beats last
IsKept false (answers _ ∷ beats) last = IsKept false beats last

abbrev renewals : GuestAttemptLease → Bool → Bool → List LeaseCommand → Renewals
renewals lease in_flight lost sent = record {
  lease = lease;
  in_flight = in_flight;
  lost = lost;
  sent = sent;
}

-- A heartbeat that is not lost in the end was not lost before, and the lease was kept.
kept_lem :
    (beats : List Beat) (last : Option RenewAnswer) (lease : GuestAttemptLease)
    (in_flight lost : Bool) (sent : List LeaseCommand)
    → (settle_renewals last (beat_all beats (renewals lease in_flight lost sent))).lost ≡ false
    → IsKept in_flight beats last × (lost ≡ false)
unfolding settle_renewals beat_all beat
kept_lem [] (some (lease_renewed version expires_at)) lease true lost sent h =
    ((version, expires_at, refl), h)
kept_lem [] (some renew_refused) lease true lost sent h = cc
kept_lem [] none lease true lost sent h = cc
kept_lem [] last lease false lost sent h = (tt, h)
kept_lem (ticks ∷ beats) last lease true lost sent h = kept_lem beats last lease true lost sent h
kept_lem (ticks ∷ beats) last lease false true sent h =
    let (_, lost) = kept_lem beats last lease false true sent h in cc
kept_lem (ticks ∷ beats) last lease false false sent h = kept_lem beats last lease true false _ h
kept_lem (answers (some (lease_renewed version expires_at)) ∷ beats) last lease true lost sent h =
    let (kept, not_lost) = kept_lem beats last _ false lost sent h in
    (((version, expires_at, refl), kept), not_lost)
kept_lem (answers (some renew_refused) ∷ beats) last lease true lost sent h =
    let (_, kept) = kept_lem beats last lease false true sent h in cc
kept_lem (answers none ∷ beats) last lease true lost sent h =
    let (_, kept) = kept_lem beats last lease false true sent h in cc
kept_lem (answers _ ∷ beats) last lease false lost sent h =
    kept_lem beats last lease false lost sent h

-- Everything that precedes a commit went well: the lease was acquired, the attempt started, its context
-- loaded, and the runner settled with this submission while every renewal of the lease succeeded.
abbrev pub IsReady : Outside → GuestQueueMessage → Value → Type 0
IsReady outside message submission =
    (lease : GuestAttemptLease) × (outside.acquire message.guest_scan_id
      ≡ some (lease_acquired lease))
    × (outside.start (lease_command lease) ≡ some true)
    × ((envelope trusted : Value) × ((outside.load lease >>= execution_context)
          ≡ some (envelope, trusted))
        × ((outside.run envelope trusted).settles ≡ some (run_ok (some submission)))
        × IsKept false (outside.run envelope trusted).beats (outside.run envelope trusted).last)

no_commit_rejected :
    (outside : Outside) (audit : Bool) (o : Option RecordAnswer)
    → commits_of (rejected outside audit o).effects ≡ []
no_commit_rejected outside audit none = refl
no_commit_rejected outside audit (some record_refused) = refl
no_commit_rejected outside true (some (rejection_recorded true)) = refl
no_commit_rejected outside true (some (rejection_recorded false)) = refl
no_commit_rejected outside false (some (rejection_recorded true)) = refl
no_commit_rejected outside false (some (rejection_recorded false)) = refl

no_commit_committing :
    (outside : Outside) (lease : GuestAttemptLease) (o : Option CommitAnswer)
    → commits_of (committing outside lease o).effects ≡ []
no_commit_committing outside lease none = refl
no_commit_committing outside lease (some primary_commit) = refl
no_commit_committing outside lease (some commit_repeated) = refl
no_commit_committing outside lease (some (commit_refused code audit)) =
    no_commit_rejected outside audit (outside.reject (rejection_of lease code))

ran_commits :
    (outside : Outside) (lease : GuestAttemptLease) (o : Option RunAnswer) (lost : Bool) {s : Value}
    {rest : List Value}
    → commits_of (ran outside lease o lost).effects ≡ s ∷ rest
    → (rest ≡ []) × (o ≡ some (run_ok (some s))) × (lost ≡ false)
ran_commits outside lease none lost h = cc
ran_commits outside lease (some answer) true h = cc
ran_commits outside lease (some run_failed) false h = cc
ran_commits outside lease (some (run_ok none)) false h = cc
ran_commits outside lease (some (run_ok (some s))) false h =
    let none_after = no_commit_committing outside lease (outside.commit s) in
    (cc (h, none_after), cc h, refl)

acquired_commits :
    (outside : Outside) (message : GuestQueueMessage) (a : Option AcquireAnswer) {s : Value}
    {rest : List Value}
    → outside.acquire message.guest_scan_id ≡ a
    → commits_of (acquired outside a).effects ≡ s ∷ rest
    → (rest ≡ []) × IsReady outside message s
acquired_commits outside message none e h = cc
acquired_commits outside message (some not_acquirable) e h = cc
acquired_commits outside message (some lease_held) e h = cc
acquired_commits outside message (some acquire_refused) e h = cc
acquired_commits outside message (some job_terminated) e h = cc
acquired_commits outside message (some (lease_acquired lease)) {s} {rest} e h =
    go (outside.start (lease_command lease)) refl h
  where
    load :
        (c : Option (Value × Value))
        → (outside.load lease >>= execution_context) ≡ c
        → outside.start (lease_command lease) ≡ some true
        → commits_of (contextual outside lease c).effects ≡ s ∷ rest
        → (rest ≡ []) × IsReady outside message s
    load none loaded begun h = cc
    load (some (envelope, trusted)) loaded begun h =
        let (last, settled, kept) = ran_commits outside lease _ _ h in
        let turns = outside.run envelope trusted in
        let (renewed_all, _) = kept_lem turns.beats turns.last lease false false [] kept in
        (last, (lease, e, begun, (envelope, trusted, loaded, settled, renewed_all)))

    go :
        (b : Option Bool)
        → outside.start (lease_command lease) ≡ b
        → commits_of (started outside lease b).effects ≡ s ∷ rest
        → (rest ≡ []) × IsReady outside message s
    go none begun h = cc
    go (some false) begun h = cc
    go (some true) begun h = load (outside.load lease >>= execution_context) refl begun h

-- A submission is handed to the committer at most once for a message, and only when everything before
-- it went well: the lease acquired, the attempt started, the context loaded, and the runner settled
-- with this very submission, while every renewal of the lease that was asked for, the one awaited at
-- the end included, was answered with a new lease.
pub commits-IsReady :
    (outside : Outside) (value : Value) (message : GuestQueueMessage) (submission : Value)
    (rest : List Value)
    → parse_guest_queue_message value ≡ some message
    → commits_of (process outside value).effects ≡ submission ∷ rest
    → (rest ≡ []) × IsReady outside message submission
unfolding process
commits-IsReady outside value message submission rest parsed h =
    acquired_commits outside message (outside.acquire message.guest_scan_id) refl
      (subst (λ o. commits_of (processing outside o).effects ≡ submission ∷ rest) parsed h)
