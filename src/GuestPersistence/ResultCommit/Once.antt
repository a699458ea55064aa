-- ===== src/GuestPersistence/ResultCommit/Once.antt =====
-- That a scan has at most one result, whatever is submitted and whatever fails.
use outscan.Prelude.{
  ℕ, zero, suc, ◌+◌, ◌≤◌, ◌≡◌, refl, sym, ◌∙◌, inl, inr, ◌⊎◌, Bool, true, false, Option, none, some,
  List, [], ◌∷◌, length, arith,
}
use mathlib.Core.Path.{subst}
use outscan.Js.{Text, string, max_safe_integer}
use outscan.ScanProtocol.ResultCommit.{ResultSubmissionIdentity}
use outscan.ScanProtocol.ResultCommit.Fencing.{writes_iff}
use outscan.GuestPersistence.ScanRow.{AcceptedColumns, StoredResult, ScanRow, safe_positive_integer}
use outscan.GuestPersistence.ResultCommit.{
  CommitResult, stored_new, committed_before, failure, result_submission_rejected, commit_denied,
  guest_persistence_unavailable, BodyResult, ended, throws, Fault, no_connection, statement_fails,
  reply_lost, no_fault, Turn, TurnOutcome, answers, tries_again, max_transaction_attempts,
  tried_again, of_body, take_turn, settled, persist_result,
}
use outscan.GuestPersistence.ResultCommit.Statements.{AreStored, IsRow, identity_of, snapshot_of}
use outscan.GuestPersistence.ResultCommit.Decided.{Refines, commit_body-Refines}

-- A submission with its host, and what its tries meet.
pub record CommitCall : Type 0 where
  pub submission : ResultSubmissionIdentity
  pub host : Text
  pub turns : ℕ → Turn

-- How many of the answers say that a new result was stored.
abbrev pub news : CommitResult → ℕ
news stored_new = 1
news _ = 0

-- The calls one after the other: the row that they leave, and the number of those answers.
unfoldable pub commit_all : (ℕ → Text) → List CommitCall → Option ScanRow → Option ScanRow × ℕ
commit_all print [] db = (db, 0)
commit_all print (c ∷ cs) db =
    let (next, result) =
      persist_result print max_transaction_attempts 0 c.turns db c.submission c.host in
    let (last, count) = commit_all print cs next in (last, news result + count)

-- No time of a try is out of range.
abbrev pub AreTimely : (ℕ → Turn) → Type 0
AreTimely turns = (i : ℕ) → (1 ≤ (turns i).now) × ((turns i).now ≤ max_safe_integer)

abbrev pub AreAllTimely : List CommitCall → Type 0
AreAllTimely [] = Unit {0}
AreAllTimely (c ∷ cs) = AreTimely c.turns × AreAllTimely cs

-- The row has gained at least `n` results, and one with a result has not changed.
abbrev pub Progressed : ScanRow → Option ScanRow → ℕ → Type 0
Progressed row none n = ⊥
Progressed row (some after) n =
    IsRow after
    × (n + length row.results ≤ length after.results)
    × ((row.results ≡ []) ⊎ (after ≡ row))

nothing_lem :
    (accepted : Option AcceptedColumns) (results : List StoredResult)
    → AreStored accepted results
    → identity_of accepted ≡ none
    → results ≡ []
nothing_lem none results h e = h
nothing_lem (some a) results h e = cc

one_at_most :
    (accepted : Option AcceptedColumns) (results : List StoredResult)
    → AreStored accepted results
    → length results ≤ 1
one_at_most none results h = rw h (omega arith)
one_at_most (some a) results (r, one, _) = rw one (omega arith)

unchanged :
    (row : ScanRow) (after : ScanRow) → IsRow row → after ≡ row → Progressed row (some after) 0
unchanged row after is_row same =
    subst (λ x. Progressed row (some x) 0) (sym same) (is_row, omega arith, inr refl)

-- What is known of a body that has ended.
ended-Progressed :
    (row after : ScanRow) (submission : ResultSubmissionIdentity) (now : ℕ) (host : Text)
    (released : Bool) (result : CommitResult)
    → IsRow row
    → Refines row submission now host released (ended after result)
    → Progressed row (some after) (news result)
ended-Progressed row after submission now host released stored_new is_row (wrote, _, _, one, kept) =
    let may = (writes_iff (snapshot_of row) submission now).0 wrote in
    let empty = nothing_lem row.accepted row.results is_row.4 may.nothing_accepted in
    (kept, rw (empty, one) (omega arith), inl empty)
ended-Progressed row after submission now host released committed_before is_row (_, same) =
    unchanged row after is_row same
ended-Progressed row after submission now host released (failure (commit_denied code) audit) is_row
      (_, same) =
    unchanged row after is_row same
ended-Progressed row after submission now host released (failure result_submission_rejected audit)
      is_row (_, _, same) =
    unchanged row after is_row same
ended-Progressed row after submission now host released
      (failure guest_persistence_unavailable audit) is_row h =
    elim h [ ]

fewer : (row : ScanRow) (db : Option ScanRow) (n : ℕ) → Progressed row db n → Progressed row db 0
fewer row none n h = elim h [ ]
fewer row (some after) n (kept, gained, stays) = (kept, omega (arith, gained), stays)

-- A try either answers with a row that has progressed, or is made again on the same row.
abbrev TurnKeeps : ScanRow → TurnOutcome → Type 0
TurnKeeps row (answers db result) = Progressed row db (news result)
TurnKeeps row tries_again = Unit {0}

tried_again_keeps :
    (row : ScanRow) (retryable : Bool)
    → IsRow row
    → TurnKeeps row (tried_again retryable (some row))
tried_again_keeps row true is_row = tt
tried_again_keeps row false is_row = unchanged row row is_row refl

of_body_keeps :
    (row : ScanRow) (submission : ResultSubmissionIdentity) (now : ℕ) (host : Text)
    (released lost : Bool) (b : BodyResult)
    → IsRow row
    → Refines row submission now host released b
    → TurnKeeps row (of_body lost (some row) b)
of_body_keeps row submission now host released lost (throws retryable) is_row h =
    tried_again_keeps row retryable is_row
of_body_keeps row submission now host released true (ended after result) is_row h =
    fewer row (some after) (news result)
      (ended-Progressed row after submission now host released result is_row h)
of_body_keeps row submission now host released false (ended after result) is_row h =
    ended-Progressed row after submission now host released result is_row h

TurnOutcome-cases :
    (o : TurnOutcome)
    → ((db : Option ScanRow) × (result : CommitResult) × (o ≡ answers db result))
      ⊎ (o ≡ tries_again)
TurnOutcome-cases (answers db result) = inl (db, result, refl)
TurnOutcome-cases tries_again = inr refl

after_turn :
    (row : ScanRow) (o : TurnOutcome) (rest : Option ScanRow × CommitResult)
    → TurnKeeps row o
    → Progressed row rest.0 (news rest.1)
    → Progressed row (settled o rest).0 (news (settled o rest).1)
after_turn row (answers after result) rest h later = h
after_turn row tries_again rest h later = later

-- Progress from row to row.
progress_on :
    (row now_row : ScanRow) (next : Option ScanRow) (n m : ℕ)
    → n + length row.results ≤ length now_row.results
    → ((row.results ≡ []) ⊎ (now_row ≡ row))
    → Progressed now_row next m
    → Progressed row next (n + m)
progress_on row now_row none n m gained stays h = elim h [ ]
progress_on row now_row (some after) n m gained (inl empty) (kept, more, _) =
    (kept, omega arith, inl empty)
progress_on row now_row (some after) n m gained (inr same) (kept, more, inl empty) =
    (kept, omega arith, inl (subst (λ x. x.results ≡ []) same empty))
progress_on row now_row (some after) n m gained (inr same) (kept, more, inr still) =
    (kept, omega arith, inr (still ∙ same))

last_of :
    (row : ScanRow) (db : Option ScanRow) (n : ℕ)
    → Progressed row db n
    → (last : ScanRow) × (db ≡ some last)
      × (n + length row.results ≤ length last.results)
      × (length last.results ≤ 1)
      × ((row.results ≡ []) ⊎ (last ≡ row))
last_of row none n h = elim h [ ]
last_of row (some last) n (kept, gained, stays) =
    (last, refl, gained, one_at_most last.accepted last.results kept.4, stays)

module _ (print : ℕ → Text)
    (print_read : (n : ℕ)
      → 1 ≤ n
      → n ≤ max_safe_integer
      → safe_positive_integer (string (print n)) ≡ some n) where
  take_turn_keeps :
      (fault : Fault) (turn : Turn) (row : ScanRow) (submission : ResultSubmissionIdentity)
      (host : Text)
      → IsRow row
      → (1 ≤ turn.now) × (turn.now ≤ max_safe_integer)
      → TurnKeeps row (take_turn print fault turn (some row) submission host)
  take_turn_keeps no_connection turn row submission host is_row timely =
      unchanged row row is_row refl
  take_turn_keeps (statement_fails retryable) turn row submission host is_row timely =
      tried_again_keeps row retryable is_row
  take_turn_keeps reply_lost turn row submission host is_row timely =
      of_body_keeps row submission turn.now host turn.released true _ is_row (
        commit_body-Refines print print_read row turn.now turn.released submission host is_row
          timely.0 timely.1)
  take_turn_keeps no_fault turn row submission host is_row timely =
      of_body_keeps row submission turn.now host turn.released false _ is_row (
        commit_body-Refines print print_read row turn.now turn.released submission host is_row
          timely.0 timely.1)

  persist-Progressed :
      (remaining made : ℕ) (turns : ℕ → Turn) (row : ScanRow)
      (submission : ResultSubmissionIdentity) (host : Text)
      → IsRow row
      → AreTimely turns
      → Progressed row
          (persist_result print remaining made turns (some row) submission host).0
          (news (persist_result print remaining made turns (some row) submission host).1)
  unfolding persist_result
  persist-Progressed zero made turns row submission host is_row timely =
      unchanged row row is_row refl
  persist-Progressed (suc remaining) made turns row submission host is_row timely =
      after_turn row (take_turn print (turns made).fault (turns made) (some row) submission host)
        (persist_result print remaining (suc made) turns (some row) submission host)
        (take_turn_keeps (turns made).fault (turns made) row submission host is_row (timely made))
        (persist-Progressed remaining (suc made) turns row submission host is_row timely)

  commit_all-Progressed :
      (calls : List CommitCall) (db : Option ScanRow) (row : ScanRow) (n : ℕ)
      → AreAllTimely calls
      → Progressed row db n
      → Progressed row (commit_all print calls db).0 (n + (commit_all print calls db).1)
  unfolding commit_all
  commit_all-Progressed [] db row n timely h = subst (Progressed row db) (omega arith) h
  commit_all-Progressed (c ∷ cs) none row n timely h = elim h [ ]
  commit_all-Progressed (c ∷ cs) (some now_row) row n (first, later) (is_row, gained, stays) =
      let (next, result) =
        persist_result print max_transaction_attempts 0 c.turns (some now_row) c.submission
          c.host in
      let step : Progressed now_row next (news result) =
        persist-Progressed max_transaction_attempts 0 c.turns now_row c.submission c.host is_row
          first in
      let whole =
        commit_all-Progressed cs next row (n + news result) later
          (progress_on row now_row next n (news result) gained stays step) in
      subst (Progressed row (commit_all print cs next).0) (omega arith) whole

  -- Whatever is submitted for a scan, in any order and with any failures of the database, at most one
  -- result is ever stored: the answers that say so, with the results there were, are no more than the
  -- results there are, and these are at most one; and a scan that has a result stays exactly as it
  -- is.
  pub commit_all-once :
      (calls : List CommitCall) (row : ScanRow)
      → IsRow row
      → AreAllTimely calls
      → (last : ScanRow) × ((commit_all print calls (some row)).0 ≡ some last)
        × ((commit_all print calls (some row)).1 + length row.results ≤ length last.results)
        × (length last.results ≤ 1)
        × ((row.results ≡ []) ⊎ (last ≡ row))
  commit_all-once calls row is_row timely =
      last_of row (commit_all print calls (some row)).0 (commit_all print calls (some row)).1 (
        subst (Progressed row (commit_all print calls (some row)).0) (omega arith)
          (commit_all-Progressed calls (some row) row 0 timely (unchanged row row is_row refl)))
