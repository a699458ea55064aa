-- ===== src/GuestPersistence/ResultCommit/Statements.antt =====
-- The row of a scan as the decision sees it, and that the statements of a commit find it.
use outscan.Prelude.{
  ℕ, ◌≤◌, ◌<◌, ◌≡◌, refl, Bool, true, Option, none, some, List, [], ◌∷◌, ◌++◌, length, arith, drop,
}
use outscan.Js.{Text, codes, text_eq_refl, max_safe_integer}
use outscan.Js.Patterns.{is_digest}
use outscan.GuestCrypto.Binary.{encode_hex}
use outscan.GuestCrypto.Binary.Decoding.{AreBytes}
use outscan.ResultEnvelope.Message.Fields.{digest_bytes_lem, decode_hex-AreBytes}
use outscan.ScanProtocol.Fsm.{JobState, AttemptState}
use outscan.ScanProtocol.ResultCommit.{
  ResultSubmissionIdentity, ResultCommitSnapshot, primary_commit, write_payload_effects,
  has_valid_identity, decide_result_commit, decide_by_state, decide_succeeded, decide_running,
}
use outscan.ScanProtocol.ResultCommit.Fencing.{MayCommit, apply_decision}
use outscan.GuestPersistence.ScanRow.{AcceptedColumns, StoredResult, ScanRow}
use outscan.GuestPersistence.ResultCommit.{
  is_leased, succeed_attempt, succeed_scan, columns_of, released_or_throw, attempt_succeeded,
}

abbrev pub IsSafe : ℕ → Type 0
IsSafe n = (1 ≤ n) × (n ≤ max_safe_integer)

abbrev pub AreColumns : Option AcceptedColumns → Type 0
AreColumns none = Unit {0}
AreColumns (some a) = IsSafe a.fence × AreBytes a.payload_digest × (length a.payload_digest ≡ 32)

-- A result is stored exactly when one is accepted, and it is the accepted one.
abbrev pub AreStored : Option AcceptedColumns → List StoredResult → Type 0
AreStored none results = results ≡ []
AreStored (some a) results = (r : StoredResult) × (results ≡ r ∷ []) × (r.accepted ≡ a)

abbrev pub IsLease : Option ℕ → Type 0
IsLease none = Unit {0}
IsLease (some n) = IsSafe n

-- What the constraints of the tables say of a row.
abbrev pub IsRow : ScanRow → Type 0
IsRow row =
    IsSafe row.current_fence
    × IsLease row.lease_expires_at
    × IsSafe row.hard_deadline
    × AreColumns row.accepted
    × AreStored row.accepted row.results

-- The row as the decision sees it.
abbrev pub identity_of : Option AcceptedColumns → Option ResultSubmissionIdentity
identity_of none = none
identity_of (some a) = some (record {
  attempt_id = a.attempt_id;
  fence = a.fence;
  payload_digest = codes "sha256:" ++ encode_hex a.payload_digest;
})

-- No lease is seen as one that ended at 0, which the decision refuses.
abbrev pub lease_or_zero : Option ℕ → ℕ
lease_or_zero none = 0
lease_or_zero (some n) = n

abbrev pub snapshot_of : ScanRow → ResultCommitSnapshot
snapshot_of row = record {
  job_state = row.job_state;
  current_attempt_id = row.current_attempt_id;
  current_fence = row.current_fence;
  attempt_state = row.attempt_state;
  lease_expires_at_unix_seconds = lease_or_zero row.lease_expires_at;
  hard_deadline_unix_seconds = row.hard_deadline;
  accepted_result = identity_of row.accepted;
}

abbrev pub committed_row : ScanRow → ResultSubmissionIdentity → ℕ → Text → ScanRow
committed_row row submission now host = record row {
  attempt_state = AttemptState.succeeded;
  job_state = JobState.succeeded;
  accepted = some (columns_of submission);
  results =
      (record { accepted = columns_of submission; completed_at = now; canonical_host = host }) ∷ [];
}

pub nothing_stored :
    (accepted : Option AcceptedColumns) (results : List StoredResult)
    → AreStored accepted results
    → identity_of accepted ≡ none
    → (accepted ≡ none) × (results ≡ [])
nothing_stored none results h e = (refl, h)
nothing_stored (some a) results h e = cc

is_leased_lem : (now : ℕ) (o : Option ℕ) → now < lease_or_zero o → is_leased now o ≡ true
is_leased_lem now none h = absurd (omega arith)
is_leased_lem now (some n) h = ground arith

-- After a decision to write, each statement matches its row.
pub statements_match :
    (row : ScanRow) (submission : ResultSubmissionIdentity) (now : ℕ) (host : Text)
    (released : Bool)
    → AreStored row.accepted row.results
    → MayCommit (snapshot_of row) submission now
    → attempt_succeeded (succeed_attempt submission now row) submission now host released
      ≡ released_or_throw released (committed_row row submission now host)
unfolding succeed_attempt succeed_scan
statements_match row submission now host released stored may =
    let (nothing, empty) = nothing_stored row.accepted row.results stored may.nothing_accepted in
    ground (
      arith,
      nothing,
      empty,
      may.job_running,
      may.attempt_running,
      is_leased_lem now row.lease_expires_at may.lease_live,
      may.before_deadline,
      may.same_attempt,
      may.same_fence,
      text_eq_refl row.current_attempt_id,
    )

-- The row after a commit is one again, and the decision sees it as it left it.
pub committed_row_lem :
    (row : ScanRow) (submission : ResultSubmissionIdentity) (now : ℕ) (host : Text)
    → IsRow row
    → MayCommit (snapshot_of row) submission now
    → IsRow (committed_row row submission now host)
      × (snapshot_of (committed_row row submission now host)
          ≡ apply_decision
              (snapshot_of row)
              submission
              (primary_commit JobState.succeeded AttemptState.succeeded))
unfolding has_valid_identity
committed_row_lem row submission now host (fence, lease, deadline, _, _) may =
    let is_digest_text : is_digest (codes "sha256:") submission.payload_digest ≡ true =
      ground (arith, may.identity_valid) in
    let (digits, count) = digest_bytes_lem submission.payload_digest is_digest_text in
    let low : 1 ≤ submission.fence = ground (arith, may.identity_valid) in
    let high : submission.fence ≤ max_safe_integer = ground (arith, may.identity_valid) in
    (
      (
        fence,
        lease,
        deadline,
        ((low, high), decode_hex-AreBytes (drop 7 submission.payload_digest), count),
        (_, refl, refl),
      ),
      rw digits refl,
    )

-- A decision to write names these two states.
pub writes_succeeded :
    (snapshot : ResultCommitSnapshot) (submission : ResultSubmissionIdentity) (now : ℕ)
    → write_payload_effects (decide_result_commit snapshot submission now) ≡ true
    → decide_result_commit snapshot submission now
      ≡ primary_commit JobState.succeeded AttemptState.succeeded
unfolding decide_result_commit decide_by_state decide_succeeded decide_running
writes_succeeded snapshot submission now h = ground (arith, h)
