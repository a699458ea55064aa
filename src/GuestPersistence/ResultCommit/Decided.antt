-- ===== src/GuestPersistence/ResultCommit/Decided.antt =====
-- That the transaction does what `decideResultCommit` decides.
use outscan.Prelude.{
  ℕ, ◌≤◌, ◌≡◌, ◌≢◌, refl, sym, ap, ◌∙◌, inl, inr, ◌⊎◌, Bool, true, false, Option, none, some, [],
  ◌∷◌, length, ◌==◌, arith, Bool-cases, Option-cases, ==_iff,
}
use mathlib.Core.Path.{subst}
use outscan.Js.{Text, null, string, text_eq, text_eq_iff, max_safe_integer}
use outscan.GuestCrypto.Binary.{encode_hex}
use outscan.GuestCrypto.Binary.Decoding.{encode_hex_lem}
use outscan.ScanProtocol.ResultCommit.{
  ResultSubmissionIdentity, ResultCommitDecision, primary_commit, already_committed, denied,
  write_payload_effects, ResultCommitDenyCode, decide_result_commit,
}
use outscan.ScanProtocol.ResultCommit.Fencing.{MayCommit, writes_iff, apply_decision}
use outscan.GuestPersistence.ScanRow.{
  AcceptedColumns, ScanRow, safe_positive_integer, nullable_digest, accepted_of, LockedResultState,
  map_locked_state, accepted_attempt_value, accepted_fence_value, accepted_digest_value,
  lease_value, lock_row,
}
use outscan.GuestPersistence.ResultCommit.{
  columns_of, stored_new, committed_before, failure, result_submission_rejected, commit_denied,
  guest_persistence_unavailable, BodyResult, ended, throws, released_or_throw, act_on, commit_body,
}
use outscan.GuestPersistence.ResultCommit.Statements.{
  AreColumns, IsSafe, IsRow, identity_of, snapshot_of, committed_row, statements_match,
  committed_row_lem, writes_succeeded,
}

-- A row whose lease is null is refused before anything is decided.
abbrev pub HasNoLease : ScanRow → ResultCommitDenyCode → Bool → Type 0
HasNoLease row code audit =
    (row.lease_expires_at ≡ none) × (code ≡ ResultCommitDenyCode.invalid_state) × (audit ≡ true)

-- How the end of a transaction goes with the decision on the row it began with.
abbrev pub Refines : ScanRow → ResultSubmissionIdentity → ℕ → Text → Bool → BodyResult → Type 0
Refines row submission now host released (ended after stored_new) =
    let decision = decide_result_commit (snapshot_of row) submission now in
    (write_payload_effects decision ≡ true)
    × (host ≡ row.canonical_target)
    × (snapshot_of after ≡ apply_decision (snapshot_of row) submission decision)
    × (after.results
        ≡ (record { accepted = columns_of submission; completed_at = now; canonical_host = host })
          ∷ [])
    × IsRow after
Refines row submission now host released (ended after committed_before) =
    (decide_result_commit (snapshot_of row) submission now ≡ already_committed) × (after ≡ row)
Refines row submission now host released (ended after (failure (commit_denied code) audit)) =
    ((decide_result_commit (snapshot_of row) submission now ≡ denied code audit)
      ⊎ HasNoLease row code audit)
    × (after ≡ row)
Refines row submission now host released (ended after (failure result_submission_rejected audit)) =
    (write_payload_effects (decide_result_commit (snapshot_of row) submission now) ≡ true)
    × (host ≢ row.canonical_target)
    × (after ≡ row)
Refines row submission now host released
      (ended after (failure guest_persistence_unavailable audit)) =
    ⊥
Refines row submission now host released (throws retryable) =
    (write_payload_effects (decide_result_commit (snapshot_of row) submission now) ≡ true)
    × (released ≡ false)
    × (retryable ≡ false)

released_or_throw-Refines :
    (row : ScanRow) (submission : ResultSubmissionIdentity) (now : ℕ) (host : Text)
    (released : Bool)
    → IsRow row
    → write_payload_effects (decide_result_commit (snapshot_of row) submission now) ≡ true
    → MayCommit (snapshot_of row) submission now
    → host ≡ row.canonical_target
    → Refines row submission now host released
        (released_or_throw released (committed_row row submission now host))
released_or_throw-Refines row submission now host true is_row wrote may same =
    let (kept, seen) = committed_row_lem row submission now host is_row may in
    let decided = writes_succeeded (snapshot_of row) submission now wrote in
    (wrote, same, seen ∙ sym (ap (apply_decision (snapshot_of row) submission) decided), refl, kept)
released_or_throw-Refines row submission now host false is_row wrote may same = (wrote, refl, refl)

safe_positive_integer-null : safe_positive_integer null ≡ none
unfolding safe_positive_integer
safe_positive_integer-null = refl

module _ (print : ℕ → Text)
    (print_read : (n : ℕ)
      → 1 ≤ n
      → n ≤ max_safe_integer
      → safe_positive_integer (string (print n)) ≡ some n) where
  accepted_lem :
      (a : Option AcceptedColumns)
      → AreColumns a
      → accepted_of
          (accepted_attempt_value print a)
          (accepted_fence_value print a)
          (nullable_digest (accepted_digest_value print a))
        ≡ some (identity_of a)
  unfolding accepted_of nullable_digest
  accepted_lem none h = refl
  accepted_lem (some a) ((low, high), bytes, size) =
      let (hex, count) = encode_hex_lem a.payload_digest bytes in
      let long : (length (encode_hex a.payload_digest) == 64) ≡ true =
        (==_iff (length (encode_hex a.payload_digest)) 64).1 (omega (arith, count, size)) in
      ground (arith, hex, long, print_read a.fence low high)

  map_locked_state-lock_row :
      (row : ScanRow) (now lease : ℕ)
      → IsRow row
      → row.lease_expires_at ≡ some lease
      → 1 ≤ now
      → now ≤ max_safe_integer
      → map_locked_state (lock_row print row now)
        ≡ some (record {
          snapshot = snapshot_of row;
          canonical_target = row.canonical_target;
          now = now;
        })
  unfolding map_locked_state
  map_locked_state-lock_row row now lease (fence, leased, deadline, columns, _) is early late =
      let (low, high) : IsSafe lease = rw is at leased in
      rw
        (
          is,
          print_read row.current_fence fence.0 fence.1,
          print_read lease low high,
          print_read row.hard_deadline deadline.0 deadline.1,
          print_read now early late,
          accepted_lem row.accepted columns,
        )
        refl

  -- A row without a lease is refused when it is read.
  map_locked_state-unleased :
      (row : ScanRow) (now : ℕ)
      → row.lease_expires_at ≡ none
      → map_locked_state (lock_row print row now) ≡ none
  unfolding map_locked_state
  map_locked_state-unleased row now is =
      let no_lease : safe_positive_integer (lease_value print row.lease_expires_at) ≡ none =
        ap (λ o. safe_positive_integer (lease_value print o)) is ∙ safe_positive_integer-null in
      elim (Option-cases (safe_positive_integer (string (print row.current_fence)))) [
        | inl unread ↦ ground (arith, unread)
        | inr (fence, read) ↦ ground (arith, no_lease, read)
      ]

  -- The end of the body, for each decision.
  act_on-Refines :
      (row : ScanRow) (now : ℕ) (released : Bool) (submission : ResultSubmissionIdentity)
      (host : Text) (decision : ResultCommitDecision)
      → IsRow row
      → decide_result_commit (snapshot_of row) submission now ≡ decision
      → Refines row submission now host released (
          act_on decision row
            (record {
              snapshot = snapshot_of row;
              canonical_target = row.canonical_target;
              now = now;
            })
            submission
            host
            released)
  act_on-Refines row now released submission host (denied code audit) is_row decided =
      (inl decided, refl)
  act_on-Refines row now released submission host already_committed is_row decided = (decided, refl)
  act_on-Refines row now released submission host (primary_commit job attempt) is_row decided =
      let wrote : write_payload_effects (decide_result_commit (snapshot_of row) submission now)
          ≡ true =
        ap write_payload_effects decided in
      let may = (writes_iff (snapshot_of row) submission now).0 wrote in
      let on_row = Refines row submission now host released in
      let outcome =
        act_on (primary_commit job attempt) row
          (record {
            snapshot = snapshot_of row;
            canonical_target = row.canonical_target;
            now = now;
          })
          submission host released in
      elim (Bool-cases (text_eq host row.canonical_target)) [
        | inl same ↦
            let host_is = (text_eq_iff host row.canonical_target).0 same in
            let carried_out : outcome
                ≡ released_or_throw released (committed_row row submission now host) =
              ground
                (arith, same, statements_match row submission now host released is_row.4 may) in
            subst on_row (sym carried_out)
              (released_or_throw-Refines row submission now host released is_row wrote may host_is)
        | inr other ↦
            let refused : ended row (failure result_submission_rejected true) ≡ outcome =
              ground (arith, other) in
            subst on_row refused (
              wrote,
              (λ e. ground (arith, other, (text_eq_iff host row.canonical_target).1 e)),
              refl,
            )
      ]

  -- What the body does with what is read.
  abbrev body_of :
      ScanRow → ℕ → Bool → ResultSubmissionIdentity → Text → Option LockedResultState → BodyResult
  body_of row now released submission host none =
      ended row (failure (commit_denied ResultCommitDenyCode.invalid_state) true)
  body_of row now released submission host (some state) =
      act_on (decide_result_commit state.snapshot submission state.now) row state submission host
        released

  body_lem :
      (row : ScanRow) (now : ℕ) (released : Bool) (submission : ResultSubmissionIdentity)
      (host : Text) (o : Option LockedResultState)
      → map_locked_state (lock_row print row now) ≡ o
      → commit_body print row now released submission host
        ≡ body_of row now released submission host o
  unfolding commit_body
  body_lem row now released submission host none e = ground (arith, e)
  body_lem row now released submission host (some state) e = ground (arith, e)

  -- Whatever the row of the scan holds, the transaction refuses it as invalid if it has no lease, and
  -- does what the decision says otherwise: a denial and a
  -- repetition leave the row; a decision to write is carried out on a matching host, each statement
  -- finding its row, and leaves the row as the protocol says, with this one result; it is undone
  -- only when the reservation of the scan cannot be released.
  pub commit_body-Refines :
      (row : ScanRow) (now : ℕ) (released : Bool) (submission : ResultSubmissionIdentity)
      (host : Text)
      → IsRow row
      → 1 ≤ now
      → now ≤ max_safe_integer
      → Refines row submission now host released
          (commit_body print row now released submission host)
  commit_body-Refines row now released submission host is_row early late =
      elim (Option-cases row.lease_expires_at) [
        | inl unleased ↦
            subst (Refines row submission now host released)
              (sym (
                body_lem row now released submission host none
                  (map_locked_state-unleased row now unleased)))
              (inr (unleased, refl, refl), refl)
        | inr (lease, leased) ↦
            subst (Refines row submission now host released)
              (sym (
                body_lem row now released submission host _
                  (map_locked_state-lock_row row now lease is_row leased early late)))
              (act_on-Refines row now released submission host
                (decide_result_commit (snapshot_of row) submission now) is_row refl)
      ]
