-- ===== src/GuestPersistence/Committer.antt =====
-- The committer of results: `createPostgresGuestResultCommitter` of
-- apps/api/src/guest-persistence/postgres-result-commit.ts. `canonicalise` is
-- `produceCanonicalGuestScannerResult` of apps/api/src/scanner-output, `none` where it refuses.
use outscan.Prelude.{
  ℕ, ◌≡◌, refl, sym, ap, ◌∙◌, inl, inr, ◌⊎◌, true, not, ◌&&◌, ◌||◌, Option, none, some, List,
  length, ◌==◌, if◌then◌else◌, arith, Option-cases, Bool-cases,
}
use outscan.Js.{Text, Value, number, string, text_eq, text_eq_sound}
use outscan.ScanProtocol.ResultCommit.{ResultSubmissionIdentity}
use outscan.ResultEnvelope.{AuthenticatedResultSubmission}
use outscan.ResultEnvelope.Verify.{
  Keyring, VerificationContext, TrustedContext, VerificationResult, VerifiedResultEnvelope,
  verified, fail, verified_of, snapshot_context, snapshot_submission,
  verify_authenticated_result_envelope,
}
use outscan.ResultEnvelope.Accepted.{IsAccepted, verify-IsAccepted}
use outscan.GuestPersistence.ScanRow.{ScanRow}
use outscan.GuestPersistence.ResultCommit.{
  CommitResult, failure, result_submission_rejected, Turn, max_transaction_attempts, persist_result,
}

pub record GuestResultCommitDependencies : Type 0 where
  pub expected_workload_identity : Text
  pub expected_audience : Text
  pub max_payload_bytes : ℕ
  pub result_keyring : Keyring

-- The parts of `canonical.result` that the committer reads.
pub record CanonicalResult : Type 0 where
  pub payload_digest : Text
  pub payload_size : ℕ
  pub canonical_host : Text

abbrev pub context_at : GuestResultCommitDependencies → Value → VerificationContext
context_at dependencies now = record {
  now_unix_seconds = now;
  expected_workload_identity = string dependencies.expected_workload_identity;
  expected_audience = string dependencies.expected_audience;
  max_payload_bytes = number dependencies.max_payload_bytes;
  keyring = some dependencies.result_keyring;
}

abbrev pub identity_in : VerifiedResultEnvelope → ResultSubmissionIdentity
identity_in v = record {
  attempt_id = v.submission_identity.attempt_id;
  fence = v.submission_identity.fence;
  payload_digest = v.submission_identity.payload_digest;
}

abbrev pub rejection : CommitResult
rejection = failure result_submission_rejected true

-- No row has changed, and the submission is refused.
abbrev pub IsUntouched : (Text → Option ScanRow) → Option ScanRow → CommitResult → Type 0
IsUntouched db row answer =
    (answer ≡ rejection) × ((row ≡ none) ⊎ ((scan : Text) × (row ≡ db scan)))

module _ (sha256 : List ℕ → List ℕ) (hmac : List ℕ → List ℕ → List ℕ)
    (canonicalise : List ℕ → ℕ → Option CanonicalResult) (print : ℕ → Text) where
  -- `db` holds the row of each scan.
  abbrev pub commit_canonical :
      (ℕ → Turn)
      → (Text → Option ScanRow)
      → VerifiedResultEnvelope
      → Option CanonicalResult
      → Option ScanRow × CommitResult
  commit_canonical turns db v none = (db v.header.job_id, rejection)
  commit_canonical turns db v (some canonical) =
      if not (text_eq canonical.payload_digest v.header.payload_digest)
        || not (canonical.payload_size == v.header.payload_size)
      then (db v.header.job_id, rejection)
      else persist_result print max_transaction_attempts 0 turns (db v.header.job_id)
          (identity_in v) canonical.canonical_host

  abbrev pub commit_verified :
      GuestResultCommitDependencies
      → (ℕ → Turn)
      → (Text → Option ScanRow)
      → VerificationResult
      → Option ScanRow × CommitResult
  commit_verified dependencies turns db (fail code) = (none, rejection)
  commit_verified dependencies turns db (verified v) =
      commit_canonical turns db v (canonicalise v.payload dependencies.max_payload_bytes)

  -- `commit`: the row of the scan it is about, `none` where no scan is known, and the answer. The
  -- outer `none` is an exception, and the clock's is one that it throws.
  unfoldable pub commit :
      GuestResultCommitDependencies
      → Option Value
      → (ℕ → Turn)
      → (Text → Option ScanRow)
      → Value
      → Option (Option ScanRow × CommitResult)
  commit dependencies none turns db value = some (none, rejection)
  commit dependencies (some now) turns db value =
      elim (verify_authenticated_result_envelope sha256 hmac value (context_at dependencies now)) [
        | none ↦ none
        | some result ↦ some (commit_verified dependencies turns db result)
      ]

  -- A transaction for what was submitted: it is authentic, intact and current at the time of the clock;
  -- its payload is its own canonical form; and the row and the answer are those that the transaction
  -- gives for the identity of its header.
  abbrev pub IsAuthentic :
      GuestResultCommitDependencies
      → Value
      → (ℕ → Turn)
      → (Text → Option ScanRow)
      → Value
      → Option ScanRow
      → CommitResult
      → Type 0
  IsAuthentic dependencies now turns db value row answer =
      (trusted : TrustedContext) × (s : AuthenticatedResultSubmission) × (snapshot_context
          (context_at dependencies now)
        ≡ some trusted)
      × (snapshot_submission value ≡ some s)
      × IsAccepted sha256 hmac trusted s
      × ((c : CanonicalResult) × (canonicalise s.envelope.payload dependencies.max_payload_bytes
            ≡ some c)
          × (c.payload_digest ≡ s.envelope.header.payload_digest)
          × (c.payload_size ≡ s.envelope.header.payload_size)
          × (persist_result print max_transaction_attempts 0 turns (db s.envelope.header.job_id)
                (identity_in (verified_of s.envelope)) c.canonical_host
              ≡ (row, answer)))

  verified_lem :
      (dependencies : GuestResultCommitDependencies) (turns : ℕ → Turn) (db : Text → Option ScanRow)
      (r : VerificationResult) (row : Option ScanRow) (answer : CommitResult)
      → commit_verified dependencies turns db r ≡ (row, answer)
      → IsUntouched db row answer ⊎ ((v : VerifiedResultEnvelope) × (r ≡ verified v))
  verified_lem dependencies turns db (fail code) row answer h =
      inl (sym (ap (λ p. p.1) h), inl (sym (ap (λ p. p.0) h)))
  verified_lem dependencies turns db (verified v) row answer h = inr (v, refl)

  canonical_lem :
      (turns : ℕ → Turn) (db : Text → Option ScanRow) (v : VerifiedResultEnvelope)
      (o : Option CanonicalResult) (row : Option ScanRow) (answer : CommitResult)
      → commit_canonical turns db v o ≡ (row, answer)
      → IsUntouched db row answer
        ⊎ ((c : CanonicalResult) × (o ≡ some c)
            × (c.payload_digest ≡ v.header.payload_digest)
            × (c.payload_size ≡ v.header.payload_size)
            × (commit_canonical turns db v o
                ≡ persist_result print max_transaction_attempts 0 turns
                    (db v.header.job_id)
                    (identity_in v)
                    c.canonical_host))
  canonical_lem turns db v none row answer h =
      inl (sym (ap (λ p. p.1) h), inr (v.header.job_id, sym (ap (λ p. p.0) h)))
  canonical_lem turns db v (some c) row answer h =
      elim (Bool-cases (
        text_eq c.payload_digest v.header.payload_digest
        && c.payload_size == v.header.payload_size)) [
          | inl same ↦ inr (
            c,
            refl,
            ground (arith, same, text_eq_sound c.payload_digest v.header.payload_digest),
            ground (arith, same),
            ground (arith, same),
          )
          | inr other ↦
              let refused : commit_canonical turns db v (some c) ≡ (db v.header.job_id, rejection) =
                ground (arith, other) in
              let whole : (db v.header.job_id, rejection) ≡ (row, answer) = sym refused ∙ h in
              inl (sym (ap (λ p. p.1) whole), inr (v.header.job_id, sym (ap (λ p. p.0) whole)))
        ]

  accepted_lem :
      ((key message : List ℕ) → length (hmac key message) ≡ 32)
      → (dependencies : GuestResultCommitDependencies) (now : Value) (turns : ℕ → Turn)
        (db : Text → Option ScanRow) (value : Value) (row : Option ScanRow) (answer : CommitResult)
        (v : VerifiedResultEnvelope)
      → verify_authenticated_result_envelope sha256 hmac value (context_at dependencies now)
        ≡ some (verified v)
      → commit_verified dependencies turns db (verified v) ≡ (row, answer)
      → IsUntouched db row answer
        ⊎ ((at : Value) × (some now ≡ some at)
            × IsAuthentic dependencies at turns db value row answer)
  accepted_lem hmac_size dependencies now turns db value row answer v v_is ended =
      let (trusted, s, trusted_is, s_is, accepted, envelope_is) =
        (verify-IsAccepted sha256 hmac hmac_size value (context_at dependencies now) v).0 v_is in
      let whole : commit_verified dependencies turns db (verified (verified_of s.envelope))
          ≡ (row, answer) =
        ap (λ x. commit_verified dependencies turns db (verified x)) envelope_is ∙ ended in
      elim (canonical_lem turns db (verified_of s.envelope)
        (canonicalise s.envelope.payload dependencies.max_payload_bytes) row answer whole) [
          | inl untouched ↦ inl untouched
          | inr (c, c_is, digest, size, persisted) ↦ inr (
            now,
            refl,
            (
              trusted,
              s,
              trusted_is,
              s_is,
              accepted,
              (c, c_is, digest, size, sym persisted ∙ whole),
            ),
          )
        ]

  -- However the committer answers, either it has touched no row and refuses the submission, or what was
  -- submitted is accepted: it is authentic, intact and current in the context of the committer; its
  -- payload is its own canonical form, of the same digest and size; and the row and the answer are
  -- those of the transaction for the identity of its header. So nothing else is ever stored, also
  -- where the answer is lost. Of HMAC it is used that its result has 32 bytes.
  pub commit-IsAccepted :
      ((key message : List ℕ) → length (hmac key message) ≡ 32)
      → (dependencies : GuestResultCommitDependencies) (clock : Option Value) (turns : ℕ → Turn)
        (db : Text → Option ScanRow) (value : Value) (row : Option ScanRow) (answer : CommitResult)
      → commit dependencies clock turns db value ≡ some (row, answer)
      → IsUntouched db row answer
        ⊎ ((now : Value) × (clock ≡ some now)
            × IsAuthentic dependencies now turns db value row answer)
  unfolding commit
  commit-IsAccepted hmac_size dependencies none turns db value row answer h =
      inl (ground (arith, h), inl (ground (arith, h)))
  commit-IsAccepted hmac_size dependencies (some now) turns db value row answer h =
      elim (Option-cases
        (verify_authenticated_result_envelope sha256 hmac value (context_at dependencies now))) [
          | inl thrown ↦ ground (arith, h, thrown)
          | inr (r, r_is) ↦
              let ended : commit_verified dependencies turns db r ≡ (row, answer) =
                ground (arith, h, r_is) in
              elim (verified_lem dependencies turns db r row answer ended) [
                | inl untouched ↦ inl untouched
                | inr (v, is_verified) ↦
                    accepted_lem hmac_size dependencies now turns db value row answer v
                      (r_is ∙ ap some is_verified)
                      (ap (commit_verified dependencies turns db) (sym is_verified) ∙ ended)
              ]
        ]
