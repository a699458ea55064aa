-- ===== src/ResultEnvelope/Verify.antt =====
-- Verifying a submitted result: apps/api/src/result-envelope/verify.ts. `sha256` and `hmac` stand for
-- node:crypto; a comparison by `timingSafeEqual` throws on buffers of two lengths, which `none` is.
use outscan.Prelude.{
  ℕ, ◌+◌, ◌-◌, Bool, not, ◌||◌, Option, none, some, List, [], ◌∷◌, leb, ltb, ◌==◌, if◌then◌else◌,
  length, ◌>>=◌, ◌>>◌, guard, String,
}
use outscan.Js.{
  Text, codes, Value, Entries, get, exact_record, as_string, as_safe_natural, as_bytes, text_eq,
}
use outscan.Js.Patterns.{is_identifier, is_principal, is_digest}
use outscan.GuestCrypto.Binary.{decode_canonical_base64url}
use outscan.ResultEnvelope.{
  ResultEnvelopeHeader, ResultEnvelope, ResultEnvelopeAuthentication, AuthenticatedResultSubmission,
  max_lifetime_seconds, max_clock_skew_seconds, max_payload_bytes_allowed,
  encode_authentication_message,
}
use outscan.ResultEnvelope.Sign.{as_positive, as_u32, payload_digest_of}

abbrev pub submission_keys : List String
submission_keys = "envelope" ∷ "authentication" ∷ []

abbrev pub envelope_keys : List String
envelope_keys =
    "schema_version" ∷ "job_id" ∷ "attempt_id" ∷ "fence" ∷ "workload_identity" ∷ "audience"
    ∷ "issued_at" ∷ "expires_at" ∷ "payload_digest" ∷ "payload_size" ∷ "payload" ∷ []

abbrev pub authentication_keys : List String
authentication_keys = "scheme" ∷ "key_version" ∷ "mac" ∷ []

-- `keyring.get`, `none` where the map has no key or throws.
abbrev pub Keyring : Type 0
Keyring = ℕ → Option (List ℕ)

-- `keyring` is `none` where the field is no map.
pub record VerificationContext : Type 0 where
  pub now_unix_seconds : Value
  pub expected_workload_identity : Value
  pub expected_audience : Value
  pub max_payload_bytes : Value
  pub keyring : Option Keyring

pub record TrustedContext : Type 0 where
  pub now : ℕ
  pub workload : Text
  pub audience : Text
  pub max_payload : ℕ
  pub keyring : Keyring

pub data VerificationFailure : Type 0 where
  invalid_verification_context : VerificationFailure
  invalid_result_envelope : VerificationFailure
  result_payload_too_large : VerificationFailure
  result_authentication_failed : VerificationFailure
  result_payload_mismatch : VerificationFailure

pub record SubmissionIdentity : Type 0 where
  pub attempt_id : Text
  pub fence : ℕ
  pub payload_digest : Text

pub record VerifiedResultEnvelope : Type 0 where
  pub header : ResultEnvelopeHeader
  pub submission_identity : SubmissionIdentity
  pub payload : List ℕ

pub data VerificationResult : Type 0 where
  verified : VerifiedResultEnvelope → VerificationResult
  fail : VerificationFailure → VerificationResult

unfoldable pub snapshot_context : VerificationContext → Option TrustedContext
snapshot_context context = do
  now ← as_positive context.now_unix_seconds
  workload ← as_string context.expected_workload_identity
  guard (is_principal workload)
  audience ← as_string context.expected_audience
  guard (is_principal audience)
  maximum ← as_positive context.max_payload_bytes
  guard (leb maximum max_payload_bytes_allowed)
  keyring ← context.keyring
  some (record {
    now = now;
    workload = workload;
    audience = audience;
    max_payload = maximum;
    keyring = keyring;
  })

-- `validHeader`, with the envelope that the tests leave.
unfoldable pub valid_header : Entries → Option ResultEnvelope
valid_header envelope = do
  schema ← as_safe_natural (get "schema_version" envelope)
  guard (schema == 1)
  job ← as_string (get "job_id" envelope)
  guard (is_identifier job)
  attempt ← as_string (get "attempt_id" envelope)
  guard (is_identifier attempt)
  fence ← as_positive (get "fence" envelope)
  workload ← as_string (get "workload_identity" envelope)
  guard (is_principal workload)
  audience ← as_string (get "audience" envelope)
  guard (is_principal audience)
  issued ← as_positive (get "issued_at" envelope)
  expires ← as_positive (get "expires_at" envelope)
  digest ← as_string (get "payload_digest" envelope)
  guard (is_digest (codes "sha256:") digest)
  size ← as_safe_natural (get "payload_size" envelope)
  payload ← as_bytes (get "payload" envelope)
  some (record {
    header = record {
      job_id = job;
      attempt_id = attempt;
      fence = fence;
      workload_identity = workload;
      audience = audience;
      issued_at = issued;
      expires_at = expires;
      payload_digest = digest;
      payload_size = size;
    };
    payload = payload;
  })

-- `validAuthentication`.
unfoldable pub valid_authentication : Entries → Option ResultEnvelopeAuthentication
valid_authentication authentication = do
  scheme ← as_string (get "scheme" authentication)
  guard (text_eq scheme (codes "HMAC-SHA-256"))
  version ← as_u32 (get "key_version" authentication)
  mac ← as_string (get "mac" authentication)
  guard (length mac == 43)
  some (record { key_version = version; mac = mac })

-- `snapshotSubmission` on the two fields, and the tests on what it returns.
unfoldable pub check_submission : Entries → Option AuthenticatedResultSubmission
check_submission input = do
  raw_envelope ← exact_record envelope_keys (get "envelope" input)
  raw_authentication ← exact_record authentication_keys (get "authentication" input)
  envelope ← valid_header raw_envelope
  authentication ← valid_authentication raw_authentication
  some (record { envelope = envelope; authentication = authentication })

unfoldable pub snapshot_submission : Value → Option AuthenticatedResultSubmission
snapshot_submission input = exact_record submission_keys input >>= check_submission

-- The header does not belong to this context, or not to this time.
unfoldable pub is_foreign : TrustedContext → ResultEnvelopeHeader → Bool
is_foreign trusted header =
    not (text_eq header.workload_identity trusted.workload)
    || not (text_eq header.audience trusted.audience)
    || leb header.expires_at header.issued_at
    || ltb max_lifetime_seconds (header.expires_at - header.issued_at)
    || ltb (trusted.now + max_clock_skew_seconds) header.issued_at
    || leb header.expires_at trusted.now

-- `timingSafeEqual`.
unfoldable pub timing_safe_equal : List ℕ → List ℕ → Option Bool
timing_safe_equal left right =
    if length left == length right then some (text_eq left right) else none

abbrev pub verified_of : ResultEnvelope → VerifiedResultEnvelope
verified_of envelope = record {
  header = envelope.header;
  submission_identity = record {
    attempt_id = envelope.header.attempt_id;
    fence = envelope.header.fence;
    payload_digest = envelope.header.payload_digest;
  };
  payload = envelope.payload;
}

module _ (sha256 : List ℕ → List ℕ) (hmac : List ℕ → List ℕ → List ℕ) where
  -- The tests on the payload, behind the one on the MAC.
  unfoldable pub verify_payload : ResultEnvelope → Option VerificationResult
  unfolding timing_safe_equal
  verify_payload envelope =
      if not (length envelope.payload == envelope.header.payload_size)
      then some (fail result_payload_mismatch)
      else (do
        same ←
            timing_safe_equal (payload_digest_of sha256 envelope.payload)
              envelope.header.payload_digest
        some (if same then verified (verified_of envelope) else fail result_payload_mismatch))

  -- With both the supplied MAC and the key at hand.
  unfoldable pub verify_mac :
      AuthenticatedResultSubmission → List ℕ → List ℕ → Option VerificationResult
  unfolding timing_safe_equal
  verify_mac submission supplied_mac key =
      elim (encode_authentication_message submission.envelope.header
        submission.authentication.key_version) [
          | none ↦ some (fail result_authentication_failed)
          | some message ↦ do
            same ← timing_safe_equal supplied_mac (hmac key message)
            if same
                then verify_payload submission.envelope
                else some (fail result_authentication_failed)
        ]

  -- The two that the source looks up, and its test that both are usable.
  unfoldable pub verify_keyed :
      Option (List ℕ) → Option (List ℕ) → AuthenticatedResultSubmission → Option VerificationResult
  verify_keyed (some supplied_mac) (some key) submission =
      if not (length supplied_mac == 32) || ltb (length key) 32
      then some (fail result_authentication_failed)
      else verify_mac submission supplied_mac key
  verify_keyed _ _ submission = some (fail result_authentication_failed)

  unfoldable pub verify_submission :
      TrustedContext → AuthenticatedResultSubmission → Option VerificationResult
  unfolding is_foreign
  verify_submission trusted submission =
      let header = submission.envelope.header in
      if ltb trusted.max_payload header.payload_size
        || ltb trusted.max_payload (length submission.envelope.payload)
      then some (fail result_payload_too_large)
      else (if is_foreign trusted header
          then some (fail result_authentication_failed)
          else verify_keyed (decode_canonical_base64url submission.authentication.mac)
              (trusted.keyring submission.authentication.key_version) submission)

  unfoldable pub verify_authenticated_result_envelope :
      Value → VerificationContext → Option VerificationResult
  verify_authenticated_result_envelope input context = elim (snapshot_context context) [
    | none ↦ some (fail invalid_verification_context)
    | some trusted ↦ elim (snapshot_submission input) [
      | none ↦ some (fail invalid_result_envelope)
      | some submission ↦ verify_submission trusted submission
    ]
  ]
