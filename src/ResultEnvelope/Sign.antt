-- ===== src/ResultEnvelope/Sign.antt =====
-- Signing a result: apps/api/src/result-envelope/sign.ts. `sha256` and `hmac` stand for node:crypto.
use outscan.Prelude.{
  ℕ, ◌+◌, ◌-◌, ◌&&◌, Option, none, some, List, [], ◌∷◌, ◌++◌, leb, ltb, if◌then◌else◌, length,
  ◌>>=◌, ◌>>◌, guard, String,
}
use outscan.Js.{
  Text, codes, Value, number, string, bytes, object, Entries, entry, end, get, exact_record,
  as_string, as_safe_natural, as_bytes, max_safe_integer,
}
use outscan.Js.Patterns.{is_identifier, is_principal}
use outscan.GuestCrypto.Binary.{uint32_max, encode_base64url, encode_hex}
use outscan.ResultEnvelope.{
  ResultEnvelopeHeader, ResultEnvelopeAuthentication, AuthenticatedResultSubmission,
  max_lifetime_seconds, max_payload_bytes_allowed, encode_authentication_message,
}

abbrev pub input_keys : List String
input_keys = "job_id" ∷ "attempt_id" ∷ "fence" ∷ "payload" ∷ []

abbrev pub context_keys : List String
context_keys =
    "now_unix_seconds" ∷ "lifetime_seconds" ∷ "workload_identity" ∷ "audience" ∷ "max_payload_bytes"
    ∷ "key_version" ∷ "key" ∷ []

pub record ResultEnvelopeSigningInput : Type 0 where
  pub job_id : Text
  pub attempt_id : Text
  pub fence : ℕ
  pub payload : List ℕ

pub record ResultEnvelopeSigningContext : Type 0 where
  pub now_unix_seconds : ℕ
  pub lifetime_seconds : ℕ
  pub workload_identity : Text
  pub audience : Text
  pub max_payload_bytes : ℕ
  pub key_version : ℕ
  pub key : List ℕ

pub data SigningFailure : Type 0 where
  invalid_signing_context : SigningFailure
  invalid_result_input : SigningFailure
  result_payload_too_large : SigningFailure
  result_signing_failed : SigningFailure

-- `read_payload` and `read_submission` return copies of the parts of `submission`.
pub record SignedResultEnvelope : Type 0 where
  pub header : ResultEnvelopeHeader
  pub authentication : ResultEnvelopeAuthentication
  pub submission : AuthenticatedResultSubmission

pub data SigningResult : Type 0 where
  signed : SignedResultEnvelope → SigningResult
  unsigned : SigningFailure → SigningResult

-- `Number.isSafeInteger(value) && value > 0`.
abbrev pub as_positive : Value → Option ℕ
as_positive v = do n ← as_safe_natural v; guard (leb 1 n); some n

-- `Number.isSafeInteger(value) && value >= 0 && value <= 0xffff_ffff`.
abbrev pub as_u32 : Value → Option ℕ
as_u32 v = do n ← as_safe_natural v; guard (leb n uint32_max); some n

unfoldable pub check_input : Entries → Option ResultEnvelopeSigningInput
check_input value = do
  job ← as_string (get "job_id" value)
  guard (is_identifier job)
  attempt ← as_string (get "attempt_id" value)
  guard (is_identifier attempt)
  fence ← as_positive (get "fence" value)
  payload ← as_bytes (get "payload" value)
  some (record { job_id = job; attempt_id = attempt; fence = fence; payload = payload })

unfoldable pub snapshot_input : Value → Option ResultEnvelopeSigningInput
snapshot_input value = exact_record input_keys value >>= check_input

unfoldable pub check_context : Entries → Option ResultEnvelopeSigningContext
check_context value = do
  now ← as_positive (get "now_unix_seconds" value)
  lifetime ← as_positive (get "lifetime_seconds" value)
  guard (leb lifetime max_lifetime_seconds)
  workload ← as_string (get "workload_identity" value)
  guard (is_principal workload)
  audience ← as_string (get "audience" value)
  guard (is_principal audience)
  maximum ← as_positive (get "max_payload_bytes" value)
  guard (leb maximum max_payload_bytes_allowed)
  version ← as_u32 (get "key_version" value)
  key ← as_bytes (get "key" value)
  guard (leb 32 (length key) && leb (length key) 64)
  guard (leb now (max_safe_integer - lifetime))
  some (record {
    now_unix_seconds = now;
    lifetime_seconds = lifetime;
    workload_identity = workload;
    audience = audience;
    max_payload_bytes = maximum;
    key_version = version;
    key = key;
  })

unfoldable pub snapshot_context : Value → Option ResultEnvelopeSigningContext
snapshot_context value = exact_record context_keys value >>= check_context

-- The submission as the object that `read_submission` returns.
abbrev pub submission_value : AuthenticatedResultSubmission → Value
submission_value s =
    let h = s.envelope.header in
    object (
      entry "envelope"
        (object (
          entry "schema_version" (number 1) (
            entry "job_id" (string h.job_id) (
              entry "attempt_id" (string h.attempt_id) (
                entry "fence" (number h.fence) (
                  entry "workload_identity" (string h.workload_identity) (
                    entry "audience" (string h.audience) (
                      entry "issued_at" (number h.issued_at) (
                        entry "expires_at" (number h.expires_at) (
                          entry "payload_digest" (string h.payload_digest) (
                            entry "payload_size" (number h.payload_size)
                              (entry "payload" (bytes s.envelope.payload) end))))))))))))
        (entry "authentication"
          (object (
            entry "scheme" (string (codes "HMAC-SHA-256")) (
              entry "key_version" (number s.authentication.key_version)
                (entry "mac" (string s.authentication.mac) end))))
          end))

-- `sha256:` and the digest in hexadecimal digits.
abbrev pub payload_digest_of : (List ℕ → List ℕ) → List ℕ → Text
payload_digest_of sha256 payload = codes "sha256:" ++ encode_hex (sha256 payload)

abbrev pub header_of :
    (List ℕ → List ℕ)
    → ResultEnvelopeSigningInput
    → ResultEnvelopeSigningContext
    → ResultEnvelopeHeader
header_of sha256 input context = record {
  job_id = input.job_id;
  attempt_id = input.attempt_id;
  fence = input.fence;
  workload_identity = context.workload_identity;
  audience = context.audience;
  issued_at = context.now_unix_seconds;
  expires_at = context.now_unix_seconds + context.lifetime_seconds;
  payload_digest = payload_digest_of sha256 input.payload;
  payload_size = length input.payload;
}

abbrev pub signed_with :
    ResultEnvelopeSigningInput → ResultEnvelopeHeader → ℕ → Text → SignedResultEnvelope
signed_with input header key_version mac = record {
  header = header;
  authentication = record { key_version = key_version; mac = mac };
  submission = record {
    envelope = record { header = header; payload = input.payload };
    authentication = record { key_version = key_version; mac = mac };
  };
}

module _ (sha256 : List ℕ → List ℕ) (hmac : List ℕ → List ℕ → List ℕ) where
  -- Behind the tests on the two arguments.
  unfoldable pub sign_snapshots :
      ResultEnvelopeSigningInput → ResultEnvelopeSigningContext → SigningResult
  sign_snapshots input context =
      if ltb context.max_payload_bytes (length input.payload)
      then unsigned result_payload_too_large
      else (let header = header_of sha256 input context in
          elim (encode_authentication_message header context.key_version) [
            | none ↦ unsigned result_signing_failed
            | some message ↦ signed (
                signed_with input header context.key_version
                  (encode_base64url (hmac context.key message)))
          ])

  unfoldable pub sign_result_envelope : Value → Value → SigningResult
  sign_result_envelope raw_input raw_context = elim (snapshot_input raw_input) [
    | none ↦ unsigned invalid_result_input
    | some input ↦ elim (snapshot_context raw_context) [
      | none ↦ unsigned invalid_signing_context
      | some context ↦ sign_snapshots input context
    ]
  ]
