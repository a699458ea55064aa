-- ===== src/ResultEnvelope.antt =====
-- The envelope in which a worker submits the result of a scan, and the message that its MAC covers:
-- apps/api/src/result-envelope/model.ts and codec.ts. SHA-256 and HMAC-SHA-256 are parameters of the
-- children.
pub mod Message
pub mod Sign
pub mod Verify
pub mod Accepted
pub mod RoundTrip
pub mod Tests
use outscan.Prelude.{ℕ, Option, some, List, [], ◌∷◌, ◌++◌, ◌>>=◌, drop}
use outscan.Js.{Text, codes}
use outscan.GuestCrypto.Binary.{utf8, u32be, u64be, length_prefix, decode_hex}

abbrev pub max_lifetime_seconds : ℕ
max_lifetime_seconds = 300

abbrev pub max_clock_skew_seconds : ℕ
max_clock_skew_seconds = 30

abbrev pub max_payload_bytes_allowed : ℕ
max_payload_bytes_allowed = 33554432

-- `schema_version` has the literal type 1.
pub record ResultEnvelopeHeader : Type 0 where
  pub job_id : Text
  pub attempt_id : Text
  pub fence : ℕ
  pub workload_identity : Text
  pub audience : Text
  pub issued_at : ℕ
  pub expires_at : ℕ
  pub payload_digest : Text
  pub payload_size : ℕ

pub record ResultEnvelope : Type 0 where
  pub header : ResultEnvelopeHeader
  pub payload : List ℕ

-- `scheme` has the literal type "HMAC-SHA-256".
pub record ResultEnvelopeAuthentication : Type 0 where
  pub key_version : ℕ
  pub mac : Text

pub record AuthenticatedResultSubmission : Type 0 where
  pub envelope : ResultEnvelope
  pub authentication : ResultEnvelopeAuthentication

abbrev pub authentication_domain : List ℕ
authentication_domain = codes "OUTSCAN:RESULT_ENVELOPE:v1" ++ 0 ∷ []

-- `value.slice("sha256:".length)` read as hexadecimal digits.
abbrev pub digest_bytes : Text → List ℕ
digest_bytes value = decode_hex (drop 7 value)

-- `none` where the source throws a RangeError.
unfoldable pub encode_authentication_message : ResultEnvelopeHeader → ℕ → Option (List ℕ)
encode_authentication_message header key_version = do
  schema_part ← u32be 1
  key_part ← u32be key_version
  job_part ← length_prefix (utf8 header.job_id)
  attempt_part ← length_prefix (utf8 header.attempt_id)
  fence_part ← u64be header.fence
  workload_part ← length_prefix (utf8 header.workload_identity)
  audience_part ← length_prefix (utf8 header.audience)
  issued_part ← u64be header.issued_at
  expires_part ← u64be header.expires_at
  size_part ← u64be header.payload_size
  some (
      authentication_domain
      ++ (schema_part
          ++ (key_part
              ++ (job_part
                  ++ (attempt_part
                      ++ (fence_part
                          ++ (workload_part
                              ++ (audience_part
                                  ++ (issued_part
                                      ++ (expires_part
                                          ++ (digest_bytes header.payload_digest
                                              ++ size_part)))))))))))
