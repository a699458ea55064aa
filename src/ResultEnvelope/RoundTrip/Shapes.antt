-- ===== src/ResultEnvelope/RoundTrip/Shapes.antt =====
-- The shapes of what is signed: inputs and contexts that passed their tests, and the object that a
-- submission is sent as.
use outscan.Prelude.{ℕ, ◌+◌, ◌≤◌, ◌≡◌, true, some, List, length, ◌==◌, arith, >>=-eq-some, ==_iff}
use outscan.Js.{
  Value, codes, get, exact_record, key_count, keys_among, key_mem, max_safe_integer, text_eq,
}
use outscan.Js.Patterns.{is_identifier, is_principal, is_digest, strip_prefix}
use outscan.GuestCrypto.Binary.{uint32_max, encode_hex}
use outscan.GuestCrypto.Binary.Decoding.{AreBytes, encode_hex_lem}
use outscan.ResultEnvelope.{AuthenticatedResultSubmission}
use outscan.ResultEnvelope.Message.{IsWellFormed}
use outscan.ResultEnvelope.Sign.{
  ResultEnvelopeSigningInput, ResultEnvelopeSigningContext, input_keys, context_keys, check_input,
  check_context, snapshot_input, snapshot_context, payload_digest_of, submission_value,
}
use outscan.ResultEnvelope.Verify.{
  snapshot_submission, check_submission, valid_header, valid_authentication,
}

pub snapshot_input_lem :
    (raw : Value) {input : ResultEnvelopeSigningInput}
    → snapshot_input raw ≡ some input
    → (is_identifier input.job_id ≡ true)
      × (is_identifier input.attempt_id ≡ true)
      × (1 ≤ input.fence)
      × (input.fence ≤ max_safe_integer)
unfolding snapshot_input check_input
snapshot_input_lem raw h =
    let (es, _, checked) = >>=-eq-some (exact_record input_keys raw) check_input h in
    ground (arith, checked)

-- What the tests of a signing context leave.
abbrev pub IsSigningContext : ResultEnvelopeSigningContext → Type 0
IsSigningContext c =
    (1 ≤ c.now_unix_seconds)
    × (1 ≤ c.lifetime_seconds)
    × (c.lifetime_seconds ≤ 300)
    × (c.now_unix_seconds + c.lifetime_seconds ≤ max_safe_integer)
    × (is_principal c.workload_identity ≡ true)
    × (is_principal c.audience ≡ true)
    × (c.max_payload_bytes ≤ 33554432)
    × (c.key_version ≤ uint32_max)
    × (32 ≤ length c.key)

pub snapshot_context_lem :
    (raw : Value) {c : ResultEnvelopeSigningContext}
    → snapshot_context raw ≡ some c
    → IsSigningContext c
unfolding snapshot_context check_context
snapshot_context_lem raw h =
    let (es, _, checked) = >>=-eq-some (exact_record context_keys raw) check_context h in
    ground (arith, checked)

pub payload_digest_of-is_digest :
    (sha256 : List ℕ → List ℕ) (payload : List ℕ)
    → AreBytes (sha256 payload)
    → length (sha256 payload) ≡ 32
    → is_digest (codes "sha256:") (payload_digest_of sha256 payload) ≡ true
unfolding is_digest strip_prefix
payload_digest_of-is_digest sha256 payload bytes size =
    let (hex, count) = encode_hex_lem (sha256 payload) bytes in
    let long : (length (encode_hex (sha256 payload)) == 64) ≡ true =
      (==_iff (length (encode_hex (sha256 payload))) 64).1 (omega (arith, count, size)) in
    rw (long, hex)

-- The object that a submission is sent as is read as that submission.
pub snapshot-submission_value :
    (s : AuthenticatedResultSubmission)
    → IsWellFormed s.envelope.header
    → s.authentication.key_version ≤ uint32_max
    → length s.authentication.mac ≡ 43
    → snapshot_submission (submission_value s) ≡ some s
unfolding snapshot_submission check_submission valid_header valid_authentication exact_record get
    key_count keys_among key_mem text_eq
snapshot-submission_value s
      (
        job, attempt, fence, fence_small, workload, audience, issued, issued_small, expires,
        expires_small, digest, size,
      )
      version mac =
    ground (
      arith, job, attempt, fence, fence_small, workload, audience, issued, issued_small, expires,
      expires_small, digest, size, version, mac,
    )
