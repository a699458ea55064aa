-- ===== src/ResultEnvelope/RoundTrip.antt =====
-- That what was signed is verified.
mod Shapes
use outscan.Prelude.{ℕ, ◌+◌, ◌≤◌, ◌<◌, ◌≡◌, refl, true, some, none, Option, List, length, arith}
use outscan.Js.{Value}
use outscan.GuestCrypto.Binary.{encode_base64url, decode_canonical_base64url}
use outscan.GuestCrypto.Binary.Decoding.{AreBytes, decode_canonical-encode, length-encode_base64url}
use outscan.ResultEnvelope.{ResultEnvelope}
use outscan.ResultEnvelope.Message.{IsWellFormed, encode_total, message_of}
use outscan.ResultEnvelope.Sign.{
  ResultEnvelopeSigningInput, ResultEnvelopeSigningContext, SignedResultEnvelope, signed,
  snapshot_input, snapshot_context, header_of, signed_with, sign_snapshots, sign_result_envelope,
  submission_value,
}
use outscan.ResultEnvelope.Verify.{
  TrustedContext, VerificationContext, verified, verified_of, verify_authenticated_result_envelope,
}
use outscan.ResultEnvelope.Verify.{snapshot_context as trusted_context}
use outscan.ResultEnvelope.Accepted.{verify-IsAccepted}
use outscan.ResultEnvelope.RoundTrip.Shapes.{
  snapshot_input_lem, snapshot_context_lem, payload_digest_of-is_digest, snapshot-submission_value,
}

module _ (sha256 : List ℕ → List ℕ) (hmac : List ℕ → List ℕ → List ℕ)
    (sha256_bytes : (bs : List ℕ) → AreBytes (sha256 bs) × (length (sha256 bs) ≡ 32))
    (hmac_bytes : (key bs : List ℕ) → AreBytes (hmac key bs) × (length (hmac key bs) ≡ 32)) where
  header_of-IsWellFormed :
      (raw_input raw_context : Value) (input : ResultEnvelopeSigningInput)
      (signing : ResultEnvelopeSigningContext)
      → snapshot_input raw_input ≡ some input
      → snapshot_context raw_context ≡ some signing
      → length input.payload ≤ signing.max_payload_bytes
      → IsWellFormed (header_of sha256 input signing)
  header_of-IsWellFormed raw_input raw_context input signing input_is signing_is fits =
      let (job, attempt, fence, fence_small) = snapshot_input_lem raw_input input_is in
      let (now, lifetime, short, late, workload, audience, limit, version, long) =
        snapshot_context_lem raw_context signing_is in
      let (bytes, size) = sha256_bytes input.payload in
      (
        job,
        attempt,
        fence,
        fence_small,
        workload,
        audience,
        now,
        omega arith,
        omega arith,
        late,
        payload_digest_of-is_digest sha256 input.payload bytes size,
        omega arith,
      )

  -- A valid input and a valid context with a payload within its limit are always signed, and what
  -- is sent is verified in every valid context of the same workload and audience that allows the size,
  -- has the key under its version, and whose time is at most 30 seconds before the signing and before
  -- the end of the lifetime: the result has the header that was signed and the payload of the input.
  pub sign-verify :
      (raw_input raw_context : Value) (input : ResultEnvelopeSigningInput)
      (signing : ResultEnvelopeSigningContext) (context : VerificationContext)
      (trusted : TrustedContext)
      → snapshot_input raw_input ≡ some input
      → snapshot_context raw_context ≡ some signing
      → length input.payload ≤ signing.max_payload_bytes
      → trusted_context context ≡ some trusted
      → signing.workload_identity ≡ trusted.workload
      → signing.audience ≡ trusted.audience
      → length input.payload ≤ trusted.max_payload
      → trusted.keyring signing.key_version ≡ some signing.key
      → signing.now_unix_seconds ≤ trusted.now + 30
      → trusted.now < signing.now_unix_seconds + signing.lifetime_seconds
      → (s : SignedResultEnvelope) × (sign_result_envelope sha256 hmac raw_input raw_context
          ≡ signed s)
        × (verify_authenticated_result_envelope sha256 hmac (submission_value s.submission) context
            ≡ some (
                verified (
                  verified_of
                    (record { header = header_of sha256 input signing; payload = input.payload }))))
  unfolding sign_result_envelope sign_snapshots
  sign-verify raw_input raw_context input signing context trusted input_is signing_is fits
        trusted_is workload audience allowed key_is early alive =
      let header = header_of sha256 input signing in
      let wf =
        header_of-IsWellFormed raw_input raw_context input signing input_is signing_is fits in
      let (_, lifetime, short, _, _, _, _, version, long) =
        snapshot_context_lem raw_context signing_is in
      let encoded = encode_total header signing.key_version wf version in
      let mac = hmac signing.key (message_of header signing.key_version) in
      let (bytes, size) = hmac_bytes signing.key (message_of header signing.key_version) in
      let s = signed_with input header signing.key_version (encode_base64url mac) in
      let mac_length : length (encode_base64url mac) ≡ 43 =
        omega (arith, length-encode_base64url mac, size) in
      let decoded : decode_canonical_base64url (encode_base64url mac) ≡ some mac =
        decode_canonical-encode mac bytes (omega (arith, size)) in
      (
        s,
        ground (arith, input_is, signing_is, fits, encoded),
        (verify-IsAccepted sha256 hmac (λ k m. (hmac_bytes k m).1) (submission_value s.submission)
              context (verified_of s.submission.envelope)).1
            (
              trusted,
              s.submission,
              trusted_is,
              snapshot-submission_value s.submission wf version mac_length,
              (
                allowed,
                (workload, audience, omega arith, omega arith, early, alive),
                (
                  signing.key,
                  key_is,
                  long,
                  (message_of header signing.key_version, encoded, decoded),
                ),
                (refl, refl),
              ),
              refl,
            ),
      )
