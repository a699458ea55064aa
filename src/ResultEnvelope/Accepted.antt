-- ===== src/ResultEnvelope/Accepted.antt =====
-- What a verified submission is: the tests of verify.ts as one predicate.
use outscan.Prelude.{
  ℕ, ◌+◌, ◌≤◌, ◌<◌, ◌≡◌, refl, ap, ◌∙◌, ◌↔◌, inl, inr, true, false, Option, none, some, List,
  length, arith, Option-cases, ==_iff,
}
use outscan.Js.{Value, text_eq_refl, text_eq_iff}
use outscan.GuestCrypto.Binary.{decode_canonical_base64url}
use outscan.ResultEnvelope.{
  ResultEnvelopeHeader, ResultEnvelope, AuthenticatedResultSubmission,
  encode_authentication_message,
}
use outscan.ResultEnvelope.Sign.{payload_digest_of}
use outscan.ResultEnvelope.Verify.{
  TrustedContext, VerificationContext, VerifiedResultEnvelope, verified, verified_of,
  snapshot_context, snapshot_submission, is_foreign, timing_safe_equal, verify_payload, verify_mac,
  verify_keyed, verify_submission, verify_authenticated_result_envelope,
}

-- The header belongs to the context, and the time is within its lifetime.
abbrev pub IsCurrent : TrustedContext → ResultEnvelopeHeader → Type 0
IsCurrent trusted header =
    (header.workload_identity ≡ trusted.workload)
    × (header.audience ≡ trusted.audience)
    × (header.issued_at < header.expires_at)
    × (header.expires_at ≤ header.issued_at + 300)
    × (header.issued_at ≤ trusted.now + 30)
    × (trusted.now < header.expires_at)

is_foreign_iff :
    (trusted : TrustedContext) (header : ResultEnvelopeHeader)
    → (is_foreign trusted header ≡ false) ↔ IsCurrent trusted header
unfolding is_foreign
is_foreign_iff trusted header = ground (
  arith,
  text_eq_iff header.workload_identity trusted.workload,
  text_eq_iff header.audience trusted.audience,
)

timing_safe_equal_iff :
    (left right : List ℕ) → (timing_safe_equal left right ≡ some true) ↔ (left ≡ right)
unfolding timing_safe_equal
timing_safe_equal_iff left right = (
  λ h. ground (arith, h, text_eq_iff left right),
  λ e. rw (e, (==_iff (length right) (length right)).1 refl, text_eq_refl right),
)

module _ (sha256 : List ℕ → List ℕ) (hmac : List ℕ → List ℕ → List ℕ) where
  -- The payload is the one that the header describes.
  abbrev pub IsIntact : ResultEnvelope → Type 0
  IsIntact envelope =
      (length envelope.payload ≡ envelope.header.payload_size)
      × (payload_digest_of sha256 envelope.payload ≡ envelope.header.payload_digest)

  -- The MAC is the one of the message under a key of the ring.
  abbrev pub IsAuthentic : (ℕ → Option (List ℕ)) → AuthenticatedResultSubmission → Type 0
  IsAuthentic keyring submission =
      (key : List ℕ) × (keyring submission.authentication.key_version ≡ some key)
      × (32 ≤ length key)
      × ((message : List ℕ) × (encode_authentication_message submission.envelope.header
              submission.authentication.key_version
            ≡ some message)
          × (decode_canonical_base64url submission.authentication.mac ≡ some (hmac key message)))

  abbrev pub IsAccepted : TrustedContext → AuthenticatedResultSubmission → Type 0
  IsAccepted trusted submission =
      (submission.envelope.header.payload_size ≤ trusted.max_payload)
      × IsCurrent trusted submission.envelope.header
      × IsAuthentic trusted.keyring submission
      × IsIntact submission.envelope

  payload_sound :
      (envelope : ResultEnvelope) {v : VerifiedResultEnvelope}
      → verify_payload sha256 hmac envelope ≡ some (verified v)
      → IsIntact envelope × (verified_of envelope ≡ v)
  unfolding verify_payload
  payload_sound envelope h = ground (
    arith,
    h,
    timing_safe_equal_iff (payload_digest_of sha256 envelope.payload)
        envelope.header.payload_digest,
  )

  payload_complete :
      (envelope : ResultEnvelope)
      → IsIntact envelope
      → verify_payload sha256 hmac envelope ≡ some (verified (verified_of envelope))
  unfolding verify_payload
  payload_complete envelope (size, digest) = rw (
    (==_iff (length envelope.payload) envelope.header.payload_size).1 size,
    (timing_safe_equal_iff (payload_digest_of sha256 envelope.payload)
          envelope.header.payload_digest).1
        digest,
  )

  mac_sound :
      (s : AuthenticatedResultSubmission) (mac key : List ℕ) {v : VerifiedResultEnvelope}
      → verify_mac sha256 hmac s mac key ≡ some (verified v)
      → ((message : List ℕ) × (encode_authentication_message s.envelope.header
              s.authentication.key_version
            ≡ some message)
          × (mac ≡ hmac key message)
          × (verify_payload sha256 hmac s.envelope ≡ some (verified v)))
  unfolding verify_mac
  mac_sound s mac key h =
      elim (Option-cases
        (encode_authentication_message s.envelope.header s.authentication.key_version)) [
          | inl none_is ↦ ground (arith, h, none_is)
          | inr (message, found) ↦ (
            message,
            found,
            ground (arith, h, found, timing_safe_equal_iff mac (hmac key message)),
            ground (arith, h, found, timing_safe_equal_iff mac (hmac key message)),
          )
        ]

  mac_complete :
      (s : AuthenticatedResultSubmission) (key message : List ℕ)
      → encode_authentication_message s.envelope.header s.authentication.key_version ≡ some message
      → verify_mac sha256 hmac s (hmac key message) key ≡ verify_payload sha256 hmac s.envelope
  unfolding verify_mac
  mac_complete s key message found =
      ground (arith, found, (timing_safe_equal_iff (hmac key message) (hmac key message)).1 refl)

  keyed_sound :
      (omac okey : Option (List ℕ)) (s : AuthenticatedResultSubmission) {v : VerifiedResultEnvelope}
      → verify_keyed sha256 hmac omac okey s ≡ some (verified v)
      → ((mac key : List ℕ) × (omac ≡ some mac)
          × (okey ≡ some key)
          × (32 ≤ length key)
          × (verify_mac sha256 hmac s mac key ≡ some (verified v)))
  unfolding verify_keyed
  keyed_sound (some mac) (some key) s h =
      (mac, key, refl, refl, ground (arith, h), ground (arith, h))
  keyed_sound (some mac) none s h = cc
  keyed_sound none (some key) s h = cc
  keyed_sound none none s h = cc

  submission_sound :
      (trusted : TrustedContext) (s : AuthenticatedResultSubmission) {v : VerifiedResultEnvelope}
      → verify_submission sha256 hmac trusted s ≡ some (verified v)
      → IsAccepted trusted s × (verified_of s.envelope ≡ v)
  unfolding verify_submission
  submission_sound trusted s {v} h =
      let (current, small, keyed) : IsCurrent trusted s.envelope.header
          × (s.envelope.header.payload_size ≤ trusted.max_payload)
          × (verify_keyed sha256 hmac (decode_canonical_base64url s.authentication.mac)
                (trusted.keyring s.authentication.key_version) s
              ≡ some (verified v)) =
        ground (arith, h, is_foreign_iff trusted s.envelope.header) in
      let (mac, key, mac_is, key_is, long, checked) = keyed_sound _ _ s keyed in
      let (message, encoded, mac_same, rest) = mac_sound s mac key checked in
      let (intact, same) = payload_sound s.envelope rest in
      (
        (
          small,
          current,
          (key, key_is, long, (message, encoded, mac_is ∙ ap some mac_same)),
          intact,
        ),
        same,
      )

  submission_complete :
      ((key message : List ℕ) → length (hmac key message) ≡ 32)
      → (trusted : TrustedContext) (s : AuthenticatedResultSubmission) → IsAccepted trusted s
      → verify_submission sha256 hmac trusted s ≡ some (verified (verified_of s.envelope))
  unfolding verify_submission verify_keyed
  submission_complete hmac_size trusted s
        (small, current, (key, key_is, long, (message, encoded, mac_is)), intact) =
      let foreign : is_foreign trusted s.envelope.header ≡ false =
        (is_foreign_iff trusted s.envelope.header).1 current in
      let checked : verify_mac sha256 hmac s (hmac key message) key
          ≡ some (verified (verified_of s.envelope)) =
        mac_complete s key message encoded ∙ payload_complete s.envelope intact in
      ground (arith, foreign, mac_is, key_is, hmac_size key message, small, intact.0, long, checked)

  -- Verification succeeds exactly when the context is valid, the input has the shape of a submission,
  -- and the submission is accepted: it is meant for the context's workload and audience, its lifetime
  -- is at most 300 seconds and includes the present (with 30 seconds for clocks ahead), its MAC
  -- is the one of its header under the key of the ring, and the payload has the size and the digest
  -- of the header and is within the limit. It then returns that header and that payload.
  -- Of HMAC it is used that its result has 32 bytes.
  pub verify-IsAccepted :
      ((key message : List ℕ) → length (hmac key message) ≡ 32)
      → (input : Value) (context : VerificationContext) (v : VerifiedResultEnvelope)
      → (verify_authenticated_result_envelope sha256 hmac input context ≡ some (verified v)) ↔ (
          (trusted : TrustedContext) × (s : AuthenticatedResultSubmission) × (snapshot_context
              context
            ≡ some trusted)
          × (snapshot_submission input ≡ some s)
          × IsAccepted trusted s
          × (verified_of s.envelope ≡ v))
  unfolding verify_authenticated_result_envelope
  verify-IsAccepted hmac_size input context v = (
    λ h. elim (Option-cases (snapshot_context context)) [
      | inl no_context ↦ ground (arith, h, no_context)
      | inr (trusted, trusted_is) ↦ elim (Option-cases (snapshot_submission input)) [
        | inl malformed ↦ ground (arith, h, trusted_is, malformed)
        | inr (s, s_is) ↦
            let (accepted, same) =
              submission_sound trusted s (ground (arith, h, trusted_is, s_is)) in
            (trusted, s, trusted_is, s_is, accepted, same)
      ]
    ],
    λ (trusted, s, trusted_is, s_is, accepted, same).
        ground (arith, trusted_is, s_is, same, submission_complete hmac_size trusted s accepted),
  )
