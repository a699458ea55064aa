-- ===== src/ResultEnvelope/Tests.antt =====
-- Signing and verifying with a small stand-in for the hash functions.
use outscan.Prelude.{
  ℕ, zero, suc, ◌+◌, ◌%◌, ◌<◌, ◌≡◌, refl, ◌↔◌, Option, none, some, List, [], ◌∷◌, ◌++◌, length,
  ◌==◌, if◌then◌else◌, arith,
}
use outscan.Js.{
  Value, null, number, string, bytes, object, entry, end, codes, get, exact_record, key_count,
  keys_among, key_mem, text_eq,
}
use outscan.Js.Patterns.{is_identifier, is_principal, is_digest, strip_prefix}
use outscan.GuestCrypto.Binary.{
  utf8, u32be, u64be, length_prefix, encode_hex, decode_hex, encode_base64url, decode_base64url,
  decode_canonical_base64url,
}
use outscan.GuestCrypto.Binary.Decoding.{AreBytes}
use outscan.ResultEnvelope.{
  ResultEnvelopeHeader, ResultEnvelope, AuthenticatedResultSubmission,
  encode_authentication_message,
}
use outscan.ResultEnvelope.Message.{IsWellFormed, encode-injective}
use outscan.ResultEnvelope.Sign.{
  SigningResult, unsigned, ResultEnvelopeSigningInput, ResultEnvelopeSigningContext,
  SignedResultEnvelope, signed, sign_result_envelope, sign_snapshots, snapshot_input,
  snapshot_context, check_input, check_context, submission_value, payload_digest_of, header_of,
}
use outscan.ResultEnvelope.Verify.{
  VerificationContext, TrustedContext, VerificationResult, verify_authenticated_result_envelope,
  verified, fail, verified_of, result_authentication_failed, snapshot_submission, check_submission,
  valid_header, valid_authentication, is_foreign, timing_safe_equal, verify_payload, verify_mac,
  verify_keyed, verify_submission,
}
use outscan.ResultEnvelope.Verify.{snapshot_context as trusted_context}
use outscan.ResultEnvelope.Accepted.{IsAccepted, verify-IsAccepted}
use outscan.ResultEnvelope.RoundTrip.{sign-verify}

-- 32 bytes that depend on the length and the sum of the input.
abbrev pub sum : List ℕ → ℕ
sum [] = 0
sum (n ∷ ns) = n + sum ns

abbrev pub repeated : ℕ → ℕ → List ℕ
repeated zero b = []
repeated (suc n) b = b ∷ repeated n b

abbrev pub small_hash : List ℕ → List ℕ
small_hash bs = sum bs % 256 ∷ repeated 31 (length bs % 256)

abbrev pub small_hmac : List ℕ → List ℕ → List ℕ
small_hmac key message = small_hash (key ++ message)

abbrev pub the_key : List ℕ
the_key = repeated 32 7

abbrev pub the_input : Value
the_input = object (
    entry "job_id" (string (codes "job-1")) (
      entry "attempt_id" (string (codes "attempt-1"))
        (entry "fence" (number 3) (entry "payload" (bytes (1 ∷ 2 ∷ 3 ∷ [])) end))))

abbrev pub the_context : Value
the_context = object (
    entry "now_unix_seconds" (number 1000) (
      entry "lifetime_seconds" (number 300) (
        entry "workload_identity" (string (codes "worker/a")) (
          entry "audience" (string (codes "ingress:v1")) (
            entry "max_payload_bytes" (number 3)
              (entry "key_version" (number 5) (entry "key" (bytes the_key) end)))))))

abbrev pub keyring_5 : ℕ → Option (List ℕ)
keyring_5 version = if version == 5 then some the_key else none

abbrev at_time : ℕ → VerificationContext
at_time now = record {
  now_unix_seconds = number now;
  expected_workload_identity = string (codes "worker/a");
  expected_audience = string (codes "ingress:v1");
  max_payload_bytes = number 3;
  keyring = some keyring_5;
}

abbrev pub submitted : SigningResult → Value
submitted (signed s) = submission_value s.submission
submitted (unsigned _) = null

abbrev pub sent : Value
sent = submitted (sign_result_envelope small_hash small_hmac the_input the_context)

abbrev run : ℕ → Option VerificationResult
run now = verify_authenticated_result_envelope small_hash small_hmac sent (at_time now)

abbrev pub the_header : ResultEnvelopeHeader
the_header = record {
  job_id = codes "job-1";
  attempt_id = codes "attempt-1";
  fence = 3;
  workload_identity = codes "worker/a";
  audience = codes "ingress:v1";
  issued_at = 1000;
  expires_at = 1300;
  payload_digest = payload_digest_of small_hash (1 ∷ 2 ∷ 3 ∷ []);
  payload_size = 3;
}

abbrev pub the_envelope : ResultEnvelope
the_envelope = record { header = the_header; payload = 1 ∷ 2 ∷ 3 ∷ [] }

run_ok : run 1100 ≡ some (verified (verified_of the_envelope))
unfolding sign_result_envelope sign_snapshots snapshot_input snapshot_context check_input
    check_context get exact_record key_count keys_among key_mem text_eq is_identifier is_principal
    is_digest strip_prefix utf8 u32be u64be length_prefix encode_hex decode_hex encode_base64url
    decode_base64url decode_canonical_base64url encode_authentication_message
    verify_authenticated_result_envelope trusted_context snapshot_submission check_submission
    valid_header valid_authentication is_foreign timing_safe_equal verify_payload verify_mac
    verify_keyed verify_submission
run_ok = refl

run_late : run 1300 ≡ some (fail result_authentication_failed)
unfolding sign_result_envelope sign_snapshots snapshot_input snapshot_context check_input
    check_context get exact_record key_count keys_among key_mem text_eq is_identifier is_principal
    is_digest strip_prefix utf8 u32be u64be length_prefix encode_hex decode_hex encode_base64url
    decode_base64url decode_canonical_base64url encode_authentication_message
    verify_authenticated_result_envelope trusted_context snapshot_submission check_submission
    valid_header valid_authentication is_foreign timing_safe_equal verify_payload verify_mac
    verify_keyed verify_submission
run_late = refl

run_clock_behind : run 969 ≡ some (fail result_authentication_failed)
unfolding sign_result_envelope sign_snapshots snapshot_input snapshot_context check_input
    check_context get exact_record key_count keys_among key_mem text_eq is_identifier is_principal
    is_digest strip_prefix utf8 u32be u64be length_prefix encode_hex decode_hex encode_base64url
    decode_base64url decode_canonical_base64url encode_authentication_message
    verify_authenticated_result_envelope trusted_context snapshot_submission check_submission
    valid_header valid_authentication is_foreign timing_safe_equal verify_payload verify_mac
    verify_keyed verify_submission
run_clock_behind = refl

repeated-AreBytes : (n b : ℕ) → b < 256 → AreBytes (repeated n b) × (length (repeated n b) ≡ n)
repeated-AreBytes zero b h = (tt, refl)
repeated-AreBytes (suc n) b h =
    let (small, size) = repeated-AreBytes n b h in ((h, small), omega (arith, size))

pub small_hash_bytes : (bs : List ℕ) → AreBytes (small_hash bs) × (length (small_hash bs) ≡ 32)
small_hash_bytes bs =
    let (small, size) = repeated-AreBytes 31 (length bs % 256) (omega arith) in
    ((omega arith, small), omega (arith, size))

abbrev the_signing_input : ResultEnvelopeSigningInput
the_signing_input = record {
  job_id = codes "job-1";
  attempt_id = codes "attempt-1";
  fence = 3;
  payload = 1 ∷ 2 ∷ 3 ∷ [];
}

abbrev the_signing_context : ResultEnvelopeSigningContext
the_signing_context = record {
  now_unix_seconds = 1000;
  lifetime_seconds = 300;
  workload_identity = codes "worker/a";
  audience = codes "ingress:v1";
  max_payload_bytes = 3;
  key_version = 5;
  key = the_key;
}

abbrev trusted_at : ℕ → TrustedContext
trusted_at now = record {
  now = now;
  workload = codes "worker/a";
  audience = codes "ingress:v1";
  max_payload = 3;
  keyring = keyring_5;
}

input_is : snapshot_input the_input ≡ some the_signing_input
unfolding snapshot_input check_input get exact_record key_count keys_among key_mem is_identifier
input_is = refl

context_is : snapshot_context the_context ≡ some the_signing_context
unfolding snapshot_context check_context get exact_record key_count keys_among key_mem is_principal
context_is = refl

trusted_is : trusted_context (at_time 1100) ≡ some (trusted_at 1100)
unfolding trusted_context is_principal
trusted_is = refl

sign-verify_example :
    (s : SignedResultEnvelope) × (sign_result_envelope small_hash small_hmac the_input the_context
      ≡ signed s)
    × (verify_authenticated_result_envelope small_hash small_hmac
          (submission_value s.submission)
          (at_time 1100)
        ≡ some (
            verified (
              verified_of (record {
                header = header_of small_hash the_signing_input the_signing_context;
                payload = 1 ∷ 2 ∷ 3 ∷ [];
              }))))
sign-verify_example =
    sign-verify small_hash small_hmac small_hash_bytes (λ k m. small_hash_bytes (k ++ m)) the_input
      the_context the_signing_input the_signing_context (at_time 1100) (trusted_at 1100) input_is
      context_is (omega arith) trusted_is refl refl (omega arith) refl (omega arith) (omega arith)

verify-IsAccepted_example :
    (verify_authenticated_result_envelope small_hash small_hmac sent (at_time 1100)
      ≡ some (verified (verified_of the_envelope)))
    ↔ ((trusted : TrustedContext) × (s : AuthenticatedResultSubmission) × (trusted_context
            (at_time 1100)
          ≡ some trusted)
        × (snapshot_submission sent ≡ some s)
        × IsAccepted small_hash small_hmac trusted s
        × (verified_of s.envelope ≡ verified_of the_envelope))
verify-IsAccepted_example =
    verify-IsAccepted small_hash small_hmac (λ k m. (small_hash_bytes (k ++ m)).1) sent
      (at_time 1100) (verified_of the_envelope)

the_header-IsWellFormed : IsWellFormed the_header
unfolding is_identifier is_principal is_digest strip_prefix encode_hex
the_header-IsWellFormed = (
  refl,
  refl,
  omega arith,
  omega arith,
  refl,
  refl,
  omega arith,
  omega arith,
  omega arith,
  omega arith,
  refl,
  omega arith,
)

encode-injective_example : (the_header ≡ the_header) × (the_signing_context.key_version ≡ 5)
encode-injective_example =
    encode-injective the_header the_header 5 5 the_header-IsWellFormed the_header-IsWellFormed
      (omega arith) (omega arith) refl
