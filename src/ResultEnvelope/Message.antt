-- ===== src/ResultEnvelope/Message.antt =====
-- The message under the MAC, on headers that have passed the tests of their fields.
pub mod Fields
use outscan.Prelude.{
  ℕ, ◌≤◌, ◌≡◌, refl, sym, ap, ◌∙◌, true, Option, some, List, [], ◌++◌, take, drop, length, arith,
  take-length-append, drop-length-append,
}
use mathlib.Core.Path.{subst}
use outscan.Js.{codes, max_safe_integer}
use outscan.Js.Patterns.{is_identifier, is_principal, is_digest}
use outscan.GuestCrypto.Binary.{uint32_max, utf8, be32, be64, u32be, length_prefix, encode_hex}
use outscan.GuestCrypto.Binary.Decoding.{
  read32, read64, read_prefixed, read32-be32, read64-be64, length_prefix_total, u64be_total,
  read_prefixed-length_prefix,
}
use outscan.ResultEnvelope.{
  ResultEnvelopeHeader, encode_authentication_message, authentication_domain, digest_bytes,
}
use outscan.ResultEnvelope.Message.Fields.{identifier-utf8, principal-utf8, digest_bytes_lem}

-- The fields of a header that has passed `validHeader`.
abbrev pub IsWellFormed : ResultEnvelopeHeader → Type 0
IsWellFormed h =
    (is_identifier h.job_id ≡ true)
    × (is_identifier h.attempt_id ≡ true)
    × (1 ≤ h.fence)
    × (h.fence ≤ max_safe_integer)
    × (is_principal h.workload_identity ≡ true)
    × (is_principal h.audience ≡ true)
    × (1 ≤ h.issued_at)
    × (h.issued_at ≤ max_safe_integer)
    × (1 ≤ h.expires_at)
    × (h.expires_at ≤ max_safe_integer)
    × (is_digest (codes "sha256:") h.payload_digest ≡ true)
    × (h.payload_size ≤ max_safe_integer)

-- A text of ASCII characters behind its length.
abbrev pub prefixed : List ℕ → List ℕ
prefixed bs = be32 (length bs) ++ bs

abbrev pub message_of : ResultEnvelopeHeader → ℕ → List ℕ
message_of h version =
    authentication_domain
    ++ (be32 1
        ++ (be32 version
            ++ (prefixed h.job_id
                ++ (prefixed h.attempt_id
                    ++ (be64 h.fence
                        ++ (prefixed h.workload_identity
                            ++ (prefixed h.audience
                                ++ (be64 h.issued_at
                                    ++ (be64 h.expires_at
                                        ++ (digest_bytes h.payload_digest
                                            ++ be64 h.payload_size))))))))))

u32be_total : (n : ℕ) → n ≤ uint32_max → u32be n ≡ some (be32 n)
unfolding u32be
u32be_total n h = ground arith

-- Every well formed header is encoded.
pub encode_total :
    (h : ResultEnvelopeHeader) (version : ℕ)
    → IsWellFormed h
    → version ≤ uint32_max
    → encode_authentication_message h version ≡ some (message_of h version)
unfolding encode_authentication_message
encode_total h version (job, attempt, _, fence, workload, audience, _, issued, _, expires, _, size)
      small =
    let (job_is, job_short) = identifier-utf8 h.job_id job in
    let (attempt_is, attempt_short) = identifier-utf8 h.attempt_id attempt in
    let (workload_is, workload_short) = principal-utf8 h.workload_identity workload in
    let (audience_is, audience_short) = principal-utf8 h.audience audience in
    rw (
      job_is,
      attempt_is,
      workload_is,
      audience_is,
      u32be_total 1 (omega arith),
      u32be_total version small,
      length_prefix_total h.job_id (omega arith),
      length_prefix_total h.attempt_id (omega arith),
      u64be_total h.fence (omega arith),
      length_prefix_total h.workload_identity (omega arith),
      length_prefix_total h.audience (omega arith),
      u64be_total h.issued_at (omega arith),
      u64be_total h.expires_at (omega arith),
      u64be_total h.payload_size (omega arith),
    )

-- The version, behind the domain and the version of the schema.
unfoldable read_version : List ℕ → ℕ × List ℕ
read_version bs = read32 (drop 31 bs)

read_version-message :
    (version : ℕ) (r : List ℕ)
    → version ≤ uint32_max
    → read_version (authentication_domain ++ (be32 1 ++ (be32 version ++ r))) ≡ (version, r)
unfolding read_version
read_version-message version r h = read32-be32 version r h

-- Reading a message: the header and the version of the key.
abbrev read_message : List ℕ → ResultEnvelopeHeader × ℕ
read_message bs =
    let (version, r₁) = read_version bs in
    let (job, r₂) = read_prefixed r₁ in
    let (attempt, r₃) = read_prefixed r₂ in
    let (fence, r₄) = read64 r₃ in
    let (workload, r₅) = read_prefixed r₄ in
    let (audience, r₆) = read_prefixed r₅ in
    let (issued, r₇) = read64 r₆ in
    let (expires, r₈) = read64 r₇ in
    let (size, _) = read64 (drop 32 r₈) in
    (
      record {
        job_id = job;
        attempt_id = attempt;
        fence = fence;
        workload_identity = workload;
        audience = audience;
        issued_at = issued;
        expires_at = expires;
        payload_digest = codes "sha256:" ++ encode_hex (take 32 r₈);
        payload_size = size;
      },
      version,
    )

read_prefixed_lem :
    (v r : List ℕ) → length v ≤ 128 → read_prefixed (be32 (length v) ++ v ++ r) ≡ (v, r)
read_prefixed_lem v r h = read_prefixed-length_prefix v r (length_prefix_total v (omega arith))

take_32 : (d r : List ℕ) → length d ≡ 32 → take 32 (d ++ r) ≡ d
take_32 d r e = subst (λ n. take n (d ++ r) ≡ d) e (take-length-append d r)

drop_32 : (d r : List ℕ) → length d ≡ 32 → drop 32 (d ++ r) ≡ r
drop_32 d r e = subst (λ n. drop n (d ++ r) ≡ r) e (drop-length-append d r)

read-message_of :
    (h : ResultEnvelopeHeader) (version : ℕ)
    → IsWellFormed h
    → version ≤ uint32_max
    → read_message (message_of h version) ≡ (h, version)
read-message_of h version
      (job, attempt, _, fence, workload, audience, _, issued, _, expires, digest, size) small =
    let (_, job_short) = identifier-utf8 h.job_id job in
    let (_, attempt_short) = identifier-utf8 h.attempt_id attempt in
    let (_, workload_short) = principal-utf8 h.workload_identity workload in
    let (_, audience_short) = principal-utf8 h.audience audience in
    let (digits, count) = digest_bytes_lem h.payload_digest digest in
    let digest_part = digest_bytes h.payload_digest in
    let r₈ = digest_part ++ be64 h.payload_size in
    let r₇ = be64 h.expires_at ++ r₈ in
    let r₆ = be64 h.issued_at ++ r₇ in
    let r₅ = prefixed h.audience ++ r₆ in
    let r₄ = prefixed h.workload_identity ++ r₅ in
    let r₃ = be64 h.fence ++ r₄ in
    let r₂ = prefixed h.attempt_id ++ r₃ in
    let r₁ = prefixed h.job_id ++ r₂ in
    rw (
      read_version-message version r₁ small,
      read_prefixed_lem h.job_id r₂ job_short,
      read_prefixed_lem h.attempt_id r₃ attempt_short,
      read64-be64 h.fence r₄ (omega arith),
      read_prefixed_lem h.workload_identity r₅ workload_short,
      read_prefixed_lem h.audience r₆ audience_short,
      read64-be64 h.issued_at r₇ (omega arith),
      read64-be64 h.expires_at r₈ (omega arith),
      take_32 digest_part (be64 h.payload_size) count,
      drop_32 digest_part (be64 h.payload_size) count,
      digits,
      read64-be64 h.payload_size [] (omega arith),
    )

-- Two well formed headers that are encoded to the same message under two versions of a key are the
-- same header, and the versions are the same.
pub encode-injective :
    (h h' : ResultEnvelopeHeader) (version version' : ℕ)
    → IsWellFormed h
    → IsWellFormed h'
    → version ≤ uint32_max
    → version' ≤ uint32_max
    → encode_authentication_message h version ≡ encode_authentication_message h' version'
    → (h ≡ h') × (version ≡ version')
encode-injective h h' version version' ok ok' small small' same =
    let messages : message_of h version ≡ message_of h' version' =
      cc (encode_total h version ok small, encode_total h' version' ok' small', same) in
    let pairs : (h, version) ≡ (h', version') =
      sym (read-message_of h version ok small)
      ∙ ap read_message messages
      ∙ read-message_of h' version' ok' small' in
    (ap (λ p. p.0) pairs, ap (λ p. p.1) pairs)
