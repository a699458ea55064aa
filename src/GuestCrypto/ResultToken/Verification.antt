-- ===== src/GuestCrypto/ResultToken/Verification.antt =====
-- Which tokens `verifyGuestResultToken` accepts.
use outscan.Prelude.{
  ℕ, ◌≤◌, ◌<◌, ◌≡◌, refl, ◌≢◌, ◌↔◌, true, Option, none, some, List, [], ◌++◌, arith, length,
  Option-cases, inl, inr, Bool-cases, >>=-eq-some,
}
use outscan.Js.{
  Text, Value, Entries, null, bigint, string, uint64_max, exact_record, get, text_eq_refl,
  text_eq_sound,
}
use outscan.GuestCrypto.Binary.{
  utf8, u64be, length_prefix, uint32_max, encode_base64url, decode_base64url,
  decode_canonical_base64url,
}
use outscan.GuestCrypto.Binary.Decoding.{
  AreBytes, length_prefix_total, u64be_total, length-encode_base64url, decode_canonical-encode,
  encode-decode_canonical, decode-encode_base64url,
}
use outscan.GuestCrypto.ResultToken.{
  GuestResultTokenMetadata, snapshot_metadata, metadata_value, encode_message, token_domain,
  is_valid_key, as_u64_or_null, revoked_value, check_metadata, metadata_keys, derive_token,
  compare_token, verify_token,
}

-- What a snapshot guarantees of its fields.
pub record IsValidMetadata (m : GuestResultTokenMetadata) : Type 0 where
  pub id_short : length (utf8 m.guest_scan_id) ≤ 512
  pub id_nonempty : 0 < length (utf8 m.guest_scan_id)
  pub version_u64 : m.token_version ≤ uint64_max
  pub nonce_32 : length m.token_nonce ≡ 32
  pub key_version_u32 : m.key_version ≤ uint32_max
  pub expires_u64 : m.result_access_expires_at_unix_seconds ≤ uint64_max

check_metadata-IsValid :
    (input : Entries) {m : GuestResultTokenMetadata}
    → check_metadata input ≡ some m
    → IsValidMetadata m
      × (as_u64_or_null (get "result_access_revoked_at_unix_seconds" input)
          ≡ some m.result_access_revoked_at_unix_seconds)
unfolding check_metadata
check_metadata-IsValid input h = ground arith

revoked_again :
    (f : Value) {r : Option ℕ}
    → as_u64_or_null f ≡ some r
    → as_u64_or_null (revoked_value r) ≡ some r
revoked_again f {r = none} h = refl
revoked_again null {r = some n} h = cc
revoked_again (bigint k) {r = some n} h = ground arith
revoked_again _ {r = some n} h = cc

-- What a successful snapshot guarantees.
abbrev pub IsSnapshot : GuestResultTokenMetadata → Type 0
IsSnapshot m =
    IsValidMetadata m
    × (as_u64_or_null (revoked_value m.result_access_revoked_at_unix_seconds)
        ≡ some m.result_access_revoked_at_unix_seconds)

pub snapshot_metadata-IsSnapshot :
    (v : Value) {m : GuestResultTokenMetadata} → snapshot_metadata v ≡ some m → IsSnapshot m
unfolding snapshot_metadata
snapshot_metadata-IsSnapshot v h =
    let (input, _, checked) = >>=-eq-some (exact_record metadata_keys v) check_metadata h in
    let (valid, revoked) = check_metadata-IsValid input checked in
    (valid, revoked_again (get "result_access_revoked_at_unix_seconds" input) revoked)

-- A snapshot of a snapshot is the snapshot.
pub snapshot-metadata_value :
    (m : GuestResultTokenMetadata) → IsSnapshot m → snapshot_metadata (metadata_value m) ≡ some m
unfolding snapshot_metadata exact_record get
snapshot-metadata_value m h = ground arith

encode_message_parts :
    (m : GuestResultTokenMetadata) {a v n e : List ℕ}
    → IsValidMetadata m
    → length_prefix (utf8 m.guest_scan_id) ≡ some a
    → u64be m.token_version ≡ some v
    → length_prefix m.token_nonce ≡ some n
    → u64be m.result_access_expires_at_unix_seconds ≡ some e
    → encode_message m ≡ some (token_domain ++ (a ++ (v ++ (n ++ (e ++ [])))))
unfolding encode_message
encode_message_parts m h ha hv hn he = ground arith

encode_message_total :
    (m : GuestResultTokenMetadata)
    → IsValidMetadata m
    → (bs : List ℕ) × (encode_message m ≡ some bs)
encode_message_total m h = (
  _,
  encode_message_parts m h (length_prefix_total (utf8 m.guest_scan_id) (omega arith))
      (u64be_total m.token_version h.version_u64) (length_prefix_total m.token_nonce (omega arith))
      (u64be_total m.result_access_expires_at_unix_seconds h.expires_u64),
)

module _ (hmac : List ℕ → List ℕ → List ℕ) where
  derive_token_total :
      (m : GuestResultTokenMetadata) (key : List ℕ)
      → IsSnapshot m
      → is_valid_key key ≡ true
      → (message : List ℕ) × (derive_token hmac m key ≡ some (encode_base64url (hmac key message)))
  unfolding derive_token
  derive_token_total m key h k =
      let (message, e) = encode_message_total m h.0 in
      (message, rw (k, snapshot-metadata_value m h, e))

  -- The MAC has 32 bytes, whatever its key and message.
  abbrev pub IsMac : Type 0
  IsMac = (key message : List ℕ) → (length (hmac key message) ≡ 32) × AreBytes (hmac key message)

  -- When a text is accepted for a snapshot at a time.
  pub record Accepts (t : Text) (m : GuestResultTokenMetadata) (keyring : ℕ → Option (List ℕ))
      (now : ℕ) : Type 0 where
    pub live : now < m.result_access_expires_at_unix_seconds
    pub not_revoked : m.result_access_revoked_at_unix_seconds ≡ none
    pub key : List ℕ
    pub in_keyring : keyring m.key_version ≡ some key
    pub key_long : is_valid_key key ≡ true
    pub derived : derive_token hmac m key ≡ some t

  compare_derived :
      IsMac
      → (t : Text) (m : GuestResultTokenMetadata) (keyring : ℕ → Option (List ℕ)) (key : List ℕ)
      → IsSnapshot m
      → keyring m.key_version ≡ some key
      → is_valid_key key ≡ true
      → (compare_token hmac t m keyring ≡ some true) ↔ (derive_token hmac m key ≡ some t)
  unfolding compare_token
  compare_derived mac t m keyring key s e k =
      let (message, d) = derive_token_total m key s k in
      let (size, range) = mac key message in
      let value : List ℕ = hmac key message in
      let back = decode-encode_base64url value range in
      (
        λ h. elim (Option-cases (decode_canonical_base64url t)) [
          | inl bad ↦ ground arith
          | inr (supplied, good) ↦ ground (
            arith,
            encode-decode_canonical t good,
            text_eq_sound supplied (decode_base64url (encode_base64url value)),
          )
        ],
        λ h.
            let same : t ≡ encode_base64url value = ground arith in
            let canonical = decode_canonical-encode value range (omega arith) in
            rw same (ground (arith, text_eq_refl value)),
      )

  compare_has_key :
      (t : Text) (m : GuestResultTokenMetadata) (keyring : ℕ → Option (List ℕ))
      → compare_token hmac t m keyring ≡ some true
      → (key : List ℕ) × (keyring m.key_version ≡ some key) × (is_valid_key key ≡ true)
  unfolding compare_token
  compare_has_key t m keyring h = elim (Option-cases (keyring m.key_version)) [
    | inl absent ↦ absurd (ground arith)
    | inr (key, present) ↦ (key, present, ground arith)
  ]

  length_of_token :
      IsMac
      → (t : Text) (m : GuestResultTokenMetadata) (key : List ℕ) → IsSnapshot m
      → is_valid_key key ≡ true
      → derive_token hmac m key ≡ some t
      → length t ≡ 43
  length_of_token mac t m key s k h =
      let (message, d) = derive_token_total m key s k in
      let same : t ≡ encode_base64url (hmac key message) = ground arith in
      rw same (omega (arith, length-encode_base64url (hmac key message), (mac key message).0))

  -- With a MAC of 32 bytes, a text is accepted for a metadata snapshot at a time exactly when the
  -- result's access is neither revoked nor expired, the keyring has a key of at least 32 bytes for
  -- the version, and the text is the token that this key derives.
  pub verify_token_iff :
      IsMac
      → (t : Text) (v : Value) (m : GuestResultTokenMetadata) (keyring : ℕ → Option (List ℕ))
        (now : ℕ)
      → snapshot_metadata v ≡ some m
      → now ≤ uint64_max
      → (verify_token hmac (string t) v keyring (bigint now) ≡ some true) ↔ Accepts t m keyring now
  unfolding verify_token
  verify_token_iff mac t v m keyring now sv u =
      let s = snapshot_metadata-IsSnapshot v sv in
      (
        λ h.
            let compared : compare_token hmac t m keyring ≡ some true = ground arith in
            let (key, present, long) = compare_has_key t m keyring compared in
            record {
              live = ground arith;
              not_revoked = ground arith;
              key = key;
              in_keyring = present;
              key_long = long;
              derived = (compare_derived mac t m keyring key s present long).0 compared;
            },
        λ a.
            let compared =
              (compare_derived mac t m keyring a.key s a.in_keyring a.key_long).1 a.derived in
            ground (arith, length_of_token mac t m a.key s a.key_long a.derived),
      )

  compare_token-ne-none :
      IsMac
      → (t : Text) (m : GuestResultTokenMetadata) (keyring : ℕ → Option (List ℕ)) → IsSnapshot m
      → compare_token hmac t m keyring ≢ none
  unfolding compare_token
  compare_token-ne-none mac t m keyring s h = elim (Option-cases (keyring m.key_version)) [
    | inl absent ↦ ground arith
    | inr (key, present) ↦ elim (Bool-cases (is_valid_key key)) [
      | inl long ↦
          let (message, d) = derive_token_total m key s long in
          let (size, range) = mac key message in
          ground (arith, decode-encode_base64url (hmac key message) range)
      | inr short ↦ ground arith
    ]
  ]

  -- With a MAC of 32 bytes the comparison never throws: `verifyGuestResultToken` answers true or
  -- false for any arguments.
  pub verify_token-ne-none :
      IsMac
      → (t v now : Value) (keyring : ℕ → Option (List ℕ)) → verify_token hmac t v keyring now ≢ none
  unfolding verify_token
  verify_token-ne-none mac (string t) v now keyring h = elim (Option-cases (snapshot_metadata v)) [
    | inl bad ↦ ground arith
    | inr (m, good) ↦
        ground (arith, compare_token-ne-none mac t m keyring (snapshot_metadata-IsSnapshot v good))
  ]
  verify_token-ne-none mac _ v now keyring h = cc
