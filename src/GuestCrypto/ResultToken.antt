-- ===== src/GuestCrypto/ResultToken.antt =====
-- The result token of a guest scan: apps/api/src/guest-crypto/result-token.ts. HMAC-SHA-256 is the
-- parameter `hmac`, of a key and a message.
pub mod Message
pub mod Verification
use outscan.Prelude.{
  ℕ, suc, ◌+◌, ◌≤◌, ◌≡◌, refl, Bool, true, false, not, ◌&&◌, ◌||◌, Option, none, some, List, [],
  ◌∷◌, ◌++◌, ltb, leb, ◌==◌, if◌then◌else◌, length, ◌>>=◌, ◌>>◌, guard, String,
}
use outscan.Js.{
  Text, codes, Value, null, number, bigint, string, bytes, entry, get, exact_record, as_string,
  as_u64, as_bytes, text_eq, object, end, Entries,
}
use outscan.GuestCrypto.Binary.{
  uint32_max, utf8, u64be, length_prefix, encode_base64url, decode_base64url,
  decode_canonical_base64url,
}

abbrev token_domain : List ℕ
token_domain = codes "OUTSCAN:GUEST_RESULT_TOKEN:v1" ++ 0 ∷ []

abbrev metadata_keys : List String
metadata_keys =
    "guest_scan_id" ∷ "token_version" ∷ "token_nonce" ∷ "key_version"
    ∷ "result_access_expires_at_unix_seconds" ∷ "result_access_revoked_at_unix_seconds" ∷ []

pub record GuestResultTokenMetadata : Type 0 where
  pub guest_scan_id : Text
  pub token_version : ℕ
  pub token_nonce : List ℕ
  pub key_version : ℕ
  pub result_access_expires_at_unix_seconds : ℕ
  pub result_access_revoked_at_unix_seconds : Option ℕ

abbrev pub is_valid_key : List ℕ → Bool
is_valid_key key = leb 32 (length key)

-- `typeof value === "number"` and `isU32(value)`.
abbrev pub as_u32 : Value → Option ℕ
as_u32 (number n) = if leb n uint32_max then some n else none
as_u32 _ = none

-- `value === null || isU64(value)`.
abbrev pub as_u64_or_null : Value → Option (Option ℕ)
as_u64_or_null null = some none
as_u64_or_null v = do n ← as_u64 v; some (some n)

-- The tests on the six fields.
unfoldable pub check_metadata : Entries → Option GuestResultTokenMetadata
check_metadata input = do
  scan_id ← as_string (get "guest_scan_id" input)
  guard (leb 1 (length (utf8 scan_id)) && leb (length (utf8 scan_id)) 512)
  version ← as_u64 (get "token_version" input)
  nonce ← as_bytes (get "token_nonce" input)
  guard (length nonce == 32)
  key ← as_u32 (get "key_version" input)
  expires_at ← as_u64 (get "result_access_expires_at_unix_seconds" input)
  revoked_at ← as_u64_or_null (get "result_access_revoked_at_unix_seconds" input)
  some (record {
    guest_scan_id = scan_id;
    token_version = version;
    token_nonce = nonce;
    key_version = key;
    result_access_expires_at_unix_seconds = expires_at;
    result_access_revoked_at_unix_seconds = revoked_at;
  })

unfoldable pub snapshot_metadata : Value → Option GuestResultTokenMetadata
unfolding check_metadata
snapshot_metadata value = do input ← exact_record metadata_keys value; check_metadata input

abbrev pub revoked_value : Option ℕ → Value
revoked_value none = null
revoked_value (some t) = bigint t

-- The object that stands for the metadata, as the source passes it on.
abbrev pub metadata_value : GuestResultTokenMetadata → Value
metadata_value m = object (
    entry "guest_scan_id" (string m.guest_scan_id) (
      entry "token_version" (bigint m.token_version) (
        entry "token_nonce" (bytes m.token_nonce) (
          entry "key_version" (number m.key_version) (
            entry "result_access_expires_at_unix_seconds"
              (bigint m.result_access_expires_at_unix_seconds)
              (entry "result_access_revoked_at_unix_seconds"
                (revoked_value m.result_access_revoked_at_unix_seconds) end))))))

-- `none` where the source throws a RangeError.
unfoldable pub encode_message : GuestResultTokenMetadata → Option (List ℕ)
encode_message metadata =
    let scan_id = utf8 metadata.guest_scan_id in
    if length scan_id == 0 || ltb 512 (length scan_id) || not (length metadata.token_nonce == 32)
    then none
    else (do
      id_part ← length_prefix scan_id
      version_part ← u64be metadata.token_version
      nonce_part ← length_prefix metadata.token_nonce
      expiry_part ← u64be metadata.result_access_expires_at_unix_seconds
      some (token_domain ++ (id_part ++ (version_part ++ (nonce_part ++ (expiry_part ++ []))))))

module _ (hmac : List ℕ → List ℕ → List ℕ) where
  -- `none` where the source throws.
  unfoldable pub derive_token : GuestResultTokenMetadata → List ℕ → Option Text
  derive_token metadata key = if not (is_valid_key key) then none else (do
    snapshot ← snapshot_metadata (metadata_value metadata)
    message ← encode_message snapshot
    some (encode_base64url (hmac key message)))

  -- The part of `verifyGuestResultToken` behind the tests on its arguments. `timingSafeEqual` is
  -- equality of buffers of one length; on two lengths it throws, which `none` stands for.
  unfoldable pub compare_token :
      Text → GuestResultTokenMetadata → (ℕ → Option (List ℕ)) → Option Bool
  unfolding derive_token
  compare_token supplied_token snapshot keyring = elim (decode_canonical_base64url supplied_token) [
    | none ↦ some false
    | some supplied ↦
        if not (length supplied == 32) then some false else (elim (keyring snapshot.key_version) [
          | none ↦ some false
          | some key ↦
              if not (is_valid_key key) then some false else (elim (derive_token snapshot key) [
                | none ↦ some false
                | some token ↦
                    let expected = decode_base64url token in
                    if length expected == length supplied
                    then some (text_eq supplied expected)
                    else none
              ])
        ])
  ]

  abbrev is_revoked : Option ℕ → Bool
  is_revoked none = false
  is_revoked (some _) = true

  -- `keyring` is the map's `get`, `none` where it has no key or throws.
  unfoldable pub verify_token : Value → Value → (ℕ → Option (List ℕ)) → Value → Option Bool
  verify_token supplied_token metadata keyring now_unix_seconds = elim (as_string supplied_token) [
    | none ↦ some false
    | some token ↦
        if not (length token == 43) then some false else (elim (snapshot_metadata metadata) [
          | none ↦ some false
          | some snapshot ↦ elim (as_u64 now_unix_seconds) [
            | none ↦ some false
            | some now ↦
                if is_revoked snapshot.result_access_revoked_at_unix_seconds
                  || leb snapshot.result_access_expires_at_unix_seconds now
                then some false
                else compare_token token snapshot keyring
          ]
        ])
  ]
