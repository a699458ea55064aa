-- ===== src/GuestCrypto/Tests.antt =====
-- Runs of apps/api/src/guest-crypto, and the theorems at concrete inputs. HMAC-SHA-256 is
-- instantiated by a checksum of 32 bytes.
use outscan.Prelude.{
  ℕ, ◌+◌, ◌%◌, ◌≡◌, refl, ◌≢◌, ◌↔◌, true, ◌==◌, if◌then◌else◌, Option, none, some, List, [], ◌∷◌,
  ◌++◌, arith,
}
use outscan.Js.{Text, codes, text_eq, string, bigint, null, exact_record, get, undefined}
use outscan.GuestCrypto.Binary.{
  utf8, u64be, length_prefix, encode_base64url, decode_base64url, decode_canonical_base64url,
}
use outscan.GuestCrypto.ResultToken.{
  GuestResultTokenMetadata, metadata_value, snapshot_metadata, encode_message, derive_token,
  verify_token,
}
use outscan.GuestCrypto.ResultToken.Message.{signed_fields, encode_message-injective}
use outscan.GuestCrypto.ResultToken.Verification.{
  IsMac, Accepts, verify_token_iff, verify_token-ne-none,
}

sum : List ℕ → ℕ
sum [] = 0
sum (b ∷ bs) = b + sum bs

abbrev zeros : List ℕ
zeros =
    0 ∷ 0 ∷ 0 ∷ 0 ∷ 0 ∷ 0 ∷ 0 ∷ 0 ∷ 0 ∷ 0 ∷ 0 ∷ 0 ∷ 0 ∷ 0 ∷ 0 ∷ 0 ∷ 0 ∷ 0 ∷ 0 ∷ 0 ∷ 0 ∷ 0 ∷ 0 ∷ 0
    ∷ 0 ∷ 0 ∷ 0 ∷ 0 ∷ 0 ∷ 0 ∷ 0 ∷ []

unfoldable pub checksum : List ℕ → List ℕ → List ℕ
unfolding sum
checksum key message = sum (key ++ message) % 256 ∷ zeros

pub checksum-IsMac : IsMac checksum
unfolding checksum
checksum-IsMac key message = (refl, omega arith)

abbrev pub nonce : List ℕ
nonce = 7 ∷ zeros

abbrev pub key : List ℕ
key = 9 ∷ zeros

abbrev pub keyring : ℕ → Option (List ℕ)
keyring version = if version == 3 then some key else none

abbrev pub metadata : GuestResultTokenMetadata
metadata = record {
  guest_scan_id = codes "scan-1";
  token_version = 1;
  token_nonce = nonce;
  key_version = 3;
  result_access_expires_at_unix_seconds = 2800;
  result_access_revoked_at_unix_seconds = none;
}

abbrev message : List ℕ
message =
    codes "OUTSCAN:GUEST_RESULT_TOKEN:v1"
    ++ 0 ∷ 0 ∷ 0 ∷ 0 ∷ 6 ∷ codes "scan-1"
    ++ 0 ∷ 0 ∷ 0 ∷ 0 ∷ 0 ∷ 0 ∷ 0 ∷ 1 ∷ 0 ∷ 0 ∷ 0 ∷ 32 ∷ nonce
    ++ 0 ∷ 0 ∷ 0 ∷ 0 ∷ 0 ∷ 0 ∷ 10 ∷ 240 ∷ []

encodes :
    (encode_message metadata ≡ some message)
    × (snapshot_metadata (metadata_value metadata) ≡ some metadata)
unfolding encode_message snapshot_metadata utf8 length_prefix u64be exact_record get
encodes = (refl, refl)

encode_message-injective_example : signed_fields metadata ≡ signed_fields metadata
encode_message-injective_example = encode_message-injective metadata metadata encodes.0 encodes.0

-- Texts outside the ASCII range: two, three and four bytes, and a lone surrogate.
utf8_tests :
    (utf8 (0xe9 ∷ 0x20ac ∷ 0xd83d ∷ 0xde00 ∷ [])
      ≡ 0xc3 ∷ 0xa9 ∷ 0xe2 ∷ 0x82 ∷ 0xac ∷ 0xf0 ∷ 0x9f ∷ 0x98 ∷ 0x80 ∷ [])
    × (utf8 (0xd83d ∷ []) ≡ 0xef ∷ 0xbf ∷ 0xbd ∷ [])
unfolding utf8
utf8_tests = (refl, refl)

base64url_tests :
    (encode_base64url (0xfb ∷ 0xff ∷ []) ≡ codes "-_8")
    × (decode_canonical_base64url (codes "-_8") ≡ some (0xfb ∷ 0xff ∷ []))
    × (decode_canonical_base64url (codes "-_9") ≡ none)
unfolding encode_base64url decode_canonical_base64url decode_base64url text_eq
base64url_tests = (refl, refl, refl)

abbrev token : Text
token = codes "EgAAAAAAAAAAAAAAAAAAAAAAAAAAAAAAAAAAAAAAAAA"

derives : derive_token checksum metadata key ≡ some token
unfolding derive_token checksum encode_message snapshot_metadata utf8 length_prefix u64be
    exact_record get encode_base64url
derives = refl

verify_token_iff_example :
    (verify_token checksum (string token) (metadata_value metadata) keyring (bigint 2799)
      ≡ some true)
    ↔ Accepts checksum token metadata keyring 2799
verify_token_iff_example =
    verify_token_iff checksum checksum-IsMac token (metadata_value metadata) metadata keyring 2799
      encodes.1 (omega arith)

verify_token-ne-none_example : verify_token checksum null undefined keyring null ≢ none
verify_token-ne-none_example =
    verify_token-ne-none checksum checksum-IsMac null undefined null keyring
