-- ===== src/GuestIdempotency/Tests.antt =====
-- Runs of apps/api/src/guest-idempotency, and the theorems at concrete inputs. The MAC is a constant
-- function, which the theorems of this component allow.
use outscan.Prelude.{ℕ, ◌≡◌, refl, Option, none, some, List, [], ◌∷◌, ◌++◌, if◌then◌else◌, ◌==◌}
use outscan.Js.{Text, codes, Value, string, bigint, null, object, entry, end, exact_record, get}
use outscan.GuestCrypto.Binary.{utf8, u64be, length_prefix, encode_base64url}
use outscan.GuestCrypto.ResultToken.{
  GuestResultTokenMetadata, metadata_value, snapshot_metadata, encode_message, derive_token,
}
use outscan.GuestIdempotency.{
  GuestIdempotencyRequest, GuestIdempotencyRecord, create, admitted, guest_scan_endpoint_operation,
  parse_request, lookup_for, decide_guest_scan_idempotency,
}

abbrev mac : List ℕ → List ℕ → List ℕ
mac key message =
    1 ∷ 2 ∷ 3 ∷ 4 ∷ 5 ∷ 6 ∷ 7 ∷ 8 ∷ 1 ∷ 2 ∷ 3 ∷ 4 ∷ 5 ∷ 6 ∷ 7 ∷ 8 ∷ 1 ∷ 2 ∷ 3 ∷ 4 ∷ 5 ∷ 6 ∷ 7 ∷ 8
    ∷ 1 ∷ 2 ∷ 3 ∷ 4 ∷ 5 ∷ 6 ∷ 7 ∷ 8 ∷ []

abbrev keyring : ℕ → Option (List ℕ)
keyring version = if version == 3 then some (mac [] []) else none

abbrev scope : Text
scope = codes "sha256:0123456789abcdef0123456789abcdef0123456789abcdef0123456789abcdef"

abbrev hash : Text
hash = codes "sha256:aaaaaaaaaaaaaaaaaaaaaaaaaaaaaaaaaaaaaaaaaaaaaaaaaaaaaaaaaaaaaaaa"

abbrev request : ℕ → GuestIdempotencyRequest
request now = record {
  guest_session_scope = scope;
  idempotency_key = codes "key-1";
  request_hash = hash;
  now_unix_seconds = now;
}

abbrev request_value : ℕ → Value
request_value now = object (
    entry "guest_session_scope" (string scope) (
      entry "idempotency_key" (string (codes "key-1"))
        (entry "request_hash" (string hash) (entry "now_unix_seconds" (bigint now) end))))

abbrev metadata : GuestResultTokenMetadata
metadata = record {
  guest_scan_id = codes "scan-1";
  token_version = 1;
  token_nonce = mac [] [];
  key_version = 3;
  result_access_expires_at_unix_seconds = 2800;
  result_access_revoked_at_unix_seconds = none;
}

abbrev stored : GuestIdempotencyRecord
stored = record {
  principal_scope = codes "GUEST_SESSION:" ++ scope;
  endpoint_operation = guest_scan_endpoint_operation;
  idempotency_key = codes "key-1";
  request_hash = hash;
  created_at_unix_seconds = 1000;
  idempotency_expires_at_unix_seconds = 2800;
  token_metadata = metadata;
}

abbrev stored_value : Value
stored_value = object (
    entry "principal_scope" (string (codes "GUEST_SESSION:" ++ scope)) (
      entry "endpoint_operation" (string guest_scan_endpoint_operation) (
        entry "idempotency_key" (string (codes "key-1")) (
          entry "request_hash" (string hash) (
            entry "created_at_unix_seconds" (bigint 1000) (
              entry "idempotency_expires_at_unix_seconds" (bigint 2800)
                (entry "token_metadata" (metadata_value metadata) end)))))))

abbrev token : Text
token = encode_base64url (mac [] [])

derives : derive_token mac metadata (mac [] []) ≡ some token
unfolding derive_token encode_message snapshot_metadata utf8 length_prefix u64be exact_record get
derives = refl

creates :
    decide_guest_scan_idempotency mac keyring (request_value 1000) null
    ≡ admitted create (lookup_for (request 1000)) hash 2800
unfolding decide_guest_scan_idempotency parse_request
creates = refl
