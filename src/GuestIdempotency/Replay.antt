-- ===== src/GuestIdempotency/Replay.antt =====
-- A repeated request gets the scan that it created, and nobody else's.
use outscan.Prelude.{ℕ, ◌+◌, ◌≤◌, ◌<◌, ◌≡◌, Option, none, some, List, ◌++◌, arith, >>=-eq-some}
use outscan.Js.{Text, Value, Entries, exact_record, uint64_max}
use outscan.GuestCrypto.ResultToken.{derive_token}
use outscan.GuestIdempotency.{
  GuestIdempotencyRequest, GuestIdempotencyRecord, session_prefix, guest_scan_endpoint_operation,
  parse_fields, parse_record, record_keys,
}

-- What a parsed record guarantees.
pub record IsConsistent (r : GuestIdempotencyRecord) : Type 0 where
  pub expires : r.idempotency_expires_at_unix_seconds ≡ r.created_at_unix_seconds + 1800
  pub token_expires :
      r.token_metadata.result_access_expires_at_unix_seconds ≡ r.idempotency_expires_at_unix_seconds
  pub u64 : r.idempotency_expires_at_unix_seconds ≤ uint64_max
  pub operation : r.endpoint_operation ≡ guest_scan_endpoint_operation

parse_fields-IsConsistent :
    (input : Entries) {r : GuestIdempotencyRecord} → parse_fields input ≡ some r → IsConsistent r
unfolding parse_fields
parse_fields-IsConsistent input h = ground arith

pub parse_record-IsConsistent :
    (v : Value) {r : GuestIdempotencyRecord} → parse_record v ≡ some r → IsConsistent r
unfolding parse_record
parse_record-IsConsistent v h =
    let (input, _, fields) = >>=-eq-some (exact_record record_keys v) parse_fields h in
    parse_fields-IsConsistent input fields

-- A record belongs to a request if it was stored for the same session and key.
abbrev pub Matches : GuestIdempotencyRequest → GuestIdempotencyRecord → Type 0
Matches q r =
    (r.principal_scope ≡ session_prefix ++ q.guest_session_scope)
    × (r.idempotency_key ≡ q.idempotency_key)

module _ (hmac : List ℕ → List ℕ → List ℕ) (keyring : ℕ → Option (List ℕ)) where
  -- What has to hold for a replay of a token.
  pub record MayReplay (q : GuestIdempotencyRequest) (r : GuestIdempotencyRecord) (token : Text)
      : Type 0 where
    pub matches : Matches q r
    pub operation : r.endpoint_operation ≡ guest_scan_endpoint_operation
    pub live : q.now_unix_seconds < r.idempotency_expires_at_unix_seconds
    pub same_hash : r.request_hash ≡ q.request_hash
    pub not_revoked : r.token_metadata.result_access_revoked_at_unix_seconds ≡ none
    pub key : List ℕ
    pub in_keyring : keyring r.token_metadata.key_version ≡ some key
    pub derived : derive_token hmac r.token_metadata key ≡ some token

  -- What is handed out with the token.
  abbrev pub Hands : GuestIdempotencyRequest → GuestIdempotencyRecord → Text → ℕ → ℕ → Type 0
  Hands q r id expires_at left =
      (id ≡ r.token_metadata.guest_scan_id)
      × (expires_at ≡ r.idempotency_expires_at_unix_seconds)
      × (left + q.now_unix_seconds ≡ expires_at)
      × (0 < left)
