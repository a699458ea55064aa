-- ===== src/GuestIdempotency.antt =====
-- The decision on a repeated guest request: apps/api/src/guest-idempotency/{model,decide}.ts.
pub mod Replay
mod Tests
use outscan.Prelude.{
  ℕ, ◌+◌, ◌-◌, ◌*◌, Bool, true, false, not, ◌&&◌, ◌||◌, Option, none, some, List, [], ◌∷◌, ◌++◌,
  String, ltb, leb, ◌==◌, if◌then◌else◌, length, all, ◌>>=◌, ◌>>◌, guard,
}
use outscan.Js.{
  Text, codes, Value, null, Entries, get, exact_record, as_string, as_u64, text_eq, uint64_max,
}
use outscan.Js.Patterns.{is_digest, is_graphic, strip_prefix}
use outscan.GuestCrypto.ResultToken.{GuestResultTokenMetadata, snapshot_metadata, derive_token}

abbrev pub guest_scan_endpoint_operation : Text
guest_scan_endpoint_operation = codes "POST:/v1/public/scans"

abbrev pub guest_idempotency_window_seconds : ℕ
guest_idempotency_window_seconds = 30 * 60

abbrev pub session_prefix : Text
session_prefix = codes "GUEST_SESSION:"

pub record GuestIdempotencyRequest : Type 0 where
  pub guest_session_scope : Text
  pub idempotency_key : Text
  pub request_hash : Text
  pub now_unix_seconds : ℕ

pub record GuestIdempotencyLookup : Type 0 where
  pub principal_scope : Text
  pub endpoint_operation : Text
  pub idempotency_key : Text

pub record GuestIdempotencyRecord : Type 0 where
  pub principal_scope : Text
  pub endpoint_operation : Text
  pub idempotency_key : Text
  pub request_hash : Text
  pub created_at_unix_seconds : ℕ
  pub idempotency_expires_at_unix_seconds : ℕ
  pub token_metadata : GuestResultTokenMetadata

pub data CreateAction : Type 0 where
  create replace_expired : CreateAction

pub data RejectionCode : Type 0 where
  invalid_request invalid_record idempotency_key_reused result_access_revoked
        result_token_unavailable :
      RejectionCode

pub data GuestIdempotencyResult : Type 0 where
  admitted :
      CreateAction
      → (lookup : GuestIdempotencyLookup) (request_hash : Text)
        (idempotency_expires_at_unix_seconds : ℕ)
      → GuestIdempotencyResult
  replay :
      (guest_scan_id result_token : Text)
      (result_access_expires_at_unix_seconds result_token_expires_in_seconds : ℕ)
      → GuestIdempotencyResult
  rejected : RejectionCode → GuestIdempotencyResult

-- /^[\x21-\x7e]{1,128}$/u
abbrev pub is_idempotency_key : Text → Bool
is_idempotency_key t = all is_graphic t && leb 1 (length t) && leb (length t) 128

abbrev request_keys : List String
request_keys = "guest_session_scope" ∷ "idempotency_key" ∷ "request_hash" ∷ "now_unix_seconds" ∷ []

abbrev pub record_keys : List String
record_keys =
    "principal_scope" ∷ "endpoint_operation" ∷ "idempotency_key" ∷ "request_hash"
    ∷ "created_at_unix_seconds" ∷ "idempotency_expires_at_unix_seconds" ∷ "token_metadata" ∷ []

-- A text of the digest form, or nothing.
abbrev as_digest : Value → Option Text
as_digest v = do t ← as_string v; guard (is_digest (codes "sha256:") t); some t

abbrev as_idempotency_key : Value → Option Text
as_idempotency_key v = do t ← as_string v; guard (is_idempotency_key t); some t

unfoldable pub parse_request : Value → Option GuestIdempotencyRequest
unfolding exact_record get is_digest
parse_request value = do
  input ← exact_record request_keys value
  scope ← as_digest (get "guest_session_scope" input)
  key ← as_idempotency_key (get "idempotency_key" input)
  hash ← as_digest (get "request_hash" input)
  now ← as_u64 (get "now_unix_seconds" input)
  some (record {
    guest_session_scope = scope;
    idempotency_key = key;
    request_hash = hash;
    now_unix_seconds = now;
  })

-- The principal scope is the prefix with a digest behind it.
abbrev as_principal_scope : Value → Option Text
as_principal_scope v = do
  t ← as_string v
  digest ← strip_prefix session_prefix t
  guard (is_digest (codes "sha256:") digest)
  some t

unfoldable pub parse_fields : Entries → Option GuestIdempotencyRecord
parse_fields input = do
  metadata ← snapshot_metadata (get "token_metadata" input)
  scope ← as_principal_scope (get "principal_scope" input)
  key ← as_idempotency_key (get "idempotency_key" input)
  hash ← as_digest (get "request_hash" input)
  operation ← as_string (get "endpoint_operation" input)
  guard (text_eq operation guest_scan_endpoint_operation)
  created_at ← as_u64 (get "created_at_unix_seconds" input)
  expires_at ← as_u64 (get "idempotency_expires_at_unix_seconds" input)
  let expected_expiry = created_at + guest_idempotency_window_seconds
  guard (leb expected_expiry uint64_max)
  guard (expected_expiry == expires_at)
  guard (expected_expiry == metadata.result_access_expires_at_unix_seconds)
  some (record {
    principal_scope = scope;
    endpoint_operation = guest_scan_endpoint_operation;
    idempotency_key = key;
    request_hash = hash;
    created_at_unix_seconds = created_at;
    idempotency_expires_at_unix_seconds = expires_at;
    token_metadata = metadata;
  })

unfoldable pub parse_record : Value → Option GuestIdempotencyRecord
unfolding exact_record get is_digest strip_prefix parse_fields snapshot_metadata
parse_record value = do input ← exact_record record_keys value; parse_fields input

unfoldable pub lookup_for : GuestIdempotencyRequest → GuestIdempotencyLookup
lookup_for request = record {
  principal_scope = session_prefix ++ request.guest_session_scope;
  endpoint_operation = guest_scan_endpoint_operation;
  idempotency_key = request.idempotency_key;
}

unfoldable pub create_decision :
    CreateAction → GuestIdempotencyRequest → GuestIdempotencyLookup → GuestIdempotencyResult
create_decision action request lookup =
    let expiry = request.now_unix_seconds + guest_idempotency_window_seconds in
    if ltb uint64_max expiry
    then rejected RejectionCode.invalid_request
    else admitted action lookup request.request_hash expiry

abbrev is_some : Option ℕ → Bool
is_some none = false
is_some (some _) = true

module _ (hmac : List ℕ → List ℕ → List ℕ) (token_keyring : ℕ → Option (List ℕ)) where
  -- The last part of the decision: the token is derived again. The keyring's `get` is `none` where
  -- it has no key or throws.
  unfoldable pub replay_decision :
      GuestIdempotencyRequest → GuestResultTokenMetadata → GuestIdempotencyResult
  replay_decision request metadata = elim (token_keyring metadata.key_version) [
    | none ↦ rejected RejectionCode.result_token_unavailable
    | some key ↦ elim (derive_token hmac metadata key) [
      | none ↦ rejected RejectionCode.result_token_unavailable
      | some token ↦
          replay metadata.guest_scan_id token metadata.result_access_expires_at_unix_seconds
            (metadata.result_access_expires_at_unix_seconds - request.now_unix_seconds)
    ]
  ]

  -- The decision on a request and a record that both have the right form.
  unfoldable pub decide_existing :
      GuestIdempotencyRequest → GuestIdempotencyRecord → GuestIdempotencyResult
  unfolding lookup_for create_decision
  decide_existing request existing =
      let lookup = lookup_for request in
      if not (text_eq existing.principal_scope lookup.principal_scope)
        || not (text_eq existing.endpoint_operation lookup.endpoint_operation)
        || not (text_eq existing.idempotency_key lookup.idempotency_key)
      then rejected RejectionCode.invalid_record
      else (if leb existing.idempotency_expires_at_unix_seconds request.now_unix_seconds
          then create_decision replace_expired request lookup
          else (if not (text_eq existing.request_hash request.request_hash)
              then rejected RejectionCode.idempotency_key_reused
              else (if is_some existing.token_metadata.result_access_revoked_at_unix_seconds
                  then rejected RejectionCode.result_access_revoked
                  else replay_decision request existing.token_metadata)))

  abbrev pub decide_record :
      GuestIdempotencyRequest → Option GuestIdempotencyRecord → GuestIdempotencyResult
  decide_record request none = rejected RejectionCode.invalid_record
  decide_record request (some existing) = decide_existing request existing

  -- `existingValue === null` is the first request; any other value has to be a record.
  abbrev pub decide_stored : GuestIdempotencyRequest → Value → GuestIdempotencyResult
  decide_stored request null = create_decision create request (lookup_for request)
  decide_stored request existing_value = decide_record request (parse_record existing_value)

  unfoldable pub decide_guest_scan_idempotency : Value → Value → GuestIdempotencyResult
  unfolding create_decision lookup_for
  decide_guest_scan_idempotency request_value existing_value = elim (parse_request request_value) [
    | none ↦ rejected RejectionCode.invalid_request
    | some request ↦ decide_stored request existing_value
  ]
