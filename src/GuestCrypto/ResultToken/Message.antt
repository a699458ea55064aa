-- ===== src/GuestCrypto/ResultToken/Message.antt =====
-- The message under the MAC determines the fields that it stands for.
use outscan.Prelude.{
  ℕ, ◌≡◌, refl, sym, ◌∙◌, Bool, true, false, if◌then◌else◌, Option, none, some, List, [], ◌++◌,
  drop, ◌>>=◌,
}
use mathlib.Core.Path.{subst}
use outscan.GuestCrypto.Binary.{utf8, u64be, length_prefix}
use outscan.GuestCrypto.Binary.Decoding.{
  read64, read_prefixed, read_prefixed-length_prefix, read64-u64be,
}
use outscan.GuestCrypto.ResultToken.{GuestResultTokenMetadata, encode_message, token_domain}

-- The fields that a message stands for.
abbrev pub SignedFields : Type 0
SignedFields = record { id : List ℕ; version : ℕ; nonce : List ℕ; expires_at : ℕ }

abbrev pub signed_fields : GuestResultTokenMetadata → SignedFields
signed_fields m = record {
  id = utf8 m.guest_scan_id;
  version = m.token_version;
  nonce = m.token_nonce;
  expires_at = m.result_access_expires_at_unix_seconds;
}

abbrev read_message : List ℕ → SignedFields
read_message bs =
    let (id, r) = read_prefixed (drop 30 bs) in
    let (version, r') = read64 r in
    let (nonce, r'') = read_prefixed r' in
    let (expires_at, _) = read64 r'' in
    record { id = id; version = version; nonce = nonce; expires_at = expires_at }

else_branch {ℓ} :
    {A : Type ℓ} (b : Bool) (o : Option A) {a : A} → (if b then none else o) ≡ some a → o ≡ some a
else_branch true o h = cc
else_branch false o h = h

-- Behind the domain the message is read field by field.
read_parts :
    (m : GuestResultTokenMetadata) {a v n e : List ℕ}
    → length_prefix (utf8 m.guest_scan_id) ≡ some a
    → u64be m.token_version ≡ some v
    → length_prefix m.token_nonce ≡ some n
    → u64be m.result_access_expires_at_unix_seconds ≡ some e
    → read_message (token_domain ++ (a ++ (v ++ (n ++ (e ++ []))))) ≡ signed_fields m
read_parts m {v} {n} {e} ha hv hn he = rw (
  read_prefixed-length_prefix (utf8 m.guest_scan_id) (v ++ (n ++ (e ++ []))) ha,
  read64-u64be m.token_version (n ++ (e ++ [])) hv,
  read_prefixed-length_prefix m.token_nonce (e ++ []) hn,
  read64-u64be m.result_access_expires_at_unix_seconds [] he,
)

-- The parts of a message that was encoded.
message_parts :
    (m : GuestResultTokenMetadata) {bs : List ℕ}
    → encode_message m ≡ some bs
    → (a v n e : List ℕ) × (length_prefix (utf8 m.guest_scan_id) ≡ some a)
      × (u64be m.token_version ≡ some v)
      × (length_prefix m.token_nonce ≡ some n)
      × (u64be m.result_access_expires_at_unix_seconds ≡ some e)
      × (token_domain ++ (a ++ (v ++ (n ++ (e ++ [])))) ≡ bs)
unfolding encode_message
message_parts m h =
    go (length_prefix (utf8 m.guest_scan_id)) (u64be m.token_version) (length_prefix m.token_nonce)
      (u64be m.result_access_expires_at_unix_seconds) (else_branch _ _ h)
  where
    go :
        {bs : List ℕ} (oa ov on oe : Option (List ℕ))
        → (do a ← oa; v ← ov; n ← on; e ← oe; some (token_domain ++ (a ++ (v ++ (n ++ (e ++ []))))))
          ≡ some bs
        → (a v n e : List ℕ) × (oa ≡ some a)
          × (ov ≡ some v)
          × (on ≡ some n)
          × (oe ≡ some e)
          × (token_domain ++ (a ++ (v ++ (n ++ (e ++ [])))) ≡ bs)
    go (some a) (some v) (some n) (some e) h = (a, v, n, e, refl, refl, refl, refl, cc)
    go none ov on oe h = cc
    go (some a) none on oe h = cc
    go (some a) (some v) none oe h = cc
    go (some a) (some v) (some n) none h = cc

read-encode_message :
    (m : GuestResultTokenMetadata) {bs : List ℕ}
    → encode_message m ≡ some bs
    → read_message bs ≡ signed_fields m
read-encode_message m h =
    let (a, v, n, e, ha, hv, hn, he, same) = message_parts m h in
    subst (λ x. read_message x ≡ signed_fields m) same (read_parts m ha hv hn he)

-- Two metadata records that are encoded to the same message agree in every field that the message
-- is meant to bind: the bytes of the scan's id, the version, the nonce and the expiry.
pub encode_message-injective :
    (m m' : GuestResultTokenMetadata) {bs : List ℕ}
    → encode_message m ≡ some bs
    → encode_message m' ≡ some bs
    → signed_fields m ≡ signed_fields m'
encode_message-injective m m' h h' = sym (read-encode_message m h) ∙ read-encode_message m' h'
