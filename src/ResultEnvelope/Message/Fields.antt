-- ===== src/ResultEnvelope/Message/Fields.antt =====
-- Texts as bytes: identifiers and principals are ASCII, and a digest is the 32 bytes of its digits.
use outscan.Prelude.{
  ◌>>=◌, Option, none, List, [], ◌<◌, ◌+◌, ◌*◌, ℕ, zero, suc, ◌+◌, ◌-◌, ◌*◌, ◌/◌, ◌%◌, ◌≤◌, ◌<◌,
  ◌≡◌, refl, sym, ap, inl, inr, Bool, true, ◌&&◌, some, [], ◌∷◌, ◌++◌, all, length, ltb, leb, ◌==◌,
  arith, and-eq-true, Bool-cases, Option-cases,
}
use mathlib.Core.Path.{subst}
use outscan.Js.{Text, codes}
use outscan.Js.Patterns.{
  is_identifier, is_principal, is_digest, is_word, is_principal_char, is_hex, is_alnum, is_digit,
  strip_prefix, is_hex_digest,
}
use outscan.GuestCrypto.Binary.{utf8, encode_hex, decode_hex, hex_char, hex_value}
use outscan.GuestCrypto.Binary.Decoding.{AreBytes}
use outscan.ResultEnvelope.{digest_bytes}

abbrev is_ascii : ℕ → Bool
is_ascii c = ltb c 128

word-ascii : (cs : Text) → all is_word cs ≡ true → all is_ascii cs ≡ true
word-ascii [] h = refl
word-ascii (c ∷ cs) h =
    let (here, later) = and-eq-true (is_word c) (all is_word cs) h in
    ground (arith, here, word-ascii cs later)

principal-ascii : (cs : Text) → all is_principal_char cs ≡ true → all is_ascii cs ≡ true
principal-ascii [] h = refl
principal-ascii (c ∷ cs) h =
    let (here, later) = and-eq-true (is_principal_char c) (all is_principal_char cs) h in
    ground (arith, here, principal-ascii cs later)

utf8-ascii : (t : Text) → all is_ascii t ≡ true → utf8 t ≡ t
unfolding utf8
utf8-ascii [] h = refl
utf8-ascii (c ∷ []) h = ground arith
utf8-ascii (c ∷ d ∷ r) h =
    let (here, later) = and-eq-true (is_ascii c) (all is_ascii (d ∷ r)) h in
    ground (arith, here, utf8-ascii (d ∷ r) later)

pub identifier-utf8 : (t : Text) → is_identifier t ≡ true → (utf8 t ≡ t) × (length t ≤ 128)
unfolding is_identifier
identifier-utf8 [] h = cc
identifier-utf8 (c ∷ cs) h =
    let (front, short) = and-eq-true (is_alnum c && all is_word cs) (leb (length cs) 127) h in
    let (here, later) = and-eq-true (is_alnum c) (all is_word cs) front in
    (utf8-ascii (c ∷ cs) (ground (arith, here, word-ascii cs later)), ground (arith, short))

pub principal-utf8 : (t : Text) → is_principal t ≡ true → (utf8 t ≡ t) × (length t ≤ 128)
unfolding is_principal
principal-utf8 [] h = cc
principal-utf8 (c ∷ cs) h =
    let (front, short) =
      and-eq-true (is_alnum c && all is_principal_char cs) (leb (length cs) 127) h in
    let (here, later) = and-eq-true (is_alnum c) (all is_principal_char cs) front in
    (utf8-ascii (c ∷ cs) (ground (arith, here, principal-ascii cs later)), ground (arith, short))

hex_digit :
    (c : ℕ) → is_hex c ≡ true → (n : ℕ) × (hex_value c ≡ some n) × (n < 16) × (hex_char n ≡ c)
hex_digit c h = elim (Bool-cases (is_digit c)) [
  | inl digit ↦ (c - b'0', ground arith, ground arith, ground arith)
  | inr letter ↦ (c - b'a' + 10, ground arith, ground arith, ground arith)
]

-- Two digits are one byte, and its digits are these.
decode_pair :
    (a b : ℕ) (r : Text)
    → is_hex a ≡ true
    → is_hex b ≡ true
    → (n : ℕ) × (decode_hex (a ∷ b ∷ r) ≡ n ∷ decode_hex r)
      × (hex_char (n / 16) ≡ a)
      × (hex_char (n % 16) ≡ b)
unfolding decode_hex
decode_pair a b r ha hb =
    let (high, a_is, high_small, char_a) = hex_digit a ha in
    let (low, b_is, low_small, char_b) = hex_digit b hb in
    let top : (high * 16 + low) / 16 ≡ high = omega arith in
    let bottom : (high * 16 + low) % 16 ≡ low = omega arith in
    (high * 16 + low, ground (arith, a_is, b_is), rw top char_a, rw bottom char_b)

encode-decode_hex :
    (k : ℕ) (t : Text)
    → all is_hex t ≡ true
    → length t ≡ 2 * k
    → (encode_hex (decode_hex t) ≡ t) × (length (decode_hex t) ≡ k)
unfolding encode_hex decode_hex
encode-decode_hex zero [] h e = (refl, refl)
encode-decode_hex (suc k) [] h e = ground arith
encode-decode_hex k (a ∷ []) h e = ground arith
encode-decode_hex zero (a ∷ b ∷ r) h e = ground arith
encode-decode_hex (suc k) (a ∷ b ∷ r) h e =
    let (ha, rest) = and-eq-true (is_hex a) (all is_hex (b ∷ r)) h in
    let (hb, hr) = and-eq-true (is_hex b) (all is_hex r) rest in
    let (n, same, char_a, char_b) = decode_pair a b r ha hb in
    let (again, count) = encode-decode_hex k r hr (omega arith) in
    (rw (same, char_a, char_b, again), rw (same, count))

strip_prefix-append : (p t : Text) {rest : Text} → strip_prefix p t ≡ some rest → t ≡ p ++ rest
unfolding strip_prefix
strip_prefix-append [] t h = cc
strip_prefix-append (a ∷ p) [] h = cc
strip_prefix-append (a ∷ p) (c ∷ t) {rest} h =
    ground (arith, h, strip_prefix-append p t {rest = rest})

-- A digest is determined by its bytes.
pub digest_bytes_lem :
    (t : Text)
    → is_digest (codes "sha256:") t ≡ true
    → (codes "sha256:" ++ encode_hex (digest_bytes t) ≡ t) × (length (digest_bytes t) ≡ 32)
unfolding is_digest
digest_bytes_lem t h = elim (Option-cases (strip_prefix (codes "sha256:") t)) [
  | inl missing ↦ ground (arith, missing)
  | inr (rest, found) ↦
      let valid : is_hex_digest (some rest) ≡ true = subst (λ o. is_hex_digest o ≡ true) found h in
      let (long, hex) = and-eq-true (length rest == 64) (all is_hex rest) valid in
      let (digits, count) = encode-decode_hex 32 rest hex (ground (arith, long)) in
      let same : t ≡ codes "sha256:" ++ rest = strip_prefix-append (codes "sha256:") t found in
      (
        subst (λ x. codes "sha256:" ++ encode_hex (digest_bytes x) ≡ x) (sym same)
            (ap (λ d. codes "sha256:" ++ d) digits),
        subst (λ x. length (digest_bytes x) ≡ 32) (sym same) count,
      )
]

pair_value :
    (a b n : ℕ)
    → (do high ← hex_value a; low ← hex_value b; some (high * 16 + low)) ≡ some n
    → n < 256
pair_value a b n h = ground (arith, h)

byte_before :
    (o : Option ℕ) (rest : List ℕ)
    → AreBytes rest
    → ((n : ℕ) → o ≡ some n → n < 256)
    → AreBytes (elim o [ none ↦ [] | some byte ↦ byte ∷ rest ])
byte_before none rest h small = tt
byte_before (some n) rest h small = (small n refl, h)

pub decode_hex-AreBytes : (t : Text) → AreBytes (decode_hex t)
unfolding decode_hex
decode_hex-AreBytes [] = tt
decode_hex-AreBytes (a ∷ []) = tt
decode_hex-AreBytes (a ∷ b ∷ r) = byte_before _ _ (decode_hex-AreBytes r) (pair_value a b)
