-- ===== src/GuestCrypto/Binary/Decoding.antt =====
-- The encodings can be read back, with whatever follows them.
use outscan.Prelude.{
  ℕ, ◌+◌, ◌*◌, ◌≤◌, ◌≡◌, refl, true, some, List, [], ◌∷◌, ◌++◌, arith, length, All, all, ap, ◌<◌,
  ◌/◌, ◌%◌, take, drop, take-length-append, drop-length-append,
}
use outscan.Js.{Text, uint64_max, text_eq_refl, text_eq_sound}
use outscan.GuestCrypto.Binary.{
  encode_hex, hex_char, uint32_max, be32, be64, u64be, length_prefix, base64url_char,
  base64url_value, encode_base64url, decode_base64url, is_base64url, decode_canonical_base64url,
}
use outscan.Js.Patterns.{is_hex, is_word}
use mathlib.Core.Path.{ap₂}

-- The number that four bytes stand for, the highest first, and the bytes behind them.
abbrev pub read32 : List ℕ → ℕ × List ℕ
read32 (a ∷ b ∷ c ∷ d ∷ r) = (a * 16777216 + b * 65536 + c * 256 + d, r)
read32 _ = (0, [])

-- A value behind its length, and the bytes behind it.
unfoldable pub read_prefixed : List ℕ → List ℕ × List ℕ
read_prefixed bs = let (n, r) = read32 bs in (take n r, drop n r)

unfoldable pub read64 : List ℕ → ℕ × List ℕ
read64 bs = let (high, r) = read32 bs in let (low, r') = read32 r in (high * 4294967296 + low, r')

pub read32-be32 : (n : ℕ) (r : List ℕ) → n ≤ uint32_max → read32 (be32 n ++ r) ≡ (n, r)
read32-be32 n r h = ground arith

pub read64-be64 : (n : ℕ) (r : List ℕ) → n ≤ uint64_max → read64 (be64 n ++ r) ≡ (n, r)
unfolding read64
read64-be64 n r h = ground arith

split_at_length :
    (v r : List ℕ) (n : ℕ)
    → n ≡ length v
    → ◌≡◌ {A = List ℕ × List ℕ} (take n (v ++ r), drop n (v ++ r)) (v, r)
split_at_length v r n e = rw (e, take-length-append v r, drop-length-append v r)

length_prefix-eq-some :
    (v : List ℕ) {bs : List ℕ}
    → length_prefix v ≡ some bs
    → (bs ≡ be32 (length v) ++ v) × (length v ≤ uint32_max)
unfolding length_prefix
length_prefix-eq-some v h = ground arith

-- A value of a length that fits is encoded.
pub length_prefix_total :
    (v : List ℕ) → length v ≤ uint32_max → length_prefix v ≡ some (be32 (length v) ++ v)
unfolding length_prefix
length_prefix_total v h = ground arith

pub u64be_total : (n : ℕ) → n ≤ uint64_max → u64be n ≡ some (be64 n)
unfolding u64be
u64be_total n h = ground arith

pub read_prefixed-length_prefix :
    (v r : List ℕ) {bs : List ℕ} → length_prefix v ≡ some bs → read_prefixed (bs ++ r) ≡ (v, r)
unfolding read_prefixed
read_prefixed-length_prefix v r h =
    let (e, small) = length_prefix-eq-some v h in rw e (split_at_length v r _ (omega arith))

pub read64-u64be :
    (n : ℕ) (r : List ℕ) {bs : List ℕ} → u64be n ≡ some bs → read64 (bs ++ r) ≡ (n, r)
unfolding u64be
read64-u64be n r h = ground (arith, read64-be64 n r)

-- The bytes of a list are in range.
abbrev pub AreBytes : List ℕ → Type 0
AreBytes = All (λ b. b < 256)

value_of_char : (n : ℕ) → n < 64 → base64url_value (base64url_char n) ≡ n
value_of_char n h = ground arith

char_in_alphabet : (n : ℕ) → n < 64 → is_word (base64url_char n) ≡ true
char_in_alphabet n h = ground arith

pub encode_base64url-in_alphabet :
    (bs : List ℕ) → AreBytes bs → all is_word (encode_base64url bs) ≡ true
unfolding encode_base64url
encode_base64url-in_alphabet [] h = refl
encode_base64url-in_alphabet (a ∷ []) h =
    rw (char_in_alphabet (a / 4) (omega arith), char_in_alphabet (a % 4 * 16) (omega arith))
encode_base64url-in_alphabet (a ∷ b ∷ []) h = rw (
  char_in_alphabet (a / 4) (omega arith),
  char_in_alphabet (a % 4 * 16 + b / 16) (omega arith),
  char_in_alphabet (b % 16 * 4) (omega arith),
)
encode_base64url-in_alphabet (a ∷ b ∷ c ∷ r) h = rw (
  char_in_alphabet (a / 4) (omega arith),
  char_in_alphabet (a % 4 * 16 + b / 16) (omega arith),
  char_in_alphabet (b % 16 * 4 + c / 64) (omega arith),
  char_in_alphabet (c % 64) (omega arith),
  encode_base64url-in_alphabet r h.1.1.1,
)

-- Decoding undoes encoding, for every list of bytes.
pub decode-encode_base64url :
    (bs : List ℕ) → AreBytes bs → decode_base64url (encode_base64url bs) ≡ bs
unfolding encode_base64url decode_base64url
decode-encode_base64url [] h = refl
decode-encode_base64url (a ∷ []) h =
    rw (value_of_char (a / 4) (omega arith), value_of_char (a % 4 * 16) (omega arith))
      (ap (λ x. x ∷ []) (omega arith))
decode-encode_base64url (a ∷ b ∷ []) h =
    rw
      (
        value_of_char (a / 4) (omega arith),
        value_of_char (a % 4 * 16 + b / 16) (omega arith),
        value_of_char (b % 16 * 4) (omega arith),
      )
      (ap₂ (λ x y. x ∷ y ∷ []) (omega arith) (omega arith))
decode-encode_base64url (a ∷ b ∷ c ∷ r) h =
    rw
      (
        value_of_char (a / 4) (omega arith),
        value_of_char (a % 4 * 16 + b / 16) (omega arith),
        value_of_char (b % 16 * 4 + c / 64) (omega arith),
        value_of_char (c % 64) (omega arith),
        decode-encode_base64url r h.1.1.1,
      )
      (ap₃ a _ b _ c _ r (omega arith) (omega arith) (omega arith))
  where
    ap₃ :
        (x x' y y' z z' : ℕ) (l : List ℕ)
        → x' ≡ x
        → y' ≡ y
        → z' ≡ z
        → (x' ∷ y' ∷ z' ∷ l) ≡ (x ∷ y ∷ z ∷ l)
    ap₃ x x' y y' z z' l p q r = cc

pub length-encode_base64url : (bs : List ℕ) → length (encode_base64url bs) ≡ (4 * length bs + 2) / 3
unfolding encode_base64url
length-encode_base64url [] = refl
length-encode_base64url (a ∷ []) = refl
length-encode_base64url (a ∷ b ∷ []) = refl
length-encode_base64url (a ∷ b ∷ c ∷ r) = omega (arith, length-encode_base64url r)

nonempty_alphabet : (t : Text) → 0 < length t → all is_word t ≡ true → is_base64url t ≡ true
nonempty_alphabet [] n h = absurd (omega arith)
nonempty_alphabet (c ∷ cs) n h = h

-- The canonical decoder accepts every encoding of a non-empty list of bytes, and gives it back.
pub decode_canonical-encode :
    (bs : List ℕ)
    → AreBytes bs
    → 0 < length bs
    → decode_canonical_base64url (encode_base64url bs) ≡ some bs
unfolding decode_canonical_base64url
decode_canonical-encode bs h n = rw (
  nonempty_alphabet (encode_base64url bs) (omega (arith, length-encode_base64url bs))
      (encode_base64url-in_alphabet bs h),
  decode-encode_base64url bs h,
  text_eq_refl (encode_base64url bs),
)

-- What it accepts is the encoding of what it gives: no two texts stand for the same bytes.
pub encode-decode_canonical :
    (t : Text) {bs : List ℕ}
    → decode_canonical_base64url t ≡ some bs
    → (encode_base64url bs ≡ t) × (bs ≡ decode_base64url t)
unfolding decode_canonical_base64url
encode-decode_canonical t h =
    ground (arith, text_eq_sound (encode_base64url (decode_base64url t)) t)

hex_char_lem : (n : ℕ) → n < 16 → is_hex (hex_char n) ≡ true
hex_char_lem n h = ground arith

pub encode_hex_lem :
    (bs : List ℕ)
    → AreBytes bs
    → (all is_hex (encode_hex bs) ≡ true) × (length (encode_hex bs) ≡ 2 * length bs)
unfolding encode_hex
encode_hex_lem [] h = (refl, refl)
encode_hex_lem (b ∷ bs) (small, rest) =
    let (hex, count) = encode_hex_lem bs rest in
    (
      rw (hex_char_lem (b / 16) (omega arith), hex_char_lem (b % 16) (omega arith)) hex,
      omega (arith, count),
    )
