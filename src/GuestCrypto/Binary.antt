-- ===== src/GuestCrypto/Binary.antt =====
-- Fixed-width and length-prefixed encodings: apps/api/src/guest-crypto/binary.ts. A function that
-- throws returns `none`. `utf8` is the standard library's encoding of a text, in which a surrogate
-- that is not part of a pair becomes U+FFFD.
pub mod Decoding
use outscan.Prelude.{
  ℕ, zero, suc, ◌+◌, ◌-◌, ◌*◌, ◌/◌, ◌%◌, ◌≡◌, Bool, true, false, ◌&&◌, Option, none, some, List, [],
  ◌∷◌, ◌++◌, ltb, leb, if◌then◌else◌, length, ◌>>=◌, all, ◌==◌, not,
}
use outscan.Js.{Text, uint64_max, text_eq}
use outscan.Js.Patterns.{is_digit, is_lower, is_upper, is_word}

abbrev pub uint32_max : ℕ
uint32_max = 4294967295

-- `writeUInt32BE`.
abbrev pub be32 : ℕ → List ℕ
be32 n = n / 16777216 % 256 ∷ n / 65536 % 256 ∷ n / 256 % 256 ∷ n % 256 ∷ []

unfoldable pub u32be : ℕ → Option (List ℕ)
u32be value = if ltb uint32_max value then none else some (be32 value)

-- `writeBigUInt64BE`.
abbrev pub be64 : ℕ → List ℕ
be64 n = be32 (n / 4294967296) ++ be32 n

unfoldable pub u64be : ℕ → Option (List ℕ)
u64be value = if ltb uint64_max value then none else some (be64 value)

unfoldable pub length_prefix : List ℕ → Option (List ℕ)
unfolding u32be
length_prefix value =
    if ltb uint32_max (length value)
    then none
    else (do size ← u32be (length value); some (size ++ value))

abbrev is_high_surrogate : ℕ → Bool
is_high_surrogate c = leb 0xd800 c && ltb c 0xdc00

abbrev is_low_surrogate : ℕ → Bool
is_low_surrogate c = leb 0xdc00 c && ltb c 0xe000

-- The bytes of one code point.
abbrev utf8_point : ℕ → List ℕ
utf8_point c =
    if ltb c 0x80
    then c ∷ []
    else (if ltb c 0x800
        then (0xc0 + c / 64) ∷ (0x80 + c % 64) ∷ []
        else (if ltb c 0x1_0000
            then (0xe0 + c / 4096) ∷ (0x80 + c / 64 % 64) ∷ (0x80 + c % 64) ∷ []
            else (0xf0 + c / 262144)
              ∷ (0x80 + c / 4096 % 64)
              ∷ (0x80 + c / 64 % 64)
              ∷ (0x80 + c % 64)
              ∷ []))

-- A unit on its own: no part of a pair.
abbrev utf8_single : ℕ → List ℕ
utf8_single c = if leb 0xd800 c && ltb c 0xe000 then utf8_point 0xfffd else utf8_point c

-- `Buffer.from(text, "utf8")`.
unfoldable pub utf8 : Text → List ℕ
utf8 [] = []
utf8 (c ∷ []) = utf8_single c
utf8 (c ∷ d ∷ r) =
    let pair = utf8 r in
    let single = utf8 (d ∷ r) in
    if is_high_surrogate c && is_low_surrogate d
    then utf8_point (0x1_0000 + (c - 0xd800) * 1024 + (d - 0xdc00)) ++ pair
    else utf8_single c ++ single

abbrev pub base64url_char : ℕ → ℕ
base64url_char n =
    if ltb n 26
    then b'A' + n
    else (if ltb n 52
        then b'a' + (n - 26)
        else (if ltb n 62 then b'0' + (n - 52) else (if ltb n 63 then b'-' else b'_')))

-- `toString("base64url")`, which writes no padding.
unfoldable pub encode_base64url : List ℕ → Text
encode_base64url [] = []
encode_base64url (a ∷ []) = base64url_char (a / 4) ∷ base64url_char (a % 4 * 16) ∷ []
encode_base64url (a ∷ b ∷ []) =
    base64url_char (a / 4) ∷ base64url_char (a % 4 * 16 + b / 16) ∷ base64url_char (b % 16 * 4) ∷ []
encode_base64url (a ∷ b ∷ c ∷ r) =
    base64url_char (a / 4)
    ∷ base64url_char (a % 4 * 16 + b / 16)
    ∷ base64url_char (b % 16 * 4 + c / 64)
    ∷ base64url_char (c % 64)
    ∷ encode_base64url r

-- The value of a character of the alphabet.
abbrev pub base64url_value : ℕ → ℕ
base64url_value c =
    if is_upper c
    then c - b'A'
    else (if is_lower c
        then c - b'a' + 26
        else (if is_digit c then c - b'0' + 52 else (if c == b'-' then 62 else 63)))

-- `Buffer.from(value, "base64url")` on a text over the alphabet: four characters to three bytes, and
-- what a shorter group at the end determines.
unfoldable pub decode_base64url : Text → List ℕ
decode_base64url [] = []
decode_base64url (a ∷ []) = []
decode_base64url (a ∷ b ∷ []) = (base64url_value a * 4 + base64url_value b / 16) ∷ []
decode_base64url (a ∷ b ∷ c ∷ []) =
    (base64url_value a * 4 + base64url_value b / 16)
    ∷ (base64url_value b % 16 * 16 + base64url_value c / 4)
    ∷ []
decode_base64url (a ∷ b ∷ c ∷ d ∷ r) =
    (base64url_value a * 4 + base64url_value b / 16)
    ∷ (base64url_value b % 16 * 16 + base64url_value c / 4)
    ∷ (base64url_value c % 4 * 64 + base64url_value d)
    ∷ decode_base64url r

-- /^[A-Za-z0-9_-]+$/u; the alphabet has no "=", so the second test of the source adds nothing.
abbrev pub is_base64url : Text → Bool
is_base64url [] = false
is_base64url (c ∷ cs) = all is_word (c ∷ cs)

unfoldable pub decode_canonical_base64url : Text → Option (List ℕ)
decode_canonical_base64url value =
    if not (is_base64url value)
    then none
    else (let decoded = decode_base64url value in
        if text_eq (encode_base64url decoded) value then some decoded else none)

abbrev pub hex_char : ℕ → ℕ
hex_char n = if ltb n 10 then b'0' + n else b'a' + (n - 10)

-- `toString("hex")`.
unfoldable pub encode_hex : List ℕ → Text
encode_hex [] = []
encode_hex (b ∷ bs) = hex_char (b / 16) ∷ hex_char (b % 16) ∷ encode_hex bs

abbrev pub hex_value : ℕ → Option ℕ
hex_value c =
    if is_digit c
    then some (c - b'0')
    else (if leb b'a' c && leb c b'f'
        then some (c - b'a' + 10)
        else (if leb b'A' c && leb c b'F' then some (c - b'A' + 10) else none))

-- `Buffer.from(value, "hex")`, which stops at the first pair that is not hexadecimal.
unfoldable pub decode_hex : Text → List ℕ
decode_hex (a ∷ b ∷ r) =
    let rest = decode_hex r in
    elim (do high ← hex_value a; low ← hex_value b; some (high * 16 + low)) [
      | none ↦ []
      | some byte ↦ byte ∷ rest
    ]
decode_hex _ = []
