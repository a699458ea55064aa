-- ===== src/Js/Patterns.antt =====
-- The regular expressions that several components share, as tests on code units.
use outscan.Prelude.{
  ℕ, Bool, false, ◌&&◌, ◌||◌, Option, none, some, List, [], ◌∷◌, leb, ◌==◌, if◌then◌else◌, length,
  all,
}

abbrev pub is_digit : ℕ → Bool
is_digit c = leb b'0' c && leb c b'9'

abbrev pub is_lower : ℕ → Bool
is_lower c = leb b'a' c && leb c b'z'

abbrev pub is_upper : ℕ → Bool
is_upper c = leb b'A' c && leb c b'Z'

abbrev pub is_alnum : ℕ → Bool
is_alnum c = is_digit c || is_lower c || is_upper c

-- [A-Za-z0-9_-]
abbrev pub is_word : ℕ → Bool
is_word c = is_alnum c || c == b'_' || c == b'-'

-- [0-9a-f]
abbrev pub is_hex : ℕ → Bool
is_hex c = is_digit c || (leb b'a' c && leb c b'f')

-- [\x21-\x7e]
abbrev pub is_graphic : ℕ → Bool
is_graphic c = leb 0x21 c && leb c 0x7e

-- /^[A-Za-z0-9][A-Za-z0-9_-]{0,127}$/u
unfoldable pub is_identifier : List ℕ → Bool
is_identifier [] = false
is_identifier (c ∷ cs) = is_alnum c && all is_word cs && leb (length cs) 127

-- [A-Za-z0-9._:/-]
abbrev pub is_principal_char : ℕ → Bool
is_principal_char c = is_word c || c == b'.' || c == b':' || c == b'/'

-- /^[A-Za-z0-9][A-Za-z0-9._:\/-]{0,127}$/u
unfoldable pub is_principal : List ℕ → Bool
is_principal [] = false
is_principal (c ∷ cs) = is_alnum c && all is_principal_char cs && leb (length cs) 127

-- `text.startsWith(prefix)` with `text.slice(prefix.length)`.
unfoldable pub strip_prefix : List ℕ → List ℕ → Option (List ℕ)
strip_prefix [] t = some t
strip_prefix (p ∷ ps) [] = none
strip_prefix (p ∷ ps) (c ∷ cs) = if p == c then strip_prefix ps cs else none

abbrev pub is_hex_digest : Option (List ℕ) → Bool
is_hex_digest none = false
is_hex_digest (some rest) = length rest == 64 && all is_hex rest

-- /^<prefix>[0-9a-f]{64}$/u
unfoldable pub is_digest : List ℕ → List ℕ → Bool
unfolding strip_prefix
is_digest prefix t = is_hex_digest (strip_prefix prefix t)
