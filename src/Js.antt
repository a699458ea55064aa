-- ===== src/Js.antt =====
-- The values of the source language that cross a component's boundary as `unknown`, and the tests
-- that the components make on them. A text is the list of its UTF-16 code units. An object is plain
-- data: its own keys in order, with no accessor that could throw. Keys and fixed tags are native texts.
pub mod Patterns
use Prim.Native.Char.{code}
use text.Mathlib.Text.{◌==◌ as str_eq}
use outscan.Prelude.{
  ℕ, suc, ◌+◌, ◌*◌, ◌≤◌, ◌≡◌, refl, ◌↔◌, Bool, true, false, ◌&&◌, ◌||◌, Option, none, some, List,
  [], ◌∷◌, String, arith, leb, ◌==◌, if◌then◌else◌, length, all, ==_iff, and-eq-true,
}

abbrev pub Text : Type 0
Text = List ℕ

-- The code units of a text literal, which in the source are all ASCII.
abbrev pub codes : String → Text
codes String.[] = []
codes (String.◌∷◌ c s) = code c ∷ codes s

-- `===` on texts.
unfoldable pub text_eq : Text → Text → Bool
text_eq [] [] = true
text_eq (a ∷ s) (b ∷ t) = a == b && text_eq s t
text_eq _ _ = false

pub text_eq_sound : (s t : Text) → text_eq s t ≡ true → s ≡ t
unfolding text_eq
text_eq_sound [] [] h = refl
text_eq_sound (a ∷ s) (b ∷ t) h =
    let (here, later) = and-eq-true (a == b) (text_eq s t) h in
    cc ((==_iff a b).0 here, text_eq_sound s t later)
text_eq_sound [] (b ∷ t) h = cc
text_eq_sound (a ∷ s) [] h = cc

pub text_eq_refl : (s : Text) → text_eq s s ≡ true
unfolding text_eq
text_eq_refl [] = refl
text_eq_refl (a ∷ s) = ground (arith, text_eq_refl s)

pub text_eq_iff : (s t : Text) → (text_eq s t ≡ true) ↔ (s ≡ t)
text_eq_iff s t = (text_eq_sound s t, λ e. rw e (text_eq_refl t))

-- `texts.includes(text)`.
unfoldable pub text_in : Text → List Text → Bool
text_in t [] = false
text_in t (u ∷ us) = text_eq t u || text_in t us

mutual
  pub data Value : Type 0 where
    undefined : Value
    null : Value
    boolean : Bool → Value
    number : ℕ → Value  -- an integer, not below 0
    negative : ℕ → Value  -- the integer -(n + 1)
    float : Value  -- a fraction, an infinity or NaN
    bigint : ℕ → Value
    negative_bigint : ℕ → Value
    string : Text → Value
    bytes : List ℕ → Value  -- a Uint8Array
    array : Values → Value
    object : Entries → Value

  pub data Values : Type 0 where
    nil : Values
    cons : Value → Values → Values

  pub data Entries : Type 0 where
    end : Entries
    entry : String → Value → Entries → Entries
    symbol : Value → Entries → Entries

abbrev pub values : Values → List Value
values nil = []
values (cons v vs) = v ∷ values vs

unfoldable pub key_mem : String → List String → Bool
key_mem k [] = false
key_mem k (j ∷ js) = if str_eq k j then true else key_mem k js

-- `Reflect.ownKeys(value).length`.
unfoldable pub key_count : Entries → ℕ
key_count end = 0
key_count (entry k v es) = suc (key_count es)
key_count (symbol v es) = suc (key_count es)

-- `every((key) => typeof key === "string" && keys.includes(key))`.
unfoldable pub keys_among : List String → Entries → Bool
keys_among keys end = true
keys_among keys (entry k v es) = key_mem k keys && keys_among keys es
keys_among keys (symbol v es) = false

-- `value.k`, or `undefined` for a key that is not there.
unfoldable pub get : String → Entries → Value
get k end = undefined
get k (entry j v es) = if str_eq j k then v else get k es
get k (symbol v es) = get k es

-- The fields of a value that is an object, no array, and has exactly the given keys.
unfoldable pub exact_record : List String → Value → Option Entries
unfolding key_count keys_among key_mem
exact_record keys (object es) =
    if key_count es == length keys && keys_among keys es then some es else none
exact_record keys _ = none

abbrev pub keys_of : Entries → List String
keys_of end = []
keys_of (entry k v es) = k ∷ keys_of es
keys_of (symbol v es) = keys_of es

-- The fields of an object, no array, with as many keys as expected and each of the expected ones.
unfoldable pub fields_of : List String → Value → Option Entries
unfolding key_count key_mem
fields_of expected (object es) =
    if key_count es == length expected && all (λ key. key_mem key (keys_of es)) expected
    then some es
    else none
fields_of expected _ = none

abbrev pub max_safe_integer : ℕ
max_safe_integer = 9007199254740991

abbrev pub uint64_max : ℕ
uint64_max = 18446744073709551615

-- `typeof value === "string"`.
abbrev pub as_string : Value → Option Text
as_string (string s) = some s
as_string _ = none

-- `Number.isSafeInteger(value) && value >= 0`.
abbrev pub as_safe_natural : Value → Option ℕ
as_safe_natural (number n) = if leb n max_safe_integer then some n else none
as_safe_natural _ = none

-- `typeof value === "bigint" && value >= 0n && value <= UINT64_MAX`.
abbrev pub as_u64 : Value → Option ℕ
as_u64 (bigint n) = if leb n uint64_max then some n else none
as_u64 _ = none

-- `value instanceof Uint8Array`.
abbrev pub as_bytes : Value → Option (List ℕ)
as_bytes (bytes bs) = some bs
as_bytes _ = none

pub as_u64-le : (v : Value) {n : ℕ} → as_u64 v ≡ some n → n ≤ uint64_max
as_u64-le (bigint n) h = ground arith
as_u64-le _ h = cc

pub as_safe_natural-le : (v : Value) {n : ℕ} → as_safe_natural v ≡ some n → n ≤ max_safe_integer
as_safe_natural-le (number n) h = ground arith
as_safe_natural-le _ h = cc
