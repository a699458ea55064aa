-- ===== src/Target/IpText/Bounds.antt =====
-- Bounds on the numbers that parsed addresses stand for.
use outscan.Prelude.{
  length-map, ◌∙◌, guard, Bool-cases, All, ℕ, zero, suc, ◌+◌, ◌-◌, ◌*◌, ◌^◌, ◌≤◌, ◌<◌, ◌≡◌, refl,
  Bool, true, ◌&&◌, some, List, [], ◌∷◌, ◌++◌, map, arith, leb, ◌==◌, ==_iff, length, all,
  and-eq-true, >>=-eq-some, Option-cases, inl, inr, guard-eq-some, length-append,
}
use native.Mathlib.Nat.{mul-le-mul_right, pow-succ', pow-zero, pow-le-pow_right}
use outscan.Js.{Text}
use outscan.Js.Patterns.{is_hex, is_digit}
use outscan.Target.IpText.{
  ParsedIp, bits, is_octet, decimal, digits_value, is_ipv4, parse_ipv4, hex, hex_from, hex_digit,
  to_lower, is_group, fill_groups, half_groups, no_leading_zero, replicate_zero, ipv6_groups,
  parse_ipv6, parse_ip, split, expand_dotted, split_double,
}

all-All {ℓ} :
    {A : Type ℓ} (p : A → Bool) (P : A → Type 0)
    → ((x : A) → p x ≡ true → P x)
    → (xs : List A) → all p xs ≡ true
    → All P xs
all-All p P f [] h = tt
all-All p P f (x ∷ xs) h =
    let (here, later) = and-eq-true (p x) (all p xs) h in (f x here, all-All p P f xs later)

is_octet-lt : (t : Text) → is_octet t ≡ true → decimal t < 256
is_octet-lt t h =
    let small =
      (and-eq-true (no_leading_zero t && leb (length t) 3 && all is_digit t) (leb (decimal t) 255)
        h).1 in
    ground (arith, small)

digit_step : (b n cur d : ℕ) → d < b → (cur * b + d + 1) * b ^ n ≤ (cur + 1) * b ^ suc n
digit_step b n cur d h =
    let digit : cur * b + d + 1 ≤ (cur + 1) * b = omega (arith, h) in
    let scaled = mul-le-mul_right (b ^ n) digit in grind (arith, scaled, pow-succ' b n)

-- A number written in a base is below the power of the base.
digits_value-lt :
    (b : ℕ) (ds : List ℕ) (cur : ℕ)
    → All (λ d. d < b) ds
    → digits_value b cur ds < (cur + 1) * b ^ length ds
unfolding digits_value
digits_value-lt b [] cur ok = grind (arith, pow-zero b)
digits_value-lt b (d ∷ ds) cur (h, ok) =
    omega (arith, digits_value-lt b ds (cur * b + d) ok, digit_step b (length ds) cur d h)

hex_digit-lt : (c : ℕ) → is_hex c ≡ true → hex_digit c < 16
hex_digit-lt c h = ground (arith, h)

hex_from-lt :
    (t : Text) (cur : ℕ)
    → All (λ c. hex_digit c < 16) t
    → hex_from cur t < (cur + 1) * 16 ^ length t
unfolding hex_from
hex_from-lt [] cur ok = omega arith
hex_from-lt (c ∷ cs) cur (h, ok) = omega (
  arith,
  hex_from-lt cs (cur * 16 + hex_digit c) ok,
  digit_step 16 (length cs) cur (hex_digit c) h,
)

hex-lt : (t : Text) → is_group t ≡ true → hex t < 65536
hex-lt t ok =
    let (sizes, digits) = and-eq-true (leb 1 (length t) && leb (length t) 4) (all is_hex t) ok in
    let short : length t ≤ 4 = ground (arith, sizes) in
    let bound = hex_from-lt t 0 (all-All is_hex (λ c. hex_digit c < 16) hex_digit-lt t digits) in
    omega (arith, bound, short, pow-le-pow_right {n = 16} (omega arith) short)

length-replicate_zero : (n : ℕ) → length (replicate_zero n) ≡ n
unfolding replicate_zero
length-replicate_zero zero = refl
length-replicate_zero (suc n) = omega (arith, length-replicate_zero n)

length-fill_groups :
    (halves groups : List Text) → fill_groups halves ≡ some groups → length groups ≡ 8
unfolding fill_groups
length-fill_groups [] groups h = cc
length-fill_groups (left ∷ []) groups h = ground (arith, h)
length-fill_groups (left ∷ right ∷ []) groups h =
    let l = half_groups left in
    let r = half_groups right in
    let n = 8 - (length l + length r) in
    let total : length l + n + length r ≡ 8 = ground (arith, h) in
    let sizes : length (l ++ replicate_zero n ++ r) ≡ length l + n + length r = omega (
      arith,
      length-append (l ++ replicate_zero n) r,
      length-append l (replicate_zero n),
      length-replicate_zero n,
    ) in
    ground (arith, h, total, sizes)
length-fill_groups (_ ∷ _ ∷ _ ∷ _) groups h = cc

module _ (f : Text → ℕ) where
  map-lt :
      (p : Text → Bool) (b : ℕ)
      → ((t : Text) → p t ≡ true → f t < b)
      → (ts : List Text) → all p ts ≡ true
      → All (λ d. d < b) (map f ts)
  map-lt p b bound [] h = tt
  map-lt p b bound (t ∷ ts) h =
      let (here, later) = and-eq-true (p t) (all p ts) h in
      (bound t here, map-lt p b bound ts later)

parse_ipv4-lt : (t : Text) (ip : ParsedIp) → parse_ipv4 t ≡ some ip → ip.value < 2 ^ bits ip.family
unfolding parse_ipv4 is_ipv4
parse_ipv4-lt t ip h = elim (Bool-cases (is_ipv4 t)) [
  | inr fails ↦ ground (arith, h, fails)
  | inl holds ↦
      let octets = split b'.' t in
      let (four, fits) = and-eq-true (length octets == 4) (all is_octet octets) holds in
      let size : length (map decimal octets) ≡ 4 =
        length-map decimal octets ∙ (==_iff (length octets) 4).0 four in
      let small = map-lt decimal is_octet 256 is_octet-lt octets fits in
      let bound = digits_value-lt 256 (map decimal octets) 0 small in
      let below : digits_value 256 0 (map decimal octets) < 2 ^ 32 = rw size at bound in
      ground (arith, h, holds, below)
]

pub ipv6_groups-lt :
    (t : Text) (groups : List ℕ)
    → ipv6_groups t ≡ some groups
    → (length groups ≡ 8) × All (λ g. g < 65536) groups
unfolding ipv6_groups
ipv6_groups-lt t groups h =
    let (expanded, _, h1) = >>=-eq-some (expand_dotted (map to_lower t)) _ h in
    let (texts, filled, h2) = >>=-eq-some (fill_groups (split_double expanded)) _ h1 in
    let (_, fits, made) = >>=-eq-some (guard (all is_group texts)) _ h2 in
    let same : map hex texts ≡ groups = cc in
    let size = length-map hex texts ∙ length-fill_groups (split_double expanded) texts filled in
    let small = map-lt hex is_group 65536 hex-lt texts (guard-eq-some (all is_group texts) fits) in
    (rw same at size, rw same at small)

parse_ipv6-lt : (t : Text) (ip : ParsedIp) → parse_ipv6 t ≡ some ip → ip.value < 2 ^ bits ip.family
unfolding parse_ipv6
parse_ipv6-lt t ip h = elim (Option-cases (ipv6_groups t)) [
  | inl e ↦ ground (arith, h, e)
  | inr (groups, e) ↦
      let (size, small) = ipv6_groups-lt t groups e in
      let bound = digits_value-lt 65536 groups 0 small in
      let below : digits_value 65536 0 groups < 2 ^ 128 = rw size at bound in
      ground (arith, h, e, below)
]

-- Whatever the text, the number of an address that parses fits the bits of its family: 32 for
-- IPv4, 128 for IPv6.
pub parse_ip-lt : (t : Text) (ip : ParsedIp) → parse_ip t ≡ some ip → ip.value < 2 ^ bits ip.family
unfolding parse_ip
parse_ip-lt t ip h = ground (arith, h, parse_ipv4-lt t ip, parse_ipv6-lt t ip)
