-- ===== src/Target/IpText/GroupText.antt =====
-- A group of an IPv6 address and its text: apps/api/src/target/ip-policy.ts.
use outscan.Prelude.{
  ℕ, ◌+◌, ◌*◌, ◌/◌, ◌%◌, ◌<◌, ◌≡◌, refl, sym, ap, ◌∙◌, Bool, true, false, ◌||◌, some, List, [], ◌∷◌,
  map, all, any, All, arith, ltb, ◌==◌, ==_iff, and-eq-true, Bool-cases, inl, inr,
}
use outscan.Js.{Text}
use outscan.Js.Patterns.{is_hex}
use outscan.Target.IpText.{
  to_hex, to_hex_digit, hex, hex_from, hex_digit, is_group, to_lower, expand_dotted, split_double,
  fill_groups, ipv6_groups,
}

digit_back : (d : ℕ) → d < 16 → hex_digit (to_hex_digit d) ≡ d
digit_back d h = ground (arith, h)

digit_hex : (d : ℕ) → d < 16 → is_hex (to_hex_digit d) ≡ true
digit_hex d h = ground (arith, h)

-- The group of the digits of a text.
abbrev two : ℕ → ℕ → Text
two a b = to_hex_digit a ∷ to_hex_digit b ∷ []

abbrev three : ℕ → ℕ → ℕ → Text
three a b c = to_hex_digit a ∷ two b c

abbrev four : ℕ → ℕ → ℕ → ℕ → Text
four a b c d = to_hex_digit a ∷ three b c d

-- How a group is written, and that it is a group of this number.
abbrev IsGroupOf : ℕ → Text → Type 0
IsGroupOf g t = (is_group t ≡ true) × (hex t ≡ g)

one_lem : (a : ℕ) → a < 16 → IsGroupOf a (to_hex_digit a ∷ [])
unfolding hex_from
one_lem a h = (rw (digit_hex a h) refl, omega (arith, digit_back a h))

two_lem : (a b : ℕ) → a < 16 → b < 16 → IsGroupOf (a * 16 + b) (two a b)
unfolding hex_from
two_lem a b h k =
    (rw (digit_hex a h, digit_hex b k) refl, omega (arith, digit_back a h, digit_back b k))

three_lem : (a b c : ℕ) → a < 16 → b < 16 → c < 16 → IsGroupOf ((a * 16 + b) * 16 + c) (three a b c)
unfolding hex_from
three_lem a b c h k l = (
  rw (digit_hex a h, digit_hex b k, digit_hex c l) refl,
  omega (arith, digit_back a h, digit_back b k, digit_back c l),
)

four_lem :
    (a b c d : ℕ)
    → a < 16
    → b < 16
    → c < 16
    → d < 16
    → IsGroupOf (((a * 16 + b) * 16 + c) * 16 + d) (four a b c d)
unfolding hex_from
four_lem a b c d h k l m = (
  rw (digit_hex a h, digit_hex b k, digit_hex c l, digit_hex d m) refl,
  omega (arith, digit_back a h, digit_back b k, digit_back c l, digit_back d m),
)

group_is : (g n : ℕ) (t u : Text) → u ≡ t → n ≡ g → IsGroupOf n t → IsGroupOf g u
group_is g n t u e same (group, value) = (ap is_group e ∙ group, ap hex e ∙ value ∙ same)

to_hex_lem : (g : ℕ) → g < 65536 → IsGroupOf g (to_hex g)
unfolding to_hex
to_hex_lem g h = elim (Bool-cases (ltb g 16)) [
  | inl small ↦
      group_is g g (to_hex_digit g ∷ []) (to_hex g) (ground (arith, small)) refl
        (one_lem g (ground (arith, small)))
  | inr large ↦ elim (Bool-cases (ltb g 256)) [
    | inl small ↦
        group_is g (g / 16 * 16 + g % 16) (two (g / 16) (g % 16)) (to_hex g)
          (ground (arith, small, large)) (omega arith)
          (two_lem (g / 16) (g % 16) (ground (arith, small)) (omega arith))
    | inr larger ↦ elim (Bool-cases (ltb g 4096)) [
      | inl small ↦
          group_is g ((g / 256 * 16 + g / 16 % 16) * 16 + g % 16)
            (three (g / 256) (g / 16 % 16) (g % 16)) (to_hex g)
            (ground (arith, small, large, larger)) (omega arith)
            (three_lem (g / 256) (g / 16 % 16) (g % 16) (ground (arith, small)) (omega arith)
              (omega arith))
      | inr largest ↦
          group_is g (((g / 4096 * 16 + g / 256 % 16) * 16 + g / 16 % 16) * 16 + g % 16)
            (four (g / 4096) (g / 256 % 16) (g / 16 % 16) (g % 16)) (to_hex g)
            (ground (arith, large, larger, largest)) (omega arith)
            (four_lem (g / 4096) (g / 256 % 16) (g / 16 % 16) (g % 16) (omega (arith, h))
              (omega arith) (omega arith) (omega arith))
    ]
  ]
]

pub groups_are :
    (gs : List ℕ)
    → All (λ g. g < 65536) gs
    → (all is_group (map to_hex gs) ≡ true) × (map hex (map to_hex gs) ≡ gs)
groups_are [] h = (refl, refl)
groups_are (g ∷ gs) (small, h) =
    let (group, value) = to_hex_lem g small in
    let (groups, values) = groups_are gs h in (rw (group, groups) refl, rw (value, values) refl)

-- The characters of a formatted address.
abbrev pub plain : ℕ → Bool
plain c = is_hex c || c == b':'

to_lower-plain : (t : Text) → all plain t ≡ true → map to_lower t ≡ t
to_lower-plain [] h = refl
to_lower-plain (c ∷ cs) h =
    let (here, later) = and-eq-true (plain c) (all plain cs) h in
    let same : to_lower c ≡ c = ground (arith, here) in rw (same, to_lower-plain cs later) refl

pub no_other :
    (n : ℕ) (t : Text) → plain n ≡ false → all plain t ≡ true → any (λ c. c == n) t ≡ false
no_other n [] other h = refl
no_other n (c ∷ cs) other h =
    let (here, later) = and-eq-true (plain c) (all plain cs) h in
    elim (Bool-cases (c == n)) [
      | inl same ↦
          let is : c ≡ n = (==_iff c n).0 same in ground (arith, sym (ap plain is) ∙ here, other)
      | inr differs ↦ rw (differs, no_other n cs other later) refl
    ]

expand_plain : (t : Text) → all plain t ≡ true → expand_dotted (map to_lower t) ≡ some t
unfolding expand_dotted
expand_plain t h = rw (to_lower-plain t h, no_other b'.' t refl h) refl

pub ipv6_groups_lem :
    (t : Text) (groups : List Text) (gs : List ℕ)
    → all plain t ≡ true
    → fill_groups (split_double t) ≡ some groups
    → all is_group groups ≡ true
    → map hex groups ≡ gs
    → ipv6_groups t ≡ some gs
unfolding ipv6_groups
ipv6_groups_lem t groups gs plain_text filled ok value =
    rw (expand_plain t plain_text, filled, ok, value) refl
