-- ===== src/Target/IpPolicy/Ranges.antt =====
-- The built-in ranges as intervals of numbers.
use outscan.Js.{Text}
use outscan.Prelude.{
  ap, >>=-eq-some, ℕ, zero, suc, all, ◌+◌, ◌-◌, ◌*◌, ◌/◌, ◌^◌, ◌≤◌, ◌<◌, ◌≡◌, refl, ◌↔◌, Bool, true,
  false, none, some, List, [], ◌∷◌, arith, All, and-eq-true, ◌==◌, ==_iff,
}
use native.Mathlib.Nat.{div-mul-le_self, lt-div-mul-add, div-eq_of_lt-le, mul-div_cancel, pow-suc}
use outscan.Target.IpText.{
  IpFamily, ipv4, ipv6, ParsedIp, CidrRange, bits, align, parse_ip, parse_cidr, parse_cidr_parts,
  two_parts, decimal,
}
use outscan.Target.IpPolicy.{
  BuiltInRange, built_in_cidrs, load_ranges, built_in_ranges, same_family, contains, find_reason,
  in_any,
}

-- An address lies in a range if it has the range's family and its number is in the interval that
-- the network and the prefix span.
pub record InRange (r : CidrRange) (ip : ParsedIp) : Type 0 where
  pub family : ip.family ≡ r.family
  pub from : r.network ≤ ip.value
  pub below : ip.value < r.network + 2 ^ (bits r.family - r.prefix)

-- The network has no bits behind the prefix.
abbrev pub is_aligned : CidrRange → Bool
is_aligned r = align r.network (bits r.family - r.prefix) == r.network

abbrev pub IsAligned : CidrRange → Type 0
IsAligned r = align r.network (bits r.family - r.prefix) ≡ r.network

align_interval : (v n d : ℕ) → 0 < d → n / d * d ≡ n → (v / d * d ≡ n) ↔ ((n ≤ v) × (v < n + d))
align_interval v n d pos aligned = (
  λ h. rw (← h) (div-mul-le_self v d, lt-div-mul-add {a = v} pos),
  λ h.
      let same : v / d ≡ n / d =
        div-eq_of_lt-le d (omega (arith, aligned, h.0)) (omega (arith, aligned, h.1)) in
      rw same aligned,
)

pub same_family_sound : (a b : IpFamily) → same_family a b ≡ true → b ≡ a
same_family_sound ipv4 ipv4 h = refl
same_family_sound ipv6 ipv6 h = refl
same_family_sound ipv4 ipv6 h = cc
same_family_sound ipv6 ipv4 h = cc

same_family_self : (a : IpFamily) → same_family a a ≡ true
same_family_self ipv4 = refl
same_family_self ipv6 = refl

pow-pos : (k : ℕ) → 0 < 2 ^ k
pow-pos zero = omega arith
pow-pos (suc k) = omega (arith, pow-suc 2 k, pow-pos k)

-- For a range whose network has no bits behind its prefix, the test by shifts holds for exactly
-- the addresses of the range's family whose number lies in the interval of 2 ^ (bits - prefix)
-- numbers from the network.
pub contains-InRange :
    (r : CidrRange) (ip : ParsedIp) → IsAligned r → (contains r ip ≡ true) ↔ InRange r ip
unfolding contains
contains-InRange r ip aligned =
    let interval =
      align_interval ip.value r.network (2 ^ (bits r.family - r.prefix)) (pow-pos _) aligned in
    (
      λ h.
          let (fam, bits_equal) = and-eq-true _ _ h in
          let same = same_family_sound r.family ip.family fam in
          let inside = interval.0 (rw same at ((==_iff _ _).0 bits_equal)) in
          record { family = same; from = inside.0; below = inside.1 },
      λ i.
          let fam : same_family r.family ip.family ≡ true =
            rw (i.family) (same_family_self r.family) in
          let equal : (align ip.value (bits ip.family - r.prefix) == r.network) ≡ true =
            (==_iff _ _).1 (rw (i.family) (interval.1 (i.from, i.below))) in
          ground (arith, fam, equal),
    )

zero-div : (d : ℕ) → 0 < d → 0 / d * d ≡ 0
zero-div d pos = omega (arith, div-mul-le_self 0 d)

align_twice : (v k : ℕ) → align (align v k) k ≡ align v k
align_twice v k = ap (λ q. q * 2 ^ k) (mul-div_cancel (v / 2 ^ k) (pow-pos k))

parse_cidr_parts-IsAligned :
    (a p : Text) (r : CidrRange) → parse_cidr_parts a p ≡ some r → IsAligned r
unfolding parse_cidr_parts
parse_cidr_parts-IsAligned a p r h =
    let (ip, _, k) = >>=-eq-some (parse_ip a) _ h in
    ground (
      arith,
      k,
      zero-div (2 ^ (bits ip.family - decimal p)) (pow-pos _),
      align_twice ip.value (bits ip.family - decimal p),
    )

two_parts-IsAligned : (parts : List Text) (r : CidrRange) → two_parts parts ≡ some r → IsAligned r
two_parts-IsAligned (a ∷ p ∷ []) r h = parse_cidr_parts-IsAligned a p r h
two_parts-IsAligned _ r h = cc

-- A range that was parsed is aligned.
pub parse_cidr-IsAligned : (t : Text) (r : CidrRange) → parse_cidr t ≡ some r → IsAligned r
unfolding parse_cidr
parse_cidr-IsAligned t r h = two_parts-IsAligned _ r h

IsAligned-from :
    (rs : List BuiltInRange) → all (λ r. is_aligned (r.0)) rs ≡ true → All (λ r. IsAligned (r.0)) rs
IsAligned-from [] h = tt
IsAligned-from (r ∷ rs) h =
    let (here, later) = and-eq-true _ _ h in ((==_iff _ _).0 here, IsAligned-from rs later)

pub built_in-IsAligned : All (λ r. IsAligned (r.0)) built_in_ranges
unfolding built_in_ranges parse_ip
built_in-IsAligned = IsAligned-from built_in_ranges refl

-- No built-in text fails to parse, so the module loads.
pub built_in_loads : load_ranges built_in_cidrs ≡ some built_in_ranges
unfolding built_in_ranges parse_ip
built_in_loads = refl

pub find_reason-none :
    (rs : List BuiltInRange) (ip : ParsedIp)
    → All (λ r. IsAligned (r.0)) rs
    → (find_reason rs ip ≡ none) ↔ All (λ r. ¬ InRange (r.0) ip) rs
unfolding find_reason
find_reason-none [] ip al = (λ h. tt, λ h. refl)
find_reason-none ((r, reason) ∷ rs) ip (here, later) =
    ground (arith, contains-InRange r ip here, find_reason-none rs ip later)

pub in_any-false :
    (rs : List CidrRange) (ip : ParsedIp)
    → All IsAligned rs
    → (in_any rs ip ≡ false) ↔ All (λ r. ¬ InRange r ip) rs
unfolding in_any
in_any-false [] ip al = (λ h. tt, λ h. refl)
in_any-false (r ∷ rs) ip (here, later) =
    ground (arith, contains-InRange r ip here, in_any-false rs ip later)
