-- ===== src/Target/IpText/Written.antt =====
-- How a parsed address goes with its text: apps/api/src/target/ip-policy.ts.
use outscan.Prelude.{
  ℕ, ◌≤◌, ◌≡◌, refl, sym, ap, ◌∙◌, true, false, none, some, List, [], ◌∷◌, map, all, length, arith,
  ==_iff, ◌==◌, Bool-cases, Option-cases, inl, inr, and-eq-true, any, ltb, ◌||◌,
}
use outscan.Js.{Text}
use outscan.Target.IpText.Bounds.{ipv6_groups-lt}
use outscan.Target.IpText.Formatted.{IsRead, format_ipv6-IsRead}
use outscan.Target.IpText.GroupText.{no_other}
use outscan.Target.IpText.{
  ipv4, ipv6, ParsedIp, cons_head, split, join, decimal_from, decimal, to_decimal, is_octet,
  is_ipv4, digits_value, parse_ipv4, format_ipv6, ipv6_groups, parse_ipv6, parse_ip,
}

join-cons_head : (s c : ℕ) (ts : List Text) → join s (cons_head c ts) ≡ c ∷ join s ts
unfolding join
join-cons_head s c [] = refl
join-cons_head s c (t ∷ []) = refl
join-cons_head s c (t ∷ u ∷ ts) = refl

split_lem : (s : ℕ) (t : Text) → (head : Text) × (rest : List Text) × (split s t ≡ head ∷ rest)
unfolding split
split_lem s [] = ([], [], refl)
split_lem s (c ∷ cs) =
    let (head, rest, e) = split_lem s cs in
    elim (Bool-cases (c == s)) [
      | inl same ↦ ([], split s cs, ground (arith, same))
      | inr other ↦ (c ∷ head, rest, ground (arith, other, e))
    ]

join-separated :
    (s : ℕ) (head : Text) (rest : List Text) → join s ([] ∷ head ∷ rest) ≡ s ∷ join s (head ∷ rest)
unfolding join
join-separated s head rest = refl

join-split : (s : ℕ) (t : Text) → join s (split s t) ≡ t
unfolding split join
join-split s [] = refl
join-split s (c ∷ cs) =
    let (head, rest, e) = split_lem s cs in
    let whole = join-split s cs in
    elim (Bool-cases (c == s)) [
      | inl same ↦
          let here : c ≡ s = (==_iff c s).0 same in
          rw same (
            ap (λ ts. join s ([] ∷ ts)) e
            ∙ join-separated s head rest
            ∙ ap (λ ts. s ∷ join s ts) (sym e)
            ∙ ap (λ x. s ∷ x) whole
            ∙ ap (λ x. x ∷ cs) (sym here))
      | inr other ↦ rw other (join-cons_head s c (split s cs) ∙ ap (λ x. c ∷ x) whole)
    ]

to_decimal-decimal : (o : Text) → is_octet o ≡ true → to_decimal (decimal o) ≡ o
unfolding to_decimal decimal_from
to_decimal-decimal [] h = cc
to_decimal-decimal (c ∷ []) h = ground (arith, h)
to_decimal-decimal (c ∷ d ∷ []) h = ground (arith, h)
to_decimal-decimal (c ∷ d ∷ e ∷ []) h = ground (arith, h)
to_decimal-decimal (c ∷ d ∷ e ∷ f ∷ r) h = ground (arith, h)

octets_kept : (os : List Text) → all is_octet os ≡ true → map to_decimal (map decimal os) ≡ os
octets_kept [] h = refl
octets_kept (o ∷ os) h =
    let (octet, rest) = and-eq-true (is_octet o) (all is_octet os) h in
    rw (to_decimal-decimal o octet, octets_kept os rest) refl

parse_ipv4-kept :
    (t : Text) (ip : ParsedIp) → parse_ipv4 t ≡ some ip → (ip.family ≡ ipv4) × (ip.address ≡ t)
unfolding parse_ipv4 is_ipv4
parse_ipv4-kept t ip h = elim (Bool-cases (is_ipv4 t)) [
  | inl holds ↦
      let octets =
        (and-eq-true (length (split b'.' t) == 4) (all is_octet (split b'.' t)) holds).1 in
      let same : join b'.' (map to_decimal (map decimal (split b'.' t))) ≡ t =
        ap (join b'.') (octets_kept (split b'.' t) octets) ∙ join-split b'.' t in
      (ground (arith, h, holds), sym (ground (arith, h, holds)) ∙ same)
  | inr fails ↦ ground (arith, h, fails)
]

split_none : (s : ℕ) (t : Text) → any (λ c. c == s) t ≡ false → split s t ≡ t ∷ []
unfolding split
split_none s [] h = refl
split_none s (c ∷ cs) h =
    let differs : (c == s) ≡ false = ground (arith, h) in
    let rest : any (λ d. d == s) cs ≡ false = ground (arith, h) in
    rw (differs, split_none s cs rest) refl

undotted : (t : Text) → any (λ c. c == b'.') t ≡ false → parse_ipv4 t ≡ none
unfolding parse_ipv4 is_ipv4
undotted t h = rw (split_none b'.' t h) refl

fits : (n : ℕ) → 1 ≤ n → n ≤ 64 → (n == 0 || ltb 64 n) ≡ false
fits n low high = ground (arith, low, high)

abbrev address_of : List ℕ → ParsedIp
address_of groups = record {
  address = format_ipv6 groups;
  family = ipv6;
  value = digits_value 65536 0 groups;
}

parse_ip-IsRead :
    (text : Text) (groups : List ℕ) → IsRead text groups → parse_ip text ≡ some (address_of groups)
unfolding parse_ip parse_ipv6
parse_ip-IsRead text groups (chars, low, high, read) =
    rw
      (
        fits (length text) low high,
        undotted text (no_other b'.' text refl chars),
        no_other b'%' text refl chars,
        read,
      )
      refl

parse_ipv6-groups :
    (t : Text) (ip : ParsedIp)
    → parse_ipv6 t ≡ some ip
    → (groups : List ℕ) × (ipv6_groups t ≡ some groups) × (address_of groups ≡ ip)
unfolding parse_ipv6
parse_ipv6-groups t ip h = elim (Option-cases (ipv6_groups t)) [
  | inl e ↦ ground (arith, h, e)
  | inr (groups, e) ↦ (groups, e, ground (arith, h, e))
]

parse_ipv6-stable :
    (t : Text) (ip : ParsedIp) → parse_ipv6 t ≡ some ip → parse_ip ip.address ≡ some ip
parse_ipv6-stable t ip h =
    let (groups, e, built) = parse_ipv6-groups t ip h in
    let (count, small) = ipv6_groups-lt t groups e in
    ap (λ x. parse_ip x.address) (sym built)
    ∙ parse_ip-IsRead (format_ipv6 groups) groups (format_ipv6-IsRead groups count small)
    ∙ ap some built

pub parse_ip-stable :
    (t : Text) (ip : ParsedIp) → parse_ip t ≡ some ip → parse_ip ip.address ≡ some ip
unfolding parse_ip
parse_ip-stable t ip h = elim (Option-cases (parse_ipv4 t)) [
  | inl e ↦ parse_ipv6-stable t ip (ground (arith, h, e))
  | inr (found, e) ↦
      let (_, same) = parse_ipv4-kept t ip (ground (arith, h, e)) in ap parse_ip same ∙ h
]
