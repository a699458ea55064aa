-- ===== src/Target/IpText/Joined.antt =====
-- Groups joined by colons and split again: apps/api/src/target/ip-policy.ts.
use outscan.Prelude.{
  ℕ, ◌≡◌, refl, sym, ap, ◌∙◌, true, false, List, [], ◌∷◌, ◌++◌, all, arith, ◌==◌, and-eq-true,
  append-nil, append_assoc,
}
use outscan.Js.{Text}
use outscan.Js.Patterns.{is_hex}
use outscan.Target.IpText.{cons_head, split, split_double, join, half_groups, is_group}

abbrev pub joined : List Text → Text
joined ts = join b':' ts

abbrev prepend : Text → List Text → List Text
prepend [] ts = ts
prepend (c ∷ cs) ts = cons_head c (prepend cs ts)

prepend-head : (a h : Text) (ts : List Text) → prepend a (h ∷ ts) ≡ (a ++ h) ∷ ts
prepend-head [] h ts = refl
prepend-head (c ∷ a) h ts = ap (cons_head c) (prepend-head a h ts)

prepend-append : (a b : Text) (ts : List Text) → prepend (a ++ b) ts ≡ prepend a (prepend b ts)
prepend-append [] b ts = refl
prepend-append (c ∷ a) b ts = ap (cons_head c) (prepend-append a b ts)

hex_colon : (c : ℕ) → is_hex c ≡ true → (c == b':') ≡ false
hex_colon c h = ground (arith, h)

split_double-other :
    (c : ℕ) (xs : Text)
    → (c == b':') ≡ false
    → split_double (c ∷ xs) ≡ cons_head c (split_double xs)
unfolding split_double
split_double-other c [] h = refl
split_double-other c (d ∷ r) h = rw h refl

split_double-colon :
    (d : ℕ) (r : Text)
    → (d == b':') ≡ false
    → split_double (b':' ∷ d ∷ r) ≡ cons_head b':' (split_double (d ∷ r))
unfolding split_double
split_double-colon d r h = rw h refl

split_double-both : (r : Text) → split_double (b':' ∷ b':' ∷ r) ≡ [] ∷ split_double r
unfolding split_double
split_double-both r = refl

split_double-hex :
    (t r : Text) → all is_hex t ≡ true → split_double (t ++ r) ≡ prepend t (split_double r)
split_double-hex [] r h = refl
split_double-hex (c ∷ cs) r h =
    let (here, later) = and-eq-true (is_hex c) (all is_hex cs) h in
    split_double-other c (cs ++ r) (hex_colon c here)
    ∙ ap (cons_head c) (split_double-hex cs r later)

group_digits : (t : Text) → is_group t ≡ true → all is_hex t ≡ true
group_digits t h = ground (arith, h)

group_head :
    (t : Text) → is_group t ≡ true → (d : ℕ) × (r : Text) × (t ≡ d ∷ r) × ((d == b':') ≡ false)
group_head [] h = cc
group_head (c ∷ cs) h =
    let digits = group_digits (c ∷ cs) h in
    (c, cs, refl, hex_colon c (and-eq-true (is_hex c) (all is_hex cs) digits).0)

joined_head :
    (t : Text) (ts : List Text)
    → all is_group (t ∷ ts) ≡ true
    → (d : ℕ) × (r : Text) × (joined (t ∷ ts) ≡ d ∷ r) × ((d == b':') ≡ false)
unfolding join
joined_head t [] h = group_head t (and-eq-true (is_group t) true h).0
joined_head t (u ∷ ts) h =
    let (d, r, e, other) = group_head t (and-eq-true (is_group t) (all is_group (u ∷ ts)) h).0 in
    (d, r ++ (b':' ∷ joined (u ∷ ts)), ap (λ x. x ++ (b':' ∷ joined (u ∷ ts))) e, other)

split_double-separated :
    (t : Text) (ts : List Text) (r : Text)
    → all is_group (t ∷ ts) ≡ true
    → split_double (b':' ∷ (joined (t ∷ ts) ++ r))
      ≡ cons_head b':' (split_double (joined (t ∷ ts) ++ r))
split_double-separated t ts r h =
    let (d, rest, e, other) = joined_head t ts h in
    ap (λ x. split_double (b':' ∷ (x ++ r))) e
    ∙ split_double-colon d (rest ++ r) other
    ∙ ap (λ x. cons_head b':' (split_double (x ++ r))) (sym e)

pub joined_two : (t u : Text) (ts : List Text) → joined (t ∷ u ∷ ts) ≡ t ++ (b':' ∷ joined (u ∷ ts))
unfolding join
joined_two t u ts = refl

pub joined_one : (t : Text) → joined (t ∷ []) ≡ t
unfolding join
joined_one t = refl

pub joined_none : joined [] ≡ []
unfolding join
joined_none = refl

split_double-joined :
    (ts : List Text) (r : Text)
    → all is_group ts ≡ true
    → split_double (joined ts ++ r) ≡ prepend (joined ts) (split_double r)
split_double-joined [] r h =
    ap (λ x. split_double (x ++ r)) joined_none
    ∙ ap (λ x. prepend x (split_double r)) (sym joined_none)
split_double-joined (t ∷ []) r h =
    let digits = group_digits t (and-eq-true (is_group t) true h).0 in
    ap (λ x. split_double (x ++ r)) (joined_one t)
    ∙ split_double-hex t r digits
    ∙ ap (λ x. prepend x (split_double r)) (sym (joined_one t))
split_double-joined (t ∷ u ∷ ts) r h =
    let (here, later) = and-eq-true (is_group t) (all is_group (u ∷ ts)) h in
    ap (λ x. split_double (x ++ r)) (joined_two t u ts)
    ∙ ap split_double (append_assoc t (b':' ∷ joined (u ∷ ts)) r)
    ∙ split_double-hex t (b':' ∷ (joined (u ∷ ts) ++ r)) (group_digits t here)
    ∙ ap (prepend t) (
        split_double-separated u ts r later
        ∙ ap (cons_head b':') (split_double-joined (u ∷ ts) r later))
    ∙ sym (prepend-append t (b':' ∷ joined (u ∷ ts)) (split_double r))
    ∙ ap (λ x. prepend x (split_double r)) (sym (joined_two t u ts))

-- A text without "::" stays whole.
pub split_double-single :
    (ts : List Text) → all is_group ts ≡ true → split_double (joined ts) ≡ joined ts ∷ []
unfolding split_double
split_double-single ts h =
    ap split_double (sym (append-nil (joined ts)))
    ∙ split_double-joined ts [] h
    ∙ prepend-head (joined ts) [] []
    ∙ ap (λ x. x ∷ []) (append-nil (joined ts))

-- A text with one "::" falls into its halves.
pub split_double-halves :
    (ts us : List Text)
    → all is_group ts ≡ true
    → all is_group us ≡ true
    → split_double (joined ts ++ (b':' ∷ b':' ∷ joined us)) ≡ joined ts ∷ joined us ∷ []
split_double-halves ts us h k =
    split_double-joined ts (b':' ∷ b':' ∷ joined us) h
    ∙ ap (prepend (joined ts)) (split_double-both (joined us))
    ∙ ap (λ x. prepend (joined ts) ([] ∷ x)) (split_double-single us k)
    ∙ prepend-head (joined ts) [] (joined us ∷ [])
    ∙ ap (λ x. x ∷ joined us ∷ []) (append-nil (joined ts))

split-hex : (t r : Text) → all is_hex t ≡ true → split b':' (t ++ r) ≡ prepend t (split b':' r)
unfolding split
split-hex [] r h = refl
split-hex (c ∷ cs) r h =
    let (here, later) = and-eq-true (is_hex c) (all is_hex cs) h in
    rw (hex_colon c here) (ap (cons_head c) (split-hex cs r later))

split-colon : (r : Text) → split b':' (b':' ∷ r) ≡ [] ∷ split b':' r
unfolding split
split-colon r = refl

split-joined :
    (t : Text) (ts : List Text)
    → all is_group (t ∷ ts) ≡ true
    → split b':' (joined (t ∷ ts)) ≡ t ∷ ts
unfolding split
split-joined t [] h =
    let digits = group_digits t (and-eq-true (is_group t) true h).0 in
    ap (split b':') (joined_one t ∙ sym (append-nil t))
    ∙ split-hex t [] digits
    ∙ prepend-head t [] []
    ∙ ap (λ x. x ∷ []) (append-nil t)
split-joined t (u ∷ ts) h =
    let (here, later) = and-eq-true (is_group t) (all is_group (u ∷ ts)) h in
    ap (split b':') (joined_two t u ts)
    ∙ split-hex t (b':' ∷ joined (u ∷ ts)) (group_digits t here)
    ∙ ap (prepend t) (split-colon (joined (u ∷ ts)) ∙ ap (λ x. [] ∷ x) (split-joined u ts later))
    ∙ prepend-head t [] (u ∷ ts)
    ∙ ap (λ x. x ∷ u ∷ ts) (append-nil t)

half_groups-cons : (d : ℕ) (r : Text) (t : Text) → t ≡ d ∷ r → half_groups t ≡ split b':' t
half_groups-cons d r [] e = cc
half_groups-cons d r (c ∷ cs) e = refl

-- The groups of a half are those that were joined.
pub half_groups-joined : (ts : List Text) → all is_group ts ≡ true → half_groups (joined ts) ≡ ts
half_groups-joined [] h = ap half_groups joined_none
half_groups-joined (t ∷ ts) h =
    let (d, r, e, _) = joined_head t ts h in
    half_groups-cons d r (joined (t ∷ ts)) e ∙ split-joined t ts h
