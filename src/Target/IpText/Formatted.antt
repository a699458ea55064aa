-- ===== src/Target/IpText/Formatted.antt =====
-- The groups that `formatIpv6` of apps/api/src/target/ip-policy.ts writes are read back.
use outscan.Prelude.{
  ℕ, zero, suc, ◌+◌, ◌-◌, ◌*◌, ◌≤◌, ◌<◌, ◌≡◌, refl, sym, ap, ◌∙◌, Bool, true, false, some, List, [],
  ◌∷◌, ◌++◌, map, all, All, length, arith, ltb, leb, ◌==◌, ==_iff, and-eq-true, take, drop,
  append_assoc, length-append, length-map, Bool-cases, inl, inr, take-length-append,
  drop-length-append,
}
use mathlib.Core.Path.{subst}
use outscan.Js.{Text, codes}
use outscan.Js.Patterns.{is_hex}
use outscan.Target.IpText.{
  Run, best_run, format_ipv6, to_hex, hex, hex_from, is_group, split_double, fill_groups,
  half_groups, replicate_zero, ipv6_groups,
}
use outscan.Target.IpText.Joined.{
  joined, joined_none, joined_one, joined_two, split_double-single, split_double-halves,
  half_groups-joined,
}
use outscan.Target.IpText.Runs.{zeros, best_run_lem, length-zeros}
use outscan.Target.IpText.GroupText.{groups_are, plain, ipv6_groups_lem}

all-append {ℓ} :
    {A : Type ℓ} (p : A → Bool) (xs ys : List A)
    → all p xs ≡ true
    → all p ys ≡ true
    → all p (xs ++ ys) ≡ true
all-append p [] ys h k = k
all-append p (x ∷ xs) ys h k =
    let (here, later) = and-eq-true (p x) (all p xs) h in rw (here, all-append p xs ys later k) refl

hex_plain : (t : Text) → all is_hex t ≡ true → all plain t ≡ true
hex_plain [] h = refl
hex_plain (c ∷ cs) h =
    let (here, later) = and-eq-true (is_hex c) (all is_hex cs) h in
    rw (here, hex_plain cs later) refl

-- The size of a text of so many groups, and its characters.
abbrev IsSized : ℕ → Text → Type 0
IsSized n t = (all plain t ≡ true) × (n ≤ length t) × (length t ≤ 5 * n)

group_sized :
    (t : Text) → is_group t ≡ true → (all plain t ≡ true) × (1 ≤ length t) × (length t ≤ 4)
group_sized t h = (hex_plain t (ground (arith, h)), ground (arith, h), ground (arith, h))

joined-IsSized : (ts : List Text) → all is_group ts ≡ true → IsSized (length ts) (joined ts)
joined-IsSized [] h = rw joined_none (refl, omega arith, omega arith)
joined-IsSized (t ∷ []) h =
    let (chars, low, high) = group_sized t (and-eq-true (is_group t) true h).0 in
    rw (joined_one t) (chars, low, omega (arith, high))
joined-IsSized (t ∷ u ∷ ts) h =
    let (group, later) = and-eq-true (is_group t) (all is_group (u ∷ ts)) h in
    let (chars, low, high) = group_sized t group in
    let (rest, rest_low, rest_high) = joined-IsSized (u ∷ ts) later in
    let size = length-append t (b':' ∷ joined (u ∷ ts)) in
    rw (joined_two t u ts) (
      all-append plain t (b':' ∷ joined (u ∷ ts)) chars rest,
      omega (arith, size, low, rest_low),
      omega (arith, size, high, rest_high),
    )

-- A text that is read as these groups, with what `parseIp` asks of a text.
abbrev pub IsRead : Text → List ℕ → Type 0
IsRead t gs = (all plain t ≡ true) × (1 ≤ length t) × (length t ≤ 64) × (ipv6_groups t ≡ some gs)

fill_single :
    (t : Text) (ts : List Text)
    → half_groups t ≡ ts
    → length ts ≡ 8
    → fill_groups (t ∷ []) ≡ some ts
unfolding fill_groups
fill_single t ts e size =
    let eight : (length ts == 8) ≡ true = (==_iff (length ts) 8).1 size in rw (e, eight) refl

single-IsRead :
    (gs : List ℕ) → length gs ≡ 8 → All (λ g. g < 65536) gs → IsRead (joined (map to_hex gs)) gs
single-IsRead gs size small =
    let ts = map to_hex gs in
    let (groups, values) = groups_are gs small in
    let count : length ts ≡ 8 = length-map to_hex gs ∙ size in
    let (chars, low, high) = joined-IsSized ts groups in
    let filled : fill_groups (split_double (joined ts)) ≡ some ts =
      ap fill_groups (split_double-single ts groups)
      ∙ fill_single (joined ts) ts (half_groups-joined ts groups) count in
    (
      chars,
      omega (arith, low, count),
      omega (arith, high, count),
      ipv6_groups_lem (joined ts) ts gs chars filled groups values,
    )

fill_halves :
    (t u : Text) (ts us : List Text) (n : ℕ)
    → half_groups t ≡ ts
    → half_groups u ≡ us
    → length ts + (suc n + length us) ≡ 8
    → fill_groups (t ∷ u ∷ []) ≡ some (ts ++ (replicate_zero (suc n) ++ us))
unfolding fill_groups
fill_halves t u ts us n e f size =
    let room : leb 8 (length ts + length us) ≡ false = ground (arith, size) in
    let fill : 8 - (length ts + length us) ≡ suc n = omega (arith, size) in
    rw (e, f, room, fill) (ap some (append_assoc ts (replicate_zero (suc n)) us))

zero_groups :
    (n : ℕ) → (all is_group (replicate_zero n) ≡ true) × (map hex (replicate_zero n) ≡ zeros n)
unfolding replicate_zero hex_from
zero_groups zero = (refl, refl)
zero_groups (suc n) =
    let (groups, values) = zero_groups n in (rw groups refl, ap (λ x. 0 ∷ x) values)

map-append {ℓ κ} :
    {A : Type ℓ} {B : Type κ} (f : A → B) (xs ys : List A) → map f (xs ++ ys) ≡ map f xs ++ map f ys
map-append f [] ys = refl
map-append f (x ∷ xs) ys = ap (λ r. f x ∷ r) (map-append f xs ys)

halves-IsRead :
    (before after : List ℕ) (n : ℕ)
    → length before + (suc n + length after) ≡ 8
    → All (λ g. g < 65536) before
    → All (λ g. g < 65536) after
    → IsRead
        (joined (map to_hex before) ++ (b':' ∷ b':' ∷ joined (map to_hex after)))
        (before ++ (zeros (suc n) ++ after))
halves-IsRead before after n size small_before small_after =
    let ts = map to_hex before in
    let us = map to_hex after in
    let t = joined ts ++ (b':' ∷ b':' ∷ joined us) in
    let (tg, tv) = groups_are before small_before in
    let (ug, uv) = groups_are after small_after in
    let (zg, zv) = zero_groups (suc n) in
    let tc : length ts ≡ length before = length-map to_hex before in
    let uc : length us ≡ length after = length-map to_hex after in
    let (t_chars, _, t_high) = joined-IsSized ts tg in
    let (u_chars, _, u_high) = joined-IsSized us ug in
    let total = length-append (joined ts) (b':' ∷ b':' ∷ joined us) in
    let chars : all plain t ≡ true =
      all-append plain (joined ts) (b':' ∷ b':' ∷ joined us) t_chars u_chars in
    let groups : all is_group (ts ++ (replicate_zero (suc n) ++ us)) ≡ true =
      all-append is_group ts (replicate_zero (suc n) ++ us) tg
        (all-append is_group (replicate_zero (suc n)) us zg ug) in
    let values : map hex (ts ++ (replicate_zero (suc n) ++ us))
        ≡ before ++ (zeros (suc n) ++ after) =
      map-append hex ts (replicate_zero (suc n) ++ us)
      ∙ ap (λ x. map hex ts ++ x) (map-append hex (replicate_zero (suc n)) us)
      ∙ ap (λ x. x ++ (map hex (replicate_zero (suc n)) ++ map hex us)) tv
      ∙ ap (λ x. before ++ (x ++ map hex us)) zv
      ∙ ap (λ x. before ++ (zeros (suc n) ++ x)) uv in
    let filled : fill_groups (split_double t) ≡ some (ts ++ (replicate_zero (suc n) ++ us)) =
      ap fill_groups (split_double-halves ts us tg ug)
      ∙ fill_halves (joined ts) (joined us) ts us n (half_groups-joined ts tg)
          (half_groups-joined us ug) (omega (arith, tc, uc, size)) in
    (
      chars,
      omega (arith, total),
      omega (arith, total, t_high, u_high, tc, uc, size),
      ipv6_groups_lem t (ts ++ (replicate_zero (suc n) ++ us)) (before ++ (zeros (suc n) ++ after))
          chars filled groups values,
    )

All-split {ℓ κ} :
    {A : Type ℓ} (P : A → Type κ) (xs ys : List A) → All P (xs ++ ys) → All P xs × All P ys
All-split P [] ys h = (tt, h)
All-split P (x ∷ xs) ys (p, h) = (let (left, right) = All-split P xs ys h in ((p, left), right))

format_single :
    (gs : List ℕ) (best : Run)
    → best_run 0 0 (record { start = 0; size = 0 }) gs ≡ best
    → ltb best.size 2 ≡ true
    → format_ipv6 gs ≡ joined (map to_hex gs)
unfolding format_ipv6
format_single gs best e h = rw (e, h) refl

format_halves :
    (gs : List ℕ) (best : Run)
    → best_run 0 0 (record { start = 0; size = 0 }) gs ≡ best
    → ltb best.size 2 ≡ false
    → format_ipv6 gs
      ≡ joined (map to_hex (take best.start gs))
        ++ (b':' ∷ b':' ∷ joined (map to_hex (drop (best.start + best.size) gs)))
unfolding format_ipv6
format_halves gs best e h =
    let left = joined (map to_hex (take best.start gs)) in
    let right = joined (map to_hex (drop (best.start + best.size) gs)) in
    rw (e, h) (append_assoc left (codes "::") right)

-- The halves of the groups around the run that is left out.
around :
    (gs before after : List ℕ) (best : Run)
    → gs ≡ before ++ (zeros best.size ++ after)
    → length before ≡ best.start
    → (take best.start gs ≡ before) × (drop (best.start + best.size) gs ≡ after)
around gs before after best e n =
    let sized : length (before ++ zeros best.size) ≡ best.start + best.size =
      omega (arith, n, length-append before (zeros best.size), length-zeros best.size) in
    (
      ap (λ k. take k gs) (sym n)
          ∙ ap (take (length before)) e
          ∙ take-length-append before (zeros best.size ++ after),
      ap (λ k. drop k gs) (sym sized)
          ∙ ap (drop (length (before ++ zeros best.size)))
              (e ∙ sym (append_assoc before (zeros best.size) after))
          ∙ drop-length-append (before ++ zeros best.size) after,
    )

halved :
    (gs before after : List ℕ) (best : Run) (n : ℕ)
    → best_run 0 0 (record { start = 0; size = 0 }) gs ≡ best
    → ltb best.size 2 ≡ false
    → best.size ≡ suc n
    → gs ≡ before ++ (zeros best.size ++ after)
    → length before ≡ best.start
    → length gs ≡ 8
    → All (λ g. g < 65536) gs
    → IsRead (format_ipv6 gs) gs
halved gs before after best n is long size e start count small =
    let whole : gs ≡ before ++ (zeros (suc n) ++ after) =
      e ∙ ap (λ k. before ++ (zeros k ++ after)) size in
    let (small_before, rest) =
      All-split (λ g. g < 65536) before (zeros (suc n) ++ after)
        (subst (All (λ g. g < 65536)) whole small) in
    let (_, small_after) = All-split (λ g. g < 65536) (zeros (suc n)) after rest in
    let (left, right) = around gs before after best e start in
    let text : format_ipv6 gs
        ≡ joined (map to_hex before) ++ (b':' ∷ b':' ∷ joined (map to_hex after)) =
      format_halves gs best is long
      ∙ ap
          (λ x.
            joined (map to_hex x)
            ++ (b':' ∷ b':' ∷ joined (map to_hex (drop (best.start + best.size) gs))))
          left
      ∙ ap (λ x. joined (map to_hex before) ++ (b':' ∷ b':' ∷ joined (map to_hex x))) right in
    let total : length before + (suc n + length after) ≡ 8 = omega (
      arith,
      sym (ap length whole) ∙ count,
      length-append before (zeros (suc n) ++ after),
      length-append (zeros (suc n)) after,
      length-zeros (suc n),
    ) in
    subst (λ x. IsRead x gs) (sym text)
      (subst (IsRead (joined (map to_hex before) ++ (b':' ∷ b':' ∷ joined (map to_hex after))))
        (sym whole) (halves-IsRead before after n total small_before small_after))

-- Eight groups of 16 bits that are written are read back.
pub format_ipv6-IsRead :
    (gs : List ℕ) → length gs ≡ 8 → All (λ g. g < 65536) gs → IsRead (format_ipv6 gs) gs
format_ipv6-IsRead gs count small =
    let best = best_run 0 0 (record { start = 0; size = 0 }) gs in
    let (before, after, e, start) =
      best_run_lem gs [] gs 0 0 (record { start = 0; size = 0 }) refl refl ([], gs, refl, refl) in
    elim (Bool-cases (ltb best.size 2)) [
      | inl short ↦
          subst (λ x. IsRead x gs) (sym (format_single gs best refl short))
            (single-IsRead gs count small)
      | inr long ↦
          halved gs before after best (best.size - 1) refl long (ground (arith, long)) e start count
            small
    ]
