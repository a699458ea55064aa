-- ===== src/Supervisor/Artifact/Sorted.antt =====
-- The sorted digests: the same ones, and sorting them again changes nothing.
use outscan.Prelude.{
  suc, ◌≡◌, refl, ap, ◌∙◌, Bool, true, false, not, ◌&&◌, ◌||◌, List, [], ◌∷◌, length, all, arith,
  and-eq-true,
}
use outscan.Js.{Text, text_eq, text_in}
use outscan.ScannerPolicy.{no_repeats}
use outscan.Supervisor.Artifact.{text_leb, insert, sort}

text_leb_total : (s t : Text) → text_leb s t ≡ false → text_leb t s ≡ true
unfolding text_leb
text_leb_total [] t h = cc
text_leb_total (a ∷ s) [] h = refl
text_leb_total (a ∷ s) (b ∷ t) h = ground (arith, h, text_leb_total s t)

text_eq_sym : (s t : Text) → text_eq s t ≡ text_eq t s
unfolding text_eq
text_eq_sym [] [] = refl
text_eq_sym (a ∷ s) (b ∷ t) = ground (arith, text_eq_sym s t)
text_eq_sym [] (b ∷ t) = refl
text_eq_sym (a ∷ s) [] = refl

length-insert : (t : Text) (us : List Text) → length (insert t us) ≡ suc (length us)
unfolding insert
length-insert t [] = refl
length-insert t (u ∷ us) = ground (arith, length-insert t us)

all-insert : (p : Text → Bool) (t : Text) (us : List Text) → all p (insert t us) ≡ (p t && all p us)
unfolding insert
all-insert p t [] = refl
all-insert p t (u ∷ us) = ground (arith, all-insert p t us)

text_in-insert :
    (x t : Text) (us : List Text) → text_in x (insert t us) ≡ (text_eq x t || text_in x us)
unfolding insert text_in
text_in-insert x t [] = refl
text_in-insert x t (u ∷ us) = ground (arith, text_in-insert x t us)

no_repeats-insert :
    (t : Text) (us : List Text) → no_repeats (insert t us) ≡ (not (text_in t us) && no_repeats us)
unfolding insert no_repeats text_in
no_repeats-insert t [] = refl
no_repeats-insert t (u ∷ us) =
    ground (arith, no_repeats-insert t us, text_in-insert u t us, text_eq_sym u t)

pub length-sort : (ts : List Text) → length (sort ts) ≡ length ts
unfolding sort
length-sort [] = refl
length-sort (t ∷ ts) = length-insert t (sort ts) ∙ ap suc (length-sort ts)

pub all-sort : (p : Text → Bool) (ts : List Text) → all p (sort ts) ≡ all p ts
unfolding sort
all-sort p [] = refl
all-sort p (t ∷ ts) = all-insert p t (sort ts) ∙ ap (λ b. p t && b) (all-sort p ts)

text_in-sort : (x : Text) (ts : List Text) → text_in x (sort ts) ≡ text_in x ts
unfolding sort text_in
text_in-sort x [] = refl
text_in-sort x (t ∷ ts) =
    text_in-insert x t (sort ts) ∙ ap (λ b. text_eq x t || b) (text_in-sort x ts)

pub no_repeats-sort : (ts : List Text) → no_repeats (sort ts) ≡ no_repeats ts
unfolding sort no_repeats
no_repeats-sort [] = refl
no_repeats-sort (t ∷ ts) =
    ground (arith, no_repeats-insert t (sort ts), text_in-sort t ts, no_repeats-sort ts)

-- Each text is not above the next.
abbrev is_sorted : List Text → Bool
is_sorted [] = true
is_sorted (t ∷ []) = true
is_sorted (t ∷ u ∷ us) = text_leb t u && is_sorted (u ∷ us)

insert-is_sorted :
    (t : Text) (us : List Text) → is_sorted us ≡ true → is_sorted (insert t us) ≡ true
unfolding insert
insert-is_sorted t [] h = refl
insert-is_sorted t (u ∷ []) h = ground (arith, text_leb_total t u)
insert-is_sorted t (u ∷ v ∷ vs) h =
    let (first, rest) = and-eq-true (text_leb u v) (is_sorted (v ∷ vs)) h in
    ground (arith, first, rest, text_leb_total t u, insert-is_sorted t (v ∷ vs) rest)

sort-is_sorted : (ts : List Text) → is_sorted (sort ts) ≡ true
unfolding sort
sort-is_sorted [] = refl
sort-is_sorted (t ∷ ts) = insert-is_sorted t (sort ts) (sort-is_sorted ts)

sorted_lem : (ts : List Text) → is_sorted ts ≡ true → sort ts ≡ ts
unfolding sort insert
sorted_lem [] h = refl
sorted_lem (t ∷ []) h = refl
sorted_lem (t ∷ u ∷ us) h =
    let (first, rest) = and-eq-true (text_leb t u) (is_sorted (u ∷ us)) h in
    ap (insert t) (sorted_lem (u ∷ us) rest) ∙ ground (arith, first)

pub sort-sort : (ts : List Text) → sort (sort ts) ≡ sort ts
sort-sort ts = sorted_lem (sort ts) (sort-is_sorted ts)
