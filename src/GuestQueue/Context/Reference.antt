-- ===== src/GuestQueue/Context/Reference.antt =====
-- That the authorisation reference of a lease is a bounded text without white space around it.
use outscan.Prelude.{
  ℕ, ◌≤◌, ◌≡◌, refl, ap, ◌∙◌, Bool, true, not, ◌&&◌, [], ◌∷◌, length, leb, all, arith, and-eq-true,
}
use outscan.Js.{Text, text_eq_refl}
use outscan.Js.Patterns.{is_identifier, is_word, is_alnum}
use outscan.Supervisor.Authorize.{is_space, trim_start, trim_end, is_bounded_string}
use outscan.GuestQueue.{GuestAttemptLease}
use outscan.GuestQueue.Context.{authorization_ref}

abbrev is_ink : ℕ → Bool
is_ink c = not (is_space c)

trim_start_ink : (t : Text) → all is_ink t ≡ true → trim_start t ≡ t
unfolding trim_start
trim_start_ink [] h = refl
trim_start_ink (c ∷ cs) h = ground (arith, h)

trim_end_ink : (t : Text) → all is_ink t ≡ true → trim_end t ≡ t
unfolding trim_end
trim_end_ink [] h = refl
trim_end_ink (c ∷ []) h = ground (arith, h)
trim_end_ink (c ∷ d ∷ ds) h =
    let (here, later) = and-eq-true (is_ink c) (all is_ink (d ∷ ds)) h in
    ground (arith, trim_end_ink (d ∷ ds) later)

word_ink : (cs : Text) → all is_word cs ≡ true → all is_ink cs ≡ true
unfolding is_space
word_ink [] h = refl
word_ink (c ∷ cs) h =
    let (here, later) = and-eq-true (is_word c) (all is_word cs) h in
    ground (arith, here, word_ink cs later)

identifier_ink : (t : Text) → is_identifier t ≡ true → (all is_ink t ≡ true) × (length t ≤ 128)
unfolding is_identifier is_space
identifier_ink [] h = cc
identifier_ink (c ∷ cs) h =
    let (front, short) = and-eq-true (is_alnum c && all is_word cs) (leb (length cs) 127) h in
    let (here, later) = and-eq-true (is_alnum c) (all is_word cs) front in
    (ground (arith, here, word_ink cs later), ground (arith, short))

reference_ink :
    (lease : GuestAttemptLease)
    → all is_ink lease.guest_scan_id ≡ true
    → all is_ink (authorization_ref lease) ≡ true
unfolding is_space
reference_ink lease ink = ink

pub reference-is_bounded :
    (lease : GuestAttemptLease)
    → is_identifier lease.guest_scan_id ≡ true
    → is_bounded_string (authorization_ref lease) 256 ≡ true
unfolding is_bounded_string
reference-is_bounded lease h =
    let (ink, short) = identifier_ink lease.guest_scan_id h in
    let whole : all is_ink (authorization_ref lease) ≡ true = reference_ink lease ink in
    let trimmed : trim_end (trim_start (authorization_ref lease)) ≡ authorization_ref lease =
      ap trim_end (trim_start_ink (authorization_ref lease) whole)
      ∙ trim_end_ink (authorization_ref lease) whole in
    ground (arith, short, trimmed, text_eq_refl (authorization_ref lease))
