-- ===== src/Notifications/DeliveryFsm/Steps.antt =====
-- What a snapshot and a single transition of a delivery keep.
use mathlib.Core.Path.{subst}
use outscan.Prelude.{
  sym, guard, ℕ, suc, ◌+◌, ◌≤◌, ◌<◌, ◌≡◌, refl, true, false, not, some, List, [], ◌∷◌, ◌++◌, arith,
  length, All, >>=-eq-some, guard-eq-some,
}
use outscan.Js.{
  text_in, Text, Value, string, array, values, Entries, get, text_eq, text_eq_refl, text_eq_iff,
}
use outscan.Js.Patterns.{is_identifier}
use outscan.Notifications.DeliveryFsm.{
  is_provider_status, DeliveryStatus, DeliverySnapshot, apply, allowed, as_identifier, as_event_ids,
  distinct_identifiers, check_snapshot, decide_internal, decide_provider, starts_attempt,
}

-- No event twice.
abbrev pub Distinct : List Text → Type 0
Distinct [] = Unit
Distinct (id ∷ ids) = (text_in id ids ≡ false) × Distinct ids

pub record IsValid (s : DeliverySnapshot) : Type 0 where
  pub attempts : s.attempt_count ≤ 100
  pub events : length s.processed_provider_event_ids ≤ 1000
  pub identifiers : All (λ id. is_identifier id ≡ true) s.processed_provider_event_ids
  pub distinct : Distinct s.processed_provider_event_ids

-- The transitions that a delivery goes through, from the status of the service or of a provider's
-- event, in any order.
pub data History : DeliverySnapshot → ℕ → DeliverySnapshot → Type 0 where
  here : (s : DeliverySnapshot) → History s 0 s
  internally :
      (s after end : DeliverySnapshot) (n : ℕ) (next : DeliveryStatus)
      → is_provider_status next ≡ false
      → decide_internal s next ≡ apply after
      → History after n end
      → History s (suc n) end
  by_provider :
      (s after end : DeliverySnapshot) (n : ℕ) (id : Text) (next : DeliveryStatus)
      → is_identifier id ≡ true
      → is_provider_status next ≡ true
      → decide_provider s id next ≡ apply after
      → History after n end
      → History s (suc n) end

pub text_in-append_self : (id : Text) (ids : List Text) → text_in id (ids ++ id ∷ []) ≡ true
unfolding text_in
text_in-append_self id [] = ground (arith, text_eq_refl id)
text_in-append_self id (j ∷ ids) = ground (arith, text_in-append_self id ids)

pub text_in-append :
    (id new : Text) (ids : List Text) → text_in id ids ≡ true → text_in id (ids ++ new ∷ []) ≡ true
unfolding text_in
text_in-append id new [] h = cc
text_in-append id new (j ∷ ids) h = ground (arith, h, text_in-append id new ids)

text_in-append-false :
    (id new : Text) (ids : List Text)
    → text_in id ids ≡ false
    → text_eq id new ≡ false
    → text_in id (ids ++ new ∷ []) ≡ false
unfolding text_in
text_in-append-false id new [] h e = ground (arith, e)
text_in-append-false id new (j ∷ ids) h e = ground (arith, h, text_in-append-false id new ids)

pub Distinct-append :
    (id : Text) (ids : List Text)
    → Distinct ids
    → text_in id ids ≡ false
    → Distinct (ids ++ id ∷ [])
unfolding text_in
Distinct-append id [] d h = (refl, tt)
Distinct-append id (j ∷ ids) (first, d) h =
    let fresh : text_eq id j ≡ false = ground (arith, h) in
    let other : text_eq j id ≡ false = ground (arith, fresh, text_eq_iff j id, text_eq_iff id j) in
    (text_in-append-false j id ids first other, Distinct-append id ids d (ground (arith, h)))

as_identifier_sound : (v : Value) (id : Text) → as_identifier v ≡ some id → is_identifier id ≡ true
as_identifier_sound (string t) id h = ground (arith, h)
as_identifier_sound _ id h = cc

distinct_identifiers-cons :
    (v : Value) (vs : List Value) (ids : List Text)
    → distinct_identifiers (v ∷ vs) ≡ some ids
    → (i : Text) × (rest : List Text) × (as_identifier v ≡ some i)
      × (distinct_identifiers vs ≡ some rest)
      × (text_in i rest ≡ false)
      × (ids ≡ i ∷ rest)
unfolding distinct_identifiers
distinct_identifiers-cons v vs ids h =
    let (i, ok, h1) = >>=-eq-some (as_identifier v) _ h in
    let (rest, found, h2) = >>=-eq-some (distinct_identifiers vs) _ h1 in
    let (_, new, h3) = >>=-eq-some (guard (not (text_in i rest))) _ h2 in
    (i, rest, ok, found, ground (arith, guard-eq-some (not (text_in i rest)) new), cc)

distinct_identifiers_sound :
    (vs : List Value) (ids : List Text)
    → distinct_identifiers vs ≡ some ids
    → (length ids ≡ length vs) × All (λ id. is_identifier id ≡ true) ids × Distinct ids
unfolding distinct_identifiers
distinct_identifiers_sound [] [] h = (refl, tt, tt)
distinct_identifiers_sound [] (id ∷ ids) h = ground (arith, h)
distinct_identifiers_sound (v ∷ vs) ids h =
    let (i, rest, ok, found, new, same) = distinct_identifiers-cons v vs ids h in
    let (size, identifiers, distinct) = distinct_identifiers_sound vs rest found in
    let facts : (length (i ∷ rest) ≡ suc (length vs))
        × All (λ id. is_identifier id ≡ true) (i ∷ rest)
        × Distinct (i ∷ rest) =
      (omega (arith, size), (as_identifier_sound v i ok, identifiers), (new, distinct)) in
    subst (λ l. (length l ≡ suc (length vs)) × All (λ id. is_identifier id ≡ true) l × Distinct l)
      (sym same) facts

as_event_ids_sound :
    (v : Value) (ids : List Text)
    → as_event_ids v ≡ some ids
    → (length ids ≤ 1000) × All (λ id. is_identifier id ≡ true) ids × Distinct ids
as_event_ids_sound (array items) ids h =
    let (size, identifiers, distinct) =
      distinct_identifiers_sound (values items) ids (ground (arith, h)) in
    (ground (arith, h, size), identifiers, distinct)
as_event_ids_sound _ ids h = ground (arith, h)

-- A value that is read as a snapshot is a valid one.
pub check_snapshot-IsValid :
    (es : Entries) (s : DeliverySnapshot) → check_snapshot es ≡ some s → IsValid s
check_snapshot-IsValid es s h =
    let found : as_event_ids (get "processedProviderEventIds" es)
        ≡ some s.processed_provider_event_ids =
      ground (arith, h) in
    let (size, identifiers, distinct) =
      as_event_ids_sound (get "processedProviderEventIds" es) s.processed_provider_event_ids
        found in
    record {
      attempts = ground (arith, h);
      events = size;
      identifiers = identifiers;
      distinct = distinct;
    }

-- What an internal transition does.
pub record Internal (s after : DeliverySnapshot) (next : DeliveryStatus) : Type 0 where
  pub is_allowed : allowed s.status next ≡ true
  pub status : after.status ≡ next
  pub events : after.processed_provider_event_ids ≡ s.processed_provider_event_ids
  pub started :
      starts_attempt next ≡ true
      → (after.attempt_count ≡ s.attempt_count + 1) × (s.attempt_count < 100)
  pub kept : starts_attempt next ≡ false → after.attempt_count ≡ s.attempt_count

pub decide_internal-Internal :
    (s after : DeliverySnapshot) (next : DeliveryStatus)
    → decide_internal s next ≡ apply after
    → Internal s after next
unfolding decide_internal
decide_internal-Internal s after next h = record {
  is_allowed = ground (arith, h);
  status = ground (arith, h);
  events = ground (arith, h);
  started = λ e. (ground (arith, h, e), ground (arith, h, e));
  kept = λ e. ground (arith, h, e);
}

pub record ByProvider (s after : DeliverySnapshot) (id : Text) (next : DeliveryStatus)
    : Type 0 where
  pub is_allowed : allowed s.status next ≡ true
  pub status : after.status ≡ next
  pub events : after.processed_provider_event_ids ≡ s.processed_provider_event_ids ++ id ∷ []
  pub fresh : text_in id s.processed_provider_event_ids ≡ false
  pub room : length s.processed_provider_event_ids < 1000
  pub kept : after.attempt_count ≡ s.attempt_count

pub decide_provider-ByProvider :
    (s after : DeliverySnapshot) (id : Text) (next : DeliveryStatus)
    → decide_provider s id next ≡ apply after
    → ByProvider s after id next
unfolding decide_provider
decide_provider-ByProvider s after id next h = record {
  is_allowed = ground (arith, h);
  status = ground (arith, h);
  events = ground (arith, h);
  fresh = ground (arith, h);
  room = ground (arith, h);
  kept = ground (arith, h);
}
