-- ===== src/Notifications/DeliveryFsm/Histories.antt =====
-- What holds over the whole life of a delivery.
use outscan.Prelude.{
  ap, ◌∙◌, ℕ, ◌+◌, ◌-◌, ◌*◌, ◌≤◌, ◌<◌, ◌≡◌, true, false, some, [], ◌∷◌, arith, length-append,
  All-append, Bool-cases, inl, inr, >>=-eq-some,
}
use outscan.Js.{text_in, Text, Value, exact_record}
use outscan.Js.Patterns.{is_identifier}
use outscan.Notifications.DeliveryFsm.{
  is_provider_status, DeliveryStatus, queued, sending, accepted, delivered, retry_scheduled,
  unknown, DeliverySnapshot, apply, ack_replay, allowed, snapshot_keys, check_snapshot,
  valid_snapshot, decide_provider, starts_attempt,
}
use outscan.Notifications.DeliveryFsm.Steps.{
  IsValid, History, here, internally, by_provider, Internal, ByProvider, decide_internal-Internal,
  decide_provider-ByProvider, Distinct-append, text_in-append_self, text_in-append,
  check_snapshot-IsValid,
}

-- How many transitions may follow without a new attempt, and at all.
abbrev height : DeliveryStatus → ℕ
height queued = 1
height sending = 5
height unknown = 4
height accepted = 3
height delivered = 2
height retry_scheduled = 1
height _ = 0

abbrev pub remaining : DeliverySnapshot → ℕ
remaining s = (100 - s.attempt_count) * 6 + height s.status

allowed-height :
    (a b : DeliveryStatus) → allowed a b ≡ true → starts_attempt b ≡ false → height b < height a
unfolding allowed
allowed-height a b h e = ground (arith, h, e)

starts_attempt-height : (b : DeliveryStatus) → starts_attempt b ≡ true → height b ≡ 5
starts_attempt-height b e = ground (arith, e)

provider_kept : (b : DeliveryStatus) → is_provider_status b ≡ true → starts_attempt b ≡ false
provider_kept b e = ground (arith, e)

Internal-remaining :
    (s after : DeliverySnapshot) (next : DeliveryStatus)
    → Internal s after next
    → remaining after < remaining s
Internal-remaining s after next step = elim (Bool-cases (starts_attempt next)) [
  | inl e ↦
      let (count, room) = step.started e in
      let tall : height after.status ≡ 5 = ap height (step.status) ∙ starts_attempt-height next e in
      omega (arith, count, room, tall)
  | inr e ↦
      let lower = allowed-height s.status next (step.is_allowed) e in
      let same : height after.status ≡ height next = ap height (step.status) in
      omega (arith, step.kept e, lower, same)
]

ByProvider-remaining :
    (s after : DeliverySnapshot) (id : Text) (next : DeliveryStatus)
    → is_provider_status next ≡ true
    → ByProvider s after id next
    → remaining after < remaining s
ByProvider-remaining s after id next p step =
    let lower = allowed-height s.status next (step.is_allowed) (provider_kept next p) in
    let same : height after.status ≡ height next = ap height (step.status) in
    omega (arith, step.kept, lower, same)

-- A delivery comes to rest, however the service's own transitions and the providers' events are
-- ordered: from any state, no more transitions can follow than six for each attempt that is left
-- and, by the status, up to five more; so at most 601 from a new delivery.
pub History-remaining :
    (s end : DeliverySnapshot) (n : ℕ) → History s n end → n + remaining end ≤ remaining s
History-remaining s _ _ (here _) = omega arith
History-remaining s end _ (internally _ after _ n next _ h later) =
    let step = decide_internal-Internal s after next h in
    omega (arith, Internal-remaining s after next step, History-remaining after end n later)
History-remaining s end _ (by_provider _ after _ n id next _ p h later) =
    let step = decide_provider-ByProvider s after id next h in
    omega (arith, ByProvider-remaining s after id next p step, History-remaining after end n later)

Internal-IsValid :
    (s after : DeliverySnapshot) (next : DeliveryStatus)
    → Internal s after next
    → IsValid s
    → IsValid after
Internal-IsValid s after next step v = elim (Bool-cases (starts_attempt next)) [
  | inl e ↦
      let (count, room) = step.started e in
      record {
        attempts = omega (arith, count, room);
        events = rw (step.events) (v.events);
        identifiers = rw (step.events) (v.identifiers);
        distinct = rw (step.events) (v.distinct);
      }
  | inr e ↦ record {
    attempts = rw (step.kept e) (v.attempts);
    events = rw (step.events) (v.events);
    identifiers = rw (step.events) (v.identifiers);
    distinct = rw (step.events) (v.distinct);
  }
]

ByProvider-IsValid :
    (s after : DeliverySnapshot) (id : Text) (next : DeliveryStatus)
    → is_identifier id ≡ true
    → ByProvider s after id next
    → IsValid s
    → IsValid after
ByProvider-IsValid s after id next ok step v =
    let ids = s.processed_provider_event_ids in
    record {
      attempts = rw (step.kept) (v.attempts);
      events = rw (step.events) (omega (arith, step.room, length-append ids (id ∷ [])));
      identifiers =
          rw (step.events)
            (All-append (λ i. is_identifier i ≡ true) ids (id ∷ []) (v.identifiers) (ok, tt));
      distinct = rw (step.events) (Distinct-append id ids (v.distinct) (step.fresh));
    }

-- From a snapshot that the code accepts, every history leads to a state that is valid: at most 100
-- attempts, at most 1000 provider events, each a well-formed identifier and none there twice.
pub History-IsValid :
    (value : Value) (s end : DeliverySnapshot) (n : ℕ)
    → valid_snapshot value ≡ some s
    → History s n end
    → IsValid end
unfolding valid_snapshot
History-IsValid value s end n h history =
    let (es, _, k) = >>=-eq-some (exact_record snapshot_keys value) check_snapshot h in
    go s end n (check_snapshot-IsValid es s k) history
  where
    go : (s end : DeliverySnapshot) (n : ℕ) → IsValid s → History s n end → IsValid end
    go s _ _ v (here _) = v
    go s end _ v (internally _ after _ n next _ h later) =
        go after end n (Internal-IsValid s after next (decide_internal-Internal s after next h) v)
          later
    go s end _ v (by_provider _ after _ n id next ok _ h later) =
        go after end n
          (ByProvider-IsValid s after id next ok (decide_provider-ByProvider s after id next h) v)
          later

History-text_in :
    (id : Text) (s end : DeliverySnapshot) (n : ℕ)
    → History s n end
    → text_in id s.processed_provider_event_ids ≡ true
    → text_in id end.processed_provider_event_ids ≡ true
History-text_in id s _ _ (here _) h = h
History-text_in id s end _ (internally _ after _ n next _ e later) h =
    let step = decide_internal-Internal s after next e in
    History-text_in id after end n later (rw (step.events) h)
History-text_in id s end _ (by_provider _ after _ n new next _ _ e later) h =
    let step = decide_provider-ByProvider s after new next e in
    History-text_in id after end n later
      (rw (step.events) (text_in-append id new s.processed_provider_event_ids h))

-- A provider's event takes effect once: when it has been applied, it is acknowledged as a replay ever
-- after, whatever transitions came in between and whatever status it now proposes.
pub applied-replay :
    (s after end : DeliverySnapshot) (id : Text) (next again : DeliveryStatus) (n : ℕ)
    → decide_provider s id next ≡ apply after
    → History after n end
    → decide_provider end id again ≡ ack_replay
unfolding decide_provider
applied-replay s after end id next again n h history =
    let step = decide_provider-ByProvider s after id next h in
    let present : text_in id after.processed_provider_event_ids ≡ true =
      rw (step.events) (text_in-append_self id s.processed_provider_event_ids) in
    ground (arith, History-text_in id after end n history present)
