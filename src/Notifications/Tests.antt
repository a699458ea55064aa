-- ===== src/Notifications/Tests.antt =====
-- Runs of apps/api/src/notifications, and the theorems at concrete inputs.
use outscan.Prelude.{◌+◌, ◌≤◌, ◌≡◌, refl, true, none, some, [], ◌∷◌}
use outscan.Js.{
  text_in, Text, Value, string, number, array, object, entry, end, nil, codes, exact_record, get,
  text_eq,
}
use outscan.Js.Patterns.{is_identifier}
use outscan.Notifications.DeliveryFsm.{
  DeliverySnapshot, queued, sending, complained, accepted, apply, ack_replay, ack_stale, deny,
  allowed, as_status, valid_snapshot, distinct_identifiers, decide_internal, decide_provider,
  decide_internal_delivery_transition, decide_provider_delivery_transition,
}
use outscan.Notifications.DeliveryFsm.Steps.{History, here, internally, by_provider, IsValid}
use outscan.Notifications.DeliveryFsm.Histories.{
  remaining, History-remaining, History-IsValid, applied-replay,
}

abbrev event : Text
event = codes "evt-1"

abbrev new_value : Value
new_value = object (
    entry "status" (string (codes "QUEUED"))
      (entry "attemptCount" (number 0) (entry "processedProviderEventIds" (array nil) end)))

abbrev fresh : DeliverySnapshot
fresh = record { status = queued; attempt_count = 0; processed_provider_event_ids = [] }

abbrev started : DeliverySnapshot
started = record { status = sending; attempt_count = 1; processed_provider_event_ids = [] }

abbrev taken : DeliverySnapshot
taken = record { status = accepted; attempt_count = 1; processed_provider_event_ids = event ∷ [] }

fresh_valid : valid_snapshot new_value ≡ some fresh
unfolding valid_snapshot exact_record get as_status text_eq distinct_identifiers
fresh_valid = refl

starts : decide_internal fresh sending ≡ apply started
unfolding decide_internal allowed
starts = refl

takes : decide_provider started event accepted ≡ apply taken
unfolding decide_provider allowed text_in
takes = refl

event_identifier : is_identifier event ≡ true
unfolding is_identifier
event_identifier = refl

abbrev life : History fresh 2 taken
life =
    internally fresh started taken 1 sending refl starts
      (by_provider started taken taken 0 event accepted event_identifier refl takes (here taken))

decisions :
    (decide_internal_delivery_transition new_value (string (codes "SENDING"))
      ≡ some (apply started))
    × (decide_internal_delivery_transition new_value (string (codes "UNKNOWN")) ≡ some deny)
    × (decide_internal_delivery_transition new_value (string (codes "ACCEPTED")) ≡ none)
    × (decide_provider_delivery_transition new_value (string event) (string (codes "DELIVERED"))
        ≡ some ack_stale)
    × (decide_provider_delivery_transition new_value (string event) (string (codes "SENDING"))
        ≡ none)
unfolding decide_internal_delivery_transition decide_provider_delivery_transition valid_snapshot
    exact_record get as_status text_eq distinct_identifiers decide_internal decide_provider allowed
    is_identifier text_in
decisions = (refl, refl, refl, refl, refl)

History-remaining_example : 2 + remaining taken ≤ remaining fresh
History-remaining_example = History-remaining fresh taken 2 life

History-IsValid_example : IsValid taken
History-IsValid_example = History-IsValid new_value fresh taken 2 fresh_valid life

applied-replay_example : decide_provider taken event complained ≡ ack_replay
applied-replay_example =
    applied-replay started taken taken event accepted complained 0 takes (here taken)
