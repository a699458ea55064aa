-- ===== src/GuestAbuse/Retention/Deadline.antt =====
-- A scan is kept until one moment, the same from wherever it is looked at, and deleted from then on.
use outscan.Prelude.{
  ℕ, if◌then◌else◌, ◌+◌, ◌-◌, ◌≤◌, ◌<◌, ◌≡◌, some, leb, arith, >>=-eq-some, Option-cases, inl, inr,
}
use outscan.Js.{Value, bigint, Entries, exact_record, uint64_max}
use outscan.GuestAbuse.Retention.{
  retention_keys, keep, delete_now, check_retention, decide_by_deadline, deadline_of,
  decide_guest_retention,
}

-- A record that is valid at a time is valid, with the same deadline, at every later one.
check_retention_later :
    (fields : Entries) (now later : ℕ) {d : ℕ}
    → check_retention fields now ≡ some d
    → now ≤ later
    → check_retention fields later ≡ some d
unfolding check_retention
check_retention_later fields now later h le = ground arith

check_retention_bound :
    (fields : Entries) (now : ℕ) {d : ℕ}
    → check_retention fields now ≡ some d
    → (d ≤ now + 86400) × (d ≤ uint64_max)
unfolding check_retention
check_retention_bound fields now h = ground arith

deadline_of_later :
    (v : Value) (now later : ℕ) {d : ℕ}
    → deadline_of v now ≡ some d
    → now ≤ later
    → deadline_of v later ≡ some d
unfolding deadline_of
deadline_of_later v now later h le =
    let (fields, e, checked) =
      >>=-eq-some (exact_record retention_keys v) (λ x. check_retention x now) h in
    rw e (check_retention_later fields now later checked le)

deadline_of_bound :
    (v : Value) (now : ℕ) {d : ℕ}
    → deadline_of v now ≡ some d
    → (d ≤ now + 86400) × (d ≤ uint64_max)
unfolding deadline_of
deadline_of_bound v now h =
    let (fields, _, checked) =
      >>=-eq-some (exact_record retention_keys v) (λ x. check_retention x now) h in
    check_retention_bound fields now checked

kept_deadline :
    (v : Value) (now s : ℕ)
    → decide_guest_retention v (bigint now) ≡ keep s
    → (deadline_of v now ≡ some (now + s)) × (0 < s) × (now ≤ uint64_max)
unfolding decide_guest_retention decide_by_deadline
kept_deadline v now s h = ground arith

deleted_deadline :
    (v : Value) (now : ℕ)
    → decide_guest_retention v (bigint now) ≡ delete_now
    → (d : ℕ) × (deadline_of v now ≡ some d) × (d ≤ now)
unfolding decide_guest_retention decide_by_deadline
deleted_deadline v now h = elim (Option-cases (deadline_of v now)) [
  | inl invalid ↦ absurd (ground arith)
  | inr (d, e) ↦ (d, e, ground arith)
]

decide_at :
    (v : Value) (now d : ℕ)
    → now ≤ uint64_max
    → deadline_of v now ≡ some d
    → decide_guest_retention v (bigint now) ≡ (if leb d now then delete_now else keep (d - now))
unfolding decide_guest_retention decide_by_deadline
decide_at v now d u e = ground arith

-- A record that is kept for another s seconds, which are at least 1 and at most 86,400, is kept for
-- s - t seconds when it is looked at t < s seconds later, and is to be deleted at every time from s
-- seconds later on that the decision accepts.
pub keep_then_delete :
    (v : Value) (now s t : ℕ)
    → decide_guest_retention v (bigint now) ≡ keep s
    → now + t ≤ uint64_max
    → (0 < s)
      × (s ≤ 86400)
      × (t < s → decide_guest_retention v (bigint (now + t)) ≡ keep (s - t))
      × (s ≤ t → decide_guest_retention v (bigint (now + t)) ≡ delete_now)
keep_then_delete v now s t h u =
    let (e, pos, small) = kept_deadline v now s h in
    let at =
      decide_at v (now + t) (now + s) u (deadline_of_later v now (now + t) e (omega arith)) in
    (pos, omega (arith, deadline_of_bound v now e), λ early. ground arith, λ late. ground arith)

-- A record that is to be deleted stays so at every later time that the decision accepts.
pub delete_for_good :
    (v : Value) (now later : ℕ)
    → decide_guest_retention v (bigint now) ≡ delete_now
    → now ≤ later
    → later ≤ uint64_max
    → decide_guest_retention v (bigint later) ≡ delete_now
delete_for_good v now later h le u =
    let (d, e, due) = deleted_deadline v now h in
    let at = decide_at v later d u (deadline_of_later v now later e le) in ground arith
