-- ===== src/Target/SafeHttpFlow/Safe.antt =====
-- Every request that the flow sends.
use outscan.Prelude.{
  ℕ, zero, suc, ◌+◌, ◌-◌, ◌%◌, ◌≤◌, ◌≡◌, refl, Option, none, some, List, [], ◌∷◌, arith, length,
  get_elem?, ltb, ◌++◌, All, All-map, Any, Option-cases, Bool-cases, inl, inr, ◌⊎◌, >>=-eq-some,
}
use outscan.Js.{Text, Value, exact_record}
use outscan.Target.IpPolicy.{ValidatedIpAddress}
use outscan.Target.Resolver.{
  ResolveTargetResult, resolved, unresolved, ResolveFailure, ResolvedTarget,
  resolve_and_classify_hostname,
}
use outscan.Target.Resolver.Pinned.{FromRecord, IsPinned, resolve-IsPinned}
use outscan.Target.SafeHttpFlow.{SafeHttpFlowInput, parse_input, check_input, input_keys}
use outscan.Target.SafeHttpFlow.Redirect.{Platform}
use outscan.Target.SafeHttpFlow.Loop.{
  FlowTurn, FlowState, send, Dispatch, prepare, prepare_request, again, flow_turn, first_state,
  remaining_limits, read_clock, choose_pin,
}
use outscan.Target.SafeHttpFlow.Requests.{KeepsRequest, flow_turn-KeepsRequest}

-- A request to the host of the input, at an address of the target that the lookup of this very turn
-- yields; it has no more time than is left.
pub record IsSafeDispatch (platform : Platform) (configured : Value) (input : SafeHttpFlowInput)
    (turn : FlowTurn) (dispatch : Dispatch) : Type 0 where
  pub looked_up_at : ℕ
  pub clock : read_clock turn.resolution_clock ≡ some looked_up_at
  pub looked_up :
      resolve_and_classify_hostname platform.domain_to_ascii input.canonical_host turn.answers
        configured looked_up_at
      ≡ resolved dispatch.target
  pub pinned : IsPinned input.canonical_host turn.answers configured looked_up_at dispatch.target
  pub chosen : ValidatedIpAddress
  pub chosen_listed : Any (λ v. v ≡ chosen) dispatch.target.addresses
  pub chosen_clear : Any (FromRecord pinned.ranges chosen) (pinned.records4 ++ pinned.records6)
  pub chosen_address : dispatch.pinned_address ≡ chosen.address
  pub in_time : dispatch.now_unix_ms + dispatch.limits.timeout_ms ≤ input.deadline_unix_ms
  pub request : KeepsRequest input dispatch.request

-- The states that the loop reaches.
pub data Reaches (platform : Platform) (configured : Value) (input : SafeHttpFlowInput)
    : FlowState → Type 0 where
  start : Reaches platform configured input (first_state input)
  turned :
      (state after : FlowState) (turn : FlowTurn)
      → Reaches platform configured input state
      → flow_turn platform configured input state turn ≡ again after
      → Reaches platform configured input after

All-get {ℓ κ} :
    {A : Type ℓ} (P : A → Type κ) (xs : List A) (i : ℕ) {x : A}
    → All P xs
    → get_elem? xs i ≡ some x
    → P x
All-get P [] i h e = cc
All-get P (y ∷ ys) zero (p, h) e = (let same : y ≡ _ = cc in rw same at p)
All-get P (y ∷ ys) (suc i) (p, h) e = All-get P ys i h e

choose_pin-All :
    (P : ValidatedIpAddress → Type 0) (addresses : List ValidatedIpAddress) (retries : ℕ)
    (pin : ValidatedIpAddress)
    → All P addresses
    → choose_pin addresses retries ≡ some pin
    → P pin
choose_pin-All P [] retries pin h e = cc
choose_pin-All P (a ∷ rest) retries pin h e = All-get P (a ∷ rest) (retries % length (a ∷ rest)) h e

All-self : (xs : List ValidatedIpAddress) → All (λ x. Any (λ v. v ≡ x) xs) xs
All-self [] = tt
All-self (x ∷ xs) = (
  inl refl,
  All-map (λ y. Any (λ v. v ≡ y) xs) (λ y. Any (λ v. v ≡ y) (x ∷ xs)) (λ y found. inr found) xs
      (All-self xs),
)

prepare_request-IsSafeDispatch :
    (platform : Platform) (configured : Value) (input : SafeHttpFlowInput) (state : FlowState)
    (turn : FlowTurn) (target : ResolvedTarget) (clock : Option ℕ) (pin : Option ValidatedIpAddress)
    (dispatch : Dispatch) (at : ℕ)
    → choose_pin target.addresses state.retries ≡ pin
    → read_clock turn.resolution_clock ≡ some at
    → resolve_and_classify_hostname platform.domain_to_ascii input.canonical_host turn.answers
        configured at
      ≡ resolved target
    → KeepsRequest input state.current
    → prepare_request input state target clock pin ≡ send dispatch
    → IsSafeDispatch platform configured input turn dispatch
prepare_request-IsSafeDispatch platform configured input state turn target none pin dispatch at c t
      r k h =
    cc
prepare_request-IsSafeDispatch platform configured input state turn target (some now) none dispatch
      at c t r k h =
    ground (arith, h)
prepare_request-IsSafeDispatch platform configured input state turn target (some now) (some pin)
      dispatch at c t r k h =
    elim (Bool-cases (ltb input.deadline_unix_ms (now + 100))) [
      | inl late ↦ ground (arith, h, late)
      | inr on_time ↦
          let built : Dispatch = record {
            target = target;
            request = state.current;
            pinned_address = pin.address;
            now_unix_ms = now;
            limits = remaining_limits input.transport_limits (input.deadline_unix_ms - now);
          } in
          let same : built ≡ dispatch = ground (arith, h, on_time) in
          let p : IsPinned input.canonical_host turn.answers configured at target =
            resolve-IsPinned platform.domain_to_ascii input.canonical_host turn.answers configured
              at target r in
          let safe : IsSafeDispatch platform configured input turn built = record {
            looked_up_at = at;
            clock = t;
            looked_up = r;
            pinned = p;
            chosen = pin;
            chosen_listed =
                choose_pin-All (λ x. Any (λ v. v ≡ x) target.addresses) target.addresses
                  state.retries pin (All-self target.addresses) c;
            chosen_clear =
                choose_pin-All (λ v. Any (FromRecord p.ranges v) (p.records4 ++ p.records6))
                  target.addresses state.retries pin (p.clear) c;
            chosen_address = refl;
            in_time = ground (arith, on_time);
            request = k;
          } in
          rw same at safe
    ]

ResolveTargetResult-cases :
    (r : ResolveTargetResult)
    → ((target : ResolvedTarget) × (r ≡ resolved target))
      ⊎ ((code : ResolveFailure) × (r ≡ unresolved code))
ResolveTargetResult-cases (resolved target) = inl (target, refl)
ResolveTargetResult-cases (unresolved code) = inr (code, refl)

prepare-IsSafeDispatch :
    (platform : Platform) (configured : Value) (input : SafeHttpFlowInput) (state : FlowState)
    (turn : FlowTurn) (dispatch : Dispatch)
    → KeepsRequest input state.current
    → prepare platform configured input state turn ≡ send dispatch
    → IsSafeDispatch platform configured input turn dispatch
unfolding prepare
prepare-IsSafeDispatch platform configured input state turn dispatch k h =
    elim (Option-cases (read_clock turn.resolution_clock)) [
      | inl e ↦ ground (arith, h, e)
      | inr (now, e) ↦
          elim (ResolveTargetResult-cases (
            resolve_and_classify_hostname platform.domain_to_ascii input.canonical_host turn.answers
              configured now)) [
                | inl (target, r) ↦
                    prepare_request-IsSafeDispatch platform configured input state turn target
                      (read_clock turn.request_clock) (choose_pin target.addresses state.retries)
                      dispatch now refl e r k (ground (arith, h, e, r))
                | inr (code, r) ↦ ground (arith, h, e, r)
              ]
    ]

parse_input-KeepsRequest :
    (domain_to_ascii : Text → Option Text) (value : Value) (input : SafeHttpFlowInput)
    → parse_input domain_to_ascii value ≡ some input
    → KeepsRequest input input.request
unfolding parse_input
parse_input-KeepsRequest domain_to_ascii value input h =
    let (es, _, k) = >>=-eq-some (exact_record input_keys value) (check_input domain_to_ascii) h in
    record { method = refl; path = ground (arith, k); no_downgrade = λ secure. secure }

Reaches-KeepsRequest :
    (platform : Platform) (configured : Value) (input : SafeHttpFlowInput) (state : FlowState)
    → KeepsRequest input input.request
    → Reaches platform configured input state
    → KeepsRequest input state.current
Reaches-KeepsRequest platform configured input _ k start = k
Reaches-KeepsRequest platform configured input _ k (turned state after turn r h) =
    flow_turn-KeepsRequest platform configured input state after turn
      (Reaches-KeepsRequest platform configured input state k r) h

-- Every request that a flow sends, in any turn and after any retries and redirects, goes to the host
-- of its input, at an address of the target that the lookup of that very turn yields. Its text is one of
-- the same address as that of a DNS record in the answers of the turn, and that address lies outside of
-- every built-in and configured range. The request keeps the method, has a well-formed path, is on
-- HTTPS if the input was, and its time limit ends no later than the deadline. This holds whatever the
-- DNS, the clock and the servers do.
pub sends-IsSafeDispatch :
    (platform : Platform) (configured value : Value) (input : SafeHttpFlowInput) (state : FlowState)
    (turn : FlowTurn) (dispatch : Dispatch)
    → parse_input platform.domain_to_ascii value ≡ some input
    → Reaches platform configured input state
    → prepare platform configured input state turn ≡ send dispatch
    → IsSafeDispatch platform configured input turn dispatch
sends-IsSafeDispatch platform configured value input state turn dispatch e r h =
    prepare-IsSafeDispatch platform configured input state turn dispatch
      (Reaches-KeepsRequest platform configured input state
        (parse_input-KeepsRequest platform.domain_to_ascii value input e) r)
      h
