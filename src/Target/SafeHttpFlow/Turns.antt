-- ===== src/Target/SafeHttpFlow/Turns.antt =====
-- How many turns the loop takes, and how many requests it makes.
use outscan.Prelude.{
  ◌&&◌, if◌then◌else◌, ℕ, suc, ◌+◌, ◌-◌, ◌*◌, ◌≤◌, ◌<◌, ◌≡◌, refl, Bool, true, false, Option, none,
  some, arith, length, ltb, leb,
}
use native.Mathlib.Nat.{mul-le-mul_right}
use outscan.Target.SafeHttpFlow.{SafeHttpFlowInput, CurrentRequest}
use outscan.Target.SafeHttpFlow.Redirect.{
  Platform, PinnedTransportResponse, RedirectDecision, no_redirect, cross_host, invalid, downgrade,
  follow, redirect_decision,
}
use outscan.Target.SafeHttpFlow.Loop.{
  FlowTurn, FlowState, FlowFailure, redirect_limit_exceeded, flow_deadline_exceeded,
  total_response_limit_exceeded, retryable_transport, transport_failed, completed, failed,
  Completion, Step, answer, again, apply_redirect, settle_response, settle, TransportOutcome,
  transport_threw, refused, responded, account, counted, read_clock, may_retry,
}

-- The counters of a state against the limits of the input.
pub record IsWithin (input : SafeHttpFlowInput) (state : FlowState) : Type 0 where
  pub retries : state.retries ≤ input.max_retries
  pub redirects : state.redirect_count ≤ input.max_redirects
  pub requests :
      state.request_count ≤ state.redirect_count * (input.max_retries + 1) + state.retries
  pub received : state.total_response_bytes ≤ input.max_total_response_bytes

-- The turns that the limits leave.
abbrev pub budget : SafeHttpFlowInput → FlowState → ℕ
budget input state =
    (input.max_redirects - state.redirect_count) * (input.max_retries + 1)
    + (input.max_retries - state.retries)

-- What a result says of the counters.
pub record KeepsLimits (input : SafeHttpFlowInput) (completion : Completion) : Type 0 where
  pub requests : completion.request_count ≤ (input.max_redirects + 1) * (input.max_retries + 1)
  pub redirects : completion.redirect_count ≤ input.max_redirects

-- A turn answers within the limits, or goes on within them with less to spend.
unfoldable pub Turned : SafeHttpFlowInput → FlowState → Step → Type 0
Turned input state (answer (completed completion)) = KeepsLimits input completion
Turned input state (answer (failed code)) = Unit
Turned input state (again after) = IsWithin input after × (budget input after < budget input state)

requests_bound :
    (requests redirects retries max_redirects max_retries : ℕ)
    → requests ≤ redirects * (max_retries + 1) + retries
    → retries ≤ max_retries
    → redirects ≤ max_redirects
    → suc requests ≤ (max_redirects + 1) * (max_retries + 1)
requests_bound requests redirects retries max_redirects max_retries h r d =
    omega (arith, h, r, mul-le-mul_right (max_retries + 1) d)

redirects_left :
    (redirects max_redirects step : ℕ)
    → redirects < max_redirects
    → (max_redirects - redirects) * step ≡ (max_redirects - suc redirects) * step + step
redirects_left redirects max_redirects step h =
    let one_more : max_redirects - redirects ≡ (max_redirects - suc redirects) + 1 =
      omega (arith, h) in
    rw one_more (omega arith)

-- The counters once a request has been made.
counted-KeepsLimits :
    (input : SafeHttpFlowInput) (state : FlowState) (completion : Completion)
    → IsWithin input state
    → completion.request_count ≡ suc state.request_count
    → completion.redirect_count ≡ state.redirect_count
    → KeepsLimits input completion
counted-KeepsLimits input state completion within same_requests same_redirects =
    let bound =
      requests_bound state.request_count state.redirect_count state.retries input.max_redirects
        input.max_retries (within.requests) (within.retries) (within.redirects) in
    record { requests = rw same_requests bound; redirects = rw same_redirects (within.redirects) }

followed :
    (input : SafeHttpFlowInput) (state : FlowState) (response : PinnedTransportResponse)
    (request : CurrentRequest) (over : Bool)
    → leb input.max_redirects state.redirect_count ≡ over
    → IsWithin input state
    → state.total_response_bytes + length response.body ≤ input.max_total_response_bytes
    → Turned input state (
        if over
        then answer (failed redirect_limit_exceeded)
        else again (record {
          current = request;
          retries = 0;
          request_count = suc state.request_count;
          redirect_count = suc state.redirect_count;
          total_response_bytes = state.total_response_bytes + length response.body;
        }))
unfolding Turned
followed input state response request true e within fits = tt
followed input state response request false e within fits =
    let room : state.redirect_count < input.max_redirects = ground (arith, e) in
    let left =
      redirects_left state.redirect_count input.max_redirects (input.max_retries + 1) room in
    (
      record {
        retries = omega arith;
        redirects = omega (arith, room);
        requests = omega (arith, within.requests, within.retries);
        received = fits;
      },
      omega (arith, left, within.retries),
    )

apply_redirect-Turned :
    (input : SafeHttpFlowInput) (state : FlowState) (response : PinnedTransportResponse)
    (decision : RedirectDecision)
    → IsWithin input state
    → state.total_response_bytes + length response.body ≤ input.max_total_response_bytes
    → Turned input state (apply_redirect input (account (counted state) response) response decision)
unfolding Turned
apply_redirect-Turned input state response no_redirect within fits =
    counted-KeepsLimits input state _ within refl refl
apply_redirect-Turned input state response cross_host within fits =
    counted-KeepsLimits input state _ within refl refl
apply_redirect-Turned input state response invalid within fits = tt
apply_redirect-Turned input state response downgrade within fits = tt
apply_redirect-Turned input state response (follow request) within fits =
    followed input state response request (leb input.max_redirects state.redirect_count) refl within
      fits

accounted :
    (platform : Platform) (input : SafeHttpFlowInput) (state : FlowState)
    (response : PinnedTransportResponse) (late over : Bool)
    → ltb input.max_total_response_bytes (state.total_response_bytes + length response.body) ≡ over
    → IsWithin input state
    → Turned input state (
        if late
        then answer (failed flow_deadline_exceeded)
        else (if over
            then answer (failed total_response_limit_exceeded)
            else apply_redirect input
                (account (counted state) response)
                response
                (redirect_decision platform response state.current input.canonical_host)))
unfolding Turned
accounted platform input state response true over e within = tt
accounted platform input state response false true e within = tt
accounted platform input state response false false e within =
    apply_redirect-Turned input state response
      (redirect_decision platform response state.current input.canonical_host) within
      (ground (arith, e))

settle_response-Turned :
    (platform : Platform) (input : SafeHttpFlowInput) (state : FlowState)
    (response : PinnedTransportResponse) (clock : Option ℕ)
    → IsWithin input state
    → Turned input state (settle_response platform input (counted state) response clock)
unfolding Turned
settle_response-Turned platform input state response none within = tt
settle_response-Turned platform input state response (some completed_at) within =
    accounted platform input state response (leb input.deadline_unix_ms completed_at) _ refl within

-- One more attempt, if it is allowed.
pub retry_or :
    (input : SafeHttpFlowInput) (state : FlowState) (requests : ℕ) (allowed : Bool)
    (code : FlowFailure) (retryable : Bool)
    → may_retry input state ≡ allowed
    → requests ≤ suc state.request_count
    → IsWithin input state
    → Turned input state (
        if retryable && allowed
        then again (record {
          current = state.current;
          retries = suc state.retries;
          request_count = requests;
          redirect_count = state.redirect_count;
          total_response_bytes = state.total_response_bytes;
        })
        else answer (failed code))
unfolding Turned
retry_or input state requests allowed code false e few within = tt
retry_or input state requests false code true e few within = tt
retry_or input state requests true code true e few within =
    let room : state.retries < input.max_retries = ground (arith, e) in
    (
      record {
        retries = omega (arith, room);
        redirects = within.redirects;
        requests = omega (arith, few, within.requests);
        received = within.received;
      },
      omega (arith, room),
    )

pub settle-Turned :
    (platform : Platform) (input : SafeHttpFlowInput) (state : FlowState) (turn : FlowTurn)
    (outcome : TransportOutcome)
    → IsWithin input state
    → Turned input state (settle platform input state turn outcome)
unfolding settle Turned
settle-Turned platform input state turn transport_threw within = tt
settle-Turned platform input state turn (refused code) within =
    retry_or input state (suc state.request_count) (may_retry input state) (transport_failed code)
      (retryable_transport code) refl (omega arith) within
settle-Turned platform input state turn (responded response) within =
    settle_response-Turned platform input state response (read_clock turn.completion_clock) within
