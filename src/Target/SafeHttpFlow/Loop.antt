-- ===== src/Target/SafeHttpFlow/Loop.antt =====
-- The loop of `executeSafeHttpFlow`, apps/api/src/target/safe-http-flow.ts. What each turn meets is
-- an argument: the readings of the clock, the DNS answers and the transport. Where the turns end
-- before the flow has answered, it is still waiting (`none`).
use outscan.Prelude.{
  ℕ, suc, ◌+◌, ◌-◌, ◌%◌, Bool, true, false, ◌&&◌, Option, none, some, List, [], ◌∷◌, ltb, leb,
  if◌then◌else◌, length, min, get_elem?,
}
use outscan.Js.{Text, Value, as_safe_natural}
use outscan.Target.IpPolicy.{ValidatedIpAddress}
use outscan.Target.Resolver.{
  DnsAnswers, ResolvedTarget, ResolveFailure, dns_lookup_failed, ResolveTargetResult, resolved,
  unresolved, resolve_and_classify_hostname,
}
use outscan.Target.SafeHttpFlow.{
  PinnedTransportLimits, CurrentRequest, SafeHttpFlowInput, parse_input,
}
use outscan.Target.SafeHttpFlow.Redirect.{
  PinnedTransportResponse, Platform, RedirectDecision, no_redirect, cross_host, invalid, downgrade,
  follow, redirect_decision,
}

pub data TransportFailure : Type 0 where
  invalid_limits transport_init_failed transport_error timeout pin_mismatch invalid_response
        response_headers_rejected response_too_large invalid_target stale_resolution invalid_request
        pin_not_approved destination_policy_rejected :
      TransportFailure

pub data FlowFailure : Type 0 where
  invalid_flow flow_deadline_exceeded invalid_redirect redirect_downgrade redirect_limit_exceeded
        total_response_limit_exceeded orchestration_failed :
      FlowFailure
  resolution : ResolveFailure → FlowFailure
  transport_failed : TransportFailure → FlowFailure

pub data StopReason : Type 0 where
  complete cross_host_redirect : StopReason

pub record Completion : Type 0 where
  pub response : PinnedTransportResponse
  pub request_count : ℕ
  pub redirect_count : ℕ
  pub stop_reason : StopReason

pub data FlowResult : Type 0 where
  completed : Completion → FlowResult
  failed : FlowFailure → FlowResult

-- What is handed to the transport.
pub record Dispatch : Type 0 where
  pub target : ResolvedTarget
  pub request : CurrentRequest
  pub pinned_address : Text
  pub now_unix_ms : ℕ
  pub limits : PinnedTransportLimits

pub data TransportOutcome : Type 0 where
  transport_threw : TransportOutcome
  refused : TransportFailure → TransportOutcome
  responded : PinnedTransportResponse → TransportOutcome

-- The readings are `none` where the clock throws.
pub record FlowTurn : Type 0 where
  pub resolution_clock : Option Value
  pub answers : DnsAnswers
  pub request_clock : Option Value
  pub transport : Dispatch → TransportOutcome
  pub completion_clock : Option Value

pub record FlowState : Type 0 where
  pub current : CurrentRequest
  pub retries : ℕ
  pub request_count : ℕ
  pub redirect_count : ℕ
  pub total_response_bytes : ℕ

abbrev pub read_clock : Option Value → Option ℕ
read_clock none = none
read_clock (some v) = as_safe_natural v

abbrev pub retryable_resolution : ResolveFailure → Bool
retryable_resolution dns_lookup_failed = true
retryable_resolution _ = false

abbrev pub retryable_transport : TransportFailure → Bool
retryable_transport transport_error = true
retryable_transport timeout = true
retryable_transport _ = false

pub data Prepared : Type 0 where
  stop : FlowResult → Prepared
  retry : Prepared
  send : Dispatch → Prepared

abbrev pub may_retry : SafeHttpFlowInput → FlowState → Bool
may_retry input state = ltb state.retries input.max_retries

-- The limits of the input, with no more time than remains.
abbrev pub remaining_limits : PinnedTransportLimits → ℕ → PinnedTransportLimits
remaining_limits limits remaining = record {
  timeout_ms = min limits.timeout_ms remaining;
  max_response_bytes = limits.max_response_bytes;
  max_header_pairs = limits.max_header_pairs;
  max_header_bytes = limits.max_header_bytes;
}

-- `addresses[retries % addresses.length]!`; what is thrown where there is none is caught.
abbrev pub choose_pin : List ValidatedIpAddress → ℕ → Option ValidatedIpAddress
choose_pin [] retries = none
choose_pin (a ∷ rest) retries = get_elem? (a ∷ rest) (retries % length (a ∷ rest))

abbrev pub prepare_request :
    SafeHttpFlowInput → FlowState → ResolvedTarget → Option ℕ → Option ValidatedIpAddress → Prepared
prepare_request input state target none pin = stop (failed orchestration_failed)
prepare_request input state target (some now) none =
    if ltb input.deadline_unix_ms (now + 100)
    then stop (failed flow_deadline_exceeded)
    else stop (failed orchestration_failed)
prepare_request input state target (some now) (some pin) =
    if ltb input.deadline_unix_ms (now + 100)
    then stop (failed flow_deadline_exceeded)
    else send (record {
      target = target;
      request = state.current;
      pinned_address = pin.address;
      now_unix_ms = now;
      limits = remaining_limits input.transport_limits (input.deadline_unix_ms - now);
    })

abbrev pub prepare_resolved :
    SafeHttpFlowInput → FlowState → FlowTurn → ResolveTargetResult → Prepared
prepare_resolved input state turn (unresolved code) =
    if retryable_resolution code && may_retry input state
    then retry
    else stop (failed (resolution code))
prepare_resolved input state turn (resolved target) =
    prepare_request input state target (read_clock turn.request_clock)
      (choose_pin target.addresses state.retries)

abbrev pub prepare_at :
    Platform → Value → SafeHttpFlowInput → FlowState → FlowTurn → Option ℕ → Prepared
prepare_at platform configured input state turn none = stop (failed orchestration_failed)
prepare_at platform configured input state turn (some now) =
    if leb input.deadline_unix_ms now
    then stop (failed flow_deadline_exceeded)
    else prepare_resolved input state turn (
        resolve_and_classify_hostname platform.domain_to_ascii input.canonical_host turn.answers
          configured now)

-- The turn up to the call of the transport.
unfoldable pub prepare : Platform → Value → SafeHttpFlowInput → FlowState → FlowTurn → Prepared
prepare platform configured input state turn =
    prepare_at platform configured input state turn (read_clock turn.resolution_clock)

pub data Step : Type 0 where
  answer : FlowResult → Step
  again : FlowState → Step

abbrev pub retried : FlowState → FlowState
retried state = record {
  current = state.current;
  retries = suc state.retries;
  request_count = state.request_count;
  redirect_count = state.redirect_count;
  total_response_bytes = state.total_response_bytes;
}

abbrev pub complete_with : FlowState → PinnedTransportResponse → StopReason → Step
complete_with state response reason = answer (
    completed (record {
      response = response;
      request_count = state.request_count;
      redirect_count = state.redirect_count;
      stop_reason = reason;
    }))

abbrev pub apply_redirect :
    SafeHttpFlowInput → FlowState → PinnedTransportResponse → RedirectDecision → Step
apply_redirect input state response no_redirect = complete_with state response complete
apply_redirect input state response cross_host = complete_with state response cross_host_redirect
apply_redirect input state response invalid = answer (failed invalid_redirect)
apply_redirect input state response downgrade = answer (failed redirect_downgrade)
apply_redirect input state response (follow request) =
    if leb input.max_redirects state.redirect_count
    then answer (failed redirect_limit_exceeded)
    else again (record {
      current = request;
      retries = 0;
      request_count = state.request_count;
      redirect_count = suc state.redirect_count;
      total_response_bytes = state.total_response_bytes;
    })

abbrev pub account : FlowState → PinnedTransportResponse → FlowState
account state response = record {
  current = state.current;
  retries = state.retries;
  request_count = state.request_count;
  redirect_count = state.redirect_count;
  total_response_bytes = state.total_response_bytes + length response.body;
}

abbrev pub settle_response :
    Platform → SafeHttpFlowInput → FlowState → PinnedTransportResponse → Option ℕ → Step
settle_response platform input state response none = answer (failed orchestration_failed)
settle_response platform input state response (some completed_at) =
    if leb input.deadline_unix_ms completed_at
    then answer (failed flow_deadline_exceeded)
    else (if ltb input.max_total_response_bytes (state.total_response_bytes + length response.body)
        then answer (failed total_response_limit_exceeded)
        else apply_redirect input (account state response) response
            (redirect_decision platform response state.current input.canonical_host))

abbrev pub counted : FlowState → FlowState
counted state = record {
  current = state.current;
  retries = state.retries;
  request_count = suc state.request_count;
  redirect_count = state.redirect_count;
  total_response_bytes = state.total_response_bytes;
}

unfoldable pub settle :
    Platform → SafeHttpFlowInput → FlowState → FlowTurn → TransportOutcome → Step
settle platform input state turn transport_threw = answer (failed orchestration_failed)
settle platform input state turn (refused code) =
    if retryable_transport code && may_retry input state
    then again (retried (counted state))
    else answer (failed (transport_failed code))
settle platform input state turn (responded response) =
    settle_response platform input (counted state) response (read_clock turn.completion_clock)

abbrev pub finish_turn : Platform → SafeHttpFlowInput → FlowState → FlowTurn → Prepared → Step
finish_turn platform input state turn (stop result) = answer result
finish_turn platform input state turn retry = again (retried state)
finish_turn platform input state turn (send dispatch) =
    settle platform input state turn (turn.transport dispatch)

unfoldable pub flow_turn : Platform → Value → SafeHttpFlowInput → FlowState → FlowTurn → Step
flow_turn platform configured input state turn =
    finish_turn platform input state turn (prepare platform configured input state turn)

unfoldable pub flow_loop :
    Platform → Value → SafeHttpFlowInput → FlowState → List FlowTurn → Option FlowResult
flow_loop platform configured input state [] = none
flow_loop platform configured input state (turn ∷ turns) =
    elim (flow_turn platform configured input state turn) [
      | answer result ↦ some result
      | again after ↦ flow_loop platform configured input after turns
    ]

abbrev pub first_state : SafeHttpFlowInput → FlowState
first_state input = record {
  current = input.request;
  retries = 0;
  request_count = 0;
  redirect_count = 0;
  total_response_bytes = 0;
}

unfoldable pub execute_safe_http_flow : Platform → Value → Value → List FlowTurn → Option FlowResult
unfolding flow_loop
execute_safe_http_flow platform configured value turns =
    elim (parse_input platform.domain_to_ascii value) [
      | none ↦ some (failed invalid_flow)
      | some input ↦ flow_loop platform configured input (first_state input) turns
    ]
