-- ===== src/Target/SafeHttpFlow/Bounded.antt =====
-- The whole flow: it answers, within its limits.
use outscan.Prelude.{
  ◌&&◌, if◌then◌else◌, ℕ, ◌+◌, ◌-◌, ◌*◌, ◌≤◌, ◌<◌, ◌≡◌, refl, Bool, true, false, Option, none, some,
  List, [], ◌∷◌, arith, length, ltb, leb, Option-cases, inl, inr, ◌⊎◌, ap, ◌∙◌, >>=-eq-some,
}
use native.Mathlib.Nat.{mul-le-mul}
use outscan.Js.{Text, Value, exact_record}
use outscan.Target.Resolver.{
  ResolveTargetResult, resolved, unresolved, ResolvedTarget, resolve_and_classify_hostname,
}
use outscan.Target.IpPolicy.{ValidatedIpAddress}
use outscan.Target.SafeHttpFlow.{SafeHttpFlowInput, parse_input, check_input, input_keys}
use outscan.Target.SafeHttpFlow.Redirect.{Platform}
use outscan.Target.SafeHttpFlow.Loop.{
  FlowTurn, FlowState, FlowResult, FlowFailure, invalid_flow, orchestration_failed, choose_pin,
  flow_deadline_exceeded, retryable_resolution, resolution, completed, failed, Completion, Prepared,
  stop, retry, send, prepare, prepare_at, prepare_resolved, prepare_request, Step, answer, again,
  finish_turn, flow_turn, flow_loop, first_state, execute_safe_http_flow, read_clock, may_retry,
}
use outscan.Target.SafeHttpFlow.Turns.{
  IsWithin, KeepsLimits, Turned, budget, settle-Turned, retry_or,
}

retry_prepared :
    (platform : Platform) (input : SafeHttpFlowInput) (state : FlowState) (turn : FlowTurn)
    (code : FlowFailure) (retryable allowed : Bool)
    → may_retry input state ≡ allowed
    → IsWithin input state
    → Turned input state (
        finish_turn platform input state turn
          (if retryable && allowed then retry else stop (failed code)))
unfolding Turned
retry_prepared platform input state turn code false allowed e within = tt
retry_prepared platform input state turn code true false e within = tt
retry_prepared platform input state turn code true true e within =
    retry_or input state state.request_count true code true e (omega arith) within

late_or :
    (platform : Platform) (input : SafeHttpFlowInput) (state : FlowState) (turn : FlowTurn)
    (late : Bool) (prepared : Prepared)
    → Turned input state (finish_turn platform input state turn prepared)
    → Turned input state (
        finish_turn platform input state turn
          (if late then stop (failed flow_deadline_exceeded) else prepared))
unfolding Turned
late_or platform input state turn true prepared h = tt
late_or platform input state turn false prepared h = h

prepare_request-Turned :
    (platform : Platform) (input : SafeHttpFlowInput) (state : FlowState) (turn : FlowTurn)
    (target : ResolvedTarget) (clock : Option ℕ) (pin : Option ValidatedIpAddress)
    → IsWithin input state
    → Turned input state
        (finish_turn platform input state turn (prepare_request input state target clock pin))
unfolding Turned
prepare_request-Turned platform input state turn target none pin within = tt
prepare_request-Turned platform input state turn target (some now) none within =
    late_or platform input state turn (ltb input.deadline_unix_ms (now + 100))
      (stop (failed orchestration_failed)) tt
prepare_request-Turned platform input state turn target (some now) (some pin) within =
    late_or platform input state turn (ltb input.deadline_unix_ms (now + 100)) (send _)
      (settle-Turned platform input state turn _ within)

prepare_resolved-Turned :
    (platform : Platform) (input : SafeHttpFlowInput) (state : FlowState) (turn : FlowTurn)
    (result : ResolveTargetResult)
    → IsWithin input state
    → Turned input state
        (finish_turn platform input state turn (prepare_resolved input state turn result))
prepare_resolved-Turned platform input state turn (unresolved code) within =
    retry_prepared platform input state turn (resolution code) (retryable_resolution code)
      (may_retry input state) refl within
prepare_resolved-Turned platform input state turn (resolved target) within =
    prepare_request-Turned platform input state turn target (read_clock turn.request_clock)
      (choose_pin target.addresses state.retries) within

prepare_at-Turned :
    (platform : Platform) (configured : Value) (input : SafeHttpFlowInput) (state : FlowState)
    (turn : FlowTurn) (clock : Option ℕ)
    → IsWithin input state
    → Turned input state (
        finish_turn platform input state turn
          (prepare_at platform configured input state turn clock))
unfolding Turned
prepare_at-Turned platform configured input state turn none within = tt
prepare_at-Turned platform configured input state turn (some now) within =
    late_or platform input state turn (leb input.deadline_unix_ms now) _ (
      prepare_resolved-Turned platform input state turn
        (resolve_and_classify_hostname platform.domain_to_ascii input.canonical_host turn.answers
          configured now)
        within)

flow_turn-Turned :
    (platform : Platform) (configured : Value) (input : SafeHttpFlowInput) (state : FlowState)
    (turn : FlowTurn)
    → IsWithin input state
    → Turned input state (flow_turn platform configured input state turn)
unfolding flow_turn prepare
flow_turn-Turned platform configured input state turn within =
    prepare_at-Turned platform configured input state turn (read_clock turn.resolution_clock) within

Step-cases :
    (step : Step)
    → ((result : FlowResult) × (step ≡ answer result))
      ⊎ ((after : FlowState) × (step ≡ again after))
Step-cases (answer result) = inl (result, refl)
Step-cases (again after) = inr (after, refl)

flow_loop-answers :
    (platform : Platform) (configured : Value) (input : SafeHttpFlowInput) (state : FlowState)
    (turns : List FlowTurn)
    → IsWithin input state
    → budget input state < length turns
    → (result : FlowResult) × (flow_loop platform configured input state turns ≡ some result)
unfolding flow_loop Turned
flow_loop-answers platform configured input state [] within enough = ground (arith, enough)
flow_loop-answers platform configured input state (turn ∷ turns) within enough =
    let turned = flow_turn-Turned platform configured input state turn within in
    elim (Step-cases (flow_turn platform configured input state turn)) [
      | inl (result, e) ↦ (result, ground (arith, e))
      | inr (after, e) ↦
          let (within_after, less) = rw e at turned in
          let (result, h) =
            flow_loop-answers platform configured input after turns within_after
              (omega (arith, less, enough)) in
          (result, ground (arith, e, h))
    ]

flow_loop-KeepsLimits :
    (platform : Platform) (configured : Value) (input : SafeHttpFlowInput) (state : FlowState)
    (turns : List FlowTurn) (completion : Completion)
    → IsWithin input state
    → flow_loop platform configured input state turns ≡ some (completed completion)
    → KeepsLimits input completion
unfolding flow_loop Turned
flow_loop-KeepsLimits platform configured input state [] completion within h = ground (arith, h)
flow_loop-KeepsLimits platform configured input state (turn ∷ turns) completion within h =
    let turned = flow_turn-Turned platform configured input state turn within in
    elim (Step-cases (flow_turn platform configured input state turn)) [
      | inl (result, e) ↦
          let same : result ≡ completed completion = ground (arith, e, h) in
          rw (e ∙ ap answer same) at turned
      | inr (after, e) ↦
          let (within_after, less) = rw e at turned in
          flow_loop-KeepsLimits platform configured input after turns completion within_after
            (ground (arith, e, h))
    ]

first-IsWithin : (input : SafeHttpFlowInput) → IsWithin input (first_state input)
first-IsWithin input = record {
  retries = omega arith;
  redirects = omega arith;
  requests = omega arith;
  received = omega arith;
}

parse_input-limits :
    (domain_to_ascii : Text → Option Text) (value : Value) (input : SafeHttpFlowInput)
    → parse_input domain_to_ascii value ≡ some input
    → (input.max_redirects ≤ 5) × (input.max_retries ≤ 2)
unfolding parse_input
parse_input-limits domain_to_ascii value input h =
    let (es, _, k) = >>=-eq-some (exact_record input_keys value) (check_input domain_to_ascii) h in
    ground (arith, k)

-- The flow answers after at most 18 turns, whatever the input, the DNS, the clock and the servers
-- do: a turn either answers or uses up a retry or a redirect, of which the input can ask for no more
-- than 2 for each of 6 requests.
pub execute-answers :
    (platform : Platform) (configured value : Value) (turns : List FlowTurn)
    → 18 ≤ length turns
    → (result : FlowResult) × (execute_safe_http_flow platform configured value turns ≡ some result)
unfolding execute_safe_http_flow
execute-answers platform configured value turns enough =
    elim (Option-cases (parse_input platform.domain_to_ascii value)) [
      | inl e ↦ (failed invalid_flow, ground (arith, e))
      | inr (input, e) ↦
          let (few_redirects, few_retries) =
            parse_input-limits platform.domain_to_ascii value input e in
          let left : (input.max_redirects - 0) * (input.max_retries + 1) ≤ 5 * 3 =
            mul-le-mul {n₂ = 5} {m₂ = 3} (omega (arith, few_redirects))
              (omega (arith, few_retries)) in
          let spent : budget input (first_state input) ≤ 17 = omega (arith, left, few_retries) in
          let (result, h) =
            flow_loop-answers platform configured input (first_state input) turns
              (first-IsWithin input) (omega (arith, spent, enough)) in
          (result, ground (arith, e, h))
    ]

-- A flow that completes has made at most (redirects + 1) * (retries + 1) requests for the limits of
-- its input, and has followed no more redirects than the input allows, whatever the servers do.
pub execute-KeepsLimits :
    (platform : Platform) (configured value : Value) (turns : List FlowTurn)
    (input : SafeHttpFlowInput) (completion : Completion)
    → parse_input platform.domain_to_ascii value ≡ some input
    → execute_safe_http_flow platform configured value turns ≡ some (completed completion)
    → KeepsLimits input completion
unfolding execute_safe_http_flow
execute-KeepsLimits platform configured value turns input completion e h =
    flow_loop-KeepsLimits platform configured input (first_state input) turns completion
      (first-IsWithin input) (ground (arith, e, h))
