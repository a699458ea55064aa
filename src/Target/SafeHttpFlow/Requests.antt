-- ===== src/Target/SafeHttpFlow/Requests.antt =====
-- What the retries and the redirects keep of the request.
use outscan.Prelude.{
  ◌≡◌, refl, true, false, Option, none, some, List, [], ◌∷◌, arith, Option-cases, inl, inr, ◌⊎◌,
  ◌∙◌, ◌++◌,
}
use outscan.Js.{Text, Value, string, codes}
use outscan.Target.SafeHttpFlow.{
  SafeHttpFlowInput, as_protocol, CurrentRequest, Protocol, http, https, is_valid_origin_form_path,
}
use outscan.Target.SafeHttpFlow.Redirect.{
  Platform, PinnedTransportResponse, RedirectDecision, follow, redirect_decision, decide_location,
  check_url, check_redirect_host, follow_path, is_downgrade, protocol_text, locations, Url,
}
use outscan.Target.Hostname.{CanonicalHostname, canonical, rejected, canonicalize_hostname}
use outscan.Target.SafeHttpFlow.Loop.{
  FlowTurn, FlowState, FlowResult, Prepared, stop, retry, send, Dispatch, prepare, again,
  apply_redirect, settle, flow_turn, TransportOutcome, transport_threw, refused, responded, account,
  counted, read_clock,
}

-- What every state keeps of the request of the input.
pub record KeepsRequest (input : SafeHttpFlowInput) (request : CurrentRequest) : Type 0 where
  pub method : request.method ≡ input.request.method
  pub path : is_valid_origin_form_path request.path ≡ true
  pub no_downgrade : input.request.protocol ≡ https → request.protocol ≡ https

Follows : CurrentRequest → RedirectDecision → Type 0
Follows current decision =
    (next : CurrentRequest)
    → decision ≡ follow next
    → (next.method ≡ current.method)
      × (is_valid_origin_form_path next.path ≡ true)
      × (is_downgrade current.protocol next.protocol ≡ false)

follow_path-Follows :
    (current : CurrentRequest) (protocol : Protocol) (path : Text)
    → Follows current (follow_path current protocol path)
unfolding Follows
follow_path-Follows current protocol path next h =
    (ground (arith, h), ground (arith, h), ground (arith, h))

check_redirect_host-Follows :
    (current : CurrentRequest) (host : Text) (protocol : Protocol) (path : Text)
    (name : CanonicalHostname)
    → Follows current (check_redirect_host current host protocol path name)
unfolding Follows
check_redirect_host-Follows current host protocol path (rejected code) next h = cc
check_redirect_host-Follows current host protocol path (canonical name) next h =
    follow_path-Follows current protocol path next (ground (arith, h))

check_url-Follows :
    (platform : Platform) (current : CurrentRequest) (host : Text) (url : Option Url)
    → Follows current (check_url platform current host url)
unfolding Follows
check_url-Follows platform current host none next h = cc
check_url-Follows platform current host (some url) next h =
    elim (Option-cases (as_protocol (string url.protocol))) [
      | inl e ↦ ground (arith, h, e)
      | inr (protocol, e) ↦
          check_redirect_host-Follows current host protocol (url.pathname ++ url.search)
            (canonicalize_hostname platform.domain_to_ascii (string url.hostname)) next
            (ground (arith, h, e))
    ]

decide_location-Follows :
    (platform : Platform) (current : CurrentRequest) (host : Text) (found : List Text)
    → Follows current (decide_location platform current host found)
unfolding Follows
decide_location-Follows platform current host [] next h = cc
decide_location-Follows platform current host (location ∷ []) next h =
    check_url-Follows platform current host
      (platform.parse_url location
        (protocol_text current.protocol ++ codes "//" ++ host ++ current.path))
      next (ground (arith, h))
decide_location-Follows platform current host (_ ∷ _ ∷ _) next h = cc

still_https : (a b : Protocol) → is_downgrade a b ≡ false → a ≡ https → b ≡ https
still_https http b h e = cc
still_https https http h e = cc
still_https https https h e = refl

redirect-KeepsRequest :
    (platform : Platform) (input : SafeHttpFlowInput) (response : PinnedTransportResponse)
    (current next : CurrentRequest) (host : Text)
    → KeepsRequest input current
    → redirect_decision platform response current host ≡ follow next
    → KeepsRequest input next
unfolding redirect_decision Follows
redirect-KeepsRequest platform input response current next host k h =
    let (method, path, kept) =
      decide_location-Follows platform current host (locations response.headers) next
        (ground (arith, h)) in
    record {
      method = method ∙ k.method;
      path = path;
      no_downgrade =
          λ secure. still_https current.protocol next.protocol kept (k.no_downgrade secure);
    }

redirect_followed :
    (input : SafeHttpFlowInput) (state after : FlowState) (response : PinnedTransportResponse)
    (decision : RedirectDecision)
    → apply_redirect input state response decision ≡ again after
    → decision ≡ follow after.current
redirect_followed input state after response (follow request) h = ground (arith, h)
redirect_followed input state after response _ h = cc

Prepared-cases :
    (p : Prepared)
    → ((result : FlowResult) × (p ≡ stop result))
      ⊎ ((p ≡ retry) ⊎ ((dispatch : Dispatch) × (p ≡ send dispatch)))
Prepared-cases (stop result) = inl (result, refl)
Prepared-cases retry = inr (inl refl)
Prepared-cases (send dispatch) = inr (inr (dispatch, refl))

apply_redirect-KeepsRequest :
    (platform : Platform) (input : SafeHttpFlowInput) (state after : FlowState)
    (response : PinnedTransportResponse) (current : CurrentRequest)
    → KeepsRequest input current
    → apply_redirect input state response
        (redirect_decision platform response current input.canonical_host)
      ≡ again after
    → KeepsRequest input after.current
apply_redirect-KeepsRequest platform input state after response current k h =
    redirect-KeepsRequest platform input response current after.current input.canonical_host k (
      redirect_followed input state after response
        (redirect_decision platform response current input.canonical_host) h)

settle-KeepsRequest :
    (platform : Platform) (input : SafeHttpFlowInput) (state after : FlowState) (turn : FlowTurn)
    (outcome : TransportOutcome)
    → KeepsRequest input state.current
    → settle platform input state turn outcome ≡ again after
    → KeepsRequest input after.current
unfolding settle
settle-KeepsRequest platform input state after turn transport_threw k h = cc
settle-KeepsRequest platform input state after turn (refused code) k h =
    let same : state.current ≡ after.current = ground (arith, h) in rw same at k
settle-KeepsRequest platform input state after turn (responded response) k h =
    elim (Option-cases (read_clock turn.completion_clock)) [
      | inl e ↦ ground (arith, h, e)
      | inr (now, e) ↦
          apply_redirect-KeepsRequest platform input (account (counted state) response) after
            response state.current k (ground (arith, h, e))
    ]

pub flow_turn-KeepsRequest :
    (platform : Platform) (configured : Value) (input : SafeHttpFlowInput) (state after : FlowState)
    (turn : FlowTurn)
    → KeepsRequest input state.current
    → flow_turn platform configured input state turn ≡ again after
    → KeepsRequest input after.current
unfolding flow_turn settle
flow_turn-KeepsRequest platform configured input state after turn k h =
    elim (Prepared-cases (prepare platform configured input state turn)) [
      | inl (result, e) ↦ ground (arith, h, e)
      | inr (inl e) ↦
          (let same : state.current ≡ after.current = ground (arith, h, e) in rw same at k)
      | inr (inr (dispatch, e)) ↦
          settle-KeepsRequest platform input state after turn (turn.transport dispatch) k
            (ground (arith, h, e))
    ]
