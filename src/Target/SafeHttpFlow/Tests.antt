-- ===== src/Target/SafeHttpFlow/Tests.antt =====
-- Runs of the flow, and the theorems of apps/api/src/target at concrete inputs.
use outscan.Prelude.{ℕ, zero, suc, ◌≡◌, refl, Option, some, List, [], ◌∷◌, arith}
use outscan.Js.{
  text_in, Text, codes, Value, string, number, array, object, entry, end, cons, nil, exact_record,
  get, text_eq,
}
use outscan.Target.IpText.{parse_ip, parse_cidr, ipv4}
use outscan.Target.IpPolicy.{
  classify_resolved_address_set, classify_items, collect_cidrs, parse_all, blocked_addresses,
  unique_from, set_unique, block_reason, find_reason, built_in_ranges, in_any, validated, contains,
  configured_ranges,
}
use outscan.Target.Hostname.{
  has_scheme, is_ip_literal, has_valid_dns_shape, canonical, rejected, canonicalize_hostname,
  ip_literal_not_allowed, url_not_allowed, port_not_allowed, invalid_hostname,
}
use outscan.Target.Resolver.{
  DnsAnswers, fulfilled, failed_with, ResolvedTarget, resolved, resolve_answers, parse_records,
  classify_records, resolve_and_classify_hostname,
}
use outscan.Target.Resolver.Pinned.{IsPinned, resolve-IsPinned}
use outscan.Target.SafeHttpFlow.{
  parse_pinned_transport_limits, is_valid_origin_form_path, SafeHttpFlowInput, parse_input, https,
  get_method,
}
use outscan.Target.SafeHttpFlow.Redirect.{
  redirect_decision, locations, Platform, PinnedTransportResponse,
}
use outscan.Target.SafeHttpFlow.Loop.{
  flow_turn, settle, FlowTurn, TransportOutcome, FlowResult, Completion, Dispatch, completed,
  complete, send, prepare, first_state, responded, refused, timeout, execute_safe_http_flow,
}
use outscan.Target.SafeHttpFlow.Turns.{KeepsLimits}
use outscan.Target.SafeHttpFlow.Bounded.{execute-answers, execute-KeepsLimits}
use outscan.Target.SafeHttpFlow.Safe.{IsSafeDispatch, start, sends-IsSafeDispatch}

abbrev same_text : Text → Option Text
same_text t = some t

abbrev host : Text
host = codes "example.com"

abbrev platform : Platform
platform = record {
  domain_to_ascii = same_text;
  parse_url = λ location base. some (record {
    protocol = codes "https:";
    username = [];
    password = [];
    hostname = host;
    port = [];
    pathname = location;
    search = [];
  });
}

names :
    (canonicalize_hostname same_text (string (codes " Example.COM. ")) ≡ canonical host)
    × (canonicalize_hostname same_text (string (codes "127.0.0.1"))
        ≡ rejected ip_literal_not_allowed)
    × (canonicalize_hostname same_text (string (codes "0x7f.1")) ≡ rejected ip_literal_not_allowed)
    × (canonicalize_hostname same_text (string (codes "[::1]")) ≡ rejected ip_literal_not_allowed)
    × (canonicalize_hostname same_text (string (codes "http://a")) ≡ rejected url_not_allowed)
    × (canonicalize_hostname same_text (string (codes "a:80")) ≡ rejected port_not_allowed)
    × (canonicalize_hostname same_text (string (codes "-a.b")) ≡ rejected invalid_hostname)
unfolding canonicalize_hostname has_scheme is_ip_literal has_valid_dns_shape
names = (refl, refl, refl, refl, refl, refl, refl)

abbrev answers : DnsAnswers
answers = record {
  resolve4 = fulfilled (
      array (
        cons
          (object (entry "address" (string (codes "93.184.216.34")) (entry "ttl" (number 60) end)))
          nil));
  resolve6 = failed_with (some (codes "ENODATA"));
}

abbrev no_ranges : Value
no_ranges = array nil

abbrev target : ResolvedTarget
target = record {
  canonical_host = host;
  minimum_ttl_seconds = 60;
  resolved_at_unix_ms = 1000;
  expires_at_unix_ms = 61000;
  addresses = record { address = codes "93.184.216.34"; family = ipv4 } ∷ [];
}

target_resolved :
    resolve_and_classify_hostname same_text host answers no_ranges 1000 ≡ resolved target
unfolding resolve_and_classify_hostname resolve_answers parse_records classify_records exact_record
    get text_eq classify_resolved_address_set classify_items collect_cidrs text_in parse_all
    blocked_addresses unique_from set_unique block_reason find_reason built_in_ranges in_any
    validated contains configured_ranges parse_ip parse_cidr canonicalize_hostname has_scheme
    is_ip_literal has_valid_dns_shape
target_resolved = refl

resolve-IsPinned_example : IsPinned host answers no_ranges 1000 target
resolve-IsPinned_example =
    resolve-IsPinned same_text host answers no_ranges 1000 target target_resolved

abbrev input_value : Value
input_value = object (
    entry "canonical_host" (string host) (
      entry "protocol" (string (codes "https:")) (
        entry "method" (string (codes "GET")) (
          entry "path" (string (codes "/")) (
            entry "deadline_unix_ms" (number 9000) (
              entry "max_redirects" (number 1) (
                entry "max_retries" (number 1) (
                  entry "max_total_response_bytes" (number 1000) (
                    entry "transport_limits"
                      (object (
                        entry "timeout_ms" (number 500) (
                          entry "max_response_bytes" (number 100) (
                            entry "max_header_pairs" (number 10)
                              (entry "max_header_bytes" (number 100) end)))))
                      end)))))))))

abbrev input : SafeHttpFlowInput
input = record {
  canonical_host = host;
  request = record { protocol = https; method = get_method; path = codes "/" };
  deadline_unix_ms = 9000;
  max_redirects = 1;
  max_retries = 1;
  max_total_response_bytes = 1000;
  transport_limits = record {
    timeout_ms = 500;
    max_response_bytes = 100;
    max_header_pairs = 10;
    max_header_bytes = 100;
  };
}

input_parsed : parse_input same_text input_value ≡ some input
unfolding parse_input exact_record get text_eq parse_pinned_transport_limits
    is_valid_origin_form_path canonicalize_hostname has_scheme is_ip_literal has_valid_dns_shape
input_parsed = refl

abbrev moved : PinnedTransportResponse
moved = record {
  status_code = 302;
  headers = record { name = codes "location"; value = codes "/next" } ∷ [];
  body = [];
  connected_address = codes "93.184.216.34";
}

abbrev fine : PinnedTransportResponse
fine = record {
  status_code = 200;
  headers = [];
  body = 1 ∷ 2 ∷ [];
  connected_address = codes "93.184.216.34";
}

abbrev turn_with : (Dispatch → TransportOutcome) → FlowTurn
turn_with transport = record {
  resolution_clock = some (number 1000);
  answers = answers;
  request_clock = some (number 1100);
  transport = transport;
  completion_clock = some (number 1200);
}

abbrev turns : List FlowTurn
turns =
    turn_with (λ d. refused timeout)
    ∷ turn_with (λ d. responded moved)
    ∷ turn_with (λ d. responded fine)
    ∷ []

abbrev completion : Completion
completion = record {
  response = fine;
  request_count = 3;
  redirect_count = 1;
  stop_reason = complete;
}

flow_completed :
    execute_safe_http_flow platform no_ranges input_value turns ≡ some (completed completion)
unfolding execute_safe_http_flow flow_turn settle prepare redirect_decision locations parse_input
    parse_pinned_transport_limits is_valid_origin_form_path resolve_and_classify_hostname
    resolve_answers parse_records classify_records exact_record get text_eq
    classify_resolved_address_set classify_items collect_cidrs text_in parse_all blocked_addresses
    unique_from set_unique block_reason find_reason built_in_ranges in_any validated contains
    configured_ranges parse_ip parse_cidr canonicalize_hostname has_scheme is_ip_literal
    has_valid_dns_shape
flow_completed = refl

execute-KeepsLimits_example : KeepsLimits input completion
execute-KeepsLimits_example =
    execute-KeepsLimits platform no_ranges input_value turns input completion input_parsed
      flow_completed

abbrev stubborn : ℕ → List FlowTurn
stubborn zero = []
stubborn (suc n) = turn_with (λ d. responded moved) ∷ stubborn n

execute-answers_example :
    (result : FlowResult) × (execute_safe_http_flow platform no_ranges input_value (stubborn 18)
      ≡ some result)
execute-answers_example = execute-answers platform no_ranges input_value (stubborn 18) (omega arith)

abbrev dispatch : Dispatch
dispatch = record {
  target = target;
  request = record { protocol = https; method = get_method; path = codes "/" };
  pinned_address = codes "93.184.216.34";
  now_unix_ms = 1100;
  limits = record {
    timeout_ms = 500;
    max_response_bytes = 100;
    max_header_pairs = 10;
    max_header_bytes = 100;
  };
}

dispatch_sent :
    prepare platform no_ranges input (first_state input) (turn_with (λ d. responded fine))
    ≡ send dispatch
unfolding prepare resolve_and_classify_hostname resolve_answers parse_records classify_records
    exact_record get text_eq classify_resolved_address_set classify_items collect_cidrs text_in
    parse_all blocked_addresses unique_from set_unique block_reason find_reason built_in_ranges
    in_any validated contains configured_ranges parse_ip parse_cidr canonicalize_hostname has_scheme
    is_ip_literal has_valid_dns_shape
dispatch_sent = refl

sends-IsSafeDispatch_example :
    IsSafeDispatch platform no_ranges input (turn_with (λ d. responded fine)) dispatch
sends-IsSafeDispatch_example =
    sends-IsSafeDispatch platform no_ranges input_value input (first_state input)
      (turn_with (λ d. responded fine)) dispatch input_parsed start dispatch_sent
