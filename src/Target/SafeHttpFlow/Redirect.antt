-- ===== src/Target/SafeHttpFlow/Redirect.antt =====
-- `redirectDecision` of apps/api/src/target/safe-http-flow.ts.
use outscan.Prelude.{
  ℕ, Bool, true, false, not, ◌||◌, Option, none, some, List, [], ◌∷◌, ◌++◌, ltb, ◌==◌,
  if◌then◌else◌, length, any,
}
use outscan.Js.{Text, string, codes, text_eq}
use outscan.Target.Hostname.{CanonicalHostname, canonical, rejected, canonicalize_hostname}
use outscan.Target.SafeHttpFlow.{
  Protocol, http, https, CurrentRequest, as_protocol, is_valid_origin_form_path,
}

pub record SafeResponseHeader : Type 0 where
  pub name : Text
  pub value : Text

pub record PinnedTransportResponse : Type 0 where
  pub status_code : ℕ
  pub headers : List SafeResponseHeader
  pub body : List ℕ
  pub connected_address : Text

-- The parts of a URL that are read.
pub record Url : Type 0 where
  pub protocol : Text
  pub username : Text
  pub password : Text
  pub hostname : Text
  pub port : Text
  pub pathname : Text
  pub search : Text

-- What the platform does: `domainToASCII`, and `new URL(location, base)`, which throws (`none`).
pub record Platform : Type 0 where
  pub domain_to_ascii : Text → Option Text
  pub parse_url : Text → Text → Option Url

pub data RedirectDecision : Type 0 where
  no_redirect cross_host invalid downgrade : RedirectDecision
  follow : CurrentRequest → RedirectDecision

abbrev pub is_redirect_status : ℕ → Bool
is_redirect_status s = s == 301 || s == 302 || s == 303 || s == 307 || s == 308

unfoldable pub locations : List SafeResponseHeader → List Text
locations [] = []
locations (h ∷ hs) =
    let rest = locations hs in if text_eq h.name (codes "location") then h.value ∷ rest else rest

abbrev pub protocol_text : Protocol → Text
protocol_text http = codes "http:"
protocol_text https = codes "https:"

abbrev pub is_downgrade : Protocol → Protocol → Bool
is_downgrade https http = true
is_downgrade _ _ = false

abbrev pub follow_path : CurrentRequest → Protocol → Text → RedirectDecision
follow_path current protocol path =
    if is_downgrade current.protocol protocol
    then downgrade
    else (if not (is_valid_origin_form_path path)
        then invalid
        else follow (record { protocol = protocol; method = current.method; path = path }))

abbrev pub check_redirect_host :
    CurrentRequest → Text → Protocol → Text → CanonicalHostname → RedirectDecision
check_redirect_host current host protocol path (rejected code) = invalid
check_redirect_host current host protocol path (canonical name) =
    if not (text_eq name host) then cross_host else follow_path current protocol path

abbrev pub check_protocol :
    Platform → CurrentRequest → Text → Url → Option Protocol → RedirectDecision
check_protocol platform current host url none = invalid
check_protocol platform current host url (some protocol) =
    check_redirect_host current host protocol (url.pathname ++ url.search)
      (canonicalize_hostname platform.domain_to_ascii (string url.hostname))

abbrev non_empty : Text → Bool
non_empty t = not (length t == 0)

abbrev pub check_url : Platform → CurrentRequest → Text → Option Url → RedirectDecision
check_url platform current host none = invalid
check_url platform current host (some url) =
    if non_empty url.username || non_empty url.password || non_empty url.port
    then invalid
    else check_protocol platform current host url (as_protocol (string url.protocol))

-- [\0\r\n\\]
abbrev is_forbidden_unit : ℕ → Bool
is_forbidden_unit c = c == 0 || c == 13 || c == 10 || c == b'\\'

abbrev pub decide_location : Platform → CurrentRequest → Text → List Text → RedirectDecision
decide_location platform current host [] = no_redirect
decide_location platform current host (location ∷ []) =
    if ltb 8192 (length location) || any is_forbidden_unit location
    then invalid
    else check_url platform current host (
        platform.parse_url location
          (protocol_text current.protocol ++ codes "//" ++ host ++ current.path))
decide_location platform current host (_ ∷ _ ∷ _) = invalid

unfoldable pub redirect_decision :
    Platform → PinnedTransportResponse → CurrentRequest → Text → RedirectDecision
redirect_decision platform response current host =
    if not (is_redirect_status response.status_code)
    then no_redirect
    else decide_location platform current host (locations response.headers)
