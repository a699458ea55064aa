-- ===== src/Target/Hostname.antt =====
-- Host names: apps/api/src/target/hostname.ts. `domain_to_ascii` is `domainToASCII` of node:url, which
-- answers a text, empty for a name that is no domain, or throws (`none`).
pub mod Shape
use outscan.Prelude.{
  ℕ, ◌+◌, Bool, true, false, not, ◌&&◌, ◌||◌, Option, none, some, List, [], ◌∷◌, ◌++◌, map, ltb,
  leb, ◌==◌, if◌then◌else◌, length, all, any,
}
use outscan.Js.{Text, Value, string, codes, text_eq}
use outscan.Js.Patterns.{is_digit, is_lower, is_upper, is_alnum, is_hex}
use outscan.Target.IpText.{split, is_ipv4, ipv6_groups, to_lower}

abbrev pub max_raw_target_length : ℕ
max_raw_target_length = 1024

abbrev pub max_hostname_length : ℕ
max_hostname_length = 253

abbrev pub max_label_length : ℕ
max_label_length = 63

pub data HostnameRejectionCode : Type 0 where
  invalid_type empty_target target_too_long url_not_allowed userinfo_not_allowed path_not_allowed
        port_not_allowed ip_literal_not_allowed invalid_idna invalid_hostname :
      HostnameRejectionCode

pub data CanonicalHostname : Type 0 where
  canonical : Text → CanonicalHostname
  rejected : HostnameRejectionCode → CanonicalHostname

-- \s, and what `trim` removes.
abbrev pub is_space : ℕ → Bool
is_space c =
    (leb 9 c && leb c 13)
    || c == 32
    || c == 0xa0
    || c == 0x1680
    || (leb 0x2000 c && leb c 0x200a)
    || c == 0x2028
    || c == 0x2029
    || c == 0x202f
    || c == 0x205f
    || c == 0x3000
    || c == 0xfeff

unfoldable pub trim_start : Text → Text
trim_start [] = []
trim_start (c ∷ cs) = let rest = trim_start cs in if is_space c then rest else c ∷ cs

abbrev cons_unless_space : ℕ → Text → Text
cons_unless_space c [] = if is_space c then [] else c ∷ []
cons_unless_space c (d ∷ ds) = c ∷ d ∷ ds

unfoldable pub trim_end : Text → Text
trim_end [] = []
trim_end (c ∷ cs) = cons_unless_space c (trim_end cs)

-- [a-z0-9+.-] and [a-z] without regard to case, where U+017F and U+212A fold to s and k.
abbrev is_scheme_start : ℕ → Bool
is_scheme_start c = is_lower c || is_upper c || c == 0x17f || c == 0x212a

abbrev is_scheme_char : ℕ → Bool
is_scheme_char c = is_scheme_start c || is_digit c || c == b'+' || c == b'.' || c == b'-'

abbrev slashes : Text → Bool
slashes (c ∷ d ∷ r) = c == b'/' && d == b'/'
slashes _ = false

unfoldable pub scheme_rest : Text → Bool
scheme_rest [] = false
scheme_rest (c ∷ cs) =
    let rest = scheme_rest cs in if c == b':' then slashes cs else is_scheme_char c && rest

-- /^[a-z][a-z0-9+.-]*:\/\//iu
unfoldable pub has_scheme : Text → Bool
unfolding scheme_rest
has_scheme [] = false
has_scheme (c ∷ cs) = is_scheme_start c && scheme_rest cs

-- The text without a dot at its end.
unfoldable pub without_trailing_dot : Text → Text
without_trailing_dot [] = []
without_trailing_dot (c ∷ []) = if c == b'.' then [] else c ∷ []
without_trailing_dot (c ∷ d ∷ r) = c ∷ without_trailing_dot (d ∷ r)

abbrev is_hex_iu : ℕ → Bool
is_hex_iu c = is_hex (to_lower c)

abbrev non_empty : Text → Bool
non_empty [] = false
non_empty (c ∷ cs) = true

abbrev is_prefixed_hex : Text → Bool
is_prefixed_hex (c ∷ d ∷ r) = c == b'0' && to_lower d == b'x' && non_empty r && all is_hex_iu r
is_prefixed_hex _ = false

abbrev is_number_part : Text → Bool
is_number_part t = is_prefixed_hex t || (non_empty t && all is_digit t)

-- IP_LITERALISH
unfoldable pub is_ip_literalish : Text → Bool
unfolding split
is_ip_literalish t = leb (length (split b'.' t)) 4 && all is_number_part (split b'.' t)

-- The text before the first "%", and after it if there is one.
unfoldable pub split_zone : Text → Text × Option Text
split_zone [] = ([], none)
split_zone (c ∷ cs) =
    let rest = split_zone cs in if c == b'%' then ([], some cs) else (c ∷ rest.0, rest.1)

abbrev is_zone : Option Text → Bool
is_zone none = true
is_zone (some zone) =
    non_empty zone && all (λ c. is_alnum c || c == b'-' || c == b'.' || c == b':') zone

abbrev is_some : {A : Type 0} → Option A → Bool
is_some none = false
is_some (some a) = true

-- `isIP(text) !== 0`; a zone is accepted behind an IPv6 address.
unfoldable pub is_ip : Text → Bool
unfolding split_zone is_ipv4 ipv6_groups
is_ip t =
    let parts = split_zone t in is_ipv4 t || (is_some (ipv6_groups (parts.0)) && is_zone (parts.1))

-- The inner text, if the text stands in brackets.
abbrev bracketed : Text → Option Text
bracketed [] = none
bracketed (c ∷ cs) = if c == b'[' then before_bracket cs else none
  where
    before_bracket : Text → Option Text
    before_bracket [] = none
    before_bracket (d ∷ []) = if d == b']' then some [] else none
    before_bracket (d ∷ e ∷ r) = elim (before_bracket (e ∷ r)) [
      | none ↦ none
      | some t ↦ some (d ∷ t)
    ]

abbrev literal_in_brackets : Text → Option Text → Bool
literal_in_brackets t none = is_ip_literalish t
literal_in_brackets t (some inner) = is_ip inner

unfoldable pub is_ip_literal : Text → Bool
unfolding is_ip is_ip_literalish without_trailing_dot
is_ip_literal value =
    is_ip (without_trailing_dot value)
    || literal_in_brackets (without_trailing_dot value) (bracketed value)

abbrev pub is_label_char : ℕ → Bool
is_label_char c = is_lower c || is_digit c || c == b'-'

unfoldable pub ends_alnum : Text → Bool
ends_alnum [] = false
ends_alnum (c ∷ []) = is_lower c || is_digit c
ends_alnum (c ∷ d ∷ r) = ends_alnum (d ∷ r)

abbrev starts_alnum : Text → Bool
starts_alnum [] = false
starts_alnum (c ∷ cs) = is_lower c || is_digit c

-- HOST_LABEL, with the bounds on the length.
abbrev pub is_host_label : Text → Bool
is_host_label t =
    leb (length t) max_label_length && starts_alnum t && ends_alnum t && all is_label_char t

unfoldable pub has_valid_dns_shape : Text → Bool
unfolding split ends_alnum
has_valid_dns_shape t =
    not (length t == 0) && leb (length t) max_hostname_length && all is_host_label (split b'.' t)

abbrev check_canonical : Text → CanonicalHostname
check_canonical host =
    if is_ip_literal host
    then rejected ip_literal_not_allowed
    else (if not (has_valid_dns_shape host) then rejected invalid_hostname else canonical host)

abbrev pub check_ascii : Option Text → CanonicalHostname
check_ascii none = rejected invalid_idna
check_ascii (some []) = rejected invalid_idna
check_ascii (some (c ∷ cs)) = check_canonical (without_trailing_dot (map to_lower (c ∷ cs)))

unfoldable pub check_target : (Text → Option Text) → Text → CanonicalHostname
check_target domain_to_ascii target =
    if length target == 0
    then rejected empty_target
    else (if has_scheme target
        then rejected url_not_allowed
        else (if any (λ c. c == b'@') target
            then rejected userinfo_not_allowed
            else (if any (λ c. c == b'/' || c == b'?' || c == b'#' || c == b'\\') target
                then rejected path_not_allowed
                else (if any is_space target
                    then rejected invalid_hostname
                    else (if is_ip_literal target
                        then rejected ip_literal_not_allowed
                        else (if any (λ c. c == b':') target
                            then rejected port_not_allowed
                            else check_ascii (domain_to_ascii target)))))))

unfoldable pub canonicalize_hostname : (Text → Option Text) → Value → CanonicalHostname
unfolding check_target trim_start trim_end
canonicalize_hostname domain_to_ascii (string input) =
    if ltb max_raw_target_length (length input)
    then rejected target_too_long
    else check_target domain_to_ascii (trim_end (trim_start input))
canonicalize_hostname domain_to_ascii _ = rejected invalid_type
