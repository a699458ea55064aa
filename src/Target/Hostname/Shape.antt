-- ===== src/Target/Hostname/Shape.antt =====
-- What an accepted host name looks like.
use outscan.Prelude.{◌≤◌, ◌≡◌, true, false, Option, none, some, [], ◌∷◌, arith, length, all}
use outscan.Js.{Text, Value, string}
use outscan.Target.IpText.{split}
use outscan.Target.Hostname.{
  canonical, canonicalize_hostname, check_target, check_ascii, has_valid_dns_shape, trim_start,
  trim_end, is_ip_literal, is_host_label,
}

-- 1 to 253 characters; each label of 1 to 63 letters in lower case, digits and hyphens, with no
-- hyphen at either end; and no text that an address parser would read as an address.
pub record IsDnsName (host : Text) : Type 0 where
  pub not_empty : 1 ≤ length host
  pub short : length host ≤ 253
  pub labels : all is_host_label (split b'.' host) ≡ true
  pub no_address : is_ip_literal host ≡ false

check_ascii-IsDnsName :
    (o : Option Text) (host : Text) → check_ascii o ≡ canonical host → IsDnsName host
unfolding has_valid_dns_shape
check_ascii-IsDnsName none host h = cc
check_ascii-IsDnsName (some []) host h = cc
check_ascii-IsDnsName (some (c ∷ cs)) host h = record {
  not_empty = ground (arith, h);
  short = ground (arith, h);
  labels = ground (arith, h);
  no_address = ground (arith, h);
}

check_target-IsDnsName :
    (domain_to_ascii : Text → Option Text) (t host : Text)
    → check_target domain_to_ascii t ≡ canonical host
    → IsDnsName host
unfolding check_target
check_target-IsDnsName domain_to_ascii t host h =
    check_ascii-IsDnsName (domain_to_ascii t) host (ground (arith, h))

-- Whatever the input and whatever `domainToASCII` answers, a host name that is accepted is a DNS
-- name: 1 to 253 characters, in labels of 1 to 63 characters of a-z, 0-9 and hyphen, none of them
-- with a hyphen at its ends, and it is no literal address in any notation that is looked for.
pub canonicalize_hostname-IsDnsName :
    (domain_to_ascii : Text → Option Text) (input : Value) (host : Text)
    → canonicalize_hostname domain_to_ascii input ≡ canonical host
    → IsDnsName host
unfolding canonicalize_hostname
canonicalize_hostname-IsDnsName domain_to_ascii (string input) host h =
    check_target-IsDnsName domain_to_ascii (trim_end (trim_start input)) host (ground (arith, h))
canonicalize_hostname-IsDnsName domain_to_ascii _ host h = cc
