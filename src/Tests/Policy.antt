-- ===== src/Tests/Policy.antt =====
-- Runs of the network policy.
use video_proxy_server.Prelude.{
  ℕ, ◌≡◌, refl, true, false, ◌||◌, not, Option, none, some, List, [], ◌∷◌, codes, arith,
}
use video_proxy_server.Map.{nat_eq, list_eq, lookup, insert}
use video_proxy_server.Error.{ok}
use video_proxy_server.Strings.{Text, show, digits}
use video_proxy_server.Policy.{
  Ipv4Addr, v4, is_unspecified, is_public_ip, is_public_ipv4, is_public_ipv6,
}
use video_proxy_server.Policy.Blocks.{number, contains, special_blocks, is_public_ipv4_iff}
use video_proxy_server.Policy.Embedded.{
  mapped, compatible, nat64, six_to_four, is_public_ipv6-embedded,
}
use video_proxy_server.Policy.Admission.{
  Url, NetworkPolicy, Moment, validate, validate_url, admit, is_listed, is_recently_admitted,
  remember_admission, make_room, retain_recent, check_addresses, count_public,
}
use video_proxy_server.Policy.Admission.Vouched.{IsAccepted, validate-IsAccepted}
use video_proxy_server.Policy.Admission.History.{after_all, moments}

abbrev loopback : Ipv4Addr
loopback = record { a = 127; b = 0; c = 0; d = 1 }

abbrev resolver_address : Ipv4Addr
resolver_address = record { a = 8; b = 8; c = 8; d = 8 }

is_public_ipv4_iff_example :
    is_public_ipv4 loopback ≡ not (contains (number loopback) special_blocks)
is_public_ipv4_iff_example =
    is_public_ipv4_iff loopback (omega arith, omega arith, omega arith, omega arith)

is_public_ipv6-embedded_example :
    (is_public_ipv6 (mapped loopback) ≡ (is_unspecified loopback || is_public_ipv4 loopback))
    × (is_public_ipv6 (compatible loopback) ≡ is_public_ipv4 loopback)
    × ((w x y z : ℕ) → is_public_ipv6 (nat64 loopback w x y z) ≡ is_public_ipv4 loopback)
    × ((v w x y z : ℕ) → is_public_ipv6 (six_to_four loopback v w x y z) ≡ is_public_ipv4 loopback)
    × (is_public_ipv4 (record { a = 0; b = 0; c = 0; d = 0 }) ≡ false)
is_public_ipv6-embedded_example =
    is_public_ipv6-embedded loopback (omega arith, omega arith, omega arith, omega arith)

-- ::ffff:0.0.0.0
mapped_zero_is_public : is_public_ipv6 (mapped (record { a = 0; b = 0; c = 0; d = 0 })) ≡ true
mapped_zero_is_public =
    (is_public_ipv6-embedded (record { a = 0; b = 0; c = 0; d = 0 })
      (omega arith, omega arith, omega arith, omega arith)).0

abbrev policy : NetworkPolicy
policy = record { allowed_hosts = codes "cdn" ∷ []; admitted = [] }

abbrev url : Url
url = record {
  scheme = codes "https";
  username = [];
  has_password = false;
  host = some (codes "CDN");
  port = some 443;
}

abbrev parse : Text → Option Url
parse raw_url = some url

-- The first call resolves the host; at the second the resolver is down.
abbrev first : Moment
first = record {
  now = 1000;
  later = 2000;
  resolve = λ host port. some (v4 loopback ∷ v4 resolver_address ∷ []);
  poisoned = false;
  victim = 0;
}

abbrev second : Moment
second = record {
  now = 3000;
  later = 4000;
  resolve = λ host port. none;
  poisoned = false;
  victim = 0;
}

abbrev calls : List (Moment × Text)
calls = (first, []) ∷ []

accepted : (validate parse second [] (after_all parse calls policy)).0 ≡ ok tt
unfolding after_all validate validate_url admit is_listed is_recently_admitted remember_admission
    make_room retain_recent check_addresses count_public is_public_ip is_public_ipv4 lookup insert
    show digits
accepted = refl

validate-IsAccepted_example :
    (found : Url) × (parse [] ≡ some found)
    × IsAccepted policy.allowed_hosts (moments calls) second found
validate-IsAccepted_example = validate-IsAccepted parse policy calls second [] refl accepted
