-- ===== src/Policy.antt =====
-- src/utils/network_policy.rs: which addresses and which URLs may be reached.
--
-- `is_allowed_target` is the one of production builds, without the feature
-- `allow-private-upstream`.
pub mod Blocks
pub mod Embedded
pub mod Admission
use video_proxy_server.Prelude.{
  ℕ, ◌+◌, ◌*◌, ◌/◌, ◌%◌, Bool, true, false, ◌&&◌, ◌||◌, not, Option, none, some, leb, ltb, ◌==◌,
  if◌then◌else◌,
}

-- The four octets of `Ipv4Addr`, the eight segments of `Ipv6Addr`.
pub record Ipv4Addr : Type 0 where
  pub a : ℕ
  pub b : ℕ
  pub c : ℕ
  pub d : ℕ

pub record Ipv6Addr : Type 0 where
  pub s0 : ℕ
  pub s1 : ℕ
  pub s2 : ℕ
  pub s3 : ℕ
  pub s4 : ℕ
  pub s5 : ℕ
  pub s6 : ℕ
  pub s7 : ℕ

pub data IpAddr : Type 0 where
  v4 : Ipv4Addr → IpAddr
  v6 : Ipv6Addr → IpAddr

-- Of the standard library: `is_private`, `is_loopback`, `is_link_local`, `is_unspecified`,
-- `is_broadcast`, `is_documentation`, `is_multicast`.
abbrev pub is_private : Ipv4Addr → Bool
is_private ip =
    ip.a == 10 || (ip.a == 172 && (leb 16 ip.b && leb ip.b 31) || (ip.a == 192 && ip.b == 168))

abbrev pub is_unspecified : Ipv4Addr → Bool
is_unspecified ip = ip.a == 0 && (ip.b == 0 && (ip.c == 0 && ip.d == 0))

abbrev pub is_broadcast : Ipv4Addr → Bool
is_broadcast ip = ip.a == 255 && (ip.b == 255 && (ip.c == 255 && ip.d == 255))

abbrev pub is_documentation : Ipv4Addr → Bool
is_documentation ip =
    ip.a == 192 && (ip.b == 0 && ip.c == 2)
    || (ip.a == 198 && (ip.b == 51 && ip.c == 100) || (ip.a == 203 && (ip.b == 0 && ip.c == 113)))

abbrev pub is_multicast : Ipv4Addr → Bool
is_multicast ip = leb 224 ip.a && leb ip.a 239

unfoldable pub is_public_ipv4 : Ipv4Addr → Bool
is_public_ipv4 ip = not (
    is_private ip
    || (ip.a == 127
        || (ip.a == 169 && ip.b == 254
            || (is_unspecified ip
                || (is_broadcast ip
                    || (is_documentation ip
                        || (is_multicast ip
                            || (ip.a == 0
                                || (leb 240 ip.a
                                    || (ip.a == 100 && (leb 64 ip.b && leb ip.b 127)
                                        || (ip.a == 198 && (ip.b == 18 || ip.b == 19)
                                            || (ip.a == 192 && (ip.b == 0 && ip.c == 0)
                                                || (ip.a == 192
                                                    && (ip.b == 88 && ip.c == 99))))))))))))))

-- `Ipv4Addr::from` of two segments.
abbrev pub from_segments : ℕ → ℕ → Ipv4Addr
from_segments high low = record { a = high / 256; b = high % 256; c = low / 256; d = low % 256 }

unfoldable pub embedded_ipv4 : Ipv6Addr → Option Ipv4Addr
embedded_ipv4 ip =
    let low = from_segments ip.s6 ip.s7 in
    if ip.s0 == 0x2002
    then some (from_segments ip.s1 ip.s2)
    else if ip.s0 == 0x64 && ip.s1 == 0xff9b
    then some low
    else if (ip.s0 == 0 && (ip.s1 == 0 && (ip.s2 == 0 && (ip.s3 == 0 && ip.s4 == 0))))
        && ((ip.s5 == 0xffff || ip.s5 == 0) && not (is_unspecified low))
    then some low
    else none

-- The masks are divisions: `s & 0xfe00 == 0xfc00` is `s / 512 == 126`.
unfoldable pub is_special_ipv6 : Ipv6Addr → Bool
is_special_ipv6 ip =
    (ip.s0 == 0
      && (ip.s1 == 0
          && (ip.s2 == 0
              && (ip.s3 == 0
                  && (ip.s4 == 0 && (ip.s5 == 0 && (ip.s6 == 0 && (ip.s7 == 1 || ip.s7 == 0))))))))
    || (ip.s0 / 256 == 255
        || (ip.s0 / 512 == 126
            || (ip.s0 / 64 == 1018
                || (ip.s0 == 0x2001 && ip.s1 == 0xdb8
                    || (ip.s0 == 0x2001 && ip.s1 == 0
                        || (ip.s0 == 0x2001 && ip.s1 / 16 == 2
                            || (ip.s0 == 0x100 && (ip.s1 == 0 && (ip.s2 == 0 && ip.s3 == 0)))))))))

abbrev pub public_by : Ipv6Addr → Option Ipv4Addr → Bool
public_by ip none = not (is_special_ipv6 ip)
public_by ip (some embedded) = is_public_ipv4 embedded

unfoldable pub is_public_ipv6 : Ipv6Addr → Bool
is_public_ipv6 ip = public_by ip (embedded_ipv4 ip)

unfoldable pub is_public_ip : IpAddr → Bool
is_public_ip (v4 ip) = is_public_ipv4 ip
is_public_ip (v6 ip) = is_public_ipv6 ip

abbrev pub is_allowed_target : IpAddr → Bool
is_allowed_target = is_public_ip
