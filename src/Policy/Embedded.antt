-- ===== src/Policy/Embedded.antt =====
-- src/utils/network_policy.rs: IPv6 addresses that carry an IPv4 address.
use video_proxy_server.Prelude.{
  ℕ, ◌+◌, ◌*◌, ◌≡◌, refl, ap, ◌∙◌, inl, inr, true, false, ◌||◌, arith, Bool-cases,
}
use video_proxy_server.Policy.{
  Ipv4Addr, Ipv6Addr, is_unspecified, is_public_ipv4, from_segments, embedded_ipv4, is_special_ipv6,
  is_public_ipv6,
}
use video_proxy_server.Policy.Blocks.{IsIpv4}

-- The two segments of an IPv4 address.
abbrev pub high_segment : Ipv4Addr → ℕ
high_segment ip = ip.a * 256 + ip.b

abbrev pub low_segment : Ipv4Addr → ℕ
low_segment ip = ip.c * 256 + ip.d

-- ::ffff:a.b.c.d, ::a.b.c.d, 64:ff9b:…:a.b.c.d and 2002:a.b.c.d:…
abbrev pub mapped : Ipv4Addr → Ipv6Addr
mapped ip = record {
  s0 = 0;
  s1 = 0;
  s2 = 0;
  s3 = 0;
  s4 = 0;
  s5 = 0xffff;
  s6 = high_segment ip;
  s7 = low_segment ip;
}

abbrev pub compatible : Ipv4Addr → Ipv6Addr
compatible ip = record {
  s0 = 0;
  s1 = 0;
  s2 = 0;
  s3 = 0;
  s4 = 0;
  s5 = 0;
  s6 = high_segment ip;
  s7 = low_segment ip;
}

abbrev pub nat64 : Ipv4Addr → ℕ → ℕ → ℕ → ℕ → Ipv6Addr
nat64 ip w x y z = record {
  s0 = 0x64;
  s1 = 0xff9b;
  s2 = w;
  s3 = x;
  s4 = y;
  s5 = z;
  s6 = high_segment ip;
  s7 = low_segment ip;
}

abbrev pub six_to_four : Ipv4Addr → ℕ → ℕ → ℕ → ℕ → ℕ → Ipv6Addr
six_to_four ip v w x y z = record {
  s0 = 0x2002;
  s1 = high_segment ip;
  s2 = low_segment ip;
  s3 = v;
  s4 = w;
  s5 = x;
  s6 = y;
  s7 = z;
}

from_segments-segments :
    (ip : Ipv4Addr) → IsIpv4 ip → from_segments (high_segment ip) (low_segment ip) ≡ ip
from_segments-segments ip h = ground arith

unspecified_eq :
    (ip : Ipv4Addr) → is_unspecified ip ≡ true → ip ≡ record { a = 0; b = 0; c = 0; d = 0 }
unspecified_eq ip h = ground arith

public_mapped :
    (ip : Ipv4Addr)
    → IsIpv4 ip
    → is_public_ipv6 (mapped ip) ≡ (is_unspecified ip || is_public_ipv4 ip)
unfolding is_public_ipv6 embedded_ipv4
public_mapped ip h = elim (Bool-cases (is_unspecified ip)) [
  | inl e ↦ rw (unspecified_eq ip e) (unfold is_special_ipv6 in refl)
  | inr e ↦
      let e' : is_unspecified (from_segments (high_segment ip) (low_segment ip)) ≡ false =
        ap is_unspecified (from_segments-segments ip h) ∙ e in
      rw (e', e) (ap is_public_ipv4 (from_segments-segments ip h))
]

public_compatible : (ip : Ipv4Addr) → IsIpv4 ip → is_public_ipv6 (compatible ip) ≡ is_public_ipv4 ip
unfolding is_public_ipv6 embedded_ipv4
public_compatible ip h = elim (Bool-cases (is_unspecified ip)) [
  | inl e ↦ rw (unspecified_eq ip e) (unfold is_special_ipv6 is_public_ipv4 in refl)
  | inr e ↦
      let e' : is_unspecified (from_segments (high_segment ip) (low_segment ip)) ≡ false =
        ap is_unspecified (from_segments-segments ip h) ∙ e in
      rw e' (ap is_public_ipv4 (from_segments-segments ip h))
]

-- An IPv6 address that carries an IPv4 address (mapped, compatible, NAT64 or 6to4) is public when
-- the IPv4 address is, and not otherwise; but for the mapped form of 0.0.0.0, which is taken for
-- public although 0.0.0.0 is not.
pub is_public_ipv6-embedded :
    (ip : Ipv4Addr)
    → IsIpv4 ip
    → (is_public_ipv6 (mapped ip) ≡ (is_unspecified ip || is_public_ipv4 ip))
      × (is_public_ipv6 (compatible ip) ≡ is_public_ipv4 ip)
      × ((w x y z : ℕ) → is_public_ipv6 (nat64 ip w x y z) ≡ is_public_ipv4 ip)
      × ((v w x y z : ℕ) → is_public_ipv6 (six_to_four ip v w x y z) ≡ is_public_ipv4 ip)
      × (is_public_ipv4 (record { a = 0; b = 0; c = 0; d = 0 }) ≡ false)
unfolding is_public_ipv6 embedded_ipv4
is_public_ipv6-embedded ip h =
    let e = from_segments-segments ip h in
    (
      public_mapped ip h,
      public_compatible ip h,
      λ w x y z. ap is_public_ipv4 e,
      λ v w x y z. ap is_public_ipv4 e,
      unfold is_public_ipv4 in refl,
    )
