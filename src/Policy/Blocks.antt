-- ===== src/Policy/Blocks.antt =====
-- src/utils/network_policy.rs: the public IPv4 addresses are those outside a table of blocks.
use video_proxy_server.Prelude.{
  ℕ, ◌+◌, ◌*◌, ◌≡◌, refl, ap, sym, ◌∙◌, Bool, false, ◌&&◌, ◌||◌, not, List, [], ◌∷◌, leb, ltb, ◌==◌,
  arith,
}
use video_proxy_server.Peer.Word.{IsByte}
use video_proxy_server.Policy.{Ipv4Addr, is_unspecified, is_broadcast, is_multicast, is_public_ipv4}

-- The address as a number.
abbrev pub number : Ipv4Addr → ℕ
number ip = ip.a * 16777216 + ip.b * 65536 + ip.c * 256 + ip.d

-- The addresses of `size` from `first` on.
pub record Block : Type 0 where
  pub first : ℕ
  pub size : ℕ

abbrev pub cidr : ℕ → ℕ → ℕ → ℕ → Block
cidr a b c size = record { first = a * 16777216 + b * 65536 + c * 256; size = size }

abbrev pub contains : ℕ → List Block → Bool
contains n [] = false
contains n (block ∷ blocks) =
    (leb block.first n && ltb n (block.first + block.size)) || contains n blocks

-- The blocks of the special-purpose registry that the program names: 10/8, 172.16/12, 192.168/16,
-- 127/8, 169.254/16, 192.0.2/24, 198.51.100/24, 203.0.113/24, 0/8, 100.64/10, 198.18/15,
-- 192.0.0/24, 192.88.99/24, and all from 224.0.0.0 on.
abbrev pub special_blocks : List Block
special_blocks =
    cidr 10 0 0 16777216
    ∷ cidr 172 16 0 1048576
    ∷ cidr 192 168 0 65536
    ∷ cidr 127 0 0 16777216
    ∷ cidr 169 254 0 65536
    ∷ cidr 192 0 2 256
    ∷ cidr 198 51 100 256
    ∷ cidr 203 0 113 256
    ∷ cidr 0 0 0 16777216
    ∷ cidr 100 64 0 4194304
    ∷ cidr 198 18 0 131072
    ∷ cidr 192 0 0 256
    ∷ cidr 192 88 99 256
    ∷ cidr 224 0 0 536870912
    ∷ []

abbrev pub IsIpv4 : Ipv4Addr → Type 0
IsIpv4 ip = IsByte ip.a × IsByte ip.b × IsByte ip.c × IsByte ip.d

abbrev inside : ℕ → Block → Bool
inside n block = leb block.first n && ltb n (block.first + block.size)

module _ (ip : Ipv4Addr) (h : IsIpv4 ip) where
  by_octet : (x : ℕ) → inside (number ip) (cidr x 0 0 16777216) ≡ (ip.a == x)
  by_octet x = ground arith

  by_two : (x y : ℕ) → IsByte y → inside (number ip) (cidr x y 0 65536) ≡ (ip.a == x && ip.b == y)
  by_two x y hy = ground arith

  by_three :
      (x y z : ℕ)
      → IsByte y
      → IsByte z
      → inside (number ip) (cidr x y z 256) ≡ (ip.a == x && (ip.b == y && ip.c == z))
  by_three x y z hy hz = ground arith

  by_private :
      inside (number ip) (cidr 172 16 0 1048576) ≡ (ip.a == 172 && (leb 16 ip.b && leb ip.b 31))
  by_private = ground arith

  by_shared :
      inside (number ip) (cidr 100 64 0 4194304) ≡ (ip.a == 100 && (leb 64 ip.b && leb ip.b 127))
  by_shared = ground arith

  by_benchmark :
      inside (number ip) (cidr 198 18 0 131072) ≡ (ip.a == 198 && (ip.b == 18 || ip.b == 19))
  by_benchmark = ground arith

  by_high : inside (number ip) (cidr 224 0 0 536870912) ≡ (is_multicast ip || leb 240 ip.a)
  by_high = ground arith

  broadcast_high : (is_broadcast ip && not (leb 240 ip.a)) ≡ false
  broadcast_high = ground arith

  unspecified_zero : (is_unspecified ip && not (ip.a == 0)) ≡ false
  unspecified_zero = ground arith

-- The tests of the program are those of the table, but for two that others imply.
same_tests :
    (p10 p172 p192 loop link unset all d₁ d₂ d₃ many zero high shared bench ietf relay : Bool)
    → (unset && not zero) ≡ false
    → (all && not high) ≡ false
    → not (
        (p10 || (p172 || p192))
        || (loop
            || (link
                || (unset
                    || (all
                        || ((d₁ || (d₂ || d₃))
                            || (many
                                || (zero
                                    || (high || (shared || (bench || (ietf || (relay)))))))))))))
      ≡ not (
          p10
          || (p172
              || (p192
                  || (loop
                      || (link
                          || (d₁
                              || (d₂
                                  || (d₃
                                      || (zero
                                          || (shared
                                              || (bench
                                                  || (ietf
                                                      || (relay
                                                          || ((many || high)
                                                            || (false)))))))))))))))
same_tests p10 p172 p192 loop link unset all d₁ d₂ d₃ many zero high shared bench ietf relay h k =
    ground arith

or_eq : {a b c d : Bool} → a ≡ b → c ≡ d → (a || c) ≡ (b || d)
or_eq {a} {b} {c} {d} e f = ap (λ x. x || c) e ∙ ap (λ x. b || x) f

contains_tests :
    (ip : Ipv4Addr) (h : IsIpv4 ip)
    → contains (number ip) special_blocks ≡ (
        (ip.a == 10)
        || ((ip.a == 172 && (leb 16 ip.b && leb ip.b 31))
            || ((ip.a == 192 && ip.b == 168)
                || ((ip.a == 127)
                    || ((ip.a == 169 && ip.b == 254)
                        || ((ip.a == 192 && (ip.b == 0 && ip.c == 2))
                            || ((ip.a == 198 && (ip.b == 51 && ip.c == 100))
                                || ((ip.a == 203 && (ip.b == 0 && ip.c == 113))
                                    || ((ip.a == 0)
                                        || ((ip.a == 100 && (leb 64 ip.b && leb ip.b 127))
                                            || ((ip.a == 198 && (ip.b == 18 || ip.b == 19))
                                                || ((ip.a == 192 && (ip.b == 0 && ip.c == 0))
                                                    || ((ip.a == 192 && (ip.b == 88 && ip.c == 99))
                                                        || ((is_multicast ip || leb 240 ip.a)
                                                            || (false)))))))))))))))
contains_tests ip h = or_eq (by_octet ip h 10) (
    or_eq (by_private ip h) (
      or_eq (by_two ip h 192 168 (omega arith)) (
        or_eq (by_octet ip h 127) (
          or_eq (by_two ip h 169 254 (omega arith)) (
            or_eq (by_three ip h 192 0 2 (omega arith) (omega arith)) (
              or_eq (by_three ip h 198 51 100 (omega arith) (omega arith)) (
                or_eq (by_three ip h 203 0 113 (omega arith) (omega arith)) (
                  or_eq (by_octet ip h 0) (
                    or_eq (by_shared ip h) (
                      or_eq (by_benchmark ip h) (
                        or_eq (by_three ip h 192 0 0 (omega arith) (omega arith)) (
                          or_eq (by_three ip h 192 88 99 (omega arith) (omega arith))
                            (or_eq (by_high ip h) refl)))))))))))))

-- An IPv4 address is public exactly when it lies in none of the special blocks.
pub is_public_ipv4_iff :
    (ip : Ipv4Addr) → IsIpv4 ip → is_public_ipv4 ip ≡ not (contains (number ip) special_blocks)
unfolding is_public_ipv4
is_public_ipv4_iff ip h =
    same_tests (ip.a == 10) (ip.a == 172 && (leb 16 ip.b && leb ip.b 31))
      (ip.a == 192 && ip.b == 168) (ip.a == 127) (ip.a == 169 && ip.b == 254) (is_unspecified ip)
      (is_broadcast ip) (ip.a == 192 && (ip.b == 0 && ip.c == 2))
      (ip.a == 198 && (ip.b == 51 && ip.c == 100)) (ip.a == 203 && (ip.b == 0 && ip.c == 113))
      (is_multicast ip) (ip.a == 0) (leb 240 ip.a) (ip.a == 100 && (leb 64 ip.b && leb ip.b 127))
      (ip.a == 198 && (ip.b == 18 || ip.b == 19)) (ip.a == 192 && (ip.b == 0 && ip.c == 0))
      (ip.a == 192 && (ip.b == 88 && ip.c == 99)) (unspecified_zero ip h) (broadcast_high ip h)
    ∙ ap not (sym (contains_tests ip h))
