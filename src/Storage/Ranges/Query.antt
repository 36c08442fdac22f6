-- ===== src/Storage/Ranges/Query.antt =====
-- The query of `check_range` reads the set of bytes that the table stands for.
use video_proxy_server.Prelude.{
  ℕ, ◌+◌, ◌≤◌, ◌≡◌, ◌↔◌, true, [], ◌∷◌, arith, leb, Bool-cases, inl, inr,
}
use video_proxy_server.Storage.Ranges.{Ranges, is_covered}
use video_proxy_server.Storage.Ranges.Table.{IsTableFrom, IsTable, has_byte, has_byte-below}

is_covered-has_byte :
    (rs : Ranges) (start end byte : ℕ)
    → is_covered rs start end ≡ true
    → start ≤ byte
    → byte ≤ end
    → has_byte rs byte ≡ true
unfolding is_covered
is_covered-has_byte [] start end byte h p q = cc
is_covered-has_byte ((s, e) ∷ rs) start end byte h p q =
    ground (arith, is_covered-has_byte rs start end byte)

-- Two neighbouring ranges leave a gap, so bytes that are all cached lie in one range.
has_byte-is_covered :
    (rs : Ranges) (low start end : ℕ)
    → IsTableFrom low rs
    → start ≤ end
    → ((byte : ℕ) → start ≤ byte → byte ≤ end → has_byte rs byte ≡ true)
    → is_covered rs start end ≡ true
unfolding is_covered
has_byte-is_covered [] low start end t p all = all start (omega arith) p
has_byte-is_covered ((s, e) ∷ rs) low start end (a, b, c, t) p all =
    elim (Bool-cases (leb start e)) [
      | inl inside ↦ ground (
        arith,
        all start,
        all (e + 1),
        has_byte-below (e + 2) start rs t,
        has_byte-below (e + 2) (e + 1) rs t,
      )
      | inr beyond ↦ ground (
        arith,
        has_byte-is_covered rs (e + 2) start end t p (λ byte h k. ground (arith, all byte h k)),
      )
    ]

-- On a well-formed table the query answers yes exactly if every byte of the range, whose start is at most its end, is cached.
pub is_covered_iff :
    (rs : Ranges) (start end : ℕ)
    → IsTable rs
    → start ≤ end
    → (is_covered rs start end ≡ true)
      ↔ ((byte : ℕ) → start ≤ byte → byte ≤ end → has_byte rs byte ≡ true)
is_covered_iff rs start end t p =
    (λ h byte. is_covered-has_byte rs start end byte h, has_byte-is_covered rs 0 start end t p)
