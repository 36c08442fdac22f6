-- ===== src/Storage/Ranges/Merge.antt =====
-- `merge_range` keeps a table well formed, and adds exactly the bytes of the new range.
use mathlib.Core.List.{foldl}
use video_proxy_server.Prelude.{
  ℕ, ◌+◌, min, max, ◌≤◌, ◌≡◌, refl, ◌⊎◌, inl, inr, true, false, ◌||◌, [], ◌∷◌, arith, leb, ltb,
  u64_max, saturating_add, take, drop, Bool-cases,
}
use video_proxy_server.Storage.Ranges.{Ranges, first_touching, last_touching, merge_range}
use video_proxy_server.Storage.Ranges.Table.{
  IsTableFrom, IsTable, is_in, has_byte, IsTableFrom-weaken,
}

abbrev widest : ℕ → Ranges → ℕ
widest end rs = foldl (λ w range. max w range.1) end rs

-- The ranges that the new range reaches are taken in: `reach` is the end so far.
absorb-IsTable :
    (rs : Ranges) (low end reach : ℕ)
    → IsTableFrom low rs
    → end ≤ reach
    → reach ≤ u64_max
    → (reach ≡ end) ⊎ (reach + 2 ≤ low)
    → (reach ≤ widest reach (take (last_touching rs end) rs))
      × (widest reach (take (last_touching rs end) rs) ≤ u64_max)
      × IsTableFrom
          (widest reach (take (last_touching rs end) rs) + 2)
          (drop (last_touching rs end) rs)
unfolding last_touching
absorb-IsTable [] low end reach t h fits g = (omega arith, fits, tt)
absorb-IsTable ((s, e) ∷ rs) low end reach (a, b, c, t) h fits g =
    elim (Bool-cases (leb s (saturating_add end 1))) [
      | inl near ↦ rw near (ground (arith, absorb-IsTable rs (e + 2) end (max reach e) t))
      | inr far ↦ rw far (ground (arith, IsTableFrom-weaken low (reach + 2) rs))
    ]

absorb-has_byte :
    (rs : Ranges) (low start end reach byte : ℕ)
    → IsTableFrom low rs
    → start ≤ low
    → start ≤ end
    → end ≤ reach
    → (is_in byte (start, widest reach (take (last_touching rs end) rs))
        || has_byte (drop (last_touching rs end) rs) byte)
      ≡ (is_in byte (start, reach) || has_byte rs byte)
unfolding last_touching
absorb-has_byte [] low start end reach byte t h p q = refl
absorb-has_byte ((s, e) ∷ rs) low start end reach byte (a, b, c, t) h p q =
    elim (Bool-cases (leb s (saturating_add end 1))) [
      | inl near ↦
          rw near (ground (arith, absorb-has_byte rs (e + 2) start end (max reach e) byte t))
      | inr far ↦ rw far
    ]

-- A range that ends before the new one stays in front.
merge_range-before :
    (s e : ℕ) (rs : Ranges) (start end : ℕ)
    → s ≤ e
    → e ≤ u64_max
    → start ≤ end
    → ltb (saturating_add e 1) start ≡ true
    → merge_range ((s, e) ∷ rs) start end ≡ (s, e) ∷ merge_range rs start end
unfolding merge_range
merge_range-before s e rs start end h c p before =
    let near : leb s (saturating_add end 1) ≡ true = ground arith in rw (before, near)

-- From the first range that is not before it, the new range takes in what it touches.
merge_range-touching :
    (s e : ℕ) (rs : Ranges) (start end : ℕ)
    → ltb (saturating_add e 1) start ≡ false
    → leb s (saturating_add end 1) ≡ true
    → merge_range ((s, e) ∷ rs) start end
      ≡ (min s start, widest (max end e) (take (last_touching rs end) rs))
        ∷ drop (last_touching rs end) rs
unfolding merge_range
merge_range-touching s e rs start end not_before near = rw (not_before, near)

merge_range-apart :
    (s e : ℕ) (rs : Ranges) (start end : ℕ)
    → ltb (saturating_add e 1) start ≡ false
    → leb s (saturating_add end 1) ≡ false
    → merge_range ((s, e) ∷ rs) start end ≡ (start, end) ∷ (s, e) ∷ rs
unfolding merge_range
merge_range-apart s e rs start end not_before far = rw (not_before, far)

merge_range-IsTableFrom :
    (rs : Ranges) (low start end : ℕ)
    → IsTableFrom low rs
    → low ≤ start
    → start ≤ end
    → end ≤ u64_max
    → IsTableFrom low (merge_range rs start end)
merge_range-IsTableFrom [] low start end t h p q = unfold merge_range in (h, p, q, tt)
merge_range-IsTableFrom ((s, e) ∷ rs) low start end (a, b, c, t) h p q =
    elim (Bool-cases (ltb (saturating_add e 1) start)) [
      | inl before ↦
          rw (merge_range-before s e rs start end b c p before)
            (a, b, c, merge_range-IsTableFrom rs (e + 2) start end t (ground arith) p q)
      | inr not_before ↦ elim (Bool-cases (leb s (saturating_add end 1))) [
        | inl near ↦
            rw (merge_range-touching s e rs start end not_before near)
              (ground (arith, absorb-IsTable rs (e + 2) end (max end e) t))
        | inr far ↦
            rw (merge_range-apart s e rs start end not_before far)
              (h, p, q, (ground arith, b, c, t))
      ]
    ]

merge_range-has_byte_from :
    (rs : Ranges) (low start end byte : ℕ)
    → IsTableFrom low rs
    → start ≤ end
    → has_byte (merge_range rs start end) byte ≡ (has_byte rs byte || is_in byte (start, end))
merge_range-has_byte_from [] low start end byte t p = unfold merge_range in ground arith
merge_range-has_byte_from ((s, e) ∷ rs) low start end byte (a, b, c, t) p =
    elim (Bool-cases (ltb (saturating_add e 1) start)) [
      | inl before ↦
          rw (merge_range-before s e rs start end b c p before)
            (ground (arith, merge_range-has_byte_from rs (e + 2) start end byte t p))
      | inr not_before ↦ elim (Bool-cases (leb s (saturating_add end 1))) [
        | inl near ↦ rw (merge_range-touching s e rs start end not_before near) (
            ground (
              arith,
              absorb-has_byte rs (e + 2) (min s start) end (max end e) byte t,
              absorb-has_byte rs (e + 2) (min s start) end end byte t,
            ))
        | inr far ↦ rw (merge_range-apart s e rs start end not_before far) (ground arith)
      ]
    ]

-- In a well-formed table, recording a range of u64 values whose start is at most its end keeps the table well formed: it
-- stays sorted, and no two of its ranges overlap or are adjacent.
pub merge_range-IsTable :
    (rs : Ranges) (start end : ℕ)
    → IsTable rs
    → start ≤ end
    → end ≤ u64_max
    → IsTable (merge_range rs start end)
merge_range-IsTable rs start end t p q = merge_range-IsTableFrom rs 0 start end t (omega arith) p q

-- After a range whose start is at most its end has been recorded, a well-formed table holds a byte
-- exactly if it held it before or the byte is in the new range: nothing is lost, and no gap is marked as cached.
pub merge_range-has_byte :
    (rs : Ranges) (start end byte : ℕ)
    → IsTable rs
    → start ≤ end
    → has_byte (merge_range rs start end) byte ≡ (has_byte rs byte || is_in byte (start, end))
merge_range-has_byte rs start end byte t p = merge_range-has_byte_from rs 0 start end byte t p

-- The splice of `merge_range` never panics: its first index is at most its last.
pub first_touching-le-last_touching :
    (rs : Ranges) (low start end : ℕ)
    → IsTableFrom low rs
    → start ≤ end
    → first_touching rs start ≤ last_touching rs end
unfolding first_touching last_touching
first_touching-le-last_touching [] low start end t p = omega arith
first_touching-le-last_touching ((s, e) ∷ rs) low start end (a, b, c, t) p =
    ground (arith, first_touching-le-last_touching rs (e + 2) start end t p)
