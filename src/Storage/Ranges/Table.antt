-- ===== src/Storage/Ranges/Table.antt =====
-- What a table of completed ranges means: the set of bytes that it marks as cached.
use video_proxy_server.Prelude.{
  ℕ, ◌+◌, ◌≤◌, ◌<◌, ◌≡◌, refl, Bool, false, ◌&&◌, ◌||◌, [], ◌∷◌, arith, leb, u64_max,
}
use video_proxy_server.Storage.Ranges.{Ranges}

-- The ranges are sorted, do not touch one another, hold u64 values, and start at `low` at least.
abbrev pub IsTableFrom : ℕ → Ranges → Type 0
IsTableFrom low [] = Unit
IsTableFrom low ((s, e) ∷ rs) = (low ≤ s) × (s ≤ e) × (e ≤ u64_max) × IsTableFrom (e + 2) rs

abbrev pub IsTable : Ranges → Type 0
IsTable rs = IsTableFrom 0 rs

-- Whether a byte is in a range, and in one of the ranges of a table.
abbrev pub is_in : ℕ → ℕ × ℕ → Bool
is_in byte (s, e) = leb s byte && leb byte e

abbrev pub has_byte : Ranges → ℕ → Bool
has_byte [] byte = false
has_byte (r ∷ rs) byte = is_in byte r || has_byte rs byte

pub IsTableFrom-weaken :
    (low low' : ℕ) (rs : Ranges) → low' ≤ low → IsTableFrom low rs → IsTableFrom low' rs
IsTableFrom-weaken low low' [] h t = tt
IsTableFrom-weaken low low' ((s, e) ∷ rs) h (a, b, c, t) = (omega arith, b, c, t)

-- A table holds no byte below its lowest start.
pub has_byte-below :
    (low byte : ℕ) (rs : Ranges) → IsTableFrom low rs → byte < low → has_byte rs byte ≡ false
has_byte-below low byte [] t h = refl
has_byte-below low byte ((s, e) ∷ rs) (a, b, c, t) h =
    ground (arith, has_byte-below (e + 2) byte rs t)
