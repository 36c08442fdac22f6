-- ===== src/Storage/Ranges.antt =====
-- src/storage/disk.rs: `merge_range`, which keeps the table of completed ranges of a cached file,
-- and the query of that table in `check_range`. A range is a pair of its two ends, both inside.
pub mod Table
pub mod Merge
pub mod Query
use mathlib.Core.List.{foldl}
use video_proxy_server.Prelude.{
  ℕ, zero, suc, ◌+◌, ◌-◌, min, max, Bool, true, false, ◌&&◌, ◌||◌, List, [], ◌∷◌, ◌++◌, leb, ltb,
  if◌then◌else◌, saturating_add, take, drop,
}

abbrev pub Ranges : Type 0
Ranges = List (ℕ × ℕ)

-- `slice::partition_point`, on a slice whose elements that pass the test stand first.
unfoldable pub partition_point : (ℕ × ℕ → Bool) → Ranges → ℕ
partition_point test [] = 0
partition_point test (r ∷ rs) = if test r then suc (partition_point test rs) else 0

-- The ends of the new range after it has taken in the ranges that it touches.
unfoldable pub merged : Ranges → ℕ → ℕ → ℕ × ℕ
merged [] start end = (start, end)
merged (r ∷ touching) start end =
    (min r.0 start, foldl (λ widest range. max widest range.1) end (r ∷ touching))

unfoldable pub first_touching : Ranges → ℕ → ℕ
unfolding partition_point
first_touching ranges start = partition_point (λ range. ltb (saturating_add range.1 1) start) ranges

unfoldable pub last_touching : Ranges → ℕ → ℕ
unfolding partition_point
last_touching ranges end = partition_point (λ range. leb range.0 (saturating_add end 1)) ranges

-- `ranges.splice(first..last, …)`: the ranges before `first`, the merged one, those from `last` on.
unfoldable pub merge_range : Ranges → ℕ → ℕ → Ranges
unfolding first_touching last_touching merged
merge_range ranges start end =
    let first = first_touching ranges start in
    let last = last_touching ranges end in
    take first ranges ++ merged (drop first (take last ranges)) start end ∷ drop last ranges

-- `completed.iter().any(…)` of `check_range`
unfoldable pub is_covered : Ranges → ℕ → ℕ → Bool
is_covered [] start end = false
is_covered (r ∷ rs) start end = leb r.0 start && leb end r.1 || is_covered rs start end
