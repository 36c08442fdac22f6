-- ===== src/Manager/Eviction.antt =====
-- src/storage/manager.rs: which entries a round of the cleanup evicts.
use mathlib.Core.List.{Perm}
use video_proxy_server.Prelude.{
  ℕ, ◌+◌, ◌-◌, ◌≤◌, ◌≡◌, refl, sym, ap, subst, ◌≢◌, ◌⊎◌, true, false, List, [], ◌∷◌, ◌++◌, arith,
  length, Bool-cases, inl, inr, u64_max, saturating_add,
}
use video_proxy_server.Manager.{
  StorageManagerConfig, CacheEntry, Entries, sort_by_last_access, fits, victims_of, is_idle,
  choose_victims,
}
use video_proxy_server.Manager.Usage.{usage}
use video_proxy_server.Manager.Sorting.{
  values, sizes, IsSorted, AllOlder, sort_IsSorted, Perm-sort, sort-sizes, sorted_AllOlder,
}

-- What stays within the limits, beside `external` bytes.
abbrev pub Fits : StorageManagerConfig → ℕ → List CacheEntry → Type 0
Fits config external kept =
    (external + sizes kept ≤ config.max_cache_size) × (length kept ≤ config.max_file_count)

-- The victims stop at the first entry from which on everything fits.
abbrev Chosen : StorageManagerConfig → ℕ → List CacheEntry → List CacheEntry → Type 0
Chosen config external entries victims =
    (kept : List CacheEntry) × (entries ≡ victims ++ kept)
    × Fits config external kept
    × ((before : List CacheEntry) (last : CacheEntry)
        → victims ≡ before ++ (last ∷ [])
        → fits config (external + sizes (last ∷ kept)) (length (last ∷ kept)) ≡ false)

fits_Fits :
    (config : StorageManagerConfig) (external : ℕ) (kept : List CacheEntry) (total count : ℕ)
    → total ≡ external + sizes kept
    → count ≡ length kept
    → fits config total count ≡ true
    → Fits config external kept
fits_Fits config external kept total count e c h = ground (arith, e, c, h)

idle_Fits :
    (config : StorageManagerConfig) (external : ℕ) (kept : List CacheEntry) (total count : ℕ)
    → external ≤ config.max_cache_size
    → total ≡ sizes kept
    → count ≡ length kept
    → total + external ≤ u64_max
    → is_idle config external (saturating_add total external) count ≡ true
    → Fits config external kept
idle_Fits config external kept total count p e c b h = ground (arith, p, e, c, b, h)

no_last : (before : List CacheEntry) (last : CacheEntry) → [] ≢ before ++ (last ∷ [])
no_last [] last h = cc
no_last (b ∷ before) last h = cc

none_kept :
    (entries victims kept before : List CacheEntry) (entry last : CacheEntry)
    → entries ≡ victims ++ kept
    → entry ∷ victims ≡ before ++ (last ∷ [])
    → ((entry ∷ entries ≡ last ∷ kept) ⊎ ((b : List CacheEntry) × (victims ≡ b ++ (last ∷ []))))
none_kept entries [] kept [] entry last e h = inl cc
none_kept entries (v ∷ victims) kept [] entry last e h = cc
none_kept entries victims kept (b ∷ before) entry last e h = inr (before, cc)

one_more :
    (config : StorageManagerConfig) (external : ℕ) (entry : CacheEntry)
    (entries victims : List CacheEntry)
    → fits config (external + sizes (entry ∷ entries)) (length (entry ∷ entries)) ≡ false
    → Chosen config external entries victims
    → Chosen config external (entry ∷ entries) (entry ∷ victims)
one_more config external entry entries victims more (kept, split, fit, need) = (
  kept,
  ap (λ es. entry ∷ es) split,
  fit,
  λ before last h. elim (none_kept entries victims kept before entry last split h) [
    | inl same ↦ subst (λ es. fits config (external + sizes es) (length es) ≡ false) same more
    | inr (b, h') ↦ need b last h'
  ],
)

without_first :
    (external total : ℕ) (entry : CacheEntry) (entries : List CacheEntry)
    → total ≡ external + sizes (entry ∷ entries)
    → total - entry.disk_usage ≡ external + sizes entries
unfolding sizes
without_first external total entry entries e = omega arith

victims_of-Chosen :
    (config : StorageManagerConfig) (external : ℕ) (entries : List CacheEntry) (total count : ℕ)
    → external ≤ config.max_cache_size
    → total ≡ external + sizes entries
    → count ≡ length entries
    → Chosen config external entries (victims_of config entries total count)
unfolding victims_of
victims_of-Chosen config external [] total count p e c = (
  [],
  refl,
  (unfold sizes in omega (arith, p), omega arith),
  λ before last h. absurd (no_last before last h),
)
victims_of-Chosen config external (entry ∷ entries) total count p e c =
    elim (Bool-cases (fits config total count)) [
      | inl done ↦ rw done (
        entry ∷ entries,
        refl,
        fits_Fits config external (entry ∷ entries) total count e c done,
        λ before last h. absurd (no_last before last h),
      )
      | inr more ↦
          let rest =
            victims_of-Chosen config external entries (total - entry.disk_usage) (count - 1) p
              (without_first external total entry entries e) (omega arith) in
          rw more (one_more config external entry entries _ (rw (e, c) at more) rest)
    ]

Chosen-choose_victims :
    (config : StorageManagerConfig) (external : ℕ) (entries : Entries) (total : ℕ)
    → external ≤ config.max_cache_size
    → total ≡ usage entries
    → total + external ≤ u64_max
    → Chosen config external
        (sort_by_last_access (values entries))
        (choose_victims config external entries total)
unfolding choose_victims
Chosen-choose_victims config external entries total p e b =
    let sums = sort-sizes entries in
    let sorted = sort_by_last_access (values entries) in
    elim (Bool-cases (is_idle config external (saturating_add total external) (length entries))) [
      | inl idle ↦ rw idle (
        sorted,
        refl,
        idle_Fits config external sorted total (length entries) p (omega (arith, e, sums.0))
            (sym sums.1) b idle,
        λ before last h. absurd (no_last before last h),
      )
      | inr busy ↦ rw busy (
          victims_of-Chosen config external sorted (saturating_add total external) (length entries)
            p (omega (arith, e, b, sums.0)) (sym sums.1))
    ]

-- When other caches leave room, the counted size is right and all sizes together stay within a
-- `u64`, a round of the cleanup chooses the least recently used entries: the
-- entries are the victims and those kept, in some order, no victim was used after one that is kept,
-- what is kept is within both limits, and it would not be if the last victim were kept as well.
pub choose_victims-least_recent :
    (config : StorageManagerConfig) (external : ℕ) (entries : Entries) (total : ℕ)
    → external ≤ config.max_cache_size
    → total ≡ usage entries
    → total + external ≤ u64_max
    → (kept : List CacheEntry) × Perm
        (choose_victims config external entries total ++ kept)
        (values entries)
      × AllOlder (choose_victims config external entries total) kept
      × Fits config external kept
      × ((before : List CacheEntry) (last : CacheEntry)
          → choose_victims config external entries total ≡ before ++ (last ∷ [])
          → fits config (external + sizes (last ∷ kept)) (length (last ∷ kept)) ≡ false)
choose_victims-least_recent config external entries total p e b =
    let (kept, split, fit, need) = Chosen-choose_victims config external entries total p e b in
    let sorted = sort_by_last_access (values entries) in
    (
      kept,
      subst (λ es. Perm es (values entries)) split (Perm-sort (values entries)),
      sorted_AllOlder _ kept (subst IsSorted split (sort_IsSorted (values entries))),
      fit,
      need,
    )
