-- ===== src/Manager.antt =====
-- src/storage/manager.rs: `StorageManager`, which counts what the cache holds and evicts from it.
--
-- The storage engine is a parameter, the trait `StorageEngine` of src/storage/mod.rs. A moment is a
-- number, `UNIX_EPOCH` is 0. What the environment decides is an argument: the time of an operation
-- and the bytes that other caches hold. Operations on one key exclude each other by its mutation
-- lock, and the counts change under their own locks, so an operation is one step.
pub mod Usage
pub mod Recovery
pub mod Accounting
pub mod Sorting
pub mod Eviction
use video_proxy_server.Prelude.{
  ℕ, suc, ◌+◌, ◌-◌, String, Bool, true, false, ◌&&◌, ◌||◌, not, Option, none, some, List, [], ◌∷◌,
  map, leb, ltb, ◌==◌, if◌then◌else◌, length, saturating_add,
}
use video_proxy_server.Map.{string_eq, lookup, insert, remove, contains_key}
use video_proxy_server.Error.{Result, ok, err}
use video_proxy_server.Exec.{Exec}
use video_proxy_server.Storage.Disk.File.{Bytes}
use video_proxy_server.Storage.Engine.{StorageEngine}

pub record StorageManagerConfig : Type 0 where
  pub max_cache_size : ℕ
  pub max_file_count : ℕ

pub record CacheEntry : Type 0 where
  pub key : String
  pub disk_usage : ℕ
  pub last_access : ℕ

abbrev pub Entries : Type 0
Entries = List (String × CacheEntry)

abbrev pub unix_epoch : ℕ
unix_epoch = 0

-- `sort_by_key` on the time of the last access, which is stable.
unfoldable pub insert_sorted : CacheEntry → List CacheEntry → List CacheEntry
insert_sorted e [] = e ∷ []
insert_sorted e (f ∷ fs) =
    let rest = insert_sorted e fs in
    if leb e.last_access f.last_access then e ∷ f ∷ fs else f ∷ rest

unfoldable pub sort_by_last_access : List CacheEntry → List CacheEntry
sort_by_last_access [] = []
sort_by_last_access (e ∷ es) = insert_sorted e (sort_by_last_access es)

abbrev pub fits : StorageManagerConfig → ℕ → ℕ → Bool
fits config total count = leb total config.max_cache_size && leb count config.max_file_count

-- The loop over the sorted entries.
unfoldable pub victims_of : StorageManagerConfig → List CacheEntry → ℕ → ℕ → List CacheEntry
victims_of config [] current_total current_count = []
victims_of config (entry ∷ entries) current_total current_count =
    let rest = victims_of config entries (current_total - entry.disk_usage) (current_count - 1) in
    if fits config current_total current_count then [] else entry ∷ rest

-- Whether a round of the cleanup evicts nothing.
abbrev pub is_idle : StorageManagerConfig → ℕ → ℕ → ℕ → Bool
is_idle config external_size combined_total count =
    ltb config.max_cache_size external_size && leb count config.max_file_count
    || fits config combined_total count

-- The entries that a round of the cleanup chooses, from what is counted.
unfoldable pub choose_victims : StorageManagerConfig → ℕ → Entries → ℕ → List CacheEntry
choose_victims config external_size entries total =
    let combined_total = saturating_add total external_size in
    if is_idle config external_size combined_total (length entries)
    then []
    else victims_of config (sort_by_last_access (map (λ e. e.1) entries)) combined_total
        (length entries)

-- What `enumerate` found, added to the entries and to `recovered`. Entries written since then stay.
unfoldable pub recover : List (String × ℕ) → Entries → ℕ → Entries × ℕ
recover [] table recovered = (table, recovered)
recover ((key, size) ∷ found) table recovered =
    let fresh : CacheEntry = record { key = key; disk_usage = size; last_access = unix_epoch } in
    let kept = recover found table recovered in
    let added = recover found (insert key fresh table) (saturating_add recovered size) in
    if contains_key key table then kept else added

abbrev pub is_unchanged : Option CacheEntry → CacheEntry → Bool
is_unchanged none entry = false
is_unchanged (some current) entry = current.last_access == entry.last_access

module _ {E : Type 0} (engine : StorageEngine E) where
  pub record StorageManager : Type 0 where
    pub stored : E
    pub cache_entries : Entries
    pub total_size : ℕ

  abbrev pub new : E → StorageManager
  new e = record { stored = e; cache_entries = []; total_size = 0 }

  -- An entry that is there, when the write did or did not make its file longer.
  abbrev pub extended : Bool → ℕ → String → ℕ → CacheEntry → StorageManager → StorageManager
  extended true now key end_pos entry m = record m {
    cache_entries =
        insert key (record entry { disk_usage = end_pos; last_access = now }) m.cache_entries;
    total_size = saturating_add (m.total_size - entry.disk_usage) end_pos;
  }
  extended false now key end_pos entry m = record m {
    cache_entries = insert key (record entry { last_access = now }) m.cache_entries;
  }

  -- The entry of a key after a write up to `end_pos`.
  unfoldable pub account : ℕ → String → ℕ → Option CacheEntry → StorageManager → StorageManager
  account now key end_pos none m = record m {
    cache_entries =
        insert key (record { key = key; disk_usage = end_pos; last_access = now }) m.cache_entries;
    total_size = saturating_add m.total_size end_pos;
  }
  account now key end_pos (some entry) m =
      extended (ltb entry.disk_usage end_pos) now key end_pos entry m

  abbrev pub written_to : ℕ → String → ℕ → Result ℕ × E → StorageManager → Result ℕ × StorageManager
  written_to now key start (err e, stored) m = (err e, record m { stored = stored })
  written_to now key start (ok bytes_written, stored) m = (
    ok bytes_written,
    account now key (saturating_add start bytes_written) (lookup key m.cache_entries)
        (record m { stored = stored }),
  )

  unfoldable pub write : ℕ → String → List (Result Bytes) → ℕ × ℕ → Exec StorageManager ℕ
  write now key stream range m =
      written_to now key range.0 (engine.write key stream range m.stored) m

  abbrev pub touch : ℕ → String → Option CacheEntry → StorageManager → StorageManager
  touch now key none m = m
  touch now key (some entry) m = record m {
    cache_entries = insert key (record entry { last_access = now }) m.cache_entries;
  }

  abbrev pub with_engine {ℓ} : {A : Type ℓ} → A × E → StorageManager → A × StorageManager
  with_engine r m = (r.0, record m { stored = r.1 })

  unfoldable pub read : ℕ → String → ℕ × ℕ → Exec StorageManager (List (Result Bytes))
  read now key range m =
      with_engine (engine.read key range m.stored) (touch now key (lookup key m.cache_entries) m)

  unfoldable pub get_size : String → Exec StorageManager (Option ℕ)
  get_size key m = elim (lookup key m.cache_entries) [
    | none ↦ with_engine (engine.get_size key m.stored) m
    | some entry ↦ (ok (some entry.disk_usage), m)
  ]

  abbrev pub warmed_up : Result (List (String × ℕ)) × E → StorageManager → StorageManager
  warmed_up (err e, stored) m = record m { stored = stored }
  warmed_up (ok found, stored) m =
      let r = recover found m.cache_entries 0 in
      record { stored = stored; cache_entries = r.0; total_size = saturating_add m.total_size r.1 }

  unfoldable pub warm_up : StorageManager → StorageManager
  warm_up m = warmed_up (engine.enumerate m.stored) m

  abbrev pub drop_entry : String → Option CacheEntry → StorageManager → StorageManager
  drop_entry key none m = m
  drop_entry key (some removed) m = record m {
    cache_entries = remove key m.cache_entries;
    total_size = m.total_size - removed.disk_usage;
  }

  abbrev pub deleted : String → Result (Unit {0}) × E → StorageManager → StorageManager
  deleted key (err e, stored) m = record m { stored = stored }
  deleted key (ok _, stored) m =
      drop_entry key (lookup key m.cache_entries) (record m { stored = stored })

  -- One victim: it is left alone when it was used since it was chosen.
  unfoldable pub evict : CacheEntry → StorageManager → StorageManager
  evict entry m =
      if is_unchanged (lookup entry.key m.cache_entries) entry
      then deleted entry.key (engine.delete entry.key m.stored) m
      else m

  abbrev pub evict_all : List CacheEntry → StorageManager → StorageManager
  evict_all [] m = m
  evict_all (entry ∷ entries) m = evict_all entries (evict entry m)

  -- A round of the cleanup that nothing interrupts.
  unfoldable pub cleanup : StorageManagerConfig → ℕ → StorageManager → StorageManager
  cleanup config external_size m =
      evict_all (choose_victims config external_size m.cache_entries m.total_size) m
