-- ===== src/Manager/Accounting.antt =====
-- src/storage/manager.rs: the count of the bytes stays right through every history.
use video_proxy_server.Prelude.{
  ℕ, ◌+◌, ◌≤◌, String, ◌≡◌, refl, Bool, true, false, Option, none, some, List, [], ◌∷◌, arith, ltb,
  Bool-cases, inl, inr, u64_max, saturating_add,
}
use video_proxy_server.Map.{string_eq, lookup, insert}
use video_proxy_server.Error.{Result, ok, err}
use video_proxy_server.Storage.Disk.File.{Bytes}
use video_proxy_server.Storage.Engine.{StorageEngine}
use video_proxy_server.Manager.{
  CacheEntry, StorageManager, new, account, extended, written_to, write, touch, read, recover,
  warmed_up, warm_up, drop_entry, deleted, evict, is_unchanged,
}
use video_proxy_server.Manager.Usage.{
  usage, IsMap, usage-insert-none, usage-insert-some, usage-lookup, usage-remove, insert-IsMap,
  remove-IsMap,
}
use video_proxy_server.Manager.Recovery.{Recovered, recover-Recovered}

-- What the manager does, one step at a time. A round of the cleanup is an eviction of each victim,
-- with anything in between.
pub data Step : Type 0 where
  writing : ℕ → String → List (Result Bytes) → ℕ × ℕ → Step
  reading : ℕ → String → ℕ × ℕ → Step
  warming_up : Step
  evicting : CacheEntry → Step

module _ {E : Type 0} (engine : StorageEngine E) where
  abbrev pub apply : Step → StorageManager engine → StorageManager engine
  apply (writing now key stream range) m = (write engine now key stream range m).1
  apply (reading now key range) m = (read engine now key range m).1
  apply warming_up m = warm_up engine m
  apply (evicting entry) m = evict engine entry m

  unfoldable pub run : List Step → StorageManager engine → StorageManager engine
  run [] m = m
  run (s ∷ ss) m = run ss (apply s m)

  -- The entries never add up to more than a `u64` holds.
  unfoldable pub IsWithin : List Step → StorageManager engine → Type 0
  IsWithin [] m = Unit
  IsWithin (s ∷ ss) m = (usage (apply s m).cache_entries ≤ u64_max) × IsWithin ss (apply s m)

  abbrev pub IsAccounted : StorageManager engine → Type 0
  IsAccounted m = IsMap m.cache_entries × (m.total_size ≡ usage m.cache_entries)

  -- The entry of a key is replaced.
  replaced :
      (key : String) (old fresh : CacheEntry) (total : ℕ) (m : StorageManager engine)
      → lookup key m.cache_entries ≡ some old
      → IsAccounted m
      → total + old.disk_usage ≡ m.total_size + fresh.disk_usage
      → IsMap (insert key fresh m.cache_entries)
        × (total ≡ usage (insert key fresh m.cache_entries))
  replaced key old fresh total m h (d, t) e =
      let sum = usage-insert-some key fresh old m.cache_entries h in
      (insert-IsMap key fresh m.cache_entries d, omega (arith, sum, t, e))

  extended-IsAccounted :
      (x : Bool) (now : ℕ) (key : String) (end_pos : ℕ) (entry : CacheEntry)
      (m : StorageManager engine)
      → lookup key m.cache_entries ≡ some entry
      → IsAccounted m
      → usage (extended engine x now key end_pos entry m).cache_entries ≤ u64_max
      → IsAccounted (extended engine x now key end_pos entry m)
  extended-IsAccounted true now key end_pos entry m h (d, t) b =
      let fresh : CacheEntry = record entry { disk_usage = end_pos; last_access = now } in
      let sum = usage-insert-some key fresh entry m.cache_entries h in
      let part = usage-lookup key entry m.cache_entries h in
      replaced key entry fresh _ m h (d, t) (omega (arith, sum, part, t, b))
  extended-IsAccounted false now key end_pos entry m h s b =
      replaced key entry (record entry { last_access = now }) m.total_size m h s refl

  account-IsAccounted :
      (now : ℕ) (key : String) (end_pos : ℕ) (o : Option CacheEntry) (m : StorageManager engine)
      → lookup key m.cache_entries ≡ o
      → IsAccounted m
      → usage (account engine now key end_pos o m).cache_entries ≤ u64_max
      → IsAccounted (account engine now key end_pos o m)
  unfolding account
  account-IsAccounted now key end_pos none m h (d, t) b =
      let fresh : CacheEntry = record { key = key; disk_usage = end_pos; last_access = now } in
      let sum = usage-insert-none key fresh m.cache_entries h in
      (insert-IsMap key fresh m.cache_entries d, omega (arith, sum, t, b))
  account-IsAccounted now key end_pos (some entry) m h s b =
      extended-IsAccounted (ltb entry.disk_usage end_pos) now key end_pos entry m h s b

  written_to-IsAccounted :
      (now : ℕ) (key : String) (start : ℕ) (r : Result ℕ × E) (m : StorageManager engine)
      → IsAccounted m
      → usage (written_to engine now key start r m).1.cache_entries ≤ u64_max
      → IsAccounted (written_to engine now key start r m).1
  written_to-IsAccounted now key start (err e, stored) m s b = s
  written_to-IsAccounted now key start (ok n, stored) m s b =
      account-IsAccounted now key (saturating_add start n) (lookup key m.cache_entries)
        (record m { stored = stored }) refl s b

  touch-IsAccounted :
      (now : ℕ) (key : String) (o : Option CacheEntry) (m : StorageManager engine)
      → lookup key m.cache_entries ≡ o
      → IsAccounted m
      → IsAccounted (touch engine now key o m)
  touch-IsAccounted now key none m h s = s
  touch-IsAccounted now key (some entry) m h s =
      replaced key entry (record entry { last_access = now }) m.total_size m h s refl

  warmed_up-IsAccounted :
      (r : Result (List (String × ℕ)) × E) (m : StorageManager engine)
      → IsAccounted m
      → usage (warmed_up engine r m).cache_entries ≤ u64_max
      → IsAccounted (warmed_up engine r m)
  warmed_up-IsAccounted (err e, stored) m s b = s
  warmed_up-IsAccounted (ok found, stored) m (d, t) b =
      let rest : Recovered m.cache_entries 0 (recover found m.cache_entries 0) =
        recover-Recovered found m.cache_entries 0 d (omega arith) b in
      (rest.0, omega (arith, rest.1, t, b))

  drop_entry-IsAccounted :
      (key : String) (o : Option CacheEntry) (m : StorageManager engine)
      → lookup key m.cache_entries ≡ o
      → IsAccounted m
      → IsAccounted (drop_entry engine key o m)
  drop_entry-IsAccounted key none m h s = s
  drop_entry-IsAccounted key (some entry) m h (d, t) = (
    remove-IsMap key m.cache_entries d,
    omega (arith, usage-remove key entry m.cache_entries d h, t),
  )

  deleted-IsAccounted :
      (key : String) (r : Result (Unit {0}) × E) (m : StorageManager engine)
      → IsAccounted m
      → IsAccounted (deleted engine key r m)
  deleted-IsAccounted key (err e, stored) m s = s
  deleted-IsAccounted key (ok _, stored) m s =
      drop_entry-IsAccounted key (lookup key m.cache_entries) (record m { stored = stored }) refl s

  pub evict-IsAccounted :
      (entry : CacheEntry) (m : StorageManager engine)
      → IsAccounted m
      → IsAccounted (evict engine entry m)
  unfolding evict
  evict-IsAccounted entry m s =
      elim (Bool-cases (is_unchanged (lookup entry.key m.cache_entries) entry)) [
        | inl yes' ↦ rw yes' (deleted-IsAccounted entry.key (engine.delete entry.key m.stored) m s)
        | inr no' ↦ rw no' s
      ]

  apply-IsAccounted :
      (s : Step) (m : StorageManager engine)
      → IsAccounted m
      → usage (apply s m).cache_entries ≤ u64_max
      → IsAccounted (apply s m)
  unfolding write read warm_up
  apply-IsAccounted (writing now key stream range) m a b =
      written_to-IsAccounted now key range.0 (engine.write key stream range m.stored) m a b
  apply-IsAccounted (reading now key range) m a b =
      touch-IsAccounted now key (lookup key m.cache_entries) m refl a
  apply-IsAccounted warming_up m a b = warmed_up-IsAccounted (engine.enumerate m.stored) m a b
  apply-IsAccounted (evicting entry) m a b = evict-IsAccounted entry m a

  run-IsAccounted :
      (ss : List Step) (m : StorageManager engine)
      → IsAccounted m
      → IsWithin ss m
      → IsAccounted (run ss m)
  unfolding run IsWithin
  run-IsAccounted [] m a w = a
  run-IsAccounted (s ∷ ss) m a (b, w) = run-IsAccounted ss (apply s m) (apply-IsAccounted s m a b) w

-- After any history of writes, reads, evictions and the scan at start, with any of them failing, a
-- key has at most one entry and the counted size is the sum of the entries, as long as that sum
-- stays within a `u64`.
pub history-IsAccounted :
    {E : Type 0} (engine : StorageEngine E) (steps : List Step) (e : E)
    → IsWithin engine steps (new engine e)
    → IsAccounted engine (run engine steps (new engine e))
history-IsAccounted engine steps e w =
    run-IsAccounted engine steps (new engine e) (unfold IsMap in tt, unfold usage in refl) w
