-- ===== src/Tests/Manager.antt =====
-- Runs of the manager of the cache, over an engine that keeps nothing.
use mathlib.Core.List.{Perm}
use video_proxy_server.Prelude.{
  ℕ, ◌≡◌, refl, String, false, none, List, [], ◌∷◌, ◌++◌, arith, length, ◌+◌,
}
use video_proxy_server.Map.{string_eq, lookup, insert, remove}
use video_proxy_server.Error.{Result, ok, err}
use video_proxy_server.Storage.Disk.File.{Bytes}
use video_proxy_server.Storage.Engine.{StorageEngine}
use video_proxy_server.Manager.{
  StorageManagerConfig, CacheEntry, Entries, new, account, write, read, recover, warm_up, evict,
  choose_victims, victims_of, sort_by_last_access, insert_sorted, fits,
}
use video_proxy_server.Manager.Usage.{usage}
use video_proxy_server.Manager.Accounting.{
  Step, writing, reading, warming_up, evicting, run, IsWithin, IsAccounted, history-IsAccounted,
}
use video_proxy_server.Manager.Sorting.{values, AllOlder, sizes}
use video_proxy_server.Manager.Eviction.{Fits, choose_victims-least_recent}

abbrev all_bytes : List (Result Bytes) → ℕ
all_bytes [] = 0
all_bytes (err e ∷ stream) = all_bytes stream
all_bytes (ok chunk ∷ stream) = length chunk + all_bytes stream

-- It takes every write, deletes every key, and finds two entries of a last run.
abbrev engine : StorageEngine (Unit {0})
engine = record {
  write = λ key stream range e. (ok (all_bytes stream), e);
  read = λ key range e. (ok [], e);
  get_size = λ key e. (ok none, e);
  delete = λ key e. (ok tt, e);
  enumerate = λ e. (ok (("a", 4) ∷ ("old", 7) ∷ []), e);
}

abbrev three_bytes : List (Result Bytes)
three_bytes = ok (1 ∷ 2 ∷ []) ∷ ok (3 ∷ []) ∷ []

abbrev entry : String → ℕ → ℕ → CacheEntry
entry key disk_usage last_access = record {
  key = key;
  disk_usage = disk_usage;
  last_access = last_access;
}

abbrev steps : List Step
steps =
    writing 5 "a" three_bytes (10, 12)
    ∷ warming_up
    ∷ reading 6 "old" (0, 3)
    ∷ evicting (entry "old" 7 0)
    ∷ evicting (entry "a" 13 5)
    ∷ []

-- The entry read since it was chosen stays, the other goes.
after_steps : (run engine steps (new engine tt)).cache_entries ≡ ("old", entry "old" 7 6) ∷ []
unfolding run write account warm_up recover read evict lookup insert remove
after_steps = refl

steps-IsWithin : IsWithin engine steps (new engine tt)
unfolding IsWithin usage write account warm_up recover read evict lookup insert remove
steps-IsWithin = (omega arith, (omega arith, (omega arith, (omega arith, (omega arith, tt)))))

history-IsAccounted_example : IsAccounted engine (run engine steps (new engine tt))
history-IsAccounted_example = history-IsAccounted engine steps tt steps-IsWithin

abbrev limits : StorageManagerConfig
limits = record { max_cache_size = 10; max_file_count = 2 }

abbrev entries : Entries
entries = ("a", entry "a" 6 3) ∷ ("b", entry "b" 4 1) ∷ ("c", entry "c" 5 2) ∷ []

chosen : choose_victims limits 2 entries 15 ≡ entry "b" 4 1 ∷ entry "c" 5 2 ∷ []
unfolding choose_victims victims_of sort_by_last_access insert_sorted
chosen = refl

fifteen : 15 ≡ usage entries
unfolding usage
fifteen = refl

choose_victims-least_recent_example :
    (kept : List CacheEntry) × Perm (choose_victims limits 2 entries 15 ++ kept) (values entries)
    × AllOlder (choose_victims limits 2 entries 15) kept
    × Fits limits 2 kept
    × ((before : List CacheEntry) (last : CacheEntry)
        → choose_victims limits 2 entries 15 ≡ before ++ (last ∷ [])
        → fits limits (2 + sizes (last ∷ kept)) (length (last ∷ kept)) ≡ false)
choose_victims-least_recent_example =
    choose_victims-least_recent limits 2 entries 15 (omega arith) fifteen (omega arith)
