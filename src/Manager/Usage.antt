-- ===== src/Manager/Usage.antt =====
-- src/storage/manager.rs: what the entries of the manager add up to.
use video_proxy_server.Prelude.{
  ℕ, ◌+◌, ◌≤◌, String, ◌≡◌, refl, sym, ◌∙◌, false, none, some, [], ◌∷◌, arith, Bool-cases, inl, inr,
}
use video_proxy_server.Map.{string_eq, ◌=?◌, lookup, insert, remove, lookup-insert, lookup-remove}
use video_proxy_server.Manager.{CacheEntry, Entries}

unfoldable pub usage : Entries → ℕ
usage [] = 0
usage ((key, entry) ∷ entries) = entry.disk_usage + usage entries

-- A key has one entry.
unfoldable pub IsMap : Entries → Type 0
IsMap [] = Unit
IsMap ((key, entry) ∷ entries) = (lookup key entries ≡ none) × IsMap entries

pub usage-insert-none :
    (k : String) (v : CacheEntry) (m : Entries)
    → lookup k m ≡ none
    → usage (insert k v m) ≡ usage m + v.disk_usage
unfolding usage insert lookup
usage-insert-none k v [] h = omega arith
usage-insert-none k v ((j, w) ∷ m) h = ground (arith, usage-insert-none k v m)

pub usage-insert-some :
    (k : String) (v w : CacheEntry) (m : Entries)
    → lookup k m ≡ some w
    → usage (insert k v m) + w.disk_usage ≡ usage m + v.disk_usage
unfolding usage insert lookup
usage-insert-some k v w [] h = cc
usage-insert-some k v w ((j, x) ∷ m) h = grind (arith, usage-insert-some k v w m)

-- The usage of one entry is at most that of all.
pub usage-lookup :
    (k : String) (w : CacheEntry) (m : Entries) → lookup k m ≡ some w → w.disk_usage ≤ usage m
unfolding usage lookup
usage-lookup k w [] h = cc
usage-lookup k w ((j, x) ∷ m) h = grind (arith, usage-lookup k w m)

remove-none : (k : String) (m : Entries) → lookup k m ≡ none → remove k m ≡ m
unfolding remove lookup
remove-none k [] h = refl
remove-none k ((j, x) ∷ m) h = ground (arith, remove-none k m)

pub usage-remove :
    (k : String) (w : CacheEntry) (m : Entries)
    → IsMap m
    → lookup k m ≡ some w
    → usage (remove k m) + w.disk_usage ≡ usage m
unfolding usage remove lookup IsMap
usage-remove k w [] d h = cc
usage-remove k w ((j, x) ∷ m) (fresh, d) h =
    grind (arith, usage-remove k w m, remove-none k m, string_eq.beq_iff j k)

lookup-insert_fresh :
    (j k : String) (v : CacheEntry) (m : Entries)
    → (j =? k) ≡ false
    → lookup j m ≡ none
    → lookup j (insert k v m) ≡ none
lookup-insert_fresh j k v m apart h = elim (Bool-cases (k =? j)) [
  | inl same ↦ let same' = (string_eq.beq_iff j k).1 (sym ((string_eq.beq_iff k j).0 same)) in cc
  | inr apart' ↦ lookup-insert k j v m ∙ rw (apart', h) refl
]

lookup-remove_fresh :
    (j k : String) (m : Entries) → lookup j m ≡ none → lookup j (remove k m) ≡ none
lookup-remove_fresh j k m h = elim (Bool-cases (k =? j)) [
  | inl same ↦ lookup-remove k j m ∙ rw same refl
  | inr apart ↦ lookup-remove k j m ∙ rw (apart, h) refl
]

pub insert-IsMap : (k : String) (v : CacheEntry) (m : Entries) → IsMap m → IsMap (insert k v m)
unfolding insert IsMap
insert-IsMap k v [] d = (unfold lookup in refl, tt)
insert-IsMap k v ((j, w) ∷ m) (fresh, d) = elim (Bool-cases (j =? k)) [
  | inl same ↦ rw (same, ← (string_eq.beq_iff j k).0 same) (fresh, d)
  | inr apart ↦ rw apart (lookup-insert_fresh j k v m apart fresh, insert-IsMap k v m d)
]

pub remove-IsMap : (k : String) (m : Entries) → IsMap m → IsMap (remove k m)
unfolding remove IsMap
remove-IsMap k [] d = tt
remove-IsMap k ((j, w) ∷ m) (fresh, d) = elim (Bool-cases (j =? k)) [
  | inl same ↦ rw same (remove-IsMap k m d)
  | inr apart ↦ rw apart (lookup-remove_fresh j k m fresh, remove-IsMap k m d)
]
