-- ===== src/Manager/Sorting.antt =====
-- src/storage/manager.rs: sorting by the time of the last access.
use mathlib.Core.List.{Perm}
use mathlib.Core.List.Perm
use video_proxy_server.Prelude.{
  ℕ, suc, ◌+◌, ◌≤◌, ◌≡◌, refl, ap, List, [], ◌∷◌, ◌++◌, map, All, arith, leb, length, Bool-cases,
  inl, inr,
}
use video_proxy_server.Manager.{CacheEntry, Entries, insert_sorted, sort_by_last_access}
use video_proxy_server.Manager.Usage.{usage}

abbrev pub values : Entries → List CacheEntry
values entries = map (λ e. e.1) entries

unfoldable pub sizes : List CacheEntry → ℕ
sizes [] = 0
sizes (e ∷ es) = e.disk_usage + sizes es

abbrev pub IsOlder : CacheEntry → CacheEntry → Type 0
IsOlder e f = e.last_access ≤ f.last_access

unfoldable pub IsSorted : List CacheEntry → Type 0
IsSorted [] = Unit
IsSorted (e ∷ es) = All (IsOlder e) es × IsSorted es

-- Every entry of the first list is at most as recent as those of the second.
abbrev pub AllOlder : List CacheEntry → List CacheEntry → Type 0
AllOlder es fs = All (λ e. All (IsOlder e) fs) es

IsOlder-trans :
    (e f : CacheEntry) (es : List CacheEntry)
    → IsOlder e f
    → All (IsOlder f) es
    → All (IsOlder e) es
IsOlder-trans e f [] h _ = tt
IsOlder-trans e f (g ∷ es) h (p, hs) = (omega (arith, h, p), IsOlder-trans e f es h hs)

IsOlder-insert_sorted :
    (d e : CacheEntry) (es : List CacheEntry)
    → IsOlder d e
    → All (IsOlder d) es
    → All (IsOlder d) (insert_sorted e es)
unfolding insert_sorted
IsOlder-insert_sorted d e [] h _ = (h, tt)
IsOlder-insert_sorted d e (f ∷ fs) h (p, hs) = elim (Bool-cases (leb e.last_access f.last_access)) [
  | inl le ↦ rw le (h, (p, hs))
  | inr gt ↦ rw gt (p, IsOlder-insert_sorted d e fs h hs)
]

insert_sorted-IsSorted :
    (e : CacheEntry) (es : List CacheEntry) → IsSorted es → IsSorted (insert_sorted e es)
unfolding insert_sorted IsSorted
insert_sorted-IsSorted e [] s = (tt, tt)
insert_sorted-IsSorted e (f ∷ fs) (h, s) = elim (Bool-cases (leb e.last_access f.last_access)) [
  | inl le ↦
      let p : IsOlder e f = ground (arith, le) in rw le ((p, IsOlder-trans e f fs p h), (h, s))
  | inr gt ↦
      let p : IsOlder f e = ground (arith, gt) in
      rw gt (IsOlder-insert_sorted f e fs p h, insert_sorted-IsSorted e fs s)
]

pub sort_IsSorted : (es : List CacheEntry) → IsSorted (sort_by_last_access es)
unfolding sort_by_last_access
sort_IsSorted [] = unfold IsSorted in tt
sort_IsSorted (e ∷ es) = insert_sorted-IsSorted e (sort_by_last_access es) (sort_IsSorted es)

Perm-insert_sorted : (e : CacheEntry) (es : List CacheEntry) → Perm (insert_sorted e es) (e ∷ es)
unfolding insert_sorted
Perm-insert_sorted e [] = Perm.refl (e ∷ [])
Perm-insert_sorted e (f ∷ fs) = elim (Bool-cases (leb e.last_access f.last_access)) [
  | inl le ↦ rw le (Perm.refl (e ∷ f ∷ fs))
  | inr gt ↦ rw gt (Perm.trans (Perm.cons f (Perm-insert_sorted e fs)) (Perm.swap e f fs))
]

pub Perm-sort : (es : List CacheEntry) → Perm (sort_by_last_access es) es
unfolding sort_by_last_access
Perm-sort [] = Perm.refl []
Perm-sort (e ∷ es) =
    Perm.trans (Perm-insert_sorted e (sort_by_last_access es)) (Perm.cons e (Perm-sort es))

insert_sorted-sizes :
    (e : CacheEntry) (es : List CacheEntry)
    → (sizes (insert_sorted e es) ≡ e.disk_usage + sizes es)
      × (length (insert_sorted e es) ≡ suc (length es))
unfolding insert_sorted sizes
insert_sorted-sizes e [] = (refl, refl)
insert_sorted-sizes e (f ∷ fs) =
    let rest = insert_sorted-sizes e fs in
    elim (Bool-cases (leb e.last_access f.last_access)) [
      | inl le ↦ rw le (refl, refl)
      | inr gt ↦ rw gt (omega (arith, rest.0), ap suc rest.1)
    ]

-- Sorting keeps the sizes.
pub sort-sizes :
    (entries : Entries)
    → (sizes (sort_by_last_access (values entries)) ≡ usage entries)
      × (length (sort_by_last_access (values entries)) ≡ length entries)
unfolding sort_by_last_access usage
sort-sizes [] = (unfold sizes in refl, refl)
sort-sizes ((k, e) ∷ entries) =
    let one = insert_sorted-sizes e (sort_by_last_access (values entries)) in
    let rest = sort-sizes entries in (omega (arith, one.0, rest.0), omega (arith, one.1, rest.1))

pub sorted_AllOlder : (xs ys : List CacheEntry) → IsSorted (xs ++ ys) → AllOlder xs ys
unfolding IsSorted
sorted_AllOlder [] ys s = tt
sorted_AllOlder (x ∷ xs) ys (h, s) = (after x xs ys h, sorted_AllOlder xs ys s)
  where
    after :
        (x : CacheEntry) (xs ys : List CacheEntry) → All (IsOlder x) (xs ++ ys) → All (IsOlder x) ys
    after x [] ys h = h
    after x (z ∷ xs) ys (_, h) = after x xs ys h
