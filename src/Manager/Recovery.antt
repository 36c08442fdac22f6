-- ===== src/Manager/Recovery.antt =====
-- src/storage/manager.rs: what the scan at start adds to the entries.
use video_proxy_server.Prelude.{
  ℕ, ◌+◌, ◌≤◌, String, ◌≡◌, ap, Bool, true, false, Option, none, some, List, [], ◌∷◌, arith,
  if◌then◌else◌, Option-cases, inl, inr, u64_max, saturating_add,
}
use video_proxy_server.Map.{string_eq, lookup, insert, contains_key}
use video_proxy_server.Manager.{CacheEntry, Entries, recover, unix_epoch}
use video_proxy_server.Manager.Usage.{usage, IsMap, usage-insert-none, insert-IsMap}

-- An entry that was not there.
abbrev found_entry : String → ℕ → CacheEntry
found_entry key size = record { key = key; disk_usage = size; last_access = unix_epoch }

is_there :
    (k : String) (table : Entries) (o : Option CacheEntry)
    → lookup k table ≡ o
    → contains_key k table ≡ elim o [ none ↦ false | some e ↦ true ]
is_there k table o h = ap (λ o. elim o [ none ↦ false | some e ↦ true ]) h

recover_step :
    (found : List (String × ℕ)) (table : Entries) (recovered size : ℕ) (key : String) (c : Bool)
    → contains_key key table ≡ c
    → recover ((key, size) ∷ found) table recovered ≡ (
        if c
        then recover found table recovered
        else recover found
            (insert key (found_entry key size) table)
            (saturating_add recovered size))
unfolding recover
recover_step found table recovered size key c h =
    ap
      (λ b.
        if b
        then recover found table recovered
        else recover found (insert key (found_entry key size) table)
            (saturating_add recovered size))
      h

recover_grows :
    (found : List (String × ℕ)) (table : Entries) (recovered : ℕ)
    → usage table ≤ usage (recover found table recovered).0
recover_grows [] table recovered = unfold recover in omega arith
recover_grows ((key, size) ∷ found) table recovered = elim (Option-cases (lookup key table)) [
  | inl fresh ↦
      rw (recover_step found table recovered size key false (is_there key table none fresh)) (
        omega (
          arith,
          usage-insert-none key (found_entry key size) table fresh,
          recover_grows found (insert key (found_entry key size) table)
              (saturating_add recovered size),
        ))
  | inr (e, known) ↦
      rw (recover_step found table recovered size key true (is_there key table (some e) known))
        (recover_grows found table recovered)
]

abbrev pub Recovered : Entries → ℕ → Entries × ℕ → Type 0
Recovered table recovered r = IsMap r.0 × (usage r.0 + recovered ≡ usage table + r.1)

pub recover-Recovered :
    (found : List (String × ℕ)) (table : Entries) (recovered : ℕ)
    → IsMap table
    → recovered ≤ usage table
    → usage (recover found table recovered).0 ≤ u64_max
    → Recovered table recovered (recover found table recovered)
recover-Recovered [] table recovered d p b = unfold recover in (d, omega arith)
recover-Recovered ((key, size) ∷ found) table recovered d p b =
    elim (Option-cases (lookup key table)) [
      | inl fresh ↦
          let table' = insert key (found_entry key size) table in
          let s =
            recover_step found table recovered size key false (is_there key table none fresh) in
          let within : usage (recover found table' (saturating_add recovered size)).0 ≤ u64_max =
            rw s at b in
          let sum = usage-insert-none key (found_entry key size) table fresh in
          let grown = recover_grows found table' (saturating_add recovered size) in
          let rest : IsMap (recover found table' (saturating_add recovered size)).0
              × (usage (recover found table' (saturating_add recovered size)).0
                    + saturating_add recovered size
                  ≡ usage table' + (recover found table' (saturating_add recovered size)).1) =
            recover-Recovered found table' (saturating_add recovered size)
              (insert-IsMap key (found_entry key size) table d) (omega (arith, sum)) within in
          rw s ((rest.0, omega (arith, rest.1, sum, grown, within)))
      | inr (e, known) ↦
          let s =
            recover_step found table recovered size key true (is_there key table (some e) known) in
          rw s (recover-Recovered found table recovered d p (rw s at b))
    ]
