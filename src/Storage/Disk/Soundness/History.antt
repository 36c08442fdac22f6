-- ===== src/Storage/Disk/Soundness/History.antt =====
-- src/storage/disk.rs: every history keeps the cache truthful, so that a read gives the bytes of the
-- resource.
use video_proxy_server.Prelude.{
  zero, suc, refl, ap, Option, some, get_elem?, ℕ, ◌+◌, ◌-◌, ◌≤◌, ◌<◌, String, ◌≡◌, ◌≢◌, sym, subst,
  ◌∙◌, inl, inr, none, List, [], ◌∷◌, length, All, true, false, Bool-cases, ◌&&◌,
}
use video_proxy_server.Map.{◌=?◌, lookup, string_eq, list_eq, nat_eq}
use video_proxy_server.Error.{Result, ok}
use video_proxy_server.Exec.Keeps.{Keeps-attempt}
use video_proxy_server.Range.{open_ended}
use video_proxy_server.Storage.Disk.File.{Bytes}
use video_proxy_server.Storage.Disk.File.Origin.{Matches}
use video_proxy_server.Storage.Disk.Metadata.{RangeMetadata}
use video_proxy_server.Storage.Disk.Store.{
  System, Env, Disk, get_file_path, set_data_file, with_metadata, load_metadata, index_insert,
}
use video_proxy_server.Storage.Disk.Read.{
  UpstreamMeta, is_none, read, delete, drop_indexed, drop_metadata_file, record_upstream_meta,
  upstream_meta,
}
use video_proxy_server.Storage.Disk.Soundness.{IsSound, Holds, Apart}
use video_proxy_server.Storage.Disk.Soundness.Metadata.{
  load_metadata-Holds, index_insert_self, index_insert_ne, with_metadata-data_files, IsSound-empty,
}
use video_proxy_server.Storage.Disk.Soundness.Write.{write-IsSound}
use video_proxy_server.Storage.Disk.Soundness.Read.{read_keeps, read_exact, Outcome, collect}
use video_proxy_server.Storage.Disk.Soundness.Growth.{
  IsGrown, IsGrown-refl, IsGrown-trans, IsGrown-Holds, same-IsGrown, other-IsGrown, write-IsGrown,
  update_metadata-data_files,
}
use video_proxy_server.Storage.Disk.Soundness.Operations.{
  look_keeps, record_meta_keeps, delete_keeps,
}
use video_proxy_server.Storage.Disk.Soundness.Steps.{
  Operation, writing, reading, recording_meta, showing_meta, deleting, loading, inserting, Cache,
  remove_at, start_cache, on_disk, remember, insert_loaded, step, run, Allowed, AllAllowed,
}

true_ne_false : true ≡ false → ⊥
true_ne_false h = cc

module _ (sys : System) (key : String) (origin : ℕ → ℕ) where
  -- What a look-up has loaded of the key tells the truth.
  abbrev Truthful : Disk sys → String × RangeMetadata → Type 0
  Truthful d entry =
      entry.0 ≡ key → Holds origin entry.1.completed (d.data_files (get_file_path sys key))

  record IsOverlapSound (c : Cache sys) : Type 0 where
    pub sound : IsSound sys key origin c.disk
    pub pending : All (Truthful c.disk) c.loaded

  All-mono {ℓ} :
      {A : Type ℓ} {P Q : A → Type ℓ} (xs : List A) → ((x : A) → P x → Q x) → All P xs → All Q xs
  All-mono [] f h = tt
  All-mono (x ∷ xs) f (p, h) = (f x p, All-mono xs f h)

  All-remove_at {ℓ} :
      {A : Type ℓ} (P : A → Type 0) (n : ℕ) (xs : List A) → All P xs → All P (remove_at n xs)
  All-remove_at P n [] h = tt
  All-remove_at P zero (x ∷ xs) (p, h) = h
  All-remove_at P (suc n) (x ∷ xs) (p, h) = (p, All-remove_at P n xs h)

  All-get_elem? {ℓ} :
      {A : Type ℓ} (P : A → Type 0) (n : ℕ) (xs : List A) (x : A)
      → All P xs
      → get_elem? xs n ≡ some x
      → P x
  All-get_elem? P n [] x h e = cc
  All-get_elem? P zero (y ∷ xs) x (p, h) e = let same : y ≡ x = cc in subst P same p
  All-get_elem? P (suc n) (y ∷ xs) x (p, h) e = All-get_elem? P n xs x h e

  -- An operation that loses no byte of the resource.
  grown_keeps :
      (c : Cache sys) (d : Disk sys)
      → IsOverlapSound c
      → IsSound sys key origin d
      → IsGrown sys key origin c.disk d
      → IsOverlapSound (on_disk sys d c)
  grown_keeps c d s sound g = record {
    sound = sound;
    pending =
        All-mono c.loaded (λ entry h same. IsGrown-Holds sys key origin entry.1 c.disk d g (h same))
          s.pending;
  }

  look-IsGrown :
      (env : Env) (j : String) (A : Type 0) (view : RangeMetadata → A) (c d : Disk sys)
      → IsGrown sys key origin c d
      → IsGrown sys key origin c (with_metadata sys env j view d).1
  look-IsGrown env j A view c d g =
      IsGrown-trans sys key origin c d _ g
        (same-IsGrown sys key origin d _ (with_metadata-data_files sys env j view d))

  record_meta-IsGrown :
      (env : Env) (j : String) (meta : UpstreamMeta) (d : Disk sys)
      → IsGrown sys key origin d (record_upstream_meta sys env j meta d).1
  unfolding record_upstream_meta
  record_meta-IsGrown env j meta d =
      elim (Bool-cases (is_none meta.total_size && is_none meta.content_type)) [
        | inl p ↦ rw p (IsGrown-refl sys key origin d)
        | inr p ↦ rw p (same-IsGrown sys key origin d _ (update_metadata-data_files sys env j _ d))
      ]

  delete-IsGrown :
      (env : Env) (j : String) (d : Disk sys)
      → get_file_path sys j ≢ get_file_path sys key
      → IsGrown sys key origin d (delete sys env j d).1
  unfolding delete drop_indexed drop_metadata_file
  delete-IsGrown env j d ne =
      let P : Disk sys → Type 0 = IsGrown sys key origin d in
      let forgotten : P (drop_indexed sys j d) = same-IsGrown sys key origin d _ refl in
      let gone : P (set_data_file sys j none (drop_indexed sys j d)) =
        IsGrown-trans sys key origin d (drop_indexed sys j d) _ forgotten
          (other-IsGrown sys key origin j none (drop_indexed sys j d) ne) in
      Keeps-attempt P env.remove_data _ (drop_indexed sys j d) forgotten (
        Keeps-attempt P env.remove_metadata _ (set_data_file sys j none (drop_indexed sys j d)) gone
          (IsGrown-trans sys key origin d (set_data_file sys j none (drop_indexed sys j d)) _ gone
            (same-IsGrown sys key origin _ _ refl)))

  remember_keeps :
      (env : Env) (j : String) (indexed found : Option RangeMetadata) (c : Cache sys)
      → Apart sys key j
      → load_metadata sys env j c.disk ≡ found
      → IsOverlapSound c
      → All (Truthful c.disk) (remember sys indexed j found c.loaded)
  remember_keeps env j (some m) found c apart e s = s.pending
  remember_keeps env j none none c apart e s = s.pending
  remember_keeps env j none (some m) c apart e s = (
    λ same.
        load_metadata-Holds sys key origin env c.disk m s.sound
          (ap (λ k. load_metadata sys env k c.disk) (sym same) ∙ e),
    s.pending,
  )

  insert_keeps :
      (env : Env) (n : ℕ) (found : Option (String × RangeMetadata)) (c : Cache sys)
      → get_elem? c.loaded n ≡ found
      → IsOverlapSound c
      → IsOverlapSound (insert_loaded sys env n found c)
  insert_keeps env n none c e s = s
  insert_keeps env n (some (j, m)) c e s = record {
    sound =
        let truthful = All-get_elem? (Truthful c.disk) n c.loaded (j, m) s.pending e in
        elim (Bool-cases (j =? key)) [
          | inl same ↦
              let k : j ≡ key = (string_eq.beq_iff j key).0 same in
              rw k (index_insert_self sys key origin env c.disk m s.sound (truthful k))
          | inr other ↦
              index_insert_ne sys key origin env c.disk j m
                (λ k. true_ne_false (sym ((string_eq.beq_iff j key).1 k) ∙ other)) s.sound
        ];
    pending = unfold index_insert in All-remove_at (Truthful c.disk) n c.loaded s.pending;
  }

  step-IsOverlapSound :
      (o : Operation) (c : Cache sys)
      → Allowed sys key origin c o
      → IsOverlapSound c
      → IsOverlapSound (step sys o c)
  unfolding step upstream_meta
  step-IsOverlapSound (writing env j stream range) c h s =
      grown_keeps c _ s (write-IsSound sys key origin env j stream range c.disk s.sound h)
        (write-IsGrown sys key origin env j stream range c.disk h)
  step-IsOverlapSound (reading env grants chunk_size j range) c h s =
      grown_keeps c _ s
        (read_keeps sys (IsSound sys key origin) env grants chunk_size j range c.disk
          (look_keeps sys key origin env j h) s.sound)
        (read_keeps sys (IsGrown sys key origin c.disk) env grants chunk_size j range c.disk
          (λ A view d g. look-IsGrown env j A view c.disk d g) (IsGrown-refl sys key origin c.disk))
  step-IsOverlapSound (recording_meta env j meta) c h s =
      grown_keeps c _ s (record_meta_keeps sys key origin env j meta c.disk h s.sound)
        (record_meta-IsGrown env j meta c.disk)
  step-IsOverlapSound (showing_meta env j) c h s =
      grown_keeps c _ s (look_keeps sys key origin env j h UpstreamMeta _ c.disk s.sound)
        (look-IsGrown env j UpstreamMeta _ c.disk c.disk (IsGrown-refl sys key origin c.disk))
  step-IsOverlapSound (deleting env j) c (inr ne) s =
      grown_keeps c _ s (delete_keeps sys key origin env j c.disk (inr ne) s.sound)
        (delete-IsGrown env j c.disk ne)
  step-IsOverlapSound (deleting env j) c (inl (same, whole, idle)) s = record {
    sound = delete_keeps sys key origin env j c.disk (inl (same, whole)) s.sound;
    pending = All-mono c.loaded (λ entry away k. absurd (away k)) idle;
  }
  step-IsOverlapSound (loading env j) c h s = record {
    sound = s.sound;
    pending = remember_keeps env j (lookup j c.disk.metadata_index) _ c h refl s;
  }
  step-IsOverlapSound (inserting env n) c h s = insert_keeps env n (get_elem? c.loaded n) c refl s

  run-IsOverlapSound :
      (os : List Operation) (c : Cache sys)
      → AllAllowed sys key origin os c
      → IsOverlapSound c
      → IsOverlapSound (run sys os c)
  unfolding run
  run-IsOverlapSound [] c h s = s
  run-IsOverlapSound (o ∷ os) c (a, h) s =
      run-IsOverlapSound os (step sys o c) h (step-IsOverlapSound o c a s)

-- After any history of writes, reads, look-ups of metadata, records of upstream metadata and
-- deletions, from an empty directory and with any failures in it, a read of a closed range that
-- succeeds streams exactly the bytes of the resource in that range: its reader has all of them in the
-- end, or else an error of the file system. In the history a look-up may load metadata long before it
-- puts them into the index. The history may work on other keys with other files; what is written to
-- the key itself delivers its resource from the start of each range, and a deletion of the key does
-- not fail between its two files and does not run while a look-up of the key is under way. The scan
-- at start is not part of the history, and no other operation runs while the last read does.
pub history_read_exact :
    (sys : System) (key : String) (origin : ℕ → ℕ) (os : List Operation) (env : Env)
    (grants : ℕ → Result ℕ) (chunk_size start end : ℕ) (chunks : List (Result Bytes))
    → AllAllowed sys key origin os (start_cache sys)
    → start ≤ end
    → end < open_ended
    → 0 < chunk_size
    → (read sys env grants chunk_size key (start, end) (run sys os (start_cache sys)).disk).0
      ≡ ok chunks
    → (bytes : Bytes) × Matches origin start bytes
      × (length bytes ≡ end - start + 1)
      × Outcome grants bytes (collect chunks)
history_read_exact sys key origin os env grants chunk_size start end chunks h p q c e =
    let start_sound : IsOverlapSound sys key origin (start_cache sys) = record {
      sound = IsSound-empty sys key origin;
      pending = tt;
    } in
    let all = run-IsOverlapSound sys key origin os (start_cache sys) h start_sound in
    read_exact sys key origin env grants chunk_size start end (run sys os (start_cache sys)).disk
      chunks all.sound p q c e
