-- ===== src/Storage/Disk/Soundness/Metadata.antt =====
-- Reading and updating metadata keeps it truthful, for the key itself and for every other key.
use text.Mathlib.TextEquality.{eq_iff}
use video_proxy_server.Prelude.{
  ℕ, ◌≤◌, String, ◌≡◌, ◌≢◌, ◌⊎◌, refl, sym, ap, ◌∙◌, inl, inr, Bool, true, false, Option, none,
  some, [], arith, get_elem?, u64_max, Bool-cases, Option-cases,
}
use video_proxy_server.Map.{string_eq, nat_eq, list_eq, ◌=?◌, =?-refl, lookup, lookup-insert}
use video_proxy_server.Error.{ok, err, ProxyError}
use video_proxy_server.Exec.{◌>>◌, attempt, modify}
use video_proxy_server.Storage.Ranges.Merge.{merge_range-IsTable, merge_range-has_byte}
use video_proxy_server.Storage.Disk.Metadata.{RangeMetadata, default_metadata}
use video_proxy_server.Storage.Disk.Store.{
  System, Env, Disk, get_file_path, load_metadata, index_insert, lookup-make_room, with_metadata,
  current_metadata, write_metadata, put_metadata, stamp, save_metadata, save_if, update_metadata,
  record_completed_range, empty_disk,
}
use video_proxy_server.Storage.Disk.File.{Bytes, content}
use video_proxy_server.Storage.Disk.Soundness.Files.{update_self, update_ne}
use video_proxy_server.Storage.Disk.Soundness.{IsSound, Holds}

Holds-nil : (origin : ℕ → ℕ) (file : Option Bytes) → Holds origin [] file
Holds-nil origin file = record { table = tt; bytes = λ b h. cc }

some_eq {ℓ} : {A : Type ℓ} {x y : A} → some x ≡ some y → x ≡ y
some_eq h = cc

attempts_outcome {ℓ} :
    {S : Type ℓ} (a b c : Option ProxyError) (f : S → S) (s : S)
    → ((attempt a >> (attempt b >> (attempt c >> modify f))) s ≡ (ok tt, f s))
      ⊎ ((e : ProxyError) × ((attempt a >> (attempt b >> (attempt c >> modify f))) s ≡ (err e, s)))
attempts_outcome (some e) b c f s = inr (e, refl)
attempts_outcome none (some e) c f s = inr (e, refl)
attempts_outcome none none (some e) f s = inr (e, refl)
attempts_outcome none none none f s = inl refl

-- Either the metadata file is replaced, or an error leaves everything as it was.
pub write_metadata_outcome :
    (sys : System) (env : Env) (key : String) (m : RangeMetadata) (d : Disk sys)
    → (write_metadata sys env key m d ≡ (ok tt, put_metadata sys key m d))
      ⊎ ((e : ProxyError) × (write_metadata sys env key m d ≡ (err e, d)))
unfolding write_metadata
write_metadata_outcome sys env key m d =
    attempts_outcome env.metadata_dir env.metadata_write env.metadata_rename
      (put_metadata sys key m) d

module _ (sys : System) (key : String) (origin : ℕ → ℕ) where
  -- An empty cache directory is sound.
  pub IsSound-empty : IsSound sys key origin (empty_disk sys)
  unfolding lookup
  IsSound-empty = record { stored = λ blob m h. cc; indexed = λ m h. cc }

  pub load_metadata-Holds :
      (env : Env) (d : Disk sys) (m : RangeMetadata)
      → IsSound sys key origin d
      → load_metadata sys env key d ≡ some m
      → Holds origin m.completed (d.data_files (get_file_path sys key))
  unfolding load_metadata
  load_metadata-Holds env d m s h = elim (Option-cases (d.metadata_files (get_file_path sys key))) [
    | inl e ↦ ground (arith, e)
    | inr (blob, e) ↦ elim (Option-cases (sys.from_slice blob)) [
      | inl f ↦ ground (arith, e, f)
      | inr (n, f) ↦
          let n_is_m : n ≡ m = ground (arith, e, f) in rw (← n_is_m) (s.stored blob n e f)
    ]
  ]

  pub index_insert_self :
      (env : Env) (d : Disk sys) (m : RangeMetadata)
      → IsSound sys key origin d
      → Holds origin m.completed (d.data_files (get_file_path sys key))
      → IsSound sys key origin (index_insert sys env key m d)
  unfolding index_insert
  index_insert_self env d m s h = record {
    stored = s.stored;
    indexed = λ n e.
        let m_is_n : m ≡ n = some_eq (rw (lookup-insert, =?-refl key) at e) in rw (← m_is_n) h;
  }

  pub index_insert_ne :
      (env : Env) (d : Disk sys) (j : String) (m : RangeMetadata)
      → j ≢ key
      → IsSound sys key origin d
      → IsSound sys key origin (index_insert sys env j m d)
  unfolding index_insert
  index_insert_ne env d j m ne s = record {
    stored = s.stored;
    indexed = λ n e. s.indexed n (
        lookup-make_room sys env j key d.metadata_index n (elim (Bool-cases (j =? key)) [
          | inl p ↦ absurd (ne ((eq_iff j key).0 p))
          | inr p ↦ rw (lookup-insert, p) at e
        ]));
  }

  -- What an update starts from is truthful.
  pub current_metadata-Holds :
      (env : Env) (d : Disk sys)
      → IsSound sys key origin d
      → Holds origin
          (current_metadata sys env key d).completed
          (d.data_files (get_file_path sys key))
  unfolding current_metadata
  current_metadata-Holds env d s = elim (Option-cases (lookup key d.metadata_index)) [
    | inr (m, e) ↦ rw e (s.indexed m e)
    | inl e ↦ rw e (elim (Option-cases (load_metadata sys env key d)) [
      | inl f ↦ rw f (Holds-nil origin (d.data_files (get_file_path sys key)))
      | inr (m, f) ↦ rw f (load_metadata-Holds env d m s f)
    ])
  ]

  put_metadata_self :
      (d : Disk sys) (m : RangeMetadata)
      → IsSound sys key origin d
      → Holds origin m.completed (d.data_files (get_file_path sys key))
      → IsSound sys key origin (put_metadata sys key m d)
  unfolding put_metadata
  put_metadata_self d m s h = record {
    stored = λ blob n e f.
        let path = get_file_path sys key in
        let to_blob : sys.to_vec m ≡ blob =
          some_eq (sym (update_self path (some (sys.to_vec m)) d.metadata_files) ∙ e) in
        let m_is_n : m ≡ n =
          some_eq (sym (sys.from_slice-to_vec m) ∙ ap sys.from_slice to_blob ∙ f) in
        rw (← m_is_n) h;
    indexed = s.indexed;
  }

  put_metadata_ne :
      (d : Disk sys) (j : String) (m : RangeMetadata)
      → get_file_path sys j ≢ get_file_path sys key
      → IsSound sys key origin d
      → IsSound sys key origin (put_metadata sys j m d)
  unfolding put_metadata
  put_metadata_ne d j m ne s = record {
    stored = λ blob n e f.
        s.stored blob n (sym (update_ne _ _ (some (sys.to_vec m)) d.metadata_files ne) ∙ e) f;
    indexed = s.indexed;
  }

  save_metadata_self :
      (env : Env) (d : Disk sys) (m : RangeMetadata)
      → IsSound sys key origin d
      → Holds origin m.completed (d.data_files (get_file_path sys key))
      → IsSound sys key origin (save_metadata sys env key m d).1
  unfolding save_metadata
  save_metadata_self env d m s h = elim (write_metadata_outcome sys env key m d) [
    | inl p ↦ rw p (
        index_insert_self env (put_metadata sys key m d) m (put_metadata_self d m s h)
          (unfold put_metadata in h))
    | inr (e, p) ↦ rw p s
  ]

  save_metadata_ne :
      (env : Env) (d : Disk sys) (j : String) (m : RangeMetadata)
      → get_file_path sys j ≢ get_file_path sys key
      → IsSound sys key origin d
      → IsSound sys key origin (save_metadata sys env j m d).1
  unfolding save_metadata
  save_metadata_ne env d j m ne s = elim (write_metadata_outcome sys env j m d) [
    | inl p ↦ rw p (
        index_insert_ne env (put_metadata sys j m d) j m (λ same. ne (ap (get_file_path sys) same))
          (put_metadata_ne d j m ne s))
    | inr (e, p) ↦ rw p s
  ]

  -- An update keeps the invariant if the edit keeps the metadata truthful, whatever fails.
  save_if_self :
      (env : Env) (d : Disk sys) (edited : RangeMetadata × Bool)
      → IsSound sys key origin d
      → Holds origin edited.0.completed (d.data_files (get_file_path sys key))
      → IsSound sys key origin (save_if sys env key edited d).1
  save_if_self env d (m, true) s h = save_metadata_self env d (stamp sys key m) s h
  save_if_self env d (m, false) s h = s

  save_if_ne :
      (env : Env) (d : Disk sys) (j : String) (edited : RangeMetadata × Bool)
      → get_file_path sys j ≢ get_file_path sys key
      → IsSound sys key origin d
      → IsSound sys key origin (save_if sys env j edited d).1
  save_if_ne env d j (m, true) ne s = save_metadata_ne env d j (stamp sys j m) ne s
  save_if_ne env d j (m, false) ne s = s

  pub update_metadata_self :
      (env : Env) (edit : RangeMetadata → RangeMetadata × Bool) (d : Disk sys)
      → IsSound sys key origin d
      → ((m : RangeMetadata)
          → Holds origin m.completed (d.data_files (get_file_path sys key))
          → Holds origin (edit m).0.completed (d.data_files (get_file_path sys key)))
      → IsSound sys key origin (update_metadata sys env key edit d).1
  unfolding update_metadata
  update_metadata_self env edit d s keep =
      save_if_self env d (edit (current_metadata sys env key d)) s
        (keep (current_metadata sys env key d) (current_metadata-Holds env d s))

  pub update_metadata_ne :
      (env : Env) (j : String) (edit : RangeMetadata → RangeMetadata × Bool) (d : Disk sys)
      → get_file_path sys j ≢ get_file_path sys key
      → IsSound sys key origin d
      → IsSound sys key origin (update_metadata sys env j edit d).1
  unfolding update_metadata
  update_metadata_ne env j edit d ne s =
      save_if_ne env d j (edit (current_metadata sys env j d)) ne s

  -- Recording a range whose bytes are in the file keeps the metadata truthful.
  pub record_completed_range_self :
      (env : Env) (start end : ℕ) (d : Disk sys)
      → IsSound sys key origin d
      → start ≤ end
      → end ≤ u64_max
      → ((b : ℕ)
          → start ≤ b
          → b ≤ end
          → get_elem? (content (d.data_files (get_file_path sys key))) b ≡ some (origin b))
      → IsSound sys key origin (record_completed_range sys env key start end d).1
  unfolding record_completed_range
  record_completed_range_self env start end d s p q new = update_metadata_self env _ d s (λ m h.
      record {
        table = merge_range-IsTable m.completed start end h.table p q;
        bytes = λ b held.
            ground
              (arith, merge_range-has_byte m.completed start end b h.table p, h.bytes b, new b);
      })

  -- A look at the metadata of the key, or of another key, keeps the invariant.
  pub with_metadata_self {ℓ} :
      {A : Type ℓ} (env : Env) (view : RangeMetadata → A) (d : Disk sys)
      → IsSound sys key origin d
      → IsSound sys key origin (with_metadata sys env key view d).1
  unfolding with_metadata
  with_metadata_self env view d s = elim (Option-cases (lookup key d.metadata_index)) [
    | inr (m, e) ↦ rw e s
    | inl e ↦ elim (Option-cases (load_metadata sys env key d)) [
      | inl f ↦ rw (e, f) s
      | inr (m, f) ↦ rw (e, f) (index_insert_self env d m s (load_metadata-Holds env d m s f))
    ]
  ]

  pub with_metadata_ne {ℓ} :
      {A : Type ℓ} (env : Env) (j : String) (view : RangeMetadata → A) (d : Disk sys)
      → get_file_path sys j ≢ get_file_path sys key
      → IsSound sys key origin d
      → IsSound sys key origin (with_metadata sys env j view d).1
  unfolding with_metadata
  with_metadata_ne env j view d ne s = elim (Option-cases (lookup j d.metadata_index)) [
    | inr (m, e) ↦ rw e s
    | inl e ↦ elim (Option-cases (load_metadata sys env j d)) [
      | inl f ↦ rw (e, f) s
      | inr (m, f) ↦
          rw (e, f) (index_insert_ne env d j m (λ same. ne (ap (get_file_path sys) same)) s)
    ]
  ]

  -- A look shows metadata that is truthful.
  pub with_metadata-Holds :
      (env : Env) (view : RangeMetadata → Bool) (d : Disk sys)
      → IsSound sys key origin d
      → (with_metadata sys env key view d).0 ≡ true
      → (m : RangeMetadata) × (view m ≡ true)
        × Holds origin m.completed (d.data_files (get_file_path sys key))
  unfolding with_metadata
  with_metadata-Holds env view d s h = elim (Option-cases (lookup key d.metadata_index)) [
    | inr (m, e) ↦ (m, rw e at h, s.indexed m e)
    | inl e ↦ elim (Option-cases (load_metadata sys env key d)) [
      | inl f ↦ (
        default_metadata,
        rw (e, f) at h,
        Holds-nil origin (d.data_files (get_file_path sys key)),
      )
      | inr (m, f) ↦ (m, rw (e, f) at h, load_metadata-Holds env d m s f)
    ]
  ]

-- Looking changes no file.
pub with_metadata-data_files {ℓ} :
    (sys : System) {A : Type ℓ} (env : Env) (j : String) (view : RangeMetadata → A) (d : Disk sys)
    → (with_metadata sys env j view d).1.data_files ≡ d.data_files
unfolding with_metadata index_insert
with_metadata-data_files sys env j view d = elim (Option-cases (lookup j d.metadata_index)) [
  | inr (m, e) ↦ rw e
  | inl e ↦ elim (Option-cases (load_metadata sys env j d)) [
    | inl f ↦ rw (e, f)
    | inr (m, f) ↦ rw (e, f)
  ]
]
