-- ===== src/Storage/Disk/Soundness/Operations.antt =====
-- src/storage/disk.rs: each operation on a key, or on another key, keeps the cache truthful.
use video_proxy_server.Prelude.{
  ℕ, String, ◌≡◌, ◌≢◌, ◌⊎◌, sym, subst, ◌∙◌, inl, inr, none, arith, Bool-cases, ◌&&◌,
}
use video_proxy_server.Map.{string_eq, lookup-remove, list_eq, nat_eq, =?-refl}
use video_proxy_server.Exec.{◌>>◌, attempt, modify}
use video_proxy_server.Exec.Keeps.{Keeps-attempt}
use video_proxy_server.Storage.Disk.Metadata.{RangeMetadata}
use video_proxy_server.Storage.Disk.Store.{
  System, Env, Disk, get_file_path, set_data_file, with_metadata,
}
use video_proxy_server.Storage.Disk.Read.{
  UpstreamMeta, is_none, delete, drop_indexed, drop_metadata_file, record_upstream_meta,
  merge_upstream_meta,
}
use video_proxy_server.Storage.Disk.Soundness.{IsSound, Apart}
use video_proxy_server.Storage.Disk.Soundness.Files.{set_data_file_ne, update_self, update_ne}
use video_proxy_server.Storage.Disk.Soundness.Metadata.{
  update_metadata_self, update_metadata_ne, with_metadata_self, with_metadata_ne,
}

module _ (sys : System) (key : String) (origin : ℕ → ℕ) where
  pub look_keeps :
      (env : Env) (j : String)
      → Apart sys key j
      → (A : Type 0) (view : RangeMetadata → A) (d : Disk sys) → IsSound sys key origin d
      → IsSound sys key origin (with_metadata sys env j view d).1
  look_keeps env j (inl same) A view d s = rw same (with_metadata_self sys key origin env view d s)
  look_keeps env j (inr ne) A view d s = with_metadata_ne sys key origin env j view d ne s

  pub record_meta_keeps :
      (env : Env) (j : String) (meta : UpstreamMeta) (d : Disk sys)
      → Apart sys key j
      → IsSound sys key origin d
      → IsSound sys key origin (record_upstream_meta sys env j meta d).1
  unfolding record_upstream_meta merge_upstream_meta
  record_meta_keeps env j meta d apart s =
      elim (Bool-cases (is_none meta.total_size && is_none meta.content_type)) [
        | inl p ↦ rw p s
        | inr p ↦ rw p (elim apart [
          | inl same ↦ rw same (
              update_metadata_self sys key origin env (merge_upstream_meta meta) d s
                (λ m h. record { table = h.table; bytes = h.bytes }))
          | inr ne ↦ update_metadata_ne sys key origin env j (merge_upstream_meta meta) d ne s
        ])
      ]

  drop_indexed_keeps :
      (j : String) (d : Disk sys)
      → IsSound sys key origin d
      → IsSound sys key origin (drop_indexed sys j d)
  unfolding drop_indexed
  drop_indexed_keeps j d s = record {
    stored = s.stored;
    indexed = λ m e. s.indexed m (ground (arith, lookup-remove j key d.metadata_index));
  }

  drop_metadata_file_ne :
      (j : String) (d : Disk sys)
      → get_file_path sys j ≢ get_file_path sys key
      → IsSound sys key origin d
      → IsSound sys key origin (drop_metadata_file sys j d)
  unfolding drop_metadata_file
  drop_metadata_file_ne j d ne s = record {
    stored = λ blob m e f. s.stored blob m (sym (update_ne _ _ none d.metadata_files ne) ∙ e) f;
    indexed = s.indexed;
  }

  -- Without any metadata there is nothing to be wrong about.
  drop_both :
      (d : Disk sys)
      → IsSound sys key origin
          (drop_metadata_file sys key (set_data_file sys key none (drop_indexed sys key d)))
  unfolding drop_metadata_file set_data_file drop_indexed
  drop_both d = record {
    stored = λ blob m e f. cc (sym (update_self (get_file_path sys key) none d.metadata_files) ∙ e);
    indexed = λ m e. ground (arith, lookup-remove key key d.metadata_index, =?-refl key);
  }

  pub delete_keeps :
      (env : Env) (j : String) (d : Disk sys)
      → (j ≡ key) × (env.remove_metadata ≡ none) ⊎ (get_file_path sys j ≢ get_file_path sys key)
      → IsSound sys key origin d
      → IsSound sys key origin (delete sys env j d).1
  unfolding delete
  delete_keeps env j d (inl (same, whole)) s =
      let P : Disk sys → Type 0 = IsSound sys key origin in
      rw same (
        Keeps-attempt P env.remove_data _ (drop_indexed sys key d) (drop_indexed_keeps key d s) (
          subst
            (λ o.
              P
                ((attempt o >> modify (drop_metadata_file sys key))
                  (set_data_file sys key none (drop_indexed sys key d))).1)
            (sym whole) (drop_both d)))
  delete_keeps env j d (inr ne) s =
      let P : Disk sys → Type 0 = IsSound sys key origin in
      let forgotten = drop_indexed_keeps j d s in
      let gone = set_data_file_ne sys key origin j none (drop_indexed sys j d) ne forgotten in
      Keeps-attempt P env.remove_data _ (drop_indexed sys j d) forgotten (
        Keeps-attempt P env.remove_metadata _ (set_data_file sys j none (drop_indexed sys j d)) gone
          (drop_metadata_file_ne j _ ne gone))
