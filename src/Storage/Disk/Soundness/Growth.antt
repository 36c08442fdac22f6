-- ===== src/Storage/Disk/Soundness/Growth.antt =====
-- src/storage/disk.rs: a byte of the resource that is in a data file stays there, whatever is written
-- or recorded.
use video_proxy_server.Prelude.{
  ℕ, ◌-◌, String, ◌≡◌, ◌≢◌, ◌⊎◌, refl, inl, inr, Bool, true, false, Option, none, some, List, [],
  arith, get_elem?, length, Bool-cases, checked_add,
}
use video_proxy_server.Map.{nat_eq, list_eq, string_eq}
use video_proxy_server.Error.{Result, ok_or, storage, text, ProxyError}
use video_proxy_server.Exec.{lift}
use video_proxy_server.Exec.Keeps.{Keeps-bind, Keeps-attempt}
use video_proxy_server.Storage.Disk.File.{Bytes, content}
use video_proxy_server.Storage.Disk.File.Origin.{Matches, Matches-take, write_at-keeps}
use video_proxy_server.Storage.Disk.Metadata.{RangeMetadata}
use video_proxy_server.Storage.Disk.Store.{
  System, Env, Disk, get_file_path, set_data_file, put_metadata, index_insert, save_metadata,
  save_if, stamp, current_metadata, update_metadata, record_completed_range,
}
use video_proxy_server.Storage.Disk.Write.{
  Received, receive, max_length_of, open_file, put_bytes, is_recordable, delivered, sync_result,
  record_synced, record_received, write,
}
use video_proxy_server.Storage.Disk.Soundness.{Holds, Delivers}
use video_proxy_server.Storage.Disk.Soundness.Files.{update_ne, set_data_file-data_files}
use video_proxy_server.Storage.Disk.Soundness.Metadata.{write_metadata_outcome}
use video_proxy_server.Storage.Disk.Soundness.Write.{
  IsReceived, receive-IsReceived, flushed-Matches, put_bytes-content,
}

-- Recording changes no data file.
save_if-data_files :
    (sys : System) (env : Env) (j : String) (edited : RangeMetadata × Bool) (d : Disk sys)
    → (save_if sys env j edited d).1.data_files ≡ d.data_files
unfolding save_metadata put_metadata index_insert
save_if-data_files sys env j (m, false) d = refl
save_if-data_files sys env j (m, true) d =
    elim (write_metadata_outcome sys env j (stamp sys j m) d) [
      | inl p ↦ rw p refl
      | inr (e, p) ↦ rw p refl
    ]

pub update_metadata-data_files :
    (sys : System) (env : Env) (j : String) (edit : RangeMetadata → RangeMetadata × Bool)
    (d : Disk sys)
    → (update_metadata sys env j edit d).1.data_files ≡ d.data_files
unfolding update_metadata
update_metadata-data_files sys env j edit d =
    save_if-data_files sys env j (edit (current_metadata sys env j d)) d

module _ (sys : System) (key : String) (origin : ℕ → ℕ) where
  -- The bytes of the resource that were in the file are still there.
  pub record IsGrown (d t : Disk sys) : Type 0 where
    pub kept :
        (b : ℕ)
        → get_elem? (content (d.data_files (get_file_path sys key))) b ≡ some (origin b)
        → get_elem? (content (t.data_files (get_file_path sys key))) b ≡ some (origin b)

  pub IsGrown-refl : (d : Disk sys) → IsGrown d d
  IsGrown-refl d = record { kept = λ b h. h }

  pub IsGrown-trans : (c d t : Disk sys) → IsGrown c d → IsGrown d t → IsGrown c t
  IsGrown-trans c d t g h = record { kept = λ b e. h.kept b (g.kept b e) }

  pub IsGrown-Holds :
      (m : RangeMetadata) (d t : Disk sys)
      → IsGrown d t
      → Holds origin m.completed (d.data_files (get_file_path sys key))
      → Holds origin m.completed (t.data_files (get_file_path sys key))
  IsGrown-Holds m d t g h = record { table = h.table; bytes = λ b held. g.kept b (h.bytes b held) }

  pub same-IsGrown : (d t : Disk sys) → t.data_files ≡ d.data_files → IsGrown d t
  same-IsGrown d t e = record { kept = λ b h. rw e h }

  -- The data file of another key.
  pub other-IsGrown :
      (j : String) (file : Option Bytes) (d : Disk sys)
      → get_file_path sys j ≢ get_file_path sys key
      → IsGrown d (set_data_file sys j file d)
  unfolding set_data_file
  other-IsGrown j file d ne = record {
    kept =
        λ b h. rw (update_ne (get_file_path sys j) (get_file_path sys key) file d.data_files ne) h;
  }

  open-IsGrown : (d : Disk sys) → IsGrown d (open_file sys key d)
  unfolding open_file
  open-IsGrown d = record {
    kept = λ b h.
        rw
          (set_data_file-data_files sys key (some (content (d.data_files (get_file_path sys key))))
            d)
          h;
  }

  put-IsGrown :
      (offset : ℕ) (bytes : Bytes) (d : Disk sys)
      → Matches origin offset bytes
      → IsGrown d (put_bytes sys key offset bytes d)
  put-IsGrown offset bytes d m = record {
    kept = λ b h.
        rw (put_bytes-content sys key origin offset bytes d) (
          write_at-keeps origin (content (d.data_files (get_file_path sys key))) offset bytes b m
            h);
  }

  record_received-IsGrown :
      (env : Env) (j : String) (start : ℕ) (r : Received) (d : Disk sys)
      → IsGrown d (record_received sys env j start r d).1
  unfolding record_received record_completed_range
  record_received-IsGrown env j start r d = elim (Bool-cases (is_recordable sys r)) [
    | inr p ↦ rw p (IsGrown-refl d)
    | inl p ↦ rw p (synced (sync_result env.flush env.sync_data))
  ]
    where
      synced : (sync : Option ProxyError) → IsGrown d (record_synced sys env j start r sync d).1
      synced (some e) = IsGrown-refl d
      synced none =
          let P : Disk sys → Type 0 = IsGrown d in
          Keeps-bind P
            (lift (ok_or (checked_add start (length r.counted - 1)) (storage (text "写入范围溢出")))) _ d
            (IsGrown-refl d)
            λ end e.
              let recorded = same-IsGrown d _ (update_metadata-data_files sys env j _ d) in
              Keeps-bind P (record_completed_range sys env j start end) _ d recorded
                (λ _ _. recorded)

  delivered-Matches :
      (env : Env) (start : ℕ) (r : Received)
      → IsReceived origin start r
      → Matches origin start (delivered sys env r)
  delivered-Matches env start r h = elim (Bool-cases (is_recordable sys r)) [
    | inl p ↦ rw p (flushed-Matches sys key origin env start r env.flush h)
    | inr p ↦ rw p (Matches-take origin env.drained r.attempted start h.matches)
  ]

  write_self :
      (env : Env) (stream : List (Result Bytes)) (range : ℕ × ℕ) (d : Disk sys)
      → Delivers origin range.0 stream
      → IsGrown d (write sys env key stream range d).1
  unfolding write
  write_self env stream range d h =
      let P : Disk sys → Type 0 = IsGrown d in
      let opened = open-IsGrown d in
      Keeps-bind P (lift (max_length_of range)) _ d (IsGrown-refl d) λ max_length e.
        Keeps-attempt P env.create_dir _ d (IsGrown-refl d) (
          Keeps-attempt P env.open_file _ d (IsGrown-refl d) (
            Keeps-attempt P env.seek _ (open_file sys key d) opened (
              let r = receive env max_length 0 [] stream in
              let received =
                receive-IsReceived origin env max_length 0 range.0 range.0 [] stream (omega arith)
                  tt h in
              let o = open_file sys key d in
              let t = put_bytes sys key range.0 (delivered sys env r) o in
              IsGrown-trans d t (record_received sys env key range.0 r t).1
                (IsGrown-trans d o t opened (
                  put-IsGrown range.0 (delivered sys env r) o
                    (delivered-Matches env range.0 r received)))
                (record_received-IsGrown env key range.0 r t))))

  write_ne :
      (env : Env) (j : String) (stream : List (Result Bytes)) (range : ℕ × ℕ) (d : Disk sys)
      → get_file_path sys j ≢ get_file_path sys key
      → IsGrown d (write sys env j stream range d).1
  unfolding write open_file put_bytes
  write_ne env j stream range d ne =
      let P : Disk sys → Type 0 = IsGrown d in
      let opened = other-IsGrown j (some (content (d.data_files (get_file_path sys j)))) d ne in
      Keeps-bind P (lift (max_length_of range)) _ d (IsGrown-refl d) λ max_length e.
        Keeps-attempt P env.create_dir _ d (IsGrown-refl d) (
          Keeps-attempt P env.open_file _ d (IsGrown-refl d) (
            Keeps-attempt P env.seek _ (open_file sys j d) opened (
              let r = receive env max_length 0 [] stream in
              let o = open_file sys j d in
              let t = put_bytes sys j range.0 (delivered sys env r) o in
              IsGrown-trans d t (record_received sys env j range.0 r t).1
                (IsGrown-trans d o t opened (other-IsGrown j _ o ne))
                (record_received-IsGrown env j range.0 r t))))

  pub write-IsGrown :
      (env : Env) (j : String) (stream : List (Result Bytes)) (range : ℕ × ℕ) (d : Disk sys)
      → (j ≡ key) × Delivers origin range.0 stream ⊎ (get_file_path sys j ≢ get_file_path sys key)
      → IsGrown d (write sys env j stream range d).1
  write-IsGrown env j stream range d (inl (same, h)) = rw same (write_self env stream range d h)
  write-IsGrown env j stream range d (inr ne) = write_ne env j stream range d ne
